-- ===== src/Account/Repository.antt =====
-- cmd/account-service/internal/account/repository.go. A query runs on the tables that its caller
-- sees: those of the transaction, if it has one. The flag of a method says that the database
-- refuses or loses that call, and the constraints of the schema are written out.
use q_pay_flow.Base.{
  ℕ, suc, String, Bool, true, false, ◌&&◌, ◌||◌, List, [], ◌∷◌, ◌++◌, map, Option, none, some,
  Result, ok, err, str_eq, ◌==◌, if◌then◌else◌, count_if,
}
use q_pay_flow.Base.Int.{ℤ, pos, ◌+ℤ◌, ◌-ℤ◌}
use q_pay_flow.Base.Table.{find_by}
use q_pay_flow.Account.Model.{Account, BalanceLedger}
use q_pay_flow.Schema.{Tables}

pub data RepositoryError : Type 0 where
  get_account_failed lock_account_failed update_failed rows_affected_failed version_mismatch
        insert_ledger_failed ledger_sum_failed :
      RepositoryError

abbrev pub find_account : String → List Account → Option Account
find_account = find_by (λ a. a.id)

-- `sql.ErrNoRows` becomes `nil, nil`.
unfoldable pub get_account_by_id : Bool → Tables → String → Result RepositoryError (Option Account)
get_account_by_id down t id =
    if down then err get_account_failed else ok (find_account id t.accounts)

-- `SELECT ... FOR UPDATE`: the row as the transaction sees it.
unfoldable pub get_account_by_id_with_lock :
    Bool → Tables → String → Result RepositoryError (Option Account)
get_account_by_id_with_lock down t id =
    if down then err lock_account_failed else ok (find_account id t.accounts)

-- `WHERE id = $2 AND version = $3`.
abbrev pub matches : String → ℕ → Account → Bool
matches id old_version a = str_eq a.id id && a.version == old_version

-- `SET balance = $1, version = version + 1, updated_at = NOW()`, on the rows that match.
abbrev pub set_balance : ℕ → String → ℤ → ℕ → Account → Account
set_balance now id new_balance old_version a =
    if matches id old_version a
    then record a { balance = new_balance; version = suc a.version; updated_at = now }
    else a

unfoldable pub update_account_balance :
    (exec_down rows_down : Bool) (now : ℕ) → Tables → String → ℤ → ℕ → Result RepositoryError Tables
update_account_balance exec_down rows_down now t id new_balance old_version =
    let affected = count_if (matches id old_version) t.accounts in
    if exec_down
    then err update_failed
    else if rows_down
    then err rows_affected_failed
    else if affected == 0
    then err version_mismatch
    else ok (record t { accounts = map (set_balance now id new_balance old_version) t.accounts })

-- PRIMARY KEY (id), and account_id REFERENCES accounts(id).
abbrev pub is_found {ℓ} : {A : Type ℓ} → Option A → Bool
is_found none = false
is_found (some a) = true

unfoldable pub create_ledger_entry : Bool → Tables → BalanceLedger → Result RepositoryError Tables
create_ledger_entry down t entry =
    if down || is_found (find_by (λ e. e.id) entry.id t.balance_ledgers)
    then err insert_ledger_failed
    else if is_found (find_account entry.account_id t.accounts)
    then ok (record t { balance_ledgers = t.balance_ledgers ++ entry ∷ [] })
    else err insert_ledger_failed

-- `CASE WHEN type = 'CREDIT' THEN amount ELSE -amount END`.
abbrev pub signed_amount : BalanceLedger → ℤ
signed_amount e = if str_eq e.type "CREDIT" then e.amount else pos 0 -ℤ e.amount

-- `COALESCE(SUM(...), 0)` over the entries of one account.
abbrev pub ledger_sum : String → List BalanceLedger → ℤ
ledger_sum account_id [] = pos 0
ledger_sum account_id (e ∷ es) =
    let rest = ledger_sum account_id es in
    if str_eq e.account_id account_id then signed_amount e +ℤ rest else rest

unfoldable pub get_ledger_sum : Bool → Tables → String → Result RepositoryError ℤ
get_ledger_sum down t account_id =
    if down then err ledger_sum_failed else ok (ledger_sum account_id t.balance_ledgers)
