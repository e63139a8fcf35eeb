-- ===== src/Account/Service.antt =====
-- cmd/account-service/internal/account/service.go: `GetAccount` and `Transfer`. `Site` names the
-- database calls of a transfer in the order of the code; `fails` says which of them do not succeed.
-- A transaction works on its own copy of the tables, which a commit publishes and every other end
-- (`defer tx.Rollback()`) drops.
use Prim.Native.String
use q_pay_flow.Base.{
  ℕ, String, Bool, ◌||◌, Option, Result, ok, err, ◌>>=◌, ◌>>◌, fail_if, or_fail, wrap_err, str_eq,
  if◌then◌else◌,
}
use q_pay_flow.Base.Order.{str_gt}
use q_pay_flow.Base.Int.{ℤ, pos, ◌+ℤ◌, ◌-ℤ◌, ltb_ℤ, leb_ℤ}
use q_pay_flow.Account.Model.{Account, BalanceLedger}
use q_pay_flow.Account.Repository.{
  RepositoryError, get_account_by_id, get_account_by_id_with_lock, update_account_balance,
  create_ledger_entry,
}
use q_pay_flow.Schema.{Tables}

pub data Site : Type 0 where
  begin_tx lock_first lock_second update_src count_src update_dest count_dest write_debit
        write_credit commit_tx :
      Site

pub data TransferError : Type 0 where
  amount_not_positive accounts_required same_account begin_failed commit_failed : TransferError
  lock_failed : String → RepositoryError → TransferError
  account_not_found : String → TransferError
  insufficient_balance : ℤ → ℤ → TransferError
  update_source_failed update_dest_failed : RepositoryError → TransferError
  debit_failed credit_failed : RepositoryError → TransferError

-- The arguments of `Transfer`; `currency` and `description` are passed and not read.
pub record Request : Type 0 where
  pub tx_id : String
  pub from_acc_id : String
  pub to_acc_id : String
  pub amount : ℤ
  pub currency : String
  pub description : String

-- What a run gets from outside: the clock, the two generated ids, and which calls fail.
pub record Env : Type 0 where
  pub now : ℕ
  pub debit_uuid : String
  pub credit_uuid : String
  pub fails : Site → Bool

unfoldable pub get_account : Bool → Tables → String → Result RepositoryError (Option Account)
unfolding get_account_by_id
get_account down t id = get_account_by_id down t id

-- The order in which the two rows are locked: `firstID`, `secondID`.
unfoldable pub lock_order : String → String → String × String
lock_order from_acc_id to_acc_id =
    if str_gt from_acc_id to_acc_id then (to_acc_id, from_acc_id) else (from_acc_id, to_acc_id)

abbrev pub check_request : Request → Result TransferError (Unit {0})
check_request r = do
  fail_if (leb_ℤ r.amount (pos 0)) amount_not_positive
  fail_if (str_eq r.from_acc_id "" || str_eq r.to_acc_id "") accounts_required
  fail_if (str_eq r.from_acc_id r.to_acc_id) same_account

-- Lock one row; a missing row is an error.
unfoldable pub lock_row : Bool → Tables → String → Result TransferError Account
unfolding get_account_by_id_with_lock
lock_row down t id = do
  found ← wrap_err (lock_failed id) (get_account_by_id_with_lock down t id)
  or_fail found (account_not_found id)

-- `firstAcc.ID == fromAccID`: which of the locked rows is the source.
abbrev pub map_back : String → Account → Account → Account × Account
map_back from_acc_id first_acc second_acc =
    if str_eq first_acc.id from_acc_id then (first_acc, second_acc) else (second_acc, first_acc)

-- Lock both rows in order, and map them back to source and destination.
unfoldable pub lock_accounts : Env → Tables → Request → Result TransferError (Account × Account)
unfolding lock_order lock_row
lock_accounts env t r = do
  let ids = lock_order r.from_acc_id r.to_acc_id
  first_acc ← lock_row (env.fails lock_first) t ids.0
  second_acc ← lock_row (env.fails lock_second) t ids.1
  ok (map_back r.from_acc_id first_acc second_acc)

abbrev pub debit_entry : Env → Request → Account → BalanceLedger
debit_entry env r src_acc = record {
  id = String.◌++◌ "ldg_dr_" env.debit_uuid;
  account_id = src_acc.id;
  amount = r.amount;
  type = "DEBIT";
  reference_id = r.tx_id;
  created_at = env.now;
}

abbrev pub credit_entry : Env → Request → Account → BalanceLedger
credit_entry env r dest_acc = record {
  id = String.◌++◌ "ldg_cr_" env.credit_uuid;
  account_id = dest_acc.id;
  amount = r.amount;
  type = "CREDIT";
  reference_id = r.tx_id;
  created_at = env.now;
}

-- Steps 2 to 4 on the locked rows: the balance check, the two updates and the two ledger entries.
unfoldable pub move_funds : Env → Tables → Request → Account → Account → Result TransferError Tables
move_funds env t r src_acc dest_acc = do
  fail_if (ltb_ℤ src_acc.balance r.amount) (insufficient_balance src_acc.balance r.amount)
  let new_src_balance = src_acc.balance -ℤ r.amount
  let new_dest_balance = dest_acc.balance +ℤ r.amount
  t1 ← wrap_err update_source_failed (
      update_account_balance (env.fails update_src) (env.fails count_src) env.now t src_acc.id
        new_src_balance src_acc.version)
  t2 ← wrap_err update_dest_failed (
      update_account_balance (env.fails update_dest) (env.fails count_dest) env.now t1 dest_acc.id
        new_dest_balance dest_acc.version)
  t3 ←
      wrap_err debit_failed
        (create_ledger_entry (env.fails write_debit) t2 (debit_entry env r src_acc))
  wrap_err credit_failed
      (create_ledger_entry (env.fails write_credit) t3 (credit_entry env r dest_acc))

-- The body of `Transfer` from the guards to the commit, on the transaction's copy of the tables.
unfoldable pub transfer_tx : Env → Tables → Request → Result TransferError Tables
transfer_tx env t r = do
  check_request r
  fail_if (env.fails begin_tx) begin_failed
  pair ← lock_accounts env t r
  t' ← move_funds env t r pair.0 pair.1
  fail_if (env.fails commit_tx) commit_failed
  ok t'

-- The result, and the tables that the database is left with.
abbrev pub end_tx {ℓ} : {E : Type 0} {T : Type ℓ} → T → Result E T → Result E (Unit {0}) × T
end_tx before (ok after) = (ok tt, after)
end_tx before (err e) = (err e, before)

unfoldable pub transfer : Env → Tables → Request → Result TransferError (Unit {0}) × Tables
unfolding transfer_tx
transfer env t r = end_tx t (transfer_tx env t r)
