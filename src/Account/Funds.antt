-- ===== src/Account/Funds.antt =====
-- That each call of a covered transfer goes through, where the database answers.
use Prim.Native.String
use Prim.Native.Char.{code}
use text.Mathlib.TextLemmas.{append_assoc, append_cancel_left, cons-append, head-eq_of_cons-eq}
use q_pay_flow.Base.{
  ℕ, String, false, ◌≡◌, ◌≢◌, none, some, List, [], ◌∷◌, ◌++◌, map, arith, eq_iff, ◌∙◌, ap, sym, ok,
  count_if, str_eq-false,
}
use q_pay_flow.Base.Int.{ℤ, pos, ◌+ℤ◌, ◌-ℤ◌, ◌≤ℤ◌, ◌<ℤ◌}
use q_pay_flow.Base.Table.{find_by, find_by-map, find_by-append, find_by-key}
use q_pay_flow.Account.Model.{Account, BalanceLedger}
use q_pay_flow.Account.Repository.{
  find_account, set_balance, matches, update_account_balance, create_ledger_entry,
}
use q_pay_flow.Account.Service.{
  Env, Request, Site, debit_entry, credit_entry, lock_accounts, move_funds, check_request,
  lock_first, lock_second, update_src, count_src, update_dest, count_dest, write_debit,
  write_credit,
}
use q_pay_flow.Schema.{Tables}

-- A request that the guards and the balance check let through.
pub record IsCovered (t : Tables) (r : Request) (src dst : Account) : Type 0 where
  pub positive : pos 0 <ℤ r.amount
  pub from_given : r.from_acc_id ≢ ""
  pub to_given : r.to_acc_id ≢ ""
  pub distinct : r.from_acc_id ≢ r.to_acc_id
  pub src_found : find_account r.from_acc_id t.accounts ≡ some src
  pub dst_found : find_account r.to_acc_id t.accounts ≡ some dst
  pub covered : r.amount ≤ℤ src.balance

pub check_request-ok :
    (r : Request)
    → pos 0 <ℤ r.amount
    → r.from_acc_id ≢ ""
    → r.to_acc_id ≢ ""
    → r.from_acc_id ≢ r.to_acc_id
    → check_request r ≡ ok tt
check_request-ok r p f g d =
    ground (arith, eq_iff r.from_acc_id "", eq_iff r.to_acc_id "", eq_iff r.from_acc_id r.to_acc_id)

-- An update by id and version finds its row.
count_if-matches :
    (k : String) (rows : List Account) {a : Account}
    → find_by (λ x. x.id) k rows ≡ some a
    → count_if (matches a.id a.version) rows ≢ 0
count_if-matches k [] h = cc
count_if-matches k (x ∷ rows) {a} h =
    ground (arith, eq_iff x.id k, eq_iff x.id a.id, count_if-matches k rows {a = a})

pub lock_accounts-ok :
    (env : Env) (t : Tables) (r : Request) {src dst : Account}
    → env.fails lock_first ≡ false
    → env.fails lock_second ≡ false
    → r.from_acc_id ≢ r.to_acc_id
    → find_account r.from_acc_id t.accounts ≡ some src
    → find_account r.to_acc_id t.accounts ≡ some dst
    → lock_accounts env t r ≡ ok (src, dst)
unfolding lock_accounts
lock_accounts-ok env t r {src} {dst} a b ne hs hd =
    let ks : src.id ≡ r.from_acc_id = find_by-key (λ x. x.id) r.from_acc_id t.accounts hs in
    let kd : dst.id ≡ r.to_acc_id = find_by-key (λ x. x.id) r.to_acc_id t.accounts hd in
    ground (arith, eq_iff src.id r.from_acc_id, eq_iff dst.id r.from_acc_id)

-- The update of a row that is there goes through.
update_account_balance-ok :
    (now : ℕ) (t : Tables) (k : String) (b : ℤ) {a : Account}
    → find_account k t.accounts ≡ some a
    → update_account_balance false false now t a.id b a.version
      ≡ ok (record t { accounts = map (set_balance now a.id b a.version) t.accounts })
unfolding update_account_balance
update_account_balance-ok now t k b {a} h = ground (arith, count_if-matches k t.accounts {a = a})

create_ledger_entry-ok :
    (t : Tables) (e : BalanceLedger) {a : Account}
    → find_by (λ (x : BalanceLedger). x.id) e.id t.balance_ledgers ≡ none
    → find_account e.account_id t.accounts ≡ some a
    → create_ledger_entry false t e
      ≡ ok (record t { balance_ledgers = t.balance_ledgers ++ e ∷ [] })
unfolding create_ledger_entry
create_ledger_entry-ok t e fresh known = ground arith

-- Generated ids never clash between the two kinds of entries.
ids_apart : (x y : String) → String.◌++◌ "ldg_dr_" x ≢ String.◌++◌ "ldg_cr_" y
ids_apart x y e =
    let left = append_assoc "ldg_" "dr_" x in
    let right = append_assoc "ldg_" "cr_" y in
    let rest = append_cancel_left "ldg_" _ _ (sym left ∙ e ∙ right) in
    let heads = head-eq_of_cons-eq (sym (cons-append "d" "r_" x) ∙ rest ∙ cons-append "c" "r_" y) in
    omega (arith, ap code heads)

-- Two updates of different rows: the second row is there as it was, and both rows are there after.
module _ (now : ℕ) (t : Tables) (r : Request) {src dst : Account} (c : IsCovered t r src dst) where
  open c use {src_found, dst_found, distinct}

  debit_row : Account → Account
  debit_row = set_balance now src.id (src.balance -ℤ r.amount) src.version

  credit_row : Account → Account
  credit_row = set_balance now dst.id (dst.balance +ℤ r.amount) dst.version

  debit_row-id : (a : Account) → (debit_row a).id ≡ a.id
  unfolding debit_row
  debit_row-id a = ground arith

  credit_row-id : (a : Account) → (credit_row a).id ≡ a.id
  unfolding credit_row
  credit_row-id a = ground arith

  src_id : src.id ≡ r.from_acc_id
  src_id = find_by-key (λ a. a.id) r.from_acc_id t.accounts src_found

  dst_id : dst.id ≡ r.to_acc_id
  dst_id = find_by-key (λ a. a.id) r.to_acc_id t.accounts dst_found

  dst_kept : find_account r.to_acc_id (map debit_row t.accounts) ≡ some dst
  unfolding debit_row
  dst_kept =
      rw (find_by-map (λ a. a.id) debit_row r.to_acc_id t.accounts debit_row-id, dst_found)
        (ground (arith, eq_iff dst.id src.id, src_id, dst_id))

  still_there :
      (k : String) {a : Account}
      → find_account k t.accounts ≡ some a
      → find_account k (map credit_row (map debit_row t.accounts)) ≡ some (credit_row (debit_row a))
  still_there k h = rw (
    find_by-map (λ a. a.id) credit_row k (map debit_row t.accounts) credit_row-id,
    find_by-map (λ a. a.id) debit_row k t.accounts debit_row-id,
    h,
  )

  src_there :
      (a : Account) × (find_account src.id (map credit_row (map debit_row t.accounts)) ≡ some a)
  src_there = (
    credit_row (debit_row src),
    ap (λ k. find_account k (map credit_row (map debit_row t.accounts))) src_id
        ∙ still_there r.from_acc_id src_found,
  )

  dst_there :
      (a : Account) × (find_account dst.id (map credit_row (map debit_row t.accounts)) ≡ some a)
  dst_there = (
    credit_row (debit_row dst),
    ap (λ k. find_account k (map credit_row (map debit_row t.accounts))) dst_id
        ∙ still_there r.to_acc_id dst_found,
  )

-- The id of the CREDIT entry is still free once the DEBIT entry is in.
credit_fresh :
    (env : Env) (t : Tables) (r : Request) (src dst : Account)
    → find_by (λ (e : BalanceLedger). e.id) (credit_entry env r dst).id t.balance_ledgers ≡ none
    → find_by
        (λ (e : BalanceLedger). e.id)
        (credit_entry env r dst).id
        (t.balance_ledgers ++ debit_entry env r src ∷ [])
      ≡ none
credit_fresh env t r src dst h = rw (
  find_by-append (λ (e : BalanceLedger). e.id) (credit_entry env r dst).id t.balance_ledgers
      (debit_entry env r src ∷ []),
  h,
  str_eq-false _ _ (ids_apart env.debit_uuid env.credit_uuid),
)

-- `move_funds` on the rows that were locked.
pub move_funds-ok :
    (env : Env) (t : Tables) (r : Request) {src dst : Account}
    → ((site : Site) → env.fails site ≡ false)
    → IsCovered t r src dst
    → find_by (λ (e : BalanceLedger). e.id) (debit_entry env r src).id t.balance_ledgers ≡ none
    → find_by (λ (e : BalanceLedger). e.id) (credit_entry env r dst).id t.balance_ledgers ≡ none
    → (t' : Tables) × (move_funds env t r src dst ≡ ok t')
unfolding move_funds debit_row credit_row
move_funds-ok env t r {src} {dst} up c fresh_debit fresh_credit =
    let debited = map (debit_row env.now t r c) t.accounts in
    let t1 : Tables = record t { accounts = debited } in
    let t2 : Tables = record t { accounts = map (credit_row env.now t r c) debited } in
    let t3 : Tables = record t2 {
      balance_ledgers = t.balance_ledgers ++ debit_entry env r src ∷ [];
    } in
    (
      record t3 { balance_ledgers = t3.balance_ledgers ++ credit_entry env r dst ∷ [] },
      ground (
        arith,
        up update_src,
        up count_src,
        up update_dest,
        up count_dest,
        up write_debit,
        up write_credit,
        update_account_balance-ok env.now t r.from_acc_id (src.balance -ℤ r.amount) c.src_found,
        update_account_balance-ok env.now t1 r.to_acc_id (dst.balance +ℤ r.amount)
            (dst_kept env.now t r c),
        create_ledger_entry-ok t2 (debit_entry env r src) fresh_debit (src_there env.now t r c).1,
        create_ledger_entry-ok t3 (credit_entry env r dst)
            (credit_fresh env t r src dst fresh_credit) (dst_there env.now t r c).1,
      ),
    )
