-- ===== src/Account/Steps.antt =====
-- What the steps of a transfer have done when they succeed.
use q_pay_flow.Base.{
  Bool, String, ◌≡◌, ◌≢◌, some, [], ◌∷◌, ◌++◌, map, ok, arith, eq_iff, Bool-cases, inl, inr,
  >>=-eq-ok, fail_if, ap, ◌∙◌,
}
use q_pay_flow.Base.Order.{str_gt}
use q_pay_flow.Base.Int.{pos, ◌+ℤ◌, ◌-ℤ◌, ◌≤ℤ◌, ◌<ℤ◌}
use q_pay_flow.Base.Table.{find_by-key}
use q_pay_flow.Account.Model.{Account}
use q_pay_flow.Account.Repository.{
  find_account, set_balance, update_account_balance, create_ledger_entry,
}
use q_pay_flow.Account.Service.{
  Env, Request, lock_order, lock_row, lock_accounts, map_back, move_funds, transfer_tx, debit_entry,
  credit_entry, check_request, lock_first, lock_second, begin_tx, begin_failed,
}
use q_pay_flow.Schema.{Tables}

lock_row-eq-ok :
    (down : Bool) (t : Tables) (id : String) {a : Account}
    → lock_row down t id ≡ ok a
    → find_account id t.accounts ≡ some a
unfolding lock_row
lock_row-eq-ok down t id h = ground arith

map_back-eq :
    (from_id to_id : String) (t : Tables) (a b : Account)
    → from_id ≢ to_id
    → find_account (lock_order from_id to_id).0 t.accounts ≡ some a
    → find_account (lock_order from_id to_id).1 t.accounts ≡ some b
    → (find_account from_id t.accounts ≡ some (map_back from_id a b).0)
      × (find_account to_id t.accounts ≡ some (map_back from_id a b).1)
unfolding lock_order
map_back-eq from_id to_id t a b ne ha hb = elim (Bool-cases (str_gt from_id to_id)) [
  | inl e ↦ ground (arith, eq_iff a.id from_id, find_by-key (λ x. x.id) to_id t.accounts {a = a})
  | inr e ↦ ground (arith, eq_iff a.id from_id, find_by-key (λ x. x.id) from_id t.accounts {a = a})
]

pub lock_accounts-eq-ok :
    (env : Env) (t : Tables) (r : Request) {p : Account × Account}
    → r.from_acc_id ≢ r.to_acc_id
    → lock_accounts env t r ≡ ok p
    → (find_account r.from_acc_id t.accounts ≡ some p.0)
      × (find_account r.to_acc_id t.accounts ≡ some p.1)
unfolding lock_accounts
lock_accounts-eq-ok env t r {p} ne h =
    let ids : String × String = lock_order r.from_acc_id r.to_acc_id in
    let (a, ha, h1) = >>=-eq-ok (lock_row (env.fails lock_first) t ids.0) _ h in
    let (b, hb, h2) = >>=-eq-ok (lock_row (env.fails lock_second) t ids.1) _ h1 in
    let same : map_back r.from_acc_id a b ≡ p = cc in
    rw (← same) (
      map_back-eq r.from_acc_id r.to_acc_id t a b ne (lock_row-eq-ok _ t ids.0 ha)
        (lock_row-eq-ok _ t ids.1 hb))

-- The tables after a successful `move_funds`.
pub record Moved (env : Env) (t : Tables) (r : Request) (src dst : Account) (t' : Tables)
    : Type 0 where
  pub covered : r.amount ≤ℤ src.balance
  pub accounts_eq :
      t'.accounts
      ≡ map
          (set_balance env.now dst.id (dst.balance +ℤ r.amount) dst.version)
          (map (set_balance env.now src.id (src.balance -ℤ r.amount) src.version) t.accounts)
  pub ledgers_eq :
      t'.balance_ledgers
      ≡ (t.balance_ledgers ++ debit_entry env r src ∷ []) ++ credit_entry env r dst ∷ []
  pub payments_eq : t'.payments ≡ t.payments
  pub outbox_eq : t'.outbox_events ≡ t.outbox_events

pub move_funds-Moved :
    (env : Env) (t : Tables) (r : Request) (src dst : Account) {t' : Tables}
    → move_funds env t r src dst ≡ ok t'
    → Moved env t r src dst t'
unfolding move_funds update_account_balance create_ledger_entry
move_funds-Moved env t r src dst h = ground arith

pub check_request-eq-ok :
    (r : Request) {u : Unit {0}}
    → check_request r ≡ ok u
    → (pos 0 <ℤ r.amount)
      × (r.from_acc_id ≢ "")
      × (r.to_acc_id ≢ "")
      × (r.from_acc_id ≢ r.to_acc_id)
check_request-eq-ok r h = (
  ground arith,
  ground (arith, eq_iff r.from_acc_id ""),
  ground (arith, eq_iff r.to_acc_id ""),
  ground (arith, eq_iff r.from_acc_id r.to_acc_id),
)

-- A transfer that commits: the guards passed, both rows were there, and the funds moved.
pub record Transferred (env : Env) (t : Tables) (r : Request) (t' : Tables) : Type 0 where
  pub src : Account
  pub dst : Account
  pub positive : pos 0 <ℤ r.amount
  pub from_given : r.from_acc_id ≢ ""
  pub to_given : r.to_acc_id ≢ ""
  pub distinct : r.from_acc_id ≢ r.to_acc_id
  pub src_found : find_account r.from_acc_id t.accounts ≡ some src
  pub dst_found : find_account r.to_acc_id t.accounts ≡ some dst
  pub moved : Moved env t r src dst t'

pub transfer_tx-Transferred :
    (env : Env) (t : Tables) (r : Request) {t' : Tables}
    → transfer_tx env t r ≡ ok t'
    → Transferred env t r t'
unfolding transfer_tx
transfer_tx-Transferred env t r {t'} h =
    let (u, checked, h1) = >>=-eq-ok (check_request r) _ h in
    let (v, begun, h2) = >>=-eq-ok (fail_if (env.fails begin_tx) begin_failed) _ h1 in
    let (p, locked, h3) = >>=-eq-ok (lock_accounts env t r) _ h2 in
    let (t2, moved, h4) = >>=-eq-ok (move_funds env t r p.0 p.1) _ h3 in
    let same : t2 ≡ t' = ground arith in
    let (positive, from, to, distinct) = check_request-eq-ok r checked in
    let (src_found, dst_found) = lock_accounts-eq-ok env t r distinct locked in
    record {
      src = p.0;
      dst = p.1;
      positive = positive;
      from_given = from;
      to_given = to;
      distinct = distinct;
      src_found = src_found;
      dst_found = dst_found;
      moved = move_funds-Moved env t r p.0 p.1 (moved ∙ ap ok same);
    }
