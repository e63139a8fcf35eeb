-- ===== src/Account/Effect.antt =====
-- What a committed transfer does to each account.
use mathlib.Core.Option
use q_pay_flow.Base.{
  ℕ, suc, String, ◌≡◌, ◌≢◌, some, map, arith, eq_iff, ◌∙◌, ap, inl, inr, sym, Option-cases, List,
}
use q_pay_flow.Base.Int.{ℤ, int_laws, parts_of_eq, ◌+ℤ◌, ◌-ℤ◌}
use q_pay_flow.Base.Table.{find_by-map, find_by-key, IsUnique, IsUnique-map, sum_by, sum_by-map_one}
use q_pay_flow.Account.Model.{Account}
use q_pay_flow.Account.Repository.{find_account, set_balance}
use q_pay_flow.Account.Service.{Env, Request}
use q_pay_flow.Account.Steps.{Transferred}
use q_pay_flow.Schema.{Tables}

abbrev pub total_balance : List Account → ℤ
total_balance = sum_by (λ a. a.balance)

-- A row after an update of its balance.
abbrev pub with_balance : ℕ → ℤ → Account → Account
with_balance now balance a = record a {
  balance = balance;
  version = suc a.version;
  updated_at = now;
}

set_balance-id :
    (now : ℕ) (id : String) (b : ℤ) (v : ℕ) (a : Account) → (set_balance now id b v a).id ≡ a.id
set_balance-id now id b v a = ground arith

set_balance_self :
    (now : ℕ) (b : ℤ) (a : Account) → set_balance now a.id b a.version a ≡ with_balance now b a
set_balance_self now b a = ground (arith, eq_iff a.id a.id)

set_balance_ne :
    (now : ℕ) (id : String) (b : ℤ) (v : ℕ) (a : Account) → a.id ≢ id → set_balance now id b v a ≡ a
set_balance_ne now id b v a h = ground (arith, eq_iff a.id id)

find_account-id :
    (k : String) (t : Tables) {a : Account} → find_account k t.accounts ≡ some a → a.id ≡ k
find_account-id k t h = find_by-key (λ a. a.id) k t.accounts h

module _ {env : Env} {t : Tables} {r : Request} {t' : Tables} (s : Transferred env t r t') where
  open s use {src, dst, distinct, src_found, dst_found, moved}

  debited : Account → Account
  debited = set_balance env.now src.id (src.balance -ℤ r.amount) src.version

  credited : Account → Account
  credited = set_balance env.now dst.id (dst.balance +ℤ r.amount) dst.version

  -- The row of any account, after both updates.
  find_account-moved :
      (k : String)
      → find_account k t'.accounts
        ≡ Option.map credited (Option.map debited (find_account k t.accounts))
  unfolding debited credited
  find_account-moved k =
      ap (find_account k) moved.accounts_eq
      ∙ find_by-map (λ a. a.id) credited k (map debited t.accounts) (set_balance-id _ _ _ _)
      ∙ ap (Option.map credited)
          (find_by-map (λ a. a.id) debited k t.accounts (set_balance-id _ _ _ _))

  -- The same, for an account that was there.
  row_after :
      (k : String) {a : Account}
      → find_account k t.accounts ≡ some a
      → find_account k t'.accounts ≡ some (credited (debited a))
  row_after k e = find_account-moved k ∙ ap (λ o. Option.map credited (Option.map debited o)) e

  ids_differ : src.id ≢ dst.id
  ids_differ e = distinct (
      sym (find_account-id r.from_acc_id t src_found) ∙ e ∙ find_account-id r.to_acc_id t dst_found)

  pub src_after :
      find_account r.from_acc_id t'.accounts
      ≡ some (with_balance env.now (src.balance -ℤ r.amount) src)
  unfolding debited credited
  src_after =
      row_after r.from_acc_id src_found
      ∙ ap some (
          ap credited (set_balance_self _ _ src)
          ∙ set_balance_ne _ _ _ _ (with_balance _ _ src) ids_differ)

  pub dst_after :
      find_account r.to_acc_id t'.accounts
      ≡ some (with_balance env.now (dst.balance +ℤ r.amount) dst)
  unfolding debited credited
  dst_after =
      row_after r.to_acc_id dst_found
      ∙ ap some (
          ap credited (set_balance_ne _ _ _ _ dst (λ e. ids_differ (sym e)))
          ∙ set_balance_self _ _ dst)

  pub other_after :
      (k : String)
      → k ≢ r.from_acc_id
      → k ≢ r.to_acc_id
      → find_account k t'.accounts ≡ find_account k t.accounts
  unfolding debited credited
  other_after k nf nt = elim (Option-cases (find_account k t.accounts)) [
    | inl e ↦ find_account-moved k ∙ ap (λ o. Option.map credited (Option.map debited o)) e ∙ sym e
    | inr (a, e) ↦
        let ka : a.id ≡ k = find_account-id k t e in
        let ks : src.id ≡ r.from_acc_id = find_account-id r.from_acc_id t src_found in
        let kd : dst.id ≡ r.to_acc_id = find_account-id r.to_acc_id t dst_found in
        row_after k e
        ∙ ap some (
            ap credited (set_balance_ne _ _ _ _ a (λ h. nf (sym ka ∙ h ∙ ks)))
            ∙ set_balance_ne _ _ _ _ a (λ h. nt (sym ka ∙ h ∙ kd)))
        ∙ sym e
  ]

  pub IsUnique-after :
      IsUnique (λ (a : Account). a.id) t.accounts → IsUnique (λ (a : Account). a.id) t'.accounts
  IsUnique-after u = rw moved.accounts_eq (
      IsUnique-map (λ a. a.id) _ _ (set_balance-id _ _ _ _)
        (IsUnique-map (λ a. a.id) _ _ (set_balance-id _ _ _ _) u))

  pub src_id : src.id ≡ r.from_acc_id
  src_id = find_account-id r.from_acc_id t src_found

  pub dst_id : dst.id ≡ r.to_acc_id
  dst_id = find_account-id r.to_acc_id t dst_found

  debited_others : (x : Account) → x.id ≢ r.from_acc_id → (debited x).balance ≡ x.balance
  unfolding debited
  debited_others x h =
      ap (λ (a : Account). a.balance) (set_balance_ne _ _ _ _ x (λ e. h (e ∙ src_id)))

  credited_others : (x : Account) → x.id ≢ r.to_acc_id → (credited x).balance ≡ x.balance
  unfolding credited
  credited_others x h =
      ap (λ (a : Account). a.balance) (set_balance_ne _ _ _ _ x (λ e. h (e ∙ dst_id)))

  debited_dst : find_account r.to_acc_id (map debited t.accounts) ≡ some dst
  unfolding debited
  debited_dst =
      find_by-map (λ a. a.id) debited r.to_acc_id t.accounts (set_balance-id _ _ _ _)
      ∙ ap (Option.map debited) dst_found
      ∙ ap some (set_balance_ne _ _ _ _ dst (λ e. ids_differ (sym e)))

  -- The sum of the balances moves by what each update changes, and those cancel.
  pub total_after :
      IsUnique (λ (a : Account). a.id) t.accounts
      → total_balance t'.accounts ≡ total_balance t.accounts
  unfolding debited credited
  total_after u =
      let less =
        sum_by-map_one (λ a. a.id) (λ a. a.balance) debited r.from_acc_id debited_others t.accounts
          u src_found in
      let more =
        sum_by-map_one (λ a. a.id) (λ a. a.balance) credited r.to_acc_id credited_others
          (map debited t.accounts) (IsUnique-map (λ a. a.id) _ _ (set_balance-id _ _ _ _) u)
          debited_dst in
      ap total_balance moved.accounts_eq
      ∙ omega (
        int_laws,
        parts_of_eq less,
        parts_of_eq more,
        parts_of_eq (
            ap (λ (a : Account). a.balance)
              (set_balance_self env.now (src.balance -ℤ r.amount) src)),
        parts_of_eq (
            ap (λ (a : Account). a.balance)
              (set_balance_self env.now (dst.balance +ℤ r.amount) dst)),
      )
