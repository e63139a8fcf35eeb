-- ===== src/Account/Ledger.antt =====
-- The books of the account service: what holds of them between two transfers, and that every
-- transfer keeps it, whatever call fails.
use mathlib.Core.Path.{subst}
use q_pay_flow.Base.{
  String, ◌≡◌, ◌≢◌, some, List, [], ◌∷◌, ◌++◌, arith, str_eq, eq_iff, ◌∙◌, ap, sym, Bool-cases, inl,
  inr, Result, ok, err, if◌then◌else◌, str_eq-false, refl, ◌⊎◌, some_inj,
}
use q_pay_flow.Base.Int.{ℤ, pos, int_laws, parts_of_eq, ◌+ℤ◌, ◌-ℤ◌, ◌≤ℤ◌}
use q_pay_flow.Base.Table.{IsUnique}
use q_pay_flow.Account.Model.{Account, BalanceLedger}
use q_pay_flow.Account.Repository.{find_account, ledger_sum, signed_amount}
use q_pay_flow.Account.Service.{
  Env, Request, transfer, transfer_tx, debit_entry, credit_entry, TransferError, end_tx,
}
use q_pay_flow.Account.Steps.{Transferred, transfer_tx-Transferred}
use q_pay_flow.Account.Effect.{
  with_balance, src_after, dst_after, other_after, IsUnique-after, total_after, total_balance,
  src_id, dst_id,
}
use q_pay_flow.Schema.{Tables}

-- Ids are unique, no balance is negative, and every balance is the sum of its ledger entries.
pub record WellFormed (t : Tables) : Type 0 where
  pub unique : IsUnique (λ (a : Account). a.id) t.accounts
  pub nonneg : (k : String) (a : Account) → find_account k t.accounts ≡ some a → pos 0 ≤ℤ a.balance
  pub balanced :
      (k : String) (a : Account)
      → find_account k t.accounts ≡ some a
      → a.balance ≡ ledger_sum k t.balance_ledgers

abbrev pub share : String → BalanceLedger → ℤ
share k e = if str_eq e.account_id k then signed_amount e else pos 0

pub ledger_sum-snoc :
    (k : String) (es : List BalanceLedger) (e : BalanceLedger)
    → ledger_sum k (es ++ e ∷ []) ≡ ledger_sum k es +ℤ share k e
ledger_sum-snoc k [] e = elim (Bool-cases (str_eq e.account_id k)) [
  | inl h ↦ rw h (omega int_laws)
  | inr h ↦ rw h (omega int_laws)
]
ledger_sum-snoc k (x ∷ es) e = elim (Bool-cases (str_eq x.account_id k)) [
  | inl h ↦ rw (h, ledger_sum-snoc k es e) (omega int_laws)
  | inr h ↦ rw h (ledger_sum-snoc k es e)
]

-- How an attempt ends: committed as described, or refused with the tables as they were.
abbrev pub Outcome : Env → Tables → Request → Result TransferError (Unit {0}) × Tables → Type 0
Outcome env t r (ok _, t') = Transferred env t r t'
Outcome env t r (err _, t') = t' ≡ t

end_tx-Outcome :
    (env : Env) (t : Tables) (r : Request) (m : Result TransferError Tables)
    → ((t' : Tables) → m ≡ ok t' → Transferred env t r t')
    → Outcome env t r (end_tx t m)
end_tx-Outcome env t r (ok t') h = h t' refl
end_tx-Outcome env t r (err e) h = refl

-- A transfer is all or nothing, whatever call fails: on an error the tables are as they were; on
-- success the guards passed, both accounts were there, the source held the amount, and exactly the
-- two balances, their versions and update times and the DEBIT and CREDIT entries of the
-- transaction were written.
pub transfer-Outcome : (env : Env) (t : Tables) (r : Request) → Outcome env t r (transfer env t r)
unfolding transfer
transfer-Outcome env t r =
    end_tx-Outcome env t r (transfer_tx env t r) (λ t' e. transfer_tx-Transferred env t r e)

Outcome-ok :
    {env : Env} {t : Tables} {r : Request} (out : Result TransferError (Unit {0}) × Tables)
    → Outcome env t r out
    → out.0 ≡ ok tt
    → Transferred env t r out.1
Outcome-ok (ok u, t') h e = h
Outcome-ok (err x, t') h e = cc

pub transfer-Transferred :
    (env : Env) (t : Tables) (r : Request)
    → (transfer env t r).0 ≡ ok tt
    → Transferred env t r (transfer env t r).1
transfer-Transferred env t r = Outcome-ok (transfer env t r) (transfer-Outcome env t r)

-- A property of the tables that both ends of an attempt give.
pub Outcome_elim {ℓ} :
    (P : Tables → Type ℓ) {env : Env} {t : Tables} {r : Request}
    (out : Result TransferError (Unit {0}) × Tables)
    → P t
    → ((t' : Tables) → Transferred env t r t' → P t')
    → Outcome env t r out
    → P out.1
Outcome_elim P (ok u, t') same moved h = moved t' h
Outcome_elim P (err e, t') same moved h = subst P (sym h) same

module _ {env : Env} {t : Tables} {r : Request} {t' : Tables} (s : Transferred env t r t') where
  open s use {src, dst, distinct, moved}

  ledger_sum_after :
      (k : String)
      → ledger_sum k t'.balance_ledgers
        ≡ ledger_sum k t.balance_ledgers
          +ℤ share k (debit_entry env r src)
          +ℤ share k (credit_entry env r dst)
  ledger_sum_after k = rw moved.ledgers_eq (
      rw
        (ledger_sum-snoc k (t.balance_ledgers ++ debit_entry env r src ∷ [])
          (credit_entry env r dst))
        (rw (ledger_sum-snoc k t.balance_ledgers (debit_entry env r src)) refl))

  -- A row after the transfer is one of the two that it wrote, or was there before.
  row_cases :
      (k : String) {a : Account}
      → find_account k t'.accounts ≡ some a
      → ((k ≡ r.from_acc_id) × (a ≡ with_balance env.now (src.balance -ℤ r.amount) src))
        ⊎ ((k ≡ r.to_acc_id) × (a ≡ with_balance env.now (dst.balance +ℤ r.amount) dst))
        ⊎ ((k ≢ r.from_acc_id) × (k ≢ r.to_acc_id) × (find_account k t.accounts ≡ some a))
  row_cases k {a} e = elim (Bool-cases (str_eq k r.from_acc_id)) [
    | inl f ↦
        let kf : k ≡ r.from_acc_id = (eq_iff k r.from_acc_id).0 f in
        inl (kf, some_inj (sym e ∙ ap (λ j. find_account j t'.accounts) kf ∙ src_after s))
    | inr nf ↦ elim (Bool-cases (str_eq k r.to_acc_id)) [
      | inl g ↦
          let kt : k ≡ r.to_acc_id = (eq_iff k r.to_acc_id).0 g in
          inr (inl (kt, some_inj (sym e ∙ ap (λ j. find_account j t'.accounts) kt ∙ dst_after s)))
      | inr ng ↦
          let kf : k ≢ r.from_acc_id = ground (arith, eq_iff k r.from_acc_id) in
          let kt : k ≢ r.to_acc_id = ground (arith, eq_iff k r.to_acc_id) in
          inr (inr (kf, kt, sym (other_after s k kf kt) ∙ e))
    ]
  ]

  share_debit_self : share r.from_acc_id (debit_entry env r src) ≡ pos 0 -ℤ r.amount
  share_debit_self = rw ((eq_iff src.id r.from_acc_id).1 (src_id s))

  share_credit_self : share r.to_acc_id (credit_entry env r dst) ≡ r.amount
  share_credit_self = rw ((eq_iff dst.id r.to_acc_id).1 (dst_id s))

  share_debit_ne : (k : String) → k ≢ r.from_acc_id → share k (debit_entry env r src) ≡ pos 0
  share_debit_ne k h = rw (str_eq-false src.id k (λ e. h (sym e ∙ src_id s)))

  share_credit_ne : (k : String) → k ≢ r.to_acc_id → share k (credit_entry env r dst) ≡ pos 0
  share_credit_ne k h = rw (str_eq-false dst.id k (λ e. h (sym e ∙ dst_id s)))

  balanced_after :
      WellFormed t
      → (k : String) (a : Account) → find_account k t'.accounts ≡ some a
      → a.balance ≡ ledger_sum k t'.balance_ledgers
  balanced_after v k a e = elim (row_cases k e) [
    | inl (kf, ea) ↦
        rw
          (
            kf,
            ea,
            ledger_sum_after r.from_acc_id,
            share_debit_self,
            share_credit_ne r.from_acc_id distinct,
          )
          (omega (int_laws, parts_of_eq (v.balanced r.from_acc_id src s.src_found)))
    | inr (inl (kt, ea)) ↦
        rw
          (
            kt,
            ea,
            ledger_sum_after r.to_acc_id,
            share_credit_self,
            share_debit_ne r.to_acc_id (λ h. distinct (sym h)),
          )
          (omega (int_laws, parts_of_eq (v.balanced r.to_acc_id dst s.dst_found)))
    | inr (inr (nf, nt, old)) ↦
        rw (ledger_sum_after k, share_debit_ne k nf, share_credit_ne k nt)
          (omega (int_laws, parts_of_eq (v.balanced k a old)))
  ]

  nonneg_after :
      WellFormed t
      → (k : String) (a : Account) → find_account k t'.accounts ≡ some a
      → pos 0 ≤ℤ a.balance
  nonneg_after v k a e = elim (row_cases k e) [
    | inl (kf, ea) ↦ rw ea (omega (int_laws, moved.covered))
    | inr (inl (kt, ea)) ↦
        rw ea (omega (int_laws, v.nonneg r.to_acc_id dst s.dst_found, s.positive))
    | inr (inr (nf, nt, old)) ↦ v.nonneg k a old
  ]

-- Whatever call fails, an attempt to transfer keeps the books well formed: ids stay unique, no
-- balance becomes negative, and every balance is still the sum of its ledger entries.
pub transfer-WellFormed :
    (env : Env) (t : Tables) (r : Request) → WellFormed t → WellFormed (transfer env t r).1
transfer-WellFormed env t r v =
    Outcome_elim WellFormed (transfer env t r) v
      (λ t' s. record {
        unique = IsUnique-after s v.unique;
        nonneg = nonneg_after s v;
        balanced = balanced_after s v;
      })
      (transfer-Outcome env t r)

-- Where account ids are unique, no attempt to transfer, failed or not, changes the sum of all
-- balances.
pub transfer_conserves :
    (env : Env) (t : Tables) (r : Request)
    → IsUnique (λ (a : Account). a.id) t.accounts
    → total_balance (transfer env t r).1.accounts ≡ total_balance t.accounts
transfer_conserves env t r u =
    Outcome_elim (λ t'. total_balance t'.accounts ≡ total_balance t.accounts) (transfer env t r)
      refl (λ t' s. total_after s u) (transfer-Outcome env t r)
