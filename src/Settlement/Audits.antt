-- ===== src/Settlement/Audits.antt =====
-- What a passed audit says.
use q_pay_flow.Base.{
  ◌≤◌, ◌≡◌, ◌≢◌, ◌⊎◌, false, true, String, Bool-cases, inl, inr, ltb, List, [], ◌∷◌, map, ok, arith,
  All, ◌↔◌, count_if, select, refl, ap, sym, ◌∙◌,
}
use mathlib.Core.Path.{subst}
use q_pay_flow.Base.Int.{◌-ℤ◌, abs}
use q_pay_flow.Base.Table.{All-of_find, find_by-key}
use q_pay_flow.Account.Model.{Account, BalanceLedger}
use q_pay_flow.Account.Repository.{ledger_sum}
use q_pay_flow.Account.Ledger.{WellFormed}
use q_pay_flow.Payment.Model.{Payment, success}
use q_pay_flow.Settlement.Reconciliation.{
  LedgerDiscrepancy, joined_row, is_off, audit_ledger_integrity, ledger_count, is_missing,
  audit_three_way_reconciliation,
}
use q_pay_flow.Settlement.Floats.{
  to_float, float_distance, IsBelow, float_distance_far, float_distance_self, to_float_one,
}
use q_pay_flow.Schema.{Tables}

abbrev pub Any {ℓ} : {A : Type ℓ} → (A → Type 0) → List A → Type 0
Any P [] = ⊥
Any P (x ∷ xs) = P x ⊎ Any P xs

-- The row reports an account whose balance is not the sum of its ledger entries.
abbrev pub Describes : List BalanceLedger → LedgerDiscrepancy → Account → Type 0
Describes ledgers d a =
    (d.account_id ≡ a.id)
    × (d.current_balance ≡ a.balance)
    × (d.ledger_sum ≡ ledger_sum a.id ledgers)
    × (a.balance ≢ ledger_sum a.id ledgers)

abbrev Names : String → LedgerDiscrepancy → Type 0
Names id d = d.account_id ≡ id

-- If the account's balance and the sum of its entries are below 2 ^ 38 and differ by two units or
-- more, a row names it.
abbrev pub IsFound : List BalanceLedger → List LedgerDiscrepancy → Account → Type 0
IsFound ledgers report a =
    IsBelow a.balance
    → IsBelow (ledger_sum a.id ledgers)
    → 2 ≤ abs (a.balance -ℤ ledger_sum a.id ledgers)
    → Any (Names a.id) report

is_off_differs :
    (ledgers : List BalanceLedger) (a : Account)
    → is_off (joined_row ledgers a) ≡ true
    → a.balance ≢ ledger_sum a.id ledgers
unfolding is_off joined_row
is_off_differs ledgers a off same =
    let off' : ltb (to_float 1) (float_distance a.balance a.balance) ≡ true =
      subst (λ x. ltb (to_float 1) (float_distance a.balance x) ≡ true) (sym same) off in
    ground (arith, off', float_distance_self a.balance)

is_off_far :
    (ledgers : List BalanceLedger) (a : Account)
    → IsBelow a.balance
    → IsBelow (ledger_sum a.id ledgers)
    → 2 ≤ abs (a.balance -ℤ ledger_sum a.id ledgers)
    → is_off (joined_row ledgers a) ≡ true
unfolding is_off joined_row
is_off_far ledgers a hb hs far =
    let more = float_distance_far a.balance (ledger_sum a.id ledgers) hb hs far in
    let less = to_float_one in ground arith

module _ (ledgers : List BalanceLedger) where
  abbrev reported : List Account → List LedgerDiscrepancy
  reported rows = select is_off (map (joined_row ledgers) rows)

  reported-Describes :
      (rows all : List Account)
      → ((d : LedgerDiscrepancy) → Any (Describes ledgers d) rows → Any (Describes ledgers d) all)
      → All (λ d. Any (Describes ledgers d) all) (reported rows)
  unfolding joined_row
  reported-Describes [] all inside = tt
  reported-Describes (a ∷ rows) all inside =
      let later = reported-Describes rows all (λ d h. inside d (inr h)) in
      elim (Bool-cases (is_off (joined_row ledgers a))) [
        | inl e ↦ rw e (
          inside (joined_row ledgers a) (inl (refl, refl, refl, is_off_differs ledgers a e)),
          later,
        )
        | inr e ↦ rw e later
      ]

  reported-IsFound :
      (rows : List Account) (report : List LedgerDiscrepancy)
      → ((id : String) → Any (Names id) (reported rows) → Any (Names id) report)
      → All (IsFound ledgers report) rows
  unfolding joined_row
  reported-IsFound [] report inside = tt
  reported-IsFound (a ∷ rows) report inside =
      let into : (e : is_off (joined_row ledgers a) ≡ true)
          → Any (Names a.id) (reported (a ∷ rows)) =
        λ e. rw e (inl refl) in
      let later : (id : String)
          → Any (Names id) (reported rows)
          → Any (Names id) (reported (a ∷ rows)) =
        λ id h. elim (Bool-cases (is_off (joined_row ledgers a))) [
          | inl e ↦ rw e (inr h)
          | inr e ↦ rw e h
        ] in
      (
        λ hb hs far. inside a.id (into (is_off_far ledgers a hb hs far)),
        reported-IsFound rows report (λ id h. inside id (later id h)),
      )

-- Each row that the integrity audit reports, when it can read the tables, describes an account whose
-- balance is not the sum of its ledger entries; and each account for which both are below 2 ^ 38 in
-- size and differ by 0.0002 or more is named by a row.
pub audit_ledger_integrity_report :
    (t : Tables) {report : List LedgerDiscrepancy}
    → audit_ledger_integrity false false t ≡ ok report
    → All (λ d. Any (Describes t.balance_ledgers d) t.accounts) report
      × All (IsFound t.balance_ledgers report) t.accounts
unfolding audit_ledger_integrity
audit_ledger_integrity_report t {report} e =
    let same : reported t.balance_ledgers t.accounts ≡ report = cc in
    rw (sym same) (
      reported-Describes t.balance_ledgers t.accounts t.accounts (λ d h. h),
      reported-IsFound t.balance_ledgers t.accounts (reported t.balance_ledgers t.accounts)
          (λ id h. h),
    )

-- A payment that is not SUCCESS, or that has its two ledger entries.
abbrev pub Matched : List BalanceLedger → Payment → Type 0
Matched ledgers p = p.status ≡ success → 2 ≤ ledger_count p.id ledgers

missing_none :
    (ledgers : List BalanceLedger) (rows : List Payment)
    → (count_if (is_missing ledgers) rows ≡ 0) ↔ All (Matched ledgers) rows
missing_none ledgers [] = (λ h. tt, λ h. refl)
missing_none ledgers (p ∷ rows) =
    let (to, from) = missing_none ledgers rows in
    (
      λ h. (λ s. ground arith, to (ground arith)),
      λ h. let later = from h.1 in ground (arith, later, h.0),
    )

-- The three-way audit that can read the tables counts nothing exactly when every SUCCESS payment
-- has at least two ledger entries that refer to it, whatever their types and amounts.
pub audit_three_way_iff :
    (t : Tables)
    → (audit_three_way_reconciliation false t ≡ ok 0) ↔ All (Matched t.balance_ledgers) t.payments
unfolding audit_three_way_reconciliation
audit_three_way_iff t =
    let (to, from) = missing_none t.balance_ledgers t.payments in
    (λ h. to (cc), λ h. ap ok (from h))

-- No balance differs from the sum of its entries.
abbrev IsBalanced : List BalanceLedger → Account → Type 0
IsBalanced ledgers a = a.balance ≡ ledger_sum a.id ledgers

reported-IsBalanced :
    (ledgers : List BalanceLedger) (rows : List Account)
    → All (IsBalanced ledgers) rows
    → reported ledgers rows ≡ []
reported-IsBalanced ledgers [] h = refl
reported-IsBalanced ledgers (a ∷ rows) (same, h) =
    elim (Bool-cases (is_off (joined_row ledgers a))) [
      | inl e ↦ absurd (is_off_differs ledgers a e same)
      | inr e ↦ rw e (reported-IsBalanced ledgers rows h)
    ]

-- Books that are well formed pass the integrity audit.
pub WellFormed-audit : (t : Tables) → WellFormed t → audit_ledger_integrity false false t ≡ ok []
unfolding audit_ledger_integrity
WellFormed-audit t v = ap ok (
    reported-IsBalanced t.balance_ledgers t.accounts (
      All-of_find (λ a. a.id) (IsBalanced t.balance_ledgers) t.accounts v.unique
        (λ k a e.
          v.balanced k a e
          ∙ sym (
              ap (λ j. ledger_sum j t.balance_ledgers)
                (find_by-key (λ (x : Account). x.id) k t.accounts e)))))
