-- ===== src/Generator/Seeded.antt =====
-- What the seeder does to the books: a first run keeps them, a second one does not.
use mathlib.Core.Path.{subst}
use q_pay_flow.Base.{
  ℕ, ◌≡◌, ◌≢◌, refl, sym, ap, ◌∙◌, String, Bool, false, none, some, List, [], ◌∷◌, ◌++◌, arith,
  str_eq, eq_iff, str_eq_refl, str_eq-false, All, Bool-cases, inl, inr, ◌⊎◌, if◌then◌else◌,
}
use q_pay_flow.Base.Int.{ℤ, pos, ◌+ℤ◌, ◌≤ℤ◌, int_laws, parts_of_eq}
use q_pay_flow.Base.Table.{find_by-append, IsUnique-snoc}
use q_pay_flow.Account.Model.{Account, BalanceLedger}
use q_pay_flow.Account.Repository.{find_account, ledger_sum}
use q_pay_flow.Account.Ledger.{WellFormed, ledger_sum-snoc}
use q_pay_flow.Generator.Random.{account_id}
use q_pay_flow.Generator.Seeding.{
  SeedEnv, Site, begin, insert_account, insert_ledger, commit, seeded_account, seeded_entry,
  find_entry, add_entry, add_account, seed_account, end_seeding,
}
use q_pay_flow.Schema.{Tables}

-- The account is not there, no entry refers to it, and the generated entry id is free.
pub record IsFresh (env : SeedEnv) (idx : ℕ) (balance : ℤ) (t : Tables) : Type 0 where
  pub no_account : find_account (account_id idx) t.accounts ≡ none
  pub no_entries : All (λ (e : BalanceLedger). e.account_id ≢ account_id idx) t.balance_ledgers
  pub id_free : find_entry (seeded_entry env idx balance).id t.balance_ledgers ≡ none

ledger_sum-none :
    (k : String) (es : List BalanceLedger)
    → All (λ (e : BalanceLedger). e.account_id ≢ k) es
    → ledger_sum k es ≡ pos 0
ledger_sum-none k [] h = refl
ledger_sum-none k (e ∷ es) h = rw (str_eq-false e.account_id k h.0) (ledger_sum-none k es h.1)

-- The tables of a first seeding that commits.
abbrev pub seeded : SeedEnv → ℕ → ℤ → String → Tables → Tables
seeded env idx balance currency t = record t {
  accounts = t.accounts ++ seeded_account env idx balance currency ∷ [];
  balance_ledgers = t.balance_ledgers ++ seeded_entry env idx balance ∷ [];
}

-- A seeding ends with the new tables, or with the old ones.
end_seeding-cases :
    (fails : Site → Bool) (t t' : Tables)
    → ((end_seeding fails t t').1 ≡ t') ⊎ ((end_seeding fails t t').1 ≡ t)
end_seeding-cases fails t t' = elim (Bool-cases (fails begin)) [
  | inl e ↦ rw e (inr refl)
  | inr e ↦ elim (Bool-cases (fails insert_account)) [
    | inl f ↦ rw (e, f) (inr refl)
    | inr f ↦ elim (Bool-cases (fails insert_ledger)) [
      | inl g ↦ rw (e, f, g) (inr refl)
      | inr g ↦ elim (Bool-cases (fails commit)) [
        | inl h ↦ rw (e, f, g, h) (inr refl)
        | inr h ↦ rw (e, f, g, h) (inl refl)
      ]
    ]
  ]
]

module _ (env : SeedEnv) (idx : ℕ) (balance : ℤ) (currency : String) {t : Tables}
    (fresh : IsFresh env idx balance t) where
  seeded_row :
      (k : String) {x : Account}
      → find_account k (seeded env idx balance currency t).accounts ≡ some x
      → ((k ≢ account_id idx) × (find_account k t.accounts ≡ some x))
        ⊎ ((k ≡ account_id idx) × (x ≡ seeded_account env idx balance currency))
  seeded_row k {x} found = elim (Bool-cases (str_eq k (account_id idx))) [
    | inl e ↦
        let same : k ≡ account_id idx = (eq_iff k (account_id idx)).0 e in
        let missing : find_account k t.accounts ≡ none =
          ap (λ j. find_account j t.accounts) same ∙ fresh.no_account in
        inr (
          same,
          ground (
            arith,
            found,
            missing,
            find_by-append (λ (a : Account). a.id) k t.accounts
                (seeded_account env idx balance currency ∷ []),
          ),
        )
    | inr e ↦
        let ne : k ≢ account_id idx = ground (arith, eq_iff k (account_id idx)) in
        inl (
          ne,
          ground (
            arith,
            found,
            e,
            eq_iff k (account_id idx),
            eq_iff (account_id idx) k,
            find_by-append (λ (a : Account). a.id) k t.accounts
                (seeded_account env idx balance currency ∷ []),
          ),
        )
  ]

  seeded-WellFormed :
      pos 0 ≤ℤ balance → WellFormed t → WellFormed (seeded env idx balance currency t)
  seeded-WellFormed nonneg v = record {
    unique =
        IsUnique-snoc (λ (a : Account). a.id) t.accounts (seeded_account env idx balance currency)
          v.unique fresh.no_account;
    nonneg = λ k x found. elim (seeded_row k found) [
      | inl (ne, old) ↦ v.nonneg k x old
      | inr (same, new) ↦ rw new nonneg
    ];
    balanced = λ k x found. elim (seeded_row k found) [
      | inl (ne, old) ↦
          rw
            (
              ledger_sum-snoc k t.balance_ledgers (seeded_entry env idx balance),
              str_eq-false (account_id idx) k (λ e. ne (sym e)),
            )
            (omega (int_laws, parts_of_eq (v.balanced k x old)))
      | inr (same, new) ↦
          rw
            (
              new,
              same,
              ledger_sum-snoc (account_id idx) t.balance_ledgers (seeded_entry env idx balance),
              ledger_sum-none (account_id idx) t.balance_ledgers fresh.no_entries,
              str_eq_refl (account_id idx),
            )
            (omega int_laws)
    ];
  }

  seeded-eq :
      add_entry
        (seeded_entry env idx balance)
        (add_account (seeded_account env idx balance currency) t)
      ≡ seeded env idx balance currency t
  seeded-eq = rw (fresh.no_account, fresh.id_free) refl

  pub seed_account-cases :
      ((seed_account env idx balance currency t).1 ≡ seeded env idx balance currency t)
      ⊎ ((seed_account env idx balance currency t).1 ≡ t)
  unfolding seed_account
  seed_account-cases =
      elim (end_seeding-cases env.fails t (
        add_entry (seeded_entry env idx balance)
          (add_account (seeded_account env idx balance currency) t))) [
            | inl new ↦ inl (new ∙ seeded-eq)
            | inr old ↦ inr old
          ]

  -- Seeding an account that is not there keeps the books well formed, whatever call fails: with the
  -- account comes the entry that its balance is the sum of.
  pub seed_account-WellFormed :
      pos 0 ≤ℤ balance → WellFormed t → WellFormed (seed_account env idx balance currency t).1
  seed_account-WellFormed nonneg v = elim seed_account-cases [
    | inl new ↦ subst WellFormed (sym new) (seeded-WellFormed nonneg v)
    | inr old ↦ subst WellFormed (sym old) v
  ]

-- Seeding an account that is there already, as a second run of the seeder does, breaks books that
-- were well formed, where every call succeeds, the new entry's id is free and its amount is not
-- 0.
pub seed_account-again :
    (env : SeedEnv) (idx : ℕ) (balance : ℤ) (currency : String) (t : Tables) (a : Account)
    → find_account (account_id idx) t.accounts ≡ some a
    → find_entry (seeded_entry env idx balance).id t.balance_ledgers ≡ none
    → ((site : Site) → env.fails site ≡ false)
    → balance ≢ pos 0
    → WellFormed t
    → ¬ WellFormed (seed_account env idx balance currency t).1
unfolding seed_account
seed_account-again env idx balance currency t a found free works nonzero v broken =
    let after : Tables = record t {
      balance_ledgers = t.balance_ledgers ++ seeded_entry env idx balance ∷ [];
    } in
    let committed : (seed_account env idx balance currency t).1 ≡ after =
      rw (works begin, works insert_account, works insert_ledger, works commit, found)
        (rw free refl) in
    let broken' = subst WellFormed committed broken in
    let grown = broken'.balanced (account_id idx) a found in
    let snoc = ledger_sum-snoc (account_id idx) t.balance_ledgers (seeded_entry env idx balance) in
    let own = ap (λ (b : Bool). if b then balance else pos 0) (str_eq_refl (account_id idx)) in
    let more = grown ∙ snoc ∙ ap (λ b. ledger_sum (account_id idx) t.balance_ledgers +ℤ b) own in
    nonzero (omega (int_laws, parts_of_eq more, parts_of_eq (v.balanced (account_id idx) a found)))
