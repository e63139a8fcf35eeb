-- ===== src/Scenarios/Accounts.antt =====
-- Two accounts, and transfers between them.
use q_pay_flow.Base.{
  List, All, ◌⊎◌, ℕ, String, Bool, true, false, ◌≡◌, refl, some, [], ◌∷◌, arith, str_eq, eq_iff, ok,
  ◌↔◌, Bool-cases, inl, inr,
}
use q_pay_flow.Base.Int.{pos, ◌≤ℤ◌, ◌+ℤ◌}
use q_pay_flow.Account.Model.{Account, BalanceLedger}
use q_pay_flow.Account.Repository.{find_account, ledger_sum}
use q_pay_flow.Account.Service.{Env, Request, Site, transfer}
use q_pay_flow.Account.RowLocks.{LockStage, asks_first, asks_second, ended, lockers, any_moves}
use q_pay_flow.Account.Deadlock.{no_deadlock}
use q_pay_flow.Account.Effect.{total_balance}
use q_pay_flow.Account.Ledger.{
  WellFormed, Outcome, transfer-Outcome, transfer-WellFormed, transfer_conserves,
}
use q_pay_flow.Account.Funds.{IsCovered}
use q_pay_flow.Account.Success.{IdsFree, transfer_iff}
use q_pay_flow.Schema.{Tables}

abbrev pub alice : Account
alice = record {
  id = "alice";
  owner_id = "u1";
  balance = pos 100;
  currency = "USD";
  version = 1;
  created_at = 0;
  updated_at = 0;
}

abbrev pub bob : Account
bob = record alice { id = "bob"; owner_id = "u2"; balance = pos 20 }

abbrev opening : String → String → ℕ → BalanceLedger
opening id account_id amount = record {
  id = id;
  account_id = account_id;
  amount = pos amount;
  type = "CREDIT";
  reference_id = "init";
  created_at = 0;
}

abbrev pub books : Tables
books = record {
  accounts = alice ∷ bob ∷ [];
  balance_ledgers = opening "l1" "alice" 100 ∷ opening "l2" "bob" 20 ∷ [];
  payments = [];
  outbox_events = [];
}

books_row :
    (k : String) (a : Account)
    → find_account k books.accounts ≡ some a
    → (pos 0 ≤ℤ a.balance) × (a.balance ≡ ledger_sum k books.balance_ledgers)
unfolding ◌+ℤ◌
books_row k a e = elim (Bool-cases (str_eq "alice" k)) [
  | inl h ↦
      let same : alice ≡ a = ground arith in
      rw (← same, ← (eq_iff "alice" k).0 h) (omega arith, refl)
  | inr h ↦ elim (Bool-cases (str_eq "bob" k)) [
    | inl g ↦
        let same : bob ≡ a = ground arith in rw (← same, ← (eq_iff "bob" k).0 g) (omega arith, refl)
    | inr g ↦ absurd (ground arith)
  ]
]

pub books-WellFormed : WellFormed books
books-WellFormed = record {
  unique = (refl, (refl, tt));
  nonneg = λ k a e. (books_row k a e).0;
  balanced = λ k a e. (books_row k a e).1;
}

abbrev pub up_env : Env
up_env = record { now = 7; debit_uuid = "d1"; credit_uuid = "c1"; fails = λ site. false }

-- The process dies before the commit.
abbrev commit_fails : Site → Bool
commit_fails Site.commit_tx = true
commit_fails _ = false

abbrev down_env : Env
down_env = record up_env { fails = commit_fails }

abbrev pub pay : ℕ → Request
pay amount = record {
  tx_id = "tx1";
  from_acc_id = "bob";
  to_acc_id = "alice";
  amount = pos amount;
  currency = "USD";
  description = "";
}

transfer-WellFormed_example : WellFormed (transfer up_env books (pay 15)).1
transfer-WellFormed_example = transfer-WellFormed up_env books (pay 15) books-WellFormed

transfer_conserves_example :
    total_balance (transfer up_env books (pay 15)).1.accounts ≡ total_balance books.accounts
transfer_conserves_example = transfer_conserves up_env books (pay 15) books-WellFormed.unique

transfer-Outcome_example : Outcome down_env books (pay 15) (transfer down_env books (pay 15))
transfer-Outcome_example = transfer-Outcome down_env books (pay 15)

books-IdsFree : IdsFree up_env books
books-IdsFree = record { debit_free = refl; credit_free = refl }

transfer_iff_example :
    ((transfer up_env books (pay 15)).0 ≡ ok tt)
    ↔ ((src : Account) × (dst : Account) × IsCovered books (pay 15) src dst)
transfer_iff_example = transfer_iff up_env books (pay 15) (λ site. refl) books-IdsFree

-- Two transfers in opposite directions, the first of which has its first row.
abbrev opposite : List ((String × String) × LockStage)
opposite = (("alice", "bob"), asks_second) ∷ (("bob", "alice"), asks_first) ∷ []

no_deadlock_example :
    (any_moves (lockers opposite) (lockers opposite) ≡ true)
    ⊎ All (λ l. l.stage ≡ ended) (lockers opposite)
no_deadlock_example = no_deadlock opposite (
  λ e. ground (arith, eq_iff "alice" "bob", e),
  (λ e. ground (arith, eq_iff "bob" "alice", e), tt),
)
