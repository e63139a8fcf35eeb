-- ===== src/System/Books.antt =====
-- What holds of the tables between two operations of either service, and that each keeps it.
use q_pay_flow.Base.{
  ℕ, ◌≤◌, ◌≡◌, refl, String, Bool, ok, err, List, [], ◌∷◌, map, arith, str_eq, eq_iff, sym, inl,
  inr, Bool-cases, All, All-append, Appended-count,
}
use mathlib.Core.Path.{subst}
use q_pay_flow.Base.Table.{find_by-key}
use q_pay_flow.Redis.Interface.{Redis}
use q_pay_flow.Account.Model.{BalanceLedger}
use q_pay_flow.Account.Service.{Env, Request, transfer}
use q_pay_flow.Account.Ledger.{WellFormed, transfer-WellFormed, transfer-Outcome, Outcome_elim}
use q_pay_flow.Payment.Model.{Payment, PaymentStatus, success}
use q_pay_flow.Payment.Repository.{set_status}
use q_pay_flow.Payment.Create
use q_pay_flow.Payment.Create.{
  Encodings, CreatePaymentRequest, with_currency, new_payment, create, Reply,
}
use q_pay_flow.Payment.Atomicity
use q_pay_flow.Payment.Atomicity.{Inserted, create-Outcome}
use q_pay_flow.Payment.Process
use q_pay_flow.Payment.Process.{TransferBody, transfer_body, World, process_fraud_result}
use q_pay_flow.Payment.Changes.{Attempt, Called, Marked, process_fraud_result-Change}
use q_pay_flow.Settlement.Reconciliation.{ledger_count, refers_to}
use q_pay_flow.Settlement.Audits.{Matched}
use q_pay_flow.System.Contract.{Contract, more_entries, transfer-Appended}
use q_pay_flow.Schema.{Tables}

-- The accounts are well formed, and every SUCCESS payment has its two ledger entries.
pub record Good (t : Tables) : Type 0 where
  pub books : WellFormed t
  pub matched : All (Matched t.balance_ledgers) t.payments

-- More ledger entries keep payments matched.
pub Matched-grows :
    (es es' : List BalanceLedger) (rows : List Payment)
    → ((k : String) → ledger_count k es ≤ ledger_count k es')
    → All (Matched es) rows
    → All (Matched es') rows
Matched-grows es es' [] more h = tt
Matched-grows es es' (p ∷ rows) more h =
    (λ s. omega (arith, h.0 s, more p.id), Matched-grows es es' rows more h.1)

-- A status may be written, if SUCCESS is written only where the entries are there.
Matched-status :
    (now : ℕ) (id : String) (status : PaymentStatus) (es : List BalanceLedger) (rows : List Payment)
    → (status ≡ success → 2 ≤ ledger_count id es)
    → All (Matched es) rows
    → All (Matched es) (map (set_status now id status) rows)
Matched-status now id status es [] backed h = tt
Matched-status now id status es (p ∷ rows) backed h = (
  elim (Bool-cases (str_eq p.id id)) [
    | inl e ↦ rw (e, (eq_iff p.id id).0 e) (λ s. backed s)
    | inr e ↦ rw e h.0
  ],
  Matched-status now id status es rows backed h.1,
)

-- What only reads the accounts and the ledger.
pub WellFormed_same :
    (t t' : Tables)
    → t'.accounts ≡ t.accounts
    → t'.balance_ledgers ≡ t.balance_ledgers
    → WellFormed t
    → WellFormed t'
WellFormed_same t t' a l v = record {
  unique = rw a v.unique;
  nonneg = λ k x e. v.nonneg k x (rw (← a) e);
  balanced = λ k x e. rw l (v.balanced k x (rw (← a) e));
}

-- A transfer that any caller asks for keeps the tables good.
pub transfer-Good : (env : Env) (t : Tables) (r : Request) → Good t → Good (transfer env t r).1
transfer-Good env t r g = record {
  books = transfer-WellFormed env t r g.books;
  matched =
      Outcome_elim (λ t'. All (Matched t'.balance_ledgers) t'.payments) (transfer env t r) g.matched
        (λ t' m. rw m.moved.payments_eq (
          Matched-grows t.balance_ledgers t'.balance_ledgers t.payments
            (λ k. Appended-count (refers_to k) (transfer-Appended m)) g.matched))
        (transfer-Outcome env t r);
}

module _ (rdb : Redis) (enc : Encodings) (ttl : ℕ) where
  Inserted-Good :
      (env : Create.Env) (req : CreatePaymentRequest) {t t' : Tables}
      → Inserted rdb enc ttl env req t t'
      → Good t
      → Good t'
  Inserted-Good env req {t} {t'} i g = record {
    books = WellFormed_same t t' i.accounts_eq i.ledgers_eq g.books;
    matched =
        rw (i.ledgers_eq, i.payments_eq)
          (All-append (Matched t.balance_ledgers) t.payments (new_payment env req ∷ []) g.matched
            (λ s. absurd (cc), tt));
  }

  Outcome-Good :
      (env : Create.Env) (req : CreatePaymentRequest) (t : Tables) (s : rdb.Store)
      (out : Reply rdb enc ttl)
      → Atomicity.Outcome rdb enc ttl env req t s out
      → Good t
      → Good out.1
  Outcome-Good env req t s (err e, t', s') same g = subst Good (sym same) g
  Outcome-Good env req t s (ok p, t', s') (inl (same, old)) g = subst Good (sym same) g
  Outcome-Good env req t s (ok p, t', s') (inr (e, i)) g = Inserted-Good env req i g

  pub create-Good :
      (env : Create.Env) (req : CreatePaymentRequest) (t : Tables) (s : rdb.Store)
      → Good t
      → Good (create rdb enc ttl env req t s).1
  create-Good env req t s =
      Outcome-Good env (with_currency req) t s (create rdb enc ttl env req t s)
        (create-Outcome rdb enc ttl env req t s)

  module _ (server : TransferBody → Tables → ℕ × Tables) (contract : Contract server) where
    pub server-Good : (body : TransferBody) (t : Tables) → Good t → Good (server body t).1
    server-Good body t g = record {
      books = contract.keeps_books body t g.books;
      matched = rw (contract.same_payments body t) (
          Matched-grows t.balance_ledgers (server body t).1.balance_ledgers t.payments
            (more_entries contract body t) g.matched);
    }

    -- After the transfer step: good tables, and the entries that the status calls for.
    Called-Good :
        (approved : Bool) (p : Payment) (t c : Tables) (status : PaymentStatus)
        → Called rdb enc ttl server approved p t c status
        → Good t
        → Good c × (status ≡ success → 2 ≤ ledger_count p.id c.balance_ledgers)
    Called-Good approved p t c status (inl (same, bad)) g =
        (subst Good (sym same) g, λ s. absurd (cc))
    Called-Good approved p t c status (inr (asked, called, inl (won, answer))) g = (
      subst Good (sym called) (server-Good (transfer_body p) t g),
      λ s. rw called (omega (arith, contract.both_entries (transfer_body p) t answer)),
    )
    Called-Good approved p t c status (inr (asked, called, inr lost)) g =
        (subst Good (sym called) (server-Good (transfer_body p) t g), λ s. absurd (cc))

    pub Marked-Good :
        (later : ℕ) (id : String) (status : PaymentStatus) (c t' : Tables)
        → Marked rdb enc ttl server later id status c t'
        → Good c
        → (status ≡ success → 2 ≤ ledger_count id c.balance_ledgers)
        → Good t'
    Marked-Good later id status c t' (inl same) g backed = subst Good (sym same) g
    Marked-Good later id status c t' (inr written) g backed = subst Good (sym written) (record {
      books = WellFormed_same c _ refl refl g.books;
      matched = Matched-status later id status c.balance_ledgers c.payments backed g.matched;
    })

    Attempt-Good :
        (env : Process.Env) (id : String) (approved : Bool) (t t' : Tables)
        → Attempt rdb enc ttl server env id approved t t'
        → Good t
        → Good t'
    Attempt-Good env id approved t t' a g =
        let (g', backed) = Called-Good approved a.payment t a.called a.status a.call g in
        let same : a.payment.id ≡ id = find_by-key (λ (p : Payment). p.id) id t.payments a.found in
        Marked-Good env.later id a.status a.called t' a.marked g'
          (λ s. subst (λ k. 2 ≤ ledger_count k a.called.balance_ledgers) same (backed s))

    pub process-Good :
        (env : Process.Env) (id : String) (approved : Bool) (w : World rdb enc ttl server)
        → Good w.0
        → Good (process_fraud_result rdb enc ttl server env id approved w).1.0
    process-Good env id approved w g =
        elim (process_fraud_result-Change rdb enc ttl server env id approved w) [
          | inl same ↦ subst Good (sym same) g
          | inr a ↦ Attempt-Good env id approved w.0 _ a g
        ]
