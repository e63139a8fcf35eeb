-- ===== src/System/History.antt =====
-- What an operation may do to what is already recorded: the ledger and the payments.
use mathlib.Core.Path.{subst}
use mathlib.Core.Option
use q_pay_flow.Base.{
  ℕ, ◌≡◌, ◌≢◌, refl, sym, ap, ◌∙◌, String, Bool, some, map, ok, err, arith, inl, inr, Bool-cases,
  str_eq, eq_iff, some_inj, Appended, Appended-refl, Appended-trans,
}
use q_pay_flow.Base.Table.{find_by-map, find_by-key, find_by-append}
use q_pay_flow.Redis.Interface.{Redis}
use q_pay_flow.Account.Service
use q_pay_flow.Account.Service.{Request, transfer}
use q_pay_flow.Account.Ledger.{transfer-Outcome, Outcome_elim}
use q_pay_flow.Payment.Model.{Payment, PaymentStatus, pending}
use q_pay_flow.Payment.Repository.{find_payment, set_status}
use q_pay_flow.Payment.Create
use q_pay_flow.Payment.Create.{
  Encodings, CreatePaymentRequest, with_currency, new_payment, create, Reply,
}
use q_pay_flow.Payment.Atomicity
use q_pay_flow.Payment.Atomicity.{Inserted, create-Outcome}
use q_pay_flow.Payment.Process
use q_pay_flow.Payment.Process.{TransferBody, transfer_body, World, process_fraud_result}
use q_pay_flow.Payment.Changes.{Attempt, Called, process_fraud_result-Change}
use q_pay_flow.System.Contract.{Contract, transfer-Appended}
use q_pay_flow.Schema.{Tables}

-- A payment and what has become of it: its terms are the same, and a status other than PENDING too.
pub record Lasting (p q : Payment) : Type 0 where
  pub id_eq : q.id ≡ p.id
  pub key_eq : q.idempotency_key ≡ p.idempotency_key
  pub source_eq : q.source_account_id ≡ p.source_account_id
  pub target_eq : q.target_account_id ≡ p.target_account_id
  pub amount_eq : q.amount ≡ p.amount
  pub currency_eq : q.currency ≡ p.currency
  pub settled : p.status ≢ pending → q.status ≡ p.status

Lasting-refl : (p : Payment) → Lasting p p
Lasting-refl p = record {
  id_eq = refl;
  key_eq = refl;
  source_eq = refl;
  target_eq = refl;
  amount_eq = refl;
  currency_eq = refl;
  settled = λ s. refl;
}

Lasting-trans : {p q r : Payment} → Lasting p q → Lasting q r → Lasting p r
Lasting-trans {p} a b = record {
  id_eq = b.id_eq ∙ a.id_eq;
  key_eq = b.key_eq ∙ a.key_eq;
  source_eq = b.source_eq ∙ a.source_eq;
  target_eq = b.target_eq ∙ a.target_eq;
  amount_eq = b.amount_eq ∙ a.amount_eq;
  currency_eq = b.currency_eq ∙ a.currency_eq;
  settled = λ s. b.settled (λ e. s (sym (a.settled s) ∙ e)) ∙ a.settled s;
}

-- No ledger entry is changed or removed, and every payment is there still, and lasts.
pub record History (t t' : Tables) : Type 0 where
  pub ledger : Appended t.balance_ledgers t'.balance_ledgers
  pub payments :
      (id : String) {p : Payment}
      → find_payment id t.payments ≡ some p
      → (q : Payment) × (find_payment id t'.payments ≡ some q) × Lasting p q

pub History-trans : {t t' t'' : Tables} → History t t' → History t' t'' → History t t''
History-trans a b = record {
  ledger = Appended-trans a.ledger b.ledger;
  payments = λ id found.
      let (q, found', lasts) = a.payments id found in
      let (r, found'', lasts') = b.payments id found' in (r, found'', Lasting-trans lasts lasts');
}

-- What leaves the payments as they are.
pub History-same :
    {t t' : Tables}
    → t'.payments ≡ t.payments
    → Appended t.balance_ledgers t'.balance_ledgers
    → History t t'
History-same same appended = record {
  ledger = appended;
  payments = λ id {p} found. (p, ap (find_payment id) same ∙ found, Lasting-refl p);
}

pub History-refl : (t : Tables) → History t t
History-refl t = History-same refl (Appended-refl t.balance_ledgers)

pub History-eq : {t t' : Tables} → t' ≡ t → History t t'
History-eq {t} same = subst (History t) (sym same) (History-refl t)

pub transfer-History :
    (env : Service.Env) (t : Tables) (r : Request) → History t (transfer env t r).1
transfer-History env t r =
    Outcome_elim (History t) (transfer env t r) (History-refl t)
      (λ t' m. History-same m.moved.payments_eq (transfer-Appended m)) (transfer-Outcome env t r)

-- A status is written only to a payment that was PENDING.
set_status-Lasting :
    (now : ℕ) (id : String) (status : PaymentStatus) (p : Payment)
    → (p.id ≡ id → p.status ≡ pending)
    → Lasting p (set_status now id status p)
set_status-Lasting now id status p was = elim (Bool-cases (str_eq p.id id)) [
  | inl e ↦ rw e (record {
    id_eq = refl;
    key_eq = refl;
    source_eq = refl;
    target_eq = refl;
    amount_eq = refl;
    currency_eq = refl;
    settled = λ s. absurd (s (was ((eq_iff p.id id).0 e)));
  })
  | inr e ↦ rw e (Lasting-refl p)
]

set_status-id :
    (now : ℕ) (id : String) (status : PaymentStatus) (p : Payment)
    → (set_status now id status p).id ≡ p.id
set_status-id now id status p = ground arith

set_status-History :
    (now : ℕ) (id : String) (status : PaymentStatus) (t : Tables) {p : Payment}
    → find_payment id t.payments ≡ some p
    → p.status ≡ pending
    → History t (record t { payments = map (set_status now id status) t.payments })
set_status-History now id status t {p} found was = record {
  ledger = Appended-refl t.balance_ledgers;
  payments = λ k {p = q} at_k. (
    set_status now id status q,
    find_by-map (λ (x : Payment). x.id) (set_status now id status) k t.payments
          (set_status-id now id status)
        ∙ ap (Option.map (set_status now id status)) at_k,
    set_status-Lasting now id status q (λ same.
        let k_is : k ≡ id = sym (find_by-key (λ (x : Payment). x.id) k t.payments at_k) ∙ same in
        let q_is : q ≡ p = some_inj (sym at_k ∙ ap (λ j. find_payment j t.payments) k_is ∙ found) in
        ap (λ (x : Payment). x.status) q_is ∙ was),
  );
}

module _ (rdb : Redis) (enc : Encodings) (ttl : ℕ) where
  Inserted-History :
      (env : Create.Env) (req : CreatePaymentRequest) {t t' : Tables}
      → Inserted rdb enc ttl env req t t'
      → History t t'
  Inserted-History env req {t} {t'} i = record {
    ledger =
        subst (Appended t.balance_ledgers) (sym i.ledgers_eq) (Appended-refl t.balance_ledgers);
    payments = λ id {p} found. (
      p,
      rw (i.payments_eq, find_by-append (λ (x : Payment). x.id) id t.payments _, found),
      Lasting-refl p,
    );
  }

  Outcome-History :
      (env : Create.Env) (req : CreatePaymentRequest) (t : Tables) (s : rdb.Store)
      (out : Reply rdb enc ttl)
      → Atomicity.Outcome rdb enc ttl env req t s out
      → History t out.1
  Outcome-History env req t s (err e, t', s') same = History-eq same
  Outcome-History env req t s (ok p, t', s') (inl (same, old)) = History-eq same
  Outcome-History env req t s (ok p, t', s') (inr (e, i)) = Inserted-History env req i

  pub create-History :
      (env : Create.Env) (req : CreatePaymentRequest) (t : Tables) (s : rdb.Store)
      → History t (create rdb enc ttl env req t s).1
  create-History env req t s =
      Outcome-History env (with_currency req) t s (create rdb enc ttl env req t s)
        (create-Outcome rdb enc ttl env req t s)

  module _ (server : TransferBody → Tables → ℕ × Tables) (contract : Contract server) where
    pub server-History : (body : TransferBody) (t : Tables) → History t (server body t).1
    server-History body t =
        History-same (contract.same_payments body t) (contract.only_appends body t)

    Called-History :
        (approved : Bool) (p : Payment) (t c : Tables) (status : PaymentStatus)
        → Called rdb enc ttl server approved p t c status
        → History t c × (c.payments ≡ t.payments)
    Called-History approved p t c status (inl (same, bad)) =
        (History-eq same, ap (λ (u : Tables). u.payments) same)
    Called-History approved p t c status (inr (asked, called, answer)) = (
      subst (History t) (sym called) (server-History (transfer_body p) t),
      ap (λ (u : Tables). u.payments) called ∙ contract.same_payments (transfer_body p) t,
    )

    Attempt-History :
        (env : Process.Env) (id : String) (approved : Bool) (t t' : Tables)
        → Attempt rdb enc ttl server env id approved t t'
        → History t t'
    Attempt-History env id approved t t' a =
        let (past, same) = Called-History approved a.payment t a.called a.status a.call in
        History-trans past (elim a.marked [
          | inl kept ↦ History-eq kept
          | inr written ↦ subst (History a.called) (sym written) (
              set_status-History env.later id a.status a.called
                (ap (find_payment id) same ∙ a.found) a.was_pending)
        ])

    pub process-History :
        (env : Process.Env) (id : String) (approved : Bool) (w : World rdb enc ttl server)
        → History w.0 (process_fraud_result rdb enc ttl server env id approved w).1.0
    process-History env id approved w =
        elim (process_fraud_result-Change rdb enc ttl server env id approved w) [
          | inl same ↦ History-eq same
          | inr a ↦ Attempt-History env id approved w.0 _ a
        ]
