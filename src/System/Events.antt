-- ===== src/System/Events.antt =====
-- That the tables stay good under what Kafka brings and takes, and under the seeder.
use mathlib.Core.Path.{subst}
use q_pay_flow.Base.{
  ℕ, ◌≡◌, refl, sym, String, Option, none, some, List, [], ◌∷◌, ◌++◌, Result, ok, err, arith, inl,
  inr, Bool, Bool-cases, ◌∙◌, Appended, Appended-refl, str_eq, count_if-append,
}
use q_pay_flow.Base.Int.{ℤ, pos, ◌≤ℤ◌}
use q_pay_flow.Redis.Interface.{Redis}
use q_pay_flow.Resilience.Breaker.{CircuitBreaker}
use q_pay_flow.Idempotency.Manager.{Codec}
use q_pay_flow.Kafka.{Producer, PublishEnv, Published, Context, Read, start}
use q_pay_flow.Kafka.Delivery.{start-keeps}
use q_pay_flow.Payment.Model.{
  Payment, OutboxEvent, PaymentCreatedEvent, FraudCheckedEvent, PaymentResultEvent,
}
use q_pay_flow.Payment.Repository.{
  RepositoryError, get_pending_outbox_events, mark_outbox_event_processed,
}
use q_pay_flow.Payment.Outbox.{
  Message, RelayEnv, relay_event, relay_events, relay_found, process_batch,
}
use q_pay_flow.Payment.Create.{Encodings}
use q_pay_flow.Payment.Process.{Env, TransferBody, ProcessError, process_fraud_result}
use q_pay_flow.Payment.Saga.{SagaState, saga_handler, on_fraud_result, after_process}
use q_pay_flow.Generator.Seeding.{SeedEnv, seed_account, seeded_entry}
use q_pay_flow.Generator.Seeded.{IsFresh, seed_account-cases, seed_account-WellFormed}
use q_pay_flow.Settlement.Reconciliation.{refers_to}
use q_pay_flow.System.Contract.{Contract}
use q_pay_flow.System.Books.{Good, process-Good, WellFormed_same, Matched-grows}
use q_pay_flow.System.History.{
  History, History-refl, History-trans, History-same, History-eq, process-History,
}
use q_pay_flow.Schema.{Tables}

-- Only the outbox differs.
pub record OutboxOnly (t t' : Tables) : Type 0 where
  pub accounts_eq : t'.accounts ≡ t.accounts
  pub ledgers_eq : t'.balance_ledgers ≡ t.balance_ledgers
  pub payments_eq : t'.payments ≡ t.payments

OutboxOnly-Good : {t t' : Tables} → OutboxOnly t t' → Good t → Good t'
OutboxOnly-Good {t} {t'} o g = record {
  books = WellFormed_same t t' o.accounts_eq o.ledgers_eq g.books;
  matched = rw (o.ledgers_eq, o.payments_eq) g.matched;
}

OutboxOnly-refl : (t : Tables) → OutboxOnly t t
OutboxOnly-refl t = record { accounts_eq = refl; ledgers_eq = refl; payments_eq = refl }

OutboxOnly-trans : {t t' t'' : Tables} → OutboxOnly t t' → OutboxOnly t' t'' → OutboxOnly t t''
OutboxOnly-trans a b = record {
  accounts_eq = b.accounts_eq ∙ a.accounts_eq;
  ledgers_eq = b.ledgers_eq ∙ a.ledgers_eq;
  payments_eq = b.payments_eq ∙ a.payments_eq;
}

module _ (json : Codec PaymentCreatedEvent) (env : RelayEnv) where
  relay_event-OutboxOnly :
      (e : OutboxEvent) (t : Tables) (sent : List Message)
      → OutboxOnly t (relay_event json env e (t, sent)).0
  unfolding relay_event mark_outbox_event_processed
  relay_event-OutboxOnly e t sent = record {
    accounts_eq = ground arith;
    ledgers_eq = ground arith;
    payments_eq = ground arith;
  }

  relay_events-OutboxOnly :
      (events : List OutboxEvent) (w : Tables × List Message)
      → OutboxOnly w.0 (relay_events json env events w).0
  relay_events-OutboxOnly [] w = OutboxOnly-refl w.0
  relay_events-OutboxOnly (e ∷ events) w =
      OutboxOnly-trans (relay_event-OutboxOnly e w.0 w.1)
        (relay_events-OutboxOnly events (relay_event json env e w))

  relay_found-OutboxOnly :
      (w : Tables × List Message) (m : Result RepositoryError (List OutboxEvent))
      → OutboxOnly w.0 (relay_found json env w m).1
  relay_found-OutboxOnly (t, sent) (err e) = OutboxOnly-refl t
  relay_found-OutboxOnly (t, sent) (ok events) = relay_events-OutboxOnly events (t, sent)

  process_batch-OutboxOnly :
      (batch : ℕ) (t : Tables) (sent : List Message)
      → OutboxOnly t (process_batch json env batch (t, sent)).1
  unfolding process_batch
  process_batch-OutboxOnly batch t sent =
      relay_found-OutboxOnly (t, sent)
        (get_pending_outbox_events env.query_fails env.scan_fails t batch)

  pub process_batch-Good :
      (batch : ℕ) (t : Tables) (sent : List Message)
      → Good t
      → Good (process_batch json env batch (t, sent)).1
  process_batch-Good batch t sent = OutboxOnly-Good (process_batch-OutboxOnly batch t sent)

  pub process_batch-History :
      (batch : ℕ) (t : Tables) (sent : List Message)
      → History t (process_batch json env batch (t, sent)).1
  process_batch-History batch t sent =
      let o = process_batch-OutboxOnly batch t sent in
      History-same o.payments_eq
        (subst (Appended t.balance_ledgers) (sym o.ledgers_eq) (Appended-refl t.balance_ledgers))

module _ (checked_json : Codec FraudCheckedEvent) (result_json : Codec PaymentResultEvent)
    (producer : Producer) (rdb : Redis) (enc : Encodings) (ttl : ℕ) {E : Type 0}
    (server : E → TransferBody → Tables → ℕ × Tables) where
  -- Publishing the result is the broker's affair.
  after_process-tables :
      (penv : PublishEnv) (ctx : Context) (fraud_result : FraudCheckedEvent) (sent : List Published)
      (reply : Result ProcessError Payment × (Tables × rdb.Store × CircuitBreaker))
      → (after_process checked_json result_json producer rdb enc ttl server penv ctx fraud_result
          sent reply).1.0
        ≡ reply.1
  after_process-tables penv ctx fraud_result sent (err e, w) = refl
  after_process-tables penv ctx fraud_result sent (ok settled, w) = refl

  -- What every processed fraud result keeps of the tables.
  module _ (P : Tables → Type 0)
      (keeps : (e : E) (env : Env) (id : String) (approved : Bool)
          (w : Tables × rdb.Store × CircuitBreaker)
        → P w.0
        → P (process_fraud_result rdb enc ttl (server e) env id approved w).1.0) where
    on_fraud_result-keeps :
        (e : E) (env : Env) (penv : PublishEnv) (ctx : Context) (m : Option FraudCheckedEvent)
        (w : SagaState checked_json result_json producer rdb enc ttl server)
        → P w.0.0
        → P
            (on_fraud_result checked_json result_json producer rdb enc ttl server e env penv ctx m
              w).1.0.0
    on_fraud_result-keeps e env penv ctx none w g = g
    on_fraud_result-keeps e env penv ctx (some r) (w, sent) g =
        elim (Bool-cases (str_eq r.payment_id "")) [
          | inl empty ↦ rw empty g
          | inr given ↦
              let reply =
                process_fraud_result rdb enc ttl (server e) env r.payment_id r.approved w in
              rw given (
                subst (λ (v : Tables × rdb.Store × CircuitBreaker). P v.0)
                  (sym (after_process-tables penv ctx r sent reply))
                  (keeps e env r.payment_id r.approved w g))
        ]

    saga-keeps :
        (reads : List (Read (E × Env × PublishEnv)))
        (w : SagaState checked_json result_json producer rdb enc ttl server)
        → P w.0.0
        → P (start (saga_handler checked_json result_json producer rdb enc ttl server) reads w).0.0
    unfolding saga_handler
    saga-keeps reads w g =
        start-keeps (saga_handler checked_json result_json producer rdb enc ttl server)
          (λ v. P v.0.0)
          (λ (e, env, penv) ctx key value headers v.
            on_fraud_result-keeps e env penv ctx (checked_json.decode value) v)
          reads w g

  module _ (contract : (e : E) → Contract (server e)) where
    pub saga-Good :
        (reads : List (Read (E × Env × PublishEnv)))
        (w : SagaState checked_json result_json producer rdb enc ttl server)
        → Good w.0.0
        → Good
            (start (saga_handler checked_json result_json producer rdb enc ttl server) reads w).0.0
    saga-Good =
        saga-keeps Good (λ e env id approved w.
          process-Good rdb enc ttl (server e) (contract e) env id approved w)

    pub saga-History :
        (reads : List (Read (E × Env × PublishEnv)))
        (w : SagaState checked_json result_json producer rdb enc ttl server)
        → History w.0.0
            (start (saga_handler checked_json result_json producer rdb enc ttl server) reads w).0.0
    saga-History reads w =
        saga-keeps (History w.0.0)
          (λ e env id approved v past.
            History-trans past
              (process-History rdb enc ttl (server e) (contract e) env id approved v))
          reads w (History-refl w.0.0)

pub seed-Good :
    (env : SeedEnv) (idx : ℕ) (balance : ℤ) (currency : String) {t : Tables}
    → IsFresh env idx balance t
    → pos 0 ≤ℤ balance
    → Good t
    → Good (seed_account env idx balance currency t).1
seed-Good env idx balance currency {t} fresh nonneg g = record {
  books = seed_account-WellFormed env idx balance currency fresh nonneg g.books;
  matched = elim (seed_account-cases env idx balance currency fresh) [
    | inl new ↦ rw new (
        Matched-grows t.balance_ledgers (t.balance_ledgers ++ seeded_entry env idx balance ∷ [])
          t.payments
          (λ k. omega (
            arith,
            count_if-append (refers_to k) t.balance_ledgers (seeded_entry env idx balance ∷ []),
          ))
          g.matched)
    | inr old ↦ rw old g.matched
  ];
}

pub seed-History :
    (env : SeedEnv) (idx : ℕ) (balance : ℤ) (currency : String) {t : Tables}
    → IsFresh env idx balance t
    → History t (seed_account env idx balance currency t).1
seed-History env idx balance currency {t} fresh =
    elim (seed_account-cases env idx balance currency fresh) [
      | inl new ↦ subst (History t) (sym new) (
          History-same refl (record { added = seeded_entry env idx balance ∷ []; added_eq = refl }))
      | inr old ↦ History-eq old
    ]
