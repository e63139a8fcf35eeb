-- ===== src/System/Announcements.antt =====
-- The fraud results that arrive from Kafka, and the payment results that go out: what a SUCCESS that
-- the saga consumer publishes stands for.
use q_pay_flow.Base.{
  ℕ, ◌≤◌, ◌≡◌, refl, sym, ap, ◌∙◌, String, Bool, ok, err, some, none, Option, Result, List, [], ◌∷◌,
  arith, inl, inr, Bool-cases, All, All-append, str_eq, eq_iff, some_inj,
}
use mathlib.Core.Path.{subst}
use q_pay_flow.Base.Table.{find_by-All}
use q_pay_flow.Redis.Interface.{Redis}
use q_pay_flow.Idempotency.Manager.{Codec, RoundTrips}
use q_pay_flow.Resilience.Breaker.{CircuitBreaker}
use q_pay_flow.Kafka.{
  Producer, PublishEnv, Published, Context, Read, start, publish, traced_message,
}
use q_pay_flow.Kafka.Delivery.{start-keeps}
use q_pay_flow.Account.Model.{BalanceLedger}
use q_pay_flow.Payment.Model.{
  Payment, PaymentStatus, FraudCheckedEvent, PaymentResultEvent, status_text, pending, processing,
  success, failed,
}
use q_pay_flow.Payment.Create.{Encodings}
use q_pay_flow.Payment.Process.{
  Env, TransferBody, transfer_body, ProcessError, process_fraud_result,
}
use q_pay_flow.Payment.Changes.{process_fraud_result-Change, Called, Marked}
use q_pay_flow.Payment.Stored.{IsStored, process_fraud_result-IsStored}
use q_pay_flow.Payment.Saga.{SagaState, result_event, saga_handler, on_fraud_result, after_process}
use q_pay_flow.Settlement.Reconciliation.{ledger_count}
use q_pay_flow.Settlement.Audits.{Matched}
use q_pay_flow.System.Contract.{Contract, more_entries}
use q_pay_flow.System.Books.{Good, process-Good}
use q_pay_flow.Schema.{Tables}

-- A message that announces SUCCESS has both ledger entries of its payment behind it.
abbrev pub IsBacked : Codec PaymentResultEvent → List BalanceLedger → Published → Type 0
IsBacked json es p =
    (ev : PaymentResultEvent)
    → json.decode p.message.value ≡ some ev
    → ev.status ≡ "SUCCESS"
    → 2 ≤ ledger_count ev.id es

IsBacked-grows :
    (json : Codec PaymentResultEvent) (es es' : List BalanceLedger) (sent : List Published)
    → ((k : String) → ledger_count k es ≤ ledger_count k es')
    → All (IsBacked json es) sent
    → All (IsBacked json es') sent
IsBacked-grows json es es' [] more h = tt
IsBacked-grows json es es' (p ∷ sent) more h = (
  λ ev decoded s. omega (arith, h.0 ev decoded s, more ev.id),
  IsBacked-grows json es es' sent more h.1,
)

status_text-success : (st : PaymentStatus) → status_text st ≡ "SUCCESS" → st ≡ success
status_text-success pending h = absurd (ground (arith, eq_iff "PENDING" "SUCCESS"))
status_text-success processing h = absurd (ground (arith, eq_iff "PROCESSING" "SUCCESS"))
status_text-success success h = refl
status_text-success failed h = absurd (ground (arith, eq_iff "FAILED" "SUCCESS"))

module _ (rdb : Redis) (enc : Encodings) (ttl : ℕ) where
  module _ (server : TransferBody → Tables → ℕ × Tables) (contract : Contract server) where
    Called-grows :
        (approved : Bool) (p : Payment) (t c : Tables) (status : PaymentStatus)
        → Called rdb enc ttl server approved p t c status
        → (k : String) → ledger_count k t.balance_ledgers ≤ ledger_count k c.balance_ledgers
    Called-grows approved p t c status (inl (same, bad)) k = rw same (omega arith)
    Called-grows approved p t c status (inr (asked, called, answer)) k =
        rw called (more_entries contract (transfer_body p) t k)

    Marked-ledgers :
        (later : ℕ) (id : String) (status : PaymentStatus) (c t' : Tables)
        → Marked rdb enc ttl server later id status c t'
        → t'.balance_ledgers ≡ c.balance_ledgers
    Marked-ledgers later id status c t' (inl same) = ap (λ (u : Tables). u.balance_ledgers) same
    Marked-ledgers later id status c t' (inr written) =
        ap (λ (u : Tables). u.balance_ledgers) written

    process-grows :
        (env : Env) (id : String) (approved : Bool) (w : Tables × rdb.Store × CircuitBreaker)
        (k : String)
        → ledger_count k w.0.balance_ledgers
          ≤ ledger_count k
              (process_fraud_result rdb enc ttl server env id approved w).1.0.balance_ledgers
    process-grows env id approved w k =
        elim (process_fraud_result-Change rdb enc ttl server env id approved w) [
          | inl same ↦ rw same (omega arith)
          | inr a ↦
              rw (Marked-ledgers env.later id a.status a.called _ a.marked)
                (Called-grows approved a.payment w.0 a.called a.status a.call k)
        ]

  module _ (checked_json : Codec FraudCheckedEvent) (result_json : Codec PaymentResultEvent)
      (producer : Producer) {E : Type 0} (server : E → TransferBody → Tables → ℕ × Tables) where
    -- The tables are good, and every SUCCESS that was announced is backed.
    abbrev pub Announced : SagaState checked_json result_json producer rdb enc ttl server → Type 0
    Announced ((t, s, cb), sent) = Good t × All (IsBacked result_json t.balance_ledgers) sent

    module _ (round : RoundTrips result_json) where
      result_event-IsBacked :
          (t : Tables) (id topic : String) (settled : Payment) (fraud_result : FraudCheckedEvent)
          (penv : PublishEnv) (ctx : Context)
          → Good t
          → IsStored id (ok settled) t
          → IsBacked result_json t.balance_ledgers (record {
            topic = topic;
            message =
                traced_message penv ctx [] settled.source_account_id
                  (result_json.encode (result_event settled fraud_result));
          })
      unfolding traced_message
      result_event-IsBacked t id topic settled fraud_result penv ctx g (q, found, status_eq, id_eq)
            ev decoded s =
          let same : ev ≡ result_event settled fraud_result =
            some_inj (sym decoded ∙ round (result_event settled fraud_result)) in
          let won : settled.status ≡ success =
            status_text-success settled.status
              (sym (ap (λ (e : PaymentResultEvent). e.status) same) ∙ s) in
          let both =
            find_by-All (λ (p : Payment). p.id) (Matched t.balance_ledgers) id t.payments g.matched
              found in
          let named : q.id ≡ ev.id = id_eq ∙ sym (ap (λ (e : PaymentResultEvent). e.id) same) in
          subst (λ k. 2 ≤ ledger_count k t.balance_ledgers) named (both (status_eq ∙ won))

      after_process-Announced :
          (penv : PublishEnv) (ctx : Context) (fraud_result : FraudCheckedEvent) (id : String)
          (before : Tables) (sent : List Published)
          (reply : Result ProcessError Payment × (Tables × rdb.Store × CircuitBreaker))
          → Good reply.1.0
          → ((k : String)
              → ledger_count k before.balance_ledgers ≤ ledger_count k reply.1.0.balance_ledgers)
          → IsStored id reply.0 reply.1.0
          → All (IsBacked result_json before.balance_ledgers) sent
          → Announced
              (after_process checked_json result_json producer rdb enc ttl server penv ctx
                fraud_result sent reply).1
      unfolding publish
      after_process-Announced penv ctx fraud_result id before sent (err e, (t, s, cb)) g more stored
            h =
          (g, IsBacked-grows result_json before.balance_ledgers t.balance_ledgers sent more h)
      after_process-Announced penv ctx fraud_result id before sent (ok settled, (t, s, cb)) g more
            stored h =
          let old =
            IsBacked-grows result_json before.balance_ledgers t.balance_ledgers sent more h in
          elim (Bool-cases penv.write_fails) [
            | inl e ↦ rw e (g, old)
            | inr e ↦ rw e (
              g,
              All-append (IsBacked result_json t.balance_ledgers) sent _ old (
                result_event-IsBacked t id producer.writer settled fraud_result penv ctx g stored,
                tt,
              ),
            )
          ]

      module _ (contract : (e : E) → Contract (server e)) where
        on_fraud_result-Announced :
            (e : E) (env : Env) (penv : PublishEnv) (ctx : Context) (m : Option FraudCheckedEvent)
            (t : Tables) (s : rdb.Store) (cb : CircuitBreaker) (sent : List Published)
            → Announced ((t, s, cb), sent)
            → Announced
                (on_fraud_result checked_json result_json producer rdb enc ttl server e env penv ctx
                  m
                  ((t, s, cb), sent)).1
        on_fraud_result-Announced e env penv ctx none t s cb sent h = h
        on_fraud_result-Announced e env penv ctx (some r) t s cb sent h =
            elim (Bool-cases (str_eq r.payment_id "")) [
              | inl empty ↦ rw empty h
              | inr given ↦ rw given (
                  after_process-Announced penv ctx r r.payment_id t sent
                    (process_fraud_result rdb enc ttl (server e) env r.payment_id r.approved
                      (t, s, cb))
                    (process-Good rdb enc ttl (server e) (contract e) env r.payment_id r.approved
                      (t, s, cb) h.0)
                    (process-grows (server e) (contract e) env r.payment_id r.approved (t, s, cb))
                    (process_fraud_result-IsStored rdb enc ttl (server e) (contract e).same_payments
                      env r.payment_id r.approved (t, s, cb))
                    h.1)
            ]

        saga_handler-Announced :
            (e : E × Env × PublishEnv) (ctx : Option String) (key value : String)
            (headers : String → Option String)
            (w : SagaState checked_json result_json producer rdb enc ttl server)
            → Announced w
            → Announced
                (saga_handler checked_json result_json producer rdb enc ttl server e ctx key value
                  headers w).1
        unfolding saga_handler
        saga_handler-Announced (e, env, penv) ctx key value headers ((t, s, cb), sent) h =
            on_fraud_result-Announced e env penv ctx (checked_json.decode value) t s cb sent h

        -- Where the account service keeps its contract and the JSON of a result can be read back:
        -- the saga consumer, over any sequence of reads, whatever messages they bring and
        -- whatever fails, keeps the tables good, and every message on the broker that announces
        -- SUCCESS for a payment backed by two ledger entries of that payment.
        pub start-Announced :
            (reads : List (Read (E × Env × PublishEnv)))
            (w : SagaState checked_json result_json producer rdb enc ttl server)
            → Announced w
            → Announced
                (start (saga_handler checked_json result_json producer rdb enc ttl server) reads w)
        start-Announced reads w h =
            start-keeps (saga_handler checked_json result_json producer rdb enc ttl server)
              Announced saga_handler-Announced reads w h
