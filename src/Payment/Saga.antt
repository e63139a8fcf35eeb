-- ===== src/Payment/Saga.antt =====
-- cmd/payment-service/internal/saga/consumer.go: the handler of the fraud results.
use q_pay_flow.Base.{
  ℕ, String, Option, none, some, List, [], Result, ok, err, str_eq, if◌then◌else◌,
}
use q_pay_flow.Redis.Interface.{Redis}
use q_pay_flow.Idempotency.Manager.{Codec}
use q_pay_flow.Kafka.{
  Producer, new_producer, PublishEnv, Context, Published, MessageHandler, publish,
}
use q_pay_flow.Resilience.Breaker.{CircuitBreaker}
use q_pay_flow.Payment.Model.{Payment, FraudCheckedEvent, PaymentResultEvent, status_text}
use q_pay_flow.Payment.Create.{Encodings}
use q_pay_flow.Payment.Process.{Env, TransferBody, ProcessError, process_fraud_result}
use q_pay_flow.Schema.{Tables}

abbrev pub result_event : Payment → FraudCheckedEvent → PaymentResultEvent
result_event settled_payment fraud_result = record {
  id = settled_payment.id;
  source_account_id = settled_payment.source_account_id;
  target_account_id = settled_payment.target_account_id;
  amount = settled_payment.amount;
  currency = settled_payment.currency;
  status = status_text settled_payment.status;
  reason = fraud_result.reason;
}

-- The producer of `NewConsumer`.
abbrev pub saga_producer : (payment_topic : String) → Producer
saga_producer payment_topic = new_producer payment_topic []

-- The account service answers each call in its own circumstances, E.
module _ (checked_json : Codec FraudCheckedEvent) (result_json : Codec PaymentResultEvent)
    (producer : Producer) where
  module _ (rdb : Redis) (enc : Encodings) (ttl : ℕ) {E : Type 0}
      (server : E → TransferBody → Tables → ℕ × Tables) where
    -- What the handler works on: the payment service's world, and the broker.
    abbrev pub SagaState : Type 0
    SagaState = (Tables × rdb.Store × CircuitBreaker) × List Published

    abbrev pub SagaReply : Type 0
    SagaReply = Result (Unit {0}) (Unit {0}) × SagaState

    -- The result is published for the payment's source account; an error of that is passed over.
    abbrev pub after_process :
        PublishEnv
        → Context
        → FraudCheckedEvent
        → List Published
        → Result ProcessError Payment × (Tables × rdb.Store × CircuitBreaker)
        → SagaReply
    after_process penv ctx fraud_result sent (err e, w) = (err tt, (w, sent))
    after_process penv ctx fraud_result sent (ok settled, w) =
        let payload = result_json.encode (result_event settled fraud_result) in
        (ok tt, (w, (publish penv producer ctx settled.source_account_id payload sent).1))

    abbrev pub on_fraud_result :
        E → Env → PublishEnv → Context → Option FraudCheckedEvent → SagaState → SagaReply
    on_fraud_result e env penv ctx none w = (ok tt, w)
    on_fraud_result e env penv ctx (some fraud_result) (w, sent) =
        if str_eq fraud_result.payment_id ""
        then (ok tt, (w, sent))
        else after_process penv ctx fraud_result sent (
            process_fraud_result rdb enc ttl (server e) env fraud_result.payment_id
              fraud_result.approved w)

    -- A value that is no JSON of a fraud result is passed over.
    unfoldable pub saga_handler : MessageHandler (E × Env × PublishEnv) SagaState
    saga_handler (e, env, penv) ctx key value headers w =
        on_fraud_result e env penv ctx (checked_json.decode value) w
