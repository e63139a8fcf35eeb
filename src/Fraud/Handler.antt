-- ===== src/Fraud/Handler.antt =====
-- cmd/fraud-service/main.go: the handler of the payment events.
use Prim.Native.String
use q_pay_flow.Base.{
  String, Bool, ◌||◌, Option, none, some, List, Result, ok, str_eq, if◌then◌else◌,
}
use q_pay_flow.Base.Decimal.{decimal}
use q_pay_flow.Idempotency.Manager.{Codec}
use q_pay_flow.Redis.Interface.{Exchange}
use q_pay_flow.Redis.SortedSets.{SortedSets}
use q_pay_flow.Kafka.{Producer, PublishEnv, Context, Published, MessageHandler, publish}
use q_pay_flow.Payment.Model.{PaymentCreatedEvent, FraudCheckedEvent}
use q_pay_flow.Fraud.Check.{
  Clock, Reason, over_limit, passed_with_warning, passed, velocity_exceeded, check_payment,
}

unfoldable pub reason_text : Reason → String
reason_text over_limit = "transaction amount exceeds maximum limit ($10,000)"
reason_text passed_with_warning = "PASSED_WITH_WARNING"
reason_text passed = "PASSED"
reason_text (velocity_exceeded tx_count) =
    String.◌++◌ "velocity limit exceeded: "
      (String.◌++◌ (decimal tx_count) " transactions in 1 minute")

-- Only newly created payments are evaluated.
abbrev pub is_new : PaymentCreatedEvent → Bool
is_new event = str_eq event.status "" || str_eq event.status "PENDING"

abbrev pub account_of : (key : String) → PaymentCreatedEvent → String
account_of key event = if str_eq event.source_account_id "" then key else event.source_account_id

abbrev pub checked_event : PaymentCreatedEvent → Bool × Reason → FraudCheckedEvent
checked_event event (approved, reason) = record {
  payment_id = event.id;
  approved = approved;
  reason = reason_text reason;
}

module _ (created_json : Codec PaymentCreatedEvent) (checked_json : Codec FraudCheckedEvent)
    (producer : Producer) (z : SortedSets) where
  -- The velocity sets, and what the broker has taken.
  abbrev pub FraudState : Type 0
  FraudState = z.Store × List Published

  -- The verdict is published under the payment's id; an error of that is the handler's.
  abbrev pub publish_verdict :
      PublishEnv
      → Context
      → PaymentCreatedEvent
      → List Published
      → (Bool × Reason) × z.Store
      → Result (Unit {0}) (Unit {0}) × FraudState
  publish_verdict penv ctx event sent (verdict, s) =
      let payload = checked_json.encode (checked_event event verdict) in
      let (result, sent') = publish penv producer ctx event.id payload sent in (result, (s, sent'))

  abbrev pub on_event :
      Exchange
      → Clock
      → PublishEnv
      → Context
      → (key : String) → Option PaymentCreatedEvent
      → FraudState
      → Result (Unit {0}) (Unit {0}) × FraudState
  on_event exchange c penv ctx key none w = (ok tt, w)
  on_event exchange c penv ctx key (some event) (s, sent) =
      if is_new event
      then publish_verdict penv ctx event sent
          (check_payment z exchange c (account_of key event) event.amount s)
      else (ok tt, (s, sent))

  unfoldable pub fraud_handler : MessageHandler (Exchange × Clock × PublishEnv) FraudState
  fraud_handler (exchange, c, penv) ctx key value headers w =
      on_event exchange c penv ctx key (created_json.decode value) w
