-- ===== src/Fraud/Verdicts.antt =====
-- What the verdicts that the fraud service publishes say.
use q_pay_flow.Base.{
  ◌≡◌, ◌≢◌, ◌*◌, String, Bool, false, Option, none, some, [], ◌∷◌, ◌++◌, Result, ok, err, ◌⊎◌,
}
use q_pay_flow.Base.Int.{pos, ◌≤ℤ◌}
use q_pay_flow.Idempotency.Manager.{Codec}
use q_pay_flow.Redis.Interface.{Exchange}
use q_pay_flow.Redis.SortedSets.{SortedSets}
use q_pay_flow.Kafka.{Producer, Published}
use q_pay_flow.Payment.Model.{PaymentCreatedEvent, FraudCheckedEvent}
use q_pay_flow.Fraud.Check.{Clock, Reason, check_payment}
use q_pay_flow.Fraud.Handler.{reason_text, FraudState}

module _ (created_json : Codec PaymentCreatedEvent) (checked_json : Codec FraudCheckedEvent)
    (producer : Producer) (z : SortedSets) where
  -- A payment that is new by its status.
  abbrev pub IsNew : PaymentCreatedEvent → Type 0
  IsNew event = (event.status ≡ "") ⊎ (event.status ≡ "PENDING")

  abbrev pub IsNoNewPayment : Option PaymentCreatedEvent → Type 0
  IsNoNewPayment none = Unit
  IsNoNewPayment (some event) = (event.status ≢ "") × (event.status ≢ "PENDING")

  -- A message that answers an event: the payment's id is its key and in its body, with the verdict.
  pub record Answers (event : PaymentCreatedEvent) (verdict : Bool × Reason) (p : Published)
      : Type 0 where
    pub body : FraudCheckedEvent
    pub topic_eq : p.topic ≡ producer.writer
    pub key_eq : p.message.key ≡ event.id
    pub value_eq : p.message.value ≡ checked_json.encode body
    pub id_eq : body.payment_id ≡ event.id
    pub approved_eq : body.approved ≡ verdict.0
    pub reason_eq : body.reason ≡ reason_text verdict.1

  -- How a new payment is evaluated: for the account that the event names, or else the message's key.
  pub record Evaluated (exchange : Exchange) (c : Clock) (key : String)
      (event : PaymentCreatedEvent) (w : FraudState created_json checked_json producer z)
      (out : Result (Unit {0}) (Unit {0}) × FraudState created_json checked_json producer z)
      : Type 0 where
    pub new : IsNew event
    pub account : String
    pub verdict : Bool × Reason
    pub account_eq :
        ((event.source_account_id ≡ "") × (account ≡ key))
        ⊎ ((event.source_account_id ≢ "") × (account ≡ event.source_account_id))
    pub verdict_eq : verdict ≡ (check_payment z exchange c account event.amount w.0).0
    pub sets_eq : out.1.0 ≡ (check_payment z exchange c account event.amount w.0).1
    pub limit : (verdict.0 ≡ false) ⊎ (event.amount ≤ℤ pos (10000 * 10000))
    pub sent :
        ((out.0 ≡ err tt) × (out.1.1 ≡ w.1))
        ⊎ ((p : Published) × (out.0 ≡ ok tt) × (out.1.1 ≡ w.1 ++ p ∷ []) × Answers event verdict p)

  -- How one message is handled, by the event that it decodes to.
  abbrev pub Handled :
      Exchange
      → Clock
      → (key : String) → Option PaymentCreatedEvent
      → FraudState created_json checked_json producer z
      → Result (Unit {0}) (Unit {0}) × FraudState created_json checked_json producer z
      → Type 0
  Handled exchange c key m w out =
      (IsNoNewPayment m × (out ≡ (ok tt, w)))
      ⊎ ((event : PaymentCreatedEvent) × (m ≡ some event) × Evaluated exchange c key event w out)
