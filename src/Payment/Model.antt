-- ===== src/Payment/Model.antt =====
-- cmd/payment-service/internal/payment/model.go. A status is a data type, with the text that the
-- database and the events hold; a payload is the text of its JSON.
use q_pay_flow.Base.{ℕ, String, Bool}
use q_pay_flow.Base.Int.{ℤ}

pub data PaymentStatus : Type 0 where
  pending processing success failed : PaymentStatus

pub PaymentStatus-discrete : Discrete PaymentStatus
PaymentStatus-discrete = hlevel

-- `string(p.Status)`.
abbrev pub status_text : PaymentStatus → String
status_text pending = "PENDING"
status_text processing = "PROCESSING"
status_text success = "SUCCESS"
status_text failed = "FAILED"

pub record Payment : Type 0 where
  pub id : String
  pub idempotency_key : String
  pub source_account_id : String
  pub target_account_id : String
  pub amount : ℤ
  pub currency : String
  pub status : PaymentStatus
  pub created_at : ℕ
  pub updated_at : ℕ

pub record OutboxEvent : Type 0 where
  pub id : String
  pub aggregate_type : String
  pub aggregate_id : String
  pub event_type : String
  pub payload : String
  pub status : String  -- PENDING, PROCESSED, FAILED
  pub created_at : ℕ

pub record PaymentCreatedEvent : Type 0 where
  pub id : String
  pub idempotency_key : String
  pub source_account_id : String
  pub target_account_id : String
  pub amount : ℤ
  pub currency : String
  pub status : String

pub record FraudCheckedEvent : Type 0 where
  pub payment_id : String
  pub approved : Bool
  pub reason : String

pub record PaymentResultEvent : Type 0 where
  pub id : String
  pub source_account_id : String
  pub target_account_id : String
  pub amount : ℤ
  pub currency : String
  pub status : String
  pub reason : String
