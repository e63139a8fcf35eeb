-- ===== src/Scenarios/Payments.antt =====
-- A payment request, and the fraud result of a pending payment.
use q_pay_flow.Payment.Handler.{create_payment_handler, create_payment_handler-status}
use q_pay_flow.Base.{ℕ, true, false, ◌≡◌, ◌⊎◌, some, refl, none, arith, [], ◌∷◌}
use q_pay_flow.Base.Int.{pos}
use q_pay_flow.Redis.Memory.{memory, Memory}
use q_pay_flow.Resilience.Breaker.{new_circuit_breaker}
use q_pay_flow.Payment.Model.{Payment, pending, failed, OutboxEvent}
use q_pay_flow.Payment.Create
use q_pay_flow.Payment.Create.{CreatePaymentRequest, Encodings, with_currency, create}
use q_pay_flow.Payment.Atomicity.{Outcome, create-Outcome}
use q_pay_flow.Payment.Process
use q_pay_flow.Payment.Process.{TransferBody, process_fraud_result, replied}
use q_pay_flow.Payment.Changes.{Change, process_fraud_result-Change}
use q_pay_flow.Payment.Keys.{Recorded, create-Recorded, create_once}
use q_pay_flow.Scenarios.Codecs.{record_codec}
use q_pay_flow.Scenarios.Accounts.{books}
use q_pay_flow.Schema.{Tables}

-- Texts that name a payment and an event by their ids; nothing is cached.
abbrev pub encodings : Encodings
encodings = record {
  record_json = record_codec;
  payment_json = record { encode = λ p. p.id; decode = λ text. none };
  created_json = record { encode = λ e. e.id; decode = λ text. none };
  payload_hash = λ req. req.target_account_id;
}

abbrev pub empty_store : Memory
empty_store key = none

abbrev pub req : CreatePaymentRequest
req = record {
  idempotency_key = "key1";
  source_account_id = "alice";
  target_account_id = "bob";
  amount = pos 30;
  currency = "";
}

abbrev pub create_env : Create.Env
create_env = record {
  now = 5;
  payment_uuid = "1";
  event_uuid = "2";
  fails = λ site. false;
  redis_fails = λ site. false;
}

create-Outcome_example :
    Outcome memory encodings 100 create_env
      (with_currency req)
      books
      empty_store
      (create memory encodings 100 create_env req books empty_store)
create-Outcome_example = create-Outcome memory encodings 100 create_env req books empty_store

abbrev pub paid : Payment
paid = record {
  id = "pay_1";
  idempotency_key = "key1";
  source_account_id = "alice";
  target_account_id = "bob";
  amount = pos 30;
  currency = "USD";
  status = pending;
  created_at = 5;
  updated_at = 5;
}

-- A server that moves nothing and answers 200.
abbrev idle_server : TransferBody → Tables → ℕ × Tables
idle_server body t = (200, t)

abbrev pub process_env : Process.Env
process_env = record {
  now = 8;
  later = 9;
  delivery = replied;
  fails = λ site. false;
  redis_fails = λ site. false;
}

abbrev pub with_paid : Tables
with_paid = record books { payments = paid ∷ [] }

process_fraud_result-Change_example :
    Change memory encodings 100 idle_server process_env "pay_1" true with_paid
      (process_fraud_result memory encodings 100 idle_server process_env "pay_1" true
        (with_paid, empty_store, new_circuit_breaker 5 3 10 0)).1.0
process_fraud_result-Change_example =
    process_fraud_result-Change memory encodings 100 idle_server process_env "pay_1" true
      (with_paid, empty_store, new_circuit_breaker 5 3 10 0)

abbrev settled : Tables
settled = record books { payments = record paid { status = failed } ∷ [] }

create_once_example :
    (create memory encodings 100 create_env req with_paid empty_store).1 ≡ with_paid
create_once_example = create_once memory encodings 100 create_env req with_paid empty_store refl

abbrev pub paid_event : OutboxEvent
paid_event = record {
  id = "evt_0";
  aggregate_type = "Payment";
  aggregate_id = "pay_1";
  event_type = "PaymentCreated";
  payload = "";
  status = "PENDING";
  created_at = 5;
}

abbrev pub recorded : Tables
recorded = record with_paid { outbox_events = paid_event ∷ [] }

recorded-Recorded : Recorded recorded
recorded-Recorded = record {
  unique_ids = (refl, tt);
  unique_keys = (refl, tt);
  announced = (omega arith, tt);
}

-- A request under another key, by then.
abbrev second_req : CreatePaymentRequest
second_req = record req { idempotency_key = "key2" }

create-Recorded_example :
    Recorded (create memory encodings 100 create_env second_req recorded empty_store).1
create-Recorded_example =
    create-Recorded memory encodings 100 create_env second_req recorded empty_store
      recorded-Recorded

create_payment_handler-status_example :
    ((create_payment_handler memory encodings 100 create_env "key1"
        (some req)
        with_paid
        empty_store).0.status
      ≡ 201)
    ⊎ ((create_payment_handler memory encodings 100 create_env "key1"
          (some req)
          with_paid
          empty_store).0.status
        ≡ 400)
create_payment_handler-status_example =
    create_payment_handler-status memory encodings 100 create_env "key1" (some req) with_paid
      empty_store
