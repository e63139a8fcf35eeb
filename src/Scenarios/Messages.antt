-- ===== src/Scenarios/Messages.antt =====
-- Messages on Kafka: a payment event, its verdict, and the result that follows.
use q_pay_flow.Base.{◌≡◌, true, false, some, List, [], ◌∷◌}
use q_pay_flow.Base.Int.{pos}
use q_pay_flow.Redis.Memory.{memory}
use q_pay_flow.Resilience.Breaker.{new_circuit_breaker}
use q_pay_flow.Idempotency.Manager.{Codec}
use q_pay_flow.Tracing.{Random, Header, extract_from_kafka}
use q_pay_flow.Kafka.{
  Message, Producer, PublishEnv, Read, received, read_error, canceled, start, traced_message,
}
use q_pay_flow.Kafka.Delivery.{traced_message-extract}
use q_pay_flow.Payment.Model.{PaymentCreatedEvent, FraudCheckedEvent}
use q_pay_flow.Payment.Process.{Env}
use q_pay_flow.Payment.Saga.{SagaState, saga_handler, saga_producer}
use q_pay_flow.Fraud.Check.{Clock}
use q_pay_flow.System.Contract.{account_server, account_server-Contract}
use q_pay_flow.System.Announcements.{Announced, start-Announced}
use q_pay_flow.Scenarios.Codecs.{result_codec, result_codec-RoundTrips}
use q_pay_flow.Scenarios.Accounts.{up_env}
use q_pay_flow.Scenarios.Payments.{encodings, empty_store, process_env}
use q_pay_flow.Scenarios.Runs.{lock_env, created, created-Good}

abbrev random : Random
random = record { trace_id = λ i. i; parent_id = λ i. i }

abbrev publish_env : PublishEnv
publish_env = record {
  now = 9;
  time_text = "now";
  for_context = random;
  for_headers = random;
  write_fails = false;
}

abbrev headers : List Header
headers =
    record {
      key = "TraceParent";
      value = "00-0123456789abcdef0123456789abcdef-0123456789abcdef-01";
    }
    ∷ []

traced_message-extract_example :
    extract_from_kafka random
      (traced_message publish_env (some (extract_from_kafka random headers)) [] "k" "v").headers
    ≡ extract_from_kafka random headers
traced_message-extract_example = traced_message-extract publish_env random random headers [] "k" "v"

abbrev checked_codec : Codec FraudCheckedEvent
checked_codec = record {
  encode = λ e. e.payment_id;
  decode = λ text. some (record { payment_id = text; approved = true; reason = "PASSED" });
}

abbrev created_codec : Codec PaymentCreatedEvent
created_codec = record {
  encode = λ e. e.id;
  decode = λ text. some (record {
    id = text;
    idempotency_key = "key1";
    source_account_id = "alice";
    target_account_id = "bob";
    amount = pos 300000;
    currency = "USD";
    status = "PENDING";
  });
}

abbrev clock : Clock
clock = record { now = 5; later = 6 }

abbrev verdict : Message
verdict = record { key = "pay_1"; value = "pay_1"; headers = headers; time = 7 }

abbrev reads : List (Read (Unit {0} × Env × PublishEnv))
reads = read_error ∷ received (tt, process_env, publish_env) random verdict ∷ canceled ∷ []

abbrev producer : Producer
producer = saga_producer "payment-events"

abbrev before :
    SagaState checked_codec result_codec producer memory encodings 100 {E = Unit {0}}
      (λ u. account_server memory lock_env up_env empty_store)
before = ((created, empty_store, new_circuit_breaker 5 3 10 0), [])

start-Announced_example :
    Announced memory encodings 100 checked_codec result_codec producer {E = Unit {0}}
      (λ u. account_server memory lock_env up_env empty_store)
      (start
        (saga_handler checked_codec result_codec producer memory encodings 100 {E = Unit {0}}
          (λ u. account_server memory lock_env up_env empty_store))
        reads
        before)
start-Announced_example =
    start-Announced memory encodings 100 checked_codec result_codec producer {E = Unit {0}}
      (λ u. account_server memory lock_env up_env empty_store) result_codec-RoundTrips
      (λ u. account_server-Contract memory lock_env up_env empty_store) reads before
      (created-Good, tt)
