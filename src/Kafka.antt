-- ===== src/Kafka.antt =====
-- pkg/kafka/kafka.go: the producers and the loop of a consumer. What the broker has taken is a list
-- of messages with their topics, in order. A context is what of it the code reads: the traceparent.
pub mod Delivery
use q_pay_flow.Base.{
  ℕ, String, Bool, not, Option, none, some, List, [], ◌∷◌, ◌++◌, Result, ok, err, str_eq,
  if◌then◌else◌,
}
use q_pay_flow.Tracing.{Random, Header, from_context, inject_to_kafka_headers, extract_from_kafka}

pub record Message : Type 0 where
  pub key : String
  pub value : String
  pub headers : List Header
  pub time : ℕ

pub record Published : Type 0 where
  pub topic : String
  pub message : Message

-- The topics of the two writers.
pub record Producer : Type 0 where
  pub writer : String
  pub dlq : Option String

abbrev pub topic_given : String → Option String
topic_given topic = if not (str_eq topic "") then some topic else none

-- `NewProducer`: of the optional arguments only the first counts.
abbrev pub new_producer : (topic : String) → (dlq_topic : List String) → Producer
new_producer topic [] = record { writer = topic; dlq = none }
new_producer topic (dlq_topic ∷ _) = record { writer = topic; dlq = topic_given dlq_topic }

-- The clock, the two places where a random traceparent may be made, and the writer's failure.
pub record PublishEnv : Type 0 where
  pub now : ℕ
  pub time_text : String  -- `time.Now().Format(time.RFC3339)`
  pub for_context : Random
  pub for_headers : Random
  pub write_fails : Bool

abbrev pub Context : Type 0
Context = Option String

abbrev pub write :
    PublishEnv → String → Message → List Published → Result (Unit {0}) (Unit {0}) × List Published
write env topic msg sent =
    if env.write_fails
    then (err tt, sent)
    else (ok tt, sent ++ record { topic = topic; message = msg } ∷ [])

-- The message of `Publish` and of `PublishDLQ`, with the headers that it starts from.
unfoldable pub traced_message : PublishEnv → Context → List Header → String → String → Message
unfolding from_context inject_to_kafka_headers
traced_message env ctx headers key value = record {
  key = key;
  value = value;
  headers = inject_to_kafka_headers env.for_headers headers (from_context env.for_context ctx);
  time = env.now;
}

unfoldable pub publish :
    PublishEnv
    → Producer
    → Context
    → (key value : String) → List Published
    → Result (Unit {0}) (Unit {0}) × List Published
unfolding traced_message
publish env p ctx key value sent = write env p.writer (traced_message env ctx [] key value) sent

abbrev pub dlq_headers : PublishEnv → String → List Header
dlq_headers env reason =
    record { key = "dlq-reason"; value = reason }
    ∷ record { key = "dlq-timestamp"; value = env.time_text }
    ∷ []

abbrev pub write_dlq :
    PublishEnv
    → Option String
    → Message
    → List Published
    → Result (Unit {0}) (Unit {0}) × List Published
write_dlq env none msg sent = (ok tt, sent)
write_dlq env (some topic) msg sent = write env topic msg sent

-- `PublishDLQ`: without a topic for them, poisoned messages are dropped.
unfoldable pub publish_dlq :
    PublishEnv
    → Producer
    → Context
    → (key value reason : String) → List Published
    → Result (Unit {0}) (Unit {0}) × List Published
unfolding traced_message
publish_dlq env p ctx key value reason sent =
    write_dlq env p.dlq (traced_message env ctx (dlq_headers env reason) key value) sent

-- `headersMap`: of two headers with one key the later one counts.
abbrev pub put_header : Header → (String → Option String) → String → Option String
put_header h headers k = if str_eq h.key k then some h.value else headers k

abbrev pub headers_from : List Header → (String → Option String) → String → Option String
headers_from [] headers = headers
headers_from (h ∷ more) headers = headers_from more (put_header h headers)

abbrev pub headers_map : List Header → String → Option String
headers_map headers = headers_from headers (λ k. none)

-- A handler works on a state of its own; what happens around it while it runs is its first argument.
abbrev pub MessageHandler : Type 0 → Type 0 → Type 0
MessageHandler E S =
    E
    → Context
    → (key value : String) → (String → Option String)
    → S
    → Result (Unit {0}) (Unit {0}) × S

-- What `ReadMessage` gives: an error that is the end of the context or another one, or a message.
pub data Read (E : Type 0) : Type 0 where
  canceled read_error : Read E
  received : E → Random → Message → Read E

-- The body of the loop for a message: the handler's error is logged only.
unfoldable pub handle_message : {E S : Type 0} → MessageHandler E S → E → Random → Message → S → S
handle_message handler e r msg w =
    (handler e (some (extract_from_kafka r msg.headers)) msg.key msg.value (headers_map msg.headers)
      w).1

-- `Start`, on what the reads give one after another. The list's end stands for a read that waits.
unfoldable pub start : {E S : Type 0} → MessageHandler E S → List (Read E) → S → S
unfolding handle_message
start handler [] w = w
start handler (canceled ∷ reads) w = w
start handler (read_error ∷ reads) w = start handler reads w
start handler (received e r msg ∷ reads) w = start handler reads (handle_message handler e r msg w)
