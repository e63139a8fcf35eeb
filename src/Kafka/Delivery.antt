-- ===== src/Kafka/Delivery.antt =====
-- What the consumer loop does with the messages, and what becomes of a traceparent on its way.
use q_pay_flow.Base.{String, Option, some, List, [], ◌∷◌, ◌≡◌, refl, ap, ◌∙◌}
use q_pay_flow.Tracing.{Random, Header, extract_from_kafka, from_context, is_valid_traceparent}
use q_pay_flow.Tracing.RoundTrip.{extract-inject, extract_from_kafka-valid, or_generated-of_valid}
use q_pay_flow.Kafka.{
  Message, MessageHandler, Read, canceled, read_error, received, handle_message, start, PublishEnv,
  traced_message,
}

-- The messages that are read before the first cancellation, in order.
abbrev pub read_before_cancel : {E : Type 0} → List (Read E) → List (E × Random × Message)
read_before_cancel [] = []
read_before_cancel (canceled ∷ reads) = []
read_before_cancel (read_error ∷ reads) = read_before_cancel reads
read_before_cancel (received e r msg ∷ reads) = (e, r, msg) ∷ read_before_cancel reads

abbrev pub handle_all : {E S : Type 0} → MessageHandler E S → List (E × Random × Message) → S → S
handle_all handler [] w = w
handle_all handler ((e, r, msg) ∷ more) w =
    handle_all handler more (handle_message handler e r msg w)

-- The loop hands each message that is read before the cancellation to the handler once, in order,
-- and nothing else, whatever errors of reading lie between and whatever the handler returns.
pub start-handle_all :
    {E S : Type 0} (handler : MessageHandler E S) (reads : List (Read E)) (w : S)
    → start handler reads w ≡ handle_all handler (read_before_cancel reads) w
unfolding start
start-handle_all handler [] w = refl
start-handle_all handler (canceled ∷ reads) w = refl
start-handle_all handler (read_error ∷ reads) w = start-handle_all handler reads w
start-handle_all handler (received e r msg ∷ reads) w =
    start-handle_all handler reads (handle_message handler e r msg w)

-- What every call of the handler keeps, the loop keeps.
pub start-keeps :
    {E S : Type 0} (handler : MessageHandler E S) (P : S → Type 0)
    → ((e : E) (ctx : Option String) (key value : String) (headers : String → Option String) (w : S)
        → P w
        → P (handler e ctx key value headers w).1)
    → (reads : List (Read E)) (w : S) → P w
    → P (start handler reads w)
unfolding start handle_message
start-keeps handler P keeps [] w p = p
start-keeps handler P keeps (canceled ∷ reads) w p = p
start-keeps handler P keeps (read_error ∷ reads) w p = start-keeps handler P keeps reads w p
start-keeps handler P keeps (received e r msg ∷ reads) w p =
    start-keeps handler P keeps reads (handle_message handler e r msg w)
      (keeps e (some (extract_from_kafka r msg.headers)) msg.key msg.value _ w p)

-- A message that is published while one is handled carries its traceparent: a consumer of the new
-- message takes the same one from its headers as the handler had, whatever headers the first message
-- came with, or the new one has besides.
pub traced_message-extract :
    (env : PublishEnv) (r receiver : Random) (arrived headers : List Header) (key value : String)
    → extract_from_kafka receiver
        (traced_message env (some (extract_from_kafka r arrived)) headers key value).headers
      ≡ extract_from_kafka r arrived
unfolding traced_message from_context
traced_message-extract env r receiver arrived headers key value =
    let tp = extract_from_kafka r arrived in
    let valid = extract_from_kafka-valid r arrived in
    let kept = or_generated-of_valid env.for_context tp valid in
    let kept' = or_generated-of_valid env.for_headers tp valid in
    rw kept (
      extract-inject env.for_headers receiver headers tp (ap is_valid_traceparent kept' ∙ valid)
      ∙ kept')
