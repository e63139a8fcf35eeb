-- ===== src/Tracing.antt =====
-- pkg/tracing/tracing.go. Random bytes come from a reader, which gives one for each position; what
-- `rand.Read` leaves at zero after an error is such a reader's too. The header names of HTTP are
-- matched by the caller.
pub mod Texts
pub mod RoundTrip
use Prim.Native.String
use Prim.Native.String.{len}
use q_pay_flow.Base.{
  ℕ, String, Bool, true, false, not, ◌&&◌, ◌||◌, List, [], ◌∷◌, ◌++◌, Option, none, some, ◌==◌,
  str_eq, if◌then◌else◌, select, length,
}
use q_pay_flow.Tracing.Texts.{split_dash, hex, fill, equal_fold}

abbrev pub traceparent_header : String
traceparent_header = "traceparent"

-- What `rand.Read` gives for the trace id and for the parent id.
pub record Random : Type 0 where
  pub trace_id : ℕ → ℕ
  pub parent_id : ℕ → ℕ

-- `fmt.Sprintf("00-%s-%s-01", ...)`.
abbrev pub traceparent_of : (trace_id parent_id : String) → String
traceparent_of trace_id parent_id =
    String.◌++◌ "00"
      (String.◌++◌ "-" (String.◌++◌ trace_id (String.◌++◌ "-" (String.◌++◌ parent_id "-01"))))

unfoldable pub generate_traceparent : Random → String
generate_traceparent r = traceparent_of (hex (fill 16 r.trace_id)) (hex (fill 8 r.parent_id))

-- `isValidTraceparent`: four parts, of which the second and the third have the right length.
abbrev pub are_parts : List String → Bool
are_parts (version ∷ trace_id ∷ parent_id ∷ flags ∷ []) = len trace_id == 32 && len parent_id == 16
are_parts _ = false

unfoldable pub is_valid_traceparent : String → Bool
is_valid_traceparent tp = are_parts (split_dash tp)

-- `ExtractFromHTTP`, by the value of the header, "" where there is none.
unfoldable pub extract_from_http : Random → String → String
unfolding generate_traceparent is_valid_traceparent
extract_from_http r header =
    if str_eq header "" || not (is_valid_traceparent header) then generate_traceparent r else header

-- The value that `InjectToHTTP` sets, and the default of `InjectToKafkaHeaders` and `FromContext`.
unfoldable pub or_generated : Random → String → String
unfolding generate_traceparent
or_generated r tp = if str_eq tp "" then generate_traceparent r else tp

-- A header of a Kafka message.
pub record Header : Type 0 where
  pub key : String
  pub value : String

abbrev pub is_trace_header : Header → Bool
is_trace_header h = equal_fold h.key traceparent_header

-- The loop of `ExtractFromKafka`.
unfoldable pub extract_from_kafka : Random → List Header → String
unfolding generate_traceparent is_valid_traceparent
extract_from_kafka r [] = generate_traceparent r
extract_from_kafka r (h ∷ headers) =
    let rest = extract_from_kafka r headers in
    if is_trace_header h && is_valid_traceparent h.value then h.value else rest

unfoldable pub inject_to_kafka_headers : Random → List Header → String → List Header
unfolding or_generated
inject_to_kafka_headers r headers traceparent =
    select (λ h. not (is_trace_header h)) headers
    ++ record { key = traceparent_header; value = or_generated r traceparent } ∷ []

-- `FromContext`, by the value that the context holds.
unfoldable pub from_context : Random → Option String → String
unfolding generate_traceparent or_generated
from_context r none = generate_traceparent r
from_context r (some v) = or_generated r v
