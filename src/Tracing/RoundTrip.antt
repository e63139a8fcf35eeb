-- ===== src/Tracing/RoundTrip.antt =====
-- What a receiver finds in the headers that a sender has written.
use Prim.Native.String
use Prim.Native.String.{len}
use q_pay_flow.Base.{
  String, true, not, List, [], ◌∷◌, ◌++◌, arith, ◌≡◌, refl, sym, ap, ◌∙◌, str_eq, eq_iff,
  Bool-cases, inl, inr, select,
}
use q_pay_flow.Tracing.{
  Random, Header, generate_traceparent, traceparent_of, is_valid_traceparent, extract_from_kafka,
  inject_to_kafka_headers, or_generated, is_trace_header, traceparent_header, extract_from_http,
}
use q_pay_flow.Tracing.Texts.{
  split_dash, split_dash-part, hex, fill, len-hex, length-fill, hex-AllPlain,
}

split_dash-of :
    (r : Random)
    → split_dash (traceparent_of (hex (fill 16 r.trace_id)) (hex (fill 8 r.parent_id)))
      ≡ "00" ∷ hex (fill 16 r.trace_id) ∷ hex (fill 8 r.parent_id) ∷ "01" ∷ []
split_dash-of r =
    let t = hex (fill 16 r.trace_id) in
    let p = hex (fill 8 r.parent_id) in
    split_dash-part "00" (String.◌++◌ t (String.◌++◌ "-" (String.◌++◌ p "-01"))) (ground arith)
    ∙ ap (λ parts. "00" ∷ parts)
        (split_dash-part t (String.◌++◌ p "-01") (hex-AllPlain (fill 16 r.trace_id))
          ∙ ap (λ parts. t ∷ parts) (split_dash-part p "01" (hex-AllPlain (fill 8 r.parent_id))))

-- A generated traceparent is valid, whatever bytes the random source gives.
generate_traceparent-valid : (r : Random) → is_valid_traceparent (generate_traceparent r) ≡ true
unfolding generate_traceparent is_valid_traceparent
generate_traceparent-valid r = rw (split_dash-of r) (
    ground (
      arith,
      len-hex (fill 16 r.trace_id),
      length-fill 16 r.trace_id,
      len-hex (fill 8 r.parent_id),
      length-fill 8 r.parent_id,
    ))

not_valid_empty : is_valid_traceparent "" ≡ true → ⊥
unfolding is_valid_traceparent
not_valid_empty h = cc

-- What a service goes on with has the form that it asks of others, whatever headers a message or a
-- request carries.
pub extract_from_kafka-valid :
    (r : Random) (headers : List Header)
    → is_valid_traceparent (extract_from_kafka r headers) ≡ true
unfolding extract_from_kafka
extract_from_kafka-valid r [] = generate_traceparent-valid r
extract_from_kafka-valid r (h ∷ headers) = ground (arith, extract_from_kafka-valid r headers)

pub extract_from_http-valid :
    (r : Random) (header : String) → is_valid_traceparent (extract_from_http r header) ≡ true
unfolding extract_from_http
extract_from_http-valid r header = ground (arith, generate_traceparent-valid r)

-- A valid traceparent is not empty.
pub or_generated-of_valid :
    (r : Random) (tp : String) → is_valid_traceparent tp ≡ true → or_generated r tp ≡ tp
unfolding or_generated is_valid_traceparent
or_generated-of_valid r tp valid = elim (Bool-cases (str_eq tp "")) [
  | inl e ↦ absurd (not_valid_empty (ap is_valid_traceparent (sym ((eq_iff tp "").0 e)) ∙ valid))
  | inr e ↦ rw e refl
]

skips_clean :
    (r : Random) (headers : List Header) (last : List Header)
    → extract_from_kafka r (select (λ h. not (is_trace_header h)) headers ++ last)
      ≡ extract_from_kafka r last
unfolding extract_from_kafka
skips_clean r [] last = refl
skips_clean r (h ∷ headers) last = elim (Bool-cases (is_trace_header h)) [
  | inl t ↦ rw t (skips_clean r headers last)
  | inr n ↦ rw n (rw n (skips_clean r headers last))
]

-- The consumer of a message goes on with the valid traceparent that its producer had, whatever other
-- headers the message has, also other traceparents; without one the producer's generated one.
pub extract-inject :
    (sender receiver : Random) (headers : List Header) (tp : String)
    → is_valid_traceparent (or_generated sender tp) ≡ true
    → extract_from_kafka receiver (inject_to_kafka_headers sender headers tp)
      ≡ or_generated sender tp
unfolding inject_to_kafka_headers extract_from_kafka
extract-inject sender receiver headers tp valid =
    rw
      (skips_clean receiver headers
        (record { key = traceparent_header; value = or_generated sender tp } ∷ []))
      (rw valid refl)

-- A request keeps the valid traceparent that it has.
pub extract_from_http-given :
    (r : Random) (header : String)
    → is_valid_traceparent header ≡ true
    → extract_from_http r header ≡ header
unfolding extract_from_http
extract_from_http-given r header valid = elim (Bool-cases (str_eq header "")) [
  | inl e ↦
      absurd (not_valid_empty (ap is_valid_traceparent (sym ((eq_iff header "").0 e)) ∙ valid))
  | inr e ↦ rw (e, valid) refl
]
