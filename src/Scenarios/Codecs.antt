-- ===== src/Scenarios/Codecs.antt =====
-- A JSON that can be computed with: fields one after the other, each character behind a mark.
use Prim.Native.Char.{Char, code}
use text.Mathlib.TextBridge.{to_list, of_list, to_list-of_list, of_list-to_list}
use q_pay_flow.Base.{ℕ, zero, suc, ◌==◌, ◌≡◌, refl, List, [], ◌∷◌, some, if◌then◌else◌, ap}
use q_pay_flow.Base.Int.{ℤ, pos, negsuc}
use q_pay_flow.Payment.Model.{PaymentResultEvent}
use q_pay_flow.Idempotency.Manager.{Codec, Record, RoundTrips, Status, in_flight, completed}

abbrev put : List Char → List Char → List Char
put [] rest = "0" ∷ rest
put (c ∷ cs) rest = "1" ∷ c ∷ put cs rest

abbrev cut : List Char → List Char × List Char
cut [] = ([], [])
cut (c ∷ []) = ([], [])
cut (c ∷ d ∷ rest) =
    let (field, left) = cut rest in if code c == 49 then (d ∷ field, left) else ([], d ∷ rest)

cut-put : (field rest : List Char) → cut (put field rest) ≡ (field, rest)
cut-put [] [] = refl
cut-put [] (d ∷ rest) = refl
cut-put (c ∷ cs) rest = rw (cut-put cs rest)

abbrev ticks : ℕ → List Char
ticks zero = []
ticks (suc n) = "1" ∷ ticks n

abbrev count_ticks : List Char → ℕ
count_ticks [] = 0
count_ticks (c ∷ cs) = suc (count_ticks cs)

count_ticks-ticks : (n : ℕ) → count_ticks (ticks n) ≡ n
count_ticks-ticks zero = refl
count_ticks-ticks (suc n) = ap suc (count_ticks-ticks n)

abbrev status_field : Status → List Char
status_field in_flight = []
status_field completed = "1" ∷ []

abbrev field_status : List Char → Status
field_status [] = in_flight
field_status (c ∷ cs) = completed

field_status-status_field : (st : Status) → field_status (status_field st) ≡ st
field_status-status_field in_flight = refl
field_status-status_field completed = refl

abbrev write_record : Record → List Char
write_record r = put (to_list r.key) (
    put (status_field r.status)
      (put (to_list r.payload_hash) (put (to_list r.response_data) (put (ticks r.created_at) []))))

abbrev read_record : List Char → Record
read_record cs =
    let (key, cs1) = cut cs in
    let (status, cs2) = cut cs1 in
    let (hash, cs3) = cut cs2 in
    let (response, cs4) = cut cs3 in
    let (created, cs5) = cut cs4 in
    record {
      key = of_list key;
      status = field_status status;
      payload_hash = of_list hash;
      response_data = of_list response;
      created_at = count_ticks created;
    }

read_record-write_record : (r : Record) → read_record (write_record r) ≡ r
read_record-write_record r = rw (
  cut-put (to_list r.key),
  cut-put (status_field r.status),
  cut-put (to_list r.payload_hash),
  cut-put (to_list r.response_data),
  cut-put (ticks r.created_at),
  of_list-to_list r.key,
  of_list-to_list r.payload_hash,
  of_list-to_list r.response_data,
  field_status-status_field r.status,
  count_ticks-ticks r.created_at,
)

abbrev pub record_codec : Codec Record
record_codec = record {
  encode = λ r. of_list (write_record r);
  decode = λ s. some (read_record (to_list s));
}

pub record_codec-RoundTrips : RoundTrips record_codec
record_codec-RoundTrips r =
    ap some (rw (to_list-of_list (write_record r)) (read_record-write_record r))

abbrev amount_field : ℤ → List Char
amount_field (pos n) = "1" ∷ ticks n
amount_field (negsuc n) = "0" ∷ ticks n

abbrev field_amount : List Char → ℤ
field_amount [] = pos 0
field_amount (c ∷ cs) = if code c == 49 then pos (count_ticks cs) else negsuc (count_ticks cs)

field_amount-amount_field : (a : ℤ) → field_amount (amount_field a) ≡ a
field_amount-amount_field (pos n) = ap pos (count_ticks-ticks n)
field_amount-amount_field (negsuc n) = ap negsuc (count_ticks-ticks n)

abbrev write_result : PaymentResultEvent → List Char
write_result e = put (to_list e.id) (
    put (to_list e.source_account_id) (
      put (to_list e.target_account_id) (
        put (amount_field e.amount)
          (put (to_list e.currency) (put (to_list e.status) (put (to_list e.reason) []))))))

abbrev read_result : List Char → PaymentResultEvent
read_result cs =
    let (id, cs1) = cut cs in
    let (source, cs2) = cut cs1 in
    let (target, cs3) = cut cs2 in
    let (amount, cs4) = cut cs3 in
    let (currency, cs5) = cut cs4 in
    let (status, cs6) = cut cs5 in
    let (reason, cs7) = cut cs6 in
    record {
      id = of_list id;
      source_account_id = of_list source;
      target_account_id = of_list target;
      amount = field_amount amount;
      currency = of_list currency;
      status = of_list status;
      reason = of_list reason;
    }

read_result-write_result : (e : PaymentResultEvent) → read_result (write_result e) ≡ e
read_result-write_result e = rw (
  cut-put (to_list e.id),
  cut-put (to_list e.source_account_id),
  cut-put (to_list e.target_account_id),
  cut-put (amount_field e.amount),
  cut-put (to_list e.currency),
  cut-put (to_list e.status),
  cut-put (to_list e.reason),
  of_list-to_list e.id,
  of_list-to_list e.source_account_id,
  of_list-to_list e.target_account_id,
  field_amount-amount_field e.amount,
  of_list-to_list e.currency,
  of_list-to_list e.status,
  of_list-to_list e.reason,
)

abbrev pub result_codec : Codec PaymentResultEvent
result_codec = record {
  encode = λ e. of_list (write_result e);
  decode = λ s. some (read_result (to_list s));
}

pub result_codec-RoundTrips : RoundTrips result_codec
result_codec-RoundTrips e =
    ap some (rw (to_list-of_list (write_result e)) (read_result-write_result e))
