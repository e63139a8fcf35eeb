-- ===== src/Idempotency/Manager.antt =====
-- pkg/idempotency/idempotency.go: `Manager` over a Redis server. The JSON of a record is a
-- parameter, with its encoder and its decoder.
use Prim.Native.String.{◌++◌}
use q_pay_flow.Base.{
  ℕ, ◌*◌, ◌==◌, ◌≡◌, String, Bool, true, false, not, ◌&&◌, Option, none, some, Result, ok, err,
  str_eq, if◌then◌else◌,
}
use q_pay_flow.Redis.Interface.{Redis}

pub data Status : Type 0 where
  in_flight completed : Status

-- `created_at` is written and never read. An empty text stands for an absent field.
pub record Record : Type 0 where
  pub key : String
  pub status : Status
  pub payload_hash : String
  pub response_data : String
  pub created_at : ℕ

-- `encoding/json` on one type: Marshal and Unmarshal.
pub record Codec (A : Type 0) : Type 0 where
  pub encode : A → String
  pub decode : String → Option A

abbrev pub RoundTrips : {A : Type 0} → Codec A → Type 0
RoundTrips {A} c = (a : A) → c.decode (c.encode a) ≡ some a

pub data IdempotencyError : Type 0 where
  key_empty setnx_failed get_failed unmarshal_failed marshal_failed set_failed request_in_flight
        key_conflict :
      IdempotencyError

abbrev pub key_prefix : String → String
key_prefix key = "idempotency:" ++ key

abbrev pub day : ℕ
day = 24 * 60 * 60 * 1000000000

-- `NewManager`: a time to live that is not positive becomes a day.
abbrev pub manager_ttl : ℕ → ℕ
manager_ttl ttl = if ttl == 0 then day else ttl

-- The calls of `Start` that can fail.
pub data Site : Type 0 where
  start_setnx start_get complete_set release_del : Site

abbrev pub new_record : String → String → ℕ → Record
new_record key payload_hash now = record {
  key = key;
  status = in_flight;
  payload_hash = payload_hash;
  response_data = "";
  created_at = now;
}

abbrev pub is_in_flight : Status → Bool
is_in_flight in_flight = true
is_in_flight completed = false

-- What a record that was there before means for the request.
abbrev pub judge : String → Record → Result IdempotencyError Record
judge payload_hash existing =
    if not (str_eq payload_hash "")
      && not (str_eq existing.payload_hash "")
      && not (str_eq payload_hash existing.payload_hash)
    then err key_conflict
    else if is_in_flight existing.status
    then err request_in_flight
    else ok existing

abbrev pub judge_decoded : String → Option Record → Result IdempotencyError Record
judge_decoded payload_hash none = err unmarshal_failed
judge_decoded payload_hash (some existing) = judge payload_hash existing

module _ (rdb : Redis) (json : Codec Record) (ttl : ℕ) where
  open rdb use {Store}

  abbrev pub read_existing :
      (get_down : Bool) → String → Option String → Result IdempotencyError Record
  read_existing true payload_hash raw = err get_failed
  read_existing false payload_hash none = err get_failed
  read_existing false payload_hash (some raw) = judge_decoded payload_hash (json.decode raw)

  -- `Start`: reserve the key, or say what became of it.
  unfoldable pub start :
      (fails : Site → Bool) (key payload_hash : String) (now : ℕ)
      → Store
      → Result IdempotencyError Record × Store
  start fails key payload_hash now s =
      let fresh = new_record key payload_hash now in
      let (reserved, s') = rdb.set_nx (key_prefix key) (json.encode fresh) ttl now s in
      if str_eq key ""
      then (err key_empty, s)
      else if fails start_setnx
      then (err setnx_failed, s)
      else if reserved
      then (ok fresh, s')
      else (read_existing (fails start_get) payload_hash (rdb.get (key_prefix key) now s'), s')

  -- `Complete`: the new record has no payload hash. `response` is the JSON of the response, if it
  -- has one.
  unfoldable pub complete :
      (fails : Site → Bool) (key : String) (response : Option String) (now : ℕ)
      → Store
      → Result IdempotencyError (Unit {0}) × Store
  complete fails key none now s = (err marshal_failed, s)
  complete fails key (some response_data) now s =
      let done : Record = record {
        key = key;
        status = completed;
        payload_hash = "";
        response_data = response_data;
        created_at = now;
      } in
      if fails complete_set
      then (err set_failed, s)
      else (ok tt, rdb.set (key_prefix key) (json.encode done) ttl now s)

  -- `Release`.
  unfoldable pub release : (fails : Site → Bool) (key : String) → Store → Store
  release fails key s = if fails release_del then s else rdb.del (key_prefix key) s
