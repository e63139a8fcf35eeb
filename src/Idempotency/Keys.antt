-- ===== src/Idempotency/Keys.antt =====
-- The life of an idempotency key: reserved, then completed or released.
use q_pay_flow.Base.{
  ℕ, ◌+◌, ◌≤◌, ◌<◌, ◌≡◌, ◌≢◌, String, Bool, false, none, some, ok, err, str_eq, eq_iff, arith,
  str_eq-false, ap, ◌∙◌, if◌then◌else◌,
}
use q_pay_flow.Redis.Interface.{Redis, Laws}
use q_pay_flow.Idempotency.Manager.{
  completed, Record, Codec, RoundTrips, request_in_flight, key_conflict, key_prefix, Site, start,
  complete, release, new_record, judge, start_setnx, start_get, complete_set, release_del,
}

module _ (rdb : Redis) (json : Codec Record) (ttl : ℕ) (laws : Laws rdb) (exact : RoundTrips json)
    (fails : Site → Bool) (up : (site : Site) → fails site ≡ false) where
  -- While a key is live, `Start` decides by the record that is stored and changes nothing.
  pub start_live :
      (key payload_hash : String) (now : ℕ) (s : rdb.Store) (r : Record)
      → key ≢ ""
      → rdb.get (key_prefix key) now s ≡ some (json.encode r)
      → start rdb json ttl fails key payload_hash now s ≡ (judge payload_hash r, s)
  unfolding start
  start_live key payload_hash now s r ne held = rw (
    laws.set_nx_taken (key_prefix key) _ _ ttl now s held,
    str_eq-false key "" ne,
    up start_setnx,
    up start_get,
    held,
    exact r,
  )

  -- A key that is not live is reserved.
  pub start_free :
      (key payload_hash : String) (now : ℕ) (s : rdb.Store)
      → key ≢ ""
      → rdb.get (key_prefix key) now s ≡ none
      → start rdb json ttl fails key payload_hash now s ≡ (
        ok (new_record key payload_hash now),
        rdb.set (key_prefix key) (json.encode (new_record key payload_hash now)) ttl now s,
      )
  unfolding start
  start_free key payload_hash now s ne free =
      rw
        (laws.set_nx_free (key_prefix key) _ ttl now s free, str_eq-false key "" ne, up start_setnx)

  judge_reserved :
      (key hash hash' : String) (now : ℕ)
      → hash ≢ ""
      → hash' ≢ ""
      → judge hash' (new_record key hash now)
        ≡ err (if str_eq hash' hash then request_in_flight else key_conflict)
  judge_reserved key hash hash' now ne ne' = ground (arith, eq_iff hash "", eq_iff hash' "")

  -- A second request while the first is in flight changes nothing: it is told that the key is in
  -- flight if its payload has the same hash, and that the key conflicts otherwise.
  pub start_twice :
      (key hash hash' : String) (now later : ℕ) (s : rdb.Store)
      → key ≢ ""
      → hash ≢ ""
      → hash' ≢ ""
      → rdb.get (key_prefix key) now s ≡ none
      → now ≤ later
      → later < now + ttl
      → let s' = (start rdb json ttl fails key hash now s).1 in
        start rdb json ttl fails key hash' later s'
        ≡ (err (if str_eq hash' hash then request_in_flight else key_conflict), s')
  start_twice key hash hash' now later s nk ne ne' free a b =
      let first = start_free key hash now s nk free in
      let held =
        laws.get-set_live (key_prefix key) (json.encode (new_record key hash now)) ttl now later s a
          b in
      let s' : rdb.Store =
        rdb.set (key_prefix key) (json.encode (new_record key hash now)) ttl now s in
      rw first (
        start_live key hash' later s' (new_record key hash now) nk held
        ∙ ap (λ j. (j, s')) (judge_reserved key hash hash' now ne ne'))

  -- Once a key is completed, every request with it gets the stored response until the key expires,
  -- whatever its payload: the completed record keeps no payload hash.
  pub complete-start_replays :
      (key response hash : String) (now later : ℕ) (s : rdb.Store)
      → key ≢ ""
      → now ≤ later
      → later < now + ttl
      → let s' = (complete rdb json ttl fails key (some response) now s).1 in
        start rdb json ttl fails key hash later s' ≡ (
          ok (record {
            key = key;
            status = completed;
            payload_hash = "";
            response_data = response;
            created_at = now;
          }),
          s',
        )
  unfolding complete
  complete-start_replays key response hash now later s nk a b =
      let done : Record = record {
        key = key;
        status = completed;
        payload_hash = "";
        response_data = response;
        created_at = now;
      } in
      let held = laws.get-set_live (key_prefix key) (json.encode done) ttl now later s a b in
      let s' : rdb.Store = rdb.set (key_prefix key) (json.encode done) ttl now s in
      rw (up complete_set) (
        start_live key hash later s' done nk held
        ∙ ap (λ j. (j, s')) (ground (arith, eq_iff hash "")))

  -- A released key can be reserved again at once, with any payload.
  pub release-start_reserves :
      (key hash : String) (now : ℕ) (s : rdb.Store)
      → key ≢ ""
      → (start rdb json ttl fails key hash now (release rdb json ttl fails key s)).0
        ≡ ok (new_record key hash now)
  unfolding release
  release-start_reserves key hash now s nk =
      rw (up release_del)
        (ap (λ p. p.0) (start_free key hash now _ nk (laws.get-del_self (key_prefix key) now s)))
