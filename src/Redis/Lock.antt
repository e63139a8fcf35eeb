-- ===== src/Redis/Lock.antt =====
-- pkg/redis/redis.go: the distributed lock. `token` is the hex text of the 16 random bytes; the
-- flags say that the random source or the server fails, and a call that fails changes nothing.
use q_pay_flow.Base.{
  ℕ, ◌+◌, ◌≤◌, ◌<◌, ◌≡◌, ◌≢◌, String, Bool, false, none, some, Result, ok, err, arith, str_eq,
  if◌then◌else◌, ◌==◌, not, str_eq_refl, str_eq-false, Option-cases, inl, inr, ap, ◌∙◌, some_inj,
  sym,
}
use q_pay_flow.Redis.Interface.{Redis, Laws}

pub data LockError : Type 0 where
  token_failed setnx_failed eval_failed lock_not_acquired lock_not_owned : LockError

pub record Lock : Type 0 where
  pub key : String
  pub token : String

module _ (rdb : Redis) where
  open rdb use {Store}

  -- `AcquireLock`.
  unfoldable pub acquire_lock :
      (rand_down redis_down : Bool) (token key : String) (ttl now : ℕ)
      → Store
      → Result LockError Lock × Store
  acquire_lock rand_down redis_down token key ttl now s =
      let (taken, s') = rdb.set_nx key token ttl now s in
      if rand_down
      then (err token_failed, s)
      else if redis_down
      then (err setnx_failed, s)
      else if not taken
      then (err lock_not_acquired, s')
      else (ok (record { key = key; token = token }), s')

  -- `releaseLockLua`: the reply, and the store after.
  unfoldable pub release_lua : String → String → ℕ → Store → ℕ × Store
  release_lua key token now s = elim (rdb.get key now s) [
    | none ↦ (0, s)
    | some held ↦ if str_eq held token then (1, rdb.del key s) else (0, s)
  ]

  -- `(*Lock).Release`.
  unfoldable pub release :
      (redis_down : Bool) → Lock → (now : ℕ) → Store → Result LockError (Unit {0}) × Store
  release redis_down l now s =
      let (reply, s') = release_lua l.key l.token now s in
      if redis_down
      then (err eval_failed, s)
      else if reply == 1
      then (ok tt, s')
      else (err lock_not_owned, s')

  pub release_lua_held :
      (key token : String) (now : ℕ) (s : Store)
      → rdb.get key now s ≡ some token
      → release_lua key token now s ≡ (1, rdb.del key s)
  unfolding release_lua
  release_lua_held key token now s e = rw (e, release_lua) (rw (str_eq_refl token))

  -- The script with a token that is not the value of the key changes nothing.
  pub release_lua_other :
      (key token : String) (now : ℕ) (s : Store)
      → rdb.get key now s ≢ some token
      → release_lua key token now s ≡ (0, s)
  unfolding release_lua
  release_lua_other key token now s h = elim (Option-cases (rdb.get key now s)) [
    | inl e ↦ rw (e, release_lua)
    | inr (held, e) ↦
        let other : held ≢ token = λ same. h (e ∙ ap some same) in
        rw (e, release_lua) (rw (str_eq-false held token other))
  ]

  -- A token that the lock does not hold releases nothing.
  pub release_not_owner :
      (l : Lock) (now : ℕ) (s : Store)
      → rdb.get l.key now s ≢ some l.token
      → release false l now s ≡ (err lock_not_owned, s)
  unfolding release
  release_not_owner l now s h = rw (release_lua_other l.key l.token now s h)

  module _ (laws : Laws rdb) where
    -- A successful attempt found the key free and wrote its token.
    pub acquire_lock-ok :
        (token key : String) (ttl now : ℕ) (s : Store) {l : Lock} {s' : Store}
        → acquire_lock false false token key ttl now s ≡ (ok l, s')
        → (rdb.get key now s ≡ none)
          × (l ≡ record { key = key; token = token })
          × (s' ≡ rdb.set key token ttl now s)
    unfolding acquire_lock
    acquire_lock-ok token key ttl now s h = elim (Option-cases (rdb.get key now s)) [
      | inl free ↦
          let wrote = laws.set_nx_free key token ttl now s free in
          (free, ground (arith, wrote), ground (arith, wrote))
      | inr (w, busy) ↦
          let refused = laws.set_nx_taken key token w ttl now s busy in
          absurd (ground (arith, refused))
    ]

    -- A lock that was acquired is held: until its time to live has passed, nobody else acquires it,
    -- and a failed attempt changes nothing.
    pub acquire_lock_excludes :
        (token other key : String) (ttl ttl' now later : ℕ) (s : Store) {l : Lock} {s' : Store}
        → acquire_lock false false token key ttl now s ≡ (ok l, s')
        → now ≤ later
        → later < now + ttl
        → acquire_lock false false other key ttl' later s' ≡ (err lock_not_acquired, s')
    unfolding acquire_lock
    acquire_lock_excludes token other key ttl ttl' now later s {l} {s'} h a b =
        let (free, made, wrote) = acquire_lock-ok token key ttl now s h in
        let held : rdb.get key later s' ≡ some token =
          ap (rdb.get key later) wrote ∙ laws.get-set_live key token ttl now later s a b in
        rw (laws.set_nx_taken key other token ttl' later s' held)

    -- The holder's release, in time, succeeds; it frees the lock, and the keys other than the
    -- lock's are as they were before the lock was acquired.
    pub acquire_lock-release :
        (token key : String) (ttl now later : ℕ) (s : Store) {l : Lock} {s' : Store}
        → acquire_lock false false token key ttl now s ≡ (ok l, s')
        → now ≤ later
        → later < now + ttl
        → ((release false l later s').0 ≡ ok tt)
          × ((time : ℕ) → rdb.get key time (release false l later s').1 ≡ none)
          × ((j : String) (time : ℕ)
              → j ≢ key
              → rdb.get j time (release false l later s').1 ≡ rdb.get j time s)
    unfolding release
    acquire_lock-release token key ttl now later s {l} {s'} h a b =
        let (free, made, wrote) = acquire_lock-ok token key ttl now s h in
        let held : rdb.get key later s' ≡ some token =
          ap (rdb.get key later) wrote ∙ laws.get-set_live key token ttl now later s a b in
        let done : release_lua l.key l.token later s' ≡ (1, rdb.del key s') =
          rw made (release_lua_held key token later s' held) in
        (
          rw done,
          λ time. rw done (laws.get-del_self key time s'),
          λ j time ne. rw done (
              laws.get-del_ne j key time s' ne
              ∙ ap (rdb.get j time) wrote
              ∙ laws.get-set_ne j key token ttl now time s ne),
        )

    -- A lease that has run out and was taken by another token is not removed by the first holder.
    pub late_release_harmless :
        (token other key : String) (ttl ttl' now later end : ℕ) (s : Store) {l l' : Lock}
        {s' s'' : Store}
        → acquire_lock false false token key ttl now s ≡ (ok l, s')
        → acquire_lock false false other key ttl' later s' ≡ (ok l', s'')
        → token ≢ other
        → later ≤ end
        → end < later + ttl'
        → release false l end s'' ≡ (err lock_not_owned, s'')
    late_release_harmless token other key ttl ttl' now later end s {l} {l'} {s'} {s''} h h' ne a b =
        let (_, made, _) = acquire_lock-ok token key ttl now s h in
        let (_, _, wrote) = acquire_lock-ok other key ttl' later s' h' in
        let held : rdb.get key end s'' ≡ some other =
          ap (rdb.get key end) wrote ∙ laws.get-set_live key other ttl' later end s' a b in
        release_not_owner l end s'' (λ same. ne (some_inj (sym (rw made at same) ∙ held)))
