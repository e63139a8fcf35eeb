-- ===== src/Leader/Moves.antt =====
-- What one heartbeat or one end of a candidate does to the key.
use q_pay_flow.Base.{
  ℕ, ◌+◌, ◌≤◌, ◌<◌, ◌≡◌, ◌≢◌, refl, sym, ap, ◌∙◌, String, Bool, true, false, some, arith, str_eq,
  eq_iff, str_eq-false, Bool-cases, Option-cases, inl, inr, some_inj,
}
use q_pay_flow.Redis.Interface.{Redis, Laws, Exchange, answered, unreached, reply_lost}
use q_pay_flow.Redis.Lock.{release_lua_other}
use q_pay_flow.Leader.{
  Elector, renew_lua, after_renew, after_attempt, on_heartbeat, on_done, step_down, renewed_ttl,
}
use q_pay_flow.Leader.Cluster.{lease_from}

module _ (rdb : Redis) where
  renew_lua_other :
      (key token : String) (ttl now : ℕ) (s : rdb.Store) (v : String)
      → rdb.get key now s ≡ some v
      → v ≢ token
      → renew_lua rdb key token ttl now s ≡ (0, s)
  unfolding renew_lua
  renew_lua_other key token ttl now s v held ne =
      rw (held, renew_lua) (rw (str_eq-false v token ne))

  module _ (laws : Laws rdb) where
    -- A candidate touches nothing while the key has another one's id.
    pub heartbeat_other :
        (exchange : Exchange) (now : ℕ) (e : Elector) (s : rdb.Store) (v : String)
        → rdb.get e.lock_key now s ≡ some v
        → v ≢ e.instance_id
        → (on_heartbeat rdb exchange now e s).1 ≡ s
    unfolding on_heartbeat
    heartbeat_other exchange now e s v held ne = ground (
      arith,
      renew_lua_other e.lock_key e.instance_id (renewed_ttl e) now s v held ne,
      laws.set_nx_taken e.lock_key e.instance_id v e.ttl now s held,
    )

    pub done_other :
        (exchange : Exchange) (now : ℕ) (e : Elector) (s : rdb.Store) (v : String)
        → rdb.get e.lock_key now s ≡ some v
        → v ≢ e.instance_id
        → (on_done rdb exchange now e s).1 ≡ s
    unfolding on_done step_down
    done_other exchange now e s v held ne = ground (
      arith,
      release_lua_other rdb e.lock_key e.instance_id now s
          (λ same. ne (some_inj (sym held ∙ same))),
    )

    renew_lua_self :
        (key token : String) (ttl now t : ℕ) (s : rdb.Store)
        → (renew_lua rdb key token ttl now s).0 ≡ 1
        → now ≤ t
        → t < now + ttl
        → rdb.get key t (renew_lua rdb key token ttl now s).1 ≡ some token
    unfolding renew_lua
    renew_lua_self key token ttl now t s won a b = elim (Option-cases (rdb.get key now s)) [
      | inl free ↦ absurd (ground (arith, free))
      | inr (v, held) ↦ elim (Bool-cases (str_eq v token)) [
        | inl own ↦
            let same : v ≡ token = (eq_iff v token).0 own in
            rw (held, renew_lua)
              (rw own (laws.get-expire_live key token ttl now t s (held ∙ ap some same) a b))
        | inr other ↦ absurd (ground (arith, held, other))
      ]
    ]

    set_nx_self :
        (key token : String) (ttl now t : ℕ) (s : rdb.Store)
        → (rdb.set_nx key token ttl now s).0 ≡ true
        → now ≤ t
        → t < now + ttl
        → rdb.get key t (rdb.set_nx key token ttl now s).1 ≡ some token
    set_nx_self key token ttl now t s won a b = elim (Option-cases (rdb.get key now s)) [
      | inl free ↦
          rw (laws.set_nx_free key token ttl now s free)
            (laws.get-set_live key token ttl now t s a b)
      | inr (v, held) ↦
          let refused = laws.set_nx_taken key token v ttl now s held in
          absurd (ground (arith, refused))
    ]

    after_renew_self :
        (exchange : Exchange) (e : Elector) (s : rdb.Store) (r : ℕ × rdb.Store)
        → (after_renew rdb exchange e s r).0.is_leader ≡ true
        → (r.0 ≡ 1) × ((after_renew rdb exchange e s r).1 ≡ r.1)
    after_renew_self answered e s (reply, s') leads = (ground arith, refl)
    after_renew_self unreached e s (reply, s') leads = absurd (cc)
    after_renew_self reply_lost e s (reply, s') leads = absurd (cc)

    after_attempt_self :
        (exchange : Exchange) (e : Elector) (s : rdb.Store) (r : Bool × rdb.Store)
        → e.is_leader ≡ false
        → (after_attempt rdb exchange e s r).0.is_leader ≡ true
        → (r.0 ≡ true) × ((after_attempt rdb exchange e s r).1 ≡ r.1)
    after_attempt_self answered e s (won, s') was leads = (ground arith, refl)
    after_attempt_self unreached e s (won, s') was leads = absurd (ground (arith, was))
    after_attempt_self reply_lost e s (won, s') was leads = absurd (ground (arith, was))

    -- A candidate that leads after its heartbeat holds the key for the time of its new lease.
    pub heartbeat_self :
        (exchange : Exchange) (now : ℕ) (e : Elector) (s : rdb.Store) (t : ℕ)
        → (on_heartbeat rdb exchange now e s).0.is_leader ≡ true
        → now ≤ t
        → t < lease_from e now
        → rdb.get e.lock_key t (on_heartbeat rdb exchange now e s).1 ≡ some e.instance_id
    unfolding on_heartbeat
    heartbeat_self exchange now e s t leads a b = elim (Bool-cases e.is_leader) [
      | inl was ↦
          let r = renew_lua rdb e.lock_key e.instance_id (renewed_ttl e) now s in
          let (won, left) = after_renew_self exchange e s r (ground (arith, was, leads)) in
          rw was (
            ap (rdb.get e.lock_key t) left
            ∙ renew_lua_self e.lock_key e.instance_id (renewed_ttl e) now t s won a
                (ground (arith, was)))
      | inr was ↦
          let r = rdb.set_nx e.lock_key e.instance_id e.ttl now s in
          let (won, left) = after_attempt_self exchange e s r was (ground (arith, was, leads)) in
          rw was (
            ap (rdb.get e.lock_key t) left
            ∙ set_nx_self e.lock_key e.instance_id e.ttl now t s won a (ground (arith, was)))
    ]

    pub heartbeat_static :
        (exchange : Exchange) (now : ℕ) (e : Elector) (s : rdb.Store)
        → ((on_heartbeat rdb exchange now e s).0.lock_key ≡ e.lock_key)
          × ((on_heartbeat rdb exchange now e s).0.instance_id ≡ e.instance_id)
          × (e.job_running ≡ e.is_leader
              → (on_heartbeat rdb exchange now e s).0.job_running
                ≡ (on_heartbeat rdb exchange now e s).0.is_leader)
    unfolding on_heartbeat
    heartbeat_static exchange now e s = (ground arith, ground arith, λ h. ground arith)

    pub done_static :
        (exchange : Exchange) (now : ℕ) (e : Elector) (s : rdb.Store)
        → ((on_done rdb exchange now e s).0.lock_key ≡ e.lock_key)
          × ((on_done rdb exchange now e s).0.instance_id ≡ e.instance_id)
          × ((on_done rdb exchange now e s).0.is_leader ≡ false)
          × ((on_done rdb exchange now e s).0.job_running ≡ false)
    unfolding on_done step_down
    done_static exchange now e s = ground arith
