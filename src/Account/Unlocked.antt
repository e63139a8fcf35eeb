-- ===== src/Account/Unlocked.antt =====
-- What `TransferWithRedisLock` leaves of its locks.
use text.Mathlib.TextLemmas.{append_cancel_left}
use q_pay_flow.Base.{
  ℕ, ◌+◌, ◌≤◌, ◌<◌, ◌≡◌, ◌≢◌, refl, sym, ◌∙◌, String, true, false, none, some, ◌⊎◌, inl, inr,
  Bool-cases, Option-cases, ok, err,
}
use q_pay_flow.Base.Order.{str_gt}
use q_pay_flow.Redis.Interface.{Redis, Laws}
use q_pay_flow.Redis.Lock.{Lock, lock_not_acquired, acquire_lock, release, release_lua_held}
use q_pay_flow.Account.Service.{Env, Request, lock_order}
use q_pay_flow.Account.RedisLock.{
  LockEnv, LockSite, token_first, setnx_first, token_second, setnx_second, release_first,
  release_second, lock_key, lock_ttl, release_at, transfer_with_redis_lock,
}
use q_pay_flow.Schema.{Tables}

lock_order-ne :
    (from_acc_id to_acc_id : String)
    → from_acc_id ≢ to_acc_id
    → lock_key (lock_order from_acc_id to_acc_id).0 ≢ lock_key (lock_order from_acc_id to_acc_id).1
unfolding lock_order
lock_order-ne from_acc_id to_acc_id ne = elim (Bool-cases (str_gt from_acc_id to_acc_id)) [
  | inl e ↦ rw e (λ same. ne (sym (append_cancel_left "lock:acc:" _ _ same)))
  | inr e ↦ rw e (λ same. ne (append_cancel_left "lock:acc:" _ _ same))
]

module _ (rdb : Redis) (laws : Laws rdb) where
  open rdb use {Store}

  acquire_lock-cases :
      (token key : String) (ttl now : ℕ) (s : Store)
      → (acquire_lock rdb false false token key ttl now s ≡ (err lock_not_acquired, s))
        ⊎ (acquire_lock rdb false false token key ttl now s
            ≡ (ok (record { key = key; token = token }), rdb.set key token ttl now s))
  unfolding acquire_lock
  acquire_lock-cases token key ttl now s = elim (Option-cases (rdb.get key now s)) [
    | inl free ↦ inr (rw (laws.set_nx_free key token ttl now s free) refl)
    | inr (w, busy) ↦ inl (rw (laws.set_nx_taken key token w ttl now s busy) refl)
  ]

  release-held :
      (l : Lock) (now : ℕ) (s : Store)
      → rdb.get l.key now s ≡ some l.token
      → (release rdb false l now s).1 ≡ rdb.del l.key s
  unfolding release
  release-held l now s held = rw (release_lua_held rdb l.key l.token now s held) refl

  -- A key is free, or as it was.
  abbrev pub FreeOrSame : ℕ → Store → Store → String → Type 0
  FreeOrSame now s s' k = (rdb.get k now s' ≡ none) ⊎ (rdb.get k now s' ≡ rdb.get k now s)

  -- The two keys are free, or as they were; the others are as they were.
  pub record Unlocked (now : ℕ) (first second : String) (s s' : Store) : Type 0 where
    pub first_left : FreeOrSame now s s' first
    pub second_left : FreeOrSame now s s' second
    pub others : (k : String) → k ≢ first → k ≢ second → rdb.get k now s' ≡ rdb.get k now s

  module _ (le : LockEnv) (up : (site : LockSite) → le.lock_fails site ≡ false)
      (in_order : (le.first_time ≤ le.release_time) × (le.second_time ≤ le.release_time))
      (in_time : (le.release_time < le.first_time + lock_ttl)
        × (le.release_time < le.second_time + lock_ttl))
      (env : Env) (t : Tables) (r : Request) (s : Store) where
    first : String
    first = lock_key (lock_order r.from_acc_id r.to_acc_id).0

    second : String
    second = lock_key (lock_order r.from_acc_id r.to_acc_id).1

    first_lock : Lock
    first_lock = record { key = first; token = le.first_token }

    first_held :
        rdb.get first le.release_time (rdb.set first le.first_token lock_ttl le.first_time s)
        ≡ some le.first_token
    first_held =
        laws.get-set_live first le.first_token lock_ttl le.first_time le.release_time s in_order.0
          in_time.0

    second_lock : Lock
    second_lock = record { key = second; token = le.second_token }

    -- The store with the first lock, and with both.
    one : Store
    one = rdb.set first le.first_token lock_ttl le.first_time s

    two : Store
    two = rdb.set second le.second_token lock_ttl le.second_time one

    one_released :
        first ≢ second
        → Unlocked le.release_time first second s
            (release rdb false first_lock le.release_time one).1
    unfolding first_lock one
    one_released apart = rw (release-held first_lock le.release_time one first_held) (
        let same : (k : String)
            → k ≢ first
            → rdb.get k le.release_time (rdb.del first one) ≡ rdb.get k le.release_time s =
          λ k ne.
            laws.get-del_ne k first le.release_time one ne
            ∙ laws.get-set_ne k first le.first_token lock_ttl le.first_time le.release_time s ne in
        record {
          first_left = inl (laws.get-del_self first le.release_time one);
          second_left = inr (same second (λ e. apart (sym e)));
          others = λ k ne ne'. same k ne;
        })

    both_released :
        first ≢ second
        → Unlocked le.release_time first second s
            (release rdb false first_lock le.release_time
              (release rdb false second_lock le.release_time two).1).1
    unfolding first_lock second_lock one two
    both_released ne =
        let held =
          laws.get-set_live second le.second_token lock_ttl le.second_time le.release_time one
            in_order.1 in_time.1 in
        let still : rdb.get first le.release_time (rdb.del second two) ≡ some le.first_token =
          laws.get-del_ne first second le.release_time two ne
          ∙ laws.get-set_ne first second le.second_token lock_ttl le.second_time le.release_time one
              ne
          ∙ first_held in
        rw
          (
            release-held second_lock le.release_time two held,
            release-held first_lock le.release_time (rdb.del second two) still,
          )
          (record {
            first_left = inl (laws.get-del_self first le.release_time (rdb.del second two));
            second_left = inl (
                laws.get-del_ne second first le.release_time (rdb.del second two) (λ e. ne (sym e))
                ∙ laws.get-del_self second le.release_time two);
            others = λ k nf ns.
                laws.get-del_ne k first le.release_time (rdb.del second two) nf
                ∙ laws.get-del_ne k second le.release_time two ns
                ∙ laws.get-set_ne k second le.second_token lock_ttl le.second_time le.release_time
                    one ns
                ∙ laws.get-set_ne k first le.first_token lock_ttl le.first_time le.release_time s
                    nf;
          })

    as_it_was : Unlocked le.release_time first second s s
    as_it_was = record { first_left = inr refl; second_left = inr refl; others = λ k nf ns. refl }

    -- Where no call of Redis fails, the releases come before the locks run out and the two accounts
    -- of the request are different, a transfer with Redis locks, whatever it answers, leaves no
    -- lock of its own: the two keys are free, or as they were where they were taken before, and
    -- every other key is as it was.
    pub transfer_with_redis_lock-Unlocked :
        r.from_acc_id ≢ r.to_acc_id
        → Unlocked le.release_time
            (lock_key (lock_order r.from_acc_id r.to_acc_id).0)
            (lock_key (lock_order r.from_acc_id r.to_acc_id).1)
            s
            (transfer_with_redis_lock rdb true le env t s r).2
    unfolding transfer_with_redis_lock first second first_lock second_lock one two
    transfer_with_redis_lock-Unlocked ne =
        let apart = lock_order-ne r.from_acc_id r.to_acc_id ne in
        rw (up token_first, up setnx_first)
          (elim (acquire_lock-cases le.first_token first lock_ttl le.first_time s) [
            | inl refused ↦ rw refused as_it_was
            | inr got ↦
                rw (got, up token_second, up setnx_second)
                  (elim (acquire_lock-cases le.second_token second lock_ttl le.second_time one) [
                    | inl refused ↦ rw (refused, up release_first) (one_released apart)
                    | inr both ↦
                        rw (both, up release_first)
                          (rw (release_at, up release_second) (both_released apart))
                  ])
          ])
