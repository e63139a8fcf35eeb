-- ===== src/Resilience/Retry/Attempts.antt =====
-- Which attempts a retry makes, and what it returns.
use q_pay_flow.Base.{
  ℕ, zero, suc, ◌+◌, ◌≤◌, ◌<◌, ◌≡◌, arith, Bool-cases, inl, inr, false, Result, ok, err, length,
  Option, none, some, ◌==◌, All,
}
use q_pay_flow.Resilience.Retry.{
  Run, finish_round, Surroundings, retry_from, retry_with_backoff_jitter, backoff_delay,
  sleep_duration,
}
use q_pay_flow.Resilience.Retry.Delays.{sleep_bounded}
use native.Mathlib.Nat.{add-zero}

add_shift : (a n : ℕ) → a + 1 + n ≡ a + suc n
add_shift a n = omega arith

module _ {S E : Type 0} (w : Surroundings) (base_delay max_delay : ℕ)
    (fn : ℕ → S → Result E (Unit {0}) × S) where
  -- The function's state after its first n calls from an attempt on.
  abbrev pub states : ℕ → ℕ → S → S
  states zero attempt s = s
  states (suc n) attempt s = states n (attempt + 1) (fn attempt s).1

  -- The context is not done at the attempts from `attempt` on, n of them.
  abbrev pub Undisturbed : ℕ → ℕ → Type 0
  Undisturbed zero attempt = Unit
  Undisturbed (suc n) attempt =
      (w.done_before attempt ≡ false)
      × (w.done_asleep attempt ≡ false)
      × Undisturbed n (attempt + 1)

  -- The calls from `attempt` on, n of them, all fail.
  abbrev pub Fail : ℕ → ℕ → S → Type 0
  Fail zero attempt s = Unit
  Fail (suc n) attempt s =
      ((e : E) × ((fn attempt s).0 ≡ err e)) × Fail n (attempt + 1) (fn attempt s).1

  -- After n failures the next call succeeds, and there are attempts left for it: its success is the
  -- result, after n sleeps.
  retry_from_success :
      (max_attempts n left attempt : ℕ) (last : Option E) (s : S) {u : Unit {0}}
      → attempt + left ≡ max_attempts + 1
      → n < left
      → Undisturbed (suc n) attempt
      → Fail n attempt s
      → (fn (attempt + n) (states n attempt s)).0 ≡ ok u
      → ((retry_from w base_delay max_delay fn max_attempts left attempt last s).0 ≡ ok tt)
        × (length (retry_from w base_delay max_delay fn max_attempts left attempt last s).1 ≡ n)
        × ((retry_from w base_delay max_delay fn max_attempts left attempt last s).2
            ≡ states (suc n) attempt s)
  unfolding retry_from
  retry_from_success m n zero attempt last s e lt und fails good = absurd (omega arith)
  retry_from_success m zero (suc left) attempt last s e lt und fails good =
      let here : (fn attempt s).0 ≡ ok tt = ground (arith, add-zero attempt) in ground (arith, here)
  retry_from_success m (suc n) (suc left) attempt last s e lt und fails good = ground (
    arith,
    retry_from_success m n left (attempt + 1) (some fails.0.0) (fn attempt s).1 (omega arith)
        (omega arith) und.2 fails.1 (rw (add_shift attempt n) good),
  )

  finish_round_sleeps :
      (max_attempts attempt : ℕ) (rest : Option E → S → Run S E) (res : Result E (Unit {0})) (s : S)
      → ((k n : ℕ) → 0 < n → w.random k n < n)
      → ((last : Option E) (s' : S) → All (λ nap. nap ≤ max_delay) (rest last s').1)
      → All
          (λ nap. nap ≤ max_delay)
          (finish_round w base_delay max_delay fn max_attempts attempt rest (res, s)).1
  unfolding finish_round
  finish_round_sleeps m attempt rest (ok u) s below later = tt
  finish_round_sleeps m attempt rest (err e) s below later = elim (Bool-cases (attempt == m)) [
    | inl e1 ↦ rw e1 tt
    | inr e1 ↦ elim (Bool-cases (w.done_asleep attempt)) [
      | inl e2 ↦ rw (e1, e2) (nap_bounded, tt)
      | inr e2 ↦ rw (e1, e2) (nap_bounded, later (some e) s)
    ]
  ]
    where
      nap_bounded :
          sleep_duration (w.random attempt) (backoff_delay base_delay max_delay attempt) ≤ max_delay
      nap_bounded = sleep_bounded (w.random attempt) base_delay max_delay attempt (below attempt)

  -- The sleeps of any run are bounded by the largest delay, and there are fewer of them than
  -- attempts are left.
  sleeps_bounded :
      (max_attempts left attempt : ℕ) (last : Option E) (s : S)
      → ((k n : ℕ) → 0 < n → w.random k n < n)
      → All
          (λ nap. nap ≤ max_delay)
          (retry_from w base_delay max_delay fn max_attempts left attempt last s).1
  unfolding retry_from
  sleeps_bounded m zero attempt last s below = tt
  sleeps_bounded m (suc left) attempt last s below = elim (Bool-cases (w.done_before attempt)) [
    | inl e ↦ rw (e, retry_from) tt
    | inr e ↦
        rw (e, retry_from)
          (finish_round_sleeps m attempt (retry_from w base_delay max_delay fn m left (attempt + 1))
            (fn attempt s).0 (fn attempt s).1 below
            (λ last' s'. sleeps_bounded m left (attempt + 1) last' s' below))
  ]

  -- If the first n calls fail and the next one, still within the allowed attempts, succeeds while
  -- the context is not done, the retry succeeds after n sleeps, and the function was called
  -- n + 1 times.
  pub retry_success :
      (max_attempts n : ℕ) (s : S)
      → n < max_attempts
      → Undisturbed (suc n) 1
      → Fail n 1 s
      → (fn (1 + n) (states n 1 s)).0 ≡ ok tt
      → let (res, naps, s') = retry_with_backoff_jitter w base_delay max_delay fn max_attempts s in
        (res ≡ ok tt) × (length naps ≡ n) × (s' ≡ states (suc n) 1 s)
  unfolding retry_with_backoff_jitter
  retry_success max_attempts n s lt und fails good =
      retry_from_success max_attempts n max_attempts 1 none s (omega arith) lt und fails good

  -- No sleep of any run is longer than the largest delay, where the random source stays below its
  -- bound.
  pub retry_sleeps_bounded :
      (max_attempts : ℕ) (s : S)
      → ((k n : ℕ) → 0 < n → w.random k n < n)
      → All
          (λ nap. nap ≤ max_delay)
          (retry_with_backoff_jitter w base_delay max_delay fn max_attempts s).1
  unfolding retry_with_backoff_jitter
  retry_sleeps_bounded max_attempts s below =
      sleeps_bounded max_attempts max_attempts 1 none s below
