-- ===== src/Resilience/Retry.antt =====
-- pkg/resilience/circuit_breaker.go: `RetryWithBackoffJitter`. Delays are int64 nanoseconds, so a
-- product wraps; the base and the largest delay are not negative. The context, the random source
-- and the function come as arguments.
pub mod Delays
pub mod Attempts
use q_pay_flow.Base.{
  ℕ, zero, suc, ◌+◌, ◌-◌, ◌*◌, ◌%◌, ◌^◌, Bool, true, false, Option, none, some, List, [], ◌∷◌,
  Result, ok, err, ltb, ◌==◌, if◌then◌else◌,
}
use q_pay_flow.Base.Int.{ℤ, pos, negsuc, ltb_ℤ}

abbrev pub int64_mod : ℕ
int64_mod = 2 ^ 64

abbrev pub int64_half : ℕ
int64_half = 2 ^ 63

-- The int64 with these low bits.
abbrev pub to_int64 : ℕ → ℤ
to_int64 n =
    let bits = n % int64_mod in
    if ltb bits int64_half then pos bits else negsuc (int64_mod - bits - 1)

-- `multiplier := 1 << (attempt - 1)`, by its low bits.
unfoldable pub multiplier : ℕ → ℕ
multiplier attempt = 2 ^ (attempt - 1) % int64_mod

-- `baseDelay * time.Duration(multiplier)`, cut to `maxDelay`.
unfoldable pub backoff_delay : (base_delay max_delay attempt : ℕ) → ℤ
backoff_delay base_delay max_delay attempt =
    let delay = to_int64 (base_delay * multiplier attempt) in
    if ltb_ℤ (pos max_delay) delay then pos max_delay else delay

-- Full jitter: a random number below the delay, if the delay is positive. `random n` is the number
-- that `rand.Int` gives below `n`.
unfoldable pub sleep_duration : (random : ℕ → ℕ) → ℤ → ℕ
sleep_duration random (pos zero) = 0
sleep_duration random (pos (suc n)) = random (suc n)
sleep_duration random (negsuc n) = 0

pub data RetryError (E : Type 0) : Type 0 where
  ctx_done : RetryError E
  exceeded : ℕ → Option E → RetryError E

-- What the surroundings of one run decide: when the context is done, at an attempt's start or in
-- the sleep after it, and the random numbers.
pub record Surroundings : Type 0 where
  pub done_before : ℕ → Bool
  pub done_asleep : ℕ → Bool
  pub random : ℕ → ℕ → ℕ

-- What a run returns: the result, the sleeps that were taken, and the function's state.
abbrev pub Run : Type 0 → Type 0 → Type 0
Run S E = Result (RetryError E) (Unit {0}) × List ℕ × S

abbrev pub after_nap : {S E : Type 0} → ℕ → Run S E → Run S E
after_nap nap (r, naps, s) = (r, nap ∷ naps, s)

module _ {S E : Type 0} (w : Surroundings) (base_delay max_delay : ℕ)
    (fn : ℕ → S → Result E (Unit {0}) × S) where
  -- The rest of a round, once the function has returned: `rest` is the next round.
  unfoldable pub finish_round :
      (max_attempts attempt : ℕ) → (Option E → S → Run S E) → Result E (Unit {0}) × S → Run S E
  finish_round max_attempts attempt rest (ok u, s) = (ok u, [], s)
  finish_round max_attempts attempt rest (err e, s) =
      let nap = sleep_duration (w.random attempt) (backoff_delay base_delay max_delay attempt) in
      if attempt == max_attempts
      then (err (exceeded max_attempts (some e)), [], s)
      else if w.done_asleep attempt
      then (err ctx_done, nap ∷ [], s)
      else after_nap nap (rest (some e) s)

  -- The loop, with the rounds left, the attempt of the next one, and the last error.
  unfoldable pub retry_from : (max_attempts left attempt : ℕ) → Option E → S → Run S E
  unfolding finish_round
  retry_from max_attempts zero attempt last_err s = (err (exceeded max_attempts last_err), [], s)
  retry_from max_attempts (suc left) attempt last_err s = elim (w.done_before attempt) [
    | true ↦ (err ctx_done, [], s)
    | false ↦
        finish_round max_attempts attempt
          (λ last s'. retry_from max_attempts left (attempt + 1) last s') (fn attempt s)
  ]

  unfoldable pub retry_with_backoff_jitter : (max_attempts : ℕ) → S → Run S E
  unfolding retry_from
  retry_with_backoff_jitter max_attempts = retry_from max_attempts max_attempts 1 none
