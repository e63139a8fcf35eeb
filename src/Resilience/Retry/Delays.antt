-- ===== src/Resilience/Retry/Delays.antt =====
-- How long a retry waits.
use q_pay_flow.Base.{
  ℕ, zero, suc, ◌+◌, ◌-◌, ◌*◌, ◌%◌, ◌^◌, ◌≤◌, ◌<◌, ◌≡◌, refl, arith, if◌then◌else◌,
}
use Prim.Native.Nat.{min}
use native.Mathlib.Nat.{mod-eq_of_lt, pow-suc, add-suc, mul-zero}
use q_pay_flow.Base.Int.{ℤ, pos, negsuc, ◌≤ℤ◌, ltb_ℤ}
use q_pay_flow.Resilience.Retry.{
  int64_mod, int64_half, to_int64, multiplier, backoff_delay, sleep_duration,
}

sleep_of_le :
    (random : ℕ → ℕ) (m : ℕ) (delay : ℤ)
    → ((n : ℕ) → 0 < n → random n < n)
    → delay ≤ℤ pos m
    → sleep_duration random delay ≤ m
unfolding sleep_duration
sleep_of_le random m (pos zero) below h = omega arith
sleep_of_le random m (pos (suc n)) below h = omega (arith, below (suc n) (omega arith))
sleep_of_le random m (negsuc n) below h = omega arith

cut_le : (m : ℕ) (x : ℤ) → (if ltb_ℤ (pos m) x then pos m else x) ≤ℤ pos m
cut_le m x = ground arith

cut_min : (m n : ℕ) → (if ltb_ℤ (pos m) (pos n) then pos m else pos n) ≡ pos (min n m)
cut_min m n = ground arith

to_int64_small : (n : ℕ) → n < int64_half → to_int64 n ≡ pos n
to_int64_small n h = ground arith

pow_wraps : (k : ℕ) → 2 ^ (64 + k) % int64_mod ≡ 0
pow_wraps zero = refl
pow_wraps (suc k) = rw (add-suc, pow-suc) (omega (arith, pow_wraps k))

multiplier_wraps : (k : ℕ) → multiplier (65 + k) ≡ 0
unfolding multiplier
multiplier_wraps k = let e : 65 + k - 1 ≡ 64 + k = omega arith in rw e (pow_wraps k)

-- No sleep is longer than the largest delay, at any attempt: also where the product wraps.
pub sleep_bounded :
    (random : ℕ → ℕ) (base_delay max_delay attempt : ℕ)
    → ((n : ℕ) → 0 < n → random n < n)
    → sleep_duration random (backoff_delay base_delay max_delay attempt) ≤ max_delay
sleep_bounded random base_delay max_delay attempt below =
    sleep_of_le random max_delay (backoff_delay base_delay max_delay attempt) below
      (unfold backoff_delay in cut_le max_delay (to_int64 (base_delay * multiplier attempt)))

-- Where the product fits an int64, the delay doubles with each attempt up to the largest delay.
pub backoff_delay_exact :
    (base_delay max_delay attempt : ℕ)
    → 2 ^ (attempt - 1) < int64_mod
    → base_delay * 2 ^ (attempt - 1) < int64_half
    → backoff_delay base_delay max_delay attempt
      ≡ pos (min (base_delay * 2 ^ (attempt - 1)) max_delay)
unfolding backoff_delay multiplier
backoff_delay_exact base_delay max_delay attempt f g =
    rw (mod-eq_of_lt f, to_int64_small (base_delay * 2 ^ (attempt - 1)) g)
      (cut_min max_delay (base_delay * 2 ^ (attempt - 1)))

-- From the 65th attempt on the multiplier has wrapped to 0, so that no delay is left.
pub backoff_delay_wraps :
    (base_delay max_delay k : ℕ) → backoff_delay base_delay max_delay (65 + k) ≡ pos 0
unfolding backoff_delay
backoff_delay_wraps base_delay max_delay k = rw (multiplier_wraps k, mul-zero) (ground arith)
