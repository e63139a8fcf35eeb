-- ===== src/Settlement/Floats.antt =====
-- The float64 values of cmd/settlement-service/internal/reconciliation/reconciliation.go:103-114. A
-- value is a whole number of 2^-66, the spacing of the floats just below 2^-13, where 0.0001 is.
use q_pay_flow.Base.{
  ℕ, zero, suc, ◌+◌, ◌-◌, ◌*◌, ◌/◌, ◌%◌, ◌^◌, ◌≤◌, ◌<◌, ◌≡◌, ltb, if◌then◌else◌, true, false, arith,
  inl, inr, Bool-cases, ◌⊎◌, refl, sym, ◌∙◌,
}
use native.Mathlib.Nat.{
  div-add-mod', suc-mul, mod-lt, mul-le-mul_right, one-le-pow, pow-succ', mul_assoc, mul_left_comm,
  le-div_iff_mul-le,
}
use q_pay_flow.Base.Int.{ℤ, pos_part, neg_part, ◌-ℤ◌, abs}

-- a / b to the nearest whole number, of two to the even one.
unfoldable pub round_half : (a b : ℕ) → ℕ
round_half a b =
    let q = a / b in
    let r = a % b in if ltb (2 * r) b then q else if ltb b (2 * r) then suc q else q + q % 2

-- a / b rounded to 53 bits: it is halved until it fits.
unfoldable pub round_float : (fuel a b : ℕ) → ℕ
unfolding round_half
round_float zero a b = round_half a b
round_float (suc fuel) a b = elim (ltb a (2 ^ 53 * b)) [
  | true ↦ round_half a b
  | false ↦ 2 * round_float fuel a (2 * b)
]

-- More halvings than the exponent of a float64 has values above 2^-13.
abbrev pub float_fuel : ℕ
float_fuel = 1100

-- n ten-thousandths as a float64.
unfoldable pub to_float : ℕ → ℕ
to_float n = round_float float_fuel (n * 2 ^ 66) 10000

-- |a - b| before it is rounded; the sign of a float64 is kept apart, and 0 is exact.
abbrev float_gap : ℤ → ℤ → ℕ
float_gap a b =
    let x = to_float (pos_part a) + to_float (neg_part b) in
    let y = to_float (neg_part a) + to_float (pos_part b) in x - y + (y - x)

-- `math.Abs(a - b)` of the float64 values of a and b.
unfoldable pub float_distance : ℤ → ℤ → ℕ
float_distance a b = round_float float_fuel (float_gap a b) 1

round_half_cases :
    (a b : ℕ)
    → 1 ≤ b
    → (round_half a b ≡ a / b × 2 * (a % b) ≤ b) ⊎ (round_half a b ≡ suc (a / b) × b ≤ 2 * (a % b))
unfolding round_half
round_half_cases a b h = ground arith

-- R is within half of w times b of a.
abbrev Near : (w b a n : ℕ) → Type 0
Near w b a n = (2 * (n * b) ≤ 2 * a + w * b) × (2 * a ≤ 2 * (n * b) + w * b)

round_half-Near : (a b : ℕ) → 1 ≤ b → Near 1 b a (round_half a b)
round_half-Near a b h =
    let whole : a / b * b + a % b ≡ a = div-add-mod' a b in
    let rest : a % b < b = mod-lt a h in
    elim (round_half_cases a b h) [
      | inl (e, r) ↦ rw e (omega arith, omega arith)
      | inr (e, r) ↦ rw (e, suc-mul (a / b) b) (omega arith, omega arith)
    ]

round_half_wider : (k a b : ℕ) → 1 ≤ b → Near (2 ^ k) b a (round_half a b)
round_half_wider k a b h =
    let near = round_half-Near a b h in
    let wider : 1 * b ≤ 2 ^ k * b = mul-le-mul_right b (one-le-pow k 2 (omega arith)) in
    (omega (arith, near.0, wider), omega (arith, near.1, wider))

mul_double : (n b : ℕ) → n * (2 * b) ≡ 2 * (n * b)
mul_double n b = mul_left_comm n 2 b

pow_double : (k b : ℕ) → 2 ^ suc k * b ≡ 2 * (2 ^ k * b)
pow_double k b = rw (pow-succ' 2 k) (mul_assoc 2 (2 ^ k) b)

halved :
    (fuel k a b : ℕ)
    → 1 ≤ b
    → a < 2 ^ 53 * (2 ^ k * b)
    → ltb a (2 ^ 53 * b) ≡ false
    → ((k a b : ℕ) → 1 ≤ b → a < 2 ^ 53 * (2 ^ k * b) → Near (2 ^ k) b a (round_float fuel a b))
    → Near (2 ^ k) b a (2 * round_float fuel a (2 * b))
halved fuel zero a b h less e near = absurd (ground arith)
halved fuel (suc k) a b h less e near =
    let twice = pow_double k b in
    let swap = mul_double (2 ^ k) b in
    let near' = near k a (2 * b) (omega arith) (rw swap (omega (arith, less, twice))) in
    let product : 2 * round_float fuel a (2 * b) * b ≡ round_float fuel a (2 * b) * (2 * b) =
      mul_assoc 2 (round_float fuel a (2 * b)) b
      ∙ sym (mul_double (round_float fuel a (2 * b)) b) in
    (omega (arith, near'.0, twice, swap, product), omega (arith, near'.1, twice, swap, product))

round_float-Near :
    (fuel k a b : ℕ) → 1 ≤ b → a < 2 ^ 53 * (2 ^ k * b) → Near (2 ^ k) b a (round_float fuel a b)
unfolding round_float
round_float-Near zero k a b h less = round_half_wider k a b h
round_float-Near (suc fuel) k a b h less = elim (Bool-cases (ltb a (2 ^ 53 * b))) [
  | inl e ↦ rw (round_float, e) (round_half_wider k a b h)
  | inr e ↦ rw (round_float, e) (halved fuel k a b h less e (round_float-Near fuel))
]

round_half_large : (a b : ℕ) → 1 ≤ b → 2 ^ 52 * b ≤ a → 2 ^ 52 ≤ round_half a b
round_half_large a b h large =
    let low : 2 ^ 52 ≤ a / b = (le-div_iff_mul-le h).1 large in
    elim (round_half_cases a b h) [ inl (e, r) ↦ rw e low | inr (e, r) ↦ rw e (omega (arith, low)) ]

-- At least 2 ^ 52 before rounding, and so after it.
round_float_large : (fuel a b : ℕ) → 1 ≤ b → 2 ^ 52 * b ≤ a → 2 ^ 52 ≤ round_float fuel a b
unfolding round_float
round_float_large zero a b h large = round_half_large a b h large
round_float_large (suc fuel) a b h large = elim (Bool-cases (ltb a (2 ^ 53 * b))) [
  | inl e ↦ rw (round_float, e) (round_half_large a b h large)
  | inr e ↦
      let more = round_float_large fuel a (2 * b) (omega arith) (ground arith) in
      rw (round_float, e) (omega (arith, more))
]

-- Below 2 ^ 38, a value is at most 2 ^ 50 from its float64, that is 2 ^ -16.
to_float-Near : (n : ℕ) → n < 2 ^ 38 * 10000 → Near (2 ^ 51) 10000 (n * 2 ^ 66) (to_float n)
unfolding to_float
to_float-Near n less = round_float-Near float_fuel 51 (n * 2 ^ 66) 10000 (omega arith) (omega arith)

-- A distance of 2 ^ 53 or more stays so when it is rounded.
round_float_far : (fuel d : ℕ) → 2 ^ 53 ≤ d → 2 ^ 53 ≤ round_float (suc fuel) d 1
unfolding round_float
round_float_far fuel d far =
    let e : ltb d (2 ^ 53 * 1) ≡ false = ground arith in
    let half = round_float_large fuel d (2 * 1) (omega arith) (omega arith) in
    rw (round_float, e) (omega (arith, half))

pub to_float_one : to_float 1 < 2 ^ 53
unfolding to_float round_float round_half
to_float_one = omega arith

-- A balance or a sum below 2 ^ 38 in size.
abbrev pub IsBelow : ℤ → Type 0
IsBelow a = abs a < 2 ^ 38 * 10000

pub float_distance_far :
    (a b : ℤ) → IsBelow a → IsBelow b → 2 ≤ abs (a -ℤ b) → 2 ^ 53 ≤ float_distance a b
unfolding float_distance ◌-ℤ◌
float_distance_far a b ha hb far =
    let n1 = to_float-Near (pos_part a) (omega arith) in
    let n2 = to_float-Near (neg_part b) (omega arith) in
    let n3 = to_float-Near (neg_part a) (omega arith) in
    let n4 = to_float-Near (pos_part b) (omega arith) in
    let apart : pos_part a + neg_part b + 2 ≤ neg_part a + pos_part b
        ⊎ neg_part a + pos_part b + 2 ≤ pos_part a + neg_part b =
      ground arith in
    round_float_far 1099 (float_gap a b) (omega (arith, n1, n2, n3, n4, apart))

round_float_zero : round_float float_fuel 0 1 ≡ 0
unfolding round_float round_half
round_float_zero = refl

pub float_distance_self : (a : ℤ) → float_distance a a ≡ 0
unfolding float_distance
float_distance_self a = let none : float_gap a a ≡ 0 = omega arith in rw none round_float_zero
