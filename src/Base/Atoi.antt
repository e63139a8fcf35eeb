-- ===== src/Base/Atoi.antt =====
-- The number that `strconv.Atoi` gives, whatever error it gives with it: 0 for a text that is no
-- number, and the nearest 64-bit integer for a number that is too large.
use Prim.Native.Char.{Char, code}
use Prim.Native.Nat.{ℕ, zero, suc, ◌+◌, ◌-◌, ◌*◌, ◌/◌, ◌%◌, ◌^◌, ◌≤◌, ◌<◌}
use Prim.Native.String.{String, [], ◌∷◌}
use mathlib.Core.Path.{◌≡◌, refl, ap, subst, ◌∙◌}
use mathlib.Core.Logic.{inl, inr}
use mathlib.Core.Bool.{Bool, true, false, ◌&&◌}
use mathlib.Core.Option.{Option, none, some}
use native.Mathlib.Omega.{arith}
use q_pay_flow.Base.Tests.{ltb, leb, ◌==◌, if◌then◌else◌, Bool-cases, str_eq}
use text.Mathlib.TextEquality.{eq_iff}
use q_pay_flow.Base.Int.{ℤ, pos, negsuc}
use q_pay_flow.Base.Decimal.{digit, decimal, decimal_from}

abbrev pub is_digit : Char → Bool
is_digit c = leb b'0' (code c) && leb (code c) b'9'

-- The digits of `ParseUint`: no number, or at most `2 ^ 64 - 1`.
abbrev pub parse_digits : ℕ → String → Option ℕ
parse_digits n [] = some n
parse_digits n (c ∷ s) =
    let next = n * 10 + (code c - b'0') in
    let rest = parse_digits next s in
    if is_digit c then (if ltb next (2 ^ 64) then rest else some (2 ^ 64 - 1)) else none

abbrev pub parse_uint : String → Option ℕ
parse_uint [] = none
parse_uint (c ∷ s) = parse_digits 0 (c ∷ s)

abbrev pub at_most : Option ℕ → ℤ
at_most none = pos 0
at_most (some n) = if ltb n (2 ^ 63) then pos n else pos (2 ^ 63 - 1)

abbrev pub at_least : Option ℕ → ℤ
at_least none = pos 0
at_least (some zero) = pos 0
at_least (some (suc n)) = if ltb n (2 ^ 63) then negsuc n else negsuc (2 ^ 63 - 1)

unfoldable pub atoi : String → ℤ
atoi [] = pos 0
atoi (c ∷ s) =
    if code c == b'-'
    then at_least (parse_uint s)
    else if code c == b'+'
    then at_most (parse_uint s)
    else at_most (parse_uint (c ∷ s))

-- A character is the digit of a number.
abbrev IsDigitOf : ℕ → Char → Type 0
IsDigitOf n c = (is_digit c ≡ true) × (code c ≡ b'0' + n)

digit-IsDigitOf : (n : ℕ) → n < 10 → IsDigitOf n (digit n)
digit-IsDigitOf zero h = (refl, refl)
digit-IsDigitOf (suc zero) h = (refl, refl)
digit-IsDigitOf (suc (suc zero)) h = (refl, refl)
digit-IsDigitOf (suc (suc (suc zero))) h = (refl, refl)
digit-IsDigitOf (suc (suc (suc (suc zero)))) h = (refl, refl)
digit-IsDigitOf (suc (suc (suc (suc (suc zero))))) h = (refl, refl)
digit-IsDigitOf (suc (suc (suc (suc (suc (suc zero)))))) h = (refl, refl)
digit-IsDigitOf (suc (suc (suc (suc (suc (suc (suc zero))))))) h = (refl, refl)
digit-IsDigitOf (suc (suc (suc (suc (suc (suc (suc (suc zero)))))))) h = (refl, refl)
digit-IsDigitOf (suc (suc (suc (suc (suc (suc (suc (suc (suc zero))))))))) h = (refl, refl)
digit-IsDigitOf (suc (suc (suc (suc (suc (suc (suc (suc (suc (suc n)))))))))) h =
    absurd (omega (arith, h))

-- A digit in front of a text.
parse_digits-digit :
    (m n : ℕ) (s : String)
    → n < 10
    → m * 10 + n < 2 ^ 64
    → parse_digits m (digit n ∷ s) ≡ parse_digits (m * 10 + n) s
parse_digits-digit m n s h small =
    let (is, value) = digit-IsDigitOf n h in
    let same : m * 10 + (code (digit n) - b'0') ≡ m * 10 + n = omega (arith, value) in
    rw (is, same) (ground (arith, small))

parse_digits-decimal_from :
    (fuel n : ℕ) (s : String)
    → n < fuel
    → n < 2 ^ 64
    → parse_digits 0 (decimal_from fuel n s) ≡ parse_digits n s
parse_digits-decimal_from zero n s h small = absurd (omega (arith, h))
parse_digits-decimal_from (suc fuel) n s h small = elim (Bool-cases (ltb n 10)) [
  | inl e ↦
      let less : n < 10 = ground arith in
      let whole : n % 10 ≡ n = omega (arith, less) in
      let from_zero : 0 * 10 + n ≡ n = omega arith in
      rw (e, whole)
        (parse_digits-digit 0 n s less (omega (arith, small))
          ∙ ap (λ k. parse_digits k s) from_zero)
  | inr e ↦
      let more : 10 ≤ n = ground arith in
      let back : n / 10 * 10 + n % 10 ≡ n = omega arith in
      rw e (
        parse_digits-decimal_from fuel (n / 10) (digit (n % 10) ∷ s) (omega (arith, h, more))
          (omega (arith, small)))
      ∙ parse_digits-digit (n / 10) (n % 10) s (omega arith) (omega (arith, small, back))
      ∙ ap (λ k. parse_digits k s) back
]

-- A decimal text begins with a digit.
abbrev StartsWithDigit : String → Type 0
StartsWithDigit [] = ⊥
StartsWithDigit (c ∷ s) = is_digit c ≡ true

decimal_from-StartsWithDigit :
    (fuel n : ℕ) (s : String) → StartsWithDigit s → StartsWithDigit (decimal_from fuel n s)
decimal_from-StartsWithDigit zero n s h = h
decimal_from-StartsWithDigit (suc fuel) n s h =
    let (is, value) = digit-IsDigitOf (n % 10) (omega arith) in
    elim (Bool-cases (ltb n 10)) [
      | inl e ↦ rw e is
      | inr e ↦ rw e (decimal_from-StartsWithDigit fuel (n / 10) (digit (n % 10) ∷ s) is)
    ]

decimal-StartsWithDigit : (n : ℕ) → StartsWithDigit (decimal n)
unfolding decimal
decimal-StartsWithDigit n =
    let (is, value) = digit-IsDigitOf (n % 10) (omega arith) in
    elim (Bool-cases (ltb n 10)) [
      | inl e ↦ rw e is
      | inr e ↦ rw e (decimal_from-StartsWithDigit n (n / 10) (digit (n % 10) ∷ "") is)
    ]

pub decimal-nonempty : (n : ℕ) → str_eq (decimal n) "" ≡ false
decimal-nonempty n = elim (Bool-cases (str_eq (decimal n) "")) [
  | inl e ↦ absurd (subst StartsWithDigit ((eq_iff (decimal n) "").0 e) (decimal-StartsWithDigit n))
  | inr e ↦ e
]

parse_digits-decimal : (n : ℕ) → n < 2 ^ 64 → parse_digits 0 (decimal n) ≡ some n
unfolding decimal
parse_digits-decimal n small = parse_digits-decimal_from (suc n) n "" (omega arith) small

atoi-digits : (s : String) → StartsWithDigit s → atoi s ≡ at_most (parse_digits 0 s)
unfolding atoi
atoi-digits [] h = absurd h
atoi-digits (c ∷ s) h = elim (Bool-cases (code c == b'-')) [
  | inl e ↦ absurd (ground (arith, h, e))
  | inr e ↦ elim (Bool-cases (code c == b'+')) [
    | inl f ↦ absurd (ground (arith, h, f))
    | inr f ↦ rw (e, f) refl
  ]
]

-- The decimal text of a number that fits 64 bits is read back.
pub atoi-decimal : (n : ℕ) → n < 2 ^ 63 → atoi (decimal n) ≡ pos n
atoi-decimal n small =
    atoi-digits (decimal n) (decimal-StartsWithDigit n)
    ∙ ap at_most (parse_digits-decimal n (omega (arith, small)))
    ∙ ground (arith, small)
