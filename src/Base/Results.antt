-- ===== src/Base/Results.antt =====
-- Go's `(value, error)` results, and the chains of `if err != nil { return err }`.
use mathlib.Core.Path.{◌≡◌, refl}
use mathlib.Core.Bool.{Bool, true, false}
use mathlib.Core.Option.{Option, none, some}

-- The second value of Go's pair comes first here: an error, or the value.
pub data Result {ℓ} (E : Type 0) (T : Type ℓ) : Type ℓ where
  err : E → Result E T
  ok : T → Result E T

-- What follows a call whose error is checked.
infixl 5 ◌>>=◌
abbrev pub ◌>>=◌ {κ ν} :
    {E : Type 0} {T : Type κ} {U : Type ν}
    → (called : Result E T) → (after : T → Result E U) → Result E U
err failure >>= after = err failure
ok value >>= after = after value

-- What follows a guard, which has no value.
infixl 5 ◌>>◌
abbrev pub ◌>>◌ {ν} :
    {E : Type 0} {U : Type ν} → (checked : Result E (Unit {0})) → (after : Result E U) → Result E U
checked >> after = checked >>= λ done. after

-- `if test { return e }`.
abbrev pub fail_if : {E : Type 0} → Bool → E → Result E (Unit {0})
fail_if true e = err e
fail_if false e = ok tt

abbrev pub or_fail {ℓ} : {E : Type 0} {A : Type ℓ} → Option A → E → Result E A
or_fail none e = err e
or_fail (some a) e = ok a

-- `fmt.Errorf("...: %w", err)`.
abbrev pub wrap_err {ℓ} : {E F : Type 0} {A : Type ℓ} → (E → F) → Result E A → Result F A
wrap_err f (ok a) = ok a
wrap_err f (err e) = err (f e)

-- A chain that gives a value had one from its first call.
pub >>=-eq-ok {κ ν} :
    {E : Type 0} {T : Type κ} {U : Type ν}
    → (called : Result E T) (after : T → Result E U) {last : U} → (called >>= after) ≡ ok last
    → (value : T) × (called ≡ ok value) × (after value ≡ ok last)
>>=-eq-ok (err failure) after e = cc
>>=-eq-ok (ok value) after e = (value, refl, e)
