-- ===== src/Base/Order.antt =====
-- Go's order on strings: it is strict and total.
use Prim.Native.Char.{Char, code}
use Prim.Native.Nat.{Ordering}
use Prim.Native.String
use Prim.Native.String.{String, [], ◌∷◌}
use Prim.Native.String.compare as Compare
use mathlib.Core.Path.{◌≡◌, refl, ap, ◌∙◌}
use mathlib.Core.Logic.{◌≢◌, inl, inr}
use mathlib.Core.Bool.{Bool, true, false, ◌&&◌, ◌||◌}
use native.Mathlib.Omega.{arith}
use text.Mathlib.TextEquality.{Char-path}
use q_pay_flow.Base.Tests.{ltb, ◌==◌, Bool-cases}

-- `a > b`.
abbrev pub str_gt : String → String → Bool
str_gt a b = elim (String.compare a b) [ Ordering.gt ↦ true | _ ↦ false ]

is_gt : Ordering → Bool
is_gt o = elim o [ Ordering.gt ↦ true | _ ↦ false ]

gt-nil : (t : String) → str_gt [] t ≡ false
unfolding is_gt
gt-nil [] = refl
gt-nil (d ∷ t) = ap is_gt (Compare.nil-cons d t)

gt-cons-nil : (c : Char) (s : String) → str_gt (c ∷ s) [] ≡ true
unfolding is_gt
gt-cons-nil c s = ap is_gt (Compare.cons-nil c s)

gt-cons :
    (c d : Char) (s t : String)
    → str_gt (c ∷ s) (d ∷ t) ≡ (ltb (code d) (code c) || (code c == code d && str_gt s t))
unfolding is_gt
gt-cons c d s t = ap is_gt (Compare.cons-cons c d s t) ∙ ground arith

pub gt_trans : (a b c : String) → str_gt a b ≡ true → str_gt b c ≡ true → str_gt a c ≡ true
gt_trans [] b c h k = absurd (ground (arith, gt-nil b, h))
gt_trans (x ∷ a) [] c h k = absurd (ground (arith, gt-nil c, k))
gt_trans (x ∷ a) (y ∷ b) [] h k = gt-cons-nil x a
gt_trans (x ∷ a) (y ∷ b) (z ∷ c) h k =
    ground (arith, gt-cons x y a b, gt-cons y z b c, gt-cons x z a c, gt_trans a b c, h, k)

pub gt_irrefl : (a : String) → str_gt a a ≡ false
gt_irrefl [] = gt-nil []
gt_irrefl (x ∷ a) = ground (arith, gt-cons x x a a, gt_irrefl a)

pub gt_total : (a b : String) → a ≢ b → str_gt a b ≡ false → str_gt b a ≡ true
gt_total [] [] ne h = absurd (ne refl)
gt_total [] (y ∷ b) ne h = gt-cons-nil y b
gt_total (x ∷ a) [] ne h = absurd (ground (arith, gt-cons-nil x a, h))
gt_total (x ∷ a) (y ∷ b) ne h = elim (Bool-cases (code x == code y)) [
  | inl e ↦
      let same : code x ≡ code y = ground arith in
      let below : str_gt a b ≡ false = ground (arith, gt-cons x y a b, h, e) in
      let more = gt_total a b (λ p. ne (λ i. Char-path x y same i ∷ p i)) below in
      ground (arith, gt-cons y x b a, more, same)
  | inr e ↦ ground (arith, gt-cons x y a b, gt-cons y x b a, h, e)
]
