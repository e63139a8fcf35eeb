-- ===== src/Base/Table.antt =====
-- Database tables as lists of rows: lookup by a text key, updates, uniqueness and sums.
use Prim.Native.String.{String}
use mathlib.Core.Path.{◌≡◌, refl, subst}
use mathlib.Core.Logic.{◌≢◌, inl, inr}
use mathlib.Core.Option.{Option, none, some}
use mathlib.Core.Option
use mathlib.Core.List.{List, [], ◌∷◌, ◌++◌, map}
use native.Mathlib.Omega.{arith}
use text.Mathlib.TextEquality.{eq_iff}
use q_pay_flow.Base.Tests.{str_eq, Bool-cases, if◌then◌else◌}
use q_pay_flow.Base.Lists.{All}
use q_pay_flow.Base.Int.{ℤ, pos, ◌+ℤ◌, int_laws, add_left_of_eq}

module _ {ℓ} {A : Type ℓ} (key : A → String) where
  -- `SELECT ... WHERE key = $1`, for a key that at most one row has.
  abbrev pub find_by : String → List A → Option A
  find_by k [] = none
  find_by k (x ∷ xs) = if str_eq (key x) k then some x else find_by k xs

  -- A PRIMARY KEY or UNIQUE constraint.
  abbrev pub IsUnique : List A → Type ℓ
  IsUnique [] = Unit
  IsUnique (x ∷ xs) = (find_by (key x) xs ≡ none) × IsUnique xs

  pub find_by-key : (k : String) (xs : List A) {a : A} → find_by k xs ≡ some a → key a ≡ k
  find_by-key k [] h = cc
  find_by-key k (x ∷ xs) {a} h = ground (arith, eq_iff (key x) k, find_by-key k xs {a = a})

  -- A row that is found has what all rows have.
  pub find_by-All {κ} :
      (P : A → Type κ) (k : String) (xs : List A) {a : A} → All P xs → find_by k xs ≡ some a → P a
  find_by-All P k [] hs h = cc
  find_by-All P k (x ∷ xs) {a} hs h = elim (Bool-cases (str_eq (key x) k)) [
    | inl e ↦ let same : x ≡ a = ground arith in subst P same hs.0
    | inr e ↦ let later : find_by k xs ≡ some a = ground arith in find_by-All P k xs hs.1 later
  ]

  -- An update that keeps the keys.
  pub find_by-map :
      (f : A → A) (k : String) (xs : List A)
      → ((x : A) → key (f x) ≡ key x)
      → find_by k (map f xs) ≡ Option.map f (find_by k xs)
  find_by-map f k [] h = refl
  find_by-map f k (x ∷ xs) h = ground (arith, h x, find_by-map f k xs h)

  pub IsUnique-map :
      (f : A → A) (xs : List A) → ((x : A) → key (f x) ≡ key x) → IsUnique xs → IsUnique (map f xs)
  IsUnique-map f [] h u = tt
  IsUnique-map f (x ∷ xs) h u =
      (ground (arith, h x, find_by-map f (key x) xs h, u.0), IsUnique-map f xs h u.1)

  pub find_by-append :
      (k : String) (xs ys : List A)
      → find_by k (xs ++ ys) ≡ elim (find_by k xs) [ some a ↦ some a | none ↦ find_by k ys ]
  find_by-append k [] ys = refl
  find_by-append k (x ∷ xs) ys = ground (arith, find_by-append k xs ys)

  -- A new key at the end keeps the rows distinct.
  pub IsUnique-snoc :
      (xs : List A) (y : A) → IsUnique xs → find_by (key y) xs ≡ none → IsUnique (xs ++ y ∷ [])
  IsUnique-snoc [] y u h = (refl, tt)
  IsUnique-snoc (x ∷ xs) y u h = (
    rw (find_by-append (key x) xs (y ∷ []))
        (ground (arith, u.0, eq_iff (key x) (key y), eq_iff (key y) (key x))),
    IsUnique-snoc xs y u.1 (ground arith),
  )

module _ {ℓ} {A : Type ℓ} where
  -- `SUM(w)` over all rows.
  abbrev pub sum_by : (A → ℤ) → List A → ℤ
  sum_by w [] = pos 0
  sum_by w (x ∷ xs) = w x +ℤ sum_by w xs

  pub sum_by-append :
      (w : A → ℤ) (xs ys : List A) → sum_by w (xs ++ ys) ≡ sum_by w xs +ℤ sum_by w ys
  sum_by-append w [] ys = omega int_laws
  sum_by-append w (x ∷ xs) ys = rw (sum_by-append w xs ys) (omega int_laws)

module _ {ℓ} {A : Type ℓ} (key : A → String) (w : A → ℤ) (f : A → A) (k : String)
    (others : (x : A) → key x ≢ k → w (f x) ≡ w x) where
  sum_by-map-none : (xs : List A) → find_by key k xs ≡ none → sum_by w (map f xs) ≡ sum_by w xs
  sum_by-map-none [] h = refl
  sum_by-map-none (x ∷ xs) h =
      let ne : key x ≢ k = ground (arith, eq_iff (key x) k) in
      let rest : find_by key k xs ≡ none = ground arith in rw (others x ne, sum_by-map-none xs rest)

  -- An update of one row changes the sum by what it changes of that row.
  pub sum_by-map_one :
      (xs : List A) {a : A}
      → IsUnique key xs
      → find_by key k xs ≡ some a
      → sum_by w (map f xs) +ℤ w a ≡ sum_by w xs +ℤ w (f a)
  sum_by-map_one [] u h = cc
  sum_by-map_one (x ∷ xs) {a} u h = elim (Bool-cases (str_eq (key x) k)) [
    | inl e ↦
        let same : x ≡ a = ground arith in
        let kx : key x ≡ k = (eq_iff (key x) k).0 e in
        let rest : find_by key k xs ≡ none = rw (← kx) u.0 in
        rw (← same) (rw (sum_by-map-none xs rest) (omega int_laws))
    | inr e ↦
        let later : find_by key k xs ≡ some a = ground arith in
        let ne : key x ≢ k = ground (arith, eq_iff (key x) k) in
        rw (others x ne) (add_left_of_eq _ _ _ _ _ (sum_by-map_one xs u.1 later))
  ]

-- What holds of every row that can be found holds of all rows.
pub All-of_find {ℓ κ} :
    {A : Type ℓ} (key : A → String) (P : A → Type κ) (xs : List A)
    → IsUnique key xs
    → ((k : String) (a : A) → find_by key k xs ≡ some a → P a)
    → All P xs
All-of_find key P [] u h = tt
All-of_find key P (x ∷ xs) u h = (
  h (key x) x (ground (arith, eq_iff (key x) (key x))),
  All-of_find key P xs u.1 (λ k a e. h k a (ground (arith, eq_iff (key x) k, u.0))),
)
