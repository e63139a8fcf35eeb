-- ===== src/Tracing/Texts.antt =====
-- What the code uses of `strings.Split`, `strings.EqualFold` and `hex.EncodeToString`.
use Prim.Native.Char.{Char, code, nul, len_utf8}
use Prim.Native.Nat.{compare, Ordering}
use Prim.Native.String
use Prim.Native.String.{String, [], ◌∷◌, len, char_at, past}
use Prim.Native.String.append as Append
use Prim.Native.String.char_at as CharAt
use mathlib.Core.Path.{subst}
use Prim.Native.String.len as Len
use mathlib.Core.List.{List, [], ◌∷◌}
use q_pay_flow.Base.{
  ℕ, zero, suc, ◌+◌, ◌*◌, ◌/◌, ◌%◌, ◌-◌, ◌≡◌, refl, ap, sym, Bool, true, false, ◌&&◌, ◌==◌, leb,
  arith, if◌then◌else◌, length,
}

-- The first part gets one more character.
abbrev pub prepend : Char → List String → List String
prepend c [] = (c ∷ []) ∷ []
prepend c (part ∷ parts) = (c ∷ part) ∷ parts

-- `strings.Split(s, "-")`.
abbrev pub split_dash : String → List String
split_dash [] = [] ∷ []
split_dash (c ∷ s) = let rest = split_dash s in if code c == b'-' then [] ∷ rest else prepend c rest

-- Two digits for each byte.
abbrev pub hex_digit : ℕ → Char
hex_digit n = char_at "0123456789abcdef" n

abbrev pub hex : List ℕ → String
hex [] = []
hex (b ∷ bytes) = hex_digit (b / 16) ∷ hex_digit (b % 16) ∷ hex bytes

-- The first n bytes of a reader.
abbrev pub fill : ℕ → (ℕ → ℕ) → List ℕ
fill zero reader = []
fill (suc n) reader = reader n % 256 ∷ fill n reader

-- `strings.EqualFold`, for a second text in which no letter folds to one beyond ASCII.
abbrev pub lower : ℕ → ℕ
lower c = if leb b'A' c && leb c b'Z' then c + 32 else c

abbrev pub equal_fold : String → String → Bool
equal_fold [] [] = true
equal_fold (c ∷ s) (d ∷ t) = let rest = equal_fold s t in lower (code c) == lower (code d) && rest
equal_fold [] (d ∷ t) = false
equal_fold (c ∷ s) [] = false

-- A character that is no dash and takes one byte.
abbrev pub IsPlain : Char → Type 0
IsPlain c = ((code c == b'-') ≡ false) × (len_utf8 c ≡ 1)

abbrev pub AllPlain : String → Type 0
AllPlain [] = Unit
AllPlain (c ∷ s) = IsPlain c × AllPlain s

nul-IsPlain : IsPlain nul
nul-IsPlain = (refl, refl)

past-IsPlain : (o : Ordering) (c : Char) → IsPlain c → IsPlain (past o c)
past-IsPlain Ordering.lt c h = nul-IsPlain
past-IsPlain Ordering.eq c h = h
past-IsPlain Ordering.gt c h = h

char_at-IsPlain : (s : String) (i : ℕ) → AllPlain s → IsPlain (char_at s i)
char_at-IsPlain [] i h = rw (CharAt.nil i) nul-IsPlain
char_at-IsPlain (c ∷ s) zero h = rw (CharAt.cons-zero c s) h.0
char_at-IsPlain (c ∷ s) (suc i) h = subst IsPlain (sym (CharAt.cons-suc c s i)) (
    past-IsPlain (compare (suc i) (len_utf8 c)) (char_at s (suc i - len_utf8 c))
      (char_at-IsPlain s (suc i - len_utf8 c) h.1))

digits-AllPlain : AllPlain "0123456789abcdef"
digits-AllPlain = ground arith

hex_digit-IsPlain : (n : ℕ) → IsPlain (hex_digit n)
hex_digit-IsPlain n = char_at-IsPlain "0123456789abcdef" n digits-AllPlain

pub hex-AllPlain : (bytes : List ℕ) → AllPlain (hex bytes)
hex-AllPlain [] = tt
hex-AllPlain (b ∷ bytes) =
    (hex_digit-IsPlain (b / 16), (hex_digit-IsPlain (b % 16), hex-AllPlain bytes))

pub len-hex : (bytes : List ℕ) → len (hex bytes) ≡ 2 * length bytes
len-hex [] = refl
len-hex (b ∷ bytes) = omega (
  arith,
  Len.cons (hex_digit (b / 16)) (String.◌∷◌ (hex_digit (b % 16)) (hex bytes)),
  Len.cons (hex_digit (b % 16)) (hex bytes),
  (hex_digit-IsPlain (b / 16)).1,
  (hex_digit-IsPlain (b % 16)).1,
  len-hex bytes,
)

pub length-fill : (n : ℕ) (reader : ℕ → ℕ) → length (fill n reader) ≡ n
length-fill zero reader = refl
length-fill (suc n) reader = ap suc (length-fill n reader)

-- A part without a dash, up to the dash behind it.
pub split_dash-part :
    (s t : String) → AllPlain s → split_dash (String.◌++◌ s (String.◌++◌ "-" t)) ≡ s ∷ split_dash t
split_dash-part [] t h =
    rw (Append.nil (String.◌++◌ "-" t)) (rw (Append.cons "-" "" t, Append.nil t) refl)
split_dash-part (c ∷ s) t h =
    rw (Append.cons c s (String.◌++◌ "-" t), h.0.0) (ap (prepend c) (split_dash-part s t h.1))
