-- ===== src/Generator/Random.antt =====
-- scripts/generator/main.go: what it takes from crypto/rand, and the account ids.
use Prim.Native.String
use q_pay_flow.Base.{
  ℕ, ◌+◌, ◌%◌, ◌<◌, ◌≡◌, String, Option, none, some, List, [], ◌∷◌, ◌==◌, if◌then◌else◌,
}
use q_pay_flow.Base.Decimal.{padded}
use q_pay_flow.Tracing.Texts.{hex, fill}

-- What `rand.Int` answers for a bound, `none` for an error.
abbrev pub Source : Type 0
Source = ℕ → Option ℕ

-- The documented range of `rand.Int`.
abbrev pub InRange : Source → Type 0
InRange draw = (max n : ℕ) → draw max ≡ some n → n < max

abbrev pub or_zero : Option ℕ → ℕ
or_zero none = 0
or_zero (some n) = n

-- `cryptoRandInt`, a bound below 0 written as 0.
unfoldable pub crypto_rand_int : Source → ℕ → ℕ
crypto_rand_int draw max = if max == 0 then 0 else or_zero (draw max)

-- `b & 0x0f | 0x40` and `b & 0x3f | 0x80`, of a byte.
abbrev pub version_byte : ℕ → ℕ
version_byte b = b % 16 + 64

abbrev pub variant_byte : ℕ → ℕ
variant_byte b = b % 64 + 128

abbrev pub stamp : List ℕ → List ℕ
stamp (b0 ∷ b1 ∷ b2 ∷ b3 ∷ b4 ∷ b5 ∷ b6 ∷ b7 ∷ b8 ∷ rest) =
    b0 ∷ b1 ∷ b2 ∷ b3 ∷ b4 ∷ b5 ∷ version_byte b6 ∷ b7 ∷ variant_byte b8 ∷ rest
stamp bytes = bytes

abbrev pub dashed : List ℕ → String
dashed (b0 ∷ b1 ∷ b2 ∷ b3 ∷ b4 ∷ b5 ∷ b6 ∷ b7 ∷ b8 ∷ b9 ∷ node) =
    String.◌++◌ (hex (b0 ∷ b1 ∷ b2 ∷ b3 ∷ [])) (
      String.◌++◌ "-" (
        String.◌++◌ (hex (b4 ∷ b5 ∷ [])) (
          String.◌++◌ "-" (
            String.◌++◌ (hex (b6 ∷ b7 ∷ []))
              (String.◌++◌ "-" (String.◌++◌ (hex (b8 ∷ b9 ∷ [])) (String.◌++◌ "-" (hex node))))))))
dashed bytes = hex bytes

-- `generateUUID`, on the 16 bytes of a reader.
unfoldable pub generate_uuid : (ℕ → ℕ) → String
generate_uuid reader = dashed (stamp (fill 16 reader))

abbrev pub account_id : ℕ → String
account_id idx = String.◌++◌ "acc_" (padded idx)

abbrev pub owner_id : ℕ → String
owner_id idx = String.◌++◌ "owner_" (padded idx)
