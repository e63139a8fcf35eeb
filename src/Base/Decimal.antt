-- ===== src/Base/Decimal.antt =====
-- Decimal texts of natural numbers, as `%d` and `%04d` print them.
use Prim.Native.Char.{Char}
use Prim.Native.Nat.{ℕ, zero, suc, ◌/◌, ◌%◌}
use Prim.Native.String
use Prim.Native.String.{String, char_at}
use q_pay_flow.Base.Tests.{ltb, if◌then◌else◌}

abbrev pub digit : ℕ → Char
digit n = char_at "0123456789" n

-- Digits in front of a text: a number has fewer digits than its successor, which is the fuel.
abbrev pub decimal_from : (fuel n : ℕ) → String → String
decimal_from zero n acc = acc
decimal_from (suc fuel) n acc =
    let longer = String.◌∷◌ (digit (n % 10)) acc in
    let rest = decimal_from fuel (n / 10) longer in if ltb n 10 then longer else rest

unfoldable pub decimal : ℕ → String
decimal n = decimal_from (suc n) n ""

-- `%04d`.
unfoldable pub padded : ℕ → String
unfolding decimal
padded n =
    if ltb n 10
    then String.◌++◌ "000" (decimal n)
    else if ltb n 100
    then String.◌++◌ "00" (decimal n)
    else if ltb n 1000
    then String.◌++◌ "0" (decimal n)
    else decimal n
