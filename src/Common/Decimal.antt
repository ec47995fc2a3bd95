-- ===== src/Common/Decimal.antt =====
-- `str` of an int that is not negative.
use Prim.Native.Nat.{ℕ, zero, suc, ◌+◌, ◌/◌, ◌%◌}
use Prim.Native.String.{String, ◌++◌, slice}
use mathlib.Core.Path.{◌≡◌, refl}
use sentinel_aegis_forge.Common.Tests.{ltb, if◌then◌else◌}

digit : ℕ → String
digit d = slice "0123456789" d (d + 1)

-- a number has at most as many digits as its value and one
digits_from : ℕ → ℕ → String
unfolding digit
digits_from zero n = ""
digits_from (suc fuel) n =
    let rest = digits_from fuel (n / 10) in if ltb n 10 then digit n else rest ++ digit (n % 10)

unfoldable pub decimal : ℕ → String
unfolding digits_from
decimal n = digits_from (n + 1) n

decimal_zero : decimal 0 ≡ "0"
unfolding decimal
decimal_zero = refl

decimal_long : decimal 2047 ≡ "2047"
unfolding decimal
decimal_long = refl
