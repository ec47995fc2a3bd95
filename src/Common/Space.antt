-- ===== src/Common/Space.antt =====
-- `str.strip`: Python's white space at the two ends.
use Prim.Native.Nat.{ℕ}
use Prim.Native.Char.{code}
use Prim.Native.String.{String, [], ◌∷◌}
use mathlib.Core.Bool.{Bool, not, ◌&&◌, ◌||◌}
use sentinel_aegis_forge.Common.Tests.{leb, nat_beq, ◌==◌, string_eq, if◌then◌else◌}

-- the characters for which `str.isspace` holds
is_space : ℕ → Bool
is_space c =
    (leb 9 c && leb c 13)
    || (leb 28 c && leb c 32)
    || nat_beq c 133
    || nat_beq c 160
    || nat_beq c 5760
    || (leb 8192 c && leb c 8202)
    || nat_beq c 8232
    || nat_beq c 8233
    || nat_beq c 8239
    || nat_beq c 8287
    || nat_beq c 12288

strip_left : String → String
unfolding is_space
strip_left [] = []
strip_left (c ∷ s) = if is_space (code c) then strip_left s else c ∷ s

strip_right : String → String
unfolding is_space
strip_right [] = []
strip_right (c ∷ s) =
    let rest = strip_right s in if rest == "" && is_space (code c) then [] else c ∷ rest

unfoldable pub strip : String → String
unfolding strip_left strip_right
strip s = strip_right (strip_left s)

-- `value.strip() and value == value.strip()`
unfoldable pub is_trimmed : String → Bool
unfolding strip
is_trimmed s = not (strip s == "") && s == strip s
