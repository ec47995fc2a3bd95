-- ===== src/Common/Uuid.antt =====
-- `str(UUID(text)) == text`: the canonical form of a UUID, thirty-two lower-case hexadecimal
-- digits in groups of 8, 4, 4, 4 and 12 with dashes between them.
use Prim.Native.Nat.{ℕ}
use Prim.Native.Char.{code}
use Prim.Native.String.{String, [], ◌∷◌}
use mathlib.Core.Bool.{Bool, true, false, ◌&&◌, ◌||◌}
use sentinel_aegis_forge.Common.Tests.{leb, nat_beq}

-- `h` stands for a digit
shape : String
shape = "hhhhhhhh-hhhh-hhhh-hhhh-hhhhhhhhhhhh"

is_hex : ℕ → Bool
is_hex c = (leb b'0' c && leb c b'9') || (leb b'a' c && leb c b'f')

fits : ℕ → ℕ → Bool
unfolding is_hex
fits slot c = (nat_beq slot b'h' && is_hex c) || (nat_beq slot b'-' && nat_beq c b'-')

has_shape : String → String → Bool
unfolding fits
has_shape [] [] = true
has_shape (slot ∷ slots) (c ∷ s) = fits (code slot) (code c) && has_shape slots s
has_shape _ _ = false

unfoldable pub is_canonical_uuid : String → Bool
unfolding has_shape shape
is_canonical_uuid = has_shape shape
