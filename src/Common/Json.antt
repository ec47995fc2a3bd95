-- ===== src/Common/Json.antt =====
-- JSON values, as `json.loads` reads and `canonical_json` writes them.
use Prim.Native.Nat.{ℕ}
use Prim.Native.String.{String}
use mathlib.Core.Bool.{Bool, true, false, ◌&&◌}
use mathlib.Core.Option.{Option, none, some}
use sentinel_aegis_forge.Common.Int.{ℤ, pos, negsuc}
use sentinel_aegis_forge.Common.Tests.{◌==◌, string_eq, nat_eq, if◌then◌else◌}
use sentinel_aegis_forge.Common.Lists.{Dict, lookup, length}
use mathlib.Core.List.{List, [], ◌∷◌}

-- A float: a double is a fraction, here in lowest terms over `denominator + 1`.
pub data Real : Type 0 where
  nan infinite : Real
  fraction : (numerator : ℤ) (denominator : ℕ) → Real

mutual
  pub data Json : Type 0 where
    null : Json
    flag : Bool → Json
    num : ℕ → Json
    -- -(n + 1)
    minus : ℕ → Json
    real : Real → Json
    text : String → Json
    arr : Items → Json
    obj : Fields → Json

  pub data Items : Type 0 where
    no_item : Items
    item : Json → Items → Items

  pub data Fields : Type 0 where
    no_field : Fields
    field : String → Json → Fields → Fields

abbrev pub items : List Json → Items
items [] = no_item
items (j ∷ rest) = item j (items rest)

abbrev pub texts : List String → Items
texts [] = no_item
texts (s ∷ rest) = item (text s) (texts rest)

-- `{key: value, ...}`
abbrev pub fields : List (String × Json) → Fields
fields [] = no_field
fields ((key, value) ∷ rest) = field key value (fields rest)

-- What `read_object` returns.
abbrev pub Object : Type 0
Object = Dict String Json

-- The number that a value is to Python's `==`: `True` is 1, and `1.0` is 1.
abbrev pub numeric : Json → Option (ℤ × ℕ)
numeric (flag false) = some (pos 0, 0)
numeric (flag true) = some (pos 1, 0)
numeric (num n) = some (pos n, 0)
numeric (minus n) = some (negsuc n, 0)
numeric (real (fraction n d)) = some (n, d)
numeric _ = none

abbrev pub int_beq : ℤ → ℤ → Bool
int_beq (pos m) (pos n) = m == n
int_beq (negsuc m) (negsuc n) = m == n
int_beq _ _ = false

abbrev both_numbers : Option (ℤ × ℕ) → Option (ℤ × ℕ) → Bool
both_numbers (some (m, c)) (some (n, d)) = int_beq m n && c == d
both_numbers _ _ = false

-- `==` where one side is a scalar
abbrev pub same_value : Json → Json → Bool
same_value (text s) (text t) = s == t
same_value null null = true
same_value a b = both_numbers (numeric a) (numeric b)

-- `d.get(key) == value`, for a value that is not None
abbrev pub has_value : String → Json → Object → Bool
has_value key value d = elim (lookup key d) [ none ↦ false | some found ↦ same_value found value ]

-- every key of the second has its value in the first
abbrev pub has_values : Object → Object → Bool
has_values d [] = true
has_values d ((key, value) ∷ rest) = has_value key value d && has_values d rest

-- `d == expected`, for scalars
abbrev pub same_object : Object → Object → Bool
same_object d expected = length d == length expected && has_values d expected

-- The natural number that a value equals, if any.
abbrev whole_of : Option (ℤ × ℕ) → Option ℕ
whole_of (some (pos n, d)) = if d == 0 then some n else none
whole_of _ = none

abbrev pub whole : Json → Option ℕ
whole value = whole_of (numeric value)

abbrev pub whole_at : String → Object → Option ℕ
whole_at key d = elim (lookup key d) [ none ↦ none | some value ↦ whole value ]
