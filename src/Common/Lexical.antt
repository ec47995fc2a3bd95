-- ===== src/Common/Lexical.antt =====
-- Python's order of tuples, part by part: an inner order decides where the keys are equal.

use mathlib.Core.Path.{◌≡◌, sym}
use mathlib.Core.Bool.{Bool, true, false}
use native.Mathlib.Omega.{arith}
use sentinel_aegis_forge.Common.Tests.{if◌then◌else◌, Bool-cases, Eq, ◌==◌}
use mathlib.Core.Logic.{inl, inr}

module _ {ℓ κ} {A : Type ℓ} {B : Type κ} ⦃e : Eq B⦄ (key : A → B) (outer : B → B → Bool)
    (inner : A → A → Bool) where
  abbrev pub lexical : A → A → Bool
  lexical a b = if key a == key b then inner a b else outer (key a) (key b)

  pub lexical_total :
      ((x y : B) → outer x y ≡ false → outer y x ≡ true)
      → ((a b : A) → inner a b ≡ false → inner b a ≡ true)
      → (a b : A) → lexical a b ≡ false
      → lexical b a ≡ true
  lexical_total out inn a b h = elim (Bool-cases (key a == key b)) [
    | inl same ↦
        rw ((e.same_iff (key b) (key a)).1 (sym ((e.same_iff (key a) (key b)).0 same)))
          (inn a b (rw same at h))
    | inr apart ↦ elim (Bool-cases (key b == key a)) [
      | inl same ↦ absurd (ground (arith, e.same_iff (key a) (key b), e.same_iff (key b) (key a)))
      | inr other ↦ rw other (out (key a) (key b) (rw apart at h))
    ]
  ]

  pub lexical_trans :
      ((x y z : B) → outer x y ≡ true → outer y z ≡ true → outer x z ≡ true)
      → ((x y : B) → outer x y ≡ true → outer y x ≡ true → x ≡ y)
      → ((a b c : A) → inner a b ≡ true → inner b c ≡ true → inner a c ≡ true)
      → (a b c : A) → lexical a b ≡ true
      → lexical b c ≡ true
      → lexical a c ≡ true
  lexical_trans trans antisym inn a b c h k = grind (
    arith,
    e.same_iff (key a) (key b),
    e.same_iff (key b) (key c),
    e.same_iff (key a) (key c),
    trans (key a) (key b) (key c),
    antisym (key a) (key b),
    antisym (key b) (key c),
    inn a b c,
  )
