-- ===== src/Incremental/Progress/Sets.antt =====
-- Sets as lists without repetition: `update`, difference and their sizes.
use sentinel_aegis_forge.Common.{
  and-eq-true, suc, ◌+◌, String, ◌≡◌, refl, sym, ap, subst, inl, inr, Bool, true, false, ◌||◌, List,
  [], ◌∷◌, ◌++◌, arith, eq_iff, Bool-cases, ◌==◌, nat_eq, string_eq, pair_eq, list_eq, length,
  contains, subset, same_set, IsNodup, contains-append, IsNodup-snoc,
}
use sentinel_aegis_forge.Incremental.Progress.{update, without}

pub contains-update :
    (k : String) (xs ys : List String)
    → contains k (update xs ys) ≡ (contains k xs || contains k ys)
contains-update k xs [] = or_false (contains k xs)
  where
    or_false : (b : Bool) → b ≡ (b || false)
    or_false true = refl
    or_false false = refl
contains-update k xs (y ∷ ys) = elim (Bool-cases (contains y xs)) [
  | inl old ↦ rw old (ground (arith, contains-update k xs ys, eq_iff k y, ap_contains k y xs))
  | inr new ↦
      rw new (ground (arith, contains-update k (xs ++ y ∷ []) ys, contains-append k xs (y ∷ [])))
]
  where
    ap_contains : (a b : String) (l : List String) → a ≡ b → contains a l ≡ contains b l
    ap_contains a b l e = ap (λ t. contains t l) e

pub IsNodup-update : (xs ys : List String) → IsNodup xs → IsNodup (update xs ys)
IsNodup-update xs [] h = h
IsNodup-update xs (y ∷ ys) h = elim (Bool-cases (contains y xs)) [
  | inl old ↦ rw old (IsNodup-update xs ys h)
  | inr new ↦ rw new (IsNodup-update (xs ++ y ∷ []) ys (IsNodup-snoc y xs new h))
]

-- Every element of the first is one of the second.
abbrev pub Within : List String → List String → Type 0
Within xs ys = (k : String) → contains k xs ≡ true → contains k ys ≡ true

pub subset→Within : (xs ys : List String) → subset xs ys ≡ true → Within xs ys
subset→Within [] ys h k m = cc
subset→Within (x ∷ xs) ys h k m =
    let (first, rest) = and-eq-true (contains x ys) _ h in
    elim (Bool-cases (k == x)) [
      | inl same ↦ subst (λ t. contains t ys ≡ true) (sym ((eq_iff k x).0 same)) first
      | inr other ↦ subset→Within xs ys rest k (rw other at m)
    ]

length-without_nil : (xs : List String) → length (without xs []) ≡ length xs
length-without_nil [] = refl
length-without_nil (x ∷ xs) = omega (arith, length-without_nil xs)

-- One element that is not there yet leaves one less.
without-absent :
    (y : String) (xs ys : List String)
    → contains y xs ≡ false
    → length (without xs (y ∷ ys)) ≡ length (without xs ys)
without-absent y [] ys h = refl
without-absent y (x ∷ xs) ys h = ground (arith, eq_iff x y, eq_iff y x, without-absent y xs ys)

without-suc :
    (y : String) (xs ys : List String)
    → IsNodup xs
    → contains y xs ≡ true
    → contains y ys ≡ false
    → length (without xs ys) ≡ suc (length (without xs (y ∷ ys)))
without-suc y [] ys d m f = cc
without-suc y (x ∷ xs) ys d m f = elim (Bool-cases (string_eq.same y x)) [
  | inl same ↦
      let e = (eq_iff y x).0 same in
      ground (
        arith,
        (eq_iff x y).1 (sym e),
        ap (λ t. contains t ys) e,
        ap (λ t. contains t xs) e,
        without-absent y xs ys,
      )
  | inr other ↦ ground (arith, eq_iff x y, eq_iff y x, without-suc y xs ys d.1)
]

contains-tail :
    (k y : String) (ys : List String) → contains k ys ≡ true → contains k (y ∷ ys) ≡ true
contains-tail k y ys m = ground arith

pub length-without :
    (xs ys : List String)
    → IsNodup xs
    → IsNodup ys
    → Within ys xs
    → length ys + length (without xs ys) ≡ length xs
length-without xs [] dx dy w = omega (arith, length-without_nil xs)
length-without xs (y ∷ ys) dx dy w = omega (
  arith,
  without-suc y xs ys dx (w y (rw ((eq_iff y y).1 refl))) dy.0,
  length-without xs ys dx dy.1 (λ k m. w k (contains-tail k y ys m)),
)

-- A set within another leaves nothing of itself.
without-Within : (xs ys : List String) → Within xs ys → length (without xs ys) ≡ 0
without-Within [] ys w = refl
without-Within (x ∷ xs) ys w =
    rw (w x (rw ((eq_iff x x).1 refl))) (without-Within xs ys λ k m. w k (contains-tail k x xs m))

-- Two sets with the same elements have the same size.
pub length-same_set :
    (xs ys : List String) → IsNodup xs → IsNodup ys → same_set xs ys ≡ true → length xs ≡ length ys
length-same_set xs ys dx dy h =
    let (there, back) = and-eq-true (subset xs ys) _ h in
    omega (
      arith,
      length-without xs ys dx dy (subset→Within ys xs back),
      without-Within xs ys (subset→Within xs ys there),
    )
