-- ===== src/Common/Lists.antt =====
-- Lists with native lengths, Python's `in`, `set` and `dict`, and predicates by recursion.
use Prim.Native.Nat.{ℕ, zero, suc, ◌+◌, ◌≤◌}
use mathlib.Core.Path.{◌≡◌, refl, sym, ap, subst}
use mathlib.Core.Bool.{Bool, true, false, ◌&&◌, ◌||◌}
use mathlib.Core.Logic.{◌⊎◌, inl, inr}
use mathlib.Core.Option.{Option, none, some}
use mathlib.Core.List.{List, [], ◌∷◌, ◌++◌, map}
use native.Mathlib.Omega.{arith}
use sentinel_aegis_forge.Common.Tests.{Bool-cases, some-eq, Eq, ◌==◌, nat_eq, if◌then◌else◌}

module _ {ℓ} {A : Type ℓ} where
  abbrev pub length : List A → ℕ
  length [] = 0
  length (x ∷ xs) = suc (length xs)

  -- `any(test(x) for x in xs)` and `all(...)`
  abbrev pub any : (A → Bool) → List A → Bool
  any test [] = false
  any test (x ∷ xs) = test x || any test xs

  abbrev pub all : (A → Bool) → List A → Bool
  all test [] = true
  all test (x ∷ xs) = test x && all test xs

  -- `[x for x in xs if test(x)]`
  abbrev pub select : (A → Bool) → List A → List A
  select test [] = []
  select test (x ∷ xs) = if test x then x ∷ select test xs else select test xs

  -- `sum(test(x) for x in xs)`
  abbrev pub count : (A → Bool) → List A → ℕ
  count test [] = 0
  count test (x ∷ xs) = if test x then suc (count test xs) else count test xs

  pub length-append : (xs ys : List A) → length (xs ++ ys) ≡ length xs + length ys
  length-append [] ys = omega arith
  length-append (x ∷ xs) ys = omega (arith, length-append xs ys)

module _ {ℓ κ} {A : Type ℓ} {B : Type κ} where
  pub length-map : (f : A → B) (xs : List A) → length (map f xs) ≡ length xs
  length-map f [] = refl
  length-map f (x ∷ xs) = omega (arith, length-map f xs)

-- `range(start, start + n)`
abbrev pub range : ℕ → ℕ → List ℕ
range start zero = []
range start (suc n) = start ∷ range (start + 1) n

-- A predicate by recursion computes to tuples, which the tactics read and build.
abbrev pub All {ℓ κ} : {A : Type ℓ} → (A → Type κ) → List A → Type κ
All P [] = Unit
All P (x ∷ xs) = P x × All P xs

module _ {ℓ κ} {A : Type ℓ} (P : A → Type κ) where
  pub All-append : (xs ys : List A) → All P xs → All P ys → All P (xs ++ ys)
  All-append [] ys hx hy = hy
  All-append (x ∷ xs) ys hx hy = (hx.0, All-append xs ys hx.1 hy)

module _ {ℓ κ μ} {A : Type ℓ} (P : A → Type κ) (Q : A → Type μ) where
  pub All-mono : ((a : A) → P a → Q a) → (xs : List A) → All P xs → All Q xs
  All-mono f [] h = tt
  All-mono f (x ∷ xs) h = (f x h.0, All-mono f xs h.1)

module _ {ℓ} {A : Type ℓ} ⦃e : Eq A⦄ where
  -- `a in xs`
  abbrev pub contains : A → List A → Bool
  contains a [] = false
  contains a (x ∷ xs) = a == x || contains a xs

  -- `set(xs)`: the order of a set is never read, each element stands once
  abbrev pub to_set : List A → List A
  to_set [] = []
  to_set (x ∷ xs) = if contains x xs then to_set xs else x ∷ to_set xs

  -- `len(set(xs)) == len(xs)`
  abbrev pub is_distinct : List A → Bool
  is_distinct xs = length (to_set xs) == length xs

  -- `set(xs) == set(ys)`
  abbrev pub subset : List A → List A → Bool
  subset xs ys = all (λ x. contains x ys) xs

  abbrev pub same_set : List A → List A → Bool
  same_set xs ys = subset xs ys && subset ys xs

  -- No element stands twice.
  abbrev pub IsNodup : List A → Type 0
  IsNodup [] = Unit
  IsNodup (x ∷ xs) = (contains x xs ≡ false) × IsNodup xs

  length-to_set : (xs : List A) → length (to_set xs) ≤ length xs
  length-to_set [] = omega arith
  length-to_set (x ∷ xs) = ground (arith, length-to_set xs)

  pub is_distinct→IsNodup : (xs : List A) → is_distinct xs ≡ true → IsNodup xs
  is_distinct→IsNodup [] h = tt
  is_distinct→IsNodup (x ∷ xs) h = ground (arith, length-to_set xs, is_distinct→IsNodup xs)

-- A `dict` in insertion order.
abbrev pub Dict {ℓ κ} : Type ℓ → Type κ → Type (ℓ ⊔ κ)
Dict K V = List (K × V)

module _ {ℓ κ} {K : Type ℓ} {V : Type κ} where
  abbrev pub keys : Dict K V → List K
  keys [] = []
  keys ((k, v) ∷ d) = k ∷ keys d

  pub length-keys : (d : Dict K V) → length (keys d) ≡ length d
  length-keys [] = refl
  length-keys (p ∷ d) = omega (arith, length-keys d)

  pub keys-append : (d f : Dict K V) → keys (d ++ f) ≡ keys d ++ keys f
  keys-append [] f = refl
  keys-append (p ∷ d) f = ap (◌∷◌ p.0) (keys-append d f)

module _ {ℓ κ} {K : Type ℓ} {V : Type κ} ⦃e : Eq K⦄ where
  -- `d.get(k)`
  abbrev pub lookup : K → Dict K V → Option V
  lookup k [] = none
  lookup k ((j, v) ∷ d) = if k == j then some v else lookup k d

  -- `d[k] = v`: an old key keeps its place
  abbrev pub insert : K → V → Dict K V → Dict K V
  insert k v [] = (k, v) ∷ []
  insert k v ((j, w) ∷ d) = if k == j then (j, v) ∷ d else (j, w) ∷ insert k v d

  pub lookup-insert :
      (k j : K) (v : V) (d : Dict K V)
      → lookup j (insert k v d) ≡ (if j == k then some v else lookup j d)
  lookup-insert k j v [] = refl
  lookup-insert k j v ((i, w) ∷ d) =
      ground (arith, e.same_iff j k, e.same_iff k i, e.same_iff j i, lookup-insert k j v d)

module _ {ℓ} {A : Type ℓ} {x y : A} {xs ys : List A} where
  pub head-eq : x ∷ xs ≡ y ∷ ys → x ≡ y
  head-eq h = cc

  pub tail-eq : x ∷ xs ≡ y ∷ ys → xs ≡ ys
  tail-eq h = cc

-- A type with no element, at every level.
pub data Never {ℓ} : Type ℓ where

-- `a` is one of the elements.
abbrev pub Among {ℓ} : {A : Type ℓ} → A → List A → Type ℓ
Among a [] = Never
Among a (x ∷ xs) = (a ≡ x) ⊎ Among a xs

module _ {ℓ κ} {A : Type ℓ} (P : A → Type κ) where
  pub All-Among : (a : A) (xs : List A) → All P xs → Among a xs → P a
  All-Among a (x ∷ xs) h (inl e) = subst P (sym e) h.0
  All-Among a (x ∷ xs) h (inr m) = All-Among a xs h.1 m
  All-Among a [] h m = elim m [ ]

module _ {ℓ κ} {A : Type ℓ} ⦃e : Eq A⦄ (P : A → Type κ) where
  pub All-contains : (a : A) (xs : List A) → All P xs → contains a xs ≡ true → P a
  All-contains a [] h m = cc
  All-contains a (x ∷ xs) h m = elim (Bool-cases (e.same a x)) [
    | inl same ↦ subst P (sym ((e.same_iff a x).0 same)) h.0
    | inr other ↦ All-contains a xs h.1 (rw other at m)
  ]

module _ {ℓ} {A : Type ℓ} ⦃e : Eq A⦄ where
  to_set-nil : (xs : List A) → length (to_set xs) ≡ 0 → xs ≡ []
  to_set-nil [] h = refl
  to_set-nil (x ∷ xs) h = elim (Bool-cases (contains x xs)) [
    | inl again ↦
        let none_left : xs ≡ [] = to_set-nil xs (rw again at h) in
        cc (again, ap (contains x) none_left)
    | inr fresh ↦ let k : suc (length (to_set xs)) ≡ 0 = (rw fresh at h) in absurd (omega arith)
  ]

  same_head : (y x : A) (xs : List A) → y ≡ x → All (λ z. z ≡ x) xs → All (λ z. z ≡ y) (x ∷ xs)
  same_head y x xs q same = subst (λ z. All (λ w. w ≡ z) (x ∷ xs)) (sym q) (refl, same)

  -- A list whose set has one element repeats that element.
  pub to_set_singleton :
      (y : A) (xs : List A) → contains y xs ≡ true → length (to_set xs) ≡ 1 → All (λ z. z ≡ y) xs
  to_set_singleton y [] m h = tt
  to_set_singleton y (x ∷ xs) m h = elim (Bool-cases (contains x xs)) [
    | inl again ↦
        let same : All (λ z. z ≡ x) xs = to_set_singleton x xs again (rw again at h) in
        elim (Bool-cases (e.same y x)) [
          | inl q ↦ same_head y x xs ((e.same_iff y x).0 q) same
          | inr q ↦ same_head y x xs (All-contains (λ z. z ≡ x) y xs same (rw q at m)) same
        ]
    | inr fresh ↦
        let k : suc (length (to_set xs)) ≡ 1 = (rw fresh at h) in
        let none_left : xs ≡ [] = to_set-nil xs (omega arith) in
        let same : All (λ z. z ≡ x) xs = subst (All (λ z. z ≡ x)) (sym none_left) tt in
        elim (Bool-cases (e.same y x)) [
          | inl q ↦ same_head y x xs ((e.same_iff y x).0 q) same
          | inr q ↦ same_head y x xs (All-contains (λ z. z ≡ x) y xs same (rw q at m)) same
        ]
  ]

  pub contains-append :
      (a : A) (xs ys : List A) → contains a (xs ++ ys) ≡ (contains a xs || contains a ys)
  contains-append a [] ys = refl
  contains-append a (x ∷ xs) ys = ground (arith, contains-append a xs ys)

  pub IsNodup-snoc :
      (a : A) (xs : List A) → contains a xs ≡ false → IsNodup xs → IsNodup (xs ++ a ∷ [])
  IsNodup-snoc a [] m h = (refl, tt)
  IsNodup-snoc a (x ∷ xs) m h =
      ground
        (arith, e.same_iff x a, e.same_iff a x, contains-append x xs (a ∷ []), IsNodup-snoc a xs)

module _ {ℓ κ} {K : Type ℓ} {V : Type κ} ⦃e : Eq K⦄ where
  -- What holds of every entry, and of the new one, holds of every entry after a write.
  pub All-insert :
      (P : K × V → Type 0) (k : K) (v : V) (d : Dict K V)
      → ((j : K) → j ≡ k → P (j, v))
      → All P d
      → All P (insert k v d)
  All-insert P k v [] new h = (new k refl, tt)
  All-insert P k v ((j, w) ∷ d) new h = elim (Bool-cases (e.same k j)) [
    | inl same ↦ rw same (new j (sym ((e.same_iff k j).0 same)), h.1)
    | inr other ↦ rw other (h.0, All-insert P k v d new h.1)
  ]

  pub All-lookup :
      (P : K × V → Type 0) (k : K) (v : V) (d : Dict K V) → All P d → lookup k d ≡ some v → P (k, v)
  All-lookup P k v [] h m = cc
  All-lookup P k v ((j, w) ∷ d) h m = elim (Bool-cases (e.same k j)) [
    | inl same ↦
        let e' : w ≡ v = some-eq (rw same at m) in
        subst (λ t. P (t, v)) (sym ((e.same_iff k j).0 same)) (subst (λ t. P (j, t)) e' h.0)
    | inr other ↦ All-lookup P k v d h.1 (rw other at m)
  ]

module _ {ℓ} {A : Type ℓ} ⦃e : Eq A⦄ where
  pub All-of-contains :
      (P : A → Type 0) (xs : List A) → ((a : A) → contains a xs ≡ true → P a) → All P xs
  All-of-contains P [] h = tt
  All-of-contains P (x ∷ xs) h = (
    h x (rw ((e.same_iff x x).1 refl)),
    All-of-contains P xs (λ a m. h a (contains-tail a x xs m)),
  )
    where
      contains-tail : (a y : A) (ys : List A) → contains a ys ≡ true → contains a (y ∷ ys) ≡ true
      contains-tail a y ys m = ground arith

  pub IsNodup-append :
      (xs ys : List A)
      → IsNodup xs
      → IsNodup ys
      → All (λ x. contains x ys ≡ false) xs
      → IsNodup (xs ++ ys)
  IsNodup-append [] ys hx hy apart = hy
  IsNodup-append (x ∷ xs) ys hx hy apart =
      (rw (contains-append x xs ys, hx.0) (apart.0), IsNodup-append xs ys hx.1 hy apart.1)

module _ {ℓ κ} {K : Type ℓ} {V : Type κ} ⦃e : Eq K⦄ where
  pub contains-keys-insert :
      (k j : K) (v : V) (d : Dict K V)
      → contains j (keys (insert k v d)) ≡ (j == k || contains j (keys d))
  contains-keys-insert k j v [] = refl
  contains-keys-insert k j v ((i, w) ∷ d) =
      ground (arith, e.same_iff k i, e.same_iff j i, e.same_iff j k, contains-keys-insert k j v d)

  pub IsNodup-keys-insert :
      (k : K) (v : V) (d : Dict K V) → IsNodup (keys d) → IsNodup (keys (insert k v d))
  IsNodup-keys-insert k v [] h = (refl, tt)
  IsNodup-keys-insert k v ((i, w) ∷ d) h = elim (Bool-cases (e.same k i)) [
    | inl same ↦ rw same h
    | inr other ↦ rw other (
      ground (arith, e.same_iff k i, e.same_iff i k, contains-keys-insert k i v d, h.0),
      IsNodup-keys-insert k v d h.1,
    )
  ]
