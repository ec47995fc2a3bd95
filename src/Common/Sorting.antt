-- ===== src/Common/Sorting.antt =====
-- `sorted`: stable, here by insertion, over a Boolean order.
use Prim.Native.Nat.{ℕ, suc}
use mathlib.Core.Path.{◌≡◌, refl, ap, ◌∙◌}
use mathlib.Core.Logic.{◌⊎◌, inl, inr}
use mathlib.Core.Bool.{Bool, true, false, ◌||◌}
use mathlib.Core.List.{List, [], ◌∷◌, map}
use native.Mathlib.Omega.{arith}
use sentinel_aegis_forge.Common.Tests.{leb, if◌then◌else◌, Bool-cases, Eq, ◌==◌}
use sentinel_aegis_forge.Common.Lists.{length, All, All-mono, Among, All-Among, contains, IsNodup}

module _ {ℓ} {A : Type ℓ} (le : A → A → Bool) where
  -- Before the first element that is not smaller: equal elements keep their order.
  pub insert_sorted : A → List A → List A
  insert_sorted x [] = x ∷ []
  insert_sorted x (y ∷ ys) = if le x y then x ∷ y ∷ ys else y ∷ insert_sorted x ys

  unfoldable pub sort : List A → List A
  unfolding insert_sorted
  sort [] = []
  sort (x ∷ xs) = insert_sorted x (sort xs)

  abbrev pub IsSorted : List A → Type ℓ
  IsSorted [] = Unit
  IsSorted (x ∷ xs) = All (λ y. le x y ≡ true) xs × IsSorted xs

module _ {ℓ κ} {A : Type ℓ} (le : A → A → Bool) (P : A → Type κ) where
  All-insert_sorted : (x : A) (ys : List A) → P x → All P ys → All P (insert_sorted le x ys)
  unfolding insert_sorted
  All-insert_sorted x [] p h = (p, tt)
  All-insert_sorted x (y ∷ ys) p h = elim (Bool-cases (le x y)) [
    | inl e ↦ rw e (p, h)
    | inr e ↦ rw e (h.0, All-insert_sorted x ys p h.1)
  ]

  -- What holds of every element still holds of every element when they are sorted.
  pub All-sort : (xs : List A) → All P xs → All P (sort le xs)
  unfolding sort
  All-sort [] h = tt
  All-sort (x ∷ xs) h = All-insert_sorted x (sort le xs) h.0 (All-sort xs h.1)

  insert_sorted-All : (x : A) (ys : List A) → All P (insert_sorted le x ys) → P x × All P ys
  unfolding insert_sorted
  insert_sorted-All x [] h = (h.0, tt)
  insert_sorted-All x (y ∷ ys) h = elim (Bool-cases (le x y)) [
    | inl e ↦ let k : All P (x ∷ y ∷ ys) = (rw e at h) in (k.0, k.1)
    | inr e ↦
        let k : P y × All P (insert_sorted le x ys) = (rw e at h) in
        let r = insert_sorted-All x ys k.1 in (r.0, (k.0, r.1))
  ]

  pub sort-All : (xs : List A) → All P (sort le xs) → All P xs
  unfolding sort
  sort-All [] h = tt
  sort-All (x ∷ xs) h = let r = insert_sorted-All x (sort le xs) h in (r.0, sort-All xs r.1)

module _ {ℓ} {A : Type ℓ} (le : A → A → Bool) where
  insert_sorted-Among : (a x : A) (ys : List A) → Among a (insert_sorted le x ys) → Among a (x ∷ ys)
  unfolding insert_sorted
  insert_sorted-Among a x [] m = m
  insert_sorted-Among a x (y ∷ ys) m = elim (Bool-cases (le x y)) [
    | inl e ↦ rw e at m
    | inr e ↦
        let k : (a ≡ y) ⊎ Among a (insert_sorted le x ys) = (rw e at m) in
        elim k [
          | inl q ↦ inr (inl q)
          | inr r ↦ elim (insert_sorted-Among a x ys r) [ inl q ↦ inl q | inr t ↦ inr (inr t) ]
        ]
  ]

  pub sort-Among : (a : A) (xs : List A) → Among a (sort le xs) → Among a xs
  unfolding sort
  sort-Among a [] m = m
  sort-Among a (x ∷ xs) m = elim (insert_sorted-Among a x (sort le xs) m) [
    | inl q ↦ inl q
    | inr r ↦ inr (sort-Among a xs r)
  ]

  length-insert_sorted : (x : A) (ys : List A) → length (insert_sorted le x ys) ≡ suc (length ys)
  unfolding insert_sorted
  length-insert_sorted x [] = refl
  length-insert_sorted x (y ∷ ys) = ground (arith, length-insert_sorted x ys)

  pub length-sort : (xs : List A) → length (sort le xs) ≡ length xs
  unfolding sort
  length-sort [] = refl
  length-sort (x ∷ xs) = omega (arith, length-insert_sorted x (sort le xs), length-sort xs)

module _ {ℓ} {A : Type ℓ} (le : A → A → Bool) (total : (x y : A) → le x y ≡ false → le y x ≡ true)
    (trans : (x y z : A) → le x y ≡ true → le y z ≡ true → le x z ≡ true) where
  insert_sorted-IsSorted :
      (x : A) (ys : List A) → IsSorted le ys → IsSorted le (insert_sorted le x ys)
  unfolding insert_sorted
  insert_sorted-IsSorted x [] h = (tt, tt)
  insert_sorted-IsSorted x (y ∷ ys) h = elim (Bool-cases (le x y)) [
    | inl e ↦
        rw e
          ((e, All-mono (λ z. le y z ≡ true) (λ z. le x z ≡ true) (λ z. trans x y z e) ys h.0), h)
    | inr e ↦ rw e (
      All-insert_sorted le (λ z. le y z ≡ true) x ys (total x y e) h.0,
      insert_sorted-IsSorted x ys h.1,
    )
  ]

  pub sort-IsSorted : (xs : List A) → IsSorted le (sort le xs)
  unfolding sort
  sort-IsSorted [] = tt
  sort-IsSorted (x ∷ xs) = insert_sorted-IsSorted x (sort le xs) (sort-IsSorted xs)

-- Sorting by a key is sorting of the images: a map that the order does not see commutes with it.
module _ {ℓ κ} {A : Type ℓ} {B : Type κ} (le : A → A → Bool) (le' : B → B → Bool) (f : A → B)
    (same : (x y : A) → le' (f x) (f y) ≡ le x y) where
  map-insert_sorted :
      (x : A) (ys : List A) → map f (insert_sorted le x ys) ≡ insert_sorted le' (f x) (map f ys)
  unfolding insert_sorted
  map-insert_sorted x [] = refl
  map-insert_sorted x (y ∷ ys) = elim (Bool-cases (le x y)) [
    | inl e ↦ rw (same x y, e)
    | inr e ↦ rw (same x y, e) (ap (◌∷◌ (f y)) (map-insert_sorted x ys))
  ]

  pub map-sort : (xs : List A) → map f (sort le xs) ≡ sort le' (map f xs)
  unfolding sort
  map-sort [] = refl
  map-sort (x ∷ xs) = map-insert_sorted x (sort le xs) ∙ ap (insert_sorted le' (f x)) (map-sort xs)

-- Sorting keeps the values of a key apart.
module _ {ℓ κ} {A : Type ℓ} {B : Type κ} ⦃e : Eq B⦄ (le : A → A → Bool) (f : A → B) where
  contains-insert_sorted :
      (b : B) (x : A) (ys : List A)
      → contains b (map f (insert_sorted le x ys)) ≡ (b == f x || contains b (map f ys))
  unfolding insert_sorted
  contains-insert_sorted b x [] = refl
  contains-insert_sorted b x (y ∷ ys) = elim (Bool-cases (le x y)) [
    | inl q ↦ rw q
    | inr q ↦ rw q (ground (arith, contains-insert_sorted b x ys))
  ]

  IsNodup-insert_sorted :
      (x : A) (ys : List A)
      → contains (f x) (map f ys) ≡ false
      → IsNodup (map f ys)
      → IsNodup (map f (insert_sorted le x ys))
  unfolding insert_sorted
  IsNodup-insert_sorted x [] fresh h = (refl, tt)
  IsNodup-insert_sorted x (y ∷ ys) fresh h = elim (Bool-cases (le x y)) [
    | inl q ↦ rw q (fresh, h)
    | inr q ↦ rw q (
      ground (
        arith,
        contains-insert_sorted (f y) x ys,
        e.same_iff (f y) (f x),
        e.same_iff (f x) (f y),
        h.0,
      ),
      IsNodup-insert_sorted x ys (ground arith) h.1,
    )
  ]

  pub contains-map-sort :
      (b : B) (xs : List A) → contains b (map f (sort le xs)) ≡ contains b (map f xs)
  unfolding sort
  contains-map-sort b [] = refl
  contains-map-sort b (x ∷ xs) =
      contains-insert_sorted b x (sort le xs) ∙ ap (λ t. b == f x || t) (contains-map-sort b xs)

  pub IsNodup-map-sort : (xs : List A) → IsNodup (map f xs) → IsNodup (map f (sort le xs))
  unfolding sort
  IsNodup-map-sort [] h = tt
  IsNodup-map-sort (x ∷ xs) h =
      IsNodup-insert_sorted x (sort le xs) (contains-map-sort (f x) xs ∙ h.0)
        (IsNodup-map-sort xs h.1)

module _ {ℓ} {A : Type ℓ} (le : A → A → Bool) where
  All-self : (xs : List A) → All (λ a. Among a xs) xs
  All-self [] = tt
  All-self (x ∷ xs) =
      (inl refl, All-mono (λ a. Among a xs) (λ a. Among a (x ∷ xs)) (λ a m. inr m) xs (All-self xs))

  pub Among-sort : (a : A) (xs : List A) → Among a xs → Among a (sort le xs)
  Among-sort a xs m =
      All-Among (λ b. Among b (sort le xs)) a xs
        (sort-All le (λ b. Among b (sort le xs)) xs (All-self (sort le xs))) m

-- What does not change when two neighbours are swapped does not change by sorting.
module _ {ℓ κ} {A : Type ℓ} {B : Type κ} (le : A → A → Bool) (g : List A → B)
    (cong : (x : A) (xs ys : List A) → g xs ≡ g ys → g (x ∷ xs) ≡ g (x ∷ ys))
    (swap : (x y : A) (xs : List A) → g (x ∷ y ∷ xs) ≡ g (y ∷ x ∷ xs)) where
  insert_sorted-same : (x : A) (ys : List A) → g (insert_sorted le x ys) ≡ g (x ∷ ys)
  unfolding insert_sorted
  insert_sorted-same x [] = refl
  insert_sorted-same x (y ∷ ys) = elim (Bool-cases (le x y)) [
    | inl e ↦ rw e
    | inr e ↦ rw e (cong y (insert_sorted le x ys) (x ∷ ys) (insert_sorted-same x ys) ∙ swap y x ys)
  ]

  pub sort-same : (xs : List A) → g (sort le xs) ≡ g xs
  unfolding sort
  sort-same [] = refl
  sort-same (x ∷ xs) = insert_sorted-same x (sort le xs) ∙ cong x (sort le xs) xs (sort-same xs)

-- Numbers are put in one after the other in any order.
insert_sorted_comm :
    (m n : ℕ) (xs : List ℕ)
    → insert_sorted leb m (insert_sorted leb n xs) ≡ insert_sorted leb n (insert_sorted leb m xs)
unfolding insert_sorted
insert_sorted_comm m n [] = ground arith
insert_sorted_comm m n (x ∷ xs) = ground (arith, insert_sorted_comm m n xs)

pub sort_swap : (m n : ℕ) (xs : List ℕ) → sort leb (m ∷ n ∷ xs) ≡ sort leb (n ∷ m ∷ xs)
unfolding sort
sort_swap m n xs = insert_sorted_comm m n (sort leb xs)

pub sort_cons :
    (n : ℕ) (xs ys : List ℕ) → sort leb xs ≡ sort leb ys → sort leb (n ∷ xs) ≡ sort leb (n ∷ ys)
unfolding sort
sort_cons n xs ys h = ap (insert_sorted leb n) h
