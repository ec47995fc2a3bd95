-- ===== src/Monitoring/Distributions/Categories/Counted.antt =====
-- What the counts of `categorical_comparison` are, read off the two cohorts.
use sentinel_aegis_forge.Common.{
  contains-map-sort, ℕ, ◌+◌, String, ◌≡◌, refl, sym, ap, ◌∙◌, subst, fun_ext, inl, inr, Bool, true,
  false, not, ◌&&◌, ◌||◌, some, List, [], ◌∷◌, ◌++◌, map, arith, eq_iff, nat_beq, if◌then◌else◌,
  Bool-cases, ◌==◌, nat_eq, string_eq, pair_eq, list_eq, length, any, select, count, contains,
  to_set, Dict, lookup, insert, keys, lookup-insert, contains-append, contains-keys-insert, ok,
  raise_if, >>=-eq-ok, ok-eq, text_leb, sort,
}
use sentinel_aegis_forge.Monitoring.Distributions.{
  Metric, Floats, reserved_category, nonstring_value,
}
use sentinel_aegis_forge.Monitoring.Distributions.Categories.{
  Distances, distances_of, new_category, is_reserved, is_nonstring, or_zero, Cell, category,
  number_of, counter_from, names_of, NewCategory, Comparison, is_new, compare_counts,
  categorical_comparison,
}

-- how many rows of a cohort are in a category
abbrev pub rows_in : List Cell → String → ℕ
rows_in rows name = count (λ s. s == name) (map category rows)

-- in the second cohort, and not in the first
abbrev pub is_only_in : List Cell → List Cell → String → Bool
is_only_in second first name =
    nat_beq (rows_in first name) 0 && not (nat_beq (rows_in second name) 0)

number_of-insert :
    (name x : String) (n : ℕ) (d : Dict String ℕ)
    → number_of name (insert x n d) ≡ (if name == x then n else number_of name d)
number_of-insert name x n d = ap or_zero (lookup-insert x name n d) ∙ branches (name == x)
  where
    branches :
        (b : Bool)
        → or_zero (if b then some n else lookup name d) ≡ (if b then n else number_of name d)
    branches true = refl
    branches false = refl

number_of-counter_from :
    (name : String) (d : Dict String ℕ) (xs : List String)
    → number_of name (counter_from d xs) ≡ number_of name d + count (λ s. s == name) xs
unfolding counter_from
number_of-counter_from name d [] = omega arith
number_of-counter_from name d (x ∷ xs) =
    let rest = number_of-counter_from name (insert x (number_of x d + 1) d) xs in
    let first = number_of-insert name x (number_of x d + 1) d in
    elim (Bool-cases (x == name)) [
      | inl same ↦
          let e : x ≡ name = (eq_iff x name).0 same in
          let f : number_of name (insert x (number_of x d + 1) d) ≡ number_of x d + 1 =
            rw (first, (eq_iff name x).1 (sym e)) in
          let g : number_of x d ≡ number_of name d = ap (λ t. number_of t d) e in
          rw same (omega (arith, rest, f, g))
      | inr other ↦
          let f : number_of name (insert x (number_of x d + 1) d) ≡ number_of name d =
            rw (first, apart x name other) in
          rw other (omega (arith, rest, f))
    ]
  where
    apart : (x name : String) → (x == name) ≡ false → (name == x) ≡ false
    apart x name h = ground (arith, eq_iff x name, eq_iff name x)

keys-counter_from :
    (name : String) (d : Dict String ℕ) (xs : List String)
    → contains name (keys (counter_from d xs)) ≡ (contains name (keys d) || contains name xs)
unfolding counter_from
keys-counter_from name d [] = or_false (contains name (keys d))
  where
    or_false : (b : Bool) → b ≡ (b || false)
    or_false true = refl
    or_false false = refl
keys-counter_from name d (x ∷ xs) = ground (
  arith,
  keys-counter_from name (insert x (number_of x d + 1) d) xs,
  contains-keys-insert x name (number_of x d + 1) d,
)

-- The counts of two cohorts: each name that is listed has the number of its rows in each, every
-- row's category is listed, and a category is new, or has disappeared, exactly where the other
-- cohort has no row of it.
pub record IsCounted {F : Type 0} (reference comparison : List Cell) (c : Comparison F)
    : Type 0 where
  pub names : List String
  pub reference_counts : c.reference_counts ≡ map (λ name. (name, rows_in reference name)) names
  pub comparison_counts : c.comparison_counts ≡ map (λ name. (name, rows_in comparison name)) names
  pub listed :
      (name : String)
      → contains name names
        ≡ (contains name (map category reference) || contains name (map category comparison))
  pub appeared :
      map {B = String × ℕ} (λ (n : NewCategory F). (n.name, n.number)) c.new_categories
      ≡ map
          (λ name. (name, rows_in comparison name))
          (select (is_only_in comparison reference) names)
  pub disappeared : c.disappeared_categories ≡ select (is_only_in reference comparison) names

contains-to_set : (a : String) (xs : List String) → contains a (to_set xs) ≡ contains a xs
contains-to_set a [] = refl
contains-to_set a (x ∷ xs) = elim (Bool-cases (contains x xs)) [
  | inl again ↦ rw again (elim (Bool-cases (a == x)) [
    | inl same ↦
        let e : a ≡ x = (eq_iff a x).0 same in
        rw same (contains-to_set a xs ∙ ap (λ t. contains t xs) e ∙ again)
    | inr other ↦ rw other (contains-to_set a xs)
  ])
  | inr fresh ↦ rw fresh (ap (λ t. (a == x) || t) (contains-to_set a xs))
]

contains-sort : (a : String) (xs : List String) → contains a (sort text_leb xs) ≡ contains a xs
contains-sort a xs =
    ap (contains a) (sym (map_id (sort text_leb xs)))
    ∙ contains-map-sort text_leb (λ s. s) a xs
    ∙ ap (contains a) (map_id xs)
  where
    map_id : (ys : List String) → map (λ s. s) ys ≡ ys
    map_id [] = refl
    map_id (y ∷ ys) = ap (◌∷◌ y) (map_id ys)

-- where `g` counts something and `f` nothing
abbrev only : (g f : String → ℕ) → String → Bool
only g f name = nat_beq (f name) 0 && not (nat_beq (g name) 0)

module _ {F : Type 0} (fl : Floats F) where
  new-counts :
      (b : Dict String ℕ) (m : ℕ) (names : List String)
      → map {B = String × ℕ}
          (λ (n : NewCategory F). (n.name, n.number))
          (map (new_category fl b m) names)
        ≡ map (λ name. (name, number_of name b)) names
  unfolding new_category
  new-counts b m [] = refl
  new-counts b m (name ∷ names) = ap (◌∷◌ (name, number_of name b)) (new-counts b m names)

  compare_counts-IsCounted :
      (reference comparison : List Cell) (distances : Metric (Distances F))
      → IsCounted reference comparison (
          compare_counts fl
            (counter_from [] (map category reference))
            (counter_from [] (map category comparison))
            (length reference)
            (length comparison)
            distances)
  unfolding compare_counts
  compare_counts-IsCounted reference comparison distances =
      let a = counter_from [] (map category reference) in
      let b = counter_from [] (map category comparison) in
      let of_a : (λ name. number_of name a) ≡ rows_in reference =
        fun_ext (λ name. zero_plus (number_of-counter_from name [] (map category reference))) in
      let of_b : (λ name. number_of name b) ≡ rows_in comparison =
        fun_ext (λ name. zero_plus (number_of-counter_from name [] (map category comparison))) in
      record {
        names = names_of a b;
        reference_counts =
            ap (λ (f : String → ℕ). map {B = String × ℕ} (λ name. (name, f name)) (names_of a b))
              of_a;
        comparison_counts =
            ap (λ (f : String → ℕ). map {B = String × ℕ} (λ name. (name, f name)) (names_of a b))
              of_b;
        listed = λ name.
            contains-sort name (to_set (keys a ++ keys b))
            ∙ contains-to_set name (keys a ++ keys b)
            ∙ contains-append name (keys a) (keys b)
            ∙ ap (λ t. t || contains name (keys b))
                (keys-counter_from name [] (map category reference))
            ∙ ap (λ t. contains name (map category reference) || t)
                (keys-counter_from name [] (map category comparison));
        appeared =
            new-counts b (length comparison) (select (is_new a b) (names_of a b))
            ∙ ap
                (λ (f : String → ℕ).
                  map {B = String × ℕ} (λ name. (name, number_of name b))
                    (select (only (λ name. number_of name b) f) (names_of a b)))
                of_a
            ∙ ap
                (λ (g : String → ℕ).
                  map {B = String × ℕ} (λ name. (name, g name))
                    (select (only g (rows_in reference)) (names_of a b)))
                of_b;
        disappeared =
            ap (λ (f : String → ℕ). select (only f (λ name. number_of name b)) (names_of a b)) of_a
            ∙ ap (λ (g : String → ℕ). select (only (rows_in reference) g) (names_of a b)) of_b;
      }
    where
      zero_plus : {n m : ℕ} → n ≡ 0 + m → n ≡ m
      zero_plus h = omega arith

  -- Where `categorical_comparison` returns, the counts of the categories are the numbers of rows of
  -- each cohort, a null row under its own name; the names listed are those of the rows of either
  -- cohort; the new categories, with their counts, are those that only the comparison has, and the
  -- disappeared ones those that only the reference has.
  pub categorical_comparison-IsCounted :
      (reference comparison : List Cell) (minimum_rows : ℕ) (c : Comparison F)
      → categorical_comparison fl reference comparison minimum_rows ≡ ok c
      → IsCounted reference comparison c
  unfolding categorical_comparison
  categorical_comparison-IsCounted reference comparison minimum_rows c h =
      let rows = reference ++ comparison in
      let (_, _, h) = >>=-eq-ok (raise_if (any is_reserved rows) reserved_category) _ h in
      let (_, _, h) = >>=-eq-ok (raise_if (any is_nonstring rows) nonstring_value) _ h in
      let a = counter_from [] (map category reference) in
      let b = counter_from [] (map category comparison) in
      let (distances, _, h) =
        >>=-eq-ok
          (distances_of fl a b (length reference) (length comparison) minimum_rows (names_of a b)) _
          h in
      subst (IsCounted reference comparison) (ok-eq h)
        (compare_counts-IsCounted reference comparison distances)
