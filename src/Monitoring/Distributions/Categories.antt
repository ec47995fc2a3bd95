-- ===== src/Monitoring/Distributions/Categories.antt =====
-- monitoring/distributions.py, `categorical_comparison`: the counts of the categories of two
-- cohorts, the new and the disappeared ones. Shares and distances are floats of `Floats`.
pub mod Counted
use sentinel_aegis_forge.Common.{
  ℕ, ◌+◌, String, Bool, true, false, not, ◌&&◌, ◌||◌, Option, none, some, List, [], ◌∷◌, ◌++◌, map,
  arith, ltb, nat_beq, if◌then◌else◌, ◌==◌, nat_eq, string_eq, pair_eq, list_eq, length, any,
  select, to_set, Dict, lookup, insert, keys, Result, ok, err, ◌>>=◌, ◌>>◌, raise_if, text_leb,
  sort,
}
use sentinel_aegis_forge.Monitoring.Distributions.{
  Floats, MonitoringError, type_error, reserved_category, nonstring_value, insufficient_rows,
  Metric, available, unavailable,
}

-- a value of the column: null, a string, or something else
pub data Cell : Type 0 where
  null nonstring : Cell
  named : String → Cell

-- `MISSING_CATEGORY`
abbrev pub missing_category : String
missing_category = "<MISSING>"

abbrev is_reserved : Cell → Bool
is_reserved (named s) = s == missing_category
is_reserved _ = false

abbrev is_nonstring : Cell → Bool
is_nonstring nonstring = true
is_nonstring _ = false

-- `MISSING_CATEGORY if value is None else value`
abbrev pub category : Cell → String
category (named s) = s
category _ = missing_category

-- `a[name]` of a `Counter`
abbrev pub or_zero : Option ℕ → ℕ
or_zero none = 0
or_zero (some n) = n

abbrev pub number_of : String → Dict String ℕ → ℕ
number_of name d = or_zero (lookup name d)

-- `Counter(xs)`
unfoldable pub counter_from : Dict String ℕ → List String → Dict String ℕ
counter_from d [] = d
counter_from d (x ∷ xs) = counter_from (insert x (number_of x d + 1) d) xs

-- `sorted(set(a) | set(b))`
abbrev pub names_of : Dict String ℕ → Dict String ℕ → List String
names_of a b = sort text_leb (to_set (keys a ++ keys b))

-- `{name: a[name] for name in names}`
abbrev counts_of : Dict String ℕ → List String → Dict String ℕ
counts_of a names = map (λ name. (name, number_of name a)) names

pub record NewCategory (F : Type 0) : Type 0 where
  pub name : String
  pub number : ℕ
  pub share : F

pub record Distances (F : Type 0) : Type 0 where
  pub tvd : F
  pub js_divergence_base2 : F

pub record Comparison (F : Type 0) : Type 0 where
  pub reference_counts : Dict String ℕ
  pub comparison_counts : Dict String ℕ
  pub reference_proportions : Dict String (Option F)
  pub comparison_proportions : Dict String (Option F)
  pub new_categories : List (NewCategory F)
  pub disappeared_categories : List String
  pub distances : Metric (Distances F)

-- `not a[n] and b[n]`
abbrev pub is_new : Dict String ℕ → Dict String ℕ → String → Bool
is_new a b name = nat_beq (number_of name a) 0 && not (nat_beq (number_of name b) 0)

module _ {F : Type 0} (fl : Floats F) where
  -- `a[name] / len(rows) if rows else None`
  proportion : Dict String ℕ → ℕ → String → Option F
  proportion a total name =
      if nat_beq total 0
      then none
      else some (fl.divide (fl.of_nat (number_of name a)) (fl.of_nat total))

  half : F → F
  half x = fl.divide x (fl.of_nat 2)

  -- `0.5 * sum(abs(p - q))`
  tvd_from : Dict String ℕ → Dict String ℕ → ℕ → ℕ → List String → F → F
  tvd_from a b n m [] total = total
  tvd_from a b n m (name ∷ rest) total =
      let p = fl.divide (fl.of_nat (number_of name a)) (fl.of_nat n) in
      let q = fl.divide (fl.of_nat (number_of name b)) (fl.of_nat m) in
      tvd_from a b n m rest (fl.add total (fl.absolute (fl.subtract p q)))

  -- the term of one share: `0.5 * p * math.log2(p / midpoint)` where the count is not 0
  js_term : ℕ → F → F → F → F
  js_term occurrences p midpoint js =
      if nat_beq occurrences 0
      then js
      else fl.add js (fl.multiply (half p) (fl.log2 (fl.divide p midpoint)))

  js_from : Dict String ℕ → Dict String ℕ → ℕ → ℕ → List String → F → F
  unfolding half js_term
  js_from a b n m [] js = js
  js_from a b n m (name ∷ rest) js =
      let p = fl.divide (fl.of_nat (number_of name a)) (fl.of_nat n) in
      let q = fl.divide (fl.of_nat (number_of name b)) (fl.of_nat m) in
      let midpoint = half (fl.add p q) in
      js_from a b n m rest
        (js_term (number_of name b) q midpoint (js_term (number_of name a) p midpoint js))

  new_category : Dict String ℕ → ℕ → String → NewCategory F
  new_category b m name = record {
    name = name;
    number = number_of name b;
    share = fl.divide (fl.of_nat (number_of name b)) (fl.of_nat m);
  }

  -- the tests of `len(reference)` and `len(comparison)` and the two sums; a share of an empty
  -- cohort is `None`, which has no difference
  distances_of :
      Dict String ℕ
      → Dict String ℕ
      → ℕ
      → ℕ
      → ℕ
      → List String
      → Result MonitoringError (Metric (Distances F))
  unfolding half tvd_from js_from
  distances_of a b n m minimum names =
      if ltb n minimum || ltb m minimum
      then ok (unavailable insufficient_rows)
      else if (nat_beq n 0 || nat_beq m 0) && not (nat_beq (length names) 0)
      then err type_error
      else ok (
          available (record {
            tvd = half (tvd_from a b n m names (fl.of_nat 0));
            js_divergence_base2 = js_from a b n m names (fl.of_nat 0);
          }))

  unfoldable pub compare_counts :
      Dict String ℕ → Dict String ℕ → ℕ → ℕ → Metric (Distances F) → Comparison F
  unfolding proportion new_category
  compare_counts a b n m distances =
      let names = names_of a b in
      record {
        reference_counts = counts_of a names;
        comparison_counts = counts_of b names;
        reference_proportions = map (λ name. (name, proportion a n name)) names;
        comparison_proportions = map (λ name. (name, proportion b m name)) names;
        new_categories = map (new_category b m) (select (is_new a b) names);
        disappeared_categories = select (is_new b a) names;
        distances = distances;
      }

  -- `categorical_comparison`
  unfoldable pub categorical_comparison :
      List Cell → List Cell → ℕ → Result MonitoringError (Comparison F)
  unfolding counter_from compare_counts distances_of
  categorical_comparison reference comparison minimum_rows = do
    raise_if (any is_reserved (reference ++ comparison)) reserved_category
    raise_if (any is_nonstring (reference ++ comparison)) nonstring_value
    let a = counter_from [] (map category reference)
    let b = counter_from [] (map category comparison)
    distances ← distances_of a b (length reference) (length comparison) minimum_rows (names_of a b)
    ok (compare_counts a b (length reference) (length comparison) distances)
