-- ===== src/Monitoring/Distributions/Ks.antt =====
-- monitoring/distributions.py, `ks_distance`: one pass over the two sorted cohorts.
pub mod Supremum
use sentinel_aegis_forge.Common.{
  ℕ, ◌+◌, List, [], ◌∷◌, ◌++◌, arith, if◌then◌else◌, Eq, nat_eq, string_eq, pair_eq, list_eq,
  length, count, to_set, Result, ok, ◌>>=◌, ◌>>◌, sort,
}
use sentinel_aegis_forge.Monitoring.Distributions.{
  Floats, MonitoringError, Value, empty_cohort, Metric, available, unavailable, finite,
}

-- `i`, and what stands in the list from there on
pub record Cursor (F : Type 0) : Type 0 where
  pub passed : ℕ
  pub rest : List F

module _ {F : Type 0} (fl : Floats F) where
  -- `while i < len(left) and left[i] <= value: i += 1`
  unfoldable advance : F → ℕ → List F → Cursor F
  advance value i [] = record { passed = i; rest = [] }
  advance value i (x ∷ xs) =
      if fl.at_most x value then advance value (i + 1) xs else record { passed = i; rest = x ∷ xs }

  -- `abs(i / n - j / m)`
  abbrev pub gap : ℕ → ℕ → ℕ → ℕ → F
  gap n m i j =
      fl.absolute (
        fl.subtract (fl.divide (fl.of_nat i) (fl.of_nat n)) (fl.divide (fl.of_nat j) (fl.of_nat m)))

  -- `max(x, y)`
  abbrev pub larger : F → F → F
  larger x y = if fl.at_most y x then x else y

  -- the loop over the values, for cohorts of `n` and `m`
  unfoldable pub ks_from : ℕ → ℕ → List F → Cursor F → Cursor F → F → F
  unfolding advance
  ks_from n m [] left right distance = distance
  ks_from n m (value ∷ values) left right distance =
      let left' = advance value left.passed left.rest in
      let right' = advance value right.passed right.rest in
      ks_from n m values left' right' (larger distance (gap n m left'.passed right'.passed))

  -- how many values are at most `v`
  abbrev pub at_or_below : F → List F → ℕ
  at_or_below v xs = count (λ x. fl.at_most x v) xs

  -- the distance of the two empirical distribution functions at `v`
  abbrev pub cdf_gap : List F → List F → F → F
  cdf_gap left right v = gap (length left) (length right) (at_or_below v left) (at_or_below v right)

  -- the largest of the distances at some values, from `distance` on
  abbrev pub greatest_gap : List F → List F → List F → F → F
  greatest_gap left right [] distance = distance
  greatest_gap left right (v ∷ vs) distance =
      greatest_gap left right vs (larger distance (cdf_gap left right v))

module _ {F : Type 0} ⦃e : Eq F⦄ (fl : Floats F) where
  -- `sorted(set(left) | set(right))`
  abbrev pub points : List F → List F → List F
  points left right = sort fl.at_most (to_set (left ++ right))

  abbrev start : List F → Cursor F
  start xs = record { passed = 0; rest = xs }

  unfoldable pub ks_of : List F → List F → Metric F
  unfolding ks_from
  ks_of [] right = unavailable empty_cohort
  ks_of (x ∷ xs) [] = unavailable empty_cohort
  ks_of (x ∷ xs) (y ∷ ys) =
      let left = x ∷ xs in
      let right = y ∷ ys in
      available (
        ks_from fl (length left) (length right) (points left right) (start left) (start right)
          (fl.of_nat 0))

  -- `ks_distance`
  unfoldable pub ks_distance : List (Value F) → List (Value F) → Result MonitoringError (Metric F)
  unfolding ks_of
  ks_distance reference comparison = do
    left ← finite fl reference
    right ← finite fl comparison
    ok (ks_of left right)
