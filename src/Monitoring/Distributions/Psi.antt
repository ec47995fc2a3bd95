-- ===== src/Monitoring/Distributions/Psi.antt =====
-- monitoring/distributions.py: `_percentile` and `psi`. `bisect.bisect_right` of the standard
-- library answers, on a sorted list, how many elements are at most the value.
pub mod Bins
use sentinel_aegis_forge.Common.{
  range, ℕ, zero, suc, ◌+◌, ◌-◌, Bool, not, ◌&&◌, ◌||◌, Option, none, some, List, [], ◌∷◌, arith,
  ltb, nat_beq, if◌then◌else◌, Eq, nat_eq, string_eq, pair_eq, list_eq, length, select, to_set,
  Result, ok, err, ◌>>=◌, ◌>>◌, raise_if, sort,
}
use sentinel_aegis_forge.Monitoring.Distributions.{
  Floats, MonitoringError, bad_bins, index_error, Value, empty_cohort, degenerate_reference,
  insufficient_bins, Metric, available, unavailable, finite,
}

-- `xs[i]`
abbrev nth {ℓ} : {A : Type ℓ} → ℕ → List A → Option A
nth i [] = none
nth zero (x ∷ xs) = some x
nth (suc i) (x ∷ xs) = nth i xs

indexed : {A : Type 0} → Option A → Result MonitoringError A
indexed none = err index_error
indexed (some a) = ok a

-- `counts[i] += 1`; the bins are as many as the positions of `bisect_right`
unfoldable pub bump : ℕ → List ℕ → List ℕ
bump i [] = []
bump zero (c ∷ cs) = suc c ∷ cs
bump (suc i) (c ∷ cs) = c ∷ bump i cs

-- the dict that `psi` returns where the value is available
pub record Psi (F : Type 0) : Type 0 where
  pub value : F
  pub boundaries : List F
  pub effective_bin_count : ℕ
  pub reference_counts : List ℕ
  pub comparison_counts : List ℕ

module _ {F : Type 0} (fl : Floats F) where
  -- `_percentile`
  unfoldable pub percentile : List F → F → Result MonitoringError F
  unfolding indexed
  percentile sorted_values fraction = do
    let position = fl.multiply (fl.of_nat (length sorted_values - 1)) fraction
    let lower = fl.floor position
    a ← indexed (nth lower sorted_values)
    b ← indexed (nth (fl.ceiling position) sorted_values)
    ok (fl.add a (fl.multiply (fl.subtract b a) (fl.subtract position (fl.of_nat lower))))

  -- the percentiles at `index / bins` for some indices
  unfoldable edges : List F → ℕ → List ℕ → Result MonitoringError (List F)
  unfolding percentile
  edges left bins [] = ok []
  edges left bins (index ∷ rest) = do
    edge ← percentile left (fl.divide (fl.of_nat index) (fl.of_nat bins))
    others ← edges left bins rest
    ok (edge ∷ others)

  -- `bisect.bisect_right(boundaries, value)`
  unfoldable pub bisect_right : List F → F → ℕ
  bisect_right [] value = 0
  bisect_right (edge ∷ rest) value =
      if fl.at_most edge value then suc (bisect_right rest value) else 0

  -- `for value in values: counts[bisect.bisect_right(boundaries, value)] += 1`
  unfoldable pub histogram : List F → List F → List ℕ → List ℕ
  unfolding bump
  histogram boundaries [] counts = counts
  histogram boundaries (v ∷ vs) counts =
      histogram boundaries vs (bump (bisect_right boundaries v) counts)

  -- `[0] * n`
  abbrev pub zeros : ℕ → List ℕ
  zeros zero = []
  zeros (suc n) = 0 ∷ zeros n

  -- the sum over the bins, for cohorts of `n` and `m` and `k` bins
  psi_sum : F → ℕ → ℕ → ℕ → List ℕ → List ℕ → F → F
  psi_sum smoothing n m k (a ∷ later) (b ∷ rest) result =
      let share = λ (c total : ℕ).
        fl.divide (fl.add (fl.of_nat c) smoothing)
          (fl.add (fl.of_nat total) (fl.multiply smoothing (fl.of_nat k))) in
      let p = share a n in
      let q = share b m in
      psi_sum smoothing n m k later rest
        (fl.add result (fl.multiply (fl.subtract q p) (fl.log (fl.divide q p))))
  psi_sum smoothing n m k _ _ result = result

  -- the end of `psi`, with the boundaries in place
  unfoldable pub psi_with : F → List F → List F → List F → Psi F
  unfolding histogram psi_sum
  psi_with smoothing left right boundaries =
      let bins = length boundaries + 1 in
      let counts_left = histogram boundaries left (zeros bins) in
      let counts_right = histogram boundaries right (zeros bins) in
      record {
        value =
            psi_sum smoothing (length left) (length right) bins counts_left counts_right
              (fl.of_nat 0);
        boundaries = boundaries;
        effective_bin_count = bins;
        reference_counts = counts_left;
        comparison_counts = counts_right;
      }

module _ {F : Type 0} where
  abbrev pub last : F → List F → F
  last x [] = x
  last x (y ∷ ys) = last y ys

  -- `left[0] < edge < left[-1]`
  abbrev pub is_inside : Floats F → F → F → F → Bool
  is_inside fl lowest highest edge = not (fl.at_most edge lowest) && not (fl.at_most highest edge)

module _ {F : Type 0} ⦃e : Eq F⦄ (fl : Floats F) where
  unfoldable pub metric_of : F → List F → List F → List F → Metric (Psi F)
  unfolding psi_with
  metric_of smoothing left right boundaries =
      if ltb (length (to_set left)) 2
      then unavailable degenerate_reference
      else if nat_beq (length boundaries) 0
      then unavailable insufficient_bins
      else available (psi_with fl smoothing left right boundaries)

  unfoldable pub psi_of : ℕ → F → List F → List F → Result MonitoringError (Metric (Psi F))
  unfolding edges metric_of
  psi_of bins smoothing [] right = ok (unavailable empty_cohort)
  psi_of bins smoothing (x ∷ xs) [] = ok (unavailable empty_cohort)
  psi_of bins smoothing (x ∷ xs) (y ∷ ys) = do
    let left = x ∷ xs
    found ← edges fl left bins (range 1 (bins - 1))
    let boundaries = sort fl.at_most (select (is_inside fl x (last x xs)) (to_set found))
    ok (metric_of smoothing left (y ∷ ys) boundaries)

  -- `psi`; `smoothing` is a finite float
  unfoldable pub psi :
      List (Value F) → List (Value F) → ℕ → F → Result MonitoringError (Metric (Psi F))
  unfolding psi_of
  psi reference comparison bins smoothing = do
    raise_if (ltb bins 2 || fl.at_most smoothing (fl.of_nat 0)) bad_bins
    left ← finite fl reference
    right ← finite fl comparison
    psi_of bins smoothing left right
