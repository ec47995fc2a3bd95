-- ===== src/Monitoring/Distributions/Numeric.antt =====
-- monitoring/distributions.py: `numeric_summary` and `numeric_comparison`. `statistics.fmean` of the
-- standard library is a parameter.
pub mod Supported
use sentinel_aegis_forge.Common.{
  ℕ, ◌-◌, ◌||◌, Option, none, some, List, [], ◌∷◌, arith, ltb, nat_beq, if◌then◌else◌, Eq, nat_eq,
  string_eq, pair_eq, list_eq, length, Result, ok, ◌>>=◌, ◌>>◌,
}
use sentinel_aegis_forge.Monitoring.Distributions.{
  Floats, MonitoringError, Value, Reason, insufficient_rows, insufficient_values, Metric,
  unavailable, finite,
}
use sentinel_aegis_forge.Monitoring.Distributions.Ks.{ks_distance}
use sentinel_aegis_forge.Monitoring.Distributions.Psi.{percentile, last, Psi, psi}

pub record Summary (F : Type 0) : Type 0 where
  pub rows : ℕ
  pub non_null : ℕ
  pub null : ℕ
  pub missing_fraction : Option F
  pub minimum : Option F
  pub maximum : Option F
  pub mean : Option F
  pub median : Option F
  pub p05 : Option F
  pub p95 : Option F

pub record NumericComparison (F : Type 0) : Type 0 where
  pub reference : Summary F
  pub comparison : Summary F
  pub missing_fraction_difference : Option F
  pub ks_d : Metric F
  pub psi_metric : Metric (Psi F)

module _ {F : Type 0} (fl : Floats F) (fmean : List F → F) where
  -- `(count - present) / count if count else None`
  fraction_missing : ℕ → ℕ → Option F
  fraction_missing total present =
      if nat_beq total 0
      then none
      else some (fl.divide (fl.of_nat (total - present)) (fl.of_nat total))

  hundredths : ℕ → F
  hundredths n = fl.divide (fl.of_nat n) (fl.of_nat 100)

  -- the dict, once the values are ordered
  unfoldable summary_of : ℕ → List F → Result MonitoringError (Summary F)
  unfolding fraction_missing hundredths
  summary_of total [] = ok (record {
    rows = total;
    non_null = 0;
    null = total;
    missing_fraction = fraction_missing total 0;
    minimum = none;
    maximum = none;
    mean = none;
    median = none;
    p05 = none;
    p95 = none;
  })
  summary_of total (x ∷ xs) = do
    let ordered = x ∷ xs
    median ← percentile fl ordered (hundredths 50)
    p05 ← percentile fl ordered (hundredths 5)
    p95 ← percentile fl ordered (hundredths 95)
    ok (record {
      rows = total;
      non_null = length ordered;
      null = total - length ordered;
      missing_fraction = fraction_missing total (length ordered);
      minimum = some x;
      maximum = some (last x xs);
      mean = some (fmean ordered);
      median = some median;
      p05 = some p05;
      p95 = some p95;
    })

  -- `numeric_summary`
  unfoldable pub numeric_summary : List (Value F) → Result MonitoringError (Summary F)
  unfolding summary_of
  numeric_summary values = do ordered ← finite fl values; summary_of (length values) ordered

  difference : Option F → Option F → Option F
  difference (some a) (some b) = some (fl.subtract b a)
  difference _ _ = none

  -- the ladder of `reason`
  unfoldable reason_of : ℕ → ℕ → ℕ → ℕ → ℕ → ℕ → Option Reason
  reason_of n m minimum_rows present_n present_m minimum_non_null =
      if ltb n minimum_rows || ltb m minimum_rows
      then some insufficient_rows
      else if ltb present_n minimum_non_null || ltb present_m minimum_non_null
      then some insufficient_values
      else none

  -- `unavailable if reason else call`
  unless :
      {A : Type 0}
      → Option Reason
      → Result MonitoringError (Metric A)
      → Result MonitoringError (Metric A)
  unless none call = call
  unless (some reason) call = ok (unavailable reason)

  module _ ⦃e : Eq F⦄ where
    -- `numeric_comparison`
    unfoldable pub numeric_comparison :
        List (Value F)
        → List (Value F)
        → ℕ
        → ℕ
        → ℕ
        → F
        → Result MonitoringError (NumericComparison F)
    unfolding numeric_summary difference reason_of unless
    numeric_comparison reference comparison minimum_rows minimum_non_null bins smoothing = do
      a ← numeric_summary reference
      b ← numeric_summary comparison
      let reason =
          reason_of (length reference) (length comparison) minimum_rows a.non_null b.non_null
            minimum_non_null
      ks_d ← unless reason (ks_distance fl reference comparison)
      psi_metric ← unless reason (psi fl reference comparison bins smoothing)
      ok (record {
        reference = a;
        comparison = b;
        missing_fraction_difference = difference a.missing_fraction b.missing_fraction;
        ks_d = ks_d;
        psi_metric = psi_metric;
      })
