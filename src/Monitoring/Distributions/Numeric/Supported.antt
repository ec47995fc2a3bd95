-- ===== src/Monitoring/Distributions/Numeric/Supported.antt =====
-- A metric of two cohorts is there only where both have the rows that were asked for.
use sentinel_aegis_forge.Common.{
  ℕ, ◌≤◌, ◌≡◌, refl, sym, ap, ◌∙◌, Bool, true, false, Option, none, some, List, [], ◌∷◌, arith, Eq,
  nat_eq, string_eq, pair_eq, list_eq, length, count, Result, ok, >>=-eq-ok, ok-eq, length-sort,
}
use sentinel_aegis_forge.Monitoring.Distributions.{
  Floats, IsOrdered, MonitoringError, Value, Reason, Metric, available, collect, finite, missing,
  nonnumeric, nonfinite, number,
}
use sentinel_aegis_forge.Monitoring.Distributions.Ks.{ks_distance}
use sentinel_aegis_forge.Monitoring.Distributions.Ks.Supremum.{IsDistance, ks_distance-IsKs}
use sentinel_aegis_forge.Monitoring.Distributions.Psi.{percentile, Psi, psi}
use sentinel_aegis_forge.Monitoring.Distributions.Psi.Bins.{IsBinned, psi-IsPsi}
use sentinel_aegis_forge.Monitoring.Distributions.Numeric.{
  Summary, NumericComparison, summary_of, numeric_summary, reason_of, unless, numeric_comparison,
  hundredths,
}

module _ {F : Type 0} where
  -- the rows that are finite numbers
  abbrev pub is_number : Value F → Bool
  is_number (number x) = true
  is_number _ = false

  length-collect :
      (values : List (Value F)) {xs : List F}
      → collect values ≡ ok xs
      → length xs ≡ count is_number values
  unfolding collect
  length-collect [] h = ap length (sym (ok-eq h))
  length-collect (missing ∷ rest) h = length-collect rest h
  length-collect (nonnumeric ∷ rest) h = cc
  length-collect (nonfinite ∷ rest) h = cc
  length-collect (number x ∷ rest) h =
      let (others, c, h) = >>=-eq-ok (collect rest) _ h in
      omega (arith, length-collect rest c, ap length (ok-eq h))

  length-finite :
      (fl : Floats F) (values : List (Value F)) {xs : List F}
      → finite fl values ≡ ok xs
      → length xs ≡ count is_number values
  unfolding finite
  length-finite fl values h =
      let (numbers, c, h) = >>=-eq-ok (collect values) _ h in
      ap length (sym (ok-eq h)) ∙ length-sort fl.at_most numbers ∙ length-collect values c

  -- Enough rows, and enough finite values among them.
  pub record IsSupported (minimum_rows minimum_non_null : ℕ) (values : List (Value F))
      : Type 0 where
    pub rows : minimum_rows ≤ length values
    pub numbers : minimum_non_null ≤ count is_number values

module _ {F : Type 0} (fl : Floats F) (fmean : List F → F) where
  summary_of-non_null :
      (total : ℕ) (xs : List F) {s : Summary F}
      → summary_of fl fmean total xs ≡ ok s
      → s.non_null ≡ length xs
  unfolding summary_of
  summary_of-non_null total [] h = ap (λ (s : Summary F). s.non_null) (sym (ok-eq h))
  summary_of-non_null total (x ∷ xs) h =
      let ordered = x ∷ xs in
      let (_, _, h) = >>=-eq-ok (percentile fl ordered (hundredths fl fmean 50)) _ h in
      let (_, _, h) = >>=-eq-ok (percentile fl ordered (hundredths fl fmean 5)) _ h in
      let (_, _, h) = >>=-eq-ok (percentile fl ordered (hundredths fl fmean 95)) _ h in
      ap (λ (s : Summary F). s.non_null) (sym (ok-eq h))

  numeric_summary-non_null :
      (values : List (Value F)) {s : Summary F}
      → numeric_summary fl fmean values ≡ ok s
      → s.non_null ≡ count is_number values
  unfolding numeric_summary
  numeric_summary-non_null values h =
      let (ordered, c, h) = >>=-eq-ok (finite fl values) _ h in
      summary_of-non_null (length values) ordered h ∙ length-finite fl values c

  reason_of-eq-none :
      (n m rows present_n present_m non_null : ℕ)
      → reason_of fl fmean n m rows present_n present_m non_null ≡ none
      → (rows ≤ n) × (rows ≤ m) × (non_null ≤ present_n) × (non_null ≤ present_m)
  unfolding reason_of
  reason_of-eq-none n m rows present_n present_m non_null h = ground arith

  unless-eq-available :
      {A : Type 0} (reason : Option Reason) (call : Result MonitoringError (Metric A)) (a : A)
      → unless fl fmean reason call ≡ ok (available a)
      → (reason ≡ none) × (call ≡ ok (available a))
  unfolding unless
  unless-eq-available none call a h = (refl, h)
  unless-eq-available (some r) call a h = cc

  module _ ⦃e : Eq F⦄ where
    -- What a metric that is there rests on: two supported cohorts and their ordered values.
    pub record IsMeasured (reference comparison : List (Value F))
        (minimum_rows minimum_non_null : ℕ) (P : List F → List F → Type 0) : Type 0 where
      pub reference_supported : IsSupported minimum_rows minimum_non_null reference
      pub comparison_supported : IsSupported minimum_rows minimum_non_null comparison
      pub left : List F
      pub right : List F
      pub left_values : finite fl reference ≡ ok left
      pub right_values : finite fl comparison ≡ ok right
      pub measured : P left right

    supported :
        (reference comparison : List (Value F)) (rows non_null : ℕ) (a b : Summary F)
        → numeric_summary fl fmean reference ≡ ok a
        → numeric_summary fl fmean comparison ≡ ok b
        → reason_of fl fmean
            (length reference)
            (length comparison)
            rows
            a.non_null
            b.non_null
            non_null
          ≡ none
        → IsSupported rows non_null reference × IsSupported rows non_null comparison
    supported reference comparison rows non_null a b ha hb h =
        let (r1, r2, r3, r4) =
          reason_of-eq-none (length reference) (length comparison) rows a.non_null b.non_null
            non_null h in
        let ca = numeric_summary-non_null reference ha in
        let cb = numeric_summary-non_null comparison hb in
        (record { rows = r1; numbers = omega arith }, record { rows = r2; numbers = omega arith })

    -- Where `<=` is a total order and `numeric_comparison` returns: if its KS distance is
    -- available, both cohorts have the rows and the finite values that were asked for, and it is
    -- the largest difference of their empirical distribution functions; if its PSI is available,
    -- the same support holds, and the bins part both cohorts.
    pub numeric_comparison-IsMeasured :
        (o : IsOrdered fl) (reference comparison : List (Value F))
        (minimum_rows minimum_non_null bins : ℕ) (smoothing : F) (c : NumericComparison F)
        → numeric_comparison fl fmean reference comparison minimum_rows minimum_non_null bins
            smoothing
          ≡ ok c
        → ((d : F)
            → c.ks_d ≡ available d
            → IsMeasured reference comparison minimum_rows minimum_non_null
                (λ left right. IsDistance fl left right d))
          × ((p : Psi F)
              → c.psi_metric ≡ available p
              → IsMeasured reference comparison minimum_rows minimum_non_null
                  (λ left right. IsBinned fl left right p))
    unfolding numeric_comparison
    numeric_comparison-IsMeasured o reference comparison rows non_null bins smoothing c h =
        let (a, ha, h) = >>=-eq-ok (numeric_summary fl fmean reference) _ h in
        let (b, hb, h) = >>=-eq-ok (numeric_summary fl fmean comparison) _ h in
        let reason =
          reason_of fl fmean (length reference) (length comparison) rows a.non_null b.non_null
            non_null in
        let (ks_d, hk, h) =
          >>=-eq-ok (unless fl fmean reason (ks_distance fl reference comparison)) _ h in
        let (psi_metric, hp, h) =
          >>=-eq-ok (unless fl fmean reason (psi fl reference comparison bins smoothing)) _ h in
        (
          λ d q.
              ks_part a b ha hb ks_d d hk (ap (λ (t : NumericComparison F). t.ks_d) (ok-eq h) ∙ q),
          λ p q.
              psi_part a b ha hb psi_metric p hp
                (ap (λ (t : NumericComparison F). t.psi_metric) (ok-eq h) ∙ q),
        )
      where
        ks_part :
            (a b : Summary F)
            → numeric_summary fl fmean reference ≡ ok a
            → numeric_summary fl fmean comparison ≡ ok b
            → (ks_d : Metric F) (d : F)
            → unless fl fmean
                (reason_of fl fmean
                  (length reference)
                  (length comparison)
                  rows
                  a.non_null
                  b.non_null
                  non_null)
                (ks_distance fl reference comparison)
              ≡ ok ks_d
            → ks_d ≡ available d
            → IsMeasured reference comparison rows non_null
                (λ left right. IsDistance fl left right d)
        ks_part a b ha hb ks_d d hk q =
            let (r, call) = unless-eq-available _ _ d (hk ∙ ap (λ t. ok t) q) in
            let (sa, sb) = supported reference comparison rows non_null a b ha hb r in
            let (left, right, hl, hr, m) =
              ks_distance-IsKs fl o reference comparison (available d) call in
            record {
              reference_supported = sa;
              comparison_supported = sb;
              left = left;
              right = right;
              left_values = hl;
              right_values = hr;
              measured = m;
            }

        psi_part :
            (a b : Summary F)
            → numeric_summary fl fmean reference ≡ ok a
            → numeric_summary fl fmean comparison ≡ ok b
            → (psi_metric : Metric (Psi F)) (p : Psi F)
            → unless fl fmean
                (reason_of fl fmean
                  (length reference)
                  (length comparison)
                  rows
                  a.non_null
                  b.non_null
                  non_null)
                (psi fl reference comparison bins smoothing)
              ≡ ok psi_metric
            → psi_metric ≡ available p
            → IsMeasured reference comparison rows non_null (λ left right. IsBinned fl left right p)
        psi_part a b ha hb psi_metric p hp q =
            let (r, call) = unless-eq-available _ _ p (hp ∙ ap (λ t. ok t) q) in
            let (sa, sb) = supported reference comparison rows non_null a b ha hb r in
            let (_, _, (left, right, hl, hr, m)) =
              psi-IsPsi fl reference comparison bins smoothing (available p) call in
            record {
              reference_supported = sa;
              comparison_supported = sb;
              left = left;
              right = right;
              left_values = hl;
              right_values = hr;
              measured = m;
            }
