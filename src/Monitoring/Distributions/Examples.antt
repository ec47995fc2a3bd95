-- ===== src/Monitoring/Distributions/Examples.antt =====
-- Tests and witnesses: cohorts of hundredths, with fixed-point arithmetic in place of floats.
use Prim.Native.Nat.{◌/◌}
use sentinel_aegis_forge.Common.{
  ℕ, ◌+◌, ◌-◌, ◌*◌, ◌≤◌, ◌≡◌, refl, false, List, [], ◌∷◌, arith, leb, nat_eq, string_eq, pair_eq,
  list_eq, ok, err, text_leb, sort,
}
use sentinel_aegis_forge.Monitoring.Distributions.{
  Floats, IsOrdered, Value, missing, number, nonnumeric, Metric, available, nonnumeric_value,
  finite,
}
use sentinel_aegis_forge.Monitoring.Distributions.Ks.{ks_distance}
use sentinel_aegis_forge.Monitoring.Distributions.Ks.Supremum.{IsDistance, IsKs, ks_distance-IsKs}
use sentinel_aegis_forge.Monitoring.Distributions.Psi.{bisect_right, psi, Psi}
use sentinel_aegis_forge.Monitoring.Distributions.Psi.Bins.{IsBinned, IsPsi, psi-IsPsi}
use sentinel_aegis_forge.Monitoring.Distributions.Categories.{
  Cell, null, named, Comparison, categorical_comparison,
}
use sentinel_aegis_forge.Monitoring.Distributions.Categories.Counted.{
  IsCounted, categorical_comparison-IsCounted,
}
use sentinel_aegis_forge.Monitoring.Distributions.Numeric.{
  NumericComparison, numeric_comparison, numeric_summary,
}
use sentinel_aegis_forge.Monitoring.Distributions.Numeric.Supported.{
  IsMeasured, numeric_comparison-IsMeasured,
}

abbrev hundredths : Floats ℕ
hundredths = record {
  at_most = leb;
  of_nat = λ n. n * 100;
  add = λ a b. a + b;
  subtract = λ a b. a - b;
  multiply = λ a b. a * b / 100;
  divide = λ a b. a * 100 / b;
  absolute = λ a. a;
  floor = λ a. a / 100;
  ceiling = λ a. (a + 99) / 100;
  log = λ a. a;
  log2 = λ a. a;
}

hundredths-IsOrdered : IsOrdered hundredths
hundredths-IsOrdered = record { total = λ x y h. ground arith; trans = λ x y z h k. ground arith }

abbrev reference : List (Value ℕ)
reference = number 300 ∷ missing ∷ number 100 ∷ number 200 ∷ number 400 ∷ []

abbrev comparison : List (Value ℕ)
comparison = number 250 ∷ number 500 ∷ []

unfoldable measured : (m : Metric ℕ) × (ks_distance hundredths reference comparison ≡ ok m)
unfolding ks_distance finite sort
measured = (_, refl)

measured_value : measured.0 ≡ available 50
unfolding measured
measured_value = refl

not_a_number : ks_distance hundredths (nonnumeric ∷ []) comparison ≡ err nonnumeric_value
unfolding ks_distance finite sort
not_a_number = refl

unfoldable binned : (m : Metric (Psi ℕ)) × (psi hundredths reference comparison 2 50 ≡ ok m)
unfolding psi finite sort
binned = (_, refl)

binned_value :
    binned.0
    ≡ available (record {
      value = 54;
      boundaries = 250 ∷ [];
      effective_bin_count = 2;
      reference_counts = 2 ∷ 2 ∷ [];
      comparison_counts = 0 ∷ 2 ∷ [];
    })
unfolding binned bisect_right
binned_value = refl

unfoldable compared :
    (c : NumericComparison ℕ) × (numeric_comparison hundredths
        (λ xs. 0)
        reference
        comparison
        2
        2
        2
        50
      ≡ ok c)
unfolding numeric_comparison numeric_summary ks_distance psi finite sort
compared = (_, refl)

abbrev countries : List Cell
countries = named "DE" ∷ null ∷ named "FR" ∷ named "DE" ∷ []

abbrev later_countries : List Cell
later_countries = named "IT" ∷ named "DE" ∷ null ∷ []

unfoldable counted :
    (c : Comparison ℕ) × (categorical_comparison hundredths countries later_countries 2 ≡ ok c)
unfolding categorical_comparison
counted = (_, refl)

counted_names :
    (counted.0.reference_counts ≡ ("<MISSING>", 1) ∷ ("DE", 2) ∷ ("FR", 1) ∷ ("IT", 0) ∷ [])
    × (counted.0.disappeared_categories ≡ "FR" ∷ [])
unfolding counted sort text_leb
counted_names = (refl, refl)

ks_distance-IsKs_example :
    (left : List ℕ) × (right : List ℕ) × (finite hundredths reference ≡ ok left)
    × (finite hundredths comparison ≡ ok right)
    × IsKs hundredths left right measured.0
ks_distance-IsKs_example =
    ks_distance-IsKs hundredths hundredths-IsOrdered reference comparison measured.0 measured.1

psi-IsPsi_example :
    (2 ≤ 2)
    × (leb 50 0 ≡ false)
    × ((left : List ℕ) × (right : List ℕ) × (finite hundredths reference ≡ ok left)
        × (finite hundredths comparison ≡ ok right)
        × IsPsi hundredths left right binned.0)
psi-IsPsi_example = psi-IsPsi hundredths reference comparison 2 50 binned.0 binned.1

categorical_comparison-IsCounted_example : IsCounted countries later_countries counted.0
categorical_comparison-IsCounted_example =
    categorical_comparison-IsCounted hundredths countries later_countries 2 counted.0 counted.1

numeric_comparison-IsMeasured_example :
    ((d : ℕ)
      → compared.0.ks_d ≡ available d
      → IsMeasured hundredths
          (λ xs. 0)
          reference
          comparison
          2
          2
          (λ left right. IsDistance hundredths left right d))
    × ((p : Psi ℕ)
        → compared.0.psi_metric ≡ available p
        → IsMeasured hundredths
            (λ xs. 0)
            reference
            comparison
            2
            2
            (λ left right. IsBinned hundredths left right p))
numeric_comparison-IsMeasured_example =
    numeric_comparison-IsMeasured hundredths (λ xs. 0) hundredths-IsOrdered reference comparison 2 2
      2 50 compared.0 compared.1
