-- ===== src/Monitoring/Distributions.antt =====
-- monitoring/distributions.py: the values of a cohort, and when a metric can be had. A value that
-- is a finite float is a `number`; the arithmetic of floats is a parameter, `Floats`.
pub mod Ks
pub mod Psi
pub mod Categories
pub mod Numeric
mod Examples
use sentinel_aegis_forge.Common.{
  ℕ, ◌≡◌, Bool, true, false, List, [], ◌∷◌, arith, nat_eq, string_eq, pair_eq, list_eq, Result, ok,
  err, ◌>>=◌, ◌>>◌, sort,
}

-- The operations on finite floats that the metrics use.
pub record Floats (F : Type 0) : Type 0 where
  pub at_most : F → F → Bool
  pub of_nat : ℕ → F
  pub add : F → F → F
  pub subtract : F → F → F
  pub multiply : F → F → F
  pub divide : F → F → F
  pub absolute : F → F
  pub floor : F → ℕ
  pub ceiling : F → ℕ
  pub log : F → F
  pub log2 : F → F

-- `<=` is a total order.
pub record IsOrdered {F : Type 0} (fl : Floats F) : Type 0 where
  pub total : (x y : F) → fl.at_most x y ≡ false → fl.at_most y x ≡ true
  pub trans : (x y z : F) → fl.at_most x y ≡ true → fl.at_most y z ≡ true → fl.at_most x z ≡ true

pub data MonitoringError : Type 0 where
  nonnumeric_value nonfinite_value bad_bins index_error reserved_category nonstring_value
        type_error :
      MonitoringError

pub data Value (F : Type 0) : Type 0 where
  missing nonnumeric nonfinite : Value F
  number : F → Value F

pub data Reason : Type 0 where
  empty_cohort degenerate_reference insufficient_bins insufficient_rows insufficient_values : Reason

-- a dict with `status`, `reason` and the value
pub data Metric (A : Type 0) : Type 0 where
  available : A → Metric A
  unavailable : Reason → Metric A

module _ {F : Type 0} where
  -- the loop of `_finite`
  unfoldable pub collect : List (Value F) → Result MonitoringError (List F)
  collect [] = ok []
  collect (missing ∷ rest) = collect rest
  collect (nonnumeric ∷ rest) = err nonnumeric_value
  collect (nonfinite ∷ rest) = err nonfinite_value
  collect (number x ∷ rest) = do others ← collect rest; ok (x ∷ others)

  module _ (fl : Floats F) where
    -- `_finite`
    unfoldable pub finite : List (Value F) → Result MonitoringError (List F)
    unfolding collect
    finite values = do numbers ← collect values; ok (sort fl.at_most numbers)
