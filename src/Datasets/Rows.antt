-- ===== src/Datasets/Rows.antt =====
-- datasets/dataset_contract.py: the rows of the feature table, `feature_rows` and
-- `_validate_statistics`. A row is a dict of values; its schema was checked by pyarrow. The finite
-- floats are a type `F`, and what the code computes with them is a parameter, `Scores`.

use sentinel_aegis_forge.Common.{
  ℕ, String, Bool, true, false, not, ◌&&◌, ◌||◌, Option, none, some, List, [], ◌∷◌, ◌++◌, ltb, leb,
  nat_beq, if◌then◌else◌, ◌==◌, nat_eq, string_eq, pair_eq, list_eq, all, contains, Dict, lookup,
  Result, ok, err, ◌>>=◌, ◌>>◌, raise_if, map_error, ℤ, pos, is_canonical_uuid, strip,
}
use sentinel_aegis_forge.Datasets.Time.{Datetime, require_utc}

-- A `Decimal` by `as_tuple`: sign, digits and exponent; NaN and the infinities are `special`.
pub data Decimal : Type 0 where
  as_tuple : (negative : Bool) (digits : List ℕ) (exponent : ℤ) → Decimal
  special : Decimal

pub data Datum (F : Type 0) : Type 0 where
  null nonfinite other : Datum F
  str : String → Datum F
  int : ℤ → Datum F
  money : Decimal → Datum F
  float : F → Datum F
  time : Datetime → Datum F

abbrev pub Row : Type 0 → Type 0
Row F = Dict String (Datum F)

-- What the code computes with floats: `x <= 0`, `x < 0`, `x <= 1e-12`,
-- `(float(amount) - mean) / stddev` if that is finite, and `math.isclose` with its tolerances.
pub record Scores (F : Type 0) : Type 0 where
  pub is_positive : F → Bool
  pub is_negative : F → Bool
  pub is_tiny : F → Bool
  pub quotient : Decimal → F → F → Option F
  pub is_close : F → F → Bool

pub data FeatureDataError : Type 0 where
  missing_column malformed_event_id duplicate_event missing_value blank_value invalid_time
        invalid_money amount_not_positive invalid_count not_finite mean_not_positive
        inconsistent_statistics inconsistent_zscore :
      FeatureDataError

abbrev pub is_zero : List ℕ → Bool
is_zero digits = all (λ d. nat_beq d 0) digits

-- `amount.is_finite() and not amount < 0`
abbrev pub is_nonnegative : Decimal → Bool
is_nonnegative (as_tuple negative digits exponent) = not negative || is_zero digits
is_nonnegative special = false

-- `amount == 0`
abbrev pub equals_zero : Decimal → Bool
equals_zero (as_tuple negative digits exponent) = is_zero digits
equals_zero special = false

abbrev pub optional_names : List String
optional_names = "prior_amount_mean" ∷ "prior_amount_stddev" ∷ "amount_zscore" ∷ []

module _ {F : Type 0} where
  abbrev pub is_null : Datum F → Bool
  is_null null = true
  is_null _ = false

  abbrev pub is_float : Datum F → Bool
  is_float (float x) = true
  is_float nonfinite = true
  is_float _ = false

  abbrev pub is_text : String → Datum F → Bool
  is_text t (str s) = s == t
  is_text t _ = false

  -- null or a finite float. The rows of a pyarrow table hold no float of a subclass, so that
  -- `isinstance` here and `type` in candidates/contract.py agree on them.
  abbrev pub is_statistic : Datum F → Bool
  is_statistic null = true
  is_statistic (float x) = true
  is_statistic _ = false

  -- `row[name]`
  abbrev pub column : {E : Type 0} → E → Option (Datum F) → Result E (Datum F)
  column error none = err error
  column error (some value) = ok value

  abbrev pub at : {E : Type 0} → E → String → Row F → Result E (Datum F)
  at error name row = column error (lookup name row)

  -- `type(count) is int and count >= 0`
  unfoldable pub natural : {E : Type 0} → E → Datum F → Result E ℕ
  natural error (int (pos n)) = ok n
  natural error _ = err error

  unfoldable pub canonical_id : Datum F → Result FeatureDataError String
  canonical_id (str s) = do raise_if (not (is_canonical_uuid s)) malformed_event_id; ok s
  canonical_id _ = err malformed_event_id

  unfoldable pub check_value : String → Datum F → Result FeatureDataError (Unit {0})
  check_value name null = raise_if (not (contains name optional_names)) missing_value
  check_value name (str s) = raise_if (strip s == "") blank_value
  check_value name _ = ok tt

  -- the loop over `row.items()`
  unfoldable pub check_values : Row F → Result FeatureDataError (Unit {0})
  unfolding check_value
  check_values [] = ok tt
  check_values ((name, value) ∷ rest) = do check_value name value; check_values rest

  pub check_time : Datum F → Result FeatureDataError (Unit {0})
  check_time (time t) = do _ ← map_error (λ _. invalid_time) (require_utc t); ok tt
  check_time _ = err invalid_time

  -- `isinstance(amount, Decimal) and amount.is_finite() and amount >= 0`
  unfoldable pub nonnegative_money : Datum F → Result FeatureDataError Decimal
  nonnegative_money (money amount) = do
    raise_if (not (is_nonnegative amount)) invalid_money
    ok amount
  nonnegative_money _ = err invalid_money

-- The columns that the statistical checks read.
pub record Statistics (F : Type 0) : Type 0 where
  pub amount : Decimal
  pub observations : ℕ
  pub mean : Datum F
  pub stddev : Datum F
  pub zscore : Datum F
  pub status : Datum F

module _ {F : Type 0} where
  -- the loop over the three times
  unfoldable pub check_times : Row F → Result FeatureDataError (Unit {0})
  unfolding check_time
  check_times row = do
    event_time ← at missing_column "event_time" row
    check_time event_time
    ingestion_time ← at missing_column "ingestion_time" row
    check_time ingestion_time
    kafka_timestamp ← at missing_column "kafka_timestamp" row
    check_time kafka_timestamp

  -- the loop over the two amounts; `amount` is read again later
  unfoldable pub check_money : Row F → Result FeatureDataError Decimal
  unfolding nonnegative_money
  check_money row = do
    amount_column ← at missing_column "amount" row
    amount ← nonnegative_money amount_column
    raise_if (equals_zero amount) amount_not_positive
    sum_column ← at missing_column "prior_amount_sum_10m" row
    _ ← nonnegative_money sum_column
    ok amount

  -- the loop over the two counts; the number of observations is read again later
  unfoldable pub check_counts : Row F → Result FeatureDataError ℕ
  unfolding natural
  check_counts row = do
    transactions ← at missing_column "prior_transaction_count_5m" row
    _ ← natural invalid_count transactions
    observed ← at missing_column "prior_amount_observation_count" row
    natural invalid_count observed

  unfoldable pub statistics_of : Decimal → ℕ → Row F → Result FeatureDataError (Statistics F)
  statistics_of amount observations row = do
    mean ← at missing_column "prior_amount_mean" row
    stddev ← at missing_column "prior_amount_stddev" row
    zscore ← at missing_column "amount_zscore" row
    status ← at missing_column "statistical_feature_status" row
    ok (record {
      amount = amount;
      observations = observations;
      mean = mean;
      stddev = stddev;
      zscore = zscore;
      status = status;
    })

module _ {F : Type 0} (scores : Scores F) where
  -- `isinstance(mean, float) and mean > 0`, for a finite or infinite float
  abbrev pub is_positive_float : Datum F → Bool
  is_positive_float (float x) = scores.is_positive x
  is_positive_float _ = false

  -- `isinstance(stddev, float) and 0 <= stddev <= 1e-12`
  abbrev pub is_zero_deviation : Datum F → Bool
  is_zero_deviation (float x) = not (scores.is_negative x) && scores.is_tiny x
  is_zero_deviation _ = false

  -- `isinstance(stddev, float) and stddev > 1e-12`
  abbrev pub is_deviation : Datum F → Bool
  is_deviation (float x) = not (scores.is_tiny x)
  is_deviation _ = false

  -- the branches of `consistent`
  unfoldable pub is_consistent : Statistics F → Bool
  is_consistent s =
      if is_text "NO_HISTORY" s.status
      then nat_beq s.observations 0 && (is_null s.mean && (is_null s.stddev && is_null s.zscore))
      else if is_text "INSUFFICIENT_VARIANCE_HISTORY" s.status
      then nat_beq s.observations 1
        && (not (is_null s.mean) && (is_null s.stddev && is_null s.zscore))
      else if is_text "ZERO_VARIANCE" s.status
      then leb 2 s.observations
        && (not (is_null s.mean) && (is_zero_deviation s.stddev && is_null s.zscore))
      else if is_text "READY" s.status
      then leb 2 s.observations
        && (not (is_null s.mean) && (is_deviation s.stddev && not (is_null s.zscore)))
      else false

  close_to : F → Option F → Bool
  close_to z none = false
  close_to z (some expected) = scores.is_close z expected

  -- the z-score against the amount, the mean and the deviation
  unfoldable pub agrees : Decimal → Datum F → Datum F → Datum F → Bool
  unfolding close_to
  agrees amount (float mean) (float stddev) (float z) =
      close_to z (scores.quotient amount mean stddev)
  agrees amount _ _ _ = false

  -- `_validate_statistics`
  unfoldable pub validate_statistics : Statistics F → Result FeatureDataError (Unit {0})
  unfolding is_consistent agrees
  validate_statistics s = do
    raise_if (not (is_statistic s.mean && (is_statistic s.stddev && is_statistic s.zscore)))
        not_finite
    raise_if (ltb 0 s.observations && not (is_positive_float s.mean)) mean_not_positive
    raise_if (not (is_consistent s)) inconsistent_statistics
    raise_if (is_text "READY" s.status && not (agrees s.amount s.mean s.stddev s.zscore))
        inconsistent_zscore

  -- the body of the loop of `feature_rows`; the second list is `seen`
  unfoldable pub check_row : Row F → List String → Result FeatureDataError (List String)
  unfolding canonical_id check_values check_times check_money check_counts statistics_of
      validate_statistics
  check_row row seen = do
    event_column ← at missing_column "event_id" row
    event_id ← canonical_id event_column
    raise_if (contains event_id seen) duplicate_event
    check_values row
    check_times row
    amount ← check_money row
    observations ← check_counts row
    statistics ← statistics_of amount observations row
    validate_statistics statistics
    ok (seen ++ event_id ∷ [])

  unfoldable pub rows_from : List (Row F) → List String → Result FeatureDataError (Unit {0})
  unfolding check_row
  rows_from [] seen = ok tt
  rows_from (row ∷ rest) seen = do seen ← check_row row seen; rows_from rest seen

  -- `feature_rows`, on the rows of a table of the right schema
  unfoldable pub feature_rows : List (Row F) → Result FeatureDataError (List (Row F))
  unfolding rows_from
  feature_rows rows = do rows_from rows []; ok rows
