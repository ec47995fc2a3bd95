-- ===== src/Candidates/Contract.antt =====
-- candidates/contract.py: `_decimal` and `validate_input`, the boundary of a scoring request.
pub mod Accepts
pub mod Scorable
mod Examples
use Prim.Native.Char.{code}
use Prim.Native.String.{[] as empty, ◌∷◌ as cons}
use sentinel_aegis_forge.Common.{
  ℕ, ◌+◌, ◌-◌, String, Bool, true, false, not, ◌&&◌, ◌||◌, List, [], ◌∷◌, ltb, leb, nat_beq, ◌==◌,
  nat_eq, string_eq, pair_eq, list_eq, length, same_set, keys, Result, ok, err, ◌>>=◌, ◌>>◌,
  raise_if, ℤ, pos, negsuc, strip,
}
use sentinel_aegis_forge.Datasets.Rows.{
  is_float, Decimal, as_tuple, special, Datum, str, money, Row, Scores, equals_zero, is_null,
  is_text, is_statistic, at, natural, Statistics, is_positive_float, is_zero_deviation,
  is_deviation, agrees, is_nonnegative,
}
use sentinel_aegis_forge.Training.Temporal.{candidate_feature_columns}

pub data CandidateError : Type 0 where
  features_differ not_a_string blank_string bad_currency bad_country not_a_decimal exceeds_precision
        bad_sign bad_count not_finite mean_not_positive invalid_status inconsistent_zscore :
      CandidateError

-- `CATEGORICAL_FEATURE_COLUMNS` of training/temporal.py
abbrev pub categorical_feature_columns : List String
categorical_feature_columns =
    "currency" ∷ "country" ∷ "transaction_type" ∷ "statistical_feature_status" ∷ []

-- `isascii`, `isalpha` and `isupper` of a nonempty string, and its length
abbrev pub is_upper : ℕ → String → Bool
is_upper n empty = nat_beq n 0
is_upper n (cons c s) = leb b'A' (code c) && (leb (code c) b'Z' && (ltb 0 n && is_upper (n - 1) s))

-- `max(exponent, 0)`
abbrev pub or_zero : ℤ → ℕ
or_zero (pos n) = n
or_zero (negsuc n) = 0

-- `exponent < -4`
abbrev below_scale : ℤ → Bool
below_scale (pos n) = false
below_scale (negsuc n) = ltb 3 n

-- the precision that `_decimal` asks for, of a finite decimal
abbrev pub has_precision : ℕ → Decimal → Bool
has_precision precision (as_tuple negative digits exponent) =
    not (below_scale exponent) && leb (length digits + or_zero exponent) precision
has_precision precision special = false

module _ {F : Type 0} where
  -- `_decimal`, with whether `name == "amount"`
  unfoldable pub check_decimal : Bool → ℕ → Datum F → Result CandidateError Decimal
  check_decimal is_amount precision (money special) = err not_a_decimal
  check_decimal is_amount precision (money (as_tuple negative digits exponent)) = do
    let value = as_tuple negative digits exponent
    raise_if (not (has_precision precision value)) exceeds_precision
    raise_if (not (is_nonnegative value) || (is_amount && equals_zero value)) bad_sign
    ok value
  check_decimal is_amount precision _ = err not_a_decimal

  -- `isinstance(value, str) and value.strip()`
  abbrev pub is_nonblank : Datum F → Bool
  is_nonblank (str s) = not (strip s == "")
  is_nonblank _ = false

  abbrev pub is_code : ℕ → Datum F → Bool
  is_code n (str s) = is_upper n s
  is_code n _ = false

  -- the loop over the categorical columns
  unfoldable pub check_strings : Row F → List String → Result CandidateError (Unit {0})
  check_strings row [] = ok tt
  check_strings row (name ∷ rest) = do
    value ← at features_differ name row
    raise_if (not (is_nonblank value)) blank_string
    check_strings row rest

  -- `{name: row[name] for name in FEATURES}`
  unfoldable pub project : Row F → List String → Result CandidateError (Row F)
  project row [] = ok []
  project row (name ∷ rest) = do
    value ← at features_differ name row
    others ← project row rest
    ok ((name, value) ∷ others)

module _ {F : Type 0} (scores : Scores F) where
  -- `valid`
  unfoldable pub is_valid : Statistics F → Bool
  is_valid s =
      (is_text "NO_HISTORY" s.status
        && (nat_beq s.observations 0 && (is_null s.mean && (is_null s.stddev && is_null s.zscore))))
      || ((is_text "INSUFFICIENT_VARIANCE_HISTORY" s.status
            && (nat_beq s.observations 1
                && (not (is_null s.mean) && (is_null s.stddev && is_null s.zscore))))
          || ((is_text "ZERO_VARIANCE" s.status
                && (leb 2 s.observations
                    && (not (is_null s.mean)
                        && (is_zero_deviation scores s.stddev && is_null s.zscore))))
              || (is_text "READY" s.status
                  && (leb 2 s.observations
                      && (not (is_null s.mean)
                          && (is_deviation scores s.stddev && is_float s.zscore))))))

  -- the statistical checks
  unfoldable pub check_statistics : Statistics F → Result CandidateError (Unit {0})
  unfolding is_valid agrees
  check_statistics s = do
    raise_if (not (is_statistic s.mean && (is_statistic s.stddev && is_statistic s.zscore)))
        not_finite
    raise_if (ltb 0 s.observations && not (is_positive_float scores s.mean)) mean_not_positive
    raise_if (not (is_valid s)) invalid_status
    raise_if (is_text "READY" s.status && not (agrees scores s.amount s.mean s.stddev s.zscore))
        inconsistent_zscore

  -- `validate_input`; the names of a row are strings
  unfoldable pub validate_input : Row F → Result CandidateError (Row F)
  unfolding check_decimal check_strings project natural check_statistics
  validate_input row = do
    raise_if (not (same_set (keys row) candidate_feature_columns)) features_differ
    check_strings row categorical_feature_columns
    currency ← at features_differ "currency" row
    raise_if (not (is_code 3 currency)) bad_currency
    country ← at features_differ "country" row
    raise_if (not (is_code 2 country)) bad_country
    amount_column ← at features_differ "amount" row
    amount ← check_decimal true 18 amount_column
    sum_column ← at features_differ "prior_amount_sum_10m" row
    _ ← check_decimal false 38 sum_column
    transactions ← at features_differ "prior_transaction_count_5m" row
    _ ← natural bad_count transactions
    observed ← at features_differ "prior_amount_observation_count" row
    observations ← natural bad_count observed
    mean ← at features_differ "prior_amount_mean" row
    stddev ← at features_differ "prior_amount_stddev" row
    zscore ← at features_differ "amount_zscore" row
    status ← at features_differ "statistical_feature_status" row
    check_statistics (record {
      amount = amount;
      observations = observations;
      mean = mean;
      stddev = stddev;
      zscore = zscore;
      status = status;
    })
    project row candidate_feature_columns
