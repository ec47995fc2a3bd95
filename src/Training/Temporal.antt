-- ===== src/Training/Temporal.antt =====
-- training/temporal.py: ingestion-time cohorts and the eligibility of labels for training.
pub mod Cohorts
mod Examples
use sentinel_aegis_forge.Common.{
  ℕ, ◌+◌, String, Bool, false, not, ◌&&◌, Option, none, some, List, [], ◌∷◌, ◌++◌, arith, ltb, leb,
  nat_beq, if◌then◌else◌, ◌==◌, nat_eq, string_eq, pair_eq, list_eq, length, any, contains, Result,
  ok, err, ◌>>=◌, ◌>>◌, raise_if, map_error, text_leb, sort, ℤ, pos, negsuc, in_range, to_nat,
  is_canonical_uuid,
}
use sentinel_aegis_forge.Datasets.Time.{Instant, Datetime, require_utc}
use sentinel_aegis_forge.Datasets.Timestamp.{parse_utc_timestamp}

abbrev pub candidate_feature_columns : List String
candidate_feature_columns =
    "amount" ∷ "currency" ∷ "country" ∷ "transaction_type" ∷ "prior_transaction_count_5m"
    ∷ "prior_amount_sum_10m" ∷ "prior_amount_observation_count" ∷ "prior_amount_mean"
    ∷ "prior_amount_stddev" ∷ "amount_zscore" ∷ "statistical_feature_status" ∷ []

pub data Cohort : Type 0 where
  training validation test : Cohort

pub data Failure : Type 0 where
  too_few : Cohort → ℕ → ℕ → Failure
  one_class : Cohort → Failure

-- The errors of the loop's `try`, which all become one `TrainingContractError`.
pub data RowError : Type 0 where
  bad_event_id bad_timestamp bad_label bad_availability duplicate_event : RowError

pub data TemporalError : Type 0 where
  config_not_utc config_order config_minimum columns_differ bad_as_of test_end_after_as_of :
      TemporalError
  invalid_row : RowError → TemporalError
  insufficient : List Failure → TemporalError

-- `TemporalConfig` as it stands after `__post_init__`
pub record TemporalConfig : Type 0 where
  pub train_end : Instant
  pub validation_end : Instant
  pub test_end : Instant
  pub min_train_rows : ℕ
  pub min_validation_rows : ℕ
  pub min_test_rows : ℕ

at_least_one : ℤ → Bool
at_least_one (pos n) = leb 1 n
at_least_one (negsuc n) = false

-- `TemporalConfig.__post_init__`
unfoldable pub make_config :
    Datetime → Datetime → Datetime → ℤ → ℤ → ℤ → Result TemporalError TemporalConfig
unfolding at_least_one
make_config train_time validation_time test_time min_train min_validation min_test = do
  train_end ← map_error (λ _. config_not_utc) (require_utc train_time)
  validation_end ← map_error (λ _. config_not_utc) (require_utc validation_time)
  test_end ← map_error (λ _. config_not_utc) (require_utc test_time)
  raise_if (not (ltb train_end validation_end && ltb validation_end test_end)) config_order
  raise_if (not (at_least_one min_train && at_least_one min_validation && at_least_one min_test))
      config_minimum
  ok (record {
    train_end = train_end;
    validation_end = validation_end;
    test_end = test_end;
    min_train_rows = to_nat min_train;
    min_validation_rows = to_nat min_validation;
    min_test_rows = to_nat min_test;
  })

-- The two entries of the snapshot's manifest that are read; `none` where there is none of that type.
pub record Manifest : Type 0 where
  pub columns : Option (List String)
  pub as_of_time : Option String

-- A row of the snapshot: `none` stands for a missing entry or one of another type.
pub record SnapshotRow : Type 0 where
  pub event_id : Option String
  pub ingestion_time : Option Datetime
  pub label_observed_at : Option Datetime
  pub fraud_label : Option ℤ

-- The row once its entries are read and checked.
pub record CohortRow : Type 0 where
  pub event_id : String
  pub ingestion : Instant
  pub observed : Instant
  pub fraud_label : ℕ

-- the variables of the loop
pub record Loop : Type 0 where
  pub train : List CohortRow
  pub validation : List CohortRow
  pub test : List CohortRow
  pub seen : List String
  pub train_period : ℕ
  pub delayed : ℕ
  pub outside : ℕ

abbrev pub empty_loop : Loop
empty_loop = record {
  train = [];
  validation = [];
  test = [];
  seen = [];
  train_period = 0;
  delayed = 0;
  outside = 0;
}

required : {A : Type 0} → RowError → Option A → Result RowError A
required e none = err e
required e (some a) = ok a

-- the body of the `try`
unfoldable pub check_row : Instant → List String → SnapshotRow → Result RowError CohortRow
unfolding required
check_row as_of seen row = do
  event_id ← required bad_event_id row.event_id
  raise_if (not (is_canonical_uuid event_id)) bad_event_id
  raise_if (contains event_id seen) duplicate_event
  ingestion_time ← required bad_timestamp row.ingestion_time
  ingestion ← map_error (λ _. bad_timestamp) (require_utc ingestion_time)
  observed_at ← required bad_timestamp row.label_observed_at
  observed ← map_error (λ _. bad_timestamp) (require_utc observed_at)
  outcome ← required bad_label row.fraud_label
  raise_if (not (in_range 0 1 outcome)) bad_label
  raise_if (not (leb ingestion observed && leb observed as_of)) bad_availability
  ok (record {
    event_id = event_id;
    ingestion = ingestion;
    observed = observed;
    fraud_label = to_nat outcome;
  })

-- the ladder after the `try`
unfoldable pub place : TemporalConfig → CohortRow → Loop → Loop
place config row s =
    if ltb row.ingestion config.train_end
    then if leb row.observed config.train_end
      then record s { train = s.train ++ row ∷ []; train_period = s.train_period + 1 }
      else record s { delayed = s.delayed + 1; train_period = s.train_period + 1 }
    else if ltb row.ingestion config.validation_end
    then record s { validation = s.validation ++ row ∷ [] }
    else if ltb row.ingestion config.test_end
    then record s { test = s.test ++ row ∷ [] }
    else record s { outside = s.outside + 1 }

abbrev pub saw : String → Loop → Loop
saw event_id s = record s { seen = event_id ∷ s.seen }

pub partition_from : TemporalConfig → Instant → Loop → List SnapshotRow → Result TemporalError Loop
unfolding check_row place
partition_from config as_of s [] = ok s
partition_from config as_of s (row ∷ rest) = do
  checked ← map_error invalid_row (check_row as_of s.seen row)
  partition_from config as_of (place config checked (saw checked.event_id s)) rest

-- the key of `ordered`
abbrev pub row_leb : CohortRow → CohortRow → Bool
row_leb a b =
    if nat_beq a.ingestion b.ingestion
    then text_leb a.event_id b.event_id
    else leb a.ingestion b.ingestion

pub record TemporalCohorts : Type 0 where
  pub train : List CohortRow
  pub validation : List CohortRow
  pub test : List CohortRow
  pub train_period_rows : ℕ
  pub excluded_from_fit_due_to_label_delay : ℕ
  pub outside_test_window_rows : ℕ

unfoldable pub ordered_cohorts : Loop → TemporalCohorts
ordered_cohorts s = record {
  train = sort row_leb s.train;
  validation = sort row_leb s.validation;
  test = sort row_leb s.test;
  train_period_rows = s.train_period;
  excluded_from_fit_due_to_label_delay = s.delayed;
  outside_test_window_rows = s.outside;
}

-- `classes != {0, 1}`, for labels that are 0 or 1
abbrev pub has_both : List CohortRow → Bool
has_both items = any (λ r. r.fraud_label == 0) items && any (λ r. r.fraud_label == 1) items

unfoldable pub failures_of : Cohort → List CohortRow → ℕ → List Failure
failures_of name items minimum =
    (if ltb (length items) minimum then too_few name (length items) minimum ∷ [] else [])
    ++ (if has_both items then [] else one_class name ∷ [])

unfoldable pub failures : TemporalConfig → TemporalCohorts → List Failure
unfolding failures_of
failures config c =
    failures_of training c.train config.min_train_rows
    ++ (failures_of validation c.validation config.min_validation_rows
        ++ failures_of test c.test config.min_test_rows)

require_support : List Failure → TemporalCohorts → Result TemporalError TemporalCohorts
require_support [] c = ok c
require_support (f ∷ rest) c = err (insufficient (f ∷ rest))

expected_columns : Option (List String) → Bool
expected_columns none = false
expected_columns (some columns) = columns == candidate_feature_columns

pub as_of_of : Option String → Result TemporalError Instant
as_of_of none = err bad_as_of
as_of_of (some text) = map_error (λ _. bad_as_of) (parse_utc_timestamp text)

unfoldable pub partition_rows :
    List SnapshotRow → Manifest → TemporalConfig → Result TemporalError TemporalCohorts
unfolding partition_from ordered_cohorts failures require_support expected_columns as_of_of
partition_rows rows manifest config = do
  raise_if (not (expected_columns manifest.columns)) columns_differ
  as_of ← as_of_of manifest.as_of_time
  raise_if (ltb as_of config.test_end) test_end_after_as_of
  s ← partition_from config as_of empty_loop rows
  let cohorts = ordered_cohorts s
  require_support (failures config cohorts) cohorts
