-- ===== src/Training/Temporal/Examples.antt =====
-- Runs of the partition, and its theorem at a concrete snapshot.
use sentinel_aegis_forge.Common.{
  ℕ, ◌+◌, ◌≤◌, String, ◌≡◌, refl, some, List, [], ◌∷◌, nat_eq, string_eq, pair_eq, list_eq, ok, err,
  text_leb, sort, pos, is_canonical_uuid,
}
use sentinel_aegis_forge.Datasets.Time.{utc, require_utc}
use sentinel_aegis_forge.Datasets.Timestamp.{parse_utc_timestamp}
use sentinel_aegis_forge.Training.Temporal.{
  TemporalConfig, SnapshotRow, CohortRow, Manifest, TemporalCohorts, candidate_feature_columns,
  partition_rows, as_of_of, make_config, config_order, insufficient, one_class, too_few, test,
  invalid_row, duplicate_event,
}
use sentinel_aegis_forge.Training.Temporal.Cohorts.{IsSound, partition_rows-IsSound}

-- 62_135_596_800_000_000 microseconds are at 1970-01-01.
abbrev day : ℕ → ℕ
day n = 62_135_596_800_000_000 + n

abbrev row : String → ℕ → ℕ → ℕ → SnapshotRow
row event ingestion observed label = record {
  event_id = some event;
  ingestion_time = some (utc (day ingestion));
  label_observed_at = some (utc (day observed));
  fraud_label = some (pos label);
}

abbrev checked : String → ℕ → ℕ → ℕ → CohortRow
checked event ingestion observed label = record {
  event_id = event;
  ingestion = day ingestion;
  observed = day observed;
  fraud_label = label;
}

abbrev id_a : String
id_a = "00000000-0000-4000-8000-000000000000"

abbrev id_b : String
id_b = "00000000-0000-4000-8000-000000000001"

abbrev id_c : String
id_c = "00000000-0000-4000-8000-000000000002"

abbrev id_d : String
id_d = "00000000-0000-4000-8000-000000000003"

abbrev id_e : String
id_e = "00000000-0000-4000-8000-000000000004"

abbrev id_f : String
id_f = "00000000-0000-4000-8000-000000000005"

abbrev id_g : String
id_g = "00000000-0000-4000-8000-000000000006"

abbrev id_h : String
id_h = "00000000-0000-4000-8000-000000000007"

abbrev id_i : String
id_i = "00000000-0000-4000-8000-000000000008"

abbrev config : TemporalConfig
config = record {
  train_end = day 100;
  validation_end = day 200;
  test_end = day 300;
  min_train_rows = 2;
  min_validation_rows = 2;
  min_test_rows = 2;
}

abbrev manifest : Manifest
manifest = record {
  columns = some candidate_feature_columns;
  as_of_time = some "1970-01-01T00:00:00.0005Z";
}

-- The second training row comes first; one label came late, and one row is after the test window.
abbrev rows : List SnapshotRow
rows =
    row id_a 50 60 1
    ∷ row id_b 40 99 0
    ∷ row id_c 60 101 1
    ∷ row id_d 100 150 1
    ∷ row id_e 150 160 0
    ∷ row id_f 200 400 0
    ∷ row id_g 250 250 1
    ∷ row id_h 300 500 1
    ∷ []

abbrev cohorts : TemporalCohorts
cohorts = record {
  train = checked id_b 40 99 0 ∷ checked id_a 50 60 1 ∷ [];
  validation = checked id_d 100 150 1 ∷ checked id_e 150 160 0 ∷ [];
  test = checked id_f 200 400 0 ∷ checked id_g 250 250 1 ∷ [];
  train_period_rows = 3;
  excluded_from_fit_due_to_label_delay = 1;
  outside_test_window_rows = 1;
}

partition-rows : partition_rows rows manifest config ≡ ok cohorts
unfolding partition_rows parse_utc_timestamp require_utc sort text_leb is_canonical_uuid
partition-rows = refl

repeated_event :
    partition_rows (row id_i 50 60 1 ∷ row id_i 51 60 1 ∷ []) manifest config
    ≡ err (invalid_row duplicate_event)
unfolding partition_rows parse_utc_timestamp require_utc sort text_leb is_canonical_uuid
repeated_event = refl

no_test_rows :
    partition_rows
      (row id_a 50 60 1 ∷ row id_b 40 99 0 ∷ row id_d 100 150 1 ∷ row id_e 150 160 0 ∷ [])
      manifest
      config
    ≡ err (insufficient (too_few test 0 2 ∷ one_class test ∷ []))
unfolding partition_rows parse_utc_timestamp require_utc sort text_leb is_canonical_uuid
no_test_rows = refl

disordered : make_config (utc 1) (utc 1) (utc 2) (pos 1) (pos 1) (pos 1) ≡ err config_order
unfolding make_config require_utc
disordered = refl

partition_rows-IsSound_example :
    (as_of : ℕ) × (as_of_of manifest.as_of_time ≡ ok as_of)
    × (config.test_end ≤ as_of)
    × IsSound config as_of 8 cohorts
partition_rows-IsSound_example = partition_rows-IsSound rows manifest config cohorts partition-rows
