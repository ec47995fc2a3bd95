-- ===== src/Candidates/Contract/Examples.antt =====
-- Tests and witnesses: rows whose floats are counted in whole units.
use sentinel_aegis_forge.Common.{
  ℕ, ◌-◌, ◌≡◌, refl, ◌↔◌, false, some, List, [], ◌∷◌, ltb, nat_beq, nat_eq, string_eq, pair_eq,
  list_eq, All, ok, err, pos, is_canonical_uuid, strip,
}
use sentinel_aegis_forge.Datasets.Time.{utc, require_utc}
use sentinel_aegis_forge.Datasets.Rows.{
  Decimal, as_tuple, Datum, null, str, int, money, float, time, Row, Scores, Statistics,
  feature_rows, validate_statistics, inconsistent_statistics,
}
use sentinel_aegis_forge.Candidates.Contract.{features_differ, validate_input, check_statistics}
use sentinel_aegis_forge.Candidates.Contract.Accepts.{check_statistics-validate_statistics}
use sentinel_aegis_forge.Candidates.Contract.Scorable.{IsRequest, feature_rows-IsRequest}
use sentinel_aegis_forge.Candidates.Contract.Scorable.Fields.{IsScorable}

-- every amount is 1200, as a float
abbrev units : Scores ℕ
units = record {
  is_positive = ltb 0;
  is_negative = λ x. false;
  is_tiny = λ x. nat_beq x 0;
  quotient = λ amount mean stddev. some (1200 - mean);
  is_close = nat_beq;
}

abbrev amount : Decimal
amount = as_tuple false (1 ∷ 2 ∷ 0 ∷ 0 ∷ []) (pos 0)

-- a row with two earlier transactions, with a mean of 1000 and a deviation of 1
abbrev row : Datum ℕ → Row ℕ
row deviation =
    ("event_id", str "00000000-0000-0000-0000-000000000001")
    ∷ ("event_time", time (utc 10))
    ∷ ("ingestion_time", time (utc 12))
    ∷ ("kafka_timestamp", time (utc 11))
    ∷ ("amount", money amount)
    ∷ ("currency", str "EUR")
    ∷ ("country", str "DE")
    ∷ ("transaction_type", str "CARD")
    ∷ ("prior_transaction_count_5m", int (pos 1))
    ∷ ("prior_amount_sum_10m", money (as_tuple false (0 ∷ []) (pos 0)))
    ∷ ("prior_amount_observation_count", int (pos 2))
    ∷ ("prior_amount_mean", float 1000)
    ∷ ("prior_amount_stddev", deviation)
    ∷ ("amount_zscore", float 200)
    ∷ ("statistical_feature_status", str "READY")
    ∷ []

abbrev statistics : Statistics ℕ
statistics = record {
  amount = amount;
  observations = 2;
  mean = float 1000;
  stddev = float 1;
  zscore = float 200;
  status = str "READY";
}

unfoldable accepted : (rows : List (Row ℕ)) × (feature_rows units (row (float 1) ∷ []) ≡ ok rows)
unfolding feature_rows is_canonical_uuid strip require_utc
accepted = (_, refl)

no_deviation : feature_rows units (row null ∷ []) ≡ err inconsistent_statistics
unfolding feature_rows is_canonical_uuid strip require_utc
no_deviation = refl

missing_features : validate_input units (("currency", str "EUR") ∷ []) ≡ err features_differ
unfolding validate_input
missing_features = refl

row-IsScorable : IsScorable (row (float 1))
row-IsScorable = record {
  currency = "EUR";
  country = "DE";
  transaction_type = "CARD";
  status = "READY";
  currency_column = refl;
  country_column = refl;
  transaction_type_column = refl;
  status_column = refl;
  currency_code = refl;
  country_code = refl;
  amount_precision = λ m h. cc;
  sum_precision = λ m h. cc;
}

check_statistics-validate_statistics_example :
    (check_statistics units statistics ≡ ok tt) ↔ (validate_statistics units statistics ≡ ok tt)
check_statistics-validate_statistics_example = check_statistics-validate_statistics units statistics

feature_rows-IsRequest_example : All (λ r. IsScorable r → IsRequest units r) accepted.0
feature_rows-IsRequest_example =
    feature_rows-IsRequest units (row (float 1) ∷ []) accepted.0 accepted.1
