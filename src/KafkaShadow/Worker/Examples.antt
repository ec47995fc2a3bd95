-- ===== src/KafkaShadow/Worker/Examples.antt =====
-- Runs of kafka_shadow/worker.py, with digests and floats that are simple to compute.
use sentinel_aegis_forge.Common.{
  ℕ, String, ◌≡◌, refl, false, some, List, [], ◌∷◌, ltb, nat_beq, nat_eq, string_eq, pair_eq,
  list_eq, length, Dict, Result, ok, err, pos, negsuc,
}
use sentinel_aegis_forge.Common.Json.{Json, item, text, real, fraction, arr, Object}
use sentinel_aegis_forge.Datasets.Timestamp.Text.{utc_text, digit_char}
use sentinel_aegis_forge.Datasets.Rows.{Row, Scores}
use sentinel_aegis_forge.Availability.Outbox.{ReadyEvent}
use sentinel_aegis_forge.Incremental.Outcomes.{status_of, string_of, outcome_ok}
use sentinel_aegis_forge.KafkaShadow.Results.{
  claim_result, ShadowKafkaError, inspect_result, durable_results,
}
use sentinel_aegis_forge.KafkaShadow.Worker.{
  Setup, Scored, probability, SourceRow, WorkerConfig, evaluate_one, base_of, identity_of,
  process_resolved,
}
use sentinel_aegis_forge.KafkaShadow.Worker.Bounded.{IsBounded, process_resolved-IsBounded}
use sentinel_aegis_forge.KafkaShadow.Worker.Judged.{IsNamed, evaluate_one-inspected}

-- the first text of the list that is hashed, which is the ready event's identity
abbrev first_text : Json → String
first_text (arr (item (text s) rest)) = s
first_text _ = ""

abbrev str : Json → String
str (text s) = s
str _ = "value"

abbrev units : Scores ℕ
units = record {
  is_positive = ltb 0;
  is_negative = λ x. false;
  is_tiny = λ x. nat_beq x 0;
  quotient = λ amount mean stddev. some 0;
  is_close = nat_beq;
}

abbrev scorer : Row ℕ → Scored
scorer row = probability (real (fraction (pos 1) 3))

abbrev config : WorkerConfig
config = record {
  model_version = "3";
  score_start = 1_000_000;
  score_end = 2_000_000;
  maximum_attempts = 2;
}

abbrev setup : Setup ℕ
setup = record {
  digest = first_text;
  str = str;
  scores = units;
  scorer = scorer;
  config = config;
  inbox_id = "inbox";
  candidate_id = "c";
  model_hash = "m";
}

abbrev event : String → ReadyEvent
event ready_event_id = record {
  availability_contract_version = "v1";
  ready_event_id = ready_event_id;
  event_id = "e";
  source_delta_table_id = "t";
  first_visible_delta_version = 4;
  source_schema_fingerprint = "s";
  source_feature_row_fingerprint = "f";
  availability_state = "DELTA_COMMITTED";
}

abbrev source : ℕ → SourceRow ℕ
source t = record { ingestion_time = t; columns = [] }

-- one request outside the window and two whose rows have no columns
abbrev work : List (ReadyEvent × SourceRow ℕ)
work = (event "r1", source 5) ∷ (event "r2", source 1_500_000) ∷ (event "r3", source 1_600_000) ∷ []

abbrev base : String → Object
base id = base_of setup (event id)

unfoldable rejected :
    (r : Object) × (evaluate_one units scorer (base "r2") (source 1_500_000) 1_000_000 2_000_000
      ≡ ok r)
unfolding evaluate_one
rejected = (_, refl)

event-IsNamed : IsNamed setup (event "r2")
event-IsNamed = record { inbox = refl; event_named = refl; version = refl; fingerprint = refl }

-- the number of results that are there, and of those that were created
abbrev sizes :
    Dict String Object × Result ShadowKafkaError (List Object × ℕ) → ℕ × Result ShadowKafkaError ℕ
sizes (store, ok (results, created)) = (length results, ok created)
sizes (store, err e) = (length store, err e)

-- at the bound the third request is left for the next call
bounded : sizes (process_resolved setup (negsuc 0) work []) ≡ (2, ok 2)
unfolding process_resolved status_of string_of outcome_ok durable_results evaluate_one claim_result
    utc_text digit_char
bounded = refl

process_resolved-IsBounded_example :
    IsBounded setup [] work (process_resolved setup (negsuc 0) work [])
process_resolved-IsBounded_example = process_resolved-IsBounded setup [] (negsuc 0) work

evaluate_one-inspected_example :
    inspect_result first_text str (identity_of setup (event "r2")) rejected.0 (some rejected.0)
    ≡ ok rejected.0
evaluate_one-inspected_example =
    evaluate_one-inspected setup (λ s. refl) (event "r2") (source 1_500_000) 1_000_000 2_000_000
      rejected.0 event-IsNamed rejected.1
