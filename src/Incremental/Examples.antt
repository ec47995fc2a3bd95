-- ===== src/Incremental/Examples.antt =====
-- Runs of incremental_shadow/progress.py on a stream of two batches, with a digest that is
-- constant.
use sentinel_aegis_forge.Incremental.Stream.{read_object, natural}
use Prim.Native.String.{◌++◌ as concat}
use sentinel_aegis_forge.Incremental.Fence.{group_name, fence_contract, topic_name, check_fence}
use sentinel_aegis_forge.Reliability.Backlog.{Snapshot, backlog_snapshot}
use sentinel_aegis_forge.Reliability.Backlog.Layers.{IsLayered, backlog_snapshot-IsLayered}
use sentinel_aegis_forge.Incremental.Acceptance.{stems}
use sentinel_aegis_forge.Common.{
  IsNodup, Bool-cases, inl, inr, decimal, ℕ, String, ◌≡◌, refl, Option, none, some, List, [], ◌∷◌,
  ◌++◌, if◌then◌else◌, ◌==◌, nat_eq, string_eq, pair_eq, list_eq, ok, err, pos,
}
use sentinel_aegis_forge.Common.Json.{Json, num, text, null, real, fraction, Object}
use sentinel_aegis_forge.Availability.Outbox.{ReadyEvent}
use sentinel_aegis_forge.Incremental.Stream.{
  Limits, Manifest, Batch, Directory, Offsets, starting_offsets, offsets, make_limits,
  invalid_limit,
}
use sentinel_aegis_forge.Incremental.Acceptance.{
  inspect_acceptance, expected_acceptance, expected_identity, expected_journal,
}
use sentinel_aegis_forge.Incremental.Outcomes.{results_of, result_contract}
use sentinel_aegis_forge.Incremental.Progress.{Summary, progress}
use sentinel_aegis_forge.Incremental.Progress.Accounts.{IsAccounted, progress-IsAccounted}
use sentinel_aegis_forge.Incremental.Publication.{authorize_publication}
use sentinel_aegis_forge.Incremental.Publication.Gates.{
  IsAuthorized, authorize_publication-IsAuthorized,
}
use sentinel_aegis_forge.Incremental.Reconciliation.{Reconciled, reconcile}
use sentinel_aegis_forge.Incremental.Reconciliation.Closed.{IsClosed, reconcile-IsClosed}

abbrev digest : Json → String
digest _ = "d"

abbrev limits : Limits
limits = record {
  maximum_undiscovered_versions = 8;
  maximum_unpublished_ready_events = 500;
  maximum_accepted_unprocessed_events = 2;
  maximum_active_publication_batches = 1;
  maximum_inference_events_per_tick = 50;
  maximum_cached_source_rows = 5000;
}

abbrev manifest : Manifest
manifest = record {
  stream_id = "s";
  source_delta_table_id = "t";
  first_delta_version = 0;
  topic = "features.ready";
  cluster_id = "c";
  topic_id = "i";
  group_id = "g";
  candidate_id = "m";
  model_tree_sha256 = "h";
  limits = limits;
}

abbrev event : String → ReadyEvent
event id = record {
  availability_contract_version = "v";
  ready_event_id = id;
  event_id = id;
  source_delta_table_id = "t";
  first_visible_delta_version = 0;
  source_schema_fingerprint = "f";
  source_feature_row_fingerprint = "r";
  availability_state = "DELTA_COMMITTED";
}

abbrev batch : String → Batch
batch id = record { publication_batch_id = id; outbox_id = "o"; events = event id ∷ [] }

abbrev offsets_object : ℕ → ℕ → Object
offsets_object a b =
    ("start_0", num a)
    ∷ ("start_1", num 0)
    ∷ ("start_2", num 0)
    ∷ ("end_0", num b)
    ∷ ("end_1", num 0)
    ∷ ("end_2", num 0)
    ∷ []

-- Batch "a" stands at offsets 10 and 11 of partition 0: it was sent twice.
abbrev observation : ℕ → Object
observation n =
    ("partition", num 0)
    ∷ ("offset", num n)
    ∷ ("ready_event_id", text "a")
    ∷ ("topic_id", text "i")
    ∷ ("envelope_fingerprint", text "d")
    ∷ []

abbrev receipt : Object
receipt =
    ("ready_event_id", text "a")
    ∷ ("event_id", text "a")
    ∷ ("outbox_id", text "o")
    ∷ ("topic_id", text "i")
    ∷ ("first_topic_partition", num 0)
    ∷ ("first_topic_offset", num 10)
    ∷ ("receipt_id", text "d")
    ∷ []

abbrev acknowledgement : Object
acknowledgement =
    ("ready_event_id", text "a")
    ∷ ("event_id", text "a")
    ∷ ("publication_batch_id", text "a")
    ∷ ("topic_id", text "i")
    ∷ ("cluster_id", text "c")
    ∷ ("partition", num 0)
    ∷ ("offset", num 10)
    ∷ []

abbrev result : Object
result =
    ("contract_version", text result_contract)
    ∷ ("stream_id", text "s")
    ∷ ("request_id", text "d")
    ∷ ("ready_event_id", text "a")
    ∷ ("event_id", text "a")
    ∷ ("publication_batch_id", text "a")
    ∷ ("candidate_id", text "m")
    ∷ ("model_tree_sha256", text "h")
    ∷ ("first_visible_delta_version", num 0)
    ∷ ("source_feature_row_fingerprint", text "r")
    ∷ ("score_start", null)
    ∷ ("score_end", null)
    ∷ ("execution_status", text "SCORED")
    ∷ ("fraud_probability_estimate", real (fraction (pos 1) 3))
    ∷ ("failure_code", null)
    ∷ []

abbrev directory : List (Option Batch) → Directory
directory versions = record {
  manifest = manifest;
  versions = versions;
  fence = some (("end_0", num 10) ∷ ("end_1", num 0) ∷ ("end_2", num 0) ∷ []);
  acceptance = λ id.
      if id == "a"
      then some (
          some (
            expected_acceptance manifest (batch "a")
            ++ ("physical_record_count", num 2) ∷ offsets_object 10 12))
      else none;
  receiver_identity = λ id. some (expected_identity manifest (batch id));
  receipts = λ _. ("a", some receipt) ∷ [];
  observations =
      λ _. ("0-10.json", some (observation 10)) ∷ ("0-11.json", some (observation 11)) ∷ [];
  journal_exists = λ id. id == "a";
  journal_identity = λ id. some (expected_journal manifest (batch id));
  acknowledgements = λ id. if id == "a" then ("a", some acknowledgement) ∷ [] else [];
  results = ("d", some result) ∷ [];
  latest_version = 1;
}

-- The second version brought no event.
abbrev closed_stream : Directory
closed_stream = directory (some (batch "a") ∷ none ∷ [])

-- The second version brought batch "b", which was not sent yet.
abbrev open_stream : Directory
open_stream = directory (some (batch "a") ∷ some (batch "b") ∷ [])

unfoldable summarized : (s : Summary) × (progress digest open_stream ≡ ok s)
unfolding progress starting_offsets offsets inspect_acceptance decimal results_of
summarized = (_, refl)

progress-IsAccounted_example :
    (start : Offsets) × (starting_offsets open_stream ≡ ok start)
    × IsAccounted digest open_stream start summarized.0
progress-IsAccounted_example = progress-IsAccounted digest open_stream summarized.0 summarized.1

two_messages : summarized.0.physical_kafka_records ≡ 2
unfolding summarized
two_messages = refl

authorized : authorize_publication digest open_stream "b" ≡ ok (batch "b")
unfolding authorize_publication progress starting_offsets offsets inspect_acceptance decimal
    results_of
authorized = refl

authorize_publication-IsAuthorized_example :
    (s : Summary) × (progress digest open_stream ≡ ok s)
    × IsAuthorized open_stream "b" (batch "b") s
authorize_publication-IsAuthorized_example =
    authorize_publication-IsAuthorized digest open_stream "b" (batch "b") authorized

unfoldable reconciled : (r : Reconciled) × (reconcile digest closed_stream ≡ ok r)
unfolding reconcile progress starting_offsets offsets inspect_acceptance decimal results_of
reconciled = (_, refl)

reconcile-IsClosed_example :
    (s : Summary) × (progress digest closed_stream ≡ ok s) × IsClosed s reconciled.0
reconcile-IsClosed_example = reconcile-IsClosed digest closed_stream reconciled.0 reconciled.1

limit_too_large :
    make_limits (pos 8) (pos 5001) (pos 200) (pos 1) (pos 50) (pos 5000) ≡ err invalid_limit
unfolding make_limits
limit_too_large = refl

unfoldable snapshot : (b : Snapshot) × (backlog_snapshot digest open_stream ≡ ok b)
unfolding backlog_snapshot progress starting_offsets offsets inspect_acceptance decimal results_of
snapshot = (_, refl)

different_names : (id : String) → IsNodup (stems (open_stream.acknowledgements id))
different_names id = elim (Bool-cases (id == "a")) [
  | inl one ↦ rw one (refl, tt)
  | inr other ↦ rw other tt
]

backlog_snapshot-IsLayered_example : IsLayered digest open_stream snapshot.0
backlog_snapshot-IsLayered_example =
    backlog_snapshot-IsLayered digest open_stream snapshot.0 different_names snapshot.1

one_to_publish : snapshot.0.publication_backlog_ready_events ≡ 1
unfolding snapshot
one_to_publish = refl

abbrev fence : Object
fence =
    ("contract_version", text fence_contract)
    ∷ ("topic", text topic_name)
    ∷ ("group_id", text (concat group_name "-7"))
    ∷ ("cluster_id", text "c")
    ∷ ("topic_id", text "i")
    ∷ ("beginning_0", num 0)
    ∷ ("beginning_1", num 0)
    ∷ ("beginning_2", num 0)
    ∷ ("end_0", num 10)
    ∷ ("end_1", num 0)
    ∷ ("end_2", num 0)
    ∷ []

fenced : check_fence (some fence) (concat group_name "-7") ≡ ok fence
unfolding check_fence read_object natural
fenced = refl
