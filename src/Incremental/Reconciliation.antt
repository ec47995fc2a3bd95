-- ===== src/Incremental/Reconciliation.antt =====
-- incremental_shadow/progress.py, `reconcile`.
pub mod Closed
use sentinel_aegis_forge.Common.{
  ℕ, String, Bool, true, false, not, ◌||◌, Option, none, some, List, [], ◌∷◌, arith, ◌==◌, nat_eq,
  string_eq, pair_eq, list_eq, length, any, count, same_set, Dict, lookup, insert, keys, Result, ok,
  err, ◌>>=◌, ◌>>◌, raise_if, ℤ,
}
use sentinel_aegis_forge.Common.Json.{Json, num, text, Object, has_values}
use sentinel_aegis_forge.Availability.Outbox.{ReadyEvent, ready_ids}
use sentinel_aegis_forge.Incremental.Stream.{
  StreamError, Batch, Directory, Offsets, starting_offsets, no_provenance, provenance_differs,
  incomplete,
}
use sentinel_aegis_forge.Incremental.Acceptance.{inspect_acceptance}
use sentinel_aegis_forge.Incremental.Outcomes.{
  Outcome, Status, scored, out_of_scope, input_rejected, inference_failed, results_of,
}
use sentinel_aegis_forge.Incremental.Progress.{progress, batches, update, Summary}

-- the variables of the loop of `reconcile`
pub record Sources : Type 0 where
  pub source_start : Offsets
  pub source_ids : List String
  pub accepted : List String
  pub provenance : Dict String (ReadyEvent × String)

abbrev pub trace :
    String → List ReadyEvent → Dict String (ReadyEvent × String) → Dict String (ReadyEvent × String)
trace batch_id [] d = d
trace batch_id (event ∷ rest) d =
    trace batch_id rest (insert event.ready_event_id (event, batch_id) d)

abbrev pub provenance_of : ReadyEvent → String → Object
provenance_of event batch_id =
    ("event_id", text event.event_id)
    ∷ ("publication_batch_id", text batch_id)
    ∷ ("first_visible_delta_version", num event.first_visible_delta_version)
    ∷ ("source_feature_row_fingerprint", text event.source_feature_row_fingerprint)
    ∷ []

traced_to : Option (ReadyEvent × String) → Result StreamError (ReadyEvent × String)
traced_to none = err no_provenance
traced_to (some p) = ok p

unfoldable pub check_provenance :
    Dict String (ReadyEvent × String) → Dict String Outcome → Result StreamError (Unit {0})
unfolding traced_to
check_provenance provenance [] = ok tt
check_provenance provenance ((ready_id, outcome) ∷ rest) = do
  (event, batch_id) ← traced_to (lookup ready_id provenance)
  raise_if (not (has_values outcome.item (provenance_of event batch_id))) provenance_differs
  check_provenance provenance rest

abbrev pub has_failed : Status → Bool
has_failed input_rejected = true
has_failed inference_failed = true
has_failed _ = false

abbrev pub is_scored : Status → Bool
is_scored scored = true
is_scored _ = false

abbrev pub is_out_of_scope : Status → Bool
is_out_of_scope out_of_scope = true
is_out_of_scope _ = false

abbrev pub outcomes : Dict String Outcome → List Status
outcomes [] = []
outcomes ((_, outcome) ∷ rest) = outcome.status ∷ outcomes rest

-- the last guard
abbrev pub is_incomplete : Summary → Sources → Dict String Outcome → Bool
is_incomplete summary st results =
    not (summary.discovery_backlog_versions == 0)
    || (not (same_set st.source_ids st.accepted)
        || (not (same_set st.accepted (keys results)) || any has_failed (outcomes results)))

abbrev pub nothing : Offsets → Sources
nothing start = record { source_start = start; source_ids = []; accepted = []; provenance = [] }

pub record Reconciled : Type 0 where
  pub unique_source_ready_events : ℕ
  pub published_and_accepted_ready_events : ℕ
  pub terminal_inference_results : ℕ
  pub scored_results : ℕ
  pub out_of_scope_results : ℕ
  pub physical_kafka_messages : ℕ
  pub duplicate_physical_messages : ℤ

module _ (digest : Json → String) where
  -- the rest of the body, with the acceptance of the batch if it exists
  pub source_accept :
      Directory
      → Batch
      → Sources
      → List String
      → Dict String (ReadyEvent × String)
      → Option (Option Object)
      → Result StreamError Sources
  source_accept root batch st sources traced none = ok (record {
    source_start = st.source_start;
    source_ids = sources;
    accepted = st.accepted;
    provenance = traced;
  })
  source_accept root batch st sources traced (some file) = do
    item ← inspect_acceptance digest root batch file st.source_start
    ok (record {
      source_start = item.finish;
      source_ids = sources;
      accepted = update st.accepted (ready_ids batch.events);
      provenance = traced;
    })

  source_step : Directory → Batch → Sources → Result StreamError Sources
  unfolding source_accept
  source_step root batch st =
      source_accept root batch st (update st.source_ids (ready_ids batch.events))
        (trace batch.publication_batch_id batch.events st.provenance)
        (root.acceptance batch.publication_batch_id)

  unfoldable pub sources_from : Directory → List Batch → Sources → Result StreamError Sources
  unfolding source_step
  sources_from root [] st = ok st
  sources_from root (batch ∷ rest) st = do st ← source_step root batch st; sources_from root rest st

  unfoldable pub reconcile : Directory → Result StreamError Reconciled
  unfolding sources_from check_provenance
  reconcile root = do
    summary ← progress digest root
    start ← starting_offsets root
    st ← sources_from root (batches root.versions) (nothing start)
    results ← results_of digest root
    check_provenance st.provenance results
    raise_if (is_incomplete summary st results) incomplete
    ok (record {
      unique_source_ready_events = length st.source_ids;
      published_and_accepted_ready_events = length st.accepted;
      terminal_inference_results = length results;
      scored_results = count is_scored (outcomes results);
      out_of_scope_results = count is_out_of_scope (outcomes results);
      physical_kafka_messages = summary.physical_kafka_records;
      duplicate_physical_messages = summary.duplicate_physical_notifications;
    })
