-- ===== src/Reliability/Backlog.antt =====
-- reliability/outage.py, `backlog_snapshot`: what waits at each layer of a stream.
pub mod Layers
use sentinel_aegis_forge.Common.{
  ℕ, suc, ◌+◌, ◌-◌, String, Bool, false, not, ◌&&◌, Option, none, some, List, [], ◌∷◌, arith, leb,
  nat_eq, string_eq, pair_eq, list_eq, Dict, lookup, Result, ok, ◌>>=◌, ◌>>◌, raise_if, map_error,
}
use sentinel_aegis_forge.Common.Json.{Json, text, Object, has_value}
use sentinel_aegis_forge.Availability.Outbox.{ReadyEvent}
use sentinel_aegis_forge.Incremental.Stream.{
  StreamError, Manifest, Batch, File, Directory, read_object, events_by_id,
}
use sentinel_aegis_forge.Incremental.Progress.{batches, progress}

pub data BacklogError : Type 0 where
  stream : StreamError → BacklogError
  acknowledgement_differs inconsistent_counts : BacklogError

pub record Snapshot : Type 0 where
  pub discovery_backlog_versions : ℕ
  pub publication_backlog_ready_events : ℕ
  pub acceptance_backlog_ready_events : ℕ
  pub inference_backlog_ready_events : ℕ
  pub prepared : ℕ
  pub acknowledged : ℕ
  pub accepted : ℕ
  pub terminal_results : ℕ

pub acknowledgement_ok : Manifest → String → String → Object → Option ReadyEvent → Bool
acknowledgement_ok manifest batch_id stem ack none = false
acknowledgement_ok manifest batch_id stem ack (some event) =
    has_value "ready_event_id" (text stem) ack
    && (has_value "event_id" (text event.event_id) ack
        && (has_value "publication_batch_id" (text batch_id) ack
            && (has_value "topic_id" (text manifest.topic_id) ack
                && has_value "cluster_id" (text manifest.cluster_id) ack)))

-- the inner loop, which counts the acknowledgements of a batch
unfoldable pub acknowledged_of :
    Manifest → String → Dict String ReadyEvent → List File → Result BacklogError ℕ
unfolding acknowledgement_ok
acknowledged_of manifest batch_id by_id [] = ok 0
acknowledged_of manifest batch_id by_id ((stem, file) ∷ rest) = do
  ack ← map_error stream (read_object file)
  raise_if (not (acknowledgement_ok manifest batch_id stem ack (lookup stem by_id)))
      acknowledgement_differs
  n ← acknowledged_of manifest batch_id by_id rest
  ok (suc n)

unfoldable pub acknowledged_from : Directory → List Batch → Result BacklogError ℕ
unfolding acknowledged_of
acknowledged_from root [] = ok 0
acknowledged_from root (batch ∷ rest) = do
  m ←
      acknowledged_of root.manifest batch.publication_batch_id (events_by_id [] batch.events)
        (root.acknowledgements batch.publication_batch_id)
  n ← acknowledged_from root rest
  ok (m + n)

module _ (digest : Json → String) where
  unfoldable pub backlog_snapshot : Directory → Result BacklogError Snapshot
  unfolding acknowledged_from
  backlog_snapshot root = do
    summary ← map_error stream (progress digest root)
    acknowledged ← acknowledged_from root (batches root.versions)
    let prepared = summary.prepared_ready_events
    let accepted = summary.accepted_ready_events
    raise_if (not (leb accepted acknowledged && leb acknowledged prepared)) inconsistent_counts
    ok (record {
      discovery_backlog_versions = summary.discovery_backlog_versions;
      publication_backlog_ready_events = prepared - acknowledged;
      acceptance_backlog_ready_events = acknowledged - accepted;
      inference_backlog_ready_events = summary.inference_backlog_ready_events;
      prepared = prepared;
      acknowledged = acknowledged;
      accepted = accepted;
      terminal_results = summary.completed_inference_results;
    })
