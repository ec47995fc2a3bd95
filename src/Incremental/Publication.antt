-- ===== src/Incremental/Publication.antt =====
-- incremental_shadow/progress.py, `authorize_publication`.
pub mod Gates
use sentinel_aegis_forge.Common.{
  ◌+◌, String, Bool, true, false, not, ◌&&◌, Option, none, some, List, [], ◌∷◌, arith, ltb,
  if◌then◌else◌, ◌==◌, nat_eq, string_eq, pair_eq, list_eq, length, Result, ok, err, ◌>>=◌, ◌>>◌,
  raise_if,
}
use sentinel_aegis_forge.Common.Json.{Json}
use sentinel_aegis_forge.Incremental.Stream.{
  StreamError, Batch, Directory, unknown_batch, already_accepted, not_the_earliest, another_active,
  backpressure, transport_backlog,
}
use sentinel_aegis_forge.Incremental.Progress.{progress, batches}

find_batch : String → List Batch → Option Batch
find_batch batch_id [] = none
find_batch batch_id (batch ∷ rest) =
    if batch.publication_batch_id == batch_id then some batch else find_batch batch_id rest

is_accepted : Directory → String → Bool
is_accepted root batch_id = elim (root.acceptance batch_id) [ none ↦ false | some _ ↦ true ]

-- the earliest batch that is not accepted
first_pending : Directory → List Batch → Option Batch
unfolding is_accepted
first_pending root [] = none
first_pending root (batch ∷ rest) =
    if is_accepted root batch.publication_batch_id then first_pending root rest else some batch

-- `first_pending == pending`: both are unaccepted records, so they are one if their batches are
is_batch : String → Option Batch → Bool
is_batch batch_id none = false
is_batch batch_id (some batch) = batch.publication_batch_id == batch_id

found_batch : Option Batch → Result StreamError Batch
found_batch none = err unknown_batch
found_batch (some batch) = ok batch

module _ (digest : Json → String) where
  unfoldable pub authorize_publication : Directory → String → Result StreamError Batch
  unfolding find_batch is_accepted first_pending is_batch found_batch
  authorize_publication root batch_id = do
    summary ← progress digest root
    let limits = root.manifest.limits
    batch ← found_batch (find_batch batch_id (batches root.versions))
    raise_if (is_accepted root batch_id) already_accepted
    raise_if (not (is_batch batch_id (first_pending root (batches root.versions)))) not_the_earliest
    raise_if (ltb 0 summary.active_publication_batches && not (root.journal_exists batch_id))
        another_active
    raise_if
        (ltb limits.maximum_accepted_unprocessed_events
          (summary.inference_backlog_ready_events + length batch.events))
        backpressure
    raise_if (ltb limits.maximum_unpublished_ready_events summary.transport_backlog_ready_events)
        transport_backlog
    ok batch
