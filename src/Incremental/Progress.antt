-- ===== src/Incremental/Progress.antt =====
-- incremental_shadow/progress.py, `progress`.
pub mod Sets
pub mod Chain
pub mod Apart
pub mod Accounts
use sentinel_aegis_forge.Common.{
  ℕ, ◌+◌, ◌-◌, String, Bool, true, false, not, ◌||◌, Option, none, some, List, [], ◌∷◌, ◌++◌, arith,
  ltb, leb, if◌then◌else◌, nat_eq, string_eq, pair_eq, list_eq, length, any, select, contains,
  subset, Dict, keys, Result, ok, ◌>>=◌, ◌>>◌, raise_if, ℤ, pos, negsuc,
}
use sentinel_aegis_forge.Common.Json.{Json, Object}
use sentinel_aegis_forge.Availability.Outbox.{ready_ids}
use sentinel_aegis_forge.Incremental.Stream.{
  StreamError, Batch, Directory, Limits, Offsets, starting_offsets, ready_id_reused,
  later_batch_accepted, two_active_batches, result_not_accepted, source_regressed,
}
use sentinel_aegis_forge.Incremental.Acceptance.{inspect_acceptance}
use sentinel_aegis_forge.Incremental.Outcomes.{Outcome, results_of}

-- The variables of the loop of `progress`. A set is a list without repetition: `update` adds
-- what is not there.
pub record Loop : Type 0 where
  pub start : Offsets
  pub accepted_ids : List String
  pub prepared_ids : List String
  pub accepted_batches : ℕ
  pub active_batches : ℕ
  pub physical : ℕ
  pub acceptance_closed : Bool

pub data OperationalState : Type 0 where
  paused_backpressure processing idle : OperationalState

pub record Summary : Type 0 where
  pub last_fully_discovered_delta_version : ℤ
  pub latest_source_delta_version : ℕ
  pub discovery_backlog_versions : ℕ
  pub transport_backlog_ready_events : ℕ
  pub inference_backlog_ready_events : ℕ
  pub prepared_ready_events : ℕ
  pub accepted_ready_events : ℕ
  pub completed_inference_results : ℕ
  pub accepted_batches : ℕ
  pub active_publication_batches : ℕ
  pub physical_kafka_records : ℕ
  pub duplicate_physical_notifications : ℤ
  pub operational_state : OperationalState

-- `a & b` is not empty
abbrev pub meets : List String → List String → Bool
meets xs ys = any (λ x. contains x ys) xs

-- `xs.update(ys)`
abbrev pub update : List String → List String → List String
update xs [] = xs
update xs (y ∷ ys) = update (if contains y xs then xs else xs ++ y ∷ []) ys

-- `xs - ys`
abbrev pub without : List String → List String → List String
without xs ys = select (λ x. not (contains x ys)) xs

-- `a - b` on ints
abbrev pub int_difference : ℕ → ℕ → ℤ
int_difference a b = if leb b a then pos (a - b) else negsuc (b - a - 1)

-- a record without a batch is passed over
abbrev pub batches : List (Option Batch) → List Batch
batches [] = []
batches (none ∷ rest) = batches rest
batches (some batch ∷ rest) = batch ∷ batches rest

abbrev pub first_loop : Offsets → Loop
first_loop start = record {
  start = start;
  accepted_ids = [];
  prepared_ids = [];
  accepted_batches = 0;
  active_batches = 0;
  physical = 0;
  acceptance_closed = false;
}

-- the ladder of `state`
abbrev pub operational_state : Limits → ℕ → ℕ → ℕ → OperationalState
operational_state limits undiscovered unaccepted pending =
    if leb limits.maximum_accepted_unprocessed_events pending
    then paused_backpressure
    else if ltb 0 undiscovered || (ltb 0 unaccepted || ltb 0 pending)
    then processing
    else idle

-- `latest - (first + len(versions)) + 1`, which may not be negative
unfoldable pub undiscovered_of : Directory → Result StreamError ℕ
undiscovered_of root = do
  let next = root.manifest.first_delta_version + length root.versions
  raise_if (ltb (root.latest_version + 1) next) source_regressed
  ok (root.latest_version + 1 - next)

-- the end of `progress`, once the loop and the results are there; the results are keyed by their
-- own identity, so that the comparison of the two always passes
unfoldable pub summarize : Directory → Loop → Dict String Outcome → Result StreamError Summary
unfolding undiscovered_of
summarize root st results = do
  let limits = root.manifest.limits
  raise_if (ltb limits.maximum_active_publication_batches st.active_batches) two_active_batches
  raise_if (not (subset (keys results) st.accepted_ids)) result_not_accepted
  undiscovered ← undiscovered_of root
  let pending = length (without st.accepted_ids (keys results))
  let unaccepted = length (without st.prepared_ids st.accepted_ids)
  ok (record {
    last_fully_discovered_delta_version =
        int_difference (root.manifest.first_delta_version + length root.versions) 1;
    latest_source_delta_version = root.latest_version;
    discovery_backlog_versions = undiscovered;
    transport_backlog_ready_events = unaccepted;
    inference_backlog_ready_events = pending;
    prepared_ready_events = length st.prepared_ids;
    accepted_ready_events = length st.accepted_ids;
    completed_inference_results = length results;
    accepted_batches = st.accepted_batches;
    active_publication_batches = st.active_batches;
    physical_kafka_records = st.physical;
    duplicate_physical_notifications = int_difference st.physical (length st.accepted_ids);
    operational_state = operational_state limits undiscovered unaccepted pending;
  })

module _ (digest : Json → String) where
  -- the rest of the body, with the acceptance of the batch if it exists
  pub settle :
      Directory → Batch → Loop → List String → Option (Option Object) → Result StreamError Loop
  settle root batch st prepared none = ok (record {
    start = st.start;
    accepted_ids = st.accepted_ids;
    prepared_ids = prepared;
    accepted_batches = st.accepted_batches;
    active_batches =
        if root.journal_exists batch.publication_batch_id
        then st.active_batches + 1
        else st.active_batches;
    physical = st.physical;
    acceptance_closed = true;
  })
  settle root batch st prepared (some file) = do
    raise_if st.acceptance_closed later_batch_accepted
    accepted ← inspect_acceptance digest root batch file st.start
    ok (record {
      start = accepted.finish;
      accepted_ids = update st.accepted_ids (ready_ids batch.events);
      prepared_ids = prepared;
      accepted_batches = st.accepted_batches + 1;
      active_batches = st.active_batches;
      physical = st.physical + accepted.physical_record_count;
      acceptance_closed = st.acceptance_closed;
    })

  -- the body of the loop: the ready identities are new, and accepted batches come first
  unfoldable pub progress_step : Directory → Batch → Loop → Result StreamError Loop
  unfolding settle
  progress_step root batch st = do
    let ids = ready_ids batch.events
    raise_if (meets st.prepared_ids ids) ready_id_reused
    settle root batch st (update st.prepared_ids ids) (root.acceptance batch.publication_batch_id)

  unfoldable pub progress_from : Directory → List Batch → Loop → Result StreamError Loop
  unfolding progress_step
  progress_from root [] st = ok st
  progress_from root (batch ∷ rest) st = do
    st ← progress_step root batch st
    progress_from root rest st

  unfoldable pub progress : Directory → Result StreamError Summary
  unfolding progress_from summarize
  progress root = do
    start ← starting_offsets root
    st ← progress_from root (batches root.versions) (first_loop start)
    results ← results_of digest root
    summarize root st results
