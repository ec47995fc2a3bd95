-- ===== src/Incremental/Stream.antt =====
-- The directory of an operational stream, as incremental_shadow/progress.py reads it, and the
-- limits of incremental_shadow/operations.py. A file is the object that `read_object` returns,
-- `none` where it raises. A batch is what `inspect_batch` and `inspect_outbox` return of a record
-- of `records`, which has one exactly where its commit brought events.
use Prim.Native.String.{◌++◌ as concat}
use sentinel_aegis_forge.Common.{
  range, ℕ, ◌-◌, String, Bool, not, ◌&&◌, ◌||◌, Option, none, some, List, [], ◌∷◌, ◌++◌, ltb, leb,
  ◌==◌, nat_eq, string_eq, pair_eq, list_eq, Dict, lookup, insert, Result, ok, err, ◌>>=◌, ◌>>◌,
  raise_if, ℤ, in_range, to_nat,
}
use sentinel_aegis_forge.Common.Json.{Json, num, Object}
use sentinel_aegis_forge.Availability.Outbox.{ReadyEvent}

pub data StreamError : Type 0 where
  unreadable_file invalid_limit two_active_allowed invalid_offsets acceptance_identity
        acceptance_fields skips_or_overlaps receipt_root receipt_inventory invalid_observation
        range_not_reconciled receipt_differs journal_changed acknowledgements_incomplete
        acknowledgement_absent invalid_result ready_id_reused later_batch_accepted
        two_active_batches result_not_accepted source_regressed unknown_batch already_accepted
        not_the_earliest another_active backpressure transport_backlog invalid_group invalid_fence
        fence_offsets no_provenance provenance_differs incomplete :
      StreamError

pub record Limits : Type 0 where
  pub maximum_undiscovered_versions : ℕ
  pub maximum_unpublished_ready_events : ℕ
  pub maximum_accepted_unprocessed_events : ℕ
  pub maximum_active_publication_batches : ℕ
  pub maximum_inference_events_per_tick : ℕ
  pub maximum_cached_source_rows : ℕ

-- `Limits(...)`, with `__post_init__`
unfoldable pub make_limits : ℤ → ℤ → ℤ → ℤ → ℤ → ℤ → Result StreamError Limits
make_limits undiscovered unpublished unprocessed active tick cached = do
  raise_if
      (not (
        in_range 1 5000 undiscovered
        && (in_range 1 5000 unpublished
            && (in_range 1 5000 unprocessed
                && (in_range 1 5000 active && (in_range 1 5000 tick && in_range 1 5000 cached))))))
      invalid_limit
  raise_if (not (to_nat active == 1)) two_active_allowed
  ok (record {
    maximum_undiscovered_versions = to_nat undiscovered;
    maximum_unpublished_ready_events = to_nat unpublished;
    maximum_accepted_unprocessed_events = to_nat unprocessed;
    maximum_active_publication_batches = to_nat active;
    maximum_inference_events_per_tick = to_nat tick;
    maximum_cached_source_rows = to_nat cached;
  })

pub record Manifest : Type 0 where
  pub stream_id : String
  pub source_delta_table_id : String
  pub first_delta_version : ℕ
  pub topic : String
  pub cluster_id : String
  pub topic_id : String
  pub group_id : String
  pub candidate_id : String
  pub model_tree_sha256 : String
  pub limits : Limits

pub record Batch : Type 0 where
  pub publication_batch_id : String
  pub outbox_id : String
  pub events : List ReadyEvent

-- a file of a directory, by its stem or its name
abbrev pub File : Type 0
File = String × Option Object

pub record Directory : Type 0 where
  pub manifest : Manifest
  -- one for each discovered version, in their order
  pub versions : List (Option Batch)
  pub fence : Option Object
  pub acceptance : String → Option (Option Object)
  pub receiver_identity : String → Option Object
  pub receipts : String → List File
  pub observations : String → List File
  pub journal_exists : String → Bool
  pub journal_identity : String → Option Object
  pub acknowledgements : String → List File
  pub results : List File
  -- `DeltaTable(source).version()`
  pub latest_version : ℕ

unfoldable pub read_object : Option Object → Result StreamError Object
read_object none = err unreadable_file
read_object (some d) = ok d

-- a `dict[int, int]` over the three partitions
pub record Offsets : Type 0 where
  pub part_0 : ℕ
  pub part_1 : ℕ
  pub part_2 : ℕ

unfoldable pub natural : Option Json → Result StreamError ℕ
natural (some (num n)) = ok n
natural _ = err invalid_offsets

-- `_offsets`
unfoldable pub offsets : Object → String → Result StreamError Offsets
unfolding natural
offsets item prefix = do
  a ← natural (lookup (concat prefix "_0") item)
  b ← natural (lookup (concat prefix "_1") item)
  c ← natural (lookup (concat prefix "_2") item)
  ok (record { part_0 = a; part_1 = b; part_2 = c })

-- `_starting_offsets`
unfoldable pub starting_offsets : Directory → Result StreamError Offsets
unfolding read_object
starting_offsets root = do fence ← read_object root.fence; offsets fence "end"

abbrev pub same_offsets : Offsets → Offsets → Bool
same_offsets a b = a.part_0 == b.part_0 && (a.part_1 == b.part_1 && a.part_2 == b.part_2)

-- `start[part] <= end[part]` for each
abbrev pub not_before : Offsets → Offsets → Bool
not_before start finish =
    leb start.part_0 finish.part_0
    && (leb start.part_1 finish.part_1 && leb start.part_2 finish.part_2)

-- `part in start` and `start[part] <= offset < end[part]`
abbrev pub in_offsets : Offsets → Offsets → ℕ → ℕ → Bool
in_offsets start finish part offset =
    (part == 0 && (leb start.part_0 offset && ltb offset finish.part_0))
    || ((part == 1 && (leb start.part_1 offset && ltb offset finish.part_1))
        || (part == 2 && (leb start.part_2 offset && ltb offset finish.part_2)))

abbrev pub coordinates_of : ℕ → List ℕ → List (ℕ × ℕ)
coordinates_of part [] = []
coordinates_of part (offset ∷ rest) = (part, offset) ∷ coordinates_of part rest

-- `{(part, offset) for part in range(3) for offset in range(start[part], end[part])}`
abbrev pub coordinates : Offsets → Offsets → List (ℕ × ℕ)
coordinates start finish =
    coordinates_of 0 (range start.part_0 (finish.part_0 - start.part_0))
    ++ (coordinates_of 1 (range start.part_1 (finish.part_1 - start.part_1))
        ++ coordinates_of 2 (range start.part_2 (finish.part_2 - start.part_2)))

-- `{event["ready_event_id"]: event for event in events}`
abbrev pub events_by_id : Dict String ReadyEvent → List ReadyEvent → Dict String ReadyEvent
events_by_id d [] = d
events_by_id d (event ∷ rest) = events_by_id (insert event.ready_event_id event d) rest
