-- ===== src/Incremental/Records.antt =====
-- incremental_shadow/operations.py, `records`: the discovery records of a stream.
pub mod Gapless
mod Examples
use sentinel_aegis_forge.Common.{
  range, ℕ, String, Bool, true, false, not, ◌&&◌, Option, none, some, List, [], ◌∷◌, arith, leb,
  ◌==◌, nat_eq, string_eq, pair_eq, list_eq, length, same_set, lookup, keys, Result, ok, err, ◌>>=◌,
  ◌>>◌, raise_if, sort,
}
use sentinel_aegis_forge.Common.Json.{Json, num, text, null, Object, has_value}
use sentinel_aegis_forge.Availability.Outbox.{ReadyEvent, Segment, ready_ids}
use sentinel_aegis_forge.Incremental.Progress.{meets, update}

-- `CONTRACT`
abbrev pub contract : String
contract = "incremental-shadow-operations-v1"

pub data RecordError : Type 0 where
  version_gap : RecordError
  linked invalid_record segment_differs duplicate_identity membership empty_commit unreadable :
      ℕ → RecordError

-- What `inspect_batch` and `inspect_outbox` return for the record's batch path.
pub record BatchView : Type 0 where
  pub publication_batch_id : String
  pub segment_ids : List String
  pub ready : List ReadyEvent

-- A file of `versions`: the number of its stem, its object, and what `inspect_segment` and the
-- inspection of its batch return for the paths that it names.
pub record VersionFile : Type 0 where
  pub version : ℕ
  pub is_plain : Bool
  pub content : Option Object
  pub segment : Option (Segment × List ReadyEvent)
  pub batch : Option BatchView

-- What the manifest of the stream pins.
pub record Pinned : Type 0 where
  pub source_delta_table_id : String
  pub source_schema_fingerprint : String
  pub first_delta_version : ℕ

abbrev pub by_version : VersionFile → VersionFile → Bool
by_version a b = leb a.version b.version

abbrev pub versions_of : List VersionFile → List ℕ
versions_of [] = []
versions_of (file ∷ rest) = file.version ∷ versions_of rest

abbrev pub record_names : List String
record_names =
    "contract_version" ∷ "delta_version" ∷ "segment_id" ∷ "segment_path" ∷ "ready_event_count"
    ∷ "publication_batch_id" ∷ "batch_path" ∷ []

readable : {A : Type 0} → ℕ → Option A → Result RecordError A
readable version none = err (unreadable version)
readable version (some a) = ok a

abbrev pub same_event : ReadyEvent → ReadyEvent → Bool
same_event a b =
    a.availability_contract_version == b.availability_contract_version
    && (a.ready_event_id == b.ready_event_id
        && (a.event_id == b.event_id
            && (a.source_delta_table_id == b.source_delta_table_id
                && (a.first_visible_delta_version == b.first_visible_delta_version
                    && (a.source_schema_fingerprint == b.source_schema_fingerprint
                        && (a.source_feature_row_fingerprint == b.source_feature_row_fingerprint
                            && a.availability_state == b.availability_state))))))

abbrev pub same_events : List ReadyEvent → List ReadyEvent → Bool
same_events [] [] = true
same_events (a ∷ s) (b ∷ t) = same_event a b && same_events s t
same_events _ _ = false

-- the segment is the record's, and that of the pinned source
abbrev pub segment_ok : Pinned → ℕ → Object → Segment → List ReadyEvent → Bool
segment_ok pinned version item segment ready =
    segment.source_delta_table_id == pinned.source_delta_table_id
    && (segment.source_schema_fingerprint == pinned.source_schema_fingerprint
        && (segment.source_delta_version == version
            && (has_value "segment_id" (text segment.segment_id) item
                && has_value "ready_event_count" (num (length ready)) item)))

is_null : Option Json → Bool
is_null (some null) = true
is_null _ = false

-- an empty commit has no batch, and any other has one with its segment and its events
check_batch : VersionFile → Object → Segment → List ReadyEvent → Result RecordError (Unit {0})
unfolding readable is_null
check_batch file item segment [] =
    raise_if
      (not (is_null (lookup "batch_path" item) && is_null (lookup "publication_batch_id" item)))
      (empty_commit file.version)
check_batch file item segment (event ∷ rest) = do
  batch ← readable file.version file.batch
  raise_if
      (not (
        has_value "publication_batch_id" (text batch.publication_batch_id) item
        && (batch.segment_ids == segment.segment_id ∷ []
            && same_events batch.ready (event ∷ rest))))
      (membership file.version)

-- the body of the loop; `all_ids` are the identities of the earlier versions
unfoldable pub check_file :
    Pinned → List String → VersionFile → Result RecordError (Object × List ReadyEvent)
unfolding check_batch readable
check_file pinned all_ids file = do
  raise_if (not file.is_plain) (linked file.version)
  item ← readable file.version file.content
  raise_if
      (not (
        same_set (keys item) record_names
        && (has_value "contract_version" (text contract) item
            && has_value "delta_version" (num file.version) item)))
      (invalid_record file.version)
  (segment, ready) ← readable file.version file.segment
  raise_if (not (segment_ok pinned file.version item segment ready)) (segment_differs file.version)
  raise_if (meets (ready_ids ready) all_ids) (duplicate_identity file.version)
  check_batch file item segment ready
  ok (item, ready)

unfoldable pub records_from :
    Pinned → List String → List VersionFile → Result RecordError (List (Object × List ReadyEvent))
unfolding check_file
records_from pinned all_ids [] = ok []
records_from pinned all_ids (file ∷ rest) = do
  (item, ready) ← check_file pinned all_ids file
  later ← records_from pinned (update all_ids (ready_ids ready)) rest
  ok ((item, ready) ∷ later)

-- `records`; the ready events of each record stand with it, since the callers inspect them again
unfoldable pub records :
    Pinned → List VersionFile → Result RecordError (List (Object × List ReadyEvent))
unfolding records_from
records pinned files = do
  let paths = sort by_version files
  raise_if (not (versions_of paths == range pinned.first_delta_version (length paths))) version_gap
  records_from pinned [] paths
