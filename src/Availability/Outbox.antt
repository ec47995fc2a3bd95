-- ===== src/Availability/Outbox.antt =====
-- availability/outbox.py: commit segments of the differences, and their outbox. `hashlib.sha256`
-- over the canonical bytes is a parameter, `digest`; paths are texts.
pub mod Announced
mod Examples
use sentinel_aegis_forge.Common.{
  range, ℕ, ◌+◌, ◌-◌, String, Bool, not, ◌&&◌, ◌||◌, Option, none, some, List, [], ◌∷◌, ◌++◌, ltb,
  if◌then◌else◌, ◌==◌, nat_eq, string_eq, pair_eq, list_eq, length, to_set, is_distinct, keys,
  Result, ok, err, ◌>>◌, raise_if, text_leb, sort,
}
use sentinel_aegis_forge.Common.Json.{Json, null, num, text, arr, obj, items, texts, fields}
use sentinel_aegis_forge.Availability.Contract.{
  ready_version, segment_version, outbox_version, discovery_version, max_ready_events,
}
use sentinel_aegis_forge.Availability.Discovery.{Rows, VersionDifference, max_versions}

pub record ReadyEvent : Type 0 where
  pub availability_contract_version : String
  pub ready_event_id : String
  pub event_id : String
  pub source_delta_table_id : String
  pub first_visible_delta_version : ℕ
  pub source_schema_fingerprint : String
  pub source_feature_row_fingerprint : String
  pub availability_state : String

abbrev pub event_json : ReadyEvent → Json
event_json e = obj (
    fields (
      ("availability_contract_version", text e.availability_contract_version)
      ∷ ("ready_event_id", text e.ready_event_id)
      ∷ ("event_id", text e.event_id)
      ∷ ("source_delta_table_id", text e.source_delta_table_id)
      ∷ ("first_visible_delta_version", num e.first_visible_delta_version)
      ∷ ("source_schema_fingerprint", text e.source_schema_fingerprint)
      ∷ ("source_feature_row_fingerprint", text e.source_feature_row_fingerprint)
      ∷ ("availability_state", text e.availability_state)
      ∷ []))

abbrev pub events_json : List ReadyEvent → List Json
events_json [] = []
events_json (e ∷ rest) = event_json e ∷ events_json rest

pub record Segment : Type 0 where
  pub source_delta_path : String
  pub source_delta_table_id : String
  pub source_delta_version : ℕ
  pub predecessor_delta_version : Option ℕ
  pub source_schema_fingerprint : String
  pub source_protocol : String
  pub previous_event_count : ℕ
  pub current_event_count : ℕ
  pub new_event_count : ℕ
  pub unchanged_event_count : ℕ
  pub previous_snapshot_fingerprint : String
  pub current_snapshot_fingerprint : String
  pub new_event_ids_fingerprint : String
  pub new_event_rows_fingerprint : String
  pub ready_events_fingerprint : String
  pub segment_id : String

pub record Outbox : Type 0 where
  pub source_delta_path : String
  pub source_delta_table_id : String
  pub source_schema_fingerprint : String
  pub start_delta_version : ℕ
  pub end_delta_version : ℕ
  pub segment_ids : List String
  pub ready_event_count : ℕ
  pub unique_event_count : ℕ
  pub source_event_ids_fingerprint : String
  pub logical_outbox_fingerprint : String
  pub outbox_id : String

pub data OutboxError : Type 0 where
  no_segment not_contiguous identities_differ too_many_events repeated_identity : OutboxError

abbrev pub pair_leb : String × String → String × String → Bool
pair_leb (a, b) (c, d) = if a == c then text_leb b d else text_leb a c

-- `sorted(rows.items())`
abbrev pub rows_json : Rows → List Json
rows_json [] = []
rows_json ((k, v) ∷ rest) = arr (texts (k ∷ v ∷ [])) ∷ rows_json rest

sorted_rows : Rows → Json
sorted_rows rows = arr (items (rows_json (sort pair_leb rows)))

version_or_null : Option ℕ → Json
version_or_null none = null
version_or_null (some n) = num n

-- `diff.version - 1 if diff.previous is not None else None`
predecessor_of : VersionDifference → Option ℕ
predecessor_of diff = elim diff.previous [ none ↦ none | some _ ↦ some (diff.version - 1) ]

abbrev pub event_ids : List ReadyEvent → List String
event_ids [] = []
event_ids (e ∷ rest) = e.event_id ∷ event_ids rest

abbrev pub ready_ids : List ReadyEvent → List String
ready_ids [] = []
ready_ids (e ∷ rest) = e.ready_event_id ∷ ready_ids rest

abbrev pub segment_versions : List (Segment × List ReadyEvent) → List ℕ
segment_versions [] = []
segment_versions ((m, _) ∷ rest) = m.source_delta_version ∷ segment_versions rest

abbrev pub field_of : (Segment → String) → List (Segment × List ReadyEvent) → List String
field_of f [] = []
field_of f ((m, _) ∷ rest) = f m ∷ field_of f rest

-- `[event for batch in lists for event in batch]`
abbrev pub all_ready : List (Segment × List ReadyEvent) → List ReadyEvent
all_ready [] = []
all_ready ((_, ready) ∷ rest) = ready ++ all_ready rest

-- `len({...}) != 1`, negated
abbrev pub one_value : List String → Bool
one_value l = length (to_set l) == 1

abbrev pub last_version : ℕ → List ℕ → ℕ
last_version v [] = v
last_version v (w ∷ rest) = last_version w rest

-- `versions == list(range(versions[0], versions[-1] + 1))`
abbrev pub is_contiguous : ℕ → List ℕ → Bool
is_contiguous first rest = first ∷ rest == range first (last_version first rest + 1 - first)

module _ (digest : Json → String) where
  -- `_ready_event`
  unfoldable pub ready_event : VersionDifference → String → String → ReadyEvent
  ready_event diff event_id fingerprint = record {
    availability_contract_version = ready_version;
    ready_event_id = digest (
        arr (
          items (
            text ready_version
            ∷ text diff.current.delta_table_id
            ∷ text event_id
            ∷ num diff.version
            ∷ text fingerprint
            ∷ [])));
    event_id = event_id;
    source_delta_table_id = diff.current.delta_table_id;
    first_visible_delta_version = diff.version;
    source_schema_fingerprint = diff.current.source_schema_fingerprint;
    source_feature_row_fingerprint = fingerprint;
    availability_state = "DELTA_COMMITTED";
  }

  ready_from : VersionDifference → Rows → List ReadyEvent
  unfolding ready_event
  ready_from diff [] = []
  ready_from diff ((event_id, fingerprint) ∷ rest) =
      ready_event diff event_id fingerprint ∷ ready_from diff rest

  -- `_segment`: the manifest and the events, in the order of their identities
  unfoldable pub segment : VersionDifference → Segment × List ReadyEvent
  unfolding ready_from sorted_rows predecessor_of version_or_null
  segment diff =
      let ready = ready_from diff (sort pair_leb diff.new_rows) in
      let before = digest (sorted_rows diff.previous_rows) in
      let after = digest (sorted_rows diff.current_rows) in
      let new_ids = digest (arr (texts (keys (sort pair_leb diff.new_rows)))) in
      let new_rows = digest (sorted_rows diff.new_rows) in
      let ready_print = digest (arr (items (events_json ready))) in
      let basis = fields (
        ("segment_contract_version", text segment_version)
        ∷ ("availability_contract_version", text ready_version)
        ∷ ("discovery_algorithm_version", text discovery_version)
        ∷ ("source_delta_path", text diff.current.delta_path)
        ∷ ("source_delta_table_id", text diff.current.delta_table_id)
        ∷ ("source_delta_version", num diff.version)
        ∷ ("predecessor_delta_version", version_or_null (predecessor_of diff))
        ∷ ("source_schema_fingerprint", text diff.current.source_schema_fingerprint)
        ∷ ("source_protocol", text diff.current.protocol)
        ∷ ("previous_event_count", num (length diff.previous_rows))
        ∷ ("current_event_count", num (length diff.current_rows))
        ∷ ("new_event_count", num (length ready))
        ∷ ("unchanged_event_count", num (length diff.previous_rows))
        ∷ ("previous_snapshot_fingerprint", text before)
        ∷ ("current_snapshot_fingerprint", text after)
        ∷ ("new_event_ids_fingerprint", text new_ids)
        ∷ ("new_event_rows_fingerprint", text new_rows)
        ∷ ("ready_events_fingerprint", text ready_print)
        ∷ []) in
      (
        record {
          source_delta_path = diff.current.delta_path;
          source_delta_table_id = diff.current.delta_table_id;
          source_delta_version = diff.version;
          predecessor_delta_version = predecessor_of diff;
          source_schema_fingerprint = diff.current.source_schema_fingerprint;
          source_protocol = diff.current.protocol;
          previous_event_count = length diff.previous_rows;
          current_event_count = length diff.current_rows;
          new_event_count = length ready;
          unchanged_event_count = length diff.previous_rows;
          previous_snapshot_fingerprint = before;
          current_snapshot_fingerprint = after;
          new_event_ids_fingerprint = new_ids;
          new_event_rows_fingerprint = new_rows;
          ready_events_fingerprint = ready_print;
          segment_id = digest (obj basis);
        },
        ready,
      )

  -- the manifest of the outbox, once the checks have passed
  outbox_manifest : Segment → List (Segment × List ReadyEvent) → List ReadyEvent → Outbox
  outbox_manifest first segments ready =
      let start = first.source_delta_version in
      let versions = segment_versions segments in
      let finish = last_version start versions in
      let ids = event_ids ready in
      let segment_ids = field_of (λ m. m.segment_id) segments in
      let ids_print = digest (arr (texts (sort text_leb ids))) in
      let ready_print = digest (arr (items (events_json ready))) in
      let basis = fields (
        ("outbox_contract_version", text outbox_version)
        ∷ ("segment_contract_version", text segment_version)
        ∷ ("availability_contract_version", text ready_version)
        ∷ ("source_delta_path", text first.source_delta_path)
        ∷ ("source_delta_table_id", text first.source_delta_table_id)
        ∷ ("source_schema_fingerprint", text first.source_schema_fingerprint)
        ∷ ("start_delta_version", num start)
        ∷ ("end_delta_version", num finish)
        ∷ ("segment_ids", arr (texts segment_ids))
        ∷ ("ready_event_count", num (length ready))
        ∷ ("unique_event_count", num (length ids))
        ∷ ("source_event_ids_fingerprint", text ids_print)
        ∷ ("logical_outbox_fingerprint", text ready_print)
        ∷ []) in
      record {
        source_delta_path = first.source_delta_path;
        source_delta_table_id = first.source_delta_table_id;
        source_schema_fingerprint = first.source_schema_fingerprint;
        start_delta_version = start;
        end_delta_version = finish;
        segment_ids = segment_ids;
        ready_event_count = length ready;
        unique_event_count = length ids;
        source_event_ids_fingerprint = ids_print;
        logical_outbox_fingerprint = ready_print;
        outbox_id = digest (obj basis);
      }

  -- `_outbox`
  unfoldable pub outbox :
      List (Segment × List ReadyEvent) → Result OutboxError (Outbox × List ReadyEvent)
  unfolding outbox_manifest
  outbox [] = err no_segment
  outbox ((first, batch) ∷ rest) = do
    let segments = (first, batch) ∷ rest
    let versions = segment_versions rest
    raise_if
        (ltb max_versions (length (first.source_delta_version ∷ versions))
          || not (is_contiguous first.source_delta_version versions))
        not_contiguous
    raise_if
        (not (
          one_value (field_of (λ m. m.source_delta_table_id) segments)
          && (one_value (field_of (λ m. m.source_delta_path) segments)
              && one_value (field_of (λ m. m.source_schema_fingerprint) segments))))
        identities_differ
    let ready = all_ready segments
    raise_if (ltb max_ready_events (length ready)) too_many_events
    raise_if (not (is_distinct (event_ids ready) && is_distinct (ready_ids ready)))
        repeated_identity
    ok (outbox_manifest first segments ready, ready)
