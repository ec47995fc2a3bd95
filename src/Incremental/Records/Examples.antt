-- ===== src/Incremental/Records/Examples.antt =====
-- Runs of `records` of incremental_shadow/operations.py.
use sentinel_aegis_forge.Common.{
  range, ℕ, ◌≡◌, refl, true, none, some, [], ◌∷◌, nat_eq, string_eq, pair_eq, list_eq, ok, err,
  sort,
}
use sentinel_aegis_forge.Common.Json.{Json, num, text, null, Object}
use sentinel_aegis_forge.Availability.Outbox.{ReadyEvent, Segment}
use sentinel_aegis_forge.Incremental.Records.{
  contract, VersionFile, Pinned, by_version, versions_of, records, version_gap,
}
use sentinel_aegis_forge.Incremental.Records.Gapless.{Follow, records-Follow}

abbrev pinned : Pinned
pinned = record {
  source_delta_table_id = "t";
  source_schema_fingerprint = "f";
  first_delta_version = 4;
}

abbrev event : ReadyEvent
event = record {
  availability_contract_version = "v";
  ready_event_id = "a";
  event_id = "e";
  source_delta_table_id = "t";
  first_visible_delta_version = 4;
  source_schema_fingerprint = "f";
  source_feature_row_fingerprint = "r";
  availability_state = "DELTA_COMMITTED";
}

abbrev segment : ℕ → ℕ → Segment
segment version events = record {
  source_delta_path = "p";
  source_delta_table_id = "t";
  source_delta_version = version;
  predecessor_delta_version = none;
  source_schema_fingerprint = "f";
  source_protocol = "1";
  previous_event_count = 0;
  current_event_count = events;
  new_event_count = events;
  unchanged_event_count = 0;
  previous_snapshot_fingerprint = "d";
  current_snapshot_fingerprint = "d";
  new_event_ids_fingerprint = "d";
  new_event_rows_fingerprint = "d";
  ready_events_fingerprint = "d";
  segment_id = "s";
}

abbrev item : ℕ → ℕ → Json → Object
item version events batch =
    ("contract_version", text contract)
    ∷ ("delta_version", num version)
    ∷ ("segment_id", text "s")
    ∷ ("segment_path", text "q")
    ∷ ("ready_event_count", num events)
    ∷ ("publication_batch_id", batch)
    ∷ ("batch_path", batch)
    ∷ []

-- The first commit brought an event, the second one none.
abbrev first_file : VersionFile
first_file = record {
  version = 4;
  is_plain = true;
  content = some (item 4 1 (text "b"));
  segment = some (segment 4 1, event ∷ []);
  batch = some (record { publication_batch_id = "b"; segment_ids = "s" ∷ []; ready = event ∷ [] });
}

abbrev second_file : VersionFile
second_file = record {
  version = 5;
  is_plain = true;
  content = some (item 5 0 null);
  segment = some (segment 5 0, []);
  batch = none;
}

recorded :
    records pinned (second_file ∷ first_file ∷ [])
    ≡ ok ((item 4 1 (text "b"), event ∷ []) ∷ (item 5 0 null, []) ∷ [])
unfolding records sort
recorded = refl

records-Follow_example :
    (versions_of (sort by_version (second_file ∷ first_file ∷ [])) ≡ range 4 2)
    × Follow []
        (sort by_version (second_file ∷ first_file ∷ []))
        ((item 4 1 (text "b"), event ∷ []) ∷ (item 5 0 null, []) ∷ [])
records-Follow_example =
    records-Follow pinned (second_file ∷ first_file ∷ [])
      ((item 4 1 (text "b"), event ∷ []) ∷ (item 5 0 null, []) ∷ []) recorded

gap : records pinned (second_file ∷ []) ≡ err version_gap
unfolding records sort
gap = refl
