-- ===== src/KafkaShadow/Inbox/Examples.antt =====
-- A run of kafka_shadow/inbox.py, with constant digests.
use sentinel_aegis_forge.Common.{
  sort, ℕ, String, ◌≡◌, refl, true, false, some, [], ◌∷◌, ◌++◌, nat_eq, string_eq, pair_eq, list_eq,
  ok, err,
}
use sentinel_aegis_forge.Common.Json.{Json, num, text, Object}
use sentinel_aegis_forge.Availability.Outbox.{ReadyEvent}
use sentinel_aegis_forge.KafkaShadow.Inbox.{
  InboxDirectory, inspect_inbox, contract, verification, group, expected_identity, expected_receipt,
  count_differs,
}
use sentinel_aegis_forge.KafkaShadow.Inbox.Sealed.{IsSealed, inspect_inbox-IsSealed}

abbrev digest : Json → String
digest _ = "d"

abbrev file_hash : String → String
file_hash _ = "x"

abbrev event : ReadyEvent
event = record {
  availability_contract_version = "v";
  ready_event_id = "a";
  event_id = "e";
  source_delta_table_id = "t";
  first_visible_delta_version = 0;
  source_schema_fingerprint = "f";
  source_feature_row_fingerprint = "r";
  availability_state = "DELTA_COMMITTED";
}

-- Two physical records, of which `duplicates` repeat an event.
abbrev manifest : ℕ → Object
manifest duplicates =
    ("inbox_contract_version", text contract)
    ∷ ("verification_contract_version", text verification)
    ∷ ("publication_batch_id", text "b")
    ∷ ("outbox_id", text "o")
    ∷ ("cluster_id", text "c")
    ∷ ("topic_id", text "i")
    ∷ ("topic", text "features.ready")
    ∷ ("group_id", text group)
    ∷ ("ready_event_count", num 1)
    ∷ ("ready_event_ids_sha256", text "d")
    ∷ ("source_envelopes_sha256", text "x")
    ∷ ("inbox_id", text "d")
    ∷ ("batch_path", text "p")
    ∷ ("receipt_root", text "q")
    ∷ ("receipt_inventory_sha256", text "d")
    ∷ ("broker_physical_records", num 2)
    ∷ ("broker_duplicate_records", num duplicates)
    ∷ ("consumer_duplicate_deliveries", num 0)
    ∷ ("broker_beginning_0", num 5)
    ∷ ("broker_beginning_1", num 0)
    ∷ ("broker_beginning_2", num 0)
    ∷ ("broker_end_0", num 7)
    ∷ ("broker_end_1", num 0)
    ∷ ("broker_end_2", num 0)
    ∷ ("group_committed_next_0", num 7)
    ∷ ("group_committed_next_1", num 0)
    ∷ ("group_committed_next_2", num 0)
    ∷ []

abbrev inbox : ℕ → InboxDirectory
inbox duplicates = record {
  name = "d";
  is_exact = true;
  manifest = some (manifest duplicates);
  events = event ∷ [];
  events_bytes = "raw";
  batch = some (record {
    publication_batch_id = "b";
    outbox_id = "o";
    topic = "features.ready";
    records = "raw";
  });
  has_root = true;
  identity_linked = false;
  identity = some (expected_identity (manifest duplicates));
  has_receipts = true;
  receipts =
      record {
        name = "a.json";
        is_plain = true;
        content = some (
            expected_receipt digest file_hash (manifest duplicates) event
            ++ ("receipt_id", text "d")
              ∷ ("first_topic_partition", num 0)
              ∷ ("first_topic_offset", num 5)
              ∷ []);
        bytes = "receipt";
      }
      ∷ [];
}

sealed : inspect_inbox digest file_hash (inbox 1) ≡ ok (manifest 1, event ∷ [])
unfolding inspect_inbox sort
sealed = refl

inspect_inbox-IsSealed_example : IsSealed digest file_hash (inbox 1) (manifest 1) (event ∷ [])
inspect_inbox-IsSealed_example =
    inspect_inbox-IsSealed digest file_hash (inbox 1) (manifest 1) (event ∷ []) sealed

no_duplicate : inspect_inbox digest file_hash (inbox 0) ≡ err count_differs
unfolding inspect_inbox sort
no_duplicate = refl
