-- ===== src/KafkaShadow/Inbox.antt =====
-- kafka_shadow/inbox.py: the verification of a sealed shadow inbox. `digest` is SHA-256 over
-- canonical JSON and `file_hash` is SHA-256 over bytes, which are texts here.
pub mod Sealed
mod Examples
use Prim.Native.String.{◌++◌ as concat}
use sentinel_aegis_forge.Common.{
  ℕ, ◌+◌, ◌-◌, String, Bool, false, not, ◌&&◌, Option, none, some, List, [], ◌∷◌, arith, ltb, leb,
  if◌then◌else◌, ◌==◌, nat_eq, string_eq, pair_eq, list_eq, length, is_distinct, same_set, lookup,
  keys, Result, ok, err, ◌>>=◌, ◌>>◌, raise_if, text_leb, sort,
}
use sentinel_aegis_forge.Availability.Outbox.{ReadyEvent, event_json, ready_ids}
use sentinel_aegis_forge.Common.Json.{
  Json, num, minus, text, arr, obj, texts, fields, Object, has_value, has_values, same_object,
  same_value,
}

abbrev pub contract : String
contract = "research-shadow-inbox-v1"

abbrev pub verification : String
verification = "research-shadow-inbox-verification-v1"

abbrev pub group : String
group = "sentinel-feature-ready-shadow-v1"

pub data InboxError : Type 0 where
  unreadable receipt_root identity_linked identity_differs receipts_directory receipt_membership
        receipt_linked receipt_content receipt_coordinates receipt_identity fields_differ
        unsupported batch_differs duplicate_identity semantic_identity inventory_changed
        offsets_invalid count_differs :
      InboxError

-- One file of the receipts, by its stem: `none` where it is no object. A name that does not end
-- in `.json` has no stem.
pub record ReceiptFile : Type 0 where
  pub name : String
  pub is_plain : Bool
  pub content : Option Object
  pub bytes : String

-- What `inspect_batch` returns of the batch's path, with its records.
pub record SourceBatch : Type 0 where
  pub publication_batch_id : String
  pub outbox_id : String
  pub topic : String
  pub records : String

-- The directory of an inbox; `events` is `ready_events.jsonl`, line by line and as bytes.
pub record InboxDirectory : Type 0 where
  pub name : String
  pub is_exact : Bool
  pub manifest : Option Object
  pub events : List ReadyEvent
  pub events_bytes : String
  pub batch : Option SourceBatch
  pub has_root : Bool
  pub identity_linked : Bool
  pub identity : Option Object
  pub has_receipts : Bool
  pub receipts : List ReceiptFile

readable : {A : Type 0} → Option A → Result InboxError A
readable none = err unreadable
readable (some a) = ok a

-- `manifest[key]`; the fields were compared with the required ones
abbrev pub value_at : String → Object → Json
value_at key d = elim (lookup key d) [ none ↦ text "" | some value ↦ value ]

-- `d[key] == manifest[other]`
abbrev pub same_at : String → Object → Json → Bool
same_at key d value = elim (lookup key d) [ none ↦ false | some found ↦ same_value found value ]

abbrev pub required_names : List String
required_names =
    "inbox_contract_version" ∷ "verification_contract_version" ∷ "publication_batch_id"
    ∷ "outbox_id" ∷ "cluster_id" ∷ "topic_id" ∷ "topic" ∷ "group_id" ∷ "ready_event_count"
    ∷ "ready_event_ids_sha256" ∷ "source_envelopes_sha256" ∷ "inbox_id" ∷ "batch_path"
    ∷ "receipt_root" ∷ "receipt_inventory_sha256" ∷ "broker_physical_records"
    ∷ "broker_duplicate_records" ∷ "consumer_duplicate_deliveries" ∷ "broker_beginning_0"
    ∷ "broker_beginning_1" ∷ "broker_beginning_2" ∷ "broker_end_0" ∷ "broker_end_1" ∷ "broker_end_2"
    ∷ "group_committed_next_0" ∷ "group_committed_next_1" ∷ "group_committed_next_2" ∷ []

abbrev pub basis_keys : List String
basis_keys =
    "inbox_contract_version" ∷ "verification_contract_version" ∷ "publication_batch_id"
    ∷ "outbox_id" ∷ "cluster_id" ∷ "topic_id" ∷ "topic" ∷ "group_id" ∷ "ready_event_count"
    ∷ "ready_event_ids_sha256" ∷ "source_envelopes_sha256" ∷ []

-- `{key: manifest[key] for key in keys}`
abbrev pub restrict : List String → Object → Object
restrict [] d = []
restrict (key ∷ rest) d = (key, value_at key d) ∷ restrict rest d

abbrev pub expected_identity : Object → Object
expected_identity manifest =
    ("receipt_store_contract_version", text "kafka-feature-ready-receipt-store-v1")
    ∷ ("publication_batch_id", value_at "publication_batch_id" manifest)
    ∷ ("outbox_id", value_at "outbox_id" manifest)
    ∷ ("group_id", text group)
    ∷ ("topic", value_at "topic" manifest)
    ∷ ("cluster_id", value_at "cluster_id" manifest)
    ∷ ("topic_id", value_at "topic_id" manifest)
    ∷ []

abbrev pub file_names : List ReceiptFile → List String
file_names [] = []
file_names (file ∷ rest) = file.name ∷ file_names rest

-- `f"{key}.json"` for each key
abbrev pub json_names : List String → List String
json_names [] = []
json_names (key ∷ rest) = concat key ".json" ∷ json_names rest

abbrev pub by_name : ReceiptFile → ReceiptFile → Bool
by_name a b = text_leb a.name b.name

abbrev pub receipt_names : List String
receipt_names =
    "receipt_contract_version" ∷ "ready_event_id" ∷ "event_id" ∷ "outbox_id" ∷ "topic" ∷ "topic_id"
    ∷ "envelope_fingerprint" ∷ "receipt_id" ∷ "first_topic_partition" ∷ "first_topic_offset" ∷ []

pub natural_at : String → Object → Option ℕ
natural_at key d = elim (lookup key d) [
  | none ↦ none
  | some value ↦ elim value [ num n ↦ some n | _ ↦ none ]
]

abbrev found_event : List ReadyEvent → String → Option ReadyEvent
found_event [] name = none
found_event (event ∷ rest) name =
    if concat event.ready_event_id ".json" == name then some event else found_event rest name

abbrev is_count : Option ℕ → ℕ → Bool
is_count none n = false
is_count (some m) n = m == n

-- `0 <= partition < 3` and `0 <= offset`, both ints
abbrev coordinates_of : Option ℕ → Option ℕ → Option (ℕ × ℕ)
coordinates_of (some partition) (some offset) =
    if ltb partition 3 then some (partition, offset) else none
coordinates_of _ _ = none

-- the guard on the versions and the count
abbrev pub is_supported : Object → List ReadyEvent → Bool
is_supported manifest events =
    has_value "inbox_contract_version" (text contract) manifest
    && (has_value "verification_contract_version" (text verification) manifest
        && (has_value "group_id" (text group) manifest
            && (has_value "topic" (text "features.ready") manifest
                && (is_count (natural_at "ready_event_count" manifest) (length events)
                    && (leb 1 (length events) && leb (length events) 5000)))))

-- one partition: `0 <= beginning <= end == committed`
moved_by : Option ℕ → Option ℕ → Option ℕ → Result InboxError ℕ
moved_by (some beginning) (some finish) (some committed) = do
  raise_if (not (leb beginning finish && finish == committed)) offsets_invalid
  ok (finish - beginning)
moved_by _ _ _ = err offsets_invalid

unfoldable pub observed_from : Object → List String → Result InboxError ℕ
unfolding moved_by natural_at
observed_from manifest [] = ok 0
observed_from manifest (partition ∷ rest) = do
  moved ←
      moved_by (natural_at (concat "broker_beginning_" partition) manifest)
        (natural_at (concat "broker_end_" partition) manifest)
        (natural_at (concat "group_committed_next_" partition) manifest)
  others ← observed_from manifest rest
  ok (moved + others)

-- `physical == observed` and `physical - duplicate == len(events)`, for ints
unfoldable pub counts_agree : Option Json → Option Json → ℕ → ℕ → Bool
counts_agree (some (num physical)) (some (num duplicate)) observed events =
    physical == observed && physical == duplicate + events
counts_agree (some (num physical)) (some (minus duplicate)) observed events =
    physical == observed && physical + (duplicate + 1) == events
counts_agree _ _ observed events = false

module _ (digest : Json → String) (file_hash : String → String) where
  abbrev pub expected_receipt : Object → ReadyEvent → Object
  expected_receipt manifest event =
      ("receipt_contract_version", text "kafka-feature-ready-receipt-v1")
      ∷ ("ready_event_id", text event.ready_event_id)
      ∷ ("event_id", text event.event_id)
      ∷ ("outbox_id", value_at "outbox_id" manifest)
      ∷ ("topic", value_at "topic" manifest)
      ∷ ("topic_id", value_at "topic_id" manifest)
      ∷ ("envelope_fingerprint", text (digest (event_json event)))
      ∷ []

  abbrev pub receipt_id : Object → ReadyEvent → ℕ → ℕ → String
  receipt_id manifest event partition offset = digest (
      obj (
        fields (
          ("ready_event_id", text event.ready_event_id)
          ∷ ("outbox_id", value_at "outbox_id" manifest)
          ∷ ("topic_id", value_at "topic_id" manifest)
          ∷ ("partition", num partition)
          ∷ ("offset", num offset)
          ∷ ("envelope_fingerprint", text (digest (event_json event)))
          ∷ [])))

  -- the rest of the body, once the file's event and the coordinates were found
  check_receipt :
      Object → Object → Option ReadyEvent → Option (ℕ × ℕ) → Result InboxError (Unit {0})
  check_receipt manifest receipt none _ = err receipt_membership
  check_receipt manifest receipt (some event) coordinates = do
    raise_if (not (has_values receipt (expected_receipt manifest event))) receipt_content
    elim coordinates [
      | none ↦ err receipt_coordinates
      | some at ↦
          raise_if
            (not (
              has_value "receipt_id" (text (receipt_id manifest event at.0 at.1)) receipt
              && same_set (keys receipt) receipt_names))
            receipt_identity
    ]

  -- the loop of `_receipt_inventory`, over the files sorted by name
  inventory_from : List ReadyEvent → Object → List ReceiptFile → Result InboxError (List String)
  unfolding check_receipt natural_at readable
  inventory_from events manifest [] = ok []
  inventory_from events manifest (file ∷ rest) = do
    raise_if (not file.is_plain) receipt_linked
    receipt ← readable file.content
    check_receipt manifest receipt (found_event events file.name) (
        coordinates_of (natural_at "first_topic_partition" receipt)
          (natural_at "first_topic_offset" receipt))
    lines ← inventory_from events manifest rest
    ok (concat file.name (concat ":" (file_hash file.bytes)) ∷ lines)

  unfoldable pub receipt_inventory : InboxDirectory → Object → Result InboxError String
  unfolding inventory_from readable
  receipt_inventory root manifest = do
    raise_if (not root.has_root) receipt_root
    raise_if root.identity_linked identity_linked
    identity ← readable root.identity
    raise_if (not (same_object identity (expected_identity manifest))) identity_differs
    raise_if (not root.has_receipts) receipts_directory
    let files = sort by_name root.receipts
    raise_if (not (same_set (file_names files) (json_names (ready_ids root.events))))
        receipt_membership
    lines ← inventory_from root.events manifest files
    ok (digest (arr (texts lines)))

  -- the guard on the source batch
  abbrev pub is_of_batch : InboxDirectory → Object → SourceBatch → Bool
  is_of_batch root manifest batch =
      has_value "publication_batch_id" (text batch.publication_batch_id) manifest
      && (has_value "outbox_id" (text batch.outbox_id) manifest
          && (has_value "topic" (text batch.topic) manifest
              && (root.events_bytes == batch.records
                  && (has_value "source_envelopes_sha256" (text (file_hash root.events_bytes))
                        manifest
                      && has_value "ready_event_ids_sha256"
                          (text (digest (arr (texts (sort text_leb (ready_ids root.events))))))
                          manifest))))

  unfoldable pub inspect_inbox : InboxDirectory → Result InboxError (Object × List ReadyEvent)
  unfolding readable natural_at receipt_inventory observed_from counts_agree
  inspect_inbox root = do
    raise_if (not root.is_exact) unreadable
    manifest ← readable root.manifest
    raise_if (not (same_set (keys manifest) required_names)) fields_differ
    raise_if (not (is_supported manifest root.events)) unsupported
    batch ← readable root.batch
    raise_if (not (is_of_batch root manifest batch)) batch_differs
    raise_if (not (is_distinct (ready_ids root.events))) duplicate_identity
    let semantic = digest (obj (fields (restrict basis_keys manifest)))
    raise_if (not (root.name == semantic && has_value "inbox_id" (text root.name) manifest))
        semantic_identity
    inventory ← receipt_inventory root manifest
    raise_if (not (has_value "receipt_inventory_sha256" (text inventory) manifest))
        inventory_changed
    observed ← observed_from manifest ("0" ∷ "1" ∷ "2" ∷ [])
    raise_if
        (not (
          counts_agree (lookup "broker_physical_records" manifest)
            (lookup "broker_duplicate_records" manifest) observed (length root.events)))
        count_differs
    ok (manifest, root.events)
