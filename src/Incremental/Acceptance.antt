-- ===== src/Incremental/Acceptance.antt =====
-- incremental_shadow/progress.py, `inspect_acceptance`. `digest` is SHA-256 over canonical JSON.
pub mod Range
use Prim.Native.String.{◌++◌ as concat}
use sentinel_aegis_forge.Common.{
  decimal, ℕ, String, Bool, false, not, ◌&&◌, ◌||◌, Option, none, some, List, [], ◌∷◌,
  if◌then◌else◌, ◌==◌, nat_eq, string_eq, pair_eq, list_eq, length, same_set, Dict, lookup, insert,
  keys, Result, ok, err, ◌>>=◌, ◌>>◌, raise_if,
}
use sentinel_aegis_forge.Common.Json.{
  Json, num, text, null, Object, whole_at, has_value, has_values, same_object, obj, fields,
}
use sentinel_aegis_forge.Availability.Outbox.{ReadyEvent, event_json}
use sentinel_aegis_forge.Incremental.Stream.{
  StreamError, Manifest, Batch, File, Directory, read_object, Offsets, offsets, same_offsets,
  not_before, in_offsets, coordinates, events_by_id, acceptance_identity, acceptance_fields,
  skips_or_overlaps, receipt_root, receipt_inventory, invalid_observation, range_not_reconciled,
  receipt_differs, journal_changed, acknowledgements_incomplete, acknowledgement_absent,
}

-- `ACCEPTANCE_CONTRACT`
abbrev pub acceptance_contract : String
acceptance_contract = "feature-ready-operational-acceptance-v1"

abbrev pub expected_acceptance : Manifest → Batch → Object
expected_acceptance manifest batch =
    ("contract_version", text acceptance_contract)
    ∷ ("group_id", text manifest.group_id)
    ∷ ("cluster_id", text manifest.cluster_id)
    ∷ ("topic_id", text manifest.topic_id)
    ∷ ("topic", text manifest.topic)
    ∷ ("publication_batch_id", text batch.publication_batch_id)
    ∷ ("outbox_id", text batch.outbox_id)
    ∷ ("ready_event_count", num (length batch.events))
    ∷ []

abbrev pub acceptance_names : List String
acceptance_names =
    "contract_version" ∷ "group_id" ∷ "cluster_id" ∷ "topic_id" ∷ "topic" ∷ "publication_batch_id"
    ∷ "outbox_id" ∷ "ready_event_count" ∷ "physical_record_count" ∷ "start_0" ∷ "start_1"
    ∷ "start_2" ∷ "end_0" ∷ "end_1" ∷ "end_2" ∷ []

abbrev pub expected_identity : Manifest → Batch → Object
expected_identity manifest batch =
    ("receipt_store_contract_version", text "kafka-feature-ready-receipt-store-v1")
    ∷ ("publication_batch_id", text batch.publication_batch_id)
    ∷ ("outbox_id", text batch.outbox_id)
    ∷ ("group_id", text manifest.group_id)
    ∷ ("topic", text manifest.topic)
    ∷ ("cluster_id", text manifest.cluster_id)
    ∷ ("topic_id", text manifest.topic_id)
    ∷ []

abbrev pub expected_journal : Manifest → Batch → Object
expected_journal manifest batch =
    ("publication_batch_id", text batch.publication_batch_id)
    ∷ ("outbox_id", text batch.outbox_id)
    ∷ ("cluster_id", text manifest.cluster_id)
    ∷ ("topic_id", text manifest.topic_id)
    ∷ []

abbrev pub stems : List File → List String
stems [] = []
stems ((stem, _) ∷ rest) = stem ∷ stems rest

-- by partition and offset, the ready event that Kafka holds there
abbrev pub Observed : Type 0
Observed = Dict (ℕ × ℕ) String

abbrev pub seen_ids : Observed → List String
seen_ids [] = []
seen_ids ((_, ready_id) ∷ rest) = ready_id ∷ seen_ids rest

abbrev number_at : Option Json → Option ℕ
number_at (some (num n)) = some n
number_at _ = none

abbrev string_of : Option Json → Option String
string_of (some (text s)) = some s
string_of _ = none

abbrev value_or_null : Option Json → Json
value_or_null none = null
value_or_null (some value) = value

-- `observed.get((item.get(part), item.get(offset))) == ready_id`
seen_at : Observed → Object → String → String → String → Bool
seen_at observed item part offset ready_id = elim (whole_at part item) [
  | none ↦ false
  | some p ↦ elim (whole_at offset item) [
    | none ↦ false
    | some o ↦ elim (lookup (p, o) observed) [ none ↦ false | some found ↦ found == ready_id ]
  ]
]

pub record Accepted : Type 0 where
  pub finish : Offsets
  pub physical_record_count : ℕ

module _ (digest : Json → String) where
  abbrev pub envelope_print : ReadyEvent → String
  envelope_print event = digest (event_json event)

  -- the test of one observation, once its three parts have their types
  observation_ok :
      Manifest
      → Dict String ReadyEvent
      → Offsets
      → Offsets
      → String
      → Object
      → ℕ
      → ℕ
      → String
      → Bool
  observation_ok manifest by_id start finish name item part offset ready_id =
      in_offsets start finish part offset
      && (name == concat (decimal part) (concat "-" (concat (decimal offset) ".json"))
          && (elim (lookup ready_id by_id) [
            | none ↦ false
            | some event ↦
                has_value "topic_id" (text manifest.topic_id) item
                && has_value "envelope_fingerprint" (text (envelope_print event)) item
          ]))

  -- the body of the loop over the observations; a negative offset is below `start`
  observe :
      Manifest
      → Dict String ReadyEvent
      → Offsets
      → Offsets
      → String
      → Object
      → Observed
      → Result StreamError Observed
  unfolding observation_ok
  observe manifest by_id start finish name item observed =
      elim (number_at (lookup "partition" item)) [
        | none ↦ err invalid_observation
        | some part ↦ elim (number_at (lookup "offset" item)) [
          | none ↦ err invalid_observation
          | some offset ↦ elim (string_of (lookup "ready_event_id" item)) [
            | none ↦ err invalid_observation
            | some ready_id ↦
                if observation_ok manifest by_id start finish name item part offset ready_id
                then ok (insert (part, offset) ready_id observed)
                else err invalid_observation
          ]
        ]
      ]

  unfoldable pub observe_all :
      Manifest
      → Dict String ReadyEvent
      → Offsets
      → Offsets
      → List File
      → Observed
      → Result StreamError Observed
  unfolding observe
  observe_all manifest by_id start finish [] observed = ok observed
  observe_all manifest by_id start finish ((name, file) ∷ rest) observed = do
    item ← read_object file
    observed ← observe manifest by_id start finish name item observed
    observe_all manifest by_id start finish rest observed

  abbrev pub receipt_json : Manifest → Batch → Object → ReadyEvent → String → Json
  receipt_json manifest batch item event ready_id = obj (
      fields (
        ("ready_event_id", text ready_id)
        ∷ ("outbox_id", text batch.outbox_id)
        ∷ ("topic_id", text manifest.topic_id)
        ∷ ("partition", value_or_null (lookup "first_topic_partition" item))
        ∷ ("offset", value_or_null (lookup "first_topic_offset" item))
        ∷ ("envelope_fingerprint", text (envelope_print event))
        ∷ []))

  receipt_ok : Manifest → Batch → Dict String ReadyEvent → Observed → String → Object → Bool
  unfolding seen_at
  receipt_ok manifest batch by_id observed ready_id item = elim (lookup ready_id by_id) [
    | none ↦ false
    | some event ↦
        has_value "ready_event_id" (text ready_id) item
        && (has_value "event_id" (text event.event_id) item
            && (has_value "outbox_id" (text batch.outbox_id) item
                && (has_value "topic_id" (text manifest.topic_id) item
                    && (seen_at observed item "first_topic_partition" "first_topic_offset" ready_id
                        && has_value "receipt_id"
                            (text (digest (receipt_json manifest batch item event ready_id)))
                            item))))
  ]

  unfoldable pub check_receipts :
      Manifest
      → Batch
      → Dict String ReadyEvent
      → Observed
      → List File
      → Result StreamError (Unit {0})
  unfolding receipt_ok
  check_receipts manifest batch by_id observed [] = ok tt
  check_receipts manifest batch by_id observed ((stem, file) ∷ rest) = do
    item ← read_object file
    raise_if (not (receipt_ok manifest batch by_id observed stem item)) receipt_differs
    check_receipts manifest batch by_id observed rest

  acknowledgement_ok : Manifest → Dict String ReadyEvent → Observed → String → Object → Bool
  unfolding seen_at
  acknowledgement_ok manifest by_id observed ready_id item = elim (lookup ready_id by_id) [
    | none ↦ false
    | some event ↦
        has_value "ready_event_id" (text ready_id) item
        && (has_value "event_id" (text event.event_id) item
            && (has_value "topic_id" (text manifest.topic_id) item
                && seen_at observed item "partition" "offset" ready_id))
  ]

  unfoldable pub check_acknowledgements :
      Manifest → Dict String ReadyEvent → Observed → List File → Result StreamError (Unit {0})
  unfolding acknowledgement_ok
  check_acknowledgements manifest by_id observed [] = ok tt
  check_acknowledgements manifest by_id observed ((stem, file) ∷ rest) = do
    item ← read_object file
    raise_if (not (acknowledgement_ok manifest by_id observed stem item)) acknowledgement_absent
    check_acknowledgements manifest by_id observed rest

  -- `inspect_acceptance`, on the file that is there. Of its result the callers read the end and
  -- the count, which was compared with the number of coordinates.
  unfoldable pub inspect_acceptance :
      Directory → Batch → Option Object → Offsets → Result StreamError Accepted
  unfolding observe_all check_receipts check_acknowledgements
  inspect_acceptance root batch file start = do
    let manifest = root.manifest
    let id = batch.publication_batch_id
    accepted ← read_object file
    raise_if (not (has_values accepted (expected_acceptance manifest batch))) acceptance_identity
    raise_if (not (same_set (keys accepted) acceptance_names)) acceptance_fields
    actual_start ← offsets accepted "start"
    finish ← offsets accepted "end"
    raise_if (not (same_offsets actual_start start) || not (not_before start finish))
        skips_or_overlaps
    let by_id = events_by_id [] batch.events
    identity ← read_object (root.receiver_identity id)
    raise_if (not (same_object identity (expected_identity manifest batch))) receipt_root
    let receipt_files = root.receipts id
    raise_if (not (same_set (stems receipt_files) (keys by_id))) receipt_inventory
    observed ← observe_all manifest by_id start finish (root.observations id) []
    raise_if
        (not (
          same_set (keys observed) (coordinates start finish)
          && (same_set (seen_ids observed) (keys by_id)
              && has_value "physical_record_count" (num (length (coordinates start finish)))
                  accepted)))
        range_not_reconciled
    check_receipts manifest batch by_id observed receipt_files
    journal_identity ← read_object (root.journal_identity id)
    raise_if (not (has_values journal_identity (expected_journal manifest batch))) journal_changed
    let acks = root.acknowledgements id
    raise_if (not (same_set (stems acks) (keys by_id))) acknowledgements_incomplete
    check_acknowledgements manifest by_id observed acks
    ok (record { finish = finish; physical_record_count = length (coordinates start finish) })
