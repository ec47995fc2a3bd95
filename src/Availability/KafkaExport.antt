-- ===== src/Availability/KafkaExport.antt =====
-- availability/kafka_export.py, `_expected`: the publication batch of an outbox. `digest` is
-- SHA-256 over canonical JSON, `size` the bytes of an envelope's canonical JSON, and `lines_hash`
-- SHA-256 over the lines of the events.
use sentinel_aegis_forge.Common.{
  or-eq-false, raise_if-not-eq-ok, ℕ, ◌≤◌, String, ◌≡◌, refl, subst, Bool, true, false, not, ◌||◌,
  List, [], ◌∷◌, arith, eq_iff, ltb, ltb→le, ◌==◌, nat_eq, string_eq, pair_eq, list_eq, length, All,
  Result, ok, ◌>>◌, raise_if, raise_if-eq-ok, >>=-eq-ok, ok-eq, text_leb, sort, ℤ, pos, negsuc,
  in_range, to_nat,
}
use sentinel_aegis_forge.Common.Json.{Json, num, text, arr, obj, texts, fields}
use sentinel_aegis_forge.Availability.Contract.{max_ready_events}
use sentinel_aegis_forge.Availability.Outbox.{Outbox, ReadyEvent, ready_ids}

abbrev pub wire_version : String
wire_version = "feature-ready-kafka-wire-v1"

abbrev pub batch_version : String
batch_version = "feature-ready-kafka-publish-batch-v1"

abbrev pub topic_name : String
topic_name = "features.ready"

abbrev pub max_record_bytes : ℕ
max_record_bytes = 4096

pub data ExportError : Type 0 where
  unsupported_topic : String → ExportError
  bad_maximum no_events too_many_events record_too_large : ExportError

pub record PublishBatch : Type 0 where
  pub topic : String
  pub outbox_id : String
  pub start_delta_version : ℕ
  pub end_delta_version : ℕ
  pub ready_event_count : ℕ
  pub publication_batch_id : String

-- any of the events is too large
abbrev pub is_large : (ReadyEvent → ℕ) → List ReadyEvent → Bool
is_large size [] = false
is_large size (event ∷ rest) = ltb max_record_bytes (size event) || is_large size rest

module _ (digest : Json → String) (size : ReadyEvent → ℕ)
    (lines_hash : List ReadyEvent → String) where
  unfoldable pub expected :
      String → String → ℤ → String → Outbox → List ReadyEvent → Result ExportError PublishBatch
  expected outbox_path topic maximum manifest_hash outbox events = do
    raise_if (not (topic == topic_name)) (unsupported_topic topic)
    raise_if (not (in_range 1 max_ready_events maximum)) bad_maximum
    raise_if (length events == 0) no_events
    raise_if (ltb (to_nat maximum) (length events)) too_many_events
    raise_if (is_large size events) record_too_large
    let basis = fields (
        ("publication_batch_contract_version", text batch_version)
        ∷ ("wire_contract_version", text wire_version)
        ∷ ("topic", text topic)
        ∷ ("outbox_path", text outbox_path)
        ∷ ("outbox_id", text outbox.outbox_id)
        ∷ ("outbox_manifest_sha256", text manifest_hash)
        ∷ ("source_delta_table_id", text outbox.source_delta_table_id)
        ∷ ("source_schema_fingerprint", text outbox.source_schema_fingerprint)
        ∷ ("start_delta_version", num outbox.start_delta_version)
        ∷ ("end_delta_version", num outbox.end_delta_version)
        ∷ ("ready_event_count", num (length events))
        ∷ ("ready_event_ids_sha256", text (digest (arr (texts (sort text_leb (ready_ids events))))))
        ∷ ("records_sha256", text (lines_hash events))
        ∷ ("maximum_record_bytes", num max_record_bytes)
        ∷ [])
    ok (record {
      topic = topic;
      outbox_id = outbox.outbox_id;
      start_delta_version = outbox.start_delta_version;
      end_delta_version = outbox.end_delta_version;
      ready_event_count = length events;
      publication_batch_id = digest (obj basis);
    })

  is_large-false :
      (events : List ReadyEvent)
      → is_large size events ≡ false
      → All (λ event. size event ≤ max_record_bytes) events
  is_large-false [] h = tt
  is_large-false (event ∷ rest) h =
      let (one, others) = or-eq-false (ltb max_record_bytes (size event)) _ h in
      (ltb→le max_record_bytes (size event) one, is_large-false rest others)

  -- What a batch says of its outbox and events.
  pub record IsExport (outbox_path manifest_hash : String) (maximum : ℤ) (outbox : Outbox)
      (events : List ReadyEvent) (batch : PublishBatch) : Type 0 where
    pub again :
        expected outbox_path batch.topic (pos batch.ready_event_count) manifest_hash outbox events
        ≡ ok batch
    pub topic : batch.topic ≡ topic_name
    pub identity : batch.outbox_id ≡ outbox.outbox_id
    pub versions :
        (batch.start_delta_version ≡ outbox.start_delta_version)
        × (batch.end_delta_version ≡ outbox.end_delta_version)
    pub counted : batch.ready_event_count ≡ length events
    pub some_event : 1 ≤ batch.ready_event_count
    pub within : batch.ready_event_count ≤ to_nat maximum
    pub limited : to_nat maximum ≤ max_ready_events
    pub small : All (λ event. size event ≤ max_record_bytes) events

  -- Where a batch is made, with any maximum, it is made again from what it says itself, as its
  -- inspection does: from its topic and with its count of events as the maximum. It is for the one
  -- topic, of its outbox and the outbox's versions; it counts its events, of which there is at
  -- least one and at most the maximum, which is within the contract's limit; and no envelope is
  -- above the limit of bytes.
  pub expected-IsExport :
      (outbox_path topic : String) (maximum : ℤ) (manifest_hash : String) (outbox : Outbox)
      (events : List ReadyEvent) (batch : PublishBatch)
      → expected outbox_path topic maximum manifest_hash outbox events ≡ ok batch
      → IsExport outbox_path manifest_hash maximum outbox events batch
  unfolding expected
  expected-IsExport outbox_path topic maximum manifest_hash outbox events batch h =
      let (_, c1, h) =
        >>=-eq-ok (raise_if (not (topic == topic_name)) (unsupported_topic topic)) _ h in
      let (_, c2, h) =
        >>=-eq-ok (raise_if (not (in_range 1 max_ready_events maximum)) bad_maximum) _ h in
      let (_, c3, h) = >>=-eq-ok (raise_if (length events == 0) no_events) _ h in
      let (_, c4, h) =
        >>=-eq-ok (raise_if (ltb (to_nat maximum) (length events)) too_many_events) _ h in
      let (_, c5, h) = >>=-eq-ok (raise_if (is_large size events) record_too_large) _ h in
      let inside = raise_if-not-eq-ok bad_maximum (in_range 1 max_ready_events maximum) c2 in
      let named = raise_if-not-eq-ok (unsupported_topic topic) (topic == topic_name) c1 in
      let filled = raise_if-eq-ok no_events (length events == 0) c3 in
      let large = raise_if-eq-ok record_too_large (is_large size events) c5 in
      let fits =
        ltb→le (to_nat maximum) (length events)
          (raise_if-eq-ok too_many_events (ltb (to_nat maximum) (length events)) c4) in
      let limited = below maximum inside in
      subst (IsExport outbox_path manifest_hash maximum outbox events) (ok-eq h) (record {
        again =
            rw
              (
                named,
                inside_again (length events) (positive (length events) filled)
                    (omega (arith, fits, limited)),
                filled,
                not_more (length events),
                large,
              )
              refl;
        topic = (eq_iff topic topic_name).0 named;
        identity = refl;
        versions = (refl, refl);
        counted = refl;
        some_event = positive (length events) filled;
        within = fits;
        limited = limited;
        small = is_large-false events large;
      })
    where
      positive : (n : ℕ) → (n == 0) ≡ false → 1 ≤ n
      positive n k = ground arith

      below : (m : ℤ) → in_range 1 max_ready_events m ≡ true → to_nat m ≤ max_ready_events
      below (pos m) k = ground arith
      below (negsuc m) k = cc

      inside_again :
          (n : ℕ) → 1 ≤ n → n ≤ max_ready_events → in_range 1 max_ready_events (pos n) ≡ true
      inside_again n low high = ground arith

      not_more : (n : ℕ) → ltb n n ≡ false
      not_more n = ground arith
