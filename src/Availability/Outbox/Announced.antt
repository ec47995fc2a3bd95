-- ===== src/Availability/Outbox/Announced.antt =====
-- An outbox of discovered versions holds the events that discovery announced, each once.
use sentinel_aegis_forge.Common.{
  range, contains-map-sort, not-eq-false, or-eq-false, length-keys, raise_if-not-eq-ok, and-eq-true,
  ◌+◌, ◌-◌, ◌≤◌, String, ◌≡◌, refl, sym, ap, ◌∙◌, subst, not, ◌&&◌, ◌||◌, List, [], ◌∷◌, ◌++◌, map,
  arith, ltb, ltb→le, nat_eq, string_eq, pair_eq, list_eq, list_beq_iff, length, length-append,
  contains, is_distinct, IsNodup, is_distinct→IsNodup, keys, contains-append, ok, raise_if,
  raise_if-eq-ok, >>=-eq-ok, ok-eq, sort, length-sort,
}
use sentinel_aegis_forge.Common.Json.{Json}
use sentinel_aegis_forge.Availability.Contract.{max_ready_events}
use sentinel_aegis_forge.Availability.Discovery.{Rows, VersionDifference, max_versions}
use sentinel_aegis_forge.Availability.Discovery.AppendOnly.{announced, versions_of}
use sentinel_aegis_forge.Availability.Outbox.{
  ReadyEvent, Segment, Outbox, pair_leb, ready_event, ready_from, segment, outbox, outbox_manifest,
  event_ids, ready_ids, all_ready, segment_versions, is_contiguous, last_version, one_value,
  field_of, not_contiguous, identities_differ, too_many_events, repeated_identity,
}

event_ids-append : (xs ys : List ReadyEvent) → event_ids (xs ++ ys) ≡ event_ids xs ++ event_ids ys
event_ids-append [] ys = refl
event_ids-append (e ∷ xs) ys = ap (◌∷◌ e.event_id) (event_ids-append xs ys)

length-event_ids : (l : List ReadyEvent) → length (event_ids l) ≡ length l
length-event_ids [] = refl
length-event_ids (e ∷ l) = omega (arith, length-event_ids l)

abbrev key_of : String × String → String
key_of p = p.0

map-keys : (rows : Rows) → map key_of rows ≡ keys rows
map-keys [] = refl
map-keys (p ∷ rows) = ap (◌∷◌ p.0) (map-keys rows)

contains-keys-sort :
    (k : String) (rows : Rows) → contains k (keys (sort pair_leb rows)) ≡ contains k (keys rows)
contains-keys-sort k rows =
    ap (contains k) (sym (map-keys (sort pair_leb rows)))
    ∙ (contains-map-sort pair_leb key_of k rows ∙ ap (contains k) (map-keys rows))

module _ (digest : Json → String) where
  abbrev pub segments_of : List VersionDifference → List (Segment × List ReadyEvent)
  segments_of [] = []
  segments_of (diff ∷ rest) = segment digest diff ∷ segments_of rest

  event_ids-ready_from :
      (diff : VersionDifference) (rows : Rows) → event_ids (ready_from digest diff rows) ≡ keys rows
  unfolding ready_from ready_event
  event_ids-ready_from diff [] = refl
  event_ids-ready_from diff (p ∷ rows) = ap (◌∷◌ p.0) (event_ids-ready_from diff rows)

  versions-segments_of :
      (diffs : List VersionDifference) → segment_versions (segments_of diffs) ≡ versions_of diffs
  unfolding segment
  versions-segments_of [] = refl
  versions-segments_of (diff ∷ rest) = ap (◌∷◌ diff.version) (versions-segments_of rest)

  contains-all_ready :
      (k : String) (diffs : List VersionDifference)
      → contains k (event_ids (all_ready (segments_of diffs))) ≡ contains k (announced diffs)
  unfolding segment
  contains-all_ready k [] = refl
  contains-all_ready k (diff ∷ rest) =
      let rows = sort pair_leb diff.new_rows in
      let ready = ready_from digest diff rows in
      let later = all_ready (segments_of rest) in
      ground (
        arith,
        ap (contains k) (event_ids-append ready later),
        contains-append k (event_ids ready) (event_ids later),
        ap (contains k) (event_ids-ready_from diff rows),
        contains-keys-sort k diff.new_rows,
        contains-append k (keys diff.new_rows) (announced rest),
        contains-all_ready k rest,
      )

  length-all_ready :
      (diffs : List VersionDifference)
      → length (all_ready (segments_of diffs)) ≡ length (announced diffs)
  unfolding segment
  length-all_ready [] = refl
  length-all_ready (diff ∷ rest) =
      let rows = sort pair_leb diff.new_rows in
      let ready = ready_from digest diff rows in
      omega (
        arith,
        length-append ready (all_ready (segments_of rest)),
        length-event_ids ready,
        ap length (event_ids-ready_from diff rows),
        length-keys rows,
        length-sort pair_leb diff.new_rows,
        length-keys diff.new_rows,
        length-append (keys diff.new_rows) (announced rest),
        length-all_ready rest,
      )

  -- What the checks leave of any segments.
  record Checked (first : Segment) (batch : List ReadyEvent)
      (rest : List (Segment × List ReadyEvent)) (m : Outbox) (ready : List ReadyEvent)
      : Type 0 where
    events : ready ≡ all_ready ((first, batch) ∷ rest)
    start : m.start_delta_version ≡ first.source_delta_version
    contiguous :
        first.source_delta_version ∷ segment_versions rest
        ≡ range m.start_delta_version (m.end_delta_version + 1 - m.start_delta_version)
    distinct : IsNodup (event_ids ready) × IsNodup (ready_ids ready)
    counted : m.ready_event_count ≡ length ready
    unique : m.unique_event_count ≡ length (event_ids ready)
    bounded : length ready ≤ max_ready_events

  outbox-Checked :
      (first : Segment) (batch : List ReadyEvent) (rest : List (Segment × List ReadyEvent))
      (m : Outbox) (ready : List ReadyEvent)
      → outbox digest ((first, batch) ∷ rest) ≡ ok (m, ready)
      → Checked first batch rest m ready
  unfolding outbox outbox_manifest
  outbox-Checked first batch rest m ready h =
      let segments = (first, batch) ∷ rest in
      let version = first.source_delta_version in
      let versions = segment_versions rest in
      let gap =
        ltb max_versions (length (version ∷ versions)) || not (is_contiguous version versions) in
      let (_, c1, h) = >>=-eq-ok (raise_if gap not_contiguous) _ h in
      let one =
        one_value (field_of (λ t. t.source_delta_table_id) segments)
        && (one_value (field_of (λ t. t.source_delta_path) segments)
            && one_value (field_of (λ t. t.source_schema_fingerprint) segments)) in
      let (_, _, h) = >>=-eq-ok (raise_if (not one) identities_differ) _ h in
      let events = all_ready segments in
      let many = ltb max_ready_events (length events) in
      let (_, c3, h) = >>=-eq-ok (raise_if many too_many_events) _ h in
      let apart = is_distinct (event_ids events) && is_distinct (ready_ids events) in
      let (_, c4, h) = >>=-eq-ok (raise_if (not apart) repeated_identity) _ h in
      let (_, row) =
        or-eq-false (ltb max_versions (length (version ∷ versions))) _
          (raise_if-eq-ok not_contiguous gap c1) in
      let (d1, d2) =
        and-eq-true (is_distinct (event_ids events)) _
          (raise_if-not-eq-ok repeated_identity apart c4) in
      subst (λ (p : Outbox × List ReadyEvent). Checked first batch rest p.0 p.1) (ok-eq h)
        (record {
          events = refl;
          start = refl;
          contiguous =
              (list_beq_iff (version ∷ versions)
                  (range version (last_version version versions + 1 - version))).0
                (not-eq-false (is_contiguous version versions) row);
          distinct = (
            is_distinct→IsNodup (event_ids events) d1,
            is_distinct→IsNodup (ready_ids events) d2,
          );
          counted = refl;
          unique = refl;
          bounded =
              ltb→le max_ready_events (length events) (raise_if-eq-ok too_many_events many c3);
        })

  -- What an outbox says of the differences that it was made of.
  pub record IsOutboxOf (diffs : List VersionDifference) (m : Outbox) (ready : List ReadyEvent)
      : Type 0 where
    pub versions :
        versions_of diffs
        ≡ range m.start_delta_version (m.end_delta_version + 1 - m.start_delta_version)
    pub members : (k : String) → contains k (event_ids ready) ≡ contains k (announced diffs)
    pub distinct : IsNodup (event_ids ready) × IsNodup (ready_ids ready)
    pub counted : m.ready_event_count ≡ length (announced diffs)
    pub unique : m.unique_event_count ≡ m.ready_event_count
    pub bounded : m.ready_event_count ≤ max_ready_events

  -- Whenever an outbox is made of the segments of differences, its versions are those of the
  -- differences and have no gap; its events are the ones that the differences announce, none
  -- twice, and neither is a ready identity; and it counts as many events as were announced, all
  -- of them distinct and at most the maximum.
  pub outbox-IsOutboxOf :
      (diffs : List VersionDifference) (m : Outbox) (ready : List ReadyEvent)
      → outbox digest (segments_of diffs) ≡ ok (m, ready)
      → IsOutboxOf diffs m ready
  unfolding outbox segment
  outbox-IsOutboxOf [] m ready h = cc
  outbox-IsOutboxOf (diff ∷ rest) m ready h =
      let (first, batch) = segment digest diff in
      let checked = outbox-Checked first batch (segments_of rest) m ready h in
      let counted = checked.counted ∙ (ap length checked.events ∙ length-all_ready (diff ∷ rest)) in
      record {
        versions = sym (versions-segments_of (diff ∷ rest)) ∙ checked.contiguous;
        members = λ k.
            ap (λ l. contains k (event_ids l)) checked.events ∙ contains-all_ready k (diff ∷ rest);
        distinct = checked.distinct;
        counted = counted;
        unique = checked.unique ∙ (length-event_ids ready ∙ sym checked.counted);
        bounded = omega (arith, checked.counted, checked.bounded);
      }
