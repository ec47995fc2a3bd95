-- ===== src/Feedback/Resolution/Cutoff.antt =====
-- What `resolve_feedback` reads of the records that came after the cutoff.
use sentinel_aegis_forge.Common.{
  map-append, sym, true, String, false, length-map, fun_ext, ◌≡◌, refl, ap, ◌∙◌, List, [], ◌∷◌,
  ◌++◌, map, Bool-cases, leb, ◌==◌, string_eq, pair_eq, if◌then◌else◌, map-sort, sort, Option, none,
  insert, arith, inl, inr, ok, max, ◌>>=◌,
}
use sentinel_aegis_forge.Datasets.Time.{Instant, Datetime, require_utc}
use sentinel_aegis_forge.Feedback.Contract.{FeedbackStatus, FeedbackRecord}
use sentinel_aegis_forge.Feedback.Resolution.{
  SelectedRevision, CaseKey, Cases, case_of, history_of, grow, group_from, revisions, event_ids_of,
  select_from, select_revision, resolve_case, revision_leb, item_leb, Index, index_from,
  record_case, build_index, empty_index, resolve_feedback, first_event,
}

-- The record with its content blanked if it came after the cutoff: the case, the revision, the
-- event and the time of receipt stay.
pub hide : Instant → FeedbackRecord → FeedbackRecord
hide cutoff item = if leb item.received_at cutoff then item else record item {
  provider_record_id = "";
  status = FeedbackStatus.pending;
  source_updated_at = 0;
}

module _ (cutoff : Instant) where
  hide_case : (item : FeedbackRecord) → case_of (hide cutoff item) ≡ case_of item
  unfolding hide
  hide_case item = ground arith

  hide_revision :
      (item : FeedbackRecord) → (hide cutoff item).source_revision ≡ item.source_revision
  unfolding hide
  hide_revision item = ground arith

  hide_event : (item : FeedbackRecord) → (hide cutoff item).event_id ≡ item.event_id
  unfolding hide
  hide_event item = ground arith

  hide_received : (item : FeedbackRecord) → (hide cutoff item).received_at ≡ item.received_at
  unfolding hide
  hide_received item = ground arith

  hide_early :
      (item : FeedbackRecord) → leb item.received_at cutoff ≡ true → hide cutoff item ≡ item
  unfolding hide
  hide_early item early = rw early

  late_max : (a b : Instant) → leb b cutoff ≡ false → leb (max a b) cutoff ≡ false
  late_max a b h = ground arith

  revisions-hide :
      (items : List FeedbackRecord) → revisions (map (hide cutoff) items) ≡ revisions items
  revisions-hide [] = refl
  revisions-hide (item ∷ rest) = rw (hide_revision item, revisions-hide rest)

  event_ids-hide :
      (items : List FeedbackRecord) → event_ids_of (map (hide cutoff) items) ≡ event_ids_of items
  event_ids-hide [] = refl
  event_ids-hide (item ∷ rest) = rw (hide_event item, event_ids-hide rest)

  select_from-hide :
      (a : Instant) (chosen : Option SelectedRevision) (items : List FeedbackRecord)
      → select_from cutoff a chosen (map (hide cutoff) items) ≡ select_from cutoff a chosen items
  unfolding select_from
  select_from-hide a chosen [] = refl
  select_from-hide a chosen (item ∷ rest) = elim (Bool-cases (leb item.received_at cutoff)) [
    | inl early ↦ rw (hide_early item early) (select_from-hide (max a item.received_at) _ rest)
    | inr late ↦
        rw (hide_received item, late_max a item.received_at late)
          (select_from-hide (max a item.received_at) chosen rest)
  ]

  select_revision-hide :
      (items : List FeedbackRecord)
      → select_revision cutoff (map (hide cutoff) items) ≡ select_revision cutoff items
  unfolding select_revision
  select_revision-hide [] = refl
  select_revision-hide (item ∷ rest) =
      ap (λ t. select_from cutoff t none (map (hide cutoff) (item ∷ rest))) (hide_received item)
      ∙ select_from-hide item.received_at none (item ∷ rest)

  first_event-hide :
      (key : CaseKey) (items : List FeedbackRecord)
      → first_event key (map (hide cutoff) items) ≡ first_event key items
  unfolding first_event
  first_event-hide key [] = refl
  first_event-hide key (item ∷ rest) = rw (hide_event item)

  sort-hide :
      (items : List FeedbackRecord)
      → sort revision_leb (map (hide cutoff) items) ≡ map (hide cutoff) (sort revision_leb items)
  sort-hide items = sym (
      map-sort revision_leb revision_leb (hide cutoff)
        (λ x y. rw (hide_revision x, hide_revision y)) items)

  resolve_case-hide :
      (key : CaseKey) (history : List FeedbackRecord)
      → resolve_case cutoff key (map (hide cutoff) history) ≡ resolve_case cutoff key history
  unfolding resolve_case
  resolve_case-hide key history = simp (
    sort-hide, revisions-hide, event_ids-hide, first_event-hide, select_revision-hide, length-map,
  )

  hide_history : CaseKey × List FeedbackRecord → CaseKey × List FeedbackRecord
  hide_history (key, history) = (key, map (hide cutoff) history)

  index_from-hide :
      (items : List (CaseKey × List FeedbackRecord)) (index : Index)
      → index_from cutoff (map hide_history items) index ≡ index_from cutoff items index
  unfolding index_from hide_history
  index_from-hide [] index = refl
  index_from-hide ((key, history) ∷ rest) index = rw (resolve_case-hide key history) (
      ap (λ k. resolve_case cutoff key history >>= k)
        (fun_ext (λ view. index_from-hide rest (record_case view index))))

  same_key :
      (x y : CaseKey × List FeedbackRecord)
      → item_leb (hide_history x) (hide_history y) ≡ item_leb x y
  unfolding hide_history
  same_key x y = refl

  lookup-hide :
      (key : CaseKey) (cases : Cases)
      → history_of key (map hide_history cases) ≡ map (hide cutoff) (history_of key cases)
  unfolding history_of hide_history
  lookup-hide key [] = refl
  lookup-hide key ((j, history) ∷ rest) = elim (Bool-cases (key == j)) [
    | inl same ↦ rw (same, history_of)
    | inr other ↦ rw (other, history_of) (lookup-hide key rest)
  ]

  insert-hide :
      (key : CaseKey) (history : List FeedbackRecord) (cases : Cases)
      → insert key (map (hide cutoff) history) (map hide_history cases)
        ≡ map hide_history (insert key history cases)
  unfolding hide_history
  insert-hide key history [] = refl
  insert-hide key history ((j, old) ∷ rest) = elim (Bool-cases (key == j)) [
    | inl same ↦ rw same
    | inr other ↦ rw other (ap (◌∷◌ (j, map (hide cutoff) old)) (insert-hide key history rest))
  ]

  grow-hide :
      (item : FeedbackRecord) (cases : Cases)
      → grow (hide cutoff item) (map hide_history cases) ≡ map hide_history (grow item cases)
  unfolding grow
  grow-hide item cases =
      ap
        (λ k.
          insert k (history_of k (map hide_history cases) ++ hide cutoff item ∷ [])
            (map hide_history cases))
        (hide_case item)
      ∙ ap (λ h. insert (case_of item) h (map hide_history cases))
          (ap (λ l. l ++ hide cutoff item ∷ []) (lookup-hide (case_of item) cases)
            ∙ sym (map-append (hide cutoff) (history_of (case_of item) cases) (item ∷ [])))
      ∙ insert-hide (case_of item) (history_of (case_of item) cases ++ item ∷ []) cases

  group_from-hide :
      (cases : Cases) (items : List FeedbackRecord)
      → group_from (map hide_history cases) (map (hide cutoff) items)
        ≡ map hide_history (group_from cases items)
  unfolding group_from
  group_from-hide cases [] = refl
  group_from-hide cases (item ∷ rest) =
      ap (λ c. group_from c (map (hide cutoff) rest)) (grow-hide item cases)
      ∙ group_from-hide (grow item cases) rest

  build_index-hide :
      (records : List FeedbackRecord)
      → build_index cutoff (map (hide cutoff) records) ≡ build_index cutoff records
  unfolding build_index
  build_index-hide records =
      ap (λ c. index_from cutoff (sort item_leb c) empty_index) (group_from-hide [] records)
      ∙ ap (λ c. index_from cutoff c empty_index)
          (sym (map-sort item_leb item_leb hide_history same_key (group_from [] records)))
      ∙ index_from-hide (sort item_leb (group_from [] records)) empty_index

  -- What came after the cutoff may be anything: its status, its record id and its update time
  -- change neither the result nor whether there is one.
  pub resolve_feedback-hide :
      (records : List FeedbackRecord) (as_of : Datetime) (event_ids : List String)
      → require_utc as_of ≡ ok cutoff
      → resolve_feedback (map (hide cutoff) records) as_of event_ids
        ≡ resolve_feedback records as_of event_ids
  unfolding resolve_feedback
  resolve_feedback-hide records as_of event_ids now = rw now (rw (build_index-hide records))
