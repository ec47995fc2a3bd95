-- ===== src/Feedback/Resolution/Returns.antt =====
-- When `resolve_feedback` does not raise: every case has its whole history, about one event.
use sentinel_aegis_forge.Common.{
  String, ◌≡◌, refl, sym, ap, ◌∙◌, subst, Bool, true, false, ◌&&◌, List, [], ◌∷◌, ◌++◌, map, arith,
  leb, ltb, ◌==◌, nat_eq, string_eq, list_eq, all, All, All-sort, IsNodup, Dict, keys, keys-append,
  contains, contains-append, length, to_set, range, ok, sort, sort-same, map-sort, length-sort,
  list_beq_iff,
}
use sentinel_aegis_forge.Datasets.Time.{Instant, Datetime, require_utc}
use sentinel_aegis_forge.Feedback.Contract.{FeedbackRecord}
use sentinel_aegis_forge.Feedback.Resolution.{
  CaseKey, CaseView, Index, ResolvedFeedback, resolve_case, first_event, revisions, event_ids_of,
  revision_leb, index_from, record_case, build_index, group_cases, item_leb, empty_index,
  resolve_from, resolve_event, resolve_feedback, select_revision,
}

abbrev pub is_about : String → FeedbackRecord → Bool
is_about id r = r.event_id == id

-- The revisions are one to the number of records, in some order, and name one event.
pub record IsWhole (history : List FeedbackRecord) : Type 0 where
  pub counted : sort leb (map (λ r. r.source_revision) history) ≡ range 1 (length history)
  pub event : String
  pub same_event : all (is_about event) history ≡ true
  pub inhabited : ltb 0 (length history) ≡ true

revisions-map : (xs : List FeedbackRecord) → revisions xs ≡ map (λ r. r.source_revision) xs
revisions-map [] = refl
revisions-map (x ∷ xs) = ap (◌∷◌ x.source_revision) (revisions-map xs)

pub revisions-sort :
    (xs : List FeedbackRecord)
    → revisions (sort revision_leb xs) ≡ sort leb (map (λ r. r.source_revision) xs)
revisions-sort xs =
    revisions-map (sort revision_leb xs)
    ∙ map-sort revision_leb leb (λ r. r.source_revision) (λ x y. refl) xs

pub all-sort :
    (p : FeedbackRecord → Bool) (le : FeedbackRecord → FeedbackRecord → Bool)
    (xs : List FeedbackRecord)
    → all p (sort le xs) ≡ all p xs
all-sort p le xs =
    sort-same le (all p) (λ x xs ys h. ap (λ b. p x && b) h) (λ x y xs. ground arith) xs

to_set_of_same :
    (id : String) (x : FeedbackRecord) (xs : List FeedbackRecord)
    → all (is_about id) (x ∷ xs) ≡ true
    → length (to_set (event_ids_of (x ∷ xs))) ≡ 1
to_set_of_same id x [] h = refl
to_set_of_same id x (y ∷ xs) h =
    let first : x.event_id ≡ id = (ground (arith, string_eq.same_iff x.event_id id)) in
    let second : y.event_id ≡ id = (ground (arith, string_eq.same_iff y.event_id id)) in
    let again : (x.event_id == y.event_id) ≡ true =
      (string_eq.same_iff x.event_id y.event_id).1 (first ∙ sym second) in
    rw again (to_set_of_same id y xs (ground arith))

module _ (cutoff : Instant) (key : CaseKey) where
  resolve_ordered :
      (history ordered : List FeedbackRecord)
      → sort revision_leb history ≡ ordered
      → revisions ordered ≡ range 1 (length ordered)
      → (id : String) → all (is_about id) ordered ≡ true
      → ltb 0 (length ordered) ≡ true
      → (view : CaseView) × (resolve_case cutoff key history ≡ ok view)
  unfolding resolve_case first_event
  resolve_ordered history [] e counted id same some = cc
  resolve_ordered history (first ∷ rest) e counted id same some = (
    record { event_id = first.event_id; chosen = select_revision cutoff (first ∷ rest) },
    rw (e, (list_beq_iff _ _).1 counted, to_set_of_same id first rest same),
  )

  resolve_case-returns :
      (history : List FeedbackRecord)
      → IsWhole history
      → (view : CaseView) × (resolve_case cutoff key history ≡ ok view)
  resolve_case-returns history whole =
      resolve_ordered history (sort revision_leb history) refl
        (revisions-sort history
          ∙ (whole.counted ∙ ap (range 1) (sym (length-sort revision_leb history))))
        whole.event (all-sort (is_about whole.event) revision_leb history ∙ whole.same_event)
        (rw (length-sort revision_leb history) whole.inhabited)

index_from-returns :
    (cutoff : Instant) (items : List (CaseKey × List FeedbackRecord)) (start : Index)
    → All (λ (p : CaseKey × List FeedbackRecord). IsWhole p.1) items
    → (index : Index) × (index_from cutoff items start ≡ ok index)
unfolding index_from
index_from-returns cutoff [] start h = (start, refl)
index_from-returns cutoff ((key, history) ∷ rest) start h =
    let (view, e) = resolve_case-returns cutoff key history h.0 in
    let (index, r) = index_from-returns cutoff rest (record_case view start) h.1 in
    (index, rw (e, r))

apart :
    (id : String) (rest ks : List String)
    → contains id rest ≡ false
    → All (λ j. contains j ks ≡ false) rest
    → All (λ j. contains j (ks ++ id ∷ []) ≡ false) rest
apart id [] ks fresh h = tt
apart id (j ∷ rest) ks fresh h = (
  ground (
    arith,
    contains-append j ks (id ∷ []),
    string_eq.same_iff id j,
    string_eq.same_iff j id,
    h.0,
  ),
  apart id rest ks (ground arith) h.1,
)

resolve_from-returns :
    (index : Index) (ids : List String) (start : Dict String ResolvedFeedback)
    → All (λ j. contains j (keys start) ≡ false) ids
    → IsNodup ids
    → (result : Dict String ResolvedFeedback) × (resolve_from index start ids ≡ ok result)
unfolding resolve_from
resolve_from-returns index [] start fresh h = (start, refl)
resolve_from-returns index (id ∷ rest) start fresh h =
    let (result, e) =
      resolve_from-returns index rest (start ++ (id, resolve_event index id) ∷ [])
        (subst (λ ks. All (λ j. contains j ks ≡ false) rest) (sym (keys-append start _))
          (apart id rest (keys start) h.0 fresh.1))
        h.1 in
    (result, rw (fresh.0, e))

-- If every case is whole, resolution answers every request without repetition.
pub resolve_feedback-returns :
    (records : List FeedbackRecord) (as_of : Datetime) (cutoff : Instant) (event_ids : List String)
    → All (λ (p : CaseKey × List FeedbackRecord). IsWhole p.1) (group_cases records)
    → require_utc as_of ≡ ok cutoff
    → IsNodup event_ids
    → (result : Dict String ResolvedFeedback) × (resolve_feedback records as_of event_ids
        ≡ ok result)
unfolding resolve_feedback build_index
resolve_feedback-returns records as_of cutoff event_ids whole utc distinct =
    let (index, e) = index_from-returns cutoff (sort item_leb (group_cases records)) empty_index (
      All-sort item_leb (λ (p : CaseKey × List FeedbackRecord). IsWhole p.1) (group_cases records)
        whole) in
    let (result, r) = resolve_from-returns index event_ids [] (all_fresh event_ids) distinct in
    (result, rw (utc, e, r))
  where
    all_fresh : (ids : List String) → All (λ j. contains j [] ≡ false) ids
    all_fresh [] = tt
    all_fresh (j ∷ ids) = (refl, all_fresh ids)
