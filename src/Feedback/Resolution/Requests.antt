-- ===== src/Feedback/Resolution/Requests.antt =====
-- The answer of `resolve_feedback` to each requested event.
pub mod States
use mathlib.Core.List.{append-nil, append_assoc}
use sentinel_aegis_forge.Common.{
  ◌≤◌, String, ◌≡◌, refl, sym, ap, ◌∙◌, subst, inl, inr, some, List, [], ◌∷◌, ◌++◌, arith,
  Bool-cases, Option-cases, nat_eq, string_eq, pair_eq, list_eq, All, All-append, contains, IsNodup,
  Dict, lookup, keys, All-Among, IsNodup-snoc, keys-append, All-insert, All-lookup, ok, map_error,
  >>=-eq-ok, ok-eq, sort, All-sort,
}
use sentinel_aegis_forge.Datasets.Time.{Instant, Datetime, require_utc}
use sentinel_aegis_forge.Feedback.Contract.{FeedbackRecord}
use sentinel_aegis_forge.Feedback.Resolution.{
  SelectedRevision, Index, empty_index, record_case, index_from, build_index, resolve_event,
  resolve_from, ResolvedFeedback, resolve_feedback, chosen_for, count_for, CaseView, CaseKey,
  resolve_case, selected_leb,
}
use sentinel_aegis_forge.Feedback.Resolution.Cases.{resolve_case_chosen}
use sentinel_aegis_forge.Feedback.Resolution.Requests.States.{Explained, effective_state-Explained}

resolve_from-keys :
    (index : Index) (ids : List String) (start result : Dict String ResolvedFeedback)
    → IsNodup (keys start)
    → resolve_from index start ids ≡ ok result
    → (keys result ≡ keys start ++ ids) × IsNodup (keys result)
unfolding resolve_from
resolve_from-keys index [] start result fresh h =
    subst (λ d. (keys d ≡ keys start ++ []) × IsNodup (keys d)) (ok-eq h)
      (sym (append-nil (keys start)), fresh)
resolve_from-keys index (id ∷ rest) start result fresh h =
    elim (Bool-cases (contains id (keys start))) [
      | inl again ↦ cc (rw again at h)
      | inr new ↦
          let grown = start ++ (id, resolve_event index id) ∷ [] in
          let keys_grown : keys grown ≡ keys start ++ id ∷ [] = keys-append start _ in
          let (e, nodup) =
            resolve_from-keys index rest grown result
              (rw keys_grown (IsNodup-snoc id (keys start) new fresh)) (rw new at h) in
          (e ∙ ap (λ l. l ++ rest) keys_grown ∙ append_assoc (keys start) (id ∷ []) rest, nodup)
    ]

resolve_from-Answers :
    (P : String × ResolvedFeedback → Type 0) (index : Index)
    → ((id : String) → P (id, resolve_event index id))
    → (ids : List String) (start result : Dict String ResolvedFeedback) → All P start
    → resolve_from index start ids ≡ ok result
    → All P result
unfolding resolve_from
resolve_from-Answers P index each [] start result h done = subst (All P) (ok-eq done) h
resolve_from-Answers P index each (id ∷ rest) start result h done =
    elim (Bool-cases (contains id (keys start))) [
      | inl again ↦ cc (rw again at done)
      | inr new ↦
          resolve_from-Answers P index each rest (start ++ (id, resolve_event index id) ∷ []) result
            (All-append P start _ h (each id, tt)) (rw new at done)
    ]

-- A chosen revision of an event is about it, was received, and was available by the cutoff.
abbrev pub Usable : Instant → String → SelectedRevision → Type 0
Usable cutoff id s =
    (s.revision.event_id ≡ id)
    × (s.revision.received_at ≤ s.effective_available_at)
    × (s.effective_available_at ≤ cutoff)

abbrev IsUsable : Instant → Index → Type 0
IsUsable cutoff index = All (λ e. All (Usable cutoff e.0) e.1) index.by_event

resolve_case-Usable :
    (cutoff : Instant) (key : CaseKey) (history : List FeedbackRecord) (view : CaseView)
    (s : SelectedRevision)
    → resolve_case cutoff key history ≡ ok view
    → view.chosen ≡ some s
    → Usable cutoff view.event_id s
resolve_case-Usable cutoff key history view s done chosen =
    let (le, found, covers, same) = resolve_case_chosen cutoff key history view done s chosen in
    (
      All-Among (λ x. x.event_id ≡ view.event_id) s.revision history same found,
      (All-Among _ s.revision history covers found).0 (omega arith),
      le,
    )

chosen_for-Usable :
    (cutoff : Instant) (id : String) (d : Dict String (List SelectedRevision))
    → All (λ e. All (Usable cutoff e.0) e.1) d
    → All (Usable cutoff id) (chosen_for id d)
unfolding chosen_for
chosen_for-Usable cutoff id d h = elim (Option-cases (lookup id d)) [
  | inl missing ↦ rw (missing, chosen_for) tt
  | inr (l, found) ↦
      rw (found, chosen_for) (All-lookup (λ e. All (Usable cutoff e.0) e.1) id l d h found)
]

record_case-IsUsable :
    (cutoff : Instant) (view : CaseView) (index : Index)
    → ((s : SelectedRevision) → view.chosen ≡ some s → Usable cutoff view.event_id s)
    → IsUsable cutoff index
    → IsUsable cutoff (record_case view index)
unfolding record_case
record_case-IsUsable cutoff view index usable h = elim (Option-cases view.chosen) [
  | inl unobserved ↦ rw unobserved h
  | inr (s, chosen) ↦ rw chosen (
      All-insert (λ e. All (Usable cutoff e.0) e.1) view.event_id _ index.by_event
        (λ id same.
          subst (λ t. All (Usable cutoff t) (chosen_for view.event_id index.by_event ++ s ∷ []))
            (sym same)
            (All-append (Usable cutoff view.event_id) (chosen_for view.event_id index.by_event) _
              (chosen_for-Usable cutoff view.event_id index.by_event h) (usable s chosen, tt)))
        h)
]

index_from-IsUsable :
    (cutoff : Instant) (items : List (CaseKey × List FeedbackRecord)) (start index : Index)
    → IsUsable cutoff start
    → index_from cutoff items start ≡ ok index
    → IsUsable cutoff index
unfolding index_from
index_from-IsUsable cutoff [] start index h done = subst (IsUsable cutoff) (ok-eq done) h
index_from-IsUsable cutoff ((key, history) ∷ rest) start index h done =
    let (view, resolved, later) = >>=-eq-ok (resolve_case cutoff key history) _ done in
    index_from-IsUsable cutoff rest (record_case view start) index
      (record_case-IsUsable cutoff view start
        (λ s chosen. resolve_case-Usable cutoff key history view s resolved chosen) h)
      later

-- What is said of one requested event and its answer.
abbrev pub Answered : Instant → String × ResolvedFeedback → Type 0
Answered cutoff (id, item) =
    (item.event_id ≡ id) × All (Usable cutoff id) item.selected × Explained item

resolve_event-Answered :
    (cutoff : Instant) (index : Index) (id : String)
    → IsUsable cutoff index
    → Answered cutoff (id, resolve_event index id)
unfolding resolve_event
resolve_event-Answered cutoff index id h = (
  refl,
  All-sort selected_leb (Usable cutoff id) (chosen_for id index.by_event)
      (chosen_for-Usable cutoff id index.by_event h),
  effective_state-Explained (sort selected_leb (chosen_for id index.by_event)) id
      (count_for id index.known_case_counts),
)

module _ (records : List FeedbackRecord) (as_of : Datetime) (event_ids : List String)
    (result : Dict String ResolvedFeedback)
    (done : resolve_feedback records as_of event_ids ≡ ok result) where
  -- The requested events are answered in their order, and none was requested twice.
  pub resolve_feedback-keys : (keys result ≡ event_ids) × IsNodup event_ids
  unfolding resolve_feedback
  resolve_feedback-keys =
      let (cutoff, _, built) = >>=-eq-ok (map_error _ (require_utc as_of)) _ done in
      let (index, _, answered) = >>=-eq-ok (build_index cutoff records) _ built in
      let (e, nodup) = resolve_from-keys index event_ids [] result tt answered in
      (e, subst IsNodup e nodup)

  -- Every answer rests on revisions of that event which were received and available by the
  -- cutoff, and its state says what they are: never a label from one that came later.
  pub resolve_feedback-Answered :
      (cutoff : Instant) → require_utc as_of ≡ ok cutoff → All (Answered cutoff) result
  unfolding resolve_feedback build_index
  resolve_feedback-Answered cutoff now =
      let (index, built, answered) = >>=-eq-ok (build_index cutoff records) _ (rw now at done) in
      let usable = index_from-IsUsable cutoff _ empty_index index tt built in
      resolve_from-Answers (Answered cutoff) index
        (λ id. resolve_event-Answered cutoff index id usable) event_ids [] result tt answered
