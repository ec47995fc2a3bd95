-- ===== src/Feedback/Resolution/Cases.antt =====
-- One provider case of `resolve_feedback`: what its history must be, and what is chosen of it.
use sentinel_aegis_forge.Common.{
  range, String, ℕ, suc, ◌+◌, ◌≤◌, ◌<◌, ◌≡◌, sym, subst, inl, inr, none, some, List, [], ◌∷◌, ok,
  ok-eq, tail-eq, ◌∙◌, zero, Bool-cases, leb, leb→le, leb→lt, list_beq_iff, nat_eq, string_eq,
  list_eq, eq_iff, All, All-mono, sort-All, sort-Among, Among, length, to_set, to_set_singleton,
  sort, arith,
}
use sentinel_aegis_forge.Datasets.Time.{Instant}
use sentinel_aegis_forge.Feedback.Contract.{FeedbackRecord}
use sentinel_aegis_forge.Feedback.Resolution.{
  SelectedRevision, first_event, CaseKey, CaseView, revisions, select_revision, resolve_case,
  event_ids_of, revision_leb,
}
use sentinel_aegis_forge.Feedback.Resolution.Causal.{
  Covers, select_from-Chosen, select_from-none, select_from_late, revisions-ge,
}

All-event_ids :
    (id : String) (items : List FeedbackRecord)
    → All (λ z. z ≡ id) (event_ids_of items)
    → All (λ x. x.event_id ≡ id) items
All-event_ids id [] h = tt
All-event_ids id (item ∷ rest) h = (h.0, All-event_ids id rest h.1)

first_event-All :
    (key : CaseKey) (id : String) (items : List FeedbackRecord)
    → first_event key items ≡ ok id
    → length (to_set (event_ids_of items)) ≡ 1
    → All (λ x. x.event_id ≡ id) items
unfolding first_event
first_event-All key id [] h one = cc
first_event-All key id (item ∷ rest) h one =
    subst (λ z. All (λ x. x.event_id ≡ z) (item ∷ rest)) (ok-eq h)
      (All-event_ids item.event_id (item ∷ rest) (
        to_set_singleton item.event_id (event_ids_of (item ∷ rest))
          (ground (arith, eq_iff item.event_id item.event_id)) one))

-- On revisions counted from one, a chosen revision covers the list.
select_revision-Covers :
    (cutoff : Instant) (n : ℕ) (s : SelectedRevision) (items : List FeedbackRecord)
    → revisions items ≡ range 1 n
    → select_revision cutoff items ≡ some s
    → (s.effective_available_at ≤ cutoff) × Among s.revision items × Covers cutoff s items
unfolding select_revision
select_revision-Covers cutoff n s [] e h = cc
select_revision-Covers cutoff n s (item ∷ rest) e h =
    elim (Bool-cases (leb item.received_at cutoff)) [
      | inl early ↦
          elim (select_from-Chosen cutoff item.received_at 1 n none s (item ∷ rest) e
            (leb→le _ _ early) h) [
              | inl (kept, _) ↦ cc kept
              | inr (_, _, le, found, covers) ↦ (le, found, covers)
            ]
      | inr late ↦
          cc (select_from_late cutoff item.received_at none (item ∷ rest) (leb→lt _ _ late))
    ]

select_revision-none :
    (cutoff : Instant) (n : ℕ) (items : List FeedbackRecord)
    → revisions items ≡ range 1 n
    → select_revision cutoff items ≡ none
    → All (λ x. x.source_revision ≡ 1 → cutoff < x.received_at) items
unfolding select_revision
select_revision-none cutoff n [] e h = tt
select_revision-none cutoff zero (item ∷ rest) e h = cc
select_revision-none cutoff (suc n) (item ∷ rest) e h = (
  λ _. elim (Bool-cases (leb item.received_at cutoff)) [
    | inl early ↦ select_from-none cutoff item.received_at (item ∷ rest) (leb→le _ _ early) h
    | inr late ↦ leb→lt _ _ late
  ],
  All-mono (λ x. 1 + 1 ≤ x.source_revision) (λ x. x.source_revision ≡ 1 → cutoff < x.received_at)
      (λ x g h. absurd (omega arith)) rest (revisions-ge (1 + 1) n rest (tail-eq e)),
)

module _ (cutoff : Instant) (key : CaseKey) (history : List FeedbackRecord) (view : CaseView)
    (done : resolve_case cutoff key history ≡ ok view) where
  ordered-revisions :
      revisions (sort revision_leb history) ≡ range 1 (length (sort revision_leb history))
  unfolding resolve_case
  ordered-revisions = ground (
    arith,
    list_beq_iff (revisions (sort revision_leb history))
        (range 1 (length (sort revision_leb history))),
  )

  same_event_ordered : All (λ x. x.event_id ≡ view.event_id) (sort revision_leb history)
  unfolding resolve_case
  same_event_ordered =
      first_event-All key view.event_id (sort revision_leb history) (ground arith) (ground arith)

  chosen-eq : view.chosen ≡ select_revision cutoff (sort revision_leb history)
  unfolding resolve_case
  chosen-eq = ground arith

  -- A chosen revision is in the history and available by the cutoff; every revision up to it was
  -- received by its effective availability, and the next one, if there is one, only after the
  -- cutoff. All records of the case are about the view's event.
  pub resolve_case_chosen :
      (s : SelectedRevision)
      → view.chosen ≡ some s
      → (s.effective_available_at ≤ cutoff)
        × Among s.revision history
        × Covers cutoff s history
        × All (λ x. x.event_id ≡ view.event_id) history
  resolve_case_chosen s h =
      let (le, found, covers) =
        select_revision-Covers cutoff _ s (sort revision_leb history) ordered-revisions
          (sym chosen-eq ∙ h) in
      (
        le,
        sort-Among revision_leb s.revision history found,
        sort-All revision_leb _ history covers,
        sort-All revision_leb _ history same_event_ordered,
      )

  -- If nothing is chosen, the first revision was received only after the cutoff.
  pub resolve_case_unobserved :
      view.chosen ≡ none → All (λ x. x.source_revision ≡ 1 → cutoff < x.received_at) history
  resolve_case_unobserved h = sort-All revision_leb _ history (
      select_revision-none cutoff _ (sort revision_leb history) ordered-revisions
        (sym chosen-eq ∙ h))
