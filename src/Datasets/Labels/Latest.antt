-- ===== src/Datasets/Labels/Latest.antt =====
-- What `resolve_labels` selects for one event.
use native.Mathlib.Nat.{le_trans}
use sentinel_aegis_forge.Common.{
  ◌≤◌, String, ◌≡◌, refl, sym, ap, ◌∙◌, subst, ◌⊎◌, inl, inr, Bool, true, false, ◌&&◌, Option, none,
  some, List, [], ◌∷◌, arith, eq_iff, leb, if◌then◌else◌, Bool-cases, ◌==◌, nat_eq, string_eq,
  pair_eq, list_eq, some-eq, All, lookup, lookup-insert, Among, ok, ok-eq,
}
use sentinel_aegis_forge.Datasets.Time.{Instant, Datetime, require_utc}
use sentinel_aegis_forge.Datasets.Labels.{
  TransactionOutcomeLabel, Selected, replaces, select_label, select_from, resolve_labels,
}

module _ (cutoff : Instant) (id : String) where
  -- the test under which the label is selected for `id`
  abbrev takes : TransactionOutcomeLabel → Option TransactionOutcomeLabel → Bool
  takes label now =
      (label.event_id == id && leb label.label_observed_at cutoff) && replaces label now

  pick :
      Option TransactionOutcomeLabel → List TransactionOutcomeLabel → Option TransactionOutcomeLabel
  pick now [] = now
  pick now (label ∷ rest) = pick (if takes label now then some label else now) rest

  lookup-select_label :
      (label : TransactionOutcomeLabel) (d : Selected)
      → lookup id (select_label cutoff label d)
        ≡ (if takes label (lookup id d) then some label else lookup id d)
  unfolding select_label
  lookup-select_label label d = elim (Bool-cases (string_eq.same label.event_id id)) [
    | inl same ↦
        let e : label.event_id ≡ id = (eq_iff label.event_id id).0 same in
        ground (
          arith,
          eq_iff label.event_id id,
          eq_iff id label.event_id,
          lookup-insert label.event_id id label d,
          ap (λ k. lookup k d) e,
        )
    | inr other ↦ ground (
      arith,
      eq_iff label.event_id id,
      eq_iff id label.event_id,
      lookup-insert label.event_id id label d,
    )
  ]

  lookup-select_from :
      (d : Selected) (labels : List TransactionOutcomeLabel)
      → lookup id (select_from cutoff d labels) ≡ pick (lookup id d) labels
  unfolding select_from pick
  lookup-select_from d [] = refl
  lookup-select_from d (label ∷ rest) =
      lookup-select_from (select_label cutoff label d) rest
      ∙ ap (λ o. pick o rest) (lookup-select_label label d)

  -- Of this event, and observed by the cutoff.
  abbrev pub Known : TransactionOutcomeLabel → Type 0
  Known label = (label.event_id ≡ id) × (label.label_observed_at ≤ cutoff)

  abbrev pub AtLeast : TransactionOutcomeLabel → TransactionOutcomeLabel → Type 0
  AtLeast best label = Known label → label.label_revision ≤ best.label_revision

  takes→Known :
      (label : TransactionOutcomeLabel) (now : Option TransactionOutcomeLabel)
      → takes label now ≡ true
      → Known label
        × ((p : TransactionOutcomeLabel) → now ≡ some p → p.label_revision ≤ label.label_revision)
  unfolding replaces
  takes→Known label none h = (ground (arith, eq_iff label.event_id id), λ p e. cc)
  takes→Known label (some q) h = (ground (arith, eq_iff label.event_id id), λ p e. ground arith)

  passes→AtLeast :
      (label : TransactionOutcomeLabel) (now : Option TransactionOutcomeLabel)
      → takes label now ≡ false
      → Known label
      → (q : TransactionOutcomeLabel) × (now ≡ some q) × (label.label_revision ≤ q.label_revision)
  unfolding replaces
  passes→AtLeast label none h k = absurd (ground (arith, eq_iff label.event_id id))
  passes→AtLeast label (some q) h k = (q, refl, ground (arith, eq_iff label.event_id id))

  -- Where the best label of a list came from: it was there before, or it is a known label of it.
  abbrev From :
      Option TransactionOutcomeLabel
      → List TransactionOutcomeLabel
      → TransactionOutcomeLabel
      → Type 0
  From now labels best = (now ≡ some best) ⊎ (Among best labels × Known best)

  abbrev Beats : Option TransactionOutcomeLabel → TransactionOutcomeLabel → Type 0
  Beats now best =
      (p : TransactionOutcomeLabel) → now ≡ some p → p.label_revision ≤ best.label_revision

  pick-some :
      (now : Option TransactionOutcomeLabel) (best : TransactionOutcomeLabel)
      (labels : List TransactionOutcomeLabel)
      → pick now labels ≡ some best
      → From now labels best × Beats now best × All (AtLeast best) labels
  unfolding pick
  pick-some now best [] h = (
    inl h,
    λ p e.
        omega (arith, ap (λ (t : TransactionOutcomeLabel). t.label_revision) (some-eq (sym e ∙ h))),
    tt,
  )
  pick-some now best (label ∷ rest) h = elim (Bool-cases (takes label now)) [
    | inl took ↦
        let (from, beats, all_rest) = pick-some (some label) best rest (rw took at h) in
        let (known, over) = takes→Known label now took in
        (
          elim from [
            | inl e ↦ inr (inl (sym (some-eq e)), subst Known (some-eq e) known)
            | inr (found, k) ↦ inr (inr found, k)
          ],
          λ p e. le_trans (over p e) (beats label refl),
          (λ _. beats label refl, all_rest),
        )
    | inr passed ↦
        let (from, beats, all_rest) = pick-some now best rest (rw passed at h) in
        (
          elim from [ inl e ↦ inl e | inr (found, k) ↦ inr (inr found, k) ],
          beats,
          (
            λ k. let (q, e, le) = passes→AtLeast label now passed k in le_trans le (beats q e),
            all_rest,
          ),
        )
  ]

  pick-none :
      (now : Option TransactionOutcomeLabel) (labels : List TransactionOutcomeLabel)
      → pick now labels ≡ none
      → (now ≡ none) × All (λ label. ¬ Known label) labels
  unfolding pick
  pick-none now [] h = (h, tt)
  pick-none now (label ∷ rest) h = elim (Bool-cases (takes label now)) [
    | inl took ↦ cc ((pick-none (some label) rest (rw took at h)).0)
    | inr passed ↦
        let (unset, all_rest) = pick-none now rest (rw passed at h) in
        (
          unset,
          (λ k. let (q, e, _) = passes→AtLeast label now passed k in cc (sym unset ∙ e), all_rest),
        )
  ]

  module _ (records : List TransactionOutcomeLabel) (as_of : Datetime) (selected : Selected)
      (now : require_utc as_of ≡ ok cutoff)
      (done : resolve_labels records as_of ≡ ok selected) where
    resolved : lookup id selected ≡ pick none records
    unfolding resolve_labels
    resolved = ap (lookup id) (sym (ok-eq (rw now at done))) ∙ lookup-select_from [] records

    -- The label selected for an event is one of the records, is of that event, was observed by
    -- the cutoff, and no record of the event that was observed by then has a later revision.
    pub resolve_labels-some :
        (best : TransactionOutcomeLabel)
        → lookup id selected ≡ some best
        → Among best records × Known best × All (AtLeast best) records
    resolve_labels-some best found =
        let (from, _, over) = pick-some none best records (sym resolved ∙ found) in
        elim from [ inl e ↦ cc e | inr (among, known) ↦ (among, known, over) ]

    -- No label is selected only where no record of the event was observed by the cutoff.
    pub resolve_labels-none : lookup id selected ≡ none → All (λ label. ¬ Known label) records
    resolve_labels-none missing = (pick-none none records (sym resolved ∙ missing)).1
