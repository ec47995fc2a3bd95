-- ===== src/Feedback/Monitoring/Labels.antt =====
-- The labeled rows of `_derive`, by what the resolution of each prediction says.
use sentinel_aegis_forge.Common.{
  ◌+◌, String, ◌≡◌, refl, sym, ap, ◌∙◌, subst, ◌⊎◌, inl, inr, Bool, true, false, ◌&&◌, ◌||◌, Option,
  none, some, List, [], ◌∷◌, map, arith, nat_eq, string_eq, pair_eq, list_eq, length, select, count,
  All, IsNodup, Dict, lookup, keys, head-eq, tail-eq, ok, >>=-eq-ok, ok-eq,
}
use sentinel_aegis_forge.Datasets.Labels.{Outcome}
use sentinel_aegis_forge.Feedback.Resolution.{
  EffectiveState, ResolvedFeedback, confirmed_projection,
}
use sentinel_aegis_forge.Feedback.Resolution.Grouped.{IsNodup→lookup}
use sentinel_aegis_forge.Feedback.Monitoring.{
  Prediction, has_state, resolutions, resolution_of, resolve_rows, keep_confirmed, labeled_rows,
  is_positive, states_of,
}

abbrev pub event_ids_of : List Prediction → List String
event_ids_of [] = []
event_ids_of (row ∷ rest) = row.event_id ∷ event_ids_of rest

abbrev pub holds : EffectiveState → Option ResolvedFeedback → Bool
holds state none = false
holds state (some item) = has_state state item

-- Fraud or legit: what may be a label.
Projected : ResolvedFeedback → Type 0
Projected item =
    ((confirmed_projection item ≡ some Outcome.fraud)
      × (has_state EffectiveState.fraud item ≡ true)
      × (has_state EffectiveState.legit item ≡ false))
    ⊎ (((confirmed_projection item ≡ some Outcome.legit)
          × (has_state EffectiveState.fraud item ≡ false)
          × (has_state EffectiveState.legit item ≡ true))
        ⊎ ((confirmed_projection item ≡ none)
            × (has_state EffectiveState.fraud item ≡ false)
            × (has_state EffectiveState.legit item ≡ false)))

projected : (item : ResolvedFeedback) (s : EffectiveState) → item.state ≡ s → Projected item
unfolding Projected confirmed_projection
projected item EffectiveState.fraud h = inl (rw h (refl, refl, refl))
projected item EffectiveState.legit h = inr (inl (rw h (refl, refl, refl)))
projected item EffectiveState.pending h = inr (inr (rw h (refl, refl, refl)))
projected item EffectiveState.retracted h = inr (inr (rw h (refl, refl, refl)))
projected item EffectiveState.not_yet_observed h = inr (inr (rw h (refl, refl, refl)))
projected item EffectiveState.no_case h = inr (inr (rw h (refl, refl, refl)))
projected item EffectiveState.ambiguous h = inr (inr (rw h (refl, refl, refl)))

module _ (resolved : Dict String ResolvedFeedback) where
  -- the state of a prediction's event
  abbrev pub in_state : EffectiveState → Prediction → Bool
  in_state state row = holds state (lookup row.event_id resolved)

  abbrev pub is_labeled : Prediction → Bool
  is_labeled row = in_state EffectiveState.fraud row || in_state EffectiveState.legit row

  resolution_of-eq :
      (id : String) (o : Option ResolvedFeedback) (item : ResolvedFeedback)
      → resolution_of id o ≡ ok item
      → o ≡ some item
  unfolding resolution_of
  resolution_of-eq id none item h = cc
  resolution_of-eq id (some found) item h = ap (λ t. some t) (ok-eq h)

  pub resolve_rows-states :
      (predictions : List Prediction) (rows : List (Prediction × ResolvedFeedback))
      → resolve_rows predictions resolved ≡ ok rows
      → map (λ item. some item) (states_of rows)
        ≡ map (λ (row : Prediction). lookup row.event_id resolved) predictions
  unfolding resolve_rows states_of
  resolve_rows-states [] rows h =
      ap (λ (l : List (Prediction × ResolvedFeedback)). map (λ item. some item) (states_of l))
        (sym (ok-eq h))
  resolve_rows-states (row ∷ rest) rows h =
      let (item, found, h) =
        >>=-eq-ok (resolution_of row.event_id (lookup row.event_id resolved)) _ h in
      let (others, looped, h) = >>=-eq-ok (resolve_rows rest resolved) _ h in
      let one = resolution_of-eq row.event_id (lookup row.event_id resolved) item found in
      ap (λ (l : List (Prediction × ResolvedFeedback)). map (λ item. some item) (states_of l))
        (sym (ok-eq h))
      ∙ (ap (λ l. some item ∷ l) (resolve_rows-states rest others looped)
          ∙ ap (λ o. o ∷ map (λ (row : Prediction). lookup row.event_id resolved) rest) (sym one))

  module _ (u : Prediction → Bool) where
    -- The labeled rows that pass a test.
    abbrev pub passed : List (Prediction × ResolvedFeedback) → List (Prediction × Outcome)
    passed rows = select (λ (r : Prediction × Outcome). u r.0) (labeled_rows rows)

    pub record IsLabeling (predictions : List Prediction) (l : List (Prediction × Outcome))
        : Type 0 where
      pub rows : length l ≡ count (λ row. u row && is_labeled row) predictions
      pub frauds :
          count is_positive l
          ≡ count (λ row. u row && in_state EffectiveState.fraud row) predictions
      pub legits :
          length l
          ≡ count is_positive l
            + count (λ row. u row && in_state EffectiveState.legit row) predictions

    IsLabeling-keep :
        (row : Prediction) (item : ResolvedFeedback) (rest : List Prediction)
        (l : List (Prediction × Outcome))
        → lookup row.event_id resolved ≡ some item
        → IsLabeling rest (select (λ (r : Prediction × Outcome). u r.0) l)
        → IsLabeling (row ∷ rest) (
            select
              (λ (r : Prediction × Outcome). u r.0)
              (keep_confirmed row (confirmed_projection item) l))
    unfolding Projected
    IsLabeling-keep row item rest l found ih = elim (projected item item.state refl) [
      | inl (p, f, g) ↦ rw p (record {
        rows = rw found (ground (arith, f, g, ih.rows));
        frauds = rw found (ground (arith, f, g, ih.frauds));
        legits = rw found (ground (arith, f, g, ih.legits));
      })
      | inr (inl (p, f, g)) ↦ rw p (record {
        rows = rw found (ground (arith, f, g, ih.rows));
        frauds = rw found (ground (arith, f, g, ih.frauds));
        legits = rw found (ground (arith, f, g, ih.legits));
      })
      | inr (inr (p, f, g)) ↦ rw p (record {
        rows = rw found (ground (arith, f, g, ih.rows));
        frauds = rw found (ground (arith, f, g, ih.frauds));
        legits = rw found (ground (arith, f, g, ih.legits));
      })
    ]

    pub labeled_rows-IsLabeling :
        (predictions : List Prediction) (rows : List (Prediction × ResolvedFeedback))
        → resolve_rows predictions resolved ≡ ok rows
        → IsLabeling predictions (passed rows)
    unfolding resolve_rows labeled_rows
    labeled_rows-IsLabeling [] rows h =
        subst (λ l. IsLabeling [] (passed l)) (ok-eq h)
          (record { rows = refl; frauds = refl; legits = omega arith })
    labeled_rows-IsLabeling (row ∷ rest) rows h =
        let (item, found, h) =
          >>=-eq-ok (resolution_of row.event_id (lookup row.event_id resolved)) _ h in
        let (others, looped, h) = >>=-eq-ok (resolve_rows rest resolved) _ h in
        let one = resolution_of-eq row.event_id (lookup row.event_id resolved) item found in
        subst (λ l. IsLabeling (row ∷ rest) (passed l)) (ok-eq h)
          (IsLabeling-keep row item rest (labeled_rows others) one
            (labeled_rows-IsLabeling rest others looped))

  -- Where each event was resolved once, a bucket counts the predictions of its state.
  count-resolutions :
      (state : EffectiveState) (predictions : List Prediction) (d : Dict String ResolvedFeedback)
      → keys d ≡ event_ids_of predictions
      → All (λ (p : String × ResolvedFeedback). lookup p.0 resolved ≡ some p.1) d
      → count (has_state state) (resolutions d) ≡ count (in_state state) predictions
  count-resolutions state [] [] same h = refl
  count-resolutions state [] (p ∷ d) same h = cc
  count-resolutions state (row ∷ rest) [] same h = cc
  count-resolutions state (row ∷ rest) ((k, item) ∷ d) same h =
      let found : lookup row.event_id resolved ≡ some item =
        ap (λ t. lookup t resolved) (sym (head-eq same)) ∙ h.0 in
      rw (found, count-resolutions state rest d (tail-eq same) h.1)

  pub tally-counts :
      (state : EffectiveState) (predictions : List Prediction)
      → keys resolved ≡ event_ids_of predictions
      → IsNodup (keys resolved)
      → count (has_state state) (resolutions resolved) ≡ count (in_state state) predictions
  tally-counts state predictions same once =
      count-resolutions state predictions resolved same (IsNodup→lookup resolved once)
