-- ===== src/Feedback/Monitoring/Population.antt =====
-- The counts of a derived coverage account for the scored population.
pub mod Groups
use sentinel_aegis_forge.Common.{
  ◌+◌, String, ◌≡◌, refl, sym, ◌∙◌, subst, true, not, some, List, map, arith, ltb, ltb→le, ◌==◌,
  nat_eq, string_eq, pair_eq, list_eq, length, count, All, IsNodup, Dict, keys, lookup, ok,
  raise_if, raise_if-eq-ok, >>=-eq-ok, ok-eq,
}
use sentinel_aegis_forge.Feedback.Resolution.{EffectiveState, ResolvedFeedback}
use sentinel_aegis_forge.Feedback.Monitoring.{
  Prediction, has_state, tally, sum_of, conflicts, resolutions, resolve_rows, labeled_rows, Minimum,
  Derived, derive, conflicting_providers, not_reconciled, division_by_zero,
}
use sentinel_aegis_forge.Feedback.Monitoring.Labels.{
  event_ids_of, in_state, IsLabeling, labeled_rows-IsLabeling, resolve_rows-states, tally-counts,
}
use sentinel_aegis_forge.Feedback.Monitoring.Population.Groups.{
  segments_of-IsSegment, select_all, Supported, metrics-Supported, metrics-rows,
  metrics-IsMeasuredBy, IsSegment,
}

module _ (resolved : Dict String ResolvedFeedback) where
  -- What a derived coverage says of the population.
  pub record IsCovered (minimum : Minimum) (predictions : List Prediction)
      (dimensions : List String) (d : Derived) : Type 0 where
    pub states :
        map (λ item. some item) d.states
        ≡ map (λ (row : Prediction). lookup row.event_id resolved) predictions
    pub scored : d.coverage.scored_events ≡ length predictions
    pub frauds :
        d.coverage.confirmed_fraud ≡ count (in_state resolved EffectiveState.fraud) predictions
    pub legits :
        d.coverage.confirmed_legit ≡ count (in_state resolved EffectiveState.legit) predictions
    pub pending :
        d.coverage.pending_cases ≡ count (in_state resolved EffectiveState.pending) predictions
    pub retracted :
        d.coverage.retracted_cases ≡ count (in_state resolved EffectiveState.retracted) predictions
    pub unobserved :
        d.coverage.not_yet_observed_events
        ≡ count (in_state resolved EffectiveState.not_yet_observed) predictions
    pub without_case :
        d.coverage.events_with_no_feedback_case
        ≡ count (in_state resolved EffectiveState.no_case) predictions
    pub unambiguous : count (in_state resolved EffectiveState.ambiguous) predictions ≡ 0
    pub labeled :
        d.coverage.eligible_labeled_events ≡ d.coverage.confirmed_fraud + d.coverage.confirmed_legit
    pub quality_rows : d.quality.rows ≡ d.coverage.eligible_labeled_events
    pub positives : d.quality.positives ≡ d.coverage.confirmed_fraud
    pub negatives : d.quality.negatives ≡ d.coverage.confirmed_legit
    pub supported : Supported minimum d.quality
    pub dimensions_kept : keys d.segments ≡ dimensions
    pub segments : All (IsSegment resolved minimum predictions) d.segments

-- Whenever a coverage is derived of resolutions of just the scored events, each once: its states
-- are the resolutions of the predictions in their order, none of them ambiguous, and each bucket
-- counts the predictions whose event is in that state; the labeled events are those that are
-- confirmed fraud or confirmed legit, which are the positives and the negatives of the quality,
-- and its numbers are available only with the minimum of rows and of rows of each class; and each
-- segment has one group for each value of its dimension, which counts the predictions with that
-- value, the confirmed ones of each class among them, and the others.
pub derive-IsCovered :
    (predictions : List Prediction) (resolved : Dict String ResolvedFeedback) (minimum : Minimum)
    (dimensions : List String) (d : Derived)
    → keys resolved ≡ event_ids_of predictions
    → IsNodup (keys resolved)
    → derive predictions resolved minimum dimensions ≡ ok d
    → IsCovered resolved minimum predictions dimensions d
unfolding derive
derive-IsCovered predictions resolved minimum dimensions d same once h =
    let buckets = tally (resolutions resolved) in
    let (rows, looped, h) = >>=-eq-ok (resolve_rows predictions resolved) _ h in
    let (_, c1, h) =
      >>=-eq-ok
        (raise_if (ltb 0 buckets.ambiguous)
          (conflicting_providers (conflicts (resolutions resolved))))
        _ h in
    let (_, _, h) =
      >>=-eq-ok (raise_if (not (sum_of buckets == length predictions)) not_reconciled) _ h in
    let (_, _, h) = >>=-eq-ok (raise_if (length predictions == 0) division_by_zero) _ h in
    let none_ambiguous = ltb→le 0 buckets.ambiguous (
      raise_if-eq-ok (conflicting_providers (conflicts (resolutions resolved)))
        (ltb 0 buckets.ambiguous) c1) in
    let counts : (state : EffectiveState)
        → count (has_state state) (resolutions resolved)
          ≡ count (in_state resolved state) predictions =
      λ state. tally-counts resolved state predictions same once in
    let labels =
      subst (IsLabeling resolved (λ _. true) predictions) (select_all (labeled_rows rows))
        (labeled_rows-IsLabeling resolved (λ _. true) predictions rows looped) in
    let measured =
      metrics-IsMeasuredBy resolved (λ _. true) predictions (labeled_rows rows) minimum labels in
    let (dims, segments) =
      segments_of-IsSegment resolved minimum predictions rows looped dimensions in
    subst (IsCovered resolved minimum predictions dimensions) (ok-eq h) (record {
      states = resolve_rows-states resolved predictions rows looped;
      scored = refl;
      frauds = counts EffectiveState.fraud;
      legits = counts EffectiveState.legit;
      pending = counts EffectiveState.pending;
      retracted = counts EffectiveState.retracted;
      unobserved = counts EffectiveState.not_yet_observed;
      without_case = counts EffectiveState.no_case;
      unambiguous = omega (arith, none_ambiguous, counts EffectiveState.ambiguous);
      labeled = omega (
        arith,
        labels.legits,
        labels.frauds,
        counts EffectiveState.fraud,
        counts EffectiveState.legit,
      );
      quality_rows = metrics-rows (labeled_rows rows) minimum;
      positives = measured.frauds ∙ sym (counts EffectiveState.fraud);
      negatives = measured.legits ∙ sym (counts EffectiveState.legit);
      supported = metrics-Supported (labeled_rows rows) minimum;
      dimensions_kept = dims;
      segments = segments;
    })
