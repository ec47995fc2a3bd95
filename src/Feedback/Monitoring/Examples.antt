-- ===== src/Feedback/Monitoring/Examples.antt =====
-- Runs of feedback/monitoring.py.
use sentinel_aegis_forge.Common.{
  String, ◌≡◌, refl, List, [], ◌∷◌, nat_eq, string_eq, pair_eq, list_eq, Dict, ok, err,
}
use sentinel_aegis_forge.Feedback.Resolution.{
  EffectiveState, ResolvedFeedback, confirmed_projection,
}
use sentinel_aegis_forge.Feedback.Monitoring.{
  Prediction, Minimum, Derived, derive, labeled_rows, conflicting_providers,
}
use sentinel_aegis_forge.Feedback.Monitoring.Population.{IsCovered, derive-IsCovered}

abbrev prediction : String → String → Prediction
prediction event currency = record { event_id = event; dimension = λ _. currency }

abbrev resolution : String → EffectiveState → String × ResolvedFeedback
resolution event state =
    (event, record { event_id = event; state = state; selected = []; case_count = 1 })

abbrev predictions : List Prediction
predictions = prediction "e1" "EUR" ∷ prediction "e2" "USD" ∷ prediction "e3" "EUR" ∷ []

abbrev resolved : EffectiveState → Dict String ResolvedFeedback
resolved third =
    resolution "e1" EffectiveState.fraud
    ∷ resolution "e2" EffectiveState.pending
    ∷ resolution "e3" third
    ∷ []

abbrev minimum : Minimum
minimum = record { minimum_rows = 2; minimum_per_class = 1 }

unfoldable derived :
    (d : Derived) × (derive predictions (resolved EffectiveState.legit) minimum ("currency" ∷ [])
      ≡ ok d)
unfolding derive
derived = (_, refl)

derive-IsCovered_example :
    IsCovered (resolved EffectiveState.legit) minimum predictions ("currency" ∷ []) derived.0
derive-IsCovered_example =
    derive-IsCovered predictions (resolved EffectiveState.legit) minimum ("currency" ∷ []) derived.0
      refl (refl, (refl, (refl, tt))) derived.1

two_labeled : derived.0.coverage.eligible_labeled_events ≡ 2
unfolding derived labeled_rows confirmed_projection
two_labeled = refl

conflict :
    derive predictions (resolved EffectiveState.ambiguous) minimum []
    ≡ err (conflicting_providers ("e3" ∷ []))
unfolding derive
conflict = refl
