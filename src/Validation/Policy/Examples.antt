-- ===== src/Validation/Policy/Examples.antt =====
-- Runs of validation/policy.py.
use sentinel_aegis_forge.Common.{
  ◌≡◌, refl, ◌↔◌, [], ◌∷◌, nat_eq, string_eq, pair_eq, list_eq, length, All, ok, strip,
}
use sentinel_aegis_forge.Validation.Policy.{
  EvidenceState, EvidenceFact, VerifiedFacts, evaluate, default_policy, fact_fields, verified,
  failed, not_established, Assessment,
}
use sentinel_aegis_forge.Validation.Policy.Blocking.{
  Assessed, IsValidPolicy, evaluate-Assessed, evaluate-returns,
}
use sentinel_aegis_forge.Validation.Policy.Blocking.Runs.{Explained}

abbrev fact : EvidenceState → EvidenceFact
fact state = record { state = state; explanation = "measured"; references = "runs/7" ∷ [] }

-- Integrity is verified, discrimination failed, and nothing real was established.
abbrev facts : VerifiedFacts
facts = record {
  artifact_integrity = fact verified;
  model_reconstruction = fact verified;
  dataset_provenance = fact verified;
  real_world_label_quality = fact not_established;
  temporal_generalization = fact not_established;
  model_discrimination = fact failed;
  probability_calibration = fact not_established;
  segment_robustness = fact not_established;
  operational_validation = fact verified;
  business_governance = fact not_established;
}

unfoldable evaluated : (a : Assessment) × (evaluate facts default_policy ≡ ok a)
unfolding evaluate strip
evaluated = (_, refl)

evaluate-Assessed_example : Assessed facts evaluated.0
evaluate-Assessed_example = evaluate-Assessed facts default_policy evaluated.0 evaluated.1

six_reasons : length evaluated.0.blocking_reasons ≡ 6
unfolding evaluated
six_reasons = refl

evaluate-returns_example :
    ((a : Assessment) × (evaluate facts default_policy ≡ ok a))
    ↔ (IsValidPolicy default_policy × All Explained (fact_fields facts))
evaluate-returns_example = evaluate-returns facts default_policy
