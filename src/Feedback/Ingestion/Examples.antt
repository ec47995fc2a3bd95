-- ===== src/Feedback/Ingestion/Examples.antt =====
-- Runs of feedback/ingestion.py.
use sentinel_aegis_forge.Common.{
  ℕ, String, ◌≡◌, refl, List, [], ◌∷◌, nat_eq, string_eq, pair_eq, list_eq, ok, err, Dict, text_leb,
  sort,
}
use sentinel_aegis_forge.Datasets.Time.{utc, require_utc}
use sentinel_aegis_forge.Feedback.Contract.{FeedbackStatus, FeedbackRecord}
use sentinel_aegis_forge.Feedback.Ingestion.{Universe, validate, unknown_event, noncontiguous}
use sentinel_aegis_forge.Feedback.Ingestion.Ledger.{IsLedger, validate-IsLedger}
use sentinel_aegis_forge.Feedback.Ingestion.Resolvable.{resolve_feedback-validate}
use sentinel_aegis_forge.Feedback.Resolution.{ResolvedFeedback, resolve_feedback}

abbrev revision : String → ℕ → FeedbackStatus → ℕ → FeedbackRecord
revision delivery n status received = record {
  provider_id = "bank-a";
  provider_record_id = delivery;
  provider_case_id = "case-9";
  source_revision = n;
  event_id = "e1";
  status = status;
  source_updated_at = 90;
  received_at = received;
}

abbrev universe : Universe
universe = ("e1", 50) ∷ ("e2", 60) ∷ []

abbrev opened : FeedbackRecord
opened = revision "d1" 1 FeedbackStatus.pending 100

abbrev confirmed : FeedbackRecord
confirmed = revision "d2" 2 FeedbackStatus.confirmed_fraud 120

-- The second revision arrives first, and the first one twice.
abbrev deliveries : List FeedbackRecord
deliveries = confirmed ∷ opened ∷ opened ∷ []

accepted : validate deliveries universe ≡ ok (opened ∷ confirmed ∷ [], 1)
unfolding validate sort text_leb
accepted = refl

validate-IsLedger_example : IsLedger universe deliveries (opened ∷ confirmed ∷ []) 1
validate-IsLedger_example =
    validate-IsLedger deliveries universe (opened ∷ confirmed ∷ []) 1 accepted

now : require_utc (utc 300) ≡ ok 300
unfolding require_utc
now = refl

-- An event with a case, and one without.
resolve_feedback-validate_example :
    (result : Dict String ResolvedFeedback) × (resolve_feedback
        (opened ∷ confirmed ∷ [])
        (utc 300)
        ("e1" ∷ "e2" ∷ [])
      ≡ ok result)
resolve_feedback-validate_example =
    resolve_feedback-validate deliveries universe (opened ∷ confirmed ∷ []) 1 (utc 300) 300
      ("e1" ∷ "e2" ∷ []) accepted now (refl, (refl, tt))

gap : validate (confirmed ∷ []) universe ≡ err (noncontiguous ("bank-a", "case-9"))
unfolding validate sort text_leb
gap = refl

unknown : validate (opened ∷ []) [] ≡ err (unknown_event "e1")
unfolding validate
unknown = refl
