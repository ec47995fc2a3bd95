-- ===== src/Feedback/Resolution/Examples.antt =====
-- Runs of the resolution, and its theorems at concrete records.
use sentinel_aegis_forge.Common.{
  ℕ, ◌≤◌, ◌<◌, String, ◌≡◌, refl, none, some, List, [], ◌∷◌, map, nat_eq, string_eq, pair_eq,
  list_eq, All, IsNodup, Dict, keys, Among, ok, err, text_leb, sort,
}
use sentinel_aegis_forge.Datasets.Time.{utc, require_utc}
use sentinel_aegis_forge.Feedback.Contract.{FeedbackStatus, FeedbackRecord}
use sentinel_aegis_forge.Feedback.Resolution.{
  SelectedRevision, CaseView, ResolvedFeedback, EffectiveState, resolve_case, resolve_feedback,
  incomplete_history, duplicate_request, invalid_as_of,
}
use sentinel_aegis_forge.Feedback.Resolution.Causal.{Covers}
use sentinel_aegis_forge.Feedback.Resolution.Cases.{resolve_case_chosen, resolve_case_unobserved}
use sentinel_aegis_forge.Feedback.Resolution.Cutoff.{hide, resolve_feedback-hide}
use sentinel_aegis_forge.Feedback.Resolution.Requests.{
  Answered, resolve_feedback-keys, resolve_feedback-Answered,
}

abbrev report : String → ℕ → String → FeedbackStatus → ℕ → FeedbackRecord
report case revision event status received = record {
  provider_id = "bank";
  provider_record_id = case;
  provider_case_id = case;
  source_revision = revision;
  event_id = event;
  status = status;
  source_updated_at = 1;
  received_at = received;
}

abbrev first : FeedbackRecord
first = report "c1" 1 "e1" FeedbackStatus.pending 10

abbrev second : FeedbackRecord
second = report "c1" 2 "e1" FeedbackStatus.confirmed_fraud 20

-- It came after the cutoff of the runs.
abbrev third : FeedbackRecord
third = report "c1" 3 "e1" FeedbackStatus.confirmed_legit 40

abbrev other : FeedbackRecord
other = report "c2" 1 "e2" FeedbackStatus.retracted 50

abbrev records : List FeedbackRecord
records = third ∷ first ∷ other ∷ second ∷ []

abbrev chosen : SelectedRevision
chosen = record { revision = second; effective_available_at = 20 }

abbrev answer : ResolvedFeedback
answer = record {
  event_id = "e1";
  state = EffectiveState.fraud;
  selected = chosen ∷ [];
  case_count = 1;
}

abbrev answers : Dict String ResolvedFeedback
answers =
    ("e1", answer)
    ∷ (
      "e2",
      record {
        event_id = "e2";
        state = EffectiveState.not_yet_observed;
        selected = [];
        case_count = 1;
      },
    )
    ∷ (
      "e3",
      record { event_id = "e3"; state = EffectiveState.no_case; selected = []; case_count = 0 },
    )
    ∷ []

abbrev requested : List String
requested = "e1" ∷ "e2" ∷ "e3" ∷ []

resolve-records : resolve_feedback records (utc 30) requested ≡ ok answers
unfolding resolve_feedback sort text_leb require_utc
resolve-records = refl

repeated_request :
    resolve_feedback records (utc 30) ("e1" ∷ "e1" ∷ []) ≡ err (duplicate_request "e1")
unfolding resolve_feedback sort text_leb require_utc
repeated_request = refl

naive_cutoff :
    resolve_feedback records (record { clock = 30; utcoffset = none }) requested ≡ err invalid_as_of
unfolding resolve_feedback sort text_leb require_utc
naive_cutoff = refl

missing_revision :
    resolve_feedback (first ∷ third ∷ []) (utc 30) requested
    ≡ err (incomplete_history ("bank", "c1"))
unfolding resolve_feedback sort text_leb require_utc
missing_revision = refl

abbrev history : List FeedbackRecord
history = third ∷ first ∷ second ∷ []

abbrev view : CaseView
view = record { event_id = "e1"; chosen = some chosen }

resolve-history : resolve_case 30 ("bank", "c1") history ≡ ok view
unfolding resolve_case sort
resolve-history = refl

abbrev early_view : CaseView
early_view = record { event_id = "e1"; chosen = none }

resolve-early : resolve_case 9 ("bank", "c1") history ≡ ok early_view
unfolding resolve_case sort
resolve-early = refl

now : require_utc (utc 30) ≡ ok 30
unfolding require_utc
now = refl

resolve_case_chosen_example :
    (20 ≤ 30)
    × Among second history
    × Covers 30 chosen history
    × All (λ x. x.event_id ≡ "e1") history
resolve_case_chosen_example =
    resolve_case_chosen 30 ("bank", "c1") history view resolve-history chosen refl

resolve_case_unobserved_example : All (λ x. x.source_revision ≡ 1 → 9 < x.received_at) history
resolve_case_unobserved_example =
    resolve_case_unobserved 9 ("bank", "c1") history early_view resolve-early refl

resolve_feedback-hide_example :
    resolve_feedback (map (hide 30) records) (utc 30) requested
    ≡ resolve_feedback records (utc 30) requested
resolve_feedback-hide_example = resolve_feedback-hide 30 records (utc 30) requested now

resolve_feedback-keys_example : (keys answers ≡ requested) × IsNodup requested
resolve_feedback-keys_example =
    resolve_feedback-keys records (utc 30) requested answers resolve-records

resolve_feedback-Answered_example : All (Answered 30) answers
resolve_feedback-Answered_example =
    resolve_feedback-Answered records (utc 30) requested answers resolve-records 30 now
