-- ===== src/KafkaShadow/Results/Examples.antt =====
-- Runs of kafka_shadow/results.py, with constant digests.
use sentinel_aegis_forge.Common.{
  ℕ, String, ◌≡◌, refl, true, false, List, [], ◌∷◌, arith, nat_eq, string_eq, pair_eq, list_eq,
  Dict, ok, err, pos,
}
use sentinel_aegis_forge.Common.Json.{Json, num, text, null, real, fraction, Object}
use sentinel_aegis_forge.Incremental.Outcomes.{status_of, string_of, outcome_ok}
use sentinel_aegis_forge.KafkaShadow.Results.{
  inference, claim_result, durable_results, counts, Counts, conflicting_result,
}
use sentinel_aegis_forge.KafkaShadow.Results.Reconciled.{counts-IsReconciled, IsReconciled}
use sentinel_aegis_forge.KafkaShadow.Results.Durable.{
  System, idle, writing, returned, update, Reach, start, later, call, write, begin, link,
}
use sentinel_aegis_forge.KafkaShadow.Results.Durable.Once.{IsDurable, Kept, Reach-IsDurable}

abbrev digest : Json → String
digest _ = "r1"

abbrev str : Json → String
str _ = "x"

abbrev result : ℕ → Object
result numerator =
    ("inference_contract_version", text inference)
    ∷ ("inference_request_id", text "r1")
    ∷ ("shadow_inbox_id", text "inbox")
    ∷ ("ready_event_id", text "ready-1")
    ∷ ("event_id", text "e1")
    ∷ ("candidate_id", text "c")
    ∷ ("model_tree_sha256", text "m")
    ∷ ("registered_model_version", text "3")
    ∷ ("first_visible_delta_version", num 4)
    ∷ ("source_feature_row_fingerprint", text "f1")
    ∷ ("score_start", text "2026-03-01T00:00:00.000000Z")
    ∷ ("score_end", text "2026-03-02T00:00:00.000000Z")
    ∷ ("execution_status", text "SCORED")
    ∷ ("fraud_probability_estimate", real (fraction (pos numerator) 3))
    ∷ ("failure_code", null)
    ∷ []

abbrev stored : Dict String Object
stored = ("r1", result 1) ∷ []

claimed : claim_result digest str "r1" (result 1) [] ≡ (stored, ok true)
unfolding claim_result status_of string_of outcome_ok
claimed = refl

claimed_again : claim_result digest str "r1" (result 1) stored ≡ (stored, ok false)
unfolding claim_result status_of string_of outcome_ok
claimed_again = refl

another_value : claim_result digest str "r1" (result 2) stored ≡ (stored, err conflicting_result)
unfolding claim_result status_of string_of outcome_ok
another_value = refl

unfoldable read :
    (rs : List Object) × (durable_results digest str stored ("r1" ∷ "r2" ∷ []) ≡ ok rs)
unfolding durable_results status_of string_of outcome_ok
read = (_, refl)

counts-IsReconciled_example :
    (c : Counts) × (counts read.0 3 ≡ ok c) × IsReconciled digest str stored ("r1" ∷ "r2" ∷ []) 3 c
counts-IsReconciled_example =
    counts-IsReconciled digest str stored ("r1" ∷ "r2" ∷ []) 3 read.0 (omega arith) read.1

abbrev quiet : System
quiet = record { store = []; phase = λ i. idle }

abbrev both_called : System
both_called = record {
  store = [];
  phase = update (update (λ i. idle) 0 (writing "r1" (result 1))) 1 (writing "r1" (result 1));
}

-- two processes have seen no file; the first one links, then the second one finds the result
unfoldable raced :
    (t : System) × Reach digest str quiet t
    × (t.phase 0 ≡ returned "r1" (result 1) true)
    × (t.phase 1 ≡ returned "r1" (result 1) false)
unfolding begin link status_of string_of outcome_ok
raced = (
  _,
  later
      (later (later (later start (call 0 "r1" (result 1))) (call 1 "r1" (result 1)))
        (write 0 "r1" (result 1) refl))
      (write 1 "r1" (result 1) refl),
  refl,
  refl,
)

Reach-IsDurable_example : IsDurable raced.0 × Kept [] raced.0.store
Reach-IsDurable_example = Reach-IsDurable digest str (λ i. refl) raced.1
