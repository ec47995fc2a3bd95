-- ===== src/Incremental/Outcomes.antt =====
-- incremental_shadow/progress.py, `_results`: the inference results of the stream's candidate.
pub mod Distinct
use sentinel_aegis_forge.Common.{
  ◌+◌, String, Bool, true, false, not, ◌&&◌, Option, none, some, List, [], ◌∷◌, ◌++◌, leb,
  if◌then◌else◌, ◌==◌, nat_eq, string_eq, pair_eq, list_eq, contains, same_set, Dict, lookup, keys,
  Result, ok, err, ◌>>=◌, ◌>>◌, raise_if, pos,
}
use sentinel_aegis_forge.Common.Json.{
  Json, text, null, real, fraction, Object, has_value, arr, texts,
}
use sentinel_aegis_forge.Incremental.Stream.{
  StreamError, Manifest, File, Directory, read_object, invalid_result,
}

-- `RESULT_CONTRACT`
abbrev pub result_contract : String
result_contract = "incremental-shadow-result-v1"

abbrev pub result_names : List String
result_names =
    "contract_version" ∷ "stream_id" ∷ "request_id" ∷ "ready_event_id" ∷ "event_id"
    ∷ "publication_batch_id" ∷ "candidate_id" ∷ "model_tree_sha256" ∷ "first_visible_delta_version"
    ∷ "source_feature_row_fingerprint" ∷ "score_start" ∷ "score_end" ∷ "execution_status"
    ∷ "fraud_probability_estimate" ∷ "failure_code" ∷ []

pub data Status : Type 0 where
  scored out_of_scope input_rejected inference_failed : Status

pub record Outcome : Type 0 where
  pub status : Status
  pub item : Object

-- a finite float from 0 to 1
abbrev pub is_probability : Json → Bool
is_probability (real (fraction (pos n) d)) = leb n (d + 1)
is_probability _ = false

abbrev pub is_none : Option Json → Bool
is_none none = true
is_none (some null) = true
is_none (some _) = false

unfoldable pub string_of : Option Json → Option String
string_of (some (text s)) = some s
string_of _ = none

unfoldable pub status_of : Option String → Option Status
status_of none = none
status_of (some s) =
    if s == "SCORED"
    then some scored
    else if s == "OUT_OF_SCOPE"
    then some out_of_scope
    else if s == "INPUT_REJECTED"
    then some input_rejected
    else if s == "INFERENCE_FAILED"
    then some inference_failed
    else none

-- what each status demands of the probability and the failure code
unfoldable pub outcome_ok : Status → Object → Bool
outcome_ok scored item =
    (elim (lookup "fraud_probability_estimate" item) [
      | none ↦ false
      | some probability ↦ is_probability probability
    ])
    && is_none (lookup "failure_code" item)
outcome_ok out_of_scope item =
    is_none (lookup "fraud_probability_estimate" item) && is_none (lookup "failure_code" item)
outcome_ok input_rejected item =
    is_none (lookup "fraud_probability_estimate" item)
    && has_value "failure_code" (text "INVALID_MODEL_INPUT") item
outcome_ok inference_failed item =
    is_none (lookup "fraud_probability_estimate" item)
    && has_value "failure_code" (text "MODEL_INFERENCE_ERROR") item

module _ (digest : Json → String) where
  -- operations.py
  abbrev pub logical_request_id : String → String → String → String
  logical_request_id ready_id candidate_id model_hash =
      digest (arr (texts (result_contract ∷ ready_id ∷ candidate_id ∷ model_hash ∷ [])))

  -- the conditions that do not depend on the status
  result_ok : Manifest → String → String → Object → Bool
  result_ok manifest stem ready_id item =
      let request_id =
        logical_request_id ready_id manifest.candidate_id manifest.model_tree_sha256 in
      same_set (keys item) result_names
      && (has_value "contract_version" (text result_contract) item
          && (has_value "stream_id" (text manifest.stream_id) item
              && (has_value "candidate_id" (text manifest.candidate_id) item
                  && (has_value "model_tree_sha256" (text manifest.model_tree_sha256) item
                      && (has_value "request_id" (text request_id) item && stem == request_id)))))

  -- the rest of the body, once the identity and the status were read
  pub store :
      Manifest
      → String
      → Object
      → Dict String Outcome
      → Option String
      → Option Status
      → Result StreamError (Dict String Outcome)
  unfolding result_ok outcome_ok
  store manifest stem item found (some ready_id) (some status) = do
    raise_if
        (not (
          result_ok manifest stem ready_id item
          && (not (contains ready_id (keys found)) && outcome_ok status item)))
        invalid_result
    ok (found ++ (ready_id, record { status = status; item = item }) ∷ [])
  store manifest stem item found _ _ = err invalid_result

  -- the body of the loop; an identity that is no string is refused here, which the code does
  -- where it compares the results with the accepted identities
  unfoldable pub add_result :
      Manifest → String → Object → Dict String Outcome → Result StreamError (Dict String Outcome)
  unfolding status_of string_of store
  add_result manifest stem item found =
      store manifest stem item found (string_of (lookup "ready_event_id" item))
        (status_of (string_of (lookup "execution_status" item)))

  unfoldable pub results_from :
      Manifest → List File → Dict String Outcome → Result StreamError (Dict String Outcome)
  unfolding add_result
  results_from manifest [] found = ok found
  results_from manifest ((stem, file) ∷ rest) found = do
    item ← read_object file
    found ← add_result manifest stem item found
    results_from manifest rest found

  -- `_results`; a directory that does not exist has no file
  unfoldable pub results_of : Directory → Result StreamError (Dict String Outcome)
  unfolding results_from
  results_of root = results_from root.manifest root.results []
