-- ===== src/KafkaShadow/Results.antt =====
-- kafka_shadow/results.py: the durable results of a candidate. The store is the directory of the
-- candidate: the object of each file by its stem; a file is written whole by one `os.link`, which
-- fails where the name is taken. `digest` is SHA-256 over canonical JSON, `str` Python's `str`.
pub mod Reconciled
pub mod Durable
mod Examples
use sentinel_aegis_forge.Common.{
  ℕ, ◌+◌, ◌-◌, String, Bool, true, false, not, ◌&&◌, ◌||◌, Option, none, some, List, [], ◌∷◌, arith,
  ltb, ◌==◌, nat_eq, string_eq, pair_eq, list_eq, length, all, count, is_distinct, subset, same_set,
  Dict, lookup, insert, keys, Result, ok, err, ◌>>=◌, ◌>>◌, raise_if,
}
use sentinel_aegis_forge.Common.Json.{Json, num, text, arr, texts, Object, has_value, same_object}
use sentinel_aegis_forge.Incremental.Outcomes.{
  Status, scored, out_of_scope, input_rejected, inference_failed, status_of, string_of, outcome_ok,
}

-- `INFERENCE` of kafka_shadow/contract.py
abbrev pub inference : String
inference = "kafka-shadow-inference-v1"

abbrev pub field_names : List String
field_names =
    "inference_contract_version" ∷ "inference_request_id" ∷ "shadow_inbox_id" ∷ "ready_event_id"
    ∷ "event_id" ∷ "candidate_id" ∷ "model_tree_sha256" ∷ "registered_model_version"
    ∷ "first_visible_delta_version" ∷ "source_feature_row_fingerprint" ∷ "score_start" ∷ "score_end"
    ∷ "execution_status" ∷ "fraud_probability_estimate" ∷ "failure_code" ∷ []

pub data ShadowKafkaError : Type 0 where
  missing_result result_contract_differs result_identity_differs invalid_combination path_differs
        conflicting_result repeated_request unexpected_result not_reconciled request_conflict
        injected_interruption scorer_failed :
      ShadowKafkaError

-- `isinstance(value[name], str) and value[name]`
abbrev is_nonempty : Option Json → Bool
is_nonempty (some (text s)) = not (s == "")
is_nonempty _ = false

-- `type(value[name]) is int and value[name] >= 0`
abbrev is_natural : Option Json → Bool
is_natural (some (num n)) = true
is_natural _ = false

abbrev string_names : List String
string_names =
    "shadow_inbox_id" ∷ "event_id" ∷ "registered_model_version" ∷ "source_feature_row_fingerprint"
    ∷ "score_start" ∷ "score_end" ∷ []

-- `expected is not None and value != expected`
abbrev differs_from : Option Object → Object → Bool
differs_from none value = false
differs_from (some expected) value = not (same_object value expected)

module _ (digest : Json → String) where
  -- `request_id` of kafka_shadow/contract.py
  abbrev pub request_id : String → String → String → String
  request_id ready_event_id candidate_id model_hash =
      digest (arr (texts (ready_event_id ∷ candidate_id ∷ model_hash ∷ inference ∷ [])))

  module _ (str : Json → String) where
    -- `str(value[name])`
    abbrev pub str_at : String → Object → String
    str_at name value = elim (lookup name value) [ none ↦ "" | some found ↦ str found ]

    unfoldable pub identity_ok : Object → Bool
    identity_ok value =
        has_value "inference_contract_version" (text inference) value
        && (has_value "inference_request_id"
              (text (
                request_id (str_at "ready_event_id" value) (str_at "candidate_id" value)
                  (str_at "model_tree_sha256" value)))
              value
            && (all (λ name. is_nonempty (lookup name value)) string_names
                && is_natural (lookup "first_visible_delta_version" value)))

    -- the body of `inspect_result`, with the status if it is one of `STATUS`
    unfoldable pub inspect_with :
        String → Object → Option Object → Option Status → Result ShadowKafkaError Object
    unfolding identity_ok outcome_ok
    inspect_with stem value expected none = err result_contract_differs
    inspect_with stem value expected (some status) = do
      raise_if (not (same_set (keys value) field_names)) result_contract_differs
      raise_if (not (identity_ok value)) result_identity_differs
      raise_if (not (outcome_ok status value)) invalid_combination
      raise_if (not (has_value "inference_request_id" (text stem) value)) path_differs
      raise_if (differs_from expected value) conflicting_result
      ok value

    -- `inspect_result` of a file that is there
    unfoldable pub inspect_result : String → Object → Option Object → Result ShadowKafkaError Object
    unfolding inspect_with status_of string_of
    inspect_result stem value expected =
        inspect_with stem value expected (status_of (string_of (lookup "execution_status" value)))

    -- The store after `os.link`, and what `claim_result` then returns. The caller has seen no file
    -- of that name, but another process may have written it since.
    unfoldable pub publish :
        String
        → Object
        → Option Object
        → Dict String Object
        → Dict String Object × Result ShadowKafkaError Bool
    unfolding inspect_result
    publish stem result none store =
        (insert stem result store, (do _ ← inspect_result stem result (some result); ok true))
    publish stem result (some found) store =
        (store, (do _ ← inspect_result stem found (some result); ok false))

    -- `claim_result`, where no other process writes in between
    unfoldable pub claim_result :
        String → Object → Dict String Object → Dict String Object × Result ShadowKafkaError Bool
    unfolding publish
    claim_result stem result store = publish stem result (lookup stem store) store

    -- one round of the list of `durable_results`, with the file of the request if it is there
    pub durable_next :
        Option Object
        → String
        → Result ShadowKafkaError (List Object)
        → Result ShadowKafkaError (List Object)
    unfolding inspect_result
    durable_next none request others = others
    durable_next (some value) request others = do
      result ← inspect_result request value none
      later ← others
      ok (result ∷ later)

    unfoldable pub durable_from :
        Dict String Object → List String → Result ShadowKafkaError (List Object)
    unfolding durable_next
    durable_from store [] = ok []
    durable_from store (request ∷ rest) =
        durable_next (lookup request store) request (durable_from store rest)

    -- `durable_results`
    unfoldable pub durable_results :
        Dict String Object → List String → Result ShadowKafkaError (List Object)
    unfolding durable_from
    durable_results store requests = do
      raise_if (not (is_distinct requests)) repeated_request
      raise_if (not (subset (keys store) requests)) unexpected_result
      durable_from store requests

pub record Counts : Type 0 where
  pub scored : ℕ
  pub out_of_scope : ℕ
  pub input_rejected : ℕ
  pub inference_failed : ℕ
  pub unresolved : ℕ
  pub inbox_ready_events : ℕ
  pub eligible_events : ℕ

-- `sum(item["execution_status"] == status for item in results)`
abbrev pub in_status : String → List Object → ℕ
in_status status results = count (has_value "execution_status" (text status)) results

-- `counts`
unfoldable pub counts : List Object → ℕ → Result ShadowKafkaError Counts
counts results inbox_count = do
  let done = in_status "SCORED" results
  let outside = in_status "OUT_OF_SCOPE" results
  let rejected = in_status "INPUT_REJECTED" results
  let failed = in_status "INFERENCE_FAILED" results
  let unresolved = inbox_count - length results
  raise_if
      (ltb inbox_count (length results)
        || not (done + outside + rejected + failed + unresolved == inbox_count))
      not_reconciled
  ok (record {
    scored = done;
    out_of_scope = outside;
    input_rejected = rejected;
    inference_failed = failed;
    unresolved = unresolved;
    inbox_ready_events = inbox_count;
    eligible_events = done + rejected + failed;
  })
