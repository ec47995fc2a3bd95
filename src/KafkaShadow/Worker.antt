-- ===== src/KafkaShadow/Worker.antt =====
-- kafka_shadow/worker.py: `evaluate_one` and `process_resolved`. The scorer is the model, a
-- parameter. The batches of `process_resolved` follow one another in the order of the work, which
-- is one list here; the store of results is the one of Results.

pub mod Judged
pub mod Bounded
mod Examples
use sentinel_aegis_forge.Common.{
  ℕ, ◌+◌, String, Bool, false, ◌&&◌, Option, none, some, List, [], ◌∷◌, ◌++◌, ltb, leb, nat_beq,
  if◌then◌else◌, nat_eq, string_eq, pair_eq, list_eq, Dict, lookup, insert, Result, ok, err, ◌>>=◌,
  ℤ, pos, negsuc,
}
use sentinel_aegis_forge.Common.Json.{Json, num, text, null, Object, has_values}
use sentinel_aegis_forge.Datasets.Time.{Instant}
use sentinel_aegis_forge.Datasets.Timestamp.Text.{utc_text}
use sentinel_aegis_forge.Datasets.Rows.{Row, Scores}
use sentinel_aegis_forge.Training.Temporal.{candidate_feature_columns}
use sentinel_aegis_forge.Candidates.Contract.{CandidateError, project, validate_input}
use sentinel_aegis_forge.Availability.Outbox.{ReadyEvent}
use sentinel_aegis_forge.Incremental.Outcomes.{is_probability}
use sentinel_aegis_forge.KafkaShadow.Results.{
  str_at, missing_result, ShadowKafkaError, request_conflict, injected_interruption, scorer_failed,
  inference, request_id, inspect_result, claim_result, durable_results,
}

-- What a call of the scorer does: it returns, raises `RequestInferenceError`, or raises otherwise.
pub data Scored : Type 0 where
  probability : Json → Scored
  request_error other_error : Scored

-- a row of the source: the time of its ingestion, and its columns
pub record SourceRow (F : Type 0) : Type 0 where
  pub ingestion_time : Instant
  pub columns : Row F

-- `WorkerConfig`, as far as this uses it
pub record WorkerConfig : Type 0 where
  pub model_version : String
  pub score_start : Instant
  pub score_end : Instant
  pub maximum_attempts : ℕ

-- the three fields that the evaluation adds
pub record Evaluation : Type 0 where
  pub execution_status : String
  pub fraud_probability_estimate : Json
  pub failure_code : Json

-- after the scorer was called
unfoldable pub judge : Scored → Result ShadowKafkaError Evaluation
judge (probability p) = ok (
    if is_probability p
    then record { execution_status = "SCORED"; fraud_probability_estimate = p; failure_code = null }
    else record {
      execution_status = "INFERENCE_FAILED";
      fraud_probability_estimate = null;
      failure_code = text "MODEL_INFERENCE_ERROR";
    })
judge request_error = ok (record {
  execution_status = "INFERENCE_FAILED";
  fraud_probability_estimate = null;
  failure_code = text "MODEL_INFERENCE_ERROR";
})
judge other_error = err scorer_failed

abbrev pub add_evaluation : Object → Evaluation → Object
add_evaluation base e =
    base
    ++ ("execution_status", text e.execution_status)
      ∷ ("fraud_probability_estimate", e.fraud_probability_estimate)
      ∷ ("failure_code", e.failure_code)
      ∷ []

module _ {F : Type 0} (scores : Scores F) (scorer : Row F → Scored) where
  -- `validate_input({name: row[name] for name in FEATURES})`
  unfoldable pub projection_of : Row F → Result CandidateError (Row F)
  unfolding project validate_input
  projection_of columns = do
    row ← project columns candidate_feature_columns
    validate_input scores row

  -- the `try` around the projection
  unfoldable pub judge_input : Result CandidateError (Row F) → Result ShadowKafkaError Evaluation
  unfolding judge
  judge_input (ok projection) = judge (scorer projection)
  judge_input (err error) = ok (record {
    execution_status = "INPUT_REJECTED";
    fraud_probability_estimate = null;
    failure_code = text "INVALID_MODEL_INPUT";
  })

  -- `start <= ingestion < end`
  abbrev pub in_window : Instant → Instant → Instant → Bool
  in_window start end t = leb start t && ltb t end

  unfoldable pub evaluate : SourceRow F → Instant → Instant → Result ShadowKafkaError Evaluation
  unfolding projection_of judge_input
  evaluate row start end =
      if in_window start end row.ingestion_time
      then judge_input (projection_of row.columns)
      else ok (record {
        execution_status = "OUT_OF_SCOPE";
        fraud_probability_estimate = null;
        failure_code = null;
      })

  -- `evaluate_one`
  unfoldable pub evaluate_one :
      Object → SourceRow F → Instant → Instant → Result ShadowKafkaError Object
  unfolding evaluate
  evaluate_one base row start end = do e ← evaluate row start end; ok (add_evaluation base e)

-- The variables of the loop of `process_resolved`, with the store.
pub record Tick : Type 0 where
  pub store : Dict String Object
  pub by_request : Dict String Object
  pub attempts : ℕ
  pub created : ℕ

-- Where the loop stands: it goes on, it has returned at the bound, or it has raised.
pub data Run : Type 0 where
  running returned : Tick → Run
  raised : Dict String Object → ShadowKafkaError → Run

-- `created == fail_after_result`, which is never so for the default of -1
abbrev pub is_interrupted : ℤ → ℕ → Bool
is_interrupted (pos n) created = nat_beq created n
is_interrupted (negsuc n) created = false

-- What the calls of a tick share: SHA-256 and `str`, the model and its arithmetic, the
-- configuration, and the identities of the inbox and of the candidate.
pub record Setup (F : Type 0) : Type 0 where
  pub digest : Json → String
  pub str : Json → String
  pub scores : Scores F
  pub scorer : Row F → Scored
  pub config : WorkerConfig
  pub inbox_id : String
  pub candidate_id : String
  pub model_hash : String

module _ {F : Type 0} (w : Setup F) where
  abbrev pub identity_of : ReadyEvent → String
  identity_of event = request_id w.digest event.ready_event_id w.candidate_id w.model_hash

  -- `_base`
  unfoldable pub base_of : ReadyEvent → Object
  base_of event =
      ("inference_contract_version", text inference)
      ∷ ("inference_request_id", text (identity_of event))
      ∷ ("shadow_inbox_id", text w.inbox_id)
      ∷ ("ready_event_id", text event.ready_event_id)
      ∷ ("event_id", text event.event_id)
      ∷ ("candidate_id", text w.candidate_id)
      ∷ ("model_tree_sha256", text w.model_hash)
      ∷ ("registered_model_version", text w.config.model_version)
      ∷ ("first_visible_delta_version", num event.first_visible_delta_version)
      ∷ ("source_feature_row_fingerprint", text event.source_feature_row_fingerprint)
      ∷ ("score_start", text (utc_text w.config.score_start))
      ∷ ("score_end", text (utc_text w.config.score_end))
      ∷ []

  -- after the claim: the result is read back, and counted
  unfoldable pub count_attempt :
      ℤ → String → Object → Tick → Dict String Object → Bool → Result ShadowKafkaError Object → Run
  count_attempt fail_after identity result t store created (err error) = raised store error
  count_attempt fail_after identity result t store created (ok found) =
      let now = if created then t.created + 1 else t.created in
      if is_interrupted fail_after now
      then raised store injected_interruption
      else running (record {
        store = store;
        by_request = insert identity found t.by_request;
        attempts = t.attempts + 1;
        created = now;
      })

  -- `inspect_result(path, result)` of the file as it is then
  pub read_back : String → Object → Option Object → Result ShadowKafkaError Object
  read_back identity result none = err missing_result
  read_back identity result (some found) =
      inspect_result w.digest w.str identity found (some result)

  unfoldable pub after_claim :
      ℤ → String → Object → Tick → Dict String Object × Result ShadowKafkaError Bool → Run
  unfolding count_attempt read_back
  after_claim fail_after identity result t (store, err error) = raised store error
  after_claim fail_after identity result t (store, ok created) =
      count_attempt fail_after identity result t store created
        (read_back identity result (lookup identity store))

  unfoldable pub attempt : ℤ → String → Tick → Result ShadowKafkaError Object → Run
  unfolding after_claim
  attempt fail_after identity t (err error) = raised t.store error
  attempt fail_after identity t (ok result) =
      after_claim fail_after identity result t (claim_result w.digest w.str identity result t.store)

  -- the body of the loop, with what `by_request` has for the identity
  unfoldable pub step : ℤ → ReadyEvent → SourceRow F → Tick → Option Object → Run
  unfolding base_of attempt
  step fail_after event row t (some prior) =
      if has_values prior (base_of event) then running t else raised t.store request_conflict
  step fail_after event row t none =
      if leb w.config.maximum_attempts t.attempts
      then returned t
      else attempt fail_after (identity_of event) t (
          evaluate_one w.scores w.scorer (base_of event) row w.config.score_start
            w.config.score_end)

  -- the loop
  pub loop : ℤ → List (ReadyEvent × SourceRow F) → Run → Run
  unfolding step
  loop fail_after [] run = run
  loop fail_after ((event, row) ∷ rest) (running t) =
      loop fail_after rest (step fail_after event row t (lookup (identity_of event) t.by_request))
  loop fail_after (work ∷ rest) run = run

  -- `{item["inference_request_id"]: item for item in completed}`
  abbrev pub by_request_of : List Object → Dict String Object → Dict String Object
  by_request_of [] d = d
  by_request_of (item ∷ rest) d =
      by_request_of rest (insert (str_at w.digest w.str "inference_request_id" item) item d)

  abbrev pub expected_ids : List (ReadyEvent × SourceRow F) → List String
  expected_ids [] = []
  expected_ids ((event, row) ∷ rest) = identity_of event ∷ expected_ids rest

  -- what is returned after the loop, or at the bound: the results as they then are
  unfoldable pub finish :
      List (ReadyEvent × SourceRow F)
      → Run
      → Dict String Object × Result ShadowKafkaError (List Object × ℕ)
  finish work (raised store error) = (store, err error)
  finish work (running t) = (
    t.store,
    (do
      results ← durable_results w.digest w.str t.store (expected_ids work)
      ok (results, t.created)),
  )
  finish work (returned t) = (
    t.store,
    (do
      results ← durable_results w.digest w.str t.store (expected_ids work)
      ok (results, t.created)),
  )

  unfoldable pub start :
      ℤ
      → List (ReadyEvent × SourceRow F)
      → Dict String Object
      → Result ShadowKafkaError (List Object)
      → Dict String Object × Result ShadowKafkaError (List Object × ℕ)
  unfolding loop finish
  start fail_after work store (err error) = (store, err error)
  start fail_after work store (ok completed) = finish work (
      loop fail_after work (
        running (record {
          store = store;
          by_request = by_request_of completed [];
          attempts = 0;
          created = 0;
        })))

  -- `process_resolved`: the store that it leaves, and what it returns
  unfoldable pub process_resolved :
      ℤ
      → List (ReadyEvent × SourceRow F)
      → Dict String Object
      → Dict String Object × Result ShadowKafkaError (List Object × ℕ)
  unfolding start
  process_resolved fail_after work store =
      start fail_after work store (durable_results w.digest w.str store (expected_ids work))
