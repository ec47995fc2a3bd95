-- ===== src/KafkaShadow/Worker/Judged.antt =====
-- What `evaluate_one` makes of a request passes the inspection of durable results.
use sentinel_aegis_forge.Common.{
  String, ◌≡◌, refl, subst, inl, inr, true, false, some, eq_iff, nat_beq_iff, Bool-cases, ◌==◌,
  nat_eq, string_eq, pair_eq, list_eq, Result, ok, err, >>=-eq-ok, ok-eq, pos, negsuc,
}
use sentinel_aegis_forge.Common.Json.{
  Json, nan, infinite, flag, minus, arr, obj, real, fraction, num, text, null, Object, same_value,
}
use sentinel_aegis_forge.Datasets.Timestamp.Text.{utc_text, iso_text, pad_4, pad_2}
use sentinel_aegis_forge.Datasets.Time.{Instant}
use sentinel_aegis_forge.Datasets.Rows.{Row}
use sentinel_aegis_forge.Availability.Outbox.{ReadyEvent}
use sentinel_aegis_forge.Candidates.Contract.{CandidateError}
use sentinel_aegis_forge.Incremental.Outcomes.{
  Status, scored, out_of_scope, input_rejected, inference_failed, status_of, string_of, outcome_ok,
  is_probability,
}
use sentinel_aegis_forge.KafkaShadow.Results.{inspect_result}
use sentinel_aegis_forge.KafkaShadow.Worker.{
  Setup, Scored, probability, request_error, other_error, SourceRow, Evaluation, judge,
  add_evaluation, projection_of, judge_input, in_window, evaluate, evaluate_one, base_of,
  identity_of,
}

self : (s : String) → (s == s) ≡ true
self s = (eq_iff s s).1 refl

utc_text-nonempty : (t : Instant) → (utc_text t == "") ≡ false
unfolding utc_text iso_text pad_4 pad_2
utc_text-nonempty t = elim (Bool-cases (utc_text t == "")) [
  | inl h ↦ cc ((eq_iff (utc_text t) "").0 h)
  | inr h ↦ h
]

probability-real : (p : Json) → is_probability p ≡ true → same_value p p ≡ true
probability-real (real (fraction (pos n) d)) h =
    rw ((nat_beq_iff n n).1 refl, (nat_beq_iff d d).1 refl) refl
probability-real (real (fraction (negsuc n) d)) h = cc
probability-real (real nan) h = cc
probability-real (real infinite) h = cc
probability-real null h = cc
probability-real (flag b) h = cc
probability-real (num n) h = cc
probability-real (minus n) h = cc
probability-real (text s) h = cc
probability-real (arr a) h = cc
probability-real (obj f) h = cc

-- An evaluation whose status, probability and failure go together.
record IsCoherent (base : Object) (e : Evaluation) : Type 0 where
  pub status : Status
  pub is_status : status_of (some e.execution_status) ≡ some status
  pub fits : outcome_ok status (add_evaluation base e) ≡ true
  pub same_probability : same_value e.fraud_probability_estimate e.fraud_probability_estimate ≡ true
  pub same_failure : same_value e.failure_code e.failure_code ≡ true

module _ {F : Type 0} (w : Setup F) where
  abbrev base : ReadyEvent → Object
  base event = base_of w event

  judge-IsCoherent :
      (event : ReadyEvent) (s : Scored) (e : Evaluation)
      → judge s ≡ ok e
      → IsCoherent (base event) e
  unfolding judge outcome_ok status_of base_of
  judge-IsCoherent event (probability p) e h = elim (Bool-cases (is_probability p)) [
    | inl good ↦ subst (IsCoherent (base event)) (ok-eq (rw good at h)) (record {
      status = scored;
      is_status = refl;
      fits = rw good refl;
      same_probability = probability-real p good;
      same_failure = refl;
    })
    | inr bad ↦ subst (IsCoherent (base event)) (ok-eq (rw bad at h)) (record {
      status = inference_failed;
      is_status = refl;
      fits = refl;
      same_probability = refl;
      same_failure = refl;
    })
  ]
  judge-IsCoherent event request_error e h = subst (IsCoherent (base event)) (ok-eq h) (record {
    status = inference_failed;
    is_status = refl;
    fits = refl;
    same_probability = refl;
    same_failure = refl;
  })
  judge-IsCoherent event other_error e h = cc

  judge_input-IsCoherent :
      (event : ReadyEvent) (projection : Result CandidateError (Row F)) (e : Evaluation)
      → judge_input w.scores w.scorer projection ≡ ok e
      → IsCoherent (base event) e
  unfolding judge_input outcome_ok status_of base_of
  judge_input-IsCoherent event (ok row) e h = judge-IsCoherent event (w.scorer row) e h
  judge_input-IsCoherent event (err error) e h = subst (IsCoherent (base event)) (ok-eq h) (record {
    status = input_rejected;
    is_status = refl;
    fits = refl;
    same_probability = refl;
    same_failure = refl;
  })

  evaluate-IsCoherent :
      (event : ReadyEvent) (row : SourceRow F) (from to : Instant) (e : Evaluation)
      → evaluate w.scores w.scorer row from to ≡ ok e
      → IsCoherent (base event) e
  unfolding evaluate outcome_ok status_of base_of
  evaluate-IsCoherent event row from to e h =
      elim (Bool-cases (in_window w.scores w.scorer from to row.ingestion_time)) [
        | inl inside ↦
            judge_input-IsCoherent event (projection_of w.scores w.scorer row.columns) e
              (rw inside at h)
        | inr outside ↦ subst (IsCoherent (base event)) (ok-eq (rw outside at h)) (record {
          status = out_of_scope;
          is_status = refl;
          fits = refl;
          same_probability = refl;
          same_failure = refl;
        })
      ]

  -- The texts that a durable result may not leave empty.
  pub record IsNamed (event : ReadyEvent) : Type 0 where
    pub inbox : (w.inbox_id == "") ≡ false
    pub event_named : (event.event_id == "") ≡ false
    pub version : (w.config.model_version == "") ≡ false
    pub fingerprint : (event.source_feature_row_fingerprint == "") ≡ false

  inspected :
      ((s : String) → w.str (text s) ≡ s)
      → (event : ReadyEvent) (e : Evaluation) → IsNamed event
      → IsCoherent (base event) e
      → inspect_result w.digest w.str
          (identity_of w event)
          (add_evaluation (base event) e)
          (some (add_evaluation (base event) e))
        ≡ ok (add_evaluation (base event) e)
  unfolding inspect_result base_of string_of
  inspected str_text event e h c =
      rw
        (
          c.is_status,
          str_text event.ready_event_id,
          str_text w.candidate_id,
          str_text w.model_hash,
          self (identity_of w event),
          h.inbox,
          h.event_named,
          h.version,
          h.fingerprint,
          utc_text-nonempty w.config.score_start,
          utc_text-nonempty w.config.score_end,
          c.fits,
          self w.inbox_id,
          self event.ready_event_id,
          self event.event_id,
          self w.candidate_id,
          self w.model_hash,
          self w.config.model_version,
          (nat_beq_iff event.first_visible_delta_version event.first_visible_delta_version).1 refl,
          self event.source_feature_row_fingerprint,
          self (utc_text w.config.score_start),
          self (utc_text w.config.score_end),
          self e.execution_status,
          c.same_probability,
          c.same_failure,
        )
        refl

  -- Where Python's `str` of a string is that string, and the inbox, the event, the model version
  -- and the fingerprint are not empty: whatever `evaluate_one` returns for a request, a score or a
  -- terminal failure, `inspect_result` accepts it under the identity of the request.
  pub evaluate_one-inspected :
      ((s : String) → w.str (text s) ≡ s)
      → (event : ReadyEvent) (row : SourceRow F) (from to : Instant) (result : Object)
      → IsNamed event
      → evaluate_one w.scores w.scorer (base event) row from to ≡ ok result
      → inspect_result w.digest w.str (identity_of w event) result (some result) ≡ ok result
  unfolding evaluate_one
  evaluate_one-inspected str_text event row from to result named h =
      let (e, judged, h) = >>=-eq-ok (evaluate w.scores w.scorer row from to) _ h in
      subst (λ (r : Object). inspect_result w.digest w.str (identity_of w event) r (some r) ≡ ok r)
        (ok-eq h)
        (inspected str_text event e named (evaluate-IsCoherent event row from to e judged))
