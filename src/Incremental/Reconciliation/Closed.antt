-- ===== src/Incremental/Reconciliation/Closed.antt =====
-- A stream that reconciles is closed: its sets have the same members and nothing failed.
use sentinel_aegis_forge.Common.{
  not-eq-false, or-eq-false, nat_beq_iff, length-keys, ◌+◌, String, ◌≡◌, refl, ◌∙◌, subst, true,
  false, not, Option, none, some, List, [], ◌∷◌, arith, ◌==◌, nat_eq, string_eq, pair_eq, list_eq,
  length, any, count, same_set, IsNodup, Dict, keys, ok, raise_if, raise_if-eq-ok, >>=-eq-ok, ok-eq,
}
use sentinel_aegis_forge.Common.Json.{Object, Json}
use sentinel_aegis_forge.Availability.Outbox.{ready_ids}
use sentinel_aegis_forge.Incremental.Stream.{Batch, Directory, starting_offsets, incomplete}
use sentinel_aegis_forge.Incremental.Acceptance.{inspect_acceptance}
use sentinel_aegis_forge.Incremental.Outcomes.{
  Outcome, Status, scored, out_of_scope, input_rejected, inference_failed, results_of,
}
use sentinel_aegis_forge.Incremental.Outcomes.Distinct.{results_of-IsNodup}
use sentinel_aegis_forge.Incremental.Progress.{Summary, batches, update, progress}
use sentinel_aegis_forge.Incremental.Progress.Sets.{IsNodup-update, length-same_set}
use sentinel_aegis_forge.Incremental.Reconciliation.{
  Sources, Reconciled, source_accept, source_step, sources_from, trace, check_provenance,
  has_failed, is_scored, is_out_of_scope, outcomes, reconcile, is_incomplete, nothing,
}

record Distinct (st : Sources) : Type 0 where
  sources : IsNodup st.source_ids
  accepted : IsNodup st.accepted

module _ (digest : Json → String) (root : Directory) where
  Distinct-accept :
      (batch : Batch) (st next : Sources) (acceptance : Option (Option Object))
      → Distinct st
      → source_accept digest root batch st
          (update st.source_ids (ready_ids batch.events))
          (trace batch.publication_batch_id batch.events st.provenance)
          acceptance
        ≡ ok next
      → Distinct next
  unfolding source_accept
  Distinct-accept batch st next none d h = subst Distinct (ok-eq h) (record {
    sources = IsNodup-update st.source_ids (ready_ids batch.events) d.sources;
    accepted = d.accepted;
  })
  Distinct-accept batch st next (some file) d h =
      let (_, _, h) = >>=-eq-ok (inspect_acceptance digest root batch file st.source_start) _ h in
      subst Distinct (ok-eq h) (record {
        sources = IsNodup-update st.source_ids (ready_ids batch.events) d.sources;
        accepted = IsNodup-update st.accepted (ready_ids batch.events) d.accepted;
      })

  Distinct-sources_from :
      (rest : List Batch) (st next : Sources)
      → Distinct st
      → sources_from digest root rest st ≡ ok next
      → Distinct next
  unfolding sources_from source_step
  Distinct-sources_from [] st next d h = subst Distinct (ok-eq h) d
  Distinct-sources_from (batch ∷ rest) st next d h =
      let (after, one, h) = >>=-eq-ok (source_step digest root batch st) _ h in
      Distinct-sources_from rest after next
        (Distinct-accept batch st after (root.acceptance batch.publication_batch_id) d one) h

count-outcomes :
    (l : List Status)
    → any has_failed l ≡ false
    → count is_scored l + count is_out_of_scope l ≡ length l
count-outcomes [] h = refl
count-outcomes (scored ∷ l) h = omega (arith, count-outcomes l h)
count-outcomes (out_of_scope ∷ l) h = omega (arith, count-outcomes l h)
count-outcomes (input_rejected ∷ l) h = cc
count-outcomes (inference_failed ∷ l) h = cc

length-outcomes : (d : Dict String Outcome) → length (outcomes d) ≡ length d
length-outcomes [] = refl
length-outcomes (e ∷ d) = omega (arith, length-outcomes d)

complete-inv :
    (s : Summary) (st : Sources) (results : Dict String Outcome)
    → is_incomplete s st results ≡ false
    → (s.discovery_backlog_versions ≡ 0)
      × (same_set st.source_ids st.accepted ≡ true)
      × (same_set st.accepted (keys results) ≡ true)
      × (any has_failed (outcomes results) ≡ false)
complete-inv s st results h =
    let (c0, h) = or-eq-false (not (s.discovery_backlog_versions == 0)) _ h in
    let (c1, h) = or-eq-false (not (same_set st.source_ids st.accepted)) _ h in
    let (c2, c3) = or-eq-false (not (same_set st.accepted (keys results))) _ h in
    (
      (nat_beq_iff s.discovery_backlog_versions 0).0 (not-eq-false _ c0),
      not-eq-false (same_set st.source_ids st.accepted) c1,
      not-eq-false (same_set st.accepted (keys results)) c2,
      c3,
    )

-- A reconciled stream, by its summary.
pub record IsClosed (s : Summary) (r : Reconciled) : Type 0 where
  pub discovered : s.discovery_backlog_versions ≡ 0
  pub published : r.unique_source_ready_events ≡ r.published_and_accepted_ready_events
  pub terminal : r.published_and_accepted_ready_events ≡ r.terminal_inference_results
  pub outcomes : r.scored_results + r.out_of_scope_results ≡ r.terminal_inference_results
  pub messages : r.physical_kafka_messages ≡ s.physical_kafka_records

-- Whenever a stream reconciles, its progress has no discovery backlog; its distinct source ready
-- events, its accepted ones and its results are equally many; every result was scored or out of
-- scope, none was rejected and none failed; and the Kafka messages are those of the progress.
pub reconcile-IsClosed :
    (digest : Json → String) (root : Directory) (r : Reconciled)
    → reconcile digest root ≡ ok r
    → (s : Summary) × (progress digest root ≡ ok s) × IsClosed s r
unfolding reconcile
reconcile-IsClosed digest root r h =
    let (s, summed, h) = >>=-eq-ok (progress digest root) _ h in
    let (start, _, h) = >>=-eq-ok (starting_offsets root) _ h in
    let (st, looped, h) =
      >>=-eq-ok (sources_from digest root (batches root.versions) (nothing start)) _ h in
    let (results, read, h) = >>=-eq-ok (results_of digest root) _ h in
    let (_, _, h) = >>=-eq-ok (check_provenance st.provenance results) _ h in
    let (_, passed, h) = >>=-eq-ok (raise_if (is_incomplete s st results) incomplete) _ h in
    let (empty, same, ended, none_failed) =
      complete-inv s st results (raise_if-eq-ok incomplete (is_incomplete s st results) passed) in
    let distinct =
      Distinct-sources_from digest root (batches root.versions) (nothing start) st
        (record { sources = tt; accepted = tt }) looped in
    let once = results_of-IsNodup digest root results read in
    (
      s,
      summed,
      subst (IsClosed s) (ok-eq h) (record {
        discovered = empty;
        published =
            length-same_set st.source_ids st.accepted distinct.sources distinct.accepted same;
        terminal =
            length-same_set st.accepted (keys results) distinct.accepted once ended
            ∙ length-keys results;
        outcomes = count-outcomes (outcomes results) none_failed ∙ length-outcomes results;
        messages = refl;
      }),
    )
