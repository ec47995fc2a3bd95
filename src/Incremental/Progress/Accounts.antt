-- ===== src/Incremental/Progress/Accounts.antt =====
-- The accounts of `progress`: what was prepared, accepted and finished adds up, and so do the
-- Kafka offsets.
use sentinel_aegis_forge.Incremental.Outcomes.Distinct.{results_of-IsNodup}
use sentinel_aegis_forge.Common.{
  refl, count, ◌∙◌, length-keys, raise_if-not-eq-ok, subset, not, raise_if-eq-ok, keys, ltb→le, ◌↔◌,
  Dict, ltb, ℕ, suc, ◌+◌, ◌≤◌, String, ◌≡◌, ap, subst, Option, none, some, List, [], ◌∷◌, arith,
  nat_eq, string_eq, pair_eq, list_eq, length, IsNodup, ok, raise_if, >>=-eq-ok, ok-eq,
}
use sentinel_aegis_forge.Common.Json.{Json, Object}
use sentinel_aegis_forge.Availability.Outbox.{ready_ids}
use sentinel_aegis_forge.Incremental.Stream.{
  Batch, Directory, Offsets, ready_id_reused, later_batch_accepted,
}
use sentinel_aegis_forge.Incremental.Acceptance.{inspect_acceptance}
use sentinel_aegis_forge.Incremental.Acceptance.Range.{total, inspect_acceptance-Moves}
use sentinel_aegis_forge.Incremental.Progress.{
  result_not_accepted, two_active_batches, results_of, first_loop, Outcome, source_regressed,
  paused_backpressure, idle, paused_backpressure, starting_offsets, operational_state,
  operational_state, batches, progress, summarize, undiscovered_of, Limits, Limits, Summary, Loop,
  update, without, meets, settle, progress_step, progress_from,
}
use sentinel_aegis_forge.Incremental.Progress.Sets.{
  length-without, subset→Within, Within, contains-update, IsNodup-update,
}
use sentinel_aegis_forge.Incremental.Progress.Chain.{
  Follows, Ran, ids_of, is_begun, left, progress_from-Ran,
}

-- The loop after some batches, which began at `start`.
record Inv (start : Offsets) (done : ℕ) (st : Loop) : Type 0 where
  moved : total start + st.physical ≡ total st.start
  accepted : IsNodup st.accepted_ids
  prepared : IsNodup st.prepared_ids
  within : Within st.accepted_ids st.prepared_ids
  batched : st.accepted_batches + st.active_batches ≤ done

Within-update : (xs ys zs : List String) → Within xs ys → Within (update xs zs) (update ys zs)
Within-update xs ys zs w k m = ground (arith, contains-update k xs zs, contains-update k ys zs, w k)

Within-grow : (xs ys zs : List String) → Within xs ys → Within xs (update ys zs)
Within-grow xs ys zs w k m = ground (arith, contains-update k ys zs, w k m)

module _ (digest : Json → String) (root : Directory) (start : Offsets) where
  Inv-settle :
      (batch : Batch) (done : ℕ) (st next : Loop) (acceptance : Option (Option Object))
      → Inv start done st
      → settle digest root batch st (update st.prepared_ids (ready_ids batch.events)) acceptance
        ≡ ok next
      → Inv start (suc done) next
  unfolding settle
  Inv-settle batch done st next none inv h = subst (Inv start (suc done)) (ok-eq h) (record {
    moved = inv.moved;
    accepted = inv.accepted;
    prepared = IsNodup-update st.prepared_ids (ready_ids batch.events) inv.prepared;
    within = Within-grow st.accepted_ids st.prepared_ids (ready_ids batch.events) inv.within;
    batched = ground (arith, inv.batched);
  })
  Inv-settle batch done st next (some file) inv h =
      let (_, _, h) = >>=-eq-ok (raise_if st.acceptance_closed later_batch_accepted) _ h in
      let (item, seen, h) = >>=-eq-ok (inspect_acceptance digest root batch file st.start) _ h in
      let moves = inspect_acceptance-Moves digest root batch file st.start item seen in
      subst (Inv start (suc done)) (ok-eq h) (record {
        moved = omega (arith, inv.moved, moves.counted);
        accepted = IsNodup-update st.accepted_ids (ready_ids batch.events) inv.accepted;
        prepared = IsNodup-update st.prepared_ids (ready_ids batch.events) inv.prepared;
        within = Within-update st.accepted_ids st.prepared_ids (ready_ids batch.events) inv.within;
        batched = omega (arith, inv.batched);
      })

  Inv-progress_from :
      (rest : List Batch) (done : ℕ) (st next : Loop)
      → Inv start done st
      → progress_from digest root rest st ≡ ok next
      → Inv start (done + length rest) next
  unfolding progress_from progress_step
  Inv-progress_from [] done st next inv h = subst (Inv start (done + 0)) (ok-eq h) (record {
    moved = inv.moved;
    accepted = inv.accepted;
    prepared = inv.prepared;
    within = inv.within;
    batched = omega (arith, inv.batched);
  })
  Inv-progress_from (batch ∷ rest) done st next inv h =
      let (after, one, h) = >>=-eq-ok (progress_step digest root batch st) _ h in
      let (_, _, one) =
        >>=-eq-ok (raise_if (meets st.prepared_ids (ready_ids batch.events)) ready_id_reused) _
          one in
      let inv =
        Inv-settle batch done st after (root.acceptance batch.publication_batch_id) inv one in
      let inv = Inv-progress_from rest (suc done) after next inv h in
      record {
        moved = inv.moved;
        accepted = inv.accepted;
        prepared = inv.prepared;
        within = inv.within;
        batched = omega (arith, inv.batched);
      }

-- The accounts of a summary.
pub record IsAccounted (digest : Json → String) (root : Directory) (start : Offsets) (s : Summary)
    : Type 0 where
  pub finish : Offsets
  pub taken : List Batch
  pub followed :
      Follows digest root start (batches root.versions) finish taken s.physical_kafka_records
  pub accepted : s.accepted_batches ≡ length taken
  pub begun :
      s.active_publication_batches
      ≡ count (is_begun digest root) (left taken (batches root.versions))
  pub results : Dict String Outcome
  pub read : results_of digest root ≡ ok results
  pub completed : s.completed_inference_results ≡ length results
  pub accepted_events : s.accepted_ready_events ≡ length (update [] (ids_of taken))
  pub prepared_events :
      s.prepared_ready_events ≡ length (update [] (ids_of (batches root.versions)))
  pub moved : total start + s.physical_kafka_records ≡ total finish
  pub unaccepted :
      s.transport_backlog_ready_events
      ≡ length (without (update [] (ids_of (batches root.versions))) (update [] (ids_of taken)))
  pub unfinished :
      s.inference_backlog_ready_events ≡ length (without (update [] (ids_of taken)) (keys results))
  pub transported :
      s.accepted_ready_events + s.transport_backlog_ready_events ≡ s.prepared_ready_events
  pub inferred :
      s.completed_inference_results + s.inference_backlog_ready_events ≡ s.accepted_ready_events
  pub discovered :
      root.manifest.first_delta_version + length root.versions + s.discovery_backlog_versions
      ≡ s.latest_source_delta_version + 1
  pub batched : s.accepted_batches + s.active_publication_batches ≤ length (batches root.versions)
  pub active :
      s.active_publication_batches ≤ root.manifest.limits.maximum_active_publication_batches
  pub paused : (s.operational_state ≡ paused_backpressure) ↔ (
      root.manifest.limits.maximum_accepted_unprocessed_events ≤ s.inference_backlog_ready_events)
  pub at_rest :
      s.operational_state ≡ idle
      → (s.discovery_backlog_versions ≡ 0)
        × (s.transport_backlog_ready_events ≡ 0)
        × (s.inference_backlog_ready_events ≡ 0)

operational_state-idle :
    (limits : Limits) (undiscovered unaccepted pending : ℕ)
    → operational_state limits undiscovered unaccepted pending ≡ idle
    → (undiscovered ≡ 0) × (unaccepted ≡ 0) × (pending ≡ 0)
operational_state-idle limits undiscovered unaccepted pending h =
    (ground arith, ground arith, ground arith)

operational_state-paused :
    (limits : Limits) (undiscovered unaccepted pending : ℕ)
    → (operational_state limits undiscovered unaccepted pending ≡ paused_backpressure)
      ↔ (limits.maximum_accepted_unprocessed_events ≤ pending)
operational_state-paused limits undiscovered unaccepted pending =
    (λ h. ground arith, λ h. ground arith)

undiscovered_of-eq :
    (root : Directory) (n : ℕ)
    → undiscovered_of root ≡ ok n
    → root.manifest.first_delta_version + length root.versions + n ≡ root.latest_version + 1
unfolding undiscovered_of
undiscovered_of-eq root n h =
    let next = root.manifest.first_delta_version + length root.versions in
    let (_, bound, h) =
      >>=-eq-ok (raise_if (ltb (root.latest_version + 1) next) source_regressed) _ h in
    omega (
      arith,
      ltb→le (root.latest_version + 1) next
          (raise_if-eq-ok source_regressed (ltb (root.latest_version + 1) next) bound),
      ok-eq h,
    )

summarize-IsAccounted :
    (digest : Json → String) (root : Directory) (start : Offsets) (st : Loop)
    (results : Dict String Outcome) (s : Summary)
    → Inv start (length (batches root.versions)) st
    → Ran digest root (batches root.versions) (first_loop start) st
    → IsNodup (keys results)
    → results_of digest root ≡ ok results
    → summarize root st results ≡ ok s
    → IsAccounted digest root start s
unfolding summarize
summarize-IsAccounted digest root start st results s inv ran once read h =
    let limits = root.manifest.limits in
    let (_, active, h) =
      >>=-eq-ok
        (raise_if (ltb limits.maximum_active_publication_batches st.active_batches)
          two_active_batches)
        _ h in
    let (_, known, h) =
      >>=-eq-ok (raise_if (not (subset (keys results) st.accepted_ids)) result_not_accepted) _ h in
    let (undiscovered, lag, h) = >>=-eq-ok (undiscovered_of root) _ h in
    let known =
      subset→Within (keys results) st.accepted_ids
        (raise_if-not-eq-ok result_not_accepted (subset (keys results) st.accepted_ids) known) in
    subst (IsAccounted digest root start) (ok-eq h) (record {
      finish = st.start;
      taken = ran.taken;
      followed =
          subst (Follows digest root start (batches root.versions) st.start ran.taken)
            (omega (arith, ran.physical)) ran.follows;
      accepted = omega (arith, ran.accepted_batches);
      begun = omega (arith, ran.active);
      results = results;
      read = read;
      completed = refl;
      unaccepted =
          ap (λ l. length (without l st.accepted_ids)) ran.prepared_ids
          ∙ ap (λ l. length (without (update [] (ids_of (batches root.versions))) l))
              ran.accepted_ids;
      unfinished = ap (λ l. length (without l (keys results))) ran.accepted_ids;
      accepted_events = ap length ran.accepted_ids;
      prepared_events = ap length ran.prepared_ids;
      moved = inv.moved;
      transported =
          length-without st.prepared_ids st.accepted_ids inv.prepared inv.accepted inv.within;
      inferred = omega (
        arith,
        length-keys results,
        length-without st.accepted_ids (keys results) inv.accepted once known,
      );
      discovered = undiscovered_of-eq root undiscovered lag;
      batched = inv.batched;
      active = ltb→le limits.maximum_active_publication_batches st.active_batches (
          raise_if-eq-ok two_active_batches
            (ltb limits.maximum_active_publication_batches st.active_batches) active);
      paused = operational_state-paused limits undiscovered _ _;
      at_rest = operational_state-idle limits undiscovered _ _;
    })

-- Whenever the progress of a stream is returned, its accounts close: from the starting fence the
-- acceptances of the first batches lead, each from where the one before it ended, to the final
-- offsets, and all batches after them wait; the physical records are the sum of what these
-- acceptances count, and so many offsets were passed; the accepted batches are these, the accepted
-- and the prepared ready events their distinct ready identities and those of all batches; the
-- active batches are the ones after these whose publication was begun; every prepared ready event
-- is accepted or in the transport backlog, which counts those of no accepted batch, and every
-- accepted one has its result, as they are read, or is in the inference backlog, which counts
-- those without one; the discovered versions and the discovery backlog reach the source's version;
-- accepted and active batches are among the batches, the active ones within the limit; and the
-- stream is paused exactly where the inference backlog reaches its limit, and idle only where no
-- backlog is left.
pub progress-IsAccounted :
    (digest : Json → String) (root : Directory) (s : Summary)
    → progress digest root ≡ ok s
    → (start : Offsets) × (starting_offsets root ≡ ok start) × IsAccounted digest root start s
unfolding progress
progress-IsAccounted digest root s h =
    let (start, fenced, h) = >>=-eq-ok (starting_offsets root) _ h in
    let (st, looped, h) =
      >>=-eq-ok (progress_from digest root (batches root.versions) (first_loop start)) _ h in
    let (results, read, h) = >>=-eq-ok (results_of digest root) _ h in
    let inv =
      Inv-progress_from digest root start (batches root.versions) 0 (first_loop start) st
        (first start) looped in
    (
      start,
      fenced,
      summarize-IsAccounted digest root start st results s (counted start st inv)
          (progress_from-Ran digest root (batches root.versions) (first_loop start) st looped)
          (results_of-IsNodup digest root results read) read h,
    )
  where
    first : (start : Offsets) → Inv start 0 (first_loop start)
    first start = record {
      moved = omega arith;
      accepted = tt;
      prepared = tt;
      within = λ k m. m;
      batched = omega arith;
    }

    counted :
        (start : Offsets) (st : Loop)
        → Inv start (0 + length (batches root.versions)) st
        → Inv start (length (batches root.versions)) st
    counted start st inv = record {
      moved = inv.moved;
      accepted = inv.accepted;
      prepared = inv.prepared;
      within = inv.within;
      batched = omega (arith, inv.batched);
    }
