-- ===== src/KafkaShadow/Worker/Bounded.antt =====
-- What a call of `process_resolved` may do to the durable results, however it ends.
pub mod Claims
use sentinel_aegis_forge.Common.{
  ℕ, ◌+◌, ◌≤◌, ◌<◌, String, ◌≡◌, refl, ap, ◌∙◌, inl, inr, Bool, true, false, Option, none, some,
  List, [], ◌∷◌, arith, leb, if◌then◌else◌, leb→lt, Bool-cases, nat_eq, string_eq, pair_eq, list_eq,
  length, Dict, lookup, Result, ok, err, ◌>>=◌, >>=-eq-ok, ok-eq, ℤ,
}
use sentinel_aegis_forge.Common.Json.{Object, has_values}
use sentinel_aegis_forge.Availability.Outbox.{ReadyEvent}
use sentinel_aegis_forge.KafkaShadow.Results.{ShadowKafkaError, durable_results}
use sentinel_aegis_forge.KafkaShadow.Results.Durable.Once.{Kept}
use sentinel_aegis_forge.KafkaShadow.Worker.{
  Setup, SourceRow, Tick, Run, running, returned, raised, is_interrupted, count_attempt,
  after_claim, attempt, step, loop, finish, start, process_resolved, identity_of, expected_ids,
  base_of,
}
use sentinel_aegis_forge.KafkaShadow.Worker.Bounded.Claims.{IsClaim, claim_result-IsClaim}

module _ {F : Type 0} (w : Setup F) (first : Dict String Object) where
  -- The new files of a tick are those it counts as created, and no more than its attempts.
  record IsTick (t : Tick) : Type 0 where
    pub kept : Kept first t.store
    pub grown : length t.store ≡ length first + t.created
    pub few : t.created ≤ t.attempts
    pub bounded : t.attempts ≤ w.config.maximum_attempts

  abbrev IsRun : Run → Type 0
  IsRun (running t) = IsTick t
  IsRun (returned t) = IsTick t
  IsRun (raised store error) =
      Kept first store × (length store ≤ length first + w.config.maximum_attempts)

  count_attempt-IsRun :
      (fail_after : ℤ) (identity : String) (result : Object) (t : Tick) (store : Dict String Object)
      (created : Bool) (read : Result ShadowKafkaError Object)
      → IsTick t
      → t.attempts < w.config.maximum_attempts
      → Kept t.store store
      → length store ≡ length t.store + (if created then 1 else 0)
      → IsRun (count_attempt w fail_after identity result t store created read)
  unfolding count_attempt
  count_attempt-IsRun fail_after identity result t store created (err e) h room kept grown =
      (λ k v m. kept k v (h.kept k v m), ground (arith, h.grown, h.few, grown))
  count_attempt-IsRun fail_after identity result t store created (ok found) h room kept grown =
      let now = if created then t.created + 1 else t.created in
      let all_kept : Kept first store = λ k v m. kept k v (h.kept k v m) in
      elim (Bool-cases (is_interrupted fail_after now)) [
        | inl stop ↦ rw stop (all_kept, ground (arith, h.grown, h.few, grown))
        | inr go ↦ rw go (record {
          kept = all_kept;
          grown = ground (arith, h.grown, grown);
          few = ground (arith, h.few);
          bounded = omega arith;
        })
      ]

  after_claim-IsRun :
      (fail_after : ℤ) (identity : String) (result : Object) (t : Tick)
      (claim : Dict String Object × Result ShadowKafkaError Bool)
      → IsTick t
      → t.attempts < w.config.maximum_attempts
      → IsClaim w.digest w.str t.store claim
      → IsRun (after_claim w fail_after identity result t claim)
  unfolding after_claim
  after_claim-IsRun fail_after identity result t (store, err e) h room (kept, size, _, _) =
      (λ k v m. kept k v (h.kept k v m), omega (arith, h.grown, h.few, size))
  after_claim-IsRun fail_after identity result t (store, ok true) h room (kept, _, grown, _) =
      count_attempt-IsRun fail_after identity result t store true _ h room kept (grown refl)
  after_claim-IsRun fail_after identity result t (store, ok false) h room (kept, _, _, equal) =
      count_attempt-IsRun fail_after identity result t store false _ h room kept
        (omega (arith, equal refl))

  attempt-IsRun :
      (fail_after : ℤ) (identity : String) (t : Tick) (evaluated : Result ShadowKafkaError Object)
      → IsTick t
      → t.attempts < w.config.maximum_attempts
      → IsRun (attempt w fail_after identity t evaluated)
  unfolding attempt
  attempt-IsRun fail_after identity t (err e) h room =
      (h.kept, omega (arith, h.grown, h.few, h.bounded))
  attempt-IsRun fail_after identity t (ok result) h room =
      after_claim-IsRun fail_after identity result t _ h room
        (claim_result-IsClaim w.digest w.str identity result t.store)

  step-IsRun :
      (fail_after : ℤ) (event : ReadyEvent) (row : SourceRow F) (t : Tick) (o : Option Object)
      → IsTick t
      → IsRun (step w fail_after event row t o)
  unfolding step
  step-IsRun fail_after event row t (some prior) h =
      elim (Bool-cases (has_values prior (base_of w event))) [
        | inl same ↦ rw same h
        | inr differs ↦ rw differs (h.kept, omega (arith, h.grown, h.few, h.bounded))
      ]
  step-IsRun fail_after event row t none h =
      elim (Bool-cases (leb w.config.maximum_attempts t.attempts)) [
        | inl full ↦ rw full h
        | inr room ↦
            rw room
              (attempt-IsRun fail_after _ t _ h (leb→lt w.config.maximum_attempts t.attempts room))
      ]

  loop-IsRun :
      (fail_after : ℤ) (work : List (ReadyEvent × SourceRow F)) (run : Run)
      → IsRun run
      → IsRun (loop w fail_after work run)
  unfolding loop
  loop-IsRun fail_after [] run h = h
  loop-IsRun fail_after ((event, row) ∷ rest) (running t) h =
      loop-IsRun fail_after rest _
        (step-IsRun fail_after event row t (lookup (identity_of w event) t.by_request) h)
  loop-IsRun fail_after ((event, row) ∷ rest) (returned t) h = h
  loop-IsRun fail_after ((event, row) ∷ rest) (raised store e) h = h

  -- What `process_resolved` leaves and returns.
  pub record IsBounded (work : List (ReadyEvent × SourceRow F))
      (outcome : Dict String Object × Result ShadowKafkaError (List Object × ℕ)) : Type 0 where
    pub kept : Kept first outcome.0
    pub bounded : length outcome.0 ≤ length first + w.config.maximum_attempts
    pub counted :
        (results : List Object) (created : ℕ)
        → outcome.1 ≡ ok (results, created)
        → (length outcome.0 ≡ length first + created)
          × (durable_results w.digest w.str outcome.0 (expected_ids w work) ≡ ok results)

  tick-IsBounded :
      (work : List (ReadyEvent × SourceRow F)) (t : Tick)
      → IsTick t
      → IsBounded work (
        t.store,
        (durable_results w.digest w.str t.store (expected_ids w work)
            >>= (λ results. ok (results, t.created))),
      )
  tick-IsBounded work t h = record {
    kept = h.kept;
    bounded = omega (arith, h.grown, h.few, h.bounded);
    counted = λ results created q.
        let ids = expected_ids w work in
        let (found, read, q) = >>=-eq-ok (durable_results w.digest w.str t.store ids) _ q in
        let e = ok-eq q in
        (
          h.grown ∙ ap (λ n. length first + n) (ap (λ (p : List Object × ℕ). p.1) e),
          read ∙ ap (λ (p : List Object × ℕ). ok p.0) e,
        );
  }

  finish-IsBounded :
      (work : List (ReadyEvent × SourceRow F)) (run : Run)
      → IsRun run
      → IsBounded work (finish w work run)
  unfolding finish
  finish-IsBounded work (raised store e) (kept, size) = record {
    kept = kept;
    bounded = size;
    counted = λ results created q. cc;
  }
  finish-IsBounded work (running t) h = tick-IsBounded work t h
  finish-IsBounded work (returned t) h = tick-IsBounded work t h

  start-IsBounded :
      (fail_after : ℤ) (work : List (ReadyEvent × SourceRow F))
      (completed : Result ShadowKafkaError (List Object))
      → IsBounded work (start w fail_after work first completed)
  unfolding start
  start-IsBounded fail_after work (err e) = record {
    kept = λ k v m. m;
    bounded = omega arith;
    counted = λ results created q. cc;
  }
  start-IsBounded fail_after work (ok completed) = finish-IsBounded work _ (
      loop-IsRun fail_after work _ (record {
        kept = λ k v m. m;
        grown = omega arith;
        few = omega arith;
        bounded = omega arith;
      }))

  -- However a call of `process_resolved` ends, by returning, at its bound of attempts, by an error
  -- or by an interruption: every durable result is still there as it was, and no more new results
  -- than `maximum_attempts` were written; and where it returns, the new results are exactly those
  -- it reports as created, and it returns the durable results of its requests as they then are.
  pub process_resolved-IsBounded :
      (fail_after : ℤ) (work : List (ReadyEvent × SourceRow F))
      → IsBounded work (process_resolved w fail_after work first)
  unfolding process_resolved
  process_resolved-IsBounded fail_after work = start-IsBounded fail_after work _
