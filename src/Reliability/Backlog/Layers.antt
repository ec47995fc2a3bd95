-- ===== src/Reliability/Backlog/Layers.antt =====
-- What waits at each layer of `backlog_snapshot`, as sets of ready identities.
use sentinel_aegis_forge.Common.{
  raise_if-not-eq-ok, and-eq-true, ℕ, ◌+◌, String, ◌≡◌, refl, sym, ap, ◌∙◌, subst, ◌⊎◌, inl, inr,
  true, false, not, ◌&&◌, ◌||◌, none, some, List, [], ◌∷◌, ◌++◌, arith, leb, leb→le, Bool-cases,
  Option-cases, ◌==◌, nat_eq, string_eq, pair_eq, list_eq, length, length-append, contains,
  contains-append, contains-keys-insert, All, All-mono, All-contains, IsNodup, IsNodup-append, Dict,
  lookup, insert, keys, ok, raise_if, map_error, map_error-eq-ok, >>=-eq-ok, ok-eq,
}
use sentinel_aegis_forge.Common.Json.{Json, Object}
use sentinel_aegis_forge.Availability.Outbox.{ReadyEvent, ready_ids}
use sentinel_aegis_forge.Incremental.Stream.{
  Manifest, Batch, File, Directory, Offsets, read_object, events_by_id, starting_offsets,
}
use sentinel_aegis_forge.Incremental.Acceptance.{stems}
use sentinel_aegis_forge.Incremental.Acceptance.Range.{inspect_acceptance-Moves}
use sentinel_aegis_forge.Incremental.Outcomes.{Outcome, results_of}
use sentinel_aegis_forge.Incremental.Progress.{update, without, batches, progress}
use sentinel_aegis_forge.Incremental.Progress.Accounts.{progress-IsAccounted}
use sentinel_aegis_forge.Incremental.Progress.Apart.{Apart, progress-Apart}
use sentinel_aegis_forge.Incremental.Progress.Chain.{Follows, ids_of}
use sentinel_aegis_forge.Incremental.Progress.Sets.{
  Within, subset→Within, contains-update, IsNodup-update, length-without,
}
use sentinel_aegis_forge.Reliability.Backlog.{
  Snapshot, stream, acknowledgement_differs, inconsistent_counts, acknowledgement_ok,
  acknowledged_of, acknowledged_from, backlog_snapshot,
}

contains-events_by_id :
    (k : String) (events : List ReadyEvent) (d : Dict String ReadyEvent)
    → contains k (keys (events_by_id d events))
      ≡ (contains k (ready_ids events) || contains k (keys d))
contains-events_by_id k [] d = refl
contains-events_by_id k (event ∷ rest) d = ground (
  arith,
  contains-events_by_id k rest (insert event.ready_event_id event d),
  contains-keys-insert event.ready_event_id k event d,
)

by_id-ready_ids :
    (k : String) (events : List ReadyEvent)
    → contains k (keys (events_by_id [] events)) ≡ contains k (ready_ids events)
by_id-ready_ids k events = ground (arith, contains-events_by_id k events [])

lookup-contains :
    (k : String) (v : ReadyEvent) (d : Dict String ReadyEvent)
    → lookup k d ≡ some v
    → contains k (keys d) ≡ true
lookup-contains k v [] h = cc
lookup-contains k v ((j, w) ∷ d) h = elim (Bool-cases (k == j)) [
  | inl same ↦ rw same
  | inr other ↦ rw other (lookup-contains k v d (rw other at h))
]

refused :
    (manifest : Manifest) (id stem : String) (ack : Object)
    → acknowledgement_ok manifest id stem ack none ≡ true
    → false ≡ true
unfolding acknowledgement_ok
refused manifest id stem ack h = h

-- One batch: the acknowledgements are counted, and each names a ready event of the batch.
acknowledged_of-Counted :
    (manifest : Manifest) (id : String) (by_id : Dict String ReadyEvent) (files : List File) (n : ℕ)
    → acknowledged_of manifest id by_id files ≡ ok n
    → (n ≡ length (stems files)) × All (λ k. contains k (keys by_id) ≡ true) (stems files)
unfolding acknowledged_of
acknowledged_of-Counted manifest id by_id [] n h = (sym (ok-eq h), tt)
acknowledged_of-Counted manifest id by_id ((stem, file) ∷ rest) n h =
    let (ack, _, h) = >>=-eq-ok (map_error stream (read_object file)) _ h in
    let (_, named, h) =
      >>=-eq-ok
        (raise_if (not (acknowledgement_ok manifest id stem ack (lookup stem by_id)))
          acknowledgement_differs)
        _ h in
    let (m, others, h) = >>=-eq-ok (acknowledged_of manifest id by_id rest) _ h in
    let (counted, known) = acknowledged_of-Counted manifest id by_id rest m others in
    let named = raise_if-not-eq-ok acknowledgement_differs _ named in
    (
      omega (arith, ok-eq h, counted),
      (
        elim (Option-cases (lookup stem by_id)) [
          | inl gone ↦ cc (refused manifest id stem ack (rw gone at named))
          | inr (event, found) ↦ lookup-contains stem event by_id found
        ],
        known,
      ),
    )

module _ (root : Directory) where
  abbrev pub acknowledged_in : Batch → List String
  acknowledged_in batch = stems (root.acknowledgements batch.publication_batch_id)

  -- The names of the acknowledgements of all batches.
  abbrev pub acknowledged_ids : List Batch → List String
  acknowledged_ids [] = []
  acknowledged_ids (batch ∷ rest) = acknowledged_in batch ++ acknowledged_ids rest

  -- Each acknowledgement is of an event of its batch.
  abbrev Own : List Batch → Type 0
  Own bs =
      All (λ (b : Batch). All (λ k. contains k (ready_ids b.events) ≡ true) (acknowledged_in b)) bs

  acknowledged_from-Counted :
      (bs : List Batch) (n : ℕ)
      → acknowledged_from root bs ≡ ok n
      → (n ≡ length (acknowledged_ids bs)) × Own bs
  unfolding acknowledged_from
  acknowledged_from-Counted [] n h = (sym (ok-eq h), tt)
  acknowledged_from-Counted (batch ∷ rest) n h =
      let by_id = events_by_id [] batch.events in
      let files = root.acknowledgements batch.publication_batch_id in
      let (m, one, h) =
        >>=-eq-ok (acknowledged_of root.manifest batch.publication_batch_id by_id files) _ h in
      let (l, others, h) = >>=-eq-ok (acknowledged_from root rest) _ h in
      let (c, own) =
        acknowledged_of-Counted root.manifest batch.publication_batch_id by_id files m one in
      let (c', own') = acknowledged_from-Counted rest l others in
      (
        omega (arith, ok-eq h, c, c', length-append (stems files) (acknowledged_ids rest)),
        (
          All-mono (λ k. contains k (keys by_id) ≡ true)
              (λ k. contains k (ready_ids batch.events) ≡ true)
              (λ k m. sym (by_id-ready_ids k batch.events) ∙ m) (stems files) own,
          own',
        ),
      )

  acknowledged_ids-Within : (bs : List Batch) → Own bs → Within (acknowledged_ids bs) (ids_of bs)
  acknowledged_ids-Within [] own k m = cc
  acknowledged_ids-Within (batch ∷ rest) own k m =
      elim (Bool-cases (contains k (acknowledged_in batch))) [
        | inl here ↦
            let mine : contains k (ready_ids batch.events) ≡ true =
              All-contains (λ j. contains j (ready_ids batch.events) ≡ true) k
                (acknowledged_in batch) own.0 here in
            ground (arith, contains-append k (ready_ids batch.events) (ids_of rest), mine)
        | inr later ↦
            let m' : contains k (acknowledged_ids rest) ≡ true =
              ground (arith, contains-append k (acknowledged_in batch) (acknowledged_ids rest)) in
            let there = acknowledged_ids-Within rest own.1 k m' in
            ground (arith, contains-append k (ready_ids batch.events) (ids_of rest), there)
      ]

  acknowledged_ids-IsNodup :
      (bs : List Batch)
      → ((id : String) → IsNodup (stems (root.acknowledgements id)))
      → Own bs
      → Apart bs
      → IsNodup (acknowledged_ids bs)
  acknowledged_ids-IsNodup [] names own apart = tt
  acknowledged_ids-IsNodup (batch ∷ rest) names own apart =
      IsNodup-append (acknowledged_in batch) (acknowledged_ids rest)
        (names batch.publication_batch_id) (acknowledged_ids-IsNodup rest names own.1 apart.1)
        (All-mono (λ k. contains k (ready_ids batch.events) ≡ true)
          (λ k. contains k (acknowledged_ids rest) ≡ false)
          (λ k m. later k m (Bool-cases (contains k (acknowledged_ids rest))))
          (acknowledged_in batch) own.0)
    where
      later :
          (k : String)
          → contains k (ready_ids batch.events) ≡ true
          → (contains k (acknowledged_ids rest) ≡ true)
            ⊎ (contains k (acknowledged_ids rest) ≡ false)
          → contains k (acknowledged_ids rest) ≡ false
      later k m (inl again) = cc (apart.0 k m, acknowledged_ids-Within rest own.1 k again)
      later k m (inr fresh) = fresh

  -- Every event of an accepted batch was acknowledged.
  Follows-Within :
      (digest : Json → String) (start finish : Offsets) (bs taken : List Batch) (physical : ℕ)
      → Follows digest root start bs finish taken physical
      → Within (ids_of taken) (acknowledged_ids bs)
  Follows-Within digest start finish [] taken physical (_, none_taken, _) k m =
      cc (ap (λ l. contains k (ids_of l)) none_taken)
  Follows-Within digest start finish (batch ∷ rest) taken physical (inl (_, _, none_taken, _)) k m =
      cc (ap (λ l. contains k (ids_of l)) none_taken)
  Follows-Within digest start finish (batch ∷ rest) taken physical
        (inr (file, item, others, more, _, seen, same, _, next)) k m =
      let moves = inspect_acceptance-Moves digest root batch file start item seen in
      let (_, back) = and-eq-true _ _ moves.acknowledged in
      let mine =
        subset→Within (keys (events_by_id [] batch.events)) (acknowledged_in batch) back k in
      let m : contains k (ready_ids batch.events ++ ids_of others) ≡ true =
        ap (λ l. contains k (ids_of l)) (sym same) ∙ m in
      ground (
        arith,
        contains-append k (ready_ids batch.events) (ids_of others),
        contains-append k (acknowledged_in batch) (acknowledged_ids rest),
        by_id-ready_ids k batch.events,
        mine,
        Follows-Within digest item.finish finish rest others more next k,
      )

-- The layers of a snapshot, by the ready events of the batches.
pub record IsLayered (digest : Json → String) (root : Directory) (b : Snapshot) : Type 0 where
  pub start : Offsets
  pub fenced : starting_offsets root ≡ ok start
  pub finish : Offsets
  pub taken : List Batch
  pub physical : ℕ
  -- the accepted batches, by their acceptances
  pub followed : Follows digest root start (batches root.versions) finish taken physical
  pub prepared : b.prepared ≡ length (update [] (ids_of (batches root.versions)))
  pub acknowledged : b.acknowledged ≡ length (acknowledged_ids root (batches root.versions))
  pub once : IsNodup (acknowledged_ids root (batches root.versions))
  pub accepted : b.accepted ≡ length (update [] (ids_of taken))
  pub unpublished :
      b.publication_backlog_ready_events
      ≡ length (
          without
            (update [] (ids_of (batches root.versions)))
            (acknowledged_ids root (batches root.versions)))
  pub unaccepted :
      b.acceptance_backlog_ready_events
      ≡ length (without (acknowledged_ids root (batches root.versions)) (update [] (ids_of taken)))
  pub results : Dict String Outcome
  pub read : results_of digest root ≡ ok results
  pub completed : b.terminal_results ≡ length results
  pub unfinished :
      b.inference_backlog_ready_events ≡ length (without (update [] (ids_of taken)) (keys results))
  pub whole :
      b.terminal_results
        + (b.inference_backlog_ready_events
            + (b.acceptance_backlog_ready_events + b.publication_backlog_ready_events))
      ≡ b.prepared

-- Whenever a snapshot is returned, of a directory in which the names of the acknowledgements of a
-- batch differ: its acknowledgements name different ready events, and their number is the
-- acknowledged count; the prepared and the accepted counts are the ready events of all batches and
-- of those with an acceptance; the publication backlog counts the ready events that no
-- acknowledgement names, the acceptance backlog the acknowledged ones of no accepted batch, and
-- the inference backlog the accepted ones without a result; and the results and the three backlogs
-- make the prepared events.
pub backlog_snapshot-IsLayered :
    (digest : Json → String) (root : Directory) (b : Snapshot)
    → ((id : String) → IsNodup (stems (root.acknowledgements id)))
    → backlog_snapshot digest root ≡ ok b
    → IsLayered digest root b
unfolding backlog_snapshot
backlog_snapshot-IsLayered digest root b names h =
    let bs = batches root.versions in
    let (s, summed, h) = >>=-eq-ok (map_error stream (progress digest root)) _ h in
    let summed = map_error-eq-ok stream (progress digest root) summed in
    let (n, read, h) = >>=-eq-ok (acknowledged_from root bs) _ h in
    let consistent = leb s.accepted_ready_events n && leb n s.prepared_ready_events in
    let (_, passed, h) = >>=-eq-ok (raise_if (not consistent) inconsistent_counts) _ h in
    let (low, high) =
      and-eq-true (leb s.accepted_ready_events n) _
        (raise_if-not-eq-ok inconsistent_counts consistent passed) in
    let le = leb→le s.accepted_ready_events n low in
    let le' = leb→le n s.prepared_ready_events high in
    let (start, fenced, accounts) = progress-IsAccounted digest root s summed in
    let (counted, own) = acknowledged_from-Counted root bs n read in
    let once = acknowledged_ids-IsNodup root bs names own (progress-Apart digest root s summed) in
    let acks = acknowledged_ids root bs in
    let all = update [] (ids_of bs) in
    let some_ids = update [] (ids_of accounts.taken) in
    let unpublished =
      length-without all acks (IsNodup-update [] (ids_of bs) tt) once
        (λ k m. contains-update k [] (ids_of bs) ∙ acknowledged_ids-Within root bs own k m) in
    let unaccepted =
      length-without acks some_ids once (IsNodup-update [] (ids_of accounts.taken) tt) (λ k m.
        Follows-Within root digest start accounts.finish bs accounts.taken _ accounts.followed k
          (sym (contains-update k [] (ids_of accounts.taken)) ∙ m)) in
    subst (IsLayered digest root) (ok-eq h) (record {
      start = start;
      fenced = fenced;
      finish = accounts.finish;
      taken = accounts.taken;
      physical = s.physical_kafka_records;
      followed = accounts.followed;
      prepared = accounts.prepared_events;
      acknowledged = counted;
      once = once;
      accepted = accounts.accepted_events;
      unpublished = omega (arith, unpublished, counted, accounts.prepared_events);
      unaccepted = omega (arith, unaccepted, counted, accounts.accepted_events);
      results = accounts.results;
      read = accounts.read;
      completed = accounts.completed;
      unfinished = accounts.unfinished;
      whole = omega (arith, le, le', accounts.inferred);
    })
