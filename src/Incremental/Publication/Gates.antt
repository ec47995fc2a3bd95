-- ===== src/Incremental/Publication/Gates.antt =====
-- What `authorize_publication` guarantees before a batch is sent.
use sentinel_aegis_forge.Common.{
  raise_if-not-eq-ok, ℕ, ◌+◌, ◌≤◌, String, ◌≡◌, refl, ap, subst, ◌≢◌, inl, inr, Bool, true, false,
  not, ◌&&◌, none, List, [], ◌∷◌, ◌++◌, arith, eq_iff, ltb, ltb→le, Bool-cases, Option-cases, ◌==◌,
  nat_eq, string_eq, pair_eq, list_eq, length, All, ok, raise_if, raise_if-eq-ok, >>=-eq-ok, ok-eq,
}
use sentinel_aegis_forge.Common.Json.{Json}
use sentinel_aegis_forge.Incremental.Stream.{
  Batch, Directory, already_accepted, not_the_earliest, another_active, backpressure,
  transport_backlog,
}
use sentinel_aegis_forge.Incremental.Progress.{Summary, batches, progress}
use sentinel_aegis_forge.Incremental.Progress.Accounts.{progress-IsAccounted}
use sentinel_aegis_forge.Incremental.Publication.{
  find_batch, is_accepted, first_pending, is_batch, found_batch, authorize_publication,
}

find_batch-id :
    (id : String) (l : List Batch) (batch : Batch)
    → found_batch (find_batch id l) ≡ ok batch
    → batch.publication_batch_id ≡ id
unfolding find_batch found_batch
find_batch-id id [] batch h = cc
find_batch-id id (b ∷ l) batch h = elim (Bool-cases (b.publication_batch_id == id)) [
  | inl same ↦
      let e : b ≡ batch = ok-eq (rw same at h) in
      subst (λ (t : Batch). t.publication_batch_id ≡ id) e
        ((eq_iff b.publication_batch_id id).0 same)
  | inr other ↦ find_batch-id id l batch (rw other at h)
]

is_accepted-none :
    (root : Directory) (id : String) → is_accepted root id ≡ false → root.acceptance id ≡ none
unfolding is_accepted
is_accepted-none root id h = elim (Option-cases (root.acceptance id)) [
  | inl gone ↦ gone
  | inr (file, found) ↦ absurd (ground arith)
]

-- In the list, a batch of that identity stands after accepted ones only.
pub record IsEarliest (root : Directory) (id : String) (l : List Batch) : Type 0 where
  pub before : List Batch
  pub first : Batch
  pub after : List Batch
  pub order : l ≡ before ++ first ∷ after
  pub accepted : All (λ (b : Batch). root.acceptance b.publication_batch_id ≢ none) before
  pub same : first.publication_batch_id ≡ id

is_accepted-some :
    (root : Directory) (id : String) → is_accepted root id ≡ true → root.acceptance id ≢ none
unfolding is_accepted
is_accepted-some root id h none_there = ground arith

first_pending-IsEarliest :
    (root : Directory) (id : String) (l : List Batch)
    → is_batch id (first_pending root l) ≡ true
    → IsEarliest root id l
unfolding is_batch first_pending
first_pending-IsEarliest root id [] h = cc
first_pending-IsEarliest root id (b ∷ l) h =
    elim (Bool-cases (is_accepted root b.publication_batch_id)) [
      | inl taken ↦
          let rest = first_pending-IsEarliest root id l (rw taken at h) in
          record {
            before = b ∷ rest.before;
            first = rest.first;
            after = rest.after;
            order = ap (◌∷◌ b) rest.order;
            accepted = (is_accepted-some root b.publication_batch_id taken, rest.accepted);
            same = rest.same;
          }
      | inr open_batch ↦ record {
        before = [];
        first = b;
        after = l;
        order = refl;
        accepted = tt;
        same = (eq_iff b.publication_batch_id id).0 (rw open_batch at h);
      }
    ]

-- What holds where a batch is authorized.
pub record IsAuthorized (root : Directory) (id : String) (batch : Batch) (s : Summary)
    : Type 0 where
  pub named : batch.publication_batch_id ≡ id
  pub fresh : root.acceptance id ≡ none
  pub earliest : IsEarliest root id (batches root.versions)
  pub exclusive : root.journal_exists id ≡ false → s.active_publication_batches ≡ 0
  pub unprocessed :
      s.accepted_ready_events + length batch.events
      ≤ s.completed_inference_results + root.manifest.limits.maximum_accepted_unprocessed_events
  pub unpublished :
      s.prepared_ready_events
      ≤ s.accepted_ready_events + root.manifest.limits.maximum_unpublished_ready_events

exclusive_active :
    (active : ℕ) (journal : Bool)
    → (ltb 0 active && not journal) ≡ false
    → journal ≡ false
    → active ≡ 0
exclusive_active active journal h k = ground arith

-- Where the publication of a batch is authorized, it is the earliest batch that is not accepted;
-- unless it has a journal itself no batch is active; once it is accepted there will be no more
-- accepted events without a result than the limit allows; and no more prepared events are
-- unaccepted than the limit allows.
pub authorize_publication-IsAuthorized :
    (digest : Json → String) (root : Directory) (id : String) (batch : Batch)
    → authorize_publication digest root id ≡ ok batch
    → (s : Summary) × (progress digest root ≡ ok s) × IsAuthorized root id batch s
unfolding authorize_publication
authorize_publication-IsAuthorized digest root id batch h =
    let limits = root.manifest.limits in
    let all_batches = batches root.versions in
    let (s, summed, h) = >>=-eq-ok (progress digest root) _ h in
    let (found, named, h) = >>=-eq-ok (found_batch (find_batch id all_batches)) _ h in
    let (_, c1, h) = >>=-eq-ok (raise_if (is_accepted root id) already_accepted) _ h in
    let (_, c2, h) =
      >>=-eq-ok (raise_if (not (is_batch id (first_pending root all_batches))) not_the_earliest) _
        h in
    let active = ltb 0 s.active_publication_batches && not (root.journal_exists id) in
    let (_, c3, h) = >>=-eq-ok (raise_if active another_active) _ h in
    let load = s.inference_backlog_ready_events + length found.events in
    let full = ltb limits.maximum_accepted_unprocessed_events load in
    let (_, c4, h) = >>=-eq-ok (raise_if full backpressure) _ h in
    let behind = ltb limits.maximum_unpublished_ready_events s.transport_backlog_ready_events in
    let (_, c5, h) = >>=-eq-ok (raise_if behind transport_backlog) _ h in
    let (_, _, accounts) = progress-IsAccounted digest root s summed in
    let earliest =
      first_pending-IsEarliest root id all_batches
        (raise_if-not-eq-ok not_the_earliest (is_batch id (first_pending root all_batches)) c2) in
    (
      s,
      summed,
      subst (λ (b : Batch). IsAuthorized root id b s) (ok-eq h)
          (record {
            named = find_batch-id id all_batches found named;
            fresh =
                is_accepted-none root id (raise_if-eq-ok already_accepted (is_accepted root id) c1);
            earliest = earliest;
            exclusive =
                exclusive_active s.active_publication_batches (root.journal_exists id)
                  (raise_if-eq-ok another_active active c3);
            unprocessed = omega (
              arith,
              accounts.inferred,
              ltb→le limits.maximum_accepted_unprocessed_events load
                  (raise_if-eq-ok backpressure full c4),
            );
            unpublished = omega (
              arith,
              accounts.transported,
              ltb→le limits.maximum_unpublished_ready_events s.transport_backlog_ready_events
                  (raise_if-eq-ok transport_backlog behind c5),
            );
          }),
    )
