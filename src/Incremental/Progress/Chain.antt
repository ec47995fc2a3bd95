-- ===== src/Incremental/Progress/Chain.antt =====
-- The loop of `progress`: the accepted batches come first, and each acceptance begins where the
-- one before it ended.
use sentinel_aegis_forge.Common.{
  Bool, count, ℕ, ◌+◌, String, ◌≡◌, refl, sym, ap, ◌∙◌, subst, ◌⊎◌, inl, inr, true, Option, none,
  some, List, [], ◌∷◌, ◌++◌, arith, contains, if◌then◌else◌, nat_eq, string_eq, pair_eq, list_eq,
  length, All, ok, raise_if, raise_if-eq-ok, >>=-eq-ok, ok-eq, Option-cases,
}
use sentinel_aegis_forge.Common.Json.{Json, Object}
use sentinel_aegis_forge.Availability.Outbox.{ready_ids}
use sentinel_aegis_forge.Incremental.Stream.{
  Batch, Directory, Offsets, ready_id_reused, later_batch_accepted,
}
use sentinel_aegis_forge.Incremental.Acceptance.{Accepted, inspect_acceptance}
use sentinel_aegis_forge.Incremental.Progress.{
  Loop, batches, update, meets, settle, progress_step, progress_from,
}

-- The ready identities of batches, in order.
abbrev pub ids_of : List Batch → List String
ids_of [] = []
ids_of (batch ∷ rest) = ready_ids batch.events ++ ids_of rest

update-append : (xs ys zs : List String) → update xs (ys ++ zs) ≡ update (update xs ys) zs
update-append xs [] zs = refl
update-append xs (y ∷ ys) zs = update-append (if contains y xs then xs else xs ++ y ∷ []) ys zs

-- The batches after as many as the first list has.
abbrev pub left : List Batch → List Batch → List Batch
left [] bs = bs
left (_ ∷ taken) [] = []
left (_ ∷ taken) (_ ∷ bs) = left taken bs

module _ (digest : Json → String) (root : Directory) where
  -- There is no acceptance of the batch.
  abbrev pub Waits : Batch → Type 0
  Waits batch = root.acceptance batch.publication_batch_id ≡ none

  -- A publication of the batch was begun.
  abbrev pub is_begun : Batch → Bool
  is_begun batch = root.journal_exists batch.publication_batch_id

  -- From the offsets `start` the acceptances of `taken`, which are the first of the batches, lead
  -- to `finish`, and cover `physical` records; the other batches wait.
  abbrev pub Follows : Offsets → List Batch → Offsets → List Batch → ℕ → Type 0
  Follows start [] finish taken physical = (start ≡ finish) × (taken ≡ []) × (physical ≡ 0)
  Follows start (batch ∷ rest) finish taken physical =
      (All Waits (batch ∷ rest) × (start ≡ finish) × (taken ≡ []) × (physical ≡ 0))
      ⊎ ((file : Option Object) × (accepted : Accepted) × (others : List Batch) × (more : ℕ)
          × (root.acceptance batch.publication_batch_id ≡ some file)
          × (inspect_acceptance digest root batch file start ≡ ok accepted)
          × (taken ≡ batch ∷ others)
          × (physical ≡ accepted.physical_record_count + more)
          × Follows accepted.finish rest finish others more)

  -- What the loop did on `rest`.
  pub record Ran (rest : List Batch) (st next : Loop) : Type 0 where
    pub taken : List Batch
    pub more : ℕ
    pub follows : Follows st.start rest next.start taken more
    pub physical : next.physical ≡ st.physical + more
    pub accepted_batches : next.accepted_batches ≡ st.accepted_batches + length taken
    pub accepted_ids : next.accepted_ids ≡ update st.accepted_ids (ids_of taken)
    pub active : next.active_batches ≡ st.active_batches + count is_begun (left taken rest)
    pub prepared_ids : next.prepared_ids ≡ update st.prepared_ids (ids_of rest)

  -- Once a batch waits, all that follow wait.
  pub record Closed (rest : List Batch) (st next : Loop) : Type 0 where
    pub waits : All Waits rest
    pub start : next.start ≡ st.start
    pub physical : next.physical ≡ st.physical
    pub accepted_batches : next.accepted_batches ≡ st.accepted_batches
    pub accepted_ids : next.accepted_ids ≡ st.accepted_ids
    pub active : next.active_batches ≡ st.active_batches + count is_begun rest
    pub prepared_ids : next.prepared_ids ≡ update st.prepared_ids (ids_of rest)

  progress_step-settle :
      (batch : Batch) (st next : Loop)
      → progress_step digest root batch st ≡ ok next
      → settle digest root batch st
          (update st.prepared_ids (ready_ids batch.events))
          (root.acceptance batch.publication_batch_id)
        ≡ ok next
  unfolding progress_step
  progress_step-settle batch st next h =
      let (_, _, h) =
        >>=-eq-ok (raise_if (meets st.prepared_ids (ready_ids batch.events)) ready_id_reused) _ h in
      h

  settle-closed :
      (batch : Batch) (st next : Loop) (prepared : List String)
      (acceptance : Option (Option Object))
      → st.acceptance_closed ≡ true
      → settle digest root batch st prepared acceptance ≡ ok next
      → (acceptance ≡ none)
        × (next.start ≡ st.start)
        × (next.physical ≡ st.physical)
        × (next.accepted_batches ≡ st.accepted_batches)
        × (next.accepted_ids ≡ st.accepted_ids)
        × (next.prepared_ids ≡ prepared)
        × (next.acceptance_closed ≡ true)
        × (next.active_batches
            ≡ (if is_begun batch then st.active_batches + 1 else st.active_batches))
  unfolding settle
  settle-closed batch st next prepared none closed h =
      let e = sym (ok-eq h) in
      (
        refl,
        ap (λ (l : Loop). l.start) e,
        ap (λ (l : Loop). l.physical) e,
        ap (λ (l : Loop). l.accepted_batches) e,
        ap (λ (l : Loop). l.accepted_ids) e,
        ap (λ (l : Loop). l.prepared_ids) e,
        ap (λ (l : Loop). l.acceptance_closed) e,
        ap (λ (l : Loop). l.active_batches) e,
      )
  settle-closed batch st next prepared (some file) closed h =
      let (_, opened, _) = >>=-eq-ok (raise_if st.acceptance_closed later_batch_accepted) _ h in
      cc (closed, raise_if-eq-ok later_batch_accepted st.acceptance_closed opened)

  progress_from-Closed :
      (rest : List Batch) (st next : Loop)
      → st.acceptance_closed ≡ true
      → progress_from digest root rest st ≡ ok next
      → Closed rest st next
  unfolding progress_from
  progress_from-Closed [] st next closed h = subst (Closed [] st) (ok-eq h) (record {
    waits = tt;
    start = refl;
    physical = refl;
    accepted_batches = refl;
    accepted_ids = refl;
    active = omega arith;
    prepared_ids = refl;
  })
  progress_from-Closed (batch ∷ rest) st next closed h =
      let (after, one, h) = >>=-eq-ok (progress_step digest root batch st) _ h in
      let (waits, start, physical, batches, ids, prepared, still, active) =
        settle-closed batch st after _ _ closed (progress_step-settle batch st after one) in
      let c = progress_from-Closed rest after next still h in
      record {
        waits = (waits, c.waits);
        start = c.start ∙ start;
        physical = c.physical ∙ physical;
        accepted_batches = c.accepted_batches ∙ batches;
        accepted_ids = c.accepted_ids ∙ ids;
        active = ground (arith, c.active, active);
        prepared_ids =
            c.prepared_ids
            ∙ (ap (λ l. update l (ids_of rest)) prepared
                ∙ sym (update-append st.prepared_ids (ready_ids batch.events) (ids_of rest)));
      }

  -- A batch without acceptance ends the acceptances.
  Ran-Waits :
      (batch : Batch) (rest : List Batch) (st after next : Loop)
      → Waits batch
      → settle digest root batch st (update st.prepared_ids (ready_ids batch.events)) none
        ≡ ok after
      → progress_from digest root rest after ≡ ok next
      → Ran (batch ∷ rest) st next
  unfolding settle
  Ran-Waits batch rest st after next waits one h =
      let e = sym (ok-eq one) in
      let c = progress_from-Closed rest after next (ap (λ (l : Loop). l.acceptance_closed) e) h in
      record {
        taken = [];
        more = 0;
        follows = inl ((waits, c.waits), sym (c.start ∙ ap (λ (l : Loop). l.start) e), refl, refl);
        physical = omega (arith, c.physical, ap (λ (l : Loop). l.physical) e);
        accepted_batches =
            omega (arith, c.accepted_batches, ap (λ (l : Loop). l.accepted_batches) e);
        accepted_ids = c.accepted_ids ∙ ap (λ (l : Loop). l.accepted_ids) e;
        active = ground (arith, c.active, ap (λ (l : Loop). l.active_batches) e);
        prepared_ids =
            c.prepared_ids
            ∙ (ap (λ (l : Loop). update l.prepared_ids (ids_of rest)) e
                ∙ sym (update-append st.prepared_ids (ready_ids batch.events) (ids_of rest)));
      }

  Ran-taken :
      (batch : Batch) (rest : List Batch) (st after next : Loop) (file : Option Object)
      → root.acceptance batch.publication_batch_id ≡ some file
      → settle digest root batch st (update st.prepared_ids (ready_ids batch.events)) (some file)
        ≡ ok after
      → Ran rest after next
      → Ran (batch ∷ rest) st next
  unfolding settle
  Ran-taken batch rest st after next file found one ran =
      let (_, _, one) = >>=-eq-ok (raise_if st.acceptance_closed later_batch_accepted) _ one in
      let (item, seen, one) =
        >>=-eq-ok (inspect_acceptance digest root batch file st.start) _ one in
      let e = sym (ok-eq one) in
      let ids = ready_ids batch.events in
      record {
        taken = batch ∷ ran.taken;
        more = item.physical_record_count + ran.more;
        follows = inr (
          file,
          item,
          ran.taken,
          ran.more,
          found,
          seen,
          refl,
          refl,
          subst (λ o. Follows o rest next.start ran.taken ran.more) (ap (λ (l : Loop). l.start) e)
              ran.follows,
        );
        physical = omega (arith, ran.physical, ap (λ (l : Loop). l.physical) e);
        accepted_batches =
            omega (arith, ran.accepted_batches, ap (λ (l : Loop). l.accepted_batches) e);
        accepted_ids =
            ran.accepted_ids
            ∙ (ap (λ (l : Loop). update l.accepted_ids (ids_of ran.taken)) e
                ∙ sym (update-append st.accepted_ids ids (ids_of ran.taken)));
        active = omega (arith, ran.active, ap (λ (l : Loop). l.active_batches) e);
        prepared_ids =
            ran.prepared_ids
            ∙ (ap (λ (l : Loop). update l.prepared_ids (ids_of rest)) e
                ∙ sym (update-append st.prepared_ids ids (ids_of rest)));
      }

  pub progress_from-Ran :
      (rest : List Batch) (st next : Loop)
      → progress_from digest root rest st ≡ ok next
      → Ran rest st next
  unfolding progress_from
  progress_from-Ran [] st next h = subst (Ran [] st) (ok-eq h) (record {
    taken = [];
    more = 0;
    follows = (refl, refl, refl);
    physical = omega arith;
    accepted_batches = omega arith;
    accepted_ids = refl;
    active = omega arith;
    prepared_ids = refl;
  })
  progress_from-Ran (batch ∷ rest) st next h =
      let (after, one, h) = >>=-eq-ok (progress_step digest root batch st) _ h in
      let one = progress_step-settle batch st after one in
      elim (Option-cases (root.acceptance batch.publication_batch_id)) [
        | inl waits ↦ Ran-Waits batch rest st after next waits (rw waits at one) h
        | inr (file, found) ↦
            Ran-taken batch rest st after next file found (rw found at one)
              (progress_from-Ran rest after next h)
      ]
