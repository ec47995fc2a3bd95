-- ===== src/Incremental/Progress/Apart.antt =====
-- The loop of `progress`: no ready identity comes twice.
use sentinel_aegis_forge.Common.{
  String, ◌≡◌, refl, sym, ap, ◌∙◌, inl, inr, true, Option, none, some, List, [], ◌∷◌, arith, false,
  any, eq_iff, Bool-cases, or-eq-false, contains-append, ◌==◌, contains, nat_eq, string_eq, pair_eq,
  list_eq, ok, raise_if, raise_if-eq-ok, >>=-eq-ok, ok-eq,
}
use sentinel_aegis_forge.Common.Json.{Json, Object}
use sentinel_aegis_forge.Availability.Outbox.{ready_ids}
use sentinel_aegis_forge.Incremental.Stream.{
  Batch, Directory, starting_offsets, ready_id_reused, later_batch_accepted,
}
use sentinel_aegis_forge.Incremental.Acceptance.{inspect_acceptance}
use sentinel_aegis_forge.Incremental.Progress.Sets.{contains-update}
use sentinel_aegis_forge.Incremental.Progress.{
  Loop, Summary, batches, first_loop, progress, update, meets, settle, progress_step, progress_from,
}
use sentinel_aegis_forge.Incremental.Progress.Chain.{ids_of}

-- No ready identity is in two batches.
abbrev pub Apart : List Batch → Type 0
Apart [] = Unit
Apart (batch ∷ rest) =
    ((k : String) → contains k (ready_ids batch.events) ≡ true → contains k (ids_of rest) ≡ false)
    × Apart rest

meets-false :
    (xs ys : List String)
    → meets xs ys ≡ false
    → (k : String) → contains k xs ≡ true
    → contains k ys ≡ false
meets-false xs ys h k m = all_false xs h m
  where
    all_false :
        (l : List String)
        → any (λ x. contains x ys) l ≡ false
        → contains k l ≡ true
        → contains k ys ≡ false
    all_false [] h m = cc
    all_false (x ∷ l) h m = elim (Bool-cases (k == x)) [
      | inl q ↦ ap (λ t. contains t ys) ((eq_iff k x).0 q) ∙ (or-eq-false (contains x ys) _ h).0
      | inr q ↦ all_false l (or-eq-false (contains x ys) _ h).1 (rw q at m)
    ]

module _ (digest : Json → String) (root : Directory) where
  settle-prepared :
      (batch : Batch) (st next : Loop) (prepared : List String)
      (acceptance : Option (Option Object))
      → settle digest root batch st prepared acceptance ≡ ok next
      → next.prepared_ids ≡ prepared
  unfolding settle
  settle-prepared batch st next prepared none h = ap (λ (l : Loop). l.prepared_ids) (sym (ok-eq h))
  settle-prepared batch st next prepared (some file) h =
      let (_, _, h) = >>=-eq-ok (raise_if st.acceptance_closed later_batch_accepted) _ h in
      let (_, _, h) = >>=-eq-ok (inspect_acceptance digest root batch file st.start) _ h in
      ap (λ (l : Loop). l.prepared_ids) (sym (ok-eq h))

  -- No ready identity is in two batches, or was prepared before.
  progress_from-Apart :
      (rest : List Batch) (st next : Loop)
      → progress_from digest root rest st ≡ ok next
      → ((k : String) → contains k st.prepared_ids ≡ true → contains k (ids_of rest) ≡ false)
        × Apart rest
  unfolding progress_from progress_step
  progress_from-Apart [] st next h = (λ k m. refl, tt)
  progress_from-Apart (batch ∷ rest) st next h =
      let ids = ready_ids batch.events in
      let (after, one, h) = >>=-eq-ok (progress_step digest root batch st) _ h in
      let (_, new, one) = >>=-eq-ok (raise_if (meets st.prepared_ids ids) ready_id_reused) _ one in
      let prepared = settle-prepared batch st after _ _ one in
      let (fresh, apart) = progress_from-Apart rest after next h in
      let fresh : (k : String)
          → contains k (update st.prepared_ids ids) ≡ true
          → contains k (ids_of rest) ≡ false =
        λ k m. fresh k (ap (contains k) prepared ∙ m) in
      let unmet =
        meets-false st.prepared_ids ids
          (raise_if-eq-ok ready_id_reused (meets st.prepared_ids ids) new) in
      (
        λ k m. ground (
          arith,
          contains-append k ids (ids_of rest),
          contains-update k st.prepared_ids ids,
          unmet k,
          fresh k,
        ),
        (λ k m. ground (arith, contains-update k st.prepared_ids ids, fresh k), apart),
      )

  pub progress-Apart : (s : Summary) → progress digest root ≡ ok s → Apart (batches root.versions)
  unfolding progress
  progress-Apart s h =
      let (start, _, h) = >>=-eq-ok (starting_offsets root) _ h in
      let (st, looped, h) =
        >>=-eq-ok (progress_from digest root (batches root.versions) (first_loop start)) _ h in
      (progress_from-Apart (batches root.versions) (first_loop start) st looped).1
