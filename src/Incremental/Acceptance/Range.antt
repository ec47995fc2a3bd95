-- ===== src/Incremental/Acceptance/Range.antt =====
-- An accepted batch moves the offsets by as many records as it counts.
use sentinel_aegis_forge.Common.{
  range, and-eq-true, ℕ, zero, suc, ◌+◌, ◌-◌, String, ◌≡◌, refl, ◌∙◌, subst, Bool, true, false, not,
  ◌&&◌, ◌||◌, Option, List, [], ◌∷◌, ◌++◌, arith, leb, leb→le, nat_eq, string_eq, pair_eq, list_eq,
  length, length-append, same_set, keys, ok, raise_if, raise_if-eq-ok, raise_if-not-eq-ok,
  >>=-eq-ok, ok-eq,
}
use sentinel_aegis_forge.Common.Json.{Json, num, Object, has_value, has_values, same_object}
use sentinel_aegis_forge.Incremental.Stream.{
  Batch, Directory, Offsets, offsets, read_object, same_offsets, not_before, coordinates_of,
  coordinates, events_by_id, acceptance_identity, acceptance_fields, skips_or_overlaps,
  receipt_root, receipt_inventory, range_not_reconciled, journal_changed,
  acknowledgements_incomplete,
}
use sentinel_aegis_forge.Incremental.Acceptance.{
  Accepted, inspect_acceptance, expected_acceptance, expected_identity, expected_journal,
  acceptance_names, stems, seen_ids, observe_all, check_receipts, check_acknowledgements,
}

abbrev pub total : Offsets → ℕ
total o = o.part_0 + (o.part_1 + o.part_2)

length-range : (start n : ℕ) → length (range start n) ≡ n
length-range start zero = refl
length-range start (suc n) = omega (arith, length-range (start + 1) n)

length-coordinates_of : (part : ℕ) (l : List ℕ) → length (coordinates_of part l) ≡ length l
length-coordinates_of part [] = refl
length-coordinates_of part (o ∷ l) = omega (arith, length-coordinates_of part l)

length-part :
    (part start finish : ℕ)
    → length (coordinates_of part (range start (finish - start))) ≡ finish - start
length-part part start finish =
    length-coordinates_of part (range start (finish - start)) ∙ length-range start (finish - start)

length-coordinates :
    (start finish : Offsets)
    → not_before start finish ≡ true
    → total start + length (coordinates start finish) ≡ total finish
length-coordinates start finish h =
    let (h0, h) = and-eq-true (leb start.part_0 finish.part_0) _ h in
    let (h1, h2) = and-eq-true (leb start.part_1 finish.part_1) _ h in
    let a = coordinates_of 0 (range start.part_0 (finish.part_0 - start.part_0)) in
    let b = coordinates_of 1 (range start.part_1 (finish.part_1 - start.part_1)) in
    let c = coordinates_of 2 (range start.part_2 (finish.part_2 - start.part_2)) in
    omega (
      arith,
      leb→le _ _ h0,
      leb→le _ _ h1,
      leb→le _ _ h2,
      length-append a (b ++ c),
      length-append b c,
      length-part 0 start.part_0 finish.part_0,
      length-part 1 start.part_1 finish.part_1,
      length-part 2 start.part_2 finish.part_2,
    )

-- The offsets only grow, by the number of records of the batch, and all its events were
-- acknowledged.
pub record Moves (root : Directory) (batch : Batch) (start : Offsets) (accepted : Accepted)
    : Type 0 where
  pub ordered : not_before start accepted.finish ≡ true
  pub counted : total start + accepted.physical_record_count ≡ total accepted.finish
  pub acknowledged :
      same_set
        (stems (root.acknowledgements batch.publication_batch_id))
        (keys (events_by_id [] batch.events))
      ≡ true

pub inspect_acceptance-Moves :
    (digest : Json → String) (root : Directory) (batch : Batch) (file : Option Object)
    (start : Offsets) (accepted : Accepted)
    → inspect_acceptance digest root batch file start ≡ ok accepted
    → Moves root batch start accepted
unfolding inspect_acceptance
inspect_acceptance-Moves digest root batch file start accepted h =
    let manifest = root.manifest in
    let id = batch.publication_batch_id in
    let by_id = events_by_id [] batch.events in
    let (item, _, h) = >>=-eq-ok (read_object file) _ h in
    let (_, _, h) =
      >>=-eq-ok
        (raise_if (not (has_values item (expected_acceptance manifest batch))) acceptance_identity)
        _ h in
    let (_, _, h) =
      >>=-eq-ok (raise_if (not (same_set (keys item) acceptance_names)) acceptance_fields) _ h in
    let (actual, _, h) = >>=-eq-ok (offsets item "start") _ h in
    let (finish, _, h) = >>=-eq-ok (offsets item "end") _ h in
    let (_, moved, h) =
      >>=-eq-ok
        (raise_if (not (same_offsets actual start) || not (not_before start finish))
          skips_or_overlaps)
        _ h in
    let (identity, _, h) = >>=-eq-ok (read_object (root.receiver_identity id)) _ h in
    let (_, _, h) =
      >>=-eq-ok
        (raise_if (not (same_object identity (expected_identity manifest batch))) receipt_root) _
        h in
    let (_, _, h) =
      >>=-eq-ok
        (raise_if (not (same_set (stems (root.receipts id)) (keys by_id))) receipt_inventory) _ h in
    let (observed, _, h) =
      >>=-eq-ok (observe_all digest manifest by_id start finish (root.observations id) []) _ h in
    let (_, _, h) =
      >>=-eq-ok
        (raise_if
          (not (
            same_set (keys observed) (coordinates start finish)
            && (same_set (seen_ids observed) (keys by_id)
                && has_value "physical_record_count" (num (length (coordinates start finish)))
                    item)))
          range_not_reconciled)
        _ h in
    let (_, _, h) =
      >>=-eq-ok (check_receipts digest manifest batch by_id observed (root.receipts id)) _ h in
    let (journal, _, h) = >>=-eq-ok (read_object (root.journal_identity id)) _ h in
    let (_, _, h) =
      >>=-eq-ok
        (raise_if (not (has_values journal (expected_journal manifest batch))) journal_changed) _
        h in
    let (_, complete, h) =
      >>=-eq-ok
        (raise_if (not (same_set (stems (root.acknowledgements id)) (keys by_id)))
          acknowledgements_incomplete)
        _ h in
    let (_, _, h) =
      >>=-eq-ok (check_acknowledgements digest manifest by_id observed (root.acknowledgements id)) _
        h in
    let ordered =
      or-false-right (same_offsets actual start) (not_before start finish)
        (raise_if-eq-ok skips_or_overlaps _ moved) in
    subst (Moves root batch start) (ok-eq h) (record {
      ordered = ordered;
      counted = length-coordinates start finish ordered;
      acknowledged = raise_if-not-eq-ok acknowledgements_incomplete _ complete;
    })
  where
    or-false-right : (a b : Bool) → (not a || not b) ≡ false → b ≡ true
    or-false-right true true h = refl
    or-false-right true false h = cc
    or-false-right false b h = cc
