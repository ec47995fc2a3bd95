-- ===== src/Availability/Discovery/AppendOnly.antt =====
-- The differences of a range: nothing is lost, nothing changes, every event is new exactly once.
pub mod Differences
use sentinel_aegis_forge.Common.{
  length-keys, not, ◌-◌, range, to_nat, raise_if-eq-ok, ℤ, ltb→le, ltb, raise_if, >>=-eq-ok, ok-eq,
  contains-append, length-append, All-contains, All-mono, All-append, IsNodup-append,
  All-of-contains, ap, ℕ, ◌+◌, ◌≤◌, String, ◌≡◌, refl, sym, subst, inl, inr, true, false, ◌||◌,
  Option, some, List, [], ◌∷◌, ◌++◌, arith, Bool-cases, nat_eq, string_eq, pair_eq, list_eq, length,
  All, contains, IsNodup, keys, ok,
}
use sentinel_aegis_forge.Availability.Discovery.{
  bad_range, range_ok, predecessor, discover_versions, too_many_new, read, DeltaSource,
  discover_from, Rows, FeatureSnapshot, VersionDifference, fingerprints, old_rows, new_rows_of,
  difference,
}
use sentinel_aegis_forge.Availability.Discovery.AppendOnly.Differences.{
  Keeps, contains-false, Keeps→Within, new_rows-fresh, new_rows-Within, new_rows-Nodup,
  new_rows_complete, fingerprints-Nodup, difference-Keeps,
}

-- The difference that is returned where none of the checks fails.
abbrev diff_of : ℕ → Option FeatureSnapshot → FeatureSnapshot → VersionDifference
diff_of version previous current = record {
  version = version;
  previous = previous;
  current = current;
  previous_rows = old_rows previous;
  current_rows = fingerprints current;
  new_rows = new_rows_of (old_rows previous) (fingerprints current);
}

difference-eq :
    (version : ℕ) (previous : Option FeatureSnapshot) (current : FeatureSnapshot)
    (diff : VersionDifference)
    → difference version previous current ≡ ok diff
    → diff_of version previous current ≡ diff
unfolding difference
difference-eq version previous current diff h = ground arith

-- The events that the differences announce, in order.
abbrev pub announced : List VersionDifference → List String
announced [] = []
announced (diff ∷ rest) = keys diff.new_rows ++ announced rest

abbrev pub versions_of : List VersionDifference → List ℕ
versions_of [] = []
versions_of (diff ∷ rest) = diff.version ∷ versions_of rest

-- The snapshot at the end of the differences.
abbrev pub last_rows : Rows → List VersionDifference → Rows
last_rows old [] = old
last_rows old (diff ∷ rest) = last_rows diff.current_rows rest

-- What holds of the differences that follow a snapshot.
pub record IsHistory (old : Rows) (maximum total_new : ℕ) (versions : List ℕ)
    (diffs : List VersionDifference) : Type 0 where
  pub contiguous : versions_of diffs ≡ versions
  pub append_only : All (λ d. Keeps d.previous_rows d.current_rows) diffs
  pub once : IsNodup (announced diffs)
  pub fresh : All (λ k. contains k (keys old) ≡ false) (announced diffs)
  pub complete :
      (k : String)
      → contains k (keys (last_rows old diffs)) ≡ true
      → (contains k (keys old) || contains k (announced diffs)) ≡ true
  pub bounded : total_new + length (announced diffs) ≤ maximum

module _ (version maximum total_new : ℕ) (previous : Option FeatureSnapshot)
    (current : FeatureSnapshot) (rest : List ℕ) (diffs : List VersionDifference)
    (kept : Keeps (old_rows previous) (fingerprints current))
    (later : IsHistory
      (fingerprints current)
      maximum
      (total_new + length (new_rows_of (old_rows previous) (fingerprints current)))
      rest
      diffs) where
  abbrev old : Rows
  old = old_rows previous

  abbrev now : Rows
  now = fingerprints current

  -- Later events are in no row of this version.
  later_apart : All (λ k. contains k (announced diffs) ≡ false) (keys (new_rows_of old now))
  later_apart =
      All-of-contains (λ k. contains k (announced diffs) ≡ false) (keys (new_rows_of old now))
        λ k m. elim (Bool-cases (contains k (announced diffs))) [
          | inl again ↦ cc (
            new_rows-Within old now k m,
            All-contains (λ t. contains t (keys now) ≡ false) k (announced diffs) later.fresh again,
          )
          | inr absent ↦ absent
        ]

  still_old :
      (k : String)
      → contains k (keys (last_rows now diffs)) ≡ true
      → (contains k (keys old) || contains k (keys (new_rows_of old now) ++ announced diffs)) ≡ true
  still_old k m = elim (Bool-cases (contains k (keys now))) [
    | inl there ↦ ground (
      arith,
      contains-append k (keys (new_rows_of old now)) (announced diffs),
      new_rows_complete old now k there,
    )
    | inr absent ↦ ground (
      arith,
      contains-append k (keys (new_rows_of old now)) (announced diffs),
      later.complete k m,
    )
  ]

  IsHistory-step :
      IsHistory old maximum total_new (version ∷ rest) (diff_of version previous current ∷ diffs)
  IsHistory-step = record {
    contiguous = ap (◌∷◌ version) later.contiguous;
    append_only = (kept, later.append_only);
    once =
        IsNodup-append (keys (new_rows_of old now)) (announced diffs)
          (new_rows-Nodup old now (fingerprints-Nodup current)) later.once later_apart;
    fresh =
        All-append (λ k. contains k (keys old) ≡ false) (keys (new_rows_of old now))
          (announced diffs) (new_rows-fresh old now)
          (All-mono (λ k. contains k (keys now) ≡ false) (λ k. contains k (keys old) ≡ false)
            (λ k h. contains-false k old now (Keeps→Within old now kept) h) (announced diffs)
            later.fresh);
    complete = still_old;
    bounded = omega (
      arith,
      length-append (keys (new_rows_of old now)) (announced diffs),
      length-keys (new_rows_of old now),
      later.bounded,
    );
  }

discover_from-IsHistory :
    (source : DeltaSource) (maximum : ℕ) (previous : Option FeatureSnapshot) (total_new : ℕ)
    (versions : List ℕ) (diffs : List VersionDifference)
    → total_new ≤ maximum
    → discover_from source maximum previous total_new versions ≡ ok diffs
    → IsHistory (old_rows previous) maximum total_new versions diffs
unfolding discover_from old_rows
discover_from-IsHistory source maximum previous total_new [] diffs le h =
    subst (IsHistory (old_rows previous) maximum total_new []) (ok-eq h) (record {
      contiguous = refl;
      append_only = tt;
      once = tt;
      fresh = tt;
      complete = λ k m. ground arith;
      bounded = omega arith;
    })
discover_from-IsHistory source maximum previous total_new (version ∷ rest) diffs le h =
    let (current, _, h1) = >>=-eq-ok (read source version) _ h in
    let (diff, made, h2) = >>=-eq-ok (difference version previous current) _ h1 in
    let (_, bound, h3) =
      >>=-eq-ok (raise_if (ltb maximum (total_new + length diff.new_rows)) (too_many_new maximum)) _
        h2 in
    let (later, looped, e) =
      >>=-eq-ok
        (discover_from source maximum (some current) (total_new + length diff.new_rows) rest) _
        h3 in
    let same = difference-eq version previous current diff made in
    let room = ltb→le maximum (total_new + length diff.new_rows) (
      raise_if-eq-ok (too_many_new maximum) (ltb maximum (total_new + length diff.new_rows))
        bound) in
    let follows =
      discover_from-IsHistory source maximum (some current) (total_new + length diff.new_rows) rest
        later room looped in
    subst (IsHistory (old_rows previous) maximum total_new (version ∷ rest)) (ok-eq e) (
      subst (λ d. IsHistory (old_rows previous) maximum total_new (version ∷ rest) (d ∷ later)) same
        (IsHistory-step version maximum total_new previous current rest later
          (difference-Keeps version previous current diff made)
          (subst
            (λ (d : VersionDifference).
              IsHistory (fingerprints current) maximum (total_new + length d.new_rows) rest later)
            (sym same) follows)))

-- Whenever a range is discovered: its versions are all there in order; no row of a version was
-- removed or changed by the next; every event is announced at most once, never one that the
-- version before the range had, and every event of the last version is announced or was there
-- before; and there are at most `maximum` of them.
pub discover_versions-IsHistory :
    (source : DeltaSource) (start last maximum : ℤ) (diffs : List VersionDifference)
    → discover_versions source start last maximum ≡ ok diffs
    → (previous : Option FeatureSnapshot) × (predecessor source (to_nat start) ≡ ok previous)
      × IsHistory
          (old_rows previous)
          (to_nat maximum)
          0
          (range (to_nat start) (to_nat last + 1 - to_nat start))
          diffs
unfolding discover_versions
discover_versions-IsHistory source start last maximum diffs h =
    let (_, _, h1) = >>=-eq-ok (raise_if (not (range_ok start last maximum)) bad_range) _ h in
    let (previous, found, h2) = >>=-eq-ok (predecessor source (to_nat start)) _ h1 in
    (
      previous,
      found,
      discover_from-IsHistory source (to_nat maximum) previous 0 _ diffs (omega arith) h2,
    )
