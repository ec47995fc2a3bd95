-- ===== src/Availability/Discovery/AppendOnly/Differences.antt =====
-- The checks on two successive versions, and the rows that the second one adds.
use sentinel_aegis_forge.Common.{
  ℕ, String, ◌≡◌, sym, subst, ◌≢◌, inl, inr, true, false, ◌||◌, Option, none, some, List, [], ◌∷◌,
  arith, eq_iff, Bool-cases, Option-cases, nat_eq, string_eq, pair_eq, list_eq, All, contains,
  IsNodup, lookup, insert, keys, IsNodup-keys-insert, ok,
}
use sentinel_aegis_forge.Availability.Discovery.{
  Rows, FeatureSnapshot, VersionDifference, rows_from, fingerprints, old_rows, has_missing,
  has_changed, new_rows_of, difference,
}

-- Every key of the first is a key of the second.
abbrev pub Within : Rows → Rows → Type 0
Within old now = (k : String) → contains k (keys old) ≡ true → contains k (keys now) ≡ true

-- Every entry of the first is in the second, unchanged.
abbrev pub Keeps : Rows → Rows → Type 0
Keeps old now = All (λ e. lookup e.0 now ≡ some e.1) old

pub contains-false :
    (k : String) (old now : Rows)
    → Within old now
    → contains k (keys now) ≡ false
    → contains k (keys old) ≡ false
contains-false k old now w h = elim (Bool-cases (contains k (keys old))) [
  | inl there ↦ cc (w k there)
  | inr absent ↦ absent
]

lookup-contains : (k v : String) (d : Rows) → lookup k d ≡ some v → contains k (keys d) ≡ true
lookup-contains k v [] h = cc
lookup-contains k v ((j, w) ∷ d) h = ground (arith, lookup-contains k v d)

contains-lookup : (k : String) (d : Rows) → contains k (keys d) ≡ true → lookup k d ≢ none
contains-lookup k [] h = cc
contains-lookup k ((j, w) ∷ d) h = ground (arith, contains-lookup k d)

pub Keeps→Within : (old now : Rows) → Keeps old now → Within old now
Keeps→Within [] now h k m = cc
Keeps→Within ((j, v) ∷ old) now h k m = elim (Bool-cases (string_eq.same k j)) [
  | inl same ↦
      subst (λ t. contains t (keys now) ≡ true) (sym ((eq_iff k j).0 same))
        (lookup-contains j v now h.0)
  | inr other ↦ Keeps→Within old now h.1 k (rw other at m)
]

checked-Keeps :
    (old now : Rows) → (has_missing old now || has_changed old now) ≡ false → Keeps old now
unfolding has_missing has_changed
checked-Keeps [] now h = tt
checked-Keeps ((j, v) ∷ old) now h = elim (Option-cases (lookup j now)) [
  | inl gone ↦ absurd (ground (arith, contains-lookup j now))
  | inr (w, found) ↦ (ground (arith, eq_iff v w), checked-Keeps old now (ground arith))
]

pub new_rows-fresh :
    (old now : Rows) → All (λ k. contains k (keys old) ≡ false) (keys (new_rows_of old now))
unfolding new_rows_of
new_rows-fresh old [] = tt
new_rows-fresh old ((k, v) ∷ now) = elim (Bool-cases (contains k (keys old))) [
  | inl there ↦ rw there (new_rows-fresh old now)
  | inr absent ↦ rw absent (absent, new_rows-fresh old now)
]

pub new_rows-Within : (old now : Rows) → Within (new_rows_of old now) now
unfolding new_rows_of
new_rows-Within old [] k h = h
new_rows-Within old ((j, v) ∷ now) k h = ground (arith, new_rows-Within old now k)

pub new_rows-Nodup : (old now : Rows) → IsNodup (keys now) → IsNodup (keys (new_rows_of old now))
unfolding new_rows_of
new_rows-Nodup old [] h = tt
new_rows-Nodup old ((k, v) ∷ now) h = elim (Bool-cases (contains k (keys old))) [
  | inl there ↦ rw there (new_rows-Nodup old now h.1)
  | inr absent ↦ rw absent (
    contains-false k (new_rows_of old now) now (new_rows-Within old now) h.0,
    new_rows-Nodup old now h.1,
  )
]

-- Every current event is old or new.
pub new_rows_complete :
    (old now : Rows) (k : String)
    → contains k (keys now) ≡ true
    → (contains k (keys old) || contains k (keys (new_rows_of old now))) ≡ true
unfolding new_rows_of
new_rows_complete old [] k h = cc
new_rows_complete old ((j, v) ∷ now) k h = elim (Bool-cases (string_eq.same k j)) [
  | inl same ↦
      subst
        (λ t. (contains t (keys old) || contains t (keys (new_rows_of old ((j, v) ∷ now)))) ≡ true)
        (sym ((eq_iff k j).0 same)) (ground (arith, eq_iff j j))
  | inr other ↦ ground (arith, new_rows_complete old now k)
]

pub fingerprints-Nodup : (snapshot : FeatureSnapshot) → IsNodup (keys (fingerprints snapshot))
unfolding fingerprints
fingerprints-Nodup snapshot = from [] snapshot.table tt
  where
    from :
        (d : Rows) (rows : List (String × String))
        → IsNodup (keys d)
        → IsNodup (keys (rows_from d rows))
    from d [] h = h
    from d ((k, v) ∷ rows) h = from (insert k v d) rows (IsNodup-keys-insert k v d h)

pub difference-Keeps :
    (version : ℕ) (previous : Option FeatureSnapshot) (current : FeatureSnapshot)
    (diff : VersionDifference)
    → difference version previous current ≡ ok diff
    → Keeps (old_rows previous) (fingerprints current)
unfolding difference
difference-Keeps version previous current diff h =
    checked-Keeps (old_rows previous) (fingerprints current) (ground arith)
