-- ===== src/Availability/Discovery.antt =====
-- availability/discovery.py: first-visible events of a range of Delta versions. The Delta table is
-- read by the `deltalake` library: it is a parameter, and a row is its event with the fingerprint
-- that `row_fingerprint` gives it.
pub mod AppendOnly
mod Examples
use sentinel_aegis_forge.Common.{
  range, ℕ, zero, suc, ◌+◌, ◌-◌, String, Bool, true, false, not, ◌&&◌, ◌||◌, Option, none, some,
  List, [], ◌∷◌, arith, ltb, leb, if◌then◌else◌, ◌==◌, nat_eq, string_eq, pair_eq, list_eq, length,
  contains, Dict, lookup, insert, keys, Result, ok, err, ◌>>=◌, ◌>>◌, raise_if, ℤ, pos, in_range,
  to_nat,
}
use sentinel_aegis_forge.Availability.Contract.{max_ready_events}

abbrev pub max_versions : ℕ
max_versions = 64

-- event and fingerprint
abbrev pub Rows : Type 0
Rows = Dict String String

pub record FeatureSnapshot : Type 0 where
  pub delta_path : String
  pub delta_version : ℕ
  pub delta_table_id : String
  pub source_schema_fingerprint : String
  pub protocol : String
  pub row_count : ℕ
  pub table : List (String × String)

pub data DiscoveryError : Type 0 where
  bad_range missing_predecessor predecessor_too_large : DiscoveryError
  unverifiable row_limit substituted identity_changed not_append_only too_many_new :
      ℕ → DiscoveryError

-- What the library answers for a version: a row count and a snapshot, or an error.
pub record DeltaSource : Type 0 where
  pub row_total : ℕ → Option ℕ
  pub snapshot : ℕ → Option FeatureSnapshot

pub record VersionDifference : Type 0 where
  pub version : ℕ
  pub previous : Option FeatureSnapshot
  pub current : FeatureSnapshot
  pub previous_rows : Rows
  pub current_rows : Rows
  pub new_rows : Rows

-- the dictionary comprehension of `_fingerprints`: a later row replaces an earlier one
rows_from : Rows → List (String × String) → Rows
rows_from d [] = d
rows_from d ((event_id, fingerprint) ∷ rest) = rows_from (insert event_id fingerprint d) rest

unfoldable pub fingerprints : FeatureSnapshot → Rows
unfolding rows_from
fingerprints snapshot = rows_from [] snapshot.table

verifiable : {A : Type 0} → ℕ → Option A → Result DiscoveryError A
verifiable version none = err (unverifiable version)
verifiable version (some a) = ok a

-- `_read`
unfoldable pub read : DeltaSource → ℕ → Result DiscoveryError FeatureSnapshot
unfolding verifiable
read source version = do
  total ← verifiable version (source.row_total version)
  raise_if (ltb max_ready_events total) (row_limit version)
  verifiable version (source.snapshot version)

pub old_rows : Option FeatureSnapshot → Rows
old_rows none = []
old_rows (some previous) = fingerprints previous

same_identity : Option FeatureSnapshot → FeatureSnapshot → Bool
same_identity none current = true
same_identity (some previous) current =
    previous.delta_table_id == current.delta_table_id
    && (previous.source_schema_fingerprint == current.source_schema_fingerprint
        && previous.protocol == current.protocol)

-- `missing`: an old event is not there
unfoldable pub has_missing : Rows → Rows → Bool
has_missing [] now = false
has_missing ((event_id, _) ∷ old) now = not (contains event_id (keys now)) || has_missing old now

differs : String → Option String → Bool
differs fingerprint none = false
differs fingerprint (some now) = not (fingerprint == now)

-- `changed`: an event in both has another fingerprint
unfoldable pub has_changed : Rows → Rows → Bool
unfolding differs
has_changed [] now = false
has_changed ((event_id, fingerprint) ∷ old) now =
    differs fingerprint (lookup event_id now) || has_changed old now

-- `{event_id: now[event_id] for event_id in now.keys() - old.keys()}`
unfoldable pub new_rows_of : Rows → Rows → Rows
new_rows_of old [] = []
new_rows_of old ((event_id, fingerprint) ∷ now) =
    if contains event_id (keys old)
    then new_rows_of old now
    else (event_id, fingerprint) ∷ new_rows_of old now

-- the body of the loop on a snapshot that was read, up to the count of new events
unfoldable pub difference :
    ℕ → Option FeatureSnapshot → FeatureSnapshot → Result DiscoveryError VersionDifference
unfolding old_rows same_identity has_missing has_changed new_rows_of
difference version previous current = do
  raise_if (not (current.delta_version == version)) (substituted version)
  raise_if (ltb max_ready_events current.row_count) (row_limit version)
  raise_if (not (same_identity previous current)) (identity_changed version)
  let old = old_rows previous
  let now = fingerprints current
  raise_if (has_missing old now || has_changed old now) (not_append_only version)
  ok (record {
    version = version;
    previous = previous;
    current = current;
    previous_rows = old;
    current_rows = now;
    new_rows = new_rows_of old now;
  })

-- the loop: `total_new` is the count before the versions that are left
discover_from :
    DeltaSource
    → ℕ
    → Option FeatureSnapshot
    → ℕ
    → List ℕ
    → Result DiscoveryError (List VersionDifference)
unfolding read difference
discover_from source maximum previous total_new [] = ok []
discover_from source maximum previous total_new (version ∷ rest) = do
  current ← read source version
  diff ← difference version previous current
  raise_if (ltb maximum (total_new + length diff.new_rows)) (too_many_new maximum)
  later ← discover_from source maximum (some current) (total_new + length diff.new_rows) rest
  ok (diff ∷ later)

-- the snapshot before the range
pub predecessor : DeltaSource → ℕ → Result DiscoveryError (Option FeatureSnapshot)
unfolding read
predecessor source zero = ok none
predecessor source (suc before) = do
  previous ← read source before
  raise_if (not (previous.delta_version == before)) missing_predecessor
  raise_if (ltb max_ready_events previous.row_count) predecessor_too_large
  ok (some previous)

-- the guard on `start`, `end` and `maximum`
range_ok : ℤ → ℤ → ℤ → Bool
range_ok (pos start) (pos last) maximum =
    leb start last && (in_range 1 max_ready_events maximum && leb (last + 1 - start) max_versions)
range_ok _ _ maximum = false

unfoldable pub discover_versions :
    DeltaSource → ℤ → ℤ → ℤ → Result DiscoveryError (List VersionDifference)
unfolding range_ok predecessor discover_from
discover_versions source start last maximum = do
  raise_if (not (range_ok start last maximum)) bad_range
  previous ← predecessor source (to_nat start)
  discover_from source (to_nat maximum) previous 0
      (range (to_nat start) (to_nat last + 1 - to_nat start))
