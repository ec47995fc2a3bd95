-- ===== src/Availability/Discovery/Examples.antt =====
-- Runs of the discovery, and its theorem at a concrete table.
use sentinel_aegis_forge.Common.{
  ℕ, zero, suc, ◌≡◌, refl, Option, none, some, [], ◌∷◌, nat_eq, string_eq, pair_eq, list_eq, length,
  ok, err, pos, negsuc,
}
use sentinel_aegis_forge.Availability.Discovery.{
  Rows, FeatureSnapshot, DeltaSource, VersionDifference, not_append_only, bad_range, too_many_new,
  discover_versions, predecessor, old_rows, fingerprints,
}
use sentinel_aegis_forge.Availability.Discovery.AppendOnly.{IsHistory, discover_versions-IsHistory}

abbrev snapshot : ℕ → Rows → FeatureSnapshot
snapshot version table = record {
  delta_path = "/features";
  delta_version = version;
  delta_table_id = "t";
  source_schema_fingerprint = "s";
  protocol = "p";
  row_count = length table;
  table = table;
}

abbrev rows_0 : Rows
rows_0 = ("e1", "f1") ∷ []

abbrev rows_1 : Rows
rows_1 = ("e2", "f2") ∷ ("e1", "f1") ∷ []

abbrev rows_2 : Rows
rows_2 = ("e1", "f1") ∷ ("e2", "f2") ∷ ("e3", "f3") ∷ ("e4", "f4") ∷ []

abbrev changed_rows : Rows
changed_rows = ("e1", "other") ∷ ("e2", "f2") ∷ []

versions : Rows → ℕ → Option FeatureSnapshot
versions third zero = some (snapshot 0 rows_0)
versions third (suc zero) = some (snapshot 1 rows_1)
versions third (suc (suc zero)) = some (snapshot 2 third)
versions third _ = none

abbrev source : Rows → DeltaSource
source third = record { row_total = λ v. some 4; snapshot = versions third }

abbrev diff_1 : VersionDifference
diff_1 = record {
  version = 1;
  previous = some (snapshot 0 rows_0);
  current = snapshot 1 rows_1;
  previous_rows = rows_0;
  current_rows = rows_1;
  new_rows = ("e2", "f2") ∷ [];
}

abbrev diff_2 : VersionDifference
diff_2 = record {
  version = 2;
  previous = some (snapshot 1 rows_1);
  current = snapshot 2 rows_2;
  previous_rows = rows_1;
  current_rows = rows_2;
  new_rows = ("e3", "f3") ∷ ("e4", "f4") ∷ [];
}

discover-versions :
    discover_versions (source rows_2) (pos 1) (pos 2) (pos 3) ≡ ok (diff_1 ∷ diff_2 ∷ [])
unfolding discover_versions fingerprints versions
discover-versions = refl

changed_row :
    discover_versions (source changed_rows) (pos 1) (pos 2) (pos 3) ≡ err (not_append_only 2)
unfolding discover_versions fingerprints versions
changed_row = refl

too_many : discover_versions (source rows_2) (pos 0) (pos 2) (pos 3) ≡ err (too_many_new 3)
unfolding discover_versions fingerprints versions
too_many = refl

negative_start : discover_versions (source rows_2) (negsuc 0) (pos 2) (pos 3) ≡ err bad_range
unfolding discover_versions
negative_start = refl

discover_versions-IsHistory_example :
    (previous : Option FeatureSnapshot) × (predecessor (source rows_2) 1 ≡ ok previous)
    × IsHistory (old_rows previous) 3 0 (1 ∷ 2 ∷ []) (diff_1 ∷ diff_2 ∷ [])
discover_versions-IsHistory_example =
    discover_versions-IsHistory (source rows_2) (pos 1) (pos 2) (pos 3) (diff_1 ∷ diff_2 ∷ [])
      discover-versions
