-- ===== src/Incremental/Records/Gapless.antt =====
-- The records of a stream have no gap, and no ready event is in two of them.
use sentinel_aegis_forge.Common.{
  range, raise_if-not-eq-ok, and-eq-true, ℕ, String, ◌≡◌, ap, ◌∙◌, subst, true, false, not, ◌&&◌,
  Option, none, some, List, [], ◌∷◌, ◌==◌, nat_eq, string_eq, pair_eq, list_eq, list_beq_iff,
  length, same_set, keys, Never, ok, raise_if, raise_if-eq-ok, >>=-eq-ok, ok-eq, sort, length-sort,
}
use sentinel_aegis_forge.Common.Json.{num, text, Object, has_value}
use sentinel_aegis_forge.Availability.Outbox.{ReadyEvent, ready_ids}
use sentinel_aegis_forge.Incremental.Progress.{meets, update}
use sentinel_aegis_forge.Incremental.Records.{
  contract, VersionFile, Pinned, by_version, versions_of, record_names, readable, segment_ok,
  check_batch, check_file, records_from, records, version_gap, linked, invalid_record,
  segment_differs, duplicate_identity,
}

-- The record of a file names its version and counts its ready events, none of which is old.
abbrev pub Sound : List String → VersionFile → Object × List ReadyEvent → Type 0
Sound all_ids file (item, ready) =
    (file.content ≡ some item)
    × (has_value "delta_version" (num file.version) item ≡ true)
    × (has_value "ready_event_count" (num (length ready)) item ≡ true)
    × (meets (ready_ids ready) all_ids ≡ false)

readable-eq :
    {A : Type 0} (version : ℕ) (o : Option A) (a : A) → readable version o ≡ ok a → o ≡ some a
unfolding readable
readable-eq version (some b) a h = ap some (ok-eq h)
readable-eq version none a h = cc

check_file-Sound :
    (pinned : Pinned) (all_ids : List String) (file : VersionFile) (out : Object × List ReadyEvent)
    → check_file pinned all_ids file ≡ ok out
    → Sound all_ids file out
unfolding check_file
check_file-Sound pinned all_ids file out h =
    let v = file.version in
    let (_, _, h) = >>=-eq-ok (raise_if (not file.is_plain) (linked v)) _ h in
    let (item, content, h) = >>=-eq-ok (readable v file.content) _ h in
    let valid =
      same_set (keys item) record_names
      && (has_value "contract_version" (text contract) item
          && has_value "delta_version" (num v) item) in
    let (_, c1, h) = >>=-eq-ok (raise_if (not valid) (invalid_record v)) _ h in
    let (both, _, h) = >>=-eq-ok (readable v file.segment) _ h in
    let good = segment_ok pinned v item both.0 both.1 in
    let (_, c2, h) = >>=-eq-ok (raise_if (not good) (segment_differs v)) _ h in
    let old = meets (ready_ids both.1) all_ids in
    let (_, c3, h) = >>=-eq-ok (raise_if old (duplicate_identity v)) _ h in
    let (_, _, h) = >>=-eq-ok (check_batch file item both.0 both.1) _ h in
    let (_, valid') =
      and-eq-true (same_set (keys item) record_names) _
        (raise_if-not-eq-ok (invalid_record v) valid c1) in
    let (_, named) = and-eq-true (has_value "contract_version" (text contract) item) _ valid' in
    let (_, g) =
      and-eq-true (both.0.source_delta_table_id == pinned.source_delta_table_id) _
        (raise_if-not-eq-ok (segment_differs v) good c2) in
    let (_, g) =
      and-eq-true (both.0.source_schema_fingerprint == pinned.source_schema_fingerprint) _ g in
    let (_, g) = and-eq-true (both.0.source_delta_version == v) _ g in
    let (_, counted) = and-eq-true (has_value "segment_id" (text both.0.segment_id) item) _ g in
    subst (Sound all_ids file) (ok-eq h) (
      readable-eq v file.content item content,
      named,
      counted,
      raise_if-eq-ok (duplicate_identity v) old c3,
    )

-- File by file, with the identities of the earlier ones.
abbrev pub Follow : List String → List VersionFile → List (Object × List ReadyEvent) → Type 0
Follow all_ids [] [] = Unit
Follow all_ids (file ∷ files) (out ∷ outs) =
    Sound all_ids file out × Follow (update all_ids (ready_ids out.1)) files outs
Follow all_ids _ _ = Never

records_from-Follow :
    (pinned : Pinned) (all_ids : List String) (files : List VersionFile)
    (outs : List (Object × List ReadyEvent))
    → records_from pinned all_ids files ≡ ok outs
    → Follow all_ids files outs
unfolding records_from
records_from-Follow pinned all_ids [] outs h = subst (Follow all_ids []) (ok-eq h) tt
records_from-Follow pinned all_ids (file ∷ files) outs h =
    let (out, one, h) = >>=-eq-ok (check_file pinned all_ids file) _ h in
    let ids = update all_ids (ready_ids out.1) in
    let (later, looped, h) = >>=-eq-ok (records_from pinned ids files) _ h in
    subst (Follow all_ids (file ∷ files)) (ok-eq h) (
      check_file-Sound pinned all_ids file out one,
      records_from-Follow pinned ids files later looped,
    )

-- Where the records of a stream are returned, the versions of its files follow one another from
-- the first one of the stream without a gap, and each record, in that order, is the content of its
-- file, names its version, counts its ready events and has none of an earlier record.
pub records-Follow :
    (pinned : Pinned) (files : List VersionFile) (outs : List (Object × List ReadyEvent))
    → records pinned files ≡ ok outs
    → (versions_of (sort by_version files) ≡ range pinned.first_delta_version (length files))
      × Follow [] (sort by_version files) outs
unfolding records
records-Follow pinned files outs h =
    let paths = sort by_version files in
    let expected = range pinned.first_delta_version (length paths) in
    let (_, checked, h) =
      >>=-eq-ok (raise_if (not (versions_of paths == expected)) version_gap) _ h in
    (
      (list_beq_iff (versions_of paths) expected).0
            (raise_if-not-eq-ok version_gap (versions_of paths == expected) checked)
          ∙ ap (range pinned.first_delta_version) (length-sort by_version files),
      records_from-Follow pinned [] paths outs h,
    )
