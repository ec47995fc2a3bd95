-- ===== src/Feedback/Ingestion/Resolvable.antt =====
-- `_validate` and `resolve_feedback` ask the same of a case, on differently ordered records.
use sentinel_aegis_forge.Common.{
  ℕ, String, ◌≡◌, refl, sym, ap, ◌∙◌, subst, inl, inr, Bool, true, not, some, List, [], ◌∷◌, map,
  arith, leb, ltb, Bool-cases, ◌==◌, nat_eq, nat_beq_iff, string_eq, pair_eq, list_eq, all, All,
  All-mono, All-lookup, IsNodup, Dict, some-eq, length, to_set, to_set_singleton, range, ok, ok-eq,
  raise_if, raise_if-not-eq-ok, >>=-eq-ok, sort, sort-same, sort_swap, sort_cons, length-sort,
  list_beq_iff,
}
use sentinel_aegis_forge.Datasets.Time.{Instant, Datetime, require_utc}
use sentinel_aegis_forge.Feedback.Contract.{FeedbackRecord}
use sentinel_aegis_forge.Feedback.Ingestion.{
  Universe, start, order_leb, ingest_all, check_cases, values, validate, noncontiguous,
  case_changes_event,
}
use sentinel_aegis_forge.Feedback.Ingestion.Accepted.{Inv-start, Inv-ingest_all}
use sentinel_aegis_forge.Feedback.Resolution.{
  CaseKey, Cases, case_of, ResolvedFeedback, revisions, event_ids_of, revision_leb, group_cases,
  resolve_feedback,
}
use sentinel_aegis_forge.Feedback.Resolution.Grouped.{
  records_of, found, lookup-group_cases, group_cases-lookup,
}
use sentinel_aegis_forge.Feedback.Resolution.Returns.{
  is_about, IsWhole, revisions-sort, all-sort, resolve_feedback-returns,
}

-- A list whose set of event ids has one element is not empty, and is about one event.
one_event :
    (items : List FeedbackRecord)
    → length (to_set (event_ids_of items)) ≡ 1
    → (id : String) × (all (is_about id) items ≡ true) × (ltb 0 (length items) ≡ true)
one_event [] h = absurd (omega arith)
one_event (first ∷ rest) h =
    let same =
      to_set_singleton first.event_id (event_ids_of (first ∷ rest))
        (rw ((string_eq.same_iff first.event_id first.event_id).1 refl)) h in
    (first.event_id, all_about (first ∷ rest) same, ground arith)
  where
    all_about :
        (l : List FeedbackRecord)
        → All (λ z. z ≡ first.event_id) (event_ids_of l)
        → all (is_about first.event_id) l ≡ true
    all_about [] h = refl
    all_about (x ∷ l) h =
        rw ((string_eq.same_iff x.event_id first.event_id).1 h.0) (all_about l h.1)

check_cases-IsWhole :
    (cases : Cases) {u : Unit {0}}
    → check_cases cases ≡ ok u
    → All (λ (p : CaseKey × List FeedbackRecord). IsWhole p.1) cases
unfolding check_cases
check_cases-IsWhole [] h = tt
check_cases-IsWhole ((key, history) ∷ rest) h =
    let ordered = sort revision_leb history in
    let (_, contiguous, h) =
      >>=-eq-ok (raise_if (not (revisions ordered == range 1 (length ordered))) (noncontiguous key))
        _ h in
    let (_, one, h) =
      >>=-eq-ok
        (raise_if (not (length (to_set (event_ids_of ordered)) == 1)) (case_changes_event key)) _
        h in
    let contiguous = (list_beq_iff _ _).0 (raise_if-not-eq-ok (noncontiguous key) _ contiguous) in
    let one = (nat_beq_iff _ _).0 (raise_if-not-eq-ok (case_changes_event key) _ one) in
    let (id, same, inhabited) = one_event ordered one in
    (
      record {
        counted =
            sym (revisions-sort history)
            ∙ (contiguous ∙ ap (range 1) (length-sort revision_leb history));
        event = id;
        same_event = sym (all-sort (is_about id) revision_leb history) ∙ same;
        inhabited = subst (λ n. ltb 0 n ≡ true) (length-sort revision_leb history) inhabited;
      },
      check_cases-IsWhole rest h,
    )

-- What sorting of the ledger leaves of a case.
module _ (key : CaseKey) (le : FeedbackRecord → FeedbackRecord → Bool) where
  abbrev numbers : List FeedbackRecord → List ℕ
  numbers xs = sort leb (map (λ r. r.source_revision) (records_of key xs))

  numbers-sort : (xs : List FeedbackRecord) → numbers (sort le xs) ≡ numbers xs
  numbers-sort = sort-same le numbers numbers_cons numbers_swap
    where
      numbers_cons :
          (x : FeedbackRecord) (xs ys : List FeedbackRecord)
          → numbers xs ≡ numbers ys
          → numbers (x ∷ xs) ≡ numbers (x ∷ ys)
      numbers_cons x xs ys h = elim (Bool-cases (key == case_of x)) [
        | inl q ↦ rw q (sort_cons x.source_revision _ _ h)
        | inr q ↦ rw q h
      ]

      numbers_swap :
          (x y : FeedbackRecord) (xs : List FeedbackRecord)
          → numbers (x ∷ y ∷ xs) ≡ numbers (y ∷ x ∷ xs)
      numbers_swap x y xs = elim (Bool-cases (key == case_of x)) [
        | inl q ↦ elim (Bool-cases (key == case_of y)) [
          | inl r ↦ rw (q, r) (sort_swap x.source_revision y.source_revision _)
          | inr r ↦ rw (q, r)
        ]
        | inr q ↦ elim (Bool-cases (key == case_of y)) [ inl r ↦ rw (q, r) | inr r ↦ rw (q, r) ]
      ]

  about-sort :
      (id : String) (xs : List FeedbackRecord)
      → all (is_about id) (records_of key (sort le xs)) ≡ all (is_about id) (records_of key xs)
  about-sort id =
      sort-same le (λ l. all (is_about id) (records_of key l)) (λ x xs ys h. ground arith)
        (λ x y xs. ground arith)

  size-sort :
      (xs : List FeedbackRecord) → length (records_of key (sort le xs)) ≡ length (records_of key xs)
  size-sort =
      sort-same le (λ l. length (records_of key l)) (λ x xs ys h. ground arith)
        (λ x y xs. ground arith)

  IsWhole-sort :
      (xs : List FeedbackRecord)
      → IsWhole (records_of key xs)
      → IsWhole (records_of key (sort le xs))
  IsWhole-sort xs whole = record {
    counted = numbers-sort xs ∙ (whole.counted ∙ ap (range 1) (sym (size-sort xs)));
    event = whole.event;
    same_event = about-sort whole.event xs ∙ whole.same_event;
    inhabited = ap (ltb 0) (size-sort xs) ∙ whole.inhabited;
  }

found-inhabited :
    (l : List FeedbackRecord) {h : List FeedbackRecord}
    → found l ≡ some h
    → (l ≡ h) × (ltb 0 (length l) ≡ true)
found-inhabited [] e = cc
found-inhabited (x ∷ l) e = (some-eq e, ground arith)

inhabited-found : (l : List FeedbackRecord) → ltb 0 (length l) ≡ true → found l ≡ some l
inhabited-found [] h = absurd (ground arith)
inhabited-found (x ∷ l) h = refl

-- If every case of the accepted records is whole, so is every case of the sorted ledger.
ledger-IsWhole :
    (accepted : List FeedbackRecord)
    → All (λ (p : CaseKey × List FeedbackRecord). IsWhole p.1) (group_cases accepted)
    → All
        (λ (p : CaseKey × List FeedbackRecord). IsWhole p.1)
        (group_cases (sort order_leb accepted))
ledger-IsWhole accepted whole =
    let ledger = sort order_leb accepted in
    All-mono (λ (p : CaseKey × List FeedbackRecord). found (records_of p.0 ledger) ≡ some p.1)
      (λ (p : CaseKey × List FeedbackRecord). IsWhole p.1)
      (λ p e.
        let (same, there) = found-inhabited (records_of p.0 ledger) e in
        let old = records_of p.0 accepted in
        let kept =
          lookup-group_cases p.0 accepted
          ∙ inhabited-found old (ap (ltb 0) (sym (size-sort p.0 order_leb accepted)) ∙ there) in
        subst IsWhole same (
          IsWhole-sort p.0 order_leb accepted (
            All-lookup (λ (q : CaseKey × List FeedbackRecord). IsWhole q.1) p.0 old
              (group_cases accepted) whole kept)))
      (group_cases ledger) (group_cases-lookup ledger)

-- Whenever a ledger is accepted, resolution over it never raises: at every instant that
-- `require_utc` takes, and for every list of event ids without repetition, it returns an answer.
pub resolve_feedback-validate :
    (records : List FeedbackRecord) (universe : Universe) (ledger : List FeedbackRecord)
    (duplicates : ℕ) (as_of : Datetime) (cutoff : Instant) (event_ids : List String)
    → validate records universe ≡ ok (ledger, duplicates)
    → require_utc as_of ≡ ok cutoff
    → IsNodup event_ids
    → (result : Dict String ResolvedFeedback) × (resolve_feedback ledger as_of event_ids
        ≡ ok result)
unfolding validate
resolve_feedback-validate records universe ledger duplicates as_of cutoff event_ids h utc distinct =
    let (st, looped, h) = >>=-eq-ok (ingest_all universe records start) _ h in
    let (_, checked, h) = >>=-eq-ok (check_cases st.cases) _ h in
    let inv = Inv-ingest_all universe records [] start st (Inv-start universe) looped in
    let whole =
      subst (All (λ (p : CaseKey × List FeedbackRecord). IsWhole p.1)) inv.grouped
        (check_cases-IsWhole st.cases checked) in
    resolve_feedback-returns ledger as_of cutoff event_ids
      (subst
        (λ (p : List FeedbackRecord × ℕ).
          All (λ (q : CaseKey × List FeedbackRecord). IsWhole q.1) (group_cases p.0))
        (ok-eq h) (ledger-IsWhole (values st.deliveries) whole))
      utc distinct
