-- ===== src/Feedback/Ingestion/Accepted.antt =====
-- The first loop of `_validate`: what was delivered is accepted or a duplicate.
pub mod Steps
use sentinel_aegis_forge.Common.{
  raise_if-eq-ok, IsNodup-snoc, map-append, length-append, raise_if-not-eq-ok, All-mono, contains,
  not, raise_if, ok-eq, >>=-eq-ok, subst, Option, All-append, ◌+◌, ◌≡◌, refl, sym, ap, ◌∙◌, none,
  some, List, [], ◌∷◌, ◌++◌, map, arith, nat_eq, string_eq, pair_eq, list_eq, length, All, IsNodup,
  lookup, insert, Among, ok,
}
use mathlib.Core.List.{append_assoc, append-nil}
use sentinel_aegis_forge.Feedback.Contract.{FeedbackRecord}
use sentinel_aegis_forge.Feedback.Ingestion.{
  conflicting_delivery, duplicate_revision, delivery_of, ingest_all, ingest, redeliver, accept,
  Universe, Loop, start, same_record, revision_of, check_source, values,
}
use sentinel_aegis_forge.Feedback.Resolution.{grow, group_cases}
use sentinel_aegis_forge.Feedback.Resolution.Grouped.{group_cases-snoc}
use sentinel_aegis_forge.Feedback.Ingestion.Accepted.Steps.{
  same_record→eq, Known, check_source-Known, insert-new, values-append, lookup-Among,
  Among-append_left, Among-last,
}

-- The loop after the records `done`.
pub record Inv (universe : Universe) (done : List FeedbackRecord) (st : Loop) : Type 0 where
  pub known : All (Known universe) (values st.deliveries)
  pub origin : All (λ r. Among r done) (values st.deliveries)
  pub there : All (λ r. Among r (values st.deliveries)) done
  pub accounted : length (values st.deliveries) + st.duplicates ≡ length done
  pub same : st.revisions ≡ map revision_of (values st.deliveries)
  pub distinct : IsNodup st.revisions
  pub grouped : st.cases ≡ group_cases (values st.deliveries)

module _ (universe : Universe) (done : List FeedbackRecord) (item : FeedbackRecord) (st : Loop)
    (inv : Inv universe done st) where
  -- One more record was seen, and it is among the accepted ones.
  grown :
      (accepted : List FeedbackRecord)
      → All (λ r. Among r accepted) done
      → Among item accepted
      → All (λ r. Among r accepted) (done ++ item ∷ [])
  grown accepted old new = All-append (λ r. Among r accepted) done (item ∷ []) old (new, tt)

  Inv-accept :
      (next : Loop)
      → Known universe item
      → lookup (delivery_of item) st.deliveries ≡ none
      → accept item st ≡ ok next
      → Inv universe (done ++ item ∷ []) next
  unfolding accept
  Inv-accept next known new h =
      let (_, fresh, e) =
        >>=-eq-ok
          (raise_if (contains (revision_of item) st.revisions)
            (duplicate_revision (revision_of item)))
          _ h in
      let old = values st.deliveries in
      let grew : values (insert (delivery_of item) item st.deliveries) ≡ old ++ item ∷ [] =
        ap values (insert-new (delivery_of item) item st.deliveries new)
        ∙ values-append st.deliveries ((delivery_of item, item) ∷ []) in
      subst (Inv universe (done ++ item ∷ [])) (ok-eq e) (record {
        known =
            subst (All (Known universe)) (sym grew)
              (All-append (Known universe) old (item ∷ []) inv.known (known, tt));
        origin = subst (All (λ r. Among r (done ++ item ∷ []))) (sym grew) (
            All-append (λ r. Among r (done ++ item ∷ [])) old (item ∷ [])
              (All-mono (λ r. Among r done) (λ r. Among r (done ++ item ∷ []))
                (λ r m. Among-append_left r done (item ∷ []) m) old inv.origin)
              (Among-last item done, tt));
        there =
            grown _
              (All-mono (λ r. Among r old) _
                (λ r m. subst (Among r) (sym grew) (Among-append_left r old (item ∷ []) m)) done
                inv.there)
              (subst (Among item) (sym grew) (Among-last item old));
        accounted = omega (
          arith,
          ap length grew,
          length-append old (item ∷ []),
          length-append done (item ∷ []),
          inv.accounted,
        );
        same =
            ap (λ l. l ++ revision_of item ∷ []) inv.same
            ∙ (sym (map-append revision_of old (item ∷ [])) ∙ ap (map revision_of) (sym grew));
        distinct =
            IsNodup-snoc (revision_of item) st.revisions
              (raise_if-eq-ok (duplicate_revision (revision_of item))
                (contains (revision_of item) st.revisions) fresh)
              inv.distinct;
        grouped =
            ap (grow item) inv.grouped
            ∙ (sym (group_cases-snoc old item) ∙ ap group_cases (sym grew));
      })

  Inv-redeliver :
      (next : Loop) (seen : Option FeedbackRecord)
      → Known universe item
      → lookup (delivery_of item) st.deliveries ≡ seen
      → redeliver item st seen ≡ ok next
      → Inv universe (done ++ item ∷ []) next
  unfolding redeliver
  Inv-redeliver next none known new h = Inv-accept next known new h
  Inv-redeliver next (some previous) known old h =
      let (_, same, e) =
        >>=-eq-ok
          (raise_if (not (same_record previous item)) (conflicting_delivery (delivery_of item))) _
          h in
      let same = same_record→eq previous item (
        raise_if-not-eq-ok (conflicting_delivery (delivery_of item)) (same_record previous item)
          same) in
      subst (Inv universe (done ++ item ∷ [])) (ok-eq e) (record {
        known = inv.known;
        origin =
            All-mono (λ r. Among r done) (λ r. Among r (done ++ item ∷ []))
              (λ r m. Among-append_left r done (item ∷ []) m) (values st.deliveries) inv.origin;
        there = grown (values st.deliveries) inv.there (
            subst (λ r. Among r (values st.deliveries)) same
              (lookup-Among (delivery_of item) previous st.deliveries old));
        accounted = omega (arith, length-append done (item ∷ []), inv.accounted);
        same = inv.same;
        distinct = inv.distinct;
        grouped = inv.grouped;
      })

  Inv-ingest :
      (next : Loop) → ingest universe item st ≡ ok next → Inv universe (done ++ item ∷ []) next
  unfolding ingest
  Inv-ingest next h =
      let (_, checked, h) = >>=-eq-ok (check_source universe item) _ h in
      Inv-redeliver next (lookup (delivery_of item) st.deliveries)
        (check_source-Known universe item checked) refl h

pub Inv-start : (universe : Universe) → Inv universe [] start
unfolding group_cases
Inv-start universe = record {
  known = tt;
  origin = tt;
  there = tt;
  accounted = omega arith;
  same = refl;
  distinct = tt;
  grouped = refl;
}

pub Inv-ingest_all :
    (universe : Universe) (rest done : List FeedbackRecord) (st next : Loop)
    → Inv universe done st
    → ingest_all universe rest st ≡ ok next
    → Inv universe (done ++ rest) next
unfolding ingest_all
Inv-ingest_all universe [] done st next inv h =
    subst (λ l. Inv universe l next) (sym (append-nil done))
      (subst (Inv universe done) (ok-eq h) inv)
Inv-ingest_all universe (item ∷ rest) done st next inv h =
    let (after, one, h) = >>=-eq-ok (ingest universe item st) _ h in
    subst (λ l. Inv universe l next) (append_assoc done (item ∷ []) rest)
      (Inv-ingest_all universe rest (done ++ item ∷ []) after next
        (Inv-ingest universe done item st inv after one) h)
