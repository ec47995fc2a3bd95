-- ===== src/Feedback/Ingestion/Ledger.antt =====
-- What `_validate` accepts: nothing is lost, and every record of the ledger was checked.
use sentinel_aegis_forge.Common.{
  text_leb_antisym, lexical_total, lexical_trans, IsNodup-map-sort, Among-sort, ℕ, ◌+◌, ◌≡◌, subst,
  true, false, List, [], map, arith, leb, nat_eq, string_eq, pair_eq, list_eq, length, All,
  All-mono, IsNodup, Among, ok, >>=-eq-ok, ok-eq, text_leb, text_leb_total, text_leb_trans, sort,
  IsSorted, All-sort, length-sort, sort-IsSorted,
}
use sentinel_aegis_forge.Feedback.Contract.{FeedbackRecord}
use sentinel_aegis_forge.Feedback.Ingestion.{
  Universe, start, order_leb, by_case, by_revision, by_delivery, revision_of, ingest_all,
  check_cases, values, validate,
}
use sentinel_aegis_forge.Feedback.Ingestion.Accepted.{Inv-start, Inv-ingest_all}
use sentinel_aegis_forge.Feedback.Ingestion.Accepted.Steps.{Known}

-- A published ledger.
pub record IsLedger (universe : Universe) (records ledger : List FeedbackRecord) (duplicates : ℕ)
    : Type 0 where
  pub known : All (Known universe) ledger
  pub origin : All (λ r. Among r records) ledger
  pub complete : All (λ r. Among r ledger) records
  pub accounted : length ledger + duplicates ≡ length records
  pub distinct : IsNodup (map revision_of ledger)
  pub sorted : IsSorted order_leb ledger

-- The order of tuples is total and transitive.
order_leb_total : (a b : FeedbackRecord) → order_leb a b ≡ false → order_leb b a ≡ true
order_leb_total = lexical_total _ text_leb by_case text_leb_total (
    lexical_total _ text_leb by_revision text_leb_total (
      lexical_total (λ (r : FeedbackRecord). r.source_revision) leb by_delivery
        (λ m n h. ground arith) λ a b. text_leb_total a.provider_record_id b.provider_record_id))

order_leb_trans :
    (a b c : FeedbackRecord) → order_leb a b ≡ true → order_leb b c ≡ true → order_leb a c ≡ true
order_leb_trans = lexical_trans _ text_leb by_case text_leb_trans text_leb_antisym (
    lexical_trans _ text_leb by_revision text_leb_trans text_leb_antisym (
      lexical_trans (λ (r : FeedbackRecord). r.source_revision) leb by_delivery
        (λ l m n h k. ground arith) (λ m n h k. ground arith)
        λ a b c. text_leb_trans a.provider_record_id b.provider_record_id c.provider_record_id))

-- Whenever records are accepted with a count of duplicates, the ledger is sorted by `_order`; each
-- of its records was delivered, names an event of the source and was not received before that
-- event was ingested; each delivered record is in it; its provider case revisions are distinct;
-- and the records of the ledger and the duplicates are as many as the deliveries.
pub validate-IsLedger :
    (records : List FeedbackRecord) (universe : Universe) (ledger : List FeedbackRecord)
    (duplicates : ℕ)
    → validate records universe ≡ ok (ledger, duplicates)
    → IsLedger universe records ledger duplicates
unfolding validate
validate-IsLedger records universe ledger duplicates h =
    let (st, looped, h) = >>=-eq-ok (ingest_all universe records start) _ h in
    let (_, _, h) = >>=-eq-ok (check_cases st.cases) _ h in
    let inv = Inv-ingest_all universe records [] start st (Inv-start universe) looped in
    let accepted = values st.deliveries in
    let both = ok-eq h in
    subst (λ (p : List FeedbackRecord × ℕ). IsLedger universe records p.0 p.1) both
      (record {
        known = All-sort order_leb (Known universe) accepted inv.known;
        origin = All-sort order_leb (λ r. Among r records) accepted inv.origin;
        complete =
            All-mono (λ r. Among r accepted) (λ r. Among r (sort order_leb accepted))
              (λ r m. Among-sort order_leb r accepted m) records inv.there;
        accounted = omega (arith, length-sort order_leb accepted, inv.accounted);
        distinct =
            IsNodup-map-sort order_leb revision_of accepted (subst IsNodup inv.same inv.distinct);
        sorted = sort-IsSorted order_leb order_leb_total order_leb_trans accepted;
      })
