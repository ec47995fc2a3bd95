-- ===== src/Feedback/Ingestion.antt =====
-- feedback/ingestion.py, `_validate`: all records are checked before a ledger is published. The
-- universe, event and time of ingestion, is what `_source` reads of the fixed Delta version.
pub mod Accepted
pub mod Ledger
pub mod Resolvable
mod Examples
use sentinel_aegis_forge.Common.{
  lexical, range, ℕ, ◌+◌, String, Bool, not, ◌&&◌, Option, none, some, List, [], ◌∷◌, ◌++◌, arith,
  ltb, leb, ◌==◌, nat_eq, string_eq, pair_eq, list_eq, length, contains, to_set, Dict, lookup,
  insert, Result, ok, err, ◌>>=◌, ◌>>◌, raise_if, text_leb, sort,
}
use sentinel_aegis_forge.Datasets.Time.{Instant}
use sentinel_aegis_forge.Feedback.Contract.{FeedbackStatus, FeedbackRecord}
use sentinel_aegis_forge.Feedback.Resolution.{
  CaseKey, Cases, grow, revisions, event_ids_of, revision_leb,
}

abbrev pub Universe : Type 0
Universe = Dict String Instant

pub data IngestionError : Type 0 where
  unknown_event precedes_ingestion : String → IngestionError
  conflicting_delivery : String × String → IngestionError
  duplicate_revision : String × (String × ℕ) → IngestionError
  noncontiguous case_changes_event : CaseKey → IngestionError

abbrev pub delivery_of : FeedbackRecord → String × String
delivery_of item = (item.provider_id, item.provider_record_id)

abbrev pub revision_of : FeedbackRecord → String × (String × ℕ)
revision_of item = (item.provider_id, (item.provider_case_id, item.source_revision))

abbrev pub status_code : FeedbackStatus → ℕ
status_code FeedbackStatus.pending = 0
status_code FeedbackStatus.confirmed_fraud = 1
status_code FeedbackStatus.confirmed_legit = 2
status_code FeedbackStatus.retracted = 3

-- `previous == record`, field by field
abbrev pub same_record : FeedbackRecord → FeedbackRecord → Bool
same_record a b =
    a.provider_id == b.provider_id
    && (a.provider_record_id == b.provider_record_id
        && (a.provider_case_id == b.provider_case_id
            && (a.source_revision == b.source_revision
                && (a.event_id == b.event_id
                    && (status_code a.status == status_code b.status
                        && (a.source_updated_at == b.source_updated_at
                            && a.received_at == b.received_at))))))

-- `_order`, compared as tuples are
abbrev pub by_delivery : FeedbackRecord → FeedbackRecord → Bool
by_delivery a b = text_leb a.provider_record_id b.provider_record_id

abbrev pub by_revision : FeedbackRecord → FeedbackRecord → Bool
by_revision = lexical (λ (r : FeedbackRecord). r.source_revision) leb by_delivery

abbrev pub by_case : FeedbackRecord → FeedbackRecord → Bool
by_case = lexical (λ (r : FeedbackRecord). r.provider_case_id) text_leb by_revision

abbrev pub order_leb : FeedbackRecord → FeedbackRecord → Bool
order_leb = lexical (λ (r : FeedbackRecord). r.provider_id) text_leb by_case

-- the variables of the loop; of `revisions` only the keys are read
pub record Loop : Type 0 where
  pub deliveries : Dict (String × String) FeedbackRecord
  pub revisions : List (String × (String × ℕ))
  pub cases : Cases
  pub duplicates : ℕ

abbrev pub start : Loop
start = record { deliveries = []; revisions = []; cases = []; duplicates = 0 }

-- `universe.get(str(record.event_id))` and its two guards
pub check_source : Universe → FeedbackRecord → Result IngestionError (Unit {0})
check_source universe item = elim (lookup item.event_id universe) [
  | none ↦ err (unknown_event item.event_id)
  | some ingestion ↦ raise_if (ltb item.received_at ingestion) (precedes_ingestion item.event_id)
]

-- the rest of the body for a delivery that was not seen
accept : FeedbackRecord → Loop → Result IngestionError Loop
unfolding grow
accept item st = do
  raise_if (contains (revision_of item) st.revisions) (duplicate_revision (revision_of item))
  ok (record {
    deliveries = insert (delivery_of item) item st.deliveries;
    revisions = st.revisions ++ revision_of item ∷ [];
    cases = grow item st.cases;
    duplicates = st.duplicates;
  })

-- the rest of the body, with what `deliveries.get(delivery)` returned
redeliver : FeedbackRecord → Loop → Option FeedbackRecord → Result IngestionError Loop
unfolding accept
redeliver item st none = accept item st
redeliver item st (some previous) = do
  raise_if (not (same_record previous item)) (conflicting_delivery (delivery_of item))
  ok (record {
    deliveries = st.deliveries;
    revisions = st.revisions;
    cases = st.cases;
    duplicates = st.duplicates + 1;
  })

-- the body of the first loop
unfoldable pub ingest : Universe → FeedbackRecord → Loop → Result IngestionError Loop
unfolding check_source redeliver
ingest universe item st = do
  check_source universe item
  redeliver item st (lookup (delivery_of item) st.deliveries)

unfoldable pub ingest_all : Universe → List FeedbackRecord → Loop → Result IngestionError Loop
unfolding ingest
ingest_all universe [] st = ok st
ingest_all universe (item ∷ rest) st = do st ← ingest universe item st; ingest_all universe rest st

-- the second loop, over `cases.items()`
unfoldable pub check_cases : Cases → Result IngestionError (Unit {0})
check_cases [] = ok tt
check_cases ((case, history) ∷ rest) = do
  let ordered = sort revision_leb history
  raise_if (not (revisions ordered == range 1 (length ordered))) (noncontiguous case)
  raise_if (not (length (to_set (event_ids_of ordered)) == 1)) (case_changes_event case)
  check_cases rest

-- `deliveries.values()`
abbrev pub values : Dict (String × String) FeedbackRecord → List FeedbackRecord
values [] = []
values ((_, item) ∷ rest) = item ∷ values rest

unfoldable pub validate :
    List FeedbackRecord → Universe → Result IngestionError (List FeedbackRecord × ℕ)
unfolding ingest_all check_cases
validate records universe = do
  st ← ingest_all universe records start
  check_cases st.cases
  ok (sort order_leb (values st.deliveries), st.duplicates)
