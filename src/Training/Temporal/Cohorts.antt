-- ===== src/Training/Temporal/Cohorts.antt =====
-- What `partition_rows` promises of the cohorts that it returns.
pub mod Placed
use sentinel_aegis_forge.Common.{
  not, raise_if, raise_if-eq-ok, ℕ, ◌+◌, ◌≤◌, ◌≡◌, refl, subst, true, false, List, [], ◌∷◌, ◌++◌,
  arith, ltb, ltb→le, nat_eq, string_eq, pair_eq, list_eq, length, All, ok, >>=-eq-ok, ok-eq,
  text_leb_total, text_leb_trans, IsSorted, All-sort, length-sort, sort-IsSorted,
}
use sentinel_aegis_forge.Datasets.Time.{Instant}
use sentinel_aegis_forge.Training.Temporal.{
  TemporalConfig, SnapshotRow, CohortRow, Loop, empty_loop, partition_from, row_leb,
  TemporalCohorts, ordered_cohorts, failures, failures_of, require_support, has_both,
  partition_rows, Manifest, as_of_of, Failure, Cohort, test_end_after_as_of, columns_differ,
  expected_columns,
}
use sentinel_aegis_forge.Training.Temporal.Cohorts.Placed.{
  InTrain, InValidation, InTest, IsPlaced, all-IsPlaced,
}

row_leb_total : (a b : CohortRow) → row_leb a b ≡ false → row_leb b a ≡ true
row_leb_total a b h = ground (arith, text_leb_total a.event_id b.event_id)

row_leb_trans : (a b c : CohortRow) → row_leb a b ≡ true → row_leb b c ≡ true → row_leb a c ≡ true
row_leb_trans a b c h k = ground (arith, text_leb_trans a.event_id b.event_id c.event_id)

-- A cohort with no failure is large enough and has both classes.
failures_of-nil :
    (name : Cohort) (items : List CohortRow) (minimum : ℕ)
    → failures_of name items minimum ≡ []
    → (minimum ≤ length items) × (has_both items ≡ true)
unfolding failures_of
failures_of-nil name items minimum h = ground arith

append-nil_parts : (xs ys : List Failure) → xs ++ ys ≡ [] → (xs ≡ []) × (ys ≡ [])
append-nil_parts [] ys h = (refl, h)
append-nil_parts (x ∷ xs) ys h = cc

require_support-eq-ok :
    (found : List Failure) (c cohorts : TemporalCohorts)
    → require_support found c ≡ ok cohorts
    → (found ≡ []) × (c ≡ cohorts)
unfolding require_support
require_support-eq-ok [] c cohorts h = (refl, ok-eq h)
require_support-eq-ok (f ∷ rest) c cohorts h = cc

-- What is promised of cohorts made from `n` rows as of a time.
pub record IsSound (config : TemporalConfig) (as_of : Instant) (n : ℕ) (c : TemporalCohorts)
    : Type 0 where
  pub trains : All (InTrain config as_of) c.train
  pub validations : All (InValidation config as_of) c.validation
  pub tests : All (InTest config as_of) c.test
  pub sorted : IsSorted row_leb c.train × IsSorted row_leb c.validation × IsSorted row_leb c.test
  pub fit : length c.train + c.excluded_from_fit_due_to_label_delay ≡ c.train_period_rows
  pub total :
      c.train_period_rows + length c.validation + length c.test + c.outside_test_window_rows ≡ n
  pub enough :
      (config.min_train_rows ≤ length c.train)
      × (config.min_validation_rows ≤ length c.validation)
      × (config.min_test_rows ≤ length c.test)
  pub classes :
      (has_both c.train ≡ true) × (has_both c.validation ≡ true) × (has_both c.test ≡ true)

module _ (config : TemporalConfig) (as_of : Instant) (n : ℕ) (s : Loop) where
  ordered_cohorts-IsSound :
      IsPlaced config as_of n s
      → failures config (ordered_cohorts s) ≡ []
      → IsSound config as_of n (ordered_cohorts s)
  unfolding failures ordered_cohorts
  ordered_cohorts-IsSound h none_found =
      let (first, others) = append-nil_parts _ _ none_found in
      let (second, third) = append-nil_parts _ _ others in
      let (enough_train, both_train) = failures_of-nil _ _ _ first in
      let (enough_validation, both_validation) = failures_of-nil _ _ _ second in
      let (enough_test, both_test) = failures_of-nil _ _ _ third in
      record {
        trains = All-sort row_leb _ s.train h.trains;
        validations = All-sort row_leb _ s.validation h.validations;
        tests = All-sort row_leb _ s.test h.tests;
        sorted = (
          sort-IsSorted row_leb row_leb_total row_leb_trans s.train,
          sort-IsSorted row_leb row_leb_total row_leb_trans s.validation,
          sort-IsSorted row_leb row_leb_total row_leb_trans s.test,
        );
        fit = omega (arith, length-sort row_leb s.train, h.fit);
        total =
            omega (arith, length-sort row_leb s.validation, length-sort row_leb s.test, h.total);
        enough = (enough_train, enough_validation, enough_test);
        classes = (both_train, both_validation, both_test);
      }

-- Whenever the rows are partitioned: the training rows were ingested and labelled before the end
-- of training, the validation and test rows lie in their windows, no label was observed before
-- its row's ingestion or after the snapshot's time, each cohort is in order of time and event,
-- every row is counted once, and each cohort has its minimum and both classes.
pub partition_rows-IsSound :
    (rows : List SnapshotRow) (manifest : Manifest) (config : TemporalConfig)
    (cohorts : TemporalCohorts)
    → partition_rows rows manifest config ≡ ok cohorts
    → (as_of : Instant) × (as_of_of manifest.as_of_time ≡ ok as_of)
      × (config.test_end ≤ as_of)
      × IsSound config as_of (length rows) cohorts
unfolding partition_rows
partition_rows-IsSound rows manifest config cohorts h =
    let (_, _, h1) =
      >>=-eq-ok (raise_if (not (expected_columns manifest.columns)) columns_differ) _ h in
    let (as_of, read, h2) = >>=-eq-ok (as_of_of manifest.as_of_time) _ h1 in
    let (_, bound, h3) =
      >>=-eq-ok (raise_if (ltb as_of config.test_end) test_end_after_as_of) _ h2 in
    let (s, looped, h4) = >>=-eq-ok (partition_from config as_of empty_loop rows) _ h3 in
    let (none_found, e) =
      require_support-eq-ok (failures config (ordered_cohorts s)) (ordered_cohorts s) cohorts h4 in
    (
      as_of,
      read,
      ltb→le _ _ (raise_if-eq-ok test_end_after_as_of (ltb as_of config.test_end) bound),
      subst (IsSound config as_of (length rows)) e (
          ordered_cohorts-IsSound config as_of (length rows) s
            (all-IsPlaced config as_of rows s looped) none_found),
    )
