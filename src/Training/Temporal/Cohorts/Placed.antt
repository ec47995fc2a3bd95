-- ===== src/Training/Temporal/Cohorts/Placed.antt =====
-- The loop over the rows: each one is placed where its times allow.
use sentinel_aegis_forge.Common.{
  map_error-eq-ok, ℕ, ◌+◌, ◌≤◌, ◌<◌, String, ◌≡◌, refl, subst, inl, inr, List, [], ◌∷◌, arith, ltb,
  leb, ltb→lt, ltb→le, leb→le, Bool-cases, nat_eq, string_eq, pair_eq, list_eq, length,
  length-append, All, All-append, ok, map_error, >>=-eq-ok, ok-eq,
}
use sentinel_aegis_forge.Datasets.Time.{Instant}
use sentinel_aegis_forge.Training.Temporal.{
  TemporalConfig, SnapshotRow, CohortRow, Loop, empty_loop, check_row, place, saw, partition_from,
  invalid_row,
}

-- The label was observed after the ingestion and by the snapshot's time.
abbrev pub IsCausal : Instant → CohortRow → Type 0
IsCausal as_of row = (row.ingestion ≤ row.observed) × (row.observed ≤ as_of)

abbrev pub InTrain : TemporalConfig → Instant → CohortRow → Type 0
InTrain config as_of row =
    (row.ingestion < config.train_end) × (row.observed ≤ config.train_end) × IsCausal as_of row

abbrev pub InValidation : TemporalConfig → Instant → CohortRow → Type 0
InValidation config as_of row =
    (config.train_end ≤ row.ingestion)
    × (row.ingestion < config.validation_end)
    × IsCausal as_of row

abbrev pub InTest : TemporalConfig → Instant → CohortRow → Type 0
InTest config as_of row =
    (config.validation_end ≤ row.ingestion) × (row.ingestion < config.test_end) × IsCausal as_of row

pub record IsPlaced (config : TemporalConfig) (as_of : Instant) (n : ℕ) (s : Loop) : Type 0 where
  pub trains : All (InTrain config as_of) s.train
  pub validations : All (InValidation config as_of) s.validation
  pub tests : All (InTest config as_of) s.test
  pub fit : length s.train + s.delayed ≡ s.train_period
  pub total : s.train_period + length s.validation + length s.test + s.outside ≡ n

module _ (config : TemporalConfig) (as_of : Instant) where
  place-IsPlaced :
      (row : CohortRow) (n : ℕ) (s : Loop)
      → IsCausal as_of row
      → IsPlaced config as_of n s
      → IsPlaced config as_of (n + 1) (place config row s)
  unfolding place
  place-IsPlaced row n s c h = elim (Bool-cases (ltb row.ingestion config.train_end)) [
    | inl early ↦ elim (Bool-cases (leb row.observed config.train_end)) [
      | inl known ↦
          rw (early, known)
            (record {
              trains =
                  All-append (InTrain config as_of) s.train (row ∷ []) h.trains
                    ((ltb→lt _ _ early, leb→le _ _ known, c), tt);
              validations = h.validations;
              tests = h.tests;
              fit = omega (arith, length-append s.train (row ∷ []), h.fit);
              total = omega (arith, h.total);
            })
      | inr late ↦
          rw (early, late)
            (record {
              trains = h.trains;
              validations = h.validations;
              tests = h.tests;
              fit = omega (arith, h.fit);
              total = omega (arith, h.total);
            })
    ]
    | inr later ↦ elim (Bool-cases (ltb row.ingestion config.validation_end)) [
      | inl early ↦
          rw (later, early)
            (record {
              trains = h.trains;
              validations =
                  All-append (InValidation config as_of) s.validation (row ∷ []) h.validations
                    ((ltb→le _ _ later, ltb→lt _ _ early, c), tt);
              tests = h.tests;
              fit = h.fit;
              total = omega (arith, length-append s.validation (row ∷ []), h.total);
            })
      | inr later' ↦ elim (Bool-cases (ltb row.ingestion config.test_end)) [
        | inl early ↦
            rw (later, later', early)
              (record {
                trains = h.trains;
                validations = h.validations;
                tests =
                    All-append (InTest config as_of) s.test (row ∷ []) h.tests
                      ((ltb→le _ _ later', ltb→lt _ _ early, c), tt);
                fit = h.fit;
                total = omega (arith, length-append s.test (row ∷ []), h.total);
              })
        | inr outside ↦
            rw (later, later', outside)
              (record {
                trains = h.trains;
                validations = h.validations;
                tests = h.tests;
                fit = h.fit;
                total = omega (arith, h.total);
              })
      ]
    ]
  ]

  empty-IsPlaced : IsPlaced config as_of 0 empty_loop
  empty-IsPlaced = record { trains = tt; validations = tt; tests = tt; fit = refl; total = refl }

  -- The set of seen identities is no part of the invariant.
  seen_free :
      (row : CohortRow) (n : ℕ) (s : Loop)
      → IsPlaced config as_of n s
      → IsPlaced config as_of n (saw row.event_id s)
  seen_free row n s h = record {
    trains = h.trains;
    validations = h.validations;
    tests = h.tests;
    fit = h.fit;
    total = h.total;
  }

  check_row-IsCausal :
      (seen : List String) (row : SnapshotRow) (checked : CohortRow)
      → check_row as_of seen row ≡ ok checked
      → IsCausal as_of checked
  unfolding check_row
  check_row-IsCausal seen row checked h = ground arith

  partition_from-IsPlaced :
      (rows : List SnapshotRow) (n : ℕ) (s final : Loop)
      → IsPlaced config as_of n s
      → partition_from config as_of s rows ≡ ok final
      → IsPlaced config as_of (n + length rows) final
  unfolding partition_from
  partition_from-IsPlaced [] n s final h done =
      subst (IsPlaced config as_of (n + 0)) (ok-eq done)
        (subst (λ k. IsPlaced config as_of k s) (omega arith) h)
  partition_from-IsPlaced (row ∷ rest) n s final h done =
      let (checked, read, later) =
        >>=-eq-ok (map_error invalid_row (check_row as_of s.seen row)) _ done in
      subst (λ k. IsPlaced config as_of k final) (omega arith)
        (partition_from-IsPlaced rest (n + 1) (place config checked (saw checked.event_id s)) final
          (place-IsPlaced checked n (saw checked.event_id s)
            (check_row-IsCausal s.seen row checked
              (map_error-eq-ok invalid_row (check_row as_of s.seen row) read))
            (seen_free checked n s h))
          later)

  pub all-IsPlaced :
      (rows : List SnapshotRow) (s : Loop)
      → partition_from config as_of empty_loop rows ≡ ok s
      → IsPlaced config as_of (length rows) s
  all-IsPlaced rows s looped =
      subst (λ k. IsPlaced config as_of k s) (omega arith)
        (partition_from-IsPlaced rows 0 empty_loop s empty-IsPlaced looped)
