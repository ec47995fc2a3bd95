-- ===== src/Candidates/Contract/Accepts.antt =====
-- The check of a feature row when a dataset is built, against the check of a scoring request.
use sentinel_aegis_forge.Common.{
  not-eq-false, and-eq-true, String, ◌≡◌, refl, sym, ap, ◌∙◌, subst, ◌↔◌, inl, inr, Bool, true,
  false, not, ◌&&◌, ◌||◌, eq_iff, if◌then◌else◌, Bool-cases, nat_eq, string_eq, pair_eq, list_eq,
  ok, ◌>>◌, raise_if,
}
use sentinel_aegis_forge.Datasets.Rows.{
  Datum, null, nonfinite, other, str, int, money, float, time, Scores, is_null, is_float, is_text,
  is_statistic, Statistics, is_consistent, validate_statistics,
}
use sentinel_aegis_forge.Candidates.Contract.{is_valid, check_statistics}

module _ {E : Type 0} where
  -- A chain of tests returns exactly where every test fails.
  four_tests :
      (a b c d : Bool) (e f g h : E)
      → ((raise_if a e >> (raise_if b f >> (raise_if c g >> raise_if d h))) ≡ ok tt)
        ↔ ((a ≡ false) × (b ≡ false) × (c ≡ false) × (d ≡ false))
  four_tests true b c d e f g h = (λ q. cc, λ q. cc)
  four_tests false true c d e f g h = (λ q. cc, λ q. cc)
  four_tests false false true d e f g h = (λ q. cc, λ q. cc)
  four_tests false false false true e f g h = (λ q. cc, λ q. cc)
  four_tests false false false false e f g h = (λ q. (refl, refl, refl, refl), λ q. refl)

module _ {F : Type 0} where
  is_text-str : (t : String) (d : Datum F) → is_text t d ≡ true → d ≡ str t
  is_text-str t (str s) h = ap (λ u. str u) ((eq_iff s t).0 h)
  is_text-str t null h = cc
  is_text-str t nonfinite h = cc
  is_text-str t other h = cc
  is_text-str t (int n) h = cc
  is_text-str t (money m) h = cc
  is_text-str t (float x) h = cc
  is_text-str t (time u) h = cc

  abbrev by_if : Datum F → Bool → Bool → Bool → Bool → Bool
  by_if d a b c e =
      if is_text "NO_HISTORY" d
      then a
      else if is_text "INSUFFICIENT_VARIANCE_HISTORY" d
      then b
      else if is_text "ZERO_VARIANCE" d
      then c
      else if is_text "READY" d
      then e
      else false

  abbrev by_or : Datum F → Bool → Bool → Bool → Bool → Bool
  by_or d a b c e =
      (is_text "NO_HISTORY" d && a)
      || ((is_text "INSUFFICIENT_VARIANCE_HISTORY" d && b)
          || ((is_text "ZERO_VARIANCE" d && c) || (is_text "READY" d && e)))

  -- A status is one of the four or none: testing one after the other is testing any of them.
  or-if : (d : Datum F) (a b c e : Bool) → by_or d a b c e ≡ by_if d a b c e
  or-if d a b c e = elim (Bool-cases (is_text "NO_HISTORY" d)) [
    | inl h ↦ at_status "NO_HISTORY" h (or_false a)
    | inr h1 ↦ elim (Bool-cases (is_text "INSUFFICIENT_VARIANCE_HISTORY" d)) [
      | inl h ↦ at_status "INSUFFICIENT_VARIANCE_HISTORY" h (or_false b)
      | inr h2 ↦ elim (Bool-cases (is_text "ZERO_VARIANCE" d)) [
        | inl h ↦ at_status "ZERO_VARIANCE" h (or_false c)
        | inr h3 ↦ elim (Bool-cases (is_text "READY" d)) [
          | inl h ↦ at_status "READY" h refl
          | inr h4 ↦ rw (h1, h2, h3, h4) refl
        ]
      ]
    ]
  ]
    where
      or_false : (x : Bool) → (x || false) ≡ x
      or_false true = refl
      or_false false = refl

      at_status :
          (t : String)
          → is_text t d ≡ true
          → by_or (str t) a b c e ≡ by_if (str t) a b c e
          → by_or d a b c e ≡ by_if d a b c e
      at_status t h q = subst (λ u. by_or u a b c e ≡ by_if u a b c e) (sym (is_text-str t d h)) q

  float_or_null : (z : Datum F) → is_statistic z ≡ true → is_float z ≡ not (is_null z)
  float_or_null null h = refl
  float_or_null (float x) h = refl
  float_or_null nonfinite h = cc
  float_or_null other h = cc
  float_or_null (str s) h = cc
  float_or_null (int n) h = cc
  float_or_null (money m) h = cc
  float_or_null (time u) h = cc

module _ {F : Type 0} (scores : Scores F) where
  is_valid-is_consistent :
      (s : Statistics F) → is_statistic s.zscore ≡ true → is_valid scores s ≡ is_consistent scores s
  unfolding is_valid is_consistent
  is_valid-is_consistent s h = rw (float_or_null s.zscore h) (or-if s.status _ _ _ _)

  -- The statistics of a row pass the check of a scoring request exactly where they pass the check of
  -- the dataset: the two conditions, written as alternatives there and as branches here, accept the
  -- same rows.
  pub check_statistics-validate_statistics :
      (s : Statistics F)
      → (check_statistics scores s ≡ ok tt) ↔ (validate_statistics scores s ≡ ok tt)
  unfolding check_statistics validate_statistics
  check_statistics-validate_statistics s = (
    λ h.
        let (a, b, c, d) = (four_tests _ _ _ _ _ _ _ _).0 h in
        (four_tests _ _ _ _ _ _ _ _).1 (a, b, ap not (sym (same a)) ∙ c, d),
    λ h.
        let (a, b, c, d) = (four_tests _ _ _ _ _ _ _ _).0 h in
        (four_tests _ _ _ _ _ _ _ _).1 (a, b, ap not (same a) ∙ c, d),
  )
    where
      same :
          not (is_statistic s.mean && (is_statistic s.stddev && is_statistic s.zscore)) ≡ false
          → is_valid scores s ≡ is_consistent scores s
      same a =
          let (_, rest) = and-eq-true (is_statistic s.mean) _ (not-eq-false _ a) in
          let (_, z) = and-eq-true (is_statistic s.stddev) _ rest in is_valid-is_consistent s z
