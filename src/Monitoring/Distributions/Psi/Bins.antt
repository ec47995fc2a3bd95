-- ===== src/Monitoring/Distributions/Psi/Bins.antt =====
-- The bins of `psi` part each cohort.
use sentinel_aegis_forge.Common.{
  range, or-eq-false, ℕ, zero, suc, ◌+◌, ◌-◌, ◌≤◌, ◌<◌, ◌≡◌, refl, ◌∙◌, subst, ◌≢◌, inl, inr, Bool,
  false, ◌||◌, List, [], ◌∷◌, arith, ltb, nat_beq, if◌then◌else◌, ltb→le, nat_beq_iff, Bool-cases,
  Eq, nat_eq, string_eq, pair_eq, list_eq, length, count, to_set, ok, raise_if, raise_if-eq-ok,
  >>=-eq-ok, ok-eq,
}
use sentinel_aegis_forge.Monitoring.Distributions.{
  bad_bins, Floats, Value, Metric, available, unavailable, finite,
}
use sentinel_aegis_forge.Monitoring.Distributions.Psi.{
  bump, Psi, bisect_right, histogram, zeros, psi_with, metric_of, psi_of, psi, edges,
}

abbrev sum : List ℕ → ℕ
sum [] = 0
sum (c ∷ cs) = c + sum cs

-- the entry of a bin, which is 0 where there is no such bin
abbrev pub entry : ℕ → List ℕ → ℕ
entry k [] = 0
entry zero (c ∷ cs) = c
entry (suc k) (c ∷ cs) = entry k cs

sum-zeros : (F : Type 0) (fl : Floats F) (n : ℕ) → sum (zeros fl n) ≡ 0
sum-zeros F fl zero = refl
sum-zeros F fl (suc n) = omega (arith, sum-zeros F fl n)

length-zeros : (F : Type 0) (fl : Floats F) (n : ℕ) → length (zeros fl n) ≡ n
length-zeros F fl zero = refl
length-zeros F fl (suc n) = omega (arith, length-zeros F fl n)

entry-zeros : (F : Type 0) (fl : Floats F) (k n : ℕ) → entry k (zeros fl n) ≡ 0
entry-zeros F fl k zero = refl
entry-zeros F fl zero (suc n) = refl
entry-zeros F fl (suc k) (suc n) = entry-zeros F fl k n

length-bump : (i : ℕ) (cs : List ℕ) → length (bump i cs) ≡ length cs
unfolding bump
length-bump i [] = refl
length-bump zero (c ∷ cs) = refl
length-bump (suc i) (c ∷ cs) = omega (arith, length-bump i cs)

sum-bump : (i : ℕ) (cs : List ℕ) → i < length cs → sum (bump i cs) ≡ suc (sum cs)
unfolding bump
sum-bump i [] h = absurd (omega arith)
sum-bump zero (c ∷ cs) h = omega arith
sum-bump (suc i) (c ∷ cs) h = omega (arith, sum-bump i cs (omega arith))

entry-bump :
    (i k : ℕ) (cs : List ℕ)
    → i < length cs
    → entry k (bump i cs) ≡ (if nat_beq i k then suc (entry k cs) else entry k cs)
unfolding bump
entry-bump i k [] h = absurd (omega arith)
entry-bump zero zero (c ∷ cs) h = refl
entry-bump zero (suc k) (c ∷ cs) h = ground arith
entry-bump (suc i) zero (c ∷ cs) h = ground arith
entry-bump (suc i) (suc k) (c ∷ cs) h = ground (arith, entry-bump i k cs (omega arith))

module _ {F : Type 0} (fl : Floats F) where
  bisect_right_bound :
      (boundaries : List F) (v : F) → bisect_right fl boundaries v ≤ length boundaries
  unfolding bisect_right
  bisect_right_bound [] v = omega arith
  bisect_right_bound (edge ∷ rest) v = elim (Bool-cases (fl.at_most edge v)) [
    | inl below ↦ rw below (omega (arith, bisect_right_bound rest v))
    | inr above ↦ rw above (omega arith)
  ]

  -- the values whose bin is `k`
  abbrev pub in_bin : List F → ℕ → F → Bool
  in_bin boundaries k v = nat_beq (bisect_right fl boundaries v) k

  -- The bins of a cohort: one more than the boundaries, each with the number of values that
  -- belong there, and together as many as the cohort.
  pub record IsHistogram (boundaries values : List F) (counts : List ℕ) : Type 0 where
    pub bins : length counts ≡ suc (length boundaries)
    pub each : (k : ℕ) → entry k counts ≡ count (in_bin boundaries k) values
    pub whole : sum counts ≡ length values

  length-histogram :
      (boundaries values : List F) (counts : List ℕ)
      → length (histogram fl boundaries values counts) ≡ length counts
  unfolding histogram
  length-histogram boundaries [] counts = refl
  length-histogram boundaries (v ∷ vs) counts =
      length-histogram boundaries vs _ ∙ length-bump (bisect_right fl boundaries v) counts

  fits :
      (boundaries : List F) (v : F) (counts : List ℕ)
      → length counts ≡ suc (length boundaries)
      → bisect_right fl boundaries v < length counts
  fits boundaries v counts h = omega (arith, bisect_right_bound boundaries v)

  sum-histogram :
      (boundaries values : List F) (counts : List ℕ)
      → length counts ≡ suc (length boundaries)
      → sum (histogram fl boundaries values counts) ≡ sum counts + length values
  unfolding histogram
  sum-histogram boundaries [] counts h = omega arith
  sum-histogram boundaries (v ∷ vs) counts h =
      let i = bisect_right fl boundaries v in
      let later = sum-histogram boundaries vs (bump i counts) (length-bump i counts ∙ h) in
      let here = sum-bump i counts (fits boundaries v counts h) in omega (arith, later, here)

  entry-histogram :
      (k : ℕ) (boundaries values : List F) (counts : List ℕ)
      → length counts ≡ suc (length boundaries)
      → entry k (histogram fl boundaries values counts)
        ≡ entry k counts + count (in_bin boundaries k) values
  unfolding histogram
  entry-histogram k boundaries [] counts h = omega arith
  entry-histogram k boundaries (v ∷ vs) counts h =
      let i = bisect_right fl boundaries v in
      let later = entry-histogram k boundaries vs (bump i counts) (length-bump i counts ∙ h) in
      let here = entry-bump i k counts (fits boundaries v counts h) in ground (arith, later, here)

  histogram-IsHistogram :
      (boundaries values : List F)
      → IsHistogram boundaries values
          (histogram fl boundaries values (zeros fl (length boundaries + 1)))
  histogram-IsHistogram boundaries values =
      let n = length boundaries + 1 in
      let size : length (zeros fl n) ≡ suc (length boundaries) =
        omega (arith, length-zeros F fl n) in
      record {
        bins = length-histogram boundaries values (zeros fl n) ∙ size;
        each = λ k.
            omega
              (arith, entry-histogram k boundaries values (zeros fl n) size, entry-zeros F fl k n);
        whole = omega (arith, sum-histogram boundaries values (zeros fl n) size, sum-zeros F fl n);
      }

  -- Both cohorts are counted over the same bins, which are bounded by values strictly inside the
  -- reference.
  pub record IsBinned (left right : List F) (result : Psi F) : Type 0 where
    pub bin_count : result.effective_bin_count ≡ suc (length result.boundaries)
    pub some_boundary : length result.boundaries ≢ 0
    pub reference_bins : IsHistogram result.boundaries left result.reference_counts
    pub comparison_bins : IsHistogram result.boundaries right result.comparison_counts

  abbrev pub IsPsi : List F → List F → Metric (Psi F) → Type 0
  IsPsi left right (available result) = IsBinned left right result
  IsPsi left right (unavailable reason) = Unit

module _ {F : Type 0} ⦃e : Eq F⦄ (fl : Floats F) where
  metric_of-IsPsi :
      (smoothing : F) (left right boundaries : List F)
      → IsPsi fl left right (metric_of fl smoothing left right boundaries)
  unfolding metric_of psi_with
  metric_of-IsPsi smoothing left right boundaries =
      elim (Bool-cases (ltb (length (to_set left)) 2)) [
        | inl few ↦ rw few tt
        | inr enough ↦ rw enough (elim (Bool-cases (nat_beq (length boundaries) 0)) [
          | inl none_left ↦ rw none_left tt
          | inr inside ↦ rw inside (record {
            bin_count = omega arith;
            some_boundary = λ z. cc (inside, (nat_beq_iff (length boundaries) 0).1 z);
            reference_bins = histogram-IsHistogram fl boundaries left;
            comparison_bins = histogram-IsHistogram fl boundaries right;
          })
        ])
      ]

  psi_of-IsPsi :
      (bins : ℕ) (smoothing : F) (left right : List F) {metric : Metric (Psi F)}
      → psi_of fl bins smoothing left right ≡ ok metric
      → IsPsi fl left right metric
  unfolding psi_of
  psi_of-IsPsi bins smoothing [] right h = subst (IsPsi fl [] right) (ok-eq h) tt
  psi_of-IsPsi bins smoothing (x ∷ xs) [] h = subst (IsPsi fl (x ∷ xs) []) (ok-eq h) tt
  psi_of-IsPsi bins smoothing (x ∷ xs) (y ∷ ys) h =
      let (found, c, h) = >>=-eq-ok (edges fl (x ∷ xs) bins (range 1 (bins - 1))) _ h in
      subst (IsPsi fl (x ∷ xs) (y ∷ ys)) (ok-eq h) (metric_of-IsPsi smoothing (x ∷ xs) (y ∷ ys) _)

  -- Where `psi` returns, at least two bins and a positive smoothing were asked for; and where its
  -- value is available, there is a boundary, both cohorts are counted over one more bin than
  -- boundaries, each count is the number of finite values of the cohort that `bisect_right` puts
  -- into that bin, and the counts of a cohort add up to its finite values.
  pub psi-IsPsi :
      (reference comparison : List (Value F)) (bins : ℕ) (smoothing : F) (metric : Metric (Psi F))
      → psi fl reference comparison bins smoothing ≡ ok metric
      → (2 ≤ bins)
        × (fl.at_most smoothing (fl.of_nat 0) ≡ false)
        × ((left : List F) × (right : List F) × (finite fl reference ≡ ok left)
            × (finite fl comparison ≡ ok right)
            × IsPsi fl left right metric)
  unfolding psi
  psi-IsPsi reference comparison bins smoothing metric h =
      let bad = ltb bins 2 || fl.at_most smoothing (fl.of_nat 0) in
      let (_, guard, h) = >>=-eq-ok (raise_if bad bad_bins) _ h in
      let (few, positive) = or-eq-false (ltb bins 2) _ (raise_if-eq-ok bad_bins bad guard) in
      let (left, l, h) = >>=-eq-ok (finite fl reference) _ h in
      let (right, r, h) = >>=-eq-ok (finite fl comparison) _ h in
      (ltb→le bins 2 few, positive, (left, right, l, r, psi_of-IsPsi bins smoothing left right h))
