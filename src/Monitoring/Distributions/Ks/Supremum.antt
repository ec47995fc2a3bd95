-- ===== src/Monitoring/Distributions/Ks/Supremum.antt =====
-- The pass of `ks_distance` against the two empirical distribution functions.
use sentinel_aegis_forge.Common.{
  ℕ, ◌+◌, ◌≡◌, refl, sym, ap, ◌∙◌, subst, ◌⊎◌, inl, inr, true, false, List, [], ◌∷◌, ◌++◌, arith,
  Bool-cases, Eq, nat_eq, string_eq, pair_eq, list_eq, length, All, to_set, ok, >>=-eq-ok, ok-eq,
  IsSorted, sort-IsSorted,
}
use sentinel_aegis_forge.Monitoring.Distributions.{
  Floats, IsOrdered, Value, empty_cohort, Metric, available, unavailable, finite, collect,
}
use sentinel_aegis_forge.Monitoring.Distributions.Ks.{
  Cursor, advance, gap, larger, ks_from, at_or_below, cdf_gap, greatest_gap, points, start, ks_of,
  ks_distance,
}

module _ {F : Type 0} (fl : Floats F) (o : IsOrdered fl) where
  none_below :
      (v x : F) (xs : List F)
      → fl.at_most x v ≡ false
      → All (λ y. fl.at_most x y ≡ true) xs
      → at_or_below fl v xs ≡ 0
  none_below v x [] above h = refl
  none_below v x (y ∷ ys) above h = elim (Bool-cases (fl.at_most y v)) [
    | inl below ↦ cc (o.trans x y v h.0 below, above)
    | inr other ↦ rw other (none_below v x ys above h.1)
  ]

  -- What the cursor has passed is what is at most `v`.
  advance-passed :
      (v : F) (i : ℕ) (xs : List F)
      → IsSorted fl.at_most xs
      → (advance fl v i xs).passed ≡ i + at_or_below fl v xs
  unfolding advance
  advance-passed v i [] h = omega arith
  advance-passed v i (x ∷ xs) h = elim (Bool-cases (fl.at_most x v)) [
    | inl below ↦ rw below (omega (arith, advance-passed v (i + 1) xs h.1))
    | inr above ↦ rw above (omega (arith, none_below v x xs above h.0))
  ]

  advance-IsSorted :
      (v : F) (i : ℕ) (xs : List F)
      → IsSorted fl.at_most xs
      → IsSorted fl.at_most (advance fl v i xs).rest
  unfolding advance
  advance-IsSorted v i [] h = h
  advance-IsSorted v i (x ∷ xs) h = elim (Bool-cases (fl.at_most x v)) [
    | inl below ↦ rw below (advance-IsSorted v (i + 1) xs h.1)
    | inr above ↦ rw above h
  ]

  -- Nothing is lost for a later value.
  advance-later :
      (v w : F) (i : ℕ) (xs : List F)
      → fl.at_most v w ≡ true
      → (advance fl v i xs).passed + at_or_below fl w (advance fl v i xs).rest
        ≡ i + at_or_below fl w xs
  unfolding advance
  advance-later v w i [] h = refl
  advance-later v w i (x ∷ xs) h = elim (Bool-cases (fl.at_most x v)) [
    | inl below ↦ rw (below, o.trans x v w below h) (omega (arith, advance-later v w (i + 1) xs h))
    | inr above ↦ rw above refl
  ]

  -- The cursor stands where no value of `vs` misses what was passed.
  record IsAt (whole vs : List F) (c : Cursor F) : Type 0 where
    pub ordered : IsSorted fl.at_most c.rest
    pub counted : All (λ w. at_or_below fl w whole ≡ c.passed + at_or_below fl w c.rest) vs

  advance-IsAt :
      (whole vs : List F) (v : F) (c : Cursor F)
      → All (λ w. fl.at_most v w ≡ true) vs
      → IsAt whole (v ∷ vs) c
      → IsAt whole vs (advance fl v c.passed c.rest)
  advance-IsAt whole vs v c later h = record {
    ordered = advance-IsSorted v c.passed c.rest h.ordered;
    counted = both vs later h.counted.1;
  }
    where
      both :
          (ws : List F)
          → All (λ w. fl.at_most v w ≡ true) ws
          → All (λ w. at_or_below fl w whole ≡ c.passed + at_or_below fl w c.rest) ws
          → All
              (λ w.
                at_or_below fl w whole
                ≡ (advance fl v c.passed c.rest).passed
                  + at_or_below fl w (advance fl v c.passed c.rest).rest)
              ws
      both [] a b = tt
      both (w ∷ ws) a b = (b.0 ∙ sym (advance-later v w c.passed c.rest a.0), both ws a.1 b.1)

  ks_from-greatest :
      (left right vs : List F) (c d : Cursor F) (distance : F)
      → IsSorted fl.at_most vs
      → IsAt left vs c
      → IsAt right vs d
      → ks_from fl (length left) (length right) vs c d distance
        ≡ greatest_gap fl left right vs distance
  unfolding ks_from
  ks_from-greatest left right [] c d distance h hc hd = refl
  ks_from-greatest left right (v ∷ vs) c d distance h hc hd =
      let passed_left = advance-passed v c.passed c.rest hc.ordered ∙ sym hc.counted.0 in
      let passed_right = advance-passed v d.passed d.rest hd.ordered ∙ sym hd.counted.0 in
      ks_from-greatest left right vs _ _ _ h.1 (advance-IsAt left vs v c h.0 hc)
        (advance-IsAt right vs v d h.0 hd)
      ∙ ap (λ t. greatest_gap fl left right vs (larger fl distance t))
          (ap (λ i. gap fl (length left) (length right) i (advance fl v d.passed d.rest).passed)
              passed_left
            ∙ ap (λ j. gap fl (length left) (length right) (at_or_below fl v left) j) passed_right)

  larger-above :
      (x y : F) → (fl.at_most x (larger fl x y) ≡ true) × (fl.at_most y (larger fl x y) ≡ true)
  larger-above x y = elim (Bool-cases (fl.at_most y x)) [
    | inl below ↦ rw below (self x, below)
    | inr above ↦ rw above (o.total y x above, self y)
  ]
    where
      self : (z : F) → fl.at_most z z ≡ true
      self z = elim (Bool-cases (fl.at_most z z)) [ inl h ↦ h | inr h ↦ o.total z z h ]

  greatest_gap-above :
      (left right vs : List F) (distance : F)
      → fl.at_most distance (greatest_gap fl left right vs distance) ≡ true
  greatest_gap-above left right [] distance = elim (Bool-cases (fl.at_most distance distance)) [
    | inl h ↦ h
    | inr h ↦ o.total distance distance h
  ]
  greatest_gap-above left right (v ∷ vs) distance =
      o.trans _ _ _ (larger-above distance (cdf_gap fl left right v)).0
        (greatest_gap-above left right vs (larger fl distance (cdf_gap fl left right v)))

  greatest_gap-bound :
      (left right vs : List F) (distance : F)
      → All
          (λ v.
            fl.at_most (cdf_gap fl left right v) (greatest_gap fl left right vs distance) ≡ true)
          vs
  greatest_gap-bound left right [] distance = tt
  greatest_gap-bound left right (v ∷ vs) distance =
      let next = larger fl distance (cdf_gap fl left right v) in
      (
        o.trans _ _ _ (larger-above distance (cdf_gap fl left right v)).1
            (greatest_gap-above left right vs next),
        greatest_gap-bound left right vs next,
      )

module _ {F : Type 0} ⦃e : Eq F⦄ (fl : Floats F) where
  -- The distance of two cohorts: the largest difference of their empirical distribution functions
  -- at the values they hold, and no smaller than any of these differences.
  pub record IsDistance (left right : List F) (distance : F) : Type 0 where
    pub exact : distance ≡ greatest_gap fl left right (points fl left right) (fl.of_nat 0)
    pub bound :
        All (λ v. fl.at_most (cdf_gap fl left right v) distance ≡ true) (points fl left right)

  abbrev pub IsKs : List F → List F → Metric F → Type 0
  IsKs left right (available distance) = IsDistance left right distance
  IsKs left right (unavailable reason) = (reason ≡ empty_cohort) × ((left ≡ []) ⊎ (right ≡ []))

  ks_of-IsKs :
      (o : IsOrdered fl) (left right : List F)
      → IsSorted fl.at_most left
      → IsSorted fl.at_most right
      → IsKs left right (ks_of fl left right)
  unfolding ks_of
  ks_of-IsKs o [] right hl hr = (refl, inl refl)
  ks_of-IsKs o (x ∷ xs) [] hl hr = (refl, inr refl)
  ks_of-IsKs o (x ∷ xs) (y ∷ ys) hl hr =
      let left = x ∷ xs in
      let right = y ∷ ys in
      let vs = points fl left right in
      let exact =
        ks_from-greatest fl o left right vs (start fl left) (start fl right) (fl.of_nat 0)
          (sort-IsSorted fl.at_most o.total o.trans (to_set (left ++ right))) (at_start left hl vs)
          (at_start right hr vs) in
      record {
        exact = exact;
        bound =
            subst (λ d. All (λ v. fl.at_most (cdf_gap fl left right v) d ≡ true) vs) (sym exact)
              (greatest_gap-bound fl o left right vs (fl.of_nat 0));
      }
    where
      at_start :
          (zs : List F) → IsSorted fl.at_most zs → (ws : List F) → IsAt fl o zs ws (start fl zs)
      at_start zs h ws = record { ordered = h; counted = same zs ws }
        where
          same : (us ts : List F) → All (λ w. at_or_below fl w us ≡ 0 + at_or_below fl w us) ts
          same us [] = tt
          same us (t ∷ ts) = (omega arith, same us ts)

  finite-IsSorted :
      (o : IsOrdered fl) (values : List (Value F)) {xs : List F}
      → finite fl values ≡ ok xs
      → IsSorted fl.at_most xs
  unfolding finite
  finite-IsSorted o values h =
      let (numbers, c, h) = >>=-eq-ok (collect values) _ h in
      subst (IsSorted fl.at_most) (ok-eq h) (sort-IsSorted fl.at_most o.total o.trans numbers)

  -- Where the values of both cohorts are finite numbers or missing, and `<=` is a total order, the
  -- single pass of `ks_distance` over the two sorted cohorts gives the same distance as comparing,
  -- at each distinct value, how many of each cohort are at most that value; the distance is no
  -- smaller than the difference at any value, and it is unavailable only for an empty cohort.
  pub ks_distance-IsKs :
      (o : IsOrdered fl) (reference comparison : List (Value F)) (metric : Metric F)
      → ks_distance fl reference comparison ≡ ok metric
      → (left : List F) × (right : List F) × (finite fl reference ≡ ok left)
        × (finite fl comparison ≡ ok right)
        × IsKs left right metric
  unfolding ks_distance
  ks_distance-IsKs o reference comparison metric h =
      let (left, l, h) = >>=-eq-ok (finite fl reference) _ h in
      let (right, r, h) = >>=-eq-ok (finite fl comparison) _ h in
      (
        left,
        right,
        l,
        r,
        subst (IsKs left right) (ok-eq h) (
            ks_of-IsKs o left right (finite-IsSorted o reference l)
              (finite-IsSorted o comparison r)),
      )
