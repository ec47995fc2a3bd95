-- ===== src/Feedback/Monitoring/Population/Groups.antt =====
-- What a quality and a group of a segment count.
use sentinel_aegis_forge.Common.{
  ◌+◌, ◌≤◌, String, ◌≡◌, refl, sym, ap, ◌∙◌, subst, Bool, true, not, ◌&&◌, ◌||◌, List, [], ◌∷◌, map,
  arith, eq_iff, Bool-cases, inl, inr, ◌==◌, nat_eq, string_eq, pair_eq, list_eq, length, select,
  count, contains, to_set, sort, text_leb, contains-map-sort, IsNodup-map-sort, All, IsNodup, Dict,
  keys, ok,
}
use sentinel_aegis_forge.Datasets.Labels.{Outcome}
use sentinel_aegis_forge.Feedback.Resolution.{EffectiveState, ResolvedFeedback}
use sentinel_aegis_forge.Feedback.Monitoring.{
  Prediction, resolve_rows, labeled_rows, available, Quality, Minimum, metrics, Group, in_group,
  values_of, group_of, segment_of, segments_of,
}
use sentinel_aegis_forge.Feedback.Monitoring.Labels.{
  in_state, is_labeled, IsLabeling, labeled_rows-IsLabeling,
}

length-select : {A : Type 0} (t : A → Bool) (l : List A) → length (select t l) ≡ count t l
length-select t [] = refl
length-select t (x ∷ l) = ground (arith, length-select t l)

pub select_all : {A : Type 0} (l : List A) → select (λ _. true) l ≡ l
select_all [] = refl
select_all (x ∷ l) = ap (◌∷◌ x) (select_all l)

count_split :
    {A : Type 0} (u v : A → Bool) (l : List A)
    → count (λ x. u x && v x) l + count (λ x. u x && not (v x)) l ≡ count u l
count_split u v [] = refl
count_split u v (x ∷ l) = ground (arith, count_split u v l)

-- Support for the quality numbers.
abbrev pub Supported : Minimum → Quality → Type 0
Supported minimum q =
    q.support ≡ available
    → (minimum.minimum_rows ≤ q.rows)
      × (minimum.minimum_per_class ≤ q.positives)
      × (minimum.minimum_per_class ≤ q.negatives)

pub metrics-Supported :
    (rows : List (Prediction × Outcome)) (minimum : Minimum)
    → Supported minimum (metrics rows minimum)
unfolding metrics
metrics-Supported rows minimum = λ h. (ground arith, ground arith, ground arith)

pub metrics-rows :
    (rows : List (Prediction × Outcome)) (minimum : Minimum)
    → (metrics rows minimum).rows ≡ length rows
unfolding metrics
metrics-rows rows minimum = refl

again :
    (k x : String) (xs : List String)
    → contains x xs ≡ true
    → contains k xs ≡ (k == x || contains k xs)
again k x xs old = elim (Bool-cases (k == x)) [
  | inl q ↦ rw q (ap (λ t. contains t xs) ((eq_iff k x).0 q) ∙ old)
  | inr q ↦ rw q refl
]

contains-map-to_set :
    (k : String) (xs : List String) → contains k (map (λ v. v) (to_set xs)) ≡ contains k xs
contains-map-to_set k [] = refl
contains-map-to_set k (x ∷ xs) = elim (Bool-cases (contains x xs)) [
  | inl old ↦ rw old (contains-map-to_set k xs ∙ again k x xs old)
  | inr new ↦ rw new (ap (λ b. k == x || b) (contains-map-to_set k xs))
]

IsNodup-map-to_set : (xs : List String) → IsNodup (map (λ v. v) (to_set xs))
IsNodup-map-to_set [] = tt
IsNodup-map-to_set (x ∷ xs) = elim (Bool-cases (contains x xs)) [
  | inl old ↦ rw old (IsNodup-map-to_set xs)
  | inr new ↦ rw new (contains-map-to_set x xs ∙ new, IsNodup-map-to_set xs)
]

module _ (resolved : Dict String ResolvedFeedback) where
  -- A quality counts the confirmed predictions that pass a test.
  pub record IsMeasuredBy (u : Prediction → Bool) (predictions : List Prediction) (q : Quality)
      : Type 0 where
    pub rows : q.rows ≡ count (λ row. u row && is_labeled resolved row) predictions
    pub frauds :
        q.positives ≡ count (λ row. u row && in_state resolved EffectiveState.fraud row) predictions
    pub legits :
        q.negatives ≡ count (λ row. u row && in_state resolved EffectiveState.legit row) predictions

  pub metrics-IsMeasuredBy :
      (u : Prediction → Bool) (predictions : List Prediction) (l : List (Prediction × Outcome))
      (minimum : Minimum)
      → IsLabeling resolved u predictions l
      → IsMeasuredBy u predictions (metrics l minimum)
  unfolding metrics
  metrics-IsMeasuredBy u predictions l minimum labels = record {
    rows = labels.rows;
    frauds = labels.frauds;
    legits = omega (arith, labels.legits);
  }

  -- A group counts the predictions with its value, those with a confirmed outcome, and the others.
  pub record IsGroup (minimum : Minimum) (predictions : List Prediction) (dimension : String)
      (g : Group) : Type 0 where
    pub scored : g.scored_events ≡ count (in_group dimension g.value) predictions
    pub labeled :
        g.labeled_events
        ≡ count (λ row. in_group dimension g.value row && is_labeled resolved row) predictions
    pub unlabeled :
        g.unlabeled_events
        ≡ count (λ row. in_group dimension g.value row && not (is_labeled resolved row)) predictions
    pub quality : IsMeasuredBy (in_group dimension g.value) predictions g.quality
    pub supported : Supported minimum g.quality

  group_of-IsGroup :
      (minimum : Minimum) (predictions : List Prediction)
      (rows : List (Prediction × ResolvedFeedback)) (dimension value : String)
      → resolve_rows predictions resolved ≡ ok rows
      → IsGroup minimum predictions dimension
          (group_of dimension predictions (labeled_rows rows) minimum value)
  unfolding group_of
  group_of-IsGroup minimum predictions rows dimension value looped =
      let u = in_group dimension value in
      let labels = labeled_rows-IsLabeling resolved u predictions rows looped in
      record {
        scored = length-select u predictions;
        labeled = labels.rows;
        unlabeled = omega (
          arith,
          labels.rows,
          length-select u predictions,
          count_split u (is_labeled resolved) predictions,
        );
        quality = metrics-IsMeasuredBy u predictions _ minimum labels;
        supported = metrics-Supported _ minimum;
      }

  abbrev pub values_in : List Group → List String
  values_in [] = []
  values_in (g ∷ gs) = g.value ∷ values_in gs

  -- A segment has one group for each value of its dimension.
  pub record IsSegment (minimum : Minimum) (predictions : List Prediction)
      (segment : String × List Group) : Type 0 where
    pub values :
        (k : String)
        → contains k (values_in segment.1) ≡ contains k (values_of segment.0 predictions)
    pub once : IsNodup (values_in segment.1)
    pub groups : All (IsGroup minimum predictions segment.0) segment.1

  module _ (minimum : Minimum) (predictions : List Prediction)
      (rows : List (Prediction × ResolvedFeedback))
      (looped : resolve_rows predictions resolved ≡ ok rows) where
    groups_of-IsGroup :
        (dimension : String) (values : List String)
        → All
            (IsGroup minimum predictions dimension)
            (map (group_of dimension predictions (labeled_rows rows) minimum) values)
    groups_of-IsGroup dimension [] = tt
    groups_of-IsGroup dimension (value ∷ values) = (
      group_of-IsGroup minimum predictions rows dimension value looped,
      groups_of-IsGroup dimension values,
    )

    values_in-groups :
        (dimension : String) (values : List String)
        → values_in (map (group_of dimension predictions (labeled_rows rows) minimum) values)
          ≡ map (λ v. v) values
    unfolding group_of
    values_in-groups dimension [] = refl
    values_in-groups dimension (value ∷ values) = ap (◌∷◌ value) (values_in-groups dimension values)

    segment_of-IsSegment :
        (dimension : String)
        → IsSegment minimum predictions
            (dimension, segment_of predictions (labeled_rows rows) minimum dimension)
    unfolding segment_of
    segment_of-IsSegment dimension =
        let values = to_set (values_of dimension predictions) in
        let same = values_in-groups dimension (sort text_leb values) in
        record {
          values = λ k.
              ap (contains k) same
              ∙ (contains-map-sort text_leb (λ v. v) k values
                  ∙ contains-map-to_set k (values_of dimension predictions));
          once = subst IsNodup (sym same) (
              IsNodup-map-sort text_leb (λ v. v) values
                (IsNodup-map-to_set (values_of dimension predictions)));
          groups = groups_of-IsGroup dimension (sort text_leb values);
        }

    pub segments_of-IsSegment :
        (dimensions : List String)
        → (keys (segments_of predictions (labeled_rows rows) minimum dimensions) ≡ dimensions)
          × All
              (IsSegment minimum predictions)
              (segments_of predictions (labeled_rows rows) minimum dimensions)
    unfolding segments_of
    segments_of-IsSegment [] = (refl, tt)
    segments_of-IsSegment (dimension ∷ rest) =
        let (same, segments) = segments_of-IsSegment rest in
        (ap (◌∷◌ dimension) same, (segment_of-IsSegment dimension, segments))
