-- ===== src/Feedback/Monitoring.antt =====
-- feedback/monitoring.py, `_derive`: the coverage of a scored population by resolved feedback.
-- The quality numbers are floating-point results of scikit-learn: of `_metrics` in
-- monitoring/outcomes.py stand here the counts and whether the numbers are available. Ages in
-- hours are left out, and a share is its two counts.
pub mod Labels
pub mod Population
mod Examples
use sentinel_aegis_forge.Common.{
  ℕ, ◌+◌, ◌-◌, String, Bool, true, false, not, Option, none, some, List, [], ◌∷◌, map, arith, ltb,
  leb, if◌then◌else◌, ◌==◌, nat_eq, string_eq, pair_eq, list_eq, length, select, count, to_set,
  Dict, lookup, Result, ok, err, ◌>>=◌, ◌>>◌, raise_if, text_leb, sort,
}
use sentinel_aegis_forge.Datasets.Labels.{Outcome, fraud, legit}
use sentinel_aegis_forge.Feedback.Resolution.{
  EffectiveState, ResolvedFeedback, confirmed_projection,
}

-- A row of the predictions; `dimension` is `row[dimension]` for the dimensions of `SEGMENTS`.
pub record Prediction : Type 0 where
  pub event_id : String
  pub dimension : String → String

pub data MonitoringError : Type 0 where
  no_resolution : String → MonitoringError
  conflicting_providers : List String → MonitoringError
  not_reconciled division_by_zero : MonitoringError

-- `buckets`, by state
pub record Buckets : Type 0 where
  pub fraud : ℕ
  pub legit : ℕ
  pub pending : ℕ
  pub retracted : ℕ
  pub not_yet_observed : ℕ
  pub no_case : ℕ
  pub ambiguous : ℕ

abbrev pub has_state : EffectiveState → ResolvedFeedback → Bool
has_state EffectiveState.fraud item = elim item.state [ EffectiveState.fraud ↦ true | _ ↦ false ]
has_state EffectiveState.legit item = elim item.state [ EffectiveState.legit ↦ true | _ ↦ false ]
has_state EffectiveState.pending item = elim item.state [
  | EffectiveState.pending ↦ true
  | _ ↦ false
]
has_state EffectiveState.retracted item = elim item.state [
  | EffectiveState.retracted ↦ true
  | _ ↦ false
]
has_state EffectiveState.not_yet_observed item = elim item.state [
  | EffectiveState.not_yet_observed ↦ true
  | _ ↦ false
]
has_state EffectiveState.no_case item = elim item.state [
  | EffectiveState.no_case ↦ true
  | _ ↦ false
]
has_state EffectiveState.ambiguous item = elim item.state [
  | EffectiveState.ambiguous ↦ true
  | _ ↦ false
]

abbrev pub resolutions : Dict String ResolvedFeedback → List ResolvedFeedback
resolutions [] = []
resolutions ((_, item) ∷ rest) = item ∷ resolutions rest

abbrev pub tally : List ResolvedFeedback → Buckets
tally items = record {
  fraud = count (has_state EffectiveState.fraud) items;
  legit = count (has_state EffectiveState.legit) items;
  pending = count (has_state EffectiveState.pending) items;
  retracted = count (has_state EffectiveState.retracted) items;
  not_yet_observed = count (has_state EffectiveState.not_yet_observed) items;
  no_case = count (has_state EffectiveState.no_case) items;
  ambiguous = count (has_state EffectiveState.ambiguous) items;
}

-- `sum(buckets.values())`
abbrev pub sum_of : Buckets → ℕ
sum_of b =
    b.fraud
    + (b.legit + (b.pending + (b.retracted + (b.not_yet_observed + (b.no_case + b.ambiguous)))))

abbrev pub conflicts : List ResolvedFeedback → List String
conflicts [] = []
conflicts (item ∷ rest) =
    if has_state EffectiveState.ambiguous item
    then item.event_id ∷ conflicts rest
    else conflicts rest

-- `resolved[row["event_id"]]`
pub resolution_of : String → Option ResolvedFeedback → Result MonitoringError ResolvedFeedback
resolution_of event_id none = err (no_resolution event_id)
resolution_of event_id (some item) = ok item

unfoldable pub resolve_rows :
    List Prediction
    → Dict String ResolvedFeedback
    → Result MonitoringError (List (Prediction × ResolvedFeedback))
unfolding resolution_of
resolve_rows [] resolved = ok []
resolve_rows (row ∷ rest) resolved = do
  item ← resolution_of row.event_id (lookup row.event_id resolved)
  others ← resolve_rows rest resolved
  ok ((row, item) ∷ others)

-- the rows with a confirmed outcome
abbrev pub keep_confirmed :
    Prediction → Option Outcome → List (Prediction × Outcome) → List (Prediction × Outcome)
keep_confirmed row none rest = rest
keep_confirmed row (some outcome) rest = (row, outcome) ∷ rest

unfoldable pub labeled_rows : List (Prediction × ResolvedFeedback) → List (Prediction × Outcome)
labeled_rows [] = []
labeled_rows ((row, item) ∷ rest) =
    keep_confirmed row (confirmed_projection item) (labeled_rows rest)

abbrev pub is_positive : Prediction × Outcome → Bool
is_positive (_, outcome) = elim outcome [ Outcome.fraud ↦ true | Outcome.legit ↦ false ]

pub data Support : Type 0 where
  available insufficient_total_rows insufficient_class_support : Support

pub record Quality : Type 0 where
  pub rows : ℕ
  pub positives : ℕ
  pub negatives : ℕ
  pub support : Support

pub record Minimum : Type 0 where
  pub minimum_rows : ℕ
  pub minimum_per_class : ℕ

abbrev pub smaller : ℕ → ℕ → ℕ
smaller a b = if leb a b then a else b

-- `_metrics`, without the numbers
unfoldable pub metrics : List (Prediction × Outcome) → Minimum → Quality
metrics rows minimum =
    let positives = count is_positive rows in
    let negatives = length rows - positives in
    record {
      rows = length rows;
      positives = positives;
      negatives = negatives;
      support =
          if ltb (length rows) minimum.minimum_rows
          then insufficient_total_rows
          else if ltb (smaller positives negatives) minimum.minimum_per_class
          then insufficient_class_support
          else available;
    }

pub record Coverage : Type 0 where
  pub scored_events : ℕ
  pub eligible_labeled_events : ℕ
  pub confirmed_fraud : ℕ
  pub confirmed_legit : ℕ
  pub pending_cases : ℕ
  pub retracted_cases : ℕ
  pub not_yet_observed_events : ℕ
  pub events_with_no_feedback_case : ℕ
  pub ambiguous_events : ℕ

pub record Group : Type 0 where
  pub value : String
  pub scored_events : ℕ
  pub labeled_events : ℕ
  pub unlabeled_events : ℕ
  pub quality : Quality

abbrev pub values_of : String → List Prediction → List String
values_of dimension [] = []
values_of dimension (row ∷ rest) = row.dimension dimension ∷ values_of dimension rest

abbrev pub in_group : String → String → Prediction → Bool
in_group dimension value row = row.dimension dimension == value

abbrev pub labeled_in : String → String → Prediction × Outcome → Bool
labeled_in dimension value (row, _) = in_group dimension value row

unfoldable pub group_of :
    String → List Prediction → List (Prediction × Outcome) → Minimum → String → Group
unfolding metrics
group_of dimension predictions labeled minimum value =
    let group = select (in_group dimension value) predictions in
    let group_labeled = select (labeled_in dimension value) labeled in
    record {
      value = value;
      scored_events = length group;
      labeled_events = length group_labeled;
      unlabeled_events = length group - length group_labeled;
      quality = metrics group_labeled minimum;
    }

unfoldable pub segment_of :
    List Prediction → List (Prediction × Outcome) → Minimum → String → List Group
unfolding group_of
segment_of predictions labeled minimum dimension =
    map (group_of dimension predictions labeled minimum)
      (sort text_leb (to_set (values_of dimension predictions)))

pub record Derived : Type 0 where
  pub states : List ResolvedFeedback
  pub coverage : Coverage
  pub quality : Quality
  pub segments : Dict String (List Group)

abbrev pub states_of : List (Prediction × ResolvedFeedback) → List ResolvedFeedback
states_of [] = []
states_of ((_, item) ∷ rest) = item ∷ states_of rest

pub segments_of :
    List Prediction → List (Prediction × Outcome) → Minimum → List String → Dict String (List Group)
unfolding segment_of
segments_of predictions labeled minimum [] = []
segments_of predictions labeled minimum (dimension ∷ rest) =
    (dimension, segment_of predictions labeled minimum dimension)
    ∷ segments_of predictions labeled minimum rest

-- `_derive`; a share of an empty population divides by zero
unfoldable pub derive :
    List Prediction
    → Dict String ResolvedFeedback
    → Minimum
    → List String
    → Result MonitoringError Derived
unfolding resolve_rows labeled_rows segments_of metrics
derive predictions resolved minimum dimensions = do
  rows ← resolve_rows predictions resolved
  let items = resolutions resolved
  let buckets = tally items
  raise_if (ltb 0 buckets.ambiguous) (conflicting_providers (conflicts items))
  let labeled = labeled_rows rows
  raise_if (not (sum_of buckets == length predictions)) not_reconciled
  raise_if (length predictions == 0) division_by_zero
  ok (record {
    states = states_of rows;
    coverage = record {
      scored_events = length predictions;
      eligible_labeled_events = length labeled;
      confirmed_fraud = buckets.fraud;
      confirmed_legit = buckets.legit;
      pending_cases = buckets.pending;
      retracted_cases = buckets.retracted;
      not_yet_observed_events = buckets.not_yet_observed;
      events_with_no_feedback_case = buckets.no_case;
      ambiguous_events = 0;
    };
    quality = metrics labeled minimum;
    segments = segments_of predictions labeled minimum dimensions;
  })
