-- ===== src/Feedback/Resolution.antt =====
-- feedback/resolution.py: revision-order, receipt-time resolution as of a cutoff.
mod Causal
pub mod Cases
pub mod Cutoff
pub mod Grouped
pub mod Returns
pub mod Requests
mod Examples
use sentinel_aegis_forge.Common.{
  range, ℕ, ◌+◌, max, String, Option, none, some, Bool, true, false, not, ◌&&◌, List, [], ◌∷◌, ◌++◌,
  Result, ok, err, ◌>>=◌, ◌>>◌, raise_if, map_error, Dict, lookup, insert, keys, contains, any,
  to_set, length, leb, ltb, ◌==◌, nat_eq, string_eq, pair_eq, list_eq, if◌then◌else◌, sort,
  text_leb,
}
use sentinel_aegis_forge.Datasets.Labels.{Outcome}
use sentinel_aegis_forge.Datasets.Time.{Instant, Datetime, require_utc}
use sentinel_aegis_forge.Feedback.Contract.{FeedbackStatus, FeedbackRecord}

pub data EffectiveState : Type 0 where
  fraud legit pending retracted not_yet_observed no_case ambiguous : EffectiveState

pub data ResolutionError : Type 0 where
  invalid_as_of : ResolutionError
  incomplete_history case_changes_event : String × String → ResolutionError
  duplicate_request : String → ResolutionError

pub record SelectedRevision : Type 0 where
  pub revision : FeedbackRecord
  pub effective_available_at : Instant

pub record ResolvedFeedback : Type 0 where
  pub event_id : String
  pub state : EffectiveState
  pub selected : List SelectedRevision
  pub case_count : ℕ

unfoldable pub confirmed_projection : ResolvedFeedback → Option Outcome
confirmed_projection item = elim item.state [
  | EffectiveState.fraud ↦ some Outcome.fraud
  | EffectiveState.legit ↦ some Outcome.legit
  | _ ↦ none
]

abbrev pub CaseKey : Type 0
CaseKey = String × String

abbrev pub Cases : Type 0
Cases = Dict CaseKey (List FeedbackRecord)

-- `cases[key]`, a `defaultdict(list)`
history_of : CaseKey → Cases → List FeedbackRecord
history_of key cases = elim (lookup key cases) [ none ↦ [] | some history ↦ history ]

abbrev pub case_of : FeedbackRecord → CaseKey
case_of item = (item.provider_id, item.provider_case_id)

-- `cases[key].append(record)`
unfoldable pub grow : FeedbackRecord → Cases → Cases
unfolding history_of
grow item cases = insert (case_of item) (history_of (case_of item) cases ++ item ∷ []) cases

group_from : Cases → List FeedbackRecord → Cases
unfolding grow
group_from cases [] = cases
group_from cases (item ∷ rest) = group_from (grow item cases) rest

-- the first loop
unfoldable pub group_cases : List FeedbackRecord → Cases
unfolding group_from
group_cases = group_from []

-- tuples compare by the first part that differs
abbrev pub key_leb : CaseKey → CaseKey → Bool
key_leb (a, b) (c, d) = if a == c then text_leb b d else text_leb a c

-- `sorted(cases.items())`: the keys differ, so the histories are not compared
abbrev pub item_leb : CaseKey × List FeedbackRecord → CaseKey × List FeedbackRecord → Bool
item_leb (a, _) (b, _) = key_leb a b

abbrev pub revision_leb : FeedbackRecord → FeedbackRecord → Bool
revision_leb a b = leb a.source_revision b.source_revision

abbrev pub revisions : List FeedbackRecord → List ℕ
revisions [] = []
revisions (item ∷ rest) = item.source_revision ∷ revisions rest

abbrev pub event_ids_of : List FeedbackRecord → List String
event_ids_of [] = []
event_ids_of (item ∷ rest) = item.event_id ∷ event_ids_of rest

-- the inner loop: `availability` only grows, and a later revision replaces an earlier one
unfoldable pub select_from :
    Instant → Instant → Option SelectedRevision → List FeedbackRecord → Option SelectedRevision
select_from cutoff availability chosen [] = chosen
select_from cutoff availability chosen (item ∷ rest) =
    let available = max availability item.received_at in
    select_from cutoff available
      (if leb available cutoff
        then some (record { revision = item; effective_available_at = available })
        else chosen)
      rest

-- the selection on a checked history; `ordered[0]` is there because its event id is
select_revision : Instant → List FeedbackRecord → Option SelectedRevision
unfolding select_from
select_revision cutoff [] = none
select_revision cutoff (first ∷ rest) = select_from cutoff first.received_at none (first ∷ rest)

pub record CaseView : Type 0 where
  pub event_id : String
  pub chosen : Option SelectedRevision

first_event : CaseKey → List FeedbackRecord → Result ResolutionError String
first_event key [] = err (case_changes_event key)
first_event key (first ∷ _) = ok first.event_id

-- the body of the second loop, up to its writes
unfoldable pub resolve_case :
    Instant → CaseKey → List FeedbackRecord → Result ResolutionError CaseView
unfolding first_event select_revision
resolve_case cutoff key history = do
  let ordered = sort revision_leb history
  raise_if (not (revisions ordered == range 1 (length ordered))) (incomplete_history key)
  raise_if (not (length (to_set (event_ids_of ordered)) == 1)) (case_changes_event key)
  event_id ← first_event key ordered
  ok (record { event_id = event_id; chosen = select_revision cutoff ordered })

-- `by_event` and `known_case_counts`
pub record Index : Type 0 where
  pub by_event : Dict String (List SelectedRevision)
  pub known_case_counts : Dict String ℕ

unfoldable pub chosen_for : String → Dict String (List SelectedRevision) → List SelectedRevision
chosen_for key d = elim (lookup key d) [ none ↦ [] | some l ↦ l ]

unfoldable pub count_for : String → Dict String ℕ → ℕ
count_for key d = elim (lookup key d) [ none ↦ 0 | some n ↦ n ]

abbrev pub empty_index : Index
empty_index = record { by_event = []; known_case_counts = [] }

-- the writes of the second loop's body
record_case : CaseView → Index → Index
unfolding chosen_for count_for
record_case view index = record {
  by_event = elim view.chosen [
    | none ↦ index.by_event
    | some s ↦
        insert view.event_id (chosen_for view.event_id index.by_event ++ s ∷ []) index.by_event
  ];
  known_case_counts =
      insert view.event_id (count_for view.event_id index.known_case_counts + 1)
        index.known_case_counts;
}

index_from : Instant → List (CaseKey × List FeedbackRecord) → Index → Result ResolutionError Index
unfolding resolve_case record_case
index_from cutoff [] index = ok index
index_from cutoff ((key, history) ∷ rest) index = do
  view ← resolve_case cutoff key history
  index_from cutoff rest (record_case view index)

unfoldable pub build_index : Instant → List FeedbackRecord → Result ResolutionError Index
unfolding index_from group_cases
build_index cutoff records = index_from cutoff (sort item_leb (group_cases records)) empty_index

abbrev pub is_fraud : SelectedRevision → Bool
is_fraud s = elim s.revision.status [ FeedbackStatus.confirmed_fraud ↦ true | _ ↦ false ]

abbrev pub is_legit : SelectedRevision → Bool
is_legit s = elim s.revision.status [ FeedbackStatus.confirmed_legit ↦ true | _ ↦ false ]

abbrev pub is_retracted : SelectedRevision → Bool
is_retracted s = elim s.revision.status [ FeedbackStatus.retracted ↦ true | _ ↦ false ]

abbrev pub is_pending : SelectedRevision → Bool
is_pending s = elim s.revision.status [ FeedbackStatus.pending ↦ true | _ ↦ false ]

-- the ladder over `statuses`
unfoldable pub effective_state : List SelectedRevision → ℕ → EffectiveState
effective_state chosen case_count =
    if any is_fraud chosen && any is_legit chosen
    then EffectiveState.ambiguous
    else if any is_fraud chosen
    then EffectiveState.fraud
    else if any is_legit chosen
    then EffectiveState.legit
    else if any is_retracted chosen
    then EffectiveState.retracted
    else if any is_pending chosen
    then EffectiveState.pending
    else if ltb 0 case_count
    then EffectiveState.not_yet_observed
    else EffectiveState.no_case

abbrev pub selected_leb : SelectedRevision → SelectedRevision → Bool
selected_leb a b = key_leb (case_of a.revision) (case_of b.revision)

-- one requested event
unfoldable pub resolve_event : Index → String → ResolvedFeedback
unfolding chosen_for count_for effective_state
resolve_event index event_id =
    let chosen = sort selected_leb (chosen_for event_id index.by_event) in
    let case_count = count_for event_id index.known_case_counts in
    record {
      event_id = event_id;
      state = effective_state chosen case_count;
      selected = chosen;
      case_count = case_count;
    }

-- the last loop; a new key goes to the end of `result`
resolve_from :
    Index
    → Dict String ResolvedFeedback
    → List String
    → Result ResolutionError (Dict String ResolvedFeedback)
unfolding resolve_event
resolve_from index result [] = ok result
resolve_from index result (event_id ∷ rest) = do
  raise_if (contains event_id (keys result)) (duplicate_request event_id)
  resolve_from index (result ++ (event_id, resolve_event index event_id) ∷ []) rest

unfoldable pub resolve_feedback :
    List FeedbackRecord
    → Datetime
    → List String
    → Result ResolutionError (Dict String ResolvedFeedback)
unfolding build_index resolve_from
resolve_feedback records as_of event_ids = do
  cutoff ← map_error (λ _. invalid_as_of) (require_utc as_of)
  index ← build_index cutoff records
  resolve_from index [] event_ids
