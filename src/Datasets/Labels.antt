-- ===== src/Datasets/Labels.antt =====
-- datasets/labels.py: the label contract, the revision check and the resolution at a time.
-- A `UUID` is its canonical text; the lines of JSON are read by the standard library.
pub mod Latest
use Prim.Native.Nat.{◌^◌}
use sentinel_aegis_forge.Common.{
  range, ℕ, ◌-◌, String, Bool, true, false, not, ◌&&◌, ◌||◌, Option, none, some, List, [], ◌∷◌,
  ◌++◌, arith, ltb, leb, if◌then◌else◌, ◌==◌, nat_eq, string_eq, pair_eq, list_eq, length, Dict,
  lookup, insert, Result, ok, ◌>>=◌, ◌>>◌, raise_if, map_error, sort, ℤ, in_range, to_nat, strip,
}
use sentinel_aegis_forge.Datasets.Time.{Instant, Datetime, require_utc}

pub data Outcome : Type 0 where
  fraud legit : Outcome

unfoldable pub fraud_label : Outcome → ℕ
fraud_label fraud = 1
fraud_label legit = 0

pub data LabelError : Type 0 where
  not_utc blank_source bad_revision : LabelError
  revisions_not_contiguous times_contradict : String → LabelError

pub record TransactionOutcomeLabel : Type 0 where
  pub event_id : String
  pub outcome : Outcome
  pub label_observed_at : Instant
  pub label_source : String
  pub label_revision : ℕ

-- `TransactionOutcomeLabel.__post_init__`
unfoldable pub make_label :
    String → Outcome → Datetime → String → ℤ → Result LabelError TransactionOutcomeLabel
make_label event_id outcome observed source revision = do
  observed_at ← map_error (λ _. not_utc) (require_utc observed)
  raise_if (strip source == "") blank_source
  raise_if (not (in_range 1 (2 ^ 63 - 1) revision)) bad_revision
  ok (record {
    event_id = event_id;
    outcome = outcome;
    label_observed_at = observed_at;
    label_source = source;
    label_revision = to_nat revision;
  })

abbrev pub Histories : Type 0
Histories = Dict String (List TransactionOutcomeLabel)

history_of : String → Histories → List TransactionOutcomeLabel
history_of key d = elim (lookup key d) [ none ↦ [] | some history ↦ history ]

-- `histories.setdefault(record.event_id, []).append(record)`
histories_from : Histories → List TransactionOutcomeLabel → Histories
unfolding history_of
histories_from d [] = d
histories_from d (label ∷ rest) =
    histories_from (insert label.event_id (history_of label.event_id d ++ label ∷ []) d) rest

abbrev pub revision_leb : TransactionOutcomeLabel → TransactionOutcomeLabel → Bool
revision_leb a b = leb a.label_revision b.label_revision

abbrev pub revisions : List TransactionOutcomeLabel → List ℕ
revisions [] = []
revisions (label ∷ rest) = label.label_revision ∷ revisions rest

-- `any(later < earlier for earlier, later in zip(ordered, ordered[1:]))`
unfoldable pub any_retreat : List TransactionOutcomeLabel → Bool
any_retreat (earlier ∷ later ∷ rest) =
    ltb later.label_observed_at earlier.label_observed_at || any_retreat (later ∷ rest)
any_retreat _ = false

unfoldable pub check_history : String → List TransactionOutcomeLabel → Result LabelError (Unit {0})
unfolding any_retreat
check_history event_id history = do
  let ordered = sort revision_leb history
  raise_if (not (revisions ordered == range 1 (length ordered))) (revisions_not_contiguous event_id)
  raise_if (any_retreat ordered) (times_contradict event_id)

check_histories : Histories → Result LabelError (Unit {0})
unfolding check_history
check_histories [] = ok tt
check_histories ((event_id, history) ∷ rest) = do
  check_history event_id history
  check_histories rest

-- `_validate_revisions`
unfoldable pub validate_revisions : List TransactionOutcomeLabel → Result LabelError (Unit {0})
unfolding check_histories histories_from
validate_revisions records = check_histories (histories_from [] records)

-- `previous is None or label.label_revision > previous.label_revision`
unfoldable pub replaces : TransactionOutcomeLabel → Option TransactionOutcomeLabel → Bool
replaces label none = true
replaces label (some previous) = ltb previous.label_revision label.label_revision

abbrev pub Selected : Type 0
Selected = Dict String TransactionOutcomeLabel

-- one round of the loop of `resolve_labels`
unfoldable pub select_label : Instant → TransactionOutcomeLabel → Selected → Selected
unfolding replaces
select_label as_of label selected =
    if leb label.label_observed_at as_of && replaces label (lookup label.event_id selected)
    then insert label.event_id label selected
    else selected

select_from : Instant → Selected → List TransactionOutcomeLabel → Selected
unfolding select_label
select_from as_of selected [] = selected
select_from as_of selected (label ∷ rest) =
    select_from as_of (select_label as_of label selected) rest

unfoldable pub resolve_labels : List TransactionOutcomeLabel → Datetime → Result LabelError Selected
unfolding select_from
resolve_labels records as_of = do
  cutoff ← map_error (λ _. not_utc) (require_utc as_of)
  ok (select_from cutoff [] records)
