-- ===== src/Datasets/Examples.antt =====
-- Runs of the labels and the timestamps, and the theorems at concrete labels.
use sentinel_aegis_forge.Common.{
  ℕ, String, ◌≡◌, refl, some, List, [], ◌∷◌, nat_eq, string_eq, pair_eq, list_eq, All, Among, ok,
  err, sort, pos, strip,
}
use sentinel_aegis_forge.Datasets.Time.{TimeError, invalid_text, utc, require_utc, west}
use sentinel_aegis_forge.Datasets.Timestamp.{parse_utc_timestamp}
use sentinel_aegis_forge.Datasets.Labels.{
  TransactionOutcomeLabel, Outcome, fraud, legit, Selected, resolve_labels, validate_revisions,
  times_contradict, make_label, blank_source,
}
use sentinel_aegis_forge.Datasets.Labels.Latest.{
  Known, AtLeast, resolve_labels-some, resolve_labels-none,
}

epoch : parse_utc_timestamp "1970-01-01T00:00:00Z" ≡ ok 62_135_596_800_000_000
unfolding parse_utc_timestamp
epoch = refl

with_fraction : parse_utc_timestamp "2024-02-29T23:59:59.5+00:00" ≡ ok 63_844_847_999_500_000
unfolding parse_utc_timestamp
with_fraction = refl

no_such_day : parse_utc_timestamp "2023-02-29T00:00:00Z" ≡ err invalid_text
unfolding parse_utc_timestamp
no_such_day = refl

too_precise : parse_utc_timestamp "2024-01-01T00:00:00.1234567Z" ≡ err invalid_text
unfolding parse_utc_timestamp
too_precise = refl

elsewhere :
    require_utc (record { clock = 5; utcoffset = some (west 3_600_000_000) })
    ≡ err TimeError.not_utc
unfolding require_utc
elsewhere = refl

abbrev label : String → Outcome → ℕ → ℕ → TransactionOutcomeLabel
label event outcome observed revision = record {
  event_id = event;
  outcome = outcome;
  label_observed_at = observed;
  label_source = "review";
  label_revision = revision;
}

abbrev labels : List TransactionOutcomeLabel
labels =
    label "e1" fraud 10 2
    ∷ label "e1" legit 5 1
    ∷ label "e2" legit 40 1
    ∷ label "e1" legit 30 3
    ∷ []

labels-valid : validate_revisions labels ≡ ok tt
unfolding validate_revisions sort
labels-valid = refl

abbrev retreating : List TransactionOutcomeLabel
retreating = label "e1" fraud 10 1 ∷ label "e1" legit 5 2 ∷ []

retreating-refused : validate_revisions retreating ≡ err (times_contradict "e1")
unfolding validate_revisions sort
retreating-refused = refl

blank_label : make_label "e1" fraud (utc 1) " \t" (pos 1) ≡ err blank_source
unfolding make_label require_utc strip
blank_label = refl

abbrev selected : Selected
selected = ("e1", label "e1" fraud 10 2) ∷ []

resolve-labels : resolve_labels labels (utc 20) ≡ ok selected
unfolding resolve_labels require_utc
resolve-labels = refl

now : require_utc (utc 20) ≡ ok 20
unfolding require_utc
now = refl

resolve_labels-some_example :
    Among (label "e1" fraud 10 2) labels
    × Known 20 "e1" (label "e1" fraud 10 2)
    × All (AtLeast 20 "e1" (label "e1" fraud 10 2)) labels
resolve_labels-some_example =
    resolve_labels-some 20 "e1" labels (utc 20) selected now resolve-labels (label "e1" fraud 10 2)
      refl

resolve_labels-none_example : All (λ l. ¬ Known 20 "e2" l) labels
resolve_labels-none_example =
    resolve_labels-none 20 "e2" labels (utc 20) selected now resolve-labels refl
