-- ===== src/Feedback/Ingestion/Accepted/Steps.antt =====
-- The tests on one delivery and the writes to the dict of deliveries.
use sentinel_aegis_forge.Common.{
  and-eq-true, ℕ, ◌≤◌, String, ◌≡◌, refl, sym, ap, ◌∙◌, inl, inr, true, none, some, List, [], ◌∷◌,
  ◌++◌, arith, eq_iff, if◌then◌else◌, nat_beq_iff, Bool-cases, Option-cases, ◌==◌, nat_eq,
  string_eq, pair_eq, list_eq, some-eq, Dict, lookup, insert, Among, ok,
}
use sentinel_aegis_forge.Datasets.Time.{Instant}
use sentinel_aegis_forge.Feedback.Contract.{FeedbackStatus, FeedbackRecord}
use sentinel_aegis_forge.Feedback.Ingestion.{
  Universe, same_record, status_code, check_source, values,
}

abbrev decode : ℕ → FeedbackStatus
decode n =
    if n == 0
    then FeedbackStatus.pending
    else if n == 1
    then FeedbackStatus.confirmed_fraud
    else if n == 2
    then FeedbackStatus.confirmed_legit
    else FeedbackStatus.retracted

decode-status_code : (s : FeedbackStatus) → decode (status_code s) ≡ s
decode-status_code FeedbackStatus.pending = refl
decode-status_code FeedbackStatus.confirmed_fraud = refl
decode-status_code FeedbackStatus.confirmed_legit = refl
decode-status_code FeedbackStatus.retracted = refl

status_code-injective : (s t : FeedbackStatus) → status_code s ≡ status_code t → s ≡ t
status_code-injective s t h = sym (decode-status_code s) ∙ (ap decode h ∙ decode-status_code t)

record_eq :
    (a b : FeedbackRecord)
    → a.provider_id ≡ b.provider_id
    → a.provider_record_id ≡ b.provider_record_id
    → a.provider_case_id ≡ b.provider_case_id
    → a.source_revision ≡ b.source_revision
    → a.event_id ≡ b.event_id
    → a.status ≡ b.status
    → a.source_updated_at ≡ b.source_updated_at
    → a.received_at ≡ b.received_at
    → a ≡ b
record_eq a b h1 h2 h3 h4 h5 h6 h7 h8 = cc

pub same_record→eq : (a b : FeedbackRecord) → same_record a b ≡ true → a ≡ b
same_record→eq a b h =
    let (q1, h) = and-eq-true (a.provider_id == b.provider_id) _ h in
    let (q2, h) = and-eq-true (a.provider_record_id == b.provider_record_id) _ h in
    let (q3, h) = and-eq-true (a.provider_case_id == b.provider_case_id) _ h in
    let (q4, h) = and-eq-true (a.source_revision == b.source_revision) _ h in
    let (q5, h) = and-eq-true (a.event_id == b.event_id) _ h in
    let (q6, h) = and-eq-true (status_code a.status == status_code b.status) _ h in
    let (q7, q8) = and-eq-true (a.source_updated_at == b.source_updated_at) _ h in
    record_eq a b ((eq_iff _ _).0 q1) ((eq_iff _ _).0 q2) ((eq_iff _ _).0 q3)
      ((nat_beq_iff _ _).0 q4) ((eq_iff _ _).0 q5)
      (status_code-injective a.status b.status ((nat_beq_iff _ _).0 q6)) ((nat_beq_iff _ _).0 q7)
      ((nat_beq_iff _ _).0 q8)

-- The record's event is in the source, and it was not received before the event was ingested.
abbrev pub Known : Universe → FeedbackRecord → Type 0
Known universe item =
    (t : Instant) × (lookup item.event_id universe ≡ some t) × (t ≤ item.received_at)

pub check_source-Known :
    (universe : Universe) (item : FeedbackRecord) {u : Unit {0}}
    → check_source universe item ≡ ok u
    → Known universe item
unfolding check_source
check_source-Known universe item h = elim (Option-cases (lookup item.event_id universe)) [
  | inl gone ↦ absurd (ground arith)
  | inr (t, found) ↦ (t, found, ground arith)
]

pub insert-new :
    (k : String × String) (v : FeedbackRecord) (d : Dict (String × String) FeedbackRecord)
    → lookup k d ≡ none
    → insert k v d ≡ d ++ (k, v) ∷ []
insert-new k v [] h = refl
insert-new k v ((j, w) ∷ d) h = elim (Bool-cases (k == j)) [
  | inl old ↦ absurd (ground arith)
  | inr new ↦ rw new (ap (◌∷◌ (j, w)) (insert-new k v d (rw new at h)))
]

pub values-append :
    (d f : Dict (String × String) FeedbackRecord) → values (d ++ f) ≡ values d ++ values f
values-append [] f = refl
values-append ((_, item) ∷ d) f = ap (◌∷◌ item) (values-append d f)

pub lookup-Among :
    (k : String × String) (v : FeedbackRecord) (d : Dict (String × String) FeedbackRecord)
    → lookup k d ≡ some v
    → Among v (values d)
lookup-Among k v [] h = cc
lookup-Among k v ((j, w) ∷ d) h = elim (Bool-cases (k == j)) [
  | inl old ↦ inl (some-eq (sym (rw old at h)))
  | inr new ↦ inr (lookup-Among k v d (rw new at h))
]

module _ {A : Type 0} where
  pub Among-append_left : (a : A) (xs ys : List A) → Among a xs → Among a (xs ++ ys)
  Among-append_left a (x ∷ xs) ys (inl e) = inl e
  Among-append_left a (x ∷ xs) ys (inr m) = inr (Among-append_left a xs ys m)
  Among-append_left a [] ys m = elim m [ ]

  pub Among-last : (a : A) (xs : List A) → Among a (xs ++ a ∷ [])
  Among-last a [] = inl refl
  Among-last a (x ∷ xs) = inr (Among-last a xs)
