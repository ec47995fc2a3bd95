-- ===== src/Feedback/Resolution/Grouped.antt =====
-- The first loop of `resolve_feedback`: the history of a case is the records that name it.
use sentinel_aegis_forge.Common.{
  ◌≡◌, refl, sym, ap, ◌∙◌, inl, inr, false, Option, none, some, List, [], ◌∷◌, ◌++◌, arith,
  Bool-cases, Eq, ◌==◌, string_eq, pair_eq, select, All, All-mono, IsNodup, Dict, lookup, keys,
  lookup-insert, IsNodup-keys-insert, contains,
}
use mathlib.Core.List.{append_assoc, append-nil}
use sentinel_aegis_forge.Feedback.Contract.{FeedbackRecord}
use sentinel_aegis_forge.Feedback.Resolution.{
  CaseKey, Cases, case_of, history_of, grow, group_from, group_cases,
}

-- the records of a case, in their order
abbrev pub records_of : CaseKey → List FeedbackRecord → List FeedbackRecord
records_of key items = select (λ r. key == case_of r) items

-- what a dict of nonempty lists has for a key
abbrev pub found : List FeedbackRecord → Option (List FeedbackRecord)
found [] = none
found (r ∷ rs) = some (r ∷ rs)

records_of-append :
    (key : CaseKey) (xs ys : List FeedbackRecord)
    → records_of key (xs ++ ys) ≡ records_of key xs ++ records_of key ys
records_of-append key [] ys = refl
records_of-append key (x ∷ xs) ys = elim (Bool-cases (key == case_of x)) [
  | inl q ↦ rw q (ap (◌∷◌ x) (records_of-append key xs ys))
  | inr q ↦ rw q (records_of-append key xs ys)
]

found-snoc :
    (xs : List FeedbackRecord) (x : FeedbackRecord) → found (xs ++ x ∷ []) ≡ some (xs ++ x ∷ [])
found-snoc [] x = refl
found-snoc (y ∷ xs) x = refl

history_of-found :
    (key : CaseKey) (cases : Cases) (l : List FeedbackRecord)
    → lookup key cases ≡ found l
    → history_of key cases ≡ l
unfolding history_of
history_of-found key cases [] h = rw (history_of, h)
history_of-found key cases (x ∷ l) h = rw (history_of, h)

abbrev IsGrouped : List FeedbackRecord → Cases → Type 0
IsGrouped done cases = (key : CaseKey) → lookup key cases ≡ found (records_of key done)

abbrev key_eq : Eq CaseKey
key_eq = pair_eq

IsGrouped-grow :
    (done : List FeedbackRecord) (cases : Cases) (item : FeedbackRecord)
    → IsGrouped done cases
    → IsGrouped (done ++ item ∷ []) (grow item cases)
unfolding grow
IsGrouped-grow done cases item h key =
    lookup-insert (case_of item) key (history_of (case_of item) cases ++ item ∷ []) cases
    ∙ elim (Bool-cases (key == case_of item)) [
      | inl q ↦
          let old : history_of (case_of item) cases ≡ records_of key done =
            history_of-found (case_of item) cases (records_of key done)
              (ap (λ k. lookup k cases) (sym ((key_eq.same_iff key (case_of item)).0 q)) ∙ h key) in
          let new : records_of key (done ++ item ∷ []) ≡ records_of key done ++ item ∷ [] =
            records_of-append key done (item ∷ []) ∙ rw q in
          rw (q, old, new) (sym (found-snoc (records_of key done) item))
      | inr q ↦
          let new : records_of key (done ++ item ∷ []) ≡ records_of key done =
            records_of-append key done (item ∷ []) ∙ rw q (append-nil (records_of key done)) in
          rw (q, new) (h key)
    ]

group_from-IsGrouped :
    (rest done : List FeedbackRecord) (cases : Cases)
    → IsGrouped done cases
    → IsGrouped (done ++ rest) (group_from cases rest)
unfolding group_from
group_from-IsGrouped [] done cases h key =
    h key ∙ ap (λ l. found (records_of key l)) (sym (append-nil done))
group_from-IsGrouped (item ∷ rest) done cases h key =
    group_from-IsGrouped rest (done ++ item ∷ []) (grow item cases)
      (IsGrouped-grow done cases item h) key
    ∙ ap (λ l. found (records_of key l)) (append_assoc done (item ∷ []) rest)

pub lookup-group_cases :
    (key : CaseKey) (items : List FeedbackRecord)
    → lookup key (group_cases items) ≡ found (records_of key items)
unfolding group_cases
lookup-group_cases key items = group_from-IsGrouped items [] [] (λ k. refl) key

IsNodup-group_from :
    (items : List FeedbackRecord) (cases : Cases)
    → IsNodup (keys cases)
    → IsNodup (keys (group_from cases items))
unfolding group_from grow
IsNodup-group_from [] cases h = h
IsNodup-group_from (item ∷ rest) cases h =
    IsNodup-group_from rest (grow item cases)
      (IsNodup-keys-insert (case_of item) (history_of (case_of item) cases ++ item ∷ []) cases h)

module _ {K V : Type 0} ⦃e : Eq K⦄ where
  lookup-later :
      (k : K) (v : V) (d rest : Dict K V)
      → contains k (keys rest) ≡ false
      → All (λ (p : K × V). lookup p.0 d ≡ some p.1) rest
      → All (λ (p : K × V). lookup p.0 ((k, v) ∷ d) ≡ some p.1) rest
  lookup-later k v d [] fresh h = tt
  lookup-later k v d ((j, w) ∷ rest) fresh h =
      (ground (arith, e.same_iff k j, e.same_iff j k), lookup-later k v d rest (ground arith) h.1)

  pub IsNodup→lookup :
      (d : Dict K V) → IsNodup (keys d) → All (λ (p : K × V). lookup p.0 d ≡ some p.1) d
  IsNodup→lookup [] h = tt
  IsNodup→lookup ((k, v) ∷ d) h =
      (rw ((e.same_iff k k).1 refl), lookup-later k v d d h.0 (IsNodup→lookup d h.1))

-- Every case of the groups has the records that name it.
pub group_cases-lookup :
    (items : List FeedbackRecord)
    → All
        (λ (p : CaseKey × List FeedbackRecord). found (records_of p.0 items) ≡ some p.1)
        (group_cases items)
unfolding group_cases
group_cases-lookup items =
    All-mono (λ (p : CaseKey × List FeedbackRecord). lookup p.0 (group_cases items) ≡ some p.1)
      (λ (p : CaseKey × List FeedbackRecord). found (records_of p.0 items) ≡ some p.1)
      (λ p h. sym (lookup-group_cases p.0 items) ∙ h) (group_cases items)
      (IsNodup→lookup (group_cases items) (IsNodup-group_from items [] tt))

group_from-snoc :
    (items : List FeedbackRecord) (cases : Cases) (item : FeedbackRecord)
    → group_from cases (items ++ item ∷ []) ≡ grow item (group_from cases items)
unfolding group_from
group_from-snoc [] cases item = refl
group_from-snoc (x ∷ items) cases item = group_from-snoc items (grow x cases) item

pub group_cases-snoc :
    (items : List FeedbackRecord) (item : FeedbackRecord)
    → group_cases (items ++ item ∷ []) ≡ grow item (group_cases items)
unfolding group_cases
group_cases-snoc items item = group_from-snoc items [] item
