-- ===== src/Feedback/Resolution/Requests/States.antt =====
-- What the state of an event says of its chosen revisions.

use sentinel_aegis_forge.Common.{
  ℕ, ◌<◌, String, ◌≡◌, refl, ◌≢◌, inl, inr, true, false, ◌||◌, List, [], ◌∷◌, arith, ltb, ltb→lt,
  ltb→le, Bool-cases, nat_eq, string_eq, pair_eq, list_eq, any, all,
}
use sentinel_aegis_forge.Feedback.Resolution.{
  SelectedRevision, ResolvedFeedback, EffectiveState, effective_state, is_fraud, is_legit,
  is_retracted, is_pending,
}

-- The state says what the chosen revisions and the known cases are.
abbrev pub Explained : ResolvedFeedback → Type 0
Explained item = elim item.state [
  | EffectiveState.ambiguous ↦
      (any is_fraud item.selected ≡ true) × (any is_legit item.selected ≡ true)
  | EffectiveState.fraud ↦
      (any is_fraud item.selected ≡ true) × (any is_legit item.selected ≡ false)
  | EffectiveState.legit ↦
      (any is_legit item.selected ≡ true) × (any is_fraud item.selected ≡ false)
  | EffectiveState.retracted ↦
      (any is_retracted item.selected ≡ true)
      × (all (λ s. is_retracted s || is_pending s) item.selected ≡ true)
  | EffectiveState.pending ↦ (item.selected ≢ []) × (all is_pending item.selected ≡ true)
  | EffectiveState.not_yet_observed ↦ (item.selected ≡ []) × (0 < item.case_count)
  | EffectiveState.no_case ↦ (item.selected ≡ []) × (item.case_count ≡ 0)
]

no_confirmation :
    (chosen : List SelectedRevision)
    → any is_fraud chosen ≡ false
    → any is_legit chosen ≡ false
    → all (λ s. is_retracted s || is_pending s) chosen ≡ true
no_confirmation [] f l = refl
no_confirmation (s ∷ rest) f l = ground (arith, no_confirmation rest)

only_pending :
    (chosen : List SelectedRevision)
    → all (λ s. is_retracted s || is_pending s) chosen ≡ true
    → any is_retracted chosen ≡ false
    → all is_pending chosen ≡ true
only_pending [] a r = refl
only_pending (s ∷ rest) a r = ground (arith, only_pending rest)

nothing_chosen :
    (chosen : List SelectedRevision)
    → all is_pending chosen ≡ true
    → any is_pending chosen ≡ false
    → chosen ≡ []
nothing_chosen [] a p = refl
nothing_chosen (s ∷ rest) a p = ground arith

some_chosen : (chosen : List SelectedRevision) → any is_pending chosen ≡ true → chosen ≢ []
some_chosen [] p = cc
some_chosen (s ∷ rest) p = cc

pub effective_state-Explained :
    (chosen : List SelectedRevision) (event_id : String) (case_count : ℕ)
    → Explained (record {
      event_id = event_id;
      state = effective_state chosen case_count;
      selected = chosen;
      case_count = case_count;
    })
unfolding effective_state
effective_state-Explained chosen event_id case_count = elim (Bool-cases (any is_fraud chosen)) [
  | inl f ↦ elim (Bool-cases (any is_legit chosen)) [
    | inl l ↦ rw (f, l) (f, l)
    | inr l ↦ rw (f, l) (f, l)
  ]
  | inr f ↦ elim (Bool-cases (any is_legit chosen)) [
    | inl l ↦ rw (f, l) (l, f)
    | inr l ↦
        let settled = no_confirmation chosen f l in
        elim (Bool-cases (any is_retracted chosen)) [
          | inl r ↦ rw (f, l, r) (r, settled)
          | inr r ↦
              let waiting = only_pending chosen settled r in
              elim (Bool-cases (any is_pending chosen)) [
                | inl p ↦ rw (f, l, r, p) (some_chosen chosen p, waiting)
                | inr p ↦
                    let empty = nothing_chosen chosen waiting p in
                    elim (Bool-cases (ltb 0 case_count)) [
                      | inl c ↦ rw (f, l, r, p, c) (empty, omega (arith, ltb→lt 0 case_count c))
                      | inr c ↦ rw (f, l, r, p, c) (empty, omega (arith, ltb→le 0 case_count c))
                    ]
              ]
        ]
  ]
]
