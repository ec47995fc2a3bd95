-- ===== src/KafkaShadow/Results/Reconciled.antt =====
-- The counts of the durable results close over the inbox.
use sentinel_aegis_forge.Common.{
  raise_if-eq-ok, ℕ, ◌+◌, ◌-◌, ◌≤◌, String, ◌≡◌, refl, sym, ap, subst, inl, inr, Bool, true, false,
  not, ◌||◌, Option, none, some, List, [], ◌∷◌, arith, eq_iff, ltb, if◌then◌else◌, Bool-cases,
  Option-cases, ◌==◌, nat_eq, string_eq, pair_eq, list_eq, length, count, All, contains,
  is_distinct, subset, same_set, Dict, lookup, keys, ok, raise_if, >>=-eq-ok, ok-eq,
}
use sentinel_aegis_forge.Common.Json.{
  Json, null, flag, num, minus, real, text, arr, obj, Object, has_value, same_value,
}
use sentinel_aegis_forge.Incremental.Outcomes.{Status, status_of, string_of, outcome_ok}
use sentinel_aegis_forge.KafkaShadow.Results.{
  identity_ok, differs_from, field_names, inspect_with, inspect_result, durable_from, durable_next,
  durable_results, Counts, in_status, counts, result_contract_differs, result_identity_differs,
  invalid_combination, path_differs, conflicting_result, repeated_request, unexpected_result,
}

abbrev one_if : Bool → ℕ
one_if b = if b then 1 else 0

abbrev is_text : String → Option Json → Bool
is_text s o = elim o [ none ↦ false | some found ↦ same_value found (text s) ]

-- in how many of the four statuses a value is
abbrev statuses_of : Option Json → ℕ
statuses_of o =
    one_if (is_text "SCORED" o)
    + one_if (is_text "OUT_OF_SCOPE" o)
    + one_if (is_text "INPUT_REJECTED" o)
    + one_if (is_text "INFERENCE_FAILED" o)

one_status : (o : Option Json) (st : Status) → status_of (string_of o) ≡ some st → statuses_of o ≡ 1
unfolding status_of string_of
one_status none st h = cc
one_status (some null) st h = cc
one_status (some (flag b)) st h = cc
one_status (some (num n)) st h = cc
one_status (some (minus n)) st h = cc
one_status (some (real r)) st h = cc
one_status (some (arr a)) st h = cc
one_status (some (obj f)) st h = cc
one_status (some (text s)) st h = elim (Bool-cases (s == "SCORED")) [
  | inl e ↦ at "SCORED" e refl
  | inr no_1 ↦ elim (Bool-cases (s == "OUT_OF_SCOPE")) [
    | inl e ↦ at "OUT_OF_SCOPE" e refl
    | inr no_2 ↦ elim (Bool-cases (s == "INPUT_REJECTED")) [
      | inl e ↦ at "INPUT_REJECTED" e refl
      | inr no_3 ↦ elim (Bool-cases (s == "INFERENCE_FAILED")) [
        | inl e ↦ at "INFERENCE_FAILED" e refl
        | inr no_4 ↦ cc (rw (no_1, no_2, no_3, no_4) at h)
      ]
    ]
  ]
]
  where
    at :
        (status : String)
        → (s == status) ≡ true
        → statuses_of (some (text status)) ≡ 1
        → statuses_of (some (text s)) ≡ 1
    at status e one = subst (λ t. statuses_of (some (text t)) ≡ 1) (sym ((eq_iff s status).0 e)) one

count-cons :
    {A : Type 0} (test : A → Bool) (x : A) (xs : List A)
    → count test (x ∷ xs) ≡ one_if (test x) + count test xs
count-cons test x xs = ground arith

count-bound : {A : Type 0} (test : A → Bool) (xs : List A) → count test xs ≤ length xs
count-bound test [] = omega arith
count-bound test (x ∷ xs) = ground (arith, count-bound test xs)

-- The four counts of some results.
abbrev four : List Object → ℕ
four results =
    in_status "SCORED" results
    + in_status "OUT_OF_SCOPE" results
    + in_status "INPUT_REJECTED" results
    + in_status "INFERENCE_FAILED" results

abbrev HasStatus : Object → Type 0
HasStatus value =
    (st : Status) × (status_of (string_of (lookup "execution_status" value)) ≡ some st)

four-length : (results : List Object) → All HasStatus results → four results ≡ length results
four-length [] h = omega arith
four-length (value ∷ rest) h =
    let is = λ (s : String). has_value "execution_status" (text s) in
    omega (
      arith,
      four-length rest h.1,
      one_status (lookup "execution_status" value) h.0.0 h.0.1,
      count-cons (is "SCORED") value rest,
      count-cons (is "OUT_OF_SCOPE") value rest,
      count-cons (is "INPUT_REJECTED") value rest,
      count-cons (is "INFERENCE_FAILED") value rest,
    )

module _ (digest str : Json → String) where
  inspect_with-ok :
      (stem : String) (value : Object) (expected : Option Object) (status : Option Status)
      {v : Object}
      → inspect_with digest str stem value expected status ≡ ok v
      → (v ≡ value) × ((st : Status) × (status ≡ some st)) × (differs_from expected value ≡ false)
  unfolding inspect_with
  inspect_with-ok stem value expected none h = cc
  inspect_with-ok stem value expected (some st) h =
      let f = not (same_set (keys value) field_names) in
      let (_, _, h) = >>=-eq-ok (raise_if f result_contract_differs) _ h in
      let i = not (identity_ok digest str value) in
      let (_, _, h) = >>=-eq-ok (raise_if i result_identity_differs) _ h in
      let o = not (outcome_ok st value) in
      let (_, _, h) = >>=-eq-ok (raise_if o invalid_combination) _ h in
      let p = not (has_value "inference_request_id" (text stem) value) in
      let (_, _, h) = >>=-eq-ok (raise_if p path_differs) _ h in
      let d = differs_from expected value in
      let (_, agrees, h) = >>=-eq-ok (raise_if d conflicting_result) _ h in
      (sym (ok-eq h), (st, refl), raise_if-eq-ok conflicting_result d agrees)

  -- What was inspected is the value itself, in one of the statuses, and what was expected.
  pub inspect_result-ok :
      (stem : String) (value : Object) (expected : Option Object) {v : Object}
      → inspect_result digest str stem value expected ≡ ok v
      → (v ≡ value) × HasStatus value × (differs_from expected value ≡ false)
  unfolding inspect_result
  inspect_result-ok stem value expected h = inspect_with-ok stem value expected _ h

  -- the requests that have a file
  abbrev pub resolved_in : Dict String Object → List String → ℕ
  resolved_in store requests = count (λ r. contains r (keys store)) requests

  lookup-contains :
      (r : String) (store : Dict String Object)
      → (lookup r store ≡ none → contains r (keys store) ≡ false)
        × ((v : Object) → lookup r store ≡ some v → contains r (keys store) ≡ true)
  lookup-contains r [] = (λ h. refl, λ v h. cc)
  lookup-contains r ((k, w) ∷ store) = elim (Bool-cases (r == k)) [
    | inl same ↦ rw same (λ h. cc, λ v h. refl)
    | inr other ↦ rw other (lookup-contains r store)
  ]

  durable_from-ok :
      (store : Dict String Object) (requests : List String) {results : List Object}
      → durable_from digest str store requests ≡ ok results
      → All HasStatus results × (length results ≡ resolved_in store requests)
  unfolding durable_from durable_next
  durable_from-ok store [] h =
      subst (λ rs. All HasStatus rs × (length rs ≡ resolved_in store [])) (ok-eq h) (tt, refl)
  durable_from-ok store (request ∷ rest) {results} h = elim (Option-cases (lookup request store)) [
    | inl gone ↦
        let k : durable_from digest str store rest ≡ ok results = (rw gone at h) in
        let (statuses, size) = durable_from-ok store rest k in
        (statuses, rw ((lookup-contains request store).0 gone) size)
    | inr (value, found) ↦
        let k : durable_next digest str (some value) request (durable_from digest str store rest)
            ≡ ok results =
          (rw found at h) in
        let (result, inspected, k) = >>=-eq-ok (inspect_result digest str request value none) _ k in
        let (later, read, k) = >>=-eq-ok (durable_from digest str store rest) _ k in
        let (statuses, size) = durable_from-ok store rest read in
        let (same, status, _) = inspect_result-ok request value none inspected in
        subst (λ rs. All HasStatus rs × (length rs ≡ resolved_in store (request ∷ rest))) (ok-eq k)
          (
            (subst HasStatus (sym same) status, statuses),
            rw ((lookup-contains request store).1 value found) (omega (arith, size)),
          )
  ]

  -- The counts close over an inbox of `n` events.
  pub record IsReconciled (store : Dict String Object) (requests : List String) (n : ℕ) (c : Counts)
      : Type 0 where
    pub whole : c.eligible_events + c.out_of_scope + c.unresolved ≡ n
    pub eligible : c.eligible_events ≡ c.scored + c.input_rejected + c.inference_failed
    pub unresolved : c.unresolved ≡ n - resolved_in store requests

  -- Where the durable results of at most as many requests as the inbox has events are read, `counts`
  -- never raises on them: every request with a file is in exactly one of the four statuses, the
  -- eligible, the out-of-scope and the unresolved events are the events of the inbox, and the
  -- unresolved ones are those that no file answers.
  pub counts-IsReconciled :
      (store : Dict String Object) (requests : List String) (n : ℕ) (results : List Object)
      → length requests ≤ n
      → durable_results digest str store requests ≡ ok results
      → (c : Counts) × (counts results n ≡ ok c) × IsReconciled store requests n c
  unfolding durable_results counts
  counts-IsReconciled store requests n results fits h =
      let twice = not (is_distinct requests) in
      let (_, _, h) = >>=-eq-ok (raise_if twice repeated_request) _ h in
      let alien = not (subset (keys store) requests) in
      let (_, _, h) = >>=-eq-ok (raise_if alien unexpected_result) _ h in
      let (statuses, size) = durable_from-ok store requests h in
      let four_are = four-length results statuses in
      let room = count-bound (λ r. contains r (keys store)) requests in
      let bad =
        ltb n (length results)
        || not (
            in_status "SCORED" results
              + in_status "OUT_OF_SCOPE" results
              + in_status "INPUT_REJECTED" results
              + in_status "INFERENCE_FAILED" results
              + (n - length results)
            == n) in
      let good : bad ≡ false = ground arith in
      let c : Counts = record {
        scored = in_status "SCORED" results;
        out_of_scope = in_status "OUT_OF_SCOPE" results;
        input_rejected = in_status "INPUT_REJECTED" results;
        inference_failed = in_status "INFERENCE_FAILED" results;
        unresolved = n - length results;
        inbox_ready_events = n;
        eligible_events =
            in_status "SCORED" results
            + in_status "INPUT_REJECTED" results
            + in_status "INFERENCE_FAILED" results;
      } in
      (
        c,
        rw good refl,
        record { whole = omega arith; eligible = refl; unresolved = ap (λ t. n - t) size },
      )
