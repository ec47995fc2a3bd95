-- ===== src/Validation/Policy/Blocking.antt =====
-- What an assessment says of the facts: what blocks, what is missing, and what is never granted.
pub mod Runs
use sentinel_aegis_forge.Common.{
  ◌≢◌, raise_if-not-eq-ok, and-eq-true, ℕ, max, String, ◌≡◌, refl, sym, ap, ◌∙◌, subst, ◌↔◌, Bool,
  true, false, not, ◌&&◌, List, [], ◌∷◌, arith, ◌==◌, nat_eq, string_eq, pair_eq, list_eq,
  list_beq_iff, length, All, head-eq, tail-eq, ok, raise_if, raise_if-eq-ok, >>=-eq-ok, ok-eq,
  strip,
}
use sentinel_aegis_forge.Validation.Policy.{
  EvidenceState, state_value, is_verified, Requirement, EvidenceFact, RequirementResult, Findings,
  note, assess, identifiers, all_mandatory, all_verified, first_three, or_no_authority, policy_ok,
  evaluate, Assessment, VerifiedFacts, ValidationPolicy, requirements, fact_fields,
  missing_explanation, invalid_policy, verified, failed, not_established,
}
use sentinel_aegis_forge.Validation.Policy.Blocking.Runs.{
  result_ids, statuses, missing_ids, states, unverified, Blocks, nothing, Explained, assess-Ran,
}

-- What an assessment of some facts says.
pub record Assessed (facts : VerifiedFacts) (a : Assessment) : Type 0 where
  pub ids : result_ids a.requirements ≡ identifiers requirements
  pub values : statuses a.requirements ≡ states (fact_fields facts)
  pub blocks : All Blocks a.requirements
  pub reasons : length a.blocking_reasons ≡ max 1 (unverified (fact_fields facts))
  pub missing : a.missing_evidence ≡ missing_ids a.requirements
  pub technical : a.technical_integrity_verified ≡ (
      is_verified facts.artifact_integrity.state
      && (is_verified facts.model_reconstruction.state
          && is_verified facts.dataset_provenance.state))
  pub refused : a.production_eligible ≡ false

-- What makes a policy valid: a version, the ten requirements in their order, all mandatory.
pub record IsValidPolicy (policy : ValidationPolicy) : Type 0 where
  pub versioned : strip policy.version ≢ ""
  pub complete : identifiers policy.requirements ≡ identifiers requirements
  pub mandatory : All (λ (r : Requirement). r.mandatory ≡ true) policy.requirements

all_mandatory-All :
    (l : List Requirement)
    → (all_mandatory l ≡ true) ↔ All (λ (r : Requirement). r.mandatory ≡ true) l
all_mandatory-All [] = (λ h. tt, λ h. refl)
all_mandatory-All (item ∷ l) =
    let (there, back) = all_mandatory-All l in
    (
      λ h. let (one, rest) = and-eq-true item.mandatory _ h in (one, there rest),
      λ h. rw h.0 (back h.1),
    )

policy_ok-IsValidPolicy :
    (policy : ValidationPolicy) → (policy_ok policy ≡ true) ↔ IsValidPolicy policy
unfolding policy_ok
policy_ok-IsValidPolicy policy = (
  λ h.
      let (versioned, rest) = and-eq-true (not (strip policy.version == "")) _ h in
      let (same, must) =
        and-eq-true (identifiers policy.requirements == identifiers requirements) _ rest in
      record {
        versioned = λ blank.
            ground (arith, (string_eq.same_iff (strip policy.version) "").1 blank, versioned);
        complete =
            (list_beq_iff (identifiers policy.requirements) (identifiers requirements)).0 same;
        mandatory = (all_mandatory-All policy.requirements).0 must;
      },
  λ v. ground (
    arith,
    (string_eq.same_iff (strip policy.version) "").0,
    v.versioned,
    (list_beq_iff (identifiers policy.requirements) (identifiers requirements)).1 v.complete,
    (all_mandatory-All policy.requirements).1 v.mandatory,
  ),
)

state_value-verified : (s : EvidenceState) → (state_value s == "VERIFIED") ≡ is_verified s
state_value-verified verified = refl
state_value-verified failed = refl
state_value-verified not_established = refl

-- The test on the first three results reads the first three statuses.
all_verified-statuses :
    (results : List RequirementResult) (x y z : EvidenceState) (rest : List String)
    → statuses results ≡ state_value x ∷ state_value y ∷ state_value z ∷ rest
    → all_verified (first_three results) ≡ (is_verified x && (is_verified y && is_verified z))
all_verified-statuses (a ∷ b ∷ c ∷ more) x y z rest h =
    rw
      (
        head-eq h,
        head-eq (tail-eq h),
        head-eq (tail-eq (tail-eq h)),
        state_value-verified x,
        state_value-verified y,
        state_value-verified z,
      )
      (and_true (is_verified x) (is_verified y) (is_verified z))
  where
    and_true : (p q r : Bool) → (p && (q && (r && true))) ≡ (p && (q && r))
    and_true true true true = refl
    and_true true true false = refl
    and_true true false r = refl
    and_true false q r = refl
all_verified-statuses [] x y z rest h = cc
all_verified-statuses (_ ∷ []) x y z rest h = cc
all_verified-statuses (_ ∷ _ ∷ []) x y z rest h = cc

length-or_no_authority :
    (l : List String) (n : ℕ) → length l ≡ n → length (or_no_authority l) ≡ max 1 n
length-or_no_authority [] n h = rw (sym h) refl
length-or_no_authority (r ∷ l) n h = omega arith

-- An assessment that is returned has the ten requirements in their order with the states of the
-- facts; a result blocks exactly where its status is not VERIFIED, and there are as many reasons
-- as facts that are not verified, and one where there is none; the missing evidence is the
-- requirements that are NOT_ESTABLISHED; technical integrity says that the first three facts
-- are verified; and production is never eligible.
pub evaluate-Assessed :
    (facts : VerifiedFacts) (policy : ValidationPolicy) (a : Assessment)
    → evaluate facts policy ≡ ok a
    → Assessed facts a
unfolding evaluate
evaluate-Assessed facts policy a h =
    let (_, checked, h1) = >>=-eq-ok (raise_if (not (policy_ok policy)) invalid_policy) _ h in
    let (found, looped, e) =
      >>=-eq-ok (assess nothing policy.requirements (fact_fields facts)) _ h1 in
    let v =
      (policy_ok-IsValidPolicy policy).0
        (raise_if-not-eq-ok invalid_policy (policy_ok policy) checked) in
    let same = v.complete in
    let must = (all_mandatory-All policy.requirements).1 v.mandatory in
    let ran = assess-Ran policy.requirements (fact_fields facts) nothing found must looped in
    subst (Assessed facts) (ok-eq e) (record {
      ids = ap result_ids ran.results ∙ ran.ids ∙ same;
      values = ap statuses ran.results ∙ ran.values;
      blocks = subst (All Blocks) (sym ran.results) ran.blocks;
      reasons =
          length-or_no_authority found.blocking (unverified (fact_fields facts))
            (omega (arith, ran.blocking));
      missing = ran.missing ∙ ap missing_ids (sym ran.results);
      technical =
          all_verified-statuses found.results facts.artifact_integrity.state
            facts.model_reconstruction.state facts.dataset_provenance.state _
            (ap statuses ran.results ∙ ran.values);
      refused = refl;
    })

assess-Explained :
    (left : List Requirement) (facts : List (String × EvidenceFact)) (found out : Findings)
    → assess found left facts ≡ ok out
    → All Explained facts
unfolding assess
assess-Explained [] [] found out h = tt
assess-Explained (item ∷ left) ((field, fact) ∷ facts) found out h =
    let (_, checked, h1) =
      >>=-eq-ok (raise_if (fact.explanation == "") (missing_explanation field)) _ h in
    (
      raise_if-eq-ok (missing_explanation field) (fact.explanation == "") checked,
      assess-Explained left facts (note item fact found) out h1,
    )
assess-Explained [] (_ ∷ _) found out h = cc
assess-Explained (_ ∷ _) [] found out h = cc

assess-returns :
    (left : List Requirement) (facts : List (String × EvidenceFact)) (found : Findings)
    → length left ≡ length facts
    → All Explained facts
    → (out : Findings) × (assess found left facts ≡ ok out)
unfolding assess
assess-returns [] [] found same h = (found, refl)
assess-returns (item ∷ left) ((field, fact) ∷ facts) found same h =
    rw h.0 (assess-returns left facts (note item fact found) (omega arith) h.1)
assess-returns [] (_ ∷ _) found same h = absurd (omega arith)
assess-returns (_ ∷ _) [] found same h = absurd (omega arith)

length-identifiers : (l : List Requirement) → length (identifiers l) ≡ length l
length-identifiers [] = refl
length-identifiers (item ∷ l) = omega (arith, length-identifiers l)

returned :
    (facts : VerifiedFacts) (policy : ValidationPolicy)
    → IsValidPolicy policy
    → All Explained (fact_fields facts)
    → (a : Assessment) × (evaluate facts policy ≡ ok a)
unfolding evaluate
returned facts policy valid explained =
    let same = valid.complete in
    let (found, looped) =
      assess-returns policy.requirements (fact_fields facts) nothing
        (sym (length-identifiers policy.requirements) ∙ ap length same) explained in
    rw ((policy_ok-IsValidPolicy policy).1 valid, looped) (_, refl)

checks :
    (facts : VerifiedFacts) (policy : ValidationPolicy) (a : Assessment)
    → evaluate facts policy ≡ ok a
    → IsValidPolicy policy × All Explained (fact_fields facts)
unfolding evaluate
checks facts policy a h =
    let (_, checked, h1) = >>=-eq-ok (raise_if (not (policy_ok policy)) invalid_policy) _ h in
    let (found, looped, _) =
      >>=-eq-ok (assess nothing policy.requirements (fact_fields facts)) _ h1 in
    (
      (policy_ok-IsValidPolicy policy).0
          (raise_if-not-eq-ok invalid_policy (policy_ok policy) checked),
      assess-Explained policy.requirements (fact_fields facts) nothing found looped,
    )

-- An assessment is returned exactly where the policy has a version that is not blank and the ten
-- requirements in their order, all of them mandatory, and every fact has an explanation.
pub evaluate-returns :
    (facts : VerifiedFacts) (policy : ValidationPolicy)
    → ((a : Assessment) × (evaluate facts policy ≡ ok a))
      ↔ (IsValidPolicy policy × All Explained (fact_fields facts))
evaluate-returns facts policy =
    (λ (a, h). checks facts policy a h, λ (valid, explained). returned facts policy valid explained)
