-- ===== src/Validation/Policy/Blocking/Runs.antt =====
-- The loop over the requirements and their facts.
use sentinel_aegis_forge.Common.{
  ℕ, suc, ◌+◌, String, ◌≡◌, refl, sym, ap, ◌∙◌, subst, Bool, true, false, not, ◌&&◌, List, [], ◌∷◌,
  ◌++◌, arith, if◌then◌else◌, ◌==◌, nat_eq, string_eq, pair_eq, list_eq, length, length-append, All,
  ok, raise_if, >>=-eq-ok, ok-eq,
}
use mathlib.Core.List.{append_assoc, append-nil}
use sentinel_aegis_forge.Validation.Policy.{
  EvidenceState, state_value, is_verified, is_missing, reason, Requirement, EvidenceFact,
  RequirementResult, Findings, result_of, note, assess, identifiers, all_mandatory,
  missing_explanation, verified, failed, not_established,
}

-- The results of the requirements with their facts, in order.
abbrev pub results_of : List Requirement → List (String × EvidenceFact) → List RequirementResult
results_of (item ∷ left) ((_, fact) ∷ facts) = result_of item fact ∷ results_of left facts
results_of _ _ = []

abbrev pub result_ids : List RequirementResult → List String
result_ids [] = []
result_ids (r ∷ rest) = r.requirement_id ∷ result_ids rest

abbrev pub statuses : List RequirementResult → List String
statuses [] = []
statuses (r ∷ rest) = r.status ∷ statuses rest

-- The identifiers of the results whose status is NOT_ESTABLISHED.
abbrev pub missing_ids : List RequirementResult → List String
missing_ids [] = []
missing_ids (r ∷ rest) =
    if r.status == "NOT_ESTABLISHED" then r.requirement_id ∷ missing_ids rest else missing_ids rest

abbrev pub states : List (String × EvidenceFact) → List String
states [] = []
states ((_, fact) ∷ rest) = state_value fact.state ∷ states rest

-- The number of facts that are not verified.
abbrev pub unverified : List (String × EvidenceFact) → ℕ
unverified [] = 0
unverified ((_, fact) ∷ rest) =
    if is_verified fact.state then unverified rest else suc (unverified rest)

-- A result blocks exactly where its status is not VERIFIED.
abbrev pub Blocks : RequirementResult → Type 0
Blocks r = r.blocks_promotion ≡ not (r.status == "VERIFIED")

-- No requirement has been looked at.
abbrev pub nothing : Findings
nothing = record { results = []; blocking = []; missing = [] }

-- A fact has an explanation.
abbrev pub Explained : String × EvidenceFact → Type 0
Explained (_, fact) = (fact.explanation == "") ≡ false

pub record Ran (found : Findings) (left : List Requirement) (facts : List (String × EvidenceFact))
    (out : Findings) : Type 0 where
  pub results : out.results ≡ found.results ++ results_of left facts
  pub missing : out.missing ≡ found.missing ++ missing_ids (results_of left facts)
  pub blocking : length out.blocking ≡ length found.blocking + unverified facts
  pub ids : result_ids (results_of left facts) ≡ identifiers left
  pub values : statuses (results_of left facts) ≡ states facts
  pub blocks : All Blocks (results_of left facts)

blocks-state :
    (m : Bool) (s : EvidenceState)
    → m ≡ true
    → (m && not (is_verified s)) ≡ not (state_value s == "VERIFIED")
blocks-state m verified h = rw h refl
blocks-state m failed h = rw h refl
blocks-state m not_established h = rw h refl

module _ (item : Requirement) (field : String) (fact : EvidenceFact) (found out : Findings)
    (left : List Requirement) (facts : List (String × EvidenceFact))
    (must : item.mandatory ≡ true) where
  missing_step :
      (s : EvidenceState) (ids : List String)
      → (if is_missing s then found.missing ++ item.identifier ∷ [] else found.missing) ++ ids
        ≡ found.missing
          ++ (if state_value s == "NOT_ESTABLISHED" then item.identifier ∷ ids else ids)
  missing_step verified ids = refl
  missing_step failed ids = refl
  missing_step not_established ids = append_assoc found.missing (item.identifier ∷ []) ids

  blocking_step :
      (s : EvidenceState) (text : String) (n : ℕ)
      → length (
            if item.mandatory && not (is_verified s)
            then found.blocking ++ text ∷ []
            else found.blocking)
          + n
        ≡ length found.blocking + (if is_verified s then n else suc n)
  blocking_step verified text n = rw must refl
  blocking_step failed text n = rw must (omega (arith, length-append found.blocking (text ∷ [])))
  blocking_step not_established text n =
      rw must (omega (arith, length-append found.blocking (text ∷ [])))

  Ran-step :
      Ran (note item fact found) left facts out
      → Ran found (item ∷ left) ((field, fact) ∷ facts) out
  Ran-step ran = record {
    results =
        ran.results ∙ append_assoc found.results (result_of item fact ∷ []) (results_of left facts);
    missing = ran.missing ∙ missing_step fact.state (missing_ids (results_of left facts));
    blocking = ran.blocking ∙ blocking_step fact.state (reason item fact) (unverified facts);
    ids = ap (◌∷◌ item.identifier) ran.ids;
    values = ap (◌∷◌ (state_value fact.state)) ran.values;
    blocks = (blocks-state item.mandatory fact.state must, ran.blocks);
  }

pub assess-Ran :
    (left : List Requirement) (facts : List (String × EvidenceFact)) (found out : Findings)
    → all_mandatory left ≡ true
    → assess found left facts ≡ ok out
    → Ran found left facts out
unfolding assess
assess-Ran [] [] found out must h = subst (Ran found [] []) (ok-eq h) (record {
  results = sym (append-nil found.results);
  missing = sym (append-nil found.missing);
  blocking = omega arith;
  ids = refl;
  values = refl;
  blocks = tt;
})
assess-Ran (item ∷ left) ((field, fact) ∷ facts) found out must h =
    let (_, _, h1) =
      >>=-eq-ok (raise_if (fact.explanation == "") (missing_explanation field)) _ h in
    Ran-step item field fact found out left facts (ground arith)
      (assess-Ran left facts (note item fact found) out (ground arith) h1)
assess-Ran [] (_ ∷ _) found out must h = cc
assess-Ran (_ ∷ _) [] found out must h = cc
