-- ===== src/Validation/Policy.antt =====
-- validation/policy.py: the promotion-readiness policy. `hashlib.sha256` over the canonical bytes
-- is a parameter of the fingerprint.
pub mod Blocking
mod Examples
use Prim.Native.String.{◌++◌ as concat}
use sentinel_aegis_forge.Common.{
  String, Bool, true, false, not, ◌&&◌, List, [], ◌∷◌, ◌++◌, map, arith, if◌then◌else◌, ◌==◌,
  nat_eq, string_eq, pair_eq, list_eq, Result, ok, err, ◌>>=◌, ◌>>◌, raise_if, strip,
}
use sentinel_aegis_forge.Common.Json.{Json, text, flag, arr, obj, items, fields}

abbrev pub policy_version : String
policy_version = "model-validation-policy-v1"

abbrev pub logic_version : String
logic_version = "promotion-readiness-assessment-v1.1"

pub data EvidenceState : Type 0 where
  verified failed not_established : EvidenceState

-- `state.value`
abbrev pub state_value : EvidenceState → String
state_value verified = "VERIFIED"
state_value failed = "FAILED"
state_value not_established = "NOT_ESTABLISHED"

abbrev pub is_verified : EvidenceState → Bool
is_verified verified = true
is_verified _ = false

abbrev pub is_missing : EvidenceState → Bool
is_missing not_established = true
is_missing _ = false

pub record Requirement : Type 0 where
  pub identifier : String
  pub meaning : String
  pub mandatory : Bool

abbrev pub requirement : String → String → Requirement
requirement identifier meaning = record {
  identifier = identifier;
  meaning = meaning;
  mandatory = true;
}

abbrev pub requirements : List Requirement
requirements =
    requirement "VAL001_ARTIFACT_INTEGRITY" "Model presence, runtime and content integrity"
    ∷ requirement "VAL002_MODEL_RECONSTRUCTION" "Archived prediction reconstruction equivalence"
    ∷ requirement "VAL003_DATASET_PROVENANCE" "Verified dataset, training and tracking lineage"
    ∷ requirement "VAL004_REAL_WORLD_LABEL_QUALITY" "Independent real fraud outcomes"
    ∷ requirement "VAL005_TEMPORAL_GENERALIZATION" "Representative out-of-time performance"
    ∷ requirement "VAL006_MODEL_DISCRIMINATION" "Production-relevant fraud discrimination"
    ∷ requirement "VAL007_PROBABILITY_CALIBRATION" "Validated probability calibration"
    ∷ requirement "VAL008_SEGMENT_ROBUSTNESS" "Population and currency robustness"
    ∷ requirement "VAL009_OPERATIONAL_VALIDATION" "Serving, failure and monitoring evidence"
    ∷ requirement "VAL010_BUSINESS_GOVERNANCE" "Explicit model-risk approval and accountability"
    ∷ []

pub record ValidationPolicy : Type 0 where
  pub version : String
  pub requirements : List Requirement
  pub logic_version : String

abbrev pub default_policy : ValidationPolicy
default_policy = record {
  version = policy_version;
  requirements = requirements;
  logic_version = logic_version;
}

abbrev pub requirement_json : Requirement → Json
requirement_json item = obj (
    fields (
      ("identifier", text item.identifier)
      ∷ ("meaning", text item.meaning)
      ∷ ("mandatory", flag item.mandatory)
      ∷ []))

abbrev pub fingerprint : (Json → String) → ValidationPolicy → String
fingerprint digest policy = digest (
    obj (
      fields (
        ("version", text policy.version)
        ∷ ("requirements", arr (items (map requirement_json policy.requirements)))
        ∷ ("logic_version", text policy.logic_version)
        ∷ (
          "states",
          obj (
              fields (
                ("VERIFIED", text "authoritative evidence supports requirement")
                ∷ ("FAILED", text "authoritative evidence demonstrates violation")
                ∷ ("NOT_ESTABLISHED", text "evidence absent, insufficient or unverifiable")
                ∷ [])),
        )
        ∷ ("blocking", text "every mandatory FAILED or NOT_ESTABLISHED requirement blocks")
        ∷ ("outcome", text "NOT_ELIGIBLE_FOR_PROMOTION; production_eligible=false")
        ∷ [])))

pub record EvidenceFact : Type 0 where
  pub state : EvidenceState
  pub explanation : String
  pub references : List String

pub record VerifiedFacts : Type 0 where
  pub artifact_integrity : EvidenceFact
  pub model_reconstruction : EvidenceFact
  pub dataset_provenance : EvidenceFact
  pub real_world_label_quality : EvidenceFact
  pub temporal_generalization : EvidenceFact
  pub model_discrimination : EvidenceFact
  pub probability_calibration : EvidenceFact
  pub segment_robustness : EvidenceFact
  pub operational_validation : EvidenceFact
  pub business_governance : EvidenceFact

-- `getattr(facts, field)` for the fields of `FACT_FIELDS`, in their order
abbrev pub fact_fields : VerifiedFacts → List (String × EvidenceFact)
fact_fields facts =
    ("artifact_integrity", facts.artifact_integrity)
    ∷ ("model_reconstruction", facts.model_reconstruction)
    ∷ ("dataset_provenance", facts.dataset_provenance)
    ∷ ("real_world_label_quality", facts.real_world_label_quality)
    ∷ ("temporal_generalization", facts.temporal_generalization)
    ∷ ("model_discrimination", facts.model_discrimination)
    ∷ ("probability_calibration", facts.probability_calibration)
    ∷ ("segment_robustness", facts.segment_robustness)
    ∷ ("operational_validation", facts.operational_validation)
    ∷ ("business_governance", facts.business_governance)
    ∷ []

pub data PolicyError : Type 0 where
  invalid_policy different_lengths : PolicyError
  missing_explanation : String → PolicyError

pub record RequirementResult : Type 0 where
  pub requirement_id : String
  pub meaning : String
  pub mandatory : Bool
  pub status : String
  pub explanation : String
  pub evidence_references : List String
  pub blocks_promotion : Bool

-- the three lists that the loop fills
pub record Findings : Type 0 where
  pub results : List RequirementResult
  pub blocking : List String
  pub missing : List String

pub record Assessment : Type 0 where
  pub requirements : List RequirementResult
  pub technical_integrity_verified : Bool
  pub blocking_reasons : List String
  pub missing_evidence : List String
  pub promotion_readiness : String
  pub production_eligible : Bool

abbrev pub identifiers : List Requirement → List String
identifiers [] = []
identifiers (item ∷ rest) = item.identifier ∷ identifiers rest

abbrev pub all_mandatory : List Requirement → Bool
all_mandatory [] = true
all_mandatory (item ∷ rest) = item.mandatory && all_mandatory rest

-- the guard on the policy
unfoldable pub policy_ok : ValidationPolicy → Bool
policy_ok policy =
    not (strip policy.version == "")
    && (identifiers policy.requirements == identifiers requirements
        && all_mandatory policy.requirements)

abbrev pub blocks : Requirement → EvidenceFact → Bool
blocks item fact = item.mandatory && not (is_verified fact.state)

abbrev pub result_of : Requirement → EvidenceFact → RequirementResult
result_of item fact = record {
  requirement_id = item.identifier;
  meaning = item.meaning;
  mandatory = item.mandatory;
  status = state_value fact.state;
  explanation = fact.explanation;
  evidence_references = fact.references;
  blocks_promotion = blocks item fact;
}

-- `f"{identifier}: {state} — {explanation}"`
abbrev pub reason : Requirement → EvidenceFact → String
reason item fact =
    concat item.identifier
      (concat ": " (concat (state_value fact.state) (concat " — " fact.explanation)))

-- the body of the loop, past its guards
abbrev pub note : Requirement → EvidenceFact → Findings → Findings
note item fact found = record {
  results = found.results ++ result_of item fact ∷ [];
  blocking = if blocks item fact then found.blocking ++ reason item fact ∷ [] else found.blocking;
  missing = if is_missing fact.state then found.missing ++ item.identifier ∷ [] else found.missing;
}

-- the loop, over `zip(..., strict=True)`
unfoldable pub assess :
    Findings → List Requirement → List (String × EvidenceFact) → Result PolicyError Findings
assess found [] [] = ok found
assess found (item ∷ left) ((field, fact) ∷ facts) = do
  raise_if (fact.explanation == "") (missing_explanation field)
  assess (note item fact found) left facts
assess found _ _ = err different_lengths

-- `all(item["status"] == "VERIFIED" for item in results)`
abbrev pub all_verified : List RequirementResult → Bool
all_verified [] = true
all_verified (item ∷ rest) = item.status == "VERIFIED" && all_verified rest

-- `results[:3]`
abbrev pub first_three : List RequirementResult → List RequirementResult
first_three (a ∷ b ∷ c ∷ rest) = a ∷ b ∷ c ∷ []
first_three few = few

-- `if not blocking: blocking.append(...)`
abbrev pub or_no_authority : List String → List String
or_no_authority [] = "Phase 18 assessment has no production approval authority" ∷ []
or_no_authority (one ∷ more) = one ∷ more

unfoldable pub evaluate : VerifiedFacts → ValidationPolicy → Result PolicyError Assessment
unfolding policy_ok assess
evaluate facts policy = do
  raise_if (not (policy_ok policy)) invalid_policy
  found ←
      assess (record { results = []; blocking = []; missing = [] }) policy.requirements
        (fact_fields facts)
  ok (record {
    requirements = found.results;
    technical_integrity_verified = all_verified (first_three found.results);
    blocking_reasons = or_no_authority found.blocking;
    missing_evidence = found.missing;
    promotion_readiness = "NOT_ELIGIBLE_FOR_PROMOTION";
    production_eligible = false;
  })
