-- ===== src/Calibration/Findings.antt =====
-- The types of a finding and the sets of them that app/dependency_ancestry.py classifies a held
-- decision by; the types are those of app/security.py.
use illusiontion.Prelude.{String, Bool, true, false, List, [], ◌∷◌}

pub data FindingType : Type 0 where
  fabrication contradiction insufficient_evidence scope_inflation prompt_injection : FindingType
  stale_evidence malformed_evidence reviewer_role_violation evidence_tamper : FindingType
  invalid_runtime_receipt review_output_tamper review_context_contamination : FindingType
  duplicate_review_invocation decomposition_gap atomic_coverage_gap source_diversity_gap :
      FindingType
  source_provenance_missing duplicate_atomic_claim evidence_admission_missing : FindingType
  invalid_evidence_admission evidence_acquisition_failed evidence_origin_diversity_gap : FindingType
  duplicate_evidence_capture model_execution_unbound model_output_malformed : FindingType
  model_schema_mismatch duplicate_model_response invocation_continuity_failure : FindingType
  evidence_space_violation material_transition_leakage entailment_gap counterexample_found :
      FindingType
  semantic_review_coverage_gap representation_disagreement semantic_obligation_gap : FindingType
  semantic_obligation_failed external_witness_gap external_witness_invalid : FindingType
  external_witness_not_independent external_witness_counterexample : FindingType
  external_witness_unresolved witness_selection_invalid witness_authority_quorum_gap : FindingType
  witness_authority_disagreement witness_challenge_substitution : FindingType
  witness_measurement_provenance_invalid witness_dependency_diversity_gap : FindingType
  witness_measurement_authority_gap witness_ancestry_invalid witness_ancestry_overlap : FindingType
  witness_registry_invalid witness_registry_disclosure_gap witness_registry_ancestry_invalid :
      FindingType
  witness_registry_ancestry_overlap witness_registry_observation_invalid : FindingType
  witness_registry_observation_disclosure_gap : FindingType

-- `finding_type.value`
unfoldable pub finding_text : FindingType → String
finding_text fabrication = "FABRICATION"
finding_text contradiction = "CONTRADICTION"
finding_text insufficient_evidence = "INSUFFICIENT_EVIDENCE"
finding_text scope_inflation = "SCOPE_INFLATION"
finding_text prompt_injection = "PROMPT_INJECTION"
finding_text stale_evidence = "STALE_EVIDENCE"
finding_text malformed_evidence = "MALFORMED_EVIDENCE"
finding_text reviewer_role_violation = "REVIEWER_ROLE_VIOLATION"
finding_text evidence_tamper = "EVIDENCE_TAMPER"
finding_text invalid_runtime_receipt = "INVALID_RUNTIME_RECEIPT"
finding_text review_output_tamper = "REVIEW_OUTPUT_TAMPER"
finding_text review_context_contamination = "REVIEW_CONTEXT_CONTAMINATION"
finding_text duplicate_review_invocation = "DUPLICATE_REVIEW_INVOCATION"
finding_text decomposition_gap = "DECOMPOSITION_GAP"
finding_text atomic_coverage_gap = "ATOMIC_COVERAGE_GAP"
finding_text source_diversity_gap = "SOURCE_DIVERSITY_GAP"
finding_text source_provenance_missing = "SOURCE_PROVENANCE_MISSING"
finding_text duplicate_atomic_claim = "DUPLICATE_ATOMIC_CLAIM"
finding_text evidence_admission_missing = "EVIDENCE_ADMISSION_MISSING"
finding_text invalid_evidence_admission = "INVALID_EVIDENCE_ADMISSION"
finding_text evidence_acquisition_failed = "EVIDENCE_ACQUISITION_FAILED"
finding_text evidence_origin_diversity_gap = "EVIDENCE_ORIGIN_DIVERSITY_GAP"
finding_text duplicate_evidence_capture = "DUPLICATE_EVIDENCE_CAPTURE"
finding_text model_execution_unbound = "MODEL_EXECUTION_UNBOUND"
finding_text model_output_malformed = "MODEL_OUTPUT_MALFORMED"
finding_text model_schema_mismatch = "MODEL_SCHEMA_MISMATCH"
finding_text duplicate_model_response = "DUPLICATE_MODEL_RESPONSE"
finding_text invocation_continuity_failure = "INVOCATION_CONTINUITY_FAILURE"
finding_text evidence_space_violation = "EVIDENCE_SPACE_VIOLATION"
finding_text material_transition_leakage = "MATERIAL_TRANSITION_LEAKAGE"
finding_text entailment_gap = "ENTAILMENT_GAP"
finding_text counterexample_found = "COUNTEREXAMPLE_FOUND"
finding_text semantic_review_coverage_gap = "SEMANTIC_REVIEW_COVERAGE_GAP"
finding_text representation_disagreement = "REPRESENTATION_DISAGREEMENT"
finding_text semantic_obligation_gap = "SEMANTIC_OBLIGATION_GAP"
finding_text semantic_obligation_failed = "SEMANTIC_OBLIGATION_FAILED"
finding_text external_witness_gap = "EXTERNAL_WITNESS_GAP"
finding_text external_witness_invalid = "EXTERNAL_WITNESS_INVALID"
finding_text external_witness_not_independent = "EXTERNAL_WITNESS_NOT_INDEPENDENT"
finding_text external_witness_counterexample = "EXTERNAL_WITNESS_COUNTEREXAMPLE"
finding_text external_witness_unresolved = "EXTERNAL_WITNESS_UNRESOLVED"
finding_text witness_selection_invalid = "WITNESS_SELECTION_INVALID"
finding_text witness_authority_quorum_gap = "WITNESS_AUTHORITY_QUORUM_GAP"
finding_text witness_authority_disagreement = "WITNESS_AUTHORITY_DISAGREEMENT"
finding_text witness_challenge_substitution = "WITNESS_CHALLENGE_SUBSTITUTION"
finding_text witness_measurement_provenance_invalid = "WITNESS_MEASUREMENT_PROVENANCE_INVALID"
finding_text witness_dependency_diversity_gap = "WITNESS_DEPENDENCY_DIVERSITY_GAP"
finding_text witness_measurement_authority_gap = "WITNESS_MEASUREMENT_AUTHORITY_GAP"
finding_text witness_ancestry_invalid = "WITNESS_ANCESTRY_INVALID"
finding_text witness_ancestry_overlap = "WITNESS_ANCESTRY_OVERLAP"
finding_text witness_registry_invalid = "WITNESS_REGISTRY_INVALID"
finding_text witness_registry_disclosure_gap = "WITNESS_REGISTRY_DISCLOSURE_GAP"
finding_text witness_registry_ancestry_invalid = "WITNESS_REGISTRY_ANCESTRY_INVALID"
finding_text witness_registry_ancestry_overlap = "WITNESS_REGISTRY_ANCESTRY_OVERLAP"
finding_text witness_registry_observation_invalid = "WITNESS_REGISTRY_OBSERVATION_INVALID"
finding_text witness_registry_observation_disclosure_gap =
    "WITNESS_REGISTRY_OBSERVATION_DISCLOSURE_GAP"

-- `finding_type in _EVIDENCE_DEBT`
unfoldable pub is_evidence_debt : FindingType → Bool
is_evidence_debt insufficient_evidence = true
is_evidence_debt stale_evidence = true
is_evidence_debt atomic_coverage_gap = true
is_evidence_debt source_diversity_gap = true
is_evidence_debt source_provenance_missing = true
is_evidence_debt evidence_origin_diversity_gap = true
is_evidence_debt _ = false

-- `finding_type in _SEMANTIC_DEBT`
unfoldable pub is_semantic_debt : FindingType → Bool
is_semantic_debt decomposition_gap = true
is_semantic_debt entailment_gap = true
is_semantic_debt semantic_review_coverage_gap = true
is_semantic_debt representation_disagreement = true
is_semantic_debt semantic_obligation_gap = true
is_semantic_debt _ = false

-- `finding_type in _CLAIM_CONFLICT`
unfoldable pub is_claim_conflict : FindingType → Bool
is_claim_conflict contradiction = true
is_claim_conflict scope_inflation = true
is_claim_conflict counterexample_found = true
is_claim_conflict semantic_obligation_failed = true
is_claim_conflict external_witness_counterexample = true
is_claim_conflict _ = false

-- `finding_type in _HARD_RISK_FINDINGS`
unfoldable pub is_hard_risk : FindingType → Bool
is_hard_risk prompt_injection = true
is_hard_risk malformed_evidence = true
is_hard_risk reviewer_role_violation = true
is_hard_risk evidence_tamper = true
is_hard_risk invalid_runtime_receipt = true
is_hard_risk review_output_tamper = true
is_hard_risk review_context_contamination = true
is_hard_risk duplicate_review_invocation = true
is_hard_risk duplicate_atomic_claim = true
is_hard_risk evidence_admission_missing = true
is_hard_risk invalid_evidence_admission = true
is_hard_risk evidence_acquisition_failed = true
is_hard_risk duplicate_evidence_capture = true
is_hard_risk model_execution_unbound = true
is_hard_risk model_output_malformed = true
is_hard_risk model_schema_mismatch = true
is_hard_risk duplicate_model_response = true
is_hard_risk invocation_continuity_failure = true
is_hard_risk evidence_space_violation = true
is_hard_risk material_transition_leakage = true
is_hard_risk external_witness_gap = true
is_hard_risk external_witness_invalid = true
is_hard_risk external_witness_not_independent = true
is_hard_risk external_witness_unresolved = true
is_hard_risk witness_selection_invalid = true
is_hard_risk witness_authority_quorum_gap = true
is_hard_risk witness_authority_disagreement = true
is_hard_risk witness_challenge_substitution = true
is_hard_risk witness_measurement_provenance_invalid = true
is_hard_risk witness_dependency_diversity_gap = true
is_hard_risk witness_measurement_authority_gap = true
is_hard_risk witness_ancestry_invalid = true
is_hard_risk witness_ancestry_overlap = true
is_hard_risk witness_registry_invalid = true
is_hard_risk witness_registry_disclosure_gap = true
is_hard_risk witness_registry_ancestry_invalid = true
is_hard_risk witness_registry_ancestry_overlap = true
is_hard_risk witness_registry_observation_invalid = true
is_hard_risk witness_registry_observation_disclosure_gap = true
is_hard_risk _ = false

abbrev pub hard_usefulness_blockers : List String
hard_usefulness_blockers =
    "EVIDENCE_ADMISSION_INTEGRITY" ∷ "RUNTIME_KEY_UNAVAILABLE" ∷ "CLAIM_EVIDENCE_SET_EMPTY"
    ∷ "MISSING_EVIDENCE_OBJECT" ∷ "MISSING_REQUIRED_REVIEWER" ∷ "INVALID_RUNTIME_RECEIPT"
    ∷ "REVIEWER_EXECUTION_FAILURE" ∷ "REVIEW_CONTEXT_CONTAMINATION" ∷ "REVIEW_PROMPT_MISMATCH"
    ∷ "INVOCATION_CONTINUITY_FAILURE" ∷ "MODEL_EXECUTION_UNBOUND" ∷ "DUPLICATE_MODEL_RESPONSE"
    ∷ "DUPLICATE_REVIEW_INVOCATION" ∷ "REVIEW_BINDING_MISMATCH" ∷ "REVIEW_OUTPUT_TAMPER"
    ∷ "SEMANTIC_ARTIFACT_TAMPER" ∷ "REVIEWER_ROLE_VIOLATION" ∷ "BAD_EVIDENCE_REFERENCE"
    ∷ "EVIDENCE_SPACE_ADDITION" ∷ "EVIDENCE_SPACE_MUTATION" ∷ "MATERIAL_TRANSITION_LEAKAGE"
    ∷ "SEMANTIC_REVIEW_COVERAGE_GAP" ∷ "EXTERNAL_WITNESS_LAYER_HOLD" ∷ "WITNESS_QUORUM_LAYER_HOLD"
    ∷ "WITNESS_PROVENANCE_LAYER_HOLD" ∷ "WITNESS_ANCESTRY_LAYER_HOLD"
    ∷ "WITNESS_REGISTRY_LAYER_HOLD" ∷ "WITNESS_REGISTRY_ANCESTRY_LAYER_HOLD"
    ∷ "WITNESS_REGISTRY_OBSERVATION_LAYER_HOLD" ∷ "DUPLICATE_ATOMIC_CLAIM" ∷ []
