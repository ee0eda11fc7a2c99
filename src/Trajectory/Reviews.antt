-- ===== src/Trajectory/Reviews.antt =====
-- The reviews that a trajectory reads, and `classify_observable_completion` of
-- app/calibration.py.
use illusiontion.Prelude.{
  String, Bool, true, false, not, ◌&&◌, List, [], ◌∷◌, ◌++◌, same, any, all, filter, is_nil,
  if◌then◌else◌, Option, none, some,
}
use illusiontion.Recovery.Records.Claims.{
  ReviewerName, ActionClass, is_reviewer, execution_failure, critical_finding, semantic_conflict,
  caution, semantic_support, clean, observation,
}

pub data Severity : Type 0 where
  info warning critical : Severity

abbrev pub severity_text : Severity → String
severity_text info = "INFO"
severity_text warning = "WARNING"
severity_text critical = "CRITICAL"

pub data ObligationResult : Type 0 where
  supports neutral contradicts satisfied violated unresolved : ObligationResult
  within_scope scope_gap no_counterexample_found counterexample_found : ObligationResult

abbrev pub obligation_text : ObligationResult → String
obligation_text supports = "SUPPORTS"
obligation_text neutral = "NEUTRAL"
obligation_text contradicts = "CONTRADICTS"
obligation_text satisfied = "SATISFIED"
obligation_text violated = "VIOLATED"
obligation_text unresolved = "UNRESOLVED"
obligation_text within_scope = "WITHIN_SCOPE"
obligation_text scope_gap = "SCOPE_GAP"
obligation_text no_counterexample_found = "NO_COUNTEREXAMPLE_FOUND"
obligation_text counterexample_found = "COUNTEREXAMPLE_FOUND"

-- `result in _NEGATIVE_RESULTS`
abbrev pub is_negative : ObligationResult → Bool
is_negative contradicts = true
is_negative violated = true
is_negative unresolved = true
is_negative scope_gap = true
is_negative counterexample_found = true
is_negative _ = false

-- `result in _POSITIVE_RESULTS`
abbrev pub is_positive : ObligationResult → Bool
is_positive supports = true
is_positive satisfied = true
is_positive within_scope = true
is_positive no_counterexample_found = true
is_positive _ = false

-- A receipt; `success` is `status == ReviewStatus.SUCCESS`.
pub record Receipt : Type 0 where
  pub reviewer : ReviewerName
  pub success : Bool
  pub model_id : String
  pub model_response_id : String
  pub runtime_signature : String

pub record ReviewFinding : Type 0 where
  pub reviewer : ReviewerName
  pub severity : Severity
  pub evidence_ids : List String

-- An obligation; its `evidence_id` is empty where it has none.
pub record Obligation : Type 0 where
  pub reviewer : ReviewerName
  pub result : ObligationResult
  pub evidence_id : String
  pub witness_evidence_ids : List String

pub record ReviewBundle : Type 0 where
  pub receipts : List Receipt
  pub findings : List ReviewFinding
  pub semantic_obligations : List Obligation

abbrev pub is_critical : Severity → Bool
is_critical s = elim s [ critical ↦ true | _ ↦ false ]

abbrev pub is_warning : Severity → Bool
is_warning s = elim s [ warning ↦ true | _ ↦ false ]

unfoldable pub classify_observable_completion :
    Receipt → List ReviewFinding → List Obligation → ActionClass
classify_observable_completion receipt findings obligations =
    if not receipt.success
    then execution_failure
    else if any (λ f. is_critical f.severity) findings
    then critical_finding
    else if any (λ o. is_negative o.result) obligations
    then semantic_conflict
    else if any (λ f. is_warning f.severity) findings
    then caution
    else if not (is_nil obligations) && all (λ o. is_positive o.result) obligations
    then semantic_support
    else if is_nil findings && is_nil obligations
    then clean
    else observation

-- `receipts[reviewer]`: the last receipt of the reviewer.
unfoldable pub review_receipt : ReviewerName → List Receipt → Option Receipt
review_receipt r [] = none
review_receipt r (x ∷ xs) = elim (review_receipt r xs) [
  | some later ↦ some later
  | none ↦ if is_reviewer x.reviewer r then some x else none
]

abbrev pub findings_of : ReviewerName → ReviewBundle → List ReviewFinding
findings_of r review = filter (λ f. is_reviewer f.reviewer r) review.findings

abbrev pub obligations_of : ReviewerName → ReviewBundle → List Obligation
obligations_of r review = filter (λ o. is_reviewer o.reviewer r) review.semantic_obligations

-- The evidence that a reviewer's findings and obligations name.
abbrev pub evidence_of : List ReviewFinding → List Obligation → List String
evidence_of [] [] = []
evidence_of [] (o ∷ os) =
    (if same o.evidence_id "" then [] else o.evidence_id ∷ [])
    ++ (o.witness_evidence_ids ++ evidence_of [] os)
evidence_of (f ∷ fs) os = f.evidence_ids ++ evidence_of fs os
