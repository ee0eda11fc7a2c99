-- ===== src/Trajectory/Chain.antt =====
-- The hash chain of the observable classes, and the verifier that builds it again:
-- `build_recovery_execution_trajectory` and `verify_recovery_execution_trajectory` of
-- app/calibration.py.
use illusiontion.Prelude.{
  ℕ, suc, String, not, List, [], ◌∷◌, ◌++◌, map, ◌<>◌, same, sorted_set, sorted_texts, failures,
  if◌then◌else◌, Result, ok, key_error, validation_error, ◌>>=◌, ◌>>◌, raise_if, require,
}
use illusiontion.Json.{Json, str, dict, list}
use illusiontion.Host.{Host, sha256_object}
use illusiontion.Recovery.Records.Claims.{ReviewerName, reviewer_text, class_text, zero_digest}
use illusiontion.Trajectory.Reviews.{
  Receipt, ReviewBundle, classify_observable_completion, evidence_of, findings_of, obligation_text,
  obligations_of, review_receipt, severity_text,
}
use illusiontion.Trajectory.Records.{
  ExecutionTrajectory, TrajectoryStep, is_same_trajectory, is_valid_step, is_valid_trajectory,
  overall_class_of, overall_text, step_payload, trajectory_step_json,
}

-- A trace of a call, as the trajectory reads it: `getattr(trace, "action_class", "UNCLASSIFIED")`.
pub record CallTrace : Type 0 where
  pub reviewer : ReviewerName
  pub action_class : String

-- `_POLICY`
abbrev trajectory_policy : Json
trajectory_policy = dict (
    ("domain", str "ILLUSIONTION_OBSERVABLE_TRAJECTORY_CLASSIFIER_V0_34")
    ∷ (
      "inputs",
      list (
          map str (
            "reviewer_role" ∷ "runtime_status" ∷ "finding_severity" ∷ "finding_evidence_ids"
            ∷ "semantic_obligation_results" ∷ "semantic_obligation_evidence_ids" ∷ "model_id"
            ∷ "model_response_id" ∷ "runtime_receipt_signature" ∷ [])),
    )
    ∷ (
      "classes",
      list (
          map str (
            "EXECUTION_FAILURE" ∷ "CRITICAL_FINDING" ∷ "SEMANTIC_CONFLICT" ∷ "CAUTION"
            ∷ "SEMANTIC_SUPPORT" ∷ "CLEAN" ∷ "OBSERVATION" ∷ [])),
    )
    ∷ ("authority", str "NEGATIVE_ONLY_MEMORY_NEVER_UPGRADES_VERDICT")
    ∷ [])

-- The loop of the verifier over the traces: each trace carries the class of its review.
unfoldable pub class_errors : ReviewBundle → List CallTrace → Result (List String)
unfolding classify_observable_completion review_receipt
class_errors review [] = ok []
class_errors review (trace ∷ traces) = do
  receipt ← require (review_receipt trace.reviewer review.receipts) key_error
  let expected_class =
      classify_observable_completion receipt (findings_of trace.reviewer review)
        (obligations_of trace.reviewer review)
  rest ← class_errors review traces
  ok (
      if same trace.action_class (class_text expected_class)
      then rest
      else ("recovery-mid-completion-classification-mismatch:" <> reviewer_text trace.reviewer)
        ∷ rest)

module _ ⦃host : Host⦄ where
  unfoldable pub behavior_classification_policy_sha256 : String
  behavior_classification_policy_sha256 = sha256_object trajectory_policy

  -- The step of one trace, before its digest.
  unfoldable pub unsigned_step :
      ReviewBundle → (idx : ℕ) (previous : String) → ReviewerName → Receipt → TrajectoryStep
  unfolding classify_observable_completion
  unsigned_step review idx previous r receipt =
      let findings = findings_of r review in
      let obligations = obligations_of r review in
      record {
        step_index = idx;
        reviewer = r;
        action_class = classify_observable_completion receipt findings obligations;
        evidence_ids = sorted_set (evidence_of findings obligations);
        finding_severities = sorted_texts (map (λ f. severity_text f.severity) findings);
        semantic_results = sorted_texts (map (λ o. obligation_text o.result) obligations);
        model_id = receipt.model_id;
        model_response_id = receipt.model_response_id;
        receipt_signature = receipt.runtime_signature;
        previous_step_sha256 = previous;
        step_sha256 = zero_digest;
      }

  unfoldable pub signed_step : TrajectoryStep → TrajectoryStep
  signed_step s = record s { step_sha256 = sha256_object (step_payload s) }

  -- The loop over the traces.
  unfoldable pub build_steps :
      ReviewBundle → (idx : ℕ) (previous : String) → List CallTrace → Result (List TrajectoryStep)
  unfolding unsigned_step signed_step review_receipt
  build_steps review idx previous [] = ok []
  build_steps review idx previous (trace ∷ traces) = do
    receipt ← require (review_receipt trace.reviewer review.receipts) key_error
    let unsigned = unsigned_step review idx previous trace.reviewer receipt
    raise_if (not (is_valid_step unsigned)) validation_error
    let step = signed_step unsigned
    rest ← build_steps review (suc idx) step.step_sha256 traces
    ok (step ∷ rest)

  unfoldable pub trajectory_payload : ExecutionTrajectory → Json
  trajectory_payload t = dict (
      ("attempt_id", str t.attempt_id)
      ∷ ("attempt_lease_set_sha256", str t.attempt_lease_set_sha256)
      ∷ ("classification_policy_sha256", str t.classification_policy_sha256)
      ∷ ("steps", list (map trajectory_step_json t.steps))
      ∷ ("overall_class", str (overall_text t.overall_class))
      ∷ [])

  unfoldable pub build_recovery_execution_trajectory :
      (attempt_id attempt_lease_set_sha256 : String)
      → ReviewBundle
      → List CallTrace
      → Result ExecutionTrajectory
  unfolding behavior_classification_policy_sha256 build_steps overall_class_of trajectory_payload
  build_recovery_execution_trajectory attempt_id lease review traces = do
    steps ← build_steps review 0 zero_digest traces
    let unsigned : ExecutionTrajectory = record {
      attempt_id = attempt_id;
      attempt_lease_set_sha256 = lease;
      classification_policy_sha256 = behavior_classification_policy_sha256;
      steps = steps;
      overall_class = overall_class_of steps;
      trajectory_sha256 = zero_digest;
    }
    raise_if (not (is_valid_trajectory unsigned)) validation_error
    ok (record unsigned { trajectory_sha256 = sha256_object (trajectory_payload unsigned) })

  unfoldable pub verify_recovery_execution_trajectory :
      ExecutionTrajectory
      → (attempt_id attempt_lease_set_sha256 : String) → ReviewBundle
      → List CallTrace
      → Result (List String)
  unfolding class_errors build_recovery_execution_trajectory behavior_classification_policy_sha256
  verify_recovery_execution_trajectory trajectory attempt_id lease review traces = do
    mismatches ← class_errors review traces
    expected ← build_recovery_execution_trajectory attempt_id lease review traces
    ok (
        sorted_set (
          mismatches
          ++ failures (
              (is_same_trajectory trajectory expected, "recovery-execution-trajectory-mismatch")
              ∷ (
                same trajectory.classification_policy_sha256 behavior_classification_policy_sha256,
                "recovery-execution-classification-policy-mismatch",
              )
              ∷ [])))
