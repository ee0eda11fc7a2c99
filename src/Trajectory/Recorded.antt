-- ===== src/Trajectory/Recorded.antt =====
-- What the verifier's acceptance of a trajectory says of its steps.
use mathlib.Core.Bool.{decide_iff}
use illusiontion.Prelude.{
  ℕ, suc, String, List, [], ◌∷◌, ◌++◌, ◌≡◌, refl, sym, ap, ◌∙◌, subst, ok, Result-cases, Bool, inl,
  inr, sorted_set, sorted_set-eq-nil, append-eq-nil, failures-eq-nil, failures, some, All, arith,
  same, some_injective,
}
use illusiontion.Host.{Host, sha256_object}
use illusiontion.Recovery.Records.Claims.{class_text, zero_digest}
use illusiontion.Trajectory.Reviews.{
  ReviewBundle, Receipt, review_receipt, classify_observable_completion, findings_of,
  obligations_of,
}
use illusiontion.Trajectory.Records.{
  TrajectoryStep, ExecutionTrajectory, ExecutionTrajectory-discrete, is_same_trajectory,
  overall_class_of, step_payload,
}
use illusiontion.Trajectory.Chain.{
  behavior_classification_policy_sha256, CallTrace, class_errors, build_steps, unsigned_step,
  signed_step, trajectory_payload, build_recovery_execution_trajectory,
  verify_recovery_execution_trajectory,
}
use illusiontion.Trajectory.Supported.{build_steps-cons}
use illusiontion.Trajectory.Classified.{IsClassified, class_errors-AreClassified}

-- The step of one trace: the reviewer's receipt, and the class of the reviewer's findings and
-- obligations, which is the class that the trace carries.
pub record IsStepOf (review : ReviewBundle) (trace : CallTrace) (step : TrajectoryStep)
    : Type 0 where
  pub receipt : Receipt
  pub found : review_receipt trace.reviewer review.receipts ≡ some receipt
  pub reviewer : step.reviewer ≡ trace.reviewer
  pub carried : trace.action_class ≡ class_text step.action_class
  pub classified :
      step.action_class
      ≡ classify_observable_completion receipt
          (findings_of trace.reviewer review)
          (obligations_of trace.reviewer review)
  pub model_response : step.model_response_id ≡ receipt.model_response_id
  pub signature : step.receipt_signature ≡ receipt.runtime_signature

-- One step for each trace, in their order.
abbrev pub AreStepsOf : ReviewBundle → List CallTrace → List TrajectoryStep → Type 0
AreStepsOf review [] [] = Unit
AreStepsOf review [] (s ∷ steps) = ⊥
AreStepsOf review (t ∷ traces) [] = ⊥
AreStepsOf review (t ∷ traces) (s ∷ steps) = IsStepOf review t s × AreStepsOf review traces steps

module _ ⦃host : Host⦄ where
  -- A hash chain of steps, from an index and the digest before it.
  abbrev pub IsStepChain : ℕ → String → List TrajectoryStep → Type 0
  IsStepChain idx previous [] = Unit
  IsStepChain idx previous (s ∷ steps) =
      (s.step_index ≡ idx)
      × (s.previous_step_sha256 ≡ previous)
      × (s.step_sha256 ≡ sha256_object (step_payload s))
      × IsStepChain (suc idx) s.step_sha256 steps

  pub record IsRecorded (t : ExecutionTrajectory) (attempt_id lease : String)
      (review : ReviewBundle) (traces : List CallTrace) : Type 0 where
    pub attempt : t.attempt_id ≡ attempt_id
    pub lease_set : t.attempt_lease_set_sha256 ≡ lease
    pub policy : t.classification_policy_sha256 ≡ behavior_classification_policy_sha256
    pub reviewed : AreStepsOf review traces t.steps
    pub chained : IsStepChain 0 zero_digest t.steps
    pub overall : t.overall_class ≡ overall_class_of t.steps
    pub digest : t.trajectory_sha256 ≡ sha256_object (trajectory_payload t)

  build_steps-nil :
      (review : ReviewBundle) (idx : ℕ) (previous : String) (steps : List TrajectoryStep)
      → build_steps review idx previous [] ≡ ok steps
      → steps ≡ []
  unfolding build_steps
  build_steps-nil review idx previous steps e = ground arith

  build_steps-IsStepChain :
      (review : ReviewBundle) (idx : ℕ) (previous : String) (traces : List CallTrace)
      (steps : List TrajectoryStep)
      → build_steps review idx previous traces ≡ ok steps
      → IsStepChain idx previous steps
  unfolding unsigned_step signed_step step_payload
  build_steps-IsStepChain review idx previous [] steps e =
      subst (IsStepChain idx previous) (sym (build_steps-nil review idx previous steps e)) tt
  build_steps-IsStepChain review idx previous (t ∷ ts) steps e =
      let (receipt, rest, found, built, eq) = build_steps-cons review idx previous t ts steps e in
      subst (IsStepChain idx previous) (sym eq)
        (refl, refl, refl, build_steps-IsStepChain review (suc idx) _ ts rest built)

  build_steps-AreStepsOf :
      (review : ReviewBundle) (idx : ℕ) (previous : String) (traces : List CallTrace)
      (steps : List TrajectoryStep)
      → All (IsClassified review) traces
      → build_steps review idx previous traces ≡ ok steps
      → AreStepsOf review traces steps
  unfolding unsigned_step signed_step
  build_steps-AreStepsOf review idx previous [] steps classified e =
      subst (AreStepsOf review []) (sym (build_steps-nil review idx previous steps e)) tt
  build_steps-AreStepsOf review idx previous (t ∷ ts) steps classified e =
      let (receipt, rest, found, built, eq) = build_steps-cons review idx previous t ts steps e in
      let ((carrier, carries, carried), others) = classified in
      let same_receipt = some_injective (sym carries ∙ found) in
      subst (AreStepsOf review (t ∷ ts)) (sym eq) (
        record {
          receipt = receipt;
          found = found;
          reviewer = refl;
          carried =
              carried
              ∙ ap
                  (λ r. class_text (
                    classify_observable_completion r (findings_of t.reviewer review)
                      (obligations_of t.reviewer review)))
                  same_receipt;
          classified = refl;
          model_response = refl;
          signature = refl;
        },
        build_steps-AreStepsOf review (suc idx) _ ts rest others built,
      )

  abbrev unsigned_trajectory : String → String → List TrajectoryStep → ExecutionTrajectory
  unsigned_trajectory attempt_id lease steps = record {
    attempt_id = attempt_id;
    attempt_lease_set_sha256 = lease;
    classification_policy_sha256 = behavior_classification_policy_sha256;
    steps = steps;
    overall_class = overall_class_of steps;
    trajectory_sha256 = zero_digest;
  }

  build-made :
      (attempt_id lease : String) (review : ReviewBundle) (traces : List CallTrace)
      (t : ExecutionTrajectory)
      → build_recovery_execution_trajectory attempt_id lease review traces ≡ ok t
      → (steps : List TrajectoryStep) × (build_steps review 0 zero_digest traces ≡ ok steps)
        × (t ≡ record (unsigned_trajectory attempt_id lease steps) {
          trajectory_sha256 =
              sha256_object (trajectory_payload (unsigned_trajectory attempt_id lease steps));
        })
  unfolding build_recovery_execution_trajectory
  build-made attempt_id lease review traces t e =
      elim (Result-cases (build_steps review 0 zero_digest traces)) [
        | inl (raised, failed) ↦ absurd (ground arith)
        | inr (steps, built) ↦ (steps, built, ground arith)
      ]

  build-IsRecorded :
      (attempt_id lease : String) (review : ReviewBundle) (traces : List CallTrace)
      (t : ExecutionTrajectory)
      → All (IsClassified review) traces
      → build_recovery_execution_trajectory attempt_id lease review traces ≡ ok t
      → IsRecorded t attempt_id lease review traces
  unfolding trajectory_payload
  build-IsRecorded attempt_id lease review traces t classified e =
      let (steps, built, made) = build-made attempt_id lease review traces t e in
      subst (λ x. IsRecorded x attempt_id lease review traces) (sym made)
        (record {
          attempt = refl;
          lease_set = refl;
          policy = refl;
          reviewed = build_steps-AreStepsOf review 0 zero_digest traces steps classified built;
          chained = build_steps-IsStepChain review 0 zero_digest traces steps built;
          overall = refl;
          digest = refl;
        })

  abbrev trajectory_checks : ExecutionTrajectory → ExecutionTrajectory → List (Bool × String)
  trajectory_checks t expected =
      (is_same_trajectory t expected, "recovery-execution-trajectory-mismatch")
      ∷ (
        same t.classification_policy_sha256 behavior_classification_policy_sha256,
        "recovery-execution-classification-policy-mismatch",
      )
      ∷ []

  verify-parts :
      (attempt_id lease : String) (review : ReviewBundle) (traces : List CallTrace)
      (t : ExecutionTrajectory)
      → verify_recovery_execution_trajectory t attempt_id lease review traces ≡ ok []
      → (class_errors review traces ≡ ok [])
        × (build_recovery_execution_trajectory attempt_id lease review traces ≡ ok t)
  unfolding verify_recovery_execution_trajectory
  verify-parts attempt_id lease review traces t h =
      elim (Result-cases (class_errors review traces)) [
        | inl (raised, failed) ↦ absurd (ground (arith, failed, h))
        | inr (mismatches, found) ↦
            elim (Result-cases
              (build_recovery_execution_trajectory attempt_id lease review traces)) [
                | inl (raised, failed) ↦ absurd (ground (arith, found, failed, h))
                | inr (expected, built) ↦
                    let reported : sorted_set
                          (mismatches ++ failures (trajectory_checks t expected))
                        ≡ [] =
                      ground (arith, found, built, h) in
                    let (none_wrong, all_pass) =
                      append-eq-nil mismatches (failures (trajectory_checks t expected))
                        (sorted_set-eq-nil _ reported) in
                    let passed = failures-eq-nil (trajectory_checks t expected) all_pass in
                    (
                      found ∙ ap ok none_wrong,
                      built
                          ∙ ap ok (
                              sym (
                                (decide_iff (ExecutionTrajectory-discrete t expected)).0 passed.0)),
                    )
              ]
      ]

  -- A trajectory that the verifier accepts is a record of the reviews: it is for the attempt, the
  -- leases and the policy; it has one step for each trace, in their order, with the
  -- response and the signature of the reviewer's receipt and the class of the reviewer's findings and obligations, which is the class that the
  -- trace carries; the steps form a hash chain from the zero digest; its class is that of its
  -- steps; and its digest is that of its payload.
  pub verify_recovery_execution_trajectory-IsRecorded :
      (attempt_id lease : String) (review : ReviewBundle) (traces : List CallTrace)
      (t : ExecutionTrajectory)
      → verify_recovery_execution_trajectory t attempt_id lease review traces ≡ ok []
      → IsRecorded t attempt_id lease review traces
  verify_recovery_execution_trajectory-IsRecorded attempt_id lease review traces t h =
      let (agree, built) = verify-parts attempt_id lease review traces t h in
      build-IsRecorded attempt_id lease review traces t
        (class_errors-AreClassified review traces agree) built
