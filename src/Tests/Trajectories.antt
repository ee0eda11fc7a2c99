-- ===== src/Tests/Trajectories.antt =====
-- Tests of the execution trajectory: two reviews that support, and a third that warns.
use mathlib.Core.Bool.{decide}
use native.Mathlib.Decide.{ℕ_discrete}
use illusiontion.Host.{sha256_object}
use illusiontion.Prelude.{
  Bool-cases, sorted_set, sorted_texts, ◌≡◌, refl, true, [], ◌∷◌, List, ok, All,
}
use illusiontion.Recovery.Records.Claims.{
  ReviewerName, decomposer, evidence, ReviewerName-discrete, ActionClass-discrete,
}
use illusiontion.Trajectory.Reviews.{Receipt, ReviewBundle, info, supports}
use illusiontion.Trajectory.Records.{
  ExecutionTrajectory-discrete, ExecutionTrajectory, support_trajectory, is_valid_step,
  is_valid_trajectory, step_payload,
}
use illusiontion.Trajectory.Chain.{
  CallTrace, build_recovery_execution_trajectory, verify_recovery_execution_trajectory,
}
use illusiontion.Trajectory.Supported.{
  IsUntroubled, build_recovery_execution_trajectory-IsUntroubled,
}
use illusiontion.Trajectory.Recorded.{IsRecorded, verify_recovery_execution_trajectory-IsRecorded}
use illusiontion.Tests.{host, digest_a, value_of}

abbrev receipt_of : ReviewerName → Receipt
receipt_of r = record {
  reviewer = r;
  success = true;
  model_id = "model";
  model_response_id = "response";
  runtime_signature = digest_a;
}

abbrev review : ReviewBundle
review = record {
  receipts = receipt_of decomposer ∷ receipt_of evidence ∷ [];
  findings = record { reviewer = evidence; severity = info; evidence_ids = "e1" ∷ [] } ∷ [];
  semantic_obligations =
      record {
        reviewer = evidence;
        result = supports;
        evidence_id = "e2";
        witness_evidence_ids = [];
      }
      ∷ [];
}

abbrev traces : List CallTrace
traces =
    record { reviewer = decomposer; action_class = "CLEAN" }
    ∷ record { reviewer = evidence; action_class = "SEMANTIC_SUPPORT" }
    ∷ []

abbrev empty : ExecutionTrajectory
empty = record {
  attempt_id = "";
  attempt_lease_set_sha256 = "";
  classification_policy_sha256 = "";
  steps = [];
  overall_class = support_trajectory;
  trajectory_sha256 = "";
}

abbrev built : ExecutionTrajectory
built = value_of (build_recovery_execution_trajectory digest_a digest_a review traces) empty

is_built : build_recovery_execution_trajectory digest_a digest_a review traces ≡ ok built
unfolding build_recovery_execution_trajectory decide ReviewerName-discrete is_valid_step sorted_set
    sorted_texts sha256_object step_payload is_valid_trajectory
is_built = refl

supported : built.overall_class ≡ support_trajectory
unfolding build_recovery_execution_trajectory decide ReviewerName-discrete is_valid_step sorted_set
    sorted_texts sha256_object step_payload is_valid_trajectory ActionClass-discrete
supported = refl

is_accepted : verify_recovery_execution_trajectory built digest_a digest_a review traces ≡ ok []
unfolding build_recovery_execution_trajectory verify_recovery_execution_trajectory decide
    ReviewerName-discrete is_valid_step sorted_set sorted_texts sha256_object step_payload
    is_valid_trajectory ExecutionTrajectory-discrete Bool-cases ℕ_discrete
is_accepted = refl

verify_recovery_execution_trajectory-IsRecorded_example :
    IsRecorded built digest_a digest_a review traces
verify_recovery_execution_trajectory-IsRecorded_example =
    verify_recovery_execution_trajectory-IsRecorded digest_a digest_a review traces built
      is_accepted

build_recovery_execution_trajectory-IsUntroubled_example : All (IsUntroubled review) traces
build_recovery_execution_trajectory-IsUntroubled_example =
    build_recovery_execution_trajectory-IsUntroubled digest_a digest_a review traces built is_built
      supported
