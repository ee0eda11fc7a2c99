-- ===== src/Trajectory/Records.antt =====
-- The steps and trajectories of app/security.py with the payloads and the overall class of
-- app/calibration.py.
use mathlib.Core.Bool.{decide}
use native.Mathlib.Decide.{ℕ_discrete}
use illusiontion.Prelude.{
  ℕ, String, Bool, true, false, ◌&&◌, ◌||◌, List, [], ◌∷◌, map, same, Bool-cases, inl, inr, arith,
  eq_iff, any, all, leb, length, if◌then◌else◌,
}
use illusiontion.Json.{Json, str, num, dict, list}
use illusiontion.Recovery.Records.Claims.{
  ReviewerName, ReviewerName-discrete, ActionClass, ActionClass-discrete, reviewer_text,
  execution_failure, critical_finding, semantic_conflict, caution, semantic_support, clean,
  observation, class_text, is_class, length_within, is_digest,
}

pub record TrajectoryStep : Type 0 where
  pub step_index : ℕ
  pub reviewer : ReviewerName
  pub action_class : ActionClass
  pub evidence_ids : List String
  pub finding_severities : List String
  pub semantic_results : List String
  pub model_id : String
  pub model_response_id : String
  pub receipt_signature : String
  pub previous_step_sha256 : String
  pub step_sha256 : String

unfoldable pub is_valid_step : TrajectoryStep → Bool
is_valid_step s =
    leb s.step_index 31
    && leb (length s.evidence_ids) 512
    && leb (length s.finding_severities) 512
    && leb (length s.semantic_results) 2048
    && length_within 1 512 s.model_id
    && length_within 1 1024 s.model_response_id
    && is_digest s.receipt_signature
    && is_digest s.previous_step_sha256
    && is_digest s.step_sha256

abbrev pub step_fields : TrajectoryStep → List (String × Json)
step_fields s =
    ("step_index", num s.step_index)
    ∷ ("reviewer", str (reviewer_text s.reviewer))
    ∷ ("action_class", str (class_text s.action_class))
    ∷ ("evidence_ids", list (map str s.evidence_ids))
    ∷ ("finding_severities", list (map str s.finding_severities))
    ∷ ("semantic_results", list (map str s.semantic_results))
    ∷ ("model_id", str s.model_id)
    ∷ ("model_response_id", str s.model_response_id)
    ∷ ("receipt_signature", str s.receipt_signature)
    ∷ ("previous_step_sha256", str s.previous_step_sha256)
    ∷ []

-- `_step_payload`
unfoldable pub step_payload : TrajectoryStep → Json
step_payload s = dict (step_fields s)

abbrev pub trajectory_step_json : TrajectoryStep → Json
trajectory_step_json s = dict (("step_sha256", str s.step_sha256) ∷ step_fields s)

pub data OverallClass : Type 0 where
  failed_trajectory conflict_trajectory caution_trajectory : OverallClass
  support_trajectory mixed_trajectory : OverallClass

abbrev pub overall_text : OverallClass → String
overall_text failed_trajectory = "FAILED_TRAJECTORY"
overall_text conflict_trajectory = "CONFLICT_TRAJECTORY"
overall_text caution_trajectory = "CAUTION_TRAJECTORY"
overall_text support_trajectory = "SUPPORT_TRAJECTORY"
overall_text mixed_trajectory = "MIXED_TRAJECTORY"

pub record ExecutionTrajectory : Type 0 where
  pub attempt_id : String
  pub attempt_lease_set_sha256 : String
  pub classification_policy_sha256 : String
  pub steps : List TrajectoryStep
  pub overall_class : OverallClass
  pub trajectory_sha256 : String

unfoldable pub is_valid_trajectory : ExecutionTrajectory → Bool
is_valid_trajectory t =
    is_digest t.attempt_id
    && is_digest t.attempt_lease_set_sha256
    && is_digest t.classification_policy_sha256
    && leb 1 (length t.steps)
    && leb (length t.steps) 16
    && is_digest t.trajectory_sha256

abbrev pub is_supportive : ActionClass → Bool
is_supportive semantic_support = true
is_supportive clean = true
is_supportive observation = true
is_supportive _ = false

-- The class of the whole trajectory.
unfoldable pub overall_class_of : List TrajectoryStep → OverallClass
overall_class_of steps =
    if any (λ s. is_class s.action_class execution_failure) steps
    then failed_trajectory
    else if any
        (λ s. is_class s.action_class critical_finding || is_class s.action_class semantic_conflict)
        steps
    then conflict_trajectory
    else if any (λ s. is_class s.action_class caution) steps
    then caution_trajectory
    else if all (λ s. is_supportive s.action_class) steps
        && any (λ s. is_class s.action_class semantic_support) steps
    then support_trajectory
    else mixed_trajectory

unfoldable pub OverallClass-discrete : Discrete OverallClass
OverallClass-discrete = hlevel

unfoldable pub String-discrete : Discrete String
String-discrete s t = elim (Bool-cases (same s t)) [
  | inl is_same ↦ yes ((eq_iff s t).0 is_same)
  | inr differs ↦ no (λ e. ground (arith, eq_iff s t))
]

unfoldable pub TrajectoryStep-discrete : Discrete TrajectoryStep
unfolding ReviewerName-discrete ActionClass-discrete String-discrete
TrajectoryStep-discrete = hlevel (ℕ_discrete, String-discrete)

unfoldable pub ExecutionTrajectory-discrete : Discrete ExecutionTrajectory
unfolding OverallClass-discrete String-discrete TrajectoryStep-discrete
ExecutionTrajectory-discrete = hlevel (ℕ_discrete, String-discrete)

-- The equality of the two dumps.
abbrev pub is_same_trajectory : ExecutionTrajectory → ExecutionTrajectory → Bool
is_same_trajectory a b = decide (ExecutionTrajectory-discrete a b)
