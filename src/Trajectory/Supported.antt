-- ===== src/Trajectory/Supported.antt =====
-- What the class of a trajectory says of the reviews under it.
use mathlib.Core.Bool.{decide_iff}
use illusiontion.Prelude.{
  ℕ, suc, String, Bool, true, false, List, [], ◌∷◌, ◌≡◌, refl, Result-cases, ok, inl, inr,
  Option-cases, some, All, any, arith, Bool-cases, ◌||◌, subst, ◌∙◌,
}
use illusiontion.Host.{Host}
use illusiontion.Recovery.Records.Claims.{
  ActionClass, execution_failure, critical_finding, semantic_conflict, caution, semantic_support,
  clean, observation, is_class, zero_digest, ActionClass-discrete,
}
use illusiontion.Trajectory.Reviews.{
  ReviewBundle, Receipt, ReviewFinding, Obligation, review_receipt, classify_observable_completion,
  findings_of, obligations_of, is_critical, is_warning, is_negative,
}
use illusiontion.Trajectory.Records.{
  TrajectoryStep, ExecutionTrajectory, is_valid_step, support_trajectory, overall_class_of,
}
use illusiontion.Trajectory.Chain.{
  CallTrace, build_steps, unsigned_step, signed_step, build_recovery_execution_trajectory,
}

-- The review of the reviewer succeeded, with no finding above information and no negative result.
pub IsUntroubled : ReviewBundle → CallTrace → Type 0
IsUntroubled review trace =
    (receipt : Receipt) × (review_receipt trace.reviewer review.receipts ≡ some receipt)
    × (receipt.success ≡ true)
    × (any (λ f. is_critical f.severity) (findings_of trace.reviewer review) ≡ false)
    × (any (λ f. is_warning f.severity) (findings_of trace.reviewer review) ≡ false)
    × (any (λ o. is_negative o.result) (obligations_of trace.reviewer review) ≡ false)

abbrev is_troubled : ActionClass → Bool
is_troubled execution_failure = true
is_troubled critical_finding = true
is_troubled semantic_conflict = true
is_troubled caution = true
is_troubled _ = false

classify_untroubled :
    (receipt : Receipt) (fs : List ReviewFinding) (os : List Obligation)
    → is_troubled (classify_observable_completion receipt fs os) ≡ false
    → (receipt.success ≡ true)
      × (any (λ f. is_critical f.severity) fs ≡ false)
      × (any (λ f. is_warning f.severity) fs ≡ false)
      × (any (λ o. is_negative o.result) os ≡ false)
unfolding classify_observable_completion
classify_untroubled receipt fs os h = (ground arith, ground arith, ground arith, ground arith)

or-eq-false : (a b : Bool) → (a || b) ≡ false → (a ≡ false) × (b ≡ false)
or-eq-false true b e = cc
or-eq-false false b e = (refl, e)

is_class_refl : (c : ActionClass) → is_class c c ≡ true
is_class_refl c = (decide_iff (ActionClass-discrete c c)).1 refl

untroubled_step :
    (c : ActionClass)
    → is_class c execution_failure ≡ false
    → is_class c critical_finding ≡ false
    → is_class c semantic_conflict ≡ false
    → is_class c caution ≡ false
    → is_troubled c ≡ false
untroubled_step execution_failure f g g' h = cc (is_class_refl execution_failure)
untroubled_step critical_finding f g g' h = cc (is_class_refl critical_finding)
untroubled_step semantic_conflict f g g' h = cc (is_class_refl semantic_conflict)
untroubled_step caution f g g' h = cc (is_class_refl caution)
untroubled_step semantic_support f g g' h = refl
untroubled_step clean f g g' h = refl
untroubled_step observation f g g' h = refl

untroubled_steps :
    (steps : List TrajectoryStep)
    → any (λ s. is_class s.action_class execution_failure) steps ≡ false
    → any
        (λ s. is_class s.action_class critical_finding || is_class s.action_class semantic_conflict)
        steps
      ≡ false
    → any (λ s. is_class s.action_class caution) steps ≡ false
    → All (λ s. is_troubled s.action_class ≡ false) steps
untroubled_steps [] f g h = tt
untroubled_steps (s ∷ steps) f g h = (
  untroubled_step s.action_class (or-eq-false _ _ f).0 (or-eq-false _ _ (or-eq-false _ _ g).0).0
      (or-eq-false _ _ (or-eq-false _ _ g).0).1 (or-eq-false _ _ h).0,
  untroubled_steps steps (or-eq-false _ _ f).1 (or-eq-false _ _ g).1 (or-eq-false _ _ h).1,
)

supportive_untroubled :
    (steps : List TrajectoryStep)
    → overall_class_of steps ≡ support_trajectory
    → All (λ s. is_troubled s.action_class ≡ false) steps
unfolding overall_class_of
supportive_untroubled steps h = untroubled_steps steps (ground arith) (ground arith) (ground arith)

module _ ⦃host : Host⦄ where
  pub build_steps-cons :
      (review : ReviewBundle) (idx : ℕ) (previous : String) (t : CallTrace) (ts : List CallTrace)
      (steps : List TrajectoryStep)
      → build_steps review idx previous (t ∷ ts) ≡ ok steps
      → (receipt : Receipt) × (rest : List TrajectoryStep) × (review_receipt t.reviewer
            review.receipts
          ≡ some receipt)
        × (build_steps review
              (suc idx)
              (signed_step (unsigned_step review idx previous t.reviewer receipt)).step_sha256
              ts
            ≡ ok rest)
        × (steps ≡ signed_step (unsigned_step review idx previous t.reviewer receipt) ∷ rest)
  unfolding build_steps
  build_steps-cons review idx previous t ts steps e =
      elim (Option-cases (review_receipt t.reviewer review.receipts)) [
        | inl missing ↦ absurd (ground arith)
        | inr (receipt, found) ↦
            elim (Bool-cases
              (is_valid_step (unsigned_step review idx previous t.reviewer receipt))) [
                | inr invalid ↦ absurd (ground arith)
                | inl valid ↦
                    elim (Result-cases (
                      build_steps review (suc idx)
                        (signed_step
                          (unsigned_step review idx previous t.reviewer receipt)).step_sha256
                        ts)) [
                          | inl (raised, failed) ↦ absurd (ground arith)
                          | inr (rest, built) ↦ (receipt, rest, found, built, ground arith)
                        ]
              ]
      ]

  build_steps-IsUntroubled :
      (review : ReviewBundle) (idx : ℕ) (previous : String) (traces : List CallTrace)
      (steps : List TrajectoryStep)
      → build_steps review idx previous traces ≡ ok steps
      → All (λ s. is_troubled s.action_class ≡ false) steps
      → All (IsUntroubled review) traces
  unfolding IsUntroubled unsigned_step signed_step
  build_steps-IsUntroubled review idx previous [] steps e h = tt
  build_steps-IsUntroubled review idx previous (t ∷ ts) steps e h =
      let (receipt, rest, found, built, eq) = build_steps-cons review idx previous t ts steps e in
      let h' = subst (All (λ s. is_troubled s.action_class ≡ false)) eq h in
      let c =
        classify_untroubled receipt (findings_of t.reviewer review)
          (obligations_of t.reviewer review) h'.0 in
      (
        (receipt, found, c.0, c.1, c.2, c.3),
        build_steps-IsUntroubled review (suc idx) _ ts rest built h'.1,
      )

  build-overall :
      (attempt_id lease : String) (review : ReviewBundle) (traces : List CallTrace)
      (t : ExecutionTrajectory)
      → build_recovery_execution_trajectory attempt_id lease review traces ≡ ok t
      → (steps : List TrajectoryStep) × (build_steps review 0 zero_digest traces ≡ ok steps)
        × (overall_class_of steps ≡ t.overall_class)
  unfolding build_recovery_execution_trajectory
  build-overall attempt_id lease review traces t e =
      elim (Result-cases (build_steps review 0 zero_digest traces)) [
        | inl (raised, failed) ↦ absurd (ground arith)
        | inr (steps, built) ↦ (steps, built, ground arith)
      ]

  -- A trajectory that is built with the overall class of support comes from reviews that all
  -- succeeded, with no critical and no warning finding and no negative obligation result.
  pub build_recovery_execution_trajectory-IsUntroubled :
      (attempt_id lease : String) (review : ReviewBundle) (traces : List CallTrace)
      (t : ExecutionTrajectory)
      → build_recovery_execution_trajectory attempt_id lease review traces ≡ ok t
      → t.overall_class ≡ support_trajectory
      → All (IsUntroubled review) traces
  build_recovery_execution_trajectory-IsUntroubled attempt_id lease review traces t e h =
      let (steps, built, overall) = build-overall attempt_id lease review traces t e in
      build_steps-IsUntroubled review 0 zero_digest traces steps built
        (supportive_untroubled steps (overall ∙ h))
