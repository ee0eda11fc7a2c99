-- ===== src/Tests/Calibrated.antt =====
-- Tests of the calibration of held decisions.
use illusiontion.Prelude.{◌≡◌, ◌≢◌, ◌↔◌, refl, false, true, none, [], ◌∷◌, ok}
use illusiontion.Calibration.{pass, hold, assess_decision_calibration, shadow_policy_would_promote}
use illusiontion.Calibration.Findings.{
  stale_evidence, prompt_injection, is_evidence_debt, is_semantic_debt,
}
use illusiontion.Calibration.Shadow.{
  assess_decision_calibration-not_promoted, shadow_policy-baseline,
}

assess_decision_calibration-not_promoted_example :
    shadow_policy_would_promote
      (assess_decision_calibration hold (stale_evidence ∷ prompt_injection ∷ []) none).status
      "NAIVE_ALL_DEBT_RELEASE"
    ≢ ok true
unfolding is_evidence_debt is_semantic_debt
assess_decision_calibration-not_promoted_example =
    assess_decision_calibration-not_promoted (stale_evidence ∷ prompt_injection ∷ []) none
      "NAIVE_ALL_DEBT_RELEASE" refl

shadow_policy-baseline_example :
    ((shadow_policy_would_promote
          (assess_decision_calibration hold (stale_evidence ∷ []) none).status
          "BASELINE_NO_RELAXATION"
        ≡ ok true)
      ↔ (hold ≡ pass))
    × ((assess_decision_calibration hold (stale_evidence ∷ []) none).automatic_relaxation_allowed
        ≡ false)
shadow_policy-baseline_example = shadow_policy-baseline hold (stale_evidence ∷ []) none
