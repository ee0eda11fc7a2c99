-- ===== src/Calibration/Shadow.antt =====
-- What a shadow policy could promote: never a decision with a hard risk or a conflict.
use illusiontion.Prelude.{
  String, ◌≡◌, ◌≢◌, refl, Bool, true, false, not, ◌||◌, ◌⊎◌, Option, List, [], ◌∷◌, ◌++◌, arith, ok,
  any, Bool-cases, inl, inr, ◌↔◌,
}
use illusiontion.Calibration.{
  Verdict, pass, hold, reject, CalibrationStatus, clear_pass, evidence_debt_hold,
  semantic_debt_hold, claim_conflict_hold, hard_integrity_hold, mixed_hold, rejected, Groups,
  classify, classify_all, groups_of, unique, is_empty, status_of, assess_decision_calibration,
  shadow_policy_would_promote,
}
use illusiontion.Calibration.Findings.{FindingType, is_evidence_debt, is_semantic_debt}

-- A finding that is debt only: the kind that a policy experiment may release.
abbrev pub is_debt : FindingType → Bool
is_debt f = is_semantic_debt f || is_evidence_debt f

-- Conflicts or hard risks are on record.
abbrev is_blocked : Groups → Bool
is_blocked g = not (is_empty g.conflicts) || not (is_empty g.hard)

classify-not_debt :
    (f : FindingType) (g : Groups) → is_debt f ≡ false → is_blocked (classify f g) ≡ true
unfolding classify
classify-not_debt f g h = ground arith

classify-blocked :
    (f : FindingType) (g : Groups) → is_blocked g ≡ true → is_blocked (classify f g) ≡ true
unfolding classify
classify-blocked f g h = ground arith

classify_all-blocked :
    (fs : List FindingType)
    → any (λ f. not (is_debt f)) fs ≡ true
    → is_blocked (classify_all fs) ≡ true
unfolding classify_all
classify_all-blocked [] h = cc
classify_all-blocked (f ∷ fs) h = elim (Bool-cases (is_debt f)) [
  | inl debt ↦ classify-blocked f (classify_all fs) (classify_all-blocked fs (rw debt at h))
  | inr not_debt ↦ classify-not_debt f (classify_all fs) not_debt
]

is_empty-unique : (xs : List String) → is_empty (unique xs) ≡ is_empty xs
unfolding unique
is_empty-unique [] = refl
is_empty-unique (x ∷ xs) = refl

blocked_more :
    (conflicts hard more : List String)
    → (not (is_empty conflicts) || not (is_empty hard)) ≡ true
    → (not (is_empty conflicts) || not (is_empty (hard ++ more))) ≡ true
blocked_more (x ∷ xs) hard more h = refl
blocked_more [] (y ∷ ys) more h = refl
blocked_more [] [] more h = cc

groups_of-blocked :
    (fs : List FindingType) (usefulness : Option (List String))
    → any (λ f. not (is_debt f)) fs ≡ true
    → is_blocked (groups_of fs usefulness) ≡ true
unfolding groups_of
groups_of-blocked fs usefulness h =
    let g = classify_all fs in
    rw (is_empty-unique g.conflicts, is_empty-unique (g.hard ++ _))
      (blocked_more g.conflicts g.hard _ (classify_all-blocked fs h))

blocked-status :
    (g : Groups)
    → is_blocked g ≡ true
    → ((status_of g).0 ≡ hard_integrity_hold)
      ⊎ (((status_of g).0 ≡ mixed_hold) ⊎ ((status_of g).0 ≡ claim_conflict_hold))
unfolding status_of
blocked-status g h = ground arith

hold_status :
    (fs : List FindingType) (usefulness : Option (List String))
    → (assess_decision_calibration hold fs usefulness).status
      ≡ (status_of (groups_of fs usefulness)).0
unfolding assess_decision_calibration
hold_status fs usefulness = refl

hard_integrity-not :
    (policy : String) → shadow_policy_would_promote hard_integrity_hold policy ≢ ok true
unfolding shadow_policy_would_promote
hard_integrity-not policy = λ e. ground arith

mixed-not : (policy : String) → shadow_policy_would_promote mixed_hold policy ≢ ok true
unfolding shadow_policy_would_promote
mixed-not policy = λ e. ground arith

claim_conflict-not :
    (policy : String) → shadow_policy_would_promote claim_conflict_hold policy ≢ ok true
unfolding shadow_policy_would_promote
claim_conflict-not policy = λ e. ground arith

-- No shadow policy promotes a held decision with a finding of any type that is neither evidence
-- debt nor semantic debt.
pub assess_decision_calibration-not_promoted :
    (fs : List FindingType) (usefulness : Option (List String)) (policy : String)
    → any (λ f. not (is_debt f)) fs ≡ true
    → shadow_policy_would_promote (assess_decision_calibration hold fs usefulness).status policy
      ≢ ok true
assess_decision_calibration-not_promoted fs usefulness policy h =
    rw (hold_status fs usefulness)
      (elim (blocked-status (groups_of fs usefulness) (groups_of-blocked fs usefulness h)) [
        | inl hard ↦ rw hard (hard_integrity-not policy)
        | inr (inl mixed) ↦ rw mixed (mixed-not policy)
        | inr (inr conflict) ↦ rw conflict (claim_conflict-not policy)
      ])

held-not_clear : (g : Groups) → (status_of g).0 ≢ clear_pass
unfolding status_of
held-not_clear g = λ e. ground arith

baseline-clear :
    (s : CalibrationStatus)
    → shadow_policy_would_promote s "BASELINE_NO_RELAXATION" ≡ ok true
    → s ≡ clear_pass
unfolding shadow_policy_would_promote
baseline-clear clear_pass e = refl
baseline-clear evidence_debt_hold e = cc
baseline-clear semantic_debt_hold e = cc
baseline-clear claim_conflict_hold e = cc
baseline-clear hard_integrity_hold e = cc
baseline-clear mixed_hold e = cc
baseline-clear rejected e = cc

-- The baseline policy promotes exactly the decisions that pass, and no assessment allows an
-- automatic relaxation.
pub shadow_policy-baseline :
    (verdict : Verdict) (fs : List FindingType) (usefulness : Option (List String))
    → ((shadow_policy_would_promote
            (assess_decision_calibration verdict fs usefulness).status
            "BASELINE_NO_RELAXATION"
          ≡ ok true)
        ↔ (verdict ≡ pass))
      × ((assess_decision_calibration verdict fs usefulness).automatic_relaxation_allowed ≡ false)
unfolding assess_decision_calibration shadow_policy_would_promote
shadow_policy-baseline pass fs usefulness = ((λ e. refl, λ e. refl), refl)
shadow_policy-baseline reject fs usefulness = ((λ e. cc, λ e. cc), refl)
shadow_policy-baseline hold fs usefulness =
    ((λ e. absurd (held-not_clear (groups_of fs usefulness) (baseline-clear _ e)), λ e. cc), refl)
