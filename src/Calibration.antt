-- ===== src/Calibration.antt =====
-- The calibration of held decisions: `assess_decision_calibration` and `shadow_policy_would_promote`
-- of app/dependency_ancestry.py. The assessment is metadata: it never promotes a decision.
pub mod Findings
pub mod Shadow
use illusiontion.Prelude.{
  ℕ, suc, ◌+◌, String, Bool, true, false, not, ◌&&◌, ◌||◌, Option, none, some, List, [], ◌∷◌, ◌++◌,
  map, Result, ok, err, value_error, ◌<>◌, same, ◌==◌, elem, sorted_set, if◌then◌else◌,
}
use illusiontion.Calibration.Findings.{
  FindingType, fabrication, finding_text, is_evidence_debt, is_semantic_debt, is_claim_conflict,
  is_hard_risk, hard_usefulness_blockers,
}

pub data Verdict : Type 0 where
  pass hold reject : Verdict

pub data CalibrationStatus : Type 0 where
  clear_pass evidence_debt_hold semantic_debt_hold claim_conflict_hold : CalibrationStatus
  hard_integrity_hold mixed_hold rejected : CalibrationStatus

pub record DecisionCalibrationAssurance : Type 0 where
  pub status : CalibrationStatus
  pub evidence_debt : List String
  pub semantic_debt : List String
  pub claim_conflicts : List String
  pub hard_risks : List String
  pub blocker_counts : List (String × ℕ)
  pub recovery_actions : List String
  pub automatic_relaxation_allowed : Bool

-- The four groups of tokens that the loops fill.
pub record Groups : Type 0 where
  pub evidence : List String
  pub semantic : List String
  pub conflicts : List String
  pub hard : List String

abbrev is_fabrication : FindingType → Bool
is_fabrication fabrication = true
is_fabrication _ = false

-- One finding, put into the group of the first set that has its type.
unfoldable pub classify : FindingType → Groups → Groups
classify f g =
    if is_hard_risk f
    then record g { hard = finding_text f ∷ g.hard }
    else if is_claim_conflict f
    then record g { conflicts = finding_text f ∷ g.conflicts }
    else if is_semantic_debt f
    then record g { semantic = finding_text f ∷ g.semantic }
    else if is_evidence_debt f
    then record g { evidence = finding_text f ∷ g.evidence }
    else if is_fabrication f
    then record g { conflicts = finding_text f ∷ g.conflicts }
    else record g { hard = finding_text f ∷ g.hard }

-- The loop over the findings; the groups keep their order.
unfoldable pub classify_all : List FindingType → Groups
unfolding classify
classify_all [] = record { evidence = []; semantic = []; conflicts = []; hard = [] }
classify_all (f ∷ fs) = classify f (classify_all fs)

-- The global blockers of a usefulness assessment that count as hard.
unfoldable pub hard_blockers : List String → List String
hard_blockers [] = []
hard_blockers (b ∷ bs) =
    let rest = hard_blockers bs in if elem b hard_usefulness_blockers then b ∷ rest else rest

unique_from : List String → List String → List String
unique_from seen [] = []
unique_from seen (x ∷ xs) =
    let again = unique_from seen xs in
    let first = x ∷ unique_from (x ∷ seen) xs in if elem x seen then again else first

-- `list(dict.fromkeys(values))`
unfoldable pub unique : List String → List String
unfolding unique_from
unique xs = unique_from [] xs

occurrences : String → List String → ℕ
occurrences s [] = 0
occurrences s (t ∷ ts) = let rest = occurrences s ts in if same s t then suc rest else rest

-- `dict(sorted(Counter(values).items()))`
unfoldable pub counter : List String → List (String × ℕ)
unfolding occurrences
counter xs = map (λ x. (x, occurrences x xs)) (sorted_set xs)

abbrev pub is_empty : List String → Bool
is_empty [] = true
is_empty (x ∷ xs) = false

abbrev one_if : List String → ℕ
one_if xs = if is_empty xs then 0 else 1

-- The status, and the hard risks, of the groups.
unfoldable pub status_of : Groups → CalibrationStatus × List String
status_of g =
    let active_classes =
      one_if g.evidence + one_if g.semantic + one_if g.conflicts + one_if g.hard in
    if not (is_empty g.hard)
    then (if active_classes == 1 then hard_integrity_hold else mixed_hold, g.hard)
    else if not (is_empty g.conflicts)
    then (if active_classes == 1 then claim_conflict_hold else mixed_hold, g.hard)
    else if not (is_empty g.evidence) && not (is_empty g.semantic)
    then (mixed_hold, g.hard)
    else if not (is_empty g.evidence)
    then (evidence_debt_hold, g.hard)
    else if not (is_empty g.semantic)
    then (semantic_debt_hold, g.hard)
    else (hard_integrity_hold, "UNCLASSIFIED_HOLD" ∷ [])

abbrev action_for : List String → String → List String
action_for [] action = []
action_for (x ∷ xs) action = action ∷ []

-- The groups of a held decision.
unfoldable pub groups_of : List FindingType → Option (List String) → Groups
unfolding classify_all hard_blockers unique
groups_of findings usefulness =
    let g = classify_all findings in
    let blockers : List String = elim usefulness [
      | none ↦ []
      | some global_blockers ↦ hard_blockers global_blockers
    ] in
    record {
      evidence = unique g.evidence;
      semantic = unique g.semantic;
      conflicts = unique g.conflicts;
      hard = unique (g.hard ++ blockers);
    }

-- `usefulness` are the global blockers of the usefulness assessment, where there is one.
unfoldable pub assess_decision_calibration :
    Verdict → List FindingType → (usefulness : Option (List String)) → DecisionCalibrationAssurance
unfolding groups_of status_of counter
assess_decision_calibration pass findings usefulness = record {
  status = clear_pass;
  evidence_debt = [];
  semantic_debt = [];
  claim_conflicts = [];
  hard_risks = [];
  blocker_counts = [];
  recovery_actions = [];
  automatic_relaxation_allowed = false;
}
assess_decision_calibration reject findings usefulness = record {
  status = rejected;
  evidence_debt = [];
  semantic_debt = [];
  claim_conflicts = "FABRICATION_OR_REJECT_BOUNDARY" ∷ [];
  hard_risks = [];
  blocker_counts = ("REJECT", 1) ∷ [];
  recovery_actions = "Correct the rejected claim/evidence and rerun the full assurance path." ∷ [];
  automatic_relaxation_allowed = false;
}
assess_decision_calibration hold findings usefulness =
    let g = groups_of findings usefulness in
    let (status, hard) = status_of g in
    record {
      status = status;
      evidence_debt = g.evidence;
      semantic_debt = g.semantic;
      claim_conflicts = g.conflicts;
      hard_risks = hard;
      blocker_counts = counter (g.evidence ++ g.semantic ++ g.conflicts ++ hard);
      recovery_actions =
          action_for g.evidence
            "Repair or refresh the identified evidence debt, then rerun; do not auto-promote."
          ++ action_for g.semantic
              "Resolve the semantic/entailment debt with new independent work products, then rerun."
          ++ action_for g.conflicts
              "Reconcile or narrow the claim conflict before any promotion attempt."
          ++ action_for hard
              "Repair the integrity/security/provenance boundary and rerun the complete path.";
      automatic_relaxation_allowed = false;
    }

abbrev is_evidence_hold : CalibrationStatus → Bool
is_evidence_hold s = elim s [ evidence_debt_hold ↦ true | _ ↦ false ]

abbrev is_semantic_hold : CalibrationStatus → Bool
is_semantic_hold s = elim s [ semantic_debt_hold ↦ true | _ ↦ false ]

unfoldable pub shadow_policy_would_promote : CalibrationStatus → (policy : String) → Result Bool
shadow_policy_would_promote clear_pass policy = ok true
shadow_policy_would_promote status policy =
    if same policy "BASELINE_NO_RELAXATION"
    then ok false
    else if same policy "NAIVE_EVIDENCE_DEBT_RELEASE"
    then ok (is_evidence_hold status)
    else if same policy "NAIVE_SEMANTIC_DEBT_RELEASE"
    then ok (is_semantic_hold status)
    else if same policy "NAIVE_ALL_DEBT_RELEASE"
    then ok (is_evidence_hold status || is_semantic_hold status)
    else err (value_error ("unknown shadow calibration policy: " <> policy))
