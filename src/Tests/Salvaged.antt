-- ===== src/Tests/Salvaged.antt =====
-- Tests of the usefulness of a held decision: two atoms, and a finding on the evidence of one.
use illusiontion.Prelude.{
  ◌+◌, String, ◌≡◌, refl, true, false, some, [], ◌∷◌, List, elem, is_nil, length, ◌&&◌, ◌||◌,
}
use illusiontion.Calibration.{hold, unique}
use illusiontion.Calibration.Findings.{stale_evidence}
use illusiontion.Usefulness.Blockers.{
  ClaimAtom, Finding, AtomReport, Obligations, Assessment, representation_fortified, scoped_salvage,
  is_semantic_summary, is_localizable, atom_ids,
}
use illusiontion.Usefulness.{assess_decision_usefulness}
use illusiontion.Usefulness.Scoped.{
  IsClear, assess_decision_usefulness-IsClear, assess_decision_usefulness-splits,
}

abbrev atoms : List ClaimAtom
atoms =
    record { atom_id = "a1"; statement = "one"; evidence_ids = "e1" ∷ [] }
    ∷ record { atom_id = "a2"; statement = "two"; evidence_ids = "e2" ∷ [] }
    ∷ []

abbrev findings : List Finding
findings = record { finding_type = stale_evidence; evidence_ids = "e2" ∷ [] } ∷ []

abbrev reports : List AtomReport
reports = record { atom_id = "a1"; held = false } ∷ record { atom_id = "a2"; held = true } ∷ []

abbrev obligations : Obligations
obligations = record {
  representation_mismatch_atoms = "a2" ∷ [];
  missing_obligations = "joint:a2" ∷ [];
  failed_obligations = [];
}

abbrev result : Assessment
result =
    assess_decision_usefulness representation_fortified atoms hold findings reports
      (some obligations) []

scoped : result.status ≡ scoped_salvage
unfolding assess_decision_usefulness unique is_semantic_summary is_localizable
scoped = refl

promoted : elem "a1" result.promotable_atom_ids ≡ true
unfolding assess_decision_usefulness unique is_semantic_summary is_localizable
promoted = refl

assess_decision_usefulness-IsClear_example :
    IsClear representation_fortified atoms findings reports (some obligations) [] "a1"
assess_decision_usefulness-IsClear_example =
    assess_decision_usefulness-IsClear representation_fortified atoms findings reports
      (some obligations) [] "a1" scoped promoted

assess_decision_usefulness-splits_example :
    ((id : String)
      → (elem id (atom_ids atoms)
          ≡ (elem id result.promotable_atom_ids || elem id result.held_atom_ids))
        × ((elem id result.promotable_atom_ids && elem id result.held_atom_ids) ≡ false))
    × (is_nil result.promotable_atom_ids ≡ false)
    × (is_nil result.held_atom_ids ≡ false)
    × (result.preserved_atom_count ≡ length result.promotable_atom_ids)
    × (result.preserved_atom_count + length result.held_atom_ids ≡ result.total_atom_count)
    × (result.total_atom_count ≡ 2)
assess_decision_usefulness-splits_example =
    assess_decision_usefulness-splits representation_fortified atoms findings reports
      (some obligations) [] scoped
