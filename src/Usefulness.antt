-- ===== src/Usefulness.antt =====
-- The usefulness of a held decision: `assess_decision_usefulness` of app/witness_auth.py, which
-- splits the atoms of a composite claim into those that may be reused and those that are held.
pub mod Blockers
pub mod Salvage
pub mod Open
pub mod Scoped
use Prim.Native.Char.{code}
use illusiontion.Prelude.{
  ℕ, String, Bool, true, false, not, ◌&&◌, ◌||◌, Option, none, some, List, [], ◌∷◌, ◌++◌, map, ◌<>◌,
  ◌==◌, same, elem, any, all, filter, leb, length, is_nil, sorted_set, if◌then◌else◌,
}
use illusiontion.Prelude.Sets.{set_of, difference}
use illusiontion.Prelude.Dicts.{find_by, gather, join}
use illusiontion.Calibration.{Verdict, pass, hold, reject, unique}
use illusiontion.Calibration.Findings.{
  FindingType, fabrication, contradiction, insufficient_evidence, scope_inflation, stale_evidence,
  atomic_coverage_gap, source_diversity_gap, source_provenance_missing,
  evidence_origin_diversity_gap, entailment_gap, counterexample_found, representation_disagreement,
  semantic_obligation_gap, semantic_obligation_failed, finding_text,
}
use illusiontion.Usefulness.Blockers.{
  Assessment, AssuranceProfile, AtomReport, Blocked, ClaimAtom, Finding, Obligations, atom_ids,
  blocked_by, full_pass, hard_hold, is_salvage_profile, rejected, scoped_salvage, ◌and◌,
}

-- `atom_blockers.get(atom_id)`
unfoldable pub reasons_of : (atom_id : String) → List (String × String) → List String
reasons_of id [] = []
reasons_of id ((at, reason) ∷ rest) =
    let more = reasons_of id rest in if same at id then reason ∷ more else more

-- The same without repetitions.
unfoldable pub blockers_of : (atom_id : String) → List (String × String) → List String
unfolding reasons_of
blockers_of id entries = unique (reasons_of id entries)

abbrev blockers_dict : List (String × String) → List (String × List String)
blockers_dict entries =
    map (λ id. (id, blockers_of id entries)) (sorted_set (map (λ e. e.0) entries))

abbrev statements_of : List ClaimAtom → List String → List (String × String)
statements_of atoms ids =
    map (λ id. (id, elim (find_by (λ a. a.atom_id) id atoms) [ none ↦ "" | some a ↦ a.statement ]))
      ids

-- A hold without a split.
unfoldable pub hard_held :
    List ClaimAtom → List (String × String) → (blockers recovery : List String) → Assessment
hard_held atoms entries blockers recovery = record {
  status = hard_hold;
  promotable_atom_ids = [];
  promotable_statements = [];
  held_atom_ids = atom_ids atoms;
  atom_blockers = blockers_dict entries;
  global_blockers = unique blockers;
  recovery_requirements = recovery;
  preserved_atom_count = 0;
  total_atom_count = length atoms;
}

unfoldable pub held_atoms : List ClaimAtom → List (String × String) → List String
unfolding blockers_of
held_atoms atoms entries = filter (λ id. not (is_nil (blockers_of id entries))) (atom_ids atoms)

-- The split of a claim that no global blocker holds.
unfoldable pub split_atoms : List ClaimAtom → List (String × String) → Assessment
unfolding held_atoms hard_held
split_atoms atoms entries =
    let held = held_atoms atoms entries in
    let promotable = difference (atom_ids atoms) held in
    if is_nil promotable || is_nil held
    then hard_held atoms entries ("NO_SAFE_LOCALIZED_SPLIT" ∷ [])
        ("Resolve the unresolved claim as a whole before promotion." ∷ [])
    else record {
      status = scoped_salvage;
      promotable_atom_ids = promotable;
      promotable_statements = statements_of atoms promotable;
      held_atom_ids = held;
      atom_blockers = blockers_dict entries;
      global_blockers = [];
      recovery_requirements =
          map (λ id. "Repair atom " <> id <> ": " <> join (blockers_of id entries)) held;
      preserved_atom_count = length promotable;
      total_atom_count = length atoms;
    }

-- The assessment of a held claim.
unfoldable pub assess_held : AssuranceProfile → List ClaimAtom → Blocked → Assessment
unfolding is_salvage_profile split_atoms hard_held
assess_held profile atoms blocked =
    let blockers = unique blocked.global in
    let supported = is_salvage_profile profile && leb 2 (length atoms) in
    let all_blockers =
      if supported then blockers else blockers ++ "PROFILE_NOT_ATOM_SALVAGE_ELIGIBLE" ∷ [] in
    if not (is_nil blockers) || not supported
    then hard_held atoms blocked.atoms all_blockers
        (map (λ b. "Resolve global blocker: " <> b) (unique all_blockers))
    else split_atoms atoms blocked.atoms

unfoldable pub assess_decision_usefulness :
    AssuranceProfile
    → List ClaimAtom
    → Verdict
    → List Finding
    → List AtomReport
    → Option Obligations
    → (global_blockers : List String) → Assessment
unfolding assess_held blocked_by
assess_decision_usefulness profile atoms pass findings reports obligations blockers = record {
  status = full_pass;
  promotable_atom_ids = atom_ids atoms;
  promotable_statements = statements_of atoms (atom_ids atoms);
  held_atom_ids = [];
  atom_blockers = [];
  global_blockers = [];
  recovery_requirements = [];
  preserved_atom_count = length atoms;
  total_atom_count = length atoms;
}
assess_decision_usefulness profile atoms reject findings reports obligations blockers = record {
  status = rejected;
  promotable_atom_ids = [];
  promotable_statements = [];
  held_atom_ids = atom_ids atoms;
  atom_blockers = map (λ id. (id, "FULL_CLAIM_REJECTED" ∷ [])) (atom_ids atoms);
  global_blockers = "FULL_CLAIM_REJECTED" ∷ [];
  recovery_requirements =
      "Do not salvage from a rejected claim; correct the underlying fabrication and rerun." ∷ [];
  preserved_atom_count = 0;
  total_atom_count = length atoms;
}
assess_decision_usefulness profile atoms hold findings reports obligations blockers =
    assess_held profile atoms (blocked_by atoms findings reports obligations blockers)
