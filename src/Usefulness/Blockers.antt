-- ===== src/Usefulness/Blockers.antt =====
-- The findings, reports and obligations that `assess_decision_usefulness` of app/witness_auth.py
-- reads, and the atoms and the claim that they block.
use Prim.Native.Char.{code}
use illusiontion.Prelude.{
  ℕ, String, Bool, true, false, not, ◌&&◌, ◌||◌, Option, none, some, List, [], ◌∷◌, ◌++◌, map, ◌<>◌,
  ◌==◌, same, elem, any, is_nil, if◌then◌else◌,
}
use illusiontion.Prelude.Sets.{set_of}
use illusiontion.Prelude.Dicts.{gather}
use illusiontion.Calibration.{unique}
use illusiontion.Calibration.Findings.{
  FindingType, fabrication, contradiction, insufficient_evidence, scope_inflation, stale_evidence,
  atomic_coverage_gap, source_diversity_gap, source_provenance_missing,
  evidence_origin_diversity_gap, entailment_gap, counterexample_found, representation_disagreement,
  semantic_obligation_gap, semantic_obligation_failed, finding_text,
}

pub data AssuranceProfile : Type 0 where
  standard corroborated fortified model_bound semantic_fortified : AssuranceProfile
  representation_fortified external_witness_fortified witness_quorum_fortified : AssuranceProfile
  witness_provenance_fortified witness_ancestry_fortified : AssuranceProfile
  witness_registry_fortified witness_registry_ancestry_fortified : AssuranceProfile
  witness_registry_observation_fortified : AssuranceProfile

-- `profile in _SALVAGE_PROFILES`
unfoldable pub is_salvage_profile : AssuranceProfile → Bool
is_salvage_profile standard = false
is_salvage_profile corroborated = false
is_salvage_profile fortified = false
is_salvage_profile model_bound = false
is_salvage_profile semantic_fortified = false
is_salvage_profile _ = true

-- `finding_type in _LOCALIZABLE_FINDINGS`
unfoldable pub is_localizable : FindingType → Bool
is_localizable fabrication = true
is_localizable contradiction = true
is_localizable insufficient_evidence = true
is_localizable scope_inflation = true
is_localizable stale_evidence = true
is_localizable atomic_coverage_gap = true
is_localizable source_diversity_gap = true
is_localizable source_provenance_missing = true
is_localizable evidence_origin_diversity_gap = true
is_localizable entailment_gap = true
is_localizable counterexample_found = true
is_localizable _ = false

-- `finding_type in _SEMANTIC_SUMMARIES`
unfoldable pub is_semantic_summary : FindingType → Bool
is_semantic_summary representation_disagreement = true
is_semantic_summary semantic_obligation_gap = true
is_semantic_summary semantic_obligation_failed = true
is_semantic_summary _ = false

pub record ClaimAtom : Type 0 where
  pub atom_id : String
  pub statement : String
  pub evidence_ids : List String

pub record Finding : Type 0 where
  pub finding_type : FindingType
  pub evidence_ids : List String

-- A report of the preflight on one atom; `held` is `status == "HOLD"`.
pub record AtomReport : Type 0 where
  pub atom_id : String
  pub held : Bool

-- What `SemanticObligationAssurance` reports.
pub record Obligations : Type 0 where
  pub representation_mismatch_atoms : List String
  pub missing_obligations : List String
  pub failed_obligations : List String

pub data UsefulnessStatus : Type 0 where
  full_pass scoped_salvage hard_hold rejected : UsefulnessStatus

-- The assessment. The rate of preservation is the quotient of the two counts.
pub record Assessment : Type 0 where
  pub status : UsefulnessStatus
  pub promotable_atom_ids : List String
  pub promotable_statements : List (String × String)
  pub held_atom_ids : List String
  pub atom_blockers : List (String × List String)
  pub global_blockers : List String
  pub recovery_requirements : List String
  pub preserved_atom_count : ℕ
  pub total_atom_count : ℕ

abbrev cons_first : (character : String) → List String → List String
cons_first c [] = c ∷ []
cons_first c (part ∷ parts) = (c <> part) ∷ parts

-- `token.split(":")`
unfoldable pub split_colon : String → List String
split_colon String.[] = "" ∷ []
split_colon (String.◌∷◌ c s) =
    let rest = split_colon s in
    if code c == b':' then "" ∷ rest else cons_first (String.◌∷◌ c String.[]) rest

unfoldable pub first_of : (atom_ids : List String) → List String → Option String
first_of ids [] = none
first_of ids (p ∷ ps) = let rest = first_of ids ps in if elem p ids then some p else rest

abbrev tail : List String → List String
tail [] = []
tail (p ∷ ps) = ps

-- `_semantic_atom_from_token`
unfoldable pub semantic_atom_from_token : String → (atom_ids : List String) → Option String
unfolding split_colon first_of
semantic_atom_from_token token ids = first_of ids (tail (split_colon token))

-- What the assessment gathers: blockers of single atoms, and of the whole claim.
pub record Blocked : Type 0 where
  pub atoms : List (String × String)
  pub global : List String

abbrev pub nothing : Blocked
nothing = record { atoms = []; global = [] }

abbrev of_atom : String → String → Blocked
of_atom id reason = record { atoms = (id, reason) ∷ []; global = [] }

abbrev of_claim : String → Blocked
of_claim reason = record { atoms = []; global = reason ∷ [] }

infixl 65 ◌and◌
abbrev pub ◌and◌ : Blocked → Blocked → Blocked
a and b = record { atoms = a.atoms ++ b.atoms; global = a.global ++ b.global }

abbrev pub collect {ℓ} : {A : Type ℓ} → (A → Blocked) → List A → Blocked
collect f [] = record { atoms = []; global = [] }
collect f (x ∷ xs) = f x and collect f xs

unfoldable pub of_report : (atom_ids : List String) → AtomReport → Blocked
of_report ids r =
    if r.held && elem r.atom_id ids then of_atom r.atom_id "ATOM_ASSURANCE_HOLD" else nothing

unfoldable pub of_mismatch : (atom_ids : List String) → String → Blocked
of_mismatch ids id = if elem id ids then of_atom id "REPRESENTATION_DISAGREEMENT" else nothing

-- The loop body for a missing or failed obligation.
unfoldable pub of_token : (atom_ids : List String) → (reason unlocalized token : String) → Blocked
unfolding semantic_atom_from_token
of_token ids reason unlocalized token = elim (semantic_atom_from_token token ids) [
  | none ↦ of_claim unlocalized
  | some id ↦ if same id "" then of_claim unlocalized else of_atom id reason
]

unfoldable pub of_obligations : (atom_ids : List String) → Option Obligations → Blocked
unfolding of_mismatch of_token
of_obligations ids none = nothing
of_obligations ids (some o) =
    collect (of_mismatch ids) o.representation_mismatch_atoms
    and collect (of_token ids "SEMANTIC_OBLIGATION_MISSING" "UNLOCALIZED_SEMANTIC_OBLIGATION_GAP")
        o.missing_obligations
    and collect
        (of_token ids "SEMANTIC_OBLIGATION_FAILED" "UNLOCALIZED_SEMANTIC_OBLIGATION_FAILURE")
        o.failed_obligations

-- `evidence_to_atoms.get(evidence_id)`: the atoms that cite the evidence.
unfoldable pub owners : List ClaimAtom → (evidence_id : String) → List String
owners [] e = []
owners (a ∷ atoms) e =
    let rest = owners atoms e in if elem e a.evidence_ids then a.atom_id ∷ rest else rest

-- The loop body for one finding.
unfoldable pub of_finding : List ClaimAtom → Finding → Blocked
unfolding owners
of_finding atoms f =
    if is_semantic_summary f.finding_type
    then nothing
    else if not (is_localizable f.finding_type)
    then of_claim ("GLOBAL_" <> finding_text f.finding_type)
    else if is_nil f.evidence_ids || any (λ e. is_nil (owners atoms e)) f.evidence_ids
    then of_claim ("UNLOCALIZED_" <> finding_text f.finding_type)
    else record {
      atoms =
          map (λ id. (id, finding_text f.finding_type))
            (set_of (gather (owners atoms) f.evidence_ids));
      global = [];
    }

abbrev pub atom_ids : List ClaimAtom → List String
atom_ids atoms = map (λ a. a.atom_id) atoms

-- All that blocks a held claim.
unfoldable pub blocked_by :
    List ClaimAtom
    → List Finding
    → List AtomReport
    → Option Obligations
    → (global_blockers : List String) → Blocked
unfolding of_report of_obligations of_finding
blocked_by atoms findings reports obligations blockers =
    let ids = atom_ids atoms in
    record { atoms = []; global = unique blockers }
    and collect (of_report ids) reports
    and of_obligations ids obligations
    and collect (of_finding atoms) findings
