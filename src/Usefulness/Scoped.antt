-- ===== src/Usefulness/Scoped.antt =====
-- A scoped salvage promotes only atoms that no blocker touches, and holds all others.
use illusiontion.Prelude.{
  suc, ◌+◌, ◌≤◌, String, ◌≡◌, refl, sym, ap, ◌∙◌, subst, Bool, true, false, not, ◌&&◌, ◌||◌, Option,
  List, [], ◌∷◌, same, elem, filter, All, is_nil, length, Bool-cases, inl, inr, ◌⊎◌, arith, eq_iff,
  eq_refl,
}
use illusiontion.Prelude.Sets.{Subset, difference, elem-filter}
use illusiontion.Calibration.{hold, unique}
use illusiontion.Usefulness.Blockers.{
  AssuranceProfile, ClaimAtom, Assessment, Finding, AtomReport, Obligations, Blocked, ◌and◌,
  scoped_salvage, collect, of_report, of_obligations, of_finding, blocked_by, is_semantic_summary,
  is_localizable, is_salvage_profile, atom_ids,
}
use illusiontion.Usefulness.{
  reasons_of, blockers_of, hard_held, held_atoms, split_atoms, assess_held,
  assess_decision_usefulness,
}
use illusiontion.Usefulness.Salvage.{
  Frees, Frees-and, Frees-collect, Untouched, of_finding-Untouched, of_report-passes,
}
use illusiontion.Usefulness.Open.{
  mismatches, missing, failed, Elsewhere, All-map, of_obligations-clear,
}

unique-eq-nil : (xs : List String) → is_nil (unique xs) ≡ true → xs ≡ []
unfolding unique
unique-eq-nil [] h = refl
unique-eq-nil (x ∷ xs) h = cc

-- The part of a list that a filter keeps and the part that it drops make up the list.
length-difference :
    (q : String → Bool) (all_ids xs : List String)
    → Subset xs all_ids
    → length (difference xs (filter q all_ids)) + length (filter q xs) ≡ length xs
length-difference q all_ids [] sub = refl
length-difference q all_ids (x ∷ xs) sub =
    let listed : elem x all_ids ≡ true = sub x (ground (arith, eq_refl x)) in
    ground (
      arith,
      elem-filter q x all_ids,
      listed,
      length-difference q all_ids xs (λ y h. sub y (or_tail (same y x) (elem y xs) h)),
    )
  where
    or_tail : (a b : Bool) → b ≡ true → (a || b) ≡ true
    or_tail true b h = refl
    or_tail false b h = h

module _ (atoms : List ClaimAtom) (entries : List (String × String)) where
  split-scoped :
      (split_atoms atoms entries).status ≡ scoped_salvage
      → let held = held_atoms atoms entries in
        ((split_atoms atoms entries).promotable_atom_ids ≡ difference (atom_ids atoms) held)
        × ((split_atoms atoms entries).held_atom_ids ≡ held)
        × ((split_atoms atoms entries).preserved_atom_count
            ≡ length (difference (atom_ids atoms) held))
        × (is_nil (difference (atom_ids atoms) held) ≡ false)
        × (is_nil held ≡ false)
  unfolding split_atoms hard_held
  split-scoped h = ground arith

  split-total :
      (split_atoms atoms entries).status ≡ scoped_salvage
      → (split_atoms atoms entries).total_atom_count ≡ length atoms
  unfolding split_atoms hard_held
  split-total h = ground arith

  promotable-free :
      (id : String)
      → elem id (difference (atom_ids atoms) (held_atoms atoms entries)) ≡ true
      → (elem id (atom_ids atoms) ≡ true) × (reasons_of id entries ≡ [])
  unfolding held_atoms blockers_of
  promotable-free id h =
      let held = held_atoms atoms entries in
      let listed =
        and-parts (elem id (atom_ids atoms)) (not (elem id held))
          (sym (elem-filter (λ y. not (elem y held)) id (atom_ids atoms)) ∙ h) in
      let clean : is_nil (blockers_of id entries) ≡ true = ground (
        arith,
        listed,
        elem-filter (λ y. not (is_nil (blockers_of y entries))) id (atom_ids atoms),
      ) in
      (listed.0, unique-eq-nil (reasons_of id entries) clean)
    where
      and-parts : (a b : Bool) → (a && b) ≡ true → (a ≡ true) × (b ≡ true)
      and-parts true b e = (refl, e)
      and-parts false b e = cc

module _ (profile : AssuranceProfile) (atoms : List ClaimAtom) (findings : List Finding)
    (reports : List AtomReport) (obligations : Option Obligations) (blockers : List String) where
  -- What stands behind an atom that a scoped salvage promotes.
  pub record IsClear (id : String) : Type 0 where
    pub eligible : is_salvage_profile profile ≡ true
    pub listed : elem id (atom_ids atoms) ≡ true
    pub no_global : blockers ≡ []
    pub reports_pass : All (λ r. (same r.atom_id id && r.held) ≡ false) reports
    pub agreed : elem id (mismatches obligations) ≡ false
    pub no_missing : All (λ t. Elsewhere (atom_ids atoms) id t) (missing obligations)
    pub no_failed : All (λ t. Elsewhere (atom_ids atoms) id t) (failed obligations)
    pub untouched :
        All
          (λ f.
            (is_semantic_summary f.finding_type ≡ true)
            ⊎ ((is_localizable f.finding_type ≡ true) × Untouched atoms id f.evidence_ids))
          findings

  held_status :
      (b : Blocked)
      → (assess_held profile atoms b).status ≡ scoped_salvage
      → (b.global ≡ [])
        × (is_salvage_profile profile ≡ true)
        × (2 ≤ length atoms)
        × (assess_held profile atoms b ≡ split_atoms atoms b.atoms)
  unfolding assess_held hard_held
  held_status b h = elim (Bool-cases (is_nil (unique b.global))) [
    | inr some_blocker ↦ absurd (ground (arith, some_blocker, h))
    | inl no_blocker ↦ elim (Bool-cases (is_salvage_profile profile)) [
      | inr other ↦ absurd (ground (arith, no_blocker, other, h))
      | inl eligible ↦ (
        unique-eq-nil b.global no_blocker,
        eligible,
        ground (arith, no_blocker, eligible, h),
        ground (arith, no_blocker, eligible, h),
      )
    ]
  ]

  abbrev Splits : Assessment → Type 0
  Splits a =
      ((id : String)
        → (elem id (atom_ids atoms) ≡ (elem id a.promotable_atom_ids || elem id a.held_atom_ids))
          × ((elem id a.promotable_atom_ids && elem id a.held_atom_ids) ≡ false))
      × (is_nil a.promotable_atom_ids ≡ false)
      × (is_nil a.held_atom_ids ≡ false)
      × (a.preserved_atom_count ≡ length a.promotable_atom_ids)
      × (a.preserved_atom_count + length a.held_atom_ids ≡ a.total_atom_count)
      × (a.total_atom_count ≡ length atoms)

  length-atom_ids : (xs : List ClaimAtom) → length (atom_ids xs) ≡ length xs
  length-atom_ids [] = refl
  length-atom_ids (x ∷ xs) = ap suc (length-atom_ids xs)

  split-Splits :
      (entries : List (String × String))
      → (split_atoms atoms entries).status ≡ scoped_salvage
      → Splits (split_atoms atoms entries)
  unfolding held_atoms
  split-Splits entries scoped =
      let q : String → Bool = λ id. not (is_nil (blockers_of id entries)) in
      let ids = atom_ids atoms in
      let held = filter q ids in
      let (promoted, holds, count, some_promoted, some_held) = split-scoped atoms entries scoped in
      rw (promoted, holds, count, split-total atoms entries scoped)
        (
          λ id. (
            ground (arith, elem-filter q id ids, elem-filter (λ y. not (elem y held)) id ids),
            ground (arith, elem-filter q id ids, elem-filter (λ y. not (elem y held)) id ids),
          ),
          some_promoted,
          some_held,
          refl,
          length-difference q ids ids (λ y h. h) ∙ length-atom_ids atoms,
          refl,
        )

  blocked-IsClear :
      (id : String)
      → is_salvage_profile profile ≡ true
      → elem id (atom_ids atoms) ≡ true
      → Frees id (blocked_by atoms findings reports obligations blockers)
      → IsClear id
  unfolding blocked_by
  blocked-IsClear id eligible listed h =
      let ids = atom_ids atoms in
      let first : Blocked = record { atoms = []; global = unique blockers } in
      let of_reports = collect (of_report ids) reports in
      let opened = of_obligations ids obligations in
      let (three, found) =
        Frees-and id (first and of_reports and opened) (collect (of_finding atoms) findings) h in
      let (two, open_obligations) = Frees-and id (first and of_reports) opened three in
      let (globals, reported) = Frees-and id first of_reports two in
      let (agreed, no_missing, no_failed) =
        of_obligations-clear (atom_ids atoms) id obligations listed open_obligations in
      record {
        eligible = eligible;
        listed = listed;
        no_global = unique-eq-nil blockers (ap is_nil (globals.global));
        reports_pass =
            All-map (λ r free. report_passes r free) reports
              (Frees-collect (of_report (atom_ids atoms)) id reports reported);
        agreed = agreed;
        no_missing = no_missing;
        no_failed = no_failed;
        untouched =
            All-map (λ f free. of_finding-Untouched atoms id f free) findings
              (Frees-collect (of_finding atoms) id findings found);
      }
    where
      report_passes :
          (r : AtomReport)
          → Frees id (of_report (atom_ids atoms) r)
          → (same r.atom_id id && r.held) ≡ false
      report_passes r free =
          ground (arith, eq_iff r.atom_id id, of_report-passes (atom_ids atoms) id r free listed)

  abbrev pub assessed : Assessment
  assessed = assess_decision_usefulness profile atoms hold findings reports obligations blockers

  -- If the assessment of a held claim is a scoped salvage, every atom that it promotes is clear:
  -- the profile allows a salvage, there is no global blocker, no report holds the atom, its
  -- representations agree, every open obligation names another atom, and every finding is a
  -- semantic summary or a localizable one whose evidence the atom does not cite.
  pub assess_decision_usefulness-IsClear :
      (id : String)
      → assessed.status ≡ scoped_salvage
      → elem id assessed.promotable_atom_ids ≡ true
      → IsClear id
  unfolding assess_decision_usefulness
  assess_decision_usefulness-IsClear id scoped promoted =
      let b = blocked_by atoms findings reports obligations blockers in
      let (no_global, eligible, _, same_split) = held_status b scoped in
      let split =
        split-scoped atoms b.atoms (ap (λ (a : Assessment). a.status) (sym same_split) ∙ scoped) in
      let (listed, free) = promotable-free atoms b.atoms id (
        ap (elem id) (sym split.0)
        ∙ ap (λ (a : Assessment). elem id a.promotable_atom_ids) (sym same_split)
        ∙ promoted) in
      blocked-IsClear id eligible listed (record { global = no_global; atom = free })

  -- A scoped salvage splits the atoms: each is either promotable or held and never both, and both
  -- kinds occur. The count of preserved atoms is the number of promotable ids, with the number of
  -- held ids it makes up the total, and the total is the number of atoms.
  pub assess_decision_usefulness-splits :
      assessed.status ≡ scoped_salvage
      → ((id : String)
          → (elem id (atom_ids atoms)
              ≡ (elem id assessed.promotable_atom_ids || elem id assessed.held_atom_ids))
            × ((elem id assessed.promotable_atom_ids && elem id assessed.held_atom_ids) ≡ false))
        × (is_nil assessed.promotable_atom_ids ≡ false)
        × (is_nil assessed.held_atom_ids ≡ false)
        × (assessed.preserved_atom_count ≡ length assessed.promotable_atom_ids)
        × (assessed.preserved_atom_count + length assessed.held_atom_ids
            ≡ assessed.total_atom_count)
        × (assessed.total_atom_count ≡ length atoms)
  unfolding assess_decision_usefulness
  assess_decision_usefulness-splits scoped =
      let b = blocked_by atoms findings reports obligations blockers in
      let (no_global, eligible, _, same_split) = held_status b scoped in
      subst (λ (a : Assessment). Splits a) (sym same_split)
        (split-Splits b.atoms (ap (λ (a : Assessment). a.status) (sym same_split) ∙ scoped))
