-- ===== src/Usefulness/Salvage.antt =====
-- What the blockers say: a claim without global blockers has localized findings only, and an atom
-- without blockers is touched by none of them.
use illusiontion.Prelude.{
  String, ◌≡◌, refl, sym, ◌∙◌, subst, true, false, ◌||◌, List, [], ◌∷◌, ◌++◌, map, same, elem, any,
  All, is_nil, Bool-cases, inl, inr, ◌⊎◌, arith, eq_iff, append-eq-nil,
}
use illusiontion.Prelude.Sets.{set_of, elem-set_of, elem-append}
use illusiontion.Prelude.Dicts.{gather}
use illusiontion.Usefulness.Blockers.{
  ClaimAtom, Finding, AtomReport, Blocked, collect, of_report, of_mismatch, of_finding, owners,
  is_semantic_summary, is_localizable,
}
use illusiontion.Usefulness.{reasons_of}
use illusiontion.Calibration.Findings.{finding_text}

reasons_of-append :
    (id : String) (xs ys : List (String × String))
    → reasons_of id (xs ++ ys) ≡ reasons_of id xs ++ reasons_of id ys
unfolding reasons_of
reasons_of-append id [] ys = refl
reasons_of-append id ((at, reason) ∷ xs) ys = ground (arith, reasons_of-append id xs ys)

-- Blockers that leave the claim and one atom free.
pub record Frees (id : String) (b : Blocked) : Type 0 where
  pub global : b.global ≡ []
  pub atom : reasons_of id b.atoms ≡ []

pub Frees-and :
    (id : String) (a b : Blocked)
    → Frees id (record { atoms = a.atoms ++ b.atoms; global = a.global ++ b.global })
    → Frees id a × Frees id b
Frees-and id a b h =
    let globals = append-eq-nil a.global b.global h.global in
    let atoms =
      append-eq-nil (reasons_of id a.atoms) (reasons_of id b.atoms)
        (sym (reasons_of-append id a.atoms b.atoms) ∙ h.atom) in
    (record { global = globals.0; atom = atoms.0 }, record { global = globals.1; atom = atoms.1 })

pub Frees-collect {ℓ} :
    {A : Type ℓ} (f : A → Blocked) (id : String) (xs : List A)
    → Frees id (collect f xs)
    → All (λ x. Frees id (f x)) xs
Frees-collect f id [] h = tt
Frees-collect f id (x ∷ xs) h =
    let (here, rest) = Frees-and id (f x) (collect f xs) h in (here, Frees-collect f id xs rest)

-- No finding's evidence is cited by the atom.
abbrev pub Untouched : List ClaimAtom → (atom_id : String) → List String → Type 0
Untouched atoms id evidence = All (λ e. elem id (owners atoms e) ≡ false) evidence

reasons_of-map :
    (id reason : String) (ids : List String)
    → reasons_of id (map (λ i. (i, reason)) ids) ≡ []
    → elem id ids ≡ false
unfolding reasons_of
reasons_of-map id reason [] h = refl
reasons_of-map id reason (i ∷ ids) h =
    ground (arith, reasons_of-map id reason ids, eq_iff i id, eq_iff id i)

gather-Untouched :
    (atoms : List ClaimAtom) (id : String) (evidence : List String)
    → elem id (gather (owners atoms) evidence) ≡ false
    → Untouched atoms id evidence
gather-Untouched atoms id [] h = tt
gather-Untouched atoms id (e ∷ es) h =
    let split = elem-append id (owners atoms e) (gather (owners atoms) es) in
    (ground (arith, split, h), gather-Untouched atoms id es (ground (arith, split, h)))

pub of_finding-Untouched :
    (atoms : List ClaimAtom) (id : String) (f : Finding)
    → Frees id (of_finding atoms f)
    → (is_semantic_summary f.finding_type ≡ true)
      ⊎ ((is_localizable f.finding_type ≡ true) × Untouched atoms id f.evidence_ids)
unfolding of_finding
of_finding-Untouched atoms id f h = elim (Bool-cases (is_semantic_summary f.finding_type)) [
  | inl summary ↦ inl summary
  | inr not_summary ↦ elim (Bool-cases (is_localizable f.finding_type)) [
    | inr global ↦ absurd (ground (arith, not_summary, global, h))
    | inl local ↦
        elim (Bool-cases
          (is_nil f.evidence_ids || any (λ e. is_nil (owners atoms e)) f.evidence_ids)) [
            | inl unlocalized ↦ absurd (ground (arith, not_summary, local, unlocalized, h))
            | inr cited ↦
                let touched : List String = gather (owners atoms) f.evidence_ids in
                let missed : elem id (set_of touched) ≡ false =
                  reasons_of-map id (finding_text f.finding_type) (set_of touched)
                    (ground (arith, not_summary, local, cited, h)) in
                inr (
                  local,
                  gather-Untouched atoms id f.evidence_ids (sym (elem-set_of id touched) ∙ missed),
                )
          ]
  ]
]

pub of_report-passes :
    (ids : List String) (id : String) (r : AtomReport)
    → Frees id (of_report ids r)
    → elem id ids ≡ true
    → r.atom_id ≡ id
    → r.held ≡ false
unfolding of_report reasons_of
of_report-passes ids id r h listed at =
    ground (arith, h, (eq_iff r.atom_id id).1 at, subst (λ x. elem x ids ≡ true) (sym at) listed)

pub of_mismatch-agrees :
    (ids : List String) (id other : String)
    → Frees id (of_mismatch ids other)
    → elem id ids ≡ true
    → same other id ≡ false
unfolding of_mismatch reasons_of
of_mismatch-agrees ids id other h listed = elim (Bool-cases (same other id)) [
  | inr differs ↦ differs
  | inl match ↦ absurd (
      ground
        (arith, h, match, subst (λ x. elem x ids ≡ true) (sym ((eq_iff other id).0 match)) listed))
]
