-- ===== src/Usefulness/Open.antt =====
-- What the obligations of a claim leave open, and the atoms that they name.
use illusiontion.Prelude.{
  String, ◌≡◌, refl, true, false, Option, none, some, List, [], ◌∷◌, same, elem, All, inl, inr,
  arith, eq_iff, Option-cases,
}
use illusiontion.Usefulness.Blockers.{
  Obligations, of_mismatch, of_token, of_obligations, semantic_atom_from_token,
}
use illusiontion.Usefulness.{reasons_of}
use illusiontion.Usefulness.Salvage.{Frees, Frees-and, Frees-collect, of_mismatch-agrees}

abbrev pub mismatches : Option Obligations → List String
mismatches none = []
mismatches (some o) = o.representation_mismatch_atoms

abbrev pub missing : Option Obligations → List String
missing none = []
missing (some o) = o.missing_obligations

abbrev pub failed : Option Obligations → List String
failed none = []
failed (some o) = o.failed_obligations

-- The obligation's token names another atom.
abbrev pub Elsewhere : (atom_ids : List String) → (atom_id token : String) → Type 0
Elsewhere ids id token =
    (other : String) × (semantic_atom_from_token token ids ≡ some other) × (same other id ≡ false)

pub All-map {ℓ κ μ} :
    {A : Type ℓ} {P : A → Type κ} {Q : A → Type μ} (f : (x : A) → P x → Q x) (xs : List A)
    → All P xs
    → All Q xs
All-map f [] h = tt
All-map f (x ∷ xs) h = (f x h.0, All-map f xs h.1)

pub of_token-Elsewhere :
    (ids : List String) (id reason unlocalized token : String)
    → Frees id (of_token ids reason unlocalized token)
    → Elsewhere ids id token
unfolding of_token reasons_of
of_token-Elsewhere ids id reason unlocalized token h =
    elim (Option-cases (semantic_atom_from_token token ids)) [
      | inl nowhere ↦ absurd (ground (arith, nowhere, h))
      | inr (other, found) ↦ (other, found, ground (arith, found, h))
    ]

pub of_obligations-clear :
    (ids : List String) (id : String) (o : Option Obligations)
    → elem id ids ≡ true
    → Frees id (of_obligations ids o)
    → (elem id (mismatches o) ≡ false)
      × All (λ t. Elsewhere ids id t) (missing o)
      × All (λ t. Elsewhere ids id t) (failed o)
unfolding of_obligations
of_obligations-clear ids id none listed h = (refl, tt, tt)
of_obligations-clear ids id (some o) listed h =
    let (two, failing) = Frees-and id _ _ h in
    let (mismatched, lacking) = Frees-and id _ _ two in
    (
      none_matches o.representation_mismatch_atoms (
          All-map (λ other free. of_mismatch-agrees ids id other free listed) _
            (Frees-collect (of_mismatch ids) id o.representation_mismatch_atoms mismatched)),
      All-map (λ t free. of_token-Elsewhere ids id _ _ t free) _
          (Frees-collect _ id o.missing_obligations lacking),
      All-map (λ t free. of_token-Elsewhere ids id _ _ t free) _
          (Frees-collect _ id o.failed_obligations failing),
    )
  where
    none_matches : (xs : List String) → All (λ x. same x id ≡ false) xs → elem id xs ≡ false
    none_matches [] h = refl
    none_matches (x ∷ xs) h = ground (arith, h, none_matches xs h.1, eq_iff x id, eq_iff id x)
