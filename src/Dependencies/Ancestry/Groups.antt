-- ===== src/Dependencies/Ancestry/Groups.antt =====
-- The groups that declare a fingerprint, and how the reports on them are read.
use illusiontion.Prelude.{
  String, ◌≡◌, ◌≢◌, ◌⊎◌, ◌≤◌, refl, sym, subst, Bool, true, false, ◌||◌, List, [], ◌∷◌, ◌++◌, elem,
  filter, ltb, length, same, same-ne, Bool-cases, inl, inr, arith, eq_iff, eq_refl, append-eq-nil,
}
use illusiontion.Prelude.Sets.{
  set_of, is_unique-set_of, elem-set_of, elem-append, length-le_of_subset,
}
use illusiontion.Prelude.Dicts.{gather}
use illusiontion.Dependencies.Manifests.{fingerprints}
use illusiontion.Dependencies.Ancestry.{Bound, groups_with, atom_fingerprints}

-- Reading a report that collects one list for each name.
pub gather-eq-nil :
    {A : Type 0} (f : String → List A) (ids : List String)
    → gather f ids ≡ []
    → (id : String) → elem id ids ≡ true
    → f id ≡ []
gather-eq-nil f [] e id h = cc
gather-eq-nil f (x ∷ xs) e id h =
    let parts = append-eq-nil (f x) (gather f xs) e in
    elim (Bool-cases (same id x)) [
      | inl match ↦ subst (λ z. f z ≡ []) (sym ((eq_iff id x).0 match)) parts.0
      | inr differs ↦ gather-eq-nil f xs parts.1 id (ground (arith, differs, h))
    ]

pub filter-eq-nil :
    (p : String → Bool) (xs : List String)
    → filter p xs ≡ []
    → (x : String) → elem x xs ≡ true
    → p x ≡ false
filter-eq-nil p [] e x h = cc
filter-eq-nil p (y ∷ ys) e x h = elim (Bool-cases (p y)) [
  | inl keep ↦ absurd (ground (arith, keep, e))
  | inr drop ↦ elim (Bool-cases (same x y)) [
    | inl match ↦ subst (λ z. p z ≡ false) (sym ((eq_iff x y).0 match)) drop
    | inr differs ↦ filter-eq-nil p ys (ground (arith, drop, e)) x (ground (arith, differs, h))
  ]
]

-- Two different elements make a set of at least two.
pub two_elements :
    (xs : List String) (a b : String)
    → elem a xs ≡ true
    → elem b xs ≡ true
    → a ≢ b
    → ltb 1 (length (set_of xs)) ≡ true
two_elements xs a b ha hb differ =
    let pair : 2 ≤ length (set_of xs) =
      length-le_of_subset (a ∷ b ∷ []) (set_of xs) (rw (same-ne a b differ) refl)
        (is_unique-set_of xs) (λ y h. pick y (Bool-cases (same y a)) h) in
    ground (arith, pair)
  where
    pick :
        (y : String)
        → (same y a ≡ true) ⊎ (same y a ≡ false)
        → elem y (a ∷ b ∷ []) ≡ true
        → elem y (set_of xs) ≡ true
    pick y (inl match) h = rw (elem-set_of y xs, (eq_iff y a).0 match) ha
    pick y (inr differs) h = rw (elem-set_of y xs, (eq_iff y b).0 (ground (arith, differs, h))) hb

module _ (atom f : String) where
  groups_with-append :
      (xs ys : List Bound)
      → groups_with atom f (xs ++ ys) ≡ groups_with atom f xs ++ groups_with atom f ys
  unfolding groups_with
  groups_with-append [] ys = refl
  groups_with-append (b ∷ xs) ys = ground (arith, groups_with-append xs ys)

  atom_fingerprints-append :
      (xs ys : List Bound)
      → elem f (atom_fingerprints atom (xs ++ ys))
        ≡ (elem f (atom_fingerprints atom xs) || elem f (atom_fingerprints atom ys))
  unfolding atom_fingerprints
  atom_fingerprints-append [] ys = refl
  atom_fingerprints-append (b ∷ xs) ys = ground (
    arith,
    atom_fingerprints-append xs ys,
    elem-append f (fingerprints b.manifest.nodes) (atom_fingerprints atom (xs ++ ys)),
    elem-append f (fingerprints b.manifest.nodes) (atom_fingerprints atom xs),
  )

  -- What one of the gathered manifests declares is found among those of all.
  pub gathered :
      (g : String → List Bound) (b : Bound) (ids : List String) (id : String)
      → elem id ids ≡ true
      → g id ≡ b ∷ []
      → same b.spec.atom_id atom ≡ true
      → elem f (fingerprints b.manifest.nodes) ≡ true
      → (elem b.spec.dependency_group (groups_with atom f (gather g ids)) ≡ true)
        × (elem f (atom_fingerprints atom (gather g ids)) ≡ true)
  unfolding groups_with atom_fingerprints
  gathered g b [] id h e of_atom declared = cc
  gathered g b (x ∷ xs) id h e of_atom declared = elim (Bool-cases (same id x)) [
    | inl match ↦
        let here : g x ≡ b ∷ [] = subst (λ z. g z ≡ b ∷ []) ((eq_iff id x).0 match) e in
        let own = b.spec.dependency_group in
        rw (here, of_atom, declared, eq_refl own)
          (refl, rw (elem-append f (fingerprints b.manifest.nodes) _, declared) refl)
    | inr differs ↦
        let rest = gathered g b xs id (ground (arith, differs, h)) e of_atom declared in
        let own = b.spec.dependency_group in
        (
          ground (
            arith,
            rest,
            groups_with-append (g x) (gather g xs),
            elem-append own (groups_with atom f (g x)) (groups_with atom f (gather g xs)),
          ),
          ground (arith, rest, atom_fingerprints-append (g x) (gather g xs)),
        )
  ]
