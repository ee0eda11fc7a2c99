-- ===== src/Dependencies/Ancestry/Disjoint.antt =====
-- Accepted ancestry is disjoint across the dependency groups of an atom.
use illusiontion.Prelude.{
  String, ◌≡◌, ◌≢◌, sym, ap, true, false, some, List, [], ◌∷◌, ◌++◌, map, ◌<>◌, ◌∙◌, elem, ltb,
  length, is_nil, sorted_set-eq-nil, if◌then◌else◌, Bool-cases, inl, inr, arith, eq_refl, eq→same,
  append-eq-nil,
}
use illusiontion.Prelude.Sets.{set_of}
use illusiontion.Prelude.Dicts.{gather}
use illusiontion.Host.{Host}
use illusiontion.Dependencies.Graph.{measurement_policy}
use illusiontion.Dependencies.Graph.Acyclic.{IsSoundGraph}
use illusiontion.Dependencies.Manifests.{
  Ed25519, ChallengeSpec, MeasurementAncestryManifest, fingerprints, manifest_payload,
  verify_ancestry_manifest,
}
use illusiontion.Dependencies.Manifests.Signed.{is_nil-eq, verify_ancestry_manifest-IsSoundGraph}
use illusiontion.Dependencies.Receipts.{MeasurementReceipt}
use illusiontion.Dependencies.Ancestry.{
  AncestryPolicy, Bound, find_spec, find_manifest, find_receipt, groups_with, atom_fingerprints,
  overlaps, overlap_errors, is_bound, challenge_errors, challenge_bound, challenge_ids,
  bound_manifests, ancestry_errors, verify_dependency_ancestry,
}
use illusiontion.Dependencies.Ancestry.Groups.{gather-eq-nil, filter-eq-nil, two_elements, gathered}

module _ ⦃host : Host⦄ (ed : Ed25519) (policy : AncestryPolicy) (universe : List ChallengeSpec)
    (receipts : List MeasurementReceipt) (manifests : List MeasurementAncestryManifest) where
  -- A challenge of the universe with its manifest and its receipt.
  pub record Entry (id : String) : Type 0 where
    pub spec : ChallengeSpec
    pub manifest : MeasurementAncestryManifest
    pub receipt : MeasurementReceipt
    pub listed : elem id (challenge_ids ed policy universe receipts manifests) ≡ true
    pub spec_found : find_spec id universe ≡ some spec
    pub manifest_found : find_manifest id manifests ≡ some manifest
    pub receipt_found : find_receipt id receipts ≡ some receipt

  is_bound-parts :
      (spec : ChallengeSpec) (m : MeasurementAncestryManifest) (receipt : MeasurementReceipt)
      → is_bound ed policy spec m receipt ≡ true
      → ((verify_ancestry_manifest ed m).0 ≡ true)
        × (elem m.measurement_authority_public_key
              policy.provenance.measurement_authority_public_keys
            ≡ true)
  unfolding is_bound
  is_bound-parts spec m receipt e = ground arith

  entry-is_bound :
      (id : String) (e : Entry id)
      → challenge_errors ed policy universe receipts manifests id ≡ []
      → is_bound ed policy e.spec e.manifest e.receipt ≡ true
  unfolding challenge_errors
  entry-is_bound id e none_reported =
      elim (Bool-cases (is_bound ed policy e.spec e.manifest e.receipt)) [
        | inl bound ↦ bound
        | inr loose ↦
            let reported : challenge_errors ed policy universe receipts manifests id
                ≡ map (λ m. m <> ":" <> id) (verify_ancestry_manifest ed e.manifest).1
                  ++ ("ancestry-binding:" <> id) ∷ [] =
              ground (arith, e.spec_found, e.manifest_found, e.receipt_found, loose) in
            absurd (nonempty _ _ (sym reported ∙ none_reported))
      ]
    where
      nonempty : (xs : List String) (x : String) → xs ++ x ∷ [] ≢ []
      nonempty xs x h = cc ((append-eq-nil xs (x ∷ []) h).1)

  entry-challenge_bound :
      (id : String) (e : Entry id)
      → is_bound ed policy e.spec e.manifest e.receipt ≡ true
      → challenge_bound ed policy universe receipts manifests id
        ≡ record { spec = e.spec; manifest = e.manifest } ∷ []
  unfolding challenge_bound
  entry-challenge_bound id e bound =
      ground (arith, e.spec_found, e.manifest_found, e.receipt_found, bound)

  no_overlap_unique :
      (bound : List Bound) (atom f : String)
      → overlap_errors bound atom ≡ []
      → elem f (atom_fingerprints atom bound) ≡ true
      → ltb 1 (length (set_of (groups_with atom f bound))) ≡ false
  unfolding overlap_errors overlaps
  no_overlap_unique bound atom f none_reported declared =
      filter-eq-nil (λ g. ltb 1 (length (set_of (groups_with atom g bound))))
        (atom_fingerprints atom bound)
        (is_nil-eq (overlaps atom bound) (ground (arith, none_reported))) f declared

  -- A report is empty only if it accepts.
  pub verify_dependency_ancestry-no_errors :
      (selected : List ChallengeSpec) (required : List String)
      → (verify_dependency_ancestry ed policy universe receipts manifests selected required).1 ≡ []
      → (verify_dependency_ancestry ed policy universe receipts manifests selected required).0
        ≡ true
  unfolding verify_dependency_ancestry
  verify_dependency_ancestry-no_errors selected required e = ap is_nil (
      sorted_set-eq-nil (ancestry_errors ed policy universe receipts manifests selected required) e)

  accepted_report :
      (selected : List ChallengeSpec) (required : List String)
      → (verify_dependency_ancestry ed policy universe receipts manifests selected required).0
        ≡ true
      → ((id : String)
          → elem id (challenge_ids ed policy universe receipts manifests) ≡ true
          → challenge_errors ed policy universe receipts manifests id ≡ [])
        × (policy.require_cross_group_fingerprint_disjointness ≡ true
            → (atom : String) → elem atom required ≡ true
            → overlap_errors (bound_manifests ed policy universe receipts manifests) atom ≡ [])
  unfolding verify_dependency_ancestry ancestry_errors
  accepted_report selected required accepted =
      let ids = challenge_ids ed policy universe receipts manifests in
      let bound = bound_manifests ed policy universe receipts manifests in
      let errors = ancestry_errors ed policy universe receipts manifests selected required in
      let later = append-eq-nil _ _ (is_nil-eq errors accepted) in
      let parts = append-eq-nil _ _ later.1 in
      let last = append-eq-nil _ _ parts.1 in
      let overlap_free : (if policy.require_cross_group_fingerprint_disjointness
            then gather (overlap_errors bound) required
            else [])
          ≡ [] =
        last.0 in
      (
        gather-eq-nil (challenge_errors ed policy universe receipts manifests) ids parts.0,
        λ disjoint atom needed.
            gather-eq-nil (overlap_errors bound) required (rw disjoint at overlap_free) atom needed,
      )

  -- If the ancestry report is accepted, every challenge of the universe that has a manifest and a
  -- receipt has a manifest with a sound graph, signed by an authority that the policy commits to.
  pub verify_dependency_ancestry-IsSoundGraph :
      (selected : List ChallengeSpec) (required : List String)
      → (verify_dependency_ancestry ed policy universe receipts manifests selected required).0
        ≡ true
      → {id : String} (s : Entry id)
      → IsSoundGraph s.manifest.nodes s.manifest.output_node_id measurement_policy
        × (ed.verifies s.manifest.measurement_authority_public_key s.manifest.authority_signature
              (manifest_payload s.manifest)
            ≡ true)
        × (elem s.manifest.measurement_authority_public_key
              policy.provenance.measurement_authority_public_keys
            ≡ true)
  verify_dependency_ancestry-IsSoundGraph selected required accepted {id} s =
      let (by_challenge, by_atom) = accepted_report selected required accepted in
      let bound =
        is_bound-parts s.spec s.manifest s.receipt
          (entry-is_bound id s (by_challenge id s.listed)) in
      let signed = verify_ancestry_manifest-IsSoundGraph ed s.manifest bound.0 in
      (signed.0, signed.1, bound.1)

  -- If the ancestry report is accepted under a policy that asks for disjointness, two challenges
  -- of one required atom that have manifests and receipts and stand in different dependency groups
  -- have no fingerprint in common.
  pub verify_dependency_ancestry-disjoint :
      (selected : List ChallengeSpec) (required : List String)
      → (verify_dependency_ancestry ed policy universe receipts manifests selected required).0
        ≡ true
      → policy.require_cross_group_fingerprint_disjointness ≡ true
      → {i j : String} (s : Entry i) (t : Entry j) → elem s.spec.atom_id required ≡ true
      → s.spec.atom_id ≡ t.spec.atom_id
      → s.spec.dependency_group ≢ t.spec.dependency_group
      → (f : String) → elem f (fingerprints s.manifest.nodes) ≡ true
      → elem f (fingerprints t.manifest.nodes) ≡ false
  unfolding verify_dependency_ancestry bound_manifests
  verify_dependency_ancestry-disjoint selected required accepted disjoint {i} {j} s t needed of_atom
        differ f declared =
      let bound = bound_manifests ed policy universe receipts manifests in
      let atom = s.spec.atom_id in
      let (by_challenge, by_atom) = accepted_report selected required accepted in
      elim (Bool-cases (elem f (fingerprints t.manifest.nodes))) [
        | inr absent ↦ absent
        | inl shared ↦
            let s_bound = entry-is_bound i s (by_challenge i s.listed) in
            let t_bound = entry-is_bound j t (by_challenge j t.listed) in
            let in_s =
              gathered atom f (challenge_bound ed policy universe receipts manifests)
                (record { spec = s.spec; manifest = s.manifest })
                (challenge_ids ed policy universe receipts manifests) i s.listed
                (entry-challenge_bound i s s_bound) (eq_refl atom) declared in
            let in_t =
              gathered atom f (challenge_bound ed policy universe receipts manifests)
                (record { spec = t.spec; manifest = t.manifest })
                (challenge_ids ed policy universe receipts manifests) j t.listed
                (entry-challenge_bound j t t_bound) (eq→same _ _ (sym of_atom)) shared in
            let several = two_elements (groups_with atom f bound) _ _ in_s.0 in_t.0 differ in
            let unique = no_overlap_unique bound atom f (by_atom disjoint atom needed) in_s.1 in
            absurd (ground (arith, several, unique))
      ]
