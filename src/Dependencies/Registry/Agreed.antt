-- ===== src/Dependencies/Registry/Agreed.antt =====
-- What an accepted registry report says of every challenge: a quorum, and no dissent.
use illusiontion.Prelude.{
  String, ◌≡◌, ◌≤◌, true, some, List, [], ◌∷◌, map, elem, All, length, failures, failures-eq-nil,
  Bool-cases, inl, inr, and-eq-true, leb→le, arith, append-eq-nil, map-eq-nil,
}
use illusiontion.Prelude.Sets.{Subset, set_of, difference-eq-nil}
use illusiontion.Host.{Host}
use illusiontion.Dependencies.Manifests.{
  Ed25519, ChallengeSpec, MeasurementAncestryManifest, fingerprints,
}
use illusiontion.Dependencies.Manifests.Signed.{is_nil-eq}
use illusiontion.Dependencies.Receipts.{MeasurementReceipt}
use illusiontion.Dependencies.Ancestry.{
  root_fingerprints, spec_ids, find_spec, find_manifest, verify_dependency_ancestry,
}
use illusiontion.Dependencies.Ancestry.Groups.{gather-eq-nil}
use illusiontion.Dependencies.Ancestry.Disjoint.{verify_dependency_ancestry-no_errors}
use illusiontion.Dependencies.Attestations.{Attestation, match, is_match}
use illusiontion.Dependencies.Registry.{
  RegistryPolicy, is_valid_for, attestations_for, valid_attestations, attestation_errors,
  attestation_checks, attested_errors, disclosure_errors, quorum_checks, registry_errors,
  verify_dependency_registry,
}

module _ ⦃host : Host⦄ (ed : Ed25519) (policy : RegistryPolicy) (universe : List ChallengeSpec)
    (manifests : List MeasurementAncestryManifest) (attestations : List Attestation) where
  -- An attestation that raises no doubt: it is bound to the challenge, it matches, and all that it
  -- observes is declared.
  pub record Agrees (spec : ChallengeSpec) (m : MeasurementAncestryManifest) (a : Attestation)
      : Type 0 where
    pub valid : is_valid_for ed policy spec m a ≡ true
    pub result : a.result ≡ match
    pub declared : Subset a.observed_fingerprints (fingerprints m.nodes)
    pub roots_declared : Subset a.observed_root_fingerprints (root_fingerprints m.nodes)

  is_match-eq : (a : Attestation) → is_match a.result ≡ true → a.result ≡ match
  is_match-eq a e = ground arith

  attestation_errors-eq-nil :
      (id : String) (spec : ChallengeSpec) (m : MeasurementAncestryManifest) (a : Attestation)
      → attestation_errors ed policy universe manifests attestations id spec m a ≡ []
      → Agrees spec m a
  unfolding attestation_errors
  attestation_errors-eq-nil id spec m a e = elim (Bool-cases (is_valid_for ed policy spec m a)) [
    | inr invalid ↦ absurd (ground (arith, invalid, e))
    | inl valid ↦
        let passed : failures (attestation_checks ed policy universe manifests attestations id m a)
            ≡ [] =
          ground (arith, valid, e) in
        let checks =
          failures-eq-nil (attestation_checks ed policy universe manifests attestations id m a)
            passed in
        let undeclared = and-eq-true _ _ checks.0 in
        record {
          valid = valid;
          result = is_match-eq a checks.1.0;
          declared = difference-eq-nil _ _ (is_nil-eq _ undeclared.0);
          roots_declared = difference-eq-nil _ _ (is_nil-eq _ undeclared.1);
        }
  ]

  attested_errors-eq-nil :
      (id : String) (spec : ChallengeSpec) (m : MeasurementAncestryManifest)
      (as_list : List Attestation)
      → attested_errors ed policy universe manifests attestations id spec m as_list ≡ []
      → All (Agrees spec m) as_list
  unfolding attested_errors
  attested_errors-eq-nil id spec m [] e = tt
  attested_errors-eq-nil id spec m (a ∷ rest) e =
      let parts = append-eq-nil _ _ e in
      (attestation_errors-eq-nil id spec m a parts.0, attested_errors-eq-nil id spec m rest parts.1)

  -- The parts of an accepted report.
  accepted_registry :
      (receipts : List MeasurementReceipt) (selected : List ChallengeSpec) (required : List String)
      → (verify_dependency_registry ed policy universe manifests attestations receipts selected
          required).0
        ≡ true
      → ((verify_dependency_ancestry ed policy.ancestry universe receipts manifests selected
            required).0
          ≡ true)
        × ((id : String)
            → elem id (set_of (spec_ids universe)) ≡ true
            → disclosure_errors ed policy universe manifests attestations id ≡ [])
        × ((id : String)
            → elem id (set_of (spec_ids universe)) ≡ true
            → failures (quorum_checks ed policy universe manifests attestations id) ≡ [])
  unfolding verify_dependency_registry registry_errors
  accepted_registry receipts selected required accepted =
      let ids = set_of (spec_ids universe) in
      let ancestry = append-eq-nil _ _ (is_nil-eq _ accepted) in
      let duplicates = append-eq-nil _ _ ancestry.1 in
      let disclosure = append-eq-nil _ _ duplicates.1 in
      let quorum = append-eq-nil _ _ disclosure.1 in
      (
        verify_dependency_ancestry-no_errors ed policy.ancestry universe receipts manifests selected
            required (map-eq-nil _ _ ancestry.0),
        gather-eq-nil (disclosure_errors ed policy universe manifests attestations) ids
            disclosure.0,
        gather-eq-nil (λ id. failures (quorum_checks ed policy universe manifests attestations id))
            ids quorum.0,
      )

  -- If the registry report is accepted, then so is the ancestry report under it, and for every
  -- challenge of the universe with a manifest: at least a quorum of different registry authorities
  -- attest it validly, from enough source groups, and every attestation on the challenge is valid,
  -- matches, and observes only declared fingerprints. No quorum outvotes a dissenting registry.
  pub verify_dependency_registry-Agrees :
      (receipts : List MeasurementReceipt) (selected : List ChallengeSpec) (required : List String)
      → (verify_dependency_registry ed policy universe manifests attestations receipts selected
          required).0
        ≡ true
      → (id : String) {spec : ChallengeSpec} {m : MeasurementAncestryManifest}
      → elem id (set_of (spec_ids universe)) ≡ true
      → find_spec id universe ≡ some spec
      → find_manifest id manifests ≡ some m
      → ((verify_dependency_ancestry ed policy.ancestry universe receipts manifests selected
            required).0
          ≡ true)
        × (policy.registry_authority_quorum_per_challenge
            ≤ length (
                set_of (
                  map
                    (λ a. a.registry_authority_public_key)
                    (valid_attestations ed policy universe manifests attestations id))))
        × (policy.minimum_registry_source_groups_per_challenge
            ≤ length (
                set_of (
                  map
                    (λ a. a.registry_source_group)
                    (valid_attestations ed policy universe manifests attestations id))))
        × All (Agrees spec m) (attestations_for ed policy universe manifests attestations id)
  unfolding disclosure_errors
  verify_dependency_registry-Agrees receipts selected required accepted id {spec} {m} listed found
        declared =
      let (ancestry, disclosure, quorum) = accepted_registry receipts selected required accepted in
      let counts =
        failures-eq-nil (quorum_checks ed policy universe manifests attestations id)
          (quorum id listed) in
      let reported : attested_errors ed policy universe manifests attestations id spec m
            (attestations_for ed policy universe manifests attestations id)
          ≡ [] =
        ground (arith, disclosure id listed, found, declared) in
      (
        ancestry,
        leb→le _ _ counts.0,
        leb→le _ _ counts.1.0,
        attested_errors-eq-nil id spec m _ reported,
      )
