-- ===== src/Dependencies/Registry.antt =====
-- `verify_dependency_registry` of app/distributed_execution.py, which holds the attestations of
-- registries against the declared ancestry.
pub mod Agreed
use Prim.Native.String.{◌++◌ as append}
use illusiontion.Prelude.{
  ℕ, zero, suc, String, Bool, true, false, not, ◌&&◌, ◌||◌, Option, none, some, List, [], ◌∷◌, ◌++◌,
  map, ◌<>◌, ◌==◌, elem, any, all, filter, leb, ltb, length, is_nil, same, sorted_set, failures,
  if◌then◌else◌, Result, ok, err, ◌>>=◌, ◌>>◌, raise_if, value_error, validation_error,
}
use illusiontion.Prelude.Sets.{set_of, is_unique, difference}
use illusiontion.Prelude.Dicts.{gather}
use illusiontion.Json.{Json, str, dict, list}
use illusiontion.Host.{Host, canonical_json, sha256_object}
use illusiontion.Recovery.Records.Claims.{length_within, is_digest}
use illusiontion.Dependencies.Manifests.{
  Ed25519, ChallengeSpec, MeasurementAncestryManifest, fingerprints, ancestry_manifest_sha256,
  optional, optional_within, zero_signature,
}
use illusiontion.Dependencies.Receipts.{MeasurementReceipt}
use illusiontion.Dependencies.Ancestry.{
  AncestryPolicy, root_fingerprints, spec_ids, find_spec, find_manifest, verify_dependency_ancestry,
}
use illusiontion.Dependencies.Attestations.{
  AttestationResult, match, is_match, result_lower, Attestation, verify_registry_attestation,
}

-- `WitnessRegistryPolicy`
pub record RegistryPolicy : Type 0 where
  pub ancestry : AncestryPolicy
  pub registry_authority_public_keys : List String
  pub registry_authority_quorum_per_challenge : ℕ
  pub minimum_registry_source_groups_per_challenge : ℕ
  pub require_registry_measurement_key_separation : Bool
  pub require_registry_witness_key_separation : Bool

-- `key[:16]`
unfoldable pub prefix : ℕ → String → String
prefix zero s = ""
prefix (suc n) String.[] = ""
prefix (suc n) (String.◌∷◌ c s) = String.◌∷◌ c (prefix n s)

-- The errors of the pairs of challenge and authority that occur twice.
unfoldable pub duplicate_errors : List Attestation → List String
unfolding prefix
duplicate_errors [] = []
duplicate_errors (a ∷ rest) =
    let more = duplicate_errors rest in
    if any
      (λ b.
        same b.challenge_id a.challenge_id
        && same b.registry_authority_public_key a.registry_authority_public_key)
      rest
    then ("duplicate-registry-attestation:"
        <> a.challenge_id
        <> ":"
        <> prefix 16 a.registry_authority_public_key)
      ∷ more
    else more

module _ ⦃host : Host⦄ (ed : Ed25519) (policy : RegistryPolicy) where
  unfoldable pub is_valid_for : ChallengeSpec → MeasurementAncestryManifest → Attestation → Bool
  unfolding verify_registry_attestation
  is_valid_for spec m a =
      verify_registry_attestation ed a
      && elem a.registry_authority_public_key policy.registry_authority_public_keys
      && same a.challenge_id spec.challenge_id
      && same a.atom_id spec.atom_id
      && same a.measurement_id m.measurement_id
      && same a.measurement_artifact_sha256 m.measurement_artifact_sha256
      && same a.ancestry_manifest_sha256 (ancestry_manifest_sha256 m)
      && not (
          policy.require_registry_measurement_key_separation
          && elem a.registry_authority_public_key
              policy.ancestry.provenance.measurement_authority_public_keys)
      && not (
          policy.require_registry_witness_key_separation
          && elem a.registry_authority_public_key policy.ancestry.provenance.verifier_public_keys)

  module _ (universe : List ChallengeSpec) (manifests : List MeasurementAncestryManifest)
      (attestations : List Attestation) where
    -- `by_challenge.get(challenge_id, [])`
    abbrev pub attestations_for : (challenge_id : String) → List Attestation
    attestations_for id = filter (λ a. same a.challenge_id id) attestations

    -- The attestations on a challenge that pass the first half of the loop body.
    unfoldable pub valid_attestations : (challenge_id : String) → List Attestation
    unfolding is_valid_for
    valid_attestations id = elim (find_spec id universe) [
      | none ↦ []
      | some spec ↦ elim (find_manifest id manifests) [
        | none ↦ []
        | some m ↦ filter (is_valid_for spec m) (attestations_for id)
      ]
    ]

    -- What a bound attestation is asked: that it observes nothing undeclared, and matches.
    abbrev pub attestation_checks :
        (challenge_id : String) → MeasurementAncestryManifest → Attestation → List (Bool × String)
    attestation_checks id m a =
        (
          is_nil (difference a.observed_fingerprints (fingerprints m.nodes))
              && is_nil (difference a.observed_root_fingerprints (root_fingerprints m.nodes)),
          "registry-ancestry-disclosure-mismatch:" <> id,
        )
        ∷ (
          is_match a.result,
          "registry-" <> result_lower a.result <> ":" <> id <> ":" <> a.registry_authority_id,
        )
        ∷ []

    -- The errors of one attestation on a challenge.
    unfoldable pub attestation_errors :
        (challenge_id : String)
        → ChallengeSpec
        → MeasurementAncestryManifest
        → Attestation
        → List String
    unfolding is_valid_for
    attestation_errors id spec m a =
        if not (is_valid_for spec m a)
        then ("invalid-registry-attestation:" <> id <> ":" <> a.registry_authority_id) ∷ []
        else failures (attestation_checks id m a)

    -- The errors of a list of attestations on a challenge.
    unfoldable pub attested_errors :
        (challenge_id : String)
        → ChallengeSpec
        → MeasurementAncestryManifest
        → List Attestation
        → List String
    unfolding attestation_errors
    attested_errors id spec m [] = []
    attested_errors id spec m (a ∷ rest) =
        attestation_errors id spec m a ++ attested_errors id spec m rest

    -- The loop over the attestations of one challenge.
    unfoldable pub disclosure_errors : (challenge_id : String) → List String
    unfolding attested_errors
    disclosure_errors id = elim (find_spec id universe) [
      | none ↦ []
      | some spec ↦ elim (find_manifest id manifests) [
        | none ↦ []
        | some m ↦ attested_errors id spec m (attestations_for id)
      ]
    ]

    abbrev pub quorum_checks : (challenge_id : String) → List (Bool × String)
    quorum_checks id =
        let valid = valid_attestations id in
        (
          leb policy.registry_authority_quorum_per_challenge
              (length (set_of (map (λ a. a.registry_authority_public_key) valid))),
          "registry-authority-quorum:" <> id,
        )
        ∷ (
          leb policy.minimum_registry_source_groups_per_challenge
              (length (set_of (map (λ a. a.registry_source_group) valid))),
          "registry-source-diversity:" <> id,
        )
        ∷ []

    -- The quorum loop has made an entry for every challenge of the universe when the code asks
    -- whether a selected challenge has one.
    abbrev pub selection_checks : List ChallengeSpec → List (Bool × String)
    selection_checks selected =
        (all (λ id. elem id (spec_ids universe)) (spec_ids selected), "selected-registry-coverage")
        ∷ []

    unfoldable pub registry_errors :
        List MeasurementReceipt
        → (selected : List ChallengeSpec) (required_atom_ids : List String) → List String
    unfolding duplicate_errors disclosure_errors valid_attestations
    registry_errors receipts selected required =
        let ids = set_of (spec_ids universe) in
        map (λ e. "ancestry:" <> e)
          (verify_dependency_ancestry ed policy.ancestry universe receipts manifests selected
            required).1
        ++ (duplicate_errors attestations
            ++ (gather disclosure_errors ids
                ++ (gather (λ id. failures (quorum_checks id)) ids
                    ++ failures (selection_checks selected))))

    unfoldable pub verify_dependency_registry :
        List MeasurementReceipt
        → (selected : List ChallengeSpec) (required_atom_ids : List String) → Bool × List String
    unfolding registry_errors
    verify_dependency_registry receipts selected required =
        let errors = registry_errors receipts selected required in
        (is_nil errors, sorted_set errors)
