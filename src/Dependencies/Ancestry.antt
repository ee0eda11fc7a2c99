-- ===== src/Dependencies/Ancestry.antt =====
-- `verify_dependency_ancestry` of app/dependency_registry.py: signed ancestry of every measurement,
-- and no shared dependency between the groups of an atom.
pub mod Groups
pub mod Disjoint
use illusiontion.Prelude.{
  ℕ, String, Bool, true, false, not, ◌&&◌, Option, none, some, List, [], ◌∷◌, ◌++◌, map, ◌<>◌, elem,
  all, filter, leb, ltb, ◌==◌, length, is_nil, same, sorted_set, failures, if◌then◌else◌,
}
use illusiontion.Prelude.Sets.{set_of}
use illusiontion.Prelude.Dicts.{find_by, same_set, gather}
use illusiontion.Host.{Host}
use illusiontion.Dependencies.Graph.{DependencyNode}
use illusiontion.Dependencies.Manifests.{
  Ed25519, ChallengeSpec, MeasurementAncestryManifest, fingerprints, verify_ancestry_manifest,
  ancestry_manifest_sha256,
}
use illusiontion.Dependencies.Receipts.{MeasurementReceipt, verify_measurement_receipt}

-- `WitnessProvenancePolicy` of app/model_adapter.py and the parts of the quorum policy in it that
-- the code reads.
pub record ProvenancePolicy : Type 0 where
  pub verifier_public_keys : List String
  pub measurement_authority_public_keys : List String
  pub minimum_universe_dependency_groups_per_atom : ℕ
  pub minimum_universe_measurement_authorities_per_atom : ℕ
  pub minimum_selected_dependency_groups_per_atom : ℕ
  pub minimum_selected_measurement_authorities_per_atom : ℕ
  pub require_measurement_witness_key_separation : Bool

-- `WitnessAncestryPolicy`
pub record AncestryPolicy : Type 0 where
  pub provenance : ProvenancePolicy
  pub require_cross_group_fingerprint_disjointness : Bool
  pub minimum_declared_nodes_per_manifest : ℕ
  pub minimum_root_nodes_per_manifest : ℕ

-- `_root_fingerprints`
unfoldable pub root_fingerprints : List DependencyNode → List String
root_fingerprints nodes =
    set_of (map (λ n. n.fingerprint_sha256) (filter (λ n. is_nil n.upstream_node_ids) nodes))

-- A challenge whose manifest is bound to it.
pub record Bound : Type 0 where
  pub spec : ChallengeSpec
  pub manifest : MeasurementAncestryManifest

-- The challenge ids, and what is found under them.
abbrev pub spec_ids : List ChallengeSpec → List String
spec_ids specs = map (λ s. s.challenge_id) specs

abbrev pub find_spec : String → List ChallengeSpec → Option ChallengeSpec
find_spec id specs = find_by (λ s. s.challenge_id) id specs

abbrev pub find_manifest :
    String → List MeasurementAncestryManifest → Option MeasurementAncestryManifest
find_manifest id manifests = find_by (λ m. m.challenge_id) id manifests

abbrev pub find_receipt : String → List MeasurementReceipt → Option MeasurementReceipt
find_receipt id receipts = find_by (λ r. r.challenge_id) id receipts

-- `{item for item in groups if fingerprint in item}` of an atom: the groups that declare it.
unfoldable pub groups_with : (atom_id fingerprint : String) → List Bound → List String
groups_with atom fingerprint [] = []
groups_with atom fingerprint (b ∷ bs) =
    let rest = groups_with atom fingerprint bs in
    if same b.spec.atom_id atom && elem fingerprint (fingerprints b.manifest.nodes)
    then b.spec.dependency_group ∷ rest
    else rest

unfoldable pub atom_fingerprints : (atom_id : String) → List Bound → List String
atom_fingerprints atom [] = []
atom_fingerprints atom (b ∷ bs) =
    let rest = atom_fingerprints atom bs in
    if same b.spec.atom_id atom then fingerprints b.manifest.nodes ++ rest else rest

-- The fingerprints that several groups of an atom share.
unfoldable pub overlaps : (atom_id : String) → List Bound → List String
unfolding groups_with atom_fingerprints
overlaps atom bound =
    filter (λ f. ltb 1 (length (set_of (groups_with atom f bound)))) (atom_fingerprints atom bound)

unfoldable pub overlap_errors : List Bound → (atom_id : String) → List String
unfolding overlaps
overlap_errors bound atom =
    if is_nil (overlaps atom bound) then [] else ("ancestry-cross-group-overlap:" <> atom) ∷ []

module _ ⦃host : Host⦄ (ed : Ed25519) (policy : AncestryPolicy) where
  unfoldable pub is_bound : ChallengeSpec → MeasurementAncestryManifest → MeasurementReceipt → Bool
  unfolding root_fingerprints
  is_bound spec m receipt =
      (verify_ancestry_manifest ed m).0
      && verify_measurement_receipt ed receipt
      && same m.challenge_id spec.challenge_id
      && same m.atom_id spec.atom_id
      && same m.measurement_id receipt.measurement_id
      && same m.measurement_artifact_sha256 spec.measurement_artifact_sha256
      && same m.measurement_artifact_sha256 receipt.measurement_artifact_sha256
      && same m.measurement_authority_public_key receipt.measurement_authority_public_key
      && elem m.measurement_authority_public_key policy.provenance.measurement_authority_public_keys
      && same receipt.ancestry_manifest_sha256 (ancestry_manifest_sha256 m)
      && leb policy.minimum_declared_nodes_per_manifest (length m.nodes)
      && leb policy.minimum_root_nodes_per_manifest (length (root_fingerprints m.nodes))

  module _ (universe : List ChallengeSpec) (receipts : List MeasurementReceipt)
      (manifests : List MeasurementAncestryManifest) where
    -- The loop body for one challenge: its errors.
    unfoldable pub challenge_errors : (challenge_id : String) → List String
    unfolding is_bound
    challenge_errors id = elim (find_spec id universe) [
      | none ↦ []
      | some spec ↦ elim (find_manifest id manifests) [
        | none ↦ []
        | some m ↦ elim (find_receipt id receipts) [
          | none ↦ []
          | some receipt ↦
              map (λ e. e <> ":" <> id) (verify_ancestry_manifest ed m).1
              ++ (if is_bound spec m receipt then [] else ("ancestry-binding:" <> id) ∷ [])
        ]
      ]
    ]

    -- The loop body for one challenge: the manifest that it binds.
    unfoldable pub challenge_bound : (challenge_id : String) → List Bound
    unfolding is_bound
    challenge_bound id = elim (find_spec id universe) [
      | none ↦ []
      | some spec ↦ elim (find_manifest id manifests) [
        | none ↦ []
        | some m ↦ elim (find_receipt id receipts) [
          | none ↦ []
          | some receipt ↦
              if is_bound spec m receipt then record { spec = spec; manifest = m } ∷ [] else []
        ]
      ]
    ]

    abbrev pub challenge_ids : List String
    challenge_ids = set_of (spec_ids universe)

    unfoldable pub bound_manifests : List Bound
    unfolding challenge_bound
    bound_manifests = gather challenge_bound challenge_ids

    abbrev pub coverage_checks : List ChallengeSpec → List (Bool × String)
    coverage_checks selected =
        (
          all (λ id. elem id (map (λ b. b.spec.challenge_id) bound_manifests)) (spec_ids selected),
          "selected-ancestry-coverage",
        )
        ∷ []

    abbrev pub manifest_checks : List (Bool × String)
    manifest_checks =
        let ids = map (λ m. m.challenge_id) manifests in
        (length (set_of ids) == length manifests, "duplicate-ancestry-manifest")
        ∷ (same_set ids (spec_ids universe), "ancestry-manifest-coverage")
        ∷ []

    -- The errors that the function collects.
    unfoldable pub ancestry_errors : List ChallengeSpec → (required : List String) → List String
    unfolding challenge_errors bound_manifests overlap_errors
    ancestry_errors selected required =
        failures manifest_checks
        ++ (gather challenge_errors challenge_ids
            ++ ((if policy.require_cross_group_fingerprint_disjointness
                  then gather (overlap_errors bound_manifests) required
                  else [])
                ++ failures (coverage_checks selected)))

    unfoldable pub verify_dependency_ancestry :
        (selected : List ChallengeSpec) (required_atom_ids : List String) → Bool × List String
    unfolding ancestry_errors
    verify_dependency_ancestry selected required =
        let errors = ancestry_errors selected required in (is_nil errors, sorted_set errors)
