-- ===== src/Tests/Registries.antt =====
-- Tests of the ancestry and registry reports: two challenges of one atom, in two groups.
use illusiontion.Prelude.{
  String, ◌≡◌, ◌≢◌, ◌≤◌, refl, true, false, none, List, [], ◌∷◌, map, elem, length, ok, All,
  sorted_set, same, eq_iff,
}
use illusiontion.Prelude.Sets.{set_of}
use illusiontion.Host.{sha256_object}
use illusiontion.Dependencies.Graph.{DependencyNode, graph_errors, measurement_policy}
use illusiontion.Dependencies.Graph.Acyclic.{IsSoundGraph}
use illusiontion.Dependencies.Manifests.{
  ChallengeSpec, MeasurementAncestryManifest, fingerprints, manifest_payload, zero_signature,
  verify_ancestry_manifest, ancestry_manifest_sha256,
}
use illusiontion.Dependencies.Receipts.{MeasurementReceipt, verify_measurement_receipt}
use illusiontion.Dependencies.Ancestry.{
  AncestryPolicy, verify_dependency_ancestry, root_fingerprints,
}
use illusiontion.Dependencies.Ancestry.Disjoint.{
  Entry, verify_dependency_ancestry-disjoint, verify_dependency_ancestry-IsSoundGraph,
}
use illusiontion.Dependencies.Attestations.{
  Attestation, match, is_valid_attestation, candidate_attestation, signed_attestation,
  sign_registry_attestation, verify_registry_attestation,
}
use illusiontion.Dependencies.Attestations.Attested.{sign_registry_attestation-verify}
use illusiontion.Dependencies.Registry.{
  RegistryPolicy, attestations_for, valid_attestations, verify_dependency_registry,
}
use illusiontion.Dependencies.Registry.Agreed.{Agrees, verify_dependency_registry-Agrees}
use illusiontion.Tests.{digest_a, digest_b, host}
use illusiontion.Tests.Graphs.{ed, graph, source_node, probe_node, first_spec, first_manifest}

abbrev second_spec : ChallengeSpec
second_spec = record first_spec { challenge_id = "c2"; dependency_group = "g2" }

abbrev second_graph : List DependencyNode
second_graph =
    record probe_node { fingerprint_sha256 = "f3" }
    ∷ record source_node { fingerprint_sha256 = "f4" }
    ∷ []

abbrev second_manifest : MeasurementAncestryManifest
second_manifest = record first_manifest { challenge_id = "c2"; nodes = second_graph }

abbrev first_receipt : MeasurementReceipt
first_receipt = record {
  challenge_id = "c1";
  atom_id = "a1";
  source = "https://one.example";
  source_group = "one";
  method = "reading";
  dependency_group = "g1";
  measurement_id = "m1";
  measurement_artifact_sha256 = digest_a;
  measurement_authority_id = "authority";
  measurement_authority_public_key = digest_a;
  measured_at = none;
  ancestry_manifest_sha256 = digest_a;
  authority_signature = zero_signature;
}

abbrev policy : AncestryPolicy
policy = record {
  provenance = record {
    verifier_public_keys = [];
    measurement_authority_public_keys = digest_a ∷ [];
    minimum_universe_dependency_groups_per_atom = 2;
    minimum_universe_measurement_authorities_per_atom = 1;
    minimum_selected_dependency_groups_per_atom = 1;
    minimum_selected_measurement_authorities_per_atom = 1;
    require_measurement_witness_key_separation = true;
  };
  require_cross_group_fingerprint_disjointness = true;
  minimum_declared_nodes_per_manifest = 2;
  minimum_root_nodes_per_manifest = 1;
}

abbrev universe : List ChallengeSpec
universe = first_spec ∷ second_spec ∷ []

abbrev receipts : List MeasurementReceipt
receipts =
    first_receipt ∷ record first_receipt { challenge_id = "c2"; dependency_group = "g2" } ∷ []

abbrev manifests : List MeasurementAncestryManifest
manifests = first_manifest ∷ second_manifest ∷ []

accepted :
    (verify_dependency_ancestry ed policy universe receipts manifests universe ("a1" ∷ [])).0 ≡ true
unfolding verify_dependency_ancestry verify_ancestry_manifest verify_measurement_receipt
    ancestry_manifest_sha256 graph_errors sha256_object sorted_set
accepted = refl

abbrev first_entry : Entry ed policy universe receipts manifests "c1"
first_entry = record {
  spec = first_spec;
  manifest = first_manifest;
  receipt = first_receipt;
  listed = refl;
  spec_found = refl;
  manifest_found = refl;
  receipt_found = refl;
}

abbrev second_entry : Entry ed policy universe receipts manifests "c2"
second_entry = record {
  spec = second_spec;
  manifest = second_manifest;
  receipt = record first_receipt { challenge_id = "c2"; dependency_group = "g2" };
  listed = refl;
  spec_found = refl;
  manifest_found = refl;
  receipt_found = refl;
}

apart : ¬ (same "g1" "g2" ≡ true)
apart = λ e. cc

different : ◌≢◌ {A = String} "g1" "g2"
different = λ e. apart ((eq_iff "g1" "g2").1 e)

verify_dependency_ancestry-IsSoundGraph_example :
    IsSoundGraph graph "probe" measurement_policy
    × (ed.verifies digest_a zero_signature (manifest_payload first_manifest) ≡ true)
    × (elem digest_a (digest_a ∷ []) ≡ true)
verify_dependency_ancestry-IsSoundGraph_example =
    verify_dependency_ancestry-IsSoundGraph ed policy universe receipts manifests universe
      ("a1" ∷ []) accepted first_entry

verify_dependency_ancestry-disjoint_example : elem digest_a (fingerprints second_graph) ≡ false
verify_dependency_ancestry-disjoint_example =
    verify_dependency_ancestry-disjoint ed policy universe receipts manifests universe ("a1" ∷ [])
      accepted refl first_entry second_entry refl refl different digest_a refl

abbrev attested : String → String → ChallengeSpec → MeasurementAncestryManifest → Attestation
attested key group spec m = record {
  challenge_id = spec.challenge_id;
  atom_id = spec.atom_id;
  measurement_id = m.measurement_id;
  measurement_artifact_sha256 = m.measurement_artifact_sha256;
  ancestry_manifest_sha256 = digest_a;
  registry_authority_id = "registry";
  registry_authority_public_key = key;
  registry_source_group = group;
  registry_ancestry_manifest_sha256 = none;
  source_records = "record" ∷ [];
  observed_fingerprints = fingerprints m.nodes;
  observed_root_fingerprints = root_fingerprints m.nodes;
  result = match;
  checked_at = none;
  authority_signature = zero_signature;
}

abbrev attestations : List Attestation
attestations =
    attested digest_a "s1" first_spec first_manifest
    ∷ attested digest_b "s2" first_spec first_manifest
    ∷ attested digest_a "s1" second_spec second_manifest
    ∷ attested digest_b "s2" second_spec second_manifest
    ∷ []

abbrev two_registries : RegistryPolicy
two_registries = record {
  ancestry = policy;
  registry_authority_public_keys = digest_a ∷ digest_b ∷ [];
  registry_authority_quorum_per_challenge = 2;
  minimum_registry_source_groups_per_challenge = 2;
  require_registry_measurement_key_separation = false;
  require_registry_witness_key_separation = true;
}

registry_accepted :
    (verify_dependency_registry ed two_registries universe manifests attestations receipts universe
      ("a1" ∷ [])).0
    ≡ true
unfolding verify_dependency_registry verify_dependency_ancestry verify_ancestry_manifest
    verify_measurement_receipt ancestry_manifest_sha256 graph_errors sha256_object sorted_set
    verify_registry_attestation root_fingerprints
registry_accepted = refl

verify_dependency_registry-Agrees_example :
    ((verify_dependency_ancestry ed policy universe receipts manifests universe ("a1" ∷ [])).0
      ≡ true)
    × (2
        ≤ length (
            set_of (
              map
                (λ (a : Attestation). a.registry_authority_public_key)
                (valid_attestations ed two_registries universe manifests attestations "c1"))))
    × (2
        ≤ length (
            set_of (
              map
                (λ (a : Attestation). a.registry_source_group)
                (valid_attestations ed two_registries universe manifests attestations "c1"))))
    × All
        (Agrees ed two_registries universe manifests attestations first_spec first_manifest)
        (attestations_for ed two_registries universe manifests attestations "c1")
verify_dependency_registry-Agrees_example =
    verify_dependency_registry-Agrees ed two_registries universe manifests attestations receipts
      universe ("a1" ∷ []) registry_accepted "c1" {spec = first_spec} {m = first_manifest} refl refl
      refl

abbrev attestation : Attestation
attestation = attested digest_a "s1" first_spec first_manifest

attested_runs :
    sign_registry_attestation ed first_manifest first_spec "registry" "s1" "k"
      ("record" ∷ [])
      (fingerprints graph)
      (root_fingerprints graph)
      match
      none
      none
    ≡ ok attestation
unfolding sign_registry_attestation candidate_attestation signed_attestation is_valid_attestation
    ancestry_manifest_sha256 sha256_object root_fingerprints
attested_runs = refl

sign_registry_attestation-verify_example : verify_registry_attestation ed attestation ≡ true
sign_registry_attestation-verify_example =
    sign_registry_attestation-verify ed first_manifest first_spec "registry" "s1" "k"
      ("record" ∷ []) (fingerprints graph) (root_fingerprints graph) match none none attested_runs
