-- ===== src/Tests/Graphs.antt =====
-- Tests of dependency graphs, and of the reports on ancestry and registries.
use illusiontion.Prelude.{◌≡◌, refl, true, none, some, List, [], ◌∷◌, ok, sorted_set}
use illusiontion.Dependencies.Graph.{
  DependencyNode, origin, instrument, Marks, graph_errors, walk, measurement_policy,
}
use illusiontion.Dependencies.Graph.Walk.{walk_returns}
use illusiontion.Dependencies.Graph.Acyclic.{IsSoundGraph, graph_errors-IsSoundGraph}
use illusiontion.Dependencies.Manifests.{
  Ed25519, ChallengeSpec, MeasurementAncestryManifest, is_valid_manifest, zero_signature,
  verify_ancestry_manifest, manifest_payload,
}
use illusiontion.Dependencies.Manifests.Signing.{
  sign_ancestry_manifest, parse_manifest, manifest_body, body_payload,
}
use illusiontion.Dependencies.Manifests.Signed.{sign_ancestry_manifest-verify}
use illusiontion.Tests.{digest_a, digest_b, host}

abbrev pub source_node : DependencyNode
source_node = record {
  node_id = "source";
  role = origin;
  fingerprint_sha256 = digest_a;
  description = "a dataset";
  upstream_node_ids = [];
}

abbrev pub probe_node : DependencyNode
probe_node = record {
  node_id = "probe";
  role = instrument;
  fingerprint_sha256 = digest_b;
  description = "an instrument";
  upstream_node_ids = "source" ∷ [];
}

abbrev pub graph : List DependencyNode
graph = probe_node ∷ source_node ∷ []

-- The source depends on the probe as well.
abbrev looped_graph : List DependencyNode
looped_graph = probe_node ∷ record source_node { upstream_node_ids = "probe" ∷ [] } ∷ []

pub no_errors : graph_errors measurement_policy "probe" graph ≡ []
unfolding graph_errors sorted_set
no_errors = refl

cycle_reported : graph_errors measurement_policy "probe" looped_graph ≡ "ancestry-cycle" ∷ []
unfolding graph_errors sorted_set
cycle_reported = refl

walk_returns_example : (m : Marks) × (walk looped_graph "probe" ≡ some m)
walk_returns_example = walk_returns looped_graph "probe" refl

graph_errors-IsSoundGraph_example : IsSoundGraph graph "probe" measurement_policy
graph_errors-IsSoundGraph_example =
    graph_errors-IsSoundGraph graph "probe" measurement_policy no_errors

-- One key, whose signatures all verify.
abbrev pub ed : Ed25519
ed = record {
  public_hex = λ k. digest_a;
  sign_hex = λ k m. zero_signature;
  verifies = λ k s m. true;
  hex_length = λ t. some 32;
  verifies-sign = λ k m. refl;
  hex_length-public = λ k. refl;
  public_length = λ k. refl;
  signature_length = λ k m. refl;
}

abbrev pub first_spec : ChallengeSpec
first_spec = record {
  challenge_id = "c1";
  atom_id = "a1";
  source = "https://one.example";
  source_group = "one";
  method = "reading";
  dependency_group = "g1";
  measurement_artifact_sha256 = digest_a;
  measurement_receipt_sha256 = "";
}

abbrev pub first_manifest : MeasurementAncestryManifest
first_manifest = record {
  challenge_id = "c1";
  atom_id = "a1";
  measurement_id = "m1";
  measurement_artifact_sha256 = digest_a;
  measurement_authority_id = "authority";
  measurement_authority_public_key = digest_a;
  output_node_id = "probe";
  nodes = graph;
  declared_at = none;
  authority_signature = zero_signature;
}

signed :
    sign_ancestry_manifest ed first_spec "m1" "authority" "k" "probe" graph none ≡ ok first_manifest
unfolding sign_ancestry_manifest parse_manifest manifest_body body_payload is_valid_manifest
    graph_errors sorted_set
signed = refl

sign_ancestry_manifest-verify_example :
    (manifest_payload first_manifest
      ≡ body_payload (manifest_body ed first_spec "m1" "authority" "k" "probe" graph none))
    × (verify_ancestry_manifest ed first_manifest ≡ (true, []))
sign_ancestry_manifest-verify_example =
    sign_ancestry_manifest-verify ed first_spec "m1" "authority" "k" "probe" graph none signed
