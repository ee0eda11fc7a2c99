-- ===== src/Dependencies/Manifests/Signed.antt =====
-- A manifest that the signer returns passes the verifier.
use illusiontion.Prelude.{
  String, ◌≡◌, refl, subst, true, not, Option, none, some, List, [], ◌∷◌, map, ok, arith, is_nil,
  append-eq-nil, sorted_set-nil, raise_if, validation_error, ◌>>◌,
}
use illusiontion.Json.{str, Fields, list_items}
use illusiontion.Host.{Host}
use illusiontion.Dependencies.Graph.{
  DependencyRole, origin, transform, calibration, model, instrument, execution, other,
  DependencyNode, graph_errors, measurement_policy,
}
use illusiontion.Dependencies.Graph.Acyclic.{IsSoundGraph, graph_errors-IsSoundGraph}
use illusiontion.Dependencies.Manifests.{
  Ed25519, ChallengeSpec, MeasurementAncestryManifest, manifest_payload, manifest_errors,
  verify_ancestry_manifest, is_valid_manifest, node_json, role_text, optional, zero_signature,
}
use illusiontion.Dependencies.Manifests.Signing.{
  texts_of, as_role, as_optional, parse_node, parse_nodes, parse_manifest, manifest_body,
  body_payload, sign_ancestry_manifest,
}

pub is_nil-eq : {A : Type 0} (xs : List A) → is_nil xs ≡ true → xs ≡ []
is_nil-eq [] e = refl
is_nil-eq (x ∷ xs) e = cc

texts_of-map : (texts : List String) → texts_of (list_items (map str texts)) ≡ ok texts
unfolding texts_of
texts_of-map [] = refl
texts_of-map (t ∷ texts) = rw (texts_of-map texts) refl

as_role-role_text : (r : DependencyRole) → as_role (role_text r) ≡ ok r
unfolding as_role
as_role-role_text origin = refl
as_role-role_text transform = refl
as_role-role_text calibration = refl
as_role-role_text model = refl
as_role-role_text instrument = refl
as_role-role_text execution = refl
as_role-role_text other = refl

parse_node-node_json : (n : DependencyNode) → parse_node (node_json n) ≡ ok n
unfolding parse_node
parse_node-node_json n = rw (as_role-role_text n.role, texts_of-map n.upstream_node_ids) refl

parse_nodes-map :
    (nodes : List DependencyNode) → parse_nodes (list_items (map node_json nodes)) ≡ ok nodes
unfolding parse_nodes
parse_nodes-map [] = refl
parse_nodes-map (n ∷ nodes) = rw (parse_node-node_json n, parse_nodes-map nodes) refl

as_optional-optional : (o : Option String) → as_optional (optional o) ≡ ok o
as_optional-optional none = refl
as_optional-optional (some text) = refl

module _ ⦃host : Host⦄ (ed : Ed25519) (spec : ChallengeSpec)
    (measurement_id authority_id private_key output : String) (nodes : List DependencyNode)
    (declared_at : Option String) where
  abbrev body : Fields
  body = manifest_body ed spec measurement_id authority_id private_key output nodes declared_at

  -- The manifest of the signer's arguments.
  abbrev manifest_of : String → MeasurementAncestryManifest
  manifest_of signature = record {
    challenge_id = spec.challenge_id;
    atom_id = spec.atom_id;
    measurement_id = measurement_id;
    measurement_artifact_sha256 = spec.measurement_artifact_sha256;
    measurement_authority_id = authority_id;
    measurement_authority_public_key = ed.public_hex private_key;
    output_node_id = output;
    nodes = nodes;
    declared_at = declared_at;
    authority_signature = signature;
  }

  parse_manifest-body :
      (signature : String)
      → parse_manifest body signature ≡ (
          raise_if (not (is_valid_manifest (manifest_of signature))) validation_error
          >> ok (manifest_of signature))
  unfolding parse_manifest manifest_body
  parse_manifest-body signature = rw (parse_nodes-map nodes, as_optional-optional declared_at) refl

  signed_of :
      {m : MeasurementAncestryManifest}
      → sign_ancestry_manifest ed spec measurement_id authority_id private_key output nodes
          declared_at
        ≡ ok m
      → (graph_errors measurement_policy output nodes ≡ [])
        × (manifest_of (ed.sign_hex private_key (body_payload body)) ≡ m)
  unfolding sign_ancestry_manifest
  signed_of e = ground (
    arith,
    parse_manifest-body zero_signature,
    parse_manifest-body (ed.sign_hex private_key (body_payload body)),
    is_nil-eq (graph_errors measurement_policy output nodes),
  )

  -- The dictionary that is signed is the dump of the manifest that is read out of it.
  payload-manifest_of :
      (signature : String) → manifest_payload (manifest_of signature) ≡ body_payload body
  unfolding manifest_payload body_payload manifest_body
  payload-manifest_of signature = refl

  -- A manifest that `sign_ancestry_manifest` returns has the payload of the dictionary that was
  -- signed, and is accepted by `verify_ancestry_manifest` with an empty report.
  pub sign_ancestry_manifest-verify :
      {m : MeasurementAncestryManifest}
      → sign_ancestry_manifest ed spec measurement_id authority_id private_key output nodes
          declared_at
        ≡ ok m
      → (manifest_payload m
          ≡ body_payload (
              manifest_body ed spec measurement_id authority_id private_key output nodes
                declared_at))
        × (verify_ancestry_manifest ed m ≡ (true, []))
  unfolding verify_ancestry_manifest
  sign_ancestry_manifest-verify {m} e =
      let signed = signed_of e in
      let signature = ed.sign_hex private_key (body_payload body) in
      subst
        (λ (x : MeasurementAncestryManifest).
          (manifest_payload x ≡ body_payload body) × (verify_ancestry_manifest ed x ≡ (true, [])))
        signed.1
        (
          payload-manifest_of signature,
          rw (
            signed.0,
            payload-manifest_of signature,
            ed.verifies-sign private_key (body_payload body),
            sorted_set-nil,
          ),
        )

module _ ⦃host : Host⦄ (ed : Ed25519) where
  -- An accepted manifest has a sound graph and a signature that verifies.
  pub verify_ancestry_manifest-IsSoundGraph :
      (m : MeasurementAncestryManifest)
      → (verify_ancestry_manifest ed m).0 ≡ true
      → IsSoundGraph m.nodes m.output_node_id measurement_policy
        × (ed.verifies m.measurement_authority_public_key m.authority_signature (manifest_payload m)
            ≡ true)
  unfolding verify_ancestry_manifest
  verify_ancestry_manifest-IsSoundGraph m e =
      let parts = append-eq-nil _ _ (is_nil-eq (manifest_errors ed m) e) in
      (
        graph_errors-IsSoundGraph m.nodes m.output_node_id measurement_policy parts.0,
        ground (arith, parts.1),
      )
