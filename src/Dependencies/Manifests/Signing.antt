-- ===== src/Dependencies/Manifests/Signing.antt =====
-- `sign_ancestry_manifest` of app/dependency_registry.py. The signer signs the dictionary that it
-- builds, and pydantic reads a manifest out of that dictionary.
use illusiontion.Prelude.{
  String, Bool, true, not, ◌&&◌, Option, none, some, List, [], ◌∷◌, map, Result, ok, err, ◌>>=◌,
  ◌>>◌, raise_if, value_error, validation_error, ◌<>◌, same, elem, is_nil, if◌then◌else◌,
}
use illusiontion.Prelude.Dicts.{join}
use illusiontion.Json.{
  Json, null, str, arr, obj, Items, nil, item, Fields, end, field, dict_fields, list,
}
use illusiontion.Host.{Host, canonical_json}
use illusiontion.Dependencies.Graph.{
  DependencyRole, origin, transform, calibration, model, instrument, execution, other,
  DependencyNode, graph_errors, measurement_policy,
}
use illusiontion.Dependencies.Manifests.{
  Ed25519, ChallengeSpec, MeasurementAncestryManifest, is_valid_manifest, node_json, optional,
  zero_signature,
}

-- `row[key]`, in a dictionary that pydantic reads: a missing field is a validation error.
abbrev pub get : String → Fields → Result Json
get key end = err validation_error
get key (field k value rest) = if same k key then ok value else get key rest

-- A field of type `str`.
abbrev pub as_text : Json → Result String
as_text (str text) = ok text
as_text _ = err validation_error

-- A field of type `str | None`.
abbrev pub as_optional : Json → Result (Option String)
as_optional null = ok none
as_optional (str text) = ok (some text)
as_optional _ = err validation_error

-- A field of type `list[str]`.
unfoldable pub texts_of : Items → Result (List String)
texts_of nil = ok []
texts_of (item value rest) = do text ← as_text value; texts ← texts_of rest; ok (text ∷ texts)

abbrev pub as_texts : Json → Result (List String)
as_texts (arr items) = texts_of items
as_texts _ = err validation_error

-- A member of `DependencyRole` by its value.
unfoldable pub as_role : String → Result DependencyRole
as_role text =
    if same text "ORIGIN"
    then ok origin
    else if same text "TRANSFORM"
    then ok transform
    else if same text "CALIBRATION"
    then ok calibration
    else if same text "MODEL"
    then ok model
    else if same text "INSTRUMENT"
    then ok instrument
    else if same text "EXECUTION"
    then ok execution
    else if same text "OTHER"
    then ok other
    else err validation_error

-- `extra="forbid"`
abbrev pub has_only : List String → Fields → Bool
has_only keys end = true
has_only keys (field k value rest) = elem k keys && has_only keys rest

-- `DependencyNode`, read out of a dictionary.
unfoldable pub parse_node : Json → Result DependencyNode
unfolding as_role texts_of
parse_node (obj row) = do
  raise_if
      (not (
        has_only
          ("node_id" ∷ "role" ∷ "fingerprint_sha256" ∷ "description" ∷ "upstream_node_ids" ∷ [])
          row))
      validation_error
  node_id ← get "node_id" row >>= as_text
  role ← get "role" row >>= as_text >>= as_role
  fingerprint ← get "fingerprint_sha256" row >>= as_text
  description ← get "description" row >>= as_text
  upstream ← get "upstream_node_ids" row >>= as_texts
  ok (record {
    node_id = node_id;
    role = role;
    fingerprint_sha256 = fingerprint;
    description = description;
    upstream_node_ids = upstream;
  })
parse_node _ = err validation_error

unfoldable pub parse_nodes : Items → Result (List DependencyNode)
unfolding parse_node
parse_nodes nil = ok []
parse_nodes (item value rest) = do
  node ← parse_node value
  nodes ← parse_nodes rest
  ok (node ∷ nodes)

abbrev pub as_nodes : Json → Result (List DependencyNode)
as_nodes (arr items) = parse_nodes items
as_nodes _ = err validation_error

abbrev pub body_keys : List String
body_keys =
    "challenge_id" ∷ "atom_id" ∷ "measurement_id" ∷ "measurement_artifact_sha256"
    ∷ "measurement_authority_id" ∷ "measurement_authority_public_key" ∷ "output_node_id" ∷ "nodes"
    ∷ "declared_at" ∷ []

-- `MeasurementAncestryManifest(**body, authority_signature=signature)`
unfoldable pub parse_manifest : Fields → (signature : String) → Result MeasurementAncestryManifest
unfolding parse_nodes
parse_manifest body signature = do
  raise_if (not (has_only body_keys body)) validation_error
  challenge_id ← get "challenge_id" body >>= as_text
  atom_id ← get "atom_id" body >>= as_text
  measurement_id ← get "measurement_id" body >>= as_text
  artifact ← get "measurement_artifact_sha256" body >>= as_text
  authority_id ← get "measurement_authority_id" body >>= as_text
  public_key ← get "measurement_authority_public_key" body >>= as_text
  output ← get "output_node_id" body >>= as_text
  nodes ← get "nodes" body >>= as_nodes
  declared_at ← get "declared_at" body >>= as_optional
  let manifest : MeasurementAncestryManifest = record {
    challenge_id = challenge_id;
    atom_id = atom_id;
    measurement_id = measurement_id;
    measurement_artifact_sha256 = artifact;
    measurement_authority_id = authority_id;
    measurement_authority_public_key = public_key;
    output_node_id = output;
    nodes = nodes;
    declared_at = declared_at;
    authority_signature = signature;
  }
  raise_if (not (is_valid_manifest manifest)) validation_error
  ok manifest

-- The `body` of the signer.
unfoldable pub manifest_body :
    Ed25519
    → ChallengeSpec
    → (measurement_id measurement_authority_id private_key output_node_id : String)
    → List DependencyNode
    → (declared_at : Option String) → Fields
manifest_body ed spec measurement_id authority_id private_key output nodes declared_at =
    dict_fields (
      ("challenge_id", str spec.challenge_id)
      ∷ ("atom_id", str spec.atom_id)
      ∷ ("measurement_id", str measurement_id)
      ∷ ("measurement_artifact_sha256", str spec.measurement_artifact_sha256)
      ∷ ("measurement_authority_id", str authority_id)
      ∷ ("measurement_authority_public_key", str (ed.public_hex private_key))
      ∷ ("output_node_id", str output)
      ∷ ("nodes", list (map node_json nodes))
      ∷ ("declared_at", optional declared_at)
      ∷ [])

module _ ⦃host : Host⦄ where
  -- `_payload(**body)`
  unfoldable pub body_payload : Fields → String
  body_payload body = canonical_json (obj body)

  unfoldable pub sign_ancestry_manifest :
      Ed25519
      → ChallengeSpec
      → (measurement_id measurement_authority_id private_key output_node_id : String)
      → List DependencyNode
      → (declared_at : Option String) → Result MeasurementAncestryManifest
  unfolding parse_manifest manifest_body body_payload
  sign_ancestry_manifest ed spec measurement_id authority_id private_key output nodes declared_at =
      do
        let body =
            manifest_body ed spec measurement_id authority_id private_key output nodes declared_at
        candidate ← parse_manifest body zero_signature
        let errors = graph_errors measurement_policy candidate.output_node_id candidate.nodes
        raise_if (not (is_nil errors)) (value_error ("Invalid ancestry graph: " <> join errors))
        parse_manifest body (ed.sign_hex private_key (body_payload body))
