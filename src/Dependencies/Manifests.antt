-- ===== src/Dependencies/Manifests.antt =====
-- Signed manifests of a measurement's dependencies: `MeasurementAncestryManifest`,
-- its payload and `verify_ancestry_manifest` of app/dependency_registry.py.
-- Ed25519 is a parameter; its one law beside the lengths is that a signature verifies.
pub mod Signing
pub mod Signed
use illusiontion.Prelude.{
  ℕ, String, count, ◌≡◌, Bool, true, false, not, ◌&&◌, Option, none, some, List, [], ◌∷◌, ◌++◌, map,
  Result, ok, err, ◌>>=◌, ◌>>◌, raise_if, value_error, validation_error, ◌<>◌, elem, all, leb,
  length, is_nil, sorted_set, if◌then◌else◌,
}
use illusiontion.Prelude.Sets.{is_unique}
use illusiontion.Prelude.Dicts.{join}
use illusiontion.Json.{Json, str, null, dict, list}
use illusiontion.Host.{Host, canonical_json, sha256_object}
use illusiontion.Recovery.Records.Claims.{length_within, is_digest}
use illusiontion.Dependencies.Graph.{
  DependencyRole, origin, transform, calibration, model, instrument, execution, other,
  DependencyNode, GraphPolicy, node_ids, graph_errors, measurement_policy,
}

-- The keys and signatures of `cryptography`, in hexadecimal. A private key is a text here.
pub record Ed25519 : Type 0 where
  -- `private_key.public_key().public_bytes(Encoding.Raw, PublicFormat.Raw).hex()`
  pub public_hex : String → String
  -- `private_key.sign(message.encode("utf-8")).hex()`
  pub sign_hex : (private_key message : String) → String
  -- Whether `from_public_bytes(bytes.fromhex(key)).verify(bytes.fromhex(signature), message)` is
  -- without an exception.
  pub verifies : (public_key signature message : String) → Bool
  -- The length of `bytes.fromhex(text)`, and `none` where that raises.
  pub hex_length : String → Option ℕ
  pub verifies-sign :
      (private_key message : String)
      → verifies (public_hex private_key) (sign_hex private_key message) message ≡ true
  pub hex_length-public : (private_key : String) → hex_length (public_hex private_key) ≡ some 32
  pub public_length : (private_key : String) → count (public_hex private_key) ≡ 64
  pub signature_length : (private_key message : String) → count (sign_hex private_key message) ≡ 128

-- The challenge that a measurement answers. Its class is not in the repository: these are the
-- attributes that the code reads.
pub record ChallengeSpec : Type 0 where
  pub challenge_id : String
  pub atom_id : String
  pub source : String
  pub source_group : String
  pub method : String
  pub dependency_group : String
  pub measurement_artifact_sha256 : String
  pub measurement_receipt_sha256 : String

pub record MeasurementAncestryManifest : Type 0 where
  pub challenge_id : String
  pub atom_id : String
  pub measurement_id : String
  pub measurement_artifact_sha256 : String
  pub measurement_authority_id : String
  pub measurement_authority_public_key : String
  pub output_node_id : String
  pub nodes : List DependencyNode
  pub declared_at : Option String
  pub authority_signature : String

abbrev pub role_text : DependencyRole → String
role_text origin = "ORIGIN"
role_text transform = "TRANSFORM"
role_text calibration = "CALIBRATION"
role_text model = "MODEL"
role_text instrument = "INSTRUMENT"
role_text execution = "EXECUTION"
role_text other = "OTHER"

abbrev pub optional : Option String → Json
optional none = null
optional (some text) = str text

abbrev pub node_json : DependencyNode → Json
node_json n = dict (
    ("node_id", str n.node_id)
    ∷ ("role", str (role_text n.role))
    ∷ ("fingerprint_sha256", str n.fingerprint_sha256)
    ∷ ("description", str n.description)
    ∷ ("upstream_node_ids", list (map str n.upstream_node_ids))
    ∷ [])

-- The checks of a node when it is built, `unique_upstream_ids` with them.
unfoldable pub is_valid_node : DependencyNode → Bool
is_valid_node n =
    length_within 1 256 n.node_id
    && is_digest n.fingerprint_sha256
    && length_within 1 4096 n.description
    && leb (length n.upstream_node_ids) 64
    && is_unique n.upstream_node_ids
    && not (elem n.node_id n.upstream_node_ids)

abbrev pub fingerprints : List DependencyNode → List String
fingerprints nodes = map (λ n. n.fingerprint_sha256) nodes

-- `Field(default=None, max_length=128)`
abbrev pub optional_within : ℕ → Option String → Bool
optional_within high none = true
optional_within high (some text) = leb (count text) high

-- The checks of the nodes of a manifest, `unique_nodes` with them.
unfoldable pub are_valid_nodes : List DependencyNode → Bool
unfolding is_valid_node
are_valid_nodes nodes =
    all is_valid_node nodes
    && leb 2 (length nodes)
    && leb (length nodes) 256
    && is_unique (node_ids nodes)
    && is_unique (fingerprints nodes)

unfoldable pub is_valid_manifest : MeasurementAncestryManifest → Bool
unfolding are_valid_nodes
is_valid_manifest m =
    length_within 1 256 m.challenge_id
    && length_within 1 256 m.atom_id
    && length_within 1 512 m.measurement_id
    && is_digest m.measurement_artifact_sha256
    && length_within 1 512 m.measurement_authority_id
    && is_digest m.measurement_authority_public_key
    && length_within 1 256 m.output_node_id
    && are_valid_nodes m.nodes
    && optional_within 128 m.declared_at
    && length_within 128 128 m.authority_signature

abbrev manifest_fields : MeasurementAncestryManifest → List (String × Json)
manifest_fields m =
    ("challenge_id", str m.challenge_id)
    ∷ ("atom_id", str m.atom_id)
    ∷ ("measurement_id", str m.measurement_id)
    ∷ ("measurement_artifact_sha256", str m.measurement_artifact_sha256)
    ∷ ("measurement_authority_id", str m.measurement_authority_id)
    ∷ ("measurement_authority_public_key", str m.measurement_authority_public_key)
    ∷ ("output_node_id", str m.output_node_id)
    ∷ ("nodes", list (map node_json m.nodes))
    ∷ ("declared_at", optional m.declared_at)
    ∷ []

-- `"0" * 128`
abbrev pub zero_signature : String
zero_signature =
    "00000000000000000000000000000000000000000000000000000000000000000000000000000000000000000000000000000000000000000000000000000000"

module _ ⦃host : Host⦄ where
  -- The signed text of a manifest: all of it but the signature.
  unfoldable pub manifest_payload : MeasurementAncestryManifest → String
  manifest_payload m = canonical_json (dict (manifest_fields m))

  unfoldable pub ancestry_manifest_sha256 : MeasurementAncestryManifest → String
  ancestry_manifest_sha256 m =
      sha256_object (dict (("authority_signature", str m.authority_signature) ∷ manifest_fields m))

  -- What `verify_ancestry_manifest` collects; it sorts the list and reports whether it is empty.
  unfoldable pub manifest_errors : Ed25519 → MeasurementAncestryManifest → List String
  manifest_errors ed m =
      graph_errors measurement_policy m.output_node_id m.nodes
      ++ (if ed.verifies m.measurement_authority_public_key m.authority_signature
            (manifest_payload m)
          then []
          else "ancestry-signature" ∷ [])

  unfoldable pub verify_ancestry_manifest :
      Ed25519 → MeasurementAncestryManifest → Bool × List String
  unfolding manifest_errors
  verify_ancestry_manifest ed m =
      let errors = manifest_errors ed m in (is_nil errors, sorted_set errors)
