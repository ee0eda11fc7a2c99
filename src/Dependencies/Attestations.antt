-- ===== src/Dependencies/Attestations.antt =====
-- Registry attestations of app/distributed_execution.py: an independent registry reports which
-- dependencies of a measurement it observes.
pub mod Attested
use Prim.Native.String.{◌++◌ as append}
use illusiontion.Prelude.{
  ℕ, zero, suc, String, Bool, true, false, not, ◌&&◌, ◌||◌, Option, none, some, List, [], ◌∷◌, ◌++◌,
  map, ◌<>◌, ◌==◌, elem, any, all, filter, leb, ltb, length, is_nil, same, sorted_set, failures,
  if◌then◌else◌, Result, ok, err, ◌>>=◌, ◌>>◌, raise_if, value_error, validation_error,
}
use illusiontion.Prelude.Sets.{set_of, is_unique, difference}
use illusiontion.Prelude.Dicts.{gather}
use illusiontion.Json.{Json, str, dict, list}
use illusiontion.Host.{Host, canonical_json, sha256_object}
use illusiontion.Recovery.Records.Claims.{length_within, is_digest}
use illusiontion.Dependencies.Manifests.{
  Ed25519, ChallengeSpec, MeasurementAncestryManifest, fingerprints, ancestry_manifest_sha256,
  optional, optional_within, zero_signature,
}
use illusiontion.Dependencies.Receipts.{MeasurementReceipt}
use illusiontion.Dependencies.Ancestry.{
  AncestryPolicy, root_fingerprints, spec_ids, find_spec, find_manifest, verify_dependency_ancestry,
}

pub data AttestationResult : Type 0 where
  match missing_dependency unresolved : AttestationResult

abbrev pub is_match : AttestationResult → Bool
is_match r = elim r [ match ↦ true | _ ↦ false ]

abbrev pub result_text : AttestationResult → String
result_text match = "MATCH"
result_text missing_dependency = "MISSING_DEPENDENCY"
result_text unresolved = "UNRESOLVED"

-- `attestation.result.value.lower()`
abbrev pub result_lower : AttestationResult → String
result_lower match = "match"
result_lower missing_dependency = "missing_dependency"
result_lower unresolved = "unresolved"

pub record Attestation : Type 0 where
  pub challenge_id : String
  pub atom_id : String
  pub measurement_id : String
  pub measurement_artifact_sha256 : String
  pub ancestry_manifest_sha256 : String
  pub registry_authority_id : String
  pub registry_authority_public_key : String
  pub registry_source_group : String
  pub registry_ancestry_manifest_sha256 : Option String
  pub source_records : List String
  pub observed_fingerprints : List String
  pub observed_root_fingerprints : List String
  pub result : AttestationResult
  pub checked_at : Option String
  pub authority_signature : String

abbrev optional_digest : Option String → Bool
optional_digest none = true
optional_digest (some text) = is_digest text

-- Whether `bytes.fromhex(text)` has 32 bytes.
abbrev pub is_32_bytes : Ed25519 → String → Bool
is_32_bytes ed text = elim (ed.hex_length text) [ none ↦ false | some n ↦ n == 32 ]

-- The checks of an attestation when it is built, `validate_sets` with them.
unfoldable pub is_valid_attestation : Ed25519 → Attestation → Bool
is_valid_attestation ed a =
    length_within 1 256 a.challenge_id
    && length_within 1 256 a.atom_id
    && length_within 1 512 a.measurement_id
    && is_digest a.measurement_artifact_sha256
    && is_digest a.ancestry_manifest_sha256
    && length_within 1 512 a.registry_authority_id
    && is_digest a.registry_authority_public_key
    && length_within 1 512 a.registry_source_group
    && optional_digest a.registry_ancestry_manifest_sha256
    && leb 1 (length a.source_records)
    && leb (length a.source_records) 64
    && leb 1 (length a.observed_fingerprints)
    && leb (length a.observed_fingerprints) 256
    && leb 1 (length a.observed_root_fingerprints)
    && leb (length a.observed_root_fingerprints) 64
    && optional_within 128 a.checked_at
    && length_within 128 128 a.authority_signature
    && is_unique a.source_records
    && is_unique a.observed_fingerprints
    && is_unique a.observed_root_fingerprints
    && all (is_32_bytes ed) (a.observed_fingerprints ++ a.observed_root_fingerprints)
    && all (λ f. elem f a.observed_fingerprints) a.observed_root_fingerprints

abbrev attestation_fields : Attestation → List (String × Json)
attestation_fields a =
    ("challenge_id", str a.challenge_id)
    ∷ ("atom_id", str a.atom_id)
    ∷ ("measurement_id", str a.measurement_id)
    ∷ ("measurement_artifact_sha256", str a.measurement_artifact_sha256)
    ∷ ("ancestry_manifest_sha256", str a.ancestry_manifest_sha256)
    ∷ ("registry_authority_id", str a.registry_authority_id)
    ∷ ("registry_authority_public_key", str a.registry_authority_public_key)
    ∷ ("registry_source_group", str a.registry_source_group)
    ∷ ("registry_ancestry_manifest_sha256", optional a.registry_ancestry_manifest_sha256)
    ∷ ("source_records", list (map str a.source_records))
    ∷ ("observed_fingerprints", list (map str a.observed_fingerprints))
    ∷ ("observed_root_fingerprints", list (map str a.observed_root_fingerprints))
    ∷ ("result", str (result_text a.result))
    ∷ ("checked_at", optional a.checked_at)
    ∷ []

module _ ⦃host : Host⦄ where
  unfoldable pub attestation_payload : Attestation → String
  attestation_payload a = canonical_json (dict (attestation_fields a))

  unfoldable pub verify_registry_attestation : Ed25519 → Attestation → Bool
  verify_registry_attestation ed a =
      is_32_bytes ed a.registry_authority_public_key
      && ed.verifies a.registry_authority_public_key a.authority_signature (attestation_payload a)

  -- The `candidate` of the signer.
  unfoldable pub candidate_attestation :
      Ed25519
      → MeasurementAncestryManifest
      → ChallengeSpec
      → (authority_id source_group private_key : String)
      → (source_records observed roots : List String) → AttestationResult
      → (registry_ancestry checked_at : Option String) → Attestation
  candidate_attestation ed m spec authority_id group private_key records observed roots result
        registry_ancestry checked_at =
      record {
        challenge_id = spec.challenge_id;
        atom_id = spec.atom_id;
        measurement_id = m.measurement_id;
        measurement_artifact_sha256 = m.measurement_artifact_sha256;
        ancestry_manifest_sha256 = ancestry_manifest_sha256 m;
        registry_authority_id = authority_id;
        registry_authority_public_key = ed.public_hex private_key;
        registry_source_group = group;
        registry_ancestry_manifest_sha256 = registry_ancestry;
        source_records = records;
        observed_fingerprints = observed;
        observed_root_fingerprints = roots;
        result = result;
        checked_at = checked_at;
        authority_signature = zero_signature;
      }

  unfoldable pub signed_attestation : Ed25519 → (private_key : String) → Attestation → Attestation
  signed_attestation ed private_key candidate = record candidate {
    authority_signature = ed.sign_hex private_key (attestation_payload candidate);
  }

  unfoldable pub sign_registry_attestation :
      Ed25519
      → MeasurementAncestryManifest
      → ChallengeSpec
      → (authority_id source_group private_key : String)
      → (source_records observed roots : List String) → AttestationResult
      → (registry_ancestry checked_at : Option String) → Result Attestation
  sign_registry_attestation ed m spec authority_id group private_key records observed roots result
        registry_ancestry checked_at =
      do
        raise_if (not (same m.challenge_id spec.challenge_id && same m.atom_id spec.atom_id))
            (value_error "Registry attestation manifest/spec mismatch.")
        raise_if (not (same m.measurement_artifact_sha256 spec.measurement_artifact_sha256))
            (value_error "Registry attestation artifact/spec mismatch.")
        let candidate =
            candidate_attestation ed m spec authority_id group private_key records observed roots
              result registry_ancestry checked_at
        raise_if (not (is_valid_attestation ed candidate)) validation_error
        ok (signed_attestation ed private_key candidate)
