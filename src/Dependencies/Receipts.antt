-- ===== src/Dependencies/Receipts.antt =====
-- Provenance receipts of measurements: `WitnessMeasurementReceipt`, `sign_measurement_receipt` and
-- `verify_measurement_receipt` of app/model_adapter.py.
use illusiontion.Prelude.{
  String, Bool, not, ◌&&◌, Option, List, [], ◌∷◌, leb, count, Result, ok, ◌>>◌, raise_if,
  validation_error,
}
use illusiontion.Json.{Json, str, dict}
use illusiontion.Host.{Host, canonical_json, sha256_object}
use illusiontion.Recovery.Records.Claims.{length_within, is_digest}
use illusiontion.Dependencies.Manifests.{Ed25519, ChallengeSpec, optional, optional_within}

pub record MeasurementReceipt : Type 0 where
  pub challenge_id : String
  pub atom_id : String
  pub source : String
  pub source_group : String
  pub method : String
  pub dependency_group : String
  pub measurement_id : String
  pub measurement_artifact_sha256 : String
  pub measurement_authority_id : String
  pub measurement_authority_public_key : String
  pub measured_at : Option String
  pub ancestry_manifest_sha256 : String
  pub authority_signature : String

unfoldable pub is_valid_receipt : MeasurementReceipt → Bool
is_valid_receipt r =
    length_within 1 256 r.challenge_id
    && length_within 1 256 r.atom_id
    && length_within 1 4096 r.source
    && length_within 1 512 r.source_group
    && length_within 1 512 r.method
    && length_within 1 512 r.dependency_group
    && length_within 1 512 r.measurement_id
    && is_digest r.measurement_artifact_sha256
    && length_within 1 512 r.measurement_authority_id
    && is_digest r.measurement_authority_public_key
    && optional_within 128 r.measured_at
    && leb (count r.ancestry_manifest_sha256) 64
    && length_within 128 128 r.authority_signature

abbrev receipt_fields : MeasurementReceipt → List (String × Json)
receipt_fields r =
    ("challenge_id", str r.challenge_id)
    ∷ ("atom_id", str r.atom_id)
    ∷ ("source", str r.source)
    ∷ ("source_group", str r.source_group)
    ∷ ("method", str r.method)
    ∷ ("dependency_group", str r.dependency_group)
    ∷ ("measurement_id", str r.measurement_id)
    ∷ ("measurement_artifact_sha256", str r.measurement_artifact_sha256)
    ∷ ("measurement_authority_id", str r.measurement_authority_id)
    ∷ ("measurement_authority_public_key", str r.measurement_authority_public_key)
    ∷ ("measured_at", optional r.measured_at)
    ∷ ("ancestry_manifest_sha256", str r.ancestry_manifest_sha256)
    ∷ []

module _ ⦃host : Host⦄ where
  unfoldable pub receipt_payload : MeasurementReceipt → String
  receipt_payload r = canonical_json (dict (receipt_fields r))

  unfoldable pub measurement_receipt_sha256 : MeasurementReceipt → String
  measurement_receipt_sha256 r =
      sha256_object (dict (("authority_signature", str r.authority_signature) ∷ receipt_fields r))

  unfoldable pub verify_measurement_receipt : Ed25519 → MeasurementReceipt → Bool
  verify_measurement_receipt ed r =
      ed.verifies r.measurement_authority_public_key r.authority_signature (receipt_payload r)

  -- The receipt that `sign_measurement_receipt` builds, before its signature is set.
  unfoldable pub unsigned_receipt :
      Ed25519
      → ChallengeSpec
      → (dependency_group measurement_id artifact_sha256 authority_id private_key : String)
      → (measured_at : Option String) → (ancestry_manifest_sha256 : String) → MeasurementReceipt
  unsigned_receipt ed spec group measurement_id artifact_sha256 authority_id private_key at
        ancestry =
      record {
        challenge_id = spec.challenge_id;
        atom_id = spec.atom_id;
        source = spec.source;
        source_group = spec.source_group;
        method = spec.method;
        dependency_group = group;
        measurement_id = measurement_id;
        measurement_artifact_sha256 = artifact_sha256;
        measurement_authority_id = authority_id;
        measurement_authority_public_key = ed.public_hex private_key;
        measured_at = at;
        ancestry_manifest_sha256 = ancestry;
        authority_signature = "";
      }

  unfoldable pub sign_measurement_receipt :
      Ed25519
      → ChallengeSpec
      → (dependency_group measurement_id artifact_sha256 authority_id private_key : String)
      → (measured_at : Option String) → (ancestry_manifest_sha256 : String)
      → Result MeasurementReceipt
  unfolding unsigned_receipt
  sign_measurement_receipt ed spec group measurement_id artifact_sha256 authority_id private_key at
        ancestry =
      do
        let unsigned =
            unsigned_receipt ed spec group measurement_id artifact_sha256 authority_id private_key
              at ancestry
        let signed : MeasurementReceipt = record unsigned {
          authority_signature = ed.sign_hex private_key (receipt_payload unsigned);
        }
        raise_if (not (is_valid_receipt signed)) validation_error
        ok signed
