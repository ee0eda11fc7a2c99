-- ===== src/Dependencies/Attestations/Attested.antt =====
-- An attestation that the signer returns verifies.
use illusiontion.Prelude.{String, ◌≡◌, refl, sym, subst, true, Option, some, List, ok, arith}
use illusiontion.Host.{Host}
use illusiontion.Dependencies.Manifests.{Ed25519, ChallengeSpec, MeasurementAncestryManifest}
use illusiontion.Dependencies.Attestations.{
  AttestationResult, Attestation, attestation_payload, candidate_attestation, signed_attestation,
  sign_registry_attestation, verify_registry_attestation,
}

module _ ⦃host : Host⦄ (ed : Ed25519) where
  signed_attestation-verify :
      (private_key : String) (candidate : Attestation)
      → candidate.registry_authority_public_key ≡ ed.public_hex private_key
      → verify_registry_attestation ed (signed_attestation ed private_key candidate) ≡ true
  unfolding verify_registry_attestation signed_attestation attestation_payload
  signed_attestation-verify private_key candidate own =
      let payload = attestation_payload candidate in
      let verified : ed.verifies candidate.registry_authority_public_key
            (ed.sign_hex private_key payload) payload
          ≡ true =
        subst (λ k. ed.verifies k (ed.sign_hex private_key payload) payload ≡ true) (sym own)
          (ed.verifies-sign private_key payload) in
      let raw : ed.hex_length candidate.registry_authority_public_key ≡ some 32 =
        subst (λ k. ed.hex_length k ≡ some 32) (sym own) (ed.hex_length-public private_key) in
      ground (arith, verified, raw)

  -- An attestation that `sign_registry_attestation` returns is accepted by
  -- `verify_registry_attestation`.
  pub sign_registry_attestation-verify :
      (m : MeasurementAncestryManifest) (spec : ChallengeSpec)
      (authority_id group private_key : String) (records observed roots : List String)
      (result : AttestationResult) (registry_ancestry checked_at : Option String) {a : Attestation}
      → sign_registry_attestation ed m spec authority_id group private_key records observed roots
          result registry_ancestry checked_at
        ≡ ok a
      → verify_registry_attestation ed a ≡ true
  unfolding sign_registry_attestation
  sign_registry_attestation-verify m spec authority_id group private_key records observed roots
        result registry_ancestry checked_at e =
      let candidate =
        candidate_attestation ed m spec authority_id group private_key records observed roots result
          registry_ancestry checked_at in
      subst (λ x. verify_registry_attestation ed x ≡ true) (ground arith)
        (signed_attestation-verify private_key candidate (
          own m spec authority_id group private_key records observed roots result registry_ancestry
            checked_at))
    where
      own :
          (m : MeasurementAncestryManifest) (spec : ChallengeSpec)
          (authority_id group private_key : String) (records observed roots : List String)
          (result : AttestationResult) (registry_ancestry checked_at : Option String)
          → (candidate_attestation ed m spec authority_id group private_key records observed roots
              result registry_ancestry checked_at).registry_authority_public_key
            ≡ ed.public_hex private_key
      own m spec authority_id group private_key records observed roots result registry_ancestry
            checked_at =
          unfold candidate_attestation in refl
