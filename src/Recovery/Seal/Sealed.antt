-- ===== src/Recovery/Seal/Sealed.antt =====
-- The seal that a first publication writes passes the verifier but for what the epochs of the
-- sealed steps may give.
use illusiontion.Prelude.{
  ◌≤◌, String, ◌≡◌, refl, sym, ap, subst, ◌∙◌, true, false, some, List, [], ◌∷◌, length, is_nil,
  sorted_set, failures, failures-AllPass, Result-cases, inl, inr, arith, eq_iff, eq_refl, eq→same,
  ok,
}
use illusiontion.Host.{Host, RuntimeKey}
use illusiontion.Recovery.Records.Claims.{
  WorkerClaim, ExecutionSeal, Publication, zero_digest, seal_digest_payload, seal_payload,
  sign_seal,
}
use illusiontion.Recovery.Records.Actions.{Chain}
use illusiontion.Recovery.Records.Calls.{CallChain}
use illusiontion.Recovery.Database.{Database, DistributedRow, is_set, order_by}
use illusiontion.Recovery.Fencing.{assert_current_worker, check_claim, check_row}
use illusiontion.Recovery.Coordinator.{claims_of, unsigned_seal, publish, publication_time}
use illusiontion.Recovery.Seal.{
  Expected, epoch_errors, walk_claims, last_digest, seal_checks, verify_distributed_execution_seal,
}
use illusiontion.Recovery.Seal.Claimed.{IsClaimed, Stands}
use illusiontion.Recovery.Seal.Walked.{order_by-walked}

module _ ⦃host : Host⦄ (key : RuntimeKey) where
  -- What a first publication checked, and the seal that it signed.
  pub record Seals (claim : WorkerClaim) (p : Publication) (db : Database) (seal : ExecutionSeal)
      (row : DistributedRow) : Type 0 where
    pub time : String
    pub current : row.current_claim_sha256 ≡ claim.claim_sha256
    pub signed :
        seal
        ≡ sign_seal key (
            unsigned_seal key claim p time
              (order_by (λ c. c.epoch) (claims_of claim.attempt_id db.distributed_worker_claims)))

  check_row-current :
      (claim : WorkerClaim) (row : DistributedRow)
      → check_row key claim false row ≡ ok tt
      → row.current_claim_sha256 ≡ claim.claim_sha256
  unfolding check_row
  check_row-current claim row h = ground (arith, eq_iff row.current_claim_sha256 claim.claim_sha256)

  check_claim-current :
      (claim : WorkerClaim) (db : Database) {row : DistributedRow}
      → db.distributed_attempts claim.attempt_id ≡ some row
      → assert_current_worker key (some claim) true false db ≡ ok tt
      → row.current_claim_sha256 ≡ claim.claim_sha256
  unfolding assert_current_worker check_claim
  check_claim-current claim db {row} found h = check_row-current claim row (ground arith)

  pub publish-Seals :
      (claim : WorkerClaim) (p : Publication) (now : String) (db : Database) {seal : ExecutionSeal}
      {after : Database} {row : DistributedRow}
      → publish key claim p now db ≡ ok (seal, after)
      → db.distributed_attempts claim.attempt_id ≡ some row
      → is_set row.published_core_sha256 ≡ false
      → Seals claim p db seal row
  unfolding publish
  publish-Seals claim p now db {seal} {after} {row} h found unset =
      elim (Result-cases (assert_current_worker key (some claim) true false db)) [
        | inl (e, refused) ↦ absurd (ground arith)
        | inr (tt, accepted) ↦ elim (Result-cases (publication_time claim now row)) [
          | inl (e, refused) ↦ absurd (ground arith)
          | inr (timed, at) ↦ record {
            time = timed.0;
            current = check_claim-current claim db found accepted;
            signed = ground arith;
          }
        ]
      ]

  -- The expectations that a publication's digests give.
  abbrev pub expected_of : WorkerClaim → Publication → Chain → CallChain → Expected
  expected_of claim p atomic provider = record {
    attempt_id = claim.attempt_id;
    rerun_core_sha256 = p.rerun_core_sha256;
    atomic_chain = atomic;
    provider_chain = provider;
    atomic_finalization_seal_sha256 = p.atomic_finalization_seal_sha256;
    execution_trajectory_sha256 = p.execution_trajectory_sha256;
  }

  sign_seal-checks :
      (claim : WorkerClaim) (p : Publication) (time : String) (cs : List WorkerClaim)
      (atomic : Chain) (provider : CallChain)
      → atomic.chain_sha256 ≡ p.atomic_chain_sha256
      → provider.chain_sha256 ≡ p.provider_call_chain_sha256
      → let seal = sign_seal key (unsigned_seal key claim p time cs) in
        (failures (seal_checks key (expected_of claim p atomic provider) seal) ≡ [])
        × (seal.worker_claims ≡ cs)
        × (seal.final_worker_claim_sha256 ≡ claim.claim_sha256)
  unfolding sign_seal unsigned_seal seal_digest_payload seal_payload
  sign_seal-checks claim p time cs atomic provider ea ep =
      let seal = sign_seal key (unsigned_seal key claim p time cs) in
      (
        failures-AllPass (seal_checks key (expected_of claim p atomic provider) seal) (
          eq_refl _,
          (
            eq_refl _,
            (
              eq_refl _,
              (
                eq→same _ _ (sym ea),
                (eq→same _ _ (sym ep), (eq_refl _, (eq_refl _, (eq_refl _, (eq_refl _, tt))))),
              ),
            ),
          ),
        ),
        refl,
        refl,
      )

  nonempty : (cs : List WorkerClaim) → 1 ≤ length cs → is_nil cs ≡ false
  nonempty [] h = absurd (omega (arith, h))
  nonempty (c ∷ cs) h = refl

  -- The verifier on a seal over a chain of claims: what the epochs give is all that it reports.
  verify-claimed :
      (x : Expected) (seal : ExecutionSeal)
      → failures (seal_checks key x seal) ≡ []
      → walk_claims key x.attempt_id 1 zero_digest [] seal.worker_claims ≡ []
      → seal.final_worker_claim_sha256 ≡ last_digest key zero_digest seal.worker_claims
      → 1 ≤ length seal.worker_claims
      → verify_distributed_execution_seal key x seal
        ≡ sorted_set (epoch_errors seal x.atomic_chain x.provider_chain)
  unfolding verify_distributed_execution_seal
  verify-claimed x seal checked walked final some_claim =
      rw (nonempty seal.worker_claims some_claim, checked, walked, eq→same _ _ final) refl

  -- Where the claims on record form a chain, the seal of a first publication is one on which the
  -- verifier reports exactly what the epochs of the sealed steps give: the digests, the signature,
  -- the chain of claims and the final claim are in order. The chains are those whose digests were
  -- published.
  pub publish-verify :
      (claim : WorkerClaim) (p : Publication) (now : String) (db : Database) (atomic : Chain)
      (provider : CallChain) {seal : ExecutionSeal} {after : Database} {row : DistributedRow}
      → IsClaimed key db
      → publish key claim p now db ≡ ok (seal, after)
      → db.distributed_attempts claim.attempt_id ≡ some row
      → is_set row.published_core_sha256 ≡ false
      → atomic.chain_sha256 ≡ p.atomic_chain_sha256
      → provider.chain_sha256 ≡ p.provider_call_chain_sha256
      → verify_distributed_execution_seal key (expected_of claim p atomic provider) seal
        ≡ sorted_set (epoch_errors seal atomic provider)
  publish-verify claim p now db atomic provider {seal} {after} {row} claimed h found unset ea ep =
      let f = publish-Seals claim p now db h found unset in
      let cs = claims_of claim.attempt_id db.distributed_worker_claims in
      let walked = claimed.walked claim.attempt_id in
      let ordered = order_by-walked key claim.attempt_id 1 zero_digest [] cs walked in
      let standing = subst (λ r. Stands key r cs) found (claimed.stands claim.attempt_id) in
      let (checked, held, final) = sign_seal-checks claim p f.time cs atomic provider ea ep in
      rw (f.signed, ordered)
        (verify-claimed (expected_of claim p atomic provider)
          (sign_seal key (unsigned_seal key claim p f.time cs)) checked (rw held walked)
          (final ∙ sym f.current ∙ standing.1 ∙ ap (last_digest key zero_digest) (sym held))
          (rw held (standing.2)))
