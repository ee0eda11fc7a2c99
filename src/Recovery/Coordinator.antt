-- ===== src/Recovery/Coordinator.antt =====
-- `DistributedRecoveryCoordinator` of app/evidence_admission.py: worker claims, the reservation of
-- the publication time, and the single assignment of the published core.
pub mod Claiming
pub mod Current
pub mod Publishing
pub mod Unchanged
use illusiontion.Prelude.{
  ℕ, ◌+◌, String, Bool, true, false, not, ◌&&◌, ◌||◌, Option, none, some, List, [], ◌∷◌, ◌++◌,
  Error, value_error, integrity_error, validation_error, type_error, is_blank, Result, ok, err,
  ◌>>=◌, ◌>>◌, raise_if, require, same, ◌==◌, any, if◌then◌else◌,
}
use illusiontion.Host.{Host, RuntimeKey, sha256_object}
use illusiontion.Recovery.Records.Claims.{
  WorkerClaim, ExecutionSeal, Publication, zero_digest, is_valid_claim, is_valid_seal, sign_claim,
  sign_seal,
}
use illusiontion.Recovery.Database.{
  Database, DistributedRow, Transaction, put, is_set, is_text, order_by,
}
use illusiontion.Recovery.Fencing.{assert_current_worker, distributed_execution_policy_sha256}

-- The rows of one attempt: `WHERE attempt_id=?`.
unfoldable pub claims_of : String → List WorkerClaim → List WorkerClaim
claims_of a [] = []
claims_of a (c ∷ cs) = let rest = claims_of a cs in if same c.attempt_id a then c ∷ rest else rest

-- `INSERT INTO distributed_worker_claims`, under its primary key and its unique digest.
unfoldable pub insert_claim : WorkerClaim → List WorkerClaim → Option (List WorkerClaim)
insert_claim c cs =
    if any
      (λ d.
        (same d.attempt_id c.attempt_id && d.epoch == c.epoch)
        || same d.claim_sha256 c.claim_sha256)
      cs
    then none
    else some (cs ++ c ∷ [])

-- The epoch and the prior claim of the next claim on an attempt.
unfoldable pub next_claim : Bool → Option DistributedRow → Result (ℕ × String)
next_claim takeover none = do
  raise_if takeover (value_error "distributed-worker-takeover-without-existing-claim")
  ok (1, zero_digest)
next_claim takeover (some row) = do
  raise_if (is_set row.published_core_sha256) (value_error "distributed-attempt-already-published")
  raise_if (not takeover)
      (value_error "distributed-attempt-already-owned-requires-explicit-takeover")
  ok (row.current_epoch + 1, row.current_claim_sha256)

-- The row that `INSERT` or `UPDATE` leaves for a new claim: an unused reservation is cleared.
unfoldable pub claimed_row : WorkerClaim → Option DistributedRow → DistributedRow
claimed_row claim none = record {
  current_epoch = claim.epoch;
  current_claim_sha256 = claim.claim_sha256;
  reserved_publication_at = none;
  reserved_publication_claim_sha256 = none;
  published_core_sha256 = none;
  publication = none;
  created_at = claim.claimed_at;
}
claimed_row claim (some row) = record row {
  current_epoch = claim.epoch;
  current_claim_sha256 = claim.claim_sha256;
  reserved_publication_at = none;
  reserved_publication_claim_sha256 = none;
}

abbrev reserved : WorkerClaim → String → DistributedRow → DistributedRow
reserved claim now row = record row {
  reserved_publication_at = some now;
  reserved_publication_claim_sha256 = some claim.claim_sha256;
}

-- The publication time of the row: the reserved one, or `now`, which is then reserved.
unfoldable pub publication_time :
    WorkerClaim → String → DistributedRow → Result (String × DistributedRow)
publication_time claim now row =
    if is_set row.reserved_publication_at
    then (do
      raise_if (not (is_text row.reserved_publication_claim_sha256 claim.claim_sha256))
          (value_error "distributed-publication-time-reserved-by-different-worker")
      value ← require row.reserved_publication_at type_error
      ok (value, row))
    else ok (now, reserved claim now row)

-- After publication the call only repeats the time that the same claim reserved.
unfoldable pub published_time : WorkerClaim → DistributedRow → Result String
published_time claim row =
    if is_text row.reserved_publication_claim_sha256 claim.claim_sha256
      && is_set row.reserved_publication_at
    then require row.reserved_publication_at type_error
    else err (value_error "distributed-attempt-already-published")

module _ ⦃host : Host⦄ (key : RuntimeKey) where
  -- `now` is the clock and `nonce` the random token that the call draws.
  unfoldable pub claim_worker :
      (attempt_id worker_id : String) (takeover : Bool) (nonce now : String)
      → Transaction WorkerClaim
  unfolding next_claim claimed_row insert_claim
  claim_worker attempt_id worker_id takeover nonce now db = do
    raise_if (is_blank worker_id) (value_error "distributed-worker-id-empty")
    next ← next_claim takeover (db.distributed_attempts attempt_id)
    let unsigned : WorkerClaim = record {
      attempt_id = attempt_id;
      worker_id = worker_id;
      epoch = next.0;
      prior_claim_sha256 = next.1;
      takeover = takeover;
      claim_nonce = nonce;
      claimed_at = now;
      claim_sha256 = zero_digest;
      runtime_signature = zero_digest;
    }
    raise_if (not (is_valid_claim unsigned)) validation_error
    let claim = sign_claim key unsigned
    claims ← require (insert_claim claim db.distributed_worker_claims) integrity_error
    ok (
      claim,
      record db {
        distributed_attempts =
            put attempt_id (some (claimed_row claim (db.distributed_attempts attempt_id)))
              db.distributed_attempts;
        distributed_worker_claims = claims;
      },
    )

  unfoldable pub reserve_publication_time : WorkerClaim → String → Transaction String
  unfolding publication_time published_time
  reserve_publication_time claim now db = do
    row ←
        require (db.distributed_attempts claim.attempt_id)
          (value_error "distributed-worker-attempt-not-claimed")
    if is_set row.published_core_sha256
        then (do value ← published_time claim row; ok (value, db))
        else (do
          assert_current_worker key (some claim) true false db
          timed ← publication_time claim now row
          ok (
            timed.0,
            record db {
              distributed_attempts = put claim.attempt_id (some timed.1) db.distributed_attempts;
            },
          ))

  -- The unsigned seal of a publication at a time.
  unfoldable pub unsigned_seal :
      WorkerClaim → Publication → String → List WorkerClaim → ExecutionSeal
  unsigned_seal claim p now claims = record {
    attempt_id = claim.attempt_id;
    distributed_policy_sha256 = distributed_execution_policy_sha256;
    worker_claims = claims;
    final_worker_claim_sha256 = claim.claim_sha256;
    atomic_chain_sha256 = p.atomic_chain_sha256;
    provider_call_chain_sha256 = p.provider_call_chain_sha256;
    atomic_finalization_seal_sha256 = p.atomic_finalization_seal_sha256;
    execution_trajectory_sha256 = p.execution_trajectory_sha256;
    rerun_core_sha256 = p.rerun_core_sha256;
    published_at = now;
    publication_sha256 = zero_digest;
    runtime_signature = zero_digest;
  }

  unfoldable pub publish : WorkerClaim → Publication → String → Transaction ExecutionSeal
  unfolding publication_time unsigned_seal claims_of
  publish claim p now db = do
    row ←
        require (db.distributed_attempts claim.attempt_id)
          (value_error "distributed-worker-attempt-not-claimed")
    if is_set row.published_core_sha256
        then (do
          raise_if (not (is_text row.published_core_sha256 p.rerun_core_sha256))
              (value_error "distributed-rerun-core-already-published-different-value")
          seal ← require row.publication type_error
          ok (seal, db))
        else (do
          assert_current_worker key (some claim) true false db
          timed ← publication_time claim now row
          let claims =
              order_by (λ c. c.epoch) (claims_of claim.attempt_id db.distributed_worker_claims)
          let unsigned = unsigned_seal claim p timed.0 claims
          raise_if (not (is_valid_seal unsigned)) validation_error
          let seal = sign_seal key unsigned
          let published = record timed.1 {
            published_core_sha256 = some p.rerun_core_sha256;
            publication = some seal;
          }
          ok (
            seal,
            record db {
              distributed_attempts = put claim.attempt_id (some published) db.distributed_attempts;
            },
          ))
