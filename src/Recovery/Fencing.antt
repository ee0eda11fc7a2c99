-- ===== src/Recovery/Fencing.antt =====
-- Worker fencing: `assert_current_worker_conn` of app/evidence_admission.py, which every mutation
-- of the shared state calls inside its transaction.
use illusiontion.Prelude.{
  String, Bool, not, ◌&&◌, ◌||◌, Option, none, some, List, [], ◌∷◌, value_error, Result, ok, err,
  ◌>>=◌, ◌>>◌, raise_if, require, same, ◌==◌,
}
use illusiontion.Json.{Json, str, dict}
use illusiontion.Host.{Host, RuntimeKey, sha256_object}
use illusiontion.Recovery.Records.Claims.{WorkerClaim, verify_worker_claim_signature}
use illusiontion.Recovery.Database.{Database, DistributedRow, is_set}

abbrev distributed_policy : Json
distributed_policy = dict (
    ("domain", str "ILLUSIONTION_DISTRIBUTED_RECOVERY_EXECUTION_V0_39")
    ∷ ("worker_rule", str "ONE_CURRENT_FENCING_EPOCH_PER_DETERMINISTIC_ATTEMPT")
    ∷ ("takeover_rule", str "EXPLICIT_TAKEOVER_ADVANCES_EPOCH_AND_FENCES_PRIOR_WORKER")
    ∷ ("mutation_rule", str "EVERY_SHARED_STATE_MUTATION_REQUIRES_CURRENT_WORKER_CLAIM")
    ∷ ("publication_rule", str "ONE_RERUN_CORE_PER_DETERMINISTIC_ATTEMPT")
    ∷ ("authority_scope", str "CONCURRENCY_ONLY_NEVER_UPGRADES_VERDICT")
    ∷ ("storage_assumption", str "SHARED_TRANSACTIONAL_NON_ROLLBACK_STATE")
    ∷ [])

-- `raise ValueError(errors[0])` if there is any error.
abbrev pub raise_first : List String → Result (Unit {0})
raise_first [] = ok tt
raise_first (e ∷ es) = err (value_error e)

module _ ⦃host : Host⦄ where
  unfoldable pub distributed_execution_policy_sha256 : String
  distributed_execution_policy_sha256 = sha256_object distributed_policy

module _ ⦃host : Host⦄ (key : RuntimeKey) where
  -- The check on the row of the claim's attempt.
  unfoldable pub check_row : WorkerClaim → Bool → DistributedRow → Result (Unit {0})
  check_row claim allow_published row = do
    raise_if
        (not (row.current_epoch == claim.epoch)
          || not (same row.current_claim_sha256 claim.claim_sha256))
        (value_error "distributed-worker-fenced-by-newer-epoch")
    raise_if (is_set row.published_core_sha256 && not allow_published)
        (value_error "distributed-attempt-already-published")

  unfoldable pub check_claim : WorkerClaim → Bool → Database → Result (Unit {0})
  check_claim claim allow_published db = do
    raise_first (verify_worker_claim_signature key claim)
    row ←
        require (db.distributed_attempts claim.attempt_id)
          (value_error "distributed-worker-attempt-not-claimed")
    check_row claim allow_published row

  unfoldable pub assert_current_worker :
      Option WorkerClaim → (required allow_published : Bool) → Database → Result (Unit {0})
  unfolding check_claim check_row
  assert_current_worker none required allow_published db =
      raise_if required (value_error "distributed-worker-claim-required")
  assert_current_worker (some claim) required allow_published db =
      check_claim claim allow_published db
