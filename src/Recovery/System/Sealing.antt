-- ===== src/Recovery/System/Sealing.antt =====
-- Whatever calls of any workers lead to: the claims of an attempt form one chain, and a first
-- publication seals it.
use illusiontion.Prelude.{String, ◌≡◌, refl, false, some, ok, sorted_set}
use illusiontion.Host.{Host, RuntimeKey}
use illusiontion.Recovery.Records.Claims.{WorkerClaim, ExecutionSeal, Publication}
use illusiontion.Recovery.Records.Actions.{Chain}
use illusiontion.Recovery.Records.Calls.{CallChain}
use illusiontion.Recovery.Database.{Database, DistributedRow, is_set, empty_database}
use illusiontion.Recovery.Coordinator.{publish}
use illusiontion.Recovery.Coordinator.Claiming.{
  reserve_publication_time-SameClaims, publish-SameClaims,
}
use illusiontion.Recovery.ActionStore.Steps.{
  begin_attempt-Begins, authorize-Authorizes, commit-Commits, finalize-Finalizes,
}
use illusiontion.Recovery.Seal.{epoch_errors, verify_distributed_execution_seal}
use illusiontion.Recovery.Seal.Claimed.{
  IsClaimed, IsClaimed-empty, SameClaims-IsClaimed, claim_worker-IsClaimed,
}
use illusiontion.Recovery.Seal.Sealed.{expected_of, publish-verify}
use illusiontion.Recovery.System.{
  store_of, Step, claims, reserves, publishes, begins, authorizes, commits, finalizes, Runs, start,
  then_step,
}

module _ ⦃host : Host⦄ (key : RuntimeKey) where
  same_tables-IsClaimed :
      (db after : Database)
      → after.distributed_attempts ≡ db.distributed_attempts
      → after.distributed_worker_claims ≡ db.distributed_worker_claims
      → IsClaimed key db
      → IsClaimed key after
  same_tables-IsClaimed db after e f was = record {
    stands = λ a. rw (e, f) (was.stands a);
    walked = λ a. rw f (was.walked a);
  }

  Step-IsClaimed :
      {db after : Database} → Step key db after → IsClaimed key db → IsClaimed key after
  Step-IsClaimed {db} (claims a w takeover nonce now h) was =
      claim_worker-IsClaimed key a w takeover nonce now db h was
  Step-IsClaimed {db} (reserves claim now {after = after} h) was =
      SameClaims-IsClaimed key db after (reserve_publication_time-SameClaims key claim now db h) was
  Step-IsClaimed {db} (publishes claim p now {after = after} h) was =
      SameClaims-IsClaimed key db after (publish-SameClaims key claim p now db h) was
  Step-IsClaimed {db} (begins claim required a lease now {after = after} h) was =
      let f = begin_attempt-Begins (store_of key claim required) a lease now db h in
      same_tables-IsClaimed db after (rw (f.written) refl) (rw (f.written) refl) was
  Step-IsClaimed {db} (authorizes claim required a i r nonce now {after = after} h) was =
      let f = authorize-Authorizes (store_of key claim required) a i r nonce now db h in
      same_tables-IsClaimed db after (rw (f.written) refl) (rw (f.written) refl) was
  Step-IsClaimed {db} (commits claim required p cls receipt now {after = after} h) was =
      let f = commit-Commits (store_of key claim required) p cls receipt now db h in
      same_tables-IsClaimed db after (rw (f.written) refl) (rw (f.written) refl) was
  Step-IsClaimed {db} (finalizes claim required a n {after = after} h) was =
      let f = finalize-Finalizes (store_of key claim required) a n db h in
      same_tables-IsClaimed db after (rw (f.written) refl) (rw (f.written) refl) was

  Runs-IsClaimed : {db : Database} → Runs key empty_database db → IsClaimed key db
  Runs-IsClaimed start = IsClaimed-empty key
  Runs-IsClaimed (then_step run step) = Step-IsClaimed step (Runs-IsClaimed run)

  -- In every database that calls of the coordinator and the action store by any workers lead to
  -- from the empty one, a first publication writes a seal on which the seal's verifier reports
  -- exactly what the epochs of the sealed steps give: the digests, the signature, the chain of
  -- worker claims from epoch 1 on and the final claim are in order. The verifier is given the
  -- claim's attempt, the published core and digests, and chains of the published digests.
  pub Runs-publish-verify :
      {db : Database} (run : Runs key empty_database db) (claim : WorkerClaim) (p : Publication)
      (now : String) (atomic : Chain) (provider : CallChain) {seal : ExecutionSeal}
      {after : Database} {row : DistributedRow}
      → publish key claim p now db ≡ ok (seal, after)
      → db.distributed_attempts claim.attempt_id ≡ some row
      → is_set row.published_core_sha256 ≡ false
      → atomic.chain_sha256 ≡ p.atomic_chain_sha256
      → provider.chain_sha256 ≡ p.provider_call_chain_sha256
      → verify_distributed_execution_seal key (expected_of key claim p atomic provider) seal
        ≡ sorted_set (epoch_errors seal atomic provider)
  Runs-publish-verify {db} run claim p now atomic provider =
      publish-verify key claim p now db atomic provider (Runs-IsClaimed run)
