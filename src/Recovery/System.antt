-- ===== src/Recovery/System.antt =====
-- The workers that share the recovery database: any sequence of successful calls of the
-- coordinator and the action store, by any workers with one key. A call that raises rolls back, so it takes no step.
pub mod Fenced
pub mod Published
pub mod Sealing
pub mod Issued
pub mod Committing
pub mod Authorizing
use illusiontion.Prelude.{ℕ, String, ◌≡◌, refl, Bool, Option, ok}
use illusiontion.Host.{Host, RuntimeKey}
use illusiontion.Recovery.Records.Claims.{
  ReviewerName, ActionClass, WorkerClaim, ExecutionSeal, Publication,
}
use illusiontion.Recovery.Records.Actions.{Permit, Commit, Chain}
use illusiontion.Recovery.Database.{Database, empty_database}
use illusiontion.Recovery.Coordinator.{claim_worker, reserve_publication_time, publish}
use illusiontion.Recovery.Coordinator.Claiming.{
  SameClaims, claim_worker-Claims, reserve_publication_time-SameClaims, publish-SameClaims,
}
use illusiontion.Recovery.ActionStore.{ActionStore, begin_attempt, authorize, commit, finalize}
use illusiontion.Recovery.ActionStore.Invariant.{
  IsSound, IsSound-empty, begin_attempt-IsSound, authorize-IsSound, commit-IsSound,
  finalize-IsSound,
}

module _ ⦃host : Host⦄ (key : RuntimeKey) where
  abbrev pub store_of : Option WorkerClaim → Bool → ActionStore
  store_of claim required = record {
    key = key;
    distributed_worker_claim = claim;
    require_distributed_claim = required;
  }

  pub data Step (db : Database) : Database → Type 0 where
    claims :
        (a w : String) (takeover : Bool) (nonce now : String) {c : WorkerClaim} {after : Database}
        → claim_worker key a w takeover nonce now db ≡ ok (c, after)
        → Step db after
    reserves :
        (claim : WorkerClaim) (now : String) {time : String} {after : Database}
        → reserve_publication_time key claim now db ≡ ok (time, after)
        → Step db after
    publishes :
        (claim : WorkerClaim) (p : Publication) (now : String) {seal : ExecutionSeal}
        {after : Database}
        → publish key claim p now db ≡ ok (seal, after)
        → Step db after
    begins :
        (claim : Option WorkerClaim) (required : Bool) (a lease now : String) {after : Database}
        → begin_attempt (store_of claim required) a lease now db ≡ ok (tt, after)
        → Step db after
    authorizes :
        (claim : Option WorkerClaim) (required : Bool) (a : String) (i : ℕ) (r : ReviewerName)
        (nonce now : String) {p : Permit} {after : Database}
        → authorize (store_of claim required) a i r nonce now db ≡ ok (p, after)
        → Step db after
    commits :
        (claim : Option WorkerClaim) (required : Bool) (p : Permit) (cls : ActionClass)
        (receipt now : String) {c : Commit} {after : Database}
        → commit (store_of claim required) p cls receipt now db ≡ ok (c, after)
        → Step db after
    finalizes :
        (claim : Option WorkerClaim) (required : Bool) (a : String) (n : ℕ) {chain : Chain}
        {after : Database}
        → finalize (store_of claim required) a n db ≡ ok (chain, after)
        → Step db after

  -- The databases that a run of calls leads to from one.
  pub data Runs (db : Database) : Database → Type 0 where
    start : Runs db db
    then_step : {mid after : Database} → Runs db mid → Step mid after → Runs db after

  same_rows-IsSound :
      (db after : Database)
      → after.attempts ≡ db.attempts
      → after.actions ≡ db.actions
      → IsSound key db
      → IsSound key after
  same_rows-IsSound db after e f sound = record { at = λ a. rw (e, f) (sound.at a) }

  Step-IsSound : {db after : Database} → Step db after → IsSound key db → IsSound key after
  Step-IsSound {db} (claims a w takeover nonce now {after = after} h) sound =
      let c = claim_worker-Claims key a w takeover nonce now db h in
      same_rows-IsSound db after (rw c.written refl) (rw c.written refl) sound
  Step-IsSound {db} (reserves claim now {after = after} h) sound =
      let kept = reserve_publication_time-SameClaims key claim now db h in
      same_rows-IsSound db after kept.attempts kept.actions sound
  Step-IsSound {db} (publishes claim p now {after = after} h) sound =
      let kept = publish-SameClaims key claim p now db h in
      same_rows-IsSound db after kept.attempts kept.actions sound
  Step-IsSound {db} (begins claim required a lease now h) sound =
      begin_attempt-IsSound (store_of claim required) a lease now db h sound
  Step-IsSound {db} (authorizes claim required a i r nonce now h) sound =
      authorize-IsSound (store_of claim required) a i r nonce now db h sound
  Step-IsSound {db} (commits claim required p cls receipt now h) sound =
      commit-IsSound (store_of claim required) p cls receipt now db h sound
  Step-IsSound {db} (finalizes claim required a n h) sound =
      finalize-IsSound (store_of claim required) a n db h sound

  -- Every database that calls of the coordinator and the action store by any workers lead to from
  -- the empty one is sound: each attempt's permits and commits form one hash chain from its
  -- initial state to the state on record, with at most the last permit uncommitted, and that one
  -- is the permit on record as in flight.
  pub Runs-IsSound : {db : Database} → Runs empty_database db → IsSound key db
  Runs-IsSound start = IsSound-empty key
  Runs-IsSound (then_step run step) = Step-IsSound step (Runs-IsSound run)
