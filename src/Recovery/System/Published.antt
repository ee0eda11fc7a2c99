-- ===== src/Recovery/System/Published.antt =====
-- Publication is a single assignment: the core that an attempt publishes first stays.
use illusiontion.Prelude.{String, ◌≡◌, refl, sym, subst, ok, err, value_error, same, if◌then◌else◌}
use illusiontion.Host.{Host, RuntimeKey}
use illusiontion.Recovery.Records.Claims.{WorkerClaim, ExecutionSeal, Publication}
use illusiontion.Recovery.Database.{Database}
use illusiontion.Recovery.Coordinator.{publish}
use illusiontion.Recovery.ActionStore.Steps.{
  begin_attempt-Begins, authorize-Authorizes, commit-Commits, finalize-Finalizes,
}
use illusiontion.Recovery.System.{
  store_of, Step, claims, reserves, publishes, begins, authorizes, commits, finalizes, Runs, start,
  then_step,
}
use illusiontion.Recovery.Coordinator.Publishing.{Published, publish-Published, Published-publish}
use illusiontion.Recovery.Coordinator.Unchanged.{
  Published-claims, Published-reserves, Published-publishes,
}

module _ ⦃host : Host⦄ (key : RuntimeKey) where
  same_attempts-Published :
      (a core : String) (seal : ExecutionSeal) (db after : Database)
      → after.distributed_attempts ≡ db.distributed_attempts
      → Published a core seal db
      → Published a core seal after
  same_attempts-Published a core seal db after e was = record {
    row = was.row;
    found = rw e was.found;
    published_core = was.published_core;
    publication = was.publication;
    not_empty = was.not_empty;
  }

  Step-Published :
      {db after : Database} (a core : String) (seal : ExecutionSeal)
      → Step key db after
      → Published a core seal db
      → Published a core seal after
  Step-Published {db} a core seal (claims b w takeover nonce now h) was =
      Published-claims key a core seal db b w takeover nonce now h was
  Step-Published {db} a core seal (reserves claim now h) was =
      Published-reserves key a core seal db claim now h was
  Step-Published {db} a core seal (publishes claim p now h) was =
      Published-publishes key a core seal db claim p now h was
  Step-Published {db} a core seal (begins claim required b lease now {after = after} h) was =
      same_attempts-Published a core seal db after
        (rw ((begin_attempt-Begins (store_of key claim required) b lease now db h).written) refl)
        was
  Step-Published {db} a core seal (authorizes claim required b i r nonce now {after = after} h)
        was =
      same_attempts-Published a core seal db after
        (rw ((authorize-Authorizes (store_of key claim required) b i r nonce now db h).written)
          refl)
        was
  Step-Published {db} a core seal (commits claim required p cls receipt now {after = after} h) was =
      same_attempts-Published a core seal db after
        (rw ((commit-Commits (store_of key claim required) p cls receipt now db h).written) refl)
        was
  Step-Published {db} a core seal (finalizes claim required b n {after = after} h) was =
      same_attempts-Published a core seal db after
        (rw ((finalize-Finalizes (store_of key claim required) b n db h).written) refl) was

  Runs-Published :
      {db after : Database} (a core : String) (seal : ExecutionSeal)
      → Runs key db after
      → Published a core seal db
      → Published a core seal after
  Runs-Published a core seal start was = was
  Runs-Published a core seal (then_step run step) was =
      Step-Published a core seal step (Runs-Published a core seal run was)

  -- An attempt publishes one core. After a publication, and any calls of the coordinator and the
  -- action store by any workers that follow, each publication of the same attempt returns the
  -- first seal and changes nothing if it brings the same core, and is refused if it brings
  -- another.
  pub publish-publish :
      (claim other : WorkerClaim) (p q : Publication) (now at : String) (db : Database)
      {seal : ExecutionSeal} {after later : Database}
      → publish key claim p now db ≡ ok (seal, after)
      → Runs key after later
      → other.attempt_id ≡ claim.attempt_id
      → publish key other q at later ≡ (
          if same p.rerun_core_sha256 q.rerun_core_sha256
          then ok (seal, later)
          else err (value_error "distributed-rerun-core-already-published-different-value"))
  publish-publish claim other p q now at db {seal} {after} {later} h run same_attempt =
      Published-publish key p.rerun_core_sha256 seal later other q at (
        subst (λ a. Published a p.rerun_core_sha256 seal later) (sym same_attempt)
          (Runs-Published claim.attempt_id p.rerun_core_sha256 seal run
            (publish-Published key claim p now db h)))
