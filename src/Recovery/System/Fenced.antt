-- ===== src/Recovery/System/Fenced.antt =====
-- Fencing: once another worker has taken an attempt over, the earlier claim mutates nothing again.
use illusiontion.Prelude.{
  ℕ, ◌+◌, ◌≤◌, String, ◌≡◌, refl, Bool, true, false, Option, none, some, List, [], arith,
  Option-cases, inl, inr, Result, ◌>>◌, ◌∷◌, ok, err, value_error, same, eq_iff, eq_refl,
  Bool-cases,
}
use illusiontion.Host.{Host, RuntimeKey}
use illusiontion.Recovery.Records.Claims.{
  WorkerClaim, verify_worker_claim_signature, sign_claim, ReviewerName, ActionClass,
}
use illusiontion.Recovery.Records.Actions.{Permit}
use illusiontion.Recovery.Database.{Database, DistributedRow}
use illusiontion.Recovery.Fencing.{assert_current_worker, check_claim, check_row, raise_first}
use illusiontion.Recovery.Coordinator.{next_claim, claimed_row, claim_worker}
use illusiontion.Recovery.Coordinator.Claiming.{
  SameClaims, claim_worker-Claims, new_claim, reserve_publication_time-SameClaims,
  publish-SameClaims,
}
use illusiontion.Recovery.ActionStore.{assert_worker, begin_attempt, authorize, commit, finalize}
use illusiontion.Recovery.ActionStore.Steps.{
  begin_attempt-Begins, authorize-Authorizes, commit-Commits, finalize-Finalizes,
}
use illusiontion.Recovery.System.{
  store_of, Step, claims, reserves, publishes, begins, authorizes, commits, finalizes, Runs, start,
  then_step,
}

-- The epoch of the attempt is at least `n`.
abbrev pub AtLeast : ℕ → Option DistributedRow → Type 0
AtLeast n none = ⊥
AtLeast n (some row) = n ≤ row.current_epoch

first_error :
    (errors : List String) (m : Result (Unit {0})) → (raise_first errors >> m) ≡ ok tt → errors ≡ []
first_error [] m e = refl
first_error (x ∷ xs) m e = cc

module _ ⦃host : Host⦄ (key : RuntimeKey) where
  claimed_epoch :
      (a w : String) (takeover : Bool) (nonce now : String) (row : Option DistributedRow)
      {next : ℕ × String}
      → next_claim takeover row ≡ ok next
      → (n : ℕ) → AtLeast n row
      → (n + 1 ≤ next.0)
        × AtLeast (n + 1) (some (claimed_row (new_claim key a w takeover nonce now next) row))
  unfolding next_claim claimed_row sign_claim
  claimed_epoch a w takeover nonce now none e n h = absurd h
  claimed_epoch a w takeover nonce now (some row) {next} e n h =
      let is : next.0 ≡ row.current_epoch + 1 = ground arith in
      (omega (arith, is, h), omega (arith, is, h))

  SameClaims-AtLeast :
      (db after : Database) (a : String) (n : ℕ)
      → SameClaims key db after
      → AtLeast n (db.distributed_attempts a)
      → AtLeast n (after.distributed_attempts a)
  SameClaims-AtLeast db after a n same_claims h = elim (Option-cases (db.distributed_attempts a)) [
    | inl missing ↦ absurd (rw missing at h)
    | inr (row, found) ↦
        let (now, later, e, d) = same_claims.epochs a row found in
        let low : n ≤ row.current_epoch = (rw found at h) in rw later (omega (arith, low, e))
  ]

  -- An epoch never goes back, whatever calls are made.
  Step-AtLeast :
      {db after : Database} (a : String) (n : ℕ)
      → Step key db after
      → AtLeast n (db.distributed_attempts a)
      → AtLeast n (after.distributed_attempts a)
  Step-AtLeast {db} a n (claims b w takeover nonce now {c = c} {after = after} h) low =
      let f = claim_worker-Claims key b w takeover nonce now db h in
      rw f.written (elim (Bool-cases (same b a)) [
        | inl hit ↦
            let here : AtLeast n (db.distributed_attempts b) = rw ((eq_iff b a).0 hit) low in
            let (_, more) =
              claimed_epoch b w takeover nonce now (db.distributed_attempts b) f.follows n here in
            rw (hit, f.signed) (omega (arith, more))
        | inr miss ↦ rw miss low
      ])
  Step-AtLeast {db} a n (reserves claim now {after = after} h) low =
      SameClaims-AtLeast db after a n (reserve_publication_time-SameClaims key claim now db h) low
  Step-AtLeast {db} a n (publishes claim p now {after = after} h) low =
      SameClaims-AtLeast db after a n (publish-SameClaims key claim p now db h) low
  Step-AtLeast {db} a n (begins claim required b lease now h) low =
      rw ((begin_attempt-Begins (store_of key claim required) b lease now db h).written) low
  Step-AtLeast {db} a n (authorizes claim required b i r nonce now h) low =
      rw ((authorize-Authorizes (store_of key claim required) b i r nonce now db h).written) low
  Step-AtLeast {db} a n (commits claim required p cls receipt now h) low =
      rw ((commit-Commits (store_of key claim required) p cls receipt now db h).written) low
  Step-AtLeast {db} a n (finalizes claim required b k h) low =
      rw ((finalize-Finalizes (store_of key claim required) b k db h).written) low

  Runs-AtLeast :
      {db after : Database} (a : String) (n : ℕ)
      → Runs key db after
      → AtLeast n (db.distributed_attempts a)
      → AtLeast n (after.distributed_attempts a)
  Runs-AtLeast a n start low = low
  Runs-AtLeast a n (then_step run step) low = Step-AtLeast a n step (Runs-AtLeast a n run low)

  AtLeast-fenced :
      (claim : WorkerClaim) (required allow_published : Bool) (db : Database)
      → verify_worker_claim_signature key claim ≡ []
      → AtLeast (claim.epoch + 1) (db.distributed_attempts claim.attempt_id)
      → assert_current_worker key (some claim) required allow_published db
        ≡ err (value_error "distributed-worker-fenced-by-newer-epoch")
  unfolding assert_current_worker check_claim check_row
  AtLeast-fenced claim required allow db valid newer =
      elim (Option-cases (db.distributed_attempts claim.attempt_id)) [
        | inl missing ↦ absurd (rw missing at newer)
        | inr (row, found) ↦
            let more : claim.epoch + 1 ≤ row.current_epoch = (rw found at newer) in
            rw (valid, found) (ground arith)
      ]

  current-AtLeast :
      (claim : WorkerClaim) (required allow_published : Bool) (db : Database)
      → assert_current_worker key (some claim) required allow_published db ≡ ok tt
      → (verify_worker_claim_signature key claim ≡ [])
        × AtLeast claim.epoch (db.distributed_attempts claim.attempt_id)
  unfolding assert_current_worker check_claim check_row
  current-AtLeast claim required allow db h =
      elim (Option-cases (db.distributed_attempts claim.attempt_id)) [
        | inl missing ↦ absurd (ground arith)
        | inr (row, found) ↦
            let same_epoch : claim.epoch ≤ row.current_epoch = ground arith in
            (first_error (verify_worker_claim_signature key claim) _ h, rw found same_epoch)
      ]

  -- What a takeover does to the claim that held the attempt before: each later check of it fails.
  taken_over :
      (old : WorkerClaim) (worker nonce now : String) (db : Database) {c : WorkerClaim}
      {mid later : Database} (required allow_published : Bool)
      → assert_current_worker key (some old) true false db ≡ ok tt
      → claim_worker key old.attempt_id worker true nonce now db ≡ ok (c, mid)
      → Runs key mid later
      → assert_current_worker key (some old) required allow_published later
        ≡ err (value_error "distributed-worker-fenced-by-newer-epoch")
  taken_over old worker nonce now db {c} {mid} {later} required allow held taken run =
      let (valid, low) = current-AtLeast old true false db held in
      let f = claim_worker-Claims key old.attempt_id worker true nonce now db taken in
      let (_, more) =
        claimed_epoch old.attempt_id worker true nonce now (db.distributed_attempts old.attempt_id)
          f.follows old.epoch low in
      let high : AtLeast (old.epoch + 1) (mid.distributed_attempts old.attempt_id) =
        rw (f.written, eq_refl old.attempt_id, f.signed) more in
      AtLeast-fenced old required allow later valid
        (Runs-AtLeast old.attempt_id (old.epoch + 1) run high)

  -- After a takeover of its attempt, and any calls of the coordinator and the action store by any
  -- workers that follow, the worker that held the attempt before can begin, authorize, commit and
  -- finalize nothing: every such call is refused because its claim is fenced.
  pub claim_worker-fences :
      (old : WorkerClaim) (worker nonce now : String) (db : Database) {c : WorkerClaim}
      {mid later : Database}
      → assert_current_worker key (some old) true false db ≡ ok tt
      → claim_worker key old.attempt_id worker true nonce now db ≡ ok (c, mid)
      → Runs key mid later
      → (required : Bool) (a : String) (i : ℕ) (r : ReviewerName) (p : Permit) (cls : ActionClass)
        (text at : String)
      → (begin_attempt (store_of key (some old) required) a text at later
          ≡ err (value_error "distributed-worker-fenced-by-newer-epoch"))
        × (authorize (store_of key (some old) required) a i r text at later
            ≡ err (value_error "distributed-worker-fenced-by-newer-epoch"))
        × (commit (store_of key (some old) required) p cls text at later
            ≡ err (value_error "distributed-worker-fenced-by-newer-epoch"))
        × (finalize (store_of key (some old) required) a i later
            ≡ err (value_error "distributed-worker-fenced-by-newer-epoch"))
  unfolding begin_attempt authorize commit finalize assert_worker
  claim_worker-fences old worker nonce now db {c} {mid} {later} held taken run required a i r p cls
        text at =
      let fenced = taken_over old worker nonce now db required false held taken run in
      (rw fenced refl, rw fenced refl, rw fenced refl, rw fenced refl)
