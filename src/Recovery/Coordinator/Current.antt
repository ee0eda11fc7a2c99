-- ===== src/Recovery/Coordinator/Current.antt =====
-- A claim that `claim_worker` has just signed is the one that every store accepts.
use illusiontion.Prelude.{
  ℕ, String, ◌≡◌, refl, Bool, true, false, Option, none, some, [], arith, ok, eq_refl, eq→==, ap,
  ◌∙◌,
}
use illusiontion.Host.{Host, RuntimeKey}
use illusiontion.Recovery.Records.Claims.{
  WorkerClaim, sign_claim, verify_worker_claim_signature, claim_digest_payload, claim_payload,
}
use illusiontion.Recovery.Database.{Database, DistributedRow, is_set}
use illusiontion.Recovery.Fencing.{assert_current_worker, check_claim, check_row}
use illusiontion.Recovery.Coordinator.{next_claim, claimed_row, claim_worker}
use illusiontion.Recovery.Coordinator.Claiming.{claim_worker-Claims, new_claim}

module _ ⦃host : Host⦄ (key : RuntimeKey) where
  pub new_claim-signed :
      (a w : String) (takeover : Bool) (nonce now : String) (next : ℕ × String)
      → (verify_worker_claim_signature key (new_claim key a w takeover nonce now next) ≡ [])
        × ((new_claim key a w takeover nonce now next).attempt_id ≡ a)
        × ((new_claim key a w takeover nonce now next).epoch ≡ next.0)
        × ((new_claim key a w takeover nonce now next).prior_claim_sha256 ≡ next.1)
        × ((new_claim key a w takeover nonce now next).takeover ≡ takeover)
  unfolding verify_worker_claim_signature sign_claim claim_digest_payload claim_payload
  new_claim-signed a w takeover nonce now next =
      (rw (eq_refl _, eq_refl _) refl, refl, refl, refl, refl)

  claimed_row-open :
      (claim : WorkerClaim) (takeover : Bool) (row : Option DistributedRow) {next : ℕ × String}
      → next_claim takeover row ≡ ok next
      → ((claimed_row claim row).current_epoch ≡ claim.epoch)
        × ((claimed_row claim row).current_claim_sha256 ≡ claim.claim_sha256)
        × (is_set (claimed_row claim row).published_core_sha256 ≡ false)
  unfolding next_claim claimed_row
  claimed_row-open claim takeover none e = (refl, refl, refl)
  claimed_row-open claim takeover (some row) e = (refl, refl, ground arith)

  check_row-current :
      (claim : WorkerClaim) (row : DistributedRow)
      → row.current_epoch ≡ claim.epoch
      → row.current_claim_sha256 ≡ claim.claim_sha256
      → is_set row.published_core_sha256 ≡ false
      → check_row key claim false row ≡ ok tt
  unfolding check_row
  check_row-current claim row e d open_row =
      rw (eq→== row.current_epoch claim.epoch e, d, eq_refl claim.claim_sha256, open_row) refl

  -- A claim that `claim_worker` returns is signed and current: in the database that the call leaves
  -- the worker check accepts it.
  pub claim_worker-current :
      (a w : String) (takeover : Bool) (nonce now : String) (db : Database) {claim : WorkerClaim}
      {after : Database}
      → claim_worker key a w takeover nonce now db ≡ ok (claim, after)
      → assert_current_worker key (some claim) true false after ≡ ok tt
  unfolding assert_current_worker check_claim
  claim_worker-current a w takeover nonce now db {claim} {after} h =
      let f = claim_worker-Claims key a w takeover nonce now db h in
      let (valid, at, _, _, _) = new_claim-signed a w takeover nonce now f.next in
      let signed : verify_worker_claim_signature key claim ≡ [] = rw f.signed valid in
      let of_attempt : claim.attempt_id ≡ a =
        ap (λ (c : WorkerClaim). c.attempt_id) f.signed ∙ at in
      let (e, d, open_row) =
        claimed_row-open claim takeover (db.distributed_attempts a) f.follows in
      let found : after.distributed_attempts claim.attempt_id
          ≡ some (claimed_row claim (db.distributed_attempts a)) =
        rw (f.written, of_attempt, eq_refl a) refl in
      rw (signed, found)
        (check_row-current claim (claimed_row claim (db.distributed_attempts a)) e d open_row)
