-- ===== src/Recovery/Coordinator/Claiming.antt =====
-- What a successful call of the coordinator has checked and written, and how far it moves an epoch.
use illusiontion.Prelude.{
  ℕ, String, ◌≡◌, refl, sym, ap, ◌∙◌, Bool, none, some, List, arith, Option-cases, some_injective,
  Result-cases, Bool-cases, inl, inr, ok, eq_iff, same,
}
use illusiontion.Host.{Host, RuntimeKey}
use illusiontion.Recovery.Records.Claims.{
  WorkerClaim, ExecutionSeal, Publication, zero_digest, sign_claim,
}
use illusiontion.Recovery.Database.{Database, DistributedRow, put, is_set}
use illusiontion.Recovery.Coordinator.{
  insert_claim, next_claim, claimed_row, publication_time, claim_worker, reserve_publication_time,
  publish,
}

module _ ⦃host : Host⦄ (key : RuntimeKey) where
  -- The claim that `claim_worker` signs.
  abbrev pub new_claim :
      (attempt_id worker_id : String) → Bool → (nonce now : String) → ℕ × String → WorkerClaim
  new_claim a w takeover nonce now next = sign_claim key (record {
    attempt_id = a;
    worker_id = w;
    epoch = next.0;
    prior_claim_sha256 = next.1;
    takeover = takeover;
    claim_nonce = nonce;
    claimed_at = now;
    claim_sha256 = zero_digest;
    runtime_signature = zero_digest;
  })

  pub record Claims (a w : String) (takeover : Bool) (nonce now : String) (db : Database)
      (claim : WorkerClaim) (after : Database) : Type 0 where
    pub next : ℕ × String
    pub claims : List WorkerClaim
    pub follows : next_claim takeover (db.distributed_attempts a) ≡ ok next
    pub signed : claim ≡ new_claim a w takeover nonce now next
    pub inserted : insert_claim claim db.distributed_worker_claims ≡ some claims
    pub written : after ≡ record db {
      distributed_attempts =
          put a (some (claimed_row claim (db.distributed_attempts a))) db.distributed_attempts;
      distributed_worker_claims = claims;
    }

  pub claim_worker-Claims :
      (a w : String) (takeover : Bool) (nonce now : String) (db : Database) {claim : WorkerClaim}
      {after : Database}
      → claim_worker key a w takeover nonce now db ≡ ok (claim, after)
      → Claims a w takeover nonce now db claim after
  unfolding claim_worker
  claim_worker-Claims a w takeover nonce now db {claim} {after} h =
      elim (Result-cases (next_claim takeover (db.distributed_attempts a))) [
        | inl (e, refused) ↦ absurd (ground arith)
        | inr (next, follows) ↦
            elim (Option-cases
              (insert_claim (new_claim a w takeover nonce now next) db.distributed_worker_claims)) [
                | inl clash ↦ absurd (ground arith)
                | inr (claims, inserted) ↦
                    let signed : claim ≡ new_claim a w takeover nonce now next = ground arith in
                    record {
                      next = next;
                      claims = claims;
                      follows = follows;
                      signed = signed;
                      inserted = rw signed inserted;
                      written = ground arith;
                    }
              ]
      ]

  -- What reserving a time and publishing leave alone: the claims, and the epoch of each attempt.
  pub record SameClaims (db after : Database) : Type 0 where
    pub claims : after.distributed_worker_claims ≡ db.distributed_worker_claims
    pub attempts : after.attempts ≡ db.attempts
    pub actions : after.actions ≡ db.actions
    pub epochs :
        (a : String) (row : DistributedRow)
        → db.distributed_attempts a ≡ some row
        → (now : DistributedRow) × (after.distributed_attempts a ≡ some now)
          × (now.current_epoch ≡ row.current_epoch)
          × (now.current_claim_sha256 ≡ row.current_claim_sha256)
    pub absent :
        (a : String) → db.distributed_attempts a ≡ none → after.distributed_attempts a ≡ none

  SameClaims-refl : (db : Database) → SameClaims db db
  SameClaims-refl db = record {
    claims = refl;
    attempts = refl;
    actions = refl;
    epochs = λ a row e. (row, e, refl, refl);
    absent = λ a e. e;
  }

  some-ne-none : {A : Type 0} {a : A} → some a ≡ none → ⊥
  some-ne-none e = cc

  put-SameClaims :
      (db : Database) (a : String) (row now : DistributedRow)
      → db.distributed_attempts a ≡ some row
      → now.current_epoch ≡ row.current_epoch
      → now.current_claim_sha256 ≡ row.current_claim_sha256
      → SameClaims db
          (record db { distributed_attempts = put a (some now) db.distributed_attempts })
  put-SameClaims db a row now found e d = record {
    claims = refl;
    attempts = refl;
    actions = refl;
    epochs = λ j other at. elim (Bool-cases (same a j)) [
      | inl hit ↦
          let is : row ≡ other = some_injective (sym found ∙ (rw ((eq_iff a j).0 hit) at)) in
          (
            now,
            rw hit refl,
            e ∙ ap (λ (r : DistributedRow). r.current_epoch) is,
            d ∙ ap (λ (r : DistributedRow). r.current_claim_sha256) is,
          )
      | inr miss ↦ (other, rw miss at, refl, refl)
    ];
    absent = λ j at. elim (Bool-cases (same a j)) [
      | inl hit ↦ absurd (some-ne-none (sym found ∙ (rw ((eq_iff a j).0 hit) at)))
      | inr miss ↦ rw miss at
    ];
  }

  publication_time_epoch :
      (claim : WorkerClaim) (now : String) (row : DistributedRow) {timed : String × DistributedRow}
      → publication_time claim now row ≡ ok timed
      → (timed.1.current_epoch ≡ row.current_epoch)
        × (timed.1.current_claim_sha256 ≡ row.current_claim_sha256)
  unfolding publication_time
  publication_time_epoch claim now row h = elim (Option-cases row.reserved_publication_at) [
    | inl free ↦ (ground arith, ground arith)
    | inr (text, set) ↦ (ground arith, ground arith)
  ]

  pub reserve_publication_time-SameClaims :
      (claim : WorkerClaim) (now : String) (db : Database) {time : String} {after : Database}
      → reserve_publication_time key claim now db ≡ ok (time, after)
      → SameClaims db after
  unfolding reserve_publication_time
  reserve_publication_time-SameClaims claim now db {time} {after} h =
      elim (Option-cases (db.distributed_attempts claim.attempt_id)) [
        | inl missing ↦ absurd (ground arith)
        | inr (row, found) ↦ elim (Bool-cases (is_set row.published_core_sha256)) [
          | inl published ↦ let kept : after ≡ db = ground arith in rw kept (SameClaims-refl db)
          | inr open_ ↦ elim (Result-cases (publication_time claim now row)) [
            | inl (e, refused) ↦ absurd (ground arith)
            | inr (timed, at) ↦
                let written : after ≡ record db {
                  distributed_attempts =
                      put claim.attempt_id (some timed.1) db.distributed_attempts;
                } =
                  ground arith in
                let (e, d) = publication_time_epoch claim now row at in
                rw written (put-SameClaims db claim.attempt_id row timed.1 found e d)
          ]
        ]
      ]

  pub publish-SameClaims :
      (claim : WorkerClaim) (p : Publication) (now : String) (db : Database) {seal : ExecutionSeal}
      {after : Database}
      → publish key claim p now db ≡ ok (seal, after)
      → SameClaims db after
  unfolding publish
  publish-SameClaims claim p now db {seal} {after} h =
      elim (Option-cases (db.distributed_attempts claim.attempt_id)) [
        | inl missing ↦ absurd (ground arith)
        | inr (row, found) ↦ elim (Bool-cases (is_set row.published_core_sha256)) [
          | inl published ↦ elim (Option-cases row.publication) [
            | inl none_yet ↦ absurd (ground arith)
            | inr (old, kept_seal) ↦
                let kept : after ≡ db = ground arith in rw kept (SameClaims-refl db)
          ]
          | inr open_ ↦ elim (Result-cases (publication_time claim now row)) [
            | inl (e, refused) ↦ absurd (ground arith)
            | inr (timed, at) ↦
                let written : after ≡ record db {
                  distributed_attempts =
                      put claim.attempt_id
                        (some (record timed.1 {
                          published_core_sha256 = some p.rerun_core_sha256;
                          publication = some seal;
                        }))
                        db.distributed_attempts;
                } =
                  ground arith in
                let (e, d) = publication_time_epoch claim now row at in
                rw written (put-SameClaims db claim.attempt_id row _ found e d)
          ]
        ]
      ]
