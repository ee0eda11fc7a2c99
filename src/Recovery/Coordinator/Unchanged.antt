-- ===== src/Recovery/Coordinator/Unchanged.antt =====
-- The other calls of the coordinator leave a publication as it is.
use illusiontion.Prelude.{
  String, ◌≡◌, refl, sym, ◌∙◌, Bool, true, false, some, List, arith, Option-cases, some_injective,
  inl, inr, ok, value_error, ◌⊎◌, same, eq_iff, Bool-cases, Result-cases,
}
use illusiontion.Host.{Host, RuntimeKey}
use illusiontion.Recovery.Records.Claims.{WorkerClaim, ExecutionSeal, Publication}
use illusiontion.Recovery.Database.{Database, DistributedRow, put, is_set}
use illusiontion.Recovery.Coordinator.{
  next_claim, claim_worker, reserve_publication_time, publish, publication_time,
}
use illusiontion.Recovery.Coordinator.Claiming.{claim_worker-Claims}
use illusiontion.Recovery.Coordinator.Publishing.{
  Published, true-ne-false, ok_state, ok_err, Published-publish,
}

module _ ⦃host : Host⦄ (key : RuntimeKey) where
  -- The row stands under its key, or the call wrote under another.
  put-Published :
      (a core : String) (seal : ExecutionSeal) (db : Database) (b : String) (row : DistributedRow)
      (cs : List WorkerClaim)
      → same b a ≡ false
      → Published a core seal db
      → Published a core seal (record db {
        distributed_attempts = put b (some row) db.distributed_attempts;
        distributed_worker_claims = cs;
      })
  put-Published a core seal db b row cs miss h = record {
    row = h.row;
    found = rw miss h.found;
    published_core = h.published_core;
    publication = h.publication;
    not_empty = h.not_empty;
  }

  Published-is_set :
      {a core : String} {seal : ExecutionSeal} {db : Database} (h : Published a core seal db)
      → is_set (h.row).published_core_sha256 ≡ true
  Published-is_set h = rw (h.published_core, h.not_empty) refl

  claim_worker_open :
      (a w : String) (takeover : Bool) (nonce now : String) (db : Database) (row : DistributedRow)
      {c : WorkerClaim} {after : Database}
      → db.distributed_attempts a ≡ some row
      → claim_worker key a w takeover nonce now db ≡ ok (c, after)
      → is_set row.published_core_sha256 ≡ false
  unfolding next_claim
  claim_worker_open a w takeover nonce now db row found h =
      let f = claim_worker-Claims key a w takeover nonce now db h in
      let follows : next_claim takeover (some row) ≡ ok f.next = rw found at f.follows in
      ground (arith, follows)

  pub Published-claims :
      (a core : String) (seal : ExecutionSeal) (db : Database) (b w : String) (takeover : Bool)
      (nonce now : String) {c : WorkerClaim} {after : Database}
      → claim_worker key b w takeover nonce now db ≡ ok (c, after)
      → Published a core seal db
      → Published a core seal after
  Published-claims a core seal db b w takeover nonce now h was =
      let f = claim_worker-Claims key b w takeover nonce now db h in
      elim (Bool-cases (same b a)) [
        | inl hit ↦
            let found : db.distributed_attempts b ≡ some was.row =
              rw ((eq_iff b a).0 hit) was.found in
            absurd (
              true-ne-false (
                sym (Published-is_set was)
                ∙ claim_worker_open b w takeover nonce now db was.row found h))
        | inr miss ↦ rw f.written (put-Published a core seal db b _ f.claims miss was)
      ]

  -- Another attempt's row is what an open row belongs to.
  unpublished_elsewhere :
      (a core : String) (seal : ExecutionSeal) (db : Database) (b : String) (row : DistributedRow)
      → db.distributed_attempts b ≡ some row
      → is_set row.published_core_sha256 ≡ false
      → Published a core seal db
      → same b a ≡ false
  unpublished_elsewhere a core seal db b row found unset was = elim (Bool-cases (same b a)) [
    | inl hit ↦
        let is : was.row ≡ row = some_injective (sym was.found ∙ rw (← (eq_iff b a).0 hit) found) in
        absurd (true-ne-false (sym (Published-is_set was) ∙ (rw is unset)))
    | inr miss ↦ miss
  ]

  publish_writes :
      (claim : WorkerClaim) (p : Publication) (now : String) (db : Database) {seal : ExecutionSeal}
      {after : Database}
      → publish key claim p now db ≡ ok (seal, after)
      → (after ≡ db)
        ⊎ ((row : DistributedRow) × (after ≡ record db {
          distributed_attempts = put claim.attempt_id (some row) db.distributed_attempts;
        }))
  unfolding publish
  publish_writes claim p now db {seal} {after} h =
      elim (Option-cases (db.distributed_attempts claim.attempt_id)) [
        | inl missing ↦ absurd (ground arith)
        | inr (row, found) ↦ elim (Bool-cases (is_set row.published_core_sha256)) [
          | inl published ↦ elim (Option-cases row.publication) [
            | inl none_yet ↦ absurd (ground arith)
            | inr (old, kept) ↦ inl (ground arith)
          ]
          | inr unset ↦ elim (Result-cases (publication_time claim now row)) [
            | inl (e, refused) ↦ absurd (ground arith)
            | inr (timed, at) ↦ inr (
              record timed.1 {
                published_core_sha256 = some p.rerun_core_sha256;
                publication = some seal;
              },
              ground arith,
            )
          ]
        ]
      ]

  pub Published-reserves :
      (a core : String) (seal : ExecutionSeal) (db : Database) (claim : WorkerClaim) (now : String)
      {time : String} {after : Database}
      → reserve_publication_time key claim now db ≡ ok (time, after)
      → Published a core seal db
      → Published a core seal after
  unfolding reserve_publication_time
  Published-reserves a core seal db claim now {time} {after} h was =
      elim (Option-cases (db.distributed_attempts claim.attempt_id)) [
        | inl missing ↦ absurd (ground arith)
        | inr (row, found) ↦ elim (Bool-cases (is_set row.published_core_sha256)) [
          | inl published ↦ let kept : after ≡ db = ground arith in rw kept was
          | inr unset ↦ elim (Result-cases (publication_time claim now row)) [
            | inl (e, refused) ↦ absurd (ground arith)
            | inr (timed, at) ↦
                let written : after ≡ record db {
                  distributed_attempts =
                      put claim.attempt_id (some timed.1) db.distributed_attempts;
                } =
                  ground arith in
                rw written (
                  put-Published a core seal db claim.attempt_id timed.1 db.distributed_worker_claims
                    (unpublished_elsewhere a core seal db claim.attempt_id row found unset was) was)
          ]
        ]
      ]

  pub Published-publishes :
      (a core : String) (seal : ExecutionSeal) (db : Database) (claim : WorkerClaim)
      (p : Publication) (now : String) {other : ExecutionSeal} {after : Database}
      → publish key claim p now db ≡ ok (other, after)
      → Published a core seal db
      → Published a core seal after
  Published-publishes a core seal db claim p now {other} {after} h was =
      elim (Bool-cases (same claim.attempt_id a)) [
        | inl hit ↦
            let here : Published claim.attempt_id core seal db =
              rw ((eq_iff claim.attempt_id a).0 hit) was in
            let run = sym h ∙ Published-publish key core seal db claim p now here in
            let kept : after ≡ db = elim (Bool-cases (same core p.rerun_core_sha256)) [
              | inl again ↦ ok_state {y = (seal, db)} (run ∙ rw again refl)
              | inr differs ↦ absurd (
                  ok_err
                    {e = value_error "distributed-rerun-core-already-published-different-value"}
                    (run ∙ rw differs refl))
            ] in
            rw kept was
        | inr miss ↦ elim (publish_writes claim p now db h) [
          | inl kept ↦ rw kept was
          | inr (row, written) ↦ rw written (
              put-Published a core seal db claim.attempt_id row db.distributed_worker_claims miss
                was)
        ]
      ]
