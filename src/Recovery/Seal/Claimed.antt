-- ===== src/Recovery/Seal/Claimed.antt =====
-- The claims on record for an attempt form the chain that the seal's verifier asks for, and stay
-- one under every call.
use illusiontion.Prelude.{
  ℕ, ◌+◌, ◌≤◌, String, ◌≡◌, refl, sym, ◌∙◌, Bool, true, false, ◌&&◌, ◌||◌, Option, none, some, List,
  [], ◌∷◌, ◌++◌, same, ◌==◌, elem, any, length, length-append, Bool-cases, inl, inr, ◌⊎◌, arith,
  eq_iff, eq→same, ok,
}
use illusiontion.Host.{Host, RuntimeKey}
use illusiontion.Recovery.Records.Claims.{WorkerClaim, zero_digest, verify_worker_claim_signature}
use illusiontion.Recovery.Database.{empty_database, Database, DistributedRow}
use illusiontion.Recovery.Coordinator.{
  claims_of, insert_claim, next_claim, claimed_row, claim_worker,
}
use illusiontion.Recovery.Coordinator.Claiming.{SameClaims, Claims, claim_worker-Claims}
use illusiontion.Recovery.Coordinator.Current.{new_claim-signed}
use illusiontion.Recovery.Seal.Walked.{digests, walk_claims-append, last_digest-append}
use illusiontion.Recovery.Seal.{walk_claims, last_digest}

claims_of-own :
    (a : String) (cs : List WorkerClaim) (c : WorkerClaim)
    → same c.attempt_id a ≡ true
    → claims_of a (cs ++ c ∷ []) ≡ claims_of a cs ++ c ∷ []
unfolding claims_of
claims_of-own a [] c h = rw h refl
claims_of-own a (d ∷ cs) c h = ground (arith, claims_of-own a cs c h)

claims_of-other :
    (a : String) (cs : List WorkerClaim) (c : WorkerClaim)
    → same c.attempt_id a ≡ false
    → claims_of a (cs ++ c ∷ []) ≡ claims_of a cs
unfolding claims_of
claims_of-other a [] c h = rw h refl
claims_of-other a (d ∷ cs) c h = ground (arith, claims_of-other a cs c h)

new_digest :
    (a : String) (c : WorkerClaim) (cs : List WorkerClaim)
    → any
        (λ d.
          (same d.attempt_id c.attempt_id && d.epoch == c.epoch)
          || same d.claim_sha256 c.claim_sha256)
        cs
      ≡ false
    → elem c.claim_sha256 (digests (claims_of a cs)) ≡ false
unfolding claims_of
new_digest a c [] h = refl
new_digest a c (d ∷ cs) h = ground (
  arith,
  new_digest a c cs,
  eq_iff d.claim_sha256 c.claim_sha256,
  eq_iff c.claim_sha256 d.claim_sha256,
)

pub insert_claim-new :
    (a : String) (c : WorkerClaim) (cs : List WorkerClaim) {after : List WorkerClaim}
    → insert_claim c cs ≡ some after
    → (after ≡ cs ++ c ∷ []) × (elem c.claim_sha256 (digests (claims_of a cs)) ≡ false)
unfolding insert_claim
insert_claim-new a c cs h = (ground arith, new_digest a c cs (ground arith))

module _ ⦃host : Host⦄ (key : RuntimeKey) where
  -- The fields of a claim that `claim_worker` returns.
  claim_fields-new :
      (a w : String) (takeover : Bool) (nonce now : String) (db : Database) {claim : WorkerClaim}
      {after : Database} (c : Claims key a w takeover nonce now db claim after)
      → (verify_worker_claim_signature key claim ≡ [])
        × (claim.attempt_id ≡ a)
        × (claim.epoch ≡ c.next.0)
        × (claim.prior_claim_sha256 ≡ c.next.1)
        × (claim.takeover ≡ takeover)
  claim_fields-new a w takeover nonce now db c =
      rw c.signed (new_claim-signed key a w takeover nonce now c.next)

  -- The row of an attempt stands for the last of its claims.
  abbrev pub Stands : Option DistributedRow → List WorkerClaim → Type 0
  Stands none cs = cs ≡ []
  Stands (some row) cs =
      (row.current_epoch ≡ length cs)
      × (row.current_claim_sha256 ≡ last_digest key zero_digest cs)
      × (1 ≤ length cs)

  pub record IsClaimed (db : Database) : Type 0 where
    pub stands :
        (a : String) → Stands (db.distributed_attempts a) (claims_of a db.distributed_worker_claims)
    pub walked :
        (a : String)
        → walk_claims key a 1 zero_digest [] (claims_of a db.distributed_worker_claims) ≡ []

  -- The epoch, the prior claim and the takeover that the next claim on an attempt carries.
  next_claim-follows :
      (takeover : Bool) (row : Option DistributedRow) (cs : List WorkerClaim) {next : ℕ × String}
      → next_claim takeover row ≡ ok next
      → Stands row cs
      → (next.0 ≡ 1 + length cs)
        × (next.1 ≡ last_digest key zero_digest cs)
        × (((1 + length cs ≡ 1) × (takeover ≡ false)) ⊎ ((2 ≤ 1 + length cs) × (takeover ≡ true)))
  unfolding next_claim
  next_claim-follows takeover none cs {next} e stands =
      rw stands
        (ground (arith, e), unfold last_digest in ground (arith, e), inl (refl, ground (arith, e)))
  next_claim-follows takeover (some row) cs {next} e stands = (
    ground (arith, e, stands),
    ground (arith, e, stands),
    inr (omega (arith, stands.2), ground (arith, e)),
  )

  pub IsClaimed-empty : IsClaimed empty_database
  unfolding claims_of walk_claims
  IsClaimed-empty = record { stands = λ a. refl; walked = λ a. refl }

  Stands-same :
      (before after : Option DistributedRow) (cs : List WorkerClaim)
      → ((row : DistributedRow)
          → before ≡ some row
          → (now : DistributedRow) × (after ≡ some now)
            × (now.current_epoch ≡ row.current_epoch)
            × (now.current_claim_sha256 ≡ row.current_claim_sha256))
      → (before ≡ none → after ≡ none)
      → Stands before cs
      → Stands after cs
  Stands-same none after cs kept gone stands = rw (gone refl) stands
  Stands-same (some row) after cs kept gone stands =
      let (now, found, e, d) = kept row refl in rw found (e ∙ stands.0, d ∙ stands.1, stands.2)

  pub SameClaims-IsClaimed :
      (db after : Database) → SameClaims key db after → IsClaimed db → IsClaimed after
  SameClaims-IsClaimed db after same_claims was = record {
    stands = λ a. rw (same_claims.claims) (
        Stands-same (db.distributed_attempts a) (after.distributed_attempts a)
          (claims_of a db.distributed_worker_claims) (same_claims.epochs a) (same_claims.absent a)
          (was.stands a));
    walked = λ a. rw (same_claims.claims) (was.walked a);
  }

  claimed_row-Stands :
      (c : WorkerClaim) (row : Option DistributedRow) (cs : List WorkerClaim)
      → c.epoch ≡ 1 + length cs
      → Stands (some (claimed_row c row)) (cs ++ c ∷ [])
  unfolding claimed_row
  claimed_row-Stands c none cs e = (
    omega (arith, e, length-append cs (c ∷ [])),
    sym (last_digest-append key zero_digest cs c),
    omega (arith, length-append cs (c ∷ [])),
  )
  claimed_row-Stands c (some row) cs e = (
    omega (arith, e, length-append cs (c ∷ [])),
    sym (last_digest-append key zero_digest cs c),
    omega (arith, length-append cs (c ∷ [])),
  )

  pub claim_worker-IsClaimed :
      (a w : String) (takeover : Bool) (nonce now : String) (db : Database) {claim : WorkerClaim}
      {after : Database}
      → claim_worker key a w takeover nonce now db ≡ ok (claim, after)
      → IsClaimed db
      → IsClaimed after
  claim_worker-IsClaimed a w takeover nonce now db {claim} {after} h was =
      let c = claim_worker-Claims key a w takeover nonce now db h in
      let cs = claims_of a db.distributed_worker_claims in
      let fields = claim_fields-new a w takeover nonce now db c in
      let inserted = insert_claim-new a claim db.distributed_worker_claims c.inserted in
      let (epoch, prior, takes) =
        next_claim-follows takeover (db.distributed_attempts a) cs c.follows (was.stands a) in
      let of_attempt : claim.attempt_id ≡ a = fields.1 in
      let grown : List WorkerClaim = db.distributed_worker_claims ++ claim ∷ [] in
      rw (c.written, inserted.0)
        (record {
          stands = λ b. elim (Bool-cases (same a b)) [
            | inl hit ↦
                rw
                  (
                    hit,
                    ← (eq_iff a b).0 hit,
                    claims_of-own a db.distributed_worker_claims claim (eq→same _ _ of_attempt),
                  )
                  (claimed_row-Stands claim (db.distributed_attempts a) cs (fields.2 ∙ epoch))
            | inr miss ↦
                rw (miss, claims_of-other b db.distributed_worker_claims claim (rw of_attempt miss))
                  (was.stands b)
          ];
          walked = λ b. elim (Bool-cases (same a b)) [
            | inl hit ↦
                rw
                  (
                    ← (eq_iff a b).0 hit,
                    claims_of-own a db.distributed_worker_claims claim (eq→same _ _ of_attempt),
                  )
                  (walk_claims-append key a 1 zero_digest [] cs claim (was.walked a) fields.0
                    of_attempt (fields.2 ∙ epoch) (fields.3 ∙ prior) (rw (fields.4) takes) refl
                    inserted.1)
            | inr miss ↦
                rw (claims_of-other b db.distributed_worker_claims claim (rw of_attempt miss))
                  (was.walked b)
          ];
        })
