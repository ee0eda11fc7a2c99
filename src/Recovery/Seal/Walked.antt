-- ===== src/Recovery/Seal/Walked.antt =====
-- The walk of the seal's verifier over a chain of worker claims: one more claim at its end, and
-- the order of the epochs.
use illusiontion.Prelude.{
  ℕ, suc, ◌+◌, ◌≤◌, String, ◌≡◌, refl, true, false, List, [], ◌∷◌, ◌++◌, map, elem, length,
  failures, failures-eq-nil, failures-AllPass, append-eq-nil, map-eq-nil, ◌⊎◌, arith, eq_iff,
  eq→same, eq→==, ==→eq,
}
use illusiontion.Host.{Host, RuntimeKey}
use illusiontion.Recovery.Records.Claims.{WorkerClaim, verify_worker_claim_signature}
use illusiontion.Recovery.Database.{order_by, insert_by}
use illusiontion.Recovery.Seal.{walk_claims, claim_checks, last_digest}

abbrev pub digests : List WorkerClaim → List String
digests claims = map (λ c. c.claim_sha256) claims

module _ ⦃host : Host⦄ (key : RuntimeKey) where
  -- What the checks on one claim say.
  checks-hold :
      (a : String) (idx : ℕ) (prior : String) (seen : List String) (claim : WorkerClaim)
      → claim.attempt_id ≡ a
      → claim.epoch ≡ idx
      → claim.prior_claim_sha256 ≡ prior
      → ((idx ≡ 1) × (claim.takeover ≡ false)) ⊎ ((2 ≤ idx) × (claim.takeover ≡ true))
      → elem claim.claim_sha256 seen ≡ false
      → failures (claim_checks key a idx prior seen claim) ≡ []
  checks-hold a idx prior seen claim at epoch follows takes new =
      failures-AllPass (claim_checks key a idx prior seen claim) (
        eq→same _ _ at,
        (
          eq→== _ _ epoch,
          (
            eq→same _ _ follows,
            (ground (arith, takes), (ground (arith, takes), (ground (arith, new), tt))),
          ),
        ),
      )

  pub walk_claims-cons :
      (a : String) (idx : ℕ) (prior : String) (seen : List String) (d : WorkerClaim)
      (cs : List WorkerClaim)
      → walk_claims key a idx prior seen (d ∷ cs) ≡ []
      → (verify_worker_claim_signature key d ≡ [])
        × (failures (claim_checks key a idx prior seen d) ≡ [])
        × (walk_claims key a (suc idx) d.claim_sha256 (d.claim_sha256 ∷ seen) cs ≡ [])
  unfolding walk_claims
  walk_claims-cons a idx prior seen d cs walked =
      let head = append-eq-nil _ _ walked in
      let rest = append-eq-nil _ _ head.1 in
      (map-eq-nil _ (verify_worker_claim_signature key d) head.0, rest.0, rest.1)

  walk_claims-nil :
      (a : String) (idx : ℕ) (prior : String) (seen : List String) (d : WorkerClaim)
      (cs : List WorkerClaim)
      → verify_worker_claim_signature key d ≡ []
      → failures (claim_checks key a idx prior seen d) ≡ []
      → walk_claims key a (suc idx) d.claim_sha256 (d.claim_sha256 ∷ seen) cs ≡ []
      → walk_claims key a idx prior seen (d ∷ cs) ≡ []
  unfolding walk_claims
  walk_claims-nil a idx prior seen d cs signed checked rest = rw (signed, checked, rest) refl

  pub walk_claims-append :
      (a : String) (idx : ℕ) (prior : String) (seen : List String) (cs : List WorkerClaim)
      (c : WorkerClaim)
      → walk_claims key a idx prior seen cs ≡ []
      → verify_worker_claim_signature key c ≡ []
      → c.attempt_id ≡ a
      → c.epoch ≡ idx + length cs
      → c.prior_claim_sha256 ≡ last_digest key prior cs
      → ((idx + length cs ≡ 1) × (c.takeover ≡ false))
        ⊎ ((2 ≤ idx + length cs) × (c.takeover ≡ true))
      → elem c.claim_sha256 seen ≡ false
      → elem c.claim_sha256 (digests cs) ≡ false
      → walk_claims key a idx prior seen (cs ++ c ∷ []) ≡ []
  unfolding last_digest
  walk_claims-append a idx prior seen [] c walked signed at epoch follows takes new fresh =
      walk_claims-nil a idx prior seen c [] signed
        (checks-hold a idx prior seen c at (omega (arith, epoch)) follows (ground (arith, takes))
          new)
        (unfold walk_claims in refl)
  walk_claims-append a idx prior seen (d ∷ cs) c walked signed at epoch follows takes new fresh =
      let (first, checked, rest) = walk_claims-cons a idx prior seen d cs walked in
      walk_claims-nil a idx prior seen d (cs ++ c ∷ []) first checked (
        walk_claims-append a (suc idx) d.claim_sha256 (d.claim_sha256 ∷ seen) cs c rest signed at
          (omega (arith, epoch)) follows (ground (arith, takes))
          (ground (arith, new, fresh, eq_iff c.claim_sha256 d.claim_sha256))
          (ground (arith, fresh)))

  pub last_digest-append :
      (prior : String) (cs : List WorkerClaim) (c : WorkerClaim)
      → last_digest key prior (cs ++ c ∷ []) ≡ c.claim_sha256
  unfolding last_digest
  last_digest-append prior [] c = refl
  last_digest-append prior (d ∷ cs) c = last_digest-append d.claim_sha256 cs c

  -- `ORDER BY epoch` leaves a walked chain in its order.
  walked-epoch :
      (a : String) (idx : ℕ) (prior : String) (seen : List String) (c : WorkerClaim)
      (cs : List WorkerClaim)
      → walk_claims key a idx prior seen (c ∷ cs) ≡ []
      → c.epoch ≡ idx
  walked-epoch a idx prior seen c cs walked =
      let (_, checked, _) = walk_claims-cons a idx prior seen c cs walked in
      ==→eq c.epoch idx (failures-eq-nil (claim_checks key a idx prior seen c) checked).1.0

  pub order_by-walked :
      (a : String) (idx : ℕ) (prior : String) (seen : List String) (cs : List WorkerClaim)
      → walk_claims key a idx prior seen cs ≡ []
      → order_by (λ c. c.epoch) cs ≡ cs
  unfolding order_by
  order_by-walked a idx prior seen [] walked = refl
  order_by-walked a idx prior seen (c ∷ []) walked = refl
  order_by-walked a idx prior seen (c ∷ d ∷ cs) walked =
      let (_, _, rest) = walk_claims-cons a idx prior seen c (d ∷ cs) walked in
      let ordered =
        order_by-walked a (suc idx) c.claim_sha256 (c.claim_sha256 ∷ seen) (d ∷ cs) rest in
      let first = walked-epoch a idx prior seen c (d ∷ cs) walked in
      let second = walked-epoch a (suc idx) c.claim_sha256 (c.claim_sha256 ∷ seen) d cs rest in
      rw ordered (insert_first c d cs (omega (arith, first, second)))
    where
      insert_first :
          (c d : WorkerClaim) (cs : List WorkerClaim)
          → c.epoch ≤ d.epoch
          → insert_by (λ (x : WorkerClaim). x.epoch) c (d ∷ cs) ≡ c ∷ d ∷ cs
      insert_first c d cs h = ground arith
