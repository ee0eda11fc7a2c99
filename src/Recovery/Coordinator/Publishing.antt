-- ===== src/Recovery/Coordinator/Publishing.antt =====
-- A published attempt: what the first publication leaves, and what a later one then gives.
use illusiontion.Prelude.{
  String, count, ◌≡◌, refl, ap, ◌∙◌, true, false, Option, none, some, List, arith, Option-cases,
  inl, inr, Error, ok, err, value_error, same, same-ne, eq_iff, eq_refl, Bool-cases, Result-cases,
  if◌then◌else◌, and-eq-true, leb,
}
use illusiontion.Host.{Host, RuntimeKey}
use illusiontion.Recovery.Records.Claims.{
  WorkerClaim, ExecutionSeal, Publication, is_valid_seal, is_digest,
}
use illusiontion.Recovery.Database.{Database, DistributedRow, put, is_set, is_text, order_by}
use illusiontion.Recovery.Coordinator.{claims_of, unsigned_seal, publish, publication_time}

-- The attempt has published the core, under the seal.
pub record Published (a core : String) (seal : ExecutionSeal) (db : Database) : Type 0 where
  pub row : DistributedRow
  pub found : db.distributed_attempts a ≡ some row
  pub published_core : row.published_core_sha256 ≡ some core
  pub publication : row.publication ≡ some seal
  pub not_empty : same core "" ≡ false

is_digest-ne-empty : (text : String) → is_digest text ≡ true → same text "" ≡ false
is_digest-ne-empty text h =
    let (low, _) = and-eq-true (leb 64 (count text)) _ h in
    let long : leb 64 (count text) ≡ true = low in
    same-ne text "" (λ e. absurd (ground (arith, long, ap count e)))

pub true-ne-false : true ≡ false → ⊥
true-ne-false e = cc

pub ok_state : {A B : Type 0} {x y : A × B} → ok x ≡ ok y → x.1 ≡ y.1
ok_state e = cc

pub ok_err : {A : Type 0} {a : A} {e : Error} → ok a ≡ err e → ⊥
ok_err h = cc

module _ ⦃host : Host⦄ (key : RuntimeKey) where
  sealed_core :
      (claim : WorkerClaim) (p : Publication) (time : String) (cs : List WorkerClaim)
      → is_valid_seal (unsigned_seal key claim p time cs) ≡ true
      → same p.rerun_core_sha256 "" ≡ false
  unfolding is_valid_seal unsigned_seal
  sealed_core claim p time cs valid =
      let (a, _) = and-eq-true _ _ valid in
      let (b, _) = and-eq-true _ _ a in
      let (c, _) = and-eq-true _ _ b in
      let (_, core) = and-eq-true _ _ c in is_digest-ne-empty p.rerun_core_sha256 core

  is_text-eq-some : (o : Option String) (t : String) → is_text o t ≡ true → o ≡ some t
  is_text-eq-some none t h = cc
  is_text-eq-some (some s) t h = ap some ((eq_iff s t).0 h)

  is_set-eq-some :
      (o : Option String) {t : String} → is_set o ≡ true → o ≡ some t → same t "" ≡ false
  is_set-eq-some o h e = ground (arith, h, e)

  pub publish-Published :
      (claim : WorkerClaim) (p : Publication) (now : String) (db : Database) {seal : ExecutionSeal}
      {after : Database}
      → publish key claim p now db ≡ ok (seal, after)
      → Published claim.attempt_id p.rerun_core_sha256 seal after
  unfolding publish
  publish-Published claim p now db {seal} {after} h =
      elim (Option-cases (db.distributed_attempts claim.attempt_id)) [
        | inl missing ↦ absurd (ground arith)
        | inr (row, found) ↦ elim (Bool-cases (is_set row.published_core_sha256)) [
          | inl published ↦ elim (Option-cases row.publication) [
            | inl none_yet ↦ absurd (ground arith)
            | inr (old, kept_seal) ↦
                let kept : after ≡ db = ground arith in
                let same_seal : old ≡ seal = ground arith in
                let core : row.published_core_sha256 ≡ some p.rerun_core_sha256 =
                  is_text-eq-some row.published_core_sha256 p.rerun_core_sha256 (ground arith) in
                rw kept (record {
                  row = row;
                  found = found;
                  published_core = core;
                  publication = kept_seal ∙ ap some same_seal;
                  not_empty = is_set-eq-some row.published_core_sha256 published core;
                })
          ]
          | inr unset ↦ elim (Result-cases (publication_time claim now row)) [
            | inl (e, refused) ↦ absurd (ground arith)
            | inr (timed, at) ↦
                let valid : is_valid_seal (
                      unsigned_seal key claim p timed.0 (
                        order_by (λ c. c.epoch)
                          (claims_of claim.attempt_id db.distributed_worker_claims)))
                    ≡ true =
                  ground arith in
                let written : after ≡ record db {
                  distributed_attempts =
                      put claim.attempt_id
                        (some (record timed.1 {
                          published_core_sha256 = some p.rerun_core_sha256;
                          publication = some seal;
                        }))
                        db.distributed_attempts;
                } =
                  ground arith in
                rw written (record {
                  row = record timed.1 {
                    published_core_sha256 = some p.rerun_core_sha256;
                    publication = some seal;
                  };
                  found = rw (eq_refl claim.attempt_id) refl;
                  published_core = refl;
                  publication = refl;
                  not_empty = sealed_core claim p timed.0 _ valid;
                })
          ]
        ]
      ]

  -- A publication after the first repeats the seal, or is refused.
  pub Published-publish :
      (core : String) (seal : ExecutionSeal) (db : Database) (claim : WorkerClaim) (p : Publication)
      (now : String)
      → Published claim.attempt_id core seal db
      → publish key claim p now db ≡ (
          if same core p.rerun_core_sha256
          then ok (seal, db)
          else err (value_error "distributed-rerun-core-already-published-different-value"))
  unfolding publish
  Published-publish core seal db claim p now was =
      rw (was.found, was.published_core, was.publication, was.not_empty)
        (elim (Bool-cases (same core p.rerun_core_sha256)) [
          | inl hit ↦ rw hit refl
          | inr miss ↦ rw miss refl
        ])
