-- ===== src/Recovery/Records/Actions.antt =====
-- The permit, commit and chain of one attempt's reviewer actions: the models of app/security.py
-- and the payloads and digests over them in app/attempt_continuity.py.
use illusiontion.Prelude.{ℕ, String, Bool, ◌&&◌, List, [], ◌∷◌, ◌++◌, map, leb, ◌==◌, same, length}
use illusiontion.Json.{Json, str, num, dict, list, unless_empty}
use illusiontion.Host.{Host, RuntimeKey, sha256_object, hmac_payload}
use illusiontion.Recovery.Records.Claims.{
  ReviewerName, is_reviewer, reviewer_text, ActionClass, class_text, length_within, is_digest,
}

pub record Permit : Type 0 where
  pub attempt_id : String
  pub attempt_lease_set_sha256 : String
  pub step_index : ℕ
  pub reviewer : ReviewerName
  pub distributed_worker_claim_sha256 : String
  pub prior_state_sha256 : String
  pub permit_nonce : String
  pub issued_at : String
  pub permit_sha256 : String
  pub runtime_signature : String

unfoldable pub is_valid_permit : Permit → Bool
is_valid_permit p =
    is_digest p.attempt_id
    && is_digest p.attempt_lease_set_sha256
    && leb p.step_index 31
    && length_within 0 64 p.distributed_worker_claim_sha256
    && is_digest p.prior_state_sha256
    && length_within 32 128 p.permit_nonce
    && length_within 1 128 p.issued_at
    && is_digest p.permit_sha256
    && is_digest p.runtime_signature

-- `stored != permit` is the negation of this test.
unfoldable pub same_permit : Permit → Permit → Bool
same_permit p q =
    same p.attempt_id q.attempt_id
    && same p.attempt_lease_set_sha256 q.attempt_lease_set_sha256
    && (p.step_index == q.step_index)
    && is_reviewer p.reviewer q.reviewer
    && same p.distributed_worker_claim_sha256 q.distributed_worker_claim_sha256
    && same p.prior_state_sha256 q.prior_state_sha256
    && same p.permit_nonce q.permit_nonce
    && same p.issued_at q.issued_at
    && same p.permit_sha256 q.permit_sha256
    && same p.runtime_signature q.runtime_signature

abbrev permit_fields : Permit → List (String × Json)
permit_fields p =
    ("attempt_id", str p.attempt_id)
    ∷ ("attempt_lease_set_sha256", str p.attempt_lease_set_sha256)
    ∷ ("step_index", num p.step_index)
    ∷ ("reviewer", str (reviewer_text p.reviewer))
    ∷ (unless_empty "distributed_worker_claim_sha256" p.distributed_worker_claim_sha256
        ++ (("prior_state_sha256", str p.prior_state_sha256)
            ∷ ("permit_nonce", str p.permit_nonce)
            ∷ ("issued_at", str p.issued_at)
            ∷ []))

unfoldable pub permit_digest_payload : Permit → Json
permit_digest_payload p = dict (permit_fields p)

unfoldable pub permit_payload : Permit → Json
permit_payload p = dict (permit_fields p ++ (("permit_sha256", str p.permit_sha256) ∷ []))

pub record Commit : Type 0 where
  pub attempt_id : String
  pub step_index : ℕ
  pub reviewer : ReviewerName
  pub distributed_worker_claim_sha256 : String
  pub permit_sha256 : String
  pub action_class : ActionClass
  pub receipt_signature : String
  pub prior_state_sha256 : String
  pub next_state_sha256 : String
  pub committed_at : String
  pub commit_sha256 : String
  pub runtime_signature : String

unfoldable pub is_valid_commit : Commit → Bool
is_valid_commit c =
    is_digest c.attempt_id
    && leb c.step_index 31
    && length_within 0 64 c.distributed_worker_claim_sha256
    && is_digest c.permit_sha256
    && is_digest c.receipt_signature
    && is_digest c.prior_state_sha256
    && is_digest c.next_state_sha256
    && length_within 1 128 c.committed_at
    && is_digest c.commit_sha256
    && is_digest c.runtime_signature

abbrev commit_fields : Commit → List (String × Json)
commit_fields c =
    ("attempt_id", str c.attempt_id)
    ∷ ("step_index", num c.step_index)
    ∷ ("reviewer", str (reviewer_text c.reviewer))
    ∷ (unless_empty "distributed_worker_claim_sha256" c.distributed_worker_claim_sha256
        ++ (("permit_sha256", str c.permit_sha256)
            ∷ ("action_class", str (class_text c.action_class))
            ∷ ("receipt_signature", str c.receipt_signature)
            ∷ ("prior_state_sha256", str c.prior_state_sha256)
            ∷ ("next_state_sha256", str c.next_state_sha256)
            ∷ ("committed_at", str c.committed_at)
            ∷ []))

unfoldable pub commit_digest_payload : Commit → Json
commit_digest_payload c = dict (commit_fields c)

unfoldable pub commit_payload : Commit → Json
commit_payload c = dict (commit_fields c ++ (("commit_sha256", str c.commit_sha256) ∷ []))

pub record ActionStep : Type 0 where
  pub permit : Permit
  pub commit : Commit

pub record Chain : Type 0 where
  pub attempt_id : String
  pub attempt_lease_set_sha256 : String
  pub atomic_policy_sha256 : String
  pub initial_state_sha256 : String
  pub steps : List ActionStep
  pub final_state_sha256 : String
  pub chain_sha256 : String

unfoldable pub is_valid_chain : Chain → Bool
is_valid_chain c =
    is_digest c.attempt_id
    && is_digest c.attempt_lease_set_sha256
    && is_digest c.atomic_policy_sha256
    && is_digest c.initial_state_sha256
    && (leb 1 (length c.steps) && leb (length c.steps) 16)
    && is_digest c.final_state_sha256
    && is_digest c.chain_sha256

-- `step.model_dump(mode="json")`: every field of the permit and of the commit, signatures included.
abbrev step_json : ActionStep → Json
step_json s = dict (
    (
      "permit",
      dict (
          ("attempt_id", str s.permit.attempt_id)
          ∷ ("attempt_lease_set_sha256", str s.permit.attempt_lease_set_sha256)
          ∷ ("step_index", num s.permit.step_index)
          ∷ ("reviewer", str (reviewer_text s.permit.reviewer))
          ∷ ("distributed_worker_claim_sha256", str s.permit.distributed_worker_claim_sha256)
          ∷ ("prior_state_sha256", str s.permit.prior_state_sha256)
          ∷ ("permit_nonce", str s.permit.permit_nonce)
          ∷ ("issued_at", str s.permit.issued_at)
          ∷ ("permit_sha256", str s.permit.permit_sha256)
          ∷ ("runtime_signature", str s.permit.runtime_signature)
          ∷ []),
    )
    ∷ (
      "commit",
      dict (
          ("attempt_id", str s.commit.attempt_id)
          ∷ ("step_index", num s.commit.step_index)
          ∷ ("reviewer", str (reviewer_text s.commit.reviewer))
          ∷ ("distributed_worker_claim_sha256", str s.commit.distributed_worker_claim_sha256)
          ∷ ("permit_sha256", str s.commit.permit_sha256)
          ∷ ("action_class", str (class_text s.commit.action_class))
          ∷ ("receipt_signature", str s.commit.receipt_signature)
          ∷ ("prior_state_sha256", str s.commit.prior_state_sha256)
          ∷ ("next_state_sha256", str s.commit.next_state_sha256)
          ∷ ("committed_at", str s.commit.committed_at)
          ∷ ("commit_sha256", str s.commit.commit_sha256)
          ∷ ("runtime_signature", str s.commit.runtime_signature)
          ∷ []),
    )
    ∷ [])

-- `_chain_payload`: the dump of the chain less its own digest.
unfoldable pub chain_payload : Chain → Json
chain_payload c = dict (
    ("attempt_id", str c.attempt_id)
    ∷ ("attempt_lease_set_sha256", str c.attempt_lease_set_sha256)
    ∷ ("atomic_policy_sha256", str c.atomic_policy_sha256)
    ∷ ("initial_state_sha256", str c.initial_state_sha256)
    ∷ ("steps", list (map step_json c.steps))
    ∷ ("final_state_sha256", str c.final_state_sha256)
    ∷ [])

-- What the verifiers read of a `ModelReviewTrace` (app/runtime.py).
pub record Trace : Type 0 where
  pub reviewer : ReviewerName
  pub invocation_sha256 : String
  pub attempt_context_sha256 : String
  pub action_class : ActionClass
  pub model_provider : String
  pub model_id : String
  pub model_response_id : String
  pub raw_output_sha256 : String
  pub receipt_signature : String

module _ ⦃host : Host⦄ (key : RuntimeKey) where
  unfoldable pub sign_permit : Permit → Permit
  sign_permit unsigned =
      let tmp = record unsigned {
        permit_sha256 = sha256_object (permit_digest_payload unsigned);
      } in
      record tmp { runtime_signature = hmac_payload (permit_payload tmp) key }

  unfoldable pub sign_commit : Commit → Commit
  sign_commit unsigned =
      let tmp = record unsigned {
        commit_sha256 = sha256_object (commit_digest_payload unsigned);
      } in
      record tmp { runtime_signature = hmac_payload (commit_payload tmp) key }
