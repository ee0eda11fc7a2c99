-- ===== src/Recovery/Records/Claims.antt =====
-- Reviewer names, action classes, and the worker claim and publication seal of app/security.py
-- with the payloads over them in app/evidence_admission.py.
use mathlib.Core.Bool.{decide, decide_iff}
use illusiontion.Prelude.{
  ℕ, String, count, ◌≡◌, Bool, true, ◌&&◌, List, [], ◌∷◌, ◌++◌, map, leb, same, length,
  if◌then◌else◌,
}
use illusiontion.Json.{Json, str, num, bool, dict, list}
use illusiontion.Host.{Host, RuntimeKey, sha256_object, hmac_payload}

pub data ReviewerName : Type 0 where
  decomposer evidence challenger scope security entailment counterexample : ReviewerName

unfoldable pub ReviewerName-discrete : Discrete ReviewerName
ReviewerName-discrete = hlevel

abbrev pub reviewer_text : ReviewerName → String
reviewer_text decomposer = "decomposer"
reviewer_text evidence = "evidence"
reviewer_text challenger = "challenger"
reviewer_text scope = "scope"
reviewer_text security = "security"
reviewer_text entailment = "entailment"
reviewer_text counterexample = "counterexample"

abbrev pub is_reviewer : ReviewerName → ReviewerName → Bool
is_reviewer a b = decide (ReviewerName-discrete a b)

pub eq→is_reviewer : (a b : ReviewerName) → a ≡ b → is_reviewer a b ≡ true
eq→is_reviewer a b e = (decide_iff (ReviewerName-discrete a b)).1 e

-- The classes that `classify_observable_completion` returns.
pub data ActionClass : Type 0 where
  execution_failure critical_finding semantic_conflict caution : ActionClass
  semantic_support clean observation : ActionClass

unfoldable pub ActionClass-discrete : Discrete ActionClass
ActionClass-discrete = hlevel

abbrev pub class_text : ActionClass → String
class_text execution_failure = "EXECUTION_FAILURE"
class_text critical_finding = "CRITICAL_FINDING"
class_text semantic_conflict = "SEMANTIC_CONFLICT"
class_text caution = "CAUTION"
class_text semantic_support = "SEMANTIC_SUPPORT"
class_text clean = "CLEAN"
class_text observation = "OBSERVATION"

abbrev pub is_class : ActionClass → ActionClass → Bool
is_class a b = decide (ActionClass-discrete a b)

-- `"0" * 64`
abbrev pub zero_digest : String
zero_digest = "0000000000000000000000000000000000000000000000000000000000000000"

-- `Field(min_length=..., max_length=...)`
abbrev pub length_within : ℕ → ℕ → String → Bool
length_within low high text = leb low (count text) && leb (count text) high

-- `Field(min_length=64, max_length=64)`
abbrev pub is_digest : String → Bool
is_digest text = length_within 64 64 text

pub record WorkerClaim : Type 0 where
  pub attempt_id : String
  pub worker_id : String
  pub epoch : ℕ
  pub prior_claim_sha256 : String
  pub takeover : Bool
  pub claim_nonce : String
  pub claimed_at : String
  pub claim_sha256 : String
  pub runtime_signature : String

-- pydantic's checks when the claim is built.
unfoldable pub is_valid_claim : WorkerClaim → Bool
is_valid_claim c =
    is_digest c.attempt_id
    && length_within 1 512 c.worker_id
    && (leb 1 c.epoch && leb c.epoch 2147483647)
    && is_digest c.prior_claim_sha256
    && length_within 32 128 c.claim_nonce
    && length_within 1 128 c.claimed_at
    && is_digest c.claim_sha256
    && is_digest c.runtime_signature

abbrev claim_fields : WorkerClaim → List (String × Json)
claim_fields c =
    ("attempt_id", str c.attempt_id)
    ∷ ("worker_id", str c.worker_id)
    ∷ ("epoch", num c.epoch)
    ∷ ("prior_claim_sha256", str c.prior_claim_sha256)
    ∷ ("takeover", bool c.takeover)
    ∷ ("claim_nonce", str c.claim_nonce)
    ∷ ("claimed_at", str c.claimed_at)
    ∷ []

unfoldable pub claim_digest_payload : WorkerClaim → Json
claim_digest_payload c = dict (claim_fields c)

unfoldable pub claim_payload : WorkerClaim → Json
claim_payload c = dict (claim_fields c ++ (("claim_sha256", str c.claim_sha256) ∷ []))

-- `claim.model_dump(mode="json")`
unfoldable pub claim_json : WorkerClaim → Json
claim_json c = dict (
    claim_fields c
    ++ (("claim_sha256", str c.claim_sha256) ∷ ("runtime_signature", str c.runtime_signature) ∷ []))

pub record ExecutionSeal : Type 0 where
  pub attempt_id : String
  pub distributed_policy_sha256 : String
  pub worker_claims : List WorkerClaim
  pub final_worker_claim_sha256 : String
  pub atomic_chain_sha256 : String
  pub provider_call_chain_sha256 : String
  pub atomic_finalization_seal_sha256 : String
  pub execution_trajectory_sha256 : String
  pub rerun_core_sha256 : String
  pub published_at : String
  pub publication_sha256 : String
  pub runtime_signature : String

unfoldable pub is_valid_seal : ExecutionSeal → Bool
is_valid_seal s =
    is_digest s.attempt_id
    && is_digest s.distributed_policy_sha256
    && (leb 1 (length s.worker_claims) && leb (length s.worker_claims) 1024)
    && is_digest s.final_worker_claim_sha256
    && is_digest s.atomic_chain_sha256
    && is_digest s.provider_call_chain_sha256
    && is_digest s.atomic_finalization_seal_sha256
    && is_digest s.execution_trajectory_sha256
    && is_digest s.rerun_core_sha256
    && length_within 1 128 s.published_at
    && is_digest s.publication_sha256
    && is_digest s.runtime_signature

-- The digests that `publish` binds to the claim.
pub record Publication : Type 0 where
  pub rerun_core_sha256 : String
  pub atomic_chain_sha256 : String
  pub provider_call_chain_sha256 : String
  pub atomic_finalization_seal_sha256 : String
  pub execution_trajectory_sha256 : String

abbrev seal_fields : ExecutionSeal → List (String × Json)
seal_fields s =
    ("attempt_id", str s.attempt_id)
    ∷ ("distributed_policy_sha256", str s.distributed_policy_sha256)
    ∷ ("worker_claims", list (map claim_json s.worker_claims))
    ∷ ("final_worker_claim_sha256", str s.final_worker_claim_sha256)
    ∷ ("atomic_chain_sha256", str s.atomic_chain_sha256)
    ∷ ("provider_call_chain_sha256", str s.provider_call_chain_sha256)
    ∷ ("atomic_finalization_seal_sha256", str s.atomic_finalization_seal_sha256)
    ∷ ("execution_trajectory_sha256", str s.execution_trajectory_sha256)
    ∷ ("rerun_core_sha256", str s.rerun_core_sha256)
    ∷ ("published_at", str s.published_at)
    ∷ []

unfoldable pub seal_digest_payload : ExecutionSeal → Json
seal_digest_payload s = dict (seal_fields s)

unfoldable pub seal_payload : ExecutionSeal → Json
seal_payload s = dict (seal_fields s ++ (("publication_sha256", str s.publication_sha256) ∷ []))

module _ ⦃host : Host⦄ (key : RuntimeKey) where
  -- The digest and then the signature over it, which `claim_worker` adds to an unsigned claim.
  unfoldable pub sign_claim : WorkerClaim → WorkerClaim
  sign_claim unsigned =
      let tmp = record unsigned { claim_sha256 = sha256_object (claim_digest_payload unsigned) } in
      record tmp { runtime_signature = hmac_payload (claim_payload tmp) key }

  unfoldable pub sign_seal : ExecutionSeal → ExecutionSeal
  sign_seal unsigned =
      let tmp = record unsigned {
        publication_sha256 = sha256_object (seal_digest_payload unsigned);
      } in
      record tmp { runtime_signature = hmac_payload (seal_payload tmp) key }

  unfoldable pub verify_worker_claim_signature : WorkerClaim → List String
  verify_worker_claim_signature claim =
      (if same claim.claim_sha256 (sha256_object (claim_digest_payload claim))
        then []
        else "distributed-worker-claim-digest-mismatch" ∷ [])
      ++ (if same claim.runtime_signature (hmac_payload (claim_payload claim) key)
          then []
          else "distributed-worker-claim-signature-invalid" ∷ [])
