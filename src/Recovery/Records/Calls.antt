-- ===== src/Recovery/Records/Calls.antt =====
-- The provider call, its reconciliation and the chain of calls: the models of app/security.py, and
-- the payloads over them in app/receipts.py.
use illusiontion.Prelude.{ℕ, String, Bool, ◌&&◌, List, [], ◌∷◌, ◌++◌, map, leb, length}
use illusiontion.Json.{Json, str, num, dict, list, unless_empty}
use illusiontion.Host.{Host, RuntimeKey, sha256_object, hmac_payload}
use illusiontion.Recovery.Records.Claims.{ReviewerName, reviewer_text, length_within, is_digest}

pub record CallRecord : Type 0 where
  pub attempt_id : String
  pub step_index : ℕ
  pub reviewer : ReviewerName
  pub distributed_worker_claim_sha256 : String
  pub atomic_permit_sha256 : String
  pub provider_call_id : String
  pub invocation_sha256 : String
  pub provider : String
  pub model_id : String
  pub model_response_id : String
  pub raw_output_sha256 : String
  pub started_at : String
  pub completed_at : String
  pub call_sha256 : String
  pub runtime_signature : String

unfoldable pub is_valid_record : CallRecord → Bool
is_valid_record r =
    is_digest r.attempt_id
    && leb r.step_index 31
    && length_within 0 64 r.distributed_worker_claim_sha256
    && is_digest r.atomic_permit_sha256
    && is_digest r.provider_call_id
    && is_digest r.invocation_sha256
    && length_within 1 512 r.provider
    && length_within 1 512 r.model_id
    && length_within 1 1024 r.model_response_id
    && is_digest r.raw_output_sha256
    && length_within 1 128 r.started_at
    && length_within 1 128 r.completed_at
    && is_digest r.call_sha256
    && is_digest r.runtime_signature

abbrev record_fields : CallRecord → List (String × Json)
record_fields r =
    ("attempt_id", str r.attempt_id)
    ∷ ("step_index", num r.step_index)
    ∷ ("reviewer", str (reviewer_text r.reviewer))
    ∷ (unless_empty "distributed_worker_claim_sha256" r.distributed_worker_claim_sha256
        ++ (("atomic_permit_sha256", str r.atomic_permit_sha256)
            ∷ ("provider_call_id", str r.provider_call_id)
            ∷ ("invocation_sha256", str r.invocation_sha256)
            ∷ ("provider", str r.provider)
            ∷ ("model_id", str r.model_id)
            ∷ ("model_response_id", str r.model_response_id)
            ∷ ("raw_output_sha256", str r.raw_output_sha256)
            ∷ ("started_at", str r.started_at)
            ∷ ("completed_at", str r.completed_at)
            ∷ []))

unfoldable pub record_digest_payload : CallRecord → Json
record_digest_payload r = dict (record_fields r)

unfoldable pub record_payload : CallRecord → Json
record_payload r = dict (record_fields r ++ (("call_sha256", str r.call_sha256) ∷ []))

-- `mode` has one value.
pub record Reconciliation : Type 0 where
  pub attempt_id : String
  pub step_index : ℕ
  pub reviewer : ReviewerName
  pub distributed_worker_claim_sha256 : String
  pub provider_call_id : String
  pub call_sha256 : String
  pub invocation_sha256 : String
  pub raw_output_sha256 : String
  pub reconciled_at : String
  pub reconciliation_sha256 : String
  pub runtime_signature : String

unfoldable pub is_valid_reconciliation : Reconciliation → Bool
is_valid_reconciliation r =
    is_digest r.attempt_id
    && leb r.step_index 31
    && length_within 0 64 r.distributed_worker_claim_sha256
    && is_digest r.provider_call_id
    && is_digest r.call_sha256
    && is_digest r.invocation_sha256
    && is_digest r.raw_output_sha256
    && length_within 1 128 r.reconciled_at
    && is_digest r.reconciliation_sha256
    && is_digest r.runtime_signature

abbrev reconciliation_fields : Reconciliation → List (String × Json)
reconciliation_fields r =
    ("attempt_id", str r.attempt_id)
    ∷ ("step_index", num r.step_index)
    ∷ ("reviewer", str (reviewer_text r.reviewer))
    ∷ (unless_empty "distributed_worker_claim_sha256" r.distributed_worker_claim_sha256
        ++ (("provider_call_id", str r.provider_call_id)
            ∷ ("call_sha256", str r.call_sha256)
            ∷ ("invocation_sha256", str r.invocation_sha256)
            ∷ ("raw_output_sha256", str r.raw_output_sha256)
            ∷ ("mode", str "DURABLE_COMPLETION_REPLAY_NO_PROVIDER_CALL")
            ∷ ("reconciled_at", str r.reconciled_at)
            ∷ []))

unfoldable pub reconciliation_digest_payload : Reconciliation → Json
reconciliation_digest_payload r = dict (reconciliation_fields r)

unfoldable pub reconciliation_payload : Reconciliation → Json
reconciliation_payload r =
    dict (reconciliation_fields r ++ (("reconciliation_sha256", str r.reconciliation_sha256) ∷ []))

pub record CallChain : Type 0 where
  pub attempt_id : String
  pub provider_call_policy_sha256 : String
  pub calls : List CallRecord
  pub reconciliations : List Reconciliation
  pub chain_sha256 : String

unfoldable pub is_valid_call_chain : CallChain → Bool
is_valid_call_chain c =
    is_digest c.attempt_id
    && is_digest c.provider_call_policy_sha256
    && (leb 1 (length c.calls) && leb (length c.calls) 16)
    && leb (length c.reconciliations) 16
    && is_digest c.chain_sha256

-- The dump of a call inside a chain: every field, the claim also where it is empty.
abbrev record_json : CallRecord → Json
record_json r = dict (
    ("attempt_id", str r.attempt_id)
    ∷ ("step_index", num r.step_index)
    ∷ ("reviewer", str (reviewer_text r.reviewer))
    ∷ ("distributed_worker_claim_sha256", str r.distributed_worker_claim_sha256)
    ∷ ("atomic_permit_sha256", str r.atomic_permit_sha256)
    ∷ ("provider_call_id", str r.provider_call_id)
    ∷ ("invocation_sha256", str r.invocation_sha256)
    ∷ ("provider", str r.provider)
    ∷ ("model_id", str r.model_id)
    ∷ ("model_response_id", str r.model_response_id)
    ∷ ("raw_output_sha256", str r.raw_output_sha256)
    ∷ ("started_at", str r.started_at)
    ∷ ("completed_at", str r.completed_at)
    ∷ ("call_sha256", str r.call_sha256)
    ∷ ("runtime_signature", str r.runtime_signature)
    ∷ [])

abbrev reconciliation_json : Reconciliation → Json
reconciliation_json r = dict (
    ("attempt_id", str r.attempt_id)
    ∷ ("step_index", num r.step_index)
    ∷ ("reviewer", str (reviewer_text r.reviewer))
    ∷ ("distributed_worker_claim_sha256", str r.distributed_worker_claim_sha256)
    ∷ ("provider_call_id", str r.provider_call_id)
    ∷ ("call_sha256", str r.call_sha256)
    ∷ ("invocation_sha256", str r.invocation_sha256)
    ∷ ("raw_output_sha256", str r.raw_output_sha256)
    ∷ ("mode", str "DURABLE_COMPLETION_REPLAY_NO_PROVIDER_CALL")
    ∷ ("reconciled_at", str r.reconciled_at)
    ∷ ("reconciliation_sha256", str r.reconciliation_sha256)
    ∷ ("runtime_signature", str r.runtime_signature)
    ∷ [])

abbrev reconciliation_entries : List Reconciliation → List (String × Json)
reconciliation_entries [] = []
reconciliation_entries (r ∷ rs) = ("reconciliations", list (map reconciliation_json (r ∷ rs))) ∷ []

-- `_chain_payload`: without reconciliations their key is left out.
unfoldable pub call_chain_payload : CallChain → Json
call_chain_payload c = dict (
    ("attempt_id", str c.attempt_id)
    ∷ ("provider_call_policy_sha256", str c.provider_call_policy_sha256)
    ∷ ("calls", list (map record_json c.calls))
    ∷ reconciliation_entries c.reconciliations)

module _ ⦃host : Host⦄ (key : RuntimeKey) where
  unfoldable pub sign_record : CallRecord → CallRecord
  sign_record unsigned =
      let tmp = record unsigned { call_sha256 = sha256_object (record_digest_payload unsigned) } in
      record tmp { runtime_signature = hmac_payload (record_payload tmp) key }

  unfoldable pub sign_reconciliation : Reconciliation → Reconciliation
  sign_reconciliation unsigned =
      let tmp = record unsigned {
        reconciliation_sha256 = sha256_object (reconciliation_digest_payload unsigned);
      } in
      record tmp { runtime_signature = hmac_payload (reconciliation_payload tmp) key }
