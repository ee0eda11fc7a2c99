-- ===== src/Recovery/ActionStore/Verify.antt =====
-- `verify_atomic_execution_chain` of app/attempt_continuity.py.
use illusiontion.Prelude.{
  ℕ, zero, suc, String, Bool, ◌&&◌, List, [], ◌∷◌, ◌++◌, length, same, ◌==◌, show, ◌<>◌, sorted_set,
  failures, if◌then◌else◌,
}
use illusiontion.Host.{Host, RuntimeKey, sha256_object, hmac_payload}
use illusiontion.Recovery.Records.Claims.{ReviewerName, is_reviewer, is_class}
use illusiontion.Recovery.Records.Actions.{
  ActionStep, Chain, Trace, permit_digest_payload, permit_payload, commit_digest_payload,
  commit_payload, chain_payload,
}
use illusiontion.Recovery.Chaining.{
  atomic_execution_policy_sha256, atomic_initial_state_sha256, atomic_next_state_sha256,
  action_attempt_context_sha256,
}

-- `provider_call_chain.calls[idx].provider_call_id`, or "" where there is no such call.
unfoldable pub call_id_at : List String → ℕ → String
call_id_at [] i = ""
call_id_at (x ∷ xs) zero = x
call_id_at (x ∷ xs) (suc i) = call_id_at xs i

module _ ⦃host : Host⦄ (key : RuntimeKey) (attempt_id attempt_lease_set_sha256 : String)
    (call_ids : List String) where
  -- The tests on one step, each with the message of its failure.
  unfoldable pub step_checks :
      ℕ → (state : String) → ReviewerName → ActionStep → Trace → List (Bool × String)
  step_checks idx state reviewer step trace =
      let permit = step.permit in
      let commit = step.commit in
      (
        permit.step_index == idx && commit.step_index == idx,
        "atomic-step-index-mismatch:" <> show idx,
      )
      ∷ (
        is_reviewer permit.reviewer reviewer
            && is_reviewer commit.reviewer reviewer
            && is_reviewer trace.reviewer reviewer,
        "atomic-step-reviewer-mismatch:" <> show idx,
      )
      ∷ (
        same permit.attempt_id attempt_id && same commit.attempt_id attempt_id,
        "atomic-step-attempt-mismatch:" <> show idx,
      )
      ∷ (
        same permit.attempt_lease_set_sha256 attempt_lease_set_sha256,
        "atomic-step-lease-set-mismatch:" <> show idx,
      )
      ∷ (
        same permit.prior_state_sha256 state && same commit.prior_state_sha256 state,
        "atomic-step-prior-state-mismatch:" <> show idx,
      )
      ∷ (
        same permit.permit_sha256 (sha256_object (permit_digest_payload permit)),
        "atomic-permit-digest-mismatch:" <> show idx,
      )
      ∷ (
        same permit.runtime_signature (hmac_payload (permit_payload permit) key),
        "atomic-permit-signature-invalid:" <> show idx,
      )
      ∷ (
        same trace.attempt_context_sha256 (
            action_attempt_context_sha256 attempt_lease_set_sha256 permit.permit_sha256
              (call_id_at call_ids idx)),
        "atomic-review-invocation-context-mismatch:" <> show idx,
      )
      ∷ (
        same commit.permit_sha256 permit.permit_sha256,
        "atomic-commit-permit-mismatch:" <> show idx,
      )
      ∷ (
        is_class commit.action_class trace.action_class,
        "atomic-commit-classification-mismatch:" <> show idx,
      )
      ∷ (
        same commit.receipt_signature trace.receipt_signature,
        "atomic-commit-receipt-mismatch:" <> show idx,
      )
      ∷ (
        same commit.next_state_sha256 (
            atomic_next_state_sha256 state permit.permit_sha256 commit.action_class
              commit.receipt_signature),
        "atomic-commit-next-state-mismatch:" <> show idx,
      )
      ∷ (
        same commit.commit_sha256 (sha256_object (commit_digest_payload commit)),
        "atomic-commit-digest-mismatch:" <> show idx,
      )
      ∷ (
        same commit.runtime_signature (hmac_payload (commit_payload commit) key),
        "atomic-commit-signature-invalid:" <> show idx,
      )
      ∷ []

  -- The loop over the zipped reviewers, steps and traces: the errors, and the state it ends in.
  unfoldable pub walk_steps :
      ℕ → (state : String) → List ReviewerName → List ActionStep → List Trace → List String × String
  unfolding step_checks
  walk_steps idx state (reviewer ∷ reviewers) (step ∷ steps) (trace ∷ traces) =
      let next =
        atomic_next_state_sha256 state step.permit.permit_sha256 step.commit.action_class
          step.commit.receipt_signature in
      let (errors, final) = walk_steps (suc idx) next reviewers steps traces in
      (failures (step_checks idx state reviewer step trace) ++ errors, final)
  walk_steps idx state _ _ _ = ([], state)

  unfoldable pub chain_checks : Chain → List (Bool × String)
  chain_checks chain =
      (same chain.attempt_id attempt_id, "atomic-chain-attempt-id-mismatch")
      ∷ (
        same chain.attempt_lease_set_sha256 attempt_lease_set_sha256,
        "atomic-chain-lease-set-mismatch",
      )
      ∷ (
        same chain.atomic_policy_sha256 atomic_execution_policy_sha256,
        "atomic-chain-policy-mismatch",
      )
      ∷ (
        same chain.initial_state_sha256
            (atomic_initial_state_sha256 attempt_id attempt_lease_set_sha256),
        "atomic-chain-initial-state-mismatch",
      )
      ∷ (
        same chain.chain_sha256 (sha256_object (chain_payload chain)),
        "atomic-chain-digest-mismatch",
      )
      ∷ []

  unfoldable pub verify_atomic_execution_chain :
      Chain → (reviewer_order : List ReviewerName) → List Trace → List String
  unfolding chain_checks walk_steps
  verify_atomic_execution_chain chain reviewer_order traces =
      let errors = failures (chain_checks chain) in
      let walked =
        walk_steps 0 (atomic_initial_state_sha256 attempt_id attempt_lease_set_sha256)
          reviewer_order chain.steps traces in
      if length chain.steps == length reviewer_order && length traces == length reviewer_order
      then sorted_set (
          errors
          ++ (walked.0
              ++ failures (
                  (same chain.final_state_sha256 walked.1, "atomic-chain-final-state-mismatch")
                  ∷ [])))
      else sorted_set (errors ++ "atomic-chain-reviewer-cardinality-mismatch" ∷ [])
