-- ===== src/Recovery/Chaining.antt =====
-- The states of an attempt's hash chain and the context of a reviewer's invocation: the digests of
-- app/attempt_continuity.py.
use illusiontion.Prelude.{String, [], ◌∷◌, same, if◌then◌else◌}
use illusiontion.Json.{Json, str, dict}
use illusiontion.Host.{Host, sha256_object}
use illusiontion.Recovery.Records.Claims.{ActionClass, class_text}

abbrev atomic_policy : Json
atomic_policy = dict (
    ("domain", str "ILLUSIONTION_ATOMIC_ACTION_EXECUTION_V0_35")
    ∷ ("ordering", str "ONE_IN_FLIGHT_REVIEWER_ACTION_PER_ATTEMPT")
    ∷ ("permit_rule", str "ATOMIC_COMPARE_AND_SWAP_BEFORE_PROVIDER_CALL")
    ∷ ("commit_rule", str "CLASSIFY_AND_COMMIT_BEFORE_NEXT_ACTION")
    ∷ ("learning_authority", str "NEGATIVE_ONLY_NEVER_UPGRADES_VERDICT")
    ∷ [])

module _ ⦃host : Host⦄ where
  unfoldable pub atomic_execution_policy_sha256 : String
  atomic_execution_policy_sha256 = sha256_object atomic_policy

  unfoldable pub atomic_initial_state_sha256 :
      (attempt_id attempt_lease_set_sha256 : String) → String
  atomic_initial_state_sha256 attempt_id attempt_lease_set_sha256 = sha256_object (
      dict (
        ("domain", str "ILLUSIONTION_ATOMIC_ATTEMPT_INITIAL_STATE_V0_35")
        ∷ ("attempt_id", str attempt_id)
        ∷ ("attempt_lease_set_sha256", str attempt_lease_set_sha256)
        ∷ ("atomic_policy_sha256", str atomic_execution_policy_sha256)
        ∷ []))

  unfoldable pub atomic_next_state_payload :
      (prior_state_sha256 permit_sha256 : String) → ActionClass → String → Json
  atomic_next_state_payload prior_state_sha256 permit_sha256 action_class receipt_signature = dict (
      ("domain", str "ILLUSIONTION_ATOMIC_ATTEMPT_ACTION_COMMIT_V0_35")
      ∷ ("prior_state_sha256", str prior_state_sha256)
      ∷ ("permit_sha256", str permit_sha256)
      ∷ ("action_class", str (class_text action_class))
      ∷ ("receipt_signature", str receipt_signature)
      ∷ [])

  unfoldable pub atomic_next_state_sha256 :
      (prior_state_sha256 permit_sha256 : String) → ActionClass → String → String
  unfolding atomic_next_state_payload
  atomic_next_state_sha256 prior_state_sha256 permit_sha256 action_class receipt_signature =
      sha256_object
        (atomic_next_state_payload prior_state_sha256 permit_sha256 action_class receipt_signature)

  -- Binds the permit, and the provider call where there is one, into the reviewer's invocation.
  unfoldable pub action_attempt_context_sha256 :
      (attempt_lease_set_sha256 permit_sha256 provider_call_id : String) → String
  action_attempt_context_sha256 attempt_lease_set_sha256 permit_sha256 provider_call_id =
      sha256_object (
        dict (
          ("domain", str "ILLUSIONTION_RECOVERY_ACTION_INVOCATION_CONTEXT_V0_35")
          ∷ ("attempt_lease_set_sha256", str attempt_lease_set_sha256)
          ∷ ("permit_sha256", str permit_sha256)
          ∷ (if same provider_call_id ""
              then []
              else ("provider_call_id", str provider_call_id)
                ∷ ("provider_binding_domain", str "ILLUSIONTION_PROVIDER_CALL_CONTEXT_V0_37")
                ∷ [])))
