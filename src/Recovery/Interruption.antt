-- ===== src/Recovery/Interruption.antt =====
-- `inspect_interrupted_attempt` of app/live_acquisition.py, over `attempt_progress` of
-- app/attempt_continuity.py: what may be resumed after an interruption.
pub mod Resumed
use illusiontion.Prelude.{
  ℕ, String, Bool, true, false, not, ◌||◌, Option, none, some, List, [], ◌∷◌, map, ltb, ◌==◌,
  length, get_elem?, if◌then◌else◌,
}
use illusiontion.Json.{Json, str, dict}
use illusiontion.Host.{Host, sha256_object}
use illusiontion.Recovery.Records.Claims.{ReviewerName}
use illusiontion.Recovery.Records.Actions.{Permit, Commit}
use illusiontion.Recovery.Database.{
  Database, AttemptRow, ActionRow, CallState, in_flight, completed_call, uncertain, order_by,
}
use illusiontion.Recovery.ActionStore.{load_permit, load_commit}
use illusiontion.Recovery.ProviderCalls.{state_for_step}

-- The dictionary that `attempt_progress` returns where the attempt exists.
pub record Progress : Type 0 where
  pub attempt_id : String
  pub lease_set_sha256 : String
  pub policy_sha256 : String
  pub next_step : ℕ
  pub state_sha256 : String
  pub in_flight_permit_sha256 : String
  pub completed : Bool
  pub actions : List (ℕ × Bool)

abbrev or_empty : Option String → String
or_empty none = ""
or_empty (some text) = text

abbrev is_committed : ActionRow → Bool
is_committed row = elim (row.commit) [ none ↦ false | some c ↦ true ]

unfoldable pub attempt_progress : String → Database → Option Progress
attempt_progress attempt_id db = elim (db.attempts attempt_id) [
  | none ↦ none
  | some row ↦ some (record {
    attempt_id = attempt_id;
    lease_set_sha256 = row.lease_set_sha256;
    policy_sha256 = row.policy_sha256;
    next_step = row.next_step;
    state_sha256 = row.state_sha256;
    in_flight_permit_sha256 = or_empty row.in_flight_permit_sha256;
    completed = row.completed;
    actions =
        map (λ (r : ActionRow). (r.step_index, is_committed r))
          (order_by (λ (r : ActionRow). r.step_index) (db.actions attempt_id));
  })
]

pub data Status : Type 0 where
  not_started invalid_state ready_for_idempotent_finalization resume_next_fresh_action : Status
  safe_pre_network_resume safe_durable_completion_reconciliation
        fail_closed_uncertain_provider_call :
      Status

-- The dictionary of an inspection; a key that is left out is "" or none.
pub record Inspection : Type 0 where
  pub attempt_id : String
  pub status : Status
  pub reason : String
  pub safe_to_resume : Bool
  pub next_step : ℕ
  pub reviewer : Option ReviewerName
  pub permit_sha256 : Option String
  pub provider_state : Option CallState
  pub interruption_policy_sha256 : String

abbrev interruption_policy : Json
interruption_policy = dict (
    ("domain", str "ILLUSIONTION_RECOVERY_INTERRUPTION_SEMANTICS_V0_38")
    ∷ ("permit_without_provider_row", str "SAFE_PRE_NETWORK_RESUME")
    ∷ ("provider_in_flight_or_uncertain", str "FAIL_CLOSED_NO_RETRY")
    ∷ ("provider_completed_without_atomic_commit", str "REPLAY_DURABLE_COMPLETION_NO_PROVIDER_CALL")
    ∷ ("atomic_commit_complete", str "RESUME_NEXT_STEP")
    ∷ ("completed_chain", str "IDEMPOTENT_FINALIZATION_ALLOWED")
    ∷ ("authority_scope", str "INTERRUPTION_RECOVERY_ONLY_NEVER_UPGRADES_VERDICT")
    ∷ [])

module _ ⦃host : Host⦄ where
  unfoldable pub interruption_policy_sha256 : String
  interruption_policy_sha256 = sha256_object interruption_policy

  -- A dictionary with a status, a reason and a step.
  abbrev report : String → Status → (reason : String) → (safe : Bool) → ℕ → Inspection
  report attempt_id status reason safe next_step = record {
    attempt_id = attempt_id;
    status = status;
    reason = reason;
    safe_to_resume = safe;
    next_step = next_step;
    reviewer = none;
    permit_sha256 = none;
    provider_state = none;
    interruption_policy_sha256 = interruption_policy_sha256;
  }

  -- The case of a permit with no commit at the next step. A state that the table cannot hold,
  -- which the source reports as invalid, is none of the three.
  abbrev with_permit : String → ℕ → Option ReviewerName → Permit → Option CallState → Inspection
  with_permit attempt_id next_step reviewer permit none =
      record (report attempt_id safe_pre_network_resume "" true next_step) {
        reviewer = reviewer;
        permit_sha256 = some permit.permit_sha256;
      }
  with_permit attempt_id next_step reviewer permit (some completed_call) =
      record (report attempt_id safe_durable_completion_reconciliation "" true next_step) {
        reviewer = reviewer;
        permit_sha256 = some permit.permit_sha256;
      }
  with_permit attempt_id next_step reviewer permit (some in_flight) =
      record (report attempt_id fail_closed_uncertain_provider_call "" false next_step) {
        reviewer = reviewer;
        permit_sha256 = some permit.permit_sha256;
        provider_state = some in_flight;
      }
  with_permit attempt_id next_step reviewer permit (some uncertain) =
      record (report attempt_id fail_closed_uncertain_provider_call "" false next_step) {
        reviewer = reviewer;
        permit_sha256 = some permit.permit_sha256;
        provider_state = some uncertain;
      }

  abbrev without_permit : String → ℕ → Option ReviewerName → Option CallState → Inspection
  without_permit attempt_id next_step reviewer (some state) =
      report attempt_id invalid_state "provider-row-without-atomic-permit" false next_step
  without_permit attempt_id next_step reviewer none =
      record (report attempt_id resume_next_fresh_action "" true next_step) { reviewer = reviewer }

  -- The cases of an attempt with a next step.
  unfoldable pub inspect_next :
      String
      → ℕ
      → Option ReviewerName
      → Option Permit
      → Option Commit
      → Option CallState
      → Inspection
  inspect_next attempt_id next_step reviewer permit (some commit) state =
      report attempt_id invalid_state "commit-exists-at-current-next-step" false next_step
  inspect_next attempt_id next_step reviewer none none state =
      without_permit attempt_id next_step reviewer state
  inspect_next attempt_id next_step reviewer (some permit) none state =
      with_permit attempt_id next_step reviewer permit state

  unfoldable pub inspect_interrupted_attempt : String → List ReviewerName → Database → Inspection
  unfolding attempt_progress inspect_next
  inspect_interrupted_attempt attempt_id reviewer_order db = elim (attempt_progress attempt_id db) [
    | none ↦ report attempt_id not_started "" false 0
    | some progress ↦
        if ltb (length reviewer_order) progress.next_step
        then report attempt_id invalid_state "next-step-exceeds-reviewer-count" false
            progress.next_step
        else if progress.completed || progress.next_step == length reviewer_order
        then report attempt_id ready_for_idempotent_finalization "" true progress.next_step
        else inspect_next attempt_id progress.next_step
            (get_elem? reviewer_order progress.next_step)
            (load_permit attempt_id progress.next_step db)
            (load_commit attempt_id progress.next_step db)
            (state_for_step attempt_id progress.next_step db)
  ]
