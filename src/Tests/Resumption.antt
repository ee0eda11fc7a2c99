-- ===== src/Tests/Resumption.antt =====
-- Tests of the inspection of an interrupted attempt.
use illusiontion.Prelude.{◌≡◌, ◌≢◌, refl, ◌⊎◌, false, true, none, some, [], ◌∷◌, arith}
use illusiontion.Host.{sha256_object}
use illusiontion.Recovery.Records.Claims.{evidence}
use illusiontion.Recovery.Database.{Database, AttemptRow, completed_call}
use illusiontion.Recovery.Fencing.{assert_current_worker}
use illusiontion.Recovery.ActionStore.{assert_worker, begin_attempt, load_permit, load_commit}
use illusiontion.Recovery.Chaining.{atomic_execution_policy_sha256, atomic_initial_state_sha256}
use illusiontion.Recovery.ActionStore.Invariant.{IsSound}
use illusiontion.Recovery.ProviderCalls.{state_for_step, provider_call_id}
use illusiontion.Recovery.ProviderCalls.Opened.{assert_ledger_worker, begin_call, started_row}
use illusiontion.Recovery.Interruption.{inspect_interrupted_attempt, invalid_state}
use illusiontion.Recovery.Interruption.Resumed.{
  inspect_interrupted_attempt-safe, inspect_interrupted_attempt-invalid,
}
use illusiontion.Recovery.System.{start, then_step, begins, Runs-IsSound}
use illusiontion.Tests.{digest_a, digest_b, key, host}
use illusiontion.Tests.Actions.{now, begun, begin_runs}
use illusiontion.Tests.Calls

abbrev row : AttemptRow
row = record {
  lease_set_sha256 = digest_b;
  policy_sha256 = digest_a;
  next_step = 0;
  state_sha256 = digest_a;
  in_flight_permit_sha256 = none;
  completed = false;
  created_at = now;
}

-- A provider call on record with no permit.
abbrev stray_call : Database
stray_call = record begun { provider_calls = (Calls.begun).provider_calls }

begun_row : begun.attempts digest_a ≡ some row
unfolding begin_attempt assert_worker begin_call assert_ledger_worker assert_current_worker
    started_row provider_call_id inspect_interrupted_attempt load_permit load_commit state_for_step
    atomic_execution_policy_sha256 atomic_initial_state_sha256 sha256_object
begun_row = refl

stray_row : stray_call.attempts digest_a ≡ some row
unfolding begin_attempt assert_worker begin_call assert_ledger_worker assert_current_worker
    started_row provider_call_id inspect_interrupted_attempt load_permit load_commit state_for_step
    atomic_execution_policy_sha256 atomic_initial_state_sha256 sha256_object
stray_row = refl

stray_call-IsSound : IsSound key stray_call
stray_call-IsSound = record {
  at = (Runs-IsSound key (then_step start (begins none false digest_a digest_b now begin_runs))).at;
}

begun_safe : (inspect_interrupted_attempt digest_a (evidence ∷ []) begun).safe_to_resume ≡ true
unfolding begin_attempt assert_worker begin_call assert_ledger_worker assert_current_worker
    started_row provider_call_id inspect_interrupted_attempt load_permit load_commit state_for_step
    atomic_execution_policy_sha256 atomic_initial_state_sha256 sha256_object
begun_safe = refl

stray_invalid :
    (inspect_interrupted_attempt digest_a (evidence ∷ []) stray_call).status ≡ invalid_state
unfolding begin_attempt assert_worker begin_call assert_ledger_worker assert_current_worker
    started_row provider_call_id inspect_interrupted_attempt load_permit load_commit state_for_step
    atomic_execution_policy_sha256 atomic_initial_state_sha256 sha256_object
stray_invalid = refl

inspect_interrupted_attempt-safe_example :
    (state_for_step digest_a 0 begun ≡ none)
    ⊎ (state_for_step digest_a 0 begun ≡ some completed_call)
inspect_interrupted_attempt-safe_example =
    inspect_interrupted_attempt-safe digest_a (evidence ∷ []) begun row begun_row refl (omega arith)
      begun_safe

inspect_interrupted_attempt-invalid_example :
    (load_permit digest_a 0 stray_call ≡ none) × (state_for_step digest_a 0 stray_call ≢ none)
inspect_interrupted_attempt-invalid_example =
    inspect_interrupted_attempt-invalid key digest_a (evidence ∷ []) stray_call row
      stray_call-IsSound stray_row refl (omega arith) stray_invalid
