-- ===== src/Recovery/ProviderCalls/Opened.antt =====
-- The operations of an open ledger: the methods of `ProviderCallLedgerStore`.
use illusiontion.Prelude.{
  ℕ, String, Bool, true, false, not, ◌&&◌, ◌||◌, Option, none, some, List, map, value_error,
  validation_error, Result, ok, ◌>>=◌, ◌>>◌, raise_if, require, same, any, filter, update, is_blank,
  if◌then◌else◌,
}
use illusiontion.Host.{Host, sha256_text}
use illusiontion.Recovery.Records.Claims.{zero_digest}
use illusiontion.Recovery.Records.Actions.{Permit}
use illusiontion.Recovery.Records.Calls.{CallRecord, is_valid_record, sign_record}
use illusiontion.Recovery.Database.{
  Database, CallRow, in_flight, completed_call, Transaction, is_set, is_text,
}
use illusiontion.Recovery.Fencing.{assert_current_worker}
use illusiontion.Recovery.ProviderCalls.{
  Ledger, Invocation, is_in_flight, is_completed, has_id, fetch, insert_call, uncertain_row,
  truncate, mark_each, provider_call_id, invocation_json, encrypt_replay_text,
}

abbrev pub material_state : Bool → String
material_state private = if private then "ENCRYPTED_AVAILABLE" else "LEGACY_OR_AVAILABLE"

-- `if not row["invocation_json"] and not row["invocation_ciphertext"]`
abbrev pub lacks_envelope : CallRow → Bool
lacks_envelope row = not (is_set row.invocation_json) && not (is_set row.invocation_ciphertext)

-- A completed row of the same provider with the same response.
abbrev pub responds : (provider model_response_id : String) → CallRow → Bool
responds provider model_response_id row =
    is_completed row
    && is_text row.provider provider
    && is_text row.model_response_id model_response_id

abbrev pub text_or_empty : Option String → String
text_or_empty none = ""
text_or_empty (some text) = text

module _ ⦃host : Host⦄ (ledger : Ledger) where
  unfoldable pub assert_ledger_worker : Bool → Database → Result (Unit {0})
  assert_ledger_worker allow_published db =
      assert_current_worker ledger.key ledger.distributed_worker_claim
        ledger.require_distributed_claim allow_published db

  unfoldable pub mark_restart_in_flight_uncertain : (attempt_id : String) → Transaction (List ℕ)
  unfolding mark_each
  mark_restart_in_flight_uncertain attempt_id db = do
    assert_ledger_worker false db
    let rows = filter (λ row. same row.attempt_id attempt_id && is_in_flight row) db.provider_calls
    ok (
      map (λ (row : CallRow). row.step_index) rows,
      record db { provider_calls = mark_each rows db.provider_calls },
    )

  -- The row that `begin_call` inserts.
  unfoldable pub started_row :
      Permit → (invocation_sha256 : String) → Option Invocation → (nonce now : String) → CallRow
  started_row permit invocation_sha256 invocation nonce now =
      let id =
        provider_call_id permit.attempt_id permit.step_index permit.reviewer permit.permit_sha256 in
      record {
        attempt_id = permit.attempt_id;
        step_index = permit.step_index;
        reviewer = permit.reviewer;
        distributed_worker_claim_sha256 = elim (ledger.distributed_worker_claim) [
          | none ↦ none
          | some claim ↦ some claim.claim_sha256
        ];
        atomic_permit_sha256 = permit.permit_sha256;
        provider_call_id = id;
        invocation_sha256 = invocation_sha256;
        state = in_flight;
        started_at = now;
        completed_at = none;
        provider = none;
        model_id = none;
        model_response_id = none;
        raw_output_sha256 = none;
        call_record = none;
        uncertainty_detail = none;
        invocation_json = elim invocation [
          | none ↦ none
          | some envelope ↦
              if ledger.privacy_minimized then none else some (invocation_json envelope)
        ];
        raw_output = none;
        invocation_ciphertext = elim invocation [
          | none ↦ none
          | some envelope ↦
              if ledger.privacy_minimized
              then some
                  (encrypt_replay_text ledger.key id "invocation" (invocation_json envelope) nonce)
              else none
        ];
        raw_output_ciphertext = none;
        replay_material_state = material_state ledger.privacy_minimized;
      }

  unfoldable pub begin_call :
      Permit
      → (invocation_sha256 expected_call_id : String) → Option Invocation
      → (nonce now : String) → Transaction String
  unfolding insert_call
  begin_call permit invocation_sha256 expected_call_id invocation nonce now db = do
    let actual =
        provider_call_id permit.attempt_id permit.step_index permit.reviewer permit.permit_sha256
    raise_if (not (same actual expected_call_id))
        (value_error "provider-call-id-mismatch-before-network")
    raise_if
        (elim invocation [
          | none ↦ false
          | some envelope ↦ not (same envelope.invocation_sha256 invocation_sha256)
        ])
        (value_error "provider-call-invocation-envelope-digest-mismatch")
    raise_if
        (ledger.durable_reconciliation && elim invocation [ none ↦ true | some envelope ↦ false ])
        (value_error "v0.38-provider-call-requires-durable-invocation-envelope")
    assert_ledger_worker false db
    rows ←
        require
          (insert_call (started_row permit invocation_sha256 invocation nonce now)
            db.provider_calls)
          (value_error "provider-call-already-started-for-atomic-action")
    ok (actual, record db { provider_calls = rows })

  -- The record of a row's completion, before it is signed.
  unfoldable pub unsigned_record :
      CallRow → (provider model_id model_response_id raw_output now : String) → CallRecord
  unsigned_record row provider model_id model_response_id raw_output now = record {
    attempt_id = row.attempt_id;
    step_index = row.step_index;
    reviewer = row.reviewer;
    distributed_worker_claim_sha256 = text_or_empty row.distributed_worker_claim_sha256;
    atomic_permit_sha256 = row.atomic_permit_sha256;
    provider_call_id = row.provider_call_id;
    invocation_sha256 = row.invocation_sha256;
    provider = provider;
    model_id = model_id;
    model_response_id = model_response_id;
    raw_output_sha256 = sha256_text raw_output;
    started_at = row.started_at;
    completed_at = now;
    call_sha256 = zero_digest;
    runtime_signature = zero_digest;
  }

  -- What the UPDATE of `complete_call` writes into a row.
  unfoldable pub completed_row : CallRecord → (raw_output nonce : String) → CallRow → CallRow
  completed_row rec raw_output nonce row = record row {
    state = completed_call;
    completed_at = some rec.completed_at;
    provider = some rec.provider;
    model_id = some rec.model_id;
    model_response_id = some rec.model_response_id;
    raw_output_sha256 = some rec.raw_output_sha256;
    call_record = some rec;
    raw_output =
        if ledger.durable_reconciliation && not ledger.privacy_minimized
        then some raw_output
        else none;
    raw_output_ciphertext =
        if ledger.durable_reconciliation && ledger.privacy_minimized
        then some
            (encrypt_replay_text ledger.key rec.provider_call_id "raw_output" raw_output nonce)
        else none;
    replay_material_state = material_state ledger.privacy_minimized;
  }

  -- The unique index on completed responses repeats the test for a duplicate.
  unfoldable pub complete_call :
      (id provider model_id model_response_id raw_output nonce now : String)
      → Transaction CallRecord
  unfolding fetch unsigned_record completed_row
  complete_call id provider model_id model_response_id raw_output nonce now db = do
    raise_if (is_blank provider || is_blank model_id || is_blank model_response_id)
        (value_error "provider-call-completion-metadata-empty")
    assert_ledger_worker false db
    row ← require (fetch (has_id id) db.provider_calls) (value_error "provider-call-not-started")
    raise_if (not (is_in_flight row)) (value_error "provider-call-not-in-flight")
    raise_if (ledger.durable_reconciliation && lacks_envelope row)
        (value_error "v0.38-provider-call-missing-durable-invocation-envelope")
    raise_if (any (responds provider model_response_id) db.provider_calls)
        (value_error "provider-response-id-reused-across-actions")
    let unsigned = unsigned_record row provider model_id model_response_id raw_output now
    raise_if (not (is_valid_record unsigned)) validation_error
    let rec = sign_record ledger.key unsigned
    ok (
      rec,
      record db {
        provider_calls = update (has_id id) (completed_row rec raw_output nonce) db.provider_calls;
      },
    )

  unfoldable pub mark_uncertain : (id detail : String) → Transaction (Unit {0})
  unfolding fetch truncate
  mark_uncertain id detail db = do
    assert_ledger_worker false db
    row ← require (fetch (has_id id) db.provider_calls) (value_error "provider-call-not-started")
    raise_if (not (is_in_flight row)) (value_error "provider-call-not-in-flight")
    ok (
      tt,
      record db {
        provider_calls =
            update (has_id id) (uncertain_row (truncate 4096 detail)) db.provider_calls;
      },
    )
