-- ===== src/Tests/Calls.antt =====
-- Tests of the provider call ledger: one call, completed.
use illusiontion.Prelude.{◌≡◌, ◌≢◌, refl, true, false, none, some, ok, is_blank}
use illusiontion.Host.{sha256_object, sha256_text, canonical_json, hmac_payload}
use illusiontion.Recovery.Records.Claims.{evidence}
use illusiontion.Recovery.Records.Calls.{
  CallRecord, is_valid_record, sign_record, record_digest_payload, record_payload,
}
use illusiontion.Recovery.Database.{Database, empty_database, CallRow}
use illusiontion.Recovery.Fencing.{assert_current_worker}
use illusiontion.Recovery.ProviderCalls.{Ledger, is_completed, has_id, fetch, provider_call_id}
use illusiontion.Recovery.ProviderCalls.Opened.{
  assert_ledger_worker, started_row, begin_call, complete_call, mark_uncertain,
}
use illusiontion.Recovery.ProviderCalls.Sound.{IsSoundLedger}
use illusiontion.Recovery.ProviderCalls.Runs.{
  LedgerRuns, start, then_step, starts, completes, LedgerRuns-IsSoundLedger,
}
use illusiontion.Recovery.ProviderCalls.Once.{begin_call-once, complete_call-once}
use illusiontion.Tests.{digest_a, digest_b, key, value_of, host}
use illusiontion.Tests.Actions.{nonce, now, permit}

abbrev pub ledger : Ledger
ledger = record {
  key = key;
  durable_reconciliation = false;
  privacy_minimized = false;
  distributed_worker_claim = none;
  require_distributed_claim = false;
}

abbrev pub call : CallRecord
call = record {
  attempt_id = digest_a;
  step_index = 0;
  reviewer = evidence;
  distributed_worker_claim_sha256 = "";
  atomic_permit_sha256 = digest_a;
  provider_call_id = digest_a;
  invocation_sha256 = digest_b;
  provider = "provider";
  model_id = "model";
  model_response_id = "response";
  raw_output_sha256 = digest_a;
  started_at = now;
  completed_at = now;
  call_sha256 = digest_a;
  runtime_signature = digest_a;
}

abbrev pub begun : Database
begun =
    (value_of (begin_call ledger permit digest_b digest_a none nonce now empty_database)
      (digest_a, empty_database)).1

abbrev completed : Database
completed =
    (value_of (complete_call ledger digest_a "provider" "model" "response" "output" nonce now begun)
      (call, begun)).1

pub begin_runs :
    begin_call ledger permit digest_b digest_a none nonce now empty_database ≡ ok (digest_a, begun)
unfolding begin_call complete_call started_row assert_ledger_worker assert_current_worker is_blank
    is_valid_record sign_record record_digest_payload record_payload provider_call_id sha256_object
    sha256_text canonical_json hmac_payload
begin_runs = refl

complete_runs :
    complete_call ledger digest_a "provider" "model" "response" "output" nonce now begun
    ≡ ok (call, completed)
unfolding begin_call complete_call started_row assert_ledger_worker assert_current_worker is_blank
    is_valid_record sign_record record_digest_payload record_payload provider_call_id sha256_object
    sha256_text canonical_json hmac_payload
complete_runs = refl

run_to_call : LedgerRuns key empty_database begun
run_to_call = then_step start (starts ledger permit digest_b digest_a none nonce now begin_runs)

LedgerRuns-IsSoundLedger_example : IsSoundLedger key begun.provider_calls
LedgerRuns-IsSoundLedger_example = LedgerRuns-IsSoundLedger key run_to_call

empty_sound : IsSoundLedger key empty_database.provider_calls
empty_sound = record { each = tt; apart = tt }

begin_call-once_example :
    begin_call ledger permit digest_b digest_a none nonce now completed ≢ ok (digest_a, completed)
begin_call-once_example =
    begin_call-once key ledger ledger permit permit digest_b digest_a digest_b digest_a none none
      nonce now nonce now empty_database empty_sound begin_runs
      (then_step start
        (completes ledger digest_a "provider" "model" "response" "output" nonce now complete_runs))
      refl refl

complete_call-once_example :
    ((s : CallRow) × (fetch (has_id digest_a) completed.provider_calls ≡ some s)
      × (is_completed s ≡ true)
      × (s.call_record ≡ some call))
    × (complete_call ledger digest_a "other" "model" "reply" "text" nonce now completed
        ≢ ok (call, completed))
    × (mark_uncertain ledger digest_a "lost" completed ≢ ok (tt, completed))
complete_call-once_example =
    complete_call-once key ledger ledger digest_a "provider" "model" "response" "output" nonce now
      begun (LedgerRuns-IsSoundLedger key run_to_call) complete_runs start "other" "model" "reply"
      "text" nonce now "lost"
