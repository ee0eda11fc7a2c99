-- ===== src/Recovery/ProviderCalls/Closed.antt =====
-- The methods of `ProviderCallLedgerStore` for completed calls: reconciliation, the purge of replay
-- material, and the chain of calls.
use illusiontion.Prelude.{
  ℕ, String, true, false, not, ◌||◌, Option, none, some, List, [], ◌∷◌, ◌++◌, value_error,
  validation_error, Result, ok, ◌>>=◌, ◌>>◌, raise_if, same, ◌==◌, any, filter, update, length,
  if◌then◌else◌,
}
use illusiontion.Host.{Host, sha256_object}
use illusiontion.Recovery.Records.Claims.{zero_digest}
use illusiontion.Recovery.Records.Calls.{
  CallRecord, Reconciliation, CallChain, is_valid_reconciliation, is_valid_call_chain,
  sign_reconciliation, call_chain_payload,
}
use illusiontion.Recovery.Database.{Database, CallRow, Transaction, order_by}
use illusiontion.Recovery.ActionStore.{claim_digest}
use illusiontion.Recovery.ProviderCalls.{
  Ledger, is_completed, completed_records, provider_call_policy_sha256,
}
use illusiontion.Recovery.ProviderCalls.Opened.{assert_ledger_worker}

abbrev pub purged : CallRow → CallRow
purged row = record row {
  invocation_json = none;
  raw_output = none;
  invocation_ciphertext = none;
  raw_output_ciphertext = none;
  replay_material_state = "PURGED";
}

module _ ⦃host : Host⦄ (ledger : Ledger) where
  unfoldable pub unsigned_reconciliation : CallRecord → String → Reconciliation
  unsigned_reconciliation rec now = record {
    attempt_id = rec.attempt_id;
    step_index = rec.step_index;
    reviewer = rec.reviewer;
    distributed_worker_claim_sha256 = claim_digest ledger.distributed_worker_claim;
    provider_call_id = rec.provider_call_id;
    call_sha256 = rec.call_sha256;
    invocation_sha256 = rec.invocation_sha256;
    raw_output_sha256 = rec.raw_output_sha256;
    reconciled_at = now;
    reconciliation_sha256 = zero_digest;
    runtime_signature = zero_digest;
  }

  unfoldable pub find_reconciliation : String → List Reconciliation → Option Reconciliation
  find_reconciliation id [] = none
  find_reconciliation id (r ∷ rs) =
      let rest = find_reconciliation id rs in if same r.provider_call_id id then some r else rest

  unfoldable pub record_reconciliation : CallRecord → String → Transaction Reconciliation
  unfolding find_reconciliation unsigned_reconciliation
  record_reconciliation rec now db = do
    assert_ledger_worker ledger false db
    elim (find_reconciliation rec.provider_call_id db.provider_reconciliations) [
      | some existing ↦ ok (existing, db)
      | none ↦ (do
        let unsigned = unsigned_reconciliation rec now
        raise_if (not (is_valid_reconciliation unsigned)) validation_error
        let signed = sign_reconciliation ledger.key unsigned
        ok (
          signed,
          record db { provider_reconciliations = db.provider_reconciliations ++ signed ∷ [] },
        ))
    ]

  unfoldable pub purge_private_replay_material : (attempt_id : String) → Transaction ℕ
  purge_private_replay_material attempt_id db =
      if not ledger.privacy_minimized then ok (0, db) else (do
        assert_ledger_worker ledger true db
        let rows = filter (λ row. same row.attempt_id attempt_id) db.provider_calls
        raise_if (length rows == 0 || any (λ row. not (is_completed row)) rows)
            (value_error "privacy-purge-requires-complete-provider-call-population")
        ok (
          length rows,
          record db {
            provider_calls =
                update (λ row. same row.attempt_id attempt_id) purged db.provider_calls;
          },
        ))

  unfoldable pub finalize_calls :
      (attempt_id : String) (expected_steps : ℕ) → Database → Result CallChain
  unfolding completed_records
  finalize_calls attempt_id expected_steps db = do
    let rows =
        order_by (λ row. row.step_index)
          (filter (λ (row : CallRow). same row.attempt_id attempt_id) db.provider_calls)
    let recs =
        order_by (λ r. r.step_index)
          (filter (λ (r : Reconciliation). same r.attempt_id attempt_id)
            db.provider_reconciliations)
    raise_if (not (length rows == expected_steps)) (value_error "provider-call-chain-incomplete")
    calls ← completed_records 0 rows
    let unsigned : CallChain = record {
      attempt_id = attempt_id;
      provider_call_policy_sha256 = provider_call_policy_sha256;
      calls = calls;
      reconciliations = recs;
      chain_sha256 = zero_digest;
    }
    raise_if (not (is_valid_call_chain unsigned)) validation_error
    ok (record unsigned { chain_sha256 = sha256_object (call_chain_payload unsigned) })
