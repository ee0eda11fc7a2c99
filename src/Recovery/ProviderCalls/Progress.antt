-- ===== src/Recovery/ProviderCalls/Progress.antt =====
-- What any calls of any ledgers leave of a row that a test of its identity finds.
use illusiontion.Prelude.{String, ◌≡◌, refl, Bool, some}
use illusiontion.Host.{Host, RuntimeKey}
use illusiontion.Recovery.Records.Calls.{CallRecord}
use illusiontion.Recovery.Database.{Database, CallRow, completed_call}
use illusiontion.Recovery.ProviderCalls.{Ledger, has_id, fetch, uncertain_row, truncate}
use illusiontion.Recovery.ProviderCalls.Opened.{completed_row}
use illusiontion.Recovery.ProviderCalls.Closed.{purged}
use illusiontion.Recovery.ProviderCalls.Effects.{
  begin_call-Starts, complete_call-Completes, mark_uncertain-Doubts, mark_restart-written,
  record_reconciliation-calls, purge-calls,
}
use illusiontion.Recovery.ProviderCalls.Sound.{IsSoundLedger, insert_call-eq-some}
use illusiontion.Recovery.ProviderCalls.Kept.{selected-Unfinished}
use illusiontion.Recovery.ProviderCalls.Settled.{
  Later, Later-refl, Later-trans, ByIdentity, fetch-append, fetch-update-Later,
}
use illusiontion.Recovery.ProviderCalls.Runs.{
  ledger_of, LedgerStep, starts, completes, doubts, restarts, reconciles, purges, elsewhere,
  LedgerRuns, start, then_step, LedgerRuns-keep, in_flight-Later, mark_each-Later,
}

module _ ⦃host : Host⦄ (key : RuntimeKey) where
  pub completed_row_identity :
      (l : Ledger) (rec : CallRecord) (raw nonce : String) (r : CallRow)
      → ((completed_row l rec raw nonce r).attempt_id ≡ r.attempt_id)
        × ((completed_row l rec raw nonce r).step_index ≡ r.step_index)
        × ((completed_row l rec raw nonce r).provider_call_id ≡ r.provider_call_id)
        × ((completed_row l rec raw nonce r).state ≡ completed_call)
        × ((completed_row l rec raw nonce r).call_record ≡ some rec)
  unfolding completed_row
  completed_row_identity l rec raw nonce r = (refl, refl, refl, refl, refl)

  LedgerStep-Later :
      {db after : Database} (p : CallRow → Bool) {r : CallRow}
      → ByIdentity p
      → IsSoundLedger key db.provider_calls
      → LedgerStep key db after
      → fetch p db.provider_calls ≡ some r
      → (s : CallRow) × (fetch p after.provider_calls ≡ some s) × Later r s
  LedgerStep-Later {db} p {r} by sound (starts l permit inv id invocation nonce now h) found =
      let f = begin_call-Starts (ledger_of key l) permit inv id invocation nonce now db h in
      let (rows, _) = insert_call-eq-some _ db.provider_calls f.inserted in
      (r, rw (f.written, rows) (fetch-append p db.provider_calls _ found), Later-refl r)
  LedgerStep-Later {db} p {r} by sound
        (completes l id provider model response raw nonce now {rec = rec} h) found =
      let f =
        complete_call-Completes (ledger_of key l) id provider model response raw nonce now db h in
      let g = completed_row (ledger_of key l) rec raw nonce in
      let same_as : (x : CallRow) → _ = completed_row_identity (ledger_of key l) rec raw nonce in
      let (s, at, later) =
        fetch-update-Later p (has_id id) g db.provider_calls by (λ x. (same_as x).0)
          (λ x. (same_as x).1) (λ x. (same_as x).2) found
          (in_flight-Later key p id g db.provider_calls sound.apart found f.found f.waiting
            (λ x. (same_as x).0) (λ x. (same_as x).1) (λ x. (same_as x).2)) in
      (s, rw f.written at, later)
  LedgerStep-Later {db} p {r} by sound (doubts l id detail h) found =
      let f = mark_uncertain-Doubts (ledger_of key l) id detail db h in
      let g = uncertain_row (truncate 4096 detail) in
      let (s, at, later) =
        fetch-update-Later p (has_id id) g db.provider_calls by (λ x. refl) (λ x. refl) (λ x. refl)
          found
          (in_flight-Later key p id g db.provider_calls sound.apart found f.found f.waiting
            (λ x. refl) (λ x. refl) (λ x. refl)) in
      (s, rw f.written at, later)
  LedgerStep-Later {db} p {r} by sound (restarts l a h) found =
      let (s, at, later) =
        mark_each-Later key p _ db.provider_calls by
          (selected-Unfinished (ledger_of key l) a db.provider_calls sound.apart) found in
      (s, rw (mark_restart-written (ledger_of key l) a db h) at, later)
  LedgerStep-Later {db} p {r} by sound (reconciles l rec now h) found =
      (r, rw (record_reconciliation-calls (ledger_of key l) rec now db h) found, Later-refl r)
  LedgerStep-Later {db} p {r} by sound (purges l a h) found =
      let (q, written) = purge-calls (ledger_of key l) a db h in
      let (s, at, later) =
        fetch-update-Later p q purged db.provider_calls by (λ x. refl) (λ x. refl) (λ x. refl) found
          (λ hit. record {
            attempt_id = refl;
            step_index = refl;
            call_id = refl;
            settled = λ e. (refl, refl);
          }) in
      (s, rw written at, later)
  LedgerStep-Later {db} p {r} by sound (elsewhere same_calls) found =
      (r, rw same_calls found, Later-refl r)

  pub LedgerRuns-Later :
      {db after : Database} (p : CallRow → Bool) {r : CallRow}
      → ByIdentity p
      → IsSoundLedger key db.provider_calls
      → LedgerRuns key db after
      → fetch p db.provider_calls ≡ some r
      → (s : CallRow) × (fetch p after.provider_calls ≡ some s) × Later r s
  LedgerRuns-Later p {r} by sound start found = (r, found, Later-refl r)
  LedgerRuns-Later p {r} by sound (then_step run step) found =
      let (s, at, later) = LedgerRuns-Later p by sound run found in
      let (t, at_end, more) = LedgerStep-Later p by (LedgerRuns-keep key run sound) step at in
      (t, at_end, Later-trans r s t later more)
