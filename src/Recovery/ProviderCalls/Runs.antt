-- ===== src/Recovery/ProviderCalls/Runs.antt =====
-- Runs of the ledger: a step has one call, and a call that is completed or uncertain stays so.
use illusiontion.Prelude.{
  ℕ, String, ◌≡◌, refl, sym, ◌∙◌, Bool, true, false, Option, some, List, [], ◌∷◌, update, All, ok,
  eq_iff,
}
use illusiontion.Host.{Host, RuntimeKey}
use illusiontion.Recovery.Records.Actions.{Permit}
use illusiontion.Recovery.Records.Calls.{CallRecord, Reconciliation}
use illusiontion.Recovery.Database.{Database, CallRow, empty_database}
use illusiontion.Recovery.ProviderCalls.{
  Ledger, Invocation, is_in_flight, is_completed, has_id, fetch, uncertain_row, mark_each,
}
use illusiontion.Recovery.ProviderCalls.Opened.{
  mark_restart_in_flight_uncertain, begin_call, complete_call, mark_uncertain,
}
use illusiontion.Recovery.ProviderCalls.Closed.{
  record_reconciliation, purge_private_replay_material,
}
use illusiontion.Recovery.ProviderCalls.Rows.{
  AllApart, All-map, All-update, All-fetch, fetch_found, same_row,
}
use illusiontion.Recovery.ProviderCalls.Effects.{record_reconciliation-calls}
use illusiontion.Recovery.ProviderCalls.Sound.{IsSoundLedger, false-ne-true}
use illusiontion.Recovery.ProviderCalls.Started.{
  begin_call-IsSoundLedger, mark_uncertain-IsSoundLedger,
}
use illusiontion.Recovery.ProviderCalls.Kept.{
  Unfinished, complete_call-IsSoundLedger, purge-IsSoundLedger, mark_restart-IsSoundLedger,
}
use illusiontion.Recovery.ProviderCalls.Settled.{
  Later, Later-refl, Later-trans, ByIdentity, fetch-update-Later, marked_Later,
}

module _ ⦃host : Host⦄ (key : RuntimeKey) where
  abbrev pub ledger_of : Ledger → Ledger
  ledger_of ledger = record ledger { key = key }

  -- A successful call of any ledger with the key, or of another store, which leaves the table alone.
  pub data LedgerStep (db : Database) : Database → Type 0 where
    starts :
        (l : Ledger) (permit : Permit) (inv id : String) (invocation : Option Invocation)
        (nonce now : String) {actual : String} {after : Database}
        → begin_call (ledger_of l) permit inv id invocation nonce now db ≡ ok (actual, after)
        → LedgerStep db after
    completes :
        (l : Ledger) (id provider model response raw nonce now : String) {rec : CallRecord}
        {after : Database}
        → complete_call (ledger_of l) id provider model response raw nonce now db ≡ ok (rec, after)
        → LedgerStep db after
    doubts :
        (l : Ledger) (id detail : String) {after : Database}
        → mark_uncertain (ledger_of l) id detail db ≡ ok (tt, after)
        → LedgerStep db after
    restarts :
        (l : Ledger) (a : String) {steps : List ℕ} {after : Database}
        → mark_restart_in_flight_uncertain (ledger_of l) a db ≡ ok (steps, after)
        → LedgerStep db after
    reconciles :
        (l : Ledger) (rec : CallRecord) (now : String) {r : Reconciliation} {after : Database}
        → record_reconciliation (ledger_of l) rec now db ≡ ok (r, after)
        → LedgerStep db after
    purges :
        (l : Ledger) (a : String) {n : ℕ} {after : Database}
        → purge_private_replay_material (ledger_of l) a db ≡ ok (n, after)
        → LedgerStep db after
    elsewhere : {after : Database} → after.provider_calls ≡ db.provider_calls → LedgerStep db after

  pub data LedgerRuns (db : Database) : Database → Type 0 where
    start : LedgerRuns db db
    then_step :
        {mid after : Database} → LedgerRuns db mid → LedgerStep mid after → LedgerRuns db after

  pub LedgerStep-IsSoundLedger :
      {db after : Database}
      → LedgerStep db after
      → IsSoundLedger key db.provider_calls
      → IsSoundLedger key after.provider_calls
  LedgerStep-IsSoundLedger {db} (starts l permit inv id invocation nonce now h) sound =
      begin_call-IsSoundLedger (ledger_of l) permit inv id invocation nonce now db h sound
  LedgerStep-IsSoundLedger {db} (completes l id provider model response raw nonce now h) sound =
      complete_call-IsSoundLedger (ledger_of l) id provider model response raw nonce now db h sound
  LedgerStep-IsSoundLedger {db} (doubts l id detail h) sound =
      mark_uncertain-IsSoundLedger (ledger_of l) id detail db h sound
  LedgerStep-IsSoundLedger {db} (restarts l a h) sound =
      mark_restart-IsSoundLedger (ledger_of l) a db h sound
  LedgerStep-IsSoundLedger {db} (reconciles l rec now h) sound =
      rw (record_reconciliation-calls (ledger_of l) rec now db h) sound
  LedgerStep-IsSoundLedger {db} (purges l a h) sound =
      purge-IsSoundLedger (ledger_of l) a db h sound
  LedgerStep-IsSoundLedger (elsewhere same_calls) sound = rw same_calls sound

  -- In each database that ledger calls lead to from the empty one, every call id is the one that
  -- its row's permit determines and stands once, a completed row holds a signed record of its own
  -- call, other rows hold none, and no two completed rows share a provider's response.
  pub LedgerRuns-IsSoundLedger :
      {db : Database} → LedgerRuns empty_database db → IsSoundLedger key db.provider_calls
  LedgerRuns-IsSoundLedger start = record { each = tt; apart = tt }
  LedgerRuns-IsSoundLedger (then_step run step) =
      LedgerStep-IsSoundLedger step (LedgerRuns-IsSoundLedger run)

  pub LedgerRuns-keep :
      {db after : Database}
      → LedgerRuns db after
      → IsSoundLedger key db.provider_calls
      → IsSoundLedger key after.provider_calls
  LedgerRuns-keep start sound = sound
  LedgerRuns-keep (then_step run step) sound =
      LedgerStep-IsSoundLedger step (LedgerRuns-keep run sound)

  -- A row that a call finds by its id in flight is not a settled row.
  pub in_flight-Later :
      (p : CallRow → Bool) (id : String) (f : CallRow → CallRow) (rows : List CallRow)
      {r row : CallRow}
      → AllApart rows
      → fetch p rows ≡ some r
      → fetch (has_id id) rows ≡ some row
      → is_in_flight row ≡ true
      → ((x : CallRow) → (f x).attempt_id ≡ x.attempt_id)
      → ((x : CallRow) → (f x).step_index ≡ x.step_index)
      → ((x : CallRow) → (f x).provider_call_id ≡ x.provider_call_id)
      → has_id id r ≡ true
      → Later r (f r)
  in_flight-Later p id f rows {r} {row} apart found here waiting a i c hit =
      let is_row = same_row p (has_id id) rows apart found here (
        (eq_iff r.provider_call_id id).0 hit
        ∙ sym ((eq_iff row.provider_call_id id).0 (fetch_found (has_id id) rows here))) in
      record {
        attempt_id = a r;
        step_index = i r;
        call_id = c r;
        settled = λ e. absurd (false-ne-true (sym e ∙ rw is_row waiting));
      }

  pub mark_each-Later :
      (p : CallRow → Bool) (selected rows : List CallRow) {r : CallRow}
      → ByIdentity p
      → All (Unfinished rows) selected
      → fetch p rows ≡ some r
      → (s : CallRow) × (fetch p (mark_each selected rows) ≡ some s) × Later r s
  unfolding mark_each
  mark_each-Later p [] rows {r} by un found = (r, found, Later-refl r)
  mark_each-Later p (q ∷ qs) rows {r} by un found =
      let mark = uncertain_row "PROCESS_RESTART_WITH_IN_FLIGHT_PROVIDER_CALL" in
      let marked = update (has_id q.provider_call_id) mark rows in
      let still : All (Unfinished marked) qs =
        All-map (Unfinished rows) (Unfinished marked)
          (λ x u.
            All-update (λ s. s.provider_call_id ≡ x.provider_call_id → is_completed s ≡ false)
              (has_id q.provider_call_id) mark (λ s _ g e. refl) rows u)
          qs un.1 in
      let (s, at, later) =
        fetch-update-Later p (has_id q.provider_call_id) mark rows by (λ x. refl) (λ x. refl)
          (λ x. refl) found
          (λ hit. marked_Later _ r (
            All-fetch (λ s. s.provider_call_id ≡ q.provider_call_id → is_completed s ≡ false) p rows
              found un.0 ((eq_iff r.provider_call_id q.provider_call_id).0 hit))) in
      let (t, at_end, rest) = mark_each-Later p qs marked by still at in
      (t, at_end, Later-trans r s t later rest)
