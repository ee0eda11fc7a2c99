-- ===== src/Recovery/ProviderCalls/Effects.antt =====
-- What a successful call of the ledger has checked and written.
use illusiontion.Prelude.{
  ℕ, String, ◌≡◌, refl, sym, ap, ◌∙◌, Bool, true, false, ◌&&◌, Option, some, List, [], ◌∷◌, arith,
  same, any, filter, update, Option-cases, Bool-cases, inl, inr, ok,
}
use illusiontion.Host.{Host}
use illusiontion.Recovery.Records.Actions.{Permit}
use illusiontion.Recovery.Records.Calls.{CallRecord, Reconciliation, sign_record}
use illusiontion.Recovery.Database.{Database, CallRow}
use illusiontion.Recovery.ProviderCalls.{
  Ledger, Invocation, is_in_flight, has_id, fetch, insert_call, uncertain_row, truncate, mark_each,
}
use illusiontion.Recovery.ProviderCalls.Opened.{
  mark_restart_in_flight_uncertain, started_row, begin_call, unsigned_record, completed_row,
  responds, complete_call, mark_uncertain,
}
use illusiontion.Recovery.ProviderCalls.Closed.{
  record_reconciliation, find_reconciliation, purge_private_replay_material, purged,
}

update_none : (rows : List CallRow) → update (λ row. false) purged rows ≡ rows
update_none [] = refl
update_none (r ∷ rs) = rw (update_none rs) refl

module _ ⦃host : Host⦄ (ledger : Ledger) where
  pub record Starts (permit : Permit) (invocation_sha256 : String) (invocation : Option Invocation)
      (nonce now : String) (db after : Database) : Type 0 where
    pub rows : List CallRow
    pub inserted :
        insert_call
          (started_row ledger permit invocation_sha256 invocation nonce now)
          db.provider_calls
        ≡ some rows
    pub written : after ≡ record db { provider_calls = rows }

  pub begin_call-Starts :
      (permit : Permit) (invocation_sha256 id : String) (invocation : Option Invocation)
      (nonce now : String) (db : Database) {actual : String} {after : Database}
      → begin_call ledger permit invocation_sha256 id invocation nonce now db ≡ ok (actual, after)
      → Starts permit invocation_sha256 invocation nonce now db after
  unfolding begin_call
  begin_call-Starts permit inv id invocation nonce now db h =
      elim (Option-cases
        (insert_call (started_row ledger permit inv invocation nonce now) db.provider_calls)) [
          | inl clash ↦ absurd (ground arith)
          | inr (rows, inserted) ↦ record {
            rows = rows;
            inserted = inserted;
            written = ground arith;
          }
        ]

  pub record Completes (id provider model_id response raw_output nonce now : String) (db : Database)
      (rec : CallRecord) (after : Database) : Type 0 where
    pub row : CallRow
    pub found : fetch (has_id id) db.provider_calls ≡ some row
    pub waiting : is_in_flight row ≡ true
    pub fresh : any (responds provider response) db.provider_calls ≡ false
    pub signed :
        rec
        ≡ sign_record ledger.key
            (unsigned_record ledger row provider model_id response raw_output now)
    pub written : after ≡ record db {
      provider_calls =
          update (has_id id) (completed_row ledger rec raw_output nonce) db.provider_calls;
    }

  pub complete_call-Completes :
      (id provider model_id response raw_output nonce now : String) (db : Database)
      {rec : CallRecord} {after : Database}
      → complete_call ledger id provider model_id response raw_output nonce now db ≡ ok (rec, after)
      → Completes id provider model_id response raw_output nonce now db rec after
  unfolding complete_call
  complete_call-Completes id provider model_id response raw_output nonce now db h =
      elim (Option-cases (fetch (has_id id) db.provider_calls)) [
        | inl missing ↦ absurd (ground arith)
        | inr (row, found) ↦ record {
          row = row;
          found = found;
          waiting = ground arith;
          fresh = ground arith;
          signed = ground arith;
          written = ground arith;
        }
      ]

  pub record Doubts (id detail : String) (db after : Database) : Type 0 where
    pub row : CallRow
    pub found : fetch (has_id id) db.provider_calls ≡ some row
    pub waiting : is_in_flight row ≡ true
    pub written : after ≡ record db {
      provider_calls = update (has_id id) (uncertain_row (truncate 4096 detail)) db.provider_calls;
    }

  pub mark_uncertain-Doubts :
      (id detail : String) (db : Database) {after : Database}
      → mark_uncertain ledger id detail db ≡ ok (tt, after)
      → Doubts id detail db after
  unfolding mark_uncertain
  mark_uncertain-Doubts id detail db h = elim (Option-cases (fetch (has_id id) db.provider_calls)) [
    | inl missing ↦ absurd (ground arith)
    | inr (row, found) ↦ record {
      row = row;
      found = found;
      waiting = ground arith;
      written = ground arith;
    }
  ]

  pub mark_restart-written :
      (a : String) (db : Database) {steps : List ℕ} {after : Database}
      → mark_restart_in_flight_uncertain ledger a db ≡ ok (steps, after)
      → after ≡ record db {
        provider_calls =
            mark_each
              (filter (λ row. same row.attempt_id a && is_in_flight row) db.provider_calls)
              db.provider_calls;
      }
  unfolding mark_restart_in_flight_uncertain
  mark_restart-written a db h = ground arith

  pub record_reconciliation-calls :
      (rec : CallRecord) (now : String) (db : Database) {r : Reconciliation} {after : Database}
      → record_reconciliation ledger rec now db ≡ ok (r, after)
      → after.provider_calls ≡ db.provider_calls
  unfolding record_reconciliation
  record_reconciliation-calls rec now db h =
      elim (Option-cases
        (find_reconciliation ledger rec.provider_call_id db.provider_reconciliations)) [
          | inl missing ↦ ground arith
          | inr (r, found) ↦ ground arith
        ]

  unchanged :
      (a : String) (db : Database) {n : ℕ} {after : Database}
      → ledger.privacy_minimized ≡ false
      → purge_private_replay_material ledger a db ≡ ok (n, after)
      → after ≡ db
  unfolding purge_private_replay_material
  unchanged a db open_ h = ground (arith, h, open_)

  pub purge-calls :
      (a : String) (db : Database) {n : ℕ} {after : Database}
      → purge_private_replay_material ledger a db ≡ ok (n, after)
      → (p : CallRow → Bool) × (after.provider_calls ≡ update p purged db.provider_calls)
  unfolding purge_private_replay_material
  purge-calls a db h = elim (Bool-cases ledger.privacy_minimized) [
    | inl private ↦ (λ row. same row.attempt_id a, ground (arith, h, private))
    | inr open_ ↦ (
      λ row. false,
      ap (λ (d : Database). d.provider_calls) (unchanged a db open_ h)
          ∙ sym (update_none db.provider_calls),
    )
  ]
