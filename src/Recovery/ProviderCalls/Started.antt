-- ===== src/Recovery/ProviderCalls/Started.antt =====
-- The invariant of `provider_calls` under the start of a call and under doubt, and the row and its
-- place among the others when a call completes.
use illusiontion.Prelude.{
  String, ◌≡◌, ◌≢◌, refl, sym, ◌∙◌, false, ◌||◌, Option, some, List, arith, update, All, ok, eq_iff,
}
use illusiontion.Host.{Host}
use illusiontion.Recovery.Records.Actions.{Permit}
use illusiontion.Recovery.Records.Calls.{record_digest_payload, record_payload, sign_record}
use illusiontion.Recovery.Database.{Database, CallRow}
use illusiontion.Recovery.ProviderCalls.{
  Ledger, Invocation, is_completed, has_id, at_step, fetch, uncertain_row, provider_call_id,
  truncate,
}
use illusiontion.Recovery.ProviderCalls.Opened.{
  started_row, begin_call, unsigned_record, completed_row, responds, mark_uncertain,
}
use illusiontion.Recovery.ProviderCalls.Rows.{
  Apart, All-map, All-snoc, All-update_one, AllApart-update_one, All-fetch, fetch_found,
}
use illusiontion.Recovery.ProviderCalls.Effects.{begin_call-Starts, mark_uncertain-Doubts}
use illusiontion.Recovery.ProviderCalls.Sound.{
  RowSound, IsSoundLedger, false-ne-true, answers_twice, waiting_open, any-All, AllApart-snoc,
  insert_call-eq-some,
}

module _ ⦃host : Host⦄ (ledger : Ledger) where
  started-RowSound :
      (permit : Permit) (inv : String) (invocation : Option Invocation) (nonce now : String)
      → RowSound ledger.key (started_row ledger permit inv invocation nonce now)
  unfolding started_row
  started-RowSound permit inv invocation nonce now = record {
    identity = refl;
    open_row = λ e. refl;
    closed_row = λ e. absurd (false-ne-true e);
  }

  started-Apart :
      (permit : Permit) (inv : String) (invocation : Option Invocation) (nonce now : String)
      (s : CallRow)
      → (at_step permit.attempt_id permit.step_index s
          || has_id
              (provider_call_id permit.attempt_id permit.step_index permit.reviewer
                permit.permit_sha256)
              s)
        ≡ false
      → Apart (started_row ledger permit inv invocation nonce now) s
  unfolding started_row
  started-Apart permit inv invocation nonce now s h = record {
    ids = λ e. absurd (
        ground (
          arith,
          h,
          eq_iff s.provider_call_id (
              provider_call_id permit.attempt_id permit.step_index permit.reviewer
                permit.permit_sha256),
          sym e,
        ));
    responses = λ a b e f. false-ne-true a;
  }

  pub begin_call-IsSoundLedger :
      (permit : Permit) (inv id : String) (invocation : Option Invocation) (nonce now : String)
      (db : Database) {actual : String} {after : Database}
      → begin_call ledger permit inv id invocation nonce now db ≡ ok (actual, after)
      → IsSoundLedger ledger.key db.provider_calls
      → IsSoundLedger ledger.key after.provider_calls
  unfolding started_row
  begin_call-IsSoundLedger permit inv id invocation nonce now db h sound =
      let f = begin_call-Starts ledger permit inv id invocation nonce now db h in
      let new = started_row ledger permit inv invocation nonce now in
      let (rows, free) = insert_call-eq-some new db.provider_calls f.inserted in
      let apart : All (Apart new) db.provider_calls =
        All-map _ (Apart new) (λ s g. started-Apart permit inv invocation nonce now s g)
          db.provider_calls (any-All _ db.provider_calls free) in
      rw (f.written, rows)
        (record {
          each =
              All-snoc (RowSound ledger.key) db.provider_calls new sound.each
                (started-RowSound permit inv invocation nonce now);
          apart = AllApart-snoc db.provider_calls new sound.apart apart;
        })

  doubtful-RowSound :
      (detail : String) (row : CallRow)
      → is_completed row ≡ false
      → RowSound ledger.key row
      → RowSound ledger.key (uncertain_row detail row)
  doubtful-RowSound detail row waiting sound = record {
    identity = sound.identity;
    open_row = λ e. sound.open_row waiting;
    closed_row = λ e. absurd (false-ne-true e);
  }

  doubtful-Apart :
      (detail : String) (row s : CallRow)
      → row.provider_call_id ≢ s.provider_call_id
      → Apart (uncertain_row detail row) s
  doubtful-Apart detail row s ne = record { ids = ne; responses = λ a b e f. false-ne-true a }

  -- One row that is not completed becomes uncertain.
  pub doubt-IsSoundLedger :
      (id detail : String) (rows : List CallRow) {row : CallRow}
      → fetch (has_id id) rows ≡ some row
      → is_completed row ≡ false
      → IsSoundLedger ledger.key rows
      → IsSoundLedger ledger.key (update (has_id id) (uncertain_row detail) rows)
  doubt-IsSoundLedger id detail rows {row} found waiting sound =
      let is_id = (eq_iff row.provider_call_id id).0 (fetch_found (has_id id) rows found) in
      record {
        each =
            All-update_one (RowSound ledger.key) id (uncertain_row detail) rows sound.apart found
              (doubtful-RowSound detail row waiting
                (All-fetch (RowSound ledger.key) (has_id id) rows found sound.each))
              sound.each;
        apart = AllApart-update_one id (uncertain_row detail) rows sound.apart found (
            All-map (RowSound ledger.key) _
              (λ s g ne. doubtful-Apart detail row s (λ e. ne (sym e ∙ is_id))) rows sound.each);
      }

  pub mark_uncertain-IsSoundLedger :
      (id detail : String) (db : Database) {after : Database}
      → mark_uncertain ledger id detail db ≡ ok (tt, after)
      → IsSoundLedger ledger.key db.provider_calls
      → IsSoundLedger ledger.key after.provider_calls
  mark_uncertain-IsSoundLedger id detail db h sound =
      let f = mark_uncertain-Doubts ledger id detail db h in
      rw f.written (
        doubt-IsSoundLedger id (truncate 4096 detail) db.provider_calls f.found
          (waiting_open f.row f.waiting) sound)

  pub completed-RowSound :
      (row : CallRow) (provider model response raw nonce now : String)
      → RowSound ledger.key row
      → RowSound ledger.key (
          completed_row ledger
            (sign_record ledger.key (unsigned_record ledger row provider model response raw now))
            raw
            nonce
            row)
  unfolding completed_row unsigned_record sign_record record_digest_payload record_payload
  completed-RowSound row provider model response raw nonce now sound = record {
    identity = sound.identity;
    open_row = λ e. absurd (false-ne-true (sym e));
    closed_row = λ e. (
      sign_record ledger.key (unsigned_record ledger row provider model response raw now),
      refl,
      record {
        attempt_id = refl;
        step_index = refl;
        reviewer = refl;
        permit = refl;
        call_id = refl;
        invocation = refl;
        provider = refl;
        response = refl;
        output = refl;
        digest = refl;
        signature = refl;
      },
    );
  }

  pub completed-Apart :
      (row s : CallRow) (provider model response raw nonce now : String)
      → row.provider_call_id ≢ s.provider_call_id
      → responds provider response s ≡ false
      → Apart
          (completed_row ledger
            (sign_record ledger.key (unsigned_record ledger row provider model response raw now))
            raw
            nonce
            row)
          s
  unfolding completed_row unsigned_record sign_record
  completed-Apart row s provider model response raw nonce now ne free = record {
    ids = ne;
    responses = λ a b e f. absurd (answers_twice s provider response b e f free);
  }
