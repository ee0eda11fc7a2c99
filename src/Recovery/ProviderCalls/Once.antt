-- ===== src/Recovery/ProviderCalls/Once.antt =====
-- One provider call for each atomic action, and one outcome for each call.
use illusiontion.Prelude.{
  String, ◌≡◌, ◌≢◌, refl, sym, ◌∙◌, Bool, true, false, ◌||◌, Option, some, List, [], ◌∷◌, ◌++◌,
  update, Bool-cases, some_injective, inl, inr, ok, eq_refl, eq→==,
}
use illusiontion.Host.{Host, RuntimeKey}
use illusiontion.Recovery.Records.Actions.{Permit}
use illusiontion.Recovery.Records.Calls.{CallRecord}
use illusiontion.Recovery.Database.{Database, CallRow, completed_call}
use illusiontion.Recovery.ProviderCalls.{
  Ledger, Invocation, is_in_flight, is_completed, at_step, has_id, fetch, insert_call,
}
use illusiontion.Recovery.ProviderCalls.Opened.{
  started_row, begin_call, completed_row, complete_call, mark_uncertain,
}
use illusiontion.Recovery.ProviderCalls.Rows.{fetch_found}
use illusiontion.Recovery.ProviderCalls.Effects.{
  begin_call-Starts, complete_call-Completes, mark_uncertain-Doubts,
}
use illusiontion.Recovery.ProviderCalls.Sound.{
  IsSoundLedger, insert_call-eq-some, any-All, false-ne-true,
}
use illusiontion.Recovery.ProviderCalls.Rows.{All-fetch}
use illusiontion.Recovery.ProviderCalls.Settled.{at_step-ByIdentity, has_id-ByIdentity}
use illusiontion.Recovery.ProviderCalls.Runs.{
  ledger_of, starts, completes, LedgerRuns, start, then_step, LedgerRuns-keep,
}
use illusiontion.Recovery.ProviderCalls.Progress.{completed_row_identity, LedgerRuns-Later}

fetch-snoc :
    (p : CallRow → Bool) (rows : List CallRow) (new : CallRow)
    → p new ≡ true
    → (s : CallRow) × (fetch p (rows ++ new ∷ []) ≡ some s)
unfolding fetch
fetch-snoc p [] new h = (new, rw h refl)
fetch-snoc p (x ∷ xs) new h = elim (Bool-cases (p x)) [
  | inl hit ↦ (x, rw hit refl)
  | inr miss ↦ let (s, at) = fetch-snoc p xs new h in (s, rw miss at)
]

-- A test that an update keeps finds the rewritten row.
fetch-update_here :
    (p : CallRow → Bool) (f : CallRow → CallRow)
    → ((r : CallRow) → p (f r) ≡ p r)
    → (rows : List CallRow) {r : CallRow} → fetch p rows ≡ some r
    → fetch p (update p f rows) ≡ some (f r)
unfolding fetch
fetch-update_here p f keep [] h = cc
fetch-update_here p f keep (x ∷ xs) {r} h = elim (Bool-cases (p x)) [
  | inl hit ↦ let is : x ≡ r = some_injective (rw hit at h) in rw (hit, keep x, hit, is) refl
  | inr miss ↦ rw (miss, miss) (fetch-update_here p f keep xs (rw miss at h))
]

or_false : (a b : Bool) → (a || b) ≡ false → a ≡ false
or_false true b e = cc
or_false false b e = refl

-- A step that has a row takes no other.
taken_step :
    (new : CallRow) (rows : List CallRow) {s : CallRow} {after : List CallRow}
    → fetch (at_step new.attempt_id new.step_index) rows ≡ some s
    → insert_call new rows ≡ some after
    → ⊥
taken_step new rows {s} found inserted =
    let (_, free) = insert_call-eq-some new rows inserted in
    let row_free =
      All-fetch
        (λ r. (at_step new.attempt_id new.step_index r || has_id new.provider_call_id r) ≡ false)
        (at_step new.attempt_id new.step_index) rows found (any-All _ rows free) in
    false-ne-true
      (sym (or_false _ _ row_free) ∙ fetch_found (at_step new.attempt_id new.step_index) rows found)

module _ ⦃host : Host⦄ (key : RuntimeKey) where
  -- A provider call is never issued twice for one atomic action: in a sound table, after a call
  -- has begun for a step of an attempt, and any calls of any ledgers that follow, no call for
  -- that step of that attempt begins again, whatever permit and invocation it brings.
  pub begin_call-once :
      (l m : Ledger) (permit other : Permit) (inv id inv2 id2 : String)
      (invocation invocation2 : Option Invocation) (nonce now nonce2 now2 : String) (db : Database)
      {actual : String} {after later : Database}
      → IsSoundLedger key db.provider_calls
      → begin_call (ledger_of key l) permit inv id invocation nonce now db ≡ ok (actual, after)
      → LedgerRuns key after later
      → other.attempt_id ≡ permit.attempt_id
      → other.step_index ≡ permit.step_index
      → {again : String × Database}
      → begin_call (ledger_of key m) other inv2 id2 invocation2 nonce2 now2 later ≢ ok again
  unfolding started_row
  begin_call-once l m permit other inv id inv2 id2 invocation invocation2 nonce now nonce2 now2 db
        {actual} {after} {later} sound h run same_attempt same_step {again} twice =
      let f = begin_call-Starts (ledger_of key l) permit inv id invocation nonce now db h in
      let (rows, _) = insert_call-eq-some _ db.provider_calls f.inserted in
      let here : (s : CallRow) × (fetch (at_step permit.attempt_id permit.step_index)
              after.provider_calls
            ≡ some s) =
        rw (f.written, rows)
          (fetch-snoc (at_step permit.attempt_id permit.step_index) db.provider_calls _ (
            rw (eq_refl permit.attempt_id, eq→== permit.step_index permit.step_index refl) refl)) in
      let kept =
        LedgerRuns-keep key (then_step start (starts l permit inv id invocation nonce now h))
          sound in
      let (s, at, _) =
        LedgerRuns-Later key (at_step permit.attempt_id permit.step_index)
          (at_step-ByIdentity permit.attempt_id permit.step_index) kept run here.1 in
      let g =
        begin_call-Starts (ledger_of key m) other inv2 id2 invocation2 nonce2 now2 later
          {actual = again.0} {after = again.1} twice in
      taken_step (started_row (ledger_of key m) other inv2 invocation2 nonce2 now2)
        later.provider_calls {s = s} (rw (same_attempt, same_step) at) g.inserted

  completed-waits :
      (s : CallRow) → s.state ≡ completed_call → (is_completed s ≡ true) × (is_in_flight s ≡ false)
  completed-waits s e = (rw e refl, rw e refl)

  -- A call has one outcome: in a sound table, after a call is completed, and any calls of any
  -- ledgers that follow, its row is completed and holds the record that was signed then, and the
  -- call is neither completed again nor marked as uncertain.
  pub complete_call-once :
      (l m : Ledger) (id provider model response raw nonce now : String) (db : Database)
      {rec : CallRecord} {after later : Database}
      → IsSoundLedger key db.provider_calls
      → complete_call (ledger_of key l) id provider model response raw nonce now db
        ≡ ok (rec, after)
      → LedgerRuns key after later
      → (provider2 model2 response2 raw2 nonce2 now2 detail : String)
        {again : CallRecord × Database} {doubted : Unit {0} × Database}
      → ((s : CallRow) × (fetch (has_id id) later.provider_calls ≡ some s)
          × (is_completed s ≡ true)
          × (s.call_record ≡ some rec))
        × (complete_call (ledger_of key m) id provider2 model2 response2 raw2 nonce2 now2 later
            ≢ ok again)
        × (mark_uncertain (ledger_of key m) id detail later ≢ ok doubted)
  complete_call-once l m id provider model response raw nonce now db {rec} {after} {later} sound h
        run provider2 model2 response2 raw2 nonce2 now2 detail {again} {doubted} =
      let f =
        complete_call-Completes (ledger_of key l) id provider model response raw nonce now db h in
      let g = completed_row (ledger_of key l) rec raw nonce in
      let same_as : (x : CallRow) → _ =
        completed_row_identity key (ledger_of key l) rec raw nonce in
      let new = g f.row in
      let here : fetch (has_id id) after.provider_calls ≡ some new = rw f.written (
        fetch-update_here (has_id id) g (λ x. rw ((same_as x).2) refl) db.provider_calls f.found) in
      let kept =
        LedgerRuns-keep key
          (then_step start (completes l id provider model response raw nonce now h)) sound in
      let (s, at, after_new) =
        LedgerRuns-Later key (has_id id) (has_id-ByIdentity id) kept run here in
      let (_, waits_not) = completed-waits new (same_as f.row).3 in
      let (state, record_kept) = after_new.settled waits_not in
      let (is_done, closed) = completed-waits s (state ∙ (same_as f.row).3) in
      (
        (s, at, is_done, record_kept ∙ (same_as f.row).4),
        (λ e.
            let c =
              complete_call-Completes (ledger_of key m) id provider2 model2 response2 raw2 nonce2
                now2 later {rec = again.0} {after = again.1} e in
            let is = some_injective (sym at ∙ c.found) in
            false-ne-true (sym closed ∙ rw is c.waiting)),
        (λ e.
            let c = mark_uncertain-Doubts (ledger_of key m) id detail later {after = doubted.1} e in
            let is = some_injective (sym at ∙ c.found) in
            false-ne-true (sym closed ∙ rw is c.waiting)),
      )
