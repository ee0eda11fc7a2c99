-- ===== src/Recovery/ProviderCalls/Kept.antt =====
-- The invariant of `provider_calls` under completion, restart, purge and reconciliation.
use illusiontion.Prelude.{
  ℕ, String, ◌≡◌, refl, sym, ◌∙◌, Bool, true, false, ◌&&◌, none, some, List, [], ◌∷◌, same, filter,
  update, All, Bool-cases, Option-cases, inl, inr, ok, eq_iff, and-eq-true,
}
use illusiontion.Host.{Host}
use illusiontion.Recovery.Records.Calls.{CallRecord}
use illusiontion.Recovery.Database.{Database, CallRow}
use illusiontion.Recovery.ProviderCalls.{
  Ledger, is_in_flight, is_completed, has_id, fetch, uncertain_row, mark_each,
}
use illusiontion.Recovery.ProviderCalls.Opened.{
  mark_restart_in_flight_uncertain, responds, complete_call,
}
use illusiontion.Recovery.ProviderCalls.Closed.{purge_private_replay_material, purged}
use illusiontion.Recovery.ProviderCalls.Rows.{
  Apart, AllApart, Apart-sym, All-map, All-update, All-update_one, AllApart-update_one, All-fetch,
  fetch_found,
}
use illusiontion.Recovery.ProviderCalls.Effects.{
  complete_call-Completes, mark_restart-written, purge-calls,
}
use illusiontion.Recovery.ProviderCalls.Sound.{RowSound, IsSoundLedger, any-All, waiting_open}
use illusiontion.Recovery.ProviderCalls.Started.{
  doubt-IsSoundLedger, completed-RowSound, completed-Apart,
}

-- A rewriting that keeps what `Apart` reads keeps rows apart.
AllApart-update :
    (p : CallRow → Bool) (f : CallRow → CallRow)
    → ((r s : CallRow) → Apart r s → Apart (f r) s)
    → (rows : List CallRow) → AllApart rows
    → AllApart (update p f rows)
AllApart-update p f keep [] h = tt
AllApart-update p f keep (r ∷ rs) h =
    let later : (x : CallRow) → All (Apart x) rs → All (Apart x) (update p f rs) =
      λ x a. All-update (Apart x) p f (λ s _ g. Apart-sym (keep s x (Apart-sym g))) rs a in
    elim (Bool-cases (p r)) [
      | inl hit ↦ rw hit (
        later (f r) (All-map (Apart r) (Apart (f r)) (λ s g. keep r s g) rs h.0),
        AllApart-update p f keep rs h.1,
      )
      | inr miss ↦ rw miss (later r h.0, AllApart-update p f keep rs h.1)
    ]

-- No row with the id of the given row is completed.
abbrev pub Unfinished : List CallRow → CallRow → Type 0
Unfinished rows r = All (λ s. s.provider_call_id ≡ r.provider_call_id → is_completed s ≡ false) rows

-- With each id once, an in-flight row is the one that has its id.
in_flight-Unfinished :
    (rows : List CallRow)
    → AllApart rows
    → All (λ r. is_in_flight r ≡ true → Unfinished rows r) rows
in_flight-Unfinished [] h = tt
in_flight-Unfinished (x ∷ xs) h = (
  λ w. (λ e. waiting_open x w, All-map (Apart x) _ (λ s a e. absurd (a.ids (sym e))) xs h.0),
  All-both _ (Apart x) _ (λ r rest a w. (λ e. absurd (a.ids e), rest w)) xs
      (in_flight-Unfinished xs h.1) h.0,
)
  where
    All-both :
        (P Q R : CallRow → Type 0)
        → ((s : CallRow) → P s → Q s → R s)
        → (ss : List CallRow) → All P ss
        → All Q ss
        → All R ss
    All-both P Q R g [] a b = tt
    All-both P Q R g (s ∷ ss) a b = (g s a.0 b.0, All-both P Q R g ss a.1 b.1)

All-selected :
    (P : CallRow → Type 0) (a : String) (rows : List CallRow)
    → All (λ r. is_in_flight r ≡ true → P r) rows
    → All P (filter (λ row. same row.attempt_id a && is_in_flight row) rows)
All-selected P a [] h = tt
All-selected P a (r ∷ rs) h = elim (Bool-cases (same r.attempt_id a && is_in_flight r)) [
  | inl hit ↦
      let (_, waiting) = and-eq-true _ _ hit in rw hit (h.0 waiting, All-selected P a rs h.1)
  | inr miss ↦ rw miss (All-selected P a rs h.1)
]

update-missing :
    (id : String) (f : CallRow → CallRow) (rows : List CallRow)
    → fetch (has_id id) rows ≡ none
    → update (has_id id) f rows ≡ rows
unfolding fetch
update-missing id f [] h = refl
update-missing id f (r ∷ rs) h = elim (Bool-cases (has_id id r)) [
  | inl hit ↦ let none_here : some r ≡ none = rw hit at h in cc
  | inr miss ↦ rw (miss, update-missing id f rs (rw miss at h)) refl
]

module _ ⦃host : Host⦄ (ledger : Ledger) where
  pub complete_call-IsSoundLedger :
      (id provider model response raw nonce now : String) (db : Database) {rec : CallRecord}
      {after : Database}
      → complete_call ledger id provider model response raw nonce now db ≡ ok (rec, after)
      → IsSoundLedger ledger.key db.provider_calls
      → IsSoundLedger ledger.key after.provider_calls
  complete_call-IsSoundLedger id provider model response raw nonce now db {rec} h sound =
      let f = complete_call-Completes ledger id provider model response raw nonce now db h in
      let rows = db.provider_calls in
      let is_id = (eq_iff f.row.provider_call_id id).0 (fetch_found (has_id id) rows f.found) in
      rw (f.written, f.signed)
        (record {
          each =
              All-update_one (RowSound ledger.key) id _ rows sound.apart f.found
                (completed-RowSound ledger f.row provider model response raw nonce now
                  (All-fetch (RowSound ledger.key) (has_id id) rows f.found sound.each))
                sound.each;
          apart = AllApart-update_one id _ rows sound.apart f.found (
              All-map (λ s. responds provider response s ≡ false) _
                (λ s free ne.
                  completed-Apart ledger f.row s provider model response raw nonce now
                    (λ e. ne (sym e ∙ is_id)) free)
                rows (any-All _ rows f.fresh));
        })

  purged-RowSound : (row : CallRow) → RowSound ledger.key row → RowSound ledger.key (purged row)
  purged-RowSound row h = record {
    identity = h.identity;
    open_row = h.open_row;
    closed_row = λ e.
        let (rec, at, g) = h.closed_row e in
        (
          rec,
          at,
          record {
            attempt_id = g.attempt_id;
            step_index = g.step_index;
            reviewer = g.reviewer;
            permit = g.permit;
            call_id = g.call_id;
            invocation = g.invocation;
            provider = g.provider;
            response = g.response;
            output = g.output;
            digest = g.digest;
            signature = g.signature;
          },
        );
  }

  pub purge-IsSoundLedger :
      (a : String) (db : Database) {n : ℕ} {after : Database}
      → purge_private_replay_material ledger a db ≡ ok (n, after)
      → IsSoundLedger ledger.key db.provider_calls
      → IsSoundLedger ledger.key after.provider_calls
  purge-IsSoundLedger a db h sound =
      let (p, written) = purge-calls ledger a db h in
      rw written (record {
        each =
            All-update (RowSound ledger.key) p purged (λ r _ g. purged-RowSound r g)
              db.provider_calls sound.each;
        apart =
            AllApart-update p purged (λ r s g. record { ids = g.ids; responses = g.responses })
              db.provider_calls sound.apart;
      })

  -- Every row with the id of an unfinished row can be marked.
  mark_each-IsSoundLedger :
      (selected rows : List CallRow)
      → All (Unfinished rows) selected
      → IsSoundLedger ledger.key rows
      → IsSoundLedger ledger.key (mark_each selected rows)
  unfolding mark_each
  mark_each-IsSoundLedger [] rows h sound = sound
  mark_each-IsSoundLedger (r ∷ rs) rows h sound =
      let mark = uncertain_row "PROCESS_RESTART_WITH_IN_FLIGHT_PROVIDER_CALL" in
      let marked = update (has_id r.provider_call_id) mark rows in
      let still : All (Unfinished marked) rs =
        All-map (Unfinished rows) (Unfinished marked)
          (λ q u.
            All-update (λ s. s.provider_call_id ≡ q.provider_call_id → is_completed s ≡ false)
              (has_id r.provider_call_id) mark (λ s _ g e. refl) rows u)
          rs h.1 in
      mark_each-IsSoundLedger rs marked still
        (elim (Option-cases (fetch (has_id r.provider_call_id) rows)) [
          | inl missing ↦ rw (update-missing r.provider_call_id mark rows missing) sound
          | inr (row, found) ↦
              let is_id =
                (eq_iff row.provider_call_id r.provider_call_id).0
                  (fetch_found (has_id r.provider_call_id) rows found) in
              doubt-IsSoundLedger ledger r.provider_call_id
                "PROCESS_RESTART_WITH_IN_FLIGHT_PROVIDER_CALL" rows found
                (All-fetch (λ s. s.provider_call_id ≡ r.provider_call_id → is_completed s ≡ false)
                  (has_id r.provider_call_id) rows found h.0 is_id)
                sound
        ])

  pub selected-Unfinished :
      (a : String) (rows : List CallRow)
      → AllApart rows
      → All (Unfinished rows) (filter (λ row. same row.attempt_id a && is_in_flight row) rows)
  selected-Unfinished a rows apart =
      All-selected (Unfinished rows) a rows (in_flight-Unfinished rows apart)

  pub mark_restart-IsSoundLedger :
      (a : String) (db : Database) {steps : List ℕ} {after : Database}
      → mark_restart_in_flight_uncertain ledger a db ≡ ok (steps, after)
      → IsSoundLedger ledger.key db.provider_calls
      → IsSoundLedger ledger.key after.provider_calls
  mark_restart-IsSoundLedger a db h sound = rw (mark_restart-written ledger a db h) (
      mark_each-IsSoundLedger _ db.provider_calls
        (selected-Unfinished a db.provider_calls sound.apart) sound)
