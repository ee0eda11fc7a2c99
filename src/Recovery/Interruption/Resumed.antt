-- ===== src/Recovery/Interruption/Resumed.antt =====
-- When an interrupted attempt may be resumed.
use illusiontion.Prelude.{
  ℕ, ◌<◌, String, ◌≡◌, ◌≢◌, refl, sym, ap, ◌∙◌, true, false, ◌⊎◌, Option, none, some, List, [],
  arith, ltb, ◌==◌, length, get_elem?, Option-cases, inl, inr, ◌≤◌,
}
use illusiontion.Host.{Host, RuntimeKey}
use illusiontion.Recovery.Records.Claims.{ReviewerName}
use illusiontion.Recovery.Records.Actions.{Permit, Commit}
use illusiontion.Recovery.Database.{
  Database, AttemptRow, ActionRow, CallState, in_flight, completed_call, uncertain,
}
use illusiontion.Recovery.ActionStore.{load_permit, load_commit, find_action}
use illusiontion.Recovery.ActionStore.Linked.{Linked, idle, waiting, committed, find_action-eq-some}
use illusiontion.Recovery.ActionStore.Invariant.{IsSound, sound_row}
use illusiontion.Recovery.ProviderCalls.{state_for_step}
use illusiontion.Recovery.Interruption.{
  Inspection, invalid_state, attempt_progress, inspect_next, inspect_interrupted_attempt,
}

module _ ⦃host : Host⦄ where
  inspect_next-safe :
      (a : String) (n : ℕ) (reviewer : Option ReviewerName) (permit : Option Permit)
      (commit : Option Commit) (state : Option CallState)
      → (inspect_next a n reviewer permit commit state).safe_to_resume ≡ true
      → (state ≡ none) ⊎ (state ≡ some completed_call)
  unfolding inspect_next
  inspect_next-safe a n reviewer permit (some c) state e = cc
  inspect_next-safe a n reviewer none none none e = inl refl
  inspect_next-safe a n reviewer none none (some st) e = cc
  inspect_next-safe a n reviewer (some p) none none e = inl refl
  inspect_next-safe a n reviewer (some p) none (some completed_call) e = inr refl
  inspect_next-safe a n reviewer (some p) none (some in_flight) e = cc
  inspect_next-safe a n reviewer (some p) none (some uncertain) e = cc

  inspect_unfinished :
      (a : String) (order : List ReviewerName) (db : Database) (row : AttemptRow)
      → db.attempts a ≡ some row
      → row.completed ≡ false
      → row.next_step < length order
      → inspect_interrupted_attempt a order db
        ≡ inspect_next a row.next_step
            (get_elem? order row.next_step)
            (load_permit a row.next_step db)
            (load_commit a row.next_step db)
            (state_for_step a row.next_step db)
  unfolding inspect_interrupted_attempt attempt_progress
  inspect_unfinished a order db row found running below =
      let within : ltb (length order) row.next_step ≡ false = ground arith in
      let more : (row.next_step == length order) ≡ false = ground arith in
      rw (inspect_interrupted_attempt, attempt_progress, found) (rw (within, running, more) refl)

  -- An attempt with steps left is safe to resume only if the provider call of its next step was
  -- never begun or is durably completed: never with a call in flight or uncertain.
  pub inspect_interrupted_attempt-safe :
      (a : String) (order : List ReviewerName) (db : Database) (row : AttemptRow)
      → db.attempts a ≡ some row
      → row.completed ≡ false
      → row.next_step < length order
      → (inspect_interrupted_attempt a order db).safe_to_resume ≡ true
      → (state_for_step a row.next_step db ≡ none)
        ⊎ (state_for_step a row.next_step db ≡ some completed_call)
  inspect_interrupted_attempt-safe a order db row found running below safe =
      inspect_next-safe a row.next_step (get_elem? order row.next_step)
        (load_permit a row.next_step db) (load_commit a row.next_step db)
        (state_for_step a row.next_step db)
        (ap (λ (x : Inspection). x.safe_to_resume)
            (sym (inspect_unfinished a order db row found running below))
          ∙ safe)

  next_step-reached :
      (key : RuntimeKey) (a lease : String) (row : AttemptRow) {i : ℕ} {s : String}
      {rows : List ActionRow}
      → Linked key a lease row i s rows
      → i ≤ row.next_step
  next_step-reached key a lease row (idle at _ _) = omega (arith, at)
  next_step-reached key a lease row (waiting _ _ _ here _ _) = omega (arith, here)
  next_step-reached key a lease row (committed c _ _ _ _ rest) =
      let low = next_step-reached key a lease row rest in omega (arith, low)

  -- At the next step of a sound attempt nothing is committed.
  next_step-uncommitted :
      (key : RuntimeKey) (a lease : String) (row : AttemptRow) {i : ℕ} {s : String}
      {rows : List ActionRow} {r : ActionRow}
      → Linked key a lease row i s rows
      → find_action row.next_step rows ≡ some r
      → r.commit ≡ none
  unfolding find_action
  next_step-uncommitted key a lease row (idle _ _ _) found = cc
  next_step-uncommitted key a lease row {r = r} (waiting {r = w} at _ unset here _ _) found =
      elim (find_action-eq-some key a lease row.next_step w [] found) [
        | inl (hit, is) ↦ rw is unset
        | inr (miss, later) ↦ cc
      ]
  next_step-uncommitted key a lease row (committed {r = w} {rs = rs} c at _ done _ rest) found =
      elim (find_action-eq-some key a lease row.next_step w rs found) [
        | inl (hit, is) ↦
            absurd (let low = next_step-reached key a lease row rest in omega (arith, low, at, hit))
        | inr (miss, later) ↦ next_step-uncommitted key a lease row rest later
      ]

  load_commit-next :
      (key : RuntimeKey) (a : String) (db : Database) (row : AttemptRow)
      → IsSound key db
      → db.attempts a ≡ some row
      → load_commit a row.next_step db ≡ none
  unfolding load_commit
  load_commit-next key a db row sound found =
      let linked = (sound_row key db a row sound found).1 in
      elim (Option-cases (find_action row.next_step (db.actions a))) [
        | inl missing ↦ rw (load_commit, missing) refl
        | inr (r, here) ↦
            rw (load_commit, here)
              (next_step-uncommitted key a row.lease_set_sha256 row linked here)
      ]

  inspect_next-reason :
      (a : String) (n : ℕ) (reviewer : Option ReviewerName) (permit : Option Permit)
      (state : Option CallState)
      → (inspect_next a n reviewer permit none state).status ≡ invalid_state
      → (permit ≡ none) × (state ≢ none)
  unfolding inspect_next
  inspect_next-reason a n reviewer none none e = cc
  inspect_next-reason a n reviewer none (some st) e = (refl, λ g. cc)
  inspect_next-reason a n reviewer (some p) none e = cc
  inspect_next-reason a n reviewer (some p) (some completed_call) e = cc
  inspect_next-reason a n reviewer (some p) (some in_flight) e = cc
  inspect_next-reason a n reviewer (some p) (some uncertain) e = cc

  -- In a sound database, an attempt with steps left is reported as invalid only if a provider call
  -- is on record for its next step with no permit: never because that step is already committed.
  pub inspect_interrupted_attempt-invalid :
      (key : RuntimeKey) (a : String) (order : List ReviewerName) (db : Database) (row : AttemptRow)
      → IsSound key db
      → db.attempts a ≡ some row
      → row.completed ≡ false
      → row.next_step < length order
      → (inspect_interrupted_attempt a order db).status ≡ invalid_state
      → (load_permit a row.next_step db ≡ none) × (state_for_step a row.next_step db ≢ none)
  inspect_interrupted_attempt-invalid key a order db row sound found running below invalid =
      let state = state_for_step a row.next_step db in
      let permit = load_permit a row.next_step db in
      let is : inspect_interrupted_attempt a order db
          ≡ inspect_next a row.next_step (get_elem? order row.next_step) permit none state =
        inspect_unfinished a order db row found running below
        ∙ ap (λ c. inspect_next a row.next_step (get_elem? order row.next_step) permit c state)
            (load_commit-next key a db row sound found) in
      inspect_next-reason a row.next_step (get_elem? order row.next_step) permit state
        (ap (λ (x : Inspection). x.status) (sym is) ∙ invalid)
