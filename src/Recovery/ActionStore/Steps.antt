-- ===== src/Recovery/ActionStore/Steps.antt =====
-- What a successful call of the action store has checked and written.
use illusiontion.Prelude.{
  ℕ, ◌+◌, String, ◌≡◌, ap, true, false, Option, none, some, List, arith, Option-cases, Result-cases,
  inl, inr, ok, eq_iff, length,
}
use illusiontion.Host.{Host, sha256_object}
use illusiontion.Recovery.Records.Claims.{ReviewerName, ActionClass}
use illusiontion.Recovery.Records.Actions.{
  Permit, Commit, ActionStep, Chain, sign_permit, sign_commit, chain_payload, same_permit,
}
use illusiontion.Recovery.Database.{Database, AttemptRow, ActionRow, put, is_set, is_text, order_by}
use illusiontion.Recovery.ActionStore.{
  ActionStore, find_action, insert_action, set_commit, committed_steps, unsigned_permit,
  unsigned_commit, unsigned_chain, assert_worker, begin_attempt, authorize, commit, finalize,
}
use illusiontion.Recovery.Chaining.{atomic_execution_policy_sha256, atomic_initial_state_sha256}

module _ ⦃host : Host⦄ (store : ActionStore) where
  pub record Authorizes (attempt_id : String) (step_index : ℕ) (reviewer : ReviewerName)
      (nonce now : String) (db : Database) (p : Permit) (after : Database) : Type 0 where
    pub row : AttemptRow
    pub rows : List ActionRow
    pub worker : assert_worker store db ≡ ok tt
    pub found : db.attempts attempt_id ≡ some row
    pub running : row.completed ≡ false
    pub free : is_set row.in_flight_permit_sha256 ≡ false
    pub in_order : row.next_step ≡ step_index
    pub permit :
        p
        ≡ sign_permit store.key (unsigned_permit store attempt_id reviewer nonce now row step_index)
    pub fresh :
        insert_action
          (record { step_index = step_index; permit = p; commit = none })
          (db.actions attempt_id)
        ≡ some rows
    pub written : after ≡ record db {
      attempts =
          put attempt_id
            (some (record row { in_flight_permit_sha256 = some p.permit_sha256 }))
            db.attempts;
      actions = put attempt_id rows db.actions;
    }

  pub authorize-Authorizes :
      (attempt_id : String) (step_index : ℕ) (reviewer : ReviewerName) (nonce now : String)
      (db : Database) {p : Permit} {after : Database}
      → authorize store attempt_id step_index reviewer nonce now db ≡ ok (p, after)
      → Authorizes attempt_id step_index reviewer nonce now db p after
  unfolding authorize
  authorize-Authorizes a i r nonce now db {p} h = elim (Option-cases (db.attempts a)) [
    | inl missing ↦ absurd (ground arith)
    | inr (row, found) ↦
        elim (Option-cases
          (insert_action (record { step_index = i; permit = p; commit = none }) (db.actions a))) [
            | inl taken ↦ absurd (ground arith)
            | inr (rows, fresh) ↦ record {
              row = row;
              rows = rows;
              worker = ground arith;
              found = found;
              running = ground arith;
              free = ground arith;
              in_order = ground arith;
              permit = ground arith;
              fresh = fresh;
              written = ground arith;
            }
          ]
  ]

  pub record Begins (attempt_id lease now : String) (db after : Database) : Type 0 where
    pub worker : assert_worker store db ≡ ok tt
    pub unused : db.attempts attempt_id ≡ none
    pub written : after ≡ record db {
      attempts =
          put attempt_id
            (some (record {
              lease_set_sha256 = lease;
              policy_sha256 = atomic_execution_policy_sha256;
              next_step = 0;
              state_sha256 = atomic_initial_state_sha256 attempt_id lease;
              in_flight_permit_sha256 = none;
              completed = false;
              created_at = now;
            }))
            db.attempts;
    }

  pub begin_attempt-Begins :
      (attempt_id lease now : String) (db : Database) {after : Database}
      → begin_attempt store attempt_id lease now db ≡ ok (tt, after)
      → Begins attempt_id lease now db after
  unfolding begin_attempt
  begin_attempt-Begins a l now db h = elim (Option-cases (db.attempts a)) [
    | inl unused ↦ record { worker = ground arith; unused = unused; written = ground arith }
    | inr (row, taken) ↦ absurd (ground arith)
  ]

  pub record Commits (permit : Permit) (action_class : ActionClass) (receipt now : String)
      (db : Database) (c : Commit) (after : Database) : Type 0 where
    pub row : AttemptRow
    pub action : ActionRow
    pub worker : assert_worker store db ≡ ok tt
    pub found : db.attempts permit.attempt_id ≡ some row
    pub found_action : find_action permit.step_index (db.actions permit.attempt_id) ≡ some action
    pub unset : action.commit ≡ none
    pub in_flight : row.in_flight_permit_sha256 ≡ some permit.permit_sha256
    pub unchanged : same_permit action.permit permit ≡ true
    pub commit : c ≡ sign_commit store.key (unsigned_commit store permit action_class receipt now)
    pub written : after ≡ record db {
      attempts =
          put permit.attempt_id
            (some (record row {
              next_step = permit.step_index + 1;
              state_sha256 = c.next_state_sha256;
              in_flight_permit_sha256 = none;
            }))
            db.attempts;
      actions =
          put permit.attempt_id
            (set_commit permit.step_index c (db.actions permit.attempt_id))
            db.actions;
    }

  is_text→some : (o : Option String) (t : String) → is_text o t ≡ true → o ≡ some t
  is_text→some none t h = cc
  is_text→some (some s) t h = ap some ((eq_iff s t).0 h)

  pub commit-Commits :
      (permit : Permit) (action_class : ActionClass) (receipt now : String) (db : Database)
      {c : Commit} {after : Database}
      → commit store permit action_class receipt now db ≡ ok (c, after)
      → Commits permit action_class receipt now db c after
  unfolding commit
  commit-Commits p cls receipt now db h = elim (Option-cases (db.attempts p.attempt_id)) [
    | inl missing ↦ absurd (ground arith)
    | inr (row, found) ↦ elim (Option-cases (find_action p.step_index (db.actions p.attempt_id))) [
      | inl missing ↦ absurd (ground arith)
      | inr (action, found_action) ↦ record {
        row = row;
        action = action;
        worker = ground arith;
        found = found;
        found_action = found_action;
        unset = ground arith;
        in_flight = is_text→some row.in_flight_permit_sha256 p.permit_sha256 (ground arith);
        unchanged = ground arith;
        commit = ground arith;
        written = ground arith;
      }
    ]
  ]

  pub record Finalizes (attempt_id : String) (expected_steps : ℕ) (db : Database) (chain : Chain)
      (after : Database) : Type 0 where
    pub row : AttemptRow
    pub steps : List ActionStep
    pub worker : assert_worker store db ≡ ok tt
    pub found : db.attempts attempt_id ≡ some row
    pub free : is_set row.in_flight_permit_sha256 ≡ false
    pub all_steps : row.next_step ≡ expected_steps
    pub all_rows :
        length (order_by (λ (action : ActionRow). action.step_index) (db.actions attempt_id))
        ≡ expected_steps
    pub committed :
        committed_steps
          (order_by (λ (action : ActionRow). action.step_index) (db.actions attempt_id))
        ≡ ok steps
    pub built : chain ≡ record (unsigned_chain store attempt_id row steps) {
      chain_sha256 = sha256_object (chain_payload (unsigned_chain store attempt_id row steps));
    }
    pub written : after ≡ record db {
      attempts = put attempt_id (some (record row { completed = true })) db.attempts;
    }

  pub finalize-Finalizes :
      (attempt_id : String) (expected_steps : ℕ) (db : Database) {chain : Chain} {after : Database}
      → finalize store attempt_id expected_steps db ≡ ok (chain, after)
      → Finalizes attempt_id expected_steps db chain after
  unfolding finalize
  finalize-Finalizes a n db h = elim (Option-cases (db.attempts a)) [
    | inl missing ↦ absurd (ground arith)
    | inr (row, found) ↦
        elim (Result-cases
          (committed_steps (order_by (λ (action : ActionRow). action.step_index) (db.actions a)))) [
            | inl (e, incomplete) ↦ absurd (ground arith)
            | inr (steps, committed) ↦ record {
              row = row;
              steps = steps;
              worker = ground arith;
              found = found;
              free = ground arith;
              all_steps = ground arith;
              all_rows = ground arith;
              committed = committed;
              built = ground arith;
              written = ground arith;
            }
          ]
  ]
