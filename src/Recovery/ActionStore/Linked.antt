-- ===== src/Recovery/ActionStore/Linked.antt =====
-- The invariant of one attempt's rows: each permit is issued for its place in the hash chain, each
-- commit closes its permit, and only the last row may wait for its commit.
use illusiontion.Prelude.{
  ℕ, suc, ◌+◌, ◌<◌, String, ◌≡◌, refl, ◌≢◌, ◌⊎◌, none, some, List, [], ◌∷◌, ◌++◌, arith, inl, inr,
  ok, length,
}
use illusiontion.Host.{Host, RuntimeKey, sha256_object, hmac_payload}
use illusiontion.Recovery.Records.Actions.{
  Permit, Commit, ActionStep, permit_digest_payload, permit_payload, commit_digest_payload,
  commit_payload,
}
use illusiontion.Recovery.Database.{AttemptRow, ActionRow, order_by, insert_by}
use illusiontion.Recovery.ActionStore.{find_action, set_commit, committed_steps}
use illusiontion.Recovery.Chaining.{atomic_next_state_sha256}

-- A permit of the attempt at one place of the chain, signed by the key.
pub record IsIssued ⦃host : Host⦄ (key : RuntimeKey) (attempt lease : String) (i : ℕ) (s : String)
    (p : Permit) : Type 0 where
  pub attempt_id : p.attempt_id ≡ attempt
  pub lease_set : p.attempt_lease_set_sha256 ≡ lease
  pub step_index : p.step_index ≡ i
  pub prior_state : p.prior_state_sha256 ≡ s
  pub digest : p.permit_sha256 ≡ sha256_object (permit_digest_payload p)
  pub signature : p.runtime_signature ≡ hmac_payload (permit_payload p) key

-- A commit that closes a permit and advances the state.
pub record IsClosed ⦃host : Host⦄ (key : RuntimeKey) (p : Permit) (c : Commit) : Type 0 where
  pub attempt_id : c.attempt_id ≡ p.attempt_id
  pub step_index : c.step_index ≡ p.step_index
  pub reviewer : c.reviewer ≡ p.reviewer
  pub permit : c.permit_sha256 ≡ p.permit_sha256
  pub prior_state : c.prior_state_sha256 ≡ p.prior_state_sha256
  pub next_state :
      c.next_state_sha256
      ≡ atomic_next_state_sha256 p.prior_state_sha256 p.permit_sha256 c.action_class
          c.receipt_signature
  pub digest : c.commit_sha256 ≡ sha256_object (commit_digest_payload c)
  pub signature : c.runtime_signature ≡ hmac_payload (commit_payload c) key

module _ ⦃host : Host⦄ (key : RuntimeKey) (attempt lease : String) where
  -- `Linked row i s rows`: the rows lead from step `i` and state `s` to what `row` records.
  pub data Linked (row : AttemptRow) : ℕ → String → List ActionRow → Type 0 where
    idle :
        {i : ℕ} {s : String}
        → row.next_step ≡ i
        → row.state_sha256 ≡ s
        → row.in_flight_permit_sha256 ≡ none
        → Linked row i s []
    waiting :
        {i : ℕ} {s : String} {r : ActionRow}
        → r.step_index ≡ i
        → IsIssued key attempt lease i s r.permit
        → r.commit ≡ none
        → row.next_step ≡ i
        → row.state_sha256 ≡ s
        → row.in_flight_permit_sha256 ≡ some r.permit.permit_sha256
        → Linked row i s (r ∷ [])
    committed :
        {i : ℕ} {s : String} {r : ActionRow} {rs : List ActionRow} (c : Commit)
        → r.step_index ≡ i
        → IsIssued key attempt lease i s r.permit
        → r.commit ≡ some c
        → IsClosed key r.permit c
        → Linked row (suc i) c.next_state_sha256 rs
        → Linked row i s (r ∷ rs)

  -- The same for the steps of a finished chain, with its final state.
  abbrev pub LinkedSteps : ℕ → String → List ActionStep → String → Type 0
  LinkedSteps i s [] final = final ≡ s
  LinkedSteps i s (step ∷ steps) final =
      IsIssued key attempt lease i s step.permit
      × IsClosed key step.permit step.commit
      × LinkedSteps (suc i) step.commit.next_state_sha256 steps final

  abbrev pub authorized_row : Permit → AttemptRow → AttemptRow
  authorized_row p row = record row { in_flight_permit_sha256 = some p.permit_sha256 }

  abbrev pub committed_row : ℕ → Commit → AttemptRow → AttemptRow
  committed_row i c row = record row {
    next_step = i + 1;
    state_sha256 = c.next_state_sha256;
    in_flight_permit_sha256 = none;
  }

  -- A new permit at the end of a chain in which nothing waits.
  pub append-Linked :
      (row : AttemptRow) {i : ℕ} {s : String} {rows : List ActionRow} (p : Permit)
      → row.in_flight_permit_sha256 ≡ none
      → IsIssued key attempt lease row.next_step row.state_sha256 p
      → Linked row i s rows
      → Linked
          (authorized_row p row)
          i
          s
          (rows ++ record { step_index = row.next_step; permit = p; commit = none } ∷ [])
  append-Linked row p free issued (idle at state _) =
      waiting at (subst_issued at state issued) refl at state refl
    where
      subst_issued :
          {j : ℕ} {t : String}
          → row.next_step ≡ j
          → row.state_sha256 ≡ t
          → IsIssued key attempt lease row.next_step row.state_sha256 p
          → IsIssued key attempt lease j t p
      subst_issued e f h = rw (← e, ← f) h
  append-Linked row p free issued (waiting _ _ _ _ _ taken) = cc
  append-Linked row p free issued (committed c at h closed ok_c rest) =
      committed c at h closed ok_c (append-Linked row p free issued rest)

  pub find_action-eq-some :
      (k : ℕ) (r : ActionRow) (rs : List ActionRow) {action : ActionRow}
      → find_action k (r ∷ rs) ≡ some action
      → ((r.step_index ≡ k) × (action ≡ r))
        ⊎ ((r.step_index ≢ k) × (find_action k rs ≡ some action))
  unfolding find_action
  find_action-eq-some k r rs e = ground arith

  pub set_commit_hit :
      (k : ℕ) (c : Commit) (r : ActionRow) (rs : List ActionRow)
      → r.step_index ≡ k
      → set_commit k c (r ∷ rs) ≡ record r { commit = some c } ∷ set_commit k c rs
  unfolding set_commit
  set_commit_hit k c r rs e = ground arith

  pub set_commit_miss :
      (k : ℕ) (c : Commit) (r : ActionRow) (rs : List ActionRow)
      → r.step_index ≢ k
      → set_commit k c (r ∷ rs) ≡ r ∷ set_commit k c rs
  unfolding set_commit
  set_commit_miss k c r rs e = ground arith

  -- Closing the waiting permit advances the row by one step.
  pub set_commit-Linked :
      (row : AttemptRow) {i : ℕ} {s : String} {rows : List ActionRow} (k : ℕ) (action : ActionRow)
      (c : Commit)
      → find_action k rows ≡ some action
      → action.commit ≡ none
      → IsClosed key action.permit c
      → Linked row i s rows
      → Linked (committed_row k c row) i s (set_commit k c rows)
  unfolding find_action set_commit
  set_commit-Linked row k action c found unset closes (idle at state free) = cc
  set_commit-Linked row {i} {s} k action c found unset closes
        (waiting {r = r} at issued none_yet here state taken) =
      elim (find_action-eq-some k r [] found) [
        | inl (hit, same_row) ↦
            rw (set_commit_hit k c r [] hit)
              (committed c at issued refl (rw same_row at closes) (idle (omega arith) refl refl))
        | inr (miss, later) ↦ cc
      ]
  set_commit-Linked row k action c found unset closes
        (committed {r = r} {rs = rs} d at issued done closed rest) =
      elim (find_action-eq-some k r rs found) [
        | inl (hit, same_row) ↦ cc
        | inr (miss, later) ↦ rw (set_commit_miss k c r rs miss) (
            committed d at issued done closed
              (set_commit-Linked row k action c later unset closes rest))
      ]

  -- The rows are in the order of their steps.
  insert_by-Linked :
      (row : AttemptRow) {i : ℕ} {s : String} {rows : List ActionRow} (r : ActionRow)
      → r.step_index < i
      → Linked row i s rows
      → insert_by (λ action. action.step_index) r rows ≡ r ∷ rows
  unfolding insert_by
  insert_by-Linked row r below (idle _ _ _) = refl
  insert_by-Linked row r below (waiting at _ _ _ _ _) = ground arith
  insert_by-Linked row r below (committed c at _ _ _ _) = ground arith

  pub order_by-Linked :
      (row : AttemptRow) {i : ℕ} {s : String} {rows : List ActionRow}
      → Linked row i s rows
      → order_by (λ action. action.step_index) rows ≡ rows
  unfolding order_by
  order_by-Linked row (idle _ _ _) = refl
  order_by-Linked row (waiting _ _ _ _ _ _) = refl
  order_by-Linked row (committed {r = r} c at _ _ _ rest) =
      rw (order_by-Linked row rest) (insert_by-Linked row r (omega arith) rest)

  -- With nothing in flight the rows give the steps of a chain that ends in the recorded state.
  pub committed_steps-LinkedSteps :
      (row : AttemptRow) {i : ℕ} {s : String} {rows : List ActionRow}
      → row.in_flight_permit_sha256 ≡ none
      → Linked row i s rows
      → (steps : List ActionStep) × (committed_steps rows ≡ ok steps)
        × LinkedSteps i s steps row.state_sha256
        × (length steps + i ≡ row.next_step)
  unfolding committed_steps
  committed_steps-LinkedSteps row free (idle at state _) = ([], refl, state, omega arith)
  committed_steps-LinkedSteps row free (waiting _ _ _ _ _ taken) = cc
  committed_steps-LinkedSteps row free (committed {r = r} c at issued done closed rest) =
      let (steps, found, linked, long) = committed_steps-LinkedSteps row free rest in
      (
        record { permit = r.permit; commit = c } ∷ steps,
        rw (done, found),
        (issued, closed, linked),
        omega arith,
      )
