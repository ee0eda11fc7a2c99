-- ===== src/Recovery/ActionStore.antt =====
-- `AtomicRecoveryActionStore` of app/attempt_continuity.py: one permit in flight for an attempt, and
-- a hash chain of committed actions. JSON that the store wrote is read back as the record itself.
pub mod Linked
pub mod Steps
pub mod Invariant
pub mod Verify
pub mod Admitted
pub mod Verified
pub mod Finalized
pub mod Flow
use illusiontion.Prelude.{
  ℕ, ◌+◌, String, Bool, true, false, not, ◌||◌, Option, none, some, List, [], ◌∷◌, ◌++◌, Error,
  value_error, integrity_error, validation_error, Result, ok, err, ◌>>=◌, ◌>>◌, raise_if, require,
  same, ◌==◌, any, length, if◌then◌else◌,
}
use illusiontion.Json.{Json, str, dict}
use illusiontion.Host.{Host, RuntimeKey, sha256_object}
use illusiontion.Recovery.Records.Claims.{
  ReviewerName, ActionClass, class_text, WorkerClaim, zero_digest,
}
use illusiontion.Recovery.Records.Actions.{
  Permit, Commit, ActionStep, Chain, is_valid_permit, is_valid_commit, is_valid_chain, same_permit,
  sign_permit, sign_commit, chain_payload,
}
use illusiontion.Recovery.Database.{
  Database, AttemptRow, ActionRow, Transaction, put, is_set, is_text, order_by,
}
use illusiontion.Recovery.Fencing.{assert_current_worker}
use illusiontion.Recovery.Chaining.{
  atomic_execution_policy_sha256, atomic_initial_state_sha256, atomic_next_state_payload,
  atomic_next_state_sha256, action_attempt_context_sha256,
}

-- An open store: its key, and the claim of the worker that uses it.
pub record ActionStore : Type 0 where
  pub key : RuntimeKey
  pub distributed_worker_claim : Option WorkerClaim
  pub require_distributed_claim : Bool

-- `self.distributed_worker_claim.claim_sha256 if ... is not None else ""`
abbrev pub claim_digest : Option WorkerClaim → String
claim_digest none = ""
claim_digest (some claim) = claim.claim_sha256

-- `SELECT ... FROM actions WHERE attempt_id=? AND step_index=?`, in the rows of the attempt.
unfoldable pub find_action : ℕ → List ActionRow → Option ActionRow
find_action i [] = none
find_action i (row ∷ rows) =
    let rest = find_action i rows in if row.step_index == i then some row else rest

-- `INSERT INTO actions`, under the primary key.
unfoldable pub insert_action : ActionRow → List ActionRow → Option (List ActionRow)
insert_action new rows =
    if any (λ row. row.step_index == new.step_index) rows then none else some (rows ++ new ∷ [])

-- `UPDATE actions SET commit_json=? WHERE attempt_id=? AND step_index=?`
unfoldable pub set_commit : ℕ → Commit → List ActionRow → List ActionRow
set_commit i commit [] = []
set_commit i commit (row ∷ rows) =
    (if row.step_index == i then record row { commit = some commit } else row)
    ∷ set_commit i commit rows

-- The steps of the chain; a row with no commit stops `finalize`.
unfoldable pub committed_steps : List ActionRow → Result (List ActionStep)
committed_steps [] = ok []
committed_steps (row ∷ rows) = do
  commit ← require row.commit (value_error "atomic-attempt-incomplete")
  steps ← committed_steps rows
  ok (record { permit = row.permit; commit = commit } ∷ steps)

-- `load_permit` and `load_commit`
unfoldable pub load_permit : String → ℕ → Database → Option Permit
unfolding find_action
load_permit attempt_id step_index db = elim (find_action step_index (db.actions attempt_id)) [
  | none ↦ none
  | some row ↦ some row.permit
]

unfoldable pub load_commit : String → ℕ → Database → Option Commit
unfolding find_action
load_commit attempt_id step_index db = elim (find_action step_index (db.actions attempt_id)) [
  | none ↦ none
  | some row ↦ row.commit
]

module _ ⦃host : Host⦄ (store : ActionStore) where
  unfoldable pub assert_worker : Database → Result (Unit {0})
  assert_worker db =
      assert_current_worker store.key store.distributed_worker_claim store.require_distributed_claim
        false db

  unfoldable pub begin_attempt :
      (attempt_id attempt_lease_set_sha256 now : String) → Transaction (Unit {0})
  begin_attempt attempt_id attempt_lease_set_sha256 now db = do
    assert_worker db
    raise_if (elim (db.attempts attempt_id) [ none ↦ false | some row ↦ true ])
        (value_error "atomic-attempt-slot-already-consumed-or-in-progress")
    let row : AttemptRow = record {
      lease_set_sha256 = attempt_lease_set_sha256;
      policy_sha256 = atomic_execution_policy_sha256;
      next_step = 0;
      state_sha256 = atomic_initial_state_sha256 attempt_id attempt_lease_set_sha256;
      in_flight_permit_sha256 = none;
      completed = false;
      created_at = now;
    }
    ok (tt, record db { attempts = put attempt_id (some row) db.attempts })

  -- The permit of the next step, before it is signed.
  unfoldable pub unsigned_permit :
      String → ReviewerName → (nonce now : String) → AttemptRow → ℕ → Permit
  unsigned_permit attempt_id reviewer nonce now row step_index = record {
    attempt_id = attempt_id;
    attempt_lease_set_sha256 = row.lease_set_sha256;
    step_index = step_index;
    reviewer = reviewer;
    distributed_worker_claim_sha256 = claim_digest store.distributed_worker_claim;
    prior_state_sha256 = row.state_sha256;
    permit_nonce = nonce;
    issued_at = now;
    permit_sha256 = zero_digest;
    runtime_signature = zero_digest;
  }

  unfoldable pub authorize :
      (attempt_id : String) (step_index : ℕ)
      → ReviewerName
      → (nonce now : String) → Transaction Permit
  unfolding insert_action unsigned_permit
  authorize attempt_id step_index reviewer nonce now db = do
    assert_worker db
    row ← require (db.attempts attempt_id) (value_error "atomic-attempt-not-initialized")
    raise_if row.completed (value_error "atomic-attempt-already-completed")
    raise_if (is_set row.in_flight_permit_sha256) (value_error "atomic-action-already-in-flight")
    raise_if (not (row.next_step == step_index)) (value_error "atomic-action-step-out-of-order")
    let unsigned = unsigned_permit attempt_id reviewer nonce now row step_index
    raise_if (not (is_valid_permit unsigned)) validation_error
    let permit = sign_permit store.key unsigned
    let new : ActionRow = record { step_index = step_index; permit = permit; commit = none }
    rows ← require (insert_action new (db.actions attempt_id)) integrity_error
    let next = record row { in_flight_permit_sha256 = some permit.permit_sha256 }
    ok (
      permit,
      record db {
        attempts = put attempt_id (some next) db.attempts;
        actions = put attempt_id rows db.actions;
      },
    )

  unfoldable pub unsigned_commit : Permit → ActionClass → (receipt_signature now : String) → Commit
  unsigned_commit permit action_class receipt_signature now = record {
    attempt_id = permit.attempt_id;
    step_index = permit.step_index;
    reviewer = permit.reviewer;
    distributed_worker_claim_sha256 = claim_digest store.distributed_worker_claim;
    permit_sha256 = permit.permit_sha256;
    action_class = action_class;
    receipt_signature = receipt_signature;
    prior_state_sha256 = permit.prior_state_sha256;
    next_state_sha256 =
        atomic_next_state_sha256 permit.prior_state_sha256 permit.permit_sha256 action_class
          receipt_signature;
    committed_at = now;
    commit_sha256 = zero_digest;
    runtime_signature = zero_digest;
  }

  unfoldable pub commit :
      Permit → ActionClass → (receipt_signature now : String) → Transaction Commit
  unfolding find_action set_commit unsigned_commit
  commit permit action_class receipt_signature now db = do
    assert_worker db
    row ←
        require (db.attempts permit.attempt_id) (value_error "atomic-action-permit-not-authorized")
    action ←
        require (find_action permit.step_index (db.actions permit.attempt_id))
          (value_error "atomic-action-permit-not-authorized")
    raise_if (elim (action.commit) [ none ↦ false | some c ↦ true ])
        (value_error "atomic-action-already-committed")
    raise_if (not (is_text row.in_flight_permit_sha256 permit.permit_sha256))
        (value_error "atomic-action-in-flight-permit-mismatch")
    raise_if (not (same_permit action.permit permit)) (value_error "atomic-action-permit-mutation")
    let unsigned = unsigned_commit permit action_class receipt_signature now
    raise_if (not (is_valid_commit unsigned)) validation_error
    let signed = sign_commit store.key unsigned
    let next = record row {
      next_step = permit.step_index + 1;
      state_sha256 = signed.next_state_sha256;
      in_flight_permit_sha256 = none;
    }
    ok (
      signed,
      record db {
        attempts = put permit.attempt_id (some next) db.attempts;
        actions =
            put permit.attempt_id
              (set_commit permit.step_index signed (db.actions permit.attempt_id)) db.actions;
      },
    )

  -- The chain of an attempt's row and steps, less its digest.
  unfoldable pub unsigned_chain : String → AttemptRow → List ActionStep → Chain
  unsigned_chain attempt_id row steps = record {
    attempt_id = attempt_id;
    attempt_lease_set_sha256 = row.lease_set_sha256;
    atomic_policy_sha256 = row.policy_sha256;
    initial_state_sha256 = atomic_initial_state_sha256 attempt_id row.lease_set_sha256;
    steps = steps;
    final_state_sha256 = row.state_sha256;
    chain_sha256 = zero_digest;
  }

  unfoldable pub finalize : (attempt_id : String) (expected_steps : ℕ) → Transaction Chain
  unfolding committed_steps unsigned_chain
  finalize attempt_id expected_steps db = do
    assert_worker db
    row ← require (db.attempts attempt_id) (value_error "atomic-attempt-not-initialized")
    let rows = order_by (λ action. action.step_index) (db.actions attempt_id)
    raise_if (is_set row.in_flight_permit_sha256)
        (value_error "atomic-attempt-has-uncommitted-action")
    raise_if (not (row.next_step == expected_steps) || not (length rows == expected_steps))
        (value_error "atomic-attempt-incomplete")
    steps ← committed_steps rows
    let unsigned = unsigned_chain attempt_id row steps
    raise_if (not (is_valid_chain unsigned)) validation_error
    let chain = record unsigned { chain_sha256 = sha256_object (chain_payload unsigned) }
    ok (
      chain,
      record db { attempts = put attempt_id (some (record row { completed = true })) db.attempts },
    )
