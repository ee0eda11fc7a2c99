-- ===== src/Recovery/System/Committing.antt =====
-- Each step of an attempt is committed once, over all calls of the workers.
use illusiontion.Prelude.{
  ℕ, ◌+◌, String, ◌≡◌, ◌≢◌, refl, ap, true, false, Option, none, some, List, [], ◌∷◌, ◌++◌, arith,
  inl, inr, Bool, same, eq_iff, eq_refl, Bool-cases, ok, err, value_error, ◌>>◌, Result-cases,
}
use illusiontion.Host.{Host, RuntimeKey}
use illusiontion.Recovery.Records.Claims.{WorkerClaim, ActionClass}
use illusiontion.Recovery.Records.Actions.{Permit, Commit}
use illusiontion.Recovery.Database.{Database, AttemptRow, ActionRow, put}
use illusiontion.Recovery.ActionStore.{
  ActionStore, find_action, insert_action, assert_worker, commit, load_commit,
}
use illusiontion.Recovery.ActionStore.Steps.{
  begin_attempt-Begins, authorize-Authorizes, commit-Commits, finalize-Finalizes,
}
use illusiontion.Recovery.Coordinator.Claiming.{
  claim_worker-Claims, reserve_publication_time-SameClaims, publish-SameClaims,
}
use illusiontion.Recovery.System.{
  store_of, Step, claims, reserves, publishes, begins, authorizes, commits, finalizes, Runs, start,
  then_step,
}
use illusiontion.Recovery.System.Issued.{
  IsCommitted, SameAttempt, SameAttempt-IsCommitted, find_action_append, find_action-set_commit,
  find_action-set_commit_other,
}

-- Two tables written at another attempt.
pub put_other :
    (a b : String) (db after : Database) (row : Option AttemptRow) (rows : List ActionRow)
    → same b a ≡ false
    → after ≡ record db { attempts = put b row db.attempts; actions = put b rows db.actions }
    → SameAttempt a db after
put_other a b db after row rows other written =
    rw written (record { attempts = rw other refl; actions = rw other refl })

pub put_attempts_other :
    (a b : String) (db after : Database) (row : Option AttemptRow)
    → same b a ≡ false
    → after ≡ record db { attempts = put b row db.attempts }
    → SameAttempt a db after
put_attempts_other a b db after row other written =
    rw written (record { attempts = rw other refl; actions = refl })

insert_action-eq-append :
    (new : ActionRow) (rows : List ActionRow) {after : List ActionRow}
    → insert_action new rows ≡ some after
    → after ≡ rows ++ new ∷ []
unfolding insert_action
insert_action-eq-append new rows h = ground arith

module _ ⦃host : Host⦄ (key : RuntimeKey) where
  pub Step-IsCommitted :
      {db after : Database} (a : String) (k : ℕ) (c : Commit)
      → Step key db after
      → IsCommitted a k c db
      → IsCommitted a k c after
  Step-IsCommitted {db} {after} a k c (claims b w takeover nonce now h) was =
      let f = claim_worker-Claims key b w takeover nonce now db h in
      SameAttempt-IsCommitted a k c
        (record { attempts = rw f.written refl; actions = rw f.written refl }) was
  Step-IsCommitted {db} {after} a k c (reserves claim now h) was =
      let kept = reserve_publication_time-SameClaims key claim now db h in
      SameAttempt-IsCommitted a k c
        (record { attempts = rw kept.attempts refl; actions = rw kept.actions refl }) was
  Step-IsCommitted {db} {after} a k c (publishes claim p now h) was =
      let kept = publish-SameClaims key claim p now db h in
      SameAttempt-IsCommitted a k c
        (record { attempts = rw kept.attempts refl; actions = rw kept.actions refl }) was
  Step-IsCommitted {db} {after} a k c (begins claim required b lease now h) was =
      let f = begin_attempt-Begins (store_of key claim required) b lease now db h in
      elim (Bool-cases (same b a)) [
        | inr other ↦
            SameAttempt-IsCommitted a k c (put_attempts_other a b db after _ other f.written) was
        | inl here ↦
            let e = (eq_iff b a).0 here in absurd (cc (ap db.attempts e, f.unused, was.found))
      ]
  Step-IsCommitted {db} {after} a k c (authorizes claim required b i r nonce now {p = issued} h)
        was =
      let f = authorize-Authorizes (store_of key claim required) b i r nonce now db h in
      elim (Bool-cases (same b a)) [
        | inr other ↦ SameAttempt-IsCommitted a k c (put_other a b db after _ _ other f.written) was
        | inl here ↦
            let listed : find_action k (db.actions b) ≡ some was.action =
              rw ((eq_iff b a).0 here) was.found_action in
            let rows = insert_action-eq-append _ (db.actions b) f.fresh in
            record {
              row = record f.row { in_flight_permit_sha256 = some issued.permit_sha256 };
              action = was.action;
              found = rw (f.written, here) refl;
              found_action =
                  rw (f.written, here, rows) (find_action_append key k (db.actions b) _ listed);
              commit = was.commit;
            }
      ]
  Step-IsCommitted {db} {after} a k c (commits claim required p cls receipt now {c = d} h) was =
      let f = commit-Commits (store_of key claim required) p cls receipt now db h in
      elim (Bool-cases (same p.attempt_id a)) [
        | inr other ↦
            SameAttempt-IsCommitted a k c (put_other a p.attempt_id db after _ _ other f.written)
              was
        | inl here ↦
            let listed : find_action k (db.actions p.attempt_id) ≡ some was.action =
              rw ((eq_iff p.attempt_id a).0 here) was.found_action in
            let differ : p.step_index ≢ k = λ e. cc (
              ap (λ j. find_action j (db.actions p.attempt_id)) e,
              listed,
              f.found_action,
              f.unset,
              was.commit,
            ) in
            record {
              row = record f.row {
                next_step = p.step_index + 1;
                state_sha256 = d.next_state_sha256;
                in_flight_permit_sha256 = none;
              };
              action = was.action;
              found = rw (f.written, here) refl;
              found_action =
                  rw
                    (
                      f.written,
                      here,
                      find_action-set_commit_other key k p.step_index d (db.actions p.attempt_id)
                          differ,
                    )
                    listed;
              commit = was.commit;
            }
      ]
  Step-IsCommitted {db} {after} a k c (finalizes claim required b n h) was =
      let f = finalize-Finalizes (store_of key claim required) b n db h in
      elim (Bool-cases (same b a)) [
        | inr other ↦
            SameAttempt-IsCommitted a k c (put_attempts_other a b db after _ other f.written) was
        | inl here ↦ record {
          row = record f.row { completed = true };
          action = was.action;
          found = rw (f.written, here) refl;
          found_action = rw f.written was.found_action;
          commit = was.commit;
        }
      ]

  Runs-IsCommitted :
      {db after : Database} (a : String) (k : ℕ) (c : Commit)
      → Runs key db after
      → IsCommitted a k c db
      → IsCommitted a k c after
  Runs-IsCommitted a k c start was = was
  Runs-IsCommitted a k c (then_step run step) was =
      Step-IsCommitted a k c step (Runs-IsCommitted a k c run was)

  pub commit-IsCommitted :
      (claim : Option WorkerClaim) (required : Bool) (permit : Permit) (cls : ActionClass)
      (receipt now : String) (db : Database) {c : Commit} {after : Database}
      → commit (store_of key claim required) permit cls receipt now db ≡ ok (c, after)
      → IsCommitted permit.attempt_id permit.step_index c after
  commit-IsCommitted claim required p cls receipt now db {c} {after} h =
      let f = commit-Commits (store_of key claim required) p cls receipt now db h in
      record {
        row = record f.row {
          next_step = p.step_index + 1;
          state_sha256 = c.next_state_sha256;
          in_flight_permit_sha256 = none;
        };
        action = record f.action { commit = some c };
        found = rw (f.written, eq_refl p.attempt_id) refl;
        found_action =
            rw (f.written, eq_refl p.attempt_id)
              (find_action-set_commit key p.step_index c (db.actions p.attempt_id) f.found_action);
        commit = refl;
      }

  IsCommitted-refused :
      (store : ActionStore) (permit : Permit) (cls : ActionClass) (receipt now : String)
      (c : Commit) (db : Database)
      → IsCommitted permit.attempt_id permit.step_index c db
      → commit store permit cls receipt now db
        ≡ (assert_worker store db >> err (value_error "atomic-action-already-committed"))
  unfolding commit
  IsCommitted-refused store permit cls receipt now c db was =
      elim (Result-cases (assert_worker store db)) [
        | inl (e, refused) ↦ rw refused refl
        | inr (u, current) ↦ rw (current, was.found, was.found_action, was.commit) refl
      ]

  pub IsCommitted-load :
      (a : String) (k : ℕ) (c : Commit) (db : Database)
      → IsCommitted a k c db
      → load_commit a k db ≡ some c
  unfolding load_commit
  IsCommitted-load a k c db was = ground (arith, was.found_action, was.commit)

  -- A permit is committed once. After a commit and any calls of the coordinator and the action
  -- store by any workers with the same key, the commit is still the one on record for its step,
  -- and a commit of any permit for that step of the attempt is refused: because its worker is not
  -- the current one, or else as already committed.
  pub commit-commit :
      (claim later_claim : Option WorkerClaim) (required later_required : Bool) (p q : Permit)
      (cls other : ActionClass) (receipt second now at : String) (db : Database) {c : Commit}
      {after later : Database}
      → commit (store_of key claim required) p cls receipt now db ≡ ok (c, after)
      → Runs key after later
      → q.attempt_id ≡ p.attempt_id
      → q.step_index ≡ p.step_index
      → (load_commit p.attempt_id p.step_index later ≡ some c)
        × (commit (store_of key later_claim later_required) q other second at later ≡ (
            assert_worker (store_of key later_claim later_required) later
            >> err (value_error "atomic-action-already-committed")))
  commit-commit claim later_claim required later_required p q cls other receipt second now at db {c}
        h run same_attempt same_step =
      let was =
        Runs-IsCommitted p.attempt_id p.step_index c run
          (commit-IsCommitted claim required p cls receipt now db h) in
      (
        IsCommitted-load p.attempt_id p.step_index c _ was,
        IsCommitted-refused (store_of key later_claim later_required) q other second at c _
            (rw (same_attempt, same_step) was),
      )
