-- ===== src/Recovery/System/Issued.antt =====
-- What the calls of the workers do to a permit in flight and to a commit on record.
use illusiontion.Prelude.{
  ℕ, String, ◌≡◌, ◌≢◌, refl, sym, ap, ◌∙◌, subst, false, none, some, List, [], ◌∷◌, ◌++◌, arith,
  inl, inr, any, ◌==◌,
}
use illusiontion.Host.{Host, RuntimeKey}
use illusiontion.Recovery.Records.Actions.{Permit, Commit}
use illusiontion.Recovery.Database.{Database, AttemptRow, ActionRow}
use illusiontion.Recovery.ActionStore.{find_action, insert_action, set_commit}
use illusiontion.Recovery.ActionStore.Linked.{
  Linked, idle, waiting, committed, find_action-eq-some, set_commit_hit, set_commit_miss,
}

-- The permit of a step is in flight: the attempt waits for its commit.
pub record IsInFlight (a : String) (k : ℕ) (digest : String) (db : Database) : Type 0 where
  pub row : AttemptRow
  pub action : ActionRow
  pub found : db.attempts a ≡ some row
  pub running : row.completed ≡ false
  pub in_flight : row.in_flight_permit_sha256 ≡ some digest
  pub found_action : find_action k (db.actions a) ≡ some action
  pub unset : action.commit ≡ none

-- A commit of a step is on record.
pub record IsCommitted (a : String) (k : ℕ) (c : Commit) (db : Database) : Type 0 where
  pub row : AttemptRow
  pub action : ActionRow
  pub found : db.attempts a ≡ some row
  pub found_action : find_action k (db.actions a) ≡ some action
  pub commit : action.commit ≡ some c

-- What leaves the rows of an attempt as they were leaves both facts.
pub record SameAttempt (a : String) (db after : Database) : Type 0 where
  pub attempts : after.attempts a ≡ db.attempts a
  pub actions : after.actions a ≡ db.actions a

pub SameAttempt-IsInFlight :
    (a : String) (k : ℕ) (digest : String) {db after : Database}
    → SameAttempt a db after
    → IsInFlight a k digest db
    → IsInFlight a k digest after
SameAttempt-IsInFlight a k digest kept was = record {
  row = was.row;
  action = was.action;
  found = kept.attempts ∙ was.found;
  running = was.running;
  in_flight = was.in_flight;
  found_action = ap (find_action k) kept.actions ∙ was.found_action;
  unset = was.unset;
}

pub SameAttempt-IsCommitted :
    (a : String) (k : ℕ) (c : Commit) {db after : Database}
    → SameAttempt a db after
    → IsCommitted a k c db
    → IsCommitted a k c after
SameAttempt-IsCommitted a k c kept was = record {
  row = was.row;
  action = was.action;
  found = kept.attempts ∙ was.found;
  found_action = ap (find_action k) kept.actions ∙ was.found_action;
  commit = was.commit;
}

find_action_nil : (k : ℕ) {action : ActionRow} → find_action k [] ≡ some action → ⊥
unfolding find_action
find_action_nil k e = cc

find_action_here :
    (k : ℕ) (r : ActionRow) (rs : List ActionRow)
    → r.step_index ≡ k
    → find_action k (r ∷ rs) ≡ some r
unfolding find_action
find_action_here k r rs e = ground arith

find_action_there :
    (k : ℕ) (r : ActionRow) (rs : List ActionRow)
    → r.step_index ≢ k
    → find_action k (r ∷ rs) ≡ find_action k rs
unfolding find_action
find_action_there k r rs e = ground arith

find_action_end :
    (new : ActionRow) (rows : List ActionRow)
    → any (λ row. row.step_index == new.step_index) rows ≡ false
    → find_action new.step_index (rows ++ new ∷ []) ≡ some new
unfolding find_action
find_action_end new [] e = ground arith
find_action_end new (r ∷ rs) e = ground (arith, find_action_end new rs)

-- The row that `insert_action` adds is found.
pub find_action-insert_action :
    (i : ℕ) (p : Permit) (rows : List ActionRow) {after : List ActionRow}
    → insert_action (record { step_index = i; permit = p; commit = none }) rows ≡ some after
    → find_action i after ≡ some (record { step_index = i; permit = p; commit = none })
unfolding insert_action
find_action-insert_action i p rows {after} e =
    let new : ActionRow = record { step_index = i; permit = p; commit = none } in
    let appended : rows ++ new ∷ [] ≡ after = ground arith in
    subst (λ all. find_action i all ≡ some new) appended (find_action_end new rows (ground arith))

module _ ⦃host : Host⦄ (key : RuntimeKey) where
  -- The step of a permit that waits for its commit is the next step of its row.
  pub Linked-waits :
      (a lease : String) (row : AttemptRow) {i : ℕ} {s : String} {rows : List ActionRow} (k : ℕ)
      {action : ActionRow}
      → Linked key a lease row i s rows
      → find_action k rows ≡ some action
      → action.commit ≡ none
      → row.next_step ≡ k
  Linked-waits a lease row k (idle at state free) found unset = absurd (find_action_nil k found)
  Linked-waits a lease row k (waiting {r = r} at issued none_yet here state taken) found unset =
      elim (find_action-eq-some key a lease k r [] found) [
        | inl (hit, same_row) ↦ omega (arith, at, here, hit)
        | inr (miss, later) ↦ absurd (find_action_nil k later)
      ]
  Linked-waits a lease row k (committed {r = r} {rs = rs} c at issued is_c closed rest) found
        unset =
      elim (find_action-eq-some key a lease k r rs found) [
        | inl (hit, same_row) ↦ cc
        | inr (miss, later) ↦ Linked-waits a lease row k rest later unset
      ]

  pub find_action_append :
      (k : ℕ) (rows more : List ActionRow) {action : ActionRow}
      → find_action k rows ≡ some action
      → find_action k (rows ++ more) ≡ some action
  find_action_append k [] more e = absurd (find_action_nil k e)
  find_action_append k (r ∷ rs) more e = elim (find_action-eq-some key "" "" k r rs e) [
    | inl (hit, same_row) ↦ find_action_here k r (rs ++ more) hit ∙ ap some (sym same_row)
    | inr (miss, later) ↦
        find_action_there k r (rs ++ more) miss ∙ find_action_append k rs more later
  ]

  pub find_action-set_commit :
      (k : ℕ) (c : Commit) (rows : List ActionRow) {action : ActionRow}
      → find_action k rows ≡ some action
      → find_action k (set_commit k c rows) ≡ some (record action { commit = some c })
  find_action-set_commit k c [] e = absurd (find_action_nil k e)
  find_action-set_commit k c (r ∷ rs) e = elim (find_action-eq-some key "" "" k r rs e) [
    | inl (hit, same_row) ↦
        rw (set_commit_hit key "" "" k c r rs hit, same_row)
          (find_action_here k (record r { commit = some c }) _ hit)
    | inr (miss, later) ↦
        rw (set_commit_miss key "" "" k c r rs miss)
          (find_action_there k r _ miss ∙ find_action-set_commit k c rs later)
  ]

  -- A commit of another step changes nothing at this one.
  pub find_action-set_commit_other :
      (k j : ℕ) (c : Commit) (rows : List ActionRow)
      → j ≢ k
      → find_action k (set_commit j c rows) ≡ find_action k rows
  unfolding find_action set_commit
  find_action-set_commit_other k j c [] differ = refl
  find_action-set_commit_other k j c (r ∷ rs) differ =
      ground (arith, find_action-set_commit_other k j c rs differ)
