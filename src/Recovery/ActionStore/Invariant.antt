-- ===== src/Recovery/ActionStore/Invariant.antt =====
-- The invariant of the two tables of the action store, kept by every call of every worker.
use illusiontion.Prelude.{
  ℕ, String, ◌≡◌, refl, true, false, Option, none, some, List, [], ◌∷◌, ◌++◌, arith, Bool-cases,
  inl, inr, ok, eq_iff, same, subst, and-eq-true, ==→eq,
}
use mathlib.Core.Bool.{decide_iff}
use illusiontion.Host.{Host, RuntimeKey, sha256_object-ne-empty}
use illusiontion.Recovery.Records.Claims.{ReviewerName, ReviewerName-discrete, ActionClass}
use illusiontion.Recovery.Records.Actions.{
  Permit, Commit, Chain, same_permit, sign_permit, sign_commit, permit_digest_payload,
  permit_payload, commit_digest_payload, commit_payload,
}
use illusiontion.Recovery.Database.{Database, AttemptRow, ActionRow, put, is_set, empty_database}
use illusiontion.Recovery.ActionStore.{
  ActionStore, insert_action, unsigned_permit, unsigned_commit, begin_attempt, authorize, commit,
  finalize,
}
use illusiontion.Recovery.Chaining.{atomic_execution_policy_sha256, atomic_initial_state_sha256}
use illusiontion.Recovery.ActionStore.Linked.{
  IsIssued, IsClosed, Linked, idle, waiting, committed, authorized_row, committed_row,
  append-Linked, set_commit-Linked,
}
use illusiontion.Recovery.ActionStore.Steps.{
  begin_attempt-Begins, authorize-Authorizes, commit-Commits, finalize-Finalizes,
}

module _ ⦃host : Host⦄ (key : RuntimeKey) where
  -- No row: no actions. A row: the policy is the current one, and the actions lead from the
  -- initial state of the attempt to what the row records.
  abbrev pub SoundRow : String → Option AttemptRow → List ActionRow → Type 0
  SoundRow a none actions = actions ≡ []
  SoundRow a (some row) actions =
      (row.policy_sha256 ≡ atomic_execution_policy_sha256)
      × Linked key a row.lease_set_sha256 row 0 (atomic_initial_state_sha256 a row.lease_set_sha256)
          actions

  pub record IsSound (db : Database) : Type 0 where
    pub at : (a : String) → SoundRow a (db.attempts a) (db.actions a)

  pub IsSound-empty : IsSound empty_database
  IsSound-empty = record { at = λ a. refl }

  -- Writing the two tables at one attempt.
  put-SoundRow :
      (db : Database) (a : String) (row : AttemptRow) (actions : List ActionRow)
      → IsSound db
      → SoundRow a (some row) actions
      → (j : String) → SoundRow j (put a (some row) db.attempts j) (put a actions db.actions j)
  put-SoundRow db a row actions sound new j = elim (Bool-cases (same a j)) [
    | inl hit ↦ rw (hit, ← (eq_iff a j).0 hit) new
    | inr miss ↦ rw miss (sound.at j)
  ]

  -- In a sound chain an in-flight digest that counts as unset is null.
  free-Linked :
      {a lease : String} (row : AttemptRow) {i : ℕ} {s : String} {rows : List ActionRow}
      → is_set row.in_flight_permit_sha256 ≡ false
      → Linked key a lease row i s rows
      → row.in_flight_permit_sha256 ≡ none
  free-Linked row unset (idle _ _ free) = free
  free-Linked row unset (waiting {r = r} _ issued _ _ _ taken) =
      absurd
        (ground (arith, issued.digest, sha256_object-ne-empty (permit_digest_payload r.permit)))
  free-Linked row unset (committed c _ _ _ _ rest) = free-Linked row unset rest

  pub free-SoundRow :
      {a : String} (row : AttemptRow) {actions : List ActionRow}
      → is_set row.in_flight_permit_sha256 ≡ false
      → SoundRow a (some row) actions
      → row.in_flight_permit_sha256 ≡ none
  free-SoundRow row unset sound = free-Linked row unset sound.1

  sound_at :
      (db : Database) (a : String) {row : AttemptRow}
      → IsSound db
      → db.attempts a ≡ some row
      → SoundRow a (some row) (db.actions a)
  sound_at db a sound found =
      subst (λ (o : Option AttemptRow). SoundRow a o (db.actions a)) found (sound.at a)

  no_actions_at :
      (db : Database) (a : String) → IsSound db → db.attempts a ≡ none → db.actions a ≡ []
  no_actions_at db a sound found =
      subst (λ (o : Option AttemptRow). SoundRow a o (db.actions a)) found (sound.at a)

  pub sound_row :
      (db : Database) (a : String) (row : AttemptRow)
      → IsSound db
      → db.attempts a ≡ some row
      → SoundRow a (some row) (db.actions a)
  sound_row db a row = sound_at db a

insert_action-eq-some :
    (new : ActionRow) (rows : List ActionRow) {after : List ActionRow}
    → insert_action new rows ≡ some after
    → after ≡ rows ++ new ∷ []
unfolding insert_action
insert_action-eq-some new rows h = ground arith

same_permit→eq : (p q : Permit) → same_permit p q ≡ true → p ≡ q
unfolding same_permit
same_permit→eq p q h =
    let (r9, h10) = and-eq-true _ _ h in
    let (r8, h9) = and-eq-true _ _ r9 in
    let (r7, h8) = and-eq-true _ _ r8 in
    let (r6, h7) = and-eq-true _ _ r7 in
    let (r5, h6) = and-eq-true _ _ r6 in
    let (r4, h5) = and-eq-true _ _ r5 in
    let (r3, h4) = and-eq-true _ _ r4 in
    let (r2, h3) = and-eq-true _ _ r3 in
    let (h1, h2) = and-eq-true _ _ r2 in
    λ i. record {
      attempt_id = (eq_iff p.attempt_id q.attempt_id).0 h1 i;
      attempt_lease_set_sha256 =
          (eq_iff p.attempt_lease_set_sha256 q.attempt_lease_set_sha256).0 h2 i;
      step_index = ==→eq p.step_index q.step_index h3 i;
      reviewer = (decide_iff (ReviewerName-discrete p.reviewer q.reviewer)).0 h4 i;
      distributed_worker_claim_sha256 =
          (eq_iff p.distributed_worker_claim_sha256 q.distributed_worker_claim_sha256).0 h5 i;
      prior_state_sha256 = (eq_iff p.prior_state_sha256 q.prior_state_sha256).0 h6 i;
      permit_nonce = (eq_iff p.permit_nonce q.permit_nonce).0 h7 i;
      issued_at = (eq_iff p.issued_at q.issued_at).0 h8 i;
      permit_sha256 = (eq_iff p.permit_sha256 q.permit_sha256).0 h9 i;
      runtime_signature = (eq_iff p.runtime_signature q.runtime_signature).0 h10 i;
    }

module _ ⦃host : Host⦄ (store : ActionStore) where
  sign_permit-IsIssued :
      (a : String) (i : ℕ) (reviewer : ReviewerName) (nonce now : String) (row : AttemptRow)
      → IsIssued store.key a row.lease_set_sha256 i row.state_sha256
          (sign_permit store.key (unsigned_permit store a reviewer nonce now row i))
  unfolding sign_permit unsigned_permit permit_digest_payload permit_payload
  sign_permit-IsIssued a i reviewer nonce now row = record {
    attempt_id = refl;
    lease_set = refl;
    step_index = refl;
    prior_state = refl;
    digest = refl;
    signature = refl;
  }

  sign_commit-IsClosed :
      (p : Permit) (cls : ActionClass) (receipt now : String)
      → IsClosed store.key p (sign_commit store.key (unsigned_commit store p cls receipt now))
  unfolding sign_commit unsigned_commit commit_digest_payload commit_payload
  sign_commit-IsClosed p cls receipt now = record {
    attempt_id = refl;
    step_index = refl;
    reviewer = refl;
    permit = refl;
    prior_state = refl;
    next_state = refl;
    digest = refl;
    signature = refl;
  }

  pub begin_attempt-IsSound :
      (a lease now : String) (db : Database) {after : Database}
      → begin_attempt store a lease now db ≡ ok (tt, after)
      → IsSound store.key db
      → IsSound store.key after
  begin_attempt-IsSound a lease now db h sound =
      let b = begin_attempt-Begins store a lease now db h in
      rw b.written (record {
        at = λ j. elim (Bool-cases (same a j)) [
          | inl hit ↦
              rw (hit, ← (eq_iff a j).0 hit)
                (refl, rw (no_actions_at store.key db a sound b.unused) (idle refl refl refl))
          | inr miss ↦ rw miss (sound.at j)
        ];
      })

  pub authorize-IsSound :
      (a : String) (i : ℕ) (reviewer : ReviewerName) (nonce now : String) (db : Database)
      {p : Permit} {after : Database}
      → authorize store a i reviewer nonce now db ≡ ok (p, after)
      → IsSound store.key db
      → IsSound store.key after
  authorize-IsSound a i reviewer nonce now db {p} h sound =
      let f = authorize-Authorizes store a i reviewer nonce now db h in
      let at = sound_row store.key db a f.row sound f.found in
      let free = free-SoundRow store.key f.row f.free at in
      let issued : IsIssued store.key a f.row.lease_set_sha256 f.row.next_step f.row.state_sha256
          p =
        rw (f.permit, f.in_order) (sign_permit-IsIssued a i reviewer nonce now f.row) in
      let rows = insert_action-eq-some _ (db.actions a) f.fresh in
      rw f.written (record {
        at =
            put-SoundRow store.key db a (authorized_row store.key a f.row.lease_set_sha256 p f.row)
              f.rows sound
              (
                at.0,
                rw (rows, ← f.in_order)
                    (append-Linked store.key a f.row.lease_set_sha256 f.row p free issued at.1),
              );
      })

  pub commit-IsSound :
      (permit : Permit) (cls : ActionClass) (receipt now : String) (db : Database) {c : Commit}
      {after : Database}
      → commit store permit cls receipt now db ≡ ok (c, after)
      → IsSound store.key db
      → IsSound store.key after
  commit-IsSound p cls receipt now db {c} h sound =
      let f = commit-Commits store p cls receipt now db h in
      let at = sound_row store.key db p.attempt_id f.row sound f.found in
      let closes : IsClosed store.key f.action.permit c =
        rw (f.commit, same_permit→eq f.action.permit p f.unchanged)
          (sign_commit-IsClosed p cls receipt now) in
      rw f.written (record {
        at =
            put-SoundRow store.key db p.attempt_id
              (committed_row store.key p.attempt_id f.row.lease_set_sha256 p.step_index c f.row) _
              sound
              (
                at.0,
                set_commit-Linked store.key p.attempt_id f.row.lease_set_sha256 f.row p.step_index
                    f.action c f.found_action f.unset closes at.1,
              );
      })

  -- Marking an attempt as completed leaves its chain as it is.
  completed-Linked :
      {a lease : String} (row : AttemptRow) {i : ℕ} {s : String} {rows : List ActionRow}
      → Linked store.key a lease row i s rows
      → Linked store.key a lease (record row { completed = true }) i s rows
  completed-Linked row (idle at state free) = idle at state free
  completed-Linked row (waiting at issued unset here state taken) =
      waiting at issued unset here state taken
  completed-Linked row (committed c at issued done closed rest) =
      committed c at issued done closed (completed-Linked row rest)

  pub finalize-IsSound :
      (a : String) (n : ℕ) (db : Database) {chain : Chain} {after : Database}
      → finalize store a n db ≡ ok (chain, after)
      → IsSound store.key db
      → IsSound store.key after
  finalize-IsSound a n db h sound =
      let f = finalize-Finalizes store a n db h in
      let at = sound_row store.key db a f.row sound f.found in
      rw f.written (record {
        at = λ j. elim (Bool-cases (same a j)) [
          | inl hit ↦ rw (hit, ← (eq_iff a j).0 hit) (at.0, completed-Linked f.row at.1)
          | inr miss ↦ rw miss (sound.at j)
        ];
      })
