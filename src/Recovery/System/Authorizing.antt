-- ===== src/Recovery/System/Authorizing.antt =====
-- One permit in flight for an attempt, over all calls of the workers.
use illusiontion.Prelude.{
  ℕ, String, ◌≡◌, refl, sym, ap, ◌∙◌, subst, true, false, Option, none, some, some_injective, inl,
  inr, ◌⊎◌, Bool, same, eq_iff, eq_refl, Bool-cases, ok, err, value_error, ◌>>◌, Result-cases,
}
use illusiontion.Host.{Host, RuntimeKey, sha256_object-ne-empty}
use illusiontion.Recovery.Records.Claims.{WorkerClaim, ReviewerName, ActionClass}
use illusiontion.Recovery.Records.Actions.{
  Permit, Commit, sign_permit, permit_digest_payload, sign_commit,
}
use illusiontion.Recovery.Database.{Database, AttemptRow, ActionRow, is_set}
use illusiontion.Recovery.ActionStore.{
  ActionStore, find_action, assert_worker, authorize, load_commit, unsigned_commit,
}
use illusiontion.Recovery.ActionStore.Steps.{
  begin_attempt-Begins, authorize-Authorizes, commit-Commits, finalize-Finalizes,
}
use illusiontion.Recovery.ActionStore.Invariant.{IsSound, SoundRow}
use illusiontion.Recovery.Coordinator.Claiming.{
  claim_worker-Claims, reserve_publication_time-SameClaims, publish-SameClaims,
}
use illusiontion.Recovery.System.{
  store_of, Step, claims, reserves, publishes, begins, authorizes, commits, finalizes, Runs, start,
  then_step, Step-IsSound,
}
use illusiontion.Recovery.System.Issued.{
  IsInFlight, IsCommitted, SameAttempt-IsInFlight, Linked-waits, find_action-insert_action,
}
use illusiontion.Recovery.System.Committing.{
  put_other, put_attempts_other, Step-IsCommitted, commit-IsCommitted, IsCommitted-load,
}

module _ ⦃host : Host⦄ (key : RuntimeKey) where
  not_free :
      (a b : String)
      → same b a ≡ true
      → (digest : String) (db : Database) (row : AttemptRow) → is_set (some digest) ≡ true
      → {k : ℕ} → IsInFlight a k digest db
      → db.attempts b ≡ some row
      → is_set row.in_flight_permit_sha256 ≡ false
      → ⊥
  not_free a b here digest db row set was found free =
      let same_row =
        some_injective (sym was.found ∙ sym (ap db.attempts ((eq_iff b a).0 here)) ∙ found) in
      let flying = ap (λ (r : AttemptRow). r.in_flight_permit_sha256) same_row in
      cc (ap is_set (sym was.in_flight ∙ flying), set, free)

  same_digest :
      (a b : String)
      → same b a ≡ true
      → (digest other : String) (db : Database) (row : AttemptRow) → {k : ℕ}
      → IsInFlight a k digest db
      → db.attempts b ≡ some row
      → row.in_flight_permit_sha256 ≡ some other
      → other ≡ digest
  same_digest a b here digest other db row was found flies =
      let same_row =
        some_injective (sym was.found ∙ sym (ap db.attempts ((eq_iff b a).0 here)) ∙ found) in
      some_injective (
        sym flies
        ∙ sym (ap (λ (r : AttemptRow). r.in_flight_permit_sha256) same_row)
        ∙ was.in_flight)

  commit_permit :
      (claim : Option WorkerClaim) (required : Bool) (p : Permit) (cls : ActionClass)
      (receipt now : String)
      → (sign_commit key
          (unsigned_commit (store_of key claim required) p cls receipt now)).permit_sha256
        ≡ p.permit_sha256
  unfolding sign_commit unsigned_commit
  commit_permit claim required p cls receipt now = refl

  -- In a sound database only one step of an attempt waits.
  same_step :
      (a : String) (k : ℕ) (digest : String) (db : Database)
      → IsSound key db
      → IsInFlight a k digest db
      → (j : ℕ) (action : ActionRow) → find_action j (db.actions a) ≡ some action
      → action.commit ≡ none
      → j ≡ k
  same_step a k digest db sound was j action found unset =
      let chain = (subst (λ o. SoundRow key a o (db.actions a)) was.found (sound.at a)).1 in
      sym (Linked-waits key a was.row.lease_set_sha256 was.row j chain found unset)
      ∙ Linked-waits key a was.row.lease_set_sha256 was.row k chain was.found_action was.unset

  -- What one call leaves of a permit in flight: it is in flight still, or its commit is on record.
  abbrev Remains : (a : String) (k : ℕ) (digest : String) → Database → Type 0
  Remains a k digest db =
      IsInFlight a k digest db ⊎ ((c : Commit) × IsCommitted a k c db × (c.permit_sha256 ≡ digest))

  Step-Remains :
      {db after : Database} (a : String) (k : ℕ) (digest : String)
      → is_set (some digest) ≡ true
      → IsSound key db
      → Step key db after
      → IsInFlight a k digest db
      → Remains a k digest after
  Step-Remains {db} {after} a k digest set sound (claims b w takeover nonce now h) was =
      let f = claim_worker-Claims key b w takeover nonce now db h in
      inl (
        SameAttempt-IsInFlight a k digest
          (record { attempts = rw f.written refl; actions = rw f.written refl }) was)
  Step-Remains {db} {after} a k digest set sound (reserves claim now h) was =
      let kept = reserve_publication_time-SameClaims key claim now db h in
      inl (
        SameAttempt-IsInFlight a k digest
          (record { attempts = rw kept.attempts refl; actions = rw kept.actions refl }) was)
  Step-Remains {db} {after} a k digest set sound (publishes claim p now h) was =
      let kept = publish-SameClaims key claim p now db h in
      inl (
        SameAttempt-IsInFlight a k digest
          (record { attempts = rw kept.attempts refl; actions = rw kept.actions refl }) was)
  Step-Remains {db} {after} a k digest set sound (begins claim required b lease now h) was =
      let f = begin_attempt-Begins (store_of key claim required) b lease now db h in
      elim (Bool-cases (same b a)) [
        | inr other ↦ inl (
            SameAttempt-IsInFlight a k digest (put_attempts_other a b db after _ other f.written)
              was)
        | inl here ↦ absurd (cc (ap db.attempts ((eq_iff b a).0 here), f.unused, was.found))
      ]
  Step-Remains {db} {after} a k digest set sound (authorizes claim required b i r nonce now h) was =
      let f = authorize-Authorizes (store_of key claim required) b i r nonce now db h in
      elim (Bool-cases (same b a)) [
        | inr other ↦
            inl (SameAttempt-IsInFlight a k digest (put_other a b db after _ _ other f.written) was)
        | inl here ↦ absurd (not_free a b here digest db f.row set was f.found f.free)
      ]
  Step-Remains {db} {after} a k digest set sound
        (commits claim required p cls receipt now {c = d} h) was =
      let f = commit-Commits (store_of key claim required) p cls receipt now db h in
      elim (Bool-cases (same p.attempt_id a)) [
        | inr other ↦ inl (
            SameAttempt-IsInFlight a k digest
              (put_other a p.attempt_id db after _ _ other f.written) was)
        | inl here ↦
            let e = (eq_iff p.attempt_id a).0 here in
            let step : p.step_index ≡ k =
              same_step a k digest db sound was p.step_index f.action
                (ap (λ b. find_action p.step_index (db.actions b)) (sym e) ∙ f.found_action)
                f.unset in
            inr (
              d,
              subst (λ b. IsCommitted b k d after) e
                  (subst (λ j. IsCommitted p.attempt_id j d after) step
                    (commit-IsCommitted key claim required p cls receipt now db h)),
              ap (λ (x : Commit). x.permit_sha256) f.commit
                  ∙ commit_permit claim required p cls receipt now
                  ∙ same_digest a p.attempt_id here digest p.permit_sha256 db f.row was f.found
                      f.in_flight,
            )
      ]
  Step-Remains {db} {after} a k digest set sound (finalizes claim required b n h) was =
      let f = finalize-Finalizes (store_of key claim required) b n db h in
      elim (Bool-cases (same b a)) [
        | inr other ↦ inl (
            SameAttempt-IsInFlight a k digest (put_attempts_other a b db after _ other f.written)
              was)
        | inl here ↦ absurd (not_free a b here digest db f.row set was f.found f.free)
      ]

  Runs-Remains :
      {db after : Database} (a : String) (k : ℕ) (digest : String)
      → is_set (some digest) ≡ true
      → IsSound key db
      → Runs key db after
      → IsInFlight a k digest db
      → IsSound key after × Remains a k digest after
  Runs-Remains a k digest set sound start was = (sound, inl was)
  Runs-Remains a k digest set sound (then_step run step) was =
      let (kept, left) = Runs-Remains a k digest set sound run was in
      (
        Step-IsSound key step kept,
        elim left [
          | inl flies ↦ Step-Remains a k digest set kept step flies
          | inr (c, committed, same_permit) ↦
              inr (c, Step-IsCommitted key a k c step committed, same_permit)
        ],
      )

  authorize-IsInFlight :
      (claim : Option WorkerClaim) (required : Bool) (a : String) (i : ℕ) (r : ReviewerName)
      (nonce now : String) (db : Database) {p : Permit} {after : Database}
      → authorize (store_of key claim required) a i r nonce now db ≡ ok (p, after)
      → IsInFlight a i p.permit_sha256 after
  authorize-IsInFlight claim required a i r nonce now db {p} {after} h =
      let f = authorize-Authorizes (store_of key claim required) a i r nonce now db h in
      record {
        row = record f.row { in_flight_permit_sha256 = some p.permit_sha256 };
        action = record { step_index = i; permit = p; commit = none };
        found = rw (f.written, eq_refl a) refl;
        running = f.running;
        in_flight = refl;
        found_action =
            rw (f.written, eq_refl a) (find_action-insert_action i p (db.actions a) f.fresh);
        unset = refl;
      }

  signed_set : (p : Permit) → is_set (some (sign_permit key p).permit_sha256) ≡ true
  unfolding sign_permit
  signed_set p = rw (sha256_object-ne-empty (permit_digest_payload p)) refl

  IsInFlight-refused :
      (store : ActionStore) (a : String) (j : ℕ) (r : ReviewerName) (nonce now : String) {k : ℕ}
      (digest : String) (db : Database)
      → is_set (some digest) ≡ true
      → IsInFlight a k digest db
      → authorize store a j r nonce now db
        ≡ (assert_worker store db >> err (value_error "atomic-action-already-in-flight"))
  unfolding authorize
  IsInFlight-refused store a j r nonce now digest db set was =
      elim (Result-cases (assert_worker store db)) [
        | inl (e, refused) ↦ rw refused refl
        | inr (u, current) ↦ rw (current, was.found, was.running, was.in_flight, set) refl
      ]

  -- While a permit is in flight no other permit of its attempt is issued. After an authorize in a
  -- sound database and any calls of the coordinator and the action store by any workers with the
  -- same key, either the permit has been committed: a commit with its digest is on record for its
  -- step; or every authorize on the attempt, at every step and for every reviewer, is refused:
  -- because its worker is not the current one, or else as already in flight.
  pub authorize-authorize :
      (claim : Option WorkerClaim) (required : Bool) (a : String) (i : ℕ) (r : ReviewerName)
      (nonce now : String) (db : Database) {p : Permit} {after later : Database}
      → IsSound key db
      → authorize (store_of key claim required) a i r nonce now db ≡ ok (p, after)
      → Runs key after later
      → ((c : Commit) × (load_commit a i later ≡ some c) × (c.permit_sha256 ≡ p.permit_sha256))
        ⊎ ((later_claim : Option WorkerClaim) (later_required : Bool) (j : ℕ) (q : ReviewerName)
              (other at : String)
            → authorize (store_of key later_claim later_required) a j q other at later ≡ (
                assert_worker (store_of key later_claim later_required) later
                >> err (value_error "atomic-action-already-in-flight")))
  authorize-authorize claim required a i r nonce now db {p} {after} {later} sound h run =
      let f = authorize-Authorizes (store_of key claim required) a i r nonce now db h in
      let set : is_set (some p.permit_sha256) ≡ true = rw f.permit (signed_set _) in
      let then_sound = Step-IsSound key (authorizes claim required a i r nonce now h) sound in
      let (_, left) =
        Runs-Remains a i p.permit_sha256 set then_sound run
          (authorize-IsInFlight claim required a i r nonce now db h) in
      elim left [
        | inl flies ↦ inr (λ later_claim later_required j q other at.
            IsInFlight-refused (store_of key later_claim later_required) a j q other at
              p.permit_sha256 later set flies)
        | inr (c, committed, same_permit) ↦
            inl (c, IsCommitted-load key a i c later committed, same_permit)
      ]
