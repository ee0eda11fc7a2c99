-- ===== src/Recovery/ActionStore/Flow.antt =====
-- The permit that follows a commit.
use illusiontion.Prelude.{
  ℕ, ◌+◌, String, ◌≡◌, refl, sym, ap, ◌∙◌, none, some, some_injective, ok, eq_refl,
}
use illusiontion.Host.{Host}
use illusiontion.Recovery.Records.Claims.{ReviewerName, ActionClass}
use illusiontion.Recovery.Records.Actions.{Permit, Commit, sign_permit}
use illusiontion.Recovery.Database.{Database, AttemptRow}
use illusiontion.Recovery.ActionStore.{ActionStore, authorize, commit, unsigned_permit}
use illusiontion.Recovery.ActionStore.Steps.{authorize-Authorizes, commit-Commits}

module _ ⦃host : Host⦄ (store : ActionStore) where
  -- A commit moves the attempt to the next step and the commit's state: the only permit that the
  -- store can issue on it next is for the step that follows, from the state the commit computed.
  pub commit-authorize :
      (permit : Permit) (cls : ActionClass) (receipt now : String) (db : Database) {c : Commit}
      {after : Database}
      → commit store permit cls receipt now db ≡ ok (c, after)
      → (j : ℕ) (r : ReviewerName) (nonce later : String) {p : Permit} {last : Database}
      → authorize store permit.attempt_id j r nonce later after ≡ ok (p, last)
      → (j ≡ permit.step_index + 1) × (p.prior_state_sha256 ≡ c.next_state_sha256)
  unfolding sign_permit unsigned_permit
  commit-authorize permit cls receipt now db {c} {after} h j r nonce later {p} {last} g =
      let f = commit-Commits store permit cls receipt now db h in
      let f2 = authorize-Authorizes store permit.attempt_id j r nonce later after g in
      let found : after.attempts permit.attempt_id
          ≡ some (record f.row {
            next_step = permit.step_index + 1;
            state_sha256 = c.next_state_sha256;
            in_flight_permit_sha256 = none;
          }) =
        rw (f.written, eq_refl permit.attempt_id) refl in
      let row = some_injective (sym f2.found ∙ found) in
      (
        sym f2.in_order ∙ ap (λ (r : AttemptRow). r.next_step) row,
        ap (λ (q : Permit). q.prior_state_sha256) f2.permit
            ∙ ap (λ (r : AttemptRow). r.state_sha256) row,
      )
