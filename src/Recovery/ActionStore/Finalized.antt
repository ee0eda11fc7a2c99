-- ===== src/Recovery/ActionStore/Finalized.antt =====
-- The chain that `finalize` returns is one that the verifier accepts.
use illusiontion.Prelude.{
  ℕ, suc, String, ◌≡◌, refl, sym, ◌∙◌, ap, subst, some, List, [], ◌∷◌, map, arith, ok, length,
}
use illusiontion.Host.{Host, RuntimeKey, sha256_object}
use illusiontion.Recovery.Records.Claims.{ReviewerName}
use illusiontion.Recovery.Records.Actions.{ActionStep, Chain, Trace, chain_payload}
use illusiontion.Recovery.Database.{Database, AttemptRow}
use illusiontion.Recovery.ActionStore.{ActionStore, finalize, unsigned_chain}
use illusiontion.Recovery.Chaining.{
  action_attempt_context_sha256, atomic_initial_state_sha256, atomic_execution_policy_sha256,
}
use illusiontion.Recovery.ActionStore.Linked.{
  LinkedSteps, committed_steps-LinkedSteps, order_by-Linked,
}
use illusiontion.Recovery.ActionStore.Steps.{finalize-Finalizes}
use illusiontion.Recovery.ActionStore.Invariant.{IsSound, SoundRow, sound_row, free-SoundRow}
use illusiontion.Recovery.ActionStore.Verify.{call_id_at, verify_atomic_execution_chain}
use illusiontion.Recovery.ActionStore.Admitted.{Walk, IsVerified}
use illusiontion.Recovery.ActionStore.Verified.{verify_atomic_execution_chain_iff}

-- The reviewers of the steps, in their order.
abbrev pub reviewers_of : List ActionStep → List ReviewerName
reviewers_of steps = map (λ (step : ActionStep). step.permit.reviewer) steps

module _ ⦃host : Host⦄ where
  -- The traces show the reviewer, the class and the receipt that each step committed, and the
  -- context of its permit.
  abbrev pub Traced : (lease : String) → List String → ℕ → List ActionStep → List Trace → Type 0
  Traced lease call_ids idx [] [] = Unit
  Traced lease call_ids idx (step ∷ steps) (trace ∷ traces) =
      ((trace.reviewer ≡ step.permit.reviewer)
        × (trace.attempt_context_sha256
            ≡ action_attempt_context_sha256 lease step.permit.permit_sha256
                (call_id_at call_ids idx))
        × (step.commit.action_class ≡ trace.action_class)
        × (step.commit.receipt_signature ≡ trace.receipt_signature))
      × Traced lease call_ids (suc idx) steps traces
  Traced lease call_ids idx _ _ = ⊥

  LinkedSteps-Walk :
      (key : RuntimeKey) (a lease : String) (call_ids : List String) (idx : ℕ) (state : String)
      (steps : List ActionStep) (traces : List Trace) (final : String)
      → LinkedSteps key a lease idx state steps final
      → Traced lease call_ids idx steps traces
      → Walk key a lease call_ids idx state (reviewers_of steps) steps traces final
  LinkedSteps-Walk key a lease call_ids idx state [] [] final linked traced = linked
  LinkedSteps-Walk key a lease call_ids idx state [] (t ∷ ts) final linked traced = absurd traced
  LinkedSteps-Walk key a lease call_ids idx state (s ∷ ss) [] final linked traced = absurd traced
  LinkedSteps-Walk key a lease call_ids idx state (s ∷ ss) (t ∷ ts) final (issued, closed, rest)
        (seen, traced) =
      (
        record {
          issued = issued;
          closed = closed;
          permit_reviewer = refl;
          trace_reviewer = seen.0;
          context = seen.1;
          action_class = seen.2;
          receipt = seen.3;
        },
        LinkedSteps-Walk key a lease call_ids (suc idx) s.commit.next_state_sha256 ss ts final rest
            traced,
      )

module _ ⦃host : Host⦄ (store : ActionStore) where
  -- What a finished chain consists of, in a sound database.
  finalized_parts :
      (a : String) (n : ℕ) (db : Database) {chain : Chain} {after : Database}
      → IsSound store.key db
      → finalize store a n db ≡ ok (chain, after)
      → (row : AttemptRow) × (steps : List ActionStep) × (chain
          ≡ record (unsigned_chain store a row steps) {
            chain_sha256 = sha256_object (chain_payload (unsigned_chain store a row steps));
          })
        × SoundRow store.key a (some row) (db.actions a)
        × LinkedSteps store.key a row.lease_set_sha256 0
            (atomic_initial_state_sha256 a row.lease_set_sha256)
            steps
            row.state_sha256
        × (length steps ≡ n)
  finalized_parts a n db sound h =
      let f = finalize-Finalizes store a n db h in
      let at = sound_row store.key db a f.row sound f.found in
      let free = free-SoundRow store.key f.row f.free at in
      let (steps, found, linked, long) =
        committed_steps-LinkedSteps store.key a f.row.lease_set_sha256 f.row free at.1 in
      let ordered = order_by-Linked store.key a f.row.lease_set_sha256 f.row at.1 in
      let same_steps : f.steps ≡ steps = ground (arith, f.committed, ordered, found) in
      (
        f.row,
        f.steps,
        f.built,
        at,
        rw same_steps linked,
        rw same_steps (omega (arith, long, f.all_steps)),
      )

  -- The digest does not cover the field that holds it.
  chain_payload-digest :
      (a : String) (row : AttemptRow) (steps : List ActionStep) (d : String)
      → chain_payload (record (unsigned_chain store a row steps) { chain_sha256 = d })
        ≡ chain_payload (unsigned_chain store a row steps)
  unfolding chain_payload unsigned_chain
  chain_payload-digest a row steps d = refl

  finalized-IsVerified :
      (a : String) (row : AttemptRow) (steps : List ActionStep) (call_ids : List String)
      (traces : List Trace)
      → row.policy_sha256 ≡ atomic_execution_policy_sha256
      → LinkedSteps store.key a row.lease_set_sha256 0
          (atomic_initial_state_sha256 a row.lease_set_sha256)
          steps
          row.state_sha256
      → Traced row.lease_set_sha256 call_ids 0 steps traces
      → IsVerified store.key a row.lease_set_sha256 call_ids
          (record (unsigned_chain store a row steps) {
            chain_sha256 = sha256_object (chain_payload (unsigned_chain store a row steps));
          })
          (reviewers_of steps)
          traces
  unfolding unsigned_chain
  finalized-IsVerified a row steps call_ids traces policy linked traced = record {
    attempt_id = refl;
    lease_set = refl;
    policy = policy;
    initial = refl;
    digest = ap sha256_object (sym (chain_payload-digest a row steps _));
    walk =
        LinkedSteps-Walk store.key a row.lease_set_sha256 call_ids 0 _ steps traces _ linked traced;
  }

  unsigned_chain_steps :
      (a : String) (row : AttemptRow) (steps : List ActionStep)
      → ((unsigned_chain store a row steps).steps ≡ steps)
        × ((unsigned_chain store a row steps).attempt_lease_set_sha256 ≡ row.lease_set_sha256)
  unfolding unsigned_chain
  unsigned_chain_steps a row steps = (refl, refl)

  -- The lease set and the steps may be read off the chain.
  read_off :
      (a : String) (call_ids : List String) (traces : List Trace) (chain : Chain) {lease : String}
      {steps : List ActionStep}
      → chain.attempt_lease_set_sha256 ≡ lease
      → chain.steps ≡ steps
      → IsVerified store.key a lease call_ids chain (reviewers_of steps) traces
      → IsVerified store.key a chain.attempt_lease_set_sha256 call_ids chain
          (reviewers_of chain.steps)
          traces
  read_off a call_ids traces chain {lease} lease_of steps_of v =
      subst (λ l. IsVerified store.key a l call_ids chain (reviewers_of chain.steps) traces)
        (sym lease_of)
        (subst (λ ss. IsVerified store.key a lease call_ids chain (reviewers_of ss) traces)
          (sym steps_of) v)

  -- In a sound database, a chain that `finalize` returns has the expected number of steps, and
  -- `verify_atomic_execution_chain` reports nothing on it, given traces that show for each step its
  -- reviewer, context, class and receipt.
  pub finalize-verify :
      (a : String) (n : ℕ) (db : Database) (call_ids : List String) (traces : List Trace)
      {chain : Chain} {after : Database}
      → IsSound store.key db
      → finalize store a n db ≡ ok (chain, after)
      → Traced chain.attempt_lease_set_sha256 call_ids 0 chain.steps traces
      → (length chain.steps ≡ n)
        × (verify_atomic_execution_chain store.key a chain.attempt_lease_set_sha256 call_ids chain
              (reviewers_of chain.steps)
              traces
            ≡ [])
  finalize-verify a n db call_ids traces {chain} sound h traced =
      let (row, steps, built, at, linked, long) = finalized_parts a n db sound h in
      let (same_steps, same_lease) = unsigned_chain_steps a row steps in
      let steps_of : chain.steps ≡ steps = ap (λ (c : Chain). c.steps) built ∙ same_steps in
      let lease_of : chain.attempt_lease_set_sha256 ≡ row.lease_set_sha256 =
        ap (λ (c : Chain). c.attempt_lease_set_sha256) built ∙ same_lease in
      let verified : IsVerified store.key a row.lease_set_sha256 call_ids chain (reviewers_of steps)
          traces =
        rw built (
          finalized-IsVerified a row steps call_ids traces at.0 linked
            (rw (lease_of, steps_of) at traced)) in
      (
        rw steps_of long,
        (verify_atomic_execution_chain_iff store.key a chain.attempt_lease_set_sha256 call_ids chain
              (reviewers_of chain.steps) traces).1
            (read_off a call_ids traces chain lease_of steps_of verified),
      )
