-- ===== src/Recovery/ActionStore/Verified.antt =====
-- What `verify_atomic_execution_chain` accepts, stated without its tests.
use illusiontion.Prelude.{
  ℕ, suc, String, ◌≡◌, ◌↔◌, refl, ap, true, ◌&&◌, List, [], ◌∷◌, arith, eq_iff, same, ◌==◌, length,
  and-eq-true, ==→eq, failures, AllPass, failures-eq-nil, failures-AllPass, sorted_set-eq-nil,
  sorted_set-nil, append-eq-nil, eq→same, eq→==, and_true, Bool-cases, inl, inr,
}
use illusiontion.Host.{Host, RuntimeKey}
use illusiontion.Recovery.Records.Claims.{ReviewerName}
use illusiontion.Recovery.Records.Actions.{ActionStep, Chain, Trace}
use illusiontion.Recovery.Chaining.{atomic_initial_state_sha256, atomic_next_state_sha256}
use illusiontion.Recovery.ActionStore.Verify.{
  step_checks, walk_steps, chain_checks, verify_atomic_execution_chain,
}
use illusiontion.Recovery.ActionStore.Admitted.{
  Walk, IsVerified, step_checks-StepHolds, StepHolds-step_checks,
}

module _ ⦃host : Host⦄ (key : RuntimeKey) (attempt lease : String) (call_ids : List String) where
  walk_steps-Walk :
      (idx : ℕ) (state : String) (reviewers : List ReviewerName) (steps : List ActionStep)
      (traces : List Trace) (final : String)
      → length steps ≡ length reviewers
      → length traces ≡ length reviewers
      → (walk_steps key attempt lease call_ids idx state reviewers steps traces).0 ≡ []
      → final ≡ (walk_steps key attempt lease call_ids idx state reviewers steps traces).1
      → Walk key attempt lease call_ids idx state reviewers steps traces final
  unfolding walk_steps
  walk_steps-Walk idx state [] [] [] final m n e f = f
  walk_steps-Walk idx state [] [] (t ∷ ts) final m n e f = absurd (omega arith)
  walk_steps-Walk idx state [] (s ∷ ss) ts final m n e f = absurd (omega arith)
  walk_steps-Walk idx state (r ∷ rs) [] ts final m n e f = absurd (omega arith)
  walk_steps-Walk idx state (r ∷ rs) (s ∷ ss) [] final m n e f = absurd (omega arith)
  walk_steps-Walk idx state (r ∷ rs) (s ∷ ss) (t ∷ ts) final m n e f =
      let (here, later) =
        append-eq-nil (failures (step_checks key attempt lease call_ids idx state r s t)) _ e in
      let holds =
        step_checks-StepHolds key attempt lease call_ids idx state r s t
          (failures-eq-nil (step_checks key attempt lease call_ids idx state r s t) here) in
      let next : s.commit.next_state_sha256
          ≡ atomic_next_state_sha256 state s.permit.permit_sha256 s.commit.action_class
              s.commit.receipt_signature =
        rw (← holds.issued.prior_state) holds.closed.next_state in
      (
        holds,
        rw next (walk_steps-Walk (suc idx) _ rs ss ts final (omega arith) (omega arith) later f),
      )

  Walk-walk_steps :
      (idx : ℕ) (state : String) (reviewers : List ReviewerName) (steps : List ActionStep)
      (traces : List Trace) (final : String)
      → Walk key attempt lease call_ids idx state reviewers steps traces final
      → (length steps ≡ length reviewers)
        × (length traces ≡ length reviewers)
        × ((walk_steps key attempt lease call_ids idx state reviewers steps traces).0 ≡ [])
        × (final ≡ (walk_steps key attempt lease call_ids idx state reviewers steps traces).1)
  unfolding walk_steps
  Walk-walk_steps idx state [] [] [] final h = (refl, refl, refl, h)
  Walk-walk_steps idx state [] [] (t ∷ ts) final h = absurd h
  Walk-walk_steps idx state [] (s ∷ ss) ts final h = absurd h
  Walk-walk_steps idx state (r ∷ rs) [] ts final h = absurd h
  Walk-walk_steps idx state (r ∷ rs) (s ∷ ss) [] final h = absurd h
  Walk-walk_steps idx state (r ∷ rs) (s ∷ ss) (t ∷ ts) final (holds, rest) =
      let next : s.commit.next_state_sha256
          ≡ atomic_next_state_sha256 state s.permit.permit_sha256 s.commit.action_class
              s.commit.receipt_signature =
        rw (← holds.issued.prior_state) holds.closed.next_state in
      let (m, n, e, f) = Walk-walk_steps (suc idx) _ rs ss ts final (rw next at rest) in
      (
        ap suc m,
        ap suc n,
        rw
            (failures-AllPass (step_checks key attempt lease call_ids idx state r s t)
              (StepHolds-step_checks key attempt lease call_ids idx state r s t holds))
            e,
        f,
      )

  chain_checks-AllPass :
      (chain : Chain) (reviewers : List ReviewerName) (traces : List Trace)
      → IsVerified key attempt lease call_ids chain reviewers traces
      → AllPass (chain_checks key attempt lease call_ids chain)
  unfolding chain_checks
  chain_checks-AllPass chain reviewers traces v = (
    eq→same _ _ v.attempt_id,
    (
      eq→same _ _ v.lease_set,
      (eq→same _ _ v.policy, (eq→same _ _ v.initial, (eq→same _ _ v.digest, tt))),
    ),
  )

  -- The verifier's early return, and what it reports otherwise.
  verified_parts :
      (chain : Chain) (reviewers : List ReviewerName) (traces : List Trace)
      → verify_atomic_execution_chain key attempt lease call_ids chain reviewers traces ≡ []
      → let walked =
          walk_steps key attempt lease call_ids 0
            (atomic_initial_state_sha256 attempt lease)
            reviewers
            chain.steps
            traces in
        (length chain.steps ≡ length reviewers)
        × (length traces ≡ length reviewers)
        × (failures (chain_checks key attempt lease call_ids chain) ≡ [])
        × (walked.0 ≡ [])
        × (same chain.final_state_sha256 walked.1 ≡ true)
  unfolding verify_atomic_execution_chain
  verified_parts chain reviewers traces e =
      let walked =
        walk_steps key attempt lease call_ids 0 (atomic_initial_state_sha256 attempt lease)
          reviewers chain.steps traces in
      elim (Bool-cases
        (length chain.steps == length reviewers && length traces == length reviewers)) [
          | inl equal ↦
              let (m, n) = and-eq-true _ _ equal in
              let listed = sorted_set-eq-nil _ (rw equal at e) in
              let (a, rest) =
                append-eq-nil (failures (chain_checks key attempt lease call_ids chain)) _ listed in
              let (b, c) = append-eq-nil walked.0 _ rest in
              let last =
                failures-eq-nil
                  ((same chain.final_state_sha256 walked.1, "atomic-chain-final-state-mismatch")
                    ∷ [])
                  c in
              (==→eq _ _ m, ==→eq _ _ n, a, b, last.0)
          | inr unequal ↦
              let listed = sorted_set-eq-nil _ (rw unequal at e) in
              let (a, b) =
                append-eq-nil (failures (chain_checks key attempt lease call_ids chain)) _ listed in
              cc
        ]

  verify-IsVerified :
      (chain : Chain) (reviewers : List ReviewerName) (traces : List Trace)
      → verify_atomic_execution_chain key attempt lease call_ids chain reviewers traces ≡ []
      → IsVerified key attempt lease call_ids chain reviewers traces
  unfolding chain_checks
  verify-IsVerified chain reviewers traces e =
      let (m, n, a, b, c) = verified_parts chain reviewers traces e in
      let (slot, (set, (policy, (initial, (digest, _))))) =
        failures-eq-nil (chain_checks key attempt lease call_ids chain) a in
      record {
        attempt_id = (eq_iff chain.attempt_id attempt).0 slot;
        lease_set = (eq_iff chain.attempt_lease_set_sha256 lease).0 set;
        policy = (eq_iff chain.atomic_policy_sha256 _).0 policy;
        initial = (eq_iff chain.initial_state_sha256 _).0 initial;
        digest = (eq_iff chain.chain_sha256 _).0 digest;
        walk =
            walk_steps-Walk 0 _ reviewers chain.steps traces _ m n b
              ((eq_iff chain.final_state_sha256 _).0 c);
      }

  IsVerified-verify :
      (chain : Chain) (reviewers : List ReviewerName) (traces : List Trace)
      → IsVerified key attempt lease call_ids chain reviewers traces
      → verify_atomic_execution_chain key attempt lease call_ids chain reviewers traces ≡ []
  unfolding verify_atomic_execution_chain
  IsVerified-verify chain reviewers traces v =
      let (m, n, e, f) =
        Walk-walk_steps 0 _ reviewers chain.steps traces chain.final_state_sha256 v.walk in
      rw
        (
          and_true _ _ (eq→== _ _ m) (eq→== _ _ n),
          failures-AllPass (chain_checks key attempt lease call_ids chain)
              (chain_checks-AllPass chain reviewers traces v),
          e,
          eq→same _ _ f,
        )
        sorted_set-nil

  -- The verifier reports nothing exactly for a chain that belongs to the attempt, has a matching
  -- digest, and whose steps lead from the initial to the final state, each signed by the key, at
  -- its index, for its reviewer, and as its trace shows.
  pub verify_atomic_execution_chain_iff :
      (chain : Chain) (reviewers : List ReviewerName) (traces : List Trace)
      → (verify_atomic_execution_chain key attempt lease call_ids chain reviewers traces ≡ [])
        ↔ IsVerified key attempt lease call_ids chain reviewers traces
  verify_atomic_execution_chain_iff chain reviewers traces =
      (verify-IsVerified chain reviewers traces, IsVerified-verify chain reviewers traces)
