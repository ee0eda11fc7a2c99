-- ===== src/Recovery/ActionStore/Admitted.antt =====
-- What an accepted chain is, and one step of it.
use mathlib.Core.Bool.{decide_iff}
use illusiontion.Prelude.{
  ℕ, suc, String, ◌≡◌, sym, ◌∙◌, List, [], ◌∷◌, eq_iff, and-eq-true, ==→eq, AllPass, eq→same, eq→==,
  and_true,
}
use illusiontion.Host.{Host, RuntimeKey, sha256_object}
use illusiontion.Recovery.Records.Claims.{
  ReviewerName, ReviewerName-discrete, ActionClass-discrete, eq→is_reviewer,
}
use illusiontion.Recovery.Records.Actions.{ActionStep, Chain, Trace, chain_payload}
use illusiontion.Recovery.Chaining.{
  atomic_execution_policy_sha256, atomic_initial_state_sha256, action_attempt_context_sha256,
}
use illusiontion.Recovery.ActionStore.Linked.{IsIssued, IsClosed}
use illusiontion.Recovery.ActionStore.Verify.{call_id_at, step_checks}

module _ ⦃host : Host⦄ (key : RuntimeKey) (attempt lease : String) (call_ids : List String) where
  -- The step stands at its place of the chain, for the reviewer, and is what the trace shows.
  pub record StepHolds (idx : ℕ) (state : String) (reviewer : ReviewerName) (step : ActionStep)
      (trace : Trace) : Type 0 where
    pub issued : IsIssued key attempt lease idx state step.permit
    pub closed : IsClosed key step.permit step.commit
    pub permit_reviewer : step.permit.reviewer ≡ reviewer
    pub trace_reviewer : trace.reviewer ≡ reviewer
    pub context :
        trace.attempt_context_sha256
        ≡ action_attempt_context_sha256 lease step.permit.permit_sha256 (call_id_at call_ids idx)
    pub action_class : step.commit.action_class ≡ trace.action_class
    pub receipt : step.commit.receipt_signature ≡ trace.receipt_signature

  -- The steps lead from one state to another, one for each reviewer and each trace.
  abbrev pub Walk : ℕ → String → List ReviewerName → List ActionStep → List Trace → String → Type 0
  Walk idx state [] [] [] final = final ≡ state
  Walk idx state (reviewer ∷ reviewers) (step ∷ steps) (trace ∷ traces) final =
      StepHolds idx state reviewer step trace
      × Walk (suc idx) step.commit.next_state_sha256 reviewers steps traces final
  Walk idx state _ _ _ final = ⊥

  pub record IsVerified (chain : Chain) (reviewers : List ReviewerName) (traces : List Trace)
      : Type 0 where
    pub attempt_id : chain.attempt_id ≡ attempt
    pub lease_set : chain.attempt_lease_set_sha256 ≡ lease
    pub policy : chain.atomic_policy_sha256 ≡ atomic_execution_policy_sha256
    pub initial : chain.initial_state_sha256 ≡ atomic_initial_state_sha256 attempt lease
    pub digest : chain.chain_sha256 ≡ sha256_object (chain_payload chain)
    pub walk :
        Walk 0
          (atomic_initial_state_sha256 attempt lease)
          reviewers
          chain.steps
          traces
          chain.final_state_sha256

  pub step_checks-StepHolds :
      (idx : ℕ) (state : String) (reviewer : ReviewerName) (step : ActionStep) (trace : Trace)
      → AllPass (step_checks key attempt lease call_ids idx state reviewer step trace)
      → StepHolds idx state reviewer step trace
  unfolding step_checks
  step_checks-StepHolds idx state reviewer step trace
        (
          index,
          (
            who,
            (
              slot,
              (
                set,
                (
                  prior,
                  (
                    digest,
                    (
                      signature,
                      (context, (links, (class, (receipt, (next, (closes, (signed, _))))))),
                    ),
                  ),
                ),
              ),
            ),
          ),
        ) =
      let (permit_index, commit_index) = and-eq-true _ _ index in
      let (both, trace_who) = and-eq-true _ _ who in
      let (permit_who, commit_who) = and-eq-true _ _ both in
      let (permit_slot, commit_slot) = and-eq-true _ _ slot in
      let (permit_prior, commit_prior) = and-eq-true _ _ prior in
      let p = step.permit in
      let c = step.commit in
      let at_state : p.prior_state_sha256 ≡ state =
        (eq_iff p.prior_state_sha256 state).0 permit_prior in
      let at_commit : c.prior_state_sha256 ≡ state =
        (eq_iff c.prior_state_sha256 state).0 commit_prior in
      let at_index : p.step_index ≡ idx = ==→eq p.step_index idx permit_index in
      let in_slot : p.attempt_id ≡ attempt = (eq_iff p.attempt_id attempt).0 permit_slot in
      let is_who : p.reviewer ≡ reviewer =
        (decide_iff (ReviewerName-discrete p.reviewer reviewer)).0 permit_who in
      record {
        issued = record {
          attempt_id = in_slot;
          lease_set = (eq_iff p.attempt_lease_set_sha256 lease).0 set;
          step_index = at_index;
          prior_state = at_state;
          digest = (eq_iff p.permit_sha256 _).0 digest;
          signature = (eq_iff p.runtime_signature _).0 signature;
        };
        closed = record {
          attempt_id = (eq_iff c.attempt_id attempt).0 commit_slot ∙ sym in_slot;
          step_index = ==→eq c.step_index idx commit_index ∙ sym at_index;
          reviewer =
              (decide_iff (ReviewerName-discrete c.reviewer reviewer)).0 commit_who ∙ sym is_who;
          permit = (eq_iff c.permit_sha256 p.permit_sha256).0 links;
          prior_state = at_commit ∙ sym at_state;
          next_state = rw at_state ((eq_iff c.next_state_sha256 _).0 next);
          digest = (eq_iff c.commit_sha256 _).0 closes;
          signature = (eq_iff c.runtime_signature _).0 signed;
        };
        permit_reviewer = is_who;
        trace_reviewer = (decide_iff (ReviewerName-discrete trace.reviewer reviewer)).0 trace_who;
        context = (eq_iff trace.attempt_context_sha256 _).0 context;
        action_class =
            (decide_iff (ActionClass-discrete c.action_class trace.action_class)).0 class;
        receipt = (eq_iff c.receipt_signature trace.receipt_signature).0 receipt;
      }

  pub StepHolds-step_checks :
      (idx : ℕ) (state : String) (reviewer : ReviewerName) (step : ActionStep) (trace : Trace)
      → StepHolds idx state reviewer step trace
      → AllPass (step_checks key attempt lease call_ids idx state reviewer step trace)
  unfolding step_checks
  StepHolds-step_checks idx state reviewer step trace h =
      let i = h.issued in
      let c = h.closed in
      (
        and_true _ _ (eq→== _ _ i.step_index) (eq→== _ _ (c.step_index ∙ i.step_index)),
        (
          and_true _ _
              (and_true _ _ (eq→is_reviewer _ _ h.permit_reviewer)
                (eq→is_reviewer _ _ (c.reviewer ∙ h.permit_reviewer)))
              (eq→is_reviewer _ _ h.trace_reviewer),
          (
            and_true _ _ (eq→same _ _ i.attempt_id) (eq→same _ _ (c.attempt_id ∙ i.attempt_id)),
            (
              eq→same _ _ i.lease_set,
              (
                and_true _ _ (eq→same _ _ i.prior_state)
                    (eq→same _ _ (c.prior_state ∙ i.prior_state)),
                (
                  eq→same _ _ i.digest,
                  (
                    eq→same _ _ i.signature,
                    (
                      eq→same _ _ h.context,
                      (
                        eq→same _ _ c.permit,
                        (
                          (decide_iff (ActionClass-discrete _ _)).1 h.action_class,
                          (
                            eq→same _ _ h.receipt,
                            (
                              eq→same _ _ (rw (← i.prior_state) c.next_state),
                              (eq→same _ _ c.digest, (eq→same _ _ c.signature, tt)),
                            ),
                          ),
                        ),
                      ),
                    ),
                  ),
                ),
              ),
            ),
          ),
        ),
      )
