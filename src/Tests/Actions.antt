-- ===== src/Tests/Actions.antt =====
-- Tests of the action store: one attempt with one step.
use illusiontion.Prelude.{
  ℕ, Bool, Option, some, ◌⊎◌, ◌>>◌, String, ◌≡◌, ◌↔◌, refl, false, none, List, [], ◌∷◌, ok, err,
  value_error, length, ◌+◌,
}
use mathlib.Core.Bool.{decide}
use illusiontion.Host.{sha256_object, hmac_payload}
use illusiontion.Recovery.Records.Claims.{
  ReviewerName, WorkerClaim, ReviewerName-discrete, evidence, clean, caution,
}
use illusiontion.Recovery.Records.Actions.{
  Permit, Commit, Chain, Trace, is_valid_permit, is_valid_commit, is_valid_chain, same_permit,
  permit_digest_payload, permit_payload, commit_digest_payload, commit_payload, chain_payload,
  sign_permit, sign_commit,
}
use illusiontion.Recovery.Database.{Database, empty_database, order_by}
use illusiontion.Recovery.ActionStore.{
  ActionStore, assert_worker, begin_attempt, authorize, commit, finalize, load_commit,
}
use illusiontion.Recovery.Chaining.{
  atomic_execution_policy_sha256, atomic_initial_state_sha256, atomic_next_state_sha256,
  action_attempt_context_sha256,
}
use illusiontion.Recovery.Fencing.{assert_current_worker}
use illusiontion.Recovery.ActionStore.Invariant.{IsSound}
use illusiontion.Recovery.ActionStore.Verify.{call_id_at, verify_atomic_execution_chain}
use illusiontion.Recovery.ActionStore.Admitted.{IsVerified}
use illusiontion.Recovery.ActionStore.Verified.{verify_atomic_execution_chain_iff}
use illusiontion.Recovery.ActionStore.Finalized.{finalize-verify}
use illusiontion.Recovery.ActionStore.Flow.{commit-authorize}
use illusiontion.Recovery.System.Committing.{commit-commit}
use illusiontion.Recovery.System.Authorizing.{authorize-authorize}
use illusiontion.Recovery.System.{
  store_of, Runs, start, then_step, begins, authorizes, commits, finalizes, Runs-IsSound,
}
use illusiontion.Tests.{digest_a, digest_b, key, value_of, host}

abbrev pub nonce : String
nonce = "0123456789abcdef0123456789abcdef"

abbrev pub now : String
now = "2026-01-01T00:00:00+00:00"

abbrev store : ActionStore
store = store_of key none false

abbrev pub begun : Database
begun = (value_of (begin_attempt store digest_a digest_b now empty_database) (tt, empty_database)).1

abbrev pub permit : Permit
permit = record {
  attempt_id = digest_a;
  attempt_lease_set_sha256 = digest_b;
  step_index = 0;
  reviewer = evidence;
  distributed_worker_claim_sha256 = "";
  prior_state_sha256 = digest_a;
  permit_nonce = nonce;
  issued_at = now;
  permit_sha256 = digest_a;
  runtime_signature = digest_a;
}

abbrev authorized : Database
authorized = (value_of (authorize store digest_a 0 evidence nonce now begun) (permit, begun)).1

abbrev committing : Commit
committing = record {
  attempt_id = digest_a;
  step_index = 0;
  reviewer = evidence;
  distributed_worker_claim_sha256 = "";
  permit_sha256 = digest_a;
  action_class = clean;
  receipt_signature = digest_b;
  prior_state_sha256 = digest_a;
  next_state_sha256 = digest_a;
  committed_at = now;
  commit_sha256 = digest_a;
  runtime_signature = digest_a;
}

abbrev committed : Database
committed =
    (value_of (commit store permit clean digest_b now authorized) (committing, authorized)).1

abbrev chain : Chain
chain = record {
  attempt_id = digest_a;
  attempt_lease_set_sha256 = digest_b;
  atomic_policy_sha256 = digest_a;
  initial_state_sha256 = digest_a;
  steps = record { permit = permit; commit = committing } ∷ [];
  final_state_sha256 = digest_a;
  chain_sha256 = digest_a;
}

abbrev finished : Database
finished = (value_of (finalize store digest_a 1 committed) (chain, committed)).1

pub begin_runs : begin_attempt store digest_a digest_b now empty_database ≡ ok (tt, begun)
unfolding begin_attempt authorize commit finalize assert_worker assert_current_worker
    is_valid_permit is_valid_commit is_valid_chain sign_permit sign_commit permit_digest_payload
    permit_payload commit_digest_payload commit_payload chain_payload atomic_initial_state_sha256
    atomic_next_state_sha256 atomic_execution_policy_sha256 sha256_object hmac_payload same_permit
    order_by ReviewerName-discrete decide
begin_runs = refl

authorize_runs : authorize store digest_a 0 evidence nonce now begun ≡ ok (permit, authorized)
unfolding begin_attempt authorize commit finalize assert_worker assert_current_worker
    is_valid_permit is_valid_commit is_valid_chain sign_permit sign_commit permit_digest_payload
    permit_payload commit_digest_payload commit_payload chain_payload atomic_initial_state_sha256
    atomic_next_state_sha256 atomic_execution_policy_sha256 sha256_object hmac_payload same_permit
    order_by ReviewerName-discrete decide
authorize_runs = refl

commit_runs : commit store permit clean digest_b now authorized ≡ ok (committing, committed)
unfolding begin_attempt authorize commit finalize assert_worker assert_current_worker
    is_valid_permit is_valid_commit is_valid_chain sign_permit sign_commit permit_digest_payload
    permit_payload commit_digest_payload commit_payload chain_payload atomic_initial_state_sha256
    atomic_next_state_sha256 atomic_execution_policy_sha256 sha256_object hmac_payload same_permit
    order_by ReviewerName-discrete decide
commit_runs = refl

finalize_runs : finalize store digest_a 1 committed ≡ ok (chain, finished)
unfolding begin_attempt authorize commit finalize assert_worker assert_current_worker
    is_valid_permit is_valid_commit is_valid_chain sign_permit sign_commit permit_digest_payload
    permit_payload commit_digest_payload commit_payload chain_payload atomic_initial_state_sha256
    atomic_next_state_sha256 atomic_execution_policy_sha256 sha256_object hmac_payload same_permit
    order_by ReviewerName-discrete decide
finalize_runs = refl

abbrev traces : List Trace
traces =
    record {
      reviewer = evidence;
      invocation_sha256 = digest_a;
      attempt_context_sha256 = action_attempt_context_sha256 digest_b digest_a "";
      action_class = clean;
      model_provider = "provider";
      model_id = "model";
      model_response_id = "response";
      raw_output_sha256 = digest_a;
      receipt_signature = digest_b;
    }
    ∷ []

run_to_commit : Runs key empty_database committed
run_to_commit =
    then_step
      (then_step (then_step start (begins none false digest_a digest_b now begin_runs))
        (authorizes none false digest_a 0 evidence nonce now authorize_runs))
      (commits none false permit clean digest_b now commit_runs)

Runs-IsSound_example : IsSound key committed
Runs-IsSound_example = Runs-IsSound key run_to_commit

finalize-verify_example :
    (length chain.steps ≡ 1)
    × (verify_atomic_execution_chain key digest_a digest_b [] chain (evidence ∷ []) traces ≡ [])
unfolding call_id_at
finalize-verify_example =
    finalize-verify store digest_a 1 committed [] traces Runs-IsSound_example finalize_runs
      ((refl, refl, refl, refl), tt)

run_to_begin : Runs key empty_database begun
run_to_begin = then_step start (begins none false digest_a digest_b now begin_runs)

-- The permit's commit is the one call that follows.
authorize-authorize_example :
    ((c : Commit) × (load_commit digest_a 0 committed ≡ some c)
      × (c.permit_sha256 ≡ permit.permit_sha256))
    ⊎ ((later_claim : Option WorkerClaim) (later_required : Bool) (j : ℕ) (q : ReviewerName)
          (other at : String)
        → authorize (store_of key later_claim later_required) digest_a j q other at committed ≡ (
            assert_worker (store_of key later_claim later_required) committed
            >> err (value_error "atomic-action-already-in-flight")))
authorize-authorize_example =
    authorize-authorize key none false digest_a 0 evidence nonce now begun
      (Runs-IsSound key run_to_begin) authorize_runs
      (then_step start (commits none false permit clean digest_b now commit_runs))

commit-commit_example :
    (load_commit digest_a 0 finished ≡ some committing)
    × (commit store permit caution digest_a now finished
        ≡ (assert_worker store finished >> err (value_error "atomic-action-already-committed")))
commit-commit_example =
    commit-commit key none none false false permit permit clean caution digest_b digest_a now now
      authorized commit_runs (then_step start (finalizes none false digest_a 1 finalize_runs)) refl
      refl

abbrev second : Permit
second = record permit { step_index = 1 }

abbrev second_store : Database
second_store =
    (value_of (authorize store digest_a 1 evidence nonce now committed) (second, committed)).1

authorize_again :
    authorize store digest_a 1 evidence nonce now committed ≡ ok (second, second_store)
unfolding begin_attempt authorize commit finalize assert_worker assert_current_worker
    is_valid_permit is_valid_commit is_valid_chain sign_permit sign_commit permit_digest_payload
    permit_payload commit_digest_payload commit_payload chain_payload atomic_initial_state_sha256
    atomic_next_state_sha256 atomic_execution_policy_sha256 sha256_object hmac_payload same_permit
    order_by ReviewerName-discrete decide
authorize_again = refl

commit-authorize_example :
    (1 ≡ permit.step_index + 1) × (second.prior_state_sha256 ≡ committing.next_state_sha256)
commit-authorize_example =
    commit-authorize store permit clean digest_b now authorized commit_runs 1 evidence nonce now
      authorize_again

verify_atomic_execution_chain_iff_example :
    (verify_atomic_execution_chain key digest_a digest_b [] chain (evidence ∷ []) traces ≡ [])
    ↔ IsVerified key digest_a digest_b [] chain (evidence ∷ []) traces
verify_atomic_execution_chain_iff_example =
    verify_atomic_execution_chain_iff key digest_a digest_b [] chain (evidence ∷ []) traces
