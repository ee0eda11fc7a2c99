-- ===== src/Tests/Workers.antt =====
-- Tests of the coordinator: a takeover, and a publication.
use illusiontion.Prelude.{
  ◌≡◌, refl, true, false, some, [], ◌∷◌, ok, err, value_error, same, if◌then◌else◌, is_blank,
}
use illusiontion.Host.{sha256_object, hmac_payload}
use illusiontion.Recovery.Records.Claims.{
  evidence, clean, WorkerClaim, ExecutionSeal, Publication, zero_digest, is_valid_claim,
  is_valid_seal, sign_claim, sign_seal, claim_digest_payload, claim_payload, seal_digest_payload,
  seal_payload, verify_worker_claim_signature,
}
use illusiontion.Recovery.Database.{Database, empty_database, order_by}
use illusiontion.Recovery.Fencing.{assert_current_worker, distributed_execution_policy_sha256}
use illusiontion.Recovery.Coordinator.Current.{claim_worker-current}
use illusiontion.Recovery.Coordinator.{claim_worker, publish}
use illusiontion.Recovery.ActionStore.{begin_attempt, authorize, commit, finalize}
use illusiontion.Recovery.System.{store_of, start, then_step, publishes}
use illusiontion.Recovery.System.Fenced.{claim_worker-fences}
use illusiontion.Recovery.System.Published.{publish-publish}
use illusiontion.Tests.{digest_a, digest_b, key, value_of, host}
use illusiontion.Tests.Actions.{nonce, now, permit}

abbrev pub first_claim : WorkerClaim
first_claim = record {
  attempt_id = digest_a;
  worker_id = "worker-1";
  epoch = 1;
  prior_claim_sha256 = zero_digest;
  takeover = false;
  claim_nonce = nonce;
  claimed_at = now;
  claim_sha256 = digest_a;
  runtime_signature = digest_a;
}

abbrev pub second_claim : WorkerClaim
second_claim = record {
  attempt_id = digest_a;
  worker_id = "worker-2";
  epoch = 2;
  prior_claim_sha256 = digest_a;
  takeover = true;
  claim_nonce = nonce;
  claimed_at = now;
  claim_sha256 = digest_b;
  runtime_signature = digest_a;
}

abbrev pub claimed : Database
claimed =
    (value_of (claim_worker key digest_a "worker-1" false nonce now empty_database)
      (first_claim, empty_database)).1

abbrev pub taken_over : Database
taken_over =
    (value_of (claim_worker key digest_a "worker-2" true nonce now claimed)
      (second_claim, claimed)).1

abbrev pub publication : Publication
publication = record {
  rerun_core_sha256 = digest_b;
  atomic_chain_sha256 = digest_a;
  provider_call_chain_sha256 = digest_a;
  atomic_finalization_seal_sha256 = digest_a;
  execution_trajectory_sha256 = digest_a;
}

abbrev pub seal : ExecutionSeal
seal = record {
  attempt_id = digest_a;
  distributed_policy_sha256 = digest_a;
  worker_claims = first_claim ∷ second_claim ∷ [];
  final_worker_claim_sha256 = digest_b;
  atomic_chain_sha256 = digest_a;
  provider_call_chain_sha256 = digest_a;
  atomic_finalization_seal_sha256 = digest_a;
  execution_trajectory_sha256 = digest_a;
  rerun_core_sha256 = digest_b;
  published_at = now;
  publication_sha256 = digest_a;
  runtime_signature = digest_a;
}

abbrev pub published : Database
published = (value_of (publish key second_claim publication now taken_over) (seal, taken_over)).1

pub claim_runs :
    claim_worker key digest_a "worker-1" false nonce now empty_database ≡ ok (first_claim, claimed)
unfolding claim_worker publish assert_current_worker is_blank is_valid_claim is_valid_seal
    sign_claim sign_seal claim_digest_payload claim_payload seal_digest_payload seal_payload
    verify_worker_claim_signature order_by distributed_execution_policy_sha256 sha256_object
    hmac_payload
claim_runs = refl

held : assert_current_worker key (some first_claim) true false claimed ≡ ok tt
unfolding claim_worker publish assert_current_worker is_blank is_valid_claim is_valid_seal
    sign_claim sign_seal claim_digest_payload claim_payload seal_digest_payload seal_payload
    verify_worker_claim_signature order_by distributed_execution_policy_sha256 sha256_object
    hmac_payload
held = refl

pub takeover_runs :
    claim_worker key digest_a "worker-2" true nonce now claimed ≡ ok (second_claim, taken_over)
unfolding claim_worker publish assert_current_worker is_blank is_valid_claim is_valid_seal
    sign_claim sign_seal claim_digest_payload claim_payload seal_digest_payload seal_payload
    verify_worker_claim_signature order_by distributed_execution_policy_sha256 sha256_object
    hmac_payload
takeover_runs = refl

pub publish_runs : publish key second_claim publication now taken_over ≡ ok (seal, published)
unfolding claim_worker publish assert_current_worker is_blank is_valid_claim is_valid_seal
    sign_claim sign_seal claim_digest_payload claim_payload seal_digest_payload seal_payload
    verify_worker_claim_signature order_by distributed_execution_policy_sha256 sha256_object
    hmac_payload
publish_runs = refl

claim_worker-fences_example :
    (begin_attempt (store_of key (some first_claim) true) digest_a now now published
      ≡ err (value_error "distributed-worker-fenced-by-newer-epoch"))
    × (authorize (store_of key (some first_claim) true) digest_a 0 evidence now now published
        ≡ err (value_error "distributed-worker-fenced-by-newer-epoch"))
    × (commit (store_of key (some first_claim) true) permit clean now now published
        ≡ err (value_error "distributed-worker-fenced-by-newer-epoch"))
    × (finalize (store_of key (some first_claim) true) digest_a 0 published
        ≡ err (value_error "distributed-worker-fenced-by-newer-epoch"))
claim_worker-fences_example =
    claim_worker-fences key first_claim "worker-2" nonce now claimed held takeover_runs
      (then_step start (publishes second_claim publication now publish_runs)) true digest_a 0
      evidence permit clean now now

publish-publish_example : publish key first_claim publication now published ≡ (
    if same digest_b digest_b
    then ok (seal, published)
    else err (value_error "distributed-rerun-core-already-published-different-value"))
publish-publish_example =
    publish-publish key second_claim first_claim publication publication now now taken_over
      publish_runs start refl

claim_worker-current_example :
    assert_current_worker key (some second_claim) true false taken_over ≡ ok tt
claim_worker-current_example =
    claim_worker-current key digest_a "worker-2" true nonce now claimed takeover_runs
