-- ===== src/Tests/Seals.antt =====
-- Tests of the publication seal: a takeover, a publication and its verification.
use illusiontion.Prelude.{◌≡◌, refl, true, false, none, some, [], sorted_set, is_blank}
use illusiontion.Host.{sha256_object}
use illusiontion.Recovery.Records.Claims.{is_valid_claim, sign_claim, claim_digest_payload}
use illusiontion.Recovery.Records.Actions.{Chain}
use illusiontion.Recovery.Records.Calls.{CallChain}
use illusiontion.Recovery.Database.{DistributedRow}
use illusiontion.Recovery.Coordinator.{claim_worker}
use illusiontion.Recovery.Seal.{epoch_errors, verify_distributed_execution_seal}
use illusiontion.Recovery.Seal.Sealed.{expected_of}
use illusiontion.Recovery.System.{start, then_step, claims}
use illusiontion.Recovery.System.Sealing.{Runs-publish-verify}
use illusiontion.Tests.{digest_a, digest_b, key, host}
use illusiontion.Tests.Actions.{nonce, now}
use illusiontion.Tests.Workers.{
  second_claim, taken_over, publication, seal, claim_runs, takeover_runs, publish_runs,
}

abbrev no_steps : Chain
no_steps = record {
  attempt_id = digest_a;
  attempt_lease_set_sha256 = digest_a;
  atomic_policy_sha256 = digest_a;
  initial_state_sha256 = digest_a;
  steps = [];
  final_state_sha256 = digest_a;
  chain_sha256 = digest_a;
}

abbrev no_calls : CallChain
no_calls = record {
  attempt_id = digest_a;
  provider_call_policy_sha256 = digest_a;
  calls = [];
  reconciliations = [];
  chain_sha256 = digest_a;
}

abbrev row : DistributedRow
row = record {
  current_epoch = 2;
  current_claim_sha256 = digest_b;
  reserved_publication_at = none;
  reserved_publication_claim_sha256 = none;
  published_core_sha256 = none;
  publication = none;
  created_at = now;
}

unpublished : taken_over.distributed_attempts second_claim.attempt_id ≡ some row
unfolding claim_worker is_blank is_valid_claim sign_claim sha256_object claim_digest_payload
unpublished = refl

Runs-publish-verify_example :
    verify_distributed_execution_seal key
      (expected_of key second_claim publication no_steps no_calls)
      seal
    ≡ sorted_set (epoch_errors seal no_steps no_calls)
Runs-publish-verify_example =
    Runs-publish-verify key
      (then_step (then_step start (claims digest_a "worker-1" false nonce now claim_runs))
        (claims digest_a "worker-2" true nonce now takeover_runs))
      second_claim publication now no_steps no_calls {row = row} publish_runs unpublished refl refl
      refl

-- Without steps the epochs give nothing to report.
no_report : sorted_set (epoch_errors seal no_steps no_calls) ≡ []
unfolding epoch_errors sorted_set
no_report = refl
