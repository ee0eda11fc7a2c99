-- ===== src/Recovery/Seal.antt =====
-- `verify_distributed_execution_seal` of app/evidence_admission.py: the checks on a publication
-- seal, on the chain of its worker claims, and on the epochs of the steps that it seals.
pub mod Walked
pub mod Claimed
pub mod Sealed
use illusiontion.Prelude.{
  ℕ, zero, suc, ◌+◌, String, Bool, true, false, not, ◌&&◌, ◌||◌, Option, none, some, List, [], ◌∷◌,
  ◌++◌, map, ◌<>◌, show, same, ◌==◌, elem, ltb, leb, is_nil, sorted_set, failures, if◌then◌else◌,
}
use illusiontion.Prelude.Dicts.{find_by}
use illusiontion.Host.{Host, RuntimeKey, sha256_object, hmac_payload}
use illusiontion.Recovery.Records.Claims.{
  WorkerClaim, ExecutionSeal, zero_digest, seal_digest_payload, seal_payload,
  verify_worker_claim_signature,
}
use illusiontion.Recovery.Records.Actions.{ActionStep, Chain}
use illusiontion.Recovery.Records.Calls.{CallRecord, Reconciliation, CallChain}
use illusiontion.Recovery.Fencing.{distributed_execution_policy_sha256}

-- What the caller holds the seal against.
pub record Expected : Type 0 where
  pub attempt_id : String
  pub rerun_core_sha256 : String
  pub atomic_chain : Chain
  pub provider_chain : CallChain
  pub atomic_finalization_seal_sha256 : String
  pub execution_trajectory_sha256 : String

abbrev digests : List WorkerClaim → List String
digests claims = map (λ c. c.claim_sha256) claims

-- `by_hash.get(value)`
abbrev pub claim_of : List WorkerClaim → String → Option WorkerClaim
claim_of claims value = find_by (λ c. c.claim_sha256) value claims

-- `epoch_for`: the epoch of the claim of that digest, and what is reported where there is none.
unfoldable pub epoch_for : List WorkerClaim → (value label : String) → Option ℕ × List String
epoch_for claims value label =
    if same value ""
    then (none, (label <> "-missing-worker-claim") ∷ [])
    else elim (claim_of claims value) [
      | none ↦ (none, (label <> "-unknown-worker-claim") ∷ [])
      | some claim ↦ (some claim.epoch, [])
    ]

-- `a is not None and b is not None and a < b`
abbrev pub precedes : Option ℕ → Option ℕ → Bool
precedes (some a) (some b) = ltb a b
precedes _ _ = false

-- `reconciliations.get(idx)`: the last one of the step.
unfoldable pub reconciliation_at : ℕ → List Reconciliation → Option Reconciliation
reconciliation_at i [] = none
reconciliation_at i (r ∷ rs) = elim (reconciliation_at i rs) [
  | some later ↦ some later
  | none ↦ if r.step_index == i then some r else none
]

abbrev reported : Bool → String → List String
reported test message = if test then message ∷ [] else []

-- The loop body for one step: its errors, and the commit epoch for the next step.
unfoldable pub step_epochs :
    List WorkerClaim
    → List Reconciliation
    → (idx prior_commit_epoch : ℕ) → ActionStep
    → CallRecord
    → List String × ℕ
unfolding epoch_for reconciliation_at
step_epochs claims reconciliations idx prior step call =
    let label = "distributed-step-" <> show idx in
    let (pe, permit_errors) =
      epoch_for claims step.permit.distributed_worker_claim_sha256 (label <> "-permit") in
    let (ce, commit_errors) =
      epoch_for claims step.commit.distributed_worker_claim_sha256 (label <> "-commit") in
    let (ve, provider_errors) =
      epoch_for claims call.distributed_worker_claim_sha256 (label <> "-provider") in
    let reconciled : List String = elim (reconciliation_at idx reconciliations) [
      | none ↦ []
      | some rec ↦
          let (re, rec_errors) =
            epoch_for claims rec.distributed_worker_claim_sha256 (label <> "-reconciliation") in
          rec_errors
          ++ (reported (precedes re ve)
                ("distributed-reconciliation-worker-epoch-regression:" <> show idx)
              ++ reported (precedes ce re)
                  ("distributed-commit-before-reconciliation-worker-epoch:" <> show idx))
    ] in
    let next : ℕ = elim ce [ none ↦ prior | some epoch ↦ epoch ] in
    (
      permit_errors
          ++ (commit_errors
              ++ (provider_errors
                  ++ (reported (precedes pe (some prior))
                        ("distributed-step-worker-epoch-regression:" <> show idx)
                      ++ (reported (precedes ve pe)
                            ("distributed-provider-before-permit-worker-epoch:" <> show idx)
                          ++ (reported (precedes ce ve)
                                ("distributed-commit-before-provider-worker-epoch:" <> show idx)
                              ++ reconciled))))),
      next,
    )

-- The loop over `zip(atomic_chain.steps, provider_chain.calls)`.
unfoldable pub walk_epochs :
    List WorkerClaim
    → List Reconciliation
    → (idx prior_commit_epoch : ℕ) → List ActionStep
    → List CallRecord
    → List String × ℕ
unfolding step_epochs
walk_epochs claims rs idx prior [] calls = ([], prior)
walk_epochs claims rs idx prior (step ∷ steps) [] = ([], prior)
walk_epochs claims rs idx prior (step ∷ steps) (call ∷ calls) =
    let (errors, next) = step_epochs claims rs idx prior step call in
    let (rest, last) = walk_epochs claims rs (suc idx) next steps calls in (errors ++ rest, last)

-- The epochs of all steps, and of the claim that published.
unfoldable pub epoch_errors : ExecutionSeal → Chain → CallChain → List String
unfolding walk_epochs
epoch_errors seal atomic provider =
    let claims = seal.worker_claims in
    let (errors, last) =
      walk_epochs claims provider.reconciliations 0 1 atomic.steps provider.calls in
    let final : Option ℕ = elim (claim_of claims seal.final_worker_claim_sha256) [
      | none ↦ none
      | some claim ↦ some claim.epoch
    ] in
    errors
    ++ reported (precedes final (some last))
        "distributed-publication-final-worker-precedes-last-commit"

module _ ⦃host : Host⦄ (key : RuntimeKey) where
  -- The checks on one claim, `idx` counting from 1.
  abbrev pub claim_checks :
      (attempt_id : String) (idx : ℕ) (expected_prior : String) (seen : List String)
      → WorkerClaim
      → List (Bool × String)
  claim_checks a idx expected_prior seen claim =
      (same claim.attempt_id a, "distributed-worker-claim-attempt-mismatch:" <> show idx)
      ∷ (claim.epoch == idx, "distributed-worker-claim-epoch-gap:" <> show idx)
      ∷ (
        same claim.prior_claim_sha256 expected_prior,
        "distributed-worker-claim-prior-mismatch:" <> show idx,
      )
      ∷ (not (idx == 1 && claim.takeover), "distributed-worker-first-claim-cannot-be-takeover")
      ∷ (
        not (ltb 1 idx && not claim.takeover),
        "distributed-worker-successor-must-be-explicit-takeover:" <> show idx,
      )
      ∷ (not (elem claim.claim_sha256 seen), "distributed-worker-claim-duplicate:" <> show idx)
      ∷ []

  -- The loop over the claims.
  unfoldable pub walk_claims :
      (attempt_id : String) (idx : ℕ) (expected_prior : String) (seen : List String)
      → List WorkerClaim
      → List String
  walk_claims a idx prior seen [] = []
  walk_claims a idx prior seen (claim ∷ claims) =
      map (λ e. e <> ":" <> show idx) (verify_worker_claim_signature key claim)
      ++ (failures (claim_checks a idx prior seen claim)
          ++ walk_claims a (suc idx) claim.claim_sha256 (claim.claim_sha256 ∷ seen) claims)

  -- `claims[-1].claim_sha256`
  unfoldable pub last_digest : String → List WorkerClaim → String
  last_digest prior [] = prior
  last_digest prior (claim ∷ claims) = last_digest claim.claim_sha256 claims

  abbrev pub seal_checks : Expected → ExecutionSeal → List (Bool × String)
  seal_checks x seal =
      (same seal.attempt_id x.attempt_id, "distributed-publication-attempt-id-mismatch")
      ∷ (
        same seal.distributed_policy_sha256 distributed_execution_policy_sha256,
        "distributed-publication-policy-mismatch",
      )
      ∷ (
        same seal.rerun_core_sha256 x.rerun_core_sha256,
        "distributed-publication-rerun-core-mismatch",
      )
      ∷ (
        same seal.atomic_chain_sha256 x.atomic_chain.chain_sha256,
        "distributed-publication-atomic-chain-mismatch",
      )
      ∷ (
        same seal.provider_call_chain_sha256 x.provider_chain.chain_sha256,
        "distributed-publication-provider-chain-mismatch",
      )
      ∷ (
        same seal.atomic_finalization_seal_sha256 x.atomic_finalization_seal_sha256,
        "distributed-publication-anchor-seal-mismatch",
      )
      ∷ (
        same seal.execution_trajectory_sha256 x.execution_trajectory_sha256,
        "distributed-publication-trajectory-mismatch",
      )
      ∷ (
        same seal.publication_sha256 (sha256_object (seal_digest_payload seal)),
        "distributed-publication-digest-mismatch",
      )
      ∷ (
        same seal.runtime_signature (hmac_payload (seal_payload seal) key),
        "distributed-publication-signature-invalid",
      )
      ∷ []

  abbrev pub final_checks : ExecutionSeal → List (Bool × String)
  final_checks seal =
      (
        same seal.final_worker_claim_sha256 (last_digest zero_digest seal.worker_claims),
        "distributed-publication-final-worker-claim-mismatch",
      )
      ∷ []

  unfoldable pub verify_distributed_execution_seal : Expected → ExecutionSeal → List String
  unfolding walk_claims last_digest epoch_errors
  verify_distributed_execution_seal x seal =
      let checked = failures (seal_checks x seal) in
      if is_nil seal.worker_claims
      then sorted_set (checked ++ "distributed-worker-claim-chain-empty" ∷ [])
      else sorted_set (
          checked
          ++ (walk_claims x.attempt_id 1 zero_digest [] seal.worker_claims
              ++ (failures (final_checks seal)
                  ++ epoch_errors seal x.atomic_chain x.provider_chain)))
