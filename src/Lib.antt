-- ===== src/Lib.antt =====
-- Verification of illusiontion: the stores that let one rerun of a claim review survive crashes and
-- competing workers, the dependency graphs and registries behind its measurements, and the
-- usefulness, calibration and budgets of its decisions.
--
-- The program. A rerun is one attempt. Workers claim it at app/evidence_admission.py (the distributed
-- coordinator): each claim has an epoch, a takeover advances the epoch and fences the worker before
-- it, and a single rerun core is published. For each reviewer in turn the worker asks
-- app/attempt_continuity.py (the atomic action store) for a permit, records a provider call in
-- app/receipts.py (the call ledger), and commits the outcome, which moves a hash chain to its next
-- state. app/live_acquisition.py says after an interruption what may be resumed. All stores share
-- one SQLite file, and each write checks the worker's claim in its own transaction. The name of a
-- file under app/ is often not that of its content: the paths here are those of the content.
-- Beside the stores, held-out measurements come with signed graphs of what they depend on, which
-- independent registries attest; a held decision is assessed for the atoms that may be reused and
-- calibrated; budgets bound what a run reads, and a supervisor bounds the provider calls that
-- outlive their deadlines.
--
-- The files.
--   Prelude: the shared names, Boolean tests, lists, texts, and exceptions as values (Result).
--   Json, Host: JSON values; json.dumps, SHA-256, HMAC and AES-GCM as the parameters of Host, with
--     the documented length of a hexadecimal digest as the one law; app/interruption.py over them.
--   Recovery/Records: the signed records of app/security.py, their validation, and the payloads
--     that are digested and signed. A pydantic model is a record and a Boolean test of its fields.
--   Recovery/Database: the tables as a record. A transaction maps a database to a value and the next
--     database, or to an exception; `managed` is the rollback of app/state_integrity.py.
--   Recovery/Fencing, Recovery/Coordinator: assert_current_worker_conn, claim_worker,
--     reserve_publication_time and publish of app/evidence_admission.py; Claiming inverts their
--     successful calls, Current is about a new claim, Publishing and Unchanged about a published row.
--   Recovery/Chaining: the digests of app/attempt_continuity.py.
--   Recovery/ActionStore: the methods of AtomicRecoveryActionStore by their names; Steps inverts each
--     successful call, Linked and Invariant hold the invariant of the hash chain, Verify is
--     verify_atomic_execution_chain, Admitted and Verified its declarative description, Finalized
--     the theorem that joins the store to the verifier, and Flow the permit after a commit.
--   Recovery/ProviderCalls: Opened and Closed are the methods of ProviderCallLedgerStore (finalize is
--     `finalize_calls`); Rows, Effects, Sound, Started and Kept hold its invariant, and Settled, Runs,
--     Progress and Once say what stays of a call.
--   Recovery/Interruption: inspect_interrupted_attempt and attempt_progress.
--   Recovery/System: runs of calls of the coordinator and the action store, fencing and publication;
--     Issued, Committing and Authorizing follow permits and commits over them.
--   Calibration: assess_decision_calibration and shadow_policy_would_promote of
--     app/dependency_ancestry.py.
--   Recovery/Seal: verify_distributed_execution_seal of app/evidence_admission.py; Walked
--     is about its walk over claims, Claimed holds the invariant of the claims on record, and Sealed
--     is about the seal that publish writes.
--   Dependencies/Graph: _graph_errors of app/dependency_registry.py, whose copy in
--     app/registry_observation.py is another GraphPolicy; Walk is about its end, Marked and Visits
--     keep the sets that it marks, and Acyclic reads its report.
--   Dependencies/Manifests, Receipts, Ancestry: signed ancestry manifests and
--     verify_dependency_ancestry of app/dependency_registry.py, and the receipts of
--     app/model_adapter.py; Manifests/Signing reads a manifest out of the dictionary that is signed.
--     Ed25519 is a parameter with the law that a signature verifies.
--   Dependencies/Attestations, Registry: app/distributed_execution.py.
--   Usefulness: assess_decision_usefulness of app/witness_auth.py; Blockers is what blocks
--     atoms and claim, Salvage and Open read the blockers, and Scoped is about the split.
--   Trajectory: the execution trajectory of app/calibration.py; Supported is about its class,
--     Classified and Recorded about its verifier.
--   Budgets: app/review_controller.py. Supervisor: app/usefulness.py, as a step relation
--     in which the start of a worker may fail; an interrupt inside a call is not a step.
--   Tests: a concrete host and runs of the code on it.
--
-- Choices. The clock and the random nonces of a call are its arguments. A row keeps the record whose
-- JSON the program stores, since the program reads back only what it wrote itself. Texts are counted
-- in code points where pydantic counts characters and in bytes for the length of a key. A call that
-- raises leaves the database as it was, so a run consists of successful calls. Loops are over lists;
-- the one recursion on fuel is the walk of a dependency graph, whose depth is at most one more than
-- the number of nodes. A Python set is a list without repetition, and a report that the code sorts
-- at its end is collected in any order. The two digests are not assumed to be injective or unforgeable.
--
-- Not modelled: attempt leases, the schema creation and migration of the stores,
-- replay_completed_call and the review runtime that it calls, verify_provider_call_chain, the
-- verdict gate, evidence acquisition,
-- witnesses, the measurement universe, the ancestry and observation of registries, the details
-- dictionaries of the reports, and the adapters of model providers.
pub mod Prelude
pub mod Json
pub mod Host
pub mod Recovery
pub mod Calibration
pub mod Usefulness
pub mod Trajectory
pub mod Budgets
pub mod Supervisor
pub mod Dependencies
pub mod Tests
