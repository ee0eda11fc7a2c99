-- ===== src/Recovery/ProviderCalls.antt =====
-- `ProviderCallLedgerStore` of app/receipts.py: a call is on record as in flight before the network
-- is used, and is completed or left uncertain, never issued again. `encrypt_replay_text` is that of
-- app/prompts.py.
pub mod Opened
pub mod Closed
pub mod Rows
pub mod Effects
pub mod Sound
pub mod Started
pub mod Kept
pub mod Settled
pub mod Runs
pub mod Progress
pub mod Once
use illusiontion.Prelude.{
  ℕ, zero, suc, String, ◌<>◌, Bool, true, false, not, ◌&&◌, ◌||◌, Option, none, some, List, [], ◌∷◌,
  ◌++◌, map, Error, value_error, validation_error, Result, ok, err, ◌>>=◌, ◌>>◌, raise_if, require,
  same, ◌==◌, any, filter, update, length, is_blank, if◌then◌else◌,
}
use illusiontion.Json.{Json, str, num, dict}
use illusiontion.Host.{Host, RuntimeKey, sha256_text, sha256_object, canonical_json}
use illusiontion.Recovery.Records.Claims.{ReviewerName, reviewer_text, WorkerClaim, zero_digest}
use illusiontion.Recovery.Records.Actions.{Permit}
use illusiontion.Recovery.Records.Calls.{
  CallRecord, Reconciliation, CallChain, is_valid_record, is_valid_reconciliation,
  is_valid_call_chain, sign_record, sign_reconciliation, call_chain_payload,
}
use illusiontion.Recovery.Database.{
  Database, CallRow, CallState, in_flight, completed_call, uncertain, Transaction, is_set, is_text,
  order_by,
}
use illusiontion.Recovery.Fencing.{assert_current_worker}
use illusiontion.Recovery.ActionStore.{claim_digest}

abbrev provider_policy : Json
provider_policy = dict (
    ("domain", str "ILLUSIONTION_PROVIDER_CALL_EXECUTION_V0_37")
    ∷ ("assignment", str "ONE_GOVERNED_PROVIDER_CREATE_PER_ATOMIC_ACTION")
    ∷ ("network_retry", str "OFFICIAL_ADAPTER_SINGLE_CREATE_ATTEMPT")
    ∷ ("crash_rule", str "IN_FLIGHT_OR_UNCERTAIN_CALL_IS_NOT_RETRIED")
    ∷ ("authority_scope", str "CALL_PROVENANCE_ONLY_NEVER_UPGRADES_VERDICT")
    ∷ [])

pub record Ledger : Type 0 where
  pub key : RuntimeKey
  pub durable_reconciliation : Bool
  pub privacy_minimized : Bool
  pub distributed_worker_claim : Option WorkerClaim
  pub require_distributed_claim : Bool

-- What the ledger stores of a `ReviewInvocation`; the two dictionaries are the dumps it writes.
pub record Invocation : Type 0 where
  pub reviewer : ReviewerName
  pub invocation_id : String
  pub run_token : String
  pub prompt : String
  pub payload_json : String
  pub evidence : Json
  pub claim_sha256 : String
  pub evidence_digests : Json
  pub invocation_sha256 : String
  pub attempt_context_sha256 : String

abbrev pub is_in_flight : CallRow → Bool
is_in_flight row = elim (row.state) [
  | in_flight ↦ true
  | completed_call ↦ false
  | uncertain ↦ false
]

abbrev pub is_completed : CallRow → Bool
is_completed row = elim (row.state) [
  | in_flight ↦ false
  | completed_call ↦ true
  | uncertain ↦ false
]

abbrev pub at_step : String → ℕ → CallRow → Bool
at_step attempt_id step_index row = same row.attempt_id attempt_id && row.step_index == step_index

abbrev pub has_id : String → CallRow → Bool
has_id id row = same row.provider_call_id id

-- The first row that passes a test: `fetchone` of a SELECT.
unfoldable pub fetch : (CallRow → Bool) → List CallRow → Option CallRow
fetch p [] = none
fetch p (row ∷ rows) = let rest = fetch p rows in if p row then some row else rest

-- `INSERT INTO provider_calls`, under the primary key and the unique call id.
unfoldable pub insert_call : CallRow → List CallRow → Option (List CallRow)
insert_call new rows =
    if any (λ row. at_step new.attempt_id new.step_index row || has_id new.provider_call_id row)
      rows
    then none
    else some (rows ++ new ∷ [])

abbrev pub uncertain_row : String → CallRow → CallRow
uncertain_row detail row = record row { state = uncertain; uncertainty_detail = some detail }

-- `detail[:4096]`
unfoldable pub truncate : ℕ → String → String
truncate zero text = String.[]
truncate (suc n) String.[] = String.[]
truncate (suc n) (String.◌∷◌ c text) = String.◌∷◌ c (truncate n text)

-- The loop of `mark_restart_in_flight_uncertain` over the rows it has selected.
unfoldable pub mark_each : List CallRow → List CallRow → List CallRow
mark_each [] rows = rows
mark_each (r ∷ rs) rows = mark_each rs (
    update (has_id r.provider_call_id)
      (uncertain_row "PROCESS_RESTART_WITH_IN_FLIGHT_PROVIDER_CALL") rows)

-- The records of the rows, each at its index and completed.
unfoldable pub completed_records : ℕ → List CallRow → Result (List CallRecord)
completed_records i [] = ok []
completed_records i (row ∷ rows) = do
  raise_if (not (row.step_index == i) || not (is_completed row))
      (value_error "provider-call-chain-incomplete-or-uncertain")
  rec ← require row.call_record (value_error "provider-call-chain-incomplete-or-uncertain")
  rest ← completed_records (suc i) rows
  ok (rec ∷ rest)

unfoldable pub state_for_step : String → ℕ → Database → Option CallState
unfolding fetch
state_for_step attempt_id step_index db =
    elim (fetch (at_step attempt_id step_index) db.provider_calls) [
      | none ↦ none
      | some row ↦ some row.state
    ]

unfoldable pub record_for_step : String → ℕ → Database → Option CallRecord
unfolding fetch
record_for_step attempt_id step_index db =
    elim (fetch (at_step attempt_id step_index) db.provider_calls) [
      | none ↦ none
      | some row ↦ row.call_record
    ]

module _ ⦃host : Host⦄ where
  unfoldable pub provider_call_policy_sha256 : String
  provider_call_policy_sha256 = sha256_object provider_policy

  unfoldable pub provider_call_id :
      (attempt_id : String) (step_index : ℕ) → ReviewerName → String → String
  provider_call_id attempt_id step_index reviewer atomic_permit_sha256 = sha256_object (
      dict (
        ("domain", str "ILLUSIONTION_PROVIDER_CALL_ID_V0_37")
        ∷ ("attempt_id", str attempt_id)
        ∷ ("step_index", num step_index)
        ∷ ("reviewer", str (reviewer_text reviewer))
        ∷ ("atomic_permit_sha256", str atomic_permit_sha256)
        ∷ []))

  unfoldable pub invocation_json : Invocation → String
  invocation_json invocation = canonical_json (
      dict (
        ("reviewer", str (reviewer_text invocation.reviewer))
        ∷ ("invocation_id", str invocation.invocation_id)
        ∷ ("run_token", str invocation.run_token)
        ∷ ("prompt", str invocation.prompt)
        ∷ ("payload_json", str invocation.payload_json)
        ∷ ("evidence", invocation.evidence)
        ∷ ("claim_sha256", str invocation.claim_sha256)
        ∷ ("evidence_digests", invocation.evidence_digests)
        ∷ ("invocation_sha256", str invocation.invocation_sha256)
        ∷ ("attempt_context_sha256", str invocation.attempt_context_sha256)
        ∷ []))

  -- `nonce` is the random token that the call draws.
  unfoldable pub encrypt_replay_text :
      RuntimeKey → (provider_call_id label plaintext nonce : String) → String
  encrypt_replay_text key provider_call_id label plaintext nonce =
      nonce
      <> host.aesgcm_encrypt
          (host.hmac_digest key.value ("ILLUSIONTION_V0_45_REPLAY_VAULT|" <> provider_call_id))
          nonce plaintext ("ILLUSIONTION_V0_45|" <> provider_call_id <> "|" <> label)
