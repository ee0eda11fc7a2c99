-- ===== src/Recovery/Database.antt =====
-- The tables that the recovery stores share in one SQLite file, and transactions on them. A row
-- holds the record whose canonical JSON the program stores: it reads that JSON back by the model
-- that wrote it. A table whose primary key is the attempt is a function of it.
use illusiontion.Prelude.{
  ℕ, String, Bool, false, not, Option, none, some, List, [], ◌∷◌, Result, ok, err, same, leb,
  if◌then◌else◌,
}
use illusiontion.Recovery.Records.Claims.{ReviewerName, WorkerClaim, ExecutionSeal}
use illusiontion.Recovery.Records.Actions.{Permit, Commit}
use illusiontion.Recovery.Records.Calls.{CallRecord, Reconciliation}

-- A row of `distributed_attempts`.
pub record DistributedRow : Type 0 where
  pub current_epoch : ℕ
  pub current_claim_sha256 : String
  pub reserved_publication_at : Option String
  pub reserved_publication_claim_sha256 : Option String
  pub published_core_sha256 : Option String
  pub publication : Option ExecutionSeal
  pub created_at : String

-- A row of `attempts`.
pub record AttemptRow : Type 0 where
  pub lease_set_sha256 : String
  pub policy_sha256 : String
  pub next_step : ℕ
  pub state_sha256 : String
  pub in_flight_permit_sha256 : Option String
  pub completed : Bool
  pub created_at : String

-- A row of `actions`, less the attempt it belongs to.
pub record ActionRow : Type 0 where
  pub step_index : ℕ
  pub permit : Permit
  pub commit : Option Commit

pub data CallState : Type 0 where
  in_flight completed_call uncertain : CallState

-- A row of `provider_calls`; an `Option` is a column that may be NULL.
pub record CallRow : Type 0 where
  pub attempt_id : String
  pub step_index : ℕ
  pub reviewer : ReviewerName
  pub distributed_worker_claim_sha256 : Option String
  pub atomic_permit_sha256 : String
  pub provider_call_id : String
  pub invocation_sha256 : String
  pub state : CallState
  pub started_at : String
  pub completed_at : Option String
  pub provider : Option String
  pub model_id : Option String
  pub model_response_id : Option String
  pub raw_output_sha256 : Option String
  pub call_record : Option CallRecord
  pub uncertainty_detail : Option String
  pub invocation_json : Option String
  pub raw_output : Option String
  pub invocation_ciphertext : Option String
  pub raw_output_ciphertext : Option String
  pub replay_material_state : String

abbrev pub Table : Type 0 → Type 0
Table A = String → Option A

pub record Database : Type 0 where
  pub distributed_attempts : Table DistributedRow
  pub distributed_worker_claims : List WorkerClaim
  pub attempts : Table AttemptRow
  pub actions : String → List ActionRow
  pub provider_calls : List CallRow
  pub provider_reconciliations : List Reconciliation

-- A file before any call of the stores.
abbrev pub empty_database : Database
empty_database = record {
  distributed_attempts = λ a. none;
  distributed_worker_claims = [];
  attempts = λ a. none;
  actions = λ a. [];
  provider_calls = [];
  provider_reconciliations = [];
}

-- What a transaction reads and writes; `err` is a raise before COMMIT.
abbrev pub Transaction : Type 0 → Type 0
Transaction A = Database → Result (A × Database)

-- `with managed_sqlite_connection(...)`: a raise rolls the transaction back.
unfoldable pub managed : {A : Type 0} → Transaction A → Database → Result A × Database
managed body db = elim (body db) [ ok (a, after) ↦ (ok a, after) | err e ↦ (err e, db) ]

-- Writes the value at one key.
abbrev pub put {ℓ} : {A : Type ℓ} → String → A → (String → A) → String → A
put key value table = λ j. if same key j then value else table j

-- A nullable text column counts as true if it is set and not empty.
abbrev pub is_set : Option String → Bool
is_set none = false
is_set (some text) = not (same text "")

abbrev pub is_text : Option String → String → Bool
is_text none t = false
is_text (some s) t = same s t

-- `ORDER BY`, by insertion.
unfoldable pub insert_by {ℓ} : {A : Type ℓ} → (A → ℕ) → A → List A → List A
insert_by rank a [] = a ∷ []
insert_by rank a (b ∷ bs) = if leb (rank a) (rank b) then a ∷ b ∷ bs else b ∷ insert_by rank a bs

unfoldable pub order_by {ℓ} : {A : Type ℓ} → (A → ℕ) → List A → List A
unfolding insert_by
order_by rank [] = []
order_by rank (a ∷ rest) = insert_by rank a (order_by rank rest)
