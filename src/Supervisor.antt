-- ===== src/Supervisor.antt =====
-- `ProviderCallSupervisor` of app/usefulness.py. Its semaphore, its lock and its threads are
-- Python's: a call takes a slot, counts itself and starts its worker, and the worker, whenever the
-- provider returns, takes itself off the count and then frees the slot. These moments of different
-- calls may come in any order, so each is a step. The start of a thread may raise.
pub mod Slots
use illusiontion.Prelude.{
  ℕ, zero, suc, ◌+◌, ◌-◌, ◌≡◌, ◌<◌, String, Bool, true, false, not, Option, none, some, ◌<>◌, show,
  ltb, Result, ok, err, ◌>>=◌, ◌>>◌, raise_if, value_error, if◌then◌else◌,
}

-- `taken` counts the calls between the semaphore and the counter, `counted` those between the
-- counter and the start of their worker, `running` the workers that run, `leaving` the workers
-- between the counter and the semaphore, and `lost` the calls whose worker could not be started.
pub record Supervisor : Type 0 where
  pub max_outstanding_workers : ℕ
  pub slots : ℕ
  pub outstanding : ℕ
  pub taken : ℕ
  pub counted : ℕ
  pub running : ℕ
  pub leaving : ℕ
  pub lost : ℕ

-- The constructor.
unfoldable pub new_supervisor : (max_outstanding_workers : ℕ) → Result Supervisor
new_supervisor zero = err (value_error "max_outstanding_workers must be positive")
new_supervisor (suc n) = ok (record {
  max_outstanding_workers = suc n;
  slots = suc n;
  outstanding = 0;
  taken = 0;
  counted = 0;
  running = 0;
  leaving = 0;
  lost = 0;
})

-- How `call` begins: refused for its timeout or for want of a slot, or with a slot.
pub data Entry : Type 0 where
  bad_timeout : Entry
  no_capacity : (message : String) → Entry
  entered : Supervisor → Entry

-- `timeout_positive` is `timeout_seconds > 0`; `acquire(blocking=False)` takes a slot if one is
-- free.
unfoldable pub enter_call : (timeout_positive : Bool) → Supervisor → Entry
enter_call timeout_positive s =
    if not timeout_positive
    then bad_timeout
    else if ltb 0 s.slots
    then entered (record s { slots = s.slots - 1; taken = s.taken + 1 })
    else no_capacity
        ("provider worker capacity exhausted (" <> show s.max_outstanding_workers <> ")")

-- `with self._lock: self._outstanding += 1`
unfoldable pub count_worker : Supervisor → Supervisor
count_worker s = record s {
  taken = s.taken - 1;
  outstanding = s.outstanding + 1;
  counted = s.counted + 1;
}

-- `thread.start()`, where it starts the worker.
unfoldable pub start_worker : Supervisor → Supervisor
start_worker s = record s { counted = s.counted - 1; running = s.running + 1 }

-- `thread.start()`, where it raises for want of a thread: the call ends with that exception, and
-- neither the count nor the slot is given back.
unfoldable pub fail_start : Supervisor → Supervisor
fail_start s = record s { counted = s.counted - 1; lost = s.lost + 1 }

-- `with self._lock: self._outstanding -= 1`, when the provider has returned.
unfoldable pub uncount_worker : Supervisor → Supervisor
uncount_worker s = record s {
  running = s.running - 1;
  outstanding = s.outstanding - 1;
  leaving = s.leaving + 1;
}

-- `self._slots.release()`: a bounded semaphore refuses to grow past its first value.
unfoldable pub release_slot : Supervisor → Option Supervisor
release_slot s =
    if ltb s.slots s.max_outstanding_workers
    then some (record s { leaving = s.leaving - 1; slots = s.slots + 1 })
    else none

-- A moment of a call that is under way.
pub data Move (s : Supervisor) : Supervisor → Type 0 where
  counts : 0 < s.taken → Move s (count_worker s)
  starts : 0 < s.counted → Move s (start_worker s)
  fails : 0 < s.counted → Move s (fail_start s)
  uncounts : 0 < s.running → Move s (uncount_worker s)
  releases : {t : Supervisor} → 0 < s.leaving → release_slot s ≡ some t → Move s t

pub data Step (s : Supervisor) : Supervisor → Type 0 where
  enters : {t : Supervisor} → enter_call true s ≡ entered t → Step s t
  moves : {t : Supervisor} → Move s t → Step s t

pub data Runs (s : Supervisor) : Supervisor → Type 0 where
  start : Runs s s
  then_step : {mid t : Supervisor} → Runs s mid → Step mid t → Runs s t

-- What the worker put on its queue.
pub data Reply : Type 0 where
  returned : String → Reply
  raised : String → Reply

pub data Outcome : Type 0 where
  value : String → Outcome
  provider_error : String → Outcome
  timeout_error : Outcome

-- The end of `call`, after the join: the worker is still alive, or it has put its one reply.
unfoldable pub call_outcome : (reply : Option Reply) → Outcome
call_outcome none = timeout_error
call_outcome (some (returned v)) = value v
call_outcome (some (raised e)) = provider_error e
