-- ===== src/Tests/Limits.antt =====
-- Tests of the budgets and of the call supervisor.
use illusiontion.Prelude.{
  ◌+◌, ◌*◌, ◌≤◌, ◌≡◌, ◌≢◌, ◌↔◌, ◌⊎◌, refl, true, [], ◌∷◌, map, ok, All, arith,
}
use illusiontion.Json.{null}
use illusiontion.Host.{canonical_json}
use illusiontion.Budgets.{
  ManifestCase, ResourceBudget, default_v046_resource_budget, enforce_manifest_budget, sum,
  canonical_utf8_len, is_valid_budget,
}
use illusiontion.Budgets.Bounded.{IsWithin, enforce_manifest_budget-bounds}
use illusiontion.Supervisor.{
  Supervisor, new_supervisor, entered, enter_call, count_worker, start_worker, fail_start,
  uncount_worker, Move, counts, starts, fails, uncounts, moves, Runs, start, then_step, enters,
}
use illusiontion.Supervisor.Slots.{
  IsDrained, in_hands, pending, then_move, idle, Runs-bounded, Runs-Drains, Runs-lost,
}
use illusiontion.Tests.{host}

abbrev small_case : ManifestCase
small_case = record {
  case_id = "case-1";
  evidence = record {
    items = record { evidence_id = "e1"; excerpt = "a short excerpt" } ∷ [];
    json = null;
  };
  json = null;
}

abbrev budget : ResourceBudget
budget = default_v046_resource_budget

default_is_valid : is_valid_budget budget ≡ true
unfolding is_valid_budget default_v046_resource_budget
default_is_valid = refl

passes : enforce_manifest_budget (small_case ∷ []) budget ≡ ok tt
unfolding enforce_manifest_budget default_v046_resource_budget canonical_utf8_len canonical_json
passes = refl

enforce_manifest_budget-bounds_example :
    (1 ≤ budget.max_manifest_cases)
    × All (IsWithin budget) (small_case ∷ [])
    × (sum (map (λ (c : ManifestCase). canonical_utf8_len c.json) (small_case ∷ []))
        ≤ budget.max_manifest_cases * budget.max_case_utf8_bytes)
enforce_manifest_budget-bounds_example =
    enforce_manifest_budget-bounds (small_case ∷ []) budget passes

abbrev one_slot : Supervisor
one_slot = record {
  max_outstanding_workers = 1;
  slots = 1;
  outstanding = 0;
  taken = 0;
  counted = 0;
  running = 0;
  leaving = 0;
  lost = 0;
}

abbrev one_taken : Supervisor
one_taken = record one_slot { slots = 0; taken = 1 }

made : new_supervisor 1 ≡ ok one_slot
unfolding new_supervisor
made = refl

takes : enter_call true one_slot ≡ entered one_taken
unfolding enter_call
takes = refl

abbrev busy : Supervisor
busy = start_worker (count_worker one_taken)

one_call : Runs one_slot busy
unfolding count_worker
one_call =
    then_step (then_step (then_step start (enters takes)) (moves (counts (omega arith))))
      (moves (starts (omega arith)))

Runs-bounded_example :
    (busy.outstanding ≡ busy.counted + busy.running + busy.lost)
    × (busy.outstanding ≤ busy.max_outstanding_workers)
    × (((e : Supervisor) → enter_call true busy ≢ entered e)
        ↔ (in_hands busy ≡ busy.max_outstanding_workers))
    × (busy.slots + busy.leaving ≤ busy.max_outstanding_workers)
Runs-bounded_example = Runs-bounded 1 made one_call

-- The worker finishes: the provider has returned, and the slot is not yet released.
Runs-Drains_example :
    (1 ≤ pending busy)
    × (IsDrained (uncount_worker busy) ⊎ ((v : Supervisor) × Move (uncount_worker busy) v))
unfolding start_worker
Runs-Drains_example = Runs-Drains 1 made one_call (then_move (uncounts (omega arith)) idle)

-- The only slot is lost.
abbrev broken : Supervisor
broken = fail_start (count_worker one_taken)

one_failure : Runs one_slot broken
unfolding count_worker
one_failure =
    then_step (then_step (then_step start (enters takes)) (moves (counts (omega arith))))
      (moves (fails (omega arith)))

Runs-lost_example :
    (broken.slots + broken.lost ≤ 1)
    × (broken.lost ≡ 1 → (e : Supervisor) → enter_call true broken ≢ entered e)
Runs-lost_example = Runs-lost 1 made one_failure start
