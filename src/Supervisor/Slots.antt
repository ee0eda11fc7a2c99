-- ===== src/Supervisor/Slots.antt =====
-- The slots of a supervisor: what is not free is in the hands of a call, or lost at the start of a
-- worker.
use native.Mathlib.Decide.{dec_lt}
use illusiontion.Prelude.{
  ◌*◌, ℕ, zero, suc, ◌+◌, ◌-◌, ◌≤◌, ◌<◌, ◌≡◌, ◌≢◌, ◌↔◌, ◌⊎◌, inl, inr, true, some, ok, arith,
}
use illusiontion.Supervisor.{
  Supervisor, new_supervisor, entered, enter_call, count_worker, start_worker, fail_start,
  uncount_worker, release_slot, Move, counts, starts, fails, uncounts, releases, Step, enters,
  moves, Runs, start, then_step,
}

pub record IsConserved (s : Supervisor) : Type 0 where
  pub shared :
      s.slots + s.taken + s.counted + s.running + s.leaving + s.lost ≡ s.max_outstanding_workers
  pub tallied : s.outstanding ≡ s.counted + s.running + s.lost
  pub positive : 0 < s.max_outstanding_workers

new_supervisor-IsConserved : (n : ℕ) {s : Supervisor} → new_supervisor n ≡ ok s → IsConserved s
unfolding new_supervisor
new_supervisor-IsConserved zero e = cc
new_supervisor-IsConserved (suc n) e = ground arith

Move-IsConserved : {s t : Supervisor} → Move s t → IsConserved s → IsConserved t
unfolding count_worker start_worker fail_start uncount_worker release_slot
Move-IsConserved {s} (counts some_taken) h = ground arith
Move-IsConserved {s} (starts some_counted) h = ground arith
Move-IsConserved {s} (fails some_counted) h = ground arith
Move-IsConserved {s} (uncounts some_running) h = ground arith
Move-IsConserved {s} (releases {t} some_leaving e) h = ground arith

Step-IsConserved : {s t : Supervisor} → Step s t → IsConserved s → IsConserved t
unfolding enter_call
Step-IsConserved {s} (enters {t} e) h = ground arith
Step-IsConserved {s} (moves move) h = Move-IsConserved move h

Runs-IsConserved : {s t : Supervisor} → Runs s t → IsConserved s → IsConserved t
Runs-IsConserved start h = h
Runs-IsConserved (then_step run step) h = Step-IsConserved step (Runs-IsConserved run h)

-- The slots that a supervisor has handed out and not taken back.
abbrev pub in_hands : Supervisor → ℕ
in_hands s = s.taken + s.counted + s.running + s.leaving + s.lost

-- However the calls and workers of a supervisor interleave, and whichever starts of a worker fail:
-- the count of outstanding workers is that of the workers that run, of the calls about to start
-- theirs and of the failed starts, it never passes the maximum, a call is refused for want of
-- capacity exactly when the maximum of slots is in the hands of calls, workers and failed starts,
-- and the free slots with those of the leaving workers never pass the semaphore's bound.
pub Runs-bounded :
    (n : ℕ) {s t : Supervisor}
    → new_supervisor n ≡ ok s
    → Runs s t
    → (t.outstanding ≡ t.counted + t.running + t.lost)
      × (t.outstanding ≤ t.max_outstanding_workers)
      × (((e : Supervisor) → enter_call true t ≢ entered e)
          ↔ (in_hands t ≡ t.max_outstanding_workers))
      × (t.slots + t.leaving ≤ t.max_outstanding_workers)
unfolding enter_call
Runs-bounded n {s} {t} made run =
    let h = Runs-IsConserved run (new_supervisor-IsConserved n made) in
    (
      h.tallied,
      ground (arith, h),
      (λ refused. full t h refused, λ e next entered_next. ground (arith, h)),
      ground (arith, h),
    )
  where
    full :
        (t : Supervisor)
        → IsConserved t
        → ((e : Supervisor) → enter_call true t ≢ entered e)
        → in_hands t ≡ t.max_outstanding_workers
    full t h refused =
        ground (arith, h, refused (record t { slots = t.slots - 1; taken = t.taken + 1 }))

-- A slot that is lost stays lost, and the maximum stays as it was made.
Step-lost :
    {s t : Supervisor}
    → Step s t
    → (s.lost ≤ t.lost) × (t.max_outstanding_workers ≡ s.max_outstanding_workers)
unfolding enter_call count_worker start_worker fail_start uncount_worker release_slot
Step-lost {s} (enters {t} e) = ground arith
Step-lost {s} (moves (counts h)) = ground arith
Step-lost {s} (moves (starts h)) = ground arith
Step-lost {s} (moves (fails h)) = ground arith
Step-lost {s} (moves (uncounts h)) = ground arith
Step-lost {s} (moves (releases {t} h e)) = ground arith

-- Whatever follows a failed start of a worker, its slot is never given back: the free slots and
-- those lost so far never exceed the maximum again, and once as many starts have failed as there
-- are slots, no call enters any more.
pub Runs-lost :
    (n : ℕ) {s t u : Supervisor}
    → new_supervisor n ≡ ok s
    → Runs s t
    → Runs t u
    → (u.slots + t.lost ≤ n) × (t.lost ≡ n → (e : Supervisor) → enter_call true u ≢ entered e)
unfolding enter_call new_supervisor
Runs-lost n {s} {t} {u} made before after =
    let h = Runs-IsConserved after (Runs-IsConserved before (new_supervisor-IsConserved n made)) in
    let (grown, same_max) = kept after in
    let (_, made_max) = kept before in
    let first : s.max_outstanding_workers ≡ n = made_with n made in
    (ground (arith, h), λ all_lost e entered_next. ground (arith, h))
  where
    kept :
        {s t : Supervisor}
        → Runs s t
        → (s.lost ≤ t.lost) × (t.max_outstanding_workers ≡ s.max_outstanding_workers)
    kept start = ground arith
    kept (then_step run step) = ground (arith, kept run, Step-lost step)

    made_with : (n : ℕ) {s : Supervisor} → new_supervisor n ≡ ok s → s.max_outstanding_workers ≡ n
    made_with zero e = cc
    made_with (suc n) e = ground arith

-- The moments of a run in which no call enters, counted: calls count themselves and start their
-- workers or fail to, and workers finish.
pub data Finishes : Supervisor → ℕ → Supervisor → Type 0 where
  idle : {s : Supervisor} → Finishes s 0 s
  then_move : {s mid t : Supervisor} {k : ℕ} → Move s mid → Finishes mid k t → Finishes s (suc k) t

-- The moments that the calls under way still have before them, at most.
abbrev pub pending : Supervisor → ℕ
pending s = 4 * s.taken + 3 * s.counted + 2 * s.running + s.leaving

-- Nothing is under way: the lost slots alone are missing and counted, and calls enter again as
-- long as not all are lost.
pub record IsDrained (s : Supervisor) : Type 0 where
  pub free : s.slots + s.lost ≡ s.max_outstanding_workers
  pub uncounted : s.outstanding ≡ s.lost
  pub opens :
      s.lost < s.max_outstanding_workers → (e : Supervisor) × (enter_call true s ≡ entered e)

Move-pending : {s t : Supervisor} → Move s t → pending t < pending s
unfolding count_worker start_worker fail_start uncount_worker release_slot
Move-pending {s} (counts h) = ground arith
Move-pending {s} (starts h) = ground arith
Move-pending {s} (fails h) = ground arith
Move-pending {s} (uncounts h) = ground arith
Move-pending {s} (releases {t} h e) = ground arith

Finishes-pending : {s t : Supervisor} {k : ℕ} → Finishes s k t → k + pending t ≤ pending s
Finishes-pending idle = omega arith
Finishes-pending (then_move {s} {mid} {t} {k} move rest) =
    omega (arith, Finishes-pending rest, Move-pending move)

Finishes-IsConserved : {s t : Supervisor} {k : ℕ} → Finishes s k t → IsConserved s → IsConserved t
Finishes-IsConserved idle h = h
Finishes-IsConserved (then_move move rest) h = Finishes-IsConserved rest (Move-IsConserved move h)

release-some :
    (s : Supervisor)
    → IsConserved s
    → 0 < s.leaving
    → release_slot s ≡ some (record s { leaving = s.leaving - 1; slots = s.slots + 1 })
unfolding release_slot
release-some s h some_leaving = ground (arith, h)

idle-IsDrained : (s : Supervisor) → IsConserved s → pending s ≡ 0 → IsDrained s
unfolding enter_call
idle-IsDrained s h none_pending = record {
  free = omega (arith, h.shared, none_pending);
  uncounted = omega (arith, h.tallied, none_pending);
  opens = λ some_left.
      (record s { slots = s.slots - 1; taken = s.taken + 1 }, ground (arith, h, none_pending));
}

-- A state in which something is under way has a next moment.
IsDrained-or_moves : (s : Supervisor) → IsConserved s → IsDrained s ⊎ ((t : Supervisor) × Move s t)
IsDrained-or_moves s h = elim (dec_lt 0 s.taken) [
  | yes some_taken ↦ inr (count_worker s, counts some_taken)
  | no none_taken ↦ elim (dec_lt 0 s.counted) [
    | yes some_counted ↦ inr (start_worker s, starts some_counted)
    | no none_counted ↦ elim (dec_lt 0 s.running) [
      | yes some_running ↦ inr (uncount_worker s, uncounts some_running)
      | no none_running ↦ elim (dec_lt 0 s.leaving) [
        | yes some_leaving ↦ inr (_, releases some_leaving (release-some s h some_leaving))
        | no none_leaving ↦ inl (idle-IsDrained s h (omega arith))
      ]
    ]
  ]
]

-- From every state that calls and workers lead to, every schedule of the moments under way, while
-- no call enters, is finite: it has no more moments than are pending, and a further moment follows
-- it unless every slot but those of failed starts is free, the count is that of the failed starts,
-- and a call enters again if not all slots are lost.
pub Runs-Drains :
    (n : ℕ) {s t u : Supervisor} {k : ℕ}
    → new_supervisor n ≡ ok s
    → Runs s t
    → Finishes t k u
    → (k ≤ pending t) × (IsDrained u ⊎ ((v : Supervisor) × Move u v))
Runs-Drains n {s} {t} {u} {k} made run schedule =
    let h = Runs-IsConserved run (new_supervisor-IsConserved n made) in
    (
      omega (arith, Finishes-pending schedule),
      IsDrained-or_moves u (Finishes-IsConserved schedule h),
    )
