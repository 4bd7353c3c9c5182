-- ===== src/Sched/Fairness.antt =====
-- Which task runs after the calls of kernel/sched/scheduler.c.
use avrix.Sched.Steps.{update_timer_keeps, task_at-map, length-map}
use avrix.Sched.Invariant.{switch_to_other, IsValid, switch_to_same}
use native.Mathlib.Decide.{ℕ_discrete}
use mathlib.Core.List.{map}
use avrix.Base.{
  ◌==◌, ==-false_of_ne, if_true, if_false, u8, ℕ, zero, suc, ◌+◌, ◌-◌, ◌≤◌, ◌<◌, ◌≡◌, refl, ap, ◌∙◌,
  ◌≢◌, true, false, Option, none, some, arith,
}
use avrix.Sched.{
  is_sleeping, canaries_intact, update_timer, TaskState, ready, running, is_ready, Tcb, Sched,
  count, task_at, update_sleep_timers, find_next_task, switch_to, scheduler_run,
  hal_timer_tick_handler, nk_yield, nk_quantum_ms, atomic_schedule,
}
use avrix.Sched.Next.{find_next-lt, find_next-least}

-- If the current task, in range, is ready with a priority number below 255, and every other ready
-- task has a greater one, the switch in `scheduler_run` changes nothing: that task is not started.
pub scheduler_run_stuck :
    (s : Sched)
    → s.current < count s
    → is_ready (task_at s.tasks s.current).state ≡ true
    → (task_at s.tasks s.current).priority < 0xFF
    → ((j : ℕ)
        → j < count s
        → j ≢ s.current
        → is_ready (task_at s.tasks j).state ≡ true
        → (task_at s.tasks s.current).priority < (task_at s.tasks j).priority)
    → scheduler_run s ≡ some s
unfolding scheduler_run
scheduler_run_stuck s h r small lower =
    let (k, e, hk, r', le, _) = find_next-least s s.current h h r small in
    switch_to_same (find_next_task s) s (elim (ℕ_discrete (find_next_task s) s.current) [
      | yes same ↦ same
      | no other ↦ absurd (omega (arith, le, lower (find_next_task s) (find_next-lt s h) other r'))
    ])

-- `k` timer interrupts.
unfoldable pub run_ticks : ℕ → Sched → Option Sched
run_ticks zero s = some s
run_ticks (suc k) s = elim (hal_timer_tick_handler s) [ none ↦ none | some s' ↦ run_ticks k s' ]

-- An interrupt that does not end the time slice.
tick_in_slice :
    (s : Sched) (q : ℕ)
    → u8 (s.quantum + 256 - 1) ≡ suc q
    → hal_timer_tick_handler s ≡ some (record (update_sleep_timers s) { quantum = suc q })
unfolding hal_timer_tick_handler update_sleep_timers
tick_in_slice s q e =
    let late : (u8 (s.quantum + 256 - 1) == 0) ≡ false = ground arith in
    rw late (ap (λ n. some (record s { tasks = map update_timer s.tasks; quantum = n })) e)

run_ticks_in_slice :
    (k q : ℕ) (s : Sched)
    → u8 (s.quantum + 256 - 1) ≡ q
    → k ≤ q
    → (s' : Sched) × (run_ticks k s ≡ some s') × (s'.current ≡ s.current)
unfolding run_ticks update_sleep_timers
run_ticks_in_slice zero q s e h = (s, refl, refl)
run_ticks_in_slice (suc k) zero s e h = absurd (omega arith)
run_ticks_in_slice (suc k) (suc q) s e h =
    let s₁ : Sched = record (update_sleep_timers s) { quantum = suc q } in
    let (s', run, same) = run_ticks_in_slice k q s₁ (omega arith) (omega arith) in
    (s', rw (tick_in_slice s q e, run_ticks) run, same)

switch_keeps_quantum :
    (next : ℕ) (s : Sched) {s' : Sched} → switch_to next s ≡ some s' → s'.quantum ≡ s.quantum
unfolding switch_to
switch_keeps_quantum next s e = ground arith

-- After `nk_yield` the task that is switched to has more than its time slice of
-- `nk_quantum_ms` interrupts: the quantum is 0 then, and the next 255 interrupts only count it
-- down, round from 255, and switch to no other task.
pub yield_long_slice :
    (k : ℕ) (s : Sched) {s' : Sched}
    → nk_yield s ≡ some s'
    → k < 256
    → (s'' : Sched) × (run_ticks k s' ≡ some s'') × (s''.current ≡ s'.current)
unfolding nk_yield atomic_schedule
yield_long_slice k s {s'} e h =
    let q : s'.quantum ≡ 0 = switch_keeps_quantum _ (record s { quantum = 0 }) e in
    run_ticks_in_slice k 255 s' (omega arith) (omega arith)

update_timer-running : (t : Tcb) → t.state ≡ running → (update_timer t).state ≡ running
unfolding update_timer is_sleeping
update_timer-running t e = ground arith

update_timer-ready : (t : Tcb) → t.state ≡ ready → (update_timer t).state ≡ ready
unfolding update_timer is_sleeping
update_timer-ready t e = ground arith

ready_of : {st : TaskState} → st ≡ ready → is_ready st ≡ true
unfolding is_ready
ready_of e = ap is_ready e

running_not_ready : {st : TaskState} → st ≡ running → is_ready st ≡ true → ⊥
unfolding is_ready
running_not_ready e r = ground arith

-- The end of a time slice takes the processor from a running task whenever another one is ready,
-- whatever the two priorities are: with its guards intact, the running task is made ready, and a
-- ready task runs instead.
pub slice_ends :
    (s : Sched) (j : ℕ)
    → IsValid s
    → s.current < count s
    → s.quantum ≡ 1
    → canaries_intact s ≡ true
    → (task_at s.tasks s.current).state ≡ running
    → j < count s
    → (task_at s.tasks j).state ≡ ready
    → (s' : Sched) × (hal_timer_tick_handler s ≡ some s')
      × (s'.current ≢ s.current)
      × ((task_at s'.tasks s.current).state ≡ ready)
      × ((task_at s'.tasks s'.current).state ≡ running)
unfolding hal_timer_tick_handler update_sleep_timers canaries_intact
slice_ends s j v h q guards run hj rdy =
    let expired : Sched = record (update_sleep_timers s) { quantum = nk_quantum_ms } in
    let size : count expired ≡ count s = length-map update_timer s.tasks in
    let awake = λ (i : ℕ) (hi : i < count s). task_at-map update_timer s.tasks i hi in
    let run' : (task_at expired.tasks s.current).state ≡ running =
      rw (awake s.current h) (update_timer-running (task_at s.tasks s.current) run) in
    let rdy' : (task_at expired.tasks j).state ≡ ready =
      rw (awake j hj) (update_timer-ready (task_at s.tasks j) rdy) in
    let small : (task_at expired.tasks j).priority < 255 =
      rw (awake j hj, (update_timer_keeps (task_at s.tasks j)).1)
        (omega (arith, v.six_bits j hj)) in
    let (_, _, _, chosen, _, _) =
      find_next-least expired j (rw size h) (rw size hj) (ready_of rdy') small in
    let next = find_next_task expired in
    let ne : next ≢ s.current = λ e. running_not_ready run' (rw e at chosen) in
    let (s', e, cur, left, now) =
      switch_to_other next expired (rw size h) (find_next-lt expired (rw size h)) ne guards run' in
    let over : (u8 (s.quantum + 256 - 1) == 0) ≡ true = ground arith in
    (
      s',
      if_true _ _ over ∙ if_false _ _ (==-false_of_ne next s.current ne) ∙ e,
      rw cur ne,
      left,
      rw cur now,
    )
