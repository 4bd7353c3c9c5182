-- ===== src/Sched/Steps.antt =====
-- Every call of kernel/sched/scheduler.c as a step, and the invariant along any sequence of them.
use mathlib.Core.Path.{subst}
use mathlib.Core.List.{map}
use native.Mathlib.Decide.{dec_lt}
use avrix.Base.{
  ltb, leb, ◌==◌, if◌then◌else◌, Bool-cases, length, length-append, u8, ℕ, zero, suc, ◌+◌, ◌-◌, ◌<◌,
  ◌≡◌, refl, sym, ap, ◌∙◌, inl, inr, false, Option, none, some, List, [], ◌∷◌, ◌++◌, arith,
}
use avrix.Sched.{
  is_running, is_sleeping, Tcb, Sched, StackGuard, task_max, count, task_at, update_timer,
  update_sleep_timers, find_next_task, switch_to, scheduler_init, nk_task_create, scheduler_run,
  nk_yield, nk_sleep, nk_task_exit, hal_timer_tick_handler, atomic_schedule, nk_quantum_ms,
}
use avrix.Sched.Next.{find_next-lt, find_next-none}
use avrix.Sched.Invariant.{IsValid, set_current-IsValid, switch_to-IsValid}

-- Choosing a task and switching to it keeps the invariant, also with no task at all.
schedule-IsValid :
    (s : Sched) {s' : Sched} → IsValid s → switch_to (find_next_task s) s ≡ some s' → IsValid s'
schedule-IsValid s {s'} v e = elim (dec_lt 0 (count s)) [
  | yes some_task ↦
      let h : s.current < count s = let k = v.in_range in omega arith in
      switch_to-IsValid (find_next_task s) s (find_next-lt s h) v e
  | no none_there ↦
      let same : find_next_task s ≡ s.current = find_next-none s (λ j h. absurd (omega arith)) in
      subst IsValid (no_switch same e) v
]
  where
    no_switch : find_next_task s ≡ s.current → switch_to (find_next_task s) s ≡ some s' → s ≡ s'
    no_switch same e = unfold switch_to in ground arith

pub task_at-map :
    (f : Tcb → Tcb) (ts : List Tcb) (j : ℕ)
    → j < length ts
    → task_at (map f ts) j ≡ f (task_at ts j)
task_at-map f [] j h = absurd (omega arith)
task_at-map f (t ∷ ts) zero h = refl
task_at-map f (t ∷ ts) (suc j) h = task_at-map f ts j (omega arith)

pub length-map : (f : Tcb → Tcb) (ts : List Tcb) → length (map f ts) ≡ length ts
length-map f [] = refl
length-map f (t ∷ ts) = ap suc (length-map f ts)

-- The timers start no task and change no priority.
pub update_timer_keeps :
    (t : Tcb)
    → (is_running (update_timer t).state ≡ is_running t.state)
      × ((update_timer t).priority ≡ t.priority)
unfolding update_timer is_running is_sleeping
update_timer_keeps t = ground arith

update_sleep_timers-IsValid : (s : Sched) → IsValid s → IsValid (update_sleep_timers s)
unfolding update_sleep_timers
update_sleep_timers-IsValid s v =
    let size = length-map update_timer s.tasks in
    record {
      in_range = rw size v.in_range;
      room = rw size v.room;
      one_running = λ j h r.
          let h' = rw size at h in
          v.one_running j h' (
            sym (update_timer_keeps (task_at s.tasks j)).0
            ∙ ap (λ t. is_running (Tcb.state t)) (sym (task_at-map update_timer s.tasks j h'))
            ∙ r);
      six_bits = λ j h.
          let h' = rw size at h in
          rw (task_at-map update_timer s.tasks j h', (update_timer_keeps (task_at s.tasks j)).1)
            (v.six_bits j h');
    }

set_quantum-IsValid : (s : Sched) (q : ℕ) → IsValid s → IsValid (record s { quantum = q })
set_quantum-IsValid s q v = record {
  in_range = v.in_range;
  room = v.room;
  one_running = v.one_running;
  six_bits = v.six_bits;
}

tick-IsValid :
    (s : Sched) {s' : Sched} → IsValid s → hal_timer_tick_handler s ≡ some s' → IsValid s'
unfolding hal_timer_tick_handler
tick-IsValid s {s'} v e =
    let s₁ = update_sleep_timers s in
    let v₁ = update_sleep_timers-IsValid s v in
    let expired : Sched = record s₁ { quantum = nk_quantum_ms } in
    let ve = set_quantum-IsValid s₁ nk_quantum_ms v₁ in
    elim (Bool-cases (u8 (s₁.quantum + 256 - 1) == 0)) [
      | inl zero_left ↦ elim (Bool-cases (find_next_task expired == expired.current)) [
        | inl same ↦ let e' : expired ≡ s' = ground arith in subst IsValid e' ve
        | inr other ↦
            let e' : switch_to (find_next_task expired) expired ≡ some s' = ground arith in
            schedule-IsValid expired ve e'
      ]
      | inr some_left ↦
          let e' : record s₁ { quantum = u8 (s₁.quantum + 256 - 1) } ≡ s' = ground arith in
          subst IsValid e' (set_quantum-IsValid s₁ _ v₁)
    ]

task_at-append :
    (ts : List Tcb) (t : Tcb) (j : ℕ)
    → j < length (ts ++ (t ∷ []))
    → task_at (ts ++ (t ∷ [])) j ≡ (if ltb j (length ts) then task_at ts j else t)
task_at-append [] t zero h = refl
task_at-append [] t (suc j) h = absurd (omega arith)
task_at-append (u ∷ ts) t zero h = ground arith
task_at-append (u ∷ ts) t (suc j) h = task_at-append ts t j (omega arith) ∙ ground arith

create-IsValid :
    (s : Sched) (t : Tcb)
    → count s < task_max
    → is_running t.state ≡ false
    → t.priority < 64
    → IsValid s
    → IsValid (record s { tasks = s.tasks ++ (t ∷ []) })
create-IsValid s t room idle small v =
    let size = length-append s.tasks (t ∷ []) in
    record {
      in_range = rw size (omega (arith, v.in_range));
      room = rw size (omega arith);
      one_running = λ j h r. ground (arith, task_at-append s.tasks t j h, v.one_running j);
      six_bits = λ j h. ground (arith, task_at-append s.tasks t j h, v.six_bits j);
    }

-- One event: a call by the current task, a new task, the timer interrupt, or a task that writes
-- over the guard words of the stacks. `nk_sleep`, `nk_yield` and `nk_task_exit` are called by a
-- task.
pub data Step (s : Sched) : Sched → Type 0 where
  creates :
      (context_init : ℕ → ℕ → ℕ → ℕ) (internal : ℕ → ℕ) (stack_size : ℕ) (tcb : Option Tcb)
      (entry : Option ℕ) (prio : ℕ) (stack : Option ℕ) (stack_len : ℕ) {s' : Sched}
      → (nk_task_create context_init internal stack_size tcb entry prio stack stack_len s).1 ≡ s'
      → Step s s'
  runs : {s' : Sched} → scheduler_run s ≡ some s' → Step s s'
  yields : {s' : Sched} → nk_yield s ≡ some s' → Step s s'
  sleeps : (ms : ℕ) {s' : Sched} → 0 < count s → nk_sleep ms s ≡ some s' → Step s s'
  exits : {s' : Sched} → 0 < count s → nk_task_exit s ≡ some s' → Step s s'
  ticks : {s' : Sched} → hal_timer_tick_handler s ≡ some s' → Step s s'
  smashes : (stacks : List StackGuard) → Step s (record s { stacks = stacks })

pub data Reach : Sched → Type 0 where
  boot : Reach scheduler_init
  next : {s t : Sched} → Reach s → Step s t → Reach t

set_stacks-IsValid :
    (s : Sched) (g : List StackGuard) → IsValid s → IsValid (record s { stacks = g })
set_stacks-IsValid s g v = record {
  in_range = v.in_range;
  room = v.room;
  one_running = v.one_running;
  six_bits = v.six_bits;
}

task_create-IsValid :
    (context_init : ℕ → ℕ → ℕ → ℕ) (internal : ℕ → ℕ) (stack_size : ℕ) (tcb : Option Tcb)
    (entry : Option ℕ) (prio : ℕ) (stack : Option ℕ) (stack_len : ℕ) (s : Sched)
    → IsValid s
    → IsValid (nk_task_create context_init internal stack_size tcb entry prio stack stack_len s).1
unfolding nk_task_create
task_create-IsValid c i z none entry prio stack len s v = v
task_create-IsValid c i z (some tcb) none prio stack len s v = v
task_create-IsValid c i z (some tcb) (some entry) prio stack len s v =
    elim (Bool-cases (leb task_max (count s))) [
      | inl full ↦ rw full v
      | inr room ↦
          rw room (create-IsValid s _ (ground arith) (unfold is_running in refl) (omega arith) v)
    ]

current_six_bits : (s : Sched) → 0 < count s → IsValid s → (task_at s.tasks s.current).priority < 64
current_six_bits s h v = v.six_bits s.current (let k = v.in_range in omega arith)

-- Each event keeps the invariant.
pub Step-IsValid : {s t : Sched} → Step s t → IsValid s → IsValid t
unfolding scheduler_run nk_yield nk_sleep nk_task_exit atomic_schedule
Step-IsValid {s} (creates c i z tcb entry prio stack len e) v =
    subst IsValid e (task_create-IsValid c i z tcb entry prio stack len s v)
Step-IsValid {s} (runs e) v = schedule-IsValid s v e
Step-IsValid {s} (yields e) v = schedule-IsValid _ (set_quantum-IsValid s 0 v) e
Step-IsValid {s} (sleeps ms h e) v =
    schedule-IsValid _ (set_current-IsValid s _ h (current_six_bits s h v) v) e
Step-IsValid {s} (exits h e) v =
    schedule-IsValid _ (set_current-IsValid s _ h (current_six_bits s h v) v) e
Step-IsValid {s} (ticks e) v = tick-IsValid s v e
Step-IsValid {s} (smashes g) v = set_stacks-IsValid s g v

init-IsValid : IsValid scheduler_init
unfolding scheduler_init
init-IsValid = record {
  in_range = omega arith;
  room = omega arith;
  one_running = λ j h r. absurd (omega arith);
  six_bits = λ j h. absurd (omega arith);
}

-- After any sequence of events from `scheduler_init` on, whatever is written over the guards,
-- `current` names a task once there is one, no task but the current one is in the state `running`,
-- every priority has six bits, and no more than `task_max` tasks are registered.
pub Reach-IsValid : {s : Sched} → Reach s → IsValid s
Reach-IsValid boot = init-IsValid
Reach-IsValid (next r st) = Step-IsValid st (Reach-IsValid r)
