-- ===== src/Sched.antt =====
-- kernel/sched/scheduler.c and kernel/sched/scheduler.h: the multi-task scheduler, built with
-- CONFIG_KERNEL_SCHED_TYPE_PREEMPT and with guarded stacks (NK_OPT_STACK_GUARD).
-- `tasks` lists the control blocks that are registered, in order; each task has a block of its own.
-- A critical section is one step. A context switch is the change of `current`: what follows it in
-- the source runs when the task that was left is resumed.
pub mod Next
pub mod Invariant
pub mod Steps
pub mod Sleep
pub mod Fairness
mod Tests
use avrix.Base.{
  ltb, leb, ◌==◌, if◌then◌else◌, length, get_or, set, replicate, u8, ℕ, zero, suc, ◌+◌, ◌-◌, ◌%◌,
  Bool, true, false, not, ◌&&◌, Option, none, some, List, [], ◌∷◌, ◌++◌,
}
use mathlib.Core.List.{map}

-- `nk_state_t`
pub data TaskState : Type 0 where
  ready running sleeping blocked terminated : TaskState

unfoldable pub is_ready : TaskState → Bool
is_ready ready = true
is_ready _ = false

unfoldable pub is_running : TaskState → Bool
is_running running = true
is_running _ = false

unfoldable pub is_sleeping : TaskState → Bool
is_sleeping sleeping = true
is_sleeping _ = false

-- `nk_tcb_t`
pub record Tcb : Type 0 where
  pub sp : ℕ
  pub state : TaskState
  pub priority : ℕ
  pub pid : ℕ
  pub sleep_ticks : ℕ

abbrev pub task_max : ℕ
task_max = 8

abbrev pub nk_quantum_ms : ℕ
nk_quantum_ms = 10

abbrev pub stack_guard_pattern : ℕ
stack_guard_pattern = 0xDEADBEEF

-- The guard words of one stack.
pub record StackGuard : Type 0 where
  pub guard_lo : ℕ
  pub guard_hi : ℕ

-- `nk_sched`, with the guards of `nk_stacks`; `count` is the length of `tasks`.
pub record Sched : Type 0 where
  pub tasks : List Tcb
  pub current : ℕ
  pub quantum : ℕ
  pub stacks : List StackGuard

-- What a read past the registered tasks stands for; it is never reached from a valid state.
abbrev pub no_task : Tcb
no_task = record { sp = 0; state = terminated; priority = 255; pid = 0; sleep_ticks = 0 }

abbrev pub intact : StackGuard
intact = record { guard_lo = stack_guard_pattern; guard_hi = stack_guard_pattern }

abbrev pub count : Sched → ℕ
count s = length s.tasks

abbrev pub task_at : List Tcb → ℕ → Tcb
task_at tasks i = get_or tasks i no_task

-- The body of the loop of `update_sleep_timers`.
unfoldable pub update_timer : Tcb → Tcb
update_timer t =
    if is_sleeping t.state && not (t.sleep_ticks == 0)
    then if t.sleep_ticks - 1 == 0
      then record t { sleep_ticks = 0; state = ready }
      else record t { sleep_ticks = t.sleep_ticks - 1 }
    else t

unfoldable pub update_sleep_timers : Sched → Sched
update_sleep_timers s = record s { tasks = map update_timer s.tasks }

-- The index that round `i` of the search looks at.
abbrev pub candidate : Sched → ℕ → ℕ
candidate s i = (s.current + i + 1) % count s

-- The search of `find_next_task` with `n` rounds left, from round `i` on.
unfoldable pub search_loop : Sched → ℕ → ℕ → ℕ → ℕ → ℕ
search_loop s zero i best bestp = best
search_loop s (suc n) i best bestp =
    let idx = candidate s i in
    let t = task_at s.tasks idx in
    let better = is_ready t.state && ltb t.priority bestp in
    search_loop s n (i + 1) (if better then idx else best) (if better then t.priority else bestp)

unfoldable pub find_next_task : Sched → ℕ
find_next_task s = search_loop s (count s) 0 s.current 0xFF

unfoldable pub canaries_intact : Sched → Bool
canaries_intact s =
    let stk = get_or s.stacks s.current intact in
    stk.guard_lo == stack_guard_pattern && stk.guard_hi == stack_guard_pattern

abbrev pub set_state : TaskState → Tcb → Tcb
set_state st t = record t { state = st }

-- `none` is `panic_stack_overflow`: interrupts are off and nothing runs any more.
unfoldable pub switch_to : ℕ → Sched → Option Sched
switch_to next s =
    let from = task_at s.tasks s.current in
    let tasks₁ =
      if is_running from.state then set s.tasks s.current (set_state ready from) else s.tasks in
    let tasks₂ = set tasks₁ next (set_state running (task_at tasks₁ next)) in
    if next == s.current
    then some s
    else if canaries_intact s
    then some (record s { tasks = tasks₂; current = next })
    else none

unfoldable pub atomic_schedule : Sched → Option Sched
atomic_schedule s = switch_to (find_next_task s) s

-- The stacks are those of the state before; each gets its guards.
unfoldable pub scheduler_init : Sched
scheduler_init = record {
  tasks = [];
  current = 0;
  quantum = nk_quantum_ms;
  stacks = replicate task_max intact;
}

-- `context_init` is `hal_context_init` as a function of the entry point, the stack and its length.
-- An option is a pointer; NULL as `stack` means the internal stack of the new task, and
-- `internal` its address by the task's number.
module _ (context_init : ℕ → ℕ → ℕ → ℕ) (internal : ℕ → ℕ) (stack_size : ℕ) where
  unfoldable pub nk_task_create : Option Tcb → Option ℕ → ℕ → Option ℕ → ℕ → Sched → Bool × Sched
  nk_task_create none entry prio stack stack_len s = (false, s)
  nk_task_create (some tcb) none prio stack stack_len s = (false, s)
  nk_task_create (some tcb) (some entry) prio stack stack_len s =
      let sp : ℕ = elim stack [
        | none ↦ context_init entry (internal (count s)) stack_size
        | some base ↦ context_init entry base stack_len
      ] in
      let tcb' : Tcb = record {
        sp = sp;
        state = ready;
        priority = prio % 64;
        pid = count s;
        sleep_ticks = 0;
      } in
      if leb task_max (count s)
      then (false, s)
      else (true, record s { tasks = s.tasks ++ (tcb' ∷ []) })

unfoldable pub scheduler_run : Sched → Option Sched
scheduler_run s = switch_to (find_next_task s) s

unfoldable pub nk_yield : Sched → Option Sched
nk_yield s = atomic_schedule (record s { quantum = 0 })

unfoldable pub nk_sleep : ℕ → Sched → Option Sched
nk_sleep ms s =
    let t = record (task_at s.tasks s.current) { state = sleeping; sleep_ticks = ms } in
    atomic_schedule (record s { tasks = set s.tasks s.current t })

unfoldable pub nk_current_tid : Sched → ℕ
nk_current_tid s = s.current

unfoldable pub nk_task_exit : Sched → Option Sched
nk_task_exit s =
    let t = set_state terminated (task_at s.tasks s.current) in
    atomic_schedule (record s { tasks = set s.tasks s.current t })

-- The quantum is a `uint8_t`.
unfoldable pub hal_timer_tick_handler : Sched → Option Sched
hal_timer_tick_handler s =
    let s₁ = update_sleep_timers s in
    let quantum = u8 (s₁.quantum + 256 - 1) in
    let expired = record s₁ { quantum = nk_quantum_ms } in
    let next = find_next_task expired in
    if quantum == 0
    then if next == expired.current then some expired else switch_to next expired
    else some (record s₁ { quantum = quantum })
