-- ===== src/Tasks.antt =====
-- src/task.c: the scheduler of the first kernel, built with guarded stacks and with dependencies
-- (NK_OPT_STACK_GUARD and NK_OPT_DAG_WAIT). A critical section is one step, and a context switch is
-- the change of `current`. Timer registers and the frame on a new stack are not modelled.
pub mod Choice
pub mod Signals
mod Tests
use avrix.Door.{DoorT, no_door}
use avrix.Sched.{
  running, terminated, stack_guard_pattern, blocked, sleeping, StackGuard, ready, is_running,
  is_sleeping, is_ready, intact, TaskState,
}
use mathlib.Core.List.{map}
use avrix.Base.{
  ltb, leb, ◌==◌, if◌then◌else◌, length, get_or, set, replicate, u8, ℕ, zero, suc, ◌+◌, ◌-◌, ◌%◌,
  bit_and, Bool, true, false, not, ◌&&◌, ◌||◌, Option, none, some, List, [], ◌∷◌, ◌++◌,
}

-- `nk_tcb_t`
pub record Tcb : Type 0 where
  pub sp : ℕ
  pub state : TaskState
  pub priority : ℕ
  pub pid : ℕ
  pub deps : ℕ
  pub sleep_ticks : ℕ

-- `nk_sched`, whose `count` is the length of `tasks`, with `door_vec` and the guards of `nk_stacks`.
pub record Tasks : Type 0 where
  pub tasks : List Tcb
  pub current : ℕ
  pub quantum : ℕ
  pub door_vec : List (List DoorT)
  pub stacks : List StackGuard

-- What a read past the registered tasks stands for.
abbrev pub no_tcb : Tcb
no_tcb = record { sp = 0; state = terminated; priority = 255; pid = 0; deps = 0; sleep_ticks = 0 }

abbrev pub tcb_at : Tasks → ℕ → Tcb
tcb_at s i = get_or s.tasks i no_tcb

abbrev pub put_tcb : ℕ → Tcb → Tasks → Tasks
put_tcb i t s = record s { tasks = set s.tasks i t }

-- The body of the loop of `update_sleep_timers`.
unfoldable pub update_timer : Tcb → Tcb
update_timer t =
    if is_sleeping t.state && not (t.sleep_ticks == 0)
    then if t.sleep_ticks - 1 == 0
      then record t { sleep_ticks = 0; state = ready }
      else record t { sleep_ticks = t.sleep_ticks - 1 }
    else t

unfoldable pub update_sleep_timers : Tasks → Tasks
update_sleep_timers s = record s { tasks = map update_timer s.tasks }

-- The search of `find_next_task` with `n` rounds left, from round `i` on.
unfoldable pub search_loop : Tasks → ℕ → ℕ → ℕ → ℕ → ℕ
search_loop s zero i best bestp = best
search_loop s (suc n) i best bestp =
    let idx = u8 (s.current + u8 (i + 1)) % length s.tasks in
    let t = tcb_at s idx in
    let better = (is_ready t.state && t.deps == 0) && ltb t.priority bestp in
    search_loop s n (i + 1) (if better then idx else best) (if better then t.priority else bestp)

unfoldable pub find_next_task : Tasks → ℕ
find_next_task s = search_loop s (length s.tasks) 0 s.current 0xFF

unfoldable pub check_canaries : Tasks → Bool
check_canaries s =
    let stk = get_or s.stacks s.current intact in
    stk.guard_lo == stack_guard_pattern && stk.guard_hi == stack_guard_pattern

abbrev pub with_state : TaskState → Tcb → Tcb
with_state st t = record t { state = st }

-- `none` is `panic_stack_overflow`, which does not return.
unfoldable pub switch_to : ℕ → Tasks → Option Tasks
switch_to next s =
    let from = tcb_at s s.current in
    let left = if is_running from.state then put_tcb s.current (with_state ready from) s else s in
    let entered = put_tcb next (with_state running (tcb_at left next)) left in
    if next == s.current
    then some s
    else if check_canaries s
    then some (record entered { current = next })
    else none

unfoldable pub atomic_schedule : Tasks → Option Tasks
atomic_schedule s = switch_to (find_next_task s) s

unfoldable pub scheduler_init : Tasks → Tasks
scheduler_init s = record s {
  door_vec = replicate 8 (replicate 4 no_door);
  stacks = replicate 8 intact;
}

-- What `nk_task_create` is given: which pointers are there, the priority, and the stack with its
-- length; `sp` is the stack pointer below the frame.
pub record NewTask : Type 0 where
  pub has_tcb : Bool
  pub has_entry : Bool
  pub has_stack : Bool
  pub prio : ℕ
  pub stack_base : ℕ
  pub stack_len : ℕ

-- `NK_STACK_SIZE` is an argument.
unfoldable pub nk_task_create : ℕ → NewTask → Tasks → Bool × Tasks
nk_task_create stack_size new s =
    if not (new.has_tcb && (new.has_entry && new.has_stack))
    then (false, s)
    else if leb 8 (length s.tasks)
    then (false, s)
    else if ltb new.stack_len 32 || ltb stack_size new.stack_len
    then (false, s)
    else let t : Tcb = record {
      sp = new.stack_base + new.stack_len - 35;
      state = ready;
      priority = bit_and new.prio 63;
      pid = length s.tasks;
      deps = 0;
      sleep_ticks = 0;
    } in
      (
        true,
        record s {
          door_vec = set s.door_vec (length s.tasks) (replicate 4 no_door);
          tasks = s.tasks ++ (t ∷ []);
        },
      )

-- The switch of `scheduler_run`; what follows it in the source is not to be reached.
unfoldable pub scheduler_run : Tasks → Option Tasks
scheduler_run s = switch_to (find_next_task s) s

unfoldable pub nk_yield : Tasks → Option Tasks
nk_yield s = atomic_schedule (record s { quantum = 0 })

unfoldable pub nk_sleep : ℕ → Tasks → Option Tasks
nk_sleep ms s =
    atomic_schedule
      (put_tcb s.current (record (tcb_at s s.current) { state = sleeping; sleep_ticks = ms }) s)

unfoldable pub nk_switch_to : ℕ → Tasks → Option Tasks
nk_switch_to tid s = if leb (length s.tasks) tid then some s else switch_to tid s

-- What `nk_task_wait` stores before it calls `atomic_schedule`.
unfoldable pub blocked_on : ℕ → Tasks → Tasks
blocked_on deps s =
    put_tcb s.current (record (tcb_at s s.current) { state = blocked; deps = deps }) s

unfoldable pub nk_task_wait : ℕ → Tasks → Option Tasks
nk_task_wait deps s = atomic_schedule (blocked_on deps s)

unfoldable pub is_blocked : TaskState → Bool
is_blocked blocked = true
is_blocked _ = false

unfoldable pub nk_task_signal : ℕ → Tasks → Tasks
nk_task_signal tid s =
    let t = tcb_at s tid in
    let less = record t { deps = t.deps - 1 } in
    if leb (length s.tasks) tid
    then s
    else if t.deps == 0
    then s
    else if t.deps - 1 == 0 && is_blocked t.state
    then put_tcb tid (with_state ready less) s
    else put_tcb tid less s

unfoldable pub context_switch : Tasks → Option Tasks
context_switch s =
    let timed = update_sleep_timers s in
    let left = u8 (s.quantum + 255) in
    if left == 0
    then switch_to (find_next_task timed) (record timed { quantum = 10 })
    else some (record timed { quantum = left })
