-- ===== src/Tasks/Choice.antt =====
-- The choice of the next task in src/task.c, against that of kernel/sched/scheduler.c.
use mathlib.Core.List.{map}
use avrix.Sched.{
  is_ready, Sched, task_at, candidate, Tcb as KernelTcb, search_loop as kernel_search_loop,
}
use avrix.Sched.{find_next_task as kernel_find_next_task}
use avrix.Tasks.{Tcb, Tasks, no_tcb, tcb_at, search_loop, find_next_task}
use avrix.Base.{
  ltb, if◌then◌else◌, length, get_or, u8, ℕ, zero, suc, ◌+◌, ◌%◌, ◌≤◌, ◌<◌, ◌≡◌, refl, sym, ap, ap₂,
  ◌∙◌, Bool, true, false, ◌&&◌, List, [], ◌∷◌, arith,
}

-- A task and a state of the first kernel without what the second does not have.
unfoldable pub forget_tcb : Tcb → KernelTcb
forget_tcb t = record {
  sp = t.sp;
  state = t.state;
  priority = t.priority;
  pid = t.pid;
  sleep_ticks = t.sleep_ticks;
}

abbrev pub forget : Tasks → Sched
forget s = record {
  tasks = map forget_tcb s.tasks;
  current = s.current;
  quantum = s.quantum;
  stacks = s.stacks;
}

length-map : (ts : List Tcb) → length (map forget_tcb ts) ≡ length ts
length-map [] = refl
length-map (t ∷ ts) = ap suc (length-map ts)

task_at-forget :
    (ts : List Tcb) (i : ℕ) → task_at (map forget_tcb ts) i ≡ forget_tcb (get_or ts i no_tcb)
unfolding forget_tcb
task_at-forget [] i = refl
task_at-forget (t ∷ ts) zero = refl
task_at-forget (t ∷ ts) (suc i) = task_at-forget ts i

-- No task waits for others.
abbrev pub IsIndependent : Tasks → Type 0
IsIndependent s = (i : ℕ) → (tcb_at s i).deps ≡ 0

and_true : (b : Bool) → b && true ≡ b
and_true true = refl
and_true false = refl

search_loop-forget :
    (s : Tasks) (n i best bestp : ℕ)
    → IsIndependent s
    → s.current < length s.tasks
    → length s.tasks ≤ 8
    → i + n ≤ length s.tasks
    → search_loop s n i best bestp ≡ kernel_search_loop (forget s) n i best bestp
unfolding search_loop kernel_search_loop forget_tcb
search_loop-forget s zero i best bestp free here few enough = refl
search_loop-forget s (suc n) i best bestp free here few enough =
    let idx = u8 (s.current + u8 (i + 1)) % length s.tasks in
    let word : u8 (s.current + u8 (i + 1)) ≡ s.current + i + 1 = omega arith in
    let same : idx ≡ candidate (forget s) i =
      ap (λ a. a % length s.tasks) word
      ∙ ap (λ l. (s.current + i + 1) % l) (sym (length-map s.tasks)) in
    let t : forget_tcb (tcb_at s idx) ≡ task_at (map forget_tcb s.tasks) (candidate (forget s) i) =
      sym (task_at-forget s.tasks idx) ∙ ap (task_at (map forget_tcb s.tasks)) same in
    let round : ℕ → KernelTcb → ℕ = λ k x.
      let better = is_ready x.state && ltb x.priority bestp in
      kernel_search_loop (forget s) n (i + 1) (if better then k else best)
        (if better then x.priority else bestp) in
    rw (free idx) (
      rw (and_true (is_ready (tcb_at s idx).state))
        (search_loop-forget s n (i + 1) _ _ free here few (omega arith) ∙ ap₂ round same t))

-- Where no task waits for others, the scheduler of the first kernel chooses the task that the
-- scheduler of kernel/sched/scheduler.c chooses in the state without dependencies. There are at
-- most eight tasks, and the current one is registered.
pub find_next_task-forget :
    (s : Tasks)
    → IsIndependent s
    → s.current < length s.tasks
    → length s.tasks ≤ 8
    → find_next_task s ≡ kernel_find_next_task (forget s)
unfolding find_next_task kernel_find_next_task
find_next_task-forget s free here few =
    search_loop-forget s (length s.tasks) 0 s.current 255 free here few (omega arith)
    ∙ ap (λ n. kernel_search_loop (forget s) n 0 s.current 255) (sym (length-map s.tasks))
