-- ===== src/Tasks/Tests.antt =====
-- Three tasks of src/task.c.
use avrix.Sched.{TaskState, running, ready, blocked, intact, is_ready}
use avrix.Sched.{find_next_task as kernel_find_next_task}
use avrix.Door.{no_door}
use avrix.Tasks.Choice.{find_next_task-forget, forget, IsIndependent}
use avrix.Tasks.Signals.{signals, wait-signals}
use avrix.Tasks.{
  nk_task_wait, check_canaries, tcb_at, Tcb, blocked_on, Tasks, find_next_task, search_loop,
}
use avrix.Base.{replicate, ℕ, zero, suc, ◌≡◌, refl, true, some, [], ◌∷◌, arith}

abbrev task : TaskState → ℕ → ℕ → Tcb
task st prio pid = record {
  sp = 0;
  state = st;
  priority = prio;
  pid = pid;
  deps = 0;
  sleep_ticks = 0;
}

abbrev three : Tasks
three = record {
  tasks = task running 5 0 ∷ task ready 7 1 ∷ task ready 3 2 ∷ [];
  current = 0;
  quantum = 10;
  door_vec = replicate 8 (replicate 4 no_door);
  stacks = replicate 8 intact;
}

intact_three : check_canaries three ≡ true
unfolding check_canaries
intact_three = refl

wait-signals_example :
    (s' : Tasks) × (nk_task_wait 3 three ≡ some s')
    × ((tcb_at (signals 2 0 s') 0).state ≡ blocked)
    × ((tcb_at (signals 3 0 s') 0).state ≡ ready)
wait-signals_example = wait-signals 2 2 three (omega arith) (omega arith) intact_three (omega arith)

three-IsIndependent : IsIndependent three
three-IsIndependent zero = refl
three-IsIndependent (suc zero) = refl
three-IsIndependent (suc (suc zero)) = refl
three-IsIndependent (suc (suc (suc i))) = refl

find_next_task-forget_example : find_next_task three ≡ kernel_find_next_task (forget three)
find_next_task-forget_example =
    find_next_task-forget three three-IsIndependent (omega arith) (omega arith)

-- The task that waits is left for the one with the least priority number.
three-wait : find_next_task (blocked_on 1 three) ≡ 2
unfolding blocked_on find_next_task search_loop is_ready
three-wait = refl
