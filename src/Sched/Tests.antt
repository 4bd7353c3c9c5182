-- ===== src/Sched/Tests.antt =====
-- The scheduler of kernel/sched/scheduler.c with three tasks.
use avrix.Sched.Next.{find_next-least, distance}
use avrix.Sched.Sleep.{timers_wake, timers}
use avrix.Sched.Invariant.{IsValid}
use avrix.Sched.Steps.{next, Reach-IsValid, Reach}
use avrix.Sched.{
  intact, scheduler_init, canaries_intact, no_task, sleeping, switch_to, task_max, search_loop,
  ready, atomic_schedule, nk_task_create, candidate, running, Tcb, find_next_task, TaskState, Sched,
  is_running, scheduler_run, nk_yield, is_ready, task_at,
}
use avrix.Sched.Steps.{Reach, boot, next, creates, runs}
use avrix.Base.{
  replicate, ℕ, zero, suc, ◌≤◌, ◌<◌, ◌≡◌, refl, ◌≢◌, ◌⊎◌, true, false, none, some, [], ◌∷◌, arith,
}

abbrev task : ℕ → TaskState → ℕ → Tcb
task pid state priority = record {
  sp = 0;
  state = state;
  priority = priority;
  pid = pid;
  sleep_ticks = 0;
}

-- Task 0 runs, and the others are ready.
abbrev three : Sched
three = record {
  tasks = task 0 running 20 ∷ task 1 ready 40 ∷ task 2 ready 30 ∷ [];
  current = 0;
  quantum = 1;
  stacks = replicate task_max intact;
}

-- Task 0 alone is urgent, and nothing runs yet.
abbrev waiting : Sched
waiting = record {
  tasks = task 0 ready 10 ∷ task 1 ready 40 ∷ [];
  current = 0;
  quantum = 10;
  stacks = replicate task_max intact;
}

-- Task 1 sleeps, and task 0 runs.
abbrev dozing : ℕ → Sched
dozing ms = record {
  tasks = task 0 running 20 ∷ record (task 1 sleeping 40) { sleep_ticks = ms } ∷ [];
  current = 0;
  quantum = 10;
  stacks = replicate task_max intact;
}

find_next_task-three : find_next_task three ≡ 2
unfolding find_next_task search_loop is_ready
find_next_task-three = refl

all_3 : (P : ℕ → Type 0) → P 0 → P 1 → P 2 → (j : ℕ) → j < 3 → P j
all_3 P a b c zero h = a
all_3 P a b c (suc zero) h = b
all_3 P a b c (suc (suc zero)) h = c
all_3 P a b c (suc (suc (suc j))) h = absurd (omega arith)

find_next_example :
    (k : ℕ) × (find_next_task three ≡ candidate three k)
    × (k < 3)
    × (is_ready (task_at three.tasks (find_next_task three)).state ≡ true)
    × ((task_at three.tasks (find_next_task three)).priority ≤ 40)
    × (((task_at three.tasks (find_next_task three)).priority < 40) ⊎ (k ≤ distance three 1))
find_next_example =
    find_next-least three 1 (omega arith) (omega arith) (unfold is_ready in refl) (omega arith)

-- Two tasks are created, and the more urgent one, the second, is started.
abbrev started : Sched
started = record {
  tasks = task 0 ready 40 ∷ record (task 1 running 20) { sp = 1 } ∷ [];
  current = 1;
  quantum = 10;
  stacks = replicate task_max intact;
}

Reach-started : Reach started
unfolding nk_task_create scheduler_init scheduler_run find_next_task search_loop is_ready switch_to
    is_running canaries_intact
Reach-started =
    next
      (next (next boot (creates (λ e b n. b) (λ i. i) 256 (some no_task) (some 7) 40 none 0 refl))
        (creates (λ e b n. b) (λ i. i) 256 (some no_task) (some 7) 20 none 0 refl))
      (runs refl)

Reach-IsValid_example : IsValid started
Reach-IsValid_example = Reach-IsValid Reach-started

three-IsValid : IsValid three
unfolding is_running
three-IsValid = record {
  in_range = omega arith;
  room = omega arith;
  one_running =
      all_3 (λ j. is_running (task_at three.tasks j).state ≡ true → j ≡ 0) (λ r. refl)
        (λ r. ground arith) (λ r. ground arith);
  six_bits =
      all_3 (λ j. (task_at three.tasks j).priority < 64) (omega arith) (omega arith) (omega arith);
}

timers_wake_example :
    ((task_at (timers 5 (dozing 3)).tasks 1).state ≡ ready)
    × ((task_at (timers 5 (dozing 3)).tasks 1).sleep_ticks ≡ 0)
timers_wake_example = timers_wake 5 (dozing 3) 1 3 (omega arith) refl refl (omega arith)

others_asleep : (j : ℕ) → j < 2 → j ≢ 0 → is_ready (task_at (dozing 3).tasks j).state ≡ false
unfolding is_ready
others_asleep zero h ne = refl
others_asleep (suc zero) h ne = refl
others_asleep (suc (suc j)) h ne = absurd (omega arith)

others_lower :
    (j : ℕ)
    → j < 2
    → j ≢ 0
    → is_ready (task_at waiting.tasks j).state ≡ true
    → 10 < (task_at waiting.tasks j).priority
others_lower zero h ne r = absurd (ne refl)
others_lower (suc zero) h ne r = omega arith
others_lower (suc (suc j)) h ne r = absurd (omega arith)

abbrev yielded : Sched
yielded = record three {
  tasks = task 0 ready 20 ∷ task 1 ready 40 ∷ task 2 running 30 ∷ [];
  current = 2;
  quantum = 0;
}

nk_yield-three : nk_yield three ≡ some yielded
unfolding nk_yield atomic_schedule find_next_task search_loop is_ready switch_to is_running
    canaries_intact
nk_yield-three = refl
