-- ===== src/Pthreads/Tests.antt =====
-- Runs of lib/posix/pthread/pthread_create.c over the kernel's scheduler.
use avrix.Sched.Steps.{creates}
use avrix.Pthreads.Ids.{Creations, none_made, task_made, self_iff, scheduler}
use avrix.Pthreads.Joining.{none_yet, creates, create-exit-join, begun}
use mathlib.Core.Logic.{◌↔◌}
use avrix.Sched
use avrix.Sched.{ready, Sched, Tcb, no_task}
use avrix.Pthreads.{
  joins, pthread_exit, stack_size_of, yields, priority_of, einval, pthread_join,
  pthread_create_joinable, pthread_attr_init, start_thread, pthread_create, pthread_self,
  detach_state_of, stack_address_of, PthreadAttr, pthread_entry_wrapper, pthreads_start,
  pthread_attr_setdetachstate, pthread_attr_setstacksize, Kernel, Pthreads,
}
use avrix.Base.{set, ℕ, ◌+◌, ◌*◌, ◌≡◌, refl, true, Option, none, some, [], ◌∷◌, ◌++◌, arith}

abbrev kernel : Kernel Sched
kernel = scheduler (λ entry base len. base + len) (λ n. 0) 64 700

abbrev stacks_at : ℕ → ℕ
stacks_at n = 1024 + n * 256

abbrev fresh : Pthreads Sched
fresh = pthreads_start (record { tasks = []; current = 0; quantum = 10; stacks = [] })

-- Routine 5 with argument 9, and then routine 6 with argument 1.
abbrev one_thread : Pthreads Sched
one_thread = record fresh {
  thread_info = set fresh.thread_info 0 (begun 5 9);
  next_thread = 1;
  kernel = record fresh.kernel {
    tasks = (record { sp = 1280; state = ready; priority = 0; pid = 0; sleep_ticks = 0 }) ∷ [];
  };
}

first_thread : pthread_create kernel stacks_at true none (some 5) 9 fresh ≡ (0, some 0, one_thread)
unfolding pthread_create start_thread Sched.nk_task_create priority_of stack_size_of detach_state_of
    stack_address_of
first_thread = refl

default_stack : stack_address_of none ≡ none
unfolding stack_address_of
default_stack = refl

default_joinable : detach_state_of none ≡ pthread_create_joinable
unfolding detach_state_of
default_joinable = refl

abbrev two_threads : Pthreads Sched
two_threads = (pthread_create kernel stacks_at true none (some 6) 1 one_thread).2

first_runs : pthread_self kernel two_threads ≡ 0
unfolding pthread_self Sched.nk_current_tid pthread_create start_thread Sched.nk_task_create
    priority_of stack_size_of detach_state_of stack_address_of
first_runs = refl

create-exit-join_example :
    (pthread_entry_wrapper kernel two_threads ≡ (some 5, 9))
    × (pthread_join 0 two_threads ≡ yields)
    × (pthread_join 0 (pthread_exit kernel 33 two_threads) ≡ joins 33)
create-exit-join_example =
    create-exit-join kernel stacks_at none 5 9 33 (record { whole = refl; stacks = omega arith })
      default_stack default_joinable first_thread
      (creates true none (some 6) 1 default_stack none_yet) first_runs none_yet

-- A thread on a stack of the caller's takes the place of the first.
abbrev own_stack : Option PthreadAttr
own_stack = some (record { detachstate = 1; priority = 10; stacksize = 512; stackaddr = some 4096 })

own_stack_given : stack_address_of own_stack ≡ some 4096
unfolding stack_address_of
own_stack_given = refl

abbrev shared : Pthreads Sched
shared = (pthread_create kernel stacks_at true own_stack (some 6) 1 one_thread).2

second_thread :
    pthread_create kernel stacks_at true own_stack (some 6) 1 one_thread ≡ (0, some 0, shared)
unfolding pthread_create start_thread Sched.nk_task_create priority_of stack_size_of detach_state_of
    stack_address_of
second_thread = refl

-- A program whose first task, with its stack at 512, is no thread.
abbrev with_main : Pthreads Sched
with_main = record fresh { kernel = (kernel.nk_task_create 5 512 64 fresh.kernel).1 }

main_made : kernel.nk_task_create 5 512 64 fresh.kernel ≡ (true, with_main.kernel)
unfolding Sched.nk_task_create
main_made = refl

main-Creations : Creations (λ entry base len. base + len) (λ n. 0) 64 700 stacks_at 1 with_main
main-Creations = task_made 5 512 64 (none_made fresh.kernel refl) main_made

abbrev main_and_thread : Pthreads Sched
main_and_thread = (pthread_create kernel stacks_at true none (some 5) 9 with_main).2

main_and_thread_made :
    pthread_create kernel stacks_at true none (some 5) 9 with_main ≡ (0, some 0, main_and_thread)
unfolding pthread_create start_thread Sched.nk_task_create priority_of stack_size_of detach_state_of
    stack_address_of
main_and_thread_made = refl

abbrev thread_runs : Pthreads Sched
thread_runs = record main_and_thread { kernel = record main_and_thread.kernel { current = 1 } }

self_iff_example :
    (task : Tcb) × (main_and_thread.kernel.tasks ≡ with_main.kernel.tasks ++ (task ∷ []))
    × (task.pid ≡ pthread_self kernel thread_runs)
    × ((pthread_self kernel thread_runs ≡ 0) ↔ (◌≡◌ {A = ℕ} 1 0))
unfolding Sched.nk_task_create
self_iff_example =
    self_iff (λ entry base len. base + len) (λ n. 0) 64 700 stacks_at 1 none 5 9 0 with_main
      main_and_thread thread_runs main-Creations default_stack main_and_thread_made refl

-- What is set in the attributes is there.
detached :
    pthread_attr_setdetachstate (pthread_attr_init own_stack).1 1
    ≡ (0, some (record { detachstate = 1; priority = 128; stacksize = 256; stackaddr = none }))
unfolding pthread_attr_setdetachstate pthread_attr_init
detached = refl

small_stack : pthread_attr_setstacksize own_stack 63 ≡ (einval, own_stack)
unfolding pthread_attr_setstacksize
small_stack = refl
