-- ===== src/Pthreads/Ids.antt =====
-- The identifiers that `pthread_create` of lib/posix/pthread/pthread_create.c gives out, against the
-- numbers of the tasks of kernel/sched/scheduler.c, which `pthread_self` returns.
use avrix.Pthreads.Creating.{start_thread-created, pthread_create-created, slot_of}
use avrix.Sched
use mathlib.Core.Logic.{◌↔◌}
use avrix.Sched.{ready, Sched, Tcb, no_task}
use avrix.Pthreads.{
  stack_size_of, priority_of, no_info, info_at, stack_address_of, pthread_threads_max, PthreadAttr,
  pthread_self, pthread_create, Kernel, Pthreads, pthreads_start,
}
use avrix.Base.{
  length, get_or, set, length-append, length-set, get_or-set_self, ℕ, ◌+◌, ◌%◌, ◌≡◌, sym, ap, ap₂,
  ◌∙◌, true, Option, none, some, [], ◌∷◌, ◌++◌, arith,
}

-- A second thread gets the identifier of the first, and its slot, where the first has a stack of
-- the file and the second one of the caller's, and both are created one after the other.
pub identifier_shared :
    {K : Type 0} (kernel : Kernel K) (thread_stacks : ℕ → ℕ) (attr attr' : Option PthreadAttr)
    (f arg g arg' t u a : ℕ) (s s₀ s₁ : Pthreads K)
    → length s.thread_info ≡ pthread_threads_max
    → stack_address_of attr ≡ none
    → stack_address_of attr' ≡ some a
    → pthread_create kernel thread_stacks true attr (some f) arg s ≡ (0, some t, s₀)
    → pthread_create kernel thread_stacks true attr' (some g) arg' s₀ ≡ (0, some u, s₁)
    → (u ≡ t) × (info_at t s₁ ≡ slot_of attr' g arg')
unfolding pthread_create
identifier_shared kernel thread_stacks attr attr' f arg g arg' t u a s s₀ s₁ whole stack given first
      second =
    let c = pthread_create-created kernel thread_stacks attr f arg t s s₀ stack first in
    let room = c.room in
    let id = c.id in
    let next : s₀.next_thread ≡ s.next_thread + 1 =
      ap (λ (r : Pthreads _). r.next_thread) c.state in
    let table : length s₀.thread_info ≡ 16 =
      ap (λ (r : Pthreads _). length r.thread_info) c.state
      ∙ length-set s.thread_info t (slot_of attr f arg)
      ∙ whole in
    let (id', state, task) =
      start_thread-created kernel thread_stacks attr' a g arg' u s₀ s₁ (rw given at second) in
    let same : u ≡ t = omega arith in
    (
      same,
      ap (info_at t) state
          ∙ ap (λ n. get_or (set s₀.thread_info n (slot_of attr' g arg')) t no_info) same
          ∙ get_or-set_self s₀.thread_info t (slot_of attr' g arg') no_info (omega arith),
    )

module _ (context_init : ℕ → ℕ → ℕ → ℕ) (internal : ℕ → ℕ) (stack_size entry : ℕ) where
  -- The kernel's scheduler; the task's entry point is `pthread_entry_wrapper`.
  abbrev pub scheduler : Kernel Sched
  scheduler = record {
    nk_task_create = λ prio stack stack_len s.
        Sched.nk_task_create context_init internal stack_size (some no_task) (some entry) prio
          (some stack) stack_len s;
    nk_current_tid = Sched.nk_current_tid;
  }

  -- The control block of a new task.
  abbrev new_task : ℕ → ℕ → ℕ → ℕ → Tcb
  new_task prio stack len pid = record {
    sp = context_init entry stack len;
    state = ready;
    priority = prio % 64;
    pid = pid;
    sleep_ticks = 0;
  }

  create-new_task :
      (prio stack len : ℕ) (s s₀ : Sched)
      → scheduler.nk_task_create prio stack len s ≡ (true, s₀)
      → s₀.tasks ≡ s.tasks ++ (new_task prio stack len (length s.tasks) ∷ [])
  unfolding Sched.nk_task_create
  create-new_task prio stack len s s₀ made = ground (arith, made)

  -- The states after creations that succeed, from the start on, with how many tasks were created that
  -- are no threads on stacks of the file: tasks of the program, and threads on its stacks.
  pub data Creations (thread_stacks : ℕ → ℕ) : ℕ → Pthreads Sched → Type 0 where
    none_made : (k : Sched) → k.tasks ≡ [] → Creations thread_stacks 0 (pthreads_start k)
    thread_made :
        {others : ℕ} {s s₀ : Pthreads Sched} (attr : Option PthreadAttr) (f arg t : ℕ)
        → Creations thread_stacks others s
        → stack_address_of attr ≡ none
        → pthread_create scheduler thread_stacks true attr (some f) arg s ≡ (0, some t, s₀)
        → Creations thread_stacks others s₀
    own_stack_made :
        {others : ℕ} {s s₀ : Pthreads Sched} (attr : Option PthreadAttr) (f arg t a : ℕ)
        → Creations thread_stacks others s
        → stack_address_of attr ≡ some a
        → pthread_create scheduler thread_stacks true attr (some f) arg s ≡ (0, some t, s₀)
        → Creations thread_stacks (others + 1) s₀
    task_made :
        {others : ℕ} {s : Pthreads Sched} {k : Sched} (prio stack len : ℕ)
        → Creations thread_stacks others s
        → scheduler.nk_task_create prio stack len s.kernel ≡ (true, k)
        → Creations thread_stacks (others + 1) (record s { kernel = k })

  one_more :
      (prio stack len : ℕ) (s s₀ : Sched)
      → scheduler.nk_task_create prio stack len s ≡ (true, s₀)
      → length s₀.tasks ≡ length s.tasks + 1
  one_more prio stack len s s₀ made =
      ap length (create-new_task prio stack len s s₀ made) ∙ length-append s.tasks (_ ∷ [])

  own_stack-created :
      (thread_stacks : ℕ → ℕ) (attr : Option PthreadAttr) (f arg t a : ℕ) (s s₀ : Pthreads Sched)
      → stack_address_of attr ≡ some a
      → pthread_create scheduler thread_stacks true attr (some f) arg s ≡ (0, some t, s₀)
      → (s₀.next_thread ≡ s.next_thread)
        × (scheduler.nk_task_create (priority_of attr) a (stack_size_of attr) s.kernel
            ≡ (true, s₀.kernel))
  unfolding pthread_create
  own_stack-created thread_stacks attr f arg t a s s₀ given made =
      let (id, state, task) =
        start_thread-created scheduler thread_stacks attr a f arg t s s₀ (rw given at made) in
      (
        ap (λ (r : Pthreads Sched). r.next_thread) state,
        ap₂ (λ b k. (b, k)) task (sym (ap (λ (r : Pthreads Sched). r.kernel) state)),
      )

  -- Every task has either taken a stack of the file or is one of the others.
  Creations-counted :
      {thread_stacks : ℕ → ℕ} {others : ℕ} {s : Pthreads Sched}
      → Creations thread_stacks others s
      → length s.kernel.tasks ≡ s.next_thread + others
  Creations-counted (none_made k e) = ap length e
  Creations-counted {thread_stacks} (thread_made {others} {s} {s₀} attr f arg t r stack made) =
      let c = pthread_create-created scheduler thread_stacks attr f arg t s s₀ stack made in
      let next : s₀.next_thread ≡ s.next_thread + 1 =
        ap (λ (p : Pthreads Sched). p.next_thread) c.state in
      let more = one_more _ _ _ s.kernel s₀.kernel c.task in
      let before = Creations-counted r in omega arith
  Creations-counted {thread_stacks} (own_stack_made {others} {s} {s₀} attr f arg t a r given made) =
      let (next, task) = own_stack-created thread_stacks attr f arg t a s s₀ given made in
      let more = one_more _ _ _ s.kernel s₀.kernel task in
      let before = Creations-counted r in omega arith
  Creations-counted (task_made {others} {s} {k} prio stack len r made) =
      let more = one_more prio stack len s.kernel k made in
      let before = Creations-counted r in omega arith

  -- Over the kernel's scheduler, after creations that succeed, a thread is created on a stack of the
  -- file. Its task has the number that `pthread_self` returns when the task runs, and that is the
  -- thread's identifier exactly if no task was created before that is not a thread on a stack of the
  -- file.
  pub self_iff :
      (thread_stacks : ℕ → ℕ) (others : ℕ) (attr : Option PthreadAttr) (f arg t : ℕ)
      (s s₀ s₁ : Pthreads Sched)
      → Creations thread_stacks others s
      → stack_address_of attr ≡ none
      → pthread_create scheduler thread_stacks true attr (some f) arg s ≡ (0, some t, s₀)
      → s₁.kernel.current ≡ length s.kernel.tasks
      → (task : Tcb) × (s₀.kernel.tasks ≡ s.kernel.tasks ++ (task ∷ []))
        × (task.pid ≡ pthread_self scheduler s₁)
        × ((pthread_self scheduler s₁ ≡ t) ↔ (others ≡ 0))
  unfolding pthread_self Sched.nk_current_tid
  self_iff thread_stacks others attr f arg t s s₀ s₁ r stack made runs =
      let c = pthread_create-created scheduler thread_stacks attr f arg t s s₀ stack made in
      let id = c.id in
      let counted = Creations-counted r in
      (
        new_task (priority_of attr) (thread_stacks s.next_thread) (stack_size_of attr)
            (length s.kernel.tasks),
        create-new_task _ _ _ s.kernel s₀.kernel c.task,
        sym runs,
        (λ e. omega arith, λ e. omega arith),
      )
