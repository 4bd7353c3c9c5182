-- ===== src/Pthreads/Creating.antt =====
-- What a successful call of `pthread_create` of lib/posix/pthread/pthread_create.c has done.
use avrix.Pthreads.{
  pthread_create_joinable, stack_size_of, eagain, detach_state_of, with_info, start_thread,
  PthreadInfo, stack_address_of, priority_of, pthread_threads_max, PthreadAttr, pthread_create,
  Kernel, Pthreads,
}
use avrix.Base.{
  leb, ◌==◌, if◌then◌else◌, Bool-cases, if_true, if_false, set, u8, ℕ, ◌+◌, ◌-◌, ◌<◌, ◌≡◌, sym, ap,
  ap₂, ◌∙◌, inl, inr, Bool, true, Option, none, some, arith,
}

-- The slot that is filled in.
abbrev pub slot_of : Option PthreadAttr → ℕ → ℕ → PthreadInfo
slot_of attr f arg = record {
  start_routine = some f;
  arg = arg;
  retval = 0;
  joinable = if detach_state_of attr == pthread_create_joinable then 1 else 0;
}

module _ {K : Type 0} (kernel : Kernel K) (thread_stacks : ℕ → ℕ) where
  abbrev pub task_made : Option PthreadAttr → ℕ → K → Bool × K
  task_made attr stackaddr k =
      kernel.nk_task_create (priority_of attr) stackaddr (stack_size_of attr) k

  pub start_thread-created :
      (attr : Option PthreadAttr) (stackaddr f arg t : ℕ) (s s₀ : Pthreads K)
      → start_thread kernel thread_stacks attr stackaddr f arg s ≡ (0, some t, s₀)
      → (t ≡ u8 (s.next_thread + 256 - 1))
        × (s₀ ≡ record (with_info t (slot_of attr f arg) s) {
          kernel = (task_made attr stackaddr s.kernel).1;
        })
        × ((task_made attr stackaddr s.kernel).0 ≡ true)
  unfolding start_thread
  start_thread-created attr stackaddr f arg t s s₀ made = ground (arith, made)

  -- On a stack of the file.
  pub record Created (attr : Option PthreadAttr) (f arg t : ℕ) (s s₀ : Pthreads K) : Type 0 where
    pub room : s.next_thread < pthread_threads_max
    pub id : t ≡ s.next_thread
    pub task : task_made attr (thread_stacks s.next_thread) s.kernel ≡ (true, s₀.kernel)
    pub state : s₀ ≡ record s {
      thread_info = set s.thread_info t (slot_of attr f arg);
      next_thread = s.next_thread + 1;
      kernel = s₀.kernel;
    }

  pub pthread_create-created :
      (attr : Option PthreadAttr) (f arg t : ℕ) (s s₀ : Pthreads K)
      → stack_address_of attr ≡ none
      → pthread_create kernel thread_stacks true attr (some f) arg s ≡ (0, some t, s₀)
      → Created attr f arg t s s₀
  unfolding pthread_create
  pthread_create-created attr f arg t s s₀ stack made =
      let full = leb pthread_threads_max s.next_thread in
      let next = record s { next_thread = s.next_thread + 1 } in
      let started =
        start_thread kernel thread_stacks attr (thread_stacks s.next_thread) f arg next in
      let made' : (if full then (eagain, none, s) else started) ≡ (0, some t, s₀) =
        rw stack at made in
      elim (Bool-cases full) [
        | inl e ↦ let m = sym (if_true _ started e) ∙ made' in absurd (ground (arith, m))
        | inr e ↦
            let (id, state, task) =
              start_thread-created attr (thread_stacks s.next_thread) f arg t next s₀
                (sym (if_false _ started e) ∙ made') in
            let kept = sym (ap (λ (r : Pthreads K). r.kernel) state) in
            let room : s.next_thread < pthread_threads_max = ground arith in
            record {
              room = room;
              id = omega arith;
              task = ap₂ (λ b k. (b, k)) task kept;
              state =
                  state
                  ∙ ap (λ k. record (with_info t (slot_of attr f arg) next) { kernel = k }) kept;
            }
      ]
