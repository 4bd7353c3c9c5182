-- ===== src/Pthreads/Joining.antt =====
-- What `pthread_join` of lib/posix/pthread/pthread_create.c waits for, and what it gets.
use avrix.Pthreads.Creating.{slot_of, pthread_create-created}
use mathlib.Core.Path.{subst}
use avrix.Pthreads.{
  joins, yields, pthread_join, no_info, pthread_entry_wrapper, with_info, pthread_create_joinable,
  stack_size_of, PthreadInfo, detach_state_of, priority_of, pthread_detach, pthread_exit,
  pthread_self, stack_address_of, start_thread, pthread_create, info_at, PthreadAttr,
  pthread_threads_max, Kernel, Pthreads,
}
use avrix.Base.{
  leb, ◌==◌, if◌then◌else◌, Bool-cases, length, set, length-set, get_or-set_self, get_or-set_ne, u8,
  ℕ, ◌+◌, ◌-◌, ◌≤◌, ◌<◌, ◌≡◌, refl, sym, ap, ◌∙◌, ◌≢◌, inl, inr, Bool, true, false, Option, none,
  some, arith,
}

-- The table is whole, and no more stacks are given out than there are.
pub record IsTable {K : Type 0} (s : Pthreads K) : Type 0 where
  pub whole : length s.thread_info ≡ pthread_threads_max
  pub stacks : s.next_thread ≤ pthread_threads_max

-- A slot that is in use stays as it is.
record Keeps {K : Type 0} (t : ℕ) (s s' : Pthreads K) : Type 0 where
  slot : info_at t s' ≡ info_at t s
  in_use : t < s'.next_thread
  table : IsTable s'

module _ {K : Type 0} {t : ℕ} {s s' : Pthreads K} (x : Keeps t s s') where
  kernel-Keeps : (k : K) → Keeps t s (record s' { kernel = k })
  kernel-Keeps k = record {
    slot = x.slot;
    in_use = x.in_use;
    table = record { whole = x.table.whole; stacks = x.table.stacks };
  }

  with_info-Keeps : (u : ℕ) (info : PthreadInfo) → u ≢ t → Keeps t s (with_info u info s')
  with_info-Keeps u info ne = record {
    slot = get_or-set_ne s'.thread_info u t info no_info ne ∙ x.slot;
    in_use = x.in_use;
    table = record {
      whole = length-set s'.thread_info u info ∙ x.table.whole;
      stacks = x.table.stacks;
    };
  }

  next_thread-Keeps :
      s'.next_thread < pthread_threads_max
      → Keeps t s (record s' { next_thread = s'.next_thread + 1 })
  next_thread-Keeps room = record {
    slot = x.slot;
    in_use = let h = x.in_use in omega arith;
    table = record { whole = x.table.whole; stacks = omega arith };
  }

-- The slot of a thread before and after its exit.
abbrev pub begun : ℕ → ℕ → PthreadInfo
begun f arg = record { start_routine = some f; arg = arg; retval = 0; joinable = 1 }

abbrev pub over : ℕ → ℕ → PthreadInfo
over arg retval = record { start_routine = none; arg = arg; retval = retval; joinable = 1 }

join-begun :
    {K : Type 0} (t f arg : ℕ) (s : Pthreads K)
    → t < 16
    → info_at t s ≡ begun f arg
    → pthread_join t s ≡ yields
unfolding pthread_join
join-begun t f arg s h e = rw e (ground arith)

join-over :
    {K : Type 0} (t arg retval : ℕ) (s : Pthreads K)
    → t < 16
    → info_at t s ≡ over arg retval
    → pthread_join t s ≡ joins retval
unfolding pthread_join
join-over t arg retval s h e = rw e (ground arith)

module _ {K : Type 0} (kernel : Kernel K) (thread_stacks : ℕ → ℕ) where
  -- What threads other than `t` do, in any order: the kernel goes on, threads are created on the
  -- stacks of the file, exit, and are detached.
  pub data Others (t : ℕ) (s : Pthreads K) : Pthreads K → Type 0 where
    none_yet : Others t s s
    runs : {s' : Pthreads K} (k : K) → Others t s s' → Others t s (record s' { kernel = k })
    creates :
        {s' : Pthreads K} (has_thread : Bool) (attr : Option PthreadAttr) (start : Option ℕ)
        (arg : ℕ)
        → stack_address_of attr ≡ none
        → Others t s s'
        → Others t s (pthread_create kernel thread_stacks has_thread attr start arg s').2
    exits :
        {s' : Pthreads K} (retval : ℕ)
        → pthread_self kernel s' ≢ t
        → Others t s s'
        → Others t s (pthread_exit kernel retval s')
    detaches :
        {s' : Pthreads K} (u : ℕ) → u ≢ t → Others t s s' → Others t s (pthread_detach u s').1

  start_thread-Keeps :
      {t : ℕ} {s s' : Pthreads K} (attr : Option PthreadAttr) (stackaddr f arg : ℕ)
      → Keeps t s s'
      → t + 1 < s'.next_thread
      → Keeps t s (start_thread kernel thread_stacks attr stackaddr f arg s').2
  unfolding start_thread
  start_thread-Keeps {t} {s} {s'} attr stackaddr f arg x h =
      let made =
        kernel.nk_task_create (priority_of attr) stackaddr (stack_size_of attr) s'.kernel in
      let in_table = x.table.stacks in
      let kept =
        kernel-Keeps (with_info-Keeps x (u8 (s'.next_thread + 256 - 1)) _ (omega arith)) made.1 in
      elim (Bool-cases made.0) [ inl e ↦ rw e kept | inr e ↦ rw e kept ]

  pthread_create-Keeps :
      {t : ℕ} {s s' : Pthreads K} (has_thread : Bool) (attr : Option PthreadAttr) (start : Option ℕ)
      (arg : ℕ)
      → stack_address_of attr ≡ none
      → Keeps t s s'
      → Keeps t s (pthread_create kernel thread_stacks has_thread attr start arg s').2
  unfolding pthread_create
  pthread_create-Keeps has_thread attr none arg e x = x
  pthread_create-Keeps false attr (some f) arg e x = x
  pthread_create-Keeps {s' = s'} true attr (some f) arg e x =
      rw e (elim (Bool-cases (leb pthread_threads_max s'.next_thread)) [
        | inl full ↦ rw full x
        | inr room ↦
            let h = x.in_use in
            rw room
              (start_thread-Keeps attr _ f arg (next_thread-Keeps x (ground arith)) (omega arith))
      ])

  Others-Keeps :
      {t : ℕ} {s s' : Pthreads K} → IsTable s → t < s.next_thread → Others t s s' → Keeps t s s'
  unfolding pthread_exit pthread_detach
  Others-Keeps v h none_yet = record { slot = refl; in_use = h; table = v }
  Others-Keeps v h (runs k o) = kernel-Keeps (Others-Keeps v h o) k
  Others-Keeps v h (creates has_thread attr start arg e o) =
      pthread_create-Keeps has_thread attr start arg e (Others-Keeps v h o)
  Others-Keeps v h (exits retval ne o) = with_info-Keeps (Others-Keeps v h o) _ _ ne
  Others-Keeps v h (detaches u ne o) = elim (Bool-cases (leb pthread_threads_max u)) [
    | inl e ↦ rw e (Others-Keeps v h o)
    | inr e ↦ rw e (with_info-Keeps (Others-Keeps v h o) u _ ne)
  ]

  -- A slot that has just been filled.
  record Filled (f arg t : ℕ) (s : Pthreads K) : Type 0 where
    slot : info_at t s ≡ begun f arg
    in_use : t < s.next_thread
    table : IsTable s

  pthread_create-Filled :
      (attr : Option PthreadAttr) (f arg t : ℕ) (s s₀ : Pthreads K)
      → IsTable s
      → stack_address_of attr ≡ none
      → detach_state_of attr ≡ pthread_create_joinable
      → pthread_create kernel thread_stacks true attr (some f) arg s ≡ (0, some t, s₀)
      → Filled f arg t s₀
  pthread_create-Filled attr f arg t s s₀ v stack joinable made =
      let c = pthread_create-created kernel thread_stacks attr f arg t s s₀ stack made in
      let info = slot_of attr f arg in
      let whole = v.whole in
      let room = c.room in
      let id = c.id in
      let same : info ≡ begun f arg =
        ap (λ d. record (begun f arg) { joinable = if d == pthread_create_joinable then 1 else 0 })
          joinable in
      let filled : Filled f arg t (record s {
        thread_info = set s.thread_info t info;
        next_thread = s.next_thread + 1;
        kernel = s₀.kernel;
      }) =
        record {
          slot = get_or-set_self s.thread_info t info no_info (omega arith) ∙ same;
          in_use = omega arith;
          table = record {
            whole = length-set s.thread_info t info ∙ v.whole;
            stacks = omega arith;
          };
        } in
      subst (Filled f arg t) (sym c.state) filled

  exit-over :
      (t f arg retval : ℕ) (s : Pthreads K)
      → t < length s.thread_info
      → pthread_self kernel s ≡ t
      → info_at t s ≡ begun f arg
      → info_at t (pthread_exit kernel retval s) ≡ over arg retval
  unfolding pthread_exit
  exit-over t f arg retval s h self e =
      rw self (get_or-set_self s.thread_info t _ no_info h ∙ rw e refl)

  entry-begun :
      (t f arg : ℕ) (s : Pthreads K)
      → pthread_self kernel s ≡ t
      → info_at t s ≡ begun f arg
      → pthread_entry_wrapper kernel s ≡ (some f, arg)
  unfolding pthread_entry_wrapper
  entry-begun t f arg s self e = rw (self, e) refl

  exit-IsTable : (retval : ℕ) (s : Pthreads K) → IsTable s → IsTable (pthread_exit kernel retval s)
  unfolding pthread_exit
  exit-IsTable retval s v = record {
    whole = length-set s.thread_info (pthread_self kernel s) _ ∙ v.whole;
    stacks = v.stacks;
  }

  exit-in_use :
      (t retval : ℕ) (s : Pthreads K)
      → t < s.next_thread
      → t < (pthread_exit kernel retval s).next_thread
  unfolding pthread_exit
  exit-in_use t retval s h = h

  -- A thread that is created joinable, with a stack of the file, starts with its routine and
  -- argument when it first runs; `pthread_join` waits for it until it exits, and then gets the value
  -- it exits with, whatever the other threads do. The table is whole, the thread runs under the
  -- identifier that it got, and nobody detaches it.
  pub create-exit-join :
      {s s₀ s₁ s₂ : Pthreads K} {t : ℕ} (attr : Option PthreadAttr) (f arg retval : ℕ)
      → IsTable s
      → stack_address_of attr ≡ none
      → detach_state_of attr ≡ pthread_create_joinable
      → pthread_create kernel thread_stacks true attr (some f) arg s ≡ (0, some t, s₀)
      → Others t s₀ s₁
      → pthread_self kernel s₁ ≡ t
      → Others t (pthread_exit kernel retval s₁) s₂
      → (pthread_entry_wrapper kernel s₁ ≡ (some f, arg))
        × (pthread_join t s₁ ≡ yields)
        × (pthread_join t s₂ ≡ joins retval)
  create-exit-join {s} {s₀} {s₁} {s₂} {t} attr f arg retval v stack joinable made before self
        after =
      let filled = pthread_create-Filled attr f arg t s s₀ v stack joinable made in
      let k₁ = Others-Keeps filled.table filled.in_use before in
      let now = k₁.slot ∙ filled.slot in
      let in_use = k₁.in_use in
      let stacks = k₁.table.stacks in
      let whole = k₁.table.whole in
      let exited = pthread_exit kernel retval s₁ in
      let k₂ =
        Others-Keeps (exit-IsTable retval s₁ k₁.table) (exit-in_use t retval s₁ in_use) after in
      (
        entry-begun t f arg s₁ self now,
        join-begun t f arg s₁ (omega arith) now,
        join-over t arg retval s₂ (omega arith)
            (k₂.slot ∙ exit-over t f arg retval s₁ (omega arith) self now),
      )
