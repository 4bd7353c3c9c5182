-- ===== src/Pthreads.antt =====
-- lib/posix/pthread/pthread_create.c, with `pthread_attr_t` of lib/posix/posix_types.h: threads over
-- the kernel's tasks, on the AVR, where `pthread_t` is a byte. A pointer that the code compares with
-- NULL is an option; a function pointer, an argument and a return value are numbers.
pub mod Creating
pub mod Joining
pub mod Ids
mod Tests
use avrix.Base.{
  ltb, leb, ◌==◌, if◌then◌else◌, get_or, set, replicate, u8, ℕ, ◌+◌, ◌-◌, Bool, not, ◌&&◌, Option,
  none, some, List,
}

abbrev pub pthread_threads_max : ℕ
pthread_threads_max = 16

abbrev pub pthread_create_joinable : ℕ
pthread_create_joinable = 0

abbrev pub pthread_create_detached : ℕ
pthread_create_detached = 1

abbrev pub eagain : ℕ
eagain = 11

abbrev pub einval : ℕ
einval = 22

-- What the file calls of the scheduler, whose state is of type `K`: `nk_task_create`, by the
-- priority, the stack and its length, and `nk_current_tid`.
pub record Kernel (K : Type 0) : Type 0 where
  pub nk_task_create : ℕ → ℕ → ℕ → K → Bool × K
  pub nk_current_tid : K → ℕ

-- `pthread_info_t`
pub record PthreadInfo : Type 0 where
  pub start_routine : Option ℕ
  pub arg : ℕ
  pub retval : ℕ
  pub joinable : ℕ

-- `pthread_attr_t`
pub record PthreadAttr : Type 0 where
  pub detachstate : ℕ
  pub priority : ℕ
  pub stacksize : ℕ
  pub stackaddr : Option ℕ

-- The static variables, with the state of the kernel.
pub record Pthreads (K : Type 0) : Type 0 where
  pub thread_info : List PthreadInfo
  pub next_thread : ℕ
  pub kernel : K

abbrev pub no_info : PthreadInfo
no_info = record { start_routine = none; arg = 0; retval = 0; joinable = 0 }

-- The state of a program that has made no thread yet.
abbrev pub pthreads_start : {K : Type 0} → K → Pthreads K
pthreads_start k = record {
  thread_info = replicate pthread_threads_max no_info;
  next_thread = 0;
  kernel = k;
}

abbrev pub info_at : {K : Type 0} → ℕ → Pthreads K → PthreadInfo
info_at t s = get_or s.thread_info t no_info

-- A write past the table is lost.
abbrev pub with_info : {K : Type 0} → ℕ → PthreadInfo → Pthreads K → Pthreads K
with_info t info s = record s { thread_info = set s.thread_info t info }

-- What `pthread_create` takes from the attributes, or by default.
unfoldable pub stack_size_of : Option PthreadAttr → ℕ
stack_size_of none = 256
stack_size_of (some attr) = if attr.stacksize == 0 then 256 else attr.stacksize

unfoldable pub priority_of : Option PthreadAttr → ℕ
priority_of none = 128
priority_of (some attr) = attr.priority

unfoldable pub detach_state_of : Option PthreadAttr → ℕ
detach_state_of none = pthread_create_joinable
detach_state_of (some attr) = attr.detachstate

unfoldable pub stack_address_of : Option PthreadAttr → Option ℕ
stack_address_of none = none
stack_address_of (some attr) = attr.stackaddr

-- What a round of the loop of `pthread_join` ends in: a result, or a call of `nk_yield`.
pub data Join : Type 0 where
  fails : (code : ℕ) → Join
  yields : Join
  joins : (retval : ℕ) → Join

-- `thread_stacks` is the address of each of the stacks of the file, by its number.
module _ {K : Type 0} (kernel : Kernel K) (thread_stacks : ℕ → ℕ) where
  -- `pthread_create` from the search for a slot on, with the stack that it has found: the result,
  -- the identifier stored, if any, and the state.
  unfoldable pub start_thread :
      Option PthreadAttr → ℕ → ℕ → ℕ → Pthreads K → ℕ × Option ℕ × Pthreads K
  start_thread attr stackaddr start_routine arg s =
      let tid = u8 (s.next_thread + 256 - 1) in
      let info : PthreadInfo = record {
        start_routine = some start_routine;
        arg = arg;
        retval = 0;
        joinable = if detach_state_of attr == pthread_create_joinable then 1 else 0;
      } in
      let (created, k) =
        kernel.nk_task_create (priority_of attr) stackaddr (stack_size_of attr) s.kernel in
      let s' = record (with_info tid info s) { kernel = k } in
      if created then (0, some tid, s') else (eagain, none, s')

  -- `has_thread` tells whether `thread` is not NULL.
  unfoldable pub pthread_create :
      Bool → Option PthreadAttr → Option ℕ → ℕ → Pthreads K → ℕ × Option ℕ × Pthreads K
  pthread_create has_thread attr none arg s = (einval, none, s)
  pthread_create has_thread attr (some start_routine) arg s =
      if not has_thread then (einval, none, s) else elim (stack_address_of attr) [
        | some stackaddr ↦ start_thread attr stackaddr start_routine arg s
        | none ↦
            if leb pthread_threads_max s.next_thread
            then (eagain, none, s)
            else start_thread attr (thread_stacks s.next_thread) start_routine arg
                (record s { next_thread = s.next_thread + 1 })
      ]

module _ {K : Type 0} (kernel : Kernel K) where
  unfoldable pub pthread_self : Pthreads K → ℕ
  pthread_self s = kernel.nk_current_tid s.kernel

  -- What `pthread_entry_wrapper` calls: the start routine with its argument.
  unfoldable pub pthread_entry_wrapper : Pthreads K → Option ℕ × ℕ
  pthread_entry_wrapper s = let info = info_at (pthread_self s) s in (info.start_routine, info.arg)

  -- Up to the call of `nk_task_exit`.
  unfoldable pub pthread_exit : ℕ → Pthreads K → Pthreads K
  pthread_exit retval s =
      let self = pthread_self s in
      with_info self (record (info_at self s) { retval = retval; start_routine = none }) s

-- The test before the loop of `pthread_join` and a round of the loop.
unfoldable pub pthread_join : {K : Type 0} → ℕ → Pthreads K → Join
pthread_join thread s =
    let info = info_at thread s in
    if leb pthread_threads_max thread
    then fails einval
    else if info.joinable == 0
    then fails einval
    else elim info.start_routine [ some _ ↦ yields | none ↦ joins info.retval ]

unfoldable pub pthread_detach : {K : Type 0} → ℕ → Pthreads K → ℕ × Pthreads K
pthread_detach thread s =
    if leb pthread_threads_max thread
    then (einval, s)
    else (0, with_info thread (record (info_at thread s) { joinable = 0 }) s)

unfoldable pub pthread_equal : ℕ → ℕ → ℕ
pthread_equal t1 t2 = if t1 == t2 then 1 else 0

-- The attributes: the result of a call and the attributes after it.
unfoldable pub pthread_attr_init : Option PthreadAttr → ℕ × Option PthreadAttr
pthread_attr_init none = (einval, none)
pthread_attr_init (some attr) = (
  0,
  some (record {
    detachstate = pthread_create_joinable;
    priority = 128;
    stacksize = 256;
    stackaddr = none;
  }),
)

unfoldable pub pthread_attr_setdetachstate : Option PthreadAttr → ℕ → ℕ × Option PthreadAttr
pthread_attr_setdetachstate none detachstate = (einval, none)
pthread_attr_setdetachstate (some attr) detachstate =
    if not (detachstate == pthread_create_joinable) && not (detachstate == pthread_create_detached)
    then (einval, some attr)
    else (0, some (record attr { detachstate = u8 detachstate }))

unfoldable pub pthread_attr_setstacksize : Option PthreadAttr → ℕ → ℕ × Option PthreadAttr
pthread_attr_setstacksize none stacksize = (einval, none)
pthread_attr_setstacksize (some attr) stacksize =
    if ltb stacksize 64
    then (einval, some attr)
    else (0, some (record attr { stacksize = stacksize }))

unfoldable pub pthread_attr_setstackaddr : Option PthreadAttr → Option ℕ → ℕ × Option PthreadAttr
pthread_attr_setstackaddr none stackaddr = (einval, none)
pthread_attr_setstackaddr (some attr) stackaddr = (0, some (record attr { stackaddr = stackaddr }))
