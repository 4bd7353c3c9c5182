-- ===== src/Mutexes.antt =====
-- lib/posix/pthread/pthread_mutex.c and lib/posix/posix_types.h: POSIX mutexes on a test-and-set
-- lock. A pointer that may be NULL is an option. The calling thread, `pthread_self()`, is an
-- argument. The store to `owner` and the change of `lock` beside it are one step.
pub mod Exclusion
mod Tests
use avrix.Base.{ltb, ◌==◌, if◌then◌else◌, ℕ, not, ◌&&◌, Option, none, some}

abbrev pub pthread_mutex_normal : ℕ
pthread_mutex_normal = 0

abbrev pub pthread_mutex_recursive : ℕ
pthread_mutex_recursive = 1

abbrev pub pthread_mutex_errorcheck : ℕ
pthread_mutex_errorcheck = 2

abbrev pub pthread_prio_none : ℕ
pthread_prio_none = 0

-- What a call returns, 0 or an error.
pub data Code : Type 0 where
  success einval ebusy edeadlk eperm enotsup : Code

-- `pthread_mutex_t` and `pthread_mutexattr_t`
pub record Mutex : Type 0 where
  pub lock : ℕ
  pub owner : ℕ
  pub type : ℕ

pub record MutexAttr : Type 0 where
  pub type : ℕ
  pub protocol : ℕ

unfoldable pub pthread_mutex_init : Option Mutex → Option MutexAttr → Code × Option Mutex
pthread_mutex_init none attr = (einval, none)
pthread_mutex_init (some m) none =
    (success, some (record { lock = 0; owner = 0; type = pthread_mutex_normal }))
pthread_mutex_init (some m) (some attr) =
    (success, some (record { lock = 0; owner = 0; type = attr.type }))

unfoldable pub pthread_mutex_destroy : Option Mutex → Code
pthread_mutex_destroy none = einval
pthread_mutex_destroy (some m) = if m.lock == 0 then success else ebusy

-- `hal_atomic_test_and_set_u8`: the value before, and the mutex with its lock set.
unfoldable pub test_and_set : Mutex → ℕ × Mutex
test_and_set m = (m.lock, record m { lock = 1 })

-- A round of `pthread_mutex_lock`: it returns, or yields and goes on to the next round.
pub data Attempt : Type 0 where
  returns : Code → Attempt
  yields : Attempt

-- The body of the loop, and what follows it.
unfoldable pub lock_round : ℕ → Mutex → Attempt × Mutex
lock_round self m =
    let (before, m') = test_and_set m in
    if before == 0 then (returns success, record m' { owner = self }) else (yields, m')

-- The call up to the end of its first round.
unfoldable pub pthread_mutex_lock : ℕ → Option Mutex → Attempt × Option Mutex
pthread_mutex_lock self none = (returns einval, none)
pthread_mutex_lock self (some m) =
    let (attempt, m') = lock_round self m in
    if m.type == pthread_mutex_recursive && m.owner == self
    then (returns success, some m)
    else if m.type == pthread_mutex_errorcheck && m.owner == self
    then (returns edeadlk, some m)
    else (attempt, some m')

unfoldable pub pthread_mutex_trylock : ℕ → Option Mutex → Code × Option Mutex
pthread_mutex_trylock self none = (einval, none)
pthread_mutex_trylock self (some m) =
    let (before, m') = test_and_set m in
    if m.type == pthread_mutex_recursive && m.owner == self
    then (success, some m)
    else if before == 0
    then (success, some (record m' { owner = self }))
    else (ebusy, some m')

unfoldable pub pthread_mutex_unlock : ℕ → Option Mutex → Code × Option Mutex
pthread_mutex_unlock self none = (einval, none)
pthread_mutex_unlock self (some m) =
    if m.type == pthread_mutex_errorcheck && not (m.owner == self)
    then (eperm, some m)
    else (success, some (record m { owner = 0; lock = 0 }))

unfoldable pub pthread_mutexattr_init : Option MutexAttr → Code × Option MutexAttr
pthread_mutexattr_init none = (einval, none)
pthread_mutexattr_init (some attr) =
    (success, some (record { type = pthread_mutex_normal; protocol = pthread_prio_none }))

-- The type is an `int`; a negative one is `none`.
unfoldable pub pthread_mutexattr_settype : Option MutexAttr → Option ℕ → Code × Option MutexAttr
pthread_mutexattr_settype none type = (einval, none)
pthread_mutexattr_settype (some attr) none = (einval, some attr)
pthread_mutexattr_settype (some attr) (some type) =
    if ltb pthread_mutex_errorcheck type
    then (einval, some attr)
    else (success, some (record attr { type = type }))

-- The protocol is an `int`; a negative one is `none`.
unfoldable pub pthread_mutexattr_setprotocol : Option MutexAttr → Option ℕ → Code × Option MutexAttr
pthread_mutexattr_setprotocol none protocol = (einval, none)
pthread_mutexattr_setprotocol (some attr) none = (enotsup, some attr)
pthread_mutexattr_setprotocol (some attr) (some protocol) =
    if protocol == pthread_prio_none
    then (success, some (record attr { protocol = protocol }))
    else (enotsup, some attr)
