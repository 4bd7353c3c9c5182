-- ===== src/Mutexes/Exclusion.antt =====
-- Threads on one mutex of lib/posix/pthread/pthread_mutex.c.
use avrix.Mutexes.{edeadlk, pthread_mutex_recursive, pthread_mutex_errorcheck}
use avrix.Mutexes.{
  ebusy, MutexAttr, pthread_mutex_unlock, test_and_set, yields, pthread_mutex_trylock, returns,
  lock_round, pthread_mutex_normal, pthread_mutex_lock, success, pthread_mutex_init, Mutex,
}
use avrix.Base.{
  ◌==◌, if◌then◌else◌, length, length-append, ℕ, ◌≤◌, ◌≡◌, refl, none, some, List, [], ◌∷◌, ◌++◌,
  arith,
}

-- The states that calls on a normal mutex can reach, with the threads that hold it: those whose
-- call returned success and that have not unlocked since. Only a thread that holds it unlocks it.
-- Rounds of several threads follow each other in any order.
pub data Run : Mutex → List ℕ → Type 0 where
  starts :
      (old : Mutex) {m : Mutex} → pthread_mutex_init (some old) none ≡ (success, some m) → Run m []
  locks :
      {m : Mutex} {held : List ℕ} (self : ℕ) {m' : Mutex}
      → Run m held
      → pthread_mutex_lock self (some m) ≡ (returns success, some m')
      → Run m' (self ∷ held)
  waits :
      {m : Mutex} {held : List ℕ} (self : ℕ) {m' : Mutex}
      → Run m held
      → pthread_mutex_lock self (some m) ≡ (yields, some m')
      → Run m' held
  retries :
      {m : Mutex} {held : List ℕ} (self : ℕ) {m' : Mutex}
      → Run m held
      → lock_round self m ≡ (returns success, m')
      → Run m' (self ∷ held)
  waits_on :
      {m : Mutex} {held : List ℕ} (self : ℕ) {m' : Mutex}
      → Run m held
      → lock_round self m ≡ (yields, m')
      → Run m' held
  tries :
      {m : Mutex} {held : List ℕ} (self : ℕ) {m' : Mutex}
      → Run m held
      → pthread_mutex_trylock self (some m) ≡ (success, some m')
      → Run m' (self ∷ held)
  fails :
      {m : Mutex} {held : List ℕ} (self : ℕ) {m' : Mutex}
      → Run m held
      → pthread_mutex_trylock self (some m) ≡ (ebusy, some m')
      → Run m' held
  unlocks :
      {m : Mutex} (before : List ℕ) (self : ℕ) (after : List ℕ) {m' : Mutex}
      → Run m (before ++ (self ∷ after))
      → pthread_mutex_unlock self (some m) ≡ (success, some m')
      → Run m' (before ++ after)

-- The lock is 1 while one thread holds the mutex, and 0 while none does.
abbrev IsCounted : Mutex → List ℕ → Type 0
IsCounted m held = (m.type ≡ pthread_mutex_normal) × (length held ≡ m.lock) × (m.lock ≤ 1)

Run-IsCounted : {m : Mutex} {held : List ℕ} → Run m held → IsCounted m held
unfolding pthread_mutex_init pthread_mutex_lock pthread_mutex_trylock pthread_mutex_unlock
    lock_round test_and_set
Run-IsCounted (starts old e) = ground arith
Run-IsCounted (locks self r e) = ground (arith, Run-IsCounted r)
Run-IsCounted (waits self r e) = ground (arith, Run-IsCounted r)
Run-IsCounted (retries self r e) = ground (arith, Run-IsCounted r)
Run-IsCounted (waits_on self r e) = ground (arith, Run-IsCounted r)
Run-IsCounted (tries self r e) = ground (arith, Run-IsCounted r)
Run-IsCounted (fails self r e) = ground (arith, Run-IsCounted r)
Run-IsCounted (unlocks before self after r e) =
    ground (arith, Run-IsCounted r, length-append before (self ∷ after), length-append before after)

-- Mutual exclusion: after any sequence of calls and rounds on a normal mutex that only its holder
-- unlocks, at most one thread holds it.
pub one_holder : {m : Mutex} {held : List ℕ} → Run m held → length held ≤ 1
one_holder r = let (_, counted, bit) = Run-IsCounted r in omega arith

-- Thread 0 is taken for the owner of a fresh mutex, whose owner field is 0: of a recursive mutex
-- `pthread_mutex_lock` tells it that it has the lock, without taking it, and of an error-checking
-- one that it would deadlock; of a normal one it takes the lock.
pub fresh_owner :
    (old : Mutex) (attr : MutexAttr)
    → let m : Mutex = record { lock = 0; owner = 0; type = attr.type } in
      (pthread_mutex_init (some old) (some attr) ≡ (success, some m))
      × (pthread_mutex_lock 0 (some m) ≡ (
          if attr.type == pthread_mutex_recursive
          then (returns success, some m)
          else if attr.type == pthread_mutex_errorcheck
          then (returns edeadlk, some m)
          else (returns success, some (record m { lock = 1 }))))
unfolding pthread_mutex_init pthread_mutex_lock lock_round test_and_set
fresh_owner old attr = (refl, ground arith)
