-- ===== src/Mutexes/Tests.antt =====
-- Two threads on a mutex of lib/posix/pthread/pthread_mutex.c.
use avrix.Mutexes.Exclusion.{waits, locks, starts}
use avrix.Mutexes.Exclusion.{Run, one_holder}
use avrix.Mutexes.{
  test_and_set, lock_round, pthread_mutex_lock, ebusy, pthread_mutex_destroy, pthread_mutex_init,
  Mutex, MutexAttr,
}
use avrix.Base.{length, ℕ, ◌≤◌, ◌≡◌, refl, some, List, [], ◌∷◌}

abbrev garbage : Mutex
garbage = record { lock = 7; owner = 7; type = 7 }

abbrev fresh : Mutex
fresh = record { lock = 0; owner = 0; type = 0 }

abbrev taken : Mutex
taken = record { lock = 1; owner = 3; type = 0 }

-- Thread 3 takes the mutex, and thread 4 waits for it.
two_threads : Run taken (3 ∷ [])
unfolding pthread_mutex_init pthread_mutex_lock lock_round test_and_set
two_threads = waits 4 (locks 3 (starts garbage {m = fresh} refl) refl) refl

abbrev holders : List ℕ
holders = 3 ∷ []

one_holder_example : length holders ≤ 1
one_holder_example = one_holder two_threads

pthread_mutex_destroy-taken : pthread_mutex_destroy (some taken) ≡ ebusy
unfolding pthread_mutex_destroy
pthread_mutex_destroy-taken = refl

abbrev recursive : MutexAttr
recursive = record { type = 1; protocol = 0 }
