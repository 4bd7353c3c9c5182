-- ===== src/Sync/Tests.antt =====
-- Threads on the locks of kernel/sync/spinlock.h.
use avrix.Sync.Lattice.{lattice_stuck, rounds, first_shared, first_lock}
use avrix.Sync.Threads.{wants_core, lock, proceed, begin}
use avrix.Sync.Exclusion.{starts, proceeds, calls, Run, has_core, quiet, after, System, one_inside}
use avrix.Sync.{
  nk_flock_try, slock_round, draw, Qlock, lattice_16, qlock_served, plain, Spinlock, Shared,
  qlock_store, Slock,
}
use avrix.Base.{replicate, ℕ, ◌≡◌, refl, true, false}

abbrev open_slock : Slock
open_slock = record { base = 0; owner = 0 }

abbrev fresh_lock : Spinlock
fresh_lock = record { core = open_slock; dag_mask = 0; rt_mode = 0; matrix = replicate 4 0 }

abbrev fresh_shared : Shared
fresh_shared = record { nk_bkl = open_slock; ticket = 0 }

abbrev sys0 : System
sys0 = quiet fresh_lock fresh_shared

-- Thread 1 locks with mask 5, and thread 2 starts to wait.
abbrev sys1 : System
sys1 = after sys0 1 (begin plain (lock 5) sys0.lock sys0.shared)

abbrev sys2 : System
sys2 = after sys1 1 (proceed plain (sys1.at 1) sys1.lock sys1.shared)

abbrev sys3 : System
sys3 = after sys2 1 (proceed plain (sys2.at 1) sys2.lock sys2.shared)

abbrev sys4 : System
sys4 = after sys3 2 (begin plain (lock 6) sys3.lock sys3.shared)

sys4-Run : Run sys4
unfolding begin proceed draw slock_round nk_flock_try
sys4-Run =
    calls 2 (lock 6)
      (proceeds 1 (proceeds 1 (calls 1 (lock 5) (starts fresh_lock fresh_shared refl refl) refl)))
      refl

one_held : has_core (sys4.at 1) ≡ true
unfolding begin proceed draw slock_round nk_flock_try has_core
one_held = refl

abbrev holder : ℕ
holder = 1

one_inside_example : (holder ≡ holder) × (sys4.lock.core.base ≡ 1)
one_inside_example = one_inside sys4-Run 1 1 one_held one_held

lattice_stuck_example :
    let m =
      begin lattice_16
        (lock 5)
        (first_lock lattice_16 open_slock)
        (first_shared lattice_16 open_slock) in
    let later = rounds lattice_16 100 m in
    (later.place ≡ wants_core 3314 5)
    × (later.shared.nk_bkl.base ≡ 1)
    × (later.lock.core.owner ≡ 1657)
lattice_stuck_example = lattice_stuck false open_slock open_slock 5 99

-- Two threads that read the tail of a queue lock before either stores it are both served.
both_served :
    let q : Qlock = record { head = 0; tail = 0 } in
    let stored = qlock_store q.tail (qlock_store q.tail q) in qlock_served q.tail stored ≡ true
unfolding qlock_store qlock_served
both_served = refl
