-- ===== src/Sync/Lattice.antt =====
-- The calls of kernel/sync/spinlock.c on their own: a try and its unlock, and the first lock in the
-- build with tickets.
use avrix.Sync.Threads.{lock}
use avrix.Sync.Exclusion.{slock_round-cases}
use avrix.Sync.Threads.{wants_core, proceed, lock, begin, Memory}
use avrix.Sync.{
  nk_flock_try, slock_round, nk_next_ticket, plain, nk_flock_unlock, nk_slock_unlock, release_core,
  release_bkl, draw, try_core, nk_slock_init, lattice_16, try_bkl, nk_spinlock_global_init,
  Spinlock, Shared, lattice_32, nk_spinlock_unlock, Build, Slock, nk_spinlock_trylock,
}
use avrix.Base.{
  replicate, ℕ, zero, suc, ◌+◌, ◌≤◌, ◌≡◌, refl, sym, ap, ◌∙◌, ◌≢◌, ◌⊎◌, inl, inr, Bool, true, false,
  some, arith,
}

kept_slock : (s : Slock) → s.base ≢ 0 → s.base ≤ 1 → record s { base = 1 } ≡ s
kept_slock s busy bit = let one : 1 ≡ s.base = omega arith in λ i. record s { base = one i }

freed_slock : (s : Slock) → s.base ≡ 0 → record s { base = 0 } ≡ s
freed_slock s free = λ i. record s { base = sym free i }

-- In the build without tickets, `nk_spinlock_trylock` on a lock whose byte and the Big Kernel
-- Lock's are 0 or 1 takes both if both are free, and then `nk_spinlock_unlock` gives both back with
-- the mask and the mode cleared; otherwise it returns false and changes nothing.
pub trylock-unlock :
    (s : Spinlock) (mask : ℕ) (k : Shared)
    → s.core.base ≤ 1
    → k.nk_bkl.base ≤ 1
    → let r = nk_spinlock_trylock plain (some s) mask k in
      ((s.core.base ≡ 0)
        × (k.nk_bkl.base ≡ 0)
        × (r.0 ≡ true)
        × (nk_spinlock_unlock plain r.1 r.2 ≡ (some (record s { dag_mask = 0; rt_mode = 0 }), k)))
      ⊎ (((s.core.base ≢ 0) ⊎ (k.nk_bkl.base ≢ 0)) × (r ≡ (false, some s, k)))
unfolding nk_spinlock_trylock nk_spinlock_unlock try_bkl try_core draw release_bkl release_core
    nk_slock_unlock nk_flock_unlock
trylock-unlock s mask k bit bit' = elim (slock_round-cases 0 k.nk_bkl) [
  | inr (busy, e) ↦
      rw (e, nk_spinlock_trylock)
        (inr
          (inr busy, (λ i. (false, some s, record k { nk_bkl = kept_slock k.nk_bkl busy bit' i }))))
  | inl (free, e) ↦ elim (slock_round-cases 0 s.core) [
    | inr (busy', e') ↦
        rw (e, e', nk_spinlock_trylock)
          (inr (
            inl busy',
            (λ i. (
              false,
              some (record s { core = kept_slock s.core busy' bit i }),
              record k { nk_bkl = freed_slock k.nk_bkl free i },
            )),
          ))
    | inl (free', e') ↦
        rw (e, e', nk_spinlock_trylock)
          (inl (
            free',
            free,
            refl,
            (λ i. (
              some (record s { core = freed_slock s.core free' i; dag_mask = 0; rt_mode = 0 }),
              record k { nk_bkl = freed_slock k.nk_bkl free i },
            )),
          ))
  ]
]

-- The steps of a thread that is alone, `n` of them.
unfoldable pub rounds : Build → ℕ → Memory → Memory
rounds b zero m = m
rounds b (suc n) m = rounds b n (proceed b m.place m.lock m.shared)

abbrev pub lattice_build : Bool → Build
lattice_build true = lattice_32
lattice_build false = lattice_16

-- The memory after the initializers.
abbrev pub first_shared : Build → Slock → Shared
first_shared b bkl = nk_spinlock_global_init b (record { nk_bkl = bkl; ticket = 0 })

abbrev pub first_lock : Build → Slock → Spinlock
first_lock b core = record {
  core = nk_slock_init b core;
  dag_mask = 0;
  rt_mode = 0;
  matrix = replicate 4 0;
}

-- The thread waits for the core lock with the second ticket.
abbrev waiting : Bool → ℕ → Memory
waiting wide mask =
    let b = lattice_build wide in
    record {
      place = wants_core (b.delta + b.delta) mask;
      lock = record {
        core = record { base = 0; owner = b.delta };
        dag_mask = 0;
        rt_mode = 0;
        matrix = replicate 4 0;
      };
      shared = record { nk_bkl = record { base = 1; owner = b.delta }; ticket = b.delta + b.delta };
    }

second-waiting :
    (wide : Bool) (bkl core : Slock) (mask : ℕ)
    → let b = lattice_build wide in
      let m = begin b (lock mask) (first_lock b core) (first_shared b bkl) in
      proceed b m.place m.lock m.shared ≡ waiting wide mask
unfolding begin proceed draw nk_next_ticket nk_slock_init nk_spinlock_global_init slock_round
    nk_flock_try
second-waiting true bkl core mask = refl
second-waiting false bkl core mask = refl

waiting-stays :
    (wide : Bool) (mask : ℕ)
    → let m = waiting wide mask in proceed (lattice_build wide) m.place m.lock m.shared ≡ m
unfolding proceed slock_round nk_flock_try nk_flock_unlock
waiting-stays true mask = refl
waiting-stays false mask = refl

rounds-waiting :
    (wide : Bool) (mask n : ℕ)
    → rounds (lattice_build wide) n (waiting wide mask) ≡ waiting wide mask
unfolding rounds
rounds-waiting wide mask zero = refl
rounds-waiting wide mask (suc n) =
    ap (rounds (lattice_build wide) n) (waiting-stays wide mask) ∙ rounds-waiting wide mask n

-- In the build with tickets of 16 or of 32 bits, the first `nk_spinlock_lock` after
-- `nk_spinlock_global_init` and `nk_spinlock_init` never gets the lock: after any number of steps,
-- the thread that is alone has the Big Kernel Lock and waits for the core lock with the second
-- ticket, while the lock's owner is the first.
pub lattice_stuck :
    (wide : Bool) (bkl core : Slock) (mask n : ℕ)
    → let b = lattice_build wide in
      let m = begin b (lock mask) (first_lock b core) (first_shared b bkl) in
      let after = rounds b (suc n) m in
      (after.place ≡ wants_core (b.delta + b.delta) mask)
      × (after.shared.nk_bkl.base ≡ 1)
      × (after.lock.core.owner ≡ b.delta)
unfolding rounds
lattice_stuck wide bkl core mask n =
    let e =
      ap (rounds (lattice_build wide) n) (second-waiting wide bkl core mask)
      ∙ rounds-waiting wide mask n in
    rw (e, rounds) (refl, refl, refl)
