-- ===== src/Sync/Threads.antt =====
-- Threads that call the functions of kernel/sync/spinlock.c on one spinlock, step by step.
use avrix.Sync.{
  release_bkl, release_core, slock_round, marked, try_core, try_bkl, draw, Shared, Spinlock, Build,
}
use avrix.Base.{if◌then◌else◌, ℕ}

-- Where a thread is: in no call, waiting in `nk_spinlock_lock` for the Big Kernel Lock or with it
-- for the core lock, in `nk_spinlock_trylock` with the Big Kernel Lock, waiting in
-- `nk_spinlock_lock_rt`, between a lock and the unlock that follows, or in an unlock or a failed
-- `nk_spinlock_trylock` before it releases the Big Kernel Lock.
pub data Place : Type 0 where
  idle held held_rt releasing : Place
  wants_bkl wants_core wants_core_rt : (my mask : ℕ) → Place
  tries : (mask : ℕ) → Place

-- A call that a thread makes when it is in none.
pub data Call : Type 0 where
  lock lock_rt trylock trylock_rt : (mask : ℕ) → Call

-- A thread's place with the memory it shares.
pub record Memory : Type 0 where
  pub place : Place
  pub lock : Spinlock
  pub shared : Shared

abbrev view : Place → Spinlock → Shared → Memory
view p s k = record { place = p; lock = s; shared = k }

module _ (b : Build) where
  -- The first access to a lock's byte, with the assignments up to the next one.
  unfoldable pub begin : Call → Spinlock → Shared → Memory
  begin (lock mask) s k = let (my, k') = draw b k in view (wants_bkl my mask) s k'
  begin (lock_rt mask) s k = let (my, k') = draw b k in view (wants_core_rt my mask) s k'
  begin (trylock mask) s k =
      let (got, k') = try_bkl b k in if got then view (tries mask) s k' else view idle s k'
  begin (trylock_rt mask) s k =
      let (got, s', k') = try_core b s k in
      if got then view held_rt (marked b mask 1 s') k' else view idle s' k'

  -- The next access of a thread that is in a call, or its unlock.
  unfoldable pub proceed : Place → Spinlock → Shared → Memory
  proceed idle s k = view idle s k
  proceed (wants_bkl my mask) s k =
      let (got, bkl) = slock_round b my k.nk_bkl in
      let (my', k') = draw b (record k { nk_bkl = bkl }) in
      if got
      then view (wants_core my' mask) s k'
      else view (wants_bkl my mask) s (record k { nk_bkl = bkl })
  proceed (wants_core my mask) s k =
      let (got, core) = slock_round b my s.core in
      let s' = record s { core = core } in
      if got then view held (marked b mask 0 s') k else view (wants_core my mask) s' k
  proceed (wants_core_rt my mask) s k =
      let (got, core) = slock_round b my s.core in
      let s' = record s { core = core } in
      if got then view held_rt (marked b mask 1 s') k else view (wants_core_rt my mask) s' k
  proceed (tries mask) s k =
      let (got, s', k') = try_core b s k in
      if got then view held (marked b mask 0 s') k' else view releasing s' k'
  proceed held s k = view releasing (release_core b s) k
  proceed held_rt s k = view idle (release_core b s) k
  proceed releasing s k = view idle s (release_bkl b k)
