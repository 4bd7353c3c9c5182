-- ===== src/Sync.antt =====
-- kernel/sync/spinlock.h and kernel/sync/spinlock.c: fast locks, queue locks, lattice tickets, and
-- the composite spinlock over the Big Kernel Lock. A pointer that may be `NULL` is an `Option`;
-- memory barriers have no effect on the values, since each step is taken whole.
pub mod Threads
pub mod Exclusion
pub mod Lattice
mod Tests
use avrix.Base.{
  ◌==◌, if◌then◌else◌, replicate, u8, ℕ, ◌+◌, ◌%◌, Bool, true, false, not, ◌&&◌, Option, none, some,
  List,
}

-- `nk_flock_t` is its byte; `hal_atomic_test_and_set_u8` returns the old value and stores 1.
unfoldable pub nk_flock_try : ℕ → Bool × ℕ
nk_flock_try f = (f == 0, 1)

unfoldable pub nk_flock_unlock : ℕ → ℕ
nk_flock_unlock f = 0

-- `nk_qlock_t`. A thread reads its ticket, stores the next one, and waits to be served.
pub record Qlock : Type 0 where
  pub head : ℕ
  pub tail : ℕ

unfoldable pub qlock_store : ℕ → Qlock → Qlock
qlock_store my_ticket q = record q { tail = u8 (my_ticket + 1) }

unfoldable pub qlock_served : ℕ → Qlock → Bool
qlock_served my_ticket q = q.head == my_ticket

unfoldable pub nk_qlock_unlock : Qlock → Qlock
nk_qlock_unlock q = record q { head = u8 (q.head + 1) }

-- The build: `NK_ENABLE_LATTICE`, and the number of values and the step of a ticket.
pub record Build : Type 0 where
  pub lattice : Bool
  pub ticket_range : ℕ
  pub delta : ℕ

-- The two settings of `NK_WORD_BITS`, and the build without tickets.
abbrev pub lattice_16 : Build
lattice_16 = record { lattice = true; ticket_range = 65536; delta = 1657 }

abbrev pub lattice_32 : Build
lattice_32 = record { lattice = true; ticket_range = 4294967296; delta = 1696768 }

abbrev pub plain : Build
plain = record { lattice = false; ticket_range = 65536; delta = 1657 }

-- `nk_slock_t`, with `NK_ENABLE_DAG` off; the owner is there only with tickets.
pub record Slock : Type 0 where
  pub base : ℕ
  pub owner : ℕ

-- `nk_spinlock_t`, and what all locks share: `nk_bkl` and `nk_lattice_ticket`.
pub record Spinlock : Type 0 where
  pub core : Slock
  pub dag_mask : ℕ
  pub rt_mode : ℕ
  pub matrix : List ℕ

pub record Shared : Type 0 where
  pub nk_bkl : Slock
  pub ticket : ℕ

module _ (b : Build) where
  unfoldable pub nk_next_ticket : Shared → ℕ × Shared
  nk_next_ticket k =
      let ticket = (k.ticket + b.delta) % b.ticket_range in (ticket, record k { ticket = ticket })

  unfoldable pub nk_slock_init : Slock → Slock
  nk_slock_init s = record { base = 0; owner = if b.lattice then b.delta else s.owner }

  unfoldable pub nk_slock_unlock : Slock → Slock
  nk_slock_unlock s = record {
    base = nk_flock_unlock s.base;
    owner = if b.lattice then (s.owner + b.delta) % b.ticket_range else s.owner;
  }

  -- A round of the loop of `nk_slock_lock`, with the ticket, and `nk_slock_trylock` after it has
  -- taken one: whether the lock is taken.
  unfoldable pub slock_round : ℕ → Slock → Bool × Slock
  slock_round my s =
      let (got, after) = nk_flock_try s.base in
      if not got
      then (false, record s { base = after })
      else if b.lattice && not (s.owner == my)
      then (false, record s { base = nk_flock_unlock after })
      else (true, record s { base = after })

  -- The ticket is taken only with `NK_ENABLE_LATTICE`.
  unfoldable pub draw : Shared → ℕ × Shared
  draw k = if b.lattice then nk_next_ticket k else (0, k)

  -- `nk_slock_trylock(&nk_bkl)`
  unfoldable pub try_bkl : Shared → Bool × Shared
  try_bkl k =
      let (my, k') = draw k in
      let (got, bkl) = slock_round my k'.nk_bkl in (got, record k' { nk_bkl = bkl })

  -- `nk_slock_trylock(&s->core)`
  unfoldable pub try_core : Spinlock → Shared → Bool × Spinlock × Shared
  try_core s k =
      let (my, k') = draw k in
      let (got, core) = slock_round my s.core in (got, record s { core = core }, k')

  unfoldable pub nk_spinlock_global_init : Shared → Shared
  nk_spinlock_global_init k = record k { nk_bkl = nk_slock_init k.nk_bkl }

  unfoldable pub nk_spinlock_init : Option Spinlock → Option Spinlock
  nk_spinlock_init none = none
  nk_spinlock_init (some s) =
      some
        (record { core = nk_slock_init s.core; dag_mask = 0; rt_mode = 0; matrix = replicate 4 0 })

  unfoldable pub release_bkl : Shared → Shared
  release_bkl k = record k { nk_bkl = nk_slock_unlock k.nk_bkl }

  abbrev pub marked : ℕ → ℕ → Spinlock → Spinlock
  marked mask rt s = record s { dag_mask = mask; rt_mode = rt }

  unfoldable pub nk_spinlock_trylock :
      Option Spinlock → ℕ → Shared → Bool × Option Spinlock × Shared
  nk_spinlock_trylock none mask k = (false, none, k)
  nk_spinlock_trylock (some s) mask k =
      let (got_bkl, k') = try_bkl k in
      if not got_bkl
      then (false, some s, k')
      else let (got, s', k'') = try_core s k' in
        if not got then (false, some s', release_bkl k'') else (true, some (marked mask 0 s'), k'')

  unfoldable pub nk_spinlock_trylock_rt :
      Option Spinlock → ℕ → Shared → Bool × Option Spinlock × Shared
  nk_spinlock_trylock_rt none mask k = (false, none, k)
  nk_spinlock_trylock_rt (some s) mask k =
      let (got, s', k') = try_core s k in
      if not got then (false, some s', k') else (true, some (marked mask 1 s'), k')

  unfoldable pub release_core : Spinlock → Spinlock
  release_core s =
      let cleared = marked 0 0 s in record cleared { core = nk_slock_unlock cleared.core }

  unfoldable pub nk_spinlock_unlock : Option Spinlock → Shared → Option Spinlock × Shared
  nk_spinlock_unlock none k = (none, k)
  nk_spinlock_unlock (some s) k = (some (release_core s), release_bkl k)

  unfoldable pub nk_spinlock_unlock_rt : Option Spinlock → Shared → Option Spinlock × Shared
  nk_spinlock_unlock_rt none k = (none, k)
  nk_spinlock_unlock_rt (some s) k = (some (release_core s), k)
