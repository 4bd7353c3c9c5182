-- ===== src/Sync/Exclusion.antt =====
-- Mutual exclusion of the threads on one spinlock of kernel/sync/spinlock.c, in the build without
-- tickets.
use avrix.Sync.Threads.{
  trylock_rt, trylock, lock_rt, lock, begin, Memory, Call, proceed, releasing, held_rt, held, tries,
  wants_core_rt, idle, wants_core, wants_bkl, Place,
}
use avrix.Sync.{
  try_bkl, try_core, nk_flock_unlock, nk_slock_unlock, release_bkl, release_core, Slock, plain,
  nk_flock_try, Shared, draw, Spinlock, slock_round,
}
use native.Mathlib.Decide.{ℕ_discrete}
use avrix.Base.{
  ◌==◌, if◌then◌else◌, ==_iff, ==-false_of_ne, if_true, if_false, ℕ, ◌≤◌, ◌≡◌, refl, sym, ap, ◌∙◌,
  ◌≢◌, ◌⊎◌, inl, inr, Bool, true, false, arith,
}

-- Whether a thread at a place has the core lock, and whether it has the Big Kernel Lock.
unfoldable pub has_core : Place → Bool
has_core idle = false
has_core held = true
has_core held_rt = true
has_core releasing = false
has_core (wants_bkl my mask) = false
has_core (wants_core my mask) = false
has_core (wants_core_rt my mask) = false
has_core (tries mask) = false

unfoldable pub has_bkl : Place → Bool
has_bkl idle = false
has_bkl held = true
has_bkl held_rt = false
has_bkl releasing = true
has_bkl (wants_bkl my mask) = false
has_bkl (wants_core my mask) = true
has_bkl (wants_core_rt my mask) = false
has_bkl (tries mask) = true

-- All threads, with the memory they share.
pub record System : Type 0 where
  pub at : ℕ → Place
  pub lock : Spinlock
  pub shared : Shared

abbrev pub moved : (ℕ → Place) → ℕ → Place → ℕ → Place
moved at t p u = if t == u then p else at u

-- The system after a thread's step.
abbrev pub after : System → ℕ → Memory → System
after sys t r = record { at = moved sys.at t r.place; lock = r.lock; shared = r.shared }

-- Both locks free, and no thread in a call.
abbrev pub quiet : Spinlock → Shared → System
quiet s k = record { at = λ u. idle; lock = s; shared = k }

-- The states that steps of any threads, in any order, can reach.
pub data Run : System → Type 0 where
  starts : (s : Spinlock) (k : Shared) → s.core.base ≡ 0 → k.nk_bkl.base ≡ 0 → Run (quiet s k)
  calls :
      {sys : System} (t : ℕ) (c : Call)
      → Run sys
      → sys.at t ≡ idle
      → Run (after sys t (begin plain c sys.lock sys.shared))
  proceeds :
      {sys : System} (t : ℕ)
      → Run sys
      → Run (after sys t (proceed plain (sys.at t) sys.lock sys.shared))

-- A lock's byte is 1 while a thread has the lock, and one thread at most has it.
pub record Exclusive (has : Place → Bool) (at : ℕ → Place) (base : ℕ) : Type 0 where
  pub bit : base ≤ 1
  pub locked : (t : ℕ) → has (at t) ≡ true → base ≡ 1
  pub alone : (t u : ℕ) → has (at t) ≡ true → has (at u) ≡ true → t ≡ u

-- What a step of one thread may do to a lock.
data Change (has : Place → Bool) (p p' : Place) (base base' : ℕ) : Type 0 where
  keeps : has p' ≡ has p → base' ≡ base → Change has p p' base base'
  misses : has p' ≡ has p → base ≢ 0 → base' ≡ 1 → Change has p p' base base'
  takes : base ≡ 0 → base' ≡ 1 → Change has p p' base base'
  gives : has p ≡ true → has p' ≡ false → base' ≡ 0 → Change has p p' base base'

-- A thread other than `t` that has the lock after a step of `t` had it before, and so has `t` if
-- the step keeps what it has.
had-other :
    (has : Place → Bool) (at : ℕ → Place) (t u : ℕ) (p : Place)
    → has (moved at t p u) ≡ true
    → (t ≢ u)
    → has (at u) ≡ true
had-other has at t u p h ne = rw (==-false_of_ne t u ne) at h

had-same :
    (has : Place → Bool) (at : ℕ → Place) (t u : ℕ) (p : Place)
    → has p ≡ has (at t)
    → has (moved at t p u) ≡ has (at u)
had-same has at t u p e = elim (ℕ_discrete t u) [
  | yes same ↦ ap has (if_true p (at u) ((==_iff t u).1 same)) ∙ e ∙ ap (λ i. has (at i)) same
  | no ne ↦ ap has (if_false p (at u) (==-false_of_ne t u ne))
]

Change-Exclusive :
    (has : Place → Bool) (at : ℕ → Place) (t : ℕ) (p : Place) (base base' : ℕ)
    → Exclusive has at base
    → Change has (at t) p base base'
    → Exclusive has (moved at t p) base'
Change-Exclusive has at t p base base' x (keeps e same) = record {
  bit = rw same x.bit;
  locked = λ u h. same ∙ x.locked u (sym (had-same has at t u p e) ∙ h);
  alone = λ u w h k.
      x.alone u w (sym (had-same has at t u p e) ∙ h) (sym (had-same has at t w p e) ∙ k);
}
Change-Exclusive has at t p base base' x (misses e busy one) = record {
  bit = omega arith;
  locked = λ u h. one;
  alone = λ u w h k.
      x.alone u w (sym (had-same has at t u p e) ∙ h) (sym (had-same has at t w p e) ∙ k);
}
Change-Exclusive has at t p base base' x (takes free one) =
    let only_t : (u : ℕ) → has (moved at t p u) ≡ true → t ≡ u = λ u h. elim (ℕ_discrete t u) [
      | yes same ↦ same
      | no ne ↦ let busy = x.locked u (had-other has at t u p h ne) in absurd (omega arith)
    ] in
    record {
      bit = omega arith;
      locked = λ u h. one;
      alone = λ u w h k. sym (only_t u h) ∙ only_t w k;
    }
Change-Exclusive has at t p base base' x (gives mine gone zero_now) =
    let none_left : (u : ℕ) → has (moved at t p u) ≡ true → ⊥ = λ u h. elim (ℕ_discrete t u) [
      | yes same ↦
          let e = sym gone ∙ ap has (sym (if_true p (at u) ((==_iff t u).1 same))) ∙ h in
          absurd (ground arith)
      | no ne ↦ ne (x.alone t u mine (had-other has at t u p h ne))
    ] in
    record {
      bit = omega arith;
      locked = λ u h. absurd (none_left u h);
      alone = λ u w h k. absurd (none_left u h);
    }

-- One round on a lock's byte.
pub slock_round-cases :
    (my : ℕ) (s : Slock)
    → ((s.base ≡ 0) × (slock_round plain my s ≡ (true, record s { base = 1 })))
      ⊎ ((s.base ≢ 0) × (slock_round plain my s ≡ (false, record s { base = 1 })))
unfolding slock_round nk_flock_try
slock_round-cases my s = elim (ℕ_discrete s.base 0) [
  | yes free ↦ inl (free, rw free refl)
  | no busy ↦ inr (busy, rw (==-false_of_ne s.base 0 busy) refl)
]

-- What a step does to the two locks.
abbrev Changes : Place → Memory → Spinlock → Shared → Type 0
Changes p r s k =
    Change has_core p r.place s.core.base r.lock.core.base
    × Change has_bkl p r.place k.nk_bkl.base r.shared.nk_bkl.base

proceed-Changes : (p : Place) (s : Spinlock) (k : Shared) → Changes p (proceed plain p s k) s k
unfolding proceed has_core has_bkl draw release_core release_bkl nk_slock_unlock nk_flock_unlock
    try_core
proceed-Changes idle s k = (keeps refl refl, keeps refl refl)
proceed-Changes held s k = (gives refl refl refl, keeps refl refl)
proceed-Changes held_rt s k = (gives refl refl refl, keeps refl refl)
proceed-Changes releasing s k = (keeps refl refl, gives refl refl refl)
proceed-Changes (wants_bkl my mask) s k = elim (slock_round-cases my k.nk_bkl) [
  | inl (free, e) ↦ rw (e, proceed) (keeps refl refl, takes free refl)
  | inr (busy, e) ↦ rw (e, proceed) (keeps refl refl, misses refl busy refl)
]
proceed-Changes (wants_core my mask) s k = elim (slock_round-cases my s.core) [
  | inl (free, e) ↦ rw (e, proceed) (takes free refl, keeps refl refl)
  | inr (busy, e) ↦ rw (e, proceed) (misses refl busy refl, keeps refl refl)
]
proceed-Changes (wants_core_rt my mask) s k = elim (slock_round-cases my s.core) [
  | inl (free, e) ↦ rw (e, proceed) (takes free refl, keeps refl refl)
  | inr (busy, e) ↦ rw (e, proceed) (misses refl busy refl, keeps refl refl)
]
proceed-Changes (tries mask) s k = elim (slock_round-cases 0 s.core) [
  | inl (free, e) ↦ rw (e, proceed) (takes free refl, keeps refl refl)
  | inr (busy, e) ↦ rw (e, proceed) (misses refl busy refl, keeps refl refl)
]

begin-Changes : (c : Call) (s : Spinlock) (k : Shared) → Changes idle (begin plain c s k) s k
unfolding begin has_core has_bkl draw try_core try_bkl
begin-Changes (lock mask) s k = (keeps refl refl, keeps refl refl)
begin-Changes (lock_rt mask) s k = (keeps refl refl, keeps refl refl)
begin-Changes (trylock mask) s k = elim (slock_round-cases 0 k.nk_bkl) [
  | inl (free, e) ↦ rw (e, begin) (keeps refl refl, takes free refl)
  | inr (busy, e) ↦ rw (e, begin) (keeps refl refl, misses refl busy refl)
]
begin-Changes (trylock_rt mask) s k = elim (slock_round-cases 0 s.core) [
  | inl (free, e) ↦ rw (e, begin) (takes free refl, keeps refl refl)
  | inr (busy, e) ↦ rw (e, begin) (misses refl busy refl, keeps refl refl)
]

abbrev IsSystem : System → Type 0
IsSystem sys =
    Exclusive has_core sys.at sys.lock.core.base × Exclusive has_bkl sys.at sys.shared.nk_bkl.base

free-Exclusive :
    (has : Place → Bool) (base : ℕ) → has idle ≡ false → base ≡ 0 → Exclusive has (λ t. idle) base
free-Exclusive has base e free = record {
  bit = omega arith;
  locked = λ t h. absurd (ground arith);
  alone = λ t u h k. absurd (ground arith);
}

Run-IsSystem : {sys : System} → Run sys → IsSystem sys
unfolding has_core has_bkl
Run-IsSystem (starts s k e e') =
    (free-Exclusive has_core _ refl e, free-Exclusive has_bkl _ refl e')
Run-IsSystem (calls {sys = sys} t c r e) =
    let (x, y) = Run-IsSystem r in
    let (dx, dy) = begin-Changes c sys.lock sys.shared in
    (
      Change-Exclusive has_core sys.at t _ _ _ x (rw e dx),
      Change-Exclusive has_bkl sys.at t _ _ _ y (rw e dy),
    )
Run-IsSystem (proceeds {sys = sys} t r) =
    let (x, y) = Run-IsSystem r in
    let (dx, dy) = proceed-Changes (sys.at t) sys.lock sys.shared in
    (Change-Exclusive has_core sys.at t _ _ _ x dx, Change-Exclusive has_bkl sys.at t _ _ _ y dy)

-- Mutual exclusion: after any steps of any threads that lock, try and unlock one spinlock with and
-- without the Big Kernel Lock, from a state where both locks are free and no thread is in a call,
-- two threads that are between a lock and its unlock are the same one, and while there is one the
-- core lock's byte is 1. In the build without tickets.
pub one_inside :
    {sys : System}
    → Run sys
    → (t u : ℕ) → has_core (sys.at t) ≡ true
    → has_core (sys.at u) ≡ true
    → (t ≡ u) × (sys.lock.core.base ≡ 1)
one_inside r t u h k = let (x, y) = Run-IsSystem r in (x.alone t u h k, x.locked t h)
