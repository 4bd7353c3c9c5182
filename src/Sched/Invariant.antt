-- ===== src/Sched/Invariant.antt =====
-- What holds in every state that the calls of kernel/sched/scheduler.c can reach.
use mathlib.Core.Path.{subst}
use avrix.Base.{
  ◌==◌, if◌then◌else◌, ==_iff, Bool-cases, if_true, length, set, length-set, get_or-set_self,
  get_or-set_ne, ℕ, ◌-◌, ◌≤◌, ◌<◌, ◌≡◌, refl, sym, ap, ◌∙◌, ◌≢◌, inl, inr, true, false, some, List,
  arith,
}
use avrix.Sched.{
  canaries_intact, ready, running, is_running, Tcb, Sched, no_task, task_max, count, task_at,
  set_state, switch_to,
}

-- `current` names a task, once there is one; only the current task can be in the state `running`;
-- priorities have six bits; and the table is not overrun.
pub record IsValid (s : Sched) : Type 0 where
  pub in_range : s.current ≤ count s - 1
  pub room : count s ≤ task_max
  pub one_running :
      (j : ℕ) → j < count s → is_running (task_at s.tasks j).state ≡ true → j ≡ s.current
  pub six_bits : (j : ℕ) → j < count s → (task_at s.tasks j).priority < 64

-- A table after a write in range.
pub task_at-set :
    (ts : List Tcb) (i j : ℕ) (t : Tcb)
    → i < length ts
    → task_at (set ts i t) j ≡ (if i == j then t else task_at ts j)
task_at-set ts i j t h = elim (Bool-cases (i == j)) [
  | inl e ↦
      let e' : j ≡ i = sym ((==_iff i j).0 e) in
      rw e (ap (get_or-of (set ts i t)) e' ∙ get_or-set_self ts i t no_task h)
  | inr n ↦ rw n (get_or-set_ne ts i j t no_task (ground arith))
]
  where
    get_or-of : List Tcb → ℕ → Tcb
    get_or-of xs k = task_at xs k

-- Replacing the current task's block keeps the invariant.
pub set_current-IsValid :
    (s : Sched) (t : Tcb)
    → 0 < count s
    → t.priority < 64
    → IsValid s
    → IsValid (record s { tasks = set s.tasks s.current t })
set_current-IsValid s t pos small v =
    let size = length-set s.tasks s.current t in
    let inside : s.current < count s = let h = v.in_range in omega arith in
    let at = λ (j : ℕ). task_at-set s.tasks s.current j t inside in
    record {
      in_range = rw size v.in_range;
      room = rw size v.room;
      one_running = λ j h r. ground (arith, at j, v.one_running j (rw size at h));
      six_bits = λ j h. ground (arith, at j, v.six_bits j (rw size at h));
    }

-- The table after the task that is left has gone from `running` to `ready`.
abbrev leave : Sched → List Tcb
leave s =
    if is_running (task_at s.tasks s.current).state
    then set s.tasks s.current (set_state ready (task_at s.tasks s.current))
    else s.tasks

length-leave : (s : Sched) → length (leave s) ≡ count s
length-leave s =
    ground (arith, length-set s.tasks s.current (set_state ready (task_at s.tasks s.current)))

module _ (s : Sched) (v : IsValid s) (j : ℕ) (h : j < count s) where
  leave_idle : is_running (task_at (leave s) j).state ≡ false
  unfolding is_running
  leave_idle = ground (
    arith,
    v.in_range,
    v.one_running j h,
    task_at-set s.tasks s.current j (set_state ready (task_at s.tasks s.current)),
  )

  leave_priority : (task_at (leave s) j).priority ≡ (task_at s.tasks j).priority
  leave_priority = ground (
    arith,
    v.in_range,
    task_at-set s.tasks s.current j (set_state ready (task_at s.tasks s.current)),
  )

-- The table after the switch.
abbrev enter : ℕ → Sched → List Tcb
enter next s = set (leave s) next (set_state running (task_at (leave s) next))

enter-IsValid :
    (next : ℕ) (s : Sched)
    → next < count s
    → IsValid s
    → IsValid (record s { tasks = enter next s; current = next })
enter-IsValid next s h v =
    let t = set_state running (task_at (leave s) next) in
    let size : length (enter next s) ≡ count s = length-set (leave s) next t ∙ length-leave s in
    let at = λ (j : ℕ). task_at-set (leave s) next j t (rw (length-leave s) h) in
    record {
      in_range = rw size (omega arith);
      room = rw size v.room;
      one_running = λ j hj r. ground (arith, at j, leave_idle s v j (rw size at hj));
      six_bits = λ j hj. ground (
        arith,
        at j,
        leave_priority s v j (rw size at hj),
        leave_priority s v next h,
        v.six_bits j (rw size at hj),
        v.six_bits next h,
      );
    }

-- Switching to a task keeps the invariant.
pub switch_to-IsValid :
    (next : ℕ) (s : Sched) {s' : Sched}
    → next < count s
    → IsValid s
    → switch_to next s ≡ some s'
    → IsValid s'
unfolding switch_to
switch_to-IsValid next s {s'} h v e = elim (Bool-cases (next == s.current)) [
  | inl same ↦ let e' : s ≡ s' = ground arith in subst IsValid e' v
  | inr other ↦
      let e' : record s { tasks = enter next s; current = next } ≡ s' = ground arith in
      subst IsValid e' (enter-IsValid next s h v)
]

-- Switching to the current task does nothing.
pub switch_to_same : (next : ℕ) (s : Sched) → next ≡ s.current → switch_to next s ≡ some s
unfolding switch_to
switch_to_same next s e = if_true _ _ ((==_iff next s.current).1 e)

-- Switching from a running task to another one makes the first ready and the other one running.
pub switch_to_other :
    (next : ℕ) (s : Sched)
    → s.current < count s
    → next < count s
    → next ≢ s.current
    → canaries_intact s ≡ true
    → (task_at s.tasks s.current).state ≡ running
    → (s' : Sched) × (switch_to next s ≡ some s')
      × (s'.current ≡ next)
      × ((task_at s'.tasks s.current).state ≡ ready)
      × ((task_at s'.tasks next).state ≡ running)
unfolding switch_to is_running
switch_to_other next s hc hn ne guards run =
    let from = set_state ready (task_at s.tasks s.current) in
    let to = set_state running (task_at (leave s) next) in
    let room : next < length (leave s) = rw (length-leave s) hn in
    (
      record s { tasks = enter next s; current = next },
      ground arith,
      refl,
      ground (
        arith,
        task_at-set (leave s) next s.current to room,
        task_at-set s.tasks s.current s.current from hc,
      ),
      ground (arith, task_at-set (leave s) next next to room),
    )
