-- ===== src/Sched/Next.antt =====
-- `find_next_task` of kernel/sched/scheduler.c: which task is chosen.
use native.Mathlib.Decide.{dec_lt}
use mathlib.Core.Path.{subst}
use native.Mathlib.Nat.{mod-eq_of_lt, add-mod_right, mod-lt}
use avrix.Base.{
  ltb, leb, if◌then◌else◌, Bool-cases, ℕ, zero, suc, ◌+◌, ◌-◌, ◌%◌, ◌≤◌, ◌<◌, ◌≡◌, refl, ap, ◌∙◌,
  ◌⊎◌, inl, inr, true, false, ◌&&◌, arith,
}
use avrix.Sched.{is_ready, Tcb, Sched, count, task_at, candidate, search_loop, find_next_task}

-- The task that round `i` of the search looks at, and whether it can run.
abbrev pub looked_at : Sched → ℕ → Tcb
looked_at s i = task_at s.tasks (candidate s i)

abbrev pub IsReadyAt : Sched → ℕ → Type 0
IsReadyAt s i = is_ready (looked_at s i).state ≡ true

-- What the first `i` rounds leave in `best` and `bestp`.
pub data Best (s : Sched) (i best bestp : ℕ) : Type 0 where
  nothing :
      best ≡ s.current
      → bestp ≡ 0xFF
      → ((j : ℕ) → j < i → IsReadyAt s j → 0xFF ≤ (looked_at s j).priority)
      → Best s i best bestp
  found :
      (k : ℕ)
      → k < i
      → best ≡ candidate s k
      → bestp ≡ (looked_at s k).priority
      → bestp < 0xFF
      → IsReadyAt s k
      → ((j : ℕ) → j < k → IsReadyAt s j → bestp < (looked_at s j).priority)
      → ((j : ℕ) → j < i → IsReadyAt s j → bestp ≤ (looked_at s j).priority)
      → Best s i best bestp

-- A claim about the rounds before `i` and about round `i` is one about the rounds before `i + 1`.
below_suc : (P : ℕ → Type 0) (i : ℕ) → ((j : ℕ) → j < i → P j) → P i → (j : ℕ) → j < suc i → P j
below_suc P i before last j h = elim (dec_lt j i) [
  | yes p ↦ before j p
  | no p ↦ let e : i ≡ j = omega arith in subst P e last
]

-- A round that finds a ready task of a smaller priority number takes it, and another changes
-- nothing.
Best-better :
    (s : Sched) (i best bestp : ℕ)
    → IsReadyAt s i
    → (looked_at s i).priority < bestp
    → Best s i best bestp
    → Best s (suc i) (candidate s i) (looked_at s i).priority
Best-better s i best bestp r lt (nothing b p all) =
    found i (omega arith) refl refl (omega arith) r (λ j h rj. omega (arith, all j h rj))
      (below_suc _ i (λ j h rj. omega (arith, all j h rj)) (λ rj. omega arith))
Best-better s i best bestp r lt (found k ki b p small rk before all) =
    found i (omega arith) refl refl (omega arith) r (λ j h rj. omega (arith, all j h rj))
      (below_suc _ i (λ j h rj. omega (arith, all j h rj)) (λ rj. omega arith))

Best-keep :
    (s : Sched) (i best bestp : ℕ)
    → (IsReadyAt s i → bestp ≤ (looked_at s i).priority)
    → Best s i best bestp
    → Best s (suc i) best bestp
Best-keep s i best bestp le (nothing b p all) =
    nothing b p (below_suc _ i all (λ rj. omega (arith, le rj)))
Best-keep s i best bestp le (found k ki b p small rk before all) =
    found k (omega arith) b p small rk before (below_suc _ i all le)

search_loop_lem :
    (s : Sched) (n i end best bestp : ℕ)
    → i + n ≡ end
    → Best s i best bestp
    → (bestp' : ℕ) × Best s end (search_loop s n i best bestp) bestp'
unfolding search_loop
search_loop_lem s zero i end best bestp e h =
    let e' : i ≡ end = omega arith in (bestp, subst (λ k. Best s k best bestp) e' h)
search_loop_lem s (suc n) i end best bestp e h =
    elim (Bool-cases (is_ready t.state && ltb t.priority bestp)) [
      | inl better ↦ rw better (
          search_loop_lem s n (i + 1) end (candidate s i) t.priority (omega arith) (
            subst (λ k. Best s k (candidate s i) t.priority) one
              (Best-better s i best bestp (ground arith) (ground arith) h)))
      | inr worse ↦ rw worse (
          search_loop_lem s n (i + 1) end best bestp (omega arith)
            (subst (λ k. Best s k best bestp) one (Best-keep s i best bestp (λ r. ground arith) h)))
    ]
  where
    t : Tcb
    t = looked_at s i

    one : suc i ≡ i + 1
    one = omega arith

-- `find_next_task` looks at the tasks in turn, from the one after `current` on, round to `current`
-- itself. It returns the first of those ready tasks whose priority number is least, if any task
-- is ready with a priority number below 255; otherwise it returns `current`.
pub find_next_task_lem : (s : Sched) → (bestp : ℕ) × Best s (count s) (find_next_task s) bestp
unfolding find_next_task
find_next_task_lem s =
    search_loop_lem s (count s) 0 (count s) s.current 0xFF (omega arith)
      (nothing refl refl (λ j h r. absurd (omega arith)))

-- The distance from `current` at which a task is looked at.
abbrev pub distance : Sched → ℕ → ℕ
distance s j = if leb j s.current then j + count s - s.current - 1 else j - s.current - 1

pub candidate-distance :
    (s : Sched) (j : ℕ)
    → s.current < count s
    → j < count s
    → (candidate s (distance s j) ≡ j) × (distance s j < count s)
candidate-distance s j hc hj = elim (dec_lt s.current j) [
  | yes above ↦
      let e : s.current + distance s j + 1 ≡ j = ground arith in
      (ap (λ n. n % count s) e ∙ mod-eq_of_lt hj, ground arith)
  | no below ↦
      let e : s.current + distance s j + 1 ≡ j + count s = ground arith in
      (ap (λ n. n % count s) e ∙ add-mod_right j (count s) ∙ mod-eq_of_lt hj, ground arith)
]

candidate-lt : (s : Sched) (i : ℕ) → 0 < count s → candidate s i < count s
candidate-lt s i h = mod-lt (s.current + i + 1) h

least_of :
    (s : Sched) (j d bestp : ℕ)
    → d < count s
    → candidate s d ≡ j
    → is_ready (task_at s.tasks j).state ≡ true
    → (task_at s.tasks j).priority < 0xFF
    → Best s (count s) (find_next_task s) bestp
    → (k : ℕ) × (find_next_task s ≡ candidate s k)
      × (k < count s)
      × (is_ready (task_at s.tasks (find_next_task s)).state ≡ true)
      × ((task_at s.tasks (find_next_task s)).priority ≤ (task_at s.tasks j).priority)
      × (((task_at s.tasks (find_next_task s)).priority < (task_at s.tasks j).priority) ⊎ (k ≤ d))
least_of s j d bestp near e r small (nothing b p all) =
    absurd (omega (arith, all d near (rw e r), ap (λ i. (task_at s.tasks i).priority) e))
least_of s j d bestp near e r small (found k hk b p _ rk before all) =
    let here = ap (λ i. (task_at s.tasks i).priority) e in
    let le = all d near (rw e r) in
    (
      k,
      b,
      hk,
      rw b rk,
      rw b (omega (arith, le, here, p)),
      elim (dec_lt d k) [
        | yes earlier ↦ inl (rw b (omega (arith, before d earlier (rw e r), here, p)))
        | no later ↦ inr (omega arith)
      ],
    )

none_of :
    (s : Sched) (bestp : ℕ)
    → ((j : ℕ) → j < count s → is_ready (task_at s.tasks j).state ≡ false)
    → Best s (count s) (find_next_task s) bestp
    → find_next_task s ≡ s.current
none_of s bestp none_ready (nothing b p all) = b
none_of s bestp none_ready (found k hk b p _ rk before all) =
    cc (none_ready (candidate s k) (candidate-lt s k (omega arith)), rk)

lt_of :
    (s : Sched) (bestp : ℕ)
    → s.current < count s
    → Best s (count s) (find_next_task s) bestp
    → find_next_task s < count s
lt_of s bestp h (nothing b p all) = rw b h
lt_of s bestp h (found k hk b p _ rk before all) = rw b (candidate-lt s k (omega arith))

-- With `current` in range, and compared with any task `j` that is ready with a priority number
-- below 255, `find_next_task` returns one that is ready too and has
-- no greater priority number; and of an equal number, none that comes later in turn than `j`.
pub find_next-least :
    (s : Sched) (j : ℕ)
    → s.current < count s
    → j < count s
    → is_ready (task_at s.tasks j).state ≡ true
    → (task_at s.tasks j).priority < 0xFF
    → (k : ℕ) × (find_next_task s ≡ candidate s k)
      × (k < count s)
      × (is_ready (task_at s.tasks (find_next_task s)).state ≡ true)
      × ((task_at s.tasks (find_next_task s)).priority ≤ (task_at s.tasks j).priority)
      × (((task_at s.tasks (find_next_task s)).priority < (task_at s.tasks j).priority)
          ⊎ (k ≤ distance s j))
find_next-least s j hc hj r small =
    let (bestp, best) = find_next_task_lem s in
    let (e, near) = candidate-distance s j hc hj in
    least_of s j (distance s j) bestp near e r small best

-- Where no task is ready, `find_next_task` returns the current one.
pub find_next-none :
    (s : Sched)
    → ((j : ℕ) → j < count s → is_ready (task_at s.tasks j).state ≡ false)
    → find_next_task s ≡ s.current
find_next-none s none_ready =
    let (bestp, best) = find_next_task_lem s in none_of s bestp none_ready best

-- What is returned names a task.
pub find_next-lt : (s : Sched) → s.current < count s → find_next_task s < count s
find_next-lt s h = let (bestp, best) = find_next_task_lem s in lt_of s bestp h best
