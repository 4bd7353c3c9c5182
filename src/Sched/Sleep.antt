-- ===== src/Sched/Sleep.antt =====
-- Sleeping in kernel/sched/scheduler.c: `update_sleep_timers` counts, and `nk_sleep` suspends.
use avrix.Base.{
  ltb, if◌then◌else◌, ==_refl, if_true, set, length-set, ℕ, zero, suc, ◌-◌, ◌<◌, ◌≡◌, refl, ap, ◌∙◌,
  ◌≢◌, false, some, arith,
}
use avrix.Sched.{
  ready, sleeping, is_ready, is_sleeping, Tcb, Sched, count, task_at, update_timer,
  update_sleep_timers, find_next_task, nk_sleep, atomic_schedule,
}
use avrix.Sched.Next.{find_next-none}
use avrix.Sched.Invariant.{switch_to_same, task_at-set}
use avrix.Sched.Steps.{task_at-map, length-map}

-- `k` calls of `update_sleep_timers`.
abbrev pub timers : ℕ → Sched → Sched
timers zero s = s
timers (suc k) s = update_sleep_timers (timers k s)

count-timers : (k : ℕ) (s : Sched) → count (timers k s) ≡ count s
unfolding update_sleep_timers
count-timers zero s = refl
count-timers (suc k) s = length-map update_timer (timers k s).tasks ∙ count-timers k s

task_at-timers :
    (k : ℕ) (s : Sched) (j : ℕ)
    → j < count s
    → task_at (timers (suc k) s).tasks j ≡ update_timer (task_at (timers k s).tasks j)
unfolding update_sleep_timers
task_at-timers k s j h = task_at-map update_timer (timers k s).tasks j (rw (count-timers k s) h)

-- One call on a task that sleeps for `n` more ticks, or has been woken.
update_timer_step :
    (t : Tcb) (k ms : ℕ)
    → t.state ≡ (if ltb k ms then sleeping else ready)
    → t.sleep_ticks ≡ ms - k
    → ((update_timer t).state ≡ (if ltb (suc k) ms then sleeping else ready))
      × ((update_timer t).sleep_ticks ≡ ms - suc k)
unfolding update_timer is_sleeping
update_timer_step t k ms e n = ground arith

-- A task that sleeps with `ms` ticks to go, `ms` not 0, still sleeps after fewer calls of
-- `update_sleep_timers`, with as many ticks less to go, and is ready after `ms` calls or more.
pub timers_wake :
    (k : ℕ) (s : Sched) (j ms : ℕ)
    → j < count s
    → (task_at s.tasks j).state ≡ sleeping
    → (task_at s.tasks j).sleep_ticks ≡ ms
    → 0 < ms
    → ((task_at (timers k s).tasks j).state ≡ (if ltb k ms then sleeping else ready))
      × ((task_at (timers k s).tasks j).sleep_ticks ≡ ms - k)
timers_wake zero s j ms h asleep left pos = ground arith
timers_wake (suc k) s j ms h asleep left pos =
    let (state, ticks) = timers_wake k s j ms h asleep left pos in
    rw (task_at-timers k s j h) (update_timer_step (task_at (timers k s).tasks j) k ms state ticks)

update_timer-zero : (t : Tcb) → t.sleep_ticks ≡ 0 → update_timer t ≡ t
unfolding update_timer
update_timer-zero t e = ground arith

-- A task that sleeps with 0 ticks to go, as after `nk_sleep(0)`, is never woken: no number of calls
-- of `update_sleep_timers` changes it.
pub timers_never :
    (k : ℕ) (s : Sched) (j : ℕ)
    → j < count s
    → (task_at s.tasks j).sleep_ticks ≡ 0
    → task_at (timers k s).tasks j ≡ task_at s.tasks j
timers_never zero s j h left = refl
timers_never (suc k) s j h left =
    let same = timers_never k s j h left in
    task_at-timers k s j h ∙ ap update_timer same ∙ update_timer-zero (task_at s.tasks j) left

-- Where no other task is ready, `nk_sleep` switches to no other task: it returns at once, with the
-- caller still current, although it is marked as sleeping.
pub nk_sleep_alone :
    (s : Sched) (ms : ℕ)
    → s.current < count s
    → ((j : ℕ) → j < count s → j ≢ s.current → is_ready (task_at s.tasks j).state ≡ false)
    → (s' : Sched) × (nk_sleep ms s ≡ some s')
      × (s'.current ≡ s.current)
      × ((task_at s'.tasks s.current).state ≡ sleeping)
      × ((task_at s'.tasks s.current).sleep_ticks ≡ ms)
unfolding nk_sleep atomic_schedule is_ready
nk_sleep_alone s ms h others =
    let t = record (task_at s.tasks s.current) { state = sleeping; sleep_ticks = ms } in
    let s₁ = record s { tasks = set s.tasks s.current t } in
    let at = λ (j : ℕ). task_at-set s.tasks s.current j t h in
    let idle : find_next_task s₁ ≡ s.current = find_next-none s₁ λ j hj.
      let hj' : j < count s = rw (length-set s.tasks s.current t) at hj in
      ground (arith, at j, others j hj') in
    let mine = at s.current ∙ if_true _ _ (==_refl s.current) in
    (
      s₁,
      switch_to_same (find_next_task s₁) s₁ idle,
      refl,
      ap (λ u. Tcb.state u) mine,
      ap (λ u. Tcb.sleep_ticks u) mine,
    )
