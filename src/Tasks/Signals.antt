-- ===== src/Tasks/Signals.antt =====
-- Tasks of src/task.c that wait for others: `nk_task_wait` and `nk_task_signal`.
use avrix.Sched.{running, is_running}
use avrix.Tasks.{
  check_canaries, switch_to, nk_task_wait, atomic_schedule, find_next_task, blocked_on, no_tcb,
  with_state, blocked, put_tcb, ready, Tcb, is_blocked, tcb_at, nk_task_signal, Tasks,
}
use avrix.Base.{
  leb, ◌==◌, Bool-cases, length, length-set, get_or-set_self, get_or-set_ne, ℕ, zero, suc, ◌-◌, ◌≤◌,
  ◌<◌, ◌≡◌, refl, ap, ◌∙◌, ◌≢◌, inl, inr, true, false, ◌&&◌, some, arith,
}

-- So many signals to one task, one after the other.
unfoldable pub signals : ℕ → ℕ → Tasks → Tasks
signals zero tid s = s
signals (suc n) tid s = signals n tid (nk_task_signal tid s)

-- A task that waits, for `n` signals, in a state.
pub record Waits (s : Tasks) (tid n : ℕ) : Type 0 where
  pub inside : tid < length s.tasks
  pub is_waiting : (tcb_at s tid).state ≡ blocked
  pub missing : (tcb_at s tid).deps ≡ n

tcb_at-put_tcb : (s : Tasks) (i : ℕ) (t : Tcb) → i < length s.tasks → tcb_at (put_tcb i t s) i ≡ t
tcb_at-put_tcb s i t h = get_or-set_self s.tasks i t no_tcb h

-- One signal of several that are missing.
signal-Waits :
    (s : Tasks) (tid n : ℕ) → Waits s tid (suc (suc n)) → Waits (nk_task_signal tid s) tid (suc n)
unfolding nk_task_signal
signal-Waits s tid n w =
    let t = tcb_at s tid in
    let deps = w.missing in
    let here : leb (length s.tasks) tid ≡ false = let h = w.inside in ground arith in
    let some_deps : t.deps == 0 ≡ false = ground arith in
    let not_last : t.deps - 1 == 0 && is_blocked t.state ≡ false = ground arith in
    let e = tcb_at-put_tcb s tid (record t { deps = t.deps - 1 }) w.inside in
    rw here (
      rw some_deps (
        rw not_last (record {
          inside = rw (length-set s.tasks tid (record t { deps = t.deps - 1 })) w.inside;
          is_waiting = ap (λ (x : Tcb). x.state) e ∙ w.is_waiting;
          missing = ap (λ (x : Tcb). x.deps) e ∙ (let d : t.deps - 1 ≡ suc n = omega arith in d);
        })))

-- The last signal that is missing.
signal-last :
    (s : Tasks) (tid : ℕ)
    → Waits s tid 1
    → ((tcb_at (nk_task_signal tid s) tid).state ≡ ready)
      × ((tcb_at (nk_task_signal tid s) tid).deps ≡ 0)
unfolding nk_task_signal is_blocked
signal-last s tid w =
    let t = tcb_at s tid in
    let deps = w.missing in
    let here : leb (length s.tasks) tid ≡ false = let h = w.inside in ground arith in
    let some_deps : t.deps == 0 ≡ false = ground arith in
    let last : t.deps - 1 == 0 ≡ true = ground arith in
    let e = tcb_at-put_tcb s tid (with_state ready (record t { deps = t.deps - 1 })) w.inside in
    rw here (
      rw some_deps (
        rw last (
          rw (w.is_waiting) (
            ap (λ (x : Tcb). x.state) e,
            ap (λ (x : Tcb). x.deps) e ∙ (let d : t.deps - 1 ≡ 0 = omega arith in d),
          ))))

-- A task that waits for some signals is blocked after each of them but the last, and ready after
-- that one: `k` are there of the `n + 1`.
pub signals-Waits :
    (n k tid : ℕ) (s : Tasks)
    → Waits s tid (suc n)
    → k ≤ n
    → ((tcb_at (signals k tid s) tid).state ≡ blocked)
      × ((tcb_at (signals (suc n) tid s) tid).state ≡ ready)
unfolding signals
signals-Waits zero zero tid s w h = (w.is_waiting, (signal-last s tid w).0)
signals-Waits zero (suc k) tid s w h = absurd (omega arith)
signals-Waits (suc n) zero tid s w h = (
  w.is_waiting,
  (signals-Waits n zero tid (nk_task_signal tid s) (signal-Waits s tid n w) (omega arith)).1,
)
signals-Waits (suc n) (suc k) tid s w h =
    signals-Waits n k tid (nk_task_signal tid s) (signal-Waits s tid n w) (omega arith)

blocked_on-Waits :
    (s : Tasks) (deps : ℕ) → s.current < length s.tasks → Waits (blocked_on deps s) s.current deps
unfolding blocked_on
blocked_on-Waits s deps h =
    let t : Tcb = record (tcb_at s s.current) { state = blocked; deps = deps } in
    let e = tcb_at-put_tcb s s.current t h in
    record {
      inside = rw (length-set s.tasks s.current t) h;
      is_waiting = ap (λ (x : Tcb). x.state) e;
      missing = ap (λ (x : Tcb). x.deps) e;
    }

tcb_at-put_tcb_ne : (s : Tasks) (i j : ℕ) (t : Tcb) → i ≢ j → tcb_at (put_tcb i t s) j ≡ tcb_at s j
tcb_at-put_tcb_ne s i j t ne = get_or-set_ne s.tasks i j t no_tcb ne

-- A switch away from a task that waits leaves it waiting, and ends where its canaries are intact.
switch_to-Waits :
    (next n : ℕ) (s : Tasks)
    → check_canaries s ≡ true
    → Waits s s.current n
    → (s' : Tasks) × (switch_to next s ≡ some s') × Waits s' s.current n
unfolding switch_to is_running
switch_to-Waits next n s intact w =
    let entered = put_tcb next (with_state running (tcb_at s next)) s in
    let st = w.is_waiting in
    elim (Bool-cases (next == s.current)) [
      | inl same ↦ rw same (s, refl, w)
      | inr other ↦
          let ne : next ≢ s.current = λ e. absurd (ground arith) in
          let kept = tcb_at-put_tcb_ne s next s.current (with_state running (tcb_at s next)) ne in
          rw other (
            rw intact (
              rw st (
                record entered { current = next },
                refl,
                record {
                  inside =
                      rw (length-set s.tasks next (with_state running (tcb_at s next))) w.inside;
                  is_waiting = ap (λ (x : Tcb). x.state) kept ∙ w.is_waiting;
                  missing = ap (λ (x : Tcb). x.deps) kept ∙ w.missing;
                },
              )))
    ]

-- A task that calls `nk_task_wait` for `n + 1` dependencies, a byte, is blocked when the scheduler
-- has gone on to the next task: it stays so through `n` calls of `nk_task_signal` for it, and the
-- next call makes it ready. The task is registered, and the canaries of its stack are intact.
pub wait-signals :
    (n k : ℕ) (s : Tasks)
    → n < 255
    → s.current < length s.tasks
    → check_canaries s ≡ true
    → k ≤ n
    → (s' : Tasks) × (nk_task_wait (suc n) s ≡ some s')
      × ((tcb_at (signals k s.current s') s.current).state ≡ blocked)
      × ((tcb_at (signals (suc n) s.current s') s.current).state ≡ ready)
unfolding nk_task_wait atomic_schedule blocked_on check_canaries
wait-signals n k s byte h intact le =
    let blocked_s = blocked_on (suc n) s in
    let (s', e, w) =
      switch_to-Waits (find_next_task blocked_s) (suc n) blocked_s intact
        (blocked_on-Waits s (suc n) h) in
    let (waits, wakes) = signals-Waits n k s.current s' w le in (s', e, waits, wakes)

signal-none : (s : Tasks) (tid : ℕ) → Waits s tid 0 → nk_task_signal tid s ≡ s
unfolding nk_task_signal
signal-none s tid w =
    let here : leb (length s.tasks) tid ≡ false = let h = w.inside in ground arith in
    rw here (rw (w.missing) refl)

-- A task with what `nk_task_wait` stores for no dependency is never woken: signals for it change
-- nothing, and it stays blocked. The task that waits is registered.
pub wait_none :
    (n : ℕ) (s : Tasks)
    → s.current < length s.tasks
    → let waiting = blocked_on 0 s in
      (signals n s.current waiting ≡ waiting) × ((tcb_at waiting s.current).state ≡ blocked)
unfolding signals
wait_none zero s h = (refl, (blocked_on-Waits s 0 h).is_waiting)
wait_none (suc n) s h =
    let w = blocked_on-Waits s 0 h in
    let e = signal-none (blocked_on 0 s) s.current w in
    (ap (signals n s.current) e ∙ (wait_none n s h).0, w.is_waiting)
