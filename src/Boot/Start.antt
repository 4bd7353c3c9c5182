-- ===== src/Boot/Start.antt =====
-- What src/main.c has set up when it starts the scheduler, and what the scheduler does then.
use avrix.Vfs.Run.{init-IsVfs}
use avrix.Tty.Init.{tty_init_lem}
use avrix.Tty.Write.{tx_queue, IsTx}
use avrix.Tty.Read.{rx_queue, IsRx}
use avrix.Vfs.Positions.{IsVfs}
use avrix.Sched.Fairness.{run_ticks}
use avrix.Kalloc.Alloc.{kalloc_init-Holds, Holds}
use avrix.Sched
use avrix.Sched.{
  count, intact, nk_quantum_ms, is_sleeping, task_at, update_timer, switch_to, update_sleep_timers,
  hal_timer_tick_handler, scheduler_run, is_ready, ready, StackGuard, find_next_task, Sched, Tcb,
}
use avrix.Boot.{hardware_init, kernel_init, main_init, avrix_stack_size, Machine}
use avrix.Base.{
  ◌==◌, Bool-cases, length, replicate, u8, ℕ, zero, suc, ◌+◌, ◌-◌, ◌≤◌, ◌≡◌, refl, inl, inr, Bool,
  true, some, List, [], ◌∷◌, arith,
}

-- A scheduler with one task, which is ready, not running, and the current one.
abbrev pub only_ready : Tcb → ℕ → List StackGuard → Sched
only_ready t quantum stacks = record {
  tasks = (record t { state = ready; priority = 0 }) ∷ [];
  current = 0;
  quantum = quantum;
  stacks = stacks;
}

find_only :
    (t : Tcb) (quantum : ℕ) (stacks : List StackGuard)
    → find_next_task (only_ready t quantum stacks) ≡ 0
unfolding find_next_task Sched.search_loop is_ready
find_only t quantum stacks = refl

tick_only :
    (t : Tcb) (quantum : ℕ) (stacks : List StackGuard)
    → (quantum' : ℕ) × (hal_timer_tick_handler (only_ready t quantum stacks)
        ≡ some (only_ready t quantum' stacks))
unfolding hal_timer_tick_handler update_sleep_timers update_timer is_sleeping
tick_only t quantum stacks = elim (Bool-cases (u8 (quantum + 256 - 1) == 0)) [
  | inl expired ↦ (nk_quantum_ms, rw (expired, find_only t nk_quantum_ms stacks) refl)
  | inr left ↦ (u8 (quantum + 256 - 1), rw left refl)
]

ticks_only :
    (k : ℕ) (t : Tcb) (quantum : ℕ) (stacks : List StackGuard)
    → (quantum' : ℕ) × (run_ticks k (only_ready t quantum stacks)
        ≡ some (only_ready t quantum' stacks))
unfolding run_ticks
ticks_only zero t quantum stacks = (quantum, refl)
ticks_only (suc k) t quantum stacks =
    let (q, e) = tick_only t quantum stacks in
    let (q', run) = ticks_only k t q stacks in (q', rw (e, run_ticks) run)

module _ (heap_size hdr align : ℕ) (context_init : ℕ → ℕ → ℕ → ℕ) (internal : ℕ → ℕ)
    (stack_size main_task main_task_stack : ℕ) (main_task_tcb : Tcb) (s : Machine)
    (tty_rx_buffer tty_tx_buffer : List ℕ) where
  -- What `main` has made before it calls `scheduler_run`.
  abbrev pub booted : Bool × Machine
  booted =
      main_init heap_size hdr align context_init internal stack_size tty_rx_buffer tty_tx_buffer
        main_task main_task_stack main_task_tcb s

  the_task : Tcb
  the_task = record {
    sp = context_init main_task main_task_stack avrix_stack_size;
    state = ready;
    priority = 0;
    pid = 0;
    sleep_ticks = 0;
  }

  booted_sched : booted.1.sched ≡ only_ready the_task nk_quantum_ms (replicate 8 intact)
  unfolding main_init kernel_init hardware_init Sched.nk_task_create Sched.scheduler_init the_task
  booted_sched = refl

  -- When `main` starts the scheduler, the heap is in order with no block in use, no descriptor is
  -- open and all are in order, the console's rings are valid and empty, and the main task is
  -- created, if the console's buffers have 64 bytes each.
  pub main_init_lem :
      64 ≤ length tty_rx_buffer
      → 64 ≤ length tty_tx_buffer
      → let (created, m) = booted in
        (created ≡ true)
        × (m.kernel_booted ≡ true)
        × Holds heap_size hdr m.heap []
        × IsVfs m.vfs
        × IsRx m.console_tty
        × IsTx m.console_tty
        × (rx_queue m.console_tty ≡ [])
        × (tx_queue m.console_tty ≡ [])
        × (Sched.count m.sched ≡ 1)
  unfolding main_init kernel_init hardware_init Sched.nk_task_create Sched.scheduler_init
  main_init_lem rx tx =
      let (is_rx, is_tx, no_rx, no_tx, _) =
        tty_init_lem tty_rx_buffer tty_tx_buffer 6 true true (omega arith) (omega arith)
          (omega arith) in
      (
        refl,
        refl,
        kalloc_init-Holds heap_size hdr align s.heap.mem,
        init-IsVfs,
        is_rx,
        is_tx,
        no_rx,
        no_tx,
        refl,
      )

  -- The main task that `main` creates never runs: `scheduler_run` leaves the scheduler as it is, and
  -- after any number of timer interrupts the task is still the current one and ready, not running.
  pub main_task_waits :
      (k : ℕ)
      → (scheduler_run booted.1.sched ≡ some booted.1.sched)
        × ((s' : Sched) × (run_ticks k booted.1.sched ≡ some s')
            × (s'.current ≡ 0)
            × ((task_at s'.tasks 0).state ≡ ready))
  unfolding scheduler_run switch_to
  main_task_waits k =
      let (q, run) = ticks_only k the_task nk_quantum_ms (replicate 8 intact) in
      rw booted_sched (
        rw (find_only the_task nk_quantum_ms (replicate 8 intact)) refl,
        (only_ready the_task q (replicate 8 intact), run, refl, refl),
      )
