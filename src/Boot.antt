-- ===== src/Boot.antt =====
-- src/main.c: the boot sequence, with the multi-task scheduler. What is written to the UART and its
-- registers are left out.
pub mod Start
mod Tests
use avrix.Kalloc
use avrix.Sched
use avrix.Sched.{Sched}
use avrix.Tty.{tty_init, Tty}
use avrix.Vfs
use avrix.Vfs.{vfs_init, Vfs}
use avrix.Base.{ℕ, Bool, true, some, List}

abbrev pub tty_buf_size : ℕ
tty_buf_size = 64

abbrev pub avrix_stack_size : ℕ
avrix_stack_size = 512

-- The states of the parts, and `kernel_booted`.
pub record Machine : Type 0 where
  pub heap : Kalloc.State
  pub vfs : Vfs
  pub sched : Sched
  pub console_tty : Tty
  pub kernel_booted : Bool

-- `tty_rx_buffer` and `tty_tx_buffer` are the buffers of the console.
unfoldable pub hardware_init : List ℕ → List ℕ → Machine → Machine
hardware_init tty_rx_buffer tty_tx_buffer s = record s {
  console_tty = tty_init tty_rx_buffer tty_tx_buffer tty_buf_size true true;
}

module _ (heap_size hdr align : ℕ) where
  unfoldable pub kernel_init : Machine → Machine
  kernel_init s = record s {
    heap = Kalloc.kalloc_init heap_size hdr align s.heap.mem;
    vfs = vfs_init;
    sched = Sched.scheduler_init;
    kernel_booted = true;
  }

  -- `main` up to `scheduler_run`: whether the main task was created, and the state. `main_task` and
  -- `main_task_stack` are addresses, and `main_task_tcb` is what was in the control block.
  module _ (context_init : ℕ → ℕ → ℕ → ℕ) (internal : ℕ → ℕ) (stack_size : ℕ) where
    unfoldable pub main_init : List ℕ → List ℕ → ℕ → ℕ → Sched.Tcb → Machine → Bool × Machine
    main_init tty_rx_buffer tty_tx_buffer main_task main_task_stack main_task_tcb s =
        let ready_machine = kernel_init (hardware_init tty_rx_buffer tty_tx_buffer s) in
        let (created, sched) =
          Sched.nk_task_create context_init internal stack_size (some main_task_tcb)
            (some main_task) 0 (some main_task_stack) avrix_stack_size ready_machine.sched in
        (created, record ready_machine { sched = sched })
