-- ===== src/Boot/Tests.antt =====
-- Runs of src/main.c.
use avrix.Tty.{tty_init}
use avrix.Sched.Fairness.{run_ticks}
use avrix.Vfs.{vfs_init}
use avrix.Boot.Start.{main_task_waits, booted}
use avrix.Kalloc
use avrix.Kalloc.{Block}
use avrix.Sched
use avrix.Sched.{ready, task_at, scheduler_run, Sched, Tcb, no_task}
use avrix.Boot.{tty_init, vfs_init, Machine}
use avrix.Base.{replicate, ℕ, ◌+◌, ◌-◌, ◌≡◌, Bool, false, none, some, List, []}

-- The state before `main`, and the parameters of an ATmega328P.
abbrev blank : ℕ → Block
blank a = record { next = none; size = 0 }

abbrev before : Machine
before = record {
  heap = Kalloc.kalloc_init 1136 4 2 blank;
  vfs = vfs_init;
  sched = Sched.scheduler_init;
  console_tty = tty_init [] [] 0 false false;
  kernel_booted = false;
}

abbrev buffer : List ℕ
buffer = replicate 64 0

abbrev started : Bool × Machine
started =
    booted 1136 4 2 (λ entry base len. base + len - 35) (λ n. 0) 64 3000 1024 no_task before buffer
      buffer

main_task_waits_example :
    (scheduler_run started.1.sched ≡ some started.1.sched)
    × ((s' : Sched) × (run_ticks 1000 started.1.sched ≡ some s')
        × (s'.current ≡ 0)
        × ((task_at s'.tasks 0).state ≡ ready))
main_task_waits_example =
    main_task_waits 1136 4 2 (λ entry base len. base + len - 35) (λ n. 0) 64 3000 1024 no_task
      before buffer buffer 1000
