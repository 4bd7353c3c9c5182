-- ===== src/Posix/Tests.antt =====
-- Runs of lib/posix/pthread/pthread_once.c and lib/posix/unistd/sleep.c.
use avrix.Posix.Once.{fresh, steps, once_at_most, stepped, Reach}
use avrix.Posix.Sleeping.{sleep-total, total}
use avrix.Posix.{
  checked, entering, initializing, delay_us, sleep, returned, once_step, usleep, Phase,
}
use avrix.Base.{All, ℕ, ◌≤◌, ◌<◌, ◌≡◌, refl}

-- Thread 1 has started the initialization, and thread 2 returns while it runs.
abbrev at2 : ℕ → Phase
at2 = stepped (stepped (stepped (λ t. entering) 1 checked) 1 initializing) 2 returned

at2-Reach : Reach at2 1 1
unfolding once_step
at2-Reach = steps 2 (steps 1 (steps 1 fresh))

early_return : (at2 1 ≡ initializing) × (at2 2 ≡ returned)
early_return = (refl, refl)

abbrev calls_so_far : ℕ
calls_so_far = 1

once_at_most_example : (calls_so_far ≤ 1) × ((t : ℕ) → at2 t ≡ returned → calls_so_far ≡ 1)
once_at_most_example = once_at_most at2-Reach

sleep-total_example : (total (sleep 100) ≡ 100000) × All (λ ms. (0 < ms) × (ms ≤ 32000)) (sleep 100)
sleep-total_example = sleep-total 100

-- 65536 milliseconds wrap around to 0, and are waited for in the HAL.
usleep-wraps : usleep 65536000 ≡ delay_us 65536000
unfolding usleep
usleep-wraps = refl
