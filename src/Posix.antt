-- ===== src/Posix.antt =====
-- lib/posix/pthread/pthread_once.c and lib/posix/unistd/sleep.c: one-time initialization by several
-- threads, and sleeping. The tests for `NULL` pointers of `pthread_once` are left out.
pub mod Once
pub mod Sleeping
mod Tests
use avrix.Base.{ltb, ◌==◌, if◌then◌else◌, u16, u32, ℕ, zero, suc, ◌+◌, ◌-◌, ◌*◌, ◌/◌, List, [], ◌∷◌}

-- `pthread_once`: where a thread is in it, before and after the test of `done`, in the spin loop,
-- in `init_routine`, and after the call.
pub data Phase : Type 0 where
  entering checked spinning initializing returned : Phase

-- A step of one thread: its place, `once_control->done`, and how often `init_routine` was called.
pub record OnceStep : Type 0 where
  pub phase : Phase
  pub done : ℕ
  pub calls : ℕ

abbrev once : Phase → ℕ → ℕ → OnceStep
once p done calls = record { phase = p; done = done; calls = calls }

-- The next access of a thread to `done`; a compare-and-swap is one step.
unfoldable pub once_step : Phase → ℕ → ℕ → OnceStep
once_step entering done calls =
    if done == 0 then once checked done calls else once returned done calls
once_step checked done calls =
    if done == 0 then once initializing 1 (calls + 1) else once spinning done calls
once_step spinning done calls =
    if done == 0 then once spinning done calls else once returned done calls
once_step initializing done calls = once returned done calls
once_step returned done calls = once returned done calls

-- The loop of `sleep`, on fuel: the arguments of its calls of `nk_sleep`, in order.
unfoldable pub sleep_loop : ℕ → ℕ → List ℕ
sleep_loop zero seconds = []
sleep_loop (suc fuel) seconds =
    let rest = sleep_loop fuel (seconds - 32) in
    if ltb 32 seconds then 32000 ∷ rest else u16 (seconds * 1000) ∷ []

-- Each round but the last takes 32 seconds, so their number is fuel enough.
unfoldable pub sleep : ℕ → List ℕ
sleep seconds = if seconds == 0 then [] else sleep_loop seconds seconds

-- What `usleep` calls: nothing, the delay of the HAL, or `nk_sleep`. An `unsigned int` has 32 bits.
pub data Delay : Type 0 where
  no_delay : Delay
  delay_us nk_sleep_ms : (n : ℕ) → Delay

unfoldable pub usleep : ℕ → Delay
usleep usec =
    let ms = u16 (u32 (usec + 999) / 1000) in
    if usec == 0 then no_delay else if ms == 0 then delay_us usec else nk_sleep_ms ms
