-- ===== src/Posix/Sleeping.antt =====
-- How long lib/posix/unistd/sleep.c sleeps.
use avrix.Posix.{sleep, sleep_loop}
use avrix.Base.{
  ltb, ◌==◌, Bool-cases, All, ℕ, zero, suc, ◌+◌, ◌-◌, ◌*◌, ◌≤◌, ◌<◌, ◌≡◌, refl, inl, inr, false,
  List, [], ◌∷◌, arith,
}

unfoldable pub total : List ℕ → ℕ
total [] = 0
total (ms ∷ rest) = ms + total rest

sleep_loop-total :
    (fuel seconds : ℕ)
    → seconds ≤ fuel
    → 0 < seconds
    → (total (sleep_loop fuel seconds) ≡ seconds * 1000)
      × All (λ ms. (0 < ms) × (ms ≤ 32000)) (sleep_loop fuel seconds)
unfolding sleep_loop total
sleep_loop-total zero seconds h some_time = absurd (omega arith)
sleep_loop-total (suc fuel) seconds h some_time = elim (Bool-cases (ltb 32 seconds)) [
  | inl long ↦
      let more : 32 < seconds = ground arith in
      let (sum, small) = sleep_loop-total fuel (seconds - 32) (omega arith) (omega arith) in
      rw long (omega arith, (omega arith, small))
  | inr short ↦ let less : seconds ≤ 32 = ground arith in rw short (omega arith, (omega arith, tt))
]

-- `sleep` asks the scheduler for as many milliseconds in all as it is given seconds, a thousand
-- each, in parts that are not 0 and fit in the sixteen bits of `nk_sleep`, 32000 at most.
pub sleep-total :
    (seconds : ℕ)
    → (total (sleep seconds) ≡ seconds * 1000) × All (λ ms. (0 < ms) × (ms ≤ 32000)) (sleep seconds)
unfolding sleep total
sleep-total zero = (refl, tt)
sleep-total (suc n) =
    let later : suc n == 0 ≡ false = ground arith in
    rw later (sleep_loop-total (suc n) (suc n) (omega arith) (omega arith))
