-- ===== src/Posix/Once.antt =====
-- Threads that call `pthread_once` of lib/posix/pthread/pthread_once.c on one control variable.
use avrix.Posix.{initializing, spinning, checked, entering, returned, once_step, Phase}
use native.Mathlib.Decide.{ℕ_discrete}
use avrix.Base.{
  ◌==◌, if◌then◌else◌, ==_iff, ==-false_of_ne, if_true, if_false, ℕ, ◌≤◌, ◌≡◌, refl, sym, ap, ◌∙◌,
  Bool, true, false, arith,
}

abbrev pub stepped : (ℕ → Phase) → ℕ → Phase → ℕ → Phase
stepped at t p u = if t == u then p else at u

-- What steps of any threads, in any order, can reach from a control variable that is 0: the place
-- of each thread, `done`, and how often `init_routine` was called.
pub data Reach : (ℕ → Phase) → ℕ → ℕ → Type 0 where
  fresh : Reach (λ t. entering) 0 0
  steps :
      {at : ℕ → Phase} {done calls : ℕ} (t : ℕ)
      → Reach at done calls
      → Reach
          (stepped at t (once_step (at t) done calls).phase)
          (once_step (at t) done calls).done
          (once_step (at t) done calls).calls

-- Whether a thread at a place has gone past the test of `done`.
unfoldable pub is_past : Phase → Bool
is_past entering = false
is_past checked = false
is_past spinning = true
is_past initializing = true
is_past returned = true

record IsOnce (at : ℕ → Phase) (done calls : ℕ) : Type 0 where
  counted : calls ≡ done
  bit : done ≤ 1
  past : (t : ℕ) → is_past (at t) ≡ true → done ≡ 1

once_step-IsOnce :
    (p : Phase) (done calls : ℕ)
    → calls ≡ done
    → done ≤ 1
    → (is_past p ≡ true → done ≡ 1)
    → let o = once_step p done calls in
      (o.calls ≡ o.done) × (o.done ≤ 1) × (done ≤ o.done) × (is_past o.phase ≡ true → o.done ≡ 1)
unfolding once_step is_past
once_step-IsOnce entering done calls e bit past = ground arith
once_step-IsOnce checked done calls e bit past = ground arith
once_step-IsOnce spinning done calls e bit past = ground arith
once_step-IsOnce initializing done calls e bit past = (e, bit, omega arith, λ h. past refl)
once_step-IsOnce returned done calls e bit past = (e, bit, omega arith, λ h. past refl)

Reach-IsOnce : {at : ℕ → Phase} {done calls : ℕ} → Reach at done calls → IsOnce at done calls
unfolding is_past
Reach-IsOnce fresh = record {
  counted = refl;
  bit = omega arith;
  past = λ t h. absurd (ground arith);
}
Reach-IsOnce (steps {at = at} {done = done} {calls = calls} t r) =
    let x = Reach-IsOnce r in
    let (e, bit, grows, past) = once_step-IsOnce (at t) done calls x.counted x.bit (x.past t) in
    let o = once_step (at t) done calls in
    record {
      counted = e;
      bit = bit;
      past = λ u h. elim (ℕ_discrete t u) [
        | yes same ↦ past (ap is_past (sym (if_true o.phase (at u) ((==_iff t u).1 same))) ∙ h)
        | no ne ↦
            let before =
              x.past u (ap is_past (sym (if_false o.phase (at u) (==-false_of_ne t u ne))) ∙ h) in
            omega arith
      ];
    }

-- Whatever threads call `pthread_once` with one control variable, and in whatever order their steps
-- come, `init_routine` is called at most once, and exactly once as soon as a thread has returned.
pub once_at_most :
    {at : ℕ → Phase} {done calls : ℕ}
    → Reach at done calls
    → (calls ≤ 1) × ((t : ℕ) → at t ≡ returned → calls ≡ 1)
unfolding is_past
once_at_most {at = at} r =
    let x = Reach-IsOnce r in
    let bit = x.bit in
    let counted = x.counted in (omega arith, λ t h. counted ∙ x.past t (ap is_past h))
