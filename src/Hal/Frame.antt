-- ===== src/Hal/Frame.antt =====
-- The first frame that `hal_context_init` of arch/avr8/common/hal_avr8.c puts on a stack.
use avrix.Hal.{store, memset, hal_context_init}
use avrix.Base.{
  ltb, leb, ◌==◌, if◌then◌else◌, Bool-cases, u16, ℕ, zero, suc, ◌+◌, ◌-◌, ◌/◌, ◌%◌, ◌<◌, ◌≡◌, refl,
  ◌∙◌, inl, inr, true, ◌&&◌, ◌||◌, none, some, arith,
}

memset_lem :
    (n a x : ℕ) (m : ℕ → ℕ) (b : ℕ)
    → memset a x n m b ≡ (if leb a b && ltb b (a + n) then x else m b)
unfolding memset
memset_lem zero a x m b = ground arith
memset_lem (suc n) a x m b = memset_lem n (a + 1) x (store a x m) b ∙ ground arith

-- The frame below `top` by its addresses: the entry point, its high byte below its low byte, the
-- status register with interrupts enabled, and 32 registers that are 0; elsewhere `old`.
abbrev pub frame_byte : ℕ → ℕ → ℕ → ℕ → ℕ
frame_byte entry top b old =
    if b == top - 1
    then entry % 256
    else if b == top - 2
    then entry / 256 % 256
    else if b == top - 3
    then 0x80
    else if leb (top - 35) b && ltb b (top - 3)
    then 0
    else old

-- With a context, an entry point and a stack of 64 bytes or more, the stack pointer is set to the
-- lowest byte of the frame, 35 bytes below the top, the frame is in place and inside the stack, and
-- no other byte changes; with a smaller stack nothing happens. The stack ends below 2 ^ 16.
pub hal_context_init_lem :
    (entry stack stack_size : ℕ) (m : ℕ → ℕ)
    → stack + stack_size < 65536
    → let top = stack + stack_size in
      let (sp, m') = hal_context_init true (some entry) (some stack) stack_size m in
      (sp ≡ (if ltb stack_size 64 then none else some (top - 35)))
      × ((b : ℕ)
          → m' b ≡ (if ltb stack_size 64 || ltb b stack then m b else frame_byte entry top b (m b)))
unfolding hal_context_init
hal_context_init_lem entry stack stack_size m h = elim (Bool-cases (ltb stack_size 64)) [
  | inl short ↦ rw short (refl, λ b. refl)
  | inr long ↦
      let at : u16 (stack + stack_size - 3 - 32) ≡ stack + stack_size - 35 = ground arith in
      rw long (rw at refl, λ b. memset_lem 32 (stack + stack_size - 3 - 32) 0 _ b ∙ ground arith)
]
