-- ===== src/Hal/Tests.antt =====
-- Runs of arch/avr8/common/hal_avr8.c.
use avrix.Hal.Frame.{hal_context_init_lem, frame_byte}
use avrix.Eepfs.Memory.{read_at}
use avrix.Hal.{unknown, hal_reset_reason, cut_length, hal_init, hal_context_init, AvrLibc, Hal}
use avrix.Base.{
  ltb, leb, if◌then◌else◌, length, get_or, ℕ, ◌+◌, ◌-◌, ◌*◌, ◌/◌, ◌%◌, ◌≡◌, refl, true, ◌&&◌, ◌||◌,
  none, some, List, [], ◌∷◌, arith,
}

-- After `hal_init` the reason of the reset is in a variable that nothing reads, and
-- `hal_reset_reason` finds none in the register.
reason_lost :
    (s : Hal)
    → (hal_reset_reason (hal_init s) ≡ unknown)
      × ((hal_init s).hal_last_reset_reason ≡ hal_reset_reason s)
unfolding hal_init hal_reset_reason
reason_lost s = (refl, refl)

hal_context_init_lem_example :
    ((hal_context_init true (some 513) (some 1000) 128 (λ b. 7)).0
      ≡ (if ltb 128 64 then none else some 1093))
    × ((b : ℕ)
        → (hal_context_init true (some 513) (some 1000) 128 (λ b. 7)).1 b
          ≡ (if ltb 128 64 || ltb b 1000 then 7 else frame_byte 513 1128 b 7))
hal_context_init_lem_example = hal_context_init_lem 513 1000 128 (λ b. 7) (omega arith)

-- An avr-libc on an EEPROM with a byte for each address.
abbrev update_block : ℕ → List ℕ → (ℕ → ℕ) → ℕ → ℕ
update_block a xs m c = if leb a c && ltb c (a + length xs) then get_or xs (c - a) 0 else m c

abbrev libc : AvrLibc (ℕ → ℕ)
libc = record {
  read_byte = λ a m. m a;
  read_word = λ a m. m a + m (a + 1) * 256;
  read_dword = λ a m. m a + m (a + 1) * 256 + m (a + 2) * 65536 + m (a + 3) * 16777216;
  read_block = read_at;
  write_byte = λ a v. update_block a (v ∷ []);
  write_word = λ a v. update_block a ((v % 256) ∷ (v / 256) ∷ []);
  write_dword =
      λ a v. update_block a ((v % 256) ∷ (v / 256 % 256) ∷ (v / 65536 % 256) ∷ (v / 16777216) ∷ []);
  write_block = update_block;
  update_byte = λ a v. update_block a (v ∷ []);
  update_word = λ a v. update_block a ((v % 256) ∷ (v / 256) ∷ []);
  update_dword =
      λ a v. update_block a ((v % 256) ∷ (v / 256 % 256) ∷ (v / 65536 % 256) ∷ (v / 16777216) ∷ []);
  update_block = update_block;
}

abbrev full : ℕ → ℕ
full b = 255

-- Past its end a block is not cut, but made longer.
past_the_end : cut_length 1024 2000 4 ≡ 64560
unfolding cut_length
past_the_end = refl
