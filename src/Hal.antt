-- ===== src/Hal.antt =====
-- arch/avr8/common/hal_avr8.c: the platform functions of the AVR, where `int`, `size_t` and pointers
-- have 16 bits. Registers are fields of a state; the EEPROM functions of avr-libc are an interface.
pub mod Eeprom
pub mod Frame
mod Tests
use avrix.Base.{
  ltb, leb, ◌==◌, if◌then◌else◌, length, take, u16, u32, ℕ, zero, suc, ◌+◌, ◌-◌, ◌*◌, ◌/◌, ◌%◌, ◌^◌,
  Bool, true, not, ◌||◌, Option, none, some, List, [], ◌∷◌,
}

-- `hal_reset_reason_t`
pub data ResetReason : Type 0 where
  unknown power_on external watchdog software brownout : ResetReason

-- `MCUSR`, `WDTCSR`, the interrupt flag, and the static variables.
pub record Hal : Type 0 where
  pub mcusr : ℕ
  pub wdtcsr : ℕ
  pub irq_enabled : Bool
  pub hal_tick_count : ℕ
  pub hal_last_reset_reason : ResetReason

-- `mcusr & _BV(bit)`
abbrev pub has_bit : ℕ → ℕ → Bool
has_bit flags bit = flags / 2 ^ bit % 2 == 1

-- `PORF`, `EXTRF`, `BORF` and `WDRF` are bits 0, 1, 2 and 3.
unfoldable pub hal_reset_reason : Hal → ResetReason
hal_reset_reason s =
    if has_bit s.mcusr 0
    then power_on
    else if has_bit s.mcusr 1
    then external
    else if has_bit s.mcusr 2
    then brownout
    else if has_bit s.mcusr 3
    then watchdog
    else unknown

unfoldable pub hal_init : Hal → Hal
hal_init s = record s {
  hal_last_reset_reason = hal_reset_reason s;
  mcusr = 0;
  wdtcsr = 0;
  hal_tick_count = 0;
}

-- The weak handler, which a kernel may replace.
unfoldable pub hal_timer_tick_handler : Hal → Hal
hal_timer_tick_handler s = record s { hal_tick_count = u32 (s.hal_tick_count + 1) }

-- `hal_irq_disable`, the copy, and `hal_irq_enable`.
unfoldable pub hal_timer_ticks : Hal → ℕ × Hal
hal_timer_ticks s = (s.hal_tick_count, record s { irq_enabled = true })

-- The rounds of the delay loop for a clock of `mhz` million cycles a second.
unfoldable pub hal_timer_delay_us : ℕ → ℕ → ℕ
hal_timer_delay_us mhz us = u32 (us * mhz) / 4

-- The rounds of the calls of `hal_timer_delay_us`, in order.
unfoldable pub hal_timer_delay_ms : ℕ → ℕ → List ℕ
hal_timer_delay_ms mhz zero = []
hal_timer_delay_ms mhz (suc ms) = hal_timer_delay_us mhz 1000 ∷ hal_timer_delay_ms mhz ms

-- Memory by its addresses, and a write of one byte.
abbrev pub store : ℕ → ℕ → (ℕ → ℕ) → ℕ → ℕ
store a x m b = if b == a then x else m b

-- `memset` of `n` bytes.
unfoldable pub memset : ℕ → ℕ → ℕ → (ℕ → ℕ) → ℕ → ℕ
memset a x zero m = m
memset a x (suc n) m = memset (a + 1) x n (store a x m)

-- `hal_context_init`: the stack pointer stored in the context and the memory after it. A pointer is
-- an option; a frame that fits is taken not to reach address 0.
unfoldable pub hal_context_init : Bool → Option ℕ → Option ℕ → ℕ → (ℕ → ℕ) → Option ℕ × (ℕ → ℕ)
hal_context_init has_ctx none stack stack_size m = (none, m)
hal_context_init has_ctx (some entry) none stack_size m = (none, m)
hal_context_init has_ctx (some entry) (some stack) stack_size m =
    let top = stack + stack_size in
    let with_pcl = store (top - 1) (entry % 256) m in
    let with_pch = store (top - 2) (entry / 256 % 256) with_pcl in
    let with_sreg = store (top - 3) 0x80 with_pch in
    if not has_ctx || ltb stack_size 64
    then (none, m)
    else (some (u16 (top - 3 - 32)), memset (top - 3 - 32) 0 32 with_sreg)

-- The EEPROM functions of avr-libc, on contents of type `M`.
pub record AvrLibc (M : Type 0) : Type 0 where
  pub read_byte : ℕ → M → ℕ
  pub read_word : ℕ → M → ℕ
  pub read_dword : ℕ → M → ℕ
  pub read_block : ℕ → ℕ → M → List ℕ
  pub write_byte : ℕ → ℕ → M → M
  pub write_word : ℕ → ℕ → M → M
  pub write_dword : ℕ → ℕ → M → M
  pub write_block : ℕ → List ℕ → M → M
  pub update_byte : ℕ → ℕ → M → M
  pub update_word : ℕ → ℕ → M → M
  pub update_dword : ℕ → ℕ → M → M
  pub update_block : ℕ → List ℕ → M → M

-- `eeprom_size` is `HAL_EEPROM_SIZE`, an `unsigned long`; a sum of an address and a length has 16
-- bits.
-- The length that a block is cut to.
unfoldable pub cut_length : ℕ → ℕ → ℕ → ℕ
cut_length eeprom_size addr len =
    if ltb eeprom_size (u16 (addr + len)) then u16 (eeprom_size + 65536 - addr) else len

-- `buf` holds `length buf` bytes.
module _ {M : Type 0} (libc : AvrLibc M) (eeprom_size : ℕ) where
  unfoldable pub hal_eeprom_read_byte : ℕ → M → ℕ
  hal_eeprom_read_byte addr m = if leb eeprom_size addr then 0xFF else libc.read_byte addr m

  unfoldable pub hal_eeprom_read_word : ℕ → M → ℕ
  hal_eeprom_read_word addr m =
      if leb eeprom_size (u16 (addr + 1)) then 0xFFFF else libc.read_word addr m

  unfoldable pub hal_eeprom_read_dword : ℕ → M → ℕ
  hal_eeprom_read_dword addr m =
      if leb eeprom_size (u16 (addr + 3)) then 0xFFFFFFFF else libc.read_dword addr m

  unfoldable pub hal_eeprom_read_block : ℕ → ℕ → M → List ℕ
  hal_eeprom_read_block addr len m = libc.read_block addr (cut_length eeprom_size addr len) m

  unfoldable pub hal_eeprom_write_byte : ℕ → ℕ → M → M
  hal_eeprom_write_byte addr val m = if ltb addr eeprom_size then libc.write_byte addr val m else m

  unfoldable pub hal_eeprom_write_word : ℕ → ℕ → M → M
  hal_eeprom_write_word addr val m =
      if ltb (u16 (addr + 1)) eeprom_size then libc.write_word addr val m else m

  unfoldable pub hal_eeprom_write_dword : ℕ → ℕ → M → M
  hal_eeprom_write_dword addr val m =
      if ltb (u16 (addr + 3)) eeprom_size then libc.write_dword addr val m else m

  unfoldable pub hal_eeprom_write_block : ℕ → List ℕ → M → M
  hal_eeprom_write_block addr buf m =
      libc.write_block addr (take (cut_length eeprom_size addr (length buf)) buf) m

  unfoldable pub hal_eeprom_update_byte : ℕ → ℕ → M → M
  hal_eeprom_update_byte addr val m =
      if ltb addr eeprom_size then libc.update_byte addr val m else m

  unfoldable pub hal_eeprom_update_word : ℕ → ℕ → M → M
  hal_eeprom_update_word addr val m =
      if ltb (u16 (addr + 1)) eeprom_size then libc.update_word addr val m else m

  unfoldable pub hal_eeprom_update_dword : ℕ → ℕ → M → M
  hal_eeprom_update_dword addr val m =
      if ltb (u16 (addr + 3)) eeprom_size then libc.update_dword addr val m else m

  unfoldable pub hal_eeprom_update_block : ℕ → List ℕ → M → M
  hal_eeprom_update_block addr buf m =
      libc.update_block addr (take (cut_length eeprom_size addr (length buf)) buf) m

  -- The loop of `hal_eeprom_erase_all` from `addr` on, with `n` rounds left.
  unfoldable pub erase_from : ℕ → ℕ → M → M
  erase_from addr zero m = m
  erase_from addr (suc n) m = erase_from (addr + 1) n (libc.write_byte addr 0xFF m)

  unfoldable pub hal_eeprom_erase_all : M → M
  hal_eeprom_erase_all m = erase_from 0 eeprom_size m
