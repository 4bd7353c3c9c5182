-- ===== src/Fixed.antt =====
-- src/fixed_point.c: multiplication of Q8.8 numbers. A `q8_8_t` is its pattern of 16 bits.
pub mod Product
mod Tests
use avrix.Base.{◌==◌, if◌then◌else◌, u8, u16, ℕ, ◌+◌, ◌*◌, ◌/◌, ◌%◌}

-- The bytes `a_hi` and `a_lo` of an operand.
abbrev pub hi : ℕ → ℕ
hi a = u8 (a / 256)

abbrev pub lo : ℕ → ℕ
lo a = u8 a

-- `middle`, which is a `uint16_t`.
unfoldable pub middle : ℕ → ℕ → ℕ
middle a b = u16 (u16 (lo a * hi b) + u16 (hi a * lo b) + u16 (lo a * lo b) / 256)

-- The operands of `|` share no bit, so it is a sum.
unfoldable pub q8_8_mul : ℕ → ℕ → ℕ
unfolding middle
q8_8_mul a b =
    let p0 = u16 (lo a * lo b) in
    let p3 = u16 (hi a * hi b) in
    let composed = u16 (p3 * 256) + middle a b % 256 in
    let carried = if middle a b / 256 % 2 == 1 then u16 (composed + 1) else composed in
    if p0 / 128 % 2 == 1 then u16 (carried + 1) else carried
