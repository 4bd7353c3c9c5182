-- ===== src/Fixed/Product.antt =====
-- `q8_8_mul` of src/fixed_point.c against the rounded product of signed numbers.
use mathlib.Core.Logic.{◌↔◌}
use avrix.Fixed.{middle, hi, lo, q8_8_mul}
use avrix.Base.{
  ltb, ◌==◌, if◌then◌else◌, Bool-cases, u16, ℕ, ◌+◌, ◌-◌, ◌*◌, ◌/◌, ◌%◌, ◌≤◌, ◌<◌, ◌≡◌, ap₂, ◌∙◌,
  inl, inr, arith,
}

-- The pattern of 32 bits with the value of a pattern of 16 bits, which is negative from 32768 on.
abbrev pub extend : ℕ → ℕ
extend a = if ltb a 32768 then a else a + 4294901760

-- The rounded signed product: `(int16_t)(((int32_t)a * b + 128) >> 8)`.
abbrev pub rounded : ℕ → ℕ → ℕ
rounded a b = u16 ((extend a * extend b + 128) % 4294967296 / 256)

-- The sum of the middle terms before it is cut to 16 bits.
abbrev pub middle_sum : ℕ → ℕ → ℕ
middle_sum a b = lo a * hi b + hi a * lo b + lo a * lo b / 256

byte_product : (x y : ℕ) → x < 256 → y < 256 → x * y ≤ 65025
byte_product x y hx hy = grind arith

fits : (p : ℕ) → p ≤ 65025 → u16 p ≡ p
fits p h = omega arith

-- What the sum of the middle terms carries to the high byte.
abbrev pub carry : ℕ → ℕ → ℕ
carry a b = middle_sum a b / 256 % 256

-- What a signed product lacks of the high byte of the unsigned one, for each negative operand the
-- low byte of the other.
abbrev pub negatives : ℕ → ℕ → ℕ
negatives a b = ((if ltb a 32768 then 0 else lo b) + (if ltb b 32768 then 0 else lo a)) % 256

-- The result and the rounded product by the four products of bytes, and what the signs take away.
by_parts :
    (p0 p1 p2 p3 t : ℕ)
    → p0 ≤ 65025
    → p1 ≤ 65025
    → p2 ≤ 65025
    → p3 ≤ 65025
    → t < 256
    → let m = u16 (p1 + p2 + p0 / 256) in
      let composed = u16 (p3 * 256) + m % 256 in
      let carried = if m / 256 % 2 == 1 then u16 (composed + 1) else composed in
      ((if p0 / 128 % 2 == 1 then u16 (carried + 1) else carried)
        ≡ ((p3 * 65536 + (p1 + p2) * 256 + p0 + 128) / 256 + (65536 - 256 * t)) % 65536)
      ↔ (((p1 + p2 + p0 / 256) / 256 % 256 ≡ t) × ((p1 + p2 + p0 / 256) / 256 % 2 ≡ 0))
by_parts p0 p1 p2 p3 t h0 h1 h2 h3 ht = ground arith

product_parts :
    (a b : ℕ)
    → a < 65536
    → b < 65536
    → a * b ≡ hi a * hi b * 65536 + (lo a * hi b + hi a * lo b) * 256 + lo a * lo b
product_parts a b ha hb =
    let ea : a ≡ hi a * 256 + lo a = omega arith in
    let eb : b ≡ hi b * 256 + lo b = omega arith in ap₂ ◌*◌ ea eb ∙ omega arith

-- The signed product by the unsigned one.
signs :
    (a b : ℕ)
    → a < 65536
    → b < 65536
    → rounded a b ≡ ((a * b + 128) / 256 + (65536 - 256 * negatives a b)) % 65536
signs a b ha hb = elim (Bool-cases (ltb a 32768)) [
  | inl pa ↦ elim (Bool-cases (ltb b 32768)) [
    | inl pb ↦ rw (pa, pb) (omega arith)
    | inr nb ↦
        rw (pa, nb)
          (let e : a * (b + 4294901760) ≡ a * b + a * 4294901760 = grind arith in
            rw e (omega arith))
  ]
  | inr na ↦ elim (Bool-cases (ltb b 32768)) [
    | inl pb ↦
        rw (na, pb)
          (let e : (a + 4294901760) * b ≡ a * b + b * 4294901760 = grind arith in
            rw e (omega arith))
    | inr nb ↦
        rw (na, nb)
          (let e : (a + 4294901760) * (b + 4294901760)
                ≡ a * b + (a + b) * 4294901760 + 4294901760 * 4294901760 =
              grind arith in
            rw e (omega arith))
  ]
]

-- `q8_8_mul` gives the rounded product of two signed numbers exactly if what the sum of the middle
-- terms carries to the high byte is even and is what the negative operands take away there, modulo
-- 256: for two that are not negative, exactly if there is no such carry, modulo 256.
pub q8_8_mul_iff :
    (a b : ℕ)
    → a < 65536
    → b < 65536
    → (q8_8_mul a b ≡ rounded a b) ↔ ((carry a b ≡ negatives a b) × (carry a b % 2 ≡ 0))
unfolding q8_8_mul
q8_8_mul_iff a b ha hb =
    let h0 = byte_product (lo a) (lo b) (omega arith) (omega arith) in
    let h1 = byte_product (lo a) (hi b) (omega arith) (omega arith) in
    let h2 = byte_product (hi a) (lo b) (omega arith) (omega arith) in
    let h3 = byte_product (hi a) (hi b) (omega arith) (omega arith) in
    let even : middle_sum a b / 256 % 256 % 2 ≡ middle_sum a b / 256 % 2 = omega arith in
    rw
      (
        signs a b ha hb,
        product_parts a b ha hb,
        fits _ h0,
        fits _ h1,
        fits _ h2,
        fits _ h3,
        middle,
        even,
      )
      (by_parts (lo a * lo b) (lo a * hi b) (hi a * lo b) (hi a * hi b) (negatives a b) h0 h1 h2 h3
        (omega arith))
