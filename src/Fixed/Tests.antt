-- ===== src/Fixed/Tests.antt =====
-- Runs of src/fixed_point.c.
use mathlib.Core.Logic.{◌↔◌}
use avrix.Fixed.Product.{rounded, carry, negatives, q8_8_mul_iff}
use avrix.Fixed.{q8_8_mul}
use avrix.Base.{◌%◌, ◌≡◌, refl, arith}

-- 1.0 * 1.5 and 2.0 * 1.5; the second should be 3.0, 768.
one_and_a_half : q8_8_mul 256 384 ≡ 384
unfolding q8_8_mul
one_and_a_half = refl

twice_one_and_a_half : q8_8_mul 512 384 ≡ 513
unfolding q8_8_mul
twice_one_and_a_half = refl

-- -1.0 times 1/256 should be -1/256, 65535.
minus_one : (q8_8_mul 0xFF00 1 ≡ 255) × (rounded 0xFF00 1 ≡ 65535)
unfolding q8_8_mul
minus_one = (refl, refl)

q8_8_mul_iff_example :
    (q8_8_mul 0xFF00 1 ≡ rounded 0xFF00 1)
    ↔ ((carry 0xFF00 1 ≡ negatives 0xFF00 1) × (carry 0xFF00 1 % 2 ≡ 0))
q8_8_mul_iff_example = q8_8_mul_iff 0xFF00 1 (omega arith) (omega arith)
