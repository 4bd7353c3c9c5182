-- ===== src/Base/Bits.antt =====
-- Machine bytes and words: wrap-around, byte order, and masks of the form 2 ^ k - 1.
use Prim.Native.Nat.{ℕ, zero, suc, ◌+◌, ◌-◌, ◌*◌, ◌/◌, ◌%◌, ◌^◌, ◌≤◌, ◌<◌, bit_and}
use mathlib.Core.Path.{◌≡◌, refl, sym, ap, ◌∙◌}
use mathlib.Core.Bool.{Bool, true, ◌&&◌}
use native.Mathlib.Omega.{arith}
use native.Mathlib.Nat.{mod-eq_of_lt, add-mul-mod_self_left}
use avrix.Base.Tests.{◌==◌, ==_iff, ltb}

-- A `uint8_t`, `uint16_t` or `uint32_t` value as the number that it holds.
abbrev pub u8 : ℕ → ℕ
u8 n = n % 256

abbrev pub u16 : ℕ → ℕ
u16 n = n % 65536

abbrev pub u32 : ℕ → ℕ
u32 n = n % 4294967296

abbrev pub IsByte : ℕ → Type 0
IsByte b = b < 256

-- Tables: a test that evaluates to true on all the numbers below `top`.
unfoldable pub each_below : (ℕ → Bool) → ℕ → Bool
each_below test zero = true
each_below test (suc top) = each_below test top && test top

pub each_below_lem :
    (test : ℕ → Bool) (top x : ℕ) → x < top → each_below test top ≡ true → test x ≡ true
unfolding each_below
each_below_lem test zero x inside table = absurd (omega arith)
each_below_lem test (suc top) x inside table = ground (arith, each_below_lem test top x)

-- A mask that keeps the low bits: the capacity `mask + 1` is a power of two, at most 256.
abbrev pub IsMask : ℕ → Type 0
IsMask mask = (k : ℕ) × (k < 9) × (mask + 1 ≡ 2 ^ k)

mask_table : each_below (λ k. each_below (λ x. bit_and x (2 ^ k - 1) == x % 2 ^ k) 512) 9 ≡ true
unfolding each_below
mask_table = refl

bit_and_mask : (k x : ℕ) → k < 9 → x < 512 → bit_and x (2 ^ k - 1) ≡ x % 2 ^ k
bit_and_mask k x hk hx = (==_iff _ _).0 (
    each_below_lem (λ x. bit_and x (2 ^ k - 1) == x % 2 ^ k) 512 x hx
      (each_below_lem _ 9 k hk mask_table))

-- On what fits in nine bits, `x & mask` is the remainder by the capacity.
pub bit_and-IsMask : (x mask : ℕ) → IsMask mask → x < 512 → bit_and x mask ≡ x % (mask + 1)
bit_and-IsMask x mask (k, hk, e) hx =
    let e' : mask ≡ 2 ^ k - 1 = omega arith in
    ap (bit_and x) e' ∙ bit_and_mask k x hk hx ∙ ap (λ n. x % n) (sym e)

-- Every capacity divides 256.
capacity_table : each_below (λ k. 2 ^ k * (256 / 2 ^ k) == 256 && ltb 0 (256 / 2 ^ k)) 9 ≡ true
unfolding each_below
capacity_table = refl

pub divides_256 : (mask : ℕ) → IsMask mask → (d : ℕ) × (256 ≡ (mask + 1) * (d + 1))
divides_256 mask (k, h, e) =
    let fact : (2 ^ k * (256 / 2 ^ k) ≡ 256) × (0 < 256 / 2 ^ k) =
      ground (arith, each_below_lem _ 9 k h capacity_table) in
    (256 / 2 ^ k - 1, rw e (sym fact.0 ∙ ap (λ n. 2 ^ k * n) (omega arith)))

pub mask_small : (mask : ℕ) → IsMask mask → mask < 256
mask_small mask m = let (d, e) = divides_256 mask m in omega arith

-- The remainder is what is left when a multiple of the capacity is taken away.
pub mod_of_eq : (a r d mask : ℕ) → a ≡ r + (mask + 1) * d → r ≤ mask → a % (mask + 1) ≡ r
mod_of_eq a r d mask e h =
    ap (λ n. n % (mask + 1)) e ∙ add-mul-mod_self_left r (mask + 1) d ∙ mod-eq_of_lt (omega arith)

-- The `uint8_t` size of a capacity 2 ^ k, and the mask less by one.
size_table : each_below (λ k. u8 (u8 (2 ^ k) + 256 - 1) + 1 == 2 ^ k) 9 ≡ true
unfolding each_below
size_table = refl

pub mask_of_size : (k : ℕ) → k < 9 → u8 (u8 (2 ^ k) + 256 - 1) + 1 ≡ 2 ^ k
mask_of_size k h = (==_iff _ _).0 (each_below_lem _ 9 k h size_table)
