-- ===== src/NkFs/Record.antt =====
-- Keys and values in the two data bytes of a record of src/nk_fs.c.
use avrix.NkFs.{pack0, unpack_key, unpack_val, pack1}
use avrix.Base.{
  ◌==◌, ==_iff, u8, IsByte, each_below, each_below_lem, ℕ, ◌+◌, ◌*◌, ◌/◌, ◌%◌, ◌<◌, bit_and, bit_or,
  ◌≡◌, refl, sym, ap, ◌∙◌, true, arith,
}

high_table : each_below (λ x. each_below (λ y. bit_or (x * 8) y == x * 8 + y) 8) 256 ≡ true
unfolding avrix.Base.Bits.each_below
high_table = refl

low_table :
    each_below (λ x. each_below (λ y. bit_or (bit_and x 7 * 32) (bit_and y 31) == x * 32 + y) 32) 8
    ≡ true
unfolding avrix.Base.Bits.each_below
low_table = refl

val_table : each_below (λ x. bit_and x 31 == x % 32) 256 ≡ true
unfolding avrix.Base.Bits.each_below
val_table = refl

key_table : each_below (λ x. bit_and x 7 == x % 8) 2048 ≡ true
unfolding avrix.Base.Bits.each_below
key_table = refl

bit_and_7 : (key : ℕ) → key < 2048 → bit_and key 7 ≡ key % 8
bit_and_7 key h = (==_iff _ _).0 (each_below_lem (λ x. bit_and x 7 == x % 8) 2048 key h key_table)

bit_and_31 : (val : ℕ) → val < 256 → bit_and val 31 ≡ val % 32
bit_and_31 val h = (==_iff _ _).0 (each_below_lem (λ x. bit_and x 31 == x % 32) 256 val h val_table)

-- The bytes as numbers.
pack1_lem : (key val : ℕ) → key < 2048 → val < 32 → pack1 key val ≡ key % 8 * 32 + val
unfolding pack1
pack1_lem key val hk hv =
    let low : bit_or (bit_and (key % 8) 7 * 32) (bit_and val 31) ≡ key % 8 * 32 + val =
      (==_iff _ _).0 (
        each_below_lem (λ y. bit_or (bit_and (key % 8) 7 * 32) (bit_and y 31) == key % 8 * 32 + y)
          32 val hv
          (each_below_lem
            (λ x. each_below (λ y. bit_or (bit_and x 7 * 32) (bit_and y 31) == x * 32 + y) 32) 8
            (key % 8) (omega arith) low_table)) in
    let same : bit_and key 7 ≡ bit_and (key % 8) 7 =
      bit_and_7 key hk
      ∙ (let e : key % 8 % 8 ≡ key % 8 = omega arith in sym e)
      ∙ sym (bit_and_7 (key % 8) (omega arith)) in
    ap (λ x. u8 (bit_or (x * 32) (bit_and val 31))) same
    ∙ (let e : u8 (key % 8 * 32 + val) ≡ key % 8 * 32 + val = omega arith in ap u8 low ∙ e)

-- Unpacking gives the key and the value that were packed.
pub unpack_key-pack :
    (key val : ℕ) → key < 2048 → val < 32 → unpack_key (pack0 key) (pack1 key val) ≡ key
unfolding unpack_key pack0
unpack_key-pack key val hk hv =
    let top : bit_or (u8 (key / 8) * 8) (key % 8) ≡ u8 (key / 8) * 8 + key % 8 = (==_iff _ _).0 (
      each_below_lem (λ y. bit_or (u8 (key / 8) * 8) y == u8 (key / 8) * 8 + y) 8 (key % 8)
        (omega arith)
        (each_below_lem (λ x. each_below (λ y. bit_or (x * 8) y == x * 8 + y) 8) 256 (u8 (key / 8))
          (omega arith) high_table)) in
    let e : pack1 key val / 32 ≡ key % 8 = omega (arith, pack1_lem key val hk hv) in
    ap (bit_or (u8 (key / 8) * 8)) e
    ∙ top
    ∙ (let back : u8 (key / 8) * 8 + key % 8 ≡ key = omega arith in back)

pub unpack_val-pack : (key val : ℕ) → key < 2048 → val < 32 → unpack_val (pack1 key val) ≡ val
unfolding unpack_val
unpack_val-pack key val hk hv =
    let e = pack1_lem key val hk hv in bit_and_31 (pack1 key val) (omega arith) ∙ omega arith

pub pack0-IsByte : (key : ℕ) → IsByte (pack0 key)
unfolding pack0
pack0-IsByte key = omega arith

pub pack1-IsByte : (key val : ℕ) → IsByte (pack1 key val)
unfolding pack1
pack1-IsByte key val = omega arith
