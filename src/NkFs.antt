-- ===== src/NkFs.antt =====
-- src/nk_fs.c: TinyLog-4, a log of four-byte records in the EEPROM, in the build with the table of
-- `crc8_update`. `eeprom_read_byte` and `eeprom_update_byte` are avr-libc's.
pub mod Record
pub mod Search
pub mod Rows
pub mod Memory
mod Tests
use avrix.Fs.{find_from}
use avrix.Base.{
  ltb, leb, ◌==◌, if◌then◌else◌, get_or, u8, ℕ, zero, suc, ◌+◌, ◌-◌, ◌*◌, ◌/◌, ◌%◌, bit_and, bit_or,
  bit_xor, Bool, true, false, not, ◌&&◌, ◌||◌, Option, none, some, List, [], ◌∷◌,
}

-- The EEPROM's two functions, on contents of type `M`.
pub record Eeprom (M : Type 0) : Type 0 where
  pub read_byte : ℕ → M → ℕ
  pub update_byte : ℕ → ℕ → M → M

-- `cur_row` and `cur_idx`, with the contents of the EEPROM.
pub record Log (M : Type 0) : Type 0 where
  pub cur_row : ℕ
  pub cur_idx : ℕ
  pub mem : M

abbrev pub tag_put : ℕ
tag_put = 1

abbrev pub tag_del : ℕ
tag_del = 2

abbrev pub tag_row : ℕ
tag_row = 127

abbrev pub lut : List ℕ
lut =
    0 ∷ 49 ∷ 98 ∷ 83 ∷ 196 ∷ 245 ∷ 166 ∷ 151 ∷ 185 ∷ 136 ∷ 219 ∷ 234 ∷ 125 ∷ 76 ∷ 31 ∷ 46 ∷ 67 ∷ 114
    ∷ 33 ∷ 16 ∷ 135 ∷ 182 ∷ 229 ∷ 212 ∷ 250 ∷ 203 ∷ 152 ∷ 169 ∷ 62 ∷ 15 ∷ 92 ∷ 109 ∷ []

unfoldable pub crc8_update : ℕ → ℕ → ℕ
crc8_update crc byte = let c = u8 (bit_xor crc byte) in bit_xor (get_or lut (c % 32) 0) (c / 32)

unfoldable pub crc3 : ℕ → ℕ → ℕ → ℕ
crc3 tag d0 d1 = crc8_update (crc8_update (crc8_update 0 tag) d0) d1

abbrev pub addr : ℕ → ℕ → ℕ
addr row idx = row * 64 + idx * 4

unfoldable pub unpack_key : ℕ → ℕ → ℕ
unpack_key d0 d1 = bit_or (d0 * 8) (d1 / 32)

unfoldable pub unpack_val : ℕ → ℕ
unpack_val d1 = bit_and d1 31

-- The two data bytes of a key and a value.
unfoldable pub pack0 : ℕ → ℕ
pack0 key = u8 (key / 8)

unfoldable pub pack1 : ℕ → ℕ → ℕ
pack1 key val = u8 (bit_or (bit_and key 7 * 32) (bit_and val 31))

module _ {M : Type 0} (rom : Eeprom M) where
  -- The loop of `erase_row`, with the bytes left.
  unfoldable pub erase_from : ℕ → ℕ → M → M
  erase_from zero base m = m
  erase_from (suc n) base m = erase_from n (base + 1) (rom.update_byte base 255 m)

  unfoldable pub erase_row : ℕ → M → M
  erase_row row m = erase_from 64 (row * 64) m

  unfoldable pub open_next_row : Log M → Log M
  open_next_row s =
      let next = (s.cur_row + 1) % 16 in
      let erased = erase_row next s.mem in
      let seq = u8 (rom.read_byte (addr s.cur_row 15 + 62) erased + 1) in
      let off = next * 64 in
      record {
        cur_row = next;
        cur_idx = 0;
        mem = rom.update_byte (off + 63) tag_row (rom.update_byte (off + 62) seq erased);
      }

  -- The four bytes of a block at an address, if the last is the checksum of the others.
  unfoldable pub block_ok : ℕ → M → Bool
  block_ok a m =
      rom.read_byte (a + 3) m
      == crc3 (rom.read_byte a m) (rom.read_byte (a + 1) m) (rom.read_byte (a + 2) m)

  -- `(int8_t)(seq - best_seq) > 0`
  unfoldable pub newer : ℕ → ℕ → Bool
  newer seq best = let delta = (seq + 256 - best) % 256 in ltb 0 delta && ltb delta 128

  -- The first loop of `nk_fs_init` over the rows from `r` on: the row it ends with.
  unfoldable pub newest_row : ℕ → ℕ → ℕ → ℕ → M → ℕ
  newest_row zero r best row m = row
  newest_row (suc n) r best row m =
      let hdr = addr r 15 in
      let seq = rom.read_byte (hdr + 62) m in
      let taken = rom.read_byte (hdr + 63) m == tag_row && newer seq best in
      newest_row n (r + 1) (if taken then seq else best) (if taken then r else row) m

  unfoldable pub nk_fs_init : M → Log M
  nk_fs_init m =
      let row = newest_row 16 0 0 0 m in
      elim (find_from (λ i. not (block_ok (addr row i) m)) 15 0) [
        | some i ↦ record { cur_row = row; cur_idx = i; mem = m }
        | none ↦ open_next_row (record { cur_row = row; cur_idx = 0; mem = m })
      ]

  unfoldable pub write_block : ℕ → ℕ → ℕ → Log M → Bool × Log M
  write_block tag d0 d1 s =
      let a = addr s.cur_row s.cur_idx in
      let crc = crc3 tag d0 d1 in
      let m =
        rom.update_byte (a + 3) crc
          (rom.update_byte (a + 2) d1 (rom.update_byte (a + 1) d0 (rom.update_byte a tag s.mem))) in
      let written : Log M = record { cur_row = s.cur_row; cur_idx = s.cur_idx; mem = m } in
      let bumped : Log M = record { cur_row = s.cur_row; cur_idx = s.cur_idx + 1; mem = m } in
      if not (rom.read_byte (a + 3) m == crc)
      then (false, written)
      else if leb 15 (s.cur_idx + 1)
      then (true, open_next_row bumped)
      else (true, bumped)

  unfoldable pub nk_fs_put : ℕ → ℕ → Log M → Bool × Log M
  nk_fs_put key val s =
      if leb 2048 key || leb 32 val
      then (false, s)
      else write_block tag_put (pack0 key) (pack1 key val) s

  unfoldable pub nk_fs_del : ℕ → Log M → Bool × Log M
  nk_fs_del key s =
      if leb 2048 key then (false, s) else write_block tag_del (pack0 key) (pack1 key 0) s

  -- The block before another in the log.
  unfoldable pub previous : ℕ → ℕ → ℕ × ℕ
  previous r i = if i == 0 then (if r == 0 then 15 else r - 1, 15) else (r, i - 1)

  -- The loop of `nk_fs_get` from a block on, on fuel: what is returned, or `none` without fuel.
  unfoldable pub search_blocks : ℕ → ℕ → ℕ → ℕ → ℕ → M → Option (Option ℕ)
  search_blocks zero key cur r i m = none
  search_blocks (suc n) key cur r i m =
      let a = addr r i in
      let d1 = rom.read_byte (a + 2) m in
      let earlier = search_blocks n key cur (previous r i).0 (previous r i).1 m in
      if not (block_ok a m)
      then some none
      else if unpack_key (rom.read_byte (a + 1) m) d1 == key
      then some (if rom.read_byte a m == tag_del then none else some (unpack_val d1))
      else if r == cur && i == 0
      then some none
      else earlier

  -- Each of the 256 blocks is met once at most.
  unfoldable pub nk_fs_get : ℕ → Log M → Option (Option ℕ)
  nk_fs_get key s =
      if leb 2048 key
      then some none
      else let start = previous s.cur_row s.cur_idx in
        search_blocks 256 key s.cur_row start.0 start.1 s.mem
