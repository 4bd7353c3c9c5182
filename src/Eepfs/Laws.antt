-- ===== src/Eepfs/Laws.antt =====
-- What drivers/fs/eepfs.c relies on of an EEPROM, and what its calls then do to a file.
use avrix.Eepfs.{Hal}
use avrix.Base.{length, All, IsByte, ℕ, ◌+◌, ◌^◌, ◌≤◌, ◌≡◌, List, ◌++◌}

-- Documented behaviour of the block functions inside the EEPROM: a block has the length asked for, is
-- read in parts as it is read whole, and holds what it was last updated with; the file is inside the
-- EEPROM. An `int` has at least the sixteen bits that C wants of it.
pub record IsEeprom {M : Type 0} (hal : Hal M) : Type 0 where
  pub int_width : 65536 ≤ 2 ^ hal.int_bits
  pub room : 10 ≤ hal.eeprom_size
  pub length_read :
      (a n : ℕ) (m : M) → a + n ≤ hal.eeprom_size → length (hal.eeprom_read_block a n m) ≡ n
  pub read_parts :
      (a n k : ℕ) (m : M)
      → a + n + k ≤ hal.eeprom_size
      → hal.eeprom_read_block a (n + k) m
        ≡ hal.eeprom_read_block a n m ++ hal.eeprom_read_block (a + n) k m
  pub read_updated :
      (a : ℕ) (xs : List ℕ) (m : M)
      → a + length xs ≤ hal.eeprom_size
      → All IsByte xs
      → hal.eeprom_read_block a (length xs) (hal.eeprom_update_block a xs m) ≡ xs
