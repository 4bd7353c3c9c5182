-- ===== src/NkFs/Memory.antt =====
-- An EEPROM with a byte for each address, which has the behaviour that src/nk_fs.c relies on.
use avrix.NkFs.{Eeprom}
use avrix.NkFs.Search.{IsRom}
use avrix.Base.{◌==◌, if◌then◌else◌, ==-false_of_ne, ==_refl, if_true, if_false, ℕ}

abbrev pub memory : Eeprom (ℕ → ℕ)
memory = record { read_byte = λ a m. m a; update_byte = λ a b m c. if c == a then b else m c }

pub memory-IsRom : IsRom memory
memory-IsRom = record {
  same = λ a b m h byte. if_true _ _ (==_refl a);
  other = λ a b c m ne. if_false _ _ (==-false_of_ne c a ne);
}
