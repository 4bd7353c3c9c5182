-- ===== src/Eepfs.antt =====
-- drivers/fs/eepfs.c: the file system in the EEPROM. The functions `hal_eeprom_*` of
-- arch/common/hal.h, which each platform has its own of, are the fields of an interface.
pub mod Laws
pub mod Memory
mod Tests
use avrix.Romfs.{clip}
use avrix.Tree.{type_dir, type_file, Tables, Dir, Entry, open_path}
use avrix.Base.{leb, if◌then◌else◌, get_or, take, u16, ℕ, ◌+◌, Bool, Option, List, [], ◌∷◌}

-- The EEPROM of a platform whose contents are of type `M`, and the width of its `int`.
pub record Hal (M : Type 0) : Type 0 where
  pub int_bits : ℕ
  pub eeprom_available : Bool
  pub eeprom_size : ℕ
  pub eeprom_read_block : ℕ → ℕ → M → List ℕ
  pub eeprom_update_block : ℕ → List ℕ → M → M

-- `eepfs_file_t`
pub record EepfsFile : Type 0 where
  pub addr : ℕ
  pub size : ℕ

-- "EEPROM FS\n", "sys" and "message.txt"
abbrev pub initial_message : List ℕ
initial_message = 69 ∷ 69 ∷ 80 ∷ 82 ∷ 79 ∷ 77 ∷ 32 ∷ 70 ∷ 83 ∷ 10 ∷ []

abbrev pub name_sys : List ℕ
name_sys = 115 ∷ 121 ∷ 115 ∷ []

abbrev pub name_msg : List ℕ
name_msg = 109 ∷ 101 ∷ 115 ∷ 115 ∷ 97 ∷ 103 ∷ 101 ∷ 46 ∷ 116 ∷ 120 ∷ 116 ∷ []

abbrev file0_addr : ℕ
file0_addr = 0

abbrev file0_size : ℕ
file0_size = 10

abbrev pub eepfs_file_table : List EepfsFile
eepfs_file_table = (record { addr = file0_addr; size = file0_size }) ∷ []

-- `sys_entries`, `root_entries` and `dir_table`
abbrev sys_entries : List Entry
sys_entries = (record { name = name_msg; type = type_file; idx = 0 }) ∷ []

abbrev root_entries : List Entry
root_entries = (record { name = name_sys; type = type_dir; idx = 0 }) ∷ []

abbrev dir_table : List Dir
dir_table =
    (record { entries = sys_entries; count = 1 })
    ∷ (record { entries = root_entries; count = 1 })
    ∷ []

abbrev pub eepfs_tables : Tables
eepfs_tables = record { dir_table = dir_table; file_count = 1; root_dir = 1 }

abbrev pub eepfs_file_at : ℕ → EepfsFile
eepfs_file_at f = get_or eepfs_file_table f (record { addr = 0; size = 0 })

unfoldable pub eepfs_open : List ℕ → Option ℕ
eepfs_open path = open_path eepfs_tables path

module _ {M : Type 0} (hal : Hal M) where
  -- The value returned and the bytes read.
  unfoldable pub eepfs_read : ℕ → ℕ → ℕ → M → ℕ × List ℕ
  eepfs_read f off len m =
      let tmp = eepfs_file_at f in
      let n = clip hal.int_bits tmp.size off len in
      if leb tmp.size off then (0, []) else (n, hal.eeprom_read_block (u16 (tmp.addr + off)) n m)

  -- `buf` holds `len` bytes or more.
  unfoldable pub eepfs_write : ℕ → ℕ → List ℕ → ℕ → M → ℕ × M
  eepfs_write f off buf len m =
      let tmp = eepfs_file_at f in
      let n = clip hal.int_bits tmp.size off len in
      if leb tmp.size off
      then (0, m)
      else (n, hal.eeprom_update_block (u16 (tmp.addr + off)) (take n buf) m)

  unfoldable pub eepfs_format : M → M
  eepfs_format m =
      if hal.eeprom_available then hal.eeprom_update_block file0_addr initial_message m else m

  -- The sum over the table, in a `uint16_t`, with the number of bytes so far.
  unfoldable pub sum_sizes : List EepfsFile → ℕ → ℕ
  sum_sizes [] used = used
  sum_sizes (f ∷ fs) used = sum_sizes fs (u16 (used + f.size))

  -- `used_bytes` and `total_bytes`
  unfoldable pub eepfs_stats : ℕ × ℕ
  eepfs_stats = (sum_sizes eepfs_file_table 0, hal.eeprom_size)
