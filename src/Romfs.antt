-- ===== src/Romfs.antt =====
-- drivers/fs/romfs.c: the read-only file system in program memory. A pointer to a file is its
-- index in `file_table`; the data of a file are the bytes its pointer leads to.
mod Tests
use avrix.Tree.{type_dir, type_file, Tables, Dir, open_path, Entry}
use avrix.Base.{
  ltb, leb, if◌then◌else◌, get_or, take, drop, ℕ, ◌+◌, ◌-◌, ◌%◌, ◌^◌, Option, List, [], ◌∷◌,
}

-- `romfs_file_t`
pub record RomfsFile : Type 0 where
  pub file_data : List ℕ
  pub size : ℕ

-- "1.0\n" and "ROMFS demo\n"
abbrev ver_txt : List ℕ
ver_txt = 49 ∷ 46 ∷ 48 ∷ 10 ∷ []

abbrev readme_txt : List ℕ
readme_txt = 82 ∷ 79 ∷ 77 ∷ 70 ∷ 83 ∷ 32 ∷ 100 ∷ 101 ∷ 109 ∷ 111 ∷ 10 ∷ []

-- "version.txt", "config", "etc" and "README"
abbrev name_ver : List ℕ
name_ver = 118 ∷ 101 ∷ 114 ∷ 115 ∷ 105 ∷ 111 ∷ 110 ∷ 46 ∷ 116 ∷ 120 ∷ 116 ∷ []

abbrev name_cfg : List ℕ
name_cfg = 99 ∷ 111 ∷ 110 ∷ 102 ∷ 105 ∷ 103 ∷ []

abbrev name_etc : List ℕ
name_etc = 101 ∷ 116 ∷ 99 ∷ []

abbrev pub name_readme : List ℕ
name_readme = 82 ∷ 69 ∷ 65 ∷ 68 ∷ 77 ∷ 69 ∷ []

abbrev file_table : List RomfsFile
file_table =
    (record { file_data = ver_txt; size = 4 }) ∷ (record { file_data = readme_txt; size = 11 }) ∷ []

-- `config_entries`, `etc_entries`, `root_entries` and `dir_table`
abbrev config_entries : List Entry
config_entries = (record { name = name_ver; type = type_file; idx = 0 }) ∷ []

abbrev etc_entries : List Entry
etc_entries = (record { name = name_cfg; type = type_dir; idx = 0 }) ∷ []

abbrev root_entries : List Entry
root_entries =
    (record { name = name_etc; type = type_dir; idx = 1 })
    ∷ (record { name = name_readme; type = type_file; idx = 1 })
    ∷ []

abbrev dir_table : List Dir
dir_table =
    (record { entries = config_entries; count = 1 })
    ∷ (record { entries = etc_entries; count = 1 })
    ∷ (record { entries = root_entries; count = 2 })
    ∷ []

abbrev pub romfs_tables : Tables
romfs_tables = record { dir_table = dir_table; file_count = 2; root_dir = 2 }

abbrev pub no_file : RomfsFile
no_file = record { file_data = []; size = 0 }

abbrev pub file_at : ℕ → RomfsFile
file_at f = get_or file_table f no_file

unfoldable pub romfs_open : List ℕ → Option ℕ
romfs_open path = open_path romfs_tables path

-- How many bytes of a file of `size` bytes a call for `len` bytes at `off` is about. The sum is
-- taken in an `int` of `int_bits` bits, which is unsigned if it has 16.
unfoldable pub clip : ℕ → ℕ → ℕ → ℕ → ℕ
clip int_bits size off len =
    if leb size off then 0 else if ltb size ((off + len) % 2 ^ int_bits) then size - off else len

-- The value returned and the bytes copied, which are the bytes of the file as far as it goes.
unfoldable pub romfs_read : ℕ → ℕ → ℕ → ℕ → ℕ × List ℕ
romfs_read int_bits f off len =
    let tmp = file_at f in
    let n = clip int_bits tmp.size off len in (n, take n (drop off tmp.file_data))
