-- ===== src/NkFs/Tests.antt =====
-- Runs of src/nk_fs.c on an EEPROM with a byte for each address.
use avrix.NkFs.Memory.{memory, memory-IsRom}
use avrix.NkFs.Rows.{nk_fs_get-returns}
use avrix.NkFs.Search.{nk_fs_put-nk_fs_get}
use avrix.NkFs.{addr, erase_from, erase_row, nk_fs_put, nk_fs_get, Log, open_next_row}
use avrix.Base.{leb, ◌==◌, if◌then◌else◌, ℕ, ◌+◌, ◌<◌, ◌≡◌, refl, ◌≢◌, true, Option, some, arith}

abbrev erased : ℕ → ℕ
erased a = 255

abbrev log : Log (ℕ → ℕ)
log = record { cur_row = 2; cur_idx = 3; mem = erased }

abbrev key : ℕ
key = 700

nk_fs_put-nk_fs_get_example :
    (s' : Log (ℕ → ℕ)) × (nk_fs_put memory 700 21 log ≡ (true, s'))
    × (nk_fs_get memory 700 s' ≡ some (some 21))
    × (key ≢ 5 → 0 < 3 → nk_fs_get memory 5 s' ≡ nk_fs_get memory 5 log)
nk_fs_put-nk_fs_get_example =
    nk_fs_put-nk_fs_get memory memory-IsRom 700 21 5 log (omega arith) (omega arith) (omega arith)
      (omega arith) (omega arith)

nk_fs_get-returns_example : (x : Option ℕ) × (nk_fs_get memory 700 log ≡ some x)
nk_fs_get-returns_example = nk_fs_get-returns memory 700 log (omega arith) (omega arith)

-- The record of key 700 with value 21 in the last block of row 1.
abbrev earlier : ℕ → ℕ
earlier a =
    if leb a 127
    then (if a == 120 then 1 else if a == 121 then 87 else if a == 122 then 149 else 0)
    else 255

-- `open_next_row` puts the mark of row 3 in its last byte, and `nk_fs_init` looks for it 60 bytes
-- later, in row 4.
header_missed :
    let opened : Log (ℕ → ℕ) = open_next_row memory log in
    (opened.mem 255 ≡ 127) × (opened.mem (addr 3 15 + 63) ≡ 255)
unfolding open_next_row erase_row erase_from
header_missed = (refl, refl)
