-- ===== src/Vfs/Calls.antt =====
-- The calls on paths and descriptors of drivers/fs/vfs.c.
use avrix.Romfs.{romfs_read}
use avrix.Eepfs.{eepfs_read, eepfs_write, Hal}
use avrix.Vfs.{
  eepfs_ops, romfs_ops, Fd, alloc_fd, vfs_max_mounts, seek_end, o_rdwr, seek_cur, vfs_type_none,
  ops_open, vfs_max_fds, o_rdonly, mount_at, o_wronly, seek_set, ops_size, VfsStat, fd_at, Ops,
  VfsStats, find_mount, Vfs,
}
use avrix.Base.{
  ltb, leb, ◌==◌, if◌then◌else◌, length, set, u8, u16, ℕ, zero, suc, ◌+◌, ◌-◌, ◌/◌, ◌%◌, ◌^◌, min,
  bit_and, Bool, true, false, not, ◌&&◌, ◌||◌, Option, none, some, List, [],
}

-- The file that a path leads to, with the operations of its mount.
unfoldable pub open_target : Option (List ℕ) → Vfs → Option (Ops × ℕ)
open_target path v = elim (find_mount path v) [
  | none ↦ none
  | some (i, fs_path) ↦ elim (mount_at v i).ops [
    | none ↦ none
    | some ops ↦ elim (ops_open ops fs_path) [ none ↦ none | some f ↦ some (ops, f) ]
  ]
]

-- A descriptor as `vfs_open` fills it in.
abbrev pub new_fd : Ops × ℕ → ℕ → Fd
new_fd target flags = record {
  fs_file = some target.1;
  ops = some target.0;
  position = 0;
  flags = u8 flags;
  in_use = true;
}

unfoldable pub vfs_open : Option (List ℕ) → ℕ → Vfs → Option ℕ × Vfs
vfs_open path flags v = if not v.initialized then (none, v) else elim (open_target path v) [
  | none ↦ (none, v)
  | some target ↦ elim (alloc_fd v) [
    | none ↦ (none, v)
    | some fd ↦ (some fd, record v { fds = set v.fds fd (new_fd target flags) })
  ]
]

-- A descriptor that passes the guard of the calls on descriptors, with its file. One in use has a
-- file and operations, whose pointers the calls follow without a test.
unfoldable pub open_file : ℕ → Vfs → Option (Ops × ℕ)
open_file fd v =
    let f = fd_at v fd in
    if leb vfs_max_fds fd || not f.in_use then none else elim f.ops [
      | none ↦ none
      | some ops ↦ elim f.fs_file [ none ↦ none | some file ↦ some (ops, file) ]
    ]

-- `if (n > 0) f->position += (uint16_t)n`
unfoldable pub advance : ℕ → ℕ → Vfs → Vfs
advance fd n v =
    let f = fd_at v fd in
    if ltb 0 n
    then record v { fds = set v.fds fd (record f { position = u16 (f.position + n) }) }
    else v

abbrev pub at_position : ℕ → ℕ → Vfs → Vfs
at_position fd n v = record v { fds = set v.fds fd (record (fd_at v fd) { position = n }) }

module _ {M : Type 0} (hal : Hal M) where
  unfoldable pub ops_read : Ops → ℕ → ℕ → ℕ → M → ℕ × List ℕ
  ops_read romfs_ops f off len m = romfs_read hal.int_bits f off len
  ops_read eepfs_ops f off len m = eepfs_read hal f off len m

  unfoldable pub ops_write : Ops → ℕ → ℕ → List ℕ → ℕ → M → Option ℕ × M
  ops_write romfs_ops f off buf len m = (none, m)
  ops_write eepfs_ops f off buf len m = let r = eepfs_write hal f off buf len m in (some r.0, r.1)

  -- The value returned, the bytes read, and the new state.
  unfoldable pub vfs_read : ℕ → ℕ → Vfs → M → Option ℕ × List ℕ × Vfs
  vfs_read fd count v m = elim (open_file fd v) [
    | none ↦ (none, [], v)
    | some (ops, f) ↦
        let r = ops_read ops f (fd_at v fd).position (u16 count) m in
        (some r.0, r.1, advance fd r.0 v)
  ]

  -- `buf` has `count` bytes.
  unfoldable pub vfs_write : ℕ → List ℕ → Vfs → M → Option ℕ × Vfs × M
  vfs_write fd buf v m = elim (open_file fd v) [
    | none ↦ (none, v, m)
    | some (ops, f) ↦
        let flags = (fd_at v fd).flags in
        if bit_and flags o_wronly == 0 && bit_and flags o_rdwr == 0
        then (none, v, m)
        else let r = ops_write ops f (fd_at v fd).position buf (u16 (length buf)) m in
          elim r.0 [ none ↦ (none, v, r.1) | some n ↦ (some n, advance fd n v, r.1) ]
  ]

pub data ℤ : Type 0 where
  pos negsuc : (n : ℕ) → ℤ

-- The pattern of an `int` of `int_bits` bits.
unfoldable pub int_pattern : ℕ → ℤ → ℕ
int_pattern int_bits (pos n) = n % 2 ^ int_bits
int_pattern int_bits (negsuc n) = (2 ^ int_bits - 1) - n % 2 ^ int_bits

-- A position moved by an offset, in an `int`, which wraps around, and 0 where that is negative.
unfoldable pub move : ℕ → ℕ → ℤ → ℕ
move int_bits base offset =
    let sum = (base + int_pattern int_bits offset) % 2 ^ int_bits in
    if ltb sum (2 ^ int_bits / 2) then sum else 0

-- The end of `vfs_lseek`, from `if (new_pos > size)` on.
unfoldable pub seek_to : ℕ → ℕ → ℕ → Vfs → Option ℕ × Vfs
seek_to fd new_pos size v = let to = min new_pos size in (some to, at_position fd (u16 to) v)

unfoldable pub vfs_lseek : ℕ → ℕ → ℤ → ℕ → Vfs → Option ℕ × Vfs
vfs_lseek int_bits fd offset whence v = elim (open_file fd v) [
  | none ↦ (none, v)
  | some (ops, f) ↦
      let size = ops_size ops f in
      if whence == seek_set
      then seek_to fd (move int_bits 0 offset) size v
      else if whence == seek_cur
      then seek_to fd (move int_bits (fd_at v fd).position offset) size v
      else if whence == seek_end
      then seek_to fd (move int_bits size offset) size v
      else (none, v)
]

-- It leaves the position and the flags.
unfoldable pub vfs_close : ℕ → Vfs → Bool × Vfs
vfs_close fd v =
    let f = fd_at v fd in
    if leb vfs_max_fds fd || not f.in_use then (false, v) else (
      true,
      record v { fds = set v.fds fd (record f { fs_file = none; ops = none; in_use = false }) },
    )

unfoldable pub vfs_fstat : ℕ → Vfs → Option VfsStat
vfs_fstat fd v = elim (open_file fd v) [
  | none ↦ none
  | some (ops, f) ↦ some (record { size = ops_size ops f; type = 0; flags = 0 })
]

-- The rest of `vfs_stat` after its `vfs_open`.
unfoldable pub stat_opened : Option ℕ → Vfs → Option VfsStat × Vfs
stat_opened none v = (none, v)
stat_opened (some fd) v = (vfs_fstat fd v, (vfs_close fd v).1)

unfoldable pub vfs_stat : Option (List ℕ) → Vfs → Option VfsStat × Vfs
vfs_stat none v = (none, v)
vfs_stat (some path) v = let o = vfs_open (some path) o_rdonly v in stat_opened o.0 o.1

-- How many of the indices from `i` on pass a test.
unfoldable pub count_from : (ℕ → Bool) → ℕ → ℕ → ℕ
count_from test zero i = 0
count_from test (suc n) i =
    let rest = count_from test n (i + 1) in if test i then rest + 1 else rest

unfoldable pub vfs_get_stats : Vfs → VfsStats
vfs_get_stats v = record {
  mounts_used = count_from (λ i. not ((mount_at v i).type == vfs_type_none)) vfs_max_mounts 0;
  mounts_total = vfs_max_mounts;
  fds_used = count_from (λ i. (fd_at v i).in_use) vfs_max_fds 0;
  fds_total = vfs_max_fds;
}
