-- ===== src/Vfs/Tests.antt =====
-- Runs of drivers/fs/vfs.c, and states in which its theorems apply.
use avrix.Vfs.Reading.{write-read, reads_join}
use avrix.Vfs.Run.{
  Run, after_init, after_open, after_mount, after_lseek, after_write, get_or-replicate, Run-IsVfs,
}
use avrix.Eepfs.Memory.{memory_hal-IsEeprom, memory_hal}
use avrix.Vfs.Positions.{vfs_open-IsVfs, IsVfs}
use avrix.Vfs.Mounts.{open_target-resolve, with_operations}
use avrix.Vfs.Transfer.{At}
use avrix.Fs.{strcmp_equal, strncmp_equal, find_from}
use mathlib.Core.Path.{subst}
use avrix.Eepfs.{eepfs_tables, eepfs_open, name_msg, name_sys}
use avrix.Eepfs.{eepfs_write}
use avrix.Vfs.Calls.{
  open_file, seek_to, move, int_pattern, ops_write, advance, negsuc, pos, vfs_lseek, vfs_read,
  vfs_write, open_target, vfs_open,
}
use avrix.Tree.Resolve.{resolve, IsName, join}
use avrix.Vfs.{
  ops_size, vfs_type_none, mount_at, seek_end, seek_set, fd_at, alloc_fd, romfs_ops, eepfs_ops, Fd,
  no_mount, no_fd, Mount, mount_matches, mounted_at, find_from, find_mount, place_mount, get_ops,
  o_rdwr, ops_open, vfs_init, Vfs, vfs_mount,
}
use avrix.Tree.{equal_p, use_entry, segment, walk, skip_slash, open_path, slash}
use avrix.Base.{
  set, replicate, All, ℕ, zero, suc, ◌+◌, ◌%◌, ◌<◌, ◌≡◌, refl, ap, ◌⊎◌, inl, inr, Bool, true, false,
  Option, some, List, [], ◌∷◌, ◌++◌, arith,
}

-- "/rom" and "/eep"
abbrev rom_path : List ℕ
rom_path = 47 ∷ 114 ∷ 111 ∷ 109 ∷ []

abbrev eep_path : List ℕ
eep_path = 47 ∷ 101 ∷ 101 ∷ 112 ∷ []

-- The state after both file systems are mounted, and a file of the second is open.
abbrev rom_mount : Mount
rom_mount = record { path = rom_path; type = 1; ops = some romfs_ops }

abbrev eep_mount : Mount
eep_mount = record { path = eep_path; type = 2; ops = some eepfs_ops }

abbrev both : Vfs
both = record {
  mounts = rom_mount ∷ eep_mount ∷ no_mount ∷ no_mount ∷ [];
  fds = replicate 8 no_fd;
  initialized = true;
}

abbrev opened_fd : Fd
opened_fd = record {
  fs_file = some 0;
  ops = some eepfs_ops;
  position = 0;
  flags = 2;
  in_use = true;
}

abbrev opened : Vfs
opened = record both { fds = set (replicate 8 no_fd) 0 opened_fd }

-- "/eep/sys/message.txt"
abbrev names : List (List ℕ)
names = name_sys ∷ name_msg ∷ []

both-mounts : (vfs_mount 2 (some eep_path) (vfs_mount 1 (some rom_path) vfs_init).1) ≡ (true, both)
unfolding vfs_mount vfs_init get_ops place_mount find_from mounted_at strcmp_equal
both-mounts = refl

opened-open : vfs_open (some (eep_path ++ (slash ∷ join names))) o_rdwr both ≡ (some 0, opened)
unfolding vfs_open open_target find_mount find_from mount_matches strncmp_equal ops_open eepfs_open
    open_path skip_slash walk segment use_entry avrix.Tree.find_entry equal_p alloc_fd join
opened-open = refl

names-IsName : All IsName names
names-IsName = ground arith

abbrev bytes : ℕ → ℕ
bytes a = a % 256

both-Run :
    Run memory_hal (vfs_mount 2 (some eep_path) (vfs_mount 1 (some rom_path) vfs_init).1).1 bytes
both-Run = after_mount 2 (some eep_path) (after_mount 1 (some rom_path) (after_init bytes))

both-IsVfs : IsVfs both
both-IsVfs = subst IsVfs (ap (λ (r : Bool × Vfs). r.1) both-mounts) (Run-IsVfs both-Run)

opened-IsVfs : IsVfs opened
opened-IsVfs =
    subst IsVfs (ap (λ (r : Option ℕ × Vfs). r.1) opened-open)
      (vfs_open-IsVfs (some (eep_path ++ (slash ∷ join names))) o_rdwr both both-IsVfs)

opened-At : At opened 0 eepfs_ops 0 0
opened-At = record {
  valid = opened-IsVfs;
  opened = record {
    inside = omega arith;
    busy = refl;
    with_ops = refl;
    with_file = refl;
    placed = omega arith;
  };
  position = refl;
}

-- The open file is written to at its start, and the position then set from its end.
abbrev written_to : Option ℕ × Vfs × (ℕ → ℕ)
written_to = vfs_write memory_hal 0 (104 ∷ 105 ∷ []) opened bytes

abbrev sought : Vfs
sought = (vfs_lseek 32 0 (negsuc 2) seek_end written_to.1).1

sought-Run : Run memory_hal sought written_to.2
sought-Run =
    let mounted =
      subst (λ v. Run memory_hal v bytes) (ap (λ (r : Bool × Vfs). r.1) both-mounts) both-Run in
    let path = some (eep_path ++ (slash ∷ join names)) in
    let open_run =
      subst (λ v. Run memory_hal v bytes) (ap (λ (r : Option ℕ × Vfs). r.1) opened-open)
        (after_open path o_rdwr mounted) in
    after_lseek 0 (negsuc 2) seek_end (after_write 0 (104 ∷ 105 ∷ []) open_run (omega arith))

-- Its descriptor is then in use, 3 bytes before the end of the file.
sought-fd : fd_at sought 0 ≡ record opened_fd { position = 7 }
unfolding vfs_lseek vfs_write open_file seek_to move int_pattern ops_write eepfs_write advance
    ops_size avrix.Romfs.clip
sought-fd = refl

Run-IsVfs_example : IsVfs sought
Run-IsVfs_example = Run-IsVfs sought-Run

-- With an `int` of 16 bits, 1 and 32767 make a negative one.
move_16 : move 16 1 (pos 32767) ≡ 0
unfolding move int_pattern
move_16 = refl

move_32 : move 32 1 (pos 32767) ≡ 32768
unfolding move int_pattern
move_32 = refl

reads_join_example :
    let first = vfs_read memory_hal 0 4 opened bytes in
    let second = vfs_read memory_hal 0 20 first.2 bytes in
    let whole = vfs_read memory_hal 0 24 opened bytes in
    ((n : ℕ) × (k : ℕ) × (first.0 ≡ some n) × (second.0 ≡ some k) × (whole.0 ≡ some (n + k)))
    × (first.1 ++ second.1 ≡ whole.1)
    × (second.2 ≡ whole.2)
reads_join_example =
    reads_join memory_hal memory_hal-IsEeprom opened 0 eepfs_ops 0 0 4 20 bytes opened-At
      (omega arith) (omega arith)

abbrev hello : List ℕ
hello = 104 ∷ 105 ∷ []

write-read_example :
    let written = vfs_write memory_hal 0 hello opened bytes in
    let sought = vfs_lseek 32 0 (pos 0) seek_set written.1 in
    let back = vfs_read memory_hal 0 2 sought.1 written.2 in
    (written.0 ≡ some 2) × (sought.0 ≡ some 0) × (back.0 ≡ some 2) × (back.1 ≡ hello)
unfolding ops_size
write-read_example =
    write-read memory_hal memory_hal-IsEeprom opened 0 0 0 hello bytes opened-At refl
      (omega arith, (omega arith, tt)) (omega arith) (omega arith)

before_eep :
    (j : ℕ) → j < 1 → mount_matches (eep_path ++ (slash ∷ join names)) (mount_at both j) ≡ false
unfolding mount_matches strncmp_equal
before_eep zero h = refl
before_eep (suc j) h = absurd (omega arith)

open_target-resolve_example :
    open_target (some (eep_path ++ (slash ∷ join names))) both
    ≡ with_operations eepfs_ops (resolve eepfs_tables 1 names)
open_target-resolve_example =
    open_target-resolve both 1 eepfs_ops names (omega arith) (λ e. absurd (ground arith)) refl refl
      before_eep names-IsName

abbrev rooted : Vfs
rooted = record both {
  mounts = (record { path = slash ∷ []; type = 1; ops = some romfs_ops }) ∷ replicate 3 no_mount;
}

rooted_all :
    (i : ℕ)
    → i < 4
    → ((mount_at rooted i).type ≡ vfs_type_none) ⊎ ((mount_at rooted i).path ≡ slash ∷ [])
rooted_all zero h = inr refl
rooted_all (suc i) h = inl (ap (λ (m : Mount). m.type) (get_or-replicate 3 i no_mount))
