-- ===== src/Vfs.antt =====
-- drivers/fs/vfs.c and drivers/fs/vfs.h: mount points and file descriptors over the file systems
-- of drivers/fs/romfs.c and drivers/fs/eepfs.c, both configured. A path that may be `NULL` is an
-- `Option`; a returned -1 is `none`. Returned with a result is the new state.
pub mod Calls
pub mod Positions
pub mod Run
pub mod Transfer
pub mod Reading
pub mod Mounts
mod Tests
use avrix.Eepfs.{eepfs_open, eepfs_file_at}
use avrix.Tree.{slash}
use avrix.Fs.{strncmp_equal, strcmp_equal, find_from}
use avrix.Romfs.{romfs_open, file_at}
use avrix.Base.{
  leb, ◌==◌, if◌then◌else◌, length, get_or, set, take, drop, replicate, ℕ, Bool, true, false, not,
  ◌&&◌, ◌||◌, Option, none, some, List, [],
}

abbrev pub vfs_max_mounts : ℕ
vfs_max_mounts = 4

abbrev pub vfs_max_fds : ℕ
vfs_max_fds = 8

abbrev pub vfs_type_none : ℕ
vfs_type_none = 0

abbrev pub vfs_type_romfs : ℕ
vfs_type_romfs = 1

abbrev pub vfs_type_eepfs : ℕ
vfs_type_eepfs = 2

abbrev pub o_rdonly : ℕ
o_rdonly = 0

abbrev pub o_wronly : ℕ
o_wronly = 1

abbrev pub o_rdwr : ℕ
o_rdwr = 2

abbrev pub seek_set : ℕ
seek_set = 0

abbrev pub seek_cur : ℕ
seek_cur = 1

abbrev pub seek_end : ℕ
seek_end = 2

-- A pointer to one of the tables of operations.
pub data Ops : Type 0 where
  romfs_ops eepfs_ops : Ops

-- `vfs_mount_t`, `vfs_fd_t` and `vfs_state`; a pointer to a file is its index in the table of its
-- file system.
pub record Mount : Type 0 where
  pub path : List ℕ
  pub type : ℕ
  pub ops : Option Ops

pub record Fd : Type 0 where
  pub fs_file : Option ℕ
  pub ops : Option Ops
  pub position : ℕ
  pub flags : ℕ
  pub in_use : Bool

pub record Vfs : Type 0 where
  pub mounts : List Mount
  pub fds : List Fd
  pub initialized : Bool

-- `vfs_stat_t` and `vfs_stats_t`
pub record VfsStat : Type 0 where
  pub size : ℕ
  pub type : ℕ
  pub flags : ℕ

pub record VfsStats : Type 0 where
  pub mounts_used : ℕ
  pub mounts_total : ℕ
  pub fds_used : ℕ
  pub fds_total : ℕ

abbrev pub no_mount : Mount
no_mount = record { path = []; type = vfs_type_none; ops = none }

abbrev pub no_fd : Fd
no_fd = record { fs_file = none; ops = none; position = 0; flags = 0; in_use = false }

abbrev pub mount_at : Vfs → ℕ → Mount
mount_at v i = get_or v.mounts i no_mount

abbrev pub fd_at : Vfs → ℕ → Fd
fd_at v fd = get_or v.fds fd no_fd

unfoldable pub get_ops : ℕ → Option Ops
get_ops type =
    if type == vfs_type_romfs
    then some romfs_ops
    else if type == vfs_type_eepfs
    then some eepfs_ops
    else none

-- The entries `.open` and `.size` of a table of operations.
unfoldable pub ops_open : Ops → List ℕ → Option ℕ
ops_open romfs_ops path = romfs_open path
ops_open eepfs_ops path = eepfs_open path

unfoldable pub ops_size : Ops → ℕ → ℕ
ops_size romfs_ops f = (file_at f).size
ops_size eepfs_ops f = (eepfs_file_at f).size

-- Whether the mount point is a prefix of the path that ends where a component ends.
unfoldable pub mount_matches : List ℕ → Mount → Bool
mount_matches path m =
    not (m.type == vfs_type_none)
    && (strncmp_equal (length m.path) path m.path
        && (get_or path (length m.path) 0 == slash || leb (length path) (length m.path)))

-- The index of the mount and the rest of the path.
unfoldable pub find_mount : Option (List ℕ) → Vfs → Option (ℕ × List ℕ)
find_mount none v = none
find_mount (some path) v =
    if not (get_or path 0 0 == slash)
    then none
    else elim (find_from (λ i. mount_matches path (mount_at v i)) vfs_max_mounts 0) [
      | none ↦ none
      | some i ↦ some (i, drop (length (mount_at v i).path) path)
    ]

unfoldable pub alloc_fd : Vfs → Option ℕ
alloc_fd v = find_from (λ i. not (fd_at v i).in_use) vfs_max_fds 0

unfoldable pub vfs_init : Vfs
vfs_init = record {
  mounts = replicate vfs_max_mounts no_mount;
  fds = replicate vfs_max_fds no_fd;
  initialized = true;
}

-- Whether slot `i` is in use under exactly the path.
unfoldable pub mounted_at : List ℕ → Vfs → ℕ → Bool
mounted_at path v i =
    let m = mount_at v i in not (m.type == vfs_type_none) && strcmp_equal m.path path

-- The second loop of `vfs_mount`.
unfoldable pub place_mount : ℕ → List ℕ → Ops → Vfs → Bool × Vfs
place_mount type path ops v =
    elim (find_from (λ i. (mount_at v i).type == vfs_type_none) vfs_max_mounts 0) [
      | none ↦ (false, v)
      | some i ↦
          let m : Mount = record { path = take 15 path; type = type; ops = some ops } in
          (true, record v { mounts = set v.mounts i m })
    ]

-- Whether it returned 0, in place of -1; so for `vfs_unmount` and `vfs_close`.
unfoldable pub vfs_mount : ℕ → Option (List ℕ) → Vfs → Bool × Vfs
vfs_mount type none v = (false, v)
vfs_mount type (some path) v =
    if not v.initialized || not (get_or path 0 0 == slash)
    then (false, v)
    else elim (get_ops type) [
      | none ↦ (false, v)
      | some ops ↦ elim (find_from (mounted_at path v) vfs_max_mounts 0) [
        | some i ↦ (false, v)
        | none ↦ place_mount type path ops v
      ]
    ]

unfoldable pub same_ops : Option Ops → Option Ops → Bool
same_ops none none = true
same_ops none (some o) = false
same_ops (some o) none = false
same_ops (some romfs_ops) (some romfs_ops) = true
same_ops (some romfs_ops) (some eepfs_ops) = false
same_ops (some eepfs_ops) (some romfs_ops) = false
same_ops (some eepfs_ops) (some eepfs_ops) = true

-- Whether a descriptor has the operations of mount `i`.
unfoldable pub uses_mount : Vfs → ℕ → ℕ → Bool
uses_mount v i fd = (fd_at v fd).in_use && same_ops (fd_at v fd).ops (mount_at v i).ops

unfoldable pub vfs_unmount : Option (List ℕ) → Vfs → Bool × Vfs
vfs_unmount none v = (false, v)
vfs_unmount (some path) v =
    if not v.initialized
    then (false, v)
    else elim (find_from (mounted_at path v) vfs_max_mounts 0) [
      | none ↦ (false, v)
      | some i ↦ elim (find_from (uses_mount v i) vfs_max_fds 0) [
        | some fd ↦ (false, v)
        | none ↦ (true, record v { mounts = set v.mounts i no_mount })
      ]
    ]
