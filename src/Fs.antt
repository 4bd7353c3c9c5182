-- ===== src/Fs.antt =====
-- src/fs.c and include/fs.h: the TinyFS file system in memory.
-- A C string is the list of its characters before the NUL. Returned with a result is the new state.
pub mod Io
pub mod Names
pub mod Directory
pub mod Updates
pub mod Calls
pub mod Data
pub mod Files
pub mod Ends
mod Tests
use avrix.Base.{
  leb, ◌==◌, if◌then◌else◌, length, get_or, set, take, replicate, u8, ℕ, zero, suc, ◌+◌, ◌-◌, ◌/◌,
  ◌%◌, ◌^◌, bit_and, bit_or, Bool, true, false, not, ◌&&◌, ◌||◌, Option, none, some, List, [], ◌∷◌,
}

abbrev pub fs_block_size : ℕ
fs_block_size = 32

abbrev pub fs_num_blocks : ℕ
fs_num_blocks = 16

abbrev pub fs_num_inodes : ℕ
fs_num_inodes = 16

abbrev pub fs_max_name : ℕ
fs_max_name = 14

-- `dinode_t`, with `addrs` as a list of four, and `file_t`
pub record Inode : Type 0 where
  pub type : ℕ
  pub nlink : ℕ
  pub size : ℕ
  pub addrs : List ℕ

pub record File : Type 0 where
  pub inum : ℕ
  pub off : ℕ

-- The variables of the file.
pub record Fs : Type 0 where
  pub disk : List (List ℕ)
  pub bitmap : List ℕ
  pub inodes : List Inode
  pub dir_name : List (List ℕ)

-- A result of `fs_create`: a negative code, or the number of an inode.
pub data Created : Type 0 where
  einval eexist no_inode : Created
  created : (inum : ℕ) → Created

abbrev pub blank : Inode
blank = record { type = 0; nlink = 0; size = 0; addrs = replicate 4 0 }

abbrev pub inode_at : Fs → ℕ → Inode
inode_at fs i = get_or fs.inodes i blank

abbrev pub name_at : Fs → ℕ → List ℕ
name_at fs i = get_or fs.dir_name i []

-- The first index that passes a loop's test, among `n` from `i` on.
unfoldable pub find_from : (ℕ → Bool) → ℕ → ℕ → Option ℕ
find_from test zero i = none
find_from test (suc n) i = let later = find_from test n (i + 1) in if test i then some i else later

-- `strcmp(a, b) == 0` and `strncmp(a, b, n) == 0`
unfoldable pub strcmp_equal : List ℕ → List ℕ → Bool
strcmp_equal [] [] = true
strcmp_equal [] (y ∷ ys) = false
strcmp_equal (x ∷ xs) [] = false
strcmp_equal (x ∷ xs) (y ∷ ys) = x == y && strcmp_equal xs ys

unfoldable pub strncmp_equal : ℕ → List ℕ → List ℕ → Bool
strncmp_equal zero xs ys = true
strncmp_equal (suc n) [] [] = true
strncmp_equal (suc n) [] (y ∷ ys) = false
strncmp_equal (suc n) (x ∷ xs) [] = false
strncmp_equal (suc n) (x ∷ xs) (y ∷ ys) = x == y && strncmp_equal n xs ys

unfoldable pub balloc : Fs → Option (ℕ × Fs)
balloc fs =
    let clear = λ (i : ℕ). bit_and (get_or fs.bitmap (i / 8) 0) (2 ^ (i % 8)) == 0 in
    elim (find_from clear fs_num_blocks 0) [
      | none ↦ none
      | some i ↦ some (
        i,
        record fs {
          bitmap = set fs.bitmap (i / 8) (bit_or (get_or fs.bitmap (i / 8) 0) (2 ^ (i % 8)));
          disk = set fs.disk i (replicate fs_block_size 0);
        },
      )
    ]

unfoldable pub bfree : ℕ → Fs → Fs
bfree b fs = record fs {
  bitmap = set fs.bitmap (b / 8) (bit_and (get_or fs.bitmap (b / 8) 0) (255 - 2 ^ (b % 8)));
}

unfoldable pub ialloc : ℕ → Fs → Option (ℕ × Fs)
ialloc type fs = elim (find_from (λ i. (inode_at fs i).type == 0) fs_num_inodes 0) [
  | none ↦ none
  | some i ↦
      let d : Inode = record { type = type; nlink = 1; size = 0; addrs = replicate 4 0 } in
      some (i, record fs { inodes = set fs.inodes i d })
]

unfoldable pub fs_init : Fs
fs_init = record {
  disk = replicate fs_num_blocks (replicate fs_block_size 0);
  bitmap = replicate 2 0;
  inodes = set (replicate fs_num_inodes blank) 0 (record blank { type = 2 });
  dir_name = set (replicate fs_num_inodes []) 0 (47 ∷ []);
}

-- The inode whose name is compared with `strcmp`, and with `strncmp`.
unfoldable pub find_strcmp : List ℕ → Fs → Option ℕ
find_strcmp name fs =
    find_from (λ i. not ((inode_at fs i).type == 0) && strcmp_equal (name_at fs i) name)
      fs_num_inodes 0

unfoldable pub find_strncmp : List ℕ → Fs → Option ℕ
find_strncmp name fs =
    find_from
      (λ i. not ((inode_at fs i).type == 0) && strncmp_equal fs_max_name (name_at fs i) name)
      fs_num_inodes 0

unfoldable pub install : List ℕ → ℕ → Fs → Created × Fs
install name type fs = elim (ialloc type fs) [
  | none ↦ (no_inode, fs)
  | some (i, fs') ↦
      (created i, record fs' { dir_name = set fs'.dir_name i (take fs_max_name name) })
]

-- `strnlen(name, FS_MAX_NAME)` is the length, or 14 if that is less.
unfoldable pub fs_create : Option (List ℕ) → ℕ → Fs → Created × Fs
fs_create none type fs = (einval, fs)
fs_create (some name) type fs =
    if length name == 0 || leb fs_max_name (length name)
    then (einval, fs)
    else elim (find_strcmp name fs) [ some i ↦ (eexist, fs) | none ↦ install name type fs ]

unfoldable pub fs_open : List ℕ → Fs → Option File
fs_open name fs = elim (find_strncmp name fs) [
  | none ↦ none
  | some i ↦ some (record { inum = i; off = 0 })
]

-- The blocks of an inode that are given back.
unfoldable pub free_blocks : List ℕ → Fs → Fs
free_blocks [] fs = fs
free_blocks (b ∷ bs) fs = free_blocks bs (if b == 0 then fs else bfree (u8 b) fs)

-- Whether it returned 0, in place of -1.
unfoldable pub fs_unlink : Option (List ℕ) → Fs → Bool × Fs
fs_unlink none fs = (false, fs)
fs_unlink (some name) fs = elim (find_strncmp name fs) [
  | none ↦ (false, fs)
  | some i ↦
      let freed = free_blocks (inode_at fs i).addrs fs in
      (true, record freed { inodes = set freed.inodes i blank; dir_name = set freed.dir_name i [] })
]
