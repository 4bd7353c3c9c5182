-- ===== src/Tree.antt =====
-- The directory trees of drivers/fs/romfs.c and drivers/fs/eepfs.c, and the walk along a path that
-- `romfs_open` and `eepfs_open` have in common. A C string is the list of its characters before
-- the NUL; a table in program memory is a list; a pointer into a table is an index.
pub mod Resolve
use avrix.Base.{
  leb, ◌==◌, if◌then◌else◌, length, get_or, take, ℕ, zero, suc, Bool, true, false, ◌&&◌, Option,
  none, some, List, [], ◌∷◌,
}

abbrev pub type_file : ℕ
type_file = 1

abbrev pub type_dir : ℕ
type_dir = 2

abbrev pub slash : ℕ
slash = 47

-- `romfs_entry_t` and `romfs_dir_t`
pub record Entry : Type 0 where
  pub name : List ℕ
  pub type : ℕ
  pub idx : ℕ

pub record Dir : Type 0 where
  pub entries : List Entry
  pub count : ℕ

-- The tables a walk reads: `dir_table`, the number of files in `file_table`, and `ROOT_DIR`.
pub record Tables : Type 0 where
  pub dir_table : List Dir
  pub file_count : ℕ
  pub root_dir : ℕ

abbrev pub no_dir : Dir
no_dir = record { entries = []; count = 0 }

unfoldable pub equal_p : List ℕ → List ℕ → Bool
equal_p [] [] = true
equal_p [] (c ∷ cs) = false
equal_p (c ∷ cs) [] = false
equal_p (c ∷ cs) (d ∷ ds) = c == d && equal_p cs ds

-- The segment at the front of a path, of at most `n` characters, and the rest of the path.
unfoldable pub segment : ℕ → List ℕ → List ℕ × List ℕ
segment zero p = ([], p)
segment (suc n) [] = ([], [])
segment (suc n) (c ∷ cs) =
    let (seg, rest) = segment n cs in if c == slash then ([], c ∷ cs) else (c ∷ seg, rest)

unfoldable pub skip_slash : List ℕ → List ℕ
skip_slash [] = []
skip_slash (c ∷ cs) = if c == slash then cs else c ∷ cs

-- The first entry of the given name.
unfoldable pub find_entry : List ℕ → List Entry → Option Entry
find_entry seg [] = none
find_entry seg (e ∷ es) =
    let later = find_entry seg es in if equal_p seg e.name then some e else later

-- `sizeof(seg) - 1`
abbrev pub seg_max : ℕ
seg_max = 11

-- What the search of one directory ends in: `NULL`, a file to return, or a directory to go on in.
pub data Step : Type 0 where
  stop : Step
  opens descends : (idx : ℕ) → Step

-- The body of the `for` loop at the entry it finds, where `rest` is the path after the segment.
unfoldable pub use_entry : Tables → List ℕ → Option Entry → Step
use_entry t rest none = stop
use_entry t rest (some e) =
    if length rest == 0 && e.type == type_file
    then (if leb t.file_count e.idx then stop else opens e.idx)
    else if e.type == type_dir
    then (if leb (length t.dir_table) e.idx then stop else descends e.idx)
    else stop

-- The `for` loop over the entries of directory `dir`.
abbrev pub lookup : Tables → ℕ → List ℕ → Option Entry
lookup t dir seg = let d = get_or t.dir_table dir no_dir in find_entry seg (take d.count d.entries)

-- The `while (*p)` loop from directory `dir` on, on fuel: the index of the file, if there is one.
unfoldable pub walk : Tables → ℕ → ℕ → List ℕ → Option ℕ
walk t zero dir p = none
walk t (suc fuel) dir [] = none
walk t (suc fuel) dir (c ∷ cs) =
    let split = segment seg_max (c ∷ cs) in
    let rest = skip_slash split.1 in
    elim (use_entry t rest (lookup t dir split.0)) [
      | stop ↦ none
      | opens idx ↦ some idx
      | descends idx ↦ walk t fuel idx rest
    ]

-- Each round takes a character at least, so the length of the path is fuel enough.
unfoldable pub open_path : Tables → List ℕ → Option ℕ
open_path t path = let p = skip_slash path in walk t (length p) t.root_dir p
