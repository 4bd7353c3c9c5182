-- ===== src/Vfs/Mounts.antt =====
-- The mounts of drivers/fs/vfs.c, and the files that paths below them lead to.
use avrix.Fs.Names.{present, absent, find_from_lem}
use avrix.Tree.Resolve.{open_path-resolve, resolve, join, IsName}
use native.Mathlib.Decide.{dec_lt}
use avrix.Eepfs.{eepfs_tables, eepfs_open}
use avrix.Tree.{slash, Tables}
use avrix.Romfs.{romfs_tables, romfs_open}
use avrix.Vfs.Calls.{vfs_open, open_target}
use avrix.Vfs.{
  eepfs_ops, romfs_ops, vfs_type_none, eepfs_open, mount_at, Mount, romfs_open, Vfs, find_mount,
  ops_open, mount_matches, Ops,
}
use avrix.Fs.{strncmp_equal}
use avrix.Base.{
  ==-false_of_ne, ==_refl, Option-cases, length, get_or, All, drop-append, ℕ, ◌≤◌, ◌<◌, ◌≡◌, refl,
  ap, ◌≢◌, ◌⊎◌, inl, inr, Bool, true, false, Option, none, some, List, [], ◌∷◌, ◌++◌, arith,
}

abbrev pub ops_tables : Ops → Tables
ops_tables romfs_ops = romfs_tables
ops_tables eepfs_ops = eepfs_tables

ops_open-resolve :
    (ops : Ops) (names : List (List ℕ))
    → All IsName names
    → ops_open ops (slash ∷ join names) ≡ resolve (ops_tables ops) (ops_tables ops).root_dir names
unfolding ops_open romfs_open eepfs_open
ops_open-resolve romfs_ops names h = (open_path-resolve romfs_tables names h).1
ops_open-resolve eepfs_ops names h = (open_path-resolve eepfs_tables names h).1

strncmp_equal-append : (xs ys : List ℕ) → strncmp_equal (length xs) (xs ++ ys) xs ≡ true
unfolding strncmp_equal
strncmp_equal-append [] ys = refl
strncmp_equal-append (x ∷ xs) ys = rw (==_refl x) (strncmp_equal-append xs ys)

get_or-append : (xs ys : List ℕ) (y d : ℕ) → get_or (xs ++ (y ∷ ys)) (length xs) d ≡ y
get_or-append [] ys y d = refl
get_or-append (x ∷ xs) ys y d = get_or-append xs ys y d

-- A mount point with a path below it.
mount_matches-below :
    (m : Mount) (rest : List ℕ)
    → m.type ≢ vfs_type_none
    → mount_matches (m.path ++ (slash ∷ rest)) m ≡ true
unfolding mount_matches
mount_matches-below m rest used =
    rw (==-false_of_ne m.type vfs_type_none used) (
      rw (strncmp_equal-append m.path (slash ∷ rest)) (rw (get_or-append m.path rest slash 0) refl))

-- The first index that passes a test is one.
first_hit :
    (test : ℕ → Bool) (k i : ℕ)
    → test k ≡ true
    → test i ≡ true
    → ((j : ℕ) → j < i → test j ≡ false)
    → ((j : ℕ) → 0 ≤ j → j < k → test j ≡ false)
    → k ≡ i
first_hit test k i hk hi earlier before = elim (dec_lt k i) [
  | yes below ↦ let miss = earlier k below in absurd (ground arith)
  | no above ↦ elim (dec_lt i k) [
    | yes later ↦ let miss = before i (omega arith) later in absurd (ground arith)
    | no same ↦ omega arith
  ]
]

get_or-rooted : (xs ys : List ℕ) → get_or xs 0 0 ≡ slash → get_or (xs ++ (slash ∷ ys)) 0 0 ≡ slash
get_or-rooted [] ys h = refl
get_or-rooted (x ∷ xs) ys h = h

find_mount-below :
    (v : Vfs) (i : ℕ) (rest : List ℕ)
    → i < 4
    → (mount_at v i).type ≢ vfs_type_none
    → get_or (mount_at v i).path 0 0 ≡ slash
    → let path = (mount_at v i).path ++ (slash ∷ rest) in
      ((j : ℕ) → j < i → mount_matches path (mount_at v j) ≡ false)
      → find_mount (some path) v ≡ some (i, slash ∷ rest)
unfolding find_mount
find_mount-below v i rest low used rooted earlier =
    let path = (mount_at v i).path ++ (slash ∷ rest) in
    let front = get_or-rooted (mount_at v i).path rest rooted in
    let hit = mount_matches-below (mount_at v i) rest used in
    rw (front, find_mount)
      (elim (find_from_lem (λ j. mount_matches path (mount_at v j)) 4 0 4 refl) [
        | absent missing all ↦ let miss = all i (omega arith) low in absurd (ground arith)
        | present k found above below hit_k before ↦
            let same : k ≡ i =
              first_hit (λ j. mount_matches path (mount_at v j)) k i hit_k hit earlier before in
            rw found
              (rw same (ap (λ xs. some (i, xs)) (drop-append (mount_at v i).path (slash ∷ rest))))
      ])

unfoldable pub with_operations : Ops → Option ℕ → Option (Ops × ℕ)
with_operations ops none = none
with_operations ops (some f) = some (ops, f)

-- Opening a path below a mount point resolves the names after it in the mount's file system. The
-- mount is in use, its path starts with a slash and no mount before it matches the path; the names
-- are not empty, have no slash, and have at most eleven characters each.
pub open_target-resolve :
    (v : Vfs) (i : ℕ) (ops : Ops) (names : List (List ℕ))
    → i < 4
    → (mount_at v i).type ≢ vfs_type_none
    → (mount_at v i).ops ≡ some ops
    → get_or (mount_at v i).path 0 0 ≡ slash
    → ((j : ℕ)
        → j < i
        → mount_matches ((mount_at v i).path ++ (slash ∷ join names)) (mount_at v j) ≡ false)
    → All IsName names
    → open_target (some ((mount_at v i).path ++ (slash ∷ join names))) v
      ≡ with_operations ops (resolve (ops_tables ops) (ops_tables ops).root_dir names)
unfolding open_target with_operations
open_target-resolve v i ops names low used with_ops rooted earlier h =
    rw (find_mount-below v i (join names) low used rooted earlier, open_target)
      (rw with_ops (
        rw (ops_open-resolve ops names h)
          (elim (Option-cases (resolve (ops_tables ops) (ops_tables ops).root_dir names)) [
            | inl missing ↦ rw missing refl
            | inr (f, found) ↦ rw found refl
          ])))

root-misses :
    (m : Mount) (c : ℕ) (cs : List ℕ)
    → c ≢ slash
    → m.path ≡ slash ∷ []
    → mount_matches (slash ∷ (c ∷ cs)) m ≡ false
unfolding mount_matches
root-misses m c cs ne e = rw (e, mount_matches) (rw (==-false_of_ne c slash ne) (ground arith))

unused-misses : (m : Mount) (path : List ℕ) → m.type ≡ vfs_type_none → mount_matches path m ≡ false
unfolding mount_matches
unused-misses m path e = rw (e, mount_matches) refl

-- A file system mounted at the root gives no file below it: where each mount in use has the path of
-- one slash, `vfs_open` returns -1 and changes nothing on every path that goes on after its slash
-- with a character that is not a slash.
pub root_mount :
    (v : Vfs) (flags c : ℕ) (cs : List ℕ)
    → c ≢ slash
    → ((i : ℕ) → i < 4 → ((mount_at v i).type ≡ vfs_type_none) ⊎ ((mount_at v i).path ≡ slash ∷ []))
    → vfs_open (some (slash ∷ (c ∷ cs))) flags v ≡ (none, v)
unfolding vfs_open open_target find_mount
root_mount v flags c cs ne roots =
    elim (find_from_lem (λ i. mount_matches (slash ∷ (c ∷ cs)) (mount_at v i)) 4 0 4 refl) [
      | absent missing all ↦ rw (missing, vfs_open) (ground arith)
      | present k found above below hit before ↦ absurd (elim (roots k below) [
        | inl unused ↦
            let miss = unused-misses (mount_at v k) (slash ∷ (c ∷ cs)) unused in ground arith
        | inr root ↦ let miss = root-misses (mount_at v k) c cs ne root in ground arith
      ])
    ]
