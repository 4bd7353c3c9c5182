-- ===== src/Fs/Calls.antt =====
-- `fs_init`, `fs_create`, `fs_open` and `fs_unlink` of src/fs.c against the directory as a map.
use avrix.Fs.Updates.{names_here, find_same, Entry-old}
use avrix.Fs.Names.{absent, present}
use avrix.Fs.Names.{find_from_lem, Found}
use avrix.Fs.Updates.{types_here, Entry-new, changed-IsFs, get_or-set, Changed}
use avrix.Fs.Directory.{find_none, find-Entry, strcmp-cases, Entry, find-cases, IsFs}
use avrix.Fs.{
  name_at, fs_init, find_from, created, Inode, no_inode, blank, eexist, find_strncmp, Created,
  bfree, ialloc, inode_at, fs_unlink, free_blocks, Fs, fs_create, fs_open, install, File,
}
use native.Mathlib.Decide.{ℕ_discrete}
use avrix.Base.{
  leb, ◌==◌, Bool-cases, length, get_or, set, replicate, length-set, take_all, u8, ℕ, zero, suc,
  ◌<◌, ◌≡◌, refl, sym, ap, ◌∙◌, ◌≢◌, inl, inr, true, false, ◌||◌, Option, none, some, List, [], ◌∷◌,
  arith,
}

abbrev pub handle : ℕ → File
handle i = record { inum = i; off = 0 }

fs_open-Entry :
    (fs : Fs) (v : IsFs fs) (name : List ℕ) (i : ℕ)
    → Entry fs i name
    → fs_open name fs ≡ some (handle i)
unfolding fs_open
fs_open-Entry fs v name i e = rw (find-Entry fs v name i e, fs_open) refl

fs_open-none :
    (fs : Fs) (v : IsFs fs) (name : List ℕ)
    → ((i : ℕ) → Entry fs i name → ⊥)
    → fs_open name fs ≡ none
unfolding fs_open
fs_open-none fs v name no_entry = rw (find_none fs v name no_entry, fs_open) refl

fs_open-find :
    (fs fs' : Fs) (name : List ℕ)
    → find_strncmp name fs' ≡ find_strncmp name fs
    → fs_open name fs' ≡ fs_open name fs
unfolding fs_open
fs_open-find fs fs' name e = rw (e, fs_open) refl

-- What `fs_create` does for a name of 1 to 13 characters and a type that is not 0.
pub data Outcome (name : List ℕ) (fs : Fs) (result : Created × Fs) : Type 0 where
  taken :
      (i : ℕ) → fs_open name fs ≡ some (handle i) → result ≡ (eexist, fs) → Outcome name fs result
  full :
      fs_open name fs ≡ none
      → ((i : ℕ) → i < 16 → 0 < (inode_at fs i).type)
      → result ≡ (no_inode, fs)
      → Outcome name fs result
  added :
      (i : ℕ) (fs' : Fs)
      → fs_open name fs ≡ none
      → result ≡ (created i, fs')
      → IsFs fs'
      → fs_open name fs' ≡ some (handle i)
      → ((other : List ℕ) → other ≢ name → fs_open other fs' ≡ fs_open other fs)
      → Outcome name fs result

-- The state after inode `i`, which was free, got a type and a name.
abbrev installed : Fs → ℕ → ℕ → List ℕ → Fs
installed fs i type name = record fs {
  inodes = set fs.inodes i (record { type = type; nlink = 1; size = 0; addrs = replicate 4 0 });
  dir_name = set fs.dir_name i name;
}

installed-Changed :
    (fs : Fs) (i type : ℕ) (name : List ℕ)
    → IsFs fs
    → i < 16
    → Changed fs (installed fs i type name) i type name
installed-Changed fs i type name v h =
    let n = v.inode_count in
    let m = v.name_count in
    let d : Inode = record { type = type; nlink = 1; size = 0; addrs = replicate 4 0 } in
    record {
      inode_count = length-set fs.inodes i d;
      name_count = length-set fs.dir_name i name;
      types = λ j. ground (arith, get_or-set fs.inodes i j d blank (omega arith));
      names = λ j. get_or-set fs.dir_name i j name [] (omega arith);
    }

installed-Outcome :
    (fs : Fs) (i type : ℕ) (name : List ℕ)
    → IsFs fs
    → 0 < length name
    → length name < 14
    → 0 < type
    → ((j : ℕ) → Entry fs j name → ⊥)
    → i < 16
    → (inode_at fs i).type ≡ 0
    → Outcome name fs (created i, installed fs i type name)
installed-Outcome fs i type name v some_chars short busy no_entry h idle =
    let fs' = installed fs i type name in
    let c = installed-Changed fs i type name v h in
    let v' = changed-IsFs fs fs' i type name c v (λ b. short) (λ b. some_chars) (λ b. no_entry) in
    added i fs' (fs_open-none fs v name no_entry) refl v'
      (fs_open-Entry fs' v' name i (Entry-new fs fs' i type name c h busy))
      (λ other ne. fs_open-find fs fs' other (
        find_same fs fs' i type name c v v' other (λ e. let b = e.in_use in omega arith)
          (λ e. ne (sym e.named ∙ names_here fs fs' i type name c))))

create_free :
    (fs : Fs) (type : ℕ) (name : List ℕ)
    → IsFs fs
    → 0 < length name
    → length name < 14
    → 0 < type
    → ((j : ℕ) → Entry fs j name → ⊥)
    → {result : Option ℕ} → Found (λ i. (inode_at fs i).type == 0) 0 16 result
    → find_from (λ i. (inode_at fs i).type == 0) 16 0 ≡ result
    → Outcome name fs (install name type fs)
unfolding install ialloc
create_free fs type name v some_chars short busy no_entry (absent r all) e =
    rw (e ∙ r, install, ialloc)
      (full (fs_open-none fs v name no_entry)
        (λ i h. let used = all i (omega arith) h in ground arith) refl)
create_free fs type name v some_chars short busy no_entry (present i r low h free before) e =
    rw (e ∙ r, install, ialloc, take_all 14 name (omega arith))
      (installed-Outcome fs i type name v some_chars short busy no_entry h (ground arith))

-- With a directory in order, a name of 1 to 13 characters and a type that is not 0, `fs_create`
-- refuses the name with EEXIST where `fs_open` finds it, and with -1 where all inodes are in use;
-- otherwise the name is opened as the inode that is returned, every other name as before, and the
-- directory is in order.
pub fs_create_lem :
    (fs : Fs) (name : List ℕ) (type : ℕ)
    → IsFs fs
    → 0 < length name
    → length name < 14
    → 0 < type
    → Outcome name fs (fs_create (some name) type fs)
unfolding fs_create
fs_create_lem fs name type v some_chars short busy =
    let fits : (length name == 0 || leb 14 (length name)) ≡ false = ground arith in
    elim (strcmp-cases fs name) [
      | inl (i, e, found) ↦ rw (fits, found) (taken i (fs_open-Entry fs v name i e) refl)
      | inr (missing, no_entry) ↦
          rw (fits, missing)
            (create_free fs type name v some_chars short busy no_entry
              (find_from_lem (λ i. (inode_at fs i).type == 0) 16 0 16 (omega arith)) refl)
    ]

free_blocks-keep :
    (bs : List ℕ) (fs : Fs)
    → ((free_blocks bs fs).inodes ≡ fs.inodes) × ((free_blocks bs fs).dir_name ≡ fs.dir_name)
unfolding free_blocks bfree
free_blocks-keep [] fs = (refl, refl)
free_blocks-keep (b ∷ bs) fs = elim (Bool-cases (b == 0)) [
  | inl e ↦ rw (e, free_blocks) (free_blocks-keep bs fs)
  | inr e ↦ rw (e, free_blocks) (free_blocks-keep bs (bfree (u8 b) fs))
]

abbrev removed : Fs → ℕ → Fs
removed fs i =
    let freed = free_blocks (inode_at fs i).addrs fs in
    record freed { inodes = set freed.inodes i blank; dir_name = set freed.dir_name i [] }

removed-Changed : (fs : Fs) (i : ℕ) → IsFs fs → i < 16 → Changed fs (removed fs i) i 0 []
removed-Changed fs i v h =
    let n = v.inode_count in
    let m = v.name_count in
    let (same, same') = free_blocks-keep (inode_at fs i).addrs fs in
    record {
      inode_count = rw same (length-set fs.inodes i blank);
      name_count = rw same' (length-set fs.dir_name i []);
      types = λ j. rw same (ground (arith, get_or-set fs.inodes i j blank blank (omega arith)));
      names = λ j. rw same' (get_or-set fs.dir_name i j [] [] (omega arith));
    }

-- With a directory in order, `fs_unlink` of a name that `fs_open` finds returns 0; the name is
-- then not found any more, every other name is opened as before, and the directory is in order.
pub fs_unlink_lem :
    (fs : Fs) (name other : List ℕ) (f : File)
    → IsFs fs
    → fs_open name fs ≡ some f
    → other ≢ name
    → (fs' : Fs) × (fs_unlink (some name) fs ≡ (true, fs'))
      × IsFs fs'
      × (fs_open name fs' ≡ none)
      × (fs_open other fs' ≡ fs_open other fs)
unfolding fs_unlink
fs_unlink_lem fs name other f v opened ne = elim (find-cases fs v name) [
  | inl (i, e, found) ↦
      let fs' = removed fs i in
      let c = removed-Changed fs i v e.inside in
      let v' =
        changed-IsFs fs fs' i 0 [] c v (λ b. absurd (omega arith)) (λ b. absurd (omega arith))
          (λ b. absurd (omega arith)) in
      let idle = types_here fs fs' i 0 [] c in
      (
        fs',
        rw (found, fs_unlink) refl,
        v',
        fs_open-none fs' v' name (λ j e'. elim (ℕ_discrete i j) [
          | yes same ↦
              let b = e'.in_use in
              let idle' : (inode_at fs' j).type ≡ 0 =
                ap (λ k. (inode_at fs' k).type) (sym same) ∙ idle in
              omega (arith, idle')
          | no other_inode ↦
              let e'' = Entry-old fs fs' i 0 [] c j name other_inode e' in
              other_inode
                (v.unique i j e.inside e''.inside e.in_use e''.in_use (e.named ∙ sym e''.named))
        ]),
        fs_open-find fs fs' other (
            find_same fs fs' i 0 [] c v v' other (λ e'. ne (sym e'.named ∙ e.named))
              (λ e'. let b = e'.in_use in omega (arith, idle))),
      )
  | inr (missing, no_entry) ↦ cc (opened, fs_open-none fs v name no_entry)
]

get_or-replicate : (n i : ℕ) → get_or (replicate n blank) i blank ≡ blank
get_or-replicate zero i = refl
get_or-replicate (suc n) zero = refl
get_or-replicate (suc n) (suc i) = get_or-replicate n i

-- After `fs_init` the directory is in order, and no name but that of the root, a slash, is found.
pub fs_init_lem : (name : List ℕ) → name ≢ 47 ∷ [] → IsFs fs_init × (fs_open name fs_init ≡ none)
unfolding fs_init
fs_init_lem name ne =
    (v, fs_open-none fs_init v name (λ i e. ne (sym e.named ∙ root_name i e.in_use)))
  where
    root_only : (i : ℕ) → 0 < (inode_at fs_init i).type → i ≡ 0
    root_only i busy = elim (ℕ_discrete 0 i) [ yes e ↦ sym e | no ne ↦ absurd (unused i ne busy) ]
      where
        unused : (i : ℕ) → 0 ≢ i → 0 < (inode_at fs_init i).type → ⊥
        unused zero ne busy = ne refl
        unused (suc i) ne busy =
            let e = get_or-replicate 15 i in omega (arith, ap (λ u. Inode.type u) e)

    root_name : (i : ℕ) → 0 < (inode_at fs_init i).type → name_at fs_init i ≡ 47 ∷ []
    root_name i busy = rw (root_only i busy) refl

    v : IsFs fs_init
    v = record {
      inode_count = refl;
      name_count = refl;
      short = λ i h busy. rw (root_name i busy) (omega arith);
      some_name = λ i h busy. rw (root_name i busy) (omega arith);
      unique = λ i j hi hj bi bj e. root_only i bi ∙ sym (root_only j bj);
    }
