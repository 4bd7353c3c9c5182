-- ===== src/Vfs/Run.antt =====
-- Sequences of calls of drivers/fs/vfs.c, from `vfs_init` on.
use avrix.Tree.{slash}
use avrix.Fs.{find_from}
use avrix.Vfs.Positions.{
  ops_write-clip, advance-IsVfs, at_position-IsVfs, ops_size-bound, clip-Opened, vfs_close-IsVfs,
  ops_read-clip, open_file_lem, Opened, vfs_open-IsVfs, IsFd, Fits, IsVfs,
}
use avrix.Vfs.Calls.{
  stat_opened, vfs_close, vfs_open, vfs_read, ℤ, vfs_write, vfs_stat, vfs_lseek, seek_to,
}
use avrix.Eepfs.{eepfs_format, Hal}
use avrix.Vfs.{
  o_rdwr, seek_end, vfs_max_mounts, no_mount, o_wronly, vfs_type_none, seek_cur, uses_mount, fd_at,
  get_ops, mount_at, mounted_at, o_rdonly, no_fd, seek_set, ops_size, slash, find_from, Ops, Vfs,
  vfs_mount, place_mount, vfs_init, vfs_unmount,
}
use mathlib.Core.Path.{subst}
use avrix.Base.{
  ◌==◌, Bool-cases, Option-cases, length, get_or, replicate, length-set, u16, ℕ, zero, suc, bit_and,
  ◌≡◌, refl, sym, ◌∙◌, inl, inr, not, ◌&&◌, ◌||◌, Option, none, some, List, arith,
}

seek_to-IsVfs :
    (v : Vfs) (fd : ℕ) (ops : Ops) (f new_pos : ℕ)
    → IsVfs v
    → Opened v fd ops f
    → IsVfs (seek_to fd new_pos (ops_size ops f) v).1
unfolding seek_to
seek_to-IsVfs v fd ops f new_pos w o =
    let end = ops_size-bound ops f in at_position-IsVfs v fd ops f _ w o (omega arith)

vfs_lseek-IsVfs :
    (int_bits fd : ℕ) (offset : ℤ) (whence : ℕ) (v : Vfs)
    → IsVfs v
    → IsVfs (vfs_lseek int_bits fd offset whence v).1
unfolding vfs_lseek
vfs_lseek-IsVfs int_bits fd offset whence v w = elim (open_file_lem v fd w) [
  | inl closed ↦ rw (closed, vfs_lseek) w
  | inr (ops, f, e, o) ↦
      rw (e, vfs_lseek)
        (elim (Bool-cases (whence == seek_set)) [
          | inl is_set ↦ rw is_set (seek_to-IsVfs v fd ops f _ w o)
          | inr not_set ↦ rw not_set (elim (Bool-cases (whence == seek_cur)) [
            | inl is_cur ↦ rw is_cur (seek_to-IsVfs v fd ops f _ w o)
            | inr not_cur ↦ rw not_cur (elim (Bool-cases (whence == seek_end)) [
              | inl is_end ↦ rw is_end (seek_to-IsVfs v fd ops f _ w o)
              | inr unknown ↦ rw unknown w
            ])
          ])
        ])
]

-- Calls on mounts leave the descriptors.
place_mount-IsVfs :
    (type : ℕ) (path : List ℕ) (ops : Ops) (v : Vfs)
    → IsVfs v
    → IsVfs (place_mount type path ops v).1
unfolding place_mount
place_mount-IsVfs type path ops v w =
    elim (Option-cases (find_from (λ i. (mount_at v i).type == vfs_type_none) vfs_max_mounts 0)) [
      | inl full ↦ rw (full, place_mount) w
      | inr (i, free) ↦
          rw (free, place_mount)
            (record {
              mount_count = length-set v.mounts i _ ∙ w.mount_count;
              fd_count = w.fd_count;
              files = w.files;
            })
    ]

vfs_mount-IsVfs :
    (type : ℕ) (path : Option (List ℕ)) (v : Vfs) → IsVfs v → IsVfs (vfs_mount type path v).1
unfolding vfs_mount
vfs_mount-IsVfs type none v w = w
vfs_mount-IsVfs type (some path) v w =
    elim (Bool-cases (not v.initialized || not (get_or path 0 0 == slash))) [
      | inl refused ↦ rw refused w
      | inr allowed ↦ rw allowed (elim (Option-cases (get_ops type)) [
        | inl unknown ↦ rw unknown w
        | inr (ops, known) ↦ rw known (elim (Option-cases (find_from (mounted_at path v) 4 0)) [
          | inl fresh ↦ rw fresh (place_mount-IsVfs type path ops v w)
          | inr (i, taken) ↦ rw taken w
        ])
      ])
    ]

vfs_unmount-IsVfs : (path : Option (List ℕ)) (v : Vfs) → IsVfs v → IsVfs (vfs_unmount path v).1
unfolding vfs_unmount
vfs_unmount-IsVfs none v w = w
vfs_unmount-IsVfs (some path) v w = elim (Bool-cases (not v.initialized)) [
  | inl fresh ↦ rw fresh w
  | inr ready ↦ rw ready (elim (Option-cases (find_from (mounted_at path v) 4 0)) [
    | inl missing ↦ rw missing w
    | inr (i, found) ↦ rw found (elim (Option-cases (find_from (uses_mount v i) 8 0)) [
      | inr (fd, busy) ↦ rw busy w
      | inl idle ↦ rw idle (record {
        mount_count = length-set v.mounts i no_mount ∙ w.mount_count;
        fd_count = w.fd_count;
        files = w.files;
      })
    ])
  ])
]

module _ {M : Type 0} (hal : Hal M) where
  vfs_read-IsVfs :
      (fd count : ℕ) (v : Vfs) (m : M)
      → Fits hal (u16 count)
      → IsVfs v
      → IsVfs (vfs_read hal fd count v m).2
  unfolding vfs_read
  vfs_read-IsVfs fd count v m fits w = elim (open_file_lem v fd w) [
    | inl closed ↦ rw (closed, vfs_read) w
    | inr (ops, f, e, o) ↦
        let n =
          ops_read-clip hal ops f (fd_at v fd).position (u16 count) m
          ∙ clip-Opened hal v fd ops f (u16 count) o fits in
        rw (e, vfs_read) (advance-IsVfs v fd ops f _ w o (rw n (omega arith)))
  ]

  vfs_write-IsVfs :
      (fd : ℕ) (buf : List ℕ) (v : Vfs) (m : M)
      → Fits hal (u16 (length buf))
      → IsVfs v
      → IsVfs (vfs_write hal fd buf v m).1
  unfolding vfs_write
  vfs_write-IsVfs fd buf v m fits w = elim (open_file_lem v fd w) [
    | inl closed ↦ rw (closed, vfs_write) w
    | inr (ops, f, e, o) ↦
        let flags = (fd_at v fd).flags in
        rw (e, vfs_write)
          (elim (Bool-cases (bit_and flags o_wronly == 0 && bit_and flags o_rdwr == 0)) [
            | inl denied ↦ rw denied w
            | inr allowed ↦
                rw allowed
                  (elim (ops_write-clip hal ops f (fd_at v fd).position buf (u16 (length buf)) m) [
                    | inl refused ↦ rw refused w
                    | inr written ↦
                        let n = clip-Opened hal v fd ops f (u16 (length buf)) o fits in
                        rw written (advance-IsVfs v fd ops f _ w o (rw n (omega arith)))
                  ])
          ])
  ]

stat_opened-IsVfs : (o : Option ℕ) (v : Vfs) → IsVfs v → IsVfs (stat_opened o v).1
unfolding stat_opened
stat_opened-IsVfs none v w = w
stat_opened-IsVfs (some fd) v w = vfs_close-IsVfs v fd w

vfs_stat-IsVfs : (path : Option (List ℕ)) (v : Vfs) → IsVfs v → IsVfs (vfs_stat path v).1
unfolding vfs_stat
vfs_stat-IsVfs none v w = w
vfs_stat-IsVfs (some path) v w = stat_opened-IsVfs _ _ (vfs_open-IsVfs (some path) o_rdonly v w)

pub get_or-replicate {ℓ} : {A : Type ℓ} (n i : ℕ) (x : A) → get_or (replicate n x) i x ≡ x
get_or-replicate zero i x = refl
get_or-replicate (suc n) zero x = refl
get_or-replicate (suc n) (suc i) x = get_or-replicate n i x

pub init-IsVfs : IsVfs vfs_init
unfolding vfs_init
init-IsVfs = record {
  mount_count = refl;
  fd_count = refl;
  files = λ fd. subst IsFd (sym (get_or-replicate 8 fd no_fd)) (λ busy. absurd (ground arith));
}

-- The states that calls can reach, with the contents of the EEPROM. Only the sum of an offset and
-- the length of a read or write must not wrap around.
pub data Run {M : Type 0} (hal : Hal M) : Vfs → M → Type 0 where
  after_init : (m : M) → Run hal vfs_init m
  after_mount :
      {v : Vfs} {m : M} (type : ℕ) (path : Option (List ℕ))
      → Run hal v m
      → Run hal (vfs_mount type path v).1 m
  after_unmount :
      {v : Vfs} {m : M} (path : Option (List ℕ)) → Run hal v m → Run hal (vfs_unmount path v).1 m
  after_format : {v : Vfs} {m : M} → Run hal v m → Run hal v (eepfs_format hal m)
  after_open :
      {v : Vfs} {m : M} (path : Option (List ℕ)) (flags : ℕ)
      → Run hal v m
      → Run hal (vfs_open path flags v).1 m
  after_read :
      {v : Vfs} {m : M} (fd count : ℕ)
      → Run hal v m
      → Fits hal (u16 count)
      → Run hal (vfs_read hal fd count v m).2 m
  after_write :
      {v : Vfs} {m : M} (fd : ℕ) (buf : List ℕ)
      → Run hal v m
      → Fits hal (u16 (length buf))
      → Run hal (vfs_write hal fd buf v m).1 (vfs_write hal fd buf v m).2
  after_lseek :
      {v : Vfs} {m : M} (fd : ℕ) (offset : ℤ) (whence : ℕ)
      → Run hal v m
      → Run hal (vfs_lseek hal.int_bits fd offset whence v).1 m
  after_close : {v : Vfs} {m : M} (fd : ℕ) → Run hal v m → Run hal (vfs_close fd v).1 m
  after_stat :
      {v : Vfs} {m : M} (path : Option (List ℕ)) → Run hal v m → Run hal (vfs_stat path v).1 m

-- In every state that calls reach from `vfs_init`, each descriptor in use has operations and a
-- file, and its position is not past the end of the file. For a read or a write, the sum of its
-- length and eleven, the longest file's, is to fit in an `int`.
pub Run-IsVfs : {M : Type 0} {hal : Hal M} {v : Vfs} {m : M} → Run hal v m → IsVfs v
Run-IsVfs (after_init m) = init-IsVfs
Run-IsVfs (after_mount type path r) = vfs_mount-IsVfs type path _ (Run-IsVfs r)
Run-IsVfs (after_unmount path r) = vfs_unmount-IsVfs path _ (Run-IsVfs r)
Run-IsVfs (after_format r) = Run-IsVfs r
Run-IsVfs (after_open path flags r) = vfs_open-IsVfs path flags _ (Run-IsVfs r)
Run-IsVfs (after_read fd count r fits) = vfs_read-IsVfs _ fd count _ _ fits (Run-IsVfs r)
Run-IsVfs (after_write fd buf r fits) = vfs_write-IsVfs _ fd buf _ _ fits (Run-IsVfs r)
Run-IsVfs (after_lseek fd offset whence r) = vfs_lseek-IsVfs _ fd offset whence _ (Run-IsVfs r)
Run-IsVfs (after_close fd r) = vfs_close-IsVfs _ fd (Run-IsVfs r)
Run-IsVfs (after_stat path r) = vfs_stat-IsVfs path _ (Run-IsVfs r)
