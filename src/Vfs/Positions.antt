-- ===== src/Vfs/Positions.antt =====
-- The descriptors of drivers/fs/vfs.c: what holds of them in every state the calls can reach.
use avrix.Eepfs.{eepfs_read, eepfs_file_at, eepfs_write, Hal}
use avrix.Fs.Names.{present, absent, find_from_lem}
use avrix.Fs.Updates.{get_or-set}
use avrix.Vfs.Calls.{
  ops_read, ops_write, new_fd, open_target, at_position, advance, vfs_close, vfs_open, open_file,
}
use avrix.Vfs.{no_fd, alloc_fd, eepfs_ops, romfs_ops, Ops, fd_at, ops_size, Fd, Vfs}
use avrix.Romfs.{romfs_read, clip}
use mathlib.Core.Path.{subst}
use native.Mathlib.Nat.{mod-eq_of_lt}
use avrix.Base.{
  ltb, leb, ◌==◌, if◌then◌else◌, Bool-cases, Option-cases, if_true, length, set, length-set, ℕ,
  zero, suc, ◌+◌, ◌-◌, ◌^◌, ◌≤◌, ◌<◌, min, ◌≡◌, refl, sym, ◌∙◌, ◌⊎◌, inl, inr, Bool, true, false,
  not, ◌||◌, Option, none, some, List, arith,
}

-- One in use has operations and a file, and its position is not past the end of the file.
abbrev pub IsFd : Fd → Type 0
IsFd f =
    f.in_use ≡ true
    → (ops : Ops) × (file : ℕ) × (f.ops ≡ some ops)
      × (f.fs_file ≡ some file)
      × (f.position ≤ ops_size ops file)

pub record IsVfs (v : Vfs) : Type 0 where
  pub mount_count : length v.mounts ≡ 4
  pub fd_count : length v.fds ≡ 8
  pub files : (fd : ℕ) → IsFd (fd_at v fd)

-- No file has more than eleven bytes.
pub ops_size-bound : (ops : Ops) (f : ℕ) → ops_size ops f ≤ 11
unfolding ops_size
ops_size-bound romfs_ops zero = omega arith
ops_size-bound romfs_ops (suc zero) = omega arith
ops_size-bound romfs_ops (suc (suc f)) = omega arith
ops_size-bound eepfs_ops zero = omega arith
ops_size-bound eepfs_ops (suc f) = omega arith

-- Without wrap-around of the sum, a call is about what is left of the file at most.
pub clip_lem :
    (int_bits size off len : ℕ)
    → off + len < 2 ^ int_bits
    → clip int_bits size off len ≡ min len (size - off)
unfolding clip
clip_lem int_bits size off len h = rw (mod-eq_of_lt h) (ground arith)

if-IsFd : (b : Bool) (x y : Fd) → IsFd x → IsFd y → IsFd (if b then x else y)
if-IsFd true x y hx hy = hx
if-IsFd false x y hx hy = hy

pub set-IsVfs :
    (v : Vfs) (fd : ℕ) (x : Fd)
    → IsVfs v
    → fd < 8
    → IsFd x
    → IsVfs (record v { fds = set v.fds fd x })
set-IsVfs v fd x w lt h = record {
  mount_count = w.mount_count;
  fd_count = length-set v.fds fd x ∙ w.fd_count;
  files = λ j.
      subst IsFd (sym (get_or-set v.fds fd j x no_fd (rw w.fd_count lt)))
        (if-IsFd (fd == j) x (fd_at v j) h (w.files j));
}

-- What passes the guard of a call on a descriptor.
pub record Opened (v : Vfs) (fd : ℕ) (ops : Ops) (f : ℕ) : Type 0 where
  pub inside : fd < 8
  pub busy : (fd_at v fd).in_use ≡ true
  pub with_ops : (fd_at v fd).ops ≡ some ops
  pub with_file : (fd_at v fd).fs_file ≡ some f
  pub placed : (fd_at v fd).position ≤ ops_size ops f

pub open_file_lem :
    (v : Vfs) (fd : ℕ)
    → IsVfs v
    → (open_file fd v ≡ none)
      ⊎ ((ops : Ops) × (f : ℕ) × (open_file fd v ≡ some (ops, f)) × Opened v fd ops f)
unfolding open_file
open_file_lem v fd w = elim (Bool-cases (leb 8 fd || not (fd_at v fd).in_use)) [
  | inl closed ↦ inl (if_true _ _ closed)
  | inr usable ↦
      let busy : (fd_at v fd).in_use ≡ true = ground arith in
      let (ops, f, eo, ef, placed) = w.files fd busy in
      inr (
        ops,
        f,
        rw (usable, open_file) (rw eo (rw ef refl)),
        record {
          inside = ground arith;
          busy = busy;
          with_ops = eo;
          with_file = ef;
          placed = placed;
        },
      )
]

-- Moving an open descriptor to a place in its file.
pub at_position-IsVfs :
    (v : Vfs) (fd : ℕ) (ops : Ops) (f n : ℕ)
    → IsVfs v
    → Opened v fd ops f
    → n ≤ ops_size ops f
    → IsVfs (at_position fd n v)
at_position-IsVfs v fd ops f n w o h =
    set-IsVfs v fd (record (fd_at v fd) { position = n }) w o.inside
      (λ busy. (ops, f, o.with_ops, o.with_file, h))

pub advance-IsVfs :
    (v : Vfs) (fd : ℕ) (ops : Ops) (f n : ℕ)
    → IsVfs v
    → Opened v fd ops f
    → n ≤ ops_size ops f - (fd_at v fd).position
    → IsVfs (advance fd n v)
unfolding advance
advance-IsVfs v fd ops f n w o h = elim (Bool-cases (ltb 0 n)) [
  | inl some_bytes ↦
      let at = o.placed in
      let end = ops_size-bound ops f in
      rw some_bytes (at_position-IsVfs v fd ops f _ w o (omega arith))
  | inr no_bytes ↦ rw no_bytes w
]

pub vfs_close-IsVfs : (v : Vfs) (fd : ℕ) → IsVfs v → IsVfs (vfs_close fd v).1
unfolding vfs_close
vfs_close-IsVfs v fd w = elim (Bool-cases (leb 8 fd || not (fd_at v fd).in_use)) [
  | inl closed ↦ rw closed w
  | inr usable ↦ rw usable (set-IsVfs v fd _ w (ground arith) (λ busy. absurd (ground arith)))
]

-- A new descriptor is the first one that is free.
pub alloc_fd-free :
    (v : Vfs) (fd : ℕ)
    → alloc_fd v ≡ some fd
    → (fd < 8) × ((fd_at v fd).in_use ≡ false) × ((j : ℕ) → j < fd → (fd_at v j).in_use ≡ true)
unfolding alloc_fd
alloc_fd-free v fd e = elim (find_from_lem (λ i. not (fd_at v i).in_use) 8 0 8 refl) [
  | absent missing all ↦ absurd (ground arith)
  | present k found low high hit before ↦
      let same : k ≡ fd = ground arith in
      (
        omega arith,
        rw (← same) (ground arith),
        λ j h. let here = before j (omega arith) (omega arith) in ground arith,
      )
]

pub vfs_open-IsVfs :
    (path : Option (List ℕ)) (flags : ℕ) (v : Vfs) → IsVfs v → IsVfs (vfs_open path flags v).1
unfolding vfs_open
vfs_open-IsVfs path flags v w = elim (Bool-cases (not v.initialized)) [
  | inl fresh ↦ rw fresh w
  | inr ready ↦ elim (Option-cases (open_target path v)) [
    | inl missing ↦ rw (ready, missing, vfs_open) w
    | inr (target, found) ↦ elim (Option-cases (alloc_fd v)) [
      | inl full ↦ rw (ready, found, full, vfs_open) w
      | inr (fd, free) ↦
          rw (ready, found, free, vfs_open)
            (set-IsVfs v fd (new_fd target flags) w (alloc_fd-free v fd free).0
              (λ busy. (target.0, target.1, refl, refl, omega arith)))
    ]
  ]
]

module _ {M : Type 0} (hal : Hal M) where
  -- What a read or a write of some bytes is about.
  pub ops_read-clip :
      (ops : Ops) (f off len : ℕ) (m : M)
      → (ops_read hal ops f off len m).0 ≡ clip hal.int_bits (ops_size ops f) off len
  unfolding ops_read romfs_read eepfs_read ops_size clip
  ops_read-clip romfs_ops f off len m = refl
  ops_read-clip eepfs_ops f off len m = elim (Bool-cases (leb (eepfs_file_at f).size off)) [
    | inl past ↦ rw past refl
    | inr inside ↦ rw inside refl
  ]

  pub ops_write-clip :
      (ops : Ops) (f off : ℕ) (buf : List ℕ) (len : ℕ) (m : M)
      → ((ops_write hal ops f off buf len m).0 ≡ none)
        ⊎ ((ops_write hal ops f off buf len m).0
            ≡ some (clip hal.int_bits (ops_size ops f) off len))
  unfolding ops_write eepfs_write ops_size clip
  ops_write-clip romfs_ops f off buf len m = inl refl
  ops_write-clip eepfs_ops f off buf len m =
      inr (elim (Bool-cases (leb (eepfs_file_at f).size off)) [
        | inl past ↦ rw past refl
        | inr inside ↦ rw inside refl
      ])

  -- The sum of an offset in a file and the length asked for does not wrap around.
  abbrev pub Fits : ℕ → Type 0
  Fits len = len + 11 < 2 ^ hal.int_bits

  pub clip-Opened :
      (v : Vfs) (fd : ℕ) (ops : Ops) (f len : ℕ)
      → Opened v fd ops f
      → Fits len
      → clip hal.int_bits (ops_size ops f) (fd_at v fd).position len
        ≡ min len (ops_size ops f - (fd_at v fd).position)
  clip-Opened v fd ops f len o fits =
      let end = ops_size-bound ops f in
      let at = o.placed in
      clip_lem hal.int_bits (ops_size ops f) (fd_at v fd).position len (omega arith)
