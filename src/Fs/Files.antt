-- ===== src/Fs/Files.antt =====
-- A write and a read of one block in src/fs.c, and the block that is number 0.
use avrix.Fs.Calls.{handle}
use avrix.Fs.Data.{ensure_block-same, write_last_round, written, read_unaddressed}
use avrix.Fs.Data.{file_at}
use avrix.Fs.{balloc, Inode, File, blank, inode_at, Fs}
use avrix.Fs.Io.{
  overwrite, ensure_block, block_at, block_index, addr_at, fs_read, fs_write, read_loop,
}
use avrix.Base.{
  ltb, leb, ◌==◌, if◌then◌else◌, Bool-cases, length, get_or, set, take, drop, length-set,
  get_or-set_self, u16, ℕ, zero, suc, ◌+◌, ◌-◌, ◌%◌, ◌≤◌, ◌<◌, ◌≡◌, refl, ap, ◌∙◌, ◌≢◌, inl, inr,
  true, false, ◌||◌, some, List, [], ◌∷◌, append-nil, arith,
}

read_last_round :
    (fs : Fs) (fuel inum off n : ℕ)
    → block_index off < 4
    → addr_at fs inum (block_index off) ≢ 0
    → off % 32 + suc n ≤ 32
    → read_loop (suc fuel) inum fs off (suc n)
      ≡ some (
        take (suc n) (drop (off % 32) (block_at fs (addr_at fs inum (block_index off)))),
        u16 (off + suc n),
      )
unfolding read_loop
read_last_round fs fuel inum off n inside addressed fits =
    let go : (leb 4 (block_index off) || addr_at fs inum (block_index off) == 0) ≡ false =
      ground arith in
    let k : (if ltb (suc n) (32 - off % 32) then suc n else 32 - off % 32) ≡ suc n = ground arith in
    let none_left : suc n - (if ltb (suc n) (32 - off % 32) then suc n else 32 - off % 32) ≡ 0 =
      omega (arith, k) in
    let blk = drop (off % 32) (block_at fs (addr_at fs inum (block_index off))) in
    rw (go, read_loop)
      (rw (read_loop-stop fuel inum fs _ _ none_left, read_loop)
        (λ i. some (append-nil (take (k i) blk) i, u16 (off + k i))))
  where
    read_loop-stop :
        (fuel inum : ℕ) (fs : Fs) (off left : ℕ)
        → left ≡ 0
        → read_loop fuel inum fs off left ≡ some ([], off)
    read_loop-stop fuel inum fs off zero e = refl
    read_loop-stop fuel inum fs off (suc left) e = absurd (omega arith)

-- The state after a write that ran to its end at the offset `off`.
abbrev pub settled : Fs → ℕ → ℕ → Fs
settled fs inum off =
    let d = inode_at fs inum in
    if ltb d.size off
    then record fs { inodes = set fs.inodes inum (record d { size = off }) }
    else fs

settled-facts :
    (fs : Fs) (inum off : ℕ)
    → inum < length fs.inodes
    → ((settled fs inum off).disk ≡ fs.disk)
      × ((inode_at (settled fs inum off) inum).addrs ≡ (inode_at fs inum).addrs)
      × (off ≤ (inode_at (settled fs inum off) inum).size)
settled-facts fs inum off h =
    let d = inode_at fs inum in
    let self = get_or-set_self fs.inodes inum (record d { size = off }) blank h in
    elim (Bool-cases (ltb d.size off)) [
      | inl grows ↦
          rw grows (refl, ap (λ u. Inode.addrs u) self, omega (arith, ap (λ u. Inode.size u) self))
      | inr stays ↦ rw stays (refl, refl, ground arith)
    ]

fs_write-last_round :
    (fs fs' : Fs) (inum off x : ℕ) (p : List ℕ)
    → block_index off < 4
    → ensure_block inum (block_index off) fs ≡ some fs'
    → off % 32 + length (x ∷ p) ≤ 32
    → let b = addr_at fs' inum (block_index off) in
      let end = u16 (off + length (x ∷ p)) in
      fs_write (file_at inum off) (x ∷ p) fs
      ≡ some (
        length (x ∷ p),
        settled
            (record fs' { disk = set fs'.disk b (overwrite (block_at fs' b) (off % 32) (x ∷ p)) })
            inum
            end,
        file_at inum end,
      )
unfolding fs_write
fs_write-last_round fs fs' inum off x p inside block fits =
    rw (write_last_round fs fs' (length p) inum off x p inside block fits, fs_write) refl

fs_read-loop :
    (fs : Fs) (inum off n : ℕ) {bytes : List ℕ} {off' : ℕ}
    → leb (inode_at fs inum).size off ≡ false
    → (if ltb ((inode_at fs inum).size - off) n then (inode_at fs inum).size - off else n) ≡ n
    → read_loop n inum fs off n ≡ some (bytes, off')
    → fs_read (file_at inum off) n fs ≡ some (bytes, file_at inum off')
unfolding fs_read
fs_read-loop fs inum off n before_end whole loop =
    rw (before_end, fs_read) (rw (whole, fs_read) (rw (loop, fs_read) refl))

-- Bytes that are written within one block that the file has, its number not 0, are all written,
-- and a read of as many bytes from the same offset returns them, with the handle that the write
-- left.
pub one_block :
    (fs : Fs) (inum off x : ℕ) (p : List ℕ)
    → inum < length fs.inodes
    → off < 128
    → off % 32 + length (x ∷ p) ≤ 32
    → addr_at fs inum (block_index off) ≢ 0
    → addr_at fs inum (block_index off) < length fs.disk
    → length (block_at fs (addr_at fs inum (block_index off))) ≡ 32
    → (fs' : Fs) × (f' : File) × (fs_write (file_at inum off) (x ∷ p) fs
        ≡ some (length (x ∷ p), fs', f'))
      × (fs_read (file_at inum off) (length (x ∷ p)) fs' ≡ some (x ∷ p, f'))
one_block fs inum off x p h small fits addressed in_disk whole =
    let j = block_index off in
    let b = addr_at fs inum j in
    let o = off % 32 in
    let end = u16 (off + length (x ∷ p)) in
    let st = record fs { disk = set fs.disk b (overwrite (block_at fs b) o (x ∷ p)) } in
    let fs' = settled st inum end in
    let (disk, addrs, size) = settled-facts st inum end h in
    let same : addr_at fs' inum j ≡ b = ap (λ xs. get_or xs j 0) addrs in
    let held : block_at fs' (addr_at fs' inum j) ≡ overwrite (block_at fs b) o (x ∷ p) =
      ap (block_at fs') same
      ∙ ap (λ m. get_or m b []) disk
      ∙ get_or-set_self fs.disk b (overwrite (block_at fs b) o (x ∷ p)) [] in_disk in
    let got : take (length (x ∷ p)) (drop o (block_at fs' (addr_at fs' inum j))) ≡ x ∷ p =
      ap (λ m. take (length (x ∷ p)) (drop o m)) held
      ∙ written (block_at fs b) (x ∷ p) (drop (o + length (x ∷ p)) (block_at fs b)) o
          (omega arith) in
    let before_end : leb (inode_at fs' inum).size off ≡ false = ground (arith, size) in
    let n : (if ltb ((inode_at fs' inum).size - off) (length (x ∷ p))
          then (inode_at fs' inum).size - off
          else length (x ∷ p))
        ≡ length (x ∷ p) =
      ground (arith, size) in
    let read =
      read_last_round fs' (length p) inum off (length p) (omega arith) (rw same addressed) fits in
    (
      fs',
      file_at inum end,
      fs_write-last_round fs fs inum off x p (omega arith) (ensure_block-same fs inum j addressed)
          fits,
      fs_read-loop fs' inum off (length (x ∷ p)) before_end n (read ∙ ap (λ m. some (m, end)) got),
    )

balloc-inodes : (fs : Fs) (b : ℕ) (fs' : Fs) → balloc fs ≡ some (b, fs') → fs'.inodes ≡ fs.inodes
unfolding balloc
balloc-inodes fs b fs' e = ground arith

-- Block 0 cannot hold data: where a write at the start of a file without a first block is given the
-- block number 0, as the first write after `fs_init` is, all of up to 32 bytes are reported as
-- written, but a read from the start of the file then returns none.
pub block_0_lost :
    (fs fs₀ : Fs) (inum x : ℕ) (p : List ℕ) (len : ℕ)
    → inum < length fs.inodes
    → addr_at fs inum 0 ≡ 0
    → balloc fs ≡ some (0, fs₀)
    → length (x ∷ p) ≤ 32
    → (fs' : Fs) × (f' : File) × (fs_write (handle inum) (x ∷ p) fs
        ≡ some (length (x ∷ p), fs', f'))
      × (fs_read (handle inum) len fs' ≡ some ([], handle inum))
unfolding ensure_block
block_0_lost fs fs₀ inum x p len h empty block small =
    let kept = balloc-inodes fs 0 fs₀ block in
    let d = inode_at fs₀ inum in
    let h₀ : inum < length fs₀.inodes = rw kept h in
    let fs₁ = record fs₀ { inodes = set fs₀.inodes inum (record d { addrs = set d.addrs 0 0 }) } in
    let first : ensure_block inum 0 fs ≡ some fs₁ =
      let none_there : (addr_at fs inum 0 == 0) ≡ true = ground arith in
      rw (none_there, ensure_block) (rw (block, ensure_block) refl) in
    let at₁ : addr_at fs₁ inum 0 ≡ 0 =
      ap (λ u. get_or (Inode.addrs u) 0 0)
        (get_or-set_self fs₀.inodes inum (record d { addrs = set d.addrs 0 0 }) blank h₀)
      ∙ first_zero d.addrs in
    let st = record fs₁ {
      disk =
          set fs₁.disk (addr_at fs₁ inum 0)
            (overwrite (block_at fs₁ (addr_at fs₁ inum 0)) 0 (x ∷ p));
    } in
    let end = u16 (0 + length (x ∷ p)) in
    let (_, addrs, _) =
      settled-facts st inum end
        (rw (length-set fs₀.inodes inum (record d { addrs = set d.addrs 0 0 })) h₀) in
    (
      settled st inum end,
      file_at inum end,
      fs_write-last_round fs fs₁ inum 0 x p (omega arith) first (omega arith),
      read_unaddressed (settled st inum end) inum len (ap (λ xs. get_or xs 0 0) addrs ∙ at₁),
    )
  where
    first_zero : (xs : List ℕ) → get_or (set xs 0 0) 0 0 ≡ 0
    first_zero [] = refl
    first_zero (y ∷ ys) = refl
