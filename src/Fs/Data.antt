-- ===== src/Fs/Data.antt =====
-- What `fs_write` puts into a file of src/fs.c and `fs_read` takes out of it.
use avrix.Fs.{File, inode_at}
use avrix.Fs.Calls.{handle}
use avrix.Fs.{Fs}
use avrix.Fs.Io.{
  block_at, addr_at, block_index, ensure_block, read_loop, fs_read, write_loop, overwrite,
}
use avrix.Base.{
  ltb, leb, ◌==◌, if◌then◌else◌, ==-false_of_ne, Bool-cases, if_false, length, set, take, drop,
  take_all, take-append, u16, ℕ, zero, suc, ◌+◌, ◌-◌, ◌%◌, ◌≤◌, ◌<◌, ◌≡◌, refl, ap, ◌∙◌, ◌≢◌, inl,
  inr, true, false, some, List, [], ◌∷◌, ◌++◌, arith,
}

pub written :
    (blk xs ys : List ℕ) (o : ℕ)
    → o ≤ length blk
    → take (length xs) (drop o (take o blk ++ (xs ++ ys))) ≡ xs
written blk xs ys zero h = take-append xs ys
written [] xs ys (suc o) h = absurd (omega arith)
written (b ∷ blk) xs ys (suc o) h = written blk xs ys o (omega arith)

drop_whole : (xs : List ℕ) → drop (length xs) xs ≡ []
drop_whole [] = refl
drop_whole (x ∷ xs) = drop_whole xs

abbrev pub file_at : ℕ → ℕ → File
file_at inum off = record { inum = inum; off = off }

-- A read at the start of a file whose first address is 0 returns nothing.
pub read_unaddressed :
    (fs : Fs) (inum len : ℕ)
    → addr_at fs inum 0 ≡ 0
    → fs_read (handle inum) len fs ≡ some ([], handle inum)
unfolding fs_read read_loop
read_unaddressed fs inum len e = elim (Bool-cases (leb (inode_at fs inum).size 0)) [
  | inl short ↦ rw short refl
  | inr long ↦ rw (long, loop _) refl
]
  where
    loop : (n : ℕ) → read_loop n inum fs 0 n ≡ some ([], 0)
    loop zero = refl
    loop (suc n) =
        let none_there : (addr_at fs inum 0 == 0) ≡ true = ground arith in
        rw (none_there, read_loop) refl

pub ensure_block-same :
    (fs : Fs) (inum j : ℕ) → addr_at fs inum j ≢ 0 → ensure_block inum j fs ≡ some fs
unfolding ensure_block
ensure_block-same fs inum j addressed =
    if_false _ _ (==-false_of_ne (addr_at fs inum j) 0 addressed)

write_loop-stop :
    (fuel inum : ℕ) (fs : Fs) (off : ℕ) (left : List ℕ)
    → left ≡ []
    → write_loop fuel inum fs off left ≡ some (true, fs, off, [])
unfolding write_loop
write_loop-stop fuel inum fs off [] e = refl
write_loop-stop fuel inum fs off (x ∷ left) e = cc

-- A round of the writing loop that takes all that remains.
pub write_last_round :
    (fs fs' : Fs) (fuel inum off x : ℕ) (p : List ℕ)
    → block_index off < 4
    → ensure_block inum (block_index off) fs ≡ some fs'
    → off % 32 + length (x ∷ p) ≤ 32
    → let b = addr_at fs' inum (block_index off) in
      write_loop (suc fuel) inum fs off (x ∷ p)
      ≡ some (
        true,
        record fs' { disk = set fs'.disk b (overwrite (block_at fs' b) (off % 32) (x ∷ p)) },
        u16 (off + length (x ∷ p)),
        [],
      )
unfolding write_loop
write_last_round fs fs' fuel inum off x p inside block fits =
    let low : leb 4 (block_index off) ≡ false = ground arith in
    let n : (if ltb (length (x ∷ p)) (32 - off % 32) then length (x ∷ p) else 32 - off % 32)
        ≡ length (x ∷ p) =
      ground arith in
    let taken = ap (λ k. take k (x ∷ p)) n ∙ take_all (length (x ∷ p)) (x ∷ p) (omega arith) in
    let left = ap (λ k. drop k (x ∷ p)) n ∙ drop_whole (x ∷ p) in
    let b = addr_at fs' inum (block_index off) in
    rw (low, write_loop)
      (rw (block, write_loop)
        (write_loop-stop fuel inum _ _ _ left ∙ (λ i. some (
          true,
          record fs' { disk = set fs'.disk b (overwrite (block_at fs' b) (off % 32) (taken i)) },
          u16 (off + n i),
          [],
        ))))
