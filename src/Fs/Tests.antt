-- ===== src/Fs/Tests.antt =====
-- The file system of src/fs.c with a few files.
use avrix.Fs.Ends.{fs_write_lem}
use avrix.Fs.Files.{one_block}
use avrix.Fs.{ialloc, created}
use avrix.Fs.Data.{file_at}
use avrix.Fs.Calls.{added, full, handle, fs_init_lem, taken, fs_create_lem, fs_unlink_lem, Outcome}
use avrix.Fs.Io.{fs_read, fs_write, list_loop, fs_list}
use avrix.Fs.{
  install, strcmp_equal, strncmp_equal, find_strcmp, Created, find_strncmp, find_from, fs_unlink,
  blank, fs_init, File, fs_create, fs_open, Fs, balloc,
}
use avrix.Fs.Directory.{IsFs}
use mathlib.Core.Path.{subst}
use avrix.Base.{
  replicate, u16, ℕ, ◌+◌, ◌≤◌, ◌≡◌, refl, sym, ap, ◌∙◌, ◌≢◌, true, none, some, List, [], ◌∷◌, arith,
}

-- A file named "a" in inode 1, without blocks, beside the root.
abbrev with_a : Fs
with_a = record {
  disk = replicate 16 (replicate 32 0);
  bitmap = replicate 2 0;
  inodes =
      record blank { type = 2 }
      ∷ record { type = 1; nlink = 1; size = 0; addrs = replicate 4 0 }
      ∷ replicate 14 blank;
  dir_name = (47 ∷ []) ∷ (97 ∷ []) ∷ replicate 14 [];
}

fs_create-a : fs_create (some (97 ∷ [])) 1 fs_init ≡ (created 1, with_a)
unfolding fs_create fs_init find_strcmp strcmp_equal find_from install ialloc
fs_create-a = refl

-- The same file with block 3 as its first block.
abbrev with_block : Fs
with_block = record with_a {
  bitmap = 8 ∷ 0 ∷ [];
  inodes =
      record blank { type = 2 }
      ∷ record { type = 1; nlink = 1; size = 0; addrs = 3 ∷ 0 ∷ 0 ∷ 0 ∷ [] }
      ∷ replicate 14 blank;
}

abbrev with_a_0 : Fs
with_a_0 = record with_a { bitmap = 1 ∷ 0 ∷ [] }

-- The first block that is given out has the number 0.
balloc-with_a : balloc with_a ≡ some (0, with_a_0)
unfolding balloc find_from
balloc-with_a = refl

fs_list-with_a : fs_list true 16 with_a ≡ (47 ∷ 10 ∷ 97 ∷ [], 2)
unfolding fs_list list_loop
fs_list-with_a = refl

abbrev file_a : List ℕ
file_a = 97 ∷ []

abbrev root : List ℕ
root = 47 ∷ []

a_not_slash : file_a ≢ root
a_not_slash e = ground arith

slash_not_a : root ≢ file_a
slash_not_a e = a_not_slash (sym e)

init-IsFs : IsFs fs_init
init-IsFs = (fs_init_lem (97 ∷ []) a_not_slash).0

fs_create_example : Outcome (97 ∷ []) fs_init (fs_create (some (97 ∷ [])) 1 fs_init)
fs_create_example =
    fs_create_lem fs_init (97 ∷ []) 1 init-IsFs (omega arith) (omega arith) (omega arith)

with_a-IsFs : IsFs with_a
with_a-IsFs =
    of_outcome _ refl
      (fs_create_lem fs_init (97 ∷ []) 1 init-IsFs (omega arith) (omega arith) (omega arith))
  where
    of_outcome :
        (r : Created × Fs)
        → fs_create (some (97 ∷ [])) 1 fs_init ≡ r
        → Outcome (97 ∷ []) fs_init r
        → IsFs with_a
    of_outcome r e (taken i found same) = cc (e, same, fs_create-a)
    of_outcome r e (full missing used same) = cc (e, same, fs_create-a)
    of_outcome r e (added i fs' missing same v found others) =
        let here : (created i, fs') ≡ (created 1, with_a) = sym same ∙ sym e ∙ fs_create-a in
        subst IsFs (ap (λ p. p.1) here) v

fs_open-a : fs_open (97 ∷ []) with_a ≡ some (handle 1)
unfolding fs_open find_strncmp find_from strncmp_equal
fs_open-a = refl

fs_unlink_example :
    (fs' : Fs) × (fs_unlink (some (97 ∷ [])) with_a ≡ (true, fs'))
    × IsFs fs'
    × (fs_open (97 ∷ []) fs' ≡ none)
    × (fs_open (47 ∷ []) fs' ≡ fs_open (47 ∷ []) with_a)
fs_unlink_example =
    fs_unlink_lem with_a (97 ∷ []) (47 ∷ []) (handle 1) with_a-IsFs fs_open-a slash_not_a

one_block_example :
    (fs' : Fs) × (f' : File) × (fs_write (file_at 1 30) (5 ∷ 6 ∷ []) with_block ≡ some (2, fs', f'))
    × (fs_read (file_at 1 30) 2 fs' ≡ some (5 ∷ 6 ∷ [], f'))
one_block_example =
    one_block with_block 1 30 5 (6 ∷ []) (omega arith) (omega arith) (omega arith) (omega arith)
      (omega arith) refl

-- A write that goes over into a second block.
fs_write_example :
    (n : ℕ) × (fs' : Fs) × (f' : File) × (fs_write (file_at 1 20) (replicate 40 7) with_a
      ≡ some (n, fs', f'))
    × (n ≤ 40)
    × (f'.inum ≡ 1)
    × (u16 f'.off ≡ u16 (20 + n))
fs_write_example = fs_write_lem (file_at 1 20) (replicate 40 7) with_a
