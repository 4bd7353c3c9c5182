-- ===== src/Fs/Io.antt =====
-- Reading, writing and listing in src/fs.c.
use avrix.Fs.{fs_max_name, balloc, fs_num_inodes, inode_at, name_at, fs_block_size, File, Fs}
use avrix.Base.{
  ltb, leb, ◌==◌, if◌then◌else◌, length, get_or, set, take, drop, u8, u16, ℕ, zero, suc, ◌+◌, ◌-◌,
  ◌/◌, ◌%◌, Bool, true, false, not, ◌&&◌, ◌||◌, Option, none, some, List, [], ◌∷◌, ◌++◌,
}

-- The first bytes of `blk` at `o` replaced by `xs`.
abbrev pub overwrite : List ℕ → ℕ → List ℕ → List ℕ
overwrite blk o xs = take o blk ++ (xs ++ drop (o + length xs) blk)

abbrev pub block_at : Fs → ℕ → List ℕ
block_at fs b = get_or fs.disk b []

abbrev pub block_index : ℕ → ℕ
block_index off = u8 (off / fs_block_size)

abbrev pub addr_at : Fs → ℕ → ℕ → ℕ
addr_at fs inum j = get_or (inode_at fs inum).addrs j 0

-- The state in which the block of index `j` has an address, which is a new one if that was 0.
unfoldable pub ensure_block : ℕ → ℕ → Fs → Option Fs
ensure_block inum j fs =
    if addr_at fs inum j == 0
    then elim (balloc fs) [
      | none ↦ none
      | some (b, fs') ↦
          let d = inode_at fs' inum in
          some (record fs' { inodes = set fs'.inodes inum (record d { addrs = set d.addrs j b }) })
    ]
    else some fs

-- The loop of `fs_write` over the bytes that remain: whether it ran to its end, the state, the
-- offset and what remains. `none` means that the fuel ran out.
unfoldable pub write_loop : ℕ → ℕ → Fs → ℕ → List ℕ → Option (Bool × Fs × ℕ × List ℕ)
write_loop fuel inum fs off [] = some (true, fs, off, [])
write_loop zero inum fs off (x ∷ p) = none
write_loop (suc fuel) inum fs off (x ∷ p) =
    let j = block_index off in
    let o = off % fs_block_size in
    let room = fs_block_size - o in
    let to_copy = if ltb (length (x ∷ p)) room then length (x ∷ p) else room in
    elim (leb 4 j) [
      | true ↦ some (false, fs, off, x ∷ p)
      | false ↦ elim (ensure_block inum j fs) [
        | none ↦ some (false, fs, off, x ∷ p)
        | some fs' ↦
            let b = addr_at fs' inum j in
            write_loop fuel inum
              (record fs' {
                disk = set fs'.disk b (overwrite (block_at fs' b) o (take to_copy (x ∷ p)));
              })
              (u16 (off + to_copy)) (drop to_copy (x ∷ p))
      ]
    ]

-- The count returned, the new state and the new handle. Each round copies a byte, so the length of
-- the buffer is fuel enough.
unfoldable pub fs_write : File → List ℕ → Fs → Option (ℕ × Fs × File)
fs_write f buf fs = elim (write_loop (length buf) f.inum fs f.off buf) [
  | none ↦ none
  | some (false, fs', off, left) ↦ some (length buf - length left, fs', record f { off = off })
  | some (true, fs', off, left) ↦
      let d = inode_at fs' f.inum in
      let grown = record fs' { inodes = set fs'.inodes f.inum (record d { size = off }) } in
      some (length buf, if ltb d.size off then grown else fs', record f { off = off })
]

-- The loop of `fs_read`: the bytes copied and the offset, for `remaining` bytes to read.
unfoldable pub read_loop : ℕ → ℕ → Fs → ℕ → ℕ → Option (List ℕ × ℕ)
read_loop fuel inum fs off zero = some ([], off)
read_loop zero inum fs off (suc n) = none
read_loop (suc fuel) inum fs off (suc n) =
    let j = block_index off in
    let o = off % fs_block_size in
    let room = fs_block_size - o in
    let to_copy = if ltb (suc n) room then suc n else room in
    let b = addr_at fs inum j in
    elim (leb 4 j || b == 0) [
      | true ↦ some ([], off)
      | false ↦ elim (read_loop fuel inum fs (u16 (off + to_copy)) (suc n - to_copy)) [
        | none ↦ none
        | some (more, off') ↦ some (take to_copy (drop o (block_at fs b)) ++ more, off')
      ]
    ]

-- The bytes read, whose number is the result, and the new handle.
unfoldable pub fs_read : File → ℕ → Fs → Option (List ℕ × File)
fs_read f len fs =
    let size = (inode_at fs f.inum).size in
    let n = if ltb (size - f.off) len then size - f.off else len in
    if leb size f.off then some ([], f) else elim (read_loop n f.inum fs f.off n) [
      | none ↦ none
      | some (bytes, off) ↦ some (bytes, record f { off = off })
    ]

-- The loop of `fs_list` over the inodes from `i` on, with the text so far and the number of names.
-- The state of `buf` is its text; a NUL follows it once a name has been written.
unfoldable pub list_loop : ℕ → ℕ → ℕ → List ℕ → ℕ → Fs → List ℕ × ℕ
list_loop zero i len text count fs = (text, count)
list_loop (suc n) i len text count fs =
    let name = name_at fs i in
    let skip = list_loop n (i + 1) len text count fs in
    let start = if ltb 0 count then text ++ (10 ∷ []) else text in
    let more = list_loop n (i + 1) len (start ++ take fs_max_name name) (count + 1) fs in
    if (inode_at fs i).type == 0
    then skip
    else if ltb 0 count && leb len (length text + 1)
    then (text, count)
    else if ltb len (length start + length (take fs_max_name name) + 1)
    then (start, count)
    else more

-- A `buf` of NULL is `false`.
unfoldable pub fs_list : Bool → ℕ → Fs → List ℕ × ℕ
fs_list has_buf len fs =
    if not has_buf || len == 0 then ([], 0) else list_loop fs_num_inodes 0 len [] 0 fs
