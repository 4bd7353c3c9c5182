-- ===== src/Vfs/Reading.antt =====
-- Reads and writes of drivers/fs/vfs.c that follow each other on one descriptor.
use native.Mathlib.Nat.{mod-eq_of_lt}
use avrix.Romfs.{clip}
use avrix.Vfs.Transfer.{
  eepfs_size-bound, length-zero, file_bytes, eepfs_addr, open_file-At, advance-at_position,
  file_bytes-parts, at_position-At, vfs_read_lem, set-set, At,
}
use avrix.Vfs.Calls.{
  int_pattern, int_pattern, move, seek_to, pos, vfs_lseek, advance, vfs_write, ops_write, vfs_read,
  at_position,
}
use avrix.Eepfs.Laws.{IsEeprom}
use avrix.Vfs.Positions.{clip_lem, ops_size-bound, Fits, IsVfs}
use avrix.Vfs.{seek_set, o_rdwr, o_wronly, eepfs_ops, ops_size, Fd, no_fd, fd_at, Ops, Vfs}
use avrix.Eepfs.{eepfs_file_at, eepfs_write, Hal}
use avrix.Base.{
  leb, ◌==◌, Bool-cases, if_true, length, set, take, All, length-take, get_or-set_self, u16, IsByte,
  ℕ, zero, suc, ◌+◌, ◌-◌, ◌/◌, ◌%◌, ◌^◌, ◌≤◌, ◌<◌, min, bit_and, ◌≡◌, refl, sym, ap, ◌∙◌, ◌⊎◌, inl,
  inr, false, ◌&&◌, some, List, [], ◌∷◌, ◌++◌, arith,
}

-- Moving twice is moving to the second place.
at_position_twice :
    (v : Vfs) (fd n k : ℕ)
    → IsVfs v
    → fd < 8
    → at_position fd k (at_position fd n v) ≡ at_position fd k v
at_position_twice v fd n k w h =
    let here =
      get_or-set_self v.fds fd (record (fd_at v fd) { position = n }) no_fd (rw w.fd_count h) in
    ap
      (λ (x : Fd). record v {
        fds =
            set (set v.fds fd (record (fd_at v fd) { position = n })) fd
              (record x { position = k });
      })
      here
    ∙ ap (λ xs. record v { fds = xs }) (set-set v.fds fd _ _)

All-take {ℓ κ} : {A : Type ℓ} (P : A → Type κ) (n : ℕ) (xs : List A) → All P xs → All P (take n xs)
All-take P zero xs h = tt
All-take P (suc n) [] h = tt
All-take P (suc n) (x ∷ xs) (h, later) = (h, All-take P n xs later)

-- A place that is no negative `int`.
move-pos : (int_bits to : ℕ) → to < 2 ^ int_bits / 2 → move int_bits 0 (pos to) ≡ to
unfolding move int_pattern
move-pos int_bits to h =
    let word : to % 2 ^ int_bits ≡ to = mod-eq_of_lt (omega arith) in
    let sum : (0 + to % 2 ^ int_bits) % 2 ^ int_bits ≡ to =
      ap (λ n. (0 + n) % 2 ^ int_bits) word ∙ ap (λ n. n % 2 ^ int_bits) (omega arith) ∙ word in
    rw sum (if_true to 0 (ground arith))

-- Seeking to a place in the file.
vfs_lseek-At :
    (int_bits : ℕ) (v : Vfs) (fd : ℕ) (ops : Ops) (f p to : ℕ)
    → 65536 ≤ 2 ^ int_bits
    → At v fd ops f p
    → to ≤ ops_size ops f
    → vfs_lseek int_bits fd (pos to) seek_set v ≡ (some to, at_position fd to v)
unfolding vfs_lseek seek_to
vfs_lseek-At int_bits v fd ops f p to wide at h =
    let end = ops_size-bound ops f in
    let there : min (move int_bits 0 (pos to)) (ops_size ops f) ≡ to =
      ap (λ n. min n (ops_size ops f)) (move-pos int_bits to (omega arith)) ∙ omega arith in
    let word : u16 to ≡ to = omega arith in
    rw (open_file-At v fd ops f p at, vfs_lseek) (rw there (rw word refl))

module _ {M : Type 0} (hal : Hal M) (laws : IsEeprom hal) where
  -- Two reads one after the other return the bytes that one read for the sum of their counts
  -- returns, and leave the descriptor where that one leaves it. The descriptor is open, and the
  -- sum of the counts, which is below 2 ^ 16, and the longest file's length fits in an `int`.
  pub reads_join :
      (v : Vfs) (fd : ℕ) (ops : Ops) (f p a b : ℕ) (m : M)
      → At v fd ops f p
      → a + b < 65536
      → Fits hal (a + b)
      → let first = vfs_read hal fd a v m in
        let second = vfs_read hal fd b first.2 m in
        let whole = vfs_read hal fd (a + b) v m in
        ((n : ℕ) × (k : ℕ) × (first.0 ≡ some n) × (second.0 ≡ some k) × (whole.0 ≡ some (n + k)))
        × (first.1 ++ second.1 ≡ whole.1)
        × (second.2 ≡ whole.2)
  reads_join v fd ops f p a b m at small fits =
      let end = ops_size-bound ops f in
      let placed : p ≤ ops_size ops f =
        let e = at.position in let h = at.opened.placed in omega arith in
      let n = min (u16 a) (ops_size ops f - p) in
      let k = min (u16 b) (ops_size ops f - (p + n)) in
      let n+k : min (u16 (a + b)) (ops_size ops f - p) ≡ n + k = omega arith in
      let e1 = vfs_read_lem hal v fd ops f p a m laws at (omega arith) in
      let at' = at_position-At v fd ops f p (p + n) at (omega arith) in
      let e2 =
        vfs_read_lem hal (at_position fd (p + n) v) fd ops f (p + n) b m laws at' (omega arith) in
      let e = vfs_read_lem hal v fd ops f p (a + b) m laws at (omega arith) in
      let sum : p + n + k ≡ p + (n + k) = omega arith in
      rw e1 (
        rw e2 (
          rw e (
            rw n+k (
              (n, k, refl, refl, refl),
              sym (file_bytes-parts hal ops f p n k m laws (omega arith)),
              at_position_twice v fd (p + n) (p + n + k) at.valid at.opened.inside
                  ∙ ap (λ q. at_position fd q v) sum,
            ))))

  -- A write to a file of the EEPROM puts in what of the buffer has room in the file.
  vfs_write_lem :
      (v : Vfs) (fd f p : ℕ) (buf : List ℕ) (m : M)
      → At v fd eepfs_ops f p
      → bit_and (fd_at v fd).flags o_wronly == 0 && bit_and (fd_at v fd).flags o_rdwr == 0 ≡ false
      → length buf < 65536
      → Fits hal (length buf)
      → let n = min (length buf) (ops_size eepfs_ops f - p) in
        (m' : M) × (vfs_write hal fd buf v m ≡ (some n, at_position fd (p + n) v, m'))
        × ((n ≡ 0) ⊎ (m' ≡ hal.eeprom_update_block p (take n buf) m))
  unfolding ops_size ops_write eepfs_write vfs_write
  vfs_write_lem v fd f p buf m at writable small fits =
      let size = ops_size eepfs_ops f in
      let n = min (length buf) (size - p) in
      let end = ops_size-bound eepfs_ops f in
      let here = at.position in
      let placed : p ≤ size = let h = at.opened.placed in omega arith in
      let whole : u16 (length buf) ≡ length buf = omega arith in
      let next = advance-at_position v fd eepfs_ops f p n at (omega arith) in
      elim (Bool-cases (leb size p)) [
        | inl past ↦
            let zero_left : 0 ≡ n = ground arith in
            (
              m,
              rw (open_file-At v fd eepfs_ops f p at, vfs_write)
                  (rw writable (
                    rw here (
                      rw past (λ i.
                        (some (zero_left i), (ap (λ q. advance fd q v) zero_left ∙ next) i, m))))),
              inl (sym zero_left),
            )
        | inr inside ↦
            let amount : clip hal.int_bits (eepfs_file_at f).size p (u16 (length buf)) ≡ n =
              rw whole
                (clip_lem hal.int_bits (eepfs_file_at f).size p (length buf) (omega arith)) in
            let place : u16 ((eepfs_file_at f).addr + p) ≡ p = omega (arith, eepfs_addr f) in
            (
              hal.eeprom_update_block p (take n buf) m,
              rw (open_file-At v fd eepfs_ops f p at, vfs_write)
                  (rw writable (
                    rw here (
                      rw inside (λ i. (
                        some (amount i),
                        (ap (λ q. advance fd q v) amount ∙ next) i,
                        hal.eeprom_update_block (place i) (take (amount i) buf) m,
                      ))))),
              inr refl,
            )
      ]

  -- What a write has put in is there.
  stored_bytes :
      (f p n : ℕ) (buf : List ℕ) (m m' : M)
      → p + n ≤ 10
      → n ≤ length buf
      → All IsByte buf
      → (n ≡ 0) ⊎ (m' ≡ hal.eeprom_update_block p (take n buf) m)
      → file_bytes hal eepfs_ops f p n m' ≡ take n buf
  unfolding file_bytes
  stored_bytes f p n buf m m' low short bytes (inl zero_left) =
      rw (zero_left, file_bytes)
        (length-zero _ (laws.length_read (u16 p) 0 m' (let room = laws.room in omega arith)))
  stored_bytes f p n buf m m' low short bytes (inr e) =
      let room = laws.room in
      let word : u16 p ≡ p = omega arith in
      let many : length (take n buf) ≡ n = omega (arith, length-take n buf) in
      let kept = laws.read_updated p (take n buf) m (omega arith) (All-take IsByte n buf bytes) in
      rw (e, file_bytes) (rw word (rw many at kept))

  -- Bytes that are written to an open file of the EEPROM, and read back after a seek to the place
  -- where they were written, are the bytes as far as they had room in the file. The descriptor was
  -- opened for writing, and the sum of the number of bytes, which is below 2 ^ 16, and the longest
  -- file's length fits in an `int`.
  pub write-read :
      (v : Vfs) (fd f p : ℕ) (buf : List ℕ) (m : M)
      → At v fd eepfs_ops f p
      → bit_and (fd_at v fd).flags o_wronly == 0 && bit_and (fd_at v fd).flags o_rdwr == 0 ≡ false
      → All IsByte buf
      → length buf < 65536
      → Fits hal (length buf)
      → let n = min (length buf) (ops_size eepfs_ops f - p) in
        let written = vfs_write hal fd buf v m in
        let sought = vfs_lseek hal.int_bits fd (pos p) seek_set written.1 in
        let back = vfs_read hal fd (length buf) sought.1 written.2 in
        (written.0 ≡ some n) × (sought.0 ≡ some p) × (back.0 ≡ some n) × (back.1 ≡ take n buf)
  write-read v fd f p buf m at writable bytes small fits =
      let size = ops_size eepfs_ops f in
      let n = min (length buf) (size - p) in
      let end = ops_size-bound eepfs_ops f in
      let placed : p ≤ size = let e = at.position in let h = at.opened.placed in omega arith in
      let (m', e1, stored) = vfs_write_lem v fd f p buf m at writable small fits in
      let after = at_position-At v fd eepfs_ops f p (p + n) at (omega arith) in
      let e2 =
        vfs_lseek-At hal.int_bits (at_position fd (p + n) v) fd eepfs_ops f (p + n) p laws.int_width
          after placed in
      let back = at_position-At (at_position fd (p + n) v) fd eepfs_ops f (p + n) p after placed in
      let whole : u16 (length buf) ≡ length buf = omega arith in
      let e3 =
        vfs_read_lem hal (at_position fd p (at_position fd (p + n) v)) fd eepfs_ops f p (length buf)
          m' laws back (rw whole fits) in
      rw e1 (
        rw e2 (
          rw e3 (
            rw whole (
              refl,
              refl,
              refl,
              stored_bytes f p n buf m m' (omega (arith, eepfs_size-bound f)) (omega arith) bytes
                  stored,
            ))))
