-- ===== src/NkFs/Rows.antt =====
-- The search of src/nk_fs.c through the rows of the log: it ends, and what it leaves out.
use avrix.NkFs.{
  unpack_val, Log, tag_del, nk_fs_get, previous, unpack_key, block_ok, addr, search_blocks, Eeprom,
}
use avrix.Base.{
  leb, ◌==◌, if◌then◌else◌, ==_iff, ==_refl, Bool-cases, ℕ, zero, suc, ◌+◌, ◌-◌, ◌*◌, ◌%◌, ◌≤◌, ◌<◌,
  ◌≡◌, refl, ◌≢◌, inl, inr, false, ◌&&◌, Option, none, some, arith,
}

module _ {M : Type 0} (rom : Eeprom M) where
  -- The search in the row that is written reads the blocks up to where it starts, and no fuel is
  -- missing.
  pub search_blocks-agree :
      (i n n' key r : ℕ) (m m' : M)
      → i < n
      → i < n'
      → ((c : ℕ) → addr r 0 ≤ c → c < addr r i + 4 → rom.read_byte c m ≡ rom.read_byte c m')
      → search_blocks rom n key r r i m ≡ search_blocks rom n' key r r i m'
  unfolding search_blocks block_ok previous
  search_blocks-agree i zero n' key r m m' h h' same = absurd (omega arith)
  search_blocks-agree i (suc n) zero key r m m' h h' same = absurd (omega arith)
  search_blocks-agree zero (suc n) (suc n') key r m m' h h' same =
      rw (same (addr r 0) (omega arith) (omega arith)) (
        rw (same (addr r 0 + 1) (omega arith) (omega arith)) (
          rw (same (addr r 0 + 2) (omega arith) (omega arith))
            (rw (same (addr r 0 + 3) (omega arith) (omega arith)) (rw (==_refl r) refl))))
  search_blocks-agree (suc i) (suc n) (suc n') key r m m' h h' same =
      let below : suc i - 1 ≡ i = omega arith in
      let nonzero : suc i == 0 ≡ false = ground arith in
      let rest =
        search_blocks-agree i n n' key r m m' (omega arith) (omega arith)
          (λ c low lt. same c low (omega arith)) in
      let a = addr r (suc i) in
      rw (same a (omega arith) (omega arith)) (
        rw (same (a + 1) (omega arith) (omega arith)) (
          rw (same (a + 2) (omega arith) (omega arith))
            (rw (same (a + 3) (omega arith) (omega arith)) (rw nonzero (rw below (rw rest refl))))))

  -- The block before is nearer to the first block of the row that is written.
  previous-less :
      (cur r i : ℕ)
      → cur < 16
      → r < 16
      → i < 16
      → r == cur && i == 0 ≡ false
      → let p = previous rom r i in
        (p.0 < 16) × (p.1 < 16) × ((p.0 + 16 - cur) % 16 * 16 + p.1 < (r + 16 - cur) % 16 * 16 + i)
  unfolding previous
  previous-less cur r i hc hr hi more = elim (Bool-cases (i == 0)) [
    | inr later ↦ rw later (omega arith, omega arith, ground arith)
    | inl first ↦
        let i_zero : i ≡ 0 = (==_iff i 0).0 first in
        let other : r ≢ cur = λ e. absurd (ground arith) in
        rw first (elim (Bool-cases (r == 0)) [
          | inl bottom ↦
              let r_zero : r ≡ 0 = (==_iff r 0).0 bottom in
              rw bottom (omega arith, omega arith, omega arith)
          | inr above ↦
              let r_some : 0 < r = ground arith in rw above (omega arith, omega arith, omega arith)
        ])
  ]

  -- Fuel for the blocks between here and the first of the row that is written is enough.
  search_blocks-enough :
      (n key cur r i : ℕ) (m : M)
      → cur < 16
      → r < 16
      → i < 16
      → (r + 16 - cur) % 16 * 16 + i < n
      → (x : Option ℕ) × (search_blocks rom n key cur r i m ≡ some x)
  unfolding search_blocks
  search_blocks-enough zero key cur r i m hc hr hi enough = absurd (omega arith)
  search_blocks-enough (suc n) key cur r i m hc hr hi enough =
      let a = addr r i in
      elim (Bool-cases (block_ok rom a m)) [
        | inr broken ↦ (none, rw broken refl)
        | inl whole ↦
            elim (Bool-cases
              (unpack_key (rom.read_byte (a + 1) m) (rom.read_byte (a + 2) m) == key)) [
                | inl hit ↦ (
                  if rom.read_byte a m == tag_del
                      then none
                      else some (unpack_val (rom.read_byte (a + 2) m)),
                  rw (whole, search_blocks) (rw hit refl),
                )
                | inr miss ↦ elim (Bool-cases (r == cur && i == 0)) [
                  | inl over ↦ (none, rw (whole, search_blocks) (rw miss (rw over refl)))
                  | inr more ↦
                      let (row, idx, less) = previous-less cur r i hc hr hi more in
                      let (x, e) =
                        search_blocks-enough n key cur (previous rom r i).0 (previous rom r i).1 m
                          hc row idx (omega arith) in
                      (x, rw (whole, search_blocks) (rw miss (rw more (rw e refl))))
                ]
              ]
      ]

  start-place :
      (row idx : ℕ)
      → row < 16
      → idx < 16
      → let p = previous rom row idx in
        (p.0 < 16) × (p.1 < 16) × ((p.0 + 16 - row) % 16 * 16 + p.1 < 256)
  unfolding previous
  start-place row idx hr hi = elim (Bool-cases (idx == 0)) [
    | inr later ↦ rw later (omega arith, omega arith, ground arith)
    | inl first ↦ rw first (elim (Bool-cases (row == 0)) [
      | inl bottom ↦
          let r_zero : row ≡ 0 = (==_iff row 0).0 bottom in
          rw bottom (omega arith, omega arith, omega arith)
      | inr above ↦ rw above (omega arith, omega arith, omega arith)
    ])
  ]

  -- `nk_fs_get` ends with a value or without one, at the latest after the 256 blocks of the log: for
  -- a row below 16 and an index of 15 at most.
  pub nk_fs_get-returns :
      (key : ℕ) (s : Log M)
      → s.cur_row < 16
      → s.cur_idx < 16
      → (x : Option ℕ) × (nk_fs_get rom key s ≡ some x)
  unfolding nk_fs_get
  nk_fs_get-returns key s row idx = elim (Bool-cases (leb 2048 key)) [
    | inl large ↦ (none, rw large refl)
    | inr valid ↦
        let (r, i, less) = start-place s.cur_row s.cur_idx row idx in
        let (x, e) =
          search_blocks-enough 256 key s.cur_row (previous rom s.cur_row s.cur_idx).0
            (previous rom s.cur_row s.cur_idx).1 s.mem row r i less in
        (x, rw valid (rw e refl))
  ]

  -- Once the row that is written has a record, `nk_fs_get` reads no other row: if the contents of
  -- the EEPROM change outside of that row, it returns what it returned before. A key that was put
  -- in an earlier row is not found.
  pub other_rows :
      (key : ℕ) (s : Log M) (m : M)
      → s.cur_row < 16
      → 0 < s.cur_idx
      → s.cur_idx < 16
      → ((c : ℕ)
          → addr s.cur_row 0 ≤ c
          → c < addr (s.cur_row + 1) 0
          → rom.read_byte c s.mem ≡ rom.read_byte c m)
      → nk_fs_get rom key s
        ≡ nk_fs_get rom key (record { cur_row = s.cur_row; cur_idx = s.cur_idx; mem = m })
  unfolding nk_fs_get previous
  other_rows key s m row started idx same =
      let old : s.cur_idx == 0 ≡ false = ground arith in
      rw old (elim (Bool-cases (leb 2048 key)) [
        | inl large ↦ rw large refl
        | inr valid ↦ rw valid (
            search_blocks-agree (s.cur_idx - 1) 256 256 key s.cur_row s.mem m (omega arith)
              (omega arith) (λ c low high. same c low (omega arith)))
      ])
