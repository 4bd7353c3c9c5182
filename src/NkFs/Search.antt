-- ===== src/NkFs/Search.antt =====
-- Writing records of src/nk_fs.c and finding them again in the row that is written.
use avrix.NkFs.Rows.{search_blocks-agree}
use avrix.NkFs.Record.{unpack_val-pack, pack1-IsByte, pack0-IsByte, unpack_key-pack}
use avrix.NkFs.{
  pack1, tag_put, pack0, unpack_val, tag_del, unpack_key, nk_fs_put, nk_fs_get, nk_fs_del, addr,
  previous, Log, block_ok, search_blocks, write_block, Eeprom, lut, crc3, crc8_update,
}
use avrix.Base.{
  ltb, leb, ◌==◌, if◌then◌else◌, ==_iff, ==-false_of_ne, ==_refl, if_true, if_false, get_or, u8,
  IsByte, each_below, each_below_lem, ℕ, zero, suc, ◌+◌, ◌-◌, ◌/◌, ◌%◌, ◌<◌, bit_xor, ◌≡◌, refl,
  sym, ap, ◌∙◌, ◌≢◌, Bool, true, false, not, ◌||◌, none, some, arith,
}

-- Documented behaviour of the EEPROM's functions on its 1024 bytes.
pub record IsRom {M : Type 0} (rom : Eeprom M) : Type 0 where
  pub same : (a b : ℕ) (m : M) → a < 1024 → IsByte b → rom.read_byte a (rom.update_byte a b m) ≡ b
  pub other :
      (a b c : ℕ) (m : M) → c ≢ a → rom.read_byte c (rom.update_byte a b m) ≡ rom.read_byte c m

lut_table : each_below (λ i. each_below (λ j. ltb (bit_xor (get_or lut i 0) j) 256) 8) 32 ≡ true
unfolding avrix.Base.Bits.each_below
lut_table = refl

crc8_update-IsByte : (crc byte : ℕ) → IsByte (crc8_update crc byte)
unfolding crc8_update
crc8_update-IsByte crc byte =
    let c = u8 (bit_xor crc byte) in
    let row =
      each_below_lem (λ i. each_below (λ j. ltb (bit_xor (get_or lut i 0) j) 256) 8) 32 (c % 32)
        (omega arith) lut_table in
    let cell : ltb (bit_xor (get_or lut (c % 32) 0) (c / 32)) 256 ≡ true =
      each_below_lem (λ j. ltb (bit_xor (get_or lut (c % 32) 0) j) 256) 8 (c / 32) (omega arith)
        row in
    ground arith

pub crc3-IsByte : (tag d0 d1 : ℕ) → IsByte (crc3 tag d0 d1)
unfolding crc3
crc3-IsByte tag d0 d1 = crc8_update-IsByte (crc8_update (crc8_update 0 tag) d0) d1

module _ {M : Type 0} (rom : Eeprom M) (laws : IsRom rom) where
  -- A record that is whole stands at an address.
  pub record Stands (a tag d0 d1 : ℕ) (m : M) : Type 0 where
    pub byte0 : rom.read_byte a m ≡ tag
    pub byte1 : rom.read_byte (a + 1) m ≡ d0
    pub byte2 : rom.read_byte (a + 2) m ≡ d1
    pub byte3 : rom.read_byte (a + 3) m ≡ crc3 tag d0 d1

  abbrev four : ℕ → ℕ → ℕ → ℕ → M → M
  four a tag d0 d1 m =
      rom.update_byte (a + 3) (crc3 tag d0 d1)
        (rom.update_byte (a + 2) d1 (rom.update_byte (a + 1) d0 (rom.update_byte a tag m)))

  four-Stands :
      (a tag d0 d1 : ℕ) (m : M)
      → a + 3 < 1024
      → IsByte tag
      → IsByte d0
      → IsByte d1
      → Stands a tag d0 d1 (four a tag d0 d1 m)
  four-Stands a tag d0 d1 m low t0 t1 t2 = record {
    byte0 =
        laws.other (a + 3) _ a _ (λ e. absurd (omega arith))
        ∙ laws.other (a + 2) _ a _ (λ e. absurd (omega arith))
        ∙ laws.other (a + 1) _ a _ (λ e. absurd (omega arith))
        ∙ laws.same a tag m (omega arith) t0;
    byte1 =
        laws.other (a + 3) _ (a + 1) _ (λ e. absurd (omega arith))
        ∙ laws.other (a + 2) _ (a + 1) _ (λ e. absurd (omega arith))
        ∙ laws.same (a + 1) d0 _ (omega arith) t1;
    byte2 =
        laws.other (a + 3) _ (a + 2) _ (λ e. absurd (omega arith))
        ∙ laws.same (a + 2) d1 _ (omega arith) t2;
    byte3 = laws.same (a + 3) _ _ low (crc3-IsByte tag d0 d1);
  }

  four-below :
      (a tag d0 d1 c : ℕ) (m : M) → c < a → rom.read_byte c (four a tag d0 d1 m) ≡ rom.read_byte c m
  four-below a tag d0 d1 c m h =
      laws.other (a + 3) _ c _ (λ e. absurd (omega arith))
      ∙ laws.other (a + 2) _ c _ (λ e. absurd (omega arith))
      ∙ laws.other (a + 1) _ c _ (λ e. absurd (omega arith))
      ∙ laws.other a _ c _ (λ e. absurd (omega arith))

  pub write_block_lem :
      (tag d0 d1 : ℕ) (s : Log M)
      → s.cur_row < 16
      → s.cur_idx < 14
      → IsByte tag
      → IsByte d0
      → IsByte d1
      → (m : M) × (write_block rom tag d0 d1 s
          ≡ (true, record { cur_row = s.cur_row; cur_idx = s.cur_idx + 1; mem = m }))
        × Stands (addr s.cur_row s.cur_idx) tag d0 d1 m
        × ((c : ℕ) → c < addr s.cur_row s.cur_idx → rom.read_byte c m ≡ rom.read_byte c s.mem)
  unfolding write_block
  write_block_lem tag d0 d1 s row idx t0 t1 t2 =
      let a = addr s.cur_row s.cur_idx in
      let stands = four-Stands a tag d0 d1 s.mem (omega arith) t0 t1 t2 in
      let verified : not (rom.read_byte (a + 3) (four a tag d0 d1 s.mem) == crc3 tag d0 d1)
          ≡ false =
        rw (stands.byte3) (ap not (==_refl (crc3 tag d0 d1))) in
      let more : leb 15 (s.cur_idx + 1) ≡ false = ground arith in
      (
        four a tag d0 d1 s.mem,
        if_false _ _ verified ∙ if_false _ _ more,
        stands,
        λ c h. four-below a tag d0 d1 c s.mem h,
      )

  -- What the search finds at a record that stands where it starts.
  search_blocks-Stands :
      (n key r i tag d0 d1 : ℕ) (m : M)
      → Stands (addr r i) tag d0 d1 m
      → search_blocks rom (suc n) key r r i m ≡ (
          if unpack_key d0 d1 == key
          then some (if tag == tag_del then none else some (unpack_val d1))
          else if i == 0
          then some none
          else search_blocks rom n key r r (i - 1) m)
  unfolding search_blocks block_ok previous
  search_blocks-Stands n key r zero tag d0 d1 m st = rw (st.byte3) (
      rw (st.byte2)
        (rw (st.byte1) (rw (st.byte0) (rw (==_refl (crc3 tag d0 d1)) (rw (==_refl r) refl)))))
  search_blocks-Stands n key r (suc i) tag d0 d1 m st =
      let nonzero : suc i == 0 ≡ false = ground arith in
      rw (st.byte3) (
        rw (st.byte2) (
          rw (st.byte1)
            (rw (st.byte0) (rw (==_refl (crc3 tag d0 d1)) (rw (==_refl r) (rw nonzero refl))))))

  -- After a record is written, its key is looked up in it, and other keys where they were before.
  write_block-nk_fs_get :
      (tag d0 d1 key : ℕ) (s : Log M)
      → s.cur_row < 16
      → s.cur_idx < 14
      → IsByte tag
      → IsByte d0
      → IsByte d1
      → key < 2048
      → (s' : Log M) × (write_block rom tag d0 d1 s ≡ (true, s'))
        × (unpack_key d0 d1 ≡ key
            → nk_fs_get rom key s' ≡ some (if tag == tag_del then none else some (unpack_val d1)))
        × (unpack_key d0 d1 ≢ key → 0 < s.cur_idx → nk_fs_get rom key s' ≡ nk_fs_get rom key s)
  unfolding nk_fs_get previous
  write_block-nk_fs_get tag d0 d1 key s row idx t0 t1 t2 hk =
      let (m, e, st, below) = write_block_lem tag d0 d1 s row idx t0 t1 t2 in
      let s' : Log M = record { cur_row = s.cur_row; cur_idx = s.cur_idx + 1; mem = m } in
      let inside : leb 2048 key ≡ false = ground arith in
      let there : s.cur_idx + 1 == 0 ≡ false = ground arith in
      let back : s.cur_idx + 1 - 1 ≡ s.cur_idx = omega arith in
      let head = search_blocks-Stands 255 key s.cur_row s.cur_idx tag d0 d1 m st in
      (
        s',
        e,
        λ hit. rw inside (rw there (rw back (head ∙ if_true _ _ ((==_iff _ _).1 hit)))),
        λ miss started.
            let old : s.cur_idx == 0 ≡ false = ground arith in
            rw inside (
              rw there (
                rw back (
                  rw old (
                    head
                    ∙ if_false _ _ (==-false_of_ne _ _ miss)
                    ∙ if_false _ _ old
                    ∙ search_blocks-agree rom (s.cur_idx - 1) 255 256 key s.cur_row m s.mem
                        (omega arith) (omega arith) (λ c low h. below c (omega arith)))))),
      )

  -- A put of a key below 2048 and a value below 32 succeeds; then the key is found with the value,
  -- and another key as before. The row has room for two records more, and for the other key it has
  -- one already.
  pub nk_fs_put-nk_fs_get :
      (key val other : ℕ) (s : Log M)
      → s.cur_row < 16
      → s.cur_idx < 14
      → key < 2048
      → val < 32
      → other < 2048
      → (s' : Log M) × (nk_fs_put rom key val s ≡ (true, s'))
        × (nk_fs_get rom key s' ≡ some (some val))
        × (key ≢ other → 0 < s.cur_idx → nk_fs_get rom other s' ≡ nk_fs_get rom other s)
  unfolding nk_fs_put
  nk_fs_put-nk_fs_get key val other s row idx hk hv ho =
      let valid : leb 2048 key || leb 32 val ≡ false = ground arith in
      let unpacked = unpack_key-pack key val hk hv in
      let (s', e, mine, u) =
        write_block-nk_fs_get tag_put (pack0 key) (pack1 key val) key s row idx (omega arith)
          (pack0-IsByte key) (pack1-IsByte key val) hk in
      let (s'', e'', u', kept) =
        write_block-nk_fs_get tag_put (pack0 key) (pack1 key val) other s row idx (omega arith)
          (pack0-IsByte key) (pack1-IsByte key val) ho in
      (
        s',
        if_false _ _ valid ∙ e,
        mine unpacked ∙ ap (λ v. some (some v)) (unpack_val-pack key val hk hv),
        λ ne started.
            ap (λ (r : Bool × Log M). nk_fs_get rom other r.1) (sym e ∙ e'')
            ∙ kept (λ q. ne (sym unpacked ∙ q)) started,
      )

  -- A deletion of a key below 2048 succeeds; then the key is not found, and another key as before.
  -- The row has room for two records more, and for the other key it has one already.
  pub nk_fs_del-nk_fs_get :
      (key other : ℕ) (s : Log M)
      → s.cur_row < 16
      → s.cur_idx < 14
      → key < 2048
      → other < 2048
      → (s' : Log M) × (nk_fs_del rom key s ≡ (true, s'))
        × (nk_fs_get rom key s' ≡ some none)
        × (key ≢ other → 0 < s.cur_idx → nk_fs_get rom other s' ≡ nk_fs_get rom other s)
  unfolding nk_fs_del
  nk_fs_del-nk_fs_get key other s row idx hk ho =
      let valid : leb 2048 key ≡ false = ground arith in
      let unpacked = unpack_key-pack key 0 hk (omega arith) in
      let (s', e, mine, u) =
        write_block-nk_fs_get tag_del (pack0 key) (pack1 key 0) key s row idx (omega arith)
          (pack0-IsByte key) (pack1-IsByte key 0) hk in
      let (s'', e'', u', kept) =
        write_block-nk_fs_get tag_del (pack0 key) (pack1 key 0) other s row idx (omega arith)
          (pack0-IsByte key) (pack1-IsByte key 0) ho in
      (
        s',
        if_false _ _ valid ∙ e,
        mine unpacked,
        λ ne started.
            ap (λ (r : Bool × Log M). nk_fs_get rom other r.1) (sym e ∙ e'')
            ∙ kept (λ q. ne (sym unpacked ∙ q)) started,
      )
