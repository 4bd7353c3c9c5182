-- ===== src/Hal/Eeprom.antt =====
-- The EEPROM functions of arch/avr8/common/hal_avr8.c over avr-libc's, as drivers/fs/eepfs.c uses
-- them.
use avrix.Eepfs.Memory.{read_at}
use avrix.Hal.{
  hal_eeprom_read_byte, hal_eeprom_read_word, hal_eeprom_update_word, hal_eeprom_read_block,
  hal_eeprom_update_block, AvrLibc,
}
use avrix.Eepfs
use avrix.Base.{
  ltb, leb, if◌then◌else◌, Bool-cases, if_true, if_false, length, get_or, All, u16, IsByte, ℕ, ◌+◌,
  ◌-◌, ◌*◌, ◌/◌, ◌%◌, ◌≤◌, ◌<◌, ◌≡◌, refl, ap, ◌∙◌, ◌≢◌, inl, inr, true, false, ◌&&◌, List, [], ◌∷◌,
  arith,
}

-- Documented behaviour of avr-libc inside the EEPROM: a block or a word is read and updated byte by
-- byte, the low byte of a word first, and an update changes the bytes that it is about.
pub record IsAvrEeprom {M : Type 0} (libc : AvrLibc M) (size : ℕ) : Type 0 where
  pub block_read :
      (a n : ℕ) (m : M)
      → a + n ≤ size
      → libc.read_block a n m ≡ read_at a n (λ b. libc.read_byte b m)
  pub word_read :
      (a : ℕ) (m : M)
      → a + 1 < size
      → libc.read_word a m ≡ libc.read_byte a m + libc.read_byte (a + 1) m * 256
  pub block_updated :
      (a c : ℕ) (xs : List ℕ) (m : M)
      → a + length xs ≤ size
      → All IsByte xs
      → libc.read_byte c (libc.update_block a xs m)
        ≡ (if leb a c && ltb c (a + length xs) then get_or xs (c - a) 0 else libc.read_byte c m)
  pub word_updated :
      (a v : ℕ) (m : M)
      → a + 1 < size
      → v < 65536
      → libc.update_word a v m ≡ libc.update_block a ((v % 256) ∷ (v / 256) ∷ []) m

-- Which byte of an updated block is read.
byte_0 : (a x y d : ℕ) → (if leb a a && ltb a (a + 2) then get_or (x ∷ y ∷ []) (a - a) 0 else d) ≡ x
byte_0 a x y d =
    let within : leb a a && ltb a (a + 2) ≡ true = ground arith in
    let place : a - a ≡ 0 = omega arith in
    if_true _ d within ∙ ap (λ i. get_or (x ∷ y ∷ []) i 0) place

byte_1 :
    (a x y d : ℕ)
    → (if leb a (a + 1) && ltb (a + 1) (a + 2) then get_or (x ∷ y ∷ []) (a + 1 - a) 0 else d) ≡ y
byte_1 a x y d =
    let within : leb a (a + 1) && ltb (a + 1) (a + 2) ≡ true = ground arith in
    let place : a + 1 - a ≡ 1 = omega arith in
    if_true _ d within ∙ ap (λ i. get_or (x ∷ y ∷ []) i 0) place

byte_other :
    (a c x y d : ℕ)
    → c ≢ a
    → c ≢ a + 1
    → (if leb a c && ltb c (a + 2) then get_or (x ∷ y ∷ []) (c - a) 0 else d) ≡ d
byte_other a c x y d ne ne' =
    let without : leb a c && ltb c (a + 2) ≡ false = ground arith in if_false _ d without

module _ {M : Type 0} (libc : AvrLibc M) (size : ℕ) where
  -- The functions that drivers/fs/eepfs.c calls.
  abbrev pub avr_hal : Eepfs.Hal M
  avr_hal = record {
    int_bits = 16;
    eeprom_available = true;
    eeprom_size = u16 size;
    eeprom_read_block = hal_eeprom_read_block libc size;
    eeprom_update_block = hal_eeprom_update_block libc size;
  }

  module _ (laws : IsAvrEeprom libc size) (small : size < 65536) where
    -- The two bytes of a word that has been updated.
    word_bytes :
        (a v : ℕ) (m : M) → a + 1 < size → v < 65536 → libc.read_word a (libc.update_word a v m) ≡ v
    word_bytes a v m h word =
        let xs = (v % 256) ∷ (v / 256) ∷ [] in
        let m' = libc.update_block a xs m in
        let bytes : All IsByte xs = (omega arith, (omega arith, tt)) in
        let lo : libc.read_byte a m' ≡ v % 256 =
          laws.block_updated a a xs m (omega arith) bytes ∙ byte_0 a (v % 256) (v / 256) _ in
        let hi : libc.read_byte (a + 1) m' ≡ v / 256 =
          laws.block_updated a (a + 1) xs m (omega arith) bytes ∙ byte_1 a (v % 256) (v / 256) _ in
        ap (libc.read_word a) (laws.word_updated a v m h word)
        ∙ laws.word_read a m' h
        ∙ omega (arith, lo, hi)

    -- A word that is updated is read back, and other bytes stay as they were, if both its bytes are
    -- in the EEPROM; if not, it reads as all ones, and no byte changes. The address is below 65535.
    pub update-read_word :
        (a v c : ℕ) (m : M)
        → a < 65535
        → v < 65536
        → c ≢ a
        → c ≢ a + 1
        → let m' = hal_eeprom_update_word libc size a v m in
          (hal_eeprom_read_word libc size a m' ≡ (if ltb (a + 1) size then v else 65535))
          × (hal_eeprom_read_byte libc size c m' ≡ hal_eeprom_read_byte libc size c m)
    unfolding hal_eeprom_update_word hal_eeprom_read_word hal_eeprom_read_byte
    update-read_word a v c m low word ne ne' =
        let m' = libc.update_word a v m in
        let up : u16 (a + 1) ≡ a + 1 = omega arith in
        let bytes : All IsByte ((v % 256) ∷ (v / 256) ∷ []) = (omega arith, (omega arith, tt)) in
        elim (Bool-cases (ltb (a + 1) size)) [
          | inl inside ↦
              let below : a + 1 < size = ground arith in
              let test : leb size (a + 1) ≡ false = ground arith in
              let same : libc.read_byte c m' ≡ libc.read_byte c m =
                ap (libc.read_byte c) (laws.word_updated a v m below word)
                ∙ laws.block_updated a c ((v % 256) ∷ (v / 256) ∷ []) m (omega arith) bytes
                ∙ byte_other a c (v % 256) (v / 256) _ ne ne' in
              rw (up, inside, test) (word_bytes a v m below word, rw same refl)
          | inr outside ↦
              let test : leb size (a + 1) ≡ true = ground arith in
              rw (up, outside, test) (refl, refl)
        ]
