-- ===== src/Editor/Copy.antt =====
-- `eeprom_save` and `eeprom_load` of examples/ned.c and examples/vini.c.
use avrix.Editor.Rows.{rows, IsBuffer}
use avrix.NkFs.{Eeprom}
use avrix.NkFs.Search.{IsRom}
use avrix.Editor.{
  row_of, strncpy, load_rows, eeprom_load, save_row, load_row, save_rows, max_line_len, eeprom_save,
  Buffer,
}
use avrix.Base.{
  ltb, if◌then◌else◌, length, take, All, length-append, All-append, IsByte, ℕ, zero, suc, ◌+◌, ◌-◌,
  ◌*◌, ◌≤◌, ◌<◌, ◌≡◌, refl, sym, ap, ap₂, ◌∙◌, List, [], ◌∷◌, arith,
}

-- A row of 64 bytes.
abbrev pub IsRow : List ℕ → Type 0
IsRow row = (length row ≡ max_line_len) × All IsByte row

strncpy-IsRow :
    (n : ℕ) (text : List ℕ)
    → All IsByte text
    → (length (strncpy n text) ≡ n) × All IsByte (strncpy n text)
unfolding strncpy
strncpy-IsRow zero text h = (refl, tt)
strncpy-IsRow (suc n) [] h =
    let (size, bytes) = strncpy-IsRow n [] tt in (ap suc size, (omega arith, bytes))
strncpy-IsRow (suc n) (c ∷ text) (byte, h) =
    let (size, bytes) = strncpy-IsRow n text h in (ap suc size, (byte, bytes))

-- A text of bytes is stored as a row.
pub row_of-IsRow : (text : List ℕ) → All IsByte text → IsRow (row_of text)
unfolding row_of
row_of-IsRow text h =
    let (size, bytes) = strncpy-IsRow (max_line_len - 1) text h in
    (
      length-append (strncpy (max_line_len - 1) text) (0 ∷ []) ∙ omega (arith, size),
      All-append IsByte (strncpy (max_line_len - 1) text) (0 ∷ []) bytes (omega arith, tt),
    )

module _ {M : Type 0} (rom : Eeprom M) (laws : IsRom rom) where
  save_row-below :
      (c a : ℕ) (row : List ℕ) (m : M)
      → c < a
      → rom.read_byte c (save_row rom a row m) ≡ rom.read_byte c m
  unfolding save_row
  save_row-below c a [] m h = refl
  save_row-below c a (x ∷ row) m h =
      save_row-below c (a + 1) row (rom.update_byte a x m) (omega arith)
      ∙ laws.other a x c m (λ e. omega arith)

  save_rows-below :
      (c a n : ℕ) (lines : List (List ℕ)) (m : M)
      → c < a
      → rom.read_byte c (save_rows rom a n lines m) ≡ rom.read_byte c m
  unfolding save_rows
  save_rows-below c a zero lines m h = refl
  save_rows-below c a (suc n) [] m h = refl
  save_rows-below c a (suc n) (row ∷ lines) m h =
      save_rows-below c (a + max_line_len) n lines (save_row rom a row m) (omega arith)
      ∙ save_row-below c a row m h

  -- A row is read back as it was saved, and stays when others are saved above it.
  load-save_row :
      (a : ℕ) (row : List ℕ) (m : M)
      → All IsByte row
      → a + length row ≤ 1024
      → load_row rom a (length row) (save_row rom a row m) ≡ row
  unfolding save_row load_row
  load-save_row a [] m bytes h = refl
  load-save_row a (x ∷ row) m (byte, bytes) h =
      ap₂ ◌∷◌
        (save_row-below a (a + 1) row (rom.update_byte a x m) (omega arith)
          ∙ laws.same a x m (omega arith) byte)
        (load-save_row (a + 1) row (rom.update_byte a x m) bytes (omega arith))

  load_row-below :
      (a n a' k : ℕ) (lines : List (List ℕ)) (m : M)
      → a + n ≤ a'
      → load_row rom a n (save_rows rom a' k lines m) ≡ load_row rom a n m
  unfolding load_row
  load_row-below a zero a' k lines m h = refl
  load_row-below a (suc n) a' k lines m h =
      ap₂ ◌∷◌ (save_rows-below a a' k lines m (omega arith))
        (load_row-below (a + 1) n a' k lines m (omega arith))

  load-save_rows :
      (a n : ℕ) (lines lines' : List (List ℕ)) (m : M)
      → All IsRow lines
      → n ≤ length lines
      → n ≤ length lines'
      → a + n * max_line_len ≤ 1024
      → take n (load_rows rom a n lines' (save_rows rom a n lines m)) ≡ take n lines
  unfolding save_rows load_rows
  load-save_rows a zero lines lines' m v h h' fits = refl
  load-save_rows a (suc n) [] lines' m v h h' fits = absurd (omega arith)
  load-save_rows a (suc n) (row ∷ lines) [] m v h h' fits = absurd (omega arith)
  load-save_rows a (suc n) (row ∷ lines) (old ∷ lines') m ((size, bytes), v) h h' fits =
      let saved = save_row rom a row m in
      ap₂ ◌∷◌
        (load_row-below a max_line_len (a + max_line_len) n lines saved (omega arith)
          ∙ ap (λ k. load_row rom a k saved) (sym size)
          ∙ load-save_row a row m bytes (omega arith))
        (load-save_rows (a + max_line_len) n lines lines' saved v (omega arith) (omega arith)
          (omega arith))

  -- A buffer that is saved and then loaded over any other has the rows that it had, if its copy
  -- fits in the EEPROM.
  pub eeprom_load-eeprom_save :
      (max_lines ee : ℕ) (b b' : Buffer) (m : M)
      → IsBuffer max_lines b
      → IsBuffer max_lines b'
      → All IsRow b.lines
      → max_lines < 256
      → ee + 1 + b.count * max_line_len ≤ 1024
      → rows (eeprom_load rom max_lines ee b' (eeprom_save rom ee b m)) ≡ rows b
  unfolding eeprom_save eeprom_load
  eeprom_load-eeprom_save max_lines ee b b' m v v' bytes small fits =
      let counted = rom.update_byte ee b.count m in
      let copied = save_rows rom (ee + 1) b.count b.lines counted in
      let in_range = v.in_range in
      let stored : rom.read_byte ee copied ≡ b.count =
        save_rows-below ee (ee + 1) b.count b.lines counted (omega arith)
        ∙ laws.same ee b.count m (omega arith) (omega arith) in
      let read : (if ltb max_lines (rom.read_byte ee copied)
            then max_lines
            else rom.read_byte ee copied)
          ≡ b.count =
        ground (arith, stored) in
      let h = v.storage in
      let h' = v'.storage in
      ap (λ k. take k (load_rows rom (ee + 1) k b'.lines copied)) read
      ∙ load-save_rows (ee + 1) b.count b.lines b'.lines counted bytes (omega arith) (omega arith)
          fits
