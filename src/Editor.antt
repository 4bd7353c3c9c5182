-- ===== src/Editor.antt =====
-- The editors of examples/: the lines of examples/editor_common.c, and examples/ned.c, with the
-- EEPROM copy that examples/ned.c and examples/vini.c have in common. A line is an array of 64
-- bytes, `lines` a list of `MAX_LINES` such rows, and a C string the list of its characters before
-- the NUL. The keys of examples/vini.c are in Editor/Vini.antt, and
-- the loading of files in Editor/Files.antt.
pub mod Lines
pub mod Rows
pub mod Copy
pub mod Commands
pub mod Files
pub mod Reloading
pub mod Vini
pub mod Typing
pub mod Erasing
mod Tests
use avrix.NkFs.{Eeprom}
use avrix.Base.{
  ltb, leb, ◌==◌, if◌then◌else◌, length, get_or, set, take, u8, ℕ, zero, suc, ◌+◌, ◌-◌, Bool, true,
  false, ◌&&◌, Option, none, some, List, [], ◌∷◌, ◌++◌,
}

abbrev pub max_line_len : ℕ
max_line_len = 64

abbrev pub ned_lines : ℕ
ned_lines = 16

-- `struct Buffer`
pub record Buffer : Type 0 where
  pub lines : List (List ℕ)
  pub count : ℕ

-- `strncpy` of `n` characters: the rest is filled with NUL.
unfoldable pub strncpy : ℕ → List ℕ → List ℕ
strncpy zero text = []
strncpy (suc n) [] = 0 ∷ strncpy n []
strncpy (suc n) (c ∷ text) = c ∷ strncpy n text

-- The row that a text is stored as.
unfoldable pub row_of : List ℕ → List ℕ
row_of text = strncpy (max_line_len - 1) text ++ (0 ∷ [])

-- The `for` loop of `insert_line`, with `n` rounds left: the last writes row `idx + 1`.
unfoldable pub move_down : ℕ → ℕ → List (List ℕ) → List (List ℕ)
move_down zero idx lines = lines
move_down (suc n) idx lines = move_down n idx (set lines (idx + suc n) (get_or lines (idx + n) []))

-- The `for` loop of `delete_line` from `i` on, with `n` rounds left.
unfoldable pub move_up : ℕ → ℕ → List (List ℕ) → List (List ℕ)
move_up zero i lines = lines
move_up (suc n) i lines = move_up n (i + 1) (set lines i (get_or lines (i + 1) []))

-- `max_lines` is `MAX_LINES`, 16 for ned and 14 for vini.
module _ (max_lines : ℕ) where
  unfoldable pub insert_line : ℕ → List ℕ → Buffer → Buffer
  insert_line idx text b =
      let i = if ltb b.count idx then b.count else idx in
      if leb max_lines b.count then b else record {
        lines = set (move_down (b.count - i) i b.lines) i (row_of text);
        count = b.count + 1;
      }

unfoldable pub delete_line : ℕ → Buffer → Buffer
delete_line idx b =
    if leb b.count idx
    then b
    else record { lines = move_up (b.count - (idx + 1)) idx b.lines; count = b.count - 1 }

unfoldable pub replace_line : ℕ → List ℕ → Buffer → Buffer
replace_line idx text b =
    if leb b.count idx then b else record b { lines = set b.lines idx (row_of text) }

-- `eeprom_save` and `eeprom_load`, with `ee_buf` at address `ee`.
module _ {M : Type 0} (rom : Eeprom M) where
  -- The inner loops, over the bytes of a row.
  unfoldable pub save_row : ℕ → List ℕ → M → M
  save_row a [] m = m
  save_row a (x ∷ row) m = save_row (a + 1) row (rom.update_byte a x m)

  unfoldable pub load_row : ℕ → ℕ → M → List ℕ
  load_row a zero m = []
  load_row a (suc n) m = rom.read_byte a m ∷ load_row (a + 1) n m

  -- The outer loops, with `n` rounds left.
  unfoldable pub save_rows : ℕ → ℕ → List (List ℕ) → M → M
  save_rows a zero lines m = m
  save_rows a (suc n) [] m = m
  save_rows a (suc n) (row ∷ lines) m = save_rows (a + max_line_len) n lines (save_row a row m)

  unfoldable pub load_rows : ℕ → ℕ → List (List ℕ) → M → List (List ℕ)
  load_rows a zero lines m = lines
  load_rows a (suc n) [] m = []
  load_rows a (suc n) (row ∷ lines) m =
      load_row a max_line_len m ∷ load_rows (a + max_line_len) n lines m

  unfoldable pub eeprom_save : ℕ → Buffer → M → M
  eeprom_save ee b m = save_rows (ee + 1) b.count b.lines (rom.update_byte ee b.count m)

  unfoldable pub eeprom_load : ℕ → ℕ → Buffer → M → Buffer
  eeprom_load max_lines ee b m =
      let stored = rom.read_byte ee m in
      let n = if ltb max_lines stored then max_lines else stored in
      record { lines = load_rows (ee + 1) n b.lines m; count = n }

-- What `fputs` writes of a row: the characters before the NUL.
unfoldable pub line_text : List ℕ → List ℕ
line_text [] = []
line_text (c ∷ row) = let rest = line_text row in if c == 0 then [] else c ∷ rest

-- What `save_file` writes, line by line.
unfoldable pub file_text : List (List ℕ) → List ℕ
file_text [] = []
file_text (row ∷ rows) = line_text row ++ file_text rows

-- examples/ned.c. The `%u`, `%u %[...]` and `%[...]` of `sscanf` read a number, a number and a text,
-- and a text.
pub record Scan : Type 0 where
  pub number : List ℕ → Option ℕ
  pub number_text : List ℕ → Option (ℕ × List ℕ)
  pub text : List ℕ → Option (List ℕ)

-- The buffer, its `filename`, what was last written to that file, and the EEPROM.
pub record Ned (M : Type 0) : Type 0 where
  pub buffer : Buffer
  pub filename : List ℕ
  pub file : Option (List ℕ)
  pub mem : M

-- Whether the loop of `main` goes on after a command.
pub data Outcome (M : Type 0) : Type 0 where
  goes_on leaves : Ned M → Outcome M

-- `strncmp(cmd, word, strlen(word)) == 0`
unfoldable pub starts_with : List ℕ → List ℕ → Bool
starts_with [] cmd = true
starts_with (w ∷ word) [] = false
starts_with (w ∷ word) (c ∷ cmd) = c == w && starts_with word cmd

-- `(uint8_t)(line - 1)` of an `unsigned int`.
abbrev pub line_index : ℕ → ℕ
line_index line = u8 (line + 255)

module _ {M : Type 0} (rom : Eeprom M) (scan : Scan) (ee : ℕ) where
  -- The file is written if there is a name; it can be opened.
  unfoldable pub save_file : Ned M → Ned M
  save_file s =
      if length s.filename == 0
      then s
      else record s { file = some (file_text (take s.buffer.count s.buffer.lines)) }

  unfoldable pub save_both : Ned M → Ned M
  save_both s =
      let saved = save_file s in record saved { mem = eeprom_save rom ee saved.buffer saved.mem }

  abbrev edited : (Buffer → Buffer) → Ned M → Outcome M
  edited change s = goes_on (record s { buffer = change s.buffer })

  -- The commands with arguments, by the first character of the line.
  unfoldable pub edit_command : ℕ → List ℕ → Ned M → Outcome M
  edit_command c args s =
      if c == b'e'
      then elim (scan.number_text args) [
        | none ↦ goes_on s
        | some (line, text) ↦
            if line == 0 then goes_on s else edited (replace_line (line_index line) text) s
      ]
      else if c == b'i'
      then elim (scan.number_text args) [
        | none ↦ goes_on s
        | some (line, text) ↦ edited (insert_line ned_lines (line_index line) text) s
      ]
      else if c == b'a'
      then elim (scan.text args) [
        | none ↦ goes_on s
        | some text ↦ edited (insert_line ned_lines s.buffer.count text) s
      ]
      else if c == b'd'
      then elim (scan.number args) [
        | none ↦ goes_on s
        | some line ↦ edited (delete_line (line_index line)) s
      ]
      else if c == b'E'
      then goes_on (record s { mem = eeprom_save rom ee s.buffer s.mem })
      else if c == b'L'
      then edited (λ b. eeprom_load rom ned_lines ee b s.mem) s
      else goes_on s

  -- One round of the loop of `main`; what it prints is left out.
  unfoldable pub ned_step : List ℕ → Ned M → Outcome M
  ned_step [] s = goes_on s
  ned_step (c ∷ args) s =
      if starts_with (b'q' ∷ []) (c ∷ args)
      then leaves s
      else if starts_with (b'w' ∷ b'q' ∷ []) (c ∷ args)
      then leaves (save_both s)
      else if starts_with (b'w' ∷ []) (c ∷ args)
      then goes_on (save_both s)
      else edit_command c args s

  -- The loop of `main` over the lines typed, up to a command that leaves it or the end of the input.
  unfoldable pub ned_run : List (List ℕ) → Ned M → Outcome M
  ned_run [] s = leaves s
  ned_run (cmd ∷ cmds) s = elim (ned_step cmd s) [
    | goes_on s' ↦ ned_run cmds s'
    | leaves s' ↦ leaves s'
  ]
