-- ===== src/Editor/Tests.antt =====
-- Runs of examples/editor_common.c, examples/ned.c and examples/vini.c.
use avrix.Editor.Erasing.{type-erase, keys, IsTyping}
use avrix.Editor.Reloading.{load-save}
use avrix.Editor.Files.{ned_init, load_file}
use avrix.Editor.Typing.{IsText}
use avrix.Editor.Vini.{Vini}
use avrix.Editor.Commands.{no_more, inserts, deletes, more, save-edit-load}
use avrix.Editor.Lines.{remove_at, insert_at}
use avrix.Editor.Copy.{row_of-IsRow, IsRow}
use avrix.Editor.Rows.{edits_lem, rows, IsBuffer}
use avrix.NkFs.Memory.{memory, memory-IsRom}
use avrix.Editor.{
  line_text, save_file, replace_line, delete_line, eeprom_save, leaves, goes_on, insert_line,
  line_index, ned_run, edit_command, row_of, Buffer, Ned, Scan,
}
use avrix.Base.{
  leb, if◌then◌else◌, set, take, replicate, All, ℕ, zero, suc, ◌≤◌, min, ◌≡◌, refl, ◌⊎◌, true, none,
  some, List, [], ◌∷◌, ◌++◌, arith,
}

abbrev two_lines : Buffer
two_lines = record {
  lines =
      row_of (b'o' ∷ b'n' ∷ b'e' ∷ 10 ∷ [])
      ∷ row_of (b't' ∷ b'w' ∷ b'o' ∷ 10 ∷ [])
      ∷ replicate 14 (row_of []);
  count = 2;
}

two_lines-IsBuffer : IsBuffer 16 two_lines
two_lines-IsBuffer = record { storage = refl; in_range = omega arith }

abbrev half : List ℕ
half = b'h' ∷ 10 ∷ []

edits_lem_example :
    (rows (insert_line 16 1 half two_lines) ≡ (
      if leb 16 two_lines.count
      then rows two_lines
      else insert_at (min 1 two_lines.count) (row_of half) (rows two_lines)))
    × (rows (delete_line 1 two_lines) ≡ remove_at 1 (rows two_lines))
    × (rows (replace_line 1 half two_lines) ≡ set (rows two_lines) 1 (row_of half))
    × (line_text (row_of half) ≡ take 63 (line_text half))
edits_lem_example = edits_lem 16 1 half two_lines two_lines-IsBuffer

-- What `sscanf` finds in the arguments of the commands below.
abbrev scan : Scan
scan = record {
  number = λ args. some 1;
  number_text = λ args. some (0, half);
  text = λ args. some half;
}

abbrev session : Ned (ℕ → ℕ)
session = record { buffer = two_lines; filename = []; file = none; mem = λ a. 255 }

-- Line 0 is taken for the last, and line 257 for the first.
line_0 :
    edit_command memory scan 0 b'i' [] session
    ≡ goes_on (record session { buffer = insert_line 16 255 half two_lines })
unfolding edit_command
line_0 = refl

line_257 : ◌≡◌ {A = ℕ} (line_index 257) 0
line_257 = refl

All-replicate : (n : ℕ) (row : List ℕ) → IsRow row → All IsRow (replicate n row)
All-replicate zero row h = tt
All-replicate (suc n) row h = (h, All-replicate n row h)

two_lines-IsRow : All IsRow two_lines.lines
two_lines-IsRow = (
  row_of-IsRow _ (omega arith),
  (row_of-IsRow _ (omega arith), All-replicate 14 (row_of []) (row_of-IsRow [] tt)),
)

save-edit-load_example :
    (s' : Ned (ℕ → ℕ)) × (ned_run memory scan 0
        ((b'E' ∷ []) ∷ (((b'd' ∷ b'1' ∷ []) ∷ (b'i' ∷ []) ∷ []) ++ ((b'L' ∷ []) ∷ [])))
        session
      ≡ leaves s')
    × (rows s'.buffer ≡ rows two_lines)
    × (s'.mem ≡ eeprom_save memory 0 two_lines session.mem)
save-edit-load_example =
    save-edit-load memory scan 0 memory-IsRom ((b'd' ∷ b'1' ∷ []) ∷ (b'i' ∷ []) ∷ []) [] [] session
      (more (deletes (b'1' ∷ [])) (more (inserts []) no_more)) two_lines-IsBuffer two_lines-IsRow
      (omega arith)

-- `AB` in row 0, and the cursor between the two.
abbrev at_b : Vini (ℕ → ℕ)
at_b = record {
  lines = b'A' ∷ b'B' ∷ 0 ∷ 0 ∷ replicate 892 0;
  count = 1;
  row = 0;
  col = 1;
  insert_mode = true;
  prev = 0;
  yank = [];
  file = none;
  mem = λ a. 255;
}

at_b-IsTyping : (room : ℕ) → room ≤ 892 → IsTyping [] (b'A' ∷ b'B' ∷ []) 0 1 room at_b
at_b-IsTyping room h = record {
  inserting = refl;
  at_row = refl;
  at_col = refl;
  tail = 0 ∷ replicate 892 0;
  line = refl;
  spare = omega arith;
  within = omega arith;
  same = refl;
}

type-erase_example :
    IsTyping [] (b'A' ∷ b'x' ∷ b'y' ∷ b'B' ∷ []) 0 3 100 (keys memory 0 (b'x' ∷ b'y' ∷ []) at_b)
    × IsTyping [] (b'A' ∷ b'B' ∷ []) 0 1 102 (keys memory 0 (b'x' ∷ b'y' ∷ 127 ∷ 127 ∷ []) at_b)
type-erase_example =
    type-erase memory 0 [] 0 (b'x' ∷ b'y' ∷ []) 1 100 (b'A' ∷ b'B' ∷ []) at_b
      (at_b-IsTyping 102 (omega arith))
      ((omega arith, omega arith), ((omega arith, omega arith), tt)) (omega arith) (omega arith)
      (
        (omega arith, omega arith, (λ e. omega arith), (λ e. omega arith), (λ e. omega arith)),
        (
          (omega arith, omega arith, (λ e. omega arith), (λ e. omega arith), (λ e. omega arith)),
          tt,
        ),
      )

-- A file of a line of 70 characters and a short one.
abbrev long_text : List ℕ
long_text = replicate 70 b'a' ++ (10 ∷ b'b' ∷ 10 ∷ [])

long_text-IsText : IsText long_text
long_text-IsText = repeated 70
  where
    repeated : (n : ℕ) → IsText (replicate n b'a' ++ (10 ∷ b'b' ∷ 10 ∷ []))
    repeated zero =
        ((omega arith, omega arith), ((omega arith, omega arith), ((omega arith, omega arith), tt)))
    repeated (suc n) = ((omega arith, omega arith), repeated n)

abbrev erased : ℕ → ℕ
erased a = 255

load-save_example :
    let s = load_file (b'f' ∷ []) (some long_text) (ned_init (b'f' ∷ []) erased) in
    (saved : List ℕ) × (left : List ℕ) × ((save_file memory scan 0 s).file ≡ some saved)
    × (long_text ≡ saved ++ left)
    × ((left ≡ []) ⊎ (s.buffer.count ≡ 16))
load-save_example = load-save memory scan 0 b'f' [] long_text erased long_text-IsText
