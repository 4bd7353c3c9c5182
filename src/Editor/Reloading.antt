-- ===== src/Editor/Reloading.antt =====
-- Loading a file in examples/ned.c and writing it back.
use avrix.Editor.Files.{fgets, load_lines, load_file, ned_init, file_name, empty_buffer}
use avrix.Editor.Rows.{rows, rows-insert_line, insert_line-IsBuffer, IsBuffer}
use avrix.Editor.Lines.{insert_at}
use avrix.Editor.Typing.{IsText}
use avrix.Editor.{
  some, ◌∷◌, ◌++◌, length, ◌+◌, List, ℕ, insert_line, line_text, file_text, row_of, strncpy,
  save_file, Scan, Buffer, Ned,
}
use avrix.NkFs.{Eeprom}
use avrix.Base.{
  ◌==◌, Bool-cases, if_false, length-take, zero, suc, ◌≤◌, ◌<◌, min, ◌≡◌, refl, sym, ap, ◌∙◌, ◌⊎◌,
  inl, inr, false, [], append-nil, append_assoc, arith,
}

-- What is read and what is left are the text; a line is as long as the room at most.
fgets_lem :
    (n : ℕ) (text : List ℕ)
    → IsText text
    → ((fgets n text).0 ++ (fgets n text).1 ≡ text)
      × (length (fgets n text).0 ≤ n)
      × IsText (fgets n text).0
      × IsText (fgets n text).1
unfolding fgets
fgets_lem zero text h = (refl, omega arith, tt, h)
fgets_lem (suc n) [] h = (refl, omega arith, tt, tt)
fgets_lem (suc n) (c ∷ text) (hc, h) =
    let (whole, short, line, left) = fgets_lem n text h in
    elim (Bool-cases (c == 10)) [
      | inl e ↦ rw e (refl, omega arith, (hc, tt), h)
      | inr e ↦ rw e (ap (◌∷◌ c) whole, omega arith, (hc, line), left)
    ]

line_text_self : (text : List ℕ) → IsText text → line_text text ≡ text
unfolding line_text
line_text_self [] h = refl
line_text_self (c ∷ text) (hc, h) =
    let ne : (c == 0) ≡ false = let pos = hc.0 in ground arith in
    rw ne (ap (◌∷◌ c) (line_text_self text h))

line_text-strncpy :
    (n : ℕ) (text : List ℕ)
    → IsText text
    → length text ≤ n
    → line_text (strncpy n text ++ (0 ∷ [])) ≡ text
unfolding line_text strncpy
line_text-strncpy zero [] h short = refl
line_text-strncpy zero (c ∷ text) h short = absurd (omega arith)
line_text-strncpy (suc n) [] h short = refl
line_text-strncpy (suc n) (c ∷ text) (hc, h) short =
    let ne : (c == 0) ≡ false = let pos = hc.0 in ground arith in
    rw ne (ap (◌∷◌ c) (line_text-strncpy n text h (omega arith)))

-- A line that fits its row is read from it again.
line_text-row_of : (text : List ℕ) → IsText text → length text ≤ 63 → line_text (row_of text) ≡ text
unfolding row_of
line_text-row_of text h short = line_text-strncpy 63 text h short

file_text-append : (xs ys : List (List ℕ)) → file_text (xs ++ ys) ≡ file_text xs ++ file_text ys
unfolding file_text
file_text-append [] ys = refl
file_text-append (row ∷ xs) ys =
    ap (◌++◌ (line_text row)) (file_text-append xs ys)
    ∙ sym (append_assoc (line_text row) (file_text xs) (file_text ys))

insert_at_end :
    {A : Type 0} (i : ℕ) (x : A) (xs : List A) → i ≡ length xs → insert_at i x xs ≡ xs ++ (x ∷ [])
unfolding insert_at
insert_at_end zero x [] e = refl
insert_at_end zero x (y ∷ xs) e = absurd (omega arith)
insert_at_end (suc i) x [] e = absurd (omega arith)
insert_at_end (suc i) x (y ∷ xs) e = ap (◌∷◌ y) (insert_at_end i x xs (omega arith))

-- A line that is read stands at the end of the file that the buffer is.
file_text-insert_line :
    (max_lines : ℕ) (line : List ℕ) (b : Buffer)
    → IsBuffer max_lines b
    → b.count < max_lines
    → IsText line
    → length line ≤ 63
    → file_text (rows (insert_line max_lines b.count (line_text line) b))
      ≡ file_text (rows b) ++ line
unfolding file_text
file_text-insert_line max_lines line b v room h short =
    let storage = v.storage in
    let all : min b.count b.count ≡ length (rows b) = ground (arith, length-take b.count b.lines) in
    ap (λ t. file_text (rows (insert_line max_lines b.count t b))) (line_text_self line h)
    ∙ ap file_text (rows-insert_line max_lines b.count line b v room)
    ∙ ap file_text (insert_at_end (min b.count b.count) (row_of line) (rows b) all)
    ∙ file_text-append (rows b) (row_of line ∷ [])
    ∙ ap (λ t. file_text (rows b) ++ t)
        (append-nil (line_text (row_of line)) ∙ line_text-row_of line h short)

count-insert_line :
    (max_lines idx : ℕ) (text : List ℕ) (b : Buffer)
    → b.count < max_lines
    → (insert_line max_lines idx text b).count ≡ b.count + 1
unfolding insert_line
count-insert_line max_lines idx text b room = ap (λ t. t.count) (if_false b _ (ground arith))

-- The text that is in the buffer and the text to read are what is in the buffer in the end, and
-- what is left of the file.
Loads : ℕ → List ℕ → Buffer → Buffer → Type 0
Loads max_lines text b after =
    (left : List ℕ) × (file_text (rows b) ++ text ≡ file_text (rows after) ++ left)
    × ((left ≡ []) ⊎ (after.count ≡ max_lines))

load_lines_lem :
    (max_lines n : ℕ) (text : List ℕ) (b : Buffer)
    → IsBuffer max_lines b
    → b.count + n ≡ max_lines
    → IsText text
    → Loads max_lines text b (load_lines max_lines n text b)
unfolding load_lines Loads
load_lines_lem max_lines zero text b v e h = (text, refl, inr (omega arith))
load_lines_lem max_lines (suc n) [] b v e h = ([], refl, inl refl)
load_lines_lem max_lines (suc n) (c ∷ text) b v e h =
    let read = fgets 63 (c ∷ text) in
    let (whole, short, line, more) = fgets_lem 63 (c ∷ text) h in
    let room : b.count < max_lines = omega arith in
    let b' = insert_line max_lines b.count (line_text read.0) b in
    let v' = insert_line-IsBuffer max_lines b.count (line_text read.0) b v in
    let up = count-insert_line max_lines b.count (line_text read.0) b room in
    let (left, same, end) = load_lines_lem max_lines n read.1 b' v' (omega arith) more in
    (
      left,
      ap (λ t. file_text (rows b) ++ t) (sym whole)
          ∙ sym (append_assoc (file_text (rows b)) read.0 read.1)
          ∙ ap (λ t. t ++ read.1) (sym (file_text-insert_line max_lines read.0 b v room line short))
          ∙ same,
      end,
    )

file_text-none : file_text [] ≡ []
unfolding file_text
file_text-none = refl

module _ {M : Type 0} (rom : Eeprom M) (scan : Scan) (ee : ℕ) where
  -- A file of characters other than NUL that ned has loaded and writes back starts as it did, and is
  -- the same unless all lines of the buffer are in use: no character of a long line is lost.
  pub load-save :
      (c : ℕ) (path text : List ℕ) (mem : M)
      → IsText text
      → let s = load_file (c ∷ path) (some text) (ned_init (c ∷ path) mem) in
        (saved : List ℕ) × (left : List ℕ) × ((save_file rom scan ee s).file ≡ some saved)
        × (text ≡ saved ++ left)
        × ((left ≡ []) ⊎ (s.buffer.count ≡ 16))
  unfolding save_file load_file Loads
  load-save c path text mem h =
      let v : IsBuffer 16 (empty_buffer 16) = record { storage = refl; in_range = omega arith } in
      let (left, same, end) = load_lines_lem 16 16 text (empty_buffer 16) v refl h in
      let b = load_lines 16 16 text (empty_buffer 16) in
      let saved = file_text (rows b) in
      let named : length (file_name (c ∷ path)) == 0 ≡ false = ground arith in
      let s : Ned M = record (ned_init (c ∷ path) mem) { buffer = b } in
      let nothing : file_text (rows (empty_buffer 16)) ≡ [] = file_text-none in
      (
        saved,
        left,
        ap (λ t. t.file) (if_false s (record s { file = some saved }) named),
        ap (λ t. t ++ text) (sym nothing) ∙ same,
        end,
      )
