-- ===== src/Editor/Vini.antt =====
-- `command_loop` of examples/vini.c. The array `lines` is the list of its bytes, 64 for each row, and
-- a pointer into it the rest of the list from there on. A write past the end of the array is lost, and
-- an amount to move that would be negative is 0. The keys of an arrow are one key here; drawing is
-- left out.
use avrix.NkFs.{Eeprom}
use avrix.Editor.{
  eeprom_load, delete_line, eeprom_save, insert_line, file_text, max_line_len, line_text, Buffer,
}
use avrix.Base.{
  ltb, leb, ◌==◌, if◌then◌else◌, length, set, take, drop, u8, ℕ, zero, suc, ◌+◌, ◌-◌, ◌*◌, Bool,
  true, false, not, ◌&&◌, ◌||◌, Option, none, some, List, [], ◌∷◌, ◌++◌,
}

abbrev pub vini_lines : ℕ
vini_lines = 14

-- The buffer and the variables of the loop, with `yank`, the file last written and the EEPROM.
pub record Vini (M : Type 0) : Type 0 where
  pub lines : List ℕ
  pub count : ℕ
  pub row : ℕ
  pub col : ℕ
  pub insert_mode : Bool
  pub prev : ℕ
  pub yank : List ℕ
  pub file : Option (List ℕ)
  pub mem : M

-- `lines` as rows, and back.
unfoldable pub split_rows : ℕ → List ℕ → List (List ℕ)
split_rows zero lines = []
split_rows (suc n) lines = take max_line_len lines ∷ split_rows n (drop max_line_len lines)

unfoldable pub join_rows : List (List ℕ) → List ℕ
join_rows [] = []
join_rows (row ∷ rows) = row ++ join_rows rows

abbrev pub buffer_of : {M : Type 0} → Vini M → Buffer
buffer_of s = record { lines = split_rows vini_lines s.lines; count = s.count }

abbrev pub with_buffer : {M : Type 0} → Buffer → Vini M → Vini M
with_buffer b s = record s { lines = join_rows b.lines; count = b.count }

-- `b->lines[row]`, and a change of the memory from there on.
abbrev pub line_at : {M : Type 0} → ℕ → Vini M → List ℕ
line_at row s = drop (row * max_line_len) s.lines

abbrev pub change_line : {M : Type 0} → (List ℕ → List ℕ) → Vini M → Vini M
change_line change s = record s {
  lines = take (s.row * max_line_len) s.lines ++ change (line_at s.row s);
}

unfoldable pub strlen : List ℕ → ℕ
strlen p = length (line_text p)

-- `memmove(&p[to], &p[from], n)`
unfoldable pub memmove : ℕ → ℕ → ℕ → List ℕ → List ℕ
memmove to from n p = take to p ++ (take n (drop from p) ++ drop (to + n) p)

unfoldable pub has_prefix : List ℕ → List ℕ → Bool
has_prefix [] p = true
has_prefix (c ∷ cs) [] = false
has_prefix (c ∷ cs) (d ∷ p) = c == d && has_prefix cs p

-- `strstr(p, term)`, where `p` is what is before the NUL.
unfoldable pub contains : List ℕ → List ℕ → Bool
contains term [] = has_prefix term []
contains term (c ∷ p) = let later = contains term p in has_prefix term (c ∷ p) || later

-- The loop of the search from row `i` on, with `n` rounds left: the row that is found.
unfoldable pub find_row : {M : Type 0} → ℕ → ℕ → List ℕ → Vini M → Option ℕ
find_row zero i term s = none
find_row (suc n) i term s =
    let later = find_row n (i + 1) term s in
    if contains term (line_text (line_at i s)) then some i else later

module _ {M : Type 0} (rom : Eeprom M) (ee : ℕ) where
  -- The column after a move to another row.
  abbrev clamp_col : Vini M → Vini M
  clamp_col s = record s {
    col = if leb (strlen (line_at s.row s)) s.col then u8 (strlen (line_at s.row s)) else s.col;
  }

  -- `dd`
  abbrev delete_row : Vini M → Vini M
  delete_row s =
      let b = delete_line s.row (buffer_of s) in
      record (with_buffer b s) {
        row = if leb b.count s.row then u8 (b.count + 255) else s.row;
        prev = 0;
      }

  -- Command mode: the keys other than `:` and `/`.
  unfoldable pub command_key : ℕ → Vini M → Vini M
  command_key ch s =
      let len = strlen (line_at s.row s) in
      if ch == b'i'
      then record s { insert_mode = true }
      else if ch == b'h' && ltb 0 s.col
      then record s { col = s.col - 1 }
      else if ch == b'l' && ltb (s.col + 1) len
      then record s { col = u8 (s.col + 1) }
      else if ch == b'j' && ltb (s.row + 1) s.count
      then clamp_col (record s { row = u8 (s.row + 1) })
      else if ch == b'k' && ltb 0 s.row
      then clamp_col (record s { row = s.row - 1 })
      else if ch == b'x' && ltb s.col len
      then change_line (memmove s.col (s.col + 1) (len - s.col)) s
      else if ch == b'o'
      then record (with_buffer (insert_line vini_lines (u8 (s.row + 1)) (10 ∷ []) (buffer_of s))
          s) { row = u8 (s.row + 1); col = 0; insert_mode = true }
      else if ch == b'd' && s.prev == b'd'
      then delete_row s
      else if ch == b'd'
      then record s { prev = b'd' }
      else if ch == b'y' && s.prev == b'y'
      then record s { yank = take (max_line_len - 1) (line_text (line_at s.row s)); prev = 0 }
      else if ch == b'y'
      then record s { prev = b'y' }
      else if ch == b'p' && ltb 0 (length s.yank)
      then with_buffer (insert_line vini_lines (u8 (s.row + 1)) s.yank (buffer_of s)) s
      else if ch == b'E'
      then record s { mem = eeprom_save rom ee (buffer_of s) s.mem }
      else if ch == b'L'
      then with_buffer (eeprom_load rom vini_lines ee (buffer_of s) s.mem) s
      else record s { prev = 0 }

  abbrev save_vini : Vini M → Vini M
  save_vini s = record s {
    file = some (file_text (take s.count (split_rows vini_lines s.lines)));
    mem = eeprom_save rom ee (buffer_of s) s.mem;
  }

  -- `:` and the line typed after it: whether the loop goes on.
  unfoldable pub colon_key : List ℕ → Vini M → Bool × Vini M
  colon_key cmd s =
      let saved = if has_prefix (b'w' ∷ []) cmd then save_vini s else s in
      if has_prefix (b'w' ∷ b'q' ∷ []) cmd
      then (false, save_vini s)
      else (not (has_prefix (b'q' ∷ []) cmd), saved)

  -- `/` and the text typed after it.
  unfoldable pub slash_key : List ℕ → Vini M → Vini M
  slash_key term s = elim (find_row (s.count - (s.row + 1)) (s.row + 1) term s) [
    | none ↦ s
    | some i ↦ record s { row = i; col = 0 }
  ]

  -- A new line: the rest of the row goes to a row of its own.
  abbrev break_line : Vini M → Vini M
  break_line s =
      let tail = take (max_line_len - 1) (line_text (drop s.col (line_at s.row s))) in
      let cut = change_line (λ p. set (set p s.col 10) (s.col + 1) 0) s in
      record (with_buffer (insert_line vini_lines (u8 (s.row + 1)) tail (buffer_of cut)) cut) {
        row = u8 (s.row + 1);
        col = 0;
      }

  -- Insert mode.
  unfoldable pub insert_key : ℕ → Vini M → Vini M
  insert_key ch s =
      let len = u8 (strlen (line_at s.row s)) in
      if ch == 27
      then record s { insert_mode = false }
      else if ch == 127 && ltb 0 s.col
      then record (change_line (memmove (s.col - 1) s.col (strlen (line_at s.row s) + 1 - s.col))
          s) { col = s.col - 1 }
      else if ch == 10
      then break_line s
      else if ltb (u8 (len + 1)) max_line_len
      then record (change_line (λ p. set (memmove (s.col + 1) s.col (len + 1 - s.col) p) s.col ch)
          s) { col = u8 (s.col + 1) }
      else s

  unfoldable pub key : ℕ → Vini M → Vini M
  key ch s = if s.insert_mode then insert_key ch s else command_key ch s
