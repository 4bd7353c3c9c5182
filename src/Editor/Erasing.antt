-- ===== src/Editor/Erasing.antt =====
-- Whole texts typed and erased in the insert mode of examples/vini.c.
use mathlib.Core.Path.{subst}
use avrix.NkFs.{Eeprom}
use avrix.Editor.Lines.{insert_at}
use avrix.Editor.Typing.{
  IsText-insert_at, length-insert_at, typed, deleted, line_at-with_line, rows_before-with_line,
  long, with_line, IsText,
}
use avrix.Editor.Vini.{key, line_at, Vini}
use avrix.Editor.{max_line_len}
use avrix.Base.{
  length, take, drop, replicate, All, ℕ, zero, suc, ◌+◌, ◌*◌, ◌≤◌, ◌<◌, ◌≡◌, refl, sym, ap, ap₂,
  ◌∙◌, ◌≢◌, true, List, [], ◌∷◌, ◌++◌, append_assoc, arith,
}

-- Keys pressed one after the other.
unfoldable pub keys : {M : Type 0} → Eeprom M → ℕ → List ℕ → Vini M → Vini M
keys rom ee [] s = s
keys rom ee (c ∷ cs) s = keys rom ee cs (key rom ee c s)

-- The keys that insert themselves.
abbrev pub AreChars : List ℕ → Type 0
AreChars = All (λ c. (0 < c) × (c < 256) × (c ≢ 10) × (c ≢ 27) × (c ≢ 127))

-- Insert mode in a row with this text, with at least `room` bytes after its NUL, and what is above
-- it.
pub record IsTyping {M : Type 0} (above text : List ℕ) (row col room : ℕ) (s : Vini M)
    : Type 0 where
  pub inserting : s.insert_mode ≡ true
  pub at_row : s.row ≡ row
  pub at_col : s.col ≡ col
  pub tail : List ℕ
  pub line : line_at s.row s ≡ text ++ (0 ∷ tail)
  pub spare : room ≤ length tail
  pub within : s.row * max_line_len ≤ length s.lines
  pub same : take (s.row * max_line_len) s.lines ≡ above

keys-append :
    {M : Type 0} (rom : Eeprom M) (ee : ℕ) (xs ys : List ℕ) (s : Vini M)
    → keys rom ee (xs ++ ys) s ≡ keys rom ee ys (keys rom ee xs s)
unfolding keys
keys-append rom ee [] ys s = refl
keys-append rom ee (x ∷ xs) ys s = keys-append rom ee xs ys (key rom ee x s)

replicate-snoc : (n x : ℕ) → replicate (suc n) x ≡ replicate n x ++ (x ∷ [])
replicate-snoc zero x = refl
replicate-snoc (suc n) x = ap (◌∷◌ x) (replicate-snoc n x)

take-drop_same : (n : ℕ) (xs : List ℕ) → take n xs ++ drop n xs ≡ xs
take-drop_same zero xs = refl
take-drop_same (suc n) [] = refl
take-drop_same (suc n) (x ∷ xs) = ap (◌∷◌ x) (take-drop_same n xs)

take-insert_at :
    (col c : ℕ) (text : List ℕ)
    → col ≤ length text
    → take (suc col) (insert_at col c text) ≡ take col text ++ (c ∷ [])
unfolding insert_at
take-insert_at zero c text h = refl
take-insert_at (suc col) c [] h = absurd (omega arith)
take-insert_at (suc col) c (d ∷ text) h = ap (◌∷◌ d) (take-insert_at col c text (omega arith))

drop-insert_at :
    (col c : ℕ) (text : List ℕ)
    → col ≤ length text
    → drop (suc col) (insert_at col c text) ≡ drop col text
unfolding insert_at
drop-insert_at zero c text h = refl
drop-insert_at (suc col) c [] h = absurd (omega arith)
drop-insert_at (suc col) c (d ∷ text) h = drop-insert_at col c text (omega arith)

module _ {M : Type 0} (rom : Eeprom M) (ee : ℕ) (above : List ℕ) (row : ℕ) where
  -- The state after the row has been written, with the cursor at `col`.
  rewritten :
      (text rest : List ℕ) (col room : ℕ) (s : Vini M)
      → s.insert_mode ≡ true
      → s.row ≡ row
      → s.row * max_line_len ≤ length s.lines
      → take (s.row * max_line_len) s.lines ≡ above
      → room ≤ length rest
      → IsTyping above text row col room (record (with_line (text ++ (0 ∷ rest)) s) { col = col })
  rewritten text rest col room s mode at_row within same spare = record {
    inserting = mode;
    at_row = at_row;
    at_col = refl;
    tail = rest;
    line = line_at-with_line rom ee (text ++ (0 ∷ rest)) s within;
    spare = spare;
    within = long rom ee (text ++ (0 ∷ rest)) s within;
    same = rows_before-with_line rom ee (text ++ (0 ∷ rest)) s within ∙ same;
  }

  key-IsTyping :
      (c col room : ℕ) (text : List ℕ) (s : Vini M)
      → IsTyping above text row col (suc room) s
      → IsText text
      → col ≤ length text
      → length text < 63
      → AreChars (c ∷ [])
      → IsTyping above (insert_at col c text) row (col + 1) room (key rom ee c s)
  key-IsTyping c col room text s h bytes inside short (char, none_left) =
      by_tail h.tail h.line h.spare
    where
      by_tail :
          (tail : List ℕ)
          → line_at s.row s ≡ text ++ (0 ∷ tail)
          → suc room ≤ length tail
          → IsTyping above (insert_at col c text) row (col + 1) room (key rom ee c s)
      by_tail [] line spare = absurd (omega arith)
      by_tail (z ∷ rest) line spare =
          let (pos, byte, ne10, ne27, ne127) = char in
          let at = h.at_col in
          let e =
            typed rom ee c z text rest s h.inserting line bytes (omega arith) short ne10 ne27
              ne127 in
          let e' = e ∙ (λ i. record (with_line (insert_at (at i) c text ++ (0 ∷ rest)) s) {
            col = at i + 1;
          }) in
          subst (IsTyping above (insert_at col c text) row (col + 1) room) (sym e') (
            rewritten (insert_at col c text) rest (col + 1) room s h.inserting h.at_row h.within
              h.same (omega arith))

  erase-IsTyping :
      (c col room : ℕ) (text : List ℕ) (s : Vini M)
      → IsTyping above (insert_at col c text) row (col + 1) room s
      → IsText (insert_at col c text)
      → col ≤ length text
      → IsTyping above text row col (suc room) (key rom ee 127 s)
  erase-IsTyping c col room text s h bytes inside =
      let e = deleted rom ee col c text h.tail s h.inserting h.line bytes inside h.at_col in
      let spare = h.spare in
      subst (IsTyping above text row col (suc room)) (sym e) (
        rewritten text (0 ∷ h.tail) col (suc room) s h.inserting h.at_row h.within h.same
          (omega arith))

  -- Less room is asked for, and another number for the cursor.
  weaken :
      (text : List ℕ) (col col' room room' : ℕ) (s : Vini M)
      → IsTyping above text row col room s
      → col ≡ col'
      → room' ≤ room
      → IsTyping above text row col' room' s
  weaken text col col' room room' s h e le =
      let spare = h.spare in
      record {
        inserting = h.inserting;
        at_row = h.at_row;
        at_col = h.at_col ∙ e;
        tail = h.tail;
        line = h.line;
        spare = omega arith;
        within = h.within;
        same = h.same;
      }

  -- A text of characters typed at the cursor.
  typed_text :
      (cs : List ℕ) (col room : ℕ) (text : List ℕ) (s : Vini M)
      → IsTyping above text row col (length cs + room) s
      → IsText text
      → col ≤ length text
      → length text + length cs ≤ 63
      → AreChars cs
      → IsTyping above
          (take col text ++ (cs ++ drop col text))
          row
          (col + length cs)
          room
          (keys rom ee cs s)
  unfolding keys
  typed_text [] col room text s h bytes inside short chars =
      subst (λ t. IsTyping above t row (col + 0) room s) (sym (take-drop_same col text))
        (weaken text col (col + 0) (0 + room) room s h (omega arith) (omega arith))
  typed_text (c ∷ cs) col room text s h bytes inside short (char, chars) =
      let text₁ = insert_at col c text in
      let one =
        weaken text col col (suc (length cs) + room) (suc (length cs + room)) s h refl
          (omega arith) in
      let h₁ =
        key-IsTyping c col (length cs + room) text s one bytes inside (omega arith) (char, tt) in
      let long₁ = length-insert_at col c text in
      let all =
        typed_text cs (col + 1) room text₁ (key rom ee c s) h₁
          (IsText-insert_at col c text char.0 char.1 bytes) (omega arith) (omega arith) chars in
      let up : col + 1 ≡ suc col = omega arith in
      let before = ap (λ n. take n text₁) up ∙ take-insert_at col c text inside in
      let after = ap (λ n. drop n text₁) up ∙ drop-insert_at col c text inside in
      let whole : take (col + 1) text₁ ++ (cs ++ drop (col + 1) text₁)
          ≡ take col text ++ (c ∷ (cs ++ drop col text)) =
        ap₂ (λ x y. x ++ (cs ++ y)) before after
        ∙ append_assoc (take col text) (c ∷ []) (cs ++ drop col text) in
      let end : col + 1 + length cs ≡ col + suc (length cs) = omega arith in
      subst
        (λ t. IsTyping above t row (col + suc (length cs)) room (keys rom ee cs (key rom ee c s)))
        whole
        (weaken _ (col + 1 + length cs) (col + suc (length cs)) room room _ all end (omega arith))

  -- As many backspaces as characters were typed.
  erased_text :
      (cs : List ℕ) (col room : ℕ) (text : List ℕ) (s : Vini M)
      → IsTyping above text row col (length cs + room) s
      → IsText text
      → col ≤ length text
      → length text + length cs ≤ 63
      → AreChars cs
      → IsTyping above text row col
          (length cs + room)
          (keys rom ee (cs ++ replicate (length cs) 127) s)
  unfolding keys
  erased_text [] col room text s h bytes inside short chars = h
  erased_text (c ∷ cs) col room text s h bytes inside short (char, chars) =
      let n = length cs in
      let text₁ = insert_at col c text in
      let one = weaken text col col (suc n + room) (suc (n + room)) s h refl (omega arith) in
      let h₁ = key-IsTyping c col (n + room) text s one bytes inside (omega arith) (char, tt) in
      let long₁ = length-insert_at col c text in
      let bytes₁ = IsText-insert_at col c text char.0 char.1 bytes in
      let s₁ = key rom ee c s in
      let h₂ = erased_text cs (col + 1) room text₁ s₁ h₁ bytes₁ (omega arith) (omega arith) chars in
      let back = erase-IsTyping c col (n + room) text _ h₂ bytes₁ inside in
      let split : keys rom ee (cs ++ replicate (suc n) 127) s₁
          ≡ key rom ee 127 (keys rom ee (cs ++ replicate n 127) s₁) =
        ap (λ t. keys rom ee (cs ++ t) s₁) (replicate-snoc n 127)
        ∙ ap (λ t. keys rom ee t s₁) (sym (append_assoc cs (replicate n 127) (127 ∷ [])))
        ∙ keys-append rom ee (cs ++ replicate n 127) (127 ∷ []) s₁ in
      subst (IsTyping above text row col (suc n + room)) (sym split)
        (weaken text col col (suc (n + room)) (suc n + room) _ back refl (omega arith))

  -- In insert mode, characters typed at the cursor are put into the text of the row between what
  -- is before and what is after the cursor, which goes past them; as many backspaces take the text
  -- and the cursor back to what they were. The rows above and the mode stay as they are. A character
  -- is a byte other than NUL, newline, ESC and DEL; the cursor is not past the text, which has at
  -- most 63 bytes with the characters, and the array has room for them after it.
  pub type-erase :
      (cs : List ℕ) (col room : ℕ) (text : List ℕ) (s : Vini M)
      → IsTyping above text row col (length cs + room) s
      → IsText text
      → col ≤ length text
      → length text + length cs ≤ 63
      → AreChars cs
      → IsTyping above
          (take col text ++ (cs ++ drop col text))
          row
          (col + length cs)
          room
          (keys rom ee cs s)
        × IsTyping above text row col
            (length cs + room)
            (keys rom ee (cs ++ replicate (length cs) 127) s)
  type-erase cs col room text s h bytes inside short chars = (
    typed_text cs col room text s h bytes inside short chars,
    erased_text cs col room text s h bytes inside short chars,
  )
