-- ===== src/Editor/Typing.antt =====
-- Typing in the insert mode of examples/vini.c.
use avrix.Editor.Lines.{insert_at}
use avrix.Editor.{max_line_len, line_text}
use avrix.NkFs.{Eeprom}
use avrix.Editor.Vini.{command_key, line_at, insert_key, key, change_line, strlen, memmove, Vini}
use avrix.Base.{
  ltb, ◌==◌, ==-false_of_ne, if_true, if_false, length, set, take, drop, All, length-append,
  length-take, take-append, drop-append, u8, ℕ, zero, suc, ◌+◌, ◌-◌, ◌*◌, ◌≤◌, ◌<◌, ◌≡◌, refl, ap,
  ap₂, ◌∙◌, ◌≢◌, true, false, ◌&&◌, List, [], ◌∷◌, ◌++◌, append_assoc, arith,
}

-- Characters of a text: bytes that are not NUL.
abbrev pub IsText : List ℕ → Type 0
IsText = All (λ c. (0 < c) × (c < 256))

pub line_text-append : (text rest : List ℕ) → IsText text → line_text (text ++ (0 ∷ rest)) ≡ text
unfolding line_text
line_text-append [] rest h = refl
line_text-append (c ∷ text) rest (h, hs) =
    let ne : (c == 0) ≡ false = let pos = h.0 in ground arith in
    rw ne (ap (◌∷◌ c) (line_text-append text rest hs))

pub strlen-append : (text rest : List ℕ) → IsText text → strlen (text ++ (0 ∷ rest)) ≡ length text
unfolding strlen
strlen-append text rest h = ap length (line_text-append text rest h)

take_text : (text q : List ℕ) → take (suc (length text)) (text ++ (0 ∷ q)) ≡ text ++ (0 ∷ [])
take_text [] q = refl
take_text (c ∷ text) q = ap (◌∷◌ c) (take_text text q)

drop_text : (text q : List ℕ) → drop (suc (length text)) (text ++ (0 ∷ q)) ≡ q
drop_text [] q = refl
drop_text (c ∷ text) q = drop_text text q

memmove-cons :
    (to from n c : ℕ) (p : List ℕ) → memmove (suc to) (suc from) n (c ∷ p) ≡ c ∷ memmove to from n p
unfolding memmove
memmove-cons to from n c p = let e : suc to + n ≡ suc (to + n) = omega arith in rw e refl

memmove_front :
    (text : List ℕ) (z : ℕ) (rest : List ℕ) (ch : ℕ)
    → set (memmove 1 0 (suc (length text)) (text ++ (0 ∷ z ∷ rest))) 0 ch
      ≡ ch ∷ (text ++ (0 ∷ rest))
unfolding memmove
memmove_front text z rest ch =
    let e : 1 + suc (length text) ≡ suc (suc (length text)) = omega arith in
    let moved : take (suc (length text)) (text ++ (0 ∷ z ∷ rest))
          ++ drop (suc (suc (length text))) (text ++ (0 ∷ z ∷ rest))
        ≡ text ++ (0 ∷ rest) =
      ap₂ ◌++◌ (take_text text (z ∷ rest)) (drop_two text) ∙ append_assoc text (0 ∷ []) rest in
    rw e (replaced text ∙ ap (◌∷◌ ch) moved)
  where
    drop_two : (t : List ℕ) → drop (suc (suc (length t))) (t ++ (0 ∷ z ∷ rest)) ≡ rest
    drop_two [] = refl
    drop_two (c ∷ t) = drop_two t

    replaced :
        (t : List ℕ) {more : List ℕ} → set (take 1 (t ++ (0 ∷ z ∷ rest)) ++ more) 0 ch ≡ ch ∷ more
    replaced [] = refl
    replaced (c ∷ t) = refl

-- A character put into a text in memory, and taken out of it again.
insert_byte :
    (col : ℕ) (text : List ℕ) (z : ℕ) (rest : List ℕ) (ch : ℕ)
    → col ≤ length text
    → set (memmove (suc col) col (suc (length text - col)) (text ++ (0 ∷ z ∷ rest))) col ch
      ≡ insert_at col ch text ++ (0 ∷ rest)
unfolding insert_at
insert_byte zero text z rest ch h =
    let e : length text - 0 ≡ length text = omega arith in rw e (memmove_front text z rest ch)
insert_byte (suc col) [] z rest ch h = absurd (omega arith)
insert_byte (suc col) (c ∷ text) z rest ch h =
    let e : suc (length text) - suc col ≡ length text - col = omega arith in
    rw (e, memmove-cons (suc col) col (suc (length text - col)) c (text ++ (0 ∷ z ∷ rest)))
      (ap (◌∷◌ c) (insert_byte col text z rest ch (omega arith)))

memmove_back :
    (text rest : List ℕ) (ch : ℕ)
    → memmove 0 1 (suc (length text)) (ch ∷ (text ++ (0 ∷ rest))) ≡ text ++ (0 ∷ 0 ∷ rest)
unfolding memmove
memmove_back text rest ch =
    let e : 0 + suc (length text) ≡ suc (length text) = omega arith in
    rw e (
      ap₂ ◌++◌ (take_text text rest) (drop-append text (0 ∷ rest))
      ∙ append_assoc text (0 ∷ []) (0 ∷ rest))

remove_byte :
    (col : ℕ) (text rest : List ℕ) (ch : ℕ)
    → col ≤ length text
    → memmove col (suc col) (suc (length text - col)) (insert_at col ch text ++ (0 ∷ rest))
      ≡ text ++ (0 ∷ 0 ∷ rest)
unfolding insert_at
remove_byte zero text rest ch h =
    let e : length text - 0 ≡ length text = omega arith in rw e (memmove_back text rest ch)
remove_byte (suc col) [] rest ch h = absurd (omega arith)
remove_byte (suc col) (c ∷ text) rest ch h =
    let e : suc (length text) - suc col ≡ length text - col = omega arith in
    rw
      (
        e,
        memmove-cons col (suc col) (suc (length text - col)) c
            (insert_at col ch text ++ (0 ∷ rest)),
      )
      (ap (◌∷◌ c) (remove_byte col text rest ch (omega arith)))

pub IsText-insert_at :
    (col ch : ℕ) (text : List ℕ) → 0 < ch → ch < 256 → IsText text → IsText (insert_at col ch text)
unfolding insert_at
IsText-insert_at zero ch text pos byte h = ((pos, byte), h)
IsText-insert_at (suc col) ch [] pos byte h = ((pos, byte), h)
IsText-insert_at (suc col) ch (c ∷ text) pos byte (hc, h) =
    (hc, IsText-insert_at col ch text pos byte h)

pub length-insert_at :
    (col ch : ℕ) (text : List ℕ) → length (insert_at col ch text) ≡ suc (length text)
unfolding insert_at
length-insert_at zero ch text = refl
length-insert_at (suc col) ch [] = refl
length-insert_at (suc col) ch (c ∷ text) = ap suc (length-insert_at col ch text)

-- The memory from the cursor's row on.
abbrev pub with_line : {M : Type 0} → List ℕ → Vini M → Vini M
with_line p s = change_line (λ old. p) s

module _ {M : Type 0} (rom : Eeprom M) (ee : ℕ) where
  -- A character typed in the middle of a line that is not full, in memory.
  pub typed :
      (ch z : ℕ) (text rest : List ℕ) (s : Vini M)
      → s.insert_mode ≡ true
      → line_at s.row s ≡ text ++ (0 ∷ z ∷ rest)
      → IsText text
      → s.col ≤ length text
      → length text < 63
      → ch ≢ 10
      → ch ≢ 27
      → ch ≢ 127
      → key rom ee ch s
        ≡ record (with_line (insert_at s.col ch text ++ (0 ∷ rest)) s) { col = s.col + 1 }
  unfolding key insert_key
  typed ch z text rest s mode line bytes inside room ne10 ne27 ne127 =
      let len : u8 (strlen (line_at s.row s)) ≡ length text =
        ap (λ p. u8 (strlen p)) line ∙ ap u8 (strlen-append text (z ∷ rest) bytes) ∙ omega arith in
      let delete : ch == 127 && ltb 0 s.col ≡ false = ground arith in
      let fits : ltb (u8 (u8 (strlen (line_at s.row s)) + 1)) 64 ≡ true = ground (arith, len) in
      let up : s.col + 1 ≡ suc s.col = omega arith in
      let next : u8 (s.col + 1) ≡ s.col + 1 = omega arith in
      let amount : length text + 1 - s.col ≡ suc (length text - s.col) = omega arith in
      let put : set
            (memmove (s.col + 1) s.col (u8 (strlen (line_at s.row s)) + 1 - s.col)
              (line_at s.row s))
            s.col ch
          ≡ insert_at s.col ch text ++ (0 ∷ rest) =
        rw len (rw line (rw (up, amount) (insert_byte s.col text z rest ch inside))) in
      if_true (insert_key rom ee ch s) (command_key rom ee ch s) mode
      ∙ if_false _ _ (==-false_of_ne ch 27 ne27)
      ∙ if_false _ _ delete
      ∙ if_false _ _ (==-false_of_ne ch 10 ne10)
      ∙ if_true _ _ fits
      ∙ (λ i. record (with_line (put i) s) { col = next i })

  -- The character before the cursor deleted, in memory.
  pub deleted :
      (col ch : ℕ) (text rest : List ℕ) (s : Vini M)
      → s.insert_mode ≡ true
      → line_at s.row s ≡ insert_at col ch text ++ (0 ∷ rest)
      → IsText (insert_at col ch text)
      → col ≤ length text
      → s.col ≡ col + 1
      → key rom ee 127 s ≡ record (with_line (text ++ (0 ∷ 0 ∷ rest)) s) { col = col }
  unfolding key insert_key
  deleted col ch text rest s mode line bytes inside at =
      let len : strlen (line_at s.row s) ≡ suc (length text) =
        ap strlen line
        ∙ strlen-append (insert_at col ch text) rest bytes
        ∙ length-insert_at col ch text in
      let delete : 127 == 127 && ltb 0 s.col ≡ true = ground arith in
      let back : s.col - 1 ≡ col = omega arith in
      let from : s.col ≡ suc col = omega arith in
      let amount : suc (length text) + 1 - suc col ≡ suc (length text - col) = omega arith in
      let put : memmove (s.col - 1) s.col (strlen (line_at s.row s) + 1 - s.col) (line_at s.row s)
          ≡ text ++ (0 ∷ 0 ∷ rest) =
        (λ i. memmove (back i) (from i) (len i + 1 - from i) (line i))
        ∙ ap (λ n. memmove col (suc col) n (insert_at col ch text ++ (0 ∷ rest))) amount
        ∙ remove_byte col text rest ch inside in
      if_true (insert_key rom ee 127 s) (command_key rom ee 127 s) mode
      ∙ if_true _ _ delete
      ∙ (λ i. record (with_line (put i) s) { col = back i })

  -- What is put in the place of a row is there.
  pub line_at-with_line :
      (p : List ℕ) (s : Vini M)
      → s.row * max_line_len ≤ length s.lines
      → line_at s.row (with_line p s) ≡ p
  line_at-with_line p s h =
      let whole : s.row * max_line_len ≡ length (take (s.row * max_line_len) s.lines) =
        omega (arith, length-take (s.row * max_line_len) s.lines) in
      ap (λ n. drop n (take (s.row * max_line_len) s.lines ++ p)) whole
      ∙ drop-append (take (s.row * max_line_len) s.lines) p

  -- The rows before it are kept, and it stands in the buffer.
  pub rows_before-with_line :
      (p : List ℕ) (s : Vini M)
      → s.row * max_line_len ≤ length s.lines
      → take (s.row * max_line_len) (with_line p s).lines ≡ take (s.row * max_line_len) s.lines
  rows_before-with_line p s h =
      let whole : s.row * max_line_len ≡ length (take (s.row * max_line_len) s.lines) =
        omega (arith, length-take (s.row * max_line_len) s.lines) in
      ap (λ n. take n (take (s.row * max_line_len) s.lines ++ p)) whole
      ∙ take-append (take (s.row * max_line_len) s.lines) p

  pub long :
      (p : List ℕ) (s : Vini M)
      → s.row * max_line_len ≤ length s.lines
      → s.row * max_line_len ≤ length (with_line p s).lines
  long p s h = omega (
    arith,
    length-take (s.row * max_line_len) s.lines,
    length-append (take (s.row * max_line_len) s.lines) p,
  )
