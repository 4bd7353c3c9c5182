-- ===== src/Editor/Rows.antt =====
-- `insert_line` and `delete_line` of examples/editor_common.c and `replace_line` of examples/ned.c on
-- the rows of a buffer that are in use.
use avrix.Editor.Lines.{
  length-move_up, length-move_down, move_down-insert_at, move_up-remove_at, insert_at, remove_at,
}
use mathlib.Core.Path.{subst}
use avrix.Editor.{
  line_text, strncpy, row_of, move_up, move_down, replace_line, delete_line, insert_line, Buffer,
}
use avrix.Base.{
  ltb, leb, ◌==◌, if◌then◌else◌, Bool-cases, if_true, if_false, length, set, take, length-set,
  length-take, ℕ, zero, suc, ◌+◌, ◌-◌, ◌≤◌, ◌<◌, min, ◌≡◌, refl, sym, ap, ◌∙◌, inl, inr, true, List,
  [], ◌∷◌, ◌++◌, arith,
}

-- The rows in use.
abbrev pub rows : Buffer → List (List ℕ)
rows b = take b.count b.lines

-- A buffer of `max_lines` rows.
pub record IsBuffer (max_lines : ℕ) (b : Buffer) : Type 0 where
  pub storage : length b.lines ≡ max_lines
  pub in_range : b.count ≤ max_lines

pub insert_line-IsBuffer :
    (max_lines idx : ℕ) (text : List ℕ) (b : Buffer)
    → IsBuffer max_lines b
    → IsBuffer max_lines (insert_line max_lines idx text b)
unfolding insert_line
insert_line-IsBuffer max_lines idx text b v =
    let i = if ltb b.count idx then b.count else idx in
    let moved = move_down (b.count - i) i b.lines in
    let next : Buffer = record { lines = set moved i (row_of text); count = b.count + 1 } in
    let whole =
      length-set moved i (row_of text) ∙ length-move_down (b.count - i) i b.lines ∙ v.storage in
    elim (Bool-cases (leb max_lines b.count)) [
      | inl full ↦ subst (IsBuffer max_lines) (sym (if_true b next full)) v
      | inr room ↦
          subst (IsBuffer max_lines) (sym (if_false b next room))
            (record { storage = whole; in_range = ground arith })
    ]

pub delete_line-IsBuffer :
    (max_lines idx : ℕ) (b : Buffer) → IsBuffer max_lines b → IsBuffer max_lines (delete_line idx b)
unfolding delete_line
delete_line-IsBuffer max_lines idx b v =
    let next : Buffer = record {
      lines = move_up (b.count - (idx + 1)) idx b.lines;
      count = b.count - 1;
    } in
    let whole = length-move_up (b.count - (idx + 1)) idx b.lines ∙ v.storage in
    let fits = v.in_range in
    elim (Bool-cases (leb b.count idx)) [
      | inl past ↦ subst (IsBuffer max_lines) (sym (if_true b next past)) v
      | inr within ↦
          subst (IsBuffer max_lines) (sym (if_false b next within))
            (record { storage = whole; in_range = omega arith })
    ]

pub replace_line-IsBuffer :
    (max_lines idx : ℕ) (text : List ℕ) (b : Buffer)
    → IsBuffer max_lines b
    → IsBuffer max_lines (replace_line idx text b)
unfolding replace_line
replace_line-IsBuffer max_lines idx text b v =
    let next = record b { lines = set b.lines idx (row_of text) } in
    elim (Bool-cases (leb b.count idx)) [
      | inl past ↦ subst (IsBuffer max_lines) (sym (if_true b next past)) v
      | inr within ↦ subst (IsBuffer max_lines) (sym (if_false b next within)) (record {
        storage = length-set b.lines idx (row_of text) ∙ v.storage;
        in_range = v.in_range;
      })
    ]

set_past : {A : Type 0} (xs : List A) (i : ℕ) (v : A) → length xs ≤ i → set xs i v ≡ xs
set_past [] i v h = refl
set_past (x ∷ xs) zero v h = absurd (omega arith)
set_past (x ∷ xs) (suc i) v h = ap (◌∷◌ x) (set_past xs i v (omega arith))

remove_at_past : {A : Type 0} (i : ℕ) (xs : List A) → length xs ≤ i → remove_at i xs ≡ xs
unfolding remove_at
remove_at_past i [] h = refl
remove_at_past zero (x ∷ xs) h = absurd (omega arith)
remove_at_past (suc i) (x ∷ xs) h = ap (◌∷◌ x) (remove_at_past i xs (omega arith))

take-set : {A : Type 0} (n i : ℕ) (v : A) (xs : List A) → take n (set xs i v) ≡ set (take n xs) i v
take-set zero i v xs = refl
take-set (suc n) i v [] = refl
take-set (suc n) zero v (x ∷ xs) = refl
take-set (suc n) (suc i) v (x ∷ xs) = ap (◌∷◌ x) (take-set n i v xs)

pub rows-insert_line :
    (max_lines idx : ℕ) (text : List ℕ) (b : Buffer)
    → IsBuffer max_lines b
    → b.count < max_lines
    → rows (insert_line max_lines idx text b) ≡ insert_at (min idx b.count) (row_of text) (rows b)
unfolding insert_line
rows-insert_line max_lines idx text b v room =
    let i = if ltb b.count idx then b.count else idx in
    let next : Buffer = record {
      lines = set (move_down (b.count - i) i b.lines) i (row_of text);
      count = b.count + 1;
    } in
    let in_use : i + (b.count - i) ≡ b.count = ground arith in
    let clamped : i ≡ min idx b.count = ground arith in
    let fits : i + (b.count - i) < length b.lines = let h = v.storage in omega arith in
    let shifted : take (suc b.count) next.lines ≡ insert_at i (row_of text) (rows b) =
      subst (λ n. take (suc n) next.lines ≡ insert_at i (row_of text) (take n b.lines)) in_use
        (move_down-insert_at (b.count - i) i (row_of text) b.lines fits) in
    let up : b.count + 1 ≡ suc b.count = omega arith in
    ap rows (if_false b next (ground arith))
    ∙ ap (λ n. take n next.lines) up
    ∙ shifted
    ∙ ap (λ j. insert_at j (row_of text) (rows b)) clamped

rows-insert_line_full :
    (max_lines idx : ℕ) (text : List ℕ) (b : Buffer)
    → leb max_lines b.count ≡ true
    → rows (insert_line max_lines idx text b) ≡ rows b
unfolding insert_line
rows-insert_line_full max_lines idx text b full = ap rows (if_true b _ full)

rows-delete_line :
    (max_lines idx : ℕ) (b : Buffer)
    → IsBuffer max_lines b
    → rows (delete_line idx b) ≡ remove_at idx (rows b)
unfolding delete_line
rows-delete_line max_lines idx b v =
    let n = b.count - (idx + 1) in
    let next : Buffer = record { lines = move_up n idx b.lines; count = b.count - 1 } in
    let storage = v.storage in
    let in_range = v.in_range in
    elim (Bool-cases (leb b.count idx)) [
      | inl past ↦
          ap rows (if_true b next past)
          ∙ sym (remove_at_past idx (rows b) (let h = length-take b.count b.lines in ground arith))
      | inr within ↦
          let left : b.count - 1 ≡ idx + n = ground arith in
          let all : suc (idx + n) ≡ b.count = ground arith in
          ap rows (if_false b next within)
          ∙ ap (λ k. take k next.lines) left
          ∙ move_up-remove_at n idx b.lines (ground arith)
          ∙ ap (λ k. remove_at idx (take k b.lines)) all
    ]

rows-replace_line :
    (max_lines idx : ℕ) (text : List ℕ) (b : Buffer)
    → IsBuffer max_lines b
    → rows (replace_line idx text b) ≡ set (rows b) idx (row_of text)
unfolding replace_line
rows-replace_line max_lines idx text b v =
    let next = record b { lines = set b.lines idx (row_of text) } in
    elim (Bool-cases (leb b.count idx)) [
      | inl past ↦
          ap rows (if_true b next past)
          ∙ sym (
              set_past (rows b) idx (row_of text)
                (let h = length-take b.count b.lines in ground arith))
      | inr within ↦ ap rows (if_false b next within) ∙ take-set b.count idx (row_of text) b.lines
    ]

-- A row holds the characters of the text that it has room for.
line_text-strncpy_cut :
    (n : ℕ) (text : List ℕ) → line_text (strncpy n text ++ (0 ∷ [])) ≡ take n (line_text text)
unfolding line_text strncpy
line_text-strncpy_cut zero text = refl
line_text-strncpy_cut (suc n) [] = refl
line_text-strncpy_cut (suc n) (c ∷ text) = elim (Bool-cases (c == 0)) [
  | inl nul ↦ rw nul refl
  | inr char ↦ rw char (ap (◌∷◌ c) (line_text-strncpy_cut n text))
]

line_text-row : (text : List ℕ) → line_text (row_of text) ≡ take 63 (line_text text)
unfolding row_of
line_text-row text = line_text-strncpy_cut 63 text

-- On a buffer of `max_lines` rows the three changes of lines are those of a list: an insertion, not
-- past the last line, if there is room, and nothing if there is none; a removal; and a replacement;
-- the last two do nothing past the last line. The row of a text has its first 63 characters.
pub edits_lem :
    (max_lines idx : ℕ) (text : List ℕ) (b : Buffer)
    → IsBuffer max_lines b
    → (rows (insert_line max_lines idx text b) ≡ (
        if leb max_lines b.count
        then rows b
        else insert_at (min idx b.count) (row_of text) (rows b)))
      × (rows (delete_line idx b) ≡ remove_at idx (rows b))
      × (rows (replace_line idx text b) ≡ set (rows b) idx (row_of text))
      × (line_text (row_of text) ≡ take 63 (line_text text))
edits_lem max_lines idx text b v = elim (Bool-cases (leb max_lines b.count)) [
  | inl full ↦ rw full (
    rows-insert_line_full max_lines idx text b full,
    rows-delete_line max_lines idx b v,
    rows-replace_line max_lines idx text b v,
    line_text-row text,
  )
  | inr room ↦ rw room (
    rows-insert_line max_lines idx text b v (ground arith),
    rows-delete_line max_lines idx b v,
    rows-replace_line max_lines idx text b v,
    line_text-row text,
  )
]
