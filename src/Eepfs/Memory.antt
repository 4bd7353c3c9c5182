-- ===== src/Eepfs/Memory.antt =====
-- An EEPROM that has the behaviour drivers/fs/eepfs.c relies on: a byte for each address.
use avrix.Eepfs.Laws.{IsEeprom}
use avrix.Eepfs.{Hal}
use avrix.Base.{
  leb, if◌then◌else◌, if_true, length, get_or, ℕ, zero, suc, ◌+◌, ◌-◌, ◌<◌, ◌≡◌, refl, sym, ap, ap₂,
  ◌∙◌, true, List, [], ◌∷◌, ◌++◌, arith,
}

unfoldable pub read_at : ℕ → ℕ → (ℕ → ℕ) → List ℕ
read_at a zero m = []
read_at a (suc n) m = m a ∷ read_at (a + 1) n m

unfoldable pub write_at : ℕ → List ℕ → (ℕ → ℕ) → ℕ → ℕ
write_at a xs m b = if leb a b then get_or xs (b - a) (m b) else m b

pub length-read_at : (a n : ℕ) (m : ℕ → ℕ) → length (read_at a n m) ≡ n
unfolding read_at
length-read_at a zero m = refl
length-read_at a (suc n) m = omega (arith, length-read_at (a + 1) n m)

pub read_at-parts :
    (a n k : ℕ) (m : ℕ → ℕ) → read_at a (n + k) m ≡ read_at a n m ++ read_at (a + n) k m
unfolding read_at
read_at-parts a zero k m =
    let e : 0 + k ≡ k = omega arith in let e' : a + 0 ≡ a = omega arith in rw e (rw e' refl)
read_at-parts a (suc n) k m =
    let e : suc n + k ≡ suc (n + k) = omega arith in
    let e' : a + suc n ≡ a + 1 + n = omega arith in
    rw (e, read_at) (rw e' (ap (◌∷◌ (m a)) (read_at-parts (a + 1) n k m)))

-- A block that agrees with a list byte by byte is the list.
pub read_at-agree :
    (a : ℕ) (xs : List ℕ) (m : ℕ → ℕ)
    → ((j : ℕ) → j < length xs → m (a + j) ≡ get_or xs j 0)
    → read_at a (length xs) m ≡ xs
unfolding read_at
read_at-agree a [] m h = refl
read_at-agree a (x ∷ xs) m h =
    let here : a + 0 ≡ a = omega arith in
    let later : (j : ℕ) → j < length xs → m (a + 1 + j) ≡ get_or xs j 0 =
      λ j lt. let e : a + 1 + j ≡ a + suc j = omega arith in rw e (h (suc j) (omega arith)) in
    ap₂ ◌∷◌ (ap m (sym here) ∙ h 0 (omega arith)) (read_at-agree (a + 1) xs m later)

get_or-default : (xs : List ℕ) (j d e : ℕ) → j < length xs → get_or xs j d ≡ get_or xs j e
get_or-default [] j d e h = absurd (omega arith)
get_or-default (x ∷ xs) zero d e h = refl
get_or-default (x ∷ xs) (suc j) d e h = get_or-default xs j d e (omega arith)

read-write_at : (a : ℕ) (xs : List ℕ) (m : ℕ → ℕ) → read_at a (length xs) (write_at a xs m) ≡ xs
unfolding write_at
read-write_at a xs m = read_at-agree a xs (write_at a xs m) (λ j lt.
    let e : a + j - a ≡ j = omega arith in
    let above : leb a (a + j) ≡ true = ground arith in
    if_true _ _ above ∙ ap (λ i. get_or xs i (m (a + j))) e ∙ get_or-default xs j (m (a + j)) 0 lt)

-- 1024 bytes, and an `int` of 32 bits.
abbrev pub memory_hal : Hal (ℕ → ℕ)
memory_hal = record {
  int_bits = 32;
  eeprom_available = true;
  eeprom_size = 1024;
  eeprom_read_block = read_at;
  eeprom_update_block = write_at;
}

pub memory_hal-IsEeprom : IsEeprom memory_hal
memory_hal-IsEeprom = record {
  int_width = omega arith;
  room = omega arith;
  length_read = λ a n m inside. length-read_at a n m;
  read_parts = λ a n k m inside. read_at-parts a n k m;
  read_updated = λ a xs m inside bytes. read-write_at a xs m;
}
