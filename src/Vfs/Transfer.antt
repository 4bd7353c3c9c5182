-- ===== src/Vfs/Transfer.antt =====
-- What reading, writing and seeking on one descriptor of drivers/fs/vfs.c do to the bytes of a file.
use avrix.Romfs.{romfs_read, file_at}
use avrix.Eepfs.Laws.{IsEeprom}
use avrix.Vfs.Positions.{clip_lem, Fits, ops_size-bound, at_position-IsVfs, Opened, IsVfs}
use avrix.Vfs.{eepfs_ops, romfs_ops, file_at, Fd, no_fd, ops_size, fd_at, Ops, Vfs}
use avrix.Eepfs.{eepfs_read, Hal, eepfs_file_at}
use avrix.Vfs.Calls.{ops_read, vfs_read, at_position, advance, open_file}
use avrix.Base.{
  ltb, leb, Bool-cases, if_true, if_false, length, get_or, set, take, drop, get_or-set_self, u16, ℕ,
  zero, suc, ◌+◌, ◌-◌, ◌≤◌, ◌<◌, min, ◌≡◌, refl, sym, ap, ◌∙◌, inl, inr, true, false, not, ◌||◌,
  some, List, [], ◌∷◌, ◌++◌, arith,
}

zero_add : (b : ℕ) → 0 + b ≡ b
zero_add b = omega arith

suc_add : (a b : ℕ) → suc a + b ≡ suc (a + b)
suc_add a b = omega arith

drop_none {ℓ} : {A : Type ℓ} (n : ℕ) → drop {A = A} n [] ≡ []
drop_none zero = refl
drop_none (suc n) = refl

take_none {ℓ} : {A : Type ℓ} (n : ℕ) → take {A = A} n [] ≡ []
take_none zero = refl
take_none (suc n) = refl

drop-drop {ℓ} : {A : Type ℓ} (a b : ℕ) (xs : List A) → drop (a + b) xs ≡ drop b (drop a xs)
drop-drop zero b xs = ap (λ n. drop n xs) (zero_add b)
drop-drop (suc a) b [] = ap (λ n. drop n []) (suc_add a b) ∙ sym (drop_none b)
drop-drop (suc a) b (x ∷ xs) = ap (λ n. drop n (x ∷ xs)) (suc_add a b) ∙ drop-drop a b xs

take_parts {ℓ} :
    {A : Type ℓ} (n k : ℕ) (xs : List A) → take (n + k) xs ≡ take n xs ++ take k (drop n xs)
take_parts zero k xs = ap (λ j. take j xs) (zero_add k)
take_parts (suc n) k [] = ap (λ j. take j []) (suc_add n k) ∙ sym (take_none k)
take_parts (suc n) k (x ∷ xs) =
    ap (λ j. take j (x ∷ xs)) (suc_add n k) ∙ ap (◌∷◌ x) (take_parts n k xs)

pub set-set {ℓ} : {A : Type ℓ} (xs : List A) (i : ℕ) (x y : A) → set (set xs i x) i y ≡ set xs i y
set-set [] i x y = refl
set-set (z ∷ xs) zero x y = refl
set-set (z ∷ xs) (suc i) x y = ap (◌∷◌ z) (set-set xs i x y)

set-get_or {ℓ} : {A : Type ℓ} (xs : List A) (i : ℕ) (d : A) → set xs i (get_or xs i d) ≡ xs
set-get_or [] i d = refl
set-get_or (x ∷ xs) zero d = refl
set-get_or (x ∷ xs) (suc i) d = ap (◌∷◌ x) (set-get_or xs i d)

pub length-zero {ℓ} : {A : Type ℓ} (xs : List A) → length xs ≡ 0 → xs ≡ []
length-zero [] e = refl
length-zero (x ∷ xs) e = absurd (omega arith)

-- Every file of the EEPROM starts at its first address.
pub eepfs_addr : (f : ℕ) → (eepfs_file_at f).addr ≡ 0
eepfs_addr zero = refl
eepfs_addr (suc f) = refl

pub eepfs_size-bound : (f : ℕ) → ops_size eepfs_ops f ≤ 10
unfolding ops_size
eepfs_size-bound zero = omega arith
eepfs_size-bound (suc f) = omega arith

-- An open descriptor, at position `p`.
pub record At (v : Vfs) (fd : ℕ) (ops : Ops) (f p : ℕ) : Type 0 where
  pub valid : IsVfs v
  pub opened : Opened v fd ops f
  pub position : (fd_at v fd).position ≡ p

fd_at-at_position :
    (v : Vfs) (fd n : ℕ)
    → IsVfs v
    → fd < 8
    → fd_at (at_position fd n v) fd ≡ record (fd_at v fd) { position = n }
fd_at-at_position v fd n w h = get_or-set_self v.fds fd _ no_fd (rw w.fd_count h)

pub at_position-At :
    (v : Vfs) (fd : ℕ) (ops : Ops) (f p n : ℕ)
    → At v fd ops f p
    → n ≤ ops_size ops f
    → At (at_position fd n v) fd ops f n
at_position-At v fd ops f p n a h =
    let o = a.opened in
    let e = fd_at-at_position v fd n a.valid o.inside in
    record {
      valid = at_position-IsVfs v fd ops f n a.valid o h;
      opened = record {
        inside = o.inside;
        busy = ap (λ (x : Fd). x.in_use) e ∙ o.busy;
        with_ops = ap (λ (x : Fd). x.ops) e ∙ o.with_ops;
        with_file = ap (λ (x : Fd). x.fs_file) e ∙ o.with_file;
        placed = rw (ap (λ (x : Fd). x.position) e) h;
      };
      position = ap (λ (x : Fd). x.position) e;
    }

-- Moving on by some bytes of the file is moving to the place after them.
pub advance-at_position :
    (v : Vfs) (fd : ℕ) (ops : Ops) (f p n : ℕ)
    → At v fd ops f p
    → p + n ≤ ops_size ops f
    → advance fd n v ≡ at_position fd (p + n) v
unfolding advance
advance-at_position v fd ops f p zero a h =
    let here : p + 0 ≡ (fd_at v fd).position = let at = a.position in omega arith in
    rw here (sym (ap (λ x. record v { fds = x }) (set-get_or v.fds fd no_fd)))
advance-at_position v fd ops f p (suc n) a h =
    let some_bytes : ltb 0 (suc n) ≡ true = ground arith in
    let to : u16 ((fd_at v fd).position + suc n) ≡ p + suc n =
      let at = a.position in let end = ops_size-bound ops f in omega arith in
    if_true _ _ some_bytes ∙ ap (λ q. at_position fd q v) to

-- A descriptor that is at a place has the file that the calls look for.
pub open_file-At :
    (v : Vfs) (fd : ℕ) (ops : Ops) (f p : ℕ) → At v fd ops f p → open_file fd v ≡ some (ops, f)
unfolding open_file
open_file-At v fd ops f p a =
    let o = a.opened in
    let closed : leb 8 fd || not (fd_at v fd).in_use ≡ false =
      let busy = o.busy in let low = o.inside in ground arith in
    rw (closed, open_file) (rw (o.with_ops) (rw (o.with_file) refl))

module _ {M : Type 0} (hal : Hal M) where
  -- Some bytes of a file from an offset on.
  unfoldable pub file_bytes : Ops → ℕ → ℕ → ℕ → M → List ℕ
  file_bytes romfs_ops f off n m = take n (drop off (file_at f).file_data)
  file_bytes eepfs_ops f off n m = hal.eeprom_read_block (u16 off) n m

  pub file_bytes-parts :
      (ops : Ops) (f off n k : ℕ) (m : M)
      → IsEeprom hal
      → off + n + k ≤ ops_size ops f
      → file_bytes ops f off (n + k) m ≡ file_bytes ops f off n m ++ file_bytes ops f (off + n) k m
  unfolding file_bytes
  file_bytes-parts romfs_ops f off n k m laws h =
      take_parts n k (drop off (file_at f).file_data)
      ∙ ap (λ xs. take n (drop off (file_at f).file_data) ++ take k xs)
          (sym (drop-drop off n (file_at f).file_data))
  file_bytes-parts eepfs_ops f off n k m laws h =
      let end = eepfs_size-bound f in
      let same : u16 off + n ≡ u16 (off + n) = omega arith in
      let inside : u16 off + n + k ≤ hal.eeprom_size = let room = laws.room in omega arith in
      rw (← same, file_bytes) (laws.read_parts (u16 off) n k m inside)

  -- A read that does not pass the end of the file by more than it is asked for.
  ops_read_lem :
      (ops : Ops) (f off len : ℕ) (m : M)
      → IsEeprom hal
      → off ≤ ops_size ops f
      → Fits hal len
      → let n = min len (ops_size ops f - off) in
        ops_read hal ops f off len m ≡ (n, file_bytes ops f off n m)
  unfolding ops_read romfs_read eepfs_read file_bytes ops_size
  ops_read_lem romfs_ops f off len m laws h fits =
      let end = ops_size-bound romfs_ops f in
      ap (λ n. (n, take n (drop off (file_at f).file_data)))
        (clip_lem hal.int_bits (file_at f).size off len (omega arith))
  ops_read_lem eepfs_ops f off len m laws h fits =
      let size = (eepfs_file_at f).size in
      let end = ops_size-bound eepfs_ops f in
      elim (Bool-cases (leb size off)) [
        | inl past ↦
            let none_left : 0 ≡ min len (size - off) = ground arith in
            let inside : u16 off + min len (size - off) ≤ hal.eeprom_size =
              let room = laws.room in let short = eepfs_size-bound f in omega arith in
            let no_bytes = length-zero _ (laws.length_read (u16 off) _ m inside ∙ sym none_left) in
            if_true _ _ past ∙ (λ i. (none_left i, sym no_bytes i))
        | inr inside ↦
            let amount = clip_lem hal.int_bits size off len (omega arith) in
            let place : u16 ((eepfs_file_at f).addr + off) ≡ u16 off =
              omega (arith, eepfs_addr f) in
            if_false _ _ inside ∙ (λ i. (amount i, hal.eeprom_read_block (place i) (amount i) m))
      ]

  pub vfs_read_lem :
      (v : Vfs) (fd : ℕ) (ops : Ops) (f p count : ℕ) (m : M)
      → IsEeprom hal
      → At v fd ops f p
      → Fits hal (u16 count)
      → let n = min (u16 count) (ops_size ops f - p) in
        vfs_read hal fd count v m ≡ (some n, file_bytes ops f p n m, at_position fd (p + n) v)
  unfolding vfs_read
  vfs_read_lem v fd ops f p count m laws a fits =
      let n = min (u16 count) (ops_size ops f - p) in
      let at = a.position in
      let placed = a.opened.placed in
      let bytes : ops_read hal ops f (fd_at v fd).position (u16 count) m
          ≡ (n, file_bytes ops f p n m) =
        rw at (ops_read_lem ops f p (u16 count) m laws (omega arith) fits) in
      rw (open_file-At v fd ops f p a, vfs_read)
        (ap (λ (r : ℕ × List ℕ). (some r.0, r.1, advance fd r.0 v)) bytes ∙ (λ i.
          (some n, file_bytes ops f p n m, advance-at_position v fd ops f p n a (omega arith) i)))
