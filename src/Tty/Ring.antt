-- ===== src/Tty/Ring.antt =====
-- A ring buffer of drivers/tty/tty.c as the queue of the bytes that it holds, oldest first.
use avrix.Base.{
  leb, ◌==◌, if◌then◌else◌, length, get_or, set, length-set, get_or-set_self, get_or-set_ne, IsMask,
  bit_and-IsMask, divides_256, mask_small, mod_of_eq, ℕ, zero, suc, ◌+◌, ◌-◌, ◌≤◌, ◌<◌, ◌≡◌, refl,
  ap, ap₂, ◌∙◌, List, [], ◌∷◌, ◌++◌, arith,
}
use avrix.Tty.{ring_wrap, ring_available, ring_free}

-- What the driver assumes of a buffer and its indices.
pub record IsRing (buf : List ℕ) (head tail mask : ℕ) : Type 0 where
  pub storage : mask < length buf
  pub head_in : head ≤ mask
  pub tail_in : tail ≤ mask
  pub masked : IsMask mask

-- The index after `i`, and the distance from `tail` to `head` going round.
abbrev pub next : ℕ → ℕ → ℕ
next mask i = if i == mask then 0 else i + 1

abbrev pub used : ℕ → ℕ → ℕ → ℕ
used mask head tail = if leb tail head then head - tail else head + mask + 1 - tail

module _ (mask : ℕ) (m : IsMask mask) where
  pub wrap-next : (i : ℕ) → i ≤ mask → ring_wrap (i + 1) mask ≡ next mask i
  wrap-next i h =
      bit_and-IsMask (i + 1) mask m (omega (arith, mask_small mask m))
      ∙ mod_of_eq (i + 1) (next mask i) (if i == mask then 1 else 0) mask (ground arith)
          (ground arith)

  pub available-used :
      (head tail : ℕ)
      → head ≤ mask
      → tail ≤ mask
      → ring_available head tail mask ≡ used mask head tail
  unfolding ring_available
  available-used head tail hh ht =
      let (d, e) = divides_256 mask m in
      bit_and-IsMask (head + 256 - tail) mask m (omega (arith, mask_small mask m))
      ∙ mod_of_eq (head + 256 - tail) (used mask head tail) (if leb tail head then d + 1 else d)
          mask (ground (arith, e)) (ground arith)

  pub free-used :
      (head tail : ℕ)
      → head ≤ mask
      → tail ≤ mask
      → ring_free head tail mask ≡ mask - used mask head tail
  unfolding ring_free
  free-used head tail hh ht =
      let (d, e) = divides_256 mask m in
      bit_and-IsMask (tail + 256 - head - 1) mask m (omega (arith, mask_small mask m))
      ∙ mod_of_eq (tail + 256 - head - 1) (mask - used mask head tail)
          (if leb tail head then d else d + 1) mask (ground (arith, e)) (ground arith)

module _ (buf : List ℕ) (mask : ℕ) where
  -- The `n` bytes from index `i` on.
  abbrev pub window : ℕ → ℕ → List ℕ
  window i zero = []
  window i (suc n) = get_or buf i 0 ∷ window (next mask i) n

  pub length-window : (i n : ℕ) → length (window i n) ≡ n
  length-window i zero = refl
  length-window i (suc n) = ap suc (length-window (next mask i) n)

-- Writing just behind a window extends it.
pub window-set :
    (buf : List ℕ) (mask x n i j : ℕ)
    → mask < length buf
    → i ≤ mask
    → n ≤ mask
    → j ≡ (if leb (i + n) mask then i + n else i + n - (mask + 1))
    → window (set buf j x) mask i (suc n) ≡ window buf mask i n ++ (x ∷ [])
window-set buf mask x zero i j hs hi hn e =
    let e' : j ≡ i = ground arith in
    rw e' (ap (λ y. y ∷ []) (get_or-set_self buf i x 0 (omega arith)))
window-set buf mask x (suc n) i j hs hi hn e =
    ap₂ ◌∷◌ (get_or-set_ne buf j i x 0 (ground arith))
      (window-set buf mask x n (next mask i) j hs (ground arith) (omega arith) (ground arith))

-- The bytes of a ring.
abbrev pub queue : List ℕ → ℕ → ℕ → ℕ → List ℕ
queue buf head tail mask = window buf mask tail (used mask head tail)

pub length-queue :
    (buf : List ℕ) (head tail mask : ℕ) → length (queue buf head tail mask) ≡ used mask head tail
length-queue buf head tail mask = length-window buf mask tail (used mask head tail)

module _ {buf : List ℕ} {head tail mask : ℕ} (v : IsRing buf head tail mask) where
  pub used-le : used mask head tail ≤ mask
  used-le = let h = v.head_in in let k = v.tail_in in ground arith

  pub emptied-IsRing : IsRing buf head head mask
  emptied-IsRing = record {
    storage = v.storage;
    head_in = v.head_in;
    tail_in = v.head_in;
    masked = v.masked;
  }

  pub next_tail-IsRing : IsRing buf head (next mask tail) mask
  next_tail-IsRing = record {
    storage = v.storage;
    head_in = v.head_in;
    tail_in = let h = v.tail_in in ground arith;
    masked = v.masked;
  }

  pub set-IsRing : (x : ℕ) → IsRing (set buf head x) (next mask head) tail mask
  set-IsRing x = record {
    storage = rw (length-set buf head x) v.storage;
    head_in = let h = v.head_in in ground arith;
    tail_in = v.tail_in;
    masked = v.masked;
  }
