-- ===== src/Kalloc/Align.antt =====
-- `align_size` of kernel/mm/kalloc.c.
use native.Mathlib.Nat.{lt-div-mul-add, div-mul-le_self}
use avrix.Kalloc.{align_size}
use avrix.Base.{leb, Bool-cases, ℕ, ◌+◌, ◌-◌, ◌%◌, ◌≤◌, ◌<◌, ◌≡◌, ◌⊎◌, inl, inr, arith}

-- With an alignment that is not 0 and a size that makes at most 256 with it, the aligned size is
-- no smaller than the size, and the alignment is more than what it adds.
pub align_size-bounds :
    (align size : ℕ)
    → 0 < align
    → size + align ≤ 256
    → (size ≤ align_size align size) × (align_size align size < size + align)
unfolding align_size
align_size-bounds align size h k = omega (
  arith,
  lt-div-mul-add {a = size + (align - 1)} {b = align} h,
  div-mul-le_self (size + (align - 1)) align,
)

-- Above that the sum exceeds a `uint8_t`, and with the alignments that kalloc.h sets the result is
-- 0.
pub align_size-overflow :
    (align size : ℕ)
    → (align ≡ 2) ⊎ (align ≡ 4)
    → size < 256
    → 256 < size + align
    → align_size align size ≡ 0
unfolding align_size
align_size-overflow align size (inl e) h k = rw e (omega arith)
align_size-overflow align size (inr e) h k = rw e (omega arith)

-- The size that `kalloc` makes of one that is asked for: the next multiple of the alignment, if a
-- byte holds the size with a whole alignment added, and 0 if it does not.
abbrev pub IsRounded : ℕ → ℕ → ℕ → Type 0
IsRounded align size n =
    ((size + align ≤ 256) × (size ≤ n) × (n < size + align) × (n % align ≡ 0))
    ⊎ ((256 < size + align) × (n ≡ 0))

positive : (align : ℕ) → (align ≡ 2) ⊎ (align ≡ 4) → 0 < align
positive align (inl e) = omega arith
positive align (inr e) = omega arith

align_size-multiple :
    (align size : ℕ)
    → (align ≡ 2) ⊎ (align ≡ 4)
    → size + align ≤ 256
    → align_size align size % align ≡ 0
unfolding align_size
align_size-multiple align size (inl e) h = rw e (omega arith)
align_size-multiple align size (inr e) h = rw e (omega arith)

pub align_size-IsRounded :
    (align size : ℕ)
    → (align ≡ 2) ⊎ (align ≡ 4)
    → size < 256
    → IsRounded align size (align_size align size)
align_size-IsRounded align size al small = elim (Bool-cases (leb (size + align) 256)) [
  | inl e ↦
      let fits : size + align ≤ 256 = ground arith in
      let (low, high) = align_size-bounds align size (positive align al) fits in
      inl (fits, low, high, align_size-multiple align size al fits)
  | inr e ↦
      let over : 256 < size + align = ground arith in
      inr (over, align_size-overflow align size al small over)
]
