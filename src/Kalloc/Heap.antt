-- ===== src/Kalloc/Heap.antt =====
-- The heap of kernel/mm/kalloc.c as a row of blocks, each of which is free or in use.
use avrix.Kalloc.Search.{Chain}
use avrix.Kalloc.{Block, State}
use avrix.Kalloc.Lists.{IsDistinct, times}
use avrix.Base.{
  ◌==◌, ==_iff, Bool-cases, length, ℕ, ◌+◌, ◌≤◌, ◌<◌, ◌≡◌, ◌≢◌, ◌⊎◌, inl, inr, List, [], ◌∷◌, arith,
}

-- The blocks `bs`, the last one first, fill the heap from its start to `top`.
abbrev pub Tiles : ℕ → (ℕ → Block) → ℕ → List ℕ → Type 0
Tiles hdr mem top [] = top ≡ 0
Tiles hdr mem top (b ∷ bs) = (b + (hdr + (mem b).size) ≡ top) × Tiles hdr mem b bs

module _ (hdr : ℕ) (pos : 0 < hdr) where
  pub Tiles-below :
      (mem : ℕ → Block) (top : ℕ) (bs : List ℕ) (c : ℕ)
      → Tiles hdr mem top bs
      → 0 < times c bs
      → c + (hdr + (mem c).size) ≤ top
  unfolding times
  Tiles-below mem top [] c t k = absurd (omega arith)
  Tiles-below mem top (b ∷ bs) c (e, t) k = elim (Bool-cases (c == b)) [
    | inl same ↦ let same' : c ≡ b = (==_iff c b).0 same in rw same' (omega arith)
    | inr other ↦ omega (arith, Tiles-below mem b bs c t (rw other at k))
  ]

  pub Tiles-IsDistinct :
      (mem : ℕ → Block) (top : ℕ) (bs : List ℕ) → Tiles hdr mem top bs → IsDistinct bs
  unfolding times
  Tiles-IsDistinct mem top [] t c = omega arith
  Tiles-IsDistinct mem top (b ∷ bs) (e, t) c =
      grind
        (arith, Tiles-IsDistinct mem b bs t c, λ (k : 0 < times c bs). Tiles-below mem b bs c t k)

  -- Two blocks do not overlap.
  pub Tiles-apart :
      (mem : ℕ → Block) (top : ℕ) (bs : List ℕ) (b c : ℕ)
      → Tiles hdr mem top bs
      → 0 < times b bs
      → 0 < times c bs
      → b ≢ c
      → (b + (hdr + (mem b).size) ≤ c) ⊎ (c + (hdr + (mem c).size) ≤ b)
  unfolding times
  Tiles-apart mem top [] b c t k l ne = absurd (omega arith)
  Tiles-apart mem top (x ∷ bs) b c (e, t) k l ne = elim (Bool-cases (b == x)) [
    | inl first ↦
        let l' : 0 < times c bs = ground arith in inr (ground (arith, Tiles-below mem x bs c t l'))
    | inr other ↦ elim (Bool-cases (c == x)) [
      | inl second ↦ inl (ground (arith, Tiles-below mem x bs b t (rw other at k)))
      | inr other' ↦ Tiles-apart mem x bs b c t (rw other at k) (rw other' at l) ne
    ]
  ]

  -- The row only depends on the sizes of the blocks below `top`.
  pub Tiles-cong :
      (mem mem' : ℕ → Block) (top : ℕ) (bs : List ℕ)
      → ((c : ℕ) → c < top → (mem' c).size ≡ (mem c).size)
      → Tiles hdr mem top bs
      → Tiles hdr mem' top bs
  Tiles-cong mem mem' top [] same t = t
  Tiles-cong mem mem' top (b ∷ bs) same (e, t) =
      let e' = same b (omega arith) in
      (omega (arith, e'), Tiles-cong mem mem' b bs (λ c h. same c (omega arith)) t)

  pub length-Tiles :
      (mem : ℕ → Block) (top : ℕ) (bs : List ℕ) → Tiles hdr mem top bs → length bs ≤ top
  length-Tiles mem top [] t = omega arith
  length-Tiles mem top (b ∷ bs) (e, t) = omega (arith, length-Tiles mem b bs t)

-- Of the blocks of the heap, those of the free list are free, and the others are in use.
pub record IsHeap (heap_size hdr : ℕ) (h : State) (blocks free live : List ℕ) : Type 0 where
  pub chain : Chain h.mem h.freelist free
  pub tiled : Tiles hdr h.mem h.heap_top blocks
  pub top : h.heap_top ≤ heap_size
  pub counted : length free + length live ≡ length blocks
  pub parted : (b : ℕ) → times b free + times b live ≡ times b blocks
