-- ===== src/Kalloc/Safety.antt =====
-- Any sequence of calls of kernel/mm/kalloc.c: the blocks in use never overlap.
use avrix.Kalloc.Align.{align_size-overflow}
use avrix.Kalloc.Heap.{Tiles-apart, Tiles-IsDistinct, Tiles-below}
use avrix.Kalloc.Alloc.{
  kfree-Holds, kalloc_aligned, given, kalloc_init-Holds, exhausted, Holds, nothing_asked, Allocated,
}
use avrix.Kalloc.Lists.{times}
use mathlib.Core.Path.{subst}
use avrix.Kalloc.{
  align_size, carve, search_loop, kalloc_init, kalloc_reset_peak, Block, kalloc, State, kfree,
}
use avrix.Base.{
  ltb, ◌==◌, if_false, ℕ, ◌+◌, ◌≤◌, ◌<◌, ◌≡◌, refl, ap, ◌∙◌, ◌≢◌, ◌⊎◌, false, none, some, List, [],
  ◌∷◌, ◌++◌, arith,
}

-- The states that calls can reach, each with the blocks in use, the latest first. `kfree` is only
-- given pointers that `kalloc` returned and that were not freed since.
pub data Run (heap_size hdr align : ℕ) : State → List ℕ → Type 0 where
  starts : (mem : ℕ → Block) → Run heap_size hdr align (kalloc_init heap_size hdr align mem) []
  allocates :
      {h : State} {live : List ℕ} (size b : ℕ) {h' : State}
      → Run heap_size hdr align h live
      → kalloc heap_size hdr align size h ≡ some (some (b + hdr), h')
      → Run heap_size hdr align h' (b ∷ live)
  refuses :
      {h : State} {live : List ℕ} (size : ℕ) {h' : State}
      → Run heap_size hdr align h live
      → kalloc heap_size hdr align size h ≡ some (none, h')
      → Run heap_size hdr align h' live
  frees :
      {h : State} (xs : List ℕ) (b : ℕ) (ys : List ℕ)
      → Run heap_size hdr align h (xs ++ (b ∷ ys))
      → Run heap_size hdr align (kfree heap_size hdr align (some (b + hdr)) h) (xs ++ ys)
  frees_null :
      {h : State} {live : List ℕ}
      → Run heap_size hdr align h live
      → Run heap_size hdr align (kfree heap_size hdr align none h) live
  resets :
      {h : State} {live : List ℕ}
      → Run heap_size hdr align h live
      → Run heap_size hdr align (kalloc_reset_peak h) live

module _ (heap_size hdr align : ℕ) (pos : 0 < hdr) where
  Allocated-Holds :
      (h h' : State) (live : List ℕ) (size b : ℕ)
      → kalloc heap_size hdr align size h ≡ some (some (b + hdr), h')
      → Allocated heap_size hdr h live size
          (align_size align size)
          (kalloc heap_size hdr align size h)
      → Holds heap_size hdr h' (b ∷ live)
  Allocated-Holds h h' live size b e (nothing_asked z r) = cc
  Allocated-Holds h h' live size b e (exhausted free asked chain small full r) = cc
  Allocated-Holds h h' live size b e (given c h'' asked r le sizes holds) =
      let same : h'' ≡ h' = cc in
      let ptr : c + hdr ≡ b + hdr = cc in
      let at : c ≡ b = omega arith in
      subst (λ x. Holds heap_size hdr h' (x ∷ live)) at
        (subst (λ x. Holds heap_size hdr x (c ∷ live)) same holds)

  refused_same :
      (h h' : State) (live : List ℕ) (size : ℕ)
      → kalloc heap_size hdr align size h ≡ some (none, h')
      → Allocated heap_size hdr h live size
          (align_size align size)
          (kalloc heap_size hdr align size h)
      → h ≡ h'
  refused_same h h' live size e (nothing_asked z r) = cc
  refused_same h h' live size e (exhausted free asked chain small full r) = cc
  refused_same h h' live size e (given c h'' asked r le sizes holds) = cc

  pub Run-Holds :
      {h : State} {live : List ℕ} → Run heap_size hdr align h live → Holds heap_size hdr h live
  unfolding kfree kalloc_reset_peak
  Run-Holds (starts mem) = kalloc_init-Holds heap_size hdr align mem
  Run-Holds (allocates {h} {live} size b {h'} r e) =
      Allocated-Holds h h' live size b e
        (kalloc_aligned heap_size hdr align pos h live size (Run-Holds r))
  Run-Holds (refuses {h} {live} size {h'} r e) =
      let same =
        refused_same h h' live size e
          (kalloc_aligned heap_size hdr align pos h live size (Run-Holds r)) in
      subst (λ x. Holds heap_size hdr x live) same (Run-Holds r)
  Run-Holds (frees {h} xs b ys r) = kfree-Holds heap_size hdr align pos h xs b ys (Run-Holds r)
  Run-Holds (frees_null r) = Run-Holds r
  Run-Holds (resets r) =
      let (blocks, free, v) = Run-Holds r in
      (
        blocks,
        free,
        record {
          chain = v.chain;
          tiled = v.tiled;
          top = v.top;
          counted = v.counted;
          parted = v.parted;
        },
      )

  -- With a header of some bytes, after any sequence of calls, two blocks in use, each with its
  -- header, lie in the heap and do not overlap.
  pub live_apart :
      {h : State} {live : List ℕ} (b c : ℕ)
      → Run heap_size hdr align h live
      → 0 < times b live
      → 0 < times c live
      → b ≢ c
      → (b + (hdr + (h.mem b).size) ≤ heap_size)
        × (c + (hdr + (h.mem c).size) ≤ heap_size)
        × ((b + (hdr + (h.mem b).size) ≤ c) ⊎ (c + (hdr + (h.mem c).size) ≤ b))
  live_apart {h} {live} b c r hb hc ne =
      let (blocks, free, v) = Run-Holds r in
      let kb : 0 < times b blocks = omega (arith, v.parted b) in
      let kc : 0 < times c blocks = omega (arith, v.parted c) in
      let t = v.top in
      (
        omega (arith, Tiles-below hdr pos h.mem h.heap_top blocks b v.tiled kb),
        omega (arith, Tiles-below hdr pos h.mem h.heap_top blocks c v.tiled kc),
        Tiles-apart hdr pos h.mem h.heap_top blocks b c v.tiled kb kc ne,
      )

  -- With a header of some bytes, no block is handed out that is in use: after any sequence of
  -- calls an address occurs at most once among the blocks in use.
  pub live_distinct :
      {h : State} {live : List ℕ} (b : ℕ) → Run heap_size hdr align h live → times b live ≤ 1
  live_distinct {h} b r =
      let (blocks, free, v) = Run-Holds r in
      omega (arith, v.parted b, Tiles-IsDistinct hdr pos h.mem h.heap_top blocks v.tiled b)

-- With the alignments that kalloc.h sets, 2 and 4, and a size of at most 255 that makes more than
-- 256 with the alignment, `kalloc` on a fresh heap that has room for a header returns a block of
-- no bytes: the aligned size wraps round to 0.
pub kalloc_wraps :
    (heap_size hdr align size : ℕ) (mem : ℕ → Block)
    → (align ≡ 2) ⊎ (align ≡ 4)
    → size < 256
    → 256 < size + align
    → hdr ≤ heap_size
    → (h' : State) × (kalloc heap_size hdr align size (kalloc_init heap_size hdr align mem)
        ≡ some (some hdr, h'))
      × ((h'.mem 0).size ≡ 0)
unfolding kalloc kalloc_init search_loop carve
kalloc_wraps heap_size hdr align size mem al h k room =
    let wrapped = align_size-overflow align size al h k in
    let asked : (size == 0) ≡ false = ground arith in
    let fits : ltb heap_size (0 + (hdr + 0)) ≡ false = ground arith in
    let h' = carve heap_size hdr align 0 (kalloc_init heap_size hdr align mem) in
    let ptr : 0 + hdr ≡ hdr = omega arith in
    (h', rw (asked, wrapped) (if_false _ _ fits ∙ ap (λ p. some (some p, h')) ptr), refl)
