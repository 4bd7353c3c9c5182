-- ===== src/Kalloc/Alloc.antt =====
-- `kalloc_init`, `kalloc` and `kfree` of kernel/mm/kalloc.c keep the heap in order.
use mathlib.Core.Path.{subst}
use avrix.Kalloc.Search.{
  search_loop_lem, found, nothing, AllSmall, Searched, write_prev-top, Chain, unlink,
}
use avrix.Kalloc.Search.{write_prev-size, Chain-update, prev_of}
use avrix.Kalloc.Align.{IsRounded, align_size-IsRounded}
use avrix.Kalloc.Lists.{times_head, times_middle, IsDistinct, times}
use avrix.Kalloc.Heap.{Tiles-cong, Tiles-below, Tiles-IsDistinct, length-Tiles, IsHeap}
use avrix.Kalloc.{
  kfree, update, search_loop, kalloc, align_size, reused, write_prev, Block, carve, kalloc_init,
  State,
}
use avrix.Base.{
  ltb, ◌==◌, ==_iff, ==_refl, Bool-cases, length, length-append, ℕ, zero, suc, ◌+◌, ◌-◌, ◌≤◌, ◌<◌,
  ◌≡◌, refl, ◌⊎◌, inl, inr, false, Option, none, some, List, [], ◌∷◌, ◌++◌, arith,
}

-- Some division of the heap into blocks, in which the blocks in use are `live`.
abbrev pub Holds : ℕ → ℕ → State → List ℕ → Type 0
Holds heap_size hdr h live = (blocks free : List ℕ) × IsHeap heap_size hdr h blocks free live

pub kalloc_init-Holds :
    (heap_size hdr align : ℕ) (mem : ℕ → Block)
    → Holds heap_size hdr (kalloc_init heap_size hdr align mem) []
unfolding kalloc_init
kalloc_init-Holds heap_size hdr align mem = (
  [],
  [],
  record {
    chain = refl;
    tiled = refl;
    top = omega arith;
    counted = omega arith;
    parted = λ b. unfold times in omega arith;
  },
)

-- What `kalloc` does with a heap whose blocks in use are `live`, where the size is
-- rounded to `n`.
pub data Allocated (heap_size hdr : ℕ) (h : State) (live : List ℕ) (size n : ℕ)
    (result : Option (Option ℕ × State)) : Type 0 where
  nothing_asked : size ≡ 0 → result ≡ some (none, h) → Allocated heap_size hdr h live size n result
  exhausted :
      (free : List ℕ)
      → 0 < size
      → Chain h.mem h.freelist free
      → AllSmall h.mem (n) free
      → heap_size < h.heap_top + (hdr + n)
      → result ≡ some (none, h)
      → Allocated heap_size hdr h live size n result
  given :
      (b : ℕ) (h' : State)
      → 0 < size
      → result ≡ some (some (b + hdr), h')
      → n ≤ (h'.mem b).size
      → ((c : ℕ) → 0 < times c live → (h'.mem c).size ≡ (h.mem c).size)
      → Holds heap_size hdr h' (b ∷ live)
      → Allocated heap_size hdr h live size n result

module _ (heap_size hdr align : ℕ) (pos : 0 < hdr) where
  -- The fuel of the search is enough.
  free_short :
      {h : State} {blocks free live : List ℕ}
      → IsHeap heap_size hdr h blocks free live
      → length free < suc heap_size
  free_short {h} {blocks} v =
      let n = v.counted in
      let t = v.top in omega (arith, length-Tiles hdr pos h.mem h.heap_top blocks v.tiled)

  free-IsDistinct :
      {h : State} {blocks free live : List ℕ}
      → IsHeap heap_size hdr h blocks free live
      → IsDistinct free
  free-IsDistinct {h} {blocks} v b =
      omega (arith, v.parted b, Tiles-IsDistinct hdr pos h.mem h.heap_top blocks v.tiled b)

  reused-IsHeap :
      (h : State) (blocks xs : List ℕ) (b : ℕ) (ys live : List ℕ)
      → IsHeap heap_size hdr h blocks (xs ++ (b ∷ ys)) live
      → IsHeap heap_size hdr
          (write_prev (prev_of none xs) (h.mem b).next h)
          blocks
          (xs ++ ys)
          (b ∷ live)
  reused-IsHeap h blocks xs b ys live v =
      let sizes = write_prev-size (prev_of none xs) (h.mem b).next h in
      record {
        chain = unlink h xs b ys (free-IsDistinct v) v.chain;
        tiled = rw write_prev-top (
            Tiles-cong hdr pos h.mem (write_prev (prev_of none xs) (h.mem b).next h).mem h.heap_top
              blocks (λ c k. sizes c) v.tiled);
        top = rw write_prev-top v.top;
        counted = omega (arith, v.counted, length-append xs (b ∷ ys), length-append xs ys);
        parted = λ c. unfold times in ground (arith, v.parted c, times_middle c b xs ys);
      }

  carve-IsHeap :
      (h : State) (n : ℕ) (blocks free live : List ℕ)
      → h.heap_top + (hdr + n) ≤ heap_size
      → IsHeap heap_size hdr h blocks free live
      → IsHeap heap_size hdr
          (carve heap_size hdr align n h)
          (h.heap_top ∷ blocks)
          free
          (h.heap_top ∷ live)
  unfolding carve
  carve-IsHeap h n blocks free live room v =
      let b = h.heap_top in
      let blk : Block = record { next = none; size = n } in
      let fresh : times b blocks ≡ 0 =
        grind (arith, λ (k : 0 < times b blocks). Tiles-below hdr pos h.mem b blocks b v.tiled k) in
      record {
        chain = Chain-update h.mem b blk h.freelist free (omega (arith, v.parted b)) v.chain;
        tiled = (
          rw (==_refl b) (omega arith),
          Tiles-cong hdr pos h.mem (update h.mem b blk) b blocks (λ c k. ground (arith, ==_iff b c))
              v.tiled,
        );
        top = room;
        counted = omega (arith, v.counted);
        parted = λ c. unfold times in ground (arith, v.parted c);
      }

  kalloc_found :
      (h : State) (live : List ℕ) (size b : ℕ) (blocks xs ys : List ℕ)
      → 0 < size
      → align_size align size ≤ (h.mem b).size
      → IsHeap heap_size hdr h blocks (xs ++ (b ∷ ys)) live
      → Allocated heap_size hdr h live size (align_size align size) (
          some (
            some (b + hdr),
            reused heap_size hdr align (write_prev (prev_of none xs) (h.mem b).next h),
          ))
  unfolding reused
  kalloc_found h live size b blocks xs ys some_asked le v =
      let sizes = write_prev-size (prev_of none xs) (h.mem b).next h in
      let v' = reused-IsHeap h blocks xs b ys live v in
      given b _ some_asked refl (rw (sizes b) le) (λ c k. sizes c)
        (
          blocks,
          xs ++ ys,
          record {
            chain = v'.chain;
            tiled = v'.tiled;
            top = v'.top;
            counted = v'.counted;
            parted = v'.parted;
          },
        )

  kalloc_carved :
      (h : State) (live : List ℕ) (size : ℕ) (blocks free : List ℕ)
      → 0 < size
      → h.heap_top + (hdr + align_size align size) ≤ heap_size
      → IsHeap heap_size hdr h blocks free live
      → Allocated heap_size hdr h live size
          (align_size align size)
          (some (some (h.heap_top + hdr), carve heap_size hdr align (align_size align size) h))
  unfolding carve
  kalloc_carved h live size blocks free some_asked room v =
      let below : (c : ℕ) → 0 < times c live → c < h.heap_top = λ c k. omega (
        arith,
        Tiles-below hdr pos h.mem h.heap_top blocks c v.tiled (omega (arith, v.parted c)),
      ) in
      given h.heap_top _ some_asked refl (rw (==_refl h.heap_top) (omega arith))
        (λ c k. ground (arith, ==_iff h.heap_top c, below c k))
        (h.heap_top ∷ blocks, free, carve-IsHeap h (align_size align size) blocks free live room v)

  Searched-kalloc :
      (h : State) (live : List ℕ) (size : ℕ) (blocks free : List ℕ)
      → IsHeap heap_size hdr h blocks free live
      → 0 < size
      → Searched h
          (align_size align size)
          none
          free
          (search_loop (suc heap_size) (align_size align size) none h.freelist h)
      → Allocated heap_size hdr h live size
          (align_size align size)
          (kalloc heap_size hdr align size h)
  unfolding kalloc
  Searched-kalloc h live size blocks free v some_asked (nothing small e) =
      let asked : (size == 0) ≡ false = ground arith in
      elim (Bool-cases (ltb heap_size (h.heap_top + (hdr + align_size align size)))) [
        | inl full ↦
            rw (asked, e, full) (exhausted free some_asked v.chain small (ground arith) refl)
        | inr room ↦
            rw (asked, e, room) (kalloc_carved h live size blocks free some_asked (ground arith) v)
      ]
  Searched-kalloc h live size blocks free v some_asked (found xs b ys split small le e) =
      let asked : (size == 0) ≡ false = ground arith in
      let v' = subst (λ bs. IsHeap heap_size hdr h blocks bs live) split v in
      rw (asked, e) (kalloc_found h live size b blocks xs ys some_asked le v')

  -- What `kalloc` does, in terms of the size that it aligns.
  pub kalloc_aligned :
      (h : State) (live : List ℕ) (size : ℕ)
      → Holds heap_size hdr h live
      → Allocated heap_size hdr h live size
          (align_size align size)
          (kalloc heap_size hdr align size h)
  kalloc_aligned h live zero (blocks, free, v) = nothing_asked refl (unfold kalloc in refl)
  kalloc_aligned h live (suc size) (blocks, free, v) =
      Searched-kalloc h live (suc size) blocks free v (omega arith) (
        search_loop_lem free (suc heap_size) (align_size align (suc size)) none h.freelist h v.chain
          (free_short v))

  -- With a header of some bytes, and a heap in order, `kfree` of a block in use makes it free, and
  -- leaves the others in use.
  pub kfree-Holds :
      (h : State) (xs : List ℕ) (b : ℕ) (ys : List ℕ)
      → Holds heap_size hdr h (xs ++ (b ∷ ys))
      → Holds heap_size hdr (kfree heap_size hdr align (some (b + hdr)) h) (xs ++ ys)
  unfolding kfree
  kfree-Holds h xs b ys (blocks, free, v) =
      let live = xs ++ (b ∷ ys) in
      let ptr : b + hdr - hdr ≡ b = omega arith in
      let blk : Block = record (h.mem b) { next = h.freelist } in
      let unused : times b free ≡ 0 = omega (
        arith,
        v.parted b,
        times_middle b b xs ys,
        times_head b (xs ++ ys),
        Tiles-IsDistinct hdr pos h.mem h.heap_top blocks v.tiled b,
      ) in
      rw ptr (
        blocks,
        b ∷ free,
        record {
          chain = (refl, rw (==_refl b) (Chain-update h.mem b blk h.freelist free unused v.chain));
          tiled =
              Tiles-cong hdr pos h.mem (update h.mem b blk) h.heap_top blocks
                (λ c k. ground (arith, ==_iff b c)) v.tiled;
          top = v.top;
          counted = omega (arith, v.counted, length-append xs (b ∷ ys), length-append xs ys);
          parted = λ c. unfold times in ground (arith, v.parted c, times_middle c b xs ys);
        },
      )

  -- With a header of some bytes, one of the alignments of kalloc.h and a size of a byte, `kalloc` ends
  -- on every heap that is in order. For the size 0 it returns NULL. Other sizes are rounded to the
  -- next multiple of the alignment if they make at most 256 with it, and to 0 if they make more. It
  -- then returns NULL only where no free block is as large as the rounded size and the heap's end is
  -- too near, and leaves the heap; otherwise it returns a block at least that large, which was not
  -- in use, and the heap is in order with it and the blocks in use before, which keep their sizes.
  pub kalloc_lem :
      (h : State) (live : List ℕ) (size : ℕ)
      → Holds heap_size hdr h live
      → (align ≡ 2) ⊎ (align ≡ 4)
      → size < 256
      → (n : ℕ) × IsRounded align size n
        × Allocated heap_size hdr h live size n (kalloc heap_size hdr align size h)
  kalloc_lem h live size holds al small = (
    align_size align size,
    align_size-IsRounded align size al small,
    kalloc_aligned h live size holds,
  )
