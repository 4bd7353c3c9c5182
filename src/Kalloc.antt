-- ===== src/Kalloc.antt =====
-- kernel/mm/kalloc.c and kernel/mm/kalloc.h: the kernel heap, built with NK_KALLOC_STATS and
-- NK_KALLOC_POSIX_COMPAT. An address is an offset into `heap`, and NULL is `none`. Of the memory
-- the headers of the blocks are modelled, by the address of the header; user data is not.
-- The platform gives the size of the heap, that of a header (`sizeof(block_t)`) and the alignment.
pub mod Lists
pub mod Align
pub mod Search
pub mod Heap
pub mod Alloc
pub mod Safety
mod Tests
use avrix.Base.{
  ltb, leb, ◌==◌, if◌then◌else◌, u8, u16, ℕ, zero, suc, ◌+◌, ◌-◌, ◌*◌, ◌/◌, ◌%◌, Option, none, some,
}

-- `block_t`
pub record Block : Type 0 where
  pub next : Option ℕ
  pub size : ℕ

-- `kalloc_stats_t`
pub record KallocStats : Type 0 where
  pub total_size : ℕ
  pub used_bytes : ℕ
  pub free_bytes : ℕ
  pub peak_used : ℕ
  pub free_blocks : ℕ
  pub alloc_count : ℕ
  pub free_count : ℕ

-- The variables of the file, with the headers in memory.
pub record State : Type 0 where
  pub heap_top : ℕ
  pub freelist : Option ℕ
  pub mem : ℕ → Block
  pub stats : KallocStats

abbrev pub update : (ℕ → Block) → ℕ → Block → ℕ → Block
update mem b v j = if b == j then v else mem j

-- `*prev = p`, where `none` is the address of `freelist` and `some c` that of the field `next` of
-- the block at `c`.
unfoldable pub write_prev : Option ℕ → Option ℕ → State → State
write_prev none p h = record h { freelist = p }
write_prev (some c) p h = record h { mem = update h.mem c (record (h.mem c) { next = p }) }

-- The walk along the free list. The first `none` means that the fuel ran out, the second that no
-- block is large enough; otherwise the block, and the state with it taken out of the list.
unfoldable pub search_loop : ℕ → ℕ → Option ℕ → Option ℕ → State → Option (Option (ℕ × State))
search_loop zero size prev b h = none
search_loop (suc fuel) size prev none h = some none
search_loop (suc fuel) size prev (some b) h =
    let more = search_loop fuel size (some b) (h.mem b).next h in
    if leb size (h.mem b).size then some (some (b, write_prev prev (h.mem b).next h)) else more

-- The mask is that of a power of two: the low bits are cleared, and the result is a `uint8_t`.
unfoldable pub align_size : ℕ → ℕ → ℕ
align_size align size = u8 ((size + (align - 1)) / align * align)

module _ (heap_size hdr align : ℕ) where
  -- The state of the memory before is left.
  unfoldable pub kalloc_init : (ℕ → Block) → State
  kalloc_init mem = record {
    heap_top = 0;
    freelist = none;
    mem = mem;
    stats = record {
      total_size = u16 heap_size;
      used_bytes = 0;
      free_bytes = u16 heap_size;
      peak_used = 0;
      free_blocks = 0;
      alloc_count = 0;
      free_count = 0;
    };
  }

  -- The counters after a block was taken from the free list.
  unfoldable pub reused : State → State
  reused h =
      let st = h.stats in
      record h {
        stats = record st {
          alloc_count = u8 (st.alloc_count + 1);
          free_blocks = u8 (st.free_blocks + 256 - 1);
        };
      }

  -- The new block at the top of the heap.
  unfoldable pub carve : ℕ → State → State
  carve size h =
      let total_size = hdr + size in
      let st = h.stats in
      let used = u16 (st.used_bytes + total_size) in
      record h {
        heap_top = h.heap_top + total_size;
        mem = update h.mem h.heap_top (record { next = none; size = size });
        stats = record st {
          alloc_count = u8 (st.alloc_count + 1);
          used_bytes = used;
          free_bytes = u16 (heap_size - (h.heap_top + total_size));
          peak_used = if ltb st.peak_used used then used else st.peak_used;
        };
      }

  -- The pointer returned and the new state. A free list holds no more blocks than the heap holds
  -- headers, so `heap_size + 1` rounds are enough.
  unfoldable pub kalloc : ℕ → State → Option (Option ℕ × State)
  kalloc size h =
      let n = align_size align size in
      let found = search_loop (suc heap_size) n none h.freelist h in
      if size == 0 then some (none, h) else elim found [
        | none ↦ none
        | some (some (b, h')) ↦ some (some (b + hdr), reused h')
        | some none ↦
            if ltb heap_size (h.heap_top + (hdr + n))
            then some (none, h)
            else some (some (h.heap_top + hdr), carve n h)
      ]

  unfoldable pub kfree : Option ℕ → State → State
  kfree none h = h
  kfree (some ptr) h =
      let blk = ptr - hdr in
      let st = h.stats in
      record h {
        mem = update h.mem blk (record (h.mem blk) { next = h.freelist });
        freelist = some blk;
        stats = record st {
          free_count = u8 (st.free_count + 1);
          free_blocks = u8 (st.free_blocks + 1);
        };
      }

  -- `malloc` and `calloc`, whose memory is cleared besides. The product is a `size_t`.
  unfoldable pub malloc : ℕ → State → Option (Option ℕ × State)
  malloc size h = if ltb 255 size then some (none, h) else kalloc (u8 size) h

  unfoldable pub calloc : ℕ → ℕ → ℕ → State → Option (Option ℕ × State)
  calloc size_max nmemb size h =
      let total = nmemb * size % (size_max + 1) in
      if ltb 255 total then some (none, h) else kalloc (u8 total) h

-- The count of the free list in `kalloc_get_stats`, which stops at 255.
unfoldable pub count_free : ℕ → ℕ → Option ℕ → State → Option ℕ
count_free zero n b h = none
count_free (suc fuel) n none h = some n
count_free (suc fuel) n (some b) h =
    let more = count_free fuel (n + 1) (h.mem b).next h in if n + 1 == 255 then some 255 else more

unfoldable pub kalloc_get_stats : ℕ → State → Option KallocStats
kalloc_get_stats fuel h = elim (count_free fuel 0 h.freelist h) [
  | none ↦ none
  | some n ↦ let st = h.stats in some (record st { free_blocks = n })
]

unfoldable pub kalloc_reset_peak : State → State
kalloc_reset_peak h =
    let st = h.stats in record h { stats = record st { peak_used = st.used_bytes } }
