-- ===== src/Kalloc/Tests.antt =====
-- A heap of kernel/mm/kalloc.c with 64 bytes, headers of 3 bytes and alignment 2.
use avrix.Kalloc.Lists.{times}
use avrix.Kalloc.Safety.{starts, allocates, Run-Holds, Run, live_apart}
use avrix.Kalloc.{
  write_prev, reused, search_loop, count_free, kfree, kalloc_init, carve, State, malloc,
  kalloc_get_stats, Block, kalloc, align_size,
}
use avrix.Kalloc.Align.{IsRounded}
use avrix.Kalloc.Alloc.{kalloc_lem, Holds, Allocated}
use avrix.Base.{ℕ, ◌+◌, ◌≤◌, ◌≡◌, refl, ◌⊎◌, inl, none, some, [], ◌∷◌, arith}

abbrev memory : ℕ → Block
memory b = record { next = none; size = 0 }

abbrev boot : State
boot = kalloc_init 64 3 2 memory

-- The state after a call that returned a block.
abbrev first : State
first = carve 64 3 2 6 boot

abbrev second : State
second = carve 64 3 2 10 first

kalloc_5 : kalloc 64 3 2 5 boot ≡ some (some (0 + 3), first)
unfolding kalloc kalloc_init carve search_loop align_size
kalloc_5 = refl

kalloc_9 : kalloc 64 3 2 9 first ≡ some (some (9 + 3), second)
unfolding kalloc kalloc_init carve search_loop align_size
kalloc_9 = refl

two : Run 64 3 2 second (9 ∷ 0 ∷ [])
two = allocates 9 9 (allocates 5 0 (starts memory) kalloc_5) kalloc_9

-- Freed blocks are tried in turn, the last one freed first, until one is large enough.
kalloc_again :
    (h' : State) × (kalloc 64 3 2 9 (kfree 64 3 2 (some 3) (kfree 64 3 2 (some 12) second))
      ≡ some (some 12, h'))
    × (h'.freelist ≡ some 0)
unfolding kalloc kalloc_init carve search_loop align_size kfree reused write_prev
kalloc_again = (_, refl, refl)

live_apart_example :
    (0 + (3 + (second.mem 0).size) ≤ 64)
    × (9 + (3 + (second.mem 9).size) ≤ 64)
    × ((0 + (3 + (second.mem 0).size) ≤ 9) ⊎ (9 + (3 + (second.mem 9).size) ≤ 0))
live_apart_example =
    live_apart 64 3 2 (omega arith) 0 9 two (unfold times in omega arith)
      (unfold times in omega arith) (omega arith)

first-Holds : Holds 64 3 first (0 ∷ [])
first-Holds = Run-Holds 64 3 2 (omega arith) (allocates 5 0 (starts memory) kalloc_5)

kalloc_lem_example :
    (n : ℕ) × IsRounded 2 9 n × Allocated 64 3 first (0 ∷ []) 9 n (kalloc 64 3 2 9 first)
kalloc_lem_example =
    kalloc_lem 64 3 2 (omega arith) first (0 ∷ []) 9 first-Holds (inl refl) (omega arith)

-- The size 255 is rounded to 0, and a block of no bytes is given.
kalloc_255 : kalloc 64 3 2 255 boot ≡ some (some (0 + 3), carve 64 3 2 0 boot)
unfolding kalloc kalloc_init carve search_loop align_size
kalloc_255 = refl

malloc_256 : malloc 64 3 2 256 boot ≡ some (none, boot)
unfolding malloc
malloc_256 = refl

kalloc_get_stats-boot : kalloc_get_stats 65 boot ≡ some boot.stats
unfolding kalloc_get_stats kalloc_init count_free
kalloc_get_stats-boot = refl
