-- ===== src/Kalloc/Search.antt =====
-- The free list of kernel/mm/kalloc.c: the first-fit search, and taking a block out.
use mathlib.Core.Path.{subst}
use avrix.Kalloc.Lists.{IsDistinct-tail}
use avrix.Kalloc.{search_loop}
use avrix.Kalloc.{update, write_prev, Block, State}
use avrix.Kalloc.Lists.{
  times-append, times-last_of, times_tail, IsDistinct-head, IsDistinct, times, last_of,
}
use avrix.Base.{
  leb, ◌==◌, ==_iff, ==_refl, Bool-cases, length, All, ℕ, zero, suc, ◌≤◌, ◌<◌, ◌≡◌, refl, sym, ap,
  inl, inr, true, false, Option, none, some, List, [], ◌∷◌, ◌++◌, arith,
}

-- The list that starts at `p` holds the blocks `bs`, in this order.
abbrev pub Chain : (ℕ → Block) → Option ℕ → List ℕ → Type 0
Chain mem p [] = p ≡ none
Chain mem p (b ∷ bs) = (p ≡ some b) × Chain mem (mem b).next bs

-- All blocks of the list are smaller than `n`.
abbrev pub AllSmall : (ℕ → Block) → ℕ → List ℕ → Type 0
AllSmall mem n = All (λ b. (mem b).size < n)

-- The variable that points to what follows the blocks `xs`, if `prev` points to the first of them.
abbrev pub prev_of : Option ℕ → List ℕ → Option ℕ
prev_of prev [] = prev
prev_of prev (x ∷ xs) = prev_of (some x) xs

-- The outcome of the search: no block is large enough, or the first that is large enough is
-- taken out.
pub data Searched (h : State) (n : ℕ) (prev : Option ℕ) (bs : List ℕ)
    (result : Option (Option (ℕ × State))) : Type 0 where
  nothing : AllSmall h.mem n bs → result ≡ some none → Searched h n prev bs result
  found :
      (xs : List ℕ) (b : ℕ) (ys : List ℕ)
      → bs ≡ xs ++ (b ∷ ys)
      → AllSmall h.mem n xs
      → n ≤ (h.mem b).size
      → result ≡ some (some (b, write_prev (prev_of prev xs) (h.mem b).next h))
      → Searched h n prev bs result

Searched-cons :
    (h : State) (n : ℕ) (prev : Option ℕ) (b : ℕ) (bs : List ℕ)
    {result : Option (Option (ℕ × State))}
    → (h.mem b).size < n
    → Searched h n (some b) bs result
    → Searched h n prev (b ∷ bs) result
Searched-cons h n prev b bs lt (nothing small e) = nothing (lt, small) e
Searched-cons h n prev b bs lt (found xs c ys split small le e) =
    found (b ∷ xs) c ys (ap (◌∷◌ b) split) (lt, small) le e

-- The search ends when its fuel exceeds the length of the list, and takes the first fit.
pub search_loop_lem :
    (bs : List ℕ) (fuel n : ℕ) (prev p : Option ℕ) (h : State)
    → Chain h.mem p bs
    → length bs < fuel
    → Searched h n prev bs (search_loop fuel n prev p h)
unfolding search_loop
search_loop_lem bs zero n prev p h chain k = absurd (omega arith)
search_loop_lem [] (suc fuel) n prev p h chain k = rw chain (nothing tt refl)
search_loop_lem (b ∷ bs) (suc fuel) n prev p h (e, chain) k =
    elim (Bool-cases (leb n (h.mem b).size)) [
      | inl fits ↦ rw (e, fits) (found [] b bs refl tt (ground arith) refl)
      | inr small ↦
          rw (e, small)
            (Searched-cons h n prev b bs (ground arith)
              (search_loop_lem bs fuel n (some b) (h.mem b).next h chain (omega arith)))
    ]

-- A chain does not depend on blocks that are not in it.
pub Chain-update :
    (mem : ℕ → Block) (c : ℕ) (v : Block) (p : Option ℕ) (bs : List ℕ)
    → times c bs ≡ 0
    → Chain mem p bs
    → Chain (update mem c v) p bs
unfolding times
Chain-update mem c v p [] none_there chain = chain
Chain-update mem c v p (b ∷ bs) none_there (e, chain) =
    let other : (c == b) ≡ false = ground arith in
    (e, rw other (Chain-update mem c v (mem b).next bs (ground arith) chain))

prev_of-some : (x : ℕ) (xs : List ℕ) → prev_of (some x) xs ≡ some (last_of x xs)
prev_of-some x [] = refl
prev_of-some x (y ∷ ys) = prev_of-some y ys

-- Writing the `next` of the last block of `x ∷ xs` takes out the block `b` that follows it.
unlink_after :
    (mem : ℕ → Block) (x : ℕ) (xs : List ℕ) (b : ℕ) (ys : List ℕ) (p : Option ℕ)
    → IsDistinct (x ∷ (xs ++ (b ∷ ys)))
    → Chain mem p (x ∷ (xs ++ (b ∷ ys)))
    → let c = last_of x xs in
      Chain (update mem c (record (mem c) { next = (mem b).next })) p (x ∷ (xs ++ ys))
unlink_after mem x [] b ys p d (e, (_, chain)) =
    let away : times x ys ≡ 0 = omega (arith, IsDistinct-head x (b ∷ ys) d, times_tail x b ys) in
    (
      e,
      rw (==_refl x)
          (Chain-update mem x (record (mem x) { next = (mem b).next }) (mem b).next ys away chain),
    )
unlink_after mem x (y ∷ xs) b ys p d (e, chain) =
    let c = last_of y xs in
    let d' = IsDistinct-tail x (y ∷ (xs ++ (b ∷ ys))) d in
    let apart : (c == x) ≡ false = elim (Bool-cases (c == x)) [
      | inl same ↦ absurd (last_apart same)
      | inr other ↦ other
    ] in
    (e, rw apart (unlink_after mem y xs b ys (mem x).next d' chain))
  where
    last_apart : (last_of y xs == x) ≡ true → ⊥
    last_apart same =
        let here = times-last_of y xs in
        let same' : last_of y xs ≡ x = (==_iff (last_of y xs) x).0 same in
        let there : 0 < times x (y ∷ xs) = rw (← same') here in
        omega (
          arith,
          there,
          IsDistinct-head x (y ∷ (xs ++ (b ∷ ys))) d,
          times-append x (y ∷ xs) (b ∷ ys),
        )

-- Taking a block out of the free list leaves the others, in their order, and changes no size.
pub unlink :
    (h : State) (xs : List ℕ) (b : ℕ) (ys : List ℕ)
    → IsDistinct (xs ++ (b ∷ ys))
    → Chain h.mem h.freelist (xs ++ (b ∷ ys))
    → let h' = write_prev (prev_of none xs) (h.mem b).next h in Chain h'.mem h'.freelist (xs ++ ys)
unfolding write_prev
unlink h [] b ys d (_, chain) = chain
unlink h (x ∷ xs) b ys d chain =
    subst (λ q. let h' = write_prev q (h.mem b).next h in Chain h'.mem h'.freelist (x ∷ (xs ++ ys)))
      (sym (prev_of-some x xs)) (unlink_after h.mem x xs b ys h.freelist d chain)

pub write_prev-size :
    (p q : Option ℕ) (h : State) (j : ℕ) → ((write_prev p q h).mem j).size ≡ (h.mem j).size
unfolding write_prev
write_prev-size none q h j = refl
write_prev-size (some c) q h j = ground (arith, ==_iff c j)

pub write_prev-top : (p q : Option ℕ) (h : State) → (write_prev p q h).heap_top ≡ h.heap_top
unfolding write_prev
write_prev-top none q h = refl
write_prev-top (some c) q h = refl
