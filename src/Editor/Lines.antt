-- ===== src/Editor/Lines.antt =====
-- The loops of examples/editor_common.c against insertion into and removal from a list of lines.
use avrix.Editor.{move_up, move_down}
use avrix.Base.{
  length, get_or, set, take, drop, length-set, length-take, take-append, ℕ, zero, suc, ◌+◌, ◌≤◌,
  ◌<◌, ◌≡◌, refl, sym, ap, ap₂, ◌∙◌, List, [], ◌∷◌, ◌++◌, append_assoc, arith,
}

unfoldable pub insert_at {ℓ} : {A : Type ℓ} → ℕ → A → List A → List A
insert_at zero x xs = x ∷ xs
insert_at (suc i) x [] = x ∷ []
insert_at (suc i) x (y ∷ ys) = y ∷ insert_at i x ys

unfoldable pub remove_at {ℓ} : {A : Type ℓ} → ℕ → List A → List A
remove_at i [] = []
remove_at zero (x ∷ xs) = xs
remove_at (suc i) (x ∷ xs) = x ∷ remove_at i xs

module _ {ℓ} {A : Type ℓ} where
  take-set_above : (n i : ℕ) (v : A) (xs : List A) → n ≤ i → take n (set xs i v) ≡ take n xs
  take-set_above zero i v xs h = refl
  take-set_above (suc n) i v [] h = refl
  take-set_above (suc n) zero v (x ∷ xs) h = absurd (omega arith)
  take-set_above (suc n) (suc i) v (x ∷ xs) h = ap (◌∷◌ x) (take-set_above n i v xs (omega arith))

  drop-set_self :
      (i : ℕ) (v : A) (xs : List A) → i < length xs → drop i (set xs i v) ≡ v ∷ drop (suc i) xs
  drop-set_self i v [] h = absurd (omega arith)
  drop-set_self zero v (x ∷ xs) h = refl
  drop-set_self (suc i) v (x ∷ xs) h = drop-set_self i v xs (omega arith)

  take-snoc :
      (n : ℕ) (xs : List A) (d : A)
      → n < length xs
      → take (suc n) xs ≡ take n xs ++ (get_or xs n d ∷ [])
  take-snoc n [] d h = absurd (omega arith)
  take-snoc zero (x ∷ xs) d h = refl
  take-snoc (suc n) (x ∷ xs) d h = ap (◌∷◌ x) (take-snoc n xs d (omega arith))

pub length-move_down :
    (n i : ℕ) (lines : List (List ℕ)) → length (move_down n i lines) ≡ length lines
unfolding move_down
length-move_down zero i lines = refl
length-move_down (suc n) i lines = length-move_down n i _ ∙ length-set lines (i + suc n) _

pub length-move_up : (n i : ℕ) (lines : List (List ℕ)) → length (move_up n i lines) ≡ length lines
unfolding move_up
length-move_up zero i lines = refl
length-move_up (suc n) i lines = length-move_up n (i + 1) _ ∙ length-set lines i _

move_down-cons :
    (n i : ℕ) (row : List ℕ) (lines : List (List ℕ))
    → move_down n (suc i) (row ∷ lines) ≡ row ∷ move_down n i lines
unfolding move_down
move_down-cons zero i row lines = refl
move_down-cons (suc n) i row lines =
    let e : suc i + suc n ≡ suc (i + suc n) = omega arith in
    let e' : suc i + n ≡ suc (i + n) = omega arith in
    rw (e, e') (move_down-cons n i row (set lines (i + suc n) (get_or lines (i + n) [])))

move_up-cons :
    (n i : ℕ) (row : List ℕ) (lines : List (List ℕ))
    → move_up n (suc i) (row ∷ lines) ≡ row ∷ move_up n i lines
unfolding move_up
move_up-cons zero i row lines = refl
move_up-cons (suc n) i row lines =
    let e : suc i + 1 ≡ suc (i + 1) = omega arith in
    rw e (move_up-cons n (i + 1) row (set lines i (get_or lines (i + 1) [])))

move_down_front :
    (n : ℕ) (row : List ℕ) (lines : List (List ℕ))
    → n < length lines
    → set (move_down n 0 lines) 0 row ≡ row ∷ (take n lines ++ drop (suc n) lines)
unfolding move_down
move_down_front zero row [] h = absurd (omega arith)
move_down_front zero row (x ∷ lines) h = refl
move_down_front (suc n) row lines h =
    let e : 0 + suc n ≡ suc n = omega arith in
    let e' : 0 + n ≡ n = omega arith in
    let moved = set lines (suc n) (get_or lines n []) in
    rw (e, e')
      (move_down_front n row moved (omega (arith, length-set lines (suc n) (get_or lines n [])))
        ∙ ap (◌∷◌ row) (
            ap₂ ◌++◌ (take-set_above n (suc n) _ lines (omega arith))
              (drop-set_self (suc n) _ lines h)
            ∙ sym (append_assoc (take n lines) (get_or lines n [] ∷ []) (drop (suc (suc n)) lines))
            ∙ ap (λ xs. xs ++ drop (suc (suc n)) lines) (sym (take-snoc n lines [] (omega arith)))))

-- Making room at `i` and writing there is an insertion into the rows in use.
pub move_down-insert_at :
    (n i : ℕ) (row : List ℕ) (lines : List (List ℕ))
    → i + n < length lines
    → take (suc (i + n)) (set (move_down n i lines) i row) ≡ insert_at i row (take (i + n) lines)
unfolding insert_at
move_down-insert_at n zero row lines h =
    let e : 0 + n ≡ n = omega arith in
    let size : n ≡ length (take n lines) = omega (arith, length-take n lines) in
    rw (e, move_down_front n row lines (omega arith))
      (ap (◌∷◌ row) (
        ap (λ k. take k (take n lines ++ drop (suc n) lines)) size
        ∙ take-append (take n lines) (drop (suc n) lines)))
move_down-insert_at n (suc i) row [] h = absurd (omega arith)
move_down-insert_at n (suc i) row (x ∷ lines) h =
    let e : suc i + n ≡ suc (i + n) = omega arith in
    rw (e, move_down-cons n i x lines)
      (ap (◌∷◌ x) (move_down-insert_at n i row lines (omega arith)))

move_up_front :
    (n : ℕ) (row : List ℕ) (lines : List (List ℕ))
    → n ≤ length lines
    → take n (move_up n 0 (row ∷ lines)) ≡ take n lines
unfolding move_up
move_up_front zero row lines h = refl
move_up_front (suc n) row [] h = absurd (omega arith)
move_up_front (suc n) row (x ∷ lines) h =
    let e : 0 + 1 ≡ 1 = omega arith in
    rw (e, move_up-cons n 0 x (x ∷ lines)) (ap (◌∷◌ x) (move_up_front n x lines (omega arith)))

-- Closing the gap at `i` is a removal from the rows in use.
pub move_up-remove_at :
    (n i : ℕ) (lines : List (List ℕ))
    → i + n < length lines
    → take (i + n) (move_up n i lines) ≡ remove_at i (take (suc (i + n)) lines)
unfolding remove_at
move_up-remove_at n i [] h = absurd (omega arith)
move_up-remove_at n zero (x ∷ lines) h =
    let e : 0 + n ≡ n = omega arith in rw e (move_up_front n x lines (omega arith))
move_up-remove_at n (suc i) (x ∷ lines) h =
    let e : suc i + n ≡ suc (i + n) = omega arith in
    rw (e, move_up-cons n i x lines) (ap (◌∷◌ x) (move_up-remove_at n i lines (omega arith)))
