-- ===== src/Kalloc/Lists.antt =====
-- Lists of block addresses: how often an address occurs, and the last address of a list.
use avrix.Base.{◌==◌, if◌then◌else◌, ℕ, suc, ◌+◌, ◌≤◌, ◌<◌, ◌≡◌, List, [], ◌∷◌, ◌++◌, arith}

unfoldable pub times : ℕ → List ℕ → ℕ
times b [] = 0
times b (x ∷ xs) = if b == x then suc (times b xs) else times b xs

abbrev pub IsDistinct : List ℕ → Type 0
IsDistinct xs = (b : ℕ) → times b xs ≤ 1

abbrev pub last_of : ℕ → List ℕ → ℕ
last_of x [] = x
last_of x (y ∷ ys) = last_of y ys

pub times-append : (b : ℕ) (xs ys : List ℕ) → times b (xs ++ ys) ≡ times b xs + times b ys
unfolding times
times-append b [] ys = omega arith
times-append b (x ∷ xs) ys = ground (arith, times-append b xs ys)

pub times_head : (x : ℕ) (xs : List ℕ) → times x (x ∷ xs) ≡ suc (times x xs)
unfolding times
times_head x xs = ground arith

pub times_tail : (b x : ℕ) (xs : List ℕ) → times b xs ≤ times b (x ∷ xs)
unfolding times
times_tail b x xs = ground arith

pub IsDistinct-tail : (x : ℕ) (xs : List ℕ) → IsDistinct (x ∷ xs) → IsDistinct xs
IsDistinct-tail x xs d b = omega (arith, d b, times_tail b x xs)

pub IsDistinct-head : (x : ℕ) (xs : List ℕ) → IsDistinct (x ∷ xs) → times x xs ≡ 0
IsDistinct-head x xs d = omega (arith, d x, times_head x xs)

pub times-last_of : (x : ℕ) (xs : List ℕ) → 0 < times (last_of x xs) (x ∷ xs)
times-last_of x [] = omega (arith, times_head x [])
times-last_of x (y ∷ ys) = omega (arith, times-last_of y ys, times_tail (last_of y ys) x (y ∷ ys))

-- An address that is taken out of the middle occurs once less, and others as often.
pub times_middle : (c b : ℕ) (xs ys : List ℕ) → times c (xs ++ (b ∷ ys)) ≡ times c (b ∷ (xs ++ ys))
unfolding times
times_middle c b xs ys = ground (arith, times-append c xs (b ∷ ys), times-append c xs ys)
