-- ===== src/Fs/Names.antt =====
-- The loops and string comparisons of src/fs.c.
use native.Mathlib.Decide.{dec_lt}
use avrix.Fs.{find_from, strcmp_equal, strncmp_equal}
use mathlib.Core.Logic.{◌↔◌}
use avrix.Base.{
  Bool-cases, length, ℕ, zero, suc, ◌+◌, ◌≤◌, ◌<◌, ◌≡◌, refl, inl, inr, Bool, true, false, Option,
  none, some, List, [], ◌∷◌, arith,
}

-- What a search over the indices from `i` to `end` returns.
pub data Found (test : ℕ → Bool) (i end : ℕ) (result : Option ℕ) : Type 0 where
  absent : result ≡ none → ((j : ℕ) → i ≤ j → j < end → test j ≡ false) → Found test i end result
  present :
      (k : ℕ)
      → result ≡ some k
      → i ≤ k
      → k < end
      → test k ≡ true
      → ((j : ℕ) → i ≤ j → j < k → test j ≡ false)
      → Found test i end result

Found-skip :
    (test : ℕ → Bool) (i end : ℕ) (result : Option ℕ)
    → test i ≡ false
    → Found test (i + 1) end result
    → Found test i end result
Found-skip test i end result miss (absent e all) = absent e (λ j h k. elim (dec_lt i j) [
  | yes above ↦ all j (omega arith) k
  | no here ↦ let same : j ≡ i = omega arith in rw same miss
])
Found-skip test i end result miss (present k e above lt yes_k before) =
    present k e (omega arith) lt yes_k (λ j h l. elim (dec_lt i j) [
      | yes later ↦ before j (omega arith) l
      | no here ↦ let same : j ≡ i = omega arith in rw same miss
    ])

pub find_from_lem :
    (test : ℕ → Bool) (n i end : ℕ) → i + n ≡ end → Found test i end (find_from test n i)
unfolding find_from
find_from_lem test zero i end e = absent refl (λ j h k. absurd (omega arith))
find_from_lem test (suc n) i end e = elim (Bool-cases (test i)) [
  | inl hit ↦
      rw hit (present i refl (omega arith) (omega arith) hit (λ j h k. absurd (omega arith)))
  | inr miss ↦
      rw miss (Found-skip test i end _ miss (find_from_lem test n (i + 1) end (omega arith)))
]

pub strcmp_equal_iff : (xs ys : List ℕ) → (strcmp_equal xs ys ≡ true) ↔ (xs ≡ ys)
unfolding strcmp_equal
strcmp_equal_iff [] [] = (λ h. refl, λ h. refl)
strcmp_equal_iff [] (y ∷ ys) = (λ h. ground arith, λ h. cc)
strcmp_equal_iff (x ∷ xs) [] = (λ h. ground arith, λ h. cc)
strcmp_equal_iff (x ∷ xs) (y ∷ ys) = (
  λ h. ground (arith, (strcmp_equal_iff xs ys).0),
  λ h. ground (arith, (strcmp_equal_iff xs ys).1),
)

-- On a name that is shorter than the bound, comparing with the bound decides equality.
pub strncmp_equal_iff :
    (n : ℕ) (xs ys : List ℕ) → length xs < n → (strncmp_equal n xs ys ≡ true) ↔ (xs ≡ ys)
unfolding strncmp_equal
strncmp_equal_iff zero xs ys h = absurd (omega arith)
strncmp_equal_iff (suc n) [] [] h = (λ e. refl, λ e. refl)
strncmp_equal_iff (suc n) [] (y ∷ ys) h = (λ e. ground arith, λ e. cc)
strncmp_equal_iff (suc n) (x ∷ xs) [] h = (λ e. ground arith, λ e. cc)
strncmp_equal_iff (suc n) (x ∷ xs) (y ∷ ys) h = (
  λ e. ground (arith, (strncmp_equal_iff n xs ys (omega arith)).0),
  λ e. ground (arith, (strncmp_equal_iff n xs ys (omega arith)).1),
)
