-- ===== src/Ipv4/Checksum.antt =====
-- `ipv4_checksum` of drivers/net/ipv4.c: the Internet checksum of RFC 1071.
use mathlib.Core.WellFounded.{Acc}
use avrix.Base.Order.{lt_wf}
use avrix.Base.{
  ◌==◌, if◌then◌else◌, length, All, length-append, All-append, u16, u32, IsByte, ℕ, ◌+◌, ◌-◌, ◌*◌,
  ◌/◌, ◌%◌, ◌≤◌, ◌<◌, ◌≡◌, ap, ◌∙◌, List, [], ◌∷◌, ◌++◌, arith,
}
use avrix.Ipv4.{sum_words, fold_carry, ipv4_checksum}

-- The sum of the words of a buffer, high byte first, an odd byte at the end as a high byte.
unfoldable pub word_sum : List ℕ → ℕ
word_sum [] = 0
word_sum (x ∷ []) = x * 256
word_sum (x ∷ y ∷ m) = x * 256 + y + word_sum m

-- The one's complement sum: the remainder by 65535, with 65535 in place of 0 for a sum not 0.
abbrev pub ones : ℕ → ℕ
ones n = if n == 0 then 0 else (n - 1) % 65535 + 1

fold_carry-ones : (sum : ℕ) (w : Acc ◌<◌ sum) → fold_carry sum w ≡ ones sum
unfolding fold_carry
fold_carry-ones sum (Acc.intro _ smaller) = grind (
  arith,
  λ (p : sum % 65536 + sum / 65536 < sum).
      fold_carry-ones (sum % 65536 + sum / 65536) (smaller (sum % 65536 + sum / 65536) p),
)

ones-le : (n : ℕ) → ones n ≤ 65535
ones-le n = ground arith

word_sum-le : (m : List ℕ) → All IsByte m → 2 * word_sum m ≤ 65535 * (length m + 1)
unfolding word_sum
word_sum-le [] h = omega arith
word_sum-le (x ∷ []) h = omega arith
word_sum-le (x ∷ y ∷ m) (hx, (hy, h)) = omega (arith, word_sum-le m h)

sum_words-word_sum :
    (sum : ℕ) (m : List ℕ)
    → All IsByte m
    → sum + word_sum m < 4294967296
    → sum_words sum m ≡ sum + word_sum m
unfolding sum_words word_sum
sum_words-word_sum sum [] h k = omega arith
sum_words-word_sum sum (x ∷ []) (hx, h) k = omega arith
sum_words-word_sum sum (x ∷ y ∷ m) (hx, (hy, h)) k =
    let e : u32 (sum + u16 (x * 256 + y)) ≡ sum + (x * 256 + y) = omega arith in
    rw e (omega (arith, sum_words-word_sum (sum + (x * 256 + y)) m h (omega arith)))

-- The checksum of a buffer of less than 2 ^ 17 bytes is the complement of its one's complement sum.
pub ipv4_checksum_lem :
    (m : List ℕ) → All IsByte m → length m < 131072 → ipv4_checksum m ≡ 65535 - ones (word_sum m)
unfolding ipv4_checksum
ipv4_checksum_lem m h k =
    let total : sum_words 0 m ≡ word_sum m =
      sum_words-word_sum 0 m h (omega (arith, word_sum-le m h)) ∙ omega arith in
    let folded = fold_carry-ones (sum_words 0 m) (lt_wf.apply (sum_words 0 m)) ∙ ap ones total in
    omega (arith, folded, ones-le (word_sum m))

word_sum-append : (a b : List ℕ) → length a % 2 ≡ 0 → word_sum (a ++ b) ≡ word_sum a + word_sum b
unfolding word_sum
word_sum-append [] b h = omega arith
word_sum-append (x ∷ []) b h = absurd (omega arith)
word_sum-append (x ∷ y ∷ a) b h = omega (arith, word_sum-append a b (omega arith))

word_sum-hole :
    (a b : List ℕ) (x y : ℕ)
    → length a % 2 ≡ 0
    → word_sum (a ++ (x ∷ y ∷ b)) ≡ word_sum a + (x * 256 + y + word_sum b)
unfolding word_sum
word_sum-hole a b x y h = word_sum-append a (x ∷ y ∷ b) h

-- A sum and the complement of its one's complement sum make up a multiple of 65535.
complement : (n : ℕ) → 65535 - ones (n + (65535 - ones n)) ≡ 0
complement n = ground arith

-- A buffer with its checksum at an even place, high byte first, computed over it with zeros there,
-- has the checksum 0: the test by which RFC 1071 has a receiver verify it.
pub ipv4_checksum_verifies :
    (a b : List ℕ)
    → All IsByte a
    → All IsByte b
    → length a % 2 ≡ 0
    → length a + length b < 131070
    → let sum = ipv4_checksum (a ++ (0 ∷ 0 ∷ b)) in
      ipv4_checksum (a ++ ((sum / 256) ∷ (sum % 256) ∷ b)) ≡ 0
ipv4_checksum_verifies a b ha hb even small =
    let m₀ = a ++ (0 ∷ 0 ∷ b) in
    let sum = ipv4_checksum m₀ in
    let m₁ = a ++ ((sum / 256) ∷ (sum % 256) ∷ b) in
    let c₀ : sum ≡ 65535 - ones (word_sum a + word_sum b) =
      ipv4_checksum_lem m₀ (All-append IsByte a _ ha (omega arith, (omega arith, hb)))
        (omega (arith, length-append a (0 ∷ 0 ∷ b)))
      ∙ ap (λ n. 65535 - ones n) (word_sum-hole a b 0 0 even ∙ omega arith) in
    let c₁ : ipv4_checksum m₁ ≡ 65535 - ones (word_sum a + word_sum b + sum) =
      ipv4_checksum_lem m₁ (All-append IsByte a _ ha (omega (arith, c₀), (omega arith, hb)))
        (omega (arith, length-append a ((sum / 256) ∷ (sum % 256) ∷ b)))
      ∙ ap (λ n. 65535 - ones n) (word_sum-hole a b (sum / 256) (sum % 256) even ∙ omega arith) in
    c₁
    ∙ ap (λ n. 65535 - ones (word_sum a + word_sum b + n)) c₀
    ∙ complement (word_sum a + word_sum b)
