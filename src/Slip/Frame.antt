-- ===== src/Slip/Frame.antt =====
-- Decoding a SLIP stream as a function on lists, and what it makes of an encoded frame.
use avrix.Base.{
  ltb, leb, ◌==◌, if◌then◌else◌, Bool-cases, length, take, length-append, take-append, ℕ, ◌+◌, ◌≤◌,
  ◌<◌, ◌≡◌, refl, sym, ap, ◌∙◌, inl, inr, Bool, true, false, List, [], ◌∷◌, ◌++◌, append-nil,
  append_assoc, arith,
}
use avrix.Slip.{slip_end, skip, frame, put, too_large, store, classify}
use avrix.Slip.Send.{stuff, encode}

-- What follows the next END.
unfoldable pub after_end : List ℕ → List ℕ
after_end [] = []
after_end (b ∷ q) = elim (b == slip_end) [ true ↦ q | false ↦ after_end q ]

-- The result of receiving from the bytes `q`: the number returned, the bytes in the buffer, and
-- the bytes that were not taken.
unfoldable pub receive : ℕ → List ℕ → Bool → List ℕ → ℕ × List ℕ × List ℕ
receive len buf esc [] = (0, buf, [])
receive len buf esc (b ∷ q) = elim (classify len (length buf) esc b) [
  | skip esc' ↦ receive len buf esc' q
  | frame ↦ (length buf, buf, q)
  | put c ↦ receive len (buf ++ (c ∷ [])) false q
  | too_large ↦ (0, buf, after_end q)
]

-- Stuffing leaves no END inside a frame.
after_end-stuff : (p rest : List ℕ) → after_end (stuff p ++ (slip_end ∷ rest)) ≡ rest
unfolding after_end stuff
after_end-stuff [] rest = refl
after_end-stuff (b ∷ p) rest = ground (arith, after_end-stuff p rest)

-- The answer for a payload that follows the bytes `buf`: the whole, if it fits.
abbrev answer : ℕ → List ℕ → List ℕ → ℕ × List ℕ × List ℕ
answer len whole rest =
    if leb (length whole) len then (length whole, whole, rest) else (0, take len whole, rest)

-- An END before the first byte is skipped.
receive_leading :
    (len : ℕ) (q : List ℕ) → receive len [] false (slip_end ∷ q) ≡ receive len [] false q
unfolding receive classify
receive_leading len q = refl

-- One payload byte, stuffed, is stored or finds the buffer full.
receive_byte :
    (len b : ℕ) (buf q : List ℕ)
    → receive len buf false (stuff (b ∷ []) ++ q) ≡ (
        if ltb (length buf) len
        then receive len (buf ++ (b ∷ [])) false q
        else (0, buf, after_end q))
unfolding receive stuff classify store
receive_byte len b buf q = ground arith

stuff-nil : stuff [] ≡ []
unfolding stuff
stuff-nil = refl

stuff-cons_append : (b : ℕ) (p q : List ℕ) → stuff (b ∷ p) ++ q ≡ stuff (b ∷ []) ++ (stuff p ++ q)
unfolding stuff
stuff-cons_append b p q = ground arith

receive_end :
    (len : ℕ) (buf rest : List ℕ)
    → 0 < length buf
    → receive len buf false (slip_end ∷ rest) ≡ (length buf, buf, rest)
unfolding receive classify
receive_end len buf rest h = ground arith

receive-stuff :
    (len : ℕ) (p buf rest : List ℕ)
    → 0 < length buf + length p
    → length buf ≤ len
    → receive len buf false (stuff p ++ (slip_end ∷ rest)) ≡ answer len (buf ++ p) rest
receive-stuff len [] buf rest h k =
    let fits : leb (length buf) len ≡ true = ground arith in
    rw (append-nil, stuff-nil, fits) (receive_end len buf rest (omega arith))
receive-stuff len (b ∷ p) buf rest h k = elim (Bool-cases (ltb (length buf) len)) [
  | inl room ↦
      rw (stuff-cons_append, receive_byte, room)
        (receive-stuff len p (buf ++ (b ∷ [])) rest (omega (arith, length-append buf (b ∷ [])))
            (ground (arith, length-append buf (b ∷ [])))
          ∙ ap (λ w. answer len w rest) (append_assoc buf (b ∷ []) p))
  | inr full ↦
      rw (stuff-cons_append, receive_byte, full)
        (let e : len ≡ length buf = ground arith in
          let long : leb (length (buf ++ (b ∷ p))) len ≡ false =
            ground (arith, length-append buf (b ∷ p)) in
          let cut : take len (buf ++ (b ∷ p)) ≡ buf = rw e (take-append buf (b ∷ p)) in
          rw (after_end-stuff p rest, long, cut))
]

-- Receiving an encoded payload that is not empty: the payload, where it fits into `len` bytes; else
-- nothing. In both cases just that frame is taken, whatever follows it.
pub receive-encode :
    (len : ℕ) (p rest : List ℕ)
    → 0 < length p
    → receive len [] false (encode p ++ rest)
      ≡ (if leb (length p) len then (length p, p, rest) else (0, take len p, rest))
receive-encode len p rest h =
    let e : stuff p ++ (slip_end ∷ []) ++ rest ≡ stuff p ++ (slip_end ∷ rest) =
      append_assoc (stuff p) (slip_end ∷ []) rest in
    receive_leading len _
    ∙ ap (receive len [] false) e
    ∙ receive-stuff len p [] rest (omega arith) (omega arith)

-- Without its closing END a payload that fits is taken into the buffer, and nothing is returned.
receive_open :
    (len : ℕ) (p buf : List ℕ)
    → length buf + length p ≤ len
    → receive len buf false (stuff p) ≡ (0, buf ++ p, [])
receive_open len [] buf h = rw (stuff-nil, append-nil) (unfold receive in refl)
receive_open len (b ∷ p) buf h =
    let room : ltb (length buf) len ≡ true = ground arith in
    let e : stuff (b ∷ p) ≡ stuff (b ∷ []) ++ stuff p =
      sym (append-nil _) ∙ stuff-cons_append b p [] ∙ ap (◌++◌ (stuff (b ∷ []))) (append-nil _) in
    rw (e, receive_byte, room)
      (receive_open len p (buf ++ (b ∷ [])) (omega (arith, length-append buf (b ∷ [])))
        ∙ ap (λ w. (0, w, [])) (append_assoc buf (b ∷ []) p))

-- So a frame whose closing END has not come is taken off, and its bytes are lost to later calls.
pub receive-open_frame :
    (len : ℕ) (p : List ℕ) → length p ≤ len → receive len [] false (slip_end ∷ stuff p) ≡ (0, p, [])
receive-open_frame len p h = receive_leading len (stuff p) ∙ receive_open len p [] (omega arith)

pub receive-end_only : (len : ℕ) → receive len [] false (slip_end ∷ []) ≡ (0, [], [])
unfolding receive
receive-end_only len = receive_leading len []
