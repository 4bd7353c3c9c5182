-- ===== src/Slip/Decode.antt =====
-- The stream that the receiver of drivers/net/slip.c takes, decoded as RFC 1055 has it: END is 192,
-- and ESC, 219, stands with the byte after it for one byte.
use avrix.Slip.Frame.{receive, after_end}
use avrix.Slip.{classify, store}
use avrix.Base.{
  ltb, ◌==◌, if◌then◌else◌, length, ℕ, ◌≡◌, refl, Bool, true, false, Option, none, some, List, [],
  ◌∷◌, ◌++◌, arith,
}

-- The byte that ESC and the byte after it stand for.
unfoldable pub escaped : ℕ → Option ℕ
escaped b = if b == 220 then some 192 else if b == 221 then some 219 else none

-- The symbols of a stream, after an ESC or not: `none` is an END, and `some` a byte of a payload. With
-- each is what follows it in the stream. An ESC before a byte that it does not escape is dropped
-- with that byte.
unfoldable pub symbols : Bool → List ℕ → List (Option ℕ × List ℕ)
symbols esc [] = []
symbols true (b ∷ q) =
    let later = symbols false q in elim (escaped b) [ none ↦ later | some c ↦ (some c, q) ∷ later ]
symbols false (b ∷ q) =
    let escapes = symbols true q in
    let later = symbols false q in
    if b == 192 then (none, q) ∷ later else if b == 219 then escapes else (some b, q) ∷ later

-- The first frame that is not empty, into a buffer of `len` bytes that holds `buf`: its length, the
-- buffer and the rest of the stream. Where it does not fit, nothing is returned, and where it has no
-- END yet.
unfoldable pub first_frame : ℕ → List ℕ → List (Option ℕ × List ℕ) → ℕ × List ℕ × List ℕ
first_frame len buf [] = (0, buf, [])
first_frame len buf ((none, q) ∷ later) =
    let empty = first_frame len buf later in if length buf == 0 then empty else (length buf, buf, q)
first_frame len buf ((some c, q) ∷ later) =
    let stored = first_frame len (buf ++ (c ∷ [])) later in
    if ltb (length buf) len then stored else (0, buf, after_end q)

-- What one function on the stream makes of it is the first frame of its symbols.
pub receive-first_frame :
    (len : ℕ) (buf : List ℕ) (esc : Bool) (q : List ℕ)
    → receive len buf esc q ≡ first_frame len buf (symbols esc q)
unfolding receive symbols first_frame classify store escaped
receive-first_frame len buf esc [] = refl
receive-first_frame len buf true (b ∷ q) =
    let dropped = receive-first_frame len buf false q in
    let end = receive-first_frame len (buf ++ (192 ∷ [])) false q in
    let esc = receive-first_frame len (buf ++ (219 ∷ [])) false q in ground arith
receive-first_frame len buf false (b ∷ q) =
    let same = receive-first_frame len buf false q in
    let escapes = receive-first_frame len buf true q in
    let stored = receive-first_frame len (buf ++ (b ∷ [])) false q in ground arith
