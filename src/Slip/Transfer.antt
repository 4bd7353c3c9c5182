-- ===== src/Slip/Transfer.antt =====
-- A SLIP frame from one TTY of drivers/tty/tty.c to another: drivers/net/slip.c at both ends.
use avrix.Base.{
  leb, if_true, length, take, All, length-append, take_all, All-append, u8, IsByte, ℕ, ◌+◌, ◌*◌,
  ◌≤◌, ◌<◌, ◌≡◌, refl, sym, ap, ap₂, ◌∙◌, true, false, some, List, [], ◌∷◌, ◌++◌, append-nil, arith,
}
use mathlib.Core.List.{map}
use avrix.Tty.{Tty, tty_poll}
use avrix.Tty.Ring.{length-queue, used}
use avrix.Tty.Read.{IsRx, rx_queue}
use avrix.Tty.Poll.{rx_room, tty_poll_lem}
use avrix.Slip.{slip_end, slip_send_packet, slip_recv_packet}
use avrix.Slip.Send.{stuff, encode, IsReady, slip_send_packet_lem}
use avrix.Slip.Frame.{receive-end_only, receive-open_frame, receive, receive-encode}
use avrix.Slip.Recv.{slip_recv_packet-receive}

map-u8 : (xs : List ℕ) → All IsByte xs → map u8 xs ≡ xs
map-u8 [] h = refl
map-u8 (x ∷ xs) (h, hs) = ap₂ ◌∷◌ (omega arith) (map-u8 xs hs)

stuff-IsByte : (p : List ℕ) → All IsByte p → All IsByte (stuff p)
unfolding stuff
stuff-IsByte [] h = tt
stuff-IsByte (b ∷ p) (h, hs) = ground (arith, stuff-IsByte p hs)

encode-IsByte : (p : List ℕ) → All IsByte p → All IsByte (encode p)
encode-IsByte p h = (omega arith, All-append IsByte (stuff p) _ (stuff-IsByte p h) (omega arith))

-- Stuffing at most doubles a payload.
length-stuff-le : (p : List ℕ) → length (stuff p) ≤ 2 * length p
unfolding stuff
length-stuff-le [] = omega arith
length-stuff-le (b ∷ p) = ground (arith, length-stuff-le p)

pub length-encode-le : (p : List ℕ) → length (encode p) ≤ 2 * length p + 2
length-encode-le p = omega (arith, length-append (stuff p) (slip_end ∷ []), length-stuff-le p)

-- A receiver that is idle: nothing waits, and `getc` is there.
pub record IsListening (t : Tty) : Type 0 where
  pub ring : IsRx t
  pub waiting : rx_queue t ≡ []
  pub callback : t.getc ≡ true

-- Nothing waits in a ring that is empty: it can take `mask` bytes.
rx_room-empty : (t : Tty) → rx_queue t ≡ [] → rx_room t ≡ t.mask
rx_room-empty t e =
    let n : used t.mask t.rx_head t.rx_tail ≡ 0 =
      sym (length-queue t.rx_buf t.rx_head t.rx_tail t.mask) ∙ ap length e in
    omega (arith, n)

-- A poll of a wire that fits moves it into the queue whole.
pub tty_poll_whole :
    (t : Tty) (wire : List ℕ)
    → IsListening t
    → All IsByte wire
    → length wire ≤ t.mask
    → IsRx (tty_poll t wire).0 × (rx_queue (tty_poll t wire).0 ≡ wire)
tty_poll_whole t wire l bytes fits =
    let p = tty_poll_lem t wire l.ring l.callback in
    let whole : take (rx_room t) wire ≡ wire =
      take_all (rx_room t) wire (rw (rx_room-empty t l.waiting) fits) in
    (p.ring, p.received ∙ ap₂ (λ q w. q ++ map u8 w) l.waiting whole ∙ map-u8 wire bytes)

-- A payload of bytes, not empty, that is sent over a ready TTY and polled by a listening one whose
-- ring can hold the frame, is received whole, if the buffer can hold it; both calls end, the
-- sender is ready again, and nothing is left waiting at the receiver.
pub transfer :
    (a b : Tty) (p : List ℕ) (len : ℕ)
    → IsReady a
    → IsListening b
    → All IsByte p
    → 0 < length p
    → length p ≤ len
    → length (encode p) ≤ b.mask
    → (wire : List ℕ) × (a' b' : Tty) × (slip_send_packet (some a) p ≡ some (wire, some a'))
      × (slip_recv_packet (some (tty_poll b wire).0) true len ≡ some (length p, p, some b'))
      × IsReady a'
      × (rx_queue b' ≡ [])
transfer a b p len ready l bytes pos fits ring =
    let (a', sent, ready', _) = slip_send_packet_lem a p ready in
    let (v, q) = tty_poll_whole b (encode p) l (encode-IsByte p bytes) ring in
    let (b', e, _, left, _, _) =
      slip_recv_packet-receive (tty_poll b (encode p)).0 len v (omega arith) in
    let decoded : receive len [] false (rx_queue (tty_poll b (encode p)).0) ≡ (length p, p, []) =
      ap (receive len [] false) (q ∙ sym (append-nil (encode p)))
      ∙ receive-encode len p [] pos
      ∙ if_true {b = leb (length p) len} _ _ (ground arith) in
    (
      encode p,
      a',
      b',
      sent,
      e ∙ (λ i. some ((decoded i).0, (decoded i).1, some b')),
      ready',
      left ∙ (λ i. (decoded i).2),
    )

-- A listening receiver that has polled `wire` and then called `slip_recv_packet` is listening again
-- if nothing is left of the wire.
recv_polled :
    (b : Tty) (wire : List ℕ) (len : ℕ)
    → IsListening b
    → All IsByte wire
    → length wire ≤ b.mask
    → 0 < len
    → (receive len [] false wire).2 ≡ []
    → let (n, out, _) = receive len [] false wire in
      (b' : Tty) × (slip_recv_packet (some (tty_poll b wire).0) true len ≡ some (n, out, some b'))
      × IsListening b'
      × (b'.mask ≡ b.mask)
recv_polled b wire len l bytes fits pos none_left =
    let polled = tty_poll_lem b wire l.ring l.callback in
    let (v, q) = tty_poll_whole b wire l bytes fits in
    let (b', e, v', left, callback, mask) =
      slip_recv_packet-receive (tty_poll b wire).0 len v pos in
    let same = ap (receive len [] false) q in
    (
      b',
      e ∙ (λ i. some ((same i).0, (same i).1, some b')),
      record {
        ring = v';
        waiting = left ∙ (λ i. (same i).2) ∙ none_left;
        callback = callback ∙ polled.same_getc ∙ l.callback;
      },
      mask ∙ polled.same_mask,
    )

-- A frame that comes in two polls is lost: where only its closing END is missing, the call between
-- them takes all of it off the ring and returns 0, and the call after the END has come returns 0
-- too; both leave the receiver listening, with nothing waiting.
pub split_frame_lost :
    (b : Tty) (p : List ℕ) (len : ℕ)
    → IsListening b
    → All IsByte p
    → 0 < length p
    → length p ≤ len
    → length (encode p) ≤ b.mask
    → (b₁ b₂ : Tty) × (slip_recv_packet (some (tty_poll b (slip_end ∷ stuff p)).0) true len
        ≡ some (0, p, some b₁))
      × IsListening b₁
      × (slip_recv_packet (some (tty_poll b₁ (slip_end ∷ [])).0) true len ≡ some (0, [], some b₂))
      × IsListening b₂
split_frame_lost b p len l bytes pos fits ring =
    let r₁ = receive-open_frame len p fits in
    let r₂ = receive-end_only len in
    let (b₁, e₁, l₁, m₁) =
      recv_polled b (slip_end ∷ stuff p) len l (omega arith, stuff-IsByte p bytes)
        (omega (arith, length-append (stuff p) (slip_end ∷ []))) (omega arith) (λ i. (r₁ i).2) in
    let (b₂, e₂, l₂, _) =
      recv_polled b₁ (slip_end ∷ []) len l₁ (omega arith) (omega (arith, m₁)) (omega arith)
        (λ i. (r₂ i).2) in
    (
      b₁,
      b₂,
      e₁ ∙ (λ i. some ((r₁ i).0, (r₁ i).1, some b₁)),
      l₁,
      e₂ ∙ (λ i. some ((r₂ i).0, (r₂ i).1, some b₂)),
      l₂,
    )
