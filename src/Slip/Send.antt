-- ===== src/Slip/Send.antt =====
-- `slip_send_packet` of drivers/net/slip.c: what goes over the wire.
use avrix.Base.{
  ◌==◌, if◌then◌else◌, Bool-cases, length, take, take_all, ℕ, ◌≤◌, ◌≡◌, refl, ◌∙◌, inl, inr, true,
  some, List, [], ◌∷◌, ◌++◌, arith,
}
use avrix.Tty.{Tty}
use avrix.Tty.Read.{queue_empty}
use avrix.Tty.Write.{IsTx, tx_queue, tx_room, flushed, tty_write_lem}
use avrix.Slip.{
  slip_end, slip_esc, slip_esc_end, slip_esc_esc, Sender, ◌>>◌, done, write, send_byte, send_bytes,
  send_frame, slip_send_packet,
}

-- RFC 1055: a payload with END and ESC stuffed, and the frame around it.
unfoldable pub stuff : List ℕ → List ℕ
stuff [] = []
stuff (b ∷ p) =
    if b == slip_end
    then slip_esc ∷ slip_esc_end ∷ stuff p
    else if b == slip_esc
    then slip_esc ∷ slip_esc_esc ∷ stuff p
    else b ∷ stuff p

abbrev pub encode : List ℕ → List ℕ
encode p = slip_end ∷ (stuff p ++ (slip_end ∷ []))

-- A TTY that can send: an empty transmit ring with room for an escape sequence.
pub record IsReady (t : Tty) : Type 0 where
  pub ring : IsTx t
  pub empty : t.tx_head ≡ t.tx_tail
  pub callback : t.putc ≡ true
  pub room : 2 ≤ t.mask

-- The receiving side of a TTY, which sending leaves alone.
pub record SameRx (t t' : Tty) : Type 0 where
  pub buf : t'.rx_buf ≡ t.rx_buf
  pub head : t'.rx_head ≡ t.rx_head
  pub tail : t'.rx_tail ≡ t.rx_tail
  pub mask : t'.mask ≡ t.mask
  pub getc : t'.getc ≡ t.getc

-- A sender that ends, hands over `out` and leaves the TTY ready, its receiving side untouched.
abbrev Sends : Sender → List ℕ → Type 0
Sends m out = (t : Tty) → IsReady t → (t' : Tty) × (m t ≡ some (out, t')) × IsReady t' × SameRx t t'

Sends-write : (src : List ℕ) → length src ≤ 2 → Sends (write src) src
unfolding write
Sends-write src h t r =
    let (buf, head, bytes, e, v, _) = tty_write_lem t src r.ring r.callback in
    let no_wait : tx_queue t ≡ [] = rw r.empty (queue_empty t.tx_buf t.tx_tail t.mask) in
    let sent : tx_queue t ++ take (tx_room t) src ≡ src =
      rw no_wait (take_all (tx_room t) src (let h' = r.room in let e' = r.empty in ground arith)) in
    (
      flushed t buf head bytes,
      rw (e, write) (λ i. some (sent i, flushed t buf head bytes)),
      record { ring = v; empty = refl; callback = r.callback; room = r.room },
      record { buf = refl; head = refl; tail = refl; mask = refl; getc = refl },
    )

SameRx-trans : {t u w : Tty} → SameRx t u → SameRx u w → SameRx t w
SameRx-trans a b = record {
  buf = b.buf ∙ a.buf;
  head = b.head ∙ a.head;
  tail = b.tail ∙ a.tail;
  mask = b.mask ∙ a.mask;
  getc = b.getc ∙ a.getc;
}

Sends-done : Sends done []
unfolding done
Sends-done t r =
    (t, refl, r, record { buf = refl; head = refl; tail = refl; mask = refl; getc = refl })

Sends->> : (m k : Sender) (a b : List ℕ) → Sends m a → Sends k b → Sends (m >> k) (a ++ b)
unfolding ◌>>◌
Sends->> m k a b hm hk t r =
    let (t', e, r', s) = hm t r in
    let (t'', e', r'', s') = hk t' r' in (t'', rw (e, ◌>>◌) (rw (e', ◌>>◌)), r'', SameRx-trans s s')

-- One byte goes out as one or two.
Sends-send_byte : (b : ℕ) → Sends (send_byte b) (stuff (b ∷ []))
unfolding send_byte stuff
Sends-send_byte b = elim (Bool-cases (b == slip_end)) [
  | inl e ↦ rw e (Sends-write _ (omega arith))
  | inr n ↦ elim (Bool-cases (b == slip_esc)) [
    | inl e ↦ rw (n, e) (Sends-write _ (omega arith))
    | inr n' ↦ rw (n, n') (Sends-write _ (omega arith))
  ]
]

stuff-cons : (b : ℕ) (p : List ℕ) → stuff (b ∷ p) ≡ stuff (b ∷ []) ++ stuff p
unfolding stuff
stuff-cons b p = ground arith

Sends-send_bytes : (p : List ℕ) → Sends (send_bytes p) (stuff p)
unfolding send_bytes
Sends-send_bytes [] = unfold stuff in Sends-done
Sends-send_bytes (b ∷ p) =
    rw stuff-cons
      (Sends->> (send_byte b) (send_bytes p) _ _ (Sends-send_byte b) (Sends-send_bytes p))

Sends-send_frame : (p : List ℕ) → Sends (send_frame p) (encode p)
unfolding send_frame
Sends-send_frame p =
    Sends->> (write (slip_end ∷ [])) (send_bytes p >> write (slip_end ∷ [])) (slip_end ∷ []) _
      (Sends-write _ (omega arith))
      (Sends->> (send_bytes p) (write (slip_end ∷ [])) (stuff p) (slip_end ∷ [])
        (Sends-send_bytes p) (Sends-write _ (omega arith)))

-- On a ready TTY `slip_send_packet` ends, puts END, the stuffed payload and END on the wire
-- whatever the payload's bytes and length, and leaves the TTY ready and its receiving side alone.
pub slip_send_packet_lem :
    (t : Tty) (p : List ℕ)
    → IsReady t
    → (t' : Tty) × (slip_send_packet (some t) p ≡ some (encode p, some t'))
      × IsReady t'
      × SameRx t t'
unfolding slip_send_packet
slip_send_packet_lem t p r =
    let (t', e, r', s) = Sends-send_frame p t r in (t', rw (e, slip_send_packet), r', s)
