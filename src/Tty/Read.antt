-- ===== src/Tty/Read.antt =====
-- `ring_read`, `tty_read` and `tty_rx_available` of drivers/tty/tty.c, against the queue of a ring.
use avrix.Base.{
  ◌==◌, ==_iff, Bool-cases, length, get_or, take, drop, ℕ, zero, suc, ◌≤◌, ◌≡◌, refl, sym, ap, ◌∙◌,
  ◌≢◌, inl, inr, List, [], ◌∷◌, arith,
}
use avrix.Tty.{Tty, ring_read, tty_read, tty_rx_available}
use avrix.Tty.Ring.{
  IsRing, next, used, window, queue, wrap-next, available-used, length-queue, next_tail-IsRing,
}

-- What the driver assumes of the receiving side.
abbrev pub IsRx : Tty → Type 0
IsRx t = IsRing t.rx_buf t.rx_head t.rx_tail t.mask

abbrev pub rx_queue : Tty → List ℕ
rx_queue t = queue t.rx_buf t.rx_head t.rx_tail t.mask

module _ (buf : List ℕ) (head mask : ℕ) where
  pub queue_empty : queue buf head head mask ≡ []
  queue_empty = ap (window buf mask head) {y = 0} (ground arith)

  -- A ring that is not empty begins with the byte at its tail.
  pub queue-cons :
      (tail : ℕ)
      → head ≤ mask
      → tail ≤ mask
      → tail ≢ head
      → queue buf head tail mask ≡ get_or buf tail 0 ∷ queue buf head (next mask tail) mask
  queue-cons tail hh ht ne =
      let e : used mask head tail ≡ suc (used mask head (next mask tail)) = ground arith in
      ap (window buf mask tail) e

-- `ring_read` takes the oldest `len` bytes of the queue off, or all of them.
pub ring_read_lem :
    (len : ℕ) (buf : List ℕ) (head tail mask : ℕ)
    → IsRing buf head tail mask
    → let (dst, tail') = ring_read buf head tail mask len in
      (dst ≡ take len (queue buf head tail mask))
      × (queue buf head tail' mask ≡ drop len (queue buf head tail mask))
      × IsRing buf head tail' mask
unfolding ring_read
ring_read_lem zero buf head tail mask v = (refl, refl, v)
ring_read_lem (suc len) buf head tail mask v = elim (Bool-cases (tail == head)) [
  | inl e ↦
      let q0 : queue buf head tail mask ≡ [] =
        rw ((==_iff tail head).0 e) (queue_empty buf head mask) in
      rw (e, q0) (refl, refl, v)
  | inr e ↦
      let ne : tail ≢ head = ground arith in
      let (dst, kept, v') = ring_read_lem len buf head (next mask tail) mask (next_tail-IsRing v) in
      rw
        (
          e,
          wrap-next mask v.masked tail v.tail_in,
          queue-cons buf head mask tail v.head_in v.tail_in ne,
        )
        (ap (◌∷◌ (get_or buf tail 0)) dst, kept, v')
]

-- On a valid receive ring, `tty_read` takes the oldest `len` bytes of its queue off, or all of them,
-- and leaves it valid.
pub tty_read_lem :
    (t : Tty) (len : ℕ)
    → IsRx t
    → let (dst, t') = tty_read t len in
      (dst ≡ take len (rx_queue t)) × (rx_queue t' ≡ drop len (rx_queue t)) × IsRx t'
unfolding tty_read
tty_read_lem t len v = ring_read_lem len t.rx_buf t.rx_head t.rx_tail t.mask v

-- `tty_rx_available` is the length of the receive queue.
pub tty_rx_available_lem : (t : Tty) → IsRx t → tty_rx_available t ≡ length (rx_queue t)
unfolding tty_rx_available
tty_rx_available_lem t v =
    available-used t.mask v.masked t.rx_head t.rx_tail v.head_in v.tail_in
    ∙ sym (length-queue t.rx_buf t.rx_head t.rx_tail t.mask)
