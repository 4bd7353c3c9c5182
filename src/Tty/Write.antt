-- ===== src/Tty/Write.antt =====
-- `ring_write`, the flushing loop and `tty_write` of drivers/tty/tty.c, against the queue of a ring.
use avrix.Base.{
  ◌==◌, ==_iff, Bool-cases, if_true, length, set, take, take_all, u32, ℕ, zero, suc, ◌+◌, ◌-◌, ◌<◌,
  min, ◌≡◌, sym, ap, ◌∙◌, ◌≢◌, inl, inr, true, some, List, [], ◌∷◌, ◌++◌, append-nil, append_assoc,
  arith,
}
use avrix.Tty.Read.{queue_empty, queue-cons}
use avrix.Tty.{tty_write, Tty, flush, ring_write}
use avrix.Tty.Ring.{
  IsRing, next, used, window, window-set, queue, wrap-next, set-IsRing, next_tail-IsRing,
  emptied-IsRing, used-le, length-queue,
}

-- A byte written at the head joins the queue at its end.
pub queue-set :
    (buf : List ℕ) (head tail mask x : ℕ)
    → IsRing buf head tail mask
    → next mask head ≢ tail
    → queue (set buf head x) (next mask head) tail mask ≡ queue buf head tail mask ++ (x ∷ [])
queue-set buf head tail mask x v ne =
    let e : used mask (next mask head) tail ≡ suc (used mask head tail) = ground arith in
    ap (window (set buf head x) mask tail) e
    ∙ window-set buf mask x (used mask head tail) tail head v.storage v.tail_in (ground arith)
        (ground arith)

-- `ring_write` appends as many bytes as there is room for, and reports how many.
pub ring_write_lem :
    (src buf : List ℕ) (head tail mask : ℕ)
    → IsRing buf head tail mask
    → let (count, buf', head') = ring_write buf head tail mask src in
      let room = mask - used mask head tail in
      (count ≡ min (length src) room)
      × (queue buf' head' tail mask ≡ queue buf head tail mask ++ take room src)
      × IsRing buf' head' tail mask
unfolding ring_write
ring_write_lem [] buf head tail mask v =
    (omega arith, sym (ap (◌++◌ _) (take_all _ [] (omega arith)) ∙ append-nil _), v)
ring_write_lem (x ∷ src) buf head tail mask v = elim (Bool-cases (next mask head == tail)) [
  | inl full ↦
      rw (wrap-next mask v.masked head v.head_in, full)
        (let e : mask - used mask head tail ≡ 0 = ground arith in
          rw e (omega arith, sym (append-nil _), v))
  | inr room ↦
      rw (wrap-next mask v.masked head v.head_in, room)
        (let e : mask - used mask head tail ≡ suc (mask - used mask (next mask head) tail) =
            ground arith in
          let (count, q, v') =
            ring_write_lem src (set buf head x) (next mask head) tail mask (set-IsRing v x) in
          rw e (
            omega arith,
            q
                ∙ ap (λ ys. ys ++ take (mask - used mask (next mask head) tail) src)
                    (queue-set buf head tail mask x v (ground arith))
                ∙ append_assoc _ (x ∷ []) _,
            v',
          ))
]

-- The flushing loop ends within `used + 1` rounds: it hands over the whole queue, leaves the ring
-- empty, and counts each byte.
pub flush_lem :
    (fuel : ℕ) (buf : List ℕ) (head tail mask bytes : ℕ)
    → IsRing buf head tail mask
    → used mask head tail < fuel
    → (bytes' : ℕ) × (flush fuel buf head tail mask bytes
        ≡ some (queue buf head tail mask, head, bytes'))
      × (u32 bytes' ≡ u32 (bytes + used mask head tail))
unfolding flush
flush_lem zero buf head tail mask bytes v h = absurd (omega arith)
flush_lem (suc fuel) buf head tail mask bytes v h = elim (Bool-cases (tail == head)) [
  | inl e ↦
      let e' : tail ≡ head = (==_iff tail head).0 e in
      let q : queue buf head tail mask ≡ [] = rw e' (queue_empty buf head mask) in
      (bytes, rw (e, q) (ap (λ i. some ([], i, bytes)) e'), ground arith)
  | inr e ↦
      let ne : tail ≢ head = ground arith in
      let (bytes', out, count) =
        flush_lem fuel buf head (next mask tail) mask (u32 (bytes + 1)) (next_tail-IsRing v)
          (ground arith) in
      (
        bytes',
        rw (
          e,
          wrap-next mask v.masked tail v.tail_in,
          queue-cons buf head mask tail v.head_in v.tail_in ne,
          out,
        ),
        ground arith,
      )
]

-- What the driver assumes of the transmitting side.
abbrev pub IsTx : Tty → Type 0
IsTx t = IsRing t.tx_buf t.tx_head t.tx_tail t.mask

abbrev pub tx_queue : Tty → List ℕ
tx_queue t = queue t.tx_buf t.tx_head t.tx_tail t.mask

abbrev pub tx_room : Tty → ℕ
tx_room t = t.mask - used t.mask t.tx_head t.tx_tail

-- The state after a write: an empty transmit ring, and nothing else changed but the counter.
abbrev pub flushed : Tty → List ℕ → ℕ → ℕ → Tty
flushed t buf head bytes = record t {
  tx_buf = buf;
  tx_head = head;
  tx_tail = head;
  tx_bytes = bytes;
}

-- With a `putc` callback and a valid transmit ring, `tty_write` ends; it hands over what was
-- waiting and then as much of `src` as there was room for, reports the latter's length, and leaves
-- the ring valid and empty, with `tx_bytes` raised by the bytes handed over.
pub tty_write_lem :
    (t : Tty) (src : List ℕ)
    → IsTx t
    → t.putc ≡ true
    → (buf : List ℕ) × (head bytes : ℕ) × (tty_write t src
        ≡ some (
          min (length src) (tx_room t),
          tx_queue t ++ take (tx_room t) src,
          flushed t buf head bytes,
        ))
      × IsRing buf head head t.mask
      × (u32 bytes ≡ u32 (t.tx_bytes + length (tx_queue t ++ take (tx_room t) src)))
unfolding tty_write
tty_write_lem t src v p =
    let room = tx_room t in
    let (count, q, v') = ring_write_lem src t.tx_buf t.tx_head t.tx_tail t.mask v in
    let (buf, head) =
      let r = ring_write t.tx_buf t.tx_head t.tx_tail t.mask src in
      let y : List ℕ × ℕ = (r.1, r.2) in y in
    let (bytes, out, counted) =
      flush_lem (suc t.mask) buf head t.tx_tail t.mask t.tx_bytes v' (omega (arith, used-le v')) in
    let sent : used t.mask head t.tx_tail ≡ length (tx_queue t ++ take room src) =
      sym (length-queue buf head t.tx_tail t.mask) ∙ ap length q in
    (
      buf,
      head,
      bytes,
      if_true _ _ p ∙ rw out (λ i. some (count i, q i, flushed t buf head bytes)),
      emptied-IsRing v',
      counted ∙ ap (λ n. u32 (t.tx_bytes + n)) sent,
    )
