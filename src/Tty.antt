-- ===== src/Tty.antt =====
-- drivers/tty/tty.c and drivers/tty/tty.h: the ring buffer TTY, built with TTY_ENABLE_STATS.
-- A buffer is the list of its bytes. A function that updates `*t` returns the new state.
-- The callbacks are the environment: `getc` yields the characters of a list and then a negative
-- number, and the bytes that `putc` gets are listed in order. A null callback is `false`.
pub mod Ring
pub mod Init
pub mod Write
pub mod Read
pub mod Poll
mod Tests
use avrix.Base.{
  ltb, ◌==◌, if◌then◌else◌, length, get_or, set, u8, u16, u32, ℕ, zero, suc, ◌+◌, ◌-◌, bit_and,
  Bool, true, false, Option, none, some, List, [], ◌∷◌,
}

-- `struct tty_s`
pub record Tty : Type 0 where
  pub rx_buf : List ℕ
  pub tx_buf : List ℕ
  pub rx_head : ℕ
  pub rx_tail : ℕ
  pub tx_head : ℕ
  pub tx_tail : ℕ
  pub size : ℕ
  pub mask : ℕ
  pub putc : Bool
  pub getc : Bool
  pub rx_overflow : Bool
  pub rx_bytes : ℕ
  pub tx_bytes : ℕ
  pub rx_overflows : ℕ

-- `tty_stats_t`
pub record TtyStats : Type 0 where
  pub rx_bytes : ℕ
  pub tx_bytes : ℕ
  pub rx_overflows : ℕ

-- `RING_WRAP`
abbrev pub ring_wrap : ℕ → ℕ → ℕ
ring_wrap idx mask = bit_and idx mask

-- The bytes read, whose number is the result, and the new `*tail`.
unfoldable pub ring_read : List ℕ → ℕ → ℕ → ℕ → ℕ → List ℕ × ℕ
ring_read buf head tail mask zero = ([], tail)
ring_read buf head tail mask (suc len) =
    let rest = ring_read buf head (ring_wrap (tail + 1) mask) mask len in
    if tail == head then ([], tail) else (get_or buf tail 0 ∷ rest.0, rest.1)

-- The count of bytes written, the new buffer and the new `*head`.
unfoldable pub ring_write : List ℕ → ℕ → ℕ → ℕ → List ℕ → ℕ × List ℕ × ℕ
ring_write buf head tail mask [] = (0, buf, head)
ring_write buf head tail mask (x ∷ src) =
    let next_head = ring_wrap (head + 1) mask in
    let rest = ring_write (set buf head x) next_head tail mask src in
    if next_head == tail then (0, buf, head) else (suc rest.0, rest.1, rest.2)

-- The difference of two indices is an `int`; of it the mask keeps bits of the low byte only, and
-- those are the bits of the difference plus 256.
unfoldable pub ring_available : ℕ → ℕ → ℕ → ℕ
ring_available head tail mask = ring_wrap (head + 256 - tail) mask

unfoldable pub ring_free : ℕ → ℕ → ℕ → ℕ
ring_free head tail mask = ring_wrap (tail + 256 - head - 1) mask

unfoldable pub tty_init : List ℕ → List ℕ → ℕ → Bool → Bool → Tty
tty_init rx_buf tx_buf size putc getc = record {
  rx_buf = rx_buf;
  tx_buf = tx_buf;
  rx_head = 0;
  rx_tail = 0;
  tx_head = 0;
  tx_tail = 0;
  size = size;
  mask = u8 (size + 256 - 1);
  putc = putc;
  getc = getc;
  rx_overflow = false;
  rx_bytes = 0;
  tx_bytes = 0;
  rx_overflows = 0;
}

-- The loop of `tty_poll` over the characters that `getc` has; the list returned is what it keeps.
-- The character that finds the buffer full has been taken from it all the same.
unfoldable pub poll_loop : Tty → List ℕ → Tty × List ℕ
poll_loop t [] = (t, [])
poll_loop t (c ∷ cs) =
    let next_head = ring_wrap (t.rx_head + 1) t.mask in
    let full = record t { rx_overflow = true; rx_overflows = u16 (t.rx_overflows + 1) } in
    let more =
      poll_loop
        (record t {
          rx_buf = set t.rx_buf t.rx_head (u8 c);
          rx_head = next_head;
          rx_bytes = u32 (t.rx_bytes + 1);
        })
        cs in
    if next_head == t.rx_tail then (full, cs) else more

unfoldable pub tty_poll : Tty → List ℕ → Tty × List ℕ
tty_poll t incoming = if t.getc then poll_loop t incoming else (t, incoming)

-- The bytes read, whose number is the result.
unfoldable pub tty_read : Tty → ℕ → List ℕ × Tty
tty_read t len =
    let (dst, tail) = ring_read t.rx_buf t.rx_head t.rx_tail t.mask len in
    (
      dst,
      record t {
        rx_tail = tail;
        rx_overflow = if ltb 0 (length dst) then false else t.rx_overflow;
      },
    )

-- The flushing loop of `tty_write` over `tx_tail` and `tx_bytes`, with the bytes given to `putc`.
-- `none` means that the fuel ran out.
unfoldable pub flush : ℕ → List ℕ → ℕ → ℕ → ℕ → ℕ → Option (List ℕ × ℕ × ℕ)
flush zero buf head tail mask bytes = none
flush (suc fuel) buf head tail mask bytes =
    let rest = flush fuel buf head (ring_wrap (tail + 1) mask) mask (u32 (bytes + 1)) in
    if tail == head then some ([], tail, bytes) else elim rest [
      | none ↦ none
      | some (out, tail', bytes') ↦ some (get_or buf tail 0 ∷ out, tail', bytes')
    ]

-- The count that is returned, the bytes given to `putc` and the new state. A ring holds at most
-- `mask` bytes, so `mask + 1` rounds of flushing are enough.
unfoldable pub tty_write : Tty → List ℕ → Option (ℕ × List ℕ × Tty)
tty_write t src =
    let (count, buf, head) = ring_write t.tx_buf t.tx_head t.tx_tail t.mask src in
    if t.putc
    then elim (flush (suc t.mask) buf head t.tx_tail t.mask t.tx_bytes) [
      | none ↦ none
      | some (out, tail, bytes) ↦
          some (
            count,
            out,
            record t { tx_buf = buf; tx_head = head; tx_tail = tail; tx_bytes = bytes },
          )
    ]
    else some (0, [], t)

unfoldable pub tty_rx_available : Tty → ℕ
tty_rx_available t = ring_available t.rx_head t.rx_tail t.mask

unfoldable pub tty_tx_free : Tty → ℕ
tty_tx_free t = ring_free t.tx_head t.tx_tail t.mask

unfoldable pub tty_overflow_occurred : Tty → Bool × Tty
tty_overflow_occurred t = (t.rx_overflow, record t { rx_overflow = false })

unfoldable pub tty_get_stats : Tty → TtyStats
tty_get_stats t = record {
  rx_bytes = t.rx_bytes;
  tx_bytes = t.tx_bytes;
  rx_overflows = t.rx_overflows;
}

unfoldable pub tty_reset_stats : Tty → Tty
tty_reset_stats t = record t { rx_bytes = 0; tx_bytes = 0; rx_overflows = 0 }
