-- ===== src/Slip.antt =====
-- drivers/net/slip.c and drivers/net/slip.h: SLIP framing over a TTY (RFC 1055).
-- A pointer that the code compares with NULL is an option. Sending is a chain of writes: what
-- goes over the wire is listed in order. `none` as a result means that fuel ran out in a loop.
pub mod Send
pub mod Decode
pub mod Recv
pub mod Frame
pub mod Transfer
mod Tests
use avrix.Base.{
  ltb, ◌==◌, if◌then◌else◌, length, ℕ, zero, suc, Bool, true, false, not, ◌||◌, Option, none, some,
  List, [], ◌∷◌, ◌++◌,
}
use avrix.Tty.{Tty, tty_write, tty_read, tty_rx_available}

abbrev pub slip_end : ℕ
slip_end = 0xC0

abbrev pub slip_esc : ℕ
slip_esc = 0xDB

abbrev pub slip_esc_end : ℕ
slip_esc_end = 0xDC

abbrev pub slip_esc_esc : ℕ
slip_esc_esc = 0xDD

-- A step of sending: the bytes given to `putc` and the new state.
abbrev pub Sender : Type 0
Sender = Tty → Option (List ℕ × Tty)

infixl 5 ◌>>◌
unfoldable pub ◌>>◌ : Sender → Sender → Sender
◌>>◌ m k t = elim (m t) [
  | none ↦ none
  | some (out, t') ↦ elim (k t') [ none ↦ none | some (more, t'') ↦ some (out ++ more, t'') ]
]

unfoldable pub done : Sender
done t = some ([], t)

-- `tty_write` with its result thrown away, as every call here does.
unfoldable pub write : List ℕ → Sender
write src t = elim (tty_write t src) [ none ↦ none | some (count, out, t') ↦ some (out, t') ]

-- The body of the loop of `slip_send_packet`.
unfoldable pub send_byte : ℕ → Sender
send_byte b =
    if b == slip_end
    then write (slip_esc ∷ slip_esc_end ∷ [])
    else if b == slip_esc
    then write (slip_esc ∷ slip_esc_esc ∷ [])
    else write (b ∷ [])

unfoldable pub send_bytes : List ℕ → Sender
send_bytes [] = done
send_bytes (b ∷ buf) = do send_byte b; send_bytes buf

unfoldable pub send_frame : List ℕ → Sender
send_frame buf = do write (slip_end ∷ []); send_bytes buf; write (slip_end ∷ [])

unfoldable pub slip_send_packet : Option Tty → List ℕ → Option (List ℕ × Option Tty)
slip_send_packet none buf = some ([], none)
slip_send_packet (some t) buf = elim (send_frame buf t) [
  | none ↦ none
  | some (out, t') ↦ some (out, some t')
]

-- What the receiving loop does with one byte, at position `pos` of a buffer of `len` bytes.
pub data Event : Type 0 where
  skip : (esc : Bool) → Event
  frame : Event
  put : (byte : ℕ) → Event
  too_large : Event

unfoldable pub store : ℕ → ℕ → ℕ → Event
store len pos byte = if ltb pos len then put byte else too_large

unfoldable pub classify : ℕ → ℕ → Bool → ℕ → Event
classify len pos true byte =
    if byte == slip_esc_end
    then store len pos slip_end
    else if byte == slip_esc_esc
    then store len pos slip_esc
    else skip false
classify len pos false byte =
    if byte == slip_end
    then if ltb 0 pos then frame else skip false
    else if byte == slip_esc
    then skip true
    else store len pos byte

-- The inner loop, which drops the rest of a frame that is too large.
unfoldable pub discard : ℕ → Tty → Option Tty
discard zero t = none
discard (suc fuel) t = elim (tty_rx_available t) [
  | zero ↦ some t
  | suc _ ↦
      let (dst, t') = tty_read t 1 in
      elim dst [
        | [] ↦ discard fuel t'
        | byte ∷ _ ↦ elim (byte == slip_end) [ true ↦ some t' | false ↦ discard fuel t' ]
      ]
]

-- `buf` holds the bytes stored so far, so `pos` is its length. Returned with the result are the
-- bytes stored and the new state.
unfoldable pub recv_loop : ℕ → ℕ → List ℕ → Bool → Tty → Option (ℕ × List ℕ × Tty)
recv_loop zero len buf esc t = none
recv_loop (suc fuel) len buf esc t = elim (tty_rx_available t) [
  | zero ↦ some (0, buf, t)
  | suc _ ↦
      let (dst, t') = tty_read t 1 in
      elim dst [
        | [] ↦ some (0, buf, t')
        | byte ∷ _ ↦ elim (classify len (length buf) esc byte) [
          | skip esc' ↦ recv_loop fuel len buf esc' t'
          | frame ↦ some (length buf, buf, t')
          | put b ↦ recv_loop fuel len (buf ++ (b ∷ [])) false t'
          | too_large ↦ elim (discard fuel t') [ none ↦ none | some t'' ↦ some (0, buf, t'') ]
        ]
      ]
]

-- `has_buf` tells whether `buf` is not NULL. Each round takes a byte off a ring that holds at most
-- `mask`, so `mask + 1` rounds are enough.
unfoldable pub slip_recv_packet : Option Tty → Bool → ℕ → Option (ℕ × List ℕ × Option Tty)
slip_recv_packet none has_buf len = some (0, [], none)
slip_recv_packet (some t) has_buf len =
    if not has_buf || len == 0
    then some (0, [], some t)
    else elim (recv_loop (suc t.mask) len [] false t) [
      | none ↦ none
      | some (n, buf, t') ↦ some (n, buf, some t')
    ]
