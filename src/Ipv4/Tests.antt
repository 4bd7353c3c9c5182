-- ===== src/Ipv4/Tests.antt =====
-- Packets of drivers/net/ipv4.c between two TTYs with rings of 64 bytes.
use avrix.Ipv4.Packet.{packet_transfer, report}
use avrix.Ipv4.Checksum.{ones, word_sum, ipv4_checksum_lem}
use avrix.Ipv4.Header.{
  validate_header_iff, length-hdr_bytes, validate-init_header, hdr_of-hdr_bytes, init_header-IsHdr,
  IsHdr,
}
use avrix.Tty.Read.{rx_queue, IsRx}
use avrix.Slip.Transfer.{length-encode-le, IsListening}
use avrix.Slip.Send.{IsReady, encode}
use avrix.Tty.{tty_poll, Tty}
use avrix.Ipv4.{
  ipv4_htons, ipv4_recv, ipv4_send, count, ipv4_init_header, hdr_size, Ipv4Hdr, accept_frame,
  ipv4_checksum, ipv4_validate_header, hdr_bytes,
}
use mathlib.Core.Logic.{◌↔◌}
use avrix.Base.{
  length, replicate, length-append, ℕ, ◌-◌, ◌≤◌, ◌≡◌, refl, true, false, none, some, List, [], ◌∷◌,
  ◌++◌, arith,
}

abbrev idle_tty : Tty
idle_tty = record {
  rx_buf = replicate 64 0;
  tx_buf = replicate 64 0;
  rx_head = 60;
  rx_tail = 60;
  tx_head = 5;
  tx_tail = 5;
  size = 64;
  mask = 63;
  putc = true;
  getc = true;
  rx_overflow = false;
  rx_bytes = 0;
  tx_bytes = 0;
  rx_overflows = 0;
}

idle_tty-IsReady : IsReady idle_tty
idle_tty-IsReady = record {
  ring = record {
    storage = omega arith;
    head_in = omega arith;
    tail_in = omega arith;
    masked = (6, omega arith, refl);
  };
  empty = refl;
  callback = refl;
  room = omega arith;
}

idle_tty-IsRx : IsRx idle_tty
idle_tty-IsRx = record {
  storage = omega arith;
  head_in = omega arith;
  tail_in = omega arith;
  masked = (6, omega arith, refl);
}

idle_tty-IsListening : IsListening idle_tty
idle_tty-IsListening = record { ring = idle_tty-IsRx; waiting = refl; callback = refl }

-- 10.0.0.1 to 10.0.0.2, UDP, four bytes.
abbrev header : Ipv4Hdr
header = ipv4_init_header 0x0A000001 0x0A000002 17 4

header-IsHdr : IsHdr header
header-IsHdr = init_header-IsHdr 0x0A000001 0x0A000002 17 4 (omega arith)

header-valid : ipv4_validate_header header ≡ true
header-valid = validate-init_header 0x0A000001 0x0A000002 17 4

abbrev payload : List ℕ
payload = 1 ∷ 0xC0 ∷ 0xDB ∷ 4 ∷ []

fits : length (encode (hdr_bytes header ++ payload)) ≤ 63
fits = omega (
  arith,
  length-encode-le (hdr_bytes header ++ payload),
  length-append (hdr_bytes header) payload,
  length-hdr_bytes header,
)

packet_transfer_example :
    (wire : List ℕ) × (a' b' : Tty) × (ipv4_send (some idle_tty) (some header) (some payload) 4 []
      ≡ some (wire, some a'))
    × (ipv4_recv (some (tty_poll idle_tty wire).0) true true 3
        ≡ some (report true 3 header payload b'))
    × IsReady a'
    × (rx_queue b' ≡ [])
packet_transfer_example =
    packet_transfer idle_tty idle_tty header payload [] true 3 idle_tty-IsReady idle_tty-IsListening
      header-IsHdr header-valid (omega arith) (omega arith) fits

-- The example of RFC 1071.
ipv4_checksum_example :
    ipv4_checksum (0x00 ∷ 0x01 ∷ 0xF2 ∷ 0x03 ∷ 0xF4 ∷ 0xF5 ∷ 0xF6 ∷ 0xF7 ∷ []) ≡ 0x220D
unfolding word_sum
ipv4_checksum_example =
    ipv4_checksum_lem (0x00 ∷ 0x01 ∷ 0xF2 ∷ 0x03 ∷ 0xF4 ∷ 0xF5 ∷ 0xF6 ∷ 0xF7 ∷ []) (omega arith)
      (omega arith)

validate_header_iff_example : (ipv4_validate_header header ≡ true) ↔ (
    (header.ver_ihl ≡ 0x45)
    × (hdr_size ≤ ipv4_htons header.len)
    × (header.checksum ≡ 65535 - ones (word_sum (hdr_bytes (record header { checksum = 0 })))))
validate_header_iff_example = validate_header_iff header

-- Bytes that are no packet wait, between two ENDs.
abbrev noisy_tty : Tty
noisy_tty = record idle_tty {
  rx_buf = 0xC0 ∷ 5 ∷ 0xC0 ∷ 9 ∷ replicate 60 0;
  rx_tail = 0;
  rx_head = 4;
}

noisy_tty-IsRx : IsRx noisy_tty
noisy_tty-IsRx = record {
  storage = omega arith;
  head_in = omega arith;
  tail_in = omega arith;
  masked = (6, omega arith, refl);
}

-- A frame with a valid header and two payload bytes.
abbrev frame : List ℕ
frame = hdr_bytes header ++ (1 ∷ 2 ∷ [])

frame_reply : (accept_frame true 8 22 frame none).reply ≡ count 2
unfolding accept_frame
frame_reply = rw (hdr_of-hdr_bytes header (1 ∷ 2 ∷ []) header-IsHdr, header-valid) refl
