-- ===== src/Slip/Tests.antt =====
-- A SLIP frame of drivers/net/slip.c over a ring of 16 bytes.
use avrix.Slip.Decode.{first_frame, symbols, escaped}
use avrix.Slip.{store, slip_recv_packet, slip_send_packet, classify}
use avrix.Slip.Transfer.{transfer, IsListening}
use avrix.Tty.Read.{rx_queue, IsRx}
use avrix.Slip.Frame.{receive}
use avrix.Slip.Send.{encode, stuff, IsReady}
use avrix.Tty.{tty_poll, Tty}
use avrix.Base.{
  length, replicate, All, IsByte, ℕ, ◌≤◌, ◌≡◌, refl, true, false, some, List, [], ◌∷◌, arith,
}

-- An idle TTY, whose indices lie close to the end of its buffers.
abbrev idle_tty : Tty
idle_tty = record {
  rx_buf = replicate 16 0;
  tx_buf = replicate 16 0;
  rx_head = 14;
  rx_tail = 14;
  tx_head = 13;
  tx_tail = 13;
  size = 16;
  mask = 15;
  putc = true;
  getc = true;
  rx_overflow = false;
  rx_bytes = 0;
  tx_bytes = 0;
  rx_overflows = 0;
}

idle_tty-IsRx : IsRx idle_tty
idle_tty-IsRx = record {
  storage = omega arith;
  head_in = omega arith;
  tail_in = omega arith;
  masked = (4, omega arith, refl);
}

idle_tty-IsReady : IsReady idle_tty
idle_tty-IsReady = record {
  ring = record {
    storage = omega arith;
    head_in = omega arith;
    tail_in = omega arith;
    masked = (4, omega arith, refl);
  };
  empty = refl;
  callback = refl;
  room = omega arith;
}

idle_tty-IsListening : IsListening idle_tty
idle_tty-IsListening = record { ring = idle_tty-IsRx; waiting = refl; callback = refl }

-- A payload with an END, an ESC and a plain byte.
abbrev payload : List ℕ
payload = 0xC0 ∷ 0xDB ∷ 7 ∷ []

encode-payload : encode payload ≡ 0xC0 ∷ 0xDB ∷ 0xDC ∷ 0xDB ∷ 0xDD ∷ 7 ∷ 0xC0 ∷ []
unfolding stuff
encode-payload = refl

payload-IsByte : All IsByte payload
payload-IsByte = omega arith

fits : length (encode payload) ≤ 15
unfolding stuff
fits = omega arith

-- A bad escape sequence and its byte are dropped.
receive-bad_escape : receive 4 [] false (5 ∷ 0xDB ∷ 6 ∷ 0xC0 ∷ []) ≡ (1, 5 ∷ [], [])
unfolding receive classify store
receive-bad_escape = refl

transfer_example :
    (wire : List ℕ) × (a' b' : Tty) × (slip_send_packet (some idle_tty) payload
      ≡ some (wire, some a'))
    × (slip_recv_packet (some (tty_poll idle_tty wire).0) true 3 ≡ some (3, payload, some b'))
    × IsReady a'
    × (rx_queue b' ≡ [])
transfer_example =
    transfer idle_tty idle_tty payload 3 idle_tty-IsReady idle_tty-IsListening payload-IsByte
      (omega arith) (omega arith) fits

-- A whole frame waits.
abbrev full_tty : Tty
full_tty = record idle_tty {
  rx_buf = 0xC0 ∷ 5 ∷ 0xC0 ∷ 9 ∷ replicate 12 0;
  rx_tail = 0;
  rx_head = 4;
}

frame-full_tty : first_frame 2 [] (symbols false (rx_queue full_tty)) ≡ (1, 5 ∷ [], 9 ∷ [])
unfolding first_frame symbols
frame-full_tty = refl

-- An escaped END, an ESC that escapes nothing, and the END.
escapes :
    first_frame 4 [] (symbols false (7 ∷ 219 ∷ 220 ∷ 219 ∷ 5 ∷ 192 ∷ 8 ∷ []))
    ≡ (2, 7 ∷ 192 ∷ [], 8 ∷ [])
unfolding first_frame symbols escaped
escapes = refl
