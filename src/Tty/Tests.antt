-- ===== src/Tty/Tests.antt =====
-- The operations of drivers/tty/tty.c on a ring of eight bytes that has gone round.
use avrix.Tty.Ring.{IsRing}
use avrix.Tty.Read.{IsRx, rx_queue}
use avrix.Tty.{
  poll_loop, tty_reset_stats, ring_read, Tty, tty_get_stats, tty_write, tty_poll,
  tty_overflow_occurred, tty_read,
}
use avrix.Tty.Poll.{tty_poll_lem, Polled}
use avrix.Tty.Write.{tty_write_lem, flushed, IsTx}
use avrix.Base.{u32, ℕ, ◌≡◌, refl, true, false, some, List, [], ◌∷◌, arith}

-- Four bytes wait in each ring: those at the indices 6, 7, 0 and 1.
abbrev busy : Tty
busy = record {
  rx_buf = 10 ∷ 11 ∷ 12 ∷ 13 ∷ 14 ∷ 15 ∷ 16 ∷ 17 ∷ [];
  tx_buf = 20 ∷ 21 ∷ 22 ∷ 23 ∷ 24 ∷ 25 ∷ 26 ∷ 27 ∷ [];
  rx_head = 2;
  rx_tail = 6;
  tx_head = 2;
  tx_tail = 6;
  size = 8;
  mask = 7;
  putc = true;
  getc = true;
  rx_overflow = false;
  rx_bytes = 4;
  tx_bytes = 0;
  rx_overflows = 0;
}

busy-IsRx : IsRx busy
busy-IsRx = record {
  storage = omega arith;
  head_in = omega arith;
  tail_in = omega arith;
  masked = (3, omega arith, refl);
}

busy-IsTx : IsTx busy
busy-IsTx = record {
  storage = omega arith;
  head_in = omega arith;
  tail_in = omega arith;
  masked = (3, omega arith, refl);
}

rx_queue-busy : rx_queue busy ≡ 16 ∷ 17 ∷ 10 ∷ 11 ∷ []
rx_queue-busy = refl

tty_read-busy : (tty_read busy 3).0 ≡ 16 ∷ 17 ∷ 10 ∷ []
unfolding tty_read ring_read
tty_read-busy = refl

tty_poll-busy : (tty_poll busy (1 ∷ 2 ∷ 3 ∷ 4 ∷ 5 ∷ [])).1 ≡ 5 ∷ []
unfolding tty_poll poll_loop
tty_poll-busy = refl

tty_overflow_occurred-busy : (tty_overflow_occurred (tty_poll busy (1 ∷ 2 ∷ 3 ∷ 4 ∷ [])).0).0 ≡ true
unfolding tty_overflow_occurred tty_poll poll_loop
tty_overflow_occurred-busy = refl

tty_get_stats-busy :
    tty_get_stats (tty_reset_stats busy) ≡ record { rx_bytes = 0; tx_bytes = 0; rx_overflows = 0 }
unfolding tty_get_stats tty_reset_stats
tty_get_stats-busy = refl

tty_write_example :
    (buf : List ℕ) × (head bytes : ℕ) × (tty_write busy (1 ∷ 2 ∷ 3 ∷ 4 ∷ [])
      ≡ some (3, 26 ∷ 27 ∷ 20 ∷ 21 ∷ 1 ∷ 2 ∷ 3 ∷ [], flushed busy buf head bytes))
    × IsRing buf head head 7
    × (u32 bytes ≡ 7)
tty_write_example = tty_write_lem busy (1 ∷ 2 ∷ 3 ∷ 4 ∷ []) busy-IsTx refl

abbrev typed : List ℕ
typed = 1 ∷ 2 ∷ 3 ∷ 4 ∷ 5 ∷ []

tty_poll_example : Polled busy typed (tty_poll busy typed).0 (tty_poll busy typed).1
tty_poll_example = tty_poll_lem busy typed busy-IsRx refl
