-- ===== src/Tty/Init.antt =====
-- `tty_init` of drivers/tty/tty.c sets up both rings.
use avrix.Base.{length, u8, mask_of_size, ℕ, ◌+◌, ◌-◌, ◌^◌, ◌≤◌, ◌<◌, ◌≡◌, Bool, List, [], arith}
use avrix.Tty.{tty_init, tty_tx_free}
use avrix.Tty.Ring.{IsRing, free-used}
use avrix.Tty.Read.{IsRx, rx_queue, queue_empty}
use avrix.Tty.Write.{IsTx, tx_queue}

-- With a size 2 ^ k, k at most 8, cast to `uint8_t`, and buffers that large, both rings are valid
-- and empty, and the transmit ring has room for 2 ^ k - 1 bytes.
pub tty_init_lem :
    (rx_buf tx_buf : List ℕ) (k : ℕ) (putc getc : Bool)
    → k < 9
    → 2 ^ k ≤ length rx_buf
    → 2 ^ k ≤ length tx_buf
    → let t = tty_init rx_buf tx_buf (u8 (2 ^ k)) putc getc in
      IsRx t × IsTx t × (rx_queue t ≡ []) × (tx_queue t ≡ []) × (tty_tx_free t + 1 ≡ 2 ^ k)
unfolding tty_init tty_tx_free
tty_init_lem rx_buf tx_buf k putc getc h hr ht =
    let m = mask_of_size k h in
    let mask = u8 (u8 (2 ^ k) + 256 - 1) in
    let rx : IsRing rx_buf 0 0 mask = record {
      storage = omega (arith, m);
      head_in = omega arith;
      tail_in = omega arith;
      masked = (k, h, m);
    } in
    let tx : IsRing tx_buf 0 0 mask = record {
      storage = omega (arith, m);
      head_in = omega arith;
      tail_in = omega arith;
      masked = (k, h, m);
    } in
    (
      rx,
      tx,
      queue_empty rx_buf 0 mask,
      queue_empty tx_buf 0 mask,
      omega (arith, free-used mask rx.masked 0 0 (omega arith) (omega arith), m),
    )
