-- ===== src/Ipv4/Packet.antt =====
-- `ipv4_send` and `ipv4_recv` of drivers/net/ipv4.c, over drivers/net/slip.c and drivers/tty/tty.c.
use avrix.Slip.Recv.{slip_recv_packet-receive}
use avrix.Slip.Frame.{receive}
use avrix.Base.{
  ltb, if◌then◌else◌, length, take, drop, All, length-append, length-take, take_all, drop-append,
  All-append, IsByte, ℕ, zero, suc, ◌+◌, ◌-◌, ◌≤◌, ◌≡◌, refl, sym, ap, ◌∙◌, Bool, true, false, ◌&&◌,
  Option, some, List, [], ◌++◌, arith,
}
use avrix.Tty.{Tty, tty_poll}
use avrix.Tty.Read.{IsRx, rx_queue}
use avrix.Slip.Send.{encode, IsReady}
use avrix.Slip.Transfer.{IsListening, transfer}
use avrix.Ipv4.{
  hdr_of, Ipv4Hdr, hdr_size, hdr_bytes, count, Received, accept_frame, ipv4_send, ipv4_recv,
  ipv4_mtu, ipv4_validate_header,
}
use avrix.Ipv4.Header.{IsHdr, hdr_bytes-IsByte, length-hdr_bytes, hdr_of-hdr_bytes}

-- What a receiver of a valid header and a payload reports: the whole length, and as much of the
-- payload as its buffer holds, if it has one.
abbrev pub report : Bool → ℕ → Ipv4Hdr → List ℕ → Tty → Received
report has_payload len h p t = record {
  reply = count (length p);
  hdr = some h;
  payload = if has_payload then take len p else [];
  tty = some t;
}

-- The copy into the caller's buffer, cut to its size.
copied :
    (p : List ℕ) (has_payload : Bool) (len : ℕ)
    → (if has_payload && ltb 0 len
        then take (if ltb len (length p) then len else length p) p
        else [])
      ≡ (if has_payload then take len p else [])
copied p false len = refl
copied p true zero = refl
copied p true (suc len) = ground (arith, take_all (length p) p, take_all (suc len) p)

accept_frame-hdr :
    (h : Ipv4Hdr) (p : List ℕ) (has_payload : Bool) (len : ℕ) (t : Tty)
    → IsHdr h
    → ipv4_validate_header h ≡ true
    → accept_frame has_payload len (length (hdr_bytes h ++ p)) (hdr_bytes h ++ p) (some t)
      ≡ report has_payload len h p t
unfolding accept_frame
accept_frame-hdr h p has_payload len t v ok =
    let size : length (hdr_bytes h ++ p) ≡ hdr_size + length p =
      length-append (hdr_bytes h) p ∙ ap (λ n. n + length p) (length-hdr_bytes h) in
    let long : ltb (hdr_size + length p) hdr_size ≡ false = ground arith in
    let tail : drop hdr_size (hdr_bytes h ++ p) ≡ p =
      ap (λ n. drop n (hdr_bytes h ++ p)) (sym (length-hdr_bytes h))
      ∙ drop-append (hdr_bytes h) p in
    let n : hdr_size + length p - hdr_size ≡ length p = omega arith in
    rw (size, hdr_of-hdr_bytes h p v, long, ok, tail, n)
      (λ i. record {
        reply = count (length p);
        hdr = some h;
        payload = copied p has_payload len i;
        tty = some t;
      })

-- A packet of a valid header and a payload of bytes, sent over a ready TTY and polled by a
-- listening one whose ring can hold the frame, is received: both calls end, the receiver gets that
-- header, the payload's length and as much of it as its buffer holds, and nothing is left waiting.
pub packet_transfer :
    (a b : Tty) (h : Ipv4Hdr) (p junk : List ℕ) (has_payload : Bool) (len : ℕ)
    → IsReady a
    → IsListening b
    → IsHdr h
    → ipv4_validate_header h ≡ true
    → All IsByte p
    → hdr_size + length p ≤ ipv4_mtu
    → length (encode (hdr_bytes h ++ p)) ≤ b.mask
    → (wire : List ℕ) × (a' b' : Tty) × (ipv4_send (some a) (some h) (some p) (length p) junk
        ≡ some (wire, some a'))
      × (ipv4_recv (some (tty_poll b wire).0) true has_payload len
          ≡ some (report has_payload len h p b'))
      × IsReady a'
      × (rx_queue b' ≡ [])
unfolding ipv4_send ipv4_recv
packet_transfer a b h p junk has_payload len ready l v ok bytes fits ring =
    let frame = hdr_bytes h ++ p in
    let size : length frame ≡ hdr_size + length p =
      length-append (hdr_bytes h) p ∙ ap (λ n. n + length p) (length-hdr_bytes h) in
    let (wire, a', b', sent, received, ready', left) =
      transfer a b frame ipv4_mtu ready l
        (All-append IsByte (hdr_bytes h) p (hdr_bytes-IsByte h) bytes) (omega (arith, size))
        (omega (arith, size)) ring in
    (
      wire,
      a',
      b',
      rw (take_all (length p) p (omega arith)) sent,
      rw received (ap some (accept_frame-hdr h p has_payload len b' v ok)),
      ready',
      left,
    )

-- Where `accept_frame` reports a payload that is not empty, the header that it hands out is valid,
-- the frame is as much longer than a header, and no more than `len` payload bytes are written.
pub accept_frame_sound :
    (has_payload : Bool) (len n frame_len : ℕ) (frame : List ℕ) (t : Option Tty)
    → (accept_frame has_payload len frame_len frame t).reply ≡ count (suc n)
    → (h : Ipv4Hdr) × ((accept_frame has_payload len frame_len frame t).hdr ≡ some h)
      × (ipv4_validate_header h ≡ true)
      × (frame_len ≡ hdr_size + suc n)
      × (length (accept_frame has_payload len frame_len frame t).payload ≤ len)
unfolding accept_frame
accept_frame_sound has_payload len n frame_len frame t e = (
  hdr_of frame,
  ground arith,
  ground arith,
  ground arith,
  ground (
    arith,
    length-take len (drop hdr_size frame),
    length-take (frame_len - hdr_size) (drop hdr_size frame),
  ),
)

-- Whatever waits at a receiver with a valid ring, `ipv4_recv` ends: it does what `accept_frame`
-- does with the frame that `receive` finds among the bytes that wait, and leaves the rest there.
pub ipv4_recv_lem :
    (b : Tty) (has_payload : Bool) (len : ℕ)
    → IsRx b
    → let (n, frame, rest) = receive ipv4_mtu [] false (rx_queue b) in
      (b' : Tty) × (ipv4_recv (some b) true has_payload len
        ≡ some (accept_frame has_payload len n frame (some b')))
      × IsRx b'
      × (rx_queue b' ≡ rest)
unfolding ipv4_recv
ipv4_recv_lem b has_payload len v =
    let (b', e, v', left, _, _) = slip_recv_packet-receive b ipv4_mtu v (omega arith) in
    (b', rw e refl, v', left)
