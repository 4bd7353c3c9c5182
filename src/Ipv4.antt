-- ===== src/Ipv4.antt =====
-- drivers/net/ipv4.c and drivers/net/ipv4.h: IPv4 headers and packets over SLIP.
-- Multi-byte fields lie in memory low byte first, as on the AVR and on the usual hosts.
pub mod Checksum
pub mod Header
pub mod Packet
mod Tests
use mathlib.Core.Logic.{dite}
use mathlib.Core.WellFounded.{Acc}
use native.Mathlib.Decide.{dec_lt}
use avrix.Base.Order.{lt_wf}
use avrix.Base.{
  ltb, ◌==◌, if◌then◌else◌, get_or, take, drop, u16, u32, ℕ, ◌+◌, ◌-◌, ◌*◌, ◌/◌, ◌%◌, ◌<◌, Bool,
  true, false, not, ◌&&◌, Option, none, some, List, [], ◌∷◌, ◌++◌, arith,
}
use avrix.Tty.{Tty}
use avrix.Slip.{slip_send_packet, slip_recv_packet}

abbrev pub ipv4_mtu : ℕ
ipv4_mtu = 576

-- `ipv4_hdr_t`: each field as the number that the host reads from it.
pub record Ipv4Hdr : Type 0 where
  pub ver_ihl : ℕ
  pub tos : ℕ
  pub len : ℕ
  pub id : ℕ
  pub frag : ℕ
  pub ttl : ℕ
  pub proto : ℕ
  pub checksum : ℕ
  pub saddr : ℕ
  pub daddr : ℕ

-- `sizeof(ipv4_hdr_t)`, packed
abbrev pub hdr_size : ℕ
hdr_size = 20

-- The operands of `|` share no bit, so it is a sum.
abbrev pub ipv4_htons : ℕ → ℕ
ipv4_htons x = u16 (x / 256 + x * 256)

abbrev pub ipv4_htonl : ℕ → ℕ
ipv4_htonl x =
    x / 16777216 % 256 + x / 65536 % 256 * 256 + x / 256 % 256 * 65536 + x % 256 * 16777216

-- A word and a double word as they lie in memory, and back.
abbrev pub bytes16 : ℕ → List ℕ
bytes16 n = (n % 256) ∷ (n / 256 % 256) ∷ []

abbrev pub bytes32 : ℕ → List ℕ
bytes32 n = (n % 256) ∷ (n / 256 % 256) ∷ (n / 65536 % 256) ∷ (n / 16777216 % 256) ∷ []

abbrev pub word16 : List ℕ → ℕ → ℕ
word16 m i = get_or m i 0 + get_or m (i + 1) 0 * 256

abbrev pub word32 : List ℕ → ℕ → ℕ
word32 m i =
    get_or m i 0
    + get_or m (i + 1) 0 * 256
    + get_or m (i + 2) 0 * 65536
    + get_or m (i + 3) 0 * 16777216

-- The memory of a header.
unfoldable pub hdr_bytes : Ipv4Hdr → List ℕ
hdr_bytes h =
    (h.ver_ihl % 256)
    ∷ (h.tos % 256)
    ∷ (bytes16 h.len
        ++ (bytes16 h.id
            ++ (bytes16 h.frag
                ++ ((h.ttl % 256)
                    ∷ (h.proto % 256)
                    ∷ (bytes16 h.checksum ++ (bytes32 h.saddr ++ bytes32 h.daddr))))))

-- `memcpy(h, frame, sizeof(ipv4_hdr_t))`
unfoldable pub hdr_of : List ℕ → Ipv4Hdr
hdr_of m = record {
  ver_ihl = get_or m 0 0;
  tos = get_or m 1 0;
  len = word16 m 2;
  id = word16 m 4;
  frag = word16 m 6;
  ttl = get_or m 8 0;
  proto = get_or m 9 0;
  checksum = word16 m 10;
  saddr = word32 m 12;
  daddr = word32 m 16;
}

-- The loop over 16-bit words, high byte first, and the odd byte at the end, from a partial sum.
unfoldable pub sum_words : ℕ → List ℕ → ℕ
sum_words sum [] = sum
sum_words sum (x ∷ []) = u32 (sum + u16 (x * 256))
sum_words sum (x ∷ y ∷ m) = sum_words (u32 (sum + u16 (x * 256 + y))) m

-- `while (sum >> 16)`: each round makes the sum smaller.
unfoldable pub fold_carry : (sum : ℕ) → Acc ◌<◌ sum → ℕ
fold_carry sum (Acc.intro _ smaller) =
    dite (dec_lt 0 (sum / 65536))
      (λ h.
        fold_carry (sum % 65536 + sum / 65536) (smaller (sum % 65536 + sum / 65536) (omega arith)))
      (λ _. sum)

unfoldable pub ipv4_checksum : List ℕ → ℕ
unfolding lt_wf
ipv4_checksum buf = let sum = sum_words 0 buf in u16 (4294967295 - fold_carry sum (lt_wf.apply sum))

unfoldable pub ipv4_init_header : ℕ → ℕ → ℕ → ℕ → Ipv4Hdr
ipv4_init_header src dst proto payload_len =
    let h : Ipv4Hdr = record {
      ver_ihl = 0x45;
      tos = 0;
      len = ipv4_htons (u16 (hdr_size + payload_len));
      id = 0;
      frag = ipv4_htons 0x4000;
      ttl = 64;
      proto = proto;
      checksum = 0;
      saddr = ipv4_htonl src;
      daddr = ipv4_htonl dst;
    } in
    record h { checksum = ipv4_checksum (hdr_bytes h) }

unfoldable pub ipv4_validate_header : Ipv4Hdr → Bool
ipv4_validate_header h =
    if not (h.ver_ihl / 16 == 4)
    then false
    else if not (h.ver_ihl % 16 == 5)
    then false
    else if ltb (ipv4_htons h.len) hdr_size
    then false
    else if not (h.checksum == ipv4_checksum (hdr_bytes (record h { checksum = 0 })))
    then false
    else true

-- The payload is an option for NULL. Where nothing is copied into the frame behind the header it
-- holds what was on the stack, `junk`.
unfoldable pub ipv4_send :
    Option Tty → Option Ipv4Hdr → Option (List ℕ) → ℕ → List ℕ → Option (List ℕ × Option Tty)
ipv4_send none h payload len junk = some ([], none)
ipv4_send (some t) none payload len junk = some ([], some t)
ipv4_send (some t) (some h) none len junk = slip_send_packet (some t) (hdr_bytes h ++ take len junk)
ipv4_send (some t) (some h) (some payload) len junk =
    slip_send_packet (some t) (hdr_bytes h ++ take len payload)

-- What `ipv4_recv` returns: -1, or a count.
pub data Reply : Type 0 where
  invalid : Reply
  count : ℕ → Reply

-- The result, the header and the payload bytes written, and the new state of the TTY.
pub record Received : Type 0 where
  pub reply : Reply
  pub hdr : Option Ipv4Hdr
  pub payload : List ℕ
  pub tty : Option Tty

-- What is done with a frame of `frame_len` bytes. (A negative payload length cannot come up.)
unfoldable pub accept_frame : Bool → ℕ → ℕ → List ℕ → Option Tty → Received
accept_frame has_payload len frame_len frame t =
    let h = hdr_of frame in
    let payload_len = frame_len - hdr_size in
    if ltb frame_len hdr_size
    then record { reply = count 0; hdr = none; payload = []; tty = t }
    else if not (ipv4_validate_header h)
    then record { reply = count 0; hdr = some h; payload = []; tty = t }
    else record {
      reply = count payload_len;
      hdr = some h;
      payload =
          if has_payload && ltb 0 len
          then take (if ltb len payload_len then len else payload_len) (drop hdr_size frame)
          else [];
      tty = t;
    }

-- `has_hdr` and `has_payload` tell whether the output pointers are not NULL.
unfoldable pub ipv4_recv : Option Tty → Bool → Bool → ℕ → Option Received
ipv4_recv t has_hdr has_payload len = elim t [
  | none ↦ some (record { reply = invalid; hdr = none; payload = []; tty = none })
  | some tty ↦
      if not has_hdr
      then some (record { reply = invalid; hdr = none; payload = []; tty = some tty })
      else elim (slip_recv_packet (some tty) true ipv4_mtu) [
        | none ↦ none
        | some (frame_len, frame, tty') ↦ some (accept_frame has_payload len frame_len frame tty')
      ]
]
