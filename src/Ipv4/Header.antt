-- ===== src/Ipv4/Header.antt =====
-- `ipv4_init_header` and `ipv4_validate_header` of drivers/net/ipv4.c, and a header in memory.
use mathlib.Core.Logic.{◌↔◌}
use avrix.Base.{
  leb, length, All, u16, IsByte, ℕ, ◌+◌, ◌-◌, ◌*◌, ◌/◌, ◌%◌, ◌≤◌, ◌<◌, ◌≡◌, refl, true, List, ◌++◌,
  arith,
}
use avrix.Ipv4.{
  Ipv4Hdr, hdr_size, hdr_bytes, hdr_of, ipv4_htons, ipv4_checksum, ipv4_init_header,
  ipv4_validate_header,
}
use avrix.Ipv4.Checksum.{word_sum, ones, ipv4_checksum_lem}

-- A header whose fields fit their types.
pub record IsHdr (h : Ipv4Hdr) : Type 0 where
  pub ver_ihl : h.ver_ihl < 256
  pub tos : h.tos < 256
  pub len : h.len < 65536
  pub id : h.id < 65536
  pub frag : h.frag < 65536
  pub ttl : h.ttl < 256
  pub proto : h.proto < 256
  pub checksum : h.checksum < 65536
  pub saddr : h.saddr < 4294967296
  pub daddr : h.daddr < 4294967296

pub hdr_bytes-IsByte : (h : Ipv4Hdr) → All IsByte (hdr_bytes h)
unfolding hdr_bytes
hdr_bytes-IsByte h = omega arith

pub length-hdr_bytes : (h : Ipv4Hdr) → length (hdr_bytes h) ≡ hdr_size
unfolding hdr_bytes
length-hdr_bytes h = refl

-- The memory of a header, whatever follows it, is read back as that header.
pub hdr_of-hdr_bytes : (h : Ipv4Hdr) (rest : List ℕ) → IsHdr h → hdr_of (hdr_bytes h ++ rest) ≡ h
unfolding hdr_of hdr_bytes
hdr_of-hdr_bytes h rest v = ground arith

ipv4_checksum-lt : (m : List ℕ) → ipv4_checksum m < 65536
unfolding ipv4_checksum
ipv4_checksum-lt m = omega arith

-- A fresh header fits its types.
pub init_header-IsHdr :
    (src dst proto payload_len : ℕ)
    → proto < 256
    → IsHdr (ipv4_init_header src dst proto payload_len)
unfolding ipv4_init_header
init_header-IsHdr src dst proto payload_len p = record {
  ver_ihl = omega arith;
  tos = omega arith;
  len = omega arith;
  id = omega arith;
  frag = omega arith;
  ttl = omega arith;
  proto = p;
  checksum = ipv4_checksum-lt _;
  saddr = omega arith;
  daddr = omega arith;
}

-- A fresh header is valid exactly if its total length, taken modulo 2 ^ 16, is not below 20; so
-- for every payload that fits an IPv4 packet.
pub validate-init_header :
    (src dst proto payload_len : ℕ)
    → ipv4_validate_header (ipv4_init_header src dst proto payload_len)
      ≡ leb hdr_size (u16 (hdr_size + payload_len))
unfolding ipv4_validate_header ipv4_init_header
validate-init_header src dst proto payload_len = ground arith

-- A header with bytes for its first field is valid exactly if it has version 4, five words, a total
-- length not below 20 and, as its checksum, the complement of the one's complement sum of its
-- memory with zeros for the checksum.
pub validate_header_iff :
    (h : Ipv4Hdr)
    → (ipv4_validate_header h ≡ true) ↔ (
        (h.ver_ihl ≡ 0x45)
        × (hdr_size ≤ ipv4_htons h.len)
        × (h.checksum ≡ 65535 - ones (word_sum (hdr_bytes (record h { checksum = 0 })))))
unfolding ipv4_validate_header
validate_header_iff h =
    let zeroed = hdr_bytes (record h { checksum = 0 }) in
    let sum : ipv4_checksum zeroed ≡ 65535 - ones (word_sum zeroed) =
      ipv4_checksum_lem zeroed (hdr_bytes-IsByte _)
        (omega (arith, length-hdr_bytes (record h { checksum = 0 }))) in
    rw (← sum) (ground arith, ground arith)

word_sum-checksum :
    (h : Ipv4Hdr) (c : ℕ)
    → word_sum (hdr_bytes (record h { checksum = c }))
      ≡ word_sum (hdr_bytes (record h { checksum = 0 })) + (c % 256 * 256 + c / 256 % 256)
unfolding word_sum hdr_bytes
word_sum-checksum h c = omega arith

-- The complement of `s`, put back with its bytes swapped, makes up a multiple of 65535 just where
-- swapping changes nothing.
swapped_complement :
    (s c : ℕ)
    → c ≡ 65535 - ones s
    → (65535 - ones (s + (c % 256 * 256 + c / 256 % 256)) ≡ 0) ↔ (c % 256 ≡ c / 256)
swapped_complement s c e = (λ h. ground arith, λ h. ground arith)

-- A header that `ipv4_validate_header` accepts has the checksum 0 in memory, as RFC 1071 wants of
-- what is sent, only if the two bytes of its checksum are equal, and then it has: the checksum is
-- stored low byte first, while the sum is taken high byte first.
pub valid_header_checksum :
    (h : Ipv4Hdr)
    → ipv4_validate_header h ≡ true
    → (ipv4_checksum (hdr_bytes h) ≡ 0) ↔ (h.checksum % 256 ≡ h.checksum / 256)
valid_header_checksum h v =
    let (_, _, e) = (validate_header_iff h).0 v in
    let sum : ipv4_checksum (hdr_bytes h) ≡ 65535 - ones (word_sum (hdr_bytes h)) =
      ipv4_checksum_lem (hdr_bytes h) (hdr_bytes-IsByte h) (omega (arith, length-hdr_bytes h)) in
    rw (sum, word_sum-checksum h h.checksum)
      (swapped_complement (word_sum (hdr_bytes (record h { checksum = 0 }))) h.checksum e)
