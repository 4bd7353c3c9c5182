-- ===== src/Slip/Recv.antt =====
-- `slip_recv_packet` of drivers/net/slip.c against the decoding of the bytes of the receive queue.
use avrix.Tty.Ring.{length-queue, used-le}
use avrix.Base.{
  ◌==◌, Bool-cases, length, take, drop, ℕ, zero, suc, ◌<◌, ◌≡◌, refl, ap, ◌∙◌, ◌⊎◌, inl, inr, Bool,
  true, false, none, some, List, [], ◌∷◌, ◌++◌, arith,
}
use avrix.Tty.{Tty, tty_read, tty_rx_available}
use avrix.Tty.Read.{IsRx, rx_queue, tty_read_lem, tty_rx_available_lem}
use avrix.Slip.{
  too_large, put, frame, classify, skip, slip_recv_packet, Event, recv_loop, slip_end, discard,
}
use avrix.Slip.Frame.{receive, after_end}

-- A receiver, configured as `s`, whose queue holds the bytes `q`.
abbrev Holds : Tty → List ℕ → Tty → Type 0
Holds s q t = IsRx t × (rx_queue t ≡ q) × (t.getc ≡ s.getc) × (t.mask ≡ s.mask)

-- The two tests of a loop over the queue: it is empty, or a byte can be read off it.
idle : (s t : Tty) → Holds s [] t → tty_rx_available t ≡ 0
idle s t (v, e, _, _) = tty_rx_available_lem t v ∙ ap length e

module _ (s t : Tty) (b : ℕ) (q : List ℕ) (h : Holds s (b ∷ q) t) where
  some_available : tty_rx_available t ≡ suc (length q)
  some_available = tty_rx_available_lem t h.0 ∙ ap length h.1

  read_one : (tty_read t 1).0 ≡ b ∷ []
  read_one = let (dst, kept, v') = tty_read_lem t 1 h.0 in dst ∙ ap (take 1) h.1

  read_rest : Holds s q (tty_read t 1).1
  unfolding tty_read
  read_rest = let (dst, kept, v') = tty_read_lem t 1 h.0 in (v', kept ∙ ap (drop 1) h.1, h.2, h.3)

discard_lem :
    (s : Tty) (q : List ℕ) (fuel : ℕ) (t : Tty)
    → Holds s q t
    → length q < fuel
    → (t' : Tty) × (discard fuel t ≡ some t') × Holds s (after_end q) t'
unfolding discard after_end
discard_lem s q zero t h k = absurd (omega arith)
discard_lem s [] (suc fuel) t h k = (t, rw (idle s t h, discard), h)
discard_lem s (b ∷ q) (suc fuel) t h k =
    let read : discard (suc fuel) t ≡ (elim (b == slip_end) [
      | true ↦ some (tty_read t 1).1
      | false ↦ discard fuel (tty_read t 1).1
    ]) =
      rw (some_available s t b q h, discard) (rw (read_one s t b q h, discard)) in
    elim (Bool-cases (b == slip_end)) [
      | inl e ↦ rw (e, after_end) ((tty_read t 1).1, read ∙ rw e, read_rest s t b q h)
      | inr n ↦
          let (t', e, h') =
            discard_lem s q fuel (tty_read t 1).1 (read_rest s t b q h) (omega arith) in
          rw (n, after_end) (t', read ∙ rw n e, h')
    ]

Event-cases :
    (ev : Event)
    → ((esc : Bool) × (ev ≡ skip esc))
      ⊎ ((ev ≡ frame) ⊎ (((b : ℕ) × (ev ≡ put b)) ⊎ (ev ≡ too_large)))
Event-cases (skip esc) = inl (esc, refl)
Event-cases frame = inr (inl refl)
Event-cases (put b) = inr (inr (inl (b, refl)))
Event-cases too_large = inr (inr (inr refl))

-- The loop ends when its fuel exceeds the bytes that wait, with what `receive` says of them.
recv_loop_lem :
    (s : Tty) (q : List ℕ) (fuel len : ℕ) (buf : List ℕ) (esc : Bool) (t : Tty)
    → Holds s q t
    → length q < fuel
    → let (n, out, rest) = receive len buf esc q in
      (t' : Tty) × (recv_loop fuel len buf esc t ≡ some (n, out, t')) × Holds s rest t'
unfolding recv_loop receive
recv_loop_lem s q zero len buf esc t h k = absurd (omega arith)
recv_loop_lem s [] (suc fuel) len buf esc t h k = (t, rw (idle s t h, recv_loop), h)
recv_loop_lem s (b ∷ q) (suc fuel) len buf esc t h k =
    let t₁ = (tty_read t 1).1 in
    let h₁ = read_rest s t b q h in
    let read : recv_loop (suc fuel) len buf esc t ≡ (elim (classify len (length buf) esc b) [
      | skip esc' ↦ recv_loop fuel len buf esc' t₁
      | frame ↦ some (length buf, buf, t₁)
      | put c ↦ recv_loop fuel len (buf ++ (c ∷ [])) false t₁
      | too_large ↦ elim (discard fuel t₁) [ none ↦ none | some t₂ ↦ some (0, buf, t₂) ]
    ]) =
      rw (some_available s t b q h, recv_loop) (rw (read_one s t b q h, recv_loop)) in
    elim (Event-cases (classify len (length buf) esc b)) [
      | inl (esc', e) ↦
          let (t', r, h') = recv_loop_lem s q fuel len buf esc' t₁ h₁ (omega arith) in
          rw (e, receive) (t', read ∙ rw e r, h')
      | inr (inl e) ↦ rw (e, receive) (t₁, read ∙ rw e, h₁)
      | inr (inr (inl (c, e))) ↦
          let (t', r, h') =
            recv_loop_lem s q fuel len (buf ++ (c ∷ [])) false t₁ h₁ (omega arith) in
          rw (e, receive) (t', read ∙ rw e r, h')
      | inr (inr (inr e)) ↦
          let (t', r, h') = discard_lem s q fuel t₁ h₁ (omega arith) in
          rw (e, receive) (t', read ∙ rw (e, r), h')
    ]

-- What is returned, in terms of `receive`.
pub slip_recv_packet-receive :
    (t : Tty) (len : ℕ)
    → IsRx t
    → 0 < len
    → let (n, out, rest) = receive len [] false (rx_queue t) in
      (t' : Tty) × (slip_recv_packet (some t) true len ≡ some (n, out, some t'))
      × IsRx t'
      × (rx_queue t' ≡ rest)
      × (t'.getc ≡ t.getc)
      × (t'.mask ≡ t.mask)
unfolding slip_recv_packet
slip_recv_packet-receive t len v h =
    let fits : length (rx_queue t) < suc t.mask =
      omega (arith, used-le v, length-queue t.rx_buf t.rx_head t.rx_tail t.mask) in
    let (t', e, h') =
      recv_loop_lem t (rx_queue t) (suc t.mask) len [] false t (v, refl, refl, refl) fits in
    let pos : (len == 0) ≡ false = ground arith in (t', rw (pos, e), h'.0, h'.1, h'.2, h'.3)
