-- ===== src/Tty/Poll.antt =====
-- `tty_poll` of drivers/tty/tty.c: characters from `getc` into the receive queue.
use avrix.Base.{
  ltb, ◌==◌, if◌then◌else◌, Bool-cases, if_true, length, set, take, drop, take_all, u8, u16, u32, ℕ,
  suc, ◌+◌, ◌-◌, min, ◌≡◌, refl, sym, ap, ◌∙◌, ◌≢◌, inl, inr, true, List, [], ◌∷◌, ◌++◌, append-nil,
  append_assoc, arith,
}
use mathlib.Core.List.{map}
use mathlib.Core.Path.{subst}
use avrix.Tty.{Tty, poll_loop, tty_poll}
use avrix.Tty.Ring.{next, used, wrap-next, set-IsRing}
use avrix.Tty.Read.{IsRx, rx_queue}
use avrix.Tty.Write.{queue-set}

-- How many bytes the receive ring can still take.
abbrev pub rx_room : Tty → ℕ
rx_room t = t.mask - used t.mask t.rx_head t.rx_tail

-- The state after one character has been stored.
abbrev stored : Tty → ℕ → Tty
stored t c = record t {
  rx_buf = set t.rx_buf t.rx_head (u8 c);
  rx_head = next t.mask t.rx_head;
  rx_bytes = u32 (t.rx_bytes + 1);
}

-- What one poll of the characters `cs` does to the state `t`.
pub record Polled (t : Tty) (cs : List ℕ) (t' : Tty) (rest : List ℕ) : Type 0 where
  pub received : rx_queue t' ≡ rx_queue t ++ map u8 (take (rx_room t) cs)
  pub left : rest ≡ drop (suc (rx_room t)) cs
  pub overflow : t'.rx_overflow ≡ (if ltb (rx_room t) (length cs) then true else t.rx_overflow)
  pub counted : u32 t'.rx_bytes ≡ u32 (t.rx_bytes + min (rx_room t) (length cs))
  pub ring : IsRx t'
  pub same_getc : t'.getc ≡ t.getc
  pub same_mask : t'.mask ≡ t.mask

-- The three cases of the loop.
Polled-nil : (t : Tty) → IsRx t → Polled t [] t []
Polled-nil t v = record {
  received =
      sym
        (ap (λ ys. rx_queue t ++ map u8 ys) (take_all (rx_room t) [] (omega arith)) ∙ append-nil _);
  left = refl;
  overflow = ground arith;
  counted = ground arith;
  ring = v;
  same_getc = refl;
  same_mask = refl;
}

Polled-full :
    (t : Tty) (c : ℕ) (cs : List ℕ) (n : ℕ)
    → IsRx t
    → rx_room t ≡ 0
    → Polled t (c ∷ cs) (record t { rx_overflow = true; rx_overflows = n }) cs
Polled-full t c cs n v e = record {
  received = sym (ap (λ k. rx_queue t ++ map u8 (take k (c ∷ cs))) e ∙ append-nil _);
  left = sym (ap (λ k. drop (suc k) (c ∷ cs)) e);
  overflow = ground arith;
  counted = ground arith;
  ring = v;
  same_getc = refl;
  same_mask = refl;
}

Polled-cons :
    (t : Tty) (c : ℕ) (cs : List ℕ) {t' : Tty} {rest : List ℕ}
    → IsRx t
    → next t.mask t.rx_head ≢ t.rx_tail
    → Polled (stored t c) cs t' rest
    → Polled t (c ∷ cs) t' rest
Polled-cons t c cs {t'} {rest} v ne p =
    let e : rx_room t ≡ suc (rx_room (stored t c)) = ground arith in
    record {
      received =
          p.received
          ∙ ap (λ ys. ys ++ map u8 (take (rx_room (stored t c)) cs))
              (queue-set t.rx_buf t.rx_head t.rx_tail t.mask (u8 c) v ne)
          ∙ append_assoc (rx_queue t) (u8 c ∷ []) _
          ∙ sym (ap (λ k. rx_queue t ++ map u8 (take k (c ∷ cs))) e);
      left = p.left ∙ sym (ap (λ k. drop (suc k) (c ∷ cs)) e);
      overflow = p.overflow ∙ ground arith;
      counted = p.counted ∙ ground arith;
      ring = p.ring;
      same_getc = p.same_getc;
      same_mask = p.same_mask;
    }

poll_loop_lem : (cs : List ℕ) (t : Tty) → IsRx t → Polled t cs (poll_loop t cs).0 (poll_loop t cs).1
unfolding poll_loop
poll_loop_lem [] t v = Polled-nil t v
poll_loop_lem (c ∷ cs) t v = elim (Bool-cases (next t.mask t.rx_head == t.rx_tail)) [
  | inl full ↦
      rw (wrap-next t.mask v.masked t.rx_head v.head_in, full)
        (Polled-full t c cs (u16 (t.rx_overflows + 1)) v (ground arith))
  | inr free ↦
      rw (wrap-next t.mask v.masked t.rx_head v.head_in, free)
        (Polled-cons t c cs v (ground arith) (poll_loop_lem cs (stored t c) (set-IsRing v (u8 c))))
]

-- With a `getc` callback and a valid receive ring, `tty_poll` appends to the receive queue as many
-- of the characters as it has room for, drops the next one and leaves the others; the overflow
-- flag is raised exactly when it dropped one, and is kept otherwise; `rx_bytes` counts the bytes
-- stored; callback and mask stay.
pub tty_poll_lem :
    (t : Tty) (cs : List ℕ)
    → IsRx t
    → t.getc ≡ true
    → Polled t cs (tty_poll t cs).0 (tty_poll t cs).1
unfolding tty_poll
tty_poll_lem t cs v g =
    let e : tty_poll t cs ≡ poll_loop t cs = if_true _ _ g in
    subst (λ r. Polled t cs r.0 r.1) (sym e) (poll_loop_lem cs t v)
