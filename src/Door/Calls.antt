-- ===== src/Door/Calls.antt =====
-- Calls through the doors of kernel/ipc/door.c.
use avrix.Door.{
  no_door, door_return, door_slab_size, door_slots, door_flags, door_words, door_at, crc8_from,
  door_call, door_register, DoorT, crc8_maxim, door_message, Doors, memcpy, door_send,
}
use avrix.Base.{
  ltb, leb, ◌==◌, Bool-cases, if_true, length, get_or, set, take, drop, length-append, length-set,
  length-take, length-drop, take_all, get_or-set_self, u8, ℕ, zero, suc, ◌*◌, ◌%◌, ◌≤◌, ◌<◌,
  bit_and, ◌≡◌, refl, ap, ◌∙◌, inl, inr, Bool, true, false, ◌||◌, List, [], ◌∷◌, ◌++◌, arith,
}

-- The sizes of the arrays.
pub record IsDoors (d : Doors) : Type 0 where
  pub slab_size : length d.door_slab ≡ 128
  pub task_count : length d.door_vec ≡ 8
  pub slot_count : (tid : ℕ) → tid < 8 → length (get_or d.door_vec tid []) ≡ 4

take-take-append :
    (n : ℕ) (src rest : List ℕ) → n ≤ length src → take n (take n src ++ rest) ≡ take n src
take-take-append zero src rest h = refl
take-take-append (suc n) [] rest h = absurd (omega arith)
take-take-append (suc n) (x ∷ xs) rest h = ap (◌∷◌ x) (take-take-append n xs rest (omega arith))

take-memcpy : (n : ℕ) (to src : List ℕ) → n ≤ length src → take n (memcpy to src n) ≡ take n src
unfolding memcpy
take-memcpy n to src h = take-take-append n src (drop n to) h

take-set : (n : ℕ) (xs : List ℕ) (v : ℕ) → take n (set xs n v) ≡ take n xs
take-set zero xs v = refl
take-set (suc n) [] v = refl
take-set (suc n) (x ∷ xs) v = ap (◌∷◌ x) (take-set n xs v)

length-memcpy :
    (to src : List ℕ) (n : ℕ)
    → n ≤ length src
    → n ≤ length to
    → length (memcpy to src n) ≡ length to
unfolding memcpy
length-memcpy to src n h k =
    omega (arith, length-append (take n src) (drop n to), length-take n src, length-drop n to)

-- The message that is sent, and the array sizes after it.
pub door_send_lem :
    (caller : ℕ) (e : DoorT) (buf : List ℕ) (d : Doors)
    → length d.door_slab ≡ 128
    → e.words < 16
    → length buf ≡ e.words * 8
    → let sent = door_send caller e buf d in
      (length (door_message sent) ≡ 128)
      × (take (e.words * 8) (door_message sent) ≡ buf)
      × (e.flags % 2 ≡ 1
          → get_or (door_message sent) (e.words * 8) 0 ≡ crc8_maxim buf (e.words * 8))
unfolding door_send door_message crc8_maxim
door_send_lem caller e buf d size small whole =
    let n = e.words * 8 in
    let byte : u8 n ≡ n = omega arith in
    let copied = memcpy d.door_slab buf n in
    let all_there = length-memcpy d.door_slab buf n (omega arith) (omega arith) ∙ size in
    let front : take n copied ≡ buf =
      take-memcpy n d.door_slab buf (omega arith) ∙ take_all n buf (omega arith) in
    rw (byte, door_send)
      (elim (Bool-cases (e.flags % 2 == 1)) [
        | inl checked ↦ rw checked (
          length-set copied n _ ∙ all_there,
          take-set n copied _ ∙ front,
          λ odd.
              get_or-set_self copied n _ 0 (rw all_there (omega arith))
              ∙ ap (crc8_from 0) (take-memcpy n d.door_slab buf (omega arith)),
        )
        | inr unchecked ↦ rw unchecked (all_there, front, λ odd. absurd (ground arith))
      ])

-- What is registered is found again; of the words four bits are kept.
door_at-door_register :
    (tid idx target words flags : ℕ) (d : Doors)
    → IsDoors d
    → tid < 8
    → idx < 4
    → 0 < words
    → words ≤ 16
    → door_at (door_register tid idx target words flags d) tid idx
      ≡ record { tgt_tid = bit_and target 7; words = words % 16; flags = flags % 16 }
unfolding door_register
door_at-door_register tid idx target words flags d w ht hi some_words few =
    let taken : leb door_slots idx || (words == 0 || ltb door_slab_size (words * 8)) ≡ false =
      ground arith in
    let entry : DoorT = record {
      tgt_tid = bit_and target 7;
      words = words % 16;
      flags = flags % 16;
    } in
    let row = set (get_or d.door_vec tid []) idx entry in
    rw (taken, door_register)
      (ap (λ r. get_or r idx no_door) (get_or-set_self d.door_vec tid row [] (rw w.task_count ht))
        ∙ get_or-set_self (get_or d.door_vec tid []) idx entry no_door
            (rw (w.slot_count tid ht) hi))

door_slab-door_register :
    (tid idx target words flags : ℕ) (d : Doors)
    → (door_register tid idx target words flags d).door_slab ≡ d.door_slab
unfolding door_register
door_slab-door_register tid idx target words flags d =
    elim (Bool-cases (leb door_slots idx || (words == 0 || ltb door_slab_size (words * 8)))) [
      | inl refused ↦ rw refused refl
      | inr taken ↦ rw taken refl
    ]

low_bit : (n : ℕ) → n % 16 % 2 ≡ n % 2
low_bit n = omega arith

-- A call through a door that is registered with 1 to 15 words switches to the registered task,
-- which finds the message in the shared buffer, with its number of words and its flags; the caller
-- is the one to return to, and with the low flag the checksum stands after the message, inside the
-- buffer. When the caller runs again, its message is what the buffer then has in its place. The
-- arrays have their sizes, and the message has eight bytes for each word.
pub door_register-door_call :
    (switch : ℕ → Doors → Doors) (tid idx target words flags : ℕ) (buf : List ℕ) (d : Doors)
    → IsDoors d
    → tid < 8
    → idx < 4
    → 0 < words
    → words < 16
    → length buf ≡ words * 8
    → (sent : Doors) × (door_call switch tid idx buf (door_register tid idx target words flags d)
        ≡ (
          memcpy buf (door_message (switch (bit_and target 7) sent)) (words * 8),
          switch (bit_and target 7) sent,
        ))
      × (length (door_message sent) ≡ 128)
      × (take (words * 8) (door_message sent) ≡ buf)
      × (door_words sent ≡ words)
      × (door_flags sent ≡ flags % 16)
      × (door_return switch sent ≡ switch tid sent)
      × (flags % 2 ≡ 1 → get_or (door_message sent) (words * 8) 0 ≡ crc8_maxim buf (words * 8))
unfolding door_call door_message door_send door_words door_flags door_return
door_register-door_call switch tid idx target words flags buf d w ht hi some_words few whole =
    let d' = door_register tid idx target words flags d in
    let e : DoorT = record { tgt_tid = bit_and target 7; words = words; flags = flags % 16 } in
    let four_bits : words % 16 ≡ words = omega arith in
    let found =
      door_at-door_register tid idx target words flags d w ht hi some_words (omega arith)
      ∙ ap (λ n. record e { words = n }) four_bits in
    let goes : leb door_slots idx || words == 0 ≡ false = ground arith in
    let byte : u8 (words * 8) ≡ words * 8 = omega arith in
    let same = door_slab-door_register tid idx target words flags d in
    let (size, front, crc) = door_send_lem tid e buf d' (ap length same ∙ w.slab_size) few whole in
    (
      door_send tid e buf d',
      rw (found, door_call) (rw goes (rw byte refl)),
      size,
      front,
      refl,
      refl,
      refl,
      λ odd. crc (low_bit flags ∙ odd),
    )

or_true : (b : Bool) → b || true ≡ true
or_true true = refl
or_true false = refl

-- A door that is registered with sixteen words, whose message is the whole buffer, is empty: a call
-- through it leaves the caller's message as it was and switches to no task.
pub sixteen_words :
    (switch : ℕ → Doors → Doors) (tid idx target flags : ℕ) (buf : List ℕ) (d : Doors)
    → IsDoors d
    → tid < 8
    → idx < 4
    → let d' = door_register tid idx target 16 flags d in
      door_call switch tid idx buf d' ≡ (buf, d')
unfolding door_register door_call
sixteen_words switch tid idx target flags buf d w ht hi =
    let found =
      door_at-door_register tid idx target 16 flags d w ht hi (omega arith) (omega arith) in
    rw (found, door_call) (if_true _ _ (or_true (leb door_slots idx)))
