-- ===== src/Door/Tests.antt =====
-- Calls through the doors of kernel/ipc/door.c.
use avrix.Door.Calls.{door_register-door_call, IsDoors}
use avrix.Door.{
  door_return, door_flags, door_words, door_message, memcpy, door_register, door_call, crc8_from,
  no_door, crc8_maxim, DoorT, Doors,
}
use avrix.Base.{
  length, get_or, set, take, replicate, ℕ, zero, suc, ◌%◌, ◌<◌, ◌≡◌, refl, ap, List, [], ◌∷◌, arith,
}

abbrev no_doors : Doors
no_doors = record {
  door_slab = replicate 128 0;
  door_vec = replicate 8 (replicate 4 no_door);
  door_caller = 0;
  door_words_v = 0;
  door_flags_v = 0;
}

row_at : (n i : ℕ) (row : List DoorT) → i < n → get_or (replicate n row) i [] ≡ row
row_at zero i row h = absurd (omega arith)
row_at (suc n) zero row h = refl
row_at (suc n) (suc i) row h = row_at n i row (omega arith)

no_doors-IsDoors : IsDoors no_doors
no_doors-IsDoors = record {
  slab_size = refl;
  task_count = refl;
  slot_count = λ tid h. ap length (row_at 8 tid (replicate 4 no_door) h);
}

abbrev hello : List ℕ
hello = 104 ∷ 101 ∷ 108 ∷ 108 ∷ 111 ∷ 0 ∷ 0 ∷ 0 ∷ []

-- A callee that writes one byte into the buffer.
answer : ℕ → Doors → Doors
answer tid d = record d { door_slab = set d.door_slab 7 tid }

door_register-door_call_example :
    (sent : Doors) × (door_call answer 2 0 hello (door_register 2 0 3 1 1 no_doors)
      ≡ (memcpy hello (door_message (answer 3 sent)) 8, answer 3 sent))
    × (length (door_message sent) ≡ 128)
    × (take 8 (door_message sent) ≡ hello)
    × (door_words sent ≡ 1)
    × (door_flags sent ≡ 1)
    × (door_return answer sent ≡ answer 2 sent)
    × (1 % 2 ≡ 1 → get_or (door_message sent) 8 0 ≡ crc8_maxim hello 8)
door_register-door_call_example =
    door_register-door_call answer 2 0 3 1 1 hello no_doors no_doors-IsDoors (omega arith)
      (omega arith) (omega arith) (omega arith) refl

-- The checksum of one byte 1 is not 49, the value of the polynomial, and the checksums of two
-- messages that differ in one byte are the same.
crc8_one : crc8_maxim (1 ∷ []) 1 ≡ 1
unfolding crc8_maxim crc8_from
crc8_one = refl

crc8_damaged : crc8_maxim (30 ∷ 0 ∷ []) 2 ≡ crc8_maxim (32 ∷ 0 ∷ []) 2
unfolding crc8_maxim crc8_from
crc8_damaged = refl
