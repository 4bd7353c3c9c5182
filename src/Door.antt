-- ===== src/Door.antt =====
-- kernel/ipc/door.c and kernel/ipc/door.h: calls from one task to another through a shared buffer.
-- A buffer is the list of its bytes, and a message the first bytes of a buffer. `nk_current_tid`
-- and `nk_switch_to` are the scheduler's: the first is an argument, and for the second stands what
-- the tasks do to the shared state until the caller runs again.
pub mod Calls
mod Tests
use avrix.Base.{
  ltb, leb, ◌==◌, if◌then◌else◌, get_or, set, take, drop, u8, ℕ, ◌-◌, ◌*◌, ◌/◌, ◌%◌, bit_and,
  bit_xor, ◌||◌, List, [], ◌∷◌, ◌++◌,
}

abbrev pub nk_max_tasks : ℕ
nk_max_tasks = 8

abbrev pub door_slots : ℕ
door_slots = 4

abbrev pub door_slab_size : ℕ
door_slab_size = 128

-- `door_t`, whose last two fields have four bits.
pub record DoorT : Type 0 where
  pub tgt_tid : ℕ
  pub words : ℕ
  pub flags : ℕ

-- The variables of the file.
pub record Doors : Type 0 where
  pub door_slab : List ℕ
  pub door_vec : List (List DoorT)
  pub door_caller : ℕ
  pub door_words_v : ℕ
  pub door_flags_v : ℕ

abbrev pub no_door : DoorT
no_door = record { tgt_tid = 0; words = 0; flags = 0 }

abbrev pub door_at : Doors → ℕ → ℕ → DoorT
door_at d tid idx = get_or (get_or d.door_vec tid []) idx no_door

abbrev pub crc8_lut : List ℕ
crc8_lut =
    0 ∷ 49 ∷ 98 ∷ 83 ∷ 196 ∷ 245 ∷ 166 ∷ 151 ∷ 185 ∷ 136 ∷ 219 ∷ 234 ∷ 125 ∷ 76 ∷ 31 ∷ 46 ∷ 67 ∷ 114
    ∷ 33 ∷ 16 ∷ 135 ∷ 182 ∷ 229 ∷ 212 ∷ 250 ∷ 203 ∷ 152 ∷ 169 ∷ 62 ∷ 15 ∷ 92 ∷ 109 ∷ []

-- The loop over the bytes that are left, with the value so far.
unfoldable pub crc8_from : ℕ → List ℕ → ℕ
crc8_from crc [] = crc
crc8_from crc (b ∷ bs) =
    let byte = bit_xor b crc in
    crc8_from (u8 (bit_xor (bit_xor (crc * 32) (get_or crc8_lut (byte / 8) 0)) (byte % 8))) bs

unfoldable pub crc8_maxim : List ℕ → ℕ → ℕ
crc8_maxim p len = crc8_from 0 (take len p)

-- `memcpy` of the first `n` bytes of a list to the front of another.
unfoldable pub memcpy : List ℕ → List ℕ → ℕ → List ℕ
memcpy to src n = take n src ++ drop n to

unfoldable pub door_register : ℕ → ℕ → ℕ → ℕ → ℕ → Doors → Doors
door_register tid idx target words flags d =
    if leb door_slots idx || (words == 0 || ltb door_slab_size (words * 8))
    then d
    else let entry : DoorT = record {
      tgt_tid = bit_and target (nk_max_tasks - 1);
      words = words % 16;
      flags = flags % 16;
    } in
      record d { door_vec = set d.door_vec tid (set (get_or d.door_vec tid []) idx entry) }

-- The state at the switch to the callee.
unfoldable pub door_send : ℕ → DoorT → List ℕ → Doors → Doors
door_send caller e buf d =
    let nbytes = u8 (e.words * 8) in
    let copied = memcpy d.door_slab buf nbytes in
    record d {
      door_slab = if e.flags % 2 == 1 then set copied nbytes (crc8_maxim copied nbytes) else copied;
      door_caller = caller;
      door_words_v = e.words;
      door_flags_v = e.flags;
    }

-- The buffer and the state after the call; `nk_switch_to` takes the task to switch to.
unfoldable pub door_call : (ℕ → Doors → Doors) → ℕ → ℕ → List ℕ → Doors → List ℕ × Doors
door_call nk_switch_to caller idx buf d =
    let e = door_at d caller idx in
    if leb door_slots idx || e.words == 0
    then (buf, d)
    else let back = nk_switch_to e.tgt_tid (door_send caller e buf d) in
      (memcpy buf back.door_slab (u8 (e.words * 8)), back)

-- The task that `door_return` switches to, and the callee's view of the message.
unfoldable pub door_return : (ℕ → Doors → Doors) → Doors → Doors
door_return nk_switch_to d = nk_switch_to d.door_caller d

unfoldable pub door_message : Doors → List ℕ
door_message d = d.door_slab

unfoldable pub door_words : Doors → ℕ
door_words d = d.door_words_v

unfoldable pub door_flags : Doors → ℕ
door_flags d = d.door_flags_v
