-- ===== src/Editor/Files.antt =====
-- Loading a file in examples/ned.c and examples/vini.c. A file that can be opened is the list of its
-- characters, and the rest of it is what is not read yet. The last definition is a round of the loop
-- of examples/vini.c.
use avrix.NkFs.{Eeprom}
use avrix.Editor.Vini.{Vini, with_buffer, buffer_of, vini_lines, colon_key, slash_key, key}
use avrix.Editor.{strncpy, insert_line, line_text, max_line_len, Buffer, Ned, ned_lines}
use avrix.Base.{
  ◌==◌, if◌then◌else◌, take, drop, replicate, ℕ, zero, suc, ◌-◌, ◌*◌, Bool, true, false, not, ◌&&◌,
  Option, none, some, List, [], ◌∷◌, ◌++◌,
}

-- `fgets` with room for `n` characters: what is read, and the rest of the file.
unfoldable pub fgets : ℕ → List ℕ → List ℕ × List ℕ
fgets zero text = ([], text)
fgets (suc n) [] = ([], [])
fgets (suc n) (c ∷ text) =
    let later = fgets n text in if c == 10 then (c ∷ [], text) else (c ∷ later.0, later.1)

-- The loop of `load_file`, with `n` lines left in a buffer of `max_lines`.
unfoldable pub load_lines : ℕ → ℕ → List ℕ → Buffer → Buffer
load_lines max_lines zero text b = b
load_lines max_lines (suc n) [] b = b
load_lines max_lines (suc n) (c ∷ text) b =
    let read = fgets (max_line_len - 1) (c ∷ text) in
    load_lines max_lines n read.1 (insert_line max_lines b.count (line_text read.0) b)

-- The buffer after `memset`.
abbrev pub empty_buffer : ℕ → Buffer
empty_buffer max_lines = record {
  lines = replicate max_lines (replicate max_line_len 0);
  count = 0;
}

-- The `strncpy` of a path into `filename`, an array of 32.
abbrev pub file_name : List ℕ → List ℕ
file_name path = take 31 path

-- `buffer_init` of ned, where a missing `path` is the empty one.
abbrev pub ned_init : {M : Type 0} → List ℕ → M → Ned M
ned_init path mem = record {
  buffer = empty_buffer ned_lines;
  filename = file_name path;
  file = none;
  mem = mem;
}

-- `load_file` of ned; `found` is the file of that name.
unfoldable pub load_file : {M : Type 0} → List ℕ → Option (List ℕ) → Ned M → Ned M
load_file path none s = s
load_file path (some text) s = record s {
  buffer = load_lines ned_lines (ned_lines - s.buffer.count) text s.buffer;
  filename = file_name path;
}

-- `buffer_init` of vini, and the variables of its loop.
abbrev pub vini_init : {M : Type 0} → M → Vini M
vini_init mem = record {
  lines = replicate (vini_lines * max_line_len) 0;
  count = 0;
  row = 0;
  col = 0;
  insert_mode = false;
  prev = 0;
  yank = [];
  file = none;
  mem = mem;
}

-- `load_file` of vini: a file that cannot be opened is an empty line.
unfoldable pub load_vini : {M : Type 0} → Option (List ℕ) → Vini M → Vini M
load_vini none s = record s {
  lines = strncpy max_line_len (10 ∷ []) ++ drop max_line_len s.lines;
  count = 1;
}
load_vini (some text) s =
    with_buffer (load_lines vini_lines (vini_lines - s.count) text (buffer_of s)) s

-- One round of `command_loop`, with the key and the input after it: whether the loop goes on, the
-- input left and the state.
unfoldable pub vini_step :
    {M : Type 0} → Eeprom M → ℕ → ℕ → List ℕ → Vini M → Bool × List ℕ × Vini M
vini_step rom ee ch input s =
    let typed = fgets 31 input in
    let command = colon_key rom ee (line_text typed.0) s in
    if not s.insert_mode && ch == b':'
    then (command.0, typed.1, command.1)
    else if not s.insert_mode && ch == b'/'
    then (true, typed.1, slash_key rom ee (line_text typed.0) s)
    else (true, input, key rom ee ch s)
