-- ===== src/Editor/Commands.antt =====
-- Command lines of examples/ned.c: changes of lines between a copy to the EEPROM and back.
use avrix.Editor.Copy.{eeprom_load-eeprom_save, IsRow}
use avrix.Editor.Rows.{
  rows, replace_line-IsBuffer, delete_line-IsBuffer, insert_line-IsBuffer, IsBuffer,
}
use avrix.NkFs.{Eeprom}
use avrix.NkFs.Search.{IsRom}
use avrix.Editor.{
  eeprom_load, eeprom_save, leaves, max_line_len, replace_line, ned_run, delete_line, line_index,
  insert_line, edit_command, starts_with, ned_step, goes_on, Buffer, Ned, Scan, Outcome,
}
use avrix.Base.{
  ◌==◌, Bool-cases, Option-cases, All, ℕ, ◌+◌, ◌*◌, ◌≤◌, ◌≡◌, refl, inl, inr, List, [], ◌∷◌, ◌++◌,
  arith,
}

-- A command line that changes lines: e, i, a or d, and its arguments.
pub data IsEdit : List ℕ → Type 0 where
  replaces : (args : List ℕ) → IsEdit (b'e' ∷ args)
  inserts : (args : List ℕ) → IsEdit (b'i' ∷ args)
  appends : (args : List ℕ) → IsEdit (b'a' ∷ args)
  deletes : (args : List ℕ) → IsEdit (b'd' ∷ args)

pub data AllEdits : List (List ℕ) → Type 0 where
  no_more : AllEdits []
  more : {cmd : List ℕ} {cmds : List (List ℕ)} → IsEdit cmd → AllEdits cmds → AllEdits (cmd ∷ cmds)

module _ {M : Type 0} (rom : Eeprom M) (scan : Scan) (ee : ℕ) where
  -- The outcome of a command that may change the buffer and nothing else.
  record Edited (s : Ned M) (o : Outcome M) : Type 0 where
    buffer : Buffer
    outcome : o ≡ goes_on (record s { buffer = buffer })
    valid : IsBuffer 16 buffer

  edit-Edited :
      (cmd : List ℕ) (s : Ned M)
      → IsEdit cmd
      → IsBuffer 16 s.buffer
      → Edited s (ned_step rom scan ee cmd s)
  unfolding ned_step starts_with edit_command
  edit-Edited cmd s (replaces args) v = elim (Option-cases (scan.number_text args)) [
    | inl e ↦ rw e (record { buffer = s.buffer; outcome = refl; valid = v })
    | inr ((line, text), e) ↦ rw e (elim (Bool-cases (line == 0)) [
      | inl zero_line ↦ rw zero_line (record { buffer = s.buffer; outcome = refl; valid = v })
      | inr numbered ↦ rw numbered (record {
        buffer = replace_line (line_index line) text s.buffer;
        outcome = refl;
        valid = replace_line-IsBuffer 16 (line_index line) text s.buffer v;
      })
    ])
  ]
  edit-Edited cmd s (inserts args) v = elim (Option-cases (scan.number_text args)) [
    | inl e ↦ rw e (record { buffer = s.buffer; outcome = refl; valid = v })
    | inr ((line, text), e) ↦ rw e (record {
      buffer = insert_line 16 (line_index line) text s.buffer;
      outcome = refl;
      valid = insert_line-IsBuffer 16 (line_index line) text s.buffer v;
    })
  ]
  edit-Edited cmd s (appends args) v = elim (Option-cases (scan.text args)) [
    | inl e ↦ rw e (record { buffer = s.buffer; outcome = refl; valid = v })
    | inr (text, e) ↦ rw e (record {
      buffer = insert_line 16 s.buffer.count text s.buffer;
      outcome = refl;
      valid = insert_line-IsBuffer 16 s.buffer.count text s.buffer v;
    })
  ]
  edit-Edited cmd s (deletes args) v = elim (Option-cases (scan.number args)) [
    | inl e ↦ rw e (record { buffer = s.buffer; outcome = refl; valid = v })
    | inr (line, e) ↦ rw e (record {
      buffer = delete_line (line_index line) s.buffer;
      outcome = refl;
      valid = delete_line-IsBuffer 16 (line_index line) s.buffer v;
    })
  ]

  -- A run of such commands goes on with the same EEPROM.
  run-Edited :
      (cmds rest : List (List ℕ)) (s : Ned M)
      → AllEdits cmds
      → IsBuffer 16 s.buffer
      → (b : Buffer) × (ned_run rom scan ee (cmds ++ rest) s
          ≡ ned_run rom scan ee rest (record s { buffer = b }))
        × IsBuffer 16 b
  unfolding ned_run
  run-Edited cmds rest s no_more v = (s.buffer, refl, v)
  run-Edited cmds rest s (more {cmd = cmd} {cmds = later} edit edits) v =
      let x = edit-Edited cmd s edit v in
      let (b, run, valid) = run-Edited later rest (record s { buffer = x.buffer }) edits x.valid in
      (b, rw (x.outcome, ned_run) run, valid)

  -- After E, any commands that change lines, and L, the buffer has the rows that it had at E, if
  -- its copy fits in the EEPROM.
  pub save-edit-load :
      (laws : IsRom rom) (cmds : List (List ℕ)) (args args' : List ℕ) (s : Ned M)
      → AllEdits cmds
      → IsBuffer 16 s.buffer
      → All IsRow s.buffer.lines
      → ee + 1 + s.buffer.count * max_line_len ≤ 1024
      → (s' : Ned M) × (ned_run rom scan ee ((b'E' ∷ args) ∷ (cmds ++ ((b'L' ∷ args') ∷ []))) s
          ≡ leaves s')
        × (rows s'.buffer ≡ rows s.buffer)
        × (s'.mem ≡ eeprom_save rom ee s.buffer s.mem)
  unfolding ned_run ned_step starts_with edit_command
  save-edit-load laws cmds args args' s edits v bytes fits =
      let copied = record s { mem = eeprom_save rom ee s.buffer s.mem } in
      let (b, run, valid) = run-Edited cmds ((b'L' ∷ args') ∷ []) copied edits v in
      (
        record copied { buffer = eeprom_load rom 16 ee b copied.mem },
        run,
        eeprom_load-eeprom_save rom laws 16 ee s.buffer b s.mem v valid bytes (omega arith) fits,
        refl,
      )
