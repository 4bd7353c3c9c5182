-- ===== src/Fs/Ends.antt =====
-- The loop of `fs_write` in src/fs.c ends, and the handle moves by what is reported.
use avrix.Fs.Data.{file_at}
use avrix.Fs.Files.{settled}
use avrix.Fs.{File, Fs}
use avrix.Fs.Io.{fs_write, ensure_block, block_index, write_loop}
use avrix.Base.{
  ltb, leb, if◌then◌else◌, Bool-cases, Option-cases, length, drop, length-drop, u16, ℕ, zero, suc,
  ◌+◌, ◌-◌, ◌%◌, ◌≤◌, ◌<◌, ◌≡◌, refl, ap, ◌∙◌, inl, inr, Bool, true, false, Option, some, List, [],
  ◌∷◌, arith,
}

-- What the writing loop over `p` from `off` returns.
record Wrote (off : ℕ) (p : List ℕ) (result : Option (Bool × Fs × ℕ × List ℕ)) : Type 0 where
  done : Bool
  fs' : Fs
  off' : ℕ
  left : List ℕ
  ends : result ≡ some (done, fs', off', left)
  short : length left ≤ length p
  moved : u16 off' ≡ u16 (off + (length p - length left))
  finished : done ≡ true → length left ≡ 0

Wrote-later :
    (off n : ℕ) (p : List ℕ) {result : Option (Bool × Fs × ℕ × List ℕ)}
    → n ≤ length p
    → Wrote (u16 (off + n)) (drop n p) result
    → Wrote off p result
Wrote-later off n p h w =
    let l = length-drop n p in
    let m = w.moved in
    let k = w.short in
    record {
      done = w.done;
      fs' = w.fs';
      off' = w.off';
      left = w.left;
      ends = w.ends;
      short = omega arith;
      moved = omega arith;
      finished = w.finished;
    }

Wrote-stop :
    (off : ℕ) (p : List ℕ) (fs : Fs) {result : Option (Bool × Fs × ℕ × List ℕ)}
    → result ≡ some (false, fs, off, p)
    → Wrote off p result
Wrote-stop off p fs e = record {
  done = false;
  fs' = fs;
  off' = off;
  left = p;
  ends = e;
  short = omega arith;
  moved = omega arith;
  finished = λ q. cc;
}

write_loop-Wrote :
    (fuel inum : ℕ) (fs : Fs) (off : ℕ) (p : List ℕ)
    → length p ≤ fuel
    → Wrote off p (write_loop fuel inum fs off p)
unfolding write_loop
write_loop-Wrote fuel inum fs off [] h = record {
  done = true;
  fs' = fs;
  off' = off;
  left = [];
  ends = refl;
  short = omega arith;
  moved = omega arith;
  finished = λ e. refl;
}
write_loop-Wrote zero inum fs off (x ∷ p) h = absurd (omega arith)
write_loop-Wrote (suc fuel) inum fs off (x ∷ p) h = elim (Bool-cases (leb 4 (block_index off))) [
  | inl high ↦ rw (high, write_loop) (Wrote-stop off (x ∷ p) fs refl)
  | inr low ↦ elim (Option-cases (ensure_block inum (block_index off) fs)) [
    | inl none_left ↦
        rw (low, write_loop) (rw (none_left, write_loop) (Wrote-stop off (x ∷ p) fs refl))
    | inr (fs', e) ↦
        let n = if ltb (length (x ∷ p)) (32 - off % 32) then length (x ∷ p) else 32 - off % 32 in
        let some_bytes : 0 < n = ground arith in
        let not_more : n ≤ length (x ∷ p) = ground arith in
        rw (low, write_loop)
          (rw (e, write_loop)
            (Wrote-later off n (x ∷ p) not_more (
              write_loop-Wrote fuel inum _ (u16 (off + n)) (drop n (x ∷ p))
                (omega (arith, length-drop n (x ∷ p))))))
  ]
]

fs_write-Wrote :
    (f : File) (buf : List ℕ) (fs : Fs)
    → Wrote f.off buf (write_loop (length buf) f.inum fs f.off buf)
    → (n : ℕ) × (fs' : Fs) × (f' : File) × (fs_write f buf fs ≡ some (n, fs', f'))
      × (n ≤ length buf)
      × (f'.inum ≡ f.inum)
      × (u16 f'.off ≡ u16 (f.off + n))
unfolding fs_write
fs_write-Wrote f buf fs w = elim (Bool-cases w.done) [
  | inl all ↦
      let e = w.ends ∙ ap (λ b. some (b, w.fs', w.off', w.left)) all in
      let m = w.moved in
      (
        length buf,
        settled w.fs' f.inum w.off',
        file_at f.inum w.off',
        rw (e, fs_write) refl,
        omega arith,
        refl,
        omega (arith, w.finished all),
      )
  | inr some_left ↦
      let e = w.ends ∙ ap (λ b. some (b, w.fs', w.off', w.left)) some_left in
      (
        length buf - length w.left,
        w.fs',
        file_at f.inum w.off',
        rw (e, fs_write) refl,
        omega arith,
        refl,
        w.moved,
      )
]

-- `fs_write` ends on every handle and buffer; it reports no more bytes than the buffer has, and the
-- handle moves by just as many, modulo 2 ^ 16.
pub fs_write_lem :
    (f : File) (buf : List ℕ) (fs : Fs)
    → (n : ℕ) × (fs' : Fs) × (f' : File) × (fs_write f buf fs ≡ some (n, fs', f'))
      × (n ≤ length buf)
      × (f'.inum ≡ f.inum)
      × (u16 f'.off ≡ u16 (f.off + n))
fs_write_lem f buf fs =
    fs_write-Wrote f buf fs (write_loop-Wrote (length buf) f.inum fs f.off buf (omega arith))
