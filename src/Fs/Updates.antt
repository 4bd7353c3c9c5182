-- ===== src/Fs/Updates.antt =====
-- What a change of one inode and its name does to the directory of src/fs.c.
use mathlib.Core.Path.{subst}
use avrix.Fs.Directory.{find_none, find-Entry, find-cases, IsFs, Entry}
use avrix.Fs.{find_strncmp, inode_at, name_at, Fs}
use native.Mathlib.Decide.{ℕ_discrete}
use avrix.Base.{
  ◌==◌, if◌then◌else◌, ==_iff, ==-false_of_ne, ==_refl, if_true, if_false, length, get_or, set,
  get_or-set_self, get_or-set_ne, ℕ, ◌<◌, ◌≡◌, sym, ap, ◌∙◌, ◌≢◌, inl, inr, true, List, arith,
}

-- The states differ in inode `i` only, which has the type `ty` and the name `nm` in the second.
pub record Changed (fs fs' : Fs) (i ty : ℕ) (nm : List ℕ) : Type 0 where
  pub inode_count : length fs'.inodes ≡ length fs.inodes
  pub name_count : length fs'.dir_name ≡ length fs.dir_name
  pub types : (j : ℕ) → (inode_at fs' j).type ≡ (if i == j then ty else (inode_at fs j).type)
  pub names : (j : ℕ) → name_at fs' j ≡ (if i == j then nm else name_at fs j)

pub get_or-set {ℓ} :
    {A : Type ℓ} (xs : List A) (i j : ℕ) (x d : A)
    → i < length xs
    → get_or (set xs i x) j d ≡ (if i == j then x else get_or xs j d)
get_or-set xs i j x d h = elim (ℕ_discrete i j) [
  | yes e ↦
      let e' : (i == j) ≡ true = (==_iff i j).1 e in
      rw e' (ap (λ k. get_or (set xs i x) k d) (sym e) ∙ get_or-set_self xs i x d h)
  | no ne ↦ rw (==-false_of_ne i j ne) (get_or-set_ne xs i j x d ne)
]

module _ (fs fs' : Fs) (i ty : ℕ) (nm : List ℕ) (c : Changed fs fs' i ty nm) where
  pub types_here : (inode_at fs' i).type ≡ ty
  types_here = c.types i ∙ if_true _ _ (==_refl i)

  pub names_here : name_at fs' i ≡ nm
  names_here = c.names i ∙ if_true _ _ (==_refl i)

  types_away : (j : ℕ) → i ≢ j → (inode_at fs' j).type ≡ (inode_at fs j).type
  types_away j ne = c.types j ∙ if_false _ _ (==-false_of_ne i j ne)

  names_away : (j : ℕ) → i ≢ j → name_at fs' j ≡ name_at fs j
  names_away j ne = c.names j ∙ if_false _ _ (==-false_of_ne i j ne)

  pub Entry-new : i < 16 → 0 < ty → Entry fs' i nm
  Entry-new h busy = record { inside = h; in_use = omega (arith, types_here); named = names_here }

  -- Entries of other inodes stay, and no others come in.
  pub Entry-keep : (j : ℕ) (name : List ℕ) → i ≢ j → Entry fs j name → Entry fs' j name
  Entry-keep j name ne e = record {
    inside = e.inside;
    in_use = let k = e.in_use in omega (arith, types_away j ne);
    named = names_away j ne ∙ e.named;
  }

  pub Entry-old : (j : ℕ) (name : List ℕ) → i ≢ j → Entry fs' j name → Entry fs j name
  Entry-old j name ne e = record {
    inside = e.inside;
    in_use = let k = e.in_use in omega (arith, types_away j ne);
    named = sym (names_away j ne) ∙ e.named;
  }

  -- What is found under a name that the change is not about stays.
  pub find_same :
      IsFs fs
      → IsFs fs'
      → (name : List ℕ) → (Entry fs i name → ⊥)
      → (Entry fs' i name → ⊥)
      → find_strncmp name fs' ≡ find_strncmp name fs
  find_same v v' name before after = elim (find-cases fs v name) [
    | inl (j, e, found) ↦
        let ne : i ≢ j = λ same. before (subst (λ k. Entry fs k name) (sym same) e) in
        find-Entry fs' v' name j (Entry-keep j name ne e) ∙ sym found
    | inr (missing, no_entry) ↦
        find_none fs' v' name (λ j e. elim (ℕ_discrete i j) [
          | yes same ↦ after (subst (λ k. Entry fs' k name) (sym same) e)
          | no ne ↦ no_entry j (Entry-old j name ne e)
        ])
        ∙ sym missing
  ]

  -- The directory stays in order if the new name, once in use, is short and not taken.
  pub changed-IsFs :
      IsFs fs
      → (0 < ty → length nm < 14)
      → (0 < ty → 0 < length nm)
      → (0 < ty → (j : ℕ) → Entry fs j nm → ⊥)
      → IsFs fs'
  changed-IsFs v short some_name free = record {
    inode_count = c.inode_count ∙ v.inode_count;
    name_count = c.name_count ∙ v.name_count;
    short = λ j h busy. elim (ℕ_discrete i j) [
      | yes same ↦
          let busy' : 0 < ty = rw (← types_here) (rw (← same) at busy) in
          rw (← same, names_here) (short busy')
      | no ne ↦ rw (names_away j ne) (v.short j h (rw (types_away j ne) at busy))
    ];
    some_name = λ j h busy. elim (ℕ_discrete i j) [
      | yes same ↦
          let busy' : 0 < ty = rw (← types_here) (rw (← same) at busy) in
          rw (← same, names_here) (some_name busy')
      | no ne ↦ rw (names_away j ne) (v.some_name j h (rw (types_away j ne) at busy))
    ];
    unique = λ j k hj hk bj bk e. elim (ℕ_discrete i j) [
      | yes same ↦ elim (ℕ_discrete i k) [
        | yes same' ↦ sym same ∙ same'
        | no ne ↦ absurd (clash k j hk same ne bk bj (sym e))
      ]
      | no ne ↦ elim (ℕ_discrete i k) [
        | yes same' ↦ absurd (clash j k hj same' ne bj bk e)
        | no ne' ↦
            v.unique j k hj hk (rw (types_away j ne) at bj) (rw (types_away k ne') at bk)
              (sym (names_away j ne) ∙ e ∙ names_away k ne')
      ]
    ];
  }
    where
      clash :
          (j k : ℕ)
          → j < 16
          → i ≡ k
          → i ≢ j
          → 0 < (inode_at fs' j).type
          → 0 < (inode_at fs' k).type
          → name_at fs' j ≡ name_at fs' k
          → ⊥
      clash j k hj same ne bj bk e =
          let busy : 0 < ty = rw (← types_here) (rw (← same) at bk) in
          let taken : Entry fs' j nm = record {
            inside = hj;
            in_use = bj;
            named = e ∙ ap (name_at fs') (sym same) ∙ names_here;
          } in
          free busy j (Entry-old j nm ne taken)
