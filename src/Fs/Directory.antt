-- ===== src/Fs/Directory.antt =====
-- The directory of src/fs.c as a finite map from names to inode numbers.
use avrix.Fs.Names.{strcmp_equal_iff, present, absent, strncmp_equal_iff, find_from_lem, Found}
use avrix.Fs.{strcmp_equal, strncmp_equal, name_at, inode_at, find_strncmp, find_strcmp, Fs}
use mathlib.Core.Logic.{◌↔◌}
use avrix.Base.{
  ◌==◌, length, ℕ, ◌<◌, ◌≡◌, sym, ap, ◌∙◌, ◌⊎◌, inl, inr, true, false, not, ◌&&◌, Option, none,
  some, List, arith,
}

-- Inode `i` is in use and has this name.
pub record Entry (fs : Fs) (i : ℕ) (name : List ℕ) : Type 0 where
  pub inside : i < 16
  pub in_use : 0 < (inode_at fs i).type
  pub named : name_at fs i ≡ name

-- The tables have their sizes; the names in use are short, not empty, and differ.
pub record IsFs (fs : Fs) : Type 0 where
  pub inode_count : length fs.inodes ≡ 16
  pub name_count : length fs.dir_name ≡ 16
  pub short : (i : ℕ) → i < 16 → 0 < (inode_at fs i).type → length (name_at fs i) < 14
  pub some_name : (i : ℕ) → i < 16 → 0 < (inode_at fs i).type → 0 < length (name_at fs i)
  pub unique :
      (i j : ℕ)
      → i < 16
      → j < 16
      → 0 < (inode_at fs i).type
      → 0 < (inode_at fs j).type
      → name_at fs i ≡ name_at fs j
      → i ≡ j

module _ (fs : Fs) (v : IsFs fs) (name : List ℕ) where
  -- The test of `fs_open` and `fs_unlink` at an index in range.
  strncmp_test :
      (i : ℕ)
      → i < 16
      → (not ((inode_at fs i).type == 0) && strncmp_equal 14 (name_at fs i) name ≡ true)
        ↔ Entry fs i name
  strncmp_test i h = (to, from)
    where
      to :
          (not ((inode_at fs i).type == 0) && strncmp_equal 14 (name_at fs i) name ≡ true)
          → Entry fs i name
      to e =
          let busy : 0 < (inode_at fs i).type = ground arith in
          record {
            inside = h;
            in_use = busy;
            named = (strncmp_equal_iff 14 (name_at fs i) name (v.short i h busy)).0 (ground arith);
          }

      from :
          Entry fs i name
          → not ((inode_at fs i).type == 0) && strncmp_equal 14 (name_at fs i) name ≡ true
      from e =
          let busy = e.in_use in
          let equal = (strncmp_equal_iff 14 (name_at fs i) name (v.short i h busy)).1 e.named in
          ground (arith, equal)

  Found-Entry :
      (i : ℕ) {result : Option ℕ}
      → Entry fs i name
      → Found
          (λ j. not ((inode_at fs j).type == 0) && strncmp_equal 14 (name_at fs j) name)
          0
          16
          result
      → result ≡ some i
  Found-Entry i e (absent r all) = cc ((strncmp_test i e.inside).1 e, all i (omega arith) e.inside)
  Found-Entry i e (present k r low lt yes_k before) =
      let e' = (strncmp_test k lt).0 yes_k in
      r ∙ ap some (v.unique k i lt e.inside e'.in_use e.in_use (e'.named ∙ sym e.named))

  Found-none :
      {result : Option ℕ}
      → ((i : ℕ) → Entry fs i name → ⊥)
      → Found
          (λ j. not ((inode_at fs j).type == 0) && strncmp_equal 14 (name_at fs j) name)
          0
          16
          result
      → result ≡ none
  Found-none no_entry (absent r all) = r
  Found-none no_entry (present k r low lt yes_k before) =
      absurd (no_entry k ((strncmp_test k lt).0 yes_k))

  pub find-Entry : (i : ℕ) → Entry fs i name → find_strncmp name fs ≡ some i
  unfolding find_strncmp
  find-Entry i e = Found-Entry i e (find_from_lem _ 16 0 16 (omega arith))

  pub find_none : ((i : ℕ) → Entry fs i name → ⊥) → find_strncmp name fs ≡ none
  unfolding find_strncmp
  find_none no_entry = Found-none no_entry (find_from_lem _ 16 0 16 (omega arith))

  Found-cases :
      {result : Option ℕ}
      → Found
          (λ j. not ((inode_at fs j).type == 0) && strncmp_equal 14 (name_at fs j) name)
          0
          16
          result
      → ((i : ℕ) × Entry fs i name × (result ≡ some i))
        ⊎ ((result ≡ none) × ((i : ℕ) → Entry fs i name → ⊥))
  Found-cases (absent r all) =
      inr
        (r, λ i e. true_false (sym ((strncmp_test i e.inside).1 e) ∙ all i (omega arith) e.inside))
    where
      true_false : true ≡ false → ⊥
      true_false p = cc
  Found-cases (present k r low lt yes_k before) = inl (k, (strncmp_test k lt).0 yes_k, r)

  -- Either one entry has the name, and is found, or none has it.
  pub find-cases :
      ((i : ℕ) × Entry fs i name × (find_strncmp name fs ≡ some i))
      ⊎ ((find_strncmp name fs ≡ none) × ((i : ℕ) → Entry fs i name → ⊥))
  unfolding find_strncmp
  find-cases = Found-cases (find_from_lem _ 16 0 16 (omega arith))

-- The search of `fs_create` for a name that is taken.
strcmp_cases_of :
    (fs : Fs) (name : List ℕ) {result : Option ℕ}
    → Found (λ j. not ((inode_at fs j).type == 0) && strcmp_equal (name_at fs j) name) 0 16 result
    → ((i : ℕ) × Entry fs i name × (result ≡ some i))
      ⊎ ((result ≡ none) × ((i : ℕ) → Entry fs i name → ⊥))
strcmp_cases_of fs name (absent r all) = inr (
  r,
  λ i e.
      let equal = (strcmp_equal_iff (name_at fs i) name).1 e.named in
      let busy = e.in_use in let no = all i (omega arith) e.inside in ground (arith, equal, no),
)
strcmp_cases_of fs name (present k r low lt yes_k before) =
    let busy : 0 < (inode_at fs k).type = ground arith in
    inl (
      k,
      record {
        inside = lt;
        in_use = busy;
        named = (strcmp_equal_iff (name_at fs k) name).0 (ground arith);
      },
      r,
    )

pub strcmp-cases :
    (fs : Fs) (name : List ℕ)
    → ((i : ℕ) × Entry fs i name × (find_strcmp name fs ≡ some i))
      ⊎ ((find_strcmp name fs ≡ none) × ((i : ℕ) → Entry fs i name → ⊥))
unfolding find_strcmp
strcmp-cases fs name = strcmp_cases_of fs name (find_from_lem _ 16 0 16 (omega arith))
