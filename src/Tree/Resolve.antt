-- ===== src/Tree/Resolve.antt =====
-- Opening a path of drivers/fs/romfs.c and drivers/fs/eepfs.c, against the names it is made of.
use avrix.Tree.{
  type_file, type_dir, lookup, Entry, open_path, segment, seg_max, walk, slash, Tables, skip_slash,
  use_entry, stop, opens, descends,
}
use avrix.Base.{
  ltb, ◌==◌, if◌then◌else◌, ==-false_of_ne, Option-cases, if_false, length, All, length-append, ℕ,
  zero, suc, ◌≤◌, ◌<◌, ◌≡◌, refl, ap, ◌∙◌, ◌≢◌, inl, inr, ◌&&◌, Option, none, some, List, [], ◌∷◌,
  ◌++◌, arith,
}

-- The path with a slash before each name.
unfoldable pub join : List (List ℕ) → List ℕ
join [] = []
join (name ∷ []) = name
join (name ∷ (next ∷ names)) = name ++ (slash ∷ join (next ∷ names))

-- What an entry is, if its index is one of its table.
unfoldable pub file_of : Tables → Option Entry → Option ℕ
file_of t none = none
file_of t (some e) = if e.type == type_file && ltb e.idx t.file_count then some e.idx else none

unfoldable pub dir_of : Tables → Option Entry → Option ℕ
dir_of t none = none
dir_of t (some e) =
    if e.type == type_dir && ltb e.idx (length t.dir_table) then some e.idx else none

-- The file that names lead to: all but the last are directories.
unfoldable pub resolve : Tables → ℕ → List (List ℕ) → Option ℕ
resolve t dir [] = none
resolve t dir (name ∷ []) = file_of t (lookup t dir name)
resolve t dir (name ∷ (next ∷ names)) = elim (dir_of t (lookup t dir name)) [
  | none ↦ none
  | some sub ↦ resolve t sub (next ∷ names)
]

-- A name of a segment's length, without a slash.
abbrev pub IsName : List ℕ → Type 0
IsName name = (0 < length name) × (length name ≤ seg_max) × All (λ c. c ≢ slash) name

segment-last :
    (n : ℕ) (name : List ℕ)
    → length name ≤ n
    → All (λ c. c ≢ slash) name
    → segment n name ≡ (name, [])
unfolding segment
segment-last zero [] h a = refl
segment-last (suc n) [] h a = refl
segment-last zero (c ∷ cs) h a = absurd (omega arith)
segment-last (suc n) (c ∷ cs) h (a, later) =
    rw (==-false_of_ne c slash a, segment-last n cs (omega arith) later) refl

segment-slash :
    (n : ℕ) (name rest : List ℕ)
    → length name ≤ n
    → All (λ c. c ≢ slash) name
    → segment n (name ++ (slash ∷ rest)) ≡ (name, slash ∷ rest)
unfolding segment
segment-slash zero [] rest h a = refl
segment-slash (suc n) [] rest h a = refl
segment-slash zero (c ∷ cs) rest h a = absurd (omega arith)
segment-slash (suc n) (c ∷ cs) rest h (a, later) =
    rw (==-false_of_ne c slash a, segment-slash n cs rest (omega arith) later) refl

skip_slash-join : (names : List (List ℕ)) → All IsName names → skip_slash (join names) ≡ join names
unfolding skip_slash join
skip_slash-join [] h = refl
skip_slash-join ([] ∷ names) h = absurd (omega arith)
skip_slash-join ((c ∷ cs) ∷ []) h = if_false _ _ (==-false_of_ne c slash h.0.2.0)
skip_slash-join ((c ∷ cs) ∷ (next ∷ names)) h = if_false _ _ (==-false_of_ne c slash h.0.2.0)

-- The round of the loop after the segment is split off.
abbrev round : Tables → ℕ → ℕ → List ℕ × List ℕ → Option ℕ
round t fuel dir split = elim (use_entry t (skip_slash split.1) (lookup t dir split.0)) [
  | stop ↦ none
  | opens idx ↦ some idx
  | descends idx ↦ walk t fuel idx (skip_slash split.1)
]

walk-round :
    (t : Tables) (fuel dir : ℕ) (p : List ℕ)
    → 0 < length p
    → walk t (suc fuel) dir p ≡ round t fuel dir (segment seg_max p)
unfolding walk
walk-round t fuel dir [] h = absurd (omega arith)
walk-round t fuel dir (c ∷ cs) h = refl

walk-empty : (t : Tables) (fuel dir : ℕ) → walk t fuel dir [] ≡ none
unfolding walk
walk-empty t zero dir = refl
walk-empty t (suc fuel) dir = refl

entry-last :
    (t : Tables) (fuel : ℕ) (o : Option Entry)
    → elim (use_entry t [] o) [
      | stop ↦ none
      | opens idx ↦ some idx
      | descends idx ↦ walk t fuel idx []
    ]
      ≡ file_of t o
unfolding use_entry file_of
entry-last t fuel none = refl
entry-last t fuel (some e) = ground (arith, walk-empty t fuel e.idx)

entry-more :
    (t : Tables) (fuel : ℕ) (rest : List ℕ) (o : Option Entry)
    → 0 < length rest
    → elim (use_entry t rest o) [
      | stop ↦ none
      | opens idx ↦ some idx
      | descends idx ↦ walk t fuel idx rest
    ]
      ≡ elim (dir_of t o) [ none ↦ none | some sub ↦ walk t fuel sub rest ]
unfolding use_entry dir_of
entry-more t fuel rest none more = refl
entry-more t fuel rest (some e) more = ground arith

length-join :
    (name : List ℕ) (names : List (List ℕ)) → 0 < length name → 0 < length (join (name ∷ names))
unfolding join
length-join name [] h = h
length-join name (next ∷ names) h = omega (arith, length-append name (slash ∷ join (next ∷ names)))

-- Fuel for all the characters is enough.
walk-join :
    (t : Tables) (fuel dir : ℕ) (names : List (List ℕ))
    → All IsName names
    → length (join names) ≤ fuel
    → walk t fuel dir (join names) ≡ resolve t dir names
unfolding join resolve walk skip_slash
walk-join t zero dir [] h enough = refl
walk-join t (suc fuel) dir [] h enough = refl
walk-join t zero dir (name ∷ []) ((some_name, short, clean), later) enough = absurd (omega arith)
walk-join t zero dir (name ∷ (next ∷ names)) ((some_name, short, clean), later) enough =
    absurd (omega (arith, length-append name (slash ∷ join (next ∷ names))))
walk-join t (suc fuel) dir (name ∷ []) ((some_name, short, clean), later) enough =
    walk-round t fuel dir name some_name
    ∙ ap (round t fuel dir) (segment-last seg_max name short clean)
    ∙ entry-last t fuel (lookup t dir name)
walk-join t (suc fuel) dir (name ∷ (next ∷ names)) ((some_name, short, clean), later) enough =
    let rest = join (next ∷ names) in
    walk-round t fuel dir (name ++ (slash ∷ rest))
      (omega (arith, length-append name (slash ∷ rest)))
    ∙ ap (round t fuel dir) (segment-slash seg_max name rest short clean)
    ∙ entry-more t fuel rest (lookup t dir name) (length-join next names later.0.0)
    ∙ elim (Option-cases (dir_of t (lookup t dir name))) [
      | inl e ↦ rw (e, resolve) refl
      | inr (sub, e) ↦
          rw (e, resolve)
            (walk-join t fuel sub (next ∷ names) later
              (omega (arith, length-append name (slash ∷ rest))))
    ]

-- Opening the path of some names, with or without a slash before it, finds the file that the names
-- lead to from the root, each but the last one naming a directory, and nothing if they do not lead
-- to a file. The names are not empty, have no slash, and have at most eleven characters each.
pub open_path-resolve :
    (t : Tables) (names : List (List ℕ))
    → All IsName names
    → (open_path t (join names) ≡ resolve t t.root_dir names)
      × (open_path t (slash ∷ join names) ≡ resolve t t.root_dir names)
unfolding open_path skip_slash
open_path-resolve t names h = (
  rw (skip_slash-join names h) (walk-join t _ t.root_dir names h (omega arith)),
  walk-join t _ t.root_dir names h (omega arith),
)
