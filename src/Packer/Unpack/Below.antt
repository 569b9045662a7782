-- ===== src/Packer/Unpack/Below.antt =====
-- The paths that `unpack` makes of the paths in an archive (ribosome-package/src/packer.rs).
use lysine_os.Base.{
  false, some, [], ◌∷◌, ◌++◌, ◌≡◌, refl, ap, ◌∙◌, subst, inl, inr, arith, Text, Result, ok, err,
  any, All, Option-cases, Bool-cases,
}
use lysine_os.Packer.{TarEntry, FilePath, Component, root_dir, parent_dir, cur_dir, normal}
use lysine_os.Packer.Unpack.{
  is_parent_dir, strip_files, join_path, parent_of_one, parent, extract, verdict,
}

-- A component that stays below the directory.
abbrev pub Stays : Component → Type 0
Stays root_dir = ⊥
Stays parent_dir = ⊥
Stays cur_dir = Unit
Stays (normal n) = Unit

-- The path is the directory or leads to something below it.
pub record IsBelow (target path : FilePath) : Type 0 where
  pub rest : FilePath
  pub split : path ≡ target ++ rest
  pub stays : All Stays rest

-- `Path::components` gives the root at the front only.
abbrev pub NotRoot : Component → Type 0
NotRoot root_dir = ⊥
NotRoot parent_dir = Unit
NotRoot cur_dir = Unit
NotRoot (normal n) = Unit

abbrev pub IsPath : FilePath → Type 0
IsPath [] = Unit
IsPath (c ∷ path) = All NotRoot path

abbrev pub EntryIsPath : Result Text TarEntry → Type 0
EntryIsPath (ok entry) = IsPath entry.path
EntryIsPath (err e) = Unit

Stays-cases : (c : Component) → NotRoot c → is_parent_dir c ≡ false → Stays c
unfolding is_parent_dir
Stays-cases root_dir h k = h
Stays-cases parent_dir h k = absurd (ground (arith, k))
Stays-cases cur_dir h k = tt
Stays-cases (normal n) h k = tt

Stays-All : (p : FilePath) → All NotRoot p → any is_parent_dir p ≡ false → All Stays p
Stays-All [] h k = tt
Stays-All (c ∷ p) (n, h) k =
    (Stays-cases c n (ground (arith, k)), Stays-All p h (ground (arith, k)))

join_path-NotRoot : (target p : FilePath) → All NotRoot p → join_path target p ≡ target ++ p
unfolding join_path
join_path-NotRoot target [] h = refl
join_path-NotRoot target (root_dir ∷ p) (n, h) = absurd n
join_path-NotRoot target (parent_dir ∷ p) h = refl
join_path-NotRoot target (cur_dir ∷ p) h = refl
join_path-NotRoot target (normal n ∷ p) h = refl

strip_files-NotRoot : (p rest : FilePath) → IsPath p → strip_files p ≡ some rest → All NotRoot rest
unfolding strip_files
strip_files-NotRoot [] rest h e = absurd (ground (arith, e))
strip_files-NotRoot (root_dir ∷ p) rest h e = absurd (ground (arith, e))
strip_files-NotRoot (parent_dir ∷ p) rest h e = absurd (ground (arith, e))
strip_files-NotRoot (cur_dir ∷ p) rest h e = absurd (ground (arith, e))
strip_files-NotRoot (normal n ∷ p) rest h e = subst (All NotRoot) (same e) h
  where
    same : strip_files (normal n ∷ p) ≡ some rest → p ≡ rest
    same q = ground (arith, q)

parent-Stays :
    (c : Component) (rest p : FilePath)
    → All Stays (c ∷ rest)
    → parent (c ∷ rest) ≡ some p
    → All Stays p
unfolding parent parent_of_one
parent-Stays root_dir [] p (h, hs) e = absurd h
parent-Stays parent_dir [] p (h, hs) e = absurd h
parent-Stays cur_dir [] p h e =
    let none_left : [] ≡ p = ground (arith, e) in subst (All Stays) none_left tt
parent-Stays (normal n) [] p h e =
    let none_left : [] ≡ p = ground (arith, e) in subst (All Stays) none_left tt
parent-Stays c (d ∷ rest) p (h, hs) e = elim (Option-cases (parent (d ∷ rest))) [
  | inl q ↦ absurd (ground (arith, e, q))
  | inr (r, q) ↦
      let same : c ∷ r ≡ p = ground (arith, e, q) in
      subst (All Stays) same (h, parent-Stays d rest r hs q)
]

IsBelow-cons :
    (t : Component) (target p : FilePath) → IsBelow target p → IsBelow (t ∷ target) (t ∷ p)
IsBelow-cons t target p h = record {
  rest = h.rest;
  split = ap (λ r. t ∷ r) h.split;
  stays = h.stays;
}

pub parent-IsBelow :
    (target : FilePath) (c : Component) (rest p : FilePath)
    → All Stays (c ∷ rest)
    → parent (target ++ c ∷ rest) ≡ some p
    → IsBelow target p
unfolding parent
parent-IsBelow [] c rest p h e = record {
  rest = p;
  split = refl;
  stays = parent-Stays c rest p h e;
}
parent-IsBelow (t ∷ []) c rest p h e = elim (Option-cases (parent (c ∷ rest))) [
  | inl q ↦ absurd (ground (arith, e, q))
  | inr (r, q) ↦
      subst (IsBelow (t ∷ [])) (ground (arith, e, q))
        (IsBelow-cons t [] r (parent-IsBelow [] c rest r h q))
]
parent-IsBelow (t ∷ u ∷ target) c rest p h e =
    elim (Option-cases (parent (u ∷ (target ++ c ∷ rest)))) [
      | inl q ↦ absurd (ground (arith, e, q))
      | inr (r, q) ↦
          subst (IsBelow (t ∷ u ∷ target)) (ground (arith, e, q))
            (IsBelow-cons t (u ∷ target) r (parent-IsBelow (u ∷ target) c rest r h q))
    ]

-- The path leads to something below the directory, not to the directory itself.
abbrev pub IsInside : FilePath → FilePath → Type 0
IsInside target path =
    (c : Component) × (rest : FilePath) × (path ≡ target ++ c ∷ rest) × All Stays (c ∷ rest)

pub verdict-IsInside :
    (target path : FilePath) (entry : TarEntry)
    → IsPath entry.path
    → verdict target entry ≡ extract path
    → IsInside target path
unfolding verdict
verdict-IsInside target path entry h e = elim (Option-cases (strip_files entry.path)) [
  | inl q ↦ absurd (ground (arith, e, q))
  | inr ([], q) ↦ absurd (ground (arith, e, q))
  | inr (c ∷ rest, q) ↦ elim (Bool-cases (any is_parent_dir (c ∷ rest))) [
    | inl k ↦ absurd (ground (arith, e, q, k))
    | inr k ↦
        let n = strip_files-NotRoot entry.path (c ∷ rest) h q in
        let at : path ≡ join_path target (c ∷ rest) = ground (arith, e, q, k) in
        (c, rest, at ∙ join_path-NotRoot target (c ∷ rest) n, Stays-All (c ∷ rest) n k)
  ]
]
