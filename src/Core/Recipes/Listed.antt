-- ===== src/Core/Recipes/Listed.antt =====
-- The recipes that a scan lists under a name (`scan` of ribosome-core/src/mrna_index.rs).
use lysine_os.Base.{
  true, false, none, some, List, [], ◌∷◌, ◌++◌, ◌≡◌, ◌≢◌, refl, sym, ◌∙◌, subst, inl, inr, arith,
  Text, text_eq, text_eq_iff, text_eq_refl, Elem, Bool-cases, Option-cases, Result-cases, Result,
  ok,
}
use lysine_os.Base.Maps.{map_get, map_get-map_put}
use lysine_os.Parser.Model.{MrnaFile}
use lysine_os.Parser.Validate.Format.{Formats}
use lysine_os.Parser.Validate.{parse_mrna_file}
use lysine_os.Core.Recipes.{
  MrnaEntry, WalkedFile, is_mrna, push_entry, sort_versions, sort_packages, scan_file, scan_files,
  scan,
}
use lysine_os.Core.Recipes.Sorted.{Sorted, sort_versions-Sorted, Elem-sort_versions}

map_get-sort_packages :
    (m : List (Text × List MrnaEntry)) (n : Text)
    → map_get (sort_packages m) n
      ≡ (elim (map_get m n) [ none ↦ none | some es ↦ some (sort_versions es) ])
unfolding map_get sort_packages
map_get-sort_packages [] n = refl
map_get-sort_packages ((k, es) ∷ m) n = ground (arith, map_get-sort_packages m n)

Elem-before : (a : MrnaEntry) (xs ys : List MrnaEntry) → Elem a xs → Elem a (xs ++ ys)
Elem-before a [] ys h = absurd h
Elem-before a (x ∷ xs) ys (inl e) = inl e
Elem-before a (x ∷ xs) ys (inr m) = inr (Elem-before a xs ys m)

Elem-snoc : (xs : List MrnaEntry) (a : MrnaEntry) → Elem a (xs ++ a ∷ [])
Elem-snoc [] a = inl refl
Elem-snoc (x ∷ xs) a = inr (Elem-snoc xs a)

-- The entry is listed under the name.
abbrev pub IsListed : List (Text × List MrnaEntry) → Text → MrnaEntry → Type 0
IsListed m n e = (es : List MrnaEntry) × (map_get m n ≡ some es) × Elem e es

-- Every name has an entry.
abbrev IsFull : List (Text × List MrnaEntry) → Type 0
IsFull m = (n : Text) (es : List MrnaEntry) → map_get m n ≡ some es → es ≢ []

snoc-ne-nil : (xs : List MrnaEntry) (a : MrnaEntry) → xs ++ a ∷ [] ≢ []
snoc-ne-nil [] a = cc
snoc-ne-nil (x ∷ xs) a = cc

push_entry_other :
    (m : List (Text × List MrnaEntry)) (n : Text) (e : MrnaEntry) (k : Text)
    → text_eq k n ≡ false
    → map_get (push_entry m n e) k ≡ map_get m k
unfolding push_entry
push_entry_other m n e k h =
    map_get-map_put m n (elim (map_get m n) [ none ↦ e ∷ [] | some es ↦ es ++ e ∷ [] ]) k
    ∙ (rw h refl)

push_entry_self :
    (m : List (Text × List MrnaEntry)) (n : Text) (e : MrnaEntry)
    → (old : List MrnaEntry) × (map_get (push_entry m n e) n ≡ some (old ++ e ∷ []))
      × ((x : MrnaEntry) → IsListed m n x → Elem x old)
unfolding push_entry
push_entry_self m n e = elim (Option-cases (map_get m n)) [
  | inl q ↦ (
    [],
    rw (q, map_get-map_put m n (e ∷ []) n, text_eq_refl n) refl,
    λ x (es, r, i). absurd (ground (arith, q, r)),
  )
  | inr (old, q) ↦ (
    old,
    rw (q, map_get-map_put m n (old ++ e ∷ []) n, text_eq_refl n) refl,
    λ x (es, r, i). let same : es ≡ old = ground (arith, q, r) in subst (Elem x) same i,
  )
]

push_entry-IsListed :
    (m : List (Text × List MrnaEntry)) (n : Text) (e : MrnaEntry) (k : Text) (x : MrnaEntry)
    → IsListed m k x
    → IsListed (push_entry m n e) k x
push_entry-IsListed m n e k x (es, q, i) = elim (Bool-cases (text_eq k n)) [
  | inr b ↦ (es, push_entry_other m n e k b ∙ q, i)
  | inl b ↦
      let same : k ≡ n = (text_eq_iff k n).0 b in
      let (old, found, keeps) = push_entry_self m n e in
      let listed : IsListed m n x = subst (λ t. IsListed m t x) same (es, q, i) in
      subst (λ t. IsListed (push_entry m n e) t x) (sym same)
        (old ++ e ∷ [], found, Elem-before x old (e ∷ []) (keeps x listed))
]

push_entry-IsFull :
    (m : List (Text × List MrnaEntry)) (n : Text) (e : MrnaEntry)
    → IsFull m
    → IsFull (push_entry m n e)
push_entry-IsFull m n e h k es q = elim (Bool-cases (text_eq k n)) [
  | inr b ↦ h k es (sym (push_entry_other m n e k b) ∙ q)
  | inl b ↦
      let same : k ≡ n = (text_eq_iff k n).0 b in
      let (old, found, _) = push_entry_self m n e in
      let q' : map_get (push_entry m n e) n ≡ some es =
        subst (λ t. map_get (push_entry m n e) t ≡ some es) same q in
      let here : old ++ e ∷ [] ≡ es = ground (arith, found, q') in
      subst (λ t. t ≢ []) here (snoc-ne-nil old e)
]

sort_versions-ne_nil : (es : List MrnaEntry) → es ≢ [] → sort_versions es ≢ []
sort_versions-ne_nil [] n q = n refl
sort_versions-ne_nil (e ∷ es) n q = subst (Elem e) q ((Elem-sort_versions e (e ∷ es)).1 (inl refl))

module _ (formats : Formats) (from_yaml : Text → Result Text MrnaFile) where
  scan_file-kept :
      (m : List (Text × List MrnaEntry)) (file : WalkedFile)
      → IsFull m
      → IsFull (scan_file formats from_yaml m file)
        × ((k : Text) (x : MrnaEntry)
            → IsListed m k x
            → IsListed (scan_file formats from_yaml m file) k x)
  unfolding scan_file
  scan_file-kept m file h = elim (Bool-cases (is_mrna file.file_name)) [
    | inr b ↦ rw (b, scan_file) (h, λ k x i. i)
    | inl b ↦ elim (Result-cases (parse_mrna_file formats from_yaml file.read)) [
      | inr (e, q) ↦ rw (b, scan_file, q) (h, λ k x i. i)
      | inl (mrna, q) ↦
          let entry : MrnaEntry = record { version = mrna.version; path = file.path } in
          rw (b, scan_file, q)
            (push_entry-IsFull m mrna.name entry h, push_entry-IsListed m mrna.name entry)
    ]
  ]

  scan_file-added :
      (m : List (Text × List MrnaEntry)) (file : WalkedFile) (mrna : MrnaFile)
      → is_mrna file.file_name ≡ true
      → parse_mrna_file formats from_yaml file.read ≡ ok mrna
      → IsListed
          (scan_file formats from_yaml m file)
          mrna.name
          (record { version = mrna.version; path = file.path })
  unfolding scan_file
  scan_file-added m file mrna b q =
      let entry : MrnaEntry = record { version = mrna.version; path = file.path } in
      let (old, found, _) = push_entry_self m mrna.name entry in
      rw (b, scan_file, q) (old ++ entry ∷ [], found, Elem-snoc old entry)

  scan_files-IsFull :
      (m : List (Text × List MrnaEntry)) (files : List WalkedFile)
      → IsFull m
      → IsFull (scan_files formats from_yaml m files)
  unfolding scan_files
  scan_files-IsFull m [] h = h
  scan_files-IsFull m (file ∷ files) h =
      scan_files-IsFull (scan_file formats from_yaml m file) files (scan_file-kept m file h).0

  scan_files-IsListed :
      (m : List (Text × List MrnaEntry)) (files : List WalkedFile)
      → IsFull m
      → (k : Text) (x : MrnaEntry) → IsListed m k x
      → IsListed (scan_files formats from_yaml m files) k x
  unfolding scan_files
  scan_files-IsListed m [] h k x i = i
  scan_files-IsListed m (file ∷ files) h k x i =
      let (full, keeps) = scan_file-kept m file h in
      scan_files-IsListed (scan_file formats from_yaml m file) files full k x (keeps k x i)

  scan_files-added :
      (m : List (Text × List MrnaEntry)) (files : List WalkedFile)
      → IsFull m
      → (file : WalkedFile) (mrna : MrnaFile) → Elem file files
      → is_mrna file.file_name ≡ true
      → parse_mrna_file formats from_yaml file.read ≡ ok mrna
      → IsListed
          (scan_files formats from_yaml m files)
          mrna.name
          (record { version = mrna.version; path = file.path })
  unfolding scan_files
  scan_files-added m [] h file mrna i b q = absurd i
  scan_files-added m (f ∷ files) h file mrna (inr i) b q =
      scan_files-added (scan_file formats from_yaml m f) files (scan_file-kept m f h).0 file mrna i
        b q
  scan_files-added m (f ∷ files) h file mrna (inl e) b q =
      scan_files-IsListed (scan_file formats from_yaml m f) files (scan_file-kept m f h).0 mrna.name
        (record { version = mrna.version; path = file.path })
        (subst
          (λ g.
            IsListed (scan_file formats from_yaml m g) mrna.name
              (record { version = mrna.version; path = file.path }))
          e (scan_file-added m file mrna b q))

  -- The versions of a scanned package are sorted, and there is at least one.
  pub scan-Sorted :
      (files : List WalkedFile) (n : Text) (es : List MrnaEntry)
      → map_get (scan formats from_yaml files).packages n ≡ some es
      → Sorted es × (es ≢ [])
  unfolding scan map_get
  scan-Sorted files n es h =
      let full = scan_files-IsFull [] files (λ k xs q. absurd (ground (arith, q))) in
      elim (Option-cases (map_get (scan_files formats from_yaml [] files) n)) [
        | inl q ↦
            let none_left : map_get (sort_packages (scan_files formats from_yaml [] files)) n
                ≡ none =
              map_get-sort_packages (scan_files formats from_yaml [] files) n ∙ (rw q refl) in
            absurd (ground (arith, h, none_left))
        | inr (xs, q) ↦
            let sorted : map_get (sort_packages (scan_files formats from_yaml [] files)) n
                ≡ some (sort_versions xs) =
              map_get-sort_packages (scan_files formats from_yaml [] files) n ∙ (rw q refl) in
            let same : sort_versions xs ≡ es = ground (arith, h, sorted) in
            (
              subst Sorted same (sort_versions-Sorted xs),
              subst (λ t. t ≢ []) same (sort_versions-ne_nil xs (full n xs q)),
            )
      ]

  -- Every recipe that the walk finds is listed under its name.
  pub scan-IsListed :
      (files : List WalkedFile) (file : WalkedFile) (mrna : MrnaFile)
      → Elem file files
      → is_mrna file.file_name ≡ true
      → parse_mrna_file formats from_yaml file.read ≡ ok mrna
      → IsListed
          (scan formats from_yaml files).packages
          mrna.name
          (record { version = mrna.version; path = file.path })
  unfolding scan map_get
  scan-IsListed files file mrna i b q =
      let (es, found, listed) =
        scan_files-added [] files (λ k xs r. absurd (ground (arith, r))) file mrna i b q in
      (
        sort_versions es,
        map_get-sort_packages (scan_files formats from_yaml [] files) mrna.name ∙ (rw found refl),
        (Elem-sort_versions (record { version = mrna.version; path = file.path }) es).1 listed,
      )
