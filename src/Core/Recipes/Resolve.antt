-- ===== src/Core/Recipes/Resolve.antt =====
-- Which recipe is taken for a package (`resolve` of ribosome-core/src/mrna_index.rs).
use lysine_os.Base.{
  true, false, Option, none, some, List, [], ◌∷◌, ◌≡◌, ◌≢◌, refl, subst, ◌⊎◌, inl, inr, Text,
  text_eq, text_eq→eq, text_lt, All, Elem, Bool-cases, Option-cases, Result, ok,
}
use lysine_os.Base.Maps.{map_get}
use lysine_os.Parser.Model.{MrnaFile}
use lysine_os.Parser.Validate.Format.{Formats}
use lysine_os.Parser.Validate.{parse_mrna_file}
use lysine_os.Core.Profile.{PackageSpec}
use lysine_os.Core.Recipes.{
  MrnaEntry, MrnaIndex, WalkedFile, is_mrna, last, scan, find_exact, find_version, resolve,
}
use lysine_os.Core.Recipes.Sorted.{Sorted, last-Elem, last-Sorted}
use lysine_os.Core.Recipes.Listed.{scan-Sorted, scan-IsListed}

-- The version that is asked for: that of the specification, or else the locked one.
unfoldable pub wanted : MrnaIndex → PackageSpec → Option Text
wanted index spec = elim spec.version [ some v ↦ some v | none ↦ map_get index.locked spec.name ]

-- The entry has the version.
abbrev Exact : Text → List MrnaEntry → MrnaEntry → Type 0
Exact w es e = Elem e es × (e.version ≡ w)

-- No version of the list is later as a text.
abbrev Latest : List MrnaEntry → MrnaEntry → Type 0
Latest es e = Elem e es × All (λ f. text_lt e.version f.version ≡ false) es

-- The choice among the versions of a package.
abbrev pub Chosen : Option Text → List MrnaEntry → MrnaEntry → Type 0
Chosen none es e = Latest es e
Chosen (some w) es e = Exact w es e ⊎ (All (λ f. text_eq f.version w ≡ false) es × Latest es e)

last-some : (es : List MrnaEntry) → es ≢ [] → (e : MrnaEntry) × (last es ≡ some e)
unfolding last
last-some [] n = absurd (n refl)
last-some (e ∷ []) n = (e, refl)
last-some (e ∷ f ∷ es) n = last-some (f ∷ es) (λ q. cc q)

find_exact-cases :
    (w : Text) (es : List MrnaEntry)
    → ((e : MrnaEntry) × (find_exact w es ≡ some e) × Exact w es e)
      ⊎ ((find_exact w es ≡ none) × All (λ f. text_eq f.version w ≡ false) es)
unfolding find_exact
find_exact-cases w [] = inr (refl, tt)
find_exact-cases w (x ∷ xs) = elim (Bool-cases (text_eq x.version w)) [
  | inl b ↦ rw (b, find_exact) (inl (x, refl, (inl refl, text_eq→eq x.version w b)))
  | inr b ↦ elim (find_exact-cases w xs) [
    | inl (e, q, (i, v)) ↦ rw (b, find_exact) (inl (e, q, (inr i, v)))
    | inr (q, h) ↦ rw (b, find_exact) (inr (q, (refl, h)))
  ]
]

Latest-last :
    (es : List MrnaEntry) → Sorted es → es ≢ [] → (e : MrnaEntry) × (last es ≡ some e) × Latest es e
Latest-last es h n = let (e, q) = last-some es n in (e, q, (last-Elem es e q, last-Sorted es e h q))

find_version-Chosen :
    (w : Text) (es : List MrnaEntry)
    → Sorted es
    → es ≢ []
    → (e : MrnaEntry) × (find_version w es ≡ some e) × Chosen (some w) es e
unfolding find_version
find_version-Chosen w es h n = elim (find_exact-cases w es) [
  | inl (e, q, exact) ↦ (e, rw (q, find_version) refl, inl exact)
  | inr (q, no_match) ↦
      let (e, l, latest) = Latest-last es h n in (e, rw (q, find_version) l, inr (no_match, latest))
]

resolve-Chosen :
    (index : MrnaIndex) (spec : PackageSpec) (es : List MrnaEntry)
    → map_get index.packages spec.name ≡ some es
    → Sorted es
    → es ≢ []
    → (e : MrnaEntry) × (resolve index spec ≡ some e) × Chosen (wanted index spec) es e
unfolding resolve wanted
resolve-Chosen index spec es found h n = elim (Option-cases spec.version) [
  | inr (w, v) ↦
      let (e, q, chosen) = find_version-Chosen w es h n in
      rw (found, resolve, v, wanted) (e, q, chosen)
  | inl v ↦ elim (Option-cases (map_get index.locked spec.name)) [
    | inr (w, l) ↦
        let (e, q, chosen) = find_version-Chosen w es h n in
        rw (found, resolve, v, wanted, l) (e, q, chosen)
    | inl l ↦
        let (e, q, latest) = Latest-last es h n in rw (found, resolve, v, wanted, l) (e, q, latest)
  ]
]

-- Whatever versions are locked, `resolve` finds a recipe for the name of each recipe that the scan
-- reads: it is listed for the name, and has the version that is asked for by the specification, or
-- else by the lock, if there is one such; otherwise no version for the name is later as a text.
pub resolve_correct :
    (formats : Formats) (from_yaml : Text → Result Text MrnaFile) (files : List WalkedFile)
    (locked : List (Text × Text)) (spec : PackageSpec) (file : WalkedFile) (mrna : MrnaFile)
    → Elem file files
    → is_mrna file.file_name ≡ true
    → parse_mrna_file formats from_yaml file.read ≡ ok mrna
    → mrna.name ≡ spec.name
    → let index : MrnaIndex = record {
      packages = (scan formats from_yaml files).packages;
      locked = locked;
    } in
      (es : List MrnaEntry) × (e : MrnaEntry) × (map_get index.packages spec.name ≡ some es)
      × Elem (record { version = mrna.version; path = file.path }) es
      × (resolve index spec ≡ some e)
      × Chosen (wanted index spec) es e
resolve_correct formats from_yaml files locked spec file mrna i b q same =
    let (es, found, listed) = scan-IsListed formats from_yaml files file mrna i b q in
    let index : MrnaIndex = record {
      packages = (scan formats from_yaml files).packages;
      locked = locked;
    } in
    let found' : map_get index.packages spec.name ≡ some es =
      subst (λ n. map_get index.packages n ≡ some es) same found in
    let (sorted, full) = scan-Sorted formats from_yaml files spec.name es found' in
    let (e, r, chosen) = resolve-Chosen index spec es found' sorted full in
    (es, e, found', listed, r, chosen)
