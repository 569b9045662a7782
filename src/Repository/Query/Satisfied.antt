-- ===== src/Repository/Query/Satisfied.antt =====
-- When the check of the dependencies finds no issue (ribosome-repository/src/package_query.rs).
use lysine_os.Base.{
  sym, Lacks, ◌⊎◌, Bool-cases, ◌==◌, split_once-none, split_once-append, ℕ, Option, none, some,
  List, [], ◌∷◌, ◌++◌, ◌≡◌, refl, ◌↔◌, ◌≢◌, inl, inr, arith, Text, split_once, All, Option-cases,
  subst,
}
use lysine_os.Repository.Index.{IndexEntry, RepositoryIndex, find}
use lysine_os.Repository.Query.{dependency_name, missing_of, check_dependencies}

-- The dependency is the name, or the name and what stands behind a space.
abbrev pub Names : Text → Text → Type 0
Names dep name = Lacks b' ' name × ((dep ≡ name) ⊎ ((rest : Text) × (dep ≡ name ++ b' ' ∷ rest)))

-- What is split off at a separator stands before it, and does not hold it.
Lacks-split_once : (sep : ℕ) (s : Text) → split_once sep s ≡ none → Lacks sep s
unfolding split_once
Lacks-split_once sep [] e = tt
Lacks-split_once sep (c ∷ s) e = elim (Option-cases (split_once sep s)) [
  | inl q ↦ (ground (arith, e, q), Lacks-split_once sep s q)
  | inr (r, q) ↦ absurd (ground (arith, e, q))
]

split_once-some :
    (sep : ℕ) (s a b : Text) → split_once sep s ≡ some (a, b) → Lacks sep a × (s ≡ a ++ sep ∷ b)
unfolding split_once
split_once-some sep [] a b e = absurd (ground (arith, e))
split_once-some sep (c ∷ s) a b e = elim (Bool-cases (c == sep)) [
  | inl h ↦ ground (arith, e, h)
  | inr h ↦ elim (Option-cases (split_once sep s)) [
    | inl q ↦ absurd (ground (arith, e, h, q))
    | inr ((x, y), q) ↦ ground (arith, e, h, q, split_once-some sep s x y q)
  ]
]

Names-dependency_name : (dep : Text) → Names dep (dependency_name dep)
Names-dependency_name dep = elim (Option-cases (split_once b' ' dep)) [
  | inl q ↦ subst (Names dep) (sym (whole q)) (Lacks-split_once b' ' dep q, inl refl)
  | inr ((n, r), q) ↦
      let (lacks, e) = split_once-some b' ' dep n r q in
      subst (Names dep) (sym (before q)) (lacks, inr (r, e))
]
  where
    whole : split_once b' ' dep ≡ none → dependency_name dep ≡ dep
    whole q = unfold dependency_name in rw (q, dependency_name) refl

    before : {n r : Text} → split_once b' ' dep ≡ some (n, r) → dependency_name dep ≡ n
    before q = unfold dependency_name in rw (q, dependency_name) refl

dependency_name_unique : (dep name : Text) → Names dep name → dependency_name dep ≡ name
unfolding dependency_name
dependency_name_unique dep name (lacks, inl e) =
    subst (λ d. dependency_name d ≡ name) (sym e)
      (rw (dependency_name, split_once-none b' ' name lacks) refl)
dependency_name_unique dep name (lacks, inr (rest, e)) =
    subst (λ d. dependency_name d ≡ name) (sym e)
      (rw (dependency_name, split_once-append b' ' name rest lacks) refl)

-- The index has each package that the dependencies name.
abbrev pub HasAll : RepositoryIndex → List Text → Type 0
HasAll index = All (λ dep. (name : Text) → Names dep name → find index name ≢ none)

missing_of-HasAll :
    (index : RepositoryIndex) (name : Text) (deps : List Text)
    → (missing_of index name deps ≡ []) ↔ HasAll index deps
unfolding missing_of
missing_of-HasAll index name [] = ((λ h. tt), (λ h. refl))
missing_of-HasAll index name (dep ∷ deps) =
    let (only, all_such) = missing_of-HasAll index name deps in
    elim (Option-cases (find index (dependency_name dep))) [
      | inl q ↦ (
        (λ h. absurd (ground (arith, h, q))),
        (λ (here, there). absurd (here (dependency_name dep) (Names-dependency_name dep) q)),
      )
      | inr (e, q) ↦ (
        (λ h. (
          (λ n names.
              subst (λ x. find index x ≢ none) (dependency_name_unique dep n names)
                (λ k. ground (arith, k, q))),
          only (ground (arith, h, q)),
        )),
        (λ (here, there). ground (arith, q, all_such there)),
      )
    ]

append-nil_iff : {A : Type 0} (xs ys : List A) → (xs ++ ys ≡ []) ↔ ((xs ≡ []) × (ys ≡ []))
append-nil_iff [] ys = ground arith
append-nil_iff (x ∷ xs) ys = ground arith

-- If the package is in the index, then so is what its runtime dependencies name.
unfoldable pub IsSatisfied : RepositoryIndex → Text → Type 0
IsSatisfied index name =
    (entry : IndexEntry) → find index name ≡ some entry → HasAll index entry.depends.runtime

same_entry : (d e : IndexEntry) → ◌≡◌ {A = Option IndexEntry} (some d) (some e) → d ≡ e
same_entry d e h = cc

-- No issue is reported exactly when, for each package that is asked for and is in the index, the
-- index has the package of each runtime dependency: its name is the text before the first space of
-- the dependency, or the whole dependency where it has no space.
pub check_dependencies-IsSatisfied :
    (index : RepositoryIndex) (names : List Text)
    → (check_dependencies index names ≡ []) ↔ All (IsSatisfied index) names
unfolding check_dependencies IsSatisfied
check_dependencies-IsSatisfied index [] = ((λ h. tt), (λ h. refl))
check_dependencies-IsSatisfied index (name ∷ names) = elim (Option-cases (find index name)) [
  | inl q ↦
      let (only, all_such) = check_dependencies-IsSatisfied index names in
      rw (q, check_dependencies)
        ((λ h. ((λ e r. absurd (ground (arith, r))), only h)), (λ (s, hs). all_such hs))
  | inr (entry, q) ↦
      let (only, all_such) = check_dependencies-IsSatisfied index names in
      let (no_issue, found) = missing_of-HasAll index name entry.depends.runtime in
      let parts =
        append-nil_iff (missing_of index name entry.depends.runtime)
          (check_dependencies index names) in
      rw (q, check_dependencies)
        (
          (λ h.
              let (here, there) = parts.0 h in
              (
                (λ e r.
                    subst (λ x. HasAll index x.depends.runtime) (same_entry entry e r)
                      (no_issue here)),
                only there,
              )),
          (λ (s, hs). parts.1 (found (s entry refl), all_such hs)),
        )
]
