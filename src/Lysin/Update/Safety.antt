-- ===== src/Lysin/Update/Safety.antt =====
-- An update never replaces a package by an older one, and never loses one
-- (lysin/src/ops/update.rs).
use lysine_os.Base.{
  ℕ, true, false, none, some, List, [], ◌∷◌, ◌≡◌, refl, sym, ◌∙◌, ap, subst, ◌⊎◌, inl, inr, arith,
  Text, text_eq, text_eq_iff, text_eq_refl, ok, All, Option-cases, Result-cases, Bool-cases,
  distinct, any,
}
use lysine_os.Repository.Index.{IndexEntry}
use lysine_os.Lysin.LocalDb.{InstalledPackage, LocalDb, add, find, find_package}
use lysine_os.Lysin.LocalDb.Laws.{names, has_distinct_names, find-add}
use lysine_os.Lysin.Repos.{find_newer_version}
use lysine_os.Lysin.Repos.Choice.{IsNewer, is_update-IsNewer}
use lysine_os.Lysin.Repos.Newer.{AllIndexed, find_newer_version_sound}
use lysine_os.Lysin.Install.{Env, Session, verify, installed_package, extract_and_record}
use lysine_os.Lysin.Update.{
  Candidate, collect_updates, remove_old, update_single, Tally, apply_updates, update,
}

-- The new record has a later version, or the same version and a higher release.
abbrev pub IsUpdate : InstalledPackage → InstalledPackage → Type 0
IsUpdate old new = IsNewer new.version new.release old.version old.release

-- Each package of the first database is in the second, as it was or updated, and no other is.
abbrev pub Improves : LocalDb → LocalDb → Type 0
Improves db db' =
    (name : Text)
    → ((find db name ≡ none) × (find db' name ≡ none))
      ⊎ ((old : InstalledPackage) × (new : InstalledPackage) × (find db name ≡ some old)
          × (find db' name ≡ some new)
          × ((new ≡ old) ⊎ IsUpdate old new))

-- What `collect_updates` promises of a candidate.
abbrev IsCandidate : LocalDb → Candidate → Type 0
IsCandidate db (old, entry, root) =
    (find db old.name ≡ some old)
    × (entry.name ≡ old.name)
    × IsNewer entry.version entry.release old.version old.release

both :
    {A : Type 0} {P Q R : A → Type 0} (xs : List A)
    → ((a : A) → P a → Q a → R a)
    → All P xs
    → All Q xs
    → All R xs
both [] f p q = tt
both (x ∷ xs) f (p, ps) (q, qs) = (f x p q, both xs f ps qs)

names_apart :
    (name : Text) (ps : List InstalledPackage)
    → any (text_eq name) (names ps) ≡ false
    → All (λ q. text_eq name q.name ≡ false) ps
names_apart name [] h = tt
names_apart name (q ∷ ps) h = (ground arith, names_apart name ps (ground arith))

each_found :
    (ps : List InstalledPackage)
    → distinct (names ps) ≡ true
    → All (λ p. find_package ps p.name ≡ some p) ps
unfolding find_package distinct
each_found [] h = tt
each_found (p ∷ ps) h = (
  ground (arith, text_eq_refl p.name),
  both ps (λ q apart found. ground (arith, apart, found)) (names_apart p.name ps (ground arith))
      (each_found ps (ground arith)),
)

module _ (env : Env) (db : LocalDb) where
  add-Improves :
      (mem : LocalDb) (old : InstalledPackage) (entry : IndexEntry) (root : Text)
      (files : List Text)
      → IsCandidate db (old, entry, root)
      → Improves db mem
      → Improves db (add mem (installed_package env entry files))
  unfolding installed_package
  add-Improves mem old entry root files (f, same, newer) h name =
      let found = (find-add mem (installed_package env entry files)).0 name in
      elim (Bool-cases (text_eq entry.name name)) [
        | inl e ↦
            let here = sym same ∙ (text_eq_iff entry.name name).0 e in
            inr (
              old,
              installed_package env entry files,
              subst (λ n. find db n ≡ some old) here f,
              found ∙ ground (arith, e),
              inr newer,
            )
        | inr e ↦
            let kept = found ∙ ground (arith, e) in
            subst
              (λ o.
                ((find db name ≡ none) × (o ≡ none))
                ⊎ ((p : InstalledPackage) × (q : InstalledPackage) × (find db name ≡ some p)
                    × (o ≡ some q)
                    × ((q ≡ p) ⊎ IsUpdate p q)))
              (sym kept) (h name)
      ]

  -- What one update does to the two databases.
  States : IndexEntry → Session → Session → Type 0
  States entry st st' =
      ((st'.memory ≡ st.memory)
        ⊎ ((files : List Text) × (st'.memory ≡ add st.memory (installed_package env entry files))))
      × ((st'.saved ≡ st.saved) ⊎ (st'.saved ≡ st'.memory))

  extract-States :
      (entry : IndexEntry) (content : List ℕ) (st : Session)
      → States entry st (extract_and_record env entry content st).0
  unfolding extract_and_record States
  extract-States entry content st =
      let (files, failure) = env.unpack content in
      let db' = add st.memory (installed_package env entry files) in
      elim (Option-cases (env.unpack content).1) [
        | inr (x, e) ↦ rw (e, extract_and_record) (inl refl, inl refl)
        | inl e ↦ elim (Bool-cases (env.saves db')) [
          | inl s ↦ rw (e, extract_and_record, s) (inr (files, refl), inr refl)
          | inr s ↦ rw (e, extract_and_record, s) (inr (files, refl), inl refl)
        ]
      ]

  single-States :
      (old : InstalledPackage) (entry : IndexEntry) (root : Text) (st : Session)
      → States entry st (update_single env old entry root st).0
  unfolding update_single States
  single-States old entry root st = elim (Option-cases (env.package_file root entry.filename)) [
    | inl e ↦ rw (e, update_single) (inl refl, inl refl)
    | inr (file, e) ↦ elim (Result-cases (verify env entry file)) [
      | inr (x, v) ↦ rw (e, update_single, v) (inl refl, inl refl)
      | inl (content, v) ↦
          rw (e, update_single, v)
            (extract-States entry content
              (record st { disk = remove_old env.can_remove old.files st.disk }))
    ]
  ]

  BothImprove : Session → Type 0
  BothImprove st = Improves db st.memory × Improves db st.saved

  single-BothImprove :
      (old : InstalledPackage) (entry : IndexEntry) (root : Text) (st : Session)
      → IsCandidate db (old, entry, root)
      → BothImprove st
      → BothImprove (update_single env old entry root st).0
  unfolding BothImprove States
  single-BothImprove old entry root st c (m, s) =
      let (mem, sav) = single-States old entry root st in
      let after = memory_after mem in (after, saved_after after sav)
    where
      st' : Session
      st' = (update_single env old entry root st).0

      memory_after :
          (st'.memory ≡ st.memory)
            ⊎ ((files : List Text) × (st'.memory
                  ≡ add st.memory (installed_package env entry files)))
          → Improves db st'.memory
      memory_after (inl e) = subst (Improves db) (sym e) m
      memory_after (inr (files, e)) =
          subst (Improves db) (sym e) (add-Improves st.memory old entry root files c m)

      saved_after :
          Improves db st'.memory
          → (st'.saved ≡ st.saved) ⊎ (st'.saved ≡ st'.memory)
          → Improves db st'.saved
      saved_after after (inl e) = subst (Improves db) (sym e) s
      saved_after after (inr e) = subst (Improves db) (sym e) after

  apply-BothImprove :
      (todo : List Candidate) (st : Session) (t : Tally)
      → All (IsCandidate db) todo
      → BothImprove st
      → BothImprove (apply_updates env todo st t).0
  unfolding apply_updates
  apply-BothImprove [] st t c h = h
  apply-BothImprove ((old, entry, root) ∷ todo) st t (c, cs) h =
      apply-BothImprove todo (update_single env old entry root st).0 _ cs
        (single-BothImprove old entry root st c h)

  module _ (indexed : AllIndexed env.repositories) where
    collect-IsCandidate :
        (ps : List InstalledPackage)
        → All (λ p. find db p.name ≡ some p) ps
        → All (IsCandidate db) (collect_updates env.repositories ps)
    unfolding collect_updates
    collect-IsCandidate [] h = tt
    collect-IsCandidate (p ∷ ps) (h, hs) =
        let rest = collect-IsCandidate ps hs in
        elim (Result-cases (find_newer_version p.name p.version p.release env.repositories)) [
          | inr (x, e) ↦ subst (All (IsCandidate db)) (sym (rw (e, collect_updates) refl)) rest
          | inl (found, e) ↦ elim (Option-cases found) [
            | inl n ↦ subst (All (IsCandidate db)) (sym (rw (e, collect_updates, n) refl)) rest
            | inr ((entry, root), n) ↦
                let step : collect_updates env.repositories (p ∷ ps)
                    ≡ (p, entry, root) ∷ collect_updates env.repositories ps =
                  rw (e, collect_updates, n) refl in
                let newer =
                  find_newer_version_sound p.name p.version p.release env.repositories entry root
                    indexed (e ∙ ap ok n) in
                subst (All (IsCandidate db)) (sym step)
                  ((h, newer.0, (is_update-IsNewer entry p.version p.release).0 newer.1), rest)
          ]
        ]

    -- An update, whatever fails in it, leaves every installed package in place or replaces it by a
    -- newer one, both in memory and in the database that was saved, and adds no other. A package is
    -- newer when its version is above the old one in the order of the number triples, or is the greater
    -- text where one of the two is no version, or when the two versions are the same text and its
    -- release is higher. Conditions: no two installed packages have one name, and the indexes of the
    -- repositories are in order.
    pub update-Improves :
        (disk : List Text)
        → has_distinct_names db ≡ true
        → Improves db (update env disk db).0.memory × Improves db (update env disk db).0.saved
    unfolding update BothImprove has_distinct_names
    update-Improves disk unique =
        apply-BothImprove (collect_updates env.repositories db.packages)
          (record { disk = disk; memory = db; saved = db }) _
          (collect-IsCandidate db.packages (unfold find in each_found db.packages unique))
          (Improves_refl, Improves_refl)
      where
        Improves_refl : Improves db db
        Improves_refl name = elim (Option-cases (find db name)) [
          | inl e ↦ inl (e, e)
          | inr (p, e) ↦ inr (p, p, e, e, inl refl)
        ]
