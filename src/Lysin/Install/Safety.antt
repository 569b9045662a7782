-- ===== src/Lysin/Install/Safety.antt =====
-- What an installation that succeeds has installed (lysin/src/ops/install.rs).
use lysine_os.Base.{
  ℕ, true, false, not, ◌&&◌, ◌||◌, List, [], ◌∷◌, ◌≡◌, refl, sym, ◌∙◌, ap, subst, inl, inr, arith,
  Text, text_eq, text_eq_iff, any, any-append, retain, Result, ok, err, All, All-weaken,
  Result-cases, Bool-cases,
}
use lysine_os.Store.Digest.{to_prefixed}
use lysine_os.Repository.Index.{IndexEntry}
use lysine_os.Lysin.LocalDb.{InstalledPackage, LocalDb, add, is_installed}
use lysine_os.Lysin.Remove.{dep_name}
use lysine_os.Lysin.Repos.{LysinError, find_package_in_repos}
use lysine_os.Lysin.Repos.Newer.{AllIndexed, find_package_in_repos-name}
use lysine_os.Lysin.Install.{
  Env, Session, resolve_prot_path, verify, installed_package, extract_and_record, install_single,
  install_dependencies, install,
}

names-kept :
    (ps : List InstalledPackage) (name other : Text)
    → any (λ p. text_eq p.name other) (retain (λ p. not (text_eq p.name name)) ps)
      ≡ (not (text_eq name other) && any (λ p. text_eq p.name other) ps)
unfolding retain
names-kept [] name other = ground arith
names-kept (p ∷ ps) name other = ground (
  arith,
  names-kept ps name other,
  text_eq_iff p.name name,
  text_eq_iff p.name other,
  text_eq_iff name other,
)

pub is_installed-add :
    (db : LocalDb) (p : InstalledPackage) (name : Text)
    → is_installed (add db p) name ≡ (text_eq p.name name || is_installed db name)
unfolding is_installed add
is_installed-add db p name = ground (
  arith,
  names-kept db.packages p.name name,
  any-append (λ (q : InstalledPackage). text_eq q.name name)
      (retain (λ q. not (text_eq q.name p.name)) db.packages) (p ∷ []),
)

-- What was installed still is.
abbrev pub Keeps : LocalDb → LocalDb → Type 0
Keeps db db' = (n : Text) → is_installed db n ≡ true → is_installed db' n ≡ true

Keeps-add : (db : LocalDb) (p : InstalledPackage) → Keeps db (add db p)
Keeps-add db p n h = ground (arith, is_installed-add db p n)

module _ (env : Env) where
  extract-Keeps :
      (entry : IndexEntry) (content : List ℕ) (st : Session)
      → Keeps st.memory (extract_and_record env entry content st).0.memory
  unfolding extract_and_record
  extract-Keeps entry content st n h =
      ground (arith, Keeps-add st.memory (installed_package env entry (env.unpack content).0) n h)

  extract-ok :
      (entry : IndexEntry) (content : List ℕ) (st : Session)
      → (extract_and_record env entry content st).1 ≡ ok tt
      → ((extract_and_record env entry content st).0.memory
          ≡ add st.memory (installed_package env entry (env.unpack content).0))
        × ((extract_and_record env entry content st).0.saved
            ≡ (extract_and_record env entry content st).0.memory)
  unfolding extract_and_record
  extract-ok entry content st e = ground arith

  verify-ok :
      (entry : IndexEntry) (file : Result Text (List ℕ)) (content : List ℕ)
      → verify env entry file ≡ ok content
      → (file ≡ ok content) × (to_prefixed (env.sha256 content) ≡ entry.sha256)
  unfolding verify
  verify-ok entry (err x) content v = absurd (ground arith)
  verify-ok entry (ok c) content v =
      ground (arith, text_eq_iff (to_prefixed (env.sha256 c)) entry.sha256)

  install_single-Keeps :
      (name : Text) (st : Session) → Keeps st.memory (install_single env name st).0.memory
  unfolding install_single
  install_single-Keeps name st n h =
      elim (Result-cases (find_package_in_repos name env.repositories)) [
        | inr (x, q) ↦ rw (q, install_single) h
        | inl ((entry, root), q) ↦ elim (Result-cases (resolve_prot_path env entry root)) [
          | inr (x, q2) ↦ rw (q, install_single, q2) h
          | inl (file, q2) ↦ elim (Result-cases (verify env entry file)) [
            | inr (x, q3) ↦ rw (q, install_single, q2, q3) h
            | inl (content, q3) ↦
                rw (q, install_single, q2, q3) (extract-Keeps entry content st n h)
          ]
        ]
      ]

  pub install_single-verified :
      (name : Text) (st : Session)
      → (install_single env name st).1 ≡ ok tt
      → (entry : IndexEntry) × (root : Text) × (content : List ℕ) × (find_package_in_repos name
            env.repositories
          ≡ ok (entry, root))
        × (resolve_prot_path env entry root ≡ ok (ok content))
        × (to_prefixed (env.sha256 content) ≡ entry.sha256)
        × ((install_single env name st).0.memory
            ≡ add st.memory (installed_package env entry (env.unpack content).0))
        × ((install_single env name st).0.saved ≡ (install_single env name st).0.memory)
  unfolding install_single
  install_single-verified name st e =
      elim (Result-cases (find_package_in_repos name env.repositories)) [
        | inr (x, q) ↦ absurd (ground (arith, rw (q, install_single) at e))
        | inl ((entry, root), q) ↦ elim (Result-cases (resolve_prot_path env entry root)) [
          | inr (x, q2) ↦ absurd (ground (arith, rw (q, install_single, q2) at e))
          | inl (file, q2) ↦ elim (Result-cases (verify env entry file)) [
            | inr (x, q3) ↦ absurd (ground (arith, rw (q, install_single, q2, q3) at e))
            | inl (content, q3) ↦
                let (same_file, hash) = verify-ok entry file content q3 in
                let (mem, sav) =
                  extract-ok entry content st (rw (q, install_single, q2, q3) at e) in
                (
                  entry,
                  root,
                  content,
                  q,
                  q2 ∙ ap ok same_file,
                  hash,
                  rw (q, install_single, q2, q3) mem,
                  rw (q, install_single, q2, q3) sav,
                )
          ]
        ]
      ]

  -- The three ways in which a round of the loop goes.
  step-installed :
      (dep : Text) (deps : List Text) (st : Session)
      → is_installed st.memory (dep_name dep) ≡ true
      → install_dependencies env (dep ∷ deps) st ≡ install_dependencies env deps st
  unfolding install_dependencies
  step-installed dep deps st e = rw (e, install_dependencies) refl

  step-failed :
      (dep : Text) (deps : List Text) (st : Session) (x : LysinError)
      → is_installed st.memory (dep_name dep) ≡ false
      → (install_single env (dep_name dep) st).1 ≡ err x
      → install_dependencies env (dep ∷ deps) st ≡ ((install_single env (dep_name dep) st).0, err x)
  unfolding install_dependencies
  step-failed dep deps st x e q = rw (e, install_dependencies, q) refl

  step-done :
      (dep : Text) (deps : List Text) (st : Session) {u : Unit {0}}
      → is_installed st.memory (dep_name dep) ≡ false
      → (install_single env (dep_name dep) st).1 ≡ ok u
      → install_dependencies env (dep ∷ deps) st
        ≡ install_dependencies env deps (install_single env (dep_name dep) st).0
  unfolding install_dependencies
  step-done dep deps st e q = rw (e, install_dependencies, q) refl

  start : List Text → LocalDb → Session
  start disk db = record { disk = disk; memory = db; saved = db }

  install-installed :
      (name : Text) (disk : List Text) (db : LocalDb)
      → is_installed db name ≡ true
      → install env name disk db ≡ (start disk db, ok tt)
  unfolding install start
  install-installed name disk db e = rw (e, install) refl

  install-steps :
      (name : Text) (disk : List Text) (db : LocalDb)
      → is_installed db name ≡ false
      → (install env name disk db).1 ≡ ok tt
      → (entry : IndexEntry) × (root : Text) × (find_package_in_repos name env.repositories
          ≡ ok (entry, root))
        × ((install_dependencies env entry.depends.runtime (start disk db)).1 ≡ ok tt)
        × (install env name disk db
            ≡ install_single env name
                (install_dependencies env entry.depends.runtime (start disk db)).0)
  unfolding install start
  install-steps name disk db n e =
      elim (Result-cases (find_package_in_repos name env.repositories)) [
        | inr (x, q) ↦ absurd (ground (arith, rw (n, install, q) at e))
        | inl ((entry, root), q) ↦
            elim (Result-cases (install_dependencies env entry.depends.runtime (start disk db)).1) [
              | inr (x, q2) ↦ absurd (ground (arith, rw (n, install, q, q2) at e))
              | inl (u, q2) ↦ (entry, root, q, q2, rw (n, install, q, q2) refl)
            ]
      ]

  module _ (indexed : AllIndexed env.repositories) where
    single-is_installed :
        (name : Text) (st : Session)
        → (install_single env name st).1 ≡ ok tt
        → is_installed (install_single env name st).0.memory name ≡ true
    single-is_installed name st e =
        let (entry, root, content, q, _, _, mem, _) = install_single-verified name st e in
        let p = installed_package env entry (env.unpack content).0 in
        let same = find_package_in_repos-name name env.repositories entry root indexed q in
        rw mem (
          is_installed-add st.memory p name
          ∙ ground (
            arith,
            text_eq_iff (installed_package env entry (env.unpack content).0).name name,
            named entry (env.unpack content).0,
            same,
          ))
      where
        named :
            (entry : IndexEntry) (files : List Text)
            → (installed_package env entry files).name ≡ entry.name
        named entry files = unfold installed_package in refl

    -- What the loop over the dependencies promises of its outcome.
    Progress : LocalDb → List Text → Session × Result LysinError (Unit {0}) → Type 0
    Progress db deps out =
        Keeps db out.0.memory
        × (out.1 ≡ ok tt → All (λ dep. is_installed out.0.memory (dep_name dep) ≡ true) deps)

    dependencies-Progress :
        (deps : List Text) (st : Session)
        → Progress st.memory deps (install_dependencies env deps st)
    unfolding install_dependencies Progress
    dependencies-Progress [] st = ((λ n h. h), (λ e. tt))
    dependencies-Progress (dep ∷ deps) st =
        elim (Bool-cases (is_installed st.memory (dep_name dep))) [
          | inl e ↦
              let (keeps, done) = dependencies-Progress deps st in
              subst (Progress st.memory (dep ∷ deps)) (sym (step-installed dep deps st e))
                (keeps, (λ r. (keeps (dep_name dep) e, done r)))
          | inr e ↦ elim (Result-cases (install_single env (dep_name dep) st).1) [
            | inr (x, q) ↦
                subst (Progress st.memory (dep ∷ deps)) (sym (step-failed dep deps st x e q))
                  ((install_single-Keeps (dep_name dep) st), (λ r. absurd (ground (arith, r))))
            | inl (u, q) ↦
                let (keeps, done) =
                  dependencies-Progress deps (install_single env (dep_name dep) st).0 in
                subst (Progress st.memory (dep ∷ deps)) (sym (step-done dep deps st e q)) (
                  (λ n h. keeps n (install_single-Keeps (dep_name dep) st n h)),
                  (λ r. (keeps (dep_name dep) (single-is_installed (dep_name dep) st q), done r)),
                )
          ]
        ]

    -- Every runtime dependency of the package is in the database.
    Runtime : Text → LocalDb → Type 0
    Runtime name db =
        (entry : IndexEntry) × (root : Text) × (find_package_in_repos name env.repositories
          ≡ ok (entry, root))
        × All (λ dep. is_installed db (dep_name dep) ≡ true) entry.depends.runtime

    Complete : Text → LocalDb → Session × Result LysinError (Unit {0}) → Type 0
    Complete name db out =
        (is_installed out.0.saved name ≡ true)
        × Keeps db out.0.saved
        × (is_installed db name ≡ false → Runtime name out.0.saved)

    -- If `install` succeeds, the package is in the database that was saved, with every package that was
    -- installed before; and if it was not installed before, so is every package that its entry names as
    -- a runtime dependency. The indexes of the repositories are in order.
    pub install_complete :
        (name : Text) (disk : List Text) (db : LocalDb)
        → (install env name disk db).1 ≡ ok tt
        → (is_installed (install env name disk db).0.saved name ≡ true)
          × Keeps db (install env name disk db).0.saved
          × (is_installed db name ≡ false
              → (entry : IndexEntry) × (root : Text) × (find_package_in_repos name env.repositories
                  ≡ ok (entry, root))
                × All
                    (λ dep. is_installed (install env name disk db).0.saved (dep_name dep) ≡ true)
                    entry.depends.runtime)
    unfolding Complete Runtime start Progress
    install_complete name disk db e = elim (Bool-cases (is_installed db name)) [
      | inl there ↦
          subst (Complete name db) (sym (install-installed name disk db there))
            (there, (λ n h. h), (λ absent. absurd (ground (arith, there, absent))))
      | inr absent ↦
          let (entry, root, q, q2, steps) = install-steps name disk db absent e in
          let st = (install_dependencies env entry.depends.runtime (start disk db)).0 in
          let (keeps, done) = dependencies-Progress entry.depends.runtime (start disk db) in
          let done_last =
            ap (λ (out : Session × Result LysinError (Unit {0})). out.1) (sym steps) ∙ e in
          let (_, _, _, _, _, _, _, same) = install_single-verified name st done_last in
          subst (Complete name db) (sym steps) (
            subst
              (λ s.
                (is_installed s name ≡ true)
                × Keeps db s
                × (is_installed db name ≡ false → Runtime name s))
              (sym same)
              (
                single-is_installed name st done_last,
                (λ n h. install_single-Keeps name st n (keeps n h)),
                (λ _. (
                  entry,
                  root,
                  q,
                  All-weaken (λ dep. is_installed st.memory (dep_name dep) ≡ true)
                      (λ dep.
                        is_installed (install_single env name st).0.memory (dep_name dep) ≡ true)
                      (λ dep h. install_single-Keeps name st (dep_name dep) h) entry.depends.runtime
                      (done q2),
                )),
              ))
    ]
