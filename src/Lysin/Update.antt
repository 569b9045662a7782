-- ===== src/Lysin/Update.antt =====
-- ribosome/crates/lysin/src/ops/update.rs: the update of all installed packages.
pub mod Safety
use lysine_os.Base.{
  ℕ, suc, Bool, true, false, not, Option, none, some, List, [], ◌∷◌, ◌++◌, Text, text_eq,
  if◌then◌else◌, any, retain, Result, ok, err,
}
use lysine_os.Store.Digest.{to_prefixed}
use lysine_os.Repository.Index.{IndexEntry}
use lysine_os.Lysin.LocalDb.{InstalledPackage, LocalDb}
use lysine_os.Lysin.Repos.{Repo, LysinError, file_not_found, Located, find_newer_version}
use lysine_os.Lysin.Install.{Env, Session, verify, extract_and_record}

-- The installed package, and the entry that is newer with the root of its repository.
abbrev pub Candidate : Type 0
Candidate = InstalledPackage × IndexEntry × Text

-- The first loop: a package whose check fails is passed over.
unfoldable pub collect_updates : List Repo → List InstalledPackage → List Candidate
collect_updates repos [] = []
collect_updates repos (p ∷ ps) =
    let rest = collect_updates repos ps in
    elim (find_newer_version p.name p.version p.release repos) [
      | err _ ↦ rest
      | ok found ↦ elim found [ none ↦ rest | some (entry, root) ↦ (p, entry, root) ∷ rest ]
    ]

-- The loop over the old files: a file that cannot be removed stays.
unfoldable pub remove_old : (Text → Bool) → List Text → List Text → List Text
remove_old can_remove [] disk = disk
remove_old can_remove (file ∷ files) disk =
    remove_old can_remove files
      (if can_remove file then retain (λ f. not (text_eq f file)) disk else disk)

unfoldable pub update_single :
    Env → InstalledPackage → IndexEntry → Text → Session → Session × Result LysinError (Unit {0})
update_single env old_pkg new_entry root st = elim (env.package_file root new_entry.filename) [
  | none ↦ (st, err (file_not_found new_entry.filename))
  | some file ↦ elim (verify env new_entry file) [
    | err e ↦ (st, err e)
    | ok content ↦
        extract_and_record env new_entry content
          (record st { disk = remove_old env.can_remove old_pkg.files st.disk })
  ]
]

-- How many packages were updated, and how many updates failed.
pub record Tally : Type 0 where
  pub updated : ℕ
  pub failed : ℕ

-- The second loop: a failed update does not end it.
unfoldable pub apply_updates : Env → List Candidate → Session → Tally → Session × Tally
apply_updates env [] st t = (st, t)
apply_updates env ((old_pkg, entry, root) ∷ rest) st t =
    let (st', r) = update_single env old_pkg entry root st in
    apply_updates env rest st' (elim r [
      | ok _ ↦ record t { updated = suc t.updated }
      | err _ ↦ record t { failed = suc t.failed }
    ])

-- The whole command; with nothing to update the second loop does nothing.
unfoldable pub update : Env → List Text → LocalDb → Session × Tally
update env disk db =
    apply_updates env (collect_updates env.repositories db.packages)
      (record { disk = disk; memory = db; saved = db }) (record { updated = 0; failed = 0 })
