-- ===== src/Lysin/Install.antt =====
-- ribosome/crates/lysin/src/ops/install.rs: the installation of a package and of its dependencies.
pub mod Safety
use lysine_os.Base.{
  ℕ, suc, Bool, true, false, not, ◌&&◌, Option, none, some, List, [], ◌∷◌, ◌++◌, Text, codes,
  text_eq, if◌then◌else◌, any, Result, ok, err, ◌>>=◌,
}
use lysine_os.Base.Decimal.{format_nat}
use lysine_os.Store.Digest.{panic, Sha256Digest, to_prefixed}
use lysine_os.Store.Vacuole.{VacuoleStore, get}
use lysine_os.Store.Refs.{resolve_ref}
use lysine_os.Repository.Index.{IndexEntry}
use lysine_os.Lysin.LocalDb.{InstalledPackage, LocalDb, add, is_installed}
use lysine_os.Lysin.Remove.{dep_name}
use lysine_os.Lysin.Repos.{
  Repo, LysinError, repository_error, file_not_found, unreadable, hash_mismatch, unpack_failed,
  save_failed, panicked, Located, find_package_in_repos,
}

-- What the system answers during a command.
pub record Env : Type 0 where
  pub repositories : List Repo
  -- The store below the cache directory, if it is there and can be opened.
  pub vacuole : Option VacuoleStore
  -- A file of a repository, by the root and the file name: its content, or why it cannot be read.
  pub package_file : Text → Text → Option (Result Text (List ℕ))
  pub sha256 : List ℕ → Sha256Digest
  -- `unpack` of the crate ribosome-package: the files that it writes, and the error if it fails.
  pub unpack : List ℕ → List Text × Option Text
  -- `Utc::now`
  pub now : Text
  -- Whether a save of the database succeeds.
  pub saves : LocalDb → Bool
  -- Whether the system removes a file.
  pub can_remove : Text → Bool

-- The installed files, the database in memory, and the database on the disk.
pub record Session : Type 0 where
  pub disk : List Text
  pub memory : LocalDb
  pub saved : LocalDb

-- `{name}-{version}-{release}-{arch}`
unfoldable pub cache_name : IndexEntry → Text
unfolding format_nat
cache_name entry =
    entry.name
    ++ (codes "-"
        ++ (entry.version
            ++ (codes "-" ++ (format_nat entry.release ++ (codes "-" ++ entry.arch)))))

-- The object that the cache has for the entry: an error of the store counts as none, and a panic
-- goes on up.
unfoldable pub cached : Option VacuoleStore → IndexEntry → Result LysinError (Option (List ℕ))
unfolding cache_name
cached none entry = ok none
cached (some store) entry = elim (resolve_ref store (codes "packages") (cache_name entry)) [
  | err panic ↦ err panicked
  | err _ ↦ ok none
  | ok found ↦ elim found [ none ↦ ok none | some digest ↦ ok (get store digest) ]
]

-- A path is what a read of it gives.
unfoldable pub resolve_prot_path :
    Env → IndexEntry → Text → Result LysinError (Result Text (List ℕ))
unfolding cached
resolve_prot_path env entry root = elim (cached env.vacuole entry) [
  | err e ↦ err e
  | ok (some content) ↦ ok (ok content)
  | ok none ↦ elim (env.package_file root entry.filename) [
    | none ↦ err (file_not_found entry.filename)
    | some file ↦ ok file
  ]
]

-- `hash_file` and the comparison: the content of a file with the hash of the entry.
unfoldable pub verify : Env → IndexEntry → Result Text (List ℕ) → Result LysinError (List ℕ)
verify env entry (err e) = err (unreadable e)
verify env entry (ok content) =
    let actual_hash = to_prefixed (env.sha256 content) in
    if text_eq actual_hash entry.sha256
    then ok content
    else err (hash_mismatch entry.sha256 actual_hash)

-- The record that is written to the database.
unfoldable pub installed_package : Env → IndexEntry → List Text → InstalledPackage
installed_package env entry file_list = record {
  name = entry.name;
  version = entry.version;
  release = entry.release;
  install_date = env.now;
  package_hash = entry.sha256;
  files = file_list;
  depends = entry.depends.runtime;
  origin = entry.filename;
}

-- The part behind the check of the hash: unpack, record, save.
unfoldable pub extract_and_record :
    Env → IndexEntry → List ℕ → Session → Session × Result LysinError (Unit {0})
extract_and_record env entry content st =
    let (files, failure) = env.unpack content in
    let db = add st.memory (installed_package env entry files) in
    elim failure [
      | some e ↦ (record st { disk = st.disk ++ files }, err (unpack_failed e))
      | none ↦
          if env.saves db
          then (record { disk = st.disk ++ files; memory = db; saved = db }, ok tt)
          else (record st { disk = st.disk ++ files; memory = db }, err save_failed)
    ]

unfoldable pub install_single : Env → Text → Session → Session × Result LysinError (Unit {0})
install_single env name st = elim (find_package_in_repos name env.repositories) [
  | err e ↦ (st, err e)
  | ok located ↦ elim (resolve_prot_path env located.0 located.1) [
    | err e ↦ (st, err e)
    | ok file ↦ elim (verify env located.0 file) [
      | err e ↦ (st, err e)
      | ok content ↦ extract_and_record env located.0 content st
    ]
  ]
]

-- The loop over the runtime dependencies; an error ends it.
unfoldable pub install_dependencies :
    Env → List Text → Session → Session × Result LysinError (Unit {0})
install_dependencies env [] st = (st, ok tt)
install_dependencies env (dep ∷ deps) st = elim (is_installed st.memory (dep_name dep)) [
  | true ↦ install_dependencies env deps st
  | false ↦ elim ((install_single env (dep_name dep) st).1) [
    | err e ↦ ((install_single env (dep_name dep) st).0, err e)
    | ok _ ↦ install_dependencies env deps (install_single env (dep_name dep) st).0
  ]
]

-- The whole command, from the installed files and the database as it was loaded.
unfoldable pub install : Env → Text → List Text → LocalDb → Session × Result LysinError (Unit {0})
install env name disk db =
    let st : Session = record { disk = disk; memory = db; saved = db } in
    elim (is_installed db name) [
      | true ↦ (st, ok tt)
      | false ↦ elim (find_package_in_repos name env.repositories) [
        | err e ↦ (st, err e)
        | ok located ↦
            let (st', r) = install_dependencies env located.0.depends.runtime st in
            elim r [ err e ↦ (st', err e) | ok _ ↦ install_single env name st' ]
      ]
    ]
