-- ===== src/Examples/Commands.antt =====
-- Installation and update at concrete inputs: a repository with `editor`, which needs `lib`.
use lysine_os.Base.{
  true, false, none, some, List, [], ◌∷◌, ◌≡◌, refl, subst, Text, text_eq, codes, ok, All, distinct,
  retain, is_whitespace, trim_start, arith,
}
use lysine_os.Store.Digest.{to_prefixed, hex, hex_byte}
use lysine_os.Repository.Index.{
  IndexEntry, RepositoryIndex, lookup, insert, is_some, should_insert, add_entry, find,
}
use lysine_os.Repository.Index.Laws.{IsIndexed}
use lysine_os.Repository.Index.Operations.{empty-IsIndexed, add_entry-IsIndexed}
use lysine_os.Lysin.LocalDb.{InstalledPackage, LocalDb, add, is_installed}
use lysine_os.Lysin.LocalDb.Laws.{has_distinct_names}
use lysine_os.Lysin.Remove.{dep_name, word}
use lysine_os.Lysin.Repos.{Repo, absent, loaded, find_package_in_repos, find_newer_version}
use lysine_os.Lysin.Repos.Newer.{AllIndexed}
use lysine_os.Lysin.LocalDb.Storage.{
  PackageJson, missing, DbAnswers, save_db, load_db, IsPrinted, load_db-save_db,
}
use lysine_os.Lysin.Repos.Choice.{IsNewer, find_newer_version_correct}
use lysine_os.Lysin.Install.{
  Env, Session, cached, resolve_prot_path, verify, installed_package, extract_and_record,
  install_single, install_dependencies, install,
}
use lysine_os.Lysin.Install.Safety.{Keeps, install_complete}
use lysine_os.Lysin.Update.{update, update_single, remove_old}
use lysine_os.Lysin.Update.Safety.{Improves, update-Improves}

abbrev entry : Text → Text → List Text → Text → IndexEntry
entry name version runtime hash = record {
  name = name;
  version = version;
  release = 1;
  description = codes "a package";
  license = codes "MIT";
  arch = codes "x86_64";
  category = codes "core";
  filename = name;
  sha256 = hash;
  depends = record { runtime = runtime; build = [] };
  provides = [];
  conflicts = [];
  installed_size = 1;
  build_date = codes "today";
}

abbrev lib : IndexEntry
lib = entry (codes "lib") (codes "1.2") [] (codes "sha256:ab")

abbrev editor : IndexEntry
editor = entry (codes "editor") (codes "2.0") (codes "lib >= 1.0" ∷ []) (codes "sha256:ab")

abbrev nothing : RepositoryIndex
nothing = record { entries = []; order = [] }

abbrev index : RepositoryIndex
index = add_entry (add_entry nothing lib) editor

index-IsIndexed : IsIndexed index
index-IsIndexed =
    add_entry-IsIndexed (add_entry nothing lib) editor
      (add_entry-IsIndexed nothing lib empty-IsIndexed)

-- The second repository is the one with the index.
abbrev repos : List Repo
repos =
    record { root = codes "/gone"; answer = absent }
    ∷ record { root = codes "/repo"; answer = loaded index }
    ∷ []

repos-AllIndexed : AllIndexed repos
repos-AllIndexed = (
  (λ i e. absurd (ground (arith, e))),
  ((λ i e. subst IsIndexed (same index i e) index-IsIndexed), tt),
)
  where
    same : (i j : RepositoryIndex) → loaded i ≡ loaded j → i ≡ j
    same i j e = cc

-- Every file of a repository has one byte, and it is its own hash.
abbrev env : Env
env = record {
  repositories = repos;
  vacuole = none;
  package_file = λ root file. some (ok (171 ∷ []));
  sha256 = λ content. content;
  unpack = λ content. (codes "/bin/file" ∷ [], none);
  now = codes "today";
  saves = λ db. true;
  can_remove = λ file. true;
}

abbrev empty_db : LocalDb
empty_db = record { path = codes "/var/installed.db"; packages = [] }

installs : (install env (codes "editor") [] empty_db).1 ≡ ok tt
unfolding install install_dependencies install_single find_package_in_repos find lookup insert
    is_some should_insert add_entry resolve_prot_path cached verify extract_and_record
    installed_package is_installed add retain text_eq to_prefixed hex hex_byte dep_name word
    trim_start is_whitespace
installs = refl

install_complete_example :
    (is_installed (install env (codes "editor") [] empty_db).0.saved (codes "editor") ≡ true)
    × Keeps empty_db (install env (codes "editor") [] empty_db).0.saved
    × (is_installed empty_db (codes "editor") ≡ false
        → (e : IndexEntry) × (root : Text) × (find_package_in_repos (codes "editor") repos
            ≡ ok (e, root))
          × All
              (λ dep.
                is_installed (install env (codes "editor") [] empty_db).0.saved (dep_name dep)
                ≡ true)
              e.depends.runtime)
install_complete_example =
    install_complete env repos-AllIndexed (codes "editor") [] empty_db installs

abbrev start : Session
start = record { disk = []; memory = empty_db; saved = empty_db }

-- `lib` 1.0 is installed.
abbrev old_lib : InstalledPackage
old_lib = record {
  name = codes "lib";
  version = codes "1.0";
  release = 1;
  install_date = codes "yesterday";
  package_hash = codes "sha256:00";
  files = codes "/lib/old.so" ∷ [];
  depends = [];
  origin = codes "lib";
}

abbrev db : LocalDb
db = record { path = codes "/var/installed.db"; packages = old_lib ∷ [] }

db-has_distinct_names : has_distinct_names db ≡ true
unfolding has_distinct_names distinct
db-has_distinct_names = refl

update-Improves_example :
    Improves db (update env (codes "/lib/old.so" ∷ []) db).0.memory
    × Improves db (update env (codes "/lib/old.so" ∷ []) db).0.saved
update-Improves_example =
    update-Improves env db repos-AllIndexed (codes "/lib/old.so" ∷ []) db-has_distinct_names

-- A printer that knows one package.
abbrev package_json : PackageJson
package_json = record { to_string = λ p. ok (codes "{}"); from_str = λ t. ok old_lib }

old_lib-IsPrinted : IsPrinted package_json old_lib
old_lib-IsPrinted = record {
  line = codes "{}";
  inner = [];
  printed = refl;
  object = refl;
  one_line = (refl, (refl, tt));
  read_back = refl;
}

load_db-save_db_example :
    let answers : DbAnswers = record { creates_dir = true; writes = true; renames = true } in
    ((save_db package_json answers missing db).1 ≡ ok tt)
    × (load_db package_json
          (record db { packages = [] })
          (save_db package_json answers missing db).0
        ≡ (db, ok tt))
load_db-save_db_example =
    load_db-save_db package_json missing db (record db { packages = [] }) (old_lib-IsPrinted, tt)

find_newer_version_correct_example :
    ((e : IndexEntry) (root : Text)
      → find_newer_version (codes "lib") (codes "1.0") 1 repos ≡ ok (some (e, root))
      → (e.name ≡ codes "lib") × IsNewer e.version e.release (codes "1.0") 1)
    × (find_newer_version (codes "lib") (codes "1.0") 1 repos ≡ ok none
        → All
            (λ repo.
              (i : RepositoryIndex)
              → repo.answer ≡ loaded i
              → (e : IndexEntry) → find i (codes "lib") ≡ some e
              → ¬ IsNewer e.version e.release (codes "1.0") 1)
            repos)
find_newer_version_correct_example =
    find_newer_version_correct (codes "lib") (codes "1.0") 1 repos repos-AllIndexed

-- A failed extraction leaves the package in the database and its files removed.
files_lost :
    (update_single
      (record env { unpack = λ content. ([], some (codes "broken archive")) })
      old_lib
      lib
      (codes "/repo")
      (record { disk = codes "/lib/old.so" ∷ []; memory = db; saved = db })).0
    ≡ record { disk = []; memory = db; saved = db }
unfolding update_single verify extract_and_record remove_old retain text_eq to_prefixed hex hex_byte
files_lost = refl
