-- ===== src/Examples/Lysin.antt =====
-- The installed packages at concrete inputs.
use lysine_os.Base.{
  Elem, Bool, true, false, none, some, List, [], ◌∷◌, ◌≡◌, refl, Text, text_eq, codes, ok, err,
  distinct, retain, is_whitespace, trim_start,
}
use lysine_os.Lysin.LocalDb.{
  InstalledPackage, LocalDb, find_package, find, remove_first, remove, installed_names,
}
use lysine_os.Lysin.LocalDb.Laws.{has_distinct_names}
use lysine_os.Lysin.Remove.{
  word, dep_name, depends_on, is_dependent, dependents, has_dependents, System, remove_files,
  is_blocked, remove_package,
}
use lysine_os.Lysin.Remove.Safety.{AsksFor, remove_package_safe}

abbrev installed : Text → List Text → List Text → InstalledPackage
installed name files depends = record {
  name = name;
  version = codes "1.0";
  release = 1;
  install_date = codes "today";
  package_hash = codes "sha256:00";
  files = files;
  depends = depends;
  origin = codes "core";
}

abbrev app : InstalledPackage
app = installed (codes "app") (codes "/bin/app" ∷ codes "/etc/app" ∷ []) (codes "lib >= 1.0" ∷ [])

abbrev lib : InstalledPackage
lib = installed (codes "lib") (codes "/lib/lib.so" ∷ []) []

abbrev db : LocalDb
db = record { path = codes "/var/installed.db"; packages = lib ∷ app ∷ [] }

db-has_distinct_names : has_distinct_names db ≡ true
unfolding has_distinct_names distinct text_eq
db-has_distinct_names = refl

abbrev sys : System
sys = record { disk = codes "/bin/app" ∷ codes "/lib/lib.so" ∷ []; saved = db }

abbrev always : Text → Bool
always f = true

removes :
    (remove_package always true sys app.name false).1 ≡ ok (record { removed = 1; failed = 0 })
unfolding remove_package is_blocked remove_files dependents is_dependent depends_on dep_name word
    installed_names find find_package remove remove_first retain text_eq trim_start is_whitespace
removes = refl

-- `lib` is kept for `app`.
kept :
    (remove_package always true sys lib.name false).1
    ≡ err (has_dependents lib.name (app.name ∷ []))
unfolding remove_package is_blocked remove_files dependents is_dependent depends_on dep_name word
    installed_names find find_package remove remove_first retain text_eq trim_start is_whitespace
kept = refl

-- `app` asks for `lib` without a space before the operator, and `lib` goes.
abbrev no_space : System
no_space = record {
  disk = [];
  saved = record {
    path = codes "/var/installed.db";
    packages = lib ∷ installed (codes "app") [] (codes "lib>=1.0" ∷ []) ∷ [];
  };
}

lost :
    (remove_package always true no_space lib.name false).1 ≡ ok (record { removed = 0; failed = 0 })
unfolding remove_package is_blocked remove_files dependents is_dependent depends_on dep_name word
    installed_names find find_package remove remove_first retain text_eq trim_start is_whitespace
lost = refl

remove_package_safe_example :
    let after = (remove_package always true sys app.name false).0.saved in
    (find after app.name ≡ none)
    × ((other : Text) → text_eq app.name other ≡ false → find after other ≡ find db other)
    × ((other : Text) (p : InstalledPackage)
        → find after other ≡ some p
        → (dep : Text) → Elem dep p.depends
        → ¬ AsksFor dep app.name)
remove_package_safe_example =
    remove_package_safe always true sys app.name (record { removed = 1; failed = 0 })
      db-has_distinct_names removes
