-- ===== src/Examples/Query.antt =====
-- Queries of an index at concrete inputs.
use lysine_os.Base.{refl, some, text_eq, split_once, [], ◌∷◌, ◌≡◌, ◌↔◌, codes, All}
use lysine_os.Repository.Index.{
  IndexEntry, RepositoryIndex, find, add_entry, should_insert, lookup, insert, is_some,
}
use lysine_os.Repository.Index.Storage.RoundTrip.{empty_index}
use lysine_os.Repository.Query.{check_dependencies, missing_of, dependency_name}
use lysine_os.Repository.Query.Satisfied.{IsSatisfied, check_dependencies-IsSatisfied}
use lysine_os.Examples.Publish.{entry}

-- A package that depends on `hello-2`, once with a space before the operator and once without.
abbrev app : IndexEntry
app = record entry {
  name = codes "app";
  depends = record { runtime = codes "hello-2 >= 1.0" ∷ codes "hello-2>=1.0" ∷ []; build = [] };
}

abbrev index : RepositoryIndex
index = add_entry (add_entry empty_index entry) app

-- The dependency without a space is reported, although `hello-2` is in the index.
no_space :
    check_dependencies index (codes "app" ∷ [])
    ≡ record {
      issue_package = codes "app";
      missing_dependency = codes "hello-2>=1.0";
      constraint = some (codes "hello-2>=1.0");
    }
      ∷ []
unfolding check_dependencies missing_of dependency_name find add_entry should_insert lookup insert
    is_some text_eq split_once
no_space = refl

check_dependencies-IsSatisfied_example :
    (check_dependencies index (codes "app" ∷ codes "hello-2" ∷ []) ≡ [])
    ↔ All (IsSatisfied index) (codes "app" ∷ codes "hello-2" ∷ [])
check_dependencies-IsSatisfied_example =
    check_dependencies-IsSatisfied index (codes "app" ∷ codes "hello-2" ∷ [])
