-- ===== src/Repository/Query.antt =====
-- ribosome/crates/ribosome-repository/src/package_query.rs: what is asked of an index.
pub mod Satisfied
use lysine_os.Base.{
  Lacks, ◌⊎◌, Bool-cases, ◌==◌, split_once-none, split_once-append, ℕ, zero, suc, ◌-◌, Option, none,
  some, List, [], ◌∷◌, ◌++◌, ◌≡◌, refl, ◌↔◌, ◌≢◌, inl, inr, arith, Text, codes, is_empty,
  split_once, if◌then◌else◌, leb, map, All, Option-cases, subst,
}
use lysine_os.Base.Decimal.{format_nat}
use lysine_os.Store.Digest.{utf8_len}
use lysine_os.Repository.Index.{IndexEntry, RepositoryIndex, find, list_all, search}

pub record PackageInfo : Type 0 where
  pub entry : IndexEntry

unfoldable pub from_entry : IndexEntry → PackageInfo
from_entry entry = record { entry = entry }

unfoldable pub info : RepositoryIndex → Text → Option PackageInfo
info index name = elim (find index name) [ none ↦ none | some e ↦ some (from_entry e) ]

unfoldable pub list_infos : RepositoryIndex → List PackageInfo
list_infos index = map from_entry (list_all index)

-- `to_lowercase` is that of the standard library, over the whole of Unicode.
unfoldable pub search_infos : (Text → Text) → RepositoryIndex → Text → List PackageInfo
search_infos to_lowercase index keyword = map from_entry (search to_lowercase index keyword)

pub record DependencyIssue : Type 0 where
  pub issue_package : Text
  pub missing_dependency : Text
  pub constraint : Option Text

-- The text before the first space.
unfoldable pub dependency_name : Text → Text
dependency_name dep = elim (split_once b' ' dep) [ none ↦ dep | some (n, _) ↦ n ]

-- The loop over the dependencies of one package.
unfoldable pub missing_of : RepositoryIndex → Text → List Text → List DependencyIssue
unfolding dependency_name
missing_of index name [] = []
missing_of index name (dep ∷ deps) =
    let rest = missing_of index name deps in
    elim (find index (dependency_name dep)) [
      | some e ↦ rest
      | none ↦
          record {
            issue_package = name;
            missing_dependency = dependency_name dep;
            constraint = some dep;
          }
          ∷ rest
    ]

unfoldable pub check_dependencies : RepositoryIndex → List Text → List DependencyIssue
unfolding missing_of
check_dependencies index [] = []
check_dependencies index (name ∷ names) =
    let rest = check_dependencies index names in
    elim (find index name) [
      | none ↦ rest
      | some entry ↦ missing_of index name entry.depends.runtime ++ rest
    ]

-- `&s[..s.len().min(n)]`: `none` is the panic of a slice inside a character.
unfoldable pub byte_prefix : ℕ → Text → Option Text
byte_prefix n [] = some []
byte_prefix zero (c ∷ s) = some []
byte_prefix (suc n) (c ∷ s) =
    let rest = byte_prefix (suc n - utf8_len c) s in
    if leb (utf8_len c) (suc n) then elim rest [ none ↦ none | some r ↦ some (c ∷ r) ] else none

unfoldable pub or_else : Text → Text → Text
or_else text other = if is_empty text then other else text

unfoldable pub concat : List Text → Text
concat [] = []
concat (t ∷ ts) = t ++ concat ts

unfoldable pub to_summary : PackageInfo → Option Text
unfolding byte_prefix or_else concat
to_summary package_info =
    let e = package_info.entry in
    elim (byte_prefix 22 e.sha256) [
      | none ↦ none
      | some sha256 ↦ some (
          concat (
            e.name
            ∷ codes " "
            ∷ e.version
            ∷ codes "-"
            ∷ format_nat e.release
            ∷ codes "\n  Description: "
            ∷ or_else e.description (codes "(none)")
            ∷ codes "\n  License: "
            ∷ or_else e.license (codes "(unknown)")
            ∷ codes "\n  Architecture: "
            ∷ e.arch
            ∷ codes "\n  Category: "
            ∷ e.category
            ∷ codes "\n  Filename: "
            ∷ e.filename
            ∷ codes "\n  SHA-256: "
            ∷ sha256
            ∷ codes "\n  Size: "
            ∷ format_nat e.installed_size
            ∷ codes " bytes\n  Built: "
            ∷ or_else e.build_date (codes "(unknown)")
            ∷ []))
    ]
