-- ===== src/Lysin/Repos.antt =====
-- The look-up of packages in the configured repositories: ribosome/crates/lysin/src/ops/mod.rs,
-- `find_package_in_repos` of install.rs and `find_newer_version` of update.rs.
pub mod Newer
pub mod Choice
use lysine_os.Base.{
  ℕ, Bool, true, false, not, ◌&&◌, ◌||◌, Option, none, some, List, [], ◌∷◌, ◌++◌, Text, codes,
  text_eq, text_lt, if◌then◌else◌, ltb, Result, ok, err,
}
use lysine_os.Parser.Version.{Version, parse, version_lt, version_le}
use lysine_os.Repository.Index.{IndexEntry, RepositoryIndex, find}

-- `version_is_newer(newer, current)`: texts are compared when one of the two does not parse.
unfoldable pub version_is_newer : Text → Text → Bool
version_is_newer newer current = elim (parse newer) [
  | err _ ↦ text_lt current newer
  | ok n ↦ elim (parse current) [ err _ ↦ text_lt current newer | ok c ↦ version_lt c n ]
]

unfoldable pub version_is_newer_or_equal : Text → Text → Bool
version_is_newer_or_equal newer current = elim (parse newer) [
  | err _ ↦ not (text_lt newer current)
  | ok n ↦ elim (parse current) [ err _ ↦ not (text_lt newer current) | ok c ↦ version_le c n ]
]

-- What the system answers for a repository's path: nothing is there, or it cannot be opened or
-- read, or its index.
pub data RepoAnswer : Type 0 where
  absent : RepoAnswer
  broken : Text → RepoAnswer
  loaded : RepositoryIndex → RepoAnswer

pub record Repo : Type 0 where
  pub root : Text
  pub answer : RepoAnswer

pub data LysinError : Type 0 where
  not_found : Text → LysinError
  repository_error : Text → LysinError
  file_not_found : Text → LysinError
  unreadable : Text → LysinError
  -- The hash in the index, and that of the file.
  hash_mismatch : Text → Text → LysinError
  unpack_failed : Text → LysinError
  save_failed : LysinError
  -- No error, but a panic: that of the parser of digests.
  panicked : LysinError

-- The entry, and the root of its repository.
abbrev pub Located : Type 0
Located = IndexEntry × Text

unfoldable pub find_package_in_repos : Text → List Repo → Result LysinError Located
find_package_in_repos name [] = err (not_found name)
find_package_in_repos name (repo ∷ repos) =
    let rest = find_package_in_repos name repos in
    elim repo.answer [
      | absent ↦ rest
      | broken e ↦ err (repository_error e)
      | loaded index ↦ elim (find index name) [ none ↦ rest | some entry ↦ ok (entry, repo.root) ]
    ]

-- The two tests on an entry, against the installed version and release.
unfoldable pub is_update : IndexEntry → Text → ℕ → Bool
is_update entry current_version current_release =
    version_is_newer entry.version current_version
    || text_eq entry.version current_version && ltb current_release entry.release

unfoldable pub find_newer_version : Text → Text → ℕ → List Repo → Result LysinError (Option Located)
find_newer_version name current_version current_release [] = ok none
find_newer_version name current_version current_release (repo ∷ repos) =
    let rest = find_newer_version name current_version current_release repos in
    elim repo.answer [
      | absent ↦ rest
      | broken e ↦ err (repository_error e)
      | loaded index ↦ elim (find index name) [
        | none ↦ rest
        | some entry ↦
            if is_update entry current_version current_release
            then ok (some (entry, repo.root))
            else rest
      ]
    ]
