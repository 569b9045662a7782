-- ===== src/Core/Recipes.antt =====
-- ribosome/crates/ribosome-core/src/mrna_index.rs: the recipes of each package by version.
pub mod Sorted
pub mod Listed
pub mod Resolve
pub mod Locks
use lysine_os.Base.{
  ℕ, suc, Bool, true, false, not, ◌&&◌, ◌||◌, Option, none, some, List, [], ◌∷◌, ◌++◌, Text, codes,
  text_eq, text_lt, is_empty, trim, split_once, Result, ok, err, if◌then◌else◌, ◌==◌, length,
}
use mathlib.Core.List.{reverse}
use lysine_os.Base.Lines.{lines, starts_with_char}
use lysine_os.Base.Maps.{map_get, map_put}
use lysine_os.Core.Profile.{PackageSpec}
use lysine_os.Parser.Model.{MrnaFile}
use lysine_os.Parser.Validate.Format.{Formats}
use lysine_os.Parser.Validate.{parse_mrna_file}
use lysine_os.Repository.Filename.{rsplit_once}

pub record MrnaEntry : Type 0 where
  pub version : Text
  pub path : Text

pub record MrnaIndex : Type 0 where
  pub packages : List (Text × List MrnaEntry)
  pub locked : List (Text × Text)

unfoldable pub empty_index : MrnaIndex
empty_index = record { packages = []; locked = [] }

-- A file that the walk over the directory gives: its path, its name, and its content, if it can be
-- read.
pub record WalkedFile : Type 0 where
  pub path : Text
  pub file_name : Text
  pub read : Result Text Text

-- `path.extension() == Some("mRNA")`
unfoldable pub is_mrna : Text → Bool
is_mrna file_name = elim (rsplit_once b'.' file_name) [
  | none ↦ false
  | some (stem, extension) ↦ not (is_empty stem) && text_eq extension (codes "mRNA")
]

-- `packages.entry(name).or_default().push(entry)`
unfoldable pub push_entry :
    List (Text × List MrnaEntry) → Text → MrnaEntry → List (Text × List MrnaEntry)
push_entry packages name entry =
    map_put packages name
      (elim (map_get packages name) [ none ↦ entry ∷ [] | some es ↦ es ++ entry ∷ [] ])

-- `sort_by(|a, b| a.version.cmp(&b.version))`, which keeps the order of equal versions.
unfoldable pub insert_sorted : MrnaEntry → List MrnaEntry → List MrnaEntry
insert_sorted e [] = e ∷ []
insert_sorted e (x ∷ xs) =
    let rest = insert_sorted e xs in if text_lt x.version e.version then x ∷ rest else e ∷ x ∷ xs

unfoldable pub sort_versions : List MrnaEntry → List MrnaEntry
unfolding insert_sorted
sort_versions [] = []
sort_versions (e ∷ es) = insert_sorted e (sort_versions es)

unfoldable pub sort_packages : List (Text × List MrnaEntry) → List (Text × List MrnaEntry)
unfolding sort_versions
sort_packages [] = []
sort_packages ((n, es) ∷ m) = (n, sort_versions es) ∷ sort_packages m

-- `versions.last()`
unfoldable pub last : List MrnaEntry → Option MrnaEntry
last [] = none
last (e ∷ []) = some e
last (e ∷ f ∷ es) = last (f ∷ es)

module _ (formats : Formats) (from_yaml : Text → Result Text MrnaFile) where
  -- One file of the walk.
  unfoldable pub scan_file :
      List (Text × List MrnaEntry) → WalkedFile → List (Text × List MrnaEntry)
  unfolding is_mrna push_entry
  scan_file packages file =
      if is_mrna file.file_name
      then elim (parse_mrna_file formats from_yaml file.read) [
        | ok mrna ↦
            push_entry packages mrna.name (record { version = mrna.version; path = file.path })
        | err e ↦ packages
      ]
      else packages

  unfoldable pub scan_files :
      List (Text × List MrnaEntry) → List WalkedFile → List (Text × List MrnaEntry)
  unfolding scan_file
  scan_files packages [] = packages
  scan_files packages (file ∷ files) = scan_files (scan_file packages file) files

  -- A directory that does not exist has no files.
  unfoldable pub scan : List WalkedFile → MrnaIndex
  unfolding scan_files sort_packages
  scan files = record { packages = sort_packages (scan_files [] files); locked = [] }

-- `s.trim_matches('"')`
unfoldable pub trim_quotes_start : Text → Text
trim_quotes_start [] = []
trim_quotes_start (c ∷ s) = let rest = trim_quotes_start s in if c == b'"' then rest else c ∷ s

unfoldable pub trim_quotes : Text → Text
unfolding trim_quotes_start
trim_quotes s = reverse (trim_quotes_start (reverse (trim_quotes_start s)))

-- The name and the version on a line of the lock file, if it is no comment and has both.
unfoldable pub lock_entry : Text → Option (Text × Text)
unfolding trim_quotes
lock_entry raw =
    let line = trim raw in
    if is_empty line || starts_with_char b'#' line then none else elim (split_once b'=' line) [
      | none ↦ none
      | some (name, value) ↦
          let key = trim name in
          let version = trim_quotes (trim value) in
          if not (is_empty key) && not (is_empty version) then some (key, version) else none
    ]

-- The loop over the lines, with the count of the entries.
unfoldable pub load_lock_lines : List (Text × Text) → ℕ → List Text → List (Text × Text) × ℕ
unfolding lock_entry
load_lock_lines locked count [] = (locked, count)
load_lock_lines locked count (line ∷ rest) = elim (lock_entry line) [
  | none ↦ load_lock_lines locked count rest
  | some (name, version) ↦ load_lock_lines (map_put locked name version) (suc count) rest
]

-- What a read of the lock file gives: there is none, it cannot be read, or its text.
pub data LockFile : Type 0 where
  missing : LockFile
  unreadable : Text → LockFile
  content : Text → LockFile

unfoldable pub load_version_lock : MrnaIndex → LockFile → MrnaIndex × Result Text ℕ
unfolding load_lock_lines
load_version_lock index missing = (index, ok 0)
load_version_lock index (unreadable e) = (index, err e)
load_version_lock index (content text) =
    let (locked, count) = load_lock_lines index.locked 0 (lines text) in
    (record { packages = index.packages; locked = locked }, ok count)

-- The errors of the lock file are passed on.
unfoldable pub scan_with_lock :
    Formats
    → (Text → Result Text MrnaFile)
    → List WalkedFile
    → Option LockFile
    → Result Text MrnaIndex
unfolding scan load_version_lock
scan_with_lock formats from_yaml files none = ok (scan formats from_yaml files)
scan_with_lock formats from_yaml files (some lock) =
    let (index, outcome) = load_version_lock (scan formats from_yaml files) lock in
    elim outcome [ ok count ↦ ok index | err e ↦ err e ]

unfoldable pub package_count : MrnaIndex → ℕ
package_count index = length index.packages

unfoldable pub locked_count : MrnaIndex → ℕ
locked_count index = length index.locked

unfoldable pub versions : MrnaIndex → Text → Option (List MrnaEntry)
versions index name = map_get index.packages name

unfoldable pub locked_version : MrnaIndex → Text → Option Text
locked_version index name = map_get index.locked name

-- The loop of `find_version`, with the last entry where no version is equal.
unfoldable pub find_exact : Text → List MrnaEntry → Option MrnaEntry
find_exact wanted [] = none
find_exact wanted (e ∷ es) =
    let rest = find_exact wanted es in if text_eq e.version wanted then some e else rest

unfoldable pub find_version : Text → List MrnaEntry → Option MrnaEntry
unfolding find_exact last
find_version wanted es = elim (find_exact wanted es) [ some e ↦ some e | none ↦ last es ]

unfoldable pub resolve : MrnaIndex → PackageSpec → Option MrnaEntry
unfolding find_version
resolve index spec = elim (map_get index.packages spec.name) [
  | none ↦ none
  | some es ↦ elim spec.version [
    | some wanted ↦ find_version wanted es
    | none ↦ elim (map_get index.locked spec.name) [
      | some locked_ver ↦ find_version locked_ver es
      | none ↦ last es
    ]
  ]
]
