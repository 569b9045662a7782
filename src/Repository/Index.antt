-- ===== src/Repository/Index.antt =====
-- ribosome/crates/ribosome-repository/src/index.rs: `RepositoryIndex` in memory.
pub mod Laws
pub mod Operations
pub mod Search
pub mod Entries
pub mod Storage
use lysine_os.Base.{
  ℕ, Bool, true, false, ◌||◌, not, Option, none, some, List, [], ◌∷◌, ◌++◌, ◌≡◌, Text, text_eq,
  text_lt, find_text, ok, err, if◌then◌else◌, leb, any, retain, length,
}
use lysine_os.Parser.Version.{parse, version_lt, version_eq}

pub record IndexDepends : Type 0 where
  pub runtime : List Text
  pub build : List Text

pub record IndexEntry : Type 0 where
  pub name : Text
  pub version : Text
  pub release : ℕ
  pub description : Text
  pub license : Text
  pub arch : Text
  pub category : Text
  pub filename : Text
  pub sha256 : Text
  pub depends : IndexDepends
  pub provides : List Text
  pub conflicts : List Text
  pub installed_size : ℕ
  pub build_date : Text

-- The hash map, as an association list without repeated keys.
abbrev pub EntryMap : Type 0
EntryMap = List (Text × IndexEntry)

unfoldable pub lookup : EntryMap → Text → Option IndexEntry
lookup [] n = none
lookup ((k, d) ∷ m) n = if text_eq n k then some d else lookup m n

unfoldable pub insert : EntryMap → Text → IndexEntry → EntryMap
insert [] n e = (n, e) ∷ []
insert ((k, d) ∷ m) n e = if text_eq n k then (k, e) ∷ m else (k, d) ∷ insert m n e

unfoldable pub remove : EntryMap → Text → EntryMap
remove [] n = []
remove ((k, d) ∷ m) n = if text_eq n k then m else (k, d) ∷ remove m n

pub record RepositoryIndex : Type 0 where
  pub entries : EntryMap
  pub order : List Text

unfoldable pub is_some : Option IndexEntry → Bool
is_some none = false
is_some (some e) = true

-- The order of two versions that do not parse, as texts.
unfoldable pub is_lexically_newer : IndexEntry → IndexEntry → Bool
is_lexically_newer entry existing = not (text_lt entry.version existing.version)

-- `should_insert`, when an entry of the name exists.
unfoldable pub should_replace : IndexEntry → IndexEntry → Bool
unfolding is_lexically_newer
should_replace entry existing = elim (parse entry.version) [
  | err _ ↦ is_lexically_newer entry existing
  | ok n ↦ elim (parse existing.version) [
    | err _ ↦ is_lexically_newer entry existing
    | ok o ↦
        if version_lt o n
        then true
        else if version_eq n o
        then leb existing.release entry.release
        else is_lexically_newer entry existing
  ]
]

unfoldable pub should_insert : RepositoryIndex → IndexEntry → Bool
unfolding lookup
should_insert index entry = elim (lookup index.entries entry.name) [
  | none ↦ true
  | some existing ↦ should_replace entry existing
]

unfoldable pub add_entry : RepositoryIndex → IndexEntry → RepositoryIndex
unfolding lookup is_some insert should_insert
add_entry index entry =
    if should_insert index entry
    then record {
      entries = insert index.entries entry.name entry;
      order =
          if is_some (lookup index.entries entry.name)
          then index.order
          else index.order ++ entry.name ∷ [];
    }
    else index

-- The index after the call, and the entry that is returned.
unfoldable pub remove_entry : RepositoryIndex → Text → RepositoryIndex × Option IndexEntry
unfolding lookup remove
remove_entry index name = (
  record {
    entries = remove index.entries name;
    order = retain (λ n. not (text_eq n name)) index.order;
  },
  lookup index.entries name,
)

unfoldable pub find : RepositoryIndex → Text → Option IndexEntry
find index name = lookup index.entries name

unfoldable pub list_entries : EntryMap → List Text → List IndexEntry
unfolding lookup
list_entries m [] = []
list_entries m (n ∷ ns) =
    let rest = list_entries m ns in elim (lookup m n) [ none ↦ rest | some e ↦ e ∷ rest ]

unfoldable pub list_all : RepositoryIndex → List IndexEntry
unfolding list_entries
list_all index = list_entries index.entries index.order

unfoldable pub len : RepositoryIndex → ℕ
len index = length index.entries

-- Whether a text contains another.
unfoldable pub contains_text : Text → Text → Bool
contains_text s kw = elim (find_text kw s) [ none ↦ false | some _ ↦ true ]

-- `to_lowercase` is that of the standard library, over the whole of Unicode.
module _ (to_lowercase : Text → Text) where
  unfoldable pub is_match : Text → IndexEntry → Bool
  unfolding contains_text
  is_match kw entry =
      contains_text (to_lowercase entry.name) kw
      || contains_text (to_lowercase entry.description) kw

  unfoldable pub search : RepositoryIndex → Text → List IndexEntry
  unfolding list_all is_match
  search index keyword = retain (is_match (to_lowercase keyword)) (list_all index)
