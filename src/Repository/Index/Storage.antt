-- ===== src/Repository/Index/Storage.antt =====
-- `RepositoryIndex::load` and `RepositoryIndex::save` (ribosome-repository/src/index.rs): the file
-- `nucleus.db` with one JSON object on each line, and the file with its hash.
pub mod RoundTrip
use lysine_os.Base.{
  ℕ, zero, suc, ◌-◌, Bool, true, false, ◌&&◌, ◌||◌, not, Option, none, some, List, [], ◌∷◌, ◌++◌,
  Text, codes, is_empty, trim, Result, ok, err, ◌>>=◌, map_err, if◌then◌else◌, ◌==◌, ltb, leb,
}
use lysine_os.Base.Lines.{lines, starts_with_char}
use lysine_os.Store.Digest.{utf8_len, byte_len}
use lysine_os.Repository.Index.{IndexEntry, EntryMap, RepositoryIndex, lookup, add_entry}

-- What the module uses of serde_json, with the message of its error, and the SHA-256 of a text.
pub record Json : Type 0 where
  pub to_string : IndexEntry → Result Text Text
  pub from_str : Text → Result Text IndexEntry
  pub sha256_str : Text → Text

-- An input or output error has one text, its path or its reason.
pub data RepositoryError : Type 0 where
  not_found : Text → RepositoryError
  sync_failed : Text → RepositoryError
  index_error : Text → RepositoryError
  package_not_found : Text → RepositoryError
  io : Text → RepositoryError
  -- The path and the reason.
  invalid_package : Text → Text → RepositoryError
  json_error : Text → RepositoryError
  -- The path, the expected and the actual hash.
  hash_mismatch : Text → Text → Text → RepositoryError

-- Whether byte `n` of the text is behind its end or the first byte of a character.
unfoldable pub is_char_boundary : ℕ → Text → Bool
is_char_boundary n [] = true
is_char_boundary zero (c ∷ s) = true
is_char_boundary (suc n) (c ∷ s) =
    let rest = is_char_boundary (suc n - utf8_len c) s in
    if leb (utf8_len c) (suc n) then rest else false

-- The files of the index.
pub record IndexFiles : Type 0 where
  pub db : Option Text
  pub tmp : Option Text
  pub hash : Option Text

-- How a call of `std::fs::write` goes: it fails, and leaves what is given, or it succeeds.
pub data WriteAnswer : Type 0 where
  written : WriteAnswer
  failed : Option Text → WriteAnswer

pub record SaveAnswers : Type 0 where
  pub write_tmp : WriteAnswer
  pub can_rename : Bool
  pub write_hash : WriteAnswer

unfoldable pub after_write : WriteAnswer → Text → Option Text
after_write written content = some content
after_write (failed left) content = left

unfoldable pub index_filename : Text
index_filename = codes "nucleus.db"

module _ (json : Json) where
  open json use {to_string, from_str, sha256_str}

  -- One round of the loop of `load`. `none` is the panic of the warning, which cuts a malformed line
  -- at byte 80.
  unfoldable pub load_line : RepositoryIndex → Text → Option RepositoryIndex
  load_line index line =
      let text = trim line in
      if is_empty text || starts_with_char b'#' text then some index else elim (from_str text) [
        | ok entry ↦ some (add_entry index entry)
        | err e ↦ if is_char_boundary 80 text then some index else none
      ]

  unfoldable pub load_lines : RepositoryIndex → List Text → Option RepositoryIndex
  unfolding load_line
  load_lines index [] = some index
  load_lines index (line ∷ rest) = elim (load_line index line) [
    | none ↦ none
    | some next ↦ load_lines next rest
  ]

  -- `read` is the content of the file, if it can be read.
  unfoldable pub load : Option Text → Result RepositoryError (Option RepositoryIndex)
  unfolding load_lines
  load none = err (io index_filename)
  load (some content) = ok (load_lines (record { entries = []; order = [] }) (lines content))

  -- The loop of `save` that builds the content.
  unfoldable pub write_lines : EntryMap → List Text → Result RepositoryError Text
  unfolding lookup
  write_lines m [] = ok []
  write_lines m (n ∷ ns) = elim (lookup m n) [
    | none ↦ write_lines m ns
    | some entry ↦
        (map_err index_error (to_string entry) >>= λ line.
        write_lines m ns >>= λ rest. ok (line ++ b'\n' ∷ rest))
  ]

  unfoldable pub hash_line : Text → Text
  hash_line content =
      codes "sha256:" ++ (sha256_str content ++ (codes "  " ++ (index_filename ++ b'\n' ∷ [])))

  -- The second half of `save`: the new index is written beside the old one and renamed over it.
  unfoldable pub store_content :
      SaveAnswers → IndexFiles → Text → IndexFiles × Result RepositoryError (Unit {0})
  store_content answers files content =
      let tmp = after_write answers.write_tmp content in
      elim answers.write_tmp [
        | failed left ↦ (
          record { db = files.db; tmp = tmp; hash = files.hash },
          err (io (codes "nucleus.db.tmp")),
        )
        | written ↦
            if answers.can_rename
            then elim answers.write_hash [
              | failed left ↦ (
                record { db = some content; tmp = none; hash = left },
                err (io (codes "nucleus.db.sha256")),
              )
              | written ↦
                  (record { db = some content; tmp = none; hash = some (hash_line content) }, ok tt)
            ]
            else (record { db = files.db; tmp = tmp; hash = files.hash }, err (io index_filename))
      ]

  unfoldable pub save :
      SaveAnswers → IndexFiles → RepositoryIndex → IndexFiles × Result RepositoryError (Unit {0})
  unfolding write_lines
  save answers files index = elim (write_lines index.entries index.order) [
    | err e ↦ (files, err e)
    | ok content ↦ store_content answers files content
  ]
