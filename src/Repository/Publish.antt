-- ===== src/Repository/Publish.antt =====
-- ribosome/crates/ribosome-repository/src/repository.rs: the repository on disk, `publish` and
-- `rebuild_index`. An outcome `none` is the panic of `load_index`.
pub mod Packed
pub mod Scan
pub mod Rebuild
use lysine_os.Base.{
  ℕ, suc, Bool, true, false, not, ◌&&◌, Option, none, some, List, [], ◌∷◌, ◌++◌, Text, codes,
  text_eq, is_empty, strip_prefix, Result, ok, err, ◌>>=◌, map_err, if◌then◌else◌, any, retain,
}
use mathlib.Core.List.{reverse}
use lysine_os.Parser.Model.{MrnaFile}
use lysine_os.Parser.Validate.Format.{Formats}
use lysine_os.Parser.Validate.{parse_mrna}
use lysine_os.Packer.{Archives, Bytes}
use lysine_os.Packer.Meta.{ProtMeta, no_meta, read_meta}
use lysine_os.Repository.Filename.{ParsedFilename, rsplit_once, parse_prot_filename}
use lysine_os.Repository.Index.{IndexEntry, RepositoryIndex, add_entry}
use lysine_os.Repository.Index.Storage.{
  Json, RepositoryError, not_found, invalid_package, io, IndexFiles, SaveAnswers, load, save,
}

unfoldable pub categories : List Text
categories = codes "core" ∷ codes "devel" ∷ codes "desktop" ∷ codes "ai" ∷ codes "extra" ∷ []

-- A file in the directory of a category.
pub record StoredFile : Type 0 where
  pub category : Text
  pub filename : Text
  pub content : Bytes

pub record RepoDisk : Type 0 where
  pub stored : List StoredFile
  pub index : IndexFiles

-- How `std::fs::copy` goes: it fails, and leaves what is given at the destination, or it succeeds.
pub data CopyAnswer : Type 0 where
  copied : CopyAnswer
  torn : Option Bytes → CopyAnswer

-- What the module uses of other crates and of the system.
pub record RepoEnv : Type 0 where
  pub json : Json
  pub archives : Archives
  pub formats : Formats
  pub from_yaml : Text → Result Text MrnaFile
  pub is_numeric : ℕ → Bool
  pub copy : CopyAnswer
  pub hash_file : Bytes → Result Text Text
  pub file_len : Bytes → Result Text ℕ
  -- What `exists` says of the directory of a category, and why it cannot be read, if it cannot.
  pub dir_exists : Text → Bool
  pub dir_error : Text → Option Text
  -- Whether the entry of a file in the directory can be read: `e.ok()`.
  pub entry_ok : StoredFile → Bool
  pub now : Text
  pub save_answers : SaveAnswers

-- `s.strip_suffix(p)`
unfoldable pub strip_suffix : Text → Text → Option Text
strip_suffix p s = elim (strip_prefix (reverse p) (reverse s)) [
  | none ↦ none
  | some r ↦ some (reverse r)
]

unfoldable pub is_at : Text → Text → StoredFile → Bool
is_at category filename f = text_eq f.category category && text_eq f.filename filename

-- The file is written, over an old one of the name, or nothing is left of it.
unfoldable pub put_file : Text → Text → Option Bytes → List StoredFile → List StoredFile
unfolding is_at
put_file category filename none files = retain (λ f. not (is_at category filename f)) files
put_file category filename (some content) files =
    retain (λ f. not (is_at category filename f)) files
    ++ record { category = category; filename = filename; content = content } ∷ []

module _ (env : RepoEnv) where
  open env use {json, archives, formats, from_yaml, is_numeric, hash_file, file_len, save_answers}

  -- The description and the license.
  unfoldable pub extract_mrna_fields : Option Text → Text × Text
  extract_mrna_fields none = ([], [])
  extract_mrna_fields (some yaml) = elim (parse_mrna formats from_yaml yaml) [
    | ok mrna ↦ (mrna.description, mrna.license)
    | err e ↦ ([], [])
  ]

  -- The metadata of a package, or none where they cannot be read.
  unfoldable pub meta_or_default : Bytes → ProtMeta
  meta_or_default content = elim (read_meta archives (some content)) [ ok m ↦ m | err e ↦ no_meta ]

  unfoldable pub index_entry : Text → Text → Text → Text → ℕ → ProtMeta → Text → IndexEntry
  unfolding extract_mrna_fields
  index_entry category filename stem sha256 installed_size meta build_date =
      let parsed = parse_prot_filename is_numeric stem in
      let (description, license) = extract_mrna_fields meta.mrna_yaml in
      record {
        name = parsed.name;
        version = parsed.version;
        release = parsed.release;
        description = description;
        license = license;
        arch = parsed.arch;
        category = category;
        filename = category ++ b'/' ∷ filename;
        sha256 = sha256;
        depends = record { runtime = meta.depends_runtime; build = meta.depends_build };
        provides = [];
        conflicts = [];
        installed_size = installed_size;
        build_date = build_date;
      }

  -- The end of `publish`: the index is loaded, changed and saved.
  unfoldable pub update_index :
      RepoDisk → IndexEntry → RepoDisk × Option (Result RepositoryError (Unit {0}))
  update_index disk entry = elim (load json disk.index.db) [
    | err e ↦ (disk, some (err e))
    | ok none ↦ (disk, none)
    | ok (some index) ↦
        let (files, outcome) = save json save_answers disk.index (add_entry index entry) in
        (record { stored = disk.stored; index = files }, some outcome)
  ]

  -- `publish` from the hash of the copied file on.
  unfoldable pub register :
      RepoDisk → Text → Text → Text → Bytes → RepoDisk × Option (Result RepositoryError (Unit {0}))
  unfolding meta_or_default index_entry update_index
  register disk category filename stem content = elim (hash_file content) [
    | err e ↦ (disk, some (err (io e)))
    | ok sha256 ↦ elim (file_len content) [
      | err e ↦ (disk, some (err (io e)))
      | ok installed_size ↦ update_index disk (
          index_entry category filename stem sha256 installed_size (meta_or_default content)
            env.now)
    ]
  ]

  -- The package is given by the content of its file, if the file exists, and the name at the end of
  -- its path, if there is one.
  unfoldable pub publish :
      RepoDisk
      → Option Bytes
      → Option Text
      → Text
      → RepoDisk × Option (Result RepositoryError (Unit {0}))
  unfolding categories strip_suffix put_file register
  publish disk source name category =
      let error = invalid_package (codes "package") in
      if any (text_eq category) categories
      then elim source [
        | none ↦ (disk, some (err (not_found (codes "package file not found"))))
        | some content ↦ elim name [
          | none ↦ (disk, some (err (error (codes "no file name"))))
          | some filename ↦ elim (strip_suffix (codes ".prot") filename) [
            | none ↦ (disk, some (err (error (codes "file must have .prot extension"))))
            | some stem ↦ elim env.copy [
              | torn left ↦ (
                record { stored = put_file category filename left disk.stored; index = disk.index },
                some (err (io filename)),
              )
              | copied ↦
                  register
                    (record {
                      stored = put_file category filename (some content) disk.stored;
                      index = disk.index;
                    })
                    category filename stem content
            ]
          ]
        ]
      ]
      else (disk, some (err (error (codes "invalid category"))))

  -- `path.extension() == Some("prot")`: what stands behind the last point, which is not the first
  -- character.
  unfoldable pub is_prot : Text → Bool
  is_prot filename = elim (rsplit_once b'.' filename) [
    | none ↦ false
    | some (stem, extension) ↦ not (is_empty stem) && text_eq extension (codes "prot")
  ]

  unfoldable pub stem_of : Text → Text
  stem_of filename = elim (rsplit_once b'.' filename) [ none ↦ filename | some (stem, _) ↦ stem ]

  unfoldable pub len_or_zero : Bytes → ℕ
  len_or_zero content = elim (file_len content) [ ok n ↦ n | err e ↦ 0 ]

  -- One file of `rebuild_index`, which has the extension.
  unfoldable pub rebuilt_entry : StoredFile → Text → IndexEntry
  unfolding stem_of len_or_zero meta_or_default index_entry
  rebuilt_entry f sha256 =
      index_entry f.category f.filename (stem_of f.filename) sha256 (len_or_zero f.content)
        (meta_or_default f.content) []

  -- The loop over the files of a category's directory: an entry that cannot be read is passed over.
  unfoldable pub rebuild_files :
      Text → List StoredFile → RepositoryIndex → ℕ → Result RepositoryError (RepositoryIndex × ℕ)
  unfolding is_prot rebuilt_entry
  rebuild_files category [] index count = ok (index, count)
  rebuild_files category (f ∷ files) index count =
      let skipped = rebuild_files category files index count in
      if text_eq f.category category && (env.entry_ok f && is_prot f.filename)
      then elim (hash_file f.content) [
        | err e ↦ err (io e)
        | ok sha256 ↦
            rebuild_files category files (add_entry index (rebuilt_entry f sha256)) (suc count)
      ]
      else skipped

  -- The loop over the categories: a directory that does not exist is passed over.
  unfoldable pub rebuild_categories :
      List Text
      → List StoredFile
      → RepositoryIndex
      → ℕ
      → Result RepositoryError (RepositoryIndex × ℕ)
  unfolding rebuild_files
  rebuild_categories [] files index count = ok (index, count)
  rebuild_categories (cat ∷ cats) files index count = elim (env.dir_exists cat) [
    | false ↦ rebuild_categories cats files index count
    | true ↦ elim (env.dir_error cat) [
      | some e ↦ err (io e)
      | none ↦ elim (rebuild_files cat files index count) [
        | err e ↦ err e
        | ok (next, n) ↦ rebuild_categories cats files next n
      ]
    ]
  ]

  unfoldable pub rebuild_index : RepoDisk → RepoDisk × Result RepositoryError ℕ
  unfolding categories rebuild_categories
  rebuild_index disk =
      elim (rebuild_categories categories disk.stored (record { entries = []; order = [] }) 0) [
        | err e ↦ (disk, err e)
        | ok (index, count) ↦
            let (files, outcome) = save json save_answers disk.index index in
            (record { stored = disk.stored; index = files }, (outcome >>= λ done. ok count))
      ]
