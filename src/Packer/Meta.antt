-- ===== src/Packer/Meta.antt =====
-- `read_meta` of ribosome-package/src/packer.rs: the metadata in a package's archive.
pub mod Depends
pub mod RoundTrip
use lysine_os.Base.{
  Bool, true, false, ◌&&◌, Option, none, some, List, [], ◌∷◌, ◌++◌, Text, codes, text_eq, is_empty,
  trim, strip_prefix, Result, ok, err, ◌>>=◌, map_err, ok_or, if◌then◌else◌,
}
use lysine_os.Base.Lines.{lines}
use lysine_os.Packer.{
  TarEntry, PackageError, io, Archives, Bytes, FilePath, Component, normal, root_dir, parent_dir,
  cur_dir,
}

pub record ProtMeta : Type 0 where
  pub depends_runtime : List Text
  pub depends_build : List Text
  pub mrna_yaml : Option Text

unfoldable pub no_meta : ProtMeta
no_meta = record { depends_runtime = []; depends_build = []; mrna_yaml = none }

-- `if !dep.is_empty() { deps.push(dep) }`, for the trimmed text.
unfoldable pub push_dep : List Text → Text → List Text
push_dep deps text = let dep = trim text in if is_empty dep then deps else deps ++ dep ∷ []

-- One line of `META/depends.txt`.
unfoldable pub read_line : ProtMeta → Text → ProtMeta
unfolding push_dep
read_line meta raw =
    let line = trim raw in
    if is_empty line then meta else elim (strip_prefix (codes "runtime:") line) [
      | some dep ↦ record {
        depends_runtime = push_dep meta.depends_runtime dep;
        depends_build = meta.depends_build;
        mrna_yaml = meta.mrna_yaml;
      }
      | none ↦ elim (strip_prefix (codes "build:") line) [
        | some dep ↦ record {
          depends_runtime = meta.depends_runtime;
          depends_build = push_dep meta.depends_build dep;
          mrna_yaml = meta.mrna_yaml;
        }
        | none ↦ meta
      ]
    ]

unfoldable pub read_lines : ProtMeta → List Text → ProtMeta
unfolding read_line
read_lines meta [] = meta
read_lines meta (line ∷ rest) = read_lines (read_line meta line) rest

-- The two paths that `read_meta` looks for.
pub data MetaFile : Type 0 where
  depends_txt : MetaFile
  mrna_yml : MetaFile
  another : MetaFile

unfoldable pub meta_file : FilePath → MetaFile
meta_file (normal dir ∷ normal file ∷ []) =
    if text_eq dir (codes "META")
    then if text_eq file (codes "depends.txt")
      then depends_txt
      else if text_eq file (codes "mRNA.yml")
      then mrna_yml
      else another
    else another
meta_file _ = another

module _ (archives : Archives) where
  -- `entry.read_to_string(&mut content)`
  unfoldable pub read_text : Bytes → Result PackageError Text
  read_text content = ok_or (io (codes "not UTF-8")) (archives.from_utf8 content)

  unfoldable pub read_entry : ProtMeta → TarEntry → Result PackageError ProtMeta
  unfolding meta_file read_text read_lines
  read_entry meta entry = elim (meta_file entry.path) [
    | depends_txt ↦ (read_text entry.content >>= λ text. ok (read_lines meta (lines text)))
    | mrna_yml ↦
        (read_text entry.content >>= λ text. ok (record {
          depends_runtime = meta.depends_runtime;
          depends_build = meta.depends_build;
          mrna_yaml = some text;
        }))
    | another ↦ ok meta
  ]

  unfoldable pub read_entries :
      ProtMeta → List (Result Text TarEntry) → Result PackageError ProtMeta
  unfolding read_entry
  read_entries meta [] = ok meta
  read_entries meta (err e ∷ rest) = err (io e)
  read_entries meta (ok entry ∷ rest) = elim (read_entry meta entry) [
    | err e ↦ err e
    | ok next ↦ read_entries next rest
  ]

  -- `archive` is the content of the file, if it can be opened.
  unfoldable pub read_meta : Option Bytes → Result PackageError ProtMeta
  unfolding read_entries
  read_meta none = err (io (codes "cannot open"))
  read_meta (some archive) =
      (map_err io (archives.entries archive) >>= λ entries. read_entries no_meta entries)
