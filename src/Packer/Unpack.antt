-- ===== src/Packer/Unpack.antt =====
-- `unpack` of ribosome-package/src/packer.rs: the files of a package are written below a directory.
pub mod Below
pub mod Contained
use lysine_os.Base.{
  Bool, true, false, Option, none, some, List, [], ◌∷◌, ◌++◌, Text, codes, text_eq, Result, ok, err,
  any, if◌then◌else◌,
}
use lysine_os.Packer.{
  TarEntry, PackageError, extraction_failed, io, Archives, Bytes, FilePath, Component, root_dir,
  parent_dir, cur_dir, normal,
}

unfoldable pub is_parent_dir : Component → Bool
is_parent_dir parent_dir = true
is_parent_dir root_dir = false
is_parent_dir cur_dir = false
is_parent_dir (normal n) = false

-- `path.strip_prefix("FILES")`
unfoldable pub strip_files : FilePath → Option FilePath
strip_files (normal n ∷ path) = if text_eq n (codes "FILES") then some path else none
strip_files _ = none

-- `dir.join(path)`: a path that begins at the root replaces the directory.
unfoldable pub join_path : FilePath → FilePath → FilePath
join_path dir (root_dir ∷ path) = root_dir ∷ path
join_path dir path = dir ++ path

unfoldable pub parent_of_one : Component → Option FilePath
parent_of_one root_dir = none
parent_of_one parent_dir = some []
parent_of_one cur_dir = some []
parent_of_one (normal n) = some []

-- `path.parent()`
unfoldable pub parent : FilePath → Option FilePath
unfolding parent_of_one
parent [] = none
parent (c ∷ []) = parent_of_one c
parent (c ∷ d ∷ path) = elim (parent (d ∷ path)) [ none ↦ none | some p ↦ some (c ∷ p) ]

-- What the module uses of the file system and of tar: the file system after a call, and whether the
-- call failed.
pub record Disk (Fs : Type 0) : Type 0 where
  pub create_dir_all : FilePath → Fs → Fs × Option Text
  pub unpack_entry : TarEntry → FilePath → Fs → Fs × Option Text

-- What becomes of one entry.
pub data Verdict : Type 0 where
  skip : Verdict
  escapes : FilePath → Verdict
  extract : FilePath → Verdict

unfoldable pub verdict : FilePath → TarEntry → Verdict
unfolding strip_files is_parent_dir join_path
verdict target entry = elim (strip_files entry.path) [
  | none ↦ skip
  | some [] ↦ skip
  | some (c ∷ relative) ↦
      if any is_parent_dir (c ∷ relative)
      then escapes (c ∷ relative)
      else extract (join_path target (c ∷ relative))
]

module _ (Fs : Type 0) (disk : Disk Fs) where
  open disk use {create_dir_all, unpack_entry}

  -- `if let Some(parent) = target.parent() { create_dir_all(parent)? }`
  unfoldable pub create_parent : FilePath → Fs → Fs × Option Text
  unfolding parent
  create_parent path fs = elim (parent path) [
    | none ↦ (fs, none)
    | some dir ↦ create_dir_all dir fs
  ]

  unfoldable pub extract_file : TarEntry → FilePath → Fs → Fs × Option Text
  unfolding create_parent
  extract_file entry path fs =
      let (made, outcome) = create_parent path fs in
      elim outcome [ some e ↦ (made, some e) | none ↦ unpack_entry entry path made ]

  -- The loop, with the paths that were extracted.
  unfoldable pub unpack_entries :
      FilePath
      → List (Result Text TarEntry)
      → List FilePath
      → Fs
      → Fs × Result PackageError (List FilePath)
  unfolding verdict extract_file
  unpack_entries target [] extracted fs = (fs, ok extracted)
  unpack_entries target (err e ∷ rest) extracted fs = (fs, err (io e))
  unpack_entries target (ok entry ∷ rest) extracted fs = elim (verdict target entry) [
    | skip ↦ unpack_entries target rest extracted fs
    | escapes relative ↦ (fs, err (extraction_failed (codes "path escapes FILES root")))
    | extract path ↦ elim (extract_file entry path fs).1 [
      | some e ↦ ((extract_file entry path fs).0, err (io e))
      | none ↦ unpack_entries target rest (extracted ++ path ∷ []) (extract_file entry path fs).0
    ]
  ]

  -- `archive` is the content of the package's file, if it can be opened.
  unfoldable pub unpack :
      Archives → Option Bytes → FilePath → Fs → Fs × Result PackageError (List FilePath)
  unfolding unpack_entries
  unpack archives none target fs = (fs, err (io (codes "cannot open")))
  unpack archives (some archive) target fs = elim (create_dir_all target fs).1 [
    | some e ↦ ((create_dir_all target fs).0, err (io e))
    | none ↦ elim (archives.entries archive) [
      | err e ↦ ((create_dir_all target fs).0, err (io e))
      | ok entries ↦ unpack_entries target entries [] (create_dir_all target fs).0
    ]
  ]
