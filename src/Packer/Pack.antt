-- ===== src/Packer/Pack.antt =====
-- `pack` of ribosome-package/src/packer.rs: the entries of a package's archive, and its file.
pub mod Atomic
use lysine_os.Base.{
  ℕ, Bool, true, false, Option, none, some, List, [], ◌∷◌, ◌++◌, Text, codes, Result, ok, err,
  ◌>>=◌, map_err, if◌then◌else◌, ok_or, suc, length,
}
use lysine_os.Base.Decimal.{format_nat}
use lysine_os.Repository.Filename.{package_filename}
use lysine_os.Packer.{
  TarEntry, PackageError, creation_failed, io, Archives, Bytes, FilePath, normal, relative_path,
  display, meta_path, mrna_path, depends_path,
}

pub record PackageMeta : Type 0 where
  pub name : Text
  pub version : Text
  pub release : ℕ
  pub arch : Text
  pub mrna_yaml : Text
  pub depends_build : List Text
  pub depends_runtime : List Text
  pub post_install : Option Text
  pub post_remove : Option Text
  -- The seconds, with one decimal.
  pub build_duration : Text

-- What stands at a path below DESTDIR: `is_file` of a path follows a link, that of an entry's type
-- does not.
pub data FileKind : Type 0 where
  regular : FileKind
  link_to_file : FileKind
  other : FileKind

pub record DestEntry : Type 0 where
  pub relative : List Text
  pub kind : FileKind
  pub mode : ℕ
  -- The content, if it can be read.
  pub content : Option Bytes

pub record PackResult : Type 0 where
  pub path : Text
  pub sha256 : Text
  pub file_count : ℕ
  pub size_bytes : ℕ

unfoldable pub is_file : FileKind → Bool
is_file regular = true
is_file link_to_file = true
is_file other = false

unfoldable pub is_regular : FileKind → Bool
is_regular regular = true
is_regular link_to_file = false
is_regular other = false

unfoldable pub unreadable : PackageError
unreadable = io (codes "cannot read")

-- `hash` is the SHA-256 of a content, in hexadecimal.
unfoldable pub manifest_lines : (Bytes → Text) → List DestEntry → Result PackageError Text
manifest_lines hash [] = ok []
manifest_lines hash (e ∷ es) =
    let rest = manifest_lines hash es in
    if is_regular e.kind
    then (ok_or unreadable e.content >>= λ content.
        rest >>= λ text. ok (hash content ++ (codes "  " ++ (display e.relative ++ b'\n' ∷ text))))
    else rest

unfoldable pub depends_lines : Text → List Text → Text
depends_lines tag [] = []
depends_lines tag (dep ∷ deps) = (tag ++ dep) ++ b'\n' ∷ depends_lines tag deps

unfoldable pub depends_content : PackageMeta → Text
unfolding depends_lines
depends_content meta =
    depends_lines (codes "build: ") meta.depends_build
    ++ depends_lines (codes "runtime: ") meta.depends_runtime

unfoldable pub build_info : PackageMeta → Text
build_info meta =
    codes "package: "
    ++ (meta.name
        ++ (codes "\nversion: "
            ++ (meta.version
                ++ (codes "\nrelease: "
                    ++ (format_nat meta.release
                        ++ (codes "\narch: "
                            ++ (meta.arch
                                ++ (codes "\nbuild_duration: "
                                    ++ (meta.build_duration
                                        ++ codes "s\nribosome_version: 0.1.0\n")))))))))

-- The loop over the files.
unfoldable pub file_entries : List DestEntry → Result PackageError (List TarEntry)
unfolding is_file
file_entries [] = ok []
file_entries (e ∷ es) =
    let rest = file_entries es in
    if is_file e.kind
    then (ok_or unreadable e.content >>= λ content. rest >>= λ more. ok (
        record {
          path = normal (codes "FILES") ∷ relative_path e.relative;
          mode = e.mode;
          content = content;
        }
        ∷ more))
    else rest

-- The files of the archive: under its temporary name, and under its own.
pub record OutputFiles : Type 0 where
  pub tmp : Option Bytes
  pub final : Option Bytes

-- How the calls of the system go: whether the temporary file is created, what it holds after a
-- failed step, whether all entries are written, whether it is renamed, whether it is removed if
-- not, the hash of a file, if the file can be read, and why its metadata cannot be read, if they
-- cannot.
pub record PackAnswers : Type 0 where
  pub creates : Bool
  pub torn : Option Bytes
  pub writes : Bool
  pub renames : Bool
  pub removes : Bool
  pub hash_contents : Bytes → Text
  pub hash_file : Bytes → Result Text Text
  pub metadata_error : Option Text

unfoldable pub count_files : List DestEntry → ℕ
unfolding is_file
count_files [] = 0
count_files (e ∷ es) = let n = count_files es in if is_file e.kind then suc n else n

module _ (archives : Archives) where
  open archives use {as_bytes}

  unfoldable pub script_entry : Text → Option Text → List TarEntry
  script_entry file none = []
  script_entry file (some script) =
      record {
        path = normal (codes "SCRIPTS") ∷ normal file ∷ [];
        mode = 0o755;
        content = as_bytes script;
      }
      ∷ []

  abbrev pub meta_entry : FilePath → Text → TarEntry
  meta_entry path text = record { path = path; mode = 0o644; content = as_bytes text }

  -- The entries of the archive, in order. A DESTDIR that does not exist has no files.
  unfoldable pub pack_entries :
      (Bytes → Text) → List DestEntry → PackageMeta → Result PackageError (List TarEntry)
  unfolding script_entry depends_content build_info
  pack_entries hash dest meta =
      (manifest_lines hash dest >>= λ manifest. file_entries dest >>= λ files. ok (
        meta_entry mrna_path meta.mrna_yaml
        ∷ meta_entry (meta_path (codes "manifest.txt")) manifest
        ∷ meta_entry depends_path (depends_content meta)
        ∷ meta_entry (meta_path (codes "build-info.txt")) (build_info meta)
        ∷ (files
            ++ (script_entry (codes "post-install.sh") meta.post_install
                ++ script_entry (codes "post-remove.sh") meta.post_remove))))

  unfoldable pub pack_result :
      PackAnswers → List DestEntry → PackageMeta → Bytes → Result PackageError PackResult
  pack_result answers dest meta archive =
      (map_err creation_failed (answers.hash_file archive) >>= λ sha256.
      elim answers.metadata_error [
        | some e ↦ err (io e)
        | none ↦ ok (record {
          path = package_filename meta.name meta.version meta.release meta.arch;
          sha256 = sha256;
          file_count = count_files dest;
          size_bytes = length archive;
        })
      ])

  -- The rename at the end.
  unfoldable pub finish_pack :
      PackAnswers
      → List DestEntry
      → PackageMeta
      → OutputFiles
      → Bytes
      → OutputFiles × Result PackageError PackResult
  unfolding pack_result
  finish_pack answers dest meta files archive =
      if answers.renames
      then (record { tmp = none; final = some archive }, pack_result answers dest meta archive)
      else (
        record { tmp = if answers.removes then none else some archive; final = files.final },
        err (creation_failed (codes "failed to rename")),
      )

  unfoldable pub pack :
      PackAnswers
      → List DestEntry
      → PackageMeta
      → OutputFiles
      → OutputFiles × Result PackageError PackResult
  unfolding pack_entries finish_pack
  pack answers dest meta files =
      let torn : OutputFiles = record { tmp = answers.torn; final = files.final } in
      if answers.creates
      then elim (pack_entries answers.hash_contents dest meta) [
        | err e ↦ (torn, err e)
        | ok entries ↦
            if answers.writes
            then finish_pack answers dest meta files (archives.write entries)
            else (torn, err (io (codes "cannot write")))
      ]
      else (files, err (io (codes "cannot create")))
