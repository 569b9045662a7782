-- ===== src/Packer.antt =====
-- ribosome/crates/ribosome-package/src/packer.rs: the package archives, and what the module uses of
-- the crates tar and zstd and of the standard library.
pub mod Pack
pub mod Meta
pub mod Unpack
use lysine_os.Base.{ℕ, Bool, true, false, Option, List, [], ◌∷◌, Text, Result, join, map, codes}

-- The components of a path.
pub data Component : Type 0 where
  root_dir : Component
  parent_dir : Component
  cur_dir : Component
  normal : Text → Component

abbrev pub FilePath : Type 0
FilePath = List Component

abbrev pub Bytes : Type 0
Bytes = List ℕ

pub record TarEntry : Type 0 where
  pub path : FilePath
  pub mode : ℕ
  pub content : Bytes

pub data PackageError : Type 0 where
  creation_failed : Text → PackageError
  extraction_failed : Text → PackageError
  hash_mismatch : Text → Text → PackageError
  io : Text → PackageError

-- Bytes of texts, and the archives: what is written for some entries, and the entries that are
-- read, each of which may be damaged.
pub record Archives : Type 0 where
  pub as_bytes : Text → Bytes
  pub from_utf8 : Bytes → Option Text
  pub write : List TarEntry → Bytes
  pub entries : Bytes → Result Text (List (Result Text TarEntry))

-- The path of a file below a directory, and its text.
unfoldable pub relative_path : List Text → FilePath
relative_path [] = []
relative_path (n ∷ ns) = normal n ∷ relative_path ns

unfoldable pub display : List Text → Text
display ns = join (codes "/") ns

abbrev pub meta_path : Text → FilePath
meta_path file = normal (codes "META") ∷ normal file ∷ []

abbrev pub mrna_path : FilePath
mrna_path = meta_path (codes "mRNA.yml")

abbrev pub depends_path : FilePath
depends_path = meta_path (codes "depends.txt")
