-- ===== src/Examples/Unpack.antt =====
-- Unpacking at concrete inputs: a file system is the list of the paths that were made.
use lysine_os.Base.{
  none, some, List, [], ◌∷◌, ◌++◌, ◌≡◌, refl, Text, text_eq, codes, Result, ok, err, All, arith,
  subst,
}
use lysine_os.Packer.{TarEntry, Archives, Bytes, FilePath, extraction_failed, normal, parent_dir}
use lysine_os.Packer.Unpack.{
  Disk, unpack, unpack_entries, verdict, strip_files, is_parent_dir, join_path, extract_file,
  create_parent, parent, parent_of_one,
}
use lysine_os.Packer.Unpack.Below.{EntryIsPath, IsBelow}
use lysine_os.Packer.Unpack.Contained.{Writes, unpack-contained}

abbrev disk : Disk (List FilePath)
disk = record {
  create_dir_all = λ p fs. (fs ++ p ∷ [], none);
  unpack_entry = λ e p fs. (fs ++ p ∷ [], none);
}

abbrev file : FilePath → TarEntry
file p = record { path = p; mode = 0o644; content = [] }

abbrev target : FilePath
target = normal (codes "root") ∷ []

-- The second file is named to escape from the directory.
abbrev entries : List (Result Text TarEntry)
entries =
    ok (file (normal (codes "FILES") ∷ normal (codes "a") ∷ []))
    ∷ ok (file (normal (codes "FILES") ∷ parent_dir ∷ normal (codes "b") ∷ []))
    ∷ []

abbrev archives : Archives
archives = record {
  as_bytes = λ t. t;
  from_utf8 = λ b. some b;
  write = λ _. [];
  entries = λ _. ok entries;
}

entries-EntryIsPath :
    (content : Bytes) (es : List (Result Text TarEntry))
    → archives.entries content ≡ ok es
    → All EntryIsPath es
entries-EntryIsPath content es e = subst (All EntryIsPath) same ((tt, tt), ((tt, (tt, tt)), tt))
  where
    same : entries ≡ es
    same = ground (arith, e)

unpack-contained_example :
    Writes
      (List FilePath)
      disk
      target
      []
      (unpack (List FilePath) disk archives (some []) target []).0
    × ((paths : List FilePath)
        → (unpack (List FilePath) disk archives (some []) target []).1 ≡ ok paths
        → All (IsBelow target) paths)
unpack-contained_example =
    unpack-contained (List FilePath) disk archives (some []) target [] entries-EntryIsPath

-- The first file is there, and the second is refused.
refused : unpack (List FilePath) disk archives (some []) target [] ≡ (
  target ∷ target ∷ (target ++ normal (codes "a") ∷ []) ∷ [],
  err (extraction_failed (codes "path escapes FILES root")),
)
unfolding unpack unpack_entries verdict strip_files is_parent_dir join_path extract_file
    create_parent parent parent_of_one text_eq
refused = refl
