-- ===== src/Store/Vacuole.antt =====
-- ribosome/crates/ribosome-store/src/store.rs: the objects on disk, and `put_bytes`, `contains`,
-- `get`, `size` and `stats`.
pub mod Content
pub mod Put
use lysine_os.Base.{
  ℕ, ◌+◌, ◌%◌, ◌^◌, Bool, true, false, ◌&&◌, Option, none, some, List, [], ◌∷◌, ◌++◌, ◌≡◌, refl,
  Text, codes, text_eq, Result, ok, err, if◌then◌else◌, length, any, retain, not,
}
use lysine_os.Store.Digest.{Sha256Digest, Fault, io, shard, file_name}

-- A file `objects/<dir>/<name>`.
pub record ObjectFile : Type 0 where
  pub dir : Text
  pub name : Text
  pub content : List ℕ

-- A file `refs/<namespace>/<name>`.
pub record RefFile : Type 0 where
  pub namespace : Text
  pub name : Text
  pub content : Text

-- The part of the disk below the root of a store, in the order in which directories are read.
pub record VacuoleStore : Type 0 where
  pub objects : List ObjectFile
  pub refs : List RefFile

-- The file stands at `objects/<dir>/<name>`.
unfoldable pub at_path : Text → Text → ObjectFile → Bool
at_path dir name f = text_eq f.dir dir && text_eq f.name name

-- The content at a path.
unfoldable pub read_object : List ObjectFile → Text → Text → Option (List ℕ)
unfolding at_path
read_object [] dir name = none
read_object (f ∷ fs) dir name =
    if at_path dir name f then some f.content else read_object fs dir name

unfoldable pub exists_object : List ObjectFile → Text → Text → Bool
exists_object fs dir name = any (at_path dir name) fs

-- `remove_file`
unfoldable pub remove_object : List ObjectFile → Text → Text → List ObjectFile
unfolding at_path retain
remove_object fs dir name = retain (λ f. not (at_path dir name f)) fs

-- `File::create`, the writes, and a rename over what stands there.
unfoldable pub write_object : List ObjectFile → Text → Text → List ℕ → List ObjectFile
unfolding remove_object
write_object fs dir name content =
    remove_object fs dir name ++ record { dir = dir; name = name; content = content } ∷ []

unfoldable pub contains : VacuoleStore → Sha256Digest → Bool
unfolding exists_object shard file_name
contains s d = exists_object s.objects (shard d) (file_name d)

-- `get`, and `read_bytes` of its handle.
unfoldable pub get : VacuoleStore → Sha256Digest → Option (List ℕ)
unfolding read_object shard file_name
get s d = read_object s.objects (shard d) (file_name d)

unfoldable pub size : VacuoleStore → Sha256Digest → Option ℕ
unfolding get
size s d = elim (get s d) [ none ↦ none | some bytes ↦ some (length bytes) ]

-- What the system answers to the calls of `write_atomic` and to the `create_dir_all` before it. A
-- write that fails leaves a part of the content in the temporary file.
pub data WriteOutcome : Type 0 where
  create_fails : Text → WriteOutcome
  write_fails : List ℕ → Text → WriteOutcome
  renamed : WriteOutcome
  already_exists : WriteOutcome
  rename_fails : Text → WriteOutcome

-- `path.with_extension(format!("tmp.{pid}"))`: the name of an object has no extension to replace.
unfoldable pub tmp_name : Text → Text → Text
tmp_name pid name = name ++ (codes ".tmp." ++ pid)

-- The temporary file is made first, over any file of its name; the rename or the clean-up takes it
-- away.
unfoldable pub write_atomic :
    Text
    → WriteOutcome
    → List ObjectFile
    → Text
    → Text
    → List ℕ
    → List ObjectFile × Result Fault (Unit {0})
unfolding write_object remove_object tmp_name
write_atomic pid (create_fails e) fs dir name content = (fs, err (io e))
write_atomic pid (write_fails part e) fs dir name content =
    (write_object fs dir (tmp_name pid name) part, err (io e))
write_atomic pid renamed fs dir name content =
    (write_object (remove_object fs dir (tmp_name pid name)) dir name content, ok tt)
write_atomic pid already_exists fs dir name content =
    (remove_object fs dir (tmp_name pid name), ok tt)
write_atomic pid (rename_fails e) fs dir name content =
    (remove_object fs dir (tmp_name pid name), err (io e))

-- The store after the call, and the digest. The hash function is SHA-256 of the crate `sha2`.
module _ (sha256 : List ℕ → Sha256Digest) (pid : Text) where
  unfoldable pub put_bytes :
      WriteOutcome → VacuoleStore → List ℕ → VacuoleStore × Result Fault Sha256Digest
  unfolding contains write_atomic
  put_bytes outcome s bytes =
      let d = sha256 bytes in
      if contains s d
      then (s, ok d)
      else let (fs, r) = write_atomic pid outcome s.objects (shard d) (file_name d) bytes in
        (record s { objects = fs }, elim r [ ok _ ↦ ok d | err e ↦ err e ])

-- `u64` addition.
abbrev pub add_u64 : ℕ → ℕ → ℕ
add_u64 a b = (a + b) % 2 ^ 64

pub record StoreStats : Type 0 where
  pub object_count : ℕ
  pub total_bytes : ℕ

unfoldable pub count_objects : List ObjectFile → StoreStats → StoreStats
count_objects [] t = t
count_objects (f ∷ fs) t = count_objects fs (record {
  object_count = add_u64 t.object_count 1;
  total_bytes = add_u64 t.total_bytes (length f.content);
})

unfoldable pub stats : VacuoleStore → StoreStats
unfolding count_objects
stats s = count_objects s.objects (record { object_count = 0; total_bytes = 0 })
