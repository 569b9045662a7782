-- ===== src/Examples/Publish.antt =====
-- The index on disk, publishing and rebuilding at concrete inputs.
use lysine_os.Base.{
  subst, sym, split, is_empty, true, false, ◌&&◌, ◌⊎◌, none, some, Option, [], ◌∷◌, ◌++◌, ◌≡◌, refl,
  Text, text_eq, codes, Result, ok, err, All, Elem, any, arith, if◌then◌else◌,
}
use lysine_os.Base.Lines.{lines, lines_of}
use lysine_os.Base.Decimal.{format_nat}
use lysine_os.Parser.Validate.{parse_mrna}
use lysine_os.Examples.Validate.{formats}
use lysine_os.Repository.Filename.{
  rsplit_once, parse_prot_filename, extract_name, take, package_stem, package_filename,
}
use lysine_os.Repository.Index.{
  IndexEntry, RepositoryIndex, lookup, insert, is_some, should_insert, add_entry, find, list_all,
  list_entries,
}
use lysine_os.Repository.Index.Laws.{IsIndexed}
use lysine_os.Repository.Index.Operations.{empty-IsIndexed, add_entry-IsIndexed}
use lysine_os.Repository.Index.Storage.{
  Json, RepositoryError, written, SaveAnswers, IndexFiles, load, save, write_lines, hash_line,
  load_lines, store_content,
}
use lysine_os.Repository.Index.Storage.RoundTrip.{empty_index, IsWritten, load-save, save_atomic}
use lysine_os.Repository.Publish.{
  extract_mrna_fields, categories, RepoDisk, RepoEnv, StoredFile, copied, publish, rebuild_index,
}
use lysine_os.Repository.Publish.Packed.{IsPackable, packed_entry, publish-packed}
use lysine_os.Repository.Publish.Scan.{prot_name, is_scanned}
use lysine_os.Repository.Publish.Rebuild.{rebuild_index-covers}
use lysine_os.Examples.Packages.{
  meta, dest, archives, entries, hash, is_numeric, packed, gcc-IsDep, lib-IsDep, named, numeric,
  single,
}

abbrev no_files : IndexFiles
no_files = record { db = some []; tmp = none; hash = none }

-- An entry is written as its name between braces, and one entry is read back.
abbrev json : IndexEntry → Json
json e = record {
  to_string = λ x. ok (b'{' ∷ x.name ++ b'}' ∷ []);
  from_str = λ t. if text_eq t (codes "{hello-2}") then ok e else err (codes "bad");
  sha256_str = λ t. codes "00";
}

abbrev saves : SaveAnswers
saves = record { write_tmp = written; can_rename = true; write_hash = written }

abbrev env : IndexEntry → RepoEnv
env e = record {
  json = json e;
  archives = archives entries;
  formats = formats;
  from_yaml = λ t. err (codes "no YAML");
  is_numeric = is_numeric;
  copy = copied;
  hash_file = λ b. ok (codes "sha256:ab");
  file_len = λ b. ok 1;
  dir_error = λ t. none;
  dir_exists = λ c. true;
  entry_ok = λ f. true;
  now = codes "today";
  save_answers = saves;
}

abbrev pub entry : IndexEntry
entry = record {
  name = codes "hello-2";
  version = codes "1.0";
  release = 3;
  description = [];
  license = [];
  arch = codes "x86_64";
  category = codes "core";
  filename = codes "core/hello-2-1.0-3-x86_64.prot";
  sha256 = codes "sha256:ab";
  depends = record { runtime = codes "lib >= 1.0" ∷ []; build = codes "gcc" ∷ [] };
  provides = [];
  conflicts = [];
  installed_size = 1;
  build_date = codes "today";
}

abbrev one : RepositoryIndex
one = add_entry empty_index entry

one-IsWritten : All (IsWritten (json entry)) (list_all one)
unfolding list_all list_entries add_entry should_insert lookup insert is_some text_eq
one-IsWritten = (
  record {
    line = codes "{hello-2}";
    inner = codes "hello-2";
    printed = refl;
    object = refl;
    one_line = (refl, (refl, (refl, (refl, (refl, (refl, (refl, (refl, (refl, tt)))))))));
    read_back = refl;
  },
  tt,
)

load-save_example :
    ((save (json entry) saves no_files one).1 ≡ ok tt)
    × ((loaded : RepositoryIndex) × (load (json entry) (save (json entry) saves no_files one).0.db
          ≡ ok (some loaded))
        × (loaded.order ≡ one.order)
        × ((n : Text) → find loaded n ≡ find one n))
load-save_example =
    load-save (json entry) no_files one (add_entry-IsIndexed empty_index entry empty-IsIndexed)
      one-IsWritten

save_atomic_example :
    let after = (save (json entry) saves no_files one).0 in
    ((after.db ≡ some [])
      ⊎ ((content : Text) × (write_lines (json entry) one.entries one.order ≡ ok content)
          × (after.db ≡ some content)))
    × ((save (json entry) saves no_files one).1 ≡ ok tt
        → (content : Text) × (write_lines (json entry) one.entries one.order ≡ ok content)
          × (after.db ≡ some content)
          × (after.tmp ≡ none)
          × (after.hash ≡ some (hash_line (json entry) content)))
save_atomic_example = save_atomic (json entry) saves no_files one

meta-IsPackable : IsPackable is_numeric meta
meta-IsPackable = record {
  named = named;
  numeric = numeric;
  single = single;
  fits = omega arith;
  plain = (refl, (refl, (refl, (refl, (refl, (refl, tt))))));
  build = (gcc-IsDep, tt);
  runtime = (lib-IsDep, tt);
}

abbrev repo : RepoDisk
repo = record { stored = []; index = no_files }

loads : load (json entry) (some []) ≡ ok (some empty_index)
unfolding load lines lines_of split is_empty load_lines
loads = refl

known : any (text_eq (codes "core")) categories ≡ true
unfolding categories text_eq
known = refl

absent : find empty_index (codes "hello-2") ≡ none
unfolding find lookup
absent = refl

same_entry : packed_entry (env entry) (codes "core") meta (codes "sha256:ab") 1 ≡ entry
unfolding extract_mrna_fields parse_mrna package_filename package_stem format_nat
same_entry = refl

abbrev published : RepoDisk × Option (Result RepositoryError (Unit {0}))
published =
    publish (env entry) repo (some (7 ∷ []))
      (some (package_filename meta.name meta.version meta.release meta.arch)) (codes "core")

publish-packed_example :
    (published.1 ≡ some (ok tt))
    × ((loaded : RepositoryIndex) × (load (json entry) published.0.index.db ≡ ok (some loaded))
        × (find loaded (codes "hello-2")
            ≡ some (packed_entry (env entry) (codes "core") meta (codes "sha256:ab") 1))
        × ((other : Text)
            → text_eq other (codes "hello-2") ≡ false
            → find loaded other ≡ find empty_index other))
publish-packed_example =
    publish-packed (env entry) (codes "core") meta meta-IsPackable hash dest entries packed refl
      (λ t. refl) repo empty_index (codes "sha256:ab") 1 known
      (record { copies = refl; hashed = refl; measured = refl; saves = refl }) loads empty-IsIndexed
      absent
      (subst (λ e. All (IsWritten (json entry)) (list_all (add_entry empty_index e)))
        (sym same_entry) one-IsWritten)

abbrev stored : StoredFile
stored = record {
  category = codes "core";
  filename = codes "hello-2-1.0-3-x86_64.prot";
  content = 7 ∷ [];
}

abbrev unindexed : RepoDisk
unindexed = record { stored = stored ∷ []; index = no_files }

rebuilt : (rebuild_index (env entry) unindexed).1 ≡ ok 1
unfolding rebuild_index text_eq rsplit_once is_empty save add_entry parse_prot_filename extract_name
    take store_content
rebuilt = refl

rebuild_index-covers_example :
    (index : RepositoryIndex) × (content : Text) × (write_lines
        (json entry)
        index.entries
        index.order
      ≡ ok content)
    × ((rebuild_index (env entry) unindexed).0.index.db ≡ some content)
    × IsIndexed index
    × ((f : StoredFile)
        → Elem f (stored ∷ [])
        → (any (text_eq f.category) categories && is_scanned (env entry) f) ≡ true
        → is_some (find index (prot_name (env entry) f)) ≡ true)
rebuild_index-covers_example = rebuild_index-covers (env entry) unindexed 1 rebuilt
