-- ===== src/Repository/Publish/Packed.antt =====
-- A package that `pack` made is found after it is published
-- (ribosome-package/src/packer.rs, ribosome-repository/src/repository.rs and index.rs).
use lysine_os.Base.{
  ℕ, ◌^◌, ◌<◌, Bool, true, false, none, some, List, [], ◌∷◌, ◌++◌, ◌≡◌, ◌≢◌, refl, ap, ◌∙◌, Text,
  codes, text_eq, strip_prefix-append, ok, any, map, All, Lacks,
}
use mathlib.Core.List.{reverse, reverse-append, reverse-reverse}
use lysine_os.Packer.{TarEntry, Bytes}
use lysine_os.Packer.Pack.{PackageMeta, DestEntry, pack_entries}
use lysine_os.Packer.Meta.{ProtMeta}
use lysine_os.Packer.Meta.Depends.{IsDep}
use lysine_os.Packer.Meta.RoundTrip.{read_meta-pack_entries}
use lysine_os.Repository.Filename.{starts_numeric, package_stem, package_filename}
use lysine_os.Repository.Filename.RoundTrip.{splits, parse_prot_filename-package_stem}
use lysine_os.Repository.Index.{IndexEntry, RepositoryIndex, add_entry, find, list_all}
use lysine_os.Repository.Index.Laws.{IsIndexed}
use lysine_os.Repository.Index.Operations.{add_entry-IsIndexed, find-add_entry}
use lysine_os.Repository.Index.Storage.{written, load, save}
use lysine_os.Repository.Index.Storage.RoundTrip.{IsWritten, load-save}
use lysine_os.Repository.Publish.{
  categories, RepoDisk, RepoEnv, copied, strip_suffix, put_file, extract_mrna_fields,
  meta_or_default, index_entry, update_index, register, publish,
}

strip_suffix-append : (s p : Text) → strip_suffix p (s ++ p) ≡ some s
unfolding strip_suffix
strip_suffix-append s p =
    rw (strip_suffix, reverse-append s p, strip_prefix-append (reverse p) (reverse s))
      (ap some (reverse-reverse s))

-- The steps of `publish`, when no call fails.
module _ (env : RepoEnv) (disk : RepoDisk) (category filename stem : Text) (content : Bytes) where
  after_copy : RepoDisk
  after_copy = record {
    stored = put_file category filename (some content) disk.stored;
    index = disk.index;
  }

  publish-copied :
      any (text_eq category) categories ≡ true
      → env.copy ≡ copied
      → strip_suffix (codes ".prot") filename ≡ some stem
      → publish env disk (some content) (some filename) category
        ≡ register env after_copy category filename stem content
  unfolding publish after_copy
  publish-copied known copies suffix = rw (publish, known, suffix, copies) refl

  register-hashed :
      (from : RepoDisk) (sha256 : Text) (size : ℕ)
      → env.hash_file content ≡ ok sha256
      → env.file_len content ≡ ok size
      → register env from category filename stem content
        ≡ update_index env from (
            index_entry env category filename stem sha256 size
              (meta_or_default env content)
              env.now)
  unfolding register
  register-hashed from sha256 size hashed measured = rw (register, hashed, measured) refl

  update_index-saved :
      (from : RepoDisk) (entry : IndexEntry) (index : RepositoryIndex)
      → load env.json from.index.db ≡ ok (some index)
      → update_index env from entry ≡ (
        record {
          stored = from.stored;
          index = (save env.json env.save_answers from.index (add_entry index entry)).0;
        },
        some (save env.json env.save_answers from.index (add_entry index entry)).1,
      )
  unfolding update_index
  update_index-saved from entry index loads = rw (update_index, loads) refl

-- The fields of the package can be read back from its file's name, and its dependencies from lines.
pub record IsPackable (is_numeric : ℕ → Bool) (meta : PackageMeta) : Type 0 where
  pub named : meta.name ≢ []
  pub numeric : starts_numeric is_numeric meta.version ≡ true
  pub single : splits is_numeric meta.version ≡ false
  pub fits : meta.release < 2 ^ 32
  pub plain : Lacks b'-' meta.arch
  pub build : All IsDep meta.depends_build
  pub runtime : All IsDep meta.depends_runtime

-- No call of the system fails.
pub record Succeeds (env : RepoEnv) (content : Bytes) (sha256 : Text) (size : ℕ) : Type 0 where
  pub copies : env.copy ≡ copied
  pub hashed : env.hash_file content ≡ ok sha256
  pub measured : env.file_len content ≡ ok size
  pub saves :
      env.save_answers ≡ record { write_tmp = written; can_rename = true; write_hash = written }

-- The entry of a package in the index.
abbrev pub packed_entry : RepoEnv → Text → PackageMeta → Text → ℕ → IndexEntry
packed_entry env category meta sha256 size = record {
  name = meta.name;
  version = meta.version;
  release = meta.release;
  description = (extract_mrna_fields env (some meta.mrna_yaml)).0;
  license = (extract_mrna_fields env (some meta.mrna_yaml)).1;
  arch = meta.arch;
  category = category;
  filename = category ++ b'/' ∷ package_filename meta.name meta.version meta.release meta.arch;
  sha256 = sha256;
  depends = record { runtime = meta.depends_runtime; build = meta.depends_build };
  provides = [];
  conflicts = [];
  installed_size = size;
  build_date = env.now;
}

module _ (env : RepoEnv) (category : Text) (meta : PackageMeta)
    (packable : IsPackable env.is_numeric meta) where
  index_entry-packed :
      (filename sha256 : Text) (size : ℕ) (prot : ProtMeta)
      → prot ≡ record {
        depends_runtime = meta.depends_runtime;
        depends_build = meta.depends_build;
        mrna_yaml = some meta.mrna_yaml;
      }
      → filename ≡ package_filename meta.name meta.version meta.release meta.arch
      → index_entry env category filename
          (package_stem meta.name meta.version meta.release meta.arch)
          sha256
          size
          prot
          env.now
        ≡ packed_entry env category meta sha256 size
  unfolding index_entry
  index_entry-packed filename sha256 size prot e f =
      rw
        (
          e,
          index_entry,
          f,
          parse_prot_filename-package_stem env.is_numeric meta.name meta.version meta.release
              meta.arch packable.named packable.numeric packable.single packable.fits
              packable.plain,
        )
        refl

  module _ (hash : Bytes → Text) (dest : List DestEntry) (es : List TarEntry)
      (packed : pack_entries env.archives hash dest meta ≡ ok es)
      (archived : env.archives.entries (env.archives.write es) ≡ ok (map ok es))
      (texts : (t : Text) → env.archives.from_utf8 (env.archives.as_bytes t) ≡ some t) where
    meta_or_default-packed : meta_or_default env (env.archives.write es) ≡ record {
      depends_runtime = meta.depends_runtime;
      depends_build = meta.depends_build;
      mrna_yaml = some meta.mrna_yaml;
    }
    unfolding meta_or_default
    meta_or_default-packed =
        rw
          (
            meta_or_default,
            read_meta-pack_entries env.archives hash dest meta es packed archived texts
                packable.build packable.runtime,
          )
          refl

    -- A package that `pack` made is published in a category, in a repository whose index is in order
    -- and has no entry of its name. If its fields can be read back from its file's name and its
    -- lines, the archive holds the entries and the texts that were written, serde_json reads back the
    -- entries of the new index, and no call fails, then `publish` succeeds, and the index that is
    -- loaded afterwards has the package with its name, version, release, architecture and
    -- dependencies, and finds every other name as before.
    pub publish-packed :
        (disk : RepoDisk) (index : RepositoryIndex) (sha256 : Text) (size : ℕ)
        → any (text_eq category) categories ≡ true
        → Succeeds env (env.archives.write es) sha256 size
        → load env.json disk.index.db ≡ ok (some index)
        → IsIndexed index
        → find index meta.name ≡ none
        → All
            (IsWritten env.json)
            (list_all (add_entry index (packed_entry env category meta sha256 size)))
        → let (after, outcome) =
            publish env disk
              (some (env.archives.write es))
              (some (package_filename meta.name meta.version meta.release meta.arch))
              category in
          (outcome ≡ some (ok tt))
          × ((loaded : RepositoryIndex) × (load env.json after.index.db ≡ ok (some loaded))
              × (find loaded meta.name ≡ some (packed_entry env category meta sha256 size))
              × ((other : Text)
                  → text_eq other meta.name ≡ false
                  → find loaded other ≡ find index other))
    unfolding package_filename after_copy extract_mrna_fields
    publish-packed disk index sha256 size known calls loads h fresh reads =
        let stem = package_stem meta.name meta.version meta.release meta.arch in
        let filename = package_filename meta.name meta.version meta.release meta.arch in
        let content = env.archives.write es in
        let entry = packed_entry env category meta sha256 size in
        let from : RepoDisk = after_copy env disk category filename stem content in
        let same : index_entry env category filename stem sha256 size (meta_or_default env content)
              env.now
            ≡ entry =
          index_entry-packed filename sha256 size (meta_or_default env content)
            meta_or_default-packed refl in
        let (saved, (loaded, found, order, finds)) =
          load-save env.json disk.index (add_entry index entry) (add_entry-IsIndexed index entry h)
            reads in
        let (others, added, _) = find-add_entry index entry in
        rw
          (
            publish-copied env disk category filename stem content known calls.copies
                (strip_suffix-append stem (codes ".prot")),
            register-hashed env disk category filename stem content from sha256 size calls.hashed
                calls.measured,
            same,
            update_index-saved env disk category filename stem content from entry index loads,
            calls.saves,
          )
          (
            ap some saved,
            (
              loaded,
              found,
              finds meta.name ∙ added fresh,
              λ other ne. finds other ∙ others other ne,
            ),
          )
