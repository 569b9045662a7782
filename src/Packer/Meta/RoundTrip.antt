-- ===== src/Packer/Meta/RoundTrip.antt =====
-- The metadata of a package are read back from the archive that `pack` writes
-- (ribosome-package/src/packer.rs).
use lysine_os.Base.{
  Option, none, some, List, [], ◌∷◌, ◌++◌, ◌≡◌, refl, subst, inl, inr, arith, Text, codes, text_eq,
  map, All, All-append, Result, ok, err, Result-cases, Option-cases, Bool-cases,
}
use lysine_os.Packer.{
  normal, mrna_path, meta_path, depends_path, TarEntry, PackageError, Archives, Bytes,
  relative_path,
}
use lysine_os.Packer.Pack.{
  PackageMeta, DestEntry, depends_content, file_entries, script_entry, pack_entries, meta_entry,
  manifest_lines, build_info, is_file,
}
use lysine_os.Packer.Meta.{
  ProtMeta, no_meta, meta_file, another, read_text, read_entry, read_entries, read_meta,
}
use lysine_os.Packer.Meta.Depends.{IsDep, read_lines-depends_content}

-- Entries at other paths are passed over.
module _ (archives : Archives) where
  read_entries-another :
      (m : ProtMeta) (es : List TarEntry)
      → All (λ e. meta_file e.path ≡ another) es
      → read_entries archives m (map ok es) ≡ ok m
  unfolding read_entries read_entry
  read_entries-another m [] h = refl
  read_entries-another m (e ∷ es) (a, h) = rw (a, read_entries) (read_entries-another m es h)

  scripts-another :
      (file : Text) (script : Option Text)
      → All (λ e. meta_file e.path ≡ another) (script_entry archives file script)
  unfolding script_entry meta_file text_eq
  scripts-another file none = tt
  scripts-another file (some script) = (refl, tt)

abbrev AllAnother : Result PackageError (List TarEntry) → Type 0
AllAnother (ok es) = All (λ e. meta_file e.path ≡ another) es
AllAnother (err e) = Unit

files_dir-another :
    (relative : List Text) → meta_file (normal (codes "FILES") ∷ relative_path relative) ≡ another
unfolding meta_file relative_path text_eq
files_dir-another [] = refl
files_dir-another (n ∷ []) = refl
files_dir-another (n ∷ o ∷ ns) = refl

files-another : (dest : List DestEntry) → AllAnother (file_entries dest)
unfolding file_entries
files-another [] = tt
files-another (e ∷ es) = elim (Bool-cases (is_file e.kind)) [
  | inr f ↦ rw (f, file_entries) (files-another es)
  | inl f ↦ elim (Option-cases e.content) [
    | inl c ↦ rw (f, file_entries, c) tt
    | inr (content, c) ↦ elim (Result-cases (file_entries es)) [
      | inr (x, q) ↦ rw (f, file_entries, c, q) tt
      | inl (more, q) ↦
          rw (f, file_entries, c, q)
            (files_dir-another e.relative, subst AllAnother q (files-another es))
    ]
  ]
]

-- The entries of a package, when `pack` writes them.
record IsPacked (archives : Archives) (hash : Bytes → Text) (dest : List DestEntry)
    (meta : PackageMeta) (es : List TarEntry) : Type 0 where
  manifest : Text
  tail : List TarEntry
  split :
      es
      ≡ meta_entry archives mrna_path meta.mrna_yaml
        ∷ meta_entry archives (meta_path (codes "manifest.txt")) manifest
        ∷ meta_entry archives depends_path (depends_content meta)
        ∷ meta_entry archives (meta_path (codes "build-info.txt")) (build_info meta)
        ∷ tail
  others : All (λ e. meta_file e.path ≡ another) tail

module _ (archives : Archives) where
  pack_entries-IsPacked :
      (hash : Bytes → Text) (dest : List DestEntry) (meta : PackageMeta) (es : List TarEntry)
      → pack_entries archives hash dest meta ≡ ok es
      → IsPacked archives hash dest meta es
  unfolding pack_entries
  pack_entries-IsPacked hash dest meta es h = elim (Result-cases (manifest_lines hash dest)) [
    | inr (x, q) ↦ absurd (ground (arith, h, q))
    | inl (manifest, q) ↦ elim (Result-cases (file_entries dest)) [
      | inr (x, r) ↦ absurd (ground (arith, h, q, r))
      | inl (files, r) ↦
          let scripts =
            script_entry archives (codes "post-install.sh") meta.post_install
            ++ script_entry archives (codes "post-remove.sh") meta.post_remove in
          record {
            manifest = manifest;
            tail = files ++ scripts;
            split = ground (arith, h, q, r);
            others =
                All-append (λ e. meta_file e.path ≡ another) files scripts
                  (subst AllAnother r (files-another dest))
                  (All-append (λ e. meta_file e.path ≡ another)
                    (script_entry archives (codes "post-install.sh") meta.post_install)
                    (script_entry archives (codes "post-remove.sh") meta.post_remove)
                    (scripts-another archives (codes "post-install.sh") meta.post_install)
                    (scripts-another archives (codes "post-remove.sh") meta.post_remove));
          }
    ]
  ]

  read_entries-packed :
      (meta : PackageMeta) (manifest : Text) (tail : List TarEntry)
      → All (λ e. meta_file e.path ≡ another) tail
      → ((t : Text) → archives.from_utf8 (archives.as_bytes t) ≡ some t)
      → All IsDep meta.depends_build
      → All IsDep meta.depends_runtime
      → read_entries archives no_meta (
          map ok (
            meta_entry archives mrna_path meta.mrna_yaml
            ∷ meta_entry archives (meta_path (codes "manifest.txt")) manifest
            ∷ meta_entry archives depends_path (depends_content meta)
            ∷ meta_entry archives (meta_path (codes "build-info.txt")) (build_info meta)
            ∷ tail))
        ≡ ok (record {
          depends_runtime = meta.depends_runtime;
          depends_build = meta.depends_build;
          mrna_yaml = some meta.mrna_yaml;
        })
  unfolding read_entries read_entry meta_file text_eq read_text no_meta
  read_entries-packed meta manifest tail others text hb hr =
      let start : ProtMeta = record {
        depends_runtime = [];
        depends_build = [];
        mrna_yaml = some meta.mrna_yaml;
      } in
      rw
        (
          text meta.mrna_yaml,
          read_entries,
          text (depends_content meta),
          read_lines-depends_content start meta hb hr,
        )
        (read_entries-another archives
          (record {
            depends_runtime = meta.depends_runtime;
            depends_build = meta.depends_build;
            mrna_yaml = some meta.mrna_yaml;
          })
          tail others)

  -- If the archive holds the entries that `pack` wrote, texts are read as they were written, and
  -- each dependency is one line with no white space at its ends, then `read_meta` reads back the
  -- dependencies and the recipe of the package.
  pub read_meta-pack_entries :
      (hash : Bytes → Text) (dest : List DestEntry) (meta : PackageMeta) (es : List TarEntry)
      → pack_entries archives hash dest meta ≡ ok es
      → archives.entries (archives.write es) ≡ ok (map ok es)
      → ((t : Text) → archives.from_utf8 (archives.as_bytes t) ≡ some t)
      → All IsDep meta.depends_build
      → All IsDep meta.depends_runtime
      → read_meta archives (some (archives.write es))
        ≡ ok (record {
          depends_runtime = meta.depends_runtime;
          depends_build = meta.depends_build;
          mrna_yaml = some meta.mrna_yaml;
        })
  unfolding read_meta
  read_meta-pack_entries hash dest meta es packed read text hb hr =
      let p = pack_entries-IsPacked hash dest meta es packed in
      rw (read, read_meta, p.split) (read_entries-packed meta p.manifest p.tail p.others text hb hr)
