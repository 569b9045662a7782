-- ===== src/Packer/Pack/Atomic.antt =====
-- The file of a package is written as a whole (`pack` of ribosome-package/src/packer.rs).
use lysine_os.Base.{
  none, some, List, ◌≡◌, refl, ◌⊎◌, inl, inr, arith, ok, length, Result-cases, Bool-cases,
  Option-cases,
}
use lysine_os.Repository.Filename.{package_filename}
use lysine_os.Packer.{TarEntry, Archives, Bytes}
use lysine_os.Packer.Pack.{
  PackageMeta, DestEntry, PackResult, OutputFiles, PackAnswers, count_files, pack_entries,
  pack_result, finish_pack, pack,
}

module _ (archives : Archives) (answers : PackAnswers) (dest : List DestEntry)
    (meta : PackageMeta) where
  -- The complete archive stands under the package's name.
  abbrev pub IsComplete : OutputFiles → Type 0
  IsComplete after =
      (es : List TarEntry) × (pack_entries archives answers.hash_contents dest meta ≡ ok es)
      × (after.final ≡ some (archives.write es))
      × (after.tmp ≡ none)

  result-fields :
      (archive : Bytes) (r : PackResult)
      → pack_result archives answers dest meta archive ≡ ok r
      → (r.path ≡ package_filename meta.name meta.version meta.release meta.arch)
        × (answers.hash_file archive ≡ ok r.sha256)
        × (r.size_bytes ≡ length archive)
        × (r.file_count ≡ count_files dest)
  unfolding pack_result
  result-fields archive r h = elim (Result-cases (answers.hash_file archive)) [
    | inr (x, e) ↦ absurd (ground (arith, h, e))
    | inl (sha, e) ↦ elim (Option-cases answers.metadata_error) [
      | inr (x, m) ↦ absurd (ground (arith, h, e, m))
      | inl m ↦ ground (arith, h, e, m)
    ]
  ]

  -- However `pack` goes, the package's file is as before or holds the complete archive, with no
  -- temporary file left; if `pack` succeeds it holds the archive, and the result has its hash, its
  -- size, its name and the number of its files.
  pub pack_atomic :
      (files : OutputFiles)
      → let after = (pack archives answers dest meta files).0 in
        ((after.final ≡ files.final) ⊎ IsComplete after)
        × ((r : PackResult)
            → (pack archives answers dest meta files).1 ≡ ok r
            → (es : List TarEntry) × (pack_entries archives answers.hash_contents dest meta ≡ ok es)
              × (after.final ≡ some (archives.write es))
              × (after.tmp ≡ none)
              × (r.path ≡ package_filename meta.name meta.version meta.release meta.arch)
              × (answers.hash_file (archives.write es) ≡ ok r.sha256)
              × (r.size_bytes ≡ length (archives.write es))
              × (r.file_count ≡ count_files dest))
  unfolding pack finish_pack
  pack_atomic files = elim (Bool-cases answers.creates) [
    | inr c ↦ rw (c, pack) (inl refl, λ r h. absurd (ground (arith, h)))
    | inl c ↦ elim (Result-cases (pack_entries archives answers.hash_contents dest meta)) [
      | inr (x, e) ↦ rw (c, pack, e) (inl refl, λ r h. absurd (ground (arith, h)))
      | inl (es, e) ↦ elim (Bool-cases answers.writes) [
        | inr w ↦ rw (c, pack, e, w) (inl refl, λ r h. absurd (ground (arith, h)))
        | inl w ↦ elim (Bool-cases answers.renames) [
          | inr n ↦ rw (c, pack, e, w, finish_pack, n) (inl refl, λ r h. absurd (ground (arith, h)))
          | inl n ↦
              rw (c, pack, e, w, finish_pack, n)
                (
                  inr (es, refl, refl, refl),
                  λ r h.
                      let (path, sha, size, count) = result-fields (archives.write es) r h in
                      (es, refl, refl, refl, path, sha, size, count),
                )
        ]
      ]
    ]
  ]
