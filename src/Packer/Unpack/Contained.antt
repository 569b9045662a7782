-- ===== src/Packer/Unpack/Contained.antt =====
-- An archive cannot name a file outside the directory that it is unpacked to
-- (`unpack` of ribosome-package/src/packer.rs).
use lysine_os.Base.{
  Option, none, some, List, [], ◌∷◌, ◌++◌, ◌≡◌, refl, sym, subst, ◌⊎◌, inl, inr, arith, Text,
  Result, ok, err, All, All-append, Result-cases, Option-cases, append-nil,
}
use lysine_os.Packer.{TarEntry, PackageError, Archives, Bytes, FilePath}
use lysine_os.Packer.Unpack.{
  parent, Disk, Verdict, skip, escapes, extract, verdict, create_parent, extract_file,
  unpack_entries, unpack,
}
use lysine_os.Packer.Unpack.Below.{IsBelow, EntryIsPath, IsInside, parent-IsBelow, verdict-IsInside}

Verdict-cases :
    (v : Verdict)
    → (v ≡ skip) ⊎ (((p : FilePath) × (v ≡ escapes p)) ⊎ ((p : FilePath) × (v ≡ extract p)))
Verdict-cases skip = inl refl
Verdict-cases (escapes p) = inr (inl (p, refl))
Verdict-cases (extract p) = inr (inr (p, refl))

module _ (Fs : Type 0) (disk : Disk Fs) where
  -- What the calls for files below the directory make of the file system.
  pub data Writes (target : FilePath) : Fs → Fs → Type 0 where
    nothing : {fs : Fs} → Writes target fs fs
    directory :
        {fs after : Fs} (path : FilePath)
        → IsBelow target path
        → Writes target (disk.create_dir_all path fs).0 after
        → Writes target fs after
    file :
        {fs after : Fs} (entry : TarEntry) (path : FilePath)
        → IsBelow target path
        → Writes target (disk.unpack_entry entry path fs).0 after
        → Writes target fs after

  create_parent-Writes :
      (target path : FilePath) (fs after : Fs)
      → IsInside target path
      → Writes target (create_parent Fs disk path fs).0 after
      → Writes target fs after
  unfolding create_parent
  create_parent-Writes target path fs after (c, rest, q, h) w = elim (Option-cases (parent path)) [
    | inl e ↦
        let same : (create_parent Fs disk path fs).0 ≡ fs = rw (e, create_parent) refl in
        subst (λ f. Writes target f after) same w
    | inr (dir, e) ↦
        let same : (create_parent Fs disk path fs).0 ≡ (disk.create_dir_all dir fs).0 =
          rw (e, create_parent) refl in
        directory dir (parent-IsBelow target c rest dir h (subst (λ p. parent p ≡ some dir) q e))
          (subst (λ f. Writes target f after) same w)
  ]

  extract_file-Writes :
      (target path : FilePath) (entry : TarEntry) (fs after : Fs)
      → IsInside target path
      → Writes target (extract_file Fs disk entry path fs).0 after
      → Writes target fs after
  unfolding extract_file
  extract_file-Writes target path entry fs after inside w =
      create_parent-Writes target path fs after inside
        (elim (Option-cases (create_parent Fs disk path fs).1) [
          | inr (x, e) ↦
              let same : (extract_file Fs disk entry path fs).0
                  ≡ (create_parent Fs disk path fs).0 =
                rw (e, extract_file) refl in
              subst (λ f. Writes target f after) same w
          | inl e ↦
              let same : (extract_file Fs disk entry path fs).0
                  ≡ (disk.unpack_entry entry path (create_parent Fs disk path fs).0).0 =
                rw (e, extract_file) refl in
              file entry path (below inside) (subst (λ f. Writes target f after) same w)
        ])
    where
      below : IsInside target path → IsBelow target path
      below (c, rest, q, h) = record { rest = c ∷ rest; split = q; stays = h }

  -- The outcome of the loop: only what is below the directory is written, and the paths that are
  -- returned are below it.
  abbrev Contained : FilePath → Fs → Fs × Result PackageError (List FilePath) → Type 0
  Contained target fs (after, outcome) =
      Writes target fs after
      × ((paths : List FilePath) → outcome ≡ ok paths → All (IsBelow target) paths)

  unpack_entries-Contained :
      (target : FilePath) (entries : List (Result Text TarEntry)) (extracted : List FilePath)
      (fs : Fs)
      → All EntryIsPath entries
      → All (IsBelow target) extracted
      → Contained target fs (unpack_entries Fs disk target entries extracted fs)
  unfolding unpack_entries
  unpack_entries-Contained target [] extracted fs h k =
      (nothing, λ paths e. subst (All (IsBelow target)) (ground (arith, e)) k)
  unpack_entries-Contained target (err x ∷ rest) extracted fs h k =
      (nothing, λ paths e. absurd (ground (arith, e)))
  unpack_entries-Contained target (ok entry ∷ rest) extracted fs (p, h) k =
      elim (Verdict-cases (verdict target entry)) [
        | inl e ↦ rw (e, unpack_entries) (unpack_entries-Contained target rest extracted fs h k)
        | inr (inl (relative, e)) ↦
            rw (e, unpack_entries) (nothing, λ paths q. absurd (ground (arith, q)))
        | inr (inr (path, e)) ↦
            let (c, inner, q, s) = verdict-IsInside target path entry p e in
            let here : IsBelow target path = record { rest = c ∷ inner; split = q; stays = s } in
            let inside : IsInside target path = (c, inner, q, s) in
            elim (Option-cases (extract_file Fs disk entry path fs).1) [
              | inr (x, o) ↦
                  rw (e, unpack_entries, o)
                    (
                      extract_file-Writes target path entry fs
                          (extract_file Fs disk entry path fs).0 inside nothing,
                      λ paths q. absurd (ground (arith, q)),
                    )
              | inl o ↦
                  let next = (extract_file Fs disk entry path fs).0 in
                  let (writes, returned) =
                    unpack_entries-Contained target rest (extracted ++ path ∷ []) next h
                      (All-append (IsBelow target) extracted (path ∷ []) k (here, tt)) in
                  rw (e, unpack_entries, o)
                    (
                      extract_file-Writes target path entry fs
                          (unpack_entries Fs disk target rest (extracted ++ path ∷ []) next).0
                          inside writes,
                      returned,
                    )
            ]
      ]

  -- If the root stands only at the front of the paths in an archive, then `unpack` makes files and
  -- directories only at paths below the target directory, whether it succeeds or fails, and all
  -- paths that it returns are below it.
  pub unpack-contained :
      (archives : Archives) (archive : Option Bytes) (target : FilePath) (fs : Fs)
      → ((content : Bytes) (entries : List (Result Text TarEntry))
          → archives.entries content ≡ ok entries
          → All EntryIsPath entries)
      → Writes target fs (unpack Fs disk archives archive target fs).0
        × ((paths : List FilePath)
            → (unpack Fs disk archives archive target fs).1 ≡ ok paths
            → All (IsBelow target) paths)
  unfolding unpack
  unpack-contained archives none target fs h = (nothing, λ paths e. absurd (ground (arith, e)))
  unpack-contained archives (some archive) target fs h =
      let made = (disk.create_dir_all target fs).0 in
      let here : IsBelow target target = record {
        rest = [];
        split = sym (append-nil target);
        stays = tt;
      } in
      elim (Option-cases (disk.create_dir_all target fs).1) [
        | inr (x, o) ↦
            rw (o, unpack) (directory target here nothing, λ paths e. absurd (ground (arith, e)))
        | inl o ↦ elim (Result-cases (archives.entries archive)) [
          | inr (x, q) ↦
              rw (o, unpack, q)
                (directory target here nothing, λ paths e. absurd (ground (arith, e)))
          | inl (entries, q) ↦
              let (writes, returned) =
                unpack_entries-Contained target entries [] made (h archive entries q) tt in
              rw (o, unpack, q) (directory target here writes, returned)
        ]
      ]
