-- ===== src/Repository/Publish/Scan.antt =====
-- The loop over the files of a category, in the scan that rebuilds the index
-- (`rebuild_index` of ribosome-repository/src/repository.rs).
use lysine_os.Base.{
  ℕ, suc, Bool, true, false, ◌&&◌, ◌||◌, List, [], ◌∷◌, ◌≡◌, refl, sym, ap, ◌∙◌, subst, inl, inr,
  arith, Text, text_eq, text_eq_iff, Result, ok, err, Elem, Result-cases, Option-cases, Bool-cases,
}
use lysine_os.Repository.Filename.{parse_prot_filename}
use lysine_os.Repository.Index.{IndexEntry, RepositoryIndex, is_some, add_entry, find}
use lysine_os.Repository.Index.Laws.{IsIndexed}
use lysine_os.Repository.Index.Operations.{add_entry-IsIndexed, find-add_entry}
use lysine_os.Repository.Index.Storage.{RepositoryError}
use lysine_os.Repository.Publish.{
  StoredFile, RepoEnv, is_prot, stem_of, rebuilt_entry, index_entry, rebuild_files,
}

-- After an entry is added, its name and the names that were found are found.
is_some-add_entry :
    (index : RepositoryIndex) (e : IndexEntry) (n : Text)
    → is_some (find (add_entry index e) n) ≡ (text_eq n e.name || is_some (find index n))
unfolding is_some
is_some-add_entry index e n = elim (Bool-cases (text_eq n e.name)) [
  | inr q ↦ rw ((find-add_entry index e).0 n q, q) refl
  | inl q ↦
      let same : n ≡ e.name = (text_eq_iff n e.name).0 q in
      let here : is_some (find (add_entry index e) e.name) ≡ true =
        elim (Option-cases (find index e.name)) [
          | inl o ↦ ap is_some ((find-add_entry index e).1 o)
          | inr (old, o) ↦ ap is_some ((find-add_entry index e).2 old o)
        ] in
      subst (λ k. is_some (find (add_entry index e) k) ≡ true) (sym same) here ∙ sym (rw q refl)
]

module _ (env : RepoEnv) where
  -- The name under which a file of a package is found.
  unfoldable pub prot_name : StoredFile → Text
  prot_name f = (parse_prot_filename env.is_numeric (stem_of env f.filename)).name

  rebuilt_entry-name :
      (f : StoredFile) (sha256 : Text) → (rebuilt_entry env f sha256).name ≡ prot_name f
  unfolding rebuilt_entry index_entry prot_name
  rebuilt_entry-name f sha256 = refl

  -- The scan comes to the file: its directory is said to exist, its entry can be read, and it has the
  -- extension.
  unfoldable pub is_scanned : StoredFile → Bool
  is_scanned f = env.dir_exists f.category && env.entry_ok f && is_prot env f.filename

  -- What the loop over a category's files makes of an index: it stays in order, keeps the names that
  -- are found, and finds the names of the category's packages.
  pub record Rebuilt (covers : StoredFile → Bool) (files : List StoredFile)
      (index next : RepositoryIndex) : Type 0 where
    pub in_order : IsIndexed index → IsIndexed next
    pub kept : (n : Text) → is_some (find index n) ≡ true → is_some (find next n) ≡ true
    pub covered :
        (f : StoredFile)
        → Elem f files
        → (covers f && is_scanned f) ≡ true
        → is_some (find next (prot_name f)) ≡ true

  abbrev pub AllRebuilt :
      (StoredFile → Bool)
      → List StoredFile
      → RepositoryIndex
      → Result RepositoryError (RepositoryIndex × ℕ)
      → Type 0
  AllRebuilt covers files index (ok (next, n)) = Rebuilt covers files index next
  AllRebuilt covers files index (err e) = Unit

  skip_file :
      (covers : StoredFile → Bool) (f : StoredFile) (files : List StoredFile)
      (index : RepositoryIndex) (r : Result RepositoryError (RepositoryIndex × ℕ))
      → (covers f && is_scanned f) ≡ false
      → AllRebuilt covers files index r
      → AllRebuilt covers (f ∷ files) index r
  skip_file covers f files index (err e) h r = tt
  skip_file covers f files index (ok (next, n)) h r = record {
    in_order = r.in_order;
    kept = r.kept;
    covered = λ g m c. elim m [
      | inl q ↦
          let c' : (covers f && is_scanned f) ≡ true =
            subst (λ x. (covers x && is_scanned x) ≡ true) q c in
          absurd (ground (arith, h, c'))
      | inr m' ↦ r.covered g m' c
    ];
  }

  add_file :
      (covers : StoredFile → Bool) (f : StoredFile) (files : List StoredFile)
      (index : RepositoryIndex) (sha256 : Text) (r : Result RepositoryError (RepositoryIndex × ℕ))
      → AllRebuilt covers files (add_entry index (rebuilt_entry env f sha256)) r
      → AllRebuilt covers (f ∷ files) index r
  add_file covers f files index sha256 (err e) r = tt
  add_file covers f files index sha256 (ok (next, n)) r =
      let e : IndexEntry = rebuilt_entry env f sha256 in
      let name_found : is_some (find (add_entry index e) (prot_name f)) ≡ true = ground (
        arith,
        is_some-add_entry index e (prot_name f),
        text_eq_iff (prot_name f) e.name,
        rebuilt_entry-name f sha256,
      ) in
      record {
        in_order = λ h. r.in_order (add_entry-IsIndexed index e h);
        kept = λ k h. r.kept k (is_some-add_entry index e k ∙ ground (arith, h));
        covered = λ g m c. elim m [
          | inl q ↦
              subst (λ x. is_some (find next (prot_name x)) ≡ true) (sym q)
                (r.kept (prot_name f) name_found)
          | inr m' ↦ r.covered g m' c
        ];
      }

  not_scanned :
      (f : StoredFile) (category : Text)
      → (text_eq f.category category && (env.entry_ok f && is_prot env f.filename)) ≡ false
      → (text_eq f.category category && is_scanned f) ≡ false
  unfolding is_scanned
  not_scanned f category b = ground (arith, b)

  pub rebuild_files-Rebuilt :
      (category : Text) (files : List StoredFile) (index : RepositoryIndex) (count : ℕ)
      → AllRebuilt
          (λ f. text_eq f.category category)
          files
          index
          (rebuild_files env category files index count)
  unfolding rebuild_files
  rebuild_files-Rebuilt category [] index count = record {
    in_order = λ h. h;
    kept = λ n h. h;
    covered = λ f m c. absurd m;
  }
  rebuild_files-Rebuilt category (f ∷ files) index count =
      elim (Bool-cases
        (text_eq f.category category && (env.entry_ok f && is_prot env f.filename))) [
          | inr b ↦
              rw (b, rebuild_files)
                (skip_file (λ g. text_eq g.category category) f files index
                  (rebuild_files env category files index count) (not_scanned f category b)
                  (rebuild_files-Rebuilt category files index count))
          | inl b ↦ elim (Result-cases (env.hash_file f.content)) [
            | inr (e, h) ↦ rw (b, rebuild_files, h) tt
            | inl (sha256, h) ↦
                rw (b, rebuild_files, h)
                  (add_file (λ g. text_eq g.category category) f files index sha256
                    (rebuild_files env category files (add_entry index (rebuilt_entry env f sha256))
                      (suc count))
                    (rebuild_files-Rebuilt category files
                      (add_entry index (rebuilt_entry env f sha256)) (suc count)))
          ]
        ]
