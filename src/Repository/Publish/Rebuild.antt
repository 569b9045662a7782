-- ===== src/Repository/Publish/Rebuild.antt =====
-- The index that is rebuilt from the files of a repository
-- (`rebuild_index` of ribosome-repository/src/repository.rs).
use lysine_os.Base.{
  ℕ, Bool, true, false, ◌&&◌, ◌||◌, some, List, [], ◌∷◌, ◌≡◌, refl, ap, ◌∙◌, subst, inl, inr, arith,
  Text, text_eq, text_eq_iff, Result, ok, err, any, Elem, Result-cases, Option-cases, Bool-cases,
}
use lysine_os.Repository.Index.{RepositoryIndex, is_some, find}
use lysine_os.Repository.Index.Laws.{IsIndexed}
use lysine_os.Repository.Index.Operations.{empty-IsIndexed}
use lysine_os.Repository.Index.Storage.{RepositoryError, write_lines, save}
use lysine_os.Repository.Index.Storage.RoundTrip.{empty_index, save_atomic}
use lysine_os.Repository.Publish.Scan.{
  Rebuilt, AllRebuilt, prot_name, is_scanned, rebuild_files-Rebuilt,
}
use lysine_os.Repository.Publish.{
  categories, StoredFile, RepoDisk, RepoEnv, rebuild_files, rebuild_categories, rebuild_index,
}

module _ (env : RepoEnv) where
  join-Rebuilt :
      (first second : StoredFile → Bool) (files : List StoredFile) (index next : RepositoryIndex)
      (r : Result RepositoryError (RepositoryIndex × ℕ))
      → Rebuilt env first files index next
      → AllRebuilt env second files next r
      → AllRebuilt env (λ f. first f || second f) files index r
  join-Rebuilt first second files index next (err e) a b = tt
  join-Rebuilt first second files index next (ok (last, n)) a b = record {
    in_order = λ h. b.in_order (a.in_order h);
    kept = λ k h. b.kept k (a.kept k h);
    covered = λ f m c. elim (Bool-cases (first f)) [
      | inl q ↦
          let c' : (first f && is_scanned env f) ≡ true = ground (arith, c, q) in
          b.kept (prot_name env f) (a.covered f m c')
      | inr q ↦
          let c' : (second f && is_scanned env f) ≡ true = ground (arith, c, q) in b.covered f m c'
    ];
  }

  -- No file of a directory that does not exist is scanned.
  pass_over :
      (cat : Text) (second : StoredFile → Bool) (files : List StoredFile) (index : RepositoryIndex)
      (r : Result RepositoryError (RepositoryIndex × ℕ))
      → env.dir_exists cat ≡ false
      → AllRebuilt env second files index r
      → AllRebuilt env (λ f. text_eq f.category cat || second f) files index r
  pass_over cat second files index (err e) x r = tt
  pass_over cat second files index (ok (next, n)) x r = record {
    in_order = r.in_order;
    kept = r.kept;
    covered = λ f m c. r.covered f m (still f c);
  }
    where
      still :
          (f : StoredFile)
          → ((text_eq f.category cat || second f) && is_scanned env f) ≡ true
          → (second f && is_scanned env f) ≡ true
      still f c = elim (Bool-cases (text_eq f.category cat)) [
        | inr q ↦ ground (arith, c, q)
        | inl q ↦
            let gone : env.dir_exists f.category ≡ false =
              ap env.dir_exists ((text_eq_iff f.category cat).0 q) ∙ x in
            unfold is_scanned in ground (arith, c, gone)
      ]

  rebuild_categories-Rebuilt :
      (cats : List Text) (files : List StoredFile) (index : RepositoryIndex) (count : ℕ)
      → AllRebuilt env
          (λ f. any (text_eq f.category) cats)
          files
          index
          (rebuild_categories env cats files index count)
  unfolding rebuild_categories
  rebuild_categories-Rebuilt [] files index count = record {
    in_order = λ h. h;
    kept = λ n h. h;
    covered = λ f m c. absurd (ground (arith, c));
  }
  rebuild_categories-Rebuilt (cat ∷ cats) files index count =
      elim (Bool-cases (env.dir_exists cat)) [
        | inr x ↦
            rw (x, rebuild_categories)
              (pass_over cat (λ f. any (text_eq f.category) cats) files index
                (rebuild_categories env cats files index count) x
                (rebuild_categories-Rebuilt cats files index count))
        | inl x ↦ elim (Option-cases (env.dir_error cat)) [
          | inr (e, d) ↦ rw (x, rebuild_categories, d) tt
          | inl d ↦ elim (Result-cases (rebuild_files env cat files index count)) [
            | inr (e, q) ↦ rw (x, rebuild_categories, d, q) tt
            | inl ((next, n), q) ↦
                rw (x, rebuild_categories, d, q)
                  (join-Rebuilt (λ f. text_eq f.category cat) (λ f. any (text_eq f.category) cats)
                    files index next (rebuild_categories env cats files next n)
                    (subst (AllRebuilt env (λ f. text_eq f.category cat) files index) q
                      (rebuild_files-Rebuilt env cat files index count))
                    (rebuild_categories-Rebuilt cats files next n))
          ]
        ]
      ]

  -- The save at the end succeeded, if `rebuild_index` did.
  rebuild_index-saved :
      (disk : RepoDisk) (count : ℕ) (index : RepositoryIndex) (n : ℕ)
      → rebuild_categories env categories disk.stored empty_index 0 ≡ ok (index, n)
      → (rebuild_index env disk).1 ≡ ok count
      → (save env.json env.save_answers disk.index index).1 ≡ ok tt
  unfolding rebuild_index
  rebuild_index-saved disk count index n q h =
      elim (Result-cases (save env.json env.save_answers disk.index index).1) [
        | inl (tt, o) ↦ o
        | inr (e, o) ↦
            let failed : (rebuild_index env disk).1 ≡ err e = rw (rebuild_index, q, o) refl in
            absurd (ground (arith, h, failed))
      ]

  -- If `rebuild_index` succeeds, then the index that it stored is in order, and finds the name of the
  -- package for each file with the extension in the directory of a category, where the system says
  -- that the directory exists and can read the directory's entry of the file. (Entries that cannot be
  -- read are passed over without an error.)
  pub rebuild_index-covers :
      (disk : RepoDisk) (count : ℕ)
      → (rebuild_index env disk).1 ≡ ok count
      → (index : RepositoryIndex) × (content : Text) × (write_lines env.json index.entries
            index.order
          ≡ ok content)
        × ((rebuild_index env disk).0.index.db ≡ some content)
        × IsIndexed index
        × ((f : StoredFile)
            → Elem f disk.stored
            → (any (text_eq f.category) categories && is_scanned env f) ≡ true
            → is_some (find index (prot_name env f)) ≡ true)
  unfolding rebuild_index
  rebuild_index-covers disk count h =
      elim (Result-cases (rebuild_categories env categories disk.stored empty_index 0)) [
        | inr (e, q) ↦ absurd (ground (arith, h, q))
        | inl ((index, n), q) ↦
            let rebuilt : Rebuilt env (λ f. any (text_eq f.category) categories) disk.stored
                empty_index index =
              subst
                (AllRebuilt env (λ f. any (text_eq f.category) categories) disk.stored empty_index)
                q (rebuild_categories-Rebuilt categories disk.stored empty_index 0) in
            let done : (save env.json env.save_answers disk.index index).1 ≡ ok tt =
              rebuild_index-saved disk count index n q h in
            let (content, written, stored, _, _) =
              (save_atomic env.json env.save_answers disk.index index).1 done in
            (
              index,
              content,
              written,
              rw (rebuild_index, q) stored,
              rebuilt.in_order empty-IsIndexed,
              rebuilt.covered,
            )
      ]
