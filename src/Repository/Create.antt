-- ===== src/Repository/Create.antt =====
-- `create` and `open` of ribosome/crates/ribosome-repository/src/repository.rs. Directories are no
-- part of the state: an argument says which of them cannot be made, and why.
use lysine_os.Base.{
  Bool, true, false, ◌&&◌, Option, none, some, List, [], ◌∷◌, ◌≡◌, refl, inl, inr, arith, Text,
  codes, Result, ok, err, if◌then◌else◌, Option-cases, Bool-cases, subst, split, is_empty,
}
use lysine_os.Base.Lines.{lines, lines_of}
use lysine_os.Repository.Index.Storage.{
  Json, RepositoryError, not_found, index_error, io, IndexFiles, SaveAnswers, load, load_lines,
  write_lines, save,
}
use lysine_os.Repository.Index.Storage.RoundTrip.{empty_index, save_atomic}
use lysine_os.Repository.Publish.{categories}

unfoldable pub index_exists : IndexFiles → Bool
index_exists files = elim files.db [ none ↦ false | some _ ↦ true ]

-- `create_dir_all` for the directory of each category, with the first error.
unfoldable pub make_categories : (Text → Option Text) → List Text → Option Text
make_categories make_dir [] = none
make_categories make_dir (cat ∷ cats) =
    let rest = make_categories make_dir cats in
    elim (make_dir cat) [ some e ↦ some e | none ↦ rest ]

-- `make_root` is the error of making the root, if it cannot be made.
unfoldable pub create :
    Json
    → SaveAnswers
    → Bool
    → Option Text
    → (Text → Option Text)
    → IndexFiles
    → IndexFiles × Result RepositoryError (Unit {0})
unfolding index_exists make_categories categories
create json answers root_exists make_root make_dir files =
    if root_exists && index_exists files
    then (files, err (index_error (codes "repository already exists")))
    else elim make_root [
      | some e ↦ (files, err (io e))
      | none ↦ elim (make_categories make_dir categories) [
        | some e ↦ (files, err (io e))
        | none ↦ save json answers files (record { entries = []; order = [] })
      ]
    ]

-- The unit result stands for the repository at the root.
unfoldable pub open_repository : IndexFiles → Result RepositoryError (Unit {0})
unfolding index_exists
open_repository files =
    if index_exists files then ok tt else err (not_found (codes "no nucleus.db found"))

opened-empty :
    (json : Json) (files : IndexFiles)
    → files.db ≡ some []
    → (open_repository files ≡ ok tt) × (load json files.db ≡ ok (some empty_index))
unfolding open_repository index_exists load load_lines lines lines_of split is_empty
opened-empty json files e = rw e (refl, refl)

no_lines : (json : Json) (content : Text) → write_lines json [] [] ≡ ok content → content ≡ []
unfolding write_lines
no_lines json content h = ground (arith, h)

-- A repository that was created is opened, and its index is empty; and where an index exists below
-- an existing root, nothing is changed.
pub open-create :
    (json : Json) (answers : SaveAnswers) (root_exists : Bool) (make_root : Option Text)
    (make_dir : Text → Option Text) (files : IndexFiles)
    → ((create json answers root_exists make_root make_dir files).1 ≡ ok tt
        → (open_repository (create json answers root_exists make_root make_dir files).0 ≡ ok tt)
          × (load json (create json answers root_exists make_root make_dir files).0.db
              ≡ ok (some empty_index)))
      × ((root_exists && index_exists files) ≡ true
          → (create json answers root_exists make_root make_dir files).0 ≡ files)
unfolding create
open-create json answers root_exists make_root make_dir files =
    elim (Bool-cases (root_exists && index_exists files)) [
      | inl b ↦ rw (b, create) ((λ h. absurd (ground (arith, h))), (λ h. refl))
      | inr b ↦ elim (Option-cases make_root) [
        | inr (e, r) ↦ rw (b, create, r) ((λ h. absurd (ground (arith, h))), (λ h. refl))
        | inl r ↦ elim (Option-cases (make_categories make_dir categories)) [
          | inr (e, c) ↦ rw (b, create, r, c) ((λ h. absurd (ground (arith, h))), (λ h. refl))
          | inl c ↦ rw (b, create, r, c) ((λ h. saved h), (λ h. absurd (ground (arith, h))))
        ]
      ]
    ]
  where
    saved :
        (save json answers files empty_index).1 ≡ ok tt
        → (open_repository (save json answers files empty_index).0 ≡ ok tt)
          × (load json (save json answers files empty_index).0.db ≡ ok (some empty_index))
    saved h =
        let (content, written, stored, _, _) = (save_atomic json answers files empty_index).1 h in
        opened-empty json (save json answers files empty_index).0 (
          subst (λ c. (save json answers files empty_index).0.db ≡ some c)
            (no_lines json content written) stored)
