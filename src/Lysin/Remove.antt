-- ===== src/Lysin/Remove.antt =====
-- ribosome/crates/lysin/src/ops/remove.rs: the removal of an installed package.
pub mod Safety
use lysine_os.Base.{
  ℕ, suc, Bool, true, false, not, ◌&&◌, Option, none, some, List, [], ◌∷◌, Text, text_eq,
  is_whitespace, trim_start, if◌then◌else◌, any, retain, Result, ok, err,
}
use lysine_os.Lysin.LocalDb.{InstalledPackage, LocalDb, find, remove, installed_names}

-- The text up to the first white space.
unfoldable pub word : Text → Text
word [] = []
word (c ∷ s) = if is_whitespace c then [] else c ∷ word s

-- `dep.split_whitespace().next().unwrap_or(dep)`
unfoldable pub dep_name : Text → Text
unfolding word
dep_name dep = elim (trim_start dep) [ [] ↦ dep | c ∷ s ↦ word (c ∷ s) ]

unfoldable pub depends_on : InstalledPackage → Text → Bool
depends_on p name = any (λ dep. text_eq (dep_name dep) name) p.depends

-- The closure of the filter. The name is that of an installed package, so `find` gives a package.
unfoldable pub is_dependent : LocalDb → Text → Text → Bool
unfolding depends_on
is_dependent db name installed_name =
    if text_eq installed_name name
    then false
    else elim (find db installed_name) [ none ↦ false | some p ↦ depends_on p name ]

unfoldable pub dependents : LocalDb → Text → List Text
unfolding is_dependent
dependents db name = retain (is_dependent db name) (installed_names db)

pub data RemoveError : Type 0 where
  not_installed : Text → RemoveError
  -- The name, and the packages that depend on it.
  has_dependents : Text → List Text → RemoveError
  save_failed : RemoveError

-- The files on the disk, and the database as it was saved last.
pub record System : Type 0 where
  pub disk : List Text
  pub saved : LocalDb

-- How many files were removed, and how many could not be.
pub record Removal : Type 0 where
  pub removed : ℕ
  pub failed : ℕ

-- The loop over the files of the package: the answer of the system decides each removal.
unfoldable pub remove_files : (Text → Bool) → List Text → List Text → Removal → List Text × Removal
remove_files can_remove [] disk r = (disk, r)
remove_files can_remove (file_path ∷ files) disk r =
    if any (text_eq file_path) disk
    then (if can_remove file_path
        then remove_files can_remove files (retain (λ f. not (text_eq f file_path)) disk)
            (record r { removed = suc r.removed })
        else remove_files can_remove files disk (record r { failed = suc r.failed }))
    else remove_files can_remove files disk r

unfoldable pub is_blocked : LocalDb → Text → Bool → Bool
is_blocked db name force = elim (dependents db name) [ [] ↦ false | d ∷ ds ↦ not force ]

-- The second answer of the system says whether `save` succeeds.
unfoldable pub remove_package :
    (Text → Bool) → Bool → System → Text → Bool → System × Result RemoveError Removal
unfolding remove_files is_blocked
remove_package can_remove saves sys name force = elim (find sys.saved name) [
  | none ↦ (sys, err (not_installed name))
  | some p ↦
      if is_blocked sys.saved name force
      then (sys, err (has_dependents name (dependents sys.saved name)))
      else let (disk, r) =
          remove_files can_remove p.files sys.disk (record { removed = 0; failed = 0 }) in
        (if saves
          then (record { disk = disk; saved = (remove sys.saved name).0 }, ok r)
          else (record sys { disk = disk }, err save_failed))
]
