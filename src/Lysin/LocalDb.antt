-- ===== src/Lysin/LocalDb.antt =====
-- ribosome/crates/lysin/src/db.rs: the database of installed packages, in memory.
pub mod Laws
pub mod Storage
use lysine_os.Base.{
  ℕ, Bool, true, false, not, Option, none, some, List, [], ◌∷◌, ◌++◌, map, Text, text_eq,
  if◌then◌else◌, any, retain,
}

pub record InstalledPackage : Type 0 where
  pub name : Text
  pub version : Text
  pub release : ℕ
  pub install_date : Text
  pub package_hash : Text
  pub files : List Text
  pub depends : List Text
  pub origin : Text

pub record LocalDb : Type 0 where
  pub path : Text
  pub packages : List InstalledPackage

unfoldable pub add : LocalDb → InstalledPackage → LocalDb
add db pkg = record db {
  packages = retain (λ p. not (text_eq p.name pkg.name)) db.packages ++ pkg ∷ [];
}

unfoldable pub find_package : List InstalledPackage → Text → Option InstalledPackage
find_package [] name = none
find_package (p ∷ ps) name = if text_eq p.name name then some p else find_package ps name

unfoldable pub find : LocalDb → Text → Option InstalledPackage
unfolding find_package
find db name = find_package db.packages name

-- `position` and the removal at the position that it gives.
unfoldable pub remove_first : List InstalledPackage → Text → List InstalledPackage
remove_first [] name = []
remove_first (p ∷ ps) name = if text_eq p.name name then ps else p ∷ remove_first ps name

-- The database after the call, and the package that was removed.
unfoldable pub remove : LocalDb → Text → LocalDb × Option InstalledPackage
unfolding find_package remove_first
remove db name =
    (record db { packages = remove_first db.packages name }, find_package db.packages name)

unfoldable pub list : LocalDb → List InstalledPackage
list db = db.packages

unfoldable pub is_installed : LocalDb → Text → Bool
is_installed db name = any (λ p. text_eq p.name name) db.packages

unfoldable pub installed_names : LocalDb → List Text
installed_names db = map (λ p. p.name) db.packages
