-- ===== src/Parser/Dependency.antt =====
-- ribosome/crates/ribosome-parser/src/dependency.rs: dependency strings such as `glibc >= 2.39`.
pub mod Names
pub mod Printing
pub mod RoundTrip
use lysine_os.Base.{
  ℕ, Bool, true, false, ◌&&◌, ◌||◌, Option, none, some, List, [], ◌∷◌, ◌++◌, ◌≡◌, refl, Text, codes,
  trim, is_empty, find_text, split, all, Result, ok, err, ◌>>=◌, map_err, if◌then◌else◌, leb,
}
use lysine_os.Base.Decimal.{is_digit}
use lysine_os.Parser.Version.{
  Version, VersionConstraint, greater_or_equal, less_or_equal, less_than, equal, greater_than,
  VersionParseError,
}
use lysine_os.Parser.Version

pub record DependencySpec : Type 0 where
  pub name : Text
  pub constraint : Option VersionConstraint

unfoldable pub is_lowercase : ℕ → Bool
is_lowercase c = leb b'a' c && leb c b'z'

unfoldable pub is_alnum : ℕ → Bool
unfolding is_lowercase is_digit
is_alnum c = is_lowercase c || is_digit c

-- `first.starts_with(|c| c.is_ascii_lowercase())`
unfoldable pub starts_lowercase : Text → Bool
unfolding is_lowercase
starts_lowercase [] = false
starts_lowercase (c ∷ s) = is_lowercase c

-- A piece behind the first: not empty, and of lowercase letters and digits.
unfoldable pub is_valid_part : Text → Bool
unfolding is_alnum
is_valid_part [] = false
is_valid_part (c ∷ s) = all is_alnum (c ∷ s)

unfoldable pub is_valid_package_name : Text → Bool
unfolding starts_lowercase is_valid_part split
is_valid_package_name [] = false
is_valid_package_name (c ∷ s) =
    let (first, parts) = split b'-' (c ∷ s) in
    starts_lowercase first && all is_alnum first && all is_valid_part parts

-- `Display for VersionParseError`
unfoldable pub show_error : VersionParseError → Text
show_error Version.empty = codes "empty version string"
show_error (Version.invalid_component s) = codes "invalid version component: " ++ s

abbrev pub Operator : Type 0
Operator = Text × (Version → VersionConstraint)

-- The table `OPS`, in the order in which the operators are tried.
abbrev pub operators : List Operator
operators =
    (codes ">=", greater_or_equal)
    ∷ (codes "<=", less_or_equal)
    ∷ (codes "<", less_than)
    ∷ (codes ">", greater_than)
    ∷ (codes "=", equal)
    ∷ []

-- The body of the loop, behind `input.find(op)`.
unfoldable pub parse_constrained :
    Text → Text → Text → (Version → VersionConstraint) → Result Text DependencySpec
unfolding trim is_empty is_valid_package_name Version.parse show_error
parse_constrained input before after make =
    let name_part = trim before in
    let ver_part = trim after in
    if is_empty name_part || is_empty ver_part
    then err (codes "invalid dependency format: " ++ input)
    else if is_valid_package_name name_part
    then (map_err show_error (Version.parse ver_part) >>= λ version.
        ok (record { name = name_part; constraint = some (make version) }))
    else err (codes "invalid package name: " ++ name_part)

-- The loop over the operators, and the code behind it.
unfoldable pub try_operators : Text → List Operator → Result Text DependencySpec
unfolding parse_constrained find_text
try_operators input [] =
    if is_valid_package_name input
    then ok (record { name = input; constraint = none })
    else err (codes "invalid package name: " ++ input)
try_operators input ((op, make) ∷ ops) = elim (find_text op input) [
  | some (before, after) ↦ parse_constrained input before after make
  | none ↦ try_operators input ops
]

unfoldable pub parse_dependency_spec : Text → Result Text DependencySpec
unfolding try_operators
parse_dependency_spec input =
    let t = trim input in
    if is_empty t then err (codes "empty dependency string") else try_operators t operators
