-- ===== src/Repository/Filename.antt =====
-- The names of package files: `parse_prot_filename` of ribosome-repository/src/repository.rs, and
-- the name that `pack` of ribosome-package/src/packer.rs gives to a file.
pub mod RoundTrip
use lysine_os.Base.{
  ℕ, zero, suc, ◌^◌, Bool, true, false, ◌&&◌, Option, none, some, List, [], ◌∷◌, ◌++◌, Text, codes,
  if◌then◌else◌, ◌==◌, ltb,
}
use lysine_os.Base.Decimal.{format_nat, parse_uint}

pub record ParsedFilename : Type 0 where
  pub name : Text
  pub version : Text
  pub release : ℕ
  pub arch : Text

-- `s.rsplitn(2, c)`, when it gives two pieces: the text before the last `c`, and that behind it.
unfoldable pub rsplit_once : ℕ → Text → Option (Text × Text)
rsplit_once sep [] = none
rsplit_once sep (c ∷ s) = elim (rsplit_once sep s) [
  | some (a, b) ↦ some (c ∷ a, b)
  | none ↦ if c == sep then some ([], s) else none
]

unfoldable pub take : ℕ → Text → Text
take zero s = []
take (suc n) [] = []
take (suc n) (c ∷ s) = c ∷ take n s

unfoldable pub drop : ℕ → Text → Text
drop zero s = s
drop (suc n) [] = []
drop (suc n) (c ∷ s) = drop n s

-- `char::is_numeric` is that of the standard library, over the whole of Unicode.
module _ (is_numeric : ℕ → Bool) where
  unfoldable pub starts_numeric : Text → Bool
  starts_numeric [] = false
  starts_numeric (c ∷ s) = is_numeric c

  -- The loop of `extract_name` and `extract_version`, from position `i` on. Positions count
  -- characters.
  unfoldable pub last_split : ℕ → ℕ → Text → ℕ
  unfolding starts_numeric
  last_split i last [] = last
  last_split i last (c ∷ s) =
      last_split (suc i) (if c == b'-' && starts_numeric s then i else last) s

  unfoldable pub extract_name : Text → Text
  unfolding last_split
  extract_name name_ver =
      let n = last_split 0 0 name_ver in if ltb 0 n then take n name_ver else name_ver

  unfoldable pub extract_version : Text → Text
  unfolding last_split
  extract_version name_ver =
      let n = last_split 0 0 name_ver in if ltb 0 n then drop (suc n) name_ver else []

  -- `release_str.parse::<u32>().unwrap_or(1)`
  unfoldable pub release_or_one : Text → ℕ
  release_or_one s = elim (parse_uint (2 ^ 32) s) [ none ↦ 1 | some r ↦ r ]

  unfoldable pub parse_prot_filename : Text → ParsedFilename
  unfolding rsplit_once
  parse_prot_filename stem = elim (rsplit_once b'-' stem) [
    | none ↦ record { name = stem; version = []; release = 1; arch = [] }
    | some (name_ver_release, arch) ↦ elim (rsplit_once b'-' name_ver_release) [
      | none ↦ record { name = name_ver_release; version = []; release = 1; arch = arch }
      | some (name_ver, release_str) ↦ record {
        name = extract_name name_ver;
        version = extract_version name_ver;
        release = release_or_one release_str;
        arch = arch;
      }
    ]
  ]

-- The name that `pack` gives to a package's file, without the extension.
unfoldable pub package_stem : Text → Text → ℕ → Text → Text
package_stem name version release arch =
    name ++ b'-' ∷ (version ++ b'-' ∷ (format_nat release ++ b'-' ∷ arch))

unfoldable pub package_filename : Text → Text → ℕ → Text → Text
unfolding package_stem
package_filename name version release arch = package_stem name version release arch ++ codes ".prot"
