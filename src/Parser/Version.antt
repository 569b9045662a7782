-- ===== src/Parser/Version.antt =====
-- ribosome/crates/ribosome-parser/src/version.rs: `Version`, its parser, its order, and constraints.
pub mod Order
pub mod RoundTrip
use Prim.Native.Nat.{compare, Ordering}
use lysine_os.Base.{
  ℕ, ◌^◌, Bool, true, false, ◌&&◌, not, Option, none, some, List, [], ◌∷◌, ◌++◌, ◌≡◌, refl, Text,
  codes, text_eq, trim, is_empty, split_once, split, join, Result, ok, err, ◌>>=◌, ok_or,
  if◌then◌else◌, ◌==◌, trim_start,
}
use lysine_os.Base.Decimal.{parse_uint, format_nat}

pub record Version : Type 0 where
  pub major : ℕ
  pub minor : ℕ
  pub patch : ℕ
  pub rest : Text

-- `a.then_with(|| b)`
abbrev pub then_with : Ordering → Ordering → Ordering
then_with Ordering.eq o = o
then_with Ordering.lt o = Ordering.lt
then_with Ordering.gt o = Ordering.gt

-- `Ord for Version`: the suffix `rest` is not compared.
unfoldable pub cmp : Version → Version → Ordering
cmp v w =
    then_with (compare v.major w.major)
      (then_with (compare v.minor w.minor) (compare v.patch w.patch))

-- `PartialEq for Version` is derived: all four fields are compared.
unfoldable pub version_eq : Version → Version → Bool
version_eq v w =
    v.major == w.major && v.minor == w.minor && v.patch == w.patch && text_eq v.rest w.rest

-- The operators that `PartialOrd` provides by `cmp`.
unfoldable pub version_lt : Version → Version → Bool
unfolding cmp
version_lt v w = elim (cmp v w) [ Ordering.lt ↦ true | _ ↦ false ]

unfoldable pub version_le : Version → Version → Bool
unfolding cmp
version_le v w = elim (cmp v w) [ Ordering.gt ↦ false | _ ↦ true ]

pub data VersionConstraint : Type 0 where
  greater_or_equal : Version → VersionConstraint
  less_or_equal : Version → VersionConstraint
  less_than : Version → VersionConstraint
  equal : Version → VersionConstraint
  greater_than : Version → VersionConstraint

unfoldable pub satisfies : Version → VersionConstraint → Bool
unfolding version_lt version_le version_eq
satisfies self (greater_or_equal v) = version_le v self
satisfies self (less_or_equal v) = version_le self v
satisfies self (less_than v) = version_lt self v
satisfies self (equal v) = version_eq self v
satisfies self (greater_than v) = version_lt v self

pub data VersionParseError : Type 0 where
  empty : VersionParseError
  invalid_component : Text → VersionParseError

abbrev pub u64_bound : ℕ
u64_bound = 2 ^ 64

unfoldable pub parse_component : Text → Result VersionParseError ℕ
unfolding parse_uint
parse_component [] = ok 0
parse_component (c ∷ s) = ok_or (invalid_component (c ∷ s)) (parse_uint u64_bound (c ∷ s))

-- `parts.next().unwrap_or("0")`, and the pieces that are left.
unfoldable pub next_or_zero : List Text → Text × List Text
next_or_zero [] = (codes "0", [])
next_or_zero (p ∷ ps) = (p, ps)

-- The suffix: what follows the first dash, and the components behind the third.
unfoldable pub join_rest : Text → Text → Text
unfolding is_empty
join_rest rest extra =
    if is_empty extra
    then rest
    else if is_empty rest
    then codes "." ++ extra
    else rest ++ codes "." ++ extra

-- `input.split_once('-')`, with the dash kept in the second part.
unfoldable pub split_suffix : Text → Text × Text
unfolding split_once
split_suffix input = elim (split_once b'-' input) [
  | none ↦ (input, [])
  | some (c, r) ↦ (c, codes "-" ++ r)
]

unfoldable pub parse_core : Text → Text → Result VersionParseError Version
unfolding split next_or_zero parse_component join_rest join
parse_core core rest = do
  let (first, tail1) = split b'.' core
  let (second, tail2) = next_or_zero tail1
  let (third, tail3) = next_or_zero tail2
  major ← parse_component first
  minor ← parse_component second
  patch ← parse_component third
  ok (record {
    major = major;
    minor = minor;
    patch = patch;
    rest = join_rest rest (join (codes ".") tail3);
  })

unfoldable pub parse : Text → Result VersionParseError Version
unfolding parse_core split_suffix trim is_empty
parse input =
    let t = trim input in
    if is_empty t then err empty else parse_core (split_suffix t).0 (split_suffix t).1
