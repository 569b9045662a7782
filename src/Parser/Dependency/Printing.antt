-- ===== src/Parser/Dependency/Printing.antt =====
-- How a dependency is printed, and what a well-formed name is made of
-- (ribosome-parser/src/dependency.rs, `parse_dependency_spec`).
use lysine_os.Base.{
  ℕ, ◌==◌, true, false, none, some, [], ◌++◌, ◌≡◌, ◌≢◌, ◌⊎◌, inl, inr, arith, Text, codes, ok,
  Lacks, Solid, Solid-All, NotSpace, trim-space_before, trim-space_after, is_empty-Solid, All,
  All-weaken, is_whitespace,
}
use lysine_os.Parser.Version.{
  Version, VersionConstraint, greater_or_equal, less_or_equal, less_than, equal, greater_than,
}
use lysine_os.Parser.Version.RoundTrip.{print, IsSuffix, FitsU64, parse-print, print-Solid}
use lysine_os.Parser.Dependency.{DependencySpec, is_alnum, parse_constrained}
use lysine_os.Parser.Dependency.Names.{
  KebabTail, end, next, dash, Kebab, word, is_valid_package_name-Kebab, lowercase_alnum,
}
use mathlib.Core.List.{reverse}

abbrev pub operator_of : VersionConstraint → Text
operator_of (greater_or_equal v) = codes ">="
operator_of (less_or_equal v) = codes "<="
operator_of (less_than v) = codes "<"
operator_of (equal v) = codes "="
operator_of (greater_than v) = codes ">"

abbrev pub version_of : VersionConstraint → Version
version_of (greater_or_equal v) = v
version_of (less_or_equal v) = v
version_of (less_than v) = v
version_of (equal v) = v
version_of (greater_than v) = v

abbrev pub constructor_of : VersionConstraint → Version → VersionConstraint
constructor_of (greater_or_equal v) = greater_or_equal
constructor_of (less_or_equal v) = less_or_equal
constructor_of (less_than v) = less_than
constructor_of (equal v) = equal
constructor_of (greater_than v) = greater_than

abbrev pub print_constrained : Text → Text → Version → Text
print_constrained name op v = (name ++ codes " ") ++ (op ++ (codes " " ++ print v))

-- `name`, or `name op version`.
abbrev pub print_spec : DependencySpec → Text
print_spec d = elim d.constraint [
  | none ↦ d.name
  | some c ↦ print_constrained d.name (operator_of c) (version_of c)
]

-- None of `<`, `>` and `=` occurs.
abbrev pub NoOperator : Text → Type 0
NoOperator s = Lacks b'<' s × Lacks b'>' s × Lacks b'=' s

abbrev pub IsPrintable : Version → Type 0
IsPrintable v = FitsU64 v × IsSuffix v.rest × NoOperator v.rest

abbrev pub NameChar : ℕ → Type 0
NameChar c = (is_alnum c ≡ true) ⊎ (c ≡ b'-')

KebabTail-chars : {s : Text} → KebabTail s → All NameChar s
KebabTail-chars end = tt
KebabTail-chars (next c s a t) = (inl a, KebabTail-chars t)
KebabTail-chars (dash d c s e a t) = (inr e, (inl a, KebabTail-chars t))

pub Kebab-chars : {s : Text} → Kebab s → All NameChar s × (s ≢ [])
Kebab-chars (word c s l t) = ((inl (lowercase_alnum c l), KebabTail-chars t), cc)

NameChar-NotSpace : (c : ℕ) → NameChar c → NotSpace c
unfolding is_alnum is_whitespace
NameChar-NotSpace c h = ground arith

module _ (name : Text) (named : Kebab name) where
  pub name-Solid : Solid name × Solid (reverse name)
  name-Solid =
      Solid-All name (All-weaken NameChar NotSpace NameChar-NotSpace name (Kebab-chars named).0)
        (Kebab-chars named).1

  pub name-NoOperator : NoOperator name
  unfolding is_alnum
  name-NoOperator =
      let chars = (Kebab-chars named).0 in
      (
        All-weaken NameChar (λ c. (c == b'<') ≡ false) (λ c h. ground arith) name chars,
        All-weaken NameChar (λ c. (c == b'>') ≡ false) (λ c h. ground arith) name chars,
        All-weaken NameChar (λ c. (c == b'=') ≡ false) (λ c h. ground arith) name chars,
      )

  module _ (v : Version) (fits : FitsU64 v) (suffix : IsSuffix v.rest) where
    pub parse_constrained-print :
        (input : Text) (make : Version → VersionConstraint)
        → parse_constrained input (name ++ codes " ") (codes " " ++ print v) make
          ≡ ok (record { name = name; constraint = some (make v) })
    unfolding parse_constrained
    parse_constrained-print input make =
        let (front, back) = name-Solid in
        let (begin, finish) = print-Solid v suffix in
        rw (
          trim-space_after name front back,
          trim-space_before (print v) begin finish,
          is_empty-Solid name front,
          is_empty-Solid (print v) begin,
          (is_valid_package_name-Kebab name).1 named,
          parse-print v fits suffix,
        )
