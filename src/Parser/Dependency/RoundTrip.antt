-- ===== src/Parser/Dependency/RoundTrip.antt =====
-- A printed dependency is read back (ribosome-parser/src/dependency.rs, `parse_dependency_spec`).
use lysine_os.Base.{
  ℕ, ◌==◌, false, Option, none, some, List, [], ◌∷◌, ◌++◌, ◌≡◌, ◌∙◌, refl, Text, codes, ok, Lacks,
  Solid, Solid-append, Solid-reverse_append, trim-Solid, is_empty-Solid, All-append,
  find_text-Lacks, find_text-Lacks_second, find_text-append, find_text,
}
use lysine_os.Base.Decimal.{is_digit}
use lysine_os.Parser.Version.{
  Version, VersionConstraint, greater_or_equal, less_or_equal, less_than, equal, greater_than,
}
use lysine_os.Parser.Version.RoundTrip.{print, print-Solid, print-Lacks}
use lysine_os.Parser.Dependency.{
  parse_constrained, try_operators, Operator, operators, parse_dependency_spec,
}
use lysine_os.Parser.Dependency.Names.{Kebab, is_valid_package_name-Kebab}
use mathlib.Core.List.{reverse}
use lysine_os.Parser.Dependency.Printing.{
  constructor_of, operator_of, version_of, print_constrained, print_spec, NoOperator, IsPrintable,
  name-Solid, name-NoOperator, parse_constrained-print,
}

print_constrained-Lacks :
    (c : ℕ) (name op : Text) (v : Version)
    → Lacks c name
    → (b' ' == c) ≡ false
    → Lacks c op
    → Lacks c (print v)
    → Lacks c (print_constrained name op v)
print_constrained-Lacks c name op v n s o p =
    All-append P (name ++ codes " ") _ (All-append P name (codes " ") n (s, tt))
      (All-append P op (codes " " ++ print v) o (s, p))
  where
    P : ℕ → Type 0
    P a = (a == c) ≡ false

module _ (input op : Text) (make : Version → VersionConstraint) (ops : List Operator) where
  try-miss :
      find_text op input ≡ none → try_operators input ((op, make) ∷ ops) ≡ try_operators input ops
  unfolding try_operators
  try-miss h = rw (h, try_operators)

  try-hit :
      {before after : Text}
      → find_text op input ≡ some (before, after)
      → try_operators input ((op, make) ∷ ops) ≡ parse_constrained input before after make
  unfolding try_operators
  try-hit h = rw (h, try_operators)

module _ (name : Text) (named : Kebab name) (v : Version) (fine : IsPrintable v) where
  print-NoOperator : NoOperator (print v)
  unfolding is_digit
  print-NoOperator = (
    print-Lacks b'<' v refl refl fine.2.0,
    print-Lacks b'>' v refl refl fine.2.1,
    print-Lacks b'=' v refl refl fine.2.2,
  )

  before-Lacks : (c : ℕ) → Lacks c name → (b' ' == c) ≡ false → Lacks c (name ++ codes " ")
  before-Lacks c h s = All-append (λ a. (a == c) ≡ false) name (codes " ") h (s, tt)

  -- The printed text behind the operator, and the test on each operator that is tried before.
  input-Lacks :
      (c : ℕ) (op : Text)
      → Lacks c name
      → (b' ' == c) ≡ false
      → Lacks c op
      → Lacks c (print v)
      → Lacks c (print_constrained name op v)
  input-Lacks c op = print_constrained-Lacks c name op v

  try_operators-print :
      (c : VersionConstraint)
      → version_of c ≡ v
      → try_operators (print_constrained name (operator_of c) v) operators
        ≡ parse_constrained
            (print_constrained name (operator_of c) v)
            (name ++ codes " ")
            (codes " " ++ print v)
            (constructor_of c)
  try_operators-print (greater_or_equal w) e =
      let (lt, gt, eq) = name-NoOperator name named in
      try-hit _ _ _ _ (
        find_text-append b'>' (codes "=") (name ++ codes " ") (codes " " ++ print v)
          (before-Lacks b'>' gt refl))
  try_operators-print (less_or_equal w) e =
      let (lt, gt, eq) = name-NoOperator name named in
      let (lt', gt', eq') = print-NoOperator in
      try-miss _ _ _ _ (
        find_text-Lacks b'>' (codes "=") _
          (input-Lacks b'>' (codes "<=") gt refl (refl, (refl, tt)) gt'))
      ∙ try-hit _ _ _ _ (
          find_text-append b'<' (codes "=") (name ++ codes " ") (codes " " ++ print v)
            (before-Lacks b'<' lt refl))
  try_operators-print (less_than w) e =
      let (lt, gt, eq) = name-NoOperator name named in
      let (lt', gt', eq') = print-NoOperator in
      try-miss _ _ _ _
        (find_text-Lacks b'>' (codes "=") _ (input-Lacks b'>' (codes "<") gt refl (refl, tt) gt'))
      ∙ try-miss _ _ _ _
          (find_text-Lacks_second b'<' b'=' _ (input-Lacks b'=' (codes "<") eq refl (refl, tt) eq'))
      ∙ try-hit _ _ _ _ (
          find_text-append b'<' [] (name ++ codes " ") (codes " " ++ print v)
            (before-Lacks b'<' lt refl))
  try_operators-print (greater_than w) e =
      let (lt, gt, eq) = name-NoOperator name named in
      let (lt', gt', eq') = print-NoOperator in
      try-miss _ _ _ _
        (find_text-Lacks_second b'>' b'=' _ (input-Lacks b'=' (codes ">") eq refl (refl, tt) eq'))
      ∙ try-miss _ _ _ _
          (find_text-Lacks b'<' (codes "=") _ (input-Lacks b'<' (codes ">") lt refl (refl, tt) lt'))
      ∙ try-miss _ _ _ _
          (find_text-Lacks b'<' [] _ (input-Lacks b'<' (codes ">") lt refl (refl, tt) lt'))
      ∙ try-hit _ _ _ _ (
          find_text-append b'>' [] (name ++ codes " ") (codes " " ++ print v)
            (before-Lacks b'>' gt refl))
  try_operators-print (equal w) e =
      let (lt, gt, eq) = name-NoOperator name named in
      let (lt', gt', eq') = print-NoOperator in
      try-miss _ _ _ _
        (find_text-Lacks b'>' (codes "=") _ (input-Lacks b'>' (codes "=") gt refl (refl, tt) gt'))
      ∙ try-miss _ _ _ _
          (find_text-Lacks b'<' (codes "=") _ (input-Lacks b'<' (codes "=") lt refl (refl, tt) lt'))
      ∙ try-miss _ _ _ _
          (find_text-Lacks b'<' [] _ (input-Lacks b'<' (codes "=") lt refl (refl, tt) lt'))
      ∙ try-miss _ _ _ _
          (find_text-Lacks b'>' [] _ (input-Lacks b'>' (codes "=") gt refl (refl, tt) gt'))
      ∙ try-hit _ _ _ _ (
          find_text-append b'=' [] (name ++ codes " ") (codes " " ++ print v)
            (before-Lacks b'=' eq refl))

  print-ends :
      (op : Text)
      → Solid (print_constrained name op v) × Solid (reverse (print_constrained name op v))
  print-ends op = (
    Solid-append (name ++ codes " ") _ (Solid-append name (codes " ") (name-Solid name named).0),
    Solid-reverse_append (name ++ codes " ") _ (
        Solid-reverse_append op _
          (Solid-reverse_append (codes " ") (print v) (print-Solid v fine.1).1)),
  )

  parse-print_constrained :
      (c : VersionConstraint)
      → version_of c ≡ v
      → parse_dependency_spec (print_constrained name (operator_of c) v)
        ≡ ok (record { name = name; constraint = some (constructor_of c v) })
  unfolding parse_dependency_spec
  parse-print_constrained c e =
      let (front, back) = print-ends (operator_of c) in
      rw (trim-Solid _ front back, is_empty-Solid _ front, try_operators-print c e)
        (parse_constrained-print name named v fine.0 fine.1 _ (constructor_of c))

find_operators-none : (s : Text) → NoOperator s → try_operators s operators ≡ try_operators s []
find_operators-none s (lt, gt, eq) =
    try-miss _ _ _ _ (find_text-Lacks b'>' (codes "=") s gt)
    ∙ try-miss _ _ _ _ (find_text-Lacks b'<' (codes "=") s lt)
    ∙ try-miss _ _ _ _ (find_text-Lacks b'<' [] s lt)
    ∙ try-miss _ _ _ _ (find_text-Lacks b'>' [] s gt)
    ∙ try-miss _ _ _ _ (find_text-Lacks b'=' [] s eq)

parse-print_name :
    (name : Text)
    → Kebab name
    → parse_dependency_spec name ≡ ok (record { name = name; constraint = none })
unfolding parse_dependency_spec
parse-print_name name named =
    let (front, back) = name-Solid name named in
    rw
      (
        trim-Solid name front back,
        is_empty-Solid name front,
        find_operators-none name (name-NoOperator name named),
      )
      (unfold try_operators in rw ((is_valid_package_name-Kebab name).1 named))

abbrev pub ConstraintPrintable : Option VersionConstraint → Type 0
ConstraintPrintable none = Unit
ConstraintPrintable (some c) = IsPrintable (version_of c)

constructor_of_version : (c : VersionConstraint) → constructor_of c (version_of c) ≡ c
constructor_of_version (greater_or_equal w) = refl
constructor_of_version (less_or_equal w) = refl
constructor_of_version (less_than w) = refl
constructor_of_version (equal w) = refl
constructor_of_version (greater_than w) = refl

-- A dependency with a well-formed name, printed alone or as `name op version`, is parsed to itself.
-- The version's numbers must fit in 64 bits; its suffix must be empty or begin with `-`, not end
-- in white space, and hold none of `<`, `>` and `=`.
pub parse_dependency_spec-print :
    (name : Text) (constraint : Option VersionConstraint)
    → Kebab name
    → ConstraintPrintable constraint
    → parse_dependency_spec (print_spec (record { name = name; constraint = constraint }))
      ≡ ok (record { name = name; constraint = constraint })
parse_dependency_spec-print name none named fine = parse-print_name name named
parse_dependency_spec-print name (some c) named fine =
    rw (parse-print_constrained name named (version_of c) fine c refl, constructor_of_version c)
