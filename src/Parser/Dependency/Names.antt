-- ===== src/Parser/Dependency/Names.antt =====
-- What `is_valid_package_name` accepts, and where names come out of `parse_dependency_spec`
-- (ribosome-parser/src/dependency.rs, and the regular expression of validate.rs).
use lysine_os.Base.{
  ℕ, ◌==◌, Bool, true, false, ◌&&◌, Bool-cases, List, [], ◌∷◌, ◌≡◌, ◌↔◌, refl, ◌⊎◌, inl, inr, arith,
  Text, split, all, Option-cases, ok, trim, is_empty, find_text,
}
use lysine_os.Parser.Version
use lysine_os.Parser.Dependency.{
  DependencySpec, is_alnum, is_lowercase, is_valid_part, is_valid_package_name, Operator, operators,
  try_operators, parse_constrained, parse_dependency_spec,
}

-- The rest of `[a-z][a-z0-9]*(-[a-z0-9]+)*` behind a character of a segment.
pub data KebabTail : Text → Type 0 where
  end : KebabTail []
  next : (c : ℕ) (s : Text) → is_alnum c ≡ true → KebabTail s → KebabTail (c ∷ s)
  dash : (d c : ℕ) (s : Text) → d ≡ b'-' → is_alnum c ≡ true → KebabTail s → KebabTail (d ∷ c ∷ s)

-- The language of the expression.
pub data Kebab : Text → Type 0 where
  word : (c : ℕ) (s : Text) → is_lowercase c ≡ true → KebabTail s → Kebab (c ∷ s)

abbrev pieces_valid : Text → Bool
pieces_valid s = all is_alnum (split b'-' s).0 && all is_valid_part (split b'-' s).1

alnum_not_dash : (c : ℕ) → is_alnum c ≡ true → (c == b'-') ≡ false
unfolding is_alnum
alnum_not_dash c h = ground arith

pub lowercase_alnum : (c : ℕ) → is_lowercase c ≡ true → is_alnum c ≡ true
unfolding is_alnum
lowercase_alnum c h = ground arith

pieces-KebabTail : {s : Text} → KebabTail s → pieces_valid s ≡ true
unfolding split is_valid_part
pieces-KebabTail end = refl
pieces-KebabTail (next c s a t) = ground (arith, alnum_not_dash c, pieces-KebabTail t)
pieces-KebabTail (dash d c s e a t) = ground (arith, alnum_not_dash c, pieces-KebabTail t)

KebabTail-pieces : (s : Text) → pieces_valid s ≡ true → KebabTail s
unfolding split is_valid_part
KebabTail-pieces [] h = end
KebabTail-pieces (c ∷ []) h = next c [] (ground arith) end
KebabTail-pieces (c ∷ d ∷ s) h = elim (Bool-cases (c == b'-')) [
  | inl e ↦ dash c d s (ground arith) (ground arith) (KebabTail-pieces s (ground arith))
  | inr e ↦ next c (d ∷ s) (ground arith) (KebabTail-pieces (d ∷ s) (ground arith))
]

valid-of_Kebab : {s : Text} → Kebab s → is_valid_package_name s ≡ true
unfolding is_valid_package_name
valid-of_Kebab (word c s l t) =
    ground (arith, lowercase_alnum c, alnum_not_dash c, pieces-KebabTail t)

Kebab-of_valid : (s : Text) → is_valid_package_name s ≡ true → Kebab s
unfolding is_valid_package_name
Kebab-of_valid [] h = cc
Kebab-of_valid (c ∷ s) h = word c s (ground arith) (KebabTail-pieces s (ground arith))

-- `is_valid_package_name` accepts exactly the texts that match the expression
-- `^[a-z][a-z0-9]*(-[a-z0-9]+)*$`, by which the validator tests the name of a package.
pub is_valid_package_name-Kebab : (s : Text) → (is_valid_package_name s ≡ true) ↔ Kebab s
is_valid_package_name-Kebab s = (Kebab-of_valid s, valid-of_Kebab)

parse_constrained-name :
    (input before after : Text) (make : Version.Version → Version.VersionConstraint)
    {d : DependencySpec}
    → parse_constrained input before after make ≡ ok d
    → is_valid_package_name d.name ≡ true
unfolding parse_constrained
parse_constrained-name input before after make h = ground arith

try_operators-name :
    (input : Text) (ops : List Operator) {d : DependencySpec}
    → try_operators input ops ≡ ok d
    → is_valid_package_name d.name ≡ true
unfolding try_operators
try_operators-name input [] h = ground arith
try_operators-name input ((op, make) ∷ ops) h = elim (Option-cases (find_text op input)) [
  | inl e ↦ try_operators-name input ops (rw (e, try_operators) at h)
  | inr ((before, after), e) ↦
      parse_constrained-name input before after make (rw (e, try_operators) at h)
]

-- Whatever text is parsed to a dependency, the name in it matches the expression for names.
pub parse_dependency_spec-name :
    (input : Text) {d : DependencySpec} → parse_dependency_spec input ≡ ok d → Kebab d.name
unfolding parse_dependency_spec
parse_dependency_spec-name input {d} h =
    Kebab-of_valid d.name (named (Bool-cases (is_empty (trim input))))
  where
    named :
        (is_empty (trim input) ≡ true) ⊎ (is_empty (trim input) ≡ false)
        → is_valid_package_name d.name ≡ true
    named (inl e) = ground arith
    named (inr e) = try_operators-name (trim input) operators (rw e at h)
