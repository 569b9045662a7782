-- ===== src/Parser/Version/RoundTrip.antt =====
-- A printed version is read back (ribosome-parser/src/version.rs, `Version::parse`).
use lysine_os.Base.{
  ℕ, ◌==◌, some, split, ◌<◌, false, [], ◌∷◌, ◌++◌, append-nil, ◌≡◌, subst, sym, refl, Text, ok,
  Lacks, split_once-none, split_once-append, split-Lacks, split-append, Solid, is_empty-Solid,
  Solid-append, Solid-reverse_append, trim-Solid, All-append,
}
use lysine_os.Base.Decimal.{
  format_nat, format-Lacks, parse_uint, parse_uint-format, format-Solid, is_digit,
}
use lysine_os.Parser.Version.{Version, u64_bound, parse, parse_component, parse_core, split_suffix}
use mathlib.Core.List.{reverse}

-- `{major}.{minor}.{patch}{rest}`
abbrev pub print_core : Version → Text
print_core v = format_nat v.major ++ b'.' ∷ (format_nat v.minor ++ b'.' ∷ format_nat v.patch)

abbrev pub print : Version → Text
print v = print_core v ++ v.rest

-- The suffix is empty, or begins with a dash and does not end in white space.
abbrev pub IsSuffix : Text → Type 0
IsSuffix [] = Unit
IsSuffix (c ∷ s) = (c ≡ b'-') × Solid (reverse (c ∷ s))

-- The three numbers fit in 64 bits.
abbrev pub FitsU64 : Version → Type 0
FitsU64 v = (v.major < u64_bound) × (v.minor < u64_bound) × (v.patch < u64_bound)

parse_component-some :
    (s : Text) (n : ℕ) → parse_uint u64_bound s ≡ some n → parse_component s ≡ ok n
unfolding parse_component
parse_component-some [] n h = unfold parse_uint in cc
parse_component-some (c ∷ s) n h = rw h

parse_component-format : (n : ℕ) → n < u64_bound → parse_component (format_nat n) ≡ ok n
parse_component-format n h = parse_component-some (format_nat n) n (parse_uint-format u64_bound n h)

Lacks-dot : (n : ℕ) → Lacks b'.' (format_nat n)
Lacks-dot n = format-Lacks b'.' n (unfold is_digit in refl)

print_core-Lacks : (v : Version) → Lacks b'-' (print_core v)
print_core-Lacks v =
    All-append P (format_nat v.major) _ (number v.major)
      (refl, All-append P (format_nat v.minor) _ (number v.minor) (refl, number v.patch))
  where
    P : ℕ → Type 0
    P c = (c == b'-') ≡ false

    number : (n : ℕ) → Lacks b'-' (format_nat n)
    number n = format-Lacks b'-' n (unfold is_digit in refl)

split-print_core :
    (v : Version)
    → split b'.' (print_core v) ≡ (format_nat v.major, format_nat v.minor ∷ format_nat v.patch ∷ [])
split-print_core v = rw (
  split-append b'.' (format_nat v.major) _ (Lacks-dot v.major),
  split-append b'.' (format_nat v.minor) (format_nat v.patch) (Lacks-dot v.minor),
  split-Lacks b'.' (format_nat v.patch) (Lacks-dot v.patch),
)

parse_core-print : (v : Version) → FitsU64 v → parse_core (print_core v) v.rest ≡ ok v
unfolding parse_core
parse_core-print v (ma, mi, pa) = rw (
  split-print_core v,
  parse_component-format v.major ma,
  parse_component-format v.minor mi,
  parse_component-format v.patch pa,
)

split_suffix-print :
    (core rest : Text)
    → Lacks b'-' core
    → IsSuffix rest
    → split_suffix (core ++ rest) ≡ (core, rest)
unfolding split_suffix
split_suffix-print core [] h s =
    subst (λ t. split_suffix t ≡ (core, [])) (sym (append-nil core))
      (rw (split_once-none b'-' core h, split_suffix))
split_suffix-print core (c ∷ r) h (e, s) = rw (e, split_once-append b'-' core r h, split_suffix)

print_core-Solid : (v : Version) → Solid (print_core v) × Solid (reverse (print_core v))
print_core-Solid v = (
  Solid-append (format_nat v.major) _ (format-Solid v.major).0,
  Solid-reverse_append (format_nat v.major) _ (
      Solid-reverse_append (b'.' ∷ format_nat v.minor) (b'.' ∷ format_nat v.patch)
        (Solid-reverse_append (b'.' ∷ []) (format_nat v.patch) (format-Solid v.patch).1)),
)

rest-Solid :
    (core rest : Text) → Solid (reverse core) → IsSuffix rest → Solid (reverse (core ++ rest))
rest-Solid core [] h s = rw append-nil h
rest-Solid core (c ∷ r) h (e, s) = Solid-reverse_append core (c ∷ r) s

-- The printed version has no white space at its ends.
pub print-Solid : (v : Version) → IsSuffix v.rest → Solid (print v) × Solid (reverse (print v))
print-Solid v suffix = (
  Solid-append (print_core v) v.rest (print_core-Solid v).0,
  rest-Solid (print_core v) v.rest (print_core-Solid v).1 suffix,
)

-- A character that is no digit and no dot occurs in a printed version only behind the numbers.
pub print-Lacks :
    (c : ℕ) (v : Version)
    → is_digit c ≡ false
    → (b'.' == c) ≡ false
    → Lacks c v.rest
    → Lacks c (print v)
print-Lacks c v d p h =
    All-append P (print_core v) v.rest
      (All-append P (format_nat v.major) _ (format-Lacks c v.major d) (
        p,
        All-append P (format_nat v.minor) _ (format-Lacks c v.minor d)
            (p, format-Lacks c v.patch d),
      ))
      h
  where
    P : ℕ → Type 0
    P a = (a == c) ≡ false

-- The text `major.minor.patch` followed by a suffix is parsed to the version that it shows, if the
-- three numbers fit in 64 bits and the suffix is empty, or begins with `-` and does not end in
-- white space.
pub parse-print : (v : Version) → FitsU64 v → IsSuffix v.rest → parse (print v) ≡ ok v
unfolding parse
parse-print v fits suffix =
    let (solid, behind) = print-Solid v suffix in
    rw
      (
        trim-Solid (print v) solid behind,
        is_empty-Solid (print v) solid,
        split_suffix-print (print_core v) v.rest (print_core-Lacks v) suffix,
      )
      (parse_core-print v fits)
