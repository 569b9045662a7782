-- ===== src/Examples/Parser.antt =====
-- Versions and dependency strings at concrete inputs.
use lysine_os.Base.{true, some, [], ◌≡◌, ◌↔◌, refl, arith, codes, ok, err, is_whitespace}
use lysine_os.Parser.Version.{
  Version, parse, satisfies, greater_or_equal, less_than, greater_than, invalid_component,
}
use lysine_os.Parser.Version.Order.{Before, satisfies-Before}
use lysine_os.Parser.Version.RoundTrip.{print, parse-print}
use lysine_os.Parser.Dependency.{
  is_valid_package_name, parse_dependency_spec, is_lowercase, is_alnum,
}
use lysine_os.Parser.Dependency.Names.{Kebab, word, next, dash, end, is_valid_package_name-Kebab}
use lysine_os.Parser.Dependency.Printing.{print_spec}
use lysine_os.Parser.Dependency.RoundTrip.{parse_dependency_spec-print}

abbrev candidate : Version
candidate = record { major = 1; minor = 0; patch = 0; rest = codes "-rc1" }

abbrev release : Version
release = record { major = 1; minor = 0; patch = 0; rest = [] }

abbrev newer : Version
newer = record { major = 1; minor = 12; patch = 0; rest = [] }

satisfies-Before_example :
    ((satisfies release (less_than newer) ≡ true) ↔ Before release newer)
    × ((satisfies release (greater_than newer) ≡ true) ↔ Before newer release)
satisfies-Before_example = satisfies-Before release newer

newer-release : satisfies newer (greater_or_equal release) ≡ true
unfolding satisfies
newer-release = refl

release-candidate : satisfies release (greater_or_equal candidate) ≡ true
unfolding satisfies
release-candidate = refl

parse-print_example : parse (print candidate) ≡ ok candidate
parse-print_example = parse-print candidate (omega arith) (refl, (unfold is_whitespace in refl))

glibc_Kebab : Kebab (codes "gcc-9")
unfolding is_lowercase is_alnum
glibc_Kebab =
    word b'g' _ refl (next b'c' _ refl (next b'c' _ refl (dash b'-' b'9' _ refl refl end)))

is_valid_package_name-Kebab_example :
    (is_valid_package_name (codes "gcc-9") ≡ true) ↔ Kebab (codes "gcc-9")
is_valid_package_name-Kebab_example = is_valid_package_name-Kebab (codes "gcc-9")

parse_dependency_spec-print_example :
    parse_dependency_spec
      (print_spec (record { name = codes "gcc-9"; constraint = some (less_than release) }))
    ≡ ok (record { name = codes "gcc-9"; constraint = some (less_than release) })
parse_dependency_spec-print_example =
    parse_dependency_spec-print (codes "gcc-9") (some (less_than release)) glibc_Kebab
      (omega arith, tt, (tt, tt, tt))

parse_no_space :
    parse_dependency_spec (codes "glibc>=2.39")
    ≡ ok (record {
      name = codes "glibc";
      constraint = some (greater_or_equal (record { major = 2; minor = 39; patch = 0; rest = [] }));
    })
unfolding parse_dependency_spec
parse_no_space = refl

parse_bad_name :
    parse_dependency_spec (codes "Glibc >= 2.39") ≡ err (codes "invalid package name: Glibc")
unfolding parse_dependency_spec
parse_bad_name = refl

parse_operator_only :
    parse_dependency_spec (codes "glibc >=") ≡ err (codes "invalid dependency format: glibc >=")
unfolding parse_dependency_spec
parse_operator_only = refl

-- A sign is accepted in front of a component.
parse_plus : parse (codes "+1.2") ≡ ok (record { major = 1; minor = 2; patch = 0; rest = [] })
unfolding parse
parse_plus = refl

parse_pre_release :
    parse (codes " 1.0.0-rc1 ")
    ≡ ok (record { major = 1; minor = 0; patch = 0; rest = codes "-rc1" })
unfolding parse
parse_pre_release = refl

parse_partial : parse (codes "2.39") ≡ ok (record { major = 2; minor = 39; patch = 0; rest = [] })
unfolding parse
parse_partial = refl

parse_letters : parse (codes "a.b.c") ≡ err (invalid_component (codes "a"))
unfolding parse
parse_letters = refl

parse_long :
    parse (codes "1.2.3-p.4") ≡ ok (record { major = 1; minor = 2; patch = 3; rest = codes "-p.4" })
unfolding parse
parse_long = refl
