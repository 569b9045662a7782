-- ===== src/Examples/Validate.antt =====
-- The validation of recipes at concrete inputs.
use lysine_os.Base.{
  List, Bool, true, false, ◌&&◌, none, some, [], ◌∷◌, ◌++◌, ◌≡◌, refl, ◌↔◌, inl, inr, arith, Text,
  codes, text_eq, Result, ok, err, all, retain, length, All, split, strip_prefix, find_text,
  if◌then◌else◌, ◌==◌, Option-cases,
}
use lysine_os.Parser.Model.{MrnaFile}
use lysine_os.Parser.Issue.{ValidationIssue, is_error, validation}
use lysine_os.Parser.Dependency.{is_valid_package_name}
use lysine_os.Parser.Dependency.Names.{is_valid_package_name-Kebab}
use lysine_os.Parser.Validate.Format.{Formats, IsSha256Hash, is_hex_digit, is_blank, indexed}
use lysine_os.Base.Decimal.{is_digit}
use lysine_os.Parser.Validate.Parts.{
  validate_build, validate_depends, validate_features, validate_outputs, validate_patches,
}
use lysine_os.Parser.Validate.{
  collect_validation_issues, validate_api_version, validate_name, validate_version,
  validate_release, validate_description, validate_license, validate_sources, source_issues,
  one_source, validate_mrna, parse_mrna,
}
use lysine_os.Parser.Validate.Rules.{Given}
use lysine_os.Parser.Validate.Accepted.{IsAccepted}
use lysine_os.Parser.Validate.Outcome.{parse_mrna_accepts, validate_mrna_errors}
use lysine_os.Store.Digest.{Sha256Digest}
use lysine_os.Store.Digest
use lysine_os.Store.Digest.Accepts.{parse_mrna-hashes}

abbrev is_sha256_hash : Text → Bool
is_sha256_hash s = elim (strip_prefix (codes "sha256:") s) [
  | none ↦ false
  | some d ↦ all is_hex_digit d && length d == 64
]

strip_prefix-some : (p s r : Text) → strip_prefix p s ≡ some r → s ≡ p ++ r
unfolding strip_prefix
strip_prefix-some [] s r e = ground arith
strip_prefix-some (c ∷ p) [] r e = absurd (ground arith)
strip_prefix-some (c ∷ p) (d ∷ s) r e = ground (arith, strip_prefix-some p s r)

pub is_sha256_hash_iff : (s : Text) → (is_sha256_hash s ≡ true) ↔ IsSha256Hash s
is_sha256_hash_iff s = (only, all_such)
  where
    only : is_sha256_hash s ≡ true → IsSha256Hash s
    only h = elim (Option-cases (strip_prefix (codes "sha256:") s)) [
      | inl e ↦ absurd (ground (arith, h, e))
      | inr (d, e) ↦ record {
        digits = d;
        prefixed = strip_prefix-some (codes "sha256:") s d e;
        hex = ground (arith, h, e);
        full = ground (arith, h, e);
      }
    ]

    all_such : IsSha256Hash s → is_sha256_hash s ≡ true
    all_such h = rw h.prefixed (unfold strip_prefix in ground (arith, h.hex, h.full))

-- A scheme is what stands before `://`, and every license is known.
abbrev pub formats : Formats
formats = record {
  kebab_case = is_valid_package_name;
  kebab_case_iff = is_valid_package_name-Kebab;
  sha256_hash = is_sha256_hash;
  sha256_hash_iff = is_sha256_hash_iff;
  url_parse = λ url. elim (find_text (codes "://") url) [
    | none ↦ err (codes "relative URL")
    | some (a, b) ↦ ok a
  ];
  is_spdx = λ license. true;
}

abbrev pub tool : MrnaFile
tool = record {
  api_version = 1;
  name = codes "my-tool";
  version = codes "1.0";
  release = 1;
  description = codes "a tool";
  homepage = none;
  license = codes "MIT";
  maintainer = none;
  tags = none;
  depends = none;
  features = none;
  sources =
      record {
        url = codes "https://example.org/my-tool.tar";
        hash =
            some (codes "sha256:0123456789abcdef0123456789abcdef0123456789abcdef0123456789abcdef");
        signature = none;
        key_id = none;
      }
      ∷ [];
  patches = none;
  build = some (record {
    prepare = none;
    compile = none;
    check = none;
    install = some (codes "make install");
  });
  post_install = none;
  post_remove = none;
  outputs = none;
}

-- The reader knows one text.
abbrev pub reader : Text → Result Text MrnaFile
reader content = if text_eq content (codes "tool") then ok tool else err (codes "no YAML")

pub parsed : parse_mrna formats reader (codes "tool") ≡ ok tool
unfolding parse_mrna collect_validation_issues validate_api_version validate_name validate_version
    validate_release validate_description validate_license validate_sources source_issues one_source
    validate_build validate_depends validate_features validate_outputs validate_patches indexed
    text_eq find_text strip_prefix is_valid_package_name split is_hex_digit is_blank is_digit
parsed = refl

parse_mrna_accepts_example :
    (parse_mrna formats reader (codes "tool") ≡ ok tool)
    ↔ ((reader (codes "tool") ≡ ok tool) × IsAccepted formats tool)
parse_mrna_accepts_example = parse_mrna_accepts formats reader (codes "tool") tool

-- A recipe with release zero.
abbrev unreleased : MrnaFile
unreleased = record tool { release = 0 }

abbrev unreleased_reader : Text → Result Text MrnaFile
unreleased_reader content = ok unreleased

unreleased-rejected : ¬ IsAccepted formats unreleased
unreleased-rejected h = ground (arith, h.release)

validate_mrna_errors_example :
    (parse_mrna formats unreleased_reader (codes "tool")
      ≡ err (validation (collect_validation_issues formats unreleased)))
    × ((x : ValidationIssue) × (xs : List ValidationIssue) × (retain is_error
            (collect_validation_issues formats unreleased)
          ≡ x ∷ xs)
        × (validate_mrna formats unreleased ≡ err (validation (x ∷ xs))))
validate_mrna_errors_example =
    (validate_mrna_errors formats unreleased_reader (codes "tool") unreleased refl).0
      unreleased-rejected

parse_mrna-hashes_example :
    All
      (λ source. Given source.hash (λ hash. (d : Sha256Digest) × (Digest.parse hash ≡ ok d)))
      tool.sources
parse_mrna-hashes_example = parse_mrna-hashes formats reader (codes "tool") tool parsed
