-- ===== src/Parser/Validate/Format.antt =====
-- ribosome/crates/ribosome-parser/src/validate.rs: what the checks call, and how they name fields.
use lysine_os.Base.{
  ℕ, Bool, true, false, ◌&&◌, ◌||◌, List, [], ◌∷◌, ◌++◌, ◌≡◌, ◌↔◌, Text, codes, is_empty, trim,
  Result, leb, all, length,
}
use lysine_os.Base.Decimal.{format_nat, is_digit}
use lysine_os.Parser.Issue.{ValidationIssue}
use lysine_os.Parser.Dependency.Names.{Kebab}

-- `[0-9a-fA-F]`
unfoldable pub is_hex_digit : ℕ → Bool
unfolding is_digit
is_hex_digit c = is_digit c || (leb b'a' c && leb c b'f' || leb b'A' c && leb c b'F')

-- The language of `^sha256:[0-9a-fA-F]{64}$`.
pub record IsSha256Hash (s : Text) : Type 0 where
  pub digits : Text
  pub prefixed : s ≡ codes "sha256:" ++ digits
  pub hex : all is_hex_digit digits ≡ true
  pub full : length digits ≡ 64

-- The two regular expressions, by what `regex` documents of a match; `Url::parse`, which gives the
-- scheme or the message of the error; and whether `Expression::parse` of `spdx` succeeds.
pub record Formats : Type 0 where
  pub kebab_case : Text → Bool
  pub kebab_case_iff : (s : Text) → (kebab_case s ≡ true) ↔ Kebab s
  pub sha256_hash : Text → Bool
  pub sha256_hash_iff : (s : Text) → (sha256_hash s ≡ true) ↔ IsSha256Hash s
  pub url_parse : Text → Result Text Text
  pub is_spdx : Text → Bool

-- `s.trim().is_empty()`
unfoldable pub is_blank : Text → Bool
unfolding is_empty trim
is_blank s = is_empty (trim s)

-- `prefix[i]`
unfoldable pub indexed : Text → ℕ → Text
unfolding format_nat
indexed prefix i = prefix ++ (codes "[" ++ (format_nat i ++ codes "]"))

-- The issue, when the test fails.
abbrev pub unless : Bool → ValidationIssue → List ValidationIssue
unless true issue = []
unless false issue = issue ∷ []
