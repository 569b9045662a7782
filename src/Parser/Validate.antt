-- ===== src/Parser/Validate.antt =====
-- ribosome/crates/ribosome-parser/src/validate.rs, and the entry points of
-- ribosome/crates/ribosome-parser/src/lib.rs. Each check returns the issues that it appends.
pub mod Format
pub mod Parts
pub mod Rules
pub mod Accepted
pub mod Outcome
use lysine_os.Base.{
  ℕ, zero, suc, ◌+◌, Bool, true, false, ◌&&◌, ◌||◌, not, Option, none, some, List, [], ◌∷◌, ◌++◌,
  ◌≡◌, ◌↔◌, Text, codes, text_eq, is_empty, trim, Result, ok, err, ◌>>=◌, map_err, if◌then◌else◌,
  ◌==◌, ltb, leb, any, all, retain, length,
}
use lysine_os.Base.Decimal.{format_nat, is_digit}
use lysine_os.Parser.Model.{
  MrnaFile, Depends, Source, Build, Features, FeatureOption, Outputs, OutputEntry, PatchItem,
  simple, conditional, all_dependency_strings,
}
use lysine_os.Parser.Issue.{
  ValidationIssue, error, warning, is_error, ParserError, validation, yaml_syntax, io,
}
use lysine_os.Parser.Dependency.{parse_dependency_spec, DependencySpec, is_lowercase}
use lysine_os.Parser.Dependency.Names.{Kebab}
use lysine_os.Parser.Validate.Format.{Formats, is_blank, indexed, unless}
use lysine_os.Parser.Validate.Parts.{
  validate_build, validate_depends, validate_features, validate_outputs, validate_patches,
}

unfoldable pub validate_api_version : MrnaFile → List ValidationIssue
validate_api_version mrna = unless (mrna.api_version == 1) (
    error (codes "api-version")
      (codes "unsupported api-version " ++ (format_nat mrna.api_version ++ codes " (expected 1)")))

unfoldable pub validate_version : MrnaFile → List ValidationIssue
validate_version mrna =
    unless (not (is_blank mrna.version)) (error (codes "version") (codes "must not be empty"))

unfoldable pub validate_release : MrnaFile → List ValidationIssue
validate_release mrna =
    unless (not (ltb mrna.release 1)) (error (codes "release") (codes "must be >= 1"))

unfoldable pub validate_description : MrnaFile → List ValidationIssue
validate_description mrna =
    unless (not (is_blank mrna.description))
      (error (codes "description") (codes "must not be empty"))

-- `matches!(scheme, "http" | "https" | "ftp")`
unfoldable pub is_supported_scheme : Text → Bool
is_supported_scheme scheme =
    text_eq scheme (codes "http") || text_eq scheme (codes "https") || text_eq scheme (codes "ftp")

unfoldable pub is_supported_signature : Text → Bool
is_supported_signature sig = text_eq sig (codes "gpg") || text_eq sig (codes "minisign")

module _ (formats : Formats) where
  open formats use {kebab_case, sha256_hash, url_parse, is_spdx}

  unfoldable pub validate_name : MrnaFile → List ValidationIssue
  validate_name mrna =
      if is_blank mrna.name
      then error (codes "name") (codes "must not be empty") ∷ []
      else unless (kebab_case mrna.name)
          (error (codes "name") (codes "must be kebab-case (lowercase letters, digits, hyphens)"))

  unfoldable pub validate_license : MrnaFile → List ValidationIssue
  validate_license mrna =
      if is_blank mrna.license
      then error (codes "license") (codes "must not be empty") ∷ []
      else unless (is_spdx mrna.license)
          (warning (codes "license") (codes "unable to verify SPDX identifier: " ++ mrna.license))

  -- The three checks of one source.
  unfoldable pub url_issues : Text → Text → List ValidationIssue
  unfolding is_supported_scheme
  url_issues prefix url = elim (url_parse url) [
    | err e ↦ error (prefix ++ codes ".url") (codes "invalid URL: " ++ e) ∷ []
    | ok scheme ↦ unless (is_supported_scheme scheme) (
        error (prefix ++ codes ".url")
          (codes "unsupported URL scheme: " ++ (scheme ++ codes " (expected http, https, or ftp)")))
  ]

  unfoldable pub hash_issues : Text → Option Text → List ValidationIssue
  hash_issues prefix none = []
  hash_issues prefix (some hash) = unless (sha256_hash hash) (
      error (prefix ++ codes ".hash")
        (codes "invalid sha256 format (expected sha256: + 64 hex digits)"))

  unfoldable pub signature_issues : Text → Option Text → List ValidationIssue
  unfolding is_supported_signature
  signature_issues prefix none = []
  signature_issues prefix (some sig) = unless (is_supported_signature sig) (
      error (prefix ++ codes ".signature")
        (codes "unsupported signature type: " ++ (sig ++ codes " (expected gpg or minisign)")))

  -- One round of the loop over the sources.
  unfoldable pub one_source : Text → Source → List ValidationIssue
  unfolding url_issues hash_issues signature_issues
  one_source prefix source =
      url_issues prefix source.url
      ++ (hash_issues prefix source.hash ++ signature_issues prefix source.signature)

  -- The loop, from index `i` on.
  unfoldable pub source_issues : ℕ → List Source → List ValidationIssue
  source_issues i [] = []
  source_issues i (source ∷ sources) =
      one_source (indexed (codes "sources") i) source ++ source_issues (suc i) sources

  unfoldable pub validate_sources : MrnaFile → List ValidationIssue
  validate_sources mrna = elim mrna.sources [
    | [] ↦ error (codes "sources") (codes "must contain at least one source") ∷ []
    | source ∷ sources ↦ source_issues 0 (source ∷ sources)
  ]

  unfoldable pub collect_validation_issues : MrnaFile → List ValidationIssue
  collect_validation_issues mrna =
      validate_api_version mrna
      ++ (validate_name mrna
          ++ (validate_version mrna
              ++ (validate_release mrna
                  ++ (validate_description mrna
                      ++ (validate_license mrna
                          ++ (validate_sources mrna
                              ++ (validate_build mrna
                                  ++ (validate_depends mrna
                                      ++ (validate_features mrna
                                          ++ (validate_outputs mrna
                                              ++ validate_patches mrna))))))))))

  -- The unit result stands for `Ok(())`.
  unfoldable pub validate_mrna : MrnaFile → Result ParserError (Unit {0})
  unfolding collect_validation_issues
  validate_mrna mrna = elim (retain is_error (collect_validation_issues mrna)) [
    | [] ↦ ok tt
    | e ∷ errors ↦ err (validation (e ∷ errors))
  ]

  unfoldable pub validate_warnings : MrnaFile → List ValidationIssue
  unfolding collect_validation_issues
  validate_warnings mrna = retain (λ i. not (is_error i)) (collect_validation_issues mrna)

  unfoldable pub apply_validation : MrnaFile → Result ParserError MrnaFile
  unfolding collect_validation_issues
  apply_validation mrna =
      let found = collect_validation_issues mrna in
      if any is_error found then err (validation found) else ok mrna

  -- `from_str` is that of the crate serde_yaml, with the message of its error.
  unfoldable pub parse_mrna : (Text → Result Text MrnaFile) → Text → Result ParserError MrnaFile
  unfolding apply_validation
  parse_mrna from_str content =
      (map_err yaml_syntax (from_str content) >>= λ mrna. apply_validation mrna)

  -- `read` answers for the file.
  unfoldable pub parse_mrna_file :
      (Text → Result Text MrnaFile) → Result Text Text → Result ParserError MrnaFile
  unfolding parse_mrna
  parse_mrna_file from_str read = (map_err io read >>= λ content. parse_mrna from_str content)
