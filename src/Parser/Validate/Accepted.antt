-- ===== src/Parser/Validate/Accepted.antt =====
-- The rules that an accepted recipe keeps, and that all checks pass exactly when it keeps them
-- (ribosome-parser/src/validate.rs and lib.rs).
use lysine_os.Base.{
  ℕ, suc, ◌≤◌, true, Option, none, some, List, [], ◌∷◌, ◌++◌, ◌≡◌, ◌≢◌, refl, ◌↔◌, inl, inr, arith,
  Text, codes, ok, any-append, All, Option-cases, List-cases,
}
use lysine_os.Parser.Model.{MrnaFile, Source, all_dependency_strings}
use lysine_os.Parser.Issue.{is_error}
use lysine_os.Parser.Dependency.Names.{Kebab}
use lysine_os.Parser.Validate.Format.{Formats, indexed, IsSha256Hash}
use lysine_os.Parser.Validate.Parts.{
  validate_build, validate_depends, validate_features, validate_outputs, validate_patches,
  default_issues, options_issues,
}
use lysine_os.Parser.Validate.{
  validate_api_version, validate_name, validate_version, validate_release, validate_description,
  validate_license, is_supported_scheme, is_supported_signature, url_issues, hash_issues,
  signature_issues, one_source, source_issues, validate_sources, collect_validation_issues,
}
use lysine_os.Parser.Validate.Rules.{
  Given, IsFilled, DependsOnOther, IsFeatures, IsEntry, IsPatch, IsBuild, Passes, build-rule,
  depends-rule, default-rule, options-rule, entries-rule, patches-rule,
}

features-rule : (mrna : MrnaFile) → Passes (validate_features mrna) ↔ Given mrna.features IsFeatures
unfolding validate_features
features-rule mrna = elim (Option-cases mrna.features) [
  | inl e ↦ rw e (ground arith)
  | inr (f, e) ↦ rw e (
      ground (
        arith,
        default-rule f.options f.default,
        options-rule f.options,
        any-append is_error (default_issues f.options f.default) (options_issues f.options),
      ))
]

outputs-rule :
    (mrna : MrnaFile)
    → Passes (validate_outputs mrna) ↔ Given mrna.outputs (λ o. All IsEntry o.entries)
unfolding validate_outputs
outputs-rule mrna = elim (Option-cases mrna.outputs) [
  | inl e ↦ rw e (ground arith)
  | inr (o, e) ↦ rw e (ground (arith, entries-rule o.entries))
]

validate_patches_rule :
    (mrna : MrnaFile) → Passes (validate_patches mrna) ↔ Given mrna.patches (All IsPatch)
unfolding validate_patches
validate_patches_rule mrna = elim (Option-cases mrna.patches) [
  | inl e ↦ rw e (ground arith)
  | inr (ps, e) ↦ rw e (ground (arith, patches-rule 0 ps))
]

validate_depends_rule :
    (mrna : MrnaFile)
    → Passes (validate_depends mrna)
      ↔ Given mrna.depends (λ d. All (DependsOnOther mrna.name) (all_dependency_strings d))
unfolding validate_depends
validate_depends_rule mrna = elim (Option-cases mrna.depends) [
  | inl e ↦ rw e (ground arith)
  | inr (d, e) ↦ rw e (ground (arith, depends-rule mrna.name (all_dependency_strings d)))
]

module _ (formats : Formats) where
  open formats use {url_parse}

  -- A URL of a supported scheme, a hash of the right form, and a supported signature.
  pub record IsSource (source : Source) : Type 0 where
    pub url :
        (scheme : Text) × (url_parse source.url ≡ ok scheme) × (is_supported_scheme scheme ≡ true)
    pub hash : Given source.hash IsSha256Hash
    pub signature : Given source.signature (λ sig. is_supported_signature sig ≡ true)

  -- The rules that a recipe must keep.
  pub record IsAccepted (mrna : MrnaFile) : Type 0 where
    pub api_version : mrna.api_version ≡ 1
    pub name : IsFilled mrna.name × Kebab mrna.name
    pub version : IsFilled mrna.version
    pub release : 1 ≤ mrna.release
    pub description : IsFilled mrna.description
    pub license : IsFilled mrna.license
    pub sources : (mrna.sources ≢ []) × All IsSource mrna.sources
    pub build : IsBuild mrna.build
    pub depends :
        Given mrna.depends (λ d. All (DependsOnOther mrna.name) (all_dependency_strings d))
    pub features : Given mrna.features IsFeatures
    pub outputs : Given mrna.outputs (λ o. All IsEntry o.entries)
    pub patches : Given mrna.patches (All IsPatch)

  url-rule :
      (prefix url : Text)
      → Passes (url_issues formats prefix url)
        ↔ ((scheme : Text) × (url_parse url ≡ ok scheme) × (is_supported_scheme scheme ≡ true))
  unfolding url_issues
  url-rule prefix url = ground arith

  hash-rule :
      (prefix : Text) (hash : Option Text)
      → Passes (hash_issues formats prefix hash) ↔ Given hash IsSha256Hash
  unfolding hash_issues
  hash-rule prefix none = ground arith
  hash-rule prefix (some hash) = ground (arith, formats.sha256_hash_iff hash)

  signature-rule :
      (prefix : Text) (signature : Option Text)
      → Passes (signature_issues formats prefix signature)
        ↔ Given signature (λ sig. is_supported_signature sig ≡ true)
  unfolding signature_issues
  signature-rule prefix none = ground arith
  signature-rule prefix (some sig) = ground arith

  one_source-rule : (prefix : Text) (s : Source) → Passes (one_source formats prefix s) ↔ IsSource s
  unfolding one_source
  one_source-rule prefix s =
      let first =
        any-append is_error (url_issues formats prefix s.url)
          (hash_issues formats prefix s.hash ++ signature_issues formats prefix s.signature) in
      let second =
        any-append is_error (hash_issues formats prefix s.hash)
          (signature_issues formats prefix s.signature) in
      (
        (λ h. record {
          url = (url-rule prefix s.url).0 (ground (arith, h, first));
          hash = (hash-rule prefix s.hash).0 (ground (arith, h, first, second));
          signature = (signature-rule prefix s.signature).0 (ground (arith, h, first, second));
        }),
        (λ r. ground (
          arith,
          first,
          second,
          (url-rule prefix s.url).1 r.url,
          (hash-rule prefix s.hash).1 r.hash,
          (signature-rule prefix s.signature).1 r.signature,
        )),
      )

  source-rule :
      (i : ℕ) (sources : List Source)
      → Passes (source_issues formats i sources) ↔ All IsSource sources
  unfolding source_issues
  source-rule i [] = ground arith
  source-rule i (s ∷ ss) = ground (
    arith,
    source-rule (suc i) ss,
    one_source-rule (indexed (codes "sources") i) s,
    any-append is_error (one_source formats (indexed (codes "sources") i) s)
        (source_issues formats (suc i) ss),
  )

  sources-rule :
      (mrna : MrnaFile)
      → Passes (validate_sources formats mrna) ↔ ((mrna.sources ≢ []) × All IsSource mrna.sources)
  unfolding validate_sources
  sources-rule mrna = elim (List-cases mrna.sources) [
    | inl e ↦
        rw (e, validate_sources) ((λ h. absurd (ground (arith, h))), (λ (ne, _). absurd (ne refl)))
    | inr (s, ss, e) ↦ rw (e, validate_sources) (ground (arith, source-rule 0 (s ∷ ss)))
  ]

  fields-rule :
      (mrna : MrnaFile)
      → (Passes (validate_api_version mrna) ↔ (mrna.api_version ≡ 1))
        × (Passes (validate_name formats mrna) ↔ (IsFilled mrna.name × Kebab mrna.name))
        × (Passes (validate_version mrna) ↔ IsFilled mrna.version)
        × (Passes (validate_release mrna) ↔ (1 ≤ mrna.release))
        × (Passes (validate_description mrna) ↔ IsFilled mrna.description)
        × (Passes (validate_license formats mrna) ↔ IsFilled mrna.license)
  unfolding validate_api_version validate_name validate_version validate_release
      validate_description validate_license
  fields-rule mrna = ground (arith, formats.kebab_case_iff mrna.name)

  any-parts :
      (mrna : MrnaFile)
      → Passes (collect_validation_issues formats mrna) ↔ (
          Passes (validate_api_version mrna)
          × Passes (validate_name formats mrna)
          × Passes (validate_version mrna)
          × Passes (validate_release mrna)
          × Passes (validate_description mrna)
          × Passes (validate_license formats mrna)
          × Passes (validate_sources formats mrna)
          × Passes (validate_build mrna)
          × Passes (validate_depends mrna)
          × Passes (validate_features mrna)
          × Passes (validate_outputs mrna)
          × Passes (validate_patches mrna))
  unfolding collect_validation_issues
  any-parts mrna = simp (any-append) (ground arith)

  -- A recipe passes all checks exactly when it keeps the rules.
  pub checks_iff :
      (mrna : MrnaFile) → Passes (collect_validation_issues formats mrna) ↔ IsAccepted mrna
  checks_iff mrna =
      let (api, name, version, release, description, license) = fields-rule mrna in
      (
        (λ h.
            let (h0, h1, h2, h3, h4, h5, h6, h7, h8, h9, h10, h11) = (any-parts mrna).0 h in
            record {
              api_version = api.0 h0;
              name = name.0 h1;
              version = version.0 h2;
              release = release.0 h3;
              description = description.0 h4;
              license = license.0 h5;
              sources = (sources-rule mrna).0 h6;
              build = (build-rule mrna).0 h7;
              depends = (validate_depends_rule mrna).0 h8;
              features = (features-rule mrna).0 h9;
              outputs = (outputs-rule mrna).0 h10;
              patches = (validate_patches_rule mrna).0 h11;
            }),
        (λ r. (any-parts mrna).1 (
          api.1 r.api_version,
          name.1 r.name,
          version.1 r.version,
          release.1 r.release,
          description.1 r.description,
          license.1 r.license,
          (sources-rule mrna).1 r.sources,
          (build-rule mrna).1 r.build,
          (validate_depends_rule mrna).1 r.depends,
          (features-rule mrna).1 r.features,
          (outputs-rule mrna).1 r.outputs,
          (validate_patches_rule mrna).1 r.patches,
        )),
      )
