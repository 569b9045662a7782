-- ===== src/Parser/Validate/Rules.antt =====
-- The rules of a recipe, stated apart from the checks of ribosome-parser/src/validate.rs.
use lysine_os.Base.{
  ℕ, true, false, Option, none, some, List, [], ◌∷◌, ◌≡◌, ◌≢◌, refl, ◌↔◌, ◌⊎◌, inl, inr, arith,
  Text, text_eq_iff, ok, any, any-append, All, Option-cases, Result-cases, suc,
}
use lysine_os.Parser.Model.{
  MrnaFile, Build, Features, FeatureOption, OutputEntry, PatchItem, simple, conditional,
}
use lysine_os.Parser.Issue.{ValidationIssue, is_error}
use lysine_os.Parser.Dependency.{parse_dependency_spec, DependencySpec}
use lysine_os.Parser.Validate.Format.{is_blank}
use lysine_os.Parser.Validate.Parts.{
  validate_build, dependency_issue, dependency_issues, contains_key, default_issues, option_depends,
  option_issues, options_issues, file_issues, entry_issues, entries_issues, patches_issues,
}

-- A value that may be absent has the property if it is there.
abbrev pub Given : {A : Type 0} → Option A → (A → Type 0) → Type 0
Given none P = Unit
Given (some a) P = P a

abbrev pub IsFilled : Text → Type 0
IsFilled s = is_blank s ≡ false

-- A dependency that parses, of another package.
abbrev pub DependsOnOther : Text → Text × Text → Type 0
DependsOnOther name (section, dep) =
    (spec : DependencySpec) × (parse_dependency_spec dep ≡ ok spec) × (spec.name ≢ name)

abbrev pub IsDependency : Text → Type 0
IsDependency dep = (spec : DependencySpec) × (parse_dependency_spec dep ≡ ok spec)

abbrev pub HasKey : {A : Type 0} → List (Text × A) → Text → Type 0
HasKey [] key = ⊥
HasKey ((k, a) ∷ map) key = (k ≡ key) ⊎ HasKey map key

abbrev pub IsOption : Text × FeatureOption → Type 0
IsOption (name, opt) = IsFilled opt.description × Given opt.depends (All IsDependency)

abbrev pub IsFeatures : Features → Type 0
IsFeatures f = All (HasKey f.options) f.default × All IsOption f.options

abbrev pub IsEntry : Text × OutputEntry → Type 0
IsEntry (name, entry) = IsFilled entry.description

abbrev pub IsPatch : PatchItem → Type 0
IsPatch (simple name) = IsFilled name
IsPatch (conditional name condition severity) = IsFilled name

abbrev pub IsBuild : Option Build → Type 0
IsBuild b =
    (build : Build) × (b ≡ some build) × (step : Text) × (build.install ≡ some step) × IsFilled step

-- That a list of issues has no error.
abbrev pub Passes : List ValidationIssue → Type 0
Passes issues = any is_error issues ≡ false

pub build-rule : (mrna : MrnaFile) → Passes (validate_build mrna) ↔ IsBuild mrna.build
unfolding validate_build
build-rule mrna = ground arith

dependency-rule :
    (name section dep : Text)
    → Passes (dependency_issue name section dep) ↔ DependsOnOther name (section, dep)
unfolding dependency_issue
dependency-rule name section dep = elim (Result-cases (parse_dependency_spec dep)) [
  | inl (spec, e) ↦
      rw (e, dependency_issue)
        (
          (λ h. (spec, refl, ground (arith, text_eq_iff spec.name name, h))),
          (λ (other, q, ne). ground (arith, text_eq_iff spec.name name, q, ne)),
        )
  | inr (x, e) ↦
      rw (e, dependency_issue)
        ((λ h. absurd (ground (arith, h))), (λ (spec, q, ne). absurd (ground (arith, q))))
]

pub depends-rule :
    (name : Text) (deps : List (Text × Text))
    → Passes (dependency_issues name deps) ↔ All (DependsOnOther name) deps
unfolding dependency_issues
depends-rule name [] = ground arith
depends-rule name ((section, dep) ∷ deps) = ground (
  arith,
  depends-rule name deps,
  dependency-rule name section dep,
  any-append is_error (dependency_issue name section dep) (dependency_issues name deps),
)

key-rule :
    {A : Type 0} (map : List (Text × A)) (key : Text)
    → (contains_key map key ≡ true) ↔ HasKey map key
unfolding contains_key
key-rule [] key = ground arith
key-rule ((k, a) ∷ map) key = ground (arith, key-rule map key, text_eq_iff k key)

pub default-rule :
    (options : List (Text × FeatureOption)) (feats : List Text)
    → Passes (default_issues options feats) ↔ All (HasKey options) feats
unfolding default_issues
default-rule options [] = ground arith
default-rule options (feat ∷ feats) =
    ground (arith, default-rule options feats, key-rule options feat)

option_depends-rule :
    (name : Text) (i : ℕ) (deps : List Text)
    → Passes (option_depends name i deps) ↔ All IsDependency deps
unfolding option_depends
option_depends-rule name i [] = ground arith
option_depends-rule name i (dep ∷ deps) = ground (arith, option_depends-rule name (suc i) deps)

option_issues_rule :
    (name : Text) (opt : FeatureOption) → Passes (option_issues name opt) ↔ IsOption (name, opt)
unfolding option_issues
option_issues_rule name opt = elim (Option-cases opt.depends) [
  | inl e ↦ rw e (ground arith)
  | inr (deps, e) ↦ rw e (ground (arith, option_depends-rule name 0 deps))
]

pub options-rule :
    (options : List (Text × FeatureOption)) → Passes (options_issues options) ↔ All IsOption options
unfolding options_issues
options-rule [] = ground arith
options-rule ((name, opt) ∷ options) = ground (
  arith,
  options-rule options,
  option_issues_rule name opt,
  any-append is_error (option_issues name opt) (options_issues options),
)

file_issues-pass : (name : Text) (i : ℕ) (files : List Text) → Passes (file_issues name i files)
unfolding file_issues
file_issues-pass name i [] = refl
file_issues-pass name i (file ∷ files) = ground (arith, file_issues-pass name (suc i) files)

entry_issues_rule :
    (name : Text) (entry : OutputEntry) → Passes (entry_issues name entry) ↔ IsEntry (name, entry)
unfolding entry_issues
entry_issues_rule name entry = elim (Option-cases entry.files) [
  | inl e ↦ rw e (ground arith)
  | inr (files, e) ↦ rw e (ground (arith, file_issues-pass name 0 files))
]

pub entries-rule :
    (entries : List (Text × OutputEntry)) → Passes (entries_issues entries) ↔ All IsEntry entries
unfolding entries_issues
entries-rule [] = ground arith
entries-rule ((name, entry) ∷ entries) = ground (
  arith,
  entries-rule entries,
  entry_issues_rule name entry,
  any-append is_error (entry_issues name entry) (entries_issues entries),
)

pub patches-rule :
    (i : ℕ) (patches : List PatchItem) → Passes (patches_issues i patches) ↔ All IsPatch patches
unfolding patches_issues
patches-rule i [] = ground arith
patches-rule i (simple name ∷ patches) = ground (arith, patches-rule (suc i) patches)
patches-rule i (conditional name condition severity ∷ patches) =
    ground (arith, patches-rule (suc i) patches)
