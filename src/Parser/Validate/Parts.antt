-- ===== src/Parser/Validate/Parts.antt =====
-- ribosome/crates/ribosome-parser/src/validate.rs: the checks of the build steps, dependencies,
-- features, outputs and patches.
use lysine_os.Base.{
  ℕ, suc, Bool, true, false, ◌||◌, not, Option, none, some, List, [], ◌∷◌, ◌++◌, Text, codes,
  text_eq, ok, err, if◌then◌else◌, ◌==◌,
}
use lysine_os.Parser.Model.{
  MrnaFile, FeatureOption, OutputEntry, PatchItem, simple, conditional, all_dependency_strings,
}
use lysine_os.Parser.Issue.{ValidationIssue, error, warning}
use lysine_os.Parser.Dependency.{parse_dependency_spec}
use lysine_os.Parser.Validate.Format.{is_blank, indexed, unless}

unfoldable pub validate_build : MrnaFile → List ValidationIssue
validate_build mrna = elim mrna.build [
  | none ↦
      error (codes "build")
        (codes "build block is required (must include at least an install step)")
      ∷ []
  | some build ↦ elim build.install [
    | none ↦
        error (codes "build.install") (codes "install step is required when build block is present")
        ∷ []
    | some s ↦
        unless (not (is_blank s))
          (error (codes "build.install") (codes "install step must not be empty"))
  ]
]

-- One pair of `all_dependency_strings`.
unfoldable pub dependency_issue : Text → Text → Text → List ValidationIssue
dependency_issue name section dep_str = elim (parse_dependency_spec dep_str) [
  | ok spec ↦
      unless (not (text_eq spec.name name))
        (error section (codes "package must not depend on itself: " ++ name))
  | err e ↦ error section e ∷ []
]

unfoldable pub dependency_issues : Text → List (Text × Text) → List ValidationIssue
unfolding dependency_issue
dependency_issues name [] = []
dependency_issues name ((section, dep_str) ∷ deps) =
    dependency_issue name section dep_str ++ dependency_issues name deps

unfoldable pub validate_depends : MrnaFile → List ValidationIssue
unfolding dependency_issues
validate_depends mrna = elim mrna.depends [
  | none ↦ []
  | some depends ↦ dependency_issues mrna.name (all_dependency_strings depends)
]

-- `map.contains_key(key)`
unfoldable pub contains_key : {A : Type 0} → List (Text × A) → Text → Bool
contains_key [] key = false
contains_key ((k, a) ∷ map) key = text_eq k key || contains_key map key

-- The loop over the default features.
unfoldable pub default_issues : List (Text × FeatureOption) → List Text → List ValidationIssue
unfolding contains_key
default_issues options [] = []
default_issues options (feat ∷ feats) =
    unless (contains_key options feat) (
      error (codes "features.default")
        (codes "default feature '" ++ (feat ++ codes "' is not defined in features.options")))
    ++ default_issues options feats

-- The loop over the dependencies of one option, from index `i` on.
unfoldable pub option_depends : Text → ℕ → List Text → List ValidationIssue
unfolding indexed
option_depends name i [] = []
option_depends name i (dep_str ∷ deps) =
    elim (parse_dependency_spec dep_str) [
      | ok spec ↦ []
      | err e ↦ error (indexed (codes "features.options." ++ (name ++ codes ".depends")) i) e ∷ []
    ]
    ++ option_depends name (suc i) deps

-- One round of the loop over the options.
unfoldable pub option_issues : Text → FeatureOption → List ValidationIssue
unfolding option_depends
option_issues name opt =
    unless (not (is_blank opt.description)) (
      error (codes "features.options." ++ (name ++ codes ".description"))
        (codes "description must not be empty"))
    ++ elim opt.depends [ none ↦ [] | some deps ↦ option_depends name 0 deps ]

unfoldable pub options_issues : List (Text × FeatureOption) → List ValidationIssue
unfolding option_issues
options_issues [] = []
options_issues ((name, opt) ∷ options) = option_issues name opt ++ options_issues options

unfoldable pub validate_features : MrnaFile → List ValidationIssue
unfolding default_issues options_issues
validate_features mrna = elim mrna.features [
  | none ↦ []
  | some features ↦
      default_issues features.options features.default ++ options_issues features.options
]

-- `pattern.ends_with('\\')`
unfoldable pub ends_with_escape : Text → Bool
ends_with_escape [] = false
ends_with_escape (c ∷ []) = c == b'\\'
ends_with_escape (c ∷ d ∷ s) = ends_with_escape (d ∷ s)

-- The count of the stars has no effect.
unfoldable pub validate_glob_pattern : Text → Option Text
unfolding ends_with_escape
validate_glob_pattern pattern' =
    if is_blank pattern'
    then some (codes "glob pattern must not be empty")
    else if ends_with_escape pattern'
    then some (codes "glob pattern ends with escape")
    else none

unfoldable pub file_issues : Text → ℕ → List Text → List ValidationIssue
unfolding validate_glob_pattern indexed
file_issues name i [] = []
file_issues name i (file ∷ files) =
    elim (validate_glob_pattern file) [
      | none ↦ []
      | some msg ↦ warning (indexed (codes "outputs." ++ (name ++ codes ".files")) i) msg ∷ []
    ]
    ++ file_issues name (suc i) files

unfoldable pub entry_issues : Text → OutputEntry → List ValidationIssue
unfolding file_issues
entry_issues name entry =
    unless (not (is_blank entry.description)) (
      error (codes "outputs." ++ (name ++ codes ".description"))
        (codes "description must not be empty"))
    ++ elim entry.files [ none ↦ [] | some files ↦ file_issues name 0 files ]

unfoldable pub entries_issues : List (Text × OutputEntry) → List ValidationIssue
unfolding entry_issues
entries_issues [] = []
entries_issues ((name, entry) ∷ entries) = entry_issues name entry ++ entries_issues entries

unfoldable pub validate_outputs : MrnaFile → List ValidationIssue
unfolding entries_issues contains_key
validate_outputs mrna = elim mrna.outputs [
  | none ↦ []
  | some outputs ↦
      unless (contains_key outputs.entries (codes "main"))
        (warning (codes "outputs") (codes "outputs should include a 'main' entry"))
      ++ entries_issues outputs.entries
]

-- `condition.is_none_or(|c| c.trim().is_empty())`
unfoldable pub lacks_condition : Option Text → Bool
lacks_condition none = true
lacks_condition (some c) = is_blank c

unfoldable pub patch_issues : ℕ → PatchItem → List ValidationIssue
unfolding lacks_condition indexed
patch_issues i (simple name) =
    unless (not (is_blank name))
      (error (indexed (codes "patches") i) (codes "patch file name must not be empty"))
patch_issues i (conditional name condition severity) =
    unless (not (is_blank name))
      (error (indexed (codes "patches") i) (codes "patch file name must not be empty"))
    ++ unless (not (lacks_condition condition)) (
        warning (indexed (codes "patches") i ++ codes ".condition")
          (codes "conditional patch should include a non-empty condition"))

unfoldable pub patches_issues : ℕ → List PatchItem → List ValidationIssue
unfolding patch_issues
patches_issues i [] = []
patches_issues i (patch ∷ patches) = patch_issues i patch ++ patches_issues (suc i) patches

unfoldable pub validate_patches : MrnaFile → List ValidationIssue
unfolding patches_issues
validate_patches mrna = elim mrna.patches [ none ↦ [] | some patches ↦ patches_issues 0 patches ]
