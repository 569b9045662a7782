-- ===== src/Parser/Model.antt =====
-- ribosome/crates/ribosome-parser/src/model.rs: a recipe as it is read from a file. A hash map is
-- the list of its entries.
use lysine_os.Base.{ℕ, Option, none, some, List, [], ◌++◌, map, Text, codes}

pub record Depends : Type 0 where
  pub build : Option (List Text)
  pub runtime : Option (List Text)
  pub check : Option (List Text)

pub record Source : Type 0 where
  pub url : Text
  pub hash : Option Text
  pub signature : Option Text
  pub key_id : Option Text

pub record Build : Type 0 where
  pub prepare : Option Text
  pub compile : Option Text
  pub check : Option Text
  pub install : Option Text

pub record FeatureOption : Type 0 where
  pub description : Text
  pub depends : Option (List Text)
  pub cflags : Option Text

pub record Features : Type 0 where
  pub default : List Text
  pub options : List (Text × FeatureOption)

pub record OutputEntry : Type 0 where
  pub description : Text
  pub files : Option (List Text)

pub record Outputs : Type 0 where
  pub entries : List (Text × OutputEntry)

pub data PatchItem : Type 0 where
  simple : Text → PatchItem
  -- The name, the condition and the severity.
  conditional : Text → Option Text → Option Text → PatchItem

pub record MrnaFile : Type 0 where
  pub api_version : ℕ
  pub name : Text
  pub version : Text
  pub release : ℕ
  pub description : Text
  pub homepage : Option Text
  pub license : Text
  pub maintainer : Option Text
  pub tags : Option (List Text)
  pub depends : Option Depends
  pub features : Option Features
  pub sources : List Source
  pub patches : Option (List PatchItem)
  pub build : Option Build
  pub post_install : Option Text
  pub post_remove : Option Text
  pub outputs : Option Outputs

-- One section of `all_dependency_strings`.
unfoldable pub section_strings : Text → Option (List Text) → List (Text × Text)
section_strings section none = []
section_strings section (some deps) = map (λ s. (section, s)) deps

unfoldable pub all_dependency_strings : Depends → List (Text × Text)
unfolding section_strings
all_dependency_strings d =
    section_strings (codes "depends.build") d.build
    ++ (section_strings (codes "depends.runtime") d.runtime
        ++ section_strings (codes "depends.check") d.check)
