-- ===== src/Examples/Recipes.antt =====
-- The index of the recipes at concrete inputs.
use lysine_os.Base.{
  text_lt, true, none, some, List, [], ◌∷◌, ◌≡◌, refl, inl, Text, codes, text_eq, Elem, ok,
  is_whitespace, is_empty,
}
use lysine_os.Base.Lines.{unlines, starts_with_char}
use lysine_os.Base.Maps.{map_get}
use lysine_os.Parser.Validate.{parse_mrna_file}
use lysine_os.Repository.Filename.{rsplit_once}
use lysine_os.Core.Profile.{PackageSpec}
use lysine_os.Core.Recipes.{
  MrnaEntry, MrnaIndex, WalkedFile, is_mrna, scan, resolve, load_version_lock, content, last,
  sort_versions, insert_sorted,
}
use lysine_os.Core.Recipes.Resolve.{wanted, Chosen, resolve_correct}
use lysine_os.Core.Recipes.Locks.{IsLock, put_all, print_all, load_version_lock-print}
use lysine_os.Examples.Validate.{formats, tool, reader, parsed}

abbrev file : WalkedFile
file = record {
  path = codes "/n/tool.mRNA";
  file_name = codes "tool.mRNA";
  read = ok (codes "tool");
}

abbrev spec : PackageSpec
spec = record { name = codes "my-tool"; version = none }

file_is_mrna : is_mrna (codes "tool.mRNA") ≡ true
unfolding is_mrna rsplit_once is_empty text_eq
file_is_mrna = refl

file_parsed : parse_mrna_file formats reader (ok (codes "tool")) ≡ ok tool
unfolding parse_mrna_file
file_parsed = parsed

abbrev index : MrnaIndex
index = record {
  packages = (scan formats reader (file ∷ [])).packages;
  locked = (codes "my-tool", codes "2.0") ∷ [];
}

-- The locked version does not exist.
resolve_correct_example :
    (es : List MrnaEntry) × (e : MrnaEntry) × (map_get index.packages (codes "my-tool") ≡ some es)
    × Elem (record { version = codes "1.0"; path = codes "/n/tool.mRNA" }) es
    × (resolve index spec ≡ some e)
    × Chosen (wanted index spec) es e
resolve_correct_example =
    resolve_correct formats reader (file ∷ []) ((codes "my-tool", codes "2.0") ∷ []) spec file tool
      (inl refl) file_is_mrna file_parsed refl

abbrev entries : List (Text × Text)
entries = (codes "gcc", codes "14") ∷ (codes "gcc", codes "15") ∷ []

gcc_14-IsLock : IsLock (codes "gcc", codes "14")
unfolding is_whitespace starts_with_char
gcc_14-IsLock = record {
  name_starts = refl;
  name_ends = refl;
  no_comment = refl;
  no_equals = (refl, (refl, (refl, tt)));
  name_line = (refl, (refl, (refl, tt)));
  version_starts = refl;
  version_ends = refl;
  version_line = (refl, (refl, tt));
}

gcc_15-IsLock : IsLock (codes "gcc", codes "15")
unfolding is_whitespace starts_with_char
gcc_15-IsLock = record {
  name_starts = refl;
  name_ends = refl;
  no_comment = refl;
  no_equals = (refl, (refl, (refl, tt)));
  name_line = (refl, (refl, (refl, tt)));
  version_starts = refl;
  version_ends = refl;
  version_line = (refl, (refl, tt));
}

load_version_lock-print_example :
    load_version_lock index (content (unlines (print_all entries)))
    ≡ (record { packages = index.packages; locked = put_all index.locked entries }, ok 2)
load_version_lock-print_example =
    load_version_lock-print index entries (gcc_14-IsLock, (gcc_15-IsLock, tt))

-- Version 9.0 counts as later than version 10.0.
abbrev gcc_9 : MrnaEntry
gcc_9 = record { version = codes "9.0"; path = codes "a" }

abbrev gcc_10 : MrnaEntry
gcc_10 = record { version = codes "10.0"; path = codes "b" }

latest_by_text : last (sort_versions (gcc_9 ∷ gcc_10 ∷ [])) ≡ some gcc_9
unfolding last sort_versions insert_sorted text_lt
latest_by_text = refl
