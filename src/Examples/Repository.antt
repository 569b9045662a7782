-- ===== src/Examples/Repository.antt =====
-- The index of a repository at concrete inputs.
use lysine_os.Repository.Index.Search.{Holds, Elem-search}
use lysine_os.Base.{
  ◌⊎◌, true, ◌||◌, ◌&&◌, some, [], ◌≡◌, refl, ◌↔◌, Text, text_eq, text_lt, codes, ok, Elem,
}
use lysine_os.Parser.Version.{
  Version, parse, version_lt, version_eq, cmp, split_suffix, parse_core, parse_component,
  next_or_zero, join_rest,
}
use lysine_os.Repository.Index.{
  IndexEntry, lookup, insert, is_some, RepositoryIndex, should_replace, should_insert,
  is_lexically_newer, add_entry, find, list_all, search,
}
use lysine_os.Repository.Index.Laws.{IsIndexed}
use lysine_os.Repository.Index.Operations.{empty-IsIndexed, add_entry-IsIndexed, Elem-list_all}

abbrev entry : Text → Text → IndexEntry
entry name version = record {
  name = name;
  version = version;
  release = 1;
  description = codes "a package";
  license = codes "MIT";
  arch = codes "x86_64";
  category = codes "core";
  filename = codes "package.prot";
  sha256 = codes "00";
  depends = record { runtime = []; build = [] };
  provides = [];
  conflicts = [];
  installed_size = 1;
  build_date = codes "today";
}

abbrev bash : Text
bash = codes "bash"

abbrev zlib : Text
zlib = codes "zlib"

abbrev old_bash : IndexEntry
old_bash = entry bash (codes "10.0")

abbrev new_bash : IndexEntry
new_bash = entry bash (codes "11.0")

abbrev nothing : RepositoryIndex
nothing = record { entries = []; order = [] }

abbrev one : RepositoryIndex
one = add_entry nothing old_bash

abbrev two : RepositoryIndex
two = add_entry one (entry zlib (codes "1.3"))

one-IsIndexed : IsIndexed one
one-IsIndexed = add_entry-IsIndexed nothing old_bash empty-IsIndexed

add_entry-IsIndexed_example : IsIndexed two
add_entry-IsIndexed_example = add_entry-IsIndexed one (entry zlib (codes "1.3")) one-IsIndexed

found : find one bash ≡ some old_bash
unfolding find add_entry should_insert lookup insert is_some text_eq
found = refl

abbrev eleven : Version
eleven = record { major = 11; minor = 0; patch = 0; rest = [] }

abbrev ten : Version
ten = record { major = 10; minor = 0; patch = 0; rest = [] }

parse-eleven : parse (codes "11.0") ≡ ok eleven
unfolding parse split_suffix parse_core parse_component next_or_zero join_rest
parse-eleven = refl

parse-ten : parse (codes "10.0") ≡ ok ten
unfolding parse split_suffix parse_core parse_component next_or_zero join_rest
parse-ten = refl

later : (version_lt ten eleven || version_eq eleven ten && true) ≡ true
unfolding version_lt version_eq cmp
later = refl

Elem-list_all_example : Elem old_bash (list_all one) ↔ (find one bash ≡ some old_bash)
Elem-list_all_example = Elem-list_all one one-IsIndexed old_bash

-- Texts without capitals.
abbrev same : Text → Text
same t = t

Elem-search_example : Elem old_bash (search same one (codes "as")) ↔ (
    (find one bash ≡ some old_bash)
    × (Holds bash (codes "as") ⊎ Holds old_bash.description (codes "as")))
Elem-search_example = Elem-search same one (codes "as") one-IsIndexed old_bash

-- Version 9.0 replaces version 10.0.
downgrade : find (add_entry one (entry bash (codes "9.0"))) bash ≡ some (entry bash (codes "9.0"))
unfolding find add_entry should_insert should_replace is_lexically_newer lookup insert is_some
    text_eq text_lt version_lt version_eq cmp parse split_suffix parse_core parse_component
    next_or_zero join_rest
downgrade = refl
