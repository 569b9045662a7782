-- ===== src/Examples/Packages.antt =====
-- Packing, publishing and unpacking at concrete inputs: the package `hello` with one file.
use lysine_os.Base.{
  ℕ, true, false, none, some, List, [], ◌∷◌, ◌≡◌, ◌≢◌, refl, arith, Text, codes, ok, err,
  is_whitespace, ◌⊎◌, Bool, leb, ◌&&◌, map, Result,
}
use lysine_os.Packer.{TarEntry, Archives, Bytes}
use lysine_os.Packer.Pack.{
  PackageMeta, DestEntry, regular, OutputFiles, PackAnswers, PackResult, count_files, pack_entries,
  pack, manifest_lines, file_entries, is_file, is_regular,
}
use lysine_os.Packer.Pack.Atomic.{IsComplete, pack_atomic}
use lysine_os.Packer.Meta.{read_meta}
use lysine_os.Packer.Meta.Depends.{IsDep}
use lysine_os.Packer.Meta.RoundTrip.{read_meta-pack_entries}
use lysine_os.Repository.Filename.{
  starts_numeric, parse_prot_filename, package_stem, package_filename,
}
use lysine_os.Repository.Filename.RoundTrip.{splits, parse_prot_filename-package_stem}

abbrev pub meta : PackageMeta
meta = record {
  name = codes "hello-2";
  version = codes "1.0";
  release = 3;
  arch = codes "x86_64";
  mrna_yaml = codes "name: hello-2";
  depends_build = codes "gcc" ∷ [];
  depends_runtime = codes "lib >= 1.0" ∷ [];
  post_install = some (codes "ldconfig");
  post_remove = none;
  build_duration = codes "5.0";
}

abbrev pub dest : List DestEntry
dest =
    record {
      relative = codes "bin" ∷ codes "hello" ∷ [];
      kind = regular;
      mode = 0o755;
      content = some (1 ∷ []);
    }
    ∷ []

-- Texts are their own bytes, and every archive is that of the entries given.
abbrev pub archives : List TarEntry → Archives
archives es = record {
  as_bytes = λ t. t;
  from_utf8 = λ b. some b;
  write = λ _. 7 ∷ [];
  entries = λ _. ok (map ok es);
}

abbrev pub hash : Bytes → Text
hash b = codes "ab"

abbrev pub entries : List TarEntry
entries = elim (pack_entries (archives []) hash dest meta) [ ok es ↦ es | err e ↦ [] ]

pub packed : pack_entries (archives entries) hash dest meta ≡ ok entries
unfolding pack_entries manifest_lines file_entries is_file is_regular
packed = refl

pub gcc-IsDep : IsDep (codes "gcc")
unfolding is_whitespace
gcc-IsDep = record { starts = refl; ends = refl; one_line = (refl, (refl, (refl, tt))) }

pub lib-IsDep : IsDep (codes "lib >= 1.0")
unfolding is_whitespace
lib-IsDep = record {
  starts = refl;
  ends = refl;
  one_line = (refl, (refl, (refl, (refl, (refl, (refl, (refl, (refl, (refl, (refl, tt))))))))));
}

read_meta-pack_entries_example :
    read_meta (archives entries) (some (7 ∷ []))
    ≡ ok (record {
      depends_runtime = codes "lib >= 1.0" ∷ [];
      depends_build = codes "gcc" ∷ [];
      mrna_yaml = some (codes "name: hello-2");
    })
read_meta-pack_entries_example =
    read_meta-pack_entries (archives entries) hash dest meta entries packed refl (λ t. refl)
      (gcc-IsDep, tt) (lib-IsDep, tt)

abbrev answers : PackAnswers
answers = record {
  creates = true;
  torn = none;
  writes = true;
  renames = true;
  removes = true;
  hash_contents = hash;
  hash_file = λ b. ok (codes "sha256:ab");
  metadata_error = none;
}

abbrev before : OutputFiles
before = record { tmp = none; final = none }

pack_atomic_example :
    let after = (pack (archives entries) answers dest meta before).0 in
    ((after.final ≡ none) ⊎ IsComplete (archives entries) answers dest meta after)
    × ((r : PackResult)
        → (pack (archives entries) answers dest meta before).1 ≡ ok r
        → (es : List TarEntry) × (pack_entries (archives entries) hash dest meta ≡ ok es)
          × (after.final ≡ some (7 ∷ []))
          × (after.tmp ≡ none)
          × (r.path ≡ package_filename meta.name meta.version meta.release meta.arch)
          × (◌≡◌ {A = Result Text Text} (ok (codes "sha256:ab")) (ok r.sha256))
          × (r.size_bytes ≡ 1)
          × (r.file_count ≡ count_files dest))
pack_atomic_example = pack_atomic (archives entries) answers dest meta before

-- ASCII digits.
abbrev pub is_numeric : ℕ → Bool
is_numeric c = leb b'0' c && leb c b'9'

pub numeric : starts_numeric is_numeric (codes "1.0") ≡ true
unfolding starts_numeric
numeric = refl

pub single : splits is_numeric (codes "1.0") ≡ false
unfolding splits starts_numeric
single = refl

pub named : codes "hello-2" ≢ []
named = cc

parse_prot_filename-package_stem_example :
    parse_prot_filename is_numeric (package_stem (codes "hello-2") (codes "1.0") 3 (codes "x86_64"))
    ≡ record { name = codes "hello-2"; version = codes "1.0"; release = 3; arch = codes "x86_64" }
parse_prot_filename-package_stem_example =
    parse_prot_filename-package_stem is_numeric (codes "hello-2") (codes "1.0") 3 (codes "x86_64")
      named numeric single (omega arith) (refl, (refl, (refl, (refl, (refl, (refl, tt))))))
