-- ===== src/Packer/Meta/Depends.antt =====
-- The dependencies of a package are read back from the lines that `pack` writes
-- (ribosome-package/src/packer.rs).
use lysine_os.Base.{
  ℕ, false, List, [], ◌∷◌, ◌++◌, ◌≡◌, ◌≢◌, refl, sym, ap, ◌∙◌, subst, arith, Text, codes, map, All,
  All-append, append_assoc, append-nil, Solid, Solid-reverse_append, trim-Solid, trim-space_before,
  is_empty-Solid, Lacks, is_whitespace, is_empty, trim, strip_prefix, ◌==◌,
}
use mathlib.Core.List.{reverse, reverse-append}
use lysine_os.Base.Lines.{lines, unlines, IsLine, lines-unlines, strip_cr}
use lysine_os.Packer.Pack.{PackageMeta, depends_lines, depends_content}
use lysine_os.Packer.Meta.{ProtMeta, push_dep, read_line, read_lines}

-- A dependency that is one line, with no white space at its ends.
pub record IsDep (dep : Text) : Type 0 where
  pub starts : Solid dep
  pub ends : Solid (reverse dep)
  pub one_line : Lacks b'\n' dep

Solid-prefix : (s t : Text) → s ≢ [] → Solid (s ++ t) → Solid s
Solid-prefix [] t n h = absurd (n refl)
Solid-prefix (c ∷ s) t n h = h

snoc-ne-nil : (s : Text) (c : ℕ) → s ++ c ∷ [] ≢ []
snoc-ne-nil [] c = cc
snoc-ne-nil (d ∷ s) c = cc

reverse-ne-nil : (c : ℕ) (s : Text) → reverse (c ∷ s) ≢ []
reverse-ne-nil c s e = snoc-ne-nil (reverse s) c (sym (reverse-append (c ∷ []) s) ∙ e)

strip_cr-Solid : (s : Text) → Solid (reverse s) → strip_cr s ≡ s
unfolding strip_cr is_whitespace
strip_cr-Solid [] h = refl
strip_cr-Solid (c ∷ []) h = ground (arith, h)
strip_cr-Solid (c ∷ d ∷ s) h =
    ap (λ r. c ∷ r)
      (strip_cr-Solid (d ∷ s) (
        Solid-prefix (reverse (d ∷ s)) (c ∷ []) (reverse-ne-nil d s)
          (subst Solid (reverse-append (c ∷ []) (d ∷ s)) h)))

abbrev tagged : Text → List Text → List Text
tagged tag deps = map (λ d. tag ++ d) deps

depends_lines-unlines :
    (tag : Text) (deps : List Text) (rest : List Text)
    → depends_lines tag deps ++ unlines rest ≡ unlines (tagged tag deps ++ rest)
unfolding depends_lines unlines
depends_lines-unlines tag [] rest = refl
depends_lines-unlines tag (d ∷ deps) rest =
    append_assoc (tag ++ d) (b'\n' ∷ depends_lines tag deps) (unlines rest)
    ∙ ap (λ r. (tag ++ d) ++ b'\n' ∷ r) (depends_lines-unlines tag deps rest)

tagged-IsLine :
    (tag : Text)
    → Lacks b'\n' tag
    → (deps : List Text) → All IsDep deps
    → All IsLine (tagged tag deps)
tagged-IsLine tag plain [] h = tt
tagged-IsLine tag plain (d ∷ deps) (dep, h) = (
  (
    All-append (λ c. (c == b'\n') ≡ false) tag d plain dep.one_line,
    strip_cr-Solid (tag ++ d) (Solid-reverse_append tag d dep.ends),
  ),
  tagged-IsLine tag plain deps h,
)

push_dep-IsDep : (deps : List Text) (d : Text) → IsDep d → push_dep deps (b' ' ∷ d) ≡ deps ++ d ∷ []
unfolding push_dep
push_dep-IsDep deps d h =
    rw (trim-space_before d h.starts h.ends, push_dep, is_empty-Solid d h.starts) refl

read_line-build :
    (meta : ProtMeta) (d : Text)
    → IsDep d
    → read_line meta (codes "build: " ++ d) ≡ record {
      depends_runtime = meta.depends_runtime;
      depends_build = meta.depends_build ++ d ∷ [];
      mrna_yaml = meta.mrna_yaml;
    }
unfolding read_line strip_prefix is_empty is_whitespace
read_line-build meta d h =
    let same : trim (codes "build: " ++ d) ≡ codes "build: " ++ d =
      trim-Solid (codes "build: " ++ d) refl (Solid-reverse_append (codes "build: ") d h.ends) in
    rw (same, read_line, same, push_dep-IsDep meta.depends_build d h) refl

read_line-runtime :
    (meta : ProtMeta) (d : Text)
    → IsDep d
    → read_line meta (codes "runtime: " ++ d) ≡ record {
      depends_runtime = meta.depends_runtime ++ d ∷ [];
      depends_build = meta.depends_build;
      mrna_yaml = meta.mrna_yaml;
    }
unfolding read_line strip_prefix is_empty is_whitespace
read_line-runtime meta d h =
    rw
      (
        trim-Solid (codes "runtime: " ++ d) refl
            (Solid-reverse_append (codes "runtime: ") d h.ends),
        read_line,
        push_dep-IsDep meta.depends_runtime d h,
      )
      refl

read_lines-build :
    (meta : ProtMeta) (deps rest : List Text)
    → All IsDep deps
    → read_lines meta (tagged (codes "build: ") deps ++ rest)
      ≡ read_lines
          (record {
            depends_runtime = meta.depends_runtime;
            depends_build = meta.depends_build ++ deps;
            mrna_yaml = meta.mrna_yaml;
          })
          rest
unfolding read_lines
read_lines-build meta [] rest h = rw (append-nil meta.depends_build) refl
read_lines-build meta (d ∷ deps) rest (dep, h) =
    ap (λ m. read_lines m (tagged (codes "build: ") deps ++ rest)) (read_line-build meta d dep)
    ∙ read_lines-build
        (record {
          depends_runtime = meta.depends_runtime;
          depends_build = meta.depends_build ++ d ∷ [];
          mrna_yaml = meta.mrna_yaml;
        })
        deps rest h
    ∙ rw (append_assoc meta.depends_build (d ∷ []) deps) refl

read_lines-runtime :
    (meta : ProtMeta) (deps rest : List Text)
    → All IsDep deps
    → read_lines meta (tagged (codes "runtime: ") deps ++ rest)
      ≡ read_lines
          (record {
            depends_runtime = meta.depends_runtime ++ deps;
            depends_build = meta.depends_build;
            mrna_yaml = meta.mrna_yaml;
          })
          rest
unfolding read_lines
read_lines-runtime meta [] rest h = rw (append-nil meta.depends_runtime) refl
read_lines-runtime meta (d ∷ deps) rest (dep, h) =
    ap (λ m. read_lines m (tagged (codes "runtime: ") deps ++ rest)) (read_line-runtime meta d dep)
    ∙ read_lines-runtime
        (record {
          depends_runtime = meta.depends_runtime ++ d ∷ [];
          depends_build = meta.depends_build;
          mrna_yaml = meta.mrna_yaml;
        })
        deps rest h
    ∙ rw (append_assoc meta.depends_runtime (d ∷ []) deps) refl

-- The lines of `META/depends.txt` are read back.
pub read_lines-depends_content :
    (m : ProtMeta) (meta : PackageMeta)
    → All IsDep meta.depends_build
    → All IsDep meta.depends_runtime
    → read_lines m (lines (depends_content meta)) ≡ record {
      depends_runtime = m.depends_runtime ++ meta.depends_runtime;
      depends_build = m.depends_build ++ meta.depends_build;
      mrna_yaml = m.mrna_yaml;
    }
unfolding depends_content read_lines unlines
read_lines-depends_content m meta hb hr =
    ap (read_lines m) (ap lines content ∙ lines-unlines (b ++ r) are_lines)
    ∙ ap (λ ls. read_lines m (b ++ ls)) (sym (append-nil r))
    ∙ read_lines-build m meta.depends_build (r ++ []) hb
    ∙ read_lines-runtime
        (record {
          depends_runtime = m.depends_runtime;
          depends_build = m.depends_build ++ meta.depends_build;
          mrna_yaml = m.mrna_yaml;
        })
        meta.depends_runtime [] hr
  where
    b : List Text
    b = tagged (codes "build: ") meta.depends_build

    r : List Text
    r = tagged (codes "runtime: ") meta.depends_runtime

    runtime_lines : depends_lines (codes "runtime: ") meta.depends_runtime ≡ unlines r
    runtime_lines =
        sym (append-nil (depends_lines (codes "runtime: ") meta.depends_runtime))
        ∙ depends_lines-unlines (codes "runtime: ") meta.depends_runtime []
        ∙ ap unlines (append-nil r)

    content : depends_content meta ≡ unlines (b ++ r)
    content =
        ap (λ t. depends_lines (codes "build: ") meta.depends_build ++ t) runtime_lines
        ∙ depends_lines-unlines (codes "build: ") meta.depends_build r

    are_lines : All IsLine (b ++ r)
    are_lines =
        All-append IsLine b r
          (tagged-IsLine (codes "build: ")
            (refl, (refl, (refl, (refl, (refl, (refl, (refl, tt))))))) meta.depends_build hb)
          (tagged-IsLine (codes "runtime: ")
            (refl, (refl, (refl, (refl, (refl, (refl, (refl, (refl, (refl, tt)))))))))
            meta.depends_runtime hr)
