-- ===== src/Core/Recipes/Locks.antt =====
-- The lock file is read as it is documented
-- (`load_version_lock` of ribosome-core/src/mrna_index.rs).
use lysine_os.Base.{
  ℕ, suc, ◌+◌, false, some, List, [], ◌∷◌, ◌++◌, ◌≡◌, refl, sym, ap, ◌∙◌, arith, Text, codes,
  is_empty, trim, split_once, All, All-append, Lacks, Solid, Solid-append, Solid-reverse_append,
  trim-Solid, trim-space_before, trim-space_after, is_empty-Solid, split_once-append, is_whitespace,
  ◌==◌, append_assoc, ok, length,
}
use mathlib.Core.List.{reverse, reverse-append, reverse-reverse}
use lysine_os.Base.Lines.{unlines, IsLine, lines-unlines, strip_cr, strip_cr-last, starts_with_char}
use lysine_os.Base.Maps.{map_put}
use lysine_os.Core.Recipes.{
  MrnaIndex, trim_quotes_start, trim_quotes, lock_entry, load_lock_lines, load_version_lock,
  content,
}

-- A line of the file: `name = "version"`.
unfoldable pub print_lock : Text × Text → Text
print_lock (name, version) = name ++ (codes " = \"" ++ (version ++ b'"' ∷ []))

-- The text is not empty and does not begin with a quotation mark.
abbrev pub Unquoted : Text → Type 0
Unquoted [] = ⊥
Unquoted (c ∷ s) = (c == b'"') ≡ false

-- A name and a version that can stand on a line.
pub record IsLock (entry : Text × Text) : Type 0 where
  pub name_starts : Solid entry.0
  pub name_ends : Solid (reverse entry.0)
  pub no_comment : starts_with_char b'#' entry.0 ≡ false
  pub no_equals : Lacks b'=' entry.0
  pub name_line : Lacks b'\n' entry.0
  pub version_starts : Unquoted entry.1
  pub version_ends : Unquoted (reverse entry.1)
  pub version_line : Lacks b'\n' entry.1

trim_quotes_start-Unquoted : (s t : Text) → Unquoted s → trim_quotes_start (s ++ t) ≡ s ++ t
unfolding trim_quotes_start
trim_quotes_start-Unquoted [] t h = absurd h
trim_quotes_start-Unquoted (c ∷ s) t h = ground (arith, h)

trim_quotes_start-same : (s : Text) → Unquoted s → trim_quotes_start s ≡ s
unfolding trim_quotes_start
trim_quotes_start-same [] h = absurd h
trim_quotes_start-same (c ∷ s) h = ground (arith, h)

trim_quotes-quoted :
    (v : Text) → Unquoted v → Unquoted (reverse v) → trim_quotes (b'"' ∷ (v ++ b'"' ∷ [])) ≡ v
unfolding trim_quotes
trim_quotes-quoted v h k =
    let inner : trim_quotes_start (b'"' ∷ (v ++ b'"' ∷ [])) ≡ v ++ b'"' ∷ [] =
      unfold trim_quotes_start in trim_quotes_start-Unquoted v (b'"' ∷ []) h in
    let outer : trim_quotes_start (b'"' ∷ reverse v) ≡ reverse v =
      unfold trim_quotes_start in trim_quotes_start-same (reverse v) k in
    rw (inner, reverse-append v (b'"' ∷ []), outer) (reverse-reverse v)

starts_with_char-append :
    (a : ℕ) (s t : Text) → Solid s → starts_with_char a (s ++ t) ≡ starts_with_char a s
unfolding starts_with_char
starts_with_char-append a [] t h = absurd h
starts_with_char-append a (c ∷ s) t h = refl

is_empty-Unquoted : (s : Text) → Unquoted s → is_empty s ≡ false
unfolding is_empty
is_empty-Unquoted [] h = absurd h
is_empty-Unquoted (c ∷ s) h = refl

lock_entry-print :
    (name version : Text)
    → IsLock (name, version)
    → lock_entry (print_lock (name, version)) ≡ some (name, version)
unfolding lock_entry print_lock is_whitespace
lock_entry-print name version h =
    let quoted : Text = b'"' ∷ (version ++ b'"' ∷ []) in
    let ends : Solid (reverse quoted) = Solid-reverse_append (b'"' ∷ version) (b'"' ∷ []) refl in
    let line : Text = name ++ b' ' ∷ b'=' ∷ b' ' ∷ quoted in
    let whole : trim line ≡ line =
      trim-Solid line (Solid-append name (b' ' ∷ b'=' ∷ b' ' ∷ quoted) h.name_starts) (
        Solid-reverse_append name (b' ' ∷ b'=' ∷ b' ' ∷ quoted)
          (Solid-reverse_append (b' ' ∷ b'=' ∷ b' ' ∷ []) quoted ends)) in
    let comment : starts_with_char b'#' line ≡ false =
      starts_with_char-append b'#' name (b' ' ∷ b'=' ∷ b' ' ∷ quoted) h.name_starts
      ∙ h.no_comment in
    let filled : is_empty line ≡ false =
      is_empty-Solid line (Solid-append name (b' ' ∷ b'=' ∷ b' ' ∷ quoted) h.name_starts) in
    let halves : split_once b'=' line ≡ some (name ++ b' ' ∷ [], b' ' ∷ quoted) =
      ap (split_once b'=') (sym (append_assoc name (b' ' ∷ []) (b'=' ∷ b' ' ∷ quoted)))
      ∙ split_once-append b'=' (name ++ b' ' ∷ []) (b' ' ∷ quoted)
          (All-append (λ c. (c == b'=') ≡ false) name (b' ' ∷ []) h.no_equals (refl, tt)) in
    rw
      (
        whole,
        lock_entry,
        filled,
        comment,
        halves,
        trim-space_after name h.name_starts h.name_ends,
        trim-space_before quoted refl ends,
        trim_quotes-quoted version h.version_starts h.version_ends,
        is_empty-Solid name h.name_starts,
        is_empty-Unquoted version h.version_starts,
      )
      refl

print_lock-IsLine : (entry : Text × Text) → IsLock entry → IsLine (print_lock entry)
unfolding print_lock
print_lock-IsLine (name, version) h = (
  All-append (λ c. (c == b'\n') ≡ false) name (codes " = \"" ++ (version ++ b'"' ∷ [])) h.name_line
      (
        refl,
        (
          refl,
          (
            refl,
            (
              refl,
              All-append (λ c. (c == b'\n') ≡ false) version (b'"' ∷ []) h.version_line (refl, tt),
            ),
          ),
        ),
      ),
  ap strip_cr (sym shape) ∙ strip_cr-last (name ++ (codes " = \"" ++ version)) b'"' refl ∙ shape,
)
  where
    shape :
        (name ++ (codes " = \"" ++ version)) ++ b'"' ∷ []
        ≡ name ++ (codes " = \"" ++ (version ++ b'"' ∷ []))
    shape = append_assoc name (codes " = \"" ++ version) (b'"' ∷ [])

-- The entries, put one after the other.
unfoldable pub put_all : List (Text × Text) → List (Text × Text) → List (Text × Text)
put_all locked [] = locked
put_all locked ((name, version) ∷ entries) = put_all (map_put locked name version) entries

unfoldable pub print_all : List (Text × Text) → List Text
print_all [] = []
print_all (e ∷ es) = print_lock e ∷ print_all es

print_all-IsLine :
    (entries : List (Text × Text)) → All IsLock entries → All IsLine (print_all entries)
unfolding print_all
print_all-IsLine [] h = tt
print_all-IsLine (e ∷ es) (l, h) = (print_lock-IsLine e l, print_all-IsLine es h)

load_lock_lines-print :
    (locked : List (Text × Text)) (count : ℕ) (entries : List (Text × Text))
    → All IsLock entries
    → load_lock_lines locked count (print_all entries)
      ≡ (put_all locked entries, count + length entries)
unfolding load_lock_lines put_all print_all
load_lock_lines-print locked count [] h = ground arith
load_lock_lines-print locked count ((name, version) ∷ es) (l, h) =
    let next : suc count + length es ≡ count + suc (length es) = omega arith in
    rw (lock_entry-print name version l, load_lock_lines)
      (load_lock_lines-print (map_put locked name version) (suc count) es h
        ∙ ap (λ n. (put_all (map_put locked name version) es, n)) next)

-- A lock file whose lines are `name = "version"`, for names and versions that can stand on a line,
-- is read to these entries, of which a later one replaces an earlier one of the name, and the
-- number of its lines is returned.
pub load_version_lock-print :
    (index : MrnaIndex) (entries : List (Text × Text))
    → All IsLock entries
    → load_version_lock index (content (unlines (print_all entries))) ≡ (
      record { packages = index.packages; locked = put_all index.locked entries },
      ok (length entries),
    )
unfolding load_version_lock
load_version_lock-print index entries h =
    let counted : 0 + length entries ≡ length entries = omega arith in
    rw
      (
        lines-unlines (print_all entries) (print_all-IsLine entries h),
        load_lock_lines-print index.locked 0 entries h,
        counted,
      )
      refl
