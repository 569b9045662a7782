-- ===== src/Store/Refs.antt =====
-- ribosome/crates/ribosome-store/src/refs.rs: named references, which are the roots of the
-- collector. A namespace and a name are single components of a path.
pub mod Laws
use lysine_os.Base.{
  is_empty, all, ◌==◌, ℕ, Bool, true, false, ◌&&◌, Option, none, some, List, [], ◌∷◌, ◌++◌, ◌≡◌,
  refl, Text, codes, text_eq, text_lt, Result, ok, err, ◌>>=◌, if◌then◌else◌, any, retain, not,
  trim,
}
use lysine_os.Base.Decimal.{format_nat}
use lysine_os.Store.Digest.{Sha256Digest, Fault, io, panic, hex}
use lysine_os.Store.Digest
use lysine_os.Store.Vacuole.{VacuoleStore, RefFile}

unfoldable pub at_ref : Text → Text → RefFile → Bool
at_ref namespace name r = text_eq r.namespace namespace && text_eq r.name name

unfoldable pub read_ref : List RefFile → Text → Text → Option Text
unfolding at_ref
read_ref [] namespace name = none
read_ref (r ∷ rs) namespace name =
    if at_ref namespace name r then some r.content else read_ref rs namespace name

-- A single component of a path, which `join` puts directly below a directory.
unfoldable pub is_component : Text → Bool
is_component t =
    not (is_empty t)
    && not (text_eq t (codes "."))
    && not (text_eq t (codes ".."))
    && all (λ c. not (c == b'/')) t

-- How `create_dir_all` and `std::fs::write` go: the content is written; or they fail and the file is
-- as it was, or has the content that is given.
pub data RefWrite : Type 0 where
  ref_written : RefWrite
  ref_unchanged : Text → RefWrite
  ref_torn : Text → Text → RefWrite

-- The file is made, or its content is replaced.
unfoldable pub write_ref : Text → Text → Text → VacuoleStore → VacuoleStore
unfolding at_ref retain
write_ref namespace name content s = record s {
  refs =
      retain (λ r. not (at_ref namespace name r)) s.refs
      ++ record { namespace = namespace; name = name; content = content } ∷ [];
}

-- `none` where the path of the reference is not that of a file directly below the directory of its
-- namespace: `join` then leads elsewhere, where `list_refs` and the collector do not read.
unfoldable pub add_ref :
    RefWrite
    → VacuoleStore
    → Text
    → Text
    → Sha256Digest
    → Option (VacuoleStore × Result Fault (Unit {0}))
unfolding is_component write_ref hex
add_ref answer s namespace name digest =
    if is_component namespace && is_component name
    then elim answer [
      | ref_written ↦ some (write_ref namespace name (hex digest) s, ok tt)
      | ref_unchanged e ↦ some (s, err (io e))
      | ref_torn left e ↦ some (write_ref namespace name left s, err (io e))
    ]
    else none

unfoldable pub resolve_ref : VacuoleStore → Text → Text → Result Fault (Option Sha256Digest)
unfolding read_ref
resolve_ref s namespace name = elim (read_ref s.refs namespace name) [
  | none ↦ ok none
  | some content ↦ (Digest.parse (trim content) >>= λ d. ok (some d))
]

unfoldable pub has_ref : VacuoleStore → Text → Text → Bool
unfolding at_ref
has_ref s namespace name = any (at_ref namespace name) s.refs

-- The answer says whether the system removes the file, if it is there.
unfoldable pub remove_ref :
    Bool → VacuoleStore → Text → Text → VacuoleStore × Result Fault (Unit {0})
unfolding at_ref has_ref retain
remove_ref removes s namespace name =
    if has_ref s namespace name && not removes
    then (s, err (io (codes "cannot remove")))
    else (record s { refs = retain (λ r. not (at_ref namespace name r)) s.refs }, ok tt)

-- The loop of `list_refs`, before the sort: a malformed digest is left out, and a panic goes on up.
unfoldable pub collect_refs : Text → List RefFile → Result Fault (List (Text × Sha256Digest))
collect_refs namespace [] = ok []
collect_refs namespace (r ∷ rs) =
    let rest = collect_refs namespace rs in
    if text_eq r.namespace namespace
    then elim (Digest.parse (trim r.content)) [
      | ok d ↦ (rest >>= λ found. ok ((r.name, d) ∷ found))
      | err panic ↦ err panic
      | err e ↦ rest
    ]
    else rest

-- `sort_by` on the names, which is stable.
unfoldable pub insert_by_name :
    Text × Sha256Digest → List (Text × Sha256Digest) → List (Text × Sha256Digest)
insert_by_name x [] = x ∷ []
insert_by_name x (y ∷ ys) = if text_lt y.0 x.0 then y ∷ insert_by_name x ys else x ∷ y ∷ ys

unfoldable pub sort_by_name : List (Text × Sha256Digest) → List (Text × Sha256Digest)
unfolding insert_by_name
sort_by_name [] = []
sort_by_name (x ∷ xs) = insert_by_name x (sort_by_name xs)

unfoldable pub list_refs : VacuoleStore → Text → Result Fault (List (Text × Sha256Digest))
unfolding collect_refs sort_by_name
list_refs s namespace = do found ← collect_refs namespace s.refs; ok (sort_by_name found)

-- `format!("{name}-{version}-{release}-{arch}")`
unfoldable pub package_ref_name : Text → Text → ℕ → Text → Text
unfolding format_nat
package_ref_name name version release arch =
    name ++ (codes "-" ++ (version ++ (codes "-" ++ (format_nat release ++ (codes "-" ++ arch)))))

unfoldable pub add_package_ref :
    RefWrite
    → VacuoleStore
    → Text
    → Text
    → ℕ
    → Text
    → Sha256Digest
    → Option (VacuoleStore × Result Fault (Unit {0}))
unfolding add_ref package_ref_name
add_package_ref answer s name version release arch digest =
    add_ref answer s (codes "packages") (package_ref_name name version release arch) digest

unfoldable pub resolve_package_ref :
    VacuoleStore → Text → Text → ℕ → Text → Result Fault (Option Sha256Digest)
unfolding resolve_ref package_ref_name
resolve_package_ref s name version release arch =
    resolve_ref s (codes "packages") (package_ref_name name version release arch)

unfoldable pub add_source_ref :
    RefWrite → VacuoleStore → Text → Sha256Digest → Option (VacuoleStore × Result Fault (Unit {0}))
unfolding add_ref
add_source_ref answer s filename digest = add_ref answer s (codes "sources") filename digest

unfoldable pub resolve_source_ref : VacuoleStore → Text → Result Fault (Option Sha256Digest)
unfolding resolve_ref
resolve_source_ref s filename = resolve_ref s (codes "sources") filename
