-- ===== src/Store/Refs/Laws.antt =====
-- References are found again, and protect their objects (ribosome-store/src/refs.rs, gc.rs).
use lysine_os.Base.{
  ℕ, ◌/◌, ◌%◌, ◌<◌, Bool, ◌&&◌, not, none, some, List, [], ◌∷◌, ◌++◌, ◌≡◌, ◌≢◌, refl, ◌∙◌, inl, inr,
  arith, Text, text_eq, text_eq_iff, ok, if◌then◌else◌, retain, All, trim, trim-Solid, Solid-All,
  NotSpace, is_whitespace,
}
use lysine_os.Store.Digest.{Sha256Digest, IsDigest, Fault, hex, hex_byte, hex_digit}
use lysine_os.Store.Digest
use lysine_os.Store.Digest.RoundTrip.{parse-hex}
use lysine_os.Store.Vacuole.{VacuoleStore, RefFile, ObjectFile, get}
use lysine_os.Store.Gc.{gc}
use lysine_os.Store.Gc.Reachable.{IsRoot}
use lysine_os.Store.Gc.Safety.{gc-keeps_roots}
use lysine_os.Store.Refs.{
  RefWrite, ref_written, ref_unchanged, ref_torn, write_ref, at_ref, read_ref, add_ref, resolve_ref,
  remove_ref,
}

hex_digit-NotSpace : (n : ℕ) → n < 16 → NotSpace (hex_digit n)
unfolding hex_digit is_whitespace
hex_digit-NotSpace n h = ground arith

hex-All : (d : Sha256Digest) → All (λ b. b < 256) d → All NotSpace (hex d)
unfolding hex hex_byte
hex-All [] h = tt
hex-All (b ∷ d) (lt, h) = (
  hex_digit-NotSpace (b / 16) (omega arith),
  (hex_digit-NotSpace (b % 16) (omega arith), hex-All d h),
)

hex-ne-nil : (d : Sha256Digest) → IsDigest d → hex d ≢ []
unfolding hex hex_byte
hex-ne-nil [] h = absurd (omega arith)
hex-ne-nil (b ∷ d) h = cc

-- What is written into a reference is parsed to the digest.
parse-content : (d : Sha256Digest) → IsDigest d → Digest.parse (trim (hex d)) ≡ ok d
parse-content d h =
    let (front, back) = Solid-All (hex d) (hex-All d h.1) (hex-ne-nil d h) in
    rw (trim-Solid (hex d) front back) (parse-hex d h).0

read_ref-append :
    (rs qs : List RefFile) (namespace name : Text)
    → read_ref (rs ++ qs) namespace name
      ≡ elim (read_ref rs namespace name) [ some t ↦ some t | none ↦ read_ref qs namespace name ]
unfolding read_ref
read_ref-append [] qs namespace name = refl
read_ref-append (r ∷ rs) qs namespace name = ground (arith, read_ref-append rs qs namespace name)

module _ (namespace name namespace' name' : Text) where
  abbrev pub same_ref : Bool
  same_ref = text_eq namespace namespace' && text_eq name name'

  -- Dropping one reference leaves the others.
  read_ref-remove :
      (rs : List RefFile)
      → read_ref (retain (λ r. not (at_ref namespace name r)) rs) namespace' name'
        ≡ (if same_ref then none else read_ref rs namespace' name')
  unfolding read_ref retain
  read_ref-remove [] = ground arith
  read_ref-remove (r ∷ rs) = ground (
    arith,
    read_ref-remove rs,
    text_eq_iff r.namespace namespace,
    text_eq_iff r.name name,
    text_eq_iff r.namespace namespace',
    text_eq_iff r.name name',
    text_eq_iff namespace namespace',
    text_eq_iff name name',
  )

one_ref : Text → Text → Sha256Digest → RefFile
one_ref namespace name d = record { namespace = namespace; name = name; content = hex d }

read_ref-one :
    (namespace name namespace' name' : Text) (d : Sha256Digest)
    → read_ref (one_ref namespace name d ∷ []) namespace' name'
      ≡ (if same_ref namespace name namespace' name' then some (hex d) else none)
unfolding read_ref one_ref
read_ref-one namespace name namespace' name' d = ground arith

read_ref-write_ref :
    (s : VacuoleStore) (namespace name namespace' name' : Text) (d : Sha256Digest)
    → read_ref (write_ref namespace name (hex d) s).refs namespace' name' ≡ (
        if same_ref namespace name namespace' name'
        then some (hex d)
        else read_ref s.refs namespace' name')
unfolding write_ref one_ref
read_ref-write_ref s namespace name namespace' name' d = ground (
  arith,
  read_ref-append (retain (λ r. not (at_ref namespace name r)) s.refs)
      (one_ref namespace name d ∷ []) namespace' name',
  read_ref-remove namespace name namespace' name' s.refs,
  read_ref-one namespace name namespace' name' d,
)

-- A reference is written only below a single component, under a single component.
added :
    (answer : RefWrite) (s s' : VacuoleStore) (namespace name : Text) (d : Sha256Digest)
    → add_ref answer s namespace name d ≡ some (s', ok tt)
    → s' ≡ write_ref namespace name (hex d) s
unfolding add_ref
added ref_written s s' namespace name d e = ground (arith, e)
added (ref_unchanged x) s s' namespace name d e = absurd (ground (arith, e))
added (ref_torn left x) s s' namespace name d e = absurd (ground (arith, e))

-- When a reference to a digest is written, its name then resolves to that digest, and every other
-- name resolves as before.
pub resolve_ref-add_ref :
    (answer : RefWrite) (s s' : VacuoleStore) (namespace name : Text) (d : Sha256Digest)
    → IsDigest d
    → add_ref answer s namespace name d ≡ some (s', ok tt)
    → (namespace' name' : Text)
    → resolve_ref s' namespace' name' ≡ (
        if same_ref namespace name namespace' name'
        then ok (some d)
        else resolve_ref s namespace' name')
unfolding resolve_ref
resolve_ref-add_ref answer s s' namespace name d h e namespace' name' =
    rw (added answer s s' namespace name d e)
      (ground (arith, read_ref-write_ref s namespace name namespace' name' d, parse-content d h))

-- After a reference is removed, its name resolves to nothing, and every other name as before.
pub resolve_ref-remove_ref :
    (removes : Bool) (s : VacuoleStore) (namespace name : Text)
    → (remove_ref removes s namespace name).1 ≡ ok tt
    → (namespace' name' : Text)
    → resolve_ref (remove_ref removes s namespace name).0 namespace' name' ≡ (
        if same_ref namespace name namespace' name'
        then ok none
        else resolve_ref s namespace' name')
unfolding resolve_ref
resolve_ref-remove_ref removes s namespace name done namespace' name' =
    rw (resolve_ref, refs_after, read_ref-remove namespace name namespace' name' s.refs)
      (ground arith)
  where
    refs_after :
        (remove_ref removes s namespace name).0.refs
        ≡ retain (λ r. not (at_ref namespace name r)) s.refs
    refs_after = unfold remove_ref in ground (arith, done)

IsRoot-append : (rs qs : List RefFile) (d : Sha256Digest) → IsRoot qs d → IsRoot (rs ++ qs) d
IsRoot-append [] qs d h = h
IsRoot-append (r ∷ rs) qs d h = inr (IsRoot-append rs qs d h)

-- When a reference to a digest is written (which is modelled where its namespace and its name are
-- single components of a path), the digest survives the next collection: the object is read as it
-- was read before, whatever becomes of the collection.
pub gc-add_ref :
    (can_remove : ObjectFile → Bool) (answer : RefWrite) (s s' : VacuoleStore)
    (namespace name : Text) (d : Sha256Digest)
    → IsDigest d
    → add_ref answer s namespace name d ≡ some (s', ok tt)
    → get (gc can_remove s').0 d ≡ get s d
gc-add_ref can_remove answer s s' namespace name d h e = rw (added answer s s' namespace name d e) (
    (gc-keeps_roots can_remove (write_ref namespace name (hex d) s) d root).0
    ∙ (unfold write_ref get in refl))
  where
    root : IsRoot (write_ref namespace name (hex d) s).refs d
    root =
        unfold write_ref in
        IsRoot-append (retain (λ r. not (at_ref namespace name r)) s.refs)
          (record { namespace = namespace; name = name; content = hex d } ∷ []) d
          (inl (parse-content d h))
