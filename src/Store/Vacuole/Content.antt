-- ===== src/Store/Vacuole/Content.antt =====
-- Objects are stored under the digest of their content (ribosome-store/src/store.rs).
use lysine_os.Base.{
  ℕ, true, false, ◌&&◌, Option, none, some, List, [], ◌∷◌, ◌++◌, ◌≡◌, ◌≢◌, refl, sym, ◌∙◌, ap,
  subst, inl, inr, arith, Text, codes, text_eq, text_eq_iff, text_eq_refl, Result, ok, Bool-cases,
  Lacks,
}
use lysine_os.Store.Digest.{Sha256Digest, IsDigest, Fault, shard, file_name, parse}
use lysine_os.Store.Digest.RoundTrip.{parse-object_path}
use lysine_os.Store.Digest.Hex.{hex-Lacks, hex_digit-ne}
use lysine_os.Store.Vacuole.{
  ObjectFile, at_path, read_object, write_object, remove_object, tmp_name,
}

pub at_path_iff :
    (dir name : Text) (f : ObjectFile) → at_path dir name f ≡ true → (f.dir ≡ dir) × (f.name ≡ name)
unfolding at_path
at_path_iff dir name f h = ground (arith, text_eq_iff f.dir dir, text_eq_iff f.name name)

pub at_path-of : (f : ObjectFile) → at_path f.dir f.name f ≡ true
unfolding at_path
at_path-of f = rw (text_eq_refl f.dir, text_eq_refl f.name)

-- One file is not at two paths.
at_path-ne :
    (dir name dir' name' : Text) (f : ObjectFile)
    → text_eq dir dir' && text_eq name name' ≡ false
    → at_path dir name f ≡ true
    → at_path dir' name' f ≡ false
unfolding at_path
at_path-ne dir name dir' name' f n h = ground (
  arith,
  text_eq_iff f.dir dir,
  text_eq_iff f.name name,
  text_eq_iff f.dir dir',
  text_eq_iff f.name name',
  text_eq_iff dir dir',
  text_eq_iff name name',
)

pub read_object-append :
    (fs gs : List ObjectFile) (dir name : Text)
    → read_object (fs ++ gs) dir name
      ≡ elim (read_object fs dir name) [ some b ↦ some b | none ↦ read_object gs dir name ]
unfolding read_object
read_object-append [] gs dir name = refl
read_object-append (f ∷ fs) gs dir name = ground (arith, read_object-append fs gs dir name)

read_object-remove_self :
    (fs : List ObjectFile) (dir name : Text)
    → read_object (remove_object fs dir name) dir name ≡ none
unfolding read_object remove_object
read_object-remove_self [] dir name = refl
read_object-remove_self (f ∷ fs) dir name = ground (arith, read_object-remove_self fs dir name)

pub read_object-remove_ne :
    (fs : List ObjectFile) (dir name dir' name' : Text)
    → text_eq dir dir' && text_eq name name' ≡ false
    → read_object (remove_object fs dir name) dir' name' ≡ read_object fs dir' name'
unfolding read_object remove_object
read_object-remove_ne [] dir name dir' name' n = refl
read_object-remove_ne (f ∷ fs) dir name dir' name' n =
    ground (arith, read_object-remove_ne fs dir name dir' name', at_path-ne dir name dir' name' f)

module _ (fs : List ObjectFile) (dir name : Text) (content : List ℕ) where
  pub read_object-write_self :
      read_object (write_object fs dir name content) dir name ≡ some content
  unfolding write_object
  read_object-write_self =
      rw (read_object-append, read_object-remove_self fs dir name)
        (unfold read_object in rw (text_eq_refl dir, text_eq_refl name))

  pub read_object-write_ne :
      (dir' name' : Text)
      → text_eq dir dir' && text_eq name name' ≡ false
      → read_object (write_object fs dir name content) dir' name' ≡ read_object fs dir' name'
  unfolding write_object
  read_object-write_ne dir' name' n =
      rw (read_object-append, read_object-remove_ne fs dir name dir' name' n)
        (single (read_object fs dir' name'))
    where
      single :
          (o : Option (List ℕ))
          → ◌≡◌ {A = Option (List ℕ)}
              (elim o [
                | some b ↦ some b
                | none ↦
                    read_object
                      (record { dir = dir; name = name; content = content } ∷ [])
                      dir'
                      name'
              ])
              o
      single none = unfold read_object in ground arith
      single (some b) = refl

pub file_name-Lacks : (d : Sha256Digest) → IsDigest d → Lacks b'.' (file_name d)
unfolding file_name
file_name-Lacks [] h = tt
file_name-Lacks (b ∷ d) (n, (lt, h)) = hex-Lacks b'.' (λ n k. (hex_digit-ne n k).0) d h

not-Lacks : (c : ℕ) (p s : Text) → ¬ Lacks c (p ++ c ∷ s)
not-Lacks c [] s (h, k) = ground arith
not-Lacks c (a ∷ p) s (h, k) = not-Lacks c p s k

-- A temporary file is at the path of no object.
pub tmp_name-ne :
    (pid name : Text) (d : Sha256Digest)
    → IsDigest d
    → text_eq (tmp_name pid name) (file_name d) ≡ false
unfolding tmp_name
tmp_name-ne pid name d h = elim (Bool-cases (text_eq (tmp_name pid name) (file_name d))) [
  | inl e ↦ absurd (
      not-Lacks b'.' name (codes "tmp." ++ pid) (
        subst (Lacks b'.') (sym ((text_eq_iff (name ++ (codes ".tmp." ++ pid)) (file_name d)).0 e))
          (file_name-Lacks d h)))
  | inr e ↦ e
]

-- Two digests have two paths.
pub object_path-ne :
    (d d' : Sha256Digest)
    → IsDigest d
    → IsDigest d'
    → d ≢ d'
    → text_eq (shard d) (shard d') && text_eq (file_name d) (file_name d') ≡ false
object_path-ne d d' h h' n =
    elim (Bool-cases (text_eq (shard d) (shard d') && text_eq (file_name d) (file_name d'))) [
      | inl e ↦
          absurd
            (n (ok_inj (sym (parse-object_path d h) ∙ ap parse (same e) ∙ parse-object_path d' h')))
      | inr e ↦ e
    ]
  where
    same :
        text_eq (shard d) (shard d') && text_eq (file_name d) (file_name d') ≡ true
        → shard d ++ file_name d ≡ shard d' ++ file_name d'
    same e =
        ground (arith, text_eq_iff (shard d) (shard d'), text_eq_iff (file_name d) (file_name d'))

    ok_inj : ◌≡◌ {A = Result Fault Sha256Digest} (ok d) (ok d') → d ≡ d'
    ok_inj e = cc
