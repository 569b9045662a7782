-- ===== src/Store/Vacuole/Put.antt =====
-- What `put_bytes` does to the objects (ribosome-store/src/store.rs).
use lysine_os.Base.{
  ℕ, Bool, true, false, ◌&&◌, Option, none, some, List, [], ◌∷◌, ◌≡◌, ◌≢◌, refl, sym, ◌∙◌, ap,
  subst, ◌⊎◌, inl, inr, arith, Text, text_eq, text_eq_iff, ok, if◌then◌else◌, Bool-cases,
}
use lysine_os.Store.Digest.{Sha256Digest, IsDigest, shard, file_name}
use lysine_os.Store.Vacuole.{
  ObjectFile, VacuoleStore, read_object, exists_object, write_object, remove_object, contains, get,
  WriteOutcome, create_fails, write_fails, renamed, already_exists, rename_fails, tmp_name,
  write_atomic, put_bytes,
}
use lysine_os.Store.Vacuole.Content.{
  read_object-write_self, read_object-write_ne, read_object-remove_ne, tmp_name-ne, object_path-ne,
}

exists-read :
    (fs : List ObjectFile) (dir name : Text)
    → exists_object fs dir name ≡ elim (read_object fs dir name) [ none ↦ false | some _ ↦ true ]
unfolding exists_object read_object
exists-read [] dir name = refl
exists-read (f ∷ fs) dir name = ground (arith, exists-read fs dir name)

-- An object exists exactly when it can be read.
pub contains-get :
    (s : VacuoleStore) (d : Sha256Digest)
    → contains s d ≡ elim (get s d) [ none ↦ false | some _ ↦ true ]
unfolding contains get
contains-get s d = exists-read s.objects (shard d) (file_name d)

and_false : (a b : Bool) → b ≡ false → a && b ≡ false
and_false true b e = e
and_false false b e = refl

module _ (pid : Text) (fs : List ObjectFile) (content : List ℕ) (d d' : Sha256Digest)
    (h' : IsDigest d') where
  tmp_ne :
      text_eq (shard d) (shard d') && text_eq (tmp_name pid (file_name d)) (file_name d') ≡ false
  tmp_ne = and_false _ _ (tmp_name-ne pid (file_name d) d' h')

  -- The object of `d'` as the disk `gs` holds it.
  abbrev there : List ObjectFile → Option (List ℕ)
  there gs = read_object gs (shard d') (file_name d')

  without_tmp : there (remove_object fs (shard d) (tmp_name pid (file_name d))) ≡ there fs
  without_tmp = read_object-remove_ne fs _ _ (shard d') (file_name d') tmp_ne

  -- What a write under `d` does at `d'`: nothing, or it is the same digest and the content is there.
  write_atomic-cases :
      (outcome : WriteOutcome)
      → IsDigest d
      → (there (write_atomic pid outcome fs (shard d) (file_name d) content).0 ≡ there fs)
        ⊎ ((d ≡ d')
            × (there (write_atomic pid outcome fs (shard d) (file_name d) content).0
                ≡ some content))
  unfolding write_atomic
  write_atomic-cases (create_fails e) h = inl refl
  write_atomic-cases (write_fails part e) h =
      inl (read_object-write_ne fs _ _ part (shard d') (file_name d') tmp_ne)
  write_atomic-cases already_exists h = inl without_tmp
  write_atomic-cases (rename_fails e) h = inl without_tmp
  write_atomic-cases renamed h =
      let gs = remove_object fs (shard d) (tmp_name pid (file_name d)) in
      elim (Bool-cases (text_eq d d')) [
        | inl e ↦
            let same = (text_eq_iff d d').0 e in
            inr (
              same,
              subst
                  (λ x.
                    read_object (write_object gs (shard d) (file_name d) content) (shard x)
                      (file_name x)
                    ≡ some content)
                  same (read_object-write_self gs (shard d) (file_name d) content),
            )
        | inr e ↦ inl (
            read_object-write_ne gs _ _ content (shard d') (file_name d')
              (object_path-ne d d' h h' (λ q. differ e q))
            ∙ without_tmp)
      ]
    where
      differ : text_eq d d' ≡ false → d ≡ d' → ⊥
      differ e q = ground (arith, text_eq_iff d d')

-- Every object that can be read has its digest for a name.
abbrev pub IsIntact : (List ℕ → Sha256Digest) → VacuoleStore → Type 0
IsIntact sha256 s =
    (d : Sha256Digest) (bytes : List ℕ) → IsDigest d → get s d ≡ some bytes → sha256 bytes ≡ d

module _ (sha256 : List ℕ → Sha256Digest) (pid : Text)
    (sound : (b : List ℕ) → IsDigest (sha256 b)) where
  put_bytes-cases :
      (outcome : WriteOutcome) (s : VacuoleStore) (bytes : List ℕ) (d : Sha256Digest)
      → IsDigest d
      → (get (put_bytes sha256 pid outcome s bytes).0 d ≡ get s d)
        ⊎ ((sha256 bytes ≡ d) × (get (put_bytes sha256 pid outcome s bytes).0 d ≡ some bytes))
  put_bytes-cases outcome s bytes d h = elim (Bool-cases (contains s (sha256 bytes))) [
    | inl e ↦ inl (unfold put_bytes in rw e)
    | inr e ↦
        unfold put_bytes get in
        rw e (write_atomic-cases pid s.objects bytes (sha256 bytes) d h outcome (sound bytes))
  ]

  -- Storing bytes leaves the object of every other digest as it is, whatever the system answers to
  -- the write.
  pub put_bytes-other :
      (outcome : WriteOutcome) (s : VacuoleStore) (bytes : List ℕ) (d : Sha256Digest)
      → IsDigest d
      → sha256 bytes ≢ d
      → get (put_bytes sha256 pid outcome s bytes).0 d ≡ get s d
  put_bytes-other outcome s bytes d h n = elim (put_bytes-cases outcome s bytes d h) [
    | inl same ↦ same
    | inr (e, _) ↦ absurd (n e)
  ]

  unwrap : {a b : List ℕ} → some a ≡ some b → a ≡ b
  unwrap e = cc

  -- `put_bytes` keeps the store intact, whatever the system answers to the write: an object's name
  -- stays the digest of its content.
  pub put_bytes-IsIntact :
      (outcome : WriteOutcome) (s : VacuoleStore) (bytes : List ℕ)
      → IsIntact sha256 s
      → IsIntact sha256 (put_bytes sha256 pid outcome s bytes).0
  put_bytes-IsIntact outcome s bytes intact d b h e = elim (put_bytes-cases outcome s bytes d h) [
    | inl same ↦ intact d b h (sym same ∙ e)
    | inr (name, new) ↦ ap sha256 (unwrap (sym e ∙ new)) ∙ name
  ]

  -- If the rename succeeds, the call returns the digest of the bytes, and the store then holds
  -- under it what it held there before, or the bytes if it held nothing.
  pub put_bytes-get :
      (s : VacuoleStore) (bytes : List ℕ)
      → ((put_bytes sha256 pid renamed s bytes).1 ≡ ok (sha256 bytes))
        × (get (put_bytes sha256 pid renamed s bytes).0 (sha256 bytes)
            ≡ (if contains s (sha256 bytes) then get s (sha256 bytes) else some bytes))
  put_bytes-get s bytes = elim (Bool-cases (contains s (sha256 bytes))) [
    | inl e ↦ (unfold put_bytes in rw e, unfold put_bytes in rw e)
    | inr e ↦ (
      unfold put_bytes in rw e,
      unfold put_bytes get in
          rw e (
            read_object-write_self
              (remove_object s.objects (shard (sha256 bytes))
                (tmp_name pid (file_name (sha256 bytes))))
              (shard (sha256 bytes)) (file_name (sha256 bytes)) bytes),
    )
  ]
