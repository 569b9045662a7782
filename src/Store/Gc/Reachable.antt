-- ===== src/Store/Gc/Reachable.antt =====
-- The roots that `collect_reachable` finds (ribosome-store/src/gc.rs).
use lysine_os.Base.{
  true, List, [], ◌∷◌, ◌≡◌, ◌⊎◌, inl, inr, ◌↔◌, arith, Text, text_eq_iff, trim, ok, err,
  Result-cases,
}
use lysine_os.Store.Digest.{
  Sha256Digest, IsDigest, Fault, io, invalid_digest, hash_mismatch, gc_failed, panic,
}
use lysine_os.Store.Digest
use lysine_os.Store.Vacuole.{RefFile}
use lysine_os.Store.Gc.{collect_reachable, is_reachable}

-- Some reference file holds the digest.
abbrev pub IsRoot : List RefFile → Sha256Digest → Type 0
IsRoot [] d = ⊥
IsRoot (r ∷ rs) d = (Digest.parse (trim r.content) ≡ ok d) ⊎ IsRoot rs d

module _ (r : RefFile) (rs : List RefFile) where
  -- A reference with a digest adds it; a malformed one is passed over.
  collect_ok :
      (d : Sha256Digest) (ds : List Sha256Digest)
      → Digest.parse (trim r.content) ≡ ok d
      → collect_reachable (r ∷ rs) ≡ ok ds
      → (ds' : List Sha256Digest) × (collect_reachable rs ≡ ok ds') × (ds ≡ d ∷ ds')
  unfolding collect_reachable
  collect_ok d ds e h = elim (Result-cases (collect_reachable rs)) [
    | inl (ds', e') ↦ (ds', e', ground arith)
    | inr (f, e') ↦ absurd (ground arith)
  ]

  collect_err :
      (f : Fault) (ds : List Sha256Digest)
      → Digest.parse (trim r.content) ≡ err f
      → collect_reachable (r ∷ rs) ≡ ok ds
      → collect_reachable rs ≡ ok ds
  unfolding collect_reachable
  collect_err (io t) ds e h = ground arith
  collect_err (invalid_digest t) ds e h = ground arith
  collect_err (hash_mismatch t u) ds e h = ground arith
  collect_err (gc_failed t) ds e h = ground arith
  collect_err panic ds e h = ground arith

is_reachable_iff :
    (d' : Sha256Digest) (ds : List Sha256Digest) (d : Sha256Digest)
    → (is_reachable (d' ∷ ds) d ≡ true) ↔ ((d ≡ d') ⊎ (is_reachable ds d ≡ true))
unfolding is_reachable
is_reachable_iff d' ds d = ground (arith, text_eq_iff d d')

parse_one :
    (s : Text) {d d' : Sha256Digest} → Digest.parse s ≡ ok d → Digest.parse s ≡ ok d' → d ≡ d'
parse_one s e h = cc

parse_clash :
    (s : Text) {f : Fault} {d : Sha256Digest} → Digest.parse s ≡ err f → Digest.parse s ≡ ok d → ⊥
parse_clash s e h = cc

-- When the references can be read, the digests found are exactly those that a reference holds.
pub reachable-IsRoot :
    (rs : List RefFile) (ds : List Sha256Digest) (d : Sha256Digest)
    → collect_reachable rs ≡ ok ds
    → (is_reachable ds d ≡ true) ↔ IsRoot rs d
reachable-IsRoot [] ds d h = unfold collect_reachable is_reachable in ground arith
reachable-IsRoot (r ∷ rs) ds d h = elim (Result-cases (Digest.parse (trim r.content))) [
  | inl (d', e) ↦
      let (ds', e', same) = collect_ok r rs d' ds e h in
      let found = reachable-IsRoot rs ds' d e' in
      let split = is_reachable_iff d' ds' d in
      (
        (λ m. elim (split.0 (rw (← same) m)) [ inl q ↦ inl (rw q e) | inr q ↦ inr (found.0 q) ]),
        (λ root. rw same (
            split.1 (elim root [
              | inl q ↦ inl (parse_one (trim r.content) q e)
              | inr q ↦ inr (found.1 q)
            ]))),
      )
  | inr (f, e) ↦
      let found = reachable-IsRoot rs ds d (collect_err r rs f ds e h) in
      (
        (λ m. inr (found.0 m)),
        (λ root. elim root [
          | inl q ↦ absurd (parse_clash (trim r.content) e q)
          | inr q ↦ found.1 q
        ]),
      )
]
