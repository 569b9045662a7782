-- ===== src/Store/Gc/Safety.antt =====
-- What a collection keeps and what it removes (ribosome-store/src/gc.rs).
use lysine_os.Base.{
  ℕ, Bool, true, false, Option, none, some, List, [], ◌∷◌, ◌≡◌, refl, ◌∙◌, inl, inr, arith, Text,
  Result, ok, err, Result-cases, Bool-cases, if◌then◌else◌, trim,
}
use lysine_os.Store.Digest.{Sha256Digest, IsDigest, Fault, shard, file_name}
use lysine_os.Store.Digest.RoundTrip.{parse-IsDigest}
use lysine_os.Store.Vacuole.{ObjectFile, RefFile, VacuoleStore, at_path, read_object, get}
use lysine_os.Store.Vacuole.Content.{at_path_iff}
use lysine_os.Store.Gc.{
  GcStats, Action, keep, collect, classify, gc_loop, gc, count_reachable, count_removed, no_stats,
  collect_reachable, is_reachable,
}
use lysine_os.Store.Gc.Objects.{classify-object}
use lysine_os.Store.Gc.Reachable.{IsRoot, reachable-IsRoot}

module _ (can_remove : ObjectFile → Bool) (ds : List Sha256Digest) where
  -- The loop does not change what is read at a path, if every file there is to be kept.
  read_object-gc_loop :
      (dir name : Text)
      → ((f : ObjectFile) → at_path dir name f ≡ true → classify ds f ≡ ok keep)
      → (fs : List ObjectFile) (t : GcStats)
      → read_object (gc_loop can_remove ds fs t).0 dir name ≡ read_object fs dir name
  unfolding gc_loop read_object
  read_object-gc_loop dir name kept [] t = refl
  read_object-gc_loop dir name kept (f ∷ fs) t = ground (
    arith,
    kept f,
    read_object-gc_loop dir name kept fs t,
    read_object-gc_loop dir name kept fs (count_reachable t),
    read_object-gc_loop dir name kept fs (count_removed f t),
  )

  -- When the loop succeeds, nothing is left at a path whose files are all to be collected.
  gc_loop-collects :
      (dir name : Text)
      → ((f : ObjectFile) → at_path dir name f ≡ true → classify ds f ≡ ok collect)
      → (fs : List ObjectFile) (t u : GcStats) → (gc_loop can_remove ds fs t).1 ≡ ok u
      → read_object (gc_loop can_remove ds fs t).0 dir name ≡ none
  unfolding gc_loop read_object
  gc_loop-collects dir name gone [] t u h = refl
  gc_loop-collects dir name gone (f ∷ fs) t u h = ground (
    arith,
    gone f,
    gc_loop-collects dir name gone fs t u,
    gc_loop-collects dir name gone fs (count_reachable t) u,
    gc_loop-collects dir name gone fs (count_removed f t) u,
  )

IsRoot-IsDigest : (rs : List RefFile) (d : Sha256Digest) → IsRoot rs d → IsDigest d
IsRoot-IsDigest [] d h = absurd h
IsRoot-IsDigest (r ∷ rs) d (inl e) = parse-IsDigest (trim r.content) e
IsRoot-IsDigest (r ∷ rs) d (inr h) = IsRoot-IsDigest rs d h

-- The two outcomes of the walk over the references.
pub gc-ok :
    (can_remove : ObjectFile → Bool) (s : VacuoleStore) (ds : List Sha256Digest)
    → collect_reachable s.refs ≡ ok ds
    → gc can_remove s ≡ (
      record s { objects = (gc_loop can_remove ds s.objects no_stats).0 },
      (gc_loop can_remove ds s.objects no_stats).1,
    )
unfolding gc
gc-ok can_remove s ds e = rw (e, gc)

pub gc-err :
    (can_remove : ObjectFile → Bool) (s : VacuoleStore) (e : Fault)
    → collect_reachable s.refs ≡ err e
    → gc can_remove s ≡ (s, err e)
unfolding gc
gc-err can_remove s e h = rw (h, gc)

classify-at :
    (ds : List Sha256Digest) (d : Sha256Digest) (a : Action)
    → IsDigest d
    → (if is_reachable ds d then keep else collect) ≡ a
    → (f : ObjectFile) → at_path (shard d) (file_name d) f ≡ true
    → classify ds f ≡ ok a
classify-at ds d a h e f p =
    let (dir, name) = at_path_iff (shard d) (file_name d) f p in
    classify-object ds d f h dir name ∙ same (is_reachable ds d) e
  where
    same :
        (b : Bool)
        → (if b then keep else collect) ≡ a
        → ◌≡◌ {A = Result Fault Action} (if b then ok keep else ok collect) (ok a)
    same true e = cc
    same false e = cc

-- An object that a reference names is read from the store after a collection as before it, whether
-- the collection succeeds, fails on the way or panics; and no reference is touched.
pub gc-keeps_roots :
    (can_remove : ObjectFile → Bool) (s : VacuoleStore) (d : Sha256Digest)
    → IsRoot s.refs d
    → (get (gc can_remove s).0 d ≡ get s d) × ((gc can_remove s).0.refs ≡ s.refs)
gc-keeps_roots can_remove s d root = elim (Result-cases (collect_reachable s.refs)) [
  | inr (e, h) ↦ (rw (gc-err can_remove s e h), rw (gc-err can_remove s e h))
  | inl (ds, h) ↦ (
    rw (gc-ok can_remove s ds h) (
        unfold get in
        read_object-gc_loop can_remove ds (shard d) (file_name d)
          (classify-at ds d keep (IsRoot-IsDigest s.refs d root)
            (rw ((reachable-IsRoot s.refs ds d h).1 root)))
          s.objects no_stats),
    rw (gc-ok can_remove s ds h),
  )
]

-- After a collection that succeeds, every object that can still be read is named by a reference.
pub gc-removes_others :
    (can_remove : ObjectFile → Bool) (s : VacuoleStore) (d : Sha256Digest) (t : GcStats)
    (bytes : List ℕ)
    → IsDigest d
    → (gc can_remove s).1 ≡ ok t
    → get (gc can_remove s).0 d ≡ some bytes
    → IsRoot s.refs d
gc-removes_others can_remove s d t bytes h done there =
    elim (Result-cases (collect_reachable s.refs)) [
      | inr (e, bad) ↦ absurd (clash e (rw (gc-err can_remove s e bad) at done))
      | inl (ds, good) ↦ elim (Bool-cases (is_reachable ds d)) [
        | inl e ↦ (reachable-IsRoot s.refs ds d good).0 e
        | inr e ↦ absurd (
            gone
              (gc_loop-collects can_remove ds (shard d) (file_name d)
                (classify-at ds d collect h (rw e)) s.objects no_stats t
                (rw (gc-ok can_remove s ds good) at done))
              (unfold get in rw (gc-ok can_remove s ds good) at there))
      ]
    ]
  where
    clash : (e : Fault) → ◌≡◌ {A = Result Fault GcStats} (err e) (ok t) → ⊥
    clash e q = cc

    gone : {o : Option (List ℕ)} → o ≡ none → o ≡ some bytes → ⊥
    gone p q = cc
