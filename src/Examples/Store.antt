-- ===== src/Examples/Store.antt =====
-- The store at concrete inputs, with a toy hash in place of SHA-256.
use lysine_os.Base.{
  is_empty, none, ℕ, ◌%◌, Bool, true, some, List, [], ◌∷◌, ◌++◌, ◌≡◌, ◌↔◌, inl, refl, ap, arith,
  Text, codes, ok, length, if◌then◌else◌, text_eq, trim,
}
use lysine_os.Store.Digest.{
  Sha256Digest, IsDigest, hex, to_prefixed, shard, file_name, parse, Fault, panic, byte_len,
}
use lysine_os.Store.Digest
use lysine_os.Store.Digest.RoundTrip.{parse-hex}
use lysine_os.Store.Vacuole.{VacuoleStore, ObjectFile, put_bytes, get, contains, renamed}
use lysine_os.Store.Vacuole.Put.{IsIntact, put_bytes-IsIntact, put_bytes-get}
use lysine_os.Store.Refs.{ref_written, is_component, write_ref, add_ref}
use lysine_os.Store.Refs.Laws.{gc-add_ref}
use lysine_os.Store.Gc.{
  gc, GcStats, collect_reachable, is_reachable, gc_loop, classify, is_shard_name, is_tmp,
}
use lysine_os.Store.Gc.Reachable.{IsRoot, reachable-IsRoot}
use lysine_os.Store.Gc.Safety.{gc-keeps_roots, gc-removes_others}

abbrev repeat : ℕ → ℕ → List ℕ
repeat Prim.Native.Nat.zero b = []
repeat (Prim.Native.Nat.suc n) b = b ∷ repeat n b

-- 32 times the length of the content.
abbrev toy_hash : List ℕ → Sha256Digest
toy_hash bytes = repeat 32 (length bytes % 256)

toy_hash-IsDigest : (b : List ℕ) → IsDigest (toy_hash b)
toy_hash-IsDigest b = omega arith

abbrev two : Sha256Digest
two = repeat 32 2

two-IsDigest : IsDigest two
two-IsDigest = omega arith

abbrev three : Sha256Digest
three = repeat 32 3

three-IsDigest : IsDigest three
three-IsDigest = omega arith

parse-hex_example : (parse (hex two) ≡ ok two) × (parse (to_prefixed two) ≡ ok two)
parse-hex_example = parse-hex two two-IsDigest

-- The directory and the name of the object of `two`.
abbrev two_dir : Text
two_dir = codes "02"

abbrev two_name : Text
two_name = codes "02020202020202020202020202020202020202020202020202020202020202"

abbrev three_name : Text
three_name = codes "03030303030303030303030303030303030303030303030303030303030303"

-- Two objects, of which a reference names one, and a temporary file.
abbrev sample : VacuoleStore
sample = record {
  objects =
      record { dir = two_dir; name = two_name; content = 7 ∷ 7 ∷ [] }
      ∷ record { dir = codes "03"; name = three_name; content = 8 ∷ 8 ∷ 8 ∷ [] }
      ∷ record { dir = two_dir; name = codes "02.tmp.7"; content = 1 ∷ [] }
      ∷ [];
  refs =
      record { namespace = codes "packages"; name = codes "gcc"; content = two_dir ++ two_name }
      ∷ [];
}

always : ObjectFile → Bool
always f = true

sample-IsRoot : IsRoot sample.refs two
unfolding Digest.parse trim
sample-IsRoot = inl refl

sample_reachable : collect_reachable sample.refs ≡ ok (two ∷ [])
unfolding collect_reachable Digest.parse trim
sample_reachable = refl

sample-gc : gc always sample ≡ (
  record {
    objects = record { dir = two_dir; name = two_name; content = 7 ∷ 7 ∷ [] } ∷ [];
    refs = sample.refs;
  },
  ok (record { reachable = 1; removed = 1; bytes_reclaimed = 3 }),
)
unfolding gc gc_loop collect_reachable classify is_shard_name is_tmp is_reachable Digest.parse
    byte_len trim always text_eq
sample-gc = refl

abbrev counted : GcStats
counted = record { reachable = 1; removed = 1; bytes_reclaimed = 3 }

sample_ok : (gc always sample).1 ≡ ok counted
sample_ok = ap (λ p. p.1) sample-gc

sample-two : get (gc always sample).0 two ≡ some (7 ∷ 7 ∷ [])
unfolding text_eq
sample-two = rw sample-gc (unfold get in refl)

gc-keeps_roots_example :
    (get (gc always sample).0 two ≡ get sample two) × ((gc always sample).0.refs ≡ sample.refs)
gc-keeps_roots_example = gc-keeps_roots always sample two sample-IsRoot

gc-removes_others_example : IsRoot sample.refs two
gc-removes_others_example =
    gc-removes_others always sample two counted (7 ∷ 7 ∷ []) two-IsDigest sample_ok sample-two

reachable-IsRoot_example : (is_reachable (two ∷ []) three ≡ true) ↔ IsRoot sample.refs three
reachable-IsRoot_example = reachable-IsRoot sample.refs (two ∷ []) three sample_reachable

abbrev referenced : VacuoleStore
referenced = write_ref (codes "sources") (codes "x.tar") (hex three) sample

writes :
    add_ref ref_written sample (codes "sources") (codes "x.tar") three ≡ some (referenced, ok tt)
unfolding add_ref is_component is_empty text_eq
writes = refl

-- A name with a slash leads elsewhere.
elsewhere : add_ref ref_written sample (codes "sources") (codes "x/y.tar") three ≡ none
unfolding add_ref is_component is_empty text_eq
elsewhere = refl

gc-add_ref_example : get (gc always referenced).0 three ≡ get sample three
gc-add_ref_example =
    gc-add_ref always ref_written sample referenced (codes "sources") (codes "x.tar") three
      three-IsDigest writes

abbrev fresh : VacuoleStore
fresh = record { objects = []; refs = [] }

fresh-IsIntact : IsIntact toy_hash fresh
unfolding get
fresh-IsIntact d bytes h e = cc

put_bytes-IsIntact_example :
    IsIntact toy_hash (put_bytes toy_hash (codes "7") renamed fresh (5 ∷ [])).0
put_bytes-IsIntact_example =
    put_bytes-IsIntact toy_hash (codes "7") toy_hash-IsDigest renamed fresh (5 ∷ []) fresh-IsIntact

put_bytes-get_example :
    ((put_bytes toy_hash (codes "7") renamed fresh (5 ∷ [])).1 ≡ ok (toy_hash (5 ∷ [])))
    × (get (put_bytes toy_hash (codes "7") renamed fresh (5 ∷ [])).0 (toy_hash (5 ∷ [])) ≡ (
        if contains fresh (toy_hash (5 ∷ []))
        then get fresh (toy_hash (5 ∷ []))
        else some (5 ∷ [])))
put_bytes-get_example = put_bytes-get toy_hash (codes "7") toy_hash-IsDigest fresh (5 ∷ [])

-- A sign is accepted in front of the second digit of each pair.
plus_digits :
    parse (codes "+2+2+2+2+2+2+2+2+2+2+2+2+2+2+2+2+2+2+2+2+2+2+2+2+2+2+2+2+2+2+2+2") ≡ ok two
unfolding parse
plus_digits = refl
