-- ===== src/Store/Gc/Stats.antt =====
-- The counters of a collection (ribosome-store/src/gc.rs, `GcStats`), against the files that are
-- there before it and after it.
use lysine_os.Base.{
  ◌++◌, ℕ, ◌+◌, ◌-◌, ◌%◌, ◌^◌, ◌≤◌, ◌<◌, Bool, true, false, ◌&&◌, not, List, [], ◌∷◌, ◌≡◌, ok, err,
  length, retain, ◌==◌,
}
use lysine_os.Store.Digest.{Sha256Digest, Fault, byte_len}
use lysine_os.Store.Digest
use lysine_os.Store.Vacuole.{ObjectFile}
use lysine_os.Store.Gc.{GcStats, is_shard_name, is_tmp}

-- The name of the file is that of an object: a shard of two hexadecimal digits, 64 bytes in all, no
-- temporary file, and a digest.
unfoldable pub is_object : ObjectFile → Bool
is_object f =
    is_shard_name f.dir
    && not (is_tmp f.name)
    && byte_len (f.dir ++ f.name) == 64
    && elim (Digest.parse (f.dir ++ f.name)) [ ok d ↦ true | err e ↦ false ]

unfoldable pub objects_of : List ObjectFile → List ObjectFile
unfolding is_object retain
objects_of = retain is_object

unfoldable pub bytes_of : List ObjectFile → ℕ
bytes_of [] = 0
bytes_of (f ∷ fs) = length f.content + bytes_of fs

module _ (can_remove : ObjectFile → Bool) (ds : List Sha256Digest) where
  -- What the loop adds to the counters, from the files before it and after it.
  abbrev Counts : List ObjectFile → List ObjectFile → GcStats → GcStats → Type 0
  Counts before after t u =
      (length (objects_of after) ≤ length (objects_of before))
      × (bytes_of (objects_of after) ≤ bytes_of (objects_of before))
      × (u.reachable ≡ (t.reachable + length (objects_of after)) % 2 ^ 64)
      × (u.removed
          ≡ (t.removed + (length (objects_of before) - length (objects_of after))) % 2 ^ 64)
      × (u.bytes_reclaimed
          ≡ (t.bytes_reclaimed + (bytes_of (objects_of before) - bytes_of (objects_of after)))
            % 2 ^ 64)

  abbrev IsU64 : GcStats → Type 0
  IsU64 t = (t.reachable < 2 ^ 64) × (t.removed < 2 ^ 64) × (t.bytes_reclaimed < 2 ^ 64)
