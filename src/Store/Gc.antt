-- ===== src/Store/Gc.antt =====
-- ribosome/crates/ribosome-store/src/gc.rs: the collector. The two nested loops over directories
-- are one loop over the files of all the directories below `objects/`, and below `refs/`.
pub mod Reachable
pub mod Objects
pub mod Safety
pub mod Stats
use lysine_os.Base.{
  ℕ, ◌+◌, Bool, true, false, ◌&&◌, ◌||◌, Option, none, some, List, [], ◌∷◌, ◌++◌, ◌≡◌, refl, Text,
  codes, text_eq, Result, ok, err, ◌>>=◌, if◌then◌else◌, length, any, all, trim, find_text, leb,
  ◌==◌,
}
use lysine_os.Base.Decimal.{is_digit}
use lysine_os.Store.Digest.{Sha256Digest, Fault, gc_failed, panic, byte_len}
use lysine_os.Store.Digest
use lysine_os.Store.Vacuole.{VacuoleStore, ObjectFile, RefFile, add_u64}

pub record GcStats : Type 0 where
  pub reachable : ℕ
  pub removed : ℕ
  pub bytes_reclaimed : ℕ

-- `collect_reachable`: the set of the digests, as a list.
unfoldable pub collect_reachable : List RefFile → Result Fault (List Sha256Digest)
collect_reachable [] = ok []
collect_reachable (r ∷ rs) =
    let rest = collect_reachable rs in
    elim (Digest.parse (trim r.content)) [
      | ok d ↦ (rest >>= λ found. ok (d ∷ found))
      | err panic ↦ err panic
      | err e ↦ rest
    ]

-- `reachable_digests.contains(&digest)`
unfoldable pub is_reachable : List Sha256Digest → Sha256Digest → Bool
is_reachable ds d = any (text_eq d) ds

unfoldable pub is_hexdigit : ℕ → Bool
unfolding is_digit
is_hexdigit c = is_digit c || leb b'a' c && leb c b'f' || leb b'A' c && leb c b'F'

-- `shard_name.len() == 2` and all of it hexadecimal.
unfoldable pub is_shard_name : Text → Bool
unfolding byte_len is_hexdigit
is_shard_name name = byte_len name == 2 && all is_hexdigit name

unfoldable pub is_tmp : Text → Bool
unfolding find_text
is_tmp name = elim (find_text (codes ".tmp") name) [ none ↦ false | some _ ↦ true ]

-- What the loop does with one file.
pub data Action : Type 0 where
  skip remove_tmp keep collect : Action

unfoldable pub classify : List Sha256Digest → ObjectFile → Result Fault Action
classify reachable f =
    if is_shard_name f.dir
    then if is_tmp f.name
      then ok remove_tmp
      else if byte_len (f.dir ++ f.name) == 64
      then elim (Digest.parse (f.dir ++ f.name)) [
        | ok d ↦ if is_reachable reachable d then ok keep else ok collect
        | err panic ↦ err panic
        | err e ↦ ok skip
      ]
      else ok skip
    else ok skip

-- `total_reachable += 1`, and the counters of a removed file.
abbrev pub count_reachable : GcStats → GcStats
count_reachable t = record t { reachable = add_u64 t.reachable 1 }

abbrev pub count_removed : ObjectFile → GcStats → GcStats
count_removed f t = record t {
  removed = add_u64 t.removed 1;
  bytes_reclaimed = add_u64 t.bytes_reclaimed (length f.content);
}

-- The files that are left, and the counters or the failure. `can_remove` says whether the system
-- removes a file that it is asked to remove.
abbrev pub Collected : Type 0
Collected = List ObjectFile × Result Fault GcStats

unfoldable pub keep_file : ObjectFile → Collected → Collected
keep_file f (fs, r) = (f ∷ fs, r)

unfoldable pub failed_removal : ObjectFile → Text
failed_removal f = codes "failed to remove " ++ (f.dir ++ (codes "/" ++ f.name))

module _ (can_remove : ObjectFile → Bool) (reachable : List Sha256Digest) where
  unfoldable pub gc_loop : List ObjectFile → GcStats → Collected
  unfolding keep_file failed_removal
  gc_loop [] t = ([], ok t)
  gc_loop (f ∷ fs) t = elim (classify reachable f) [
    | err e ↦ (f ∷ fs, err e)
    | ok skip ↦ keep_file f (gc_loop fs t)
    | ok remove_tmp ↦ elim (can_remove f) [
      | true ↦ gc_loop fs t
      | false ↦ keep_file f (gc_loop fs t)
    ]
    | ok keep ↦ keep_file f (gc_loop fs (count_reachable t))
    | ok collect ↦ elim (can_remove f) [
      | true ↦ gc_loop fs (count_removed f t)
      | false ↦ (f ∷ fs, err (gc_failed (failed_removal f)))
    ]
  ]

abbrev pub no_stats : GcStats
no_stats = record { reachable = 0; removed = 0; bytes_reclaimed = 0 }

unfoldable pub gc : (ObjectFile → Bool) → VacuoleStore → VacuoleStore × Result Fault GcStats
gc can_remove s = elim (collect_reachable s.refs) [
  | err e ↦ (s, err e)
  | ok reachable ↦
      let (fs, r) = gc_loop can_remove reachable s.objects no_stats in
      (record s { objects = fs }, r)
]
