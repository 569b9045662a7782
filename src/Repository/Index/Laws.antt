-- ===== src/Repository/Index/Laws.antt =====
-- The index stays in order, and what is found in it (ribosome-repository/src/index.rs).
use lysine_os.Base.{
  distinct, true, false, ◌||◌, none, some, List, [], ◌∷◌, ◌≡◌, refl, arith, Text, text_eq,
  text_eq_iff, if◌then◌else◌, any,
}
use lysine_os.Repository.Index.{
  IndexEntry, EntryMap, lookup, insert, remove, is_some, RepositoryIndex,
}

unfoldable pub keys : EntryMap → List Text
keys [] = []
keys ((k, d) ∷ m) = k ∷ keys m

pub record IsIndexed (index : RepositoryIndex) : Type 0 where
  pub keyed : (n : Text) (e : IndexEntry) → lookup index.entries n ≡ some e → e.name ≡ n
  pub listed : (n : Text) → any (text_eq n) index.order ≡ is_some (lookup index.entries n)
  pub names_distinct : distinct index.order ≡ true
  pub keys_distinct : distinct (keys index.entries) ≡ true

pub lookup-insert :
    (m : EntryMap) (n : Text) (e : IndexEntry) (other : Text)
    → lookup (insert m n e) other ≡ (if text_eq other n then some e else lookup m other)
unfolding lookup insert
lookup-insert [] n e other = refl
lookup-insert ((k, d) ∷ m) n e other =
    ground
      (arith, lookup-insert m n e other, text_eq_iff other k, text_eq_iff n k, text_eq_iff other n)

keys-lookup : (m : EntryMap) (n : Text) → any (text_eq n) (keys m) ≡ is_some (lookup m n)
unfolding lookup keys is_some
keys-lookup [] n = refl
keys-lookup ((k, d) ∷ m) n = ground (arith, keys-lookup m n)

keys-insert :
    (m : EntryMap) (n : Text) (e : IndexEntry) (other : Text)
    → any (text_eq other) (keys (insert m n e)) ≡ (text_eq other n || any (text_eq other) (keys m))
unfolding keys insert
keys-insert [] n e other = refl
keys-insert ((k, d) ∷ m) n e other =
    ground
      (arith, keys-insert m n e other, text_eq_iff other k, text_eq_iff n k, text_eq_iff other n)

pub insert-distinct :
    (m : EntryMap) (n : Text) (e : IndexEntry)
    → distinct (keys m) ≡ true
    → distinct (keys (insert m n e)) ≡ true
unfolding keys insert distinct
insert-distinct [] n e h = refl
insert-distinct ((k, d) ∷ m) n e h =
    ground (arith, insert-distinct m n e, keys-insert m n e k, text_eq_iff k n, text_eq_iff n k)

pub lookup-remove :
    (m : EntryMap) (n other : Text)
    → distinct (keys m) ≡ true
    → lookup (remove m n) other ≡ (if text_eq other n then none else lookup m other)
unfolding lookup remove keys distinct is_some
lookup-remove [] n other h = ground arith
lookup-remove ((k, d) ∷ m) n other h = ground (
  arith,
  lookup-remove m n other,
  keys-lookup m n,
  keys-lookup m other,
  text_eq_iff other k,
  text_eq_iff n k,
  text_eq_iff other n,
)

keys-remove :
    (m : EntryMap) (n other : Text)
    → any (text_eq other) (keys m) ≡ false
    → any (text_eq other) (keys (remove m n)) ≡ false
unfolding keys remove
keys-remove [] n other h = refl
keys-remove ((k, d) ∷ m) n other h = ground (arith, keys-remove m n other)

pub remove-distinct :
    (m : EntryMap) (n : Text) → distinct (keys m) ≡ true → distinct (keys (remove m n)) ≡ true
unfolding keys remove distinct
remove-distinct [] n h = refl
remove-distinct ((k, d) ∷ m) n h = ground (arith, remove-distinct m n, keys-remove m n k)
