-- ===== src/Repository/Index/Entries.antt =====
-- What an index holds after several entries are added to it (ribosome-repository/src/index.rs).
use lysine_os.Base.{
  distinct, true, false, none, some, List, [], ◌∷◌, ◌++◌, ◌≡◌, refl, sym, ap, ◌∙◌, subst, inl, inr,
  arith, Text, text_eq, text_eq_iff, text_eq_refl, any, Elem, append_assoc, Option-cases,
  Bool-cases, append-nil,
}
use lysine_os.Repository.Index.{
  IndexEntry, EntryMap, lookup, is_some, RepositoryIndex, should_insert, add_entry, find,
  list_entries, list_all,
}
use lysine_os.Repository.Index.Laws.{IsIndexed}
use lysine_os.Repository.Index.Operations.{find-add_entry, add_entry-IsIndexed}

-- The loop of `load` over lines that are all entries.
unfoldable pub add_all : RepositoryIndex → List IndexEntry → RepositoryIndex
add_all index [] = index
add_all index (e ∷ es) = add_all (add_entry index e) es

unfoldable pub names : List IndexEntry → List Text
names [] = []
names (e ∷ es) = e.name ∷ names es

pub add_all-IsIndexed :
    (index : RepositoryIndex) (es : List IndexEntry)
    → IsIndexed index
    → IsIndexed (add_all index es)
unfolding add_all
add_all-IsIndexed index [] h = h
add_all-IsIndexed index (e ∷ es) h =
    add_all-IsIndexed (add_entry index e) es (add_entry-IsIndexed index e h)

-- Names that are not added are found as before.
pub find-add_all_other :
    (index : RepositoryIndex) (es : List IndexEntry) (n : Text)
    → any (text_eq n) (names es) ≡ false
    → find (add_all index es) n ≡ find index n
unfolding add_all names
find-add_all_other index [] n h = refl
find-add_all_other index (e ∷ es) n h =
    find-add_all_other (add_entry index e) es n (ground (arith, h))
    ∙ (find-add_entry index e).0 n (ground (arith, h))

order-add_entry :
    (index : RepositoryIndex) (e : IndexEntry)
    → find index e.name ≡ none
    → (add_entry index e).order ≡ index.order ++ e.name ∷ []
unfolding add_entry should_insert find is_some
order-add_entry index e h = ground (arith, h)

abbrev pub Fresh : RepositoryIndex → List IndexEntry → Type 0
Fresh index es = (n : Text) → any (text_eq n) (names es) ≡ true → find index n ≡ none

pub Fresh-next :
    (index : RepositoryIndex) (e : IndexEntry) (es : List IndexEntry)
    → distinct (names (e ∷ es)) ≡ true
    → Fresh index (e ∷ es)
    → Fresh (add_entry index e) es
unfolding names distinct
Fresh-next index e es d f n m = elim (Bool-cases (text_eq n e.name)) [
  | inl q ↦
      let m' : any (text_eq e.name) (names es) ≡ true =
        subst (λ k. any (text_eq k) (names es) ≡ true) ((text_eq_iff n e.name).0 q) m in
      absurd (ground (arith, d, m'))
  | inr q ↦
      let listed : any (text_eq n) (names (e ∷ es)) ≡ true = ground (arith, m) in
      (find-add_entry index e).0 n q ∙ f n listed
]

pub order-add_all :
    (index : RepositoryIndex) (es : List IndexEntry)
    → distinct (names es) ≡ true
    → Fresh index es
    → (add_all index es).order ≡ index.order ++ names es
unfolding add_all names distinct
order-add_all index [] d f = sym (append-nil index.order)
order-add_all index (e ∷ es) d f =
    order-add_all (add_entry index e) es (ground (arith, d)) (Fresh-next index e es d f)
    ∙ ap (λ o. o ++ names es)
        (order-add_entry index e (f e.name (ground (arith, text_eq_refl e.name))))
    ∙ append_assoc index.order (e.name ∷ []) (names es)

pub find-add_all :
    (index : RepositoryIndex) (es : List IndexEntry)
    → distinct (names es) ≡ true
    → Fresh index es
    → (e : IndexEntry) → Elem e es
    → find (add_all index es) e.name ≡ some e
unfolding add_all names distinct
find-add_all index [] d f e m = absurd m
find-add_all index (x ∷ xs) d f e (inl q) =
    subst (λ y. find (add_all (add_entry index x) xs) y.name ≡ some y) (sym q)
      (find-add_all_other (add_entry index x) xs x.name (ground (arith, d))
        ∙ (find-add_entry index x).1 (f x.name (ground (arith, text_eq_refl x.name))))
find-add_all index (x ∷ xs) d f e (inr m) =
    find-add_all (add_entry index x) xs (ground (arith, d)) (Fresh-next index x xs d f) e m

-- The entries of an index that is in order, under their names.
names-list_entries :
    (m : EntryMap)
    → ((n : Text) (e : IndexEntry) → lookup m n ≡ some e → e.name ≡ n)
    → (ns : List Text) → ((n : Text) → any (text_eq n) ns ≡ true → is_some (lookup m n) ≡ true)
    → names (list_entries m ns) ≡ ns
unfolding list_entries names is_some
names-list_entries m keyed [] found = refl
names-list_entries m keyed (n ∷ ns) found = elim (Option-cases (lookup m n)) [
  | inl q ↦ absurd (ground (arith, found n, text_eq_refl n, q))
  | inr (e, q) ↦
      rw (q, list_entries, keyed n e q)
        (ap (λ r. n ∷ r) (names-list_entries m keyed ns (λ k h. found k (ground (arith, h)))))
]

pub names-list_all :
    (index : RepositoryIndex) → IsIndexed index → names (list_all index) ≡ index.order
unfolding list_all
names-list_all index h =
    names-list_entries index.entries h.keyed index.order (λ n m. sym (h.listed n) ∙ m)
