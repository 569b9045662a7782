-- ===== src/Repository/Index/Operations.antt =====
-- The operations on the index keep it in order, and find what was added
-- (ribosome-repository/src/index.rs).
use lysine_os.Base.{
  distinct, any-push, push-distinct, any-without, without-distinct, true, false, ◌||◌, ◌&&◌, none,
  some, List, [], ◌∷◌, ◌≡◌, refl, ◌∙◌, ◌↔◌, inl, inr, arith, Text, text_eq, text_eq_iff,
  text_eq_refl, if◌then◌else◌, any, Elem, Option-cases, Bool-cases, ok, leb,
}
use lysine_os.Parser.Version.{Version, parse, version_lt, version_eq}
use lysine_os.Repository.Index.{
  IndexEntry, EntryMap, lookup, is_some, RepositoryIndex, should_replace, should_insert, add_entry,
  remove_entry, find, list_entries, list_all,
}
use lysine_os.Repository.Index.Laws.{
  keys, IsIndexed, lookup-insert, insert-distinct, lookup-remove, remove-distinct,
}

pub empty-IsIndexed : IsIndexed (record { entries = []; order = [] })
unfolding lookup is_some distinct keys
empty-IsIndexed = record {
  keyed = λ n e h. absurd (ground arith);
  listed = λ n. refl;
  names_distinct = refl;
  keys_distinct = refl;
}

-- Adding an entry keeps the index in order: an entry stands under its own name, the list of names
-- holds exactly the names that are found, and no name is repeated.
pub add_entry-IsIndexed :
    (index : RepositoryIndex) (entry : IndexEntry)
    → IsIndexed index
    → IsIndexed (add_entry index entry)
unfolding add_entry is_some
add_entry-IsIndexed index entry h = elim (Bool-cases (should_insert index entry)) [
  | inr e ↦ rw (e, add_entry) h
  | inl e ↦
      rw (e, add_entry)
        (record {
          keyed = λ n d q. ground (
            arith,
            lookup-insert index.entries entry.name entry n,
            h.keyed n d,
            text_eq_iff n entry.name,
          );
          listed = λ n. ground (
            arith,
            lookup-insert index.entries entry.name entry n,
            h.listed n,
            any-push index.order entry.name n,
            text_eq_iff n entry.name,
          );
          names_distinct =
              ground (
                arith,
                h.names_distinct,
                push-distinct index.order entry.name,
                h.listed entry.name,
              );
          keys_distinct = insert-distinct index.entries entry.name entry h.keys_distinct;
        })
]

-- If the index is in order, removing an entry keeps it so; afterwards the removed name is not
-- found, and every other name as before.
pub find-remove_entry :
    (index : RepositoryIndex) (name : Text)
    → IsIndexed index
    → IsIndexed (remove_entry index name).0
      × ((other : Text)
          → find (remove_entry index name).0 other
            ≡ (if text_eq other name then none else find index other))
unfolding remove_entry find is_some
find-remove_entry index name h = (
  record {
    keyed =
        λ n d q. ground (arith, lookup-remove index.entries name n h.keys_distinct, h.keyed n d);
    listed = λ n. ground (
      arith,
      lookup-remove index.entries name n h.keys_distinct,
      h.listed n,
      any-without index.order name n,
    );
    names_distinct = without-distinct index.order name h.names_distinct;
    keys_distinct = remove-distinct index.entries name h.keys_distinct;
  },
  λ other. lookup-remove index.entries name other h.keys_distinct,
)

-- After an entry is added, every other name is found as before; under the entry's own name is the
-- entry if there was none, and otherwise the entry or the old one, as `should_replace` decides.
pub find-add_entry :
    (index : RepositoryIndex) (entry : IndexEntry)
    → ((other : Text)
        → text_eq other entry.name ≡ false
        → find (add_entry index entry) other ≡ find index other)
      × (find index entry.name ≡ none → find (add_entry index entry) entry.name ≡ some entry)
      × ((old : IndexEntry)
          → find index entry.name ≡ some old
          → find (add_entry index entry) entry.name
            ≡ some (if should_replace entry old then entry else old))
unfolding add_entry find should_insert
find-add_entry index entry = (
  (λ other ne. ground (arith, lookup-insert index.entries entry.name entry other)),
  (λ e.
      ground
        (arith, lookup-insert index.entries entry.name entry entry.name, text_eq_refl entry.name)),
  (λ old e.
      ground
        (arith, lookup-insert index.entries entry.name entry entry.name, text_eq_refl entry.name)),
)

-- An entry whose version parses replaces an entry of the same name whose version parses, if its
-- version is later in the order of versions, or if the versions are equal and its release is not
-- lower.
pub add_entry_newer :
    (index : RepositoryIndex) (entry old : IndexEntry) (n o : Version)
    → find index entry.name ≡ some old
    → parse entry.version ≡ ok n
    → parse old.version ≡ ok o
    → (version_lt o n || version_eq n o && leb old.release entry.release) ≡ true
    → find (add_entry index entry) entry.name ≡ some entry
unfolding should_replace
add_entry_newer index entry old n o found new_ver old_ver later =
    (find-add_entry index entry).2 old found
    ∙ (rw (new_ver, old_ver, should_replace) (ground (arith, later)))

Elem-list_entries :
    (m : EntryMap)
    → ((n : Text) (e : IndexEntry) → lookup m n ≡ some e → e.name ≡ n)
    → (ns : List Text) (e : IndexEntry)
    → Elem e (list_entries m ns) ↔ ((any (text_eq e.name) ns ≡ true) × (lookup m e.name ≡ some e))
unfolding list_entries
Elem-list_entries m keyed [] e = ((λ h. absurd h), (λ (h, _). absurd (ground (arith, h))))
Elem-list_entries m keyed (n ∷ ns) e = elim (Option-cases (lookup m n)) [
  | inl q ↦
      rw (q, list_entries) (ground (arith, Elem-list_entries m keyed ns e, text_eq_iff e.name n, q))
  | inr (d, q) ↦
      rw (q, list_entries)
        (ground (arith, Elem-list_entries m keyed ns e, text_eq_iff e.name n, q, keyed n d q))
]

-- `list_all` lists exactly the entries that are found under their names, if the index is in order.
pub Elem-list_all :
    (index : RepositoryIndex)
    → IsIndexed index
    → (e : IndexEntry) → Elem e (list_all index) ↔ (find index e.name ≡ some e)
unfolding list_all find is_some
Elem-list_all index h e =
    ground (arith, Elem-list_entries index.entries h.keyed index.order e, h.listed e.name)
