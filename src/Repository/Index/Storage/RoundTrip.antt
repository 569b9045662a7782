-- ===== src/Repository/Index/Storage/RoundTrip.antt =====
-- An index that is saved is loaded again (`load` and `save` of ribosome-repository/src/index.rs).
use lysine_os.Base.{
  distinct, true, none, some, List, [], ◌∷◌, ◌++◌, ◌≡◌, refl, sym, ap, ◌∙◌, subst, ◌⊎◌, inl, inr,
  arith, Text, text_eq, any, All, Option-cases, Result-cases, ok, trim, is_empty, Lacks,
  Solid-reverse_append, trim-Solid, is_whitespace,
}
use lysine_os.Base.Lines.{unlines, IsLine, lines-unlines, starts_with_char, strip_cr, strip_cr-last}
use lysine_os.Repository.Index.{
  IndexEntry, EntryMap, lookup, is_some, RepositoryIndex, find, list_entries, list_all,
}
use lysine_os.Repository.Index.Laws.{IsIndexed}
use lysine_os.Repository.Index.Operations.{Elem-list_all}
use lysine_os.Repository.Index.Entries.{
  add_all, names, names-list_all, order-add_all, find-add_all, find-add_all_other,
}
use lysine_os.Repository.Index.Storage.{
  Json, written, SaveAnswers, IndexFiles, load_line, load_lines, load, write_lines, store_content,
  save, hash_line, after_write,
}

abbrev pub empty_index : RepositoryIndex
empty_index = record { entries = []; order = [] }

-- serde_json writes the entry as an object on one line, and reads it back.
pub record IsWritten (json : Json) (e : IndexEntry) : Type 0 where
  pub line : Text
  pub inner : Text
  pub printed : json.to_string e ≡ ok line
  pub object : line ≡ b'{' ∷ inner ++ b'}' ∷ []
  pub one_line : Lacks b'\n' line
  pub read_back : json.from_str line ≡ ok e

module _ (json : Json) where
  object-Solid : (inner : Text) → trim (b'{' ∷ inner ++ b'}' ∷ []) ≡ b'{' ∷ inner ++ b'}' ∷ []
  unfolding is_whitespace
  object-Solid inner =
      trim-Solid (b'{' ∷ inner ++ b'}' ∷ []) refl
        (Solid-reverse_append (b'{' ∷ inner) (b'}' ∷ []) refl)

  load_line-IsWritten :
      (index : RepositoryIndex) (e : IndexEntry) (w : IsWritten json e)
      → load_line json index w.line ≡ some (add_all index (e ∷ []))
  unfolding load_line add_all is_empty starts_with_char
  load_line-IsWritten index e w =
      subst (λ l. json.from_str l ≡ ok e → load_line json index l ≡ some (add_all index (e ∷ [])))
        (sym w.object) (λ r. rw (object-Solid w.inner, load_line, r) refl) w.read_back

  load_lines-IsWritten :
      (index : RepositoryIndex) (e : IndexEntry) (w : IsWritten json e) (ts : List Text)
      → load_lines json index (w.line ∷ ts) ≡ load_lines json (add_all index (e ∷ [])) ts
  unfolding load_lines
  load_lines-IsWritten index e w ts = rw (load_line-IsWritten index e w, load_lines) refl

  IsLine-IsWritten : (e : IndexEntry) (w : IsWritten json e) → IsLine w.line
  IsLine-IsWritten e w = (
    w.one_line,
    subst (λ l. strip_cr l ≡ l) (sym w.object) (strip_cr-last (b'{' ∷ w.inner) b'}' refl),
  )

  -- The lines of the entries, and what is loaded from them.
  write_lines-IsWritten :
      (m : EntryMap) (ns : List Text)
      → All (IsWritten json) (list_entries m ns)
      → (ts : List Text) × (write_lines json m ns ≡ ok (unlines ts))
        × All IsLine ts
        × ((index : RepositoryIndex)
            → load_lines json index ts ≡ some (add_all index (list_entries m ns)))
  unfolding write_lines list_entries unlines load_lines add_all
  write_lines-IsWritten m [] h = ([], refl, tt, λ index. refl)
  write_lines-IsWritten m (n ∷ ns) h = elim (Option-cases (lookup m n)) [
    | inl q ↦
        rw (q, write_lines, list_entries)
          (write_lines-IsWritten m ns (subst (All (IsWritten json)) (skipped q) h))
    | inr (e, q) ↦
        let (w, rest) = subst (All (IsWritten json)) (taken e q) h in
        let (ts, printed, are_lines, loads) = write_lines-IsWritten m ns rest in
        rw (q, write_lines, list_entries, w.printed, printed)
          (
            w.line ∷ ts,
            refl,
            (IsLine-IsWritten e w, are_lines),
            λ index. load_lines-IsWritten index e w ts ∙ loads (add_all index (e ∷ [])),
          )
  ]
    where
      skipped : lookup m n ≡ none → list_entries m (n ∷ ns) ≡ list_entries m ns
      skipped q = rw (q, list_entries) refl

      taken :
          (e : IndexEntry) → lookup m n ≡ some e → list_entries m (n ∷ ns) ≡ e ∷ list_entries m ns
      taken e q = rw (q, list_entries) refl

  -- What is loaded from the content that is written.
  load-write_lines :
      (index : RepositoryIndex)
      → All (IsWritten json) (list_all index)
      → (content : Text) × (write_lines json index.entries index.order ≡ ok content)
        × (load json (some content) ≡ ok (some (add_all empty_index (list_all index))))
  unfolding load list_all
  load-write_lines index h =
      let (ts, printed, are_lines, loads) = write_lines-IsWritten index.entries index.order h in
      (unlines ts, printed, rw (lines-unlines ts are_lines, load) (ap ok (loads empty_index)))

  -- The entries of an index that is in order, added to an empty one, give an equal index.
  find-rebuilt :
      (index : RepositoryIndex)
      → IsIndexed index
      → ((add_all empty_index (list_all index)).order ≡ index.order)
        × ((n : Text) → find (add_all empty_index (list_all index)) n ≡ find index n)
  unfolding find is_some lookup
  find-rebuilt index h =
      let es = names-list_all index h in
      let d : distinct (names (list_all index)) ≡ true =
        subst (λ o. distinct o ≡ true) (sym es) h.names_distinct in
      (
        order-add_all empty_index (list_all index) d (λ n m. refl) ∙ es,
        λ n. elim (Option-cases (lookup index.entries n)) [
          | inl q ↦
              find-add_all_other empty_index (list_all index) n
                (ap (any (text_eq n)) es ∙ h.listed n ∙ ap is_some q)
              ∙ sym q
          | inr (e, q) ↦
              let found : find index e.name ≡ some e =
                subst (λ k. find index k ≡ some e) (sym (h.keyed n e q)) q in
              subst (λ k. find (add_all empty_index (list_all index)) k ≡ find index k)
                (h.keyed n e q)
                (find-add_all empty_index (list_all index) d (λ k m. refl) e
                    ((Elem-list_all index h e).1 found)
                  ∙ sym found)
        ],
      )

  -- If an index is in order, serde_json writes its entries as objects on one line and reads them
  -- back, and no call of the system fails, then `save` succeeds, and what `load` reads afterwards
  -- lists the same names in the same order, and finds the same entries.
  pub load-save :
      (files : IndexFiles) (index : RepositoryIndex)
      → IsIndexed index
      → All (IsWritten json) (list_all index)
      → let answers : SaveAnswers = record {
        write_tmp = written;
        can_rename = true;
        write_hash = written;
      } in
        ((save json answers files index).1 ≡ ok tt)
        × ((loaded : RepositoryIndex) × (load json (save json answers files index).0.db
              ≡ ok (some loaded))
            × (loaded.order ≡ index.order)
            × ((n : Text) → find loaded n ≡ find index n))
  unfolding save store_content
  load-save files index h w =
      let (content, printed, loads) = load-write_lines index w in
      let (order, finds) = find-rebuilt index h in
      rw (printed, save) (refl, (add_all empty_index (list_all index), loads, order, finds))

  store_content_atomic :
      (answers : SaveAnswers) (files : IndexFiles) (content : Text)
      → let (after, outcome) = store_content json answers files content in
        ((after.db ≡ files.db) ⊎ (after.db ≡ some content))
        × (outcome ≡ ok tt
            → (after.db ≡ some content)
              × (after.tmp ≡ none)
              × (after.hash ≡ some (hash_line json content)))
  unfolding store_content after_write
  store_content_atomic answers files content = ground arith

  -- However a save goes, the index is either the old one or the complete new one: it is the new
  -- one, and no temporary file is left, if the save succeeds, and then the hash file holds its hash.
  pub save_atomic :
      (answers : SaveAnswers) (files : IndexFiles) (index : RepositoryIndex)
      → let after = (save json answers files index).0 in
        ((after.db ≡ files.db)
          ⊎ ((content : Text) × (write_lines json index.entries index.order ≡ ok content)
              × (after.db ≡ some content)))
        × ((save json answers files index).1 ≡ ok tt
            → (content : Text) × (write_lines json index.entries index.order ≡ ok content)
              × (after.db ≡ some content)
              × (after.tmp ≡ none)
              × (after.hash ≡ some (hash_line json content)))
  unfolding save
  save_atomic answers files index =
      elim (Result-cases (write_lines json index.entries index.order)) [
        | inr (e, q) ↦ rw (q, save) (inl refl, λ h. absurd (ground (arith, h)))
        | inl (content, q) ↦
            let (kept, stored) = store_content_atomic answers files content in
            rw (q, save)
              (
                elim kept [ inl same ↦ inl same | inr new ↦ inr (content, refl, new) ],
                λ h. let (db, tmp, hash) = stored h in (content, refl, db, tmp, hash),
              )
      ]
