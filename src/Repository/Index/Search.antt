-- ===== src/Repository/Index/Search.antt =====
-- What `search` finds (ribosome-repository/src/index.rs): the test of `str::contains` against what it
-- is for a text to stand in another.
use lysine_os.Base.{
  Bool-cases, ◌≢◌, true, none, some, [], ◌∷◌, ◌++◌, ◌≡◌, sym, ap, ◌∙◌, ◌↔◌, ◌⊎◌, inl, inr, arith,
  Text, strip_prefix, strip_prefix-append, find_text, Elem, Elem-retain, Option-cases,
}
use lysine_os.Repository.Index.{
  IndexEntry, RepositoryIndex, find, list_all, contains_text, is_match, search,
}
use lysine_os.Repository.Index.Laws.{IsIndexed}
use lysine_os.Repository.Index.Operations.{Elem-list_all}

-- The word stands somewhere in the text.
abbrev pub Holds : Text → Text → Type 0
Holds text word = (before : Text) × (after : Text) × (text ≡ before ++ (word ++ after))

strip_prefix-some : (p s r : Text) → strip_prefix p s ≡ some r → s ≡ p ++ r
unfolding strip_prefix
strip_prefix-some [] s r e = ground (arith, e)
strip_prefix-some (a ∷ p) [] r e = absurd (ground (arith, e))
strip_prefix-some (a ∷ p) (c ∷ s) r e = ground (arith, e, strip_prefix-some p s r)

find_text-some :
    (p s before after : Text) → find_text p s ≡ some (before, after) → s ≡ before ++ (p ++ after)
unfolding find_text
find_text-some p [] before after e = elim (Option-cases (strip_prefix p [])) [
  | inl q ↦ absurd (ground (arith, e, q))
  | inr (r, q) ↦ ground (arith, e, q, strip_prefix-some p [] r q)
]
find_text-some p (c ∷ s) before after e = elim (Option-cases (strip_prefix p (c ∷ s))) [
  | inr (r, q) ↦ ground (arith, e, q, strip_prefix-some p (c ∷ s) r q)
  | inl q ↦ elim (Option-cases (find_text p s)) [
    | inl n ↦ absurd (ground (arith, e, q, n))
    | inr ((a, b), n) ↦ ground (arith, e, q, n, find_text-some p s a b n)
  ]
]

-- A word that stands in a text is found.
find_text-Holds : (p before after : Text) → find_text p (before ++ (p ++ after)) ≢ none
unfolding find_text
find_text-Holds p [] after e = first (p ++ after) (strip_prefix-append p after) e
  where
    first : (s : Text) → strip_prefix p s ≡ some after → find_text p s ≢ none
    first [] q h = ground (arith, q, h)
    first (c ∷ s) q h = ground (arith, q, h)
find_text-Holds p (c ∷ before) after e =
    elim (Option-cases (strip_prefix p (c ∷ before ++ (p ++ after)))) [
      | inr (r, q) ↦ ground (arith, e, q)
      | inl q ↦ elim (Option-cases (find_text p (before ++ (p ++ after)))) [
        | inl n ↦ find_text-Holds p before after n
        | inr ((a, b), n) ↦ ground (arith, e, q, n)
      ]
    ]

-- `contains` says whether the word stands in the text.
pub contains_text-Holds : (text word : Text) → (contains_text text word ≡ true) ↔ Holds text word
unfolding contains_text
contains_text-Holds text word = (
  (λ h. elim (Option-cases (find_text word text)) [
    | inl q ↦ absurd (ground (arith, h, q))
    | inr ((a, b), q) ↦ (a, b, find_text-some word text a b q)
  ]),
  (λ (a, b, e). elim (Option-cases (find_text word text)) [
    | inl q ↦ absurd (find_text-Holds word a b (ap (find_text word) (sym e) ∙ q))
    | inr (r, q) ↦ ground (arith, q)
  ]),
)

is_match-Holds :
    (to_lowercase : Text → Text) (kw : Text) (e : IndexEntry)
    → (is_match to_lowercase kw e ≡ true)
      ↔ (Holds (to_lowercase e.name) kw ⊎ Holds (to_lowercase e.description) kw)
unfolding is_match
is_match-Holds to_lowercase kw e =
    let (n0, n1) = contains_text-Holds (to_lowercase e.name) kw in
    let (d0, d1) = contains_text-Holds (to_lowercase e.description) kw in
    (
      (λ h. elim (Bool-cases (contains_text (to_lowercase e.name) kw)) [
        | inl q ↦ inl (n0 q)
        | inr q ↦ inr (d0 (ground (arith, h, q)))
      ]),
      (λ h. elim h [ inl k ↦ ground (arith, n1 k) | inr k ↦ ground (arith, d1 k) ]),
    )

-- `search` returns exactly the entries that are found under their names and in whose name or
-- description, as `to_lowercase` gives them, the keyword stands, as `to_lowercase` gives it; the
-- index is in order.
pub Elem-search :
    (to_lowercase : Text → Text) (index : RepositoryIndex) (keyword : Text)
    → IsIndexed index
    → (e : IndexEntry)
    → Elem e (search to_lowercase index keyword) ↔ (
        (find index e.name ≡ some e)
        × (Holds (to_lowercase e.name) (to_lowercase keyword)
            ⊎ Holds (to_lowercase e.description) (to_lowercase keyword)))
unfolding search
Elem-search to_lowercase index keyword h e =
    let (m0, m1) = is_match-Holds to_lowercase (to_lowercase keyword) e in
    let (r0, r1) = Elem-retain (is_match to_lowercase (to_lowercase keyword)) e (list_all index) in
    let (l0, l1) = Elem-list_all index h e in
    (
      (λ k. let (listed, matches) = r0 k in (l0 listed, m0 matches)),
      (λ (found, matches). r1 (l1 found, m1 matches)),
    )
