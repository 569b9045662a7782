-- ===== src/Core/Recipes/Sorted.antt =====
-- The versions of a package are sorted, and the last one is the latest as a text
-- (`scan` of ribosome-core/src/mrna_index.rs).
use lysine_os.Base.{
  true, false, some, List, [], ◌∷◌, ◌≡◌, subst, ◌↔◌, inl, inr, arith, Text, text_lt, text_lt_total,
  text_lt_trans, text_lt_irrefl, All, All-weaken, All-elem, Elem, Bool-cases,
}
use lysine_os.Core.Recipes.{MrnaEntry, insert_sorted, sort_versions, last}

-- What is below a text is below every text that is not below it.
text_lt-weaken : (y e x : Text) → text_lt y e ≡ true → text_lt x e ≡ false → text_lt y x ≡ true
text_lt-weaken y e x h k = elim (Bool-cases (text_lt y x)) [
  | inl q ↦ q
  | inr q ↦ elim (Bool-cases (text_lt x y)) [
    | inl r ↦ absurd (ground (arith, k, text_lt_trans x y e r h))
    | inr r ↦
        let below : text_lt x e ≡ true =
          subst (λ t. text_lt t e ≡ true) (text_lt_total y x q r) h in
        absurd (ground (arith, k, below))
  ]
]

-- No entry of the list has a lower version.
abbrev pub NoneBelow : MrnaEntry → List MrnaEntry → Type 0
NoneBelow e = All (λ f. text_lt f.version e.version ≡ false)

abbrev pub Sorted : List MrnaEntry → Type 0
Sorted [] = Unit
Sorted (e ∷ es) = NoneBelow e es × Sorted es

All-insert_sorted :
    (P : MrnaEntry → Type 0) (e : MrnaEntry) (es : List MrnaEntry)
    → P e
    → All P es
    → All P (insert_sorted e es)
unfolding insert_sorted
All-insert_sorted P e [] p h = (p, tt)
All-insert_sorted P e (x ∷ xs) p (q, h) = elim (Bool-cases (text_lt x.version e.version)) [
  | inl b ↦ rw (b, insert_sorted) (q, All-insert_sorted P e xs p h)
  | inr b ↦ rw (b, insert_sorted) (p, (q, h))
]

NoneBelow-weaken :
    (e x : MrnaEntry) (es : List MrnaEntry)
    → text_lt x.version e.version ≡ false
    → NoneBelow x es
    → NoneBelow e es
NoneBelow-weaken e x es b =
    All-weaken (λ f. text_lt f.version x.version ≡ false) (λ f. text_lt f.version e.version ≡ false)
      (λ f h. elim (Bool-cases (text_lt f.version e.version)) [
        | inr q ↦ q
        | inl q ↦ absurd (ground (arith, h, text_lt-weaken f.version e.version x.version q b))
      ])
      es

text_lt_asym : (s t : Text) → text_lt s t ≡ true → text_lt t s ≡ false
text_lt_asym s t h = elim (Bool-cases (text_lt t s)) [
  | inr q ↦ q
  | inl q ↦ absurd (ground (arith, text_lt_trans s t s h q, text_lt_irrefl s))
]

insert_sorted-Sorted :
    (e : MrnaEntry) (es : List MrnaEntry) → Sorted es → Sorted (insert_sorted e es)
unfolding insert_sorted
insert_sorted-Sorted e [] h = (tt, tt)
insert_sorted-Sorted e (x ∷ xs) (n, h) = elim (Bool-cases (text_lt x.version e.version)) [
  | inl b ↦
      rw (b, insert_sorted)
        (
          All-insert_sorted (λ f. text_lt f.version x.version ≡ false) e xs
              (text_lt_asym x.version e.version b) n,
          insert_sorted-Sorted e xs h,
        )
  | inr b ↦ rw (b, insert_sorted) ((b, NoneBelow-weaken e x xs b n), (n, h))
]

pub sort_versions-Sorted : (es : List MrnaEntry) → Sorted (sort_versions es)
unfolding sort_versions
sort_versions-Sorted [] = tt
sort_versions-Sorted (e ∷ es) = insert_sorted-Sorted e (sort_versions es) (sort_versions-Sorted es)

Elem-insert_sorted :
    (a e : MrnaEntry) (es : List MrnaEntry) → Elem a (insert_sorted e es) ↔ Elem a (e ∷ es)
unfolding insert_sorted
Elem-insert_sorted a e [] = (λ m. m, λ m. m)
Elem-insert_sorted a e (x ∷ xs) = ground (arith, Elem-insert_sorted a e xs)

pub Elem-sort_versions :
    (a : MrnaEntry) (es : List MrnaEntry) → Elem a (sort_versions es) ↔ Elem a es
unfolding sort_versions
Elem-sort_versions a [] = (λ m. m, λ m. m)
Elem-sort_versions a (e ∷ es) =
    ground (arith, Elem-sort_versions a es, Elem-insert_sorted a e (sort_versions es))

pub last-Elem : (es : List MrnaEntry) (e : MrnaEntry) → last es ≡ some e → Elem e es
unfolding last
last-Elem [] e h = absurd (ground (arith, h))
last-Elem (x ∷ []) e h = ground (arith, h)
last-Elem (x ∷ y ∷ ys) e h = inr (last-Elem (y ∷ ys) e h)

-- No entry of a sorted list is above the last one.
pub last-Sorted :
    (es : List MrnaEntry) (e : MrnaEntry)
    → Sorted es
    → last es ≡ some e
    → All (λ f. text_lt e.version f.version ≡ false) es
unfolding last
last-Sorted [] e h q = tt
last-Sorted (x ∷ []) e h q =
    let same : x ≡ e = ground (arith, q) in
    (subst (λ y. text_lt y.version x.version ≡ false) same (text_lt_irrefl x.version), tt)
last-Sorted (x ∷ y ∷ ys) e (n, h) q = (
  All-elem (λ f. text_lt f.version x.version ≡ false) e (y ∷ ys) n (last-Elem (y ∷ ys) e q),
  last-Sorted (y ∷ ys) e h q,
)
