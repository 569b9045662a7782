-- ===== src/Deps/Graph/Closure.antt =====
-- Reverse dependencies, and which packages can be removed (ribosome-deps/src/graph.rs).
use lysine_os.Base.{
  ℕ, suc, ◌<◌, Bool, true, false, ◌&&◌, not, some, List, [], ◌∷◌, ◌≡◌, ◌≢◌, refl, sym, ◌∙◌, ap,
  subst, inl, inr, ◌↔◌, arith, Text, text_eq, text_eq_iff, text_eq_refl, Bool-cases, ◌==◌, any,
  retain, map,
}
use lysine_os.Deps.Search.{is_member, search_unmarked}
use lysine_os.Deps.Search.Correct.{Reach, here, step, search_unmarked_correct}
use lysine_os.Deps.Graph.{
  DiGraph, DependencyGraph, find_index, has_text, nodes, reverse_dependencies, is_blocked,
  removable,
}
use lysine_os.Deps.Graph.Consistent.{IsConsistent}

pub is_member-retain :
    (q : ℕ → Bool) (js : List ℕ) (j : ℕ) → is_member (retain q js) j ≡ (is_member js j && q j)
unfolding is_member retain
is_member-retain q [] j = refl
is_member-retain q (k ∷ js) j = ground (arith, is_member-retain q js j)

pub has_text-map :
    (w : ℕ → Text) (js : List ℕ) (j : ℕ) → is_member js j ≡ true → has_text (map w js) (w j) ≡ true
unfolding is_member has_text
has_text-map w [] j h = cc
has_text-map w (k ∷ js) j h = ground (arith, has_text-map w js j, text_eq_refl (w j))

pub map-has_text :
    (w : ℕ → Text) (js : List ℕ) (t : Text)
    → has_text (map w js) t ≡ true
    → (j : ℕ) × (is_member js j ≡ true) × (w j ≡ t)
unfolding is_member has_text
map-has_text w [] t h = absurd (ground arith)
map-has_text w (k ∷ js) t h = elim (Bool-cases (text_eq t (w k))) [
  | inl e ↦ (k, ground arith, ground (arith, text_eq_iff t (w k)))
  | inr e ↦ let (j, m, q) = map-has_text w js t (ground arith) in (j, ground arith, q)
]

has_text-retain :
    (q : Text → Bool) (ts : List Text) (t : Text)
    → has_text (retain q ts) t ≡ true
    → (has_text ts t ≡ true) × (q t ≡ true)
unfolding has_text retain
has_text-retain q [] t h = absurd (ground arith)
has_text-retain q (u ∷ ts) t h = ground (arith, has_text-retain q ts t, text_eq_iff t u)

any-false :
    (f : Text → Bool) (ts : List Text) (t : Text)
    → any f ts ≡ false
    → has_text ts t ≡ true
    → f t ≡ false
unfolding has_text
any-false f [] t h m = absurd (ground arith)
any-false f (u ∷ ts) t h m = ground (arith, any-false f ts t, text_eq_iff t u)

pub same_index : (k j : ℕ) → some k ≡ some j → k ≡ j
same_index k j e = cc

module _ (P : DiGraph) (g : DependencyGraph P) where
  open P use {node_count, weight, contains_edge}

  -- The node depends on `target`, directly or through others.
  pub data DependsOn (target : ℕ) : ℕ → Type 0 where
    direct : {i : ℕ} → contains_edge g.graph i target ≡ true → DependsOn target i
    through : {i j : ℕ} → DependsOn target j → contains_edge g.graph i j ≡ true → DependsOn target i

  Reach-DependsOn :
      (target : ℕ) {i : ℕ}
      → Reach (P.incoming g.graph) (P.incoming g.graph target) i
      → DependsOn target i
  Reach-DependsOn target (here {v} m) = direct (sym (P.is_member-incoming g.graph v target) ∙ m)
  Reach-DependsOn target (step {u} {v} r m) =
      through (Reach-DependsOn target r) (sym (P.is_member-incoming g.graph v u) ∙ m)

  DependsOn-Reach :
      (target : ℕ) {i : ℕ}
      → DependsOn target i
      → Reach (P.incoming g.graph) (P.incoming g.graph target) i
  DependsOn-Reach target (direct {i} e) = here (P.is_member-incoming g.graph i target ∙ e)
  DependsOn-Reach target (through {i} {j} d e) =
      step (DependsOn-Reach target d) (P.is_member-incoming g.graph i j ∙ e)

  module _ (consistent : IsConsistent P g) (name : Text) (i : ℕ)
      (found : find_index g.index name ≡ some i) where
    bounded : (u v : ℕ) → is_member (P.incoming g.graph u) v ≡ true → v < node_count g.graph
    bounded u v m = (consistent.inside v u (sym (P.is_member-incoming g.graph v u) ∙ m)).0

    DependsOn-bound : {j : ℕ} → DependsOn i j → j < node_count g.graph
    DependsOn-bound (direct {i = j} e) = (consistent.inside j i e).0
    DependsOn-bound (through {i = j} {j = k} d e) = (consistent.inside j k e).0

    above : List ℕ
    above = nodes (search_unmarked (P.incoming g.graph) (suc (node_count g.graph)) i)

    above-DependsOn : (j : ℕ) → (is_member above j ≡ true) ↔ DependsOn i j
    above-DependsOn j =
        let (vs, e, exact) =
          search_unmarked_correct (P.incoming g.graph) i (node_count g.graph) bounded in
        let same = visited vs e in
        (
          (λ m. Reach-DependsOn i ((exact j).0 (rw (← same) m))),
          (λ d. rw same ((exact j).1 (DependsOn-Reach i d))),
        )
      where
        visited :
            (vs : List ℕ)
            → search_unmarked (P.incoming g.graph) (suc (node_count g.graph)) i ≡ some vs
            → above ≡ vs
        visited vs e = unfold above nodes in rw (e, nodes) refl

    others : reverse_dependencies P g name ≡ map (weight g.graph) (retain (λ j. not (j == i)) above)
    others = unfold reverse_dependencies above in rw (found, reverse_dependencies) refl

    -- If the index agrees with the graph, the reverse dependencies of a package are exactly the other
    -- packages that depend on it, directly or through others.
    pub reverse_dependencies_correct :
        (other : Text) (j : ℕ)
        → find_index g.index other ≡ some j
        → (has_text (reverse_dependencies P g name) other ≡ true) ↔ ((j ≢ i) × DependsOn i j)
    reverse_dependencies_correct other j at_j = (only, all)
      where
        only : has_text (reverse_dependencies P g name) other ≡ true → (j ≢ i) × DependsOn i j
        only m =
            let (k, in_kept, same) = map-has_text (weight g.graph) _ other (rw others at m) in
            let both = sym (is_member-retain (λ x. not (x == i)) above k) ∙ in_kept in
            let d = (above-DependsOn k).0 (ground (arith, both)) in
            let at_k =
              subst (λ t. find_index g.index t ≡ some k) same
                (consistent.listed k (DependsOn-bound d)) in
            let eq = same_index k j (sym at_k ∙ at_j) in
            ((λ q. ground (arith, both, eq, q)), subst (DependsOn i) eq d)

        all : (j ≢ i) × DependsOn i j → has_text (reverse_dependencies P g name) other ≡ true
        all (ne, d) =
            let kept = is_member-retain (λ x. not (x == i)) above j in
            let seen = (above-DependsOn j).1 d in
            let there =
              has_text-map (weight g.graph) (retain (λ x. not (x == i)) above) j
                (ground (arith, kept, seen, ne)) in
            rw (others, ← (consistent.known other j at_j).1) there

  removable-kept :
      (names installed : List Text) (name : Text)
      → has_text (removable P g names installed) name ≡ true
      → (has_text names name ≡ true)
        × (any
              (λ dep. has_text installed dep && not (has_text names dep))
              (reverse_dependencies P g name)
            ≡ false)
  unfolding removable is_blocked
  removable-kept names installed name kept =
      let (candidate, free) = has_text-retain _ names name kept in (candidate, ground (arith, free))

  -- A package that `removable` returns can be removed safely, if the index agrees with the graph:
  -- every installed package that depends on it, directly or through others, is itself among the
  -- candidates.
  pub removable_safe :
      IsConsistent P g
      → (names installed : List Text) (name dependent : Text) (i j : ℕ)
      → find_index g.index name ≡ some i
      → find_index g.index dependent ≡ some j
      → has_text (removable P g names installed) name ≡ true
      → DependsOn i j
      → has_text installed dependent ≡ true
      → has_text names dependent ≡ true
  removable_safe consistent names installed name dependent i j at_i at_j kept d there =
      let (candidate, free) = removable-kept names installed name kept in
      elim (Bool-cases (j == i)) [
        | inl e ↦ subst (λ t. has_text names t ≡ true) (same_name (ground (arith, e))) candidate
        | inr ne ↦
            let rev =
              (reverse_dependencies_correct consistent name i at_i dependent j at_j).1
                ((λ q. ground (arith, ne, q)), d) in
            ground (arith, any-false _ (reverse_dependencies P g name) dependent free rev, there)
      ]
    where
      same_name : j ≡ i → name ≡ dependent
      same_name e =
          sym (consistent.known name i at_i).1
          ∙ ap (weight g.graph) (sym e)
          ∙ (consistent.known dependent j at_j).1
