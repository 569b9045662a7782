-- ===== src/Deps/Graph/BuildOrder.antt =====
-- The build order of a package (ribosome-deps/src/graph.rs).
use lysine_os.Base.{
  ℕ, ◌<◌, Bool, true, false, ◌&&◌, ◌||◌, some, List, [], ◌∷◌, ◌≡◌, refl, sym, ◌∙◌, subst, ◌⊎◌, inl,
  inr, ◌↔◌, arith, Text, text_eq, text_eq_refl, ◌==◌, retain, map, ok,
}
use mathlib.Core.List.{reverse, reverse_aux}
use lysine_os.Deps.Search.{is_member, search}
use lysine_os.Deps.Search.Correct.{Reach, here, step, search_correct, is_member-one}
use lysine_os.Deps.Graph.{
  DiGraph, DependencyGraph, find_index, has_text, nodes, sorted_indices, build_order,
}
use lysine_os.Deps.Graph.Consistent.{IsConsistent}
use lysine_os.Deps.Graph.Closure.{
  DependsOn, direct, through, is_member-retain, has_text-map, map-has_text, same_index,
}

-- An occurrence of the first stands before one of the second.
unfoldable pub precedes : List ℕ → ℕ → ℕ → Bool
precedes [] i j = false
precedes (k ∷ ks) i j = (i == k && is_member ks j) || precedes ks i j

-- The same for names.
unfoldable pub comes_before : List Text → Text → Text → Bool
comes_before [] s t = false
comes_before (u ∷ us) s t = (text_eq s u && has_text us t) || comes_before us s t

is_member-reverse_aux :
    (ks acc : List ℕ) (i : ℕ)
    → is_member (reverse_aux ks acc) i ≡ (is_member ks i || is_member acc i)
unfolding is_member
is_member-reverse_aux [] acc i = refl
is_member-reverse_aux (k ∷ ks) acc i = ground (arith, is_member-reverse_aux ks (k ∷ acc) i)

pub is_member-reverse : (ks : List ℕ) (i : ℕ) → is_member (reverse ks) i ≡ is_member ks i
unfolding is_member
is_member-reverse ks i = ground (arith, is_member-reverse_aux ks [] i)

precedes-reverse_aux :
    (ks acc : List ℕ) (i j : ℕ)
    → (precedes ks i j || (is_member ks j && is_member acc i || precedes acc j i)) ≡ true
    → precedes (reverse_aux ks acc) j i ≡ true
unfolding precedes is_member
precedes-reverse_aux [] acc i j h = ground arith
precedes-reverse_aux (k ∷ ks) acc i j h = ground (arith, precedes-reverse_aux ks (k ∷ acc) i j)

precedes-reverse :
    (ks : List ℕ) (i j : ℕ) → precedes ks i j ≡ true → precedes (reverse ks) j i ≡ true
precedes-reverse ks i j h = precedes-reverse_aux ks [] i j (ground (arith, h))

precedes-retain :
    (q : ℕ → Bool) (ks : List ℕ) (i j : ℕ)
    → q i ≡ true
    → q j ≡ true
    → precedes ks i j ≡ true
    → precedes (retain q ks) i j ≡ true
unfolding precedes is_member retain
precedes-retain q [] i j a b h = absurd (ground arith)
precedes-retain q (k ∷ ks) i j a b h =
    ground (arith, precedes-retain q ks i j, is_member-retain q ks j)

comes_before-map :
    (w : ℕ → Text) (ks : List ℕ) (i j : ℕ)
    → precedes ks i j ≡ true
    → comes_before (map w ks) (w i) (w j) ≡ true
unfolding precedes comes_before is_member
comes_before-map w [] i j h = absurd (ground arith)
comes_before-map w (k ∷ ks) i j h =
    ground (arith, comes_before-map w ks i j, has_text-map w ks j, text_eq_refl (w i))

module _ (P : DiGraph) (g : DependencyGraph P) where
  open P use {node_count, weight, contains_edge}

  -- What `toposort` documents of the list that it returns.
  pub record IsTopological (order : List ℕ) : Type 0 where
    pub complete : (i : ℕ) → i < node_count g.graph → is_member order i ≡ true
    pub sorted : (a b : ℕ) → contains_edge g.graph a b ≡ true → precedes order a b ≡ true

  Reach-from :
      {i k j : ℕ}
      → contains_edge g.graph i k ≡ true
      → Reach (P.outgoing g.graph) (k ∷ []) j
      → Reach (P.outgoing g.graph) (i ∷ []) j
  Reach-from {i} {k} e (here {v} m) = step {u = i} (here (one i)) (
      P.is_member-outgoing g.graph i v
      ∙ subst (λ x. contains_edge g.graph i x ≡ true) (sym (is_member-one k v m)) e)
    where
      one : (x : ℕ) → is_member (x ∷ []) x ≡ true
      one x = unfold is_member in ground arith
  Reach-from e (step r m) = step (Reach-from e r) m

  DependsOn-Reach : {j i : ℕ} → DependsOn P g j i → Reach (P.outgoing g.graph) (i ∷ []) j
  DependsOn-Reach {j = j} (direct {i = i} e) =
      step {u = i} (here (one i)) (P.is_member-outgoing g.graph i j ∙ e)
    where
      one : (x : ℕ) → is_member (x ∷ []) x ≡ true
      one x = unfold is_member in ground arith
  DependsOn-Reach (through d e) = Reach-from e (DependsOn-Reach d)

  DependsOn-extend :
      {k j i : ℕ} → DependsOn P g k i → contains_edge g.graph k j ≡ true → DependsOn P g j i
  DependsOn-extend (direct e) last = through (direct last) e
  DependsOn-extend (through d e) last = through (DependsOn-extend d last) e

  Reach-DependsOn : {i j : ℕ} → Reach (P.outgoing g.graph) (i ∷ []) j → (j ≡ i) ⊎ DependsOn P g j i
  Reach-DependsOn {i} (here {v} m) = inl (is_member-one i v m)
  Reach-DependsOn {i} (step {u} {v} r m) =
      let e = sym (P.is_member-outgoing g.graph u v) ∙ m in
      elim (Reach-DependsOn r) [
        | inl q ↦ inr (direct (subst (λ x. contains_edge g.graph x v ≡ true) q e))
        | inr d ↦ inr (DependsOn-extend d e)
      ]

  module _ (consistent : IsConsistent P g) (name : Text) (i : ℕ)
      (found : find_index g.index name ≡ some i) where
    bounded : (u v : ℕ) → is_member (P.outgoing g.graph u) v ≡ true → v < node_count g.graph
    bounded u v m = (consistent.inside u v (sym (P.is_member-outgoing g.graph u v) ∙ m)).1

    needed : List ℕ
    needed = nodes (search (P.outgoing g.graph) (node_count g.graph) i)

    needed-DependsOn : (j : ℕ) → (is_member needed j ≡ true) ↔ ((j ≡ i) ⊎ DependsOn P g j i)
    needed-DependsOn j =
        let (vs, e, exact) =
          search_correct (P.outgoing g.graph) i (node_count g.graph) bounded
            (consistent.known name i found).0 in
        let same = visited vs e in
        (
          (λ m. Reach-DependsOn ((exact j).0 (rw (← same) m))),
          (λ d.
              rw same
                ((exact j).1 (elim d [ inl q ↦ here (start j q) | inr d ↦ DependsOn-Reach d ]))),
        )
      where
        visited :
            (vs : List ℕ)
            → search (P.outgoing g.graph) (node_count g.graph) i ≡ some vs
            → needed ≡ vs
        visited vs e = unfold needed nodes in rw (e, nodes) refl

        start : (j : ℕ) → j ≡ i → is_member (i ∷ []) j ≡ true
        start j q = unfold is_member in ground arith

    target_bound : {k j : ℕ} → DependsOn P g k j → k < node_count g.graph
    target_bound (direct {i = j} e) = (consistent.inside j _ e).1
    target_bound (through d e) = target_bound d

    needed-bound : (k : ℕ) → is_member needed k ≡ true → k < node_count g.graph
    needed-bound k m = elim ((needed-DependsOn k).0 m) [
      | inl q ↦ subst (λ x. x < node_count g.graph) (sym q) (consistent.known name i found).0
      | inr d ↦ target_bound d
    ]

    needed-edge :
        (a b : ℕ)
        → contains_edge g.graph a b ≡ true
        → is_member needed a ≡ true
        → is_member needed b ≡ true
    needed-edge a b e m = (needed-DependsOn b).1 (
        inr (elim ((needed-DependsOn a).0 m) [
          | inl q ↦ direct (subst (λ x. contains_edge g.graph x b ≡ true) q e)
          | inr d ↦ DependsOn-extend d e
        ]))

    module _ (order : List ℕ) (sorts : P.toposort g.graph ≡ ok order)
        (topological : IsTopological order) where
      result :
          build_order P g name
          ≡ ok (map (weight g.graph) (retain (is_member needed) (reverse order)))
      result =
          unfold build_order sorted_indices needed in
          rw (found, build_order, sorts, sorted_indices) refl

      kept : List ℕ
      kept = retain (is_member needed) (reverse order)

      is_member-kept : (k : ℕ) → is_member kept k ≡ (is_member order k && is_member needed k)
      is_member-kept k =
          unfold kept in
          ground (
            arith,
            is_member-retain (is_member needed) (reverse order) k,
            is_member-reverse order k,
          )

      named-needed :
          (j : ℕ)
          → j < node_count g.graph
          → has_text (map (weight g.graph) kept) (weight g.graph j) ≡ true
          → is_member needed j ≡ true
      named-needed j lt m =
          let (k, in_kept, same) = map-has_text (weight g.graph) kept (weight g.graph j) m in
          let known : is_member needed k ≡ true =
            ground (arith, sym (is_member-kept k) ∙ in_kept) in
          let at_k =
            subst (λ t. find_index g.index t ≡ some k) same
              (consistent.listed k (needed-bound k known)) in
          subst (λ x. is_member needed x ≡ true)
            (same_index k j (sym at_k ∙ consistent.listed j lt)) known

      needed-named :
          (j : ℕ)
          → is_member needed j ≡ true
          → has_text (map (weight g.graph) kept) (weight g.graph j) ≡ true
      needed-named j m =
          has_text-map (weight g.graph) kept j
            (ground (arith, is_member-kept j, m, topological.complete j (needed-bound j m)))

      kept-order :
          (a b : ℕ)
          → contains_edge g.graph a b ≡ true
          → has_text (map (weight g.graph) kept) (weight g.graph a) ≡ true
          → comes_before (map (weight g.graph) kept) (weight g.graph b) (weight g.graph a) ≡ true
      kept-order a b e m =
          let a_needed = named-needed a (consistent.inside a b e).0 m in
          comes_before-map (weight g.graph) kept b a (
            unfold kept in
            precedes-retain (is_member needed) (reverse order) b a (needed-edge a b e a_needed)
              a_needed (precedes-reverse order a b (topological.sorted a b e)))

      -- `build_order` succeeds on a package of the graph, and its result lists exactly the package
      -- and what it depends on, directly or through others; a package in it has its dependencies
      -- before it. Conditions: the index agrees with the graph, and `toposort` finds an order, which
      -- is topological.
      pub build_order_correct :
          (names : List Text) × (build_order P g name ≡ ok names)
          × ((other : Text) (j : ℕ)
              → find_index g.index other ≡ some j
              → (has_text names other ≡ true) ↔ ((j ≡ i) ⊎ DependsOn P g j i))
          × ((a b : ℕ)
              → contains_edge g.graph a b ≡ true
              → has_text names (weight g.graph a) ≡ true
              → comes_before names (weight g.graph b) (weight g.graph a) ≡ true)
      build_order_correct = (
        map (weight g.graph) kept,
        (unfold kept in result),
        (λ other j at_j.
            let (lt, is_other) = consistent.known other j at_j in
            (
              (λ m. (needed-DependsOn j).0 (named-needed j lt (rw is_other m))),
              (λ d. rw (← is_other) (needed-named j ((needed-DependsOn j).1 d))),
            )),
        kept-order,
      )
