-- ===== src/Deps/Graph/Install.antt =====
-- ribosome/crates/ribosome-deps/src/graph.rs: `resolve_install_order`.
use lysine_os.Base.{
  ℕ, zero, suc, ◌<◌, Bool, true, ◌&&◌, ◌||◌, none, some, List, [], ◌∷◌, ◌++◌, ◌≡◌, refl, sym, ◌∙◌,
  subst, inl, inr, arith, Text, text_eq, text_eq_iff, text_eq_refl, Option-cases, Result-cases,
  Bool-cases, if◌then◌else◌, retain, map, Result, ok, err,
}
use mathlib.Core.List.{reverse}
use lysine_os.Deps.Search.{is_member}
use lysine_os.Deps.Search.Correct.{is_member-append}
use lysine_os.Deps.Graph.{
  DiGraph, DependencyGraph, DepsError, circular_dependency, find_index, has_text, build_order,
  topological_sort, sorted_indices,
}
use lysine_os.Deps.Graph.Consistent.{IsConsistent}
use lysine_os.Deps.Graph.Closure.{has_text-map}
use lysine_os.Deps.Graph.BuildOrder.{IsTopological, build_order_correct, is_member-reverse}

-- `node_indices`
unfoldable pub node_indices : ℕ → List ℕ
node_indices zero = []
node_indices (suc n) = node_indices n ++ n ∷ []

module _ (P : DiGraph) where
  open P use {node_count, weight}

  -- The first loop: the set of all packages that are needed.
  unfoldable pub all_deps : DependencyGraph P → List Text → List Text
  all_deps g [] = []
  all_deps g (name ∷ names) =
      let rest = all_deps g names in
      elim (build_order P g name) [ ok order ↦ order ++ rest | err _ ↦ name ∷ rest ]

  -- The topological order, or the nodes as they were added.
  unfoldable pub order_or_nodes : DependencyGraph P → List Text
  unfolding node_indices
  order_or_nodes g = elim (topological_sort P g) [
    | ok topo ↦ topo
    | err _ ↦ map (weight g.graph) (node_indices (node_count g.graph))
  ]

  -- The last loop: names that are not in the graph are put at the end, once each.
  unfoldable pub append_unknown : DependencyGraph P → List Text → List Text → List Text
  unfolding has_text
  append_unknown g [] result = result
  append_unknown g (name ∷ names) result = append_unknown g names (elim (find_index g.index name) [
    | some _ ↦ result
    | none ↦ if has_text result name then result else result ++ name ∷ []
  ])

  unfoldable pub resolve_install_order : DependencyGraph P → List Text → List Text
  unfolding all_deps order_or_nodes append_unknown
  resolve_install_order g names =
      append_unknown g names (retain (has_text (all_deps g names)) (order_or_nodes g))

is_member-node_indices : (n i : ℕ) → i < n → is_member (node_indices n) i ≡ true
unfolding is_member node_indices
is_member-node_indices zero i h = absurd (omega arith)
is_member-node_indices (suc n) i h =
    ground (arith, is_member-node_indices n i, is_member-append (node_indices n) (n ∷ []) i)

has_text-append :
    (xs ys : List Text) (t : Text) → has_text (xs ++ ys) t ≡ (has_text xs t || has_text ys t)
unfolding has_text
has_text-append [] ys t = refl
has_text-append (x ∷ xs) ys t = ground (arith, has_text-append xs ys t)

has_text-filter :
    (q : Text → Bool) (ts : List Text) (t : Text)
    → has_text (retain q ts) t ≡ (has_text ts t && q t)
unfolding has_text retain
has_text-filter q [] t = refl
has_text-filter q (u ∷ ts) t = ground (arith, has_text-filter q ts t, text_eq_iff t u)

module _ (P : DiGraph) (g : DependencyGraph P) where
  open P use {node_count, weight}

  append_unknown-keeps :
      (names result : List Text) (t : Text)
      → has_text result t ≡ true
      → has_text (append_unknown P g names result) t ≡ true
  unfolding append_unknown
  append_unknown-keeps [] result t h = h
  append_unknown-keeps (name ∷ names) result t h =
      append_unknown-keeps names _ t (ground (arith, has_text-append result (name ∷ []) t, h))

  append_unknown-adds :
      (names result : List Text) (t : Text)
      → find_index g.index t ≡ none
      → has_text names t ≡ true
      → has_text (append_unknown P g names result) t ≡ true
  unfolding append_unknown has_text
  append_unknown-adds [] result t e h = absurd (ground arith)
  append_unknown-adds (name ∷ names) result t e h = elim (Bool-cases (text_eq t name)) [
    | inl same ↦ append_unknown-keeps names _ t (
        ground (arith, has_text-append result (name ∷ []) t, text_eq_iff t name, text_eq_refl t, e))
    | inr ne ↦ append_unknown-adds names _ t e (ground arith)
  ]

  module _ (consistent : IsConsistent P g)
      (sorts : (order : List ℕ) → P.toposort g.graph ≡ ok order → IsTopological P g order)
      (name : Text) (i : ℕ) (found : find_index g.index name ≡ some i) where
    build_order-itself : (ns : List Text) → build_order P g name ≡ ok ns → has_text ns name ≡ true
    build_order-itself ns built = elim (Result-cases (P.toposort g.graph)) [
      | inl (order, e) ↦
          let (ms, e2, exact, _) =
            build_order_correct P g consistent name i found order e (sorts order e) in
          subst (λ xs. has_text xs name ≡ true) (same_result ms ns (sym e2 ∙ built))
            ((exact name i found).1 (inl refl))
      | inr (x, e) ↦ absurd (fails x e)
    ]
      where
        same_result :
            (ms ns : List Text) → ◌≡◌ {A = Result DepsError (List Text)} (ok ms) (ok ns) → ms ≡ ns
        same_result ms ns e = cc

        failed :
            (x : ℕ)
            → P.toposort g.graph ≡ err x
            → build_order P g name ≡ err (circular_dependency (weight g.graph x))
        failed x e =
            unfold build_order sorted_indices in rw (found, build_order, e, sorted_indices) refl

        differs : (ns : List Text) (d : DepsError) → ok ns ≡ err d → ⊥
        differs ns d e = cc

        fails : (x : ℕ) → P.toposort g.graph ≡ err x → ⊥
        fails x e = differs ns (circular_dependency (weight g.graph x)) (sym built ∙ failed x e)

    all_deps-itself :
        (names : List Text) → has_text names name ≡ true → has_text (all_deps P g names) name ≡ true
    unfolding all_deps has_text
    all_deps-itself [] asked = absurd (ground arith)
    all_deps-itself (n ∷ ns) asked = elim (Result-cases (build_order P g n)) [
      | inl (order, e) ↦
          rw (e, all_deps)
            (has_text-append order (all_deps P g ns) name ∙ elim (Bool-cases (text_eq name n)) [
              | inl q ↦
                  let same = (text_eq_iff name n).0 q in
                  ground (
                    arith,
                    build_order-itself order
                        (subst (λ t. build_order P g t ≡ ok order) (sym same) e),
                  )
              | inr q ↦ ground (arith, all_deps-itself ns)
            ])
      | inr (x, e) ↦ rw (e, all_deps) (ground (arith, all_deps-itself ns))
    ]

    order_or_nodes-itself : has_text (order_or_nodes P g) name ≡ true
    order_or_nodes-itself =
        let (lt, is_name) = consistent.known name i found in
        elim (Result-cases (P.toposort g.graph)) [
          | inl (order, e) ↦
              unfold order_or_nodes topological_sort sorted_indices in
              rw (e, order_or_nodes, topological_sort, sorted_indices, ← is_name)
                (has_text-map (weight g.graph) (reverse order) i
                  (is_member-reverse order i ∙ (sorts order e).complete i lt))
          | inr (x, e) ↦
              unfold order_or_nodes topological_sort sorted_indices in
              rw (e, order_or_nodes, topological_sort, sorted_indices, ← is_name)
                (has_text-map (weight g.graph) (node_indices (node_count g.graph)) i
                  (is_member-node_indices (node_count g.graph) i lt))
        ]

  -- Every package that is asked for is in the order that `resolve_install_order` gives, whether or
  -- not it is in the graph, and whether or not the graph has a cycle. Conditions: the index agrees
  -- with the graph, and an order that `toposort` finds is topological.
  pub resolve_install_order_complete :
      IsConsistent P g
      → ((order : List ℕ) → P.toposort g.graph ≡ ok order → IsTopological P g order)
      → (names : List Text) (name : Text) → has_text names name ≡ true
      → has_text (resolve_install_order P g names) name ≡ true
  resolve_install_order_complete consistent sorts names name asked =
      elim (Option-cases (find_index g.index name)) [
        | inl e ↦ unfold resolve_install_order in append_unknown-adds names _ name e asked
        | inr (i, found) ↦
            unfold resolve_install_order in
            append_unknown-keeps names _ name (
              has_text-filter (has_text (all_deps P g names)) (order_or_nodes P g) name
              ∙ ground (
                arith,
                order_or_nodes-itself consistent sorts name i found,
                all_deps-itself consistent sorts name i found names asked,
              ))
      ]
