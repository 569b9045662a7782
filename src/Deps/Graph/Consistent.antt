-- ===== src/Deps/Graph/Consistent.antt =====
-- The index and the graph agree, and every operation keeps it so (ribosome-deps/src/graph.rs).
use lysine_os.Base.{
  ℕ, ◌<◌, true, none, some, List, [], ◌∷◌, ◌≡◌, inl, inr, arith, Text, text_eq_iff, text_eq_refl,
  Option-cases, Result-cases, Bool-cases, ◌==◌,
}
use lysine_os.Parser.Model.{MrnaFile}
use lysine_os.Parser.Dependency.{parse_dependency_spec}
use lysine_os.Deps.Graph.{
  DiGraph, DependencyGraph, find_index, new, add_package, link, add_dependency, add_build_deps,
  add_mrna,
}

module _ (P : DiGraph) where
  open P use {node_count, weight, contains_edge}

  pub record IsConsistent (g : DependencyGraph P) : Type 0 where
    pub known :
        (name : Text) (i : ℕ)
        → find_index g.index name ≡ some i
        → (i < node_count g.graph) × (weight g.graph i ≡ name)
    pub listed : (i : ℕ) → i < node_count g.graph → find_index g.index (weight g.graph i) ≡ some i
    pub inside :
        (a b : ℕ)
        → contains_edge g.graph a b ≡ true
        → (a < node_count g.graph) × (b < node_count g.graph)

  pub new-IsConsistent : IsConsistent (new P)
  unfolding new find_index
  new-IsConsistent = record {
    known = λ name i e. cc;
    listed = λ i h. absurd (omega (arith, P.node_count-empty));
    inside = λ a b e. cc (P.contains_edge-empty a b);
  }

  -- The index that `add_package` returns is the one under which the name is found.
  pub add_package-find :
      (g : DependencyGraph P) (name : Text)
      → find_index (add_package P g name).0.index name ≡ some (add_package P g name).1
  unfolding add_package
  add_package-find g name = elim (Option-cases (find_index g.index name)) [
    | inl e ↦ ground (arith, text_eq_refl name)
    | inr (i, e) ↦ rw (e, add_package) e
  ]

  -- What was found before is found afterwards.
  pub add_package-keeps :
      (g : DependencyGraph P) (name other : Text) (i : ℕ)
      → find_index g.index other ≡ some i
      → find_index (add_package P g name).0.index other ≡ some i
  unfolding add_package
  add_package-keeps g name other i e = ground (arith, text_eq_iff name other)

  fresh_package :
      (g : DependencyGraph P) (name : Text)
      → find_index g.index name ≡ none
      → IsConsistent g
      → IsConsistent
          (record { graph = P.add_node g.graph name; index = (name, node_count g.graph) ∷ g.index })
  unfolding find_index
  fresh_package g name e h = record {
    known = λ m i q. ground (
      arith,
      text_eq_iff name m,
      h.known m i,
      P.weight-add_node g.graph name i,
      P.node_count-add_node g.graph name,
    );
    listed = λ i lt.
        rw (P.weight-add_node g.graph name i) (elim (Bool-cases (i == node_count g.graph)) [
          | inl q ↦ rw (q, text_eq_refl name) (ground arith)
          | inr q ↦ rw q (
              ground (
                arith,
                text_eq_iff name (weight g.graph i),
                h.listed i,
                P.node_count-add_node g.graph name,
              ))
        ]);
    inside = λ a b q. ground (
      arith,
      h.inside a b,
      P.contains_edge-add_node g.graph name a b,
      P.node_count-add_node g.graph name,
    );
  }

  pub add_package-IsConsistent :
      (g : DependencyGraph P) (name : Text) → IsConsistent g → IsConsistent (add_package P g name).0
  unfolding add_package
  add_package-IsConsistent g name h = elim (Option-cases (find_index g.index name)) [
    | inl e ↦ rw (e, add_package) (fresh_package g name e h)
    | inr (i, e) ↦ rw (e, add_package) h
  ]

  link-IsConsistent :
      (g : DependencyGraph P) (from to : ℕ)
      → from < node_count g.graph
      → to < node_count g.graph
      → IsConsistent g
      → IsConsistent (link P g from to)
  unfolding link
  link-IsConsistent g from to f t h = record {
    known = λ m i q. ground (
      arith,
      h.known m i,
      P.weight-add_edge g.graph from to i,
      P.node_count-add_edge g.graph from to,
    );
    listed = λ i lt. ground (
      arith,
      h.listed i,
      P.weight-add_edge g.graph from to i,
      P.node_count-add_edge g.graph from to,
    );
    inside = λ a b q. ground (
      arith,
      h.inside a b,
      P.contains_edge-add_edge g.graph from to a b,
      P.node_count-add_edge g.graph from to,
    );
  }

  -- `add_dependency` keeps the index and the graph in agreement.
  pub add_dependency-IsConsistent :
      (g : DependencyGraph P) (from to : Text)
      → IsConsistent g
      → IsConsistent (add_dependency P g from to)
  add_dependency-IsConsistent g from to h =
      let (g1, i) = add_package P g from in
      let h1 = add_package-IsConsistent g from h in
      let (g2, j) = add_package P g1 to in
      let h2 = add_package-IsConsistent g1 to h1 in
      let at_i = add_package-keeps g1 to from i (add_package-find g from) in
      unfold add_dependency in
      link-IsConsistent g2 i j (h2.known from i at_i).0 (h2.known to j (add_package-find g1 to)).0
        h2

  add_build_deps-IsConsistent :
      (g : DependencyGraph P) (name : Text) (deps : List Text)
      → IsConsistent g
      → IsConsistent (add_build_deps P g name deps)
  unfolding add_build_deps
  add_build_deps-IsConsistent g name [] h = h
  add_build_deps-IsConsistent g name (dep ∷ deps) h =
      elim (Result-cases (parse_dependency_spec dep)) [
        | inl (spec, e) ↦ rw e (
            add_build_deps-IsConsistent (add_dependency P g name spec.name) name deps
              (add_dependency-IsConsistent g name spec.name h))
        | inr (x, e) ↦ rw e (add_build_deps-IsConsistent g name deps h)
      ]

  -- Loading a recipe keeps the index of names and the graph in agreement: every name is found at
  -- the node that carries it, every node is found by its name, and every edge joins two nodes.
  pub add_mrna-IsConsistent :
      (g : DependencyGraph P) (mrna : MrnaFile) → IsConsistent g → IsConsistent (add_mrna P g mrna)
  unfolding add_mrna
  add_mrna-IsConsistent g mrna h =
      let h1 = add_package-IsConsistent g mrna.name h in
      elim (Option-cases mrna.depends) [
        | inl e ↦ rw e h1
        | inr (d, e) ↦ rw e (elim (Option-cases d.build) [
          | inl q ↦ rw q h1
          | inr (deps, q) ↦ rw q (add_build_deps-IsConsistent _ mrna.name deps h1)
        ])
      ]
