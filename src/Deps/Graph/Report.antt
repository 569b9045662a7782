-- ===== src/Deps/Graph/Report.antt =====
-- `cycle_packages` and `to_dot` of ribosome/crates/ribosome-deps/src/graph.rs.
use lysine_os.Base.{
  ℕ, zero, suc, Bool, true, ◌&&◌, ◌||◌, not, List, [], ◌∷◌, ◌++◌, ◌≡◌, arith, Text, codes, text_eq,
  text_eq_iff, if◌then◌else◌, ◌==◌, any, any-push,
}
use lysine_os.Deps.Graph.{DiGraph, DependencyGraph, has_text}

-- `is_cyclic_directed` and `has_path_connecting` of `petgraph::algo`, and the ends of the edges.
pub record GraphAlgo (P : DiGraph) : Type 0 where
  pub is_cyclic_directed : DiGraph.Graph P → Bool
  pub has_path_connecting : DiGraph.Graph P → ℕ → ℕ → Bool
  pub edge_endpoints : DiGraph.Graph P → List (ℕ × ℕ)

-- `node_indices`: 0, 1, and so on.
unfoldable pub node_indices : ℕ → List ℕ
node_indices zero = []
node_indices (suc n) = node_indices n ++ n ∷ []

-- `name.replace('-', "_")`
unfoldable pub dot_id : Text → Text
dot_id [] = []
dot_id (c ∷ s) = (if c == b'-' then b'_' else c) ∷ dot_id s

module _ (P : DiGraph) (algo : GraphAlgo P) where
  open P use {Graph, node_count, weight, outgoing}
  open algo use {is_cyclic_directed, has_path_connecting, edge_endpoints}

  unfoldable pub has_cycle : DependencyGraph P → Bool
  has_cycle g = is_cyclic_directed g.graph

  -- The loop over the neighbours of a node.
  unfoldable pub push_cyclic : Graph → ℕ → List ℕ → List Text → List Text
  push_cyclic graph idx [] cyclic = cyclic
  push_cyclic graph idx (neighbor ∷ rest) cyclic =
      let added = push_cyclic graph idx rest (cyclic ++ weight graph idx ∷ []) in
      let same = push_cyclic graph idx rest cyclic in
      if has_path_connecting graph neighbor idx && not (has_text cyclic (weight graph idx))
      then added
      else same

  -- The loop over the nodes.
  unfoldable pub collect_cyclic : Graph → List ℕ → List Text → List Text
  unfolding push_cyclic
  collect_cyclic graph [] cyclic = cyclic
  collect_cyclic graph (idx ∷ rest) cyclic =
      collect_cyclic graph rest (push_cyclic graph idx (outgoing graph idx) cyclic)

  unfoldable pub cycle_packages : DependencyGraph P → List Text
  unfolding has_cycle collect_cyclic node_indices
  cycle_packages g =
      if not (has_cycle g)
      then []
      else collect_cyclic g.graph (node_indices (node_count g.graph)) []

  unfoldable pub dot_nodes : Graph → List ℕ → Text
  unfolding dot_id
  dot_nodes graph [] = []
  dot_nodes graph (idx ∷ rest) =
      codes "  "
      ++ (dot_id (weight graph idx)
          ++ (codes " [label=\"" ++ (weight graph idx ++ (codes "\"];\n" ++ dot_nodes graph rest))))

  unfoldable pub dot_edges : Graph → List (ℕ × ℕ) → Text
  unfolding dot_id
  dot_edges graph [] = []
  dot_edges graph ((a, b) ∷ rest) =
      codes "  "
      ++ (dot_id (weight graph a)
          ++ (codes " -> " ++ (dot_id (weight graph b) ++ (codes ";\n" ++ dot_edges graph rest))))

  unfoldable pub to_dot : DependencyGraph P → Text
  unfolding dot_nodes dot_edges node_indices
  to_dot g =
      codes "digraph genome {\n"
      ++ (dot_nodes g.graph (node_indices (node_count g.graph))
          ++ (dot_edges g.graph (edge_endpoints g.graph) ++ codes "}\n"))

  -- The node has a neighbour from which a path leads back.
  unfoldable pub is_on_cycle : Graph → ℕ → Bool
  is_on_cycle graph idx = any (λ n. has_path_connecting graph n idx) (outgoing graph idx)

  has_text-push_cyclic :
      (graph : Graph) (idx : ℕ) (ns : List ℕ) (cyclic : List Text) (name : Text)
      → has_text (push_cyclic graph idx ns cyclic) name ≡ (
          has_text cyclic name
          || text_eq name (weight graph idx) && any (λ n. has_path_connecting graph n idx) ns)
  unfolding push_cyclic has_text
  has_text-push_cyclic graph idx [] cyclic name = ground arith
  has_text-push_cyclic graph idx (n ∷ ns) cyclic name = ground (
    arith,
    has_text-push_cyclic graph idx ns cyclic name,
    has_text-push_cyclic graph idx ns (cyclic ++ weight graph idx ∷ []) name,
    any-push cyclic (weight graph idx) name,
    text_eq_iff name (weight graph idx),
  )

  -- A name is collected exactly if it was there or a node on a cycle carries it.
  has_text-collect_cyclic :
      (graph : Graph) (ids : List ℕ) (cyclic : List Text) (name : Text)
      → has_text (collect_cyclic graph ids cyclic) name ≡ (
          has_text cyclic name
          || any (λ i. text_eq name (weight graph i) && is_on_cycle graph i) ids)
  unfolding collect_cyclic is_on_cycle
  has_text-collect_cyclic graph [] cyclic name = ground arith
  has_text-collect_cyclic graph (i ∷ ids) cyclic name = ground (
    arith,
    has_text-collect_cyclic graph ids (push_cyclic graph i (outgoing graph i) cyclic) name,
    has_text-push_cyclic graph i (outgoing graph i) cyclic name,
  )

  -- If the graph is cyclic, `cycle_packages` lists exactly the names of the nodes with a neighbour
  -- from which a path leads back.
  pub cycle_packages_correct :
      (g : DependencyGraph P) (name : Text)
      → has_cycle g ≡ true
      → has_text (cycle_packages g) name
        ≡ any
            (λ i. text_eq name (weight g.graph i) && is_on_cycle g.graph i)
            (node_indices (node_count g.graph))
  unfolding cycle_packages has_text
  cycle_packages_correct g name h =
      rw (h, cycle_packages)
        (has_text-collect_cyclic g.graph (node_indices (node_count g.graph)) [] name)
