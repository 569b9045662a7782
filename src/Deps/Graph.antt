-- ===== src/Deps/Graph.antt =====
-- ribosome/crates/ribosome-deps/src/graph.rs: `DependencyGraph`, over the directed graphs of the
-- crate `petgraph`, which enter as an interface with the laws that its documentation states.
pub mod Consistent
pub mod Closure
pub mod BuildOrder
pub mod Install
pub mod Report
use lysine_os.Base.{
  ℕ, zero, suc, ◌+◌, ◌<◌, Bool, true, false, ◌&&◌, ◌||◌, not, Option, none, some, List, [], ◌∷◌,
  ◌++◌, ◌≡◌, map, Text, codes, text_eq, Result, ok, err, ◌>>=◌, map_err, if◌then◌else◌, ◌==◌, ltb,
  any, retain,
}
use mathlib.Core.List.{reverse}
use lysine_os.Parser.Dependency.{parse_dependency_spec, DependencySpec}
use lysine_os.Parser.Model.{MrnaFile}
use lysine_os.Deps.Search.{is_member, search, search_unmarked}

-- `DiGraph<String, ()>`, with `toposort` of `petgraph::algo`. An edge is known by its two ends.
pub record DiGraph : Type 1 where
  pub Graph : Type 0
  pub empty : Graph
  pub node_count : Graph → ℕ
  pub weight : Graph → ℕ → Text
  pub contains_edge : Graph → ℕ → ℕ → Bool
  pub outgoing : Graph → ℕ → List ℕ
  pub incoming : Graph → ℕ → List ℕ
  pub add_node : Graph → Text → Graph
  pub add_edge : Graph → ℕ → ℕ → Graph
  pub toposort : Graph → Result ℕ (List ℕ)
  pub node_count-empty : node_count empty ≡ 0
  pub contains_edge-empty : (a b : ℕ) → contains_edge empty a b ≡ false
  -- A node is added under the next index.
  pub node_count-add_node :
      (g : Graph) (name : Text) → node_count (add_node g name) ≡ suc (node_count g)
  pub weight-add_node :
      (g : Graph) (name : Text) (i : ℕ)
      → weight (add_node g name) i ≡ (if i == node_count g then name else weight g i)
  pub contains_edge-add_node :
      (g : Graph) (name : Text) (a b : ℕ)
      → contains_edge (add_node g name) a b ≡ contains_edge g a b
  pub node_count-add_edge : (g : Graph) (a b : ℕ) → node_count (add_edge g a b) ≡ node_count g
  pub weight-add_edge : (g : Graph) (a b i : ℕ) → weight (add_edge g a b) i ≡ weight g i
  pub contains_edge-add_edge :
      (g : Graph) (a b c d : ℕ)
      → contains_edge (add_edge g a b) c d ≡ (c == a && d == b || contains_edge g c d)
  pub is_member-outgoing : (g : Graph) (a b : ℕ) → is_member (outgoing g a) b ≡ contains_edge g a b
  pub is_member-incoming : (g : Graph) (a b : ℕ) → is_member (incoming g b) a ≡ contains_edge g a b

-- `index.get(name)`
unfoldable pub find_index : List (Text × ℕ) → Text → Option ℕ
find_index [] name = none
find_index ((n, i) ∷ index) name = if text_eq n name then some i else find_index index name

pub data DepsError : Type 0 where
  circular_dependency : Text → DepsError
  missing_dependency : Text → DepsError
  conflict : Text → DepsError
  -- The path and the reason.
  parse_error : Text → Text → DepsError

-- `names.contains(&name)`
unfoldable pub has_text : List Text → Text → Bool
has_text ts name = any (text_eq name) ts

pub record DependencyGraph (P : DiGraph) : Type 0 where
  pub graph : DiGraph.Graph P
  pub index : List (Text × ℕ)

-- The nodes that a search visited. `search_correct` and `search_unmarked_correct` say that the
-- searches below have fuel enough.
unfoldable pub nodes : Option (List ℕ) → List ℕ
nodes none = []
nodes (some vs) = vs

module _ (P : DiGraph) where
  open P use {
    Graph, empty, node_count, weight, contains_edge, outgoing, incoming, add_node, add_edge,
    toposort,
  }

  unfoldable pub new : DependencyGraph P
  new = record { graph = empty; index = [] }

  -- The graph after the call, and the index of the node.
  unfoldable pub add_package : DependencyGraph P → Text → DependencyGraph P × ℕ
  unfolding find_index
  add_package g name = elim (find_index g.index name) [
    | some i ↦ (g, i)
    | none ↦ (
      record { graph = add_node g.graph name; index = (name, node_count g.graph) ∷ g.index },
      node_count g.graph,
    )
  ]

  -- The edge is added unless it is a loop or is there.
  unfoldable pub link : DependencyGraph P → ℕ → ℕ → DependencyGraph P
  link g from to =
      if not (from == to) && not (contains_edge g.graph from to)
      then record g { graph = add_edge g.graph from to }
      else g

  unfoldable pub add_dependency : DependencyGraph P → Text → Text → DependencyGraph P
  unfolding add_package link
  add_dependency g from to =
      let (g1, from_idx) = add_package g from in
      let (g2, to_idx) = add_package g1 to in link g2 from_idx to_idx

  -- The loop over the build dependencies: a text that is no dependency is passed over.
  unfoldable pub add_build_deps : DependencyGraph P → Text → List Text → DependencyGraph P
  add_build_deps g name [] = g
  add_build_deps g name (dep ∷ deps) =
      add_build_deps
        (elim (parse_dependency_spec dep) [ ok spec ↦ add_dependency g name spec.name | err _ ↦ g ])
        name deps

  unfoldable pub add_mrna : DependencyGraph P → MrnaFile → DependencyGraph P
  add_mrna g mrna =
      let g1 = (add_package g mrna.name).0 in
      elim mrna.depends [
        | none ↦ g1
        | some depends ↦ elim depends.build [
          | none ↦ g1
          | some deps ↦ add_build_deps g1 mrna.name deps
        ]
      ]

  -- Dependents come first in `toposort`; the order is reversed.
  unfoldable pub sorted_indices : DependencyGraph P → Result DepsError (List ℕ)
  sorted_indices g =
      (map_err (λ i. circular_dependency (weight g.graph i)) (toposort g.graph) >>= λ topo.
      ok (reverse topo))

  unfoldable pub topological_sort : DependencyGraph P → Result DepsError (List Text)
  unfolding sorted_indices
  topological_sort g = do topo ← sorted_indices g; ok (map (weight g.graph) topo)

  unfoldable pub package_count : DependencyGraph P → ℕ
  package_count g = node_count g.graph

  unfoldable pub not_found : Text → DepsError
  not_found name = missing_dependency (codes "package '" ++ (name ++ codes "' not found in graph"))

  unfoldable pub build_order : DependencyGraph P → Text → Result DepsError (List Text)
  unfolding sorted_indices not_found
  build_order g name = elim (find_index g.index name) [
    | none ↦ err (not_found name)
    | some start ↦
        let visited = nodes (search (outgoing g.graph) (node_count g.graph) start) in
        (sorted_indices g >>= λ topo. ok (map (weight g.graph) (retain (is_member visited) topo)))
  ]

  unfoldable pub direct_dependencies : DependencyGraph P → Text → List Text
  direct_dependencies g name = elim (find_index g.index name) [
    | none ↦ []
    | some i ↦ map (weight g.graph) (outgoing g.graph i)
  ]

  unfoldable pub reverse_dependencies : DependencyGraph P → Text → List Text
  reverse_dependencies g name = elim (find_index g.index name) [
    | none ↦ []
    | some i ↦ map (weight g.graph) (
        retain (λ j. not (j == i))
          (nodes (search_unmarked (incoming g.graph) (suc (node_count g.graph)) i)))
  ]

  -- The loop over the candidates.
  unfoldable pub is_blocked : DependencyGraph P → List Text → List Text → Text → Bool
  is_blocked g names installed name =
      any (λ dep. has_text installed dep && not (has_text names dep)) (reverse_dependencies g name)

  unfoldable pub removable : DependencyGraph P → List Text → List Text → List Text
  unfolding is_blocked
  removable g names installed = retain (λ name. not (is_blocked g names installed name)) names

  unfoldable pub contains : DependencyGraph P → Text → Bool
  contains g name = elim (find_index g.index name) [ none ↦ false | some _ ↦ true ]
