-- ===== src/Deps/Search.antt =====
-- ribosome/crates/ribosome-deps/src/graph.rs: the breadth-first search that `build_order` and
-- `reverse_dependencies` share, over the neighbours in one direction.
pub mod Correct
use lysine_os.Base.{
  ℕ, zero, suc, Bool, true, false, ◌||◌, Option, none, some, List, [], ◌∷◌, ◌++◌, if◌then◌else◌,
  ◌==◌, any,
}

-- `visited.contains(&i)`
unfoldable pub is_member : List ℕ → ℕ → Bool
is_member [] i = false
is_member (j ∷ js) i = i == j || is_member js i

-- The set `visited` and the queue.
pub record Frontier : Type 0 where
  pub visited : List ℕ
  pub queue : List ℕ

abbrev pub push : Frontier → ℕ → Frontier
push s v = record { visited = v ∷ s.visited; queue = s.queue ++ v ∷ [] }

-- `if visited.insert(neighbor) { queue.push_back(neighbor); }`
unfoldable pub offer : Frontier → ℕ → Frontier
offer s v = if is_member s.visited v then s else push s v

unfoldable pub offer_all : Frontier → List ℕ → Frontier
unfolding offer
offer_all s [] = s
offer_all s (v ∷ vs) = offer_all (offer s v) vs

-- The `while` loop; `none` means that the fuel ran out.
module _ (next : ℕ → List ℕ) where
  unfoldable pub loop : ℕ → Frontier → Option (List ℕ)
  unfolding offer_all
  loop zero s = elim s.queue [ [] ↦ some s.visited | u ∷ rest ↦ none ]
  loop (suc fuel) s = elim s.queue [
    | [] ↦ some s.visited
    | u ∷ rest ↦ loop fuel (offer_all (record s { queue = rest }) (next u))
  ]

  unfoldable pub search : ℕ → ℕ → Option (List ℕ)
  unfolding loop
  search fuel start = loop fuel (record { visited = start ∷ []; queue = start ∷ [] })

  -- `reverse_dependencies` does not mark the node that it starts from.
  unfoldable pub search_unmarked : ℕ → ℕ → Option (List ℕ)
  unfolding loop
  search_unmarked fuel start = loop fuel (record { visited = []; queue = start ∷ [] })
