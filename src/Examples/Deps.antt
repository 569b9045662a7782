-- ===== src/Examples/Deps.antt =====
-- The dependency graph at concrete inputs, over lists of nodes and edges in place of `petgraph`.
use lysine_os.Base.{
  Result, sym, ◌∙◌, subst, ◌⊎◌, retain, text_eq, ℕ, zero, suc, ◌<◌, Bool, true, false, ◌&&◌, ◌||◌,
  none, some, List, [], ◌∷◌, ◌++◌, ◌≡◌, ◌≢◌, refl, ◌↔◌, arith, Text, codes, ok, length,
  if◌then◌else◌, ◌==◌,
}
use lysine_os.Parser.Model.{MrnaFile}
use lysine_os.Deps.Search.{is_member, search, search_unmarked, loop, offer, offer_all}
use lysine_os.Deps.Search.Correct.{Reach, search_correct}
use lysine_os.Deps.Graph.{
  build_order, sorted_indices, DiGraph, DependencyGraph, find_index, has_text, new, add_package,
  link, add_dependency, add_mrna, reverse_dependencies, removable, is_blocked, nodes,
}
use lysine_os.Deps.Graph.Consistent.{
  IsConsistent, new-IsConsistent, add_dependency-IsConsistent, add_mrna-IsConsistent,
}
use lysine_os.Deps.Graph.BuildOrder.{IsTopological, build_order_correct, precedes, comes_before}
use lysine_os.Deps.Graph.Install.{resolve_install_order, resolve_install_order_complete}
use lysine_os.Deps.Graph.Closure.{
  DependsOn, direct, through, reverse_dependencies_correct, removable_safe,
}

record ListGraph : Type 0 where
  names : List Text
  edges : List (ℕ × ℕ)

abbrev name_at : List Text → ℕ → Text
name_at [] i = []
name_at (n ∷ ns) i = if i == length ns then n else name_at ns i

abbrev has_edge : List (ℕ × ℕ) → ℕ → ℕ → Bool
has_edge [] a b = false
has_edge ((x, y) ∷ es) a b = a == x && b == y || has_edge es a b

abbrev targets : List (ℕ × ℕ) → ℕ → List ℕ
targets [] a = []
targets ((x, y) ∷ es) a = if x == a then y ∷ targets es a else targets es a

abbrev origins : List (ℕ × ℕ) → ℕ → List ℕ
origins [] b = []
origins ((x, y) ∷ es) b = if y == b then x ∷ origins es b else origins es b

abbrev up_to : ℕ → List ℕ
up_to zero = []
up_to (suc n) = up_to n ++ n ∷ []

is_member-targets : (es : List (ℕ × ℕ)) (a b : ℕ) → is_member (targets es a) b ≡ has_edge es a b
unfolding is_member
is_member-targets [] a b = refl
is_member-targets ((x, y) ∷ es) a b = ground (arith, is_member-targets es a b)

is_member-origins : (es : List (ℕ × ℕ)) (a b : ℕ) → is_member (origins es b) a ≡ has_edge es a b
unfolding is_member
is_member-origins [] a b = refl
is_member-origins ((x, y) ∷ es) a b = ground (arith, is_member-origins es a b)

abbrev list_graph : DiGraph
list_graph = record {
  Graph = ListGraph;
  empty = record { names = []; edges = [] };
  node_count = λ g. length g.names;
  weight = λ g. name_at g.names;
  contains_edge = λ g. has_edge g.edges;
  outgoing = λ g. targets g.edges;
  incoming = λ g. origins g.edges;
  add_node = λ g name. record g { names = name ∷ g.names };
  add_edge = λ g a b. record g { edges = (a, b) ∷ g.edges };
  toposort = λ g. ok (up_to (length g.names));
  node_count-empty = refl;
  contains_edge-empty = λ a b. refl;
  node_count-add_node = λ g name. refl;
  weight-add_node = λ g name i. refl;
  contains_edge-add_node = λ g name a b. refl;
  node_count-add_edge = λ g a b. refl;
  weight-add_edge = λ g a b i. refl;
  contains_edge-add_edge = λ g a b c d. refl;
  is_member-outgoing = λ g. is_member-targets g.edges;
  is_member-incoming = λ g. is_member-origins g.edges;
}

-- `app` needs `lib`, and `lib` needs `core`.
abbrev app : Text
app = codes "app"

abbrev lib : Text
lib = codes "lib"

abbrev core : Text
core = codes "core"

abbrev one_edge : DependencyGraph list_graph
one_edge = add_dependency list_graph (new list_graph) app lib

abbrev two_edges : DependencyGraph list_graph
two_edges = add_dependency list_graph one_edge lib core

two_edges-IsConsistent : IsConsistent list_graph two_edges
two_edges-IsConsistent =
    add_dependency-IsConsistent list_graph one_edge lib core (
      add_dependency-IsConsistent list_graph (new list_graph) app lib (new-IsConsistent list_graph))

find-app : find_index two_edges.index app ≡ some 0
unfolding add_dependency add_package link new find_index text_eq
find-app = refl

find-core : find_index two_edges.index core ≡ some 2
unfolding add_dependency add_package link new find_index text_eq
find-core = refl

app-DependsOn : DependsOn list_graph two_edges 2 0
unfolding add_dependency add_package link new find_index text_eq
app-DependsOn = through {j = 1} (direct refl) refl

reverse_dependencies_correct_example :
    (has_text (reverse_dependencies list_graph two_edges core) app ≡ true)
    ↔ ((◌≢◌ {A = ℕ} 0 2) × DependsOn list_graph two_edges 2 0)
reverse_dependencies_correct_example =
    reverse_dependencies_correct list_graph two_edges two_edges-IsConsistent core 2 find-core app 0
      find-app

-- `core` can be removed together with `app` when `lib` is not installed.
core_can_go :
    has_text (removable list_graph two_edges (core ∷ app ∷ []) (core ∷ app ∷ [])) core ≡ true
unfolding removable is_blocked reverse_dependencies nodes search_unmarked loop offer_all offer
    is_member has_text add_dependency add_package link new find_index retain text_eq
core_can_go = refl

app_installed : has_text (core ∷ app ∷ []) app ≡ true
unfolding has_text text_eq
app_installed = refl

removable_safe_example : has_text (core ∷ app ∷ []) app ≡ true
removable_safe_example =
    removable_safe list_graph two_edges two_edges-IsConsistent (core ∷ app ∷ []) (core ∷ app ∷ [])
      core app 2 0 find-core find-app core_can_go app-DependsOn app_installed

-- `core` is kept for `lib`.
core_kept : removable list_graph two_edges (core ∷ []) (lib ∷ core ∷ []) ≡ []
unfolding removable is_blocked reverse_dependencies nodes search_unmarked loop offer_all offer
    is_member has_text add_dependency add_package link new find_index retain text_eq
core_kept = refl

abbrev all_nodes : List ℕ
all_nodes = 0 ∷ 1 ∷ 2 ∷ []

sorts : list_graph.toposort two_edges.graph ≡ ok all_nodes
unfolding add_dependency add_package link new find_index text_eq
sorts = refl

all_nodes-IsTopological : IsTopological list_graph two_edges all_nodes
unfolding add_dependency add_package link new find_index text_eq precedes is_member
all_nodes-IsTopological = record { complete = λ i lt. ground arith; sorted = λ a b e. ground arith }

build_order_correct_example :
    (names : List Text) × (build_order list_graph two_edges app ≡ ok names)
    × ((other : Text) (j : ℕ)
        → find_index two_edges.index other ≡ some j
        → (has_text names other ≡ true) ↔ ((j ≡ 0) ⊎ DependsOn list_graph two_edges j 0))
    × ((a b : ℕ)
        → list_graph.contains_edge two_edges.graph a b ≡ true
        → has_text names (list_graph.weight two_edges.graph a) ≡ true
        → comes_before names
            (list_graph.weight two_edges.graph b)
            (list_graph.weight two_edges.graph a)
          ≡ true)
build_order_correct_example =
    build_order_correct list_graph two_edges two_edges-IsConsistent app 0 find-app all_nodes sorts
      all_nodes-IsTopological

app_order : build_order list_graph two_edges app ≡ ok (core ∷ lib ∷ app ∷ [])
unfolding build_order sorted_indices nodes search loop offer_all offer is_member add_dependency
    add_package link new find_index retain text_eq
app_order = refl

orders-IsTopological :
    (order : List ℕ)
    → list_graph.toposort two_edges.graph ≡ ok order
    → IsTopological list_graph two_edges order
orders-IsTopological order e =
    subst (IsTopological list_graph two_edges) (same all_nodes order (sym sorts ∙ e))
      all_nodes-IsTopological
  where
    same : (xs ys : List ℕ) → ◌≡◌ {A = Result ℕ (List ℕ)} (ok xs) (ok ys) → xs ≡ ys
    same xs ys e = cc

abbrev asked_for : List Text
asked_for = app ∷ codes "editor" ∷ []

app_asked : has_text asked_for app ≡ true
unfolding has_text text_eq
app_asked = refl

resolve_install_order_complete_example :
    has_text (resolve_install_order list_graph two_edges asked_for) app ≡ true
resolve_install_order_complete_example =
    resolve_install_order_complete list_graph two_edges two_edges-IsConsistent orders-IsTopological
      asked_for app app_asked

-- 0 leads to 1 and 2, 1 leads back to 0, 3 is apart.
abbrev next : ℕ → List ℕ
next = targets ((0, 1) ∷ (0, 2) ∷ (1, 0) ∷ (3, 0) ∷ [])

next_below : (u i : ℕ) → is_member (next u) i ≡ true → i < 4
unfolding is_member
next_below u i m = ground arith

search_correct_example :
    (vs : List ℕ) × (search next 4 0 ≡ some vs)
    × ((v : ℕ) → (is_member vs v ≡ true) ↔ Reach next (0 ∷ []) v)
search_correct_example = search_correct next 0 4 next_below (omega arith)

abbrev recipe : MrnaFile
recipe = record {
  api_version = 1;
  name = app;
  version = codes "1.0";
  release = 1;
  description = codes "an application";
  homepage = none;
  license = codes "MIT";
  maintainer = none;
  tags = none;
  depends = some (record {
    build = some (codes "lib >= 1.2" ∷ codes "core" ∷ []);
    runtime = none;
    check = none;
  });
  features = none;
  sources = [];
  patches = none;
  build = none;
  post_install = none;
  post_remove = none;
  outputs = none;
}

add_mrna-IsConsistent_example : IsConsistent list_graph (add_mrna list_graph two_edges recipe)
add_mrna-IsConsistent_example =
    add_mrna-IsConsistent list_graph two_edges recipe two_edges-IsConsistent
