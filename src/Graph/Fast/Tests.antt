-- ===== src/Graph/Fast/Tests.antt =====
-- A path of three nodes as a `fast_graph_t`, and the theorems on it.
use parallel_enum.Base.{
  ℕ, zero, suc, ◌≡◌, refl, false, Option, some, List, [], ◌∷◌, get_or, arith, mem, IsAscending,
}
use parallel_enum.BinarySearch.{init}
use parallel_enum.BinarySearch.Init.{init_lem}
use parallel_enum.Graph.{IsGraph}
use parallel_enum.Graph.Fast.{NodeSets, FastGraph, make_fast, permute, view}
use parallel_enum.Graph.Fast.Valid.{IsAdjacency, view-IsGraph}
use parallel_enum.Graph.Fast.Order.{IsOrder}
use parallel_enum.Graph.Fast.Renumbered.{IsPermuted, permute-IsPermuted}
use parallel_enum.Graph.Read.Links.{linked}
use parallel_enum.Graph.Read.Lists.{linked-IsAdjacency}

-- Sets as lists of their elements.
abbrev pub list_sets : NodeSets
list_sets = record {
  NodeSet = List ℕ;
  empty = [];
  insert = λ v s. v ∷ s;
  count = mem;
  missing = 4294967295;
  count-empty = λ v h. refl;
  count-insert = λ v w s hv hw. refl;
}

abbrev path_edges : List (List ℕ)
path_edges = (1 ∷ []) ∷ (0 ∷ 2 ∷ []) ∷ (1 ∷ []) ∷ []

abbrev path_labels : Option (List ℕ)
path_labels = some (7 ∷ 8 ∷ 9 ∷ [])

abbrev rotated : List ℕ
rotated = 2 ∷ 0 ∷ 1 ∷ []

path_edges-IsAscending : (a : ℕ) → IsAscending (get_or path_edges a [])
path_edges-IsAscending zero = (tt, tt)
path_edges-IsAscending (suc zero) = ((omega arith, tt), (tt, tt))
path_edges-IsAscending (suc (suc zero)) = (tt, tt)
path_edges-IsAscending (suc (suc (suc a))) = tt

abbrev links : List (ℕ × ℕ)
links = (0, 1) ∷ (1, 2) ∷ []

path_edges-linked : (a b : ℕ) → mem b (get_or path_edges a []) ≡ linked false false links a b
path_edges-linked zero b = ground arith
path_edges-linked (suc zero) b = ground arith
path_edges-linked (suc (suc zero)) b = ground arith
path_edges-linked (suc (suc (suc a))) b = ground arith

path_edges-IsAdjacency : IsAdjacency 3 path_edges
path_edges-IsAdjacency =
    linked-IsAdjacency false 3 links path_edges refl refl path_edges-IsAscending path_edges-linked

rotated-IsOrder : IsOrder 3 rotated
rotated-IsOrder = record { sized = refl; once = λ a. ground arith }

abbrev path : FastGraph list_sets ℕ
path = make_fast list_sets ℕ 3 path_edges path_labels

init_lem_example : init (4 ∷ 6 ∷ 9 ∷ []) ≡ 4 ∷ 6 ∷ 9 ∷ []
init_lem_example = init_lem (4 ∷ 6 ∷ 9 ∷ [])

view-IsGraph_example :
    IsGraph (view list_sets ℕ path)
    × ((a : ℕ) → (view list_sets ℕ path).neighs a ≡ get_or path_edges a [])
view-IsGraph_example =
    view-IsGraph list_sets ℕ 3 path_edges path_labels path_edges-IsAdjacency (omega arith)

permute-IsPermuted_example :
    (g : FastGraph list_sets ℕ) × (permute list_sets ℕ 0 rotated path ≡ some g)
    × IsPermuted list_sets ℕ 0 3 path_edges path_labels rotated path_edges-IsAdjacency
        (omega arith)
        g
permute-IsPermuted_example =
    permute-IsPermuted list_sets ℕ 0 3 path_edges path_labels rotated path_edges-IsAdjacency
      (omega arith) refl rotated-IsOrder
