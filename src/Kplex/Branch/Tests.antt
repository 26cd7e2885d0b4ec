-- ===== src/Kplex/Branch/Tests.antt =====
-- Runs of the branching on a path of three nodes, and the theorems at it.
use parallel_enum.Base.{
  ℕ, ◌≤◌, ◌≡◌, refl, true, Bool, List, [], ◌∷◌, ◌++◌, arith, length, if◌then◌else◌, occurrences,
  Each, Each-append, inl,
}
use parallel_enum.Graph.Path.{path, path-IsGraph}
use parallel_enum.Kplex.{
  Impl, Block, add_to_kplex, update_cand_and_excl, count_non_neighs, update_excluded, update_cands,
  can_add, can_add_node, can_add_loop, is_maximal, all_far, can_prune,
}
use parallel_enum.Kplex.Branch.{
  init_block, init_impl, list_children, fill_nadj, complement_from, init_counters, init_cands,
  each_child, get_cands, find_universals, count_cands, real_cands, partly_far, not_cuts, not_cut,
  near_slots, cands_of, best_pivot, has_universal_in_excl, universal_among, no_cand, add_universals,
}
use parallel_enum.Kplex.Branch.Complement.{init_block-IsBlock}
use parallel_enum.Kplex.Branch.Start.{init_impl-IsNode}
use parallel_enum.Kplex.Branch.Children.{IsChild, list_children-IsChild}
use parallel_enum.Kplex.Counters.{IsBlock}
use parallel_enum.Kplex.Node.{IsNode}

abbrev insert : (ℕ → ℕ → Bool) → ℕ → List ℕ → List ℕ
insert lt a [] = a ∷ []
insert lt a (x ∷ xs) = let rest = insert lt a xs in if lt x a then x ∷ rest else a ∷ x ∷ xs

abbrev insertion_sort : (ℕ → ℕ → Bool) → List ℕ → List ℕ
insertion_sort lt [] = []
insertion_sort lt (x ∷ xs) = insert lt x (insertion_sort lt xs)

occurrences-insert :
    (lt : ℕ → ℕ → Bool) (a v : ℕ) (xs : List ℕ)
    → occurrences v (insert lt a xs) ≡ occurrences v (a ∷ xs)
occurrences-insert lt a v [] = refl
occurrences-insert lt a v (x ∷ xs) = ground (arith, occurrences-insert lt a v xs)

occurrences-insertion_sort :
    (lt : ℕ → ℕ → Bool) (xs : List ℕ) (v : ℕ)
    → occurrences v (insertion_sort lt xs) ≡ occurrences v xs
occurrences-insertion_sort lt [] v = refl
occurrences-insertion_sort lt (x ∷ xs) v =
    ground
      (arith, occurrences-insert lt x v (insertion_sort lt xs), occurrences-insertion_sort lt xs v)

abbrev nodes : List ℕ
nodes = 0 ∷ 1 ∷ 2 ∷ []

abbrev block : Block
block = init_block path nodes []

block-IsBlock : IsBlock path block (length block.subgraph)
unfolding init_block
block-IsBlock = init_block-IsBlock path nodes []

start : Impl
start = init_impl block 2

two_nodes : 2 ≤ length block.subgraph
unfolding init_block
two_nodes = omega arith

start-IsNode : IsNode path block (length block.subgraph) 2 start
unfolding start
start-IsNode =
    (init_impl-IsNode path path-IsGraph block 2 block-IsBlock (omega (arith, two_nodes))
      (omega arith) (inl (omega arith))).0

-- The children, as a list of states.
abbrev collect : Impl → List Impl → Bool × List Impl
collect t w = (true, w ++ t ∷ [])

abbrev IsChildOfStart : Impl → Type 0
IsChildOfStart =
    IsChild insertion_sort occurrences-insertion_sort path path-IsGraph block block-IsBlock 2
      (omega arith) start

list_children-IsChild_example :
    Each IsChildOfStart (list_children insertion_sort path block collect 2 1 true start [])
list_children-IsChild_example =
    list_children-IsChild insertion_sort occurrences-insertion_sort path path-IsGraph block
      block-IsBlock 2 (omega arith) collect (Each IsChildOfStart) start start-IsNode
      (λ t w child p. Each-append IsChildOfStart w t p child) 1 true [] tt

kplexes : List Impl → List (List ℕ)
kplexes [] = []
kplexes (t ∷ ts) = t.kplex ∷ kplexes ts

run : Unit {0}
unfolding start init_impl init_block fill_nadj complement_from init_counters init_cands
    list_children each_child get_cands find_universals count_cands real_cands partly_far not_cuts
    not_cut near_slots cands_of best_pivot has_universal_in_excl universal_among no_cand
    add_universals add_to_kplex count_non_neighs update_cand_and_excl update_excluded update_cands
    can_add can_add_node can_add_loop is_maximal all_far can_prune kplexes
run = tt

-- The node 1 is a neighbour of both others, so it is added at once.
children-start :
    kplexes (list_children insertion_sort path block collect 2 1 true start []) ≡ (0 ∷ 1 ∷ []) ∷ []
unfolding run
children-start = refl
