-- ===== src/Clique/Tests.antt =====
-- Runs of the clique enumeration on a path of three nodes, and the theorems at it.
use parallel_enum.Base.{
  get_or-replicate, Each-append, ◌≡◌, refl, Bool, true, false, List, [], ◌∷◌, ◌++◌, arith,
  replicate, mem, Each,
}
use parallel_enum.Graph.Path.{path, path-IsGraph}
use parallel_enum.Clique.{
  CliqueNode, Scratch, list_children, get_root, candidates, find_candidates, mark_bad, bad_ok,
  gather, gather_from, each_candidate, children_cand, try_child, fill_child, min_degree, rejected,
  adjacent_to_all, complete_fwd, complete_smallest, complete_loop,
}
use parallel_enum.Clique.Complete.{IsClique, IsMaximalClique}
use parallel_enum.Clique.Frame.{IsClean}
use parallel_enum.Clique.Listing.{list_children-keeps, get_root_lem}

abbrev clean : Scratch
clean = record {
  candidates_bitset = replicate 3 false;
  candidates = [];
  child = [];
  bad_bitset = replicate 3 false;
  bad = [];
}

-- A callback that collects the nodes.
abbrev collect : CliqueNode → List CliqueNode → Bool × List CliqueNode
collect n w = (true, w ++ n ∷ [])

abbrev root : CliqueNode
root = record { clique = 0 ∷ 1 ∷ []; parind = 0 }

run : Unit {0}
unfolding list_children get_root candidates find_candidates mark_bad bad_ok gather gather_from
    each_candidate children_cand try_child fill_child min_degree rejected adjacent_to_all
    complete_fwd complete_smallest complete_loop
run = tt

get_root-path : get_root path collect 0 [] ≡ root ∷ []
unfolding run
get_root-path = refl

list_children-path :
    list_children path collect root clean []
    ≡ (clean, record { clique = 1 ∷ 2 ∷ []; parind = 2 } ∷ [])
unfolding run
list_children-path = refl

clean-IsClean : IsClean clean
clean-IsClean = record {
  no_candidate = λ v. get_or-replicate 3 v false;
  no_bad = λ v. get_or-replicate 3 v false;
  no_candidates = refl;
  no_child = refl;
  no_bads = refl;
}

root-IsClique : IsClique path root.clique
root-IsClique = record { adjacent = λ a b ma mb ne. ground arith; distinct = λ a. ground arith }

list_children-keeps_example :
    Each (λ n. IsMaximalClique path n.clique) (list_children path collect root clean []).1
list_children-keeps_example =
    list_children-keeps path path-IsGraph collect (Each (λ n. IsMaximalClique path n.clique))
      (λ n w m p. Each-append (λ n. IsMaximalClique path n.clique) w n p m) root clean []
      clean-IsClean root-IsClique tt

get_root_lem_example :
    (n : CliqueNode) × (get_root path collect 0 [] ≡ (collect n []).1)
    × IsMaximalClique path n.clique
    × (mem 0 n.clique ≡ true)
    × (n.parind ≡ 0)
get_root_lem_example = (get_root_lem path path-IsGraph collect 0 []).0 (λ b h. ground arith)

abbrev empty : Scratch
empty = record { candidates_bitset = []; candidates = []; child = []; bad_bitset = []; bad = [] }
