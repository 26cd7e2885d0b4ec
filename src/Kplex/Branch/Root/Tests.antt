-- ===== src/Kplex/Branch/Root/Tests.antt =====
-- A run of `GetRoot` on a path of three nodes, and its theorem at it.
use parallel_enum.Base.{
  ℕ, zero, suc, ◌+◌, ◌≤◌, ◌<◌, ◌≡◌, refl, Bool, true, false, List, [], ◌∷◌, ◌++◌, some, arith,
  get_or, ◌⊎◌,
}
use parallel_enum.Graph.{fwd_degree}
use parallel_enum.Graph.Path.{path, path-IsGraph}
use parallel_enum.Kplex.{Impl, Block}
use parallel_enum.Kplex.Branch.Root.{
  RootScratch, get_root, visit_root, mark, count_near, filter_loop, filter_until_stable,
  count_neighs, count_all, add_candidates, extend_subgraph,
}
use parallel_enum.Kplex.Branch.{
  init_block, init_impl, fill_nadj, complement_from, init_counters, init_cands,
}
use parallel_enum.Kplex.Branch.Root.Ends.{IsClean, CalledOnce, get_root-CalledOnce}
use parallel_enum.Kplex.Branch.Root.Sizes.{root_size}
use parallel_enum.Kplex.Branch.Root.Copies.{scratch_of, IsSizeOf, root_size-IsSizeOf}
use parallel_enum.Kplex.Branch.Root.Largest.{fresh, block_sizes, block_sizes-IsLargest}

abbrev scratch : RootScratch
scratch = record {
  subgraph_added = false ∷ false ∷ false ∷ [];
  subgraph_counts = 0 ∷ 0 ∷ 0 ∷ [];
  nadj = [];
}

scratch-added : (i : ℕ) → get_or scratch.subgraph_added i false ≡ false
scratch-added zero = refl
scratch-added (suc zero) = refl
scratch-added (suc (suc zero)) = refl
scratch-added (suc (suc (suc i))) = refl

scratch-counts : (i : ℕ) → get_or scratch.subgraph_counts i 0 ≡ 0
scratch-counts zero = refl
scratch-counts (suc zero) = refl
scratch-counts (suc (suc zero)) = refl
scratch-counts (suc (suc (suc i))) = refl

-- The blocks that are called back on, by their subgraphs.
abbrev collect : Block → Impl → List (List ℕ) → Bool × List (List ℕ)
collect b t w = (true, w ++ b.subgraph ∷ [])

get_root-CalledOnce_example :
    (s' : RootScratch) × (w' : List (List ℕ)) × (get_root path collect 2 3 0 scratch []
      ≡ some (s', w'))
    × IsClean s'
    × (fwd_degree path 0 + 2 < 3 → w' ≡ [])
    × (3 ≤ fwd_degree path 0 + 2 → CalledOnce path path-IsGraph collect 2 3 0 (omega arith) [] w')
get_root-CalledOnce_example =
    get_root-CalledOnce path path-IsGraph collect 2 3 0 (omega arith) scratch []
      (record { added = scratch-added; counts = scratch-counts })

-- The node 2 comes in as a neighbour of the neighbour 1.
get_root-path :
    get_root path collect 2 3 0 scratch []
    ≡ some (
      record {
        subgraph_added = false ∷ false ∷ false ∷ [];
        subgraph_counts = 0 ∷ 0 ∷ 0 ∷ [];
        nadj = (0 ∷ 2 ∷ []) ∷ (1 ∷ []) ∷ (0 ∷ 2 ∷ []) ∷ [];
      },
      (0 ∷ 1 ∷ 2 ∷ []) ∷ [],
    )
unfolding get_root visit_root mark count_near filter_loop filter_until_stable count_neighs count_all
    add_candidates extend_subgraph init_block init_impl fill_nadj complement_from init_counters
    init_cands
get_root-path = refl

root_size-IsSizeOf_example :
    (s' : RootScratch) × (w' : List (List ℕ)) × (n : ℕ) × (get_root path collect 2 3 0 scratch []
      ≡ some (s', w'))
    × (root_size path 2 3 0 (scratch_of scratch) ≡ some (scratch_of s', n))
    × IsSizeOf path 2 3 collect 0 scratch [] n w'
root_size-IsSizeOf_example = root_size-IsSizeOf path 2 3 collect 0 scratch []

block_sizes-IsLargest_example :
    (big : ℕ) × (tot : ℕ) × (block_sizes path 2 3 (fresh 3) ≡ some (fresh 3, (big, tot)))
    × ((v : ℕ) → v < 3 → (n : ℕ) × (root_size path 2 3 v (fresh 3) ≡ some (fresh 3, n)) × (n ≤ big))
    × ((big ≡ 0) ⊎ ((v : ℕ) × (v < 3) × (root_size path 2 3 v (fresh 3) ≡ some (fresh 3, big))))
block_sizes-IsLargest_example = block_sizes-IsLargest path path-IsGraph 2 3 (omega arith)
