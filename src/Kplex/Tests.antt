-- ===== src/Kplex/Tests.antt =====
-- Runs of the k-plex state on the block of a path of three nodes, and the theorems at it.
use parallel_enum.Base.{
  ℕ, ◌≡◌, ◌≤◌, ◌<◌, ◌↔◌, refl, true, [], ◌∷◌, ◌++◌, arith, replicate, length, if◌then◌else◌,
  occurrences, zero, suc, map, ◌%◌,
}
use parallel_enum.Graph.Path.{path, path-IsGraph}
use parallel_enum.Kplex.{
  Impl, Block, add_to_kplex, count_non_neighs, can_add_node, can_add_loop, can_add,
  is_really_maximal, is_maximal, has_diameter_two, extends_below, smaller_can_be_added, all_far,
  to_item, node_at, counter, row,
}
use parallel_enum.Kplex.Counters.{far, IsPlex, IsBlock, IsCounted}
use parallel_enum.Kplex.CanAdd.{can_add_node_iff}
use parallel_enum.Kplex.Maximal.{is_really_maximal_lem}

abbrev block : Block
block = record { subgraph = 0 ∷ 1 ∷ 2 ∷ []; nadj = (0 ∷ 2 ∷ []) ∷ (1 ∷ []) ∷ (0 ∷ 2 ∷ []) ∷ [] }

block-complement :
    (i j : ℕ)
    → i < 3
    → j < 3
    → occurrences j (row block i)
      ≡ (if path.are_neighs (node_at block i) (node_at block j) then 0 else 1)
block-complement zero zero hi hj = refl
block-complement zero (suc zero) hi hj = refl
block-complement zero (suc (suc zero)) hi hj = refl
block-complement zero (suc (suc (suc j))) hi hj = absurd (omega arith)
block-complement (suc zero) zero hi hj = refl
block-complement (suc zero) (suc zero) hi hj = refl
block-complement (suc zero) (suc (suc zero)) hi hj = refl
block-complement (suc zero) (suc (suc (suc j))) hi hj = absurd (omega arith)
block-complement (suc (suc zero)) zero hi hj = refl
block-complement (suc (suc zero)) (suc zero) hi hj = refl
block-complement (suc (suc zero)) (suc (suc zero)) hi hj = refl
block-complement (suc (suc zero)) (suc (suc (suc j))) hi hj = absurd (omega arith)
block-complement (suc (suc (suc i))) j hi hj = absurd (omega arith)

block-IsBlock : IsBlock path block 3
block-IsBlock = record { complement = block-complement }

-- The k-plex of the node 0 alone, for k = 2.
abbrev start : Impl
start = record {
  kplex = 0 ∷ [];
  counters = 1 ∷ 0 ∷ 1 ∷ [];
  status = 1 ∷ 2 ∷ 2 ∷ [];
  non_neighs = replicate 6 0;
  cands = 1 ∷ 2 ∷ [];
  excluded = [];
}

start-bytes : (i : ℕ) → counter start i < 256
start-bytes zero = omega arith
start-bytes (suc zero) = omega arith
start-bytes (suc (suc zero)) = omega arith
start-bytes (suc (suc (suc i))) = omega arith

start-counted :
    (i : ℕ)
    → i < 3
    → counter start i ≡ far path (node_at block i) (map (node_at block) start.kplex) % 256
start-counted zero h = refl
start-counted (suc zero) h = refl
start-counted (suc (suc zero)) h = refl
start-counted (suc (suc (suc i))) h = absurd (omega arith)

start-IsCounted : IsCounted path block 3 start
start-IsCounted = record { sized = refl; bytes = start-bytes; counted = start-counted }

-- All three nodes.
abbrev full : Impl
full = record {
  kplex = 0 ∷ 1 ∷ 2 ∷ [];
  counters = 2 ∷ 1 ∷ 2 ∷ [];
  status = 1 ∷ 0 ∷ 0 ∷ [];
  non_neighs = replicate 6 0;
  cands = [];
  excluded = [];
}

full-bytes : (i : ℕ) → counter full i < 256
full-bytes zero = omega arith
full-bytes (suc zero) = omega arith
full-bytes (suc (suc zero)) = omega arith
full-bytes (suc (suc (suc i))) = omega arith

full-counted :
    (i : ℕ)
    → i < 3
    → counter full i ≡ far path (node_at block i) (map (node_at block) full.kplex) % 256
full-counted zero h = refl
full-counted (suc zero) h = refl
full-counted (suc (suc zero)) h = refl
full-counted (suc (suc (suc i))) h = absurd (omega arith)

full-IsCounted : IsCounted path block 3 full
full-IsCounted = record { sized = refl; bytes = full-bytes; counted = full-counted }

run : Unit {0}
unfolding add_to_kplex count_non_neighs can_add_node can_add_loop can_add is_really_maximal
    is_maximal has_diameter_two extends_below smaller_can_be_added all_far to_item
run = tt

add_to_kplex-start : (add_to_kplex block 2 2 start).counters ≡ 2 ∷ 0 ∷ 2 ∷ []
unfolding run
add_to_kplex-start = refl

full_accepted : is_really_maximal path block 2 1 full ≡ true
unfolding run
full_accepted = refl

-- A list is a k-plex if a finite check says so.
start-IsPlex : IsPlex path 2 (to_item block start)
unfolding to_item
start-IsPlex w m = let e : w ≡ 0 = ground arith in rw e (omega arith)

can_add_node_iff_example :
    (can_add_node path block 2 start 2 ≡ true) ↔ IsPlex path 2 (to_item block start ++ 2 ∷ [])
can_add_node_iff_example =
    can_add_node_iff path block 2 start path-IsGraph start-IsCounted (omega arith)
      (λ i m. ground arith) start-IsPlex 2

full-IsPlex : IsPlex path 2 (to_item block full)
unfolding to_item
full-IsPlex w m = ground arith

is_really_maximal_lem_example :
    (1 ≤ length full.kplex)
    × (2 ≤ length full.kplex
        → (full.cands ≡ [])
          × (full.excluded ≡ [])
          × ((w : ℕ) → w < node_at block 0 → ¬ IsPlex path 2 (to_item block full ++ w ∷ [])))
is_really_maximal_lem_example =
    is_really_maximal_lem path block 3 2 1 full path-IsGraph full-IsCounted (omega arith)
      (λ i m. ground arith) full-IsPlex full_accepted
