-- ===== src/Kplex/Branch.antt =====
-- The branching of the search for k-plexes: `Init` of a block and of its first state,
-- `HasUniversalInExcl`, `GetCands` and `ListChildren` (enumerable/diam2kplex.hpp). `std::sort` is the
-- parameter `sort`. `cand_counters`, which the size of the block bounds, are taken not to wrap.
pub mod Universal
pub mod Adding
pub mod Cands
pub mod Children
pub mod Complement
pub mod Filling
pub mod Start
pub mod Root
mod Tests
use parallel_enum.Base.{
  ℕ, zero, suc, ◌+◌, ◌*◌, ◌%◌, ◌-◌, Bool, true, false, not, ◌&&◌, List, [], ◌∷◌, ◌++◌, length,
  get_or, set, ltb, ◌==◌, if◌then◌else◌, replicate,
}
use parallel_enum.Graph.{Graph}
use parallel_enum.Kplex.{
  Impl, Block, node_at, row, counter, status_of, in_kplex, in_cand, is_empty, is_maximal, can_prune,
  add_to_kplex, update_cand_and_excl,
}

-- The inner loop of `Diam2KplexNode::Init`: the indices `j` and above of the non-neighbours of `v`.
pub complement_from : Graph → ℕ → ℕ → List ℕ → List ℕ
complement_from g v j [] = []
complement_from g v j (w ∷ ws) =
    let rest = complement_from g v (suc j) ws in if g.are_neighs v w then rest else j ∷ rest

-- Its outer loop, on rows that are empty.
pub fill_nadj : Graph → List ℕ → ℕ → List ℕ → List (List ℕ) → List (List ℕ)
fill_nadj g subgraph i [] nadj = nadj
fill_nadj g subgraph i (v ∷ vs) nadj =
    fill_nadj g subgraph (suc i) vs (set nadj i (complement_from g v 0 subgraph))

-- `nadj` has at least as many rows as before.
pub init_block : Graph → List ℕ → List (List ℕ) → Block
init_block g subgraph old = record {
  subgraph = subgraph;
  nadj =
      fill_nadj g subgraph 0 subgraph
        (replicate (if ltb (length old) (length subgraph) then length subgraph else length old) []);
}

-- `non_neighs[k * i + counters[i]++] = 0` for the non-neighbours of the first node.
pub init_counters : ℕ → List ℕ → Impl → Impl
init_counters k [] s = s
init_counters k (i ∷ is) s = init_counters k is (record s {
  non_neighs = set s.non_neighs (k * i + counter s i) 0;
  counters = set s.counters i ((counter s i + 1) % 256);
})

-- Every index from `i` on, `count` of them, becomes a candidate.
pub init_cands : ℕ → ℕ → Impl → Impl
init_cands zero i s = s
init_cands (suc count) i s =
    init_cands count (suc i)
      (record s { cands = s.cands ++ i ∷ []; status = set s.status i in_cand })

pub init_impl : Block → ℕ → Impl
init_impl b k =
    let n = length b.subgraph in
    init_cands (n - 1) 1 (
      init_counters k (row b 0) (record {
        kplex = 0 ∷ [];
        counters = replicate n 0;
        status = set (replicate n 0) 0 in_kplex;
        non_neighs = replicate (k * n) 0;
        cands = [];
        excluded = [];
      }))

-- No index of the row is a candidate.
pub no_cand : Impl → List ℕ → Bool
no_cand s [] = true
no_cand s (v ∷ vs) = if status_of s v == in_cand then false else no_cand s vs

pub universal_among : Block → Impl → List ℕ → Bool
universal_among b s [] = false
universal_among b s (u ∷ us) =
    if not (counter s u == 0)
    then universal_among b s us
    else if no_cand s (row b u)
    then true
    else universal_among b s us

pub has_universal_in_excl : Block → Impl → Bool
has_universal_in_excl b s = universal_among b s s.excluded

-- `if (status[v] == in_cand && u != v) cand_counters[u]++;` over the row of `u`.
pub count_cands : Impl → ℕ → List ℕ → List ℕ → List ℕ
count_cands s u [] cand_counters = cand_counters
count_cands s u (v ∷ vs) cand_counters = count_cands s u vs (
    if status_of s v == in_cand && not (u == v)
    then set cand_counters u (get_or cand_counters u 0 + 1)
    else cand_counters)

-- The first loop of `GetCands`: `cand_counters` and `universals`.
pub find_universals : Block → Impl → List ℕ → List ℕ → List ℕ → List ℕ × List ℕ
find_universals b s [] cand_counters universals = (cand_counters, universals)
find_universals b s (u ∷ us) cand_counters universals =
    let counts = count_cands s u (row b u) cand_counters in
    find_universals b s us counts
      (if counter s u == 0 && get_or counts u 0 == 0 then universals ++ u ∷ [] else universals)

-- Whether `v` is a neighbour of the non-neighbours in the slots from `i` on.
pub near_slots : Graph → Block → Impl → ℕ → ℕ → ℕ → Bool
near_slots g b s v i zero = true
near_slots g b s v i (suc count) =
    if g.are_neighs (node_at b v) (node_at b (get_or s.non_neighs i 0))
    then near_slots g b s v (suc i) count
    else false

pub not_cut : Graph → Block → ℕ → Impl → ℕ → List ℕ → List ℕ
not_cut g b k s u [] = []
not_cut g b k s u (v ∷ vs) =
    let rest = not_cut g b k s u vs in
    if not (g.are_neighs (node_at b u) (node_at b v))
    then v ∷ rest
    else if near_slots g b s v (k * u) (counter s u)
    then rest
    else v ∷ rest

pub cands_of : Impl → List ℕ → List ℕ
cands_of s [] = []
cands_of s (v ∷ vs) =
    let rest = cands_of s vs in if status_of s v == in_cand then v ∷ rest else rest

-- `not_cuts(u, cb)`, as the list of nodes that it calls back on.
pub not_cuts : Graph → Block → ℕ → Impl → ℕ → List ℕ
not_cuts g b k s u = if k == 1 then cands_of s (row b u) else not_cut g b k s u s.cands

-- The pivot with the fewest nodes that are not cut: `best` and `best_not_cuts`.
pub best_pivot : Graph → Block → ℕ → Impl → List ℕ → ℕ × ℕ → ℕ × ℕ
best_pivot g b k s [] best = best
best_pivot g b k s (u ∷ us) (best, best_not_cuts) =
    let count = length (not_cuts g b k s u) in
    best_pivot g b k s us (if ltb count best_not_cuts then (u, count) else (best, best_not_cuts))

-- The candidates that are neighbours of some member.
pub partly_far : Impl → List ℕ → List ℕ
partly_far s [] = []
partly_far s (u ∷ us) =
    let rest = partly_far s us in if not (counter s u == length s.kplex) then u ∷ rest else rest

-- `real_cands` before it is sorted.
pub real_cands : Graph → Block → ℕ → Bool → Impl → List ℕ
real_cands g b k enable_pivoting s =
    if enable_pivoting && ltb k (length s.kplex + 1)
    then not_cuts g b k s
        (best_pivot g b k s s.excluded
          (best_pivot g b k s s.cands (get_or s.cands 0 0, length s.cands))).0
    else partly_far s s.cands

pub add_universals : Block → ℕ → List ℕ → Impl → Impl
add_universals b k [] s = s
add_universals b k (u ∷ us) s = add_universals b k us (add_to_kplex b k u s)

module _ (sort : (ℕ → ℕ → Bool) → List ℕ → List ℕ) (g : Graph) (b : Block) where
  -- `GetCands` on empty vectors: `universals` and `real_cands`.
  pub get_cands : ℕ → Bool → Impl → List ℕ × List ℕ
  get_cands k enable_pivoting s =
      if is_empty s.cands
      then ([], [])
      else let (counts, universals) =
          find_universals b s s.cands (replicate (length b.subgraph) 0) [] in
        if not (is_empty universals) then (universals, []) else (
          [],
          sort (λ x y. ltb (counter s y + get_or counts y 0) (counter s x + get_or counts x 0))
              (real_cands g b k enable_pivoting s),
        )

  module _ {W : Type 0} (cb : Impl → W → Bool × W) (k : ℕ) where
    -- The loop over the sorted candidates, which a `false` ends.
    pub each_child : Impl → List ℕ → List ℕ → List Bool → W → W
    each_child s [] add_to_excl add_to_excl_bitset w = w
    each_child s (c ∷ cs) add_to_excl add_to_excl_bitset w =
        let child =
          update_cand_and_excl g b k add_to_excl add_to_excl_bitset (add_to_kplex b k c s) in
        let (go_on, w') = cb child w in
        let rest = each_child s cs (add_to_excl ++ c ∷ []) (set add_to_excl_bitset c true) w' in
        if go_on then rest else w'

    pub list_children : ℕ → Bool → Impl → W → W
    list_children q enable_pivoting s w =
        if is_maximal k s
        then w
        else if can_prune q s
        then w
        else if has_universal_in_excl b s
        then w
        else let (universals, sorted_cands) = get_cands k enable_pivoting s in
          let no_bits = replicate (length b.subgraph) false in
          if not (is_empty universals)
          then (cb (update_cand_and_excl g b k [] no_bits (add_universals b k universals s)) w).1
          else each_child s sorted_cands [] no_bits w
