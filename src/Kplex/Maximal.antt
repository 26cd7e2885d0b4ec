-- ===== src/Kplex/Maximal.antt =====
-- What `IsReallyMaximal` accepts (enumerable/diam2kplex.hpp).
use parallel_enum.Base.{
  ℕ, zero, suc, ◌≤◌, ◌<◌, ◌≡◌, ◌∙◌, true, false, List, [], ◌∷◌, ◌++◌, length, map, arith, mem,
  Bool-cases, inl, inr, Each, IsAscending, mem-append,
}
use parallel_enum.Graph.{Graph, IsGraph}
use parallel_enum.Kplex.{
  Impl, Block, node_at, can_add_node, is_maximal, smaller_can_be_added, extends_below,
  is_really_maximal, to_item,
}
use parallel_enum.Kplex.Counters.{far, far-append, IsPlex, IsCounted}
use parallel_enum.Kplex.CanAdd.{can_add_node_iff}

lt_of_mem : (x w : ℕ) (xs : List ℕ) → Each (λ y. x < y) xs → mem w xs ≡ true → x < w
lt_of_mem x w [] h m = absurd (cc)
lt_of_mem x w (y ∷ xs) h m = ground (arith, lt_of_mem x w xs)

few_far :
    (g : Graph) (w : ℕ) (nodes : List ℕ) (k : ℕ)
    → IsGraph g
    → IsPlex g k (nodes ++ w ∷ [])
    → far g w nodes < k
few_far g w nodes k v larger = elim (Bool-cases (g.are_neighs w w)) [
  | inl h ↦ absurd (v.irreflexive w h)
  | inr h ↦
      let le = larger w (ground (arith, mem-append w nodes (w ∷ []))) in
      ground (arith, far-append g w nodes (w ∷ []))
]

module _ (g : Graph) (b : Block) (k : ℕ) (s : Impl) (w : ℕ) where
  -- The scan of the ascending neighbours may stop at the first that is not smaller.
  not-smaller_can_be_added :
      (first : ℕ) (ns : List ℕ)
      → IsAscending ns
      → smaller_can_be_added g b k s first ns ≡ false
      → mem w ns ≡ true
      → w < first
      → can_add_node g b k s w ≡ false
  unfolding smaller_can_be_added
  not-smaller_can_be_added first [] asc h m lt = cc
  not-smaller_can_be_added first (n ∷ ns) asc h m lt =
      ground (arith, not-smaller_can_be_added first ns asc.1, lt_of_mem n w ns asc.0)

  -- A node with fewer non-neighbours than members looked at is a neighbour of one of these.
  not-extends_below :
      IsGraph g
      → (rounds : ℕ) (members : List ℕ) → extends_below g b k s rounds members ≡ false
      → rounds ≤ length members
      → far g w (map (node_at b) members) < rounds
      → w < node_at b 0
      → can_add_node g b k s w ≡ false
  unfolding extends_below
  not-extends_below v zero members h enough few lt = absurd (omega arith)
  not-extends_below v (suc rounds) [] h enough few lt = absurd (omega arith)
  not-extends_below v (suc rounds) (i ∷ members) h enough few lt =
      let x = node_at b i in
      elim (Bool-cases (g.are_neighs w x)) [
        | inl near ↦
            let listed = (v.neighs_iff x w).1 (v.symmetric x w ∙ near) in
            not-smaller_can_be_added (node_at b 0) (g.neighs x) (v.ascending x) (ground arith)
              listed lt
        | inr away ↦
            not-extends_below v rounds members (ground arith) (omega arith) (ground arith) lt
      ]

-- On an undirected graph with k below 256, if the counters count non-neighbours modulo 256, the
-- members are indices of the block and the k-plex is one, a state that `IsReallyMaximal` accepts
-- has at least q members; if it has at least k, no candidate and no excluded node is left, and no
-- node smaller than the first of the block gives a larger k-plex.
pub is_really_maximal_lem :
    (g : Graph) (b : Block) (n k q : ℕ) (s : Impl)
    → IsGraph g
    → IsCounted g b n s
    → k < 256
    → ((i : ℕ) → mem i s.kplex ≡ true → i < n)
    → IsPlex g k (to_item b s)
    → is_really_maximal g b k q s ≡ true
    → (q ≤ length s.kplex)
      × (k ≤ length s.kplex
          → (s.cands ≡ [])
            × (s.excluded ≡ [])
            × ((w : ℕ) → w < node_at b 0 → ¬ IsPlex g k (to_item b s ++ w ∷ [])))
unfolding is_really_maximal is_maximal to_item
is_really_maximal_lem g b n k q s v ok small within plex h = (
  ground arith,
  λ big. (
    ground arith,
    ground arith,
    λ w lt larger.
        let no =
          not-extends_below g b k s w v k s.kplex (ground arith) big
            (few_far g w (map (node_at b) s.kplex) k v larger) lt in
        let can = (can_add_node_iff g b k s v ok small within plex w).1 larger in cc,
  ),
)
