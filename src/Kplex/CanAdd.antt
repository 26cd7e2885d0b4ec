-- ===== src/Kplex/CanAdd.antt =====
-- `CanAdd` decides whether a node extends the k-plex (enumerable/diam2kplex.hpp).
use parallel_enum.Base.{
  ℕ, ◌+◌, ◌≤◌, ◌<◌, ◌≡◌, ◌↔◌, true, false, List, [], ◌∷◌, ◌++◌, map, ◌==◌, arith, mem, mem-append,
  Bool-cases, inl, inr,
}
use parallel_enum.Graph.{Graph, IsGraph}
use parallel_enum.Kplex.{Impl, Block, node_at, counter, can_add_loop, can_add_node, to_item}
use parallel_enum.Kplex.Counters.{missing, far, far-append, IsPlex, IsCounted}

pub mem_of_map :
    (b : Block) (w : ℕ) (is : List ℕ)
    → mem w (map (node_at b) is) ≡ true
    → (i : ℕ) × (mem i is ≡ true) × (node_at b i ≡ w)
mem_of_map b w [] h = absurd (cc)
mem_of_map b w (i ∷ is) h = elim (Bool-cases (w == node_at b i)) [
  | inl e ↦ (i, ground arith, ground arith)
  | inr ne ↦ let (j, here, e) = mem_of_map b w is (ground arith) in (j, ground arith, e)
]

pub mem-map :
    (b : Block) (i : ℕ) (is : List ℕ)
    → mem i is ≡ true
    → mem (node_at b i) (map (node_at b) is) ≡ true
mem-map b i [] h = absurd (cc)
mem-map b i (j ∷ is) h = ground (arith, mem-map b i is)

module _ (g : Graph) (b : Block) (k : ℕ) (s : Impl) where
  -- No non-neighbour of `v` among `is` has its `k` non-neighbours already.
  abbrev HasRoom : ℕ → List ℕ → Type 0
  HasRoom v is =
      (i : ℕ) → mem i is ≡ true → g.are_neighs v (node_at b i) ≡ false → counter s i + 1 ≤ k

  can_add_loop_iff :
      (v : ℕ) (is : List ℕ) (v_cnt : ℕ)
      → (can_add_loop g b k s v is v_cnt ≡ true) ↔ (HasRoom v is × (v_cnt + missing g b v is ≤ k))
  unfolding can_add_loop
  can_add_loop_iff v [] v_cnt = (λ h. (λ i m. absurd (cc), ground arith), λ h. ground arith)
  can_add_loop_iff v (i ∷ is) v_cnt = elim (Bool-cases (g.are_neighs v (node_at b i))) [
    | inl near ↦
        let (down, up) = can_add_loop_iff v is v_cnt in
        (
          λ h.
              let r = down (ground arith) in
              (
                λ j m far. elim (Bool-cases (j == i)) [
                  | inl e ↦ ground arith
                  | inr ne ↦ r.0 j (ground arith) far
                ],
                ground arith,
              ),
          λ h. let r = up (λ j m far. h.0 j (ground arith) far, ground arith) in ground arith,
        )
    | inr far₀ ↦
        let (down, up) = can_add_loop_iff v is (v_cnt + 1) in
        (
          λ h.
              let r = down (ground arith) in
              (
                λ j m far. elim (Bool-cases (j == i)) [
                  | inl e ↦ ground arith
                  | inr ne ↦ r.0 j (ground arith) far
                ],
                ground arith,
              ),
          λ h.
              let room = h.0 i (ground arith) far₀ in
              let r = up (λ j m far. h.0 j (ground arith) far, ground arith) in ground arith,
        )
  ]

  -- On an undirected graph with k below 256, if the counters count non-neighbours modulo 256, the
  -- members are indices of the block and the k-plex is one, `CanAdd` accepts a node of the graph
  -- exactly if the k-plex with this node appended is a k-plex.
  pub can_add_node_iff :
      {n : ℕ}
      → IsGraph g
      → IsCounted g b n s
      → k < 256
      → ((i : ℕ) → mem i s.kplex ≡ true → i < n)
      → IsPlex g k (to_item b s)
      → (v : ℕ) → (can_add_node g b k s v ≡ true) ↔ IsPlex g k (to_item b s ++ v ∷ [])
  unfolding can_add_node to_item
  can_add_node_iff good ok small within plex v =
      let (down, up) = can_add_loop_iff v s.kplex 1 in
      let nodes = map (node_at b) s.kplex in
      let self : g.are_neighs v v ≡ false = elim (Bool-cases (g.are_neighs v v)) [
        | inl h ↦ absurd (good.irreflexive v h)
        | inr h ↦ h
      ] in
      (
        λ h w m.
            let r = down h in
            let more = far-append g w nodes (v ∷ []) in
            elim (Bool-cases (mem w nodes)) [
              | inl old ↦
                  let (i, here, e) = mem_of_map b w s.kplex old in
                  let le = plex w old in
                  let exact = ok.counted i (within i here) in
                  let room = r.0 i here in let flip = good.symmetric v w in ground arith
              | inr new ↦
                  let e : w ≡ v = ground (arith, mem-append w nodes (v ∷ [])) in
                  let le : far g v (nodes ++ v ∷ []) ≤ k =
                    ground (arith, far-append g v nodes (v ∷ [])) in
                  rw e le
            ],
        λ h. up (
          λ i m away.
              let w = node_at b i in
              let here = mem-map b i s.kplex m in
              let le = h w (ground (arith, mem-append w nodes (v ∷ []))) in
              let more = far-append g w nodes (v ∷ []) in
              let flip = good.symmetric v w in
              let exact = ok.counted i (within i m) in ground arith,
          let le = h v (ground (arith, mem-append v nodes (v ∷ []))) in
              let more = far-append g v nodes (v ∷ []) in ground arith,
        ),
      )
