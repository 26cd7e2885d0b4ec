-- ===== src/Kplex/Branch/Root/Ends.antt =====
-- `GetRoot` of the enumeration of k-plexes ends, with its scratch vectors clean, and calls back on a
-- state that the search may visit (enumerable/diam2kplex.hpp).
use parallel_enum.Base.{
  ℕ, zero, suc, ◌+◌, ◌≤◌, ◌<◌, ◌≡◌, refl, Bool, true, false, List, [], ◌∷◌, some, length, get_or,
  set, ltb, ◌==◌, ==_iff, arith, mem, Bool-cases, inl, inr, get_or-set_ne, ◌⊎◌, mem-get_or,
}
use parallel_enum.Graph.{Graph, IsGraph, fwd_degree, mem-fwd_neighs}
use parallel_enum.Kplex.{Impl, Block, node_at}
use parallel_enum.Kplex.Branch.{init_block, init_impl}
use parallel_enum.Kplex.Branch.Complement.{init_block-IsBlock}
use parallel_enum.Kplex.Branch.Start.{init_impl-IsNode}
use parallel_enum.Kplex.Counters.{IsBlock}
use parallel_enum.Kplex.Node.{IsNode}
use parallel_enum.Kplex.Branch.Root.Loops.{
  filter_until_stable-mem, Zeros, extend_subgraph-zero, mark-off, mark-on,
}
use parallel_enum.Kplex.Branch.Root.{RootScratch, mark, extend_subgraph, visit_root, get_root}

-- Both vectors are all false or zero.
pub record IsClean (s : RootScratch) : Type 0 where
  pub added : (i : ℕ) → get_or s.subgraph_added i false ≡ false
  pub counts : Zeros s.subgraph_counts

module _ {W : Type 0} (g : Graph) (good : IsGraph g) (cb : Block → Impl → W → Bool × W) (k q v : ℕ)
    (pos : 1 ≤ k) where
  -- `w'` comes from one call of the callback, on the first state of a block of the root.
  abbrev pub CalledOnce : W → W → Type 0
  CalledOnce w w' =
      (b : Block) × (t : Impl) × (w' ≡ (cb b t w).1)
      × IsBlock g b (length b.subgraph)
      × IsNode g b (length b.subgraph) k t
      × (node_at b 0 ≡ v)
      × (t.kplex ≡ 0 ∷ [])

  near_root :
      (sg : List ℕ) (e : ℕ)
      → ((a : ℕ) → mem a sg ≡ true → mem a (g.fwd_neighs v) ≡ true)
      → 1 ≤ e
      → e < length (v ∷ sg)
      → g.are_neighs v (get_or (v ∷ sg) e 0) ≡ true
  near_root sg zero from pos lt = absurd (omega arith)
  near_root sg (suc e) from pos lt =
      ((mem-fwd_neighs g good v (get_or sg e 0)).0
        (from (get_or sg e 0) (mem-get_or sg e 0 (omega arith)))).0

  visit_root-CalledOnce :
      (s : RootScratch) (sg : List ℕ) (w : W)
      → IsClean s
      → ((a : ℕ) → mem a sg ≡ true → mem a (g.fwd_neighs v) ≡ true)
      → IsClean (visit_root g cb k q v s sg w).0 × CalledOnce w (visit_root g cb k q v s sg w).1
  unfolding visit_root init_block
  visit_root-CalledOnce s sg w clean from =
      let fwd = g.fwd_neighs v in
      let start = set s.subgraph_added v true in
      let added = mark true fwd start in
      let (zeros, more, whole, short) =
        extend_subgraph-zero g k q v added sg s.subgraph_counts clean.counts in
      let subgraph = (extend_subgraph g k q v added sg s.subgraph_counts).0 in
      let block = init_block g subgraph s.nadj in
      let is_block = init_block-IsBlock g subgraph s.nadj in
      let root_in : mem v subgraph ≡ true = rw whole (ground arith) in
      let some_node : 1 ≤ length subgraph = rw whole (omega arith) in
      let close : (2 ≤ k)
          ⊎ ((e : ℕ)
              → 1 ≤ e
              → e < length subgraph
              → g.are_neighs (get_or subgraph 0 0) (get_or subgraph e 0) ≡ true) =
        elim (Bool-cases (k == 1)) [
          | inl one ↦ inr (rw (short ((==_iff k 1).0 one)) (λ e le lt. near_root sg e from le lt))
          | inr other ↦ inl (ground arith)
        ] in
      let (node, kplex, _) = init_impl-IsNode g good block k is_block some_node pos close in
      (
        record {
          added = λ i.
              let off = mark-off fwd (mark false subgraph added) i in
              let off' = mark-off subgraph added i in
              elim (Bool-cases (i == v)) [
                | inl e ↦
                    let e' : i ≡ v = (==_iff i v).0 e in
                    let here : mem i subgraph ≡ true = rw e' root_in in ground arith
                | inr d ↦
                    let same =
                      get_or-set_ne s.subgraph_added v i true false (λ z. absurd (ground arith)) in
                    let clear = clean.added i in let on = mark-on fwd start i in ground arith
              ];
          counts = zeros;
        },
        (block, init_impl block k, refl, is_block, node, rw whole refl, kplex),
      )

  -- On an undirected graph, with k at least 1 and from clean scratch vectors (all false or zero),
  -- `GetRoot` ends and leaves them clean. If the root has too few larger neighbours it calls back
  -- on nothing. Otherwise it calls back once, on a block whose `nadj` is the complement and whose
  -- first node is the root, and on a state that the search may visit, whose only member is this
  -- node.
  pub get_root-CalledOnce :
      (s : RootScratch) (w : W)
      → IsClean s
      → (s' : RootScratch) × (w' : W) × (get_root g cb k q v s w ≡ some (s', w'))
        × IsClean s'
        × (fwd_degree g v + k < q → w' ≡ w)
        × (q ≤ fwd_degree g v + k → CalledOnce w w')
  unfolding get_root
  get_root-CalledOnce s w clean = elim (Bool-cases (ltb (fwd_degree g v + k) q)) [
    | inl few ↦ rw few (s, w, refl, clean, λ lt. refl, λ le. absurd (ground arith))
    | inr enough ↦
        let (kept, run, from) =
          filter_until_stable-mem g k q (suc (fwd_degree g v)) (g.fwd_neighs v) (omega arith) in
        let (clean', called) = visit_root-CalledOnce s kept w clean from in
        rw (enough, run)
          (
            (visit_root g cb k q v s kept w).0,
            (visit_root g cb k q v s kept w).1,
            refl,
            clean',
            λ lt. absurd (ground arith),
            λ le. called,
          )
  ]
