-- ===== src/Kplex/Branch/Start.antt =====
-- The first state of a block that `Init` makes (enumerable/diam2kplex.hpp).
use parallel_enum.Base.{
  ℕ, ◌-◌, ◌*◌, ◌≤◌, ◌<◌, ◌≡◌, ◌≢◌, ◌↔◌, ◌⊎◌, ◌∙◌, true, false, List, [], ◌∷◌, length, set, ◌==◌,
  ==_iff, arith, mem, length-set, Bool-cases, inl, inr, ap, replicate, length-replicate,
  get_or-replicate,
}
use parallel_enum.Graph.{Graph, IsGraph}
use parallel_enum.Kplex.{Impl, Block, node_at, row, status_of, in_kplex, in_cand}
use parallel_enum.Kplex.Branch.{init_counters, init_impl}
use parallel_enum.Kplex.Branch.Filling.{init_counters-Counted, init_cands-Filled}
use parallel_enum.Kplex.Counters.{IsPlex, IsCounted, IsBlock}
use parallel_enum.Kplex.Node.{IsNode, set-in_cand}

module _ (g : Graph) (v : IsGraph g) (b : Block) (k : ℕ)
    (block : IsBlock g b (length b.subgraph)) where
  -- The first state before its candidates are listed.
  abbrev blank : Impl
  blank = record {
    kplex = 0 ∷ [];
    counters = replicate (length b.subgraph) 0;
    status = set (replicate (length b.subgraph) 0) 0 in_kplex;
    non_neighs = replicate (k * length b.subgraph) 0;
    cands = [];
    excluded = [];
  }

  status-blank : (e : ℕ) → status_of blank e ≢ in_cand
  status-blank e h =
      let zeros : List ℕ = replicate (length b.subgraph) 0 in
      let was = set-in_cand zeros 0 in_kplex e (λ q. absurd (omega (arith, q))) h in
      absurd (omega (arith, was, get_or-replicate {A = ℕ} (length b.subgraph) e 0))

  pair-IsPlex : (x y : ℕ) → 1 ≤ k → (2 ≤ k) ⊎ (g.are_neighs x y ≡ true) → IsPlex g k (x ∷ y ∷ [])
  pair-IsPlex x y pos (inl two) w m = ground arith
  pair-IsPlex x y pos (inr near) w m =
      let flip = v.symmetric x y in
      elim (Bool-cases (w == x)) [
        | inl e ↦ let e' : w ≡ x = (==_iff w x).0 e in rw e' (ground arith)
        | inr e ↦ let e' : w ≡ y = ground arith in rw e' (ground arith)
      ]

  -- On an undirected graph and a block that is not empty and whose `nadj` is the complement, `Init`
  -- makes a state that the search may visit, if k is at least 2, or is 1 and the first node is a
  -- neighbour of all others. Its only member is the first node and its candidates are the others.
  pub init_impl-IsNode :
      1 ≤ length b.subgraph
      → 1 ≤ k
      → (2 ≤ k)
        ⊎ ((e : ℕ)
            → 1 ≤ e
            → e < length b.subgraph
            → g.are_neighs (node_at b 0) (node_at b e) ≡ true)
      → IsNode g b (length b.subgraph) k (init_impl b k)
        × ((init_impl b k).kplex ≡ 0 ∷ [])
        × ((e : ℕ) → (mem e (init_impl b k).cands ≡ true) ↔ ((1 ≤ e) × (e < length b.subgraph)))
  unfolding init_impl
  init_impl-IsNode some_node pos close =
      let n = length b.subgraph in
      let mid = init_counters k (row b 0) blank in
      let c = init_counters-Counted k (row b 0) blank in
      let zeros : length blank.counters ≡ n = length-replicate {A = ℕ} n 0 in
      let f = init_cands-Filled n (n - 1) 1 mid (omega arith) (omega arith) (record {
        members = λ e. rw c.cands (ground arith);
        distinct = λ e. rw c.cands (omega arith);
        marked = λ e. rw (c.cands, c.status) (λ h. absurd (status-blank e h), λ h. absurd (cc));
        sized =
            ap length c.status
            ∙ length-set (replicate n 0) 0 in_kplex
            ∙ length-replicate {A = ℕ} n 0;
      }) in
      let kplex = f.kplex ∙ c.kplex in
      let x = node_at b 0 in
      let no_loop : (a : ℕ) → g.are_neighs a a ≡ false = λ a. elim (Bool-cases (g.are_neighs a a)) [
        | inl h ↦ absurd (v.irreflexive a h)
        | inr h ↦ h
      ] in
      let counts : IsCounted g b n (init_impl b k) = record {
        sized = ap length f.counters ∙ c.sized ∙ zeros;
        bytes = λ i. rw f.counters (c.bytes (λ j. omega (arith, get_or-replicate {A = ℕ} n j 0)) i);
        counted = λ i lt.
            let small = c.bytes (λ j. omega (arith, get_or-replicate {A = ℕ} n j 0)) i in
            let up = c.counted i (rw zeros lt) in
            let from_zero = get_or-replicate {A = ℕ} n i 0 in
            let row_zero = block.complement 0 i some_node lt in
            let flip = v.symmetric x (node_at b i) in rw (f.counters, kplex) (ground arith);
      } in
      (
        record {
          core = record {
            counts = counts;
            within = rw kplex (λ i m. ground arith);
            plex = rw kplex (λ w m.
                let e : w ≡ x = ground arith in let loop = no_loop x in rw e (ground arith));
            marks = f.ranges.sized;
          };
          cands = λ e m. (
            ((f.ranges.members e).0 m).1,
            rw kplex (
                pair-IsPlex x (node_at b e) pos (
                  let r = (f.ranges.members e).0 m in
                  elim close [ inl two ↦ inl two | inr near ↦ inr (near e r.0 r.1) ])),
          );
          excluded = rw (f.excluded ∙ c.excluded) (λ e m. absurd (cc));
          are_cands = record {
            distinct = f.ranges.distinct;
            marked = λ e h. (f.ranges.marked e).0 h;
            within = λ e m. ((f.ranges.members e).0 m).1;
          };
          all_marked = λ e m. (f.ranges.marked e).1 m;
        },
        kplex,
        f.ranges.members,
      )
