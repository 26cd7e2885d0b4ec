-- ===== src/Clique/Children.antt =====
-- `ListChildren` and `GetRoot` call back on maximal cliques only (enumerable/clique.hpp).
use parallel_enum.Base.{
  ℕ, ◌+◌, ◌≤◌, ◌<◌, ◌≡◌, ◌↔◌, ◌⊎◌, refl, sym, Bool, true, false, List, [], ◌∷◌, ◌++◌, arith, mem,
  occurrences, ltb, mem-append, occurrences-append, Bool-cases, inl, inr, ◌∙◌, subst,
}
use parallel_enum.Graph.{Graph, IsGraph, mem-fwd_neighs}
use parallel_enum.Clique.{
  CliqueNode, Scratch, adjacent_to_all, complete_loop, complete_smallest, complete_fwd, fill_child,
  min_degree, rejected, try_child, children_cand,
}
use parallel_enum.Clique.Complete.{
  IsClique, IsMaximalClique, adjacent_to_all_iff, complete_loop-mem, IsClique-append,
  complete_loop-IsClique, complete_loop_full,
}

module _ (g : Graph) where
  pub mem-fill_child :
      (ns : List ℕ) (cand : ℕ) (child : List ℕ) (a : ℕ)
      → (mem a (fill_child g ns cand child) ≡ true)
        ↔ ((mem a child ≡ true) ⊎ ((mem a ns ≡ true) × (a ≤ cand) × (g.are_neighs cand a ≡ true)))
  unfolding fill_child
  mem-fill_child [] cand child a = ground arith
  mem-fill_child (n ∷ ns) cand child a = ground (
    arith,
    mem-append a child (n ∷ []),
    mem-fill_child ns cand child a,
    mem-fill_child ns cand (child ++ n ∷ []) a,
  )

  occurrences-fill_child-le :
      (ns : List ℕ) (cand : ℕ) (child : List ℕ) (a : ℕ)
      → occurrences a (fill_child g ns cand child) ≤ occurrences a child + occurrences a ns
  unfolding fill_child
  occurrences-fill_child-le [] cand child a = omega arith
  occurrences-fill_child-le (n ∷ ns) cand child a = ground (
    arith,
    occurrences-append a child (n ∷ []),
    occurrences-fill_child-le ns cand child a,
    occurrences-fill_child-le ns cand (child ++ n ∷ []) a,
  )

  min_degree-mem :
      (idx : ℕ) (ns : List ℕ) → (min_degree g idx ns ≡ idx) ⊎ (mem (min_degree g idx ns) ns ≡ true)
  unfolding min_degree
  min_degree-mem idx [] = inl refl
  min_degree-mem idx (n ∷ ns) = ground (arith, min_degree-mem idx ns, min_degree-mem n ns)

  -- What a candidate that is not rejected guarantees of each node next to the whole child.
  not-rejected :
      (clique child : List ℕ) (cand : ℕ) (bad : List Bool) (ns : List ℕ) (w : ℕ)
      → rejected g clique child cand bad ns ≡ false
      → mem w ns ≡ true
      → adjacent_to_all g w child ≡ true
      → w ≤ cand
      → g.are_neighs w cand ≡ false
  unfolding rejected
  not-rejected clique child cand bad [] w r m h le = cc
  not-rejected clique child cand bad (n ∷ ns) w r m h le =
      ground (arith, not-rejected clique child cand bad ns w)

-- Some node of the clique is a smaller neighbour of `cand`.
abbrev pub HasSmaller : Graph → List ℕ → ℕ → Type 0
HasSmaller g clique cand =
    (n : ℕ) × (mem n clique ≡ true) × (n < cand) × (g.are_neighs n cand ≡ true)

module _ (g : Graph) (v : IsGraph g) where
  -- The child, its candidate and the nodes that `CompleteFwd` adds form a maximal clique, if no
  -- smaller node can be added.
  pub complete_fwd-IsMaximalClique :
      (x : ℕ) (rest : List ℕ)
      → IsClique g (x ∷ rest)
      → ((w : ℕ) → w < x → ¬ ((a : ℕ) → mem a (x ∷ rest) ≡ true → g.are_neighs w a ≡ true))
      → IsMaximalClique g (complete_fwd g (x ∷ rest))
  unfolding complete_fwd complete_smallest
  complete_fwd-IsMaximalClique x rest k none_below =
      let kept = complete_loop-mem g (g.fwd_neighs x) (x ∷ rest) in
      record {
        nonempty = λ e.
            absurd (elim (Bool-cases (mem x (complete_loop g (g.fwd_neighs x) (x ∷ rest)))) [
              | inl h ↦ cc
              | inr h ↦ let here = kept x (ground arith) in cc
            ]);
        is_clique = complete_loop-IsClique g v (g.fwd_neighs x) (x ∷ rest) k;
        maximal = λ w all.
            let near = all x (kept x (ground arith)) in
            let near' = sym (v.symmetric w x) ∙ near in
            elim (Bool-cases (ltb x w)) [
              | inl up ↦
                  complete_loop_full g v (g.fwd_neighs x) (x ∷ rest) w
                    ((mem-fwd_neighs g v x w).1 (near', ground arith)) all
              | inr down ↦ elim (Bool-cases (ltb w x)) [
                | inl lt ↦ none_below w (ground arith) (λ a m. all a (kept a m))
                | inr ge ↦
                    let e : w ≡ x = ground arith in
                    v.irreflexive x (subst (λ t. g.are_neighs t x ≡ true) e near)
              ]
            ];
      }

  -- A node below the candidate that could be added to the child rejects it.
  rejects_smaller :
      (clique : List ℕ) (cand : ℕ) (bad : List Bool) (x : ℕ) (rest : List ℕ)
      → rejected g clique (x ∷ rest) cand bad (g.neighs (min_degree g x (x ∷ rest))) ≡ false
      → (u : ℕ) → u ≤ cand
      → ¬ ((a : ℕ) → mem a (x ∷ (rest ++ cand ∷ [])) ≡ true → g.are_neighs u a ≡ true)
  rejects_smaller clique cand bad x rest r u le all =
      let idx = min_degree g x (x ∷ rest) in
      let here : mem idx (x ∷ rest) ≡ true = ground (arith, min_degree-mem g x (x ∷ rest)) in
      let within : (a : ℕ) → mem a (x ∷ rest) ≡ true → g.are_neighs u a ≡ true =
        λ a m. all a (ground (arith, mem-append a rest (cand ∷ []))) in
      let listed = (v.neighs_iff idx u).1 (v.symmetric idx u ∙ within idx here) in
      let far =
        not-rejected g clique (x ∷ rest) cand bad (g.neighs idx) u r listed
          ((adjacent_to_all_iff g u (x ∷ rest)).1 within) le in
      let near = all cand (ground (arith, mem-append cand rest (cand ∷ []))) in cc

  module _ {W : Type 0} (cb : CliqueNode → W → Bool × W) (P : W → Type 0)
      (keeps : (n : CliqueNode) (w : W) → IsMaximalClique g n.clique → P w → P (cb n w).1) where
    try_child-keeps :
        (clique : List ℕ) (cand : ℕ) (bad : List Bool) (x : ℕ) (rest : List ℕ) (w : W)
        → IsClique g (x ∷ rest)
        → x ≤ cand
        → ((a : ℕ) → mem a (x ∷ rest) ≡ true → g.are_neighs cand a ≡ true)
        → P w
        → P (try_child g cb clique cand bad (x ∷ rest) w).1
    unfolding try_child
    try_child-keeps clique cand bad x rest w k le near p =
        let idx = min_degree g x (x ∷ rest) in
        elim (Bool-cases (rejected g clique (x ∷ rest) cand bad (g.neighs idx))) [
          | inl r ↦ rw r p
          | inr r ↦ rw r (
              keeps _ w
                (complete_fwd-IsMaximalClique x (rest ++ cand ∷ [])
                  (IsClique-append g v (x ∷ rest) cand k
                    ((adjacent_to_all_iff g cand (x ∷ rest)).1 near))
                  (λ u lt all. rejects_smaller clique cand bad x rest r u (omega arith) all))
                p)
        ]

    -- The nodes of the clique that are at most `cand` and next to it; one is below it.
    pub children_cand-keeps :
        (clique : List ℕ) (cand : ℕ) (s : Scratch) (w : W)
        → IsClique g clique
        → s.child ≡ []
        → HasSmaller g clique cand
        → P w
        → P (children_cand g cb clique cand s w).2
    unfolding children_cand
    children_cand-keeps clique cand s w k e small p = rw e (
        go (fill_child g clique cand []) (mem-fill_child g clique cand [])
          (occurrences-fill_child-le g clique cand []))
      where
        go :
            (c : List ℕ)
            → ((a : ℕ)
                → (mem a c ≡ true) ↔ (
                    (mem a [] ≡ true)
                    ⊎ ((mem a clique ≡ true) × (a ≤ cand) × (g.are_neighs cand a ≡ true))))
            → ((a : ℕ) → occurrences a c ≤ occurrences a [] + occurrences a clique)
            → P (try_child g cb clique cand s.bad_bitset c w).1
        go [] m few =
            let (n, here, lt, near) = small in
            absurd (elim (Bool-cases (mem n [])) [
              | inl t ↦ cc
              | inr f ↦
                  let found = (m n).1 (inr (here, omega arith, v.symmetric cand n ∙ near)) in cc
            ])
        go (x ∷ rest) m few =
            let front_ok = (m x).0 (ground arith) in
            try_child-keeps clique cand s.bad_bitset x rest w
              (record {
                adjacent =
                    λ a b ma mb ne. k.adjacent a b (ground (arith, m a)) (ground (arith, m b)) ne;
                distinct = λ a. omega (arith, few a, k.distinct a);
              })
              (ground arith) (λ a ma. ground (arith, m a)) p
