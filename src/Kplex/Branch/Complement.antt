-- ===== src/Kplex/Branch/Complement.antt =====
-- The complement of a block that `Diam2KplexNode::Init` makes (enumerable/diam2kplex.hpp).
use parallel_enum.Base.{
  ℕ, zero, suc, ◌+◌, ◌<◌, ◌≡◌, refl, ◌∙◌, List, [], ◌∷◌, length, get_or, set, arith, occurrences,
  length-set, if◌then◌else◌, ap, subst, ltb, replicate, length-replicate, get_or-set_self,
  get_or-set_ne,
}
use parallel_enum.Graph.{Graph}
use parallel_enum.Kplex.Branch.{complement_from, fill_nadj, init_block}
use parallel_enum.Kplex.Counters.{IsBlock}

module _ (g : Graph) where
  -- The complement of a row lists an index once if its node is no neighbour.
  occurrences-complement_from_below :
      (v : ℕ) (ws : List ℕ) (i j : ℕ) → j < i → occurrences j (complement_from g v i ws) ≡ 0
  unfolding complement_from
  occurrences-complement_from_below v [] i j lt = refl
  occurrences-complement_from_below v (w ∷ ws) i j lt =
      ground (arith, occurrences-complement_from_below v ws (suc i) j)

  occurrences-complement_from :
      (v : ℕ) (ws : List ℕ) (i m : ℕ)
      → m < length ws
      → occurrences (i + m) (complement_from g v i ws)
        ≡ (if g.are_neighs v (get_or ws m 0) then 0 else 1)
  unfolding complement_from
  occurrences-complement_from v [] i m lt = absurd (omega arith)
  occurrences-complement_from v (w ∷ ws) i zero lt =
      ground (arith, occurrences-complement_from_below v ws (suc i) i)
  occurrences-complement_from v (w ∷ ws) i (suc m) lt =
      let e : suc i + m ≡ i + suc m = omega arith in
      let rest = occurrences-complement_from v ws (suc i) m (omega arith) in
      let here : occurrences (i + suc m) (complement_from g v (suc i) ws)
          ≡ (if g.are_neighs v (get_or ws m 0) then 0 else 1) =
        subst
          (λ z.
            occurrences z (complement_from g v (suc i) ws)
            ≡ (if g.are_neighs v (get_or ws m 0) then 0 else 1))
          e rest in
      ground arith

  module _ (subgraph : List ℕ) where
    fill_nadj_below :
        (vs : List ℕ) (i j : ℕ) (nadj : List (List ℕ))
        → j < i
        → get_or (fill_nadj g subgraph i vs nadj) j [] ≡ get_or nadj j []
    unfolding fill_nadj
    fill_nadj_below [] i j nadj lt = refl
    fill_nadj_below (v ∷ vs) i j nadj lt =
        fill_nadj_below vs (suc i) j _ (omega arith)
        ∙ get_or-set_ne nadj i j _ [] (λ q. absurd (omega (arith, q)))

    fill_nadj_row :
        (vs : List ℕ) (i m : ℕ) (nadj : List (List ℕ))
        → m < length vs
        → i + m < length nadj
        → get_or (fill_nadj g subgraph i vs nadj) (i + m) []
          ≡ complement_from g (get_or vs m 0) 0 subgraph
    unfolding fill_nadj
    fill_nadj_row [] i m nadj lt room = absurd (omega arith)
    fill_nadj_row (v ∷ vs) i zero nadj lt room =
        let e : i ≡ i + 0 = omega arith in
        let r = complement_from g v 0 subgraph in
        let nadj' = set nadj i r in
        subst (λ z. get_or (fill_nadj g subgraph (suc i) vs nadj') z [] ≡ r) e
          (fill_nadj_below vs (suc i) i nadj' (omega arith)
            ∙ get_or-set_self nadj i r [] (omega arith))
    fill_nadj_row (v ∷ vs) i (suc m) nadj lt room =
        let e : suc i + m ≡ i + suc m = omega arith in
        let nadj' = set nadj i (complement_from g v 0 subgraph) in
        subst
          (λ z.
            get_or (fill_nadj g subgraph (suc i) vs nadj') z []
            ≡ complement_from g (get_or vs m 0) 0 subgraph)
          e
          (fill_nadj_row vs (suc i) m nadj' (omega arith)
            (omega (arith, length-set nadj i (complement_from g v 0 subgraph))))

  -- `Init` makes `nadj` the complement of the subgraph, whatever it held before: for indices of the
  -- subgraph, row `i` lists `j` once if their nodes are no neighbours, and not at all if they are.
  pub init_block-IsBlock :
      (subgraph : List ℕ) (old : List (List ℕ))
      → IsBlock g (init_block g subgraph old) (length subgraph)
  unfolding init_block
  init_block-IsBlock subgraph old =
      let rows = if ltb (length old) (length subgraph) then length subgraph else length old in
      let blank : List (List ℕ) = replicate rows [] in
      record {
        complement = λ i j li lj.
            let room : 0 + i < length blank =
              rw (length-replicate {A = List ℕ} rows []) (ground arith) in
            let here = fill_nadj_row subgraph subgraph 0 i blank li room in
            let e : 0 + i ≡ i = omega arith in
            let e' : 0 + j ≡ j = omega arith in
            let comp = complement_from g (get_or subgraph i 0) 0 subgraph in
            let there =
              subst (λ z. get_or (fill_nadj g subgraph 0 subgraph blank) z [] ≡ comp) e here in
            ap (occurrences j) there
            ∙ subst
                (λ z.
                  occurrences z comp
                  ≡ (if g.are_neighs (get_or subgraph i 0) (get_or subgraph j 0) then 0 else 1))
                e' (occurrences-complement_from (get_or subgraph i 0) subgraph 0 j lj);
      }
