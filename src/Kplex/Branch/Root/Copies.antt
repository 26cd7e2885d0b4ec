-- ===== src/Kplex/Branch/Root/Copies.antt =====
-- The loops of `RootSize` compute what those of `GetRoot` do (ui/stats.cpp and
-- enumerable/diam2kplex.hpp).
use parallel_enum.Base.{
  ℕ, zero, suc, ◌+◌, ◌*◌, ◌≤◌, ◌<◌, ◌≡◌, refl, sym, ap, ◌∙◌, Bool, true, false, List, [], ◌∷◌, ◌++◌,
  some, length, set, ltb, leb, ◌==◌, arith, append-nil, append_assoc, Bool-cases, inl, inr,
  if◌then◌else◌,
}
use parallel_enum.Graph.{Graph, fwd_degree}
use parallel_enum.Kplex.{Impl, Block}
use parallel_enum.Kplex.Branch.{init_block, init_impl}
use parallel_enum.Kplex.Branch.Root.Loops.{filter_until_stable-mem}
use parallel_enum.Kplex.Branch.Root.Sizes.{
  SizeScratch, gather_sg, clear_added, tally, tally_neighs, count_sg, filter_from, filter_rounds,
  tally_all, take_candidates, block_nodes, block_size, root_size,
}
use parallel_enum.Kplex.Branch.Root.{
  RootScratch, mark, count_near, filter_loop, filter_until_stable, count_neighs, count_all,
  add_candidates, extend_subgraph, visit_root, get_root,
}

abbrev pub scratch_of : RootScratch → SizeScratch
scratch_of t = record { subgraph_added = t.subgraph_added; subgraph_counts = t.subgraph_counts }

gather_sg-mark :
    (ns sg : List ℕ) (added : List Bool) → gather_sg ns (sg, added) ≡ (sg ++ ns, mark true ns added)
unfolding gather_sg mark
gather_sg-mark [] sg added = ap (λ z. (z, added)) (sym (append-nil sg))
gather_sg-mark (n ∷ ns) sg added =
    gather_sg-mark ns (sg ++ n ∷ []) (set added n true)
    ∙ ap (λ z. (z, mark true ns (set added n true))) (append_assoc sg (n ∷ []) ns)

clear_added-mark : (ns : List ℕ) (added : List Bool) → clear_added ns added ≡ mark false ns added
unfolding clear_added mark
clear_added-mark [] added = refl
clear_added-mark (n ∷ ns) added = clear_added-mark ns (set added n false)

tally_neighs-count_neighs :
    (v : ℕ) (added : List Bool) (nns : List ℕ) (st : List ℕ × List ℕ)
    → tally_neighs v added nns st ≡ count_neighs v added nns st
unfolding tally tally_neighs count_neighs
tally_neighs-count_neighs v added [] st = refl
tally_neighs-count_neighs v added (nn ∷ nns) (candidates, counts) =
    tally_neighs-count_neighs v added nns (tally v added nn (candidates, counts))

module _ (g : Graph) (k q : ℕ) where
  count_sg-count_near :
      (a count : ℕ) (ws : List ℕ) → count_sg g k q a count ws ≡ count + count_near g a ws
  unfolding count_sg count_near
  count_sg-count_near a count [] = omega arith
  count_sg-count_near a count (b ∷ ws) =
      ground (arith, count_sg-count_near a (count + 1) ws, count_sg-count_near a count ws)

  filter_from-filter_loop :
      (sg filtered rest : List ℕ)
      → filter_from g k q sg filtered rest ≡ filtered ++ filter_loop g k q sg rest
  unfolding filter_from filter_loop
  filter_from-filter_loop sg filtered [] = sym (append-nil filtered)
  filter_from-filter_loop sg filtered (a ∷ rest) =
      let counted : count_sg g k q a 0 sg ≡ count_near g a sg =
        count_sg-count_near a 0 sg ∙ omega arith in
      rw counted (elim (Bool-cases (leb q (count_near g a sg + 2 * k))) [
        | inl y ↦ rw y (
            filter_from-filter_loop sg (filtered ++ a ∷ []) rest
            ∙ append_assoc filtered (a ∷ []) (filter_loop g k q sg rest))
        | inr n ↦ rw n (filter_from-filter_loop sg filtered rest)
      ])

  filter_rounds-filter_until_stable :
      (fuel : ℕ) (sg : List ℕ) → filter_rounds g k q fuel sg ≡ filter_until_stable g k q fuel sg
  unfolding filter_rounds filter_until_stable
  filter_rounds-filter_until_stable zero sg = refl
  filter_rounds-filter_until_stable (suc fuel) sg =
      let next = filter_loop g k q sg sg in
      rw (filter_from-filter_loop sg [] sg) (elim (Bool-cases (length next == length sg)) [
        | inl y ↦ rw y refl
        | inr n ↦ rw n (filter_rounds-filter_until_stable fuel next)
      ])

  tally_all-count_all :
      (v : ℕ) (added : List Bool) (sg : List ℕ) (st : List ℕ × List ℕ)
      → tally_all g k q v added sg st ≡ count_all g v added sg st
  unfolding tally_all count_all
  tally_all-count_all v added [] st = refl
  tally_all-count_all v added (n ∷ sg) st =
      tally_all-count_all v added sg (tally_neighs v added (g.neighs n) st)
      ∙ ap (count_all g v added sg) (tally_neighs-count_neighs v added (g.neighs n) st)

  take_candidates-add_candidates :
      (ns : List ℕ) (st : List ℕ × List ℕ) → take_candidates g k q ns st ≡ add_candidates k q ns st
  unfolding take_candidates add_candidates
  take_candidates-add_candidates [] st = refl
  take_candidates-add_candidates (n ∷ ns) (ans, counts) = take_candidates-add_candidates ns _

  block_nodes-extend_subgraph :
      (v : ℕ) (added : List Bool) (counts sg : List ℕ)
      → block_nodes g k q v added counts sg ≡ extend_subgraph g k q v added sg counts
  unfolding block_nodes extend_subgraph
  block_nodes-extend_subgraph v added counts sg = rw (tally_all-count_all v added sg ([], counts)) (
      ap (λ z. if k == 1 then (v ∷ sg, counts) else z)
        (take_candidates-add_candidates (count_all g v added sg ([], counts)).0
          (v ∷ sg, (count_all g v added sg ([], counts)).1)))

module _ (g : Graph) (k q : ℕ) where
  -- `block_size` by the loops of `GetRoot`.
  block_size_lem :
      (v : ℕ) (added : List Bool) (counts kept : List ℕ)
      → block_size g k q v added counts kept ≡ (
          let ans = extend_subgraph g k q v added kept counts in
          (
            record {
              subgraph_added = mark false (g.fwd_neighs v) (mark false ans.0 added);
              subgraph_counts = ans.1;
            },
            length ans.0,
          ))
  unfolding block_size
  block_size_lem v added counts kept =
      let ans = extend_subgraph g k q v added kept counts in
      rw (block_nodes-extend_subgraph g k q v added counts kept) (
        rw (clear_added-mark ans.0 added)
          (rw (clear_added-mark (g.fwd_neighs v) (mark false ans.0 added)) refl))

  pub root_size-few :
      (v : ℕ) (s : SizeScratch)
      → ltb (fwd_degree g v + k) q ≡ true
      → root_size g k q v s ≡ some (s, 0)
  unfolding root_size
  root_size-few v s few = rw few refl

  pub root_size-enough :
      (v : ℕ) (s : SizeScratch) (kept : List ℕ)
      → ltb (fwd_degree g v + k) q ≡ false
      → filter_until_stable g k q (suc (fwd_degree g v)) (g.fwd_neighs v) ≡ some kept
      → root_size g k q v s
        ≡ some (
            block_size g k q v
              (mark true (g.fwd_neighs v) (set s.subgraph_added v true))
              s.subgraph_counts
              kept)
  unfolding root_size
  root_size-enough v s kept enough run =
      let added = set s.subgraph_added v true in
      rw (gather_sg-mark (g.fwd_neighs v) [] added) (
        rw enough (
          rw
            (filter_rounds-filter_until_stable g k q (suc (length (g.fwd_neighs v)))
              (g.fwd_neighs v))
            (rw run refl)))

  module _ {W : Type 0} (cb : Block → Impl → W → Bool × W) (v : ℕ) (s : RootScratch) (w : W) where
    -- `n` is the size of the block on which `GetRoot` called back, or zero if it did not call back.
    abbrev pub IsSizeOf : ℕ → W → Type 0
    IsSizeOf n w' =
        (fwd_degree g v + k < q → (n ≡ 0) × (w' ≡ w))
        × (q ≤ fwd_degree g v + k
            → (b : Block) × (t : Impl) × (w' ≡ (cb b t w).1) × (length b.subgraph ≡ n))

    -- From the same scratch vectors, `RootSize` and `GetRoot` both end and leave these the same. If
    -- the root has too few larger neighbours `RootSize` answers 0 and `GetRoot` calls back on
    -- nothing; otherwise it answers the number of nodes of the block on which `GetRoot` calls back.
    pub root_size-IsSizeOf :
        (s' : RootScratch) × (w' : W) × (n : ℕ) × (get_root g cb k q v s w ≡ some (s', w'))
        × (root_size g k q v (scratch_of s) ≡ some (scratch_of s', n))
        × IsSizeOf n w'
    unfolding get_root visit_root init_block
    root_size-IsSizeOf = elim (Bool-cases (ltb (fwd_degree g v + k) q)) [
      | inl few ↦ rw few (
        s,
        w,
        0,
        refl,
        root_size-few v (scratch_of s) few,
        (λ lt. (refl, refl), λ le. absurd (ground arith)),
      )
      | inr enough ↦
          let (kept, run, from) =
            filter_until_stable-mem g k q (suc (fwd_degree g v)) (g.fwd_neighs v) (omega arith) in
          let visited = visit_root g cb k q v s kept w in
          let added = mark true (g.fwd_neighs v) (set s.subgraph_added v true) in
          let ans = (extend_subgraph g k q v added kept s.subgraph_counts).0 in
          let block = init_block g ans s.nadj in
          rw (enough, run)
            (
              visited.0,
              visited.1,
              length ans,
              refl,
              root_size-enough v (scratch_of s) kept enough run
                  ∙ ap (λ x. some x) (block_size_lem v added s.subgraph_counts kept),
              (λ lt. absurd (ground arith), λ le. (block, init_impl block k, refl, refl)),
            )
    ]
