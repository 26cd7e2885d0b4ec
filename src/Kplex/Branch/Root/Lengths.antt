-- ===== src/Kplex/Branch/Root/Lengths.antt =====
-- `RootSize` keeps the lengths of its scratch vectors (ui/stats.cpp).
use parallel_enum.Base.{
  ℕ, suc, ◌+◌, ◌%◌, ◌^◌, ◌≡◌, refl, ◌∙◌, Bool, true, false, not, ◌&&◌, List, [], ◌∷◌, some, length,
  get_or, set, ltb, ◌==◌, arith, length-set, Bool-cases, inl, inr,
}
use parallel_enum.Graph.{Graph, fwd_degree}
use parallel_enum.Kplex.Branch.Root.Copies.{root_size-few, root_size-enough}
use parallel_enum.Kplex.Branch.Root.Loops.{filter_until_stable-mem}
use parallel_enum.Kplex.Branch.Root.Sizes.{
  SizeScratch, clear_added, tally, tally_neighs, tally_all, take_candidates, block_nodes,
  block_size, root_size,
}
use parallel_enum.Kplex.Branch.Root.{mark}

module _ (g : Graph) (k q : ℕ) where
  length-mark :
      (b : Bool) (ns : List ℕ) (added : List Bool) → length (mark b ns added) ≡ length added
  unfolding mark
  length-mark b [] added = refl
  length-mark b (n ∷ ns) added = length-mark b ns (set added n b) ∙ length-set added n b

  length-clear_added :
      (ns : List ℕ) (added : List Bool) → length (clear_added ns added) ≡ length added
  unfolding clear_added
  length-clear_added [] added = refl
  length-clear_added (n ∷ ns) added =
      length-clear_added ns (set added n false) ∙ length-set added n false

  length-tally :
      (v : ℕ) (added : List Bool) (nn : ℕ) (st : List ℕ × List ℕ)
      → length ((tally v added nn st).1) ≡ length (st.1)
  unfolding tally
  length-tally v added nn (candidates, counts) =
      elim (Bool-cases (ltb v nn && not (get_or added nn false))) [
        | inl y ↦ rw y (length-set counts nn ((get_or counts nn 0 + 1) % 2 ^ 32))
        | inr n ↦ rw n refl
      ]

  length-tally_neighs :
      (v : ℕ) (added : List Bool) (nns : List ℕ) (st : List ℕ × List ℕ)
      → length ((tally_neighs v added nns st).1) ≡ length (st.1)
  unfolding tally_neighs
  length-tally_neighs v added [] st = refl
  length-tally_neighs v added (nn ∷ nns) st =
      length-tally_neighs v added nns (tally v added nn st) ∙ length-tally v added nn st

  length-tally_all :
      (v : ℕ) (added : List Bool) (sg : List ℕ) (st : List ℕ × List ℕ)
      → length ((tally_all g k q v added sg st).1) ≡ length (st.1)
  unfolding tally_all
  length-tally_all v added [] st = refl
  length-tally_all v added (n ∷ sg) st =
      length-tally_all v added sg (tally_neighs v added (g.neighs n) st)
      ∙ length-tally_neighs v added (g.neighs n) st

  length-take_candidates :
      (ns : List ℕ) (st : List ℕ × List ℕ)
      → length ((take_candidates g k q ns st).1) ≡ length (st.1)
  unfolding take_candidates
  length-take_candidates [] st = refl
  length-take_candidates (n ∷ ns) (ans, counts) =
      length-take_candidates ns _ ∙ length-set counts n 0

  length-block_nodes :
      (v : ℕ) (added : List Bool) (counts sg : List ℕ)
      → length ((block_nodes g k q v added counts sg).1) ≡ length counts
  unfolding block_nodes
  length-block_nodes v added counts sg = elim (Bool-cases (k == 1)) [
    | inl y ↦ rw y refl
    | inr n ↦
        let counted = tally_all g k q v added sg ([], counts) in
        rw n (
          length-take_candidates counted.0 (v ∷ sg, counted.1)
          ∙ length-tally_all v added sg ([], counts))
  ]

  -- `RootSize` keeps the lengths of its vectors.
  pub root_size-sized :
      (v : ℕ) (s : SizeScratch)
      → (s' : SizeScratch) × (n : ℕ) × (root_size g k q v s ≡ some (s', n))
        × (length s'.subgraph_added ≡ length s.subgraph_added)
        × (length s'.subgraph_counts ≡ length s.subgraph_counts)
  unfolding block_size
  root_size-sized v s = elim (Bool-cases (ltb (fwd_degree g v + k) q)) [
    | inl few ↦ (s, 0, root_size-few g k q v s few, refl, refl)
    | inr enough ↦
        let fwd = g.fwd_neighs v in
        let (kept, run, from) =
          filter_until_stable-mem g k q (suc (fwd_degree g v)) fwd (omega arith) in
        let start = set s.subgraph_added v true in
        let added = mark true fwd start in
        let ans = (block_nodes g k q v added s.subgraph_counts kept).0 in
        (
          (block_size g k q v added s.subgraph_counts kept).0,
          length ans,
          root_size-enough g k q v s kept enough run,
          length-clear_added fwd (clear_added ans added)
              ∙ length-clear_added ans added
              ∙ length-mark true fwd start
              ∙ length-set s.subgraph_added v true,
          length-block_nodes v added s.subgraph_counts kept,
        )
  ]
