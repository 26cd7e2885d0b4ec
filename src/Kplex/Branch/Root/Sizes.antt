-- ===== src/Kplex/Branch/Root/Sizes.antt =====
-- `RootSize` of ui/stats.cpp.
use parallel_enum.Base.{
  ℕ, zero, suc, ◌+◌, ◌*◌, ◌%◌, ◌^◌, Bool, true, false, not, ◌&&◌, List, [], ◌∷◌, ◌++◌, Option, none,
  some, length, get_or, set, ltb, leb, ◌==◌, if◌then◌else◌, ◌>>=◌,
}
use parallel_enum.Graph.{Graph, fwd_degree}

-- `subgraph_added` and `subgraph_counts` of `RootSize`.
pub record SizeScratch : Type 0 where
  pub subgraph_added : List Bool
  pub subgraph_counts : List ℕ

-- The first loop over `fwd_neighs(v)`, on `sg` and `subgraph_added`.
unfoldable pub gather_sg : List ℕ → List ℕ × List Bool → List ℕ × List Bool
gather_sg [] st = st
gather_sg (n ∷ ns) (sg, added) = gather_sg ns (sg ++ n ∷ [], set added n true)

-- The last loops, over `ans` and `fwd_neighs(v)`.
unfoldable pub clear_added : List ℕ → List Bool → List Bool
clear_added [] added = added
clear_added (n ∷ ns) added = clear_added ns (set added n false)

-- The body of the loop over `neighs(n)`, on `subgraph_candidates` and `subgraph_counts`.
unfoldable pub tally : ℕ → List Bool → ℕ → List ℕ × List ℕ → List ℕ × List ℕ
tally v added nn (candidates, counts) =
    if ltb v nn && not (get_or added nn false)
    then (
      (if get_or counts nn 0 == 0 then candidates ++ nn ∷ [] else candidates),
      set counts nn ((get_or counts nn 0 + 1) % 2 ^ 32),
    )
    else (candidates, counts)

unfoldable pub tally_neighs : ℕ → List Bool → List ℕ → List ℕ × List ℕ → List ℕ × List ℕ
tally_neighs v added [] st = st
tally_neighs v added (nn ∷ nns) st = tally_neighs v added nns (tally v added nn st)

module _ (g : Graph) (k q : ℕ) where
  -- The inner loop of `filter_sg`, for `a = sg[i]`.
  unfoldable pub count_sg : ℕ → ℕ → List ℕ → ℕ
  count_sg a count [] = count
  count_sg a count (b ∷ rest) = count_sg a (if g.are_neighs a b then count + 1 else count) rest

  -- The outer loop of `filter_sg`, `rest` of `sg` being left.
  unfoldable pub filter_from : List ℕ → List ℕ → List ℕ → List ℕ
  filter_from sg filtered [] = filtered
  filter_from sg filtered (a ∷ rest) =
      filter_from sg (if leb q (count_sg a 0 sg + 2 * k) then filtered ++ a ∷ [] else filtered) rest

  -- The `do` loop, on fuel.
  unfoldable pub filter_rounds : ℕ → List ℕ → Option (List ℕ)
  filter_rounds zero sg = none
  filter_rounds (suc fuel) sg =
      let filtered = filter_from sg [] sg in
      let rest = filter_rounds fuel filtered in
      if not (length filtered == length sg) then rest else some filtered

  unfoldable pub tally_all : ℕ → List Bool → List ℕ → List ℕ × List ℕ → List ℕ × List ℕ
  tally_all v added [] st = st
  tally_all v added (n ∷ sg) st = tally_all v added sg (tally_neighs v added (g.neighs n) st)

  -- The loop over `subgraph_candidates`, on `ans` and `subgraph_counts`.
  unfoldable pub take_candidates : List ℕ → List ℕ × List ℕ → List ℕ × List ℕ
  take_candidates [] st = st
  take_candidates (n ∷ ns) (ans, counts) =
      take_candidates ns
        ((if leb (q + 2) (get_or counts n 0 + 2 * k) then ans ++ n ∷ [] else ans), set counts n 0)

  -- `ans` and `subgraph_counts` for the filtered list `sg`.
  unfoldable pub block_nodes : ℕ → List Bool → List ℕ → List ℕ → List ℕ × List ℕ
  block_nodes v added counts sg =
      if k == 1
      then (v ∷ sg, counts)
      else let (candidates, counted) = tally_all v added sg ([], counts) in
        take_candidates candidates (v ∷ sg, counted)

  -- From the filtered list `sg` on.
  unfoldable pub block_size : ℕ → List Bool → List ℕ → List ℕ → SizeScratch × ℕ
  block_size v added counts sg =
      let ans = block_nodes v added counts sg in
      (
        record {
          subgraph_added = clear_added (g.fwd_neighs v) (clear_added ans.0 added);
          subgraph_counts = ans.1;
        },
        length ans.0,
      )

  unfoldable pub root_size : ℕ → SizeScratch → Option (SizeScratch × ℕ)
  root_size v s =
      let start = gather_sg (g.fwd_neighs v) ([], set s.subgraph_added v true) in
      let sg = filter_rounds (suc (length start.0)) start.0 in
      if ltb (fwd_degree g v + k) q
      then some (s, 0)
      else (sg >>= λ kept. some (block_size v start.1 s.subgraph_counts kept))
