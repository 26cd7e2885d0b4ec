-- ===== src/Commutable/Connected.antt =====
-- Connected hereditary systems (enumerable/connected_hereditary.hpp): `CHSystem` overrides
-- `IsSeed`, `ValidSeeds` and `Resort`. `IsNeigh` is a parameter. Levels do not wrap.
pub mod Resort
pub mod Closed
use parallel_enum.Base.{
  ℕ, zero, suc, ◌+◌, ◌-◌, Bool, true, false, not, List, [], ◌∷◌, ◌++◌, Option, none, some,
  if◌then◌else◌, ltb, leb, ◌==◌, ◌>>=◌, ◌&&◌, length, get_or, set, mem, replicate,
}
use parallel_enum.Commutable.{System}
use parallel_enum.Commutable.Offspring.{smallest, index_of}

-- `IsSeed`
unfoldable pub is_seed : ℕ → Option (List ℕ) → Bool
is_seed v s = true

-- `PQEl`: level and node.
pub record Entry : Type 0 where
  pub level : ℕ
  pub node : ℕ

-- The order of the tuples, and `q.emplace`; the queue is kept in the order of its pops.
unfoldable pub earlier : Entry → Entry → Bool
earlier p q = if p.level == q.level then ltb p.node q.node else ltb p.level q.level

unfoldable pub enqueue : Entry → List Entry → List Entry
enqueue p [] = p ∷ []
enqueue p (r ∷ q) = let rest = enqueue p q in if earlier r p then r ∷ rest else p ∷ r ∷ q

module _ (is_neigh : ℕ → ℕ → Bool) where
  -- The loop of `ValidSeeds` over the elements that are left.
  unfoldable pub seeds_from : ℕ → ℕ → List ℕ → List ℕ
  seeds_from least cand [] = []
  seeds_from least cand (seed ∷ sol) =
      let rest = seeds_from least cand sol in
      if leb cand seed then rest else if is_neigh least seed then rest else seed ∷ rest

  unfoldable pub valid_seeds : List ℕ → ℕ → List ℕ
  valid_seeds sol cand = seeds_from (smallest (get_or sol 0 0) sol) cand sol

  -- The loop over the indices of `s`, with the bits of `visited` there; it also adds to the queue.
  unfoldable pub visit_from : ℕ → ℕ → List ℕ → List Bool → List Entry → List Bool × List Entry
  visit_from el lv [] visited q = (visited, q)
  visit_from el lv (x ∷ s) [] q = ([], q)
  visit_from el lv (x ∷ s) (seen ∷ visited) q =
      let taken = not seen && is_neigh el x in
      let q' = if taken then enqueue (record { level = lv + 1; node = x }) q else q in
      let (visited', q'') = visit_from el lv s visited q' in
      ((if taken then true else seen) ∷ visited', q'')

  -- `while (!q.empty())` with fuel: `sorted` and `level`.
  unfoldable pub sort_from :
      ℕ → List ℕ → List Bool → List Entry → List ℕ → List ℕ → Option (List ℕ × List ℕ)
  sort_from fuel s visited [] sorted level = some (sorted, level)
  sort_from zero s visited (p ∷ q) sorted level = none
  sort_from (suc fuel) s visited (p ∷ q) sorted level =
      let (visited', q') = visit_from p.node p.level s visited q in
      sort_from fuel s visited' q' (sorted ++ p.node ∷ []) (level ++ p.level ∷ [])

  -- `Resort`; the assertion fails where the seed is no element.
  unfoldable pub resort : List ℕ → List ℕ → ℕ → Option (List ℕ × List ℕ)
  resort s level seed =
      if ltb (index_of seed s) (length s)
      then sort_from (length s) s (set (replicate (length s) false) (index_of seed s) true)
          (record { level = 0; node = seed } ∷ []) [] []
      else none
