-- ===== src/Graph/TwoHop/Tests.antt =====
-- The path of three nodes: from its first node, the last one is two hops away.
use parallel_enum.Base.{
  ℕ, zero, suc, ◌≡◌, refl, Bool, true, false, not, ◌&&◌, List, [], ◌∷◌, length, get_or,
  if◌then◌else◌, ◌==◌, occurrences, arith,
}
use parallel_enum.Graph.Path.{path, path-IsGraph}
use parallel_enum.Graph.TwoHop.{reach, reach_all, two_hops, unmark, two_hop_size, is_near}
use parallel_enum.Graph.TwoHop.Count.{two_hop_size-Counts}

abbrev no_marks : List Bool
no_marks = false ∷ false ∷ false ∷ []

no_marks-clean : (x : ℕ) → get_or no_marks x false ≡ false
no_marks-clean zero = refl
no_marks-clean (suc zero) = refl
no_marks-clean (suc (suc zero)) = refl
no_marks-clean (suc (suc (suc x))) = refl

-- The mark of the node stays, and the next call misses it.
two_hop_size-twice :
    (two_hop_size path 0 no_marks ≡ (2, true ∷ false ∷ false ∷ []))
    × (two_hop_size path 1 (true ∷ false ∷ false ∷ []) ≡ (1, true ∷ true ∷ false ∷ []))
unfolding two_hop_size two_hops reach_all reach unmark
two_hop_size-twice = (refl, refl)

two_hop_size-Counts_example :
    ((ans : List ℕ) × ((two_hop_size path 0 no_marks).0 ≡ length ans)
      × ((x : ℕ)
          → occurrences x ans ≡ (if is_near path (path.neighs 0) x && not (x == 0) then 1 else 0)))
    × ((x : ℕ) → get_or (two_hop_size path 0 no_marks).1 x false ≡ (x == 0))
two_hop_size-Counts_example =
    two_hop_size-Counts path 0 no_marks path-IsGraph refl (omega arith) no_marks-clean
