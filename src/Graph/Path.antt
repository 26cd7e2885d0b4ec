-- ===== src/Graph/Path.antt =====
-- A small graph that the tests of the enumerations share.
use parallel_enum.Base.{
  ℕ, zero, suc, ◌≡◌, sym, subst, [], ◌∷◌, arith, ◌==◌, ◌&&◌, ◌||◌, if◌then◌else◌, IsAscending,
}
use parallel_enum.Graph.{Graph, IsGraph}

-- The edges 0 - 1 and 1 - 2.
abbrev pub path : Graph
path = record {
  size = 3;
  neighs =
      λ a. if a == 0 then 1 ∷ [] else if a == 1 then 0 ∷ 2 ∷ [] else if a == 2 then 1 ∷ [] else [];
  fwd_neighs = λ a. if a == 0 then 1 ∷ [] else if a == 1 then 2 ∷ [] else [];
  are_neighs = λ a b. if a == 1 then b == 0 || b == 2 else (a == 0 || a == 2) && b == 1;
}

path-IsAscending : (a : ℕ) → IsAscending (path.neighs a)
path-IsAscending zero = omega arith
path-IsAscending (suc zero) = omega arith
path-IsAscending (suc (suc zero)) = omega arith
path-IsAscending (suc (suc (suc a))) =
    let none_listed : path.neighs (suc (suc (suc a))) ≡ [] = ground arith in
    subst IsAscending (sym none_listed) tt

pub path-IsGraph : IsGraph path
path-IsGraph = record {
  irreflexive = λ a h. ground arith;
  symmetric = λ a b. ground arith;
  neighs_iff = λ a b. ground arith;
  fwd_above = λ a. ground arith;
  ascending = path-IsAscending;
  bounded = λ a b h. ground arith;
}
