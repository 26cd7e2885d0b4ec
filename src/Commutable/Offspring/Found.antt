-- ===== src/Commutable/Offspring/Found.antt =====
-- The nodes that `Children` of enumerable/commutable.hpp calls back with.
use parallel_enum.Base.{
  ℕ, ◌+◌, ◌<◌, ◌≡◌, sym, ap, ◌∙◌, subst, arith, Bool, true, List, [], none, some, length, mem, Each,
  get_elem?,
}
use parallel_enum.Commutable.{System}
use parallel_enum.Commutable.Tracked.{given, OffersAll, Weighed}
use parallel_enum.Commutable.Completion.Result.{Laws}
use parallel_enum.Commutable.Offspring.{
  Node, Visit, index_of, resize, each, each_solution, get_prefix, try_seed, try_solution, try_cand,
  children,
}
use parallel_enum.Commutable.Offspring.Visits.{
  bind_some, length-resize, Each-at, each-keeps, each_solution-keeps, IsSolution, AllSolutions,
}
use parallel_enum.Commutable.Offspring.Steps.{check_seed-keeps}

module _ {Aux : Type 0} (system : System Aux) (Fits : List ℕ → Aux → Type 0)
    (laws : Laws system Fits) (offers : OffersAll system none) (fuel : ℕ) where
  module _ (cb : List Node → Node → Bool) (s level : List ℕ) where
    -- Prefixes of good solutions are good, and the restricted problem has good solutions, with
    -- the candidate.
    module _
        (prefixes_good : (sol : List ℕ) (seed cand : ℕ) (core : List ℕ × List ℕ)
          → system.is_good sol ≡ true
          → mem cand sol ≡ true
          → get_prefix system sol level seed cand ≡ some core
          → system.is_good core.0 ≡ true)
        (restricted_good : (cand : ℕ)
          → Each
              (λ sol. (system.is_good sol ≡ true) × (mem cand sol ≡ true))
              (system.restricted_problem s cand)) where
      try_seed-keeps :
          (sol : List ℕ) (cand seed : ℕ) (visit : Visit) (r : Bool × Visit)
          → (system.is_good sol ≡ true) × (mem cand sol ≡ true)
          → AllSolutions system visit
          → try_seed system fuel cb s level sol cand seed visit ≡ some r
          → AllSolutions system r.1
      unfolding try_seed get_prefix
      try_seed-keeps sol cand seed visit r good h e =
          let (core, found, rest) = bind_some (get_prefix system sol level seed cand) _ r e in
          let (sorted, _, cut) = bind_some (system.resort sol level seed) _ core found in
          check_seed-keeps system Fits laws offers fuel cb s level sol cand seed visit core r
            (nonempty sorted core cut) (prefixes_good sol seed cand core good.0 good.1 found) h rest
        where
          nonempty :
              (sorted core : List ℕ × List ℕ)
              → some (
                resize (index_of cand sorted.0 + 1) sorted.0,
                resize (index_of cand sorted.0 + 1) sorted.1,
              )
                ≡ some core
              → 0 < length core.0
          nonempty sorted core cut =
              let same : resize (index_of cand sorted.0 + 1) sorted.0 ≡ core.0 = cc in
              omega
                (arith, sym (ap length same) ∙ length-resize (index_of cand sorted.0 + 1) sorted.0)

      visit_of :
          {a : Bool} {visit : Visit} {r : Bool × Visit} → some (a, visit) ≡ some r → visit ≡ r.1
      visit_of h = cc

      try_solution-keeps :
          (cand : ℕ) (sol : List ℕ) (visit : Visit) (r : Bool × Visit)
          → (system.is_good sol ≡ true) × (mem cand sol ≡ true)
          → AllSolutions system visit
          → try_solution system fuel cb s level cand sol visit ≡ some r
          → AllSolutions system r.1
      unfolding try_solution
      try_solution-keeps cand sol visit r good h e =
          let body = try_seed system fuel cb s level sol cand in
          let (after, ran, ended) =
            bind_some (each body (system.valid_seeds sol cand) visit) _ r e in
          subst (AllSolutions system) (visit_of ended) (
            each-keeps (AllSolutions system) body
              (λ seed v q h' e'. try_seed-keeps sol cand seed v q good h' e')
              (system.valid_seeds sol cand) visit after h ran)

      try_cand-keeps :
          (cand : ℕ) (visit : Visit) (r : Bool × Visit)
          → AllSolutions system visit
          → try_cand system fuel cb s level cand visit ≡ some r
          → AllSolutions system r.1
      unfolding try_cand
      try_cand-keeps cand visit r h e =
          let body = try_solution system fuel cb s level cand in
          let (after, ran, ended) =
            bind_some (each_solution body (system.restricted_problem s cand) visit) _ r e in
          subst (AllSolutions system) (visit_of ended) (
            each_solution-keeps (AllSolutions system)
              (λ sol. (system.is_good sol ≡ true) × (mem cand sol ≡ true)) body
              (try_solution-keeps cand) (system.restricted_problem s cand) visit after
              (restricted_good cand) h ran)

      -- For a system as in the statement on `Complete` in which prefixes of good solutions up to
      -- the candidate are good, and the restricted problem has good solutions with the candidate:
      -- each node that `Children` calls back with is good, and each node of the graph is in it or
      -- makes it bad when added, whatever the callback answers.
      pub children-IsMaximal :
          (bits : List Bool) (visit : Visit) (k i v : ℕ) (node : Node)
          → children system fuel cb s level bits ≡ some visit
          → get_elem? visit.found k ≡ some node
          → given system none i ≡ some v
          → (system.is_good node.elements ≡ true) × Weighed system none node.elements v
      unfolding children
      children-IsMaximal bits visit k i v node e here offered =
          let body = try_cand system fuel cb s level in
          let all =
            each-keeps (AllSolutions system) body try_cand-keeps (system.restricted_cands s level)
              (record { found = []; not_done = true; bits = bits }) visit tt e in
          let solution = Each-at (IsSolution system) visit.found k node all here in
          (solution.0, solution.1 i v offered)
