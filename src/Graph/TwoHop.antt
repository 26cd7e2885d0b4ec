-- ===== src/Graph/TwoHop.antt =====
-- `TwoHopSize` of ui/stats.cpp.
pub mod Count
mod Tests
use parallel_enum.Base.{
  ℕ, zero, suc, ◌+◌, ◌≤◌, ◌<◌, ◌≡◌, ◌↔◌, refl, sym, ap, ◌∙◌, Bool, true, false, not, ◌||◌, ◌&&◌,
  List, [], ◌∷◌, ◌++◌, length, get_or, set, if◌then◌else◌, ◌==◌, ==_iff, mem, mem-append,
  get_or-set-false, occurrences, occurrences-append, occurrences-eq-zero, arith, Bool-cases, inl,
  inr, get_or-set_self, get_or-set_ne, length-set,
}
use parallel_enum.Graph.{Graph, IsGraph}

-- A node that is not marked is marked and appended to `ans`.
pub reach : ℕ → List ℕ × List Bool → List ℕ × List Bool
reach n (ans, added) =
    if get_or added n false then (ans, added) else (ans ++ n ∷ [], set added n true)

pub reach_all : List ℕ → List ℕ × List Bool → List ℕ × List Bool
reach_all [] st = st
reach_all (n ∷ ns) st = reach_all ns (reach n st)

-- The loop over `neighs(v)`.
pub two_hops : Graph → List ℕ → List ℕ × List Bool → List ℕ × List Bool
two_hops g [] st = st
two_hops g (n ∷ ns) st = two_hops g ns (reach_all (g.neighs n) (reach n st))

pub unmark : List ℕ → List Bool → List Bool
unmark [] added = added
unmark (n ∷ ns) added = unmark ns (set added n false)

-- The answer, and `subgraph_added` after the call.
pub two_hop_size : Graph → ℕ → List Bool → ℕ × List Bool
two_hop_size g v added =
    let reached = two_hops g (g.neighs v) ([], set added v true) in
    (length reached.0, unmark reached.0 reached.1)

-- `x` is one of the nodes, or a neighbour of one.
abbrev pub is_near : Graph → List ℕ → ℕ → Bool
is_near g [] x = false
is_near g (n ∷ ns) x = x == n || mem x (g.neighs n) || is_near g ns x
