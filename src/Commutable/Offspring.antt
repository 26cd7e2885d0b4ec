-- ===== src/Commutable/Offspring.antt =====
-- `GetPrefix`, `Children`, `ListChildren` and `GetRoot` of a commutable system
-- (enumerable/commutable.hpp). `none` is an exception of `Resort`, or fuel that `Complete` lacked.
mod Visits
mod Steps
pub mod Found
pub mod Roots
use parallel_enum.Base.{
  ℕ, zero, suc, ◌+◌, ◌-◌, Bool, true, false, not, List, [], ◌∷◌, ◌++◌, Option, none, some,
  if◌then◌else◌, ltb, ◌==◌, ◌>>=◌, length, get_or,
}
use parallel_enum.Commutable.{System}
use parallel_enum.Commutable.Completion.{
  Limits, Completed, front, complete, threw, failed, completed,
}

-- `CommutableNode`: the elements and their levels.
pub record Node : Type 0 where
  pub elements : List ℕ
  pub levels : List ℕ

-- The loop of `GetPrefix`: the index of `v`, or the size of `s`.
unfoldable pub index_of : ℕ → List ℕ → ℕ
index_of v [] = 0
index_of v (x ∷ s) = let rest = index_of v s in if x == v then 0 else suc rest

-- `resize`, which fills up with zeros.
unfoldable pub resize : ℕ → List ℕ → List ℕ
resize zero s = []
resize (suc n) [] = 0 ∷ resize n []
resize (suc n) (x ∷ s) = x ∷ resize n s

unfoldable pub pop_back : List ℕ → List ℕ
pop_back [] = []
pop_back (x ∷ []) = []
pop_back (x ∷ y ∷ s) = x ∷ pop_back (y ∷ s)

unfoldable pub back : List ℕ → ℕ
back s = get_or s (length s - 1) 0

-- The loop that looks for `correct_seed` among the elements that are left.
unfoldable pub smallest : ℕ → List ℕ → ℕ
smallest seed [] = seed
smallest seed (n ∷ s) = smallest (if ltb n seed then n else seed) s

-- The parent check: the elements of `core` stand first in `child`.
unfoldable pub starts_with : List ℕ → List ℕ → Bool
starts_with [] child = true
starts_with (x ∷ core) [] = false
starts_with (x ∷ core) (y ∷ child) =
    let rest = starts_with core child in if not (x == y) then false else rest

-- What `Children` has done: the nodes `cb` was called with, whether it has not yet answered
-- `false`, and the bits of the thread.
pub record Visit : Type 0 where
  pub found : List Node
  pub not_done : Bool
  pub bits : List Bool

-- A loop over elements that the body leaves when it returns `false`.
unfoldable pub each : (ℕ → Visit → Option (Bool × Visit)) → List ℕ → Visit → Option Visit
each body [] visit = some visit
each body (x ∷ xs) visit = body x visit >>= λ r. if r.0 then each body xs r.1 else some r.1

-- The same over the solutions of a restricted problem.
unfoldable pub each_solution :
    (List ℕ → Visit → Option (Bool × Visit)) → List (List ℕ) → Visit → Option Visit
each_solution body [] visit = some visit
each_solution body (sol ∷ sols) visit =
    body sol visit >>= λ r. if r.0 then each_solution body sols r.1 else some r.1

-- `if (!Complete(…)) return true;` before the rest.
unfoldable pub proceed :
    (List ℕ → List ℕ → Visit → Option (Bool × Visit))
    → Visit
    → Completed × List Bool
    → Option (Bool × Visit)
proceed rest visit (threw, bits) = none
proceed rest visit (failed s level, bits) = some (true, record visit { bits = bits })
proceed rest visit (completed s level, bits) = rest s level (record visit { bits = bits })

abbrev pub limits_from : Option (List ℕ) → Option (List ℕ) → Bool → Option (ℕ × ℕ) → Limits
limits_from ground_set target fail_on_seed_change fail_if_smaller_than = record {
  ground_set = ground_set;
  target = target;
  fail_on_seed_change = fail_on_seed_change;
  fail_if_smaller_than = fail_if_smaller_than;
}

-- What `GetRoot` calls back with.
unfoldable pub root_of : Completed × List Bool → Option (List Node × List Bool)
root_of (threw, bits) = none
root_of (failed s level, bits) = some ([], bits)
root_of (completed s level, bits) = some (record { elements = s; levels = level } ∷ [], bits)

-- `GetPrefix`
unfoldable pub get_prefix :
    {Aux : Type 0} → System Aux → List ℕ → List ℕ → ℕ → ℕ → Option (List ℕ × List ℕ)
get_prefix system s level seed v = system.resort s level seed >>= λ r.
    some (resize (index_of v r.0 + 1) r.0, resize (index_of v r.0 + 1) r.1)

module _ {Aux : Type 0} (system : System Aux) (fuel : ℕ) where
  module _ (cb : List Node → Node → Bool) (s level : List ℕ) where
    -- `cb(child, lvl)`; what `cb` answers may depend on the nodes it was called with before.
    unfoldable pub call_back : Node → Visit → Option (Bool × Visit)
    call_back node visit =
        let not_done = if cb visit.found node then visit.not_done else false in
        some (not_done, record visit { found = visit.found ++ node ∷ []; not_done = not_done })

    -- From the test of `RestrMultiple` on, with the parent `p`.
    unfoldable pub check_core :
        List ℕ → ℕ → List ℕ → List ℕ → Node → List ℕ → List ℕ → Visit → Option (Bool × Visit)
    check_core sol cand core clvl child p plvl visit =
        if system.restr_multiple
        then (complete system (limits_from (some (p ++ cand ∷ [])) (some sol) false none) fuel core
              clvl visit.bits
            >>= λ r. proceed (λ _ _ visit'. call_back child visit') visit r)
        else call_back child visit

    -- From the parent check on, with the completed child.
    unfoldable pub check_parent :
        List ℕ → ℕ → List ℕ → List ℕ → List ℕ → List ℕ → Visit → Option (Bool × Visit)
    check_parent sol cand core clvl child lvl visit =
        if not (starts_with core child)
        then some (true, visit)
        else complete system (limits_from none (some s) false none) fuel (pop_back core)
            (pop_back clvl) visit.bits
          >>= λ r.
              proceed (check_core sol cand core clvl (record { elements = child; levels = lvl }))
                visit r

    -- From the test of the seed on, with the prefix.
    unfoldable pub check_seed : List ℕ → ℕ → ℕ → Visit → List ℕ × List ℕ → Option (Bool × Visit)
    check_seed sol cand seed visit (core, clvl) =
        if not (seed == smallest (front core) core)
        then some (true, visit)
        else complete system (limits_from none none true (some (back clvl, back core))) fuel core
            clvl visit.bits
          >>= λ r. proceed (check_parent sol cand core clvl) visit r

    unfoldable pub try_seed : List ℕ → ℕ → ℕ → Visit → Option (Bool × Visit)
    try_seed sol cand seed visit =
        get_prefix system sol level seed cand >>= λ core. check_seed sol cand seed visit core

    unfoldable pub try_solution : ℕ → List ℕ → Visit → Option (Bool × Visit)
    try_solution cand sol visit =
        each (try_seed sol cand) (system.valid_seeds sol cand) visit >>= λ visit'.
        some (visit'.not_done, visit')

    unfoldable pub try_cand : ℕ → Visit → Option (Bool × Visit)
    try_cand cand visit =
        each_solution (try_solution cand) (system.restricted_problem s cand) visit >>= λ visit'.
        some (visit'.not_done, visit')

    unfoldable pub children : List Bool → Option Visit
    children bits =
        each try_cand (system.restricted_cands s level)
          (record { found = []; not_done = true; bits = bits })

  -- `ListChildren`: the children that `cb` is called with, and `not_done`.
  unfoldable pub list_children : (List Node → Node → Bool) → Node → List Bool → Option Visit
  list_children cb node bits = children cb node.elements node.levels bits

  unfoldable pub get_root : ℕ → List Bool → Option (List Node × List Bool)
  get_root i bits =
      if not (system.is_seed i none)
      then some ([], bits)
      else complete system (limits_from none none true none) fuel (i ∷ []) (0 ∷ []) bits >>= root_of
