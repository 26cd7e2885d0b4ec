-- ===== src/Commutable/Tests.antt =====
-- The theorems on commutable systems (enumerable/commutable.hpp and
-- enumerable/connected_hereditary.hpp) at examples.
use parallel_enum.Base.{
  occurrences, ◌==◌, ◌||◌, ℕ, ◌+◌, ◌≡◌, ◌≤◌, refl, arith, Bool, true, false, List, [], ◌∷◌, none,
  some, ◌⊎◌, mem, length, sort, replicate, tabulate, ◌==◌, get_or,
}
use parallel_enum.Commutable.{
  next, next_in, pop, add, insert_in_pq, insert_info, offer, emplace, before, candidates,
  can_really_add, can_add_alone, is_seed_alone, complete_cand_num_all, outside,
  restricted_cands_all, valid_seeds_all,
}
use parallel_enum.Commutable.Completion.Result.{complete-IsMaximal, complete-IsBetween}
use parallel_enum.Commutable.Completion.Ends.{complete_ends}
use parallel_enum.Commutable.Offspring.{
  Node, Visit, get_root, root_of, children, try_cand, try_solution, try_seed, check_seed,
  check_parent, check_core, call_back, each, each_solution, proceed, get_prefix, index_of, resize,
  pop_back, back, smallest, starts_with,
}
use parallel_enum.Commutable.Connected
use parallel_enum.Commutable.Connected.Closed.{resort-IsClosed, resort_total}
use parallel_enum.Commutable.Defaults.{occurrences-restricted_cands_all}
use parallel_enum.Commutable.Offspring.Roots.{get_root-IsLeast}
use parallel_enum.Commutable.Offspring.Found.{children-IsMaximal}
use parallel_enum.Commutable.Tracked.{Weighed}
use parallel_enum.Commutable.Completion.{
  rounds, fill, begin, turn, push, pushed, conclude, finish, restart, unwind, mark_target,
  cleanup_target, is_in_target, is_smaller, is_limited, swap_ends, set_each, Completed, complete,
  completed,
}
use parallel_enum.Commutable.Example.{
  is_apart, seed_first, restricted, sets, anything, AnyFits, sets-Laws, sets-OffersAll,
  no_bits-IsClear, sets-IsBounded, seed_first-first, restricted-good, get_prefix-good,
}

from_two :
    complete sets anything 40 (2 ∷ []) (0 ∷ []) (replicate 5 false)
    ≡ some (completed (0 ∷ 2 ∷ 4 ∷ []) (0 ∷ 1 ∷ 1 ∷ []), replicate 5 false)
unfolding complete rounds fill begin turn push pushed conclude finish restart unwind mark_target
    cleanup_target is_in_target is_smaller is_limited swap_ends next next_in pop add insert_in_pq
    insert_info offer emplace before candidates can_really_add can_add_alone complete_cand_num_all
    is_apart seed_first outside sort set_each
from_two = refl

complete-IsMaximal_example :
    (is_apart (0 ∷ 2 ∷ 4 ∷ []) ≡ true) × Weighed sets none (0 ∷ 2 ∷ 4 ∷ []) 3
unfolding is_apart complete_cand_num_all
complete-IsMaximal_example =
    complete-IsMaximal sets AnyFits sets-Laws anything (sets-OffersAll none) 40 (2 ∷ []) (0 ∷ [])
      (0 ∷ 2 ∷ 4 ∷ []) (0 ∷ 1 ∷ 1 ∷ []) (replicate 5 false) (replicate 5 false) (omega arith)
      from_two 3 3 refl refl

complete-IsBetween_example :
    ((mem 4 (2 ∷ []) ≡ false) ⊎ (mem 4 (0 ∷ 2 ∷ 4 ∷ []) ≡ true))
    × ((mem 4 (0 ∷ 2 ∷ 4 ∷ []) ≡ false) ⊎ (mem 4 (2 ∷ []) ≡ true) ⊎ Unit {0})
complete-IsBetween_example =
    complete-IsBetween sets AnyFits sets-Laws anything (sets-OffersAll none) 40 (2 ∷ []) (0 ∷ [])
      (0 ∷ 2 ∷ 4 ∷ []) (0 ∷ 1 ∷ 1 ∷ []) (replicate 5 false) (replicate 5 false) (omega arith)
      from_two no_bits-IsClear 4

complete_ends_example :
    (r : Completed × List Bool) × (complete sets anything 40 (2 ∷ []) (0 ∷ []) (replicate 5 false)
      ≡ some r)
complete_ends_example =
    complete_ends sets anything 5 5 40 (2 ∷ []) (0 ∷ []) (replicate 5 false) sets-IsBounded
      seed_first-first (omega arith) (omega arith) (omega arith)

abbrev root_node : Node
root_node = record { elements = 1 ∷ 3 ∷ []; levels = 0 ∷ 1 ∷ [] }

root_of_one : get_root sets 40 1 (replicate 5 false) ≡ some (root_node ∷ [], replicate 5 false)
unfolding get_root root_of is_seed_alone complete rounds fill begin turn push pushed conclude finish
    restart unwind mark_target cleanup_target is_in_target is_smaller is_limited swap_ends next
    next_in pop add insert_in_pq insert_info offer emplace before candidates can_really_add
    can_add_alone complete_cand_num_all is_apart seed_first outside sort set_each
root_of_one = refl

get_root-IsLeast_example :
    (is_apart (1 ∷ 3 ∷ []) ≡ true)
    × (mem 1 (1 ∷ 3 ∷ []) ≡ true)
    × (1 ≤ 3)
    × Weighed sets none (1 ∷ 3 ∷ []) 4
unfolding is_apart complete_cand_num_all is_seed_alone
get_root-IsLeast_example =
    get_root-IsLeast sets AnyFits sets-Laws (sets-OffersAll none) 1 (replicate 5 false) (λ e. refl)
      40 root_node (replicate 5 false) 3 4 4 root_of_one refl refl

go_on : List Node → Node → Bool
go_on found node = true

abbrev kid : Node
kid = record { elements = 0 ∷ 3 ∷ []; levels = 0 ∷ 1 ∷ [] }

abbrev visit_of_zero : Visit
visit_of_zero = record { found = kid ∷ []; not_done = true; bits = replicate 5 false }

children_of_zero :
    children sets 40 go_on (0 ∷ 2 ∷ 4 ∷ []) (0 ∷ 1 ∷ 1 ∷ []) (replicate 5 false)
    ≡ some visit_of_zero
unfolding children try_cand try_solution try_seed check_seed check_parent check_core call_back each
    each_solution proceed get_prefix index_of resize pop_back back smallest starts_with restricted
    go_on restricted_cands_all tabulate valid_seeds_all is_seed_alone complete rounds fill begin
    turn push pushed conclude finish restart unwind mark_target cleanup_target is_in_target
    is_smaller is_limited swap_ends next next_in pop add insert_in_pq insert_info offer emplace
    before candidates can_really_add can_add_alone complete_cand_num_all is_apart seed_first outside
    sort set_each
children_of_zero = refl

children-IsMaximal_example : (is_apart (0 ∷ 3 ∷ []) ≡ true) × Weighed sets none (0 ∷ 3 ∷ []) 2
unfolding complete_cand_num_all
children-IsMaximal_example =
    children-IsMaximal sets AnyFits sets-Laws (sets-OffersAll none) 40 go_on (0 ∷ 2 ∷ 4 ∷ [])
      (0 ∷ 1 ∷ 1 ∷ []) (get_prefix-good (0 ∷ 1 ∷ 1 ∷ [])) (restricted-good (0 ∷ 2 ∷ 4 ∷ []))
      (replicate 5 false) visit_of_zero 0 2 2 kid children_of_zero refl refl

-- Numbers that differ by one are neighbours.
next_to : ℕ → ℕ → Bool
next_to a b = (a + 1 == b) || (b + 1 == a)

resorted :
    Connected.resort next_to (3 ∷ 5 ∷ 1 ∷ 4 ∷ []) (0 ∷ 0 ∷ 0 ∷ 0 ∷ []) 4
    ≡ some (4 ∷ 3 ∷ 5 ∷ [], 0 ∷ 1 ∷ 1 ∷ [])
unfolding Connected.resort Connected.sort_from Connected.visit_from Connected.enqueue
    Connected.earlier index_of next_to
resorted = refl

resort-IsClosed_example :
    (mem 4 (3 ∷ 5 ∷ 1 ∷ 4 ∷ []) ≡ true) × ((next_to 4 3 ≡ false) ⊎ (mem 3 (4 ∷ 3 ∷ 5 ∷ []) ≡ true))
resort-IsClosed_example =
    resort-IsClosed next_to (3 ∷ 5 ∷ 1 ∷ 4 ∷ []) (0 ∷ 0 ∷ 0 ∷ 0 ∷ []) 4
      (4 ∷ 3 ∷ 5 ∷ [], 0 ∷ 1 ∷ 1 ∷ []) 4 3 refl resorted refl refl

resort_total_example :
    (r : List ℕ × List ℕ) × (Connected.resort next_to (3 ∷ 5 ∷ 1 ∷ 4 ∷ []) (0 ∷ 0 ∷ 0 ∷ 0 ∷ []) 4
      ≡ some r)
    × (get_or r.0 0 0 ≡ 4)
    × (length r.1 ≡ length r.0)
resort_total_example = resort_total next_to (3 ∷ 5 ∷ 1 ∷ 4 ∷ []) (0 ∷ 0 ∷ 0 ∷ 0 ∷ []) 4 refl

occurrences-restricted_cands_all_example :
    occurrences 3 (restricted_cands_all 5 (0 ∷ 2 ∷ []) []) ≡ 1
occurrences-restricted_cands_all_example = occurrences-restricted_cands_all 5 3 (0 ∷ 2 ∷ []) []
