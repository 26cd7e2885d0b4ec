-- ===== src/Enumerator/Tests.antt =====
-- A forest of one tree with four nodes, visited in both ways.
use mathlib.Core.List.{Permᴰ}
use parallel_enum.Base.{
  ℕ, ◌*◌, ◌≡◌, refl, Bool, true, false, [], ◌∷◌, some, ◌==◌, if◌then◌else◌, length, arith,
}
use parallel_enum.Enumerator.{
  Enumerable, Stats, run_internal, each_root, drain, push_all, report_solution, visit_all,
  each_root_recursive,
}
use parallel_enum.Enumerator.Forest.{roots, forest}
use parallel_enum.Enumerator.Report.{found}
use parallel_enum.Enumerator.Complete.{fresh, all_nodes, run_internal-Lists}

-- The root 1 with the children 2 and 3, and 4 below 3. Even nodes are solutions.
abbrev tree : Bool → Enumerable ℕ ℕ
tree recursive = record {
  can_use_recursion = recursive;
  max_roots = 2;
  get_root = λ i. if i == 1 then 1 ∷ [] else [];
  list_children = λ n. if n == 1 then 2 ∷ 3 ∷ [] else if n == 3 then 4 ∷ [] else [];
  node_to_item = λ n. n * 10;
  is_solution = λ n. n == 2;
}

run : Unit {0}
unfolding run_internal each_root drain push_all report_solution visit_all each_root_recursive roots
    forest found
run = tt

visit_order :
    run_internal (tree true) 4 fresh
    ≡ some (record { has_cb = true; solutions_found = 1; tree_size = 4; items = 20 ∷ [] })
unfolding run
visit_order = refl

run_internal-Lists_example :
    (t : Stats ℕ) × (run_internal (tree false) 4 fresh ≡ some t)
    × (t.tree_size ≡ length (all_nodes (tree false) 3))
    × (t.solutions_found ≡ length (found (tree false) (all_nodes (tree false) 3)))
    × Permᴰ t.items (found (tree false) (all_nodes (tree false) 3))
unfolding run
run_internal-Lists_example =
    run_internal-Lists (tree false) 4 3 ((tt, ((tt, tt), tt)), tt) (omega arith) (omega arith)
