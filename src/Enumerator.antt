-- ===== src/Enumerator.antt =====
-- The enumerators (enumerator/enumerator.hpp, enumerator/sequential.hpp) over the interface of
-- enumerable/enumerable.hpp. The callback of an enumerator always answers `true`, so a system is
-- given by the nodes that `GetRoot(i)` and `ListChildren(node)` call back on, in order. Counters
-- do not wrap.
pub mod Forest
pub mod Report
pub mod Sequential
pub mod Complete
mod Tests
use parallel_enum.Base.{
  ℕ, zero, suc, ◌+◌, Bool, true, false, not, List, [], ◌∷◌, ◌++◌, Option, none, some, if◌then◌else◌,
  ◌>>=◌,
}

-- `Enumerable<Node, Item>`; `SetUp` and `CleanUp` change nothing that an enumerator reads.
pub record Enumerable (Node Item : Type 0) : Type 0 where
  pub can_use_recursion : Bool
  pub max_roots : ℕ
  pub get_root : ℕ → List Node
  pub list_children : Node → List Node
  pub node_to_item : Node → Item
  pub is_solution : Node → Bool

-- The counters of `Enumerator`, and the items that `cb_` was called with, if it is set.
pub record Stats (Item : Type 0) : Type 0 where
  pub has_cb : Bool
  pub solutions_found : ℕ
  pub tree_size : ℕ
  pub items : List Item

module _ {Node Item : Type 0} (system : Enumerable Node Item) where
  pub report_solution : Stats Item → Node → Stats Item
  report_solution s node =
      let t = record s { tree_size = s.tree_size + 1 } in
      if not (system.is_solution node)
      then t
      else let u = record t { solutions_found = t.solutions_found + 1 } in
        if u.has_cb then record u { items = u.items ++ system.node_to_item node ∷ [] } else u

  -- `solution_cb` without recursion, on each of the nodes: `nodes.push(node)`, then the report.
  pub push_all : List Node → List Node → Stats Item → List Node × Stats Item
  push_all [] stack s = (stack, s)
  push_all (node ∷ nodes) stack s = push_all nodes (node ∷ stack) (report_solution s node)

  -- `while (!nodes.empty())`, with fuel; the top of the stack stands first.
  pub drain : ℕ → List Node → Stats Item → Option (Stats Item)
  drain fuel [] s = some s
  drain zero (node ∷ stack) s = none
  drain (suc fuel) (node ∷ stack) s =
      let (stack', s') = push_all (system.list_children node) stack s in drain fuel stack' s'

  -- The loop over the roots `i`, `i + 1`, …, of which `n` are left.
  pub each_root : ℕ → ℕ → ℕ → Stats Item → Option (Stats Item)
  each_root fuel zero i s = some s
  each_root fuel (suc n) i s = do
    let (stack, s') = push_all (system.get_root i) [] s
    t ← drain fuel stack s'
    each_root fuel n (i + 1) t

  -- `solution_cb` with recursion, on each of the nodes; the fuel bounds its depth.
  pub visit_all : ℕ → List Node → Stats Item → Option (Stats Item)
  visit_all depth [] s = some s
  visit_all zero (node ∷ nodes) s = none
  visit_all (suc depth) (node ∷ nodes) s = do
    t ← visit_all depth (system.list_children node) (report_solution s node)
    visit_all (suc depth) nodes t

  pub each_root_recursive : ℕ → ℕ → ℕ → Stats Item → Option (Stats Item)
  each_root_recursive depth zero i s = some s
  each_root_recursive depth (suc n) i s = do
    t ← visit_all depth (system.get_root i) s
    each_root_recursive depth n (i + 1) t

  -- `Sequential::RunInternal`.
  pub run_internal : ℕ → Stats Item → Option (Stats Item)
  run_internal fuel s =
      if not system.can_use_recursion
      then each_root fuel system.max_roots 0 s
      else each_root_recursive fuel system.max_roots 0 s
