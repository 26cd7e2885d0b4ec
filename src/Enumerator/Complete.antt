-- ===== src/Enumerator/Complete.antt =====
-- `Sequential::RunInternal` from fresh counters (enumerator/sequential.hpp).
use mathlib.Core.List.Permᴰ
use mathlib.Core.List.{Permᴰ}
use parallel_enum.Base.{
  ℕ, ◌≤◌, ◌≡◌, refl, ap, ◌∙◌, true, List, [], some, arith, length, Bool-cases, inl, inr,
}
use parallel_enum.Enumerator.{Enumerable, Stats, run_internal}
use parallel_enum.Enumerator.Forest.{roots, forest, IsShallow, IsShallow-le, forest-le}
use parallel_enum.Enumerator.Report.{reports, found, reports-Reported, found-perm, length-perm}
use parallel_enum.Enumerator.Sequential.{each_root-reports, each_root_recursive-reports}

-- The counters of a new `Enumerator` with its callback set.
abbrev pub fresh : {Item : Type 0} → Stats Item
fresh = record { has_cb = true; solutions_found = 0; tree_size = 0; items = [] }

module _ {Node Item : Type 0} (system : Enumerable Node Item) where
  -- All the nodes that the system spans, in levels up to `depth`.
  abbrev pub all_nodes : ℕ → List Node
  all_nodes depth = forest system depth (roots system system.max_roots 0)

  -- What `RunInternal` has counted and handed over when it has reported `nodes`.
  pub record Lists (nodes : List Node) (t : Stats Item) : Type 0 where
    pub tree_size : t.tree_size ≡ length nodes
    pub solutions_found : t.solutions_found ≡ length (found system nodes)
    pub items : t.items ≡ found system nodes

  reports-Lists : (nodes : List Node) → Lists nodes (reports system fresh nodes)
  reports-Lists nodes =
      let r = reports-Reported system fresh nodes in
      record {
        tree_size = omega (arith, r.tree_size);
        solutions_found = omega (arith, r.solutions_found);
        items = r.items;
      }

  module _ (fuel depth : ℕ) (finite : IsShallow system depth (roots system system.max_roots 0))
      (deep : depth ≤ fuel) (long : length (all_nodes depth) ≤ fuel) where
    run_internal-reports :
        (log : List Node) × Permᴰ log (all_nodes depth)
        × (system.can_use_recursion ≡ true → log ≡ all_nodes depth)
        × (run_internal system fuel fresh ≡ some (reports system fresh log))
    unfolding run_internal
    run_internal-reports = elim (Bool-cases system.can_use_recursion) [
      | inl yes_rec ↦ (
        all_nodes depth,
        Permᴰ.refl _,
        λ _. refl,
        simp yes_rec (
            each_root_recursive-reports system fuel system.max_roots 0 fresh
              (IsShallow-le system depth fuel _ deep finite)
            ∙ ap (λ l. some (reports system fresh l))
                (forest-le system depth fuel (roots system system.max_roots 0) deep finite)),
      )
      | inr no_rec ↦
          let (log, perm, run) =
            each_root-reports system fuel depth system.max_roots 0 fresh finite long in
          (log, perm, λ e. cc, simp no_rec run)
    ]

    -- If the forest has at most `depth` levels and the fuel is at least this and the number of its
    -- nodes, `RunInternal` from fresh counters ends; it counts each node and each solution of the
    -- forest once, and the items that it hands over are those of the solutions, in some order.
    pub run_internal-Lists :
        (t : Stats Item) × (run_internal system fuel fresh ≡ some t)
        × (t.tree_size ≡ length (all_nodes depth))
        × (t.solutions_found ≡ length (found system (all_nodes depth)))
        × Permᴰ t.items (found system (all_nodes depth))
    run_internal-Lists =
        let (log, perm, _, run) = run_internal-reports in
        let r = reports-Lists log in
        let same = found-perm system perm in
        (
          reports system fresh log,
          run,
          r.tree_size ∙ length-perm perm,
          r.solutions_found ∙ length-perm same,
          rw r.items same,
        )

    -- If the system allows recursion, the forest has at most `depth` levels and the fuel is at
    -- least this and the number of its nodes, `RunInternal` from fresh counters ends and hands over
    -- the items of the solutions in the order of the forest, each node before its subtree.
    pub run_internal_order :
        system.can_use_recursion ≡ true
        → (t : Stats Item) × (run_internal system fuel fresh ≡ some t)
          × (t.items ≡ found system (all_nodes depth))
    run_internal_order e =
        let (log, perm, order, run) = run_internal-reports in
        let r = reports-Lists log in (reports system fresh log, run, rw (r.items, order e))
