-- ===== src/Enumerator/Sequential.antt =====
-- `Sequential::RunInternal` reports every node of the forest exactly once (enumerator/sequential.hpp).
use mathlib.Core.List.Permᴰ
use mathlib.Core.List.{Permᴰ}
use parallel_enum.Base.{
  ℕ, zero, suc, ◌+◌, ◌≤◌, ◌≡◌, refl, sym, ap, ◌∙◌, List, [], ◌∷◌, ◌++◌, some, arith, length,
  append_assoc, append-nil, length-append, subst, ◌>>=◌,
}
use parallel_enum.Enumerator.{
  Enumerable, Stats, report_solution, push_all, drain, each_root, visit_all, each_root_recursive,
}
use parallel_enum.Enumerator.Forest.{
  roots, forest, IsShallow, below, IsShallow-le, IsShallow-append, forest-append, forest-perm,
  pushed, IsShallow-pushed, below-pushed,
}
use parallel_enum.Enumerator.Report.{reports, reports-append, length-perm}

module _ {Node Item : Type 0} (system : Enumerable Node Item) where
  -- With recursion the nodes are reported in the order of the forest.
  visit_all-reports :
      (depth : ℕ) (nodes : List Node) (s : Stats Item)
      → IsShallow system depth nodes
      → visit_all system depth nodes s ≡ some (reports system s (forest system depth nodes))
  unfolding visit_all forest reports
  visit_all-reports depth [] s h = refl
  visit_all-reports zero (node ∷ nodes) s h = absurd h
  visit_all-reports (suc depth) (node ∷ nodes) s h =
      let kids = system.list_children node in
      let s' = report_solution system s node in
      rw (
        visit_all-reports depth kids s' h.0,
        ◌>>=◌,
        visit_all-reports (suc depth) nodes (reports system s' (forest system depth kids)) h.1,
        reports-append system,
      )

  pub each_root_recursive-reports :
      (depth n i : ℕ) (s : Stats Item)
      → IsShallow system depth (roots system n i)
      → each_root_recursive system depth n i s
        ≡ some (reports system s (forest system depth (roots system n i)))
  unfolding each_root_recursive roots forest reports
  each_root_recursive-reports depth zero i s h = refl
  each_root_recursive-reports depth (suc n) i s h =
      let parts = IsShallow-append system depth (system.get_root i) (roots system n (i + 1)) h in
      rw (
        visit_all-reports depth (system.get_root i) s parts.0,
        ◌>>=◌,
        each_root_recursive-reports depth n (i + 1) _ parts.1,
        forest-append system depth (system.get_root i) (roots system n (i + 1)) h,
        reports-append system,
      )

  push_all_lem :
      (nodes stack : List Node) (s : Stats Item)
      → push_all system nodes stack s ≡ (pushed system nodes stack, reports system s nodes)
  unfolding push_all pushed reports
  push_all_lem [] stack s = refl
  push_all_lem (node ∷ nodes) stack s =
      push_all_lem nodes (node ∷ stack) (report_solution system s node)

  length-pushed :
      (nodes stack : List Node) → length (pushed system nodes stack) ≡ length nodes + length stack
  unfolding pushed
  length-pushed [] stack = omega arith
  length-pushed (node ∷ nodes) stack = omega (arith, length-pushed nodes (node ∷ stack))

  -- The stack loop reports what stands below the stack, in some order.
  drain-reports :
      (fuel depth : ℕ) (stack : List Node) (s : Stats Item)
      → IsShallow system depth stack
      → length stack + length (below system depth stack) ≤ fuel
      → (log : List Node) × Permᴰ log (below system depth stack)
        × (drain system fuel stack s ≡ some (reports system s log))
  unfolding drain below reports
  drain-reports fuel depth [] s h le = ([], Permᴰ.nil, refl)
  drain-reports fuel zero (node ∷ stack) s h le = absurd h
  drain-reports zero (suc depth) (node ∷ stack) s h le = absurd (omega arith)
  drain-reports (suc fuel) (suc depth) (node ∷ stack) s h le =
      let kids = system.list_children node in
      let deep = IsShallow-le system depth (suc depth) kids (omega arith) h.0 in
      let order =
        Permᴰ.trans (Permᴰ.append_left kids (below-pushed system (suc depth) kids stack deep)) (
          subst (λ l. Permᴰ l (forest system depth kids ++ below system (suc depth) stack))
            (append_assoc kids (below system (suc depth) kids) (below system (suc depth) stack))
            (Permᴰ.append_right (below system (suc depth) stack)
              (Permᴰ.symm (forest-perm system depth kids h.0)))) in
      let (log, perm, run) =
        drain-reports fuel (suc depth) (pushed system kids stack) (reports system s kids)
          (IsShallow-pushed system (suc depth) kids stack deep h.1)
          (omega (
            arith,
            length-pushed kids stack,
            length-perm order,
            length-append kids (below system (suc depth) (pushed system kids stack)),
            length-append (forest system depth kids) (below system (suc depth) stack),
          )) in
      (
        kids ++ log,
        Permᴰ.trans (Permᴰ.append_left kids perm) order,
        ap (λ (p : List Node × Stats Item). drain system fuel p.0 p.1) (push_all_lem kids stack s)
            ∙ (run ∙ ap some (sym (reports-append system s kids log))),
      )

  push_roots :
      (fuel depth : ℕ) (nodes : List Node) (s : Stats Item)
      → IsShallow system depth nodes
      → length (forest system depth nodes) ≤ fuel
      → (log : List Node) × Permᴰ log (forest system depth nodes)
        × (drain system fuel (pushed system nodes []) (reports system s nodes)
            ≡ some (reports system s log))
  push_roots fuel depth nodes s h le =
      let more = IsShallow-le system depth (suc depth) nodes (omega arith) h in
      let all = forest-perm system depth nodes h in
      let order = below-pushed system (suc depth) nodes [] more in
      let (log, perm, run) =
        drain-reports fuel (suc depth) (pushed system nodes []) (reports system s nodes)
          (IsShallow-pushed system (suc depth) nodes [] more tt)
          (omega (
            arith,
            length-pushed nodes [],
            length-perm all,
            length-perm order,
            length-append nodes (below system (suc depth) nodes),
            length-append (below system (suc depth) nodes) (below system (suc depth) []),
            ap length below-nil,
          )) in
      (
        nodes ++ log,
        Permᴰ.trans
            (Permᴰ.append_left nodes (
              Permᴰ.trans perm (
                subst (Permᴰ (below system (suc depth) (pushed system nodes [])))
                  (rw below-nil (append-nil _)) order)))
            (Permᴰ.symm all),
        rw (run, reports-append system),
      )
    where
      below-nil : below system (suc depth) [] ≡ []
      below-nil = unfold below in refl

  pub each_root-reports :
      (fuel depth n i : ℕ) (s : Stats Item)
      → IsShallow system depth (roots system n i)
      → length (forest system depth (roots system n i)) ≤ fuel
      → (log : List Node) × Permᴰ log (forest system depth (roots system n i))
        × (each_root system fuel n i s ≡ some (reports system s log))
  unfolding each_root roots forest reports
  each_root-reports fuel depth zero i s h le = ([], Permᴰ.nil, refl)
  each_root-reports fuel depth (suc n) i s h le =
      let now = system.get_root i in
      let later = roots system n (i + 1) in
      let parts = IsShallow-append system depth now later h in
      let split = forest-append system depth now later h in
      let size =
        ap length split ∙ length-append (forest system depth now) (forest system depth later) in
      let (log, perm, run) = push_roots fuel depth now s parts.0 (omega arith) in
      let (log', perm', run') =
        each_root-reports fuel depth n (i + 1) (reports system s log) parts.1 (omega arith) in
      (
        log ++ log',
        subst (Permᴰ (log ++ log')) (sym split) (
            Permᴰ.trans (Permᴰ.append_right log' perm)
              (Permᴰ.append_left (forest system depth now) perm')),
        rw (push_all_lem now [] s, run, ◌>>=◌, run', reports-append system),
      )
