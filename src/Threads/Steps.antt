-- ===== src/Threads/Steps.antt =====
-- Every step keeps the weight of what is reported and what is left (enumerator/parallel_pthreads.hpp).
use parallel_enum.Base.{
  ℕ, suc, ◌+◌, ◌-◌, ◌≤◌, ◌<◌, ◌≡◌, refl, ap, subst, ◌∙◌, true, false, [], ◌∷◌, ◌++◌, length, get_or,
  set, arith,
}
use parallel_enum.Enumerator.{Enumerable}
use parallel_enum.Enumerator.Forest.{roots}
use parallel_enum.Threads.{
  Phase, top, visiting, reporting, fetching, ended, Shared, after_visit, Step, take_root, last_root,
  no_roots, enqueue, report, finish_visit, dequeue, go_on, leave,
}
use parallel_enum.Threads.Weights.{
  sum_of, sum_of-append, sum_of-set, place_lt, runs, has_node, under, phase_weight, total,
}

module _ {Node Item : Type 0} (system : Enumerable Node Item) (max_root : ℕ) (one whole : Node → ℕ)
    (split : (n : Node) → whole n ≡ one n + sum_of whole (system.list_children n)) where
  -- The thread `i` goes from the phase `p`, in which it runs, to `p'`.
  moves :
      (s : Shared Node) (i : ℕ) (p p' : Phase Node)
      → get_or s.phases i ended ≡ p
      → runs p ≡ true
      → sum_of (phase_weight system max_root one whole) (set s.phases i p')
          + phase_weight system max_root one whole p
        ≡ sum_of (phase_weight system max_root one whole) s.phases
          + phase_weight system max_root one whole p'
  moves s i p p' at on =
      let inside = place_lt runs s.phases i ended refl (ap runs at ∙ on) in
      let moved = sum_of-set (phase_weight system max_root one whole) s.phases i p' ended inside in
      subst
        (λ z.
          sum_of (phase_weight system max_root one whole) (set s.phases i p')
            + phase_weight system max_root one whole z
          ≡ sum_of (phase_weight system max_root one whole) s.phases
            + phase_weight system max_root one whole p')
        at moved

  abbrev under' : Node → ℕ
  under' = under system max_root one whole

  pub take_next :
      (next : ℕ)
      → next < max_root
      → sum_of whole (roots system (max_root - next) next)
        ≡ sum_of whole (system.get_root next)
          + sum_of whole (roots system (max_root - (next + 1)) (next + 1))
  unfolding roots
  take_next next lt =
      let e : max_root - next ≡ suc (max_root - (next + 1)) = omega arith in
      rw e (
        sum_of-append whole (system.get_root next)
          (roots system (max_root - (next + 1)) (next + 1)))

  pub no_next :
      (next : ℕ) → max_root ≤ next → sum_of whole (roots system (max_root - next) next) ≡ 0
  unfolding roots
  no_next next le = let e : max_root - next ≡ 0 = omega arith in rw e refl

  pub total-Step :
      (s t : Shared Node) (k : ℕ)
      → length s.queues ≡ length s.phases
      → Step system max_root s k t
      → total system max_root one whole t ≡ total system max_root one whole s
  unfolding after_visit
  total-Step s t _ sized (take_root i at on lt) = omega (
    arith,
    moves s i top (visiting true (system.get_root s.next_root)) at refl,
    take_next s.next_root lt,
  )
  total-Step s t _ sized (last_root i at on le) = omega (
    arith,
    moves s i top fetching at refl,
    no_next s.next_root le,
    no_next (s.next_root + 1) (omega arith),
  )
  total-Step s t _ sized (no_roots i at off) = omega (arith, moves s i top fetching at refl)
  total-Step s t _ sized (enqueue i from_root n ns at) =
      let inside = place_lt runs s.phases i ended refl (ap runs at) in
      let q = get_or s.queues i [] in
      omega (
        arith,
        moves s i (visiting from_root (n ∷ ns)) (reporting from_root n ns) at refl,
        sum_of-set (λ r. sum_of under' r) s.queues i (q ++ n ∷ []) [] (omega (arith, sized)),
        sum_of-append under' q (n ∷ []),
        split n,
      )
  total-Step s t _ sized (report i from_root n ns at) = omega (
    arith,
    moves s i (reporting from_root n ns) (visiting from_root ns) at refl,
    sum_of-append one s.reported (n ∷ []),
  )
  total-Step s t _ sized (finish_visit i true at) =
      omega (arith, moves s i (visiting true []) fetching at refl)
  total-Step s t _ sized (finish_visit i false at) =
      omega (arith, moves s i (visiting false []) top at refl)
  total-Step s t _ sized (dequeue i j n q at own here) =
      let inside = place_lt has_node s.queues j [] refl (ap has_node here) in
      omega (
        arith,
        moves s i fetching (visiting false (system.list_children n)) at refl,
        sum_of-set (λ r. sum_of under' r) s.queues j q [] inside,
        ap (λ r. sum_of under' r) here,
      )
  total-Step s t _ sized (go_on i at empty lt) = omega (arith, moves s i fetching top at refl)
  total-Step s t _ sized (leave i at empty le) = omega (arith, moves s i fetching ended at refl)
