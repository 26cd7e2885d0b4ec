-- ===== src/Threads/Reports.antt =====
-- The threads report every node (enumerator/parallel_pthreads.hpp).
use parallel_enum.Base.{
  ℕ, zero, suc, ◌+◌, ◌-◌, ◌≤◌, ◌<◌, ◌≡◌, refl, sym, ap, ◌∙◌, true, false, List, [], ◌∷◌, length,
  get_or, arith, replicate, length-set, length-replicate,
}
use parallel_enum.Enumerator.{Enumerable}
use parallel_enum.Enumerator.Forest.{roots, forest, IsShallow, forest-le}
use parallel_enum.Threads.{
  Phase, top, visiting, reporting, fetching, ended, Shared, start_threads, phase_of, Step,
  take_root, last_root, no_roots, enqueue, report, finish_visit, dequeue, go_on, leave, Reaches,
  here, next,
}
use parallel_enum.Threads.Weights.{sum_of, sum_of-append, runs, under, phase_weight}
use parallel_enum.Threads.Steps.{no_next}
use parallel_enum.Threads.Ended.{IsSafe, Reaches-total}

sum_of-zero :
    {A : Type 0} (g : A → ℕ) (xs : List A) (d : A)
    → ((k : ℕ) → k < length xs → g (get_or xs k d) ≡ 0)
    → sum_of g xs ≡ 0
sum_of-zero g [] d h = refl
sum_of-zero g (x ∷ xs) d h =
    omega (arith, h 0 (omega arith), sum_of-zero g xs d (λ k lt. h (suc k) (omega arith)))

pub sum_of-replicate :
    {A : Type 0} (g : A → ℕ) (n : ℕ) (a : A) → g a ≡ 0 → sum_of g (replicate n a) ≡ 0
sum_of-replicate g zero a h = refl
sum_of-replicate g (suc n) a h = omega (arith, h, sum_of-replicate g n a h)

module _ {Node Item : Type 0} (system : Enumerable Node Item) (max_root : ℕ) where
  -- All threads have left their loops.
  abbrev pub AllLeft : Shared Node → Type 0
  AllLeft s = (k : ℕ) → k < length s.phases → runs (phase_of s k) ≡ false

  length-Step :
      (s t : Shared Node) (i : ℕ) → Step system max_root s i t → length t.phases ≡ length s.phases
  length-Step s t _ (take_root i at on lt) = length-set s.phases i _
  length-Step s t _ (last_root i at on le) = length-set s.phases i _
  length-Step s t _ (no_roots i at off) = length-set s.phases i _
  length-Step s t _ (enqueue i from_root n ns at) = length-set s.phases i _
  length-Step s t _ (report i from_root n ns at) = length-set s.phases i _
  length-Step s t _ (finish_visit i from_root at) = length-set s.phases i _
  length-Step s t _ (dequeue i j n q at own found) = length-set s.phases i _
  length-Step s t _ (go_on i at empty lt) = length-set s.phases i _
  length-Step s t _ (leave i at empty le) = length-set s.phases i _

  length-Reaches :
      (s t : Shared Node) → Reaches system max_root s t → length t.phases ≡ length s.phases
  length-Reaches s t here = refl
  length-Reaches s t (next u _ i run step) = length-Step u t i step ∙ length-Reaches s u run

  module _ (one : Node → ℕ) (depth : ℕ) where
    -- The weight of a node and all below.
    abbrev pub whole : Node → ℕ
    whole n = sum_of one (forest system depth (n ∷ []))

    no_levels : (ns : List Node) → sum_of one (forest system 0 ns) ≡ 0
    unfolding forest
    no_levels [] = refl
    no_levels (n ∷ ns) = refl

    pub forest_sum :
        (d : ℕ) (ns : List Node)
        → sum_of one (forest system d ns) ≡ sum_of (λ n. sum_of one (forest system d (n ∷ []))) ns
    unfolding forest
    forest_sum d [] = refl
    forest_sum zero (n ∷ ns) = omega (arith, forest_sum zero ns, no_levels ns)
    forest_sum (suc d) (n ∷ ns) =
        let kids = forest system d (system.list_children n) in
        omega (
          arith,
          forest_sum (suc d) ns,
          sum_of-append one kids (forest system (suc d) ns),
          sum_of-append one kids [],
        )

    pub split_at :
        (d : ℕ) (n : Node)
        → IsShallow system d (n ∷ [])
        → sum_of one (forest system d (n ∷ []))
          ≡ one n + sum_of (λ m. sum_of one (forest system d (m ∷ []))) (system.list_children n)
    unfolding forest
    split_at zero n h = absurd h
    split_at (suc d) n h =
        let kids = system.list_children n in
        let deeper = ap (sum_of one) (forest-le system d (suc d) kids (omega arith) h.0) in
        omega (arith, sum_of-append one (forest system d kids) [], deeper, forest_sum (suc d) kids)

  queues_zero :
      (one whole : Node → ℕ) (s : Shared Node)
      → IsSafe system max_root s
      → AllLeft s
      → sum_of (λ q. sum_of (under system max_root one whole) q) s.queues ≡ 0
  queues_zero one whole s safe left =
      sum_of-zero (λ q. sum_of (under system max_root one whole) q) s.queues []
        (λ k lt.
          let inside : k < length s.phases = omega (arith, safe.0) in
          ap (λ q. sum_of (under system max_root one whole) q) (safe.1 k inside (left k inside)).0)

  phase_zero :
      (one whole : Node → ℕ) (p : Phase Node)
      → runs p ≡ false
      → phase_weight system max_root one whole p ≡ 0
  phase_zero one whole top h = refl
  phase_zero one whole (visiting from_root ns) h = absurd (cc)
  phase_zero one whole (reporting from_root n ns) h = absurd (cc)
  phase_zero one whole fetching h = refl
  phase_zero one whole ended h = refl

  start_threads-IsSafe :
      (threads min_root : ℕ) → IsSafe system max_root (start_threads threads min_root)
  unfolding start_threads
  start_threads-IsSafe threads min_root = (
    length-replicate {A = List Node} threads []
        ∙ sym (length-replicate {A = Phase Node} threads top),
    λ k lt off. absurd (
        let on =
          runs_top threads k (omega (arith, length-replicate {A = Phase Node} threads top)) in
        cc),
  )
    where
      runs_top : (n k : ℕ) → k < n → runs (get_or (replicate {A = Phase Node} n top) k ended) ≡ true
      runs_top zero k lt = absurd (omega arith)
      runs_top (suc n) zero lt = refl
      runs_top (suc n) (suc k) lt = runs_top n k (omega arith)

  -- With at least one thread and a forest of at most `depth` levels below any node, if all threads
  -- of `ParallelPthreads` have left their loops, after any interleaving of their steps, they have
  -- reported the nodes of the forest below the roots from `_minRootId` to `_maxRootId`, each as
  -- often as it stands there: any sum over the reported nodes is the sum over the forest.
  pub Reaches-reported :
      (threads min_root depth : ℕ) (t : Shared Node)
      → ((n : Node) → IsShallow system depth (n ∷ []))
      → 1 ≤ threads
      → Reaches system max_root (start_threads threads min_root) t
      → AllLeft t
      → (one : Node → ℕ)
      → sum_of one t.reported
        ≡ sum_of one (forest system depth (roots system (max_root - min_root) min_root))
  unfolding start_threads
  Reaches-reported threads min_root depth t shallow some_thread run left one =
      let w = whole one depth in
      let s = start_threads threads min_root in
      let (safe, same) =
        Reaches-total system max_root one w (λ n. split_at one depth depth n (shallow n)) s t
          (start_threads-IsSafe threads min_root) run in
      let count : length t.phases ≡ threads =
        length-Reaches s t run ∙ length-replicate {A = Phase Node} threads top in
      let first : 0 < length t.phases = omega arith in
      let over =
        no_next system max_root one w (λ n. split_at one depth depth n (shallow n)) t.next_root
          (safe.1 0 first (left 0 first)).1 in
      omega (
        arith,
        same,
        over,
        queues_zero one w t safe left,
        sum_of-zero (phase_weight system max_root one w) t.phases ended
            (λ k lt. phase_zero one w _ (left k lt)),
        sum_of-replicate (λ q. sum_of (under system max_root one w) q) threads [] refl,
        sum_of-replicate (phase_weight system max_root one w) threads top refl,
        forest_sum one depth depth (roots system (max_root - min_root) min_root),
      )
