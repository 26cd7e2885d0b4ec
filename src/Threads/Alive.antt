-- ===== src/Threads/Alive.antt =====
-- The threads end, and none is ever stuck (enumerator/parallel_pthreads.hpp).
use parallel_enum.Base.{
  ℕ, zero, suc, ◌+◌, ◌-◌, ◌*◌, ◌≤◌, ◌<◌, ◌≡◌, refl, sym, ◌∙◌, Bool, true, false, List, [], ◌∷◌,
  length, get_or, replicate, length-replicate, arith, Bool-cases, inl, inr, ltb,
}
use parallel_enum.Enumerator.{Enumerable}
use parallel_enum.Enumerator.Forest.{roots, forest, IsShallow}
use parallel_enum.Threads.{
  Phase, top, visiting, reporting, fetching, ended, Shared, start_threads, phase_of, queue_of, Step,
  take_root, last_root, no_roots, enqueue, report, finish_visit, dequeue, go_on, leave, Reaches,
}
use parallel_enum.Threads.Weights.{sum_of, runs}
use parallel_enum.Threads.Reports.{sum_of-replicate, whole, forest_sum, split_at}
use parallel_enum.Threads.Fed.{IsFed, steps}
use parallel_enum.Threads.Potential.{ranks, queued, steps-potential}

module _ {Node Item : Type 0} (system : Enumerable Node Item) (max_root : ℕ) (s : Shared Node)
    (i : ℕ) where
  from_top : phase_of s i ≡ top → (t : Shared Node) × Step system max_root s i t
  from_top at = elim (Bool-cases (get_or s.roots_available i false)) [
    | inr off ↦ (_, no_roots i at off)
    | inl on ↦ elim (Bool-cases (ltb s.next_root max_root)) [
      | inl lt ↦ (_, take_root i at on (ground arith))
      | inr ge ↦ (_, last_root i at on (ground arith))
    ]
  ]

  from_fetching :
      (q : List Node)
      → queue_of s i ≡ q
      → phase_of s i ≡ fetching
      → (t : Shared Node) × Step system max_root s i t
  from_fetching (n ∷ q) e at = (_, dequeue i i n q at (inl refl) e)
  from_fetching [] e at = elim (Bool-cases (ltb s.next_root max_root)) [
    | inl lt ↦ (_, go_on i at e (ground arith))
    | inr ge ↦ (_, leave i at e (ground arith))
  ]

  from_phase :
      (p : Phase Node)
      → phase_of s i ≡ p
      → runs p ≡ true
      → (t : Shared Node) × Step system max_root s i t
  from_phase top at on = from_top at
  from_phase (visiting from_root []) at on = (_, finish_visit i from_root at)
  from_phase (visiting from_root (n ∷ ns)) at on = (_, enqueue i from_root n ns at)
  from_phase (reporting from_root n ns) at on = (_, report i from_root n ns at)
  from_phase fetching at on = from_fetching (queue_of s i) refl at
  from_phase ended at on = absurd (cc)

  -- A thread that has not left its loop can make a step of its own.
  runs-Step : runs (phase_of s i) ≡ true → (t : Shared Node) × Step system max_root s i t
  runs-Step on = from_phase (phase_of s i) refl on

sum_of-const : {A : Type 0} (c : ℕ) (xs : List A) → sum_of (λ x. c) xs ≡ c * length xs
sum_of-const c [] = omega arith
sum_of-const c (x ∷ xs) = let h = sum_of-const c xs in grind (arith, h)

module _ {Node Item : Type 0} (system : Enumerable Node Item) (max_root : ℕ) where
  ranks-start :
      (whole : Node → ℕ) (threads : ℕ)
      → ranks system max_root whole (replicate threads top) (replicate threads true) ≡ 3 * threads
  ranks-start whole zero = refl
  ranks-start whole (suc threads) = omega (arith, ranks-start whole threads)

  start_threads-IsFed :
      (threads min_root : ℕ) → IsFed system max_root (start_threads threads min_root)
  unfolding start_threads
  start_threads-IsFed threads min_root =
      let count = length-replicate {A = Phase Node} threads top in
      record {
        queues_size = length-replicate {A = List Node} threads [] ∙ sym count;
        available_size = length-replicate {A = Bool} threads true ∙ sym count;
        spent = λ i lt off. absurd (let on = all_true threads i (omega (arith, count)) in cc);
      }
    where
      all_true : (n i : ℕ) → i < n → get_or (replicate n true) i false ≡ true
      all_true zero i lt = absurd (omega arith)
      all_true (suc n) zero lt = refl
      all_true (suc n) (suc i) lt = all_true n i (omega arith)

  -- With a forest of at most `depth` levels below any node, any interleaving of the steps of the
  -- threads of `ParallelPthreads` has at most three steps for each thread, three for each root and
  -- seven for each node of the forest; and after any interleaving, each thread that has not left
  -- its loop can make a step of its own.
  pub Reaches-ends :
      (threads min_root depth : ℕ) (t : Shared Node)
      → ((n : Node) → IsShallow system depth (n ∷ []))
      → (run : Reaches system max_root (start_threads threads min_root) t)
      → (steps system max_root (start_threads threads min_root) t run
          ≤ 3 * threads
            + 3 * (max_root - min_root)
            + 7 * length (forest system depth (roots system (max_root - min_root) min_root)))
        × ((i : ℕ) → runs (phase_of t i) ≡ true → (u : Shared Node) × Step system max_root t i u)
  unfolding start_threads
  Reaches-ends threads min_root depth t shallow run =
      let w = whole system max_root (λ n. 7) depth in
      let s = start_threads threads min_root in
      let r = roots system (max_root - min_root) min_root in
      let split = λ (n : Node). split_at system max_root (λ n. 7) depth depth n (shallow n) in
      let (fed, le) =
        steps-potential system max_root w s t run split (start_threads-IsFed threads min_root) in
      let empty = sum_of-replicate (λ q. sum_of (queued system max_root w) q) threads [] refl in
      (
        omega (
          arith,
          le,
          empty,
          ranks-start w threads,
          forest_sum system max_root (λ n. 7) depth depth r,
          sum_of-const 7 (forest system depth r),
        ),
        λ i on. runs-Step system max_root t i on,
      )
