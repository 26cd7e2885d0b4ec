-- ===== src/Threads/Potential.antt =====
-- What is left of the work of the threads, which every step lowers
-- (enumerator/parallel_pthreads.hpp).
use parallel_enum.Base.{
  ℕ, zero, suc, ◌+◌, ◌-◌, ◌*◌, ◌≤◌, ◌<◌, ◌≡◌, refl, sym, ap, ◌∙◌, Bool, true, false, List, [], ◌∷◌,
  ◌++◌, length, get_or, set, arith, Bool-cases, inl, inr,
}
use parallel_enum.Enumerator.{Enumerable}
use parallel_enum.Enumerator.Forest.{roots}
use parallel_enum.Threads.{
  Phase, top, visiting, reporting, fetching, ended, Shared, phase_of, queue_of, after_visit, Step,
  take_root, last_root, no_roots, enqueue, report, finish_visit, dequeue, go_on, leave, Reaches,
  here, next,
}
use parallel_enum.Threads.Weights.{sum_of, sum_of-append, sum_of-set, place_lt, runs, has_node}
use parallel_enum.Threads.Fed.{IsFed, IsFed-Step, steps}
use parallel_enum.Threads.Steps.{take_next, no_next}

module _ {Node Item : Type 0} (system : Enumerable Node Item) (max_root : ℕ)
    (whole : Node → ℕ) where
  -- A thread for which roots are available goes from the queues back to the roots, any other from
  -- the roots to the queues.
  abbrev pub rank : Phase Node → Bool → ℕ
  rank top true = 3
  rank top false = 2
  rank fetching true = 4
  rank fetching false = 1
  rank ended available = 0
  rank (visiting from_root ns) available = sum_of whole ns + 5
  rank (reporting from_root n ns) available = sum_of whole ns + 6

  abbrev pub ranks : List (Phase Node) → List Bool → ℕ
  ranks [] available = 0
  ranks (p ∷ ps) [] = 0
  ranks (p ∷ ps) (a ∷ available) = rank p a + ranks ps available

  abbrev pub queued : Node → ℕ
  queued n = 5 + sum_of whole (system.list_children n)

  abbrev pub potential : Shared Node → ℕ
  potential s =
      ranks s.phases s.roots_available
      + sum_of (λ q. sum_of queued q) s.queues
      + 3 * (max_root - s.next_root)
      + sum_of whole (roots system (max_root - s.next_root) s.next_root)

  ranks-set :
      (ps : List (Phase Node)) (avail : List Bool) (i : ℕ) (p : Phase Node) (a : Bool)
      → i < length ps
      → length avail ≡ length ps
      → ranks (set ps i p) (set avail i a) + rank (get_or ps i ended) (get_or avail i false)
        ≡ ranks ps avail + rank p a
  ranks-set [] avail i p a lt e = absurd (omega arith)
  ranks-set (q ∷ ps) [] i p a lt e = absurd (omega arith)
  ranks-set (q ∷ ps) (b ∷ avail) zero p a lt e = omega arith
  ranks-set (q ∷ ps) (b ∷ avail) (suc i) p a lt e =
      omega (arith, ranks-set ps avail i p a (omega arith) (omega arith))

  set_same : (avail : List Bool) (i : ℕ) → set avail i (get_or avail i false) ≡ avail
  set_same [] i = refl
  set_same (a ∷ avail) zero = refl
  set_same (a ∷ avail) (suc i) = ap (λ z. a ∷ z) (set_same avail i)

  -- The thread `i` goes from the phase `p`, in which it runs, to `p'`.
  moves_rank :
      (s : Shared Node) (i : ℕ) (p p' : Phase Node) (a : Bool)
      → IsFed system max_root s
      → phase_of s i ≡ p
      → runs p ≡ true
      → get_or s.roots_available i false ≡ a
      → ranks (set s.phases i p') s.roots_available + rank p a
        ≡ ranks s.phases s.roots_available + rank p' a
  moves_rank s i p p' a fed at on avail =
      let inside = place_lt runs s.phases i ended refl (ap runs at ∙ on) in
      let old = get_or s.roots_available i false in
      let moved = ranks-set s.phases s.roots_available i p' old inside fed.available_size in
      let same =
        ap (λ z. ranks (set s.phases i p') z + rank (phase_of s i) old)
          (sym (set_same s.roots_available i)) in
      rw (sym at, sym avail) (same ∙ moved)

  inside_of :
      (s : Shared Node) (i : ℕ) (p : Phase Node)
      → phase_of s i ≡ p
      → runs p ≡ true
      → i < length s.phases
  inside_of s i p at on = place_lt runs s.phases i ended refl (ap runs at ∙ on)

  -- Whether roots are available or not.
  at_any :
      (s : Shared Node) (i : ℕ) (p p' : Phase Node)
      → IsFed system max_root s
      → phase_of s i ≡ p
      → runs p ≡ true
      → ((a : Bool) → rank p' a < rank p a)
      → ranks (set s.phases i p') s.roots_available < ranks s.phases s.roots_available
  at_any s i p p' fed at on lower =
      let a = get_or s.roots_available i false in
      omega (arith, moves_rank s i p p' a fed at on refl, lower a)

  fetching_rank : (a : Bool) → 0 < rank fetching a
  fetching_rank true = omega arith
  fetching_rank false = omega arith

  -- Every step of any thread lowers the potential.
  pub potential-Step :
      (s t : Shared Node) (k : ℕ)
      → ((n : Node) → whole n ≡ 7 + sum_of whole (system.list_children n))
      → IsFed system max_root s
      → Step system max_root s k t
      → potential t < potential s
  unfolding after_visit
  potential-Step s t _ split fed (take_root i at on lt) = omega (
    arith,
    moves_rank s i top (visiting true (system.get_root s.next_root)) true fed at refl on,
    take_next system max_root (λ n. 7) whole split s.next_root lt,
  )
  potential-Step s t _ split fed (last_root i at on le) =
      let inside = inside_of s i top at refl in
      let moved = ranks-set s.phases s.roots_available i fetching false inside fed.available_size in
      let before : rank (phase_of s i) (get_or s.roots_available i false) ≡ 3 = rw (at, on) refl in
      omega (
        arith,
        moved,
        before,
        no_next system max_root (λ n. 7) whole split s.next_root le,
        no_next system max_root (λ n. 7) whole split (s.next_root + 1) (omega arith),
      )
  potential-Step s t _ split fed (no_roots i at off) =
      omega (arith, moves_rank s i top fetching false fed at refl off)
  potential-Step s t _ split fed (enqueue i from_root n ns at) =
      let inside = inside_of s i (visiting from_root (n ∷ ns)) at refl in
      let a = get_or s.roots_available i false in
      let q = queue_of s i in
      omega (
        arith,
        moves_rank s i (visiting from_root (n ∷ ns)) (reporting from_root n ns) a fed at refl refl,
        sum_of-set (λ r. sum_of queued r) s.queues i (q ++ n ∷ []) []
            (omega (arith, inside, fed.queues_size)),
        sum_of-append queued q (n ∷ []),
        split n,
      )
  potential-Step s t _ split fed (report i from_root n ns at) = omega (
    arith,
    at_any s i (reporting from_root n ns) (visiting from_root ns) fed at refl (λ a. omega arith),
  )
  potential-Step s t _ split fed (finish_visit i true at) =
      omega (arith, at_any s i (visiting true []) fetching fed at refl (λ a. low a))
    where
      low : (a : Bool) → rank fetching a < 5
      low true = omega arith
      low false = omega arith
  potential-Step s t _ split fed (finish_visit i false at) =
      omega (arith, at_any s i (visiting false []) top fed at refl (λ a. low a))
    where
      low : (a : Bool) → rank top a < 5
      low true = omega arith
      low false = omega arith
  potential-Step s t _ split fed (dequeue i j n q at own found) =
      let inside = place_lt has_node s.queues j [] refl (ap has_node found) in
      let a = get_or s.roots_available i false in
      omega (
        arith,
        moves_rank s i fetching (visiting false (system.list_children n)) a fed at refl refl,
        fetching_rank a,
        sum_of-set (λ r. sum_of queued r) s.queues j q [] inside,
        ap (λ r. sum_of queued r) found,
      )
  potential-Step s t _ split fed (go_on i at empty lt) =
      let inside = inside_of s i fetching at refl in
      elim (Bool-cases (get_or s.roots_available i false)) [
        | inl on ↦ omega (arith, moves_rank s i fetching top true fed at refl on)
        | inr off ↦ absurd (omega (arith, lt, fed.spent i inside off))
      ]
  potential-Step s t _ split fed (leave i at empty le) =
      omega (arith, at_any s i fetching ended fed at refl fetching_rank)

  pub steps-potential :
      (s t : Shared Node) (run : Reaches system max_root s t)
      → ((n : Node) → whole n ≡ 7 + sum_of whole (system.list_children n))
      → IsFed system max_root s
      → IsFed system max_root t × (steps system max_root s t run + potential t ≤ potential s)
  steps-potential s t here split fed = (fed, omega arith)
  steps-potential s t (next u _ i run step) split fed =
      let (fed_u, le) = steps-potential s u run split fed in
      (
        IsFed-Step system max_root u t i fed_u step,
        omega (arith, le, potential-Step u t i split fed_u step),
      )
