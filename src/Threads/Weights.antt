-- ===== src/Threads/Weights.antt =====
-- Sums over lists, and what the threads still have to report (enumerator/parallel_pthreads.hpp).
use parallel_enum.Base.{
  ℕ, zero, suc, ◌+◌, ◌-◌, ◌<◌, ◌≡◌, Bool, true, false, List, [], ◌∷◌, ◌++◌, length, get_or, set,
  arith,
}
use parallel_enum.Enumerator.{Enumerable}
use parallel_enum.Enumerator.Forest.{roots}
use parallel_enum.Threads.{Phase, top, visiting, reporting, fetching, ended, Shared}

module _ {A : Type 0} where
  abbrev pub sum_of : (A → ℕ) → List A → ℕ
  sum_of g [] = 0
  sum_of g (x ∷ xs) = g x + sum_of g xs

  pub sum_of-append : (g : A → ℕ) (xs ys : List A) → sum_of g (xs ++ ys) ≡ sum_of g xs + sum_of g ys
  sum_of-append g [] ys = omega arith
  sum_of-append g (x ∷ xs) ys = omega (arith, sum_of-append g xs ys)

  pub sum_of-set :
      (g : A → ℕ) (xs : List A) (i : ℕ) (v d : A)
      → i < length xs
      → sum_of g (set xs i v) + g (get_or xs i d) ≡ sum_of g xs + g v
  sum_of-set g [] i v d lt = absurd (omega arith)
  sum_of-set g (x ∷ xs) zero v d lt = omega arith
  sum_of-set g (x ∷ xs) (suc i) v d lt = omega (arith, sum_of-set g xs i v d (omega arith))

  -- An element unlike the default stands inside of the list.
  pub place_lt :
      (unlike : A → Bool) (xs : List A) (i : ℕ) (d : A)
      → unlike d ≡ false
      → unlike (get_or xs i d) ≡ true
      → i < length xs
  place_lt unlike [] i d off on = absurd (cc)
  place_lt unlike (x ∷ xs) zero d off on = omega arith
  place_lt unlike (x ∷ xs) (suc i) d off on = omega (arith, place_lt unlike xs i d off on)

abbrev pub runs : {Node : Type 0} → Phase Node → Bool
runs top = true
runs (visiting from_root ns) = true
runs (reporting from_root n ns) = true
runs fetching = true
runs ended = false

abbrev pub has_node : {Node : Type 0} → List Node → Bool
has_node [] = false
has_node (n ∷ ns) = true

module _ {Node Item : Type 0} (system : Enumerable Node Item) (max_root : ℕ)
    (one whole : Node → ℕ) where
  -- The weight of what stands below a node.
  abbrev pub under : Node → ℕ
  under n = sum_of whole (system.list_children n)

  abbrev pub phase_weight : Phase Node → ℕ
  phase_weight top = 0
  phase_weight (visiting from_root ns) = sum_of whole ns
  phase_weight (reporting from_root n ns) = one n + sum_of whole ns
  phase_weight fetching = 0
  phase_weight ended = 0

  abbrev pub total : Shared Node → ℕ
  total s =
      sum_of one s.reported
      + sum_of (λ q. sum_of under q) s.queues
      + sum_of phase_weight s.phases
      + sum_of whole (roots system (max_root - s.next_root) s.next_root)
