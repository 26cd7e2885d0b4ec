-- ===== src/Threads/Tests.antt =====
-- A thread that visits a root and its child, and the theorems on it.
use parallel_enum.Base.{
  ℕ, zero, suc, ◌-◌, ◌≤◌, ◌<◌, ◌≡◌, refl, true, false, List, [], ◌∷◌, ◌+◌, ◌*◌, length, arith,
  if◌then◌else◌, ◌==◌, Bool-cases, inl, inr,
}
use parallel_enum.Enumerator.{Enumerable}
use parallel_enum.Enumerator.Forest.{roots, forest, IsShallow}
use parallel_enum.Threads.{
  ended, Shared, start_threads, phase_of, after_visit, Step, take_root, last_root, no_roots,
  enqueue, report, finish_visit, dequeue, leave, Reaches, here, next,
}
use parallel_enum.Threads.Weights.{sum_of}
use parallel_enum.Threads.Weights.{runs}
use parallel_enum.Threads.Fed.{steps}
use parallel_enum.Threads.Reports.{AllLeft, Reaches-reported}
use parallel_enum.Threads.Alive.{Reaches-ends}

abbrev child_of : ℕ → List ℕ
child_of n = if n == 7 then 8 ∷ [] else []

abbrev two_levels : Enumerable ℕ ℕ
two_levels = record {
  can_use_recursion = false;
  max_roots = 1;
  get_root = λ i. 7 ∷ [];
  list_children = child_of;
  node_to_item = λ n. n;
  is_solution = λ n. true;
}

two_levels-IsShallow : (n : ℕ) → IsShallow two_levels 2 (n ∷ [])
two_levels-IsShallow n = elim (Bool-cases (n == 7)) [
  | inl e ↦ rw e ((tt, tt), tt)
  | inr ne ↦ rw ne (tt, tt)
]

-- The thread has reported both.
abbrev done_state : Shared ℕ
done_state = record {
  next_root = 2;
  roots_available = false ∷ [];
  phases = ended ∷ [];
  queues = [] ∷ [];
  reported = 7 ∷ 8 ∷ [];
}

zero_lt_one : 0 < 1
zero_lt_one = omega arith

one_le_one : 1 ≤ 1
one_le_one = omega arith

one_le_two : 1 ≤ 2
one_le_two = omega arith

start_to_done : Reaches two_levels 1 (start_threads 1 0) done_state
unfolding start_threads after_visit
start_to_done =
    let s0 : Shared ℕ = start_threads 1 0 in
    let r0 : Reaches two_levels 1 s0 s0 = here in
    let r1 = next _ _ 0 r0 (take_root 0 refl refl zero_lt_one) in
    let r2 = next _ _ 0 r1 (enqueue 0 true 7 [] refl) in
    let r3 = next _ _ 0 r2 (report 0 true 7 [] refl) in
    let r4 = next _ _ 0 r3 (finish_visit 0 true refl) in
    let r5 = next _ _ 0 r4 (dequeue 0 0 7 [] refl (inl refl) refl) in
    let r6 = next _ _ 0 r5 (enqueue 0 false 8 [] refl) in
    let r7 = next _ _ 0 r6 (report 0 false 8 [] refl) in
    let r8 = next _ _ 0 r7 (finish_visit 0 false refl) in
    let r9 = next _ _ 0 r8 (last_root 0 refl refl one_le_one) in
    let r10 = next _ _ 0 r9 (dequeue 0 0 8 [] refl (inl refl) refl) in
    let r11 = next _ _ 0 r10 (finish_visit 0 false refl) in
    let r12 = next _ _ 0 r11 (no_roots 0 refl refl) in next _ _ 0 r12 (leave 0 refl refl one_le_two)

done_state-AllLeft : AllLeft two_levels 1 done_state
done_state-AllLeft zero lt = refl
done_state-AllLeft (suc k) lt = absurd (omega arith)

Reaches-reported_example :
    sum_of (λ n. n) (7 ∷ 8 ∷ [])
    ≡ sum_of (λ n. n) (forest two_levels 2 (roots two_levels (1 - 0) 0))
Reaches-reported_example =
    Reaches-reported two_levels 1 1 0 2 done_state two_levels-IsShallow (omega arith) start_to_done
      done_state-AllLeft (λ n. n)

-- The interleaving has 13 steps.
Reaches-ends_example :
    (steps two_levels 1 (start_threads 1 0) done_state start_to_done
      ≤ 3 * 1 + 3 * (1 - 0) + 7 * length (forest two_levels 2 (roots two_levels (1 - 0) 0)))
    × ((i : ℕ)
        → runs (phase_of done_state i) ≡ true
        → (u : Shared ℕ) × Step two_levels 1 done_state i u)
Reaches-ends_example = Reaches-ends two_levels 1 1 0 2 done_state two_levels-IsShallow start_to_done
