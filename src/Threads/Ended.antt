-- ===== src/Threads/Ended.antt =====
-- When all threads have left their loops (enumerator/parallel_pthreads.hpp).
use parallel_enum.Base.{
  ℕ, ◌+◌, ◌≤◌, ◌<◌, ◌≡◌, ◌≢◌, inl, inr, refl, sym, ap, subst, ◌∙◌, Bool, true, false, List, [], ◌∷◌,
  ◌++◌, length, get_or, set, arith, length-set, get_or-set_self, get_or-set_ne, ◌==◌, ==_iff,
  Bool-cases,
}
use parallel_enum.Enumerator.{Enumerable}
use parallel_enum.Threads.{
  Phase, top, visiting, fetching, ended, Shared, after_visit, phase_of, queue_of, Step, take_root,
  last_root, no_roots, enqueue, report, finish_visit, dequeue, go_on, leave, Reaches, here, next,
}
use parallel_enum.Threads.Weights.{sum_of, place_lt, runs, has_node, total}
use parallel_enum.Threads.Steps.{total-Step}

module _ {Node : Type 0} (phases : List (Phase Node)) (i : ℕ) (p : Phase Node) where
  -- What holds of the threads that have left still does when another goes on.
  others_keep :
      (Q : ℕ → Type 0)
      → runs (get_or phases i ended) ≡ true
      → (runs p ≡ false → Q i)
      → ((k : ℕ) → k < length phases → runs (get_or phases k ended) ≡ false → Q k)
      → (k : ℕ) → k < length (set phases i p)
      → runs (get_or (set phases i p) k ended) ≡ false
      → Q k
  others_keep Q on left keep k lt off = elim (Bool-cases (k == i)) [
    | inl e ↦
        let e' : i ≡ k = sym ((==_iff k i).0 e) in
        let inside = place_lt runs phases i ended refl on in
        let at = get_or-set_self phases i p ended inside in
        let off' : runs (get_or (set phases i p) i ended) ≡ false =
          ap (λ z. runs (get_or (set phases i p) z ended)) e' ∙ off in
        subst Q e' (left (sym (ap runs at) ∙ off'))
    | inr ne ↦
        let same = get_or-set_ne phases i k p ended (λ q. absurd (ground arith)) in
        keep k (omega (arith, length-set phases i p)) (sym (ap runs same) ∙ off)
  ]

module _ {Node Item : Type 0} (system : Enumerable Node Item) (max_root : ℕ) where
  abbrev pub Idle : Shared Node → ℕ → Type 0
  Idle s k = (queue_of s k ≡ []) × (max_root ≤ s.next_root)

  -- A thread that left has an empty queue, and no roots were left.
  abbrev pub IsSafe : Shared Node → Type 0
  IsSafe s =
      (length s.queues ≡ length s.phases)
      × ((k : ℕ) → k < length s.phases → runs (phase_of s k) ≡ false → Idle s k)

  never : {A : Type 0} {b : Bool} → b ≡ true → b ≡ false → A
  never e e' = absurd (cc)

  still_empty :
      (queues : List (List Node)) (j k : ℕ) (q : List Node)
      → j ≢ k
      → get_or queues k [] ≡ []
      → get_or (set queues j q) k [] ≡ []
  still_empty queues j k q ne empty = get_or-set_ne queues j k q [] ne ∙ empty

  IsSafe-Step : (s t : Shared Node) (a : ℕ) → IsSafe s → Step system max_root s a t → IsSafe t
  unfolding after_visit
  IsSafe-Step s t _ (sized, safe) (take_root i at on lt) = (
    sized ∙ sym (length-set s.phases i _),
    others_keep s.phases i _ _ (ap runs at) (λ off. never refl off)
        (λ k inside off. (let h = safe k inside off in (h.0, omega (arith, h.1)))),
  )
  IsSafe-Step s t _ (sized, safe) (last_root i at on le) = (
    sized ∙ sym (length-set s.phases i _),
    others_keep s.phases i _ _ (ap runs at) (λ off. never refl off)
        (λ k inside off. (let h = safe k inside off in (h.0, omega (arith, h.1)))),
  )
  IsSafe-Step s t _ (sized, safe) (no_roots i at off) = (
    sized ∙ sym (length-set s.phases i _),
    others_keep s.phases i fetching (Idle s) (ap runs at) (λ off. never refl off) safe,
  )
  IsSafe-Step s t _ (sized, safe) (enqueue i from_root n ns at) = (
    length-set s.queues i _ ∙ sized ∙ sym (length-set s.phases i _),
    others_keep s.phases i _ _ (ap runs at) (λ off. never refl off)
        (λ k inside off.
          let h = safe k inside off in
          let apart : i ≢ k = λ e. never (ap runs at) (ap (λ z. runs (phase_of s z)) e ∙ off) in
          (still_empty s.queues i k (queue_of s i ++ n ∷ []) apart h.0, h.1)),
  )
  IsSafe-Step s t _ (sized, safe) (report i from_root n ns at) = (
    sized ∙ sym (length-set s.phases i _),
    others_keep s.phases i (visiting from_root ns) (Idle s) (ap runs at) (λ off. never refl off)
        safe,
  )
  IsSafe-Step s t _ (sized, safe) (finish_visit i true at) = (
    sized ∙ sym (length-set s.phases i _),
    others_keep s.phases i fetching (Idle s) (ap runs at) (λ off. never refl off) safe,
  )
  IsSafe-Step s t _ (sized, safe) (finish_visit i false at) = (
    sized ∙ sym (length-set s.phases i _),
    others_keep s.phases i top (Idle s) (ap runs at) (λ off. never refl off) safe,
  )
  IsSafe-Step s t _ (sized, safe) (dequeue i j n q at own found) = (
    length-set s.queues j q ∙ sized ∙ sym (length-set s.phases i _),
    others_keep s.phases i _ _ (ap runs at) (λ off. never refl off)
        (λ k inside off.
          let h = safe k inside off in
          let apart : j ≢ k = λ e.
            never (ap has_node found) (ap (λ z. has_node (queue_of s z)) e ∙ ap has_node h.0) in
          (still_empty s.queues j k q apart h.0, h.1)),
  )
  IsSafe-Step s t _ (sized, safe) (go_on i at empty lt) = (
    sized ∙ sym (length-set s.phases i _),
    others_keep s.phases i top (Idle s) (ap runs at) (λ off. never refl off) safe,
  )
  IsSafe-Step s t _ (sized, safe) (leave i at empty le) = (
    sized ∙ sym (length-set s.phases i _),
    others_keep s.phases i ended (Idle s) (ap runs at) (λ off. (empty, le)) safe,
  )

module _ {Node Item : Type 0} (system : Enumerable Node Item) (max_root : ℕ) (one whole : Node → ℕ)
    (split : (n : Node) → whole n ≡ one n + sum_of whole (system.list_children n)) where
  pub Reaches-total :
      (s t : Shared Node)
      → IsSafe system max_root s
      → Reaches system max_root s t
      → IsSafe system max_root t
        × (total system max_root one whole t ≡ total system max_root one whole s)
  Reaches-total s t safe here = (safe, refl)
  Reaches-total s t safe (next u _ i run step) =
      let (safe_u, same) = Reaches-total s u safe run in
      (
        IsSafe-Step system max_root u t i safe_u step,
        total-Step system max_root one whole split u t i safe_u.0 step ∙ same,
      )
