-- ===== src/Threads/Fed.antt =====
-- What holds of the vectors of the threads in every state, and how long an interleaving is
-- (enumerator/parallel_pthreads.hpp).
use parallel_enum.Base.{
  ℕ, suc, ◌≤◌, ◌<◌, ◌≡◌, refl, sym, ◌∙◌, false, List, [], ◌∷◌, ◌++◌, length, get_or, set, arith,
  length-set,
}
use parallel_enum.Enumerator.{Enumerable}
use parallel_enum.Threads.{
  Phase, fetching, Shared, queue_of, Step, take_root, last_root, no_roots, enqueue, report,
  finish_visit, dequeue, go_on, leave, Reaches, here, next,
}

module _ {Node Item : Type 0} (system : Enumerable Node Item) (max_root : ℕ) where
  -- How many steps an interleaving has.
  abbrev pub steps : (s t : Shared Node) → Reaches system max_root s t → ℕ
  steps s t here = 0
  steps s t (next u _ i run step) = suc (steps s u run)

  -- The vectors have an element for each thread, and roots are left only if they are available.
  pub record IsFed (s : Shared Node) : Type 0 where
    pub queues_size : length s.queues ≡ length s.phases
    pub available_size : length s.roots_available ≡ length s.phases
    pub spent :
        (i : ℕ)
        → i < length s.phases
        → get_or s.roots_available i false ≡ false
        → max_root ≤ s.next_root

  IsFed-after :
      (s : Shared Node) (i next_root : ℕ) (p : Phase Node) (queues : List (List Node))
      (reported : List Node)
      → IsFed s
      → s.next_root ≤ next_root
      → length queues ≡ length s.queues
      → IsFed (record {
        next_root = next_root;
        roots_available = s.roots_available;
        phases = set s.phases i p;
        queues = queues;
        reported = reported;
      })
  IsFed-after s i next_root p queues reported fed le sized =
      let same = length-set s.phases i p in
      record {
        queues_size = sized ∙ fed.queues_size ∙ sym same;
        available_size = fed.available_size ∙ sym same;
        spent = λ k lt off. omega (arith, fed.spent k (omega (arith, same)) off);
      }

  pub IsFed-Step : (s t : Shared Node) (k : ℕ) → IsFed s → Step system max_root s k t → IsFed t
  IsFed-Step s t _ fed (take_root i at on lt) =
      IsFed-after s i _ _ s.queues s.reported fed (omega arith) refl
  IsFed-Step s t _ fed (last_root i at on le) =
      let same = length-set s.phases i fetching in
      record {
        queues_size = fed.queues_size ∙ sym same;
        available_size = length-set s.roots_available i false ∙ fed.available_size ∙ sym same;
        spent = λ k lt off. omega (arith, le);
      }
  IsFed-Step s t _ fed (no_roots i at off) =
      IsFed-after s i _ _ s.queues s.reported fed (omega arith) refl
  IsFed-Step s t _ fed (enqueue i from_root n ns at) =
      IsFed-after s i _ _ _ s.reported fed (omega arith)
        (length-set s.queues i (queue_of s i ++ n ∷ []))
  IsFed-Step s t _ fed (report i from_root n ns at) =
      IsFed-after s i _ _ s.queues _ fed (omega arith) refl
  IsFed-Step s t _ fed (finish_visit i from_root at) =
      IsFed-after s i _ _ s.queues s.reported fed (omega arith) refl
  IsFed-Step s t _ fed (dequeue i j n q at own found) =
      IsFed-after s i _ _ _ s.reported fed (omega arith) (length-set s.queues j q)
  IsFed-Step s t _ fed (go_on i at empty lt) =
      IsFed-after s i _ _ s.queues s.reported fed (omega arith) refl
  IsFed-Step s t _ fed (leave i at empty le) =
      IsFed-after s i _ _ s.queues s.reported fed (omega arith) refl
