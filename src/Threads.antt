-- ===== src/Threads.antt =====
-- The threads of enumerator/parallel_pthreads.hpp as steps on a shared state. Each thread has its own
-- producer queue. What the code relies on: a node comes out of a queue once, and
-- `try_dequeue_from_producer` finds a node unless the queue is empty; `try_dequeue` may miss the
-- nodes of other threads. A failed attempt and the test of `nextRoot` after it are one step.
pub mod Weights
pub mod Steps
pub mod Ended
pub mod Reports
pub mod Fed
pub mod Potential
pub mod Alive
mod Tests
use parallel_enum.Base.{
  ℕ, zero, suc, ◌+◌, ◌≤◌, ◌<◌, ◌≡◌, ◌⊎◌, Bool, true, false, List, [], ◌∷◌, ◌++◌, length, get_or,
  set, replicate,
}
use parallel_enum.Enumerator.{Enumerable}

-- Where a thread stands: at the top of its loop, in a callback of `GetRoot` (`true`) or
-- `ListChildren` (`false`) with nodes left to call back on, before or after it put the node into its
-- queue, at the attempt to take a node, or past the loop.
pub data Phase (Node : Type 0) : Type 0 where
  top : Phase Node
  visiting : Bool → List Node → Phase Node
  reporting : Bool → Node → List Node → Phase Node
  fetching : Phase Node
  ended : Phase Node

pub record Shared (Node : Type 0) : Type 0 where
  pub next_root : ℕ
  pub roots_available : List Bool
  pub phases : List (Phase Node)
  pub queues : List (List Node)
  pub reported : List Node

pub start_threads : {Node : Type 0} → ℕ → ℕ → Shared Node
start_threads threads min_root = record {
  next_root = min_root;
  roots_available = replicate threads true;
  phases = replicate threads top;
  queues = replicate threads [];
  reported = [];
}

-- After a call of `GetRoot` or of `ListChildren`.
pub after_visit : {Node : Type 0} → Bool → Phase Node
after_visit true = fetching
after_visit false = top

module _ {Node : Type 0} where
  abbrev pub phase_of : Shared Node → ℕ → Phase Node
  phase_of s i = get_or s.phases i ended

  abbrev pub queue_of : Shared Node → ℕ → List Node
  queue_of s i = get_or s.queues i []

  -- The state after the thread `i` goes on to the phase `p`.
  abbrev pub go : Shared Node → ℕ → Phase Node → Shared Node
  go s i p = record s { phases = set s.phases i p }

module _ {Node Item : Type 0} (system : Enumerable Node Item) (max_root : ℕ) where
  -- A step of one thread.
  pub data Step (s : Shared Node) : ℕ → Shared Node → Type 0 where
    take_root :
        (i : ℕ)
        → phase_of s i ≡ top
        → get_or s.roots_available i false ≡ true
        → s.next_root < max_root
        → Step s i (record (go s i (visiting true (system.get_root s.next_root))) {
          next_root = s.next_root + 1;
        })
    last_root :
        (i : ℕ)
        → phase_of s i ≡ top
        → get_or s.roots_available i false ≡ true
        → max_root ≤ s.next_root
        → Step s i (record (go s i fetching) {
          next_root = s.next_root + 1;
          roots_available = set s.roots_available i false;
        })
    no_roots :
        (i : ℕ)
        → phase_of s i ≡ top
        → get_or s.roots_available i false ≡ false
        → Step s i (go s i fetching)
    enqueue :
        (i : ℕ) (from_root : Bool) (n : Node) (ns : List Node)
        → phase_of s i ≡ visiting from_root (n ∷ ns)
        → Step s i (record (go s i (reporting from_root n ns)) {
          queues = set s.queues i (queue_of s i ++ n ∷ []);
        })
    report :
        (i : ℕ) (from_root : Bool) (n : Node) (ns : List Node)
        → phase_of s i ≡ reporting from_root n ns
        → Step s i (record (go s i (visiting from_root ns)) { reported = s.reported ++ n ∷ [] })
    finish_visit :
        (i : ℕ) (from_root : Bool)
        → phase_of s i ≡ visiting from_root []
        → Step s i (go s i (after_visit from_root))
    dequeue :
        (i j : ℕ) (n : Node) (q : List Node)
        → phase_of s i ≡ fetching
        → (j ≡ i) ⊎ (queue_of s i ≡ [])
        → queue_of s j ≡ n ∷ q
        → Step s i (record (go s i (visiting false (system.list_children n))) {
          queues = set s.queues j q;
        })
    go_on :
        (i : ℕ)
        → phase_of s i ≡ fetching
        → queue_of s i ≡ []
        → s.next_root < max_root
        → Step s i (go s i top)
    leave :
        (i : ℕ)
        → phase_of s i ≡ fetching
        → queue_of s i ≡ []
        → max_root ≤ s.next_root
        → Step s i (go s i ended)

  pub data Reaches (s : Shared Node) : Shared Node → Type 0 where
    here : Reaches s s
    next : (t u : Shared Node) (i : ℕ) → Reaches s t → Step t i u → Reaches s u
