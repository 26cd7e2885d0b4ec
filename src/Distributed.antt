-- ===== src/Distributed.antt =====
-- The master of enumerator/distributed_mpi.hpp: the ranges of roots that it hands out and how it
-- passes work from one worker to another. MPI is not modelled: what arrives is an argument, what is
-- sent is returned. Workers are named by their ids, which are the ranks less one.
pub mod Ranges
pub mod Victim
pub mod Requests
pub mod Progress
pub mod Worker
mod Tests
use parallel_enum.Base.{
  ℕ, zero, suc, ◌+◌, ◌-◌, ◌/◌, ◌%◌, Bool, true, false, not, ◌&&◌, List, [], ◌∷◌, ◌++◌, Option, none,
  some, length, get_or, set, replicate, ltb, leb, ◌==◌, if◌then◌else◌, map,
}

-- `numWorkers` static ranges from `start` on: the branch of `RunInternal` without a master.
pub static_ranges : ℕ → ℕ → ℕ → ℕ → List (ℕ × ℕ)
static_ranges zero roots_per_node surplus start = []
static_ranges (suc workers) roots_per_node surplus start =
    let range_end = if ltb 0 surplus then start + roots_per_node + 1 else start + roots_per_node in
    (start, range_end) ∷ static_ranges workers roots_per_node (surplus - 1) range_end

pub static_partition : ℕ → ℕ → List (ℕ × ℕ)
static_partition max_roots workers =
    static_ranges workers (max_roots / workers) (max_roots % workers) 0

abbrev pub onto : ℕ × ℕ → Option (List (ℕ × ℕ)) → Option (List (ℕ × ℕ))
onto range none = none
onto range (some ranges) = some (range ∷ ranges)

-- The ranges with which the loop of `Master::Run` calls `WaitRangeRequest`, downwards from `start`.
pub master_ranges : ℕ → ℕ → ℕ → Option (List (ℕ × ℕ))
master_ranges zero roots_per_node start = none
master_ranges (suc fuel) roots_per_node start =
    let next = start - roots_per_node in
    let rest = master_ranges fuel roots_per_node (if leb roots_per_node start then next else 0) in
    let range = if leb roots_per_node start then (next, next + roots_per_node) else (0, start) in
    if ltb 0 start then onto range rest else some []

-- The number of roots for each request, at most `maxRoots / _numWorkers`.
pub clamp : ℕ → ℕ → ℕ → ℕ
clamp roots_per_node max_roots workers =
    if ltb (max_roots / workers) roots_per_node then max_roots / workers else roots_per_node

-- `WorkerState`
pub data WorkerState : Type 0 where
  roots : WorkerState
  steal_wait : WorkerState
  steal_processing : WorkerState

pub is_waiting : WorkerState → Bool
is_waiting roots = false
is_waiting steal_wait = true
is_waiting steal_processing = false

-- Time points are numbers.
pub record Master : Type 0 where
  pub workers_states : List WorkerState
  pub last_request : List ℕ
  pub last_steal_victim : ℕ
  pub solutions_count : ℕ

-- The state in which `Run` starts its loop.
pub start_master : ℕ → Master
start_master workers = record {
  workers_states = replicate workers roots;
  last_request = replicate workers 0;
  last_steal_victim = 0;
  solutions_count = 0;
}

pub earlier : ℕ → Option ℕ → Bool
earlier t none = true
earlier t (some minimum) = ltb t minimum

-- The loop of `GetStealVictim` over the times of the workers from `i` on. `minimum` starts as the
-- latest time point, which is `none`.
pub victim_from : List WorkerState → ℕ → ℕ → List ℕ → Option ℕ → ℕ → ℕ
victim_from states last i [] minimum to_return = to_return
victim_from states last i (t ∷ ts) minimum to_return =
    let take =
      not (i == last) && earlier t minimum && not (is_waiting (get_or states i steal_wait)) in
    victim_from states last (suc i) ts (if take then some t else minimum)
      (if take then i else to_return)

pub get_steal_victim : Master → ℕ
get_steal_victim m = victim_from m.workers_states m.last_steal_victim 0 m.last_request none 0

pub terminated : List WorkerState → Bool
terminated [] = true
terminated (s ∷ states) = is_waiting s && terminated states

-- What the master receives from a victim that it asked, and when.
pub data Reply : Type 0 where
  work : Bool → List ℕ → Reply
  range_request : ℕ → ℕ → Reply
  unexpected : Reply

-- What the master sends.
pub data Sent : Type 0 where
  range_response : ℕ → ℕ → ℕ → Sent
  steal_request : ℕ → Sent
  steal_response : ℕ → Bool → List ℕ → Sent
  termination : ℕ → Sent

-- How `WaitRangeRequest` ends: it returns (with the replies that it did not take), throws, fails an `assert`, or waits for a reply that never
-- comes.
pub data Outcome : Type 0 where
  returned : Bool → Master → List Reply → List Sent → Outcome
  thrown : Outcome
  aborted : Outcome
  blocked : Outcome

pub terminations : ℕ → ℕ → List Sent
terminations i zero = []
terminations i (suc count) = termination i ∷ terminations (suc i) count

-- From the test for termination after the loop on.
pub finish : Master → List Reply → List Sent → Outcome
finish m left sent =
    if terminated m.workers_states
    then returned true m left (sent ++ terminations 0 (length m.workers_states))
    else returned false m left sent

-- The state after `GetStealVictim` in the loop.
pub choose : Master → Master
choose m = record m { last_steal_victim = get_steal_victim m }

pub steal_loop : ℕ → List Reply → Master → List Sent → Outcome
steal_loop stealer [] m sent =
    if terminated m.workers_states
    then finish m [] sent
    else if get_steal_victim m == stealer
    then aborted
    else blocked
steal_loop stealer (work are_roots words ∷ replies) m sent =
    let victim = get_steal_victim m in
    let out = sent ++ steal_request victim ∷ steal_response stealer are_roots words ∷ [] in
    let c = choose m in
    if terminated m.workers_states
    then finish m (work are_roots words ∷ replies) sent
    else if victim == stealer
    then aborted
    else finish (record c { workers_states = set c.workers_states stealer steal_processing })
        replies out
steal_loop stealer (range_request found time ∷ replies) m sent =
    let victim = get_steal_victim m in
    let c = choose m in
    let next = record c {
      workers_states = set c.workers_states victim steal_wait;
      last_request = set c.last_request victim time;
      solutions_count = c.solutions_count + found;
    } in
    let rest = steal_loop stealer replies next (sent ++ steal_request victim ∷ []) in
    if terminated m.workers_states
    then finish m (range_request found time ∷ replies) sent
    else if victim == stealer
    then aborted
    else rest
steal_loop stealer (unexpected ∷ replies) m sent =
    if terminated m.workers_states
    then finish m (unexpected ∷ replies) sent
    else if get_steal_victim m == stealer
    then aborted
    else thrown

-- The state when a request of the worker `stealer`, which found `found` solutions, is received.
pub note_request : ℕ → ℕ → ℕ → Master → Master
note_request stealer found time m = record m {
  solutions_count = m.solutions_count + found;
  last_request = set m.last_request stealer time;
}

pub make_wait : ℕ → Master → Master
make_wait stealer m = record m { workers_states = set m.workers_states stealer steal_wait }

-- `WaitRangeRequest(begin, end)`
pub wait_range_request : ℕ → ℕ → ℕ → ℕ → ℕ → ℕ → List Reply → Master → Outcome
wait_range_request max_roots begin range_end stealer found time replies m =
    let noted = note_request stealer found time m in
    let stolen = steal_loop stealer replies (make_wait stealer noted) [] in
    if begin == max_roots
    then stolen
    else returned false noted replies (range_response stealer begin range_end ∷ [])
