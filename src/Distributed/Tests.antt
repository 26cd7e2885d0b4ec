-- ===== src/Distributed/Tests.antt =====
-- The master of two workers, and the theorems on it.
use parallel_enum.Base.{
  ℕ, ◌+◌, ◌/◌, ◌≤◌, ◌<◌, ◌≡◌, ◌≢◌, refl, false, List, [], ◌∷◌, ◌++◌, replicate, none, some, length,
  get_or, ltb, if◌then◌else◌, arith, ◌⊎◌, Each,
}
use parallel_enum.Distributed.{
  static_partition, master_ranges, clamp, steal_wait, steal_processing, is_waiting, Master,
  get_steal_victim, terminated, Reply, work, steal_request, steal_response, range_response,
  returned, aborted, wait_range_request, static_ranges, note_request, make_wait,
}
use parallel_enum.Distributed.Ranges.{
  times_in, IsBalanced, static_partition-times_in, master_ranges-covers, master_ranges-hangs,
}
use parallel_enum.Distributed.Victim.{may_ask, requests, IsOldest, get_steal_victim-IsOldest}
use parallel_enum.Distributed.Requests.{IsKept, work_in, found_in, wait_range_request-IsKept}
use parallel_enum.Distributed.Progress.{wait_range_request-passes, wait_range_request-aborts}
use parallel_enum.Distributed.Worker.{
  steal_asked, range, more_range, answered, more_work, more_work-discards,
}

run : Unit {0}
unfolding note_request make_wait is_waiting terminated static_partition static_ranges
run = tt

-- Both workers process stolen work, and the worker `last` was asked last.
abbrev pair_master : ℕ → Master
pair_master last = record {
  workers_states = steal_processing ∷ steal_processing ∷ [];
  last_request = 3 ∷ 5 ∷ [];
  last_steal_victim = last;
  solutions_count = 4;
}

abbrev root_count : ℕ
root_count = 10

abbrev piece : List Reply
piece = work false (8 ∷ 9 ∷ []) ∷ []

static_partition-run : static_partition 10 3 ≡ (0, 4) ∷ (4, 7) ∷ (7, 10) ∷ []
unfolding run
static_partition-run = refl

static_partition-times_in_example :
    ((v : ℕ) → times_in v (static_partition 10 3) ≡ (if ltb v 10 then 1 else 0))
    × (length (static_partition 10 3) ≡ 3)
    × IsBalanced (10 / 3) (static_partition 10 3)
static_partition-times_in_example = static_partition-times_in 10 3 (omega arith)

master_ranges-covers_example :
    (rs : List (ℕ × ℕ)) × (master_ranges 11 (clamp 4 10 3) 10 ≡ some rs)
    × ((v : ℕ) → times_in v rs ≡ (if ltb v 10 then 1 else 0))
    × Each (λ range. (range.0 < range.1) × (range.1 ≤ range.0 + clamp 4 10 3)) rs
    × (clamp 4 10 3 ≤ 4)
master_ranges-covers_example = master_ranges-covers 10 3 4 (omega arith) (omega arith) (omega arith)

master_ranges-hangs_example : master_ranges 7 (clamp 5 2 3) 2 ≡ none
master_ranges-hangs_example = master_ranges-hangs 2 3 5 7 (omega arith) (omega arith) (omega arith)

get_steal_victim-IsOldest_example :
    ((t : ℕ) × IsOldest
        (pair_master 0).workers_states
        0
        (get_steal_victim (pair_master 0))
        t
        (requests 0 (3 ∷ 5 ∷ [])))
    ⊎ ((get_steal_victim (pair_master 0) ≡ 0)
        × Each
            (λ r. may_ask (pair_master 0).workers_states 0 r.0 ≡ false)
            (requests 0 (3 ∷ 5 ∷ [])))
get_steal_victim-IsOldest_example = get_steal_victim-IsOldest (pair_master 0)

wait_range_request-IsKept_example :
    (root_count ≡ root_count
      → IsKept 0
          (4 + 2 + found_in piece)
          (work_in 0 piece)
          (wait_range_request root_count root_count 0 0 2 6 piece (pair_master 0)))
    × (root_count ≢ root_count
        → (m' : Master) × (wait_range_request root_count root_count 0 0 2 6 piece (pair_master 0)
            ≡ returned false m' piece (range_response 0 root_count 0 ∷ []))
          × (m'.solutions_count ≡ 4 + 2)
          × (m'.workers_states ≡ (pair_master 0).workers_states))
wait_range_request-IsKept_example =
    wait_range_request-IsKept root_count root_count 0 0 2 6 piece (pair_master 0)

wait_range_request-passes_example :
    (victim : ℕ) × (m' : Master) × (victim ≢ 0)
    × (is_waiting (get_or (pair_master 0).workers_states victim steal_wait) ≡ false)
    × (wait_range_request 10 10 0 0 2 6 piece (pair_master 0)
        ≡ returned false m' [] (steal_request victim ∷ steal_response 0 false (8 ∷ 9 ∷ []) ∷ []))
    × (get_or m'.workers_states 0 steal_wait ≡ steal_processing)
unfolding run
wait_range_request-passes_example =
    wait_range_request-passes 10 0 0 2 6 (pair_master 0) 1 5 false (8 ∷ 9 ∷ []) [] (omega arith)
      refl refl

-- The worker 1 was asked last and is the only one that does not wait.
wait_range_request-aborts_example : wait_range_request 10 10 0 0 2 6 piece (pair_master 1) ≡ aborted
unfolding run
wait_range_request-aborts_example =
    wait_range_request-aborts 10 0 0 2 6 (pair_master 1) piece refl refl (refl, (refl, tt))

-- A steal request crosses the worker's own request.
more_work-discards_example :
    more_work (replicate 1 steal_asked ++ range 3 5 ∷ []) 4 []
    ≡ answered (more_range 3 5) [] (4 ∷ 0 ∷ [])
more_work-discards_example = more_work-discards 1 4 (range 3 5) [] refl
