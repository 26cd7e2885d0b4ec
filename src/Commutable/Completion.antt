-- ===== src/Commutable/Completion.antt =====
-- `Complete` of a commutable system (enumerable/commutable.hpp). A solution and its levels are
-- changed in place there, and are returned here; so is the thread's bit set of the target. The
-- default `{-1, 0}` of `fail_if_smaller_than`, below every level, is `none`.
mod Room
mod Progress
pub mod Turns
pub mod Sets
pub mod Rule
pub mod Result
pub mod Ends
use parallel_enum.Base.{
  ℕ, zero, suc, ◌+◌, ◌-◌, Bool, true, false, not, List, [], ◌∷◌, ◌++◌, Option, none, some,
  if◌then◌else◌, ltb, leb, ◌==◌, ◌>>=◌, ◌||◌, length, set, get_or,
}
use parallel_enum.Commutable.{System, Candidates, candidates, next, add}

-- The arguments of `Complete` that have defaults.
pub record Limits : Type 0 where
  pub ground_set : Option (List ℕ)
  pub target : Option (List ℕ)
  pub fail_on_seed_change : Bool
  pub fail_if_smaller_than : Option (ℕ × ℕ)

-- `target_bitset[v] = b` for each element `v`.
unfoldable pub set_each : List ℕ → Bool → List Bool → List Bool
set_each [] b bits = bits
set_each (v ∷ vs) b bits = set_each vs b (set bits v b)

-- The loop that sets the bits of a target, and `cleanup_target`.
unfoldable pub mark_target : Option (List ℕ) → List Bool → List Bool
mark_target none bits = bits
mark_target (some target) bits = set_each target true bits

unfoldable pub cleanup_target : Option (List ℕ) → List Bool → List Bool
cleanup_target none bits = bits
cleanup_target (some target) bits = set_each target false bits

unfoldable pub is_in_target : Option (List ℕ) → List Bool → ℕ → Bool
is_in_target none bits v = true
is_in_target (some target) bits v = get_or bits v false

-- The comparison of the pair of `lv` and `v` with `fail_if_smaller_than`.
unfoldable pub is_smaller : ℕ → ℕ → Option (ℕ × ℕ) → Bool
is_smaller lv v none = false
is_smaller lv v (some (level, node)) = if lv == level then ltb v node else ltb lv level

-- `fail_if_smaller_than.first != -1`
unfoldable pub is_limited : Option (ℕ × ℕ) → Bool
is_limited none = false
is_limited (some limit) = true

-- `s[0]`, and `std::swap(s.front(), s.back())`.
abbrev pub front : List ℕ → ℕ
front s = get_or s 0 0

unfoldable pub swap_ends : List ℕ → List ℕ
swap_ends s = set (set s 0 (get_or s (length s - 1) 0)) (length s - 1) (front s)

-- How the inner loop ends, with `s` and `level`: a failure, no candidate left, or a seed change.
pub data Pass : Type 0 where
  failed_pass : List ℕ → List ℕ → Pass
  finished : List ℕ → List ℕ → Pass
  seed_change : List ℕ → List ℕ → Pass

-- What a round of the inner loop leads to: its end, or `level`, `next_in_s` and the candidates.
pub data Turn (Aux : Type 0) : Type 0 where
  ends : Pass → Turn Aux
  goes : List ℕ → ℕ → Candidates Aux → Turn Aux

-- What `Complete` ends with: an exception of `Resort`, or its result with `s` and `level`.
pub data Completed : Type 0 where
  threw : Completed
  failed : List ℕ → List ℕ → Completed
  completed : List ℕ → List ℕ → Completed

-- A round of the outer loop leads to the result or to another round.
pub data Round : Type 0 where
  over : Completed → Round
  again : List ℕ → List ℕ → Round

module _ {Aux : Type 0} (system : System Aux) (limits : Limits) (bits : List Bool) where
  -- From the seed change on, with the solution `s` that `v` was pushed to.
  unfoldable pub pushed : List ℕ → List ℕ → ℕ → ℕ → ℕ → Candidates Aux → Turn Aux
  pushed s level next_in_s lv v c =
      if ltb v (front s)
      then (if limits.fail_on_seed_change || is_limited limits.fail_if_smaller_than
          then ends (failed_pass (swap_ends s) level)
          else ends (seed_change (swap_ends s) level))
      else goes level next_in_s (
          add system limits.ground_set v lv
            (record c { s = s; aux = system.update_aux c.aux s (length s - 1) }))

  -- The branch in which the candidate is not the next element of `s`.
  unfoldable pub push : List ℕ → ℕ → ℕ → ℕ → Candidates Aux → Turn Aux
  push level next_in_s lv v c =
      if not (is_in_target limits.target bits v)
      then ends (failed_pass c.s level)
      else if is_smaller lv v limits.fail_if_smaller_than
      then ends (failed_pass c.s level)
      else pushed (c.s ++ v ∷ []) (level ++ lv ∷ []) next_in_s lv v c

  -- The body of the inner loop, after `candidates.Next`.
  unfoldable pub turn : List ℕ → ℕ → Option (ℕ × ℕ) × Candidates Aux → Turn Aux
  turn level next_in_s (none, c) = ends (finished c.s level)
  turn level next_in_s (some (lv, v), c) =
      if leb (length c.s) next_in_s || not (v == get_or c.s next_in_s 0)
      then push level next_in_s lv v c
      else goes level (next_in_s + 1) (add system limits.ground_set v lv c)

  -- The inner loop, with fuel for its rounds and for those of each `Next`.
  unfoldable pub fill : ℕ → ℕ → Turn Aux → Option Pass
  fill pops fuel (ends p) = some p
  fill pops zero (goes level next_in_s c) = none
  fill pops (suc fuel) (goes level next_in_s c) =
      next system limits.ground_set pops c >>= λ found. fill pops fuel (turn level next_in_s found)

  -- What stands before the inner loop.
  unfoldable pub begin : List ℕ → List ℕ → Turn Aux
  begin s level =
      goes level 1 (add system limits.ground_set (front s) 0 (candidates s (system.init_aux s)))

  unfoldable pub finish : Option (List ℕ × List ℕ) → Round
  finish none = over threw
  finish (some (s, level)) = over (completed s level)

  unfoldable pub restart : Option (List ℕ × List ℕ) → Round
  restart none = over threw
  restart (some (s, level)) = again s level

  -- After the inner loop: `Resort`, and the return if it finished.
  unfoldable pub conclude : Pass → Round
  conclude (failed_pass s level) = over (failed s level)
  conclude (finished s level) = finish (system.resort s level (front s))
  conclude (seed_change s level) = restart (system.resort s level (front s))

  -- The outer loop, with fuel for its rounds as well.
  unfoldable pub rounds : ℕ → ℕ → Round → Option Completed
  rounds inner fuel (over r) = some r
  rounds inner zero (again s level) = none
  rounds inner (suc fuel) (again s level) =
      fill inner inner (begin s level) >>= λ p. rounds inner fuel (conclude p)

-- An exception leaves the bits of the target as they are.
unfoldable pub unwind : Completed → Option (List ℕ) → List Bool → List Bool
unwind threw target bits = bits
unwind (failed s level) target bits = cleanup_target target bits
unwind (completed s level) target bits = cleanup_target target bits

unfoldable pub complete :
    {Aux : Type 0}
    → System Aux
    → Limits
    → ℕ
    → List ℕ
    → List ℕ
    → List Bool
    → Option (Completed × List Bool)
complete system limits fuel s level bits =
    let marked = mark_target limits.target bits in
    rounds system limits marked fuel fuel (again s level) >>= λ r.
    some (r, unwind r limits.target marked)
