-- ===== src/Commutable/Completion/Ends.antt =====
-- `Complete` of enumerable/commutable.hpp ends: each round of its inner loop uses up nodes or
-- iterators, and each seed change lowers the seed.
use parallel_enum.Base.{
  ℕ, zero, suc, ◌+◌, ◌*◌, ◌≤◌, ◌<◌, ◌≡◌, refl, arith, Bool, List, some, inl, inr, length,
  Option-cases,
}
use parallel_enum.Commutable.{System}
use parallel_enum.Commutable.Queue.{IsBounded}
use parallel_enum.Commutable.Completion.{
  Limits, Pass, Completed, Round, front, begin, conclude, rounds, mark_target, complete,
  failed_pass, finished, seed_change, over, again, finish, restart, unwind,
}
use parallel_enum.Commutable.Completion.Progress.{Lowers, fill_ends, begin-IsReady}

-- `Resort` puts the seed first.
abbrev pub SeedsFirst : {Aux : Type 0} → System Aux → Type 0
SeedsFirst system =
    (s level : List ℕ) (seed : ℕ) (r : List ℕ × List ℕ)
    → system.resort s level seed ≡ some r
    → (front r.0 ≡ seed) × (0 < length r.0)

module _ {Aux : Type 0} (system : System Aux) (limits : Limits) (bits : List Bool) (bound size : ℕ)
    (laws : IsBounded system limits.ground_set bound size) where
  abbrev Starts : ℕ → Round → Type 0
  Starts fuel (over r) = Unit
  Starts fuel (again s level) = (front s < fuel) × (0 < length s)

  conclude-Starts :
      (seed fuel : ℕ) (p : Pass)
      → SeedsFirst system
      → Lowers seed p
      → seed ≤ fuel
      → Starts fuel (conclude system limits bits p)
  unfolding conclude finish restart
  conclude-Starts seed fuel (failed_pass s level) first h le = tt
  conclude-Starts seed fuel (finished s level) first h le =
      elim (Option-cases (system.resort s level (front s))) [
        | inl e ↦ rw e tt
        | inr (r, e) ↦ rw e tt
      ]
  conclude-Starts seed fuel (seed_change s level) first h le =
      elim (Option-cases (system.resort s level (front s))) [
        | inl e ↦ rw e tt
        | inr (r, e) ↦ let f = first s level (front s) r e in rw e (omega (arith, f.0, h.0), f.1)
      ]

  rounds_end :
      (inner fuel : ℕ) (r : Round)
      → SeedsFirst system
      → bound + size * suc bound < inner
      → Starts fuel r
      → (c : Completed) × (rounds system limits bits inner fuel r ≡ some c)
  unfolding rounds
  rounds_end inner fuel (over c) first enough h = (c, refl)
  rounds_end inner zero (again s level) first enough h = absurd (omega (arith, h.0))
  rounds_end inner (suc fuel) (again s level) first enough h =
      let (p, ran, lowers) =
        fill_ends system limits bits bound size laws inner inner (front s)
          (begin system limits bits s level)
          (begin-IsReady system limits bits bound size laws s level inner h.1 enough)
          (omega arith) in
      let (c, e) =
        rounds_end inner fuel (conclude system limits bits p) first enough
          (conclude-Starts (front s) fuel p first lowers (omega (arith, h.0))) in
      (c, rw ran e)

-- If `CompleteCandNum` answers at most `bound` times for an iterator, with nodes below `size`, and
-- `Resort` puts the seed first, `Complete` of a non-empty solution ends: fuel above `bound + size *
-- (bound + 1)` and above the first element is enough.
pub complete_ends :
    {Aux : Type 0} (system : System Aux) (limits : Limits) (bound size fuel : ℕ) (s level : List ℕ)
    (bits : List Bool)
    → IsBounded system limits.ground_set bound size
    → SeedsFirst system
    → 0 < length s
    → bound + size * suc bound < fuel
    → front s < fuel
    → (r : Completed × List Bool) × (complete system limits fuel s level bits ≡ some r)
unfolding complete
complete_ends system limits bound size fuel s level bits laws first nonempty enough h =
    let (c, e) =
      rounds_end system limits (mark_target limits.target bits) bound size laws fuel fuel
        (again s level) first enough (h, nonempty) in
    ((c, unwind c limits.target (mark_target limits.target bits)), rw e refl)
