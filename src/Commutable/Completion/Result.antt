-- ===== src/Commutable/Completion/Result.antt =====
-- What `Complete` of enumerable/commutable.hpp returns, and the bits of the target after it.
use parallel_enum.Base.{
  ℕ, ◌<◌, ◌≡◌, refl, sym, ap, ◌∙◌, subst, arith, Bool, true, false, List, [], ◌∷◌, ◌++◌, Option,
  none, some, ◌⊎◌, inl, inr, length, get_or, set, mem, mem-append, Bool-cases, Option-cases, ◌==◌,
  if◌then◌else◌, get_or-set-false, get_or-set_ne, ltb,
}
use parallel_enum.Commutable.{System}
use parallel_enum.Commutable.Tracked.{given, OffersAll, Weighed}
use parallel_enum.Commutable.Completion.{
  Limits, Completed, set_each, mark_target, cleanup_target, is_in_target, rounds, unwind, complete,
  again, front, failed, completed,
}
use parallel_enum.Commutable.Completion.Ends.{SeedsFirst}
use parallel_enum.Commutable.Completion.Turns.{Judges}
use parallel_enum.Commutable.Completion.Rule.{rounds-Sound}
use parallel_enum.Commutable.Completion.Sets.{Reorders, IsOfSet, ReadsSet}

-- No bit is set.
abbrev pub IsClear : List Bool → Type 0
IsClear bits = (v : ℕ) → get_or bits v false ≡ false

get_or-set_each-false :
    (vs : List ℕ) (bits : List Bool) (v : ℕ)
    → get_or (set_each vs false bits) v false ≡ (if mem v vs then false else get_or bits v false)
unfolding set_each
get_or-set_each-false [] bits v = refl
get_or-set_each-false (x ∷ vs) bits v =
    ground (arith, get_or-set_each-false vs (set bits x false) v, get_or-set-false bits x v)

get_or-set-other :
    (bits : List Bool) (i v : ℕ)
    → (v == i) ≡ false
    → get_or (set bits i true) v false ≡ get_or bits v false
get_or-set-other bits i v ne = get_or-set_ne bits i v true false (λ e. ground arith)

-- A bit outside of the target is as it was.
get_or-set_each-other :
    (vs : List ℕ) (bits : List Bool) (v : ℕ)
    → mem v vs ≡ false
    → get_or (set_each vs true bits) v false ≡ get_or bits v false
unfolding set_each
get_or-set_each-other [] bits v new = refl
get_or-set_each-other (x ∷ vs) bits v new =
    get_or-set_each-other vs (set bits x true) v (ground arith)
    ∙ get_or-set-other bits x v (ground arith)

cleanup-IsClear :
    (target : Option (List ℕ)) (bits : List Bool)
    → IsClear bits
    → IsClear (cleanup_target target (mark_target target bits))
unfolding cleanup_target mark_target
cleanup-IsClear none bits clear v = clear v
cleanup-IsClear (some vs) bits clear v =
    get_or-set_each-false vs (set_each vs true bits) v
    ∙ ground (arith, get_or-set_each-other vs bits v, clear v)

-- A node that the bits mark is one of the target, if there is a target.
abbrev pub Allows : Option (List ℕ) → ℕ → Type 0
Allows none v = Unit
Allows (some vs) v = mem v vs ≡ true

is_in_target-Allows :
    (target : Option (List ℕ)) (bits : List Bool) (v : ℕ)
    → IsClear bits
    → is_in_target target (mark_target target bits) v ≡ true
    → Allows target v
unfolding is_in_target mark_target
is_in_target-Allows none bits v clear h = tt
is_in_target-Allows (some vs) bits v clear h =
    ground (arith, get_or-set_each-other vs bits v, clear v)

pub mem-known : (t : List ℕ) (x w : ℕ) → mem x t ≡ true → mem w (t ++ x ∷ []) ≡ mem w t
mem-known t x w h = elim (Bool-cases (w == x)) [
  | inl same ↦
      let e : w ≡ x = ground arith in
      subst (λ v. mem v (t ++ x ∷ []) ≡ mem v t) (sym e)
        (ground (arith, mem-append x t (x ∷ []), h))
  | inr other ↦ ground (arith, mem-append w t (x ∷ []))
]

mem-unknown : (t : List ℕ) (x w : ℕ) → (w == x) ≡ false → mem w (t ++ x ∷ []) ≡ mem w t
mem-unknown t x w h = ground (arith, mem-append w t (x ∷ []))

-- The laws of a system under which `Complete` is judged.
pub record Laws {Aux : Type 0} (system : System Aux) (Fits : List ℕ → Aux → Type 0) : Type 0 where
  pub judges : Judges system Fits
  pub reads_set : ReadsSet system
  pub reorders : Reorders system
  pub seeds_first : SeedsFirst system

-- The run of the loops behind a result.
pub complete-ran :
    {Aux : Type 0} (system : System Aux) (limits : Limits) (fuel : ℕ) (s level : List ℕ)
    (bits : List Bool) (r : Completed) (bits' : List Bool)
    → complete system limits fuel s level bits ≡ some (r, bits')
    → (rounds system limits (mark_target limits.target bits) fuel fuel (again s level) ≡ some r)
      × (bits' ≡ unwind r limits.target (mark_target limits.target bits))
unfolding complete
complete-ran system limits fuel s level bits r bits' e =
    elim (Option-cases
      (rounds system limits (mark_target limits.target bits) fuel fuel (again s level))) [
        | inl nothing ↦ absurd (ground arith)
        | inr (q, ran) ↦ ground arith
      ]

module _ {Aux : Type 0} (system : System Aux) (Fits : List ℕ → Aux → Type 0)
    (laws : Laws system Fits) (limits : Limits) (offers : OffersAll system limits.ground_set)
    (fuel : ℕ) (s level s' level' : List ℕ) (bits bits' : List Bool) (nonempty : 0 < length s)
    (ran : complete system limits fuel s level bits ≡ some (completed s' level', bits')) where
  pub complete-IsFull :
      system.is_good s ≡ true
      → (system.is_good s' ≡ true)
        × ((i v : ℕ)
            → given system limits.ground_set i ≡ some v
            → Weighed system limits.ground_set s' v)
  complete-IsFull good =
      rounds-Sound system Fits laws.judges limits (mark_target limits.target bits) offers
        (λ t. system.is_good t ≡ true) free grows laws.reads_set laws.reorders laws.seeds_first fuel
        fuel (again s level) (completed s' level') (nonempty, good)
        (complete-ran system limits fuel s level bits (completed s' level') bits' ran).0
    where
      free : IsOfSet (λ t. system.is_good t ≡ true)
      free t u same h = sym (laws.reads_set t u same) ∙ h

      grows :
          (t : List ℕ) (x : ℕ)
          → (mem x t ≡ true) ⊎ (system.is_good (t ++ x ∷ []) ≡ true)
          → is_in_target limits.target (mark_target limits.target bits) x ≡ true
          → (limits.fail_on_seed_change ≡ false) ⊎ (ltb x (front (t ++ x ∷ [])) ≡ false)
          → system.is_good t ≡ true
          → system.is_good (t ++ x ∷ []) ≡ true
      grows t x (inl member) inside order h =
          laws.reads_set (t ++ x ∷ []) t (λ w. mem-known t x w member) ∙ h
      grows t x (inr fits) inside order h = fits

  -- For a system in which `CanAdd` tells whether the longer solution is good, `IsGood` reads a
  -- solution as a set, `Resort` reorders it with the seed first and `CompleteCandNum` offers all
  -- nodes or all of the ground set: if `Complete` of a good, non-empty solution returns true, its
  -- result is good, and each node on offer is in the result or makes it bad when added.
  pub complete-IsMaximal :
      (i v : ℕ)
      → system.is_good s ≡ true
      → given system limits.ground_set i ≡ some v
      → (system.is_good s' ≡ true) × Weighed system limits.ground_set s' v
  complete-IsMaximal i v good offered =
      ((complete-IsFull good).0, (complete-IsFull good).1 i v offered)

  module _ (clear : IsClear bits) where
    -- Whether `w` is in the solution: it is if it was, and it was or the target has it if it is.
    abbrev IsFair : ℕ → Bool → Type 0
    IsFair w present =
        ((mem w s ≡ false) ⊎ (present ≡ true))
        × ((present ≡ false) ⊎ (mem w s ≡ true) ⊎ Allows limits.target w)

    -- For a system as in the statement on `Complete`, with the bits of the target clear: if
    -- `Complete` of a non-empty solution returns true, the result has all elements of the solution,
    -- and each of its elements is in the solution or in the target, if there is a target.
    pub complete-IsBetween :
        (w : ℕ)
        → ((mem w s ≡ false) ⊎ (mem w s' ≡ true))
          × ((mem w s' ≡ false) ⊎ (mem w s ≡ true) ⊎ Allows limits.target w)
    complete-IsBetween w =
        (rounds-Sound system Fits laws.judges limits (mark_target limits.target bits) offers
          (λ t. IsFair w (mem w t)) (λ t u same h. subst (IsFair w) (same w) h) grows laws.reads_set
          laws.reorders laws.seeds_first fuel fuel (again s level) (completed s' level')
          (nonempty, initial)
          (complete-ran system limits fuel s level bits (completed s' level') bits' ran).0).0
      where
        initial : IsFair w (mem w s)
        initial = elim (Bool-cases (mem w s)) [
          | inl present ↦ (inr present, inr (inl present))
          | inr missing ↦ (inl missing, inl missing)
        ]

        grows :
            (t : List ℕ) (x : ℕ)
            → (mem x t ≡ true) ⊎ (system.is_good (t ++ x ∷ []) ≡ true)
            → is_in_target limits.target (mark_target limits.target bits) x ≡ true
            → (limits.fail_on_seed_change ≡ false) ⊎ (ltb x (front (t ++ x ∷ [])) ≡ false)
            → IsFair w (mem w t)
            → IsFair w (mem w (t ++ x ∷ []))
        grows t x fits inside order h = elim (Bool-cases (w == x)) [
          | inl same ↦
              let e : w ≡ x = ground arith in
              let present : mem w (t ++ x ∷ []) ≡ true = ground (arith, mem-append w t (x ∷ [])) in
              (
                inr present,
                inr (
                    inr (
                      subst (Allows limits.target) (sym e)
                        (is_in_target-Allows limits.target bits x clear inside))),
              )
          | inr other ↦ subst (IsFair w) (sym (mem-unknown t x w other)) h
        ]

-- From a target bit set that is all false, `Complete` leaves it all false when it returns true and
-- when it returns false.
pub complete-IsClear :
    {Aux : Type 0} (system : System Aux) (limits : Limits) (fuel : ℕ) (s level : List ℕ)
    (bits bits' : List Bool) (s' level' : List ℕ) (v : ℕ)
    → IsClear bits
    → (complete system limits fuel s level bits ≡ some (completed s' level', bits'))
      ⊎ (complete system limits fuel s level bits ≡ some (failed s' level', bits'))
    → get_or bits' v false ≡ false
unfolding unwind
complete-IsClear system limits fuel s level bits bits' s' level' v clear (inl e) =
    ap (λ b. get_or b v false)
      (complete-ran system limits fuel s level bits (completed s' level') bits' e).1
    ∙ cleanup-IsClear limits.target bits clear v
complete-IsClear system limits fuel s level bits bits' s' level' v clear (inr e) =
    ap (λ b. get_or b v false)
      (complete-ran system limits fuel s level bits (failed s' level') bits' e).1
    ∙ cleanup-IsClear limits.target bits clear v
