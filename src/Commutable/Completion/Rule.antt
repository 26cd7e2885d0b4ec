-- ===== src/Commutable/Completion/Rule.antt =====
-- A rule for `Complete` of enumerable/commutable.hpp: what each element that it takes preserves
-- holds of its result, and nothing that it is offered can be added to the result.
use parallel_enum.Base.{
  ℕ, zero, suc, ◌-◌, ◌<◌, ◌≡◌, refl, sym, ap, ◌∙◌, subst, arith, Bool, true, false, not, List, [],
  ◌∷◌, ◌++◌, Option, none, some, ◌⊎◌, inl, inr, if◌then◌else◌, ltb, leb, ◌==◌, length, get_or, mem,
  mem-append, Bool-cases, Option-cases, ◌||◌, mem-get_or,
}
use parallel_enum.Commutable.{System, Candidates, candidates, next}
use parallel_enum.Commutable.Next.{Outcome}
use parallel_enum.Commutable.Tracked.{given, OffersAll, Weighed, Pending, Exhausted}
use parallel_enum.Commutable.Iterators.{queued}
use parallel_enum.Commutable.Completion.{
  Limits, Pass, Turn, Completed, Round, front, swap_ends, is_in_target, is_smaller, is_limited,
  push, pushed, turn, fill, begin, finish, restart, conclude, rounds, failed_pass, finished,
  seed_change, ends, goes, over, again, threw, failed, completed,
}
use parallel_enum.Commutable.Completion.Ends.{SeedsFirst}
use parallel_enum.Commutable.Completion.Turns.{Judges, Holds, Found, next-Found, add-Holds}
use parallel_enum.Commutable.Completion.Sets.{Reorders, IsOfSet, ReadsSet, mem-swap_ends, mem-snoc}

module _ {Aux : Type 0} (system : System Aux) (Fits : List ℕ → Aux → Type 0)
    (judges : Judges system Fits) (limits : Limits) (bits : List Bool)
    (offers : OffersAll system limits.ground_set) (Keeps : List ℕ → Type 0) (free : IsOfSet Keeps)
    (grows : (s : List ℕ) (v : ℕ)
      → (mem v s ≡ true) ⊎ (system.is_good (s ++ v ∷ []) ≡ true)
      → is_in_target limits.target bits v ≡ true
      → (limits.fail_on_seed_change ≡ false) ⊎ (ltb v (front (s ++ v ∷ [])) ≡ false)
      → Keeps s
      → Keeps (s ++ v ∷ [])) where
  -- Nothing that is offered can be added.
  abbrev pub IsFull : List ℕ → Type 0
  IsFull s =
      (i v : ℕ) → given system limits.ground_set i ≡ some v → Weighed system limits.ground_set s v

  abbrev Sound : Pass → Type 0
  Sound (failed_pass s level) = Unit
  Sound (finished s level) = Keeps s × IsFull s
  Sound (seed_change s level) = Keeps s

  abbrev SoundTurn : Turn Aux → Type 0
  SoundTurn (ends p) = Sound p
  SoundTurn (goes level next_in_s c) = Holds system Fits judges limits offers Keeps c

  mem-last : (v : ℕ) (s : List ℕ) → mem v (s ++ v ∷ []) ≡ true
  mem-last v s = ground (arith, mem-append v s (v ∷ []))

  mem-front : (s : List ℕ) (v w : ℕ) → mem w s ≡ true → mem w (s ++ v ∷ []) ≡ true
  mem-front s v w h = ground (arith, mem-append w s (v ∷ []))

  pushed-Sound :
      (level : List ℕ) (next_in_s lv v : ℕ) (c : Candidates Aux)
      → Found system Fits judges limits offers Keeps lv v c
      → is_in_target limits.target bits v ≡ true
      → SoundTurn (pushed system limits bits (c.s ++ v ∷ []) level next_in_s lv v c)
  unfolding pushed
  pushed-Sound level next_in_s lv v c h inside = elim (Bool-cases (ltb v (front (c.s ++ v ∷ [])))) [
    | inl lower ↦
        rw lower (stops (is_limited limits.fail_if_smaller_than) limits.fail_on_seed_change refl)
    | inr same ↦ rw same (
        add-Holds system Fits judges limits offers Keeps v lv
          (record c {
            s = c.s ++ v ∷ [];
            aux = system.update_aux c.aux (c.s ++ v ∷ []) (length (c.s ++ v ∷ []) - 1);
          })
          (judges.updates c.s c.aux v h.fits) (λ w m. mem-front c.s v w (h.within w m))
          (grows c.s v h.fitting inside (inr same) h.kept) h.below (mem-last v c.s))
  ]
    where
      stops :
          (limited fails : Bool)
          → fails ≡ limits.fail_on_seed_change
          → SoundTurn (
              if fails || limited
              then ends (failed_pass (swap_ends (c.s ++ v ∷ [])) level)
              else ends (seed_change (swap_ends (c.s ++ v ∷ [])) level))
      stops true true e = tt
      stops true false e = tt
      stops false true e = tt
      stops false false e =
          free (c.s ++ v ∷ []) (swap_ends (c.s ++ v ∷ [])) (mem-swap_ends c.s v)
            (grows c.s v h.fitting inside (inl (sym e)) h.kept)

  turn-Found :
      (level : List ℕ) (next_in_s lv v : ℕ) (c : Candidates Aux)
      → Found system Fits judges limits offers Keeps lv v c
      → SoundTurn (turn system limits bits level next_in_s (some (lv, v), c))
  unfolding turn push
  turn-Found level next_in_s lv v c h =
      elim (Bool-cases (leb (length c.s) next_in_s || not (v == get_or c.s next_in_s 0))) [
        | inl new ↦ rw new (
            pushing (is_smaller lv v limits.fail_if_smaller_than)
              (Bool-cases (is_in_target limits.target bits v)))
        | inr old ↦ rw old (
            add-Holds system Fits judges limits offers Keeps v lv c h.fits h.within h.kept h.below
              (known old))
      ]
    where
      known :
          (leb (length c.s) next_in_s || not (v == get_or c.s next_in_s 0)) ≡ false
          → mem v c.s ≡ true
      known old =
          let e : v ≡ get_or c.s next_in_s 0 = ground arith in
          ap (λ x. mem x c.s) e ∙ mem-get_or c.s next_in_s 0 (ground arith)

      pushing :
          (small : Bool)
          → (is_in_target limits.target bits v ≡ true) ⊎ (is_in_target limits.target bits v ≡ false)
          → SoundTurn (
              if not (is_in_target limits.target bits v)
              then ends (failed_pass c.s level)
              else if small
              then ends (failed_pass c.s level)
              else pushed system limits bits (c.s ++ v ∷ []) (level ++ lv ∷ []) next_in_s lv v c)
      pushing true (inl inside) = rw inside tt
      pushing false (inl inside) =
          rw inside (pushed-Sound (level ++ lv ∷ []) next_in_s lv v c h inside)
      pushing small (inr outside) = rw outside tt

  -- With an empty queue, the newest iterator has offered all that there is.
  Holds-IsFull :
      (c : Candidates Aux) → Holds system Fits judges limits offers Keeps c → c.pq ≡ [] → IsFull c.s
  Holds-IsFull c h empty = from h.tracked.1.cover.2
    where
      from :
          Pending system limits.ground_set h.tracked.0 c h.tracked.1.cover.0.idx
            ⊎ Exhausted system limits.ground_set h.tracked.0 c
          → IsFull c.s
      from (inl (j, idx, one, nodes, weighed)) =
          absurd (omega (arith, sym (ap (queued h.tracked.0) empty) ∙ one))
      from (inr (none_left, weighed)) = weighed

  turn-Sound :
      (level : List ℕ) (next_in_s : ℕ) (r : Option (ℕ × ℕ) × Candidates Aux)
      → Outcome system limits.ground_set
          (Holds system Fits judges limits offers Keeps)
          (Found system Fits judges limits offers Keeps)
          r.0
          r.1
      → SoundTurn (turn system limits bits level next_in_s r)
  unfolding turn
  turn-Sound level next_in_s (none, c) h = (h.0.kept, Holds-IsFull c h.0 h.1)
  turn-Sound level next_in_s (some (lv, v), c) h = turn-Found level next_in_s lv v c h

  fill-Sound :
      (pops fuel : ℕ) (t : Turn Aux) (p : Pass)
      → SoundTurn t
      → fill system limits bits pops fuel t ≡ some p
      → Sound p
  unfolding fill
  fill-Sound pops fuel (ends q) p h e = subst Sound (ground arith) h
  fill-Sound pops zero (goes level next_in_s c) p h e = absurd (cc)
  fill-Sound pops (suc fuel) (goes level next_in_s c) p h e =
      elim (Option-cases (next system limits.ground_set pops c)) [
        | inl nothing ↦ absurd (ground arith)
        | inr (r, found) ↦
            fill-Sound pops fuel (turn system limits bits level next_in_s r) p
              (turn-Sound level next_in_s r
                (next-Found system Fits judges limits offers Keeps pops c r h found))
              (rw found at e)
      ]

  begin-Sound :
      (s level : List ℕ) → 0 < length s → Keeps s → SoundTurn (begin system limits bits s level)
  unfolding begin candidates
  begin-Sound s level nonempty kept =
      add-Holds system Fits judges limits offers Keeps (front s) 0
        (candidates s (system.init_aux s)) (judges.starts s) (λ v m. absurd (cc)) kept tt
        (mem-get_or s 0 0 nonempty)

  abbrev pub SoundResult : Completed → Type 0
  SoundResult threw = Unit
  SoundResult (failed s level) = Unit
  SoundResult (completed s level) = Keeps s × IsFull s

  abbrev SoundRound : Round → Type 0
  SoundRound (over r) = SoundResult r
  SoundRound (again s level) = (0 < length s) × Keeps s

  module _ (reads_set : ReadsSet system) (reorders : Reorders system)
      (seeds_first : SeedsFirst system) where
    IsFull-reorder : (s t : List ℕ) → ((v : ℕ) → mem v s ≡ mem v t) → IsFull s → IsFull t
    IsFull-reorder s t same full i v g = elim (full i v g) [
      | inl member ↦ inl (sym (same v) ∙ member)
      | inr bad ↦
          inr (sym (reads_set (s ++ v ∷ []) (t ++ v ∷ []) (λ w. mem-snoc s t v w (same w))) ∙ bad)
    ]

    conclude-Sound : (p : Pass) → Sound p → SoundRound (conclude system limits bits p)
    unfolding conclude finish restart
    conclude-Sound (failed_pass s level) h = tt
    conclude-Sound (finished s level) h = elim (Option-cases (system.resort s level (front s))) [
      | inl threw_it ↦ rw threw_it tt
      | inr (r, sorted) ↦
          let same = λ (v : ℕ). sym (reorders s level (front s) r v sorted) in
          rw sorted (free s r.0 same h.0, IsFull-reorder s r.0 same h.1)
    ]
    conclude-Sound (seed_change s level) h = elim (Option-cases (system.resort s level (front s))) [
      | inl threw_it ↦ rw threw_it tt
      | inr (r, sorted) ↦
          let same = λ (v : ℕ). sym (reorders s level (front s) r v sorted) in
          rw sorted ((seeds_first s level (front s) r sorted).1, free s r.0 same h)
    ]

    pub rounds-Sound :
        (inner fuel : ℕ) (r : Round) (result : Completed)
        → SoundRound r
        → rounds system limits bits inner fuel r ≡ some result
        → SoundResult result
    unfolding rounds
    rounds-Sound inner fuel (over q) result h e = subst SoundResult (ground arith) h
    rounds-Sound inner zero (again s level) result h e = absurd (cc)
    rounds-Sound inner (suc fuel) (again s level) result h e =
        elim (Option-cases
          (fill system limits bits inner inner (begin system limits bits s level))) [
            | inl nothing ↦ absurd (ground arith)
            | inr (p, filled) ↦
                rounds-Sound inner fuel (conclude system limits bits p) result
                  (conclude-Sound p (
                    fill-Sound inner inner (begin system limits bits s level) p
                      (begin-Sound s level h.0 h.1) filled))
                  (rw filled at e)
          ]
