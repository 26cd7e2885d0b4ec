-- ===== src/Commutable/Completion/Progress.antt =====
-- A pass of `Complete` in enumerable/commutable.hpp ends, and a seed change lowers the seed.
use parallel_enum.Base.{
  ℕ, zero, suc, ◌+◌, ◌*◌, ◌≤◌, ◌<◌, ◌≡◌, refl, sym, ap, ◌∙◌, arith, Bool, true, false, not, List,
  [], ◌∷◌, ◌++◌, Option, none, some, inl, inr, if◌then◌else◌, ltb, leb, ◌==◌, ltb→lt, length,
  get_or, Bool-cases, length-append, ◌||◌, subst,
}
use parallel_enum.Commutable.{System, Candidates, candidates, add}
use parallel_enum.Commutable.Queue.{IsBounded, left, IsBelow}
use parallel_enum.Commutable.Next.{
  Outcome, Kept, Took, next_ends, next-Outcome, add-left, add-fields,
}
use parallel_enum.Commutable.Completion.{
  Limits, Pass, Turn, front, is_in_target, is_smaller, is_limited, push, pushed, turn, fill, begin,
  failed_pass, finished, seed_change, ends, goes,
}
use parallel_enum.Commutable.Completion.Room.{
  room, room-nil, room-append-le, room-append, front-append, front-swap_ends, length-swap_ends,
}

-- A pass that ends with a seed change leaves a smaller seed.
abbrev pub Lowers : ℕ → Pass → Type 0
Lowers seed (failed_pass s level) = Unit
Lowers seed (finished s level) = Unit
Lowers seed (seed_change s level) = (front s < seed) × (0 < length s)

module _ {Aux : Type 0} (system : System Aux) (limits : Limits) (bits : List Bool) (bound size : ℕ)
    (laws : IsBounded system limits.ground_set bound size) where
  -- What a round and the additions after it may still use.
  pub work : Candidates Aux → ℕ
  work c = left bound c + room (suc bound) c.added_so_far size

  left-le : (c : Candidates Aux) → left bound c ≤ work c
  unfolding work
  left-le c = omega arith

  pub record IsReady (seed cap : ℕ) (c : Candidates Aux) : Type 0 where
    pub low : IsBelow size c
    pub first : front c.s ≡ seed
    pub some_left : 0 < length c.s
    pub below : work c < cap

  abbrev pub Continues : ℕ → ℕ → Turn Aux → Type 0
  Continues seed cap (ends p) = Lowers seed p
  Continues seed cap (goes level next_in_s c) = IsReady seed cap c

  IsReady-add :
      (seed v lv : ℕ) (c d e : Candidates Aux)
      → Took system limits.ground_set bound size laws c lv v d
      → e.added_so_far ≡ d.added_so_far
      → left bound e ≡ left bound d
      → IsBelow size e
      → front e.s ≡ seed
      → 0 < length e.s
      → IsReady seed (work c) (add system limits.ground_set v lv e)
  unfolding work
  IsReady-add seed v lv c d e h added same low first nonempty =
      let (le, low') = add-left system limits.ground_set bound size laws v lv e low in
      let fields = add-fields system limits.ground_set v lv e in
      let used = room-append (suc bound) v c.added_so_far size h.in_size h.fresh in
      let eq : (add system limits.ground_set v lv e).added_so_far ≡ c.added_so_far ++ v ∷ [] =
        fields.1 ∙ ap (λ l. l ++ v ∷ []) (added ∙ h.kept.same_added) in
      record {
        low = low';
        first = ap front fields.0 ∙ first;
        some_left = subst (λ l. 0 < length l) (sym fields.0) nonempty;
        below = omega (arith, le, same, h.fewer, used, ap (λ l. room (suc bound) l size) eq);
      }

  pushed-Continues :
      (seed lv v : ℕ) (level : List ℕ) (next_in_s : ℕ) (c d : Candidates Aux) (cap : ℕ)
      → Took system limits.ground_set bound size laws c lv v d
      → IsReady seed cap c
      → Continues seed (work c) (pushed system limits bits (d.s ++ v ∷ []) level next_in_s lv v d)
  unfolding pushed
  pushed-Continues seed lv v level next_in_s c d cap h ready =
      let first : front d.s ≡ seed = ap front h.kept.same_s ∙ ready.first in
      let nonempty : 0 < length d.s =
        subst (λ l. 0 < length l) (sym h.kept.same_s) ready.some_left in
      let first' = front-append d.s v nonempty ∙ first in
      elim (Bool-cases (ltb v (front (d.s ++ v ∷ [])))) [
        | inl lower ↦
            elim (Bool-cases
              (limits.fail_on_seed_change || is_limited limits.fail_if_smaller_than)) [
                | inl fails ↦ rw (lower, fails) tt
                | inr restarts ↦
                    rw (lower, restarts)
                      (
                        omega (
                          arith,
                          front-swap_ends d.s v nonempty,
                          first',
                          ltb→lt v (front (d.s ++ v ∷ [])) lower,
                        ),
                        omega (arith, length-swap_ends (d.s ++ v ∷ []), length-append d.s (v ∷ [])),
                      )
              ]
        | inr same ↦ rw same (
            IsReady-add seed v lv c d _ h refl refl h.kept.low first'
              (omega (arith, length-append d.s (v ∷ []))))
      ]

  turn-Continues :
      (seed lv v : ℕ) (level : List ℕ) (next_in_s : ℕ) (c d : Candidates Aux) (cap : ℕ)
      → Took system limits.ground_set bound size laws c lv v d
      → IsReady seed cap c
      → Continues seed (work c) (turn system limits bits level next_in_s (some (lv, v), d))
  unfolding turn push
  turn-Continues seed lv v level next_in_s c d cap h ready =
      elim (Bool-cases (leb (length d.s) next_in_s || not (v == get_or d.s next_in_s 0))) [
        | inl new ↦ rw new (
            pushing (is_in_target limits.target bits v)
              (is_smaller lv v limits.fail_if_smaller_than))
        | inr old ↦ rw old (
            IsReady-add seed v lv c d d h refl refl h.kept.low
              (ap front h.kept.same_s ∙ ready.first)
              (subst (λ l. 0 < length l) (sym h.kept.same_s) ready.some_left))
      ]
    where
      pushing :
          (inside small : Bool)
          → Continues seed (work c) (
              if not inside
              then ends (failed_pass d.s level)
              else if small
              then ends (failed_pass d.s level)
              else pushed system limits bits (d.s ++ v ∷ []) (level ++ lv ∷ []) next_in_s lv v d)
      pushing true true = tt
      pushing true false = pushed-Continues seed lv v (level ++ lv ∷ []) next_in_s c d cap h ready
      pushing false small = tt

  Continues-next :
      (seed cap : ℕ) (level : List ℕ) (next_in_s : ℕ) (c : Candidates Aux)
      (r : Option (ℕ × ℕ) × Candidates Aux)
      → IsReady seed cap c
      → Outcome system limits.ground_set
          (Kept system limits.ground_set bound size laws c)
          (Took system limits.ground_set bound size laws c)
          r.0
          r.1
      → Continues seed (work c) (turn system limits bits level next_in_s r)
  unfolding turn
  Continues-next seed cap level next_in_s c (none, d) ready h = tt
  Continues-next seed cap level next_in_s c (some (lv, v), d) ready h =
      turn-Continues seed lv v level next_in_s c d cap h ready

  Continues-weaken : (seed a b : ℕ) (t : Turn Aux) → a ≤ b → Continues seed a t → Continues seed b t
  Continues-weaken seed a b (ends p) le h = h
  Continues-weaken seed a b (goes level next_in_s c) le h = record {
    low = h.low;
    first = h.first;
    some_left = h.some_left;
    below = omega (arith, h.below);
  }

  pub fill_ends :
      (pops fuel seed : ℕ) (t : Turn Aux)
      → Continues seed fuel t
      → fuel ≤ pops
      → (p : Pass) × (fill system limits bits pops fuel t ≡ some p) × Lowers seed p
  unfolding fill
  fill_ends pops fuel seed (ends p) h le = (p, refl, h)
  fill_ends pops zero seed (goes level next_in_s c) h le = absurd (omega (arith, h.below))
  fill_ends pops (suc fuel) seed (goes level next_in_s c) h le =
      let cap : work c ≤ fuel = omega (arith, h.below) in
      let (r, e) =
        next_ends system limits.ground_set bound size laws pops c
          (omega (arith, left-le c, cap, le)) h.low in
      let outcome = next-Outcome system limits.ground_set bound size laws pops c r h.low e in
      let (p, ran, lowers) =
        fill_ends pops fuel seed (turn system limits bits level next_in_s r)
          (Continues-weaken seed (work c) fuel (turn system limits bits level next_in_s r) cap
            (Continues-next seed (suc fuel) level next_in_s c r h outcome))
          (omega arith) in
      (p, rw e ran, lowers)

  pub begin-IsReady :
      (s level : List ℕ) (cap : ℕ)
      → 0 < length s
      → bound + size * suc bound < cap
      → Continues (front s) cap (begin system limits bits s level)
  unfolding begin candidates work
  begin-IsReady s level cap nonempty h =
      let c : Candidates Aux = candidates s (system.init_aux s) in
      let (le, low) = add-left system limits.ground_set bound size laws (front s) 0 c tt in
      let fields = add-fields system limits.ground_set (front s) 0 c in
      record {
        low = low;
        first = ap front fields.0;
        some_left = subst (λ l. 0 < length l) (sym fields.0) nonempty;
        below = omega (
          arith,
          le,
          room-nil (suc bound) size,
          room-append-le (suc bound) (front s) [] size,
          ap (λ l. room (suc bound) l size) fields.1,
        );
      }
