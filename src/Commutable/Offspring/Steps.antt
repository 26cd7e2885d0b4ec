-- ===== src/Commutable/Offspring/Steps.antt =====
-- The body of `Children` of enumerable/commutable.hpp for one seed.
use parallel_enum.Base.{
  ℕ, ◌<◌, ◌≡◌, refl, ap, ◌∙◌, subst, Bool, true, false, List, [], ◌∷◌, ◌++◌, Option, none, some,
  inl, inr, if◌then◌else◌, ◌==◌, length, Bool-cases, Each-append,
}
use parallel_enum.Commutable.{System}
use parallel_enum.Commutable.Tracked.{OffersAll}
use parallel_enum.Commutable.Completion.{Completed, front, complete, threw, failed, completed}
use parallel_enum.Commutable.Completion.Result.{Laws, complete-IsFull}
use parallel_enum.Commutable.Offspring.{
  Node, Visit, pop_back, back, smallest, starts_with, proceed, limits_from, call_back, check_core,
  check_parent, check_seed,
}
use parallel_enum.Commutable.Offspring.Visits.{bind_some, if_split, IsSolution, AllSolutions}

module _ {Aux : Type 0} (system : System Aux) (Fits : List ℕ → Aux → Type 0)
    (laws : Laws system Fits) (offers : OffersAll system none) (fuel : ℕ) where
  module _ (cb : List Node → Node → Bool) (s level : List ℕ) where
    proceed-keeps :
        (rest : List ℕ → List ℕ → Visit → Option (Bool × Visit)) (visit : Visit)
        (c : Completed × List Bool) (r : Bool × Visit)
        → AllSolutions system visit
        → ((t lv : List ℕ) (visit' : Visit)
            → c ≡ (completed t lv, visit'.bits)
            → AllSolutions system visit'
            → rest t lv visit' ≡ some r
            → AllSolutions system r.1)
        → proceed rest visit c ≡ some r
        → AllSolutions system r.1
    unfolding proceed
    proceed-keeps rest visit (threw, bits) r h keep e = absurd (cc)
    proceed-keeps rest visit (failed t lv, bits) r h keep e =
        let same : (true, record visit { bits = bits }) ≡ r = cc in
        subst (λ (p : Bool × Visit). AllSolutions system p.1) same h
    proceed-keeps rest visit (completed t lv, bits) r h keep e =
        keep t lv (record visit { bits = bits }) refl h e

    call_back-keeps :
        (node : Node) (visit : Visit) (r : Bool × Visit)
        → IsSolution system node
        → AllSolutions system visit
        → call_back system fuel cb s level node visit ≡ some r
        → AllSolutions system r.1
    unfolding call_back
    call_back-keeps node visit r good h e =
        let not_done = if cb visit.found node then visit.not_done else false in
        let same : (
          not_done,
          record visit { found = visit.found ++ node ∷ []; not_done = not_done },
        )
            ≡ r =
          cc in
        subst (λ (p : Bool × Visit). AllSolutions system p.1) same
          (Each-append (IsSolution system) visit.found node h good)

    check_core-keeps :
        (sol : List ℕ) (cand : ℕ) (core clvl : List ℕ) (child : Node) (p plvl : List ℕ)
        (visit : Visit) (r : Bool × Visit)
        → IsSolution system child
        → AllSolutions system visit
        → check_core system fuel cb s level sol cand core clvl child p plvl visit ≡ some r
        → AllSolutions system r.1
    unfolding check_core
    check_core-keeps sol cand core clvl child p plvl visit r good h e =
        elim (if_split system.restr_multiple _ _ (some r) e) [
          | inl multiple ↦
              let (c, _, rest) =
                bind_some
                  (complete system (limits_from (some (p ++ cand ∷ [])) (some sol) false none) fuel
                    core clvl visit.bits)
                  _ r multiple in
              proceed-keeps (λ _ _ visit'. call_back system fuel cb s level child visit') visit c r
                h (λ t lv visit' _ h' e'. call_back-keeps child visit' r good h' e') rest
          | inr one ↦ call_back-keeps child visit r good h one
        ]

    check_parent-keeps :
        (sol : List ℕ) (cand : ℕ) (core clvl child lvl : List ℕ) (visit : Visit) (r : Bool × Visit)
        → IsSolution system (record { elements = child; levels = lvl })
        → AllSolutions system visit
        → check_parent system fuel cb s level sol cand core clvl child lvl visit ≡ some r
        → AllSolutions system r.1
    unfolding check_parent
    check_parent-keeps sol cand core clvl child lvl visit r good h e =
        elim (Bool-cases (starts_with core child)) [
          | inl starts ↦
              let (c, _, rest) =
                bind_some (complete system _ fuel (pop_back core) (pop_back clvl) visit.bits) _ r
                  (rw starts at e) in
              proceed-keeps
                (check_core system fuel cb s level sol cand core clvl
                  (record { elements = child; levels = lvl }))
                visit c r h
                (λ t lv visit' _ h' e'.
                  check_core-keeps sol cand core clvl (record { elements = child; levels = lvl }) t
                    lv visit' r good h' e')
                rest
          | inr other ↦
              let same : (true, visit) ≡ r = some_inj (rw other at e) in
              subst (λ (p : Bool × Visit). AllSolutions system p.1) same h
        ]
      where
        some_inj : {a b : Bool × Visit} → some a ≡ some b → a ≡ b
        some_inj h = cc

    pub check_seed-keeps :
        (sol : List ℕ) (cand seed : ℕ) (visit : Visit) (core : List ℕ × List ℕ) (r : Bool × Visit)
        → 0 < length core.0
        → system.is_good core.0 ≡ true
        → AllSolutions system visit
        → check_seed system fuel cb s level sol cand seed visit core ≡ some r
        → AllSolutions system r.1
    unfolding check_seed
    check_seed-keeps sol cand seed visit (core, clvl) r nonempty good h e =
        elim (Bool-cases (seed == smallest (front core) core)) [
          | inl least ↦
              let limits = limits_from none none true (some (back clvl, back core)) in
              let (c, ran, rest) =
                bind_some (complete system limits fuel core clvl visit.bits) _ r (rw least at e) in
              proceed-keeps (check_parent system fuel cb s level sol cand core clvl) visit c r h
                (λ t lv visit' ended h' e'.
                  check_parent-keeps sol cand core clvl t lv visit' r
                    (complete-IsFull system Fits laws limits offers fuel core clvl t lv visit.bits
                      visit'.bits nonempty (ran ∙ ap some ended) good)
                    h' e')
                rest
          | inr other ↦
              let same : (true, visit) ≡ r = some_inj (rw other at e) in
              subst (λ (p : Bool × Visit). AllSolutions system p.1) same h
        ]
      where
        some_inj : {a b : Bool × Visit} → some a ≡ some b → a ≡ b
        some_inj h = cc
