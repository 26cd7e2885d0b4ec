-- ===== src/Commutable/Offspring/Roots.antt =====
-- The roots of a commutable system, from `GetRoot` of enumerable/commutable.hpp.
use parallel_enum.Base.{
  ℕ, ◌≤◌, ◌≡◌, sym, ap, ◌∙◌, arith, Bool, true, false, List, [], ◌∷◌, ◌++◌, none, some, ◌⊎◌, inl,
  inr, ltb, ltb→ge, ◌>>=◌, mem, mem-append, Bool-cases, Option-cases,
}
use parallel_enum.Commutable.{System}
use parallel_enum.Commutable.Tracked.{given, OffersAll, Weighed}
use parallel_enum.Commutable.Completion.{
  Limits, Completed, front, mark_target, is_in_target, complete, again, threw, failed, completed,
}
use parallel_enum.Commutable.Completion.Rule.{rounds-Sound}
use parallel_enum.Commutable.Completion.Sets.{IsOfSet}
use parallel_enum.Commutable.Completion.Result.{Laws, complete-ran, mem-known}
use parallel_enum.Commutable.Offspring.{Node, limits_from, root_of, get_root}

module _ {Aux : Type 0} (system : System Aux) (Fits : List ℕ → Aux → Type 0)
    (laws : Laws system Fits) (offers : OffersAll system none) (i : ℕ) (bits : List Bool)
    (seeds_good : system.is_seed i none ≡ true → system.is_good (i ∷ []) ≡ true) where
  abbrev limits : Limits
  limits = limits_from none none true none

  -- A good solution of which `i` is the least element.
  abbrev IsRooted : List ℕ → Type 0
  IsRooted s = (system.is_good s ≡ true) × (mem i s ≡ true) × ((w : ℕ) → mem w s ≡ true → i ≤ w)

  IsRooted-free : IsOfSet IsRooted
  IsRooted-free s t same h =
      (sym (laws.reads_set s t same) ∙ h.0, sym (same i) ∙ h.1, λ w m. h.2 w (same w ∙ m))

  front-le : (s : List ℕ) (v : ℕ) → IsRooted s → i ≤ front (s ++ v ∷ [])
  front-le [] v h = absurd (cc)
  front-le (x ∷ s) v h = h.2 x (ground arith)

  IsRooted-grows :
      (s : List ℕ) (v : ℕ)
      → (mem v s ≡ true) ⊎ (system.is_good (s ++ v ∷ []) ≡ true)
      → is_in_target limits.target (mark_target limits.target bits) v ≡ true
      → (limits.fail_on_seed_change ≡ false) ⊎ (ltb v (front (s ++ v ∷ [])) ≡ false)
      → IsRooted s
      → IsRooted (s ++ v ∷ [])
  IsRooted-grows s v (inl member) inside order h =
      IsRooted-free s (s ++ v ∷ []) (λ w. sym (mem-known s v w member)) h
  IsRooted-grows s v (inr fits) inside (inl e) h = absurd (cc)
  IsRooted-grows s v (inr fits) inside (inr above) h = (
    fits,
    ground (arith, mem-append i s (v ∷ []), h.1),
    λ w m. elim (Bool-cases (mem w s)) [
      | inl old ↦ h.2 w old
      | inr new ↦
          let e : w ≡ v = ground (arith, mem-append w s (v ∷ [])) in
          omega (arith, e, front-le s v h, ltb→ge v (front (s ++ v ∷ [])) above)
    ],
  )

  IsRooted-first : system.is_seed i none ≡ true → IsRooted (i ∷ [])
  IsRooted-first seed = (seeds_good seed, ground arith, λ w m. ground arith)

  root_of-eq :
      (r : Completed × List Bool) (node : Node) (bits' : List Bool)
      → root_of r ≡ some (node ∷ [], bits')
      → r ≡ (completed node.elements node.levels, bits')
  unfolding root_of
  root_of-eq (threw, b) node bits' e = absurd (cc)
  root_of-eq (failed s level, b) node bits' e = absurd (ground arith)
  root_of-eq (completed s level, b) node bits' e = ground arith

  get_root_ran :
      (fuel : ℕ) (node : Node) (bits' : List Bool)
      → get_root system fuel i bits ≡ some (node ∷ [], bits')
      → (system.is_seed i none ≡ true)
        × (complete system limits fuel (i ∷ []) (0 ∷ []) bits
            ≡ some (completed node.elements node.levels, bits'))
  unfolding get_root
  get_root_ran fuel node bits' e = elim (Bool-cases (system.is_seed i none)) [
    | inl seed ↦ elim (Option-cases (complete system limits fuel (i ∷ []) (0 ∷ []) bits)) [
      | inl nothing ↦ absurd (ground arith)
      | inr (r, ran) ↦ (seed, ran ∙ ap some (root_of-eq r node bits' (rw (seed, ran, ◌>>=◌) at e)))
    ]
    | inr other ↦ absurd (ground arith)
  ]

  -- For a system as in the statement on `Complete` in which a root seed alone is good: a node that
  -- `GetRoot(i)` calls back with is good, has `i` as its least element, and each node of the graph
  -- is in it or makes it bad when added. So different roots are different solutions.
  pub get_root-IsLeast :
      (fuel : ℕ) (node : Node) (bits' : List Bool) (w j v : ℕ)
      → get_root system fuel i bits ≡ some (node ∷ [], bits')
      → mem w node.elements ≡ true
      → given system none j ≡ some v
      → (system.is_good node.elements ≡ true)
        × (mem i node.elements ≡ true)
        × (i ≤ w)
        × Weighed system none node.elements v
  get_root-IsLeast fuel node bits' w j v e mw offered =
      let (seed, ran) = get_root_ran fuel node bits' e in
      let result =
        rounds-Sound system Fits laws.judges limits (mark_target none bits) offers IsRooted
          IsRooted-free IsRooted-grows laws.reads_set laws.reorders laws.seeds_first fuel fuel
          (again (i ∷ []) (0 ∷ [])) (completed node.elements node.levels)
          (omega arith, IsRooted-first seed)
          (complete-ran system limits fuel (i ∷ []) (0 ∷ []) bits
            (completed node.elements node.levels) bits' ran).0 in
      (result.0.0, result.0.1, result.0.2 w mw, result.1 j v offered)
