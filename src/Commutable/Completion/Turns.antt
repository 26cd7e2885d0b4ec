-- ===== src/Commutable/Completion/Turns.antt =====
-- What the rounds of `Complete` in enumerable/commutable.hpp keep, for a property `Keeps` of the
-- solution that each element it takes preserves.
use parallel_enum.Base.{
  ℕ, ◌-◌, ◌<◌, ◌≡◌, refl, sym, ap, ◌∙◌, subst, arith, true, false, List, [], ◌∷◌, ◌++◌, Option,
  some, ◌⊎◌, inl, inr, length, mem, mem-append, Each, Bool-cases,
}
use parallel_enum.Commutable.{
  System, CandIter, Candidates, insert_in_pq, can_really_add, pop, next, add,
}
use parallel_enum.Commutable.Queue.{insert_in_pq-IsSame}
use parallel_enum.Commutable.Next.{Outcome, next_rule, add-fields}
use parallel_enum.Commutable.Tracked.{OffersAll, Weighed, IsTracked}
use parallel_enum.Commutable.Insertions.{insert_in_pq-IsTracked, insert_in_pq-below, add-IsTracked}
use parallel_enum.Commutable.Completion.{Limits}

-- The auxiliary data fits the solution as long as the system keeps it, and `CanAdd` then tells
-- whether the solution with the element is good.
pub record Judges {Aux : Type 0} (system : System Aux) (Fits : List ℕ → Aux → Type 0) : Type 0 where
  pub starts : (s : List ℕ) → Fits s (system.init_aux s)
  pub updates :
      (s : List ℕ) (aux : Aux) (v : ℕ)
      → Fits s aux
      → Fits (s ++ v ∷ []) (system.update_aux aux (s ++ v ∷ []) (length (s ++ v ∷ []) - 1))
  pub keeps : (s : List ℕ) (aux : Aux) (v : ℕ) → Fits s aux → Fits s (system.can_add s aux v).1
  pub exact :
      (s : List ℕ) (aux : Aux) (v : ℕ)
      → Fits s aux
      → (system.can_add s aux v).0 ≡ system.is_good (s ++ v ∷ [])

module _ {Aux : Type 0} (system : System Aux) (Fits : List ℕ → Aux → Type 0)
    (judges : Judges system Fits) where
  abbrev pub Within : Candidates Aux → Type 0
  Within c = (v : ℕ) → mem v c.added_so_far ≡ true → mem v c.s ≡ true

  can_really_add-Weighed :
      (ground_set : Option (List ℕ)) (v : ℕ) (c : Candidates Aux)
      → Fits c.s c.aux
      → Within c
      → Fits c.s (can_really_add system ground_set v c).1
        × ((can_really_add system ground_set v c).0 ≡ false → Weighed system ground_set c.s v)
        × ((can_really_add system ground_set v c).0 ≡ true
            → (mem v c.s ≡ true) ⊎ (system.is_good (c.s ++ v ∷ []) ≡ true))
  unfolding can_really_add
  can_really_add-Weighed ground_set v c fits within = elim (Bool-cases (mem v c.added_so_far)) [
    | inl added ↦ rw added (fits, λ _. inl (within v added), λ e. absurd (cc))
    | inr new ↦ elim (Bool-cases (mem v c.s)) [
      | inl member ↦ rw (new, member) (fits, λ e. absurd (cc), λ _. inl refl)
      | inr outside ↦
          let exact = judges.exact c.s c.aux v fits in
          rw (new, outside)
            (judges.keeps c.s c.aux v fits, λ e. inr (sym exact ∙ e), λ e. inr (sym exact ∙ e))
    ]
  ]

  module _ (limits : Limits) (offers : OffersAll system limits.ground_set)
      (Keeps : List ℕ → Type 0) where
    pub record Holds (c : Candidates Aux) : Type 0 where
      pub fits : Fits c.s c.aux
      pub within : Within c
      pub kept : Keeps c.s
      pub tracked : (k : ℕ) × IsTracked system limits.ground_set k c

    -- What holds when `Next` returns a node.
    pub record Found (lv v : ℕ) (c : Candidates Aux) : Type 0 where
      pub fits : Fits c.s c.aux
      pub within : Within c
      pub kept : Keeps c.s
      pub below : Each (λ p. p.iterator < length c.info) c.pq
      pub fitting : (mem v c.s ≡ true) ⊎ (system.is_good (c.s ++ v ∷ []) ≡ true)

    -- What an insertion leaves to be judged.
    record Inserted (c d : Candidates Aux) : Type 0 where
      same : d.s ≡ c.s
      fits : Fits d.s d.aux
      within : Within d
      kept : Keeps d.s

    insert-Inserted :
        (p : CandIter) (pq : List CandIter) (c : Candidates Aux)
        → Holds (record c { pq = p ∷ pq })
        → Inserted c (insert_in_pq system limits.ground_set p.iterator (record c { pq = pq }))
    insert-Inserted p pq c h =
        let d = insert_in_pq system limits.ground_set p.iterator (record c { pq = pq }) in
        let (s, added, aux) =
          insert_in_pq-IsSame system limits.ground_set p.iterator (record c { pq = pq }) in
        record {
          same = s;
          fits = subst (λ x. Fits x d.aux) (sym s) (subst (Fits c.s) (sym aux) h.fits);
          within = λ v m. ap (mem v) s ∙ h.within v (ap (mem v) (sym added) ∙ m);
          kept = subst Keeps (sym s) h.kept;
        }

    Holds-pop :
        (p : CandIter) (pq : List CandIter) (c : Candidates Aux)
        → Holds (record c { pq = p ∷ pq })
        → (pop system limits.ground_set p (record c { pq = pq })).0 ≡ false
        → Holds (pop system limits.ground_set p (record c { pq = pq })).1
    unfolding pop
    Holds-pop p pq c h refused =
        let d = insert_in_pq system limits.ground_set p.iterator (record c { pq = pq }) in
        let ins = insert-Inserted p pq c h in
        let (fits, weighed, _) =
          can_really_add-Weighed limits.ground_set p.node d ins.fits ins.within in
        let (k, tracked) = h.tracked in
        let t =
          insert_in_pq-IsTracked system limits.ground_set k p pq c offers tracked
            (subst (λ s. Weighed system limits.ground_set s p.node) ins.same (weighed refused)) in
        record {
          fits = fits;
          within = ins.within;
          kept = ins.kept;
          tracked = (k, record { newest = t.newest; below = t.below; cover = t.cover });
        }

    Found-pop :
        (p : CandIter) (pq : List CandIter) (c : Candidates Aux)
        → Holds (record c { pq = p ∷ pq })
        → (pop system limits.ground_set p (record c { pq = pq })).0 ≡ true
        → Found p.level p.node (pop system limits.ground_set p (record c { pq = pq })).1
    unfolding pop
    Found-pop p pq c h accepted =
        let d = insert_in_pq system limits.ground_set p.iterator (record c { pq = pq }) in
        let ins = insert-Inserted p pq c h in
        let (fits, _, fitting) =
          can_really_add-Weighed limits.ground_set p.node d ins.fits ins.within in
        let (k, tracked) = h.tracked in
        record {
          fits = fits;
          within = ins.within;
          kept = ins.kept;
          below = insert_in_pq-below system limits.ground_set p pq c tracked.below;
          fitting = fitting accepted;
        }

    pub next-Found :
        (fuel : ℕ) (c : Candidates Aux) (r : Option (ℕ × ℕ) × Candidates Aux)
        → Holds c
        → next system limits.ground_set fuel c ≡ some r
        → Outcome system limits.ground_set Holds Found r.0 r.1
    next-Found = next_rule system limits.ground_set Holds Found Holds-pop Found-pop

    -- `Add` of a node of the solution.
    pub add-Holds :
        (v lv : ℕ) (c : Candidates Aux)
        → Fits c.s c.aux
        → Within c
        → Keeps c.s
        → Each (λ p. p.iterator < length c.info) c.pq
        → mem v c.s ≡ true
        → Holds (add system limits.ground_set v lv c)
    add-Holds v lv c fits within kept below member =
        let d = add system limits.ground_set v lv c in
        let (s, added, aux) = add-fields system limits.ground_set v lv c in
        record {
          fits = subst (λ x. Fits x d.aux) (sym s) (subst (Fits c.s) (sym aux) fits);
          within = λ w m. ap (mem w) s ∙ grown w (ap (mem w) (sym added) ∙ m);
          kept = subst Keeps (sym s) kept;
          tracked = (length c.info, add-IsTracked system limits.ground_set v lv c offers below);
        }
      where
        grown : (w : ℕ) → mem w (c.added_so_far ++ v ∷ []) ≡ true → mem w c.s ≡ true
        grown w m = elim (Bool-cases (mem w c.added_so_far)) [
          | inl old ↦ within w old
          | inr new ↦
              let e : w ≡ v = ground (arith, mem-append w c.added_so_far (v ∷ [])) in
              ap (λ x. mem x c.s) e ∙ member
        ]
