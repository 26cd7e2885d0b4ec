-- ===== src/Commutable/Next.antt =====
-- The loop of `Candidates::Next` (enumerable/commutable.hpp): a rule for what it keeps, and that it
-- ends.
use parallel_enum.Base.{
  ℕ, zero, suc, ◌+◌, ◌≤◌, ◌<◌, ◌≡◌, refl, arith, true, false, List, [], ◌∷◌, Option, none, some,
  inl, inr, length, Bool-cases, mem, sym, subst, ◌++◌, ap, ◌∙◌,
}
use parallel_enum.Commutable.{
  System, CandIter, Info, Candidates, insert_in_pq, pop, next_in, next, add,
}
use parallel_enum.Commutable.Queue.{
  IsBounded, left, IsBelow, insert_in_pq-IsSame, insert_in_pq-left, can_really_add_new,
  rounds_left-append,
}

module _ {Aux : Type 0} (system : System Aux) (ground_set : Option (List ℕ)) where
  -- `P` at the end of the queue, or `Q` of the level and the node that are returned.
  abbrev pub Outcome :
      (P : Candidates Aux → Type 0) (Q : ℕ → ℕ → Candidates Aux → Type 0)
      → Option (ℕ × ℕ)
      → Candidates Aux
      → Type 0
  Outcome P Q none c = P c × (c.pq ≡ [])
  Outcome P Q (some (lv, v)) c = Q lv v c

  module _ (P : Candidates Aux → Type 0) (Q : ℕ → ℕ → Candidates Aux → Type 0)
      (keep : (p : CandIter) (pq : List CandIter) (c : Candidates Aux)
        → P (record c { pq = p ∷ pq })
        → (pop system ground_set p (record c { pq = pq })).0 ≡ false
        → P (pop system ground_set p (record c { pq = pq })).1)
      (hit : (p : CandIter) (pq : List CandIter) (c : Candidates Aux)
        → P (record c { pq = p ∷ pq })
        → (pop system ground_set p (record c { pq = pq })).0 ≡ true
        → Q p.level p.node (pop system ground_set p (record c { pq = pq })).1) where
    next_in_rule :
        (fuel : ℕ) (pq : List CandIter) (c : Candidates Aux) (r : Option (ℕ × ℕ) × Candidates Aux)
        → P (record c { pq = pq })
        → next_in system ground_set fuel pq c ≡ some r
        → Outcome P Q r.0 r.1
    unfolding next_in
    next_in_rule fuel [] c r h e =
        let same : (none, record c { pq = [] }) ≡ r = cc in
        subst (λ (t : Option (ℕ × ℕ) × Candidates Aux). Outcome P Q t.0 t.1) same (h, refl)
    next_in_rule zero (p ∷ pq) c r h e = absurd (cc)
    next_in_rule (suc fuel) (p ∷ pq) c r h e =
        let (found, d) = pop system ground_set p (record c { pq = pq }) in
        elim (Bool-cases (pop system ground_set p (record c { pq = pq })).0) [
          | inl took ↦
              let same : (
                some (p.level, p.node),
                (pop system ground_set p (record c { pq = pq })).1,
              )
                  ≡ r =
                ground arith in
              subst (λ (t : Option (ℕ × ℕ) × Candidates Aux). Outcome P Q t.0 t.1) same
                (hit p pq c h took)
          | inr left_out ↦
              next_in_rule fuel ((pop system ground_set p (record c { pq = pq })).1).pq
                ((pop system ground_set p (record c { pq = pq })).1) r (keep p pq c h left_out)
                (ground arith)
        ]

    pub next_rule :
        (fuel : ℕ) (c : Candidates Aux) (r : Option (ℕ × ℕ) × Candidates Aux)
        → P c
        → next system ground_set fuel c ≡ some r
        → Outcome P Q r.0 r.1
    unfolding next
    next_rule fuel c r h e = next_in_rule fuel c.pq c r h e

  module _ (bound size : ℕ) (laws : IsBounded system ground_set bound size) where
    pop-left :
        (p : CandIter) (pq : List CandIter) (c : Candidates Aux)
        → IsBelow size (record c { pq = p ∷ pq })
        → (left bound (pop system ground_set p (record c { pq = pq })).1
            < left bound (record c { pq = p ∷ pq }))
          × IsBelow size (pop system ground_set p (record c { pq = pq })).1
    unfolding pop
    pop-left p pq c low =
        let (le, kept) =
          insert_in_pq-left system ground_set bound size p.iterator (record c { pq = pq }) laws
            low.1 in
        (omega (arith, le), kept)

    next_in_ends :
        (fuel : ℕ) (pq : List CandIter) (c : Candidates Aux)
        → left bound (record c { pq = pq }) ≤ fuel
        → IsBelow size (record c { pq = pq })
        → (r : Option (ℕ × ℕ) × Candidates Aux) × (next_in system ground_set fuel pq c ≡ some r)
    unfolding next_in
    next_in_ends fuel [] c h low = (_, refl)
    next_in_ends zero (p ∷ pq) c h low = absurd (omega arith)
    next_in_ends (suc fuel) (p ∷ pq) c h low =
        let d = pop system ground_set p (record c { pq = pq }) in
        let (less, kept) = pop-left p pq c low in
        let (r, e) = next_in_ends fuel d.1.pq d.1 (omega (arith, less, h)) kept in
        elim (Bool-cases d.0) [
          | inl took ↦ ((some (p.level, p.node), d.1), rw took refl)
          | inr left_out ↦ (r, rw left_out e)
        ]

    pub next_ends :
        (fuel : ℕ) (c : Candidates Aux)
        → left bound c ≤ fuel
        → IsBelow size c
        → (r : Option (ℕ × ℕ) × Candidates Aux) × (next system ground_set fuel c ≡ some r)
    unfolding next
    next_ends fuel c h low = next_in_ends fuel c.pq c h low

    -- What holds of the candidates `c` that became `d` within `Next`.
    pub record Kept (c d : Candidates Aux) : Type 0 where
      pub same_s : d.s ≡ c.s
      pub same_added : d.added_so_far ≡ c.added_so_far
      pub less : left bound d ≤ left bound c
      pub low : IsBelow size d

    pub record Took (c : Candidates Aux) (lv v : ℕ) (d : Candidates Aux) : Type 0 where
      pub kept : Kept c d
      pub fewer : left bound d < left bound c
      pub in_size : v < size
      pub fresh : mem v c.added_so_far ≡ false

    Kept-pop :
        (c : Candidates Aux) (p : CandIter) (pq : List CandIter) (d : Candidates Aux)
        → Kept c (record d { pq = p ∷ pq })
        → Kept c (pop system ground_set p (record d { pq = pq })).1
          × (left bound (pop system ground_set p (record d { pq = pq })).1 < left bound c)
    unfolding pop
    Kept-pop c p pq d h =
        let same = insert_in_pq-IsSame system ground_set p.iterator (record d { pq = pq }) in
        let (less, low) = pop-left p pq d h.low in
        (
          record {
            same_s = same.0 ∙ h.same_s;
            same_added = same.1 ∙ h.same_added;
            less = omega (arith, less, h.less);
            low = low;
          },
          omega (arith, less, h.less),
        )

    Took-pop :
        (c : Candidates Aux) (p : CandIter) (pq : List CandIter) (d : Candidates Aux)
        → Kept c (record d { pq = p ∷ pq })
        → (pop system ground_set p (record d { pq = pq })).0 ≡ true
        → Took c p.level p.node (pop system ground_set p (record d { pq = pq })).1
    unfolding pop
    Took-pop c p pq d h took =
        let (kept, fewer) = Kept-pop c p pq d h in
        let same = insert_in_pq-IsSame system ground_set p.iterator (record d { pq = pq }) in
        let new =
          can_really_add_new system ground_set p.node
            (insert_in_pq system ground_set p.iterator (record d { pq = pq })) took in
        record {
          kept = kept;
          fewer = fewer;
          in_size = h.low.0;
          fresh = ap (mem p.node) (sym (same.1 ∙ h.same_added)) ∙ new;
        }

    pub next-Outcome :
        (fuel : ℕ) (c : Candidates Aux) (r : Option (ℕ × ℕ) × Candidates Aux)
        → IsBelow size c
        → next system ground_set fuel c ≡ some r
        → Outcome (Kept c) (Took c) r.0 r.1
    next-Outcome fuel c r low e =
        next_rule (Kept c) (Took c) (λ p pq d h _. (Kept-pop c p pq d h).0) (Took-pop c) fuel c r
          (record { same_s = refl; same_added = refl; less = omega arith; low = low }) e

    pub add-left :
        (v lv : ℕ) (c : Candidates Aux)
        → IsBelow size c
        → (left bound (add system ground_set v lv c) ≤ left bound c + bound)
          × IsBelow size (add system ground_set v lv c)
    unfolding add
    add-left v lv c low =
        let new : Info = record { idx = 0; owner = v; owner_level = lv } in
        let (le, kept) =
          insert_in_pq-left system ground_set bound size (length c.info)
            (record c { added_so_far = c.added_so_far ++ v ∷ []; info = c.info ++ new ∷ [] }) laws
            low in
        (omega (arith, le, rounds_left-append bound c.info new), kept)

  pub add-fields :
      (v lv : ℕ) (c : Candidates Aux)
      → ((add system ground_set v lv c).s ≡ c.s)
        × ((add system ground_set v lv c).added_so_far ≡ c.added_so_far ++ v ∷ [])
        × ((add system ground_set v lv c).aux ≡ c.aux)
  unfolding add
  add-fields v lv c = insert_in_pq-IsSame system ground_set (length c.info) _
