-- ===== src/Commutable/Queue.antt =====
-- What the queue of candidates keeps: `InsertInPQ`, `CanReallyAdd`, `Next` and `Add` of
-- enumerable/commutable.hpp.
use parallel_enum.Base.{
  ℕ, zero, suc, ◌+◌, ◌-◌, ◌≤◌, ◌<◌, ◌≡◌, refl, arith, true, false, List, [], ◌∷◌, ◌++◌, Option,
  none, some, inl, inr, length, set, get_elem?, mem, Each, Bool-cases, Option-cases,
}
use parallel_enum.Commutable.{
  System, CandIter, Info, Candidates, before, emplace, offer, insert_info, insert_in_pq,
  can_really_add,
}

pub length-emplace : (p : CandIter) (pq : List CandIter) → length (emplace p pq) ≡ suc (length pq)
unfolding emplace
length-emplace p [] = refl
length-emplace p (q ∷ pq) = ground (arith, length-emplace p pq)

pub Each-emplace {κ} :
    (P : CandIter → Type κ) (p : CandIter) (pq : List CandIter)
    → P p
    → Each P pq
    → Each P (emplace p pq)
unfolding emplace
Each-emplace P p [] h hs = (h, tt)
Each-emplace P p (q ∷ pq) h hs = elim (Bool-cases (before q p)) [
  | inl e ↦ rw e (hs.0, Each-emplace P p pq h hs.1)
  | inr e ↦ rw e (h, hs)
]

-- The rounds that the iterators have left, when each ends after at most `bound` of them.
abbrev pub rounds_left : ℕ → List Info → ℕ
rounds_left bound [] = 0
rounds_left bound (inf ∷ info) = (bound - inf.idx) + rounds_left bound info

rounds_left-set :
    (bound k : ℕ) (info : List Info) (inf new : Info)
    → get_elem? info k ≡ some inf
    → rounds_left bound (set info k new) + (bound - inf.idx)
      ≡ rounds_left bound info + (bound - new.idx)
rounds_left-set bound k [] inf new e = absurd (cc)
rounds_left-set bound zero (old ∷ info) inf new e =
    let same : old ≡ inf = cc in rw same (omega arith)
rounds_left-set bound (suc k) (old ∷ info) inf new e =
    omega (arith, rounds_left-set bound k info inf new e)

pub rounds_left-append :
    (bound : ℕ) (info : List Info) (new : Info)
    → rounds_left bound (info ++ new ∷ []) ≡ rounds_left bound info + (bound - new.idx)
rounds_left-append bound [] new = omega arith
rounds_left-append bound (inf ∷ info) new = omega (arith, rounds_left-append bound info new)

-- What `InsertInPQ` leaves alone.
abbrev pub IsSame : {Aux : Type 0} → Candidates Aux → Candidates Aux → Type 0
IsSame c d = (d.s ≡ c.s) × (d.added_so_far ≡ c.added_so_far) × (d.aux ≡ c.aux)

-- All that the queue and its iterators have left to give.
abbrev pub left : {Aux : Type 0} → ℕ → Candidates Aux → ℕ
left bound c = rounds_left bound c.info + length c.pq

abbrev pub IsBelow : {Aux : Type 0} → ℕ → Candidates Aux → Type 0
IsBelow size c = Each (λ p. p.node < size) c.pq

module _ {Aux : Type 0} (system : System Aux) (ground_set : Option (List ℕ)) where
  -- The calls of `CompleteCandNum` end after `bound` answers, and answer with nodes below `size`.
  abbrev pub IsBounded : ℕ → ℕ → Type 0
  IsBounded bound size =
      (owner iterator idx v : ℕ)
      → system.complete_cand_num ground_set owner iterator idx ≡ some v
      → (idx < bound) × (v < size)

  insert_info-IsSame :
      (k : ℕ) (o : Option Info) (c : Candidates Aux)
      → IsSame c (insert_info system ground_set o k c)
  unfolding insert_info offer
  insert_info-IsSame k none c = (refl, refl, refl)
  insert_info-IsSame k (some inf) c =
      elim (Option-cases (system.complete_cand_num ground_set inf.owner k inf.idx)) [
        | inl e ↦ rw e (refl, refl, refl)
        | inr (v, e) ↦ rw e (refl, refl, refl)
      ]

  pub insert_in_pq-IsSame :
      (k : ℕ) (c : Candidates Aux) → IsSame c (insert_in_pq system ground_set k c)
  unfolding insert_in_pq
  insert_in_pq-IsSame k c = insert_info-IsSame k (get_elem? c.info k) c

  insert_info-left :
      (bound size k : ℕ) (o : Option Info) (c : Candidates Aux)
      → IsBounded bound size
      → get_elem? c.info k ≡ o
      → IsBelow size c
      → (left bound (insert_info system ground_set o k c) ≤ left bound c)
        × IsBelow size (insert_info system ground_set o k c)
  unfolding insert_info offer
  insert_info-left bound size k none c laws here low = (omega arith, low)
  insert_info-left bound size k (some inf) c laws here low =
      let new : Info = record inf { idx = inf.idx + 1 } in
      let step = rounds_left-set bound k c.info inf new here in
      elim (Option-cases (system.complete_cand_num ground_set inf.owner k inf.idx)) [
        | inl e ↦ rw e (omega (arith, step), low)
        | inr (v, e) ↦
            let p : CandIter = record { level = inf.owner_level + 1; node = v; iterator = k } in
            let ok = laws inf.owner k inf.idx v e in
            rw e (
              omega (arith, step, ok.0, length-emplace p c.pq),
              Each-emplace (λ q. q.node < size) p c.pq ok.1 low,
            )
      ]

  pub insert_in_pq-left :
      (bound size k : ℕ) (c : Candidates Aux)
      → IsBounded bound size
      → IsBelow size c
      → (left bound (insert_in_pq system ground_set k c) ≤ left bound c)
        × IsBelow size (insert_in_pq system ground_set k c)
  unfolding insert_in_pq
  insert_in_pq-left bound size k c laws low =
      insert_info-left bound size k (get_elem? c.info k) c laws refl low

  -- What `Next` returns a node for: it is new, and is in the solution or can be added to it.
  pub can_really_add_new :
      (v : ℕ) (c : Candidates Aux)
      → (can_really_add system ground_set v c).0 ≡ true
      → mem v c.added_so_far ≡ false
  unfolding can_really_add
  can_really_add_new v c h = ground arith
