-- ===== src/Commutable/Tracked.antt =====
-- The newest iterator of the candidates (enumerable/commutable.hpp): each node that it offers
-- waits in the queue, or has been weighed against the solution as it now is.
use parallel_enum.Base.{
  ℕ, suc, ◌+◌, ◌≤◌, ◌<◌, ◌≡◌, ◌≢◌, refl, sym, ◌∙◌, arith, true, false, List, [], ◌∷◌, ◌++◌, Option,
  none, some, ◌⊎◌, inl, inr, length, get_elem?, mem, Each, Bool-cases, Option-cases, length-set,
  ltb,
}
use parallel_enum.Commutable.{
  System, CandIter, Info, Candidates, emplace, offer, insert_info, complete_cand_num_all,
}
use parallel_enum.Commutable.Queue.{Each-emplace}
use parallel_enum.Commutable.Iterators.{
  queued, queued-emplace, get_elem?-set_self, get_elem?-set_ne, given_none,
}

module _ {Aux : Type 0} (system : System Aux) (ground_set : Option (List ℕ)) where
  -- The node that every iterator offers at an index.
  abbrev pub given : ℕ → Option ℕ
  given i = complete_cand_num_all system.graph_size ground_set 0 0 i

  -- `CompleteCandNum` is not overridden, or answers as if it were not.
  abbrev pub OffersAll : Type 0
  OffersAll =
      (owner iterator idx : ℕ) → system.complete_cand_num ground_set owner iterator idx ≡ given idx

  -- Each node offered before `idx` is weighed: it is one of `s`, or does not fit with `s`.
  abbrev pub Weighed : List ℕ → ℕ → Type 0
  Weighed s v = (mem v s ≡ true) ⊎ (system.is_good (s ++ v ∷ []) ≡ false)

  abbrev pub Pending : ℕ → Candidates Aux → ℕ → Type 0
  Pending k c idx =
      (j : ℕ) × (idx ≡ suc j)
      × (queued k c.pq ≡ 1)
      × Each (λ p. p.iterator ≡ k → given j ≡ some p.node) c.pq
      × ((i v : ℕ) → i < j → given i ≡ some v → Weighed c.s v)

  abbrev pub Exhausted : ℕ → Candidates Aux → Type 0
  Exhausted k c = (queued k c.pq ≡ 0) × ((i v : ℕ) → given i ≡ some v → Weighed c.s v)

  pub record IsTracked (k : ℕ) (c : Candidates Aux) : Type 0 where
    pub newest : suc k ≡ length c.info
    pub below : Each (λ p. p.iterator < length c.info) c.pq
    pub cover :
        (inf : Info) × (get_elem? c.info k ≡ some inf) × (Pending k c inf.idx ⊎ Exhausted k c)

  pub insert_info-below :
      (k : ℕ) (o : Option Info) (c : Candidates Aux)
      → k < length c.info
      → Each (λ p. p.iterator < length c.info) c.pq
      → (length (insert_info system ground_set o k c).info ≡ length c.info)
        × Each (λ p. p.iterator < length c.info) (insert_info system ground_set o k c).pq
  unfolding insert_info offer
  insert_info-below k none c h below = (refl, below)
  insert_info-below k (some inf) c h below =
      let same = length-set c.info k (record inf { idx = inf.idx + 1 }) in
      elim (Option-cases (system.complete_cand_num ground_set inf.owner k inf.idx)) [
        | inl e ↦ rw e (same, below)
        | inr (v, e) ↦ rw e (same, Each-emplace (λ p. p.iterator < length c.info) _ c.pq h below)
      ]

  -- An insertion for another iterator leaves the newest alone.
  pub insert_info-other :
      (k i : ℕ) (o : Option Info) (c : Candidates Aux) (inf : Info)
      → i ≢ k
      → get_elem? c.info k ≡ some inf
      → Pending k c inf.idx ⊎ Exhausted k c
      → (get_elem? (insert_info system ground_set o i c).info k ≡ some inf)
        × (Pending k (insert_info system ground_set o i c) inf.idx
            ⊎ Exhausted k (insert_info system ground_set o i c))
  unfolding insert_info offer
  insert_info-other k i none c inf ne here h = (here, h)
  insert_info-other k i (some old) c inf ne here h =
      let kept = get_elem?-set_ne c.info i k (record old { idx = old.idx + 1 }) ne ∙ here in
      elim (Option-cases (system.complete_cand_num ground_set old.owner i old.idx)) [
        | inl e ↦ rw e (kept, h)
        | inr (v, e) ↦
            let p : CandIter = record { level = old.owner_level + 1; node = v; iterator = i } in
            let same : queued k (emplace p c.pq) ≡ queued k c.pq =
              queued-emplace k p c.pq ∙ ground arith in
            rw e (
              kept,
              elim h [
                | inl (j, idx, one, nodes, weighed) ↦ inl (
                  j,
                  idx,
                  same ∙ one,
                  Each-emplace _ p c.pq (λ eq. absurd (ne eq)) nodes,
                  weighed,
                )
                | inr (none_left, weighed) ↦ inr (same ∙ none_left, weighed)
              ],
            )
      ]

  none_queued {κ} :
      (P : CandIter → Type κ) (k : ℕ) (pq : List CandIter)
      → queued k pq ≡ 0
      → Each (λ p. p.iterator ≡ k → P p) pq
  none_queued P k [] h = tt
  none_queued P k (p ∷ pq) h =
      (λ e. absurd (omega (arith, own k p pq h e)), none_queued P k pq (rest k p pq h))
    where
      own :
          (k : ℕ) (p : CandIter) (pq : List CandIter)
          → queued k (p ∷ pq) ≡ 0
          → p.iterator ≡ k
          → suc k ≤ k
      own k p pq h e = ground arith

      rest : (k : ℕ) (p : CandIter) (pq : List CandIter) → queued k (p ∷ pq) ≡ 0 → queued k pq ≡ 0
      rest k p pq h = ground arith

  -- An insertion for the newest iterator itself, of which no entry is in the queue.
  pub insert_info-own :
      (k : ℕ) (c : Candidates Aux) (inf : Info)
      → OffersAll
      → get_elem? c.info k ≡ some inf
      → queued k c.pq ≡ 0
      → ((i v : ℕ) → i < inf.idx → given i ≡ some v → Weighed c.s v)
      → (new : Info) × (get_elem? (insert_info system ground_set (some inf) k c).info k ≡ some new)
        × (Pending k (insert_info system ground_set (some inf) k c) new.idx
            ⊎ Exhausted k (insert_info system ground_set (some inf) k c))
  unfolding insert_info offer
  insert_info-own k c inf offers here zero_left weighed =
      let new : Info = record inf { idx = inf.idx + 1 } in
      let kept = get_elem?-set_self c.info k inf new here in
      elim (Option-cases (system.complete_cand_num ground_set inf.owner k inf.idx)) [
        | inl e ↦
            let past = sym (offers inf.owner k inf.idx) ∙ e in
            rw e (
              new,
              kept,
              inr (
                zero_left,
                λ i v g. elim (Bool-cases (ltb i inf.idx)) [
                  | inl lt ↦ weighed i v (ground arith) g
                  | inr ge ↦
                      let nothing =
                        given_none system.graph_size ground_set 0 0 inf.idx i (ground arith) past in
                      absurd (cc)
                ],
              ),
            )
        | inr (v, e) ↦
            let p : CandIter = record { level = inf.owner_level + 1; node = v; iterator = k } in
            let one : queued k (emplace p c.pq) ≡ 1 = queued-emplace k p c.pq ∙ ground arith in
            let nodes = none_queued (λ q. given inf.idx ≡ some q.node) k c.pq zero_left in
            rw e (
              new,
              kept,
              inl (
                inf.idx,
                omega arith,
                one,
                Each-emplace (λ q. q.iterator ≡ k → given inf.idx ≡ some q.node) p c.pq
                    (λ _. sym (offers inf.owner k inf.idx) ∙ e) nodes,
                weighed,
              ),
            )
      ]
