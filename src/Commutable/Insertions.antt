-- ===== src/Commutable/Insertions.antt =====
-- An insertion in the queue of candidates (enumerable/commutable.hpp) keeps what is known of the
-- newest iterator.
use parallel_enum.Base.{
  ℕ, suc, ◌<◌, ◌≡◌, refl, sym, ap, ◌∙◌, subst, arith, true, false, List, [], ◌∷◌, ◌++◌, Option,
  some, ◌⊎◌, inl, inr, ◌==◌, length, get_elem?, Each, Bool-cases, length-append, ltb,
}
use parallel_enum.Commutable.{System, CandIter, Info, Candidates, insert_info, insert_in_pq, add}
use parallel_enum.Commutable.Iterators.{queued, queued-below, Each-raise, get_elem?-last}
use parallel_enum.Commutable.Tracked.{
  given, OffersAll, Weighed, Pending, Exhausted, IsTracked, insert_info-below, insert_info-other,
  insert_info-own,
}

module _ {Aux : Type 0} (system : System Aux) (ground_set : Option (List ℕ)) where
  -- The state of the newest iterator, at the index `idx`.
  abbrev pub State : ℕ → Candidates Aux → ℕ → Type 0
  State k c idx = Pending system ground_set k c idx ⊎ Exhausted system ground_set k c

  State-other :
      (k : ℕ) (p : CandIter) (pq : List CandIter) (c : Candidates Aux) (idx : ℕ)
      → (p.iterator == k) ≡ false
      → State k (record c { pq = p ∷ pq }) idx
      → State k (record c { pq = pq }) idx
  State-other k p pq c idx ne (inl (j, e, one, nodes, weighed)) =
      inl (j, e, ground arith, nodes.1, weighed)
  State-other k p pq c idx ne (inr (zero_left, weighed)) = inr (ground arith, weighed)

  State-own :
      (k : ℕ) (p : CandIter) (pq : List CandIter) (c : Candidates Aux) (idx : ℕ)
      → (p.iterator == k) ≡ true
      → Weighed system ground_set c.s p.node
      → State k (record c { pq = p ∷ pq }) idx
      → (queued k pq ≡ 0)
        × ((i v : ℕ)
            → i < idx
            → given system ground_set i ≡ some v
            → Weighed system ground_set c.s v)
  State-own k p pq c idx same w (inl (j, e, one, nodes, weighed)) = (
    ground arith,
    λ i v lt g. elim (Bool-cases (ltb i j)) [
      | inl earlier ↦ weighed i v (ground arith) g
      | inr late ↦
          let eq : i ≡ j = ground arith in
          let node : p.node ≡ v =
            some_inj (sym (nodes.0 (ground arith)) ∙ ap (given system ground_set) (sym eq) ∙ g) in
          subst (Weighed system ground_set c.s) node w
    ],
  )
    where
      some_inj : {a b : ℕ} → some a ≡ some b → a ≡ b
      some_inj h = cc
  State-own k p pq c idx same w (inr (zero_left, weighed)) = absurd (ground arith)

  -- An insertion that follows the removal of `p` from the queue.
  abbrev Covers : ℕ → Candidates Aux → Type 0
  Covers k c = (inf : Info) × (get_elem? c.info k ≡ some inf) × State k c inf.idx

  Covers-own :
      (k i : ℕ) (c : Candidates Aux) (inf : Info)
      → i ≡ k
      → OffersAll system ground_set
      → get_elem? c.info k ≡ some inf
      → (queued k c.pq ≡ 0)
        × ((i v : ℕ)
            → i < inf.idx
            → given system ground_set i ≡ some v
            → Weighed system ground_set c.s v)
      → Covers k (insert_info system ground_set (get_elem? c.info i) i c)
  Covers-own k i c inf e offers here h =
      subst (λ n. Covers k (insert_info system ground_set (get_elem? c.info n) n c)) (sym e)
        (subst (λ o. Covers k (insert_info system ground_set o k c)) (sym here)
          (insert_info-own system ground_set k c inf offers here h.0 h.1))

  pub insert_in_pq-IsTracked :
      (k : ℕ) (p : CandIter) (pq : List CandIter) (c : Candidates Aux)
      → OffersAll system ground_set
      → IsTracked system ground_set k (record c { pq = p ∷ pq })
      → Weighed system ground_set c.s p.node
      → IsTracked system ground_set k
          (insert_in_pq system ground_set p.iterator (record c { pq = pq }))
  unfolding insert_in_pq
  insert_in_pq-IsTracked k p pq c offers h weighed =
      let d : Candidates Aux = record c { pq = pq } in
      let (size, low) =
        insert_info-below system ground_set p.iterator (get_elem? c.info p.iterator) d h.below.0
          h.below.1 in
      let (inf, here, state) = h.cover in
      record {
        newest = h.newest ∙ sym size;
        below =
            subst (λ n. Each (λ q. q.iterator < n) (insert_in_pq system ground_set p.iterator d).pq)
              (sym size) low;
        cover = elim (Bool-cases (p.iterator == k)) [
          | inl same ↦
              Covers-own k p.iterator d inf (ground arith) offers here
                (State-own k p pq c inf.idx same weighed state)
          | inr other ↦
              let (here', state') =
                insert_info-other system ground_set k p.iterator (get_elem? c.info p.iterator) d inf
                  (ground arith) here (State-other k p pq c inf.idx other state) in
              (inf, here', state')
        ];
      }

  pub insert_in_pq-below :
      (p : CandIter) (pq : List CandIter) (c : Candidates Aux)
      → Each (λ q. q.iterator < length c.info) (p ∷ pq)
      → Each
          (λ q.
            q.iterator
            < length (insert_in_pq system ground_set p.iterator (record c { pq = pq })).info)
          (insert_in_pq system ground_set p.iterator (record c { pq = pq })).pq
  unfolding insert_in_pq
  insert_in_pq-below p pq c h =
      let d : Candidates Aux = record c { pq = pq } in
      let (size, low) =
        insert_info-below system ground_set p.iterator (get_elem? c.info p.iterator) d h.0 h.1 in
      subst (λ n. Each (λ q. q.iterator < n) (insert_in_pq system ground_set p.iterator d).pq)
        (sym size) low

  -- The iterator that `Add` starts.
  pub add-IsTracked :
      (v lv : ℕ) (c : Candidates Aux)
      → OffersAll system ground_set
      → Each (λ p. p.iterator < length c.info) c.pq
      → IsTracked system ground_set (length c.info) (add system ground_set v lv c)
  unfolding add insert_in_pq
  add-IsTracked v lv c offers low =
      let new : Info = record { idx = 0; owner = v; owner_level = lv } in
      let k = length c.info in
      let d : Candidates Aux = record c {
        added_so_far = c.added_so_far ++ v ∷ [];
        info = c.info ++ new ∷ [];
      } in
      let longer : suc k ≡ length (c.info ++ new ∷ []) =
        omega (arith, length-append c.info (new ∷ [])) in
      let (size, low') =
        insert_info-below system ground_set k (get_elem? d.info k) d (omega (arith, longer))
          (subst (λ n. Each (λ p. p.iterator < n) c.pq) longer (Each-raise k c.pq low)) in
      record {
        newest = longer ∙ sym size;
        below =
            subst (λ n. Each (λ q. q.iterator < n) (insert_in_pq system ground_set k d).pq)
              (sym size) low';
        cover =
            Covers-own k k d new refl offers (get_elem?-last c.info new)
              (queued-below k c.pq low, λ i v lt g. absurd (omega arith));
      }
