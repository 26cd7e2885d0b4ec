-- ===== src/Commutable/Connected/Closed.antt =====
-- What `CHSystem::Resort` of enumerable/connected_hereditary.hpp returns: it ends, the seed stands
-- first, and the result is closed under neighbours within the solution.
use parallel_enum.Base.{
  ℕ, zero, suc, ◌+◌, ◌≤◌, ◌≡◌, refl, sym, ap, ◌∙◌, subst, arith, Bool, true, false, List, [], ◌∷◌,
  ◌++◌, some, ◌⊎◌, inl, inr, length, get_or, set, mem, replicate, mem-append, Bool-cases, lt→ltb,
  length-append, length-set, length-replicate,
}
use parallel_enum.Commutable.Offspring.{index_of}
use parallel_enum.Commutable.Connected.{Entry, visit_from, sort_from, resort}
use parallel_enum.Commutable.Connected.Resort.{
  marked, waits, unseen, entries, visit_from-unseen, visit_from-length, visit_from-marks,
  visit_from-keeps, index_of-lt, unseen-first, marked-first,
}

module _ (is_neigh : ℕ → ℕ → Bool) where
  sort_from_ends :
      (fuel : ℕ) (s : List ℕ) (visited : List Bool) (q : List Entry) (sorted level : List ℕ)
      → entries q + unseen visited ≤ fuel
      → (r : List ℕ × List ℕ) × (sort_from is_neigh fuel s visited q sorted level ≡ some r)
  unfolding sort_from
  sort_from_ends fuel s visited [] sorted level h = (_, refl)
  sort_from_ends zero s visited (p ∷ q) sorted level h = absurd (omega arith)
  sort_from_ends (suc fuel) s visited (p ∷ q) sorted level h =
      sort_from_ends fuel s (visit_from is_neigh p.node p.level s visited q).0
        (visit_from is_neigh p.node p.level s visited q).1 (sorted ++ p.node ∷ [])
        (level ++ p.level ∷ [])
        (omega (arith, visit_from-unseen is_neigh p.node p.level s visited q))

  sort_from-front :
      (fuel : ℕ) (s : List ℕ) (visited : List Bool) (q : List Entry) (x : ℕ) (sorted level : List ℕ)
      (r : List ℕ × List ℕ)
      → length level ≡ suc (length sorted)
      → sort_from is_neigh fuel s visited q (x ∷ sorted) level ≡ some r
      → (get_or r.0 0 0 ≡ x) × (length r.1 ≡ length r.0)
  unfolding sort_from
  sort_from-front fuel s visited [] x sorted level r n e = ground arith
  sort_from-front zero s visited (p ∷ q) x sorted level r n e = absurd (cc)
  sort_from-front (suc fuel) s visited (p ∷ q) x sorted level r n e =
      sort_from-front fuel s (visit_from is_neigh p.node p.level s visited q).0
        (visit_from is_neigh p.node p.level s visited q).1 x (sorted ++ p.node ∷ [])
        (level ++ p.level ∷ []) r
        (omega (arith, n, length-append level (p.level ∷ []), length-append sorted (p.node ∷ []))) e

  record Inv (s : List ℕ) (visited : List Bool) (q : List Entry) (sorted : List ℕ) : Type 0 where
    size : length visited ≡ length s
    listed : (v : ℕ) → (marked v s visited ≡ false) ⊎ (mem v sorted ≡ true) ⊎ (waits v q ≡ true)
    waiting : (v : ℕ) → (waits v q ≡ false) ⊎ (marked v s visited ≡ true)
    taken : (v : ℕ) → (mem v sorted ≡ false) ⊎ (marked v s visited ≡ true)
    closed :
        (x y : ℕ)
        → mem x sorted ≡ true
        → mem y s ≡ true
        → is_neigh x y ≡ true
        → marked y s visited ≡ true

  Inv-visit :
      (s : List ℕ) (visited : List Bool) (p : Entry) (q : List Entry) (sorted : List ℕ)
      → Inv s visited (p ∷ q) sorted
      → Inv s
          (visit_from is_neigh p.node p.level s visited q).0
          (visit_from is_neigh p.node p.level s visited q).1
          (sorted ++ p.node ∷ [])
  Inv-visit s visited p q sorted h = record {
    size = visit_from-length is_neigh p.node p.level s visited q ∙ h.size;
    listed = λ v. ground (
      arith,
      visit_from-keeps is_neigh p.node p.level v s visited q,
      h.listed v,
      mem-append v sorted (p.node ∷ []),
    );
    waiting =
        λ v. ground (arith, visit_from-keeps is_neigh p.node p.level v s visited q, h.waiting v);
    taken = λ v. ground (
      arith,
      visit_from-keeps is_neigh p.node p.level v s visited q,
      h.waiting v,
      h.taken v,
      mem-append v sorted (p.node ∷ []),
    );
    closed = λ x y m my near. elim (Bool-cases (mem x sorted)) [
      | inl old ↦
          ground (
            arith,
            visit_from-keeps is_neigh p.node p.level y s visited q,
            h.closed x y old my near,
          )
      | inr new ↦
          let e : x ≡ p.node = ground (arith, mem-append x sorted (p.node ∷ [])) in
          visit_from-marks is_neigh p.node p.level y s visited q h.size my
            (ap (λ a. is_neigh a y) (sym e) ∙ near)
    ];
  }

  Inv-start :
      (s : List ℕ) (seed : ℕ)
      → mem seed s ≡ true
      → Inv s
          (set (replicate (length s) false) (index_of seed s) true)
          (record { level = 0; node = seed } ∷ [])
          []
  Inv-start s seed h = record {
    size =
        length-set (replicate (length s) false) (index_of seed s) true
        ∙ length-replicate (length s) false;
    listed = λ v. ground (arith, marked-first v seed s h);
    waiting = λ v. ground (arith, marked-first v seed s h);
    taken = λ v. inl refl;
    closed = λ x y m my near. absurd (cc);
  }

  marked_mem :
      (v : ℕ) (s : List ℕ) (visited : List Bool) → marked v s visited ≡ true → mem v s ≡ true
  marked_mem v [] visited h = absurd (cc)
  marked_mem v (x ∷ s) [] h = absurd (cc)
  marked_mem v (x ∷ s) (seen ∷ visited) h = ground (arith, marked_mem v s visited)

  -- At the end nothing waits, so that what is marked is what is sorted.
  abbrev IsClosed : List ℕ → List ℕ → Type 0
  IsClosed s sorted =
      (x y : ℕ)
      → mem x sorted ≡ true
      → mem y s ≡ true
      → (mem x s ≡ true) × ((is_neigh x y ≡ false) ⊎ (mem y sorted ≡ true))

  Inv-end :
      (s : List ℕ) (visited : List Bool) (sorted : List ℕ)
      → Inv s visited [] sorted
      → IsClosed s sorted
  Inv-end s visited sorted h x y mx my = (
    marked_mem x s visited (ground (arith, h.taken x)),
    elim (Bool-cases (is_neigh x y)) [
      | inl near ↦ inr (ground (arith, h.closed x y mx my near, h.listed y))
      | inr far ↦ inl far
    ],
  )

  sort_from-IsClosed :
      (fuel : ℕ) (s : List ℕ) (visited : List Bool) (q : List Entry) (sorted level : List ℕ)
      (r : List ℕ × List ℕ)
      → Inv s visited q sorted
      → sort_from is_neigh fuel s visited q sorted level ≡ some r
      → IsClosed s r.0
  unfolding sort_from
  sort_from-IsClosed fuel s visited [] sorted level r h e =
      let same : sorted ≡ r.0 = ground arith in subst (IsClosed s) same (Inv-end s visited sorted h)
  sort_from-IsClosed zero s visited (p ∷ q) sorted level r h e = absurd (cc)
  sort_from-IsClosed (suc fuel) s visited (p ∷ q) sorted level r h e =
      sort_from-IsClosed fuel s (visit_from is_neigh p.node p.level s visited q).0
        (visit_from is_neigh p.node p.level s visited q).1 (sorted ++ p.node ∷ [])
        (level ++ p.level ∷ []) r (Inv-visit s visited p q sorted h) e

  resort_run :
      (s level : List ℕ) (seed : ℕ)
      → mem seed s ≡ true
      → resort is_neigh s level seed
        ≡ sort_from is_neigh
            (length s)
            s
            (set (replicate (length s) false) (index_of seed s) true)
            (record { level = 0; node = seed } ∷ [])
            []
            []
  unfolding resort
  resort_run s level seed h = rw (lt→ltb (index_of seed s) (length s) (index_of-lt seed s h)) refl

  sort_from_first :
      (fuel : ℕ) (s : List ℕ) (visited : List Bool) (seed : ℕ) (r : List ℕ × List ℕ)
      → sort_from is_neigh fuel s visited (record { level = 0; node = seed } ∷ []) [] [] ≡ some r
      → (get_or r.0 0 0 ≡ seed) × (length r.1 ≡ length r.0)
  unfolding sort_from
  sort_from_first zero s visited seed r e = absurd (cc)
  sort_from_first (suc fuel) s visited seed r e =
      sort_from-front fuel s (visit_from is_neigh seed 0 s visited []).0
        (visit_from is_neigh seed 0 s visited []).1 seed [] (0 ∷ []) r (omega arith) e

  -- `Resort` of a `CHSystem` with a seed of the solution ends within as many rounds as the solution
  -- has elements; the result starts with the seed and has one level for each element.
  pub resort_total :
      (s level : List ℕ) (seed : ℕ)
      → mem seed s ≡ true
      → (r : List ℕ × List ℕ) × (resort is_neigh s level seed ≡ some r)
        × (get_or r.0 0 0 ≡ seed)
        × (length r.1 ≡ length r.0)
  resort_total s level seed h =
      let (r, e) =
        sort_from_ends (length s) s (set (replicate (length s) false) (index_of seed s) true)
          (record { level = 0; node = seed } ∷ []) [] []
          (omega (arith, unseen-first (length s) (index_of seed s) (index_of-lt seed s h))) in
      let ends =
        sort_from_first (length s) s (set (replicate (length s) false) (index_of seed s) true) seed
          r e in
      (r, resort_run s level seed h ∙ e, ends.0, ends.1)

  -- `Resort` of a `CHSystem` with a seed of the solution returns elements of the solution only, and
  -- with an element each neighbour of it in the solution.
  pub resort-IsClosed :
      (s level : List ℕ) (seed : ℕ) (r : List ℕ × List ℕ) (x y : ℕ)
      → mem seed s ≡ true
      → resort is_neigh s level seed ≡ some r
      → mem x r.0 ≡ true
      → mem y s ≡ true
      → (mem x s ≡ true) × ((is_neigh x y ≡ false) ⊎ (mem y r.0 ≡ true))
  resort-IsClosed s level seed r x y h e =
      sort_from-IsClosed (length s) s (set (replicate (length s) false) (index_of seed s) true)
        (record { level = 0; node = seed } ∷ []) [] [] r (Inv-start s seed h)
        (sym (resort_run s level seed h) ∙ e) x y
