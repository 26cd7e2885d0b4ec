-- ===== src/Kplex/Branch/Cands.antt =====
-- The nodes that `GetCands` gives (enumerable/diam2kplex.hpp).
use parallel_enum.Base.{
  ℕ, ◌+◌, ◌≤◌, ◌≡◌, Bool, true, ◌&&◌, List, [], ◌∷◌, length, get_or, ◌==◌, ==_iff, arith, mem,
  occurrences, occurrences-eq-zero, Bool-cases, inl, inr, ltb, replicate, length-replicate,
}
use parallel_enum.Graph.{Graph}
use parallel_enum.Kplex.{Impl, Block, row, status_of, in_cand, is_empty}
use parallel_enum.Kplex.Branch.{
  find_universals, not_cut, cands_of, not_cuts, partly_far, best_pivot, real_cands, get_cands,
}
use parallel_enum.Kplex.Branch.Universal.{
  IsUniversal, find_universals-IsUniversal, occurrences-find_universals-le,
}
use parallel_enum.Kplex.Node.{IsNode}

module _ (g : Graph) (b : Block) (k : ℕ) (s : Impl) where
  mem-not_cut : (u a : ℕ) (vs : List ℕ) → mem a (not_cut g b k s u vs) ≡ true → mem a vs ≡ true
  unfolding not_cut
  mem-not_cut u a [] h = h
  mem-not_cut u a (v ∷ vs) h = ground (arith, mem-not_cut u a vs)

  mem-cands_of : (a : ℕ) (vs : List ℕ) → mem a (cands_of s vs) ≡ true → status_of s a ≡ in_cand
  unfolding cands_of
  mem-cands_of a [] h = absurd (cc)
  mem-cands_of a (v ∷ vs) h = elim (Bool-cases (status_of s v == in_cand)) [
    | inr other ↦ mem-cands_of a vs (ground arith)
    | inl marked ↦ elim (Bool-cases (a == v)) [
      | inl e ↦ rw ((==_iff a v).0 e) ((==_iff (status_of s v) in_cand).0 marked)
      | inr e ↦ mem-cands_of a vs (ground arith)
    ]
  ]

  mem-partly_far : (a : ℕ) (vs : List ℕ) → mem a (partly_far s vs) ≡ true → mem a vs ≡ true
  unfolding partly_far
  mem-partly_far a [] h = h
  mem-partly_far a (v ∷ vs) h = ground (arith, mem-partly_far a vs)

  mem-not_cuts :
      (u a : ℕ)
      → ((e : ℕ) → status_of s e ≡ in_cand → mem e s.cands ≡ true)
      → mem a (not_cuts g b k s u) ≡ true
      → mem a s.cands ≡ true
  unfolding not_cuts
  mem-not_cuts u a marked h = elim (Bool-cases (k == 1)) [
    | inl one ↦ marked a (mem-cands_of a (row b u) (ground arith))
    | inr more ↦ mem-not_cut u a s.cands (ground arith)
  ]

  mem-real_cands :
      (enable_pivoting : Bool) (a : ℕ)
      → ((e : ℕ) → status_of s e ≡ in_cand → mem e s.cands ≡ true)
      → mem a (real_cands g b k enable_pivoting s) ≡ true
      → mem a s.cands ≡ true
  unfolding real_cands
  mem-real_cands enable_pivoting a marked h =
      let pivot =
        (best_pivot g b k s s.excluded
          (best_pivot g b k s s.cands (get_or s.cands 0 0, length s.cands))).0 in
      elim (Bool-cases (enable_pivoting && ltb k (length s.kplex + 1))) [
        | inr small ↦ mem-partly_far a s.cands (ground arith)
        | inl full ↦ mem-not_cuts pivot a marked (ground arith)
      ]

module _ (sort : (ℕ → ℕ → Bool) → List ℕ → List ℕ)
    (sorts : (lt : ℕ → ℕ → Bool) (xs : List ℕ) (a : ℕ)
      → occurrences a (sort lt xs) ≡ occurrences a xs)
    (g : Graph) (b : Block) (k : ℕ) where
  abbrev n : ℕ
  n = length b.subgraph

  -- What `GetCands` gives are distinct universal candidates, or candidates.
  pub record Gives (s : Impl) (got : List ℕ × List ℕ) : Type 0 where
    pub universal : (u : ℕ) → mem u got.0 ≡ true → IsUniversal b s u
    pub once : (u : ℕ) → occurrences u got.0 ≤ 1
    pub from_cands : (c : ℕ) → mem c got.1 ≡ true → mem c s.cands ≡ true

  mem-sort : (lt : ℕ → ℕ → Bool) (xs : List ℕ) (a : ℕ) → mem a (sort lt xs) ≡ true → mem a xs ≡ true
  mem-sort lt xs a m =
      let same = sorts lt xs a in
      let left = occurrences-eq-zero a (sort lt xs) in
      let right = occurrences-eq-zero a xs in
      elim (Bool-cases (mem a xs)) [ inl y ↦ y | inr y ↦ absurd (ground arith) ]

  pub get_cands-Gives :
      (enable_pivoting : Bool) (s : Impl)
      → IsNode g b n k s
      → Gives s (get_cands sort g b k enable_pivoting s)
  unfolding get_cands
  get_cands-Gives enable_pivoting s node =
      let none : List ℕ = replicate n 0 in
      let found = find_universals b s s.cands none [] in
      let universal =
        find_universals-IsUniversal b s s.cands none []
          (λ u m. (m, rw (length-replicate {A = ℕ} n 0) (node.are_cands.within u m)))
          (λ u m. absurd (cc)) in
      let once : (u : ℕ) → occurrences u found.1 ≤ 1 = λ u.
        omega (
          arith,
          occurrences-find_universals-le b s s.cands none [] u,
          node.are_cands.distinct u,
        ) in
      elim (Bool-cases (is_empty s.cands)) [
        | inl h ↦ rw h (record {
          universal = λ u m. absurd (cc);
          once = λ u. omega arith;
          from_cands = λ c m. absurd (cc);
        })
        | inr h ↦ elim (Bool-cases (is_empty found.1)) [
          | inr some_found ↦
              rw (h, some_found)
                (record { universal = universal; once = once; from_cands = λ c m. absurd (cc) })
          | inl none_found ↦
              rw (h, none_found)
                (record {
                  universal = λ u m. absurd (cc);
                  once = λ u. omega arith;
                  from_cands = λ c m.
                      mem-real_cands g b k s enable_pivoting c node.are_cands.marked
                        (mem-sort _ _ c m);
                })
        ]
      ]
