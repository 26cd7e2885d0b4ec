-- ===== src/Clique/Complete.antt =====
-- `CompleteFwd` extends a clique to a maximal one (enumerable/clique.hpp).
use parallel_enum.Base.{
  ℕ, ◌≤◌, ◌≡◌, ◌≢◌, ◌↔◌, refl, true, false, List, [], ◌∷◌, ◌++◌, arith, mem, occurrences, ◌==◌,
  mem-append, occurrences-append, occurrences-eq-zero, Bool-cases, inl, inr, if◌then◌else◌,
}
use parallel_enum.Graph.{Graph, IsGraph}
use parallel_enum.Clique.{adjacent_to_all, complete_loop}

module _ (g : Graph) where
  -- Distinct nodes, any two of them neighbours.
  pub record IsClique (c : List ℕ) : Type 0 where
    pub adjacent : (a b : ℕ) → mem a c ≡ true → mem b c ≡ true → a ≢ b → g.are_neighs a b ≡ true
    pub distinct : (a : ℕ) → occurrences a c ≤ 1

  -- A clique to which no node can be added.
  pub record IsMaximalClique (c : List ℕ) : Type 0 where
    pub nonempty : c ≢ []
    pub is_clique : IsClique c
    pub maximal : (w : ℕ) → ¬ ((a : ℕ) → mem a c ≡ true → g.are_neighs w a ≡ true)

  pub adjacent_to_all_iff :
      (w : ℕ) (c : List ℕ)
      → (adjacent_to_all g w c ≡ true) ↔ ((a : ℕ) → mem a c ≡ true → g.are_neighs w a ≡ true)
  unfolding adjacent_to_all
  adjacent_to_all_iff w [] = (λ h a m. absurd (cc), λ h. refl)
  adjacent_to_all_iff w (x ∷ c) =
      let (down, up) = adjacent_to_all_iff w c in
      (
        λ h a m. elim (Bool-cases (a == x)) [
          | inl e ↦ ground arith
          | inr e ↦ down (ground arith) a (ground arith)
        ],
        λ h. ground (arith, h x, up (λ a m. h a (ground arith))),
      )

  pub complete_loop-mem :
      (ns c : List ℕ) (a : ℕ) → mem a c ≡ true → mem a (complete_loop g ns c) ≡ true
  unfolding complete_loop
  complete_loop-mem [] c a h = h
  complete_loop-mem (n ∷ ns) c a h =
      complete_loop-mem ns (if adjacent_to_all g n c then c ++ n ∷ [] else c) a
        (ground (arith, mem-append a c (n ∷ [])))

  module _ (v : IsGraph g) where
    not-mem_of_adjacent : (w : ℕ) (c : List ℕ) → adjacent_to_all g w c ≡ true → mem w c ≡ false
    not-mem_of_adjacent w c h = elim (Bool-cases (mem w c)) [
      | inl m ↦ absurd (v.irreflexive w ((adjacent_to_all_iff w c).0 h w m))
      | inr n ↦ n
    ]

    pub IsClique-append :
        (c : List ℕ) (w : ℕ) → IsClique c → adjacent_to_all g w c ≡ true → IsClique (c ++ w ∷ [])
    IsClique-append c w k h =
        let near = (adjacent_to_all_iff w c).0 h in
        record {
          adjacent = λ a b ma mb ne. ground (
            arith,
            mem-append a c (w ∷ []),
            mem-append b c (w ∷ []),
            k.adjacent a b,
            near a,
            near b,
            v.symmetric a w,
          );
          distinct = λ a. ground (
            arith,
            occurrences-append a c (w ∷ []),
            k.distinct a,
            occurrences-eq-zero w c,
            not-mem_of_adjacent w c h,
          );
        }

    pub complete_loop-IsClique : (ns c : List ℕ) → IsClique c → IsClique (complete_loop g ns c)
    unfolding complete_loop
    complete_loop-IsClique [] c k = k
    complete_loop-IsClique (n ∷ ns) c k = elim (Bool-cases (adjacent_to_all g n c)) [
      | inl h ↦ rw h (complete_loop-IsClique ns (c ++ n ∷ []) (IsClique-append c n k h))
      | inr h ↦ rw h (complete_loop-IsClique ns c k)
    ]

    complete_loop_self :
        (n : ℕ) (ns c : List ℕ)
        → ¬ ((a : ℕ) → mem a (complete_loop g (n ∷ ns) c) ≡ true → g.are_neighs n a ≡ true)
    unfolding complete_loop
    complete_loop_self n ns c all = elim (Bool-cases (adjacent_to_all g n c)) [
      | inl h ↦ v.irreflexive n (
          all n
            (rw h (complete_loop-mem ns (c ++ n ∷ []) n (ground (arith, mem-append n c (n ∷ []))))))
      | inr h ↦
          let near =
            (adjacent_to_all_iff n c).1 (λ a m. all a (rw h (complete_loop-mem ns c a m))) in
          cc
    ]

    -- No node of the list that was offered can still be added.
    pub complete_loop_full :
        (ns c : List ℕ) (w : ℕ)
        → mem w ns ≡ true
        → ¬ ((a : ℕ) → mem a (complete_loop g ns c) ≡ true → g.are_neighs w a ≡ true)
    unfolding complete_loop
    complete_loop_full [] c w m all = cc
    complete_loop_full (n ∷ ns) c w m all = elim (Bool-cases (w == n)) [
      | inr ne ↦ complete_loop_full ns _ w (ground arith) all
      | inl e ↦ complete_loop_self n ns c (λ a ma. ground (arith, all a ma))
    ]
