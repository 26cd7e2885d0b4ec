-- ===== src/Graph/Fast/Permute.antt =====
-- `Permute` renames the nodes (util/graph.hpp).
use parallel_enum.Base.{
  ℕ, zero, suc, ◌+◌, ◌≤◌, ◌<◌, ◌≡◌, ◌≢◌, refl, sym, ap, subst, ◌∙◌, List, [], ◌∷◌, ◌++◌, map,
  length, get_or, set, length-set, get_or-set_self, get_or-set_ne, ◌==◌, ==_iff, arith, Bool-cases,
  inl, inr, sort, append_assoc, append-nil,
}
use parallel_enum.Graph.Fast.{push_neighs, permute_edges}

module _ (new_pos : List ℕ) where
  abbrev at : ℕ → ℕ
  at x = get_or new_pos x 0

  length-push_neighs :
      (p : ℕ) (xs : List ℕ) (rows : List (List ℕ))
      → length (push_neighs new_pos p xs rows) ≡ length rows
  unfolding push_neighs
  length-push_neighs p [] rows = refl
  length-push_neighs p (x ∷ xs) rows =
      length-push_neighs p xs (set rows p (get_or rows p [] ++ at x ∷ []))
      ∙ length-set rows p (get_or rows p [] ++ at x ∷ [])

  push_neighs-row :
      (p : ℕ) (xs : List ℕ) (rows : List (List ℕ))
      → p < length rows
      → get_or (push_neighs new_pos p xs rows) p [] ≡ get_or rows p [] ++ map at xs
  unfolding push_neighs
  push_neighs-row p [] rows lt = sym (append-nil (get_or rows p []))
  push_neighs-row p (x ∷ xs) rows lt =
      let old = get_or rows p [] in
      let grown = old ++ at x ∷ [] in
      push_neighs-row p xs (set rows p grown) (omega (arith, length-set rows p grown))
      ∙ ap (λ r. r ++ map at xs) (get_or-set_self rows p grown [] lt)
      ∙ append_assoc old (at x ∷ []) (map at xs)

  push_neighs-ne :
      (p q : ℕ) (xs : List ℕ) (rows : List (List ℕ))
      → p ≢ q
      → get_or (push_neighs new_pos p xs rows) q [] ≡ get_or rows q []
  unfolding push_neighs
  push_neighs-ne p q [] rows ne = refl
  push_neighs-ne p q (x ∷ xs) rows ne =
      push_neighs-ne p q xs (set rows p (get_or rows p [] ++ at x ∷ [])) ne
      ∙ get_or-set_ne rows p q (get_or rows p [] ++ at x ∷ []) [] ne

  module _ (edges : List (List ℕ)) where
    -- The rows after the loop's body for the node `i`.
    abbrev pushed : ℕ → List (List ℕ) → List (List ℕ)
    pushed i rows =
        let p = at i in
        let all = push_neighs new_pos p (get_or edges i []) rows in
        set all p (sort (get_or all p []))

    length-pushed : (i : ℕ) (rows : List (List ℕ)) → length (pushed i rows) ≡ length rows
    length-pushed i rows =
        let all = push_neighs new_pos (at i) (get_or edges i []) rows in
        length-set all (at i) (sort (get_or all (at i) []))
        ∙ length-push_neighs (at i) (get_or edges i []) rows

    pushed-row :
        (i : ℕ) (rows : List (List ℕ))
        → at i < length rows
        → get_or rows (at i) [] ≡ []
        → get_or (pushed i rows) (at i) [] ≡ sort (map at (get_or edges i []))
    pushed-row i rows lt empty =
        let all = push_neighs new_pos (at i) (get_or edges i []) rows in
        get_or-set_self all (at i) (sort (get_or all (at i) [])) []
          (omega (arith, length-push_neighs (at i) (get_or edges i []) rows))
        ∙ ap sort (
            push_neighs-row (at i) (get_or edges i []) rows lt
            ∙ ap (λ r. r ++ map at (get_or edges i [])) empty)

    pushed-ne :
        (i q : ℕ) (rows : List (List ℕ)) → at i ≢ q → get_or (pushed i rows) q [] ≡ get_or rows q []
    pushed-ne i q rows ne =
        let all = push_neighs new_pos (at i) (get_or edges i []) rows in
        get_or-set_ne all (at i) q (sort (get_or all (at i) [])) [] ne
        ∙ push_neighs-ne (at i) q (get_or edges i []) rows ne

    pub length-permute_edges :
        (i rounds : ℕ) (rows : List (List ℕ))
        → length (permute_edges edges new_pos i rounds rows) ≡ length rows
    unfolding permute_edges
    length-permute_edges i zero rows = refl
    length-permute_edges i (suc rounds) rows =
        length-permute_edges (suc i) rounds (pushed i rows) ∙ length-pushed i rows

    permute_edges-ne :
        (i rounds q : ℕ) (rows : List (List ℕ))
        → ((m : ℕ) → i ≤ m → m < i + rounds → at m ≢ q)
        → get_or (permute_edges edges new_pos i rounds rows) q [] ≡ get_or rows q []
    unfolding permute_edges
    permute_edges-ne i zero q rows apart = refl
    permute_edges-ne i (suc rounds) q rows apart =
        permute_edges-ne (suc i) rounds q (pushed i rows)
          (λ m le lt. apart m (omega arith) (omega arith))
        ∙ pushed-ne i q rows (apart i (omega arith) (omega arith))

    -- The row at the position of the node `m`, if it was empty and no other node has this position.
    pub permute_edges-row :
        (i rounds m : ℕ) (rows : List (List ℕ))
        → i ≤ m
        → m < i + rounds
        → at m < length rows
        → get_or rows (at m) [] ≡ []
        → ((j : ℕ) → i ≤ j → j < i + rounds → j ≢ m → at j ≢ at m)
        → get_or (permute_edges edges new_pos i rounds rows) (at m) []
          ≡ sort (map at (get_or edges m []))
    unfolding permute_edges
    permute_edges-row i zero m rows le lt room empty apart = absurd (omega arith)
    permute_edges-row i (suc rounds) m rows le lt room empty apart = elim (Bool-cases (i == m)) [
      | inl e ↦
          let e' : i ≡ m = (==_iff i m).0 e in
          permute_edges-ne (suc i) rounds (at m) (pushed i rows)
            (λ j le' lt'. apart j (omega arith) (omega arith) (λ q. absurd (omega (arith, q, e'))))
          ∙ subst (λ z. get_or (pushed i rows) (at z) [] ≡ sort (map at (get_or edges z []))) e'
              (pushed-row i rows (subst (λ z. at z < length rows) (sym e') room)
                (subst (λ z. get_or rows (at z) [] ≡ []) (sym e') empty))
      | inr ne ↦
          let after : suc i ≤ m = ground arith in
          let other : at i ≢ at m =
            apart i (omega arith) (omega arith) (λ q. absurd (ground arith)) in
          permute_edges-row (suc i) rounds m (pushed i rows) after (omega arith)
            (rw (length-pushed i rows) room) (pushed-ne i (at m) rows other ∙ empty)
            (λ j le' lt' d. apart j (omega arith) (omega arith) d)
    ]
