-- ===== src/Graph/Fast/Valid.antt =====
-- `fast_graph_t` on valid lists of neighbours is a graph that the systems can read
-- (util/graph.hpp).
use parallel_enum.Base.{
  tabulate, get_or-tabulate, get_or_past, ltb→ge, lt→ltb, ltb→lt, ℕ, ◌≤◌, ◌<◌, ◌≡◌, ◌≢◌, refl, sym,
  ap, ◌∙◌, true, false, List, [], ◌∷◌, Option, length, get_or, ltb, if◌then◌else◌, arith, mem, Each,
  IsAscending, upper_bound, Bool-cases, inl, inr,
}
use parallel_enum.BinarySearch.{init}
use parallel_enum.BinarySearch.Init.{init_lem}
use parallel_enum.Graph.{IsGraph, above}
use parallel_enum.Graph.Fast.{
  NodeSets, drop, make_base, neighs, insert_all, make_fast, fast_fwd_neighs, fast_are_neighs, view,
}

-- `n` ascending lists of nodes, those of an undirected graph with no self loop.
pub record IsAdjacency (n : ℕ) (edg : List (List ℕ)) : Type 0 where
  pub rows : length edg ≡ n
  pub ascending : (a : ℕ) → IsAscending (get_or edg a [])
  pub below : (a b : ℕ) → mem b (get_or edg a []) ≡ true → b < n
  pub symmetric : (a b : ℕ) → mem b (get_or edg a []) ≡ mem a (get_or edg b [])
  pub loopless : (a : ℕ) → mem a (get_or edg a []) ≡ false

-- `graph_t` keeps the lists.
pub neighs-make_base :
    {L : Type 0} (n : ℕ) (edg : List (List ℕ)) (lbl : Option (List L))
    → IsAdjacency n edg
    → (a : ℕ) → neighs (make_base n edg lbl) a ≡ get_or edg a []
unfolding neighs make_base
neighs-make_base n edg lbl good a =
    let here = get_or-tabulate (λ i. init (get_or edg i [])) n a [] in
    elim (Bool-cases (ltb a n)) [
      | inl lt ↦ here ∙ rw lt (init_lem (get_or edg a []))
      | inr ge ↦ here ∙ rw ge (sym (get_or_past edg a [] (omega (arith, good.rows, ltb→ge a n ge))))
    ]

above-all : (a : ℕ) (xs : List ℕ) → Each (λ y. a < y) xs → above a xs ≡ xs
above-all a [] h = refl
above-all a (x ∷ xs) h = ground (arith, above-all a xs h.1, h.0)

above-after : (a x : ℕ) (xs : List ℕ) → a < x → Each (λ y. x < y) xs → Each (λ y. a < y) xs
above-after a x [] lt h = tt
above-after a x (y ∷ ys) lt h = (omega (arith, h.0), above-after a x ys lt h.1)

-- From the upper bound on stand the larger elements.
drop-upper_bound : (a : ℕ) (xs : List ℕ) → IsAscending xs → drop (upper_bound a xs) xs ≡ above a xs
unfolding upper_bound
drop-upper_bound a [] h = refl
drop-upper_bound a (x ∷ xs) h = elim (Bool-cases (ltb a x)) [
  | inl lt ↦
      let lt' : a < x = ltb→lt a x lt in
      rw lt (ap (λ ys. x ∷ ys) (sym (above-all a xs (above-after a x xs lt' h.0))))
  | inr ge ↦ rw ge (drop-upper_bound a xs h.1)
]

pub make_fast-keeps :
    (sets : NodeSets) (L : Type 0) (n : ℕ) (edg : List (List ℕ)) (lbl : Option (List L))
    → ((make_fast sets L n edg lbl).base.size ≡ n)
      × ((make_fast sets L n edg lbl).base.labels ≡ lbl)
unfolding make_fast make_base
make_fast-keeps sets L n edg lbl = (refl, refl)

module _ (sets : NodeSets) where
  open sets use {NodeSet, empty, insert, count, missing}

  count-insert_all :
      (xs : List ℕ) (s : NodeSet) (w : ℕ)
      → w ≢ missing
      → ((v : ℕ) → mem v xs ≡ true → v ≢ missing)
      → count w (insert_all sets xs s) ≡ (if mem w xs then true else count w s)
  unfolding insert_all
  count-insert_all [] s w ne all = refl
  count-insert_all (x ∷ xs) s w ne all =
      let rest = count-insert_all xs (insert x s) w ne (λ v m. all v (ground arith)) in
      let here = sets.count-insert x w s (all x (ground arith)) ne in ground arith

module _ (sets : NodeSets) (L : Type 0) (n : ℕ) (edg : List (List ℕ)) (lbl : Option (List L))
    (good : IsAdjacency n edg) (room : n ≤ sets.missing) where
  -- `count` on the hash set of a node tells its neighbours.
  fast_are_neighs-mem :
      (a b : ℕ)
      → a < n
      → b < n
      → fast_are_neighs sets L (make_fast sets L n edg lbl) a b ≡ mem b (get_or edg a [])
  unfolding fast_are_neighs make_fast
  fast_are_neighs-mem a b la lb =
      let fill = λ (i : ℕ). insert_all sets (get_or edg i []) sets.empty in
      let here = get_or-tabulate fill n a sets.empty in
      let inside : ltb a n ≡ true = lt→ltb a n la in
      let here' : get_or (tabulate fill 0 n) a sets.empty ≡ fill a = here ∙ rw inside refl in
      let ne : b ≢ sets.missing = λ e. absurd (omega (arith, e)) in
      ap (λ s. sets.count b s) here'
      ∙ count-insert_all sets (get_or edg a []) sets.empty b ne
          (λ v m e. absurd (omega (arith, e, good.below a v m)))
      ∙ ground (arith, sets.count-empty b ne)

  pub near_nodes :
      (a b : ℕ)
      → (view sets L (make_fast sets L n edg lbl)).are_neighs a b ≡ mem b (get_or edg a [])
  unfolding view make_fast make_base
  near_nodes a b = elim (Bool-cases (ltb a n)) [
    | inr out ↦
        let row = get_or_past edg a [] (omega (arith, good.rows, ltb→ge a n out)) in
        rw (out, row) refl
    | inl in_a ↦ elim (Bool-cases (ltb b n)) [
      | inl in_b ↦ rw (in_a, in_b) (fast_are_neighs-mem a b (ltb→lt a n in_a) (ltb→lt b n in_b))
      | inr out ↦ elim (Bool-cases (mem b (get_or edg a []))) [
        | inl m ↦ absurd (omega (arith, good.below a b m, ltb→ge b n out))
        | inr m ↦ rw (in_a, out, m) refl
      ]
    ]
  ]

  above_nodes :
      (a : ℕ)
      → fast_fwd_neighs sets L (make_fast sets L n edg lbl) a
        ≡ above a (neighs (make_base n edg lbl) a)
  unfolding fast_fwd_neighs make_fast
  above_nodes a =
      let base = make_base n edg lbl in
      let same = neighs-make_base n edg lbl good a in
      let start = get_or-tabulate (λ i. upper_bound i (neighs base i)) n a 0 in
      elim (Bool-cases (ltb a n)) [
        | inr out ↦
            let row = same ∙ get_or_past edg a [] (omega (arith, good.rows, ltb→ge a n out)) in
            rw (start, out, row) refl
        | inl inside ↦
            let asc : IsAscending (neighs base a) = rw same (good.ascending a) in
            rw (start, inside) (drop-upper_bound a (neighs base a) asc)
      ]

  -- From the ascending lists of neighbours of an undirected graph with no self loop, with as many
  -- lists as nodes and every node below the empty mark of the hash sets, the constructor of
  -- `fast_graph_t` makes an undirected graph as the searches read it: `neighs` gives back the
  -- lists, `fwd_neighs` the larger neighbours, and `are_neighs` agrees with both.
  pub view-IsGraph :
      IsGraph (view sets L (make_fast sets L n edg lbl))
      × ((a : ℕ) → (view sets L (make_fast sets L n edg lbl)).neighs a ≡ get_or edg a [])
  unfolding view make_fast make_base fast_fwd_neighs
  view-IsGraph =
      let g = make_fast sets L n edg lbl in
      let same = neighs-make_base n edg lbl good in
      let near = λ (a b : ℕ). (view sets L g).are_neighs a b in
      let near_mem : (a b : ℕ) → near a b ≡ mem b (get_or edg a []) = near_nodes in
      (
        record {
          irreflexive = λ a h.
              let never = good.loopless a in let said = sym (near_mem a a) ∙ h in absurd (cc);
          symmetric = λ a b. near_mem a b ∙ good.symmetric a b ∙ sym (near_mem b a);
          neighs_iff = λ a b. rw (same a, near_mem a b) (λ h. h, λ h. h);
          fwd_above = above_nodes;
          ascending = λ a. rw (same a) (good.ascending a);
          bounded = λ a b h. good.below a b (sym (near_mem a b) ∙ h);
        },
        same,
      )
