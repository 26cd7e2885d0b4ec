-- ===== src/Graph/Fast/Renumbered.antt =====
-- `fast_graph_t::Permute` and `Clone` (util/graph.hpp).
use parallel_enum.Base.{
  ℕ, zero, suc, ◌+◌, ◌≤◌, ◌<◌, ◌≡◌, refl, sym, ap, subst, ◌∙◌, Bool, true, false, List, [], get_or,
  Option, some, occurrences, IsAscending, arith, mem, Bool-cases, inl, inr, lt→ltb, ltb→lt, ltb,
  if◌then◌else◌, ◌&&◌, tabulate, length-tabulate, get_or-tabulate, occurrences-eq-zero,
}
use parallel_enum.Graph.{IsGraph}
use parallel_enum.Graph.Fast.{
  NodeSets, FastGraph, make_base, neighs, make_fast, permute, clone, view, permuted_edges, iota,
}
use parallel_enum.Graph.Fast.Valid.{IsAdjacency, neighs-make_base, view-IsGraph, near_nodes}
use parallel_enum.Graph.Fast.Order.{IsOrder}
use parallel_enum.Graph.Fast.Labels.{IsLabelled, IsMoved, permute_labels-IsMoved}
use parallel_enum.Graph.Fast.Renamed.{rows-IsAdjacency, mem-row}

-- What is known of a list in a graph is known of the list that the graph keeps.
base-IsAdjacency :
    {L : Type 0} (n : ℕ) (edg : List (List ℕ)) (lbl : Option (List L))
    → IsAdjacency n edg
    → IsAdjacency n ((make_base n edg lbl).edges)
unfolding make_base neighs
base-IsAdjacency {L = L} n edg lbl good =
    let same : (a : ℕ) → get_or ((make_base n edg lbl).edges) a [] ≡ get_or edg a [] =
      neighs-make_base {L = L} n edg lbl good in
    record {
      rows = length-tabulate _ 0 n;
      ascending = λ a. subst IsAscending (sym (same a)) (good.ascending a);
      below = λ a b. rw (same a) (good.below a b);
      symmetric = λ a b. rw (same a, same b) (good.symmetric a b);
      loopless = λ a. rw (same a) (good.loopless a);
    }

pub order_below :
    (n : ℕ) (new_order : List ℕ) → IsOrder n new_order → (x : ℕ) → mem x new_order ≡ true → x < n
order_below n new_order good x m = elim (Bool-cases (ltb x n)) [
  | inl y ↦ ltb→lt x n y
  | inr y ↦
      let once = good.once x in
      let gone = (occurrences-eq-zero x new_order).1 (once ∙ rw y refl) in absurd (cc)
]

occurrences-tabulate :
    (a i n : ℕ)
    → occurrences a (tabulate (λ j. j) i n)
      ≡ (if ltb a i then 0 else if ltb a (i + n) then 1 else 0)
unfolding tabulate
occurrences-tabulate a i zero = ground arith
occurrences-tabulate a i (suc n) = let rest = occurrences-tabulate a (suc i) n in ground arith

iota-IsOrder : (n : ℕ) → IsOrder n (iota n)
unfolding iota
iota-IsOrder n = record {
  sized = length-tabulate (λ i. i) 0 n;
  once = λ a. let e = occurrences-tabulate a 0 n in ground arith;
}

get_or-iota : (n i : ℕ) → i < n → get_or (iota n) i 0 ≡ i
unfolding iota
get_or-iota n i lt = get_or-tabulate (λ j. j) n i 0 ∙ rw (lt→ltb i n lt) refl

module _ (sets : NodeSets) (L : Type 0) (blank : L) (n : ℕ) (edg : List (List ℕ))
    (lbl : Option (List L)) (new_order : List ℕ) (good : IsAdjacency n edg)
    (room : n ≤ sets.missing) where
  abbrev graph : FastGraph sets L
  graph = make_fast sets L n edg lbl

  abbrev near : FastGraph sets L → ℕ → ℕ → Bool
  near g = (view sets L g).are_neighs

  -- What `Permute` gives for an order of the nodes.
  pub record IsPermuted (g : FastGraph sets L) : Type 0 where
    pub valid : IsGraph (view sets L g)
    pub same_size : g.base.size ≡ n
    pub renamed :
        (a b : ℕ)
        → a < n
        → b < n
        → near g a b ≡ near graph (get_or new_order a 0) (get_or new_order b 0)
    pub moved : IsMoved blank n new_order lbl g.base.labels

  -- On a valid `fast_graph_t` with one label for each node or none at all, and for an order that
  -- has each node once, `Permute` succeeds. The new graph has the same size and is again a valid
  -- undirected graph; positions `a` and `b` are neighbours exactly if the nodes that the order has
  -- there were, and the label at a position is that of the node which the order has there.
  pub permute-IsPermuted :
      IsLabelled n lbl
      → IsOrder n new_order
      → (g : FastGraph sets L) × (permute sets L blank new_order graph ≡ some g) × IsPermuted g
  unfolding permute make_fast make_base neighs view
  permute-IsPermuted labelled good_order =
      let base = make_base n edg lbl in
      let good' : IsAdjacency n base.edges = base-IsAdjacency n edg lbl good in
      let rows = permuted_edges sets.missing new_order base in
      let adjacent : IsAdjacency n rows =
        rows-IsAdjacency sets.missing new_order base good_order good' in
      let inside : (x : ℕ) → mem x new_order ≡ true → x < n = order_below n new_order good_order in
      let (labels, moves, is_moved) =
        permute_labels-IsMoved blank n new_order lbl labelled good_order.sized inside in
      (
        make_fast sets L n rows labels,
        rw moves refl,
        record {
          valid = (view-IsGraph sets L n rows labels adjacent room).0;
          same_size = refl;
          renamed = λ a b la lb.
              near_nodes sets L n rows labels adjacent room a b
              ∙ mem-row sets.missing new_order base good_order good' a b la lb
              ∙ ap (λ xs. mem (get_or new_order b 0) xs)
                  (neighs-make_base n edg lbl good (get_or new_order a 0))
              ∙ sym (
                  near_nodes sets L n edg lbl good room (get_or new_order a 0)
                    (get_or new_order b 0));
          moved = is_moved;
        },
      )

near_outside :
    (sets : NodeSets) (L : Type 0) (g : FastGraph sets L) (n a b : ℕ)
    → g.base.size ≡ n
    → (ltb a n && ltb b n) ≡ false
    → (view sets L g).are_neighs a b ≡ false
unfolding view
near_outside sets L g n a b e out = ground arith

module _ (sets : NodeSets) (L : Type 0) (blank : L) (n : ℕ) (edg : List (List ℕ))
    (lbl : Option (List L)) (good : IsAdjacency n edg) (room : n ≤ sets.missing) where
  -- On a valid `fast_graph_t` with one label for each node or none at all, `Clone` succeeds, and
  -- the clone is a valid undirected graph with the same labels in which two nodes are neighbours
  -- exactly if they were.
  pub clone-near :
      IsLabelled n lbl
      → (g : FastGraph sets L) × (clone sets L blank (make_fast sets L n edg lbl) ≡ some g)
        × IsGraph (view sets L g)
        × ((a b : ℕ)
            → (view sets L g).are_neighs a b
              ≡ (view sets L (make_fast sets L n edg lbl)).are_neighs a b)
        × IsMoved blank n (iota n) lbl g.base.labels
  unfolding clone make_fast make_base
  clone-near labelled =
      let (g, runs, permuted) =
        permute-IsPermuted sets L blank n edg lbl (iota n) good room labelled (iota-IsOrder n) in
      (
        g,
        runs,
        permuted.valid,
        λ a b. elim (Bool-cases (ltb a n && ltb b n)) [
          | inr out ↦
              near_outside sets L g n a b permuted.same_size out
              ∙ sym (near_outside sets L (make_fast sets L n edg lbl) n a b refl out)
          | inl both ↦
              let la : a < n = ground arith in
              let lb : b < n = ground arith in
              permuted.renamed a b la lb ∙ rw (get_or-iota n a la, get_or-iota n b lb) refl
        ],
        permuted.moved,
      )
