-- ===== src/Graph/Read/Formats.antt =====
-- `ReadOlympiadsFormat` and `ReadNde` (util/graph.hpp).
use parallel_enum.Base.{
  ℕ, ◌≤◌, ◌<◌, ◌≡◌, refl, sym, subst, ◌∙◌, Bool, true, false, Option, none, some, List, [], ◌∷◌,
  ◌++◌, length, Each,
}
use parallel_enum.Graph.{IsGraph}
use parallel_enum.Graph.Fast.{NodeSets, FastGraph, make_fast, view}
use parallel_enum.Graph.Fast.Valid.{IsAdjacency, view-IsGraph, make_fast-keeps, near_nodes}
use parallel_enum.Graph.Read.{
  eof, fast_read, read_label_list, read_labels, done, read_edge_list, build, read_olympiads_format,
  skip_degrees, read_nde,
}
use parallel_enum.Graph.Read.Links.{Holds, flat, linked, are_nodes, fast_read-Holds}
use parallel_enum.Graph.Read.Lists.{read_edge_list-linked, linked-IsAdjacency}

-- The labels that stand before the edges: none of type `void`, else one for each node.
abbrev pub IsLabels : Option ℕ → ℕ → List ℕ → Type 0
IsLabels none n labels = labels ≡ []
IsLabels (some w) n labels = (length labels ≡ n) × Each (λ x. x < eof w) labels

abbrev pub labels_of : Option ℕ → List ℕ → Option (List ℕ)
labels_of none labels = none
labels_of (some w) labels = some labels

read_label_list-Holds :
    (w : ℕ) (labels xs file : List ℕ)
    → Holds (labels ++ xs) file
    → Each (λ x. x < eof w) labels
    → (rest : List ℕ) × (read_label_list w (length labels) file ≡ (labels, rest)) × Holds xs rest
unfolding read_label_list
read_label_list-Holds w [] xs file h small = (file, refl, h)
read_label_list-Holds w (x ∷ labels) xs file h small =
    let (rest, reads, holds) = read_label_list-Holds w labels xs h.0 h.2 small.1 in
    let first = fast_read-Holds w x (labels ++ xs) file h small.0 in
    (rest, rw first (rw reads refl), holds)

read_labels-Holds :
    (label_bits : Option ℕ) (n : ℕ) (labels xs file : List ℕ)
    → Holds (labels ++ xs) file
    → IsLabels label_bits n labels
    → (rest : List ℕ) × (read_labels label_bits n file ≡ (labels_of label_bits labels, rest))
      × Holds xs rest
unfolding read_labels
read_labels-Holds none n labels xs file h is_labels =
    (file, refl, subst (λ l. Holds (l ++ xs) file) is_labels h)
read_labels-Holds (some w) n labels xs file h is_labels =
    let (rest, reads, holds) = read_label_list-Holds w labels xs file h is_labels.1 in
    (rest, rw (sym is_labels.0) (rw reads refl), holds)

skip_degrees-Holds :
    (w : ℕ) (degrees : List (ℕ × ℕ)) (xs file : List ℕ)
    → Holds (flat degrees ++ xs) file
    → Each (λ e. (e.0 < eof w) × (e.1 < eof w)) degrees
    → Holds xs (skip_degrees w (length degrees) file)
unfolding skip_degrees
skip_degrees-Holds w [] xs file h small = h
skip_degrees-Holds w (e ∷ degrees) xs file h small =
    let first = fast_read-Holds w e.0 (e.1 ∷ (flat degrees ++ xs)) file h small.0.0 in
    let second = fast_read-Holds w e.1 (flat degrees ++ xs) h.0 h.2 small.0.1 in
    let rest = skip_degrees-Holds w degrees xs h.2.0 h.2.2 small.1 in
    subst (λ r. Holds xs (skip_degrees w (length degrees) ((fast_read w (r.1)).1))) (sym first)
      (subst (λ r. Holds xs (skip_degrees w (length degrees) (r.1))) (sym second) rest)

module _ (sets : NodeSets) where
  -- The graph of `n` nodes with these edges.
  abbrev pub IsOf : ℕ → Bool → List (ℕ × ℕ) → FastGraph sets ℕ → Type 0
  IsOf n one_based es g =
      IsGraph (view sets ℕ g)
      × (g.base.size ≡ n)
      × ((a b : ℕ) → (view sets ℕ g).are_neighs a b ≡ linked false one_based es a b)

  pub build-IsOf :
      (one_based : Bool) (w n : ℕ) (labels : Option (List ℕ)) (es : List (ℕ × ℕ)) (file : List ℕ)
      → Holds (flat es) file
      → are_nodes one_based n es ≡ true
      → n < eof w
      → n ≤ sets.missing
      → (g : FastGraph sets ℕ) × (build sets n labels (read_edge_list false one_based w n file)
          ≡ done g)
        × IsOf n one_based es g
        × (g.base.labels ≡ labels)
  unfolding build
  build-IsOf one_based w n labels es file h nodes fits room =
      let (r, ends, sized, ascending, same) =
        read_edge_list-linked false one_based w n es file h nodes fits in
      let keeps = make_fast-keeps sets ℕ n r labels in
      let good : IsAdjacency n r = linked-IsAdjacency one_based n es r nodes sized ascending same in
      (
        make_fast sets ℕ n r labels,
        rw ends refl,
        (
          (view-IsGraph sets ℕ n r labels good room).0,
          keeps.0,
          λ a b. near_nodes sets ℕ n r labels good room a b ∙ same a b,
        ),
        keeps.1,
      )

  -- On a file with the numbers of nodes and edges, the labels if there are any, and the edges, all
  -- below `node_t(EOF)` and with nodes in range, from zero or one, `ReadOlympiadsFormat` of an
  -- undirected graph returns a valid graph with these nodes and labels; two nodes are neighbours
  -- exactly if an edge that is no self loop joins them, in either direction and however often.
  pub read_olympiads_format-IsOf :
      (label_bits : Option ℕ) (one_based : Bool) (w n m : ℕ) (labels : List ℕ) (es : List (ℕ × ℕ))
      (file : List ℕ)
      → Holds (n ∷ m ∷ (labels ++ flat es)) file
      → IsLabels label_bits n labels
      → are_nodes one_based n es ≡ true
      → n < eof w
      → m < eof w
      → n ≤ sets.missing
      → (g : FastGraph sets ℕ) × (read_olympiads_format sets label_bits w false one_based file
          ≡ done g)
        × IsOf n one_based es g
        × (g.base.labels ≡ labels_of label_bits labels)
  unfolding read_olympiads_format
  read_olympiads_format-IsOf label_bits one_based w n m labels es file h is_labels nodes fits fits_m
        room =
      let first = fast_read-Holds w n (m ∷ (labels ++ flat es)) file h fits in
      let second = fast_read-Holds w m (labels ++ flat es) h.0 h.2 fits_m in
      let (rest, reads, holds) =
        read_labels-Holds label_bits n labels (flat es) h.2.0 h.2.2 is_labels in
      let (g, builds, is_of, labelled) =
        build-IsOf one_based w n (labels_of label_bits labels) es rest holds nodes fits room in
      (g, rw first (rw second (rw reads builds)), is_of, labelled)

  -- On a file with the number of nodes, two numbers for each node, and the edges, all below
  -- `node_t(EOF)` and with nodes in range from zero, `ReadNde` of an undirected graph returns a
  -- valid graph with these nodes; two nodes are neighbours exactly if an edge that is no self loop
  -- joins them.
  pub read_nde-IsOf :
      (w n : ℕ) (degrees es : List (ℕ × ℕ)) (file : List ℕ)
      → Holds (n ∷ (flat degrees ++ flat es)) file
      → length degrees ≡ n
      → Each (λ e. (e.0 < eof w) × (e.1 < eof w)) degrees
      → are_nodes false n es ≡ true
      → n < eof w
      → n ≤ sets.missing
      → (g : FastGraph sets ℕ) × (read_nde sets w false file ≡ done g) × IsOf n false es g
  unfolding read_nde
  read_nde-IsOf w n degrees es file h sized small nodes fits room =
      let first = fast_read-Holds w n (flat degrees ++ flat es) file h fits in
      let holds : Holds (flat es) (skip_degrees w n h.0) =
        subst (λ k. Holds (flat es) (skip_degrees w k h.0)) sized
          (skip_degrees-Holds w degrees (flat es) h.0 h.2 small) in
      let (g, builds, is_of, labelled) =
        build-IsOf false w n none es (skip_degrees w n h.0) holds nodes fits room in
      (g, rw first builds, is_of)
