-- ===== src/Graph/Read/Lists.antt =====
-- The lists of neighbours that `ReadEdgeList` returns (util/graph.hpp).
use parallel_enum.Base.{
  ℕ, zero, suc, ◌≤◌, ◌<◌, ◌≡◌, refl, sym, ap, ◌∙◌, Bool, true, false, not, ◌||◌, ◌&&◌, List, [],
  ◌∷◌, length, get_or, replicate, ◌==◌, sort, unique, map, arith, mem, get_or-replicate,
  length-replicate, mem-sort, mem-unique, sort-IsSorted, unique-IsAscending, IsAscending,
}
use parallel_enum.Graph.Fast.Valid.{IsAdjacency}
use parallel_enum.Graph.Read.{eof, done, tidy, read_edge_list}
use parallel_enum.Graph.Read.Links.{
  Holds, flat, node, is_node, linked, are_nodes, node-lt, length-Holds,
}
use parallel_enum.Graph.Read.Pairs.{read_pairs-linked}

length-map : (f : List ℕ → List ℕ) (xs : List (List ℕ)) → length (map f xs) ≡ length xs
length-map f [] = refl
length-map f (x ∷ xs) = ap suc (length-map f xs)

abbrev tidy_row : List ℕ → List ℕ
tidy_row adj = unique (sort adj)

get_or-tidy :
    (rows : List (List ℕ)) (a : ℕ) → get_or (map tidy_row rows) a [] ≡ tidy_row (get_or rows a [])
unfolding unique sort
get_or-tidy [] a = refl
get_or-tidy (row ∷ rows) zero = refl
get_or-tidy (row ∷ rows) (suc a) = get_or-tidy rows a

or_false : (p : Bool) → (p || false) ≡ p
or_false false = refl
or_false true = refl

length-flat : (es : List (ℕ × ℕ)) → length es ≤ length (flat es)
length-flat [] = omega arith
length-flat (e ∷ es) = omega (arith, length-flat es)

linked_comm :
    (one_based : Bool) (es : List (ℕ × ℕ)) (a b : ℕ)
    → linked false one_based es a b ≡ linked false one_based es b a
linked_comm one_based [] a b = refl
linked_comm one_based (e ∷ es) a b =
    let rest = linked_comm one_based es a b in
    turn (e.0 == e.1) (a == node one_based e.0) (b == node one_based e.1) (a == node one_based e.1)
      (b == node one_based e.0) _
    ∙ ap
        (λ z.
          not (e.0 == e.1) && b == node one_based e.0 && a == node one_based e.1
          || not (e.0 == e.1) && true && b == node one_based e.1 && a == node one_based e.0
          || z)
        rest
  where
    turn :
        (same p q r s t : Bool)
        → (not same && p && q || not same && true && r && s || t)
          ≡ (not same && s && r || not same && true && q && p || t)
    turn true p q r s t = refl
    turn false p q r s t = ground arith

linked-lt :
    (one_based : Bool) (n : ℕ) (es : List (ℕ × ℕ)) (a b : ℕ)
    → are_nodes one_based n es ≡ true
    → linked false one_based es a b ≡ true
    → b < n
linked-lt one_based n [] a b nodes h = absurd (cc)
linked-lt one_based n (e ∷ es) a b nodes h =
    let lx = node-lt one_based n e.0 (ground arith) in
    let ly = node-lt one_based n e.1 (ground arith) in
    let rest = linked-lt one_based n es a b (ground arith) in
    bound (node one_based e.0) (node one_based e.1) (not (e.0 == e.1))
      (linked false one_based es a b) lx ly rest h
  where
    bound :
        (x y : ℕ) (s t : Bool)
        → x < n
        → y < n
        → (t ≡ true → b < n)
        → (s && a == x && b == y || s && true && a == y && b == x || t) ≡ true
        → b < n
    bound x y s t lx ly rest h = ground arith

linked_irrefl :
    (one_based : Bool) (n : ℕ) (es : List (ℕ × ℕ)) (a : ℕ)
    → are_nodes one_based n es ≡ true
    → linked false one_based es a a ≡ false
linked_irrefl one_based n [] a nodes = refl
linked_irrefl one_based n (e ∷ es) a nodes =
    let rest = linked_irrefl one_based n es a (ground arith) in
    let apart : node one_based e.0 ≡ node one_based e.1 → e.0 ≡ e.1 =
      node_inj one_based n e.0 e.1 (ground arith) (ground arith) in
    never (node one_based e.0) (node one_based e.1) (linked false one_based es a a) apart rest
  where
    never :
        (x y : ℕ) (t : Bool)
        → (x ≡ y → e.0 ≡ e.1)
        → t ≡ false
        → (not (e.0 == e.1) && a == x && a == y
            || not (e.0 == e.1) && true && a == y && a == x
            || t)
          ≡ false
    never x y t apart gone = ground arith

    node_inj :
        (one_based : Bool) (n x y : ℕ)
        → is_node one_based n x ≡ true
        → is_node one_based n y ≡ true
        → node one_based x ≡ node one_based y
        → x ≡ y
    node_inj false n x y hx hy e = e
    node_inj true n x y hx hy e = ground arith

-- On a file with the edges of a graph, `ReadEdgeList` returns its ascending lists of neighbours.
pub read_edge_list-linked :
    (directed one_based : Bool) (w n : ℕ) (es : List (ℕ × ℕ)) (file : List ℕ)
    → Holds (flat es) file
    → are_nodes one_based n es ≡ true
    → n < eof w
    → (r : List (List ℕ)) × (read_edge_list directed one_based w n file ≡ done r)
      × (length r ≡ n)
      × ((a : ℕ) → IsAscending (get_or r a []))
      × ((a b : ℕ) → mem b (get_or r a []) ≡ linked directed one_based es a b)
unfolding read_edge_list tidy
read_edge_list-linked directed one_based w n es file h nodes fits =
    let blank = replicate {A = List ℕ} n [] in
    let enough : length es < suc (length file) =
      omega (arith, length-flat es, length-Holds (flat es) file h) in
    let (r, ends, sized, mems) =
      read_pairs-linked directed one_based w n (suc (length file)) es file blank h nodes fits
        (length-replicate {A = List ℕ} n []) enough in
    (
      map tidy_row r,
      rw ends refl,
      length-map tidy_row r ∙ sized,
      λ a.
          rw (get_or-tidy r a)
            (unique-IsAscending (sort (get_or r a [])) (sort-IsSorted (get_or r a []))),
      λ a b.
          ap (λ xs. mem b xs) (get_or-tidy r a)
          ∙ mem-unique b (sort (get_or r a []))
          ∙ mem-sort b (get_or r a [])
          ∙ mems a b
          ∙ ap (λ xs. linked directed one_based es a b || mem b xs)
              (get_or-replicate {A = List ℕ} n a [])
          ∙ or_false (linked directed one_based es a b),
    )

-- What is read as an undirected graph is one with no self loop.
pub linked-IsAdjacency :
    (one_based : Bool) (n : ℕ) (es : List (ℕ × ℕ)) (r : List (List ℕ))
    → are_nodes one_based n es ≡ true
    → length r ≡ n
    → ((a : ℕ) → IsAscending (get_or r a []))
    → ((a b : ℕ) → mem b (get_or r a []) ≡ linked false one_based es a b)
    → IsAdjacency n r
linked-IsAdjacency one_based n es r nodes sized ascending same = record {
  rows = sized;
  ascending = ascending;
  below = λ a b h. linked-lt one_based n es a b nodes (sym (same a b) ∙ h);
  symmetric = λ a b. same a b ∙ linked_comm one_based es a b ∙ sym (same b a);
  loopless = λ a. same a a ∙ linked_irrefl one_based n es a nodes;
}
