-- ===== src/Graph/Fast/Renamed.antt =====
-- A permuted graph has the edges of the old one under new names (util/graph.hpp).
use parallel_enum.Base.{
  ℕ, ◌≤◌, ◌<◌, ◌≡◌, ◌≢◌, refl, sym, ap, subst, ◌∙◌, true, List, [], ◌∷◌, map, length, get_or,
  replicate, length-replicate, get_or-replicate, ltb, ◌==◌, ==_iff, if◌then◌else◌, arith, mem,
  occurrences, occurrences-eq-zero, Bool-cases, inl, inr, lt→ltb, ltb→lt, ltb→ge, sort,
  sort-IsSorted, occurrences-sort, IsSorted-IsAscending, IsAscending, get_or_past, Each,
}
use parallel_enum.Graph.Fast.{BaseGraph, permuted_edges}
use parallel_enum.Graph.Fast.Valid.{IsAdjacency}
use parallel_enum.Graph.Fast.Order.{
  IsOrder, order, positions, position, order-lt, position-order, order-position,
  occurrences-positions,
}
use parallel_enum.Graph.Fast.Permute.{permute_edges-row, length-permute_edges}

none_below : (v : ℕ) (xs : List ℕ) → Each (λ y. v < y) xs → occurrences v xs ≡ 0
none_below v [] h = refl
none_below v (x ∷ xs) h = ground (arith, none_below v xs h.1, h.0)

sink : (a b : ℕ) (xs : List ℕ) → b < a → Each (λ y. a < y) xs → Each (λ y. b < y) xs
sink a b [] lt h = tt
sink a b (x ∷ xs) lt h = (omega (arith, h.0), sink a b xs lt h.1)

-- An ascending list has a number at most once.
occurrences_le_one : (v : ℕ) (xs : List ℕ) → IsAscending xs → occurrences v xs ≤ 1
occurrences_le_one v [] h = omega arith
occurrences_le_one v (x ∷ xs) h = elim (Bool-cases (v == x)) [
  | inl e ↦
      let e' : v ≡ x = (==_iff v x).0 e in
      let gone : occurrences v xs ≡ 0 =
        none_below v xs (subst (λ z. Each (λ y. z < y) xs) (sym e') h.0) in
      ground arith
  | inr ne ↦ let rest = occurrences_le_one v xs h.1 in ground arith
]

mem_of_occurrences :
    (a b : ℕ) (xs ys : List ℕ) → occurrences a xs ≡ occurrences b ys → mem a xs ≡ mem b ys
mem_of_occurrences a b xs ys e =
    let p = occurrences-eq-zero a xs in
    let q = occurrences-eq-zero b ys in
    elim (Bool-cases (mem a xs)) [
      | inl y ↦ elim (Bool-cases (mem b ys)) [
        | inl z ↦ y ∙ sym z
        | inr z ↦ absurd (let f = p.1 (e ∙ q.0 z) in cc)
      ]
      | inr y ↦ y ∙ sym (q.1 (sym e ∙ p.0 y))
    ]

module _ {L : Type 0} (wrong : ℕ) (new_order : List ℕ) (g : BaseGraph L)
    (good : IsOrder g.size new_order) (valid : IsAdjacency g.size g.edges) where
  abbrev pub moved : ℕ → ℕ
  moved i = order g.size wrong new_order good i

  abbrev place : ℕ → ℕ
  place a = position g.size wrong new_order good a

  abbrev positions' : List ℕ
  positions' = positions g.size wrong new_order good

  apart : (a b : ℕ) → a < g.size → b < g.size → a ≢ b → place a ≢ place b
  apart a b la lb ne e = ne (
      sym (order-position g.size wrong new_order good a la).1
      ∙ ap moved e
      ∙ (order-position g.size wrong new_order good b lb).1)

  abbrev rows : List (List ℕ)
  rows = permuted_edges wrong new_order g

  length-rows : length rows ≡ g.size
  unfolding permuted_edges
  length-rows =
      length-permute_edges positions' g.edges 0 g.size (replicate g.size [])
      ∙ length-replicate {A = List ℕ} g.size []

  row_at : (j : ℕ) → j < g.size → get_or rows j [] ≡ sort (map place (get_or g.edges (moved j) []))
  unfolding permuted_edges
  row_at j lt =
      let m = moved j in
      let below : m < g.size = order-lt g.size wrong new_order good j lt in
      let e : place m ≡ j = position-order g.size wrong new_order good j lt in
      let blank = replicate {A = List ℕ} g.size [] in
      subst (λ q. get_or rows q [] ≡ sort (map place (get_or g.edges m []))) e
        (permute_edges-row positions' g.edges 0 g.size m blank (omega arith) (omega arith)
          (rw (length-replicate {A = List ℕ} g.size []) (rw e lt))
          (get_or-replicate {A = List ℕ} g.size (place m) [])
          (λ j' le lt' ne. apart j' m (omega arith) below ne))

  occurrences-row :
      (j b : ℕ)
      → j < g.size
      → occurrences b (get_or rows j [])
        ≡ (if ltb b g.size then occurrences (moved b) (get_or g.edges (moved j) []) else 0)
  occurrences-row j b lt =
      let old = get_or g.edges (moved j) [] in
      ap (λ xs. occurrences b xs) (row_at j lt)
      ∙ occurrences-sort b (map place old)
      ∙ occurrences-positions g.size wrong new_order good b old (λ x m. valid.below (moved j) x m)

  -- The new neighbours are the old ones under their new names.
  pub mem-row :
      (j b : ℕ)
      → j < g.size
      → b < g.size
      → mem b (get_or rows j []) ≡ mem (moved b) (get_or g.edges (moved j) [])
  mem-row j b lj lb =
      let old = get_or g.edges (moved j) [] in
      let inside = lt→ltb b g.size lb in
      mem_of_occurrences b (moved b) (get_or rows j []) old
        (occurrences-row j b lj ∙ rw inside refl)

  row-below : (j b : ℕ) → mem b (get_or rows j []) ≡ true → b < g.size
  row-below j b h = elim (Bool-cases (ltb j g.size)) [
    | inr out ↦
        let e = get_or_past rows j [] (omega (arith, length-rows, ltb→ge j g.size out)) in
        absurd (let h' : mem b [] ≡ true = sym (ap (λ xs. mem b xs) e) ∙ h in cc)
    | inl inside ↦ elim (Bool-cases (ltb b g.size)) [
      | inl y ↦ ltb→lt b g.size y
      | inr out ↦
          let zero_if = occurrences-eq-zero b (get_or rows j []) in
          let gone : occurrences b (get_or rows j []) ≡ 0 =
            occurrences-row j b (ltb→lt j g.size inside) ∙ rw out refl in
          absurd (let f = zero_if.1 gone in cc)
    ]
  ]

  row-inside : (j b : ℕ) → mem b (get_or rows j []) ≡ true → j < g.size
  row-inside j b h = elim (Bool-cases (ltb j g.size)) [
    | inl y ↦ ltb→lt j g.size y
    | inr out ↦
        let e = get_or_past rows j [] (omega (arith, length-rows, ltb→ge j g.size out)) in
        absurd (let h' : mem b [] ≡ true = sym (ap (λ xs. mem b xs) e) ∙ h in cc)
  ]

  turn : (a b : ℕ) → mem b (get_or rows a []) ≡ true → mem a (get_or rows b []) ≡ true
  turn a b h =
      let la = row-inside a b h in
      let lb = row-below a b h in
      mem-row b a lb la ∙ valid.symmetric (moved b) (moved a) ∙ sym (mem-row a b la lb) ∙ h

  row-IsAscending : (j : ℕ) → IsAscending (get_or rows j [])
  row-IsAscending j = elim (Bool-cases (ltb j g.size)) [
    | inr out ↦
        let e = get_or_past rows j [] (omega (arith, length-rows, ltb→ge j g.size out)) in rw e tt
    | inl inside ↦
        let lt = ltb→lt j g.size inside in
        let sorted = sort-IsSorted (map place (get_or g.edges (moved j) [])) in
        let once : (v : ℕ) → occurrences v (get_or rows j []) ≤ 1 = λ v.
          let le =
            occurrences_le_one (moved v) (get_or g.edges (moved j) [])
              (valid.ascending (moved j)) in
          let here = occurrences-row j v lt in ground arith in
        IsSorted-IsAscending (get_or rows j []) (rw (row_at j lt) sorted) once
  ]

  -- The new lists are again those of an undirected graph with no self loop.
  pub rows-IsAdjacency : IsAdjacency g.size rows
  rows-IsAdjacency = record {
    rows = length-rows;
    ascending = row-IsAscending;
    below = row-below;
    symmetric = λ a b. elim (Bool-cases (mem b (get_or rows a []))) [
      | inl y ↦ y ∙ sym (turn a b y)
      | inr y ↦ elim (Bool-cases (mem a (get_or rows b []))) [
        | inl z ↦ absurd (let back = turn b a z in cc)
        | inr z ↦ y ∙ sym z
      ]
    ];
    loopless = λ a. elim (Bool-cases (mem a (get_or rows a []))) [
      | inr y ↦ y
      | inl y ↦
          let lt = row-inside a a y in
          absurd (let e = mem-row a a lt lt in let never = valid.loopless (moved a) in cc)
    ];
  }
