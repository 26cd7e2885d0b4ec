-- ===== src/Graph/TwoHop/Count.antt =====
-- What `TwoHopSize` counts (ui/stats.cpp).
use parallel_enum.Base.{
  ℕ, ◌+◌, ◌<◌, ◌≡◌, ◌↔◌, refl, sym, ap, ◌∙◌, Bool, true, false, not, ◌||◌, ◌&&◌, List, [], ◌∷◌,
  ◌++◌, length, get_or, set, if◌then◌else◌, ◌==◌, ==_iff, mem, mem-append, get_or-set-false,
  occurrences, occurrences-append, occurrences-eq-zero, arith, Bool-cases, inl, inr,
  get_or-set_self, get_or-set_ne, length-set,
}
use parallel_enum.Graph.{Graph, IsGraph}
use parallel_enum.Graph.TwoHop.{reach, reach_all, two_hops, unmark, two_hop_size, is_near}

reach_new :
    (n : ℕ) (ans : List ℕ) (added : List Bool) (x : ℕ)
    → n < length added
    → (occurrences x (reach n (ans, added)).0
        ≡ occurrences x ans + (if x == n && not (get_or added x false) then 1 else 0))
      × (get_or (reach n (ans, added)).1 x false ≡ (x == n || get_or added x false))
      × (length (reach n (ans, added)).1 ≡ length added)
unfolding reach
reach_new n ans added x lt = elim (Bool-cases (get_or added n false)) [
  | inl seen ↦ rw seen (elim (Bool-cases (x == n)) [
    | inl e ↦
        let e' : x ≡ n = (==_iff x n).0 e in
        let seen' : get_or added x false ≡ true = ap (λ z. get_or added z false) e' ∙ seen in
        rw (e, seen') (omega arith, refl, refl)
    | inr ne ↦ rw ne (omega arith, refl, refl)
  ])
  | inr fresh ↦ rw fresh (elim (Bool-cases (x == n)) [
    | inl e ↦
        let e' : x ≡ n = (==_iff x n).0 e in
        let fresh' : get_or added x false ≡ false = ap (λ z. get_or added z false) e' ∙ fresh in
        let more = occurrences-append x ans (n ∷ []) in
        let on : get_or (set added n true) x false ≡ true =
          ap (λ z. get_or (set added n true) z false) e' ∙ get_or-set_self added n true false lt in
        rw (e, fresh', on) (ground arith, refl, length-set added n true)
    | inr ne ↦
        let more = occurrences-append x ans (n ∷ []) in
        let same = get_or-set_ne added n x true false (λ q. absurd (ground arith)) in
        rw (ne, same) (ground arith, refl, length-set added n true)
  ])
]

AllBelow : ℕ → List ℕ → Type 0
AllBelow n xs = (x : ℕ) → mem x xs ≡ true → x < n

-- The nodes of the list that were not marked are appended once, and all are marked.
reach_all-new :
    (ns ans : List ℕ) (added : List Bool) (x : ℕ)
    → AllBelow (length added) ns
    → (occurrences x (reach_all ns (ans, added)).0
        ≡ occurrences x ans + (if mem x ns && not (get_or added x false) then 1 else 0))
      × (get_or (reach_all ns (ans, added)).1 x false ≡ (mem x ns || get_or added x false))
      × (length (reach_all ns (ans, added)).1 ≡ length added)
unfolding reach_all AllBelow
reach_all-new [] ans added x below = (omega arith, refl, refl)
reach_all-new (n ∷ ns) ans added x below =
    let first = reach n (ans, added) in
    let (more, marked, sized) = reach_new n ans added x (below n (ground arith)) in
    let (more', marked', sized') =
      reach_all-new ns first.0 first.1 x (λ y m. omega (arith, sized, below y (ground arith))) in
    (ground arith, ground arith, sized' ∙ sized)

-- The nodes that the loop comes to, in its order.
hops : Graph → List ℕ → List ℕ
hops g [] = []
hops g (n ∷ ns) = n ∷ (g.neighs n ++ hops g ns)

reach_all-append :
    (xs ys : List ℕ) (st : List ℕ × List Bool)
    → reach_all (xs ++ ys) st ≡ reach_all ys (reach_all xs st)
unfolding reach_all
reach_all-append [] ys st = refl
reach_all-append (x ∷ xs) ys st = reach_all-append xs ys (reach x st)

two_hops-hops :
    (g : Graph) (ns : List ℕ) (st : List ℕ × List Bool)
    → two_hops g ns st ≡ reach_all (hops g ns) st
unfolding two_hops hops reach_all
two_hops-hops g [] st = refl
two_hops-hops g (n ∷ ns) st =
    two_hops-hops g ns (reach_all (g.neighs n) (reach n st))
    ∙ sym (reach_all-append (g.neighs n) (hops g ns) (reach n st))

mem-hops : (g : Graph) (ns : List ℕ) (x : ℕ) → mem x (hops g ns) ≡ is_near g ns x
unfolding hops
mem-hops g [] x = refl
mem-hops g (n ∷ ns) x =
    let rest = mem-hops g ns x in let split = mem-append x (g.neighs n) (hops g ns) in ground arith

is_near-lt :
    (g : Graph)
    → IsGraph g
    → (ns : List ℕ) (x : ℕ) → AllBelow g.size ns
    → is_near g ns x ≡ true
    → x < g.size
unfolding AllBelow
is_near-lt g good [] x below h = absurd (cc)
is_near-lt g good (n ∷ ns) x below h =
    let rest = is_near-lt g good ns x (λ y m. below y (ground arith)) in
    let here = below n (ground arith) in
    let near : mem x (g.neighs n) ≡ true → x < g.size =
      λ m. good.bounded n x ((good.neighs_iff n x).0 m) in
    ground arith

unmark-get_or :
    (ns : List ℕ) (added : List Bool) (x : ℕ)
    → get_or (unmark ns added) x false ≡ (not (mem x ns) && get_or added x false)
unfolding unmark
unmark-get_or [] added x = refl
unmark-get_or (n ∷ ns) added x =
    let rest = unmark-get_or ns (set added n false) x in
    let off = get_or-set-false added n x in ground (arith, mem x ns, get_or added x false)

-- On an undirected graph and from marks that are all off, `TwoHopSize` answers how many other nodes
-- are a neighbour of the node or of a neighbour of it, each counted once. It leaves the mark of the
-- node itself on, and the others off.
pub two_hop_size-Counts :
    (g : Graph) (v : ℕ) (added : List Bool)
    → IsGraph g
    → length added ≡ g.size
    → v < g.size
    → ((x : ℕ) → get_or added x false ≡ false)
    → ((ans : List ℕ) × ((two_hop_size g v added).0 ≡ length ans)
        × ((x : ℕ)
            → occurrences x ans ≡ (if is_near g (g.neighs v) x && not (x == v) then 1 else 0)))
      × ((x : ℕ) → get_or (two_hop_size g v added).1 x false ≡ (x == v))
unfolding two_hop_size AllBelow
two_hop_size-Counts g v added good sized lt clean =
    let start = set added v true in
    let sized' : length start ≡ g.size = length-set added v true ∙ sized in
    let marks : (x : ℕ) → get_or start x false ≡ (x == v) = λ x. elim (Bool-cases (x == v)) [
      | inl e ↦
          let e' : x ≡ v = (==_iff x v).0 e in
          let room : v < length added = omega (arith, sized) in
          ap (λ z. get_or start z false) e' ∙ get_or-set_self added v true false room ∙ sym e
      | inr ne ↦ get_or-set_ne added v x true false (λ q. absurd (ground arith)) ∙ clean x ∙ sym ne
    ] in
    let near = hops g (g.neighs v) in
    let below : (x : ℕ) → mem x near ≡ true → x < length start = λ x m.
      let lt' =
        is_near-lt g good (g.neighs v) x (λ y h. good.bounded v y ((good.neighs_iff v y).0 h))
          (sym (mem-hops g (g.neighs v) x) ∙ m) in
      omega (arith, sized') in
    let reached = two_hops g (g.neighs v) ([], start) in
    let e : reached ≡ reach_all near ([], start) = two_hops-hops g (g.neighs v) ([], start) in
    let counts : (x : ℕ)
        → occurrences x reached.0 ≡ (if is_near g (g.neighs v) x && not (x == v) then 1 else 0) =
      λ x.
        ap (λ st. occurrences x st.0) e
        ∙ (reach_all-new near [] start x below).0
        ∙ rw (mem-hops g (g.neighs v) x, marks x) (omega arith) in
    (
      (reached.0, refl, counts),
      λ x.
          let now : get_or reached.1 x false ≡ (is_near g (g.neighs v) x || x == v) =
            ap (λ st. get_or st.1 x false) e
            ∙ (reach_all-new near [] start x below).1
            ∙ rw (mem-hops g (g.neighs v) x, marks x) refl in
          let listed = occurrences-eq-zero x reached.0 in
          let count = counts x in
          unmark-get_or reached.0 reached.1 x
          ∙ leaves (mem x reached.0) (is_near g (g.neighs v) x) (x == v) _ now listed count,
    )
  where
    leaves :
        (listed near same marked : Bool) {n : ℕ}
        → marked ≡ (near || same)
        → (listed ≡ false) ↔ (n ≡ 0)
        → n ≡ (if near && not same then 1 else 0)
        → (not listed && marked) ≡ same
    leaves listed near same marked e iff count = ground (arith, listed)
