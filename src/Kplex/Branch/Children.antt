-- ===== src/Kplex/Branch/Children.antt =====
-- The states that `ListChildren` calls back on (enumerable/diam2kplex.hpp).
use parallel_enum.Base.{
  ℕ, ◌≤◌, ◌<◌, ◌≡◌, ◌≢◌, ◌∙◌, Bool, true, false, List, [], ◌∷◌, ◌++◌, length, map, set, ◌==◌,
  ==_iff, arith, mem, mem-append, occurrences, occurrences-eq-zero, Bool-cases, inl, inr, replicate,
}
use parallel_enum.Graph.{Graph, IsGraph}
use parallel_enum.Kplex.{
  Impl, Block, node_at, row, add_to_kplex, update_cand_and_excl, is_empty, is_maximal, can_prune,
}
use parallel_enum.Kplex.Branch.{
  add_universals, get_cands, each_child, list_children, has_universal_in_excl,
}
use parallel_enum.Kplex.Branch.Universal.{IsUniversal, far-eq-zero}
use parallel_enum.Kplex.Branch.Cands.{get_cands-Gives}
use parallel_enum.Kplex.Branch.Adding.{Adds, add_to_kplex-Adds, add_universals-Adds}
use parallel_enum.Kplex.Counters.{far-append, IsBlock}
use parallel_enum.Kplex.CanAdd.{mem-map}
use parallel_enum.Kplex.Node.{IsNode}
use parallel_enum.Kplex.Update.{update_cand_and_excl-IsNode}

module _ (sort : (ℕ → ℕ → Bool) → List ℕ → List ℕ)
    (sorts : (lt : ℕ → ℕ → Bool) (xs : List ℕ) (a : ℕ)
      → occurrences a (sort lt xs) ≡ occurrences a xs)
    (g : Graph) (v : IsGraph g) (b : Block) (block : IsBlock g b (length b.subgraph)) (k : ℕ)
    (small : k < 256) where
  abbrev n : ℕ
  n = length b.subgraph

  -- A state of the search with more members.
  abbrev pub IsChild : Impl → Impl → Type 0
  IsChild s t = IsNode g b n k t × (us : List ℕ) × (1 ≤ length us) × (t.kplex ≡ s.kplex ++ us)

  update-IsChild :
      (us : List ℕ) (s t : Impl) (add_to_excl : List ℕ) (bits : List Bool)
      → IsNode g b n k s
      → Adds g b n k v block us s t
      → 1 ≤ length us
      → ((e : ℕ) → mem e add_to_excl ≡ true → e < n)
      → IsChild s (update_cand_and_excl g b k add_to_excl bits t)
  update-IsChild us s t add_to_excl bits node adds pos below =
      let r =
        update_cand_and_excl-IsNode g b n k v small add_to_excl bits t adds.core
          (rw adds.excluded (λ e m. (node.excluded e m).0))
          (rw adds.cands (record {
            distinct = node.are_cands.distinct;
            marked = λ e h. node.are_cands.marked e (adds.marked e h);
            within = node.are_cands.within;
          }))
          below in
      (r.0, us, pos, r.1 ∙ adds.kplex)

  universal-near :
      (s : Impl) (u : ℕ)
      → IsNode g b n k s
      → IsUniversal b s u
      → (1 ≤ k)
        × (u < n)
        × ((w : ℕ) → mem w s.kplex ≡ true → g.are_neighs (node_at b u) (node_at b w) ≡ true)
  universal-near s u node all =
      let xs = map (node_at b) s.kplex in
      let x = node_at b u in
      let (lt, more) = node.cands u all.is_cand in
      let le = more x (ground (arith, mem-append x xs (x ∷ []))) in
      let sum = far-append g x xs (x ∷ []) in
      let exact = node.core.counts.counted u lt in
      let none = all.no_counter in
      elim (Bool-cases (g.are_neighs x x)) [
        | inl loop ↦ absurd (v.irreflexive x loop)
        | inr no_loop ↦ (
          ground arith,
          lt,
          λ w m. (far-eq-zero g x xs).0 (ground arith) (node_at b w) (mem-map b w s.kplex m),
        )
      ]

  universals-near :
      (s : Impl) (u w : ℕ)
      → IsNode g b n k s
      → IsUniversal b s u
      → IsUniversal b s w
      → u ≢ w
      → g.are_neighs (node_at b u) (node_at b w) ≡ true
  universals-near s u w node all_u all_w ne =
      let lt_u = (node.cands u all_u.is_cand).0 in
      let lt_w = (node.cands w all_w.is_cand).0 in
      let here = block.complement u w lt_u lt_w in
      let zero_if = occurrences-eq-zero w (row b u) in
      elim (Bool-cases (mem w (row b u))) [
        | inl m ↦ absurd (all_u.alone w m ne (node.all_marked w all_w.is_cand))
        | inr m ↦ ground arith
      ]

  module _ {W : Type 0} (cb : Impl → W → Bool × W) (P : W → Type 0) (s : Impl)
      (node : IsNode g b n k s)
      (keeps : (t : Impl) (w : W) → IsChild s t → P w → P (cb t w).1) where
    each_child-keeps :
        (cs add_to_excl : List ℕ) (bits : List Bool) (w : W)
        → ((e : ℕ) → mem e cs ≡ true → mem e s.cands ≡ true)
        → ((e : ℕ) → mem e add_to_excl ≡ true → e < n)
        → P w
        → P (each_child sort g b cb k s cs add_to_excl bits w)
    unfolding each_child
    each_child-keeps [] add_to_excl bits w from below p = p
    each_child-keeps (c ∷ cs) add_to_excl bits w from below p =
        let here = from c (ground arith) in
        let (lt, more) = node.cands c here in
        let adds = add_to_kplex-Adds g b n k v block s c node.core lt more in
        let child = update_cand_and_excl g b k add_to_excl bits (add_to_kplex b k c s) in
        let p' =
          keeps child w
            (update-IsChild (c ∷ []) s (add_to_kplex b k c s) add_to_excl bits node adds
              (omega arith) below)
            p in
        let rest =
          each_child-keeps cs (add_to_excl ++ c ∷ []) (set bits c true) (cb child w).1
            (λ e m. from e (ground arith))
            (λ e m. elim (Bool-cases (e == c)) [
              | inl q ↦ rw ((==_iff e c).0 q) lt
              | inr q ↦ below e (ground (arith, mem-append e add_to_excl (c ∷ [])))
            ])
            p' in
        elim (Bool-cases (cb child w).0) [ inl h ↦ rw h rest | inr h ↦ rw h p' ]

    all_at_once :
        (us : List ℕ)
        → ((u : ℕ) → mem u us ≡ true → IsUniversal b s u)
        → ((u : ℕ) → occurrences u us ≤ 1)
        → is_empty us ≡ false
        → (w : W) → P w
        → P (cb (update_cand_and_excl g b k [] (replicate n false) (add_universals b k us s)) w).1
    all_at_once [] universal once some_found w p = absurd (cc)
    all_at_once (u ∷ us) universal once some_found w p =
        let first = universal-near s u node (universal u (ground arith)) in
        let adds =
          add_universals-Adds g b n k v block (u ∷ us) s first.0 node.core
            (λ x m. (universal-near s x node (universal x m)).1)
            (λ x y mx my. (universal-near s x node (universal x mx)).2 y my)
            (λ x y mx my ne. universals-near s x y node (universal x mx) (universal y my) ne)
            once in
        keeps _ w
          (update-IsChild (u ∷ us) s (add_universals b k (u ∷ us) s) [] (replicate n false) node
            adds (omega arith) (λ e m. absurd (cc)))
          p

    -- On a block of an undirected graph whose `nadj` is the complement and with k below 256, from a
    -- state that the search may visit (the counters count non-neighbours modulo 256, the members
    -- are a k-plex, each candidate and each excluded node extends it to a k-plex, the candidates
    -- are distinct and just the nodes marked so) `ListChildren` hands its callback only states that
    -- the search may visit and that have more members: a property of the callback's state that the
    -- callback keeps on such states holds at the end. The sorting function may be any that permutes
    -- a list.
    pub list_children-IsChild :
        (q : ℕ) (enable_pivoting : Bool) (w : W)
        → P w
        → P (list_children sort g b cb k q enable_pivoting s w)
    unfolding list_children
    list_children-IsChild q enable_pivoting w p =
        let got = get_cands sort g b k enable_pivoting s in
        let gives = get_cands-Gives sort sorts g b k enable_pivoting s node in
        let no_bits = replicate n false in
        elim (Bool-cases (is_maximal k s)) [
          | inl h ↦ rw h p
          | inr h₁ ↦ elim (Bool-cases (can_prune q s)) [
            | inl h ↦ rw (h₁, h) p
            | inr h₂ ↦ elim (Bool-cases (has_universal_in_excl b s)) [
              | inl h ↦ rw (h₁, h₂, h) p
              | inr h₃ ↦ elim (Bool-cases (is_empty got.0)) [
                | inl h ↦
                    rw (h₁, h₂, h₃, h)
                      (each_child-keeps got.1 [] no_bits w gives.from_cands (λ e m. absurd (cc)) p)
                | inr h ↦ rw (h₁, h₂, h₃, h) (all_at_once got.0 gives.universal gives.once h w p)
              ]
            ]
          ]
        ]
