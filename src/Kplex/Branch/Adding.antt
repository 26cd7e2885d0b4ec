-- ===== src/Kplex/Branch/Adding.antt =====
-- What adding nodes to the k-plex keeps, `AddToKplex` once or for all universal candidates
-- (enumerable/diam2kplex.hpp).
use parallel_enum.Base.{
  ℕ, ◌≤◌, ◌<◌, ◌≡◌, ◌≢◌, refl, ◌∙◌, true, List, [], ◌∷◌, ◌++◌, length, map, get_or, ◌==◌, ==_iff,
  arith, mem, mem-append, occurrences, occurrences-eq-zero, length-set, Bool-cases, inl, inr, ap,
  sym, subst, append_assoc, append-nil,
}
use parallel_enum.Graph.{Graph, IsGraph}
use parallel_enum.Kplex.{Impl, Block, node_at, status_of, in_kplex, in_cand, add_to_kplex}
use parallel_enum.Kplex.Branch.{add_universals}
use parallel_enum.Kplex.Branch.Universal.{far-eq-zero, map-append_one}
use parallel_enum.Kplex.Counters.{far-append, IsPlex, IsBlock, add_to_kplex-IsCounted}
use parallel_enum.Kplex.CanAdd.{mem_of_map}
use parallel_enum.Kplex.Node.{IsCore, set-in_cand}

module _ (g : Graph) (b : Block) (n k : ℕ) (v : IsGraph g) (block : IsBlock g b n) where
  -- `t` is `s` with the nodes `us` added to the k-plex.
  pub record Adds (us : List ℕ) (s t : Impl) : Type 0 where
    pub core : IsCore g b n k t
    pub kplex : t.kplex ≡ s.kplex ++ us
    pub cands : t.cands ≡ s.cands
    pub excluded : t.excluded ≡ s.excluded
    pub marked : (e : ℕ) → status_of t e ≡ in_cand → status_of s e ≡ in_cand

  pub add_to_kplex-Adds :
      (s : Impl) (c : ℕ)
      → IsCore g b n k s
      → c < n
      → IsPlex g k (map (node_at b) s.kplex ++ node_at b c ∷ [])
      → Adds (c ∷ []) s (add_to_kplex b k c s)
  add_to_kplex-Adds s c core lt more =
      let (counts, kplex, status, cands, excluded) =
        add_to_kplex-IsCounted g b n k c s block lt (λ i. v.symmetric (node_at b c) (node_at b i))
          core.counts in
      record {
        core = record {
          counts = counts;
          within = rw kplex (λ i m. elim (Bool-cases (i == c)) [
            | inl e ↦ rw ((==_iff i c).0 e) lt
            | inr e ↦ core.within i (ground (arith, mem-append i s.kplex (c ∷ [])))
          ]);
          plex = rw (kplex, map-append_one b s.kplex c) more;
          marks = ap length status ∙ length-set s.status c in_kplex ∙ core.marks;
        };
        kplex = kplex;
        cands = cands;
        excluded = excluded;
        marked = λ e h.
            set-in_cand s.status c in_kplex e (λ q. absurd (omega (arith, q)))
              (subst (λ st. get_or st e 0 ≡ in_cand) status h);
      }

  -- A neighbour of all members extends the k-plex.
  near-IsPlex :
      (xs : List ℕ) (u : ℕ)
      → 1 ≤ k
      → IsPlex g k xs
      → ((w : ℕ) → mem w xs ≡ true → g.are_neighs u w ≡ true)
      → IsPlex g k (xs ++ u ∷ [])
  near-IsPlex xs u pos plex near w m =
      let sum = far-append g w xs (u ∷ []) in
      elim (Bool-cases (mem w xs)) [
        | inl old ↦
            let le = plex w old in let e = near w old in let f = v.symmetric u w in ground arith
        | inr new ↦
            let e : w ≡ u = ground (arith, mem-append w xs (u ∷ [])) in
            let none = (far-eq-zero g u xs).1 near in
            let sum' = far-append g u xs (u ∷ []) in rw e (ground arith)
      ]

  -- Nodes that are neighbours of all members and of each other.
  pub add_universals-Adds :
      (us : List ℕ) (s : Impl)
      → 1 ≤ k
      → IsCore g b n k s
      → ((u : ℕ) → mem u us ≡ true → u < n)
      → ((u w : ℕ)
          → mem u us ≡ true
          → mem w s.kplex ≡ true
          → g.are_neighs (node_at b u) (node_at b w) ≡ true)
      → ((u w : ℕ)
          → mem u us ≡ true
          → mem w us ≡ true
          → u ≢ w
          → g.are_neighs (node_at b u) (node_at b w) ≡ true)
      → ((u : ℕ) → occurrences u us ≤ 1)
      → Adds us s (add_universals b k us s)
  unfolding add_universals
  add_universals-Adds [] s pos core below old new once = record {
    core = core;
    kplex = sym (append-nil s.kplex);
    cands = refl;
    excluded = refl;
    marked = λ e h. h;
  }
  add_universals-Adds (u ∷ us) s pos core below old new once =
      let lt = below u (ground arith) in
      let more = near-IsPlex (map (node_at b) s.kplex) (node_at b u) pos core.plex (λ w m.
        let (i, here, e) = mem_of_map b w s.kplex m in
        subst (λ z. g.are_neighs (node_at b u) z ≡ true) e (old u i (ground arith) here)) in
      let one = add_to_kplex-Adds s u core lt more in
      let t = add_to_kplex b k u s in
      let rest =
        add_universals-Adds us t pos one.core (λ w m. below w (ground arith))
          (rw one.kplex (λ x w mx mw. elim (Bool-cases (w == u)) [
            | inl e ↦
                let e' : w ≡ u = (==_iff w u).0 e in
                let apart : x ≢ u = λ q.
                  let one_x = once u in
                  let some_u = occurrences-eq-zero u us in
                  let mu : mem u us ≡ true = subst (λ z. mem z us ≡ true) q mx in
                  absurd (ground arith) in
                rw e' (new x u (ground arith) (ground arith) apart)
            | inr e ↦ old x w (ground arith) (ground (arith, mem-append w s.kplex (u ∷ [])))
          ]))
          (λ x w mx mw ne. new x w (ground arith) (ground arith) ne)
          (λ x. ground (arith, once x)) in
      record {
        core = rest.core;
        kplex = rest.kplex ∙ ap (λ xs. xs ++ us) one.kplex ∙ append_assoc s.kplex (u ∷ []) us;
        cands = rest.cands ∙ one.cands;
        excluded = rest.excluded ∙ one.excluded;
        marked = λ e h. one.marked e (rest.marked e h);
      }
