-- ===== src/Kplex/Node.antt =====
-- What holds of each state that the search for k-plexes visits, and that `UpdateCandAndExcl`
-- restores it (enumerable/diam2kplex.hpp).
use parallel_enum.Base.{
  ℕ, zero, suc, ◌≤◌, ◌<◌, ◌≡◌, ◌≢◌, refl, ◌∙◌, true, List, [], ◌∷◌, ◌++◌, length, map, get_or, set,
  ◌==◌, ==_iff, arith, mem, mem-append, occurrences, length-set, Bool-cases, inl, inr, ap,
}
use parallel_enum.Graph.{Graph, IsGraph}
use parallel_enum.Kplex.{
  Impl, Block, node_at, status_of, in_cand, in_excl, no_status, can_add, update_excluded, to_item,
}
use parallel_enum.Kplex.Counters.{IsPlex, IsCounted}
use parallel_enum.Kplex.CanAdd.{can_add_node_iff}

pub set-in_cand :
    (st : List ℕ) (e x i : ℕ)
    → x ≢ in_cand
    → get_or (set st e x) i 0 ≡ in_cand
    → get_or st i 0 ≡ in_cand
set-in_cand [] e x i ne h = h
set-in_cand (y ∷ st) zero x zero ne h = absurd (ne h)
set-in_cand (y ∷ st) zero x (suc i) ne h = h
set-in_cand (y ∷ st) (suc e) x zero ne h = h
set-in_cand (y ∷ st) (suc e) x (suc i) ne h = set-in_cand st e x i ne h

module _ (g : Graph) (b : Block) (n k : ℕ) where
  -- The members are indices and form a k-plex, and the counters are right.
  pub record IsCore (s : Impl) : Type 0 where
    pub counts : IsCounted g b n s
    pub within : (i : ℕ) → mem i s.kplex ≡ true → i < n
    pub plex : IsPlex g k (map (node_at b) s.kplex)
    pub marks : length s.status ≡ n

  -- Each index of the list can be appended to the k-plex.
  abbrev pub AllExtend : Impl → List ℕ → Type 0
  AllExtend s is =
      (e : ℕ) → mem e is ≡ true → (e < n) × IsPlex g k (map (node_at b) s.kplex ++ node_at b e ∷ [])

  -- The candidates are distinct, and the nodes that are marked as candidates.
  pub record AreCands (s : Impl) (is : List ℕ) : Type 0 where
    pub distinct : (e : ℕ) → occurrences e is ≤ 1
    pub marked : (e : ℕ) → (status_of s e ≡ in_cand) → mem e is ≡ true
    pub within : (e : ℕ) → mem e is ≡ true → e < n

  -- A state that the search visits.
  pub record IsNode (s : Impl) : Type 0 where
    pub core : IsCore s
    pub cands : AllExtend s s.cands
    pub excluded : AllExtend s s.excluded
    pub are_cands : AreCands s s.cands
    pub all_marked : (e : ℕ) → mem e s.cands ≡ true → status_of s e ≡ in_cand

  abbrev pub Below : List ℕ → Type 0
  Below is = (e : ℕ) → mem e is ≡ true → e < n

  -- Only candidates, excluded nodes and marks change.
  pub IsCore-frame :
      (s t : Impl)
      → t.kplex ≡ s.kplex
      → t.counters ≡ s.counters
      → length t.status ≡ length s.status
      → IsCore s
      → IsCore t
  IsCore-frame s t ek ec es c = record {
    counts = record {
      sized = ap length ec ∙ c.counts.sized;
      bytes = rw ec c.counts.bytes;
      counted = rw (ek, ec) c.counts.counted;
    };
    within = rw ek c.within;
    plex = rw ek c.plex;
    marks = es ∙ c.marks;
  }

  -- What a loop over excluded nodes keeps.
  pub record Excludes (s t : Impl) : Type 0 where
    pub core : IsCore t
    pub excluded : AllExtend t t.excluded
    pub kplex : t.kplex ≡ s.kplex
    pub cands : t.cands ≡ s.cands
    pub marked : (e : ℕ) → status_of t e ≡ in_cand → status_of s e ≡ in_cand

  pub append-AllExtend :
      (s : Impl) (is : List ℕ) (e : ℕ)
      → AllExtend s is
      → e < n
      → IsPlex g k (map (node_at b) s.kplex ++ node_at b e ∷ [])
      → AllExtend s (is ++ e ∷ [])
  append-AllExtend s is e all lt more i m = elim (Bool-cases (i == e)) [
    | inl q ↦ let q' : i ≡ e = (==_iff i e).0 q in rw q' (lt, more)
    | inr d ↦ all i (ground (arith, mem-append i is (e ∷ [])))
  ]

  module _ (v : IsGraph g) (small : k < 256) where
    pub can_add-extends :
        (s : Impl) (e : ℕ)
        → IsCore s
        → can_add g b k s e ≡ true
        → IsPlex g k (map (node_at b) s.kplex ++ node_at b e ∷ [])
    unfolding can_add to_item
    can_add-extends s e c h =
        (can_add_node_iff g b k s v c.counts small c.within c.plex (node_at b e)).0 (ground arith)

    pub update_excluded-Excludes :
        (es : List ℕ) (s : Impl)
        → Below es
        → IsCore s
        → AllExtend s s.excluded
        → Excludes s (update_excluded g b k es s)
    unfolding update_excluded
    update_excluded-Excludes [] s below c all = record {
      core = c;
      excluded = all;
      kplex = refl;
      cands = refl;
      marked = λ e h. h;
    }
    update_excluded-Excludes (e ∷ es) s below c all = elim (Bool-cases (can_add g b k s e)) [
      | inl h ↦
          let s' = record s { excluded = s.excluded ++ e ∷ []; status = set s.status e in_excl } in
          let rest =
            update_excluded-Excludes es s' (λ i m. below i (ground arith))
              (IsCore-frame s s' refl refl (length-set s.status e in_excl) c)
              (append-AllExtend s s.excluded e all (below e (ground arith))
                (can_add-extends s e c h)) in
          rw h (record {
            core = rest.core;
            excluded = rest.excluded;
            kplex = rest.kplex;
            cands = rest.cands;
            marked = λ i q.
                set-in_cand s.status e in_excl i (λ w. absurd (ground arith)) (rest.marked i q);
          })
      | inr h ↦
          let s' = record s { status = set s.status e no_status } in
          let rest =
            update_excluded-Excludes es s' (λ i m. below i (ground arith))
              (IsCore-frame s s' refl refl (length-set s.status e no_status) c) all in
          rw h (record {
            core = rest.core;
            excluded = rest.excluded;
            kplex = rest.kplex;
            cands = rest.cands;
            marked = λ i q.
                set-in_cand s.status e no_status i (λ w. absurd (ground arith)) (rest.marked i q);
          })
    ]
