-- ===== src/Kplex/Branch/Root/Largest.antt =====
-- `Stats` of ui/stats.cpp: the sizes of the blocks of all roots.
use parallel_enum.Base.{
  ℕ, zero, suc, ◌+◌, ◌≤◌, ◌<◌, ◌≡◌, refl, sym, ◌∙◌, subst, ap, Bool, true, false, List, [], ◌∷◌,
  Option, some, length, get_or, replicate, length-replicate, get_or-replicate, ltb, arith,
  Bool-cases, inl, inr, ◌⊎◌, if◌then◌else◌, ◌>>=◌, ==_iff, ◌==◌,
}
use parallel_enum.Graph.{Graph, IsGraph}
use parallel_enum.Kplex.{Impl, Block}
use parallel_enum.Kplex.Branch.Root.{RootScratch}
use parallel_enum.Kplex.Branch.Root.Ends.{IsClean, get_root-CalledOnce}
use parallel_enum.Kplex.Branch.Root.Sizes.{SizeScratch, root_size}
use parallel_enum.Kplex.Branch.Root.Copies.{scratch_of, root_size-IsSizeOf}
use parallel_enum.Kplex.Branch.Root.Lengths.{root_size-sized}

module _ (g : Graph) (k q : ℕ) where
  -- The loop of `Stats` from the root `i` on, on `big` and `tot`.
  pub sizes_from : ℕ → ℕ → SizeScratch → ℕ × ℕ → Option (SizeScratch × (ℕ × ℕ))
  sizes_from i zero s (big, tot) = some (s, (big, tot))
  sizes_from i (suc count) s (big, tot) = root_size g k q i s >>= λ r.
      sizes_from (suc i) count r.0 ((if ltb big r.1 then r.1 else big), tot + r.1)

  pub block_sizes : SizeScratch → Option (SizeScratch × (ℕ × ℕ))
  block_sizes s = sizes_from 0 g.size s (0, 0)

-- The scratch vectors as they are first allocated, for so many nodes.
abbrev pub fresh : ℕ → SizeScratch
fresh n = record { subgraph_added = replicate n false; subgraph_counts = replicate n 0 }

all_same :
    {A : Type 0} (xs : List A) (d : A)
    → ((i : ℕ) → get_or xs i d ≡ d)
    → xs ≡ replicate (length xs) d
all_same [] d h = refl
all_same (x ∷ xs) d h = ap (λ z. z ∷ xs) (h 0) ∙ ap (λ z. d ∷ z) (all_same xs d (λ i. h (suc i)))

some_inj : {A : Type 0} (a b : A) → some a ≡ some b → a ≡ b
some_inj a b h = cc

module _ (g : Graph) (good : IsGraph g) (k q : ℕ) (pos : 1 ≤ k) where
  -- `RootSize` leaves fresh vectors as they were.
  root_size-fresh : (v : ℕ) → (n : ℕ) × (root_size g k q v (fresh g.size) ≡ some (fresh g.size, n))
  root_size-fresh v =
      let s = fresh g.size in
      let start : RootScratch = record {
        subgraph_added = s.subgraph_added;
        subgraph_counts = s.subgraph_counts;
        nadj = [];
      } in
      let cb : Block → Impl → ℕ → Bool × ℕ = λ b t w. (true, w) in
      let clean : IsClean start = record {
        added = λ i. get_or-replicate g.size i false;
        counts = λ i. get_or-replicate g.size i 0;
      } in
      let (t, w, n, runs, sizes, _) = root_size-IsSizeOf g k q cb v start 0 in
      let (t', w', runs', clean', _, _) = get_root-CalledOnce g good cb k q v pos start 0 clean in
      let c : IsClean t =
        subst IsClean (ap (λ p. p.0) (some_inj (t', w') (t, w) (sym runs' ∙ runs))) clean' in
      let (s', n', ran, size_a, size_c) = root_size-sized g k q v s in
      let same : s' ≡ scratch_of t =
        ap (λ p. p.0) (some_inj (s', n') (scratch_of t, n) (sym ran ∙ sizes)) in
      let added : s'.subgraph_added ≡ replicate g.size false =
        all_same s'.subgraph_added false
          (λ i. ap (λ z. get_or z.subgraph_added i false) same ∙ c.added i)
        ∙ ap (λ z. replicate z false) (size_a ∙ length-replicate g.size false) in
      let counts : s'.subgraph_counts ≡ replicate g.size 0 =
        all_same s'.subgraph_counts 0
          (λ i. ap (λ z. get_or z.subgraph_counts i 0) same ∙ c.counts i)
        ∙ ap (λ z. replicate z 0) (size_c ∙ length-replicate g.size 0) in
      let whole : s' ≡ fresh g.size =
        ap (λ z. record { subgraph_added = z; subgraph_counts = s'.subgraph_counts }) added
        ∙ ap (λ z. record { subgraph_added = replicate g.size false; subgraph_counts = z })
            counts in
      (n', ran ∙ ap (λ z. some (z, n')) whole)

  -- The maximum starts from `big` and takes in the roots from `i` on.
  abbrev IsLargest : ℕ → ℕ → ℕ → ℕ → Type 0
  IsLargest i count big big' =
      (big ≤ big')
      × ((v : ℕ)
          → i ≤ v
          → v < i + count
          → (n : ℕ) × (root_size g k q v (fresh g.size) ≡ some (fresh g.size, n)) × (n ≤ big'))
      × ((big' ≡ big)
          ⊎ ((v : ℕ) × (v < i + count)
              × (root_size g k q v (fresh g.size) ≡ some (fresh g.size, big'))))

  sizes_from-IsLargest :
      (i count : ℕ) (big tot : ℕ)
      → (big' : ℕ) × (tot' : ℕ) × (sizes_from g k q i count (fresh g.size) (big, tot)
          ≡ some (fresh g.size, (big', tot')))
        × IsLargest i count big big'
  unfolding sizes_from
  sizes_from-IsLargest i zero big tot =
      (big, tot, refl, (omega arith, λ v le lt. absurd (omega arith), inl refl))
  sizes_from-IsLargest i (suc count) big tot =
      let (n, runs) = root_size-fresh i in
      let next = if ltb big n then n else big in
      let (big', tot', ends, (raised, each, attained)) =
        sizes_from-IsLargest (suc i) count next (tot + n) in
      let le : n ≤ next = ground arith in
      let le' : big ≤ next = ground arith in
      (
        big',
        tot',
        rw runs ends,
        (
          omega arith,
          λ v from lt. elim (Bool-cases (v == i)) [
            | inl e ↦
                let e' : v ≡ i = (==_iff v i).0 e in
                (n, ap (λ z. root_size g k q z (fresh g.size)) e' ∙ runs, omega arith)
            | inr ne ↦ each v (ground arith) (omega arith)
          ],
          elim attained [
            | inr later ↦ inr (later.0, omega (arith, later.1), later.2)
            | inl e ↦ elim (Bool-cases (ltb big n)) [
              | inl more ↦
                  let e' : n ≡ big' = sym (e ∙ rw more refl) in
                  inr (i, omega arith, runs ∙ ap (λ z. some (fresh g.size, z)) e')
              | inr no_more ↦ inl (e ∙ rw no_more refl)
            ]
          ],
        ),
      )

  -- On an undirected graph, with k at least 1 and from scratch vectors as they are first allocated,
  -- with one false or zero for each node, `Stats` ends and leaves these as they were. From the same
  -- vectors `RootSize` answers a number for each root and leaves them as they were; the maximum of
  -- `Stats` is at least each of these, and is 0 or one of these.
  pub block_sizes-IsLargest :
      (big : ℕ) × (tot : ℕ) × (block_sizes g k q (fresh g.size) ≡ some (fresh g.size, (big, tot)))
      × ((v : ℕ)
          → v < g.size
          → (n : ℕ) × (root_size g k q v (fresh g.size) ≡ some (fresh g.size, n)) × (n ≤ big))
      × ((big ≡ 0)
          ⊎ ((v : ℕ) × (v < g.size)
              × (root_size g k q v (fresh g.size) ≡ some (fresh g.size, big))))
  unfolding block_sizes
  block_sizes-IsLargest =
      let (big, tot, ends, (raised, each, attained)) = sizes_from-IsLargest 0 g.size 0 0 in
      (
        big,
        tot,
        ends,
        λ v lt. each v (omega arith) (omega arith),
        elim attained [ inl e ↦ inl e | inr at ↦ inr (at.0, omega (arith, at.1), at.2) ],
      )
