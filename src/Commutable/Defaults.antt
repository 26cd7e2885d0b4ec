-- ===== src/Commutable/Defaults.antt =====
-- The virtual functions that a commutable system need not override
-- (enumerable/commutable.hpp): which elements they call back with.
use parallel_enum.Base.{
  ℕ, zero, suc, ◌+◌, ◌≡◌, refl, sym, ap, subst, arith, Bool, false, List, [], ◌∷◌, Option, some,
  inl, inr, if◌then◌else◌, ltb, leb, ◌==◌, mem, occurrences, mem-sort, sort, tabulate, Bool-cases,
}
use parallel_enum.Commutable.{outside, restricted_cands_all, valid_seeds_all}

pub mem-outside :
    (v : ℕ) (ss l : List ℕ) → mem v (outside ss l) ≡ (if mem v ss then false else mem v l)
unfolding outside
mem-outside v ss [] = ground (arith, Bool-cases (mem v ss))
mem-outside v ss (i ∷ l) = elim (Bool-cases (v == i)) [
  | inl same ↦
      let e : v ≡ i = ground arith in
      subst (λ w. mem w (outside ss (i ∷ l)) ≡ (if mem w ss then false else mem w (i ∷ l))) (sym e)
        (ground (
          arith,
          subst (λ w. mem w (outside ss l) ≡ (if mem w ss then false else mem w l)) e
              (mem-outside v ss l),
        ))
  | inr other ↦ ground (arith, mem-outside v ss l)
]

occurrences-outside :
    (v : ℕ) (ss l : List ℕ)
    → occurrences v (outside ss l) ≡ (if mem v ss then 0 else occurrences v l)
unfolding outside
occurrences-outside v ss [] = ground (arith, Bool-cases (mem v ss))
occurrences-outside v ss (i ∷ l) = elim (Bool-cases (v == i)) [
  | inl same ↦
      let e : v ≡ i = ground arith in
      let onto : mem i ss ≡ mem v ss = ap (λ w. mem w ss) (sym e) in
      ground (arith, occurrences-outside v ss l, onto)
  | inr other ↦ ground (arith, occurrences-outside v ss l)
]

occurrences-tabulate :
    (v i n : ℕ)
    → occurrences v (tabulate (λ (j : ℕ). j) i n)
      ≡ (if leb i v then (if ltb v (i + n) then 1 else 0) else 0)
unfolding tabulate
occurrences-tabulate v i zero = ground arith
occurrences-tabulate v i (suc n) = ground (arith, occurrences-tabulate v (suc i) n)

-- `RestrictedCands` calls back on each node of the graph outside of the solution, once.
pub occurrences-restricted_cands_all :
    (graph_size v : ℕ) (s level : List ℕ)
    → occurrences v (restricted_cands_all graph_size s level)
      ≡ (if mem v s then 0 else if ltb v graph_size then 1 else 0)
unfolding restricted_cands_all
occurrences-restricted_cands_all graph_size v s level = ground (
  arith,
  occurrences-outside v (sort s) (tabulate (λ (i : ℕ). i) 0 graph_size),
  mem-sort v s,
  occurrences-tabulate v 0 graph_size,
)

-- `ValidSeeds` calls back on the seeds of the solution that are smaller than the candidate.
pub valid_seeds_all-mem :
    (is_seed : ℕ → Option (List ℕ) → Bool) (sol seeds : List ℕ) (cand v : ℕ)
    → mem v (valid_seeds_all is_seed sol seeds cand)
      ≡ (if mem v seeds then (if is_seed v (some sol) then ltb v cand else false) else false)
unfolding valid_seeds_all
valid_seeds_all-mem is_seed sol [] cand v = refl
valid_seeds_all-mem is_seed sol (seed ∷ seeds) cand v = elim (Bool-cases (v == seed)) [
  | inl same ↦
      let e : v ≡ seed = ground arith in
      let onto : is_seed seed (some sol) ≡ is_seed v (some sol) =
        ap (λ w. is_seed w (some sol)) (sym e) in
      ground (arith, valid_seeds_all-mem is_seed sol seeds cand v, onto)
  | inr other ↦ ground (arith, valid_seeds_all-mem is_seed sol seeds cand v)
]
