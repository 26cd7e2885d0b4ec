-- ===== src/Kplex/Branch/Filling.antt =====
-- The loops of `Init` that fill the counters and the candidates (enumerable/diam2kplex.hpp).
use parallel_enum.Base.{
  ℕ, zero, suc, ◌+◌, ◌*◌, ◌≤◌, ◌<◌, ◌≡◌, ◌↔◌, ◌%◌, refl, ◌∙◌, true, false, List, [], ◌∷◌, ◌++◌,
  length, set, ◌==◌, ==_iff, arith, mem, mem-append, occurrences, occurrences-append,
  occurrences-eq-zero, length-set, Bool-cases, inl, inr, sym, subst, get_or-set_self, get_or-set_ne,
}
use parallel_enum.Kplex.{Impl, counter, status_of, in_cand}
use parallel_enum.Kplex.Branch.{init_counters, init_cands}
use parallel_enum.Kplex.Counters.{bumped, set-lt}

-- Only the counters and `non_neighs` change, and the counters count the list.
pub record Counted (is : List ℕ) (s t : Impl) : Type 0 where
  pub kplex : t.kplex ≡ s.kplex
  pub status : t.status ≡ s.status
  pub cands : t.cands ≡ s.cands
  pub excluded : t.excluded ≡ s.excluded
  pub sized : length t.counters ≡ length s.counters
  pub bytes : ((i : ℕ) → counter s i < 256) → (i : ℕ) → counter t i < 256
  pub counted :
      (i : ℕ) → i < length s.counters → counter t i % 256 ≡ (counter s i + occurrences i is) % 256

pub init_counters-Counted : (k : ℕ) (is : List ℕ) (s : Impl) → Counted is s (init_counters k is s)
unfolding init_counters
init_counters-Counted k [] s = record {
  kplex = refl;
  status = refl;
  cands = refl;
  excluded = refl;
  sized = refl;
  bytes = λ h. h;
  counted = λ i lt. omega arith;
}
init_counters-Counted k (e ∷ es) s =
    let s' = record s {
      non_neighs = set s.non_neighs (k * e + counter s e) 0;
      counters = set s.counters e ((counter s e + 1) % 256);
    } in
    let rest = init_counters-Counted k es s' in
    let sized = length-set s.counters e ((counter s e + 1) % 256) in
    record {
      kplex = rest.kplex;
      status = rest.status;
      cands = rest.cands;
      excluded = rest.excluded;
      sized = rest.sized ∙ sized;
      bytes = λ h. rest.bytes (λ i. set-lt s.counters e i _ 256 (omega arith) (h i));
      counted = λ i lt.
          let here = bumped s.counters e i lt in
          let later = rest.counted i (omega (arith, sized)) in
          omega (arith, occurrences-append i (e ∷ []) es);
    }

-- The candidates are the indices from 1 to `i`, and the nodes that are marked so.
pub record Ranges (n i : ℕ) (s : Impl) : Type 0 where
  pub members : (e : ℕ) → (mem e s.cands ≡ true) ↔ ((1 ≤ e) × (e < i))
  pub distinct : (e : ℕ) → occurrences e s.cands ≤ 1
  pub marked : (e : ℕ) → (status_of s e ≡ in_cand) ↔ (mem e s.cands ≡ true)
  pub sized : length s.status ≡ n

pub record Filled (n i : ℕ) (s t : Impl) : Type 0 where
  pub kplex : t.kplex ≡ s.kplex
  pub counters : t.counters ≡ s.counters
  pub excluded : t.excluded ≡ s.excluded
  pub ranges : Ranges n i t

pub init_cands-Filled :
    (n count i : ℕ) (s : Impl)
    → 1 ≤ i
    → i + count ≡ n
    → Ranges n i s
    → Filled n n s (init_cands count i s)
unfolding init_cands
init_cands-Filled n zero i s pos sum r = record {
  kplex = refl;
  counters = refl;
  excluded = refl;
  ranges = let e : i ≡ n = omega arith in subst (λ z. Ranges n z s) e r;
}
init_cands-Filled n (suc count) i s pos sum r =
    let s' = record s { cands = s.cands ++ i ∷ []; status = set s.status i in_cand } in
    let fresh : mem i s.cands ≡ false = elim (Bool-cases (mem i s.cands)) [
      | inl h ↦ absurd (omega (arith, (r.members i).0 h))
      | inr h ↦ h
    ] in
    let none = occurrences-eq-zero i s.cands in
    let rest = init_cands-Filled n count (suc i) s' (omega arith) (omega arith) (record {
      members = λ e. ground (arith, r.members e, mem-append e s.cands (i ∷ []));
      distinct = λ e. elim (Bool-cases (e == i)) [
        | inl q ↦
            let q' : e ≡ i = (==_iff e i).0 q in
            rw q' (ground (arith, occurrences-append i s.cands (i ∷ [])))
        | inr q ↦ ground (arith, r.distinct e, occurrences-append e s.cands (i ∷ []))
      ];
      marked = λ e. elim (Bool-cases (e == i)) [
        | inl q ↦
            let q' : e ≡ i = (==_iff e i).0 q in
            let here = get_or-set_self s.status i in_cand 0 (omega (arith, r.sized)) in
            rw q' (λ h. ground (arith, mem-append i s.cands (i ∷ [])), λ h. here)
        | inr q ↦
            let there = get_or-set_ne s.status i e in_cand 0 (λ z. absurd (ground arith)) in
            let (down, up) = r.marked e in
            (
              λ h. let m = down (sym there ∙ h) in ground (arith, mem-append e s.cands (i ∷ [])),
              λ h. there ∙ up (ground (arith, mem-append e s.cands (i ∷ []))),
            )
      ];
      sized = length-set s.status i in_cand ∙ r.sized;
    }) in
    record {
      kplex = rest.kplex;
      counters = rest.counters;
      excluded = rest.excluded;
      ranges = rest.ranges;
    }
