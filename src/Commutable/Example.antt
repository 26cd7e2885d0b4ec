-- ===== src/Commutable/Example.antt =====
-- Independent sets of a path as a commutable system (enumerable/commutable.hpp).
use parallel_enum.Base.{
  mem-append, Each, Option-cases, ℕ, zero, suc, ◌+◌, ◌-◌, ◌≡◌, ◌<◌, ◌≤◌, refl, sym, ap, ◌∙◌, subst,
  arith, Bool, true, false, not, List, [], ◌∷◌, ◌++◌, Option, none, some, ◌⊎◌, inl, inr,
  if◌then◌else◌, mem, length, sort, replicate, ◌&&◌, mem-sort, Bool-cases, ◌==◌, get_or-replicate,
}
use parallel_enum.Commutable.{
  System, can_add_alone, is_seed_alone, complete_cand_num_all, outside, restricted_cands_all,
  valid_seeds_all,
}
use parallel_enum.Commutable.Defaults.{mem-outside}
use parallel_enum.Commutable.Completion.Result.{Laws, IsClear}
use parallel_enum.Commutable.Queue.{IsBounded}
use parallel_enum.Commutable.Offspring.{get_prefix, index_of, resize}
use parallel_enum.Commutable.Connected.Resort.{index_of-lt}
use parallel_enum.Commutable.Tracked.{OffersAll}
use parallel_enum.Commutable.Completion.{Limits, Completed, front, complete}

-- The path 0 - 1 - 2 - 3 - 4.
unfoldable pub is_apart : List ℕ → Bool
is_apart s =
    not (mem 0 s && mem 1 s)
    && not (mem 1 s && mem 2 s)
    && not (mem 2 s && mem 3 s)
    && not (mem 3 s && mem 4 s)

-- The seed, and the other elements in order; an exception where the seed is none of them.
unfoldable pub seed_first : List ℕ → List ℕ → ℕ → Option (List ℕ × List ℕ)
seed_first s level seed =
    if mem seed s
    then some (
      seed ∷ outside (seed ∷ []) (sort s),
      0 ∷ replicate (length (outside (seed ∷ []) (sort s))) 1,
    )
    else none

-- `v` with the elements that are apart from it, if that is a solution.
unfoldable pub restricted : List ℕ → ℕ → List (List ℕ)
restricted s v =
    let sol = outside ((v - 1) ∷ v ∷ (v + 1) ∷ []) s ++ v ∷ [] in
    if is_apart sol then sol ∷ [] else []

abbrev pub sets : System ℕ
sets = record {
  graph_size = 5;
  is_good = is_apart;
  restricted_problem = restricted;
  can_add = can_add_alone is_apart;
  restr_multiple = true;
  is_seed = is_seed_alone is_apart;
  complete_cand_num = complete_cand_num_all 5;
  restricted_cands = restricted_cands_all 5;
  init_aux = λ s. 0;
  update_aux = λ aux s pos. aux;
  resort = seed_first;
  valid_seeds = λ sol. valid_seeds_all (is_seed_alone is_apart) sol sol;
}

abbrev pub anything : Limits
anything = record {
  ground_set = none;
  target = none;
  fail_on_seed_change = false;
  fail_if_smaller_than = none;
}

two : Option (Completed × List Bool)
two = complete sets anything 40 (2 ∷ []) (0 ∷ []) (replicate 5 false)

pub seed_first-mem :
    (s level : List ℕ) (seed : ℕ) (r : List ℕ × List ℕ) (v : ℕ)
    → seed_first s level seed ≡ some r
    → mem v r.0 ≡ mem v s
unfolding seed_first
seed_first-mem s level seed r v e = elim (Bool-cases (mem seed s)) [
  | inl member ↦
      let same : seed ∷ outside (seed ∷ []) (sort s) ≡ r.0 = ground arith in
      sym (ap (mem v) same) ∙ elim (Bool-cases (v == seed)) [
        | inl found ↦
            let at : v ≡ seed = ground arith in ground (arith, ap (λ w. mem w s) at ∙ member)
        | inr other ↦ ground (arith, mem-outside v (seed ∷ []) (sort s), mem-sort v s)
      ]
  | inr missing ↦ absurd (ground arith)
]

apart_reads : (s t : List ℕ) → ((v : ℕ) → mem v s ≡ mem v t) → is_apart s ≡ is_apart t
unfolding is_apart
apart_reads s t same = rw (same 0, same 1, same 2, same 3, same 4) refl

pub seed_first-first :
    (s level : List ℕ) (seed : ℕ) (r : List ℕ × List ℕ)
    → seed_first s level seed ≡ some r
    → (front r.0 ≡ seed) × (0 < length r.0)
unfolding seed_first
seed_first-first s level seed r e = elim (Bool-cases (mem seed s)) [
  | inl member ↦
      let same : seed ∷ outside (seed ∷ []) (sort s) ≡ r.0 = ground arith in
      subst (λ l. (front l ≡ seed) × (0 < length l)) same (refl, omega arith)
  | inr missing ↦ absurd (ground arith)
]

abbrev pub AnyFits : List ℕ → ℕ → Type 0
AnyFits s aux = Unit

pub sets-Laws : Laws sets AnyFits
unfolding can_add_alone
sets-Laws = record {
  judges = record {
    starts = λ s. tt;
    updates = λ s aux v h. tt;
    keeps = λ s aux v h. tt;
    exact = λ s aux v h. refl;
  };
  reads_set = apart_reads;
  reorders = seed_first-mem;
  seeds_first = seed_first-first;
}

pub sets-OffersAll : (ground_set : Option (List ℕ)) → OffersAll sets ground_set
unfolding complete_cand_num_all
sets-OffersAll none owner iterator idx = refl
sets-OffersAll (some g) owner iterator idx = refl

pub no_bits-IsClear : IsClear (replicate 5 false)
no_bits-IsClear v = get_or-replicate 5 v false

pub sets-IsBounded : IsBounded sets none 5 5
unfolding complete_cand_num_all
sets-IsBounded owner iterator idx v e = ground arith

pub restricted-good :
    (s : List ℕ) (cand : ℕ)
    → Each (λ sol. (is_apart sol ≡ true) × (mem cand sol ≡ true)) (restricted s cand)
unfolding restricted
restricted-good s cand =
    let rest = outside ((cand - 1) ∷ cand ∷ (cand + 1) ∷ []) s in
    elim (Bool-cases (is_apart (rest ++ cand ∷ []))) [
      | inl good ↦ rw good ((good, ground (arith, mem-append cand rest (cand ∷ []))), tt)
      | inr bad ↦ rw bad tt
    ]

mem-resize : (v n : ℕ) (s : List ℕ) → n ≤ length s → (mem v (resize n s) ≡ false) ⊎ (mem v s ≡ true)
unfolding resize
mem-resize v zero s h = inl refl
mem-resize v (suc n) [] h = absurd (omega arith)
mem-resize v (suc n) (x ∷ s) h = ground (arith, mem-resize v n s (omega arith))

is_apart-subset :
    (s t : List ℕ)
    → ((v : ℕ) → (mem v t ≡ false) ⊎ (mem v s ≡ true))
    → is_apart s ≡ true
    → is_apart t ≡ true
unfolding is_apart
is_apart-subset s t h good = ground (arith, h 0, h 1, h 2, h 3, h 4)

pub get_prefix-good :
    (level sol : List ℕ) (seed cand : ℕ) (core : List ℕ × List ℕ)
    → is_apart sol ≡ true
    → mem cand sol ≡ true
    → get_prefix sets sol level seed cand ≡ some core
    → is_apart core.0 ≡ true
unfolding get_prefix
get_prefix-good level sol seed cand core good member e =
    elim (Option-cases (seed_first sol level seed)) [
      | inl nothing ↦ absurd (ground arith)
      | inr (r, sorted) ↦
          let same : resize (index_of cand r.0 + 1) r.0 ≡ core.0 = ground arith in
          let within : index_of cand r.0 < length r.0 =
            index_of-lt cand r.0 (seed_first-mem sol level seed r cand sorted ∙ member) in
          subst (λ l. is_apart l ≡ true) same
            (is_apart-subset sol (resize (index_of cand r.0 + 1) r.0)
              (λ v.
                subst (λ b. (mem v (resize (index_of cand r.0 + 1) r.0) ≡ false) ⊎ (b ≡ true))
                  (seed_first-mem sol level seed r v sorted)
                  (mem-resize v (index_of cand r.0 + 1) r.0 (omega (arith, within))))
              good)
    ]
