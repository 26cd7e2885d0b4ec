-- ===== src/Kplex/Branch/Root/Loops.antt =====
-- The loops of `GetRoot` of the enumeration of k-plexes (enumerable/diam2kplex.hpp).
use parallel_enum.Base.{
  ℕ, zero, suc, ◌+◌, ◌*◌, ◌%◌, ◌^◌, ◌≤◌, ◌<◌, ◌≡◌, ◌≢◌, refl, ◌∙◌, sym, ap, Bool, true, false, not,
  ◌&&◌, List, [], ◌∷◌, ◌++◌, some, length, get_or, set, ltb, leb, ◌==◌, ==_iff, if◌then◌else◌,
  arith, mem, mem-append, Bool-cases, inl, inr, get_or-set_ne, append-nil, append_assoc,
  get_or-set-false,
}
use parallel_enum.Graph.{Graph}
use parallel_enum.Kplex.Branch.Root.{
  mark, filter_loop, filter_until_stable, count_neighs, count_all, add_candidates, extend_subgraph,
}

module _ (g : Graph) (k q : ℕ) where
  length-filter_loop-le : (sg vs : List ℕ) → length (filter_loop g k q sg vs) ≤ length vs
  unfolding filter_loop
  length-filter_loop-le sg [] = omega arith
  length-filter_loop-le sg (v ∷ vs) = ground (arith, length-filter_loop-le sg vs)

  mem-filter_loop :
      (sg vs : List ℕ) (a : ℕ) → mem a (filter_loop g k q sg vs) ≡ true → mem a vs ≡ true
  unfolding filter_loop
  mem-filter_loop sg [] a h = h
  mem-filter_loop sg (v ∷ vs) a h = ground (arith, mem-filter_loop sg vs a)

  -- One round more than there are nodes is enough, and only nodes of the list are kept.
  pub filter_until_stable-mem :
      (fuel : ℕ) (sg : List ℕ)
      → length sg < fuel
      → (kept : List ℕ) × (filter_until_stable g k q fuel sg ≡ some kept)
        × ((a : ℕ) → mem a kept ≡ true → mem a sg ≡ true)
  unfolding filter_until_stable
  filter_until_stable-mem zero sg lt = absurd (omega arith)
  filter_until_stable-mem (suc fuel) sg lt =
      let next = filter_loop g k q sg sg in
      let le = length-filter_loop-le sg sg in
      elim (Bool-cases (length next == length sg)) [
        | inl same ↦ (next, rw same refl, λ a m. mem-filter_loop sg sg a m)
        | inr fewer ↦
            let (kept, run, from) = filter_until_stable-mem fuel next (ground arith) in
            (kept, rw fewer run, λ a m. mem-filter_loop sg sg a (from a m))
      ]

-- Every node that is counted is a candidate.
abbrev Listed : List ℕ × List ℕ → Type 0
Listed st = (n : ℕ) → get_or st.1 n 0 ≢ 0 → mem n st.0 ≡ true

either-Listed :
    (t : Bool) (yes_st no_st : List ℕ × List ℕ)
    → Listed yes_st
    → Listed no_st
    → Listed (if t then yes_st else no_st)
either-Listed true a b h h' = h
either-Listed false a b h h' = h'

count_one-Listed :
    (candidates counts : List ℕ) (nn : ℕ)
    → Listed (candidates, counts)
    → Listed (
      (if get_or counts nn 0 == 0 then candidates ++ nn ∷ [] else candidates),
      set counts nn ((get_or counts nn 0 + 1) % 2 ^ 32),
    )
count_one-Listed candidates counts nn h n ne = elim (Bool-cases (n == nn)) [
  | inl e ↦
      let e' : n ≡ nn = (==_iff n nn).0 e in
      rw e' (ground (arith, h nn, mem-append nn candidates (nn ∷ [])))
  | inr d ↦
      let same =
        get_or-set_ne counts nn n ((get_or counts nn 0 + 1) % 2 ^ 32) 0
          (λ z. absurd (ground arith)) in
      let old = h n (λ z. ne (same ∙ z)) in ground (arith, mem-append n candidates (nn ∷ []))
]

count_neighs-Listed :
    (v : ℕ) (added : List Bool) (nns : List ℕ) (st : List ℕ × List ℕ)
    → Listed st
    → Listed (count_neighs v added nns st)
unfolding count_neighs
count_neighs-Listed v added [] st h = h
count_neighs-Listed v added (nn ∷ nns) (candidates, counts) h = count_neighs-Listed v added nns _ (
    either-Listed (ltb v nn && not (get_or added nn false)) _ (candidates, counts)
      (count_one-Listed candidates counts nn h) h)

count_all-Listed :
    (g : Graph) (v : ℕ) (added : List Bool) (ns : List ℕ) (st : List ℕ × List ℕ)
    → Listed st
    → Listed (count_all g v added ns st)
unfolding count_all
count_all-Listed g v added [] st h = h
count_all-Listed g v added (n ∷ ns) st h =
    count_all-Listed g v added ns (count_neighs v added (g.neighs n) st)
      (count_neighs-Listed v added (g.neighs n) st h)

get_or-set_zero : (xs : List ℕ) (i : ℕ) → get_or (set xs i 0) i 0 ≡ 0
get_or-set_zero [] i = refl
get_or-set_zero (x ∷ xs) zero = refl
get_or-set_zero (x ∷ xs) (suc i) = get_or-set_zero xs i

grown :
    (t : Bool) (xs : List ℕ) (n : ℕ) → (m : List ℕ) × ((if t then xs ++ n ∷ [] else xs) ≡ xs ++ m)
grown true xs n = (n ∷ [], refl)
grown false xs n = ([], sym (append-nil xs))

-- Each candidate is counted back to zero, and the subgraph only grows at its end.
add_candidates-zero :
    (k q : ℕ) (ns : List ℕ) (st : List ℕ × List ℕ)
    → ((n : ℕ) → get_or st.1 n 0 ≢ 0 → mem n ns ≡ true)
    → ((n : ℕ) → get_or (add_candidates k q ns st).1 n 0 ≡ 0)
      × (more : List ℕ) × ((add_candidates k q ns st).0 ≡ st.0 ++ more)
unfolding add_candidates
add_candidates-zero k q [] st h = (
  λ n. elim (Bool-cases (get_or st.1 n 0 == 0)) [
    | inl e ↦ (==_iff (get_or st.1 n 0) 0).0 e
    | inr d ↦ let m = h n (λ z. absurd (ground arith)) in absurd (cc)
  ],
  [],
  sym (append-nil st.0),
)
add_candidates-zero k q (n ∷ ns) (subgraph, counts) h =
    let test = leb (q + 2) (get_or counts n 0 + 2 * k) in
    let (m, here) = grown test subgraph n in
    let (zeros, more, there) =
      add_candidates-zero k q ns ((if test then subgraph ++ n ∷ [] else subgraph), set counts n 0)
        (λ a ne. elim (Bool-cases (a == n)) [
          | inl e ↦
              let e' : a ≡ n = (==_iff a n).0 e in absurd (ne (rw e' (get_or-set_zero counts n)))
          | inr d ↦
              let same = get_or-set_ne counts n a 0 0 (λ z. absurd (ground arith)) in
              let old = h a (λ z. ne (same ∙ z)) in ground arith
        ]) in
    (zeros, m ++ more, there ∙ ap (λ xs. xs ++ more) here ∙ append_assoc subgraph m more)

abbrev pub Zeros : List ℕ → Type 0
Zeros counts = (n : ℕ) → get_or counts n 0 ≡ 0

-- The subgraph begins with the root and the kept nodes, and ends there if `k` is 1.
pub extend_subgraph-zero :
    (g : Graph) (k q v : ℕ) (added : List Bool) (sg counts : List ℕ)
    → Zeros counts
    → Zeros (extend_subgraph g k q v added sg counts).1
      × (more : List ℕ) × ((extend_subgraph g k q v added sg counts).0 ≡ v ∷ sg ++ more)
      × (k ≡ 1 → (extend_subgraph g k q v added sg counts).0 ≡ v ∷ sg)
unfolding extend_subgraph
extend_subgraph-zero g k q v added sg counts zeros = elim (Bool-cases (k == 1)) [
  | inl one ↦ rw one (zeros, [], ap (λ xs. v ∷ xs) (sym (append-nil sg)), λ e. refl)
  | inr other ↦
      let counted = count_all g v added sg ([], counts) in
      let listed = count_all-Listed g v added sg ([], counts) (λ n ne. absurd (ne (zeros n))) in
      let r = add_candidates-zero k q counted.0 (v ∷ sg, counted.1) listed in
      rw other (r.0, r.1, r.2, λ e. absurd (ground arith))
]

pub mark-off :
    (ns : List ℕ) (added : List Bool) (i : ℕ)
    → get_or (mark false ns added) i false ≡ (if mem i ns then false else get_or added i false)
unfolding mark
mark-off [] added i = refl
mark-off (n ∷ ns) added i =
    ground (arith, mark-off ns (set added n false) i, get_or-set-false added n i)

pub mark-on :
    (ns : List ℕ) (added : List Bool) (i : ℕ)
    → mem i ns ≡ false
    → get_or (mark true ns added) i false ≡ get_or added i false
unfolding mark
mark-on [] added i h = refl
mark-on (n ∷ ns) added i h =
    mark-on ns (set added n true) i (ground arith)
    ∙ get_or-set_ne added n i true false (λ z. absurd (ground arith))
