-- ===== src/Clique/Frame.antt =====
-- What `ListChildren` leaves in its thread-local vectors (enumerable/clique.hpp).
use parallel_enum.Base.{
  length, ap, zero, suc, get_or-set-false, ℕ, zero, suc, ◌≡◌, ◌⊎◌, refl, Bool, true, false, List,
  [], ◌∷◌, arith, mem, ltb, not, ◌&&◌, Bool-cases, inl, inr, if◌then◌else◌, get_or, set, ◌++◌,
  mem-append,
}
use parallel_enum.Graph.{Graph}
use parallel_enum.Clique.{
  resize, set_up, Scratch, set_all, bad_ok, mark_bad, gather_from, gather, find_candidates,
}

-- Both bitsets are all false and the three vectors are empty.
pub record IsClean (s : Scratch) : Type 0 where
  pub no_candidate : (v : ℕ) → get_or s.candidates_bitset v false ≡ false
  pub no_bad : (v : ℕ) → get_or s.bad_bitset v false ≡ false
  pub no_candidates : s.candidates ≡ []
  pub no_child : s.child ≡ []
  pub no_bads : s.bad ≡ []

pub get_or-set-true :
    (bits : List Bool) (i v : ℕ)
    → get_or (set bits i true) v false ≡ true
    → (v ≡ i) ⊎ (get_or bits v false ≡ true)
get_or-set-true [] i v h = inr h
get_or-set-true (b ∷ bits) zero zero h = inl refl
get_or-set-true (b ∷ bits) zero (suc v) h = inr h
get_or-set-true (b ∷ bits) (suc i) zero h = inr h
get_or-set-true (b ∷ bits) (suc i) (suc v) h = ground (arith, get_or-set-true bits i v)

pub set_all-false :
    (bits : List Bool) (nodes : List ℕ) (v : ℕ)
    → get_or (set_all bits nodes false) v false
      ≡ (if mem v nodes then false else get_or bits v false)
unfolding set_all
set_all-false bits [] v = refl
set_all-false bits (n ∷ nodes) v =
    ground (arith, set_all-false (set bits n false) nodes v, get_or-set-false bits n v)

set_all-true :
    (bits : List Bool) (nodes : List ℕ) (v : ℕ)
    → get_or (set_all bits nodes true) v false ≡ true
    → (mem v nodes ≡ true) ⊎ (get_or bits v false ≡ true)
unfolding set_all
set_all-true bits [] v h = inr h
set_all-true bits (n ∷ nodes) v h =
    ground (arith, set_all-true (set bits n true) nodes v h, get_or-set-true bits n v)

-- `candidates_bitset_[n] = true; candidates_.push_back(n)`
abbrev pub push : ℕ → Scratch → Scratch
push n s = record s {
  candidates_bitset = set s.candidates_bitset n true;
  candidates = s.candidates ++ n ∷ [];
}

module _ {ℓ} (g : Graph) (Q : Scratch → Type ℓ) where
  gather_from_rule :
      (parind : ℕ) (ns : List ℕ) (s : Scratch)
      → ((n : ℕ) (t : Scratch) → mem n ns ≡ true → Q t → Q (push n t))
      → Q s
      → Q (gather_from g parind ns s)
  unfolding gather_from
  gather_from_rule parind [] s keep q = q
  gather_from_rule parind (n ∷ ns) s keep q =
      let later = λ (m : ℕ) (t : Scratch) (h : mem m ns ≡ true). keep m t (ground arith) in
      elim (Bool-cases (ltb parind n && not (get_or s.candidates_bitset n false))) [
        | inl h ↦ rw h (gather_from_rule parind ns (push n s) later (keep n s (ground arith) q))
        | inr h ↦ rw h (gather_from_rule parind ns s later q)
      ]

  -- What every push keeps holds when the candidates have been gathered.
  pub gather_rule :
      (parind : ℕ) (nodes : List ℕ) (s : Scratch)
      → ((node n : ℕ) (t : Scratch)
          → mem node nodes ≡ true
          → mem n (g.fwd_neighs node) ≡ true
          → Q t
          → Q (push n t))
      → Q s
      → Q (gather g parind nodes s)
  unfolding gather
  gather_rule parind [] s keep q = q
  gather_rule parind (x ∷ nodes) s keep q =
      gather_rule parind nodes (gather_from g parind (g.fwd_neighs x) s)
        (λ node n t h. keep node n t (ground arith))
        (gather_from_rule parind (g.fwd_neighs x) s (λ n t h. keep x n t (ground arith) h) q)

module _ {ℓ} (g : Graph) (Q : Scratch → Type ℓ) where
  pub mark_bad_rule :
      (clique ns : List ℕ) (s : Scratch)
      → ((n : ℕ) (t : Scratch)
          → Q t
          → Q (record t { bad_bitset = set t.bad_bitset n true; bad = t.bad ++ n ∷ [] }))
      → Q s
      → Q (mark_bad g clique ns s)
  unfolding mark_bad
  mark_bad_rule clique [] s keep q = q
  mark_bad_rule clique (n ∷ ns) s keep q = elim (Bool-cases (bad_ok g n clique)) [
    | inl h ↦ rw h (mark_bad_rule clique ns _ keep (keep n s q))
    | inr h ↦ rw h (mark_bad_rule clique ns s keep q)
  ]

-- The bits that are set belong to the clique or to the candidates.
pub record IsGathering (clique : List ℕ) (s₀ s : Scratch) : Type 0 where
  pub marked :
      (v : ℕ)
      → get_or s.candidates_bitset v false ≡ true
      → (mem v clique ≡ true) ⊎ (mem v s.candidates ≡ true)
  pub child : s.child ≡ s₀.child
  pub bad_bitset : s.bad_bitset ≡ s₀.bad_bitset
  pub bad : s.bad ≡ s₀.bad

push-IsGathering :
    (clique : List ℕ) (s₀ : Scratch) (n : ℕ) (s : Scratch)
    → IsGathering clique s₀ s
    → IsGathering clique s₀ (push n s)
push-IsGathering clique s₀ n s q = record {
  marked = λ v h. ground (
    arith,
    q.marked v,
    get_or-set-true s.candidates_bitset n v h,
    mem-append v s.candidates (n ∷ []),
  );
  child = q.child;
  bad_bitset = q.bad_bitset;
  bad = q.bad;
}

-- When the candidates are called back exactly their bits may be set.
pub find_candidates-frame :
    (g : Graph) (clique : List ℕ) (parind : ℕ) (s : Scratch)
    → ((v : ℕ) → get_or s.candidates_bitset v false ≡ false)
    → let full = find_candidates g clique parind s in
      ((v : ℕ) → get_or (set_all full.candidates_bitset full.candidates false) v false ≡ false)
      × (full.child ≡ s.child)
      × (full.bad_bitset ≡ s.bad_bitset)
      × (full.bad ≡ s.bad)
unfolding find_candidates
find_candidates-frame g clique parind s clean =
    let marked = record s { candidates_bitset = set_all s.candidates_bitset clique true } in
    let full = gather g parind clique marked in
    let q : IsGathering clique s full =
      gather_rule g (IsGathering clique s) parind clique marked
        (λ node n t _ _. push-IsGathering clique s n t)
        (record {
          marked = λ v h. ground (arith, set_all-true s.candidates_bitset clique v h, clean v);
          child = refl;
          bad_bitset = refl;
          bad = refl;
        }) in
    (
      λ v.
          rw
            (
              set_all-false (set_all full.candidates_bitset clique false) full.candidates v,
              set_all-false full.candidates_bitset clique v,
            )
            (ground (arith, q.marked v)),
      q.child,
      q.bad_bitset,
      q.bad,
    )

get_or-resize :
    (n : ℕ) (bits : List Bool) (v : ℕ)
    → get_or bits v false ≡ false
    → get_or (resize n bits) v false ≡ false
unfolding resize
get_or-resize zero bits v h = refl
get_or-resize (suc n) [] zero h = refl
get_or-resize (suc n) [] (suc v) h = get_or-resize n [] v refl
get_or-resize (suc n) (b ∷ bits) zero h = h
get_or-resize (suc n) (b ∷ bits) (suc v) h = get_or-resize n bits v h

length-resize : (n : ℕ) (bits : List Bool) → length (resize n bits) ≡ n
unfolding resize
length-resize zero bits = refl
length-resize (suc n) [] = ap suc (length-resize n [])
length-resize (suc n) (b ∷ bits) = ap suc (length-resize n bits)

-- From clean scratch vectors, as the empty ones, `SetUp` makes both bitsets as long as the graph
-- and leaves the vectors clean.
pub set_up-IsClean :
    (g : Graph) (s : Scratch)
    → IsClean s
    → IsClean (set_up g s)
      × (length (set_up g s).candidates_bitset ≡ g.size)
      × (length (set_up g s).bad_bitset ≡ g.size)
unfolding set_up
set_up-IsClean g s clean = (
  record {
    no_candidate = λ v. get_or-resize g.size s.candidates_bitset v (clean.no_candidate v);
    no_bad = λ v. get_or-resize g.size s.bad_bitset v (clean.no_bad v);
    no_candidates = clean.no_candidates;
    no_child = clean.no_child;
    no_bads = clean.no_bads;
  },
  length-resize g.size s.candidates_bitset,
  length-resize g.size s.bad_bitset,
)
