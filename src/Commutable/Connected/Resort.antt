-- ===== src/Commutable/Connected/Resort.antt =====
-- `CHSystem::Resort` of enumerable/connected_hereditary.hpp visits the elements that the seed
-- reaches within the solution.
use parallel_enum.Base.{
  ℕ, zero, suc, ◌+◌, ◌<◌, ◌≡◌, refl, ap, ◌∙◌, arith, Bool, true, false, List, [], ◌∷◌, ◌⊎◌, inl,
  inr, if◌then◌else◌, ◌==◌, ◌&&◌, length, set, mem, replicate, Bool-cases,
}
use parallel_enum.Commutable.Offspring.{index_of}
use parallel_enum.Commutable.Connected.{Entry, enqueue, visit_from}

-- Whether `v` is an element that the bits mark, or that they do not mark.
abbrev pub marked : ℕ → List ℕ → List Bool → Bool
marked v [] visited = false
marked v (x ∷ s) [] = false
marked v (x ∷ s) (seen ∷ visited) = if (v == x) && seen then true else marked v s visited

abbrev pub waits : ℕ → List Entry → Bool
waits v [] = false
waits v (p ∷ q) = if v == p.node then true else waits v q

-- The elements that are not yet visited.
abbrev pub unseen : List Bool → ℕ
unseen [] = 0
unseen (seen ∷ visited) = if seen then unseen visited else suc (unseen visited)

abbrev pub entries : List Entry → ℕ
entries [] = 0
entries (p ∷ q) = suc (entries q)

entries-enqueue : (p : Entry) (q : List Entry) → entries (enqueue p q) ≡ suc (entries q)
unfolding enqueue
entries-enqueue p [] = refl
entries-enqueue p (r ∷ q) = ground (arith, entries-enqueue p q)

waits-enqueue :
    (v : ℕ) (p : Entry) (q : List Entry)
    → waits v (enqueue p q) ≡ (if v == p.node then true else waits v q)
unfolding enqueue
waits-enqueue v p [] = refl
waits-enqueue v p (r ∷ q) = ground (arith, waits-enqueue v p q)

pub index_of-lt : (v : ℕ) (s : List ℕ) → mem v s ≡ true → index_of v s < length s
unfolding index_of
index_of-lt v [] h = absurd (cc)
index_of-lt v (x ∷ s) h = ground (arith, index_of-lt v s)

pub unseen-first : (n i : ℕ) → i < n → suc (unseen (set (replicate n false) i true)) ≡ n
unseen-first zero i h = absurd (omega arith)
unseen-first (suc n) zero h = ap suc (all n)
  where
    all : (n : ℕ) → unseen (replicate n false) ≡ n
    all zero = refl
    all (suc n) = ap suc (all n)
unseen-first (suc n) (suc i) h = ap suc (unseen-first n i (omega arith))

unmarked : (v : ℕ) (s : List ℕ) (n : ℕ) → marked v s (replicate n false) ≡ false
unmarked v [] n = refl
unmarked v (x ∷ s) zero = refl
unmarked v (x ∷ s) (suc n) = ground (arith, unmarked v s n)

-- The seed alone is marked at first.
pub marked-first :
    (v seed : ℕ) (s : List ℕ)
    → mem seed s ≡ true
    → marked v s (set (replicate (length s) false) (index_of seed s) true) ≡ (v == seed)
unfolding index_of
marked-first v seed [] h = absurd (cc)
marked-first v seed (x ∷ s) h = elim (Bool-cases (x == seed)) [
  | inl same ↦ rw same (ground (arith, unmarked v s (length s)))
  | inr other ↦ rw other (ground (arith, marked-first v seed s (ground arith)))
]

module _ (is_neigh : ℕ → ℕ → Bool) where
  -- Each element that is visited enters the queue.
  pub visit_from-unseen :
      (el lv : ℕ) (s : List ℕ) (visited : List Bool) (q : List Entry)
      → entries (visit_from is_neigh el lv s visited q).1
          + unseen (visit_from is_neigh el lv s visited q).0
        ≡ entries q + unseen visited
  unfolding visit_from
  visit_from-unseen el lv [] visited q = refl
  visit_from-unseen el lv (x ∷ s) [] q = refl
  visit_from-unseen el lv (x ∷ s) (seen ∷ visited) q = ground (
    arith,
    visit_from-unseen el lv s visited q,
    visit_from-unseen el lv s visited (enqueue (record { level = lv + 1; node = x }) q),
    entries-enqueue (record { level = lv + 1; node = x }) q,
  )

  pub visit_from-length :
      (el lv : ℕ) (s : List ℕ) (visited : List Bool) (q : List Entry)
      → length (visit_from is_neigh el lv s visited q).0 ≡ length visited
  unfolding visit_from
  visit_from-length el lv [] visited q = refl
  visit_from-length el lv (x ∷ s) [] q = refl
  visit_from-length el lv (x ∷ s) (seen ∷ visited) q = ap suc (visit_from-length el lv s visited _)

  pub visit_from-marks :
      (el lv v : ℕ) (s : List ℕ) (visited : List Bool) (q : List Entry)
      → length visited ≡ length s
      → mem v s ≡ true
      → is_neigh el v ≡ true
      → marked v s (visit_from is_neigh el lv s visited q).0 ≡ true
  unfolding visit_from
  visit_from-marks el lv v [] visited q n m h = absurd (cc)
  visit_from-marks el lv v (x ∷ s) [] q n m h = absurd (omega (arith, n))
  visit_from-marks el lv v (x ∷ s) (seen ∷ visited) q n m h = elim (Bool-cases (v == x)) [
    | inl same ↦
        let e : x ≡ v = ground arith in
        let near : is_neigh el x ≡ true = ap (is_neigh el) e ∙ h in ground arith
    | inr other ↦ ground (
      arith,
      visit_from-marks el lv v s visited q (omega (arith, n)),
      visit_from-marks el lv v s visited (enqueue (record { level = lv + 1; node = x }) q)
          (omega (arith, n)),
    )
  ]

  -- What is marked stays so, what waits stays so, and what is new is both.
  pub visit_from-keeps :
      (el lv v : ℕ) (s : List ℕ) (visited : List Bool) (q : List Entry)
      → ((marked v s visited ≡ false)
          ⊎ (marked v s (visit_from is_neigh el lv s visited q).0 ≡ true))
        × ((waits v q ≡ false) ⊎ (waits v (visit_from is_neigh el lv s visited q).1 ≡ true))
        × ((marked v s (visit_from is_neigh el lv s visited q).0 ≡ false)
            ⊎ (marked v s visited ≡ true)
            ⊎ (waits v (visit_from is_neigh el lv s visited q).1 ≡ true))
        × ((waits v (visit_from is_neigh el lv s visited q).1 ≡ false)
            ⊎ (waits v q ≡ true)
            ⊎ (marked v s (visit_from is_neigh el lv s visited q).0 ≡ true))
  unfolding visit_from
  visit_from-keeps el lv v [] visited q = ground (arith, Bool-cases (waits v q))
  visit_from-keeps el lv v (x ∷ s) [] q = ground (arith, Bool-cases (waits v q))
  visit_from-keeps el lv v (x ∷ s) (seen ∷ visited) q = ground (
    arith,
    visit_from-keeps el lv v s visited q,
    visit_from-keeps el lv v s visited (enqueue (record { level = lv + 1; node = x }) q),
    waits-enqueue v (record { level = lv + 1; node = x }) q,
  )
