-- ===== src/BinarySearch/Search.antt =====
-- What `binary_search_t::count` finds (util/binary_search.hpp).
use parallel_enum.Base.{
  ℕ, zero, suc, ◌+◌, ◌-◌, ◌/◌, ◌≤◌, ◌<◌, ◌≡◌, ◌≢◌, refl, Bool, true, false, List, [], ◌∷◌, some,
  ltb, leb, ◌==◌, if◌then◌else◌, length, get_elem?_total, mem, mem_of_get_elem?, Each, IsAscending,
  Each-get_elem?, arith, Bool-cases, inl, inr,
}
use parallel_enum.BinarySearch.{halve, holds_at, count}

-- The loop reads inside of the array and ends at an index of it.
halve_total :
    (support : List ℕ) (v fuel n cur : ℕ)
    → 0 < n
    → n ≤ fuel
    → cur + n ≤ length support
    → (c : ℕ) × (halve support v fuel n cur ≡ some c) × (c < length support)
unfolding halve
halve_total support v zero n cur pos enough fits = absurd (omega arith)
halve_total support v (suc fuel) n cur pos enough fits = elim (Bool-cases (leb n 1)) [
  | inl h ↦ (cur, rw h, omega arith)
  | inr h ↦
      let more : 1 < n = ground arith in
      let (x, read) = get_elem?_total support (cur + n / 2) (omega arith) in
      let (c, run, lt) =
        halve_total support v fuel (n - n / 2) (if ltb x v then cur + n / 2 else n / 2)
          (omega arith) (omega arith) (ground arith) in
      (c, rw (h, read) run, lt)
]

-- On an array that is not empty `count` reads inside of the array only and ends, and if it answers
-- true the value is in the array.
pub count_sound :
    (support : List ℕ) (v : ℕ)
    → support ≢ []
    → (b : Bool) × (count support v ≡ some b) × (b ≡ true → mem v support ≡ true)
unfolding count holds_at
count_sound [] v h = absurd (h refl)
count_sound (x₀ ∷ rest) v h =
    let support = x₀ ∷ rest in
    let (c, run, lt) =
      halve_total support v (length support) (length support) 0 (omega arith) (omega arith)
        (omega arith) in
    let (x, read) = get_elem?_total support c lt in
    let cur' = c + (if ltb x v then 1 else 0) in
    elim (Bool-cases (ltb cur' (length support))) [
      | inr out ↦ (false, rw (run, read, out), λ e. cc)
      | inl within ↦
          let (y, last) = get_elem?_total support cur' (ground arith) in
          (
            (y == v),
            rw (run, read, within, last),
            λ e. mem_of_get_elem? support cur' v (ground arith),
          )
    ]

halve_done :
    (support : List ℕ) (v fuel n cur : ℕ) → 0 < fuel → n ≤ 1 → halve support v fuel n cur ≡ some cur
unfolding halve
halve_done support v zero n cur pos small = absurd (omega arith)
halve_done support v (suc fuel) n cur pos small = ground arith

-- If the first test of each round fails, the loop ends at index 1.
halve_low :
    (support : List ℕ) (v fuel n cur : ℕ)
    → Each (λ x. v ≤ x) support
    → 1 < n
    → n ≤ fuel
    → cur + n ≤ length support
    → halve support v fuel n cur ≡ some 1
unfolding halve
halve_low support v zero n cur low more enough fits = absurd (omega arith)
halve_low support v (suc fuel) n cur low more enough fits =
    let (x, read) = get_elem?_total support (cur + n / 2) (omega arith) in
    let le : v ≤ x = Each-get_elem? (λ x. v ≤ x) support (cur + n / 2) x low read in
    elim (Bool-cases (leb (n - n / 2) 1)) [
      | inl last ↦ ground (arith, halve_done support v fuel (n - n / 2) (n / 2))
      | inr again ↦
          let rec =
            halve_low support v fuel (n - n / 2) (n / 2) low (ground arith) (omega arith)
              (omega arith) in
          ground arith
    ]

weaken : (x : ℕ) (xs : List ℕ) → Each (λ y. x < y) xs → Each (λ y. x ≤ y) xs
weaken x [] h = tt
weaken x (y ∷ xs) h = (omega (arith, h.0), weaken x xs h.1)

-- In a strictly ascending array of at least two elements `count` answers false for the first
-- element.
pub count_misses_first :
    (x y : ℕ) (rest : List ℕ) → IsAscending (x ∷ y ∷ rest) → count (x ∷ y ∷ rest) x ≡ some false
unfolding count holds_at
count_misses_first x y rest h =
    let support = x ∷ y ∷ rest in
    let run =
      halve_low support x (length support) (length support) 0 (omega arith, weaken x (y ∷ rest) h.0)
        (omega arith) (omega arith) (omega arith) in
    rw run (ground arith)
