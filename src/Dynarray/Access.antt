-- ===== src/Dynarray/Access.antt =====
-- Which elements of an array can be read (util/dynarray.hpp).
use parallel_enum.Base.{
  ℕ, zero, suc, ◌+◌, ◌≤◌, ◌<◌, ◌≡◌, refl, ap, ◌∙◌, false, List, [], ◌∷◌, Option, none, some, length,
  get_elem?, set, replicate, ltb, if◌then◌else◌, arith, length-set, length-replicate, Bool-cases,
  inl, inr, lt→ltb,
}
use parallel_enum.Dynarray.{
  Dynarray, result, out_of_range, undefined, alloc, init_from, resize_to, from_option, cell,
  out_of_bounds, at, read_cells, deserialize_words,
}

module _ {A : Type 0} where
  get_elem?-set_self :
      (xs : List A) (i : ℕ) (v : A) → i < length xs → get_elem? (set xs i v) i ≡ some v
  get_elem?-set_self [] i v lt = absurd (omega arith)
  get_elem?-set_self (x ∷ xs) zero v lt = refl
  get_elem?-set_self (x ∷ xs) (suc i) v lt = get_elem?-set_self xs i v (omega arith)

  get_elem?-set_lt :
      (xs : List A) (i j : ℕ) (v : A) → j < i → get_elem? (set xs i v) j ≡ get_elem? xs j
  get_elem?-set_lt [] i j v lt = refl
  get_elem?-set_lt (x ∷ xs) zero j v lt = absurd (omega arith)
  get_elem?-set_lt (x ∷ xs) (suc i) zero v lt = refl
  get_elem?-set_lt (x ∷ xs) (suc i) (suc j) v lt = get_elem?-set_lt xs i j v (omega arith)

  init_from-before :
      (i rest : ℕ) (v : A) (cells : List A) (j : ℕ)
      → j < i
      → get_elem? (init_from i rest v cells) j ≡ get_elem? cells j
  unfolding init_from
  init_from-before i zero v cells j lt = refl
  init_from-before i (suc rest) v cells j lt =
      init_from-before (suc i) rest v (set cells i v) j (omega arith)
      ∙ get_elem?-set_lt cells i j v lt

  init_from-get_elem? :
      (i rest : ℕ) (v : A) (cells : List A) (j : ℕ)
      → i + rest ≤ length cells
      → i ≤ j
      → j < i + rest
      → get_elem? (init_from i rest v cells) j ≡ some v
  unfolding init_from
  init_from-get_elem? i zero v cells j room le lt = absurd (omega arith)
  init_from-get_elem? i (suc rest) v cells j room le lt = elim (Bool-cases (ltb i j)) [
    | inl later ↦
        init_from-get_elem? (suc i) rest v (set cells i v) j (omega (arith, length-set cells i v))
          (ground arith) (omega arith)
    | inr same ↦
        let e : j ≡ i = ground arith in
        init_from-before (suc i) rest v (set cells i v) j (omega arith)
        ∙ ap (get_elem? (set cells i v)) e
        ∙ get_elem?-set_self cells i v (omega arith)
  ]

  -- `resize(n, v)` throws `std::out_of_range` if `n` is above the limit. Otherwise it gives an
  -- array in which `at(i)` is `v` for each `i` below `n` and throws `std::out_of_range` for the
  -- others.
  pub at-resize_to :
      (limit n : ℕ) (blank v : A)
      → (limit < n → resize_to limit blank n v ≡ out_of_range)
        × (n ≤ limit
            → (d : Dynarray A) × (resize_to limit blank n v ≡ result d)
              × ((i : ℕ) → at d i ≡ (if ltb i n then result v else out_of_range)))
  unfolding resize_to alloc at out_of_bounds cell from_option
  at-resize_to limit n blank v = (
    λ lt. rw (resize_to, alloc, lt→ltb limit n lt) refl,
    λ le.
        let fits : ltb limit n ≡ false = ground arith in
        let cells = replicate n blank in
        rw (resize_to, alloc, fits)
          (
            record { store = some (init_from 0 n v cells); count = n },
            refl,
            λ i. elim (Bool-cases (ltb i n)) [
              | inr past ↦ rw past refl
              | inl inside ↦
                  let read =
                    init_from-get_elem? 0 n v cells i (omega (arith, length-replicate n blank))
                      (omega arith) (ground arith) in
                  rw inside (ap from_option read)
            ],
          ),
  )

-- How many elements the memory holds.
abbrev pub room : Dynarray ℕ → ℕ
room d = elim d.store [ none ↦ 0 | some cells ↦ length cells ]

read_cells-short :
    (i rest : ℕ) (words cells : List ℕ)
    → i ≤ length cells
    → length cells < i + rest
    → read_cells i rest words (some cells) ≡ undefined
unfolding read_cells
read_cells-short i zero words cells le lt = absurd (omega arith)
read_cells-short i (suc rest) [] cells le lt = refl
read_cells-short i (suc rest) (x ∷ words) cells le lt = elim (Bool-cases (ltb i (length cells))) [
  | inr past ↦ rw past refl
  | inl inside ↦
      let sized = length-set cells i x in
      rw inside (read_cells-short (suc i) rest words (set cells i x) (ground arith) (omega arith))
]

-- `Deserialize` of more elements than the memory of the array has room for, as over a
-- default-constructed array, is undefined behaviour: it writes past the memory or through a null
-- pointer, or reads past the words.
pub deserialize_words-short :
    (n : ℕ) (words : List ℕ) (store : Option (List ℕ)) (count : ℕ)
    → room (record { store = store; count = count }) < n
    → deserialize_words (n ∷ words) (record { store = store; count = count }) ≡ undefined
unfolding deserialize_words read_cells
deserialize_words-short zero words none count lt = absurd (omega arith)
deserialize_words-short (suc n) words none count lt = refl
deserialize_words-short n words (some cells) count lt =
    rw (deserialize_words, read_cells-short 0 n words cells (omega arith) (omega arith)) refl
