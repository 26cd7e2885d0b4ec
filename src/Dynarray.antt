-- ===== src/Dynarray.antt =====
-- `dynarray` of util/dynarray.hpp, for elements that are copied as they are. Memory that was
-- allocated is a list of cells, a null pointer is `none`. Cells that were not written hold `blank`.
pub mod Access
mod Tests
use parallel_enum.Base.{
  ℕ, zero, suc, Bool, true, false, List, [], ◌∷◌, ◌++◌, Option, none, some, length, get_elem?, set,
  replicate, ltb, if◌then◌else◌,
}

-- `store` and `count`.
pub record Dynarray (A : Type 0) : Type 0 where
  pub store : Option (List A)
  pub count : ℕ

-- A result, `std::out_of_range`, or undefined behaviour.
pub data Result (B : Type 0) : Type 0 where
  result : B → Result B
  out_of_range : Result B
  undefined : Result B

module _ {A : Type 0} where
  pub no_elements : Dynarray A
  no_elements = record { store = none; count = 0 }

  -- `alloc(n)`, where `limit` is the largest size in elements.
  pub alloc : ℕ → A → ℕ → Result (List A)
  alloc limit blank n = if ltb limit n then out_of_range else result (replicate n blank)

  -- `init(n, v)` from the cell `i` on.
  pub init_from : ℕ → ℕ → A → List A → List A
  init_from i zero v cells = cells
  init_from i (suc rest) v cells = init_from (suc i) rest v (set cells i v)

  -- `resize(n, v)` on any array, which is freed first; the constructor does the same.
  pub resize_to : ℕ → A → ℕ → A → Result (Dynarray A)
  resize_to limit blank n v = elim (alloc limit blank n) [
    | result cells ↦ result (record { store = some (init_from 0 n v cells); count = n })
    | out_of_range ↦ out_of_range
    | undefined ↦ undefined
  ]

  pub from_option : Option A → Result A
  from_option none = undefined
  from_option (some a) = result a

  -- `store[n]`
  pub cell : Option (List A) → ℕ → Result A
  cell none n = undefined
  cell (some cells) n = from_option (get_elem? cells n)

  -- `check(n)`: whether it throws.
  pub out_of_bounds : Dynarray A → ℕ → Bool
  out_of_bounds d n = elim d.store [
    | none ↦ true
    | some cells ↦ if ltb n d.count then false else true
  ]

  pub at : Dynarray A → ℕ → Result A
  at d n = if out_of_bounds d n then out_of_range else cell d.store n

-- The loop of `Deserialize` over words: cell `i` and the `rest` after it.
pub read_cells : ℕ → ℕ → List ℕ → Option (List ℕ) → Result (Option (List ℕ))
read_cells i zero words store = result store
read_cells i (suc rest) words none = undefined
read_cells i (suc rest) [] (some cells) = undefined
read_cells i (suc rest) (x ∷ words) (some cells) =
    let later = read_cells (suc i) rest words (some (set cells i x)) in
    if ltb i (length cells) then later else undefined

pub deserialize_words : List ℕ → Dynarray ℕ → Result (Dynarray ℕ)
deserialize_words [] d = undefined
deserialize_words (n ∷ words) d = elim (read_cells 0 n words d.store) [
  | result store ↦ result (record { store = store; count = n })
  | out_of_range ↦ out_of_range
  | undefined ↦ undefined
]
