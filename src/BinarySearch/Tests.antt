-- ===== src/BinarySearch/Tests.antt =====
-- Runs of `binary_search_t::count`, and its theorems at them.
use parallel_enum.Base.{ℕ, ◌≡◌, refl, true, false, List, [], ◌∷◌, some, none, arith}
use parallel_enum.BinarySearch.{count, halve, holds_at}
use parallel_enum.BinarySearch.Search.{count_misses_first}

abbrev four : List ℕ
four = 10 ∷ 20 ∷ 30 ∷ 40 ∷ []

run : Unit {0}
unfolding count halve holds_at
run = tt

count-four : (count four 20 ≡ some true) × (count four 30 ≡ some true)
unfolding run
count-four = (refl, refl)

-- The last element is missed too, and an empty array is read out of bounds.
count-four_last : (count four 40 ≡ some false) × (count [] 1 ≡ none)
unfolding run
count-four_last = (refl, refl)

count_misses_first_example : count four 10 ≡ some false
count_misses_first_example = count_misses_first 10 20 (30 ∷ 40 ∷ []) (omega arith)
