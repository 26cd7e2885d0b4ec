-- ===== src/Dynarray/Tests.antt =====
-- An array of three elements, and the theorems on arrays.
use parallel_enum.Base.{◌≡◌, refl, [], ◌∷◌, none, some, arith}
use parallel_enum.Dynarray.{result, undefined, deserialize_words, read_cells}
use parallel_enum.Dynarray.Access.{deserialize_words-short}

deserialize_words-short_example :
    deserialize_words (2 ∷ 8 ∷ 9 ∷ []) (record { store = none; count = 0 }) ≡ undefined
deserialize_words-short_example = deserialize_words-short 2 (8 ∷ 9 ∷ []) none 0 (omega arith)

-- Over an array of the same size the elements come back.
deserialize_words-run :
    deserialize_words (2 ∷ 8 ∷ 9 ∷ []) (record { store = some (0 ∷ 0 ∷ []); count = 2 })
    ≡ result (record { store = some (8 ∷ 9 ∷ []); count = 2 })
unfolding deserialize_words read_cells
deserialize_words-run = refl
