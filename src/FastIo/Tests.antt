-- ===== src/FastIo/Tests.antt =====
-- Runs of `ReadInt`, and its theorem at one.
use parallel_enum.Base.{◌≡◌, refl, [], ◌∷◌, ◌++◌, none, some, arith}
use parallel_enum.FastIo.{is_digit, skip_to_digit, read_digits, read_from, read_int}
use parallel_enum.FastIo.Decimal.{ascii, value, read_int-value}

run : Unit {0}
unfolding is_digit skip_to_digit read_digits read_from read_int
run = tt

-- The end of the file may stand after the number, or before any.
read_int-end :
    (read_int (32 ∷ 52 ∷ 50 ∷ []) ≡ (some 42, [])) × (read_int (32 ∷ 10 ∷ []) ≡ (none, []))
unfolding run
read_int-end = (refl, refl)

read_int-value_example :
    read_int ((32 ∷ []) ++ (ascii (4 ∷ 2 ∷ []) ++ 10 ∷ 55 ∷ []))
    ≡ (some (value (4 ∷ 2 ∷ [])), 55 ∷ [])
unfolding run
read_int-value_example =
    read_int-value (32 ∷ []) 4 (2 ∷ []) 10 (55 ∷ []) (refl, tt) (omega arith, (omega arith, tt))
      (omega arith) refl

-- Twenty digits wrap around.
read_int-wraps :
    (read_int (
      ascii (2 ∷ 0 ∷ 0 ∷ 0 ∷ 0 ∷ 0 ∷ 0 ∷ 0 ∷ 0 ∷ 0 ∷ 0 ∷ 0 ∷ 0 ∷ 0 ∷ 0 ∷ 0 ∷ 0 ∷ 0 ∷ 0 ∷ 0 ∷ []))).0
    ≡ some 1553255926290448384
unfolding run
read_int-wraps = refl
