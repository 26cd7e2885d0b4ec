-- ===== src/FastIo.antt =====
-- `ReadInt` of util/fastio.cpp on the bytes of a file. The end of the file, `EOF`, is `none`. The
-- `int64_t` is its bit pattern, a number below 2 ^ 64 that wraps around; in C++ an overflow of it is
-- undefined, so what is proved of a value asks that it stays below 2 ^ 63.
pub mod Decimal
pub mod Progress
mod Tests
use parallel_enum.Base.{
  ℕ, zero, suc, ◌+◌, ◌*◌, ◌-◌, ◌%◌, ◌^◌, Bool, true, false, ◌&&◌, List, [], ◌∷◌, Option, none, some,
  leb, if◌then◌else◌,
}

-- `ch >= '0' && ch <= '9'`
pub is_digit : ℕ → Bool
is_digit ch = leb 48 ch && leb ch 57

-- The first loop: what is left from the first digit on.
pub skip_to_digit : List ℕ → List ℕ
skip_to_digit [] = []
skip_to_digit (ch ∷ file) = let rest = skip_to_digit file in if is_digit ch then ch ∷ file else rest

-- The second loop, which also takes the byte after the last digit.
pub read_digits : ℕ → List ℕ → ℕ × List ℕ
read_digits n [] = (n, [])
read_digits n (ch ∷ file) =
    let rest = read_digits ((10 * n + ch - 48) % 2 ^ 64) file in
    if is_digit ch then rest else (n, file)

pub read_from : List ℕ → Option ℕ × List ℕ
read_from [] = (none, [])
read_from (ch ∷ file) = let r = read_digits 0 (ch ∷ file) in (some r.0, r.1)

pub read_int : List ℕ → Option ℕ × List ℕ
read_int file = read_from (skip_to_digit file)
