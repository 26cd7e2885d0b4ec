-- ===== src/FastIo/Progress.antt =====
-- `ReadInt` takes bytes of the file (util/fastio.cpp).
use parallel_enum.Base.{
  ℕ, ◌%◌, ◌^◌, ◌+◌, ◌-◌, ◌*◌, ◌≤◌, ◌<◌, ◌≡◌, refl, List, [], ◌∷◌, none, length, arith, Bool-cases,
  ◌⊎◌, inl, inr,
}
use parallel_enum.FastIo.{is_digit, skip_to_digit, read_digits, read_from, read_int}

length-skip_to_digit : (file : List ℕ) → length (skip_to_digit file) ≤ length file
unfolding skip_to_digit
length-skip_to_digit [] = omega arith
length-skip_to_digit (ch ∷ file) = elim (Bool-cases (is_digit ch)) [
  | inl y ↦ rw y (omega arith)
  | inr n ↦ rw n (omega (arith, length-skip_to_digit file))
]

length-read_digits : (n : ℕ) (file : List ℕ) → length ((read_digits n file).1) ≤ length file
unfolding read_digits
length-read_digits n [] = omega arith
length-read_digits n (ch ∷ file) = elim (Bool-cases (is_digit ch)) [
  | inl y ↦ rw y (omega (arith, length-read_digits ((10 * n + ch - 48) % 2 ^ 64) file))
  | inr no_digit ↦ rw no_digit (omega arith)
]

length-read_from :
    (file : List ℕ) → ((read_from file).0 ≡ none) ⊎ (length ((read_from file).1) < length file)
unfolding read_from read_digits
length-read_from [] = inl refl
length-read_from (ch ∷ file) = inr (elim (Bool-cases (is_digit ch)) [
  | inl y ↦ rw y (omega (arith, length-read_digits ((10 * 0 + ch - 48) % 2 ^ 64) file))
  | inr no_digit ↦ rw no_digit (omega arith)
])

length-read_from_le : (file : List ℕ) → length ((read_from file).1) ≤ length file
unfolding read_from
length-read_from_le [] = omega arith
length-read_from_le (ch ∷ file) = length-read_digits 0 (ch ∷ file)

-- Unless it meets the end of the file, `ReadInt` leaves fewer bytes than there were.
pub length-read_int :
    (file : List ℕ) → ((read_int file).0 ≡ none) ⊎ (length ((read_int file).1) < length file)
unfolding read_int
length-read_int file =
    let le = length-skip_to_digit file in
    elim (length-read_from (skip_to_digit file)) [
      | inl none_left ↦ inl none_left
      | inr lt ↦ inr (omega arith)
    ]

pub length-read_int_le : (file : List ℕ) → length ((read_int file).1) ≤ length file
unfolding read_int
length-read_int_le file =
    omega (arith, length-read_from_le (skip_to_digit file), length-skip_to_digit file)
