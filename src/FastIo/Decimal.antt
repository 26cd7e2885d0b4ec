-- ===== src/FastIo/Decimal.antt =====
-- `ReadInt` reads the decimal number that stands next (util/fastio.cpp).
use parallel_enum.Base.{
  ℕ, zero, suc, ◌+◌, ◌*◌, ◌-◌, ◌%◌, ◌^◌, ◌≤◌, ◌<◌, ◌≡◌, refl, ◌∙◌, ap, true, false, List, [], ◌∷◌,
  ◌++◌, none, some, map, length, arith, Each,
}
use parallel_enum.FastIo.{is_digit, skip_to_digit, read_digits, read_from, read_int}

-- The weight of a digit with this many digits after it.
abbrev pub weight : ℕ → ℕ
weight zero = 1
weight (suc places) = 10 * weight places

-- The number that a list of decimal digits stands for.
abbrev pub value : List ℕ → ℕ
value [] = 0
value (d ∷ ds) = d * weight (length ds) + value ds

abbrev pub ascii : List ℕ → List ℕ
ascii = map (λ d. 48 + d)

digit-is_digit : (d : ℕ) → d < 10 → is_digit (48 + d) ≡ true
unfolding is_digit
digit-is_digit d lt = ground arith

pub blank-is_digit : is_digit 32 ≡ false
unfolding is_digit
blank-is_digit = refl

skip_to_digit-noise :
    (noise file : List ℕ)
    → Each (λ ch. is_digit ch ≡ false) noise
    → skip_to_digit (noise ++ file) ≡ skip_to_digit file
unfolding skip_to_digit
skip_to_digit-noise [] file h = refl
skip_to_digit-noise (ch ∷ noise) file h = rw (h.0) (skip_to_digit-noise noise file h.1)

shift_digit : (n d p rest : ℕ) → (10 * n + d) * p + rest ≡ n * (10 * p) + (d * p + rest)
shift_digit n d p rest = grind arith

no_weight : (p rest : ℕ) → 0 * p + rest ≡ rest
no_weight p rest = omega arith

weight-pos : (places : ℕ) → 1 ≤ weight places
weight-pos zero = omega arith
weight-pos (suc places) = omega (arith, weight-pos places)

le-weight : (m places : ℕ) → m ≤ m * weight places
le-weight m places = let h = weight-pos places in grind (arith, h)

-- A digit is taken in without wrapping around.
small_digit : (n d : ℕ) → 10 * n + d < 2 ^ 63 → (10 * n + (48 + d) - 48) % 2 ^ 64 ≡ 10 * n + d
small_digit n d lt = omega arith

read_digits-ascii :
    (ds : List ℕ) (n sep : ℕ) (rest : List ℕ)
    → Each (λ d. d < 10) ds
    → is_digit sep ≡ false
    → n * weight (length ds) + value ds < 2 ^ 63
    → read_digits n (ascii ds ++ sep ∷ rest) ≡ (n * weight (length ds) + value ds, rest)
unfolding read_digits
read_digits-ascii [] n sep rest h no_digit lt = rw no_digit (ap (λ m. (m, rest)) (omega arith))
read_digits-ascii (d ∷ ds) n sep rest h no_digit lt =
    let shift = shift_digit n d (weight (length ds)) (value ds) in
    let lt' : (10 * n + d) * weight (length ds) + value ds < 2 ^ 63 = rw shift lt in
    let m = small_digit n d (no_wrap (10 * n + d) (value ds) (2 ^ 63) (length ds) lt') in
    rw (digit-is_digit d h.0) (
      rw m
        (read_digits-ascii ds (10 * n + d) sep rest h.1 no_digit lt' ∙ ap (λ x. (x, rest)) shift))
  where
    no_wrap : (m v top places : ℕ) → m * weight places + v < top → m < top
    no_wrap m v top places lt = omega (arith, le-weight m places)

-- After bytes that are no digits, `ReadInt` reads the decimal number that stands next, if it is
-- below 2 ^ 63, up to the first byte that is no digit, which it takes too.
pub read_int-value :
    (noise : List ℕ) (d : ℕ) (ds : List ℕ) (sep : ℕ) (rest : List ℕ)
    → Each (λ ch. is_digit ch ≡ false) noise
    → Each (λ d. d < 10) (d ∷ ds)
    → value (d ∷ ds) < 2 ^ 63
    → is_digit sep ≡ false
    → read_int (noise ++ (ascii (d ∷ ds) ++ sep ∷ rest)) ≡ (some (value (d ∷ ds)), rest)
unfolding read_int read_from skip_to_digit
read_int-value noise d ds sep rest no_digits digits small no_digit =
    let total = no_weight (weight (length (d ∷ ds))) (value (d ∷ ds)) in
    let small' : 0 * weight (length (d ∷ ds)) + value (d ∷ ds) < 2 ^ 63 = rw total small in
    let read =
      read_digits-ascii (d ∷ ds) 0 sep rest digits no_digit small' ∙ ap (λ n. (n, rest)) total in
    rw (skip_to_digit-noise noise (ascii (d ∷ ds) ++ sep ∷ rest) no_digits)
      (rw (digit-is_digit d digits.0) (ap (λ r. (some r.0, r.1)) read))

skip_to_digit-blank :
    (noise : List ℕ) → Each (λ ch. is_digit ch ≡ false) noise → skip_to_digit noise ≡ []
unfolding skip_to_digit
skip_to_digit-blank [] h = refl
skip_to_digit-blank (ch ∷ noise) h = rw (h.0) (skip_to_digit-blank noise h.1)

-- After bytes that are no digits stands the end of the file.
pub read_int-blank :
    (noise : List ℕ) → Each (λ ch. is_digit ch ≡ false) noise → (read_int noise).0 ≡ none
unfolding read_int read_from
read_int-blank noise h = ap (λ file. (read_from file).0) (skip_to_digit-blank noise h)
