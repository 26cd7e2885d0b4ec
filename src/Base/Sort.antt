-- ===== src/Base/Sort.antt =====
-- `std::sort`, `std::unique` with `erase`, and `std::upper_bound` on vectors of numbers.
use Prim.Native.Nat.{ℕ, suc, ◌≤◌, ◌<◌}
use mathlib.Core.Path.{◌≡◌, refl}
use mathlib.Core.Logic.{inl, inr}
use mathlib.Core.Bool.{true}
use mathlib.Core.List.{List, [], ◌∷◌}
use native.Mathlib.Omega.{arith}
use parallel_enum.Base.Tests.{◌==◌, leb, ltb, if◌then◌else◌, Bool-cases}
use parallel_enum.Base.Lists.{mem, occurrences, Each, IsAscending}

pub insert_sorted : ℕ → List ℕ → List ℕ
insert_sorted a [] = a ∷ []
insert_sorted a (x ∷ xs) = if leb a x then a ∷ x ∷ xs else x ∷ insert_sorted a xs

unfoldable pub sort : List ℕ → List ℕ
unfolding insert_sorted
sort [] = []
sort (x ∷ xs) = insert_sorted x (sort xs)

-- What follows `x` when elements equal to the one before are dropped.
pub unique_after : ℕ → List ℕ → List ℕ
unique_after x [] = []
unique_after x (y ∷ ys) =
    let same = unique_after x ys in
    let other = y ∷ unique_after y ys in if x == y then same else other

unfoldable pub unique : List ℕ → List ℕ
unfolding unique_after
unique [] = []
unique (x ∷ xs) = x ∷ unique_after x xs

-- How many elements are at most `v`, in a sorted list.
unfoldable pub upper_bound : ℕ → List ℕ → ℕ
upper_bound v [] = 0
upper_bound v (x ∷ xs) = let rest = upper_bound v xs in if ltb v x then 0 else suc rest

abbrev pub IsSorted : List ℕ → Type 0
IsSorted [] = Unit
IsSorted (x ∷ xs) = Each (λ y. x ≤ y) xs × IsSorted xs

mem-insert_sorted :
    (v a : ℕ) (xs : List ℕ) → mem v (insert_sorted a xs) ≡ (if v == a then true else mem v xs)
unfolding insert_sorted
mem-insert_sorted v a [] = refl
mem-insert_sorted v a (x ∷ xs) = ground (arith, mem-insert_sorted v a xs)

pub mem-sort : (v : ℕ) (xs : List ℕ) → mem v (sort xs) ≡ mem v xs
unfolding sort
mem-sort v [] = refl
mem-sort v (x ∷ xs) = ground (arith, mem-sort v xs, mem-insert_sorted v x (sort xs))

occurrences-insert_sorted :
    (v a : ℕ) (xs : List ℕ) → occurrences v (insert_sorted a xs) ≡ occurrences v (a ∷ xs)
unfolding insert_sorted
occurrences-insert_sorted v a [] = refl
occurrences-insert_sorted v a (x ∷ xs) = ground (arith, occurrences-insert_sorted v a xs)

pub occurrences-sort : (v : ℕ) (xs : List ℕ) → occurrences v (sort xs) ≡ occurrences v xs
unfolding sort
occurrences-sort v [] = refl
occurrences-sort v (x ∷ xs) =
    ground (arith, occurrences-sort v xs, occurrences-insert_sorted v x (sort xs))

Each-weaken : (a b : ℕ) (xs : List ℕ) → b ≤ a → Each (λ y. a ≤ y) xs → Each (λ y. b ≤ y) xs
Each-weaken a b [] le h = tt
Each-weaken a b (x ∷ xs) le h = (omega (arith, h.0), Each-weaken a b xs le h.1)

Each-insert_sorted :
    (b a : ℕ) (xs : List ℕ) → b ≤ a → Each (λ y. b ≤ y) xs → Each (λ y. b ≤ y) (insert_sorted a xs)
unfolding insert_sorted
Each-insert_sorted b a [] le h = (le, tt)
Each-insert_sorted b a (x ∷ xs) le h = elim (Bool-cases (leb a x)) [
  | inl before ↦ rw before (le, h)
  | inr after ↦ rw after (h.0, Each-insert_sorted b a xs le h.1)
]

insert_sorted-IsSorted : (a : ℕ) (xs : List ℕ) → IsSorted xs → IsSorted (insert_sorted a xs)
unfolding insert_sorted
insert_sorted-IsSorted a [] h = (tt, tt)
insert_sorted-IsSorted a (x ∷ xs) h = elim (Bool-cases (leb a x)) [
  | inl before ↦ let le : a ≤ x = ground arith in rw before ((le, Each-weaken x a xs le h.0), h)
  | inr after ↦
      rw after (Each-insert_sorted x a xs (ground arith) h.0, insert_sorted-IsSorted a xs h.1)
]

pub sort-IsSorted : (xs : List ℕ) → IsSorted (sort xs)
unfolding sort
sort-IsSorted [] = tt
sort-IsSorted (x ∷ xs) = insert_sorted-IsSorted x (sort xs) (sort-IsSorted xs)

mem-unique_after : (v x : ℕ) (xs : List ℕ) → mem v (x ∷ unique_after x xs) ≡ mem v (x ∷ xs)
unfolding unique_after
mem-unique_after v x [] = refl
mem-unique_after v x (y ∷ ys) = ground (arith, mem-unique_after v x ys, mem-unique_after v y ys)

pub mem-unique : (v : ℕ) (xs : List ℕ) → mem v (unique xs) ≡ mem v xs
unfolding unique
mem-unique v [] = refl
mem-unique v (x ∷ xs) = mem-unique_after v x xs

unique_after-IsAscending :
    (x : ℕ) (xs : List ℕ) → Each (λ y. x ≤ y) xs → IsSorted xs → IsAscending (x ∷ unique_after x xs)
unfolding unique_after
unique_after-IsAscending x [] low h = (tt, tt)
unique_after-IsAscending x (y ∷ ys) low h = elim (Bool-cases (x == y)) [
  | inl e ↦ rw e (unique_after-IsAscending x ys low.1 h.1)
  | inr ne ↦
      let rest = unique_after-IsAscending y ys h.0 h.1 in
      let lt : x < y = ground (arith, low.0) in
      rw ne ((lt, raise x y (unique_after y ys) lt rest.0), rest)
]
  where
    raise : (a b : ℕ) (zs : List ℕ) → a < b → Each (λ z. b < z) zs → Each (λ z. a < z) zs
    raise a b [] lt g = tt
    raise a b (z ∷ zs) lt g = (omega (arith, g.0), raise a b zs lt g.1)

pub unique-IsAscending : (xs : List ℕ) → IsSorted xs → IsAscending (unique xs)
unfolding unique
unique-IsAscending [] h = tt
unique-IsAscending (x ∷ xs) h = unique_after-IsAscending x xs h.0 h.1

above_of_distinct :
    (x : ℕ) (xs : List ℕ) → Each (λ y. x ≤ y) xs → occurrences x xs ≡ 0 → Each (λ y. x < y) xs
above_of_distinct x [] h none = tt
above_of_distinct x (y ∷ ys) h none =
    (ground (arith, h.0), above_of_distinct x ys h.1 (ground arith))

-- A sorted list of distinct numbers is ascending.
pub IsSorted-IsAscending :
    (xs : List ℕ) → IsSorted xs → ((v : ℕ) → occurrences v xs ≤ 1) → IsAscending xs
IsSorted-IsAscending [] h once = tt
IsSorted-IsAscending (x ∷ xs) h once = (
  above_of_distinct x xs h.0 (ground (arith, once x)),
  IsSorted-IsAscending xs h.1 (λ v. ground (arith, once v)),
)
