-- ===== src/Base/Lists.antt =====
-- Vectors of the program as lists indexed by native numbers, and membership as a Boolean test.
use Prim.Native.Nat.{ℕ, zero, suc, ◌+◌, ◌≤◌, ◌<◌}
use mathlib.Core.Path.{◌≡◌, refl, ap, subst}
use mathlib.Core.Logic.{◌≢◌, ◌↔◌}
use mathlib.Core.Bool.{Bool, true, false}
use mathlib.Core.Option.{Option, none, some}
use mathlib.Core.List.{List, [], ◌∷◌, ◌++◌}
use native.Mathlib.Omega.{arith}
use parallel_enum.Base.Tests.{◌==◌, ltb, lt→ltb, if◌then◌else◌}

module _ {ℓ} {A : Type ℓ} where
  abbrev pub length : List A → ℕ
  length [] = 0
  length (_ ∷ xs) = suc (length xs)

  -- A read out of bounds gives the default.
  abbrev pub get_or : List A → ℕ → A → A
  get_or [] i d = d
  get_or (x ∷ xs) zero d = x
  get_or (x ∷ xs) (suc i) d = get_or xs i d

  -- A write out of bounds changes nothing.
  abbrev pub set : List A → ℕ → A → List A
  set [] i v = []
  set (x ∷ xs) zero v = v ∷ xs
  set (x ∷ xs) (suc i) v = x ∷ set xs i v

  abbrev pub replicate : ℕ → A → List A
  replicate zero a = []
  replicate (suc n) a = a ∷ replicate n a

  abbrev pub Each {κ} : (A → Type κ) → List A → Type κ
  Each holds [] = Unit
  Each holds (a ∷ rest) = holds a × Each holds rest

  pub length-append : (xs ys : List A) → length (xs ++ ys) ≡ length xs + length ys
  length-append [] ys = omega arith
  length-append (x ∷ xs) ys = omega (arith, length-append xs ys)

  pub length-set : (xs : List A) (i : ℕ) (v : A) → length (set xs i v) ≡ length xs
  length-set [] i v = refl
  length-set (x ∷ xs) zero v = refl
  length-set (x ∷ xs) (suc i) v = ap suc (length-set xs i v)

  pub get_or-set_self :
      (xs : List A) (i : ℕ) (v d : A) → i < length xs → get_or (set xs i v) i d ≡ v
  get_or-set_self [] i v d h = absurd (omega arith)
  get_or-set_self (x ∷ xs) zero v d h = refl
  get_or-set_self (x ∷ xs) (suc i) v d h = get_or-set_self xs i v d (omega arith)

  pub get_or-set_ne :
      (xs : List A) (i j : ℕ) (v d : A) → i ≢ j → get_or (set xs i v) j d ≡ get_or xs j d
  get_or-set_ne [] i j v d h = refl
  get_or-set_ne (x ∷ xs) zero zero v d h = absurd (h refl)
  get_or-set_ne (x ∷ xs) zero (suc j) v d h = refl
  get_or-set_ne (x ∷ xs) (suc i) zero v d h = refl
  get_or-set_ne (x ∷ xs) (suc i) (suc j) v d h = get_or-set_ne xs i j v d (λ e. h (ap suc e))

-- `v` occurs in the list
abbrev pub mem : ℕ → List ℕ → Bool
mem a [] = false
mem a (x ∷ xs) = if a == x then true else mem a xs

pub mem-append : (a : ℕ) (xs ys : List ℕ) → mem a (xs ++ ys) ≡ (if mem a xs then true else mem a ys)
mem-append a [] ys = refl
mem-append a (x ∷ xs) ys = ground (arith, mem-append a xs ys)

abbrev pub occurrences : ℕ → List ℕ → ℕ
occurrences v [] = 0
occurrences v (n ∷ ns) = if v == n then suc (occurrences v ns) else occurrences v ns

pub occurrences-append :
    (v : ℕ) (front back : List ℕ)
    → occurrences v back + occurrences v front ≡ occurrences v (front ++ back)
occurrences-append v [] back = omega arith
occurrences-append v (n ∷ front) back = ground (arith, occurrences-append v front back)

pub occurrences-eq-zero : (a : ℕ) (xs : List ℕ) → (mem a xs ≡ false) ↔ (occurrences a xs ≡ 0)
occurrences-eq-zero a [] = ground arith
occurrences-eq-zero a (x ∷ xs) = ground (arith, occurrences-eq-zero a xs)

pub length-replicate {ℓ} : {A : Type ℓ} (n : ℕ) (a : A) → length (replicate n a) ≡ n
length-replicate zero a = refl
length-replicate (suc n) a = ap suc (length-replicate n a)

pub get_or-replicate {ℓ} : {A : Type ℓ} (n i : ℕ) (a : A) → get_or (replicate n a) i a ≡ a
get_or-replicate zero i a = refl
get_or-replicate (suc n) zero a = refl
get_or-replicate (suc n) (suc i) a = get_or-replicate n i a

pub Each-append {ℓ κ} :
    {A : Type ℓ} (holds : A → Type κ) (front : List A) (a : A)
    → Each holds front
    → holds a
    → Each holds (front ++ a ∷ [])
Each-append holds [] a h p = (p, tt)
Each-append holds (b ∷ front) a h p = (h.0, Each-append holds front a h.1 p)

module _ {ℓ} {A : Type ℓ} where
  abbrev pub get_elem? : List A → ℕ → Option A
  get_elem? [] i = none
  get_elem? (x ∷ xs) zero = some x
  get_elem? (x ∷ xs) (suc i) = get_elem? xs i

  pub get_elem?_total : (xs : List A) (i : ℕ) → i < length xs → (x : A) × (get_elem? xs i ≡ some x)
  get_elem?_total [] i h = absurd (omega arith)
  get_elem?_total (x ∷ xs) zero h = (x, refl)
  get_elem?_total (x ∷ xs) (suc i) h = get_elem?_total xs i (omega arith)

pub mem_of_get_elem? : (xs : List ℕ) (i a : ℕ) → get_elem? xs i ≡ some a → mem a xs ≡ true
mem_of_get_elem? [] i a h = absurd (cc)
mem_of_get_elem? (x ∷ xs) zero a h = ground arith
mem_of_get_elem? (x ∷ xs) (suc i) a h = ground (arith, mem_of_get_elem? xs i a)

-- Strictly ascending.
abbrev pub IsAscending : List ℕ → Type 0
IsAscending [] = Unit
IsAscending (x ∷ xs) = Each (λ y. x < y) xs × IsAscending xs

pub Each-get_elem? {ℓ} :
    (P : ℕ → Type ℓ) (xs : List ℕ) (i a : ℕ) → Each P xs → get_elem? xs i ≡ some a → P a
Each-get_elem? P [] i a h e = absurd (cc)
Each-get_elem? P (x ∷ xs) zero a h e = let e' : x ≡ a = cc in subst P e' h.0
Each-get_elem? P (x ∷ xs) (suc i) a h e = Each-get_elem? P xs i a h.1 e

pub get_or-set-false :
    (bits : List Bool) (i v : ℕ)
    → get_or (set bits i false) v false ≡ (if v == i then false else get_or bits v false)
get_or-set-false [] i v = ground arith
get_or-set-false (b ∷ bits) zero zero = refl
get_or-set-false (b ∷ bits) zero (suc v) = ground arith
get_or-set-false (b ∷ bits) (suc i) zero = ground arith
get_or-set-false (b ∷ bits) (suc i) (suc v) = ground (arith, get_or-set-false bits i v)

pub mem-get_or : (xs : List ℕ) (i d : ℕ) → i < length xs → mem (get_or xs i d) xs ≡ true
mem-get_or [] i d h = absurd (omega arith)
mem-get_or (x ∷ xs) zero d h = ground arith
mem-get_or (x ∷ xs) (suc i) d h = ground (arith, mem-get_or xs i d (omega arith))

module _ {ℓ} {A : Type ℓ} where
  -- `f` at so many numbers from `i` on, as a loop fills an array.
  unfoldable pub tabulate : (ℕ → A) → ℕ → ℕ → List A
  tabulate f i zero = []
  tabulate f i (suc rounds) = f i ∷ tabulate f (suc i) rounds

  pub length-tabulate : (f : ℕ → A) (i rounds : ℕ) → length (tabulate f i rounds) ≡ rounds
  unfolding tabulate
  length-tabulate f i zero = refl
  length-tabulate f i (suc rounds) = ap suc (length-tabulate f (suc i) rounds)

  get_or-tabulate_from :
      (f : ℕ → A) (i rounds j : ℕ) (d : A)
      → get_or (tabulate f i rounds) j d ≡ (if ltb j rounds then f (i + j) else d)
  unfolding tabulate
  get_or-tabulate_from f i zero j d = ground arith
  get_or-tabulate_from f i (suc rounds) zero d =
      let e : i ≡ i + 0 = omega arith in rw (lt→ltb 0 (suc rounds) (omega arith)) (ap f e)
  get_or-tabulate_from f i (suc rounds) (suc j) d =
      let e : suc i + j ≡ i + suc j = omega arith in
      let rest = get_or-tabulate_from f (suc i) rounds j d in
      subst
        (λ x. get_or (tabulate f (suc i) rounds) j d ≡ (if ltb (suc j) (suc rounds) then x else d))
        (ap f e) (ground arith)

  pub get_or-tabulate :
      (f : ℕ → A) (rounds j : ℕ) (d : A)
      → get_or (tabulate f 0 rounds) j d ≡ (if ltb j rounds then f j else d)
  get_or-tabulate f rounds j d =
      let e : 0 + j ≡ j = omega arith in
      subst (λ x. get_or (tabulate f 0 rounds) j d ≡ (if ltb j rounds then x else d)) (ap f e)
        (get_or-tabulate_from f 0 rounds j d)

  -- A read past the end gives the default.
  pub get_or_past : (xs : List A) (i : ℕ) (d : A) → length xs ≤ i → get_or xs i d ≡ d
  get_or_past [] i d h = refl
  get_or_past (x ∷ xs) zero d h = absurd (omega arith)
  get_or_past (x ∷ xs) (suc i) d h = get_or_past xs i d (omega arith)
