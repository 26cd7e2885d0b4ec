-- ===== src/Cuckoo/Placed.antt =====
-- Each key of a table stands in one of its two buckets, and a displacement keeps it so
-- (util/cuckoo.hpp).
use native.Mathlib.Nat.{div-eq_of_lt-le, mod-lt}
use parallel_enum.Base.{
  ℕ, zero, suc, ◌+◌, ◌-◌, ◌*◌, ◌/◌, ◌%◌, ◌≤◌, ◌<◌, ◌≡◌, refl, sym, ap, ◌∙◌, subst, arith, List,
  Option, none, some, ◌⊎◌, inl, inr, if◌then◌else◌, ◌==◌, length, set, get_or, occurrences,
  get_or-set_self, get_or-set_ne, length-set, Bool-cases,
}
use parallel_enum.Cuckoo.{hash_1, hash_2, capacity, find_from, find, shift_from, kick, kicked}
use parallel_enum.Cuckoo.Erase.{occurrences-set}

pub hash_1-le : (mask k : ℕ) → hash_1 mask k ≤ mask
unfolding hash_1
hash_1-le mask k = let h : k % (mask + 1) < mask + 1 = mod-lt k (omega arith) in omega (arith, h)

pub hash_2-le : (mask k : ℕ) → hash_2 mask k ≤ mask
unfolding hash_2
hash_2-le mask k = omega arith

-- One of the two buckets of a key.
abbrev pub IsBucketOf : ℕ → ℕ → ℕ → Type 0
IsBucketOf mask k b = (b ≡ hash_1 mask k) ⊎ (b ≡ hash_2 mask k)

pub IsBucketOf-le : (mask k b : ℕ) → IsBucketOf mask k b → b ≤ mask
IsBucketOf-le mask k b (inl e) = subst (λ x. x ≤ mask) (sym e) (hash_1-le mask k)
IsBucketOf-le mask k b (inr e) = subst (λ x. x ≤ mask) (sym e) (hash_2-le mask k)

-- One, if the numbers are equal.
abbrev pub same : ℕ → ℕ → ℕ
same v x = if v == x then 1 else 0

module _ (missing bucket_size : ℕ) where
  pub find_from-range :
      (v : ℕ) (ht : List ℕ) (i n k : ℕ)
      → find_from missing bucket_size v ht i n ≡ some k
      → (i ≤ k) × (k < i + n)
  unfolding find_from
  find_from-range v ht i zero k e = absurd (cc)
  find_from-range v ht i (suc n) k e = elim (Bool-cases (get_or ht i missing == v)) [
    | inl here ↦ let at : i ≡ k = ground arith in omega arith
    | inr other ↦
        let range = find_from-range v ht (i + 1) n k (ground arith) in
        omega (arith, range.0, range.1)
  ]

  abbrev pub Slot : ℕ → ℕ → ℕ → Type 0
  Slot mask x b = (x ≡ missing) ⊎ IsBucketOf mask x b

  abbrev pub IsPlaced : ℕ → List ℕ → Type 0
  IsPlaced mask ht = (p : ℕ) → p < length ht → Slot mask (get_or ht p missing) (p / bucket_size)

  pub IsPlaced-set :
      (mask x i : ℕ) (ht : List ℕ)
      → IsPlaced mask ht
      → Slot mask x (i / bucket_size)
      → IsPlaced mask (set ht i x)
  IsPlaced-set mask x i ht placed slot p h =
      let inside : p < length ht = omega (arith, length-set ht i x) in
      elim (Bool-cases (i == p)) [
        | inl at ↦
            let e : p ≡ i = ground arith in
            subst (λ q. Slot mask (get_or (set ht i x) q missing) (q / bucket_size)) (sym e)
              (subst (λ y. Slot mask y (i / bucket_size))
                (sym (get_or-set_self ht i x missing (omega arith))) slot)
        | inr apart ↦
            subst (λ y. Slot mask y (p / bucket_size))
              (sym (get_or-set_ne ht i p x missing (λ e. ground arith))) (placed p inside)
      ]

  -- A bucket of a table is in range.
  pub bucket-end :
      (mask b : ℕ) (ht : List ℕ)
      → b ≤ mask
      → capacity missing bucket_size mask ≤ length ht
      → b * bucket_size + bucket_size ≤ length ht
  unfolding capacity
  bucket-end mask b ht le size = grind (arith, le, size)

  pub bucket_of :
      (b p : ℕ) → b * bucket_size ≤ p → p < b * bucket_size + bucket_size → p / bucket_size ≡ b
  bucket_of b p low high = div-eq_of_lt-le bucket_size low (grind (arith, high))

  shift_from-length :
      (ht : List ℕ) (i n : ℕ) → length (shift_from missing bucket_size ht i n) ≡ length ht
  unfolding shift_from
  shift_from-length ht i zero = refl
  shift_from-length ht i (suc n) =
      shift_from-length (set ht i (get_or ht (i + 1) missing)) (i + 1) n
      ∙ length-set ht i (get_or ht (i + 1) missing)

  -- A shift leaves the slots from its end on alone.
  shift_from-after :
      (ht : List ℕ) (i n p : ℕ)
      → i + n ≤ p
      → get_or (shift_from missing bucket_size ht i n) p missing ≡ get_or ht p missing
  unfolding shift_from
  shift_from-after ht i zero p h = refl
  shift_from-after ht i (suc n) p h =
      shift_from-after (set ht i (get_or ht (i + 1) missing)) (i + 1) n p (omega arith)
      ∙ get_or-set_ne ht i p (get_or ht (i + 1) missing) missing (λ e. omega arith)

  occurrences-shift_from :
      (v : ℕ) (ht : List ℕ) (i n : ℕ)
      → i + n < length ht
      → occurrences v (shift_from missing bucket_size ht i n) + same v (get_or ht i missing)
        ≡ occurrences v ht + same v (get_or ht (i + n) missing)
  unfolding shift_from
  occurrences-shift_from v ht i zero h =
      let e : i ≡ i + 0 = omega arith in ap (λ j. occurrences v ht + same v (get_or ht j missing)) e
  occurrences-shift_from v ht i (suc n) h =
      let next = get_or ht (i + 1) missing in
      let moved = set ht i next in
      let rest = occurrences-shift_from v moved (i + 1) n (omega (arith, length-set ht i next)) in
      let one = occurrences-set v next missing ht i (omega arith) in
      let far : get_or moved (i + 1 + n) missing ≡ get_or ht (i + suc n) missing =
        get_or-set_ne ht i (i + 1 + n) next missing (λ e. omega arith)
        ∙ ap (λ j. get_or ht j missing) (index i n) in
      let near : get_or moved (i + 1) missing ≡ next =
        get_or-set_ne ht i (i + 1) next missing (λ e. omega arith) in
      omega (arith, rest, one, ap (same v) far, ap (same v) near)
    where
      index : (i n : ℕ) → i + 1 + n ≡ i + suc n
      index i n = omega arith

  -- A shift within a bucket moves keys to slots of the same bucket.
  shift_from-IsPlaced :
      (mask b : ℕ) (ht : List ℕ) (i n : ℕ)
      → b * bucket_size ≤ i
      → i + n < b * bucket_size + bucket_size
      → i + n < length ht
      → IsPlaced mask ht
      → IsPlaced mask (shift_from missing bucket_size ht i n)
  unfolding shift_from
  shift_from-IsPlaced mask b ht i zero low high inside placed = placed
  shift_from-IsPlaced mask b ht i (suc n) low high inside placed =
      let next = get_or ht (i + 1) missing in
      let here = bucket_of b i low (omega arith) in
      let there = bucket_of b (i + 1) (omega arith) (omega arith) in
      shift_from-IsPlaced mask b (set ht i next) (i + 1) n (omega arith) (omega arith)
        (omega (arith, length-set ht i next))
        (IsPlaced-set mask next i ht placed
          (subst (Slot mask next) (there ∙ sym here) (placed (i + 1) (omega arith))))

  -- What a table turns into when `k` displaces `x`.
  pub record Exchange (mask k x : ℕ) (ht ht' : List ℕ) : Type 0 where
    pub same_length : length ht' ≡ length ht
    pub placed : IsPlaced mask ht'
    pub keys : (v : ℕ) → occurrences v ht' + same v x ≡ occurrences v ht + same v k

  pub find-range :
      (v b i : ℕ) (ht : List ℕ)
      → find missing bucket_size v ht b ≡ some i
      → (b * bucket_size ≤ i) × (i < b * bucket_size + bucket_size)
  unfolding find
  find-range v b i ht e = find_from-range v ht (b * bucket_size) bucket_size i e

  pub Exchange-set :
      (mask k b i : ℕ) (ht : List ℕ)
      → IsBucketOf mask k b
      → b * bucket_size ≤ i
      → i < b * bucket_size + bucket_size
      → i < length ht
      → IsPlaced mask ht
      → Exchange mask k (get_or ht i missing) ht (set ht i k)
  Exchange-set mask k b i ht bucket low high inside placed = record {
    same_length = length-set ht i k;
    placed =
        IsPlaced-set mask k i ht placed
          (inr (subst (IsBucketOf mask k) (sym (bucket_of b i low high)) bucket));
    keys = λ v. occurrences-set v k missing ht i inside;
  }

  pub Exchange-kick :
      (mask k b : ℕ) (ht : List ℕ) (free : Option ℕ)
      → 0 < bucket_size
      → find missing bucket_size missing ht b ≡ free
      → IsBucketOf mask k b
      → capacity missing bucket_size mask ≤ length ht
      → IsPlaced mask ht
      → Exchange mask k
          (kicked missing bucket_size ht b free)
          ht
          (kick missing bucket_size k ht b free)
  unfolding kick kicked
  Exchange-kick mask k b ht (some i) pos found bucket size placed =
      let (low, high) = find-range missing b i ht found in
      let last = bucket-end mask b ht (IsBucketOf-le mask k b bucket) size in
      Exchange-set mask k b i ht bucket low high (omega arith) placed
  Exchange-kick mask k b ht none pos found bucket size placed =
      let end = bucket-end mask b ht (IsBucketOf-le mask k b bucket) size in
      let base = b * bucket_size in
      let last = base + bucket_size - 1 in
      let at_last : base + (bucket_size - 1) ≡ last = omega arith in
      let shifted = shift_from missing bucket_size ht base (bucket_size - 1) in
      let n = shift_from-length ht base (bucket_size - 1) in
      let shift_placed =
        shift_from-IsPlaced mask b ht base (bucket_size - 1) (omega arith) (omega arith)
          (omega arith) placed in
      let written =
        Exchange-set mask k b last shifted bucket (omega arith) (omega arith) (omega arith)
          shift_placed in
      let kept : get_or shifted last missing ≡ get_or ht last missing =
        shift_from-after ht base (bucket_size - 1) last (omega arith) in
      record {
        same_length = written.same_length ∙ n;
        placed = written.placed;
        keys = λ v. omega (
          arith,
          written.keys v,
          occurrences-shift_from v ht base (bucket_size - 1) (omega arith),
          ap (same v) kept,
          ap (λ j. same v (get_or ht j missing)) at_last,
        );
      }
