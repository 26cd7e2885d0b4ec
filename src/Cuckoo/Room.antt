-- ===== src/Cuckoo/Room.antt =====
-- Tables of util/cuckoo.hpp: where the mask is above all keys, there is room for each.
use native.Mathlib.Nat.{mod-eq_of_lt}
use parallel_enum.Base.{
  ℕ, zero, suc, ◌+◌, ◌-◌, ◌*◌, ◌/◌, ◌%◌, ◌≤◌, ◌<◌, ◌≡◌, ◌≢◌, refl, sym, ap, ◌∙◌, subst, arith, true,
  false, List, [], ◌∷◌, none, some, ◌⊎◌, inl, inr, ◌==◌, length, get_or, occurrences, Bool-cases,
  Option-cases, ltb, ltb→lt, ltb→ge,
}
use parallel_enum.Cuckoo.{hash_1, hash_2, capacity, find_from, find}
use parallel_enum.Cuckoo.Erase.{absent_slot}
use parallel_enum.Cuckoo.Placed.{hash_1-le, same, IsPlaced, bucket-end, bucket_of, Exchange}

-- Two slots with the same key.
occurrences-twice :
    (v d : ℕ) (l : List ℕ) (p q : ℕ)
    → p < q
    → q < length l
    → get_or l p d ≡ v
    → get_or l q d ≡ v
    → 2 ≤ occurrences v l
occurrences-twice v d [] p q lt h e f = absurd (omega arith)
occurrences-twice v d (x ∷ l) zero zero lt h e f = absurd (omega arith)
occurrences-twice v d (x ∷ l) zero (suc q) lt h e f =
    ground (arith, occurrences-once v d l q (omega arith) f)
  where
    occurrences-once :
        (v d : ℕ) (l : List ℕ) (q : ℕ) → q < length l → get_or l q d ≡ v → 1 ≤ occurrences v l
    occurrences-once v d [] q h f = absurd (omega arith)
    occurrences-once v d (x ∷ l) zero h f = ground arith
    occurrences-once v d (x ∷ l) (suc q) h f =
        ground (arith, occurrences-once v d l q (omega arith) f)
occurrences-twice v d (x ∷ l) (suc p) zero lt h e f = absurd (omega arith)
occurrences-twice v d (x ∷ l) (suc p) (suc q) lt h e f =
    ground (arith, occurrences-twice v d l p q (omega arith) (omega arith) e f)

module _ (missing bucket_size top : ℕ) (two_slots : 2 ≤ bucket_size) where
  -- A table whose keys are distinct, in their buckets and at most `top`.
  pub record IsTable (mask : ℕ) (ht : List ℕ) : Type 0 where
    pub size : length ht ≡ capacity missing bucket_size mask
    pub placed : IsPlaced missing bucket_size mask ht
    pub once : (v : ℕ) → v ≢ missing → occurrences v ht ≤ 1
    pub small : (v : ℕ) → v ≢ missing → top < v → occurrences v ht ≡ 0

  find-none :
      (v : ℕ) (ht : List ℕ) (b p : ℕ)
      → find missing bucket_size v ht b ≡ none
      → b * bucket_size ≤ p
      → p < b * bucket_size + bucket_size
      → (get_or ht p missing == v) ≡ false
  unfolding find find_from
  find-none v ht b p none_found low high = from (b * bucket_size) bucket_size none_found low high
    where
      from :
          (i n : ℕ)
          → find_from missing bucket_size v ht i n ≡ none
          → i ≤ p
          → p < i + n
          → (get_or ht p missing == v) ≡ false
      from i zero e low high = absurd (omega arith)
      from i (suc n) e low high = elim (Bool-cases (get_or ht i missing == v)) [
        | inl here ↦ absurd (ground arith)
        | inr other ↦ elim (Bool-cases (i == p)) [
          | inl at ↦
              let q : i ≡ p = ground arith in
              subst (λ j. (get_or ht j missing == v) ≡ false) q other
          | inr apart ↦ from (i + 1) n (ground arith) (ground arith) (omega arith)
        ]
      ]

  differs : (x y : ℕ) → (x == y) ≡ false → x ≢ y
  differs x y h e = ground (arith, h, e)

  -- Where the mask is above all keys, a slot of the first bucket of `k` holds one key only, unless
  -- it is free.
  only_other :
      (mask k p : ℕ) (ht : List ℕ)
      → top ≤ mask
      → k ≤ top
      → k ≢ missing
      → IsTable mask ht
      → occurrences k ht ≡ 0
      → find missing bucket_size missing ht (hash_1 mask k) ≡ none
      → hash_1 mask k * bucket_size ≤ p
      → p < hash_1 mask k * bucket_size + bucket_size
      → (get_or ht p missing ≢ missing) × (get_or ht p missing ≡ mask - k)
  unfolding hash_1 hash_2
  only_other mask k p ht le low nk table new full from to =
      let x = get_or ht p missing in
      let ne : x ≢ missing =
        λ e. differs x missing (find-none missing ht (hash_1 mask k) p full from to) e in
      let small : x ≤ top = elim (Bool-cases (ltb top x)) [
        | inl above ↦ absurd (
            differs x x
              (absent_slot missing bucket_size x ht p ne (table.small x ne (ltb→lt top x above)))
              refl)
        | inr below ↦ ltb→ge top x below
      ] in
      let own : k % (mask + 1) ≡ k = mod-eq_of_lt (omega arith) in
      let its : x % (mask + 1) ≡ x = mod-eq_of_lt (omega arith) in
      let end =
        bucket-end missing bucket_size mask (hash_1 mask k) ht (hash_1-le mask k)
          (omega (arith, table.size)) in
      let b : p / bucket_size ≡ k = bucket_of missing bucket_size (hash_1 mask k) p from to ∙ own in
      let other : x ≢ k = differs x k (absent_slot missing bucket_size k ht p nk new) in
      (
        ne,
        elim (table.placed p (omega arith)) [
          | inl e ↦ absurd (ne e)
          | inr (inl first) ↦ absurd (other (sym its ∙ sym first ∙ b))
          | inr (inr second) ↦ omega (arith, second, b, its, small)
        ],
      )

  -- So that bucket has a free slot.
  pub room :
      (mask k : ℕ) (ht : List ℕ)
      → top ≤ mask
      → k ≤ top
      → k ≢ missing
      → IsTable mask ht
      → occurrences k ht ≡ 0
      → (i : ℕ) × (find missing bucket_size missing ht (hash_1 mask k) ≡ some i)
  room mask k ht le low nk table new =
      elim (Option-cases (find missing bucket_size missing ht (hash_1 mask k))) [
        | inr found ↦ found
        | inl full ↦
            let base = hash_1 mask k * bucket_size in
            let end =
              bucket-end missing bucket_size mask (hash_1 mask k) ht (hash_1-le mask k)
                (omega (arith, table.size)) in
            let (ne, a) =
              only_other mask k base ht le low nk table new full (omega arith) (omega arith) in
            let (_, b) =
              only_other mask k (base + 1) ht le low nk table new full (omega arith)
                (omega arith) in
            let twice =
              occurrences-twice (get_or ht base missing) missing ht base (base + 1) (omega arith)
                (omega arith) refl (b ∙ sym a) in
            absurd (omega (arith, twice, table.once (get_or ht base missing) ne))
      ]

  -- What an insertion in a table answers.
  pub record Adds (mask k : ℕ) (ht : List ℕ) (r : ℕ × List ℕ) : Type 0 where
    pub larger : mask ≤ r.0
    pub table : IsTable r.0 r.1
    pub keys : (v : ℕ) → v ≢ missing → occurrences v r.1 ≡ occurrences v ht + same v k

  -- A key that a table can take.
  pub record IsNew (k : ℕ) (ht : List ℕ) : Type 0 where
    pub key : k ≢ missing
    pub low : k ≤ top
    pub absent : occurrences k ht ≡ 0

  pub Adds-settled :
      (mask k : ℕ) (ht ht' : List ℕ)
      → IsTable mask ht
      → IsNew k ht
      → Exchange missing bucket_size mask k missing ht ht'
      → Adds mask k ht (mask, ht')
  Adds-settled mask k ht ht' table new ex = record {
    larger = omega arith;
    table = record {
      size = ex.same_length ∙ table.size;
      placed = ex.placed;
      once = λ v nv. once v nv (Bool-cases (v == k));
      small = λ v nv above. keys v nv ∙ ground (arith, table.small v nv above, new.low);
    };
    keys = keys;
  }
    where
      keys : (v : ℕ) → v ≢ missing → occurrences v ht' ≡ occurrences v ht + same v k
      keys v nv = ground (arith, ex.keys v, nv)

      once : (v : ℕ) → v ≢ missing → ((v == k) ≡ true) ⊎ ((v == k) ≡ false) → occurrences v ht' ≤ 1
      once v nv (inl eq) =
          let e : v ≡ k = ground arith in
          ground (arith, keys v nv, ap (λ x. occurrences x ht) e, new.absent)
      once v nv (inr ne) = ground (arith, keys v nv, table.once v nv)
