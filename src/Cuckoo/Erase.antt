-- ===== src/Cuckoo/Erase.antt =====
-- `count`, `erase` and `clear` of util/cuckoo.hpp.
use parallel_enum.Base.{
  ℕ, zero, suc, ◌+◌, ◌-◌, ◌*◌, ◌%◌, ◌^◌, ◌≤◌, ◌<◌, ◌≡◌, ◌≢◌, refl, sym, ap, ◌∙◌, subst, arith, Bool,
  true, false, List, [], ◌∷◌, Option, none, some, ◌⊎◌, inl, inr, if◌then◌else◌, ◌==◌, ◌||◌, length,
  set, get_or, replicate, occurrences, get_or-set_self, get_or-set_ne, get_or-replicate, Bool-cases,
  Option-cases, get_or_past, ltb, ltb→lt, ltb→ge,
}
use parallel_enum.Cuckoo.{
  CuckooHashSet, hash_1, hash_2, capacity, find_from, find, count_from, count, erase_at, erase,
  clear,
}

-- A write replaces one occurrence.
pub occurrences-set :
    (v x d : ℕ) (l : List ℕ) (i : ℕ)
    → i < length l
    → occurrences v (set l i x) + (if v == get_or l i d then 1 else 0)
      ≡ occurrences v l + (if v == x then 1 else 0)
occurrences-set v x d [] i h = absurd (omega arith)
occurrences-set v x d (y ∷ l) zero h = ground arith
occurrences-set v x d (y ∷ l) (suc i) h = ground (arith, occurrences-set v x d l i (omega arith))

module _ (missing bucket_size : ℕ) where
  abbrev is_some : Option ℕ → Bool
  is_some none = false
  is_some (some i) = true

  -- What a search finds.
  find_from-holds :
      (v : ℕ) (ht : List ℕ) (i n k : ℕ)
      → find_from missing bucket_size v ht i n ≡ some k
      → get_or ht k missing ≡ v
  unfolding find_from
  find_from-holds v ht i zero k e = absurd (cc)
  find_from-holds v ht i (suc n) k e = elim (Bool-cases (get_or ht i missing == v)) [
    | inl here ↦
        let same : i ≡ k = ground arith in ap (λ j. get_or ht j missing) (sym same) ∙ ground arith
    | inr other ↦ find_from-holds v ht (i + 1) n k (ground arith)
  ]

  count_from-find_from :
      (k : ℕ) (ht : List ℕ) (i j n : ℕ)
      → count_from missing bucket_size k ht i j n ≡ (
          is_some (find_from missing bucket_size k ht i n)
          || is_some (find_from missing bucket_size k ht j n))
  unfolding count_from find_from
  count_from-find_from k ht i j zero = refl
  count_from-find_from k ht i j (suc n) =
      ground (arith, count_from-find_from k ht (i + 1) (j + 1) n)

  -- `count` reads the table only for whether slots hold the key.
  count_from-cong :
      (k : ℕ) (ht ht' : List ℕ) (i j n : ℕ)
      → ((p : ℕ) → (get_or ht p missing == k) ≡ (get_or ht' p missing == k))
      → count_from missing bucket_size k ht i j n ≡ count_from missing bucket_size k ht' i j n
  unfolding count_from
  count_from-cong k ht ht' i j zero same = refl
  count_from-cong k ht ht' i j (suc n) same =
      ground (arith, same i, same j, count_from-cong k ht ht' (i + 1) (j + 1) n same)

  pub count_from-none :
      (k : ℕ) (ht : List ℕ) (i j n : ℕ)
      → ((p : ℕ) → (get_or ht p missing == k) ≡ false)
      → count_from missing bucket_size k ht i j n ≡ false
  unfolding count_from
  count_from-none k ht i j zero never = refl
  count_from-none k ht i j (suc n) never =
      ground (arith, never i, never j, count_from-none k ht (i + 1) (j + 1) n never)

  -- A key that the table does not have is in no slot.
  pub absent_slot :
      (k : ℕ) (ht : List ℕ) (p : ℕ)
      → k ≢ missing
      → occurrences k ht ≡ 0
      → (get_or ht p missing == k) ≡ false
  absent_slot k [] p ne h = ground (arith, ne)
  absent_slot k (x ∷ ht) zero ne h = ground arith
  absent_slot k (x ∷ ht) (suc p) ne h = absent_slot k ht p ne (ground arith)

  pub in_range :
      (k : ℕ) (ht : List ℕ) (p : ℕ) → k ≢ missing → get_or ht p missing ≡ k → p < length ht
  in_range k ht p ne e = elim (Bool-cases (ltb p (length ht))) [
    | inl inside ↦ ltb→lt p (length ht) inside
    | inr past ↦ absurd (ne (sym e ∙ get_or_past ht p missing (ltb→ge p (length ht) past)))
  ]

  slot-set :
      (k j : ℕ) (ht : List ℕ) (i p : ℕ)
      → k ≢ missing
      → j ≢ missing
      → (j == k) ≡ false
      → get_or ht i missing ≡ k
      → (get_or (set ht i missing) p missing == j) ≡ (get_or ht p missing == j)
  slot-set k j ht i p nk nj other here = elim (Bool-cases (i == p)) [
    | inl same ↦
        let e : p ≡ i = ground arith in
        subst (λ q. (get_or (set ht i missing) q missing == j) ≡ (get_or ht q missing == j)) (sym e)
          (ground (arith, get_or-set_self ht i missing missing (in_range k ht i nk here), here, nj))
    | inr apart ↦ ap (λ x. x == j) (get_or-set_ne ht i p missing missing (λ e. ground arith))
  ]

  -- A slot that holds the key is emptied.
  count-set :
      (k j i : ℕ) (c : CuckooHashSet) (sz : ℕ)
      → k ≢ missing
      → j ≢ missing
      → occurrences k c.ht ≤ 1
      → get_or c.ht i missing ≡ k
      → count missing bucket_size j (record c { ht = set c.ht i missing; sz = sz })
        ≡ (if j == k then false else count missing bucket_size j c)
  unfolding count
  count-set k j i c sz nk nj once here = elim (Bool-cases (j == k)) [
    | inl same ↦
        let e : j ≡ k = ground arith in
        let gone : occurrences k (set c.ht i missing) ≡ 0 = ground (
          arith,
          occurrences-set k missing missing c.ht i (in_range k c.ht i nk here),
          here,
          once,
          nk,
        ) in
        rw same (
          count_from-none j (set c.ht i missing) _ _ bucket_size (λ p.
            ap (λ x. get_or (set c.ht i missing) p missing == x) e
            ∙ absent_slot k (set c.ht i missing) p nk gone))
    | inr other ↦ rw other (
        count_from-cong j (set c.ht i missing) c.ht _ _ bucket_size
          (λ p. slot-set k j c.ht i p nk nj other here))
  ]

  -- `count` of a key that neither search finds.
  count-missed :
      (k : ℕ) (c : CuckooHashSet)
      → find missing bucket_size k c.ht (hash_1 c.mask k) ≡ none
      → find missing bucket_size k c.ht (hash_2 c.mask k) ≡ none
      → count missing bucket_size k c ≡ false
  unfolding count find
  count-missed k c first second =
      count_from-find_from k c.ht _ _ bucket_size ∙ ground (arith, first, second)

  count-found :
      (k : ℕ) (c : CuckooHashSet)
      → (is_some (find missing bucket_size k c.ht (hash_1 c.mask k))
          || is_some (find missing bucket_size k c.ht (hash_2 c.mask k)))
        ≡ true
      → count missing bucket_size k c ≡ true
  unfolding count find
  count-found k c found = count_from-find_from k c.ht _ _ bucket_size ∙ found

  pub find-holds :
      (v bucket i : ℕ) (ht : List ℕ)
      → find missing bucket_size v ht bucket ≡ some i
      → get_or ht i missing ≡ v
  unfolding find
  find-holds v bucket i ht e = find_from-holds v ht (bucket * bucket_size) bucket_size i e

  if_true : (b : Bool) (x y : ℕ) → b ≡ true → x ≡ (if b then x else y)
  if_true true x y e = refl
  if_true false x y e = absurd (cc)

  if_false : (b : Bool) (x y : ℕ) → b ≡ false → y ≡ (if b then x else y)
  if_false true x y e = absurd (cc)
  if_false false x y e = refl

  -- `erase` of a key that the table holds at most once makes `count` of it false and changes no
  -- `count` of another key; the size falls by one, wrapping at 64 bits, exactly if the key was
  -- counted. Neither key is the empty mark.
  pub erase_lem :
      (k j : ℕ) (c : CuckooHashSet)
      → k ≢ missing
      → j ≢ missing
      → occurrences k c.ht ≤ 1
      → (count missing bucket_size j (erase missing bucket_size k c)
          ≡ (if j == k then false else count missing bucket_size j c))
        × ((erase missing bucket_size k c).sz
            ≡ (if count missing bucket_size k c then (c.sz + (2 ^ 64 - 1)) % 2 ^ 64 else c.sz))
  unfolding erase erase_at
  erase_lem k j c nk nj once =
      elim (Option-cases (find missing bucket_size k c.ht (hash_1 c.mask k))) [
        | inr (i, first) ↦ rw first (
          count-set k j i c _ nk nj once (find-holds k (hash_1 c.mask k) i c.ht first),
          if_true (count missing bucket_size k c) _ _ (count-found k c (ground (arith, first))),
        )
        | inl nothing ↦ elim (Option-cases (find missing bucket_size k c.ht (hash_2 c.mask k))) [
          | inr (i, second) ↦
              rw (nothing, second)
                (
                  count-set k j i c _ nk nj once (find-holds k (hash_2 c.mask k) i c.ht second),
                  if_true (count missing bucket_size k c) _ _
                      (count-found k c (ground (arith, nothing, second))),
                )
          | inl neither ↦
              let missed = count-missed k c nothing neither in
              rw (nothing, neither)
                (
                  unmoved (Bool-cases (j == k)) missed,
                  if_false (count missing bucket_size k c) _ _ missed,
                )
        ]
      ]
    where
      unmoved :
          ((j == k) ≡ true) ⊎ ((j == k) ≡ false)
          → count missing bucket_size k c ≡ false
          → count missing bucket_size j c
            ≡ (if j == k then false else count missing bucket_size j c)
      unmoved (inl same) missed =
          let e : j ≡ k = ground arith in
          rw same (ap (λ x. count missing bucket_size x c) e ∙ missed)
      unmoved (inr other) missed = rw other refl

  -- After `clear` no key other than the empty mark is counted, but the size is what it was before.
  pub clear_lem :
      (k : ℕ) (c : CuckooHashSet)
      → k ≢ missing
      → (count missing bucket_size k (clear missing bucket_size c) ≡ false)
        × ((clear missing bucket_size c).sz ≡ c.sz)
  unfolding clear count
  clear_lem k c nk = (
    count_from-none k (replicate (capacity missing bucket_size c.mask) missing) _ _ bucket_size
        (λ p.
          let e = get_or-replicate (capacity missing bucket_size c.mask) p missing in
          subst (λ x. (x == k) ≡ false) (sym e) (ground arith)),
    refl,
  )
