-- ===== src/Cuckoo/Member.antt =====
-- The set that a table of util/cuckoo.hpp stands for: `count` answers for its keys, and `insert`
-- adds one.
use native.Mathlib.Nat.{div-mul-le_self, lt-div-mul-add}
use parallel_enum.Base.{
  ℕ, zero, suc, ◌+◌, ◌*◌, ◌/◌, ◌%◌, ◌^◌, ◌≤◌, ◌<◌, ◌≡◌, ◌≢◌, refl, sym, ap, ◌∙◌, arith, true, false,
  List, [], ◌∷◌, some, ◌⊎◌, inl, inr, if◌then◌else◌, ◌==◌, ◌>>=◌, length, get_or, occurrences,
  Bool-cases,
}
use parallel_enum.Cuckoo.{CuckooHashSet, hash_1, hash_2, count_from, count, insert}
use parallel_enum.Cuckoo.Erase.{absent_slot, count_from-none}
use parallel_enum.Cuckoo.Placed.{same}
use parallel_enum.Cuckoo.Room.{IsTable, IsNew, Adds}
use parallel_enum.Cuckoo.Insert.{insert_in_lem}

-- A slot of a key that the list has.
slot_of :
    (v d : ℕ) (l : List ℕ) → 1 ≤ occurrences v l → (p : ℕ) × (p < length l) × (get_or l p d ≡ v)
slot_of v d [] h = absurd (omega arith)
slot_of v d (x ∷ l) h = elim (Bool-cases (v == x)) [
  | inl here ↦ (0, omega arith, ground arith)
  | inr other ↦ let (p, lt, e) = slot_of v d l (ground arith) in (suc p, omega arith, e)
]

module _ (missing bucket_size : ℕ) where
  count_from-first :
      (k : ℕ) (ht : List ℕ) (i j n p : ℕ)
      → i ≤ p
      → p < i + n
      → get_or ht p missing ≡ k
      → count_from missing bucket_size k ht i j n ≡ true
  unfolding count_from
  count_from-first k ht i j zero p low high e = absurd (omega arith)
  count_from-first k ht i j (suc n) p low high e = elim (Bool-cases (i == p)) [
    | inl at ↦ let q : i ≡ p = ground arith in ground (arith, ap (λ x. get_or ht x missing) q ∙ e)
    | inr apart ↦
        ground (arith, count_from-first k ht (i + 1) (j + 1) n p (ground arith) (omega arith) e)
  ]

  count_from-second :
      (k : ℕ) (ht : List ℕ) (i j n p : ℕ)
      → j ≤ p
      → p < j + n
      → get_or ht p missing ≡ k
      → count_from missing bucket_size k ht i j n ≡ true
  unfolding count_from
  count_from-second k ht i j zero p low high e = absurd (omega arith)
  count_from-second k ht i j (suc n) p low high e = elim (Bool-cases (j == p)) [
    | inl at ↦ let q : j ≡ p = ground arith in ground (arith, ap (λ x. get_or ht x missing) q ∙ e)
    | inr apart ↦
        ground (arith, count_from-second k ht (i + 1) (j + 1) n p (ground arith) (omega arith) e)
  ]

  module _ (top : ℕ) (two_slots : 2 ≤ bucket_size) where
    pub count-present :
        (v : ℕ) (c : CuckooHashSet)
        → IsTable missing bucket_size top two_slots c.mask c.ht
        → v ≢ missing
        → 1 ≤ occurrences v c.ht
        → count missing bucket_size v c ≡ true
    unfolding count
    count-present v c table nv h =
        let (p, lt, e) = slot_of v missing c.ht h in
        let low = div-mul-le_self p bucket_size in
        let high : p < p / bucket_size * bucket_size + bucket_size = lt-div-mul-add (omega arith) in
        elim (table.placed p lt) [
          | inl empty ↦ absurd (nv (sym e ∙ empty))
          | inr (inl first) ↦
              let b : p / bucket_size ≡ hash_1 c.mask v = first ∙ ap (hash_1 c.mask) e in
              let at = ap (λ x. x * bucket_size) b in
              count_from-first v c.ht _ _ bucket_size p (omega (arith, at, low))
                (omega (arith, at, high)) e
          | inr (inr second) ↦
              let b : p / bucket_size ≡ hash_2 c.mask v = second ∙ ap (hash_2 c.mask) e in
              let at = ap (λ x. x * bucket_size) b in
              count_from-second v c.ht _ _ bucket_size p (omega (arith, at, low))
                (omega (arith, at, high)) e
        ]

    pub count-absent :
        (v : ℕ) (c : CuckooHashSet)
        → v ≢ missing
        → occurrences v c.ht ≡ 0
        → count missing bucket_size v c ≡ false
    unfolding count
    count-absent v c nv h =
        count_from-none missing bucket_size v c.ht _ _ bucket_size
          (λ p. absent_slot missing bucket_size v c.ht p nv h)

    count-same :
        (v : ℕ) (d c : CuckooHashSet)
        → IsTable missing bucket_size top two_slots d.mask d.ht
        → IsTable missing bucket_size top two_slots c.mask c.ht
        → v ≢ missing
        → occurrences v d.ht ≡ occurrences v c.ht
        → count missing bucket_size v d ≡ count missing bucket_size v c
    count-same v d c table table' nv e = elim (Bool-cases (occurrences v c.ht == 0)) [
      | inl nothing ↦ count-absent v d nv (ground arith) ∙ sym (count-absent v c nv (ground arith))
      | inr some_key ↦
          count-present v d table nv (ground arith)
          ∙ sym (count-present v c table' nv (ground arith))
    ]

    uncounted :
        (v : ℕ) (c : CuckooHashSet)
        → IsTable missing bucket_size top two_slots c.mask c.ht
        → v ≢ missing
        → count missing bucket_size v c ≡ false
        → occurrences v c.ht ≡ 0
    uncounted v c table nv missed = elim (Bool-cases (occurrences v c.ht == 0)) [
      | inl nothing ↦ ground arith
      | inr some_key ↦ let counted = count-present v c table nv (ground arith) in absurd (cc)
    ]

    -- On a table with at least two slots in each bucket, whose keys are distinct, at most `top` and
    -- in one of their two buckets: with fuel `depth + 1`, `insert` of a key up to `top` ends if
    -- `(mask + 1) * 2 ^ depth` is above `top`. The result is such a table again; `count` answers
    -- true for the key and for any other as before, and the size grows by one, wrapping at 64 bits,
    -- exactly if the key was not counted.
    pub insert_lem :
        (depth k j : ℕ) (c : CuckooHashSet)
        → IsTable missing bucket_size top two_slots c.mask c.ht
        → k ≢ missing
        → j ≢ missing
        → k ≤ top
        → top < (c.mask + 1) * 2 ^ depth
        → (d : CuckooHashSet) × (insert missing bucket_size (suc depth) k c ≡ some d)
          × IsTable missing bucket_size top two_slots d.mask d.ht
          × (count missing bucket_size j d
              ≡ (if j == k then true else count missing bucket_size j c))
          × (d.sz ≡ (if count missing bucket_size k c then c.sz else (c.sz + 1) % 2 ^ 64))
    unfolding insert
    insert_lem depth k j c table nk nj low enough =
        elim (Bool-cases (count missing bucket_size k c)) [
          | inl counted ↦
              (c, rw counted refl, table, known counted (Bool-cases (j == k)), rw counted refl)
          | inr missed ↦
              let new : IsNew missing bucket_size top two_slots k c.ht = record {
                key = nk;
                low = low;
                absent = uncounted k c table nk missed;
              } in
              let (r, ran, adds) =
                insert_in_lem missing bucket_size top two_slots depth c.mask k c.ht table new
                  enough in
              let d : CuckooHashSet = record { ht = r.1; mask = r.0; sz = (c.sz + 1) % 2 ^ 64 } in
              (
                d,
                rw (missed, ran, ◌>>=◌) refl,
                adds.table,
                added r adds missed (Bool-cases (j == k)),
                rw missed refl,
              )
        ]
      where
        known :
            count missing bucket_size k c ≡ true
            → ((j == k) ≡ true) ⊎ ((j == k) ≡ false)
            → count missing bucket_size j c
              ≡ (if j == k then true else count missing bucket_size j c)
        known counted (inl eq) =
            let e : j ≡ k = ground arith in
            rw eq (ap (λ x. count missing bucket_size x c) e ∙ counted)
        known counted (inr ne) = rw ne refl

        added :
            (r : ℕ × List ℕ)
            → Adds missing bucket_size top two_slots c.mask k c.ht r
            → count missing bucket_size k c ≡ false
            → ((j == k) ≡ true) ⊎ ((j == k) ≡ false)
            → count missing bucket_size j
                (record { ht = r.1; mask = r.0; sz = (c.sz + 1) % 2 ^ 64 })
              ≡ (if j == k then true else count missing bucket_size j c)
        added r adds missed (inl eq) =
            let one : same j k ≡ 1 = rw eq refl in
            rw eq (
              count-present j (record { ht = r.1; mask = r.0; sz = (c.sz + 1) % 2 ^ 64 }) adds.table
                nj (omega (arith, adds.keys j nj, one)))
        added r adds missed (inr ne) =
            let nothing : same j k ≡ 0 = rw ne refl in
            rw ne (
              count-same j (record { ht = r.1; mask = r.0; sz = (c.sz + 1) % 2 ^ 64 }) c adds.table
                table nj (omega (arith, adds.keys j nj, nothing)))
