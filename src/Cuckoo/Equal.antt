-- ===== src/Cuckoo/Equal.antt =====
-- `operator==` of the hash set (util/cuckoo.hpp).
use parallel_enum.Base.{
  ℕ, ◌≤◌, ◌≡◌, ◌≢◌, ◌↔◌, refl, sym, ap, ◌∙◌, Bool, true, false, List, [], ◌∷◌, length, occurrences,
  ◌==◌, ==_iff, arith, Bool-cases, inl, inr,
}
use parallel_enum.Cuckoo.{CuckooHashSet, capacity, count, all_counted, equals}
use parallel_enum.Cuckoo.Room.{IsTable}
use parallel_enum.Cuckoo.Visited.{bit, fewer, occurrences-missing, visited, visited-once}

module _ (missing bucket_size : ℕ) where
  all_counted-each :
      (xs : List ℕ) (c : CuckooHashSet)
      → (all_counted missing bucket_size xs c ≡ true)
        ↔ ((v : ℕ) → 1 ≤ occurrences v xs → count missing bucket_size v c ≡ true)
  unfolding all_counted
  all_counted-each [] c = (λ h v le. absurd (omega arith), λ h. refl)
  all_counted-each (x ∷ xs) c =
      let rest = all_counted-each xs c in
      elim (Bool-cases (count missing bucket_size x c)) [
        | inr out ↦ rw out ((λ h. absurd (cc)), (λ h. absurd (let y = h x (ground arith) in cc)))
        | inl yes_in ↦ rw yes_in (
          (λ h v le. elim (Bool-cases (v == x)) [
            | inl e ↦ let e' : v ≡ x = (==_iff v x).0 e in rw e' yes_in
            | inr ne ↦ rest.0 h v (ground arith)
          ]),
          (λ h. rest.1 (λ v le. h v (ground arith))),
        )
      ]

  equals-parts :
      (c oth : CuckooHashSet)
      → (equals missing bucket_size c oth ≡ true) ↔ (
          (oth.sz ≡ c.sz)
          × (all_counted missing bucket_size (visited missing bucket_size oth) c ≡ true))
  unfolding equals
  equals-parts c oth = elim (Bool-cases (oth.sz == c.sz)) [
    | inl e ↦ rw e ((λ h. ((==_iff oth.sz c.sz).0 e, h)), (λ h. h.1))
    | inr ne ↦ rw ne ((λ h. absurd (cc)), (λ h. absurd (let e = (==_iff oth.sz c.sz).1 h.0 in cc)))
  ]

  module _ (top top' : ℕ) (two_slots : 2 ≤ bucket_size) where
    -- If what `oth` counts is in `c`, so is what the iteration over it visits.
    visited-le :
        (c oth : CuckooHashSet)
        → IsTable missing bucket_size top two_slots c.mask c.ht
        → IsTable missing bucket_size top' two_slots oth.mask oth.ht
        → ((v : ℕ)
            → v ≢ missing
            → count missing bucket_size v oth ≡ true
            → count missing bucket_size v c ≡ true)
        → (v : ℕ)
        → occurrences v (visited missing bucket_size oth)
          ≤ occurrences v (visited missing bucket_size c)
    visited-le c oth table table' within v = elim (Bool-cases (v == missing)) [
      | inl e ↦
          let e' : v ≡ missing = (==_iff v missing).0 e in
          let none_in =
            occurrences-missing missing bucket_size (capacity missing bucket_size oth.mask)
              oth.ht in
          omega (arith, ap (λ z. occurrences z (visited missing bucket_size oth)) e', none_in)
      | inr ne ↦
          let nv : v ≢ missing = λ q. absurd (let e = (==_iff v missing).1 q in cc) in
          let at = visited-once missing bucket_size top two_slots v c table nv in
          let at' = visited-once missing bucket_size top' two_slots v oth table' nv in
          elim (Bool-cases (count missing bucket_size v oth)) [
            | inl counted ↦
                let both = within v nv counted in
                let one : occurrences v (visited missing bucket_size c) ≡ 1 = at ∙ rw both refl in
                let one' : occurrences v (visited missing bucket_size oth) ≡ 1 =
                  at' ∙ rw counted refl in
                omega arith
            | inr missed ↦
                let zero' : occurrences v (visited missing bucket_size oth) ≡ 0 =
                  at' ∙ rw missed refl in
                omega arith
          ]
    ]

  module _ (top top' : ℕ) (two_slots : 2 ≤ bucket_size) where
    -- For two tables with at least two slots in each bucket, whose keys are distinct, bounded and
    -- in one of their two buckets, and whose sizes are the numbers of elements that the iteration
    -- from `begin()` to `end()` visits: `operator==` answers true exactly if `count` answers alike
    -- in both for every key other than the empty mark, in whatever slots and buckets the keys
    -- stand.
    pub equals_iff :
        (c oth : CuckooHashSet)
        → IsTable missing bucket_size top two_slots c.mask c.ht
        → IsTable missing bucket_size top' two_slots oth.mask oth.ht
        → c.sz ≡ length (visited missing bucket_size c)
        → oth.sz ≡ length (visited missing bucket_size oth)
        → (equals missing bucket_size c oth ≡ true) ↔ (
            (v : ℕ) → v ≢ missing → count missing bucket_size v c ≡ count missing bucket_size v oth)
    equals_iff c oth table table' sized sized' = (
      (λ h v nv.
          let parts = (equals-parts c oth).0 h in
          let each = (all_counted-each (visited missing bucket_size oth) c).0 parts.1 in
          let within = visited-le top top' two_slots c oth table table' (λ w nw counted.
            let one : occurrences w (visited missing bucket_size oth) ≡ 1 =
              visited-once missing bucket_size top' two_slots w oth table' nw ∙ rw counted refl in
            each w (omega arith)) in
          let same =
            (fewer (visited missing bucket_size oth) (visited missing bucket_size c) within).1
              (omega (arith, parts.0)) v in
          by_occurrences v c oth table table' nv same),
      (λ h.
          let within =
            visited-le top top' two_slots c oth table table' (λ w nw counted. h w nw ∙ counted) in
          let within' =
            visited-le top' top two_slots oth c table' table
              (λ w nw counted. sym (h w nw) ∙ counted) in
          let le =
            (fewer (visited missing bucket_size oth) (visited missing bucket_size c) within).0 in
          let le' =
            (fewer (visited missing bucket_size c) (visited missing bucket_size oth) within').0 in
          (equals-parts c oth).1 (
            omega arith,
            (all_counted-each (visited missing bucket_size oth) c).1
                (λ v some_in. counted_in v c oth table table' h some_in),
          )),
    )
      where
        counted_in :
            (v : ℕ) (c oth : CuckooHashSet)
            → IsTable missing bucket_size top two_slots c.mask c.ht
            → IsTable missing bucket_size top' two_slots oth.mask oth.ht
            → ((w : ℕ)
                → w ≢ missing
                → count missing bucket_size w c ≡ count missing bucket_size w oth)
            → 1 ≤ occurrences v (visited missing bucket_size oth)
            → count missing bucket_size v c ≡ true
        counted_in v c oth table table' h some_in =
            let none_in =
              occurrences-missing missing bucket_size (capacity missing bucket_size oth.mask)
                oth.ht in
            let nv : v ≢ missing = λ e. absurd (
              omega (
                arith,
                ap (λ z. occurrences z (visited missing bucket_size oth)) e,
                none_in,
                some_in,
              )) in
            let at = visited-once missing bucket_size top' two_slots v oth table' nv in
            elim (Bool-cases (count missing bucket_size v oth)) [
              | inl counted ↦ h v nv ∙ counted
              | inr missed ↦
                  let zero' : occurrences v (visited missing bucket_size oth) ≡ 0 =
                    at ∙ rw missed refl in
                  absurd (omega (arith, zero', some_in))
            ]

        by_occurrences :
            (v : ℕ) (c oth : CuckooHashSet)
            → IsTable missing bucket_size top two_slots c.mask c.ht
            → IsTable missing bucket_size top' two_slots oth.mask oth.ht
            → v ≢ missing
            → occurrences v (visited missing bucket_size oth)
              ≡ occurrences v (visited missing bucket_size c)
            → count missing bucket_size v c ≡ count missing bucket_size v oth
        by_occurrences v c oth table table' nv same =
            let both =
              sym (visited-once missing bucket_size top two_slots v c table nv)
              ∙ sym same
              ∙ visited-once missing bucket_size top' two_slots v oth table' nv in
            bit_inj (count missing bucket_size v c) (count missing bucket_size v oth) both
          where
            bit_inj : (a b : Bool) → bit a ≡ bit b → a ≡ b
            bit_inj true true h = refl
            bit_inj false false h = refl
            bit_inj true false h = absurd (omega arith)
            bit_inj false true h = absurd (omega arith)
