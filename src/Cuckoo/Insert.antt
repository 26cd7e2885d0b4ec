-- ===== src/Cuckoo/Insert.antt =====
-- `insert` of util/cuckoo.hpp ends once the mask is above all keys, and adds just the key.
use parallel_enum.Base.{
  ℕ, zero, suc, ◌+◌, ◌*◌, ◌^◌, ◌≤◌, ◌<◌, ◌≡◌, ◌≢◌, refl, ap, ◌∙◌, arith, true, false, List, [], ◌∷◌,
  Option, some, ◌⊎◌, inl, inr, ◌==◌, ◌>>=◌, length, set, occurrences, Bool-cases, replicate,
  length-replicate, get_or-replicate, ltb, ltb→lt, ltb→ge,
}
use parallel_enum.Cuckoo.{
  Kicked, settled, left_over, hash_2, capacity, find, try_insert, grown, refill, rehash, settle,
  insert_in,
}
use parallel_enum.Cuckoo.Placed.{same, Exchange}
use parallel_enum.Cuckoo.Kicks.{Inserts, try_insert-Inserts}
use parallel_enum.Cuckoo.Room.{IsTable, IsNew, Adds, room, Adds-settled}

module _ (missing bucket_size top : ℕ) (two_slots : 2 ≤ bucket_size) where
  abbrev pub Table : ℕ → List ℕ → Type 0
  Table mask ht = IsTable missing bucket_size top two_slots mask ht

  abbrev New : ℕ → List ℕ → Type 0
  New k ht = IsNew missing bucket_size top two_slots k ht

  abbrev Adding : ℕ → ℕ → List ℕ → ℕ × List ℕ → Type 0
  Adding mask k ht r = Adds missing bucket_size top two_slots mask k ht r

  pub occurrences-replicate : (v n : ℕ) → v ≢ missing → occurrences v (replicate n missing) ≡ 0
  occurrences-replicate v zero nv = refl
  occurrences-replicate v (suc n) nv = ground (arith, occurrences-replicate v n nv)

  pub Table-empty : (mask : ℕ) → Table mask (replicate (capacity missing bucket_size mask) missing)
  Table-empty mask = record {
    size = length-replicate (capacity missing bucket_size mask) missing;
    placed = λ p h. inl (get_or-replicate (capacity missing bucket_size mask) p missing);
    once = λ v nv. omega (arith, occurrences-replicate v (capacity missing bucket_size mask) nv);
    small = λ v nv above. occurrences-replicate v (capacity missing bucket_size mask) nv;
  }

  -- The mask is above all keys after `depth` doublings.
  abbrev Reaches : ℕ → ℕ → Type 0
  Reaches depth mask = top < (mask + 1) * 2 ^ depth

  module _ (depth : ℕ) (put : ℕ → ℕ → List ℕ → Option (ℕ × List ℕ))
      (puts : (mask k : ℕ) (ht : List ℕ)
        → Table mask ht
        → New k ht
        → Reaches depth mask
        → (r : ℕ × List ℕ) × (put mask k ht ≡ some r) × Adding mask k ht r) where
    -- What the new table holds after so many of the old slots.
    record Refilled (mask : ℕ) (old newt : List ℕ) (r : ℕ × List ℕ) : Type 0 where
      larger : mask ≤ r.0
      table : Table r.0 r.1
      keys : (v : ℕ) → v ≢ missing → occurrences v r.1 ≡ occurrences v newt + occurrences v old

    refill_lem :
        (n : ℕ) (old : List ℕ) (mask : ℕ) (newt : List ℕ)
        → length old ≡ n
        → Table mask newt
        → Reaches depth mask
        → ((v : ℕ) → v ≢ missing → occurrences v newt + occurrences v old ≤ 1)
        → ((v : ℕ) → v ≢ missing → top < v → occurrences v old ≡ 0)
        → (r : ℕ × List ℕ) × (refill missing bucket_size put n old mask newt ≡ some r)
          × Refilled mask old newt r
    unfolding refill
    refill_lem zero [] mask newt e table reaches once small = (
      (mask, newt),
      refl,
      record { larger = omega arith; table = table; keys = λ v nv. omega arith },
    )
    refill_lem zero (x ∷ old) mask newt e table reaches once small = absurd (omega (arith, e))
    refill_lem (suc n) [] mask newt e table reaches once small = absurd (omega (arith, e))
    refill_lem (suc n) (x ∷ old) mask newt e table reaches once small =
        elim (Bool-cases (x == missing)) [
          | inl empty ↦
              let (r, ran, h) =
                refill_lem n old mask newt (omega (arith, e)) table reaches
                  (λ v nv. ground (arith, once v nv, empty))
                  (λ v nv above. ground (arith, small v nv above)) in
              (
                r,
                rw empty ran,
                record {
                  larger = h.larger;
                  table = h.table;
                  keys = λ v nv. ground (arith, h.keys v nv, empty);
                },
              )
          | inr taken ↦
              let nx : x ≢ missing = λ q. ground (arith, taken, q) in
              let new : New x newt = record {
                key = nx;
                low = low nx (Bool-cases (ltb top x));
                absent = ground (arith, once x nx);
              } in
              let (a, put_in, adds) = puts mask x newt table new reaches in
              let (r, ran, h) =
                refill_lem n old a.0 a.1 (omega (arith, e)) adds.table
                  (grind (arith, adds.larger, reaches))
                  (λ v nv. ground (arith, once v nv, adds.keys v nv))
                  (λ v nv above. ground (arith, small v nv above)) in
              (
                r,
                rw (taken, put_in, ◌>>=◌) ran,
                record {
                  larger = omega (arith, h.larger, adds.larger);
                  table = h.table;
                  keys = λ v nv. ground (arith, h.keys v nv, adds.keys v nv);
                },
              )
        ]
      where
        low : x ≢ missing → (ltb top x ≡ true) ⊎ (ltb top x ≡ false) → x ≤ top
        low nx (inl above) = absurd (ground (arith, small x nx (ltb→lt top x above)))
        low nx (inr below) = ltb→ge top x below

  -- Another key is given back, so that the rest of the insertion starts from a table again.
  left_over-Table :
      (mask k x : ℕ) (ht ht' : List ℕ)
      → Table mask ht
      → New k ht
      → x ≢ missing
      → Exchange missing bucket_size mask k x ht ht'
      → Table mask ht' × New x ht'
  left_over-Table mask k x ht ht' table new nx ex = (
    record {
      size = ex.same_length ∙ table.size;
      placed = ex.placed;
      once = λ v nv. omega (arith, ex.keys v, sum v nv (Bool-cases (v == k)));
      small = λ v nv above. ground (arith, ex.keys v, table.small v nv above, new.low);
    },
    record {
      key = nx;
      low = low (Bool-cases (ltb top x));
      absent = ground (arith, ex.keys x, sum x nx (Bool-cases (x == k)));
    },
  )
    where
      sum :
          (v : ℕ)
          → v ≢ missing
          → ((v == k) ≡ true) ⊎ ((v == k) ≡ false)
          → occurrences v ht + same v k ≤ 1
      sum v nv (inl eq) =
          let e : v ≡ k = ground arith in ground (arith, ap (λ y. occurrences y ht) e, new.absent)
      sum v nv (inr ne) = ground (arith, table.once v nv)

      low : (ltb top x ≡ true) ⊎ (ltb top x ≡ false) → x ≤ top
      low (inl above) =
          absurd (ground (arith, ex.keys x, table.small x nx (ltb→lt top x above), new.low))
      low (inr below) = ltb→ge top x below

  Reaches-grown :
      (depth mask : ℕ) → Reaches (suc depth) mask → Reaches depth (grown missing bucket_size mask)
  unfolding grown
  Reaches-grown depth mask h = elim (Bool-cases (mask == 0)) [
    | inl zero_mask ↦ let e : mask ≡ 0 = ground arith in rw zero_mask (grind (arith, h, e))
    | inr positive ↦ rw positive (grind (arith, h))
  ]

  mask-le-grown : (mask : ℕ) → mask ≤ grown missing bucket_size mask
  unfolding grown
  mask-le-grown mask = ground arith

  -- From the result of the displacements on, where the nested calls do as they should.
  settle_lem :
      (depth : ℕ) (put : ℕ → ℕ → List ℕ → Option (ℕ × List ℕ))
      → ((mask k : ℕ) (ht : List ℕ)
          → Table mask ht
          → New k ht
          → Reaches depth mask
          → (r : ℕ × List ℕ) × (put mask k ht ≡ some r) × Adding mask k ht r)
      → (mask k : ℕ) (ht : List ℕ) (kicked : Kicked) → Table mask ht
      → New k ht
      → Reaches (suc depth) mask
      → Inserts missing bucket_size mask k ht kicked
      → (r : ℕ × List ℕ) × (settle missing bucket_size put mask kicked ≡ some r)
        × Adding mask k ht r
  unfolding settle rehash
  settle_lem depth put puts mask k ht (settled ht') table new reaches ins = (
    (mask, ht'),
    refl,
    Adds-settled missing bucket_size top two_slots mask k ht ht' table new ins,
  )
  settle_lem depth put puts mask k ht (left_over ht' x) table new reaches (nx, ex) =
      let (old, fresh) = left_over-Table mask k x ht ht' table new nx ex in
      let bigger = grown missing bucket_size mask in
      let (a, refilled, h) =
        refill_lem depth put puts (capacity missing bucket_size mask) ht' bigger
          (replicate (capacity missing bucket_size bigger) missing) old.size (Table-empty bigger)
          (Reaches-grown depth mask reaches)
          (λ v nv. omega (
            arith,
            occurrences-replicate v (capacity missing bucket_size bigger) nv,
            old.once v nv,
          ))
          old.small in
      let keys : (v : ℕ) → v ≢ missing → occurrences v a.1 ≡ occurrences v ht' = λ v nv.
        omega
          (arith, h.keys v nv, occurrences-replicate v (capacity missing bucket_size bigger) nv) in
      let (r, ran, adds) =
        puts a.0 x a.1 h.table
          (record { key = fresh.key; low = fresh.low; absent = keys x nx ∙ fresh.absent })
          (grind (arith, h.larger, Reaches-grown depth mask reaches)) in
      (
        r,
        rw (refilled, ◌>>=◌) ran,
        record {
          larger = omega (arith, adds.larger, h.larger, mask-le-grown mask);
          table = adds.table;
          keys = λ v nv. omega (arith, adds.keys v nv, keys v nv, ex.keys v);
        },
      )

  -- An insertion in a table ends, and adds just the key.
  pub insert_in_lem :
      (depth mask k : ℕ) (ht : List ℕ)
      → Table mask ht
      → New k ht
      → Reaches depth mask
      → (r : ℕ × List ℕ) × (insert_in missing bucket_size (suc depth) mask k ht ≡ some r)
        × Adding mask k ht r
  unfolding insert_in try_insert settle
  insert_in_lem zero mask k ht table new reaches =
      let (i, found) =
        room missing bucket_size top two_slots mask k ht (grind (arith, reaches)) new.low new.key
          table new.absent in
      let ins =
        try_insert-Inserts missing bucket_size mask k ht (some i)
          (find missing bucket_size missing ht (hash_2 mask k)) (omega arith) new.key found refl
          (omega (arith, table.size)) table.placed in
      (
        (mask, set ht i k),
        rw found refl,
        Adds-settled missing bucket_size top two_slots mask k ht (set ht i k) table new ins,
      )
  insert_in_lem (suc depth) mask k ht table new reaches =
      settle_lem depth (insert_in missing bucket_size (suc depth)) (insert_in_lem depth) mask k ht _
        table new reaches
        (try_insert-Inserts missing bucket_size mask k ht _ _ (omega arith) new.key refl refl
          (omega (arith, table.size)) table.placed)
