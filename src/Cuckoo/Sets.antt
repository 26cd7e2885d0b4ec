-- ===== src/Cuckoo/Sets.antt =====
-- The hash set of util/cuckoo.hpp as the sets of nodes that the graphs of util/graph.hpp use.
use parallel_enum.Base.{
  ℕ, zero, suc, ◌+◌, ◌*◌, ◌^◌, ◌≤◌, ◌<◌, ◌≡◌, ◌≢◌, sym, ap, ◌∙◌, subst, arith, true, false, List,
  some, ◌⊎◌, inl, inr, if◌then◌else◌, ◌==◌, replicate, Bool-cases,
}
use parallel_enum.Graph.Fast.{NodeSets}
use parallel_enum.Cuckoo.{CuckooHashSet, capacity, count, insert, empty}
use parallel_enum.Cuckoo.Room.{IsTable}
use parallel_enum.Cuckoo.Insert.{Table-empty, occurrences-replicate}
use parallel_enum.Cuckoo.Member.{count-absent, insert_lem}

lt-two_pow : (n : ℕ) → n < 2 ^ n
lt-two_pow zero = omega arith
lt-two_pow (suc n) = let h = lt-two_pow n in grind (arith, h)

-- As many doublings as the largest key counts are enough.
enough : (top mask : ℕ) → top < (mask + 1) * 2 ^ top
enough top mask = let h = lt-two_pow top in grind (arith, h)

module _ (missing bucket_size : ℕ) (two_slots : 2 ≤ bucket_size) where
  -- A hash set, with a bound on its keys.
  abbrev pub BoundedSet : Type 0
  BoundedSet =
      (c : CuckooHashSet) × (top : ℕ) × IsTable missing bucket_size top two_slots c.mask c.ht

  raise :
      (top v mask : ℕ) (ht : List ℕ)
      → IsTable missing bucket_size top two_slots mask ht
      → IsTable missing bucket_size (top + v) two_slots mask ht
  raise top v mask ht h = record {
    size = h.size;
    placed = h.placed;
    once = h.once;
    small = λ w nw above. h.small w nw (omega arith);
  }

  pub put : (v : ℕ) → BoundedSet → (v ≡ missing) ⊎ (v ≢ missing) → BoundedSet
  put v s (inl same) = s
  put v (c, top, table) (inr nv) =
      let (d, ran, table', _, _) =
        insert_lem missing bucket_size (top + v) two_slots (top + v) v v c
          (raise top v c.mask c.ht table) nv nv (omega arith) (enough (top + v) c.mask) in
      (d, top + v, table')

  pub decide : (v : ℕ) → (v ≡ missing) ⊎ (v ≢ missing)
  decide v = elim (Bool-cases (v == missing)) [
    | inl same ↦ inl (ground arith)
    | inr other ↦ inr (λ e. ground (arith, other, e))
  ]

  -- `put` is the insertion of the code.
  put-ran :
      (v : ℕ) (s : BoundedSet) (nv : v ≢ missing)
      → insert missing bucket_size (suc (s.1 + v)) v s.0 ≡ some (put v s (inr nv)).0
  unfolding put
  put-ran v (c, top, table) nv =
      (insert_lem missing bucket_size (top + v) two_slots (top + v) v v c
        (raise top v c.mask c.ht table) nv nv (omega arith) (enough (top + v) c.mask)).1

  count-put :
      (v w : ℕ) (s : BoundedSet) (side : (v ≡ missing) ⊎ (v ≢ missing))
      → v ≢ missing
      → w ≢ missing
      → count missing bucket_size w (put v s side).0
        ≡ (if w == v then true else count missing bucket_size w s.0)
  count-put v w s (inl same) nv nw = absurd (nv same)
  count-put v w (c, top, table) (inr nv') nv nw =
      let (d, ran, _, counted, _) =
        insert_lem missing bucket_size (top + v) two_slots (top + v) v w c
          (raise top v c.mask c.ht table) nv nw (omega arith) (enough (top + v) c.mask) in
      let same : d ≡ (put v (c, top, table) (inr nv')).0 =
        some_inj d (put v (c, top, table) (inr nv')).0 (sym ran ∙ put-ran v (c, top, table) nv') in
      ap (count missing bucket_size w) (sym same) ∙ counted
    where
      some_inj : (a b : CuckooHashSet) → some a ≡ some b → a ≡ b
      some_inj a b h = cc

  none_in : BoundedSet
  unfolding empty capacity
  none_in =
      let one : (0 + 1) * bucket_size ≡ bucket_size = omega arith in
      (
        empty missing bucket_size,
        0,
        subst (λ n. IsTable missing bucket_size 0 two_slots 0 (replicate n missing)) one
            (Table-empty missing bucket_size 0 two_slots 0),
      )

  count-none_in : (v : ℕ) → v ≢ missing → count missing bucket_size v none_in.0 ≡ false
  unfolding none_in empty
  count-none_in v nv =
      count-absent missing bucket_size 0 two_slots v (empty missing bucket_size) nv
        (occurrences-replicate missing bucket_size 0 two_slots v bucket_size nv)

  -- The operations and laws that the graphs use.
  pub node_sets : NodeSets
  node_sets = record {
    NodeSet = BoundedSet;
    empty = none_in;
    insert = λ v s. put v s (decide v);
    count = λ v s. count missing bucket_size v s.0;
    missing = missing;
    count-empty = count-none_in;
    count-insert = λ v w s nv nw. count-put v w s (decide v) nv nw;
  }
