-- ===== src/Cuckoo/Tests.antt =====
-- The theorems on the hash set of util/cuckoo.hpp at an example.
use parallel_enum.Base.{
  ℕ, inl, inr, zero, suc, ◌<◌, ◌/◌, get_or, ◌≡◌, ◌≢◌, ◌↔◌, ◌%◌, ◌+◌, ◌-◌, ◌^◌, refl, true, false,
  [], ◌∷◌, Option, some, arith, ◌>>=◌,
}
use parallel_enum.Cuckoo.{
  insert_in, settle, rehash, refill, grown, try_insert, kick_loop, kicked, kick, shift_from, find,
  find_from, hash_1, hash_2, capacity, count_from, all_counted, CuckooHashSet, count, erase, clear,
  insert, empty, elements, equals,
}
use parallel_enum.Cuckoo.Erase.{erase_lem, clear_lem}
use parallel_enum.Cuckoo.Placed.{Slot}
use parallel_enum.Cuckoo.Room.{IsTable}
use parallel_enum.Cuckoo.Member.{insert_lem}
use parallel_enum.Cuckoo.Equal.{equals_iff}

-- Two slots for each of four buckets.
abbrev three : CuckooHashSet
three = record { ht = 99 ∷ 99 ∷ 5 ∷ 1 ∷ 99 ∷ 99 ∷ 3 ∷ 99 ∷ []; mask = 3; sz = 3 }

filled : Option CuckooHashSet
filled = do
  a ← insert 99 2 9 5 (empty 99 2)
  b ← insert 99 2 9 1 a
  c ← insert 99 2 9 3 b
  d ← insert 99 2 9 9 c
  insert 99 2 9 13 d

filled_runs :
    filled ≡ some (record { ht = 99 ∷ 99 ∷ 9 ∷ 1 ∷ 13 ∷ 5 ∷ 3 ∷ 99 ∷ []; mask = 3; sz = 5 })
unfolding filled insert insert_in settle rehash refill grown try_insert kick_loop kicked kick
    shift_from find find_from hash_1 hash_2 capacity count count_from empty
filled_runs = refl

filled_elements : elements 99 2 8 three.ht ≡ 5 ∷ 1 ∷ 3 ∷ []
unfolding elements
filled_elements = refl

equals_itself : equals 99 2 three three ≡ true
unfolding equals all_counted elements capacity count count_from hash_1 hash_2
equals_itself = refl

erase_lem_example :
    (count 99 2 5 (erase 99 2 5 three) ≡ false)
    × ((erase 99 2 5 three).sz ≡ (3 + (2 ^ 64 - 1)) % 2 ^ 64)
unfolding count count_from hash_1 hash_2
erase_lem_example =
    erase_lem 99 2 5 5 three (λ e. omega (arith, e)) (λ e. omega (arith, e)) (omega arith)

clear_lem_example : (count 99 2 5 (clear 99 2 three) ≡ false) × ((clear 99 2 three).sz ≡ 3)
clear_lem_example = clear_lem 99 2 5 three (λ e. omega (arith, e))

three-IsPlaced : (p : ℕ) → p < 8 → Slot 99 2 3 (get_or three.ht p 99) (p / 2)
unfolding hash_1 hash_2
three-IsPlaced zero h = inl refl
three-IsPlaced (suc zero) h = inl refl
three-IsPlaced (suc (suc zero)) h = inr (inl refl)
three-IsPlaced (suc (suc (suc zero))) h = inr (inl refl)
three-IsPlaced (suc (suc (suc (suc zero)))) h = inl refl
three-IsPlaced (suc (suc (suc (suc (suc zero))))) h = inl refl
three-IsPlaced (suc (suc (suc (suc (suc (suc zero)))))) h = inr (inl refl)
three-IsPlaced (suc (suc (suc (suc (suc (suc (suc zero))))))) h = inl refl
three-IsPlaced (suc (suc (suc (suc (suc (suc (suc (suc p)))))))) h = absurd (omega arith)

three-IsTable : IsTable 99 2 13 (omega arith) 3 three.ht
unfolding capacity
three-IsTable = record {
  size = refl;
  placed = three-IsPlaced;
  once = λ v nv. ground arith;
  small = λ v nv above. ground arith;
}

insert_lem_example :
    (d : CuckooHashSet) × (insert 99 2 3 9 three ≡ some d)
    × IsTable 99 2 13 (omega arith) d.mask d.ht
    × (count 99 2 9 d ≡ true)
    × (d.sz ≡ 4)
unfolding count count_from hash_1 hash_2
insert_lem_example =
    insert_lem 99 2 13 (omega arith) 2 9 9 three three-IsTable (λ e. omega (arith, e))
      (λ e. omega (arith, e)) (omega arith) (omega arith)

-- The same keys in other slots.
abbrev moved : CuckooHashSet
moved = record { ht = 3 ∷ 99 ∷ 1 ∷ 5 ∷ 99 ∷ 99 ∷ 99 ∷ 99 ∷ []; mask = 3; sz = 3 }

moved-IsPlaced : (p : ℕ) → p < 8 → Slot 99 2 3 (get_or moved.ht p 99) (p / 2)
unfolding hash_1 hash_2
moved-IsPlaced zero h = inr (inr refl)
moved-IsPlaced (suc zero) h = inl refl
moved-IsPlaced (suc (suc zero)) h = inr (inl refl)
moved-IsPlaced (suc (suc (suc zero))) h = inr (inl refl)
moved-IsPlaced (suc (suc (suc (suc zero)))) h = inl refl
moved-IsPlaced (suc (suc (suc (suc (suc zero))))) h = inl refl
moved-IsPlaced (suc (suc (suc (suc (suc (suc zero)))))) h = inl refl
moved-IsPlaced (suc (suc (suc (suc (suc (suc (suc zero))))))) h = inl refl
moved-IsPlaced (suc (suc (suc (suc (suc (suc (suc (suc p)))))))) h = absurd (omega arith)

moved-IsTable : IsTable 99 2 5 (omega arith) 3 moved.ht
unfolding capacity
moved-IsTable = record {
  size = refl;
  placed = moved-IsPlaced;
  once = λ v nv. ground arith;
  small = λ v nv above. ground arith;
}

equals_iff_example :
    (equals 99 2 three moved ≡ true) ↔ ((v : ℕ) → v ≢ 99 → count 99 2 v three ≡ count 99 2 v moved)
unfolding elements capacity
equals_iff_example =
    equals_iff 99 2 13 5 (omega arith) three moved three-IsTable moved-IsTable refl refl
