-- ===== src/Cuckoo.antt =====
-- The hash set `cuckoo_hash_set` (util/cuckoo.hpp) for keys of a type with `missing` as empty mark.
-- The table is a list of slots. `mask + 1` is a power of two, so that `k & mask` is the remainder
-- of `k`, and `~k & mask` what is left of the mask; so is `bucket_size`, and `|` of a slot in a
-- bucket adds. `count` by vector instructions compares the same slots. Sizes fit an `int`, in which the buckets are
-- counted; `sz` has 64 bits. Allocation succeeds.
pub mod Erase
mod Placed
mod Kicks
pub mod Room
mod Insert
pub mod Member
pub mod Sets
mod Visited
mod Equal
mod Tests
use parallel_enum.Base.{
  ℕ, zero, suc, ◌+◌, ◌-◌, ◌*◌, ◌/◌, ◌%◌, ◌^◌, Bool, true, false, not, List, [], ◌∷◌, ◌++◌, Option,
  none, some, if◌then◌else◌, ltb, leb, ◌==◌, ◌>>=◌, ◌||◌, length, set, get_or, replicate,
}

pub record CuckooHashSet : Type 0 where
  pub ht : List ℕ
  pub mask : ℕ
  pub sz : ℕ

pub hash_1 : ℕ → ℕ → ℕ
hash_1 mask k = k % (mask + 1)

pub hash_2 : ℕ → ℕ → ℕ
hash_2 mask k = mask - k % (mask + 1)

-- What `insert` of a table leads to after its rounds of displacements: the key has a slot, or
-- another key is left over.
pub data Kicked : Type 0 where
  settled : List ℕ → Kicked
  left_over : List ℕ → ℕ → Kicked

module _ (missing bucket_size : ℕ) where
  pub capacity : ℕ → ℕ
  capacity mask = (mask + 1) * bucket_size

  -- The first of so many slots from `i` on that holds `v`.
  pub find_from : ℕ → List ℕ → ℕ → ℕ → Option ℕ
  find_from v ht i zero = none
  find_from v ht i (suc n) =
      let rest = find_from v ht (i + 1) n in if get_or ht i missing == v then some i else rest

  -- The search for `v` in a bucket.
  pub find : ℕ → List ℕ → ℕ → Option ℕ
  find v ht bucket = find_from v ht (bucket * bucket_size) bucket_size

  -- The loop of `count` over a pair of buckets.
  pub count_from : ℕ → List ℕ → ℕ → ℕ → ℕ → Bool
  count_from k ht i j zero = false
  count_from k ht i j (suc n) =
      let rest = count_from k ht (i + 1) (j + 1) n in
      if (get_or ht i missing == k) || (get_or ht j missing == k) then true else rest

  pub count : ℕ → CuckooHashSet → Bool
  count k c =
      count_from k c.ht (hash_1 c.mask k * bucket_size) (hash_2 c.mask k * bucket_size) bucket_size

  pub empty : CuckooHashSet
  empty = record { ht = replicate bucket_size missing; mask = 0; sz = 0 }

  -- The rest of `erase` with the slots that were found in the two buckets; `sz--` wraps.
  pub erase_at : Option ℕ → Option ℕ → CuckooHashSet → CuckooHashSet
  erase_at (some i) second c = record c {
    ht = set c.ht i missing;
    sz = (c.sz + (2 ^ 64 - 1)) % 2 ^ 64;
  }
  erase_at none (some i) c = record c {
    ht = set c.ht i missing;
    sz = (c.sz + (2 ^ 64 - 1)) % 2 ^ 64;
  }
  erase_at none none c = c

  pub erase : ℕ → CuckooHashSet → CuckooHashSet
  erase k c = erase_at (find k c.ht (hash_1 c.mask k)) (find k c.ht (hash_2 c.mask k)) c

  pub clear : CuckooHashSet → CuckooHashSet
  clear c = record c { ht = replicate (capacity c.mask) missing }

  -- `begin()` to `end()` over so many slots: those that are not empty.
  pub elements : ℕ → List ℕ → List ℕ
  elements zero ht = []
  elements (suc n) [] = []
  elements (suc n) (x ∷ ht) = let rest = elements n ht in if x == missing then rest else x ∷ rest

  -- `*this == oth`: as large, with all elements of the other.
  pub all_counted : List ℕ → CuckooHashSet → Bool
  all_counted [] c = true
  all_counted (x ∷ xs) c = let rest = all_counted xs c in if not (count x c) then false else rest

  pub equals : CuckooHashSet → CuckooHashSet → Bool
  equals c oth =
      if not (oth.sz == c.sz) then false else all_counted (elements (capacity oth.mask) oth.ht) c

  -- `while (mask <= sz / bucket_size) mask <<= 1`, for at most so many rounds.
  pub doubled : ℕ → ℕ → ℕ → ℕ
  doubled zero n mask = mask
  doubled (suc fuel) n mask =
      let rest = doubled fuel n (2 * mask) in if leb mask (n / bucket_size) then rest else mask

  -- `reserve(n)`, which fills the table before it lowers the mask by one. A mask that is positive
  -- is above the bound within as many rounds as the bound counts.
  pub reserve : ℕ → CuckooHashSet → CuckooHashSet
  reserve n c =
      if leb n (capacity c.mask)
      then c
      else let mask = doubled n n (c.mask + 1) in
        record { ht = replicate (capacity mask) missing; mask = mask - 1; sz = c.sz }

  -- The shift of a full bucket by one slot, over the slots from `i` on.
  pub shift_from : List ℕ → ℕ → ℕ → List ℕ
  shift_from ht i zero = ht
  shift_from ht i (suc n) = shift_from (set ht i (get_or ht (i + 1) missing)) (i + 1) n

  -- The table after a displacement by `k` in a bucket with a free slot or none.
  pub kick : ℕ → List ℕ → ℕ → Option ℕ → List ℕ
  kick k ht bucket (some i) = set ht i k
  kick k ht bucket none =
      set (shift_from ht (bucket * bucket_size) (bucket_size - 1))
        (bucket * bucket_size + bucket_size - 1) k

  -- The key that it takes out.
  pub kicked : List ℕ → ℕ → Option ℕ → ℕ
  kicked ht bucket (some i) = get_or ht i missing
  kicked ht bucket none = get_or ht (bucket * bucket_size) missing

  -- The rounds that are left of the displacements.
  pub kick_loop : ℕ → ℕ → Bool → ℕ → List ℕ → Kicked
  kick_loop mask zero use_hash_1 k ht = left_over ht k
  kick_loop mask (suc rounds) use_hash_1 k ht =
      let bucket = if use_hash_1 then hash_1 mask k else hash_2 mask k in
      let free = find missing ht bucket in
      let cuckooed = kicked ht bucket free in
      let ht' = kick k ht bucket free in
      let rest = kick_loop mask rounds (bucket == hash_2 mask cuckooed) cuckooed ht' in
      if cuckooed == missing then settled ht' else rest

  -- `insert` of a key in the table, without the rehash.
  pub try_insert : ℕ → ℕ → List ℕ → Option ℕ → Option ℕ → Kicked
  try_insert mask k ht (some i) second = settled (set ht i k)
  try_insert mask k ht none (some i) = settled (set ht i k)
  try_insert mask k ht none none = kick_loop mask mask true k ht

  pub grown : ℕ → ℕ
  grown mask = if mask == 0 then 1 else 2 * mask + 1

  -- The loop of `rehash` over so many old slots; `put` inserts in the new table, which may grow.
  pub refill :
      (ℕ → ℕ → List ℕ → Option (ℕ × List ℕ)) → ℕ → List ℕ → ℕ → List ℕ → Option (ℕ × List ℕ)
  refill put zero ht mask newt = some (mask, newt)
  refill put (suc n) [] mask newt = some (mask, newt)
  refill put (suc n) (x ∷ ht) mask newt =
      if x == missing
      then refill put n ht mask newt
      else put mask x newt >>= λ r. refill put n ht r.0 r.1

  pub rehash : (ℕ → ℕ → List ℕ → Option (ℕ × List ℕ)) → ℕ → List ℕ → Option (ℕ × List ℕ)
  rehash put mask ht =
      refill put (capacity mask) ht (grown mask) (replicate (capacity (grown mask)) missing)

  -- The end of `insert` in a table.
  pub settle : (ℕ → ℕ → List ℕ → Option (ℕ × List ℕ)) → ℕ → Kicked → Option (ℕ × List ℕ)
  settle put mask (settled ht) = some (mask, ht)
  settle put mask (left_over ht k) = rehash put mask ht >>= λ r. put r.0 k r.1

  -- `insert` in a table, with fuel for how deep the calls nest: the mask and the table.
  pub insert_in : ℕ → ℕ → ℕ → List ℕ → Option (ℕ × List ℕ)
  insert_in zero mask k ht = none
  insert_in (suc depth) mask k ht =
      settle (insert_in depth) mask
        (try_insert mask k ht (find missing ht (hash_1 mask k)) (find missing ht (hash_2 mask k)))

  pub insert : ℕ → ℕ → CuckooHashSet → Option CuckooHashSet
  insert depth k c =
      if count k c
      then some c
      else insert_in depth c.mask k c.ht >>= λ r.
          some (record { ht = r.1; mask = r.0; sz = (c.sz + 1) % 2 ^ 64 })
