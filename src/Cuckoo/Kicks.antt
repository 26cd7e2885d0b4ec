-- ===== src/Cuckoo/Kicks.antt =====
-- The insertion of a key in the table of util/cuckoo.hpp, up to a rehash: the table takes the key,
-- or takes it and gives another one back.
use parallel_enum.Base.{
  ℕ, zero, suc, ◌≤◌, ◌<◌, ◌≡◌, ◌≢◌, refl, ◌∙◌, subst, arith, Bool, true, false, List, Option, none,
  some, inl, inr, if◌then◌else◌, ◌==◌, length, set, Bool-cases,
}
use parallel_enum.Cuckoo.{
  Kicked, settled, left_over, hash_1, hash_2, capacity, find, kick, kicked, kick_loop, try_insert,
}
use parallel_enum.Cuckoo.Erase.{find-holds}
use parallel_enum.Cuckoo.Placed.{
  IsBucketOf, IsBucketOf-le, IsPlaced, bucket-end, Exchange, find-range, Exchange-set,
  Exchange-kick,
}

module _ (missing bucket_size : ℕ) where
  Exchange-refl :
      (mask k : ℕ) (ht : List ℕ)
      → IsPlaced missing bucket_size mask ht
      → Exchange missing bucket_size mask k k ht ht
  Exchange-refl mask k ht placed = record { same_length = refl; placed = placed; keys = λ v. refl }

  Exchange-trans :
      (mask k x y : ℕ) (a b c : List ℕ)
      → Exchange missing bucket_size mask k x a b
      → Exchange missing bucket_size mask x y b c
      → Exchange missing bucket_size mask k y a c
  Exchange-trans mask k x y a b c f g = record {
    same_length = g.same_length ∙ f.same_length;
    placed = g.placed;
    keys = λ v. omega (arith, f.keys v, g.keys v);
  }

  -- The key has a slot that was free, or another key is given back.
  abbrev pub Inserts : ℕ → ℕ → List ℕ → Kicked → Type 0
  Inserts mask k ht (settled ht') = Exchange missing bucket_size mask k missing ht ht'
  Inserts mask k ht (left_over ht' x) = (x ≢ missing) × Exchange missing bucket_size mask k x ht ht'

  Inserts-trans :
      (mask k x : ℕ) (a b : List ℕ) (r : Kicked)
      → Exchange missing bucket_size mask k x a b
      → Inserts mask x b r
      → Inserts mask k a r
  Inserts-trans mask k x a b (settled c) f g = Exchange-trans mask k x missing a b c f g
  Inserts-trans mask k x a b (left_over c y) f g = (g.0, Exchange-trans mask k x y a b c f g.1)

  kick_loop-Inserts :
      (mask rounds : ℕ) (use_hash_1 : Bool) (k : ℕ) (ht : List ℕ)
      → 0 < bucket_size
      → k ≢ missing
      → capacity missing bucket_size mask ≤ length ht
      → IsPlaced missing bucket_size mask ht
      → Inserts mask k ht (kick_loop missing bucket_size mask rounds use_hash_1 k ht)
  unfolding kick_loop
  kick_loop-Inserts mask zero use_hash_1 k ht pos nk size placed =
      (nk, Exchange-refl mask k ht placed)
  kick_loop-Inserts mask (suc rounds) use_hash_1 k ht pos nk size placed =
      let b = if use_hash_1 then hash_1 mask k else hash_2 mask k in
      let free = find missing bucket_size missing ht b in
      let x = kicked missing bucket_size ht b free in
      let ht' = kick missing bucket_size k ht b free in
      let first =
        Exchange-kick missing bucket_size mask k b ht free pos refl (bucket use_hash_1) size
          placed in
      elim (Bool-cases (x == missing)) [
        | inl empty ↦
            let e : x ≡ missing = ground arith in
            rw empty (subst (λ y. Exchange missing bucket_size mask k y ht ht') e first)
        | inr taken ↦ rw taken (
            Inserts-trans mask k x ht ht' _ first (
              kick_loop-Inserts mask rounds (b == hash_2 mask x) x ht' pos
                (λ e. ground (arith, taken, e)) (omega (arith, first.same_length, size))
                first.placed))
      ]
    where
      bucket : (flag : Bool) → IsBucketOf mask k (if flag then hash_1 mask k else hash_2 mask k)
      bucket true = inl refl
      bucket false = inr refl

  Exchange-find :
      (mask k b i : ℕ) (ht : List ℕ)
      → IsBucketOf mask k b
      → find missing bucket_size missing ht b ≡ some i
      → capacity missing bucket_size mask ≤ length ht
      → IsPlaced missing bucket_size mask ht
      → Exchange missing bucket_size mask k missing ht (set ht i k)
  Exchange-find mask k b i ht bucket found size placed =
      let (low, high) = find-range missing bucket_size missing b i ht found in
      let end = bucket-end missing bucket_size mask b ht (IsBucketOf-le mask k b bucket) size in
      subst (λ y. Exchange missing bucket_size mask k y ht (set ht i k))
        (find-holds missing bucket_size missing b i ht found)
        (Exchange-set missing bucket_size mask k b i ht bucket low high (omega arith) placed)

  pub try_insert-Inserts :
      (mask k : ℕ) (ht : List ℕ) (first second : Option ℕ)
      → 0 < bucket_size
      → k ≢ missing
      → find missing bucket_size missing ht (hash_1 mask k) ≡ first
      → find missing bucket_size missing ht (hash_2 mask k) ≡ second
      → capacity missing bucket_size mask ≤ length ht
      → IsPlaced missing bucket_size mask ht
      → Inserts mask k ht (try_insert missing bucket_size mask k ht first second)
  unfolding try_insert
  try_insert-Inserts mask k ht (some i) second pos nk e f size placed =
      Exchange-find mask k (hash_1 mask k) i ht (inl refl) e size placed
  try_insert-Inserts mask k ht none (some i) pos nk e f size placed =
      Exchange-find mask k (hash_2 mask k) i ht (inr refl) f size placed
  try_insert-Inserts mask k ht none none pos nk e f size placed =
      kick_loop-Inserts mask mask true k ht pos nk size placed
