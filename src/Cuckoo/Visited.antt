-- ===== src/Cuckoo/Visited.antt =====
-- The iteration over the hash set (util/cuckoo.hpp).
use parallel_enum.Base.{
  ℕ, zero, suc, ◌+◌, ◌≤◌, ◌≡◌, ◌≢◌, refl, ap, ◌∙◌, Bool, true, false, List, [], ◌∷◌, length,
  occurrences, leb, ◌==◌, ==_iff, arith, Bool-cases, inl, inr, if◌then◌else◌,
}
use parallel_enum.Cuckoo.{CuckooHashSet, capacity, count, elements}
use parallel_enum.Cuckoo.Room.{IsTable}
use parallel_enum.Cuckoo.Member.{count-present, count-absent}

abbrev pub bit : Bool → ℕ
bit true = 1
bit false = 0

-- A list without the first `x`.
abbrev drop_one : ℕ → List ℕ → List ℕ
drop_one x [] = []
drop_one x (y ∷ ys) = if x == y then ys else y ∷ drop_one x ys

length-drop_one :
    (x : ℕ) (ys : List ℕ) → 1 ≤ occurrences x ys → length (drop_one x ys) + 1 ≡ length ys
length-drop_one x [] h = absurd (omega arith)
length-drop_one x (y ∷ ys) h = ground (arith, length-drop_one x ys)

occurrences-drop_one :
    (x v : ℕ) (ys : List ℕ)
    → 1 ≤ occurrences x ys
    → occurrences v (drop_one x ys) + (if v == x then 1 else 0) ≡ occurrences v ys
occurrences-drop_one x v [] h = absurd (omega arith)
occurrences-drop_one x v (y ∷ ys) h = ground (arith, occurrences-drop_one x v ys)

-- A list that has each number at most as often as another is no longer, and if it is as long they
-- have each number as often.
pub fewer :
    (xs ys : List ℕ)
    → ((v : ℕ) → occurrences v xs ≤ occurrences v ys)
    → (length xs ≤ length ys)
      × (length ys ≤ length xs → (v : ℕ) → occurrences v xs ≡ occurrences v ys)
fewer [] [] h = (omega arith, λ le v. refl)
fewer [] (y ∷ ys) h = (omega arith, λ le. absurd (omega arith))
fewer (x ∷ xs) ys h =
    let here : 1 ≤ occurrences x ys = ground (arith, h x) in
    let shorter = length-drop_one x ys here in
    let (le, same) =
      fewer xs (drop_one x ys) (λ v. ground (arith, h v, occurrences-drop_one x v ys here)) in
    (
      omega (arith, le, shorter),
      λ ge v.
          let at = same (omega (arith, shorter)) v in
          ground (arith, at, occurrences-drop_one x v ys here),
    )

module _ (missing bucket_size : ℕ) where
  occurrences-elements :
      (v n : ℕ) (ht : List ℕ)
      → v ≢ missing
      → length ht ≤ n
      → occurrences v (elements missing bucket_size n ht) ≡ occurrences v ht
  unfolding elements
  occurrences-elements v zero [] nv le = refl
  occurrences-elements v zero (x ∷ ht) nv le = absurd (omega arith)
  occurrences-elements v (suc n) [] nv le = refl
  occurrences-elements v (suc n) (x ∷ ht) nv le =
      let rest = occurrences-elements v n ht nv (omega arith) in
      elim (Bool-cases (x == missing)) [
        | inl e ↦
            let e' : x ≡ missing = (==_iff x missing).0 e in
            let other : (v == x) ≡ false = unlike (λ q. nv (q ∙ e')) in rw (e, other) rest
        | inr ne ↦ rw ne (ap (λ k. if v == x then suc k else k) rest)
      ]
    where
      unlike : {a b : ℕ} → a ≢ b → (a == b) ≡ false
      unlike {a} {b} h = elim (Bool-cases (a == b)) [
        | inl e ↦ absurd (h ((==_iff a b).0 e))
        | inr ne ↦ ne
      ]

  pub occurrences-missing :
      (n : ℕ) (ht : List ℕ) → occurrences missing (elements missing bucket_size n ht) ≡ 0
  unfolding elements
  occurrences-missing zero ht = refl
  occurrences-missing (suc n) [] = refl
  occurrences-missing (suc n) (x ∷ ht) = ground (arith, occurrences-missing n ht)

  -- What the iteration from `begin()` to `end()` visits.
  abbrev pub visited : CuckooHashSet → List ℕ
  visited c = elements missing bucket_size (capacity missing bucket_size c.mask) c.ht

  module _ (top : ℕ) (two_slots : 2 ≤ bucket_size) where
    -- The iteration visits the keys that are counted, each once, and no other.
    pub visited-once :
        (v : ℕ) (c : CuckooHashSet)
        → IsTable missing bucket_size top two_slots c.mask c.ht
        → v ≢ missing
        → occurrences v (visited c) ≡ bit (count missing bucket_size v c)
    visited-once v c table nv =
        let same =
          occurrences-elements v (capacity missing bucket_size c.mask) c.ht nv
            (omega (arith, table.size)) in
        elim (Bool-cases (leb 1 (occurrences v c.ht))) [
          | inl found ↦
              let le : 1 ≤ occurrences v c.ht = ground arith in
              rw (count-present missing bucket_size top two_slots v c table nv le)
                (omega (arith, same, table.once v nv))
          | inr none_found ↦
              let none_in : occurrences v c.ht ≡ 0 = ground arith in
              rw (count-absent missing bucket_size top two_slots v c nv none_in) (same ∙ none_in)
        ]
