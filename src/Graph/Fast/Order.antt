-- ===== src/Graph/Fast/Order.antt =====
-- An order of the nodes and the positions that `Permute` computes from it (util/graph.hpp).
use parallel_enum.Base.{
  ℕ, zero, suc, ◌+◌, ◌≤◌, ◌<◌, ◌≡◌, refl, sym, ap, ◌∙◌, true, false, List, [], ◌∷◌, map, length,
  get_or, set, replicate, length-replicate, length-set, get_or-set_self, get_or-set_ne, ltb, ◌==◌,
  ==_iff, if◌then◌else◌, arith, mem, occurrences, occurrences-eq-zero, Bool-cases, inl, inr,
  mem-get_or, lt→ltb, ltb→lt, ltb→ge,
}
use parallel_enum.Graph.Fast.{invert_from}

-- Each of the `n` nodes stands once in the order, and nothing else does.
pub record IsOrder (n : ℕ) (new_order : List ℕ) : Type 0 where
  pub sized : length new_order ≡ n
  pub once : (a : ℕ) → occurrences a new_order ≡ (if ltb a n then 1 else 0)

pub length-invert_from :
    (i : ℕ) (xs new_pos : List ℕ) → length (invert_from i xs new_pos) ≡ length new_pos
unfolding invert_from
length-invert_from i [] new_pos = refl
length-invert_from i (x ∷ xs) new_pos =
    length-invert_from (suc i) xs (set new_pos x i) ∙ length-set new_pos x i

invert_from_ne :
    (i : ℕ) (xs new_pos : List ℕ) (a : ℕ)
    → mem a xs ≡ false
    → get_or (invert_from i xs new_pos) a 0 ≡ get_or new_pos a 0
unfolding invert_from
invert_from_ne i [] new_pos a h = refl
invert_from_ne i (x ∷ xs) new_pos a h =
    invert_from_ne (suc i) xs (set new_pos x i) a (ground arith)
    ∙ get_or-set_ne new_pos x a i 0 (λ e. absurd (ground arith))

-- The node at place `m` gets this place.
invert_from-get_or :
    (i : ℕ) (xs new_pos : List ℕ) (m : ℕ)
    → m < length xs
    → occurrences (get_or xs m 0) xs ≤ 1
    → get_or xs m 0 < length new_pos
    → get_or (invert_from i xs new_pos) (get_or xs m 0) 0 ≡ i + m
unfolding invert_from
invert_from-get_or i [] new_pos m lt once room = absurd (omega arith)
invert_from-get_or i (x ∷ xs) new_pos zero lt once room =
    let gone : mem x xs ≡ false = (occurrences-eq-zero x xs).1 (ground arith) in
    invert_from_ne (suc i) xs (set new_pos x i) x gone
    ∙ get_or-set_self new_pos x i 0 room
    ∙ omega arith
invert_from-get_or i (x ∷ xs) new_pos (suc m) lt once room =
    let fewer : occurrences (get_or xs m 0) xs ≤ 1 = ground arith in
    invert_from-get_or (suc i) xs (set new_pos x i) m (omega arith) fewer
      (omega (arith, length-set new_pos x i))
    ∙ omega arith

-- A number in a list stands at a place.
pub place_of_mem :
    (a : ℕ) (xs : List ℕ) → mem a xs ≡ true → (m : ℕ) × (m < length xs) × (get_or xs m 0 ≡ a)
place_of_mem a [] h = absurd (cc)
place_of_mem a (x ∷ xs) h = elim (Bool-cases (a == x)) [
  | inl e ↦ (0, omega arith, sym ((==_iff a x).0 e))
  | inr ne ↦ let (m, lt, at) = place_of_mem a xs (ground arith) in (suc m, omega arith, at)
]

module _ (n wrong : ℕ) (new_order : List ℕ) (good : IsOrder n new_order) where
  abbrev pub order : ℕ → ℕ
  order i = get_or new_order i 0

  abbrev pub positions : List ℕ
  positions = invert_from 0 new_order (replicate n wrong)

  abbrev pub position : ℕ → ℕ
  position a = get_or positions a 0

  pub order-lt : (i : ℕ) → i < n → order i < n
  order-lt i lt =
      let here = mem-get_or new_order i 0 (omega (arith, good.sized)) in
      let zero_if = occurrences-eq-zero (order i) new_order in
      let count = good.once (order i) in
      elim (Bool-cases (ltb (order i) n)) [
        | inl y ↦ ltb→lt (order i) n y
        | inr y ↦ absurd (ground arith)
      ]

  pub position-order : (i : ℕ) → i < n → position (order i) ≡ i
  position-order i lt =
      let room : order i < length (replicate {A = ℕ} n wrong) =
        rw (length-replicate {A = ℕ} n wrong) (order-lt i lt) in
      invert_from-get_or 0 new_order (replicate n wrong) i (omega (arith, good.sized))
        (ground (arith, good.once (order i))) room
      ∙ omega arith

  pub order-position : (a : ℕ) → a < n → (position a < n) × (order (position a) ≡ a)
  order-position a lt =
      let zero_if = occurrences-eq-zero a new_order in
      let once = good.once a in
      let inside = lt→ltb a n lt in
      let here : mem a new_order ≡ true = elim (Bool-cases (mem a new_order)) [
        | inl y ↦ y
        | inr y ↦ absurd (ground arith)
      ] in
      let (m, below, at) = place_of_mem a new_order here in
      let below' : m < n = omega (arith, good.sized) in
      let e : position a ≡ m = ap position (sym at) ∙ position-order m below' in rw e (below', at)

  -- A node is at position `b` if it is the one that the order has there.
  pub position-eq : (a b : ℕ) → a < n → b < n → (b == position a) ≡ (order b == a)
  position-eq a b la lb =
      let p = position-order b lb in
      let (below, back) = order-position a la in
      elim (Bool-cases (order b == a)) [
        | inl e ↦
            let e' : order b ≡ a = (==_iff (order b) a).0 e in
            let same : b ≡ position a = sym p ∙ ap position e' in rw e ((==_iff _ _).1 same)
        | inr ne ↦ elim (Bool-cases (b == position a)) [
          | inr no_match ↦ rw ne no_match
          | inl y ↦
              let e' : b ≡ position a = (==_iff b (position a)).0 y in
              let back' : order b ≡ a = ap order e' ∙ back in absurd (ground arith)
        ]
      ]

  pub occurrences-positions :
      (b : ℕ) (xs : List ℕ)
      → ((x : ℕ) → mem x xs ≡ true → x < n)
      → occurrences b (map position xs) ≡ (if ltb b n then occurrences (order b) xs else 0)
  occurrences-positions b [] below = ground arith
  occurrences-positions b (x ∷ xs) below =
      let rest = occurrences-positions b xs (λ y m. below y (ground arith)) in
      let lt = below x (ground arith) in
      elim (Bool-cases (ltb b n)) [
        | inl inside ↦
            let here = position-eq x b lt (ltb→lt b n inside) in
            let rest' : occurrences b (map position xs) ≡ occurrences (order b) xs =
              rest ∙ rw inside refl in
            rw inside (rw here (rw rest' refl))
        | inr out ↦
            let far = (order-position x lt).0 in
            let rest' : occurrences b (map position xs) ≡ 0 = rest ∙ rw out refl in
            let high = ltb→ge b n out in rw out (ground arith)
      ]
