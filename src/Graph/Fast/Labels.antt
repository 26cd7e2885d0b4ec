-- ===== src/Graph/Fast/Labels.antt =====
-- `label_array_t::Permute` (util/graph.hpp).
use parallel_enum.Base.{
  ℕ, zero, suc, ◌+◌, ◌≤◌, ◌<◌, ◌≡◌, refl, sym, ap, ◌∙◌, true, List, [], ◌∷◌, length, get_or, set,
  replicate, length-replicate, length-set, get_or-set_self, get_or-set_ne, ltb, arith, mem, lt→ltb,
  Option, none, some, get_elem?, get_elem?_total,
}
use parallel_enum.Graph.Fast.{permute_from, permute_labels}

module _ {L : Type 0} where
  -- There is one label for each of the `n` nodes, or there are no labels.
  abbrev pub IsLabelled : ℕ → Option (List L) → Type 0
  IsLabelled n none = Unit
  IsLabelled n (some labels) = length labels ≡ n

  -- The label at each new place is that of the node which the order has there.
  abbrev pub IsMoved : L → ℕ → List ℕ → Option (List L) → Option (List L) → Type 0
  IsMoved blank n new_order none none = Unit
  IsMoved blank n new_order none (some new_labels) = ⊥
  IsMoved blank n new_order (some labels) none = ⊥
  IsMoved blank n new_order (some labels) (some new_labels) =
      (length new_labels ≡ n)
      × ((i : ℕ) → i < n → get_or new_labels i blank ≡ get_or labels (get_or new_order i 0) blank)

  get_or-get_elem? : (xs : List L) (i : ℕ) (d x : L) → get_elem? xs i ≡ some x → get_or xs i d ≡ x
  get_or-get_elem? [] i d x h = absurd (cc)
  get_or-get_elem? (y ∷ ys) zero d x h = cc
  get_or-get_elem? (y ∷ ys) (suc i) d x h = get_or-get_elem? ys i d x h

  first_and_rest :
      (labels r : List L) (d : L) (i x : ℕ) (xs : List ℕ)
      → get_or r i d ≡ get_or labels x d
      → ((m : ℕ) → m < length xs → get_or r (suc i + m) d ≡ get_or labels (get_or xs m 0) d)
      → (m : ℕ) → m < length (x ∷ xs)
      → get_or r (i + m) d ≡ get_or labels (get_or (x ∷ xs) m 0) d
  first_and_rest labels r d i x xs here after zero lt =
      let e : i + 0 ≡ i = omega arith in ap (λ z. get_or r z d) e ∙ here
  first_and_rest labels r d i x xs here after (suc m) lt =
      let e : i + suc m ≡ suc i + m = omega arith in
      ap (λ z. get_or r z d) e ∙ after m (omega arith)

  permute_from-total :
      (labels : List L) (d : L) (i : ℕ) (xs : List ℕ) (new : List L)
      → i + length xs ≤ length new
      → ((x : ℕ) → mem x xs ≡ true → x < length labels)
      → (r : List L) × (permute_from labels i xs new ≡ some r)
        × (length r ≡ length new)
        × ((m : ℕ) → m < i → get_or r m d ≡ get_or new m d)
        × ((m : ℕ) → m < length xs → get_or r (i + m) d ≡ get_or labels (get_or xs m 0) d)
  unfolding permute_from
  permute_from-total labels d i [] new room inside =
      (new, refl, refl, λ m lt. refl, λ m lt. absurd (omega arith))
  permute_from-total labels d i (x ∷ xs) new room inside =
      let (label, found) = get_elem?_total labels x (inside x (ground arith)) in
      let here : ltb i (length new) ≡ true = lt→ltb i (length new) (omega arith) in
      let (r, runs, sized, before, after) =
        permute_from-total labels d (suc i) xs (set new i label)
          (omega (arith, length-set new i label)) (λ y m. inside y (ground arith)) in
      let at_i : get_or r i d ≡ label =
        before i (omega arith) ∙ get_or-set_self new i label d (omega arith) in
      (
        r,
        rw (found, here) runs,
        sized ∙ length-set new i label,
        λ m lt.
            before m (omega arith) ∙ get_or-set_ne new i m label d (λ e. absurd (omega (arith, e))),
        first_and_rest labels r d i x xs (at_i ∙ sym (get_or-get_elem? labels x d label found))
            after,
      )

  pub permute_labels-IsMoved :
      (blank : L) (n : ℕ) (new_order : List ℕ) (labels : Option (List L))
      → IsLabelled n labels
      → length new_order ≡ n
      → ((x : ℕ) → mem x new_order ≡ true → x < n)
      → (r : Option (List L)) × (permute_labels blank new_order labels ≡ some r)
        × IsMoved blank n new_order labels r
  unfolding permute_labels
  permute_labels-IsMoved blank n new_order none labelled sized inside = (none, refl, tt)
  permute_labels-IsMoved blank n new_order (some labels) labelled sized inside =
      let new = replicate (length labels) blank in
      let room : length new ≡ n = length-replicate (length labels) blank ∙ labelled in
      let (r, runs, length_r, before, after) =
        permute_from-total labels blank 0 new_order new (omega (arith, room, sized))
          (λ x m. omega (arith, inside x m, labelled)) in
      (
        some r,
        rw runs refl,
        (
          length_r ∙ room,
          λ i lt.
              let e : i ≡ 0 + i = omega arith in
              ap (λ z. get_or r z blank) e ∙ after i (omega (arith, sized)),
        ),
      )
