-- ===== src/Graph/Read/Links.antt =====
-- What `ReadEdgeList` makes of the numbers in a file (util/graph.hpp).
use native.Mathlib.Nat.{mod-eq_of_lt, add-mod_right}
use parallel_enum.Base.{
  ℕ, ◌+◌, ◌-◌, ◌^◌, ◌%◌, ◌≤◌, ◌<◌, ◌≡◌, ◌≢◌, refl, sym, ap, subst, ◌∙◌, Bool, true, false, not,
  ◌||◌, ◌&&◌, List, [], ◌∷◌, ◌++◌, none, some, length, get_or, set, ltb, leb, if◌then◌else◌, ◌==◌,
  ==_iff, arith, mem, Bool-cases, inl, inr, lt→ltb, length-set, get_or-set_self, get_or-set_ne,
  mem-append,
}
use parallel_enum.FastIo.{read_int}
use parallel_enum.FastIo.Progress.{length-read_int}
use parallel_enum.Graph.Read.{eof, cut, fast_read, push_back, add_edge, from_base}

-- These numbers stand in the file, and no others.
abbrev pub Holds : List ℕ → List ℕ → Type 0
Holds [] file = (read_int file).0 ≡ none
Holds (x ∷ xs) file = (rest : List ℕ) × (read_int file ≡ (some x, rest)) × Holds xs rest

abbrev pub flat : List (ℕ × ℕ) → List ℕ
flat [] = []
flat (e ∷ es) = e.0 ∷ e.1 ∷ flat es

abbrev pub node : Bool → ℕ → ℕ
node one_based x = if one_based then x - 1 else x

-- Nodes stand as numbers from 0, or from 1.
abbrev pub is_node : Bool → ℕ → ℕ → Bool
is_node one_based n x = if one_based then leb 1 x && leb x n else ltb x n

-- The edges read have one from `a` to `b`.
abbrev pub linked : Bool → Bool → List (ℕ × ℕ) → ℕ → ℕ → Bool
linked directed one_based [] a b = false
linked directed one_based (e ∷ es) a b =
    let x = node one_based e.0 in
    let y = node one_based e.1 in
    let there = not (e.0 == e.1) && a == x && b == y in
    let back = not (e.0 == e.1) && not directed && a == y && b == x in
    there || back || linked directed one_based es a b

abbrev pub are_nodes : Bool → ℕ → List (ℕ × ℕ) → Bool
are_nodes one_based n [] = true
are_nodes one_based n (e ∷ es) =
    is_node one_based n e.0 && is_node one_based n e.1 && are_nodes one_based n es

pub length-Holds : (xs file : List ℕ) → Holds xs file → length xs ≤ length file
length-Holds [] file h = omega arith
length-Holds (x ∷ xs) file h =
    let rest = length-Holds xs h.0 h.2 in
    elim (length-read_int file) [
      | inl ended ↦ let e = h.1 in absurd (cc)
      | inr lt ↦
          let lt' : length h.0 < length file = subst (λ r. length r.1 < length file) h.1 lt in
          omega arith
    ]

pub fast_read-Holds :
    (w x : ℕ) (xs file : List ℕ) (h : Holds (x ∷ xs) file) → x < eof w → fast_read w file ≡ (x, h.0)
unfolding fast_read cut eof
fast_read-Holds w x xs file h lt =
    let e : x % 2 ^ w ≡ x = mod-eq_of_lt (omega arith) in rw (h.1) (rw e refl)

pub from_base-node :
    (one_based : Bool) (w n x : ℕ)
    → n < eof w
    → is_node one_based n x ≡ true
    → from_base one_based w x ≡ node one_based x
unfolding from_base eof
from_base-node false w n x lt h = refl
from_base-node true w n x lt h =
    let e : x + (2 ^ w - 1) ≡ x - 1 + 2 ^ w = ground arith in
    rw e (add-mod_right (x - 1) (2 ^ w) ∙ mod-eq_of_lt (ground arith))

pub node-lt : (one_based : Bool) (n x : ℕ) → is_node one_based n x ≡ true → node one_based x < n
node-lt false n x h = ground arith
node-lt true n x h = ground arith

mem-set_push :
    (rows : List (List ℕ)) (x y a b : ℕ)
    → x < length rows
    → mem b (get_or (set rows x (get_or rows x [] ++ y ∷ [])) a [])
      ≡ (a == x && b == y || mem b (get_or rows a []))
mem-set_push rows x y a b lt = elim (Bool-cases (a == x)) [
  | inl e ↦
      let e' : x ≡ a = sym ((==_iff a x).0 e) in
      let row = get_or rows x [] in
      let pushed : mem b (get_or (set rows x (row ++ y ∷ [])) x []) ≡ (b == y || mem b row) =
        ap (λ xs. mem b xs) (get_or-set_self rows x (row ++ y ∷ []) [] lt)
        ∙ mem-append b row (y ∷ [])
        ∙ ground arith in
      rw e (
        subst
          (λ z.
            mem b (get_or (set rows x (row ++ y ∷ [])) z []) ≡ (b == y || mem b (get_or rows z [])))
          e' pushed)
  | inr ne ↦
      let ne' : x ≢ a = λ q. absurd (ground arith) in
      ap (mem b) (get_or-set_ne rows x a (get_or rows x [] ++ y ∷ []) [] ne') ∙ rw ne refl
]

or_swap : (p q r : Bool) → (q || (p || r)) ≡ (p || q || r)
or_swap false q r = refl
or_swap true false r = refl
or_swap true true r = refl

pub or_two : (p q r s : Bool) → (r || (p || q || s)) ≡ (p || q || r || s)
or_two false false r s = refl
or_two false true false s = refl
or_two false true true s = refl
or_two true q false s = refl
or_two true q true s = refl

pub fast_read-end : (w : ℕ) (file : List ℕ) → Holds [] file → ((fast_read w file).0 == eof w) ≡ true
unfolding fast_read cut
fast_read-end w file h = rw h ((==_iff (eof w) (eof w)).1 refl)

pub is_node-fits :
    (one_based : Bool) (w n x : ℕ) → n < eof w → is_node one_based n x ≡ true → x < eof w
is_node-fits false w n x lt h = ground arith
is_node-fits true w n x lt h = ground arith

pub add_edge-mem :
    (directed : Bool) (rows : List (List ℕ)) (x y : ℕ)
    → x < length rows
    → y < length rows
    → (r : List (List ℕ)) × (add_edge directed rows x y ≡ some r)
      × (length r ≡ length rows)
      × ((a b : ℕ)
          → mem b (get_or r a [])
            ≡ (a == x && b == y || not directed && a == y && b == x || mem b (get_or rows a [])))
unfolding add_edge push_back
add_edge-mem true rows x y lx ly = (
  set rows x (get_or rows x [] ++ y ∷ []),
  rw (lt→ltb x (length rows) lx) refl,
  length-set rows x _,
  λ a b. mem-set_push rows x y a b lx ∙ ground arith,
)
add_edge-mem false rows x y lx ly =
    let one_way = set rows x (get_or rows x [] ++ y ∷ []) in
    let sized : length one_way ≡ length rows = length-set rows x _ in
    let ly' : y < length one_way = omega (arith, sized) in
    (
      set one_way y (get_or one_way y [] ++ x ∷ []),
      rw (lt→ltb x (length rows) lx) (rw (lt→ltb y (length one_way) ly') refl),
      length-set one_way y _ ∙ sized,
      λ a b.
          let first = mem-set_push rows x y a b lx in
          let second = mem-set_push one_way y x a b ly' in
          second
          ∙ ap (λ z. a == y && b == x || z) first
          ∙ or_swap (a == x && b == y) (a == y && b == x) (mem b (get_or rows a [])),
    )
