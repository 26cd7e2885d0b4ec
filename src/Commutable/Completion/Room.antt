-- ===== src/Commutable/Completion/Room.antt =====
-- What the nodes that are not yet added may cost, and the ends of a solution, for the loops of
-- `Complete` in enumerable/commutable.hpp.
use parallel_enum.Base.{
  ℕ, zero, suc, ◌+◌, ◌*◌, ◌-◌, ◌≤◌, ◌<◌, ◌≡◌, ◌≢◌, refl, ap, ◌∙◌, arith, false, List, [], ◌∷◌, ◌++◌,
  inl, inr, if◌then◌else◌, ◌==◌, length, set, get_or, mem, mem-append, Bool-cases, length-append,
  get_or-set_ne, length-set,
}
use parallel_enum.Commutable.Completion.{front, swap_ends}

-- `cost` for each number below `size` that is not in the list.
pub room : ℕ → List ℕ → ℕ → ℕ
room cost added zero = 0
room cost added (suc n) = (if mem n added then 0 else cost) + room cost added n

pub room-nil : (cost size : ℕ) → room cost [] size ≡ size * cost
unfolding room
room-nil cost zero = omega arith
room-nil cost (suc n) = omega (arith, room-nil cost n)

pub room-append-le :
    (cost v : ℕ) (added : List ℕ) (size : ℕ)
    → room cost (added ++ v ∷ []) size ≤ room cost added size
unfolding room
room-append-le cost v added zero = omega arith
room-append-le cost v added (suc n) =
    ground (arith, room-append-le cost v added n, mem-append n added (v ∷ []))

pub room-append :
    (cost v : ℕ) (added : List ℕ) (size : ℕ)
    → v < size
    → mem v added ≡ false
    → room cost (added ++ v ∷ []) size + cost ≤ room cost added size
unfolding room
room-append cost v added zero h new = absurd (omega arith)
room-append cost v added (suc n) h new = elim (Bool-cases (v == n)) [
  | inl e ↦ ground (arith, room-append-le cost v added n, mem-append n added (v ∷ []))
  | inr ne ↦
      ground (arith, room-append cost v added n (ground arith) new, mem-append n added (v ∷ []))
]

pub front-append : (s : List ℕ) (v : ℕ) → 0 < length s → front (s ++ v ∷ []) ≡ front s
front-append [] v h = absurd (omega arith)
front-append (x ∷ s) v h = refl

last-append : (s : List ℕ) (v d : ℕ) → get_or (s ++ v ∷ []) (length s) d ≡ v
last-append [] v d = refl
last-append (x ∷ s) v d = last-append s v d

pub last_of : (s : List ℕ) (v : ℕ) → get_or (s ++ v ∷ []) (length (s ++ v ∷ []) - 1) 0 ≡ v
last_of s v =
    let n : length (s ++ v ∷ []) - 1 ≡ length s = omega (arith, length-append s (v ∷ [])) in
    ap (λ i. get_or (s ++ v ∷ []) i 0) n ∙ last-append s v 0

pub front-swap_ends : (s : List ℕ) (v : ℕ) → 0 < length s → front (swap_ends (s ++ v ∷ [])) ≡ v
unfolding swap_ends
front-swap_ends [] v h = absurd (omega arith)
front-swap_ends (x ∷ s) v h =
    let n : length (x ∷ s ++ v ∷ []) - 1 ≢ 0 = λ e. omega (arith, e, length-append s (v ∷ [])) in
    get_or-set_ne
      (set (x ∷ s ++ v ∷ []) 0 (get_or (x ∷ s ++ v ∷ []) (length (x ∷ s ++ v ∷ []) - 1) 0))
      (length (x ∷ s ++ v ∷ []) - 1) 0 x 0 n
    ∙ last_of (x ∷ s) v

pub length-swap_ends : (s : List ℕ) → length (swap_ends s) ≡ length s
unfolding swap_ends
length-swap_ends s = length-set (set s 0 _) (length s - 1) (front s) ∙ length-set s 0 _
