-- ===== src/Commutable/Completion/Sets.antt =====
-- A solution as a set, for `Complete` of enumerable/commutable.hpp: `Resort` and the swap of the
-- ends of a vector leave its elements alone.
use parallel_enum.Base.{
  ℕ, ◌-◌, ◌≡◌, refl, ap, ◌∙◌, arith, List, [], ◌∷◌, ◌++◌, some, length, mem, mem-append,
  length-append, set,
}
use parallel_enum.Commutable.{System}
use parallel_enum.Commutable.Completion.{swap_ends}
use parallel_enum.Commutable.Completion.Room.{last_of}

-- `Resort` reorders the solution.
abbrev pub Reorders : {Aux : Type 0} → System Aux → Type 0
Reorders system =
    (s level : List ℕ) (seed : ℕ) (r : List ℕ × List ℕ) (v : ℕ)
    → system.resort s level seed ≡ some r
    → mem v r.0 ≡ mem v s

-- A property of the elements of a vector, in whatever order.
abbrev pub IsOfSet : (List ℕ → Type 0) → Type 0
IsOfSet P = (s t : List ℕ) → ((v : ℕ) → mem v s ≡ mem v t) → P s → P t

-- `IsGood` tells of a subset.
abbrev pub ReadsSet : {Aux : Type 0} → System Aux → Type 0
ReadsSet system =
    (s t : List ℕ) → ((v : ℕ) → mem v s ≡ mem v t) → system.is_good s ≡ system.is_good t

set-last : (s : List ℕ) (v w : ℕ) → set (s ++ v ∷ []) (length (s ++ v ∷ []) - 1) w ≡ s ++ w ∷ []
set-last s v w =
    let n : length (s ++ v ∷ []) - 1 ≡ length s = omega (arith, length-append s (v ∷ [])) in
    ap (λ i. set (s ++ v ∷ []) i w) n ∙ at_length s
  where
    at_length : (l : List ℕ) → set (l ++ v ∷ []) (length l) w ≡ l ++ w ∷ []
    at_length [] = refl
    at_length (x ∷ l) = ap (λ m. x ∷ m) (at_length l)

-- The swap of the two ends after a push.
swap_ends-append : (x v : ℕ) (s : List ℕ) → swap_ends ((x ∷ s) ++ v ∷ []) ≡ v ∷ s ++ x ∷ []
unfolding swap_ends
swap_ends-append x v s =
    ap (λ l. set (l ∷ s ++ v ∷ []) (length (x ∷ s ++ v ∷ []) - 1) x) (last_of (x ∷ s) v)
    ∙ set-last (v ∷ s) v x

pub mem-swap_ends : (s : List ℕ) (v w : ℕ) → mem w (s ++ v ∷ []) ≡ mem w (swap_ends (s ++ v ∷ []))
unfolding swap_ends
mem-swap_ends [] v w = refl
mem-swap_ends (x ∷ s) v w =
    ground
      (arith, ap (mem w) (swap_ends-append x v s), mem-append w s (v ∷ []), mem-append w s (x ∷ []))

pub mem-snoc :
    (s t : List ℕ) (v w : ℕ) → mem w s ≡ mem w t → mem w (s ++ v ∷ []) ≡ mem w (t ++ v ∷ [])
mem-snoc s t v w h = ground (arith, mem-append w s (v ∷ []), mem-append w t (v ∷ []))
