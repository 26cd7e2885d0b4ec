-- ===== src/Graph.antt =====
-- What the enumeration algorithms use of a graph (the template parameter `Graph` of
-- enumerable/clique.hpp and enumerable/diam2kplex.hpp, an interface of util/graph.hpp).
pub mod Path
pub mod Fast
pub mod Read
pub mod TwoHop
use parallel_enum.Base.{
  ℕ, ◌<◌, ◌≡◌, ◌≢◌, ◌↔◌, Bool, true, List, [], ◌∷◌, length, mem, IsAscending, ltb, if◌then◌else◌,
  arith, sym, refl, ap, ◌∙◌, ◌≤◌,
}

-- `size()`, `neighs(i)`, `fwd_neighs(i)` and `are_neighs(a, b)`.
pub record Graph : Type 0 where
  pub size : ℕ
  pub neighs : ℕ → List ℕ
  pub fwd_neighs : ℕ → List ℕ
  pub are_neighs : ℕ → ℕ → Bool

-- `degree(i)` is `edges_[i].size()`.
abbrev pub degree : Graph → ℕ → ℕ
degree g i = length (g.neighs i)

-- `fwd_degree(i)` is `fwd_neighs(i).size()`.
abbrev pub fwd_degree : Graph → ℕ → ℕ
fwd_degree g i = length (g.fwd_neighs i)

-- The nodes of a list that are larger than `a`.
abbrev pub above : ℕ → List ℕ → List ℕ
above a [] = []
above a (x ∷ xs) = if ltb a x then x ∷ above a xs else above a xs

-- An undirected graph with no self loop: the adjacency test and the lists of neighbours agree.
pub record IsGraph (g : Graph) : Type 0 where
  pub irreflexive : (a : ℕ) → g.are_neighs a a ≢ true
  pub symmetric : (a b : ℕ) → g.are_neighs a b ≡ g.are_neighs b a
  pub neighs_iff : (a b : ℕ) → (mem b (g.neighs a) ≡ true) ↔ (g.are_neighs a b ≡ true)
  pub fwd_above : (a : ℕ) → g.fwd_neighs a ≡ above a (g.neighs a)
  pub ascending : (a : ℕ) → IsAscending (g.neighs a)
  pub bounded : (a b : ℕ) → g.are_neighs a b ≡ true → b < g.size

mem-above : (a b : ℕ) (xs : List ℕ) → (mem b (above a xs) ≡ true) ↔ ((mem b xs ≡ true) × (a < b))
mem-above a b [] = ground arith
mem-above a b (x ∷ xs) = ground (arith, mem-above a b xs)

pub mem-fwd_neighs :
    (g : Graph)
    → IsGraph g
    → (a b : ℕ) → (mem b (g.fwd_neighs a) ≡ true) ↔ ((g.are_neighs a b ≡ true) × (a < b))
mem-fwd_neighs g v a b =
    rw (v.fwd_above a) (ground (arith, mem-above a b (g.neighs a), v.neighs_iff a b))

-- A node whose degree is its forward degree has no smaller neighbour.
length-above-le : (a : ℕ) (xs : List ℕ) → length (above a xs) ≤ length xs
length-above-le a [] = omega arith
length-above-le a (x ∷ xs) = ground (arith, length-above-le a xs)

lt_of_length-above :
    (a b : ℕ) (xs : List ℕ) → length (above a xs) ≡ length xs → mem b xs ≡ true → a < b
lt_of_length-above a b [] e h = absurd (cc)
lt_of_length-above a b (x ∷ xs) e h =
    ground (arith, lt_of_length-above a b xs, length-above-le a xs)

length-above_full :
    (a : ℕ) (xs : List ℕ) → ((b : ℕ) → mem b xs ≡ true → a < b) → length (above a xs) ≡ length xs
length-above_full a [] h = refl
length-above_full a (x ∷ xs) h =
    ground (arith, h x, length-above_full a xs (λ b m. h b (ground arith)))

pub degree-fwd_degree :
    (g : Graph)
    → IsGraph g
    → (i : ℕ) → (degree g i ≡ fwd_degree g i) ↔ ((b : ℕ) → g.are_neighs i b ≡ true → i < b)
degree-fwd_degree g v i = (
  λ e b h.
      lt_of_length-above i b (g.neighs i) (sym (e ∙ ap length (v.fwd_above i)))
        ((v.neighs_iff i b).1 h),
  λ h.
      rw (v.fwd_above i)
        (sym (length-above_full i (g.neighs i) (λ b m. h b ((v.neighs_iff i b).0 m)))),
)
