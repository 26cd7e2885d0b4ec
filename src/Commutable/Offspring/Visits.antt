-- ===== src/Commutable/Offspring/Visits.antt =====
-- The loops of `Children` of enumerable/commutable.hpp, and the nodes it calls back with.
use parallel_enum.Base.{
  ℕ, zero, suc, ◌≡◌, refl, ap, subst, arith, Bool, true, false, List, [], ◌∷◌, Option, none, some,
  ◌⊎◌, inl, inr, if◌then◌else◌, ◌>>=◌, length, Bool-cases, Each, get_elem?,
}
use parallel_enum.Commutable.{System}
use parallel_enum.Commutable.Tracked.{given, Weighed}
use parallel_enum.Commutable.Offspring.{Node, Visit, resize, each, each_solution}

-- A step of a chain of results.
pub bind_some {ℓ κ} :
    {A : Type ℓ} {B : Type κ} (o : Option A) (f : A → Option B) (b : B)
    → (o >>= f) ≡ some b
    → (a : A) × (o ≡ some a) × (f a ≡ some b)
bind_some none f b e = absurd (cc)
bind_some (some a) f b e = (a, refl, e)

pub length-resize : (n : ℕ) (s : List ℕ) → length (resize n s) ≡ n
unfolding resize
length-resize zero s = refl
length-resize (suc n) [] = ap suc (length-resize n [])
length-resize (suc n) (x ∷ s) = ap suc (length-resize n s)

pub Each-at {κ} :
    (P : Node → Type κ) (nodes : List Node) (k : ℕ) (node : Node)
    → Each P nodes
    → get_elem? nodes k ≡ some node
    → P node
Each-at P [] k node h e = absurd (cc)
Each-at P (x ∷ nodes) zero node h e = let same : x ≡ node = cc in subst P same h.0
Each-at P (x ∷ nodes) (suc k) node h e = Each-at P nodes k node h.1 e

-- A conditional is one of its branches.
pub if_split {ℓ} :
    {A : Type ℓ} (b : Bool) (x y z : A) → (if b then x else y) ≡ z → (x ≡ z) ⊎ (y ≡ z)
if_split true x y z e = inl e
if_split false x y z e = inr e

-- The loops keep what their bodies keep.
module _ (P : Visit → Type 0) where
  pub each-keeps :
      (body : ℕ → Visit → Option (Bool × Visit))
      → ((x : ℕ) (visit : Visit) (r : Bool × Visit) → P visit → body x visit ≡ some r → P r.1)
      → (xs : List ℕ) (visit visit' : Visit) → P visit
      → each body xs visit ≡ some visit'
      → P visit'
  unfolding each
  each-keeps body keep [] visit visit' h e = subst P (ground arith) h
  each-keeps body keep (x ∷ xs) visit visit' h e =
      let (r, ran, rest) = bind_some (body x visit) _ visit' e in
      elim (Bool-cases r.0) [
        | inl more ↦ each-keeps body keep xs r.1 visit' (keep x visit r h ran) (rw more at rest)
        | inr stop ↦ subst P (some_inj (rw stop at rest)) (keep x visit r h ran)
      ]
    where
      some_inj : {a b : Visit} → some a ≡ some b → a ≡ b
      some_inj h = cc

  pub each_solution-keeps :
      (Q : List ℕ → Type 0) (body : List ℕ → Visit → Option (Bool × Visit))
      → ((sol : List ℕ) (visit : Visit) (r : Bool × Visit)
          → Q sol
          → P visit
          → body sol visit ≡ some r
          → P r.1)
      → (sols : List (List ℕ)) (visit visit' : Visit) → Each Q sols
      → P visit
      → each_solution body sols visit ≡ some visit'
      → P visit'
  unfolding each_solution
  each_solution-keeps Q body keep [] visit visit' q h e = subst P (ground arith) h
  each_solution-keeps Q body keep (sol ∷ sols) visit visit' q h e =
      let (r, ran, rest) = bind_some (body sol visit) _ visit' e in
      elim (Bool-cases r.0) [
        | inl more ↦
            each_solution-keeps Q body keep sols r.1 visit' q.1 (keep sol visit r q.0 h ran)
              (rw more at rest)
        | inr stop ↦ subst P (some_inj (rw stop at rest)) (keep sol visit r q.0 h ran)
      ]
    where
      some_inj : {a b : Visit} → some a ≡ some b → a ≡ b
      some_inj h = cc

-- A good solution that nothing can be added to.
abbrev pub IsSolution : {Aux : Type 0} → System Aux → Node → Type 0
IsSolution system node =
    (system.is_good node.elements ≡ true)
    × ((i v : ℕ) → given system none i ≡ some v → Weighed system none node.elements v)

abbrev pub AllSolutions : {Aux : Type 0} → System Aux → Visit → Type 0
AllSolutions system visit = Each (IsSolution system) visit.found
