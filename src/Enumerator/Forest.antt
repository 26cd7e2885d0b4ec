-- ===== src/Enumerator/Forest.antt =====
-- The forest that an enumerable system spans, its nodes listed before their subtrees.
use mathlib.Core.List.Permᴰ
use mathlib.Core.List.{Permᴰ}
use parallel_enum.Base.{
  ℕ, zero, suc, ◌+◌, ◌≡◌, ◌≤◌, refl, List, [], ◌∷◌, ◌++◌, arith, append_assoc, subst,
}
use parallel_enum.Enumerator.{Enumerable}

module _ {Node Item : Type 0} (system : Enumerable Node Item) where
  -- The roots `i`, …, `i + n - 1`.
  unfoldable pub roots : ℕ → ℕ → List Node
  roots zero i = []
  roots (suc n) i = system.get_root i ++ roots n (i + 1)

  -- The nodes and all below them, down to `depth` levels.
  unfoldable pub forest : ℕ → List Node → List Node
  forest depth [] = []
  forest zero (node ∷ nodes) = []
  forest (suc depth) (node ∷ nodes) =
      node ∷ (forest depth (system.list_children node) ++ forest (suc depth) nodes)

  -- The nodes have at most `depth` levels.
  abbrev pub IsShallow : ℕ → List Node → Type 0
  IsShallow depth [] = Unit
  IsShallow zero (node ∷ nodes) = ⊥
  IsShallow (suc depth) (node ∷ nodes) =
      IsShallow depth (system.list_children node) × IsShallow (suc depth) nodes

  -- The nodes strictly below.
  unfoldable pub below : ℕ → List Node → List Node
  below depth [] = []
  below zero (node ∷ nodes) = []
  below (suc depth) (node ∷ nodes) =
      forest depth (system.list_children node) ++ below (suc depth) nodes

  -- More depth changes neither.
  pub IsShallow-le :
      (depth more : ℕ) (nodes : List Node)
      → depth ≤ more
      → IsShallow depth nodes
      → IsShallow more nodes
  IsShallow-le depth more [] le h = tt
  IsShallow-le zero more (node ∷ nodes) le h = absurd h
  IsShallow-le (suc depth) zero (node ∷ nodes) le h = absurd (omega arith)
  IsShallow-le (suc depth) (suc more) (node ∷ nodes) le h = (
    IsShallow-le depth more (system.list_children node) (omega arith) h.0,
    IsShallow-le (suc depth) (suc more) nodes le h.1,
  )

  pub forest-le :
      (depth more : ℕ) (nodes : List Node)
      → depth ≤ more
      → IsShallow depth nodes
      → forest more nodes ≡ forest depth nodes
  unfolding forest
  forest-le depth more [] le h = refl
  forest-le zero more (node ∷ nodes) le h = absurd h
  forest-le (suc depth) zero (node ∷ nodes) le h = absurd (omega arith)
  forest-le (suc depth) (suc more) (node ∷ nodes) le h = rw (
    forest-le depth more (system.list_children node) (omega arith) h.0,
    forest-le (suc depth) (suc more) nodes le h.1,
  )

  pub IsShallow-append :
      (depth : ℕ) (a b : List Node)
      → IsShallow depth (a ++ b)
      → IsShallow depth a × IsShallow depth b
  IsShallow-append depth [] b h = (tt, h)
  IsShallow-append zero (node ∷ a) b h = absurd h
  IsShallow-append (suc depth) (node ∷ a) b h =
      let (ha, hb) = IsShallow-append (suc depth) a b h.1 in ((h.0, ha), hb)

  pub forest-append :
      (depth : ℕ) (a b : List Node)
      → IsShallow depth (a ++ b)
      → forest depth (a ++ b) ≡ forest depth a ++ forest depth b
  unfolding forest
  forest-append depth [] b h = refl
  forest-append zero (node ∷ a) b h = absurd h
  forest-append (suc depth) (node ∷ a) b h =
      rw (forest-append (suc depth) a b h.1) (rw append_assoc refl)

exchange : {A : Type 0} (xs ys zs : List A) → Permᴰ (xs ++ (ys ++ zs)) (ys ++ (xs ++ zs))
exchange xs ys zs =
    subst (λ l. Permᴰ (xs ++ (ys ++ zs)) l) (append_assoc ys xs zs)
      (subst (λ l. Permᴰ l ((ys ++ xs) ++ zs)) (append_assoc xs ys zs)
        (Permᴰ.append_right zs (Permᴰ.append_comm xs ys)))

module _ {Node Item : Type 0} (system : Enumerable Node Item) where
  pub forest-perm :
      (depth : ℕ) (nodes : List Node)
      → IsShallow system depth nodes
      → Permᴰ (forest system depth nodes) (nodes ++ below system (suc depth) nodes)
  unfolding forest below
  forest-perm depth [] h = Permᴰ.nil
  forest-perm zero (node ∷ nodes) h = absurd h
  forest-perm (suc depth) (node ∷ nodes) h =
      let kids = system.list_children node in
      let deep = below system (suc (suc depth)) nodes in
      rw (forest-le system depth (suc depth) kids (omega arith) h.0) (
        Permᴰ.cons refl (
          Permᴰ.trans
            (Permᴰ.append_left (forest system depth kids) (forest-perm (suc depth) nodes h.1))
            (exchange (forest system depth kids) nodes deep)))

  -- `stack` after the nodes were pushed on it
  unfoldable pub pushed : List Node → List Node → List Node
  pushed [] stack = stack
  pushed (node ∷ nodes) stack = pushed nodes (node ∷ stack)

  pub IsShallow-pushed :
      (depth : ℕ) (nodes stack : List Node)
      → IsShallow system depth nodes
      → IsShallow system depth stack
      → IsShallow system depth (pushed nodes stack)
  unfolding pushed
  IsShallow-pushed depth [] stack hn hs = hs
  IsShallow-pushed zero (node ∷ nodes) stack hn hs = absurd hn
  IsShallow-pushed (suc depth) (node ∷ nodes) stack hn hs =
      IsShallow-pushed (suc depth) nodes (node ∷ stack) hn.1 (hn.0, hs)

  pub below-pushed :
      (depth : ℕ) (nodes stack : List Node)
      → IsShallow system depth nodes
      → Permᴰ
          (below system depth (pushed nodes stack))
          (below system depth nodes ++ below system depth stack)
  unfolding pushed below
  below-pushed depth [] stack h = Permᴰ.refl _
  below-pushed zero (node ∷ nodes) stack h = absurd h
  below-pushed (suc depth) (node ∷ nodes) stack h =
      let kids = forest system depth (system.list_children node) in
      let rest = below system (suc depth) stack in
      Permᴰ.trans (below-pushed (suc depth) nodes (node ∷ stack) h.1)
        (rw append_assoc (exchange (below system (suc depth) nodes) kids rest))
