-- ===== src/Enumerator/Report.antt =====
-- What a sequence of calls of `ReportSolution` does (enumerator/enumerator.hpp).
use mathlib.Core.List.Permᴰ
use mathlib.Core.List.{Permᴰ}
use parallel_enum.Base.{
  suc, ◌+◌, ◌≡◌, refl, ap, ◌∙◌, List, [], ◌∷◌, ◌++◌, arith, length, append_assoc, append-nil,
  if◌then◌else◌, Bool-cases, inl, inr,
}
use parallel_enum.Enumerator.{Enumerable, Stats, report_solution}

pub length-perm {ℓ} : {A : Type ℓ} {xs ys : List A} → Permᴰ xs ys → length xs ≡ length ys
length-perm Permᴰ.nil = refl
length-perm (Permᴰ.cons e p) = ap suc (length-perm p)
length-perm (Permᴰ.swap e f) = refl
length-perm (Permᴰ.trans p q) = length-perm p ∙ length-perm q

module _ {Node Item : Type 0} (system : Enumerable Node Item) where
  unfoldable pub reports : Stats Item → List Node → Stats Item
  reports s [] = s
  reports s (node ∷ nodes) = reports (report_solution system s node) nodes

  -- The items of the nodes that are solutions.
  unfoldable pub found : List Node → List Item
  found [] = []
  found (node ∷ nodes) =
      if system.is_solution node then system.node_to_item node ∷ found nodes else found nodes

  pub reports-append :
      (s : Stats Item) (a b : List Node) → reports s (a ++ b) ≡ reports (reports s a) b
  unfolding reports
  reports-append s [] b = refl
  reports-append s (node ∷ a) b = reports-append (report_solution system s node) a b

  -- Every node is counted, every solution is counted, and its item handed to the callback.
  pub record Reported (s : Stats Item) (nodes : List Node) (t : Stats Item) : Type 0 where
    pub has_cb : t.has_cb ≡ s.has_cb
    pub tree_size : t.tree_size ≡ s.tree_size + length nodes
    pub solutions_found : t.solutions_found ≡ s.solutions_found + length (found nodes)
    pub items : t.items ≡ (if s.has_cb then s.items ++ found nodes else s.items)

  pub reports-Reported : (s : Stats Item) (nodes : List Node) → Reported s nodes (reports s nodes)
  unfolding reports found report_solution
  reports-Reported s [] = record {
    has_cb = refl;
    tree_size = omega arith;
    solutions_found = omega arith;
    items = ground (arith, append-nil s.items);
  }
  reports-Reported s (node ∷ nodes) =
      let r = reports-Reported (report_solution system s node) nodes in
      let regroup = append_assoc s.items (system.node_to_item node ∷ []) (found nodes) in
      record {
        has_cb = ground (arith, r);
        tree_size = ground (arith, r);
        solutions_found = ground (arith, r);
        items = ground (arith, r, regroup);
      }

  pub found-perm : {a b : List Node} → Permᴰ a b → Permᴰ (found a) (found b)
  unfolding found
  found-perm Permᴰ.nil = Permᴰ.nil
  found-perm (Permᴰ.cons {b = x} e p) = rw e (elim (Bool-cases (system.is_solution x)) [
    | inl h ↦ rw h (Permᴰ.cons refl (found-perm p))
    | inr h ↦ rw h (found-perm p)
  ])
  found-perm (Permᴰ.swap {a' = x} {b' = y} {l = l} e f) =
      rw (e, f)
        (elim (Bool-cases (system.is_solution x)) [
          | inl h ↦ elim (Bool-cases (system.is_solution y)) [
            | inl k ↦ rw (h, k) (Permᴰ.swap refl refl)
            | inr k ↦ rw (h, k) (Permᴰ.refl _)
          ]
          | inr h ↦ elim (Bool-cases (system.is_solution y)) [
            | inl k ↦ rw (h, k) (Permᴰ.refl _)
            | inr k ↦ rw (h, k) (Permᴰ.refl _)
          ]
        ])
  found-perm (Permᴰ.trans p q) = Permᴰ.trans (found-perm p) (found-perm q)
