-- ===== src/Clique/Listing.antt =====
-- The whole of `ListChildren` and of `GetRoot` (enumerable/clique.hpp).
use parallel_enum.Base.{
  ℕ, ◌≡◌, ◌≢◌, ◌<◌, ◌∙◌, refl, sym, Bool, true, false, List, [], ◌∷◌, arith, mem, ◌==◌, ==_iff,
  Bool-cases, inl, inr, get_or, mem-append, subst,
}
use parallel_enum.Graph.{Graph, IsGraph, mem-fwd_neighs, degree-fwd_degree, degree, fwd_degree}
use parallel_enum.Clique.{
  CliqueNode, Scratch, front, set_all, mark_bad, find_candidates, children_cand, each_candidate,
  candidates, list_children, get_root, try_child, fill_child, complete_fwd, complete_smallest,
}
use parallel_enum.Clique.Complete.{IsClique, IsMaximalClique, complete_loop-mem}
use parallel_enum.Clique.Children.{HasSmaller, children_cand-keeps, complete_fwd-IsMaximalClique}
use parallel_enum.Clique.Frame.{
  IsClean, set_all-false, get_or-set-true, gather_rule, mark_bad_rule, find_candidates-frame,
}

no-mem : (n : ℕ) (xs : List ℕ) → xs ≡ [] → mem n xs ≢ true
no-mem n xs e h = ground arith

-- The bits that are set belong to `bad_`.
record IsMarking (s₀ s : Scratch) : Type 0 where
  marked : (v : ℕ) → get_or s.bad_bitset v false ≡ true → mem v s.bad ≡ true
  bits : s.candidates_bitset ≡ s₀.candidates_bitset
  none_yet : s.candidates ≡ s₀.candidates
  child : s.child ≡ s₀.child

mark_bad-IsMarking :
    (g : Graph) (clique ns : List ℕ) (s : Scratch)
    → IsClean s
    → IsMarking s (mark_bad g clique ns s)
mark_bad-IsMarking g clique ns s c =
    mark_bad_rule g (IsMarking s) clique ns s
      (λ n t q. record {
        marked = λ v h.
            ground
              (arith, q.marked v, get_or-set-true t.bad_bitset n v h, mem-append v t.bad (n ∷ []));
        bits = q.bits;
        none_yet = q.none_yet;
        child = q.child;
      })
      (record {
        marked = λ v h. ground (arith, c.no_bad v);
        bits = refl;
        none_yet = refl;
        child = refl;
      })

module _ (g : Graph) {W : Type 0} (cb : CliqueNode → W → Bool × W) where
  -- The callbacks leave all but `child_` alone, and that empty.
  each_candidate-frame :
      (clique cands : List ℕ) (s : Scratch) (w : W)
      → s.child ≡ []
      → ((each_candidate g cb clique cands s w).0 ≡ s)
  unfolding each_candidate children_cand
  each_candidate-frame clique [] s w e = refl
  each_candidate-frame clique (cand ∷ cands) s w e =
      let r = try_child g cb clique cand s.bad_bitset (fill_child g clique cand s.child) w in
      ground (arith, each_candidate-frame clique cands (record s { child = [] }) r.1)

  -- From clean scratch vectors (bitsets all false, the other vectors empty) `ListChildren` leaves
  -- them clean, whatever the callback does and answers.
  pub list_children-IsClean :
      (node : CliqueNode) (s : Scratch) (w : W)
      → IsClean s
      → IsClean (list_children g cb node s w).0
  unfolding list_children candidates
  list_children-IsClean node s w c =
      let marked = mark_bad g node.clique (g.fwd_neighs (front node.clique)) s in
      let m = mark_bad-IsMarking g node.clique (g.fwd_neighs (front node.clique)) s c in
      let full = find_candidates g node.clique node.parind marked in
      let (bits, child, bad_bits, bad) =
        find_candidates-frame g node.clique node.parind marked
          (λ v. rw m.bits (c.no_candidate v)) in
      rw (each_candidate-frame node.clique full.candidates full w (child ∙ m.child ∙ c.no_child))
        (record {
          no_candidate = bits;
          no_bad = λ v.
              rw (set_all-false full.bad_bitset full.bad v, bad, bad_bits)
                (ground (arith, m.marked v));
          no_candidates = refl;
          no_child = child ∙ m.child ∙ c.no_child;
          no_bads = refl;
        })

module _ (g : Graph) (v : IsGraph g) {W : Type 0} (cb : CliqueNode → W → Bool × W) (P : W → Type 0)
    (keeps : (n : CliqueNode) (w : W) → IsMaximalClique g n.clique → P w → P (cb n w).1) where
  each_candidate-keeps :
      (clique cands : List ℕ) (s : Scratch) (w : W)
      → IsClique g clique
      → s.child ≡ []
      → ((cand : ℕ) → mem cand cands ≡ true → HasSmaller g clique cand)
      → P w
      → P (each_candidate g cb clique cands s w).1
  unfolding each_candidate children_cand
  each_candidate-keeps clique [] s w k e small p = p
  each_candidate-keeps clique (cand ∷ cands) s w k e small p =
      let r = try_child g cb clique cand s.bad_bitset (fill_child g clique cand s.child) w in
      let p' =
        children_cand-keeps g v cb P keeps clique cand s w k e (small cand (ground arith)) p in
      elim (Bool-cases r.0) [
        | inl go ↦ rw go (
            each_candidate-keeps clique cands (record s { child = [] }) r.1 k refl
              (λ c m. small c (ground arith)) p')
        | inr stop ↦ rw stop p'
      ]

  -- On an undirected graph, from a node whose nodes form a clique and with clean scratch vectors,
  -- `ListChildren` hands its callback maximal cliques only: a property of the callback's state that
  -- the callback keeps on every maximal clique holds at the end.
  pub list_children-keeps :
      (node : CliqueNode) (s : Scratch) (w : W)
      → IsClean s
      → IsClique g node.clique
      → P w
      → P (list_children g cb node s w).1
  unfolding list_children candidates find_candidates
  list_children-keeps node s w c k p =
      let clique = node.clique in
      let marked = mark_bad g clique (g.fwd_neighs (front clique)) s in
      let m = mark_bad-IsMarking g clique (g.fwd_neighs (front clique)) s c in
      let start = record marked {
        candidates_bitset = set_all marked.candidates_bitset clique true;
      } in
      let found =
        gather_rule g
          (λ (t : Scratch).
            (t.child ≡ []) × ((n : ℕ) → mem n t.candidates ≡ true → HasSmaller g clique n))
          node.parind clique start
          (λ x n t here fwd q. (
            q.0,
            λ a h. elim (Bool-cases (a == n)) [
              | inl e ↦
                  let (near, lt) = (mem-fwd_neighs g v x n).0 fwd in
                  let e' : a ≡ n = ground arith in
                  subst (HasSmaller g clique) (sym e') (x, here, lt, near)
              | inr e ↦ q.1 a (ground (arith, mem-append a t.candidates (n ∷ [])))
            ],
          ))
          (
            m.child ∙ c.no_child,
            λ n h. absurd (no-mem n marked.candidates (m.none_yet ∙ c.no_candidates) h),
          ) in
      each_candidate-keeps clique _ _ w k found.0 found.1 p

==-eq : (a b : ℕ) → a ≡ b → (a == b) ≡ true
==-eq a b e = (==_iff a b).1 e

complete_fwd-mem : (g : Graph) (i : ℕ) → mem i (complete_fwd g (i ∷ [])) ≡ true
unfolding complete_fwd complete_smallest
complete_fwd-mem g i = complete_loop-mem g (g.fwd_neighs i) (i ∷ []) i (ground arith)

-- On an undirected graph `GetRoot(i)` calls back once, on a maximal clique that holds `i` and has
-- `i` as its parent index, if all neighbours of `i` are larger, and leaves the state alone if one
-- is smaller.
pub get_root_lem :
    (g : Graph) (v : IsGraph g) {W : Type 0} (cb : CliqueNode → W → Bool × W) (i : ℕ) (w : W)
    → (((b : ℕ) → g.are_neighs i b ≡ true → i < b)
        → (n : CliqueNode) × (get_root g cb i w ≡ (cb n w).1)
          × IsMaximalClique g n.clique
          × (mem i n.clique ≡ true)
          × (n.parind ≡ i))
      × ((b : ℕ) → g.are_neighs i b ≡ true → b < i → get_root g cb i w ≡ w)
unfolding get_root
get_root_lem g v cb i w = (
  λ none_below.
      let e = (degree-fwd_degree g v i).1 none_below in
      (
        record { clique = complete_fwd g (i ∷ []); parind = i },
        rw (==-eq _ _ e),
        complete_fwd-IsMaximalClique g v i []
            (record {
              adjacent = λ a b ma mb ne. absurd (ne (ground arith));
              distinct = λ a. ground arith;
            })
            (λ u lt all.
              let down = none_below u (v.symmetric i u ∙ all i (ground arith)) in omega arith),
        complete_fwd-mem g i,
        refl,
      ),
  λ b near lt. elim (Bool-cases (degree g i == fwd_degree g i)) [
    | inr h ↦ rw h
    | inl h ↦ let up = (degree-fwd_degree g v i).0 ((==_iff _ _).0 h) b near in absurd (omega arith)
  ],
)
