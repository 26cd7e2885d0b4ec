-- ===== src/Clique.antt =====
-- The clique enumeration (enumerable/clique.hpp). The thread-local vectors are a record that every
-- operation takes and returns, and a callback is a function on a state `W` that returns whether
-- the caller goes on. `front()` of an empty vector is read as 0.
pub mod Complete
pub mod Children
pub mod Frame
pub mod Listing
mod Tests
use parallel_enum.Base.{
  ℕ, zero, suc, Bool, true, false, not, ◌&&◌, List, [], ◌∷◌, ◌++◌, get_or, set, ltb, leb, ◌==◌,
  if◌then◌else◌,
}
use parallel_enum.Graph.{Graph, degree, fwd_degree}

-- `std::pair<Clique, node_t>`: the clique and the index of its parent.
pub record CliqueNode : Type 0 where
  pub clique : List ℕ
  pub parind : ℕ

pub record Scratch : Type 0 where
  pub candidates_bitset : List Bool
  pub candidates : List ℕ
  pub child : List ℕ
  pub bad_bitset : List Bool
  pub bad : List ℕ

abbrev pub front : List ℕ → ℕ
front [] = 0
front (x ∷ xs) = x

-- `for (node : nodes) bits[node] = value`
pub set_all : List Bool → List ℕ → Bool → List Bool
set_all bits [] value = bits
set_all bits (node ∷ nodes) value = set_all (set bits node value) nodes value

-- `vector<bool>::resize`
pub resize : ℕ → List Bool → List Bool
resize zero bits = []
resize (suc n) [] = false ∷ resize n []
resize (suc n) (b ∷ bits) = b ∷ resize n bits

pub set_up : Graph → Scratch → Scratch
set_up g s = record s {
  candidates_bitset = resize g.size s.candidates_bitset;
  bad_bitset = resize g.size s.bad_bitset;
}

module _ (g : Graph) where
  -- The test loops of `CompleteSmallest` and of the child callback.
  pub adjacent_to_all : ℕ → List ℕ → Bool
  adjacent_to_all neigh [] = true
  adjacent_to_all neigh (node ∷ rest) =
      if not (g.are_neighs neigh node) then false else adjacent_to_all neigh rest

  pub complete_loop : List ℕ → List ℕ → List ℕ
  complete_loop [] clique = clique
  complete_loop (neigh ∷ neighs) clique =
      complete_loop neighs (if adjacent_to_all neigh clique then clique ++ neigh ∷ [] else clique)

  pub complete_smallest : List ℕ → ℕ → List ℕ
  complete_smallest clique small = complete_loop (g.fwd_neighs small) clique

  pub complete_fwd : List ℕ → List ℕ
  complete_fwd clique = complete_smallest clique (front clique)

  -- The inner loop of `ListChildren` over the clique: nodes above `neigh` end it.
  pub bad_ok : ℕ → List ℕ → Bool
  bad_ok neigh [] = true
  bad_ok neigh (node ∷ rest) =
      if ltb neigh node
      then true
      else if not (g.are_neighs neigh node)
      then false
      else bad_ok neigh rest

  -- The first loop of `ListChildren`. Its `max_bad` is never read and left out.
  pub mark_bad : List ℕ → List ℕ → Scratch → Scratch
  mark_bad clique [] s = s
  mark_bad clique (neigh ∷ neighs) s = mark_bad clique neighs (
      if bad_ok neigh clique
      then record s { bad_bitset = set s.bad_bitset neigh true; bad = s.bad ++ neigh ∷ [] }
      else s)

  pub gather_from : ℕ → List ℕ → Scratch → Scratch
  gather_from parind [] s = s
  gather_from parind (neigh ∷ neighs) s = gather_from parind neighs (
      if ltb parind neigh && not (get_or s.candidates_bitset neigh false)
      then record s {
        candidates_bitset = set s.candidates_bitset neigh true;
        candidates = s.candidates ++ neigh ∷ [];
      }
      else s)

  pub gather : ℕ → List ℕ → Scratch → Scratch
  gather parind [] s = s
  gather parind (node ∷ nodes) s = gather parind nodes (gather_from parind (g.fwd_neighs node) s)

  -- The state when `Candidates` begins to call back.
  pub find_candidates : List ℕ → ℕ → Scratch → Scratch
  unfolding set_all
  find_candidates clique parind s =
      let marked = record s { candidates_bitset = set_all s.candidates_bitset clique true } in
      let full = gather parind clique marked in
      record full { candidates_bitset = set_all full.candidates_bitset clique false }

  -- `ChildrenCand` up to its callback.
  pub fill_child : List ℕ → ℕ → List ℕ → List ℕ
  fill_child [] cand child = child
  fill_child (node ∷ nodes) cand child = fill_child nodes cand (
      if ltb cand node then child else if g.are_neighs cand node then child ++ node ∷ [] else child)

  -- The node of least degree, `idx` at first.
  pub min_degree : ℕ → List ℕ → ℕ
  min_degree idx [] = idx
  min_degree idx (node ∷ nodes) =
      min_degree (if ltb (degree g node) (degree g idx) then node else idx) nodes

  -- The loop of the child callback over `neighs(idx)`: whether it returns early.
  pub rejected : List ℕ → List ℕ → ℕ → List Bool → List ℕ → Bool
  rejected clique child cand bad_bitset [] = false
  rejected clique child cand bad_bitset (neigh ∷ neighs) =
      if adjacent_to_all neigh child
      then if ltb neigh (front clique)
        then true
        else if leb neigh cand && g.are_neighs neigh cand
        then true
        else if get_or bad_bitset neigh false
        then true
        else rejected clique child cand bad_bitset neighs
      else rejected clique child cand bad_bitset neighs

  module _ {W : Type 0} (cb : CliqueNode → W → Bool × W) where
    -- The child callback of `ListChildren`, on the contents of `child_`.
    pub try_child : List ℕ → ℕ → List Bool → List ℕ → W → Bool × W
    try_child clique cand bad_bitset child w =
        let idx = min_degree (front child) child in
        if rejected clique child cand bad_bitset (g.neighs idx)
        then (true, w)
        else cb (record { clique = complete_fwd (child ++ cand ∷ []); parind = cand }) w

    -- `ChildrenCand`: `child_` is cleared when the callback has returned.
    pub children_cand : List ℕ → ℕ → Scratch → W → Bool × Scratch × W
    children_cand clique cand s w =
        let (go_on, w') = try_child clique cand s.bad_bitset (fill_child clique cand s.child) w in
        (go_on, record s { child = [] }, w')

    -- The loop of `Candidates` over the candidates, which a `false` ends.
    pub each_candidate : List ℕ → List ℕ → Scratch → W → Scratch × W
    each_candidate clique [] s w = (s, w)
    each_candidate clique (cand ∷ cands) s w =
        let (go_on, s', w') = children_cand clique cand s w in
        let rest = each_candidate clique cands s' w' in if go_on then rest else (s', w')

    pub candidates : List ℕ → ℕ → Scratch → W → Scratch × W
    unfolding set_all
    candidates clique parind s w =
        let full = find_candidates clique parind s in
        let (s', w') = each_candidate clique full.candidates full w in
        (
          record s' {
            candidates_bitset = set_all s'.candidates_bitset s'.candidates false;
            candidates = [];
          },
          w',
        )

    pub list_children : CliqueNode → Scratch → W → Scratch × W
    unfolding set_all
    list_children node s w =
        let marked = mark_bad node.clique (g.fwd_neighs (front node.clique)) s in
        let (s', w') = candidates node.clique node.parind marked w in
        (record s' { bad_bitset = set_all s'.bad_bitset s'.bad false; bad = [] }, w')

    -- A root is a node with no smaller neighbour. The callback's result is not used.
    pub get_root : ℕ → W → W
    get_root i w =
        if degree g i == fwd_degree g i
        then (cb (record { clique = complete_fwd (i ∷ []); parind = i }) w).1
        else w
