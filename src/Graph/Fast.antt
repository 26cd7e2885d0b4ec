-- ===== src/Graph/Fast.antt =====
-- The graphs of util/graph.hpp: `label_array_t`, `graph_t` and `fast_graph_t`. The hash sets of
-- `fast_graph_t` are the interface `NodeSets`. Node numbers are taken not to wrap.
pub mod Valid
pub mod Order
pub mod Labels
pub mod Permute
pub mod Renamed
pub mod Renumbered
pub mod Tests
use parallel_enum.Base.{
  tabulate, ℕ, zero, suc, ◌-◌, Bool, true, false, ◌&&◌, List, [], ◌∷◌, ◌++◌, Option, none, some,
  length, get_or, set, replicate, ltb, if◌then◌else◌, ◌>>=◌, get_elem?, sort, upper_bound, ◌≡◌, ◌≢◌,
  ◌==◌,
}
use parallel_enum.BinarySearch.{init}
use parallel_enum.Graph.{Graph}

-- What `fast_graph_t` uses of `cuckoo_hash_set<node_t>`. The number `missing` marks an empty slot.
pub record NodeSets : Type 1 where
  pub NodeSet : Type 0
  pub empty : NodeSet
  pub insert : ℕ → NodeSet → NodeSet
  pub count : ℕ → NodeSet → Bool
  pub missing : ℕ
  pub count-empty : (v : ℕ) → v ≢ missing → count v empty ≡ false
  pub count-insert :
      (v w : ℕ) (s : NodeSet)
      → v ≢ missing
      → w ≢ missing
      → count w (insert v s) ≡ (if w == v then true else count w s)

-- `label_array_t::Permute` from position `i` on; `at` throws out of range, here `none`.
module _ {L : Type 0} where
  pub permute_from : List L → ℕ → List ℕ → List L → Option (List L)
  permute_from labels i [] new_labels = some new_labels
  permute_from labels i (x ∷ new_order) new_labels = do
    label ← get_elem? labels x
    let rest = permute_from labels (suc i) new_order (set new_labels i label)
    if ltb i (length new_labels) then rest else none

  -- An array of `void` labels is `none`. `blank` is what a new label holds.
  pub permute_labels : L → List ℕ → Option (List L) → Option (Option (List L))
  permute_labels blank new_order none = some none
  permute_labels blank new_order (some labels) = do
    new_labels ← permute_from labels 0 new_order (replicate (length labels) blank)
    some (some new_labels)

-- `graph_t`
pub record BaseGraph (L : Type 0) : Type 0 where
  pub size : ℕ
  pub edges : List (List ℕ)
  pub labels : Option (List L)

abbrev pub drop : {A : Type 0} → ℕ → List A → List A
drop zero xs = xs
drop (suc n) [] = []
drop (suc n) (x ∷ xs) = drop n xs

-- `new_pos[new_order[i]] = i` from `i` on.
pub invert_from : ℕ → List ℕ → List ℕ → List ℕ
invert_from i [] new_pos = new_pos
invert_from i (x ∷ new_order) new_pos = invert_from (suc i) new_order (set new_pos x i)

-- `new_edges[p].push_back(new_pos[x])` for the neighbours `xs`.
pub push_neighs : List ℕ → ℕ → List ℕ → List (List ℕ) → List (List ℕ)
push_neighs new_pos p [] new_edges = new_edges
push_neighs new_pos p (x ∷ xs) new_edges =
    push_neighs new_pos p xs (set new_edges p (get_or new_edges p [] ++ get_or new_pos x 0 ∷ []))

-- The loop over the nodes `i` to `i + count`, each with its list sorted at the end.
pub permute_edges : List (List ℕ) → List ℕ → ℕ → ℕ → List (List ℕ) → List (List ℕ)
permute_edges edges new_pos i zero new_edges = new_edges
permute_edges edges new_pos i (suc count) new_edges =
    let p = get_or new_pos i 0 in
    let pushed = push_neighs new_pos p (get_or edges i []) new_edges in
    permute_edges edges new_pos (suc i) count (set pushed p (sort (get_or pushed p [])))

-- `std::iota`
pub iota : ℕ → List ℕ
iota = tabulate (λ i. i) 0

module _ {L : Type 0} where
  pub make_base : ℕ → List (List ℕ) → Option (List L) → BaseGraph L
  make_base n edg lbl = record {
    size = n;
    edges = tabulate (λ i. init (get_or edg i [])) 0 n;
    labels = lbl;
  }

  pub neighs : BaseGraph L → ℕ → List ℕ
  neighs g i = get_or g.edges i []

  pub base_fwd_neighs : BaseGraph L → ℕ → List ℕ
  base_fwd_neighs g n = drop (upper_bound n (neighs g n)) (neighs g n)

  -- The edges and labels that `Permute` builds a graph of, `wrong` where `new_order` has no node.
  pub permuted_edges : ℕ → List ℕ → BaseGraph L → List (List ℕ)
  permuted_edges wrong new_order g =
      let new_pos = invert_from 0 new_order (replicate g.size wrong) in
      permute_edges g.edges new_pos 0 g.size (replicate g.size [])

  pub base_permute : ℕ → L → List ℕ → BaseGraph L → Option (BaseGraph L)
  base_permute wrong blank new_order g = do
    labels ← permute_labels blank new_order g.labels
    some (make_base g.size (permuted_edges wrong new_order g) labels)

  pub base_clone : ℕ → L → BaseGraph L → Option (BaseGraph L)
  base_clone wrong blank g = base_permute wrong blank (iota g.size) g

module _ (sets : NodeSets) where
  open sets use {NodeSet, empty, insert}

  pub insert_all : List ℕ → NodeSet → NodeSet
  insert_all [] s = s
  insert_all (x ∷ xs) s = insert_all xs (insert x s)

module _ (sets : NodeSets) (L : Type 0) where
  open sets use {NodeSet, empty, count, missing}

  pub record FastGraph : Type 0 where
    pub base : BaseGraph L
    pub edge_sets : List NodeSet
    pub fwd_iter : List ℕ

  pub make_fast : ℕ → List (List ℕ) → Option (List L) → FastGraph
  make_fast n edg lbl =
      let base = make_base n edg lbl in
      record {
        base = base;
        edge_sets = tabulate (λ i. insert_all sets (get_or edg i []) empty) 0 n;
        fwd_iter = tabulate (λ i. upper_bound i (neighs base i)) 0 n;
      }

  pub fast_fwd_neighs : FastGraph → ℕ → List ℕ
  fast_fwd_neighs g n = drop (get_or g.fwd_iter n 0) (neighs g.base n)

  pub fast_are_neighs : FastGraph → ℕ → ℕ → Bool
  fast_are_neighs g a b = count b (get_or g.edge_sets a empty)

  pub permute : L → List ℕ → FastGraph → Option FastGraph
  permute blank new_order g = do
    labels ← permute_labels blank new_order g.base.labels
    some (make_fast g.base.size (permuted_edges missing new_order g.base) labels)

  pub clone : L → FastGraph → Option FastGraph
  clone blank g = permute blank (iota g.base.size) g

  -- The graph that a system reads: the operations on its nodes, and nothing outside of these.
  pub view : FastGraph → Graph
  view g = record {
    size = g.base.size;
    neighs = neighs g.base;
    fwd_neighs = fast_fwd_neighs g;
    are_neighs = λ a b. ltb a g.base.size && ltb b g.base.size && fast_are_neighs g a b;
  }
