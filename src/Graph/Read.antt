-- ===== src/Graph/Read.antt =====
-- The readers of graphs: `ReadLabels`, `ReadEdgeList`, `ReadOlympiadsFormat` and `ReadNde` of
-- util/graph.hpp, for an unsigned type of nodes with `w` bits. A file is the list of its bytes.
pub mod Links
pub mod Pairs
pub mod Lists
pub mod Formats
mod Tests
use parallel_enum.Base.{
  ℕ, zero, suc, ◌+◌, ◌-◌, ◌^◌, ◌%◌, Bool, true, false, ◌||◌, List, [], ◌∷◌, ◌++◌, Option, none,
  some, length, get_or, set, replicate, ltb, if◌then◌else◌, ◌>>=◌, ◌==◌, sort, unique, map,
}
use parallel_enum.FastIo.{read_int}
use parallel_enum.Graph.Fast.{NodeSets, FastGraph, make_fast}

-- `node_t(EOF)`
pub eof : ℕ → ℕ
eof w = 2 ^ w - 1

-- `FastRead`: the number that `ReadInt` gives, cut to `w` bits.
pub cut : ℕ → Option ℕ → ℕ
unfolding eof
cut w none = eof w
cut w (some a) = a % 2 ^ w

pub fast_read : ℕ → List ℕ → ℕ × List ℕ
fast_read w file = let r = read_int file in (cut w r.0, r.1)

-- `labels.at(i) = FastRead(in)` for `count` labels from the first on.
pub read_label_list : ℕ → ℕ → List ℕ → List ℕ × List ℕ
read_label_list w zero file = ([], file)
read_label_list w (suc count) file =
    let r = fast_read w file in let rest = read_label_list w count r.1 in (r.0 ∷ rest.0, rest.1)

-- Labels of type `void` are `none`, else they have the given number of bits.
pub read_labels : Option ℕ → ℕ → List ℕ → Option (List ℕ) × List ℕ
read_labels none num file = (none, file)
read_labels (some w) num file = let r = read_label_list w num file in (some r.0, r.1)

-- What reading comes to. An index that is no node is undefined behaviour of the source, of which
-- nothing more is said.
pub data Reading (A : Type 0) : Type 0 where
  done : A → Reading A
  out_of_bounds : Reading A
  out_of_fuel : Reading A

-- `edges[a].push_back(b)`
pub push_back : List (List ℕ) → ℕ → ℕ → Option (List (List ℕ))
push_back edges a b =
    if ltb a (length edges) then some (set edges a (get_or edges a [] ++ b ∷ [])) else none

pub add_edge : Bool → List (List ℕ) → ℕ → ℕ → Option (List (List ℕ))
add_edge directed edges a b = do
  one_way ← push_back edges a b
  if directed then some one_way else push_back one_way b a

-- `a--` if nodes are numbered from one, with wrap-around.
pub from_base : Bool → ℕ → ℕ → ℕ
from_base one_based w a = if one_based then (a + (2 ^ w - 1)) % 2 ^ w else a

-- The loop of `ReadEdgeList`.
pub read_pairs : Bool → Bool → ℕ → ℕ → List ℕ → List (List ℕ) → Reading (List (List ℕ))
read_pairs directed one_based w zero file edges = out_of_fuel
read_pairs directed one_based w (suc fuel) file edges =
    let a = fast_read w file in
    let b = fast_read w a.1 in
    let skip = read_pairs directed one_based w fuel b.1 edges in
    let added = add_edge directed edges (from_base one_based w a.0) (from_base one_based w b.0) in
    if a.0 == eof w || b.0 == eof w
    then done edges
    else if a.0 == b.0
    then skip
    else (elim added [ none ↦ out_of_bounds | some e ↦ read_pairs directed one_based w fuel b.1 e ])

pub tidy : Reading (List (List ℕ)) → Reading (List (List ℕ))
tidy (done edges) = done (map (λ adj. unique (sort adj)) edges)
tidy out_of_bounds = out_of_bounds
tidy out_of_fuel = out_of_fuel

-- Each round takes a byte or is the last.
pub read_edge_list : Bool → Bool → ℕ → ℕ → List ℕ → Reading (List (List ℕ))
read_edge_list directed one_based w nodes file =
    tidy (read_pairs directed one_based w (suc (length file)) file (replicate nodes []))

module _ (sets : NodeSets) where
  pub build : ℕ → Option (List ℕ) → Reading (List (List ℕ)) → Reading (FastGraph sets ℕ)
  build n labels (done edges) = done (make_fast sets ℕ n edges labels)
  build n labels out_of_bounds = out_of_bounds
  build n labels out_of_fuel = out_of_fuel

  pub read_olympiads_format : Option ℕ → ℕ → Bool → Bool → List ℕ → Reading (FastGraph sets ℕ)
  read_olympiads_format label_bits w directed one_based file =
      let n = fast_read w file in
      let m = fast_read w n.1 in
      let labels = read_labels label_bits n.0 m.1 in
      build n.0 labels.0 (read_edge_list directed one_based w n.0 labels.1)

-- Drops the two numbers of each node.
pub skip_degrees : ℕ → ℕ → List ℕ → List ℕ
skip_degrees w zero file = file
skip_degrees w (suc count) file = skip_degrees w count (fast_read w (fast_read w file).1).1

module _ (sets : NodeSets) where
  pub read_nde : ℕ → Bool → List ℕ → Reading (FastGraph sets ℕ)
  read_nde w directed file =
      let n = fast_read w file in
      let rest = skip_degrees w n.0 n.1 in
      build sets n.0 none (read_edge_list directed false w n.0 rest)
