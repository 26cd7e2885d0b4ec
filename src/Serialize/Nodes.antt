-- ===== src/Serialize/Nodes.antt =====
-- `Serialize` and `Deserialize` of a node of the search for k-plexes (enumerable/diam2kplex.hpp),
-- where a node of the graph has 32 bits, and of a node of the search for cliques
-- (enumerable/clique.hpp), which is a pair.
pub mod State
pub mod Whole
mod Tests
use parallel_enum.Base.{ℕ, List, [], Option, none, some, ◌>>=◌}
use parallel_enum.Kplex.{Impl}
use parallel_enum.Serialize.{Codec, integral, vector, pointer, pair}

abbrev pub sizes : Codec (List ℕ)
sizes = vector (integral 64)

abbrev pub bytes : Codec (List ℕ)
bytes = vector (integral 8)

-- `std::vector<node_t>`, also behind a pointer, and `std::vector<std::vector<node_t>>`.
abbrev pub node_list : Codec (List ℕ)
node_list = vector (integral 32)

abbrev pub subgraph_pointer : Codec (Option (List ℕ))
subgraph_pointer = pointer node_list

abbrev pub nadj_pointer : Codec (Option (List (List ℕ)))
nadj_pointer = pointer (vector node_list)

abbrev pub clique_node : Codec (List ℕ × ℕ)
clique_node = pair node_list (integral 32)

pub write_impl : Impl → List ℕ → List ℕ
write_impl s out =
    let out₁ = sizes.serialize s.kplex out in
    let out₂ = bytes.serialize s.counters out₁ in
    let out₃ = bytes.serialize s.status out₂ in
    let out₄ = sizes.serialize s.non_neighs out₃ in
    let out₅ = sizes.serialize s.cands out₄ in sizes.serialize s.excluded out₅

pub read_impl : List ℕ → Impl → Option (Impl × List ℕ)
read_impl words s = do
  (kplex, words₁) ← sizes.deserialize words s.kplex
  (counters, words₂) ← bytes.deserialize words₁ s.counters
  (status, words₃) ← bytes.deserialize words₂ s.status
  (non_neighs, words₄) ← sizes.deserialize words₃ s.non_neighs
  (cands, words₅) ← sizes.deserialize words₄ s.cands
  (excluded, words₆) ← sizes.deserialize words₅ s.excluded
  some (
    record {
      kplex = kplex;
      counters = counters;
      status = status;
      non_neighs = non_neighs;
      cands = cands;
      excluded = excluded;
    },
    words₆,
  )

abbrev pub impl_codec : Codec Impl
impl_codec = record {
  default = record {
    kplex = [];
    counters = [];
    status = [];
    non_neighs = [];
    cands = [];
    excluded = [];
  };
  serialize = write_impl;
  deserialize = read_impl;
}

-- The fields of `Diam2KplexNode`.
pub record KplexNode : Type 0 where
  pub subgraph : Option (List ℕ)
  pub nadj : Option (List (List ℕ))
  pub impl0 : Impl
  pub current_impl : ℕ

pub write_node : KplexNode → List ℕ → List ℕ
write_node node out =
    let out₁ = subgraph_pointer.serialize node.subgraph out in
    let out₂ = nadj_pointer.serialize node.nadj out₁ in
    let out₃ = write_impl node.impl0 out₂ in (integral 64).serialize node.current_impl out₃

pub read_node : List ℕ → KplexNode → Option (KplexNode × List ℕ)
read_node words node = do
  (subgraph, words₁) ← subgraph_pointer.deserialize words node.subgraph
  (nadj, words₂) ← nadj_pointer.deserialize words₁ node.nadj
  (impl0, words₃) ← read_impl words₂ node.impl0
  (current_impl, words₄) ← (integral 64).deserialize words₃ node.current_impl
  some (
    record { subgraph = subgraph; nadj = nadj; impl0 = impl0; current_impl = current_impl },
    words₄,
  )

abbrev pub kplex_codec : Codec KplexNode
kplex_codec = record {
  default = record { subgraph = none; nadj = none; impl0 = impl_codec.default; current_impl = 0 };
  serialize = write_node;
  deserialize = read_node;
}
