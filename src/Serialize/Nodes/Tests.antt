-- ===== src/Serialize/Nodes/Tests.antt =====
-- Runs of the codecs, and their theorems at a node of each search.
use parallel_enum.Base.{◌≡◌, refl, [], ◌∷◌, ◌++◌, none, some}
use parallel_enum.Kplex.{Impl}
use parallel_enum.Serialize.{
  write_all, read_all, read_vector, resize, read_integral, write_pointer, read_pointer,
}
use parallel_enum.Serialize.Nodes.{KplexNode, write_impl, write_node, read_node, kplex_codec}
use parallel_enum.Serialize.Nodes.State.{FitsState}
use parallel_enum.Serialize.Nodes.Whole.{FitsNode, IsFresh, read_node-write_node, read_node-null}

abbrev state : Impl
state = record {
  kplex = 0 ∷ [];
  counters = 1 ∷ 0 ∷ 1 ∷ [];
  status = 1 ∷ 2 ∷ 2 ∷ [];
  non_neighs = 0 ∷ 0 ∷ [];
  cands = 1 ∷ 2 ∷ [];
  excluded = [];
}

abbrev node : KplexNode
node = record {
  subgraph = some (7 ∷ 8 ∷ 9 ∷ []);
  nadj = some ((0 ∷ 2 ∷ []) ∷ (1 ∷ []) ∷ (0 ∷ 2 ∷ []) ∷ []);
  impl0 = state;
  current_impl = 0;
}

abbrev null_node : KplexNode
null_node = record node { subgraph = none; nadj = none }

state-FitsState : FitsState state
state-FitsState = record {
  kplex = (refl, tt);
  counters = (refl, (refl, (refl, tt)));
  status = (refl, (refl, (refl, tt)));
  non_neighs = (refl, (refl, tt));
  cands = (refl, (refl, tt));
  excluded = tt;
}

node-FitsNode : FitsNode node
node-FitsNode = record {
  subgraph = (refl, (refl, (refl, tt)));
  nadj = ((refl, (refl, tt)), ((refl, tt), ((refl, (refl, tt)), tt)));
  impl0 = state-FitsState;
  current_impl = refl;
}

null_node-FitsNode : FitsNode null_node
null_node-FitsNode = record {
  subgraph = tt;
  nadj = tt;
  impl0 = state-FitsState;
  current_impl = refl;
}

default-IsFresh : IsFresh kplex_codec.default
default-IsFresh = record { subgraph = refl; nadj = refl }

read_node-write_node_example :
    (write_node node (5 ∷ []) ≡ (5 ∷ []) ++ write_node node [])
    × (read_node (write_node node [] ++ 6 ∷ []) kplex_codec.default ≡ some (node, 6 ∷ []))
read_node-write_node_example =
    read_node-write_node node kplex_codec.default (5 ∷ []) (6 ∷ []) node-FitsNode default-IsFresh

read_node-null_example :
    read_node (write_node null_node [] ++ []) node
    ≡ some (record null_node { subgraph = node.subgraph; nadj = node.nadj }, [])
read_node-null_example = read_node-null null_node node [] null_node-FitsNode refl refl

write_node-node :
    write_node node []
    ≡ 1 ∷ 3 ∷ 7 ∷ 8 ∷ 9 ∷ 1 ∷ 3 ∷ 2 ∷ 0 ∷ 2 ∷ 1 ∷ 1 ∷ 2 ∷ 0 ∷ 2 ∷ 1 ∷ 0 ∷ 3 ∷ 1 ∷ 0 ∷ 1 ∷ 3 ∷ 1 ∷ 2
      ∷ 2 ∷ 2 ∷ 0 ∷ 0 ∷ 2 ∷ 1 ∷ 2 ∷ 0 ∷ 0 ∷ []
unfolding write_node write_impl write_all write_pointer
write_node-node = refl

-- A word that is missing ends the reading.
read_node-short : read_node (1 ∷ 3 ∷ 7 ∷ []) kplex_codec.default ≡ none
unfolding read_node read_pointer read_vector read_all read_integral resize
read_node-short = refl
