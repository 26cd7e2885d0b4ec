-- ===== src/Serialize/Nodes/Whole.antt =====
-- The round trips of the nodes of both searches (enumerable/diam2kplex.hpp, enumerable/clique.hpp).
use parallel_enum.Base.{
  ℕ, ◌≡◌, refl, sym, ap, ◌∙◌, List, [], ◌++◌, Option, none, some, append-nil, Each,
}
use parallel_enum.Serialize.{integral, vector}
use parallel_enum.Serialize.RoundTrip.{
  after, read_pointer-null, IsCodec, FitsIn, Anything, Pointed, integral-IsCodec, vector-IsCodec,
  pointer-IsCodec, pair-IsCodec,
}
use parallel_enum.Serialize.Nodes.{
  node_list, subgraph_pointer, nadj_pointer, clique_node, KplexNode, write_impl, write_node,
  read_node, impl_codec, kplex_codec,
}
use parallel_enum.Serialize.Nodes.State.{FitsState, impl_codec-IsCodec, anything}

node_list-IsCodec : IsCodec node_list (Each (FitsIn 32)) (Each Anything)
node_list-IsCodec = vector-IsCodec (integral 32) (FitsIn 32) Anything (integral-IsCodec 32)

clique_node-IsCodec :
    IsCodec clique_node
      (λ n. Each (FitsIn 32) n.0 × FitsIn 32 n.1)
      (λ n. Each Anything n.0 × Anything n.1)
clique_node-IsCodec =
    pair-IsCodec node_list (integral 32) (Each (FitsIn 32)) (Each Anything) (FitsIn 32) Anything
      node_list-IsCodec (integral-IsCodec 32)

abbrev nadj_list-IsCodec :
    IsCodec (vector node_list) (Each (Each (FitsIn 32))) (Each (Each Anything))
nadj_list-IsCodec = vector-IsCodec node_list (Each (FitsIn 32)) (Each Anything) node_list-IsCodec

abbrev pub SubgraphFits : Option (List ℕ) → Type 0
SubgraphFits = Pointed (Each (FitsIn 32))

abbrev pub NadjFits : Option (List (List ℕ)) → Type 0
NadjFits = Pointed (Each (Each (FitsIn 32)))

subgraph-IsCodec : IsCodec subgraph_pointer SubgraphFits (λ old. old ≡ none)
subgraph-IsCodec = pointer-IsCodec node_list (Each (FitsIn 32)) (Each Anything) node_list-IsCodec

nadj-IsCodec : IsCodec nadj_pointer NadjFits (λ old. old ≡ none)
nadj-IsCodec =
    pointer-IsCodec (vector node_list) (Each (Each (FitsIn 32))) (Each (Each Anything))
      nadj_list-IsCodec

-- The nodes of the graph have 32 bits, and the state fits.
pub record FitsNode (node : KplexNode) : Type 0 where
  pub subgraph : SubgraphFits node.subgraph
  pub nadj : NadjFits node.nadj
  pub impl0 : FitsState node.impl0
  pub current_impl : FitsIn 64 node.current_impl

-- A node with null pointers, as the default one.
pub record IsFresh (node : KplexNode) : Type 0 where
  pub subgraph : node.subgraph ≡ none
  pub nadj : node.nadj ≡ none

words_of : KplexNode → List ℕ → List ℕ
words_of node rest =
    let rest₃ = (integral 64).serialize node.current_impl [] ++ rest in
    let rest₂ = write_impl node.impl0 [] ++ rest₃ in
    let rest₁ = nadj_pointer.serialize node.nadj [] ++ rest₂ in
    subgraph_pointer.serialize node.subgraph [] ++ rest₁

write_node-append :
    (node : KplexNode) (out rest : List ℕ) → write_node node out ++ rest ≡ out ++ words_of node rest
unfolding write_node words_of
write_node-append node out rest =
    let out₁ = subgraph_pointer.serialize node.subgraph out in
    let out₂ = nadj_pointer.serialize node.nadj out₁ in
    let out₃ = write_impl node.impl0 out₂ in
    let rest₃ = (integral 64).serialize node.current_impl [] ++ rest in
    let rest₂ = write_impl node.impl0 [] ++ rest₃ in
    let rest₁ = nadj_pointer.serialize node.nadj [] ++ rest₂ in
    after (integral 64) (integral-IsCodec 64) node.current_impl out₃ rest
    ∙ after impl_codec impl_codec-IsCodec node.impl0 out₂ rest₃
    ∙ after nadj_pointer nadj-IsCodec node.nadj out₁ rest₂
    ∙ after subgraph_pointer subgraph-IsCodec node.subgraph out rest₁

read_node-words_of :
    (node old : KplexNode) (rest : List ℕ)
    → FitsNode node
    → IsFresh old
    → read_node (words_of node rest) old ≡ some (node, rest)
unfolding read_node words_of
read_node-words_of node old rest fits fresh =
    rw (subgraph-IsCodec.round_trip node.subgraph old.subgraph _ fits.subgraph fresh.subgraph) (
      rw (nadj-IsCodec.round_trip node.nadj old.nadj _ fits.nadj fresh.nadj) (
        rw (impl_codec-IsCodec.round_trip node.impl0 old.impl0 _ fits.impl0 tt) (
          rw
            ((integral-IsCodec 64).round_trip node.current_impl old.current_impl rest
              fits.current_impl tt)
            refl)))

kplex_codec-IsCodec : IsCodec kplex_codec FitsNode IsFresh
kplex_codec-IsCodec = record {
  appends = λ node out.
      sym (append-nil (write_node node out))
      ∙ write_node-append node out []
      ∙ ap (λ xs. out ++ xs) (sym (write_node-append node [] []) ∙ append-nil (write_node node []));
  round_trip = λ node old rest fits fresh.
      ap (λ xs. read_node xs old) (write_node-append node [] rest)
      ∙ read_node-words_of node old rest fits fresh;
  default_fresh = record { subgraph = refl; nadj = refl };
}

-- A node of the search for k-plexes whose numbers fit their types, written after the words
-- `before`, leaves these alone. Read over a node whose pointers are null it comes back, and the
-- words after it are left.
pub read_node-write_node :
    (node old : KplexNode) (before rest : List ℕ)
    → FitsNode node
    → IsFresh old
    → (write_node node before ≡ before ++ write_node node [])
      × (read_node (write_node node [] ++ rest) old ≡ some (node, rest))
read_node-write_node node old before rest fits fresh = (
  kplex_codec-IsCodec.appends node before,
  kplex_codec-IsCodec.round_trip node old rest fits fresh,
)

-- If the pointers of a node whose numbers fit are null, the node that it is read over keeps its
-- own, whatever they are, and takes the state.
pub read_node-null :
    (node old : KplexNode) (rest : List ℕ)
    → FitsNode node
    → node.subgraph ≡ none
    → node.nadj ≡ none
    → read_node (write_node node [] ++ rest) old
      ≡ some (record node { subgraph = old.subgraph; nadj = old.nadj }, rest)
unfolding read_node words_of
read_node-null node old rest fits no_subgraph no_nadj =
    ap (λ xs. read_node xs old) (write_node-append node [] rest)
    ∙ rw
        (read_pointer-null node_list (Each (FitsIn 32)) (Each Anything) node_list-IsCodec
          node.subgraph old.subgraph _ no_subgraph)
        (rw
          (read_pointer-null (vector node_list) (Each (Each (FitsIn 32))) (Each (Each Anything))
            nadj_list-IsCodec node.nadj old.nadj _ no_nadj)
          (rw (impl_codec-IsCodec.round_trip node.impl0 old.impl0 _ fits.impl0 tt) (
            rw
              ((integral-IsCodec 64).round_trip node.current_impl old.current_impl rest
                fits.current_impl tt)
              refl)))

-- A node of the search for cliques whose numbers have 32 bits, written after the words `before`,
-- leaves these alone. Read over any node it comes back, and the words after it are left.
pub read_clique-write_clique :
    (node old : List ℕ × ℕ) (before rest : List ℕ)
    → Each (FitsIn 32) node.0
    → FitsIn 32 node.1
    → (clique_node.serialize node before ≡ before ++ clique_node.serialize node [])
      × (clique_node.deserialize (clique_node.serialize node [] ++ rest) old ≡ some (node, rest))
read_clique-write_clique node old before rest fits fits' = (
  clique_node-IsCodec.appends node before,
  clique_node-IsCodec.round_trip node old rest (fits, fits') (anything old.0, tt),
)
