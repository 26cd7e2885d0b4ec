-- ===== src/Lib.antt =====
-- parallel_enum lists the maximal cliques, or the maximal k-plexes of diameter 2, of a graph. A
-- system (enumerable/) spans a forest of search nodes: `GetRoot(i)` calls back on the i-th root,
-- `ListChildren(node)` on the children of a node. An enumerator (enumerator/) visits the forest
-- and reports each node. Systems read a graph through the operations of util/graph.hpp.
--
-- Base has the shared names: Boolean tests on numbers, and vectors as lists with reads and writes
-- at an index. A read out of bounds gives a default and a write out of bounds changes nothing,
-- except where a file says otherwise.
-- Graph is the interface of util/graph.hpp that the systems take as a template parameter: a
-- record of its operations, and `IsGraph`, what the systems rely on. Graph.Path is an example.
-- Graph.Fast models `graph_t` and `fast_graph_t`. What they use of `cuckoo_hash_set` is the
-- record `NodeSets`: operations, and the laws that membership keeps for numbers other than the
-- empty mark. Graph.Fast.Order is about the positions that `Permute` computes, Graph.Fast.Permute
-- and Graph.Fast.Renamed about its lists. Out of range, a label is `none`, as the vector throws.
-- Graph.Read models the readers. The loop of `ReadEdgeList` takes one round more than the file
-- has bytes as fuel, since each round takes a byte or is the last. A node out of range, undefined
-- in the code, is `out_of_bounds`.
-- Clique models enumerable/clique.hpp. The thread-local vectors are the record `Scratch`, which
-- each operation takes and returns. A callback is a function on a state of any type that also
-- answers whether the caller goes on. Clique.Complete is about `CompleteFwd`, Clique.Children and
-- Clique.Listing about the nodes called back on, Clique.Frame about the scratch vectors.
-- `max_bad`, which the code computes and never reads, is left out.
-- Commutable models enumerable/commutable.hpp: the virtual functions are the fields of `System`,
-- and a function that calls back on elements one by one is given by their list. The priority
-- queue is the list of its elements in the order of their pops. Commutable.Completion is
-- `Complete`, whose three loops share one number as fuel; `complete_ends` says how much is
-- enough. Commutable.Queue, Commutable.Next, Commutable.Iterators, Commutable.Tracked and
-- Commutable.Insertions are about the queue of candidates, Commutable.Completion.Rule is the rule
-- for what `Complete` keeps. Commutable.Offspring is `Children` and `GetRoot`, with the bits of
-- the thread and the nodes found as the state `Visit`; a null pointer is `none`, and so is an
-- exception of `Resort`. Commutable.Connected models enumerable/connected_hereditary.hpp. The
-- printing under DEBUG is left out, and levels do not wrap.
-- Enumerator models enumerator/enumerator.hpp and enumerator/sequential.hpp over
-- enumerable/enumerable.hpp. The callbacks of the enumerators always answer `true`, so a system
-- is given there by the lists of nodes that it calls back on. Both loops of `RunInternal` take
-- fuel: a number that is at least the count of nodes and the count of levels of the forest is
-- enough. Enumerator.Forest lists the forest, Enumerator.Report folds `ReportSolution` over a
-- list of nodes. Timing and printing are left out.
-- BinarySearch models `count` and `init` of util/binary_search.hpp, with a read out of bounds as
-- `none`. The size of the array is enough fuel.
-- Kplex models the search state of enumerable/diam2kplex.hpp, and Kplex.Branch its branching:
-- `Init` of a block and of its first state, `HasUniversalInExcl`, `GetCands` and `ListChildren`.
-- Kplex.Branch.Root is `GetRoot`, whose `do` loop takes one round more than there are nodes as
-- fuel: each round but the last drops a node. `counters` wrap at 256; `cand_counters`, which the
-- size of a block bounds, do not. Each loop is a recursion on the list that it walks, and
-- `std::sort` is a parameter.
--
-- Kplex.Branch.Root.Sizes and Kplex.Branch.Root.Largest model `RootSize` and `Stats` of
-- ui/stats.cpp, with a copy of their own of each loop, as in the code, which
-- Kplex.Branch.Root.Copies compares with those of `GetRoot`, and Graph.TwoHop models
-- `TwoHopSize`.
-- Distributed models the master of enumerator/distributed_mpi.hpp and static partitioning, and
-- Distributed.Worker the function with which a worker asks for work. What MPI receives is an
-- argument, time stamps included, and what it sends is part of the result; an `assert` that fails
-- is the result `aborted`. The loop over the ranges takes one round more than there are roots as
-- fuel.
-- Threads models `ParallelPthreads` of enumerator/parallel_pthreads.hpp: a step relation on the
-- shared counter of roots, the phase and the producer queue of each thread, and the nodes
-- reported. Threads.Weights and Threads.Steps are about a sum that every step keeps, Threads.Fed
-- and Threads.Potential about one that every step lowers.
-- Cuckoo models util/cuckoo.hpp: the table is a list of slots, and `k & mask` is written as a
-- remainder, since the mask is one less than a power of two. Insertion takes as fuel how deep its
-- calls may nest, since a rehash inserts again: each rehash doubles the mask, and above all keys
-- there is room for each. Cuckoo.Placed and Cuckoo.Kicks are about the displacements, Cuckoo.Room
-- and Cuckoo.Insert about the tables, and Cuckoo.Sets fills `NodeSets` for Graph.Fast.
-- Cuckoo.Visited is about the iteration over a table.
-- Dynarray models util/dynarray.hpp: allocated memory is a list of cells, and a result may be an
-- exception or undefined behaviour.
-- Serialize models util/serialize.hpp: a codec is a record of the two overloads for a type, and a
-- target that exists is an argument. Serialize.Nodes has the codecs of the nodes of both
-- searches. A read past the words is `none`.
-- FastIo models `ReadInt` of util/fastio.cpp on a list of bytes; `EOF` is `none`, and the
-- `int64_t` is its bit pattern, which wraps around at 64 bits where an overflow is undefined in
-- C++; what is proved of a value asks that it stays below 2 ^ 63.
--
-- Numbers are natural numbers. Node numbers, sizes and the counters of the enumerators are taken
-- not to wrap.
--
-- Not modelled: util/concurrentqueue.hpp is a copy of another library. The enumerators of
-- enumerator/parallel_pthreads_steal.hpp and enumerator/parallel_tbb.hpp, the rest of the workers
-- of the distributed one, the copies and moves of the hash set and of the array, the orders of
-- permute/, the bitset, and the flags and printing of ui/ are not modelled.
pub mod Base
pub mod Graph
pub mod Clique
pub mod Commutable
pub mod Enumerator
pub mod BinarySearch
pub mod Kplex
pub mod Serialize
pub mod FastIo
pub mod Distributed
pub mod Threads
pub mod Dynarray
pub mod Cuckoo
