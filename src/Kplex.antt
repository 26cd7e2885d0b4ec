-- ===== src/Kplex.antt =====
-- The state of the search for k-plexes of diameter 2, `Diam2KplexNodeImpl<Graph, 0>`, and the block
-- that it works in, the subgraph and its complement (enumerable/diam2kplex.hpp). Debug output is
-- left out. `counters` are bytes and wrap at 256.
pub mod Counters
pub mod CanAdd
pub mod Maximal
pub mod Branch
pub mod Node
pub mod Update
mod Tests
use parallel_enum.Base.{
  ℕ, zero, suc, ◌+◌, ◌*◌, ◌%◌, Bool, true, false, not, ◌&&◌, ◌||◌, List, [], ◌∷◌, ◌++◌, map, length,
  get_or, set, ltb, leb, ◌==◌, if◌then◌else◌, replicate,
}
use parallel_enum.Graph.{Graph}

-- The fields of `Diam2KplexNodeImpl`; nodes are indices into the subgraph.
pub record Impl : Type 0 where
  pub kplex : List ℕ
  pub counters : List ℕ
  pub status : List ℕ
  pub non_neighs : List ℕ
  pub cands : List ℕ
  pub excluded : List ℕ

abbrev pub no_status : ℕ
no_status = 0

abbrev pub in_kplex : ℕ
in_kplex = 1

abbrev pub in_cand : ℕ
in_cand = 2

abbrev pub in_excl : ℕ
in_excl = 3

-- `subgraph` and `nadj`, its complement: row `i` lists the indices that are no neighbours of `i`.
pub record Block : Type 0 where
  pub subgraph : List ℕ
  pub nadj : List (List ℕ)

abbrev pub node_at : Block → ℕ → ℕ
node_at b i = get_or b.subgraph i 0

abbrev pub row : Block → ℕ → List ℕ
row b i = get_or b.nadj i []

abbrev pub counter : Impl → ℕ → ℕ
counter s i = get_or s.counters i 0

abbrev pub status_of : Impl → ℕ → ℕ
status_of s i = get_or s.status i no_status

-- `for (e : nadj[c]) { if (counters[e] < k) non_neighs[k * e + counters[e]] = c; counters[e]++; }`
pub count_non_neighs : ℕ → ℕ → List ℕ → Impl → Impl
count_non_neighs k c [] s = s
count_non_neighs k c (e ∷ es) s =
    let written =
      (if ltb (counter s e) k
        then record s { non_neighs = set s.non_neighs (k * e + counter s e) c }
        else s) in
    count_non_neighs k c es
      (record written { counters = set written.counters e ((counter written e + 1) % 256) })

pub add_to_kplex : Block → ℕ → ℕ → Impl → Impl
add_to_kplex b k c s =
    count_non_neighs k c (row b c)
      (record s { kplex = s.kplex ++ c ∷ []; status = set s.status c in_kplex })

-- The loop of `CanAdd` over the k-plex, with `v_cnt`.
pub can_add_loop : Graph → Block → ℕ → Impl → ℕ → List ℕ → ℕ → Bool
can_add_loop g b k s v [] v_cnt = leb v_cnt k
can_add_loop g b k s v (i ∷ is) v_cnt =
    let near = g.are_neighs v (node_at b i) in
    let rest = can_add_loop g b k s v is (if near then v_cnt else v_cnt + 1) in
    if not near && ltb k (counter s i + 1) then false else rest

-- `CanAdd(v, is_index = false)`, on a node of the graph.
pub can_add_node : Graph → Block → ℕ → Impl → ℕ → Bool
can_add_node g b k s v = can_add_loop g b k s v s.kplex 1

-- `CanAdd(idx)`, on an index.
pub can_add : Graph → Block → ℕ → Impl → ℕ → Bool
can_add g b k s idx =
    if status_of s idx == in_kplex then false else can_add_node g b k s (node_at b idx)

-- The first two loops of `UpdateCandAndExcl`.
pub update_excluded : Graph → Block → ℕ → List ℕ → Impl → Impl
update_excluded g b k [] s = s
update_excluded g b k (e ∷ es) s = update_excluded g b k es (
    if can_add g b k s e
    then record s { excluded = s.excluded ++ e ∷ []; status = set s.status e in_excl }
    else record s { status = set s.status e no_status })

-- The last loop of `UpdateCandAndExcl`.
pub update_cands : Graph → Block → ℕ → List Bool → List ℕ → Impl → Impl
update_cands g b k add_to_excl_bitset [] s = s
update_cands g b k add_to_excl_bitset (e ∷ es) s = update_cands g b k add_to_excl_bitset es (
    if not (get_or add_to_excl_bitset e false) && can_add g b k s e
    then record s { cands = s.cands ++ e ∷ []; status = set s.status e in_cand }
    else record s { status = set s.status e no_status })

pub update_cand_and_excl : Graph → Block → ℕ → List ℕ → List Bool → Impl → Impl
update_cand_and_excl g b k add_to_excl add_to_excl_bitset s =
    let old = update_excluded g b k s.excluded (record s { excluded = [] }) in
    let both = update_excluded g b k add_to_excl old in
    update_cands g b k add_to_excl_bitset both.cands (record both { cands = [] })

-- `counters[v] == kplex.size()` for all of them.
pub all_far : Impl → List ℕ → Bool
all_far s [] = true
all_far s (v ∷ vs) = if not (counter s v == length s.kplex) then false else all_far s vs

abbrev pub is_empty : List ℕ → Bool
is_empty [] = true
is_empty (x ∷ xs) = false

pub is_maximal : ℕ → Impl → Bool
is_maximal k s =
    if ltb k (length s.kplex + 1)
    then is_empty s.cands && is_empty s.excluded
    else if not (all_far s s.cands)
    then false
    else all_far s s.excluded

pub can_prune : ℕ → Impl → Bool
can_prune q s = ltb (length s.cands + length s.kplex) q

-- The k-plex has a common neighbour of `u` and `v`.
pub have_common_neigh : Graph → Block → ℕ → ℕ → List ℕ → Bool
have_common_neigh g b u v [] = false
have_common_neigh g b u v (x ∷ xs) =
    if g.are_neighs (node_at b u) (node_at b x) && g.are_neighs (node_at b v) (node_at b x)
    then true
    else have_common_neigh g b u v xs

pub within_two : Graph → Block → Impl → ℕ → List ℕ → Bool
within_two g b s v [] = true
within_two g b s v (u ∷ us) =
    if g.are_neighs (node_at b u) (node_at b v) || have_common_neigh g b u v s.kplex
    then within_two g b s v us
    else false

pub all_within_two : Graph → Block → Impl → List ℕ → Bool
all_within_two g b s [] = true
all_within_two g b s (v ∷ vs) =
    if within_two g b s v s.kplex then all_within_two g b s vs else false

pub has_diameter_two : Graph → Block → ℕ → Impl → Bool
has_diameter_two g b k s =
    if ltb (2 * k) (length s.kplex + 2)
    then true
    else if k == 2
    then true
    else all_within_two g b s s.kplex

-- The inner loop of `IsReallyMaximal`: a neighbour below `first` that can be added.
pub smaller_can_be_added : Graph → Block → ℕ → Impl → ℕ → List ℕ → Bool
smaller_can_be_added g b k s first [] = false
smaller_can_be_added g b k s first (n ∷ ns) =
    if leb first n
    then false
    else if can_add_node g b k s n
    then true
    else smaller_can_be_added g b k s first ns

-- Its outer loop, over the first `rounds` members.
pub extends_below : Graph → Block → ℕ → Impl → ℕ → List ℕ → Bool
extends_below g b k s zero members = false
extends_below g b k s (suc rounds) [] = false
extends_below g b k s (suc rounds) (i ∷ members) =
    if smaller_can_be_added g b k s (node_at b 0) (g.neighs (node_at b i))
    then true
    else extends_below g b k s rounds members

pub is_really_maximal : Graph → Block → ℕ → ℕ → Impl → Bool
is_really_maximal g b k q s =
    if not (is_maximal k s)
    then false
    else if ltb (length s.kplex) q
    then false
    else if not (has_diameter_two g b k s)
    then false
    else not (extends_below g b k s k s.kplex)

pub to_item : Block → Impl → List ℕ
to_item b s = map (node_at b) s.kplex
