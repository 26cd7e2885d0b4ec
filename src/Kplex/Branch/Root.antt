-- ===== src/Kplex/Branch/Root.antt =====
-- The block that `GetRoot` of the enumeration of k-plexes builds (enumerable/diam2kplex.hpp). Its
-- thread-local vectors are the record `RootScratch`, which it takes and returns. The `do` loop takes
-- fuel: one round more than there are nodes is enough.
mod Loops
mod Ends
mod Sizes
mod Copies
mod Lengths
mod Largest
mod Tests
use parallel_enum.Base.{
  ℕ, zero, suc, ◌+◌, ◌*◌, ◌%◌, ◌^◌, Bool, true, false, not, ◌&&◌, List, [], ◌∷◌, ◌++◌, Option, none,
  some, length, get_or, set, ltb, leb, ◌==◌, if◌then◌else◌, ◌>>=◌,
}
use parallel_enum.Graph.{Graph, fwd_degree}
use parallel_enum.Kplex.{Impl, Block}
use parallel_enum.Kplex.Branch.{init_block, init_impl}

-- `subgraph_added`, `subgraph_counts`, and `nadj_` of the thread-local node.
pub record RootScratch : Type 0 where
  pub subgraph_added : List Bool
  pub subgraph_counts : List ℕ
  pub nadj : List (List ℕ)

pub mark : Bool → List ℕ → List Bool → List Bool
mark value [] added = added
mark value (n ∷ ns) added = mark value ns (set added n value)

pub count_near : Graph → ℕ → List ℕ → ℕ
count_near g v [] = 0
count_near g v (w ∷ ws) = (if g.are_neighs v w then 1 else 0) + count_near g v ws

-- The loop of `filter_sg` over `sg`, `rest` of it.
pub filter_loop : Graph → ℕ → ℕ → List ℕ → List ℕ → List ℕ
filter_loop g k q sg [] = []
filter_loop g k q sg (v ∷ rest) =
    let filtered = filter_loop g k q sg rest in
    if leb q (count_near g v sg + 2 * k) then v ∷ filtered else filtered

pub filter_until_stable : Graph → ℕ → ℕ → ℕ → List ℕ → Option (List ℕ)
filter_until_stable g k q zero sg = none
filter_until_stable g k q (suc fuel) sg =
    let next = filter_loop g k q sg sg in
    let rest = filter_until_stable g k q fuel next in
    if length next == length sg then some next else rest

-- The loop over `neighs(n)`, on `subgraph_candidates` and `subgraph_counts`.
pub count_neighs : ℕ → List Bool → List ℕ → List ℕ × List ℕ → List ℕ × List ℕ
count_neighs v added [] st = st
count_neighs v added (nn ∷ nns) (candidates, counts) = count_neighs v added nns (
    if ltb v nn && not (get_or added nn false)
    then (
      (if get_or counts nn 0 == 0 then candidates ++ nn ∷ [] else candidates),
      set counts nn ((get_or counts nn 0 + 1) % 2 ^ 32),
    )
    else (candidates, counts))

pub count_all : Graph → ℕ → List Bool → List ℕ → List ℕ × List ℕ → List ℕ × List ℕ
count_all g v added [] st = st
count_all g v added (n ∷ ns) st = count_all g v added ns (count_neighs v added (g.neighs n) st)

-- The loop over `subgraph_candidates`, on the subgraph and `subgraph_counts`.
pub add_candidates : ℕ → ℕ → List ℕ → List ℕ × List ℕ → List ℕ × List ℕ
add_candidates k q [] st = st
add_candidates k q (n ∷ ns) (subgraph, counts) = add_candidates k q ns (
  (if leb (q + 2) (get_or counts n 0 + 2 * k) then subgraph ++ n ∷ [] else subgraph),
  set counts n 0,
)

-- The subgraph of the root `v` and `subgraph_counts`, for the filtered list `sg`.
pub extend_subgraph : Graph → ℕ → ℕ → ℕ → List Bool → List ℕ → List ℕ → List ℕ × List ℕ
extend_subgraph g k q v added sg counts =
    if k == 1
    then (v ∷ sg, counts)
    else let (candidates, counted) = count_all g v added sg ([], counts) in
      add_candidates k q candidates (v ∷ sg, counted)

module _ {W : Type 0} (g : Graph) (cb : Block → Impl → W → Bool × W) (k q v : ℕ) where
  -- From the filtered list `sg` on.
  pub visit_root : RootScratch → List ℕ → W → RootScratch × W
  visit_root s sg w =
      let added = mark true (g.fwd_neighs v) (set s.subgraph_added v true) in
      let extended = extend_subgraph g k q v added sg s.subgraph_counts in
      let block = init_block g extended.0 s.nadj in
      (
        record {
          subgraph_added = mark false (g.fwd_neighs v) (mark false extended.0 added);
          subgraph_counts = extended.1;
          nadj = block.nadj;
        },
        (cb block (init_impl block k) w).1,
      )

  pub get_root : RootScratch → W → Option (RootScratch × W)
  get_root s w =
      let sg = filter_until_stable g k q (suc (fwd_degree g v)) (g.fwd_neighs v) in
      if ltb (fwd_degree g v + k) q
      then some (s, w)
      else (sg >>= λ kept. some (visit_root s kept w))
