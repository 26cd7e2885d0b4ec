-- ===== src/Commutable.antt =====
-- Commutable set systems (enumerable/commutable.hpp): the system, and the queue of candidates.
-- A node is a native number. The virtual functions are fields of `System`; a function that calls
-- back on elements one by one is given by the list of those elements, in order, and whoever runs
-- through the list stops where the callback answers `false`. Levels do not wrap.
mod Defaults
mod Queue
mod Next
mod Iterators
mod Tracked
mod Insertions
pub mod Completion
pub mod Offspring
pub mod Connected
mod Example
mod Tests
use parallel_enum.Base.{
  ℕ, zero, suc, ◌+◌, Bool, true, false, not, List, [], ◌∷◌, ◌++◌, Option, none, some, if◌then◌else◌,
  ltb, leb, ◌==◌, mem, length, set, get_elem?, sort, tabulate, ◌||◌, ◌&&◌,
}

-- The virtual functions of `CommutableSystem<Graph, Aux>`. `can_add` may change the auxiliary data
-- it is given. `resort` is `none` where it throws. A null pointer is `none`.
pub record System (Aux : Type 0) : Type 0 where
  pub graph_size : ℕ
  pub is_good : List ℕ → Bool
  pub restricted_problem : List ℕ → ℕ → List (List ℕ)
  pub can_add : List ℕ → Aux → ℕ → Bool × Aux
  pub restr_multiple : Bool
  pub is_seed : ℕ → Option (List ℕ) → Bool
  pub complete_cand_num : Option (List ℕ) → ℕ → ℕ → ℕ → Option ℕ
  pub restricted_cands : List ℕ → List ℕ → List ℕ
  pub init_aux : List ℕ → Aux
  pub update_aux : Aux → List ℕ → ℕ → Aux
  pub resort : List ℕ → List ℕ → ℕ → Option (List ℕ × List ℕ)
  pub valid_seeds : List ℕ → ℕ → List ℕ

-- `CanAdd`, unless it is overridden.
pub can_add_alone : {Aux : Type 0} → (List ℕ → Bool) → List ℕ → Aux → ℕ → Bool × Aux
can_add_alone is_good s aux v = (is_good (s ++ v ∷ []), aux)

-- `IsSeed`, unless it is overridden.
pub is_seed_alone : (List ℕ → Bool) → ℕ → Option (List ℕ) → Bool
is_seed_alone is_good v s = is_good (v ∷ [])

-- `CompleteCandNum`, unless it is overridden: the answer `true` with `*out` is `some`.
pub complete_cand_num_all : ℕ → Option (List ℕ) → ℕ → ℕ → ℕ → Option ℕ
complete_cand_num_all graph_size none new_elem iterator_num idx =
    if ltb idx graph_size then some idx else none
complete_cand_num_all graph_size (some ground_set) new_elem iterator_num idx =
    get_elem? ground_set idx

-- The loop of `RestrictedCands` over the nodes that are given; `ss` is the sorted solution, in
-- which `std::binary_search` finds what is a member.
pub outside : List ℕ → List ℕ → List ℕ
outside ss [] = []
outside ss (i ∷ nodes) = let rest = outside ss nodes in if mem i ss then rest else i ∷ rest

-- `RestrictedCands`, unless it is overridden.
pub restricted_cands_all : ℕ → List ℕ → List ℕ → List ℕ
unfolding tabulate
restricted_cands_all graph_size s level = outside (sort s) (tabulate (λ i. i) 0 graph_size)

-- `ValidSeeds`, unless it is overridden, on the seeds that are left.
pub valid_seeds_all : (ℕ → Option (List ℕ) → Bool) → List ℕ → List ℕ → ℕ → List ℕ
valid_seeds_all is_seed sol [] cand = []
valid_seeds_all is_seed sol (seed ∷ seeds) cand =
    let rest = valid_seeds_all is_seed sol seeds cand in
    if not (is_seed seed (some sol)) then rest else if leb cand seed then rest else seed ∷ rest

-- `CandIter`: level, node, iterator number.
pub record CandIter : Type 0 where
  pub level : ℕ
  pub node : ℕ
  pub iterator : ℕ

-- `info_t`: iteration index, owner node, owner level.
pub record Info : Type 0 where
  pub idx : ℕ
  pub owner : ℕ
  pub owner_level : ℕ

-- `Candidates`; `s` and `aux` are the vector and the data that it holds references to.
pub record Candidates (Aux : Type 0) : Type 0 where
  pub s : List ℕ
  pub aux : Aux
  pub added_so_far : List ℕ
  pub pq : List CandIter
  pub info : List Info

-- The order of the tuples of `CandIter`.
pub before : CandIter → CandIter → Bool
before p q =
    if p.level == q.level
    then (if p.node == q.node then ltb p.iterator q.iterator else ltb p.node q.node)
    else ltb p.level q.level

-- `pq_.emplace`; the queue is kept as the list of its elements in the order they are popped.
pub emplace : CandIter → List CandIter → List CandIter
emplace p [] = p ∷ []
emplace p (q ∷ pq) = let rest = emplace p pq in if before q p then q ∷ rest else p ∷ q ∷ pq

module _ {Aux : Type 0} where
  -- The constructor, which clears the thread's queue and its lists.
  pub candidates : List ℕ → Aux → Candidates Aux
  candidates s aux = record { s = s; aux = aux; added_so_far = []; pq = []; info = [] }

  -- The end of `InsertInPQ`, with what `CompleteCandNum` gave.
  pub offer : Option ℕ → Info → ℕ → Candidates Aux → Candidates Aux
  offer none inf iterator c = c
  offer (some cand) inf iterator c = record c {
    pq = emplace (record { level = inf.owner_level + 1; node = cand; iterator = iterator }) c.pq;
  }

module _ {Aux : Type 0} (system : System Aux) (ground_set : Option (List ℕ)) where
  -- `InsertInPQ` with `inf`, which is `info_[iterator_num]`; there is none past the end.
  pub insert_info : Option Info → ℕ → Candidates Aux → Candidates Aux
  insert_info none iterator c = c
  insert_info (some inf) iterator c =
      offer (system.complete_cand_num ground_set inf.owner iterator inf.idx) inf iterator
        (record c { info = set c.info iterator (record inf { idx = inf.idx + 1 }) })

  pub insert_in_pq : ℕ → Candidates Aux → Candidates Aux
  insert_in_pq iterator c = insert_info (get_elem? c.info iterator) iterator c

  -- `CanReallyAdd`, and the auxiliary data that it leaves.
  pub can_really_add : ℕ → Candidates Aux → Bool × Aux
  can_really_add v c =
      if mem v c.added_so_far
      then (false, c.aux)
      else if mem v c.s
      then (true, c.aux)
      else system.can_add c.s c.aux v

  -- A round of the loop in `Next` that pops `p`: whether it returns `true`, and the candidates.
  pub pop : CandIter → Candidates Aux → Bool × Candidates Aux
  pop p c =
      let c' = insert_in_pq p.iterator c in
      let answer = can_really_add p.node c' in (answer.0, record c' { aux = answer.1 })

  -- The loop of `Next` with fuel, on the queue `pq`: `*lv` and `*n` where it returns `true`.
  pub next_in : ℕ → List CandIter → Candidates Aux → Option (Option (ℕ × ℕ) × Candidates Aux)
  next_in fuel [] c = some (none, record c { pq = [] })
  next_in zero (p ∷ pq) c = none
  next_in (suc fuel) (p ∷ pq) c =
      let (found, c') = pop p (record c { pq = pq }) in
      let rest = next_in fuel c'.pq c' in if found then some (some (p.level, p.node), c') else rest

  pub next : ℕ → Candidates Aux → Option (Option (ℕ × ℕ) × Candidates Aux)
  next fuel c = next_in fuel c.pq c

  pub add : ℕ → ℕ → Candidates Aux → Candidates Aux
  add v lv c = insert_in_pq (length c.info) (record c {
    added_so_far = c.added_so_far ++ v ∷ [];
    info = c.info ++ record { idx = 0; owner = v; owner_level = lv } ∷ [];
  })
