-- ===== src/BinarySearch.antt =====
-- The sorted array `binary_search_t` (util/binary_search.hpp). A read outside of the array is
-- `none`, and so is a search that runs out of fuel.
pub mod Search
pub mod Init
mod Tests
use parallel_enum.Base.{
  ℕ, zero, suc, ◌+◌, ◌-◌, ◌/◌, Bool, true, false, List, Option, none, some, ltb, leb, ◌==◌,
  if◌then◌else◌, length, get_elem?, ◌>>=◌, [], ◌∷◌, set, replicate,
}

-- `while (n > 1)` in `count`; the result is `cur`.
pub halve : List ℕ → ℕ → ℕ → ℕ → ℕ → Option ℕ
halve support v zero n cur = none
halve support v (suc fuel) n cur =
    let rest = get_elem? support (cur + n / 2) >>= λ x.
    halve support v fuel (n - n / 2) (if ltb x v then cur + n / 2 else n / 2) in
    if leb n 1 then some cur else rest

-- `cur < support.size() && support[cur] == v`
pub holds_at : List ℕ → ℕ → ℕ → Option Bool
holds_at support v cur =
    if ltb cur (length support) then (get_elem? support cur >>= λ y. some (y == v)) else some false

pub count : List ℕ → ℕ → Option Bool
count support v = do
  cur ← halve support v (length support) (length support) 0
  x ← get_elem? support cur
  holds_at support v (cur + (if ltb x v then 1 else 0))

-- The loop of `init` from the index `cnt` on, over the elements that are left.
pub init_loop : List ℕ → ℕ → List ℕ → List ℕ
init_loop support cnt [] = support
init_loop support cnt (x ∷ v) = init_loop (set support cnt x) (suc cnt) v

pub init : List ℕ → List ℕ
init v = init_loop (replicate (length v) 0) 0 v
