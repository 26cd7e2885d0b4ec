-- ===== src/Commutable/Iterators.antt =====
-- The entries of an iterator in the queue of candidates (enumerable/commutable.hpp), and what
-- `CompleteCandNum` offers after its last node.
use parallel_enum.Base.{
  ℕ, zero, suc, ◌≤◌, ◌<◌, ◌≡◌, ◌≢◌, refl, ap, arith, List, [], ◌∷◌, ◌++◌, Option, none, some,
  if◌then◌else◌, ◌==◌, length, set, get_elem?, Each,
}
use parallel_enum.Commutable.{CandIter, Info, emplace, complete_cand_num_all}

-- How many entries the iterator has in the queue.
abbrev pub queued : ℕ → List CandIter → ℕ
queued k [] = 0
queued k (p ∷ pq) = if k == p.iterator then suc (queued k pq) else queued k pq

pub queued-emplace :
    (k : ℕ) (p : CandIter) (pq : List CandIter) → queued k (emplace p pq) ≡ queued k (p ∷ pq)
unfolding emplace
queued-emplace k p [] = refl
queued-emplace k p (q ∷ pq) = ground (arith, queued-emplace k p pq)

pub queued-below : (k : ℕ) (pq : List CandIter) → Each (λ p. p.iterator < k) pq → queued k pq ≡ 0
queued-below k [] h = refl
queued-below k (p ∷ pq) h = ground (arith, queued-below k pq h.1, h.0)

pub Each-raise :
    (k : ℕ) (pq : List CandIter) → Each (λ p. p.iterator < k) pq → Each (λ p. p.iterator < suc k) pq
Each-raise k [] h = tt
Each-raise k (p ∷ pq) h = (omega (arith, h.0), Each-raise k pq h.1)

pub get_elem?-set_self :
    (info : List Info) (k : ℕ) (inf new : Info)
    → get_elem? info k ≡ some inf
    → get_elem? (set info k new) k ≡ some new
get_elem?-set_self [] k inf new h = absurd (cc)
get_elem?-set_self (x ∷ info) zero inf new h = refl
get_elem?-set_self (x ∷ info) (suc k) inf new h = get_elem?-set_self info k inf new h

pub get_elem?-set_ne :
    (info : List Info) (i k : ℕ) (new : Info)
    → i ≢ k
    → get_elem? (set info i new) k ≡ get_elem? info k
get_elem?-set_ne [] i k new h = refl
get_elem?-set_ne (x ∷ info) zero zero new h = absurd (h refl)
get_elem?-set_ne (x ∷ info) zero (suc k) new h = refl
get_elem?-set_ne (x ∷ info) (suc i) zero new h = refl
get_elem?-set_ne (x ∷ info) (suc i) (suc k) new h =
    get_elem?-set_ne info i k new (λ e. h (ap suc e))

pub get_elem?-last :
    (info : List Info) (new : Info) → get_elem? (info ++ new ∷ []) (length info) ≡ some new
get_elem?-last [] new = refl
get_elem?-last (x ∷ info) new = get_elem?-last info new

-- After the last node that is offered there is none.
pub given_none :
    (graph_size : ℕ) (ground_set : Option (List ℕ)) (owner iterator i j : ℕ)
    → i ≤ j
    → complete_cand_num_all graph_size ground_set owner iterator i ≡ none
    → complete_cand_num_all graph_size ground_set owner iterator j ≡ none
unfolding complete_cand_num_all
given_none graph_size none owner iterator i j le h = ground arith
given_none graph_size (some g) owner iterator i j le h = past g i j le h
  where
    past : (g : List ℕ) (i j : ℕ) → i ≤ j → get_elem? g i ≡ none → get_elem? g j ≡ none
    past [] i j le h = refl
    past (x ∷ g) zero j le h = absurd (cc)
    past (x ∷ g) (suc i) zero le h = absurd (omega arith)
    past (x ∷ g) (suc i) (suc j) le h = past g i j (omega arith) h
