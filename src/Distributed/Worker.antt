-- ===== src/Distributed/Worker.antt =====
-- How a worker of enumerator/distributed_mpi.hpp asks for more work.
use parallel_enum.Base.{
  ℕ, zero, suc, ◌≡◌, refl, ap, ◌∙◌, Bool, true, false, List, [], ◌∷◌, ◌++◌, replicate, append_assoc,
}

-- What the master sends to a worker.
pub data Response : Type 0 where
  stolen : Bool → List ℕ → Response
  range : ℕ → ℕ → Response
  finished : Response
  steal_asked : Response
  other : Response

-- `MoreWorkData`
pub data MoreWork : Type 0 where
  more_roots : List ℕ → MoreWork
  more_subtree : List ℕ → MoreWork
  more_range : ℕ → ℕ → MoreWork
  nothing : MoreWork

-- The answer, with the responses that are left and the solution counts sent; an exception; or no
-- response yet.
pub data Asked : Type 0 where
  answered : MoreWork → List Response → List ℕ → Asked
  failed : Asked
  waits : List ℕ → Asked

-- The function `mr` of `Worker::Run`: its loop with `found` in the next request.
pub more_work : List Response → ℕ → List ℕ → Asked
more_work [] found sent = waits (sent ++ found ∷ [])
more_work (stolen true words ∷ left) found sent =
    answered (more_roots words) left (sent ++ found ∷ [])
more_work (stolen false words ∷ left) found sent =
    answered (more_subtree words) left (sent ++ found ∷ [])
more_work (range begin range_end ∷ left) found sent =
    answered (more_range begin range_end) left (sent ++ found ∷ [])
more_work (finished ∷ left) found sent = answered nothing left (sent ++ found ∷ [])
more_work (steal_asked ∷ left) found sent = more_work left 0 (sent ++ found ∷ [])
more_work (other ∷ left) found sent = failed

-- What a response stands for.
abbrev pub work_of : Response → List Response → List ℕ → Asked
work_of (stolen true words) left sent = answered (more_roots words) left sent
work_of (stolen false words) left sent = answered (more_subtree words) left sent
work_of (range begin range_end) left sent = answered (more_range begin range_end) left sent
work_of finished left sent = answered nothing left sent
work_of steal_asked left sent = failed
work_of other left sent = failed

abbrev pub is_answer : Response → Bool
is_answer (stolen are_roots words) = true
is_answer (range begin range_end) = true
is_answer finished = true
is_answer steal_asked = false
is_answer other = false

one_answer :
    (r : Response) (left : List Response) (found : ℕ) (sent : List ℕ)
    → is_answer r ≡ true
    → more_work (r ∷ left) found sent ≡ work_of r left (sent ++ found ∷ [])
unfolding more_work
one_answer (stolen true words) left found sent h = refl
one_answer (stolen false words) left found sent h = refl
one_answer (range begin range_end) left found sent h = refl
one_answer finished left found sent h = refl
one_answer steal_asked left found sent h = absurd (cc)
one_answer other left found sent h = absurd (cc)

discarded :
    (n : ℕ) (r : Response) (left : List Response) (found : ℕ) (sent : List ℕ)
    → is_answer r ≡ true
    → more_work (replicate n steal_asked ++ r ∷ left) found sent
      ≡ work_of r left (sent ++ (found ∷ replicate n 0))
unfolding more_work
discarded zero r left found sent h = one_answer r left found sent h
discarded (suc n) r left found sent h =
    discarded n r left 0 (sent ++ found ∷ []) h
    ∙ ap (work_of r left) (append_assoc sent (found ∷ []) (replicate (suc n) 0))

-- If the master sends a worker that asks for work any number of steal requests and then work, a
-- range or the end, the worker discards the steal requests, asks again after each, and takes this
-- answer. It reports the solutions it found in the first request and none in the others.
pub more_work-discards :
    (n found : ℕ) (r : Response) (left : List Response)
    → is_answer r ≡ true
    → more_work (replicate n steal_asked ++ r ∷ left) found []
      ≡ work_of r left (found ∷ replicate n 0)
more_work-discards n found r left h = discarded n r left found [] h
