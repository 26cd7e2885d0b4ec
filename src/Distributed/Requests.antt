-- ===== src/Distributed/Requests.antt =====
-- A request to the master loses neither solutions nor work (enumerator/distributed_mpi.hpp).
use parallel_enum.Base.{
  ℕ, zero, suc, ◌+◌, ◌≡◌, ◌≢◌, refl, sym, ap, subst, ◌∙◌, Bool, true, false, List, [], ◌∷◌, ◌++◌,
  length, set, ◌==◌, ==_iff, if◌then◌else◌, arith, inl, inr, Bool-cases, append_assoc, append-nil,
}
use parallel_enum.Distributed.{
  steal_wait, steal_processing, Master, get_steal_victim, terminated, Reply, work, range_request,
  unexpected, Sent, range_response, steal_request, steal_response, termination, Outcome, returned,
  thrown, aborted, blocked, terminations, finish, choose, steal_loop, note_request, make_wait,
  wait_range_request,
}

-- The solutions that replies report.
abbrev pub found_in : List Reply → ℕ
found_in [] = 0
found_in (work are_roots words ∷ replies) = found_in replies
found_in (range_request found time ∷ replies) = found + found_in replies
found_in (unexpected ∷ replies) = found_in replies

-- The work in replies, as it is to be sent to the worker `stealer`.
abbrev pub work_in : ℕ → List Reply → List Sent
work_in stealer [] = []
work_in stealer (work are_roots words ∷ replies) =
    steal_response stealer are_roots words ∷ work_in stealer replies
work_in stealer (range_request found time ∷ replies) = work_in stealer replies
work_in stealer (unexpected ∷ replies) = work_in stealer replies

-- The work among the messages sent.
abbrev pub work_sent : List Sent → List Sent
work_sent [] = []
work_sent (range_response worker begin range_end ∷ sent) = work_sent sent
work_sent (steal_request worker ∷ sent) = work_sent sent
work_sent (steal_response worker are_roots words ∷ sent) =
    steal_response worker are_roots words ∷ work_sent sent
work_sent (termination worker ∷ sent) = work_sent sent

work_sent-append : (xs ys : List Sent) → work_sent (xs ++ ys) ≡ work_sent xs ++ work_sent ys
work_sent-append [] ys = refl
work_sent-append (range_response worker begin range_end ∷ xs) ys = work_sent-append xs ys
work_sent-append (steal_request worker ∷ xs) ys = work_sent-append xs ys
work_sent-append (steal_response worker are_roots words ∷ xs) ys =
    ap (λ zs. steal_response worker are_roots words ∷ zs) (work_sent-append xs ys)
work_sent-append (termination worker ∷ xs) ys = work_sent-append xs ys

work_sent-terminations : (i count : ℕ) → work_sent (terminations i count) ≡ []
unfolding terminations
work_sent-terminations i zero = refl
work_sent-terminations i (suc count) = work_sent-terminations (suc i) count

-- Of the solutions and the work that came in, what the master did not take is left. Its answer says
-- whether all workers wait.
abbrev pub IsKept : ℕ → ℕ → List Sent → Outcome → Type 0
IsKept stealer total pieces (returned answer m left sent) =
    (answer ≡ terminated m.workers_states)
    × (m.solutions_count + found_in left ≡ total)
    × (work_sent sent ++ work_in stealer left ≡ pieces)
IsKept stealer total pieces thrown = Unit
IsKept stealer total pieces aborted = Unit
IsKept stealer total pieces blocked = Unit

module _ (stealer : ℕ) where
  either :
      (t : Bool) (total : ℕ) (pieces : List Sent) (x y : Outcome)
      → IsKept stealer total pieces x
      → IsKept stealer total pieces y
      → IsKept stealer total pieces (if t then x else y)
  either true total pieces x y h h' = h
  either false total pieces x y h h' = h'

  finish-IsKept :
      (m : Master) (left : List Reply) (sent : List Sent)
      → IsKept stealer
          (m.solutions_count + found_in left)
          (work_sent sent ++ work_in stealer left)
          (finish m left sent)
  unfolding finish
  finish-IsKept m left sent = elim (Bool-cases (terminated m.workers_states)) [
    | inr more ↦ rw more (sym more, refl, refl)
    | inl all ↦
        let n = length m.workers_states in
        let same : work_sent (sent ++ terminations 0 n) ≡ work_sent sent =
          work_sent-append sent (terminations 0 n)
          ∙ ap (λ zs. work_sent sent ++ zs) (work_sent-terminations 0 n)
          ∙ append-nil (work_sent sent) in
        rw all (sym all, refl, ap (λ zs. zs ++ work_in stealer left) same)
  ]

  steal_loop-IsKept :
      (replies : List Reply) (m : Master) (sent : List Sent)
      → IsKept stealer
          (m.solutions_count + found_in replies)
          (work_sent sent ++ work_in stealer replies)
          (steal_loop stealer replies m sent)
  unfolding steal_loop choose
  steal_loop-IsKept [] m sent =
      either (terminated m.workers_states) _ _ _ _ (finish-IsKept m [] sent)
        (either (get_steal_victim m == stealer) _ _ aborted blocked tt tt)
  steal_loop-IsKept (work are_roots words ∷ replies) m sent =
      let victim = get_steal_victim m in
      let out = sent ++ steal_request victim ∷ steal_response stealer are_roots words ∷ [] in
      let c = choose m in
      let next = record c { workers_states = set c.workers_states stealer steal_processing } in
      let pieces : work_sent out ++ work_in stealer replies
          ≡ work_sent sent ++ steal_response stealer are_roots words ∷ work_in stealer replies =
        ap (λ zs. zs ++ work_in stealer replies) (work_sent-append sent _)
        ∙ append_assoc (work_sent sent) (steal_response stealer are_roots words ∷ [])
            (work_in stealer replies) in
      either (terminated m.workers_states) _ _ _ _
        (finish-IsKept m (work are_roots words ∷ replies) sent)
        (either (victim == stealer) _ _ aborted _ tt (
          subst
            (λ z. IsKept stealer (m.solutions_count + found_in replies) z (finish next replies out))
            pieces (finish-IsKept next replies out)))
  steal_loop-IsKept (range_request found time ∷ replies) m sent =
      let victim = get_steal_victim m in
      let out = sent ++ steal_request victim ∷ [] in
      let c = choose m in
      let next = record c {
        workers_states = set c.workers_states victim steal_wait;
        last_request = set c.last_request victim time;
        solutions_count = c.solutions_count + found;
      } in
      let total : m.solutions_count + found + found_in replies
          ≡ m.solutions_count + (found + found_in replies) =
        omega arith in
      let pieces : work_sent out ++ work_in stealer replies
          ≡ work_sent sent ++ work_in stealer replies =
        ap (λ zs. zs ++ work_in stealer replies)
          (work_sent-append sent (steal_request victim ∷ []) ∙ append-nil (work_sent sent)) in
      let rest = steal_loop stealer replies next out in
      either (terminated m.workers_states) _ _ _ _
        (finish-IsKept m (range_request found time ∷ replies) sent)
        (either (victim == stealer) _ _ aborted _ tt (
          subst (λ z. IsKept stealer z (work_sent sent ++ work_in stealer replies) rest) total
            (subst (λ z. IsKept stealer (m.solutions_count + found + found_in replies) z rest)
              pieces (steal_loop-IsKept replies next out))))
  steal_loop-IsKept (unexpected ∷ replies) m sent =
      either (terminated m.workers_states) _ _ _ _ (finish-IsKept m (unexpected ∷ replies) sent)
        (either (get_steal_victim m == stealer) _ _ aborted thrown tt tt)

-- With no roots left, whenever `WaitRangeRequest` returns, it has added to `_solutionsCount` the
-- solutions of the request and of the replies it took, it has sent the worker that asked each piece
-- of work in these replies, in their order and no other, and it answers true exactly if all workers
-- wait. With roots left it sends the range to this worker and only counts the solutions.
pub wait_range_request-IsKept :
    (max_roots begin range_end stealer found time : ℕ) (replies : List Reply) (m : Master)
    → (begin ≡ max_roots
        → IsKept stealer
            (m.solutions_count + found + found_in replies)
            (work_in stealer replies)
            (wait_range_request max_roots begin range_end stealer found time replies m))
      × (begin ≢ max_roots
          → (m' : Master) × (wait_range_request max_roots begin range_end stealer found time replies
                m
              ≡ returned false m' replies (range_response stealer begin range_end ∷ []))
            × (m'.solutions_count ≡ m.solutions_count + found)
            × (m'.workers_states ≡ m.workers_states))
unfolding wait_range_request note_request make_wait
wait_range_request-IsKept max_roots begin range_end stealer found time replies m = (
  λ e.
      let all : (begin == max_roots) ≡ true = (==_iff begin max_roots).1 e in
      rw all (
        steal_loop-IsKept stealer replies (make_wait stealer (note_request stealer found time m))
          []),
  λ ne. elim (Bool-cases (begin == max_roots)) [
    | inl e ↦ absurd (ne ((==_iff begin max_roots).0 e))
    | inr more ↦ rw more (note_request stealer found time m, refl, refl, refl)
  ],
)
