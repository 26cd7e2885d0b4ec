-- ===== src/Distributed/Progress.antt =====
-- When the master can pass work on, and when it stops at its `assert`
-- (enumerator/distributed_mpi.hpp).
use parallel_enum.Base.{
  ℕ, zero, suc, ◌<◌, ◌≡◌, ◌≢◌, refl, sym, ap, subst, ◌∙◌, Bool, true, false, List, [], ◌∷◌, length,
  get_or, set, ◌==◌, ==_iff, arith, inl, inr, Bool-cases, Each, get_or-set_self, get_or-set_ne,
  length-set,
}
use parallel_enum.Distributed.{
  WorkerState, steal_wait, steal_processing, is_waiting, Master, get_steal_victim, terminated,
  Reply, work, range_request, unexpected, Sent, steal_request, steal_response, returned, aborted,
  finish, choose, steal_loop, note_request, make_wait, wait_range_request,
}
use parallel_enum.Distributed.Victim.{may_ask, requests, listed, get_steal_victim-IsOldest}

-- If all wait, so does any one.
terminated-is_waiting :
    (states : List WorkerState) (i : ℕ)
    → terminated states ≡ true
    → is_waiting (get_or states i steal_wait) ≡ true
unfolding terminated is_waiting
terminated-is_waiting [] i h = refl
terminated-is_waiting (s ∷ states) zero h = ground arith
terminated-is_waiting (s ∷ states) (suc i) h = terminated-is_waiting states i (ground arith)

terminated-off :
    (states : List WorkerState) (i : ℕ)
    → is_waiting (get_or states i steal_wait) ≡ false
    → terminated states ≡ false
terminated-off states i h = elim (Bool-cases (terminated states)) [
  | inr y ↦ y
  | inl y ↦ absurd (let f = terminated-is_waiting states i y in cc)
]

no_one_listed :
    (states : List WorkerState) (last a t : ℕ) (rs : List (ℕ × ℕ))
    → Each (λ r. may_ask states last r.0 ≡ false) rs
    → listed a t rs ≡ true
    → may_ask states last a ≡ false
no_one_listed states last a t [] h here = absurd (cc)
no_one_listed states last a t (r ∷ rs) h here = elim (Bool-cases (a == r.0)) [
  | inl e ↦
      let e' : r.0 ≡ a = sym ((==_iff a r.0).0 e) in
      subst (λ z. may_ask states last z ≡ false) e' h.0
  | inr ne ↦ no_one_listed states last a t rs h.1 (ground arith)
]

module _ (max_roots range_end stealer found time : ℕ) (m : Master) where
  -- The state in which the master looks for a victim.
  abbrev pub asking : Master
  asking = make_wait stealer (note_request stealer found time m)

  -- If no roots are left, the worker that asks is known and another worker may be asked (it does
  -- not wait and was not the last one asked), `WaitRangeRequest` picks a worker that is not the one
  -- that asks and does not wait. If this one replies with work it returns, has sent the request and
  -- passed the work on, and the worker that asked is at work again.
  pub wait_range_request-passes :
      (a t : ℕ) (are_roots : Bool) (words : List ℕ) (replies : List Reply)
      → stealer < length m.workers_states
      → listed a t (requests 0 asking.last_request) ≡ true
      → may_ask asking.workers_states asking.last_steal_victim a ≡ true
      → (victim : ℕ) × (m' : Master) × (victim ≢ stealer)
        × (is_waiting (get_or m.workers_states victim steal_wait) ≡ false)
        × (wait_range_request max_roots max_roots range_end stealer found time
              (work are_roots words ∷ replies)
              m
            ≡ returned false m' replies
                (steal_request victim ∷ steal_response stealer are_roots words ∷ []))
        × (get_or m'.workers_states stealer steal_wait ≡ steal_processing)
  unfolding wait_range_request steal_loop finish choose make_wait note_request is_waiting
  wait_range_request-passes a t are_roots words replies known here ask =
      let states = asking.workers_states in
      let victim = get_steal_victim asking in
      let ask_victim : may_ask states asking.last_steal_victim victim ≡ true =
        elim (get_steal_victim-IsOldest asking) [
          | inl found_one ↦ found_one.1.0
          | inr kept ↦
              absurd (let f = no_one_listed states asking.last_steal_victim a t _ kept.1 here in cc)
        ] in
      let awake : is_waiting (get_or states victim steal_wait) ≡ false = ground arith in
      let ne : victim ≢ stealer = λ e.
        let waits = get_or-set_self m.workers_states stealer steal_wait steal_wait known in
        let waits' : is_waiting (get_or states victim steal_wait) ≡ true =
          ap (λ z. is_waiting (get_or states z steal_wait)) e ∙ ap is_waiting waits in
        absurd (cc) in
      let same =
        get_or-set_ne m.workers_states stealer victim steal_wait steal_wait (λ e. ne (sym e)) in
      let busy = set states stealer steal_processing in
      let known' : stealer < length states =
        omega (arith, length-set m.workers_states stealer steal_wait) in
      let now : get_or busy stealer steal_wait ≡ steal_processing =
        get_or-set_self states stealer steal_processing steal_wait known' in
      let off : terminated busy ≡ false = terminated-off busy stealer (ap is_waiting now) in
      let all : (max_roots == max_roots) ≡ true = (==_iff max_roots max_roots).1 refl in
      let more : terminated states ≡ false = terminated-off states victim awake in
      let other : (victim == stealer) ≡ false = elim (Bool-cases (victim == stealer)) [
        | inr d ↦ d
        | inl e ↦ absurd (ne ((==_iff victim stealer).0 e))
      ] in
      (
        victim,
        record (choose asking) { workers_states = busy },
        ne,
        ap is_waiting (sym same) ∙ awake,
        rw (all, more, other, off) refl,
        now,
      )

  -- If no roots are left and worker 0 asks, not all workers wait, and none may be asked,
  -- `WaitRangeRequest` fails its `assert`, whatever the replies: it picks the worker that asks.
  pub wait_range_request-aborts :
      (replies : List Reply)
      → stealer ≡ 0
      → terminated asking.workers_states ≡ false
      → Each
          (λ r. may_ask asking.workers_states asking.last_steal_victim r.0 ≡ false)
          (requests 0 asking.last_request)
      → wait_range_request max_roots max_roots range_end stealer found time replies m ≡ aborted
  unfolding wait_range_request steal_loop
  wait_range_request-aborts replies zero_id more no_one =
      let all : (max_roots == max_roots) ≡ true = (==_iff max_roots max_roots).1 refl in
      let victim : get_steal_victim asking ≡ 0 = elim (get_steal_victim-IsOldest asking) [
        | inr kept ↦ kept.0
        | inl found_one ↦
            let (t, (ask, here, oldest)) = found_one in
            absurd (
              let f =
                no_one_listed asking.workers_states asking.last_steal_victim
                  (get_steal_victim asking) t _ no_one here in
              cc)
      ] in
      let self : (get_steal_victim asking == stealer) ≡ true =
        (==_iff (get_steal_victim asking) stealer).1 (victim ∙ sym zero_id) in
      rw all (stops replies [] more self)
    where
      stops :
          (replies : List Reply) (sent : List Sent)
          → terminated asking.workers_states ≡ false
          → (get_steal_victim asking == stealer) ≡ true
          → steal_loop stealer replies asking sent ≡ aborted
      stops [] sent more self = rw (more, self) refl
      stops (work are_roots words ∷ replies) sent more self = rw (more, self) refl
      stops (range_request solutions t ∷ replies) sent more self = rw (more, self) refl
      stops (unexpected ∷ replies) sent more self = rw (more, self) refl
