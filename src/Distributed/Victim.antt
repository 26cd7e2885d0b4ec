-- ===== src/Distributed/Victim.antt =====
-- The worker that the master steals from (enumerator/distributed_mpi.hpp).
use parallel_enum.Base.{
  ℕ, suc, ◌≤◌, ◌<◌, ◌≡◌, refl, ap, subst, ◌∙◌, Bool, true, false, not, ◌&&◌, List, [], ◌∷◌, Option,
  none, some, get_or, Each, ◌||◌, ◌==◌, ==_iff, arith, ◌⊎◌, inl, inr, Bool-cases,
}
use parallel_enum.Distributed.{
  WorkerState, steal_wait, is_waiting, Master, earlier, victim_from, get_steal_victim,
}

-- A worker may be asked: it is not the one asked last and does not wait itself.
abbrev pub may_ask : List WorkerState → ℕ → ℕ → Bool
may_ask states last i = not (i == last) && not (is_waiting (get_or states i steal_wait))

-- Each worker with the time of its last request.
abbrev pub requests : ℕ → List ℕ → List (ℕ × ℕ)
requests i [] = []
requests i (t ∷ ts) = (i, t) ∷ requests (suc i) ts

abbrev pub listed : ℕ → ℕ → List (ℕ × ℕ) → Bool
listed a t [] = false
listed a t (r ∷ rs) = a == r.0 && t == r.1 || listed a t rs

abbrev NoBetter : List WorkerState → ℕ → Option ℕ → List (ℕ × ℕ) → Type 0
NoBetter states last minimum =
    Each (λ r. may_ask states last r.0 ≡ true → earlier r.1 minimum ≡ false)

-- The worker `a`, last heard of at the time `t`, may be asked, and none that may was heard of before.
abbrev pub IsOldest : List WorkerState → ℕ → ℕ → ℕ → List (ℕ × ℕ) → Type 0
IsOldest states last a t rs =
    (may_ask states last a ≡ true)
    × (listed a t rs ≡ true)
    × Each (λ r. may_ask states last r.0 ≡ true → t ≤ r.1) rs

module _ (states : List WorkerState) (last : ℕ) where
  NoBetter-oldest :
      (t : ℕ) (rs : List (ℕ × ℕ))
      → NoBetter states last (some t) rs
      → Each (λ r. may_ask states last r.0 ≡ true → t ≤ r.1) rs
  unfolding earlier
  NoBetter-oldest t [] h = tt
  NoBetter-oldest t (r ∷ rs) h =
      ((λ ask. (let f = h.0 ask in ground arith)), NoBetter-oldest t rs h.1)

  earlier_than :
      (t u : ℕ) (minimum : Option ℕ) → earlier t minimum ≡ true → earlier u minimum ≡ false → t ≤ u
  unfolding earlier
  earlier_than t u none h h' = absurd (cc)
  earlier_than t u (some minimum) h h' = ground arith

  earlier_before :
      (t u : ℕ) (minimum : Option ℕ) → earlier u minimum ≡ true → t < u → earlier t minimum ≡ true
  unfolding earlier
  earlier_before t u none h lt = refl
  earlier_before t u (some minimum) h lt = ground arith

  earlier_lt : (u t : ℕ) → earlier u (some t) ≡ true → u < t
  unfolding earlier
  earlier_lt u t h = ground arith

  here : (i t : ℕ) {a : ℕ} (rs : List (ℕ × ℕ)) → a ≡ i → listed a t ((i, t) ∷ rs) ≡ true
  here i t {a = a} rs e =
      let same_a = (==_iff a i).1 e in let same_t = (==_iff t t).1 refl in ground arith

  -- What the loop comes to: it keeps `to_return`, or finds the oldest request.
  abbrev Found : ℕ → List ℕ → Option ℕ → ℕ → ℕ → Type 0
  Found i ts minimum to_return a =
      ((a ≡ to_return) × NoBetter states last minimum (requests i ts))
      ⊎ ((t : ℕ) × (earlier t minimum ≡ true) × IsOldest states last a t (requests i ts))

  victim_from-oldest :
      (i : ℕ) (ts : List ℕ) (minimum : Option ℕ) (to_return : ℕ)
      → Found i ts minimum to_return (victim_from states last i ts minimum to_return)
  unfolding victim_from
  victim_from-oldest i [] minimum to_return = inl (refl, tt)
  victim_from-oldest i (t ∷ ts) minimum to_return =
      elim (Bool-cases
        (not (i == last) && earlier t minimum && not (is_waiting (get_or states i steal_wait)))) [
          | inr skip ↦
              let not_here : may_ask states last i ≡ true → earlier t minimum ≡ false =
                λ ask. (ground arith) in
              let a = victim_from states last (suc i) ts minimum to_return in
              let same : a ≡ victim_from states last i (t ∷ ts) minimum to_return = rw skip refl in
              subst (Found i (t ∷ ts) minimum to_return) same (
                after_skip i t ts minimum to_return a not_here
                  (victim_from-oldest (suc i) ts minimum to_return))
          | inl take ↦
              let a = victim_from states last (suc i) ts (some t) i in
              let same : a ≡ victim_from states last i (t ∷ ts) minimum to_return = rw take refl in
              subst (Found i (t ∷ ts) minimum to_return) same (
                after_take i t ts minimum to_return a (ground arith) (ground arith)
                  (victim_from-oldest (suc i) ts (some t) i))
        ]
    where
      after_skip :
          (i t : ℕ) (ts : List ℕ) (minimum : Option ℕ) (to_return a : ℕ)
          → (may_ask states last i ≡ true → earlier t minimum ≡ false)
          → Found (suc i) ts minimum to_return a
          → Found i (t ∷ ts) minimum to_return a
      after_skip i t ts minimum to_return a not_here (inl kept) = inl (kept.0, (not_here, kept.1))
      after_skip i t ts minimum to_return a not_here (inr found) =
          let (u, before, (ask, listed_u, oldest)) = found in
          inr (
            u,
            before,
            (
              ask,
              ground arith,
              ((λ asked. earlier_than u t minimum before (not_here asked)), oldest),
            ),
          )

      after_take :
          (i t : ℕ) (ts : List ℕ) (minimum : Option ℕ) (to_return a : ℕ)
          → may_ask states last i ≡ true
          → earlier t minimum ≡ true
          → Found (suc i) ts (some t) i a
          → Found i (t ∷ ts) minimum to_return a
      after_take i t ts minimum to_return a ask_i before_i (inl kept) = inr (
        t,
        before_i,
        (
          ap (may_ask states last) kept.0 ∙ ask_i,
          here i t (requests (suc i) ts) kept.0,
          ((λ asked. omega arith), NoBetter-oldest t (requests (suc i) ts) kept.1),
        ),
      )
      after_take i t ts minimum to_return a ask_i before_i (inr found) =
          let (u, before, (ask, listed_u, oldest)) = found in
          let lt : u < t = earlier_lt u t before in
          inr (
            u,
            earlier_before u t minimum before_i lt,
            (ask, ground arith, ((λ asked. omega arith), oldest)),
          )

-- If some worker may be asked (it does not wait and was not the last one asked), `GetStealVictim`
-- answers one that may, whose last request is the oldest among these. If none may it answers 0.
pub get_steal_victim-IsOldest :
    (m : Master)
    → ((t : ℕ) × IsOldest m.workers_states m.last_steal_victim
          (get_steal_victim m)
          t
          (requests 0 m.last_request))
      ⊎ ((get_steal_victim m ≡ 0)
          × Each
              (λ r. may_ask m.workers_states m.last_steal_victim r.0 ≡ false)
              (requests 0 m.last_request))
unfolding get_steal_victim earlier
get_steal_victim-IsOldest m =
    elim (victim_from-oldest m.workers_states m.last_steal_victim 0 m.last_request none 0) [
      | inr found ↦ inl (found.0, found.2)
      | inl kept ↦
          inr
            (kept.0, no_one m.workers_states m.last_steal_victim (requests 0 m.last_request) kept.1)
    ]
  where
    never :
        (states : List WorkerState) (last v : ℕ)
        → (may_ask states last v ≡ true → true ≡ false)
        → may_ask states last v ≡ false
    never states last v h = elim (Bool-cases (may_ask states last v)) [
      | inl y ↦ absurd (let f = h y in cc)
      | inr y ↦ y
    ]

    no_one :
        (states : List WorkerState) (last : ℕ) (rs : List (ℕ × ℕ))
        → NoBetter states last none rs
        → Each (λ r. may_ask states last r.0 ≡ false) rs
    no_one states last [] h = tt
    no_one states last (r ∷ rs) h = (never states last r.0 h.0, no_one states last rs h.1)
