-- ===== src/Kplex/Update.antt =====
-- `UpdateCandAndExcl` restores what holds of each state of the search
-- (enumerable/diam2kplex.hpp).
use parallel_enum.Base.{
  ℕ, ◌+◌, ◌≤◌, ◌<◌, ◌≡◌, ◌≢◌, refl, ◌∙◌, Bool, true, false, not, ◌&&◌, List, [], ◌∷◌, ◌++◌, length,
  map, get_or, set, ◌==◌, ==_iff, arith, mem, mem-append, occurrences, occurrences-append,
  occurrences-eq-zero, length-set, get_or-set_self, get_or-set_ne, Bool-cases, inl, inr, sym, subst,
}
use parallel_enum.Graph.{Graph, IsGraph}
use parallel_enum.Kplex.{
  Impl, Block, node_at, status_of, in_cand, no_status, can_add, update_excluded, update_cands,
  update_cand_and_excl,
}
use parallel_enum.Kplex.Counters.{IsPlex}
use parallel_enum.Kplex.Node.{
  IsCore, AllExtend, AreCands, IsNode, Below, IsCore-frame, can_add-extends, append-AllExtend,
  update_excluded-Excludes,
}

module _ (g : Graph) (b : Block) (n k : ℕ) where
  -- The candidates found so far, and those that are still to be tested.
  record Splits (s : Impl) (es : List ℕ) : Type 0 where
    core : IsCore g b n k s
    cands : AllExtend g b n k s s.cands
    distinct : (e : ℕ) → occurrences e s.cands + occurrences e es ≤ 1
    marked : (e : ℕ) → status_of s e ≡ in_cand → (mem e s.cands ≡ false) → mem e es ≡ true
    all_marked : (e : ℕ) → mem e s.cands ≡ true → status_of s e ≡ in_cand
    below : (e : ℕ) → mem e es ≡ true → e < n

  abbrev keep : ℕ → Impl → Impl
  keep e s = record s { cands = s.cands ++ e ∷ []; status = set s.status e in_cand }

  abbrev drop : ℕ → Impl → Impl
  drop e s = record s { status = set s.status e no_status }

  keep-Splits :
      (s : Impl) (e : ℕ) (es : List ℕ)
      → Splits s (e ∷ es)
      → IsPlex g k (map (node_at b) s.kplex ++ node_at b e ∷ [])
      → Splits (keep e s) es
  keep-Splits s e es p more =
      let lt = p.below e (ground arith) in
      record {
        core = IsCore-frame g b n k s (keep e s) refl refl (length-set s.status e in_cand) p.core;
        cands = append-AllExtend g b n k s s.cands e p.cands lt more;
        distinct = λ i. ground (arith, p.distinct i, occurrences-append i s.cands (e ∷ []));
        marked = λ i h new.
            let fresh : i ≢ e = λ q. absurd (ground (arith, mem-append i s.cands (e ∷ []))) in
            let was = sym (get_or-set_ne s.status e i in_cand 0 (λ q. fresh (sym q))) ∙ h in
            let old = p.marked i was (ground (arith, mem-append i s.cands (e ∷ []))) in
            ground arith;
        all_marked = λ i m. elim (Bool-cases (i == e)) [
          | inl q ↦
              let q' : i ≡ e = (==_iff i e).0 q in
              rw q' (get_or-set_self s.status e in_cand 0 (omega (arith, p.core.marks)))
          | inr d ↦
              get_or-set_ne s.status e i in_cand 0 (λ q. absurd (ground arith))
              ∙ p.all_marked i (ground (arith, mem-append i s.cands (e ∷ [])))
        ];
        below = λ i m. p.below i (ground arith);
      }

  drop-Splits : (s : Impl) (e : ℕ) (es : List ℕ) → Splits s (e ∷ es) → Splits (drop e s) es
  drop-Splits s e es p =
      let lt : e < length s.status = omega (arith, p.core.marks, p.below e (ground arith)) in
      let gone = get_or-set_self s.status e no_status 0 lt in
      record {
        core = IsCore-frame g b n k s (drop e s) refl refl (length-set s.status e no_status) p.core;
        cands = p.cands;
        distinct = λ i. ground (arith, p.distinct i);
        marked = λ i h new. elim (Bool-cases (i == e)) [
          | inl q ↦
              let q' : i ≡ e = (==_iff i e).0 q in
              let zero_two : 0 ≡ 2 =
                sym gone ∙ subst (λ j. status_of (drop e s) j ≡ in_cand) q' h in
              absurd (omega (arith, zero_two))
          | inr d ↦
              let was =
                sym (get_or-set_ne s.status e i no_status 0 (λ q. absurd (ground arith))) ∙ h in
              let old = p.marked i was new in ground arith
        ];
        all_marked = λ i m. elim (Bool-cases (i == e)) [
          | inl q ↦
              let q' : i ≡ e = (==_iff i e).0 q in
              let once = p.distinct e in
              let some_e = occurrences-eq-zero e s.cands in absurd (ground arith)
          | inr d ↦
              get_or-set_ne s.status e i no_status 0 (λ q. absurd (ground arith)) ∙ p.all_marked i m
        ];
        below = λ i m. p.below i (ground arith);
      }

  record Updates (s t : Impl) : Type 0 where
    done : Splits t []
    kplex : t.kplex ≡ s.kplex
    excluded : t.excluded ≡ s.excluded

  module _ (v : IsGraph g) (small : k < 256) where
    update_cands-Updates :
        (bits : List Bool) (es : List ℕ) (s : Impl)
        → Splits s es
        → Updates s (update_cands g b k bits es s)
    unfolding update_cands
    update_cands-Updates bits [] s p = record { done = p; kplex = refl; excluded = refl }
    update_cands-Updates bits (e ∷ es) s p =
        elim (Bool-cases (not (get_or bits e false) && can_add g b k s e)) [
          | inl h ↦
              let more = can_add-extends g b n k v small s e p.core (ground arith) in
              let rest = update_cands-Updates bits es (keep e s) (keep-Splits s e es p more) in
              rw h (record { done = rest.done; kplex = rest.kplex; excluded = rest.excluded })
          | inr h ↦
              let rest = update_cands-Updates bits es (drop e s) (drop-Splits s e es p) in
              rw h (record { done = rest.done; kplex = rest.kplex; excluded = rest.excluded })
        ]

    pub update_cand_and_excl-IsNode :
        (add_to_excl : List ℕ) (bits : List Bool) (s : Impl)
        → IsCore g b n k s
        → Below g b n k s.excluded
        → AreCands g b n k s s.cands
        → Below g b n k add_to_excl
        → IsNode g b n k (update_cand_and_excl g b k add_to_excl bits s)
          × ((update_cand_and_excl g b k add_to_excl bits s).kplex ≡ s.kplex)
    unfolding update_cand_and_excl
    update_cand_and_excl-IsNode add_to_excl bits s c below are below_add =
        let none = record s { excluded = [] } in
        let old =
          update_excluded-Excludes g b n k v small s.excluded none below
            (IsCore-frame g b n k s none refl refl refl c) (λ e m. absurd (cc)) in
        let mid = update_excluded g b k s.excluded none in
        let new =
          update_excluded-Excludes g b n k v small add_to_excl mid below_add old.core
            old.excluded in
        let both = update_excluded g b k add_to_excl mid in
        let cands : both.cands ≡ s.cands = new.cands ∙ old.cands in
        let start = record both { cands = [] } in
        let last = update_cands-Updates bits both.cands start (record {
          core = IsCore-frame g b n k both start refl refl refl new.core;
          cands = λ e m. absurd (cc);
          distinct = λ e. rw cands (omega (arith, are.distinct e));
          marked = λ e h m. rw cands (are.marked e (old.marked e (new.marked e h)));
          all_marked = λ e m. absurd (cc);
          below = λ e m. are.within e (rw (sym cands) m);
        }) in
        (
          record {
            core = last.done.core;
            cands = last.done.cands;
            excluded = rw (last.kplex, last.excluded) new.excluded;
            are_cands = record {
              distinct = λ e. omega (arith, last.done.distinct e);
              marked = λ e h. elim (Bool-cases (mem e _)) [
                | inl y ↦ y
                | inr y ↦ let never = last.done.marked e h y in absurd (cc)
              ];
              within = λ e m. (last.done.cands e m).0;
            };
            all_marked = last.done.all_marked;
          },
          last.kplex ∙ new.kplex ∙ old.kplex,
        )
