-- ===== src/Kplex/Branch/Universal.antt =====
-- The candidates that are neighbours of all other nodes in play, which `ListChildren` adds at once
-- (enumerable/diam2kplex.hpp).
use parallel_enum.Base.{
  ℕ, ◌+◌, ◌≤◌, ◌<◌, ◌≡◌, ◌≢◌, ◌↔◌, refl, ◌∙◌, Bool, true, not, ◌&&◌, List, [], ◌∷◌, ◌++◌, length,
  map, get_or, set, ◌==◌, ==_iff, arith, mem, mem-append, occurrences, occurrences-append,
  length-set, get_or-set_self, Bool-cases, inl, inr, if◌then◌else◌, ap, sym, subst,
}
use parallel_enum.Graph.{Graph}
use parallel_enum.Kplex.{Impl, Block, node_at, row, counter, status_of, in_cand}
use parallel_enum.Kplex.Branch.{count_cands, find_universals}
use parallel_enum.Kplex.Counters.{far}

pub far-eq-zero :
    (g : Graph) (v : ℕ) (xs : List ℕ)
    → (far g v xs ≡ 0) ↔ ((w : ℕ) → mem w xs ≡ true → g.are_neighs v w ≡ true)
far-eq-zero g v [] = (λ h w m. absurd (cc), λ h. refl)
far-eq-zero g v (x ∷ xs) =
    let (down, up) = far-eq-zero g v xs in
    (
      λ h w m. elim (Bool-cases (w == x)) [
        | inl q ↦ let q' : w ≡ x = (==_iff w x).0 q in rw q' (ground arith)
        | inr d ↦ down (ground arith) w (ground arith)
      ],
      λ h.
          let near = h x (ground arith) in
          let rest = up (λ w m. h w (ground arith)) in ground arith,
    )

pub map-append_one :
    (b : Block) (xs : List ℕ) (c : ℕ)
    → map (node_at b) (xs ++ c ∷ []) ≡ map (node_at b) xs ++ node_at b c ∷ []
map-append_one b [] c = refl
map-append_one b (x ∷ xs) c = ap (λ ys. node_at b x ∷ ys) (map-append_one b xs c)

module _ (s : Impl) (u : ℕ) where
  -- The count of a row only grows, and stays where nothing of the row is counted.
  length-count_cands :
      (vs cand_counters : List ℕ) → length (count_cands s u vs cand_counters) ≡ length cand_counters
  unfolding count_cands
  length-count_cands [] counts = refl
  length-count_cands (v ∷ vs) counts =
      elim (Bool-cases (status_of s v == in_cand && not (u == v))) [
        | inl h ↦ rw h (length-count_cands vs _ ∙ length-set counts u _)
        | inr h ↦ rw h (length-count_cands vs counts)
      ]

  count_cands-none :
      (vs cand_counters : List ℕ)
      → u < length cand_counters
      → get_or (count_cands s u vs cand_counters) u 0 ≡ 0
      → (get_or cand_counters u 0 ≡ 0)
        × ((v : ℕ) → mem v vs ≡ true → u ≢ v → status_of s v ≢ in_cand)
  unfolding count_cands
  count_cands-none [] counts lt h = (h, λ v m. absurd (cc))
  count_cands-none (v ∷ vs) counts lt h =
      elim (Bool-cases (status_of s v == in_cand && not (u == v))) [
        | inl y ↦
            let more = set counts u (get_or counts u 0 + 1) in
            let h' : get_or (count_cands s u vs more) u 0 ≡ 0 =
              ap (λ t. get_or (count_cands s u vs (if t then more else counts)) u 0) (sym y) ∙ h in
            let r =
              count_cands-none vs more (omega (arith, length-set counts u (get_or counts u 0 + 1)))
                h' in
            absurd (omega (arith, get_or-set_self counts u (get_or counts u 0 + 1) 0 lt, r.0))
        | inr y ↦
            let h' : get_or (count_cands s u vs counts) u 0 ≡ 0 =
              ap
                (λ t.
                  get_or
                    (count_cands s u vs
                      (if t then set counts u (get_or counts u 0 + 1) else counts))
                    u 0)
                (sym y)
              ∙ h in
            let r = count_cands-none vs counts lt h' in
            (
              r.0,
              λ w m ne q. elim (Bool-cases (w == v)) [
                | inl e ↦
                    let e' : w ≡ v = (==_iff w v).0 e in
                    let q' : status_of s v ≡ in_cand = subst (λ z. status_of s z ≡ in_cand) e' q in
                    absurd (ground arith)
                | inr e ↦ r.1 w (ground arith) ne q
              ],
            )
      ]

-- A candidate with no non-neighbour among the members and the other candidates.
pub record IsUniversal (b : Block) (s : Impl) (u : ℕ) : Type 0 where
  pub is_cand : mem u s.cands ≡ true
  pub no_counter : counter s u ≡ 0
  pub alone : (v : ℕ) → mem v (row b u) ≡ true → u ≢ v → status_of s v ≢ in_cand

module _ (b : Block) (s : Impl) where
  pub find_universals-IsUniversal :
      (us cand_counters found : List ℕ)
      → ((u : ℕ) → mem u us ≡ true → (mem u s.cands ≡ true) × (u < length cand_counters))
      → ((u : ℕ) → mem u found ≡ true → IsUniversal b s u)
      → (u : ℕ) → mem u (find_universals b s us cand_counters found).1 ≡ true
      → IsUniversal b s u
  unfolding find_universals
  find_universals-IsUniversal [] counts found within good = good
  find_universals-IsUniversal (u ∷ us) counts found within good =
      let counts' = count_cands s u (row b u) counts in
      let same = length-count_cands s u (row b u) counts in
      let within' : (w : ℕ) → mem w us ≡ true → (mem w s.cands ≡ true) × (w < length counts') =
        λ w m. let r = within w (ground arith) in (r.0, omega (arith, same, r.1)) in
      let next =
        λ (t : Bool). find_universals b s us counts' (if t then found ++ u ∷ [] else found) in
      let goal = λ (t : Bool). (w : ℕ) → mem w (next t).1 ≡ true → IsUniversal b s w in
      elim (Bool-cases (counter s u == 0 && get_or counts' u 0 == 0)) [
        | inl h ↦ subst goal (sym h) (
            find_universals-IsUniversal us counts' (found ++ u ∷ []) within' (λ w m.
              elim (Bool-cases (w == u)) [
                | inl e ↦
                    let here = within u (ground arith) in
                    rw ((==_iff w u).0 e) (record {
                      is_cand = here.0;
                      no_counter = ground arith;
                      alone = (count_cands-none s u (row b u) counts here.1 (ground arith)).1;
                    })
                | inr e ↦ good w (ground (arith, mem-append w found (u ∷ [])))
              ]))
        | inr h ↦ subst goal (sym h) (find_universals-IsUniversal us counts' found within' good)
      ]

  pub occurrences-find_universals-le :
      (us cand_counters found : List ℕ) (u : ℕ)
      → occurrences u (find_universals b s us cand_counters found).1
        ≤ occurrences u found + occurrences u us
  unfolding find_universals
  occurrences-find_universals-le [] counts found w = omega arith
  occurrences-find_universals-le (u ∷ us) counts found w =
      let counts' = count_cands s u (row b u) counts in
      let goal = λ (t : Bool).
        occurrences w (find_universals b s us counts' (if t then found ++ u ∷ [] else found)).1
        ≤ occurrences w found + occurrences w (u ∷ us) in
      elim (Bool-cases (counter s u == 0 && get_or counts' u 0 == 0)) [
        | inl h ↦ subst goal (sym h) (
            ground (
              arith,
              occurrences-find_universals-le us counts' (found ++ u ∷ []) w,
              occurrences-append w found (u ∷ []),
            ))
        | inr h ↦
            subst goal (sym h) (ground (arith, occurrences-find_universals-le us counts' found w))
      ]
