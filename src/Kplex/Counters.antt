-- ===== src/Kplex/Counters.antt =====
-- The counters of non-neighbours and the test `CanAdd` (enumerable/diam2kplex.hpp).
use parallel_enum.Base.{
  ℕ, zero, suc, ◌+◌, ◌*◌, ◌%◌, ◌≤◌, ◌<◌, ◌≡◌, refl, ◌∙◌, true, List, [], ◌∷◌, ◌++◌, length, map,
  get_or, set, ltb, if◌then◌else◌, arith, mem, occurrences, occurrences-append, length-set,
  get_or-set_self, get_or-set_ne, Bool-cases, inl, inr,
}
use parallel_enum.Graph.{Graph}
use parallel_enum.Kplex.{
  Impl, Block, node_at, row, counter, count_non_neighs, add_to_kplex, in_kplex,
}

-- The nodes of the list that are no neighbours of the node `v`.
abbrev pub far : Graph → ℕ → List ℕ → ℕ
far g v [] = 0
far g v (w ∷ ws) = (if g.are_neighs v w then 0 else 1) + far g v ws

pub far-append : (g : Graph) (v : ℕ) (xs ys : List ℕ) → far g v (xs ++ ys) ≡ far g v xs + far g v ys
far-append g v [] ys = omega arith
far-append g v (x ∷ xs) ys = omega (arith, far-append g v xs ys)

-- Each node of the list is a neighbour of all but `k` of them, itself among these.
abbrev pub IsPlex : Graph → ℕ → List ℕ → Type 0
IsPlex g k nodes = (w : ℕ) → mem w nodes ≡ true → far g w nodes ≤ k

-- The members of the k-plex that are no neighbours of the node `v`.
abbrev pub missing : Graph → Block → ℕ → List ℕ → ℕ
missing g b v is = far g v (map (node_at b) is)

missing-append :
    (g : Graph) (b : Block) (v : ℕ) (xs ys : List ℕ)
    → missing g b v (xs ++ ys) ≡ missing g b v xs + missing g b v ys
missing-append g b v [] ys = omega arith
missing-append g b v (x ∷ xs) ys = omega (arith, missing-append g b v xs ys)

-- `nadj` is the complement of the subgraph with `n` nodes.
pub record IsBlock (g : Graph) (b : Block) (n : ℕ) : Type 0 where
  pub complement :
      (i j : ℕ)
      → i < n
      → j < n
      → occurrences j (row b i) ≡ (if g.are_neighs (node_at b i) (node_at b j) then 0 else 1)

-- Each counter counts the non-neighbours in the k-plex, modulo 256.
pub record IsCounted (g : Graph) (b : Block) (n : ℕ) (s : Impl) : Type 0 where
  pub sized : length s.counters ≡ n
  pub bytes : (i : ℕ) → counter s i < 256
  pub counted : (i : ℕ) → i < n → counter s i ≡ missing g b (node_at b i) s.kplex % 256

-- Only the counters and `non_neighs` change.
pub record Counts (es : List ℕ) (s t : Impl) : Type 0 where
  pub kplex : t.kplex ≡ s.kplex
  pub status : t.status ≡ s.status
  pub cands : t.cands ≡ s.cands
  pub excluded : t.excluded ≡ s.excluded
  pub sized : length t.counters ≡ length s.counters
  pub bytes : ((i : ℕ) → counter s i < 256) → (i : ℕ) → counter t i < 256
  pub counted :
      (i : ℕ) → i < length s.counters → counter t i % 256 ≡ (counter s i + occurrences i es) % 256

bump : ℕ → ℕ → ℕ → Impl → Impl
bump k c e s =
    let written =
      (if ltb (counter s e) k
        then record s { non_neighs = set s.non_neighs (k * e + counter s e) c }
        else s) in
    record written { counters = set written.counters e ((counter written e + 1) % 256) }

pub bumped :
    (xs : List ℕ) (e i : ℕ)
    → i < length xs
    → get_or (set xs e ((get_or xs e 0 + 1) % 256)) i 0 % 256
      ≡ (get_or xs i 0 + occurrences i (e ∷ [])) % 256
bumped xs e i lt = ground (
  arith,
  get_or-set_self xs e ((get_or xs e 0 + 1) % 256) 0,
  get_or-set_ne xs e i ((get_or xs e 0 + 1) % 256) 0,
)

pub set-lt :
    (xs : List ℕ) (e i v bound : ℕ)
    → v < bound
    → get_or xs i 0 < bound
    → get_or (set xs e v) i 0 < bound
set-lt [] e i v bound hv h = h
set-lt (x ∷ xs) zero zero v bound hv h = hv
set-lt (x ∷ xs) zero (suc i) v bound hv h = h
set-lt (x ∷ xs) (suc e) zero v bound hv h = h
set-lt (x ∷ xs) (suc e) (suc i) v bound hv h = set-lt xs e i v bound hv h

bump-Counts : (k c e : ℕ) (s : Impl) → Counts (e ∷ []) s (bump k c e s)
unfolding bump
bump-Counts k c e s = elim (Bool-cases (ltb (counter s e) k)) [
  | inl h ↦ rw h (record {
    kplex = refl;
    status = refl;
    cands = refl;
    excluded = refl;
    sized = length-set s.counters e _;
    bytes = λ h i. set-lt s.counters e i _ 256 (omega arith) (h i);
    counted = bumped s.counters e;
  })
  | inr h ↦ rw h (record {
    kplex = refl;
    status = refl;
    cands = refl;
    excluded = refl;
    sized = length-set s.counters e _;
    bytes = λ h i. set-lt s.counters e i _ 256 (omega arith) (h i);
    counted = bumped s.counters e;
  })
]

count_non_neighs-Counts :
    (k c : ℕ) (es : List ℕ) (s : Impl) → Counts es s (count_non_neighs k c es s)
unfolding count_non_neighs bump
count_non_neighs-Counts k c [] s = record {
  kplex = refl;
  status = refl;
  cands = refl;
  excluded = refl;
  sized = refl;
  bytes = λ h. h;
  counted = λ i lt. omega arith;
}
count_non_neighs-Counts k c (e ∷ es) s =
    let t = bump k c e s in
    let one = bump-Counts k c e s in
    let rest = count_non_neighs-Counts k c es t in
    record {
      kplex = rest.kplex ∙ one.kplex;
      status = rest.status ∙ one.status;
      cands = rest.cands ∙ one.cands;
      excluded = rest.excluded ∙ one.excluded;
      sized = rest.sized ∙ one.sized;
      bytes = λ h. rest.bytes (one.bytes h);
      counted = λ i lt.
          let here = one.counted i lt in
          let later = rest.counted i (rw one.sized lt) in
          omega (arith, occurrences-append i (e ∷ []) es);
    }

-- For an index of a block whose `nadj` is the complement, and neighbours of the node that are
-- symmetric, `AddToKplex` keeps each counter equal to the number of non-neighbours in the k-plex
-- modulo 256, appends the index to the k-plex, marks its status and leaves candidates and excluded
-- nodes alone.
pub add_to_kplex-IsCounted :
    (g : Graph) (b : Block) (n k c : ℕ) (s : Impl)
    → IsBlock g b n
    → c < n
    → ((i : ℕ)
        → g.are_neighs (node_at b c) (node_at b i) ≡ g.are_neighs (node_at b i) (node_at b c))
    → IsCounted g b n s
    → IsCounted g b n (add_to_kplex b k c s)
      × ((add_to_kplex b k c s).kplex ≡ s.kplex ++ c ∷ [])
      × ((add_to_kplex b k c s).status ≡ set s.status c in_kplex)
      × ((add_to_kplex b k c s).cands ≡ s.cands)
      × ((add_to_kplex b k c s).excluded ≡ s.excluded)
unfolding add_to_kplex
add_to_kplex-IsCounted g b n k c s block lt symm ok =
    let s' = record s { kplex = s.kplex ++ c ∷ []; status = set s.status c in_kplex } in
    let r = count_non_neighs-Counts k c (row b c) s' in
    (
      record {
        sized = r.sized ∙ ok.sized;
        bytes = r.bytes ok.bytes;
        counted = λ i below.
            let up = r.counted i (rw ok.sized below) in
            let small = r.bytes ok.bytes i in
            let old = ok.counted i below in
            let new = block.complement c i lt below in
            let more = missing-append g b (node_at b i) s.kplex (c ∷ []) in
            rw r.kplex (ground (arith, symm i));
      },
      r.kplex,
      r.status,
      r.cands,
      r.excluded,
    )
